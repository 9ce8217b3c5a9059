-- ===== src/Witnesses/Reception.antt =====
-- The theorems on reception, ids and set-up at a client of Examples/Books.antt.
use micro_adb.Common.{ℕ, ◌+◌, ◌≤◌, ◌<◌, ◌≡◌, refl, Bool, true, false, arith, length-replicate}
use micro_adb.Os.Closed.{OsClosed}
use micro_adb.Uv.{Handle, transport, write_pipe, socket, pipe, process}
use micro_adb.Uv.Closed.{UvClosed}
use micro_adb.Examples.{stream_service}
use micro_adb.Examples.Books.{
  Book, blank, level, close_handle, book_os, book_uv, book_env, fresh_client,
}
use micro_adb.Client.{Client, f_not_connected}
use micro_adb.Client.Frames.{adb_uv_packet_allocate}
use micro_adb.Client.Receive.{start_packet, allocate_for, adb_uv_allocate_frame}
use micro_adb.Client.Receive.Bounds.{MallocSizes, room}
use micro_adb.Client.Stream.{tcp_stream_on_connect_cb}
use micro_adb.Client.Life.{
  adb_uv_create_client, adb_create_client, adb_hal_create_client, adb_init_client,
}
use micro_adb.Client.Accept.Accounts.{Accounts}
use micro_adb.Client.Lists.{count}
use micro_adb.Client.Ids.Life.{Serves, Serves-ids}
use micro_adb.Client.Ownership.Steps.{allocate_frame, socket_connected}
use micro_adb.Client.Reads.{Later, Closes}
use micro_adb.Client.Reads.Life.{Reads, Reads-inside}

-- What is closed stays closed where nothing changes it.
kept : (w w' : Book) → w'.shut ≡ w.shut → Later (λ (v : Book). v.shut) w w'
kept w w' z h = ground (arith, z, h)

shut_handle : (h : Handle) (w : Book) → Later (λ (v : Book). v.shut) w (close_handle h w)
shut_handle transport w = λ z. refl
shut_handle write_pipe w = λ z. z
shut_handle (socket addr) w = λ z. z
shut_handle (pipe addr) w = λ z. z
shut_handle (process addr) w = λ z. z

abbrev closed : Book → Bool
closed w = w.shut

book_os-Later : OsClosed book_os (Later closed)
book_os-Later = record {
  same = λ w z. z;
  next = λ h k z. k (h z);
  stat = λ a b z. z;
  lstat = λ a b z. z;
  opendir = λ a b z. z;
  readdir = λ a b z. z;
  closedir = λ a b z. z;
  open_read = λ a b z. z;
  open_write = λ a b c z. z;
  read = λ a b c z. z;
  write = λ a b c z. z;
  close = λ a b z. z;
  unlink = λ a b z. z;
  mkdir = λ a b c z. z;
  symlink = λ a b c z. z;
  malloc = λ a b z. z;
  free = λ a b z. z;
}

book_uv-Later : UvClosed book_uv (Later closed)
book_uv-Later = record {
  read_start = λ a b z. z;
  read_stop = λ a b z. z;
  close = shut_handle;
  kill = λ a b z. z;
  tcp_init = λ a b z. z;
  tcp_connect = λ a b c z. z;
  random = λ a b z. z;
  malloc_service = λ a z. z;
  malloc_afs = λ a z. z;
  free_service = λ a b z. z;
  openpt = λ a z. z;
  grantpt = λ a b z. z;
  unlockpt = λ a b z. z;
  open_slave = λ a b z. z;
  set_raw = λ a b z. z;
  close_fd = λ a b z. z;
  pipe_init = λ a b z. z;
  pipe_open = λ a b c z. z;
  spawn = λ a b c d z. z;
  print = λ a b z. z;
  free_client = λ a z. z;
}

book_env-Closes : Closes book_env closed
book_env-Closes = record {
  os = book_os-Later;
  uv = book_uv-Later;
  write = λ h p bs w z. ground (arith, z);
  malloc = λ n w z. z;
  free = λ p w z. z;
  closes = λ w. refl;
}

book_env-MallocSizes : MallocSizes book_env
book_env-MallocSizes n w p h = ground (arith, h, length-replicate {A = ℕ} n 0)

fresh-Reads : Reads book_env level closed fresh_client
unfolding adb_uv_create_client adb_create_client adb_hal_create_client adb_init_client
fresh-Reads = Reads.start blank fresh_client refl

-- A client that waits for the rest of a packet.
abbrev waiting : Client Book
waiting = (adb_uv_allocate_frame book_env fresh_client).1

waiting-Reads : Reads book_env level closed waiting
waiting-Reads = Reads.later fresh-Reads allocate_frame refl

waiting-open : closed waiting.world ≡ false
unfolding adb_uv_allocate_frame allocate_for adb_uv_packet_allocate start_packet
waiting-open = refl

Reads-inside_example :
    let r = adb_uv_allocate_frame book_env waiting in
    r.0.base + r.0.len ≤ room book_env r.1.cur_packet
Reads-inside_example =
    Reads-inside book_env closed book_env-Closes book_env-MallocSizes level waiting-Reads
      waiting-open

-- A client with a stream whose connection has been made.
abbrev met : Client Book
met = tcp_stream_on_connect_cb book_env stream_service f_not_connected true fresh_client

met-Serves : Serves book_env level met
unfolding adb_uv_create_client adb_create_client adb_hal_create_client adb_init_client
met-Serves =
    Serves.later (Serves.start blank fresh_client refl) (omega arith)
      (socket_connected stream_service f_not_connected true)

Serves-ids_example :
    ((i : ℕ) → 0 < i → count i met.services ≤ 1)
    × ((i : ℕ) → 0 < count i met.services → i < met.next_service_id)
Serves-ids_example = Serves-ids book_env level met-Serves

close_handle-held : (h : Handle) (w : Book) → (close_handle h w).held ≡ w.held
close_handle-held transport w = refl
close_handle-held write_pipe w = refl
close_handle-held (socket addr) w = refl
close_handle-held (pipe addr) w = refl
close_handle-held (process addr) w = refl

book_env-Accounts : Accounts book_env
book_env-Accounts = record {
  count = λ w. w.held;
  of_client = 1;
  of_fd = 1;
  malloc_client = λ w. omega arith;
  free_client = λ w h. omega arith;
  close = close_handle-held;
  open_device = λ p a w. omega arith;
  close_fd = λ fd w h. omega arith;
  tcp_init = λ h w. refl;
  accept = λ h w. refl;
  read_start = λ h w. refl;
  pipe_init = λ h w. refl;
  pipe_open = λ h fd w. refl;
  poll_init = λ fd w. refl;
  poll_start = λ w. refl;
  poll_close = λ w. refl;
  read = λ fd n w. refl;
  write = λ fd bs w. refl;
}

abbrev holding : Book
holding = record blank { held = 3 }
