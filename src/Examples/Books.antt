-- ===== src/Examples/Books.antt =====
-- A world that counts packets, and what else is held, and a client over it.
use micro_adb.Common.{
  List, ◌∷◌, ◌||◌, ◌==◌, ℕ, suc, ◌-◌, Bool, [], none, some, true, false, if◌then◌else◌, take, codes,
  replicate, length,
}
use micro_adb.Os.{Os, got, wrote, made}
use micro_adb.Uv.{Uv, Handle, transport, write_pipe, socket, pipe, process}
use micro_adb.Client.{adb_tcp_uv_ops, Client, Env}
use micro_adb.Client.Walk.{of_service}
use micro_adb.Client.Ownership.{Level}
use micro_adb.Examples.{config, product, packet, afs}

pub record Book : Type 0 where
  pub live : ℕ
  pub flight : ℕ
  pub lost : ℕ
  pub held : ℕ
  pub shut : Bool
  pub reading : List Handle

abbrev pub blank : Book
blank = record { live = 0; flight = 0; lost = 0; held = 0; shut = false; reading = [] }

abbrev pub same_handle : Handle → Handle → Bool
same_handle transport transport = true
same_handle write_pipe write_pipe = true
same_handle (socket a) (socket b) = a == b
same_handle (pipe a) (pipe b) = a == b
same_handle (process a) (process b) = a == b
same_handle h g = false

abbrev pub among : Handle → List Handle → Bool
among h [] = false
among h (g ∷ gs) = same_handle h g || among h gs

-- What uv_close leaves.
abbrev pub close_handle : Handle → Book → Book
close_handle transport w = record w { shut = true }
close_handle h w = w

abbrev pub level : Level Book
level = record { live = λ w. w.live; flight = λ w. w.flight; lost = λ w. w.lost }

abbrev pub book_os : Os Book
book_os = record {
  stat = λ path w. (none, w);
  lstat = λ path w. (none, w);
  opendir = λ path w. (none, w);
  readdir = λ dir w. (none, w);
  closedir = λ dir w. w;
  open_read = λ path w. (none, w);
  open_write = λ path mode w. (none, w);
  read = λ fd n w. (got (take n (codes "ok")), w);
  write = λ fd bs w. (wrote (length bs), w);
  close = λ fd w. record w { held = w.held - 1 };
  unlink = λ path w. w;
  mkdir = λ path mode w. (made, w);
  symlink = λ target path w. (false, w);
  malloc = λ n w. (some (replicate n 0), w);
  free = λ mem w. w;
  strtoul = λ text. 0;
  error_text = λ w. [];
}

-- Writes to services fail.
abbrev pub book_uv : Uv Book
book_uv = record {
  write =
      λ h p bs w. if of_service h then (false, w) else (true, record w { flight = suc w.flight });
  is_active = λ h w. among h w.reading;
  read_start = λ h w. (true, record w { reading = h ∷ w.reading });
  read_stop = λ h w. w;
  close = close_handle;
  kill = λ h w. w;
  ip4_addr = λ port. true;
  tcp_init = λ h w. (true, w);
  tcp_connect = λ h port w. (true, w);
  random = λ n w. (some (replicate n 9), w);
  atoi = λ text. 8080;
  malloc_packet = λ n w. (some (packet n 0 0 0 [] 0), record w { live = suc w.live });
  free_packet = λ p w. record w { live = w.live - 1 };
  malloc_service = λ w. (some 300, w);
  malloc_afs = λ w. (some (300, afs), w);
  free_service = λ addr w. w;
  malloc_client = λ w. (
    some (record {
      next_service_id = 77;
      is_connected = true;
      token = replicate 20 0;
      cur_len = 0;
      frame_count = 9;
    }),
    record w { held = suc w.held },
  );
  free_client = λ w. record w { held = w.held - 1 };
  server_init = λ w. (true, w);
  server_bind = λ w. (true, w);
  server_listen = λ w. (true, w);
  accept = λ h w. (true, w);
  open_device = λ path access w. (some 8, record w { held = suc w.held });
  poll_init = λ fd w. (true, w);
  poll_start = λ w. (true, w);
  poll_close = λ w. w;
  openpt = λ w. (some 6, w);
  grantpt = λ fd w. (true, w);
  unlockpt = λ fd w. (true, w);
  open_slave = λ fd w. (some 7, w);
  set_raw = λ fd w. w;
  close_fd = λ fd w. w;
  pipe_init = λ h w. (true, w);
  pipe_open = λ h fd w. (true, w);
  spawn = λ h argv fd w. (true, w);
  print = λ text w. w;
  run = λ w. w;
}

-- No public key is accepted.
abbrev pub book_env : Env Book
book_env = record {
  config = record config { auth_pubkey = false };
  product = product;
  os = book_os;
  uv = book_uv;
  ops = adb_tcp_uv_ops;
  retry = 10;
}

-- What adb_uv_create_client makes.
abbrev pub fresh_client : Client Book
fresh_client = record {
  next_service_id = 1;
  services = [];
  is_connected = false;
  token = replicate 20 0;
  cur_packet = none;
  cur_len = 0;
  frame_count = 0;
  undefined = false;
  world = record blank { held = 1 };
}

-- The same after tcp_on_connection, which has it read.
abbrev pub accepted_client : Client Book
accepted_client = record fresh_client {
  world = record blank { held = 1; reading = transport ∷ [] };
}
