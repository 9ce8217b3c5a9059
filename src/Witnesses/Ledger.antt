-- ===== src/Witnesses/Ledger.antt =====
-- The world of Examples/Books.antt keeps the accounts.
use micro_adb.Common.{◌≡◌, refl, ◌∙◌, arith}
use micro_adb.Os.Closed.{OsClosed}
use micro_adb.Uv.{Handle, transport, write_pipe, socket, pipe, process}
use micro_adb.Uv.Closed.{UvClosed}
use micro_adb.Client.Ownership.{Same, Ledger}
use micro_adb.Examples.Books.{Book, close_handle, level, book_os, book_uv, book_env}

-- What the accounts do not count may change.
unchanged :
    (w w' : Book) → w'.live ≡ w.live → w'.flight ≡ w.flight → w'.lost ≡ w.lost → Same level w w'
unchanged w w' a b c = record { live = a; flight = b; lost = c }

Same-trans : {u v w : Book} → Same level u v → Same level v w → Same level u w
Same-trans h k = record {
  live = k.live ∙ h.live;
  flight = k.flight ∙ h.flight;
  lost = k.lost ∙ h.lost;
}

book_os-OsClosed : OsClosed book_os (Same level)
book_os-OsClosed = record {
  same = λ a. unchanged _ _ refl refl refl;
  next = λ h k. Same-trans h k;
  stat = λ a b. unchanged _ _ refl refl refl;
  lstat = λ a b. unchanged _ _ refl refl refl;
  opendir = λ a b. unchanged _ _ refl refl refl;
  readdir = λ a b. unchanged _ _ refl refl refl;
  closedir = λ a b. unchanged _ _ refl refl refl;
  open_read = λ a b. unchanged _ _ refl refl refl;
  open_write = λ a b c. unchanged _ _ refl refl refl;
  read = λ a b c. unchanged _ _ refl refl refl;
  write = λ a b c. unchanged _ _ refl refl refl;
  close = λ a b. unchanged _ _ refl refl refl;
  unlink = λ a b. unchanged _ _ refl refl refl;
  mkdir = λ a b c. unchanged _ _ refl refl refl;
  symlink = λ a b c. unchanged _ _ refl refl refl;
  malloc = λ a b. unchanged _ _ refl refl refl;
  free = λ a b. unchanged _ _ refl refl refl;
}

closed_handle : (h : Handle) (w : Book) → Same level w (close_handle h w)
closed_handle transport w = unchanged _ _ refl refl refl
closed_handle write_pipe w = unchanged _ _ refl refl refl
closed_handle (socket addr) w = unchanged _ _ refl refl refl
closed_handle (pipe addr) w = unchanged _ _ refl refl refl
closed_handle (process addr) w = unchanged _ _ refl refl refl

book_uv-UvClosed : UvClosed book_uv (Same level)
book_uv-UvClosed = record {
  read_start = λ a b. unchanged _ _ refl refl refl;
  read_stop = λ a b. unchanged _ _ refl refl refl;
  close = λ a b. closed_handle a b;
  kill = λ a b. unchanged _ _ refl refl refl;
  tcp_init = λ a b. unchanged _ _ refl refl refl;
  tcp_connect = λ a b c. unchanged _ _ refl refl refl;
  random = λ a b. unchanged _ _ refl refl refl;
  malloc_service = λ a. unchanged _ _ refl refl refl;
  malloc_afs = λ a. unchanged _ _ refl refl refl;
  free_service = λ a b. unchanged _ _ refl refl refl;
  openpt = λ a. unchanged _ _ refl refl refl;
  grantpt = λ a b. unchanged _ _ refl refl refl;
  unlockpt = λ a b. unchanged _ _ refl refl refl;
  open_slave = λ a b. unchanged _ _ refl refl refl;
  set_raw = λ a b. unchanged _ _ refl refl refl;
  close_fd = λ a b. unchanged _ _ refl refl refl;
  pipe_init = λ a b. unchanged _ _ refl refl refl;
  pipe_open = λ a b c. unchanged _ _ refl refl refl;
  spawn = λ a b c d. unchanged _ _ refl refl refl;
  print = λ a b. unchanged _ _ refl refl refl;
  free_client = λ a. unchanged _ _ refl refl refl;
}

pub book_env-Ledger : Ledger book_env level
book_env-Ledger = record {
  os = book_os-OsClosed;
  uv = book_uv-UvClosed;
  malloc_some = λ n p w h. (refl, refl, refl);
  malloc_none = λ n w h. cc;
  free = λ p w h. (ground (arith, h), refl, refl);
  write = λ h p bs w z. ground (arith, z);
  lose = λ h p bs w y z. ground (arith, y, z);
  refuse = λ h p bs w y z. rw y (unchanged w w refl refl refl);
}
