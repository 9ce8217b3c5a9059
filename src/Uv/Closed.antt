-- ===== src/Uv/Closed.antt =====
-- A relation on worlds that every call of libuv and of the allocator keeps to, but for those that
-- allocate, free or write a packet.
use micro_adb.Common.{ℕ, List}
use micro_adb.Uv.{Uv, Handle}

pub record UvClosed {W : Type 0} (uv : Uv W) (Q : W → W → Type 0) : Type 0 where
  pub read_start : (h : Handle) (w : W) → Q w (uv.read_start h w).1
  pub read_stop : (h : Handle) (w : W) → Q w (uv.read_stop h w)
  pub close : (h : Handle) (w : W) → Q w (uv.close h w)
  pub kill : (h : Handle) (w : W) → Q w (uv.kill h w)
  pub tcp_init : (h : Handle) (w : W) → Q w (uv.tcp_init h w).1
  pub tcp_connect : (h : Handle) (port : ℕ) (w : W) → Q w (uv.tcp_connect h port w).1
  pub random : (n : ℕ) (w : W) → Q w (uv.random n w).1
  pub malloc_service : (w : W) → Q w (uv.malloc_service w).1
  pub malloc_afs : (w : W) → Q w (uv.malloc_afs w).1
  pub free_service : (addr : ℕ) (w : W) → Q w (uv.free_service addr w)
  pub openpt : (w : W) → Q w (uv.openpt w).1
  pub grantpt : (fd : ℕ) (w : W) → Q w (uv.grantpt fd w).1
  pub unlockpt : (fd : ℕ) (w : W) → Q w (uv.unlockpt fd w).1
  pub open_slave : (fd : ℕ) (w : W) → Q w (uv.open_slave fd w).1
  pub set_raw : (fd : ℕ) (w : W) → Q w (uv.set_raw fd w)
  pub close_fd : (fd : ℕ) (w : W) → Q w (uv.close_fd fd w)
  pub pipe_init : (h : Handle) (w : W) → Q w (uv.pipe_init h w).1
  pub pipe_open : (h : Handle) (fd : ℕ) (w : W) → Q w (uv.pipe_open h fd w).1
  pub spawn : (h : Handle) (argv : List (List ℕ)) (fd : ℕ) (w : W) → Q w (uv.spawn h argv fd w).1
  pub print : (text : List ℕ) (w : W) → Q w (uv.print text w)
  pub free_client : (w : W) → Q w (uv.free_client w)
