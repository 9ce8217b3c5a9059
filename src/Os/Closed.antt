-- ===== src/Os/Closed.antt =====
-- A relation on worlds that every call of the C library and the kernel keeps to.
use micro_adb.Common.{ℕ, List}
use micro_adb.Os.{Os}

pub record OsClosed {W : Type 0} (os : Os W) (Q : W → W → Type 0) : Type 0 where
  pub same : (w : W) → Q w w
  pub next : {u v w : W} → Q u v → Q v w → Q u w
  pub stat : (path : List ℕ) (w : W) → Q w (os.stat path w).1
  pub lstat : (path : List ℕ) (w : W) → Q w (os.lstat path w).1
  pub opendir : (path : List ℕ) (w : W) → Q w (os.opendir path w).1
  pub readdir : (dir : ℕ) (w : W) → Q w (os.readdir dir w).1
  pub closedir : (dir : ℕ) (w : W) → Q w (os.closedir dir w)
  pub open_read : (path : List ℕ) (w : W) → Q w (os.open_read path w).1
  pub open_write : (path : List ℕ) (mode : ℕ) (w : W) → Q w (os.open_write path mode w).1
  pub read : (fd n : ℕ) (w : W) → Q w (os.read fd n w).1
  pub write : (fd : ℕ) (bs : List ℕ) (w : W) → Q w (os.write fd bs w).1
  pub close : (fd : ℕ) (w : W) → Q w (os.close fd w)
  pub unlink : (path : List ℕ) (w : W) → Q w (os.unlink path w)
  pub mkdir : (path : List ℕ) (mode : ℕ) (w : W) → Q w (os.mkdir path mode w).1
  pub symlink : (target path : List ℕ) (w : W) → Q w (os.symlink target path w).1
  pub malloc : (n : ℕ) (w : W) → Q w (os.malloc n w).1
  pub free : (mem : List ℕ) (w : W) → Q w (os.free mem w)
