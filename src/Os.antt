-- ===== src/Os.antt =====
-- What the program asks of the C library and the kernel, as a parameter: a type `W` of worlds and
-- the calls as functions on it. `none` stands for a null pointer or a negative descriptor.
pub mod Closed
use micro_adb.Common.{ℕ, Bool, List, Option}

pub record Stat : Type 0 where
  pub mode : ℕ
  pub size : ℕ
  pub mtime : ℕ

-- read(2): the bytes that it stored, none at the end of the file, or -1.
pub data Read : Type 0 where
  got : List ℕ → Read
  read_failed : Read

-- write(2): how many bytes it took, or -1 with EINTR or with another errno.
pub data Write : Type 0 where
  wrote : ℕ → Write
  interrupted write_failed : Write

-- mkdir(2): 0, or -1 with EEXIST or with another errno.
pub data Mkdir : Type 0 where
  made exists mkdir_failed : Mkdir

pub record Os (W : Type 0) : Type 0 where
  pub stat : List ℕ → W → Option Stat × W
  pub lstat : List ℕ → W → Option Stat × W
  pub opendir : List ℕ → W → Option ℕ × W
  pub readdir : ℕ → W → Option (List ℕ) × W
  pub closedir : ℕ → W → W
  pub open_read : List ℕ → W → Option ℕ × W
  pub open_write : List ℕ → ℕ → W → Option ℕ × W
  pub read : ℕ → ℕ → W → Read × W
  pub write : ℕ → List ℕ → W → Write × W
  pub close : ℕ → W → W
  pub unlink : List ℕ → W → W
  pub mkdir : List ℕ → ℕ → W → Mkdir × W
  pub symlink : List ℕ → List ℕ → W → Bool × W
  -- The contents of fresh memory are the allocator's.
  pub malloc : ℕ → W → Option (List ℕ) × W
  pub free : List ℕ → W → W
  pub strtoul : List ℕ → ℕ
  -- strerror(errno).
  pub error_text : W → List ℕ
