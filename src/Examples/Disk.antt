-- ===== src/Examples/Disk.antt =====
-- A system whose world holds what is left of a file and of a directory, and counts what is open.
use micro_adb.Common.{
  ℕ, suc, ◌-◌, List, [], ◌∷◌, Option, none, some, true, min, take, drop, codes, length, replicate,
}
use micro_adb.Packet.{Packet}
use micro_adb.Os.{Os, got, wrote, made}
use micro_adb.Sync.{Ctx, process_recv, process_list}
use micro_adb.Examples.{afs, packet}

pub record Disk : Type 0 where
  pub open_count : ℕ
  pub left : List ℕ
  pub names : List (List ℕ)

abbrev pub opened : Disk → Disk
opened w = record w { open_count = suc w.open_count }

abbrev pub shut : Disk → Disk
shut w = record w { open_count = w.open_count - 1 }

-- readdir's answer, and what it leaves.
abbrev pub first_name : List (List ℕ) → Option (List ℕ)
first_name [] = none
first_name (n ∷ ns) = some n

abbrev pub other_names : List (List ℕ) → List (List ℕ)
other_names [] = []
other_names (n ∷ ns) = ns

-- Reads give three bytes at most.
abbrev pub disk_os : Os Disk
disk_os = record {
  stat = λ path w. (none, w);
  lstat = λ path w. (none, w);
  opendir = λ path w. (some 3, opened w);
  readdir = λ dir w. (first_name w.names, record w { names = other_names w.names });
  closedir = λ dir w. shut w;
  open_read = λ path w. (some 4, opened w);
  open_write = λ path mode w. (some 5, opened w);
  read = λ fd n w. (got (take (min n 3) w.left), record w { left = drop (min n 3) w.left });
  write = λ fd bs w. (wrote (length bs), w);
  close = λ fd w. shut w;
  unlink = λ path w. w;
  mkdir = λ path mode w. (made, w);
  symlink = λ target path w. (true, w);
  malloc = λ n w. (some (replicate n 0), opened w);
  free = λ mem w. shut w;
  strtoul = λ text. 33188;
  error_text = λ w. [];
}

-- Something else is open too.
abbrev pub disk : Disk
disk = record { open_count = 2; left = codes "hello"; names = codes "." ∷ codes "file" ∷ [] }

abbrev pub okay_packet : Packet
okay_packet = packet 64 0 7 1 [] 0

-- The service in the middle of a RECV, and of a LIST.
abbrev pub reading : Ctx Disk
reading = record {
  svc = record afs { state = process_recv; recv_fd = some 4 };
  pkt = okay_packet;
  world = disk;
}

abbrev pub listing : Ctx Disk
listing = record {
  svc = record afs { state = process_list; list_d = 3 };
  pkt = okay_packet;
  world = disk;
}
