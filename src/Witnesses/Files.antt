-- ===== src/Witnesses/Files.antt =====
-- The theorems on what the file service holds and sends, at the system of Examples/Disk.antt.
use micro_adb.Common.{
  ℕ, zero, suc, ◌<◌, ◌≡◌, refl, ap, List, [], ◌∷◌, ◌++◌, some, min, take, drop, length-take, arith,
}
use micro_adb.Sync.{Ctx, Ret}
use micro_adb.Sync.Invariant.{Idle}
use micro_adb.Sync.Service.{file_sync_on_write, file_sync_on_ack, file_sync_on_close}
use micro_adb.Sync.Held.{Tally, Held}
use micro_adb.Sync.Held.Service.{file_sync_holds}
use micro_adb.Sync.Recv.{Reader, Sends, replies, recv-Sends}
use micro_adb.Sync.Listing.{Directory, Tells, list-Tells}
use micro_adb.Examples.{config}
use micro_adb.Examples.Disk.{Disk, disk, disk_os, okay_packet, reading, listing}

-- One for each.
abbrev disk_tally : Tally disk_os
disk_tally = record {
  count = λ w. w.open_count;
  of_fd = 1;
  of_dir = 1;
  of_block = 1;
  open_read = λ p w. omega arith;
  open_write = λ p m w. omega arith;
  opendir = λ p w. omega arith;
  malloc = λ n w. omega arith;
  close = λ fd w h. omega arith;
  closedir = λ d w h. omega arith;
  free = λ m w h. omega arith;
  stat = λ p w. refl;
  lstat = λ p w. refl;
  readdir = λ d w. refl;
  read = λ fd n w. refl;
  write = λ fd bs w. refl;
  unlink = λ p w. refl;
  mkdir = λ p m w. refl;
  symlink = λ a b w. refl;
}

reading-Idle : Idle config reading
reading-Idle = record { path_room = omega arith; buff_size = refl; phase = refl }

file_sync_holds_example :
    ((out : Ret × Ctx Disk) × (file_sync_on_write config disk_os 10 2 reading ≡ some out)
      × Held disk_tally 1 out)
    × Held disk_tally 1 (file_sync_on_ack config disk_os reading)
    × ((file_sync_on_close config disk_os reading).open_count ≡ 1)
file_sync_holds_example =
    file_sync_holds config disk_tally 10 1 reading reading-Idle (omega arith) refl

take-drop : (n : ℕ) (xs : List ℕ) → xs ≡ take n xs ++ drop n xs
take-drop zero xs = refl
take-drop (suc n) [] = refl
take-drop (suc n) (x ∷ xs) = ap (λ t. x ∷ t) (take-drop n xs)

take-none : (n : ℕ) (xs : List ℕ) → 0 < n → take n xs ≡ [] → xs ≡ []
take-none zero xs h z = absurd (omega arith)
take-none (suc n) [] h z = refl
take-none (suc n) (x ∷ xs) h z = cc

disk-Reader : Reader disk_os 4 (λ (w : Disk). w.left)
disk-Reader = record {
  bytes = λ n w. take (min n 3) w.left;
  read = λ n w h. refl;
  moves = λ n w h. take-drop (min n 3) w.left;
  fits = λ n w h. omega (arith, length-take (min n 3) w.left);
  ends = λ n w h z. take-none (min n 3) w.left (omega arith) z;
}

recv-Sends_example : Sends disk.left (replies config disk_os 6 okay_packet reading)
recv-Sends_example =
    recv-Sends config disk_os 4 (λ (w : Disk). w.left) disk-Reader okay_packet 6 reading refl
      (omega arith) (omega arith) refl refl (omega arith)

disk-Directory : Directory disk_os 3 (λ (w : Disk). w.names)
disk-Directory = record {
  last = λ w h. ground (arith, h);
  next = λ w name rest h. ground (arith, h);
  lstat = λ path w. refl;
}

list-Tells_example : Tells disk.names (replies config disk_os 3 okay_packet listing)
list-Tells_example =
    list-Tells config disk_os (omega arith) 3 (λ (w : Disk). w.names) disk-Directory 3 okay_packet
      disk.names listing refl refl refl refl (omega arith) (omega arith)
