-- ===== src/Witnesses/Pushes.antt =====
-- The theorem on a file that is sent, at a service that waits for a DATA message: two blocks in two
-- packets, of which the first ends in the second word of the first header.
use micro_adb.Common.{ℕ, ◌≡◌, refl, List, [], ◌∷◌, ◌++◌, some, arith, codes, drop, take}
use micro_adb.Packet.{Packet}
use micro_adb.Sync.{Ctx, process_send_file_hdr}
use micro_adb.Sync.Invariant.{Idle}
use micro_adb.Sync.Push.{header}
use micro_adb.Sync.Push.Rounds.{Stores}
use micro_adb.Sync.Push.Blocks.{blocks}
use micro_adb.Sync.Push.File.{receive, Sending, receive-stores}
use micro_adb.Examples.{packet, config, afs, file_os, send_ctx}

file_os-Stores : Stores file_os 5 (λ w. w)
file_os-Stores = record {
  count = λ b bs w. 0;
  world = λ b bs w. w ++ b ∷ [];
  write = λ b bs w. refl;
  takes = λ b bs w. omega arith;
  appends = λ b bs w. refl;
}

abbrev waiting : Ctx (List ℕ)
waiting = record send_ctx {
  svc = record afs { state = process_send_file_hdr; send_file_fd = some 5 };
}

waiting-Idle : Idle config waiting
waiting-Idle = record { path_room = omega arith; buff_size = refl; phase = omega arith }

abbrev two_blocks : List (List ℕ)
two_blocks = codes "ab" ∷ codes "c" ∷ []

abbrev two_packets : List Packet
two_packets =
    packet 59 0 7 1 (take 5 (blocks two_blocks)) 5
    ∷ packet 50 0 7 1 (drop 5 (blocks two_blocks)) 14
    ∷ []

receive-stores_example :
    (u : Ctx (List ℕ)) × (receive config file_os 64 two_packets waiting ≡ some u)
    × Sending config file_os 64 5 (λ w. w) file_os-Stores u (header [])
    × (u.world ≡ waiting.world ++ codes "abc")
receive-stores_example =
    receive-stores config file_os 64 5 (λ w. w) file_os-Stores two_packets two_blocks waiting
      waiting-Idle refl refl refl (omega arith, omega arith, (omega arith, omega arith, tt))
      (omega arith, (omega arith, tt)) refl
