-- ===== src/Client/Ownership.antt =====
-- hal/hal_uv_packet.c: who owns the packets that a client has allocated. Each is in the hands of the
-- code, the packet in reception, libuv's until a write's callback, or lost by a write that failed.
pub mod Laws
pub mod Reception
pub mod Steps
pub mod Life
use micro_adb.Common.{List, ℕ, suc, ◌+◌, ◌<◌, ◌≤◌, ◌≡◌, ◌⊎◌, Option, none, some, Bool, true, false}
use micro_adb.Packet.{Packet}
use micro_adb.Os.Closed.{OsClosed}
use micro_adb.Uv.{Handle}
use micro_adb.Uv.Closed.{UvClosed}
use micro_adb.Client.{Client, Env}
use micro_adb.Client.Walk.{of_service}

-- What of a world the accounts stand on: the packets that are allocated, those that libuv holds for
-- a write, and those that were given to a write of the transport that failed.
pub record Level (W : Type 0) : Type 0 where
  pub live : W → ℕ
  pub flight : W → ℕ
  pub lost : W → ℕ

pub record Same {W : Type 0} (l : Level W) (w w' : W) : Type 0 where
  pub live : l.live w' ≡ l.live w
  pub flight : l.flight w' ≡ l.flight w
  pub lost : l.lost w' ≡ l.lost w

-- Only malloc and free of a packet, and its writes, change the accounts.
pub record Ledger {W : Type 0} (e : Env W) (l : Level W) : Type 0 where
  pub os : OsClosed e.os (Same l)
  pub uv : UvClosed e.uv (Same l)
  pub malloc_some :
      (n : ℕ) (p : Packet) (w : W)
      → (e.uv.malloc_packet n w).0 ≡ some p
      → let w' = (e.uv.malloc_packet n w).1 in
        (l.live w' ≡ suc (l.live w)) × (l.flight w' ≡ l.flight w) × (l.lost w' ≡ l.lost w)
  pub malloc_none :
      (n : ℕ) (w : W) → (e.uv.malloc_packet n w).0 ≡ none → Same l w (e.uv.malloc_packet n w).1
  pub free :
      (p : Packet) (w : W)
      → 0 < l.live w
      → let w' = e.uv.free_packet p w in
        (suc (l.live w') ≡ l.live w) × (l.flight w' ≡ l.flight w) × (l.lost w' ≡ l.lost w)
  pub write :
      (h : Handle) (p : Packet) (bs : List (List ℕ)) (w : W)
      → (e.uv.write h p bs w).0 ≡ true
      → let w' = (e.uv.write h p bs w).1 in
        (l.live w' ≡ l.live w) × (l.flight w' ≡ suc (l.flight w)) × (l.lost w' ≡ l.lost w)
  pub lose :
      (h : Handle) (p : Packet) (bs : List (List ℕ)) (w : W)
      → of_service h ≡ false
      → (e.uv.write h p bs w).0 ≡ false
      → let w' = (e.uv.write h p bs w).1 in
        (l.live w' ≡ l.live w) × (l.flight w' ≡ l.flight w) × (l.lost w' ≡ suc (l.lost w))
  pub refuse :
      (h : Handle) (p : Packet) (bs : List (List ℕ)) (w : W)
      → of_service h ≡ true
      → (e.uv.write h p bs w).0 ≡ false
      → Same l w (e.uv.write h p bs w).1

-- The packet in reception, as a number.
abbrev pub held : Option Packet → ℕ
held none = 0
held (some p) = 1

-- The accounts of a client, with a number of packets in the hands of the code: no more than
-- FRAME_MAX packets, which frame_count counts unless the limit has been met, and each packet is in
-- one place. `g` is how the packet in reception counts.
pub record Owned {W : Type 0} (e : Env W) (l : Level W) (g : Option Packet → ℕ) (n : ℕ)
    (c : Client W) : Type 0 where
  pub bounded : l.live c.world ≤ e.config.frame_max
  pub counted :
      (c.frame_count ≡ l.live c.world)
      ⊎ ((c.frame_count ≡ e.config.frame_max + 1) × (l.live c.world ≡ e.config.frame_max))
  pub accounted : l.live c.world ≡ n + g c.cur_packet + l.flight c.world + l.lost c.world

-- The accounts are right, or the code has no defined behaviour any more.
abbrev pub Valid : {W : Type 0} → Env W → Level W → (Option Packet → ℕ) → ℕ → Client W → Type 0
Valid e l g n c = (c.undefined ≡ true) ⊎ Owned e l g n c
