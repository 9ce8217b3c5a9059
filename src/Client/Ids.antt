-- ===== src/Client/Ids.antt =====
-- adb_client.c: the ids of a client's services.
pub mod Steps
pub mod Life
use micro_adb.Common.{ℕ, zero, suc, ◌+◌, ◌^◌, ◌≤◌, ◌<◌, ◌≡◌, arith}
use micro_adb.Packet.{Packet}
use micro_adb.Client.{Client, Env}
use micro_adb.Client.Handlers.{adb_process_packet}
use micro_adb.Client.Lists.{count}
use micro_adb.Client.Numbered.{Numbered, adb_process_packet-Numbered}

module _ {W : Type 0} where
  -- Every id is the id of one service at most, and lies above 0 and below the next one.
  pub record Ids (c : Client W) : Type 0 where
    pub next : 0 < c.next_service_id
    pub once : (i : ℕ) → count i c.services ≤ 1
    pub below : (i : ℕ) → 0 < count i c.services → i < c.next_service_id
    pub above : count 0 c.services ≡ 0

  Ids-Numbered : (c : Client W) → Ids c → Numbered 0 c
  Ids-Numbered c h = record {
    next = h.next;
    once = λ i p. h.once i;
    below = h.below;
    above = omega (arith, h.above);
  }

  one_of : (c : Client W) (i : ℕ) → Numbered 0 c → count i c.services ≤ 1
  one_of c zero h = omega (arith, h.above)
  one_of c (suc i) h = h.once (suc i) (omega arith)

  Numbered-Ids : (c : Client W) → Numbered 0 c → Ids c
  Numbered-Ids c h = record {
    next = h.next;
    once = λ i. one_of c i h;
    below = h.below;
    above = omega (arith, h.above);
  }

module _ {W : Type 0} (e : Env W) where
  -- Where every id is the id of one service at most, above 0 and below the next one, and the next
  -- id is not the last of its 32 bits, adb_process_packet leaves the ids so for any frame.
  pub adb_process_packet-Ids :
      (c : Client W) (p : Packet)
      → Ids c
      → c.next_service_id + 1 < 2 ^ 32
      → Ids (adb_process_packet e c p)
  adb_process_packet-Ids c p h n =
      Numbered-Ids _ (adb_process_packet-Numbered e 0 c p (Ids-Numbered c h) n)
