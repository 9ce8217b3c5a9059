-- ===== src/Client/Receive/Bounds.antt =====
-- libuv never stores past a packet that it receives.
use micro_adb.Common.{
  ℕ, ◌+◌, ◌≤◌, ◌<◌, ◌≡◌, refl, ◌∙◌, Option, none, some, Bool, not, length, arith,
}
use micro_adb.Packet.{Packet, sizeof_message}
use micro_adb.Client.{Client, Env}
use micro_adb.Client.Frames.{payload_of, adb_uv_packet_allocate}
use micro_adb.Client.Steady.{allocate-Steady}
use micro_adb.Client.Receive.{offer, start_packet, allocate_for, adb_uv_allocate_frame}

-- malloc gives a packet the payload that was asked for.
abbrev pub MallocSizes : {W : Type 0} → Env W → Type 0
MallocSizes {W} e =
    (n : ℕ) (w : W) (p : Packet) → (e.uv.malloc_packet n w).0 ≡ some p → length p.payload ≡ n

module _ {W : Type 0} (e : Env W) where
  -- A packet that is being received has the payload that its connection state calls for, and, once
  -- its header is there, a data_length that its payload holds and that it has not reached.
  abbrev pub Receiving : Client W → Option Packet → Type 0
  Receiving c none = Unit {0}
  Receiving c (some p) =
      (length p.payload ≡ payload_of e (not c.is_connected))
      × (sizeof_message ≤ c.cur_len
          → (p.data_length ≤ length p.payload) × (c.cur_len < sizeof_message + p.data_length))

  -- The memory of the current packet.
  abbrev pub room : Option Packet → ℕ
  room none = 0
  room (some p) = sizeof_message + length p.payload

  -- adb_uv_packet_allocate leaves reception alone, and what it allocates has the payload asked for.
  packet_allocate_lem :
      (c : Client W) (before : Bool)
      → MallocSizes e
      → let r = adb_uv_packet_allocate e c before in
        (r.1.cur_packet ≡ c.cur_packet)
        × (r.1.is_connected ≡ c.is_connected)
        × ((p : Packet) → r.0 ≡ some p → length p.payload ≡ payload_of e before)
  unfolding adb_uv_packet_allocate
  packet_allocate_lem c before m = (
    (allocate-Steady e c before).packet,
    (allocate-Steady e c before).connection,
    λ p h. ground (arith, m (payload_of e before) c.world p),
  )

  start_packet_inside :
      (c : Client W) (mem : Option Packet)
      → ((p : Packet) → mem ≡ some p → length p.payload ≡ payload_of e (not c.is_connected))
      → c.cur_packet ≡ none
      → let r = start_packet e mem c in
        (r.0.base + r.0.len ≤ room r.1.cur_packet) × Receiving r.1 r.1.cur_packet
  unfolding start_packet
  start_packet_inside c none h z = rw z (omega arith, tt)
  start_packet_inside c (some p) h z = (omega arith, (h p refl, λ k. absurd (omega arith)))

  allocate_for_inside :
      (c : Client W) (o : Option Packet)
      → c.cur_packet ≡ o
      → MallocSizes e
      → Receiving c o
      → let r = allocate_for e o c in
        (r.0.base + r.0.len ≤ room r.1.cur_packet) × Receiving r.1 r.1.cur_packet
  unfolding allocate_for offer
  allocate_for_inside c none z m r =
      let k = packet_allocate_lem c (not c.is_connected) m in
      start_packet_inside _ _ (rw k.1 k.2) (k.0 ∙ z)
  allocate_for_inside c (some p) z m r = rw z (ground arith, r)

  -- The memory that adb_uv_allocate_frame offers to libuv lies inside the current packet, whether it
  -- was there or has been allocated, and the state of reception is kept, where malloc gives the
  -- payload that was asked for.
  pub adb_uv_allocate_frame_inside :
      (c : Client W)
      → MallocSizes e
      → Receiving c c.cur_packet
      → let r = adb_uv_allocate_frame e c in
        (r.0.base + r.0.len ≤ room r.1.cur_packet) × Receiving r.1 r.1.cur_packet
  unfolding adb_uv_allocate_frame
  adb_uv_allocate_frame_inside c m r = allocate_for_inside c c.cur_packet refl m r
