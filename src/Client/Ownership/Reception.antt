-- ===== src/Client/Ownership/Reception.antt =====
-- Reception of packets, and the callback of a write of the transport, keep the accounts.
use micro_adb.Common.{
  ℕ, ◌+◌, ◌<◌, ◌≡◌, refl, ap, ◌∙◌, inl, inr, List, Option, none, some, Bool, true, not, ◌==◌, ltb,
  if_elim, on_option, arith, length,
}
use micro_adb.Packet.{Packet, sizeof_message}
use micro_adb.Frame.{check_frame_data}
use micro_adb.Uv.{transport}
use micro_adb.Client.{Client, Env}
use micro_adb.Client.Kick.{adb_hal_apacket_release}
use micro_adb.Client.Life.{drop_packet}
use micro_adb.Client.Receive.{
  Read, no_buffers, nothing, read_error, bytes, store, start_packet, allocate_for,
  adb_uv_allocate_frame, bad_header, take_bytes, complete_packet, adb_uv_on_data_available,
  adb_uv_after_write,
}
use micro_adb.Client.Steady.{allocate-Steady}
use micro_adb.Client.Walk.{hand}
use micro_adb.Client.Walk.Sends.{ops_close-Rel, allocate-Rel, data_frame-Rel}
use micro_adb.Client.Walk.Kick.{release-Rel}
use micro_adb.Client.Walk.Process.{process_packet-Rel}
use micro_adb.Client.Ownership.{Level, Ledger, held, Valid}
use micro_adb.Client.Ownership.Laws.{Keeps, owned, owned-Bears}

-- The packet in reception left out of the accounts.
abbrev aside : Option Packet → ℕ
aside o = 0

module _ {W : Type 0} (e : Env W) (l : Level W) where
  -- A client with another packet in reception.
  moved :
      (g g' : Option Packet → ℕ) (n m len : ℕ) (o : Option Packet) (c : Client W)
      → n + g c.cur_packet ≡ m + g' o
      → Valid e l g n c
      → Valid e l g' m (record c { cur_packet = o; cur_len = len })
  moved g g' n m len o c z (inl u) = inl u
  moved g g' n m len o c z (inr v) = inr (record {
    bounded = v.bounded;
    counted = v.counted;
    accounted = omega (arith, v.accounted, z);
  })

module _ {W : Type 0} (e : Env W) (l : Level W) (b : Ledger e l)
    (positive : 0 < e.config.frame_max) where
  start_packet-Keeps :
      (c : Client W) (o : Option Packet)
      → c.cur_packet ≡ none
      → Valid e l held (hand 0 o) c
      → Valid e l held 0 (start_packet e o c).1
  unfolding start_packet
  start_packet-Keeps c none z v = v
  start_packet-Keeps c (some p) z v =
      moved e l held held 1 0 0 (some p) c (omega (arith, ap held z)) v

  allocate_for-Keeps :
      (c : Client W) (o : Option Packet)
      → c.cur_packet ≡ o
      → Keeps e l held 0 0 c (allocate_for e o c).1
  unfolding allocate_for
  allocate_for-Keeps c (some p) z v = v
  allocate_for-Keeps c none z v =
      start_packet-Keeps _ _ ((allocate-Steady e c (not c.is_connected)).packet ∙ z)
        (allocate-Rel e (owned e l held b positive) 0 c (not c.is_connected) v)

  pub offered-Keeps : (c : Client W) → Keeps e l held 0 0 c (adb_uv_allocate_frame e c).1
  unfolding adb_uv_allocate_frame
  offered-Keeps c v = allocate_for-Keeps c c.cur_packet refl v

  -- The packet in reception is released while it still stands there.
  release_current :
      (c : Client W) (p : Packet)
      → c.cur_packet ≡ some p
      → Valid e l held 0 c
      → Valid e l held 0 (record (adb_hal_apacket_release e c p) { cur_packet = none })
  release_current c p z v =
      let apart : Valid e l aside 1 c =
        moved e l held aside 0 1 c.cur_len c.cur_packet c (omega (arith, ap held z)) v in
      moved e l aside held 0 0 _ none _ (omega arith)
        (release-Rel e (owned e l aside b positive) 0 c p apart)

  pub drop_packet-Keeps :
      (c : Client W) (o : Option Packet)
      → c.cur_packet ≡ o
      → Valid e l held 0 c
      → Valid e l held 0 (drop_packet e o c)
  unfolding drop_packet
  drop_packet-Keeps c none z v = v
  drop_packet-Keeps c (some p) z v = release_current c p z v

  complete_packet-Keeps :
      (c : Client W) (p : Packet)
      → held c.cur_packet ≡ 1
      → Keeps e l held 0 0 c (complete_packet e c p)
  unfolding complete_packet
  complete_packet-Keeps c p z =
      if_elim (Keeps e l held 0 0 c) (check_frame_data p)
        (λ v.
          process_packet-Rel e (owned e l held b positive) (owned-Bears e l held b positive) 0 _ p
            (moved e l held held 0 1 c.cur_len none c (omega (arith, z)) v))
        (ops_close-Rel e (owned e l held b positive) 0 e.ops c)

  take_bytes-Keeps :
      (c : Client W) (p : Packet) (n : ℕ)
      → held c.cur_packet ≡ 1
      → Keeps e l held 0 0 c (take_bytes e c p n)
  unfolding take_bytes
  take_bytes-Keeps c p n z =
      if_elim (Keeps e l held 0 0 c) (bad_header e c p n)
        (λ v.
          ops_close-Rel e (owned e l held b positive) 0 e.ops _
            (moved e l held held 0 0 c.cur_len (some p) c (omega (arith, z)) v))
        (if_elim (Keeps e l held 0 0 c) (ltb (c.cur_len + n) (sizeof_message + p.data_length))
          (λ v. moved e l held held 0 0 (c.cur_len + n) (some p) c (omega (arith, z)) v)
          (λ v.
            complete_packet-Keeps _ p refl
              (moved e l held held 0 0 (c.cur_len + n) (some p) c (omega (arith, z)) v)))

  nothing-Keeps :
      (c : Client W) (o : Option Packet)
      → c.cur_packet ≡ o
      → Keeps e l held 0 0 c (
          on_option o
            (record c { undefined = true })
            (λ p. record (adb_hal_apacket_release e c p) { cur_packet = none }))
  nothing-Keeps c none z v = inl refl
  nothing-Keeps c (some p) z v = release_current c p z v

  bytes-Keeps :
      (c : Client W) (bs : List ℕ) (o : Option Packet)
      → c.cur_packet ≡ o
      → Keeps e l held 0 0 c (
          on_option o
            (record c { undefined = true })
            (λ p. take_bytes e c (store c.cur_len bs p) (length bs)))
  bytes-Keeps c bs none z v = inl refl
  bytes-Keeps c bs (some p) z v = take_bytes-Keeps c _ (length bs) (ap held z) v

  pub read-Keeps : (c : Client W) (r : Read) → Keeps e l held 0 0 c (adb_uv_on_data_available e c r)
  unfolding adb_uv_on_data_available
  read-Keeps c no_buffers =
      (owned e l held b positive).quiet 0 _ c (b.uv.read_stop transport c.world)
  read-Keeps c nothing =
      if_elim (Keeps e l held 0 0 c) (c.cur_len == 0) (nothing-Keeps c c.cur_packet refl) (λ v. v)
  read-Keeps c read_error = ops_close-Rel e (owned e l held b positive) 0 e.ops c
  read-Keeps c (bytes bs) = bytes-Keeps c bs c.cur_packet refl

  pub written-Keeps :
      (c : Client W) (p : Packet) (ok : Bool) → Keeps e l held 1 0 c (adb_uv_after_write e c p ok)
  unfolding adb_uv_after_write
  written-Keeps c p ok =
      let k = owned e l held b positive in
      if_elim (Keeps e l held 1 0 c) (not ok)
        (λ v. ops_close-Rel e k 0 e.ops _ (release-Rel e k 0 c p v))
        (if_elim (Keeps e l held 1 0 c) (ltb 0 p.write_len) (data_frame-Rel e k 0 c p)
          (release-Rel e k 0 c p))
