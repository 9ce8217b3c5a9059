-- ===== src/Client/Walk/Sends.antt =====
-- The functions that send and allocate, under a relation.
use micro_adb.Common.{
  ℕ, suc, ◌+◌, ◌≡◌, refl, inl, inr, Option, none, some, Bool, false, leb, if_elim, on_option,
  Bool-cases, Option-cases,
}
use micro_adb.Packet.{Packet}
use micro_adb.Uv.{transport, write_pipe}
use micro_adb.Client.{Client, Env, Ops, adb_tcp_uv_ops, adb_usb_uv_ops, adb_qemu_uv_ops}
use micro_adb.Client.Transport.{
  set_world, tcp_uv_write, usb_uv_write, qemu_uv_write, tcp_uv_close, usb_uv_close, qemu_uv_close,
  ops_write, ops_close, client_close,
}
use micro_adb.Client.Frames.{
  send_frame, send_close_frame, send_cnxn_frame, adb_send_okay_frame_with_data, adb_send_okay_frame,
  adb_send_data_frame, adb_uv_packet_allocate,
}
use micro_adb.Client.Walk.{Walk, hand}

module _ {W : Type 0} (e : Env W) (k : Walk e) where
  pub ops_close-Rel : (n : ℕ) (o : Ops) (c : Client W) → k.Rel n n c (ops_close e o c)
  unfolding ops_close tcp_uv_close usb_uv_close qemu_uv_close
  ops_close-Rel n adb_tcp_uv_ops c = k.quiet n _ c (k.uv_quiet.close transport c.world)
  ops_close-Rel n adb_usb_uv_ops c =
      k.quiet n _ c
        (k.os_quiet.next (k.uv_quiet.close write_pipe c.world) (k.uv_quiet.close transport _))
  ops_close-Rel n adb_qemu_uv_ops c = k.quiet n _ c (k.uv_quiet.close transport c.world)

  ops_write-Rel :
      (n : ℕ) (o : Ops) (c : Client W) (p : Packet) → k.Rel (suc n) n c (ops_write e o c p).1
  unfolding ops_write tcp_uv_write usb_uv_write qemu_uv_write
  ops_write-Rel n adb_tcp_uv_ops c p = k.sent n transport p _ c refl
  ops_write-Rel n adb_usb_uv_ops c p = k.sent n write_pipe p _ c refl
  ops_write-Rel n adb_qemu_uv_ops c p = k.sent n transport p _ c refl

  pub send_frame-Rel : (n : ℕ) (c : Client W) (p : Packet) → k.Rel (suc n) n c (send_frame e c p)
  unfolding send_frame
  send_frame-Rel n c p =
      k.next (suc n) n n c _ _ (ops_write-Rel n e.ops c _)
        (if_elim (k.Rel n n _) _ (k.same n _) (ops_close-Rel n e.ops _))

  pub send_close_frame-Rel :
      (n : ℕ) (c : Client W) (p : Packet) (a b : ℕ) → k.Rel (suc n) n c (send_close_frame e c p a b)
  unfolding send_close_frame
  send_close_frame-Rel n c p a b = send_frame-Rel n c _

  pub send_cnxn_frame-Rel :
      (n : ℕ) (c : Client W) (p : Packet) → k.Rel (suc n) n c (send_cnxn_frame e c p)
  unfolding send_cnxn_frame
  send_cnxn_frame-Rel n c p = send_frame-Rel n c _

  pub okay_with_data-Rel :
      (n : ℕ) (c : Client W) (p : Packet) (a b : ℕ)
      → k.Rel (suc n) n c (adb_send_okay_frame_with_data e c p a b)
  unfolding adb_send_okay_frame_with_data
  okay_with_data-Rel n c p a b = send_frame-Rel n c _

  pub okay-Rel :
      (n : ℕ) (c : Client W) (p : Packet) (a b : ℕ)
      → k.Rel (suc n) n c (adb_send_okay_frame e c p a b)
  unfolding adb_send_okay_frame
  okay-Rel n c p a b = okay_with_data-Rel n c _ a b

  pub data_frame-Rel :
      (n : ℕ) (c : Client W) (p : Packet) → k.Rel (suc n) n c (adb_send_data_frame e c p)
  unfolding adb_send_data_frame
  data_frame-Rel n c p = send_frame-Rel n c _

  malloc-Rel :
      (n size : ℕ) (c : Client W)
      → leb e.config.frame_max c.frame_count ≡ false
      → let (mem, w) = e.uv.malloc_packet size c.world in
        let r =
          on_option {B = Option Packet × Client W} mem
            (none, client_close e (set_world w c))
            (λ p. (some p, record c { frame_count = c.frame_count + 1; world = w })) in
        k.Rel n (hand n r.0) c r.1
  malloc-Rel n size c h = elim (Option-cases (e.uv.malloc_packet size c.world).0) [
    | inl z ↦ rw z (k.next n n n c _ _ (k.no_memory n size c z) (ops_close-Rel n e.ops _))
    | inr (p, z) ↦ rw z (k.allocated n size p c h z)
  ]

  pub allocate-Rel :
      (n : ℕ) (c : Client W) (before : Bool)
      → let r = adb_uv_packet_allocate e c before in k.Rel n (hand n r.0) c r.1
  unfolding adb_uv_packet_allocate
  allocate-Rel n c before = elim (Bool-cases (leb e.config.frame_max c.frame_count)) [
    | inl z ↦ rw z (k.at_limit n c z)
    | inr z ↦ rw z (malloc-Rel n _ c z)
  ]

  -- What follows an allocation.
  pub on_hand :
      (n : ℕ) (c : Client W) (o : Option Packet) {x : Client W} {f : Packet → Client W}
      → k.Rel n n c x
      → ((p : Packet) → k.Rel (suc n) n c (f p))
      → k.Rel (hand n o) n c (on_option o x f)
  on_hand n c none h g = h
  on_hand n c (some p) h g = g p
