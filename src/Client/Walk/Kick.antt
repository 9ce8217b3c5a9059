-- ===== src/Client/Walk/Kick.antt =====
-- The kicks of the services and of the transports, and the release of a packet, under a relation.
use micro_adb.Common.{
  ℕ, suc, refl, List, [], ◌∷◌, Option, none, some, Bool, true, false, ltb, ◌==◌, if◌then◌else◌,
  if_elim, on_option, Bool-cases, inl, inr,
}
use micro_adb.Packet.{Packet}
use micro_adb.Uv.{Handle, transport, socket, pipe}
use micro_adb.Client.{
  Client, Env, Service, Body, sync, tcp, shell, f_error_close, f_not_connected, f_notify_client,
  f_connected, f_wait_ack, Ops, adb_tcp_uv_ops, adb_usb_uv_ops, adb_qemu_uv_ops,
}
use micro_adb.Client.Frames.{adb_uv_packet_allocate, adb_hal_apacket_allocate}
use micro_adb.Client.Services.{set_body, adb_service_close}
use micro_adb.Client.Kick.{
  start_reading, socket_start, try_connect, try_close, shell_kick, on_kick, kick_from,
  adb_client_kick_services, tcp_uv_kick, usb_uv_kick, qemu_uv_kick, ops_kick,
  adb_hal_apacket_release,
}
use micro_adb.Client.Walk.{Walk, hand, after_close}
use micro_adb.Client.Walk.Sends.{allocate-Rel, okay-Rel}
use micro_adb.Client.Walk.Closes.{service_close-Rel}

module _ {W : Type 0} (e : Env W) (k : Walk e) where
  pub start_reading-Quiet : (h : Handle) (w : W) → k.Quiet w (start_reading e h w).1
  unfolding start_reading
  start_reading-Quiet h w =
      if_elim (λ (r : Bool × W). k.Quiet w r.1) (e.uv.is_active h w) (k.os_quiet.same w)
        (k.uv_quiet.read_start h w)

  pub socket_start-Rel : (n addr : ℕ) (c : Client W) → k.Rel n n c (socket_start e addr c).1
  unfolding socket_start
  socket_start-Rel n addr c = k.quiet n _ c (start_reading-Quiet (socket addr) c.world)

  pub set_body-Rel : (n addr : ℕ) (b : Body) (c : Client W) → k.Rel n n c (set_body addr b c)
  unfolding set_body
  set_body-Rel n addr b c = k.updated n addr _ c (λ s. refl) (λ s. refl)

  pub shell_kick-Rel : (n addr : ℕ) (b : Bool) (c : Client W) → k.Rel n n c (shell_kick e addr b c)
  unfolding shell_kick
  shell_kick-Rel n addr b c =
      if_elim (k.Rel n n c) b (k.same n c) (k.quiet n _ c (start_reading-Quiet (pipe addr) c.world))

  -- After an allocation, what is done with the packet.
  use_packet :
      (n : ℕ) (c : Client W) (r : Option Packet × Client W) (f : Packet → Client W)
      → k.Rel n (hand n r.0) c r.1
      → ((p : Packet) → k.Rel (suc n) n r.1 (f p))
      → k.Rel n n c (on_option r.0 r.1 f)
  use_packet n c (none, c₁) f h g = h
  use_packet n c (some p, c₁) f h g = k.next n (suc n) n c _ _ h (g p)

  pub try_connect-Rel : (n : ℕ) (s : Service) (c : Client W) → k.Rel n n c (try_connect e s c)
  unfolding try_connect adb_hal_apacket_allocate
  try_connect-Rel n s c =
      use_packet n c (adb_uv_packet_allocate e c false) _ (allocate-Rel e k n c false) (λ q.
        k.next (suc n) (suc n) n _ _ _ (set_body-Rel (suc n) s.addr (tcp f_connected) _) (
          k.next (suc n) (suc n) n _ _ _ (socket_start-Rel (suc n) s.addr _)
            (okay-Rel e k n _ q s.id s.peer_id)))

  -- What a kick has done, as it has closed the service or not.
  abbrev pub Kicked : ℕ → Client W → Bool × Client W → Type 0
  Kicked n c (false, c') = k.Rel n n c c'
  Kicked n c (true, c') = (m : ℕ) × k.Rel n m c c'

  use_packet-Kicked :
      (n addr : ℕ) (c : Client W) (r : Option Packet × Client W)
      → k.Rel n (hand n r.0) c r.1
      → Kicked n c (
          on_option {B = Bool × Client W} r.0
            (false, r.1)
            (λ q. (true, adb_service_close e r.1 addr (some q))))
  use_packet-Kicked n addr c (none, c₁) h = h
  use_packet-Kicked n addr c (some p, c₁) h = (
    after_close n (some p) addr c₁.services,
    k.next n (suc n) _ c _ _ h (service_close-Rel e k n c₁ addr (some p)),
  )

  pub try_close-Kicked : (n : ℕ) (s : Service) (c : Client W) → Kicked n c (try_close e s c)
  unfolding try_close adb_hal_apacket_allocate
  try_close-Kicked n s c =
      use_packet-Kicked n s.addr c (adb_uv_packet_allocate e c false) (allocate-Rel e k n c false)

  on_kick-Kicked : (n : ℕ) (s : Service) (b : Body) (c : Client W) → Kicked n c (on_kick e s b c)
  unfolding on_kick
  on_kick-Kicked n s (sync v) c = k.same n c
  on_kick-Kicked n s (tcp f_not_connected) c = k.same n c
  on_kick-Kicked n s (tcp f_wait_ack) c = k.same n c
  on_kick-Kicked n s (tcp f_connected) c = socket_start-Rel n s.addr c
  on_kick-Kicked n s (tcp f_notify_client) c = try_connect-Rel n s c
  on_kick-Kicked n s (tcp f_error_close) c = try_close-Kicked n s c
  on_kick-Kicked n s (shell w) c = shell_kick-Rel n s.addr w c

  pub go_on :
      (n : ℕ) (c : Client W) (r : Bool × Client W)
      → Kicked n c r
      → k.Rel n n c (if r.0 then record r.1 { undefined = true } else r.1)
  go_on n c (false, c') h = h
  go_on n c (true, c') h = k.next n h.0 n c _ _ h.1 (k.undefined h.0 n c')

  kick_from-Rel : (n : ℕ) (ss : List Service) (c : Client W) → k.Rel n n c (kick_from e ss c)
  unfolding kick_from
  kick_from-Rel n [] c = k.same n c
  kick_from-Rel n (s ∷ ss) c =
      k.next n n n c _ _ (go_on n c (on_kick e s s.body c) (on_kick-Kicked n s s.body c))
        (kick_from-Rel n ss _)

  pub ops_kick-Rel : (n : ℕ) (o : Ops) (c : Client W) → k.Rel n n c (ops_kick e o c)
  unfolding ops_kick tcp_uv_kick usb_uv_kick qemu_uv_kick adb_client_kick_services
  ops_kick-Rel n adb_tcp_uv_ops c =
      k.next n n n c _ _ (k.quiet n _ c (start_reading-Quiet transport c.world))
        (kick_from-Rel n _ _)
  ops_kick-Rel n adb_usb_uv_ops c =
      k.next n n n c _ _ (k.quiet n _ c (start_reading-Quiet transport c.world)) (
        k.next n n n _ _ _ (if_elim (k.Rel n n _) _ (k.same n _) (k.undefined n n _))
          (kick_from-Rel n _ _))
  ops_kick-Rel n adb_qemu_uv_ops c =
      k.next n n n c _ _ (k.quiet n _ c (start_reading-Quiet transport c.world)) (
        k.next n n n _ _ _ (if_elim (k.Rel n n _) _ (k.same n _) (k.undefined n n _))
          (kick_from-Rel n _ _))

  pub release-Rel :
      (n : ℕ) (c : Client W) (p : Packet) → k.Rel (suc n) n c (adb_hal_apacket_release e c p)
  unfolding adb_hal_apacket_release
  release-Rel n c p = elim (Bool-cases (c.frame_count == 0)) [
    | inl z ↦ rw z (k.undefined (suc n) n c)
    | inr z ↦ elim (Bool-cases (ltb e.config.frame_max c.frame_count)) [
      | inl y ↦
          rw z
            (rw y (k.next (suc n) n n c _ _ (k.released_limit n p c z y) (ops_kick-Rel n e.ops _)))
      | inr y ↦ rw z (rw y (k.released n p c z y))
    ]
  ]
