-- ===== src/Client/Resume.antt =====
-- hal/hal_uv_packet.c and adb_client_kick_services: how reading goes on once a packet is released
-- after the limit of packets has been met.
use micro_adb.Common.{
  ◌∙◌, Option-cases, ℕ, ◌-◌, ◌≡◌, refl, List, [], ◌∷◌, Option, none, some, Bool, true, false, ◌&&◌,
  ◌==◌, ltb, if◌then◌else◌, on_option, arith, Bool-cases, inl, inr,
}
use micro_adb.Packet.{Packet}
use micro_adb.Uv.{Handle, transport, socket, pipe}
use micro_adb.Client.{
  Client, Env, Service, Body, sync, tcp, shell, f_error_close, f_not_connected, f_notify_client,
  f_connected, f_wait_ack, Ops, adb_tcp_uv_ops, adb_usb_uv_ops, adb_qemu_uv_ops,
}
use micro_adb.Client.Transport.{set_world}
use micro_adb.Client.Kick.{
  start_reading, socket_start, shell_kick, on_kick, kick_from, adb_client_kick_services,
  tcp_uv_kick, usb_uv_kick, qemu_uv_kick, ops_kick, adb_hal_apacket_release,
}

-- uv_read_start of a handle that can be read, being open and not closing, and that is not active
-- succeeds and makes it active; and no uv_read_start changes which handles can be read, or stops
-- another that is active, nor does the free of a packet.
pub record Starts {W : Type 0} (e : Env W) : Type 0 where
  pub readable : Handle → W → Bool
  pub starts :
      (h : Handle) (w : W)
      → readable h w ≡ true
      → e.uv.is_active h w ≡ false
      → ((e.uv.read_start h w).0 ≡ true) × (e.uv.is_active h (e.uv.read_start h w).1 ≡ true)
  pub others :
      (h g : Handle) (w : W)
      → e.uv.is_active g w ≡ true
      → e.uv.is_active g (e.uv.read_start h w).1 ≡ true
  pub kept : (h g : Handle) (w : W) → readable g (e.uv.read_start h w).1 ≡ readable g w
  pub freed : (g : Handle) (p : Packet) (w : W) → readable g (e.uv.free_packet p w) ≡ readable g w

-- The handle that a service reads from: a connected stream's, and a shell's that waits for no
-- acknowledgement.
abbrev pub wants : ℕ → Body → Option Handle
wants addr (sync v) = none
wants addr (tcp f_connected) = some (socket addr)
wants addr (tcp st) = none
wants addr (shell wait_ack) = if wait_ack then none else some (pipe addr)

-- A kick of the service allocates no packet: the stream has nothing to tell the peer.
abbrev pub calm : Body → Bool
calm (tcp f_error_close) = false
calm (tcp f_notify_client) = false
calm b = true

abbrev pub all_calm : List Service → Bool
all_calm [] = true
all_calm (s ∷ ss) = calm s.body && all_calm ss

module _ {W : Type 0} (e : Env W) where
  -- Every handle that a service of a list reads from is active.
  abbrev pub all_active : W → List Service → Bool
  all_active w [] = true
  all_active w (s ∷ ss) =
      on_option (wants s.addr s.body) true (λ h. e.uv.is_active h w) && all_active w ss

  abbrev kick_world : Option Handle → W → W
  kick_world o w = on_option o w (λ h. (start_reading e h w).1)

  abbrev kick_worlds : List Service → W → W
  kick_worlds [] w = w
  kick_worlds (s ∷ ss) w = kick_worlds ss (kick_world (wants s.addr s.body) w)

  on_kick-calm :
      (s : Service) (b : Body) (c : Client W)
      → calm b ≡ true
      → on_kick e s b c ≡ (false, set_world (kick_world (wants s.addr b) c.world) c)
  unfolding on_kick socket_start shell_kick
  on_kick-calm s (sync v) c h = refl
  on_kick-calm s (tcp f_error_close) c h = cc
  on_kick-calm s (tcp f_notify_client) c h = cc
  on_kick-calm s (tcp f_not_connected) c h = refl
  on_kick-calm s (tcp f_wait_ack) c h = refl
  on_kick-calm s (tcp f_connected) c h = refl
  on_kick-calm s (shell true) c h = refl
  on_kick-calm s (shell false) c h = refl

  kick_from-calm :
      (ss : List Service) (c : Client W)
      → all_calm ss ≡ true
      → kick_from e ss c ≡ set_world (kick_worlds ss c.world) c
  unfolding kick_from
  kick_from-calm [] c h = refl
  kick_from-calm (s ∷ ss) c h =
      rw (on_kick-calm s s.body c (ground (arith, h))) (kick_from-calm ss _ (ground (arith, h)))

module _ {W : Type 0} (e : Env W) (r : Starts e) where
  -- Every handle that a service of a list reads from can be read.
  abbrev pub all_readable : W → List Service → Bool
  all_readable w [] = true
  all_readable w (s ∷ ss) =
      on_option (wants s.addr s.body) true (λ h. r.readable h w) && all_readable w ss

  start_reading-true :
      (h : Handle) (w : W)
      → r.readable h w ≡ true
      → ((start_reading e h w).0 ≡ true) × (e.uv.is_active h (start_reading e h w).1 ≡ true)
  unfolding start_reading
  start_reading-true h w k = elim (Bool-cases (e.uv.is_active h w)) [
    | inl z ↦ rw z (refl, z)
    | inr z ↦ rw z (r.starts h w k z)
  ]

  start_reading-readable :
      (h g : Handle) (w : W) → r.readable g (start_reading e h w).1 ≡ r.readable g w
  unfolding start_reading
  start_reading-readable h g w = elim (Bool-cases (e.uv.is_active h w)) [
    | inl z ↦ rw z refl
    | inr z ↦ rw z (r.kept h g w)
  ]

  kick_world-readable :
      (o : Option Handle) (g : Handle) (w : W) → r.readable g (kick_world e o w) ≡ r.readable g w
  kick_world-readable none g w = refl
  kick_world-readable (some h) g w = start_reading-readable h g w

  all_readable-same :
      (w w' : W) (ss : List Service)
      → ((g : Handle) → r.readable g w' ≡ r.readable g w)
      → all_readable w' ss ≡ all_readable w ss
  all_readable-same w w' [] h = refl
  all_readable-same w w' (s ∷ ss) h =
      let k = all_readable-same w w' ss h in
      elim (Option-cases (wants s.addr s.body)) [
        | inl z ↦ rw z k
        | inr (g, z) ↦ rw z (rw (h g) (rw k refl))
      ]

  start_reading-others :
      (h g : Handle) (w : W)
      → e.uv.is_active g w ≡ true
      → e.uv.is_active g (start_reading e h w).1 ≡ true
  unfolding start_reading
  start_reading-others h g w k = elim (Bool-cases (e.uv.is_active h w)) [
    | inl z ↦ rw z k
    | inr z ↦ rw z (r.others h g w k)
  ]

  kick_world-others :
      (o : Option Handle) (g : Handle) (w : W)
      → e.uv.is_active g w ≡ true
      → e.uv.is_active g (kick_world e o w) ≡ true
  kick_world-others none g w k = k
  kick_world-others (some h) g w k = start_reading-others h g w k

  kick_worlds-others :
      (ss : List Service) (g : Handle) (w : W)
      → e.uv.is_active g w ≡ true
      → e.uv.is_active g (kick_worlds e ss w) ≡ true
  kick_worlds-others [] g w k = k
  kick_worlds-others (s ∷ ss) g w k =
      kick_worlds-others ss g _ (kick_world-others (wants s.addr s.body) g w k)

  kick_world-active :
      (ss : List Service) (o : Option Handle) (w : W)
      → on_option o true (λ h. r.readable h w) ≡ true
      → on_option o true (λ h. e.uv.is_active h (kick_worlds e ss (kick_world e o w))) ≡ true
  kick_world-active ss none w k = refl
  kick_world-active ss (some h) w k = kick_worlds-others ss h _ (start_reading-true h w k).1

  kick_worlds-active :
      (ss : List Service) (w : W)
      → all_readable w ss ≡ true
      → all_active e (kick_worlds e ss w) ss ≡ true
  kick_worlds-active [] w k = refl
  kick_worlds-active (s ∷ ss) w k =
      let o = wants s.addr s.body in
      let w' = kick_world e o w in
      let n = all_readable-same w w' ss (λ g. kick_world-readable o g w) in
      ground (
        arith,
        kick_world-active ss o w (ground (arith, k)),
        kick_worlds-active ss w' (ground (arith, n, k)),
      )

  -- What a kick of the client leaves: the transport and the services read, and nothing but the world
  -- has changed.
  record Resumed (c c' : Client W) : Type 0 where
    transport_active : e.uv.is_active transport c'.world ≡ true
    services_active : all_active e c'.world c.services ≡ true
    count : c'.frame_count ≡ c.frame_count
    undefined : c'.undefined ≡ c.undefined

  kick_services-Resumed :
      (c : Client W) (w : W)
      → all_calm c.services ≡ true
      → all_readable w c.services ≡ true
      → e.uv.is_active transport w ≡ true
      → Resumed c (adb_client_kick_services e (set_world w c))
  unfolding adb_client_kick_services
  kick_services-Resumed c w h n k = rw (kick_from-calm e c.services (set_world w c) h) (record {
    transport_active = kick_worlds-others c.services transport w k;
    services_active = kick_worlds-active c.services w n;
    count = refl;
    undefined = refl;
  })

  -- After the transport reads again, the services are kicked.
  started-Resumed :
      (c : Client W)
      → let (ok, w) = start_reading e transport c.world in
        all_calm c.services ≡ true
        → r.readable transport c.world ≡ true
        → all_readable c.world c.services ≡ true
        → (ok ≡ true) × Resumed c (adb_client_kick_services e (set_world w c))
  started-Resumed c h t k =
      let (y, x) = start_reading-true transport c.world t in
      let w = (start_reading e transport c.world).1 in
      let n =
        all_readable-same c.world w c.services (λ g. start_reading-readable transport g c.world) in
      (y, kick_services-Resumed c w h (n ∙ k) x)

  ops_kick-Resumed :
      (o : Ops) (c : Client W)
      → all_calm c.services ≡ true
      → r.readable transport c.world ≡ true
      → all_readable c.world c.services ≡ true
      → Resumed c (ops_kick e o c)
  unfolding ops_kick tcp_uv_kick usb_uv_kick qemu_uv_kick
  ops_kick-Resumed adb_tcp_uv_ops c h t k = (started-Resumed c h t k).1
  ops_kick-Resumed adb_usb_uv_ops c h t k = let (y, z) = started-Resumed c h t k in rw y z
  ops_kick-Resumed adb_qemu_uv_ops c h t k = let (y, z) = started-Resumed c h t k in rw y z

  -- Where no stream has a news for the peer, or a failed connection to close, and the transport and
  -- the handles of the connected streams and of the shells that wait for no acknowledgement can be
  -- read, the release of a packet after the limit has been met makes room for a packet and has all of
  -- these read again.
  pub adb_hal_apacket_release-resumes :
      (c : Client W) (p : Packet)
      → ltb e.config.frame_max c.frame_count ≡ true
      → all_calm c.services ≡ true
      → r.readable transport c.world ≡ true
      → all_readable c.world c.services ≡ true
      → let c' = adb_hal_apacket_release e c p in
        (c'.frame_count ≡ e.config.frame_max - 1)
        × (e.uv.is_active transport c'.world ≡ true)
        × (all_active e c'.world c.services ≡ true)
        × (c'.undefined ≡ c.undefined)
  unfolding adb_hal_apacket_release
  adb_hal_apacket_release-resumes c p h k t n =
      let z : (c.frame_count == 0) ≡ false = ground (arith, h) in
      let w = e.uv.free_packet p c.world in
      let m = all_readable-same c.world w c.services (λ g. r.freed g p c.world) in
      let q =
        ops_kick-Resumed e.ops (record c { frame_count = e.config.frame_max - 1; world = w }) k
          (r.freed transport p c.world ∙ t) (m ∙ n) in
      rw z (rw h (q.count, q.transport_active, q.services_active, q.undefined))
