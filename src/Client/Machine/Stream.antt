-- ===== src/Client/Machine/Stream.antt =====
-- tcp_service.c: what the machine of Client/Machine says of the functions that the handlers share.
use micro_adb.Common.{
  Bool-cases, sym, true, if◌then◌else◌, on_option, ℕ, ◌≤◌, ◌≡◌, refl, ap, ◌∙◌, inl, inr, List, [],
  ◌∷◌, Option, none, some, Bool, false, leb, if_elim, on_option_elim, arith, Option-cases,
}
use micro_adb.Packet.{Packet}
use micro_adb.Client.{Body, Client, Env, Service, tcp, StreamState, f_notify_client, f_connected}
use micro_adb.Client.Frames.{
  send_close_frame, adb_send_okay_frame, adb_send_okay_frame_with_data, adb_send_data_frame,
  adb_uv_packet_allocate, adb_hal_apacket_allocate,
}
use micro_adb.Client.Services.{
  unlink, update, update_service, set_body, freed_in_use, end_service, close_in, adb_service_close,
}
use micro_adb.Client.Kick.{socket_start, try_connect, try_close}
use micro_adb.Client.Lists.{count_at, count_at-update}
use micro_adb.Client.Flow.{ops_close-services, send_frame-services}
use micro_adb.Client.Machine.{
  told, stream_body, body_at, body_at-present, body_at-update, body_at-missing, count_at-unlink,
  unlink-body_at,
}

-- A stream stands in the client's list, alone at its address, in a state.
pub record Stands {W : Type 0} (s : Service) (st : StreamState) (c : Client W) : Type 0 where
  pub here : body_at s.addr c.services ≡ some (tcp st)
  pub alone : count_at s.addr c.services ≤ 1

-- What the client has of a service: the body that it has in the list.
abbrev pub Has : {W : Type 0} → Service → Option Body → Client W → Type 0
Has s o c = body_at s.addr c.services ≡ o

module _ {W : Type 0} where
  pub moved-Stands :
      (s : Service) (st st' : StreamState) (f : Service → Service) (c c' : Client W)
      → Stands s st c
      → ((t : Service) → (f t).addr ≡ t.addr)
      → ((t : Service) → (f t).body ≡ tcp st')
      → c'.services ≡ update c.services s.addr f
      → Stands s st' c'
  moved-Stands s st st' f c c' h k b z = record {
    here =
        ap (body_at s.addr) z
        ∙ body_at-update s.addr f (tcp st') c.services k b
            (body_at-present s.addr c.services (tcp st) h.here);
    alone =
        omega
          (arith, ap (count_at s.addr) z, count_at-update s.addr s.addr f c.services k, h.alone);
  }

  pub set_body-Stands :
      (s : Service) (st st' : StreamState) (c : Client W)
      → Stands s st c
      → Stands s st' (set_body s.addr (tcp st') c)
  unfolding set_body update_service
  set_body-Stands s st st' c h = moved-Stands s st st' _ c _ h (λ t. refl) (λ t. refl) refl

  pub kept-Stands :
      (s : Service) (st : StreamState) (c c' : Client W)
      → Stands s st c
      → c'.services ≡ c.services
      → Stands s st c'
  kept-Stands s st c c' h z = record {
    here = ap (body_at s.addr) z ∙ h.here;
    alone = omega (arith, ap (count_at s.addr) z, h.alone);
  }

module _ {W : Type 0} (e : Env W) where
  pub okay-services :
      (c : Client W) (p : Packet) (a b : ℕ) → (adb_send_okay_frame e c p a b).services ≡ c.services
  unfolding adb_send_okay_frame adb_send_okay_frame_with_data
  okay-services c p a b = send_frame-services e c _

  pub data_frame-services :
      (c : Client W) (p : Packet) → (adb_send_data_frame e c p).services ≡ c.services
  unfolding adb_send_data_frame
  data_frame-services c p = send_frame-services e c _

  allocate-services :
      (c : Client W) (b : Bool) → (adb_uv_packet_allocate e c b).1.services ≡ c.services
  unfolding adb_uv_packet_allocate
  allocate-services c b =
      if_elim (λ (r : Option Packet × Client W). r.1.services ≡ c.services)
        (leb e.config.frame_max c.frame_count) refl
        (on_option_elim (λ (r : Option Packet × Client W). r.1.services ≡ c.services) _
          (ops_close-services e e.ops _) (λ p. refl))

  end_service-services :
      (s : Service) (p : Option Packet) (c : Client W) → (end_service e s p c).services ≡ c.services
  unfolding end_service send_close_frame
  end_service-services s none c =
      if_elim (λ (x : Client W). x.services ≡ c.services) (freed_in_use s.body) refl refl
  end_service-services s (some p) c =
      let z = send_frame-services e c _ in
      if_elim (λ (x : Client W). x.services ≡ c.services) (freed_in_use s.body) z z

  close_in-gone :
      (s : Service) (st : StreamState) (ss : List Service) (p : Option Packet) (c : Client W)
      → c.services ≡ ss
      → Stands s st c
      → Has s none (close_in e ss s.addr p c)
  unfolding close_in
  close_in-gone s st [] p c z h = absurd (let x = sym h.here ∙ ap (body_at s.addr) z in cc)
  close_in-gone s st (t ∷ ts) p c z h = elim (Option-cases (unlink (t ∷ ts) s.addr)) [
    | inl y ↦
        let x = sym h.here ∙ ap (body_at s.addr) z ∙ unlink-body_at s.addr (t ∷ ts) y in absurd cc
    | inr (r, y) ↦
        let n = count_at-unlink s.addr (t ∷ ts) r y in
        let gone : count_at s.addr r.1 ≡ 0 = omega (arith, n, h.alone, ap (count_at s.addr) z) in
        rw y (
          ap (body_at s.addr) (end_service-services r.0 p (record c { services = r.1 }))
          ∙ body_at-missing s.addr r.1 gone)
  ]

  pub service_close-gone :
      (s : Service) (st : StreamState) (p : Option Packet) (c : Client W)
      → Stands s st c
      → Has s none (adb_service_close e c s.addr p)
  unfolding adb_service_close
  service_close-gone s st p c h = close_in-gone s st c.services p c refl h

  -- Whether a packet can be allocated.
  abbrev pub packet_free : Client W → Bool
  packet_free c = on_option (adb_uv_packet_allocate e c false).0 false (λ p. true)

  pub packet_free-services :
      (c : Client W) (ss : List Service) → packet_free (record c { services = ss }) ≡ packet_free c
  unfolding adb_uv_packet_allocate
  packet_free-services c ss = elim (Bool-cases (leb e.config.frame_max c.frame_count)) [
    | inl z ↦ rw z refl
    | inr z ↦ elim (Option-cases (e.uv.malloc_packet e.config.payload_size c.world).0) [
      | inl y ↦ rw z (rw y refl)
      | inr (q, y) ↦ rw z (rw y refl)
    ]
  ]

  pub try_connect-Has :
      (s : Service) (c : Client W)
      → Stands s f_notify_client c
      → Has s (stream_body (told (packet_free c))) (try_connect e s c)
  unfolding try_connect adb_hal_apacket_allocate socket_start
  try_connect-Has s c h =
      let c₁ = (adb_uv_packet_allocate e c false).1 in
      let h₁ = kept-Stands s f_notify_client c c₁ h (allocate-services c false) in
      elim (Option-cases (adb_uv_packet_allocate e c false).0) [
        | inl z ↦ rw z h₁.here
        | inr (q, z) ↦ rw z (
            ap (body_at s.addr) (okay-services _ q s.id s.peer_id)
            ∙ (set_body-Stands s f_notify_client f_connected c₁ h₁).here)
      ]

  pub try_close-Has :
      (s : Service) (st : StreamState) (c : Client W)
      → Stands s st c
      → Has s (stream_body (if packet_free c then none else some st)) (try_close e s c).1
  unfolding try_close adb_hal_apacket_allocate
  try_close-Has s st c h =
      let c₁ = (adb_uv_packet_allocate e c false).1 in
      let h₁ = kept-Stands s st c c₁ h (allocate-services c false) in
      elim (Option-cases (adb_uv_packet_allocate e c false).0) [
        | inl z ↦ rw z h₁.here
        | inr (q, z) ↦ rw z (service_close-gone s st (some q) c₁ h₁)
      ]
