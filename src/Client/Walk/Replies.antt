-- ===== src/Client/Walk/Replies.antt =====
-- The services' handlers of WRTE and OKAY, under a relation.
use micro_adb.Common.{
  [], ◌∷◌, take, ℕ, suc, ◌<◌, ◌≡◌, ◌≢◌, refl, Option, none, some, Bool, true, false, ltb, if_elim,
  on_option, on_option_elim, arith, Bool-cases, inl, inr,
}
use mathlib.Core.Path.{subst}
use micro_adb.Packet.{Packet}
use micro_adb.Uv.{Handle, socket, pipe}
use micro_adb.Sync.{Ctx, Ret, failed, done, more, stuck}
use micro_adb.Sync.Through.Service.{Ends, file_sync_on_write-Ends, file_sync_on_ack-Final}
use micro_adb.Client.{
  Client, Env, Service, Body, sync, tcp, shell, f_error_close, f_not_connected, f_notify_client,
  f_connected, f_wait_ack,
}
use micro_adb.Client.Services.{update_service, set_body, adb_service_close}
use micro_adb.Client.Kick.{socket_start, shell_kick}
use micro_adb.Client.Handlers.{
  Reply, from_sync, service_write, on_write_frame, on_ack_frame, end_write_frame, end_okay_frame,
  learn_peer, can_write, code,
}
use micro_adb.Client.Lists.{count_at, count_at-update}
use micro_adb.Client.Walk.{Walk, of_service, after_close}
use micro_adb.Client.Walk.Sends.{okay_with_data-Rel, data_frame-Rel}
use micro_adb.Client.Walk.Closes.{service_close-Rel}
use micro_adb.Client.Walk.Kick.{socket_start-Rel, set_body-Rel, shell_kick-Rel, release-Rel}

-- The packets in hand after a service's handler has been given one.
abbrev pub left : Ret → ℕ → ℕ
left failed n = suc n
left done n = suc n
left more n = n
left stuck n = n

pub learn_peer-addr : (peer : ℕ) (s : Service) → (learn_peer peer s).addr ≡ s.addr
unfolding learn_peer
learn_peer-addr peer s = if_elim (λ (t : Service). t.addr ≡ s.addr) _ refl refl

pub learn_peer-id : (peer : ℕ) (s : Service) → (learn_peer peer s).id ≡ s.id
unfolding learn_peer
learn_peer-id peer s = if_elim (λ (t : Service). t.id ≡ s.id) _ refl refl

module _ {W : Type 0} where
  pub set_body-count_at :
      (a addr : ℕ) (b : Body) (c : Client W)
      → count_at a (set_body addr b c).services ≡ count_at a c.services
  unfolding set_body update_service
  set_body-count_at a addr b c = count_at-update a addr _ c.services (λ s. refl)

  from_sync-count_at :
      (a addr : ℕ) (r : Ret × Ctx W) (c : Client W)
      → count_at a (from_sync addr r c).2.services ≡ count_at a c.services
  unfolding from_sync
  from_sync-count_at a addr (stuck, s) c = refl
  from_sync-count_at a addr (failed, s) c = set_body-count_at a addr _ c
  from_sync-count_at a addr (done, s) c = set_body-count_at a addr _ c
  from_sync-count_at a addr (more, s) c = set_body-count_at a addr _ c

module _ {W : Type 0} (e : Env W) where
  pub on_write_frame-count_at :
      (a : ℕ) (s : Service) (b : Body) (p : Packet) (c : Client W)
      → count_at a (on_write_frame e s b p c).2.services ≡ count_at a c.services
  unfolding on_write_frame service_write
  on_write_frame-count_at a s (sync v) p c =
      on_option_elim (λ (r : Reply W). count_at a r.2.services ≡ count_at a c.services) _ refl
        (λ r. from_sync-count_at a s.addr r c)
  on_write_frame-count_at a s (tcp st) p c =
      if_elim (λ (r : Reply W). count_at a r.2.services ≡ count_at a c.services) (can_write st) refl
        refl
  on_write_frame-count_at a s (shell w) p c = refl

  pub on_ack_frame-count_at :
      (a : ℕ) (s : Service) (b : Body) (p : Packet) (c : Client W)
      → count_at a (on_ack_frame e s b p c).2.services ≡ count_at a c.services
  unfolding on_ack_frame socket_start shell_kick
  on_ack_frame-count_at a s (sync v) p c = from_sync-count_at a s.addr _ c
  on_ack_frame-count_at a s (tcp f_wait_ack) p c = set_body-count_at a s.addr _ c
  on_ack_frame-count_at a s (tcp f_error_close) p c = refl
  on_ack_frame-count_at a s (tcp f_not_connected) p c = refl
  on_ack_frame-count_at a s (tcp f_notify_client) p c = refl
  on_ack_frame-count_at a s (tcp f_connected) p c = refl
  on_ack_frame-count_at a s (shell w) p c = set_body-count_at a s.addr _ c

module _ {W : Type 0} (e : Env W) (k : Walk e) where
  -- What a service's handler has done with the packet.
  abbrev Replied : ℕ → Client W → Reply W → Type 0
  Replied n c r = k.Rel (suc n) (left r.0 n) c r.2

  from_sync-Replied :
      (n addr : ℕ) (r : Ret × Ctx W) (c : Client W)
      → k.Quiet c.world r.1.world
      → r.0 ≢ more
      → Replied n c (from_sync addr r c)
  unfolding from_sync set_body update_service
  from_sync-Replied n addr (stuck, s) c h z = k.undefined (suc n) n c
  from_sync-Replied n addr (failed, s) c h z =
      k.next (suc n) (suc n) (suc n) c (set_body addr (sync s.svc) c) _
        (set_body-Rel e k (suc n) addr (sync s.svc) c)
        (k.quiet (suc n) s.world (set_body addr (sync s.svc) c) h)
  from_sync-Replied n addr (done, s) c h z =
      k.next (suc n) (suc n) (suc n) c (set_body addr (sync s.svc) c) _
        (set_body-Rel e k (suc n) addr (sync s.svc) c)
        (k.quiet (suc n) s.world (set_body addr (sync s.svc) c) h)
  from_sync-Replied n addr (more, s) c h z = absurd (z refl)

  sync_write-Replied :
      (n addr : ℕ) (p : Packet) (c : Client W) (o : Option (Ret × Ctx W))
      → Ends e.config e.os k.Quiet k.os_quiet c.world o
      → Replied n c (
          on_option {B = Reply W} o
            (stuck, p, record c { undefined = true })
            (λ r. from_sync addr r c))
  sync_write-Replied n addr p c none h = k.undefined (suc n) n c
  sync_write-Replied n addr p c (some r) h = from_sync-Replied n addr r c h.through.went h.settled

  service_write-Replied :
      (n : ℕ) (h : Handle) (p : Packet) (c : Client W)
      → of_service h ≡ true
      → Replied n c (service_write e h p c)
  unfolding service_write
  service_write-Replied n h p c z =
      let bs = take p.data_length p.payload ∷ [] in
      elim (Bool-cases (e.uv.write h p bs c.world).0) [
        | inl y ↦ rw y (k.taken n h p bs c z y)
        | inr y ↦ rw y (k.refused (suc n) h p bs c z y)
      ]

  pub on_write_frame-Replied :
      (n : ℕ) (s : Service) (b : Body) (p : Packet) (c : Client W)
      → Replied n c (on_write_frame e s b p c)
  unfolding on_write_frame
  on_write_frame-Replied n s (sync v) p c =
      sync_write-Replied n s.addr p c _
        (file_sync_on_write-Ends e.config e.os k.Quiet k.os_quiet e.retry _ _)
  on_write_frame-Replied n s (tcp st) p c =
      if_elim (Replied n c) (can_write st) (service_write-Replied n (socket s.addr) p c refl)
        (k.same (suc n) c)
  on_write_frame-Replied n s (shell w) p c = service_write-Replied n (pipe s.addr) p c refl

  code-Replied :
      (n : ℕ) (ok : Bool) (p : Packet) (c c' : Client W)
      → k.Rel (suc n) (suc n) c c'
      → Replied n c (code ok done, p, c')
  code-Replied n true p c c' h = h
  code-Replied n false p c c' h = h

  pub on_ack_frame-Replied :
      (n : ℕ) (s : Service) (b : Body) (p : Packet) (c : Client W)
      → Replied n c (on_ack_frame e s b p c)
  unfolding on_ack_frame
  on_ack_frame-Replied n s (sync v) p c =
      let f = file_sync_on_ack-Final e.config e.os k.Quiet k.os_quiet _ in
      from_sync-Replied n s.addr _ c f.through.went f.settled
  on_ack_frame-Replied n s (tcp f_wait_ack) p c = code-Replied n _ p c _ (
      k.next (suc n) (suc n) (suc n) c _ _ (set_body-Rel e k (suc n) s.addr _ c)
        (socket_start-Rel e k (suc n) s.addr _))
  on_ack_frame-Replied n s (tcp f_error_close) p c = k.same (suc n) c
  on_ack_frame-Replied n s (tcp f_not_connected) p c = k.same (suc n) c
  on_ack_frame-Replied n s (tcp f_notify_client) p c = k.same (suc n) c
  on_ack_frame-Replied n s (tcp f_connected) p c = k.same (suc n) c
  on_ack_frame-Replied n s (shell w) p c =
      k.next (suc n) (suc n) (suc n) c _ _ (set_body-Rel e k (suc n) s.addr _ c)
        (shell_kick-Rel e k (suc n) s.addr false _)

  -- The service is closed with the packet.
  pub close_with-Rel :
      (n : ℕ) (s : Service) (p : Packet) (c : Client W)
      → 0 < count_at s.addr c.services
      → k.Rel (suc n) n c (adb_service_close e c s.addr (some p))
  close_with-Rel n s p c h =
      let z : after_close n (some p) s.addr c.services ≡ n = ground (arith, h) in
      subst (λ m. k.Rel (suc n) m c _) z (service_close-Rel e k n c s.addr (some p))

  pub end_write_frame-Rel :
      (n : ℕ) (s : Service) (r : Reply W)
      → 0 < count_at s.addr r.2.services
      → k.Rel (left r.0 n) n r.2 (end_write_frame e s r)
  unfolding end_write_frame
  end_write_frame-Rel n s (failed, p, c) h = close_with-Rel n s p c h
  end_write_frame-Rel n s (done, p, c) h = okay_with_data-Rel e k n c p s.id s.peer_id
  end_write_frame-Rel n s (more, p, c) h = k.same n c
  end_write_frame-Rel n s (stuck, p, c) h = k.same n c

  pub end_okay_frame-Rel :
      (n : ℕ) (s : Service) (r : Reply W)
      → 0 < count_at s.addr r.2.services
      → k.Rel (left r.0 n) n r.2 (end_okay_frame e s r)
  unfolding end_okay_frame
  end_okay_frame-Rel n s (failed, p, c) h = close_with-Rel n s p c h
  end_okay_frame-Rel n s (more, p, c) h = k.same n c
  end_okay_frame-Rel n s (stuck, p, c) h = k.same n c
  end_okay_frame-Rel n s (done, p, c) h =
      if_elim (k.Rel (suc n) n c) (ltb 0 p.write_len) (data_frame-Rel e k n c _)
        (release-Rel e k n c p)
