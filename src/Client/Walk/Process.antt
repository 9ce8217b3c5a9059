-- ===== src/Client/Walk/Process.antt =====
-- OPEN, CNXN and the whole of adb_process_packet, under a relation that also bears a new service, a
-- new id and a new connection.
use micro_adb.Common.{ℕ, suc, ◌≡◌, List, Option, true, not, ◌&&◌, ◌==◌, if_elim, on_option_elim}
use micro_adb.Packet.{Packet, a_cnxn, a_auth}
use micro_adb.Client.{Client, Env, Service}
use micro_adb.Client.Frames.{set_write_len}
use micro_adb.Client.Services.{update_service, adb_register_service}
use micro_adb.Client.Open.{make_service, adb_service_open}
use micro_adb.Client.Handlers.{
  refuse_open, accept_open, handle_open_frame, terminate, connect, handle_auth_frame, dispatch,
  process_frame, adb_process_packet,
}
use micro_adb.Client.Walk.{Walk}
use micro_adb.Client.Walk.Sends.{send_close_frame-Rel, send_cnxn_frame-Rel, okay_with_data-Rel}
use micro_adb.Client.Walk.Kick.{release-Rel}
use micro_adb.Client.Walk.Handlers.{
  handle_write_frame-Rel, handle_okay_frame-Rel, handle_close_frame-Rel, invalid_frame-Rel,
  send_auth_request-Rel,
}
use micro_adb.Client.Walk.Open.{make_service-Answered}

-- A relation that also bears a new id of a service.
pub record Renumbers {W : Type 0} (e : Env W) (k : Walk e) : Type 0 where
  pub renumbered :
      (n addr : ℕ) (f : Service → Service) (c : Client W)
      → ((s : Service) → (f s).addr ≡ s.addr)
      → k.Rel n n c (update_service addr f c)

pub record Bears {W : Type 0} (e : Env W) (k : Walk e) : Type 0 where
  pub registered : (n : ℕ) (s : Service) (c : Client W) → k.Rel n n c (adb_register_service s c).1
  pub numbered : (n i : ℕ) (c : Client W) → k.Rel n n c (record c { next_service_id = i })
  pub joined : (n : ℕ) (c : Client W) → k.Rel n n c (record c { is_connected = true })

module _ {W : Type 0} (e : Env W) (k : Walk e) (b : Bears e k) where
  pub service_open-Rel :
      (n : ℕ) (c : Client W) (name : List ℕ) (p : Packet)
      → k.Rel n n c (adb_service_open e c name p).2
  unfolding adb_service_open
  service_open-Rel n c name p =
      let r = k.quiet n _ c (make_service-Answered e k name p c.world) in
      if_elim (λ (r : Option Service × Packet × Client W). k.Rel n n c r.2) _ (k.undefined n n c)
        (on_option_elim (λ (r : Option Service × Packet × Client W). k.Rel n n c r.2)
          (make_service e name p c.world).0 r (λ s. k.next n n n c _ _ r (b.registered n _ _)))

  refuse_open-Rel : (n : ℕ) (p : Packet) (c : Client W) → k.Rel (suc n) n c (refuse_open e p c)
  unfolding refuse_open
  refuse_open-Rel n p c =
      if_elim (k.Rel (suc n) n c) _
        (k.next (suc n) (suc n) n c _ _ (b.numbered (suc n) _ c) (okay_with_data-Rel e k n _ p _ _))
        (send_close_frame-Rel e k n c p _ _)

  accept_open-Rel :
      (n : ℕ) (p : Packet) (c : Client W) (s : Service) → k.Rel (suc n) n c (accept_open e p c s)
  unfolding accept_open
  accept_open-Rel n p c s =
      if_elim (k.Rel (suc n) n c) _ (release-Rel e k n c p) (okay_with_data-Rel e k n c p _ _)

  handle_open_frame-Rel :
      (n : ℕ) (c : Client W) (p : Packet) → k.Rel (suc n) n c (handle_open_frame e c p)
  unfolding handle_open_frame
  handle_open_frame-Rel n c p =
      let r = service_open-Rel (suc n) c (terminate e p).payload (terminate e p) in
      if_elim (k.Rel (suc n) n c) _ (release-Rel e k n c p) (
        on_option_elim (k.Rel (suc n) n c) _
          (k.next (suc n) (suc n) n c _ _ r (refuse_open-Rel n _ _))
          (λ s. k.next (suc n) (suc n) n c _ _ r (accept_open-Rel n _ _ s)))

  connect-Rel : (n : ℕ) (c : Client W) (p : Packet) → k.Rel (suc n) n c (connect e c p)
  unfolding connect
  connect-Rel n c p = k.next (suc n) n n c _ _ (send_cnxn_frame-Rel e k n c p) (b.joined n _)

  handle_auth_frame-Rel :
      (n : ℕ) (c : Client W) (p : Packet) → k.Rel (suc n) n c (handle_auth_frame e c p)
  unfolding handle_auth_frame
  handle_auth_frame-Rel n c p = if_elim (k.Rel (suc n) n c) _ (release-Rel e k n c p) (
      if_elim (k.Rel (suc n) n c) _ (send_auth_request-Rel e k n c p)
        (if_elim (k.Rel (suc n) n c) _ (connect-Rel n c p) (release-Rel e k n c p)))

  dispatch-Rel : (n : ℕ) (c : Client W) (p : Packet) → k.Rel (suc n) n c (dispatch e c p)
  unfolding dispatch
  dispatch-Rel n c p = if_elim (k.Rel (suc n) n c) _ (handle_open_frame-Rel n c p) (
      if_elim (k.Rel (suc n) n c) _ (handle_close_frame-Rel e k n c p) (
        if_elim (k.Rel (suc n) n c) _ (handle_write_frame-Rel e k n c p) (
          if_elim (k.Rel (suc n) n c) _ (handle_okay_frame-Rel e k n c p)
            (invalid_frame-Rel e k n c p))))

  pub process_packet-Rel :
      (n : ℕ) (c : Client W) (p : Packet) → k.Rel (suc n) n c (adb_process_packet e c p)
  unfolding adb_process_packet process_frame
  process_packet-Rel n c p =
      let q = set_write_len 0 p in
      if_elim (k.Rel (suc n) n c) (q.command == a_cnxn)
        (if_elim (k.Rel (suc n) n c) (e.config.authentication && not c.is_connected)
          (send_auth_request-Rel e k n c q) (connect-Rel n c q))
        (if_elim (k.Rel (suc n) n c) (e.config.authentication && q.command == a_auth)
          (if_elim (k.Rel (suc n) n c) c.is_connected (invalid_frame-Rel e k n c q)
            (handle_auth_frame-Rel n c q))
          (dispatch-Rel n c q))
