-- ===== src/Client/Walk/Handlers.antt =====
-- The handlers of WRTE, OKAY, CLSE and of what is not expected, and the request of AUTH, under a
-- relation.
use micro_adb.Common.{ℕ, suc, ◌<◌, ◌≡◌, none, on_option_elim, arith, Option-cases, inl, inr}
use mathlib.Core.Path.{subst}
use micro_adb.Packet.{Packet}
use micro_adb.Client.{Client, Env, Service}
use micro_adb.Client.Services.{find_service, update_service, adb_service_close}
use micro_adb.Client.Handlers.{
  on_ack_frame, send_auth_request, handle_close_frame, handle_write_frame, end_okay_frame,
  handle_okay_frame, invalid_frame, learn_peer,
}
use micro_adb.Client.Lists.{count_at, count_at-update, find_service-count_at}
use micro_adb.Client.Walk.{Walk, after_close}
use micro_adb.Client.Walk.Sends.{ops_close-Rel, send_frame-Rel, send_close_frame-Rel}
use micro_adb.Client.Walk.Closes.{service_close-Rel}
use micro_adb.Client.Walk.Kick.{release-Rel}
use micro_adb.Client.Walk.Replies.{
  learn_peer-addr, learn_peer-id, on_write_frame-count_at, on_ack_frame-count_at,
  on_write_frame-Replied, on_ack_frame-Replied, end_write_frame-Rel, end_okay_frame-Rel,
}

module _ {W : Type 0} (e : Env W) (k : Walk e) where
  pub handle_write_frame-Rel :
      (n : ℕ) (c : Client W) (p : Packet) → k.Rel (suc n) n c (handle_write_frame e c p)
  unfolding handle_write_frame
  handle_write_frame-Rel n c p = elim (Option-cases (find_service c.services p.arg1 p.arg0)) [
    | inl z ↦ rw z (send_close_frame-Rel e k n c p _ _)
    | inr (s, z) ↦ rw z (
        k.next (suc n) _ n c _ _ (on_write_frame-Replied e k n s s.body p c) (
          end_write_frame-Rel e k n s _ (
            rw (on_write_frame-count_at e s.addr s s.body p c)
              (find_service-count_at c.services _ _ s z))))
  ]

  acknowledged-Rel :
      (n : ℕ) (s : Service) (c : Client W) (p : Packet)
      → 0 < count_at s.addr c.services
      → k.Rel (suc n) n c (end_okay_frame e s (on_ack_frame e s s.body p c))
  acknowledged-Rel n s c p h =
      k.next (suc n) _ n c _ _ (on_ack_frame-Replied e k n s s.body p c)
        (end_okay_frame-Rel e k n s _ (rw (on_ack_frame-count_at e s.addr s s.body p c) h))

  learned :
      (s : Service) (c : Client W) (peer : ℕ)
      → 0 < count_at s.addr c.services
      → 0 < count_at (learn_peer peer s).addr (update_service s.addr (learn_peer peer) c).services
  unfolding update_service
  learned s c peer h =
      rw (learn_peer-addr peer s)
        (rw (count_at-update s.addr s.addr (learn_peer peer) c.services (learn_peer-addr peer)) h)

  pub handle_okay_frame-Rel :
      (n : ℕ) (c : Client W) (p : Packet) → k.Rel (suc n) n c (handle_okay_frame e c p)
  unfolding handle_okay_frame
  handle_okay_frame-Rel n c p = elim (Option-cases (find_service c.services p.arg1 0)) [
    | inl z ↦ rw z (send_close_frame-Rel e k n c p _ _)
    | inr (s, z) ↦ rw z (
        k.next (suc n) (suc n) n c _ _
          (k.updated (suc n) s.addr _ c (learn_peer-addr p.arg0) (learn_peer-id p.arg0))
          (acknowledged-Rel n (learn_peer p.arg0 s) _ p
            (learned s c p.arg0 (find_service-count_at c.services _ _ s z))))
  ]

  pub close_without-Rel :
      (n : ℕ) (s : Service) (c : Client W) → k.Rel n n c (adb_service_close e c s.addr none)
  close_without-Rel n s c =
      let z : after_close n none s.addr c.services ≡ n = ground arith in
      subst (λ m. k.Rel n m c _) z (service_close-Rel e k n c s.addr none)

  pub handle_close_frame-Rel :
      (n : ℕ) (c : Client W) (p : Packet) → k.Rel (suc n) n c (handle_close_frame e c p)
  unfolding handle_close_frame
  handle_close_frame-Rel n c p =
      k.next (suc n) (suc n) n c _ _
        (on_option_elim (k.Rel (suc n) (suc n) c) _ (k.same (suc n) c)
          (λ s. close_without-Rel (suc n) s c))
        (release-Rel e k n _ p)

  pub invalid_frame-Rel :
      (n : ℕ) (c : Client W) (p : Packet) → k.Rel (suc n) n c (invalid_frame e c p)
  unfolding invalid_frame
  invalid_frame-Rel n c p =
      k.next (suc n) n n c _ _ (release-Rel e k n c p) (ops_close-Rel e k n e.ops _)

  pub send_auth_request-Rel :
      (n : ℕ) (c : Client W) (p : Packet) → k.Rel (suc n) n c (send_auth_request e c p)
  unfolding send_auth_request
  send_auth_request-Rel n c p =
      k.next (suc n) (suc n) n c _ _ (k.quiet (suc n) _ c (k.uv_quiet.random _ c.world)) (
        on_option_elim (k.Rel (suc n) n _) _
          (k.next (suc n) n n _ _ _ (release-Rel e k n _ p) (ops_close-Rel e k n e.ops _))
          (λ t. k.next (suc n) (suc n) n _ _ _ (k.renewed (suc n) t _) (send_frame-Rel e k n _ _)))
