-- ===== src/Client/Walk/Closes.antt =====
-- The closing of services, under a relation.
use micro_adb.Common.{ℕ, ◌≡◌, refl, inl, inr, List, [], ◌∷◌, Option, if_elim, Option-cases}
use micro_adb.Packet.{Packet}
use micro_adb.Uv.{socket, pipe, process}
use micro_adb.Sync.Through.{release_state-Q}
use micro_adb.Client.{Client, Env, Service, Body, sync, tcp, shell}
use micro_adb.Client.Services.{
  unlink, has_socket, freed_in_use, close_body, end_service, close_in, adb_service_close,
}
use micro_adb.Client.Lists.{unlink-none, unlink-some}
use micro_adb.Client.Walk.{Walk, hand, after_close}
use micro_adb.Client.Walk.Sends.{send_close_frame-Rel, on_hand}

module _ {W : Type 0} (e : Env W) (k : Walk e) where
  pub close_body-Quiet : (addr : ℕ) (b : Body) (w : W) → k.Quiet w (close_body e addr b w)
  unfolding close_body
  close_body-Quiet addr (sync v) w =
      k.os_quiet.next (release_state-Q e.config e.os k.Quiet k.os_quiet v.state v w)
        (k.uv_quiet.free_service addr _)
  close_body-Quiet addr (tcp st) w =
      if_elim (k.Quiet w) (has_socket st) (k.uv_quiet.close (socket addr) w)
        (k.uv_quiet.free_service addr w)
  close_body-Quiet addr (shell b) w =
      k.os_quiet.next (k.uv_quiet.kill (process addr) w) (k.uv_quiet.close (pipe addr) _)

  pub end_service-Rel :
      (n : ℕ) (s : Service) (p : Option Packet) (c : Client W)
      → k.Rel (hand n p) n c (end_service e s p c)
  unfolding end_service
  end_service-Rel n s p c =
      k.next (hand n p) n n c _ _
        (on_hand e k n c p (k.same n c) (λ q. send_close_frame-Rel e k n c q s.id s.peer_id))
        (if_elim (k.Rel n n _) (freed_in_use s.body)
          (k.next n n n _ _ _ (k.quiet n _ _ (close_body-Quiet s.addr s.body _))
            (k.undefined n n _))
          (k.quiet n _ _ (close_body-Quiet s.addr s.body _)))

  close_in-Rel :
      (n : ℕ) (ss : List Service) (addr : ℕ) (p : Option Packet) (c : Client W)
      → c.services ≡ ss
      → k.Rel (hand n p) (after_close n p addr ss) c (close_in e ss addr p c)
  unfolding close_in
  close_in-Rel n [] addr p c z = k.undefined (hand n p) _ c
  close_in-Rel n (s ∷ ss) addr p c z = elim (Option-cases (unlink (s ∷ ss) addr)) [
    | inl y ↦ rw y (rw (unlink-none (s ∷ ss) addr y) (k.same (hand n p) c))
    | inr (r, y) ↦ rw y (
        rw (unlink-some (s ∷ ss) addr r y) (
          k.next (hand n p) (hand n p) n c _ _ (k.unlinked (hand n p) addr c r (rw z y))
            (end_service-Rel n r.0 p _)))
  ]

  pub service_close-Rel :
      (n : ℕ) (c : Client W) (addr : ℕ) (p : Option Packet)
      → k.Rel (hand n p) (after_close n p addr c.services) c (adb_service_close e c addr p)
  unfolding adb_service_close
  service_close-Rel n c addr p = close_in-Rel n c.services addr p c refl
