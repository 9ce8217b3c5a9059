-- ===== src/Client/Connection.antt =====
-- adb_client.c: what sets is_connected.
use micro_adb.Common.{
  ℕ, ◌+◌, ◌%◌, ◌^◌, ◌≡◌, refl, ◌∙◌, List, Option, Bool, not, ◌&&◌, ◌||◌, ◌==◌, if◌then◌else◌,
  if_elim, on_option_elim, arith,
}
use micro_adb.Packet.{
  Packet, Config, a_cnxn, a_auth, a_open, a_clse, a_wrte, a_okay, adb_auth_rsapublickey,
}
use micro_adb.Client.{Client, Env, Service}
use micro_adb.Client.Frames.{set_write_len}
use micro_adb.Client.Services.{adb_register_service}
use micro_adb.Client.Open.{make_service, adb_service_open}
use micro_adb.Client.Handlers.{
  refuse_open, accept_open, handle_open_frame, connect, handle_auth_frame, dispatch, process_frame,
  adb_process_packet,
}
use micro_adb.Client.Steady.{Steady, release-Steady, send_close_frame-Steady, okay_with_data-Steady}
use micro_adb.Client.Steady.{
  handle_write_frame-Steady, handle_okay_frame-Steady, handle_close_frame-Steady,
  invalid_frame-Steady, send_auth_request-Steady, send_cnxn_frame-Steady,
}

-- The frames that connect a client: CNXN where there is no authentication, and a public key where
-- there is and public keys are accepted.
abbrev pub admits : Config → Packet → Bool
admits config p =
    if p.command == a_cnxn
    then not config.authentication
    else config.authentication
      && (p.command == a_auth && (config.auth_pubkey && p.arg0 == adb_auth_rsapublickey))

module _ {W : Type 0} (e : Env W) where
  -- The connection and the packet in reception are left alone.
  record Kept (c c' : Client W) : Type 0 where
    connection : c'.is_connected ≡ c.is_connected
    packet : c'.cur_packet ≡ c.cur_packet

  Kept-refl : (c : Client W) → Kept c c
  Kept-refl c = record { connection = refl; packet = refl }

  Kept-same :
      (c c' : Client W)
      → c'.is_connected ≡ c.is_connected
      → c'.cur_packet ≡ c.cur_packet
      → Kept c c'
  Kept-same c c' h k = record { connection = h; packet = k }

  Kept-trans : {a b c : Client W} → Kept a b → Kept b c → Kept a c
  Kept-trans h k = record { connection = k.connection ∙ h.connection; packet = k.packet ∙ h.packet }

  Steady-Kept : {a b : Client W} → Steady a b → Kept a b
  Steady-Kept h = record { connection = h.connection; packet = h.packet }

  refuse_open-Kept : (p : Packet) (c : Client W) → Kept c (refuse_open e p c)
  unfolding refuse_open
  refuse_open-Kept p c =
      if_elim (Kept c) _
        (Kept-trans
          (Kept-same c (record c { next_service_id = (c.next_service_id + 1) % 2 ^ 32 }) refl refl)
          (Steady-Kept (okay_with_data-Steady e _ p _ _)))
        (Steady-Kept (send_close_frame-Steady e c p _ _))

  accept_open-Kept : (p : Packet) (c : Client W) (s : Service) → Kept c (accept_open e p c s)
  unfolding accept_open
  accept_open-Kept p c s =
      if_elim (Kept c) _ (Steady-Kept (release-Steady e c p))
        (Steady-Kept (okay_with_data-Steady e c p _ _))

  service_open-Kept :
      (c : Client W) (name : List ℕ) (p : Packet) → Kept c (adb_service_open e c name p).2
  unfolding adb_service_open adb_register_service
  service_open-Kept c name p =
      if_elim (λ (r : Option Service × Packet × Client W). Kept c r.2) (c.next_service_id == 0)
        (Kept-same _ _ refl refl)
        (on_option_elim (λ (r : Option Service × Packet × Client W). Kept c r.2)
          (make_service e name p c.world).0 (Kept-same _ _ refl refl)
          (λ s. Kept-same _ _ refl refl))

  handle_open_frame-Kept : (c : Client W) (p : Packet) → Kept c (handle_open_frame e c p)
  unfolding handle_open_frame
  handle_open_frame-Kept c p = if_elim (Kept c) _ (Steady-Kept (release-Steady e c _)) (
      on_option_elim (Kept c) _ (Kept-trans (service_open-Kept c _ _) (refuse_open-Kept _ _))
        (λ s. Kept-trans (service_open-Kept c _ _) (accept_open-Kept _ _ s)))

  dispatch-Kept : (c : Client W) (p : Packet) → Kept c (dispatch e c p)
  unfolding dispatch
  dispatch-Kept c p = if_elim (Kept c) (p.command == a_open) (handle_open_frame-Kept c p) (
      if_elim (Kept c) (p.command == a_clse) (Steady-Kept (handle_close_frame-Steady e c p)) (
        if_elim (Kept c) (p.command == a_wrte) (Steady-Kept (handle_write_frame-Steady e c p)) (
          if_elim (Kept c) (p.command == a_okay) (Steady-Kept (handle_okay_frame-Steady e c p))
            (Steady-Kept (invalid_frame-Steady e c p)))))

  -- adb_process_packet leaves a client connected exactly if it was connected before, or the frame is
  -- a CNXN and there is no authentication, or there is authentication, public keys are accepted and
  -- the frame is an AUTH with a public key.
  pub adb_process_packet-is_connected :
      (c : Client W) (p : Packet)
      → (adb_process_packet e c p).is_connected ≡ (c.is_connected || admits e.config p)
  unfolding adb_process_packet process_frame handle_auth_frame connect
  adb_process_packet-is_connected c p =
      let q = set_write_len 0 p in
      ground (
        arith,
        (release-Steady e c q).connection,
        (send_auth_request-Steady e c q).connection,
        (invalid_frame-Steady e c q).connection,
        (dispatch-Kept c q).connection,
      )

  -- adb_process_packet does not touch the packet in reception.
  pub adb_process_packet-cur_packet :
      (c : Client W) (p : Packet) → (adb_process_packet e c p).cur_packet ≡ c.cur_packet
  unfolding adb_process_packet process_frame handle_auth_frame connect
  adb_process_packet-cur_packet c p =
      let q = set_write_len 0 p in
      ground (
        arith,
        (release-Steady e c q).packet,
        (send_auth_request-Steady e c q).packet,
        (send_cnxn_frame-Steady e c q).packet,
        (invalid_frame-Steady e c q).packet,
        (dispatch-Kept c q).packet,
      )
