-- ===== src/Client/Handlers.antt =====
-- adb_client.c: the handlers of the frames, with the services' on_write_frame and on_ack_frame of
-- tcp_service.c and hal/shell_service_uv.c, and adb_process_packet.
use micro_adb.Common.{
  take, List, Option, ℕ, ◌+◌, ◌-◌, ◌*◌, ◌%◌, ◌^◌, [], ◌∷◌, none, some, Bool, true, false, not, ◌&&◌,
  ◌||◌, ◌==◌, ltb, if◌then◌else◌, on_option, write_at,
}
use micro_adb.Packet.{
  Packet, a_cnxn, a_open, a_okay, a_clse, a_wrte, a_auth, adb_auth_token, adb_auth_signature,
  adb_auth_rsapublickey, apacket_service_init_async,
}
use micro_adb.Uv.{Handle, socket, pipe}
use micro_adb.Sync.{Afs, Ctx, Ret, failed, done, more, stuck}
use micro_adb.Sync.Service.{file_sync_on_write, file_sync_on_ack}
use micro_adb.Client.{
  Client, Env, Service, Body, sync, tcp, shell, StreamState, f_connected, f_wait_ack,
}
use micro_adb.Client.Transport.{set_world, client_close}
use micro_adb.Client.Frames.{
  set_msg, set_write_len, send_frame, send_close_frame, send_cnxn_frame,
  adb_send_okay_frame_with_data, adb_send_data_frame,
}
use micro_adb.Client.Services.{find_service, update_service, set_body, adb_service_close}
use micro_adb.Client.Kick.{socket_start, shell_kick, adb_hal_apacket_release}
use micro_adb.Client.Open.{adb_service_open}

-- atcp_stream_on_write's guard.
abbrev pub can_write : StreamState → Bool
can_write f_connected = true
can_write f_wait_ack = true
can_write st = false

-- What a handler of a service returns: the result, the packet and the client.
abbrev pub Reply : Type 0 → Type 0
Reply W = Ret × Packet × Client W

-- The result of a call that returns 0 or an error.
abbrev pub code : Bool → Ret → Ret
code ok r = if ok then r else failed

-- A service whose peer id is not known yet takes it from the frame.
unfoldable pub learn_peer : ℕ → Service → Service
learn_peer peer s = if s.peer_id == 0 then record s { peer_id = peer } else s

module _ {W : Type 0} where
  -- The file service's result put back into the client; a stuck call sets `undefined`.
  unfoldable pub from_sync : ℕ → Ret × Ctx W → Client W → Reply W
  from_sync addr (stuck, s) c = (stuck, s.pkt, record c { undefined = true })
  from_sync addr (r, s) c = (r, s.pkt, set_world s.world (set_body addr (sync s.svc) c))

  abbrev pub ctx : Afs → Packet → Client W → Ctx W
  ctx v p c = record { svc = v; pkt = p; world = c.world }

module _ {W : Type 0} (e : Env W) where
  -- A packet that a service hands to libuv: 1, or -1 where uv_write fails.
  unfoldable pub service_write : Handle → Packet → Client W → Reply W
  service_write h p c =
      let (ok, w) = e.uv.write h p (take p.data_length p.payload ∷ []) c.world in
      (code ok more, p, set_world w c)

  abbrev pub adb_hal_socket_write : ℕ → Packet → Client W → Reply W
  adb_hal_socket_write addr p c = service_write (socket addr) p c

  abbrev pub atcp_stream_on_write : Service → StreamState → Packet → Client W → Reply W
  atcp_stream_on_write s st p c =
      if can_write st then adb_hal_socket_write s.addr p c else (failed, p, c)

  abbrev pub shell_write : Service → Packet → Client W → Reply W
  shell_write s p c = service_write (pipe s.addr) p c

  -- service->ops->on_write_frame.
  unfoldable pub on_write_frame : Service → Body → Packet → Client W → Reply W
  on_write_frame s (sync v) p c =
      on_option (file_sync_on_write e.config e.os e.retry (2 * p.data_length + 2) (ctx v p c))
        (stuck, p, record c { undefined = true }) (λ r. from_sync s.addr r c)
  on_write_frame s (tcp st) p c = atcp_stream_on_write s st p c
  on_write_frame s (shell wait_ack) p c = shell_write s p c

  abbrev pub atcp_stream_on_ack : Service → StreamState → Packet → Client W → Reply W
  atcp_stream_on_ack s f_wait_ack p c =
      let (ok, c') = socket_start e s.addr (set_body s.addr (tcp f_connected) c) in
      (code ok done, p, c')
  atcp_stream_on_ack s st p c = (done, p, c)

  abbrev pub shell_ack : Service → Packet → Client W → Reply W
  shell_ack s p c = (done, p, shell_kick e s.addr false (set_body s.addr (shell false) c))

  -- service->ops->on_ack_frame.
  unfoldable pub on_ack_frame : Service → Body → Packet → Client W → Reply W
  on_ack_frame s (sync v) p c = from_sync s.addr (file_sync_on_ack e.config e.os (ctx v p c)) c
  on_ack_frame s (tcp st) p c = atcp_stream_on_ack s st p c
  on_ack_frame s (shell wait_ack) p c = shell_ack s p c

  abbrev pub adb_hal_random : ℕ → W → Option (List ℕ) × W
  adb_hal_random len w = e.uv.random len w

  unfoldable pub send_auth_request : Client W → Packet → Client W
  send_auth_request c p =
      let (random, w) = adb_hal_random e.config.token_size c.world in
      on_option random (client_close e (adb_hal_apacket_release e (set_world w c) p)) (λ token.
        send_frame e (record (set_world w c) { token = token })
          (record (set_msg a_auth adb_auth_token 0 e.config.token_size p) {
            payload = write_at 0 token p.payload;
          }))

  -- `name[p->msg.data_length > 0 ? p->msg.data_length - 1 : 0] = 0`.
  abbrev pub terminate : Packet → Packet
  terminate p = record p { payload = write_at (p.data_length - 1) (0 ∷ []) p.payload }

  -- After adb_service_open, with no service: a one shot service's reply, or CLSE.
  unfoldable pub refuse_open : Packet → Client W → Client W
  refuse_open p c =
      if ltb 0 p.write_len
      then adb_send_okay_frame_with_data e
          (record c { next_service_id = (c.next_service_id + 1) % 2 ^ 32 }) p c.next_service_id
          p.arg0
      else send_close_frame e c p 0 p.arg0

  unfoldable pub accept_open : Packet → Client W → Service → Client W
  accept_open p c s =
      if p.write_len == apacket_service_init_async
      then adb_hal_apacket_release e c p
      else adb_send_okay_frame_with_data e c p s.id s.peer_id

  unfoldable pub handle_open_frame : Client W → Packet → Client W
  handle_open_frame c p =
      let q = terminate p in
      let (svc, p', c') = adb_service_open e c q.payload q in
      if p.arg0 == 0 || not (p.arg1 == 0)
      then adb_hal_apacket_release e c p
      else on_option svc (refuse_open p' c') (accept_open p' c')

  unfoldable pub handle_close_frame : Client W → Packet → Client W
  handle_close_frame c p =
      adb_hal_apacket_release e
        (on_option (find_service c.services p.arg1 p.arg0) c
          (λ s. adb_service_close e c s.addr none))
        p

  -- What handle_write_frame does with the service's result.
  unfoldable pub end_write_frame : Service → Reply W → Client W
  end_write_frame s (failed, p, c) = adb_service_close e c s.addr (some p)
  end_write_frame s (done, p, c) = adb_send_okay_frame_with_data e c p s.id s.peer_id
  end_write_frame s (more, p, c) = c
  end_write_frame s (stuck, p, c) = c

  unfoldable pub handle_write_frame : Client W → Packet → Client W
  handle_write_frame c p =
      on_option (find_service c.services p.arg1 p.arg0) (send_close_frame e c p p.arg1 p.arg0)
        (λ s. end_write_frame s (on_write_frame s s.body p c))

  unfoldable pub end_okay_frame : Service → Reply W → Client W
  end_okay_frame s (failed, p, c) = adb_service_close e c s.addr (some p)
  end_okay_frame s (more, p, c) = c
  end_okay_frame s (stuck, p, c) = c
  end_okay_frame s (done, p, c) =
      if ltb 0 p.write_len
      then adb_send_data_frame e c
          (record p { msg = record p.msg { arg0 = s.id; arg1 = s.peer_id } })
      else adb_hal_apacket_release e c p

  unfoldable pub handle_okay_frame : Client W → Packet → Client W
  handle_okay_frame c p =
      on_option (find_service c.services p.arg1 0) (send_close_frame e c p p.arg1 p.arg0) (λ s.
        let s' = learn_peer p.arg0 s in
        let c' = update_service s.addr (learn_peer p.arg0) c in
        end_okay_frame s' (on_ack_frame s' s'.body p c'))

  unfoldable pub connect : Client W → Packet → Client W
  connect c p = record (send_cnxn_frame e c p) { is_connected = true }

  unfoldable pub handle_auth_frame : Client W → Packet → Client W
  handle_auth_frame c p =
      if p.arg0 == adb_auth_token
      then adb_hal_apacket_release e c p
      else if p.arg0 == adb_auth_signature
      then send_auth_request c p
      else if e.config.auth_pubkey && p.arg0 == adb_auth_rsapublickey
      then connect c p
      else adb_hal_apacket_release e c p

  unfoldable pub invalid_frame : Client W → Packet → Client W
  invalid_frame c p = client_close e (adb_hal_apacket_release e c p)

  -- The switch at the end of adb_process_packet.
  unfoldable pub dispatch : Client W → Packet → Client W
  dispatch c p =
      if p.command == a_open
      then handle_open_frame c p
      else if p.command == a_clse
      then handle_close_frame c p
      else if p.command == a_wrte
      then handle_write_frame c p
      else if p.command == a_okay
      then handle_okay_frame c p
      else invalid_frame c p

  unfoldable pub process_frame : Client W → Packet → Client W
  process_frame c p =
      if p.command == a_cnxn
      then (if e.config.authentication && not c.is_connected
          then send_auth_request c p
          else connect c p)
      else if e.config.authentication && p.command == a_auth
      then (if c.is_connected then invalid_frame c p else handle_auth_frame c p)
      else dispatch c p

  unfoldable pub adb_process_packet : Client W → Packet → Client W
  adb_process_packet c p = process_frame c (set_write_len 0 p)
