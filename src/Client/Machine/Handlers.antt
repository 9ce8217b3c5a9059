-- ===== src/Client/Machine/Handlers.antt =====
-- tcp_service.c: its handlers and callbacks are steps of the machine of Client/Machine.
use mathlib.Core.Path.{subst}
use micro_adb.Common.{
  ℕ, zero, suc, ◌≡◌, ap, ◌∙◌, refl, some, Bool, true, false, ◌==◌, if_elim, arith,
}
use micro_adb.Packet.{Packet}
use micro_adb.Client.{
  Client, Env, Service, tcp, StreamState, f_error_close, f_not_connected, f_notify_client,
  f_connected, f_wait_ack,
}
use micro_adb.Client.Services.{update_service, set_body}
use micro_adb.Client.Kick.{socket_start, try_connect, try_close, on_kick}
use micro_adb.Client.Handlers.{Reply, service_write, on_write_frame, on_ack_frame, can_write}
use micro_adb.Client.Stream.{
  adb_hal_socket_stop, tcp_stream_on_data_cb, stream_send_data_frame_cb, refuse_connection,
  tcp_stream_on_connect_cb,
}
use micro_adb.Client.Machine.{
  Event, peer_write, peer_ack, kick, data_read, write_end, connect_end, told, refused, goes,
  stream_body, body_at,
}
use micro_adb.Client.Machine.Stream.{
  Stands, Has, moved-Stands, set_body-Stands, kept-Stands, okay-services, data_frame-services,
  service_close-gone, packet_free, packet_free-services, try_connect-Has, try_close-Has,
}

-- A stream is where the machine goes by an event.
abbrev pub Follows : {W : Type 0} → Service → Event → StreamState → Client W → Type 0
Follows s ev st c' = Has s (stream_body (goes ev st)) c'

module _ {W : Type 0} (e : Env W) where
  refuse_connection-Has :
      (s : Service) (st : StreamState) (c : Client W)
      → Stands s st c
      → Has s (stream_body (refused (packet_free e c))) (refuse_connection e s c)
  unfolding refuse_connection update_service
  refuse_connection-Has s st c h =
      let s' = record s { id = 0; body = tcp f_error_close } in
      let c₁ = update_service s.addr (λ t. record t { id = 0; body = tcp f_error_close }) c in
      let h₁ =
        moved-Stands s st f_error_close (λ t. record t { id = 0; body = tcp f_error_close }) c c₁ h
          (λ t. refl) (λ t. refl) refl in
      let r = try_close e s' c₁ in
      let z = try_close-Has e s' f_error_close c₁ (record { here = h₁.here; alone = h₁.alone }) in
      let f = packet_free-services e c c₁.services in
      if_elim (Has s (stream_body (refused (packet_free e c)))) r.0
        (subst (λ b. Has s (stream_body (refused b)) r.1) f z)
        (subst (λ b. Has s (stream_body (refused b)) r.1) f z)

  on_write-Follows :
      (s : Service) (st : StreamState) (c : Client W) (p : Packet)
      → Stands s st c
      → Follows s peer_write st (on_write_frame e s (tcp st) p c).2
  unfolding on_write_frame service_write
  on_write-Follows s st c p h =
      if_elim (λ (r : Reply W). Has s (some (tcp st)) r.2) (can_write st) h.here h.here

  on_ack-Follows :
      (s : Service) (st : StreamState) (c : Client W) (p : Packet)
      → Stands s st c
      → Follows s peer_ack st (on_ack_frame e s (tcp st) p c).2
  unfolding on_ack_frame socket_start
  on_ack-Follows s f_wait_ack c p h = (set_body-Stands s f_wait_ack f_connected c h).here
  on_ack-Follows s f_error_close c p h = h.here
  on_ack-Follows s f_not_connected c p h = h.here
  on_ack-Follows s f_notify_client c p h = h.here
  on_ack-Follows s f_connected c p h = h.here

  on_kick-Follows :
      (s : Service) (st : StreamState) (c : Client W)
      → Stands s st c
      → Follows s (kick (packet_free e c)) st (on_kick e s (tcp st) c).1
  unfolding on_kick socket_start
  on_kick-Follows s f_wait_ack c h = h.here
  on_kick-Follows s f_not_connected c h = h.here
  on_kick-Follows s f_connected c h = h.here
  on_kick-Follows s f_error_close c h = try_close-Has e s f_error_close c h
  on_kick-Follows s f_notify_client c h = try_connect-Has e s c h

  connected_data-Follows :
      (s : Service) (n : ℕ) (c : Client W) (p : Packet)
      → Stands s f_connected c
      → p.data_length ≡ n
      → Follows s (data_read n) f_connected (tcp_stream_on_data_cb e s f_connected p c)
  unfolding tcp_stream_on_data_cb adb_hal_socket_stop
  connected_data-Follows s zero c p h z =
      let y : (p.data_length == 0) ≡ true = ground arith in
      rw y (service_close-gone e s f_connected (some p) c h)
  connected_data-Follows s (suc n) c p h z =
      let y : (p.data_length == 0) ≡ false = ground arith in
      let c₁ = adb_hal_socket_stop e s.addr c in
      let h₁ = kept-Stands s f_connected c c₁ h refl in
      rw y (
        ap (body_at s.addr) (data_frame-services e _ _)
        ∙ (set_body-Stands s f_connected f_wait_ack c₁ h₁).here)

  on_data-Follows :
      (s : Service) (st : StreamState) (n : ℕ) (c : Client W) (p : Packet)
      → Stands s st c
      → p.data_length ≡ n
      → Follows s (data_read n) st (tcp_stream_on_data_cb e s st p c)
  unfolding tcp_stream_on_data_cb
  on_data-Follows s f_connected n c p h z = connected_data-Follows s n c p h z
  on_data-Follows s f_wait_ack zero c p h z = service_close-gone e s f_wait_ack (some p) c h
  on_data-Follows s f_wait_ack (suc n) c p h z = service_close-gone e s f_wait_ack (some p) c h
  on_data-Follows s f_error_close zero c p h z = service_close-gone e s f_error_close (some p) c h
  on_data-Follows s f_error_close (suc n) c p h z =
      service_close-gone e s f_error_close (some p) c h
  on_data-Follows s f_not_connected zero c p h z =
      service_close-gone e s f_not_connected (some p) c h
  on_data-Follows s f_not_connected (suc n) c p h z =
      service_close-gone e s f_not_connected (some p) c h
  on_data-Follows s f_notify_client zero c p h z =
      service_close-gone e s f_notify_client (some p) c h
  on_data-Follows s f_notify_client (suc n) c p h z =
      service_close-gone e s f_notify_client (some p) c h

  on_written-Follows :
      (s : Service) (st : StreamState) (c : Client W) (p : Packet) (ok : Bool)
      → Stands s st c
      → Follows s (write_end ok) st (stream_send_data_frame_cb e s p ok c)
  unfolding stream_send_data_frame_cb
  on_written-Follows s st c p true h =
      ap (body_at s.addr) (okay-services e c p s.id s.peer_id) ∙ h.here
  on_written-Follows s st c p false h = service_close-gone e s st (some p) c h

  on_connect-Follows :
      (s : Service) (st : StreamState) (c : Client W) (ok : Bool)
      → Stands s st c
      → Follows s (connect_end ok (packet_free e c)) st (tcp_stream_on_connect_cb e s st ok c)
  unfolding tcp_stream_on_connect_cb set_body update_service
  on_connect-Follows s f_not_connected c true h =
      let c₁ = set_body s.addr (tcp f_notify_client) c in
      subst (λ b. Has s (stream_body (told b)) (try_connect e s c₁))
        (packet_free-services e c c₁.services)
        (try_connect-Has e s c₁ (set_body-Stands s f_not_connected f_notify_client c h))
  on_connect-Follows s f_not_connected c false h = refuse_connection-Has s f_not_connected c h
  on_connect-Follows s f_error_close c true h = refuse_connection-Has s f_error_close c h
  on_connect-Follows s f_error_close c false h = refuse_connection-Has s f_error_close c h
  on_connect-Follows s f_notify_client c true h = refuse_connection-Has s f_notify_client c h
  on_connect-Follows s f_notify_client c false h = refuse_connection-Has s f_notify_client c h
  on_connect-Follows s f_connected c true h = refuse_connection-Has s f_connected c h
  on_connect-Follows s f_connected c false h = refuse_connection-Has s f_connected c h
  on_connect-Follows s f_wait_ack c true h = refuse_connection-Has s f_wait_ack c h
  on_connect-Follows s f_wait_ack c false h = refuse_connection-Has s f_wait_ack c h

  -- Whichever of its handlers and callbacks runs, a stream that stands alone at its address is then
  -- where the machine goes from its state, and closed and unlinked exactly where the machine ends: by a
  -- write and an acknowledgement from the peer, a kick, data from the socket, the end of a write to it,
  -- and the end of its connection.
  pub stream-Follows :
      (s : Service) (st : StreamState) (c : Client W) (p : Packet) (ok : Bool)
      → Stands s st c
      → let packet = packet_free e c in
        Follows s peer_write st (on_write_frame e s (tcp st) p c).2
        × Follows s peer_ack st (on_ack_frame e s (tcp st) p c).2
        × Follows s (kick packet) st (on_kick e s (tcp st) c).1
        × Follows s (data_read p.data_length) st (tcp_stream_on_data_cb e s st p c)
        × Follows s (write_end ok) st (stream_send_data_frame_cb e s p ok c)
        × Follows s (connect_end ok packet) st (tcp_stream_on_connect_cb e s st ok c)
  stream-Follows s st c p ok h = (
    on_write-Follows s st c p h,
    on_ack-Follows s st c p h,
    on_kick-Follows s st c h,
    on_data-Follows s st p.data_length c p h refl,
    on_written-Follows s st c p ok h,
    on_connect-Follows s st c ok h,
  )
