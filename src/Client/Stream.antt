-- ===== src/Client/Stream.antt =====
-- The callbacks of a TCP service: tcp_service.c's, and those of hal/hal_uv_socket.c that call them. A
-- callback is given the service that its handle is part of, which may have left the client's list.
use micro_adb.Common.{
  ℕ, List, Option, some, Bool, true, false, ◌==◌, if◌then◌else◌, length, write_at,
}
use micro_adb.Packet.{Packet}
use micro_adb.Uv.{socket}
use micro_adb.Client.{
  Client, Env, Service, tcp, StreamState, f_error_close, f_not_connected, f_notify_client,
  f_connected, f_wait_ack,
}
use micro_adb.Client.Transport.{set_world}
use micro_adb.Client.Frames.{
  set_write_len, adb_send_okay_frame, adb_send_data_frame, adb_uv_packet_allocate,
}
use micro_adb.Client.Services.{update_service, set_body, adb_service_close}
use micro_adb.Client.Kick.{try_connect, try_close, adb_hal_apacket_release}
use micro_adb.Client.Receive.{Read, no_buffers, nothing, read_error, bytes}

abbrev pub is_connected_stream : StreamState → Bool
is_connected_stream f_connected = true
is_connected_stream st = false

abbrev pub is_not_connected : StreamState → Bool
is_not_connected f_not_connected = true
is_not_connected st = false

-- The payload of a packet after libuv has read bytes into it, and its data_length.
abbrev pub filled : List ℕ → Packet → Packet
filled bs p = record p { payload = write_at 0 bs p.payload }

abbrev pub set_length : ℕ → Packet → Packet
set_length n p = record p { msg = record p.msg { data_length = n } }

-- A packet for the frame of a service.
abbrev pub addressed : Service → Packet → Packet
addressed s p = record p { msg = record p.msg { arg0 = s.id; arg1 = s.peer_id } }

module _ {W : Type 0} (e : Env W) where
  unfoldable pub adb_hal_socket_stop : ℕ → Client W → Client W
  adb_hal_socket_stop addr c = set_world (e.uv.read_stop (socket addr) c.world) c

  -- The memory that libuv is offered for a read: the payload of a packet, or none.
  unfoldable pub tcp_stream_allocate_frame : Client W → Option Packet × Client W
  tcp_stream_allocate_frame c = adb_uv_packet_allocate e c false

  unfoldable pub tcp_stream_on_data_cb : Service → StreamState → Packet → Client W → Client W
  tcp_stream_on_data_cb s st p c =
      if is_connected_stream st
      then (if p.data_length == 0
          then adb_service_close e c s.addr (some p)
          else adb_send_data_frame e
              (set_body s.addr (tcp f_wait_ack) (adb_hal_socket_stop s.addr c))
              (addressed s (set_write_len p.data_length p)))
      else adb_service_close e c s.addr (some p)

  -- What libuv has read into the payload of a packet.
  unfoldable pub tcp_stream_on_data_available :
      Service → StreamState → Packet → Read → Client W → Client W
  tcp_stream_on_data_available s st p no_buffers c = adb_hal_socket_stop s.addr c
  tcp_stream_on_data_available s st p nothing c = adb_hal_apacket_release e c p
  tcp_stream_on_data_available s st p read_error c = tcp_stream_on_data_cb s st (set_length 0 p) c
  tcp_stream_on_data_available s st p (bytes bs) c =
      tcp_stream_on_data_cb s st (set_length (length bs) (filled bs p))
        (adb_hal_socket_stop s.addr c)

  -- The end of a write to the socket: `ok` unless its status is negative.
  unfoldable pub stream_send_data_frame_cb : Service → Packet → Bool → Client W → Client W
  stream_send_data_frame_cb s p ok c =
      if ok then adb_send_okay_frame e c p s.id s.peer_id else adb_service_close e c s.addr (some p)

  -- A connection that failed: the service is closed under the id 0, now or by a later kick. A service
  -- closed here is freed with its socket, which libuv still reads after the callback.
  unfoldable pub refuse_connection : Service → Client W → Client W
  refuse_connection s c =
      let s' = record s { id = 0; body = tcp f_error_close } in
      let (closed, c') =
        try_close e s'
          (update_service s.addr (λ t. record t { id = 0; body = tcp f_error_close }) c) in
      if closed then record c' { undefined = true } else c'

  unfoldable pub tcp_stream_on_connect_cb : Service → StreamState → Bool → Client W → Client W
  tcp_stream_on_connect_cb s st ok c =
      if ok
      then (if is_not_connected st
          then try_connect e s (set_body s.addr (tcp f_notify_client) c)
          else refuse_connection s c)
      else refuse_connection s c

  -- socket_close_cb with atcp_stream_release.
  unfoldable pub atcp_stream_release : Service → Client W → Client W
  atcp_stream_release s c = set_world (e.uv.free_service s.addr c.world) c
