-- ===== src/Client/Callbacks.antt =====
-- The functions that libuv calls for a transport and for a service's socket, which find the client or
-- the service of the handle and go on with it: those of hal/hal_uv_client_tcp.c, hal_uv_client_usb.c,
-- hal_uv_client_qemu.c and hal_uv_socket.c.
use micro_adb.Common.{Bool}
use micro_adb.Packet.{Packet}
use micro_adb.Client.{Client, Env, Service, StreamState}
use micro_adb.Client.Receive.{Buf, Read, adb_uv_allocate_frame, adb_uv_on_data_available}
use micro_adb.Client.Life.{adb_uv_close_client}
use micro_adb.Client.Stream.{
  stream_send_data_frame_cb, tcp_stream_on_connect_cb, atcp_stream_release,
}

module _ {W : Type 0} (e : Env W) where
  abbrev pub tcp_uv_allocate_frame : Client W → Buf × Client W
  tcp_uv_allocate_frame c = adb_uv_allocate_frame e c

  abbrev pub usb_uv_allocate_frame : Client W → Buf × Client W
  usb_uv_allocate_frame c = adb_uv_allocate_frame e c

  abbrev pub qemu_uv_allocate_frame : Client W → Buf × Client W
  qemu_uv_allocate_frame c = adb_uv_allocate_frame e c

  abbrev pub tcp_uv_on_data_available : Client W → Read → Client W
  tcp_uv_on_data_available c r = adb_uv_on_data_available e c r

  abbrev pub usb_uv_on_data_available : Client W → Read → Client W
  usb_uv_on_data_available c r = adb_uv_on_data_available e c r

  abbrev pub qemu_uv_on_data_available : Client W → Read → Client W
  qemu_uv_on_data_available c r = adb_uv_on_data_available e c r

  -- The client's end: what is left of it is the world.
  abbrev pub tcp_uv_on_close : Client W → W
  tcp_uv_on_close c = adb_uv_close_client e c

  abbrev pub usb_uv_on_close : Client W → W
  usb_uv_on_close c = adb_uv_close_client e c

  abbrev pub qemu_uv_on_close : Client W → W
  qemu_uv_on_close c = adb_uv_close_client e c

  -- `ok` unless the status is negative.
  abbrev pub fwd_tcp_after_write : Service → Packet → Bool → Client W → Client W
  fwd_tcp_after_write s p ok c = stream_send_data_frame_cb e s p ok c

  -- `ok` where the status is 0.
  abbrev pub connect_cb : Service → StreamState → Bool → Client W → Client W
  connect_cb s st ok c = tcp_stream_on_connect_cb e s st ok c

  abbrev pub socket_close_cb : Service → Client W → Client W
  socket_close_cb s c = atcp_stream_release e s c
