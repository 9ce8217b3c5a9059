-- ===== src/Client/Kick.antt =====
-- The on_kick handlers of tcp_service.c and hal/shell_service_uv.c, adb_client_kick_services, and
-- the release of a packet in hal/hal_uv_packet.c, which kicks the client.
use micro_adb.Common.{
  ℕ, ◌-◌, List, [], ◌∷◌, some, Bool, true, false, ◌==◌, ltb, if◌then◌else◌, on_option,
}
use micro_adb.Packet.{Packet}
use micro_adb.Uv.{Handle, transport, socket, pipe}
use micro_adb.Client.{
  StreamState, Ops, adb_tcp_uv_ops, adb_usb_uv_ops, adb_qemu_uv_ops, Client, Env, Service, Body,
  sync, tcp, shell, f_error_close, f_not_connected, f_notify_client, f_connected, f_wait_ack,
}
use micro_adb.Client.Transport.{set_world}
use micro_adb.Client.Frames.{adb_send_okay_frame, adb_hal_apacket_allocate}
use micro_adb.Client.Services.{set_body, adb_service_close}

module _ {W : Type 0} (e : Env W) where
  -- `if (!uv_is_active(h)) uv_read_start(h, …)`: whether it returns 0.
  unfoldable pub start_reading : Handle → W → Bool × W
  start_reading h w = if e.uv.is_active h w then (true, w) else e.uv.read_start h w

  -- adb_hal_socket_start.
  unfoldable pub socket_start : ℕ → Client W → Bool × Client W
  socket_start addr c = let (ok, w) = start_reading (socket addr) c.world in (ok, set_world w c)

  unfoldable pub try_connect : Service → Client W → Client W
  try_connect s c =
      let (p, c₁) = adb_hal_apacket_allocate e c in
      on_option p c₁ (λ q.
        adb_send_okay_frame e (socket_start s.addr (set_body s.addr (tcp f_connected) c₁)).1 q s.id
          s.peer_id)

  -- Whether the service has been closed, and so freed or about to be.
  unfoldable pub try_close : Service → Client W → Bool × Client W
  try_close s c =
      let (p, c₁) = adb_hal_apacket_allocate e c in
      on_option p (false, c₁) (λ q. (true, adb_service_close e c₁ s.addr (some q)))

  unfoldable pub shell_kick : ℕ → Bool → Client W → Client W
  shell_kick addr wait_ack c =
      if wait_ack then c else set_world (start_reading (pipe addr) c.world).1 c

  -- A kick, and whether it closed the service.
  abbrev pub atcp_stream_on_kick : Service → StreamState → Client W → Bool × Client W
  atcp_stream_on_kick s f_not_connected c = (false, c)
  atcp_stream_on_kick s f_wait_ack c = (false, c)
  atcp_stream_on_kick s f_connected c = (false, (socket_start s.addr c).1)
  atcp_stream_on_kick s f_notify_client c = (false, try_connect s c)
  atcp_stream_on_kick s f_error_close c = try_close s c

  -- service->ops->on_kick.
  unfoldable pub on_kick : Service → Body → Client W → Bool × Client W
  on_kick s (sync v) c = (false, c)
  on_kick s (tcp st) c = atcp_stream_on_kick s st c
  on_kick s (shell wait_ack) c = (false, shell_kick s.addr wait_ack c)

  -- adb_client_kick_services, from a node of the list on. After on_kick has closed the service the
  -- loop reads `service->next` of a structure that has been freed.
  unfoldable pub kick_from : List Service → Client W → Client W
  kick_from [] c = c
  kick_from (s ∷ ss) c =
      let (closed, c₁) = on_kick s s.body c in
      kick_from ss (if closed then record c₁ { undefined = true } else c₁)

  unfoldable pub adb_client_kick_services : Client W → Client W
  adb_client_kick_services c = kick_from c.services c

  unfoldable pub tcp_uv_kick : Client W → Client W
  tcp_uv_kick c = adb_client_kick_services (set_world (start_reading transport c.world).1 c)

  -- The other transports assert that reading has started.
  unfoldable pub usb_uv_kick : Client W → Client W
  usb_uv_kick c =
      let (ok, w) = start_reading transport c.world in
      let c' = set_world w c in
      adb_client_kick_services (if ok then c' else record c' { undefined = true })

  unfoldable pub qemu_uv_kick : Client W → Client W
  qemu_uv_kick c =
      let (ok, w) = start_reading transport c.world in
      let c' = set_world w c in
      adb_client_kick_services (if ok then c' else record c' { undefined = true })

  -- client->ops->kick.
  unfoldable pub ops_kick : Ops → Client W → Client W
  ops_kick adb_tcp_uv_ops c = tcp_uv_kick c
  ops_kick adb_usb_uv_ops c = usb_uv_kick c
  ops_kick adb_qemu_uv_ops c = qemu_uv_kick c

  -- `assert(client->frame_count > 0)` fails at 0.
  unfoldable pub adb_hal_apacket_release : Client W → Packet → Client W
  adb_hal_apacket_release c p =
      let c₁ = set_world (e.uv.free_packet p c.world) c in
      if c.frame_count == 0
      then record c { undefined = true }
      else if ltb e.config.frame_max c.frame_count
      then ops_kick e.ops (record c₁ { frame_count = e.config.frame_max - 1 })
      else record c₁ { frame_count = c.frame_count - 1 }
