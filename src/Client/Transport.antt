-- ===== src/Client/Transport.antt =====
-- The transports' adb_client_ops_t: write and close of hal/hal_uv_client_tcp.c, hal_uv_client_usb.c and
-- hal_uv_client_qemu.c, and the calls through client->ops. Their kick stands in Client/Kick.
use micro_adb.Common.{ℕ, ◌+◌, Bool, List, [], ◌∷◌, ltb, if◌then◌else◌, take}
use micro_adb.Packet.{Packet, sizeof_message, encode}
use micro_adb.Uv.{transport, write_pipe}
use micro_adb.Client.{Client, Env, Ops, adb_tcp_uv_ops, adb_usb_uv_ops, adb_qemu_uv_ops}

-- The buffer of a frame: the message, and the payload that stands after it.
abbrev pub frame_buffer : Packet → List ℕ
frame_buffer p = take (sizeof_message + p.data_length) (encode p)

-- The two buffers of the USB transport, or the message's alone.
abbrev pub usb_buffers : Packet → List (List ℕ)
usb_buffers p =
    if ltb 0 p.data_length
    then take sizeof_message (encode p) ∷ take p.data_length p.payload ∷ []
    else take sizeof_message (encode p) ∷ []

module _ {W : Type 0} where
  abbrev pub set_world : W → Client W → Client W
  set_world w c = record c { world = w }

module _ {W : Type 0} (e : Env W) where
  -- Whether the write returns 0.
  unfoldable pub tcp_uv_write : Client W → Packet → Bool × Client W
  tcp_uv_write c p =
      let (ok, w) = e.uv.write transport p (frame_buffer p ∷ []) c.world in (ok, set_world w c)

  unfoldable pub usb_uv_write : Client W → Packet → Bool × Client W
  usb_uv_write c p =
      let (ok, w) = e.uv.write write_pipe p (usb_buffers p) c.world in (ok, set_world w c)

  unfoldable pub qemu_uv_write : Client W → Packet → Bool × Client W
  qemu_uv_write c p =
      let (ok, w) = e.uv.write transport p (frame_buffer p ∷ []) c.world in (ok, set_world w c)

  unfoldable pub tcp_uv_close : Client W → Client W
  tcp_uv_close c = set_world (e.uv.close transport c.world) c

  unfoldable pub usb_uv_close : Client W → Client W
  usb_uv_close c = set_world (e.uv.close transport (e.uv.close write_pipe c.world)) c

  unfoldable pub qemu_uv_close : Client W → Client W
  qemu_uv_close c = set_world (e.uv.close transport c.world) c

  -- client->ops->write.
  unfoldable pub ops_write : Ops → Client W → Packet → Bool × Client W
  ops_write adb_tcp_uv_ops c p = tcp_uv_write c p
  ops_write adb_usb_uv_ops c p = usb_uv_write c p
  ops_write adb_qemu_uv_ops c p = qemu_uv_write c p

  -- client->ops->close.
  unfoldable pub ops_close : Ops → Client W → Client W
  ops_close adb_tcp_uv_ops c = tcp_uv_close c
  ops_close adb_usb_uv_ops c = usb_uv_close c
  ops_close adb_qemu_uv_ops c = qemu_uv_close c

  abbrev pub client_write : Client W → Packet → Bool × Client W
  client_write c p = ops_write e.ops c p

  abbrev pub client_close : Client W → Client W
  client_close c = ops_close e.ops c
