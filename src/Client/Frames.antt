-- ===== src/Client/Frames.antt =====
-- adb_client.c's adb_send_ functions with send_frame, and the allocation of hal/hal_uv_packet.c.
use micro_adb.Common.{ℕ, ◌+◌, Option, none, some, Bool, false, leb, if◌then◌else◌, on_option}
use micro_adb.Packet.{Packet, a_cnxn, a_open, a_okay, a_clse, a_wrte, a_version}
use micro_adb.Frame.{fill_frame}
use micro_adb.Banner.{fill_connect_data}
use micro_adb.Client.{Client, Env}
use micro_adb.Client.Transport.{set_world, client_write, client_close}

-- The message of a packet with a command, its arguments and a length.
abbrev pub set_msg : ℕ → ℕ → ℕ → ℕ → Packet → Packet
set_msg command arg0 arg1 len p = record p {
  msg = record p.msg { command = command; arg0 = arg0; arg1 = arg1; data_length = len };
}

abbrev pub set_write_len : ℕ → Packet → Packet
set_write_len n p = record p { write_len = n }

module _ {W : Type 0} (e : Env W) where
  unfoldable pub send_frame : Client W → Packet → Client W
  send_frame c p =
      let (ok, c') = client_write e c (fill_frame p) in if ok then c' else client_close e c'

  unfoldable pub send_close_frame : Client W → Packet → ℕ → ℕ → Client W
  send_close_frame c p local remote =
      send_frame c (set_write_len 0 (set_msg a_clse local remote 0 p))

  unfoldable pub send_cnxn_frame : Client W → Packet → Client W
  send_cnxn_frame c p =
      let (buf, len) = fill_connect_data e.product e.config.cnxn_payload_size p.payload in
      send_frame c (record (set_msg a_cnxn a_version e.config.payload_size len p) { payload = buf })

  unfoldable pub adb_send_okay_frame_with_data : Client W → Packet → ℕ → ℕ → Client W
  adb_send_okay_frame_with_data c p local remote = send_frame c (set_msg a_okay local remote 0 p)

  unfoldable pub adb_send_okay_frame : Client W → Packet → ℕ → ℕ → Client W
  adb_send_okay_frame c p local remote =
      adb_send_okay_frame_with_data c (set_write_len 0 p) local remote

  unfoldable pub adb_send_open_frame : Client W → Packet → ℕ → ℕ → ℕ → Client W
  adb_send_open_frame c p local remote size = send_frame c (set_msg a_open local remote size p)

  unfoldable pub adb_send_data_frame : Client W → Packet → Client W
  adb_send_data_frame c p =
      send_frame c (set_write_len 0 (set_msg a_wrte p.arg0 p.arg1 p.write_len p))

  -- The payload that adb_uv_packet_allocate asks for.
  abbrev pub payload_of : Bool → ℕ
  payload_of before_connect =
      if before_connect then e.config.cnxn_payload_size else e.config.payload_size

  unfoldable pub adb_uv_packet_allocate : Client W → Bool → Option Packet × Client W
  adb_uv_packet_allocate c before_connect =
      let (mem, w) = e.uv.malloc_packet (payload_of before_connect) c.world in
      if leb e.config.frame_max c.frame_count
      then (none, record c { frame_count = e.config.frame_max + 1 })
      else on_option mem (none, client_close e (set_world w c))
          (λ p. (some p, record c { frame_count = c.frame_count + 1; world = w }))

  unfoldable pub adb_hal_apacket_allocate : Client W → Option Packet × Client W
  adb_hal_apacket_allocate c = adb_uv_packet_allocate c false
