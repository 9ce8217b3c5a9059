-- ===== src/Client/Receive.antt =====
-- hal/hal_uv_packet.c: how libuv's reads of the transport become packets. adb_uv_allocate_frame
-- offers memory, libuv stores bytes there, and adb_uv_on_data_available takes them.
pub mod Bounds
pub mod Keeps
pub mod Memory
pub mod Chunks
pub mod Wire
pub mod Sent
use micro_adb.Common.{
  ℕ, zero, suc, ◌+◌, ◌-◌, ◌*◌, ◌%◌, ◌^◌, List, [], ◌∷◌, ◌++◌, Option, none, some, Bool, true, false,
  not, ◌&&◌, ◌||◌, ◌==◌, ltb, leb, if◌then◌else◌, on_option, length, write_at, take, drop, bytes32,
  word32,
}
use micro_adb.Packet.{Packet, Message, sizeof_message}
pub use micro_adb.Packet.{encode}
use micro_adb.Frame.{check_frame_header, check_auth_frame_header, check_frame_data}
use micro_adb.Uv.{Uv, Handle, transport}
use micro_adb.Client.{Client, Env}
use micro_adb.Client.Transport.{set_world, client_close}
use micro_adb.Client.Frames.{adb_uv_packet_allocate, adb_send_data_frame}
use micro_adb.Client.Services.{adb_service_close}
use micro_adb.Client.Kick.{adb_hal_apacket_release}
use micro_adb.Client.Handlers.{adb_process_packet}

abbrev pub decode : ℕ → List ℕ → Packet
decode write_len m = record {
  write_len = write_len;
  msg = record {
    command = word32 m;
    arg0 = word32 (drop 4 m);
    arg1 = word32 (drop 8 m);
    data_length = word32 (drop 12 m);
    data_check = word32 (drop 16 m);
    magic = word32 (drop 20 m);
  };
  payload = drop 24 m;
}

-- What libuv does with `bs`: it stores them at an offset from the packet's message.
unfoldable pub store : ℕ → List ℕ → Packet → Packet
store at bs p = decode p.write_len (write_at at bs (encode p))

-- uv_buf_t: an offset into the current packet, and a length; a length of 0 means no memory.
pub record Buf : Type 0 where
  pub base : ℕ
  pub len : ℕ

-- The `nread` argument: UV_ENOBUFS, 0, an error or the end, or the bytes that were stored.
pub data Read : Type 0 where
  no_buffers nothing read_error : Read
  bytes : List ℕ → Read

module _ {W : Type 0} (e : Env W) where
  unfoldable pub offer : Client W → Packet → Buf
  offer c p = record {
    base = c.cur_len;
    len =
        if ltb c.cur_len sizeof_message
        then sizeof_message - c.cur_len
        else sizeof_message + p.data_length - c.cur_len;
  }

  unfoldable pub start_packet : Option Packet → Client W → Buf × Client W
  start_packet none c = (record { base = 0; len = 0 }, c)
  start_packet (some p) c =
      (record { base = 0; len = sizeof_message }, record c { cur_packet = some p; cur_len = 0 })

  unfoldable pub allocate_for : Option Packet → Client W → Buf × Client W
  allocate_for none c =
      let (mem, c') = adb_uv_packet_allocate e c (not c.is_connected) in start_packet mem c'
  allocate_for (some p) c = (offer c p, c)

  unfoldable pub adb_uv_allocate_frame : Client W → Buf × Client W
  adb_uv_allocate_frame c = allocate_for c.cur_packet c

  -- Once the packet has its length: the check of the data, and its processing.
  unfoldable pub complete_packet : Client W → Packet → Client W
  complete_packet c p =
      if check_frame_data p
      then adb_process_packet e (record c { cur_packet = none }) p
      else client_close e c

  -- The check of the header, when this read completes it.
  unfoldable pub bad_header : Client W → Packet → ℕ → Bool
  bad_header c p n =
      ltb c.cur_len sizeof_message
      && (leb sizeof_message (c.cur_len + n)
          && (not c.is_connected && not (check_auth_frame_header e.config p)
              || c.is_connected && not (check_frame_header e.config p)))

  unfoldable pub take_bytes : Client W → Packet → ℕ → Client W
  take_bytes c p n =
      let c' = record c { cur_len = c.cur_len + n; cur_packet = some p } in
      if bad_header c p n
      then client_close e (record c { cur_packet = some p })
      else if ltb (c.cur_len + n) (sizeof_message + p.data_length)
      then c'
      else complete_packet c' p

  -- adb_uv_on_data_available, with the bytes that libuv has stored. Where there is no current packet,
  -- the release of one reads a null pointer, and the assertion on `up` fails.
  unfoldable pub adb_uv_on_data_available : Client W → Read → Client W
  adb_uv_on_data_available c no_buffers = set_world (e.uv.read_stop transport c.world) c
  adb_uv_on_data_available c nothing =
      if c.cur_len == 0
      then on_option c.cur_packet (record c { undefined = true })
          (λ p. record (adb_hal_apacket_release e c p) { cur_packet = none })
      else c
  adb_uv_on_data_available c read_error = client_close e c
  adb_uv_on_data_available c (bytes bs) =
      on_option c.cur_packet (record c { undefined = true })
        (λ p. take_bytes c (store c.cur_len bs p) (length bs))

  -- The callback of a write of the transport: `ok` unless its status is negative.
  unfoldable pub adb_uv_after_write : Client W → Packet → Bool → Client W
  adb_uv_after_write c p ok =
      if not ok
      then client_close e (adb_hal_apacket_release e c p)
      else if ltb 0 p.write_len
      then adb_send_data_frame e c p
      else adb_hal_apacket_release e c p
