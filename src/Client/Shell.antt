-- ===== src/Client/Shell.antt =====
-- The callbacks of hal/shell_service_uv.c. Each is given the service that its handle is part of.
use micro_adb.Common.{Option, some, Bool, true, false, if◌then◌else◌, length}
use micro_adb.Packet.{Packet}
use micro_adb.Uv.{pipe, process}
use micro_adb.Client.{Client, Env, Service, shell}
use micro_adb.Client.Transport.{set_world}
use micro_adb.Client.Frames.{
  set_write_len, adb_send_okay_frame, adb_send_data_frame, adb_uv_packet_allocate,
}
use micro_adb.Client.Services.{set_body, adb_service_close}
use micro_adb.Client.Receive.{Read, no_buffers, nothing, read_error, bytes}
use micro_adb.Client.Stream.{filled, addressed}

module _ {W : Type 0} (e : Env W) where
  -- The memory that libuv is offered for a read, after the assertion that no acknowledgement is due.
  unfoldable pub alloc_buffer : Bool → Client W → Option Packet × Client W
  alloc_buffer wait_ack c =
      adb_uv_packet_allocate e (if wait_ack then record c { undefined = true } else c) false

  unfoldable pub pipe_on_data_available : Service → Packet → Read → Client W → Client W
  pipe_on_data_available s p no_buffers c = set_world (e.uv.read_stop (pipe s.addr) c.world) c
  pipe_on_data_available s p nothing c = adb_service_close e c s.addr (some p)
  pipe_on_data_available s p read_error c = adb_service_close e c s.addr (some p)
  pipe_on_data_available s p (bytes bs) c =
      let c₁ = set_body s.addr (shell true) c in
      adb_send_data_frame e (set_world (e.uv.read_stop (pipe s.addr) c₁.world) c₁)
        (addressed s (set_write_len (length bs) (filled bs p)))

  -- `ok` unless the status of the write is negative.
  unfoldable pub shell_after_write : Service → Packet → Bool → Client W → Client W
  shell_after_write s p ok c =
      if ok then adb_send_okay_frame e c p s.id s.peer_id else adb_service_close e c s.addr (some p)

  unfoldable pub shell_close_pipe_callback : Service → Client W → Client W
  shell_close_pipe_callback s c = set_world (e.uv.close (process s.addr) c.world) c

  unfoldable pub shell_close_process_callback : Service → Client W → Client W
  shell_close_process_callback s c = set_world (e.uv.free_service s.addr c.world) c
