-- ===== src/Client/Forward.antt =====
-- adb_client.c's handle_write_frame with tcp_service.c and hal/shell_service_uv.c: the way of a WRTE
-- frame's data from the peer to a service's socket or terminal, and of its acknowledgement back.
use micro_adb.Common.{ℕ, ◌≡◌, Option, none, some, if◌then◌else◌}
use micro_adb.Packet.{Packet, a_okay}
use micro_adb.Uv.{Handle, socket, pipe}
use micro_adb.Client.{Client, Service, Body, sync, tcp, shell}
use micro_adb.Client.Handlers.{can_write}

-- The handle that a service at an address writes the peer's data to, if it takes any.
abbrev pub outlet : ℕ → Body → Option Handle
outlet addr (sync v) = none
outlet addr (tcp st) = if can_write st then some (socket addr) else none
outlet addr (shell wait_ack) = some (pipe addr)

-- The OKAY frame, without data, that acknowledges a WRTE to a service.
pub record Acknowledges (s : Service) (q : Packet) : Type 0 where
  pub command : q.command ≡ a_okay
  pub from : q.arg0 ≡ s.id
  pub to : q.arg1 ≡ s.peer_id
  pub len : q.data_length ≡ 0
