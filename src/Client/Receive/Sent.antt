-- ===== src/Client/Receive/Sent.antt =====
-- What the transports hand to libuv for a packet: the bytes that the receiver of Client/Receive/Wire
-- reads.
use micro_adb.Common.{ℕ, List, [], ◌∷◌, ◌++◌}
use micro_adb.Packet.{Packet}
use micro_adb.Uv.{Handle, transport, write_pipe}
use micro_adb.Client.{Client, Ops, adb_usb_uv_ops}

abbrev pub joined : List (List ℕ) → List ℕ
joined [] = []
joined (b ∷ bs) = b ++ joined bs

-- The handle that a transport writes.
abbrev pub written_handle : Ops → Handle
written_handle adb_usb_uv_ops = write_pipe
written_handle o = transport
