-- ===== src/Witnesses/Peer.antt =====
-- The theorems on the frames of a peer at a client of Examples.antt.
use micro_adb.Common.{codes}
use micro_adb.Packet.{Packet, a_wrte}
use micro_adb.Examples.{packet}

-- A WRTE of three bytes to the stream.
abbrev three_bytes : Packet
three_bytes = packet 61 a_wrte 8 2 (codes "abc") 3
