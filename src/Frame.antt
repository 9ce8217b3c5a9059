-- ===== src/Frame.antt =====
-- adb_frame.c: the checks of a received frame, and `fill_frame`, the part of adb_client.c's
-- send_frame that fills in what they check.
pub mod Check
use micro_adb.Common.{
  ℕ, zero, suc, ◌+◌, ◌%◌, ◌^◌, ◌<◌, ◌≡◌, refl, Bool, true, false, not, ◌&&◌, List, [], ◌∷◌, arith,
  ltb, leb, ◌==◌, if◌then◌else◌, bit_xor,
}
use micro_adb.Packet.{Packet, Message, Config}

-- The loop `while (count-- > 0) sum += *x++;` over an unsigned sum. Memory past the buffer is not
-- the packet's: a read of it ends the sum here, and the callers' bounds rule it out.
unfoldable pub checksum : ℕ → List ℕ → ℕ → ℕ
checksum zero xs sum = sum
checksum (suc count) [] sum = sum
checksum (suc count) (x ∷ xs) sum = checksum count xs ((sum + x) % 2 ^ 32)

-- The three checks return 0 (here `true`) or -1 (here `false`).
unfoldable pub check_frame_magic : Packet → Bool
check_frame_magic p = p.magic == bit_xor p.command 0xffffffff

unfoldable pub check_frame_header : Config → Packet → Bool
unfolding check_frame_magic
check_frame_header c p = check_frame_magic p && not (ltb c.payload_size p.data_length)

unfoldable pub check_auth_frame_header : Config → Packet → Bool
unfolding check_frame_magic
check_auth_frame_header c p = check_frame_magic p && not (ltb c.cnxn_payload_size p.data_length)

unfoldable pub check_frame_data : Packet → Bool
unfolding checksum
check_frame_data p = checksum p.data_length p.payload 0 == p.data_check

unfoldable pub fill_frame : Packet → Packet
unfolding checksum
fill_frame p = record p {
  msg = record p.msg {
    magic = bit_xor p.command 0xffffffff;
    data_check = checksum p.data_length p.payload 0;
  };
}
