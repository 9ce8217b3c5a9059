-- ===== src/Frame/Check.antt =====
-- What the frame checks accept.
use micro_adb.Common.{
  ℕ, zero, suc, ◌+◌, ◌%◌, ◌^◌, ◌≤◌, ◌<◌, ◌≡◌, ◌↔◌, true, List, [], ◌∷◌, arith, take,
}
use micro_adb.Packet.{Packet, Config}
use micro_adb.Frame.{
  checksum, check_frame_header, check_auth_frame_header, check_frame_data, fill_frame,
}

-- The sum of some bytes, with no machine in it.
abbrev pub sum : List ℕ → ℕ
sum [] = 0
sum (x ∷ xs) = x + sum xs

-- The loop computes the sum of the first `count` bytes modulo 2 ^ 32, whatever wraps on the way.
pub checksum-sum :
    (count : ℕ) (xs : List ℕ) (s : ℕ)
    → s < 2 ^ 32
    → checksum count xs s ≡ (s + sum (take count xs)) % 2 ^ 32
unfolding checksum
checksum-sum zero xs s h = omega arith
checksum-sum (suc count) [] s h = omega arith
checksum-sum (suc count) (x ∷ xs) s h =
    omega (arith, checksum-sum count xs ((s + x) % 2 ^ 32) (omega arith))

-- A frame that send_frame has filled passes the receiver's header check exactly when its payload
-- length is within the configured size, and always passes the check of the payload.
pub fill_frame_accepted :
    (c : Config) (p : Packet)
    → ((check_frame_header c (fill_frame p) ≡ true) ↔ (p.data_length ≤ c.payload_size))
      × (check_frame_data (fill_frame p) ≡ true)
unfolding check_frame_header check_frame_data fill_frame
fill_frame_accepted c p = (ground arith, ground arith)

-- adb_check_frame_data accepts exactly the frames whose data_check is the sum of the first
-- data_length bytes of the payload modulo 2 ^ 32, whatever wraps while it is computed.
pub check_frame_data_iff :
    (p : Packet)
    → (check_frame_data p ≡ true) ↔ (p.data_check ≡ sum (take p.data_length p.payload) % 2 ^ 32)
unfolding check_frame_data
check_frame_data_iff p = ground (arith, checksum-sum p.data_length p.payload 0 (omega arith))

-- The header check used before the connection accepts what the one used after it accepts, where
-- the payload before the connection is not the smaller.
pub check_auth_frame_header_weaker :
    (c : Config) (p : Packet)
    → c.payload_size ≤ c.cnxn_payload_size
    → check_frame_header c p ≡ true
    → check_auth_frame_header c p ≡ true
unfolding check_frame_header check_auth_frame_header
check_auth_frame_header_weaker c p h e = ground arith
