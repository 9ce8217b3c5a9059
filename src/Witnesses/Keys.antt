-- ===== src/Witnesses/Keys.antt =====
-- The public key of adb_auth_key.c as adb's format of an RSA key of 2048 bits.
use micro_adb.Common.{ℕ, ◌+◌, ◌*◌, ◌%◌, ◌^◌, ◌≡◌, refl, List, [], ◌∷◌, length, drop, take, word32}
use micro_adb.AuthKey.{key0}

-- The number that bytes spell, the lowest first.
number : List ℕ → ℕ
number [] = 0
number (b ∷ bs) = b + 256 * number bs

abbrev modulus : ℕ
modulus = number (take 256 (drop 8 key0))

key0-length : length key0 ≡ 524
key0-length = refl

key0-n0inv : (word32 (drop 4 key0) * modulus + 1) % 2 ^ 32 ≡ 0
unfolding number
key0-n0inv = refl

key0-rr : number (take 256 (drop 264 key0)) ≡ 2 ^ 4096 % modulus
unfolding number
key0-rr = refl

key0-exponent : word32 (drop 520 key0) ≡ 65537
key0-exponent = refl
