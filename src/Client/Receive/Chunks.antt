-- ===== src/Client/Receive/Chunks.antt =====
-- How libuv splits the bytes of a frame does not matter.
use micro_adb.Common.{
  ℕ, ◌+◌, ◌-◌, ◌^◌, ◌≤◌, ◌<◌, ◌≡◌, refl, sym, ap, ◌∙◌, List, ◌++◌, some, Bool, true, false, ltb,
  if◌then◌else◌, length, write_at, length-append, length-write_at, arith, Bool-cases, inl, inr,
}
use micro_adb.Packet.{Packet, sizeof_message}
use micro_adb.Client.{Client, Env}
use micro_adb.Client.Receive.{
  offer, bytes, encode, decode, store, bad_header, take_bytes, complete_packet,
  adb_uv_on_data_available,
}
use micro_adb.Client.Receive.Bounds.{Receiving}
use micro_adb.Client.Receive.Keeps.{store-data_length}
use micro_adb.Client.Receive.Memory.{
  Bytes, Bytes-write_at, Bytes-encode, encode-decode, write_at-write_at,
}

store-store :
    (at : ℕ) (xs ys : List ℕ) (p : Packet)
    → Bytes xs
    → Bytes p.payload
    → at + length xs ≤ sizeof_message + length p.payload
    → store (at + length xs) ys (store at xs p) ≡ store at (xs ++ ys) p
unfolding store
store-store at xs ys p hx hp h =
    let m = write_at at xs (encode p) in
    let n : length m ≡ length (encode p) = length-write_at at xs (encode p) (omega (arith, h)) in
    let same =
      encode-decode p.write_len m (Bytes-write_at at xs (encode p) hx (Bytes-encode p hp))
        (omega (arith, n)) in
    ap (λ t. decode p.write_len (write_at (at + length xs) ys t)) same
    ∙ ap (decode p.write_len) (write_at-write_at at xs ys (encode p) (omega (arith, h)))

if_true {ℓ} : {A : Type ℓ} (b : Bool) (x y : A) → b ≡ true → (if b then x else y) ≡ x
if_true b x y h = rw h refl

module _ {W : Type 0} (e : Env W) where
  abbrev after : Client W → ℕ → Packet → Client W
  after c n q =
      let c' = record c { cur_len = n; cur_packet = some q } in
      if ltb n (sizeof_message + q.data_length) then c' else complete_packet e c' q

  take_bytes-after :
      (c : Client W) (q : Packet) (n : ℕ)
      → bad_header e c q n ≡ false
      → take_bytes e c q n ≡ after c (c.cur_len + n) q
  unfolding take_bytes
  take_bytes-after c q n h = rw h refl

  on_bytes :
      (c : Client W) (p : Packet) (bs : List ℕ)
      → c.cur_packet ≡ some p
      → adb_uv_on_data_available e c (bytes bs) ≡ take_bytes e c (store c.cur_len bs p) (length bs)
  unfolding adb_uv_on_data_available
  on_bytes c p bs z = rw z refl

  inside :
      (c : Client W) (p : Packet) (n m : ℕ)
      → Receiving e c (some p)
      → n + m ≤ (offer e c p).len
      → c.cur_len + n ≤ sizeof_message + length p.payload
  unfolding offer
  inside c p n m r h = ground (arith, h, r.1)

  -- A part of what was offered does not complete the header or the packet.
  part-good :
      (c : Client W) (p q : Packet) (n m : ℕ)
      → 0 < m
      → n + m ≤ (offer e c p).len
      → bad_header e c q n ≡ false
  unfolding offer bad_header
  part-good c p q n m k h = ground (arith, k, h)

  part-short :
      (c : Client W) (p : Packet) (xs : List ℕ) (m : ℕ)
      → 0 < m
      → length xs + m ≤ (offer e c p).len
      → p.data_length < 2 ^ 32
      → ltb (c.cur_len + length xs) (sizeof_message + (store c.cur_len xs p).data_length) ≡ true
  unfolding offer
  part-short c p xs m k h w =
      let z = store-data_length (c.cur_len - 24) xs p in
      elim (Bool-cases (ltb c.cur_len sizeof_message)) [
        | inl y ↦ ground (arith, y, h, k)
        | inr y ↦
            let past : c.cur_len ≡ 24 + (c.cur_len - 24) = ground (arith, y) in
            let same = ap (λ a. (store a xs p).data_length) past in
            ground (arith, y, h, k, z, same, w)
      ]

  rest-good :
      (c : Client W) (p p' q : Packet) (n m : ℕ)
      → 0 < m
      → n + m ≤ (offer e c p).len
      → bad_header e c q (n + m) ≡ false
      → bad_header e (record c { cur_len = c.cur_len + n; cur_packet = some p' }) q m ≡ false
  unfolding offer bad_header
  rest-good c p p' q n m k h z = ground (arith, k, h, z)

  -- What libuv stores in two reads leaves the client as it does in one, where it fits what was
  -- offered and the second read is not empty, the payload and the first read hold bytes below 256,
  -- reception was well formed, the length of the frame fits its 32 bits, and the header that the two
  -- complete, if they do, is not refused.
  pub adb_uv_on_data_available-append :
      (c : Client W) (p : Packet) (xs ys : List ℕ)
      → c.cur_packet ≡ some p
      → Receiving e c (some p)
      → Bytes xs
      → Bytes p.payload
      → p.data_length < 2 ^ 32
      → 0 < length ys
      → length xs + length ys ≤ (offer e c p).len
      → bad_header e c (store c.cur_len (xs ++ ys) p) (length xs + length ys) ≡ false
      → adb_uv_on_data_available e (adb_uv_on_data_available e c (bytes xs)) (bytes ys)
        ≡ adb_uv_on_data_available e c (bytes (xs ++ ys))
  adb_uv_on_data_available-append c p xs ys z r hx hp w k h good =
      let n = length xs in
      let q₁ = store c.cur_len xs p in
      let q = store c.cur_len (xs ++ ys) p in
      let c₁ = record c { cur_len = c.cur_len + n; cur_packet = some q₁ } in
      let whole = length-append xs ys in
      let first : adb_uv_on_data_available e c (bytes xs) ≡ c₁ =
        on_bytes c p xs z
        ∙ take_bytes-after c q₁ n (part-good c p q₁ n (length ys) k h)
        ∙ if_true _ _ _ (part-short c p xs (length ys) k h w) in
      let joined = store-store c.cur_len xs ys p hx hp (inside c p n (length ys) r h) in
      ap (λ t. adb_uv_on_data_available e t (bytes ys)) first
      ∙ on_bytes c₁ q₁ ys refl
      ∙ ap (λ t. take_bytes e c₁ t (length ys)) joined
      ∙ take_bytes-after c₁ q (length ys) (rest-good c p q₁ q n (length ys) k h good)
      ∙ ap (λ t. after c t q) (omega (arith, whole))
      ∙ sym (take_bytes-after c q (length (xs ++ ys)) (ap (bad_header e c q) whole ∙ good))
      ∙ sym (on_bytes c p (xs ++ ys) z)
