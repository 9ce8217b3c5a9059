-- ===== src/Client/Receive/Keeps.antt =====
-- What libuv stores keeps the packet that is received well formed.
use micro_adb.Common.{
  ℕ, suc, ◌+◌, ◌-◌, ◌%◌, ◌^◌, ◌≤◌, ◌<◌, ◌≡◌, ◌⊎◌, refl, ap, ◌∙◌, List, [], ◌∷◌, ◌++◌, none, some,
  true, false, not, ltb, if_elim, length, write_at, length-write_at, length-drop, take, drop, arith,
  Bool-cases, inl, inr, word32,
}
use micro_adb.Packet.{Packet, sizeof_message}
use micro_adb.Frame.{check_frame_header, check_auth_frame_header, check_frame_data}
use micro_adb.Client.{Client, Env}
use micro_adb.Client.Transport.{client_close}
use micro_adb.Client.Frames.{payload_of}
use micro_adb.Client.Handlers.{adb_process_packet}
use micro_adb.Client.Connection.{adb_process_packet-cur_packet}
use micro_adb.Client.Receive.{
  offer, bytes, encode, store, bad_header, take_bytes, complete_packet, adb_uv_on_data_available,
}
use micro_adb.Client.Receive.Bounds.{Receiving}

pub store-payload :
    (at : ℕ) (bs : List ℕ) (p : Packet)
    → at + length bs ≤ sizeof_message + length p.payload
    → length (store at bs p).payload ≡ length p.payload
unfolding store
store-payload at bs p h = omega (
  arith,
  length-drop 24 (write_at at bs (encode p)),
  length-write_at at bs (encode p) (omega (arith, h)),
)

take-append {ℓ} :
    {A : Type ℓ} (h xs : List A) (k : ℕ) → take (length h + k) (h ++ xs) ≡ h ++ take k xs
take-append [] xs k = let z : 0 + k ≡ k = omega arith in rw z refl
take-append (x ∷ h) xs k =
    let z : suc (length h) + k ≡ suc (length h + k) = omega arith in
    rw z (ap (λ ys. x ∷ ys) (take-append h xs k))

-- Past the header nothing of the header is written.
pub store-data_length :
    (k : ℕ) (bs : List ℕ) (p : Packet) → (store (24 + k) bs p).data_length ≡ p.data_length % 2 ^ 32
unfolding store
store-data_length k bs p =
    let rest = bs ++ drop (24 + k + length bs) (encode p) in
    ap (λ t. word32 (drop 12 (t ++ rest)))
      (take-append (encode (record p { payload = [] })) p.payload k)
    ∙ omega arith

store-data_length_le :
    (at : ℕ) (bs : List ℕ) (p : Packet)
    → sizeof_message ≤ at
    → (store at bs p).data_length ≤ p.data_length
store-data_length_le at bs p h =
    let z : at ≡ 24 + (at - 24) = omega (arith, h) in
    omega (arith, ap (λ a. (store a bs p).data_length) z, store-data_length (at - 24) bs p)

module _ {W : Type 0} (e : Env W) where
  -- A header that is complete and that was not refused has a length that the payload holds.
  header_fits :
      (c : Client W) (q : Packet) (n : ℕ)
      → c.cur_len < sizeof_message
      → sizeof_message ≤ c.cur_len + n
      → bad_header e c q n ≡ false
      → q.data_length ≤ payload_of e (not c.is_connected)
  unfolding bad_header check_frame_header check_auth_frame_header
  header_fits c q n h k z = ground (arith, h, k, z)

  abbrev pub Closed : Client W → Type 0
  Closed r = (c : Client W) × (r ≡ client_close e c)

  unfinished-Receiving :
      (c : Client W) (p : Packet) (bs : List ℕ)
      → Receiving e c (some p)
      → length bs ≤ (offer e c p).len
      → let q = store c.cur_len bs p in
        let n = length bs in
        bad_header e c q n ≡ false
        → ltb (c.cur_len + n) (sizeof_message + q.data_length) ≡ true
        → Receiving e (record c { cur_len = c.cur_len + n; cur_packet = some q }) (some q)
  unfolding offer
  unfinished-Receiving c p bs r h good z = elim (Bool-cases (ltb c.cur_len sizeof_message)) [
    | inl y ↦
        let s = store-payload c.cur_len bs p (ground (arith, y, h)) in
        (
          s ∙ r.0,
          λ k. (
            omega (arith, header_fits c _ _ (ground (arith, y)) k good, s, r.0),
            ground (arith, z),
          ),
        )
    | inr y ↦
        let past : sizeof_message ≤ c.cur_len = ground (arith, y) in
        let fits = r.1 past in
        let s = store-payload c.cur_len bs p (ground (arith, y, h, fits)) in
        (
          s ∙ r.0,
          λ k.
              (omega (arith, store-data_length_le c.cur_len bs p past, fits, s), ground (arith, z)),
        )
  ]

  Receiving-none : (c : Client W) → c.cur_packet ≡ none → Receiving e c c.cur_packet
  Receiving-none c h = rw h tt

  complete_packet-Receiving :
      (c : Client W) (q : Packet)
      → let r = complete_packet e c q in Closed r ⊎ Receiving e r r.cur_packet
  unfolding complete_packet
  complete_packet-Receiving c q =
      let c' = record c { cur_packet = none } in
      if_elim (λ (r : Client W). Closed r ⊎ Receiving e r r.cur_packet) (check_frame_data q)
        (inr (Receiving-none (adb_process_packet e c' q) (adb_process_packet-cur_packet e c' q)))
        (inl (c, refl))

  take_bytes-Receiving :
      (c : Client W) (p : Packet) (bs : List ℕ)
      → Receiving e c (some p)
      → length bs ≤ (offer e c p).len
      → let r = take_bytes e c (store c.cur_len bs p) (length bs) in
        Closed r ⊎ Receiving e r r.cur_packet
  unfolding take_bytes
  take_bytes-Receiving c p bs r h =
      let q = store c.cur_len bs p in
      let n = length bs in
      elim (Bool-cases (bad_header e c q n)) [
        | inl bad ↦ rw bad (inl (_, refl))
        | inr good ↦ elim (Bool-cases (ltb (c.cur_len + n) (sizeof_message + q.data_length))) [
          | inl part ↦ rw good (rw part (inr (unfinished-Receiving c p bs r h good part)))
          | inr all ↦ rw good (rw all (complete_packet-Receiving _ q))
        ]
      ]

  -- After adb_uv_on_data_available has taken bytes that fit what was offered, either the transport has
  -- been told to close because of them, or reception is well formed again: there is no current
  -- packet, or it has its payload and, once its header is there, a length that the payload holds
  -- and that it has not reached.
  pub adb_uv_on_data_available-Receiving :
      (c : Client W) (p : Packet) (bs : List ℕ)
      → c.cur_packet ≡ some p
      → Receiving e c (some p)
      → length bs ≤ (offer e c p).len
      → let r = adb_uv_on_data_available e c (bytes bs) in Closed r ⊎ Receiving e r r.cur_packet
  unfolding adb_uv_on_data_available offer
  adb_uv_on_data_available-Receiving c p bs z r h =
      rw z (take_bytes-Receiving (record c { cur_packet = some p }) p bs r h)
