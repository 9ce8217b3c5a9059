-- ===== src/Sync/Push/Header.antt =====
-- state_process_send_header: a round of the loop in a header of a message of SEND.
use micro_adb.Common.{
  take-prefix, ℕ, ◌+◌, ◌-◌, ◌≤◌, ◌<◌, ◌≡◌, ◌≢◌, inl, inr, refl, sym, ap, ◌∙◌, List, [], ◌∷◌, ◌++◌,
  Bool, true, false, ◌==◌, if◌then◌else◌, ltb, ◌||◌, codes, append-nil, append_assoc, min, arith,
  length, length-append, take, drop, write_at, word32,
}
use micro_adb.Packet.{Config}
use micro_adb.Sync.{Afs, Ctx, more, done, process_send_file_hdr, id_data}
use micro_adb.Sync.Reply.{
  Taken, complete, again, prepare_fail_message, read_from_packet, take_chunk, finish_read,
  reset_size, on_taken,
}
use micro_adb.Sync.Transfer.{state_process_send_header, check_header, set_state, next_state}
use micro_adb.Sync.Invariant.{length-chunk}
use micro_adb.Sync.Push.{
  Push, header, left, head_byte, after, content, after-header, head_byte-short, head_byte-block,
  head_byte-over,
}
use micro_adb.Sync.Push.Rounds.{rest-split, Rep, in_header, in_block, Moves, Round}

-- The first two words of a buffer that begins with a header.
word32-append : (g r : List ℕ) → 4 ≤ length g → word32 (g ++ r) ≡ word32 g
word32-append [] r h = absurd (omega arith)
word32-append (a ∷ []) r h = absurd (omega arith)
word32-append (a ∷ b ∷ []) r h = absurd (omega arith)
word32-append (a ∷ b ∷ d ∷ []) r h = absurd (omega arith)
word32-append (a ∷ b ∷ d ∷ e ∷ g) r h = refl

second-append : (g r : List ℕ) → 8 ≤ length g → word32 (drop 4 (g ++ r)) ≡ word32 (drop 4 g)
second-append [] r h = absurd (omega arith)
second-append (a ∷ []) r h = absurd (omega arith)
second-append (a ∷ b ∷ []) r h = absurd (omega arith)
second-append (a ∷ b ∷ d ∷ []) r h = absurd (omega arith)
second-append (a ∷ b ∷ d ∷ e ∷ g) r h = word32-append g r (omega (arith, h))

after-read :
    (h xs : List ℕ)
    → 0 < length xs
    → length h + length xs ≤ 8
    → (after (header h) xs ≡ head_byte (h ++ xs)) × (content (header h) xs ≡ [])
after-read h [] n k = absurd (omega arith)
after-read h (b ∷ bs) n k = after-header h b bs k

module _ {W : Type 0} where
  module _ (contents : W → List ℕ) (c : Config) where
    -- A round that has read a part of a header.
    header-Moves :
        (s : Ctx W) (p : Push) (h : List ℕ) (k : ℕ) (v : Afs)
        → let xs = take k (drop s.packet_ptr s.payload) in
          let u = record (take_chunk k s) { svc = v } in
          p ≡ header h
          → length xs ≡ k
          → 0 < k
          → length h + k ≤ 8
          → k ≤ s.data_length
          → s.packet_ptr + s.data_length ≤ length s.payload
          → v.packet_ptr ≡ s.packet_ptr + k
          → v.send_file_fd ≡ s.send_file_fd
          → Rep u (head_byte (h ++ xs))
          → Moves contents s p xs (more, u)
    unfolding take_chunk
    header-Moves s p h k v z l n a d i q f m =
        let xs = take k (drop s.packet_ptr s.payload) in
        let r = after-read h xs (omega (arith, l, n)) (omega (arith, l, a)) in
        record {
          result = refl;
          rep = (let e = ap (λ x. after x xs) z ∙ r.0 in rw e m);
          file = sym (
              ap (λ x. contents s.world ++ x) (ap (λ x. content x xs) z ∙ r.1)
              ∙ append-nil (contents s.world));
          taken =
              rest-split s k d i
              ∙ ap (λ j. xs ++ take (s.data_length - k) (drop j s.payload)) (sym q);
          packet = refl;
          descriptor = f;
        }

    -- What the buffer begins with after the read.
    buffer :
        (s : Ctx W) (h xs : List ℕ)
        → s.size ≡ length h
        → take (length h) s.buff ≡ h
        → write_at s.size xs s.buff ≡ (h ++ xs) ++ drop (length h + length xs) s.buff
    buffer s h xs z t =
        ap (λ n. write_at n xs s.buff) z
        ∙ ap (λ ys. ys ++ (xs ++ drop (length h + length xs) s.buff)) t
        ∙ sym (append_assoc h xs (drop (length h + length xs) s.buff))

    -- After the eighth byte of a header.
    full_header :
        (s : Ctx W) (p : Push) (h : List ℕ) (k : ℕ) (b : Bool)
        → let xs = take k (drop s.packet_ptr s.payload) in
          p ≡ header h
          → s.state ≡ process_send_file_hdr
          → s.size ≡ length h
          → take (length h) s.buff ≡ h
          → length xs ≡ k
          → 0 < k
          → length h + k ≡ 8
          → k ≤ s.data_length
          → s.packet_ptr + s.data_length ≤ length s.payload
          → (word32 (h ++ xs) == id_data) ≡ b
          → Round contents s p (check_header c (reset_size (take_chunk k s)))
    unfolding check_header reset_size take_chunk set_state next_state
    full_header s p h k true z y o t l n a d i q =
        let xs = take k (drop s.packet_ptr s.payload) in
        let r = drop (length h + length xs) s.buff in
        let g : length (h ++ xs) ≡ 8 = omega (arith, length-append h xs, l, a) in
        let e = buffer s h xs o t in
        let w : (word32 (write_at s.size xs s.buff) == id_data) ≡ true =
          ap (λ m. word32 m == id_data) e
          ∙ ap (λ m. m == id_data) (word32-append (h ++ xs) r (omega (arith, g)))
          ∙ q in
        let m = ap (λ m. word32 (drop 4 m)) e ∙ second-append (h ++ xs) r (omega (arith, g)) in
        (
          xs,
          inl (
              rw w (
                header-Moves s p h k _ z l n (omega (arith, a)) d i refl refl (
                  in_block (head_byte-block (h ++ xs) g q ∙ ap left (sym m)) (ap next_state y)
                    refl))),
        )
    full_header s p h k false z y o t l n a d i q =
        let xs = take k (drop s.packet_ptr s.payload) in
        let g : length (h ++ xs) ≡ 8 = omega (arith, length-append h xs, l, a) in
        (
          xs,
          inr (
            _,
            rest-split s k d i,
            ap (λ x. after x xs) z
                ∙ (after-read h xs (omega (arith, l, n)) (omega (arith, l, a))).0
                ∙ head_byte-over (h ++ xs) g q,
          ),
        )

    header_end :
        (s : Ctx W) (p : Push) (h : List ℕ) (b : Bool)
        → let k = min (8 - s.size) s.data_length in
          let r : Taken × Ctx W =
            if b then (complete, reset_size (take_chunk k s)) else (again, take_chunk k s) in
          p ≡ header h
          → s.state ≡ process_send_file_hdr
          → s.size ≡ length h
          → take (length h) s.buff ≡ h
          → length h < 8
          → 0 < s.data_length
          → s.packet_ptr + s.data_length ≤ length s.payload
          → (s.size + k == 8) ≡ b
          → Round contents s p (
              on_taken r.0
                (check_header c r.1)
                (more, r.1)
                (done, prepare_fail_message c (codes "read error") r.1))
    unfolding take_chunk
    header_end s p h true z y o t m n i q =
        let k = min (8 - s.size) s.data_length in
        let w : s.size + k ≡ 8 = ground arith in
        full_header s p h k _ z y o t (length-chunk k s.packet_ptr s.payload (omega (arith, i)))
          (omega (arith, m, o, n)) (omega (arith, w, o)) (omega arith) i refl
    header_end s p h false z y o t m n i q =
        let k = min (8 - s.size) s.data_length in
        let xs = take k (drop s.packet_ptr s.payload) in
        let l = length-chunk k s.packet_ptr s.payload (omega (arith, i)) in
        let w : s.size + k ≢ 8 = ground arith in
        let g = length-append h xs in
        let a = head_byte-short (h ++ xs) (ground (arith, g, l, w, o, m)) in
        (
          xs,
          inl (
              header-Moves s p h k (take_chunk k s).svc z l (omega (arith, m, o, n))
                (omega (arith, m, o)) (omega arith) i refl refl
                (in_header (h ++ xs) a y (omega (arith, g, l, o)) (
                  ap (λ x. take (length (h ++ xs)) x) (buffer s h xs o t)
                  ∙ take-prefix (h ++ xs) (drop (length h + length xs) s.buff)))),
        )

    -- A round in a header.
    pub header-Round :
        (s : Ctx W) (p : Push) (h : List ℕ)
        → p ≡ header h
        → s.state ≡ process_send_file_hdr
        → s.size ≡ length h
        → take (length h) s.buff ≡ h
        → length h < 8
        → 8 ≤ c.path_max
        → 0 < s.data_length
        → s.packet_ptr + s.data_length ≤ length s.payload
        → Round contents s p (state_process_send_header c s)
    unfolding state_process_send_header read_from_packet finish_read take_chunk
    header-Round s p h z y o t m x n i =
        let w : (ltb 8 s.size || ltb c.path_max 8) ≡ false = ground arith in
        rw w (header_end s p h _ z y o t m n i refl)
