-- ===== src/Sync/Push/Block.antt =====
-- state_process_send_file: a round of the loop in a block of a file.
use micro_adb.Common.{
  take-drop, ℕ, zero, suc, ◌+◌, ◌-◌, ◌≤◌, ◌≡◌, inl, refl, sym, ap, ◌∙◌, List, [], ◌∷◌, ◌++◌, some,
  Bool, true, false, ◌==◌, if◌then◌else◌, append-nil, append_assoc, min, arith, length, length-drop,
  take, drop,
}
use micro_adb.Packet.{Config}
use micro_adb.Os.{Os}
use micro_adb.Sync.{Ctx, more, process_send_file_data, State}
use micro_adb.Sync.Transfer.{
  all_written, write_all, write_block, state_process_send_file, take_block, end_block, set_state,
  set_world, prev_state,
}
use micro_adb.Sync.Invariant.{length-chunk}
use micro_adb.Sync.Push.{Push, left, after, content, after-left, content-left}
use micro_adb.Sync.Push.Rounds.{Stores, rest-split, Rep, in_header, in_block, Moves, Round}

module _ {W : Type 0} where
  module _ (os : Os W) (fd : ℕ) (contents : W → List ℕ) (t : Stores os fd contents) where
    write_all-first :
        (n b : ℕ) (bs : List ℕ) (w : W)
        → write_all os fd (suc n) (b ∷ bs) w
          ≡ write_all os fd n (drop (t.count b bs w) bs) (t.world b bs w)
    unfolding write_all
    write_all-first n b bs w =
        let z = t.write b bs w in
        rw (write_all, z) (ap (λ x. write_all os fd n (drop (t.count b bs w) bs) x.1) z)

    pub write_all-stores :
        (n : ℕ) (bs : List ℕ) (w : W)
        → length bs ≤ n
        → (v : W) × (write_all os fd n bs w ≡ (all_written, v)) × (contents v ≡ contents w ++ bs)
    unfolding write_all
    write_all-stores n [] w h = (w, refl, sym (append-nil (contents w)))
    write_all-stores zero (b ∷ bs) w h = absurd (omega arith)
    write_all-stores (suc n) (b ∷ bs) w h =
        let k = t.count b bs w in
        let (v, e, c) =
          write_all-stores n (drop k bs) (t.world b bs w) (omega (arith, length-drop k bs)) in
        (
          v,
          write_all-first n b bs w ∙ e,
          c
              ∙ ap (λ x. x ++ drop k bs) (t.appends b bs w)
              ∙ append_assoc (contents w) (b ∷ take k bs) (drop k bs)
              ∙ ap (λ x. contents w ++ b ∷ x) (take-drop k bs),
        )

    -- A round that has written a block, or what of one the packet holds, and leaves the service in a
    -- state.
    block-Moves :
        (s : Ctx W) (p : Push) (v : W) (st : State)
        → let k = min s.data_length s.namelen in
          let xs = take k (drop s.packet_ptr s.payload) in
          let u = set_state st (set_world v (take_block k s)) in
          p ≡ left s.namelen
          → s.packet_ptr + s.data_length ≤ length s.payload
          → contents v ≡ contents s.world ++ xs
          → Rep u (left (s.namelen - k))
          → Moves contents s p xs (more, u)
    unfolding take_block set_world set_state
    block-Moves s p v st z i d m =
        let k = min s.data_length s.namelen in
        let xs = take k (drop s.packet_ptr s.payload) in
        let l = length-chunk k s.packet_ptr s.payload (omega (arith, i)) in
        let h : length xs ≤ s.namelen = omega (arith, l) in
        let a =
          ap (λ q. after q xs) z ∙ after-left s.namelen xs h ∙ ap (λ j. left (s.namelen - j)) l in
        record {
          result = refl;
          rep = rw a m;
          file =
              d
              ∙ ap (λ x. contents s.world ++ x)
                  (sym (ap (λ q. content q xs) z ∙ content-left s.namelen xs h));
          taken = rest-split s k (omega arith) i;
          packet = refl;
          descriptor = refl;
        }

    block_end :
        (s : Ctx W) (p : Push) (v : W) (b : Bool)
        → let k = min s.data_length s.namelen in
          let xs = take k (drop s.packet_ptr s.payload) in
          let s' = set_world v (take_block k s) in
          p ≡ left s.namelen
          → s.state ≡ process_send_file_data
          → s.size ≡ 0
          → s.packet_ptr + s.data_length ≤ length s.payload
          → contents v ≡ contents s.world ++ xs
          → (s.namelen - k == 0) ≡ b
          → Moves contents s p xs (more, (if b then set_state (prev_state s.state) s' else s'))
    unfolding take_block set_world set_state prev_state left
    block_end s p v true z y o i d q =
        let n : s.namelen - min s.data_length s.namelen ≡ 0 = ground arith in
        block-Moves s p v (prev_state s.state) z i d
          (in_header [] (ap left n) (ap prev_state y) o refl)
    block_end s p v false z y o i d q = block-Moves s p v s.state z i d (in_block refl y o)

    -- A round in a block.
    pub block-Round :
        (c : Config) (retry : ℕ) (s : Ctx W) (p : Push)
        → p ≡ left s.namelen
        → s.state ≡ process_send_file_data
        → s.size ≡ 0
        → s.send_file_fd ≡ some fd
        → s.packet_ptr + s.data_length ≤ length s.payload
        → length s.payload ≤ retry
        → Round contents s p (state_process_send_file c os retry s)
    unfolding state_process_send_file write_block end_block set_world take_block
    block-Round c retry s p z y o f i h =
        let k = min s.data_length s.namelen in
        let xs = take k (drop s.packet_ptr s.payload) in
        let l = length-chunk k s.packet_ptr s.payload (omega (arith, i)) in
        let (v, e, d) = write_all-stores retry xs s.world (omega (arith, l, i, h)) in
        let w : write_block c os retry s.send_file_fd xs s.world ≡ (all_written, v) =
          ap (λ g. write_block c os retry g xs s.world) f ∙ e in
        (xs, inl (rw w (block_end s p v _ z y o i d refl)))
