-- ===== src/Sync/Files.antt =====
-- What SEND writes to a file, over short and interrupted writes.
use micro_adb.Common.{
  take-drop, take-take-drop, ℕ, zero, suc, ◌+◌, ◌≤◌, ◌<◌, ◌≡◌, ◌⊎◌, inl, inr, refl, sym, ap, ◌∙◌,
  List, [], ◌∷◌, ◌++◌, Option, some, if_elim, append-nil, append_assoc, min, arith, length,
  length-drop, take, drop, codes,
}
use micro_adb.Packet.{Config}
use micro_adb.Os.{Os, Write, wrote, interrupted, write_failed}
use micro_adb.Sync.{Ctx, Ret, more, done, stuck}
use micro_adb.Sync.Transfer.{
  WriteEnd, all_written, write_error, exhausted, on_end, write_all, write_block,
  state_process_send_file, set_world, take_block, end_block, set_state,
}
use micro_adb.Sync.Reply.{prepare_fail_message, append_reply}

module _ {W : Type 0} where
  -- write(2) on a descriptor: it appends what it takes to the file, takes no more than it is given,
  -- leaves the file alone when it fails, and is interrupted `pending` times at most.
  abbrev pub Answer : (W → List ℕ) → (W → ℕ) → List ℕ → W → Write → W → Type 0
  Answer contents pending bs w (wrote n) w' =
      (n ≤ length bs) × (contents w' ≡ contents w ++ take n bs) × (pending w' ≤ pending w)
  Answer contents pending bs w interrupted w' =
      (contents w' ≡ contents w) × (pending w' < pending w)
  Answer contents pending bs w write_failed w' = contents w' ≡ contents w

  abbrev pub Appends : Os W → ℕ → (W → List ℕ) → (W → ℕ) → Type 0
  Appends os fd contents pending =
      (bs : List ℕ) (w : W) → let r = os.write fd bs w in Answer contents pending bs w r.0 r.1

  -- All of the bytes have been written, or some of them before an error.
  abbrev pub Written : (W → List ℕ) → List ℕ → W → WriteEnd × W → Type 0
  Written contents bs w r =
      ((r.0 ≡ all_written) × (contents r.1 ≡ contents w ++ bs))
      ⊎ (r.0 ≡ write_error) × (m : ℕ) × (m < length bs) × (contents r.1 ≡ contents w ++ take m bs)

module _ {W : Type 0} (os : Os W) (fd : ℕ) (contents : W → List ℕ) (pending : W → ℕ) where
  Written-after :
      (n : ℕ) (bs : List ℕ) (w w' : W) (r : WriteEnd × W)
      → n ≤ length bs
      → contents w' ≡ contents w ++ take n bs
      → Written contents (drop n bs) w' r
      → Written contents bs w r
  Written-after n bs w w' r h k (inl (a, x)) = inl (
    a,
    x
        ∙ ap (λ t. t ++ drop n bs) k
        ∙ append_assoc (contents w) (take n bs) (drop n bs)
        ∙ ap (λ t. contents w ++ t) (take-drop n bs),
  )
  Written-after n bs w w' r h k (inr (a, m, l, x)) = inr (
    a,
    n + m,
    omega (arith, l, h, length-drop n bs),
    x
        ∙ ap (λ t. t ++ take m (drop n bs)) k
        ∙ append_assoc (contents w) (take n bs) (take m (drop n bs))
        ∙ ap (λ t. contents w ++ t) (take-take-drop n m bs h),
  )

  Written-none :
      (bs : List ℕ) (b : ℕ) (w w' : W)
      → contents w' ≡ contents w
      → Written contents (b ∷ bs) w (write_error, w')
  Written-none bs b w w' k = inr (refl, 0, omega arith, k ∙ sym (append-nil (contents w)))

  -- One answer of write(2), and the rest of the loop.
  Answer-Written :
      (n b : ℕ) (bs : List ℕ) (w : W) (a : Write) (w' : W)
      → Answer contents pending (b ∷ bs) w a w'
      → ((bs' : List ℕ) (v : W)
          → length bs' + pending v ≤ n
          → Written contents bs' v (write_all os fd n bs' v))
      → length (b ∷ bs) + pending w ≤ suc n
      → Written contents (b ∷ bs) w (elim a [
        | wrote zero ↦ (write_error, w')
        | wrote (suc k) ↦ write_all os fd n (drop k bs) w'
        | interrupted ↦ write_all os fd n (b ∷ bs) w'
        | write_failed ↦ (write_error, w')
      ])
  Answer-Written n b bs w (wrote zero) w' (l, k, p) ih h =
      Written-none bs b w w' (k ∙ append-nil (contents w))
  Answer-Written n b bs w (wrote (suc j)) w' (l, k, p) ih h =
      Written-after (suc j) (b ∷ bs) w w' _ l k
        (ih (drop j bs) w' (omega (arith, l, p, h, length-drop j bs)))
  Answer-Written n b bs w interrupted w' (k, p) ih h =
      Written-after 0 (b ∷ bs) w w' _ (omega arith) (k ∙ sym (append-nil (contents w)))
        (ih (b ∷ bs) w' (omega (arith, p, h)))
  Answer-Written n b bs w write_failed w' k ih h = Written-none bs b w w' k

  write_all-Written :
      (n : ℕ) (bs : List ℕ) (w : W)
      → Appends os fd contents pending
      → length bs + pending w ≤ n
      → Written contents bs w (write_all os fd n bs w)
  unfolding write_all
  write_all-Written n [] w f h = inl (refl, sym (append-nil (contents w)))
  write_all-Written zero (b ∷ bs) w f h = absurd (omega arith)
  write_all-Written (suc n) (b ∷ bs) w f h =
      Answer-Written n b bs w (os.write fd (b ∷ bs) w).0 (os.write fd (b ∷ bs) w).1 (f (b ∷ bs) w)
        (λ bs' v k. write_all-Written n bs' v f k) h

  -- The block of a file that a packet holds at the point that has been reached.
  abbrev pub block_of : Ctx W → List ℕ
  block_of s = take (min s.data_length s.namelen) (drop s.packet_ptr s.payload)

  end-Written :
      (c : Config) (size : ℕ) (bs : List ℕ) (s : Ctx W) (e : WriteEnd) (w : W)
      → Written contents bs s.world (e, w)
      → let s' = set_world w (take_block size s) in
        let r =
          on_end {B = Ret × Ctx W} e
            (more, end_block s')
            (done, prepare_fail_message c (codes "write error") s')
            (stuck, s') in
        ((r.0 ≡ more) × (contents r.1.world ≡ contents s.world ++ bs))
        ⊎ (r.0 ≡ done)
          × (m : ℕ) × (m < length bs)
          × (contents r.1.world ≡ contents s.world ++ take m bs)
  unfolding take_block end_block set_world set_state prepare_fail_message append_reply
  end-Written c size bs s all_written w (inl (h, k)) =
      inl (refl, if_elim (λ (t : Ctx W). contents t.world ≡ contents s.world ++ bs) _ k k)
  end-Written c size bs s all_written w (inr (h, m, l, k)) = absurd cc
  end-Written c size bs s write_error w (inl (h, k)) = absurd cc
  end-Written c size bs s write_error w (inr (h, m, l, k)) = inr (refl, m, l, k)
  end-Written c size bs s exhausted w (inl (h, k)) = absurd cc
  end-Written c size bs s exhausted w (inr (h, m, l, k)) = absurd cc

  write_block-Written :
      (c : Config) (n : ℕ) (o : Option ℕ) (bs : List ℕ) (w : W)
      → Appends os fd contents pending
      → o ≡ some fd
      → length bs + pending w ≤ n
      → Written contents bs w (write_block c os n o bs w)
  unfolding write_block
  write_block-Written c n o bs w f z h = rw z (write_all-Written n bs w f h)

  -- On a file that takes what write(2) says it took, and with as many calls allowed as the packet's
  -- block has bytes and write(2) can still be interrupted, state_process_send_file either goes on
  -- and has appended the whole block to the file, or ends the transfer and has appended a proper
  -- part of it from its start.
  pub state_process_send_file_writes :
      (c : Config) (retry : ℕ) (s : Ctx W)
      → Appends os fd contents pending
      → s.send_file_fd ≡ some fd
      → length (block_of s) + pending s.world ≤ retry
      → let r = state_process_send_file c os retry s in
        ((r.0 ≡ more) × (contents r.1.world ≡ contents s.world ++ block_of s))
        ⊎ (r.0 ≡ done)
          × (m : ℕ) × (m < length (block_of s))
          × (contents r.1.world ≡ contents s.world ++ take m (block_of s))
  unfolding state_process_send_file
  state_process_send_file_writes c retry s f z h =
      end-Written c _ (block_of s) s _ _
        (write_block-Written c retry s.send_file_fd (block_of s) s.world f z h)
