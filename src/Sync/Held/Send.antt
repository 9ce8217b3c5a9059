-- ===== src/Sync/Held/Send.antt =====
-- The same of what a client sends: a file's blocks, and a link.
use micro_adb.Common.{
  ℕ, zero, suc, ◌≡◌, refl, ◌∙◌, Option, none, some, List, [], ◌∷◌, if_elim, arith, drop, codes,
}
use micro_adb.Packet.{Config}
use micro_adb.Os.{Os, Write, wrote, interrupted, write_failed}
use micro_adb.Sync.{
  Ctx, Ret, done, more, stuck, State, wait_cmd, wait_cmd_data, process_recv, process_list,
  process_send_file_hdr, process_send_file_data, process_send_sym_hdr, process_send_sym_data,
}
use micro_adb.Sync.Reply.{
  prepare_fail_message, read_from_packet, take_chunk, reset_size, finish_read,
}
use micro_adb.Sync.Transfer.{
  set_world, set_state, next_state, prev_state, check_header, state_process_send_header, take_block,
  end_block, WriteEnd, all_written, write_error, exhausted, on_end, write_all, write_block,
  state_process_send_file, make_symlink, state_process_send_sym,
}
use micro_adb.Sync.Held.{
  Tally, holds, Balanced, Held, Held-if, Held-taken, stay, fail-Held, okay-Held,
}

module _ {W : Type 0} (c : Config) {os : Os W} (t : Tally os) where
  -- A header and its block hold the same.
  next_state-holds : (st : State) (r f : Option ℕ) → holds t (next_state st) r f ≡ holds t st r f
  unfolding next_state
  next_state-holds wait_cmd r f = refl
  next_state-holds wait_cmd_data r f = refl
  next_state-holds process_recv r f = refl
  next_state-holds process_list r f = refl
  next_state-holds process_send_file_hdr r f = refl
  next_state-holds process_send_file_data r f = refl
  next_state-holds process_send_sym_hdr r f = refl
  next_state-holds process_send_sym_data r f = refl

  prev_state-holds : (st : State) (r f : Option ℕ) → holds t (prev_state st) r f ≡ holds t st r f
  unfolding prev_state
  prev_state-holds wait_cmd r f = refl
  prev_state-holds wait_cmd_data r f = refl
  prev_state-holds process_recv r f = refl
  prev_state-holds process_list r f = refl
  prev_state-holds process_send_file_hdr r f = refl
  prev_state-holds process_send_file_data r f = refl
  prev_state-holds process_send_sym_hdr r f = refl
  prev_state-holds process_send_sym_data r f = refl

  check_header-Held : (n : ℕ) (s : Ctx W) → Balanced t n s → Held t n (check_header c s)
  unfolding check_header set_state
  check_header-Held n s h =
      Held-if t n _
        (stay t n more _ (omega (arith, h, next_state-holds s.state s.recv_fd s.send_file_fd)))
        (Held-if t n _ (okay-Held t n done s h) (fail-Held t n done c _ s h))

  make_symlink-Held : (n : ℕ) (s : Ctx W) → Balanced t n s → Held t n (make_symlink c os s)
  unfolding make_symlink set_state set_world
  make_symlink-Held n s h =
      let k = t.symlink _ _ s.world ∙ h in
      Held-if t n _ (fail-Held t n done c _ s h) (
        Held-if t n _
          (stay t n more _ (omega (arith, k, prev_state-holds s.state s.recv_fd s.send_file_fd)))
          (fail-Held t n done c _ _ k))

  pub read-Balanced :
      (n size : ℕ) (s : Ctx W) → Balanced t n s → Balanced t n (read_from_packet c size s).1
  unfolding read_from_packet take_chunk finish_read reset_size
  read-Balanced n size s h = ground (arith, h)

  pub read-state : (size : ℕ) (s : Ctx W) → (read_from_packet c size s).1.state ≡ s.state
  unfolding read_from_packet take_chunk finish_read reset_size
  read-state size s = ground arith

  pub send_header-Held :
      (n : ℕ) (s : Ctx W) → Balanced t n s → Held t n (state_process_send_header c s)
  unfolding state_process_send_header
  send_header-Held n s h =
      let k = read-Balanced n 8 s h in
      Held-taken t n _ (check_header-Held n _ k) (stay t n more _ k) (fail-Held t n done c _ _ k)

  pub send_sym-Held :
      (n : ℕ) (s : Ctx W) → Balanced t n s → Held t n (state_process_send_sym c os s)
  unfolding state_process_send_sym
  send_sym-Held n s h =
      let k = read-Balanced n s.namelen s h in
      Held-taken t n _ (make_symlink-Held n _ k) (stay t n more _ k) (fail-Held t n done c _ _ k)

  -- One answer of write(2), and the rest of the loop.
  answer-count :
      (fd n b : ℕ) (bs : List ℕ) (k : ℕ) (a : Write) (w : W)
      → t.count w ≡ k
      → ((bs' : List ℕ) → t.count (write_all os fd n bs' w).1 ≡ t.count w)
      → t.count
          (elim a as (λ x. WriteEnd × W) [
            | wrote zero ↦ (write_error, w)
            | wrote (suc k) ↦ write_all os fd n (drop k bs) w
            | interrupted ↦ write_all os fd n (b ∷ bs) w
            | write_failed ↦ (write_error, w)
          ]).1
        ≡ k
  answer-count fd n b bs k (wrote zero) w h g = h
  answer-count fd n b bs k (wrote (suc j)) w h g = g (drop j bs) ∙ h
  answer-count fd n b bs k interrupted w h g = g (b ∷ bs) ∙ h
  answer-count fd n b bs k write_failed w h g = h

  write_all-count :
      (fd n : ℕ) (bs : List ℕ) (w : W) → t.count (write_all os fd n bs w).1 ≡ t.count w
  unfolding write_all
  write_all-count fd n [] w = refl
  write_all-count fd zero (b ∷ bs) w = refl
  write_all-count fd (suc n) (b ∷ bs) w =
      answer-count fd n b bs (t.count w) (os.write fd (b ∷ bs) w).0 _ (t.write fd (b ∷ bs) w)
        (λ bs'. write_all-count fd n bs' _)

  write_block-count :
      (n : ℕ) (fd : Option ℕ) (bs : List ℕ) (w : W)
      → t.count (write_block c os n fd bs w).1 ≡ t.count w
  unfolding write_block
  write_block-count n none bs w = refl
  write_block-count n (some fd) bs w = write_all-count fd n bs w

  end_block-Balanced : (n : ℕ) (s : Ctx W) → Balanced t n s → Balanced t n (end_block s)
  unfolding end_block set_state
  end_block-Balanced n s h =
      if_elim (Balanced t n) _ {x = record s { svc = record s.svc { state = prev_state s.state } }}
        (omega (arith, h, prev_state-holds s.state s.recv_fd s.send_file_fd)) h

  end-Held :
      (n : ℕ) (a : WriteEnd) (s : Ctx W)
      → Balanced t n s
      → Held t n (
          on_end {B = Ret × Ctx W} a
            (more, end_block s)
            (done, prepare_fail_message c (codes "write error") s)
            (stuck, s))
  end-Held n all_written s h = stay t n more _ (end_block-Balanced n s h)
  end-Held n write_error s h = fail-Held t n done c _ s h
  end-Held n exhausted s h = stay t n stuck s h

  pub send_file-Held :
      (retry n : ℕ) (s : Ctx W) → Balanced t n s → Held t n (state_process_send_file c os retry s)
  unfolding state_process_send_file set_world take_block
  send_file-Held retry n s h = end-Held n _ _ (write_block-count retry s.send_file_fd _ s.world ∙ h)
