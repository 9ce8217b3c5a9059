-- ===== src/Sync/Through/Send.antt =====
-- The same of what a client sends: a file's blocks, and a link.
use micro_adb.Common.{
  ℕ, zero, suc, Option, none, some, List, [], ◌∷◌, ◌≡◌, if_elim, arith, drop, codes,
}
use micro_adb.Packet.{Config}
use micro_adb.Os.{Os, Write, wrote, interrupted, write_failed}
use micro_adb.Os.Closed.{OsClosed}
use micro_adb.Sync.{Ctx, Ret, done, more, stuck}
use micro_adb.Sync.Reply.{
  prepare_fail_message, read_from_packet, take_chunk, reset_size, finish_read, on_taken,
}
use micro_adb.Sync.Transfer.{
  set_world, set_state, check_header, state_process_send_header, take_block, end_block, WriteEnd,
  all_written, write_error, exhausted, on_end, write_all, write_block, state_process_send_file,
  make_symlink, state_process_send_sym,
}
use micro_adb.Sync.Through.{
  Through, Through-if, Through-taken, after, fail-Through, okay-Through, stay,
}

module _ {W : Type 0} (c : Config) (os : Os W) (Q : W → W → Type 0) (q : OsClosed os Q) where
  check_header-Through : (s : Ctx W) → Through Q s.world (check_header c s)
  unfolding check_header set_state
  check_header-Through s =
      Through-if Q _ (stay c os Q q more _)
        (Through-if Q _ (okay-Through c os Q q done s) (fail-Through c os Q q done _ s))

  make_symlink-Through : (s : Ctx W) → Through Q s.world (make_symlink c os s)
  unfolding make_symlink set_state set_world
  make_symlink-Through s = Through-if Q _ (fail-Through c os Q q done _ s) (
      after c os Q q (q.symlink _ _ s.world)
        (Through-if Q _ (stay c os Q q more _) (fail-Through c os Q q done _ _)))

  read-world : (size : ℕ) (s : Ctx W) → (read_from_packet c size s).1.world ≡ s.world
  unfolding read_from_packet take_chunk finish_read reset_size
  read-world size s = ground arith

  -- After the bytes of a header or a name have been read.
  pub taken-Through :
      (size : ℕ) (s : Ctx W) {x y z : Ret × Ctx W}
      → let s' = (read_from_packet c size s).1 in
        Through Q s'.world x
        → Through Q s'.world y
        → Through Q s'.world z
        → Through Q s.world (on_taken (read_from_packet c size s).0 x y z)
  taken-Through size s h k l =
      after c os Q q (rw (read-world size s) (q.same s.world)) (Through-taken Q _ h k l)

  pub send_header-Through : (s : Ctx W) → Through Q s.world (state_process_send_header c s)
  unfolding state_process_send_header
  send_header-Through s =
      taken-Through 8 s (check_header-Through _) (stay c os Q q more _)
        (fail-Through c os Q q done _ _)

  -- One answer of write(2), and the rest of the loop.
  write_answer-Q :
      (fd n b : ℕ) (bs : List ℕ) (u : W) (a : Write) (w : W)
      → Q u w
      → ((bs' : List ℕ) → Q w (write_all os fd n bs' w).1)
      → Q u
          (elim a as (λ x. WriteEnd × W) [
            | wrote zero ↦ (write_error, w)
            | wrote (suc k) ↦ write_all os fd n (drop k bs) w
            | interrupted ↦ write_all os fd n (b ∷ bs) w
            | write_failed ↦ (write_error, w)
          ]).1
  write_answer-Q fd n b bs u (wrote zero) w h k = h
  write_answer-Q fd n b bs u (wrote (suc j)) w h k = q.next h (k (drop j bs))
  write_answer-Q fd n b bs u interrupted w h k = q.next h (k (b ∷ bs))
  write_answer-Q fd n b bs u write_failed w h k = h

  write_all-Q : (fd n : ℕ) (bs : List ℕ) (w : W) → Q w (write_all os fd n bs w).1
  unfolding write_all
  write_all-Q fd n [] w = q.same w
  write_all-Q fd zero (b ∷ bs) w = q.same w
  write_all-Q fd (suc n) (b ∷ bs) w =
      write_answer-Q fd n b bs w (os.write fd (b ∷ bs) w).0 _ (q.write fd (b ∷ bs) w)
        (λ bs'. write_all-Q fd n bs' _)

  write_block-Q : (n : ℕ) (fd : Option ℕ) (bs : List ℕ) (w : W) → Q w (write_block c os n fd bs w).1
  unfolding write_block
  write_block-Q n none bs w = q.same w
  write_block-Q n (some fd) bs w = write_all-Q fd n bs w

  end-Through :
      (e : WriteEnd) (size : ℕ) (w : W) (s : Ctx W)
      → let s' = set_world w (take_block size s) in
        Through Q w (
          on_end {B = Ret × Ctx W} e
            (more, end_block s')
            (done, prepare_fail_message c (codes "write error") s')
            (stuck, s'))
  unfolding take_block end_block set_world set_state
  end-Through all_written size w s = record {
    went = if_elim (λ (t : Ctx W). Q w t.world) _ (q.same w) (q.same w);
  }
  end-Through write_error size w s = fail-Through c os Q q done _ _
  end-Through exhausted size w s = stay c os Q q stuck _

  pub send_file-Through :
      (retry : ℕ) (s : Ctx W) → Through Q s.world (state_process_send_file c os retry s)
  unfolding state_process_send_file
  send_file-Through retry s =
      after c os Q q (write_block-Q retry s.send_file_fd _ s.world) (end-Through _ _ _ s)

  pub send_sym-Through : (s : Ctx W) → Through Q s.world (state_process_send_sym c os s)
  unfolding state_process_send_sym
  send_sym-Through s =
      taken-Through s.namelen s (make_symlink-Through _) (stay c os Q q more _)
        (fail-Through c os Q q done _ _)
