-- ===== src/Sync/Held.antt =====
-- file_sync_service.c: the descriptors, directories and blocks of memory that the service holds, by
-- its state.
pub mod Command
pub mod Send
pub mod Service
use micro_adb.Common.{
  ℕ, zero, suc, ◌+◌, ◌≤◌, ◌≡◌, refl, ◌∙◌, Option, none, some, Bool, true, false, List, [], ◌∷◌,
  on_option, if◌then◌else◌, if_elim, arith, drop, codes,
}
use micro_adb.Packet.{Config}
use micro_adb.Os.{Os, Read, got, read_failed, Write, wrote, interrupted, write_failed}
use micro_adb.Sync.{
  Ctx, Afs, Ret, done, more, stuck, State, wait_cmd, wait_cmd_data, process_recv, process_list,
  process_send_file_hdr, process_send_file_data, process_send_sym_hdr, process_send_sym_data,
}
use micro_adb.Sync.Reply.{
  append_reply, prepare_fail_message, prepare_fail_errno, prepare_okay_message, prepare_done_dent,
  read_from_packet, take_chunk, reset_size, finish_read, Taken, complete, again, invalid, on_taken,
}
use micro_adb.Sync.Transfer.{
  set_world, set_state, close_fd, release_state, state_reset, put_dent, stat_entry, list_entry,
  state_process_list, recv_reply, read_recv, state_process_recv, check_header, next_state,
  state_process_send_header, take_block, end_block, prev_state, WriteEnd, all_written, write_error,
  exhausted, on_end, write_all, write_block, state_process_send_file, make_symlink,
  state_process_send_sym,
}

-- What a call that may fail has added to a count.
abbrev pub gained : {A : Type 0} → Option A → ℕ → ℕ
gained none n = 0
gained (some a) n = n

-- A count of what is open, in which a descriptor, a directory and a block of memory each have a
-- weight: the calls that open and close change it, and no other.
pub record Tally {W : Type 0} (os : Os W) : Type 0 where
  pub count : W → ℕ
  pub of_fd : ℕ
  pub of_dir : ℕ
  pub of_block : ℕ
  pub open_read :
      (path : List ℕ) (w : W)
      → let r = os.open_read path w in count r.1 ≡ count w + gained r.0 of_fd
  pub open_write :
      (path : List ℕ) (mode : ℕ) (w : W)
      → let r = os.open_write path mode w in count r.1 ≡ count w + gained r.0 of_fd
  pub opendir :
      (path : List ℕ) (w : W) → let r = os.opendir path w in count r.1 ≡ count w + gained r.0 of_dir
  pub malloc : (n : ℕ) (w : W) → let r = os.malloc n w in count r.1 ≡ count w + gained r.0 of_block
  pub close : (fd : ℕ) (w : W) → of_fd ≤ count w → count (os.close fd w) + of_fd ≡ count w
  pub closedir : (dir : ℕ) (w : W) → of_dir ≤ count w → count (os.closedir dir w) + of_dir ≡ count w
  pub free :
      (mem : List ℕ) (w : W) → of_block ≤ count w → count (os.free mem w) + of_block ≡ count w
  pub stat : (path : List ℕ) (w : W) → count (os.stat path w).1 ≡ count w
  pub lstat : (path : List ℕ) (w : W) → count (os.lstat path w).1 ≡ count w
  pub readdir : (dir : ℕ) (w : W) → count (os.readdir dir w).1 ≡ count w
  pub read : (fd n : ℕ) (w : W) → count (os.read fd n w).1 ≡ count w
  pub write : (fd : ℕ) (bs : List ℕ) (w : W) → count (os.write fd bs w).1 ≡ count w
  pub unlink : (path : List ℕ) (w : W) → count (os.unlink path w) ≡ count w
  pub mkdir : (path : List ℕ) (mode : ℕ) (w : W) → count (os.mkdir path mode w).1 ≡ count w
  pub symlink : (target path : List ℕ) (w : W) → count (os.symlink target path w).1 ≡ count w

module _ {W : Type 0} {os : Os W} (t : Tally os) where
  -- What the service holds in a state, with its two descriptors.
  abbrev pub holds : State → Option ℕ → Option ℕ → ℕ
  holds process_list recv_fd send_fd = t.of_dir + t.of_block
  holds process_recv recv_fd send_fd = gained recv_fd t.of_fd
  holds process_send_file_hdr recv_fd send_fd = gained send_fd t.of_fd
  holds process_send_file_data recv_fd send_fd = gained send_fd t.of_fd
  holds process_send_sym_hdr recv_fd send_fd = t.of_block
  holds process_send_sym_data recv_fd send_fd = t.of_block
  holds wait_cmd recv_fd send_fd = 0
  holds wait_cmd_data recv_fd send_fd = 0

  -- Of what is open, the service holds what its state says, and others hold the rest.
  abbrev pub Balanced : ℕ → Ctx W → Type 0
  Balanced n s = t.count s.world ≡ n + holds s.state s.recv_fd s.send_file_fd

  pub record Held (n : ℕ) (r : Ret × Ctx W) : Type 0 where
    pub kept : Balanced n r.1

  pub Held-if :
      (n : ℕ) (b : Bool) {x y : Ret × Ctx W} → Held n x → Held n y → Held n (if b then x else y)
  Held-if n true h k = h
  Held-if n false h k = k

  pub Held-option :
      (n : ℕ) {A : Type 0} (o : Option A) {x : Ret × Ctx W} {f : A → Ret × Ctx W}
      → (o ≡ none → Held n x)
      → ((a : A) → o ≡ some a → Held n (f a))
      → Held n (on_option o x f)
  Held-option n none h k = h refl
  Held-option n (some a) h k = k a refl

  pub Held-taken :
      (n : ℕ) (a : Taken) {x y z : Ret × Ctx W}
      → Held n x
      → Held n y
      → Held n z
      → Held n (on_taken a x y z)
  Held-taken n complete h k l = h
  Held-taken n again h k l = k
  Held-taken n invalid h k l = l

  pub stay : (n : ℕ) (r : Ret) (s : Ctx W) → Balanced n s → Held n (r, s)
  stay n r s h = record { kept = h }

  pub reply-Held :
      (n : ℕ) (r : Ret) (bs : List ℕ) (s : Ctx W) → Balanced n s → Held n (r, append_reply bs s)
  unfolding append_reply
  reply-Held n r bs s h = record { kept = h }

  pub fail-Held :
      (n : ℕ) (r : Ret) (c : Config) (text : List ℕ) (s : Ctx W)
      → Balanced n s
      → Held n (r, prepare_fail_message c text s)
  unfolding prepare_fail_message
  fail-Held n r c text s h = reply-Held n r _ s h

  pub errno-Held :
      (n : ℕ) (r : Ret) (c : Config) (s : Ctx W)
      → Balanced n s
      → Held n (r, prepare_fail_errno c os s)
  unfolding prepare_fail_errno
  errno-Held n r c s h = fail-Held n r c _ s h

  pub okay-Held : (n : ℕ) (r : Ret) (s : Ctx W) → Balanced n s → Held n (r, prepare_okay_message s)
  unfolding prepare_okay_message
  okay-Held n r s h = reply-Held n r _ s h

  pub done_dent-Held :
      (n : ℕ) (r : Ret) (s : Ctx W) → Balanced n s → Held n (r, prepare_done_dent s)
  unfolding prepare_done_dent
  done_dent-Held n r s h = reply-Held n r _ s h

  close_fd-count :
      (n : ℕ) (fd : Option ℕ) (w : W)
      → t.count w ≡ n + gained fd t.of_fd
      → t.count (close_fd os fd w) ≡ n
  unfolding close_fd
  close_fd-count n none w h = omega (arith, h)
  close_fd-count n (some fd) w h = omega (arith, h, t.close fd w (omega (arith, h)))

  pub free-count :
      (n : ℕ) (mem : List ℕ) (w : W) → t.count w ≡ n + t.of_block → t.count (os.free mem w) ≡ n
  free-count n mem w h = omega (arith, h, t.free mem w (omega (arith, h)))

  pub release_state-count :
      (n : ℕ) (st : State) (v : Afs) (w : W)
      → t.count w ≡ n + holds st v.recv_fd v.send_file_fd
      → t.count (release_state os st v w) ≡ n
  unfolding release_state
  release_state-count n process_list v w h =
      let z = free-count (n + t.of_dir) v.list_path w (omega (arith, h)) in
      omega (arith, z, t.closedir v.list_d (os.free v.list_path w) (omega (arith, z)))
  release_state-count n process_recv v w h = close_fd-count n v.recv_fd w h
  release_state-count n process_send_sym_hdr v w h = free-count n v.send_link_path w h
  release_state-count n process_send_sym_data v w h = free-count n v.send_link_path w h
  release_state-count n process_send_file_hdr v w h = close_fd-count n v.send_file_fd w h
  release_state-count n process_send_file_data v w h = close_fd-count n v.send_file_fd w h
  release_state-count n wait_cmd v w h = omega (arith, h)
  release_state-count n wait_cmd_data v w h = omega (arith, h)

  pub reset-count : (n : ℕ) (s : Ctx W) → Balanced n s → t.count (state_reset os s).world ≡ n
  unfolding state_reset
  reset-count n s h = release_state-count n s.state s.svc s.world h

  pub reset-Held : (n : ℕ) (r : Ret) (s : Ctx W) → Balanced n s → Held n (r, state_reset os s)
  unfolding state_reset
  reset-Held n r s h = record {
    kept = omega (arith, release_state-count n s.state s.svc s.world h);
  }

module _ {W : Type 0} (c : Config) {os : Os W} (t : Tally os) where
  put_dent-Held :
      (n : ℕ) (stats name : List ℕ) (s : Ctx W)
      → Balanced t n s
      → Held t n (put_dent c stats name s)
  unfolding put_dent
  put_dent-Held n stats name s h = Held-if t n _ (stay t n stuck s h) (reply-Held t n more _ s h)

  list_entry-Held :
      (n : ℕ) (name : List ℕ) (s : Ctx W) → Balanced t n s → Held t n (list_entry c os name s)
  unfolding list_entry stat_entry
  list_entry-Held n name s h =
      Held-if t n _ (put_dent-Held n _ name s h) (put_dent-Held n _ name _ (t.lstat _ s.world ∙ h))

  pub state_process_list-Held :
      (n : ℕ) (s : Ctx W) → Balanced t n s → Held t n (state_process_list c os s)
  unfolding state_process_list set_world
  state_process_list-Held n s h =
      let o = (os.readdir s.list_d s.world).0 in
      let h' = t.readdir s.list_d s.world ∙ h in
      Held-option t n o (λ _. done_dent-Held t n done _ h') (λ name _. list_entry-Held n name _ h')

  recv_reply-Held : (n : ℕ) (a : Read) (s : Ctx W) → Balanced t n s → Held t n (recv_reply c a s)
  unfolding recv_reply
  recv_reply-Held n read_failed s h = fail-Held t n done c _ s h
  recv_reply-Held n (got []) s h = reply-Held t n done _ s h
  recv_reply-Held n (got (b ∷ bs)) s h = reply-Held t n more _ s h

  read_recv-count : (m : ℕ) (fd : Option ℕ) (w : W) → t.count (read_recv os m fd w).1 ≡ t.count w
  unfolding read_recv
  read_recv-count m none w = refl
  read_recv-count m (some fd) w = t.read fd m w

  pub state_process_recv-Held :
      (n : ℕ) (s : Ctx W) → Balanced t n s → Held t n (state_process_recv c os s)
  unfolding state_process_recv set_world
  state_process_recv-Held n s h = recv_reply-Held n _ _ (read_recv-count _ s.recv_fd s.world ∙ h)
