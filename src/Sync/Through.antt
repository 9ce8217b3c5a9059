-- ===== src/Sync/Through.antt =====
-- What every call of the kernel keeps to, the file service keeps to.
pub mod Command
pub mod Send
pub mod Service
use micro_adb.Common.{
  ℕ, zero, suc, Bool, true, false, Option, none, some, List, [], ◌∷◌, ◌++◌, ◌≡◌, refl, ◌==◌, leb,
  if◌then◌else◌, if_elim, arith, on_option, on_option_elim, drop, codes, c_string, Option-cases,
  inl, inr,
}
use micro_adb.Packet.{Config}
use micro_adb.Os.{
  Os, Stat, Read, got, read_failed, Write, wrote, interrupted, write_failed, Mkdir, made, exists,
  mkdir_failed,
}
use micro_adb.Os.Closed.{OsClosed}
use micro_adb.Sync.{
  Ctx, Afs, Ret, failed, done, more, stuck, State, wait_cmd, wait_cmd_data, process_recv,
  process_list, process_send_file_hdr, process_send_file_data, process_send_sym_hdr,
  process_send_sym_data,
}
use micro_adb.Sync.Reply.{
  append_reply, prepare_fail_message, prepare_fail_errno, prepare_okay_message, prepare_done_dent,
  read_from_packet, take_chunk, reset_size, finish_read, Taken, complete, again, invalid, on_taken,
}
use micro_adb.Sync.Transfer.{
  set_world, set_state, close_fd, release_state, put_dent, stat_entry, list_entry,
  state_process_list, recv_reply, read_recv, state_process_recv, check_header,
  state_process_send_header, take_block, end_block, WriteEnd, all_written, write_error, exhausted,
  on_end, write_all, write_block, state_process_send_file, make_symlink, state_process_send_sym,
  state_reset,
}
use micro_adb.Sync.Command.{
  make_dir, make_dirs, create_path_directories, stat_result, set_buff, state_init_stat, open_list,
  state_init_list, state_init_send_file, state_init_send_link, start_send, state_init_send,
  state_init_recv, run_cmd, accept_cmd, state_wait_cmd, accept_name, state_wait_cmd_data,
}
use micro_adb.Sync.Service.{
  process_state, write_round, write_loop, close_ret, end_write, reset_unless_more, ack_state,
  end_ack, file_sync_on_write, file_sync_on_ack, rewind,
}

module _ {W : Type 0} (Q : W → W → Type 0) where
  -- From a world to that of a result.
  pub record Through (w : W) (r : Ret × Ctx W) : Type 0 where
    pub went : Q w r.1.world

  pub Through-if :
      (b : Bool) {w : W} {x y : Ret × Ctx W}
      → Through w x
      → Through w y
      → Through w (if b then x else y)
  Through-if true h k = h
  Through-if false h k = k

  pub Through-option :
      {A : Type 0} {w : W} (o : Option A) {x : Ret × Ctx W} {f : A → Ret × Ctx W}
      → Through w x
      → ((a : A) → Through w (f a))
      → Through w (on_option o x f)
  Through-option none h k = h
  Through-option (some a) h k = k a

  pub Through-taken :
      {w : W} (t : Taken) {x y z : Ret × Ctx W}
      → Through w x
      → Through w y
      → Through w z
      → Through w (on_taken t x y z)
  Through-taken complete h k l = h
  Through-taken again h k l = k
  Through-taken invalid h k l = l

module _ {W : Type 0} (c : Config) (os : Os W) (Q : W → W → Type 0) (q : OsClosed os Q) where
  pub after : {u v : W} {r : Ret × Ctx W} → Q u v → Through Q v r → Through Q u r
  after h k = record { went = q.next h k.went }

  -- A result in the world that the context has.
  pub stay : (r : Ret) (s : Ctx W) → Through Q s.world (r, s)
  stay r s = record { went = q.same s.world }

  pub fail-Through :
      (r : Ret) (text : List ℕ) (s : Ctx W) → Through Q s.world (r, prepare_fail_message c text s)
  unfolding prepare_fail_message append_reply
  fail-Through r text s = record { went = q.same s.world }

  pub errno-Through : (r : Ret) (s : Ctx W) → Through Q s.world (r, prepare_fail_errno c os s)
  unfolding prepare_fail_errno
  errno-Through r s = fail-Through r _ s

  pub okay-Through : (r : Ret) (s : Ctx W) → Through Q s.world (r, prepare_okay_message s)
  unfolding prepare_okay_message append_reply
  okay-Through r s = record { went = q.same s.world }

  pub done_dent-Through : (r : Ret) (s : Ctx W) → Through Q s.world (r, prepare_done_dent s)
  unfolding prepare_done_dent append_reply
  done_dent-Through r s = record { went = q.same s.world }

  pub reply-Through : (r : Ret) (bs : List ℕ) (s : Ctx W) → Through Q s.world (r, append_reply bs s)
  unfolding append_reply
  reply-Through r bs s = record { went = q.same s.world }

  close_fd-Q : (fd : Option ℕ) (w : W) → Q w (close_fd os fd w)
  unfolding close_fd
  close_fd-Q none w = q.same w
  close_fd-Q (some fd) w = q.close fd w

  pub release_state-Q : (st : State) (v : Afs) (w : W) → Q w (release_state os st v w)
  unfolding release_state
  release_state-Q process_list v w = q.next (q.free v.list_path w) (q.closedir v.list_d _)
  release_state-Q process_recv v w = close_fd-Q v.recv_fd w
  release_state-Q process_send_sym_hdr v w = q.free v.send_link_path w
  release_state-Q process_send_sym_data v w = q.free v.send_link_path w
  release_state-Q process_send_file_hdr v w = close_fd-Q v.send_file_fd w
  release_state-Q process_send_file_data v w = close_fd-Q v.send_file_fd w
  release_state-Q wait_cmd v w = q.same w
  release_state-Q wait_cmd_data v w = q.same w

  pub reset-Through : (r : Ret) (s : Ctx W) → Through Q s.world (r, state_reset os s)
  unfolding state_reset
  reset-Through r s = record { went = release_state-Q s.state s.svc s.world }
