-- ===== src/Sync/Answers.antt =====
-- The handlers of the commands, and of the data that follows them, stay inside the packet's buffer.
use micro_adb.Common.{
  ℕ, ◌+◌, ◌≤◌, Bool, false, Option, none, some, List, [], ◌∷◌, arith, sub64, c_string,
}
use micro_adb.Packet.{Config}
use micro_adb.Os.{Os, Read, got, read_failed}
use micro_adb.Sync.{Ctx}
use micro_adb.Sync.Transfer.{
  set_world, set_state, stat_entry, list_entry, state_process_list, recv_reply, read_recv,
  state_process_recv, check_header, make_symlink,
}
use micro_adb.Sync.Command.{
  state_init_stat, open_list, state_init_list, state_init_send_file, state_init_send_link,
  start_send, state_init_send, state_init_recv, run_cmd, set_buff, accept_cmd, accept_name,
}
use micro_adb.Sync.Room.{
  read_count, ReadsAtMost, length-stat_bytes, Room, append_reply-Fits, fail-Fits, errno-Fits,
  okay-Fits, done_dent-Fits, Clean, Clean-if, Clean-option, Clean-done, Clean-more, Clean-failed,
  stat_result-Clean, put_dent-Clean,
}

module _ {W : Type 0} (c : Config) (os : Os W) (reads : ReadsAtMost os) where
  pub list_entry-Clean : (name : List ℕ) (s : Ctx W) → Room c s → Clean c (list_entry c os name s)
  unfolding list_entry stat_entry
  list_entry-Clean name s r =
      Clean-if c _ (put_dent-Clean c _ name s (length-stat_bytes none) r)
        (put_dent-Clean c _ name _ (length-stat_bytes _) (ground arith))

  pub state_process_list-Clean : (s : Ctx W) → Room c s → Clean c (state_process_list c os s)
  unfolding state_process_list set_world
  state_process_list-Clean s r =
      Clean-option c _ (Clean-done c (done_dent-Fits c _ (ground arith)))
        (λ name. list_entry-Clean name _ (ground arith))

  pub recv_reply-Clean :
      (a : Read) (s : Ctx W)
      → Room c s
      → read_count a ≤ sub64 c.payload_size (8 + s.write_len)
      → Clean c (recv_reply c a s)
  unfolding recv_reply
  recv_reply-Clean read_failed s r h = Clean-done c (fail-Fits c _ s r)
  recv_reply-Clean (got []) s r h = Clean-done c (append_reply-Fits c _ s r.sized (ground arith))
  recv_reply-Clean (got (b ∷ bs)) s r h =
      Clean-more c (append_reply-Fits c _ s r.sized (ground arith))

  pub read_recv_count : (n : ℕ) (fd : Option ℕ) (w : W) → read_count (read_recv os n fd w).0 ≤ n
  unfolding read_recv
  read_recv_count n none w = omega arith
  read_recv_count n (some fd) w = reads fd n w

  pub state_process_recv-Clean : (s : Ctx W) → Room c s → Clean c (state_process_recv c os s)
  unfolding state_process_recv set_world
  state_process_recv-Clean s r = recv_reply-Clean _ _ (ground arith) (read_recv_count _ _ _)

  pub state_init_stat-Clean : (s : Ctx W) → Room c s → Clean c (state_init_stat c os s)
  unfolding state_init_stat set_world
  state_init_stat-Clean s r =
      let found = (os.stat (c_string s.buff) s.world).0 in
      stat_result-Clean c found _
        (append_reply-Fits c _ _ r.sized (ground (arith, length-stat_bytes found)))

  pub open_list-Clean :
      (name mem : List ℕ) (s : Ctx W) → Room c s → Clean c (open_list c os name mem s)
  unfolding open_list set_world
  open_list-Clean name mem s r =
      Clean-option c _ (Clean-done c (done_dent-Fits c _ (ground arith)))
        (λ d. state_process_list-Clean _ (ground arith))

  pub state_init_list-Clean : (s : Ctx W) → Room c s → Clean c (state_init_list c os s)
  unfolding state_init_list set_world
  state_init_list-Clean s r = Clean-if c _ (Clean-done c (done_dent-Fits c s r)) (
      Clean-option c _ (Clean-done c (done_dent-Fits c _ (ground arith)))
        (λ m. open_list-Clean _ m _ (ground arith)))

  pub state_init_send_file-Clean :
      (mode : ℕ) (s : Ctx W) → Room c s → Clean c (state_init_send_file c os mode s)
  unfolding state_init_send_file
  state_init_send_file-Clean mode s r =
      Clean-option c _ (Clean-done c (errno-Fits c os _ (ground arith))) (λ f. Clean-more c r.sized)

  pub state_init_send_link-Clean : (s : Ctx W) → Room c s → Clean c (state_init_send_link c os s)
  unfolding state_init_send_link set_world
  state_init_send_link-Clean s r =
      Clean-if c _ (Clean-done c (fail-Fits c _ s r)) (
        Clean-option c _ (Clean-done c (fail-Fits c _ _ (ground arith)))
          (λ m. Clean-more c r.sized))

  pub start_send-Clean :
      (b : Bool) (mode : ℕ) (s : Ctx W) → Room c s → Clean c (start_send c os b mode s)
  unfolding start_send set_world
  start_send-Clean b mode s r =
      Clean-if c _
        (Clean-if c b (state_init_send_link-Clean _ (ground arith))
          (state_init_send_file-Clean mode _ (ground arith)))
        (Clean-done c (errno-Fits c os _ (ground arith)))

  pub state_init_send-Clean : (s : Ctx W) → Room c s → Clean c (state_init_send c os s)
  unfolding state_init_send set_buff
  state_init_send-Clean s r =
      Clean-option c _ (start_send-Clean false _ s r) (λ i. start_send-Clean _ _ _ (ground arith))

  pub state_init_recv-Clean : (s : Ctx W) → Room c s → Clean c (state_init_recv c os s)
  unfolding state_init_recv
  state_init_recv-Clean s r =
      Clean-option c _ (Clean-done c (fail-Fits c _ _ (ground arith)))
        (λ f. state_process_recv-Clean _ (ground arith))

  pub run_cmd-Clean : (s : Ctx W) → Room c s → Clean c (run_cmd c os s)
  unfolding run_cmd
  run_cmd-Clean s r = Clean-if c _ (state_init_stat-Clean s r) (
      Clean-if c _ (state_init_list-Clean s r) (
        Clean-if c _ (state_init_send-Clean s r) (
          Clean-if c _ (state_init_recv-Clean s r)
            (Clean-if c _ (Clean-done c r.sized) (Clean-failed c r.sized)))))

  pub accept_cmd-Clean : (s : Ctx W) → Room c s → Clean c (accept_cmd c os s)
  unfolding accept_cmd
  accept_cmd-Clean s r = ground arith

  pub accept_name-Clean : (s : Ctx W) → Room c s → Clean c (accept_name c os s)
  unfolding accept_name set_buff
  accept_name-Clean s r = Clean-if c _ (Clean-failed c r.sized) (run_cmd-Clean _ (ground arith))

  pub check_header-Clean : (s : Ctx W) → Room c s → Clean c (check_header c s)
  unfolding check_header set_state
  check_header-Clean s r =
      Clean-if c _ (Clean-more c r.sized)
        (Clean-if c _ (Clean-done c (okay-Fits c s r)) (Clean-done c (fail-Fits c _ s r)))

  pub make_symlink-Clean : (s : Ctx W) → Room c s → Clean c (make_symlink c os s)
  unfolding make_symlink set_state set_world
  make_symlink-Clean s r =
      Clean-if c _ (Clean-done c (fail-Fits c _ s r))
        (Clean-if c _ (Clean-more c r.sized) (Clean-done c (fail-Fits c _ _ (ground arith))))
