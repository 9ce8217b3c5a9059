-- ===== src/Sync/Bounds.antt =====
-- The replies stay inside the packet's buffer as long as it has room for the largest fixed part of
-- one, 20 bytes; and what happens when it has not.
use micro_adb.Common.{
  take, take-write_at, write_at, sym, ap, ◌∙◌, ℕ, ◌+◌, ◌≤◌, ◌≡◌, ◌≢◌, refl, Bool, true, false,
  Option, none, some, ◌++◌, arith, length, length-write_at_exact, max, bytes32, if◌then◌else◌,
  codes, c_string,
}
use micro_adb.Packet.{Config}
use micro_adb.Os.{Os, Stat}
use micro_adb.Sync.{
  Ctx, id_stat, Ret, failed, done, more, stuck, State, wait_cmd, wait_cmd_data, process_recv,
  process_list, process_send_file_hdr, process_send_file_data, process_send_sym_hdr,
  process_send_sym_data,
}
use micro_adb.Sync.Reply.{
  append_reply, prepare_fail_message, read_from_packet, take_chunk, reset_size, finish_read, Taken,
  complete, again, invalid, on_taken,
}
use micro_adb.Sync.Transfer.{
  set_world, set_state, stat_bytes, state_process_send_header, take_block, end_block, WriteEnd,
  all_written, write_error, exhausted, on_end, state_process_send_file, state_process_send_sym,
  state_reset,
}
use micro_adb.Sync.Command.{stat_result, state_init_stat, state_wait_cmd, state_wait_cmd_data}
use micro_adb.Sync.Service.{
  process_state, write_round, reset_unless_more, ack_state, end_ack, file_sync_on_ack, rewind,
}
use micro_adb.Sync.Room.{
  ReadsAtMost, length-stat_bytes, Room, Fits, fail-Fits, Clean, Clean-done, Clean-failed,
}
use micro_adb.Sync.Answers.{
  state_process_list-Clean, state_process_recv-Clean, accept_cmd-Clean, accept_name-Clean,
  check_header-Clean, make_symlink-Clean,
}

module _ {W : Type 0} (c : Config) (os : Os W) (reads : ReadsAtMost os) where
  read_from_packet-Room : (size : ℕ) (s : Ctx W) → Room c s → Room c (read_from_packet c size s).1
  unfolding read_from_packet take_chunk reset_size finish_read
  read_from_packet-Room size s r = ground arith

  on_taken-Fits :
      (t : Taken) (x y z : Ret × Ctx W)
      → Fits c x.1
      → Fits c y.1
      → Fits c z.1
      → Fits c (on_taken t x y z).1
  on_taken-Fits complete x y z h k l = h
  on_taken-Fits again x y z h k l = k
  on_taken-Fits invalid x y z h k l = l

  Fits-if : (b : Bool) (x y : Ret × Ctx W) → Fits c x.1 → Fits c y.1 → Fits c (if b then x else y).1
  Fits-if true x y h k = h
  Fits-if false x y h k = k

  file-Fits :
      (e : WriteEnd) (size : ℕ) (w : W) (s : Ctx W)
      → Room c s
      → let s' = set_world w (take_block size s) in
        Fits c
          (on_end {B = Ret × Ctx W} e
            (more, end_block s')
            (done, prepare_fail_message c (codes "write error") s')
            (stuck, s')).1
  unfolding take_block end_block set_world set_state
  file-Fits all_written size w s r = ground arith
  file-Fits write_error size w s r = fail-Fits c _ _ (ground arith)
  file-Fits exhausted size w s r = r.sized

  process_state-Fits :
      (retry : ℕ) (st : State) (s : Ctx W) → Room c s → Fits c (process_state c os retry st s).1
  unfolding process_state state_wait_cmd state_wait_cmd_data state_process_send_header
      state_process_send_file state_process_send_sym
  process_state-Fits retry wait_cmd s r =
      let k = read_from_packet-Room 8 s r in
      on_taken-Fits _ _ _ _ (accept_cmd-Clean c os reads _ k).fits k.sized k.sized
  process_state-Fits retry wait_cmd_data s r =
      let k = read_from_packet-Room s.namelen s r in
      on_taken-Fits _ _ _ _ (accept_name-Clean c os reads _ k).fits k.sized k.sized
  process_state-Fits retry process_send_file_hdr s r =
      let k = read_from_packet-Room 8 s r in
      on_taken-Fits _ _ _ _ (check_header-Clean c os reads _ k).fits k.sized (fail-Fits c _ _ k)
  process_state-Fits retry process_send_sym_hdr s r =
      let k = read_from_packet-Room 8 s r in
      on_taken-Fits _ _ _ _ (check_header-Clean c os reads _ k).fits k.sized (fail-Fits c _ _ k)
  process_state-Fits retry process_send_file_data s r = file-Fits _ _ _ s r
  process_state-Fits retry process_send_sym_data s r =
      let k = read_from_packet-Room s.namelen s r in
      Fits-if c.file_symlink _ _
        (on_taken-Fits _ _ _ _ (make_symlink-Clean c os reads _ k).fits k.sized (fail-Fits c _ _ k))
        r.sized
  process_state-Fits retry process_recv s r = r.sized
  process_state-Fits retry process_list s r = r.sized

  reset-Fits : (r : Ret × Ctx W) → Fits c r.1 → Fits c (reset_unless_more os r).1
  unfolding reset_unless_more state_reset
  reset-Fits (more, s) h = h
  reset-Fits (done, s) h = h
  reset-Fits (failed, s) h = h
  reset-Fits (stuck, s) h = h

  -- A round of file_sync_on_write that begins with room for 20 bytes in the reply writes nothing
  -- past the packet's payload_size bytes, in any state, where read(2) returns at most the bytes
  -- that it is asked for.
  pub write_round_in_payload :
      (retry : ℕ) (s : Ctx W) → Room c s → Fits c (write_round c os retry s).1
  unfolding write_round
  write_round_in_payload retry s r = reset-Fits _ (process_state-Fits retry s.state s r)

  ack_state-Clean : (st : State) (s : Ctx W) → Room c s → Clean c (ack_state c os st s)
  unfolding ack_state
  ack_state-Clean process_recv s r = state_process_recv-Clean c os reads s r
  ack_state-Clean process_list s r = state_process_list-Clean c os reads s r
  ack_state-Clean process_send_file_hdr s r = Clean-done c r.sized
  ack_state-Clean process_send_sym_hdr s r = Clean-done c r.sized
  ack_state-Clean wait_cmd s r = Clean-done c r.sized
  ack_state-Clean st s r = Clean-failed c r.sized

  end_ack-Clean : (r : Ret × Ctx W) → Clean c r → Clean c (end_ack c os r)
  unfolding end_ack state_reset
  end_ack-Clean (more, s) k = Clean-done c k.fits
  end_ack-Clean (done, s) k = Clean-done c k.fits
  end_ack-Clean (failed, s) k = Clean-failed c k.fits
  end_ack-Clean (stuck, s) k = absurd (k.unstuck refl)

  -- file_sync_on_ack, in any state, writes nothing past the packet's payload_size bytes and has a
  -- defined result, on a packet with room for 20 bytes of reply, where read(2) returns at most the
  -- bytes that it is asked for.
  pub file_sync_on_ack_in_payload :
      (s : Ctx W)
      → Room c s
      → Fits c (file_sync_on_ack c os s).1 × ((file_sync_on_ack c os s).0 ≢ stuck)
  unfolding file_sync_on_ack rewind
  file_sync_on_ack_in_payload s r =
      let k = end_ack-Clean _ (ack_state-Clean s.state _ (ground arith)) in (k.fits, k.unstuck)

stat_result-payload :
    {W : Type 0} (o : Option Stat) (s : Ctx W) → (stat_result o s).1.payload ≡ s.payload
unfolding stat_result set_state
stat_result-payload none s = refl
stat_result-payload (some st) s = refl

module _ {W : Type 0} (c : Config) (os : Os W) where
  -- A STAT reply is written whole whether or not the packet has room for its 16 bytes: from a
  -- write_len inside the payload, the memory written begins with what the reply held before, then
  -- the id and what stat(2) has found, mode, size and time or zeros, and ends at the payload's end or,
  -- if that is further, 16 bytes after write_len.
  pub state_init_stat_extent :
      (s : Ctx W)
      → s.write_len ≤ length s.payload
      → let found = (os.stat (c_string s.buff) s.world).0 in
        let after = (state_init_stat c os s).1.payload in
        (length after ≡ max (length s.payload) (s.write_len + 16))
        × (take (s.write_len + 16) after
            ≡ take s.write_len s.payload ++ (bytes32 id_stat ++ stat_bytes found))
  unfolding state_init_stat append_reply set_world
  state_init_stat_extent s h =
      let found = (os.stat (c_string s.buff) s.world).0 in
      let reply = bytes32 id_stat ++ stat_bytes found in
      let l = length-stat_bytes found in
      let n : length reply ≡ 16 = omega (arith, l) in
      rw (stat_result-payload found) (
        omega (arith, length-write_at_exact s.write_len reply s.payload, l),
        ap (λ m. take (s.write_len + m) (write_at s.write_len reply s.payload)) (sym n)
            ∙ take-write_at s.write_len reply s.payload h,
      )
