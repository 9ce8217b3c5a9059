-- ===== src/Sync/Transfer.antt =====
-- file_sync_service.c: state_reset and the state_process_ functions, which move a file, a link or
-- a listing.
use micro_adb.Common.{
  ℕ, zero, suc, ◌+◌, ◌-◌, ◌%◌, ◌^◌, Option, none, some, List, [], ◌∷◌, ◌++◌, min, leb, ◌==◌,
  if◌then◌else◌, on_option, length, take, drop, write_at, bytes32, word32, sub64, codes, c_string,
}
use micro_adb.Packet.{Config}
use micro_adb.Os.{Os, Stat, Read, got, read_failed, wrote, interrupted, write_failed}
use micro_adb.Sync.{
  Afs, Ctx, Ret, done, more, stuck, id_dent, id_done, id_data, State, wait_cmd, process_recv,
  process_list, process_send_file_hdr, process_send_file_data, process_send_sym_hdr,
  process_send_sym_data,
}
use micro_adb.Sync.Reply.{
  append_reply, prepare_fail_message, prepare_okay_message, prepare_done_dent, read_from_packet,
  on_taken,
}

-- `svc->state += 1` and `svc->state -= 1`, on the states where the code does so.
unfoldable pub next_state : State → State
next_state process_send_file_hdr = process_send_file_data
next_state process_send_sym_hdr = process_send_sym_data
next_state s = s

unfoldable pub prev_state : State → State
prev_state process_send_file_data = process_send_file_hdr
prev_state process_send_sym_data = process_send_sym_hdr
prev_state s = s

-- Mode, size and time of a stat or dent message; zeros where the call failed.
unfoldable pub stat_bytes : Option Stat → List ℕ
stat_bytes none = bytes32 0 ++ bytes32 0 ++ bytes32 0
stat_bytes (some st) = bytes32 st.mode ++ bytes32 st.size ++ bytes32 st.mtime

module _ {W : Type 0} where
  unfoldable pub set_state : State → Ctx W → Ctx W
  set_state st s = record s { svc = record s.svc { state = st } }

  unfoldable pub set_world : W → Ctx W → Ctx W
  set_world w s = record s { world = w }

  -- close(fd), of which a negative descriptor makes nothing.
  unfoldable pub close_fd : Os W → Option ℕ → W → W
  close_fd os none w = w
  close_fd os (some fd) w = os.close fd w

  unfoldable pub release_state : Os W → State → Afs → W → W
  release_state os process_list v w = os.closedir v.list_d (os.free v.list_path w)
  release_state os process_recv v w = close_fd os v.recv_fd w
  release_state os process_send_sym_hdr v w = os.free v.send_link_path w
  release_state os process_send_sym_data v w = os.free v.send_link_path w
  release_state os process_send_file_hdr v w = close_fd os v.send_file_fd w
  release_state os process_send_file_data v w = close_fd os v.send_file_fd w
  release_state os st v w = w

  unfoldable pub state_reset : Os W → Ctx W → Ctx W
  state_reset os s = record s {
    svc = record s.svc { state = wait_cmd; size = 0 };
    world = release_state os s.state s.svc s.world;
  }

  -- The copy of a name into the payload. `room` is the int that the remaining space converts to, so
  -- a value from 2 ^ 31 on is negative and below every length; the copy then has no defined result.
  unfoldable pub put_dent : Config → List ℕ → List ℕ → Ctx W → Ret × Ctx W
  put_dent c stats name s =
      let room = sub64 c.payload_size (20 + s.write_len) % 2 ^ 32 in
      let len = min (length name) room in
      if leb (2 ^ 31) room
      then (stuck, s)
      else (more, append_reply (bytes32 id_dent ++ stats ++ bytes32 len ++ take len name) s)

  unfoldable pub stat_entry : Os W → List ℕ → Ctx W → List ℕ × Ctx W
  stat_entry os name s =
      let path = write_at s.file_ptr (name ++ 0 ∷ []) s.list_path in
      let (found, w) = os.lstat (c_string path) s.world in
      (stat_bytes found, record s { svc = record s.svc { list_path = path }; world = w })

  unfoldable pub list_entry : Config → Os W → List ℕ → Ctx W → Ret × Ctx W
  list_entry c os name s =
      if leb (c.path_max - s.file_ptr) (length name)
      then put_dent c (stat_bytes none) name s
      else (let (stats, s') = stat_entry os name s in put_dent c stats name s')

  unfoldable pub state_process_list : Config → Os W → Ctx W → Ret × Ctx W
  state_process_list c os s =
      let (entry, w) = os.readdir s.list_d s.world in
      on_option entry (done, prepare_done_dent (set_world w s))
        (λ name. list_entry c os name (set_world w s))

  unfoldable pub recv_reply : Config → Read → Ctx W → Ret × Ctx W
  recv_reply c read_failed s = (done, prepare_fail_message c (codes "read failed") s)
  recv_reply c (got []) s = (done, append_reply (bytes32 id_done ++ bytes32 0) s)
  recv_reply c (got (b ∷ bs)) s =
      (more, append_reply (bytes32 id_data ++ bytes32 (length (b ∷ bs)) ++ b ∷ bs) s)

  unfoldable pub read_recv : Os W → ℕ → Option ℕ → W → Read × W
  read_recv os count none w = (read_failed, w)
  read_recv os count (some fd) w = os.read fd count w

  unfoldable pub state_process_recv : Config → Os W → Ctx W → Ret × Ctx W
  state_process_recv c os s =
      let (r, w) = read_recv os (sub64 c.payload_size (8 + s.write_len)) s.recv_fd s.world in
      recv_reply c r (set_world w s)

  unfoldable pub check_header : Config → Ctx W → Ret × Ctx W
  check_header c s =
      let id = word32 s.buff in
      if id == id_data
      then (
        more,
        set_state (next_state s.state)
            (record s { svc = record s.svc { namelen = word32 (drop 4 s.buff) } }),
      )
      else if id == id_done
      then (done, prepare_okay_message s)
      else (done, prepare_fail_message c (codes "invalid data message") s)

  unfoldable pub state_process_send_header : Config → Ctx W → Ret × Ctx W
  state_process_send_header c s =
      let (t, s') = read_from_packet c 8 s in
      on_taken t (check_header c s') (more, s')
        (done, prepare_fail_message c (codes "read error") s')

  -- The block that a packet has for the file, taken off the packet and off what is still expected.
  unfoldable pub take_block : ℕ → Ctx W → Ctx W
  take_block size s = record s {
    svc = record s.svc { namelen = s.namelen - size; packet_ptr = s.packet_ptr + size };
    pkt = record s.pkt { msg = record s.pkt.msg { data_length = s.data_length - size } };
  }

  unfoldable pub end_block : Ctx W → Ctx W
  end_block s = if s.namelen == 0 then set_state (prev_state s.state) s else s

-- How the loop over write(2) ends; `exhausted` if it has made `retry` calls and is not done.
pub data WriteEnd : Type 0 where
  all_written write_error exhausted : WriteEnd

abbrev pub on_end {ℓ} : {B : Type ℓ} → WriteEnd → B → B → B → B
on_end all_written x y z = x
on_end write_error x y z = y
on_end exhausted x y z = z

module _ {W : Type 0} (os : Os W) (fd : ℕ) where
  unfoldable pub write_all : ℕ → List ℕ → W → WriteEnd × W
  write_all n [] w = (all_written, w)
  write_all zero (b ∷ bs) w = (exhausted, w)
  write_all (suc n) (b ∷ bs) w =
      let (r, w') = os.write fd (b ∷ bs) w in
      elim r [
        | wrote zero ↦ (write_error, w')
        | wrote (suc k) ↦ write_all n (drop k bs) w'
        | interrupted ↦ write_all n (b ∷ bs) w'
        | write_failed ↦ (write_error, w')
      ]

module _ {W : Type 0} (c : Config) (os : Os W) where
  unfoldable pub write_block : ℕ → Option ℕ → List ℕ → W → WriteEnd × W
  write_block retry none bs w = (all_written, w)
  write_block retry (some fd) bs w = write_all os fd retry bs w

  unfoldable pub state_process_send_file : ℕ → Ctx W → Ret × Ctx W
  state_process_send_file retry s =
      let size = min s.data_length s.namelen in
      let block = take size (drop s.packet_ptr s.payload) in
      let (e, w) = write_block retry s.send_file_fd block s.world in
      let s' = set_world w (take_block size s) in
      on_end e (more, end_block s') (done, prepare_fail_message c (codes "write error") s')
        (stuck, s')

  -- After the target has been read: the bound, the terminator, and symlink(2).
  unfoldable pub make_symlink : Ctx W → Ret × Ctx W
  make_symlink s =
      let buff = write_at s.namelen (0 ∷ []) s.buff in
      let s₁ = record s { svc = record s.svc { buff = buff } } in
      let (ok, w) = os.symlink (c_string buff) (c_string s.send_link_path) s.world in
      if leb c.path_max s.namelen
      then (done, prepare_fail_message c (codes "symlink target too long") s)
      else if ok
      then (more, set_state (prev_state s.state) (set_world w s₁))
      else (done, prepare_fail_message c (codes "symlink call failed") (set_world w s₁))

  unfoldable pub state_process_send_sym : Ctx W → Ret × Ctx W
  state_process_send_sym s =
      let (t, s') = read_from_packet c s.namelen s in
      on_taken t (make_symlink s') (more, s') (done, prepare_fail_message c (codes "read error") s')
