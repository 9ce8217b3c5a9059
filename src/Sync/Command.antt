-- ===== src/Sync/Command.antt =====
-- file_sync_service.c: the commands, from their header to the first state of a transfer.
use micro_adb.Common.{
  ℕ, suc, ◌+◌, ◌%◌, ◌^◌, Bool, true, false, Option, none, some, List, [], ◌∷◌, ◌++◌, bit_and, leb,
  ◌==◌, if◌then◌else◌, on_option, length, drop, write_at, bytes32, word32, codes, c_string,
}
use micro_adb.Packet.{Config}
use micro_adb.Os.{Os, Stat, mkdir_failed}
use micro_adb.Sync.{
  Ctx, Ret, failed, done, more, id_stat, id_list, id_send, id_recv, id_quit, wait_cmd,
  wait_cmd_data, process_recv, process_list, process_send_file_hdr, process_send_sym_hdr,
}
use micro_adb.Sync.Reply.{
  append_reply, prepare_fail_message, prepare_fail_errno, prepare_done_dent, read_from_packet,
  on_taken,
}
use micro_adb.Sync.Transfer.{
  set_state, set_world, stat_bytes, state_process_list, state_process_recv,
}

-- strrchr(text, ','): the position of the last comma.
unfoldable pub last_comma : List ℕ → Option ℕ
last_comma [] = none
last_comma (b ∷ bs) = elim (last_comma bs) [
  | some i ↦ some (suc i)
  | none ↦ if b == b',' then some 0 else none
]

-- S_ISLNK.
abbrev pub s_islnk : ℕ → Bool
s_islnk mode = bit_and mode 0xf000 == 0xa000

module _ {W : Type 0} (os : Os W) where
  -- mkdir of the part of the name before a slash; `false` if it fails otherwise than by EEXIST.
  unfoldable pub make_dir : List ℕ → ℕ → W → Bool × W
  make_dir prefix b w =
      let (r, w') = os.mkdir prefix 0x1fd w in
      if b == b'/' then elim r [ mkdir_failed ↦ (false, w') | _ ↦ (true, w') ] else (true, w)

  unfoldable pub make_dirs : List ℕ → List ℕ → W → Bool × W
  make_dirs prefix [] w = (true, w)
  make_dirs prefix (b ∷ bs) w =
      let (ok, w') = make_dir prefix b w in
      if ok then make_dirs (prefix ++ b ∷ []) bs w' else (false, w')

  -- Whether create_path_directories returns 0.
  unfoldable pub create_path_directories : List ℕ → W → Bool × W
  create_path_directories [] w = (false, w)
  create_path_directories (b ∷ bs) w = if b == b'/' then make_dirs (b ∷ []) bs w else (false, w)

module _ {W : Type 0} where
  unfoldable pub stat_result : Option Stat → Ctx W → Ret × Ctx W
  stat_result none s = (done, s)
  stat_result (some st) s = (more, set_state wait_cmd s)

  unfoldable pub set_buff : List ℕ → Ctx W → Ctx W
  set_buff buff s = record s { svc = record s.svc { buff = buff } }

module _ {W : Type 0} (c : Config) (os : Os W) where
  unfoldable pub state_init_stat : Ctx W → Ret × Ctx W
  state_init_stat s =
      let (found, w) = os.stat (c_string s.buff) s.world in
      stat_result found (append_reply (bytes32 id_stat ++ stat_bytes found) (set_world w s))

  -- After malloc: the path with its slash, then opendir.
  unfoldable pub open_list : List ℕ → List ℕ → Ctx W → Ret × Ctx W
  open_list name mem s =
      let path = write_at 0 (name ++ b'/' ∷ []) mem in
      let (dir, w) = os.opendir name s.world in
      on_option dir (done, prepare_done_dent (set_world (os.free path w) s))
        (λ d. state_process_list c os (record s {
          svc = record s.svc {
            state = process_list;
            list_d = d;
            list_path = path;
            file_ptr = length name + 1;
          };
          world = w;
        }))

  unfoldable pub state_init_list : Ctx W → Ret × Ctx W
  state_init_list s =
      let name = c_string s.buff in
      let (mem, w) = os.malloc c.path_max s.world in
      if leb c.path_max (length name + 3)
      then (done, prepare_done_dent s)
      else on_option mem (done, prepare_done_dent (set_world w s))
          (λ m. open_list name m (set_world w s))

  unfoldable pub state_init_send_file : ℕ → Ctx W → Ret × Ctx W
  state_init_send_file mode s =
      let (fd, w) = os.open_write (c_string s.buff) mode s.world in
      on_option fd
        ((
          done,
          prepare_fail_errno c os
              (record s { svc = record s.svc { send_file_fd = none }; world = w }),
        ))
        (λ f. (
          more,
          record s {
            svc = record s.svc { send_file_fd = some f; state = process_send_file_hdr };
            world = w;
          },
        ))

  unfoldable pub state_init_send_link : Ctx W → Ret × Ctx W
  state_init_send_link s =
      let name = c_string s.buff in
      let (mem, w) = os.malloc (length name + 1) s.world in
      if leb c.path_max (length name)
      then (done, prepare_fail_message c (codes "path too long") s)
      else on_option mem (done, prepare_fail_message c (codes "out of memory") (set_world w s))
          (λ m. (
            more,
            record s {
              svc = record s.svc {
                send_link_path = write_at 0 (name ++ 0 ∷ []) m;
                state = process_send_sym_hdr;
              };
              world = w;
            },
          ))

  -- unlink, the directories of the path, and the kind of the transfer.
  unfoldable pub start_send : Bool → ℕ → Ctx W → Ret × Ctx W
  start_send is_link mode s =
      let name = c_string s.buff in
      let (ok, w) = create_path_directories os name (os.unlink name s.world) in
      let s' = set_world w s in
      if ok
      then (if is_link then state_init_send_link s' else state_init_send_file mode s')
      else (done, prepare_fail_errno c os s')

  unfoldable pub state_init_send : Ctx W → Ret × Ctx W
  state_init_send s =
      let text = c_string s.buff in
      on_option (last_comma text) (start_send false 0x1a4 s) (λ i.
        let mode = os.strtoul (drop (suc i) text) % 2 ^ 32 in
        start_send (s_islnk mode) (bit_and mode 0x1ff) (set_buff (write_at i (0 ∷ []) s.buff) s))

  unfoldable pub state_init_recv : Ctx W → Ret × Ctx W
  state_init_recv s =
      let (fd, w) = os.open_read (c_string s.buff) s.world in
      on_option fd
        ((
          done,
          prepare_fail_message c (codes "file does not exist")
              (record s { svc = record s.svc { recv_fd = none }; world = w }),
        ))
        (λ f.
          state_process_recv c os
            (record s { svc = record s.svc { recv_fd = some f; state = process_recv }; world = w }))

  -- The request header: QUIT and names that are too long end the service.
  unfoldable pub accept_cmd : Ctx W → Ret × Ctx W
  accept_cmd s =
      let id = word32 s.buff in
      let len = word32 (drop 4 s.buff) in
      if id == id_quit then (failed, s) else if leb c.path_max len then (failed, s) else (
        more,
        record s { svc = record s.svc { cmd = id; namelen = len; state = wait_cmd_data } },
      )

  unfoldable pub state_wait_cmd : Ctx W → Ret × Ctx W
  state_wait_cmd s =
      let (t, s') = read_from_packet c 8 s in on_taken t (accept_cmd s') (more, s') (failed, s')

  unfoldable pub run_cmd : Ctx W → Ret × Ctx W
  run_cmd s =
      if s.cmd == id_stat
      then state_init_stat s
      else if s.cmd == id_list
      then state_init_list s
      else if s.cmd == id_send
      then state_init_send s
      else if s.cmd == id_recv
      then state_init_recv s
      else if s.cmd == id_quit
      then (done, s)
      else (failed, s)

  -- The name has been read: its bound, its terminator, and the command.
  unfoldable pub accept_name : Ctx W → Ret × Ctx W
  accept_name s =
      if leb c.path_max s.namelen
      then (failed, s)
      else run_cmd (set_buff (write_at s.namelen (0 ∷ []) s.buff) s)

  unfoldable pub state_wait_cmd_data : Ctx W → Ret × Ctx W
  state_wait_cmd_data s =
      let (t, s') = read_from_packet c s.namelen s in
      on_taken t (accept_name s') (more, s') (failed, s')
