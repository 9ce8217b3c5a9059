-- ===== src/Sync/Rounds.antt =====
-- What one round of file_sync_on_write leaves behind, state by state.
use micro_adb.Common.{
  ℕ, ◌+◌, ◌*◌, ◌≤◌, ◌<◌, ◌≡◌, ◌⊎◌, inl, inr, Bool, true, false, List, [], ◌∷◌, min, arith, length,
  length-write_at, Bool-cases, if◌then◌else◌, codes, leb,
}
use micro_adb.Packet.{Config}
use micro_adb.Os.{Os}
use micro_adb.Sync.{
  Ctx, Ret, failed, done, more, stuck, State, wait_cmd, wait_cmd_data, process_recv, process_list,
  process_send_file_hdr, process_send_file_data, process_send_sym_hdr, process_send_sym_data,
}
use micro_adb.Sync.Invariant.{weight, measure, Phase, Inv, Reads}
use micro_adb.Sync.Kept.{Kept, Runs, run_cmd-Runs, fail-Kept, okay-Kept}
use micro_adb.Sync.Reply.{Taken, complete, again, invalid, on_taken, prepare_fail_message}
use micro_adb.Sync.Transfer.{
  set_world, set_state, next_state, prev_state, check_header, take_block, end_block, WriteEnd,
  all_written, write_error, exhausted, on_end, make_symlink,
}
use micro_adb.Sync.Command.{set_buff, accept_cmd, accept_name}

-- In a state that must take bytes, an empty buffer is in phase.
Phase-zero : (c : Config) (st : State) (n : ℕ) → weight st ≡ 0 → Phase c st 0 n
Phase-zero c wait_cmd n h = omega arith
Phase-zero c wait_cmd_data n h = absurd (omega arith)
Phase-zero c process_recv n h = omega arith
Phase-zero c process_list n h = omega arith
Phase-zero c process_send_file_hdr n h = omega arith
Phase-zero c process_send_file_data n h = absurd (omega arith)
Phase-zero c process_send_sym_hdr n h = omega arith
Phase-zero c process_send_sym_data n h = absurd (omega arith)

weight-le : (st : State) → weight st ≤ 1
weight-le wait_cmd = omega arith
weight-le st = omega arith

module _ {W : Type 0} (c : Config) where
  -- A round that began with the measure `m` and ended with `r`: what holds after it, by its result.
  pub record Rounds (m : ℕ) (r : Ret × Ctx W) : Type 0 where
    pub buff_kept : length r.1.buff ≡ c.path_max
    pub in_packet : r.1.packet_ptr + r.1.data_length ≤ length r.1.payload
    pub when_more : r.0 ≡ more → Phase c r.1.state r.1.size r.1.namelen × (measure r.1 < m)
    pub when_done : r.0 ≡ done → 2 * r.1.data_length < m

  pub Rounds-if :
      (b : Bool) {m : ℕ} {x y : Ret × Ctx W}
      → Rounds m x
      → Rounds m y
      → Rounds m (if b then x else y)
  Rounds-if true h k = h
  Rounds-if false h k = k

  pub Rounds-failed :
      (m : ℕ) (s : Ctx W)
      → length s.buff ≡ c.path_max
      → s.packet_ptr + s.data_length ≤ length s.payload
      → Rounds m (failed, s)
  Rounds-failed m s b p = ground arith

  -- A reply that ends the transfer.
  Kept-done :
      (m : ℕ) {s s' : Ctx W}
      → length s.buff ≡ c.path_max
      → s.packet_ptr + s.data_length ≤ length s.payload
      → 2 * s.data_length < m
      → Kept s s'
      → Rounds m (done, s')
  Kept-done m b p h k = ground arith

  Runs-Rounds :
      (m : ℕ) {s : Ctx W} {r : Ret × Ctx W}
      → length s.buff ≡ c.path_max
      → s.packet_ptr + s.data_length ≤ length s.payload
      → s.size ≡ 0
      → 2 * s.data_length < m
      → Runs s r
      → Rounds m r
  Runs-Rounds m {s} {r} b p z h k = ground (arith, Phase-zero c r.1.state r.1.namelen)

module _ {W : Type 0} (c : Config) (os : Os W) where
  pub wait_cmd-Rounds :
      (s s' : Ctx W) (t : Taken)
      → Inv c s
      → s.state ≡ wait_cmd
      → 0 < s.data_length
      → Reads c 8 s t s'
      → Rounds c (measure s) (on_taken t (accept_cmd c os s') (more, s') (failed, s'))
  unfolding accept_cmd
  wait_cmd-Rounds s s' complete v e h k = ground arith
  wait_cmd-Rounds s s' again v e h k = ground arith
  wait_cmd-Rounds s s' invalid v e h k = ground arith

  accept_name-Rounds :
      (m : ℕ) (s : Ctx W)
      → length s.buff ≡ c.path_max
      → s.packet_ptr + s.data_length ≤ length s.payload
      → s.size ≡ 0
      → s.namelen < c.path_max
      → 2 * s.data_length < m
      → Rounds c m (accept_name c os s)
  unfolding accept_name set_buff
  accept_name-Rounds m s b p z n h = Rounds-if c _ (Rounds-failed c m s b p) (
      Runs-Rounds c m (ground (arith, length-write_at s.namelen (0 ∷ []) s.buff)) p z h
        (run_cmd-Runs c os _))

  pub wait_cmd_data-Rounds :
      (s s' : Ctx W) (t : Taken)
      → Inv c s
      → s.state ≡ wait_cmd_data
      → 0 < s.data_length
      → Reads c s.namelen s t s'
      → Rounds c (measure s) (on_taken t (accept_name c os s') (more, s') (failed, s'))
  wait_cmd_data-Rounds s s' complete v e h k =
      accept_name-Rounds (measure s) s' (ground arith) (ground arith) (ground arith) (ground arith)
        (ground arith)
  wait_cmd_data-Rounds s s' again v e h k = ground arith
  wait_cmd_data-Rounds s s' invalid v e h k = ground arith

  data_header-Rounds :
      (s s' : Ctx W) (n : ℕ)
      → Inv c s
      → (s.state ≡ process_send_file_hdr) ⊎ (s.state ≡ process_send_sym_hdr)
      → 0 < s.data_length
      → Reads c 8 s complete s'
      → Rounds c (measure s) (
        more,
        set_state (next_state s'.state) (record s' { svc = record s'.svc { namelen = n } }),
      )
  unfolding set_state next_state
  data_header-Rounds s s' n v e h k = ground arith

  pub header-Rounds :
      (s s' : Ctx W) (t : Taken)
      → Inv c s
      → (s.state ≡ process_send_file_hdr) ⊎ (s.state ≡ process_send_sym_hdr)
      → 0 < s.data_length
      → Reads c 8 s t s'
      → Rounds c (measure s) (
          on_taken t
            (check_header c s')
            (more, s')
            (done, prepare_fail_message c (codes "read error") s'))
  unfolding check_header
  header-Rounds s s' complete v e h k = Rounds-if c _ (data_header-Rounds s s' _ v e h k) (
      Rounds-if c _ (Kept-done c _ (ground arith) (ground arith) (ground arith) (okay-Kept s'))
        (Kept-done c _ (ground arith) (ground arith) (ground arith) (fail-Kept c _ s')))
  header-Rounds s s' again v e h k = ground arith
  header-Rounds s s' invalid v e h k =
      Kept-done c _ (ground arith) (ground arith) (ground arith) (fail-Kept c _ s')

  pub file-Rounds :
      (s : Ctx W) (e : WriteEnd) (w : W)
      → Inv c s
      → s.state ≡ process_send_file_data
      → 0 < s.data_length
      → let s' = set_world w (take_block (min s.data_length s.namelen) s) in
        Rounds c (measure s) (
          on_end e
            (more, end_block s')
            (done, prepare_fail_message c (codes "write error") s')
            (stuck, s'))
  unfolding take_block end_block set_world set_state prev_state
  file-Rounds s all_written w v e h = ground arith
  file-Rounds s write_error w v e h =
      Kept-done c _ (ground arith) (ground arith) (ground arith) (fail-Kept c _ _)
  file-Rounds s exhausted w v e h = ground arith

  linked-Rounds :
      (m : ℕ) (s : Ctx W) (buff : List ℕ) (w : W)
      → length buff ≡ c.path_max
      → s.packet_ptr + s.data_length ≤ length s.payload
      → s.size ≡ 0
      → s.state ≡ process_send_sym_data
      → 2 * s.data_length < m
      → Rounds c m (
        more,
        set_state
            (prev_state s.state)
            (set_world w (record s { svc = record s.svc { buff = buff } })),
      )
  unfolding set_world set_state prev_state
  linked-Rounds m s buff w b p z e h = ground arith

  symlink-Rounds :
      (m : ℕ) (s : Ctx W)
      → length s.buff ≡ c.path_max
      → s.packet_ptr + s.data_length ≤ length s.payload
      → s.size ≡ 0
      → s.state ≡ process_send_sym_data
      → 2 * s.data_length < m
      → Rounds c m (make_symlink c os s)
  unfolding make_symlink set_world
  symlink-Rounds m s b p z e h = elim (Bool-cases (leb c.path_max s.namelen)) [
    | inl long ↦ rw (long, make_symlink) (Kept-done c m b p h (fail-Kept c _ s))
    | inr short ↦
        let cut = length-write_at s.namelen (0 ∷ []) s.buff (ground arith) in
        rw (short, make_symlink)
          (Rounds-if c _ (linked-Rounds m s _ _ (ground arith) p z e h)
            (Kept-done c m (ground arith) p h (fail-Kept c _ _)))
  ]

  pub sym-Rounds :
      (s s' : Ctx W) (t : Taken)
      → Inv c s
      → s.state ≡ process_send_sym_data
      → 0 < s.data_length
      → Reads c s.namelen s t s'
      → Rounds c (measure s) (
          on_taken t
            (make_symlink c os s')
            (more, s')
            (done, prepare_fail_message c (codes "read error") s'))
  sym-Rounds s s' complete v e h k =
      symlink-Rounds (measure s) s' (ground arith) (ground arith) (ground arith) (ground arith)
        (ground arith)
  sym-Rounds s s' again v e h k = ground arith
  sym-Rounds s s' invalid v e h k =
      Kept-done c _ (ground arith) (ground arith) (ground arith) (fail-Kept c _ s')
