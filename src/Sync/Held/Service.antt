-- ===== src/Sync/Held/Service.antt =====
-- The same of whole calls of the service.
use micro_adb.Common.{
  ℕ, zero, suc, ◌+◌, ◌*◌, ◌≤◌, ◌≡◌, refl, ◌∙◌, Option, none, some, Bool, true, false, ◌==◌,
  if◌then◌else◌, length, arith,
}
use micro_adb.Packet.{Config}
use micro_adb.Os.{Os}
use micro_adb.Sync.{
  Ctx, Ret, failed, done, more, stuck, State, wait_cmd, wait_cmd_data, process_recv, process_list,
  process_send_file_hdr, process_send_file_data, process_send_sym_hdr, process_send_sym_data,
}
use micro_adb.Sync.Command.{state_wait_cmd, state_wait_cmd_data}
use micro_adb.Sync.Service.{
  process_state, write_round, write_loop, close_ret, end_write, reset_unless_more, ack_state,
  end_ack, file_sync_on_write, file_sync_on_ack, file_sync_on_close, rewind,
}
use micro_adb.Sync.Invariant.{Idle}
use micro_adb.Sync.Progress.{file_sync_on_write_returns}
use micro_adb.Sync.Held.{
  Tally, Balanced, Held, Held-if, Held-taken, stay, reset-count, reset-Held,
  state_process_list-Held, state_process_recv-Held,
}
use micro_adb.Sync.Held.Command.{accept_cmd-Held, accept_name-Held}
use micro_adb.Sync.Held.Send.{
  read-Balanced, read-state, send_header-Held, send_file-Held, send_sym-Held,
}

module _ {W : Type 0} (c : Config) {os : Os W} (t : Tally os) where
  process_state-Held :
      (retry n : ℕ) (st : State) (s : Ctx W)
      → s.state ≡ st
      → Balanced t n s
      → Held t n (process_state c os retry st s)
  unfolding process_state state_wait_cmd state_wait_cmd_data
  process_state-Held retry n wait_cmd s z h =
      let k = read-Balanced c t n 8 s h in
      Held-taken t n _ (accept_cmd-Held c t n _ (read-state c t 8 s ∙ z) k) (stay t n more _ k)
        (stay t n failed _ k)
  process_state-Held retry n wait_cmd_data s z h =
      let k = read-Balanced c t n s.namelen s h in
      Held-taken t n _ (accept_name-Held c t n _ (read-state c t s.namelen s ∙ z) k)
        (stay t n more _ k) (stay t n failed _ k)
  process_state-Held retry n process_send_file_hdr s z h = send_header-Held c t n s h
  process_state-Held retry n process_send_sym_hdr s z h = send_header-Held c t n s h
  process_state-Held retry n process_send_file_data s z h = send_file-Held c t retry n s h
  process_state-Held retry n process_send_sym_data s z h =
      Held-if t n c.file_symlink (send_sym-Held c t n s h) (stay t n failed s h)
  process_state-Held retry n process_recv s z h = stay t n failed s h
  process_state-Held retry n process_list s z h = stay t n failed s h

  unless_more-Held : (n : ℕ) (r : Ret × Ctx W) → Held t n r → Held t n (reset_unless_more os r)
  unfolding reset_unless_more
  unless_more-Held n (more, s) h = h
  unless_more-Held n (stuck, s) h = h
  unless_more-Held n (failed, s) h = reset-Held t n failed s h.kept
  unless_more-Held n (done, s) h = reset-Held t n done s h.kept

  write_round-Held :
      (retry n : ℕ) (s : Ctx W) → Balanced t n s → Held t n (write_round c os retry s)
  unfolding write_round
  write_round-Held retry n s h = unless_more-Held n _ (process_state-Held retry n s.state s refl h)

  -- The same of a result that fuel may not give.
  abbrev pub Keeps : ℕ → Option (Ret × Ctx W) → Type 0
  Keeps n none = Unit {0}
  Keeps n (some r) = Held t n r

  Keeps-if :
      (n : ℕ) (b : Bool) (x y : Option (Ret × Ctx W))
      → Keeps n x
      → Keeps n y
      → Keeps n (if b then x else y)
  Keeps-if n true x y h k = h
  Keeps-if n false x y h k = k

  write_loop-Keeps :
      (retry fuel n : ℕ) (ret : Ret) (s : Ctx W)
      → Balanced t n s
      → Keeps n (write_loop c os retry fuel ret s)
  unfolding write_loop
  write_loop-Keeps retry fuel n stuck s h = stay t n stuck s h
  write_loop-Keeps retry fuel n failed s h = stay t n failed s h
  write_loop-Keeps retry zero n done s h =
      Keeps-if n (s.data_length == 0) (some (done, s)) none (stay t n done s h) tt
  write_loop-Keeps retry zero n more s h =
      Keeps-if n (s.data_length == 0) (some (more, s)) none (stay t n more s h) tt
  write_loop-Keeps retry (suc fuel) n done s h =
      Keeps-if n (s.data_length == 0) (some (done, s)) _ (stay t n done s h)
        (write_loop-Keeps retry fuel n _ _ (write_round-Held retry n s h).kept)
  write_loop-Keeps retry (suc fuel) n more s h =
      Keeps-if n (s.data_length == 0) (some (more, s)) _ (stay t n more s h)
        (write_loop-Keeps retry fuel n _ _ (write_round-Held retry n s h).kept)

  end_write-Keeps :
      (retry n : ℕ) (o : Option (Ret × Ctx W)) → Keeps n o → Keeps n (end_write c os retry o)
  unfolding end_write close_ret
  end_write-Keeps retry n none h = tt
  end_write-Keeps retry n (some (r, s)) h = record { kept = h.kept }

  ack_state-Held :
      (n : ℕ) (st : State) (s : Ctx W) → Balanced t n s → Held t n (ack_state c os st s)
  unfolding ack_state
  ack_state-Held n process_recv s h = state_process_recv-Held c t n s h
  ack_state-Held n process_list s h = state_process_list-Held c t n s h
  ack_state-Held n process_send_file_hdr s h = stay t n done s h
  ack_state-Held n process_send_sym_hdr s h = stay t n done s h
  ack_state-Held n wait_cmd s h = stay t n done s h
  ack_state-Held n wait_cmd_data s h = stay t n failed s h
  ack_state-Held n process_send_file_data s h = stay t n failed s h
  ack_state-Held n process_send_sym_data s h = stay t n failed s h

  end_ack-Held : (n : ℕ) (r : Ret × Ctx W) → Held t n r → Held t n (end_ack c os r)
  unfolding end_ack
  end_ack-Held n (more, s) h = record { kept = h.kept }
  end_ack-Held n (stuck, s) h = h
  end_ack-Held n (done, s) h = reset-Held t n done s h.kept
  end_ack-Held n (failed, s) h = reset-Held t n failed s h.kept

  Keeps-some :
      (n : ℕ) (o : Option (Ret × Ctx W)) (out : Ret × Ctx W)
      → o ≡ some out
      → Keeps n o
      → Held t n out
  Keeps-some n none out z h = cc
  Keeps-some n (some r) out z h = record { kept = ground (arith, z, h.kept) }

  on_write-holds :
      (retry n : ℕ) (s : Ctx W)
      → Idle c s
      → s.data_length ≤ length s.payload
      → Balanced t n s
      → (out : Ret × Ctx W) × (file_sync_on_write c os retry (2 * s.data_length + 2) s ≡ some out)
        × Held t n out
  on_write-holds retry n s v l h =
      let (out, z, i) = file_sync_on_write_returns c os retry s v l in
      (
        out,
        z,
        Keeps-some n _ out z (
            unfold file_sync_on_write rewind in
            end_write-Keeps retry n _ (write_loop-Keeps retry _ n done _ h)),
      )

  -- The file service opens and closes in step. Let all that is open be a number of others and what the
  -- service holds by its state: of a SEND the file or the copy of the link's name, of a RECV the
  -- file, of a LIST the directory and the path. Then it is so after file_sync_on_write, which returns
  -- for a service in phase and a packet whose data lies inside its payload, and after
  -- file_sync_on_ack, whatever their results; and after file_sync_on_close only the others are left.
  pub file_sync_holds :
      (retry others : ℕ) (s : Ctx W)
      → Idle c s
      → s.data_length ≤ length s.payload
      → Balanced t others s
      → ((out : Ret × Ctx W) × (file_sync_on_write c os retry (2 * s.data_length + 2) s ≡ some out)
          × Held t others out)
        × Held t others (file_sync_on_ack c os s)
        × (t.count (file_sync_on_close c os s) ≡ others)
  unfolding file_sync_on_ack file_sync_on_close rewind
  file_sync_holds retry others s v l h = (
    on_write-holds retry others s v l h,
    end_ack-Held others _ (ack_state-Held others _ _ h),
    reset-count t others s h,
  )
