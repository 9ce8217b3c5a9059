-- ===== src/Sync/Through/Service.antt =====
-- The same of a whole call: on_write and on_ack, whose results are final.
use micro_adb.Common.{ℕ, zero, suc, Bool, true, false, Option, none, some, ◌≢◌, ◌==◌, if◌then◌else◌}
use micro_adb.Packet.{Config}
use micro_adb.Os.{Os}
use micro_adb.Os.Closed.{OsClosed}
use micro_adb.Sync.{
  Ctx, Ret, failed, done, more, stuck, State, wait_cmd, wait_cmd_data, process_recv, process_list,
  process_send_file_hdr, process_send_file_data, process_send_sym_hdr, process_send_sym_data,
}
use micro_adb.Sync.Command.{state_wait_cmd, state_wait_cmd_data}
use micro_adb.Sync.Service.{
  process_state, write_round, write_loop, close_ret, end_write, reset_unless_more, ack_state,
  end_ack, file_sync_on_write, file_sync_on_ack, rewind,
}
use micro_adb.Sync.Through.{Through, Through-if, after, reset-Through, stay}
use micro_adb.Sync.Through.Command.{
  accept_cmd-Through, accept_name-Through, state_process_list-Through, state_process_recv-Through,
}
use micro_adb.Sync.Through.Send.{
  send_file-Through, send_header-Through, send_sym-Through, taken-Through,
}

module _ {W : Type 0} (c : Config) (os : Os W) (Q : W → W → Type 0) (q : OsClosed os Q) where
  process_state-Through :
      (retry : ℕ) (st : State) (s : Ctx W) → Through Q s.world (process_state c os retry st s)
  unfolding process_state state_wait_cmd state_wait_cmd_data
  process_state-Through retry wait_cmd s =
      taken-Through c os Q q 8 s (accept_cmd-Through c os Q q _) (stay c os Q q more _)
        (stay c os Q q failed _)
  process_state-Through retry wait_cmd_data s =
      taken-Through c os Q q s.namelen s (accept_name-Through c os Q q _) (stay c os Q q more _)
        (stay c os Q q failed _)
  process_state-Through retry process_send_file_hdr s = send_header-Through c os Q q s
  process_state-Through retry process_send_sym_hdr s = send_header-Through c os Q q s
  process_state-Through retry process_send_file_data s = send_file-Through c os Q q retry s
  process_state-Through retry process_send_sym_data s =
      Through-if Q c.file_symlink (send_sym-Through c os Q q s) (stay c os Q q failed s)
  process_state-Through retry process_recv s = stay c os Q q failed s
  process_state-Through retry process_list s = stay c os Q q failed s

  unless_more-Through :
      (u : W) (r : Ret × Ctx W) → Through Q u r → Through Q u (reset_unless_more os r)
  unfolding reset_unless_more
  unless_more-Through u (more, s) h = h
  unless_more-Through u (stuck, s) h = h
  unless_more-Through u (failed, s) h = after c os Q q h.went (reset-Through c os Q q failed s)
  unless_more-Through u (done, s) h = after c os Q q h.went (reset-Through c os Q q done s)

  write_round-Through : (retry : ℕ) (s : Ctx W) → Through Q s.world (write_round c os retry s)
  unfolding write_round
  write_round-Through retry s =
      unless_more-Through s.world _ (process_state-Through retry s.state s)

  -- The same of a result that fuel may not give.
  abbrev Perhaps : W → Option (Ret × Ctx W) → Type 0
  Perhaps u none = Unit {0}
  Perhaps u (some r) = Through Q u r

  Perhaps-if :
      (u : W) (b : Bool) (x y : Option (Ret × Ctx W))
      → Perhaps u x
      → Perhaps u y
      → Perhaps u (if b then x else y)
  Perhaps-if u true x y h k = h
  Perhaps-if u false x y h k = k

  Perhaps-after : (u v : W) (o : Option (Ret × Ctx W)) → Q u v → Perhaps v o → Perhaps u o
  Perhaps-after u v none h k = tt
  Perhaps-after u v (some r) h k = after c os Q q h k

  write_loop-Perhaps :
      (retry fuel : ℕ) (ret : Ret) (s : Ctx W) → Perhaps s.world (write_loop c os retry fuel ret s)
  unfolding write_loop
  write_loop-Perhaps retry fuel stuck s = stay c os Q q stuck s
  write_loop-Perhaps retry fuel failed s = stay c os Q q failed s
  write_loop-Perhaps retry zero done s =
      Perhaps-if s.world (s.data_length == 0) (some (done, s)) none (stay c os Q q done s) tt
  write_loop-Perhaps retry zero more s =
      Perhaps-if s.world (s.data_length == 0) (some (more, s)) none (stay c os Q q more s) tt
  write_loop-Perhaps retry (suc fuel) done s =
      Perhaps-if s.world (s.data_length == 0) (some (done, s)) _ (stay c os Q q done s) (
        Perhaps-after s.world _ _ (write_round-Through retry s).went
          (write_loop-Perhaps retry fuel _ _))
  write_loop-Perhaps retry (suc fuel) more s =
      Perhaps-if s.world (s.data_length == 0) (some (more, s)) _ (stay c os Q q more s) (
        Perhaps-after s.world _ _ (write_round-Through retry s).went
          (write_loop-Perhaps retry fuel _ _))

  -- What a call of the service ends with: it keeps to the relation, and is not `more`.
  pub record Final (u : W) (r : Ret × Ctx W) : Type 0 where
    pub through : Through Q u r
    pub settled : r.0 ≢ more

  abbrev pub Ends : W → Option (Ret × Ctx W) → Type 0
  Ends u none = Unit {0}
  Ends u (some r) = Final u r

  end_write-Ends :
      (retry : ℕ) (u : W) (o : Option (Ret × Ctx W)) → Perhaps u o → Ends u (end_write c os retry o)
  unfolding end_write close_ret
  end_write-Ends retry u none h = tt
  end_write-Ends retry u (some (failed, s)) h = record {
    through = record { went = h.went };
    settled = λ z. cc;
  }
  end_write-Ends retry u (some (done, s)) h = record {
    through = record { went = h.went };
    settled = λ z. cc;
  }
  end_write-Ends retry u (some (more, s)) h = record {
    through = record { went = h.went };
    settled = λ z. cc;
  }
  end_write-Ends retry u (some (stuck, s)) h = record {
    through = record { went = h.went };
    settled = λ z. cc;
  }

  pub file_sync_on_write-Ends :
      (retry fuel : ℕ) (s : Ctx W) → Ends s.world (file_sync_on_write c os retry fuel s)
  unfolding file_sync_on_write rewind
  file_sync_on_write-Ends retry fuel s =
      end_write-Ends retry s.world _ (write_loop-Perhaps retry fuel done _)

  ack_state-Through : (st : State) (s : Ctx W) → Through Q s.world (ack_state c os st s)
  unfolding ack_state
  ack_state-Through process_recv s = state_process_recv-Through c os Q q s
  ack_state-Through process_list s = state_process_list-Through c os Q q s
  ack_state-Through process_send_file_hdr s = stay c os Q q done s
  ack_state-Through process_send_sym_hdr s = stay c os Q q done s
  ack_state-Through wait_cmd s = stay c os Q q done s
  ack_state-Through wait_cmd_data s = stay c os Q q failed s
  ack_state-Through process_send_file_data s = stay c os Q q failed s
  ack_state-Through process_send_sym_data s = stay c os Q q failed s

  end_ack-Final : (u : W) (r : Ret × Ctx W) → Through Q u r → Final u (end_ack c os r)
  unfolding end_ack
  end_ack-Final u (more, s) h = record { through = record { went = h.went }; settled = λ z. cc }
  end_ack-Final u (stuck, s) h = record { through = h; settled = λ z. cc }
  end_ack-Final u (done, s) h = record {
    through = after c os Q q h.went (reset-Through c os Q q done s);
    settled = λ z. cc;
  }
  end_ack-Final u (failed, s) h = record {
    through = after c os Q q h.went (reset-Through c os Q q failed s);
    settled = λ z. cc;
  }

  pub file_sync_on_ack-Final : (s : Ctx W) → Final s.world (file_sync_on_ack c os s)
  unfolding file_sync_on_ack rewind
  file_sync_on_ack-Final s = end_ack-Final s.world _ (ack_state-Through _ _)
