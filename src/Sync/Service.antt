-- ===== src/Sync/Service.antt =====
-- file_sync_service.c: the handlers that the service registers.
use micro_adb.Common.{ℕ, zero, suc, Option, none, some, ◌==◌, if◌then◌else◌}
use micro_adb.Packet.{Config}
use micro_adb.Os.{Os}
use micro_adb.Sync.{
  Ctx, Ret, failed, done, more, stuck, State, wait_cmd, wait_cmd_data, process_recv, process_list,
  process_send_file_hdr, process_send_file_data, process_send_sym_hdr, process_send_sym_data,
}
use micro_adb.Sync.Transfer.{
  state_reset, state_process_list, state_process_recv, state_process_send_header,
  state_process_send_file, state_process_send_sym,
}
use micro_adb.Sync.Command.{state_wait_cmd, state_wait_cmd_data}

module _ {W : Type 0} where
  -- Before the handlers: `svc->packet_ptr = p->data`.
  unfoldable pub rewind : Ctx W → Ctx W
  rewind s = record s { svc = record s.svc { packet_ptr = 0 } }

  -- `if (ret <= 0) state_reset(svc)`.
  unfoldable pub reset_unless_more : Os W → Ret × Ctx W → Ret × Ctx W
  reset_unless_more os (more, s) = (more, s)
  reset_unless_more os (stuck, s) = (stuck, s)
  reset_unless_more os (failed, s) = (failed, state_reset os s)
  reset_unless_more os (done, s) = (done, state_reset os s)

module _ {W : Type 0} (c : Config) (os : Os W) (retry : ℕ) where
  -- The switch of file_sync_on_write.
  unfoldable pub process_state : State → Ctx W → Ret × Ctx W
  process_state wait_cmd s = state_wait_cmd c os s
  process_state wait_cmd_data s = state_wait_cmd_data c os s
  process_state process_send_file_hdr s = state_process_send_header c s
  process_state process_send_sym_hdr s = state_process_send_header c s
  process_state process_send_file_data s = state_process_send_file c os retry s
  process_state process_send_sym_data s =
      if c.file_symlink then state_process_send_sym c os s else (failed, s)
  process_state process_recv s = (failed, s)
  process_state process_list s = (failed, s)

  -- One round of the loop.
  unfoldable pub write_round : Ctx W → Ret × Ctx W
  write_round s = reset_unless_more os (process_state s.state s)

  -- `while (p->msg.data_length > 0 && ret >= 0)`; `none` if the fuel runs out.
  unfoldable pub write_loop : ℕ → Ret → Ctx W → Option (Ret × Ctx W)
  write_loop fuel stuck s = some (stuck, s)
  write_loop fuel failed s = some (failed, s)
  write_loop zero ret s = if s.data_length == 0 then some (ret, s) else none
  write_loop (suc fuel) ret s =
      let next = write_round s in
      let rest = write_loop fuel next.0 next.1 in if s.data_length == 0 then some (ret, s) else rest

  -- `return ret >= 0 ? 0 : ret`.
  unfoldable pub close_ret : Ret → Ret
  close_ret more = done
  close_ret r = r

  unfoldable pub end_write : Option (Ret × Ctx W) → Option (Ret × Ctx W)
  end_write none = none
  end_write (some (r, s)) = some (close_ret r, s)

  unfoldable pub file_sync_on_write : ℕ → Ctx W → Option (Ret × Ctx W)
  file_sync_on_write fuel s = end_write (write_loop fuel done (rewind s))

module _ {W : Type 0} (c : Config) (os : Os W) where
  unfoldable pub ack_state : State → Ctx W → Ret × Ctx W
  ack_state process_recv s = state_process_recv c os s
  ack_state process_list s = state_process_list c os s
  ack_state process_send_file_hdr s = (done, s)
  ack_state process_send_sym_hdr s = (done, s)
  ack_state wait_cmd s = (done, s)
  ack_state st s = (failed, s)

  unfoldable pub end_ack : Ret × Ctx W → Ret × Ctx W
  end_ack (more, s) = (done, s)
  end_ack (stuck, s) = (stuck, s)
  end_ack (r, s) = (r, state_reset os s)

  unfoldable pub file_sync_on_ack : Ctx W → Ret × Ctx W
  file_sync_on_ack s = let s' = rewind s in end_ack (ack_state s'.state s')

  -- file_sync_on_close, which frees the service: what is left of it is the world.
  unfoldable pub file_sync_on_close : Ctx W → W
  file_sync_on_close s = (state_reset os s).world
