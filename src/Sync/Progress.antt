-- ===== src/Sync/Progress.antt =====
-- Each round of file_sync_on_write keeps the invariant and makes progress, so the loop ends.
use micro_adb.Common.{
  ℕ, zero, suc, ◌+◌, ◌*◌, ◌≤◌, ◌<◌, ◌≡◌, ◌≢◌, inl, inr, refl, Bool, true, false, Option, none, some,
  arith, length, if◌then◌else◌, ◌==◌,
}
use micro_adb.Packet.{Config}
use micro_adb.Os.{Os}
use micro_adb.Sync.{
  Ctx, Ret, failed, done, more, stuck, State, wait_cmd, wait_cmd_data, process_recv, process_list,
  process_send_file_hdr, process_send_file_data, process_send_sym_hdr, process_send_sym_data,
}
use micro_adb.Sync.Invariant.{weight, measure, Phase, Inv, Idle, read_from_packet-Reads}
use micro_adb.Sync.Transfer.{
  state_reset, state_process_send_header, state_process_send_file, state_process_send_sym,
}
use micro_adb.Sync.Command.{state_wait_cmd, state_wait_cmd_data}
use micro_adb.Sync.Service.{
  reset_unless_more, process_state, write_round, write_loop, close_ret, end_write,
  file_sync_on_write, rewind,
}
use micro_adb.Sync.Rounds.{
  Rounds, Rounds-if, Rounds-failed, wait_cmd-Rounds, wait_cmd_data-Rounds, header-Rounds,
  file-Rounds, sym-Rounds,
}

pub weight-le : (st : State) → weight st ≤ 1
weight-le wait_cmd = omega arith
weight-le st = omega arith

module _ {W : Type 0} (c : Config) (os : Os W) (retry : ℕ) where
  -- Every state of the switch.
  process_state-Rounds :
      (st : State) (s : Ctx W)
      → s.state ≡ st
      → Inv c s
      → 0 < s.data_length
      → Rounds c (measure s) (process_state c os retry st s)
  unfolding process_state state_wait_cmd state_wait_cmd_data state_process_send_header
      state_process_send_file state_process_send_sym
  process_state-Rounds wait_cmd s e v h =
      wait_cmd-Rounds c os s _ _ v e h (read_from_packet-Reads c 8 s v.in_packet)
  process_state-Rounds wait_cmd_data s e v h =
      wait_cmd_data-Rounds c os s _ _ v e h (read_from_packet-Reads c s.namelen s v.in_packet)
  process_state-Rounds process_send_file_hdr s e v h =
      header-Rounds c os s _ _ v (inl e) h (read_from_packet-Reads c 8 s v.in_packet)
  process_state-Rounds process_send_sym_hdr s e v h =
      header-Rounds c os s _ _ v (inr e) h (read_from_packet-Reads c 8 s v.in_packet)
  process_state-Rounds process_send_file_data s e v h = file-Rounds c os s _ _ v e h
  process_state-Rounds process_send_sym_data s e v h =
      Rounds-if c _ (sym-Rounds c os s _ _ v e h (read_from_packet-Reads c s.namelen s v.in_packet))
        (Rounds-failed c _ s v.buff_size v.in_packet)
  process_state-Rounds process_recv s e v h = Rounds-failed c _ s v.buff_size v.in_packet
  process_state-Rounds process_list s e v h = Rounds-failed c _ s v.buff_size v.in_packet

  -- After the reset that ends a transfer.
  pub record After (m : ℕ) (r : Ret × Ctx W) : Type 0 where
    pub buff_kept : length r.1.buff ≡ c.path_max
    pub in_packet : r.1.packet_ptr + r.1.data_length ≤ length r.1.payload
    pub going_on :
        r.0 ≢ stuck → Phase c r.1.state r.1.size r.1.namelen × ((r.0 ≢ failed) → measure r.1 < m)

  reset-After : (m : ℕ) (r : Ret × Ctx W) → Rounds c m r → After m (reset_unless_more os r)
  unfolding reset_unless_more state_reset
  reset-After m (more, s) k = ground arith
  reset-After m (done, s) k = ground arith
  reset-After m (failed, s) k = ground arith
  reset-After m (stuck, s) k = ground arith

  -- From the invariant and with data left in the packet, a round of the loop keeps the buffer's size
  -- and what is left of the packet inside it; unless the round is stuck the phase is that of the new
  -- state, and unless it failed too the measure is less.
  pub write_round-After :
      (s : Ctx W) → Inv c s → 0 < s.data_length → After (measure s) (write_round c os retry s)
  unfolding write_round
  write_round-After s v h = reset-After (measure s) _ (process_state-Rounds s.state s refl v h)

  -- What the loop needs of a result to go on from it.
  abbrev Ready : ℕ → Ret → Ctx W → Type 0
  Ready fuel r s = r ≢ stuck → Inv c s × (r ≢ failed → measure s < fuel)

  next-Ready :
      (fuel : ℕ) (s : Ctx W)
      → Inv c s
      → (s.data_length == 0) ≡ false
      → measure s < suc fuel
      → Ready fuel (write_round c os retry s).0 (write_round c os retry s).1
  next-Ready fuel s v e h n =
      let k = write_round-After s v (ground arith) in
      (
        record {
          path_room = v.path_room;
          buff_size = k.buff_kept;
          in_packet = k.in_packet;
          phase = (k.going_on n).0;
        },
        λ f. omega (arith, (k.going_on n).1 f),
      )

  -- The loop has returned, and unless it got stuck the invariant holds.
  abbrev Returns : Option (Ret × Ctx W) → Type 0
  Returns none = ⊥
  Returns (some (r, s)) = r ≢ stuck → Inv c s

  Returns-if :
      (b : Bool) (x y : Option (Ret × Ctx W))
      → Returns x
      → (b ≡ false → Returns y)
      → Returns (if b then x else y)
  Returns-if true x y h k = h
  Returns-if false x y h k = k refl

  write_loop-Returns :
      (fuel : ℕ) (r : Ret) (s : Ctx W) → Ready fuel r s → Returns (write_loop c os retry fuel r s)
  unfolding write_loop
  write_loop-Returns fuel stuck s k = λ n. absurd (n refl)
  write_loop-Returns fuel failed s k = λ n. (k n).0
  write_loop-Returns zero done s k = let h = (k (λ e. cc)).1 (λ e. cc) in absurd (omega arith)
  write_loop-Returns zero more s k = let h = (k (λ e. cc)).1 (λ e. cc) in absurd (omega arith)
  write_loop-Returns (suc fuel) done s k =
      let (v, h) = k (λ e. cc) in
      Returns-if _ _ _ (λ n. v)
        (λ z. write_loop-Returns fuel _ _ (next-Ready fuel s v z (h (λ e. cc))))
  write_loop-Returns (suc fuel) more s k =
      let (v, h) = k (λ e. cc) in
      Returns-if _ _ _ (λ n. v)
        (λ z. write_loop-Returns fuel _ _ (next-Ready fuel s v z (h (λ e. cc))))

  end_write-Returns :
      (o : Option (Ret × Ctx W))
      → Returns o
      → (out : Ret × Ctx W) × (end_write c os retry o ≡ some out) × (out.0 ≢ stuck → Idle c out.1)
  unfolding end_write close_ret
  end_write-Returns none k = absurd k
  end_write-Returns (some (failed, s)) k = ((failed, s), refl, λ n. ground (arith, k n))
  end_write-Returns (some (done, s)) k = ((done, s), refl, λ n. ground (arith, k n))
  end_write-Returns (some (more, s)) k = ((done, s), refl, λ n. ground (arith, k (λ e. cc)))
  end_write-Returns (some (stuck, s)) k = ((stuck, s), refl, λ n. absurd (n refl))

  -- file_sync_on_write returns: for a service in phase whose buffer holds its path_max bytes, 8 at
  -- least, and a packet whose data lies inside its payload, fuel of twice the packet's data and two
  -- is enough, and unless a round got stuck the service is in phase with its buffer again, ready for
  -- the next packet.
  pub file_sync_on_write_returns :
      (s : Ctx W)
      → Idle c s
      → s.data_length ≤ length s.payload
      → (out : Ret × Ctx W) × (file_sync_on_write c os retry (2 * s.data_length + 2) s ≡ some out)
        × (out.0 ≢ stuck → Idle c out.1)
  unfolding file_sync_on_write rewind
  file_sync_on_write_returns s v h = end_write-Returns _ (
      write_loop-Returns (2 * s.data_length + 2) done _
        (λ n. (ground arith, λ f. ground (arith, weight-le s.state))))
