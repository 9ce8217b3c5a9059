-- ===== src/Sync/Kept.antt =====
-- What the commands and the replies leave alone.
use micro_adb.Common.{
  ℕ, zero, suc, ◌≤◌, ◌<◌, ◌≡◌, ◌≢◌, inl, inr, refl, Bool, true, false, Option, none, some, List, [],
  ◌∷◌, arith, length, write_at, length-write_at, length-write_at_max, Option-cases, if◌then◌else◌,
  on_option, c_string,
}
use micro_adb.Packet.{Config}
use micro_adb.Os.{Os, Stat, Read, got, read_failed}
use micro_adb.Sync.{Ctx, Ret, failed, done, more, stuck}
use micro_adb.Sync.Invariant.{weight}
use micro_adb.Sync.Reply.{
  append_reply, prepare_fail_message, prepare_fail_errno, prepare_okay_message, prepare_done_dent,
}
use micro_adb.Sync.Transfer.{
  set_world, set_state, put_dent, stat_entry, list_entry, state_process_list, recv_reply,
  state_process_recv,
}
use micro_adb.Sync.Command.{
  stat_result, state_init_stat, open_list, state_init_list, state_init_send_file,
  state_init_send_link, start_send, state_init_send, state_init_recv, run_cmd, set_buff, last_comma,
}

module _ {W : Type 0} where
  -- The reading position, what is left of the packet, the read size and the buffer's size are the
  -- same, and the payload is no shorter.
  pub record Kept (s s' : Ctx W) : Type 0 where
    pub ptr : s'.packet_ptr ≡ s.packet_ptr
    pub left : s'.data_length ≡ s.data_length
    pub read : s'.size ≡ s.size
    pub buffer : length s'.buff ≡ length s.buff
    pub grown : length s.payload ≤ length s'.payload

  -- So with a result; and if there is more to do, the new state is one that must take bytes.
  pub record Runs (s : Ctx W) (r : Ret × Ctx W) : Type 0 where
    pub kept : Kept s r.1
    pub taking : r.0 ≡ more → weight r.1.state ≡ 0

  pub append_reply-Kept : (bs : List ℕ) (s : Ctx W) → Kept s (append_reply bs s)
  unfolding append_reply
  append_reply-Kept bs s = ground (arith, length-write_at_max s.write_len bs s.payload)

  pub Kept-trans : {s t u : Ctx W} → Kept s t → Kept t u → Kept s u
  Kept-trans h k = omega arith

  pub fail-Kept :
      (c : Config) (reason : List ℕ) (s : Ctx W) → Kept s (prepare_fail_message c reason s)
  unfolding prepare_fail_message
  fail-Kept c reason s = append_reply-Kept _ s

  pub okay-Kept : (s : Ctx W) → Kept s (prepare_okay_message s)
  unfolding prepare_okay_message
  okay-Kept s = append_reply-Kept _ s

  pub errno-Kept : (c : Config) (os : Os W) (s : Ctx W) → Kept s (prepare_fail_errno c os s)
  unfolding prepare_fail_errno
  errno-Kept c os s = fail-Kept c _ s

  pub done_dent-Kept : (s : Ctx W) → Kept s (prepare_done_dent s)
  unfolding prepare_done_dent
  done_dent-Kept s = append_reply-Kept _ s

  pub world-Kept : (w : W) (s : Ctx W) → Kept s (set_world w s)
  unfolding set_world
  world-Kept w s = omega arith

  Runs-trans : {s t : Ctx W} {r : Ret × Ctx W} → Kept s t → Runs t r → Runs s r
  Runs-trans h k = omega arith

  -- A result other than `more`.
  Runs-stop : (s t : Ctx W) (r : Ret) → r ≢ more → Kept s t → Runs s (r, t)
  Runs-stop s t r n k = record { kept = k; taking = λ e. absurd (n e) }

  Runs-if :
      (b : Bool) {s : Ctx W} {x y : Ret × Ctx W} → Runs s x → Runs s y → Runs s (if b then x else y)
  Runs-if true h k = h
  Runs-if false h k = k

  Runs-option :
      {A : Type 0} (o : Option A) {s : Ctx W} {x : Ret × Ctx W} {f : A → Ret × Ctx W}
      → Runs s x
      → ((a : A) → Runs s (f a))
      → Runs s (on_option o x f)
  Runs-option none h k = h
  Runs-option (some a) h k = k a

  Runs-stuck : (s : Ctx W) → Runs s (stuck, s)
  Runs-stuck s = record { kept = omega arith; taking = λ e. cc }

  Runs-failed : (s : Ctx W) → Runs s (failed, s)
  Runs-failed s = record { kept = omega arith; taking = λ e. cc }

  Runs-done : {s t : Ctx W} → Kept s t → Runs s (done, t)
  Runs-done k = record { kept = k; taking = λ e. cc }

  Runs-more : {s t : Ctx W} → Kept s t → weight t.state ≡ 0 → Runs s (more, t)
  Runs-more k h = record { kept = k; taking = λ e. h }

  Runs-reply : (bs : List ℕ) (s : Ctx W) → weight s.state ≡ 0 → Runs s (more, append_reply bs s)
  unfolding append_reply
  Runs-reply bs s h = Runs-more (append_reply-Kept bs s) h

length-c_string : (bs : List ℕ) → length (c_string bs) ≤ length bs
unfolding c_string
length-c_string [] = omega arith
length-c_string (b ∷ bs) = ground (arith, length-c_string bs)

last_comma-lt : (bs : List ℕ) (i : ℕ) → last_comma bs ≡ some i → i < length bs
unfolding last_comma
last_comma-lt [] i e = cc
last_comma-lt (b ∷ bs) zero e = omega arith
last_comma-lt (b ∷ bs) (suc i) e = ground (arith, last_comma-lt bs i)

module _ {W : Type 0} (c : Config) where
  put_dent-Runs :
      (stats name : List ℕ) (s : Ctx W) → weight s.state ≡ 0 → Runs s (put_dent c stats name s)
  unfolding put_dent
  put_dent-Runs stats name s h = Runs-if _ (Runs-stuck s) (Runs-reply _ s h)

  recv_reply-Runs : (r : Read) (s : Ctx W) → weight s.state ≡ 0 → Runs s (recv_reply c r s)
  unfolding recv_reply
  recv_reply-Runs read_failed s h = Runs-done (fail-Kept c _ s)
  recv_reply-Runs (got []) s h = Runs-done (append_reply-Kept _ s)
  recv_reply-Runs (got (b ∷ bs)) s h = Runs-reply _ s h

module _ {W : Type 0} (c : Config) (os : Os W) where
  list_entry-Runs :
      (name : List ℕ) (s : Ctx W) → weight s.state ≡ 0 → Runs s (list_entry c os name s)
  unfolding list_entry stat_entry
  list_entry-Runs name s h =
      Runs-if _ (put_dent-Runs c _ name s h) (Runs-trans (omega arith) (put_dent-Runs c _ name _ h))

  state_process_list-Runs : (s : Ctx W) → weight s.state ≡ 0 → Runs s (state_process_list c os s)
  unfolding state_process_list set_world
  state_process_list-Runs s h =
      Runs-option _ (Runs-done (Kept-trans (world-Kept _ s) (done_dent-Kept _)))
        (λ name. Runs-trans (world-Kept _ s) (list_entry-Runs name _ h))

  state_process_recv-Runs : (s : Ctx W) → weight s.state ≡ 0 → Runs s (state_process_recv c os s)
  unfolding state_process_recv set_world
  state_process_recv-Runs s h = Runs-trans (world-Kept _ s) (recv_reply-Runs c _ _ h)

  stat_result-Runs : (o : Option Stat) (s : Ctx W) → Runs s (stat_result o s)
  unfolding stat_result set_state
  stat_result-Runs none s = Runs-done (omega arith)
  stat_result-Runs (some st) s = Runs-more (omega arith) refl

  state_init_stat-Runs : (s : Ctx W) → Runs s (state_init_stat c os s)
  unfolding state_init_stat
  state_init_stat-Runs s =
      Runs-trans (Kept-trans (world-Kept _ s) (append_reply-Kept _ _)) (stat_result-Runs _ _)

  open_list-Runs : (name mem : List ℕ) (s : Ctx W) → Runs s (open_list c os name mem s)
  unfolding open_list
  open_list-Runs name mem s =
      Runs-option _ (Runs-done (Kept-trans (world-Kept _ s) (done_dent-Kept _)))
        (λ d. Runs-trans (omega arith) (state_process_list-Runs _ refl))

  state_init_list-Runs : (s : Ctx W) → Runs s (state_init_list c os s)
  unfolding state_init_list
  state_init_list-Runs s = Runs-if _ (Runs-done (done_dent-Kept s)) (
      Runs-option _ (Runs-done (Kept-trans (world-Kept _ s) (done_dent-Kept _)))
        (λ m. Runs-trans (world-Kept _ s) (open_list-Runs _ m _)))

  state_init_send_file-Runs : (mode : ℕ) (s : Ctx W) → Runs s (state_init_send_file c os mode s)
  unfolding state_init_send_file
  state_init_send_file-Runs mode s =
      Runs-option _ (Runs-done (Kept-trans (omega arith) (errno-Kept c os _)))
        (λ f. Runs-more (omega arith) refl)

  state_init_send_link-Runs : (s : Ctx W) → Runs s (state_init_send_link c os s)
  unfolding state_init_send_link
  state_init_send_link-Runs s = Runs-if _ (Runs-done (fail-Kept c _ s)) (
      Runs-option _ (Runs-done (Kept-trans (world-Kept _ s) (fail-Kept c _ _)))
        (λ m. Runs-more (omega arith) refl))

  start_send-Runs : (b : Bool) (mode : ℕ) (s : Ctx W) → Runs s (start_send c os b mode s)
  unfolding start_send
  start_send-Runs b mode s =
      Runs-if _
        (Runs-trans (world-Kept _ s)
          (Runs-if b (state_init_send_link-Runs _) (state_init_send_file-Runs mode _)))
        (Runs-done (Kept-trans (world-Kept _ s) (errno-Kept c os _)))

  pub cut-Kept :
      (i : ℕ) (s : Ctx W) → i < length s.buff → Kept s (set_buff (write_at i (0 ∷ []) s.buff) s)
  unfolding set_buff
  cut-Kept i s h = omega (arith, length-write_at i (0 ∷ []) s.buff (omega arith))

  state_init_send-Runs : (s : Ctx W) → Runs s (state_init_send c os s)
  unfolding state_init_send
  state_init_send-Runs s = elim (Option-cases (last_comma (c_string s.buff))) [
    | inl e ↦ rw (e, state_init_send) (start_send-Runs false _ s)
    | inr (i, e) ↦
        let inside = last_comma-lt (c_string s.buff) i e in
        rw (e, state_init_send)
          (Runs-trans (cut-Kept i s (omega (arith, length-c_string s.buff)))
            (start_send-Runs _ _ _))
  ]

  state_init_recv-Runs : (s : Ctx W) → Runs s (state_init_recv c os s)
  unfolding state_init_recv
  state_init_recv-Runs s =
      Runs-option _ (Runs-done (Kept-trans (omega arith) (fail-Kept c _ _)))
        (λ f. Runs-trans (omega arith) (state_process_recv-Runs _ refl))

  pub run_cmd-Runs : (s : Ctx W) → Runs s (run_cmd c os s)
  unfolding run_cmd
  run_cmd-Runs s = Runs-if _ (state_init_stat-Runs s) (
      Runs-if _ (state_init_list-Runs s) (
        Runs-if _ (state_init_send-Runs s) (
          Runs-if _ (state_init_recv-Runs s)
            (Runs-if _ (Runs-done (omega arith)) (Runs-failed s)))))
