-- ===== src/Sync/Held/Command.antt =====
-- The same of the commands' first steps: what a command opens is what its state says.
use micro_adb.Common.{
  ℕ, ◌+◌, ◌≡◌, refl, ap, ◌∙◌, Bool, true, false, Option, none, some, List, [], ◌∷◌, ◌++◌, ◌==◌,
  if_elim, arith, c_string, length,
}
use micro_adb.Packet.{Config}
use micro_adb.Os.{Os, Stat, Mkdir, made, exists, mkdir_failed}
use micro_adb.Sync.{Ctx, failed, done, more, wait_cmd, wait_cmd_data}
use micro_adb.Sync.Reply.{append_reply}
use micro_adb.Sync.Transfer.{set_world, set_state}
use micro_adb.Sync.Command.{
  last_comma, make_dir, make_dirs, create_path_directories, stat_result, set_buff, state_init_stat,
  open_list, state_init_list, state_init_send_file, state_init_send_link, start_send,
  state_init_send, state_init_recv, run_cmd, accept_cmd, accept_name,
}
use micro_adb.Sync.Held.{
  Tally, gained, holds, Balanced, Held, Held-if, Held-option, stay, fail-Held, errno-Held,
  done_dent-Held, free-count, state_process_list-Held, state_process_recv-Held,
}

module _ {W : Type 0} (c : Config) {os : Os W} (t : Tally os) where
  mkdir-count :
      (a : Mkdir) (w w' : W)
      → t.count w' ≡ t.count w
      → t.count (elim a as (λ x. Bool × W) [ mkdir_failed ↦ (false, w') | _ ↦ (true, w') ]).1
        ≡ t.count w
  mkdir-count made w w' h = h
  mkdir-count exists w w' h = h
  mkdir-count mkdir_failed w w' h = h

  make_dir-count :
      (prefix : List ℕ) (b : ℕ) (w : W) → t.count (make_dir os prefix b w).1 ≡ t.count w
  unfolding make_dir
  make_dir-count prefix b w =
      if_elim (λ (r : Bool × W). t.count r.1 ≡ t.count w) (b == b'/')
        (mkdir-count (os.mkdir prefix 0x1fd w).0 w _ (t.mkdir prefix 0x1fd w)) refl

  make_dirs-count : (prefix bs : List ℕ) (w : W) → t.count (make_dirs os prefix bs w).1 ≡ t.count w
  unfolding make_dirs
  make_dirs-count prefix [] w = refl
  make_dirs-count prefix (b ∷ bs) w =
      let h = make_dir-count prefix b w in
      if_elim (λ (r : Bool × W). t.count r.1 ≡ t.count w) (make_dir os prefix b w).0
        (make_dirs-count (prefix ++ b ∷ []) bs _ ∙ h) h

  create_path-count :
      (bs : List ℕ) (w : W) → t.count (create_path_directories os bs w).1 ≡ t.count w
  unfolding create_path_directories
  create_path-count [] w = refl
  create_path-count (b ∷ bs) w =
      if_elim (λ (r : Bool × W). t.count r.1 ≡ t.count w) (b == b'/')
        (make_dirs-count (b ∷ []) bs w) refl

  -- What a call that may fail leaves, by its result.
  got_none : {A : Type 0} (o : Option A) (k m n : ℕ) → k ≡ m + gained o n → o ≡ none → k ≡ m
  got_none none k m n h z = omega (arith, h)
  got_none (some a) k m n h z = cc

  got_some :
      {A : Type 0} (o : Option A) (a : A) (k m n : ℕ) → k ≡ m + gained o n → o ≡ some a → k ≡ m + n
  got_some none a k m n h z = cc
  got_some (some b) a k m n h z = h

  -- A command begins with nothing held.
  record Begins (n : ℕ) (s : Ctx W) : Type 0 where
    state : s.state ≡ wait_cmd_data
    none_held : t.count s.world ≡ n

  nothing_held :
      (n : ℕ) (s : Ctx W) (recv_fd send_fd : Option ℕ) (w : W)
      → s.state ≡ wait_cmd_data
      → t.count w ≡ n
      → t.count w ≡ n + holds t s.state recv_fd send_fd
  nothing_held n s recv_fd send_fd w z h = omega (arith, h, ap (λ st. holds t st recv_fd send_fd) z)

  Begins-Balanced : (n : ℕ) (s : Ctx W) → Begins n s → Balanced t n s
  Begins-Balanced n s h =
      omega (arith, h.none_held, ap (λ st. holds t st s.recv_fd s.send_file_fd) h.state)

  Begins-world :
      (n : ℕ) (s : Ctx W) (w : W)
      → t.count w ≡ t.count s.world
      → Begins n s
      → Begins n (set_world w s)
  unfolding set_world
  Begins-world n s w z h = record { state = h.state; none_held = z ∙ h.none_held }

  stat_result-Held : (n : ℕ) (o : Option Stat) (s : Ctx W) → Begins n s → Held t n (stat_result o s)
  unfolding stat_result set_state
  stat_result-Held n none s h = stay t n done s (Begins-Balanced n s h)
  stat_result-Held n (some st) s h = stay t n more _ (omega (arith, h.none_held))

  state_init_stat-Held : (n : ℕ) (s : Ctx W) → Begins n s → Held t n (state_init_stat c os s)
  unfolding state_init_stat append_reply set_world
  state_init_stat-Held n s h =
      stat_result-Held n _ _
        (record { state = h.state; none_held = t.stat (c_string s.buff) s.world ∙ h.none_held })

  open_list-Held :
      (n : ℕ) (name mem : List ℕ) (s : Ctx W)
      → s.state ≡ wait_cmd_data
      → t.count s.world ≡ n + t.of_block
      → Held t n (open_list c os name mem s)
  unfolding open_list set_world
  open_list-Held n name mem s z h =
      let o = (os.opendir name s.world).0 in
      let k = t.opendir name s.world in
      Held-option t n o
        (λ y. done_dent-Held t n done _ (
          nothing_held n s s.recv_fd s.send_file_fd _ z
            (free-count t n _ _ (got_none o _ _ _ k y ∙ h))))
        (λ d y. state_process_list-Held c t n _ (omega (arith, got_some o d _ _ _ k y, h)))

  state_init_list-Held : (n : ℕ) (s : Ctx W) → Begins n s → Held t n (state_init_list c os s)
  unfolding state_init_list set_world
  state_init_list-Held n s h =
      let o = (os.malloc c.path_max s.world).0 in
      let k = t.malloc c.path_max s.world in
      Held-if t n _ (done_dent-Held t n done s (Begins-Balanced n s h)) (
        Held-option t n o
          (λ y.
            done_dent-Held t n done _
              (Begins-Balanced n _ (Begins-world n s _ (got_none o _ _ _ k y) h)))
          (λ m y.
            open_list-Held n _ m (set_world (os.malloc c.path_max s.world).1 s) h.state
              (omega (arith, got_some o m _ _ _ k y, h.none_held))))

  state_init_send_file-Held :
      (n mode : ℕ) (s : Ctx W) → Begins n s → Held t n (state_init_send_file c os mode s)
  unfolding state_init_send_file
  state_init_send_file-Held n mode s h =
      let o = (os.open_write (c_string s.buff) mode s.world).0 in
      let k = t.open_write (c_string s.buff) mode s.world in
      Held-option t n o
        (λ y.
          errno-Held t n done c _
            (nothing_held n s s.recv_fd none _ h.state (got_none o _ _ _ k y ∙ h.none_held)))
        (λ f y. stay t n more _ (omega (arith, got_some o f _ _ _ k y, h.none_held)))

  state_init_send_link-Held :
      (n : ℕ) (s : Ctx W) → Begins n s → Held t n (state_init_send_link c os s)
  unfolding state_init_send_link
  state_init_send_link-Held n s h =
      let size = length (c_string s.buff) + 1 in
      let o = (os.malloc size s.world).0 in
      let k = t.malloc size s.world in
      Held-if t n _ (fail-Held t n done c _ s (Begins-Balanced n s h)) (
        Held-option t n o
          (λ y.
            fail-Held t n done c _ _
              (Begins-Balanced n _ (Begins-world n s _ (got_none o _ _ _ k y) h)))
          (λ m y. stay t n more _ (omega (arith, got_some o m _ _ _ k y, h.none_held))))

  start_send-Held :
      (n : ℕ) (b : Bool) (mode : ℕ) (s : Ctx W) → Begins n s → Held t n (start_send c os b mode s)
  unfolding start_send
  start_send-Held n b mode s h =
      let name = c_string s.buff in
      let k =
        Begins-world n s _ (create_path-count name (os.unlink name s.world) ∙ t.unlink name s.world)
          h in
      Held-if t n _
        (Held-if t n b (state_init_send_link-Held n _ k) (state_init_send_file-Held n mode _ k))
        (errno-Held t n done c _ (Begins-Balanced n _ k))

  state_init_send-Held : (n : ℕ) (s : Ctx W) → Begins n s → Held t n (state_init_send c os s)
  unfolding state_init_send set_buff
  state_init_send-Held n s h =
      Held-option t n (last_comma (c_string s.buff)) (λ _. start_send-Held n false _ s h)
        (λ i _. start_send-Held n _ _ _ (record { state = h.state; none_held = h.none_held }))

  state_init_recv-Held : (n : ℕ) (s : Ctx W) → Begins n s → Held t n (state_init_recv c os s)
  unfolding state_init_recv
  state_init_recv-Held n s h =
      let o = (os.open_read (c_string s.buff) s.world).0 in
      let k = t.open_read (c_string s.buff) s.world in
      Held-option t n o
        (λ y.
          fail-Held t n done c _ _
            (nothing_held n s none s.send_file_fd _ h.state (got_none o _ _ _ k y ∙ h.none_held)))
        (λ f y.
          state_process_recv-Held c t n _ (omega (arith, got_some o f _ _ _ k y, h.none_held)))

  run_cmd-Held : (n : ℕ) (s : Ctx W) → Begins n s → Held t n (run_cmd c os s)
  unfolding run_cmd
  run_cmd-Held n s h =
      let b = Begins-Balanced n s h in
      Held-if t n _ (state_init_stat-Held n s h) (
        Held-if t n _ (state_init_list-Held n s h) (
          Held-if t n _ (state_init_send-Held n s h) (
            Held-if t n _ (state_init_recv-Held n s h)
              (Held-if t n _ (stay t n done s b) (stay t n failed s b)))))

  pub accept_cmd-Held :
      (n : ℕ) (s : Ctx W) → s.state ≡ wait_cmd → Balanced t n s → Held t n (accept_cmd c os s)
  unfolding accept_cmd
  accept_cmd-Held n s z h =
      let z' = ap (λ st. holds t st s.recv_fd s.send_file_fd) z in
      Held-if t n _ (stay t n failed s h)
        (Held-if t n _ (stay t n failed s h) (stay t n more _ (omega (arith, h, z'))))

  pub accept_name-Held :
      (n : ℕ) (s : Ctx W) → s.state ≡ wait_cmd_data → Balanced t n s → Held t n (accept_name c os s)
  unfolding accept_name set_buff
  accept_name-Held n s z h =
      let z' = ap (λ st. holds t st s.recv_fd s.send_file_fd) z in
      Held-if t n _ (stay t n failed s h)
        (run_cmd-Held n _ (record { state = z; none_held = omega (arith, h, z') }))
