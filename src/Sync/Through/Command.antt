-- ===== src/Sync/Through/Command.antt =====
-- The same of the commands' first steps, and of the listing and the reading of files.
use micro_adb.Common.{
  ℕ, Bool, true, false, Option, none, some, List, [], ◌∷◌, ◌++◌, ◌==◌, if_elim, c_string,
}
use micro_adb.Packet.{Config}
use micro_adb.Os.{Os, Stat, Read, got, read_failed, Mkdir, made, exists, mkdir_failed}
use micro_adb.Os.Closed.{OsClosed}
use micro_adb.Sync.{Ctx, failed, done, more, stuck}
use micro_adb.Sync.Reply.{append_reply}
use micro_adb.Sync.Transfer.{
  set_world, set_state, put_dent, stat_entry, list_entry, state_process_list, recv_reply, read_recv,
  state_process_recv,
}
use micro_adb.Sync.Command.{
  make_dir, make_dirs, create_path_directories, stat_result, set_buff, state_init_stat, open_list,
  state_init_list, state_init_send_file, state_init_send_link, start_send, state_init_send,
  state_init_recv, run_cmd, accept_cmd, accept_name,
}
use micro_adb.Sync.Through.{
  Through, Through-if, Through-option, after, done_dent-Through, errno-Through, fail-Through,
  reply-Through, stay,
}

module _ {W : Type 0} (c : Config) (os : Os W) (Q : W → W → Type 0) (q : OsClosed os Q) where
  put_dent-Through : (stats name : List ℕ) (s : Ctx W) → Through Q s.world (put_dent c stats name s)
  unfolding put_dent
  put_dent-Through stats name s =
      Through-if Q _ (stay c os Q q stuck s) (reply-Through c os Q q more _ s)

  list_entry-Through : (name : List ℕ) (s : Ctx W) → Through Q s.world (list_entry c os name s)
  unfolding list_entry stat_entry
  list_entry-Through name s =
      Through-if Q _ (put_dent-Through _ name s)
        (after c os Q q (q.lstat _ s.world) (put_dent-Through _ name _))

  pub state_process_list-Through : (s : Ctx W) → Through Q s.world (state_process_list c os s)
  unfolding state_process_list set_world
  state_process_list-Through s =
      after c os Q q (q.readdir s.list_d s.world)
        (Through-option Q _ (done_dent-Through c os Q q done _) (λ name. list_entry-Through name _))

  recv_reply-Through : (a : Read) (s : Ctx W) → Through Q s.world (recv_reply c a s)
  unfolding recv_reply
  recv_reply-Through read_failed s = fail-Through c os Q q done _ s
  recv_reply-Through (got []) s = reply-Through c os Q q done _ s
  recv_reply-Through (got (b ∷ bs)) s = reply-Through c os Q q more _ s

  read_recv-Q : (n : ℕ) (fd : Option ℕ) (w : W) → Q w (read_recv os n fd w).1
  unfolding read_recv
  read_recv-Q n none w = q.same w
  read_recv-Q n (some fd) w = q.read fd n w

  pub state_process_recv-Through : (s : Ctx W) → Through Q s.world (state_process_recv c os s)
  unfolding state_process_recv set_world
  state_process_recv-Through s =
      after c os Q q (read_recv-Q _ s.recv_fd s.world) (recv_reply-Through _ _)

  mkdir-Q :
      (a : Mkdir) (w w' : W)
      → Q w w'
      → Q w (elim a as (λ x. Bool × W) [ mkdir_failed ↦ (false, w') | _ ↦ (true, w') ]).1
  mkdir-Q made w w' h = h
  mkdir-Q exists w w' h = h
  mkdir-Q mkdir_failed w w' h = h

  make_dir-Q : (prefix : List ℕ) (b : ℕ) (w : W) → Q w (make_dir os prefix b w).1
  unfolding make_dir
  make_dir-Q prefix b w =
      if_elim (λ (r : Bool × W). Q w r.1) (b == b'/')
        (mkdir-Q (os.mkdir prefix 0x1fd w).0 w _ (q.mkdir prefix 0x1fd w)) (q.same w)

  make_dirs-Q : (prefix bs : List ℕ) (w : W) → Q w (make_dirs os prefix bs w).1
  unfolding make_dirs
  make_dirs-Q prefix [] w = q.same w
  make_dirs-Q prefix (b ∷ bs) w = q.next (make_dir-Q prefix b w) (
      if_elim (λ (r : Bool × W). Q (make_dir os prefix b w).1 r.1) (make_dir os prefix b w).0
        (make_dirs-Q (prefix ++ b ∷ []) bs _) (q.same _))

  create_path-Q : (bs : List ℕ) (w : W) → Q w (create_path_directories os bs w).1
  unfolding create_path_directories
  create_path-Q [] w = q.same w
  create_path-Q (b ∷ bs) w =
      if_elim (λ (r : Bool × W). Q w r.1) (b == b'/') (make_dirs-Q (b ∷ []) bs w) (q.same w)

  stat_result-Through : (o : Option Stat) (s : Ctx W) → Through Q s.world (stat_result o s)
  unfolding stat_result set_state
  stat_result-Through none s = stay c os Q q done s
  stat_result-Through (some st) s = stay c os Q q more _

  state_init_stat-Through : (s : Ctx W) → Through Q s.world (state_init_stat c os s)
  unfolding state_init_stat append_reply set_world
  state_init_stat-Through s =
      after c os Q q (q.stat (c_string s.buff) s.world) (stat_result-Through _ _)

  open_list-Through :
      (name mem : List ℕ) (s : Ctx W) → Through Q s.world (open_list c os name mem s)
  unfolding open_list set_world
  open_list-Through name mem s = after c os Q q (q.opendir name s.world) (
      Through-option Q _ (after c os Q q (q.free _ _) (done_dent-Through c os Q q done _))
        (λ d. state_process_list-Through _))

  state_init_list-Through : (s : Ctx W) → Through Q s.world (state_init_list c os s)
  unfolding state_init_list set_world
  state_init_list-Through s = Through-if Q _ (done_dent-Through c os Q q done s) (
      after c os Q q (q.malloc c.path_max s.world)
        (Through-option Q _ (done_dent-Through c os Q q done _) (λ m. open_list-Through _ m _)))

  state_init_send_file-Through :
      (mode : ℕ) (s : Ctx W) → Through Q s.world (state_init_send_file c os mode s)
  unfolding state_init_send_file
  state_init_send_file-Through mode s =
      after c os Q q (q.open_write _ mode s.world)
        (Through-option Q _ (errno-Through c os Q q done _) (λ f. stay c os Q q more _))

  state_init_send_link-Through : (s : Ctx W) → Through Q s.world (state_init_send_link c os s)
  unfolding state_init_send_link set_world
  state_init_send_link-Through s = Through-if Q _ (fail-Through c os Q q done _ s) (
      after c os Q q (q.malloc _ s.world)
        (Through-option Q _ (fail-Through c os Q q done _ _) (λ m. stay c os Q q more _)))

  start_send-Through :
      (b : Bool) (mode : ℕ) (s : Ctx W) → Through Q s.world (start_send c os b mode s)
  unfolding start_send set_world
  start_send-Through b mode s =
      after c os Q q
        (q.next (q.unlink (c_string s.buff) s.world) (create_path-Q (c_string s.buff) _))
        (Through-if Q _
          (Through-if Q b (state_init_send_link-Through _) (state_init_send_file-Through mode _))
          (errno-Through c os Q q done _))

  state_init_send-Through : (s : Ctx W) → Through Q s.world (state_init_send c os s)
  unfolding state_init_send set_buff
  state_init_send-Through s =
      Through-option Q _ (start_send-Through false _ s) (λ i. start_send-Through _ _ _)

  state_init_recv-Through : (s : Ctx W) → Through Q s.world (state_init_recv c os s)
  unfolding state_init_recv
  state_init_recv-Through s =
      after c os Q q (q.open_read _ s.world)
        (Through-option Q _ (fail-Through c os Q q done _ _) (λ f. state_process_recv-Through _))

  run_cmd-Through : (s : Ctx W) → Through Q s.world (run_cmd c os s)
  unfolding run_cmd
  run_cmd-Through s = Through-if Q _ (state_init_stat-Through s) (
      Through-if Q _ (state_init_list-Through s) (
        Through-if Q _ (state_init_send-Through s) (
          Through-if Q _ (state_init_recv-Through s)
            (Through-if Q _ (stay c os Q q done s) (stay c os Q q failed s)))))

  pub accept_cmd-Through : (s : Ctx W) → Through Q s.world (accept_cmd c os s)
  unfolding accept_cmd
  accept_cmd-Through s =
      Through-if Q _ (stay c os Q q failed s)
        (Through-if Q _ (stay c os Q q failed s) (stay c os Q q more _))

  pub accept_name-Through : (s : Ctx W) → Through Q s.world (accept_name c os s)
  unfolding accept_name set_buff
  accept_name-Through s = Through-if Q _ (stay c os Q q failed s) (run_cmd-Through _)
