-- ===== src/Client/Walk/Open.antt =====
-- The constructors of the services, under a relation.
use micro_adb.Common.{
  ℕ, List, Option, Bool, not, ◌&&◌, ◌==◌, if◌then◌else◌, if_elim, on_option_elim, length, c_string,
  codes, drop,
}
use micro_adb.Packet.{Packet}
use micro_adb.Uv.{socket, pipe, process}
use micro_adb.Sync.{Afs}
use micro_adb.Client.{Env, Service}
use micro_adb.Client.Open.{
  starts_with, file_sync_service, socket_connect, tcp_forward_service, exit_free_argv,
  exit_close_fd0, exit_close_fd1, shell_argv, argv_size, start_shell, open_terminal, shell_service,
  make_service,
}
use micro_adb.Client.Walk.{Walk}
use micro_adb.Client.Walk.Kick.{start_reading-Quiet}

module _ {W : Type 0} (e : Env W) (k : Walk e) where
  -- A service, or none, in a world that the relation leads to.
  abbrev Made : W → Option Service × W → Type 0
  Made w r = k.Quiet w r.1

  abbrev pub Answered : W → Option Service × Packet × W → Type 0
  Answered w r = k.Quiet w r.2

  file_sync_service-Made : (w : W) → Made w (file_sync_service e w)
  unfolding file_sync_service
  file_sync_service-Made w =
      on_option_elim (Made w) (e.uv.malloc_afs w).0 (k.uv_quiet.malloc_afs w)
        (λ (m : ℕ × Afs). k.uv_quiet.malloc_afs w)

  socket_connect-Quiet : (addr port : ℕ) (w : W) → k.Quiet w (socket_connect e addr port w).1
  unfolding socket_connect
  socket_connect-Quiet addr port w =
      if_elim (λ (r : Bool × W). k.Quiet w r.1) (not (e.uv.ip4_addr port)) (k.os_quiet.same w)
        (if_elim (λ (r : Bool × W). k.Quiet w r.1) _
          (k.os_quiet.next (k.uv_quiet.tcp_init (socket addr) w)
            (k.uv_quiet.tcp_connect (socket addr) port _))
          (k.uv_quiet.tcp_init (socket addr) w))

  tcp_forward_service-Answered :
      (name : List ℕ) (p : Packet) (w : W) → Answered w (tcp_forward_service e name p w)
  unfolding tcp_forward_service
  tcp_forward_service-Answered name p w =
      let q = k.uv_quiet.malloc_service w in
      if_elim (Answered w) _ (k.os_quiet.same w) (
        on_option_elim (Answered w) (e.uv.malloc_service w).0 q (λ addr.
          let r = k.os_quiet.next q (socket_connect-Quiet addr _ _) in
          if_elim (Answered w) _ r (k.os_quiet.next r (k.uv_quiet.free_service addr _))))

  exit_free_argv-Made : (addr : ℕ) (argv : List ℕ) (w : W) → Made w (exit_free_argv e addr argv w)
  unfolding exit_free_argv
  exit_free_argv-Made addr argv w =
      k.os_quiet.next (k.os_quiet.free argv w) (k.uv_quiet.free_service addr _)

  exit_close_fd0-Made :
      (addr : ℕ) (argv : List ℕ) (fd0 : ℕ) (w : W) → Made w (exit_close_fd0 e addr argv fd0 w)
  unfolding exit_close_fd0
  exit_close_fd0-Made addr argv fd0 w =
      k.os_quiet.next (k.uv_quiet.close_fd fd0 w) (exit_free_argv-Made addr argv _)

  exit_close_fd1-Made :
      (addr : ℕ) (argv : List ℕ) (fd0 fd1 : ℕ) (w : W)
      → Made w (exit_close_fd1 e addr argv fd0 fd1 w)
  unfolding exit_close_fd1
  exit_close_fd1-Made addr argv fd0 fd1 w =
      k.os_quiet.next (k.uv_quiet.close_fd fd1 w) (exit_close_fd0-Made addr argv fd0 _)

  start_shell-Made :
      (addr : ℕ) (argv : List ℕ) (fd0 fd1 : ℕ) (cmd : List ℕ) (w : W)
      → Made w (start_shell e addr argv fd0 fd1 cmd w)
  unfolding start_shell
  start_shell-Made addr argv fd0 fd1 cmd w =
      let w₁ = (if length cmd == 0 then w else e.uv.set_raw fd1 w) in
      let (inited, w₂) = e.uv.pipe_init (pipe addr) w₁ in
      let (opened, w₃) = e.uv.pipe_open (pipe addr) fd0 w₂ in
      let (spawned, w₄) = e.uv.spawn (process addr) (shell_argv e cmd) fd1 w₃ in
      let q₁ : k.Quiet w w₁ =
        if_elim (k.Quiet w) (length cmd == 0) (k.os_quiet.same w) (k.uv_quiet.set_raw fd1 w) in
      let q₂ : k.Quiet w w₂ = k.os_quiet.next q₁ (k.uv_quiet.pipe_init (pipe addr) w₁) in
      let q₃ : k.Quiet w w₃ = k.os_quiet.next q₂ (k.uv_quiet.pipe_open (pipe addr) fd0 w₂) in
      let q₄ : k.Quiet w w₄ =
        k.os_quiet.next q₃ (k.uv_quiet.spawn (process addr) (shell_argv e cmd) fd1 w₃) in
      let w₅ = e.os.free argv (e.uv.close_fd fd1 w₄) in
      let q₅ : k.Quiet w w₅ =
        k.os_quiet.next q₄
          (k.os_quiet.next (k.uv_quiet.close_fd fd1 w₄) (k.os_quiet.free argv _)) in
      if_elim (Made w) (not inited) (k.os_quiet.next q₂ (exit_close_fd1-Made addr argv fd0 fd1 w₂))
        (if_elim (Made w) (not opened)
          (k.os_quiet.next q₃ (exit_close_fd1-Made addr argv fd0 fd1 w₃))
          (if_elim (Made w) (not spawned)
            (k.os_quiet.next q₄ (exit_close_fd1-Made addr argv fd0 fd1 w₄))
            (k.os_quiet.next q₅ (start_reading-Quiet e k (pipe addr) w₅))))

  open_terminal-Made :
      (addr : ℕ) (argv : List ℕ) (fd0 : ℕ) (cmd : List ℕ) (w : W)
      → Made w (open_terminal e addr argv fd0 cmd w)
  unfolding open_terminal
  open_terminal-Made addr argv fd0 cmd w =
      let (granted, w₁) = e.uv.grantpt fd0 w in
      let (unlocked, w₂) = e.uv.unlockpt fd0 w₁ in
      let (slave, w₃) = e.uv.open_slave fd0 w₂ in
      let q₁ : k.Quiet w w₁ = k.uv_quiet.grantpt fd0 w in
      let q₂ : k.Quiet w w₂ = k.os_quiet.next q₁ (k.uv_quiet.unlockpt fd0 w₁) in
      let q₃ : k.Quiet w w₃ = k.os_quiet.next q₂ (k.uv_quiet.open_slave fd0 w₂) in
      if_elim (Made w) (not granted) (k.os_quiet.next q₁ (exit_close_fd0-Made addr argv fd0 w₁)) (
        if_elim (Made w) (not unlocked) (k.os_quiet.next q₂ (exit_close_fd0-Made addr argv fd0 w₂))
          (on_option_elim (Made w) slave (k.os_quiet.next q₃ (exit_close_fd0-Made addr argv fd0 w₃))
            (λ fd1. k.os_quiet.next q₃ (start_shell-Made addr argv fd0 fd1 cmd w₃))))

  shell_service-Made : (name : List ℕ) (w : W) → Made w (shell_service e name w)
  unfolding shell_service
  shell_service-Made name w =
      let cmd = c_string (drop 6 name) in
      let (mem, w₁) = e.uv.malloc_service w in
      let (argv, w₂) = e.os.malloc (argv_size e cmd) w₁ in
      let (master, w₃) = e.uv.openpt w₂ in
      let q₁ : k.Quiet w w₁ = k.uv_quiet.malloc_service w in
      let q₂ : k.Quiet w w₂ = k.os_quiet.next q₁ (k.os_quiet.malloc (argv_size e cmd) w₁) in
      let q₃ : k.Quiet w w₃ = k.os_quiet.next q₂ (k.uv_quiet.openpt w₂) in
      on_option_elim (Made w) mem q₁ (λ addr.
        on_option_elim (Made w) argv (k.os_quiet.next q₂ (k.uv_quiet.free_service addr w₂)) (λ a.
          on_option_elim (Made w) master (k.os_quiet.next q₃ (exit_free_argv-Made addr a w₃))
            (λ fd0. k.os_quiet.next q₃ (open_terminal-Made addr a fd0 cmd w₃))))

  pub make_service-Answered :
      (name : List ℕ) (p : Packet) (w : W) → Answered w (make_service e name p w)
  unfolding make_service
  make_service-Answered name p w =
      let cond = e.config.file_service && starts_with (codes "sync:") name in
      let sh = e.config.shell_service && starts_with (codes "shell") name in
      if_elim (Answered w) cond (file_sync_service-Made w) (
        if_elim (Answered w) (e.config.socket_service && starts_with (codes "tcp:") name)
          (tcp_forward_service-Answered name p w)
          (if_elim (Answered w) sh (shell_service-Made name w) (
            if_elim (Answered w) (starts_with (codes "reboot:") name) (k.uv_quiet.print _ w)
              (k.os_quiet.same w))))
