-- ===== src/Client/Open.antt =====
-- adb_service_open and the constructors of the services: file_sync_service, tcp_forward_service
-- with adb_hal_socket_connect of hal/hal_uv_socket.c, and shell_service.
use micro_adb.Common.{
  ℕ, ◌+◌, ◌*◌, List, [], ◌∷◌, ◌++◌, Option, none, some, Bool, true, false, not, ◌&&◌, ◌==◌,
  if◌then◌else◌, on_option, codes, drop, length, c_string,
}
use micro_adb.Packet.{Packet, apacket_service_init_async}
use micro_adb.Uv.{socket, pipe, process}
use micro_adb.Sync.{Afs, wait_cmd}
use micro_adb.Client.{Client, Env, Service, Body, sync, tcp, shell, f_not_connected}
use micro_adb.Client.Transport.{set_world}
use micro_adb.Client.Frames.{set_write_len}
use micro_adb.Client.Services.{adb_register_service}
use micro_adb.Client.Kick.{start_reading}

-- !strncmp(name, prefix, strlen(prefix)), for a prefix without zeros. Here and below a name is the
-- memory that it stands in, up to its zero and past it.
unfoldable pub starts_with : List ℕ → List ℕ → Bool
starts_with [] name = true
starts_with (p ∷ ps) [] = false
starts_with (p ∷ ps) (n ∷ ns) = p == n && starts_with ps ns

-- A service before it is registered.
abbrev pub new_service : ℕ → Body → Service
new_service addr body = record { addr = addr; id = 0; peer_id = 0; body = body }

module _ {W : Type 0} (e : Env W) where
  unfoldable pub file_sync_service : W → Option Service × W
  file_sync_service w =
      let (mem, w₁) = e.uv.malloc_afs w in
      on_option mem (none, w₁)
        (λ (m : ℕ × Afs).
          (some (new_service m.0 (sync (record m.1 { size = 0; state = wait_cmd }))), w₁))

  -- adb_hal_socket_connect: whether it returns 0.
  unfoldable pub socket_connect : ℕ → ℕ → W → Bool × W
  socket_connect addr port w =
      let (inited, w₁) = e.uv.tcp_init (socket addr) w in
      if not (e.uv.ip4_addr port)
      then (false, w)
      else if inited
      then e.uv.tcp_connect (socket addr) port w₁
      else (false, w₁)

  unfoldable pub tcp_forward_service : List ℕ → Packet → W → Option Service × Packet × W
  tcp_forward_service name p w =
      let port = e.uv.atoi (c_string (drop 4 name)) in
      let (mem, w₁) = e.uv.malloc_service w in
      if port == 0
      then (none, p, w)
      else on_option mem (none, p, w₁)
          (λ addr.
            let (connecting, w₂) = socket_connect addr port w₁ in
            if connecting
            then (
              some (new_service addr (tcp f_not_connected)),
              set_write_len apacket_service_init_async p,
              w₂,
            )
            else (none, p, e.uv.free_service addr w₂))

  -- The labels at the end of shell_service.
  unfoldable pub exit_free_argv : ℕ → List ℕ → W → Option Service × W
  exit_free_argv addr argv w = (none, e.uv.free_service addr (e.os.free argv w))

  unfoldable pub exit_close_fd0 : ℕ → List ℕ → ℕ → W → Option Service × W
  exit_close_fd0 addr argv fd0 w = exit_free_argv addr argv (e.uv.close_fd fd0 w)

  unfoldable pub exit_close_fd1 : ℕ → List ℕ → ℕ → ℕ → W → Option Service × W
  exit_close_fd1 addr argv fd0 fd1 w = exit_close_fd0 addr argv fd0 (e.uv.close_fd fd1 w)

  -- The command line: sh, or sh -c command.
  abbrev pub shell_argv : List ℕ → List (List ℕ)
  shell_argv [] = codes "sh" ∷ []
  shell_argv (b ∷ bs) = codes "sh" ∷ codes "-c" ∷ (b ∷ bs) ∷ []

  -- From raw mode on.
  unfoldable pub start_shell : ℕ → List ℕ → ℕ → ℕ → List ℕ → W → Option Service × W
  start_shell addr argv fd0 fd1 cmd w =
      let w₁ = (if length cmd == 0 then w else e.uv.set_raw fd1 w) in
      let (inited, w₂) = e.uv.pipe_init (pipe addr) w₁ in
      let (opened, w₃) = e.uv.pipe_open (pipe addr) fd0 w₂ in
      let (spawned, w₄) = e.uv.spawn (process addr) (shell_argv cmd) fd1 w₃ in
      if not inited
      then exit_close_fd1 addr argv fd0 fd1 w₂
      else if not opened
      then exit_close_fd1 addr argv fd0 fd1 w₃
      else if not spawned
      then exit_close_fd1 addr argv fd0 fd1 w₄
      else (
        some (new_service addr (shell false)),
        (start_reading e (pipe addr) (e.os.free argv (e.uv.close_fd fd1 w₄))).1,
      )

  -- From the master's descriptor to the slave's.
  unfoldable pub open_terminal : ℕ → List ℕ → ℕ → List ℕ → W → Option Service × W
  open_terminal addr argv fd0 cmd w =
      let (granted, w₁) = e.uv.grantpt fd0 w in
      let (unlocked, w₂) = e.uv.unlockpt fd0 w₁ in
      let (slave, w₃) = e.uv.open_slave fd0 w₂ in
      if not granted
      then exit_close_fd0 addr argv fd0 w₁
      else if not unlocked
      then exit_close_fd0 addr argv fd0 w₂
      else on_option slave (exit_close_fd0 addr argv fd0 w₃)
          (λ fd1. start_shell addr argv fd0 fd1 cmd w₃)

  -- The bytes that argv takes: its pointers of 8 bytes, and its strings.
  abbrev pub argv_size : List ℕ → ℕ
  argv_size [] = 8 * 2 + 3
  argv_size (b ∷ bs) = 8 * 4 + 3 + 3 + (length (b ∷ bs) + 1)

  unfoldable pub shell_service : List ℕ → W → Option Service × W
  shell_service name w =
      let cmd = c_string (drop 6 name) in
      let (mem, w₁) = e.uv.malloc_service w in
      on_option mem (none, w₁)
        (λ addr.
          let (argv, w₂) = e.os.malloc (argv_size cmd) w₁ in
          on_option argv (none, e.uv.free_service addr w₂)
            (λ a.
              let (master, w₃) = e.uv.openpt w₂ in
              on_option master (exit_free_argv addr a w₃) (λ fd0. open_terminal addr a fd0 cmd w₃)))

  -- adb_reboot_impl of adb_main.c, which only logs.
  abbrev pub adb_reboot_impl : List ℕ → W → W
  adb_reboot_impl target w = e.uv.print (codes "reboot requested: <" ++ (target ++ codes ">\n")) w

  -- The chain of prefixes in adb_service_open: the service, the packet, and the world.
  unfoldable pub make_service : List ℕ → Packet → W → Option Service × Packet × W
  make_service name p w =
      let (s₁, w₁) = file_sync_service w in
      let (s₃, w₃) = shell_service name w in
      if e.config.file_service && starts_with (codes "sync:") name
      then (s₁, p, w₁)
      else if e.config.socket_service && starts_with (codes "tcp:") name
      then tcp_forward_service name p w
      else if e.config.shell_service && starts_with (codes "shell") name
      then (s₃, p, w₃)
      else if starts_with (codes "reboot:") name
      then (none, p, adb_reboot_impl (c_string (drop 7 name)) w)
      else (none, p, w)

  -- adb_service_open: the registered service, the packet, and the client. At an id of 0 it ends by
  -- fatal().
  unfoldable pub adb_service_open : Client W → List ℕ → Packet → Option Service × Packet × Client W
  adb_service_open c name p =
      let (made, p', w) = make_service name p c.world in
      if c.next_service_id == 0
      then (none, p, record c { undefined = true })
      else on_option made (none, p', set_world w c)
          (λ s.
            let (s', c') = adb_register_service (record s { peer_id = p.arg0 }) (set_world w c) in
            (some s', p', c'))
