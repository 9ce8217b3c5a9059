-- ===== src/Client/Accept.antt =====
-- How clients come to be: the set-up and accept functions of hal/hal_uv_client_tcp.c,
-- hal_uv_client_usb.c and hal_uv_client_qemu.c, and adb_hal_create_context of hal/hal_uv.c.
pub mod Accounts
pub mod Servers
use micro_adb.Common.{
  ℕ, List, [], ◌∷◌, ◌++◌, Option, none, some, Bool, true, false, not, ◌||◌, ◌==◌, if◌then◌else◌,
  on_option, length, take, codes,
}
use micro_adb.Os.{Read, got, Write, wrote, interrupted, write_failed}
use micro_adb.Uv.{transport, write_pipe, o_rdonly, o_wronly, o_rdwr}
use micro_adb.Client.{Client, Env, adb_tcp_uv_ops}
use micro_adb.Client.Transport.{set_world, tcp_uv_close}
use micro_adb.Client.Life.{adb_uv_create_client, adb_uv_close_client}

-- write(2) of `n` bytes took all of them.
abbrev pub took : ℕ → Write → Bool
took n (wrote m) = n == m
took n interrupted = false
took n write_failed = false

-- The server's handshake, "ok".
abbrev pub says_ok : Read → Bool
says_ok (got (a ∷ b ∷ [])) = if a == b'o' then b == b'k' else false
says_ok r = false

-- snprintf(devname, 32, "%s/ep…", path).
abbrev pub devname : List ℕ → List ℕ → List ℕ
devname path name = take 31 (path ++ name)

module _ {W : Type 0} (e : Env W) where
  -- A client made here has adb_tcp_uv_ops, adb_usb_uv_ops or adb_qemu_uv_ops for its `ops`.
  abbrev pub tcp_env : Env W
  tcp_env = record e { ops = adb_tcp_uv_ops }

  -- exit_close_client of tcp_on_connection.
  unfoldable pub give_up : Client W → Option (Client W) × W
  give_up c = (none, adb_uv_close_client tcp_env c)

  unfoldable pub accept_client : Client W → Option (Client W) × W
  accept_client c =
      let (inited, w₁) = e.uv.tcp_init transport c.world in
      let (accepted, w₂) = e.uv.accept transport w₁ in
      let (started, w₃) = e.uv.read_start transport w₂ in
      if not inited
      then give_up (set_world w₁ c)
      else if not accepted
      then give_up (set_world w₂ c)
      else if not started
      then (none, (tcp_uv_close e (set_world w₃ c)).world)
      else (some (set_world w₃ c), w₃)

  -- `ok` unless the status of the connection is negative.
  unfoldable pub tcp_on_connection : Bool → W → Option (Client W) × W
  tcp_on_connection ok w =
      let (made, w') = adb_uv_create_client e w in
      if ok then on_option made (none, w') (λ c. accept_client (set_world w' c)) else (none, w)

  -- Whether adb_uv_tcp_setup returns 0.
  unfoldable pub adb_uv_tcp_setup : W → Bool × W
  adb_uv_tcp_setup w =
      let (inited, w₁) = e.uv.server_init w in
      let (bound, w₂) = e.uv.server_bind w₁ in
      let (listening, w₃) = e.uv.server_listen w₂ in
      if not inited then (false, w₁) else if not bound then (false, w₂) else (listening, w₃)

  -- One pipe of the USB client: init, open(2) of its device, and uv_pipe_open, without which the
  -- descriptor is closed.
  unfoldable pub open_pipe : Bool → List ℕ → W → Bool × W
  open_pipe reading name w =
      let h = if reading then transport else write_pipe in
      let (inited, w₁) = e.uv.pipe_init h w in
      let (fd, w₂) = e.uv.open_device name (if reading then o_rdonly else o_wronly) w₁ in
      if inited
      then on_option fd (false, w₂)
          (λ f.
            let (opened, w₃) = e.uv.pipe_open h f w₂ in
            if opened then (true, w₃) else (false, e.uv.close_fd f w₃))
      else (false, w₁)

  -- adb_uv_usb_setup after its client is allocated. Where a step fails the client is not freed.
  unfoldable pub open_usb : List ℕ → Client W → Option (Client W) × W
  open_usb path c =
      let (reading, w₁) = open_pipe true (devname path (codes "/ep2")) c.world in
      let (writing, w₂) = open_pipe false (devname path (codes "/ep1")) w₁ in
      let (started, w₃) = e.uv.read_start transport w₂ in
      if not reading
      then (none, w₁)
      else if not writing
      then (none, w₂)
      else (some (record c { undefined = not started; world = w₃ }), w₃)

  unfoldable pub adb_uv_usb_setup : List ℕ → W → Option (Client W) × W
  adb_uv_usb_setup path w =
      let (made, w') = adb_uv_create_client e w in
      on_option made (none, w') (λ c. open_usb path (set_world w' c))

  -- The end of qemu_uv_on_readable, from the client on, with its three assertions.
  unfoldable pub open_qemu : ℕ → Client W → Option (Client W) × W
  open_qemu fd c =
      let (inited, w₁) = e.uv.pipe_init transport c.world in
      let (opened, w₂) = e.uv.pipe_open transport fd w₁ in
      let (started, w₃) = e.uv.read_start transport w₂ in
      (some (record c { undefined = not inited || (not opened || not started); world = w₃ }), w₃)

  -- `ok` unless the status is negative or the events tell of a disconnection. `fd` is the poll
  -- handle's descriptor.
  unfoldable pub qemu_uv_on_readable : ℕ → Bool → W → Option (Client W) × W
  qemu_uv_on_readable fd ok w =
      let w₀ = e.uv.poll_close w in
      let (answer, w₁) = e.os.read fd 2 w₀ in
      let (sent, w₂) = e.os.write fd (codes "start") w₁ in
      let (made, w₃) = adb_uv_create_client e w₂ in
      if not ok
      then (none, e.os.close fd w₀)
      else if not (says_ok answer)
      then (none, e.os.close fd w₁)
      else if not (took 5 sent)
      then (none, e.os.close fd w₂)
      else on_option made (none, e.os.close fd w₃) (λ c. open_qemu fd (set_world w₃ c))

  -- The poll handle of the server, for a descriptor. A poll that does not start is treated as an
  -- event with an error.
  unfoldable pub poll_server : ℕ → W → Bool × W
  poll_server fd w =
      let (inited, w₁) = e.uv.poll_init fd w in
      let (started, w₂) = e.uv.poll_start w₁ in
      if not inited
      then (false, e.os.close fd w₁)
      else if started
      then (true, w₂)
      else (true, (qemu_uv_on_readable fd false w₂).1)

  -- Whether adb_uv_qemu_setup returns 0, as it does too after a write of no bytes, whose result it
  -- passes on. `cookie` names the server's port.
  unfoldable pub adb_uv_qemu_setup : List ℕ → W → Bool × W
  adb_uv_qemu_setup cookie w =
      let (fd, w₁) = e.uv.open_device (codes "/dev/goldfish_pipe") o_rdwr w in
      on_option fd (false, w₁)
        (λ f.
          let (sent, w₂) = e.os.write f cookie w₁ in
          if took (length cookie) sent then poll_server f w₂ else (took 0 sent, e.os.close f w₂))

  -- qemu_uv_on_setup, when the poll handle is closed.
  unfoldable pub qemu_uv_on_setup : List ℕ → W → W
  qemu_uv_on_setup cookie w = (adb_uv_qemu_setup cookie w).1

  -- adb_hal_create_context, by the servers that are compiled in: whether it gives a context, and the
  -- client of the USB server.
  unfoldable pub adb_hal_create_context :
      Bool → Bool → Option (List ℕ) → W → Bool × Option (Client W) × W
  adb_hal_create_context tcp_server usb_server qemu_server w =
      let (tcp_ok, w₁) = (if tcp_server then adb_uv_tcp_setup w else (true, w)) in
      let (usb, w₂) =
        (if usb_server then adb_uv_usb_setup (codes "/dev/adb0") w₁ else (none, w₁)) in
      let usb_ok = (if usb_server then on_option usb false (λ c. true) else true) in
      let (qemu_ok, w₃) =
        on_option qemu_server (true, w₂) (λ cookie. adb_uv_qemu_setup cookie w₂) in
      if not tcp_ok
      then (false, none, w₁)
      else if not usb_ok
      then (false, none, w₂)
      else (qemu_ok, usb, w₃)
