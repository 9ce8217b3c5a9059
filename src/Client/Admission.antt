-- ===== src/Client/Admission.antt =====
-- adb_client.c: the connection of a client through its whole life.
use micro_adb.Common.{
  ℕ, ◌+◌, ◌≡◌, refl, ◌∙◌, Option, none, some, Bool, true, false, not, ◌==◌, ltb, if_elim,
  on_option_elim, arith, length,
}
use micro_adb.Packet.{Packet, sizeof_message}
use micro_adb.Frame.{check_frame_data}
use micro_adb.Client.{Client, Env, Service, tcp, StreamState, f_error_close, f_notify_client}
use micro_adb.Client.Transport.{set_world}
use micro_adb.Client.Frames.{adb_uv_packet_allocate}
use micro_adb.Client.Kick.{try_close}
use micro_adb.Client.Services.{update_service, set_body}
use micro_adb.Client.Receive.{
  Read, no_buffers, nothing, read_error, bytes, start_packet, allocate_for, adb_uv_allocate_frame,
  store, take_bytes, complete_packet, bad_header, adb_uv_on_data_available, adb_uv_after_write,
}
use micro_adb.Client.Stream.{
  refuse_connection, tcp_stream_on_connect_cb, tcp_stream_allocate_frame, is_not_connected,
}
use micro_adb.Client.Shell.{alloc_buffer}
use micro_adb.Client.Life.{
  adb_uv_create_client, adb_create_client, adb_hal_create_client, adb_init_client,
}
use micro_adb.Client.Connection.{admits, adb_process_packet-is_connected}
use micro_adb.Client.Steady.{steady, allocate-Steady, ops_close-Steady, release-Steady}
use micro_adb.Client.Walk.Sends.{data_frame-Rel}
use micro_adb.Client.Walk.Kick.{try_connect-Rel, try_close-Kicked, go_on}
use micro_adb.Client.Walk.Callbacks.{
  stream_read-Rel, stream_written-Rel, stream_closed-Rel, shell_read-Rel, shell_written-Rel,
  pipe_closed-Rel, process_closed-Rel,
}
use micro_adb.Client.Ownership.{Level}
use micro_adb.Client.Ownership.Steps.{
  Step, allocate_frame, data_available, after_write, socket_data, socket_full, socket_written,
  socket_connected, socket_closed, shell_data, shell_full, shell_written, shell_pipe_closed,
  shell_closed, elsewhere, Reach, start, later,
}

module _ {W : Type 0} (e : Env W) where
  -- The same connection.
  abbrev Joined : Client W → Client W → Type 0
  Joined c c' = c'.is_connected ≡ c.is_connected

  start_packet-Joined :
      (c : Client W) (r : Option Packet × Client W)
      → Joined c r.1
      → Joined c (start_packet e r.0 r.1).1
  unfolding start_packet
  start_packet-Joined c (none, c') h = h
  start_packet-Joined c (some p, c') h = h

  allocate_for-Joined : (c : Client W) (o : Option Packet) → Joined c (allocate_for e o c).1
  unfolding allocate_for
  allocate_for-Joined c (some p) = refl
  allocate_for-Joined c none =
      start_packet-Joined c (adb_uv_packet_allocate e c (not c.is_connected))
        (allocate-Steady e c (not c.is_connected)).connection

  refuse_connection-Joined : (s : Service) (c : Client W) → Joined c (refuse_connection e s c)
  unfolding refuse_connection update_service
  refuse_connection-Joined s c =
      let s' = record s { id = 0; body = tcp f_error_close } in
      let c₁ = update_service s.addr (λ t. record t { id = 0; body = tcp f_error_close }) c in
      (go_on e (steady e) 0 c₁ (try_close e s' c₁)
        (try_close-Kicked e (steady e) 0 s' c₁)).connection

  on_connect-Joined :
      (s : Service) (st : StreamState) (ok : Bool) (c : Client W)
      → Joined c (tcp_stream_on_connect_cb e s st ok c)
  unfolding tcp_stream_on_connect_cb set_body update_service
  on_connect-Joined s st ok c =
      if_elim (Joined c) ok
        (if_elim (Joined c) (is_not_connected st)
          (try_connect-Rel e (steady e) 0 s (set_body s.addr (tcp f_notify_client) c)).connection
          (refuse_connection-Joined s c))
        (refuse_connection-Joined s c)

  -- No frame connects a client.
  abbrev AdmitsNone : Type 0
  AdmitsNone = (p : Packet) → admits e.config p ≡ false

  complete_packet-Joined :
      (c : Client W) (p : Packet) → AdmitsNone → Joined c (complete_packet e c p)
  unfolding complete_packet
  complete_packet-Joined c p n =
      if_elim (Joined c) (check_frame_data p)
        (ground (arith, adb_process_packet-is_connected e (record c { cur_packet = none }) p, n p))
        (ops_close-Steady e e.ops c).connection

  take_bytes-Joined :
      (c : Client W) (p : Packet) (n : ℕ) → AdmitsNone → Joined c (take_bytes e c p n)
  unfolding take_bytes
  take_bytes-Joined c p n h =
      if_elim (Joined c) (bad_header e c p n) (ops_close-Steady e e.ops _).connection (
        if_elim (Joined c) (ltb (c.cur_len + n) (sizeof_message + p.data_length)) refl
          (complete_packet-Joined _ p h))

  read-Joined : (c : Client W) (r : Read) → AdmitsNone → Joined c (adb_uv_on_data_available e c r)
  unfolding adb_uv_on_data_available
  read-Joined c no_buffers n = refl
  read-Joined c read_error n = (ops_close-Steady e e.ops c).connection
  read-Joined c nothing n =
      if_elim (Joined c) (c.cur_len == 0)
        (on_option_elim (Joined c) c.cur_packet refl (λ p. (release-Steady e c p).connection)) refl
  read-Joined c (bytes bs) n =
      on_option_elim (Joined c) c.cur_packet refl
        (λ p. take_bytes-Joined c (store c.cur_len bs p) (length bs) n)

  buffered-Joined : (c : Client W) (wait_ack : Bool) → Joined c (alloc_buffer e wait_ack c).1
  unfolding alloc_buffer
  buffered-Joined c true = (allocate-Steady e _ false).connection
  buffered-Joined c false = (allocate-Steady e c false).connection

  written-Joined : (c : Client W) (p : Packet) (ok : Bool) → Joined c (adb_uv_after_write e c p ok)
  unfolding adb_uv_after_write
  written-Joined c p ok =
      if_elim (Joined c) (not ok)
        ((ops_close-Steady e e.ops _).connection ∙ (release-Steady e c p).connection)
        (if_elim (Joined c) (ltb 0 p.write_len) (data_frame-Rel e (steady e) 0 c p).connection
          (release-Steady e c p).connection)

  pub Step-Joined : (l : Level W) {c c' : Client W} → AdmitsNone → Step e l c c' → Joined c c'
  unfolding tcp_stream_allocate_frame adb_uv_allocate_frame
  Step-Joined l {c} n allocate_frame = allocate_for-Joined c c.cur_packet
  Step-Joined l {c} n (data_available r) = read-Joined c r n
  Step-Joined l {c} n (after_write w p ok r) = written-Joined (set_world w c) p ok
  Step-Joined l {c} n (socket_data s st p r z h i) =
      (stream_read-Rel e (steady e) 0 s st p r _ i).connection
      ∙ (allocate-Steady e c false).connection
  Step-Joined l {c} n (socket_full s st p z i) =
      (stream_read-Rel e (steady e) 0 s st p no_buffers _ i).connection
      ∙ (allocate-Steady e c false).connection
  Step-Joined l {c} n (socket_written w s p ok r h) =
      (stream_written-Rel e (steady e) 0 s p ok (set_world w c) h).connection
  Step-Joined l {c} n (socket_connected s st ok) = on_connect-Joined s st ok c
  Step-Joined l {c} n (socket_closed s) = (stream_closed-Rel e (steady e) 0 s c).connection
  Step-Joined l {c} n (shell_data s a p r z h i) =
      (shell_read-Rel e (steady e) 0 s p r _ i).connection ∙ buffered-Joined c a
  Step-Joined l {c} n (shell_full s a p z i) =
      (shell_read-Rel e (steady e) 0 s p no_buffers _ i).connection ∙ buffered-Joined c a
  Step-Joined l {c} n (shell_written w s p ok r h) =
      (shell_written-Rel e (steady e) 0 s p ok (set_world w c) h).connection
  Step-Joined l {c} n (shell_pipe_closed s) = (pipe_closed-Rel e (steady e) 0 s c).connection
  Step-Joined l {c} n (shell_closed s) = (process_closed-Rel e (steady e) 0 s c).connection
  Step-Joined l {c} n (elsewhere w h) = refl

  created : (w : W) (c : Client W) → (adb_uv_create_client e w).0 ≡ some c → c.is_connected ≡ false
  unfolding adb_uv_create_client adb_create_client adb_hal_create_client adb_init_client
  created w c h = ground (arith, h)

  -- With authentication, and where no public key is accepted, no client is connected in any state that
  -- it reaches by libuv's calls, in which no write of a service fails once the service has left the list.
  pub Reach-is_connected :
      (l : Level W) {c : Client W}
      → e.config.authentication ≡ true
      → e.config.auth_pubkey ≡ false
      → Reach e l c
      → c.is_connected ≡ false
  Reach-is_connected l a k (start w c h v f t) = created w c h
  Reach-is_connected l a k (later r s) =
      Step-Joined l (λ p. ground (arith, a, k)) s ∙ Reach-is_connected l a k r
