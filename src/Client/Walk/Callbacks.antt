-- ===== src/Client/Walk/Callbacks.antt =====
-- libuv's callbacks of the TCP and shell services, under a relation.
use micro_adb.Common.{ℕ, suc, ◌<◌, ◌≡◌, ◌⊎◌, inl, inr, refl, Bool, true, false, ◌==◌, if_elim}
use micro_adb.Packet.{Packet}
use micro_adb.Uv.{socket, pipe, process}
use micro_adb.Client.{
  Client, Env, Service, tcp, shell, StreamState, f_error_close, f_notify_client, f_wait_ack,
}
use micro_adb.Client.Services.{update_service}
use micro_adb.Client.Kick.{try_close}
use micro_adb.Client.Receive.{Read, no_buffers, nothing, read_error, bytes}
use micro_adb.Client.Stream.{
  adb_hal_socket_stop, tcp_stream_on_data_cb, tcp_stream_on_data_available,
  stream_send_data_frame_cb, refuse_connection, tcp_stream_on_connect_cb, atcp_stream_release,
  is_connected_stream, is_not_connected,
}
use micro_adb.Client.Shell.{
  pipe_on_data_available, shell_after_write, shell_close_pipe_callback,
  shell_close_process_callback,
}
use micro_adb.Client.Lists.{count_at}
use micro_adb.Client.Walk.{Walk}
use micro_adb.Client.Walk.Sends.{okay-Rel, data_frame-Rel}
use micro_adb.Client.Walk.Kick.{set_body-Rel, release-Rel, try_connect-Rel, try_close-Kicked, go_on}
use micro_adb.Client.Walk.Replies.{close_with-Rel}
use micro_adb.Client.Walk.Process.{Renumbers}

-- What a read has left with the code: UV_ENOBUFS comes with no packet.
abbrev pub read_hand : ℕ → Read → ℕ
read_hand n no_buffers = n
read_hand n r = suc n

module _ {W : Type 0} (e : Env W) (k : Walk e) where
  socket_stop-Rel : (n addr : ℕ) (c : Client W) → k.Rel n n c (adb_hal_socket_stop e addr c)
  unfolding adb_hal_socket_stop
  socket_stop-Rel n addr c = k.quiet n _ c (k.uv_quiet.read_stop (socket addr) c.world)

  on_data_cb-Rel :
      (n : ℕ) (s : Service) (st : StreamState) (p : Packet) (c : Client W)
      → 0 < count_at s.addr c.services
      → k.Rel (suc n) n c (tcp_stream_on_data_cb e s st p c)
  unfolding tcp_stream_on_data_cb
  on_data_cb-Rel n s st p c h =
      if_elim (k.Rel (suc n) n c) (is_connected_stream st)
        (if_elim (k.Rel (suc n) n c) (p.data_length == 0) (close_with-Rel e k n s p c h) (
          k.next (suc n) (suc n) n c _ _ (socket_stop-Rel (suc n) s.addr c) (
            k.next (suc n) (suc n) n _ _ _ (set_body-Rel e k (suc n) s.addr (tcp f_wait_ack) _)
              (data_frame-Rel e k n _ _))))
        (close_with-Rel e k n s p c h)

  pub stream_read-Rel :
      (n : ℕ) (s : Service) (st : StreamState) (p : Packet) (r : Read) (c : Client W)
      → 0 < count_at s.addr c.services
      → k.Rel (read_hand n r) n c (tcp_stream_on_data_available e s st p r c)
  unfolding tcp_stream_on_data_available adb_hal_socket_stop
  stream_read-Rel n s st p no_buffers c h =
      k.quiet n _ c (k.uv_quiet.read_stop (socket s.addr) c.world)
  stream_read-Rel n s st p nothing c h = release-Rel e k n c p
  stream_read-Rel n s st p read_error c h = on_data_cb-Rel n s st _ c h
  stream_read-Rel n s st p (bytes bs) c h =
      k.next (suc n) (suc n) n c _ _
        (k.quiet (suc n) _ c (k.uv_quiet.read_stop (socket s.addr) c.world))
        (on_data_cb-Rel n s st _ _ h)

  pub stream_written-Rel :
      (n : ℕ) (s : Service) (p : Packet) (ok : Bool) (c : Client W)
      → (ok ≡ true) ⊎ (0 < count_at s.addr c.services)
      → k.Rel (suc n) n c (stream_send_data_frame_cb e s p ok c)
  unfolding stream_send_data_frame_cb
  stream_written-Rel n s p true c h = okay-Rel e k n c p s.id s.peer_id
  stream_written-Rel n s p false c (inl h) = cc
  stream_written-Rel n s p false c (inr h) = close_with-Rel e k n s p c h

  pub stream_closed-Rel :
      (n : ℕ) (s : Service) (c : Client W) → k.Rel n n c (atcp_stream_release e s c)
  unfolding atcp_stream_release
  stream_closed-Rel n s c = k.quiet n _ c (k.uv_quiet.free_service s.addr c.world)

  pub shell_read-Rel :
      (n : ℕ) (s : Service) (p : Packet) (r : Read) (c : Client W)
      → 0 < count_at s.addr c.services
      → k.Rel (read_hand n r) n c (pipe_on_data_available e s p r c)
  unfolding pipe_on_data_available
  shell_read-Rel n s p no_buffers c h = k.quiet n _ c (k.uv_quiet.read_stop (pipe s.addr) c.world)
  shell_read-Rel n s p nothing c h = close_with-Rel e k n s p c h
  shell_read-Rel n s p read_error c h = close_with-Rel e k n s p c h
  shell_read-Rel n s p (bytes bs) c h =
      k.next (suc n) (suc n) n c _ _ (set_body-Rel e k (suc n) s.addr (shell true) c) (
        k.next (suc n) (suc n) n _ _ _ (k.quiet (suc n) _ _ (k.uv_quiet.read_stop (pipe s.addr) _))
          (data_frame-Rel e k n _ _))

  pub shell_written-Rel :
      (n : ℕ) (s : Service) (p : Packet) (ok : Bool) (c : Client W)
      → (ok ≡ true) ⊎ (0 < count_at s.addr c.services)
      → k.Rel (suc n) n c (shell_after_write e s p ok c)
  unfolding shell_after_write
  shell_written-Rel n s p true c h = okay-Rel e k n c p s.id s.peer_id
  shell_written-Rel n s p false c (inl h) = cc
  shell_written-Rel n s p false c (inr h) = close_with-Rel e k n s p c h

  pub pipe_closed-Rel :
      (n : ℕ) (s : Service) (c : Client W) → k.Rel n n c (shell_close_pipe_callback e s c)
  unfolding shell_close_pipe_callback
  pipe_closed-Rel n s c = k.quiet n _ c (k.uv_quiet.close (process s.addr) c.world)

  pub process_closed-Rel :
      (n : ℕ) (s : Service) (c : Client W) → k.Rel n n c (shell_close_process_callback e s c)
  unfolding shell_close_process_callback
  process_closed-Rel n s c = k.quiet n _ c (k.uv_quiet.free_service s.addr c.world)

module _ {W : Type 0} (e : Env W) (k : Walk e) (b : Renumbers e k) where
  refuse_connection-Rel :
      (n : ℕ) (s : Service) (c : Client W) → k.Rel n n c (refuse_connection e s c)
  unfolding refuse_connection
  refuse_connection-Rel n s c =
      let s' = record s { id = 0; body = tcp f_error_close } in
      let c₁ = update_service s.addr (λ t. record t { id = 0; body = tcp f_error_close }) c in
      k.next n n n c c₁ _ (b.renumbered n s.addr _ c (λ t. refl))
        (go_on e k n c₁ (try_close e s' c₁) (try_close-Kicked e k n s' c₁))

  pub stream_connected-Rel :
      (n : ℕ) (s : Service) (st : StreamState) (ok : Bool) (c : Client W)
      → k.Rel n n c (tcp_stream_on_connect_cb e s st ok c)
  unfolding tcp_stream_on_connect_cb
  stream_connected-Rel n s st ok c =
      if_elim (k.Rel n n c) ok
        (if_elim (k.Rel n n c) (is_not_connected st)
          (k.next n n n c _ _ (set_body-Rel e k n s.addr (tcp f_notify_client) c)
            (try_connect-Rel e k n s _))
          (refuse_connection-Rel n s c))
        (refuse_connection-Rel n s c)
