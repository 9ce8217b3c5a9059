-- ===== src/Client/Flow.antt =====
-- tcp_service.c and hal/shell_service_uv.c: what of a socket's or a terminal's bytes goes to the peer,
-- and what becomes of a packet whose service has been closed.
use micro_adb.Common.{
  take-prefix, ℕ, ◌≡◌, ◌≢◌, refl, ap, ◌∙◌, List, [], ◌∷◌, Option, none, some, true, false, ◌==◌,
  if_elim, arith, length, take,
}
use micro_adb.Packet.{Packet, a_wrte}
use micro_adb.Uv.{pipe}
use micro_adb.Client.{
  Client, Env, Service, tcp, shell, f_connected, f_wait_ack, Ops, adb_tcp_uv_ops, adb_usb_uv_ops,
  adb_qemu_uv_ops,
}
use micro_adb.Client.Transport.{
  set_world, tcp_uv_write, usb_uv_write, qemu_uv_write, tcp_uv_close, usb_uv_close, qemu_uv_close,
  ops_write, ops_close,
}
use micro_adb.Client.Frames.{send_frame, adb_send_data_frame, set_write_len, set_msg}
use micro_adb.Client.Services.{
  unlink, update, update_service, set_body, close_in, adb_service_close,
}
use micro_adb.Client.Receive.{bytes}
use micro_adb.Client.Stream.{
  adb_hal_socket_stop, tcp_stream_on_data_cb, tcp_stream_on_data_available,
  stream_send_data_frame_cb, filled, set_length, addressed,
}
use micro_adb.Client.Shell.{pipe_on_data_available, shell_after_write}
use micro_adb.Client.Lists.{count_at}

-- A service that is not there is not unlinked.
unlink-missing : (ss : List Service) (addr : ℕ) → count_at addr ss ≡ 0 → unlink ss addr ≡ none
unfolding unlink
unlink-missing [] addr h = refl
unlink-missing (s ∷ ss) addr h = ground (arith, unlink-missing ss addr)

-- The WRTE frame that carries bytes of a service to the peer.
pub record Carries (s : Service) (bs : List ℕ) (q : Packet) : Type 0 where
  pub command : q.command ≡ a_wrte
  pub from : q.arg0 ≡ s.id
  pub to : q.arg1 ≡ s.peer_id
  pub len : q.data_length ≡ length bs
  pub content : take (length bs) q.payload ≡ bs

module _ {W : Type 0} (e : Env W) where
  pub ops_close-services : (o : Ops) (c : Client W) → (ops_close e o c).services ≡ c.services
  unfolding ops_close tcp_uv_close usb_uv_close qemu_uv_close
  ops_close-services adb_tcp_uv_ops c = refl
  ops_close-services adb_usb_uv_ops c = refl
  ops_close-services adb_qemu_uv_ops c = refl

  ops_write-services :
      (o : Ops) (c : Client W) (p : Packet) → (ops_write e o c p).1.services ≡ c.services
  unfolding ops_write tcp_uv_write usb_uv_write qemu_uv_write
  ops_write-services adb_tcp_uv_ops c p = refl
  ops_write-services adb_usb_uv_ops c p = refl
  ops_write-services adb_qemu_uv_ops c p = refl

  pub send_frame-services : (c : Client W) (p : Packet) → (send_frame e c p).services ≡ c.services
  unfolding send_frame
  send_frame-services c p =
      if_elim (λ (x : Client W). x.services ≡ c.services) _ (ops_write-services e.ops c _)
        (ops_close-services e.ops _ ∙ ops_write-services e.ops c _)

  -- The packet that a stream makes of the bytes that libuv has read into it.
  abbrev carrier : Service → List ℕ → Packet → Packet
  carrier s bs p = set_write_len 0 (
      set_msg a_wrte s.id s.peer_id (length bs)
        (addressed s (set_write_len (length bs) (set_length (length bs) (filled bs p)))))

  stream_sent :
      (s : Service) (p : Packet) (bs : List ℕ) (c : Client W)
      → bs ≢ []
      → tcp_stream_on_data_available e s f_connected p (bytes bs) c
        ≡ send_frame e
            (set_body s.addr
              (tcp f_wait_ack)
              (adb_hal_socket_stop e s.addr (adb_hal_socket_stop e s.addr c)))
            (carrier s bs p)
  unfolding tcp_stream_on_data_available tcp_stream_on_data_cb adb_send_data_frame
  stream_sent s p [] c h = absurd (h refl)
  stream_sent s p (b ∷ bs) c h = let z : (length (b ∷ bs) == 0) ≡ false = ground arith in rw z refl

  -- What a connected stream reads from its socket, in one or more bytes, goes to the peer as one WRTE
  -- frame with these bytes, and the stream then reads no more and waits for the acknowledgement.
  pub tcp_stream_on_data_available-sent :
      (s : Service) (p : Packet) (bs : List ℕ) (c : Client W)
      → bs ≢ []
      → let stopped = adb_hal_socket_stop e s.addr (adb_hal_socket_stop e s.addr c) in
        let c' = tcp_stream_on_data_available e s f_connected p (bytes bs) c in
        (q : Packet) × Carries s bs q
        × (c' ≡ send_frame e (set_body s.addr (tcp f_wait_ack) stopped) q)
        × (c'.services ≡ update c.services s.addr (λ t. record t { body = tcp f_wait_ack }))
  unfolding set_body update_service adb_hal_socket_stop
  tcp_stream_on_data_available-sent s p bs c h =
      let z = stream_sent s p bs c h in
      (
        carrier s bs p,
        record { command = refl; from = refl; to = refl; len = refl; content = take-prefix bs _ },
        z,
        ap (λ (x : Client W). x.services) z ∙ send_frame-services _ _,
      )

  -- What a shell reads from its terminal goes to the peer as one WRTE frame with these bytes, and the
  -- shell then reads no more and waits for the acknowledgement.
  pub pipe_on_data_available-sent :
      (s : Service) (p : Packet) (bs : List ℕ) (c : Client W)
      → let c' = pipe_on_data_available e s p (bytes bs) c in
        (q : Packet) × Carries s bs q
        × (c'
            ≡ send_frame e
                (set_world (e.uv.read_stop (pipe s.addr) c.world) (set_body s.addr (shell true) c))
                q)
        × (c'.services ≡ update c.services s.addr (λ t. record t { body = shell true }))
  unfolding pipe_on_data_available adb_send_data_frame set_body update_service
  pipe_on_data_available-sent s p bs c = (
    set_write_len 0 (
        set_msg a_wrte s.id s.peer_id (length bs)
          (addressed s (set_write_len (length bs) (filled bs p)))),
    record { command = refl; from = refl; to = refl; len = refl; content = take-prefix bs _ },
    refl,
    send_frame-services _ _,
  )

  -- What adb_service_close makes of a service that is not in the list: nothing, but it reads through a
  -- null pointer where the list is empty.
  abbrev pub unchanged_unless_empty : List Service → Client W → Client W
  unchanged_unless_empty [] c = record c { undefined = true }
  unchanged_unless_empty (s ∷ ss) c = c

  close_in-missing :
      (ss : List Service) (addr : ℕ) (p : Option Packet) (c : Client W)
      → count_at addr ss ≡ 0
      → close_in e ss addr p c ≡ unchanged_unless_empty ss c
  unfolding close_in
  close_in-missing [] addr p c h = refl
  close_in-missing (s ∷ ss) addr p c h = rw (unlink-missing (s ∷ ss) addr h) refl

  -- Where a write to a socket or a terminal ends with an error after its service has left the list,
  -- the packet is neither sent nor released: the client is left as it was where it has other
  -- services, and where it has none the code reads through a null pointer.
  pub closed_write-leaks :
      (s : Service) (p : Packet) (c : Client W)
      → count_at s.addr c.services ≡ 0
      → (stream_send_data_frame_cb e s p false c ≡ unchanged_unless_empty c.services c)
        × (shell_after_write e s p false c ≡ unchanged_unless_empty c.services c)
  unfolding stream_send_data_frame_cb shell_after_write adb_service_close
  closed_write-leaks s p c h = let z = close_in-missing c.services s.addr (some p) c h in (z, z)
