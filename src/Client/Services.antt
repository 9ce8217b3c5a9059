-- ===== src/Client/Services.antt =====
-- adb_client.c's list of services, with the on_close handlers of the services.
use micro_adb.Common.{
  ℕ, ◌+◌, ◌%◌, ◌^◌, List, [], ◌∷◌, Option, none, some, Bool, true, false, not, ◌&&◌, ◌||◌, ◌==◌,
  if◌then◌else◌, on_option,
}
use micro_adb.Packet.{Packet}
use micro_adb.Uv.{socket, pipe, process}
use micro_adb.Sync.Transfer.{release_state}
use micro_adb.Client.{
  Client, Env, Service, Body, sync, tcp, shell, StreamState, f_error_close, f_not_connected,
}
use micro_adb.Client.Transport.{set_world}
use micro_adb.Client.Frames.{send_close_frame}

-- adb_client_find_service: the first service of the list with the id and, unless 0 is asked for,
-- the peer id.
unfoldable pub find_service : List Service → ℕ → ℕ → Option Service
find_service [] id peer_id = none
find_service (s ∷ ss) id peer_id =
    if s.id == id && (peer_id == 0 || s.peer_id == peer_id)
    then some s
    else find_service ss id peer_id

-- The list without the service at an address, and that service.
unfoldable pub unlink : List Service → ℕ → Option (Service × List Service)
unlink [] addr = none
unlink (s ∷ ss) addr =
    if s.addr == addr
    then some (s, ss)
    else on_option (unlink ss addr) none (λ (r : Service × List Service). some (r.0, s ∷ r.1))

-- A write through a pointer to a service.
unfoldable pub update : List Service → ℕ → (Service → Service) → List Service
update [] addr f = []
update (s ∷ ss) addr f = if s.addr == addr then f s ∷ ss else s ∷ update ss addr f

module _ {W : Type 0} where
  unfoldable pub update_service : ℕ → (Service → Service) → Client W → Client W
  update_service addr f c = record c { services = update c.services addr f }

  unfoldable pub set_body : ℕ → Body → Client W → Client W
  set_body addr b = update_service addr (λ s. record s { body = b })

  -- adb_register_service: the next id, which is a 32-bit int, and the head of the list.
  unfoldable pub adb_register_service : Service → Client W → Service × Client W
  adb_register_service s c =
      let s' = record s { id = c.next_service_id } in
      (
        s',
        record c { next_service_id = (c.next_service_id + 1) % 2 ^ 32; services = s' ∷ c.services },
      )

-- `svc->state > F_NOT_CONNECTED` of atcp_stream_on_close, and `svc->state < F_CONNECTED` of
-- atcp_stream_on_write.
abbrev pub has_socket : StreamState → Bool
has_socket f_error_close = false
has_socket f_not_connected = false
has_socket st = true

-- A stream that has no open socket is freed while libuv still has its handle.
abbrev pub freed_in_use : Body → Bool
freed_in_use (tcp st) = not (has_socket st)
freed_in_use b = false

module _ {W : Type 0} (e : Env W) where
  abbrev pub adb_hal_socket_close : ℕ → W → W
  adb_hal_socket_close addr w = e.uv.close (socket addr) w

  -- A stream without a socket is freed at once; the others are freed by the callbacks of uv_close.
  abbrev pub atcp_stream_on_close : ℕ → StreamState → W → W
  atcp_stream_on_close addr st w =
      if has_socket st then adb_hal_socket_close addr w else e.uv.free_service addr w

  abbrev pub shell_close : ℕ → W → W
  shell_close addr w = e.uv.close (pipe addr) (e.uv.kill (process addr) w)

  -- service->ops->on_close, of the file service file_sync_on_close.
  unfoldable pub close_body : ℕ → Body → W → W
  close_body addr (sync v) w = e.uv.free_service addr (release_state e.os v.state v w)
  close_body addr (tcp st) w = atcp_stream_on_close addr st w
  close_body addr (shell wait_ack) w = shell_close addr w

  -- The end of adb_service_close, for the service that has left the list.
  unfoldable pub end_service : Service → Option Packet → Client W → Client W
  end_service s p c =
      let c' = on_option p c (λ q. send_close_frame e c q s.id s.peer_id) in
      let c'' = set_world (close_body s.addr s.body c'.world) c' in
      if freed_in_use s.body then record c'' { undefined = true } else c''

  -- Of an empty list, adb_service_close reads `cur_svc->next` through a null pointer.
  unfoldable pub close_in : List Service → ℕ → Option Packet → Client W → Client W
  close_in [] addr p c = record c { undefined = true }
  close_in (s ∷ ss) addr p c =
      on_option (unlink (s ∷ ss) addr) c
        (λ (r : Service × List Service). end_service r.0 p (record c { services = r.1 }))

  unfoldable pub adb_service_close : Client W → ℕ → Option Packet → Client W
  adb_service_close c addr p = close_in c.services addr p c
