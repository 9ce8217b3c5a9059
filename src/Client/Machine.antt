-- ===== src/Client/Machine.antt =====
-- tcp_service.c: the states of a stream as a machine, in whose steps its handlers and callbacks go.
pub mod Stream
pub mod Handlers
use micro_adb.Common.{
  ℕ, zero, suc, ◌+◌, ◌≤◌, ◌<◌, ◌≡◌, ◌⊎◌, refl, ap, ◌∙◌, inl, inr, List, [], ◌∷◌, Option, none, some,
  Bool, true, false, ◌==◌, if◌then◌else◌, if_elim, on_option, on_option_elim, arith, Option-cases,
}
use micro_adb.Packet.{Packet}
use micro_adb.Client.{
  Client, Env, Service, Body, tcp, StreamState, f_error_close, f_not_connected, f_notify_client,
  f_connected, f_wait_ack,
}
use micro_adb.Client.Transport.{set_world, client_close}
use micro_adb.Client.Frames.{
  send_frame, adb_send_okay_frame, adb_send_okay_frame_with_data, adb_send_data_frame,
  adb_uv_packet_allocate, adb_hal_apacket_allocate,
}
use micro_adb.Client.Services.{
  unlink, update, update_service, set_body, end_service, close_in, adb_service_close,
}
use micro_adb.Client.Lists.{count_at}

-- What happens to a stream: a write and an acknowledgement from the peer, a kick of the client, data
-- from the socket, the end of a write to it, and the end of its connection. A kick, and the end of a
-- connection, come with whether a packet can be allocated for the news to the peer.
pub data Event : Type 0 where
  peer_write peer_ack : Event
  kick : Bool → Event
  data_read : ℕ → Event
  write_end : Bool → Event
  connect_end : Bool → Bool → Event

-- Where a connection that failed leaves the stream.
abbrev pub refused : Bool → Option StreamState
refused packet = if packet then none else some f_error_close

-- Where one that was made leaves it.
abbrev pub told : Bool → Option StreamState
told packet = some (if packet then f_connected else f_notify_client)

-- The state after an event; none if the stream is closed.
abbrev pub goes : Event → StreamState → Option StreamState
goes peer_write st = some st
goes peer_ack f_wait_ack = some f_connected
goes peer_ack st = some st
goes (kick packet) f_notify_client = told packet
goes (kick packet) f_error_close = refused packet
goes (kick packet) st = some st
goes (data_read zero) st = none
goes (data_read (suc n)) f_connected = some f_wait_ack
goes (data_read n) st = none
goes (write_end true) st = some st
goes (write_end false) st = none
goes (connect_end true packet) f_not_connected = told packet
goes (connect_end ok packet) st = refused packet

-- The body of the first service of a list at an address.
abbrev pub body_at : ℕ → List Service → Option Body
body_at a [] = none
body_at a (s ∷ ss) = if s.addr == a then some s.body else body_at a ss

abbrev pub stream_body : Option StreamState → Option Body
stream_body none = none
stream_body (some st) = some (tcp st)

body_at-present : (a : ℕ) (ss : List Service) (b : Body) → body_at a ss ≡ some b → 0 < count_at a ss
body_at-present a [] b h = cc
body_at-present a (s ∷ ss) b h = ground (arith, h, body_at-present a ss b)

body_at-update :
    (a : ℕ) (f : Service → Service) (b : Body) (ss : List Service)
    → ((s : Service) → (f s).addr ≡ s.addr)
    → ((s : Service) → (f s).body ≡ b)
    → 0 < count_at a ss
    → body_at a (update ss a f) ≡ some b
unfolding update
body_at-update a f b [] h k n = absurd (omega (arith, n))
body_at-update a f b (s ∷ ss) h k n = ground (arith, h s, k s, n, body_at-update a f b ss h k)

body_at-missing : (a : ℕ) (ss : List Service) → count_at a ss ≡ 0 → body_at a ss ≡ none
body_at-missing a [] h = refl
body_at-missing a (s ∷ ss) h = ground (arith, h, body_at-missing a ss)

count_at-unlink :
    (a : ℕ) (ss : List Service) (r : Service × List Service)
    → unlink ss a ≡ some r
    → count_at a ss ≡ 1 + count_at a r.1
unfolding unlink
count_at-unlink a [] r h = cc
count_at-unlink a (s ∷ ss) (t, rest) h = elim (Option-cases (unlink ss a)) [
  | inl z ↦ ground arith
  | inr (q, z) ↦ ground (arith, count_at-unlink a ss q z)
]

unlink-body_at : (a : ℕ) (ss : List Service) → unlink ss a ≡ none → body_at a ss ≡ none
unfolding unlink
unlink-body_at a [] h = refl
unlink-body_at a (s ∷ ss) h = elim (Option-cases (unlink ss a)) [
  | inl z ↦ ground (arith, unlink-body_at a ss z)
  | inr (q, z) ↦ ground arith
]
