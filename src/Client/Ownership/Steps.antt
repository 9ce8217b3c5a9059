-- ===== src/Client/Ownership/Steps.antt =====
-- The life of a client as a sequence of libuv's calls, and the accounts of its packets throughout.
use mathlib.Core.Path.{subst}
use micro_adb.Common.{
  ℕ, suc, ◌<◌, ◌≡◌, ◌≢◌, ◌⊎◌, refl, ap, inl, inr, Option, none, some, Bool, true, false, arith,
}
use micro_adb.Packet.{Packet}
use micro_adb.Client.{Client, Env, Service, StreamState}
use micro_adb.Client.Transport.{set_world}
use micro_adb.Client.Frames.{adb_uv_packet_allocate}
use micro_adb.Client.Receive.{
  Read, no_buffers, nothing, read_error, bytes, adb_uv_allocate_frame, adb_uv_on_data_available,
  adb_uv_after_write,
}
use micro_adb.Client.Stream.{tcp_stream_allocate_frame, tcp_stream_on_data_available}
use micro_adb.Client.Shell.{
  alloc_buffer, pipe_on_data_available, shell_after_write, shell_close_pipe_callback,
  shell_close_process_callback,
}
use micro_adb.Client.Life.{adb_uv_create_client}
use micro_adb.Client.Callbacks.{fwd_tcp_after_write, connect_cb, socket_close_cb}
use micro_adb.Client.Lists.{count_at}
use micro_adb.Client.Walk.{hand}
use micro_adb.Client.Walk.Sends.{allocate-Rel}
use micro_adb.Client.Walk.Callbacks.{
  read_hand, stream_read-Rel, stream_written-Rel, stream_closed-Rel, stream_connected-Rel,
  shell_read-Rel, shell_written-Rel, pipe_closed-Rel, process_closed-Rel,
}
use micro_adb.Client.Ownership.{Level, Same, Ledger, held, Valid}
use micro_adb.Client.Ownership.Laws.{Keeps-same, owned, owned-Renumbers}
use micro_adb.Client.Ownership.Reception.{offered-Keeps, read-Keeps, written-Keeps}

-- libuv ends a write, and the packet is the code's again.
pub record Returned {W : Type 0} (l : Level W) (w w' : W) : Type 0 where
  pub live : l.live w' ≡ l.live w
  pub flight : l.flight w ≡ suc (l.flight w')
  pub lost : l.lost w' ≡ l.lost w

-- A service is in the client's list.
abbrev pub Listed : {W : Type 0} → Service → Client W → Type 0
Listed s c = 0 < count_at s.addr c.services

-- One call of libuv, or something that is none of the client's. A handle that has been closed is
-- not read any more, and its writes end with an error; those of a service that has left the list are left out.
pub data Step {W : Type 0} (e : Env W) (l : Level W) (c : Client W) : Client W → Type 0 where
  allocate_frame : Step e l c (adb_uv_allocate_frame e c).1
  data_available : (r : Read) → Step e l c (adb_uv_on_data_available e c r)
  after_write :
      (w : W) (p : Packet) (ok : Bool)
      → Returned l c.world w
      → Step e l c (adb_uv_after_write e (set_world w c) p ok)
  socket_data :
      (s : Service) (st : StreamState) (p : Packet) (r : Read)
      → (tcp_stream_allocate_frame e c).0 ≡ some p
      → r ≢ no_buffers
      → Listed s (tcp_stream_allocate_frame e c).1
      → Step e l c (tcp_stream_on_data_available e s st p r (tcp_stream_allocate_frame e c).1)
  socket_full :
      (s : Service) (st : StreamState) (p : Packet)
      → (tcp_stream_allocate_frame e c).0 ≡ none
      → Listed s (tcp_stream_allocate_frame e c).1
      → Step e l c
          (tcp_stream_on_data_available e s st p no_buffers (tcp_stream_allocate_frame e c).1)
  socket_written :
      (w : W) (s : Service) (p : Packet) (ok : Bool)
      → Returned l c.world w
      → (ok ≡ true) ⊎ Listed s c
      → Step e l c (fwd_tcp_after_write e s p ok (set_world w c))
  socket_connected :
      (s : Service) (st : StreamState) (ok : Bool) → Step e l c (connect_cb e s st ok c)
  socket_closed : (s : Service) → Step e l c (socket_close_cb e s c)
  shell_data :
      (s : Service) (wait_ack : Bool) (p : Packet) (r : Read)
      → (alloc_buffer e wait_ack c).0 ≡ some p
      → r ≢ no_buffers
      → Listed s (alloc_buffer e wait_ack c).1
      → Step e l c (pipe_on_data_available e s p r (alloc_buffer e wait_ack c).1)
  shell_full :
      (s : Service) (wait_ack : Bool) (p : Packet)
      → (alloc_buffer e wait_ack c).0 ≡ none
      → Listed s (alloc_buffer e wait_ack c).1
      → Step e l c (pipe_on_data_available e s p no_buffers (alloc_buffer e wait_ack c).1)
  shell_written :
      (w : W) (s : Service) (p : Packet) (ok : Bool)
      → Returned l c.world w
      → (ok ≡ true) ⊎ Listed s c
      → Step e l c (shell_after_write e s p ok (set_world w c))
  shell_pipe_closed : (s : Service) → Step e l c (shell_close_pipe_callback e s c)
  shell_closed : (s : Service) → Step e l c (shell_close_process_callback e s c)
  elsewhere : (w : W) → Same l c.world w → Step e l c (set_world w c)

-- From adb_uv_create_client on, in a world in which the client has no packets.
pub data Reach {W : Type 0} (e : Env W) (l : Level W) : Client W → Type 0 where
  start :
      (w : W) (c : Client W)
      → (adb_uv_create_client e w).0 ≡ some c
      → l.live c.world ≡ 0
      → l.flight c.world ≡ 0
      → l.lost c.world ≡ 0
      → Reach e l c
  later : {c c' : Client W} → Reach e l c → Step e l c c' → Reach e l c'

module _ {W : Type 0} (e : Env W) (l : Level W) (b : Ledger e l)
    (positive : 0 < e.config.frame_max) where
  given_back :
      (c : Client W) (w : W)
      → Returned l c.world w
      → Valid e l held 0 c
      → Valid e l held 1 (set_world w c)
  given_back c w r (inl u) = inl u
  given_back c w r (inr o) = inr (record {
    bounded = omega (arith, o.bounded, r.live);
    counted = ground (arith, o.counted, r.live);
    accounted = omega (arith, o.accounted, r.live, r.flight, r.lost);
  })

  in_hand : (n m : ℕ) (c : Client W) → n ≡ m → Valid e l held n c → Valid e l held m c
  in_hand n m c z v = subst (λ i. Valid e l held i c) z v

  one_read : (r : Read) → r ≢ no_buffers → 1 ≡ read_hand 0 r
  one_read no_buffers h = absurd (h refl)
  one_read nothing h = refl
  one_read read_error h = refl
  one_read (bytes bs) h = refl

  allocated :
      (c : Client W) (o : Option Packet)
      → (adb_uv_packet_allocate e c false).0 ≡ o
      → Valid e l held 0 c
      → Valid e l held (hand 0 o) (adb_uv_packet_allocate e c false).1
  allocated c o z v =
      in_hand _ _ _ (ap (hand 0) z) (allocate-Rel e (owned e l held b positive) 0 c false v)

  buffered :
      (c : Client W) (wait_ack : Bool) (o : Option Packet)
      → (alloc_buffer e wait_ack c).0 ≡ o
      → Valid e l held 0 c
      → Valid e l held (hand 0 o) (alloc_buffer e wait_ack c).1
  unfolding alloc_buffer
  buffered c true o z v = allocated (record c { undefined = true }) o z (inl refl)
  buffered c false o z v = allocated c o z v

  pub Step-Valid : {c c' : Client W} → Step e l c c' → Valid e l held 0 c → Valid e l held 0 c'
  unfolding tcp_stream_allocate_frame
  Step-Valid {c} allocate_frame v = offered-Keeps e l b positive c v
  Step-Valid {c} (data_available r) v = read-Keeps e l b positive c r v
  Step-Valid {c} (after_write w p ok r) v = written-Keeps e l b positive _ p ok (given_back c w r v)
  Step-Valid {c} (socket_data s st p r z h i) v =
      stream_read-Rel e (owned e l held b positive) 0 s st p r _ i
        (in_hand 1 _ _ (one_read r h) (allocated c (some p) z v))
  Step-Valid {c} (socket_full s st p z i) v =
      stream_read-Rel e (owned e l held b positive) 0 s st p no_buffers _ i (allocated c none z v)
  Step-Valid {c} (socket_written w s p ok r h) v =
      stream_written-Rel e (owned e l held b positive) 0 s p ok (set_world w c) h
        (given_back c w r v)
  Step-Valid {c} (socket_connected s st ok) v =
      stream_connected-Rel e (owned e l held b positive) (owned-Renumbers e l held b positive) 0 s
        st ok c v
  Step-Valid {c} (socket_closed s) v = stream_closed-Rel e (owned e l held b positive) 0 s c v
  Step-Valid {c} (shell_data s a p r z h i) v =
      shell_read-Rel e (owned e l held b positive) 0 s p r _ i
        (in_hand 1 _ _ (one_read r h) (buffered c a (some p) z v))
  Step-Valid {c} (shell_full s a p z i) v =
      shell_read-Rel e (owned e l held b positive) 0 s p no_buffers _ i (buffered c a none z v)
  Step-Valid {c} (shell_written w s p ok r h) v =
      shell_written-Rel e (owned e l held b positive) 0 s p ok (set_world w c) h
        (given_back c w r v)
  Step-Valid {c} (shell_pipe_closed s) v = pipe_closed-Rel e (owned e l held b positive) 0 s c v
  Step-Valid {c} (shell_closed s) v = process_closed-Rel e (owned e l held b positive) 0 s c v
  Step-Valid {c} (elsewhere w h) v = Keeps-same e l held 0 c _ refl refl refl h v
