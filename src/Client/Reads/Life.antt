-- ===== src/Client/Reads/Life.antt =====
-- hal/hal_uv_packet.c: reception over the whole life of a client. libuv reads the transport until it
-- is closed, and stores no more than it has been offered.
use mathlib.Core.Path.{subst}
use micro_adb.Common.{
  ◌+◌, ◌≤◌, ◌≡◌, ◌⊎◌, refl, sym, inl, inr, Option, none, some, Bool, true, false, not, ◌==◌, ltb,
  if_elim, on_option, on_option_elim, length,
}
use micro_adb.Packet.{Packet}
use micro_adb.Uv.{transport}
use micro_adb.Client.{Client, Env}
use micro_adb.Client.Transport.{set_world}
use micro_adb.Client.Receive.{
  Read, no_buffers, nothing, read_error, bytes, offer, store, take_bytes, adb_uv_allocate_frame,
  adb_uv_on_data_available, adb_uv_after_write,
}
use micro_adb.Client.Receive.Bounds.{MallocSizes, Receiving, room, adb_uv_allocate_frame_inside}
use micro_adb.Client.Receive.Keeps.{Closed, adb_uv_on_data_available-Receiving}
use micro_adb.Client.Stream.{tcp_stream_allocate_frame}
use micro_adb.Client.Shell.{alloc_buffer}
use micro_adb.Client.Life.{adb_uv_create_client}
use micro_adb.Client.Begin.{created-Begun}
use micro_adb.Client.Walk.Sends.{ops_close-Rel, allocate-Rel, data_frame-Rel}
use micro_adb.Client.Walk.Kick.{release-Rel}
use micro_adb.Client.Walk.Callbacks.{
  stream_read-Rel, stream_written-Rel, stream_closed-Rel, stream_connected-Rel, shell_read-Rel,
  shell_written-Rel, pipe_closed-Rel, process_closed-Rel,
}
use micro_adb.Client.Ownership.{Level}
use micro_adb.Client.Ownership.Steps.{
  Step, allocate_frame, data_available, after_write, socket_data, socket_full, socket_written,
  socket_connected, socket_closed, shell_data, shell_full, shell_written, shell_pipe_closed,
  shell_closed, elsewhere,
}
use micro_adb.Client.Reads.{
  Later, Closes, Stays, Stays-same, Stays-trans, Safe, Stays-Safe, watched, watched-Renumbers,
  client_close-closed,
}

module _ {W : Type 0} (e : Env W) where
  -- The bytes of a read fit what adb_uv_allocate_frame has offered for the current packet.
  abbrev pub Fits : Client W → Read → Type 0
  Fits c (bytes bs) = (p : Packet) → c.cur_packet ≡ some p → length bs ≤ (offer e c p).len
  Fits c no_buffers = Unit {0}
  Fits c nothing = Unit {0}
  Fits c read_error = Unit {0}

module _ {W : Type 0} (e : Env W) (l : Level W) (closed : W → Bool) where
  -- libuv reads the transport only while it is open, and within the memory that it was offered; and
  -- nothing else opens a closed transport.
  abbrev pub Proper : {c c' : Client W} → Step e l c c' → Type 0
  Proper {c} allocate_frame = closed c.world ≡ false
  Proper {c} (data_available r) = (closed c.world ≡ false) × Fits e c r
  Proper {c} (after_write w p ok r) = Later closed c.world w
  Proper {c} (socket_written w s p ok r h) = Later closed c.world w
  Proper {c} (shell_written w s p ok r h) = Later closed c.world w
  Proper {c} (elsewhere w h) = Later closed c.world w
  Proper {c} (socket_data s st p r z h i) = Unit {0}
  Proper {c} (socket_full s st p z i) = Unit {0}
  Proper {c} (socket_connected s st ok) = Unit {0}
  Proper {c} (socket_closed s) = Unit {0}
  Proper {c} (shell_data s a p r z h i) = Unit {0}
  Proper {c} (shell_full s a p z i) = Unit {0}
  Proper {c} (shell_pipe_closed s) = Unit {0}
  Proper {c} (shell_closed s) = Unit {0}

  -- From adb_uv_create_client on.
  pub data Reads : Client W → Type 0 where
    start : (w : W) (c : Client W) → (adb_uv_create_client e w).0 ≡ some c → Reads c
    later : {c c' : Client W} → Reads c → (s : Step e l c c') → Proper s → Reads c'

module _ {W : Type 0} (e : Env W) (closed : W → Bool) (b : Closes e closed)
    (m : MallocSizes e) where
  moved : (w : W) (c : Client W) → Later closed c.world w → Stays e closed c (set_world w c)
  moved w c h = Stays-same e closed _ _ refl refl refl h

  opened_again :
      (c : Client W) → closed c.world ≡ false → Safe e closed c → Receiving e c c.cur_packet
  opened_again c z (inl u) = cc
  opened_again c z (inr r) = r

  dropped-Safe : (c : Client W) → c.cur_packet ≡ none → Safe e closed c
  dropped-Safe c z = inr (rw z tt)

  stored-Safe : (c c' : Client W) → Closed e c' ⊎ Receiving e c' c'.cur_packet → Safe e closed c'
  stored-Safe c c' (inl (d, z)) = inl (rw z (client_close-closed e closed b d))
  stored-Safe c c' (inr r) = inr r

  read-Safe :
      (c : Client W) (r : Read) (o : Option Packet)
      → c.cur_packet ≡ o
      → Fits e c r
      → closed c.world ≡ false
      → Safe e closed c
      → Safe e closed (adb_uv_on_data_available e c r)
  unfolding adb_uv_on_data_available
  read-Safe c no_buffers o z f y s =
      let w = e.uv.read_stop transport c.world in
      Stays-Safe e closed c (set_world w c) (moved w c (b.uv.read_stop transport c.world)) s
  read-Safe c read_error o z f y s = inl (client_close-closed e closed b c)
  read-Safe c nothing o z f y s =
      if_elim (Safe e closed) (c.cur_len == 0)
        (on_option_elim (Safe e closed) c.cur_packet s (λ p. inr tt)) s
  read-Safe c (bytes bs) none z f y s =
      subst
        (λ (q : Option Packet). Safe e closed (
          on_option q (record c { undefined = true })
            (λ p. take_bytes e c (store c.cur_len bs p) (length bs))))
        (sym z) s
  read-Safe c (bytes bs) (some p) z f y s =
      let r : Receiving e c c.cur_packet = opened_again c y s in
      stored-Safe c (adb_uv_on_data_available e c (bytes bs))
        (adb_uv_on_data_available-Receiving e c p bs z (subst (Receiving e c) z r) (f p z))

  written-Stays :
      (c : Client W) (p : Packet) (ok : Bool) → Stays e closed c (adb_uv_after_write e c p ok)
  unfolding adb_uv_after_write
  written-Stays c p ok =
      let k = watched e closed b in
      if_elim (Stays e closed c) (not ok)
        (Stays-trans e closed (release-Rel e k 0 c p) (ops_close-Rel e k 0 e.ops _))
        (if_elim (Stays e closed c) (ltb 0 p.write_len) (data_frame-Rel e k 0 c p)
          (release-Rel e k 0 c p))

  buffered-Stays : (c : Client W) (wait_ack : Bool) → Stays e closed c (alloc_buffer e wait_ack c).1
  unfolding alloc_buffer
  buffered-Stays c true =
      let d = record c { undefined = true } in
      Stays-trans e closed (Stays-same e closed c d refl refl refl (λ z. z))
        (allocate-Rel e (watched e closed b) 0 d false)
  buffered-Stays c false = allocate-Rel e (watched e closed b) 0 c false

  Step-Safe :
      (l : Level W) {c c' : Client W} (s : Step e l c c')
      → Proper e l closed s
      → Safe e closed c
      → Safe e closed c'
  unfolding tcp_stream_allocate_frame
  Step-Safe l {c} allocate_frame y v =
      inr ((adb_uv_allocate_frame_inside e c m (opened_again c y v)).1)
  Step-Safe l {c} (data_available r) f v = read-Safe c r c.cur_packet refl f.1 f.0 v
  Step-Safe l {c} (after_write w p ok r) h v =
      Stays-Safe e closed c _
        (Stays-trans e closed (moved w c h) (written-Stays (set_world w c) p ok)) v
  Step-Safe l {c} (socket_data s st p r z h i) f v =
      let k = watched e closed b in
      Stays-Safe e closed c _
        (Stays-trans e closed (allocate-Rel e k 0 c false) (stream_read-Rel e k 0 s st p r _ i)) v
  Step-Safe l {c} (socket_full s st p z i) f v =
      let k = watched e closed b in
      Stays-Safe e closed c _
        (Stays-trans e closed (allocate-Rel e k 0 c false)
          (stream_read-Rel e k 0 s st p no_buffers _ i))
        v
  Step-Safe l {c} (socket_written w s p ok r i) h v =
      Stays-Safe e closed c _
        (Stays-trans e closed (moved w c h)
          (stream_written-Rel e (watched e closed b) 0 s p ok (set_world w c) i))
        v
  Step-Safe l {c} (socket_connected s st ok) f v =
      Stays-Safe e closed c _
        (stream_connected-Rel e (watched e closed b) (watched-Renumbers e closed b) 0 s st ok c) v
  Step-Safe l {c} (socket_closed s) f v =
      Stays-Safe e closed c _ (stream_closed-Rel e (watched e closed b) 0 s c) v
  Step-Safe l {c} (shell_data s a p r z h i) f v =
      Stays-Safe e closed c _
        (Stays-trans e closed (buffered-Stays c a)
          (shell_read-Rel e (watched e closed b) 0 s p r _ i))
        v
  Step-Safe l {c} (shell_full s a p z i) f v =
      Stays-Safe e closed c _
        (Stays-trans e closed (buffered-Stays c a)
          (shell_read-Rel e (watched e closed b) 0 s p no_buffers _ i))
        v
  Step-Safe l {c} (shell_written w s p ok r i) h v =
      Stays-Safe e closed c _
        (Stays-trans e closed (moved w c h)
          (shell_written-Rel e (watched e closed b) 0 s p ok (set_world w c) i))
        v
  Step-Safe l {c} (shell_pipe_closed s) f v =
      Stays-Safe e closed c _ (pipe_closed-Rel e (watched e closed b) 0 s c) v
  Step-Safe l {c} (shell_closed s) f v =
      Stays-Safe e closed c _ (process_closed-Rel e (watched e closed b) 0 s c) v
  Step-Safe l {c} (elsewhere w i) h v = Stays-Safe e closed c _ (moved w c h) v

  Reads-Safe : (l : Level W) {c : Client W} → Reads e l closed c → Safe e closed c
  Reads-Safe l (start w c h) = dropped-Safe c ((created-Begun e w).fresh c h).packet
  Reads-Safe l (later r s h) = Step-Safe l s h (Reads-Safe l r)

  -- In any state that a client reaches by libuv's calls, a read of the transport never goes past the
  -- packet in reception: while the transport is open, the memory that adb_uv_allocate_frame offers
  -- lies inside the packet that is then in reception. Of libuv it is asked that it stores no more
  -- than it is offered and that it does not read a closed handle, of malloc that a packet has the
  -- payload asked for; of the peer nothing. Writes of a service that fail once it has left the list
  -- are left out.
  pub Reads-inside :
      (l : Level W) {c : Client W}
      → Reads e l closed c
      → closed c.world ≡ false
      → let r = adb_uv_allocate_frame e c in r.0.base + r.0.len ≤ room e r.1.cur_packet
  Reads-inside l {c} r z =
      (adb_uv_allocate_frame_inside e c m (opened_again c z (Reads-Safe l r))).0
