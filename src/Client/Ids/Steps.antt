-- ===== src/Client/Ids/Steps.antt =====
-- adb_client.c: the ids of the services under reception, the ends of writes and connections.
use micro_adb.Common.{
  ℕ, zero, suc, ◌+◌, ◌^◌, ◌≤◌, ◌<◌, ◌≡◌, refl, List, [], ◌∷◌, Option, none, some, Bool, true, false,
  not, ◌==◌, ltb, if_elim, on_option_elim, arith, length,
}
use micro_adb.Packet.{Packet, sizeof_message}
use micro_adb.Frame.{check_frame_data}
use micro_adb.Client.{Client, Env, Service, tcp, StreamState, f_error_close, f_notify_client}
use micro_adb.Client.Transport.{set_world}
use micro_adb.Client.Frames.{adb_uv_packet_allocate}
use micro_adb.Client.Kick.{try_close, adb_hal_apacket_release}
use micro_adb.Client.Services.{update, update_service}
use micro_adb.Client.Receive.{
  Read, no_buffers, nothing, read_error, bytes, start_packet, allocate_for, store, take_bytes,
  complete_packet, bad_header, adb_uv_on_data_available, adb_uv_after_write,
}
use micro_adb.Client.Stream.{refuse_connection, tcp_stream_on_connect_cb, is_not_connected}
use micro_adb.Client.Shell.{alloc_buffer}
use micro_adb.Client.Lists.{count}
use micro_adb.Client.Steady.{
  Steady, Steady-same, Steady-trans, steady, allocate-Steady, ops_close-Steady, release-Steady,
}
use micro_adb.Client.Walk.Sends.{data_frame-Rel}
use micro_adb.Client.Walk.Kick.{set_body-Rel, try_connect-Rel, try_close-Kicked, go_on}
use micro_adb.Client.Numbered.{
  Numbered, Numbered-Steady, Numbered-world, adb_process_packet-Numbered,
}

-- A service that gives its id up for 0.
count-update_zero :
    (i addr : ℕ) (f : Service → Service) (ss : List Service)
    → ((s : Service) → (f s).id ≡ 0)
    → 0 < i
    → count i (update ss addr f) ≤ count i ss
unfolding update
count-update_zero i addr f [] h p = omega arith
count-update_zero i addr f (s ∷ ss) h p = ground (arith, h s, count-update_zero i addr f ss h p)

count-update_more :
    (addr : ℕ) (f : Service → Service) (ss : List Service)
    → ((s : Service) → (f s).id ≡ 0)
    → count 0 (update ss addr f) ≤ count 0 ss + 1
unfolding update
count-update_more addr f [] h = omega arith
count-update_more addr f (s ∷ ss) h = ground (arith, h s, count-update_more addr f ss h)

module _ {W : Type 0} where
  -- Every id above 0 is the id of one service at most, and every id lies below the next one.
  pub record Named (c : Client W) : Type 0 where
    pub zeros : ℕ
    pub numbered : Numbered zeros c

  pub Named-Steady : (c c' : Client W) → Steady c c' → Named c → Named c'
  Named-Steady c c' h n = record {
    zeros = n.zeros;
    numbered = Numbered-Steady n.zeros c c' n.numbered h;
  }

  same-Named :
      (c c' : Client W)
      → c'.next_service_id ≡ c.next_service_id
      → c'.services ≡ c.services
      → Named c
      → Named c'
  same-Named c c' z y n = record {
    zeros = n.zeros;
    numbered = record {
      next = omega (arith, z, n.numbered.next);
      once = λ i p. rw y (n.numbered.once i p);
      below = λ i. rw (z, y) (n.numbered.below i);
      above = rw y n.numbered.above;
    };
  }

  pub moved-Named : (w : W) (c : Client W) → Named c → Named (set_world w c)
  moved-Named w c n = record { zeros = n.zeros; numbered = Numbered-world n.zeros w c n.numbered }

  zeroed :
      (u addr : ℕ) (f : Service → Service) (c : Client W)
      → ((s : Service) → (f s).id ≡ 0)
      → Numbered u c
      → Numbered (u + 1) (update_service addr f c)
  unfolding update_service
  zeroed u addr f c h n = record {
    next = n.next;
    once = λ i p. omega (arith, count-update_zero i addr f c.services h p, n.once i p);
    below = λ i q. below_zero i q;
    above = omega (arith, count-update_more addr f c.services h, n.above);
  }
    where
      below_zero : (i : ℕ) → 0 < count i (update c.services addr f) → i < c.next_service_id
      below_zero zero q = n.next
      below_zero (suc i) q =
          n.below (suc i)
            (omega (arith, count-update_zero (suc i) addr f c.services h (omega arith), q))

module _ {W : Type 0} (e : Env W) where
  refuse_connection-Named : (s : Service) (c : Client W) → Named c → Named (refuse_connection e s c)
  unfolding refuse_connection
  refuse_connection-Named s c n =
      let s' = record s { id = 0; body = tcp f_error_close } in
      let c₁ = update_service s.addr (λ t. record t { id = 0; body = tcp f_error_close }) c in
      Named-Steady c₁ _
        (go_on e (steady e) 0 c₁ (try_close e s' c₁) (try_close-Kicked e (steady e) 0 s' c₁))
        (record {
          zeros = n.zeros + 1;
          numbered = zeroed n.zeros s.addr _ c (λ t. refl) n.numbered;
        })

  pub on_connect-Named :
      (s : Service) (st : StreamState) (ok : Bool) (c : Client W)
      → Named c
      → Named (tcp_stream_on_connect_cb e s st ok c)
  unfolding tcp_stream_on_connect_cb
  on_connect-Named s st ok c n =
      if_elim Named ok
        (if_elim Named (is_not_connected st)
          (Named-Steady c _
            (Steady-trans (set_body-Rel e (steady e) 0 s.addr (tcp f_notify_client) c)
              (try_connect-Rel e (steady e) 0 s _))
            n)
          (refuse_connection-Named s c n))
        (refuse_connection-Named s c n)

  start_packet-Named : (r : Option Packet × Client W) → Named r.1 → Named (start_packet e r.0 r.1).1
  unfolding start_packet
  start_packet-Named (none, c) n = n
  start_packet-Named (some p, c) n = same-Named c _ refl refl n

  pub allocate_for-Named :
      (c : Client W) (o : Option Packet) → Named c → Named (allocate_for e o c).1
  unfolding allocate_for
  allocate_for-Named c (some p) n = n
  allocate_for-Named c none n =
      start_packet-Named (adb_uv_packet_allocate e c (not c.is_connected))
        (Named-Steady c _ (allocate-Steady e c (not c.is_connected)) n)

  complete_packet-Named :
      (c : Client W) (p : Packet)
      → Named c
      → c.next_service_id + 1 < 2 ^ 32
      → Named (complete_packet e c p)
  unfolding complete_packet
  complete_packet-Named c p n h =
      let d = record c { cur_packet = none } in
      let m = same-Named c d refl refl n in
      if_elim Named (check_frame_data p)
        (record {
          zeros = m.zeros;
          numbered = adb_process_packet-Numbered e m.zeros d p m.numbered h;
        })
        (Named-Steady c _ (ops_close-Steady e e.ops c) n)

  take_bytes-Named :
      (c : Client W) (p : Packet) (k : ℕ)
      → Named c
      → c.next_service_id + 1 < 2 ^ 32
      → Named (take_bytes e c p k)
  unfolding take_bytes
  take_bytes-Named c p k n h =
      let d = record c { cur_packet = some p } in
      let d' = record c { cur_len = c.cur_len + k; cur_packet = some p } in
      if_elim Named (bad_header e c p k)
        (Named-Steady d _ (ops_close-Steady e e.ops d) (same-Named c d refl refl n))
        (if_elim Named (ltb (c.cur_len + k) (sizeof_message + p.data_length))
          (same-Named c d' refl refl n)
          (complete_packet-Named d' p (same-Named c d' refl refl n) h))

  pub read-Named :
      (c : Client W) (r : Read)
      → Named c
      → c.next_service_id + 1 < 2 ^ 32
      → Named (adb_uv_on_data_available e c r)
  unfolding adb_uv_on_data_available
  read-Named c no_buffers n h = moved-Named _ c n
  read-Named c read_error n h = Named-Steady c _ (ops_close-Steady e e.ops c) n
  read-Named c nothing n h =
      if_elim Named (c.cur_len == 0)
        (on_option_elim Named c.cur_packet (same-Named c _ refl refl n) (λ p.
          same-Named (adb_hal_apacket_release e c p) _ refl refl
            (Named-Steady c _ (release-Steady e c p) n)))
        n
  read-Named c (bytes bs) n h =
      on_option_elim Named c.cur_packet (same-Named c _ refl refl n)
        (λ p. take_bytes-Named c (store c.cur_len bs p) (length bs) n h)

  pub written-Steady :
      (c : Client W) (p : Packet) (ok : Bool) → Steady c (adb_uv_after_write e c p ok)
  unfolding adb_uv_after_write
  written-Steady c p ok =
      if_elim (Steady c) (not ok) (Steady-trans (release-Steady e c p) (ops_close-Steady e e.ops _))
        (if_elim (Steady c) (ltb 0 p.write_len) (data_frame-Rel e (steady e) 0 c p)
          (release-Steady e c p))

  pub buffered-Steady : (c : Client W) (wait_ack : Bool) → Steady c (alloc_buffer e wait_ack c).1
  unfolding alloc_buffer
  buffered-Steady c true =
      let d = record c { undefined = true } in
      Steady-trans (Steady-same c d refl refl refl refl refl) (allocate-Steady e d false)
  buffered-Steady c false = allocate-Steady e c false
