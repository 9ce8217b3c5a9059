-- ===== src/Client/Numbered.antt =====
-- adb_client.c: the ids of a client's services, of which a number may have been given up for 0.
use micro_adb.Common.{
  ℕ, ◌+◌, ◌%◌, ◌^◌, ◌≤◌, ◌<◌, ◌≡◌, refl, List, Option, none, some, not, ◌&&◌, ◌==◌, on_option,
  if_elim, on_option_elim, arith,
}
use micro_adb.Packet.{Packet, a_cnxn, a_auth, a_open, a_clse, a_wrte, a_okay}
use micro_adb.Client.{Client, Env, Service}
use micro_adb.Client.Transport.{set_world}
use micro_adb.Client.Frames.{set_write_len}
use micro_adb.Client.Services.{adb_register_service}
use micro_adb.Client.Open.{make_service, adb_service_open}
use micro_adb.Client.Handlers.{
  refuse_open, accept_open, handle_open_frame, terminate, connect, handle_auth_frame, dispatch,
  process_frame, adb_process_packet,
}
use micro_adb.Client.Lists.{count}
use micro_adb.Client.Steady.{
  Steady, Steady-same, release-Steady, send_close_frame-Steady, okay_with_data-Steady,
}
use micro_adb.Client.Steady.{
  handle_write_frame-Steady, handle_okay_frame-Steady, handle_close_frame-Steady,
  invalid_frame-Steady, send_cnxn_frame-Steady, send_auth_request-Steady,
}

module _ {W : Type 0} where
  -- Every id above 0 is the id of one service at most and lies below the next one, and no more than
  -- `u` services have the id 0.
  pub record Numbered (u : ℕ) (c : Client W) : Type 0 where
    pub next : 0 < c.next_service_id
    pub once : (i : ℕ) → 0 < i → count i c.services ≤ 1
    pub below : (i : ℕ) → 0 < count i c.services → i < c.next_service_id
    pub above : count 0 c.services ≤ u

module _ {W : Type 0} (u : ℕ) where
  pub Numbered-Steady : (c c' : Client W) → Numbered u c → Steady c c' → Numbered u c'
  Numbered-Steady c c' h k = record {
    next = omega (arith, h.next, k.next);
    once = λ i p. omega (arith, h.once i, k.ids i);
    below = λ i q. omega (arith, h.below i (omega (arith, q, k.ids i)), k.next);
    above = omega (arith, h.above, k.ids 0);
  }

  Numbered-next :
      (c : Client W)
      → Numbered u c
      → c.next_service_id + 1 < 2 ^ 32
      → Numbered u (record c { next_service_id = (c.next_service_id + 1) % 2 ^ 32 })
  Numbered-next c h n = record {
    next = omega (arith, h.next);
    once = h.once;
    below = λ i q. omega (arith, h.below i q);
    above = h.above;
  }

  pub Numbered-world : (w : W) (c : Client W) → Numbered u c → Numbered u (set_world w c)
  Numbered-world w c h = record { next = h.next; once = h.once; below = h.below; above = h.above }

  -- A new service has an id that no other has, and the next id is greater.
  adb_register_service-Numbered :
      (s : Service) (c : Client W)
      → Numbered u c
      → c.next_service_id + 1 < 2 ^ 32
      → Numbered u (adb_register_service s c).1
  unfolding adb_register_service
  adb_register_service-Numbered s c h n = record {
    next = omega (arith, h.next);
    once = λ i p. ground (arith, h.once i, h.below i);
    below = λ i q. ground (arith, h.below i);
    above = ground (arith, h.above, h.next);
  }

module _ {W : Type 0} (e : Env W) (u : ℕ) where
  -- What OPEN leaves for the frame that answers it: the ids are right, and where there is no new
  -- service the next id has not been taken.
  record Opened (c : Client W) (r : Option Service × Packet × Client W) : Type 0 where
    ids : Numbered u r.2
    unused : r.0 ≡ none → r.2.next_service_id ≡ c.next_service_id

  register-Opened :
      (c : Client W) (s : Service) (p : Packet) (w : W)
      → Numbered u c
      → c.next_service_id + 1 < 2 ^ 32
      → Opened c (
        some (adb_register_service s (set_world w c)).0,
        p,
        (adb_register_service s (set_world w c)).1,
      )
  register-Opened c s p w h n = record {
    ids = adb_register_service-Numbered u _ _ (Numbered-world u _ c h) n;
    unused = λ z. cc;
  }

  service_open-Opened :
      (c : Client W) (name : List ℕ) (p : Packet)
      → Numbered u c
      → c.next_service_id + 1 < 2 ^ 32
      → Opened c (adb_service_open e c name p)
  unfolding adb_service_open
  service_open-Opened c name p h n =
      if_elim (Opened c) (c.next_service_id == 0)
        (record {
          ids = Numbered-Steady u c _ h (Steady-same _ _ refl refl refl refl refl);
          unused = λ z. refl;
        })
        (on_option_elim (Opened c) (make_service e name p c.world).0
          (record { ids = Numbered-world u _ c h; unused = λ z. refl })
          (λ s. register-Opened c (record s { peer_id = p.arg0 }) _ _ h n))

  refuse_open-Numbered :
      (p : Packet) (c : Client W)
      → Numbered u c
      → c.next_service_id + 1 < 2 ^ 32
      → Numbered u (refuse_open e p c)
  unfolding refuse_open
  refuse_open-Numbered p c h n =
      if_elim (Numbered u) _
        (Numbered-Steady u _ _ (Numbered-next u c h n) (okay_with_data-Steady e _ p _ _))
        (Numbered-Steady u c _ h (send_close_frame-Steady e c p _ _))

  accept_open-Numbered :
      (p : Packet) (c : Client W) (s : Service) → Numbered u c → Numbered u (accept_open e p c s)
  unfolding accept_open
  accept_open-Numbered p c s h =
      if_elim (Numbered u) _ (Numbered-Steady u c _ h (release-Steady e c p))
        (Numbered-Steady u c _ h (okay_with_data-Steady e c p _ _))

  answer_open-Numbered :
      (c : Client W) (r : Option Service × Packet × Client W)
      → c.next_service_id + 1 < 2 ^ 32
      → Opened c r
      → Numbered u (on_option r.0 (refuse_open e r.1 r.2) (accept_open e r.1 r.2))
  answer_open-Numbered c (none, p, c') n h =
      refuse_open-Numbered p c' h.ids (omega (arith, h.unused refl, n))
  answer_open-Numbered c (some s, p, c') n h = accept_open-Numbered p c' s h.ids

  handle_open_frame-Numbered :
      (c : Client W) (p : Packet)
      → Numbered u c
      → c.next_service_id + 1 < 2 ^ 32
      → Numbered u (handle_open_frame e c p)
  unfolding handle_open_frame
  handle_open_frame-Numbered c p h n =
      if_elim (Numbered u) _ (Numbered-Steady u c _ h (release-Steady e c _)) (
        answer_open-Numbered c (adb_service_open e c (terminate e p).payload (terminate e p)) n
          (service_open-Opened c _ _ h n))

  dispatch-Numbered :
      (c : Client W) (p : Packet)
      → Numbered u c
      → c.next_service_id + 1 < 2 ^ 32
      → Numbered u (dispatch e c p)
  unfolding dispatch
  dispatch-Numbered c p h n =
      if_elim (Numbered u) (p.command == a_open) (handle_open_frame-Numbered c p h n) (
        if_elim (Numbered u) (p.command == a_clse)
          (Numbered-Steady u c _ h (handle_close_frame-Steady e c p))
          (if_elim (Numbered u) (p.command == a_wrte)
            (Numbered-Steady u c _ h (handle_write_frame-Steady e c p))
            (if_elim (Numbered u) (p.command == a_okay)
              (Numbered-Steady u c _ h (handle_okay_frame-Steady e c p))
              (Numbered-Steady u c _ h (invalid_frame-Steady e c p)))))

  connect-Numbered : (c : Client W) (p : Packet) → Numbered u c → Numbered u (connect e c p)
  unfolding connect
  connect-Numbered c p h =
      let k = Numbered-Steady u c _ h (send_cnxn_frame-Steady e c p) in
      record { next = k.next; once = k.once; below = k.below; above = k.above }

  handle_auth_frame-Numbered :
      (c : Client W) (p : Packet) → Numbered u c → Numbered u (handle_auth_frame e c p)
  unfolding handle_auth_frame
  handle_auth_frame-Numbered c p h =
      if_elim (Numbered u) _ (Numbered-Steady u c _ h (release-Steady e c p)) (
        if_elim (Numbered u) _ (Numbered-Steady u c _ h (send_auth_request-Steady e c p)) (
          if_elim (Numbered u) _ (connect-Numbered c p h)
            (Numbered-Steady u c _ h (release-Steady e c p))))

  -- Any frame leaves the ids so, until the next id is the last of its 32 bits.
  pub adb_process_packet-Numbered :
      (c : Client W) (p : Packet)
      → Numbered u c
      → c.next_service_id + 1 < 2 ^ 32
      → Numbered u (adb_process_packet e c p)
  unfolding adb_process_packet process_frame
  adb_process_packet-Numbered c p h n =
      let q = set_write_len 0 p in
      if_elim (Numbered u) (q.command == a_cnxn)
        (if_elim (Numbered u) (e.config.authentication && not c.is_connected)
          (Numbered-Steady u c _ h (send_auth_request-Steady e c q)) (connect-Numbered c q h))
        (if_elim (Numbered u) (e.config.authentication && q.command == a_auth)
          (if_elim (Numbered u) c.is_connected
            (Numbered-Steady u c _ h (invalid_frame-Steady e c q))
            (handle_auth_frame-Numbered c q h))
          (dispatch-Numbered c q h n))
