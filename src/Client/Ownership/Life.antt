-- ===== src/Client/Ownership/Life.antt =====
-- The accounts of a client from its creation to its end.
use mathlib.Core.Path.{subst}
use micro_adb.Common.{
  if_elim, ℕ, suc, ◌+◌, ◌<◌, ◌≤◌, ◌≡◌, refl, ap, sym, ◌∙◌, inl, inr, List, [], ◌∷◌, Option, none,
  some, false, arith,
}
use micro_adb.Packet.{Packet}
use micro_adb.Client.{Client, Env, Service}
use micro_adb.Client.Services.{
  unlink, end_service, freed_in_use, close_body, close_in, adb_service_close,
}
use micro_adb.Client.Life.{
  adb_uv_create_client, adb_create_client, adb_hal_create_client, adb_init_client, destroy_from,
  adb_destroy_client, drop_packet, adb_uv_close_client,
}
use micro_adb.Client.Handlers.{adb_process_packet}
use micro_adb.Client.Walk.Closes.{close_body-Quiet}
use micro_adb.Client.Walk.Process.{process_packet-Rel}
use micro_adb.Client.Ownership.{Level, Same, Ledger, held, Valid}
use micro_adb.Client.Ownership.Laws.{owned, owned-Bears}
use micro_adb.Client.Ownership.Reception.{drop_packet-Keeps}
use micro_adb.Client.Ownership.Steps.{Returned, Reach, start, later, Step-Valid}

-- What on_close of each service of a list leaves of the world.
abbrev pub close_all : {W : Type 0} → Env W → List Service → W → W
close_all e [] w = w
close_all e (s ∷ ss) w = close_all e ss (close_body e s.addr s.body w)

unlink-head : (s : Service) (ss : List Service) → unlink (s ∷ ss) s.addr ≡ some (s, ss)
unfolding unlink
unlink-head s ss = ground arith

module _ {W : Type 0} (e : Env W) where
  created :
      (w : W) (c : Client W)
      → (adb_uv_create_client e w).0 ≡ some c
      → (c.frame_count ≡ 0) × (c.cur_packet ≡ none)
  unfolding adb_uv_create_client adb_create_client adb_hal_create_client adb_init_client
  created w c h = ground (arith, h)

  -- A client without a service, whose on_close has run.
  abbrev Closed : Service → List Service → Client W → Client W → Type 0
  Closed s ss c c' = (c'.world ≡ close_body e s.addr s.body c.world) × (c'.services ≡ ss)

  close_in-head :
      (s : Service) (ss : List Service) (c : Client W)
      → Closed s ss c (close_in e (s ∷ ss) s.addr none c)
  unfolding close_in end_service
  close_in-head s ss c =
      rw (unlink-head s ss)
        (if_elim (Closed s ss c) (freed_in_use s.body) (refl, refl) (refl, refl))

  service_close-head :
      (s : Service) (ss : List Service) (c : Client W)
      → c.services ≡ s ∷ ss
      → Closed s ss c (adb_service_close e c s.addr none)
  unfolding adb_service_close
  service_close-head s ss c h =
      subst (λ list. Closed s ss c (close_in e list s.addr none c)) (sym h) (close_in-head s ss c)

  abbrev Ended : List Service → Client W → Client W → Type 0
  Ended ss c c' = (c'.world ≡ close_all e ss c.world) × (c'.services ≡ [])

  destroy_from-Ended :
      (ss : List Service) (c : Client W) → c.services ≡ ss → Ended ss c (destroy_from e ss c)
  unfolding destroy_from
  destroy_from-Ended [] c h = (refl, h)
  destroy_from-Ended (s ∷ ss) c h =
      let (w, z) = service_close-head s ss c h in
      let (x, y) = destroy_from-Ended ss (adb_service_close e c s.addr none) z in
      (x ∙ ap (close_all e ss) w, y)

  -- adb_destroy_client calls the on_close of every service of the client once, in the order of the
  -- list and without a CLSE, and then frees the client.
  pub adb_destroy_client-close_all :
      (c : Client W) → adb_destroy_client e c ≡ e.uv.free_client (close_all e c.services c.world)
  unfolding adb_destroy_client
  adb_destroy_client-close_all c = ap e.uv.free_client (destroy_from-Ended c.services c refl).0

  drop_packet-none :
      (c : Client W) (o : Option Packet) → c.cur_packet ≡ o → (drop_packet e o c).cur_packet ≡ none
  unfolding drop_packet
  drop_packet-none c none h = h
  drop_packet-none c (some p) h = refl

module _ {W : Type 0} (e : Env W) (l : Level W) (b : Ledger e l)
    (positive : 0 < e.config.frame_max) where
  close_all-Same : (ss : List Service) (w : W) → Same l w (close_all e ss w)
  close_all-Same [] w = b.os.same w
  close_all-Same (s ∷ ss) w =
      b.os.next (close_body-Quiet e (owned e l held b positive) s.addr s.body w)
        (close_all-Same ss _)

  -- adb_process_packet disposes of its packet once, for any frame, if the code is still defined: it
  -- releases it, or hands it to libuv for a write, or loses it in a write of the transport that fails,
  -- after which nothing releases it. With the packet and n others in the hands of the code before, n
  -- are left after, and the accounts, which count lost packets, stay right, where FRAME_MAX is not 0
  -- and only malloc and free of a packet and its writes change what the accounts count.
  pub adb_process_packet-Valid :
      (n : ℕ) (c : Client W) (p : Packet)
      → Valid e l held (suc n) c
      → Valid e l held n (adb_process_packet e c p)
  adb_process_packet-Valid n c p v =
      process_packet-Rel e (owned e l held b positive) (owned-Bears e l held b positive) n c p v

  -- In every state that a client reaches from its creation on by libuv's calls, in which no write of a
  -- service fails once the service has left the list, the code has no defined behaviour or the accounts
  -- are right: at most FRAME_MAX packets are allocated, frame_count tells how many unless the limit has
  -- been met, and each is the one in reception, or libuv's for a write, or lost by a write of the
  -- transport that failed. FRAME_MAX is not 0, and only malloc and free of a packet and its writes
  -- change what the accounts stand on.
  pub Reach-Valid : {c : Client W} → Reach e l c → Valid e l held 0 c
  Reach-Valid (start w c h v f t) =
      let (n, o) = created e w c h in
      inr (record {
        bounded = omega (arith, v);
        counted = inl (n ∙ sym v);
        accounted = omega (arith, v, f, t, ap held o);
      })
  Reach-Valid (later r s) = Step-Valid e l b positive s (Reach-Valid r)

  -- Under the conditions of Reach-Valid, in every state that a client reaches and in which the code is
  -- still defined, the packet that libuv gives back after a write can be released:
  -- `assert(client->frame_count > 0)` holds, and no more than FRAME_MAX packets are allocated.
  pub Reach-frame_count :
      (c : Client W) (w : W)
      → Reach e l c
      → c.undefined ≡ false
      → Returned l c.world w
      → (0 < c.frame_count) × (l.live w ≤ e.config.frame_max)
  Reach-frame_count c w r d back = elim (Reach-Valid r) [
    | inl u ↦ cc
    | inr o ↦ (
      ground (arith, o.counted, o.accounted, back.flight, positive),
      omega (arith, o.bounded, back.live),
    )
  ]

  -- Under the conditions of Reach-Valid, when a client is closed in a state that it reaches, and the
  -- release of the packet in reception is defined, no packet is left but those that libuv still writes
  -- and those that a failed write has lost.
  pub adb_uv_close_client-live :
      (c : Client W)
      → Reach e l c
      → (drop_packet e c.cur_packet c).undefined ≡ false
      → let w = adb_uv_close_client e c in l.live w ≡ l.flight w + l.lost w
  unfolding adb_uv_close_client
  adb_uv_close_client-live c r d =
      elim (drop_packet-Keeps e l b positive c c.cur_packet refl (Reach-Valid r)) [
        | inl u ↦ cc
        | inr o ↦
            let c' = drop_packet e c.cur_packet c in
            let s = b.os.next (close_all-Same c'.services c'.world) (b.uv.free_client _) in
            rw (adb_destroy_client-close_all e c') (
              omega (
                arith,
                o.accounted,
                s.live,
                s.flight,
                s.lost,
                ap held (drop_packet-none e c c.cur_packet refl),
              ))
      ]
