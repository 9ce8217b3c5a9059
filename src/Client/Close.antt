-- ===== src/Client/Close.antt =====
-- adb_client.c: how a service is found under its id after it is registered, and no longer after a
-- CLSE.
use micro_adb.Common.{
  ℕ, ◌≤◌, ◌<◌, ◌≡◌, ◌≢◌, ◌⊎◌, refl, List, [], ◌∷◌, Option, none, some, ◌&&◌, ◌||◌, ◌==◌, arith,
  Bool-cases, inl, inr,
}
use micro_adb.Packet.{Packet}
use micro_adb.Client.{Client, Env, Service}
use micro_adb.Client.Services.{
  find_service, unlink, adb_register_service, adb_service_close, close_in,
}
use micro_adb.Client.Handlers.{handle_close_frame}
use micro_adb.Client.Lists.{count, count_at, count-unlink, find_service-count_at}
use micro_adb.Client.Steady.{release-Steady, end_service-Steady}

find_service-count :
    (ss : List Service) (id peer : ℕ) → count id ss ≡ 0 → find_service ss id peer ≡ none
unfolding find_service
find_service-count [] id peer h = refl
find_service-count (s ∷ ss) id peer h = ground (arith, find_service-count ss id peer)

find_service-id :
    (ss : List Service) (id peer : ℕ) (s : Service) → find_service ss id peer ≡ some s → s.id ≡ id
unfolding find_service
find_service-id [] id peer s h = cc
find_service-id (t ∷ ss) id peer s h = ground (arith, find_service-id ss id peer s)

-- A service that is found, and that alone stands at its address, is the one that is unlinked.
find_service-unlink :
    (ss : List Service) (id peer : ℕ) (s : Service)
    → find_service ss id peer ≡ some s
    → count_at s.addr ss ≤ 1
    → (rest : List Service) × (unlink ss s.addr ≡ some (s, rest))
unfolding find_service unlink
find_service-unlink [] id peer s h k = cc
find_service-unlink (t ∷ ss) id peer s h k =
    elim (Bool-cases (t.id == id && (peer == 0 || t.peer_id == peer))) [
      | inl z ↦ (ss, ground (arith, h, z))
      | inr z ↦
          let h' : find_service ss id peer ≡ some s = ground (arith, h, z) in
          let n : 0 < count_at s.addr ss = find_service-count_at ss id peer s h' in
          let (rest, q) = find_service-unlink ss id peer s h' (ground (arith, k)) in
          (t ∷ rest, ground (arith, q, n, k))
    ]

module _ {W : Type 0} where
  -- A service that is registered gets the next id. It is found under that id for a peer id of 0 and
  -- for its own, and under every other id the same service is found as before.
  pub adb_register_service-find_service :
      (s : Service) (c : Client W) (id peer own : ℕ)
      → id ≢ c.next_service_id
      → own ≡ 0 ⊎ s.peer_id ≡ own
      → let (s', c') = adb_register_service s c in
        (s'.id ≡ c.next_service_id)
        × (find_service c'.services s'.id own ≡ some s')
        × (find_service c'.services id peer ≡ find_service c.services id peer)
  unfolding adb_register_service find_service
  adb_register_service-find_service s c id peer own n (inl h) =
      (refl, ground (arith, h), ground (arith, n))
  adb_register_service-find_service s c id peer own n (inr h) =
      (refl, ground (arith, h), ground (arith, n))

module _ {W : Type 0} (e : Env W) where
  close_in-count :
      (ss rest : List Service) (s : Service) (c : Client W) (p : Option Packet) (i : ℕ)
      → unlink ss s.addr ≡ some (s, rest)
      → count i (close_in e ss s.addr p c).services ≤ count i rest
  unfolding close_in unlink
  close_in-count [] rest s c p i h = cc
  close_in-count (t ∷ ss) rest s c p i h =
      rw h ((end_service-Steady e s p (record c { services = rest })).ids i)

  -- Where no other service has the id of a CLSE or stands at the address of the service that it is
  -- for, no service is found under that id once the frame has been handled.
  pub handle_close_frame-find_service :
      (c : Client W) (p : Packet) (s : Service) (peer : ℕ)
      → count p.arg1 c.services ≤ 1
      → count_at s.addr c.services ≤ 1
      → find_service c.services p.arg1 p.arg0 ≡ some s
      → find_service (handle_close_frame e c p).services p.arg1 peer ≡ none
  unfolding handle_close_frame adb_service_close
  handle_close_frame-find_service c p s peer once alone h =
      let (rest, u) = find_service-unlink c.services p.arg1 p.arg0 s h alone in
      let n = close_in-count c.services rest s c none p.arg1 u in
      let r = (release-Steady e (adb_service_close e c s.addr none) p).ids p.arg1 in
      let left = count-unlink p.arg1 s.addr c.services (s, rest) u in
      let id = find_service-id c.services p.arg1 p.arg0 s h in
      rw h (find_service-count _ p.arg1 peer (ground (arith, n, r, left, id, once)))
