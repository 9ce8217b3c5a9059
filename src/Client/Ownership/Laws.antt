-- ===== src/Client/Ownership/Laws.antt =====
-- The client's functions keep the accounts.
use micro_adb.Common.{
  List, ℕ, suc, ◌+◌, ◌-◌, ◌<◌, ◌≡◌, refl, ap, ◌∙◌, inl, inr, Option, some, true, false, leb, ltb,
  ◌==◌, arith, Bool-cases,
}
use micro_adb.Packet.{Packet}
use micro_adb.Uv.{Handle}
use micro_adb.Client.{Client, Env, Service}
use micro_adb.Client.Transport.{set_world}
use micro_adb.Client.Services.{update_service, adb_register_service}
use micro_adb.Client.Walk.{Walk, of_service}
use micro_adb.Client.Walk.Process.{Bears, Renumbers}
use micro_adb.Client.Ownership.{Level, Same, Ledger, Owned, Valid}

module _ {W : Type 0} (e : Env W) (l : Level W) (g : Option Packet → ℕ) where
  -- From one client to the next the accounts stay right.
  abbrev pub Keeps : ℕ → ℕ → Client W → Client W → Type 0
  Keeps n m c c' = Valid e l g n c → Valid e l g m c'

  Keeps-Owned :
      (n m : ℕ) (c c' : Client W)
      → c'.undefined ≡ c.undefined
      → (Owned e l g n c → Owned e l g m c')
      → Keeps n m c c'
  Keeps-Owned n m c c' z h (inl u) = inl (z ∙ u)
  Keeps-Owned n m c c' z h (inr o) = inr (h o)

  -- Nothing that the accounts stand on has changed.
  pub Keeps-same :
      (n : ℕ) (c c' : Client W)
      → c'.undefined ≡ c.undefined
      → c'.frame_count ≡ c.frame_count
      → c'.cur_packet ≡ c.cur_packet
      → Same l c.world c'.world
      → Keeps n n c c'
  Keeps-same n c c' z f p s = Keeps-Owned n n c c' z (λ o. record {
    bounded = omega (arith, o.bounded, s.live);
    counted = ground (arith, o.counted, f, s.live);
    accounted = omega (arith, o.accounted, s.live, s.flight, s.lost, ap g p);
  })

  pub Same-refl : (w : W) → Same l w w
  Same-refl w = record { live = refl; flight = refl; lost = refl }

module _ {W : Type 0} (e : Env W) (l : Level W) (g : Option Packet → ℕ) (b : Ledger e l)
    (positive : 0 < e.config.frame_max) where
  pub sent-Keeps :
      (n : ℕ) (h : Handle) (p : Packet) (bs : List (List ℕ)) (c : Client W)
      → of_service h ≡ false
      → Keeps e l g (suc n) n c (set_world (e.uv.write h p bs c.world).1 c)
  sent-Keeps n h p bs c z = Keeps-Owned e l g (suc n) n c _ refl (λ o.
      elim (Bool-cases (e.uv.write h p bs c.world).0) [
        | inl y ↦
            let (lv, f, t) = b.write h p bs c.world y in
            record {
              bounded = omega (arith, o.bounded, lv);
              counted = ground (arith, o.counted, lv);
              accounted = omega (arith, o.accounted, lv, f, t);
            }
        | inr y ↦
            let (lv, f, t) = b.lose h p bs c.world z y in
            record {
              bounded = omega (arith, o.bounded, lv);
              counted = ground (arith, o.counted, lv);
              accounted = omega (arith, o.accounted, lv, f, t);
            }
      ])

  pub taken-Keeps :
      (n : ℕ) (h : Handle) (p : Packet) (bs : List (List ℕ)) (c : Client W)
      → (e.uv.write h p bs c.world).0 ≡ true
      → Keeps e l g (suc n) n c (set_world (e.uv.write h p bs c.world).1 c)
  taken-Keeps n h p bs c y = Keeps-Owned e l g (suc n) n c _ refl (λ o.
      let (lv, f, t) = b.write h p bs c.world y in
      record {
        bounded = omega (arith, o.bounded, lv);
        counted = ground (arith, o.counted, lv);
        accounted = omega (arith, o.accounted, lv, f, t);
      })

  pub at_limit-Keeps :
      (n : ℕ) (c : Client W)
      → leb e.config.frame_max c.frame_count ≡ true
      → Keeps e l g n n c (record c { frame_count = e.config.frame_max + 1 })
  at_limit-Keeps n c z = Keeps-Owned e l g n n c _ refl (λ o. record {
    bounded = o.bounded;
    counted = inr (refl, ground (arith, o.counted, o.bounded, z));
    accounted = o.accounted;
  })

  pub allocated-Keeps :
      (n size : ℕ) (p : Packet) (c : Client W)
      → leb e.config.frame_max c.frame_count ≡ false
      → (e.uv.malloc_packet size c.world).0 ≡ some p
      → Keeps e l g n (suc n) c (record c {
        frame_count = c.frame_count + 1;
        world = (e.uv.malloc_packet size c.world).1;
      })
  allocated-Keeps n size p c z y = Keeps-Owned e l g n (suc n) c _ refl (λ o.
      let (lv, f, t) = b.malloc_some size p c.world y in
      let q : c.frame_count ≡ l.live c.world = ground (arith, o.counted, z) in
      record {
        bounded = ground (arith, o.bounded, lv, q, z);
        counted = inl (omega (arith, q, lv));
        accounted = omega (arith, o.accounted, lv, f, t);
      })

  -- A packet that is released was alive.
  alive : (n : ℕ) (c : Client W) → Owned e l g (suc n) c → 0 < l.live c.world
  alive n c o = omega (arith, o.accounted)

  pub released_limit-Keeps :
      (n : ℕ) (p : Packet) (c : Client W)
      → ltb e.config.frame_max c.frame_count ≡ true
      → Keeps e l g
          (suc n)
          n
          c
          (record c { frame_count = e.config.frame_max - 1; world = e.uv.free_packet p c.world })
  released_limit-Keeps n p c z = Keeps-Owned e l g (suc n) n c _ refl (λ o.
      let (lv, f, t) = b.free p c.world (alive n c o) in
      let q : l.live c.world ≡ e.config.frame_max = ground (arith, o.counted, o.bounded, z) in
      record {
        bounded = omega (arith, o.bounded, lv);
        counted = inl (omega (arith, q, lv, positive));
        accounted = omega (arith, o.accounted, lv, f, t);
      })

  pub released-Keeps :
      (n : ℕ) (p : Packet) (c : Client W)
      → (c.frame_count == 0) ≡ false
      → ltb e.config.frame_max c.frame_count ≡ false
      → Keeps e l g
          (suc n)
          n
          c
          (record c { frame_count = c.frame_count - 1; world = e.uv.free_packet p c.world })
  released-Keeps n p c z y = Keeps-Owned e l g (suc n) n c _ refl (λ o.
      let (lv, f, t) = b.free p c.world (alive n c o) in
      let q : c.frame_count ≡ l.live c.world = ground (arith, o.counted, y) in
      record {
        bounded = omega (arith, o.bounded, lv);
        counted = inl (omega (arith, q, lv));
        accounted = omega (arith, o.accounted, lv, f, t);
      })

  pub update_service-Keeps :
      (n addr : ℕ) (f : Service → Service) (c : Client W)
      → Keeps e l g n n c (update_service addr f c)
  unfolding update_service
  update_service-Keeps n addr f c = Keeps-same e l g n c _ refl refl refl (Same-refl e l g _)

  abbrev pub owned : Walk e
  owned = record {
    Quiet = Same l;
    Rel = Keeps e l g;
    os_quiet = b.os;
    uv_quiet = b.uv;
    same = λ n c v. v;
    next = λ n m k c₁ c₂ c₃ h i v. i (h v);
    quiet = λ n w c h. Keeps-same e l g n c _ refl refl refl h;
    renewed = λ n t c. Keeps-same e l g n c _ refl refl refl (Same-refl e l g _);
    updated = λ n addr f c h i. update_service-Keeps n addr f c;
    unlinked = λ n addr c r z. Keeps-same e l g n c _ refl refl refl (Same-refl e l g _);
    sent = sent-Keeps;
    taken = λ n h p bs c z y. taken-Keeps n h p bs c y;
    refused = λ n h p bs c z y. Keeps-same e l g n c _ refl refl refl (b.refuse h p bs c.world z y);
    at_limit = at_limit-Keeps;
    allocated = allocated-Keeps;
    no_memory = λ n size c z. Keeps-same e l g n c _ refl refl refl (b.malloc_none size c.world z);
    released_limit = λ n p c z y. released_limit-Keeps n p c y;
    released = released-Keeps;
    undefined = λ n m c v. inl refl;
    lost = λ n m c z v. inl z;
  }

  register-Keeps :
      (n : ℕ) (s : Service) (c : Client W) → Keeps e l g n n c (adb_register_service s c).1
  unfolding adb_register_service
  register-Keeps n s c = Keeps-same e l g n c _ refl refl refl (Same-refl e l g _)

  pub owned-Bears : Bears e owned
  owned-Bears = record {
    registered = register-Keeps;
    numbered = λ n i c. Keeps-same e l g n c _ refl refl refl (Same-refl e l g _);
    joined = λ n c. Keeps-same e l g n c _ refl refl refl (Same-refl e l g _);
  }

  pub owned-Renumbers : Renumbers e owned
  owned-Renumbers = record { renumbered = λ n addr f c h. update_service-Keeps n addr f c }
