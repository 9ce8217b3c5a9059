-- ===== src/Client/Accept/Accounts.antt =====
-- What the set-up and accept functions of Client/Accept hold when they return: the memory of clients,
-- and the descriptor of the QEMU server.
use micro_adb.Common.{
  ℕ, ◌+◌, ◌≤◌, ◌≡◌, refl, ap, ◌∙◌, List, Option, none, some, Bool, true, false, not, if◌then◌else◌,
  on_option, arith, Option-cases, inl, inr, ◌⊎◌,
}
use micro_adb.Uv.{Handle, transport, Access}
use micro_adb.Client.{Client, Env}
use micro_adb.Client.Transport.{set_world, tcp_uv_close}
use micro_adb.Client.Life.{
  adb_uv_create_client, adb_create_client, adb_hal_create_client, adb_init_client, drop_packet,
  destroy_from, adb_destroy_client, adb_uv_close_client,
}
use micro_adb.Client.Accept.{tcp_env, give_up, accept_client, tcp_on_connection}
use micro_adb.Client.Begin.{Fresh, Fresh-world, created-Begun}
use micro_adb.Sync.Held.{gained}

-- What is still owed where there is no result.
abbrev pub owed : {A : Type 0} → Option A → ℕ → ℕ
owed none n = n
owed (some a) n = 0

-- A count of what the code holds, in which a client's memory and a descriptor each have a weight: the
-- calls that give and take them change it.
pub record Accounts {W : Type 0} (e : Env W) : Type 0 where
  pub count : W → ℕ
  pub of_client : ℕ
  pub of_fd : ℕ
  pub malloc_client :
      (w : W) → let r = e.uv.malloc_client w in count r.1 ≡ count w + gained r.0 of_client
  pub free_client : (w : W) → of_client ≤ count w → count (e.uv.free_client w) + of_client ≡ count w
  pub close : (h : Handle) (w : W) → count (e.uv.close h w) ≡ count w
  pub open_device :
      (path : List ℕ) (a : Access) (w : W)
      → let r = e.uv.open_device path a w in count r.1 ≡ count w + gained r.0 of_fd
  pub close_fd : (fd : ℕ) (w : W) → of_fd ≤ count w → count (e.os.close fd w) + of_fd ≡ count w
  pub tcp_init : (h : Handle) (w : W) → count (e.uv.tcp_init h w).1 ≡ count w
  pub accept : (h : Handle) (w : W) → count (e.uv.accept h w).1 ≡ count w
  pub read_start : (h : Handle) (w : W) → count (e.uv.read_start h w).1 ≡ count w
  pub pipe_init : (h : Handle) (w : W) → count (e.uv.pipe_init h w).1 ≡ count w
  pub pipe_open : (h : Handle) (fd : ℕ) (w : W) → count (e.uv.pipe_open h fd w).1 ≡ count w
  pub poll_init : (fd : ℕ) (w : W) → count (e.uv.poll_init fd w).1 ≡ count w
  pub poll_start : (w : W) → count (e.uv.poll_start w).1 ≡ count w
  pub poll_close : (w : W) → count (e.uv.poll_close w) ≡ count w
  pub read : (fd n : ℕ) (w : W) → count (e.os.read fd n w).1 ≡ count w
  pub write : (fd : ℕ) (bs : List ℕ) (w : W) → count (e.os.write fd bs w).1 ≡ count w

module _ {W : Type 0} (e : Env W) where
  Fresh-close : (c : Client W) → Fresh c → adb_uv_close_client e c ≡ e.uv.free_client c.world
  unfolding adb_uv_close_client adb_destroy_client drop_packet destroy_from
  Fresh-close c f = rw f.packet (rw f.services refl)

module _ {W : Type 0} (e : Env W) (a : Accounts e) where
  pub created-count :
      (w : W) → let r = adb_uv_create_client e w in a.count r.1 ≡ a.count w + gained r.0 a.of_client
  unfolding adb_uv_create_client adb_create_client adb_hal_create_client adb_init_client
  created-count w = elim (Option-cases (e.uv.malloc_client w).0) [
    | inl z ↦ let g = ap (λ o. gained o a.of_client) z in rw z (omega (arith, a.malloc_client w, g))
    | inr (m, z) ↦
        let g = ap (λ o. gained o a.of_client) z in rw z (omega (arith, a.malloc_client w, g))
  ]

  -- No client has come of a connection, but there is one whose handle libuv has been told to close, and
  -- the callback of that, adb_uv_close_client, gives its memory back.
  pub record Closing (k : ℕ) (r : Option (Client W) × W) : Type 0 where
    pub client : Client W
    pub none_made : r.0 ≡ none
    pub told : r.1 ≡ (tcp_uv_close e client).world
    pub given_back : a.count (adb_uv_close_client (tcp_env e) (tcp_uv_close e client)) ≡ k

  -- What a function that may make a client leaves: the count has grown by the client, or by one that
  -- is being closed.
  pub record Paid (k : ℕ) (r : Option (Client W) × W) : Type 0 where
    pub paid : (a.count r.1 ≡ k + gained r.0 a.of_client) ⊎ Closing k r

  Paid-if :
      (k : ℕ) (b : Bool) {x y : Option (Client W) × W}
      → Paid k x
      → Paid k y
      → Paid k (if b then x else y)
  Paid-if k true h g = h
  Paid-if k false h g = g

  accept_client-Paid :
      (k : ℕ) (c : Client W)
      → Fresh c
      → a.count c.world ≡ k + a.of_client
      → Paid k (accept_client e c)
  unfolding accept_client give_up tcp_uv_close
  accept_client-Paid k c f h =
      let w₁ = (e.uv.tcp_init transport c.world).1 in
      let h₁ = a.tcp_init transport c.world ∙ h in
      let w₂ = (e.uv.accept transport w₁).1 in
      let h₂ = a.accept transport w₁ ∙ h₁ in
      let w₃ = (e.uv.read_start transport w₂).1 in
      let h₃ = a.read_start transport w₂ ∙ h₂ in
      Paid-if k (not (e.uv.tcp_init transport c.world).0) (gone w₁ h₁) (
        Paid-if k (not (e.uv.accept transport w₁).0) (gone w₂ h₂)
          (Paid-if k (not (e.uv.read_start transport w₂).0) (left w₃ h₃) (begun w₃ h₃)))
    where
      gone : (w : W) → a.count w ≡ k + a.of_client → Paid k (give_up e (set_world w c))
      gone w h = record {
        paid = inl (
            ap a.count (Fresh-close (tcp_env e) (set_world w c) (Fresh-world w c f))
            ∙ omega (arith, h, a.free_client w (omega (arith, h))));
      }

      left :
          (w : W)
          → a.count w ≡ k + a.of_client
          → Paid k (none, (tcp_uv_close e (set_world w c)).world)
      left w h =
          let w' = e.uv.close transport w in
          let n = a.close transport w in
          record {
            paid = inr (record {
              client = set_world w c;
              none_made = refl;
              told = refl;
              given_back =
                  ap a.count (Fresh-close (tcp_env e) (set_world w' c) (Fresh-world w' c f))
                  ∙ omega (arith, h, n, a.free_client w' (omega (arith, h, n)));
            });
          }

      begun : (w : W) → a.count w ≡ k + a.of_client → Paid k (some (set_world w c), w)
      begun w h = record { paid = inl h }

  -- A client that has been made, or none.
  made_Paid :
      (k : ℕ) (o : Option (Client W)) (w : W) (f : Client W → Option (Client W) × W)
      → a.count w ≡ k + gained o a.of_client
      → ((c : Client W) → o ≡ some c → a.count w ≡ k + a.of_client → Paid k (f c))
      → Paid k (on_option o (none, w) f)
  made_Paid k none w f h g = record { paid = inl h }
  made_Paid k (some c) w f h g = g c refl h

  pub tcp_on_connection-Paid : (ok : Bool) (w : W) → Paid (a.count w) (tcp_on_connection e ok w)
  unfolding tcp_on_connection
  tcp_on_connection-Paid false w = record { paid = inl (omega arith) }
  tcp_on_connection-Paid true w =
      made_Paid (a.count w) (adb_uv_create_client e w).0 _ _ (created-count w)
        (λ c z h. accept_client-Paid _ _ (Fresh-world _ c ((created-Begun e w).fresh c z)) h)
