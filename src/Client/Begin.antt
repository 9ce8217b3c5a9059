-- ===== src/Client/Begin.antt =====
-- The state that a client begins in, whichever of the three transports it comes by.
use micro_adb.Common.{
  ℕ, ◌≡◌, ◌⊎◌, refl, List, [], Option, none, some, Bool, true, false, not, if_elim, on_option,
  arith, codes, Option-cases, inl, inr,
}
use micro_adb.Uv.{transport}
use micro_adb.Client.{Client, Env}
use micro_adb.Client.Transport.{set_world}
use micro_adb.Client.Life.{
  adb_uv_create_client, adb_create_client, adb_hal_create_client, adb_init_client,
}
use micro_adb.Client.Accept.{
  give_up, accept_client, tcp_on_connection, open_pipe, open_usb, adb_uv_usb_setup, open_qemu,
  qemu_uv_on_readable, devname, says_ok, took,
}
use micro_adb.Client.Ids.{Ids}

module _ {W : Type 0} where
  -- No service, no packet, not connected, and the first id is 1.
  pub record Fresh (c : Client W) : Type 0 where
    pub next : c.next_service_id ≡ 1
    pub services : c.services ≡ []
    pub connection : c.is_connected ≡ false
    pub packet : c.cur_packet ≡ none
    pub frame_count : c.frame_count ≡ 0

  pub Fresh-Ids : (c : Client W) → Fresh c → Ids c
  Fresh-Ids c f = rw f.services (record {
    next = omega (arith, f.next);
    once = λ i. omega arith;
    below = λ i q. omega (arith, q);
    above = refl;
  })

  -- What may come out of a function that makes a client.
  pub record Begun (r : Option (Client W) × W) : Type 0 where
    pub fresh : (c : Client W) → r.0 ≡ some c → Fresh c

  Begun-none : (w : W) → Begun (none, w)
  Begun-none w = record { fresh = λ c h. cc }

  Begun-some : (c : Client W) (w : W) → Fresh c → Begun (some c, w)
  Begun-some c w f = record {
    fresh = λ d h. record {
      next = ground (arith, f.next, h);
      services = ground (arith, f.services, h);
      connection = ground (arith, f.connection, h);
      packet = ground (arith, f.packet, h);
      frame_count = ground (arith, f.frame_count, h);
    };
  }

  Begun-option :
      (o : Option (Client W)) (w w' : W) (f : Client W → Option (Client W) × W)
      → Begun (o, w)
      → ((c : Client W) → Fresh c → Begun (f c))
      → Begun (on_option o (none, w') f)
  Begun-option none w w' f b g = Begun-none w'
  Begun-option (some c) w w' f b g = g c (b.fresh c refl)

  pub Fresh-world : (w : W) (c : Client W) → Fresh c → Fresh (set_world w c)
  Fresh-world w c f = record {
    next = f.next;
    services = f.services;
    connection = f.connection;
    packet = f.packet;
    frame_count = f.frame_count;
  }

module _ {W : Type 0} (e : Env W) where
  pub created-Begun : (w : W) → Begun (adb_uv_create_client e w)
  unfolding adb_uv_create_client adb_create_client adb_hal_create_client adb_init_client
  created-Begun w = elim (Option-cases (e.uv.malloc_client w).0) [
    | inl z ↦ rw z (Begun-none _)
    | inr (m, z) ↦ rw z (
        Begun-some _ _ (record {
          next = refl;
          services = refl;
          connection = refl;
          packet = refl;
          frame_count = refl;
        }))
  ]

  accept_client-Begun : (c : Client W) → Fresh c → Begun (accept_client e c)
  unfolding accept_client give_up
  accept_client-Begun c f =
      let (inited, w₁) = e.uv.tcp_init transport c.world in
      let (accepted, w₂) = e.uv.accept transport w₁ in
      let (started, w₃) = e.uv.read_start transport w₂ in
      if_elim Begun (not inited) (Begun-none _) (
        if_elim Begun (not accepted) (Begun-none _)
          (if_elim Begun (not started) (Begun-none _) (Begun-some _ w₃ (Fresh-world w₃ c f))))

  tcp_on_connection-Begun : (ok : Bool) (w : W) → Begun (tcp_on_connection e ok w)
  unfolding tcp_on_connection
  tcp_on_connection-Begun false w = Begun-none w
  tcp_on_connection-Begun true w =
      Begun-option (adb_uv_create_client e w).0 (adb_uv_create_client e w).1 _ _ (created-Begun w)
        (λ c f. accept_client-Begun _ (Fresh-world _ c f))

  open_usb-Begun : (path : List ℕ) (c : Client W) → Fresh c → Begun (open_usb e path c)
  unfolding open_usb
  open_usb-Begun path c f =
      let (reading, w₁) = open_pipe e true (devname path (codes "/ep2")) c.world in
      let (writing, w₂) = open_pipe e false (devname path (codes "/ep1")) w₁ in
      let (started, w₃) = e.uv.read_start transport w₂ in
      if_elim Begun (not reading) (Begun-none w₁) (
        if_elim Begun (not writing) (Begun-none w₂) (
          Begun-some (record c { undefined = not started; world = w₃ }) w₃
            (record {
              next = f.next;
              services = f.services;
              connection = f.connection;
              packet = f.packet;
              frame_count = f.frame_count;
            })))

  adb_uv_usb_setup-Begun : (path : List ℕ) (w : W) → Begun (adb_uv_usb_setup e path w)
  unfolding adb_uv_usb_setup
  adb_uv_usb_setup-Begun path w =
      Begun-option (adb_uv_create_client e w).0 (adb_uv_create_client e w).1 _ _ (created-Begun w)
        (λ c f. open_usb-Begun path _ (Fresh-world _ c f))

  open_qemu-Begun : (fd : ℕ) (c : Client W) → Fresh c → Begun (open_qemu e fd c)
  unfolding open_qemu
  open_qemu-Begun fd c f = Begun-some _ _ (record {
    next = f.next;
    services = f.services;
    connection = f.connection;
    packet = f.packet;
    frame_count = f.frame_count;
  })

  qemu_uv_on_readable-Begun : (fd : ℕ) (ok : Bool) (w : W) → Begun (qemu_uv_on_readable e fd ok w)
  unfolding qemu_uv_on_readable
  qemu_uv_on_readable-Begun fd ok w =
      let w₀ = e.uv.poll_close w in
      let (answer, w₁) = e.os.read fd 2 w₀ in
      let (sent, w₂) = e.os.write fd (codes "start") w₁ in
      if_elim Begun (not ok) (Begun-none _) (
        if_elim Begun (not (says_ok answer)) (Begun-none _) (
          if_elim Begun (not (took 5 sent)) (Begun-none _) (
            Begun-option (adb_uv_create_client e w₂).0 (adb_uv_create_client e w₂).1 _ _
              (created-Begun w₂) (λ c f. open_qemu-Begun fd _ (Fresh-world _ c f)))))

  -- A client that the TCP server, the USB set-up or the QEMU server makes begins without services and
  -- packets, unconnected, with right ids of which the first is 1.
  pub clients_begin :
      (c : Client W) (ok : Bool) (path : List ℕ) (fd : ℕ) (w : W)
      → ((tcp_on_connection e ok w).0 ≡ some c)
        ⊎ (((adb_uv_usb_setup e path w).0 ≡ some c) ⊎ ((qemu_uv_on_readable e fd ok w).0 ≡ some c))
      → Fresh c × Ids c
  clients_begin c ok path fd w h =
      let f : Fresh c = elim h [
        | inl t ↦ (tcp_on_connection-Begun ok w).fresh c t
        | inr (inl u) ↦ (adb_uv_usb_setup-Begun path w).fresh c u
        | inr (inr q) ↦ (qemu_uv_on_readable-Begun fd ok w).fresh c q
      ] in
      (f, Fresh-Ids c f)
