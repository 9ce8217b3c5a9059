-- ===== src/Client/Steady.antt =====
-- What all but three of the client's functions leave alone: the next id, the connection, and, but for
-- the services that they close, the ids.
use micro_adb.Common.{ℕ, ◌≤◌, ◌≡◌, refl, ◌∙◌, List, Option, some, Bool, arith}
use micro_adb.Packet.{Packet}
use micro_adb.Client.{Client, Env, Service, Ops}
use micro_adb.Client.Transport.{set_world, ops_close}
use micro_adb.Client.Frames.{
  send_close_frame, send_cnxn_frame, adb_send_okay_frame_with_data, adb_uv_packet_allocate,
}
use micro_adb.Client.Services.{unlink, update_service, end_service}
use micro_adb.Client.Kick.{adb_hal_apacket_release}
use micro_adb.Client.Handlers.{
  send_auth_request, handle_close_frame, handle_write_frame, handle_okay_frame, invalid_frame,
}
use micro_adb.Client.Lists.{count, count-update, count-unlink}
use micro_adb.Client.Walk.{Walk}
use micro_adb.Client.Walk.Sends.{
  ops_close-Rel, send_close_frame-Rel, send_cnxn_frame-Rel, okay_with_data-Rel, allocate-Rel,
}
use micro_adb.Client.Walk.Closes.{end_service-Rel}
use micro_adb.Client.Walk.Kick.{release-Rel}
use micro_adb.Client.Walk.Handlers.{
  handle_write_frame-Rel, handle_okay_frame-Rel, handle_close_frame-Rel, invalid_frame-Rel,
  send_auth_request-Rel,
}

-- Every call keeps to the relation that always holds.
abbrev pub Any : {W : Type 0} → W → W → Type 0
Any w w' = Unit {0}

module _ {W : Type 0} where
  pub record Steady (c c' : Client W) : Type 0 where
    pub next : c'.next_service_id ≡ c.next_service_id
    pub connection : c'.is_connected ≡ c.is_connected
    pub packet : c'.cur_packet ≡ c.cur_packet
    pub len : c'.cur_len ≡ c.cur_len
    pub ids : (i : ℕ) → count i c'.services ≤ count i c.services

  pub Steady-same :
      (c c' : Client W)
      → c'.next_service_id ≡ c.next_service_id
      → c'.is_connected ≡ c.is_connected
      → c'.cur_packet ≡ c.cur_packet
      → c'.cur_len ≡ c.cur_len
      → c'.services ≡ c.services
      → Steady c c'
  Steady-same c c' n k m l s = record {
    next = n;
    connection = k;
    packet = m;
    len = l;
    ids = λ i. rw s (omega arith);
  }

  pub Steady-refl : (c : Client W) → Steady c c
  Steady-refl c = Steady-same c c refl refl refl refl refl

  pub Steady-trans : {a b c : Client W} → Steady a b → Steady b c → Steady a c
  Steady-trans h k = record {
    next = k.next ∙ h.next;
    connection = k.connection ∙ h.connection;
    packet = k.packet ∙ h.packet;
    len = k.len ∙ h.len;
    ids = λ i. omega (arith, h.ids i, k.ids i);
  }

  pub Steady-world : (w : W) (c : Client W) → Steady c (set_world w c)
  Steady-world w c = Steady-same _ _ refl refl refl refl refl

  pub updated-Steady :
      (addr : ℕ) (f : Service → Service) (c : Client W)
      → ((s : Service) → (f s).id ≡ s.id)
      → Steady c (update_service addr f c)
  unfolding update_service
  updated-Steady addr f c h = record {
    next = refl;
    connection = refl;
    packet = refl;
    len = refl;
    ids = λ i. omega (arith, count-update i addr f c.services h);
  }

  pub unlinked-Steady :
      (addr : ℕ) (c : Client W) (r : Service × List Service)
      → unlink c.services addr ≡ some r
      → Steady c (record c { services = r.1 })
  unlinked-Steady addr c r z = record {
    next = refl;
    connection = refl;
    packet = refl;
    len = refl;
    ids = λ i. omega (arith, count-unlink i addr c.services r z);
  }

module _ {W : Type 0} (e : Env W) where
  abbrev pub steady : Walk e
  steady = record {
    Quiet = Any;
    Rel = λ n m. Steady;
    os_quiet = record {
      same = λ a. tt;
      next = λ a b. tt;
      stat = λ a b. tt;
      lstat = λ a b. tt;
      opendir = λ a b. tt;
      readdir = λ a b. tt;
      closedir = λ a b. tt;
      open_read = λ a b. tt;
      open_write = λ a b c. tt;
      read = λ a b c. tt;
      write = λ a b c. tt;
      close = λ a b. tt;
      unlink = λ a b. tt;
      mkdir = λ a b c. tt;
      symlink = λ a b c. tt;
      malloc = λ a b. tt;
      free = λ a b. tt;
    };
    uv_quiet = record {
      read_start = λ a b. tt;
      read_stop = λ a b. tt;
      close = λ a b. tt;
      kill = λ a b. tt;
      tcp_init = λ a b. tt;
      tcp_connect = λ a b c. tt;
      random = λ a b. tt;
      malloc_service = λ a. tt;
      malloc_afs = λ a. tt;
      free_service = λ a b. tt;
      openpt = λ a. tt;
      grantpt = λ a b. tt;
      unlockpt = λ a b. tt;
      open_slave = λ a b. tt;
      set_raw = λ a b. tt;
      close_fd = λ a b. tt;
      pipe_init = λ a b. tt;
      pipe_open = λ a b c. tt;
      spawn = λ a b c d. tt;
      print = λ a b. tt;
      free_client = λ a. tt;
    };
    same = λ n c. Steady-refl c;
    next = λ n m k c₁ c₂ c₃ h g. Steady-trans h g;
    quiet = λ n w c h. Steady-world w c;
    renewed = λ n t c. Steady-same _ _ refl refl refl refl refl;
    updated = λ n addr f c h g. updated-Steady addr f c g;
    unlinked = λ n addr c r z. unlinked-Steady addr c r z;
    sent = λ n h p bs c z. Steady-world _ c;
    taken = λ n h p bs c z y. Steady-world _ c;
    refused = λ n h p bs c z y. Steady-world _ c;
    at_limit = λ n c z. Steady-same _ _ refl refl refl refl refl;
    allocated = λ n size p c z y. Steady-same _ _ refl refl refl refl refl;
    no_memory = λ n size c z. Steady-world _ c;
    released_limit = λ n p c z y. Steady-same _ _ refl refl refl refl refl;
    released = λ n p c z y. Steady-same _ _ refl refl refl refl refl;
    undefined = λ n m c. Steady-same _ _ refl refl refl refl refl;
    lost = λ n m c z. Steady-refl c;
  }

  pub ops_close-Steady : (o : Ops) (c : Client W) → Steady c (ops_close e o c)
  ops_close-Steady o c = ops_close-Rel e steady 0 o c

  pub send_close_frame-Steady :
      (c : Client W) (p : Packet) (a b : ℕ) → Steady c (send_close_frame e c p a b)
  send_close_frame-Steady c p a b = send_close_frame-Rel e steady 0 c p a b

  pub okay_with_data-Steady :
      (c : Client W) (p : Packet) (a b : ℕ) → Steady c (adb_send_okay_frame_with_data e c p a b)
  okay_with_data-Steady c p a b = okay_with_data-Rel e steady 0 c p a b

  pub allocate-Steady :
      (c : Client W) (before : Bool) → Steady c (adb_uv_packet_allocate e c before).1
  allocate-Steady c before = allocate-Rel e steady 0 c before

  pub end_service-Steady :
      (s : Service) (p : Option Packet) (c : Client W) → Steady c (end_service e s p c)
  end_service-Steady s p c = end_service-Rel e steady 0 s p c

  pub release-Steady : (c : Client W) (p : Packet) → Steady c (adb_hal_apacket_release e c p)
  release-Steady c p = release-Rel e steady 0 c p

  pub handle_write_frame-Steady : (c : Client W) (p : Packet) → Steady c (handle_write_frame e c p)
  handle_write_frame-Steady c p = handle_write_frame-Rel e steady 0 c p

  pub handle_okay_frame-Steady : (c : Client W) (p : Packet) → Steady c (handle_okay_frame e c p)
  handle_okay_frame-Steady c p = handle_okay_frame-Rel e steady 0 c p

  pub handle_close_frame-Steady : (c : Client W) (p : Packet) → Steady c (handle_close_frame e c p)
  handle_close_frame-Steady c p = handle_close_frame-Rel e steady 0 c p

  pub invalid_frame-Steady : (c : Client W) (p : Packet) → Steady c (invalid_frame e c p)
  invalid_frame-Steady c p = invalid_frame-Rel e steady 0 c p

  pub send_cnxn_frame-Steady : (c : Client W) (p : Packet) → Steady c (send_cnxn_frame e c p)
  send_cnxn_frame-Steady c p = send_cnxn_frame-Rel e steady 0 c p

  pub send_auth_request-Steady : (c : Client W) (p : Packet) → Steady c (send_auth_request e c p)
  send_auth_request-Steady c p = send_auth_request-Rel e steady 0 c p
