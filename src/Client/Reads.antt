-- ===== src/Client/Reads.antt =====
-- hal/hal_uv_packet.c: the transport's handle, which is closed once and read until then, and what
-- every function of a client but those of reception leaves of the packet in reception.
pub mod Life
use micro_adb.Common.{
  ℕ, ◌≡◌, ◌⊎◌, refl, ◌∙◌, inl, inr, List, Option, none, some, Bool, true, not, arith,
}
use micro_adb.Packet.{Packet}
use micro_adb.Os.Closed.{OsClosed}
use micro_adb.Uv.{Handle, transport, write_pipe}
use micro_adb.Uv.Closed.{UvClosed}
use micro_adb.Client.{Client, Env, Service, Ops, adb_tcp_uv_ops, adb_usb_uv_ops, adb_qemu_uv_ops}
use micro_adb.Client.Transport.{
  set_world, tcp_uv_close, usb_uv_close, qemu_uv_close, ops_close, client_close,
}
use micro_adb.Client.Services.{update_service}
use micro_adb.Client.Receive.Bounds.{Receiving}
use micro_adb.Client.Walk.{Walk}
use micro_adb.Client.Walk.Process.{Renumbers}

-- What is closed stays so.
abbrev pub Later : {W : Type 0} → (W → Bool) → W → W → Type 0
Later closed w w' = closed w ≡ true → closed w' ≡ true

-- Whether a world has the transport's handle closed: uv_close closes it, and no call opens it again.
pub record Closes {W : Type 0} (e : Env W) (closed : W → Bool) : Type 0 where
  pub os : OsClosed e.os (Later closed)
  pub uv : UvClosed e.uv (Later closed)
  pub write :
      (h : Handle) (p : Packet) (bs : List (List ℕ)) (w : W)
      → Later closed w (e.uv.write h p bs w).1
  pub malloc : (n : ℕ) (w : W) → Later closed w (e.uv.malloc_packet n w).1
  pub free : (p : Packet) (w : W) → Later closed w (e.uv.free_packet p w)
  pub closes : (w : W) → closed (e.uv.close transport w) ≡ true

module _ {W : Type 0} (e : Env W) (closed : W → Bool) where
  -- Reception is left alone, and the transport is not opened again.
  pub record Stays (c c' : Client W) : Type 0 where
    pub connection : c'.is_connected ≡ c.is_connected
    pub packet : c'.cur_packet ≡ c.cur_packet
    pub len : c'.cur_len ≡ c.cur_len
    pub later : Later closed c.world c'.world

  -- The same client, but for what reception does not read.
  pub Stays-same :
      (c c' : Client W)
      → c'.is_connected ≡ c.is_connected
      → c'.cur_packet ≡ c.cur_packet
      → c'.cur_len ≡ c.cur_len
      → Later closed c.world c'.world
      → Stays c c'
  Stays-same c c' a b d l = record { connection = a; packet = b; len = d; later = l }

  pub Stays-refl : (c : Client W) → Stays c c
  Stays-refl c = Stays-same c c refl refl refl (λ h. h)

  pub Stays-trans : {a b c : Client W} → Stays a b → Stays b c → Stays a c
  Stays-trans h k = record {
    connection = k.connection ∙ h.connection;
    packet = k.packet ∙ h.packet;
    len = k.len ∙ h.len;
    later = λ z. k.later (h.later z);
  }

  -- The transport is closed, or reception is well formed.
  abbrev pub Safe : Client W → Type 0
  Safe c = (closed c.world ≡ true) ⊎ Receiving e c c.cur_packet

  Receiving-Stays :
      (c c' : Client W) (o : Option Packet)
      → c'.is_connected ≡ c.is_connected
      → c'.cur_len ≡ c.cur_len
      → Receiving e c o
      → Receiving e c' o
  Receiving-Stays c c' none z y h = tt
  Receiving-Stays c c' (some p) z y h = rw (z, y) h

  pub Stays-Safe : (c c' : Client W) → Stays c c' → Safe c → Safe c'
  Stays-Safe c c' h (inl u) = inl (h.later u)
  Stays-Safe c c' h (inr r) =
      inr (rw h.packet (Receiving-Stays c c' c.cur_packet h.connection h.len r))

module _ {W : Type 0} (e : Env W) (closed : W → Bool) (b : Closes e closed) where
  pub updated-Stays :
      (addr : ℕ) (f : Service → Service) (c : Client W) → Stays e closed c (update_service addr f c)
  unfolding update_service
  updated-Stays addr f c = Stays-same e closed _ _ refl refl refl (λ z. z)

  abbrev pub watched : Walk e
  watched = record {
    Quiet = Later closed;
    Rel = λ n m. Stays e closed;
    os_quiet = b.os;
    uv_quiet = b.uv;
    same = λ n c. Stays-refl e closed c;
    next = λ n m k c₁ c₂ c₃ h g. Stays-trans e closed h g;
    quiet = λ n w c h. Stays-same e closed _ _ refl refl refl h;
    renewed = λ n t c. Stays-same e closed _ _ refl refl refl (λ z. z);
    updated = λ n addr f c h g. updated-Stays addr f c;
    unlinked = λ n addr c r z. Stays-same e closed _ _ refl refl refl (λ y. y);
    sent = λ n h p bs c z. Stays-same e closed _ _ refl refl refl (b.write h p bs c.world);
    taken = λ n h p bs c z y. Stays-same e closed _ _ refl refl refl (b.write h p bs c.world);
    refused = λ n h p bs c z y. Stays-same e closed _ _ refl refl refl (b.write h p bs c.world);
    at_limit = λ n c z. Stays-same e closed _ _ refl refl refl (λ y. y);
    allocated = λ n size p c z y. Stays-same e closed _ _ refl refl refl (b.malloc size c.world);
    no_memory = λ n size c z. Stays-same e closed _ _ refl refl refl (b.malloc size c.world);
    released_limit = λ n p c z y. Stays-same e closed _ _ refl refl refl (b.free p c.world);
    released = λ n p c z y. Stays-same e closed _ _ refl refl refl (b.free p c.world);
    undefined = λ n m c. Stays-same e closed _ _ refl refl refl (λ y. y);
    lost = λ n m c z. Stays-refl e closed c;
  }

  pub watched-Renumbers : Renumbers e watched
  watched-Renumbers = record { renumbered = λ n addr f c h. updated-Stays addr f c }

  closes_ops : (o : Ops) (c : Client W) → closed (ops_close e o c).world ≡ true
  unfolding ops_close tcp_uv_close usb_uv_close qemu_uv_close
  closes_ops adb_tcp_uv_ops c = b.closes c.world
  closes_ops adb_usb_uv_ops c = b.closes (e.uv.close write_pipe c.world)
  closes_ops adb_qemu_uv_ops c = b.closes c.world

  pub client_close-closed : (c : Client W) → closed (client_close e c).world ≡ true
  client_close-closed c = closes_ops e.ops c
