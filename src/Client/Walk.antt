-- ===== src/Client/Walk.antt =====
-- A relation on clients that what the client's functions do one after another keeps to, with the
-- number of packets in hand before and after: an interface, and the functions that send, allocate
-- and close under it.
pub mod Sends
pub mod Closes
pub mod Kick
pub mod Replies
pub mod Handlers
pub mod Open
pub mod Process
pub mod Callbacks
use micro_adb.Common.{
  ℕ, suc, ◌+◌, ◌-◌, ◌<◌, ◌≡◌, refl, ◌⊎◌, inl, inr, List, [], ◌∷◌, Option, none, some, Bool, true,
  false, leb, ltb, ◌==◌, if◌then◌else◌, if_elim, on_option, on_option_elim, arith, Bool-cases,
  Option-cases,
}
use micro_adb.Packet.{Packet}
use micro_adb.Os.Closed.{OsClosed}
use micro_adb.Uv.{Handle, transport, write_pipe, socket, pipe, process}
use micro_adb.Uv.Closed.{UvClosed}
use micro_adb.Sync.Through.{release_state-Q}
use micro_adb.Client.{
  Client, Env, Service, Body, sync, tcp, shell, Ops, adb_tcp_uv_ops, adb_usb_uv_ops,
  adb_qemu_uv_ops,
}
use micro_adb.Client.Transport.{
  set_world, tcp_uv_write, usb_uv_write, qemu_uv_write, tcp_uv_close, usb_uv_close, qemu_uv_close,
  ops_write, ops_close, client_close,
}
use micro_adb.Client.Frames.{
  send_frame, send_close_frame, send_cnxn_frame, adb_send_okay_frame_with_data, adb_send_okay_frame,
  adb_send_data_frame, adb_uv_packet_allocate,
}
use micro_adb.Client.Services.{
  unlink, update_service, set_body, has_socket, close_body, end_service, close_in,
  adb_service_close,
}
use micro_adb.Client.Lists.{count_at, unlink-none, unlink-some}

-- The handles of services, whose writes return to the client.
abbrev pub of_service : Handle → Bool
of_service transport = false
of_service write_pipe = false
of_service h = true

-- The packets in hand with one that there may be.
abbrev pub hand : ℕ → Option Packet → ℕ
hand n none = n
hand n (some p) = suc n

pub record Walk {W : Type 0} (e : Env W) : Type 1 where
  pub Quiet : W → W → Type 0
  pub Rel : ℕ → ℕ → Client W → Client W → Type 0
  pub os_quiet : OsClosed e.os Quiet
  pub uv_quiet : UvClosed e.uv Quiet
  pub same : (n : ℕ) (c : Client W) → Rel n n c c
  pub next : (n m k : ℕ) (c₁ c₂ c₃ : Client W) → Rel n m c₁ c₂ → Rel m k c₂ c₃ → Rel n k c₁ c₃
  pub quiet : (n : ℕ) (w : W) (c : Client W) → Quiet c.world w → Rel n n c (set_world w c)
  pub renewed : (n : ℕ) (t : List ℕ) (c : Client W) → Rel n n c (record c { token = t })
  pub updated :
      (n addr : ℕ) (f : Service → Service) (c : Client W)
      → ((s : Service) → (f s).addr ≡ s.addr)
      → ((s : Service) → (f s).id ≡ s.id)
      → Rel n n c (update_service addr f c)
  pub unlinked :
      (n addr : ℕ) (c : Client W) (r : Service × List Service)
      → unlink c.services addr ≡ some r
      → Rel n n c (record c { services = r.1 })
  pub sent :
      (n : ℕ) (h : Handle) (p : Packet) (bs : List (List ℕ)) (c : Client W)
      → of_service h ≡ false
      → Rel (suc n) n c (set_world (e.uv.write h p bs c.world).1 c)
  pub taken :
      (n : ℕ) (h : Handle) (p : Packet) (bs : List (List ℕ)) (c : Client W)
      → of_service h ≡ true
      → (e.uv.write h p bs c.world).0 ≡ true
      → Rel (suc n) n c (set_world (e.uv.write h p bs c.world).1 c)
  pub refused :
      (n : ℕ) (h : Handle) (p : Packet) (bs : List (List ℕ)) (c : Client W)
      → of_service h ≡ true
      → (e.uv.write h p bs c.world).0 ≡ false
      → Rel n n c (set_world (e.uv.write h p bs c.world).1 c)
  pub at_limit :
      (n : ℕ) (c : Client W)
      → leb e.config.frame_max c.frame_count ≡ true
      → Rel n n c (record c { frame_count = e.config.frame_max + 1 })
  pub allocated :
      (n size : ℕ) (p : Packet) (c : Client W)
      → leb e.config.frame_max c.frame_count ≡ false
      → (e.uv.malloc_packet size c.world).0 ≡ some p
      → Rel n (suc n) c (record c {
        frame_count = c.frame_count + 1;
        world = (e.uv.malloc_packet size c.world).1;
      })
  pub no_memory :
      (n size : ℕ) (c : Client W)
      → (e.uv.malloc_packet size c.world).0 ≡ none
      → Rel n n c (set_world (e.uv.malloc_packet size c.world).1 c)
  pub released_limit :
      (n : ℕ) (p : Packet) (c : Client W)
      → (c.frame_count == 0) ≡ false
      → ltb e.config.frame_max c.frame_count ≡ true
      → Rel
          (suc n)
          n
          c
          (record c { frame_count = e.config.frame_max - 1; world = e.uv.free_packet p c.world })
  pub released :
      (n : ℕ) (p : Packet) (c : Client W)
      → (c.frame_count == 0) ≡ false
      → ltb e.config.frame_max c.frame_count ≡ false
      → Rel
          (suc n)
          n
          c
          (record c { frame_count = c.frame_count - 1; world = e.uv.free_packet p c.world })
  pub undefined : (n m : ℕ) (c : Client W) → Rel n m c (record c { undefined = true })
  pub lost : (n m : ℕ) (c : Client W) → c.undefined ≡ true → Rel n m c c

-- The packets in hand after adb_service_close has been given one that there may be: it is left where
-- no service stands at the address.
abbrev pub after_close : ℕ → Option Packet → ℕ → List Service → ℕ
after_close n p addr ss = if count_at addr ss == 0 then hand n p else n
