-- ===== src/Client/Accept/Servers.antt =====
-- The same of the QEMU server, and of the servers together.
use micro_adb.Common.{ℕ, ◌+◌, ◌≡◌, ◌⊎◌, Option, Bool, false}
use micro_adb.Client.{Client, Env}
use micro_adb.Sync.Held.{gained}
use micro_adb.Client.Accept.Accounts.{owed, Accounts}

module _ {W : Type 0} (e : Env W) (a : Accounts e) where
  -- The descriptor of the QEMU server is closed, or a client has it.
  abbrev Settled : ℕ → Option (Client W) × W → Type 0
  Settled k r = a.count r.1 + owed r.0 a.of_fd ≡ k + gained r.0 a.of_client

  -- The server's descriptor is held by the poll handle, or closed: where the set-up fails it is closed.
  abbrev Polled : ℕ → Bool × W → Type 0
  Polled k r = (r.0 ≡ false → a.count r.1 ≡ k) × ((a.count r.1 ≡ k) ⊎ (a.count r.1 ≡ k + a.of_fd))
