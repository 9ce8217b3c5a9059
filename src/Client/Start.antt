-- ===== src/Client/Start.antt =====
-- adb_main.c and the loop of hal/hal_uv.c: the program from its start to its end.
use micro_adb.Common.{ℕ, List, Option, Bool, true, false, if◌then◌else◌}
use micro_adb.Client.{Env}
use micro_adb.Client.Accept.{adb_hal_create_context}

module _ {W : Type 0} (e : Env W) where
  -- The result of uv_run is only logged.
  abbrev pub adb_hal_run : W → W
  adb_hal_run w = e.uv.run w

  abbrev pub adb_hal_destroy_context : W → W
  adb_hal_destroy_context w = w

  -- Whether main returns 0, and not -1, by the servers that are compiled in.
  unfoldable pub main : Bool → Bool → Option (List ℕ) → W → Bool × W
  main tcp_server usb_server qemu_server w =
      let (ok, usb, w') = adb_hal_create_context e tcp_server usb_server qemu_server w in
      if ok then (true, adb_hal_destroy_context (adb_hal_run w')) else (false, w')
