-- ===== src/Client/Life.antt =====
-- How a client begins and ends: adb_client.c's adb_create_client and adb_destroy_client, and
-- hal/hal_uv.c's functions around them.
use micro_adb.Common.{List, [], ◌∷◌, Option, none, some, false, on_option}
use micro_adb.Packet.{Packet}
use micro_adb.Uv.{ClientMemory}
use micro_adb.Client.{Client, Env, Service}
use micro_adb.Client.Services.{adb_service_close}
use micro_adb.Client.Kick.{adb_hal_apacket_release}

module _ {W : Type 0} where
  unfoldable pub adb_init_client : Client W → Client W
  adb_init_client c = record c { next_service_id = 1; services = []; is_connected = false }

module _ {W : Type 0} (e : Env W) where
  -- adb_hal_create_client. The numbers are as malloc left them; of the two pointers, which are set
  -- before they are followed, nothing is said but that they are no packet and no service.
  unfoldable pub adb_hal_create_client : W → Option (Client W) × W
  adb_hal_create_client w =
      let (mem, w') = e.uv.malloc_client w in
      on_option mem (none, w')
        (λ (m : ClientMemory). (
          some (record {
            next_service_id = m.next_service_id;
            services = [];
            is_connected = m.is_connected;
            token = m.token;
            cur_packet = none;
            cur_len = m.cur_len;
            frame_count = m.frame_count;
            undefined = false;
            world = w';
          }),
          w',
        ))

  unfoldable pub adb_create_client : W → Option (Client W) × W
  adb_create_client w =
      let (made, w') = adb_hal_create_client w in
      on_option made (none, w') (λ c. (some (adb_init_client c), w'))

  unfoldable pub adb_uv_create_client : W → Option (Client W) × W
  adb_uv_create_client w =
      let (made, w') = adb_create_client w in
      on_option made (none, w') (λ c. (some (record c { cur_packet = none; frame_count = 0 }), w'))

  -- The loop of adb_destroy_client, from a node of the list on.
  unfoldable pub destroy_from : List Service → Client W → Client W
  destroy_from [] c = c
  destroy_from (s ∷ ss) c = destroy_from ss (adb_service_close e c s.addr none)

  abbrev pub adb_hal_destroy_client : W → W
  adb_hal_destroy_client w = e.uv.free_client w

  -- The client is freed: what is left of it is the world.
  unfoldable pub adb_destroy_client : Client W → W
  adb_destroy_client c = adb_hal_destroy_client (destroy_from c.services c).world

  -- The packet in reception is released first.
  unfoldable pub drop_packet : Option Packet → Client W → Client W
  drop_packet none c = c
  drop_packet (some p) c = record (adb_hal_apacket_release e c p) { cur_packet = none }

  unfoldable pub adb_uv_close_client : Client W → W
  adb_uv_close_client c = adb_destroy_client (drop_packet c.cur_packet c)
