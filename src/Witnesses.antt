-- ===== src/Witnesses.antt =====
-- Runs of the code on the values of Examples.antt, and the theorems applied to them.
mod Ledger
mod Life
mod Reception
mod Files
mod Keys
mod Peer
mod Pushes
use micro_adb.Common.{
  ◌++◌, bytes32, ℕ, zero, suc, ◌+◌, ◌%◌, ◌^◌, ◌≤◌, ◌<◌, ◌≡◌, ◌≢◌, ◌↔◌, ◌⊎◌, inr, refl, List, [],
  ◌∷◌, none, some, true, false, arith, length, length-take, length-replicate, take, codes,
  replicate,
}
use micro_adb.Frame.{check_frame_header, check_frame_data, fill_frame}
use micro_adb.Frame.Check.{fill_frame_accepted, check_frame_data_iff, sum}
use micro_adb.Sync.{id_stat, Ctx, Ret, more, done, stuck}
use micro_adb.Sync.Reply.{read_from_packet}
use micro_adb.Sync.Command.{state_init_stat}
use micro_adb.Sync.Service.{file_sync_on_write, file_sync_on_ack, write_round}
use micro_adb.Sync.Invariant.{measure, Idle, Inv, Reads, Stored, read_from_packet-Stored}
use micro_adb.Sync.Room.{ReadsAtMost, Room, Fits}
use micro_adb.Sync.Bounds.{
  write_round_in_payload, file_sync_on_ack_in_payload, state_init_stat_extent,
}
use micro_adb.Sync.Files.{Appends, state_process_send_file_writes}
use micro_adb.Sync.Transfer.{state_process_send_file, stat_bytes}
use micro_adb.Sync.Progress.{After, write_round-After, file_sync_on_write_returns}
use micro_adb.Banner.{fill_connect_data}
use micro_adb.Banner.Laws.{banner, fill_connect_data_fits}
use micro_adb.Client.{Client}
use micro_adb.Client.Services.{find_service, adb_register_service}
use micro_adb.Client.Handlers.{handle_close_frame, adb_process_packet}
use micro_adb.Client.Receive.{
  adb_uv_allocate_frame, adb_uv_on_data_available, offer, bad_header, bytes,
}
use micro_adb.Client.Receive.Bounds.{MallocSizes, Receiving, room, adb_uv_allocate_frame_inside}
use micro_adb.Client.Receive.Memory.{Bytes}
use micro_adb.Client.Receive.Chunks.{adb_uv_on_data_available-append}
use micro_adb.Client.Receive.Keeps.{Closed, adb_uv_on_data_available-Receiving}
use micro_adb.Client.Connection.{adb_process_packet-is_connected, adb_process_packet-cur_packet}
use micro_adb.Client.Ids.{Ids, adb_process_packet-Ids}
use micro_adb.Client.Close.{adb_register_service-find_service, handle_close_frame-find_service}
use micro_adb.Examples.{
  file_stat, config, os, product, env, file_service, client, open_packet, close_packet, stat_packet,
  stat_ctx, recv_ctx, file_os, send_ctx,
}

os_reads : ReadsAtMost os
os_reads fd n w = omega (arith, length-take n (codes "hello"))

fill_frame_accepted_example :
    ((check_frame_header config (fill_frame stat_packet) ≡ true) ↔ (10 ≤ 64))
    × (check_frame_data (fill_frame stat_packet) ≡ true)
fill_frame_accepted_example = fill_frame_accepted config stat_packet

check_frame_data_iff_example :
    (check_frame_data stat_packet ≡ true) ↔ (0 ≡ sum (take 10 stat_packet.payload) % 2 ^ 32)
check_frame_data_iff_example = check_frame_data_iff stat_packet

read_from_packet-Stored_example :
    let r = read_from_packet config 8 stat_ctx in
    Reads config 8 stat_ctx r.0 r.1 × Stored config 8 stat_ctx r.0 r.1
read_from_packet-Stored_example =
    read_from_packet-Stored config 8 stat_ctx (omega arith) (omega arith)

stat_ctx-Idle : Idle config stat_ctx
stat_ctx-Idle = record { path_room = omega arith; buff_size = refl; phase = omega arith }

file_sync_on_write_returns_example :
    (out : Ret × Ctx ℕ) × (file_sync_on_write config os 10 22 stat_ctx ≡ some out)
    × (out.0 ≢ stuck → Idle config out.1)
file_sync_on_write_returns_example =
    file_sync_on_write_returns config os 10 stat_ctx stat_ctx-Idle (omega arith)

stat_ctx-Inv : Inv config stat_ctx
stat_ctx-Inv = record {
  path_room = omega arith;
  buff_size = refl;
  in_packet = omega arith;
  phase = omega arith;
}

write_round-After_example :
    After config os 10 (measure stat_ctx) (write_round config os 10 stat_ctx)
write_round-After_example = write_round-After config os 10 stat_ctx stat_ctx-Inv (omega arith)

stat_ctx-Room : Room config stat_ctx
stat_ctx-Room = record { sized = refl; small = omega arith; free = omega arith }

write_round_in_payload_example : Fits config (write_round config os 10 stat_ctx).1
write_round_in_payload_example = write_round_in_payload config os os_reads 10 stat_ctx stat_ctx-Room

recv_ctx-Room : Room config recv_ctx
recv_ctx-Room = record { sized = refl; small = omega arith; free = omega arith }

file_sync_on_ack_in_payload_example :
    Fits config (file_sync_on_ack config os recv_ctx).1
    × ((file_sync_on_ack config os recv_ctx).0 ≢ stuck)
file_sync_on_ack_in_payload_example =
    file_sync_on_ack_in_payload config os os_reads recv_ctx recv_ctx-Room

-- A packet whose reply already takes 60 of its 64 bytes.
abbrev full_ctx : Ctx ℕ
full_ctx = record stat_ctx { pkt = record stat_packet { write_len = 60 } }

state_init_stat_extent_example :
    let after = (state_init_stat config os full_ctx).1.payload in
    (length after ≡ 76)
    × (take 76 after ≡ take 60 full_ctx.payload ++ (bytes32 id_stat ++ stat_bytes (some file_stat)))
state_init_stat_extent_example = state_init_stat_extent config os full_ctx (omega arith)

abbrev buffer : List ℕ
buffer = replicate 64 0

fill_connect_data_fits_example :
    ((fill_connect_data product 64 buffer).1 ≡ length (banner product))
    × (take (length (banner product)) (fill_connect_data product 64 buffer).0 ≡ banner product)
    × (length (fill_connect_data product 64 buffer).0 ≡ 64)
fill_connect_data_fits_example =
    fill_connect_data_fits product 64 buffer (λ t h. refl) refl (omega arith) (omega arith)

-- libuv's malloc gives the payload that it was asked for.
env_sizes : MallocSizes env
env_sizes n w p h = ground (arith, h, length-replicate {A = ℕ} n 0)

adb_uv_allocate_frame_inside_example :
    let r = adb_uv_allocate_frame env client in
    (r.0.base + r.0.len ≤ room env r.1.cur_packet) × Receiving env r.1 r.1.cur_packet
adb_uv_allocate_frame_inside_example = adb_uv_allocate_frame_inside env client env_sizes tt

-- The client with 20 bytes of a header in, and the next 4.
abbrev receiving : Client ℕ
receiving = record client { cur_packet = some close_packet; cur_len = 20 }

adb_uv_on_data_available-Receiving_example :
    let r = adb_uv_on_data_available env receiving (bytes (0 ∷ 0 ∷ 0 ∷ 0 ∷ [])) in
    Closed env r ⊎ Receiving env r r.cur_packet
unfolding offer
adb_uv_on_data_available-Receiving_example =
    adb_uv_on_data_available-Receiving env receiving close_packet (0 ∷ 0 ∷ 0 ∷ 0 ∷ []) refl
      (refl, λ k. absurd (omega arith)) (omega arith)

adb_process_packet-is_connected_example :
    (adb_process_packet env (record client { is_connected = false }) open_packet).is_connected
    ≡ false
adb_process_packet-is_connected_example =
    adb_process_packet-is_connected env (record client { is_connected = false }) open_packet

adb_process_packet-cur_packet_example :
    (adb_process_packet env receiving open_packet).cur_packet ≡ some close_packet
adb_process_packet-cur_packet_example = adb_process_packet-cur_packet env receiving open_packet

client-Ids : Ids client
client-Ids = record {
  next = omega arith;
  once = λ i. ground arith;
  below = λ i h. ground arith;
  above = refl;
}

adb_process_packet-Ids_example : Ids (adb_process_packet env client open_packet)
adb_process_packet-Ids_example =
    adb_process_packet-Ids env client open_packet client-Ids (omega arith)

adb_register_service-find_service_example :
    let (s, c) = adb_register_service (record file_service { addr = 300 }) client in
    (s.id ≡ 3)
    × (find_service c.services s.id 7 ≡ some s)
    × (find_service c.services 2 0 ≡ find_service client.services 2 0)
adb_register_service-find_service_example =
    adb_register_service-find_service (record file_service { addr = 300 }) client 2 0 7
      (omega arith) (inr refl)

handle_close_frame-find_service_example :
    find_service (handle_close_frame env client close_packet).services 1 0 ≡ none
unfolding find_service
handle_close_frame-find_service_example =
    handle_close_frame-find_service env client close_packet file_service 0 (omega arith)
      (omega arith) refl

file_os-Appends : Appends file_os 5 (λ w. w) (λ w. 0)
file_os-Appends [] w = (omega arith, refl, omega arith)
file_os-Appends (b ∷ bs) w = (omega arith, refl, omega arith)

state_process_send_file_writes_example :
    let r = state_process_send_file config file_os 3 send_ctx in
    ((r.0 ≡ more) × (r.1.world ≡ codes "abc"))
    ⊎ (r.0 ≡ done) × (m : ℕ) × (m < 3) × (r.1.world ≡ take m (codes "abc"))
state_process_send_file_writes_example =
    state_process_send_file_writes file_os 5 (λ w. w) (λ w. 0) config 3 send_ctx file_os-Appends
      refl (omega arith)

replicate-Bytes : (n : ℕ) → Bytes (replicate n 0)
replicate-Bytes zero = tt
replicate-Bytes (suc n) = (omega arith, replicate-Bytes n)

zeros-Bytes : Bytes close_packet.payload
zeros-Bytes = replicate-Bytes 64

adb_uv_on_data_available-append_example :
    adb_uv_on_data_available env
      (adb_uv_on_data_available env receiving (bytes (0 ∷ [])))
      (bytes (0 ∷ 0 ∷ []))
    ≡ adb_uv_on_data_available env receiving (bytes (0 ∷ 0 ∷ 0 ∷ []))
unfolding offer bad_header
adb_uv_on_data_available-append_example =
    adb_uv_on_data_available-append env receiving close_packet (0 ∷ []) (0 ∷ 0 ∷ []) refl
      (refl, λ k. absurd (omega arith)) (omega arith, tt) zeros-Bytes (omega arith) (omega arith)
      (omega arith) refl
