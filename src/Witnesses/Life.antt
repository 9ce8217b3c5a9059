-- ===== src/Witnesses/Life.antt =====
-- The life of a client over the world of Examples/Books.antt, and the theorems applied to it.
use micro_adb.Common.{
  not, ◌+◌, ◌<◌, ◌≤◌, ◌≡◌, refl, [], ◌∷◌, some, true, false, arith, inl, inr, codes,
}
use micro_adb.Uv.{Handle, transport, write_pipe, socket, pipe, process}
use micro_adb.Client.{Client, Service, tcp, shell, f_not_connected, f_connected, f_wait_ack}
use micro_adb.Client.Transport.{set_world}
use micro_adb.Client.Ownership.{held, Valid}
use micro_adb.Client.Ownership.Steps.{
  Returned, allocate_frame, socket_connected, Reach, start, later,
}
use micro_adb.Client.Ownership.Life.{
  Reach-Valid, Reach-frame_count, adb_uv_close_client-live, close_all, adb_process_packet-Valid,
  adb_destroy_client-close_all,
}
use micro_adb.Packet.{Packet, a_wrte}
use micro_adb.Frame.{checksum, fill_frame}
use micro_adb.Client.Receive.Wire.{Words, header, data_of, with_msg, sent_frame_arrives}
use micro_adb.Common.{take, write_at, none, some}
use micro_adb.Client.Life.{
  adb_hal_create_client, adb_create_client, adb_uv_create_client, adb_init_client,
  adb_destroy_client, adb_uv_close_client, drop_packet,
}
use micro_adb.Client.Transport.{tcp_uv_write, ops_write}
use micro_adb.Client.Frames.{
  send_frame, adb_send_okay_frame, adb_send_okay_frame_with_data, adb_uv_packet_allocate,
  adb_hal_apacket_allocate,
}
use micro_adb.Client.Services.{update, update_service, set_body}
use micro_adb.Client.Kick.{start_reading, socket_start, try_connect, adb_hal_apacket_release}
use micro_adb.Client.Handlers.{adb_process_packet}
use micro_adb.Client.Receive.{
  adb_uv_on_data_available, bytes, start_packet, allocate_for, adb_uv_allocate_frame,
}
use micro_adb.Client.Stream.{
  adb_hal_socket_stop, tcp_stream_on_data_available, stream_send_data_frame_cb,
  tcp_stream_on_connect_cb,
}
use micro_adb.Client.Shell.{pipe_on_data_available, shell_after_write}
use micro_adb.Client.Accept.{accept_client, tcp_on_connection}
use micro_adb.Client.Admission.{Reach-is_connected}
use micro_adb.Client.Resume.{Starts, all_active, adb_hal_apacket_release-resumes}
use micro_adb.Client.Flow.{
  Carries, tcp_stream_on_data_available-sent, pipe_on_data_available-sent, closed_write-leaks,
}
use micro_adb.Client.Kick.{on_kick}
use micro_adb.Client.Handlers.{on_write_frame, on_ack_frame}
use micro_adb.Client.Stream.{tcp_stream_on_data_cb}
use micro_adb.Client.Machine.{peer_write, peer_ack, kick, data_read, write_end, connect_end}
use micro_adb.Client.Machine.Stream.{Stands, packet_free}
use micro_adb.Client.Machine.Handlers.{Follows, stream-Follows}
use micro_adb.Client.Ids.{Ids}
use micro_adb.Client.Begin.{Fresh, clients_begin}
use micro_adb.Examples.{packet, stream_service, open_packet}
use micro_adb.Examples.Books.{
  accepted_client, same_handle, Book, blank, level, book_env, fresh_client,
}
use micro_adb.Witnesses.Ledger.{book_env-Ledger}

-- A client on whose socket a connection has been made, and which is told so.
abbrev told : Client Book
told = tcp_stream_on_connect_cb book_env stream_service f_not_connected true fresh_client

fresh-Reach : Reach book_env level fresh_client
unfolding adb_uv_create_client adb_create_client adb_hal_create_client adb_init_client
fresh-Reach = start blank fresh_client refl refl refl refl

told-Reach : Reach book_env level told
told-Reach = later fresh-Reach (socket_connected stream_service f_not_connected true)

-- A client whose reception has begun.
abbrev receiving : Client Book
receiving = (adb_uv_allocate_frame book_env fresh_client).1

receiving-Reach : Reach book_env level receiving
receiving-Reach = later fresh-Reach allocate_frame

some_frames : 0 < book_env.config.frame_max
some_frames = omega arith

Reach-Valid_example : Valid book_env level held 0 told
Reach-Valid_example = Reach-Valid book_env level book_env-Ledger some_frames told-Reach

one_left : Book
one_left = record blank { live = 1 }

told-Returned : Returned level told.world one_left
unfolding tcp_stream_on_connect_cb try_connect adb_hal_apacket_allocate adb_uv_packet_allocate
    set_body update_service socket_start start_reading adb_send_okay_frame
    adb_send_okay_frame_with_data send_frame ops_write tcp_uv_write one_left
told-Returned = record { live = refl; flight = refl; lost = refl }

told-defined : told.undefined ≡ false
unfolding tcp_stream_on_connect_cb try_connect adb_hal_apacket_allocate adb_uv_packet_allocate
    set_body update_service socket_start start_reading adb_send_okay_frame
    adb_send_okay_frame_with_data send_frame ops_write tcp_uv_write
told-defined = refl

Reach-frame_count_example :
    (0 < told.frame_count) × (level.live one_left ≤ book_env.config.frame_max)
Reach-frame_count_example =
    Reach-frame_count book_env level book_env-Ledger some_frames told one_left told-Reach
      told-defined told-Returned

receiving-defined : (drop_packet book_env receiving.cur_packet receiving).undefined ≡ false
unfolding adb_uv_allocate_frame allocate_for adb_uv_packet_allocate start_packet drop_packet
    adb_hal_apacket_release
receiving-defined = refl

adb_uv_close_client-live_example :
    let w = adb_uv_close_client book_env receiving in level.live w ≡ level.flight w + level.lost w
adb_uv_close_client-live_example =
    adb_uv_close_client-live book_env level book_env-Ledger some_frames receiving receiving-Reach
      receiving-defined

Reach-is_connected_example : told.is_connected ≡ false
Reach-is_connected_example = Reach-is_connected book_env level refl refl told-Reach

-- A client that is asked for something by a packet that it has received.
abbrev asked : Client Book
asked = record fresh_client {
  services = stream_service ∷ [];
  frame_count = 1;
  world = record blank { live = 1 };
}

asked-Valid : Valid book_env level held 1 asked
asked-Valid = inr (record { bounded = omega arith; counted = inl refl; accounted = refl })

adb_process_packet-Valid_example :
    Valid book_env level held 0 (adb_process_packet book_env asked open_packet)
adb_process_packet-Valid_example =
    adb_process_packet-Valid book_env level book_env-Ledger some_frames 0 asked open_packet
      asked-Valid

adb_destroy_client-close_all_example :
    adb_destroy_client book_env asked
    ≡ book_env.uv.free_client (close_all book_env asked.services asked.world)
adb_destroy_client-close_all_example = adb_destroy_client-close_all book_env asked

same_handle_refl : (h : Handle) → same_handle h h ≡ true
same_handle_refl transport = refl
same_handle_refl write_pipe = refl
same_handle_refl (socket a) = ground arith
same_handle_refl (pipe a) = ground arith
same_handle_refl (process a) = ground arith

book_env-Starts : Starts book_env
book_env-Starts = record {
  readable = λ h w. not w.shut;
  starts = λ h w k z. (refl, ground (arith, same_handle_refl h));
  others = λ h g w k. ground (arith, k);
  kept = λ h g w. refl;
  freed = λ g p w. refl;
}

-- A client that has met its limit.
abbrev full : Client Book
full = record asked { frame_count = 5; world = record blank { live = 4 } }

adb_hal_apacket_release-resumes_example :
    let c = adb_hal_apacket_release book_env full open_packet in
    (c.frame_count ≡ 3)
    × (book_env.uv.is_active transport c.world ≡ true)
    × (all_active book_env c.world full.services ≡ true)
    × (c.undefined ≡ false)
unfolding book_env-Starts
adb_hal_apacket_release-resumes_example =
    adb_hal_apacket_release-resumes book_env book_env-Starts full open_packet refl refl refl refl

tcp_stream_on_data_available-sent_example :
    let stopped = adb_hal_socket_stop book_env 200 (adb_hal_socket_stop book_env 200 asked) in
    let c =
      tcp_stream_on_data_available book_env stream_service f_connected open_packet
        (bytes (codes "abc"))
        asked in
    (q : Packet) × Carries stream_service (codes "abc") q
    × (c ≡ send_frame book_env (set_body 200 (tcp f_wait_ack) stopped) q)
    × (c.services ≡ update asked.services 200 (λ t. record t { body = tcp f_wait_ack }))
tcp_stream_on_data_available-sent_example =
    tcp_stream_on_data_available-sent book_env stream_service open_packet (codes "abc") asked
      (λ h. cc)

abbrev shell_one : Service
shell_one = record { addr = 300; id = 3; peer_id = 9; body = shell false }

pipe_on_data_available-sent_example :
    let c = pipe_on_data_available book_env shell_one open_packet (bytes (codes "$ ")) asked in
    (q : Packet) × Carries shell_one (codes "$ ") q
    × (c
        ≡ send_frame book_env
            (set_world
              (book_env.uv.read_stop (pipe 300) asked.world)
              (set_body 300 (shell true) asked))
            q)
    × (c.services ≡ update asked.services 300 (λ t. record t { body = shell true }))
pipe_on_data_available-sent_example =
    pipe_on_data_available-sent book_env shell_one open_packet (codes "$ ") asked

closed_write-leaks_example :
    (stream_send_data_frame_cb book_env shell_one open_packet false asked ≡ asked)
    × (shell_after_write book_env shell_one open_packet false asked ≡ asked)
closed_write-leaks_example = closed_write-leaks book_env shell_one open_packet asked refl

tcp_on_connection-fresh : (tcp_on_connection book_env true blank).0 ≡ some accepted_client
unfolding tcp_on_connection accept_client adb_uv_create_client adb_create_client
    adb_hal_create_client adb_init_client
tcp_on_connection-fresh = refl

clients_begin_example : Fresh accepted_client × Ids accepted_client
clients_begin_example =
    clients_begin book_env accepted_client true [] 0 blank (inl tcp_on_connection-fresh)

asked-Stands : Stands stream_service f_connected asked
asked-Stands = record { here = refl; alone = omega arith }

stream-Follows_example :
    let packet = packet_free book_env asked in
    Follows stream_service peer_write f_connected
      (on_write_frame book_env stream_service (tcp f_connected) open_packet asked).2
    × Follows stream_service peer_ack f_connected
        (on_ack_frame book_env stream_service (tcp f_connected) open_packet asked).2
    × Follows stream_service
        (kick packet)
        f_connected
        (on_kick book_env stream_service (tcp f_connected) asked).1
    × Follows stream_service
        (data_read open_packet.data_length)
        f_connected
        (tcp_stream_on_data_cb book_env stream_service f_connected open_packet asked)
    × Follows stream_service
        (write_end true)
        f_connected
        (stream_send_data_frame_cb book_env stream_service open_packet true asked)
    × Follows stream_service
        (connect_end true packet)
        f_connected
        (tcp_stream_on_connect_cb book_env stream_service f_connected true asked)
stream-Follows_example =
    stream-Follows book_env stream_service f_connected asked open_packet true asked-Stands

abbrev wrte : Packet
wrte = packet 61 a_wrte 1 2 (codes "abc") 3

abbrev listening : Client Book
listening = record asked { is_connected = true; cur_packet = some (packet 64 0 0 0 [] 0) }

wrte-Words : Words (fill_frame wrte)
unfolding fill_frame checksum
wrte-Words = record {
  command = omega arith;
  arg0 = omega arith;
  arg1 = omega arith;
  data_length = omega arith;
  data_check = omega arith;
  magic = omega arith;
}

sent_frame_arrives_example :
    let f = fill_frame wrte in
    let q = packet 64 0 0 0 [] 0 in
    adb_uv_on_data_available book_env
      (adb_uv_on_data_available book_env listening (bytes (header f)))
      (bytes (data_of f))
    ≡ adb_process_packet book_env
        (record listening { cur_len = 24 + 3; cur_packet = none })
        (with_msg q f (write_at 0 (take 3 wrte.payload) q.payload))
sent_frame_arrives_example =
    sent_frame_arrives book_env listening wrte (packet 64 0 0 0 [] 0) refl refl refl wrte-Words
      (omega arith) (omega arith) (omega arith)
