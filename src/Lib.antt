-- ===== src/Lib.antt =====
-- microADB, a device-side daemon of the Android debug bridge in C on libuv: a verification library.
--
-- A host connects over a transport. hal/hal_uv_packet.c turns the transport's bytes into packets and
-- checks them with adb_frame.c; adb_client.c answers a connection with the text of adb_banner.c,
-- authenticates, and routes the frames OPEN, OKAY, WRTE and CLSE to services: the file service of
-- file_sync_service.c, the TCP forwarding of tcp_service.c and the shell of hal/shell_service_uv.c. A
-- service answers in the packet it was given, which is then sent, and released when libuv has written
-- it.
--
-- Which file models what:
--   Common           lists of bytes, C strings and 32-bit words in memory, Boolean tests
--   Packet           adb.h: amessage, apacket, the constants, and the CONFIG_ADBD_ macros as `Config`
--   Frame            adb_frame.c, and the header and checksum that send_frame of adb_client.c fills;
--                    what the checks accept is in Frame/Check
--   Os, Uv           the C library and the kernel, and libuv and the allocator, as parameters; Os/Closed
--                    and Uv/Closed: what every call of them keeps to
--   Sync             file_sync_service.c: its state; Sync/Reply the replies and read_from_packet,
--                    Sync/Transfer the state_process_ functions and state_reset, Sync/Command the
--                    state_init_ and state_wait_ functions, Sync/Service on_write, on_ack and on_close.
--                    The proofs: Sync/Invariant, Kept, Rounds and Progress for the loop, Sync/Room,
--                    Answers and Bounds for the packet's memory,
--                    Sync/Files for what is written to a file,
--                    and Sync/Through for what the service keeps to if every call does;
--                    Sync/Held for the descriptors and the memory that it holds; Sync/Recv and
--                    Sync/Listing for what RECV and LIST send; Sync/Push, the messages of a SEND as a machine on
--                    bytes, with Rounds, Block, Header, Service, Blocks and File, for what its packets
--                    make of a file
--   Banner           adb_fill_connect_data; Banner/Laws its theorem
--   Client           adb_client_t, adb_service_t and the services' state; Client/Transport write and
--                    close of the three hal/hal_uv_client_ files; Client/Frames the functions that send
--                    and the allocation of packets; Client/Services the list of services and their
--                    on_close; Client/Kick on_kick, the transports' kick and the release of packets;
--                    Client/Open adb_service_open and the constructors of the services; Client/Handlers
--                    the frame handlers, on_write_frame, on_ack_frame and adb_process_packet;
--                    Client/Receive the reads of the transport; Client/Stream the callbacks of
--                    tcp_service.c and hal/hal_uv_socket.c; Client/Shell those of
--                    hal/shell_service_uv.c; Client/Life the creation and the end of a client, with
--                    hal/hal_uv.c; Client/Accept the set-up of the transports and their clients;
--                    Client/Callbacks the functions that libuv calls first; Client/Start main and
--                    adb_hal_run.
--                    The proofs: Client/Walk, an interface for a relation that the functions keep to,
--                    and its children, which carry it through all of them; Client/Steady, the instance
--                    for what they leave alone, for Connection, Numbered, Ids and Close; Ids/Steps and
--                    Ids/Life, the ids over a client's life; Client/Ownership, the
--                    instance for the accounts of packets, with Reception, the calls of libuv as a step
--                    relation in Steps, and Life; Client/Machine, the states of a stream, with Stream
--                    and Handlers; Client/Reads, the instance for what reception keeps, and Reads/Life;
--                    Accept/Accounts and Accept/Servers, what the servers hold; Client/Admission, Resume,
--                    Flow, Forward and Begin; Client/Lists; and Receive/Bounds, Keeps, Memory, Chunks, Wire
--                    and Sent
--   AuthKey          adb_auth_key.c, the table of public keys
--   Examples, Witnesses    concrete values, and the theorems applied to them
--
-- State is passed explicitly: a function takes the client (or the service with its packet) and
-- returns it. A type `W` of worlds stands for everything outside; `Os W` and `Uv W` are records of
-- functions on it, so a theorem holds for every behaviour of the outside that its hypotheses allow.
-- An int result of a service is a `Ret`: negative, 0, positive, or `stuck` where the call has no
-- defined return. Unsigned words are natural numbers with `% 2 ^ 32` where they wrap; the host is
-- little-endian with 64-bit pointers, and 32-bit ids stand for their bit patterns. Memory is a list of
-- bytes, and a write past a buffer's end makes the list longer, so that a theorem on its length says
-- that nothing was written past it. A union of the source is a record of all its members. The field
-- `undefined` of a client is set where the source reads a freed or null pointer, frees memory whose
-- handle libuv still has, or fails an assertion.
--
-- Loops: the loop of file_sync_on_write runs on fuel of 2 * data_length + 2, which is proved to be
-- enough (Sync/Progress). The loop that repeats write(2) until all is taken has no bound in the
-- source, since every call may be interrupted; it runs `retry` times, a parameter, and is stuck after
-- that. Sync/Files shows how many are enough for a file. All else is structural.
--
-- Not modelled: the callback of a shell's exit, which logs, and log messages but that of a reboot;
-- logcat_service.h, whose functions are not in the repository. libuv's loop is a function on worlds
-- in Client/Start, and one call of libuv after another in the step relation of
-- Client/Ownership/Steps, which leaves out the failed write of a service that has left the list, which
-- leaks its packet.
pub mod Common
pub mod Packet
pub mod Frame
pub mod Os
pub mod Sync
pub mod Banner
pub mod AuthKey
pub mod Uv
pub mod Client
pub mod Examples
pub mod Witnesses
