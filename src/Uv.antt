-- ===== src/Uv.antt =====
-- What the program asks of libuv and of the allocator for its own objects, as a parameter over the
-- same type `W` of worlds as `Os`. `false` stands for a non-zero error code, `none` for a null
-- pointer or an error.
pub mod Closed
use micro_adb.Common.{ℕ, Bool, List, Option}
use micro_adb.Packet.{Packet}
use micro_adb.Sync.{Afs}

-- The handles: the transport's, which the USB transport writes through a second one, and those that the service at an address holds.
pub data Handle : Type 0 where
  transport write_pipe : Handle
  socket pipe process : ℕ → Handle

-- What malloc leaves in a new client's numbers; a pointer that it leaves is never followed.
pub record ClientMemory : Type 0 where
  pub next_service_id : ℕ
  pub is_connected : Bool
  pub token : List ℕ
  pub cur_len : ℕ
  pub frame_count : ℕ

pub data Access : Type 0 where
  o_rdonly o_wronly o_rdwr : Access

pub record Uv (W : Type 0) : Type 0 where
  -- uv_write of the request in a packet, with its buffers. From a success on, the packet is libuv's
  -- until the write's callback.
  pub write : Handle → Packet → List (List ℕ) → W → Bool × W
  pub is_active : Handle → W → Bool
  pub read_start : Handle → W → Bool × W
  pub read_stop : Handle → W → W
  -- uv_close, whose callback comes later.
  pub close : Handle → W → W
  pub kill : Handle → W → W
  pub ip4_addr : ℕ → Bool
  pub tcp_init : Handle → W → Bool × W
  pub tcp_connect : Handle → ℕ → W → Bool × W
  pub random : ℕ → W → Option (List ℕ) × W
  pub atoi : List ℕ → ℕ
  -- malloc and free of a packet whose payload has the given size, and of a service, by address.
  pub malloc_packet : ℕ → W → Option Packet × W
  pub free_packet : Packet → W → W
  pub malloc_service : W → Option ℕ × W
  -- The same of an afs_service_t, with the contents of the memory.
  pub malloc_afs : W → Option (ℕ × Afs) × W
  pub free_service : ℕ → W → W
  -- The same of a client, with the contents of the memory.
  pub malloc_client : W → Option ClientMemory × W
  pub free_client : W → W
  -- Of the listening socket: init, bind and listen, and uv_accept into the transport's handle.
  pub server_init : W → Bool × W
  pub server_bind : W → Bool × W
  pub server_listen : W → Bool × W
  pub accept : Handle → W → Bool × W
  -- open(2) of a device by its path, for reading, for writing or for both.
  pub open_device : List ℕ → Access → W → Option ℕ × W
  -- The poll handle of the QEMU server: init on a descriptor, start, and uv_close.
  pub poll_init : ℕ → W → Bool × W
  pub poll_start : W → Bool × W
  pub poll_close : W → W
  -- The pseudo-terminal of a shell: posix_openpt, grantpt, unlockpt, open of the slave's name, raw
  -- mode and close, by descriptor.
  pub openpt : W → Option ℕ × W
  pub grantpt : ℕ → W → Bool × W
  pub unlockpt : ℕ → W → Bool × W
  pub open_slave : ℕ → W → Option ℕ × W
  pub set_raw : ℕ → W → W
  pub close_fd : ℕ → W → W
  -- uv_pipe_init, uv_pipe_open, and uv_spawn with its arguments on a descriptor.
  pub pipe_init : Handle → W → Bool × W
  pub pipe_open : Handle → ℕ → W → Bool × W
  pub spawn : Handle → List (List ℕ) → ℕ → W → Bool × W
  -- printf of a line of the log, where its text is the peer's.
  pub print : List ℕ → W → W
  -- uv_run with every callback that it calls, until no handle is left.
  pub run : W → W
