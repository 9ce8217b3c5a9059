-- ===== src/Client.antt =====
-- adb.h and hal/hal_uv_priv.h: the client, its services, and the environment of its functions.
pub mod Transport
pub mod Frames
pub mod Services
pub mod Kick
pub mod Open
pub mod Handlers
pub mod Receive
pub mod Stream
pub mod Shell
pub mod Life
pub mod Accept
pub mod Start
pub mod Callbacks
pub mod Lists
pub mod Walk
pub mod Steady
pub mod Connection
pub mod Numbered
pub mod Ids
pub mod Close
pub mod Ownership
pub mod Resume
pub mod Machine
pub mod Flow
pub mod Forward
pub mod Begin
pub mod Admission
pub mod Reads
use micro_adb.Common.{ℕ, Bool, List, Option}
use micro_adb.Packet.{Packet, Config}
use micro_adb.Os.{Os}
use micro_adb.Uv.{Uv}
use micro_adb.Sync.{Afs}
use micro_adb.Banner.{Product}

-- enum stream_state of tcp_service.c, in its order.
pub data StreamState : Type 0 where
  f_error_close f_not_connected f_notify_client f_connected f_wait_ack : StreamState

-- The structure that a service is the first member of: afs_service_t, adb_stream_service_t and
-- ash_service_t; of the last two the libuv handles are named by the service's address.
pub data Body : Type 0 where
  sync : Afs → Body
  tcp : StreamState → Body
  shell : Bool → Body

-- adb_service_t, with its address. `ops` is given by the body; `next` by the list it stands in.
pub record Service : Type 0 where
  pub addr : ℕ
  pub id : ℕ
  pub peer_id : ℕ
  pub body : Body

-- adb_client_t inside adb_client_uv_t. `undefined` is not in the source: it is set when the code
-- has no defined behaviour (a null or freed pointer is read, a copy has a negative length) or a
-- failed assertion ends it; nothing is said of what follows.
pub record Client (W : Type 0) : Type 0 where
  pub next_service_id : ℕ
  pub services : List Service
  pub is_connected : Bool
  pub token : List ℕ
  pub cur_packet : Option Packet
  pub cur_len : ℕ
  pub frame_count : ℕ
  pub undefined : Bool
  pub world : W

-- The three adb_client_ops_t, one for each transport.
pub data Ops : Type 0 where
  adb_tcp_uv_ops adb_usb_uv_ops adb_qemu_uv_ops : Ops

-- What the functions of a client are given from outside; `ops` is the client's own
-- `ops`, which never changes. `retry` bounds the calls of write(2) for
-- one block of a file.
pub record Env (W : Type 0) : Type 0 where
  pub config : Config
  pub product : Product
  pub os : Os W
  pub uv : Uv W
  pub ops : Ops
  pub retry : ℕ
