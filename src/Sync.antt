-- ===== src/Sync.antt =====
-- file_sync_service.c: the state of the service, and the context that its functions change.
pub mod Reply
pub mod Transfer
pub mod Command
pub mod Service
pub mod Invariant
pub mod Kept
pub mod Room
pub mod Answers
pub mod Bounds
pub mod Rounds
pub mod Progress
pub mod Files
pub mod Through
pub mod Held
pub mod Recv
pub mod Listing
pub mod Push
use micro_adb.Common.{ℕ, ◌+◌, ◌*◌, Bool, Option, List}
use micro_adb.Packet.{Packet}

-- MKID(a, b, c, d).
abbrev pub mkid : ℕ → ℕ → ℕ → ℕ → ℕ
mkid a b c d = a + 256 * b + 65536 * c + 16777216 * d

abbrev pub id_stat : ℕ
id_stat = mkid b'S' b'T' b'A' b'T'

abbrev pub id_list : ℕ
id_list = mkid b'L' b'I' b'S' b'T'

abbrev pub id_send : ℕ
id_send = mkid b'S' b'E' b'N' b'D'

abbrev pub id_recv : ℕ
id_recv = mkid b'R' b'E' b'C' b'V'

abbrev pub id_dent : ℕ
id_dent = mkid b'D' b'E' b'N' b'T'

abbrev pub id_done : ℕ
id_done = mkid b'D' b'O' b'N' b'E'

abbrev pub id_data : ℕ
id_data = mkid b'D' b'A' b'T' b'A'

abbrev pub id_okay : ℕ
id_okay = mkid b'O' b'K' b'A' b'Y'

abbrev pub id_fail : ℕ
id_fail = mkid b'F' b'A' b'I' b'L'

abbrev pub id_quit : ℕ
id_quit = mkid b'Q' b'U' b'I' b'T'

-- The AFS_STATE_ constants, in the order of the enum.
pub data State : Type 0 where
  wait_cmd wait_cmd_data process_recv process_list process_send_file_hdr process_send_file_data
        process_send_sym_hdr process_send_sym_data :
      State

-- struct afs_service_s without its adb_service_t. The union's members are fields of their own: the
-- code reads a member only in the states that are entered by writing it. `packet_ptr` is an offset
-- into the packet's buffer, `file_ptr` one into `list_path`.
pub record Afs : Type 0 where
  pub packet_ptr : ℕ
  pub state : State
  pub cmd : ℕ
  pub namelen : ℕ
  pub list_d : ℕ
  pub list_path : List ℕ
  pub file_ptr : ℕ
  pub send_file_fd : Option ℕ
  pub send_link_path : List ℕ
  pub recv_fd : Option ℕ
  pub size : ℕ
  pub buff : List ℕ

-- What a function of the service works on: the service, the packet, and the world.
pub record Ctx (W : Type 0) : Type 0 where
  pub svc : Afs
  pub open svc use *
  pub pkt : Packet
  pub open pkt use *
  pub world : W

-- An `int` result: negative, 0, or positive. `stuck` is no result: the call has no defined return,
-- because of a copy of a negative length or because a retry loop used up its bound.
pub data Ret : Type 0 where
  failed done more stuck : Ret
