-- ===== src/Packet.antt =====
-- adb.h: the wire message, the packet that carries it, the protocol's constants, and the build's
-- configuration. Unsigned fields are natural numbers below 2 ^ 32; `payload` is the packet's buffer `data`,
-- whose length is what was allocated for it.
use micro_adb.Common.{ℕ, Bool, List, ◌++◌, bytes32}

pub record Message : Type 0 where
  pub command : ℕ
  pub arg0 : ℕ
  pub arg1 : ℕ
  pub data_length : ℕ
  pub data_check : ℕ
  pub magic : ℕ

pub record Packet : Type 0 where
  pub write_len : ℕ
  pub msg : Message
  pub open msg use *
  pub payload : List ℕ

-- The memory of a packet from its message on.
abbrev pub encode : Packet → List ℕ
encode p =
    bytes32 p.command
    ++ (bytes32 p.arg0
        ++ (bytes32 p.arg1
            ++ (bytes32 p.data_length ++ (bytes32 p.data_check ++ (bytes32 p.magic ++ p.payload)))))

-- The CONFIG_ADBD_ macros that the modelled code reads; a macro that is defined or not is a `Bool`.
pub record Config : Type 0 where
  pub payload_size : ℕ
  pub cnxn_payload_size : ℕ
  pub frame_max : ℕ
  pub token_size : ℕ
  pub path_max : ℕ
  pub authentication : Bool
  pub auth_pubkey : Bool
  pub file_symlink : Bool
  pub file_service : Bool
  pub socket_service : Bool
  pub shell_service : Bool

abbrev pub a_cnxn : ℕ
a_cnxn = 0x4e584e43

abbrev pub a_open : ℕ
a_open = 0x4e45504f

abbrev pub a_okay : ℕ
a_okay = 0x59414b4f

abbrev pub a_clse : ℕ
a_clse = 0x45534c43

abbrev pub a_wrte : ℕ
a_wrte = 0x45545257

abbrev pub a_auth : ℕ
a_auth = 0x48545541

abbrev pub a_version : ℕ
a_version = 0x01000000

abbrev pub adb_auth_token : ℕ
adb_auth_token = 1

abbrev pub adb_auth_signature : ℕ
adb_auth_signature = 2

abbrev pub adb_auth_rsapublickey : ℕ
adb_auth_rsapublickey = 3

-- APACKET_SERVICE_INIT_ASYNC, the uint32_t ~0.
abbrev pub apacket_service_init_async : ℕ
apacket_service_init_async = 0xffffffff

-- sizeof(amessage): six unsigned words.
abbrev pub sizeof_message : ℕ
sizeof_message = 24
