-- ===== src/Examples.antt =====
-- Concrete values: a configuration, an operating system and a libuv whose worlds count the calls, and
-- a service, packets and a client over them.
pub mod Books
pub mod Disk
use micro_adb.Common.{
  ℕ, ◌+◌, List, [], ◌∷◌, ◌++◌, none, some, true, false, take, codes, replicate, length, bytes32,
}
use micro_adb.Packet.{Packet, Config, a_open, a_clse}
use micro_adb.Os.{Os, Stat, got, wrote, made}
use micro_adb.Uv.{Uv}
use micro_adb.Banner.{Product}
use micro_adb.Sync.{Afs, Ctx, wait_cmd, process_recv, process_send_file_data, id_stat}
use micro_adb.Client.{adb_tcp_uv_ops, Client, Env, Service, sync, tcp, f_connected}

abbrev pub config : Config
config = record {
  payload_size = 64;
  cnxn_payload_size = 1024;
  frame_max = 4;
  token_size = 20;
  path_max = 32;
  authentication = true;
  auth_pubkey = true;
  file_symlink = true;
  file_service = true;
  socket_service = true;
  shell_service = true;
}

abbrev pub file_stat : Stat
file_stat = record { mode = 33188; size = 5; mtime = 7 }

abbrev pub os : Os ℕ
os = record {
  stat = λ path w. (some file_stat, w + 1);
  lstat = λ path w. (some file_stat, w + 1);
  opendir = λ path w. (some 3, w + 1);
  readdir = λ dir w. (none, w + 1);
  closedir = λ dir w. w + 1;
  open_read = λ path w. (some 4, w + 1);
  open_write = λ path mode w. (some 5, w + 1);
  read = λ fd n w. (got (take n (codes "hello")), w + 1);
  write = λ fd bs w. (wrote 1, w + 1);
  close = λ fd w. w + 1;
  unlink = λ path w. w + 1;
  mkdir = λ path mode w. (made, w + 1);
  symlink = λ target path w. (true, w + 1);
  malloc = λ n w. (some (replicate n 0), w + 1);
  free = λ mem w. w + 1;
  strtoul = λ text. 33188;
  error_text = λ w. codes "error";
}

-- A packet with its payload of `size` bytes.
abbrev pub packet : ℕ → ℕ → ℕ → ℕ → List ℕ → ℕ → Packet
packet size command arg0 arg1 content len = record {
  write_len = 0;
  msg = record {
    command = command;
    arg0 = arg0;
    arg1 = arg1;
    data_length = len;
    data_check = 0;
    magic = 0;
  };
  payload = content ++ replicate size 0;
}

abbrev pub afs : Afs
afs = record {
  packet_ptr = 0;
  state = wait_cmd;
  cmd = 0;
  namelen = 0;
  list_d = 0;
  list_path = [];
  file_ptr = 0;
  send_file_fd = none;
  send_link_path = [];
  recv_fd = none;
  size = 0;
  buff = replicate 32 0;
}

abbrev pub uv : Uv ℕ
uv = record {
  write = λ h p bs w. (true, w + 1);
  is_active = λ h w. false;
  read_start = λ h w. (true, w + 1);
  read_stop = λ h w. w + 1;
  close = λ h w. w + 1;
  kill = λ h w. w + 1;
  ip4_addr = λ port. true;
  tcp_init = λ h w. (true, w + 1);
  tcp_connect = λ h port w. (true, w + 1);
  random = λ n w. (some (replicate n 9), w + 1);
  atoi = λ text. 8080;
  malloc_packet = λ n w. (some (packet n 0 0 0 [] 0), w + 1);
  free_packet = λ p w. w + 1;
  malloc_service = λ w. (some w, w + 1);
  malloc_afs = λ w. (some (w, afs), w + 1);
  free_service = λ addr w. w + 1;
  malloc_client = λ w. (
    some (record {
      next_service_id = 77;
      is_connected = true;
      token = replicate 20 0;
      cur_len = 0;
      frame_count = 9;
    }),
    w + 1,
  );
  free_client = λ w. w + 1;
  server_init = λ w. (true, w + 1);
  server_bind = λ w. (true, w + 1);
  server_listen = λ w. (true, w + 1);
  accept = λ h w. (true, w + 1);
  open_device = λ path access w. (some 8, w + 1);
  poll_init = λ fd w. (true, w + 1);
  poll_start = λ w. (true, w + 1);
  poll_close = λ w. w + 1;
  openpt = λ w. (some 6, w + 1);
  grantpt = λ fd w. (true, w + 1);
  unlockpt = λ fd w. (true, w + 1);
  open_slave = λ fd w. (some 7, w + 1);
  set_raw = λ fd w. w + 1;
  close_fd = λ fd w. w + 1;
  pipe_init = λ h w. (true, w + 1);
  pipe_open = λ h fd w. (true, w + 1);
  spawn = λ h argv fd w. (true, w + 1);
  print = λ text w. w + 1;
  run = λ w. w + 1;
}

abbrev pub product : Product
product = record {
  device_id = codes "id";
  name = some (codes "n");
  model = none;
  device = none;
  features = codes "cmd";
  format = λ text. text;
}

abbrev pub env : Env ℕ
env = record {
  config = config;
  product = product;
  os = os;
  uv = uv;
  ops = adb_tcp_uv_ops;
  retry = 10;
}

-- A client with a file service under the id 1 at the address 100, and a stream under 2 at 200.
abbrev pub file_service : Service
file_service = record { addr = 100; id = 1; peer_id = 7; body = sync afs }

abbrev pub stream_service : Service
stream_service = record { addr = 200; id = 2; peer_id = 8; body = tcp f_connected }

abbrev pub client : Client ℕ
client = record {
  next_service_id = 3;
  services = stream_service ∷ file_service ∷ [];
  is_connected = true;
  token = [];
  cur_packet = none;
  cur_len = 0;
  frame_count = 1;
  undefined = false;
  world = 1000;
}

abbrev pub open_packet : Packet
open_packet = packet 59 a_open 9 0 (codes "sync:") 5

abbrev pub close_packet : Packet
close_packet = packet 64 a_clse 7 1 [] 0

-- A STAT request for "/a", header and name.
abbrev pub stat_packet : Packet
stat_packet = packet 54 0 7 1 (bytes32 id_stat ++ (bytes32 2 ++ codes "/a")) 10

abbrev pub stat_ctx : Ctx ℕ
stat_ctx = record { svc = afs; pkt = stat_packet; world = 1000 }

-- The service in the middle of a RECV, with an empty packet.
abbrev pub recv_ctx : Ctx ℕ
recv_ctx = record {
  svc = record afs { state = process_recv; recv_fd = some 4 };
  pkt = packet 64 0 7 1 [] 0;
  world = 1000;
}

-- A system whose world is the contents of the file that is written, one byte at a time.
abbrev pub file_os : Os (List ℕ)
file_os = record {
  stat = λ path w. (none, w);
  lstat = λ path w. (none, w);
  opendir = λ path w. (none, w);
  readdir = λ dir w. (none, w);
  closedir = λ dir w. w;
  open_read = λ path w. (none, w);
  open_write = λ path mode w. (some 5, []);
  read = λ fd n w. (got [], w);
  write = λ fd bs w. (wrote (length (take 1 bs)), w ++ take 1 bs);
  close = λ fd w. w;
  unlink = λ path w. w;
  mkdir = λ path mode w. (made, w);
  symlink = λ target path w. (false, w);
  malloc = λ n w. (none, w);
  free = λ mem w. w;
  strtoul = λ text. 0;
  error_text = λ w. [];
}

-- The service in the middle of a SEND, with a packet of three bytes.
abbrev pub send_ctx : Ctx (List ℕ)
send_ctx = record {
  svc = record afs { state = process_send_file_data; namelen = 3; send_file_fd = some 5 };
  pkt = packet 61 0 7 1 (codes "abc") 3;
  world = [];
}
