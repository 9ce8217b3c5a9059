-- ===== src/Sync/Reply.antt =====
-- file_sync_service.c: what the service writes into a packet, and what it reads from one.
use micro_adb.Common.{
  ℕ, ◌+◌, ◌-◌, ◌%◌, ◌^◌, ◌||◌, List, ◌++◌, min, ltb, ◌==◌, if◌then◌else◌, length, take, drop,
  write_at, bytes32, sub64,
}
use micro_adb.Packet.{Config}
use micro_adb.Os.{Os}
use micro_adb.Sync.{Ctx, id_fail, id_okay, id_done}

-- The results 0, -EAGAIN and -EINVAL of read_from_packet.
pub data Taken : Type 0 where
  complete again invalid : Taken

abbrev pub on_taken {ℓ} : {B : Type ℓ} → Taken → B → B → B → B
on_taken complete x y z = x
on_taken again x y z = y
on_taken invalid x y z = z

module _ {W : Type 0} where
  -- Stores `bs` at p->data + p->write_len and advances write_len, which is an unsigned int.
  unfoldable pub append_reply : List ℕ → Ctx W → Ctx W
  append_reply bs s = record s {
    pkt = record s.pkt {
      payload = write_at s.write_len bs s.payload;
      write_len = (s.write_len + length bs) % 2 ^ 32;
    };
  }

  -- The length is cut to what is left of the payload, computed in size_t.
  unfoldable pub prepare_fail_message : Config → List ℕ → Ctx W → Ctx W
  prepare_fail_message c reason s =
      let len = min (length reason) (sub64 c.payload_size (8 + s.write_len)) in
      append_reply (bytes32 id_fail ++ bytes32 len ++ take len reason) s

  unfoldable pub prepare_fail_errno : Config → Os W → Ctx W → Ctx W
  prepare_fail_errno c os s = prepare_fail_message c (os.error_text s.world) s

  unfoldable pub prepare_okay_message : Ctx W → Ctx W
  prepare_okay_message s = append_reply (bytes32 id_okay ++ bytes32 0) s

  -- The `dent` message that ends a listing.
  unfoldable pub prepare_done_dent : Ctx W → Ctx W
  prepare_done_dent s =
      append_reply (bytes32 id_done ++ bytes32 0 ++ bytes32 0 ++ bytes32 0 ++ bytes32 0) s

  -- Moves `chunk` bytes from the packet to the service's buffer.
  unfoldable pub take_chunk : ℕ → Ctx W → Ctx W
  take_chunk chunk s = record s {
    svc = record s.svc {
      buff = write_at s.size (take chunk (drop s.packet_ptr s.payload)) s.buff;
      size = s.size + chunk;
      packet_ptr = s.packet_ptr + chunk;
    };
    pkt = record s.pkt { msg = record s.pkt.msg { data_length = s.data_length - chunk } };
  }

  unfoldable pub reset_size : Ctx W → Ctx W
  reset_size s = record s { svc = record s.svc { size = 0 } }

  unfoldable pub finish_read : ℕ → Ctx W → Taken × Ctx W
  finish_read size s = if s.size == size then (complete, reset_size s) else (again, s)

  unfoldable pub read_from_packet : Config → ℕ → Ctx W → Taken × Ctx W
  read_from_packet c size s =
      if ltb size s.size || ltb c.path_max size
      then (invalid, reset_size s)
      else finish_read size (take_chunk (min (size - s.size) s.data_length) s)
