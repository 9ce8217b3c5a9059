-- ===== src/Sync/Invariant.antt =====
-- The invariant of the file service between two rounds of its loop, and that the loop ends.
use micro_adb.Common.{
  ◌≢◌, ◌++◌, ◌∙◌, ◌||◌, ◌==◌, ltb, if◌then◌else◌, refl, sym, ap, Bool, true, false, Bool-cases, inl,
  inr, write_at, take-write_at, ℕ, ◌+◌, ◌-◌, ◌*◌, ◌≤◌, ◌<◌, ◌≡◌, ◌⊎◌, List, min, arith, length,
  take, drop, length-take, length-drop, length-write_at,
}
use micro_adb.Packet.{Config}
use micro_adb.Sync.{
  Ctx, State, wait_cmd, wait_cmd_data, process_recv, process_list, process_send_file_hdr,
  process_send_file_data, process_send_sym_hdr, process_send_sym_data,
}
use micro_adb.Sync.Reply.{
  take_chunk, finish_read, reset_size, read_from_packet, Taken, complete, again, invalid,
}

-- How much of a request the buffer holds, by state.
abbrev pub Phase : Config → State → ℕ → ℕ → Type 0
Phase c wait_cmd size namelen = size < 8
Phase c wait_cmd_data size namelen = (size ≤ namelen) × (namelen < c.path_max)
Phase c process_send_file_hdr size namelen = size < 8
Phase c process_send_sym_hdr size namelen = size < 8
Phase c process_send_file_data size namelen = size ≡ 0
Phase c process_send_sym_data size namelen = size ≤ namelen
Phase c process_recv size namelen = size ≡ 0
Phase c process_list size namelen = size ≡ 0

-- A path buffer holds a request header, the buffer keeps its size, what is left of the packet lies inside it, and the phase is that of the
-- state.
pub record Inv {W : Type 0} (c : Config) (s : Ctx W) : Type 0 where
  pub path_room : 8 ≤ c.path_max
  pub buff_size : length s.buff ≡ c.path_max
  pub in_packet : s.packet_ptr + s.data_length ≤ length s.payload
  pub phase : Phase c s.state s.size s.namelen

-- The same between two packets, when nothing is left to read.
pub record Idle {W : Type 0} (c : Config) (s : Ctx W) : Type 0 where
  pub path_room : 8 ≤ c.path_max
  pub buff_size : length s.buff ≡ c.path_max
  pub phase : Phase c s.state s.size s.namelen

-- The states that may run without taking a byte of the packet.
abbrev pub weight : State → ℕ
weight wait_cmd_data = 1
weight process_send_file_data = 1
weight process_send_sym_data = 1
weight st = 0

abbrev pub measure : {W : Type 0} → Ctx W → ℕ
measure s = 2 * s.data_length + weight s.state

pub length-chunk :
    (chunk ptr : ℕ) (xs : List ℕ)
    → ptr + chunk ≤ length xs
    → length (take chunk (drop ptr xs)) ≡ chunk
length-chunk chunk ptr xs h = omega (arith, length-take chunk (drop ptr xs), length-drop ptr xs)

module _ {W : Type 0} (c : Config) where
  -- What reading does to the rest of the context, and how its three results come about.
  pub record Reads (size : ℕ) (s : Ctx W) (t : Taken) (s' : Ctx W) : Type 0 where
    pub buff_kept : length s.buff ≡ c.path_max → length s'.buff ≡ c.path_max
    pub rest_kept : (s'.payload ≡ s.payload) × (s'.state ≡ s.state) × (s'.namelen ≡ s.namelen)
    pub moved : s'.packet_ptr + s'.data_length ≡ s.packet_ptr + s.data_length
    pub shorter : s'.data_length ≤ s.data_length
    pub on_complete :
        t ≡ complete → (s'.size ≡ 0) × (s'.data_length + size ≡ s.data_length + s.size)
    pub on_again : t ≡ again → (s'.size < size) × (s'.data_length ≡ 0)
    pub on_invalid : t ≡ invalid → (s'.size ≡ 0) × ((size < s.size) ⊎ (c.path_max < size))

  -- Where what is left of the packet lies inside it, read_from_packet keeps the size of a buffer of
  -- path_max bytes, the payload and the state, takes from the packet what it moves on by, and its
  -- three results are those of `Reads`: all of the bytes asked for, the packet used up before, and a
  -- size that is below what is there or above path_max.
  pub read_from_packet-Reads :
      (size : ℕ) (s : Ctx W)
      → s.packet_ptr + s.data_length ≤ length s.payload
      → Reads size s (read_from_packet c size s).0 (read_from_packet c size s).1
  unfolding read_from_packet take_chunk finish_read reset_size
  read_from_packet-Reads size s h =
      let chunk = min (size - s.size) s.data_length in
      let block = take chunk (drop s.packet_ptr s.payload) in
      ground (
        arith,
        length-chunk chunk s.packet_ptr s.payload (omega arith),
        length-write_at s.size block s.buff,
      )

  -- What reading leaves in the buffer: what was in it before, up to its size, and after that the
  -- packet's bytes from the pointer on.
  pub record Stored (size : ℕ) (s : Ctx W) (t : Taken) (s' : Ctx W) : Type 0 where
    pub on_complete :
        t ≡ complete
        → take size s'.buff
          ≡ take s.size s.buff ++ take (size - s.size) (drop s.packet_ptr s.payload)
    pub on_again :
        t ≡ again
        → take s'.size s'.buff
          ≡ take s.size s.buff ++ take s.data_length (drop s.packet_ptr s.payload)
    pub on_invalid : t ≡ invalid → s'.buff ≡ s.buff

  chunk-stored :
      (chunk : ℕ) (s : Ctx W)
      → s.packet_ptr + s.data_length ≤ length s.payload
      → s.size ≤ length s.buff
      → chunk ≤ s.data_length
      → take (s.size + chunk) (take_chunk chunk s).buff
        ≡ take s.size s.buff ++ take chunk (drop s.packet_ptr s.payload)
  unfolding take_chunk
  chunk-stored chunk s h k d =
      let block = take chunk (drop s.packet_ptr s.payload) in
      let l = length-chunk chunk s.packet_ptr s.payload (omega (arith, h, d)) in
      ap (λ n. take (s.size + n) (write_at s.size block s.buff)) (sym l)
      ∙ take-write_at s.size block s.buff k

  finish-Stored :
      (size : ℕ) (s : Ctx W) (b : Bool)
      → let chunk = min (size - s.size) s.data_length in
        let u = take_chunk chunk s in
        let r : Taken × Ctx W = if b then (complete, reset_size u) else (again, u) in
        s.packet_ptr + s.data_length ≤ length s.payload
        → s.size ≤ length s.buff
        → s.size ≤ size
        → (s.size + chunk == size) ≡ b
        → Stored size s r.0 r.1
  unfolding take_chunk reset_size
  finish-Stored size s true h k l q =
      let chunk = min (size - s.size) s.data_length in
      let z : s.size + chunk ≡ size = ground (arith, q) in
      let y : chunk ≡ size - s.size = omega (arith, z) in
      let a = chunk-stored chunk s h k (omega arith) in
      record {
        on_complete = λ t.
            ap (λ n. take n (take_chunk chunk s).buff) (sym z)
            ∙ a
            ∙ ap (λ n. take s.size s.buff ++ take n (drop s.packet_ptr s.payload)) y;
        on_again = λ t. cc;
        on_invalid = λ t. cc;
      }
  finish-Stored size s false h k l q =
      let chunk = min (size - s.size) s.data_length in
      let n : s.size + chunk ≢ size = ground (arith, q) in
      let y : chunk ≡ s.data_length = ground (arith, n, l) in
      let a = chunk-stored chunk s h k (omega arith) in
      record {
        on_complete = λ t. cc;
        on_again = λ t. a ∙ ap (λ n. take s.size s.buff ++ take n (drop s.packet_ptr s.payload)) y;
        on_invalid = λ t. cc;
      }

  -- Where what is left of the packet lies inside it and the buffer holds what its size says,
  -- read_from_packet keeps the size of a buffer of path_max bytes, the payload and the state, takes
  -- from the packet what it moves on by, and its three results are those of `Reads`: all of the bytes
  -- asked for, the packet used up before, and a size that is below what is there or above path_max.
  -- The buffer then holds, after what was in it, the packet's bytes from the pointer on: as many as
  -- were missing, or all that were left; the third result leaves it alone.
  pub read_from_packet-Stored :
      (size : ℕ) (s : Ctx W)
      → s.packet_ptr + s.data_length ≤ length s.payload
      → s.size ≤ length s.buff
      → let r = read_from_packet c size s in Reads size s r.0 r.1 × Stored size s r.0 r.1
  unfolding read_from_packet finish_read take_chunk reset_size
  read_from_packet-Stored size s h k =
      let bad = ltb size s.size || ltb c.path_max size in
      (
        read_from_packet-Reads size s h,
        elim (Bool-cases bad) [
          | inl z ↦
              rw z (record { on_complete = λ t. cc; on_again = λ t. cc; on_invalid = λ t. refl })
          | inr z ↦ rw z (finish-Stored size s _ h k (ground (arith, z)) refl)
        ],
      )
