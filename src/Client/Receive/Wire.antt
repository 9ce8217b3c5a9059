-- ===== src/Client/Receive/Wire.antt =====
-- hal/hal_uv_packet.c: a frame that the peer has sent, from its bytes to adb_process_packet.
use micro_adb.Common.{
  drop-drop, ℕ, zero, suc, ◌+◌, ◌%◌, ◌^◌, ◌≤◌, ◌<◌, ◌≡◌, refl, sym, ap, ◌∙◌, List, [], ◌∷◌, ◌++◌,
  none, some, true, false, ltb, length, take, drop, write_at, word32-bytes32, length-take, arith,
}
use micro_adb.Packet.{Packet, Message}
use micro_adb.Frame.{checksum, check_frame_magic, check_frame_header, check_frame_data, fill_frame}
use micro_adb.Frame.Check.{fill_frame_accepted}
use micro_adb.Client.{Client, Env}
use micro_adb.Client.Handlers.{adb_process_packet}
use micro_adb.Client.Receive.{
  bytes, encode, decode, store, bad_header, take_bytes, complete_packet, adb_uv_on_data_available,
}

-- Six 32-bit words.
pub record Words (f : Packet) : Type 0 where
  pub command : f.command < 2 ^ 32
  pub arg0 : f.arg0 < 2 ^ 32
  pub arg1 : f.arg1 < 2 ^ 32
  pub data_length : f.data_length < 2 ^ 32
  pub data_check : f.data_check < 2 ^ 32
  pub magic : f.magic < 2 ^ 32

-- The bytes of a frame: its header, and its data.
abbrev pub header : Packet → List ℕ
header f = encode (record f { payload = [] })

abbrev pub data_of : Packet → List ℕ
data_of f = take f.data_length f.payload

-- The memory of a packet with the message of a frame.
abbrev pub with_msg : Packet → Packet → List ℕ → Packet
with_msg q f payload = record { write_len = q.write_len; msg = f.msg; payload = payload }

message-≡ :
    (n : ℕ) (f : Packet) (m : Message) (payload : List ℕ)
    → m.command ≡ f.command
    → m.arg0 ≡ f.arg0
    → m.arg1 ≡ f.arg1
    → m.data_length ≡ f.data_length
    → m.data_check ≡ f.data_check
    → m.magic ≡ f.magic
    → (let g : Packet = record { write_len = n; msg = m; payload = payload } in g)
      ≡ record { write_len = n; msg = f.msg; payload = payload }
message-≡ n f m payload a b c d e g = cc

-- What stands behind a header decodes to the frame's message.
decode-header :
    (n : ℕ) (f : Packet) (rest : List ℕ)
    → Words f
    → decode n (header f ++ rest) ≡ record { write_len = n; msg = f.msg; payload = rest }
decode-header n f rest w =
    message-≡ n f _ rest (word32-bytes32 f.command [] w.command) (word32-bytes32 f.arg0 [] w.arg0)
      (word32-bytes32 f.arg1 [] w.arg1) (word32-bytes32 f.data_length [] w.data_length)
      (word32-bytes32 f.data_check [] w.data_check) (word32-bytes32 f.magic [] w.magic)

store-header : (f q : Packet) → Words f → store 0 (header f) q ≡ with_msg q f q.payload
unfolding store
store-header f q w = decode-header q.write_len f q.payload w

store-data :
    (f q : Packet) (payload d : List ℕ)
    → Words f
    → store 24 d (with_msg q f payload) ≡ with_msg q f (write_at 0 d payload)
unfolding store
store-data f q payload d w =
    ap (λ r. decode q.write_len (header f ++ (d ++ r)))
      (sym (drop-drop (length d) 24 (encode (with_msg q f payload))))
    ∙ ap (λ r. decode q.write_len (header f ++ (d ++ r)))
        (let z : 0 + length d ≡ length d = omega arith in rw z refl)
    ∙ decode-header q.write_len f _ w

checksum-take :
    (n s : ℕ) (xs ys : List ℕ) → n ≤ length xs → checksum n (take n xs ++ ys) s ≡ checksum n xs s
unfolding checksum
checksum-take zero s xs ys h = refl
checksum-take (suc n) s [] ys h = absurd (omega (arith, h))
checksum-take (suc n) s (x ∷ xs) ys h = checksum-take n ((s + x) % 2 ^ 32) xs ys (omega (arith, h))

module _ {W : Type 0} (e : Env W) where
  -- The header check reads the message only.
  check_header-msg :
      (f q : Packet) (payload : List ℕ)
      → check_frame_header e.config f ≡ true
      → check_frame_header e.config (with_msg q f payload) ≡ true
  unfolding check_frame_header check_frame_magic
  check_header-msg f q payload h = h

  header_read :
      (c : Client W) (f q : Packet)
      → c.cur_packet ≡ some q
      → c.cur_len ≡ 0
      → c.is_connected ≡ true
      → Words f
      → check_frame_header e.config f ≡ true
      → 0 < f.data_length
      → adb_uv_on_data_available e c (bytes (header f))
        ≡ record c { cur_len = 24; cur_packet = some (with_msg q f q.payload) }
  unfolding adb_uv_on_data_available take_bytes bad_header
  header_read c f q z n k w h d =
      let stored = store-header f q w in
      let good = check_header-msg f q q.payload h in
      let more : ltb 24 (24 + f.data_length) ≡ true = ground (arith, d) in
      rw z (rw n (rw stored (rw k (rw good (rw more refl)))))

  data_good :
      (f q : Packet) (ys : List ℕ)
      → f.data_length ≤ length f.payload
      → check_frame_data f ≡ true
      → check_frame_data (with_msg q f (data_of f ++ ys)) ≡ true
  unfolding check_frame_data
  data_good f q ys h k = rw (checksum-take f.data_length 0 f.payload ys h) k

  data_read :
      (c : Client W) (f q : Packet)
      → c.cur_packet ≡ some (with_msg q f q.payload)
      → c.cur_len ≡ 24
      → Words f
      → f.data_length ≤ length f.payload
      → check_frame_data f ≡ true
      → adb_uv_on_data_available e c (bytes (data_of f))
        ≡ adb_process_packet e
            (record c { cur_len = 24 + f.data_length; cur_packet = none })
            (with_msg q f (write_at 0 (data_of f) q.payload))
  unfolding adb_uv_on_data_available take_bytes bad_header complete_packet
  data_read c f q z n w h k =
      let stored = store-data f q q.payload (data_of f) w in
      let len : length (data_of f) ≡ f.data_length =
        omega (arith, length-take f.data_length f.payload, h) in
      let all : ltb (24 + f.data_length) (24 + f.data_length) ≡ false = ground arith in
      let good = data_good f q (drop (0 + f.data_length) q.payload) h k in
      rw z (rw n (rw stored (rw len (rw all (rw good refl)))))

  frame_arrives :
      (c : Client W) (f q : Packet)
      → c.cur_packet ≡ some q
      → c.cur_len ≡ 0
      → c.is_connected ≡ true
      → Words f
      → check_frame_header e.config f ≡ true
      → check_frame_data f ≡ true
      → 0 < f.data_length
      → f.data_length ≤ length f.payload
      → adb_uv_on_data_available e
          (adb_uv_on_data_available e c (bytes (header f)))
          (bytes (data_of f))
        ≡ adb_process_packet e
            (record c { cur_len = 24 + f.data_length; cur_packet = none })
            (with_msg q f (write_at 0 (data_of f) q.payload))
  frame_arrives c f q z n k w h g d s =
      ap (λ (x : Client W). adb_uv_on_data_available e x (bytes (data_of f)))
        (header_read c f q z n k w h d)
      ∙ data_read (record c { cur_len = 24; cur_packet = some (with_msg q f q.payload) }) f q refl
          refl w s g

  -- What send_frame has filled and a peer has sent is processed as it was sent, once its header and
  -- then its data have been read into the packet in reception of a connected client: with the same
  -- message, and with its data in front of what was in that packet's payload. The frame has data, in
  -- its payload and no more than the configured size, and its fields are 32-bit words.
  pub sent_frame_arrives :
      (c : Client W) (p q : Packet)
      → c.cur_packet ≡ some q
      → c.cur_len ≡ 0
      → c.is_connected ≡ true
      → Words (fill_frame p)
      → 0 < p.data_length
      → p.data_length ≤ length p.payload
      → p.data_length ≤ e.config.payload_size
      → let f = fill_frame p in
        adb_uv_on_data_available e
          (adb_uv_on_data_available e c (bytes (header f)))
          (bytes (data_of f))
        ≡ adb_process_packet e
            (record c { cur_len = 24 + p.data_length; cur_packet = none })
            (with_msg q f (write_at 0 (take p.data_length p.payload) q.payload))
  unfolding fill_frame
  sent_frame_arrives c p q z n k w d s m =
      let (h, g) = fill_frame_accepted e.config p in
      frame_arrives c (fill_frame p) q z n k w (h.1 m) g d s
