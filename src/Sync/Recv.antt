-- ===== src/Sync/Recv.antt =====
-- file_sync_service.c: what RECV sends of a file, over short reads, while the peer acknowledges.
use mathlib.Core.Path.{subst}
use micro_adb.Common.{
  take-prefix, ℕ, zero, suc, ◌+◌, ◌%◌, ◌^◌, ◌≤◌, ◌<◌, ◌≡◌, refl, sym, ap, ◌∙◌, some, List, [], ◌∷◌,
  ◌++◌, arith, length, length-append, take, drop, write_at, bytes32, sub64,
}
use micro_adb.Packet.{Packet, Config}
use micro_adb.Os.{Os, got}
use micro_adb.Sync.{Ctx, Ret, State, wait_cmd, process_recv, id_data, id_done}
use micro_adb.Sync.Reply.{append_reply}
use micro_adb.Sync.Transfer.{set_world, state_reset, recv_reply, read_recv, state_process_recv}
use micro_adb.Sync.Service.{ack_state, end_ack, file_sync_on_ack, rewind}

-- The bytes of a reply: those that a packet has to be written.
abbrev pub reply : {W : Type 0} → Ctx W → List ℕ
reply s = take s.write_len s.payload

abbrev pub data_message : List ℕ → List ℕ
data_message bs = bytes32 id_data ++ (bytes32 (length bs) ++ bs)

abbrev pub done_message : List ℕ
done_message = bytes32 id_done ++ bytes32 0

-- Replies that carry a content whole, block after block, and then its end.
pub data Sends : List ℕ → List (List ℕ) → Type 0 where
  end : {content r : List ℕ} → content ≡ [] → r ≡ done_message → Sends content (r ∷ [])
  block :
      {content r : List ℕ} {rs : List (List ℕ)} (bs rest : List ℕ)
      → content ≡ bs ++ rest
      → r ≡ data_message bs
      → Sends rest rs
      → Sends content (r ∷ rs)

-- read(2) on a descriptor: it gives some of what is left of the file, no more than it is asked for,
-- and nothing only at the end.
pub record Reader {W : Type 0} (os : Os W) (fd : ℕ) (left : W → List ℕ) : Type 0 where
  pub bytes : ℕ → W → List ℕ
  pub read : (n : ℕ) (w : W) → 0 < n → (os.read fd n w).0 ≡ got (bytes n w)
  pub moves : (n : ℕ) (w : W) → 0 < n → left w ≡ bytes n w ++ left (os.read fd n w).1
  pub fits : (n : ℕ) (w : W) → 0 < n → length (bytes n w) ≤ n
  pub ends : (n : ℕ) (w : W) → 0 < n → bytes n w ≡ [] → left w ≡ []

module _ {W : Type 0} (c : Config) (os : Os W) where
  -- What the peer receives for its acknowledgements, until the service waits for a command. Each
  -- acknowledgement comes in a packet like `p`.
  abbrev pub more_replies : State → List (List ℕ) → List (List ℕ)
  more_replies wait_cmd rs = []
  more_replies st rs = rs

  unfoldable pub replies : ℕ → Packet → Ctx W → List (List ℕ)
  replies zero p s = []
  replies (suc n) p s =
      let s' = (file_sync_on_ack c os (record s { pkt = p })).1 in
      reply s' ∷ more_replies s'.state (replies n p s')

  pub reply-append :
      (bs : List ℕ) (s : Ctx W)
      → s.write_len ≡ 0
      → length bs < 2 ^ 32
      → reply (append_reply bs s) ≡ bs
  unfolding append_reply
  reply-append bs s z h =
      let k : (0 + length bs) % 2 ^ 32 ≡ length bs = omega arith in
      ap (λ w. take ((w + length bs) % 2 ^ 32) (write_at w bs s.payload)) z
      ∙ ap (λ w. take w (bs ++ drop (0 + length bs) s.payload)) k
      ∙ take-prefix bs (drop (0 + length bs) s.payload)

  module _ (fd : ℕ) (left : W → List ℕ) (r : Reader os fd left) where
    -- How many bytes are asked for.
    abbrev asked : Ctx W → ℕ
    asked s = sub64 c.payload_size (8 + s.write_len)

    on_ack-recv :
        (s : Ctx W)
        → s.state ≡ process_recv
        → s.recv_fd ≡ some fd
        → 0 < asked s
        → file_sync_on_ack c os s
          ≡ end_ack c os (
              recv_reply c
                (got (r.bytes (asked s) s.world))
                (set_world (os.read fd (asked s) s.world).1 (rewind s)))
    unfolding file_sync_on_ack rewind ack_state state_process_recv read_recv
    on_ack-recv s z y h =
        ap (λ st. end_ack c os (ack_state c os st (rewind s))) z
        ∙ ap
            (λ o.
              let a = read_recv os (asked s) o s.world in
              end_ack c os (recv_reply c a.0 (set_world a.1 (rewind s))))
            y
        ∙ ap
            (λ a.
              end_ack c os (recv_reply c a (set_world (os.read fd (asked s) s.world).1 (rewind s))))
            (r.read (asked s) s.world h)

  acked_done :
      (s : Ctx W)
      → s.write_len ≡ 0
      → let s' = (end_ack c os (recv_reply c (got []) s)).1 in
        (reply s' ≡ done_message) × (s'.state ≡ wait_cmd)
  unfolding end_ack recv_reply state_reset
  acked_done s z = (unfold append_reply in reply-append done_message s z (omega arith), refl)

  acked_more :
      (b : ℕ) (bs : List ℕ) (s : Ctx W)
      → s.write_len ≡ 0
      → length (b ∷ bs) + 8 < 2 ^ 32
      → let s' = (end_ack c os (recv_reply c (got (b ∷ bs)) s)).1 in
        (reply s' ≡ data_message (b ∷ bs))
        × (s'.state ≡ s.state)
        × (s'.recv_fd ≡ s.recv_fd)
        × (s'.world ≡ s.world)
  unfolding end_ack recv_reply
  acked_more b bs s z h = (
    reply-append (data_message (b ∷ bs)) s z (omega (arith, h)),
    unfold append_reply in refl,
    unfold append_reply in refl,
    unfold append_reply in refl,
  )

  module _ (fd : ℕ) (left : W → List ℕ) (r : Reader os fd left) (p : Packet) where
    -- The service reads a file, and the peer has acknowledged.
    after_read :
        (n : ℕ) (bs content : List ℕ) (s : Ctx W)
        → s.write_len ≡ 0
        → s.state ≡ process_recv
        → s.recv_fd ≡ some fd
        → length bs + 8 < 2 ^ 32
        → content ≡ bs ++ left s.world
        → (bs ≡ [] → content ≡ [])
        → length content < suc n
        → ((s' : Ctx W)
            → s'.state ≡ process_recv
            → s'.recv_fd ≡ some fd
            → length (left s'.world) < n
            → Sends (left s'.world) (replies n p s'))
        → let s' = (end_ack c os (recv_reply c (got bs) s)).1 in
          Sends content (reply s' ∷ more_replies s'.state (replies n p s'))
    unfolding end_ack recv_reply state_reset
    after_read n [] content s z y f h m e k g = end (e refl) (acked_done s z).0
    after_read n (b ∷ bs) content s z y f h m e k g =
        let s' = (end_ack c os (recv_reply c (got (b ∷ bs)) s)).1 in
        let (t, st, d, w) = acked_more b bs s z h in
        let m' : content ≡ (b ∷ bs) ++ left s'.world = m ∙ sym (ap (λ v. (b ∷ bs) ++ left v) w) in
        let short : length (left s'.world) < n =
          omega (arith, k, ap length m', length-append (b ∷ bs) (left s'.world)) in
        block (b ∷ bs) (left s'.world) m' t (
          subst (λ st'. Sends (left s'.world) (more_replies st' (replies n p s'))) (sym (st ∙ y))
            (g s' (st ∙ y) (d ∙ f) short))

    -- RECV sends a file whole: where read(2) gives some of what is left of the file and nothing only at
    -- its end, a service that reads the file answers the peer's acknowledgements, each in a packet
    -- with nothing written, by DATA messages whose blocks are together what is left of the file, and
    -- then by DONE. As many acknowledgements as there are bytes left and one more are enough.
    pub recv-Sends :
        (n : ℕ) (s : Ctx W)
        → p.write_len ≡ 0
        → 8 < c.payload_size
        → c.payload_size < 2 ^ 32
        → s.state ≡ process_recv
        → s.recv_fd ≡ some fd
        → length (left s.world) < n
        → Sends (left s.world) (replies n p s)
    unfolding replies set_world rewind
    recv-Sends zero s z l u y f k = absurd (omega arith)
    recv-Sends (suc n) s z l u y f k =
        let t = record s { pkt = p } in
        let m = sub64 c.payload_size (8 + p.write_len) in
        let q : 0 < m = omega (arith, z, l, u) in
        let v : m + 8 < 2 ^ 32 = omega (arith, z, l, u) in
        let bs = r.bytes m s.world in
        let t' = set_world (os.read fd m s.world).1 (rewind t) in
        subst
          (λ (o : Ret × Ctx W).
            Sends (left s.world) (reply o.1 ∷ more_replies o.1.state (replies n p o.1)))
          (sym (on_ack-recv fd left r t y f q))
          (after_read n bs (left s.world) t' z y f (omega (arith, v, r.fits m s.world q))
            (r.moves m s.world q) (r.ends m s.world q) k
            (λ s' y' f' k'. recv-Sends n s' z l u y' f' k'))
