-- ===== src/Sync/Push/Blocks.antt =====
-- The DATA messages of a file, read by the machine of Sync/Push.
use micro_adb.Common.{
  ℕ, ◌-◌, ◌^◌, ◌<◌, ◌≡◌, refl, ap, ◌∙◌, List, [], ◌∷◌, ◌++◌, arith, length, bytes32, word32-bytes32,
}
use micro_adb.Sync.{id_data}
use micro_adb.Sync.Recv.{data_message}
use micro_adb.Sync.Push.{
  header, left, after, content, after-append, content-append, after-left, content-left,
  after-header, head_byte-block,
}

-- The DATA messages of a file's blocks, and the file.
abbrev pub blocks : List (List ℕ) → List ℕ
blocks [] = []
blocks (b ∷ bs) = data_message b ++ blocks bs

abbrev pub join : List (List ℕ) → List ℕ
join [] = []
join (b ∷ bs) = b ++ join bs

abbrev pub AllShort : List (List ℕ) → Type 0
AllShort [] = Unit {0}
AllShort (b ∷ bs) = (length b < 2 ^ 32) × AllShort bs

-- One DATA message is read as its block.
message-read :
    (b : List ℕ)
    → length b < 2 ^ 32
    → (after (header []) (data_message b) ≡ header []) × (content (header []) (data_message b) ≡ b)
unfolding left
message-read b h =
    let n = length b in
    let r = after-header [] b'D' (b'A' ∷ b'T' ∷ b'A' ∷ bytes32 n) (omega arith) in
    let z : after (header []) (bytes32 id_data ++ bytes32 n) ≡ left n =
      r.0
      ∙ head_byte-block (bytes32 id_data ++ bytes32 n) refl refl
      ∙ ap left (word32-bytes32 n [] h) in
    let k : n - n ≡ 0 = omega arith in
    (
      after-append (header []) (bytes32 id_data ++ bytes32 n) b
          ∙ ap (λ p. after p b) z
          ∙ after-left n b (omega arith)
          ∙ ap left k,
      content-append (header []) (bytes32 id_data ++ bytes32 n) b
          ∙ ap (λ x. x ++ content (after (header []) (bytes32 id_data ++ bytes32 n)) b) r.1
          ∙ ap (λ p. content p b) z
          ∙ content-left n b (omega arith),
    )

pub blocks-read :
    (bs : List (List ℕ))
    → AllShort bs
    → (after (header []) (blocks bs) ≡ header []) × (content (header []) (blocks bs) ≡ join bs)
unfolding after content
blocks-read [] h = (refl, refl)
blocks-read (b ∷ bs) (l, h) =
    let (a, k) = message-read b l in
    let (r, s) = blocks-read bs h in
    (
      after-append (header []) (data_message b) (blocks bs) ∙ ap (λ p. after p (blocks bs)) a ∙ r,
      content-append (header []) (data_message b) (blocks bs)
          ∙ ap (λ p. content (header []) (data_message b) ++ content p (blocks bs)) a
          ∙ ap (λ x. x ++ content (header []) (blocks bs)) k
          ∙ ap (λ x. b ++ x) s,
    )
