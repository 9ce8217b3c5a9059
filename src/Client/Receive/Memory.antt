-- ===== src/Client/Receive/Memory.antt =====
-- The memory of a packet: its bytes, the words in it, and writes one after another.
use micro_adb.Common.{
  drop-drop, take-prefix, ℕ, zero, suc, ◌+◌, ◌%◌, ◌/◌, ◌≤◌, ◌<◌, ◌≡◌, refl, sym, ap, ◌∙◌, List, [],
  ◌∷◌, ◌++◌, length, write_at, length-append, append_assoc, length-drop, take, drop, arith, bytes32,
  word32,
}
use micro_adb.Packet.{Packet}
use micro_adb.Client.Receive.{encode, decode}

-- Every element is a byte.
abbrev pub Bytes : List ℕ → Type 0
Bytes [] = Unit {0}
Bytes (x ∷ xs) = (x < 256) × Bytes xs

pub Bytes-append : (xs ys : List ℕ) → Bytes xs → Bytes ys → Bytes (xs ++ ys)
Bytes-append [] ys h k = k
Bytes-append (x ∷ xs) ys h k = (h.0, Bytes-append xs ys h.1 k)

pub Bytes-take : (n : ℕ) (xs : List ℕ) → Bytes xs → Bytes (take n xs)
Bytes-take zero xs h = tt
Bytes-take (suc n) [] h = tt
Bytes-take (suc n) (x ∷ xs) h = (h.0, Bytes-take n xs h.1)

pub Bytes-drop : (n : ℕ) (xs : List ℕ) → Bytes xs → Bytes (drop n xs)
Bytes-drop zero xs h = h
Bytes-drop (suc n) [] h = tt
Bytes-drop (suc n) (x ∷ xs) h = Bytes-drop n xs h.1

pub Bytes-write_at : (at : ℕ) (bs buf : List ℕ) → Bytes bs → Bytes buf → Bytes (write_at at bs buf)
Bytes-write_at at bs buf h k =
    Bytes-append (take at buf) _ (Bytes-take at buf k)
      (Bytes-append bs _ h (Bytes-drop (at + length bs) buf k))

pub Bytes-word : (w : ℕ) (r : List ℕ) → Bytes r → Bytes (bytes32 w ++ r)
Bytes-word w r h = (omega arith, (omega arith, (omega arith, (omega arith, h))))

pub Bytes-encode : (p : Packet) → Bytes p.payload → Bytes (encode p)
Bytes-encode p h =
    let m₅ = bytes32 p.magic ++ p.payload in
    let m₄ = bytes32 p.data_check ++ m₅ in
    let m₃ = bytes32 p.data_length ++ m₄ in
    let m₂ = bytes32 p.arg1 ++ m₃ in
    let m₁ = bytes32 p.arg0 ++ m₂ in
    Bytes-word p.command m₁ (
      Bytes-word p.arg0 m₂ (
        Bytes-word p.arg1 m₃ (
          Bytes-word p.data_length m₄
            (Bytes-word p.data_check m₅ (Bytes-word p.magic p.payload h)))))

-- The word at the head of some bytes, written back in front of the rest.
pub head_word : (m : List ℕ) → Bytes m → 4 ≤ length m → bytes32 (word32 m) ++ drop 4 m ≡ m
head_word [] h k = absurd (omega arith)
head_word (a ∷ []) h k = absurd (omega arith)
head_word (a ∷ b ∷ []) h k = absurd (omega arith)
head_word (a ∷ b ∷ c ∷ []) h k = absurd (omega arith)
head_word (a ∷ b ∷ c ∷ d ∷ r) (ha, (hb, (hc, (hd, hr)))) k =
    let w = word32 (a ∷ b ∷ c ∷ d ∷ r) in
    let ea : w % 256 ≡ a = omega arith in
    let eb : (w / 256) % 256 ≡ b = omega arith in
    let ec : (w / 65536) % 256 ≡ c = omega arith in
    let ed : (w / 16777216) % 256 ≡ d = omega arith in cc

pub word_at :
    (n : ℕ) (m : List ℕ)
    → Bytes m
    → n + 4 ≤ length m
    → bytes32 (word32 (drop n m)) ++ drop (n + 4) m ≡ drop n m
word_at n m h k =
    ap (λ t. bytes32 (word32 (drop n m)) ++ t) (sym (drop-drop 4 n m))
    ∙ head_word (drop n m) (Bytes-drop n m h) (omega (arith, length-drop n m))

-- Memory of at least a message is what a packet keeps of it.
pub encode-decode : (n : ℕ) (m : List ℕ) → Bytes m → 24 ≤ length m → encode (decode n m) ≡ m
encode-decode n m h k =
    let b₅ = word_at 20 m h (omega (arith, k)) in
    let b₄ = ap (λ t. bytes32 (word32 (drop 16 m)) ++ t) b₅ ∙ word_at 16 m h (omega (arith, k)) in
    let b₃ = ap (λ t. bytes32 (word32 (drop 12 m)) ++ t) b₄ ∙ word_at 12 m h (omega (arith, k)) in
    let b₂ = ap (λ t. bytes32 (word32 (drop 8 m)) ++ t) b₃ ∙ word_at 8 m h (omega (arith, k)) in
    let b₁ = ap (λ t. bytes32 (word32 (drop 4 m)) ++ t) b₂ ∙ word_at 4 m h (omega (arith, k)) in
    ap (λ t. bytes32 (word32 m) ++ t) b₁ ∙ head_word m h (omega (arith, k))

pub drop-prefix : (xs r : List ℕ) (n : ℕ) → drop (length xs + n) (xs ++ r) ≡ drop n r
drop-prefix [] r n = let z : 0 + n ≡ n = omega arith in rw z refl
drop-prefix (x ∷ xs) r n =
    let z : suc (length xs) + n ≡ suc (length xs + n) = omega arith in rw z (drop-prefix xs r n)

-- Two writes, one where the other ends, are one.
pub write_at-write_at :
    (at : ℕ) (xs ys buf : List ℕ)
    → at ≤ length buf
    → write_at (at + length xs) ys (write_at at xs buf) ≡ write_at at (xs ++ ys) buf
write_at-write_at zero xs ys buf h =
    let z : 0 + length xs ≡ length xs = omega arith in
    let y : 0 + length (xs ++ ys) ≡ length xs + length ys = omega (arith, length-append xs ys) in
    let r = drop (length xs) buf in
    rw z (
      rw y (
        ap (λ t. t ++ (ys ++ drop (length xs + length ys) (xs ++ r))) (take-prefix xs r)
        ∙ ap (λ t. xs ++ (ys ++ t))
            (drop-prefix xs r (length ys) ∙ drop-drop (length ys) (length xs) buf)
        ∙ sym (append_assoc xs ys (drop (length xs + length ys) buf))))
write_at-write_at (suc at) xs ys [] h = absurd (omega (arith, h))
write_at-write_at (suc at) xs ys (b ∷ buf) h =
    let z : suc at + length xs ≡ suc (at + length xs) = omega arith in
    let y : suc at + length (xs ++ ys) ≡ suc (at + length (xs ++ ys)) = omega arith in
    let x : suc (at + length xs) + length ys ≡ suc (at + length xs + length ys) = omega arith in
    rw z (rw y (rw x (ap (λ t. b ∷ t) (write_at-write_at at xs ys buf (omega (arith, h))))))
