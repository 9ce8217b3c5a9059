-- ===== src/Sync/Push.antt =====
-- The messages of a SEND as a machine that reads them byte by byte: the description that the rounds
-- of file_sync_service.c are compared with.
pub mod Rounds
pub mod Block
pub mod Header
pub mod Service
pub mod Blocks
pub mod File
use micro_adb.Common.{
  ℕ, zero, suc, ◌+◌, ◌-◌, ◌≤◌, ◌<◌, ◌≡◌, ◌≢◌, refl, sym, ap, ◌∙◌, List, [], ◌∷◌, ◌++◌, true, false,
  ◌==◌, if◌then◌else◌, append_assoc, arith, length, length-append, drop, word32,
}
use micro_adb.Sync.{id_data}

-- Between two bytes: what has come of a header of eight bytes, in a block of which one byte more
-- than a number is missing, or past a header that is not that of a block.
pub data Push : Type 0 where
  header : List ℕ → Push
  body : ℕ → Push
  over : Push

-- A block of which so many bytes are missing.
unfoldable pub left : ℕ → Push
left zero = header []
left (suc n) = body n

unfoldable pub opened : List ℕ → Push
opened h = if word32 h == id_data then left (word32 (drop 4 h)) else over

unfoldable pub head_byte : List ℕ → Push
head_byte h = if length h == 8 then opened h else header h

unfoldable pub next : Push → ℕ → Push
next (header h) b = head_byte (h ++ b ∷ [])
next (body n) b = left n
next over b = over

-- What of a byte belongs to the file.
unfoldable pub kept : Push → ℕ → List ℕ
kept (header h) b = []
kept (body n) b = b ∷ []
kept over b = []

unfoldable pub after : Push → List ℕ → Push
after p [] = p
after p (b ∷ bs) = after (next p b) bs

-- The bytes of the file in what is read.
unfoldable pub content : Push → List ℕ → List ℕ
content p [] = []
content p (b ∷ bs) = kept p b ++ content (next p b) bs

pub after-append : (p : Push) (xs ys : List ℕ) → after p (xs ++ ys) ≡ after (after p xs) ys
unfolding after
after-append p [] ys = refl
after-append p (x ∷ xs) ys = after-append (next p x) xs ys

pub content-append :
    (p : Push) (xs ys : List ℕ) → content p (xs ++ ys) ≡ content p xs ++ content (after p xs) ys
unfolding after content
content-append p [] ys = refl
content-append p (x ∷ xs) ys =
    ap (λ t. kept p x ++ t) (content-append (next p x) xs ys)
    ∙ sym (append_assoc (kept p x) (content (next p x) xs) _)

pub after-over : (xs : List ℕ) → after over xs ≡ over
unfolding after next
after-over [] = refl
after-over (x ∷ xs) = after-over xs

-- Bytes of a block, all of which belong to the file.
pub after-left : (n : ℕ) (xs : List ℕ) → length xs ≤ n → after (left n) xs ≡ left (n - length xs)
unfolding after left next
after-left zero [] h = refl
after-left (suc n) [] h = let z : suc n - 0 ≡ suc n = omega arith in rw z refl
after-left zero (x ∷ xs) h = absurd (omega arith)
after-left (suc n) (x ∷ xs) h =
    let z : suc n - suc (length xs) ≡ n - length xs = omega arith in
    rw z (after-left n xs (omega arith))

pub content-left : (n : ℕ) (xs : List ℕ) → length xs ≤ n → content (left n) xs ≡ xs
unfolding content left next kept
content-left zero [] h = refl
content-left (suc n) [] h = refl
content-left zero (x ∷ xs) h = absurd (omega arith)
content-left (suc n) (x ∷ xs) h = ap (λ t. x ∷ t) (content-left n xs (omega arith))

-- Bytes of a header, none of which does.
pub head_byte-short : (h : List ℕ) → length h < 8 → head_byte h ≡ header h
unfolding head_byte
head_byte-short h k = let z : (length h == 8) ≡ false = ground arith in rw z refl

pub after-header :
    (h : List ℕ) (b : ℕ) (bs : List ℕ)
    → length h + suc (length bs) ≤ 8
    → (after (header h) (b ∷ bs) ≡ head_byte (h ++ b ∷ bs)) × (content (header h) (b ∷ bs) ≡ [])
unfolding after content next kept
after-header h b [] k = (refl, refl)
after-header h b (b' ∷ bs) k =
    let l = length-append h (b ∷ []) in
    let z = head_byte-short (h ++ b ∷ []) (omega (arith, l, k)) in
    let r = after-header (h ++ b ∷ []) b' bs (omega (arith, l, k)) in
    (
      ap (λ p. after p (b' ∷ bs)) z ∙ r.0 ∙ ap head_byte (append_assoc h (b ∷ []) (b' ∷ bs)),
      ap (λ p. content p (b' ∷ bs)) z ∙ r.1,
    )

-- A whole header.
pub head_byte-block :
    (h : List ℕ)
    → length h ≡ 8
    → (word32 h == id_data) ≡ true
    → head_byte h ≡ left (word32 (drop 4 h))
unfolding head_byte opened
head_byte-block h l q = let z : (length h == 8) ≡ true = ground arith in rw z (rw q refl)

pub head_byte-over :
    (h : List ℕ) → length h ≡ 8 → (word32 h == id_data) ≡ false → head_byte h ≡ over
unfolding head_byte opened
head_byte-over h l q = let z : (length h == 8) ≡ true = ground arith in rw z (rw q refl)
