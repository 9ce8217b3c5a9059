-- ===== src/Common/Bytes.antt =====
-- Memory as a list of bytes, C strings in it, and 32-bit words in it (little-endian).
use Prim.Native.Nat.{ℕ, zero, suc, ◌+◌, ◌-◌, ◌*◌, ◌/◌, ◌%◌, ◌^◌, ◌≤◌, ◌<◌, min, max}
use Prim.Native.Char.{code}
use Prim.Native.String.{String}
use mathlib.Core.Path.{◌≡◌, refl, sym, ap, ◌∙◌}
use mathlib.Core.List.{List, [], ◌∷◌, ◌++◌}
use native.Mathlib.Omega.{arith}
use micro_adb.Common.Tests.{◌==◌, if◌then◌else◌}

module _ {ℓ} {A : Type ℓ} where
  abbrev pub length : List A → ℕ
  length [] = 0
  length (x ∷ xs) = suc (length xs)

  abbrev pub take : ℕ → List A → List A
  take zero xs = []
  take (suc n) [] = []
  take (suc n) (x ∷ xs) = x ∷ take n xs

  abbrev pub drop : ℕ → List A → List A
  drop zero xs = xs
  drop (suc n) [] = []
  drop (suc n) (x ∷ xs) = drop n xs

  abbrev pub replicate : ℕ → A → List A
  replicate zero a = []
  replicate (suc n) a = a ∷ replicate n a

  -- memcpy of `bs` to the offset `at` of a buffer. A write past the end makes the list longer than
  -- the buffer is.
  abbrev pub write_at : ℕ → List A → List A → List A
  write_at at bs buf = take at buf ++ (bs ++ drop (at + length bs) buf)

  pub length-append : (xs ys : List A) → length (xs ++ ys) ≡ length xs + length ys
  length-append [] ys = omega arith
  length-append (x ∷ xs) ys = omega (arith, length-append xs ys)

  pub length-take : (n : ℕ) (xs : List A) → length (take n xs) ≡ min n (length xs)
  length-take zero xs = omega arith
  length-take (suc n) [] = omega arith
  length-take (suc n) (x ∷ xs) = omega (arith, length-take n xs)

  pub length-drop : (n : ℕ) (xs : List A) → length (drop n xs) ≡ length xs - n
  length-drop zero xs = omega arith
  length-drop (suc n) [] = omega arith
  length-drop (suc n) (x ∷ xs) = omega (arith, length-drop n xs)

  pub length-replicate : (n : ℕ) (a : A) → length (replicate n a) ≡ n
  length-replicate zero a = refl
  length-replicate (suc n) a = ap suc (length-replicate n a)

  -- A copy that ends inside the buffer keeps its length.
  pub length-write_at :
      (at : ℕ) (bs buf : List A)
      → at + length bs ≤ length buf
      → length (write_at at bs buf) ≡ length buf
  length-write_at at bs buf h = omega (
    arith,
    length-append (take at buf) (bs ++ drop (at + length bs) buf),
    length-append bs (drop (at + length bs) buf),
    length-take at buf,
    length-drop (at + length bs) buf,
  )

  -- A copy that starts inside the buffer ends where it ends, if that is past the buffer's end.
  pub length-write_at_exact :
      (at : ℕ) (bs buf : List A)
      → at ≤ length buf
      → length (write_at at bs buf) ≡ max (length buf) (at + length bs)
  length-write_at_exact at bs buf h = omega (
    arith,
    length-append (take at buf) (bs ++ drop (at + length bs) buf),
    length-append bs (drop (at + length bs) buf),
    length-take at buf,
    length-drop (at + length bs) buf,
  )

  -- A copy never makes it shorter.
  pub length-write_at_max : (at : ℕ) (bs buf : List A) → length buf ≤ length (write_at at bs buf)
  length-write_at_max at bs buf = omega (
    arith,
    length-append (take at buf) (bs ++ drop (at + length bs) buf),
    length-append bs (drop (at + length bs) buf),
    length-take at buf,
    length-drop (at + length bs) buf,
  )

  pub append-nil : (xs : List A) → xs ++ [] ≡ xs
  append-nil [] = refl
  append-nil (x ∷ xs) = ap (λ ys. x ∷ ys) (append-nil xs)

  pub append_assoc : (xs ys zs : List A) → (xs ++ ys) ++ zs ≡ xs ++ (ys ++ zs)
  append_assoc [] ys zs = refl
  append_assoc (x ∷ xs) ys zs = ap (λ t. x ∷ t) (append_assoc xs ys zs)

pub drop-drop : (a b : ℕ) (xs : List ℕ) → drop a (drop b xs) ≡ drop (b + a) xs
drop-drop a zero xs = let z : 0 + a ≡ a = omega arith in rw z refl
drop-drop zero (suc b) [] = let z : suc b + 0 ≡ suc b = omega arith in rw z refl
drop-drop (suc a) (suc b) [] = let z : suc b + suc a ≡ suc (b + suc a) = omega arith in rw z refl
drop-drop a (suc b) (x ∷ xs) =
    let z : suc b + a ≡ suc (b + a) = omega arith in rw z (drop-drop a b xs)

pub take-prefix : (xs r : List ℕ) → take (length xs) (xs ++ r) ≡ xs
take-prefix [] r = refl
take-prefix (x ∷ xs) r = ap (λ t. x ∷ t) (take-prefix xs r)

pub take-drop : (n : ℕ) (xs : List ℕ) → take n xs ++ drop n xs ≡ xs
take-drop zero xs = refl
take-drop (suc n) [] = refl
take-drop (suc n) (x ∷ xs) = ap (λ t. x ∷ t) (take-drop n xs)

pub take-take-drop :
    (n m : ℕ) (xs : List ℕ) → n ≤ length xs → take n xs ++ take m (drop n xs) ≡ take (n + m) xs
take-take-drop zero m xs h = let z : 0 + m ≡ m = omega arith in rw z refl
take-take-drop (suc n) m [] h = absurd (omega arith)
take-take-drop (suc n) m (x ∷ xs) h =
    let z : suc n + m ≡ suc (n + m) = omega arith in
    rw z (ap (λ t. x ∷ t) (take-take-drop n m xs (omega arith)))

-- What a copy that starts inside a buffer makes of it up to the copy's end.
pub take-write_at :
    (at : ℕ) (bs buf : List ℕ)
    → at ≤ length buf
    → take (at + length bs) (write_at at bs buf) ≡ take at buf ++ bs
take-write_at at bs buf h =
    let n : length (take at buf ++ bs) ≡ at + length bs =
      omega (arith, length-append (take at buf) bs, length-take at buf) in
    let r = drop (at + length bs) buf in
    ap (λ xs. take (at + length bs) xs) (sym (append_assoc (take at buf) bs r))
    ∙ ap (λ m. take m ((take at buf ++ bs) ++ r)) (sym n)
    ∙ take-prefix (take at buf ++ bs) r

abbrev pub codes : String → List ℕ
codes String.[] = []
codes (String.◌∷◌ c s) = code c ∷ codes s

-- The text that a buffer holds as a C string: its bytes before the first zero.
unfoldable pub c_string : List ℕ → List ℕ
c_string [] = []
c_string (b ∷ bs) = if b == 0 then [] else b ∷ c_string bs

-- The bytes of a 32-bit word, and the word at the head of some memory.
abbrev pub bytes32 : ℕ → List ℕ
bytes32 w = w % 256 ∷ (w / 256) % 256 ∷ (w / 65536) % 256 ∷ (w / 16777216) % 256 ∷ []

abbrev pub word32 : List ℕ → ℕ
word32 (a ∷ b ∷ c ∷ d ∷ r) = a + 256 * b + 65536 * c + 16777216 * d
word32 other = 0

pub word32-bytes32 : (w : ℕ) (r : List ℕ) → w < 2 ^ 32 → word32 (bytes32 w ++ r) ≡ w
word32-bytes32 w r h = omega arith

-- size_t a - b, which wraps.
abbrev pub sub64 : ℕ → ℕ → ℕ
sub64 a b = (a + 2 ^ 64 - b) % 2 ^ 64
