-- ===== src/Banner/Laws.antt =====
-- What adb_fill_connect_data stores and returns.
use mathlib.Core.List.{append_assoc, append-nil}
use native.Mathlib.Nat.{add-zero, add_assoc}
use micro_adb.Common.{
  Bool, true, not, ◌&&◌, ◌==◌, map, ℕ, zero, suc, ◌+◌, ◌-◌, ◌≤◌, ◌<◌, ◌≡◌, refl, ap, ◌∙◌, List, [],
  ◌∷◌, ◌++◌, false, length, take, drop, write_at, leb, if◌then◌else◌, arith, length-append,
  length-take, length-write_at,
}
use micro_adb.Banner.{
  Product, put_text, first_text, later_texts, fill_later, minus_one, fill_connect_data,
}

-- The whole banner.
abbrev pub flatten : List (List ℕ) → List ℕ
flatten [] = []
flatten (t ∷ ts) = t ++ flatten ts

abbrev pub banner : Product → List ℕ
banner b = first_text b ++ flatten (later_texts b)

take_prefix : (n : ℕ) (xs ys : List ℕ) → length xs ≡ n → take n (xs ++ ys) ≡ xs
take_prefix zero [] ys h = refl
take_prefix zero (x ∷ xs) ys h = absurd (omega arith)
take_prefix (suc n) [] ys h = absurd (omega arith)
take_prefix (suc n) (x ∷ xs) ys h = ap (◌∷◌ x) (take_prefix n xs ys (omega arith))

take_all : (n : ℕ) (xs : List ℕ) → length xs ≤ n → take n xs ≡ xs
take_all zero [] h = refl
take_all zero (x ∷ xs) h = absurd (omega arith)
take_all (suc n) [] h = refl
take_all (suc n) (x ∷ xs) h = ap (◌∷◌ x) (take_all n xs (omega arith))

-- A text that is written over a buffer's part stands there, and what is before it stays.
take-write_at_more :
    (at : ℕ) (bs tail buf : List ℕ)
    → at ≤ length buf
    → take (at + length bs) (write_at at (bs ++ tail) buf) ≡ take at buf ++ bs
take-write_at_more at bs tail buf h =
    let rest = drop (at + length (bs ++ tail)) buf in
    let parts : take at buf ++ ((bs ++ tail) ++ rest) ≡ (take at buf ++ bs) ++ (tail ++ rest) =
      simp append_assoc in
    rw parts (
      take_prefix (at + length bs) (take at buf ++ bs) (tail ++ rest)
        (omega (arith, length-append (take at buf) bs, length-take at buf)))

put_text-fits :
    (pos room : ℕ) (text buf : List ℕ)
    → length text < room
    → put_text pos room text buf ≡ write_at pos (text ++ 0 ∷ []) buf
unfolding put_text
put_text-fits pos zero text buf h = absurd (omega arith)
put_text-fits pos (suc n) text buf h = rw (take_all n text (omega arith))

fill_later_fits :
    (size pos : ℕ) (texts : List (List ℕ)) (buf : List ℕ)
    → size ≤ length buf
    → pos + length (flatten texts) < size
    → ((fill_later size pos texts buf).1 ≡ pos + length (flatten texts))
      × (take (pos + length (flatten texts)) (fill_later size pos texts buf).0
          ≡ take pos buf ++ flatten texts)
      × (length (fill_later size pos texts buf).0 ≡ length buf)
unfolding fill_later
fill_later_fits size pos [] buf h k = (omega arith, rw (add-zero, append-nil), refl)
fill_later_fits size pos (t ∷ ts) buf h k =
    let total = length-append t (flatten ts) in
    let buf' = write_at pos (t ++ 0 ∷ []) buf in
    let same : length buf' ≡ length buf =
      length-write_at pos (t ++ 0 ∷ []) buf (omega (arith, length-append t (0 ∷ []))) in
    let ih = fill_later_fits size (pos + length t) ts buf' (omega arith) (omega arith) in
    let room : leb (size - pos) (length t) ≡ false = ground arith in
    let stored = take-write_at_more pos t (0 ∷ []) buf (omega arith) in
    rw (room, put_text-fits pos (size - pos) t buf (omega arith), total, ← add_assoc)
      (ih.0, ih.1 ∙ (rw (stored, append_assoc)), ih.2 ∙ same)

first_fits :
    (t : List ℕ) (ts : List (List ℕ)) (size : ℕ) (buf : List ℕ)
    → size ≤ length buf
    → length (t ++ flatten ts) < size
    → let r =
        (if leb size (length t)
          then (put_text 0 size t buf, minus_one)
          else fill_later size (length t) ts (put_text 0 size t buf)) in
      (r.1 ≡ length (t ++ flatten ts))
      × (take (length (t ++ flatten ts)) r.0 ≡ t ++ flatten ts)
      × (length r.0 ≡ length buf)
first_fits t ts size buf h k =
    let total = length-append t (flatten ts) in
    let buf' = write_at 0 (t ++ 0 ∷ []) buf in
    let same : length buf' ≡ length buf =
      length-write_at 0 (t ++ 0 ∷ []) buf (omega (arith, length-append t (0 ∷ []))) in
    let r = fill_later_fits size (length t) ts buf' (omega arith) (omega arith) in
    let room : leb size (length t) ≡ false = ground arith in
    let stored : take (length t) buf' ≡ t = rw append_assoc (take_prefix (length t) t _ refl) in
    rw (room, put_text-fits 0 size t buf (omega arith), total)
      (r.0, r.1 ∙ ap (λ x. x ++ flatten ts) stored, r.2 ∙ same)

-- No byte is a percent sign.
abbrev pub no_percent : List ℕ → Bool
no_percent [] = true
no_percent (x ∷ xs) = not (x == b'%') && no_percent xs

no_percent-append :
    (xs ys : List ℕ)
    → no_percent (xs ++ ys) ≡ true
    → (no_percent xs ≡ true) × (no_percent ys ≡ true)
no_percent-append [] ys h = (refl, h)
no_percent-append (x ∷ xs) ys h = ground (arith, no_percent-append xs ys, h)

-- Formats without a percent sign are printed as they are.
abbrev pub Literal : (List ℕ → List ℕ) → Type 0
Literal f = (t : List ℕ) → no_percent t ≡ true → f t ≡ t

map-format :
    (f : List ℕ → List ℕ) (ts : List (List ℕ))
    → Literal f
    → no_percent (flatten ts) ≡ true
    → map f ts ≡ ts
map-format f [] l h = refl
map-format f (t ∷ ts) l h =
    let (k, r) = no_percent-append t (flatten ts) h in
    ap (λ x. x ∷ map f ts) (l t k) ∙ ap (λ x. t ∷ x) (map-format f ts l r)

-- Where snprintf prints a format without a percent sign as it is, and the configured strings have
-- none, and the banner and its zero fit in the size given, and the size in the buffer, the function
-- returns the banner's length, the buffer begins with the banner, and nothing is written past its
-- end.
pub fill_connect_data_fits :
    (b : Product) (size : ℕ) (buf : List ℕ)
    → Literal b.format
    → no_percent (banner b) ≡ true
    → size ≤ length buf
    → length (banner b) < size
    → ((fill_connect_data b size buf).1 ≡ length (banner b))
      × (take (length (banner b)) (fill_connect_data b size buf).0 ≡ banner b)
      × (length (fill_connect_data b size buf).0 ≡ length buf)
unfolding fill_connect_data
fill_connect_data_fits b size buf l n h k =
    let (p, r) = no_percent-append (first_text b) (flatten (later_texts b)) n in
    let x = l (first_text b) p in
    let y = map-format b.format (later_texts b) l r in
    rw (x, y) (first_fits (first_text b) (later_texts b) size buf h k)
