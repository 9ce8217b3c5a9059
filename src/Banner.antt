-- ===== src/Banner.antt =====
-- adb_banner.c: adb_fill_connect_data, the text that answers a connection.
pub mod Laws
use micro_adb.Common.{
  ℕ, zero, suc, ◌+◌, ◌-◌, List, [], ◌∷◌, ◌++◌, Option, none, some, Bool, true, false, length, take,
  write_at, leb, if◌then◌else◌, codes, map,
}

-- The strings of the configuration; the product's are compiled in where they are defined.
pub record Product : Type 0 where
  pub device_id : List ℕ
  pub name : Option (List ℕ)
  pub model : Option (List ℕ)
  pub device : Option (List ℕ)
  pub features : List ℕ
  -- The C library's: what snprintf makes of a format without arguments. The source gives it the
  -- configured strings as parts of the format.
  pub format : List ℕ → List ℕ

-- What snprintf(buf, remaining, format) stores from the offset `pos` on, for the text that it makes of
-- the format: the text, cut to remaining - 1 bytes, and a zero; nothing if remaining is 0.
unfoldable pub put_text : ℕ → ℕ → List ℕ → List ℕ → List ℕ
put_text pos zero text buf = buf
put_text pos (suc n) text buf = write_at pos (take n text ++ 0 ∷ []) buf

abbrev pub entry : List ℕ → Option (List ℕ) → List (List ℕ) → List (List ℕ)
entry key none rest = rest
entry key (some value) rest = (key ++ value ++ codes ";") ∷ rest

-- The format of the first call.
abbrev pub first_text : Product → List ℕ
first_text b = codes "device:" ++ b.device_id ++ codes ":"

-- The formats of the later calls of snprintf, in order.
abbrev pub later_texts : Product → List (List ℕ)
later_texts b = entry (codes "ro.product.name=") b.name (
    entry (codes "ro.product.model=") b.model
      (entry (codes "ro.product.device=") b.device ((codes "features=" ++ b.features) ∷ [])))

-- The later calls, of which `texts` are made, each at the offset that the earlier ones have reached: the buffer, and the value
-- returned. A text that does not fit ends the function with the buffer's size.
unfoldable pub fill_later : ℕ → ℕ → List (List ℕ) → List ℕ → List ℕ × ℕ
fill_later bufsize pos [] buf = (buf, pos)
fill_later bufsize pos (text ∷ texts) buf =
    let remaining = bufsize - pos in
    let buf' = put_text pos remaining text buf in
    let rest = fill_later bufsize (pos + length text) texts buf' in
    if leb remaining (length text) then (buf', bufsize) else rest

-- The -1 of a first text that does not fit, as the unsigned that the caller stores it in.
abbrev pub minus_one : ℕ
minus_one = 0xffffffff

unfoldable pub fill_connect_data : Product → ℕ → List ℕ → List ℕ × ℕ
fill_connect_data b bufsize buf =
    let text = b.format (first_text b) in
    let buf' = put_text 0 bufsize text buf in
    if leb bufsize (length text)
    then (buf', minus_one)
    else fill_later bufsize (length text) (map b.format (later_texts b)) buf'
