-- ===== src/Print/Utf8.antt =====
-- `putwchar` and the UTF-8 form of code points.
use rpi0_naivegfs.Base.{
  ℕ, ◌+◌, ◌-◌, ◌*◌, ◌≡◌, Bool, ◌&&◌, if◌then◌else◌, leb, Option, none, some, List, [], ◌∷◌, arith,
}
use mathlib.Core.Option
use rpi0_naivegfs.Print.{putwchar}

-- The bytes that carry six bits each.
abbrev is_continuation : ℕ → Bool
is_continuation b = leb 0x80 b && leb b 0xBF

abbrev pub is_surrogate : ℕ → Bool
is_surrogate c = leb 0xD800 c && leb c 0xDFFF

-- A code point, if it is one that a form may stand for.
abbrev checked : Bool → ℕ → List ℕ → Option (ℕ × List ℕ)
checked valid c rest = if valid then some (c, rest) else none

-- The code point that starts a text in UTF-8, with the bytes behind it. A form that is longer than the
-- code point needs, one of a surrogate, and one above 0x10ffff are refused, and so is a byte that does
-- not start a form, or does not continue one.
two_bytes : ℕ → ℕ → List ℕ → Option (ℕ × List ℕ)
two_bytes a b rest =
    checked (leb 0xC2 a && leb a 0xDF && is_continuation b) ((a - 0xC0) * 64 + (b - 0x80)) rest

three_bytes : ℕ → ℕ → ℕ → List ℕ → Option (ℕ × List ℕ)
three_bytes a b c rest =
    let v = (a - 0xE0) * 4096 + (b - 0x80) * 64 + (c - 0x80) in
    if leb 0xE0 a && leb a 0xEF && is_continuation b && is_continuation c
    then (if is_surrogate v then none else checked (leb 0x800 v) v rest)
    else none

four_bytes : ℕ → ℕ → ℕ → ℕ → List ℕ → Option (ℕ × List ℕ)
four_bytes a b c d rest =
    let v = (a - 0xF0) * 262144 + (b - 0x80) * 4096 + (c - 0x80) * 64 + (d - 0x80) in
    if leb 0xF0 a && leb a 0xF4 && is_continuation b && (is_continuation c && is_continuation d)
    then checked (leb 0x10000 v && leb v 0x10ffff) v rest
    else none

unfoldable pub utf8_head : List ℕ → Option (ℕ × List ℕ)
unfolding two_bytes three_bytes four_bytes
utf8_head [] = none
utf8_head (a ∷ []) = checked (leb a 0x7F) a []
utf8_head (a ∷ b ∷ []) = if leb a 0x7F then some (a, b ∷ []) else two_bytes a b []
utf8_head (a ∷ b ∷ c ∷ []) =
    if leb a 0x7F
    then some (a, b ∷ c ∷ [])
    else if leb a 0xDF
    then two_bytes a b (c ∷ [])
    else three_bytes a b c []
utf8_head (a ∷ b ∷ c ∷ d ∷ r) =
    if leb a 0x7F
    then some (a, b ∷ c ∷ d ∷ r)
    else if leb a 0xDF
    then two_bytes a b (c ∷ d ∷ r)
    else if leb a 0xEF
    then three_bytes a b c (d ∷ r)
    else four_bytes a b c d r

-- For a number up to 0x10ffff `putwchar` prints bytes: those of a code point are its form in UTF-8,
-- the shortest one, with none left over, and those of a surrogate, 0xd800 to 0xdfff, are no UTF-8.
-- Above 0x10ffff it prints nothing and returns -1.
pub utf8_head-putwchar :
    (c : ℕ)
    → Option.map utf8_head (putwchar c)
      ≡ (if leb c 0x10ffff then some (if is_surrogate c then none else some (c, [])) else none)
unfolding putwchar utf8_head
utf8_head-putwchar c = ground arith
