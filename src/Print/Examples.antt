-- ===== src/Print/Examples.antt =====
-- The theorems on printing at small values.
use rpi0_naivegfs.Base.{
  ℕ, ◌+◌, ◌≡◌, ◌≤◌, inr, minus_one, refl, none, some, List, [], ◌∷◌, length, arith,
}
use mathlib.Core.Option
use rpi0_naivegfs.Print.{
  Arg, emit_long, long_directive, digit, emit_val, fill_num, directive, emit_int, vprintk,
  vsnprintk, putwchar, store,
}
use rpi0_naivegfs.Print.Digits.{emit_val-value}
use rpi0_naivegfs.Print.Numerals.{digit_value, IsNumeral}
use rpi0_naivegfs.Print.Utf8.{utf8_head, utf8_head-putwchar}
use rpi0_naivegfs.Print.Buffer.{vsnprintk-room}
use rpi0_naivegfs.Print.Pieces.{
  Piece, literal, signed, hex, text, AllFit, format, arguments, Spells, vprintk-Spells,
}

emit_val-value_example :
    (out : List ℕ) × (emit_val 16 0x2af ≡ some out) × IsNumeral 16 0x2af out × (length out ≤ 32)
emit_val-value_example = emit_val-value 16 0x2af (inr (inr refl)) (omega arith)

utf8_head-putwchar_example : Option.map utf8_head (putwchar 0x20ac) ≡ some (some (0x20ac, []))
utf8_head-putwchar_example = utf8_head-putwchar 0x20ac

abbrev a_format : List ℕ
a_format = b'n' ∷ b'=' ∷ b'%' ∷ b'd' ∷ []

-- A form that is too long, a surrogate, and a byte that continues nothing.
overlong : utf8_head (0xC1 ∷ 0xBF ∷ []) ≡ none
unfolding utf8_head
overlong = refl

surrogate : utf8_head (0xED ∷ 0xA0 ∷ 0x80 ∷ []) ≡ none
unfolding utf8_head
surrogate = refl

stray : utf8_head (0xE2 ∷ 0x82 ∷ 0x41 ∷ []) ≡ none
unfolding utf8_head
stray = refl

-- The character behind '9' is no digit.
colon : digit_value 16 b':' ≡ none
unfolding digit_value
colon = refl

vprintk-a_format : vprintk a_format (Arg.word 42 ∷ []) ≡ some (b'n' ∷ b'=' ∷ b'4' ∷ b'2' ∷ [], 0)
unfolding vprintk directive emit_int emit_val fill_num digit
vprintk-a_format = refl

abbrev blank_memory : ℕ → ℕ
blank_memory i = 0xff

vsnprintk-room_example :
    vsnprintk 100 8 a_format (Arg.word 42 ∷ []) blank_memory
    ≡ some (store 0 (record { mem = blank_memory; buf_ptr = 100; buf_end = 100 + 8 }), 0)
vsnprintk-room_example =
    vsnprintk-room 100 8 a_format (Arg.word 42 ∷ []) blank_memory (omega arith) vprintk-a_format

-- "%q", an unknown directive: nothing is stored, not even the ending 0.
vprintk-unknown : vprintk (b'%' ∷ b'q' ∷ []) [] ≡ some ([], minus_one)
unfolding vprintk directive
vprintk-unknown = refl

unknown_directive :
    vsnprintk 100 8 (b'%' ∷ b'q' ∷ []) [] blank_memory
    ≡ some (record { mem = blank_memory; buf_ptr = 100; buf_end = 100 + 8 }, minus_one)
unknown_directive =
    vsnprintk-room 100 8 (b'%' ∷ b'q' ∷ []) [] blank_memory (omega arith) vprintk-unknown

-- "n=%d, %s%x" with -42, "at " and 0xbeef.
abbrev some_pieces : List Piece
some_pieces =
    literal b'n'
    ∷ literal b'='
    ∷ signed 4294967254
    ∷ literal b','
    ∷ text (b' ' ∷ b'a' ∷ b't' ∷ b' ' ∷ [])
    ∷ hex 0xbeef
    ∷ []

some_pieces-AllFit : AllFit some_pieces
some_pieces-AllFit = (
  (λ e. omega (arith, e)),
  ((λ e. omega (arith, e)), (omega arith, ((λ e. omega (arith, e)), (tt, (omega arith, tt))))),
)

vprintk-Spells_example :
    (out : List ℕ) × (vprintk (format some_pieces) (arguments some_pieces) ≡ some (out, 0))
    × Spells some_pieces out
vprintk-Spells_example = vprintk-Spells some_pieces some_pieces-AllFit

-- The low half of a number of 64 bits is printed without its zeros: 0x100000001 comes out as "0x11".
long_gap :
    vprintk (b'%' ∷ b'l' ∷ b'l' ∷ b'x' ∷ []) (Arg.long 0x1_0000_0001 ∷ [])
    ≡ some (b'0' ∷ b'x' ∷ b'1' ∷ b'1' ∷ [], 0)
unfolding vprintk directive long_directive emit_long emit_val fill_num digit
    mathlib.Core.Option.bind
long_gap = refl
