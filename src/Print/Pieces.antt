-- ===== src/Print/Pieces.antt =====
-- `vprintk` on a format that is put together from literal characters and directives.
use mathlib.Core.List.{append_assoc}
use rpi0_naivegfs.Base.{
  ℕ, ◌-◌, ◌/◌, ◌%◌, ◌^◌, ◌≤◌, ◌<◌, ◌≡◌, ◌≢◌, ◌⊎◌, inl, inr, refl, sym, ap, ◌∙◌, Bool-cases, ltb,
  ne→not_==, none, some, List, [], ◌∷◌, ◌++◌, sub32, arith,
}
use rpi0_naivegfs.Print.{
  Arg, word, long, str, Printed, before, bogus, hex_prefix, emit_val, emit_int, emit_long,
  directive, long_directive, vprintk,
}
use rpi0_naivegfs.Print.Digits.{emit_val-value}
use rpi0_naivegfs.Print.Numerals.{IsNumeral}

-- A literal character, or a directive with its argument.
pub data Piece : Type 0 where
  literal : ℕ → Piece
  binary : ℕ → Piece
  unsigned : ℕ → Piece
  signed : ℕ → Piece
  hex : ℕ → Piece
  pointer : ℕ → Piece
  character : ℕ → Piece
  text : List ℕ → Piece
  long_hex : ℕ → Piece

abbrev pub format : List Piece → List ℕ
format [] = []
format (literal c ∷ ps) = c ∷ format ps
format (binary v ∷ ps) = b'%' ∷ b'b' ∷ format ps
format (unsigned v ∷ ps) = b'%' ∷ b'u' ∷ format ps
format (signed v ∷ ps) = b'%' ∷ b'd' ∷ format ps
format (hex v ∷ ps) = b'%' ∷ b'x' ∷ format ps
format (pointer v ∷ ps) = b'%' ∷ b'p' ∷ format ps
format (character v ∷ ps) = b'%' ∷ b'c' ∷ format ps
format (text s ∷ ps) = b'%' ∷ b's' ∷ format ps
format (long_hex x ∷ ps) = b'%' ∷ b'l' ∷ b'l' ∷ b'x' ∷ format ps

abbrev pub arguments : List Piece → List Arg
arguments [] = []
arguments (literal c ∷ ps) = arguments ps
arguments (binary v ∷ ps) = word v ∷ arguments ps
arguments (unsigned v ∷ ps) = word v ∷ arguments ps
arguments (signed v ∷ ps) = word v ∷ arguments ps
arguments (hex v ∷ ps) = word v ∷ arguments ps
arguments (pointer v ∷ ps) = word v ∷ arguments ps
arguments (character v ∷ ps) = word v ∷ arguments ps
arguments (text s ∷ ps) = str s ∷ arguments ps
arguments (long_hex x ∷ ps) = long x ∷ arguments ps

-- No literal '%', and numbers of 32 bits, also where the argument has 64.
abbrev pub Fits : Piece → Type 0
Fits (literal c) = c ≢ b'%'
Fits (binary v) = v < 2 ^ 32
Fits (unsigned v) = v < 2 ^ 32
Fits (signed v) = v < 2 ^ 32
Fits (hex v) = v < 2 ^ 32
Fits (pointer v) = v < 2 ^ 32
Fits (character v) = Unit
Fits (text s) = Unit
Fits (long_hex x) = x < 2 ^ 32

abbrev pub AllFit : List Piece → Type 0
AllFit [] = Unit
AllFit (p ∷ ps) = Fits p × AllFit ps

-- The digits behind "0x".
abbrev pub MeansHex : ℕ → List ℕ → Type 0
MeansHex v out = (ds : List ℕ) × (out ≡ hex_prefix ++ ds) × IsNumeral 16 v ds

-- The text stands for the piece: the digits of a number, with a '-' for the negative
-- one that the word is as an `int`.
abbrev pub Means : Piece → List ℕ → Type 0
Means (literal c) out = out ≡ c ∷ []
Means (binary v) out = IsNumeral 2 v out
Means (unsigned v) out = IsNumeral 10 v out
Means (signed v) out =
    ((v < 2 ^ 31) × IsNumeral 10 v out)
    ⊎ ((2 ^ 31 ≤ v) × ((ds : List ℕ) × (out ≡ b'-' ∷ ds) × IsNumeral 10 (2 ^ 32 - v) ds))
Means (hex v) out = MeansHex v out
Means (pointer v) out = MeansHex v out
Means (character v) out = out ≡ v % 256 ∷ []
Means (text s) out = out ≡ s
Means (long_hex x) out = MeansHex x out

-- The text is the texts of the pieces, one behind the other.
abbrev pub Spells : List Piece → List ℕ → Type 0
Spells [] out = out ≡ []
Spells (p ∷ ps) out = (a b : List ℕ) × (out ≡ a ++ b) × Means p a × Spells ps b

before_append : (a b : List ℕ) (p : Printed) → before a (before b p) ≡ before (a ++ b) p
before_append a b none = refl
before_append a b (some (l, r)) = ap (λ (u : List ℕ). some (u, r)) (sym (append_assoc a b l))

-- What stands behind 'l'.
abbrev behind : List ℕ → List Arg → Printed
behind [] args = bogus
behind (e ∷ []) args = bogus
behind (e ∷ f ∷ fmt) args = long_directive e f (vprintk fmt) args

vprintk-directive :
    (d : ℕ) (fmt : List ℕ) (args : List Arg)
    → vprintk (b'%' ∷ d ∷ fmt) args ≡ directive d (vprintk fmt) (behind fmt) args
unfolding vprintk
vprintk-directive d [] args = refl
vprintk-directive d (e ∷ []) args = refl
vprintk-directive d (e ∷ f ∷ fmt) args = refl

vprintk-literal :
    (c : ℕ) (fmt : List ℕ) (args : List Arg)
    → c ≢ b'%'
    → vprintk (c ∷ fmt) args ≡ before (c ∷ []) (vprintk fmt args)
unfolding vprintk
vprintk-literal c [] args real = rw (ne→not_== c b'%' real)
vprintk-literal c (d ∷ []) args real = rw (ne→not_== c b'%' real)
vprintk-literal c (d ∷ e ∷ []) args real = rw (ne→not_== c b'%' real)
vprintk-literal c (d ∷ e ∷ f ∷ fmt) args real = rw (ne→not_== c b'%' real)

-- Digits of a word, in one of the bases.
abbrev Digits : ℕ → ℕ → Type 0
Digits base v = (ds : List ℕ) × (emit_val base v ≡ some ds) × IsNumeral base v ds

word-Digits : (base v : ℕ) → (base ≡ 2) ⊎ ((base ≡ 10) ⊎ (base ≡ 16)) → v < 2 ^ 32 → Digits base v
word-Digits base v known small =
    let (ds, run, value, len) = emit_val-value base v known small in (ds, run, value)

hex-Digits : (v : ℕ) → v < 2 ^ 32 → Digits 16 v
hex-Digits v small = word-Digits 16 v (inr (inr refl)) small

emit_long_small : (x : ℕ) → x < 2 ^ 32 → emit_long x ≡ emit_val 16 x
unfolding emit_long
emit_long_small x small =
    let high : (x / 2 ^ 32) % 2 ^ 32 ≡ 0 = omega arith in
    let low : x % 2 ^ 32 ≡ x = omega arith in rw (high, low)

emit_int_lem :
    (v : ℕ) → v < 2 ^ 32 → (out : List ℕ) × (emit_int v ≡ some out) × Means (signed v) out
unfolding emit_int
emit_int_lem v small = elim (Bool-cases (ltb v (2 ^ 31))) [
  | inl plus ↦
      let (ds, run, value) = word-Digits 10 v (inr (inl refl)) small in
      (ds, rw (plus, run), inl (ground arith, value))
  | inr minus ↦
      let opposite : sub32 0 v ≡ 2 ^ 32 - v = ground arith in
      let (ds, run, value) = word-Digits 10 (2 ^ 32 - v) (inr (inl refl)) (ground arith) in
      (b'-' ∷ ds, rw (minus, opposite, run), inr (ground arith, (ds, refl, value)))
]

-- One piece of a format.
abbrev Prints : Piece → List Piece → Type 0
Prints p ps =
    (out : List ℕ) × Means p out
    × (vprintk (format (p ∷ ps)) (arguments (p ∷ ps))
        ≡ before out (vprintk (format ps) (arguments ps)))

piece-Prints : (p : Piece) (ps : List Piece) → Fits p → Prints p ps
unfolding directive long_directive
piece-Prints (literal c) ps fits = (c ∷ [], refl, vprintk-literal c (format ps) (arguments ps) fits)
piece-Prints (binary v) ps fits =
    let (ds, run, value) = word-Digits 2 v (inl refl) fits in
    (ds, value, vprintk-directive b'b' (format ps) (word v ∷ arguments ps) ∙ (rw run))
piece-Prints (unsigned v) ps fits =
    let (ds, run, value) = word-Digits 10 v (inr (inl refl)) fits in
    (ds, value, vprintk-directive b'u' (format ps) (word v ∷ arguments ps) ∙ (rw run))
piece-Prints (signed v) ps fits =
    let (out, run, means) = emit_int_lem v fits in
    (out, means, vprintk-directive b'd' (format ps) (word v ∷ arguments ps) ∙ (rw run))
piece-Prints (hex v) ps fits =
    let (ds, run, value) = hex-Digits v fits in
    (
      hex_prefix ++ ds,
      (ds, refl, value),
      vprintk-directive b'x' (format ps) (word v ∷ arguments ps)
          ∙ (rw run (before_append hex_prefix ds (vprintk (format ps) (arguments ps)))),
    )
piece-Prints (pointer v) ps fits =
    let (ds, run, value) = hex-Digits v fits in
    (
      hex_prefix ++ ds,
      (ds, refl, value),
      vprintk-directive b'p' (format ps) (word v ∷ arguments ps)
          ∙ (rw run (before_append hex_prefix ds (vprintk (format ps) (arguments ps)))),
    )
piece-Prints (character v) ps fits =
    (v % 256 ∷ [], refl, vprintk-directive b'c' (format ps) (word v ∷ arguments ps))
piece-Prints (text s) ps fits = (s, refl, vprintk-directive b's' (format ps) (str s ∷ arguments ps))
piece-Prints (long_hex x) ps fits =
    let (ds, run, value) = hex-Digits x fits in
    (
      hex_prefix ++ ds,
      (ds, refl, value),
      vprintk-directive b'l' (b'l' ∷ b'x' ∷ format ps) (long x ∷ arguments ps)
          ∙ (rw (emit_long_small x fits, run)
              (before_append hex_prefix ds (vprintk (format ps) (arguments ps)))),
    )

-- For a format of literal characters and directives with the arguments that they take, of 32 bits
-- where they are numbers, `vprintk` prints the text of every piece, one behind the other, and returns
-- 0: for a number digits of the directive's base, of '0' to '9' and 'a' to 'f', that stand for it,
-- without a 0 in front but for the number 0, behind "0x" for the base 16, and for a negative `int`
-- behind '-'. The argument of "%llx" is below 2 ^ 32 here as well.
pub vprintk-Spells :
    (ps : List Piece)
    → AllFit ps
    → (out : List ℕ) × (vprintk (format ps) (arguments ps) ≡ some (out, 0)) × Spells ps out
vprintk-Spells [] fits = ([], unfold vprintk in refl, refl)
vprintk-Spells (p ∷ ps) fits =
    let (a, means, first) = piece-Prints p ps fits.0 in
    let (b, rest, spells) = vprintk-Spells ps fits.1 in
    (a ++ b, first ∙ ap (before a) rest, (a, b, refl, means, spells))
