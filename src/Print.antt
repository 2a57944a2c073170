-- ===== src/Print.antt =====
-- The output routines of pi-src/printk.c, and pi-src/sprintk.c, which prints into a buffer. What is
-- printed is a list of bytes. The arguments behind a format are typed by the format; where an
-- argument is missing or of another type, C leaves the behaviour open, and there is no result.
pub mod Numerals
pub mod Digits
pub mod Utf8
mod Examples
pub mod Buffer
pub mod Pieces
use rpi0_naivegfs.Base.{
  ℕ, zero, suc, ◌+◌, ◌-◌, ◌*◌, ◌/◌, ◌%◌, ◌^◌, Bool, ◌||◌, if◌then◌else◌, ltb, leb, ◌==◌, Option,
  none, some, List, [], ◌∷◌, ◌++◌, minus_one, sub32, u8,
}
use mathlib.Core.List.{reverse}
use mathlib.Core.Option

-- `putwchar`: the bytes, or none where it returns -1.
unfoldable pub putwchar : ℕ → Option (List ℕ)
putwchar c =
    if leb c 0x7f
    then some (c ∷ [])
    else if leb c 0x7ff
    then some ((0xC0 + c / 64) ∷ (0x80 + c % 64) ∷ [])
    else if leb c 0xffff
    then some ((0xE0 + c / 4096) ∷ (0x80 + (c / 64) % 64) ∷ (0x80 + c % 64) ∷ [])
    else if leb c 0x10ffff
    then some (
        (0xF0 + c / 262144)
        ∷ (0x80 + (c / 4096) % 64)
        ∷ (0x80 + (c / 64) % 64)
        ∷ (0x80 + c % 64)
        ∷ [])
    else none

-- "0123456789abcdef"[d]
unfoldable pub digit : ℕ → ℕ
digit d = if ltb d 10 then d + b'0' else d - 10 + b'a'

-- The loop that fills `num`, lowest digit first, with the room that is left in `num`.
unfoldable pub fill_num : ℕ → ℕ → ℕ → Option (List ℕ)
fill_num zero base u = none
fill_num (suc n) base u =
    let more = Option.map (λ (l : List ℕ). digit (u % base) ∷ l) (fill_num n base (u / base)) in
    if u / base == 0 then some (digit (u % base) ∷ []) else more

-- `emit_val`, in a `num` of 33 characters. Another base prints nothing.
unfoldable pub emit_val : ℕ → ℕ → Option (List ℕ)
emit_val base u =
    if base == 2 || (base == 10 || base == 16)
    then Option.map reverse (fill_num 33 base u)
    else some []

-- What `va_arg` finds: 32 bits, 64 bits, or a string.
pub data Arg : Type 0 where
  word : ℕ → Arg
  long : ℕ → Arg
  str : List ℕ → Arg

-- What is printed, and what is returned.
abbrev pub Printed : Type 0
Printed = Option (List ℕ × ℕ)

abbrev pub before : List ℕ → Printed → Printed
before out none = none
before out (some (l, r)) = some (out ++ l, r)

abbrev pub print_then : Option (List ℕ) → Printed → Printed
print_then none p = none
print_then (some out) p = before out p

-- `return -1`
abbrev pub bogus : Printed
bogus = some ([], minus_one)

abbrev pub hex_prefix : List ℕ
hex_prefix = b'0' ∷ b'x' ∷ []

-- `%d`: a negative `int` is a word of 2 ^ 31 or more.
unfoldable pub emit_int : ℕ → Option (List ℕ)
emit_int v =
    if ltb v (2 ^ 31)
    then emit_val 10 v
    else Option.map (λ (l : List ℕ). b'-' ∷ l) (emit_val 10 (sub32 0 v))

-- `%llx`
unfoldable pub emit_long : ℕ → Option (List ℕ)
emit_long x =
    let hi = (x / 2 ^ 32) % 2 ^ 32 in
    let low = emit_val 16 (x % 2 ^ 32) in
    if hi == 0
    then low
    else Option.bind (emit_val 16 hi) (λ (h : List ℕ). Option.map (λ (l : List ℕ). h ++ l) low)

-- A directive that takes a word.
abbrev pub with_word : (ℕ → Option (List ℕ)) → (List Arg → Printed) → List Arg → Printed
with_word f rest (word v ∷ args) = print_then (f v) (rest args)
with_word f rest (long x ∷ args) = none
with_word f rest (str s ∷ args) = none
with_word f rest [] = none

abbrev pub with_long : (ℕ → Option (List ℕ)) → (List Arg → Printed) → List Arg → Printed
with_long f rest (long x ∷ args) = print_then (f x) (rest args)
with_long f rest (word v ∷ args) = none
with_long f rest (str s ∷ args) = none
with_long f rest [] = none

abbrev pub with_str : (List Arg → Printed) → List Arg → Printed
with_str rest (str s ∷ args) = before s (rest args)
with_str rest (word v ∷ args) = none
with_str rest (long x ∷ args) = none
with_str rest [] = none

-- The `switch` on the character behind '%'. `rest` prints what follows that character, `behind_l`
-- the case 'l'.
unfoldable pub directive : ℕ → (List Arg → Printed) → (List Arg → Printed) → List Arg → Printed
directive d rest behind_l args =
    if d == b'b'
    then with_word (emit_val 2) rest args
    else if d == b'u'
    then with_word (emit_val 10) rest args
    else if d == b'c'
    then with_word (λ v. some (u8 v ∷ [])) rest args
    else if d == b'l'
    then behind_l args
    else if d == b'x' || d == b'p'
    then before hex_prefix (with_word (emit_val 16) rest args)
    else if d == b'd'
    then with_word emit_int rest args
    else if d == b's'
    then with_str rest args
    else bogus

-- Behind 'l': the two characters "lx", or the return of -1.
unfoldable pub long_directive : ℕ → ℕ → (List Arg → Printed) → List Arg → Printed
long_directive l x rest args =
    if l == b'l'
    then (if x == b'x' then before hex_prefix (with_long emit_long rest args) else bogus)
    else bogus

-- `vprintk`. A format is the list of its characters before the 0 that ends it.
unfoldable pub vprintk : List ℕ → List Arg → Printed
vprintk [] args = some ([], 0)
vprintk (c ∷ []) args = if c == b'%' then bogus else some (c ∷ [], 0)
vprintk (c ∷ d ∷ []) args =
    if c == b'%'
    then directive d (λ left. some ([], 0)) (λ left. bogus) args
    else before (c ∷ []) (vprintk (d ∷ []) args)
vprintk (c ∷ d ∷ e ∷ []) args =
    if c == b'%'
    then directive d (vprintk (e ∷ [])) (λ left. bogus) args
    else before (c ∷ []) (vprintk (d ∷ e ∷ []) args)
vprintk (c ∷ d ∷ e ∷ f ∷ fmt) args =
    if c == b'%'
    then directive d (vprintk (e ∷ f ∷ fmt)) (long_directive e f (vprintk fmt)) args
    else before (c ∷ []) (vprintk (d ∷ e ∷ f ∷ fmt) args)

-- pi-src/sprintk.c: memory, and where `buf_ptr` and `buf_end` point.
pub record Buf : Type 0 where
  pub mem : ℕ → ℕ
  pub buf_ptr : ℕ
  pub buf_end : ℕ

-- `*buf_ptr++ = c`
abbrev pub store : ℕ → Buf → Buf
store c b = record b { mem = λ i. if i == b.buf_ptr then c else b.mem i; buf_ptr = b.buf_ptr + 1 }

-- `putchar` of pi-src/sprintk.c.
unfoldable pub putchar : ℕ → Buf → Buf
putchar c b = if ltb b.buf_ptr b.buf_end then b else store c b

unfoldable pub put_all : List ℕ → Buf → Buf
put_all [] b = b
put_all (c ∷ cs) b = put_all cs (putchar c b)

-- `vsnprintk`: the loop is that of `vprintk` with this `putchar`, and a 0 is stored at the end
-- unless -1 is returned.
unfoldable pub vsnprintk : ℕ → ℕ → List ℕ → List Arg → (ℕ → ℕ) → Option (Buf × ℕ)
vsnprintk buf n fmt args mem =
    Option.map
      (λ (p : List ℕ × ℕ).
        let b = put_all p.0 (record { mem = mem; buf_ptr = buf; buf_end = buf + n }) in
        (if p.1 == 0 then store 0 b else b, p.1))
      (vprintk fmt args)
