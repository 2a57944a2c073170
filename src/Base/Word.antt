-- ===== src/Base/Word.antt =====
-- Machine words as native numbers below 2 ^ w, and their little-endian bytes. `x & (2 ^ k - 1)`,
-- `x >> k` and `x << k` are written by `%`, `/` and `*`.
use Prim.Native.Nat.{ℕ, ◌+◌, ◌-◌, ◌*◌, ◌/◌, ◌%◌, ◌^◌, ◌<◌}
use mathlib.Core.Path.{◌≡◌}
use mathlib.Core.List.{List, [], ◌∷◌}
use native.Mathlib.Omega.{arith}

abbrev pub u8 : ℕ → ℕ
u8 n = n % 2 ^ 8

abbrev pub u16 : ℕ → ℕ
u16 n = n % 2 ^ 16

abbrev pub u32 : ℕ → ℕ
u32 n = n % 2 ^ 32

-- `a - b` on `uint32_t`: the modulus is added first, since `-` on ℕ stops at 0.
abbrev pub sub32 : ℕ → ℕ → ℕ
sub32 a b = (a + 2 ^ 32 - b) % 2 ^ 32

-- `(uint32_t)-1`
abbrev pub minus_one : ℕ
minus_one = 0xffff_ffff

-- The bytes of a `uint16_t` and of a `uint32_t`, lowest first, and back.
abbrev pub bytes16 : ℕ → List ℕ
bytes16 n = n % 256 ∷ (n / 256) % 256 ∷ []

abbrev pub bytes32 : ℕ → List ℕ
bytes32 n = n % 256 ∷ (n / 256) % 256 ∷ (n / 65536) % 256 ∷ (n / 16777216) % 256 ∷ []

abbrev pub word16 : ℕ → ℕ → ℕ
word16 a b = a + b * 256

abbrev pub word32 : ℕ → ℕ → ℕ → ℕ → ℕ
word32 a b c d = a + b * 256 + c * 65536 + d * 16777216

pub word32-bytes32 :
    (n : ℕ)
    → n < 2 ^ 32
    → word32 (n % 256) ((n / 256) % 256) ((n / 65536) % 256) ((n / 16777216) % 256) ≡ n
word32-bytes32 n h = omega arith

pub word16-bytes16 : (n : ℕ) → n < 2 ^ 16 → word16 (n % 256) ((n / 256) % 256) ≡ n
word16-bytes16 n h = omega arith

four_bytes :
    {a b c d a' b' c' d' : ℕ}
    → a ≡ a'
    → b ≡ b'
    → c ≡ c'
    → d ≡ d'
    → a ∷ b ∷ c ∷ d ∷ [] ≡ a' ∷ b' ∷ c' ∷ d' ∷ []
four_bytes ea eb ec ed = cc

pub bytes32-word32 :
    (a b c d : ℕ)
    → a < 256
    → b < 256
    → c < 256
    → d < 256
    → bytes32 (word32 a b c d) ≡ a ∷ b ∷ c ∷ d ∷ []
bytes32-word32 a b c d ha hb hc hd =
    four_bytes (omega arith) (omega arith) (omega arith) (omega arith)
