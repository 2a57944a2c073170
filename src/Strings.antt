-- ===== src/Strings.antt =====
-- `strncpy` and `strncmp` of pi-src/string.c. A buffer is a list of bytes; past its end a zero
-- is read, which ends a string. A string ends at a byte 0, and also at a byte 0xff.
pub mod Laws
mod Examples
use rpi0_naivegfs.Base.{
  ℕ, zero, suc, ◌+◌, ◌-◌, Bool, ◌||◌, ◌==◌, if◌then◌else◌, List, [], ◌∷◌, set, minus_one,
}

abbrev pub ends : ℕ → Bool
ends c = (c == 0) || (c == 0xff)

-- The copying loop at index i: where it stops, and the destination.
unfoldable pub copy_bytes : ℕ → ℕ → List ℕ → List ℕ → ℕ × List ℕ
copy_bytes zero i src dst = (i, dst)
copy_bytes (suc n) i [] dst = (i, dst)
copy_bytes (suc n) i (c ∷ cs) dst =
    let rest = copy_bytes n (i + 1) cs (set dst i c) in if ends c then (i, dst) else rest

unfoldable pub strncpy : List ℕ → List ℕ → ℕ → List ℕ
unfolding copy_bytes
strncpy dst src n =
    if n == 0
    then dst
    else (let (i, copied) = copy_bytes n 0 src dst in
        if i == n then set copied (n - 1) 0 else set copied i 0)

-- 0, or the bits of -1.
unfoldable pub strncmp : List ℕ → List ℕ → ℕ → ℕ
strncmp a b zero = 0
strncmp [] b (suc n) = 0
strncmp (x ∷ a) [] (suc n) = 0
strncmp (x ∷ a) (y ∷ b) (suc n) =
    let rest = strncmp a b n in if ends x || ends y then 0 else if x == y then rest else minus_one
