-- ===== src/Strings/Laws.antt =====
-- `strncmp` and `strncpy` on the strings that buffers hold.
use rpi0_naivegfs.Base.{
  ℕ, zero, suc, ◌+◌, ◌-◌, ◌≤◌, ◌<◌, ◌≡◌, refl, ap, ◌∙◌, ◌↔◌, inl, inr, ◌==◌, if◌then◌else◌,
  Bool-cases, List, [], ◌∷◌, ◌++◌, length, set, arith, ne→not_==, length-append, length-set,
}
use mathlib.Core.List.{append_assoc}
use native.Mathlib.Nat.{zero-add}
use rpi0_naivegfs.Strings.{ends, copy_bytes, strncpy, strncmp}

-- The string that a buffer holds, cut after n bytes.
unfoldable pub text : ℕ → List ℕ → List ℕ
text zero a = []
text (suc n) [] = []
text (suc n) (x ∷ a) = if ends x then [] else x ∷ text n a

-- One is the start of the other.
abbrev pub Overlap : List ℕ → List ℕ → Type 0
Overlap [] b = Unit
Overlap (x ∷ a) [] = Unit
Overlap (x ∷ a) (y ∷ b) = (x ≡ y) × Overlap a b

-- `strncmp` returns 0 exactly when one of the two strings, cut after n bytes, is the start of the
-- other; so a string is not told from a longer one that it starts.
pub strncmp-Overlap_iff :
    (n : ℕ) (a b : List ℕ) → (strncmp a b n ≡ 0) ↔ Overlap (text n a) (text n b)
unfolding strncmp text
strncmp-Overlap_iff zero a b = (λ e. tt, λ o. refl)
strncmp-Overlap_iff (suc n) [] b = (λ e. tt, λ o. refl)
strncmp-Overlap_iff (suc n) (x ∷ a) [] = ground arith
strncmp-Overlap_iff (suc n) (x ∷ a) (y ∷ b) = ground (arith, strncmp-Overlap_iff n a b)

-- `strncmp` reads nothing but the strings.
pub strncmp-text : (n : ℕ) (x a b : List ℕ) → text n a ≡ text n b → strncmp x a n ≡ strncmp x b n
unfolding strncmp text
strncmp-text zero x a b e = refl
strncmp-text (suc n) [] a b e = refl
strncmp-text (suc n) (c ∷ x) [] [] e = refl
strncmp-text (suc n) (c ∷ x) [] (z ∷ b) e = ground arith
strncmp-text (suc n) (c ∷ x) (y ∷ a) [] e = ground arith
strncmp-text (suc n) (c ∷ x) (y ∷ a) (z ∷ b) e = ground (arith, strncmp-text n x a b)

-- What stands behind a byte 0xff is no part of the string.
pub text-marked : (n : ℕ) (a r t : List ℕ) → text n (a ++ (0xff ∷ r)) ≡ text n (a ++ (0xff ∷ t))
unfolding text
text-marked zero a r t = refl
text-marked (suc n) [] r t = refl
text-marked (suc n) (x ∷ a) r t = rw (text-marked n a r t)

-- What the copying loop leaves in the destination, by recursion on it.
copied : ℕ → List ℕ → List ℕ → List ℕ
copied zero src dst = dst
copied (suc n) [] dst = dst
copied (suc n) (c ∷ cs) [] = []
copied (suc n) (c ∷ cs) (d ∷ ds) = if ends c then d ∷ ds else c ∷ copied n cs ds

set-append :
    (pre : List ℕ) (d c : ℕ) (ds : List ℕ)
    → set (pre ++ (d ∷ ds)) (length pre) c ≡ (pre ++ (c ∷ [])) ++ ds
set-append [] d c ds = refl
set-append (x ∷ pre) d c ds = ap (λ t. x ∷ t) (set-append pre d c ds)

copy_bytes-copied :
    (n i : ℕ) (src pre dst : List ℕ)
    → i ≡ length pre
    → n ≤ length dst
    → copy_bytes n i src (pre ++ dst) ≡ (i + length (text n src), pre ++ copied n src dst)
unfolding copy_bytes copied text
copy_bytes-copied zero i src pre dst e h = ground arith
copy_bytes-copied (suc n) i [] pre dst e h = ground arith
copy_bytes-copied (suc n) i (c ∷ cs) pre [] e h = absurd (omega arith)
copy_bytes-copied (suc n) i (c ∷ cs) pre (d ∷ ds) e h = elim (Bool-cases (ends c)) [
  | inl stop ↦ rw stop (ground arith)
  | inr more ↦
      rw (more, e, set-append)
        (let after =
            copy_bytes-copied n (length pre + 1) cs (pre ++ (c ∷ [])) ds
              (omega (arith, length-append pre (c ∷ []))) (omega arith) in
          ground (arith, after, append_assoc pre (c ∷ []) (copied n cs ds)))
]

length-text : (n : ℕ) (a : List ℕ) → length (text n a) ≤ n
unfolding text
length-text zero a = omega arith
length-text (suc n) [] = omega arith
length-text (suc n) (x ∷ a) = ground (arith, length-text n a)

text-set_copied :
    (n p : ℕ) (src dst : List ℕ)
    → p ≤ length (text n src)
    → p < n
    → n ≤ length dst
    → text n (set (copied n src dst) p 0) ≡ text p src
unfolding copied text
text-set_copied zero p src dst l h k = absurd (omega arith)
text-set_copied (suc n) p src [] l h k = absurd (omega arith)
text-set_copied (suc n) zero [] (d ∷ ds) l h k = refl
text-set_copied (suc n) (suc p) [] (d ∷ ds) l h k = absurd (omega arith)
text-set_copied (suc n) zero (c ∷ cs) (d ∷ ds) l h k = ground arith
text-set_copied (suc n) (suc p) (c ∷ cs) (d ∷ ds) l h k = elim (Bool-cases (ends c)) [
  | inl stop ↦ absurd (omega (arith, rw stop at l))
  | inr more ↦
      rw (more, more)
        (ap (λ t. c ∷ t)
          (text-set_copied n p cs ds (omega (arith, rw more at l)) (omega arith) (omega arith)))
]

text-past :
    (n p : ℕ) (a : List ℕ)
    → length (text n a) < n
    → p + 1 ≡ n
    → text (length (text n a)) a ≡ text p a
unfolding text
text-past zero p a h e = absurd (omega arith)
text-past (suc n) zero [] h e = refl
text-past (suc n) (suc p) [] h e = refl
text-past (suc n) zero (x ∷ a) h e = ground arith
text-past (suc n) (suc p) (x ∷ a) h e = ground (arith, text-past n p a)

-- A copy into a destination of at least n bytes holds the source's string, cut after n - 1 bytes.
pub text-strncpy :
    (n : ℕ) (dst src : List ℕ)
    → 0 < n
    → n ≤ length dst
    → text n (strncpy dst src n) ≡ text (n - 1) src
unfolding strncpy
text-strncpy n dst src pos h =
    rw (ne→not_== n 0 (omega arith), copy_bytes-copied n 0 src [] dst refl h)
      (elim (Bool-cases (0 + length (text n src) == n)) [
        | inl full ↦
            let at : length (text n src) ≡ n = ground arith in
            rw full (text-set_copied n (n - 1) src dst (omega arith) (omega arith) h)
        | inr short ↦
            let lt : length (text n src) < n = ground (arith, length-text n src) in
            rw (short, zero-add)
              (text-set_copied n (length (text n src)) src dst (omega arith) lt h
                ∙ text-past n (n - 1) src lt (omega arith))
      ])

Overlap-text : (m n : ℕ) (a : List ℕ) → m ≤ n → Overlap (text m a) (text n a)
unfolding text
Overlap-text zero n a h = tt
Overlap-text (suc m) n [] h = tt
Overlap-text (suc m) zero (x ∷ a) h = absurd (omega arith)
Overlap-text (suc m) (suc n) (x ∷ a) h = ground (arith, Overlap-text m n a)

-- A copy into a destination of at least n bytes compares equal to its source.
pub strncmp-strncpy :
    (n : ℕ) (dst src : List ℕ) → n ≤ length dst → strncmp (strncpy dst src n) src n ≡ 0
strncmp-strncpy zero dst src h = unfold strncmp in refl
strncmp-strncpy (suc n) dst src h = (strncmp-Overlap_iff (suc n) (strncpy dst src (suc n)) src).1 (
    rw (text-strncpy (suc n) dst src (omega arith) h)
      (Overlap-text (suc n - 1) (suc n) src (omega arith)))

length-copy_bytes : (n i : ℕ) (src dst : List ℕ) → length (copy_bytes n i src dst).1 ≡ length dst
unfolding copy_bytes
length-copy_bytes zero i src dst = refl
length-copy_bytes (suc n) i [] dst = refl
length-copy_bytes (suc n) i (c ∷ cs) dst =
    ground (arith, length-copy_bytes n (i + 1) cs (set dst i c), length-set dst i c)

-- The size of the destination does not change.
pub length-strncpy : (dst src : List ℕ) (n : ℕ) → length (strncpy dst src n) ≡ length dst
unfolding strncpy
length-strncpy dst src n = ground (
  arith,
  length-copy_bytes n 0 src dst,
  length-set (copy_bytes n 0 src dst).1 (n - 1) 0,
  length-set (copy_bytes n 0 src dst).1 (copy_bytes n 0 src dst).0 0,
)
