-- ===== src/Print/Digits.antt =====
-- The digits that `emit_val` prints.
use mathlib.Core.List.{reverse, reverse-append}
use native.Mathlib.Nat.{div-add-mod, mod-lt, pow-suc}
use rpi0_naivegfs.Base.{
  ℕ, zero, suc, ◌*◌, ◌/◌, ◌%◌, ◌^◌, ◌≤◌, ◌<◌, ◌≡◌, ◌≢◌, ◌⊎◌, inl, inr, refl, ap, ◌∙◌, ◌==◌,
  Bool-cases, some, List, [], ◌∷◌, length, length-append, true, ◌||◌, arith, ==→eq, not_==→ne,
}
use rpi0_naivegfs.Print.{digit, fill_num, emit_val}
use rpi0_naivegfs.Print.Numerals.{
  digit_value, push_digit, low_value, HeadReal, HeadReal-reverse, IsNumeral, value_from-reverse,
}

digit_value-digit : (base d : ℕ) → base ≤ 16 → d < base → digit_value base (digit d) ≡ some d
unfolding digit_value digit
digit_value-digit base d hi h = ground arith

digit_real : (d : ℕ) → 0 < d → d < 16 → digit d ≢ b'0'
unfolding digit
digit_real d pos hi = ground arith

-- The digits of u, lowest first, are without a 0 at the end, but for the number 0.
abbrev EndsWell : ℕ → List ℕ → Type 0
EndsWell u l = ((u ≡ 0) × (l ≡ b'0' ∷ [])) ⊎ HeadReal (reverse l)

digit-EndsWell :
    (base u : ℕ) → 2 ≤ base → base ≤ 16 → u / base ≡ 0 → EndsWell u (digit (u % base) ∷ [])
unfolding digit
digit-EndsWell base u lo hi end = elim (Bool-cases (u == 0)) [
  | inl null ↦
      let is_null : u ≡ 0 = ==→eq u 0 null in inl (is_null, rw is_null (rw (mod_zero base lo)))
  | inr some_left ↦
      let same : u % base ≡ u = omega (arith, div-add-mod u base, ap (λ (t : ℕ). base * t) end) in
      inr (
        rw same (
          digit_real u (omega (arith, not_==→ne u 0 some_left))
            (omega (arith, same, mod-lt u {m = base} (omega arith)))))
]
  where
    mod_zero : (m : ℕ) → 2 ≤ m → 0 % m ≡ 0
    mod_zero m h = grind arith

later-EndsWell : (u next c : ℕ) (l : List ℕ) → next ≢ 0 → EndsWell next l → EndsWell u (c ∷ l)
later-EndsWell u next c l more (inl (null, e)) = absurd (more null)
later-EndsWell u next c l more (inr h) = inr (HeadReal-reverse c l h)

scale : (k a b : ℕ) → a ≤ b → k * a ≤ k * b
scale k a b h = grind arith

half_bound : (base n u : ℕ) → 2 ≤ base → u < 2 ^ suc n → u / base < 2 ^ n
half_bound base n u lo h =
    let p : 2 ^ suc n ≡ 2 ^ n * 2 = pow-suc 2 n in
    let q : u / base * 2 ≤ u / base * base = scale (u / base) 2 base lo in
    omega (arith, p, q, div-add-mod u base)

pos_of_lt : (n k : ℕ) → 1 ≤ k → k < 2 ^ n → 0 < n
pos_of_lt zero k lo hi = absurd (omega arith)
pos_of_lt (suc n) k lo hi = omega arith

push_digit-digit :
    (base v u : ℕ)
    → 2 ≤ base
    → base ≤ 16
    → base * v ≡ base * (u / base)
    → push_digit base v (digit (u % base)) ≡ some u
unfolding push_digit
push_digit-digit base v u lo hi e =
    rw (digit_value-digit base (u % base) hi (mod-lt u {m = base} (omega arith)))
      (ap some (omega (arith, div-add-mod u base, e)))

-- With at most k binary digits, and room for as many, the loop ends.
fill_num_lem :
    (base k n u : ℕ)
    → 2 ≤ base
    → base ≤ 16
    → u < 2 ^ k
    → 0 < k
    → k ≤ n
    → (l : List ℕ) × (fill_num n base u ≡ some l)
      × (low_value base l ≡ some u)
      × EndsWell u l
      × (length l ≤ k)
unfolding fill_num low_value
fill_num_lem base zero n u lo hi h pos room = absurd (omega arith)
fill_num_lem base (suc k) zero u lo hi h pos room = absurd (omega arith)
fill_num_lem base (suc k) (suc n) u lo hi h pos room = elim (Bool-cases (u / base == 0)) [
  | inl end ↦ (
    digit (u % base) ∷ [],
    rw end,
    low_digit 0 (omega (arith, ap (λ (t : ℕ). base * t) (==→eq (u / base) 0 end))),
    digit-EndsWell base u lo hi (==→eq (u / base) 0 end),
    omega arith,
  )
  | inr more ↦
      let next = half_bound base k u lo h in
      let (l, run, value, ends, len) =
        fill_num_lem base k n (u / base) lo hi next
          (pos_of_lt k (u / base) (omega (arith, not_==→ne (u / base) 0 more)) next)
          (omega arith) in
      (
        digit (u % base) ∷ l,
        rw (more, run),
        rw value (low_digit (u / base) refl),
        later-EndsWell u (u / base) (digit (u % base)) l (not_==→ne (u / base) 0 more) ends,
        omega arith,
      )
]
  where
    low_digit :
        (v : ℕ) → base * v ≡ base * (u / base) → push_digit base v (digit (u % base)) ≡ some u
    low_digit v e = push_digit-digit base v u lo hi e

length-reverse : (l : List ℕ) → length (reverse l) ≡ length l
length-reverse [] = refl
length-reverse (c ∷ l) =
    rw (reverse-append (c ∷ []) l)
      (omega (arith, length-append (reverse l) (c ∷ []), length-reverse l))

ends_shortest : (u : ℕ) (l : List ℕ) → EndsWell u l → (reverse l ≡ b'0' ∷ []) ⊎ HeadReal (reverse l)
ends_shortest u l (inl (null, e)) = inl (rw e)
ends_shortest u l (inr h) = inr h

known_range : (base : ℕ) → (base ≡ 2) ⊎ ((base ≡ 10) ⊎ (base ≡ 16)) → (2 ≤ base) × (base ≤ 16)
known_range base known = omega arith

known_test :
    (base : ℕ)
    → (base ≡ 2) ⊎ ((base ≡ 10) ⊎ (base ≡ 16))
    → (base == 2 || (base == 10 || base == 16)) ≡ true
known_test base known = ground arith

-- In base 2, 10 or 16, `emit_val` prints a word of 32 bits as digits of that base, of '0' to '9' and
-- 'a' to 'f', that stand for it, highest first and without a 0 in front, but for the number 0, and at
-- most 32 of them, so that they fit `num`.
pub emit_val-value :
    (base u : ℕ)
    → (base ≡ 2) ⊎ ((base ≡ 10) ⊎ (base ≡ 16))
    → u < 2 ^ 32
    → (out : List ℕ) × (emit_val base u ≡ some out) × IsNumeral base u out × (length out ≤ 32)
unfolding emit_val
emit_val-value base u known small =
    let range = known_range base known in
    let (l, run, value, ends, len) =
      fill_num_lem base 32 33 u range.0 range.1 small (omega arith) (omega arith) in
    (
      reverse l,
      rw (known_test base known, run),
      record { value = value_from-reverse base l ∙ value; shortest = ends_shortest u l ends },
      omega (arith, length-reverse l),
    )
