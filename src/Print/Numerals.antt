-- ===== src/Print/Numerals.antt =====
-- What digits of a base stand for: the digits '0' to '9' and 'a' to 'f', highest or lowest first.
use mathlib.Core.List.{reverse, reverse-append}
use rpi0_naivegfs.Base.{
  ℕ, ◌+◌, ◌-◌, ◌*◌, ◌≡◌, ◌≢◌, ◌⊎◌, inl, inr, refl, ap, if◌then◌else◌, ltb, leb, ◌&&◌, Option-cases,
  Option, none, some, fun_ext, List, [], ◌∷◌, ◌++◌,
}

-- The value of a digit's character in a base up to 16: '0' to '9', and behind them 'a' to 'f'. No
-- other character is a digit, and none whose value is not below the base.
unfoldable pub digit_value : ℕ → ℕ → Option ℕ
digit_value base c =
    if leb b'0' c && leb c b'9'
    then (if ltb (c - b'0') base then some (c - b'0') else none)
    else if leb b'a' c && leb c b'f'
    then (if ltb (c - b'a' + 10) base then some (c - b'a' + 10) else none)
    else none

abbrev pub plus_digit : ℕ → ℕ → Option ℕ → Option ℕ
plus_digit base acc none = none
plus_digit base acc (some d) = some (d + base * acc)

-- The number that digits for acc and one more digit stand for.
unfoldable pub push_digit : ℕ → ℕ → ℕ → Option ℕ
push_digit base acc c = plus_digit base acc (digit_value base c)

abbrev pub and_on : Option ℕ → (ℕ → Option ℕ) → Option ℕ
and_on none f = none
and_on (some v) f = f v

-- The number that digits stand for, lowest first.
unfoldable pub low_value : ℕ → List ℕ → Option ℕ
low_value base [] = some 0
low_value base (c ∷ cs) = and_on (low_value base cs) (λ v. push_digit base v c)

-- The number that digits stand for, highest first, behind digits that stand for acc.
unfoldable pub value_from : ℕ → ℕ → List ℕ → Option ℕ
value_from base acc [] = some acc
value_from base acc (c ∷ cs) = and_on (push_digit base acc c) (λ v. value_from base v cs)

-- The first digit is not 0.
abbrev pub HeadReal : List ℕ → Type 0
HeadReal [] = ⊥
HeadReal (c ∷ cs) = c ≢ b'0'

-- Digits of a number in a base, highest first and without a 0 in front, but for the number 0.
pub record IsNumeral (base v : ℕ) (out : List ℕ) : Type 0 where
  pub value : value_from base 0 out ≡ some v
  pub shortest : (out ≡ b'0' ∷ []) ⊎ HeadReal out

HeadReal-append : (xs ys : List ℕ) → HeadReal xs → HeadReal (xs ++ ys)
HeadReal-append [] ys h = absurd h
HeadReal-append (x ∷ xs) ys h = h

pub HeadReal-reverse : (c : ℕ) (l : List ℕ) → HeadReal (reverse l) → HeadReal (reverse (c ∷ l))
HeadReal-reverse c l h = rw (reverse-append (c ∷ []) l) (HeadReal-append (reverse l) (c ∷ []) h)

value_from-append :
    (base acc : ℕ) (xs ys : List ℕ)
    → value_from base acc (xs ++ ys) ≡ and_on (value_from base acc xs) (λ v. value_from base v ys)
unfolding value_from
value_from-append base acc [] ys = refl
value_from-append base acc (x ∷ xs) ys = elim (Option-cases (push_digit base acc x)) [
  | inl e ↦ rw e
  | inr (v, e) ↦ rw e (value_from-append base v xs ys)
]

value_from-single : (base acc c : ℕ) → value_from base acc (c ∷ []) ≡ push_digit base acc c
unfolding value_from
value_from-single base acc c = elim (Option-cases (push_digit base acc c)) [
  | inl e ↦ rw e
  | inr (v, e) ↦ rw e
]

pub value_from-reverse : (base : ℕ) (l : List ℕ) → value_from base 0 (reverse l) ≡ low_value base l
unfolding low_value
value_from-reverse base [] = unfold value_from in refl
value_from-reverse base (c ∷ l) =
    rw (reverse-append (c ∷ []) l, value_from-append, value_from-reverse base l)
      (ap (and_on (low_value base l)) (fun_ext (λ v. value_from-single base v c)))
