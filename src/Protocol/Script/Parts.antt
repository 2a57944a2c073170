-- ===== src/Protocol/Script/Parts.antt =====
-- Parts of lists: what has arrived of a text.
use rpi0_naivegfs.Base.{ℕ, ◌+◌, ◌≤◌, ◌≡◌, ◌⊎◌, inl, inr, refl, List, [], ◌∷◌, ◌++◌, length, arith}
use rpi0_naivegfs.Protocol.Script.{Prefix, Short}

pub Short-nil : (a : List ℕ) → Short a [] → ⊥
Short-nil [] (x, r, e) = cc e
Short-nil (y ∷ a) (x, r, e) = cc e

-- Strictly inside the first list, or behind it.
pub Short-split :
    (w rest a : List ℕ)
    → Short a (w ++ rest)
    → Short a w ⊎ ((a' : List ℕ) × (a ≡ w ++ a') × Short a' rest)
Short-split [] rest a s = inr (a, refl, s)
Short-split (x ∷ w) rest [] s = inl (x, w, refl)
Short-split (x ∷ w) rest (y ∷ a) (z, r, e) = elim (Short-split w rest a (z, r, cc e)) [
  | inl (u, s, e') ↦ inl (u, s, cc (e, e'))
  | inr (a', e', p) ↦ inr (a', cc (e, e'), p)
]

-- Four bytes, of which some have arrived.
pub Short-four :
    (P : List ℕ → Type 0) (x y z w : ℕ) (a : List ℕ)
    → P []
    → P (x ∷ [])
    → P (x ∷ y ∷ [])
    → P (x ∷ y ∷ z ∷ [])
    → Short a (x ∷ y ∷ z ∷ w ∷ [])
    → P a
Short-four P x y z w [] p0 p1 p2 p3 s = p0
Short-four P x y z w (b ∷ []) p0 p1 p2 p3 (u, r, e) = let at : x ≡ b = cc e in rw (← at) p1
Short-four P x y z w (b ∷ c ∷ []) p0 p1 p2 p3 (u, r, e) =
    let at : x ≡ b = cc e in let at2 : y ≡ c = cc e in rw (← at, ← at2) p2
Short-four P x y z w (b ∷ c ∷ d ∷ []) p0 p1 p2 p3 (u, r, e) =
    let at : x ≡ b = cc e in
    let at2 : y ≡ c = cc e in let at3 : z ≡ d = cc e in rw (← at, ← at2, ← at3) p3
Short-four P x y z w (b ∷ c ∷ d ∷ e' ∷ a) p0 p1 p2 p3 (u, r, e) = absurd (Short-nil a (u, r, cc e))

-- Two lists, of which the first or a part of the second has arrived.
pub Short-two :
    (P : List ℕ → Type 0) (w v a : List ℕ)
    → ((b : List ℕ) → Short b w → P b)
    → ((b : List ℕ) → Short b v → P (w ++ b))
    → Short a (w ++ v)
    → P a
Short-two P w v a first second short = elim (Short-split w v a short) [
  | inl s ↦ first a s
  | inr (b, e, s) ↦ rw e (second b s)
]

pub Prefix-length : (a l : List ℕ) → Prefix a l → length a ≤ length l
Prefix-length [] l p = omega arith
Prefix-length (x ∷ a) [] (r, e) = cc e
Prefix-length (x ∷ a) (y ∷ l) (r, e) = let h = Prefix-length a l (r, cc e) in omega (arith, h)

pub length_behind : (a : List ℕ) (x : ℕ) → length (a ++ (x ∷ [])) ≡ length a + 1
length_behind [] x = refl
length_behind (y ∷ a) x = let h = length_behind a x in omega (arith, h)
