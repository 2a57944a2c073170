-- ===== src/Base/Programs.antt =====
-- A program over a state: it ends with a result, stops for good (`panic`, `_halt`), or is still
-- running, in the state that it has come to: it waits for a byte, or the rounds that the model gives
-- to a loop are used up.

use mathlib.Core.Path.{◌≡◌, refl}

pub data Outcome (S : Type 0) (A : Type 0) : Type 0 where
  done : A → S → Outcome S A
  halted : S → Outcome S A
  running : S → Outcome S A

abbrev pub Prog : Type 0 → Type 0 → Type 0
Prog S A = S → Outcome S A

module _ {S : Type 0} {A : Type 0} where
  abbrev pub pure : A → Prog S A
  pure a s = done a s

  abbrev pub halt : Prog S A
  halt s = halted s

  abbrev pub no_rounds : Prog S A
  no_rounds s = running s

abbrev pub get_state : {S : Type 0} → Prog S S
get_state s = done s s

abbrev pub modify : {S : Type 0} → (S → S) → Prog S (Unit {0})
modify f s = done tt (f s)

module _ {S : Type 0} {A : Type 0} {B : Type 0} where
  abbrev pub and_then : Outcome S A → (A → Prog S B) → Outcome S B
  and_then (done a s) k = k a s
  and_then (halted s) k = halted s
  and_then (running s) k = running s

  infixl 5 ◌>>=◌
  abbrev pub ◌>>=◌ : Prog S A → (A → Prog S B) → Prog S B
  m >>= k = λ s. and_then (m s) k

abbrev pub ◌>>◌ : {S B : Type 0} → Prog S (Unit {0}) → Prog S B → Prog S B
m >> n = λ s. and_then (m s) (λ _. n)

infixl 5 ◌>>◌
-- A program that ends, ends after its first part did.
pub and_then-done :
    {S A B : Type 0} (o : Outcome S A) (k : A → Prog S B) {b : B} {t : S}
    → and_then o k ≡ done b t
    → (a : A) × (u : S) × (o ≡ done a u) × (k a u ≡ done b t)
and_then-done (done a u) k e = (a, u, refl, e)
and_then-done (halted u) k e = cc e
and_then-done (running u) k e = cc e

pub done-injective :
    {S A : Type 0} {a b : A} {s t : S}
    → Path (Outcome S A) (done a s) (done b t)
    → (a ≡ b) × (s ≡ t)
done-injective e = (cc e, cc e)
