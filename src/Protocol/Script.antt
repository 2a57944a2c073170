-- ===== src/Protocol/Script.antt =====
-- What one side of the line hears and says, in order, and how two sides get on whose bytes arrive one
-- by one, in any order.
pub mod Parts
pub mod Talks
pub mod Pi
pub mod Entry
pub mod Mac
pub mod Runs
pub mod Progress
use mathlib.Core.List.{append_assoc, append-nil}
use rpi0_naivegfs.Base.{
  ℕ, ◌≡◌, ◌⊎◌, inl, inr, refl, sym, ap, ◌∙◌, Option, none, some, List, [], ◌∷◌, ◌++◌,
}

pub data Event : Type 0 where
  hear : List ℕ → Event
  say : List ℕ → Event

-- The bytes behind the first ones, if those have all arrived.
unfoldable pub strip : List ℕ → List ℕ → Option (List ℕ)
strip [] a = some a
strip (x ∷ w) [] = none
strip (x ∷ w) (y ∷ a) = strip w a

abbrev pub heard : (List ℕ → List ℕ) → Option (List ℕ) → List ℕ
heard f none = []
heard f (some a) = f a

-- What a side that follows the script has said when the bytes a have arrived.
unfoldable pub reply : List Event → List ℕ → List ℕ
reply [] a = []
reply (say o ∷ es) a = o ++ reply es a
reply (hear w ∷ es) a = heard (reply es) (strip w a)

-- All that it hears, and all that it says.
abbrev pub input : List Event → List ℕ
input [] = []
input (say o ∷ es) = input es
input (hear w ∷ es) = w ++ input es

abbrev pub output : List Event → List ℕ
output [] = []
output (say o ∷ es) = o ++ output es
output (hear w ∷ es) = output es

-- The script of the other side.
abbrev pub dual : List Event → List Event
dual [] = []
dual (say o ∷ es) = hear o ∷ dual es
dual (hear w ∷ es) = say w ∷ dual es

pub strip-append : (w a : List ℕ) → strip w (w ++ a) ≡ some a
unfolding strip
strip-append [] a = refl
strip-append (x ∷ w) a = strip-append w a

pub strip-none : (a : List ℕ) (x : ℕ) (r : List ℕ) → strip (a ++ (x ∷ r)) a ≡ none
unfolding strip
strip-none [] x r = refl
strip-none (y ∷ a) x r = strip-none a x r

pub reply-hear : (w a : List ℕ) (es : List Event) → reply (hear w ∷ es) (w ++ a) ≡ reply es a
unfolding reply
reply-hear w a es = ap (heard (reply es)) (strip-append w a)

pub reply-wait :
    (w a : List ℕ) (x : ℕ) (r : List ℕ) (es : List Event)
    → w ≡ a ++ (x ∷ r)
    → reply (hear w ∷ es) a ≡ []
unfolding reply
reply-wait w a x r es e = ap (heard (reply es)) (ap (λ u. strip u a) e ∙ strip-none a x r)

abbrev pub Prefix : List ℕ → List ℕ → Type 0
Prefix a l = (r : List ℕ) × (l ≡ a ++ r)

-- A byte is missing of the list.
abbrev pub Short : List ℕ → List ℕ → Type 0
Short a l = (x : ℕ) × (r : List ℕ) × (l ≡ a ++ (x ∷ r))

-- What arrives of two lists ends in the first, or behind it.
pub Prefix-split :
    (w rest a : List ℕ)
    → Prefix a (w ++ rest)
    → Short a w ⊎ ((a' : List ℕ) × (a ≡ w ++ a') × Prefix a' rest)
Prefix-split [] rest a p = inr (a, refl, p)
Prefix-split (x ∷ w) rest [] p = inl (x, w, refl)
Prefix-split (x ∷ w) rest (y ∷ a) (r, e) = elim (Prefix-split w rest a (r, cc e)) [
  | inl (z, s, e') ↦ inl (z, s, cc (e, e'))
  | inr (a', e', p) ↦ inr (a', cc (e, e'), p)
]

heard-Prefix :
    (f : List ℕ → List ℕ) (l : List ℕ) (b : Option (List ℕ))
    → ((a : List ℕ) → Prefix (f a) l)
    → Prefix (heard f b) l
heard-Prefix f l none h = (l, refl)
heard-Prefix f l (some a) h = h a

pub reply-Prefix : (es : List Event) (a : List ℕ) → Prefix (reply es a) (output es)
unfolding reply
reply-Prefix [] a = ([], refl)
reply-Prefix (say o ∷ es) a =
    let (r, e) = reply-Prefix es a in (r, ap (λ l. o ++ l) e ∙ sym (append_assoc o (reply es a) r))
reply-Prefix (hear w ∷ es) a = heard-Prefix (reply es) (output es) (strip w a) (reply-Prefix es)

pub output-dual : (es : List Event) → output (dual es) ≡ input es
output-dual [] = refl
output-dual (say o ∷ es) = output-dual es
output-dual (hear w ∷ es) = ap (λ l. w ++ l) (output-dual es)

pub input-dual : (es : List Event) → input (dual es) ≡ output es
input-dual [] = refl
input-dual (say o ∷ es) = ap (λ l. o ++ l) (input-dual es)
input-dual (hear w ∷ es) = input-dual es

-- Of two sides with dual scripts, one has said what has not arrived, until all has arrived.
pub dual_progress :
    (es : List Event) (a b : List ℕ)
    → Prefix a (input es)
    → Prefix b (output es)
    → ((a ≡ input es) × (b ≡ output es)) ⊎ (Short a (reply (dual es) b) ⊎ Short b (reply es a))
unfolding reply
dual_progress [] [] [] p q = inl (refl, refl)
dual_progress [] (x ∷ a) b (r, e) q = cc e
dual_progress [] [] (x ∷ b) p (r, e) = cc e
dual_progress (say o ∷ es) a b p q = elim (Prefix-split o (output es) b q) [
  | inl (x, r, e) ↦
      inr (inr (x, r ++ reply es a, ap (λ l. l ++ reply es a) e ∙ append_assoc b (x ∷ r) _))
  | inr (b', e, q') ↦ elim (dual_progress es a b' p q') [
    | inl (ea, eb) ↦ inl (ea, e ∙ ap (λ l. o ++ l) eb)
    | inr (inl (x, r, e')) ↦
        inr (inl (x, r, ap (reply (hear o ∷ dual es)) e ∙ reply-hear o b' (dual es) ∙ e'))
    | inr (inr (x, r, e')) ↦ inr (
        inr (
          x,
          r,
          ap (λ l. o ++ l) e' ∙ sym (append_assoc o b' (x ∷ r)) ∙ ap (λ l. l ++ (x ∷ r)) (sym e),
        ))
  ]
]
dual_progress (hear w ∷ es) a b p q = elim (Prefix-split w (input es) a p) [
  | inl (x, r, e) ↦ inr (
      inl
        (x, r ++ reply (dual es) b, ap (λ l. l ++ reply (dual es) b) e ∙ append_assoc a (x ∷ r) _))
  | inr (a', e, p') ↦ elim (dual_progress es a' b p' q) [
    | inl (ea, eb) ↦ inl (e ∙ ap (λ l. w ++ l) ea, eb)
    | inr (inr (x, r, e')) ↦ inr (inr (x, r, ap (reply (hear w ∷ es)) e ∙ reply-hear w a' es ∙ e'))
    | inr (inl (x, r, e')) ↦ inr (
        inl (
          x,
          r,
          ap (λ l. w ++ l) e' ∙ sym (append_assoc w a' (x ∷ r)) ∙ ap (λ l. l ++ (x ∷ r)) (sym e),
        ))
  ]
]
