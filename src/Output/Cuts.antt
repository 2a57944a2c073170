-- ===== src/Output/Cuts.antt =====
-- Where the reads of some data come to the end of the exit string.
use mathlib.Core.List.{flatten}
use rpi0_naivegfs.Base.{
  ℕ, ◌≡◌, ◌≢◌, ◌⊎◌, inl, inr, refl, sym, ◌∙◌, Bool, true, false, Option, none, some, List, [], ◌∷◌,
  ◌++◌,
}
use rpi0_naivegfs.Output.{scan_data, scan_reads}
use rpi0_naivegfs.Output.Found.{Holds, unmatched, scan_reads-Holds}

pub scan_data-cases :
    (d : List ℕ) (k : ℕ)
    → (scan_data d k ≡ none)
      ⊎ (((i : ℕ) × (scan_data d k ≡ some (i, true)))
          ⊎ ((i : ℕ) × (scan_data d k ≡ some (i, false))))
scan_data-cases d k = go (scan_data d k) refl
  where
    go :
        (o : Option (ℕ × Bool))
        → scan_data d k ≡ o
        → (scan_data d k ≡ none)
          ⊎ (((i : ℕ) × (scan_data d k ≡ some (i, true)))
              ⊎ ((i : ℕ) × (scan_data d k ≡ some (i, false))))
    go none e = inl e
    go (some (i, true)) e = inr (inl (i, e))
    go (some (i, false)) e = inr (inr (i, e))

pub missing : {v : ℕ × Bool} → ◌≢◌ {A = Option (ℕ × Bool)} none (some v)
missing e = cc e

pub no_match :
    (ds : List (List ℕ)) (k : ℕ) → scan_reads ds 0 ≡ some (k, false) → ¬ Holds (flatten ds)
no_match ds k e = elim (scan_reads-Holds ds) [
  | inl (run, holds) ↦ absurd (unmatched (sym e ∙ run))
  | inr (i, small, run, fails) ↦ fails
]

pub match : (ds : List (List ℕ)) (k : ℕ) → scan_reads ds 0 ≡ some (k, true) → Holds (flatten ds)
match ds k e = elim (scan_reads-Holds ds) [
  | inl (run, holds) ↦ holds
  | inr (i, small, run, fails) ↦ absurd (unmatched (sym run ∙ e))
]

pub scan_reads_on :
    (d : List ℕ) (ds : List (List ℕ)) (k i : ℕ)
    → scan_data d k ≡ some (i, false)
    → scan_reads (d ∷ ds) k ≡ scan_reads ds i
unfolding scan_reads
scan_reads_on d ds k i e = rw (scan_reads, e)

pub scan_reads_end :
    (d : List ℕ) (ds : List (List ℕ)) (k i : ℕ)
    → scan_data d k ≡ some (i, true)
    → scan_reads (d ∷ ds) k ≡ some (i, true)
unfolding scan_reads
scan_reads_end d ds k i e = rw (scan_reads, e)

pub scan_reads-none :
    (d : List ℕ) (ds : List (List ℕ)) (k : ℕ) → scan_data d k ≡ none → scan_reads (d ∷ ds) k ≡ none
unfolding scan_reads
scan_reads-none d ds k e = rw (scan_reads, e)

-- The reads up to the one with the match.
abbrev pub Cut : List (List ℕ) → ℕ → ℕ → Type 0
Cut ds k i =
    (before : List (List ℕ)) × (d : List ℕ) × (after : List (List ℕ)) × (k' : ℕ) × (ds
      ≡ before ++ (d ∷ after))
    × (scan_reads before k ≡ some (k', false))
    × (scan_reads (before ++ (d ∷ [])) k ≡ some (i, true))
