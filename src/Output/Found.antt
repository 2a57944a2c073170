-- ===== src/Output/Found.antt =====
-- `pi_done_scan` and the reads that it is run over.
use rpi0_naivegfs.Base.{
  ℕ, zero, suc, ◌+◌, ◌<◌, ◌≡◌, ◌≢◌, refl, sym, ap, ◌∙◌, Bool, true, false, inl, inr, ◌==◌,
  Bool-cases, Option, none, some, List, [], ◌∷◌, ◌++◌, take, drop, arith, ==→eq, ne→not_==, ◌⊎◌,
}
use mathlib.Core.List.{append_assoc, flatten}
use rpi0_naivegfs.Output.{exit_text, exit_string, at?, pi_done_scan, scan_data, scan_reads}

-- From any place in the string, its first character leads to place 1.
restart : (idx : ℕ) → idx < 8 → pi_done_scan b'D' idx ≡ some (1, false)
unfolding pi_done_scan
restart zero h = refl
restart (suc zero) h = refl
restart (suc (suc zero)) h = refl
restart (suc (suc (suc zero))) h = refl
restart (suc (suc (suc (suc zero)))) h = refl
restart (suc (suc (suc (suc (suc zero))))) h = refl
restart (suc (suc (suc (suc (suc (suc zero)))))) h = refl
restart (suc (suc (suc (suc (suc (suc (suc zero))))))) h = refl
restart (suc (suc (suc (suc (suc (suc (suc (suc n)))))))) h = absurd (omega arith)

-- What a character does at a place in the string.
data Step (c idx : ℕ) : Option (ℕ × Bool) → Type 0 where
  complete : idx ≡ 7 → c ≡ 10 → Step c idx (some (8, true))
  forward : suc idx < 8 → at? exit_string idx ≡ some c → Step c idx (some (idx + 1, false))
  again : c ≡ b'D' → Step c idx (some (1, false))
  back : Step c idx (some (0, false))

-- One character at a place before the last, whose expected character is known.
pi_done_scan-Step_before :
    (c expected idx : ℕ)
    → idx < 7
    → at? exit_string idx ≡ some expected
    → Step c idx (pi_done_scan c idx)
unfolding pi_done_scan
pi_done_scan-Step_before c expected idx h e = elim (Bool-cases (c == expected)) [
  | inl hit ↦
      rw (e, pi_done_scan, hit, ne→not_== (idx + 1) 8 (omega arith))
        (forward (omega arith) (e ∙ ap some (sym (==→eq c expected hit))))
  | inr miss ↦ elim (Bool-cases (c == b'D')) [
    | inl first ↦ rw (e, pi_done_scan, miss, first) (again (==→eq c b'D' first))
    | inr other ↦ rw (e, pi_done_scan, miss, other) back
  ]
]

pi_done_scan-Step_last : (c : ℕ) → Step c 7 (pi_done_scan c 7)
unfolding pi_done_scan
pi_done_scan-Step_last c = elim (Bool-cases (c == 10)) [
  | inl hit ↦ rw hit (complete refl (==→eq c 10 hit))
  | inr miss ↦ elim (Bool-cases (c == b'D')) [
    | inl first ↦ rw (miss, first) (again (==→eq c b'D' first))
    | inr other ↦ rw (miss, other) back
  ]
]

pi_done_scan-Step : (c idx : ℕ) → idx < 8 → Step c idx (pi_done_scan c idx)
pi_done_scan-Step c zero h = pi_done_scan-Step_before c b'D' 0 (omega arith) refl
pi_done_scan-Step c (suc zero) h = pi_done_scan-Step_before c b'O' 1 (omega arith) refl
pi_done_scan-Step c (suc (suc zero)) h = pi_done_scan-Step_before c b'N' 2 (omega arith) refl
pi_done_scan-Step c (suc (suc (suc zero))) h = pi_done_scan-Step_before c b'E' 3 (omega arith) refl
pi_done_scan-Step c (suc (suc (suc (suc zero)))) h =
    pi_done_scan-Step_before c b'!' 4 (omega arith) refl
pi_done_scan-Step c (suc (suc (suc (suc (suc zero))))) h =
    pi_done_scan-Step_before c b'!' 5 (omega arith) refl
pi_done_scan-Step c (suc (suc (suc (suc (suc (suc zero)))))) h =
    pi_done_scan-Step_before c b'!' 6 (omega arith) refl
pi_done_scan-Step c (suc (suc (suc (suc (suc (suc (suc zero))))))) h = pi_done_scan-Step_last c
pi_done_scan-Step c (suc (suc (suc (suc (suc (suc (suc (suc n)))))))) h = absurd (omega arith)

-- The expected character extends what is matched by one.
take-suc :
    (xs : List ℕ) (idx c : ℕ) (cs : List ℕ)
    → at? xs idx ≡ some c
    → take idx xs ++ (c ∷ cs) ≡ take (suc idx) xs ++ cs
take-suc [] idx c cs e = cc e
take-suc (x ∷ xs) zero c cs e = ground arith
take-suc (x ∷ xs) (suc idx) c cs e = ap (λ t. x ∷ t) (take-suc xs idx c cs e)

-- The text holds the exit string.
abbrev pub Holds : List ℕ → Type 0
Holds xs = (pre : List ℕ) × (post : List ℕ) × (xs ≡ pre ++ (exit_text ++ post))

Holds-append : (ys : List ℕ) {xs : List ℕ} → Holds xs → Holds (ys ++ xs)
Holds-append ys (pre, post, e) = (ys ++ pre, post, rw (e, append_assoc))

-- How the scan of some data ends, from a place in the string.
abbrev Ends : List ℕ → ℕ → Type 0
Ends cs idx =
    ((scan_data cs idx ≡ some (8, true)) × Holds (take idx exit_string ++ cs))
    ⊎ ((i : ℕ) × (i < 8) × (scan_data cs idx ≡ some (i, false)))

-- A scan that goes on from another place, where what that place has matched ends the text so far.
Ends-next :
    (c idx i : ℕ) (cs pre : List ℕ)
    → take idx exit_string ++ (c ∷ cs) ≡ pre ++ (take i exit_string ++ cs)
    → pi_done_scan c idx ≡ some (i, false)
    → Ends cs i
    → Ends (c ∷ cs) idx
unfolding scan_data
Ends-next c idx i cs pre same e (inl (run, holds)) =
    inl (rw (e, scan_data) run, rw same (Holds-append pre holds))
Ends-next c idx i cs pre same e (inr (j, h, run)) = inr (j, h, rw (e, scan_data) run)

Ends-Step :
    (c idx : ℕ) (cs : List ℕ) {o : Option (ℕ × Bool)}
    → Step c idx o
    → pi_done_scan c idx ≡ o
    → ((i : ℕ) → i < 8 → Ends cs i)
    → Ends (c ∷ cs) idx
unfolding scan_data
Ends-Step c idx cs (complete at last) e ih = inl (rw (e, scan_data), rw (at, last) ([], cs, refl))
Ends-Step c idx cs (forward h expected) e ih =
    let grown : suc idx ≡ idx + 1 = omega arith in
    Ends-next c idx (idx + 1) cs []
      (take-suc exit_string idx c cs expected ∙ ap (λ t. take t exit_string ++ cs) grown) e
      (ih (idx + 1) (omega arith))
Ends-Step c idx cs (again first) e ih =
    Ends-next c idx 1 cs (take idx exit_string) (rw first) e (ih 1 (omega arith))
Ends-Step c idx cs back e ih =
    Ends-next c idx 0 cs (take idx exit_string ++ (c ∷ [])) (rw append_assoc) e (ih 0 (omega arith))

scan_data-Ends : (cs : List ℕ) (idx : ℕ) → idx < 8 → Ends cs idx
scan_data-Ends [] idx h = inr (idx, h, unfold scan_data in refl)
scan_data-Ends (c ∷ cs) idx h =
    Ends-Step c idx cs (pi_done_scan-Step c idx h) refl (scan_data-Ends cs)

scan_data-cons :
    (c idx i : ℕ) (cs : List ℕ)
    → pi_done_scan c idx ≡ some (i, false)
    → scan_data (c ∷ cs) idx ≡ scan_data cs i
unfolding scan_data
scan_data-cons c idx i cs e = rw (e, scan_data)

-- Wherever the scan stands, the exit string behind it is found.
scan_exit_text :
    (idx : ℕ) (rest : List ℕ) → idx < 8 → scan_data (exit_text ++ rest) idx ≡ some (8, true)
scan_exit_text idx rest h =
    scan_data-cons b'D' idx 1 (drop 1 exit_text ++ rest) (restart idx h)
    ∙ unfold scan_data pi_done_scan in refl

-- Data behind a match is not looked at; data behind no match is scanned from where the scan stands.
after_scan : Option (ℕ × Bool) → List ℕ → Option (ℕ × Bool)
after_scan none ys = none
after_scan (some (i, true)) ys = some (i, true)
after_scan (some (i, false)) ys = scan_data ys i

scan_data-append :
    (xs ys : List ℕ) (idx : ℕ) → scan_data (xs ++ ys) idx ≡ after_scan (scan_data xs idx) ys
unfolding scan_data after_scan
scan_data-append [] ys idx = refl
scan_data-append (c ∷ xs) ys idx = go (pi_done_scan c idx) refl (scan_data-append xs ys)
  where
    go :
        (o : Option (ℕ × Bool))
        → pi_done_scan c idx ≡ o
        → ((i : ℕ) → scan_data (xs ++ ys) i ≡ after_scan (scan_data xs i) ys)
        → scan_data (c ∷ (xs ++ ys)) idx ≡ after_scan (scan_data (c ∷ xs) idx) ys
    go none e ih = rw (e, scan_data)
    go (some (i, true)) e ih = rw (e, scan_data)
    go (some (i, false)) e ih = rw (e, scan_data) (ih i)

-- It does not matter how the output is cut into reads.
pub scan_reads-flatten :
    (reads : List (List ℕ)) (idx : ℕ) → scan_reads reads idx ≡ scan_data (flatten reads) idx
unfolding scan_reads after_scan flatten
scan_reads-flatten [] idx = unfold scan_data in refl
scan_reads-flatten (d ∷ ds) idx =
    go (scan_data d idx) refl (scan_reads-flatten ds) ∙ sym (scan_data-append d (flatten ds) idx)
  where
    go :
        (o : Option (ℕ × Bool))
        → scan_data d idx ≡ o
        → ((i : ℕ) → scan_reads ds i ≡ scan_data (flatten ds) i)
        → scan_reads (d ∷ ds) idx ≡ after_scan (scan_data d idx) (flatten ds)
    go none e ih = rw (e, scan_reads, after_scan)
    go (some (i, true)) e ih = rw (e, scan_reads, after_scan)
    go (some (i, false)) e ih = rw (e, scan_reads, after_scan) (ih i)

pub unmatched : {i j : ℕ} → ◌≢◌ {A = Option (ℕ × Bool)} (some (i, false)) (some (j, true))
unmatched e = cc e

-- A text that contains the exit string is scanned to a match.
Holds-match : {xs : List ℕ} → Holds xs → scan_data xs 0 ≡ some (8, true)
unfolding after_scan
Holds-match (pre, post, e) =
    rw (e, scan_data-append pre (exit_text ++ post) 0)
      (elim (scan_data-Ends pre 0 (omega arith)) [
        | inl (run, holds) ↦ rw run
        | inr (i, h, run) ↦ rw run (scan_exit_text i post h)
      ])

-- From the start of an output, the scan of its reads ends with a match exactly when the output
-- contains the exit string, wherever the reads cut it; else it ends without one. In both cases the
-- array is read within its bounds.
pub scan_reads-Holds :
    (reads : List (List ℕ))
    → ((scan_reads reads 0 ≡ some (8, true)) × Holds (flatten reads))
      ⊎ ((i : ℕ) × (i < 8) × (scan_reads reads 0 ≡ some (i, false)) × (¬ Holds (flatten reads)))
scan_reads-Holds reads =
    rw (scan_reads-flatten reads 0) (elim (scan_data-Ends (flatten reads) 0 (omega arith)) [
      | inl found ↦ inl found
      | inr (i, h, run) ↦ inr (i, h, run, λ holds. unmatched (sym run ∙ Holds-match holds))
    ])
