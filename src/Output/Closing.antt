-- ===== src/Output/Closing.antt =====
-- What `get_pi_output` does to the pies: a round closes one pi at most.
use rpi0_naivegfs.Base.{
  ℕ, zero, suc, ◌≡◌, ◌+◌, ◌≤◌, arith, if◌then◌else◌, refl, ◌∙◌, Bool, true, false, Bool-cases, inl,
  inr, Option, none, some, List, [], ◌∷◌, length, minus_one, Prog, Outcome, done, halted, running,
  and_then,
}
use rpi0_naivegfs.Output.{Pi, pi_at, reap_pi, select_pi, scan_data}
use rpi0_naivegfs.Output.Loop.{
  Input, Os, Console, open_fds, serve_chosen, watch, after_scan, after_read, drain, serve,
  output_rounds, get_pi_output,
}

-- The same pies with the same descriptors; one that is open later was open before.
abbrev pub Closes : List Pi → List Pi → Type 0
Closes [] [] = Unit
Closes [] (q ∷ qs) = ⊥
Closes (p ∷ ps) [] = ⊥
Closes (p ∷ ps) (q ∷ qs) = Path ℕ q.fd p.fd × (q.is_open ≡ true → p.is_open ≡ true) × Closes ps qs

Closes-refl : (ps : List Pi) → Closes ps ps
Closes-refl [] = tt
Closes-refl (p ∷ ps) = (refl, (λ h. h), Closes-refl ps)

Closes-trans : (ps qs rs : List Pi) → Closes ps qs → Closes qs rs → Closes ps rs
Closes-trans [] [] [] a b = tt
Closes-trans [] [] (r ∷ rs) a b = b
Closes-trans [] (q ∷ qs) rs a b = absurd a
Closes-trans (p ∷ ps) [] rs a b = absurd a
Closes-trans (p ∷ ps) (q ∷ qs) [] a b = b
Closes-trans (p ∷ ps) (q ∷ qs) (r ∷ rs) a b =
    (b.0 ∙ a.0, (λ h. a.1 (b.1 h)), Closes-trans ps qs rs a.2 b.2)

reap_pi-Closes : (ps : List Pi) (j : ℕ) → Closes ps (reap_pi ps j)
unfolding reap_pi
reap_pi-Closes [] j = tt
reap_pi-Closes (p ∷ ps) zero = (refl, (λ h. absurd (cc h)), Closes-refl ps)
reap_pi-Closes (p ∷ ps) (suc j) = (refl, (λ h. h), reap_pi-Closes ps j)

-- The number of open pies.
abbrev pub open_pies : List Pi → ℕ
open_pies [] = 0
open_pies (p ∷ ps) = if p.is_open then suc (open_pies ps) else open_pies ps

reap_pi-open_pies : (ps : List Pi) (j : ℕ) → open_pies ps ≤ 1 + open_pies (reap_pi ps j)
unfolding reap_pi
reap_pi-open_pies [] j = omega arith
reap_pi-open_pies (p ∷ ps) zero = ground arith
reap_pi-open_pies (p ∷ ps) (suc j) = let h = reap_pi-open_pies ps j in ground (arith, h)

-- At most n pies are closed.
abbrev pub ClosesFew : ℕ → List Pi → List Pi → Type 0
ClosesFew n ps qs = Closes ps qs × (open_pies ps ≤ n + open_pies qs)

ClosesFew-refl : (n : ℕ) (ps : List Pi) → ClosesFew n ps ps
ClosesFew-refl n ps = (Closes-refl ps, omega arith)

ClosesFew-trans :
    (m n : ℕ) (ps qs rs : List Pi) → ClosesFew m ps qs → ClosesFew n qs rs → ClosesFew (m + n) ps rs
ClosesFew-trans m n ps qs rs (a, k) (b, l) = (Closes-trans ps qs rs a b, omega arith)

reap_pi-ClosesFew : (ps : List Pi) (j : ℕ) → ClosesFew 1 ps (reap_pi ps j)
reap_pi-ClosesFew ps j = (reap_pi-Closes ps j, reap_pi-open_pies ps j)

-- In the state that a program has come to, n pies are closed at most.
abbrev pub After : {World : Type 0} → ℕ → List Pi → Outcome (Console World) (Unit {0}) → Type 0
After n ps (done a s) = ClosesFew n ps s.pies
After n ps (halted s) = ClosesFew n ps s.pies
After n ps (running s) = ClosesFew n ps s.pies

After-trans :
    {World : Type 0} (m n : ℕ) (ps qs : List Pi) (o : Outcome (Console World) (Unit {0}))
    → ClosesFew m ps qs
    → After n qs o
    → After (m + n) ps o
After-trans m n ps qs (done a s) c h = ClosesFew-trans m n ps qs s.pies c h
After-trans m n ps qs (halted s) c h = ClosesFew-trans m n ps qs s.pies c h
After-trans m n ps qs (running s) c h = ClosesFew-trans m n ps qs s.pies c h

After-and_then :
    {World : Type 0} (m n : ℕ) (ps : List Pi) (o : Outcome (Console World) (Unit {0}))
    (k : Unit {0} → Prog (Console World) (Unit {0}))
    → After m ps o
    → ((a : Unit {0}) (s : Console World) → After n s.pies (k a s))
    → After (m + n) ps (and_then o k)
After-and_then m n ps (done a s) k h next = After-trans m n ps s.pies (k a s) h (next a s)
After-and_then m n ps (halted s) k (h, l) next = (h, omega arith)
After-and_then m n ps (running s) k (h, l) next = (h, omega arith)

module _ {World : Type 0} (os : Os World) where
  after_scan-After :
      (again : Prog (Console World) (Unit {0})) (j fd : ℕ) (chunk : List ℕ) (r : Option (ℕ × Bool))
      (s : Console World)
      → ((t : Console World) → After 1 t.pies (again t))
      → After 1 s.pies (after_scan os again j fd chunk r s)
  unfolding after_scan
  after_scan-After again j fd chunk none s h = ClosesFew-refl 1 s.pies
  after_scan-After again j fd chunk (some (idx', true)) s h = reap_pi-ClosesFew s.pies j
  after_scan-After again j fd chunk (some (idx', false)) s h =
      elim (Bool-cases (os.select_one fd s.world).0) [
        | inl ready ↦ rw ready (h _)
        | inr late ↦ rw late (ClosesFew-refl 1 s.pies)
      ]

  after_read-After :
      (again : Prog (Console World) (Unit {0})) (j fd : ℕ) (input : Input) (s : Console World)
      → ((t : Console World) → After 1 t.pies (again t))
      → After 1 s.pies (after_read os again j fd input s)
  unfolding after_read
  after_read-After again j fd Input.failed s h = reap_pi-ClosesFew s.pies j
  after_read-After again j fd Input.nothing s h = ClosesFew-refl 1 s.pies
  after_read-After again j fd (Input.bytes chunk) s h =
      after_scan-After again j fd chunk (scan_data chunk s.idx) s h

  drain-After : (n j fd : ℕ) (s : Console World) → After 1 s.pies (drain os n j fd s)
  unfolding drain
  drain-After zero j fd s = ClosesFew-refl 1 s.pies
  drain-After (suc n) j fd s =
      after_read-After (drain os n j fd) j fd (os.read fd s.world).0
        (record s { world = (os.read fd s.world).1 }) (drain-After n j fd)

  serve_chosen-After :
      (rounds : ℕ) (chosen : Option ℕ) (s : Console World)
      → After 1 s.pies (serve_chosen os rounds chosen s)
  unfolding serve_chosen
  serve_chosen-After rounds none s = ClosesFew-refl 1 s.pies
  serve_chosen-After rounds (some j) s = drain-After rounds j (pi_at s.pies j).fd s

  watch-After :
      (rounds n : ℕ) (more : Prog (Console World) (Unit {0})) (fds : List ℕ) (s : Console World)
      → ((t : Console World) → After n t.pies (more t))
      → After (1 + n) s.pies (watch os rounds more fds s)
  unfolding watch serve
  watch-After rounds n more [] s h = ClosesFew-refl (1 + n) s.pies
  watch-After rounds n more (f ∷ fs) s h =
      let (ready, w) = os.select_any (f ∷ fs) s.world in
      let t : Console World = record s { world = w } in
      elim (Bool-cases ready) [
        | inl now ↦ rw now (
            After-and_then 1 n s.pies (serve os rounds t) (λ _. more)
              (serve_chosen-After rounds
                (select_pi (suc (length s.pies)) s.pies (length s.pies) minus_one minus_one) t)
              (λ _ u. h u))
        | inr late ↦ rw late (ClosesFew-refl (1 + n) s.pies)
      ]

  output_rounds-After :
      (rounds n : ℕ) (s : Console World) → After n s.pies (output_rounds os rounds n s)
  unfolding output_rounds
  output_rounds-After rounds zero s = ClosesFew-refl 0 s.pies
  output_rounds-After rounds (suc n) s =
      let step : 1 + n ≡ suc n = omega arith in
      rw step at (
        watch-After rounds n (output_rounds os rounds n) (open_fds s.pies) s
          (output_rounds-After rounds n))

  -- Whether `get_pi_output` ends, stops, or is still running when its rounds are used up, and
  -- whatever the system's calls give it, in the state that it has come to it has kept the pies and
  -- their descriptors, and has only closed pies, ten of them at most: one
  -- that is open then was open before.
  pub get_pi_output-Closes :
      (rounds : ℕ) (s : Console World) → After 10 s.pies (get_pi_output os rounds s)
  unfolding get_pi_output
  get_pi_output-Closes rounds s = output_rounds-After rounds 10 s
