-- ===== src/Output/Select.antt =====
-- Which pi a round of `get_pi_output` reads from. `prev_pi` is -1 when the loop over the rounds
-- starts, and nothing assigns it after.
use rpi0_naivegfs.Base.{
  ℕ, zero, suc, ◌+◌, ◌^◌, ◌≤◌, ◌<◌, ◌≡◌, true, false, ◌==◌, some, List, minus_one, u32, arith,
  ne→not_==, not_==→ne, ==→eq, Bool-cases, inl, inr, [], ◌∷◌, length, Prog, done, and_then, ◌∙◌,
  if◌then◌else◌,
}
use rpi0_naivegfs.Output.{Pi, pi_at, step_pi, select_pi}
use rpi0_naivegfs.Output.Loop.{
  Os, Console, open_fds, serve_chosen, drain, serve, watch, output_rounds,
}

step_pi-next : (npies j : ℕ) → j + 1 < npies → npies < 2 ^ 31 → step_pi npies j ≡ j + 1
step_pi-next npies j lt small =
    let word : u32 (j + 1) ≡ j + 1 = omega arith in rw (word, ne→not_== (j + 1) npies (omega arith))

step_pi-first : (npies : ℕ) → 0 < npies → step_pi npies minus_one ≡ 0
step_pi-first npies pos = rw (ne→not_== 0 npies (omega arith))

-- The loop whose next round looks at the pi j, where the first open pi from j on is k.
select_from :
    (n : ℕ) (pies : List Pi) (npies k i j : ℕ)
    → step_pi npies i ≡ j
    → j ≤ k
    → k < npies
    → npies < 2 ^ 31
    → k < j + n
    → ((m : ℕ) → j ≤ m → m < k → (pi_at pies m).is_open ≡ false)
    → (pi_at pies k).is_open ≡ true
    → select_pi n pies npies minus_one i ≡ some k
unfolding select_pi
select_from zero pies npies k i j next lo hi small room shut here = absurd (omega arith)
select_from (suc n) pies npies k i j next lo hi small room shut here =
    let real : (j == minus_one) ≡ false = ne→not_== j minus_one (omega arith) in
    elim (Bool-cases (j == k)) [
      | inl found ↦ let at : j ≡ k = ==→eq j k found in rw (next, real) (rw (at, here))
      | inr later ↦
          let before : j < k = omega (arith, not_==→ne j k later) in
          rw (next, real, shut j (omega arith) before)
            (select_from n pies npies k j (j + 1) (step_pi-next npies j (omega arith) small)
              (omega arith) hi small (omega arith) (λ m a b. shut m (omega arith) b) here)
    ]

-- Where a round of the loop selects from, with -1 as the previous pi, as it is in every round.
select_pi-first_open :
    (pies : List Pi) (k : ℕ)
    → k < length pies
    → length pies < 2 ^ 31
    → ((j : ℕ) → j < k → (pi_at pies j).is_open ≡ false)
    → (pi_at pies k).is_open ≡ true
    → select_pi (suc (length pies)) pies (length pies) minus_one minus_one ≡ some k
select_pi-first_open pies k hi small shut here =
    select_from (suc (length pies)) pies (length pies) k minus_one 0
      (step_pi-first (length pies) (omega arith)) (omega arith) hi small (omega arith)
      (λ m a b. shut m b) here

-- An open pi has its descriptor among those that are watched.
open_fds-cons :
    (pies : List Pi) (k : ℕ)
    → k < length pies
    → (pi_at pies k).is_open ≡ true
    → (f : ℕ) × (fs : List ℕ) × (open_fds pies ≡ f ∷ fs)
unfolding open_fds
open_fds-cons [] k hi here = absurd (omega arith)
open_fds-cons (p ∷ ps) zero hi here = (p.fd, open_fds ps, rw here)
open_fds-cons (p ∷ ps) (suc k) hi here = elim (Bool-cases p.is_open) [
  | inl first ↦ (p.fd, open_fds ps, rw first)
  | inr shut ↦ let (f, fs, e) = open_fds-cons ps k (omega arith) here in (f, fs, rw shut e)
]

module _ {World : Type 0} (os : Os World) where
  serve-first_open :
      (rounds k : ℕ) (s : Console World)
      → k < length s.pies
      → length s.pies < 2 ^ 31
      → ((j : ℕ) → j < k → (pi_at s.pies j).is_open ≡ false)
      → (pi_at s.pies k).is_open ≡ true
      → serve os rounds s ≡ drain os rounds k (pi_at s.pies k).fd s
  unfolding serve serve_chosen
  serve-first_open rounds k s hi small shut here =
      rw (select_pi-first_open s.pies k hi small shut here)

  watch-cons :
      (rounds f : ℕ) (fs : List ℕ) (more : Prog (Console World) (Unit {0})) (s : Console World)
      → open_fds s.pies ≡ f ∷ fs
      → watch os rounds more (open_fds s.pies) s ≡ (
          let w = os.select_any (open_fds s.pies) s.world in
          let t : Console World = record s { world = w.1 } in
          if w.0 then and_then (serve os rounds t) (λ _. more) else done tt t)
  unfolding watch
  watch-cons rounds f fs more s e = rw e

  -- In each round of `get_pi_output`, with n rounds still to come after it and fewer than 2 ^ 31 pies, in whatever
  -- state the rounds before have left, let k be the lowest index of an open pi. Then the round waits
  -- for the open pies, and if one of them has data, k is the pi that is drained, before the rounds
  -- to come, whichever pi has the data and whichever was read from before; else the loop ends.
  pub output_rounds-first_open :
      (rounds n k : ℕ) (s : Console World)
      → k < length s.pies
      → length s.pies < 2 ^ 31
      → ((j : ℕ) → j < k → (pi_at s.pies j).is_open ≡ false)
      → (pi_at s.pies k).is_open ≡ true
      → output_rounds os rounds (suc n) s ≡ (
          let w = os.select_any (open_fds s.pies) s.world in
          let t : Console World = record s { world = w.1 } in
          if w.0
          then and_then (drain os rounds k (pi_at s.pies k).fd t) (λ _. output_rounds os rounds n)
          else done tt t)
  unfolding output_rounds
  output_rounds-first_open rounds n k s hi small shut here =
      let (f, fs, e) = open_fds-cons s.pies k hi here in
      watch-cons rounds f fs (output_rounds os rounds n) s e
      ∙ (rw (
          serve-first_open rounds k
            (record s { world = (os.select_any (open_fds s.pies) s.world).1 }) hi small shut here))
