-- ===== src/Timer/Delay.antt =====
-- When the busy waits end, on a counter that shows the time modulo 2 ^ 32.
use rpi0_naivegfs.Base.{
  ℕ, zero, suc, ◌+◌, ◌-◌, ◌%◌, ◌^◌, ◌≤◌, ◌<◌, ◌≡◌, refl, ap, ◌∙◌, true, false, inl, inr, Bool-cases,
  ltb, done, sub32, arith,
}
use rpi0_naivegfs.Timer.{timer_get_usec_raw, delay_rounds, delay_us}

-- The difference of two readings is the time between them, if that is less than 2 ^ 32.
sub32_lem : (x y : ℕ) → y ≤ x → x < y + 2 ^ 32 → sub32 (x % 2 ^ 32) (y % 2 ^ 32) ≡ x - y
sub32_lem x y lo hi = omega arith

ltb→lt : (a b : ℕ) → ltb a b ≡ true → a < b
ltb→lt a b h = ground arith

not_ltb→le : (a b : ℕ) → ltb a b ≡ false → b ≤ a
not_ltb→le a b h = ground arith

-- The two ways of one round.
module _ (clock : ℕ → ℕ) (n us s j : ℕ) where
  round_over :
      ltb us (sub32 (clock j) s) ≡ true → delay_rounds clock (suc n) us s j ≡ done tt (j + 1)
  unfolding delay_rounds timer_get_usec_raw
  round_over over = rw over

  round_on :
      ltb us (sub32 (clock j) s) ≡ false
      → delay_rounds clock (suc n) us s j ≡ delay_rounds clock n us s (j + 1)
  unfolding delay_rounds timer_get_usec_raw
  round_on on = rw on

module _ (time : ℕ → ℕ) (step : ℕ) (forward : (i : ℕ) → time i ≤ time (i + 1))
    (often : (i : ℕ) → time (i + 1) ≤ time i + step) where
  -- What the register shows.
  abbrev register : ℕ → ℕ
  register i = time i % 2 ^ 32

  -- The loop ends at a reading that is late enough, and not much too late.
  abbrev Ends : ℕ → ℕ → ℕ → ℕ → Type 0
  Ends n us i j =
      (e : ℕ) × (delay_rounds register n us (register i) j ≡ done tt (e + 1))
      × (time i + us < time e)
      × (time e ≤ time i + us + step)

  delay_rounds-Ends :
      (n us i j m : ℕ)
      → us + step < 2 ^ 32
      → time i ≤ time j
      → time j ≤ time i + us
      → time i + us < time m
      → j + n ≡ m
      → Ends n us i (j + 1)
  delay_rounds-Ends zero us i j m small from early late at = absurd (omega (arith, ap time same))
    where
      same : j ≡ m
      same = omega arith
  delay_rounds-Ends (suc n) us i j m small from early late at =
      let between =
        sub32_lem (time (j + 1)) (time i) (omega (arith, forward j)) (omega (arith, often j)) in
      elim (Bool-cases (ltb us (time (j + 1) - time i))) [
        | inl over ↦ (
          j + 1,
          round_over register n us (register i) (j + 1) (rw between over),
          omega (arith, ltb→lt us (time (j + 1) - time i) over),
          omega (arith, often j),
        )
        | inr on ↦
            let (e, run, lo, hi) =
              delay_rounds-Ends n us i (j + 1) m small (omega (arith, forward j))
                (omega (arith, forward j, not_ltb→le us (time (j + 1) - time i) on)) late
                (omega arith) in
            (e, round_on register n us (register i) (j + 1) (rw between on) ∙ run, lo, hi)
      ]

  -- Let the counter show a time modulo 2 ^ 32 that never goes back and advances by at most `step`
  -- from one reading to the next, where us + step < 2 ^ 32, and let more than us have passed n
  -- readings after the first one. Then `delay_us` ends within n rounds, more than us after its
  -- first reading and at most us + step after it, also where the counter passes 2 ^ 32 meanwhile.
  pub delay_us-ends :
      (n us i : ℕ)
      → us + step < 2 ^ 32
      → time i + us < time (i + n)
      → (e : ℕ) × (delay_us register n us i ≡ done tt (e + 1))
        × (time i + us < time e)
        × (time e ≤ time i + us + step)
  unfolding delay_us timer_get_usec_raw
  delay_us-ends n us i small late =
      delay_rounds-Ends n us i i (i + n) small (omega arith) (omega arith) late refl
