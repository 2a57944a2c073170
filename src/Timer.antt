-- ===== src/Timer.antt =====
-- The busy waits of pi-src/timer.c. The register of the microsecond counter is a parameter: `clock i` is
-- what its i-th reading returns, and the state is the number of readings so far. `rounds` bounds the
-- loop.
pub mod Delay
mod Examples
use rpi0_naivegfs.Base.{
  ℕ, zero, suc, ◌+◌, ◌*◌, if◌then◌else◌, ltb, Prog, done, pure, no_rounds, ◌>>=◌, sub32, u32,
}

module _ (clock : ℕ → ℕ) where
  unfoldable pub timer_get_usec_raw : Prog ℕ ℕ
  timer_get_usec_raw i = done (clock i) (i + 1)

  -- `while(1)`, from the reading `s` on.
  unfoldable pub delay_rounds : ℕ → ℕ → ℕ → Prog ℕ (Unit {0})
  delay_rounds zero us s = no_rounds
  delay_rounds (suc n) us s = do
    e ← timer_get_usec_raw
    if ltb us (sub32 e s) then pure tt else delay_rounds n us s

  unfoldable pub delay_us : ℕ → ℕ → Prog ℕ (Unit {0})
  delay_us rounds us = do s ← timer_get_usec_raw; delay_rounds rounds us s

  unfoldable pub delay_ms : ℕ → ℕ → Prog ℕ (Unit {0})
  delay_ms rounds ms = delay_us rounds (u32 (ms * 1000))

  unfoldable pub delay_sec : ℕ → ℕ → Prog ℕ (Unit {0})
  delay_sec rounds sec = delay_ms rounds (u32 (sec * 1000))
