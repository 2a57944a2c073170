-- ===== src/Timer/Examples.antt =====
-- A wait of 30 microseconds on a counter that passes 2 ^ 32 meanwhile, and the longest waits.
use rpi0_naivegfs.Base.{ℕ, ◌+◌, ◌*◌, ◌%◌, ◌^◌, ◌≤◌, ◌<◌, ◌≡◌, refl, done, arith}
use rpi0_naivegfs.Timer.{delay_us, delay_ms, delay_sec}
use rpi0_naivegfs.Timer.Delay.{delay_us-ends}

abbrev late_time : ℕ → ℕ
late_time i = 4294967280 + 10 * i

delay_us-ends_example :
    (e : ℕ) × (delay_us (λ i. late_time i % 2 ^ 32) 5 30 0 ≡ done tt (e + 1))
    × (4294967280 + 30 < late_time e)
    × (late_time e ≤ 4294967280 + 30 + 10)
delay_us-ends_example =
    delay_us-ends late_time 10 (λ i. omega arith) (λ i. omega arith) 5 30 0 (omega arith)
      (omega arith)

-- 4295 seconds are more microseconds than 32 bits hold: the wait is for 32704 of them.
delay_sec_wraps : (clock : ℕ → ℕ) (n i : ℕ) → delay_sec clock n 4295 i ≡ delay_us clock n 32704 i
unfolding delay_sec delay_ms
delay_sec_wraps clock n i = refl
