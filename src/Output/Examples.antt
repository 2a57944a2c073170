-- ===== src/Output/Examples.antt =====
-- The theorems on the output of the pies at small inputs.
use rpi0_naivegfs.Base.{
  map, done, ℕ, zero, suc, ◌<◌, ◌≡◌, ◌⊎◌, true, false, List, [], ◌∷◌, ◌++◌, ◌+◌, halted, arith,
  refl, and_then,
}
use mathlib.Core.List.{flatten}
use rpi0_naivegfs.Output.Loop.{
  Input, Os, Console, get_pi_output, output_rounds, watch, serve, serve_chosen, drain, after_read,
  after_scan, open_fds, reap,
}
use rpi0_naivegfs.Output.Closing.{After, get_pi_output-Closes}
use rpi0_naivegfs.Output.Drained.{Feeds, taken, drain-Holds}
use rpi0_naivegfs.Output.Panic.{characters, putk, panic, drain-panic}
use rpi0_naivegfs.Output.{pi_done_scan, reap_pi, Pi, pi_at, scan_data, select_pi}
use rpi0_naivegfs.Output.Found.{Holds}
use rpi0_naivegfs.Output.Select.{output_rounds-first_open}

-- The exit string in two reads.
abbrev two_reads : List (List ℕ)
two_reads = (b'o' ∷ b'k' ∷ b'D' ∷ b'O' ∷ b'N' ∷ []) ∷ (b'E' ∷ b'!' ∷ b'!' ∷ b'!' ∷ 10 ∷ []) ∷ []

abbrev some_pies : List Pi
some_pies =
    record { is_open = false; fd = 3 }
    ∷ record { is_open = true; fd = 4 }
    ∷ record { is_open = true; fd = 5 }
    ∷ []

below_first : (j : ℕ) → j < 1 → (pi_at some_pies j).is_open ≡ false
below_first zero h = refl
below_first (suc j) h = absurd (omega arith)

-- A system that hands out prepared inputs, one for each `read`.
abbrev next_input : List Input → Input × List Input
next_input [] = (Input.nothing, [])
next_input (i ∷ is) = (i, is)

abbrev scripted_os : Os (List Input)
scripted_os = record {
  select_any = λ fds w. (true, w);
  read = λ fd w. next_input w;
  select_one = λ fd w. (true, w);
}

abbrev first_console : Console (List Input)
first_console = record {
  pies = some_pies;
  idx = 0;
  written = [];
  world = map Input.bytes two_reads;
}

-- Data is ready, so the pi of the index 1 is drained first.
output_rounds-first_open_example :
    output_rounds scripted_os 5 10 first_console
    ≡ and_then (drain scripted_os 5 1 4 first_console) (λ _. output_rounds scripted_os 5 9)
output_rounds-first_open_example =
    output_rounds-first_open scripted_os 5 9 1 first_console (omega arith) (omega arith) below_first
      refl

-- The first open pi was done, the other one has nothing more.
abbrev last_console : Console (List Input)
last_console = record {
  pies = reap_pi some_pies 1;
  idx = 8;
  written = flatten two_reads;
  world = [];
}

get_pi_output_lem : get_pi_output scripted_os 5 first_console ≡ done tt last_console
unfolding get_pi_output output_rounds watch serve serve_chosen drain after_read after_scan open_fds
    select_pi reap_pi scan_data pi_done_scan flatten
get_pi_output_lem = refl

get_pi_output-Closes_example :
    After 10 first_console.pies (get_pi_output scripted_os 5 first_console)
get_pi_output-Closes_example = get_pi_output-Closes scripted_os 5 first_console

two_reads-Feeds : Feeds scripted_os 1 4 first_console.world two_reads []
two_reads-Feeds = (_, _, refl, refl, (_, _, refl, refl, refl))

drain-Holds_example :
    ((before : List (List ℕ)) × (d : List ℕ) × (after : List (List ℕ)) × (u : List Input)
      × (two_reads ≡ before ++ (d ∷ after))
      × (¬ Holds (flatten before))
      × Holds (flatten (before ++ (d ∷ [])))
      × (drain scripted_os 5 1 4 first_console
          ≡ done tt
              (reap scripted_os 1 (taken scripted_os 1 4 (before ++ (d ∷ [])) 8 u first_console))))
    ⊎ ((¬ Holds (flatten two_reads))
        × (n : ℕ) × (i : ℕ) × (5 ≡ 2 + n)
        × (drain scripted_os 5 1 4 first_console
            ≡ drain scripted_os n 1 4 (taken scripted_os 1 4 two_reads i [] first_console)))
drain-Holds_example =
    drain-Holds scripted_os 1 4 two_reads 5 first_console [] two_reads-Feeds (omega arith) refl

-- A pi has printed "ok", and halts with the message "no card".
abbrev panic_reads : List (List ℕ)
panic_reads =
    (b'o' ∷ b'k' ∷ b'P' ∷ b'A' ∷ b'N' ∷ b'I' ∷ b'C' ∷ b':' ∷ b' ' ∷ b'n' ∷ b'o' ∷ [])
    ∷ (b' ' ∷ b'c' ∷ b'a' ∷ b'r' ∷ b'd' ∷ b'D' ∷ b'O' ∷ b'N' ∷ [])
    ∷ (b'E' ∷ b'!' ∷ b'!' ∷ b'!' ∷ 10 ∷ [])
    ∷ []

abbrev no_card : List ℕ
no_card = b'n' ∷ b'o' ∷ b' ' ∷ b'c' ∷ b'a' ∷ b'r' ∷ b'd' ∷ []

no_card_lem : panic no_card (b'o' ∷ b'k' ∷ []) ≡ halted (flatten panic_reads)
unfolding panic putk characters flatten
no_card_lem = refl

abbrev panic_console : Console (List Input)
panic_console = record first_console { world = map Input.bytes panic_reads }

panic_reads-Feeds : Feeds scripted_os 1 4 panic_console.world panic_reads []
panic_reads-Feeds = (_, _, refl, refl, (_, _, refl, refl, (_, _, refl, refl, refl)))

drain-panic_example :
    (before : List (List ℕ)) × (d : List ℕ) × (after : List (List ℕ)) × (u : List Input)
    × (panic_reads ≡ before ++ (d ∷ after))
    × (drain scripted_os 3 1 4 panic_console
        ≡ done tt
            (reap scripted_os 1 (taken scripted_os 1 4 (before ++ (d ∷ [])) 8 u panic_console)))
drain-panic_example =
    drain-panic scripted_os 1 4 no_card (b'o' ∷ b'k' ∷ []) (flatten panic_reads) panic_reads 3
      panic_console [] no_card_lem refl panic_reads-Feeds (omega arith) refl
