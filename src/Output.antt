-- ===== src/Output.antt =====
-- Reading the output of the pies in mac-src/get-pi-output.c: `pi_done_scan`, which looks for the
-- string that a pi sends when it is done, and the choice of the pi to read from next.
pub mod Found
pub mod Loop
pub mod Closing
pub mod Cuts
pub mod Drained
pub mod Panic
mod Examples
pub mod Select
use rpi0_naivegfs.Base.{
  ℕ, zero, suc, ◌+◌, Bool, true, false, ◌||◌, not, if◌then◌else◌, ◌==◌, Option, none, some, List,
  [], ◌∷◌, u32,
}

-- "DONE!!!\n", and with the 0 behind it the array `exit_string`.
abbrev pub exit_text : List ℕ
exit_text = b'D' ∷ b'O' ∷ b'N' ∷ b'E' ∷ b'!' ∷ b'!' ∷ b'!' ∷ 10 ∷ []

abbrev pub exit_string : List ℕ
exit_string = b'D' ∷ b'O' ∷ b'N' ∷ b'E' ∷ b'!' ∷ b'!' ∷ b'!' ∷ 10 ∷ 0 ∷ []

-- An element of an array, none outside it.
abbrev pub at? : List ℕ → ℕ → Option ℕ
at? [] i = none
at? (x ∷ xs) zero = some x
at? (x ∷ xs) (suc i) = at? xs i

-- The static `idx` after a character.
abbrev pub next_idx : ℕ → ℕ → ℕ → ℕ
next_idx expected idx c = if c == expected then idx + 1 else if c == b'D' then 1 else 0

-- The static `idx` after the call, and the result; none where the array is read outside its bounds.
unfoldable pub pi_done_scan : ℕ → ℕ → Option (ℕ × Bool)
pi_done_scan c idx = elim (at? exit_string idx) [
  | none ↦ none
  | some expected ↦ some (next_idx expected idx c, next_idx expected idx c == 8)
]

-- The loop over the data of one `read`, left at the first match: `idx`, and `done`.
unfoldable pub scan_data : List ℕ → ℕ → Option (ℕ × Bool)
scan_data [] idx = some (idx, false)
scan_data (c ∷ cs) idx = elim (pi_done_scan c idx) [
  | none ↦ none
  | some (idx', match) ↦ if match then some (idx', true) else scan_data cs idx'
]

-- The data of several reads in order, until a match.
unfoldable pub scan_reads : List (List ℕ) → ℕ → Option (ℕ × Bool)
scan_reads [] idx = some (idx, false)
scan_reads (d ∷ ds) idx = elim (scan_data d idx) [
  | none ↦ none
  | some (idx', match) ↦ if match then some (idx', true) else scan_reads ds idx'
]

-- `pi`, with its `open` flag and descriptor.
pub record Pi : Type 0 where
  pub is_open : Bool
  pub fd : ℕ

abbrev pub pi_at : List Pi → ℕ → Pi
pi_at [] i = record { is_open = false; fd = 0 }
pi_at (p ∷ ps) zero = p
pi_at (p ∷ ps) (suc i) = pi_at ps i

-- `++selected_pi; if(selected_pi == npies) selected_pi = 0;`, where -1 is a word.
abbrev pub step_pi : ℕ → ℕ → ℕ
step_pi npies i = if u32 (i + 1) == npies then 0 else u32 (i + 1)

-- The loop that selects a pi behind `prev_pi`, with a bound on its rounds.
unfoldable pub select_pi : ℕ → List Pi → ℕ → ℕ → ℕ → Option ℕ
select_pi zero pies npies prev i = none
select_pi (suc n) pies npies prev i =
    let j = step_pi npies i in
    let rest = select_pi n pies npies prev j in
    if j == prev || (pi_at pies j).is_open then some j else rest

-- `reap_pi`
unfoldable pub reap_pi : List Pi → ℕ → List Pi
reap_pi [] i = []
reap_pi (p ∷ ps) zero = record p { is_open = false } ∷ ps
reap_pi (p ∷ ps) (suc i) = p ∷ reap_pi ps i
