-- ===== src/Output/Panic.antt =====
-- `panic` of pi-src/error.c, and what the mac makes of it.
use mathlib.Core.List.{flatten}
use rpi0_naivegfs.Base.{
  ℕ, ◌≤◌, ◌≡◌, inl, inr, if◌then◌else◌, ◌==◌, List, [], ◌∷◌, ◌++◌, Prog, done, halted, modify, halt,
  ◌>>◌, length,
}
use rpi0_naivegfs.Output.{exit_text}
use rpi0_naivegfs.Output.Loop.{Os, Console, reap, drain}
use rpi0_naivegfs.Output.Found.{Holds}
use rpi0_naivegfs.Output.Drained.{Feeds, taken, drain-Holds}

-- `for(; *p; ++p)`
unfoldable pub characters : List ℕ → List ℕ
characters [] = []
characters (c ∷ cs) = if c == 0 then [] else c ∷ characters cs

-- `putk`, on what the pi has printed.
unfoldable pub putk : List ℕ → Prog (List ℕ) (Unit {0})
putk p = modify (λ printed. printed ++ characters p)

unfoldable pub panic : List ℕ → Prog (List ℕ) (Unit {0})
panic msg = do
  putk (b'P' ∷ b'A' ∷ b'N' ∷ b'I' ∷ b'C' ∷ b':' ∷ b' ' ∷ [])
  putk msg
  putk exit_text
  halt

panic-Holds : (msg printed text : List ℕ) → panic msg printed ≡ halted text → Holds text
unfolding panic putk characters
panic-Holds msg printed text e =
    ((printed ++ (b'P' ∷ b'A' ∷ b'N' ∷ b'I' ∷ b'C' ∷ b':' ∷ b' ' ∷ [])) ++ characters msg, [], cc e)

module _ {World : Type 0} (os : Os World) (j fd : ℕ) where
  -- What a pi has printed when `panic` halts it, after whatever it printed before and with any message,
  -- makes the mac close it: let the system give that text in reads, however it is cut, each time with
  -- more in time, let there be a round for each read, and let the search for the exit string be at its
  -- start. Then the draining of the pi ends with a read by which the data is written, and the pi is closed.
  pub drain-panic :
      (msg printed text : List ℕ) (ds : List (List ℕ)) (m : ℕ) (s : Console World) (w : World)
      → panic msg printed ≡ halted text
      → flatten ds ≡ text
      → Feeds os j fd s.world ds w
      → length ds ≤ m
      → s.idx ≡ 0
      → (before : List (List ℕ)) × (d : List ℕ) × (after : List (List ℕ)) × (u : World) × (ds
          ≡ before ++ (d ∷ after))
        × (drain os m j fd s ≡ done tt (reap os j (taken os j fd (before ++ (d ∷ [])) 8 u s)))
  drain-panic msg printed text ds m s w stops same feeds enough start =
      let holds : Holds (flatten ds) = rw same (panic-Holds msg printed text stops) in
      elim (drain-Holds os j fd ds m s w feeds enough start) [
        | inl (before, d, after, u, cut, not_yet, found, r) ↦ (before, d, after, u, cut, r)
        | inr (fails, n, i, left, r) ↦ absurd (fails holds)
      ]
