-- ===== src/Output/Drained.antt =====
-- What `get_pi_output` does with one pi, whose output comes in reads.
use mathlib.Core.List.{append_assoc, append-nil, flatten}
use rpi0_naivegfs.Base.{
  ℕ, zero, suc, ◌+◌, ◌≤◌, ◌≡◌, ◌⊎◌, inl, inr, refl, sym, ap, ◌∙◌, true, false, some, List, [], ◌∷◌,
  ◌++◌, done, length, arith,
}
use rpi0_naivegfs.Output.{scan_data, scan_reads}
use rpi0_naivegfs.Output.Cuts.{
  scan_data-cases, missing, no_match, match, scan_reads_on, scan_reads_end, scan_reads-none, Cut,
}
use rpi0_naivegfs.Output.Loop.{bytes, Os, Console, reap, after_scan, after_read, drain}
use rpi0_naivegfs.Output.Found.{Holds, unmatched, scan_reads-Holds}

module _ {World : Type 0} (os : Os World) (j fd : ℕ) where
  -- The system gives this data, read by read, and each time says that there is more in time.
  abbrev pub Feeds : World → List (List ℕ) → World → Type 0
  Feeds w [] w' = w ≡ w'
  Feeds w (d ∷ ds) w' =
      (u v : World) × (os.read fd w ≡ (bytes d, u))
      × (os.select_one fd u ≡ (true, v))
      × Feeds v ds w'

  -- The state when the data is read.
  abbrev pub taken : List (List ℕ) → ℕ → World → Console World → Console World
  taken ds i w s = record s { idx = i; written = s.written ++ flatten ds; world = w }

  drain_step :
      (n : ℕ) (d : List ℕ) (u : World) (s : Console World)
      → os.read fd s.world ≡ (bytes d, u)
      → drain os (suc n) j fd s
        ≡ after_scan os (drain os n j fd) j fd d (scan_data d s.idx) (record s { world = u })
  unfolding drain after_read
  drain_step n d u s e = rw e

  drain_on :
      (n i : ℕ) (d : List ℕ) (u v : World) (s : Console World)
      → os.read fd s.world ≡ (bytes d, u)
      → os.select_one fd u ≡ (true, v)
      → scan_data d s.idx ≡ some (i, false)
      → drain os (suc n) j fd s
        ≡ drain os n j fd (record s { idx = i; written = s.written ++ d; world = v })
  unfolding after_scan
  drain_on n i d u v s e late run = drain_step n d u s e ∙ rw (run, late)

  drain_end :
      (n i : ℕ) (d : List ℕ) (u : World) (s : Console World)
      → os.read fd s.world ≡ (bytes d, u)
      → scan_data d s.idx ≡ some (i, true)
      → drain os (suc n) j fd s
        ≡ done tt (reap os j (record s { idx = i; written = s.written ++ d; world = u }))
  unfolding after_scan
  drain_end n i d u s e run = drain_step n d u s e ∙ rw run

  -- Rounds for some reads, and n more.
  abbrev rounds : List (List ℕ) → ℕ → ℕ
  rounds [] n = n
  rounds (d ∷ ds) n = suc (rounds ds n)

  -- Data in front of what is read next.
  taken-cons :
      (d : List ℕ) (ds : List (List ℕ)) (i k : ℕ) (v w : World) (s : Console World)
      → taken ds i w (record s { idx = k; written = s.written ++ d; world = v })
        ≡ taken (d ∷ ds) i w s
  unfolding flatten
  taken-cons d ds i k v w s =
      ap (λ t. record s { idx = i; written = t; world = w }) (append_assoc s.written d (flatten ds))

  -- Reads without a match.
  drain-on_reads :
      (ds : List (List ℕ)) (n i : ℕ) (s : Console World) (w : World)
      → Feeds s.world ds w
      → scan_reads ds s.idx ≡ some (i, false)
      → drain os (rounds ds n) j fd s ≡ drain os n j fd (taken ds i w s)
  unfolding scan_reads flatten
  drain-on_reads [] n i s w at run =
      let same : s.idx ≡ i = cc run in
      let all : s.written ≡ s.written ++ [] = sym (append-nil s.written) in
      λ x. drain os n j fd (record s { idx = same x; written = all x; world = at x })
  drain-on_reads (d ∷ ds) n i s w (u, v, e, late, rest) run = elim (scan_data-cases d s.idx) [
    | inl o ↦ absurd (missing (sym (scan_reads-none d ds s.idx o) ∙ run))
    | inr (inl (k, o)) ↦ absurd (unmatched (sym run ∙ scan_reads_end d ds s.idx k o))
    | inr (inr (k, o)) ↦
        let t = record s { idx = k; written = s.written ++ d; world = v } in
        drain_on (rounds ds n) k d u v s e late o
        ∙ drain-on_reads ds n i t w rest (sym (scan_reads_on d ds s.idx k o) ∙ run)
        ∙ ap (drain os n j fd) (taken-cons d ds i k v w s)
  ]

  drain-match :
      (ds : List (List ℕ)) (n i : ℕ) (s : Console World) (w : World)
      → Feeds s.world ds w
      → scan_reads ds s.idx ≡ some (i, true)
      → (c : Cut ds s.idx i) × (u : World) × (drain os (rounds ds n) j fd s
          ≡ done tt (reap os j (taken (c.0 ++ (c.1 ∷ [])) i u s)))
  unfolding scan_reads flatten
  drain-match [] n i s w at run = absurd (unmatched run)
  drain-match (d ∷ ds) n i s w (u, v, e, late, rest) run = elim (scan_data-cases d s.idx) [
    | inl o ↦ absurd (missing (sym (scan_reads-none d ds s.idx o) ∙ run))
    | inr (inl (k, o)) ↦
        let last : scan_data d s.idx ≡ some (i, true) =
          rw (sym (scan_reads_end d ds s.idx k o) ∙ run) at o in
        (
          ([], d, ds, s.idx, refl, refl, scan_reads_end d [] s.idx i last),
          u,
          drain_end (rounds ds n) i d u s e last
              ∙ ap
                  (λ t.
                    done tt (reap os j (record s { idx = i; written = s.written ++ t; world = u })))
                  (sym (append-nil d)),
        )
    | inr (inr (k, o)) ↦
        let t = record s { idx = k; written = s.written ++ d; world = v } in
        let ((before, d', after, k', same, on, hit), u', r) =
          drain-match ds n i t w rest (sym (scan_reads_on d ds s.idx k o) ∙ run) in
        (
          (
            d ∷ before,
            d',
            after,
            k',
            ap (λ l. d ∷ l) same,
            scan_reads_on d before s.idx k o ∙ on,
            scan_reads_on d (before ++ (d' ∷ [])) s.idx k o ∙ hit,
          ),
          u',
          drain_on (rounds ds n) k d u v s e late o
              ∙ r
              ∙ ap (λ c. done tt (reap os j c)) (taken-cons d (before ++ (d' ∷ [])) i k v u' s),
        )
  ]

  rounds_enough :
      (ds : List (List ℕ)) (m : ℕ)
      → length ds ≤ m
      → (n : ℕ) × (m ≡ rounds ds n) × (m ≡ length ds + n)
  rounds_enough [] m h = (m, refl, omega arith)
  rounds_enough (d ∷ ds) zero h = absurd (omega arith)
  rounds_enough (d ∷ ds) (suc m) h =
      let (n, e, c) = rounds_enough ds m (omega arith) in (n, ap suc e, omega arith)

  -- From the start of the exit string, let the system give data in reads, each time with more in time,
  -- and let there be a round for each read. If the data contains the exit string, the draining of the pi
  -- ends with the read that completes it for the first time: the data up to the end of that read is
  -- written, and the pi is closed. Else all of the data is written, and the draining goes on with what
  -- comes next.
  pub drain-Holds :
      (ds : List (List ℕ)) (m : ℕ) (s : Console World) (w : World)
      → Feeds s.world ds w
      → length ds ≤ m
      → s.idx ≡ 0
      → ((before : List (List ℕ)) × (d : List ℕ) × (after : List (List ℕ)) × (u : World) × (ds
            ≡ before ++ (d ∷ after))
          × (¬ Holds (flatten before))
          × Holds (flatten (before ++ (d ∷ [])))
          × (drain os m j fd s ≡ done tt (reap os j (taken (before ++ (d ∷ [])) 8 u s))))
        ⊎ ((¬ Holds (flatten ds))
            × (n : ℕ) × (i : ℕ) × (m ≡ length ds + n)
            × (drain os m j fd s ≡ drain os n j fd (taken ds i w s)))
  drain-Holds ds m s w feeds enough start =
      let (n, e, c) = rounds_enough ds m enough in
      elim (scan_reads-Holds ds) [
        | inl (run, holds) ↦
            let ((before, d, after, k, same, on, hit), u, r) =
              drain-match ds n 8 s w feeds (ap (scan_reads ds) start ∙ run) in
            inl (
              before,
              d,
              after,
              u,
              same,
              no_match before k (ap (scan_reads before) (sym start) ∙ on),
              match (before ++ (d ∷ [])) 8 (ap (scan_reads (before ++ (d ∷ []))) (sym start) ∙ hit),
              ap (λ l. drain os l j fd s) e ∙ r,
            )
        | inr (i, small, run, fails) ↦ inr (
          fails,
          n,
          i,
          c,
          ap (λ l. drain os l j fd s) e
              ∙ drain-on_reads ds n i s w feeds (ap (scan_reads ds) start ∙ run),
        )
      ]
