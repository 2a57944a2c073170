-- ===== src/Fat32/Directory/Lookup.antt =====
-- `fat32_get_cluster_no` against the list of all records of the root directory, and how the loop
-- over a directory's clusters ends.
use rpi0_naivegfs.Base.{
  ℕ, zero, suc, ◌+◌, ◌^◌, ◌<◌, ◌≡◌, ◌≢◌, refl, ◌∙◌, true, inl, inr, Bool-cases, Option-cases,
  Option, none, some, List, [], ◌∷◌, ◌++◌, Prog, Outcome, and_then, done, halted, running, pure,
  length, minus_one, arith, ne→not_==,
}
use mathlib.Core.List.{append-nil}
use rpi0_naivegfs.Fat32.Layout.{DirRecord, cluster_no, fat32_root_cluster_no}
use rpi0_naivegfs.Fat32.State.{SectorDevice, Fs, sectors_per_cluster}
use rpi0_naivegfs.Fat32.Table.{fat32_next_cluster}
use rpi0_naivegfs.Fat32.Directory.{
  Walk, found, ended, read_records, walk_sectors, walk_directory, after_sectors, search_records,
  fat32_get_cluster_no,
}

-- The table leads from c through the clusters of the list, its top four bits aside.
abbrev pub IsPath : (ℕ → ℕ) → ℕ → List ℕ → Type 0
IsPath f c [] = Unit
IsPath f c (d ∷ ds) = (cluster_no (f c) ≡ d) × IsPath f d ds

-- What the first list returns, or else what is returned behind it.
abbrev pub or_else : Option ℕ → Option ℕ → Option ℕ
or_else (some a) o = some a
or_else none o = o

pub search_records-append :
    (name : List ℕ) (xs ys : List DirRecord)
    → search_records name (xs ++ ys) ≡ or_else (search_records name xs) (search_records name ys)
unfolding search_records
search_records-append name [] ys = refl
search_records-append name (r ∷ xs) ys = ground (arith, search_records-append name xs ys)

pub fat32_next_cluster_lem :
    {Store : Type 0} (s : Fs Store) (c : ℕ)
    → s.did_init ≡ true
    → fat32_next_cluster c s ≡ done (cluster_no (s.fat c)) s
unfolding fat32_next_cluster
fat32_next_cluster_lem s c ready = simp ready

module _ {Store : Type 0} (dev : SectorDevice Store) where
  -- The records of n sectors of a cluster from the sector k on.
  unfoldable pub cluster_records : Fs Store → ℕ → ℕ → ℕ → List DirRecord
  cluster_records s c zero k = []
  cluster_records s c (suc n) k = read_records dev s c k ++ cluster_records s c n (k + 1)

  -- The records of a chain of clusters.
  unfoldable pub directory_records : Fs Store → List ℕ → List DirRecord
  directory_records s [] = []
  directory_records s (c ∷ cs) =
      cluster_records s c (sectors_per_cluster s) 0 ++ directory_records s cs

  -- The body of the search, as `walk_directory` takes it.
  abbrev look : List ℕ → ℕ → ℕ → List DirRecord → Prog (Fs Store) (Option ℕ)
  look name c k records = pure (search_records name records)

  walk_sectors-search :
      (name : List ℕ) (n k c : ℕ) (records : List DirRecord) (s : Fs Store)
      → (now : List DirRecord) × (walk_sectors dev (look name) n k c records s
          ≡ done (search_records name (cluster_records s c n k), now) s)
  unfolding walk_sectors cluster_records
  walk_sectors-search name zero k c records s = (records, unfold search_records in refl)
  walk_sectors-search name (suc n) k c records s =
      let now = read_records dev s c k in
      let rest = walk_sectors-search name n (k + 1) c now s in
      elim (Option-cases (search_records name now)) [
        | inl e ↦ (rest.0, rw (search_records-append, e) rest.1)
        | inr (a, e) ↦ (now, rw (search_records-append, e))
      ]

  -- One round of the loop over clusters: the search ends in the cluster c, or goes on behind it.
  walk_directory-found :
      (name : List ℕ) (n c prev : ℕ) (records : List DirRecord) (s : Fs Store) {x : ℕ}
      → c ≢ minus_one
      → search_records name (cluster_records s c (sectors_per_cluster s) 0) ≡ some x
      → walk_directory dev (look name) (suc n) c prev records s ≡ done (found x) s
  unfolding walk_directory
  walk_directory-found name n c prev records s real e = rw (
    ne→not_== c minus_one real,
    (walk_sectors-search name (sectors_per_cluster s) 0 c records s).1,
    e,
  )

  walk_directory-next :
      (name : List ℕ) (n c prev : ℕ) (records : List DirRecord) (s : Fs Store)
      → s.did_init ≡ true
      → c ≢ minus_one
      → search_records name (cluster_records s c (sectors_per_cluster s) 0) ≡ none
      → (now : List DirRecord) × (walk_directory dev (look name) (suc n) c prev records s
          ≡ walk_directory dev (look name) n (cluster_no (s.fat c)) c now s)
  unfolding walk_directory
  walk_directory-next name n c prev records s ready real e =
      let sectors = walk_sectors-search name (sectors_per_cluster s) 0 c records s in
      (sectors.0, rw (ne→not_== c minus_one real, sectors.1, e, fat32_next_cluster_lem s c ready))

  walk_directory-search :
      (name : List ℕ) (n c prev : ℕ) (cs : List ℕ) (records : List DirRecord) (s : Fs Store) {x : ℕ}
      → s.did_init ≡ true
      → c ≢ minus_one
      → IsPath s.fat c cs
      → length cs < n
      → search_records name (directory_records s (c ∷ cs)) ≡ some x
      → walk_directory dev (look name) n c prev records s ≡ done (found x) s
  unfolding directory_records
  walk_directory-search name zero c prev cs records s ready real path fuel e = absurd (omega arith)
  walk_directory-search name (suc n) c prev [] records s ready real path fuel e =
      walk_directory-found name n c prev records s real (rw append-nil at e)
  walk_directory-search name (suc n) c prev (d ∷ ds) records s ready real path fuel e =
      let e' = rw search_records-append at e in
      elim (Option-cases (search_records name (cluster_records s c (sectors_per_cluster s) 0))) [
        | inl miss ↦
            let (now, next) = walk_directory-next name n c prev records s ready real miss in
            let here : d < 2 ^ 28 = omega (arith, path.0) in
            next
            ∙ (rw path.0 (
                walk_directory-search name n d c ds now s ready (omega arith) path.1 (omega arith)
                  (rw miss at e')))
        | inr (a, hit) ↦ walk_directory-found name n c prev records s real (hit ∙ (rw hit at e'))
      ]

  -- Once initialised, `fat32_get_cluster_no` returns the search's result in the list of all records
  -- of the root directory, in order, if there is one: the first cluster of the first record that
  -- matches the name, or -1 if the terminal stands before it. One round for each cluster is enough.
  pub fat32_get_cluster_no-search :
      (name : List ℕ) (n : ℕ) (cs : List ℕ) (s : Fs Store) {x : ℕ}
      → s.did_init ≡ true
      → IsPath s.fat fat32_root_cluster_no cs
      → length cs < n
      → search_records name (directory_records s (fat32_root_cluster_no ∷ cs)) ≡ some x
      → fat32_get_cluster_no dev n name s ≡ done x s
  unfolding fat32_get_cluster_no
  fat32_get_cluster_no-search name n cs s ready path fuel e =
      simp (ready, walk_directory-search name n 2 2 cs [] s ready (omega arith) path fuel e)

  -- A cluster number that `fat32_next_cluster` returns is never -1.
  next-ne-minus_one : (f : ℕ → ℕ) (c : ℕ) → cluster_no (f c) ≢ minus_one
  next-ne-minus_one f c = omega arith

  -- What follows the sectors of a cluster does not end the loop either, if the next round does not.
  ended_from_sectors :
      {A : Type 0} (go : ℕ → List DirRecord → Prog (Fs Store) (Walk A)) (c c' prev' : ℕ)
      (records' : List DirRecord) (t : Fs Store)
      (o : Outcome (Fs Store) (Option A × List DirRecord))
      → ((next : ℕ) (now : List DirRecord) (u : Fs Store)
          → next ≢ minus_one
          → go next now u ≢ done (ended c' prev' records') t)
      → and_then o (after_sectors go c) ≢ done (ended c' prev' records') t
  unfolding after_sectors fat32_next_cluster
  ended_from_sectors go c c' prev' records' t (done (some a, now) u) ih e = cc e
  ended_from_sectors go c c' prev' records' t (done (none, now) u) ih e =
      elim (Bool-cases u.did_init) [
        | inl ready ↦ ih (cluster_no (u.fat c)) now u (next-ne-minus_one u.fat c) (simp ready at e)
        | inr unready ↦ let e' = simp unready at e in cc e'
      ]
  ended_from_sectors go c c' prev' records' t (halted u) ih e = cc e
  ended_from_sectors go c c' prev' records' t (running u) ih e = cc e

  -- The loop over the clusters of a directory, started at a cluster that is not -1, never ends by its
  -- own test, whatever the body does and however long it runs: it tests for -1, and no successor of a
  -- cluster is -1.
  pub walk_directory-ne-ended :
      {A : Type 0} (visit : ℕ → ℕ → List DirRecord → Prog (Fs Store) (Option A)) (n c prev : ℕ)
      (records : List DirRecord) (s t : Fs Store) (c' prev' : ℕ) (records' : List DirRecord)
      → c ≢ minus_one
      → walk_directory dev visit n c prev records s ≢ done (ended c' prev' records') t
  unfolding walk_directory
  walk_directory-ne-ended visit zero c prev records s t c' prev' records' real e = cc e
  walk_directory-ne-ended visit (suc n) c prev records s t c' prev' records' real e =
      ended_from_sectors (λ next now. walk_directory dev visit n next c now) c c' prev' records' t
        (walk_sectors dev visit (sectors_per_cluster s) 0 c records s)
        (λ next now u nz. walk_directory-ne-ended visit n next c now u t c' prev' records' nz)
        (rw (ne→not_== c minus_one real) at e)
