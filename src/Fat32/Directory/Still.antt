-- ===== src/Fat32/Directory/Still.antt =====
-- Files that `fat32_get_cluster_no` found before a file was put in the directory.
use rpi0_naivegfs.Base.{
  ℕ, zero, suc, ◌+◌, ◌≤◌, ◌<◌, ◌≡◌, ◌≢◌, refl, ap, ◌∙◌, true, false, inl, inr, Bool, ◌||◌,
  Bool-cases, Option-cases, ◌==◌, ==→eq, not_==→ne, some, List, ◌∷◌, ◌++◌, minus_one, arith,
}
use rpi0_naivegfs.Fat32.Layout.{DirRecord, is_lfn, is_terminal}
use rpi0_naivegfs.Fat32.State.{SectorDevice, Fs, sectors_per_cluster}
use rpi0_naivegfs.Fat32.Directory.{read_records, search_records}
use rpi0_naivegfs.Fat32.Directory.Listing.{has_terminal}
use rpi0_naivegfs.Fat32.Directory.Lookup.{search_records-append, cluster_records, directory_records}
use rpi0_naivegfs.Fat32.Directory.Insert.{has_terminal-append}
use rpi0_naivegfs.Fat32.Directory.Place.{Located, here, behind, quiet_sector, has_terminal-quiet}
use rpi0_naivegfs.Fat32.Directory.Created.{AllUsed, Located-IsSpot, cluster_records-kept}

-- A file that the search finds in the first list is found in the second.
abbrev pub IsStill : List ℕ → List DirRecord → List DirRecord → Type 0
IsStill other rs ts =
    (y : ℕ) → search_records other rs ≡ some y → y ≢ minus_one → search_records other ts ≡ some y

-- A search that a terminal ends has a result.
pub search-terminal :
    (other : List ℕ) (rs : List DirRecord)
    → has_terminal rs ≡ true
    → (y : ℕ) × (search_records other rs ≡ some y)
search-terminal other rs h = elim (Option-cases (search_records other rs)) [
  | inl quiet ↦ absurd (cc (h, has_terminal-quiet other rs quiet))
  | inr found ↦ found
]

-- A file in front of a terminal is found there, whatever follows.
pub append-IsStill :
    (other : List ℕ) (pre post after : List DirRecord) (r : DirRecord)
    → is_lfn r ≡ false
    → is_terminal r ≡ true
    → IsStill other (pre ++ (r ∷ post)) (pre ++ after)
unfolding search_records
append-IsStill other pre post after r file ends y found real =
    let e = rw (search_records-append, file, ends) at found in
    elim (Option-cases (search_records other pre)) [
      | inl quiet ↦ absurd (real (cc (rw quiet at e)))
      | inr (z, hit) ↦ rw (search_records-append, hit) (rw hit at e)
    ]

-- Lists that are passed to the same end.
front-IsStill :
    (other : List ℕ) (now rest ts : List DirRecord)
    → IsStill other rest ts
    → IsStill other (now ++ rest) (now ++ ts)
front-IsStill other now rest ts still y found real =
    let e = rw search_records-append at found in
    elim (Option-cases (search_records other now)) [
      | inl quiet ↦ rw (search_records-append, quiet) (still y (rw quiet at e) real)
      | inr (z, hit) ↦ rw (search_records-append, hit) (rw hit at e)
    ]

-- A list with a terminal is searched to no further end.
back-IsStill :
    (other : List ℕ) (rs ts rest more : List DirRecord)
    → has_terminal rs ≡ true
    → IsStill other rs ts
    → IsStill other (rs ++ rest) (ts ++ more)
back-IsStill other rs ts rest more ends still y found real =
    let (z, hit) = search-terminal other rs ends in
    let e = rw (search_records-append, hit) at found in
    let same : z ≡ y = cc e in rw (search_records-append, still y (hit ∙ ap some same) real)

or_true : (b : Bool) → (b || true) ≡ true
or_true true = refl
or_true false = refl

module _ {Store : Type 0} (dev : SectorDevice Store) where
  -- The sector k is the first that changes, and holds a terminal.
  cluster-IsStill :
      (other : List ℕ) (d k n j : ℕ) (s t : Fs Store)
      → j ≤ k
      → k < j + n
      → has_terminal (read_records dev s d k) ≡ true
      → ((i : ℕ) → i < k → read_records dev t d i ≡ read_records dev s d i)
      → IsStill other (read_records dev s d k) (read_records dev t d k)
      → IsStill other (cluster_records dev s d n j) (cluster_records dev t d n j)
  unfolding cluster_records
  cluster-IsStill other d k zero j s t lo hi ends kept still = absurd (omega arith)
  cluster-IsStill other d k (suc n) j s t lo hi ends kept still =
      let rest = cluster_records dev s d n (j + 1) in
      let more = cluster_records dev t d n (j + 1) in
      elim (Bool-cases (j == k)) [
        | inl at ↦ rw (==→eq j k at) (
            back-IsStill other (read_records dev s d k) (read_records dev t d k)
              (cluster_records dev s d n (k + 1)) (cluster_records dev t d n (k + 1)) ends still)
        | inr before ↦ rw (kept j (omega (arith, not_==→ne j k before))) (
            front-IsStill other (read_records dev s d j) rest more (
              cluster-IsStill other d k n (j + 1) s t (omega (arith, not_==→ne j k before))
                (omega arith) ends kept still))
      ]

  has_terminal-cluster :
      (d k n j : ℕ) (s : Fs Store)
      → j ≤ k
      → k < j + n
      → has_terminal (read_records dev s d k) ≡ true
      → has_terminal (cluster_records dev s d n j) ≡ true
  unfolding cluster_records
  has_terminal-cluster d k zero j s lo hi ends = absurd (omega arith)
  has_terminal-cluster d k (suc n) j s lo hi ends = elim (Bool-cases (j == k)) [
    | inl at ↦ rw (==→eq j k at, has_terminal-append, ends)
    | inr before ↦
        rw
          (
            has_terminal-append,
            has_terminal-cluster d k n (j + 1) s (omega (arith, not_==→ne j k before)) (omega arith)
                ends,
          )
          (or_true (has_terminal (read_records dev s d j)))
  ]

  -- Where nothing before the spot changes, and every file of the spot's sector is still found there,
  -- every file of the directory is still found.
  pub directory-IsStill :
      (name other : List ℕ) (s t : Fs Store) (d k c : ℕ) (cs : List ℕ)
      → Located dev name s d k c cs
      → AllUsed s (c ∷ cs)
      → sectors_per_cluster t ≡ sectors_per_cluster s
      → ((e i : ℕ)
          → 2 ≤ e
          → e < s.fat_end
          → s.fat e ≢ 0
          → e ≢ d
          → i < sectors_per_cluster s
          → read_records dev t e i ≡ read_records dev s e i)
      → ((i : ℕ) → i < k → read_records dev t d i ≡ read_records dev s d i)
      → IsStill other (read_records dev s d k) (read_records dev t d k)
      → IsStill other (directory_records dev s (c ∷ cs)) (directory_records dev t (c ∷ cs))
  unfolding directory_records
  directory-IsStill name other s t d k c cs (here spot) used count kept kept_d still =
      let n = sectors_per_cluster s in
      rw count (
        back-IsStill other (cluster_records dev s d n 0) (cluster_records dev t d n 0)
          (directory_records dev s cs) (directory_records dev t cs)
          (has_terminal-cluster d k n 0 s (omega arith) (omega (arith, spot.inside)) spot.free)
          (cluster-IsStill other d k n 0 s t (omega arith) (omega (arith, spot.inside)) spot.free
            kept_d still))
  directory-IsStill name other s t d k c (c2 ∷ cs) (behind quiet place) used count kept kept_d
        still =
      let spot = Located-IsSpot dev name s d k c2 cs place in
      let ne : c ≢ d = λ e. cc (
        quiet_sector dev name s c (sectors_per_cluster s) 0 k quiet (omega arith)
            (omega (arith, spot.inside)),
        spot.free,
        e,
      ) in
      let same =
        cluster_records-kept dev c (sectors_per_cluster s) 0 s t
          (λ i h. kept c i used.0 used.1 used.2 ne (omega arith)) in
      rw (count, same)
        (front-IsStill other (cluster_records dev s c (sectors_per_cluster s) 0)
          (directory_records dev s (c2 ∷ cs)) _
          (rw count at
            (directory-IsStill name other s t d k c2 cs place used.3 count kept kept_d still)))
