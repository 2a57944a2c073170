-- ===== src/Fat32/Directory/Place.antt =====
-- Where the first free record of a directory stands.
use rpi0_naivegfs.Base.{
  ℕ, zero, suc, ◌+◌, ◌≤◌, ◌<◌, ◌≡◌, refl, Bool, true, false, inl, inr, Bool-cases, ◌&&◌, not, ◌==◌,
  not_==→ne, ==→eq, Option, none, some, List, [], ◌∷◌, ◌++◌, arith,
}
use mathlib.Core.List.{append-nil}
use rpi0_naivegfs.Strings.{strncmp}
use rpi0_naivegfs.Fat32.Layout.{DirRecord}
use rpi0_naivegfs.Fat32.State.{SectorDevice, Fs, sectors_per_cluster}
use rpi0_naivegfs.Fat32.Directory.{read_records, search_records}
use rpi0_naivegfs.Fat32.Directory.Listing.{listed, has_terminal}
use rpi0_naivegfs.Fat32.Directory.Lookup.{
  or_else, search_records-append, cluster_records, directory_records,
}
use rpi0_naivegfs.Fat32.Directory.Insert.{has_terminal-append}

-- No file of the list has a name that compares equal.
abbrev pub unlisted : List ℕ → List DirRecord → Bool
unlisted name [] = true
unlisted name (r ∷ rs) = not (strncmp r.dir_name name 11 == 0) && unlisted name rs

-- Records without a terminal and without the name are passed by the search, and only these.
pub search_records-quiet :
    (name : List ℕ) (rs : List DirRecord)
    → has_terminal rs ≡ false
    → unlisted name (listed rs) ≡ true
    → search_records name rs ≡ none
unfolding search_records
search_records-quiet name [] h u = refl
search_records-quiet name (r ∷ rs) h u = ground (arith, search_records-quiet name rs)

pub has_terminal-quiet :
    (name : List ℕ) (rs : List DirRecord) → search_records name rs ≡ none → has_terminal rs ≡ false
unfolding search_records
has_terminal-quiet name [] e = refl
has_terminal-quiet name (r ∷ rs) e = ground (arith, has_terminal-quiet name rs)

-- A list without a terminal hands the rest of the list on.
pub unlisted-append :
    (name : List ℕ) (xs ys : List DirRecord)
    → has_terminal xs ≡ false
    → unlisted name (listed (xs ++ ys)) ≡ (unlisted name (listed xs) && unlisted name (listed ys))
unlisted-append name [] ys h = refl
unlisted-append name (r ∷ xs) ys h = ground (arith, unlisted-append name xs ys)

pub listed-append_terminal :
    (xs ys : List DirRecord) → has_terminal xs ≡ true → listed (xs ++ ys) ≡ listed xs
listed-append_terminal [] ys h = absurd (cc h)
listed-append_terminal (r ∷ xs) ys h = ground (arith, listed-append_terminal xs ys)

module _ {Store : Type 0} (dev : SectorDevice Store) (name : List ℕ) (s : Fs Store) where
  -- The sector k of the cluster d holds the first terminal of the cluster, and no record of the name
  -- stands before it.
  pub record IsSpot (d k : ℕ) : Type 0 where
    pub inside : k < sectors_per_cluster s
    pub before : search_records name (cluster_records dev s d k 0) ≡ none
    pub free : has_terminal (read_records dev s d k) ≡ true
    pub no_such : unlisted name (listed (read_records dev s d k)) ≡ true

  -- The spot stands in the cluster c or behind it in the chain, and is the first.
  pub data Located (d k : ℕ) : ℕ → List ℕ → Type 0 where
    here : {cs : List ℕ} → IsSpot d k → Located d k d cs
    behind :
        {c c2 : ℕ} {cs : List ℕ}
        → search_records name (cluster_records dev s c (sectors_per_cluster s) 0) ≡ none
        → Located d k c2 cs
        → Located d k c (c2 ∷ cs)

  locate_sector :
      (c n j : ℕ)
      → has_terminal (cluster_records dev s c n j) ≡ true
      → unlisted name (listed (cluster_records dev s c n j)) ≡ true
      → (i : ℕ) × (i < n)
        × (search_records name (cluster_records dev s c i j) ≡ none)
        × (has_terminal (read_records dev s c (j + i)) ≡ true)
        × (unlisted name (listed (read_records dev s c (j + i))) ≡ true)
  unfolding cluster_records
  locate_sector c zero j h u = absurd (cc h)
  locate_sector c (suc n) j h u =
      let now = read_records dev s c j in
      let rest = cluster_records dev s c n (j + 1) in
      elim (Bool-cases (has_terminal now)) [
        | inl free ↦
            let at : j + 0 ≡ j = omega arith in
            (
              0,
              omega arith,
              unfold search_records in refl,
              rw (at, free),
              rw at (rw (listed-append_terminal now rest free) at u),
            )
        | inr full ↦
            let parts = rw (unlisted-append name now rest full) at u in
            let (i, small, before, free, no_such) =
              locate_sector c n (j + 1) (rw (has_terminal-append, full) at h) (ground arith) in
            let at : j + suc i ≡ j + 1 + i = omega arith in
            (
              suc i,
              omega arith,
              rw (search_records-append, search_records-quiet name now full (ground arith)) before,
              rw at free,
              rw at no_such,
            )
      ]

  locate_here :
      (c : ℕ) (cs : List ℕ)
      → has_terminal (cluster_records dev s c (sectors_per_cluster s) 0) ≡ true
      → unlisted name (listed (directory_records dev s (c ∷ cs))) ≡ true
      → (d : ℕ) × (k : ℕ) × IsSpot d k × Located d k c cs
  unfolding directory_records
  locate_here c cs free u =
      let records = cluster_records dev s c (sectors_per_cluster s) 0 in
      let u' = rw (listed-append_terminal records (directory_records dev s cs) free) at u in
      let (i, small, before, terminal, no_such) =
        locate_sector c (sectors_per_cluster s) 0 free u' in
      let at : 0 + i ≡ i = omega arith in
      let spot : IsSpot c i = record {
        inside = small;
        before = before;
        free = rw at at terminal;
        no_such = rw at at no_such;
      } in
      (c, i, spot, here spot)

  -- A terminal in a chain stands at a spot, if no file before it has the name.
  pub locate :
      (c : ℕ) (cs : List ℕ)
      → has_terminal (directory_records dev s (c ∷ cs)) ≡ true
      → unlisted name (listed (directory_records dev s (c ∷ cs))) ≡ true
      → (d : ℕ) × (k : ℕ) × IsSpot d k × Located d k c cs
  unfolding directory_records
  locate c [] h u = locate_here c [] (rw append-nil at h) u
  locate c (c2 ∷ cs) h u =
      let records = cluster_records dev s c (sectors_per_cluster s) 0 in
      elim (Bool-cases (has_terminal records)) [
        | inl free ↦ locate_here c (c2 ∷ cs) free u
        | inr full ↦
            let parts =
              rw (unlisted-append name records (directory_records dev s (c2 ∷ cs)) full) at u in
            let (d, k, spot, place) =
              locate c2 cs (rw (has_terminal-append, full) at h) (ground arith) in
            (d, k, spot, behind (search_records-quiet name records full (ground arith)) place)
      ]

  -- Both parts of a list are passed where the list is.
  pub quiet-append :
      (xs ys : List DirRecord)
      → search_records name (xs ++ ys) ≡ none
      → (search_records name xs ≡ none) × (search_records name ys ≡ none)
  quiet-append xs ys quiet = or_else_none _ _ (rw search_records-append at quiet)
    where
      or_else_none : (a b : Option ℕ) → or_else a b ≡ none → (a ≡ none) × (b ≡ none)
      or_else_none none b e = (refl, e)
      or_else_none (some x) b e = cc e

  -- A terminal is in no cluster that the search passes.
  pub quiet_sector :
      (e n j k : ℕ)
      → search_records name (cluster_records dev s e n j) ≡ none
      → j ≤ k
      → k < j + n
      → has_terminal (read_records dev s e k) ≡ false
  unfolding cluster_records
  quiet_sector e zero j k quiet lo hi = absurd (omega arith)
  quiet_sector e (suc n) j k quiet lo hi =
      let (now, rest) =
        quiet-append (read_records dev s e j) (cluster_records dev s e n (j + 1)) quiet in
      elim (Bool-cases (k == j)) [
        | inl at ↦ rw (==→eq k j at) (has_terminal-quiet name (read_records dev s e j) now)
        | inr later ↦
            quiet_sector e n (j + 1) k rest (omega (arith, not_==→ne k j later)) (omega arith)
      ]
