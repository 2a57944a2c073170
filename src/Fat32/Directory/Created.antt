-- ===== src/Fat32/Directory/Created.antt =====
-- The search of `fat32_get_cluster_no` after a file was put in the directory.
use rpi0_naivegfs.Base.{
  ℕ, zero, suc, ◌+◌, ◌≤◌, ◌<◌, ◌≡◌, ◌≢◌, refl, ap, none, some, List, [], ◌∷◌, arith, u32,
}
use rpi0_naivegfs.Fat32.Layout.{decode_records}
use rpi0_naivegfs.Fat32.State.{SectorDevice, Fs, volume, sectors_per_cluster, cluster_no_to_lba}
use rpi0_naivegfs.Fat32.Table.Find.{NotIn}
use rpi0_naivegfs.Fat32.Table.Frame.{same_lba}
use rpi0_naivegfs.Fat32.Directory.{read_records, search_records}
use rpi0_naivegfs.Fat32.Directory.Lookup.{search_records-append, cluster_records, directory_records}
use rpi0_naivegfs.Fat32.Directory.Place.{IsSpot, Located, here, behind, quiet_sector, quiet-append}

-- Clusters of the table that are in use.
abbrev pub AllUsed : {Store : Type 0} → Fs Store → List ℕ → Type 0
AllUsed s [] = Unit
AllUsed s (e ∷ es) = (2 ≤ e) × (e < s.fat_end) × (s.fat e ≢ 0) × AllUsed s es

module _ {Store : Type 0} (dev : SectorDevice Store) where
  pub read_records-kept :
      (e j : ℕ) (s t : Fs Store)
      → volume t ≡ volume s
      → dev.read_sector t.disk (u32 (cluster_no_to_lba s e + j))
        ≡ dev.read_sector s.disk (u32 (cluster_no_to_lba s e + j))
      → read_records dev t e j ≡ read_records dev s e j
  unfolding read_records
  read_records-kept e j s t same kept = rw (same_lba s t e same) (ap (decode_records 16) kept)

  pub cluster_records-kept :
      (e n j : ℕ) (s t : Fs Store)
      → ((i : ℕ) → i < j + n → read_records dev t e i ≡ read_records dev s e i)
      → cluster_records dev t e n j ≡ cluster_records dev s e n j
  unfolding cluster_records
  cluster_records-kept e zero j s t kept = refl
  cluster_records-kept e (suc n) j s t kept =
      rw (kept j (omega arith), cluster_records-kept e n (j + 1) s t (λ i h. kept i (omega arith)))

  -- The search finds what stands in a sector behind those that it passed before, and passes now.
  search-found :
      (name : List ℕ) (e n j i first : ℕ) (s t : Fs Store)
      → i < n
      → search_records name (cluster_records dev s e i j) ≡ none
      → ((l : ℕ) → l < j + i → read_records dev t e l ≡ read_records dev s e l)
      → search_records name (read_records dev t e (j + i)) ≡ some first
      → search_records name (cluster_records dev t e n j) ≡ some first
  unfolding cluster_records
  search-found name e zero j i first s t small quiet kept found = absurd (omega arith)
  search-found name e (suc n) j zero first s t small quiet kept found =
      let at : j + 0 ≡ j = omega arith in rw (search_records-append, rw at at found)
  search-found name e (suc n) j (suc i) first s t small quiet kept found =
      let at : j + suc i ≡ j + 1 + i = omega arith in
      let (head, rest) =
        quiet-append dev name s (read_records dev s e j) (cluster_records dev s e i (j + 1))
          quiet in
      rw (search_records-append, kept j (omega arith), head)
        (search-found name e n (j + 1) i first s t (omega arith) rest (λ l h. kept l (omega arith))
          (rw at at found))

  pub Located-IsSpot :
      (name : List ℕ) (s : Fs Store) (d k c : ℕ) (cs : List ℕ)
      → Located dev name s d k c cs
      → IsSpot dev name s d k
  Located-IsSpot name s d k c cs (here spot) = spot
  Located-IsSpot name s d k c (c2 ∷ cs) (behind quiet place) = Located-IsSpot name s d k c2 cs place

  -- The cluster of the place is one of the directory's.
  pub Located-ne :
      (name : List ℕ) (s : Fs Store) (d k c : ℕ) (cs : List ℕ) (e : ℕ)
      → Located dev name s d k c cs
      → NotIn e (c ∷ cs)
      → e ≢ d
  Located-ne name s d k c cs e (here spot) out = out.0
  Located-ne name s d k c (c2 ∷ cs) e (behind quiet place) out =
      Located-ne name s d k c2 cs e place out.1

  pub Located-used :
      (name : List ℕ) (s : Fs Store) (d k c : ℕ) (cs : List ℕ)
      → Located dev name s d k c cs
      → AllUsed s (c ∷ cs)
      → (2 ≤ d) × (d < s.fat_end) × (s.fat d ≢ 0)
  Located-used name s d k c cs (here spot) used = (used.0, used.1, used.2)
  Located-used name s d k c (c2 ∷ cs) (behind quiet place) used =
      Located-used name s d k c2 cs place used.3

  -- After a change of the spot's sector, and of nothing that stands before it, the search returns what
  -- the spot's sector holds.
  pub search-Located :
      (name : List ℕ) (s t : Fs Store) (d k first c : ℕ) (cs : List ℕ)
      → Located dev name s d k c cs
      → AllUsed s (c ∷ cs)
      → sectors_per_cluster t ≡ sectors_per_cluster s
      → ((e i : ℕ)
          → 2 ≤ e
          → e < s.fat_end
          → s.fat e ≢ 0
          → e ≢ d
          → i < sectors_per_cluster s
          → read_records dev t e i ≡ read_records dev s e i)
      → ((i : ℕ) → i < k → read_records dev t d i ≡ read_records dev s d i)
      → search_records name (read_records dev t d k) ≡ some first
      → search_records name (directory_records dev t (c ∷ cs)) ≡ some first
  unfolding directory_records
  search-Located name s t d k first c cs (here spot) used count kept kept_d now =
      let at : 0 + k ≡ k = omega arith in
      let found =
        search-found name d (sectors_per_cluster s) 0 k first s t spot.inside spot.before
          (λ l h. kept_d l (omega arith)) (rw at now) in
      rw (search_records-append, count, found)
  search-Located name s t d k first c (c2 ∷ cs) (behind quiet place) used count kept kept_d now =
      let spot = Located-IsSpot name s d k c2 cs place in
      let ne : c ≢ d = λ e. cc (
        quiet_sector dev name s c (sectors_per_cluster s) 0 k quiet (omega arith)
            (omega (arith, spot.inside)),
        spot.free,
        e,
      ) in
      let rest = search-Located name s t d k first c2 cs place used.3 count kept kept_d now in
      rw
        (
          search_records-append,
          count,
          cluster_records-kept c (sectors_per_cluster s) 0 s t
              (λ i h. kept c i used.0 used.1 used.2 ne (omega arith)),
          quiet,
        )
        (rw count at rest)

  -- The records of clusters that are used in r, whose sectors are read as before.
  pub directory_records-kept :
      (r s t : Fs Store) (cs : List ℕ)
      → AllUsed r cs
      → sectors_per_cluster t ≡ sectors_per_cluster s
      → ((e i : ℕ)
          → 2 ≤ e
          → e < r.fat_end
          → r.fat e ≢ 0
          → i < sectors_per_cluster s
          → read_records dev t e i ≡ read_records dev s e i)
      → directory_records dev t cs ≡ directory_records dev s cs
  unfolding directory_records
  directory_records-kept r s t [] used count kept = refl
  directory_records-kept r s t (c ∷ cs) (lo, hi, nz, rest) count kept =
      rw
        (
          count,
          cluster_records-kept c (sectors_per_cluster s) 0 s t
              (λ i h. kept c i lo hi nz (omega arith)),
          directory_records-kept r s t cs rest count kept,
        )
        refl
