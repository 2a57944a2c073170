-- ===== src/Fat32/Directory/Rounds.antt =====
-- The walk of `fat32_alloc_local_file` to the first free record of a directory.
use rpi0_naivegfs.Fat32.Directory.Place.{Located, here, behind, quiet-append, has_terminal-quiet}
use rpi0_naivegfs.Base.{
  ℕ, zero, suc, ◌+◌, ◌<◌, ◌≡◌, ◌≢◌, refl, sym, true, false, ne→not_==, Option, none, some, List, [],
  ◌∷◌, Prog, done, length, minus_one, arith,
}
use rpi0_naivegfs.Fat32.Layout.{DirRecord, records_per_sector}
use rpi0_naivegfs.Fat32.Layout.Sectors.{length-decode_records}
use rpi0_naivegfs.Fat32.State.{SectorDevice, Fs, sectors_per_cluster}
use rpi0_naivegfs.Fat32.Directory.{
  found, read_records, walk_sectors, walk_directory, after_sectors, search_records, insert_scan,
}
use rpi0_naivegfs.Fat32.Directory.Listing.{has_terminal}
use rpi0_naivegfs.Fat32.Directory.Lookup.{IsPath, cluster_records, fat32_next_cluster_lem}
use rpi0_naivegfs.Fat32.Directory.Insert.{insert_scan-none}

module _ {Store : Type 0} (dev : SectorDevice Store) (name : List ℕ) (s : Fs Store)
    (count : ℕ) where
  abbrev pub scan : ℕ → ℕ → List DirRecord → Prog (Fs Store) (Option ℕ)
  scan = insert_scan dev records_per_sector 0 count name

  -- A sector without a terminal is passed.
  scan_quiet :
      (c k : ℕ)
      → has_terminal (read_records dev s c k) ≡ false
      → scan c k (read_records dev s c k) s ≡ done none s
  unfolding read_records
  scan_quiet c k quiet =
      insert_scan-none dev count name c k 16 0 _ [] _ s refl refl (sym (length-decode_records 16 _))
        quiet

  walk_sectors-quiet :
      (c n j : ℕ) (records : List DirRecord)
      → search_records name (cluster_records dev s c n j) ≡ none
      → (now : List DirRecord) × (walk_sectors dev scan n j c records s ≡ done (none, now) s)
  unfolding walk_sectors cluster_records
  walk_sectors-quiet c zero j records quiet = (records, refl)
  walk_sectors-quiet c (suc n) j records quiet =
      let now = read_records dev s c j in
      let (first, rest) = quiet-append dev name s now (cluster_records dev s c n (j + 1)) quiet in
      let (last, run) = walk_sectors-quiet c n (j + 1) now rest in
      (last, rw (scan_quiet c j (has_terminal-quiet name now first)) run)

  walk_sectors-found :
      (c n j i : ℕ) (records : List DirRecord) (first : ℕ) (t : Fs Store)
      → i < n
      → search_records name (cluster_records dev s c i j) ≡ none
      → scan c (j + i) (read_records dev s c (j + i)) s ≡ done (some first) t
      → (now : List DirRecord) × (walk_sectors dev scan n j c records s ≡ done (some first, now) t)
  unfolding walk_sectors cluster_records
  walk_sectors-found c zero j i records first t small quiet run = absurd (omega arith)
  walk_sectors-found c (suc n) j zero records first t small quiet run =
      let at : j + 0 ≡ j = omega arith in (read_records dev s c j, rw (rw at at run))
  walk_sectors-found c (suc n) j (suc i) records first t small quiet run =
      let now = read_records dev s c j in
      let (head, rest) = quiet-append dev name s now (cluster_records dev s c i (j + 1)) quiet in
      let at : j + suc i ≡ j + 1 + i = omega arith in
      let (last, run2) =
        walk_sectors-found c n (j + 1) i now first t (omega arith) rest (rw at at run) in
      (last, rw (scan_quiet c j (has_terminal-quiet name now head)) run2)

  -- The walk of the allocation ends at the spot.
  pub walk_directory-Located :
      (d k n c prev : ℕ) (cs : List ℕ) (records : List DirRecord) (first : ℕ) (t : Fs Store)
      → s.did_init ≡ true
      → c ≢ minus_one
      → IsPath s.fat c cs
      → length cs < n
      → Located dev name s d k c cs
      → scan d k (read_records dev s d k) s ≡ done (some first) t
      → walk_directory dev scan n c prev records s ≡ done (found first) t
  unfolding walk_directory after_sectors
  walk_directory-Located d k zero c prev cs records first t ready real path fuel at run =
      absurd (omega arith)
  walk_directory-Located d k (suc n) c prev cs records first t ready real path fuel (here spot)
        run =
      let k0 : 0 + k ≡ k = omega arith in
      rw (
        ne→not_== d minus_one real,
        (walk_sectors-found d (sectors_per_cluster s) 0 k records first t spot.inside spot.before
            (rw k0 run)).1,
      )
  walk_directory-Located d k (suc n) c prev (c2 ∷ cs) records first t ready real path fuel
        (behind quiet at) run =
      let (now, passed) = walk_sectors-quiet c (sectors_per_cluster s) 0 records quiet in
      rw (ne→not_== c minus_one real, passed, fat32_next_cluster_lem s c ready, path.0)
        (walk_directory-Located d k n c2 c cs now first t ready (omega (arith, path.0)) path.1
          (omega arith) at run)
