-- ===== src/Fat32/Table/Frame.antt =====
-- The sectors of files under changes of the table: which clusters an allocation leaves as they are.
use rpi0_naivegfs.Base.{
  ℕ, List, ◌+◌, ◌/◌, ◌%◌, ◌^◌, ◌≤◌, ◌<◌, ◌≡◌, ◌≢◌, ap, ◌∙◌, length-replicate, u32, arith,
}
use rpi0_naivegfs.Fat32.State.{
  SectorDevice, Fs, blank_sector, volume, sectors_per_cluster, cluster_no_to_lba,
}
use rpi0_naivegfs.Fat32.Table.{store_entry, flush_entry, blank_cluster, fat32_point_fat}
use rpi0_naivegfs.Fat32.Table.Geometry.{
  IsMounted, cluster_no_to_lba_bounds, cluster_no_to_lba-injective,
}

-- Two states of one mounted volume count the sectors of a cluster alike, and place them alike.
pub same_count :
    {Store : Type 0} {s t : Fs Store}
    → IsMounted s
    → IsMounted t
    → volume t ≡ volume s
    → sectors_per_cluster t ≡ sectors_per_cluster s
same_count m n e = omega (arith, m.same_count, n.same_count, ap (λ v. v.sectors_per_cluster) e)

pub same_lba :
    {Store : Type 0} (s t : Fs Store) (c : ℕ)
    → volume t ≡ volume s
    → cluster_no_to_lba t c ≡ cluster_no_to_lba s c
unfolding cluster_no_to_lba
same_lba s t c e = rw e

module _ {Store : Type 0} (dev : SectorDevice Store) where
  -- The sectors of the cluster e hold the same in both states.
  abbrev pub IsKept : ℕ → Fs Store → Fs Store → Type 0
  IsKept e s t =
      (j : ℕ)
      → j < sectors_per_cluster s
      → dev.read_sector t.disk (cluster_no_to_lba s e + j)
        ≡ dev.read_sector s.disk (cluster_no_to_lba s e + j)

  pub IsKept-trans :
      (e : ℕ) (s s1 t : Fs Store)
      → IsMounted s
      → IsMounted s1
      → volume s1 ≡ volume s
      → IsKept e s s1
      → IsKept e s1 t
      → IsKept e s t
  IsKept-trans e s s1 t m m1 same k k1 j h =
      (rw (same_lba s s1 e same) at (k1 j (omega (arith, same_count m m1 same)))) ∙ k j h

  -- The sectors below the table hold the same in both states.
  abbrev pub IsBelowKept : Fs Store → Fs Store → Type 0
  IsBelowKept s t =
      (lba : ℕ)
      → lba < (volume s).fat_begin_lba
      → dev.read_sector t.disk lba ≡ dev.read_sector s.disk lba

  pub IsBelowKept-trans :
      (s s1 t : Fs Store)
      → volume s1 ≡ volume s
      → IsBelowKept s s1
      → IsBelowKept s1 t
      → IsBelowKept s t
  IsBelowKept-trans s s1 t same k1 k lba below =
      k lba (omega (arith, ap (λ w. w.fat_begin_lba) same)) ∙ k1 lba below

  -- The sector of the table that is flushed lies below the clusters.
  pub flush_lba :
      (i : ℕ) {s : Fs Store}
      → IsMounted s
      → i < s.fat_end
      → u32 (i / 128 + (volume s).fat_begin_lba) ≡ (volume s).fat_begin_lba + i / 128
  flush_lba i m inside = omega (arith, m.apart, m.fits, m.table_words)

  pub flush_entry-IsKept :
      (i v e : ℕ) {s : Fs Store}
      → IsMounted s
      → i < s.fat_end
      → 2 ≤ e
      → e < s.fat_end
      → IsKept e s (flush_entry dev i (store_entry i v s))
  unfolding flush_entry store_entry
  flush_entry-IsKept i v e {s} m inside lo hi j h =
      dev.read-write_other _ _ (cluster_no_to_lba s e + j) s.disk
        (omega (arith, flush_lba i m inside, m.table_words, cluster_no_to_lba_bounds m e j lo hi h))

  pub flush_entry-IsBelowKept :
      (i v : ℕ) {s : Fs Store}
      → IsMounted s
      → i < s.fat_end
      → IsBelowKept s (flush_entry dev i (store_entry i v s))
  unfolding flush_entry store_entry
  flush_entry-IsBelowKept i v {s} m inside lba below =
      dev.read-write_other _ _ lba s.disk (omega (arith, flush_lba i m inside))

  -- The state once the first sector of a cluster is written.
  abbrev pub write_first : List ℕ → ℕ → Fs Store → Fs Store
  write_first b c s = record s { disk = dev.write_sector b (cluster_no_to_lba s c) s.disk }

  pub write_first-IsBelowKept :
      (b : List ℕ) (c : ℕ) {s : Fs Store}
      → IsMounted s
      → 2 ≤ c
      → c < s.fat_end
      → IsBelowKept s (write_first b c s)
  write_first-IsBelowKept b c {s} m lo hi lba below =
      dev.read-write_other b (cluster_no_to_lba s c) lba s.disk
        (omega (arith, cluster_no_to_lba_bounds m c 0 lo hi m.count_pos))

  pub write_first-IsKept :
      (b : List ℕ) (c e : ℕ) {s : Fs Store}
      → IsMounted s
      → 2 ≤ c
      → c < s.fat_end
      → 2 ≤ e
      → e < s.fat_end
      → e ≢ c
      → IsKept e s (write_first b c s)
  write_first-IsKept b c e {s} m lc hc le he ne j h =
      dev.read-write_other b (cluster_no_to_lba s c) (cluster_no_to_lba s e + j) s.disk (λ same.
        ne
          (cluster_no_to_lba-injective m e c j 0 le he lc hc h m.count_pos (omega (arith, same))).0)

  pub blank_cluster-IsBelowKept :
      (c : ℕ) {s : Fs Store}
      → IsMounted s
      → 2 ≤ c
      → c < s.fat_end
      → IsBelowKept s (blank_cluster dev c s)
  unfolding blank_cluster
  blank_cluster-IsBelowKept c m = write_first-IsBelowKept blank_sector c m

  pub blank_cluster-IsKept :
      (c e : ℕ) {s : Fs Store}
      → IsMounted s
      → 2 ≤ c
      → c < s.fat_end
      → 2 ≤ e
      → e < s.fat_end
      → e ≢ c
      → IsKept e s (blank_cluster dev c s)
  unfolding blank_cluster
  blank_cluster-IsKept c e m = write_first-IsKept blank_sector c e m

  -- The first sector of a blanked cluster is blank.
  pub blank_cluster-blank :
      (c : ℕ) (s : Fs Store)
      → dev.read_sector (blank_cluster dev c s).disk (cluster_no_to_lba s c) ≡ blank_sector
  unfolding blank_cluster
  blank_cluster-blank c s =
      dev.read-write_same blank_sector (cluster_no_to_lba s c) s.disk
        (length-replicate {A = ℕ} 512 0)

  pub fat32_point_fat-IsKept :
      (prev next e : ℕ) {s : Fs Store}
      → IsMounted s
      → prev < s.fat_end
      → 2 ≤ e
      → e < s.fat_end
      → IsKept e s (fat32_point_fat dev prev next s)
  unfolding fat32_point_fat
  fat32_point_fat-IsKept prev next e {s} m inside lo hi =
      let small : prev % 2 ^ 28 ≡ prev = omega (arith, m.table_small) in
      rw small (flush_entry-IsKept prev next e m inside lo hi)

  pub fat32_point_fat-IsBelowKept :
      (prev next : ℕ) {s : Fs Store}
      → IsMounted s
      → prev < s.fat_end
      → IsBelowKept s (fat32_point_fat dev prev next s)
  unfolding fat32_point_fat
  fat32_point_fat-IsBelowKept prev next {s} m inside =
      let small : prev % 2 ^ 28 ≡ prev = omega (arith, m.table_small) in
      rw small (flush_entry-IsBelowKept prev next m inside)
