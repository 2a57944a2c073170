-- ===== src/Fat32/Clusters/Kept.antt =====
-- `read_cluster` on the files that are there when `fat32_alloc_local_file` makes another.
use rpi0_naivegfs.Base.{
  ℕ, zero, suc, ◌+◌, ◌-◌, ◌^◌, ◌≤◌, ◌<◌, ◌≡◌, ◌≢◌, refl, true, List, ◌∷◌, ◌++◌, done, length, u32,
  arith,
}
use rpi0_naivegfs.Fat32.Layout.{fat32_root_cluster_no}
use rpi0_naivegfs.Fat32.State.{SectorDevice, Fs, volume, sectors_per_cluster, cluster_no_to_lba}
use rpi0_naivegfs.Fat32.Clusters.{read_sectors, read_cluster}
use rpi0_naivegfs.Fat32.Table.Find.{NotIn, free_clusters}
use rpi0_naivegfs.Fat32.Table.Geometry.{IsMounted, cluster_no_to_lba_bounds}
use rpi0_naivegfs.Fat32.Table.Frame.{IsKept, same_count, same_lba}
use rpi0_naivegfs.Fat32.Table.Synced.{IsSynced}
use rpi0_naivegfs.Fat32.Directory.{fat32_alloc_local_file}
use rpi0_naivegfs.Fat32.Directory.Listing.{listed, has_terminal}
use rpi0_naivegfs.Fat32.Directory.Lookup.{IsPath, directory_records}
use rpi0_naivegfs.Fat32.Directory.Place.{unlisted}
use rpi0_naivegfs.Fat32.Directory.Created.{AllUsed}
use rpi0_naivegfs.Fat32.Directory.Named.{IsName}
use rpi0_naivegfs.Fat32.Directory.Creation.{AllSectors}
use rpi0_naivegfs.Fat32.Directory.RoundTrip.{make}

module _ {Store : Type 0} (dev : SectorDevice Store) where
  read_sectors-kept :
      (n lba : ℕ) (d d' : Store)
      → lba + n ≤ 2 ^ 32
      → ((j : ℕ) → j < n → dev.read_sector d' (lba + j) ≡ dev.read_sector d (lba + j))
      → read_sectors dev n lba d' ≡ read_sectors dev n lba d
  unfolding read_sectors
  read_sectors-kept zero lba d d' fits kept = refl
  read_sectors-kept (suc zero) lba d d' fits kept =
      let at : lba + 0 ≡ lba = omega arith in rw (rw at at (kept 0 (omega arith))) refl
  read_sectors-kept (suc (suc n)) lba d d' fits kept =
      let at : lba + 0 ≡ lba = omega arith in
      let next : u32 (lba + 1) ≡ lba + 1 = omega arith in
      let behind : (j : ℕ) → lba + 1 + j ≡ lba + suc j = λ j. omega arith in
      rw
        (
          next,
          rw at at (kept 0 (omega arith)),
          read_sectors-kept (suc n) (lba + 1) d d' (omega arith)
              (λ j small. rw (behind j) (kept (suc j) (omega arith))),
        )
        refl

  -- A cluster whose sectors stay is read as before.
  read_cluster-kept :
      (e : ℕ) (s t : Fs Store)
      → IsMounted s
      → IsMounted t
      → volume t ≡ volume s
      → 2 ≤ e
      → e < s.fat_end
      → IsKept dev e s t
      → read_cluster dev e t ≡ read_cluster dev e s
  unfolding read_cluster
  read_cluster-kept e s t m m' same lo hi kept =
      let last =
        cluster_no_to_lba_bounds m e (sectors_per_cluster s - 1) lo hi
          (omega (arith, m.count_pos)) in
      rw (same_lba s t e same, same_count m m' same)
        (read_sectors-kept (sectors_per_cluster s) (cluster_no_to_lba s e) s.disk t.disk
          (omega (arith, last, m.count_pos)) kept)

  -- On a mounted volume whose table on the disk is that in memory and whose sectors are 512 bytes,
  -- let the root directory be a path of used clusters with a free record, before which no file is
  -- listed whose name compares equal to the given one, let c and cs, fewer than 2 ^ 31, be the
  -- first free clusters, and let the name have 11 bytes or more, the first not 0. Then
  -- `fat32_alloc_local_file` returns c, and `read_cluster` reads from each cluster of the table
  -- that was in use before, the directory's own aside, what it read before. More rounds than the
  -- directory has clusters behind the first are enough.
  pub read_cluster-fat32_alloc_local_file :
      (name : List ℕ) (n c e : ℕ) (ds cs rest : List ℕ) (s : Fs Store)
      → IsMounted s
      → IsSynced dev s
      → AllSectors dev s.disk
      → IsPath s.fat fat32_root_cluster_no ds
      → AllUsed s (fat32_root_cluster_no ∷ ds)
      → length ds < n
      → has_terminal (directory_records dev s (fat32_root_cluster_no ∷ ds)) ≡ true
      → unlisted name (listed (directory_records dev s (fat32_root_cluster_no ∷ ds))) ≡ true
      → IsName name
      → free_clusters s ≡ c ∷ (cs ++ rest)
      → length cs + 1 < 2 ^ 31
      → 2 ≤ e
      → e < s.fat_end
      → s.fat e ≢ 0
      → NotIn e (fat32_root_cluster_no ∷ ds)
      → (t : Fs Store) × (fat32_alloc_local_file dev n (length cs + 1) name s ≡ done c t)
        × (read_cluster dev e t ≡ read_cluster dev e s)
  read_cluster-fat32_alloc_local_file name n c e ds cs rest s m sync sectors path used fuel room new
        v free fits lo hi busy out =
      let made =
        make dev name n c ds cs rest s m sync sectors path used fuel room new v free fits in
      (
        made.state,
        made.run,
        read_cluster-kept e s made.state m made.mounted made.same_volume lo hi
            (made.contents e lo hi busy out),
      )
