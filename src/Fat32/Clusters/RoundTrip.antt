-- ===== src/Fat32/Clusters/RoundTrip.antt =====
-- `write_cluster` followed by `read_cluster`.
use rpi0_naivegfs.Base.{
  ℕ, zero, suc, ◌+◌, ◌-◌, ◌*◌, ◌^◌, ◌≤◌, ◌<◌, ◌≡◌, ◌⊎◌, inl, refl, ◌∙◌, List, [], ◌∷◌, done, length,
  take, drop, u32, arith, length-take, length-drop, take-append-drop,
}
use rpi0_naivegfs.Fat32.State.{SectorDevice, Fs, sectors_per_cluster, cluster_no_to_lba}
use rpi0_naivegfs.Fat32.Clusters.{read_sectors, write_sectors, read_cluster, write_cluster}
use rpi0_naivegfs.Fat32.Table.Geometry.{IsMounted, cluster_no_to_lba_bounds}

length-zero : (xs : List ℕ) → length xs ≡ 0 → [] ≡ xs
length-zero [] h = refl
length-zero (x ∷ xs) h = absurd (omega arith)

module _ {Store : Type 0} (dev : SectorDevice Store) where
  -- Sectors outside the written range stay.
  read-write_sectors_other :
      (n lba other : ℕ) (src : List ℕ) (d : Store)
      → lba + n ≤ 2 ^ 32
      → (other < lba) ⊎ (lba + n ≤ other)
      → dev.read_sector (write_sectors dev n lba src d) other ≡ dev.read_sector d other
  unfolding write_sectors
  read-write_sectors_other zero lba other src d fits out = refl
  read-write_sectors_other (suc zero) lba other src d fits out =
      dev.read-write_other (take 512 src) lba other d (omega arith)
  read-write_sectors_other (suc (suc n)) lba other src d fits out =
      let next : u32 (lba + 1) ≡ lba + 1 = omega arith in
      rw next (
        read-write_sectors_other (suc n) (lba + 1) other (drop 512 src)
          (dev.write_sector (take 512 src) lba d) (omega arith) (omega arith)
        ∙ dev.read-write_other (take 512 src) lba other d (omega arith))

  read-write_sectors :
      (n lba : ℕ) (src : List ℕ) (d : Store)
      → lba + n ≤ 2 ^ 32
      → length src ≡ 512 * n
      → read_sectors dev n lba (write_sectors dev n lba src d) ≡ src
  unfolding read_sectors write_sectors
  read-write_sectors zero lba src d fits len = length-zero src (omega arith)
  read-write_sectors (suc zero) lba src d fits len =
      rw
        (
          dev.read-write_same (take 512 src) lba d (length-take 512 src (omega arith)),
          length-zero (drop 512 src) (omega (arith, length-drop 512 src)),
        )
        (take-append-drop 512 src)
  read-write_sectors (suc (suc n)) lba src d fits len =
      let next : u32 (lba + 1) ≡ lba + 1 = omega arith in
      let first = dev.write_sector (take 512 src) lba d in
      rw
        (
          next,
          read-write_sectors_other (suc n) (lba + 1) lba (drop 512 src) first (omega arith)
              (inl (omega arith)),
          dev.read-write_same (take 512 src) lba d (length-take 512 src (omega arith)),
          read-write_sectors (suc n) (lba + 1) (drop 512 src) first (omega arith)
              (omega (arith, length-drop 512 src)),
        )
        (take-append-drop 512 src)

  -- On a mounted volume, a cluster's worth of bytes that `write_cluster` writes to a cluster of the
  -- table is what `read_cluster` reads from it.
  pub read_cluster-write_cluster :
      (c : ℕ) (src : List ℕ) (s : Fs Store)
      → IsMounted s
      → 2 ≤ c
      → c < s.fat_end
      → length src ≡ 512 * sectors_per_cluster s
      → (t : Fs Store) × (write_cluster dev c src s ≡ done tt t) × (read_cluster dev c t ≡ src)
  unfolding write_cluster read_cluster cluster_no_to_lba
  read_cluster-write_cluster c src s m lo hi len =
      let n = sectors_per_cluster s in
      let lba = cluster_no_to_lba s c in
      let last = cluster_no_to_lba_bounds m c (n - 1) lo hi (omega (arith, m.count_pos)) in
      (
        record s { disk = write_sectors dev n lba src s.disk },
        simp m.ready,
        read-write_sectors n lba src s.disk (omega (arith, last, m.count_pos)) len,
      )
