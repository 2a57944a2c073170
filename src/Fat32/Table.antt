-- ===== src/Fat32/Table.antt =====
-- The file allocation table of pi-src/fat32.c: looking up a cluster's successor, finding and
-- allocating a free cluster, and linking two clusters. A changed entry is written to memory, and the
-- sector of the table that holds it is written to the disk.
pub mod Synced
pub mod Alloc
pub mod Find
pub mod Geometry
pub mod Frame
use rpi0_naivegfs.Base.{
  ℕ, zero, suc, ◌+◌, ◌/◌, ◌==◌, if◌then◌else◌, List, [], ◌∷◌, Prog, done, halted, pure, no_rounds,
  and_then, modify, ◌>>=◌, ◌>>◌, minus_one, u32,
}
use rpi0_naivegfs.Fat32.Layout.{cluster_no}
use rpi0_naivegfs.Fat32.State.{
  SectorDevice, Fs, update, table_sector, words_per_sector, blank_sector, volume, cluster_no_to_lba,
}

module _ {Store : Type 0} where
  unfoldable pub fat32_next_cluster : ℕ → Prog (Fs Store) ℕ
  fat32_next_cluster cur s = if s.did_init then done (cluster_no (s.fat cur)) s else halted s

  -- The walk of `p` from `FAT + 2` to `FAT_end`. A pointer that starts beyond `FAT_end` does not
  -- meet it.
  unfoldable pub find_free_from : ℕ → ℕ → Prog (Fs Store) ℕ
  find_free_from zero p s = no_rounds s
  find_free_from (suc n) p s =
      let rest = find_free_from n (p + 1) s in
      if p == s.fat_end then done minus_one s else if s.fat p == 0 then done p s else rest

  unfoldable pub find_free_local_cluster : Prog (Fs Store) ℕ
  unfolding find_free_from
  find_free_local_cluster s = if s.did_init then find_free_from s.fat_end 2 s else halted s

  -- `FAT[i] = v`
  unfoldable pub store_entry : ℕ → ℕ → Fs Store → Fs Store
  store_entry i v s = record s { fat = update s.fat i v }

  -- The walk of `follow_file_chain`: the clusters that it prints.
  unfoldable pub follow_file_chain : ℕ → ℕ → Prog (Fs Store) (List ℕ)
  follow_file_chain zero start s = no_rounds s
  follow_file_chain (suc n) start s =
      let rest = follow_file_chain n (s.fat (cluster_no start)) s in
      if start == minus_one then done (minus_one ∷ []) s else and_then rest (λ l. pure (start ∷ l))

module _ {Store : Type 0} (dev : SectorDevice Store) where
  -- `writesector` of the table's sector that holds entry i, as it stands in memory.
  unfoldable pub flush_entry : ℕ → Fs Store → Fs Store
  flush_entry i s =
      let sector_in_fat = i / words_per_sector in
      record s {
        disk =
            dev.write_sector (table_sector s.fat sector_in_fat)
              (u32 (sector_in_fat + (volume s).fat_begin_lba)) s.disk;
      }

  -- `writesector` of zeros to the first sector of a cluster.
  unfoldable pub blank_cluster : ℕ → Fs Store → Fs Store
  blank_cluster c s = record s {
    disk = dev.write_sector blank_sector (cluster_no_to_lba s c) s.disk;
  }

  unfoldable pub alloc_free_local_cluster : Prog (Fs Store) ℕ
  alloc_free_local_cluster = do
    out ← find_free_local_cluster
    let i = cluster_no out
    modify (store_entry i (cluster_no minus_one))
    modify (flush_entry i)
    modify (blank_cluster i)
    pure out

  unfoldable pub fat32_point_fat : ℕ → ℕ → Fs Store → Fs Store
  fat32_point_fat prev next s = flush_entry (cluster_no prev) (store_entry prev next s)
