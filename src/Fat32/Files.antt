-- ===== src/Fat32/Files.antt =====
-- Allocating a file in pi-src/fat32.c: `alloc_local_file_at` takes the clusters, links them and
-- fills the directory record in.
pub mod Filled
pub mod Chain
use rpi0_naivegfs.Base.{
  ℕ, zero, suc, ◌-◌, ◌/◌, ◌%◌, ◌^◌, Bool, if◌then◌else◌, ltb, List, Prog, pure, modify, ◌>>=◌, ◌>>◌,
  take, u16,
}
use rpi0_naivegfs.Fat32.Layout.{DirRecord, cluster_no}
use rpi0_naivegfs.Fat32.State.{SectorDevice, Fs}
use rpi0_naivegfs.Fat32.Table.{alloc_free_local_cluster, fat32_point_fat}

-- The rounds of `while(num_clusters > 0)` once the first cluster is taken. `num_clusters` is an
-- `int`: a count of 2 ^ 31 or more is negative.
unfoldable pub rounds_left : ℕ → ℕ
rounds_left num_clusters = if ltb num_clusters (2 ^ 31) then num_clusters - 1 else 0

-- The record's name, attribute and first cluster; its other bytes stay.
unfoldable pub fill_record : List ℕ → ℕ → DirRecord → DirRecord
fill_record name c r = record r {
  dir_name = take 11 name;
  dir_attr = 0;
  dir_first_cluster_low = u16 c;
  dir_first_cluster_high = u16 (c / 65536);
}

module _ {Store : Type 0} (dev : SectorDevice Store) where
  -- `while(num_clusters > 0)`: the next cluster is linked behind `prev_cluster`.
  unfoldable pub extend_chain : ℕ → ℕ → Prog (Fs Store) (Unit {0})
  extend_chain zero prev s = pure tt s
  extend_chain (suc n) prev s =
      (do
        c ← alloc_free_local_cluster dev
        modify (fat32_point_fat dev (cluster_no prev) (cluster_no c))
        extend_chain n c)
        s

  -- The first cluster of the new file, and the record as it is filled in.
  unfoldable pub alloc_local_file_at : DirRecord → ℕ → List ℕ → Prog (Fs Store) (ℕ × DirRecord)
  alloc_local_file_at dr num_clusters name = do
    out ← alloc_free_local_cluster dev
    extend_chain (rounds_left num_clusters) out
    pure (out, fill_record name out dr)
