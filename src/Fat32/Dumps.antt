-- ===== src/Fat32/Dumps.antt =====
-- What the dumps of pi-src/fat32.c print: of a record its name, attribute, size and list of clusters,
-- of the root directory its records. The text around them is left out.
pub mod Chains
pub mod Inspect
use rpi0_naivegfs.Base.{
  ℕ, zero, suc, ◌+◌, Bool, true, false, not, leb, if◌then◌else◌, ◌==◌, List, [], ◌∷◌, ◌++◌, Prog,
  done, halted, pure, no_rounds, and_then, ◌>>=◌, minus_one,
}
use rpi0_naivegfs.Fat32.Layout.{
  DirRecord, attr_bit, is_lfn, is_terminal, first_cluster, fat32_root_cluster_no,
  fat32_terminal_cluster_no,
}
use rpi0_naivegfs.Fat32.State.{SectorDevice, Fs, sectors_per_cluster}
use rpi0_naivegfs.Fat32.Table.{fat32_next_cluster}
use rpi0_naivegfs.Fat32.Directory.{read_records}

-- The flags that are printed; the sixth, the archive flag, has no directive in the format.
unfoldable pub print_dir_ent_attr : DirRecord → List Bool
print_dir_ent_attr r =
    attr_bit 0 r.dir_attr
    ∷ attr_bit 1 r.dir_attr
    ∷ attr_bit 2 r.dir_attr
    ∷ attr_bit 3 r.dir_attr
    ∷ attr_bit 4 r.dir_attr
    ∷ []

-- `while(1)`: the clusters, and whether "TERM" or "PRE-ROOT" ends them.
unfoldable pub cluster_list : {Store : Type 0} → ℕ → ℕ → Prog (Fs Store) (List ℕ × Bool)
cluster_list zero c = no_rounds
cluster_list (suc n) c =
    if c == fat32_terminal_cluster_no
    then pure ([], true)
    else if leb c 2
    then pure ([], false)
    else (do
      next ← fat32_next_cluster c
      (rest, whole) ← cluster_list n next
      pure (c ∷ rest, whole))

pub data Dump : Type 0 where
  terminal : Dump
  file : List ℕ → ℕ → ℕ → List ℕ → Bool → Dump

unfoldable pub fat32_dump_dir_rec : {Store : Type 0} → ℕ → DirRecord → Prog (Fs Store) Dump
fat32_dump_dir_rec rounds r = if is_terminal r then pure Dump.terminal else (do
  (clusters, whole) ← cluster_list rounds (first_cluster r)
  pure (Dump.file r.dir_name r.dir_attr r.dir_file_size clusters whole))

-- The loop over the records of a sector: what is printed, and whether it returns.
unfoldable pub dump_records :
    {Store : Type 0} → ℕ → List DirRecord → Prog (Fs Store) (List Dump × Bool)
dump_records rounds [] = pure ([], false)
dump_records rounds (r ∷ rs) = do
  shown ← (if not (is_lfn r) then (do d ← fat32_dump_dir_rec rounds r; pure (d ∷ [])) else pure [])
  if is_terminal r
      then pure (shown, true)
      else (do (rest, ended) ← dump_records rounds rs; pure (shown ++ rest, ended))

module _ {Store : Type 0} (dev : SectorDevice Store) where
  -- The loop over the sectors of a cluster.
  unfoldable pub dump_sectors : ℕ → ℕ → ℕ → ℕ → Prog (Fs Store) (List Dump × Bool)
  dump_sectors rounds zero sector_no c s = done ([], false) s
  dump_sectors rounds (suc n) sector_no c s =
      (do
        (shown, ended) ← dump_records rounds (read_records dev s c sector_no)
        if ended then pure (shown, true) else (do
          (rest, ended2) ← dump_sectors rounds n (sector_no + 1) c
          pure (shown ++ rest, ended2)))
        s

  -- The loop over the clusters.
  unfoldable pub dump_clusters : ℕ → ℕ → ℕ → Prog (Fs Store) (List Dump)
  dump_clusters rounds zero c s = no_rounds s
  dump_clusters rounds (suc n) c s =
      if c == minus_one
      then done [] s
      else (do
        (shown, ended) ← dump_sectors rounds (sectors_per_cluster s) 0 c
        if ended then pure shown else (do
          next ← fat32_next_cluster c
          rest ← dump_clusters rounds n next
          pure (shown ++ rest)))
          s

  unfoldable pub dump_root_content : ℕ → Prog (Fs Store) (List Dump)
  dump_root_content rounds s =
      if s.did_init then dump_clusters rounds rounds fat32_root_cluster_no s else halted s
