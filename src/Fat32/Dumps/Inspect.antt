-- ===== src/Fat32/Dumps/Inspect.antt =====
-- `fat32_inspect_dir` of pi-src/fat32.c: the clusters of a directory are read into the memory behind the
-- table, and its records printed from there. The text around the numbers and names is left out, and the
-- chains are taken to stay in the table, so that `fat32_next_cluster` reads no word of that memory.
use rpi0_naivegfs.Base.{
  ℕ, zero, suc, ◌+◌, ◌-◌, ◌*◌, ◌/◌, Bool, true, false, ◌&&◌, leb, ltb, if◌then◌else◌, ◌==◌, Option,
  none, some, List, [], ◌∷◌, Prog, halted, pure, no_rounds, ◌>>=◌, length, get_or, u32,
}
use rpi0_naivegfs.Fat32.Layout.{
  DirRecord, decode_record, is_lfn, is_terminal, first_cluster, fat32_terminal_cluster_no,
}
use rpi0_naivegfs.Fat32.State.{SectorDevice, Fs, volume}
use rpi0_naivegfs.Fat32.Table.{fat32_next_cluster}
use rpi0_naivegfs.Fat32.Clusters.{read_cluster}

-- Bytes that are written to memory from the offset `at` on.
unfoldable pub store_bytes : ℕ → List ℕ → (ℕ → ℕ) → ℕ → ℕ
store_bytes at b mem i = if leb at i && ltb i (at + length b) then get_or b (i - at) 0 else mem i

-- The n bytes of memory from an offset on.
unfoldable pub bytes_at : (ℕ → ℕ) → ℕ → ℕ → List ℕ
bytes_at mem at zero = []
bytes_at mem at (suc n) = mem at ∷ bytes_at mem (at + 1) n

-- The `do` loop over the numbers of a file's clusters, and whether "PRE-ROOT" ends them.
unfoldable pub inspect_clusters : {Store : Type 0} → ℕ → ℕ → Prog (Fs Store) (List ℕ × Bool)
inspect_clusters zero c = no_rounds
inspect_clusters (suc n) c = do
  next ← fat32_next_cluster c
  if next == fat32_terminal_cluster_no
      then pure (c ∷ [], false)
      else if leb next 2
      then pure (c ∷ [], true)
      else (do (rest, pre_root) ← inspect_clusters n next; pure (c ∷ rest, pre_root))

-- A line of the listing: the index and the name, and the clusters unless the file is empty.
pub record Inspected : Type 0 where
  pub idx : ℕ
  pub name : List ℕ
  pub clusters : Option (List ℕ × Bool)

unfoldable pub inspect_record : {Store : Type 0} → ℕ → ℕ → DirRecord → Prog (Fs Store) Inspected
inspect_record rounds idx r =
    if first_cluster r == 0
    then pure (record { idx = idx; name = r.dir_name; clusters = none })
    else (do
      shown ← inspect_clusters rounds (first_cluster r)
      pure (record { idx = idx; name = r.dir_name; clusters = some shown }))

-- The loop over the n records that are left, from the index idx on. A terminal ends it.
unfoldable pub inspect_records :
    {Store : Type 0} → ℕ → (ℕ → ℕ) → ℕ → ℕ → Prog (Fs Store) (List Inspected)
inspect_records rounds mem zero idx = pure []
inspect_records rounds mem (suc n) idx =
    let r = decode_record (bytes_at mem (32 * idx) 32) in
    let rest = inspect_records rounds mem n (idx + 1) in
    let shown : Prog (Fs _) (List Inspected) = (do
      line ← inspect_record rounds idx r
      lines ← rest
      pure (line ∷ lines)) in
    if is_terminal r then pure [] else if is_lfn r then rest else shown

module _ {Store : Type 0} (dev : SectorDevice Store) where
  abbrev pub bytes_per_cluster : Fs Store → ℕ
  bytes_per_cluster s =
      u32 ((volume s).sectors_per_cluster * (s.all_vol_ids s.chosen_partition).bytes_per_sector)

  -- The `do` loop over the directory's clusters, from the offset `dst` on: the memory, and the count.
  unfoldable pub read_clusters : ℕ → ℕ → ℕ → (ℕ → ℕ) → Prog (Fs Store) ((ℕ → ℕ) × ℕ)
  read_clusters zero c dst mem s = no_rounds s
  read_clusters (suc n) c dst mem s =
      let now = store_bytes dst (read_cluster dev c s) mem in
      (do
        next ← fat32_next_cluster c
        if next == fat32_terminal_cluster_no then pure (now, 1) else (do
          (last, num_clusters) ← read_clusters n next (dst + bytes_per_cluster s) now
          pure (last, num_clusters + 1)))
        s

  -- `mem` is the memory behind the table. The first number is the one that the heading names: the
  -- variable holds the end mark by then. A cluster is a whole number of records where a sector is 512
  -- bytes, as `fat32_init` demands.
  unfoldable pub fat32_inspect_dir : ℕ → (ℕ → ℕ) → ℕ → Prog (Fs Store) (ℕ × List Inspected)
  fat32_inspect_dir rounds mem c s =
      if s.did_init
      then (do
        (image, num_clusters) ← read_clusters rounds c 0 mem
        lines ← inspect_records rounds image (bytes_per_cluster s * num_clusters / 32) 0
        pure (fat32_terminal_cluster_no, lines))
          s
      else halted s
