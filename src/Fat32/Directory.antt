-- ===== src/Fat32/Directory.antt =====
-- The root directory of pi-src/fat32.c. Its functions read it in the same way: for each cluster of
-- its chain, each sector of the cluster is read into `records`, and what the loop over the sixteen
-- records returns ends the function. `walk_directory` is that loop, over the body of the innermost
-- loop. A chain may be a cycle, so the loop over clusters has a bound on its rounds.
pub mod Lookup
pub mod Listing
pub mod Insert
pub mod Written
pub mod Place
pub mod Rounds
pub mod Created
pub mod Still
pub mod Remounted
pub mod Sample
pub mod Named
pub mod Creation
pub mod RoundTrip
pub mod Examples
use rpi0_naivegfs.Base.{
  ℕ, zero, suc, ◌+◌, ◌-◌, Bool, true, false, ◌&&◌, not, if◌then◌else◌, ◌==◌, Option, none, some,
  List, [], ◌∷◌, Prog, and_then, done, halted, pure, no_rounds, modify, ◌>>=◌, ◌>>◌, u32, minus_one,
  get_or, set, replicate,
}
use rpi0_naivegfs.Strings.{strncmp}
use rpi0_naivegfs.Fat32.Layout.{
  DirRecord, decode_records, encode_records, records_per_sector, is_lfn, is_terminal, first_cluster,
  cluster_no, fat32_root_cluster_no,
}
use rpi0_naivegfs.Fat32.State.{SectorDevice, Fs, volume, sectors_per_cluster, cluster_no_to_lba}
use rpi0_naivegfs.Fat32.Table.{fat32_next_cluster, alloc_free_local_cluster, fat32_point_fat}
use rpi0_naivegfs.Fat32.Files.{alloc_local_file_at}

-- How the loop over clusters ends: by a result, or at a cluster number -1, with the last cluster
-- and the records that were read last.
pub data Walk (A : Type 0) : Type 0 where
  found : A → Walk A
  ended : ℕ → ℕ → List DirRecord → Walk A

module _ {Store : Type 0} (dev : SectorDevice Store) where
  -- `readsector` of one sector of a cluster into `records`.
  unfoldable pub read_records : Fs Store → ℕ → ℕ → List DirRecord
  read_records s c sector_no =
      decode_records records_per_sector
        (dev.read_sector s.disk (u32 (cluster_no_to_lba s c + sector_no)))

  -- `writesector` of `records` to one sector of a cluster.
  unfoldable pub write_records : List DirRecord → ℕ → ℕ → Fs Store → Fs Store
  write_records records c sector_no s = record s {
    disk =
        dev.write_sector (encode_records records) (u32 (cluster_no_to_lba s c + sector_no)) s.disk;
  }

-- Behind the loop over a cluster's sectors: the function returns, or the loop over clusters goes on
-- with the next one.
unfoldable pub after_sectors :
    {Store A : Type 0}
    → (ℕ → List DirRecord → Prog (Fs Store) (Walk A))
    → ℕ
    → Option A × List DirRecord
    → Prog (Fs Store) (Walk A)
after_sectors go c (some a, now) s = pure (found a) s
after_sectors go c (none, now) s = and_then (fat32_next_cluster c s) (λ next. go next now)

module _ {Store A : Type 0} (dev : SectorDevice Store)
    (visit : ℕ → ℕ → List DirRecord → Prog (Fs Store) (Option A)) where
  -- The loop over the sectors of a cluster, with the rounds left.
  unfoldable pub walk_sectors :
      ℕ → ℕ → ℕ → List DirRecord → Prog (Fs Store) (Option A × List DirRecord)
  walk_sectors zero sector_no c records s = done (none, records) s
  walk_sectors (suc n) sector_no c records s =
      let now = read_records dev s c sector_no in
      and_then (visit c sector_no now s)
        (elim [ some a ↦ pure (some a, now) | none ↦ walk_sectors n (sector_no + 1) c now ])

  -- The loop over the clusters of a chain.
  unfoldable pub walk_directory : ℕ → ℕ → ℕ → List DirRecord → Prog (Fs Store) (Walk A)
  unfolding after_sectors
  walk_directory zero c prev records s = no_rounds s
  walk_directory (suc n) c prev records s =
      let rest =
        and_then (walk_sectors (sectors_per_cluster s) 0 c records s)
          (after_sectors (λ next now. walk_directory n next c now) c) in
      if c == minus_one then done (ended c prev records) s else rest

abbrev pub zero_record : DirRecord
zero_record = record {
  dir_name = replicate 11 0;
  dir_attr = 0;
  pad1 = replicate 8 0;
  dir_first_cluster_high = 0;
  pad2 = replicate 4 0;
  dir_first_cluster_low = 0;
  dir_file_size = 0;
}

-- The loop of `fat32_get_cluster_no` over the records of a sector: what it returns, if it does.
unfoldable pub search_records : List ℕ → List DirRecord → Option ℕ
search_records name [] = none
search_records name (r ∷ rs) =
    let rest = search_records name rs in
    if not (is_lfn r)
    then (if is_terminal r
        then some minus_one
        else if strncmp r.dir_name name 11 == 0
        then some (first_cluster r)
        else rest)
    else rest

-- What a function returns whose loop over clusters ends.
abbrev pub result_or : {Store : Type 0} → ℕ → Walk ℕ → Prog (Fs Store) ℕ
result_or d (found a) = pure a
result_or d (ended c prev records) = pure d

-- `((uint8_t *)&r)[0] = 0`
unfoldable pub terminate : DirRecord → DirRecord
terminate r = record r { dir_name = set r.dir_name 0 0 }

module _ {Store : Type 0} (dev : SectorDevice Store) where
  unfoldable pub fat32_get_cluster_no : ℕ → List ℕ → Prog (Fs Store) ℕ
  fat32_get_cluster_no rounds name s =
      if s.did_init
      then (do
        w ←
            walk_directory dev (λ c k records. pure (search_records name records)) rounds
              fat32_root_cluster_no fat32_root_cluster_no []
        result_or minus_one w)
          s
      else halted s

  -- What is written where the record i of a sector is free: the record is filled in, the one behind
  -- it becomes the terminal. Behind the last record of a sector the terminal opens the cluster's
  -- next sector; behind the last one of a cluster there is none.
  unfoldable pub insert_at : ℕ → List ℕ → ℕ → ℕ → ℕ → List DirRecord → Prog (Fs Store) ℕ
  insert_at num_clusters name c sector_no i records s =
      (do
        (first, r) ← alloc_local_file_at dev (get_or records i zero_record) num_clusters name
        let filled = set records i r
        if i == records_per_sector - 1
            then (if sector_no == sectors_per_cluster s - 1
                then modify (write_records dev filled c sector_no)
                else (do
                  modify (write_records dev filled c sector_no)
                  modify (
                      write_records dev (set filled 0 (terminate (get_or filled 0 zero_record))) c
                        (sector_no + 1))))
            else modify (
                write_records dev
                  (set filled (i + 1) (terminate (get_or filled (i + 1) zero_record))) c sector_no)
        pure first)
        s

  -- The loop of `fat32_alloc_local_file` over the records of a sector, at index i.
  unfoldable pub insert_scan :
      ℕ → ℕ → ℕ → List ℕ → ℕ → ℕ → List DirRecord → Prog (Fs Store) (Option ℕ)
  insert_scan zero i num_clusters name c sector_no records s = pure none s
  insert_scan (suc n) i num_clusters name c sector_no records s =
      let rest = insert_scan n (i + 1) num_clusters name c sector_no records s in
      let r = get_or records i zero_record in
      if not (is_lfn r) && is_terminal r
      then and_then (insert_at num_clusters name c sector_no i records s)
          (λ first. pure (some first))
      else rest

  -- Behind the loop over clusters: the branch for a chain that ended.
  unfoldable pub insert_new_cluster : ℕ → List ℕ → Walk ℕ → Prog (Fs Store) ℕ
  insert_new_cluster num_clusters name (found first) s = pure first s
  insert_new_cluster num_clusters name (ended c prev records) s =
      if c == cluster_no minus_one
      then (do
        new ← alloc_free_local_cluster dev
        modify (fat32_point_fat dev (cluster_no prev) (cluster_no new))
        (first, r) ← alloc_local_file_at dev (get_or records 0 zero_record) num_clusters name
        let filled = set records 0 r
        modify (
            write_records dev (set filled 1 (terminate (get_or filled 1 zero_record)))
              (cluster_no new) 0)
        pure first)
          s
      else pure minus_one s

  unfoldable pub fat32_alloc_local_file : ℕ → ℕ → List ℕ → Prog (Fs Store) ℕ
  fat32_alloc_local_file rounds num_clusters name s =
      if s.did_init
      then (do
        let start = (volume s).root_dir_first_cluster
        w ←
            walk_directory dev (insert_scan records_per_sector 0 num_clusters name) rounds start
              start []
        insert_new_cluster num_clusters name w)
          s
      else halted s
