-- ===== src/Fat32/Examples.antt =====
-- The file system's theorems at the volume of Fat32/Sample.
use rpi0_naivegfs.Base.{
  ℕ, ◌+◌, ◌-◌, ◌*◌, ◌<◌, ◌≤◌, ◌^◌, ◌≡◌, ◌≢◌, ◌↔◌, Bool, Option, Prog, refl, true, List, [], ◌∷◌,
  ◌++◌, done, pure, none, some, replicate, minus_one, arith,
}
use rpi0_naivegfs.Fat32.Layout.{
  DirRecord, fat32_root_cluster_no, fat32_terminal_cluster_no, encode_record, decode_records,
  decode_record,
}
use rpi0_naivegfs.Fat32.State.{
  Fs, update, volume, blank_sector, sectors_per_cluster, cluster_no_to_lba,
}
use rpi0_naivegfs.Fat32.Table.{
  fat32_next_cluster, find_free_local_cluster, alloc_free_local_cluster, fat32_point_fat,
}
use rpi0_naivegfs.Fat32.Table.Find.{
  free_from, free_clusters, head_or, find_free_local_cluster-free_clusters,
}
use rpi0_naivegfs.Fat32.Table.Geometry.{IsMounted, IsMounted-update, cluster_no_to_lba-place}
use rpi0_naivegfs.Fat32.Table.Synced.{IsSynced}
use rpi0_naivegfs.Fat32.Table.Alloc.{
  IsAllocated, alloc_free_local_cluster-IsAllocated, fat32_point_fat-IsSynced,
  alloc_free_local_cluster-full,
}
use rpi0_naivegfs.Fat32.Files.{fill_record, alloc_local_file_at}
use rpi0_naivegfs.Fat32.Files.Filled.{IsFilled}
use rpi0_naivegfs.Fat32.Files.Chain.{IsExtended, alloc_local_file_at-IsExtended}
use rpi0_naivegfs.Fat32.Directory.{
  zero_record, read_records, walk_directory, ended, fat32_get_cluster_no,
}
use rpi0_naivegfs.Fat32.Directory.Lookup.{
  cluster_records, directory_records, walk_directory-ne-ended,
}
use rpi0_naivegfs.Fat32.Directory.Listing.{
  listed, has_terminal, lookup, fat32_get_cluster_no-lookup,
}
use rpi0_naivegfs.Fat32.Dumps.{cluster_list}
use rpi0_naivegfs.Fat32.Dumps.Inspect.{
  store_bytes, bytes_at, read_clusters, inspect_clusters, inspect_record, inspect_records,
  fat32_inspect_dir,
}
use rpi0_naivegfs.Fat32.Dumps.Chains.{AllInTable, cluster_list-IsChain}
use rpi0_naivegfs.Fat32.Clusters.{read_cluster, write_cluster, read_sectors}
use rpi0_naivegfs.Fat32.Clusters.RoundTrip.{read_cluster-write_cluster}
use rpi0_naivegfs.Strings.{strncmp}
use rpi0_naivegfs.Fat32.Sample.{
  small_fs-IsMounted, small_fs-IsSynced, free_clusters-small_fs, Disk, memory_device, small_table,
  small_disk, small_fs, a_name, a_record,
}

alloc_local_file_at-IsExtended_example :
    (t : Fs Disk) × (alloc_local_file_at memory_device zero_record 2 a_name small_fs
      ≡ done (3, fill_record a_name 3 zero_record) t)
    × IsExtended memory_device 3 (4 ∷ []) (5 ∷ []) small_fs t
    × (memory_device.read_sector t.disk (cluster_no_to_lba small_fs 3) ≡ blank_sector)
    × IsFilled a_name 3 zero_record (fill_record a_name 3 zero_record)
alloc_local_file_at-IsExtended_example =
    alloc_local_file_at-IsExtended memory_device zero_record a_name 3 (4 ∷ []) (5 ∷ []) small_fs
      small_fs-IsMounted small_fs-IsSynced free_clusters-small_fs (omega arith)

alloc_free_local_cluster-IsAllocated_example :
    (t : Fs Disk) × (alloc_free_local_cluster memory_device small_fs ≡ done 3 t)
    × IsAllocated memory_device 3 (4 ∷ 5 ∷ []) small_fs t
alloc_free_local_cluster-IsAllocated_example =
    alloc_free_local_cluster-IsAllocated memory_device small_fs small_fs-IsMounted small_fs-IsSynced
      free_clusters-small_fs

fat32_point_fat-IsSynced_example :
    let t = fat32_point_fat memory_device 2 6 small_fs in
    IsMounted t
    × IsSynced memory_device t
    × (free_clusters t ≡ free_clusters small_fs)
    × (t.fat ≡ update small_fs.fat 2 6)
    × (t.fat_end ≡ small_fs.fat_end)
    × (volume t ≡ volume small_fs)
fat32_point_fat-IsSynced_example =
    fat32_point_fat-IsSynced memory_device 2 6 small_fs-IsMounted small_fs-IsSynced (omega arith)
      (λ e. omega (arith, e)) (λ e. omega (arith, e))

find_free_local_cluster-free_clusters_example :
    find_free_local_cluster small_fs ≡ done (head_or (free_clusters small_fs) minus_one) small_fs
find_free_local_cluster-free_clusters_example =
    find_free_local_cluster-free_clusters small_fs refl (omega arith)

abbrev full_fs : Fs Disk
full_fs = record small_fs { fat = λ i. fat32_terminal_cluster_no; disk = small_disk }

free_clusters-full_fs : free_clusters full_fs ≡ []
unfolding free_clusters free_from
free_clusters-full_fs = refl

alloc_free_local_cluster-full_example :
    (t : Fs Disk) × (alloc_free_local_cluster memory_device full_fs ≡ done minus_one t)
    × (t.fat ≡ update full_fs.fat 0x0fff_ffff fat32_terminal_cluster_no)
    × (t.fat_end ≤ 0x0fff_ffff)
alloc_free_local_cluster-full_example =
    alloc_free_local_cluster-full memory_device full_fs
      (IsMounted-update (λ i. fat32_terminal_cluster_no) small_disk small_fs-IsMounted)
      free_clusters-full_fs

cluster_no_to_lba-place_example :
    (cluster_no_to_lba small_fs 5 + 0
      ≡ (volume small_fs).cluster_begin_lba + ((5 - 2) * sectors_per_cluster small_fs + 0))
    × (cluster_no_to_lba small_fs 5 + 0 < 2 ^ 32)
    × (32 + 1 ≤ cluster_no_to_lba small_fs 5 + 0)
    × ((cluster_no_to_lba small_fs 5 + 0 ≡ cluster_no_to_lba small_fs 7 + 0)
        ↔ (Path ℕ 5 7 × Path ℕ 0 0))
cluster_no_to_lba-place_example =
    cluster_no_to_lba-place small_fs-IsMounted 5 0 7 0 (omega arith) (omega arith) (omega arith)
      (omega arith) (omega arith) (omega arith)

abbrev a_cluster : List ℕ
a_cluster = replicate 512 7

read_cluster-write_cluster_example :
    (t : Fs Disk) × (write_cluster memory_device 4 a_cluster small_fs ≡ done tt t)
    × (read_cluster memory_device 4 t ≡ a_cluster)
read_cluster-write_cluster_example =
    read_cluster-write_cluster memory_device 4 a_cluster small_fs small_fs-IsMounted (omega arith)
      (omega arith) refl

-- A root directory with one file.
abbrev listed_fs : Fs Disk
listed_fs = record small_fs {
  disk = update small_disk 33 (encode_record a_record ++ replicate 480 0);
}

abbrev listed_records : List DirRecord
listed_records = directory_records memory_device listed_fs (fat32_root_cluster_no ∷ [])

has_terminal-listed_fs : has_terminal listed_records ≡ true
unfolding directory_records cluster_records read_records decode_records decode_record encode_record
    fill_record cluster_no_to_lba
has_terminal-listed_fs = refl

fat32_get_cluster_no-lookup_example :
    fat32_get_cluster_no memory_device 1 a_name listed_fs
    ≡ done (lookup a_name (listed listed_records)) listed_fs
fat32_get_cluster_no-lookup_example =
    fat32_get_cluster_no-lookup memory_device a_name 1 [] listed_fs refl tt (omega arith)
      has_terminal-listed_fs

-- The file is found at its cluster.
lookup-listed_fs : lookup a_name (listed listed_records) ≡ 5
unfolding directory_records cluster_records read_records decode_records decode_record encode_record
    fill_record cluster_no_to_lba strncmp
lookup-listed_fs = refl

abbrev look_on : ℕ → ℕ → List DirRecord → Prog (Fs Disk) (Option ℕ)
look_on c k records = pure none

walk_directory-ne-ended_example :
    walk_directory memory_device look_on 3 2 2 [] small_fs ≢ done (ended 0x0fff_ffff 2 []) small_fs
walk_directory-ne-ended_example =
    walk_directory-ne-ended memory_device look_on 3 2 2 [] small_fs small_fs 0x0fff_ffff 2 []
      (λ e. omega (arith, e))

-- A chain through the clusters 3, 5 and 4.
abbrev chained_fs : Fs Disk
chained_fs = record small_fs { fat = update (update small_table 3 5) 5 4 }

abbrev linked_fs : Fs Disk
linked_fs = record chained_fs { fat = update chained_fs.fat 4 fat32_terminal_cluster_no }

chained_clusters : AllInTable (3 ∷ 5 ∷ 4 ∷ [])
chained_clusters = ground arith

cluster_list-IsChain_example : cluster_list 4 3 linked_fs ≡ done (3 ∷ 5 ∷ 4 ∷ [], true) linked_fs
cluster_list-IsChain_example =
    cluster_list-IsChain 4 3 (5 ∷ 4 ∷ []) linked_fs refl (refl, (refl, refl)) chained_clusters
      (omega arith)

-- From the root directory's cluster on, nothing is printed but "PRE-ROOT".
root_dump : cluster_list 2 2 linked_fs ≡ done ([], Bool.false) linked_fs
unfolding cluster_list
root_dump = refl

-- `fat32_inspect_dir` on the root directory with one file, whose cluster the table calls free.
inspect_lem :
    fat32_inspect_dir memory_device 2 (λ i. 0xee) fat32_root_cluster_no listed_fs
    ≡ done
        (
          fat32_terminal_cluster_no,
          record { idx = 0; name = a_name; clusters = some (5 ∷ [], true) } ∷ [],
        )
        listed_fs
unfolding fat32_inspect_dir read_clusters store_bytes bytes_at inspect_records inspect_record
    inspect_clusters read_cluster read_sectors fat32_next_cluster decode_record encode_record
    fill_record cluster_no_to_lba
inspect_lem = refl
