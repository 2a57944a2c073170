-- ===== src/Fat32/Directory/Examples.antt =====
-- The round trip through the directory at the volume of Fat32/Sample, and the facts on that volume that
-- the theorems on the files of a directory ask for.
use rpi0_naivegfs.Base.{
  some, ◌++◌, ℕ, zero, suc, ◌≡◌, refl, true, inl, inr, Bool-cases, ◌==◌, List, [], ◌∷◌, done,
  replicate, arith,
}
use rpi0_naivegfs.Strings.{strncmp}
use rpi0_naivegfs.Fat32.Layout.{
  DirRecord, encode_record, fat32_root_cluster_no, decode_records, decode_record,
}
use rpi0_naivegfs.Fat32.Layout.Sectors.{all_bytes, all_bytes-AllBytes, IsSector}
use rpi0_naivegfs.Fat32.State.{update, Fs, blank_sector, cluster_no_to_lba}
use rpi0_naivegfs.Fat32.Table.Find.{free_clusters, free_from}
use rpi0_naivegfs.Fat32.Table.Geometry.{IsMounted, IsMounted-update}
use rpi0_naivegfs.Fat32.Table.Synced.{IsSynced}
use rpi0_naivegfs.Fat32.Files.Chain.{IsChain}
use rpi0_naivegfs.Fat32.Files.{fill_record}
use rpi0_naivegfs.Fat32.Directory.{
  search_records, read_records, fat32_alloc_local_file, fat32_get_cluster_no,
}
use rpi0_naivegfs.Fat32.Mount.Words.{table_sector-IsSector}
use rpi0_naivegfs.Fat32.Directory.Listing.{listed, has_terminal}
use rpi0_naivegfs.Fat32.Directory.Lookup.{
  fat32_get_cluster_no-search, cluster_records, directory_records,
}
use rpi0_naivegfs.Fat32.Directory.Place.{unlisted}
use rpi0_naivegfs.Fat32.Directory.Created.{AllUsed}
use rpi0_naivegfs.Fat32.Directory.Named.{IsName}
use rpi0_naivegfs.Fat32.Directory.Creation.{AllSectors}
use rpi0_naivegfs.Fat32.Directory.RoundTrip.{
  fat32_get_cluster_no-fat32_alloc_local_file, fat32_get_cluster_no-kept,
}
use rpi0_naivegfs.Fat32.Layout.{partition_of, decode_partition, decode_volume_id}
use rpi0_naivegfs.Fat32.Table.Frame.{write_first}
use rpi0_naivegfs.Fat32.Mount.{
  take_partition, probe_partitions, load_volume, volume_data, fat32_init,
}
use rpi0_naivegfs.Fat32.Clusters.{read_cluster}
use rpi0_naivegfs.Fat32.Clusters.Kept.{read_cluster-fat32_alloc_local_file}
use rpi0_naivegfs.Fat32.Mount.Card.{IsOnCard, write_first-IsOnCard}
use rpi0_naivegfs.Fat32.Mount.Sample.{card, card-IsCard, warm_fs, warm_fs-IsOnCard}
use rpi0_naivegfs.Fat32.Directory.Remounted.{fat32_get_cluster_no-restart}
use rpi0_naivegfs.Fat32.Directory.RoundTrip.{AllUsed-kept}
use rpi0_naivegfs.Fat32.Directory.Sample.{warm_root-AllUsed, blank_sector-IsSector}
use rpi0_naivegfs.Fat32.Sample.{
  a_record, Disk, memory_device, small_table, small_disk, small_fs, a_name, small_fs-IsMounted,
  small_fs-IsSynced, free_clusters-small_fs,
}

pub small_disk-AllSectors : AllSectors memory_device small_disk
small_disk-AllSectors lba = elim (Bool-cases (lba == 32)) [
  | inl at ↦ rw at (table_sector-IsSector small_table 0)
  | inr away ↦ rw away blank_sector-IsSector
]

pub small_root-AllUsed : AllUsed small_fs (fat32_root_cluster_no ∷ [])
small_root-AllUsed = (omega arith, omega arith, (λ e. omega (arith, e)), tt)

pub small_root-has_terminal :
    has_terminal (directory_records memory_device small_fs (fat32_root_cluster_no ∷ [])) ≡ true
unfolding directory_records cluster_records read_records decode_records decode_record
    cluster_no_to_lba
small_root-has_terminal = refl

pub small_root-unlisted :
    (name : List ℕ)
    → unlisted name (listed (directory_records memory_device small_fs (fat32_root_cluster_no ∷ [])))
      ≡ true
unfolding directory_records cluster_records read_records decode_records decode_record
    cluster_no_to_lba
small_root-unlisted name = refl

a_name-IsName : IsName a_name
a_name-IsName = record { long = omega arith; real = λ e. omega (arith, e) }

fat32_get_cluster_no-fat32_alloc_local_file_example :
    (t : Fs Disk) × (fat32_alloc_local_file memory_device 1 2 a_name small_fs ≡ done 3 t)
    × (fat32_get_cluster_no memory_device 1 a_name t ≡ done 3 t)
    × IsMounted t
    × IsSynced memory_device t
    × IsChain t.fat 3 (4 ∷ [])
    × (memory_device.read_sector t.disk (cluster_no_to_lba t 3) ≡ blank_sector)
fat32_get_cluster_no-fat32_alloc_local_file_example =
    fat32_get_cluster_no-fat32_alloc_local_file memory_device a_name 1 3 [] (4 ∷ []) (5 ∷ [])
      small_fs small_fs-IsMounted small_fs-IsSynced small_disk-AllSectors tt small_root-AllUsed
      (omega arith) small_root-has_terminal (small_root-unlisted a_name) a_name-IsName
      free_clusters-small_fs (omega arith)

-- The root directory holds one file, at cluster 5.
abbrev one_file : List ℕ
one_file = encode_record a_record ++ replicate 480 0

abbrev one_file_fs : Fs Disk
one_file_fs = record small_fs { disk = update small_disk 33 one_file }

abbrev one_file_records : List DirRecord
one_file_records = directory_records memory_device one_file_fs (fat32_root_cluster_no ∷ [])

one_file-IsSector : IsSector one_file
unfolding encode_record fill_record all_bytes
one_file-IsSector = record { size = refl; all_bytes = all_bytes-AllBytes one_file refl }

one_file_fs-IsSynced : IsSynced memory_device one_file_fs
one_file_fs-IsSynced zero h = refl
one_file_fs-IsSynced (suc k) h = absurd (omega arith)

one_file_fs-AllSectors : AllSectors memory_device one_file_fs.disk
one_file_fs-AllSectors lba = elim (Bool-cases (lba == 33)) [
  | inl at ↦ rw at one_file-IsSector
  | inr away ↦ rw away (small_disk-AllSectors lba)
]

one_file-has_terminal : has_terminal one_file_records ≡ true
unfolding directory_records cluster_records read_records decode_records decode_record encode_record
    fill_record cluster_no_to_lba
one_file-has_terminal = refl

-- A name that no file has.
abbrev other_name : List ℕ
other_name = b'A' ∷ b'D' ∷ b'F' ∷ b'S' ∷ b' ' ∷ b' ' ∷ b' ' ∷ b' ' ∷ b'B' ∷ b'I' ∷ b'N' ∷ []

one_file-unlisted : unlisted other_name (listed one_file_records) ≡ true
unfolding directory_records cluster_records read_records decode_records decode_record encode_record
    fill_record cluster_no_to_lba strncmp
one_file-unlisted = refl

free_clusters-one_file_fs : free_clusters one_file_fs ≡ 3 ∷ 4 ∷ 5 ∷ []
unfolding free_clusters free_from
free_clusters-one_file_fs = refl

one_file-found : search_records a_name one_file_records ≡ some 5
unfolding directory_records cluster_records read_records decode_records decode_record encode_record
    fill_record cluster_no_to_lba search_records strncmp
one_file-found = refl

fat32_get_cluster_no-kept_example :
    (t : Fs Disk) × (fat32_alloc_local_file memory_device 1 2 other_name one_file_fs ≡ done 3 t)
    × (fat32_get_cluster_no memory_device 1 a_name t ≡ done 5 t)
fat32_get_cluster_no-kept_example =
    fat32_get_cluster_no-kept memory_device other_name a_name 1 3 5 [] (4 ∷ []) (5 ∷ []) one_file_fs
      (IsMounted-update _ _ small_fs-IsMounted) one_file_fs-IsSynced one_file_fs-AllSectors tt
      small_root-AllUsed (omega arith) one_file-has_terminal one_file-unlisted
      (record { long = omega arith; real = λ e. omega (arith, e) }) free_clusters-one_file_fs
      (omega arith)
      (fat32_get_cluster_no-search memory_device a_name 1 [] one_file_fs refl tt (omega arith)
        one_file-found)
      (λ e. omega (arith, e))

-- The card's root directory with one file.
abbrev filed_fs : Fs Disk
filed_fs = write_first memory_device one_file 2 warm_fs

filed_fs-IsOnCard : IsOnCard memory_device card 0 filed_fs
filed_fs-IsOnCard =
    write_first-IsOnCard memory_device card 0 one_file 2 warm_fs warm_fs-IsOnCard (omega arith)
      (omega (arith, warm_fs-IsOnCard.table_end))

filed-has_terminal :
    has_terminal (directory_records memory_device filed_fs (fat32_root_cluster_no ∷ [])) ≡ true
unfolding directory_records cluster_records read_records decode_records decode_record encode_record
    fill_record cluster_no_to_lba fat32_init probe_partitions take_partition load_volume volume_data
    partition_of decode_partition decode_volume_id
filed-has_terminal = refl

filed-AllUsed : AllUsed filed_fs (fat32_root_cluster_no ∷ [])
filed-AllUsed =
    AllUsed-kept memory_device warm_fs filed_fs (fat32_root_cluster_no ∷ []) refl (λ i nz. refl)
      warm_root-AllUsed

fat32_get_cluster_no-restart_example :
    (x : ℕ) × (w : Fs Disk) × (fat32_get_cluster_no memory_device 1 a_name filed_fs
      ≡ done x filed_fs)
    × (fat32_init memory_device (record small_fs { disk = filed_fs.disk }) ≡ done 0 w)
    × (fat32_get_cluster_no memory_device 1 a_name w ≡ done x w)
fat32_get_cluster_no-restart_example =
    fat32_get_cluster_no-restart memory_device card 0 filed_fs small_fs a_name 1 [] card-IsCard
      filed_fs-IsOnCard tt filed-AllUsed (omega arith) filed-has_terminal

read_cluster-fat32_alloc_local_file_example :
    (t : Fs Disk) × (fat32_alloc_local_file memory_device 1 2 other_name one_file_fs ≡ done 3 t)
    × (read_cluster memory_device 6 t ≡ read_cluster memory_device 6 one_file_fs)
read_cluster-fat32_alloc_local_file_example =
    read_cluster-fat32_alloc_local_file memory_device other_name 1 3 6 [] (4 ∷ []) (5 ∷ [])
      one_file_fs (IsMounted-update _ _ small_fs-IsMounted) one_file_fs-IsSynced
      one_file_fs-AllSectors tt small_root-AllUsed (omega arith) one_file-has_terminal
      one_file-unlisted (record { long = omega arith; real = λ e. omega (arith, e) })
      free_clusters-one_file_fs (omega arith) (omega arith) (omega arith) (λ e. omega (arith, e))
      ((λ e. omega (arith, e)), tt)
