-- ===== src/Fat32/Directory/Sample.antt =====
-- The root directory of the card of Fat32/Mount/Sample, once it is mounted.
use rpi0_naivegfs.Base.{
  ℕ, zero, suc, ◌%◌, ◌^◌, ◌≡◌, refl, ◌∙◌, true, inl, inr, Bool-cases, ◌==◌, List, [], ◌∷◌,
  replicate, arith,
}
use rpi0_naivegfs.Fat32.Layout.{
  fat32_root_cluster_no, decode_records, decode_record, partition_of, decode_partition,
  decode_volume_id,
}
use rpi0_naivegfs.Fat32.Layout.Sectors.{all_bytes, all_bytes-AllBytes, AllBytes, IsSector}
use rpi0_naivegfs.Fat32.State.{blank_sector, cluster_no_to_lba}
use rpi0_naivegfs.Fat32.Table.Find.{free_from, free_from-same, free_clusters}
use rpi0_naivegfs.Fat32.Mount.{
  take_partition, probe_partitions, load_volume, volume_data, fat32_init,
}
use rpi0_naivegfs.Fat32.Mount.Words.{table_sector-IsSector}
use rpi0_naivegfs.Fat32.Mount.Sample.{
  boot_record, volume_sector, card, warm_fs, warm_fs-IsOnCard, warm_fs-words,
}
use rpi0_naivegfs.Fat32.Directory.{read_records}
use rpi0_naivegfs.Fat32.Directory.Listing.{listed, has_terminal}
use rpi0_naivegfs.Fat32.Directory.Lookup.{cluster_records, directory_records}
use rpi0_naivegfs.Fat32.Directory.Place.{unlisted}
use rpi0_naivegfs.Fat32.Directory.Created.{AllUsed}
use rpi0_naivegfs.Fat32.Directory.Creation.{AllSectors}
use rpi0_naivegfs.Fat32.Sample.{memory_device, small_table}

replicate-AllBytes : (n : ℕ) → AllBytes (replicate n 0)
replicate-AllBytes zero = tt
replicate-AllBytes (suc n) = (omega arith, replicate-AllBytes n)

pub blank_sector-IsSector : IsSector blank_sector
blank_sector-IsSector = record { size = refl; all_bytes = replicate-AllBytes 512 }

boot_record-IsSector : IsSector boot_record
unfolding all_bytes
boot_record-IsSector = record { size = refl; all_bytes = all_bytes-AllBytes boot_record refl }

volume_sector-IsSector : IsSector volume_sector
unfolding all_bytes
volume_sector-IsSector = record { size = refl; all_bytes = all_bytes-AllBytes volume_sector refl }

card-AllSectors : AllSectors memory_device card
card-AllSectors lba = elim (Bool-cases (lba == 96)) [
  | inl at ↦ rw at (table_sector-IsSector small_table 0)
  | inr away ↦ elim (Bool-cases (lba == 64)) [
    | inl at ↦ rw (away, at) volume_sector-IsSector
    | inr away2 ↦ elim (Bool-cases (lba == 0)) [
      | inl at ↦ rw (away, away2, at) boot_record-IsSector
      | inr away3 ↦ rw (away, away2, away3) blank_sector-IsSector
    ]
  ]
]

pub warm_fs-AllSectors : AllSectors memory_device warm_fs.disk
unfolding fat32_init probe_partitions take_partition load_volume partition_of decode_partition
    decode_volume_id
warm_fs-AllSectors = card-AllSectors

small_words : (i : ℕ) → small_table i % 2 ^ 32 ≡ small_table i
small_words i = ground arith

pub free_clusters-warm_fs : free_clusters warm_fs ≡ 3 ∷ 4 ∷ 5 ∷ []
unfolding free_clusters free_from
free_clusters-warm_fs = rw warm_fs-IsOnCard.table_end (
    free_from-same warm_fs.fat small_table 2 126
      (λ i lo hi. warm_fs-words i (omega arith) ∙ small_words i))

pub warm_root-AllUsed : AllUsed warm_fs (fat32_root_cluster_no ∷ [])
warm_root-AllUsed = (
  omega arith,
  omega (arith, warm_fs-IsOnCard.table_end),
  (λ e. omega (arith, e, warm_fs-words 2 (omega arith))),
  tt,
)

pub warm_root-has_terminal :
    has_terminal (directory_records memory_device warm_fs (fat32_root_cluster_no ∷ [])) ≡ true
unfolding directory_records cluster_records read_records decode_records decode_record
    cluster_no_to_lba fat32_init probe_partitions take_partition load_volume volume_data
    partition_of decode_partition decode_volume_id
warm_root-has_terminal = refl

pub warm_root-unlisted :
    (name : List ℕ)
    → unlisted name (listed (directory_records memory_device warm_fs (fat32_root_cluster_no ∷ [])))
      ≡ true
unfolding directory_records cluster_records read_records decode_records decode_record
    cluster_no_to_lba fat32_init probe_partitions take_partition load_volume volume_data
    partition_of decode_partition decode_volume_id
warm_root-unlisted name = refl
