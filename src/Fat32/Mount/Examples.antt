-- ===== src/Fat32/Mount/Examples.antt =====
-- Disks with one and with two partitions in use, and the theorems on mounting at them.
use rpi0_naivegfs.Base.{
  ◌%◌, ℕ, zero, suc, ◌*◌, ◌^◌, ◌<◌, ◌≡◌, ◌≢◌, refl, true, false, List, [], ◌∷◌, ◌++◌, done,
  replicate, arith,
}
use rpi0_naivegfs.Fat32.Layout.{Partition, partition_of, decode_partition, decode_volume_id}
use rpi0_naivegfs.Fat32.State.{Fs, update, volume, blank_sector}
use rpi0_naivegfs.Fat32.Mount.{word_at, volume_data, load_volume, fat32_init}
use rpi0_naivegfs.Fat32.Mount.Load.{load_volume-gap}
use rpi0_naivegfs.Fat32.Mount.Partitions.{fat32_init-one_partition, fat32_init-two_partitions}
use rpi0_naivegfs.Fat32.Table.{fat32_point_fat}
use rpi0_naivegfs.Fat32.Table.Alloc.{fat32_point_fat-IsSynced}
use rpi0_naivegfs.Fat32.Table.Frame.{fat32_point_fat-IsBelowKept}
use rpi0_naivegfs.Fat32.Mount.Card.{IsOnCard, IsOnCard-kept, table_of, fat32_init-IsOnCard}
use rpi0_naivegfs.Fat32.Mount.Restart.{fat32_init-again}
use rpi0_naivegfs.Fat32.Mount.Sample.{
  card, cold_fs, card-IsCard, warm_fs, warm_fs-IsOnCard, warm_fs-words,
}
use rpi0_naivegfs.Fat32.Sample.{Disk, memory_device, small_fs}

-- A partition of 256 sectors that begins at sector 64.
abbrev an_entry : List ℕ
an_entry = 0 ∷ 0 ∷ 0 ∷ 0 ∷ 0x0b ∷ 0 ∷ 0 ∷ 0 ∷ 64 ∷ 0 ∷ 0 ∷ 0 ∷ 0 ∷ 1 ∷ 0 ∷ 0 ∷ []

abbrev one_partition : List ℕ
one_partition = replicate 446 0 ++ (an_entry ++ replicate 50 0)

abbrev two_partitions : List ℕ
two_partitions = replicate 446 0 ++ (an_entry ++ (an_entry ++ replicate 34 0))

abbrev an_id : List ℕ
an_id =
    replicate 11 0
    ++ (0
        ∷ 2
        ∷ 1
        ∷ 32
        ∷ 0
        ∷ 1
        ∷ (replicate 19 0 ++ (1 ∷ 0 ∷ 0 ∷ 0 ∷ 0 ∷ 0 ∷ 0 ∷ 0 ∷ 2 ∷ 0 ∷ 0 ∷ 0 ∷ replicate 464 0)))

abbrev raw_fs : List ℕ → Fs Disk
raw_fs mbr = record small_fs {
  did_init = false;
  disk = update (update (λ lba. blank_sector) 0 mbr) 64 an_id;
}

used_sectors : (partition_of one_partition 0).num_sectors ≢ 0
unfolding partition_of decode_partition
used_sectors e = omega (arith, e)

unused_sectors : (j : ℕ) → j < 4 → j ≢ 0 → (partition_of one_partition j).num_sectors ≡ 0
unfolding partition_of decode_partition
unused_sectors zero h ne = absurd (ne refl)
unused_sectors (suc zero) h ne = refl
unused_sectors (suc (suc zero)) h ne = refl
unused_sectors (suc (suc (suc zero))) h ne = refl
unused_sectors (suc (suc (suc (suc j)))) h ne = absurd (omega arith)

lba_begin-one_partition : (partition_of one_partition 0).lba_begin ≡ 64
unfolding partition_of decode_partition
lba_begin-one_partition = refl

abbrev a_partition : Partition
a_partition = partition_of one_partition 0

sector_size :
    (decode_volume_id ((raw_fs one_partition).disk a_partition.lba_begin)).bytes_per_sector ≡ 512
unfolding partition_of decode_partition decode_volume_id
sector_size = refl

table_size :
    512 * (decode_volume_id ((raw_fs one_partition).disk a_partition.lba_begin)).sectors_per_fat
    < 2 ^ 32
unfolding partition_of decode_partition decode_volume_id
table_size = omega arith

fat32_init-one_partition_example :
    let v = decode_volume_id ((raw_fs one_partition).disk a_partition.lba_begin) in
    (t : Fs Disk) × (fat32_init memory_device (raw_fs one_partition) ≡ done 0 t)
    × (t.chosen_partition ≡ 0)
    × (volume t ≡ volume_data a_partition v)
    × (t.did_init ≡ true)
    × (t.fat_end ≡ 128 * v.sectors_per_fat)
    × (t.disk ≡ (raw_fs one_partition).disk)
fat32_init-one_partition_example =
    fat32_init-one_partition memory_device 0 (raw_fs one_partition) (omega arith) used_sectors
      unused_sectors sector_size table_size

used_first : (partition_of two_partitions 0).num_sectors ≢ 0
unfolding partition_of decode_partition
used_first e = omega (arith, e)

used_second : (partition_of two_partitions 1).num_sectors ≢ 0
unfolding partition_of decode_partition
used_second e = omega (arith, e)

fat32_init-two_partitions_example :
    fat32_init memory_device (raw_fs two_partitions) ≢ done 0 (raw_fs two_partitions)
fat32_init-two_partitions_example =
    fat32_init-two_partitions memory_device 0 1 (raw_fs two_partitions) (raw_fs two_partitions) 0
      (omega arith) (omega arith) used_first used_second

load_volume-gap_example : (load_volume memory_device small_fs).fat 200 ≡ small_fs.fat 200
load_volume-gap_example = load_volume-gap memory_device small_fs 200 (omega arith)

fat32_init-IsOnCard_example :
    (t : Fs Disk) × (fat32_init memory_device cold_fs ≡ done 0 t)
    × IsOnCard memory_device card 0 t
    × (t.disk ≡ card)
    × ((i : ℕ) → i < 128 → t.fat i ≡ word_at (table_of memory_device card 0) i)
fat32_init-IsOnCard_example = fat32_init-IsOnCard memory_device 0 cold_fs card-IsCard

-- Linking the root directory to another cluster changes the table.
abbrev linked_fs : Fs Disk
linked_fs = fat32_point_fat memory_device 2 3 warm_fs

linked_fs-IsOnCard : IsOnCard memory_device card 0 linked_fs
linked_fs-IsOnCard =
    let on = warm_fs-IsOnCard in
    let inside : 2 < warm_fs.fat_end = omega (arith, on.table_end) in
    let used : warm_fs.fat 2 ≢ 0 = λ e. omega (arith, e, warm_fs-words 2 (omega arith)) in
    let (m, sync, free, table, ends, same) =
      fat32_point_fat-IsSynced memory_device 2 3 on.mounted on.synced inside used
        (λ e. omega (arith, e)) in
    IsOnCard-kept memory_device on m sync same ends
      (fat32_point_fat-IsBelowKept memory_device 2 3 on.mounted inside)

fat32_init-again_example :
    (w : Fs Disk) × (fat32_init memory_device (record small_fs { disk = linked_fs.disk })
      ≡ done 0 w)
    × IsOnCard memory_device card 0 w
    × (w.disk ≡ linked_fs.disk)
    × ((i : ℕ) → i < 128 → w.fat i ≡ linked_fs.fat i % 2 ^ 32)
fat32_init-again_example =
    fat32_init-again memory_device card 0 card-IsCard linked_fs linked_fs-IsOnCard small_fs
