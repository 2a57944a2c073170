-- ===== src/Fat32/Sample.antt =====
-- A small volume on a disk that is a function from sector numbers to sectors.
use rpi0_naivegfs.Base.{
  ℕ, zero, suc, ◌≡◌, refl, arith, true, ◌&&◌, leb, if◌then◌else◌, List, [], ◌∷◌, ==_self, ne→not_==,
}
use rpi0_naivegfs.Fat32.Layout.{DirRecord, VolumeId, fat32_terminal_cluster_no}
use rpi0_naivegfs.Fat32.State.{SectorDevice, FatVolumeData, Fs, update, table_sector, blank_sector}
use rpi0_naivegfs.Fat32.Table.Find.{free_from, free_clusters}
use rpi0_naivegfs.Fat32.Table.Geometry.{IsMounted}
use rpi0_naivegfs.Fat32.Table.Synced.{IsSynced}
use rpi0_naivegfs.Fat32.Files.{fill_record}
use rpi0_naivegfs.Fat32.Directory.{zero_record}

abbrev pub Disk : Type 0
Disk = ℕ → List ℕ

abbrev pub memory_device : SectorDevice Disk
memory_device = record {
  read_sector = λ d lba. d lba;
  write_sector = λ b lba d. update d lba b;
  read-write_same = λ b lba d h. rw (==_self lba);
  read-write_other = λ b lba other d h. rw (ne→not_== other lba h);
}

-- The clusters 3 to 5 are free.
abbrev pub small_table : ℕ → ℕ
small_table i = if leb 3 i && leb i 5 then 0 else fat32_terminal_cluster_no

abbrev pub small_id : VolumeId
small_id = record {
  bytes_per_sector = 512;
  sectors_per_cluster = 1;
  num_reserved_sectors = 32;
  num_fats = 1;
  sectors_per_fat = 1;
  root_dir_first_cluster = 2;
}

abbrev pub small_data : FatVolumeData
small_data = record {
  fat_begin_lba = 32;
  cluster_begin_lba = 33;
  sectors_per_cluster = 1;
  root_dir_first_cluster = 2;
}

abbrev pub small_disk : Disk
small_disk = update (λ lba. blank_sector) 32 (table_sector small_table 0)

abbrev pub small_fs : Fs Disk
small_fs = record {
  did_init = true;
  partitions_in_use = 1;
  chosen_partition = 0;
  all_vol_ids = λ i. small_id;
  vol_data = λ i. small_data;
  fat = small_table;
  fat_end = 128;
  disk = small_disk;
}

abbrev pub a_name : List ℕ
a_name = b'F' ∷ b'S' ∷ b'3' ∷ b'2' ∷ b'-' ∷ b'D' ∷ b'F' ∷ b'S' ∷ b'C' ∷ b'F' ∷ b'G' ∷ []

-- A file at cluster 5.
abbrev pub a_record : DirRecord
a_record = fill_record a_name 5 zero_record

pub small_fs-IsMounted : IsMounted small_fs
small_fs-IsMounted = record {
  ready = refl;
  root = refl;
  same_count = refl;
  count_pos = omega arith;
  table_words = refl;
  table_pos = omega arith;
  table_small = omega arith;
  apart = omega arith;
  fits = omega arith;
}

pub small_fs-IsSynced : IsSynced memory_device small_fs
small_fs-IsSynced zero h = refl
small_fs-IsSynced (suc k) h = absurd (omega arith)

pub free_clusters-small_fs : free_clusters small_fs ≡ 3 ∷ 4 ∷ 5 ∷ []
unfolding free_clusters free_from
free_clusters-small_fs = refl
