-- ===== src/Fat32/Mount.antt =====
-- `fat32_init` of pi-src/fat32.c: reading the partition table, the volume id of the one partition in
-- use, and its table into memory.
pub mod Load
pub mod Partitions
pub mod Words
pub mod Card
pub mod Restart
pub mod Sample
mod Examples
use Prim.Native.Nat.{bit_or}
use rpi0_naivegfs.Base.{
  ℕ, zero, suc, ◌+◌, ◌-◌, ◌*◌, ◌/◌, ◌^◌, true, ◌&&◌, if◌then◌else◌, ◌==◌, ltb, leb, List, Prog,
  Outcome, done, halted, and_then, get_or, drop, word32, u32,
}
use rpi0_naivegfs.Fat32.Layout.{sd_sector_size, VolumeId, decode_volume_id, Partition, partition_of}
use rpi0_naivegfs.Fat32.State.{SectorDevice, FatVolumeData, Fs, update, volume}

-- Word j of a sector.
unfoldable pub word_at : List ℕ → ℕ → ℕ
word_at b j =
    let w = drop (4 * j) b in word32 (get_or w 0 0) (get_or w 1 0) (get_or w 2 0) (get_or w 3 0)

-- Reading a sector into memory at the word `base`.
unfoldable pub load_sector : List ℕ → ℕ → (ℕ → ℕ) → ℕ → ℕ
load_sector b base f i = if leb base i && ltb i (base + 128) then word_at b (i - base) else f i

-- `vol_data[i]`, from the partition's start and its volume id.
unfoldable pub volume_data : Partition → VolumeId → FatVolumeData
volume_data p v =
    let fat_begin = u32 (p.lba_begin + v.num_reserved_sectors) in
    record {
      fat_begin_lba = fat_begin;
      cluster_begin_lba = u32 (fat_begin + u32 (v.sectors_per_fat * v.num_fats));
      sectors_per_cluster = v.sectors_per_cluster;
      root_dir_first_cluster = v.root_dir_first_cluster;
    }

module _ {Store : Type 0} (dev : SectorDevice Store) where
  -- The body of the loop over the partitions for a partition in use, with the count of those before.
  -- A second one, or another sector size, is a panic.
  unfoldable pub take_partition : Partition → ℕ → ℕ → Prog (Fs Store) (Unit {0})
  take_partition p i count s =
      let chosen = record s { chosen_partition = i } in
      if count + 1 == 2
      then halted chosen
      else (let v = decode_volume_id (dev.read_sector s.disk p.lba_begin) in
          let known = record chosen {
            partitions_in_use = bit_or s.partitions_in_use (2 ^ i);
            all_vol_ids = update s.all_vol_ids i v;
          } in
          if v.bytes_per_sector == sd_sector_size
          then done tt (record known { vol_data = update s.vol_data i (volume_data p v) })
          else halted known)

  -- The loop over the partitions from index i on, with n rounds left.
  unfoldable pub probe_partitions : List ℕ → ℕ → ℕ → ℕ → Prog (Fs Store) (Unit {0})
  unfolding take_partition
  probe_partitions mbr zero i count s = done tt s
  probe_partitions mbr (suc n) i count s =
      let p = partition_of mbr i in
      let skip = probe_partitions mbr n (i + 1) count s in
      let take =
        and_then (take_partition p i count s) (λ _. probe_partitions mbr n (i + 1) (count + 1)) in
      if p.num_sectors == 0 then skip else take

  -- The loop that reads the table, from sector i on. Sector i goes to `(struct sector *)FAT + i`,
  -- and a `struct sector` is 512 words long.
  unfoldable pub load_table : ℕ → ℕ → ℕ → Store → (ℕ → ℕ) → ℕ → ℕ
  load_table zero i begin d f = f
  load_table (suc n) i begin d f =
      load_table n (i + 1) begin d (load_sector (dev.read_sector d (u32 (begin + i))) (512 * i) f)

  -- What follows the loop over the partitions.
  unfoldable pub load_volume : Fs Store → Fs Store
  unfolding load_table
  load_volume s =
      let v = s.all_vol_ids s.chosen_partition in
      record s {
        fat = load_table v.sectors_per_fat 0 (volume s).fat_begin_lba s.disk s.fat;
        fat_end = u32 (v.bytes_per_sector * v.sectors_per_fat) / 4;
        did_init = true;
      }

  unfoldable pub fat32_init : Prog (Fs Store) ℕ
  unfolding probe_partitions load_volume
  fat32_init s =
      and_then (probe_partitions (dev.read_sector s.disk 0) 4 0 0 s) (λ _ t. done 0 (load_volume t))
