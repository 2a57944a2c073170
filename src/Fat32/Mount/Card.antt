-- ===== src/Fat32/Mount/Card.antt =====
-- Cards that `fat32_init` makes a mounted volume of.
use rpi0_naivegfs.Base.{
  ℕ, zero, suc, ◌+◌, ◌*◌, ◌^◌, ◌≤◌, ◌<◌, ◌≡◌, ◌≢◌, refl, sym, ap, true, ◌∙◌, u32, List, done,
  ==_self, arith,
}
use rpi0_naivegfs.Fat32.Layout.{Partition, VolumeId, decode_volume_id, partition_of}
use rpi0_naivegfs.Fat32.Layout.Sectors.{IsSector}
use rpi0_naivegfs.Fat32.State.{SectorDevice, FatVolumeData, Fs, volume, sectors_per_cluster}
use rpi0_naivegfs.Fat32.Table.Geometry.{IsMounted, IsMounted-update, sectors_per_fat}
use rpi0_naivegfs.Fat32.Table.Synced.{IsSynced, write_first-IsSynced}
use rpi0_naivegfs.Fat32.Table.Frame.{IsBelowKept, write_first, write_first-IsBelowKept}
use rpi0_naivegfs.Fat32.Mount.{word_at, volume_data, load_volume, fat32_init}
use rpi0_naivegfs.Fat32.Mount.Words.{words_from-word_at}
use rpi0_naivegfs.Fat32.Mount.Load.{load_volume-words}
use rpi0_naivegfs.Fat32.Mount.Partitions.{mounted_at, probe_one}

-- Partition k of a boot sector is the one in use, and a volume whose table has one sector, with the
-- root directory at cluster 2, and all of whose clusters have sector numbers of 32 bits.
pub record IsVolume (mbr : List ℕ) (k : ℕ) (v : VolumeId) : Type 0 where
  pub index : k < 4
  pub used : (partition_of mbr k).num_sectors ≢ 0
  pub others : (j : ℕ) → j < 4 → j ≢ k → (partition_of mbr j).num_sectors ≡ 0
  pub sector_size : v.bytes_per_sector ≡ 512
  pub one_sector : v.sectors_per_fat ≡ 1
  pub root : v.root_dir_first_cluster ≡ 2
  pub count_pos : 1 ≤ v.sectors_per_cluster
  pub reserved_pos : 1 ≤ v.num_reserved_sectors
  pub copies_pos : 1 ≤ v.num_fats
  pub fits :
      (partition_of mbr k).lba_begin
        + v.num_reserved_sectors
        + v.num_fats
        + 128 * v.sectors_per_cluster
      ≤ 2 ^ 32

pub begin_lba :
    {mbr : List ℕ} {k : ℕ} {v : VolumeId}
    → IsVolume mbr k v
    → (volume_data (partition_of mbr k) v).fat_begin_lba
      ≡ (partition_of mbr k).lba_begin + v.num_reserved_sectors
unfolding volume_data
begin_lba c = omega (arith, c.fits, c.count_pos)

module _ {Store : Type 0} (dev : SectorDevice Store) where
  abbrev pub partition : Store → ℕ → Partition
  partition d k = partition_of (dev.read_sector d 0) k

  abbrev pub volume_id : Store → ℕ → VolumeId
  volume_id d k = decode_volume_id (dev.read_sector d (partition d k).lba_begin)

  -- The sector that holds the table.
  abbrev pub table_of : Store → ℕ → List ℕ
  table_of d k =
      dev.read_sector d ((partition d k).lba_begin + (volume_id d k).num_reserved_sectors)

  -- A card with one such partition, whose table's sector has 512 bytes.
  pub record IsCard (d : Store) (k : ℕ) : Type 0 where
    pub of_volume : IsVolume (dev.read_sector d 0) k (volume_id d k)
    pub table : IsSector (table_of d k)

  -- A mounted state of the volume of a card d, whose table on the disk is that in memory: the disk
  -- has not changed below the table.
  pub record IsOnCard (d : Store) (k : ℕ) (t : Fs Store) : Type 0 where
    pub mounted : IsMounted t
    pub synced : IsSynced dev t
    pub same_volume : volume t ≡ volume_data (partition d k) (volume_id d k)
    pub table_end : t.fat_end ≡ 128
    pub below :
        (lba : ℕ)
        → lba < (volume t).fat_begin_lba
        → dev.read_sector t.disk lba ≡ dev.read_sector d lba

  pub IsOnCard-kept :
      {d : Store} {k : ℕ} {s t : Fs Store}
      → IsOnCard d k s
      → IsMounted t
      → IsSynced dev t
      → volume t ≡ volume s
      → t.fat_end ≡ s.fat_end
      → IsBelowKept dev s t
      → IsOnCard d k t
  IsOnCard-kept {s = s} on m sync same ends kept = record {
    mounted = m;
    synced = sync;
    same_volume = same ∙ on.same_volume;
    table_end = ends ∙ on.table_end;
    below = λ lba h.
        let below : lba < (volume s).fat_begin_lba =
          omega (arith, ap (λ (v : FatVolumeData). v.fat_begin_lba) same, h) in
        kept lba below ∙ on.below lba below;
  }

  pub write_first-IsOnCard :
      (d : Store) (k : ℕ) (b : List ℕ) (c : ℕ) (t : Fs Store)
      → IsOnCard d k t
      → 2 ≤ c
      → c < t.fat_end
      → IsOnCard d k (write_first dev b c t)
  write_first-IsOnCard d k b c t on lo hi =
      IsOnCard-kept on (IsMounted-update _ _ on.mounted)
        (write_first-IsSynced dev b c on.mounted lo hi on.synced) refl refl
        (write_first-IsBelowKept dev b c on.mounted lo hi)

  module _ (k : ℕ) (s : Fs Store) (card : IsCard s.disk k) where
    -- The state in which the table is read.
    abbrev chosen : Fs Store
    chosen = mounted_at dev k (dev.read_sector s.disk 0) s

    loaded : Fs Store
    loaded = load_volume dev chosen

    chosen-volume : volume chosen ≡ volume_data (partition s.disk k) (volume_id s.disk k)
    chosen-volume = rw (==_self k)

    chosen-volume_id : chosen.all_vol_ids k ≡ volume_id s.disk k
    chosen-volume_id = rw (==_self k)

    loaded-volume : volume loaded ≡ volume_data (partition s.disk k) (volume_id s.disk k)
    unfolding loaded load_volume
    loaded-volume = rw (==_self k)

    loaded-volume_id : loaded.all_vol_ids loaded.chosen_partition ≡ volume_id s.disk k
    unfolding loaded load_volume
    loaded-volume_id = rw (==_self k)

    loaded-count : sectors_per_cluster loaded ≡ (volume_id s.disk k).sectors_per_cluster
    loaded-count = ap (λ v. v.sectors_per_cluster) loaded-volume_id

    chosen-one_sector : sectors_per_fat chosen ≡ 1
    chosen-one_sector = ap (λ v. v.sectors_per_fat) chosen-volume_id ∙ card.of_volume.one_sector

    loaded-one_sector : sectors_per_fat loaded ≡ 1
    loaded-one_sector = ap (λ v. v.sectors_per_fat) loaded-volume_id ∙ card.of_volume.one_sector

    loaded-ready : loaded.did_init ≡ true
    unfolding loaded load_volume
    loaded-ready = refl

    loaded-disk : loaded.disk ≡ s.disk
    unfolding loaded load_volume
    loaded-disk = refl

    loaded-begin :
        (volume loaded).fat_begin_lba
        ≡ (partition s.disk k).lba_begin + (volume_id s.disk k).num_reserved_sectors
    loaded-begin = rw loaded-volume (begin_lba card.of_volume)

    loaded-clusters :
        (volume loaded).cluster_begin_lba
        ≡ (partition s.disk k).lba_begin
          + (volume_id s.disk k).num_reserved_sectors
          + (volume_id s.disk k).num_fats
    unfolding volume_data
    loaded-clusters =
        let c = card.of_volume in
        rw (loaded-volume, c.one_sector) (omega (arith, c.fits, c.count_pos))

    loaded-end : loaded.fat_end ≡ 128
    unfolding loaded load_volume
    loaded-end = let c = card.of_volume in rw (==_self k, c.sector_size, c.one_sector)

    begin_small :
        u32 ((volume chosen).fat_begin_lba + 0)
        ≡ (partition s.disk k).lba_begin + (volume_id s.disk k).num_reserved_sectors
    unfolding volume_data
    begin_small =
        let c = card.of_volume in
        omega (arith, ap (λ v. v.fat_begin_lba) chosen-volume, c.fits, c.count_pos)

    loaded-words : (i : ℕ) → i < 128 → loaded.fat i ≡ word_at (table_of s.disk k) i
    unfolding loaded
    loaded-words i small =
        ap loaded.fat (omega arith)
        ∙ load_volume-words dev chosen 0 i (omega (arith, chosen-one_sector)) small
        ∙ ap (λ lba. word_at (dev.read_sector s.disk lba) i) begin_small

    loaded-IsMounted : IsMounted loaded
    unfolding volume_data
    loaded-IsMounted =
        let c = card.of_volume in
        record {
          ready = loaded-ready;
          root = rw loaded-volume c.root;
          same_count = ap (λ v. v.sectors_per_cluster) loaded-volume ∙ sym loaded-count;
          count_pos = omega (arith, loaded-count, c.count_pos);
          table_words = omega (arith, loaded-end, loaded-one_sector);
          table_pos = omega (arith, loaded-one_sector);
          table_small = omega (arith, loaded-end);
          apart = omega (arith, loaded-begin, loaded-clusters, loaded-one_sector, c.copies_pos);
          fits = rw (loaded-clusters, loaded-end, loaded-count) c.fits;
        }

    loaded-IsSynced : IsSynced dev loaded
    loaded-IsSynced zero below =
        ap (dev.read_sector loaded.disk) (omega (arith, loaded-begin))
        ∙ ap
            (λ d.
              dev.read_sector d
                ((partition s.disk k).lba_begin + (volume_id s.disk k).num_reserved_sectors))
            loaded-disk
        ∙ sym (
            words_from-word_at 128 0 loaded.fat (table_of s.disk k) card.table.size
              card.table.all_bytes (λ i small. ap loaded.fat (omega arith) ∙ loaded-words i small))
    loaded-IsSynced (suc i) below = absurd (omega (arith, loaded-one_sector))

    -- Let one partition of a card be in use, with sectors of 512 bytes, one reserved sector or
    -- more, one table or more, each of one sector of 512 bytes, a sector or more in a cluster, the
    -- root directory at cluster 2, and all sector numbers within 32 bits. Then `fat32_init` returns
    -- 0 and makes the volume mounted, with its data those of the partition and its volume id, its
    -- table of 128 words the words of the table's sector, so that it is the one on the disk, and
    -- leaves the disk as it is.
    pub fat32_init-IsOnCard :
        (t : Fs Store) × (fat32_init dev s ≡ done 0 t)
        × IsOnCard s.disk k t
        × (t.disk ≡ s.disk)
        × ((i : ℕ) → i < 128 → t.fat i ≡ word_at (table_of s.disk k) i)
    unfolding fat32_init loaded
    fat32_init-IsOnCard =
        let c = card.of_volume in
        let run =
          probe_one dev (dev.read_sector s.disk 0) 4 0 k s (omega arith) (omega (arith, c.index))
            c.used c.sector_size (λ j a b ne. c.others j (omega arith) ne) in
        let on : IsOnCard s.disk k loaded = record {
          mounted = loaded-IsMounted;
          synced = loaded-IsSynced;
          same_volume = loaded-volume;
          table_end = loaded-end;
          below = λ lba h. ap (λ d. dev.read_sector d lba) loaded-disk;
        } in
        (loaded, rw run, on, loaded-disk, loaded-words)
