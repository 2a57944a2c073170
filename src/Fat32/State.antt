-- ===== src/Fat32/State.antt =====
-- The static variables of pi-src/fat32.c and the block device behind `readsector` and `writesector`.
-- The two function pointers are given by the SD driver: its store of sectors is a parameter, with
-- the documented behaviour of a block device. The return values of the two are ignored by the file
-- system, so every call is taken to succeed.
use rpi0_naivegfs.Base.{
  ℕ, zero, suc, ◌+◌, ◌*◌, ◌≡◌, ◌≢◌, Bool, List, [], ◌++◌, ◌==◌, if◌then◌else◌, length, replicate,
  bytes32, u32, sub32,
}
use rpi0_naivegfs.Fat32.Layout.{VolumeId}

pub record SectorDevice (Store : Type 0) : Type 0 where
  pub read_sector : Store → ℕ → List ℕ
  pub write_sector : List ℕ → ℕ → Store → Store
  pub read-write_same :
      (b : List ℕ) (lba : ℕ) (s : Store)
      → length b ≡ 512
      → read_sector (write_sector b lba s) lba ≡ b
  pub read-write_other :
      (b : List ℕ) (lba other : ℕ) (s : Store)
      → other ≢ lba
      → read_sector (write_sector b lba s) other ≡ read_sector s other

-- `struct fat_volume_data`
pub record FatVolumeData : Type 0 where
  pub fat_begin_lba : ℕ
  pub cluster_begin_lba : ℕ
  pub sectors_per_cluster : ℕ
  pub root_dir_first_cluster : ℕ

-- The static variables. `fat i` is the word at `FAT + i`, that is, i words above `kernel_end`, inside
-- the table or not; `fat_end` is `FAT_end - FAT`. The two arrays of four are functions of the index.
pub record Fs (Store : Type 0) : Type 0 where
  pub did_init : Bool
  pub partitions_in_use : ℕ
  pub chosen_partition : ℕ
  pub all_vol_ids : ℕ → VolumeId
  pub vol_data : ℕ → FatVolumeData
  pub fat : ℕ → ℕ
  pub fat_end : ℕ
  pub disk : Store

abbrev pub update {ℓ} : {A : Type ℓ} → (ℕ → A) → ℕ → A → ℕ → A
update f i v j = if j == i then v else f j

-- The n words from index i on, as the bytes of a sector hold them.
unfoldable pub words_from : (ℕ → ℕ) → ℕ → ℕ → List ℕ
words_from f i zero = []
words_from f i (suc n) = bytes32 (f i) ++ words_from f (i + 1) n

abbrev pub words_per_sector : ℕ
words_per_sector = 128

-- Sector k of the table in memory.
abbrev pub table_sector : (ℕ → ℕ) → ℕ → List ℕ
table_sector f k = words_from f (k * words_per_sector) words_per_sector

abbrev pub blank_sector : List ℕ
blank_sector = replicate 512 0

module _ {Store : Type 0} where
  -- `vol_data[chosen_partition]`, and the count that the loops over a cluster's sectors use.
  abbrev pub volume : Fs Store → FatVolumeData
  volume s = s.vol_data s.chosen_partition

  abbrev pub sectors_per_cluster : Fs Store → ℕ
  sectors_per_cluster s = (s.all_vol_ids s.chosen_partition).sectors_per_cluster

  -- All sums and products are of `uint32_t`.
  unfoldable pub cluster_no_to_lba : Fs Store → ℕ → ℕ
  cluster_no_to_lba s c = u32 (
      (volume s).cluster_begin_lba
      + u32 (sub32 c (volume s).root_dir_first_cluster * (volume s).sectors_per_cluster))
