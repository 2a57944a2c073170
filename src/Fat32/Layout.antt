-- ===== src/Fat32/Layout.antt =====
-- The on-disk structures of pi-src/fat32.h: directory records, partitions, the master boot record
-- and the volume id, with the bytes that a packed C structure has in a sector.
pub mod RoundTrip
pub mod Sectors
use rpi0_naivegfs.Base.{
  ℕ, zero, suc, ◌+◌, ◌*◌, ◌/◌, ◌%◌, ◌^◌, Bool, List, [], ◌∷◌, ◌++◌, ◌==◌, get_or, take, drop,
  bytes16, bytes32, word16, word32,
}

abbrev pub sd_sector_size : ℕ
sd_sector_size = 512

abbrev pub fat32_root_cluster_no : ℕ
fat32_root_cluster_no = 2

-- `((uint32_t)-1) >> 4`
abbrev pub fat32_terminal_cluster_no : ℕ
fat32_terminal_cluster_no = 0x0fff_ffff

-- `CLUSTER_NO(m)`, the low 28 bits.
abbrev pub cluster_no : ℕ → ℕ
cluster_no m = m % 2 ^ 28

pub record DirRecord : Type 0 where
  pub dir_name : List ℕ
  pub dir_attr : ℕ
  pub pad1 : List ℕ
  pub dir_first_cluster_high : ℕ
  pub pad2 : List ℕ
  pub dir_first_cluster_low : ℕ
  pub dir_file_size : ℕ

-- The fields stand at the offsets 0, 11, 12, 20, 22, 26 and 28 of the 32 bytes.
unfoldable pub decode_record : List ℕ → DirRecord
decode_record b =
    let b11 = drop 11 b in
    let b20 = drop 9 b11 in
    let b26 = drop 4 (drop 2 b20) in
    record {
      dir_name = take 11 b;
      dir_attr = get_or b11 0 0;
      pad1 = take 8 (drop 1 b11);
      dir_first_cluster_high = word16 (get_or b20 0 0) (get_or b20 1 0);
      pad2 = take 4 (drop 2 b20);
      dir_first_cluster_low = word16 (get_or b26 0 0) (get_or b26 1 0);
      dir_file_size = word32 (get_or b26 2 0) (get_or b26 3 0) (get_or b26 4 0) (get_or b26 5 0);
    }

unfoldable pub encode_record : DirRecord → List ℕ
encode_record r =
    r.dir_name
    ++ (r.dir_attr
        ∷ (r.pad1
            ++ (bytes16 r.dir_first_cluster_high
                ++ (r.pad2 ++ (bytes16 r.dir_first_cluster_low ++ bytes32 r.dir_file_size)))))

-- A sector read into `struct dir_record records[16]`, and written back from it.
unfoldable pub decode_records : ℕ → List ℕ → List DirRecord
decode_records zero b = []
decode_records (suc n) b = decode_record (take 32 b) ∷ decode_records n (drop 32 b)

unfoldable pub encode_records : List DirRecord → List ℕ
encode_records [] = []
encode_records (r ∷ rs) = encode_record r ++ encode_records rs

abbrev pub records_per_sector : ℕ
records_per_sector = 16

-- `IS_LFN` and `IS_TERMINAL`
abbrev pub is_lfn : DirRecord → Bool
is_lfn r = r.dir_attr == 0x0f

abbrev pub is_terminal : DirRecord → Bool
is_terminal r = get_or r.dir_name 0 0 == 0

-- `IS_RO` to `IS_ARCHIVE`: bit k of the attribute.
abbrev pub attr_bit : ℕ → ℕ → Bool
attr_bit k attr = (attr / 2 ^ k) % 2 == 1

-- Both halves of the first cluster's number, as the `uint16_t` stores put them together.
abbrev pub first_cluster : DirRecord → ℕ
first_cluster r = r.dir_first_cluster_low + r.dir_first_cluster_high * 65536

pub record Partition : Type 0 where
  pub boot_flag : ℕ
  pub type_code : ℕ
  pub lba_begin : ℕ
  pub num_sectors : ℕ

-- The 16 bytes of a partition entry; the two CHS addresses are not used.
unfoldable pub decode_partition : List ℕ → Partition
decode_partition b =
    let b8 = drop 8 b in
    record {
      boot_flag = get_or b 0 0;
      type_code = get_or b 4 0;
      lba_begin = word32 (get_or b8 0 0) (get_or b8 1 0) (get_or b8 2 0) (get_or b8 3 0);
      num_sectors = word32 (get_or b8 4 0) (get_or b8 5 0) (get_or b8 6 0) (get_or b8 7 0);
    }

-- `boot_sector.partitions[i]`, behind the 446 bytes of boot code.
unfoldable pub partition_of : List ℕ → ℕ → Partition
partition_of mbr i = decode_partition (take 16 (drop (16 * i) (drop 446 mbr)))

pub record VolumeId : Type 0 where
  pub bytes_per_sector : ℕ
  pub sectors_per_cluster : ℕ
  pub num_reserved_sectors : ℕ
  pub num_fats : ℕ
  pub sectors_per_fat : ℕ
  pub root_dir_first_cluster : ℕ

-- The fields stand at the offsets 11, 13, 14, 16, 36 and 44; the paddings are not used.
unfoldable pub decode_volume_id : List ℕ → VolumeId
decode_volume_id b =
    let b11 = drop 11 b in
    let b36 = drop 36 b in
    record {
      bytes_per_sector = word16 (get_or b11 0 0) (get_or b11 1 0);
      sectors_per_cluster = get_or b11 2 0;
      num_reserved_sectors = word16 (get_or b11 3 0) (get_or b11 4 0);
      num_fats = get_or b11 5 0;
      sectors_per_fat = word32 (get_or b36 0 0) (get_or b36 1 0) (get_or b36 2 0) (get_or b36 3 0);
      root_dir_first_cluster =
          word32 (get_or b36 8 0) (get_or b36 9 0) (get_or b36 10 0) (get_or b36 11 0);
    }
