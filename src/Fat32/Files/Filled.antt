-- ===== src/Fat32/Files/Filled.antt =====
-- What `alloc_local_file_at` makes of a directory record.
use rpi0_naivegfs.Base.{ℕ, ◌^◌, ◌<◌, ◌≡◌, refl, List, take, arith}
use rpi0_naivegfs.Fat32.Layout.{DirRecord, first_cluster}
use rpi0_naivegfs.Fat32.Files.{fill_record}

-- A record that was filled in for a file that starts at cluster c: the first 11 bytes of the name,
-- attribute 0 and the number c. Its other fields are those that it had.
pub record IsFilled (name : List ℕ) (c : ℕ) (r filled : DirRecord) : Type 0 where
  pub named : filled.dir_name ≡ take 11 name
  pub plain : filled.dir_attr ≡ 0
  pub starts : first_cluster filled ≡ c
  pub same_size : filled.dir_file_size ≡ r.dir_file_size
  pub same_pad1 : filled.pad1 ≡ r.pad1
  pub same_pad2 : filled.pad2 ≡ r.pad2

pub fill_record-IsFilled :
    (name : List ℕ) (c : ℕ) (r : DirRecord) → c < 2 ^ 32 → IsFilled name c r (fill_record name c r)
unfolding fill_record
fill_record-IsFilled name c r small = record {
  named = refl;
  plain = refl;
  starts = omega arith;
  same_size = refl;
  same_pad1 = refl;
  same_pad2 = refl;
}
