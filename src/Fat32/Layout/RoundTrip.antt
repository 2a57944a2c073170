-- ===== src/Fat32/Layout/RoundTrip.antt =====
-- Directory records, and sectors of them, written as bytes and read again.
use rpi0_naivegfs.Base.{
  ℕ, ◌*◌, ◌^◌, ◌<◌, ◌≡◌, refl, ap, List, [], ◌∷◌, ◌++◌, length, length-append, take-append_len,
  drop-append_len, bytes16, bytes32, arith,
}
use mathlib.Core.List.{append_assoc}
use rpi0_naivegfs.Fat32.Layout.{
  DirRecord, decode_record, encode_record, decode_records, encode_records,
}

-- The lengths and ranges that the C types give a record.
pub record IsRecord (r : DirRecord) : Type 0 where
  pub name_len : length r.dir_name ≡ 11
  pub attr_byte : r.dir_attr < 256
  pub pad1_len : length r.pad1 ≡ 8
  pub high_half : r.dir_first_cluster_high < 2 ^ 16
  pub pad2_len : length r.pad2 ≡ 4
  pub low_half : r.dir_first_cluster_low < 2 ^ 16
  pub size_word : r.dir_file_size < 2 ^ 32

abbrev pub AllRecords : List DirRecord → Type 0
AllRecords [] = Unit
AllRecords (r ∷ rs) = IsRecord r × AllRecords rs

module _ {r : DirRecord} (v : IsRecord r) where
  length-encode_record : length (encode_record r) ≡ 32
  unfolding encode_record
  length-encode_record = omega (
    arith,
    v.name_len,
    v.pad1_len,
    v.pad2_len,
    length-append r.dir_name (
        r.dir_attr
        ∷ (r.pad1
            ++ (bytes16 r.dir_first_cluster_high
                ++ (r.pad2 ++ (bytes16 r.dir_first_cluster_low ++ bytes32 r.dir_file_size))))),
    length-append r.pad1 (
        bytes16 r.dir_first_cluster_high
        ++ (r.pad2 ++ (bytes16 r.dir_first_cluster_low ++ bytes32 r.dir_file_size))),
    length-append r.pad2 (bytes16 r.dir_first_cluster_low ++ bytes32 r.dir_file_size),
  )

  -- A record with the field sizes of the C structure is read back as it was written.
  pub decode-encode_record : decode_record (encode_record r) ≡ r
  unfolding decode_record encode_record
  decode-encode_record =
      rw
        (
          drop-append_len r.dir_name _ 11 v.name_len,
          take-append_len r.dir_name _ 11 v.name_len,
          drop-append_len r.pad1 _ 8 v.pad1_len,
          take-append_len r.pad1 _ 8 v.pad1_len,
          drop-append_len r.pad2 _ 4 v.pad2_len,
          take-append_len r.pad2 _ 4 v.pad2_len,
        )
        (ground arith)

-- A sector's records are read back from it as they were written, whatever follows them.
pub decode-encode_records :
    (rs : List DirRecord) (rest : List ℕ)
    → AllRecords rs
    → decode_records (length rs) (encode_records rs ++ rest) ≡ rs
unfolding decode_records encode_records
decode-encode_records [] rest h = refl
decode-encode_records (r ∷ rs) rest h =
    let len = length-encode_record h.0 in
    rw
      (
        append_assoc,
        take-append_len (encode_record r) (encode_records rs ++ rest) 32 len,
        drop-append_len (encode_record r) (encode_records rs ++ rest) 32 len,
        decode-encode_record h.0,
      )
      (ap (λ t. r ∷ t) (decode-encode_records rs rest h.1))

pub length-encode_records :
    (rs : List DirRecord) → AllRecords rs → length (encode_records rs) ≡ 32 * length rs
unfolding encode_records
length-encode_records [] h = refl
length-encode_records (r ∷ rs) h = omega (
  arith,
  length-append (encode_record r) (encode_records rs),
  length-encode_record h.0,
  length-encode_records rs h.1,
)
