-- ===== src/Fat32/Layout/Sectors.antt =====
-- Sectors as they are read: 512 bytes, and the directory records in them.
use rpi0_naivegfs.Base.{
  Bool, true, ◌&&◌, ltb, ℕ, zero, suc, ◌*◌, ◌<◌, ◌≡◌, refl, ap, List, [], ◌∷◌, ◌++◌, length, get_or,
  take, drop, length-take, length-drop, arith,
}
use rpi0_naivegfs.Fat32.Layout.{DirRecord, decode_record, decode_records}
use rpi0_naivegfs.Fat32.Layout.RoundTrip.{IsRecord, AllRecords}

abbrev pub AllBytes : List ℕ → Type 0
AllBytes [] = Unit
AllBytes (x ∷ xs) = (x < 256) × AllBytes xs

-- The test of it.
unfoldable pub all_bytes : List ℕ → Bool
all_bytes [] = true
all_bytes (x ∷ xs) = ltb x 256 && all_bytes xs

pub all_bytes-AllBytes : (b : List ℕ) → all_bytes b ≡ true → AllBytes b
unfolding all_bytes
all_bytes-AllBytes [] h = tt
all_bytes-AllBytes (x ∷ b) h = (ground arith, all_bytes-AllBytes b (ground arith))

pub record IsSector (b : List ℕ) : Type 0 where
  pub size : length b ≡ 512
  pub all_bytes : AllBytes b

get_or-AllBytes : (b : List ℕ) (i : ℕ) → AllBytes b → get_or b i 0 < 256
get_or-AllBytes [] i h = omega arith
get_or-AllBytes (x ∷ b) zero h = h.0
get_or-AllBytes (x ∷ b) (suc i) h = get_or-AllBytes b i h.1

AllBytes-take : (n : ℕ) (b : List ℕ) → AllBytes b → AllBytes (take n b)
AllBytes-take zero b h = tt
AllBytes-take (suc n) [] h = tt
AllBytes-take (suc n) (x ∷ b) h = (h.0, AllBytes-take n b h.1)

AllBytes-drop : (n : ℕ) (b : List ℕ) → AllBytes b → AllBytes (drop n b)
AllBytes-drop zero b h = h
AllBytes-drop (suc n) [] h = tt
AllBytes-drop (suc n) (x ∷ b) h = AllBytes-drop n b h.1

decode_record-IsRecord : (b : List ℕ) → length b ≡ 32 → AllBytes b → IsRecord (decode_record b)
unfolding decode_record
decode_record-IsRecord b len all =
    let b11 = drop 11 b in
    let b20 = drop 9 b11 in
    let b22 = drop 2 b20 in
    let b26 = drop 4 b22 in
    let all11 = AllBytes-drop 11 b all in
    let all20 = AllBytes-drop 9 b11 all11 in
    let all26 = AllBytes-drop 4 b22 (AllBytes-drop 2 b20 all20) in
    record {
      name_len = length-take 11 b (omega arith);
      attr_byte = get_or-AllBytes b11 0 all11;
      pad1_len = length-take 8 (drop 1 b11) (omega (arith, length-drop 1 b11, length-drop 11 b));
      high_half = omega (arith, get_or-AllBytes b20 0 all20, get_or-AllBytes b20 1 all20);
      pad2_len =
          length-take 4 b22 (omega (arith, length-drop 2 b20, length-drop 9 b11, length-drop 11 b));
      low_half = omega (arith, get_or-AllBytes b26 0 all26, get_or-AllBytes b26 1 all26);
      size_word = omega (
        arith,
        get_or-AllBytes b26 2 all26,
        get_or-AllBytes b26 3 all26,
        get_or-AllBytes b26 4 all26,
        get_or-AllBytes b26 5 all26,
      );
    }

pub length-decode_records : (n : ℕ) (b : List ℕ) → length (decode_records n b) ≡ n
unfolding decode_records
length-decode_records zero b = refl
length-decode_records (suc n) b = ap suc (length-decode_records n (drop 32 b))

decode_records-AllRecords :
    (n : ℕ) (b : List ℕ) → length b ≡ 32 * n → AllBytes b → AllRecords (decode_records n b)
unfolding decode_records
decode_records-AllRecords zero b len all = tt
decode_records-AllRecords (suc n) b len all = (
  decode_record-IsRecord (take 32 b) (length-take 32 b (omega arith)) (AllBytes-take 32 b all),
  decode_records-AllRecords n (drop 32 b) (omega (arith, length-drop 32 b))
      (AllBytes-drop 32 b all),
)

pub IsSector-AllRecords : {b : List ℕ} → IsSector b → AllRecords (decode_records 16 b)
IsSector-AllRecords {b} s = decode_records-AllRecords 16 b (omega (arith, s.size)) s.all_bytes

pub AllRecords-append :
    (xs ys : List DirRecord) → AllRecords xs → AllRecords ys → AllRecords (xs ++ ys)
AllRecords-append [] ys a b = b
AllRecords-append (x ∷ xs) ys a b = (a.0, AllRecords-append xs ys a.1 b)

pub AllRecords-split :
    (xs ys : List DirRecord) → AllRecords (xs ++ ys) → AllRecords xs × AllRecords ys
AllRecords-split [] ys a = (tt, a)
AllRecords-split (x ∷ xs) ys a =
    ((a.0, (AllRecords-split xs ys a.1).0), (AllRecords-split xs ys a.1).1)
