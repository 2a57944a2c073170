-- ===== src/Dfs/Entries.antt =====
-- The sector of entries as bytes, and scans of it.
use rpi0_naivegfs.Base.{
  ℕ, zero, suc, ◌*◌, ◌^◌, ◌<◌, ◌≡◌, refl, ap, List, [], ◌∷◌, ◌++◌, length, bytes16, word16-bytes16,
  arith, length-append, take-append_len, drop-append_len,
}
use rpi0_naivegfs.Dfs.{Entry, decode_entries, encode_entries}

-- The ranges of the C types.
abbrev pub AllEntries : List Entry → Type 0
AllEntries [] = Unit
AllEntries (e ∷ es) = (length e.dfs_id ≡ 30) × (e.id < 2 ^ 16) × AllEntries es

-- The entries of a sector are read back from it as they were written.
pub decode-encode_entries :
    (es : List Entry) → AllEntries es → decode_entries (length es) (encode_entries es) ≡ es
unfolding decode_entries encode_entries
decode-encode_entries [] h = refl
decode-encode_entries (e ∷ es) h =
    rw
      (
        drop-append_len e.dfs_id (bytes16 e.id ++ encode_entries es) 30 h.0,
        take-append_len e.dfs_id (bytes16 e.id ++ encode_entries es) 30 h.0,
        word16-bytes16 e.id h.1,
      )
      (ap (λ t. e ∷ t) (decode-encode_entries es h.2))

pub length-encode_entries :
    (es : List Entry) → AllEntries es → length (encode_entries es) ≡ 32 * length es
unfolding encode_entries
length-encode_entries [] h = refl
length-encode_entries (e ∷ es) h = omega (
  arith,
  h.0,
  length-append e.dfs_id (bytes16 e.id ++ encode_entries es),
  length-encode_entries es h.2,
)

pub length-decode_entries : (n : ℕ) (b : List ℕ) → length (decode_entries n b) ≡ n
unfolding decode_entries
length-decode_entries zero b = refl
length-decode_entries (suc n) b = ap suc (length-decode_entries n _)
