-- ===== src/Memory/Fill.antt =====
-- What `memset` leaves in memory.
use rpi0_naivegfs.Base.{
  ℕ, zero, suc, ◌+◌, ◌-◌, ◌*◌, ◌/◌, ◌≡◌, ◌∙◌, arith, ◌&&◌, if◌then◌else◌, ltb, leb, u8,
}
use rpi0_naivegfs.Fat32.State.{update}
use rpi0_naivegfs.Memory.{store_word, fill_words, fill_bytes, memset}

-- Memory with the bytes from `from` up to `to` set to c.
abbrev pub filled : ℕ → ℕ → ℕ → (ℕ → ℕ) → ℕ → ℕ
filled from to c mem a = if leb from a && ltb a to then c else mem a

fill_bytes_lem :
    (n i ptr c : ℕ) (mem : ℕ → ℕ) (a : ℕ)
    → fill_bytes n i ptr c mem a ≡ filled (ptr + i) (ptr + i + n) c mem a
unfolding fill_bytes
fill_bytes_lem zero i ptr c mem a = ground arith
fill_bytes_lem (suc n) i ptr c mem a =
    fill_bytes_lem n (i + 1) ptr c (update mem (ptr + i) c) a ∙ ground arith

fill_words_lem :
    (n i ptr c : ℕ) (mem : ℕ → ℕ) (a : ℕ)
    → fill_words n i ptr c mem a ≡ filled (ptr + 4 * i) (ptr + 4 * i + 4 * n) c mem a
unfolding fill_words
fill_words_lem zero i ptr c mem a = ground arith
fill_words_lem (suc n) i ptr c mem a =
    fill_words_lem n (i + 1) ptr c (store_word mem (ptr + 4 * i) c) a ∙ ground arith

-- After `memset` each of the `len` bytes from `ptr` on is the low byte of `b`, and each other byte of
-- memory is as it was, for a length that is a multiple of the word or not.
pub memset_lem :
    (ptr b len : ℕ) (mem : ℕ → ℕ) (a : ℕ)
    → memset ptr b len mem a ≡ (if leb ptr a && ltb a (ptr + len) then u8 b else mem a)
unfolding memset
memset_lem ptr b len mem a =
    fill_bytes_lem (len - len / 4 * 4) (len / 4 * 4) ptr (u8 b)
      (fill_words (len / 4) 0 ptr (u8 b) mem) a
    ∙ ground (arith, fill_words_lem (len / 4) 0 ptr (u8 b) mem a)
