-- ===== src/Memory.antt =====
-- `memset` of pi-src/memset.c, on memory as a function from addresses to bytes.
pub mod Fill
mod Examples
use rpi0_naivegfs.Base.{ℕ, zero, suc, ◌+◌, ◌-◌, ◌*◌, ◌/◌, ◌==◌, if◌then◌else◌, u8}
use rpi0_naivegfs.Fat32.State.{update}

-- A store of a word whose four bytes are c.
abbrev pub store_word : (ℕ → ℕ) → ℕ → ℕ → ℕ → ℕ
store_word mem a c = update (update (update (update mem a c) (a + 1) c) (a + 2) c) (a + 3) c

-- The loop over the words, at word i, with n rounds left.
unfoldable pub fill_words : ℕ → ℕ → ℕ → ℕ → (ℕ → ℕ) → ℕ → ℕ
fill_words zero i ptr c mem = mem
fill_words (suc n) i ptr c mem = fill_words n (i + 1) ptr c (store_word mem (ptr + 4 * i) c)

-- The loop over the bytes that are left.
unfoldable pub fill_bytes : ℕ → ℕ → ℕ → ℕ → (ℕ → ℕ) → ℕ → ℕ
fill_bytes zero i ptr c mem = mem
fill_bytes (suc n) i ptr c mem = fill_bytes n (i + 1) ptr c (update mem (ptr + i) c)

unfoldable pub memset : ℕ → ℕ → ℕ → (ℕ → ℕ) → ℕ → ℕ
memset ptr b len mem =
    let words = len / 4 in
    fill_bytes (len - words * 4) (words * 4) ptr (u8 b) (fill_words words 0 ptr (u8 b) mem)
