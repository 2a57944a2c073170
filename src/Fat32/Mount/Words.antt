-- ===== src/Fat32/Mount/Words.antt =====
-- The words of the table in memory as the bytes of its sectors, and back.
use rpi0_naivegfs.Base.{
  ℕ, zero, suc, ◌+◌, ◌*◌, ◌%◌, ◌^◌, ◌<◌, ◌≡◌, refl, ap, ◌∙◌, word32, bytes32, List, [], ◌∷◌, ◌++◌,
  length, arith, bytes32-word32,
}
use rpi0_naivegfs.Fat32.Layout.Sectors.{AllBytes, IsSector}
use rpi0_naivegfs.Fat32.State.{words_from, table_sector}
use rpi0_naivegfs.Fat32.Table.Synced.{length-words_from}
use rpi0_naivegfs.Fat32.Mount.{word_at}

word_at-behind :
    (x y z w : ℕ) (b : List ℕ) (i : ℕ) → word_at (x ∷ y ∷ z ∷ w ∷ b) (suc i) ≡ word_at b i
unfolding word_at
word_at-behind x y z w b i =
    let four : 4 * suc i ≡ suc (suc (suc (suc (4 * i)))) = omega arith in rw four

-- Words that are those of the bytes are stored as the bytes.
pub words_from-word_at :
    (n p : ℕ) (f : ℕ → ℕ) (b : List ℕ)
    → length b ≡ 4 * n
    → AllBytes b
    → ((i : ℕ) → i < n → f (p + i) ≡ word_at b i)
    → words_from f p n ≡ b
unfolding words_from word_at
words_from-word_at zero p f [] len all same = refl
words_from-word_at zero p f (x ∷ b) len all same = absurd (omega arith)
words_from-word_at (suc n) p f [] len all same = absurd (omega arith)
words_from-word_at (suc n) p f (x ∷ []) len all same = absurd (omega arith)
words_from-word_at (suc n) p f (x ∷ y ∷ []) len all same = absurd (omega arith)
words_from-word_at (suc n) p f (x ∷ y ∷ z ∷ []) len all same = absurd (omega arith)
words_from-word_at (suc n) p f (x ∷ y ∷ z ∷ w ∷ b) len (hx, (hy, (hz, (hw, all)))) same =
    let head : f p ≡ word32 x y z w = ap f (omega arith) ∙ same 0 (omega arith) in
    let tail =
      words_from-word_at n (p + 1) f b (omega arith) all
        (λ i small. ap f (omega arith) ∙ same (suc i) (omega arith) ∙ word_at-behind x y z w b i) in
    ap (λ v. bytes32 v ++ words_from f (p + 1) n) head
    ∙ ap (λ l. l ++ words_from f (p + 1) n) (bytes32-word32 x y z w hx hy hz hw)
    ∙ ap (λ t. x ∷ y ∷ z ∷ w ∷ t) tail

-- Words are read back, cut to 32 bits.
pub word_at-words_from :
    (n p i : ℕ) (f : ℕ → ℕ) → i < n → word_at (words_from f p n) i ≡ f (p + i) % 2 ^ 32
unfolding words_from word_at
word_at-words_from zero p i f small = absurd (omega arith)
word_at-words_from (suc n) p zero f small = omega (arith, ap f at)
  where
    at : p + 0 ≡ p
    at = omega arith
word_at-words_from (suc n) p (suc i) f small =
    word_at-behind _ _ _ _ (words_from f (p + 1) n) i
    ∙ word_at-words_from n (p + 1) i f (omega arith)
    ∙ ap (λ j. f j % 2 ^ 32) (omega arith)

words_from-AllBytes : (f : ℕ → ℕ) (p n : ℕ) → AllBytes (words_from f p n)
unfolding words_from
words_from-AllBytes f p zero = tt
words_from-AllBytes f p (suc n) =
    (omega arith, (omega arith, (omega arith, (omega arith, words_from-AllBytes f (p + 1) n))))

pub table_sector-IsSector : (f : ℕ → ℕ) (k : ℕ) → IsSector (table_sector f k)
table_sector-IsSector f k = record {
  size = length-words_from f (k * 128) 128;
  all_bytes = words_from-AllBytes f (k * 128) 128;
}
