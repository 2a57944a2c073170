-- ===== src/Fat32/Mount/Load.antt =====
-- Where `fat32_init` puts the table in memory.
use rpi0_naivegfs.Base.{
  ℕ, zero, suc, ◌+◌, ◌-◌, ◌*◌, ◌%◌, ◌≤◌, ◌<◌, ◌≡◌, ◌≢◌, ◌⊎◌, inl, inr, refl, ◌∙◌, Bool-cases, ◌==◌,
  ==→eq, not_==→ne, lt→ltb, le→leb, arith, u32,
}
use rpi0_naivegfs.Fat32.State.{SectorDevice, Fs, volume}
use rpi0_naivegfs.Fat32.Mount.{word_at, load_sector, load_table, load_volume}
use rpi0_naivegfs.Fat32.Table.Geometry.{sectors_per_fat}

module _ {Store : Type 0} (dev : SectorDevice Store) where
  -- Words that no sector is read to stay as they are.
  load_table-outside :
      (n i begin j : ℕ) (d : Store) (f : ℕ → ℕ)
      → (j < 512 * i) ⊎ ((512 * (i + n) ≤ j) ⊎ (128 ≤ j % 512))
      → load_table dev n i begin d f j ≡ f j
  unfolding load_table load_sector
  load_table-outside zero i begin j d f out = refl
  load_table-outside (suc n) i begin j d f out =
      load_table-outside n (i + 1) begin j d _ (omega arith) ∙ ground arith

  load_table-inside :
      (n i begin k j : ℕ) (d : Store) (f : ℕ → ℕ)
      → i ≤ k
      → k < i + n
      → j < 128
      → load_table dev n i begin d f (512 * k + j) ≡ word_at (dev.read_sector d (u32 (begin + k))) j
  unfolding load_table load_sector
  load_table-inside zero i begin k j d f lo hi small = absurd (omega arith)
  load_table-inside (suc n) i begin k j d f lo hi small = elim (Bool-cases (k == i)) [
    | inl here ↦
        let at : k ≡ i = ==→eq k i here in
        let off : 512 * i + j - 512 * i ≡ j = omega arith in
        let b = dev.read_sector d (u32 (begin + i)) in
        rw at (
          load_table-outside n (i + 1) begin (512 * i + j) d _ (inl (omega arith))
          ∙ rw (
            le→leb (512 * i) (512 * i + j) (omega arith),
            lt→ltb (512 * i + j) (512 * i + 128) (omega arith),
            off,
          ))
    | inr later ↦
        let away : k ≢ i = not_==→ne k i later in
        load_table-inside n (i + 1) begin k j d _ (omega arith) (omega arith) small
  ]

  -- When a volume is loaded, word j of sector k of its table on the disk is put at the word
  -- 512 * k + j of memory, not at 128 * k + j.
  pub load_volume-words :
      (s : Fs Store) (k j : ℕ)
      → k < sectors_per_fat s
      → j < 128
      → (load_volume dev s).fat (512 * k + j)
        ≡ word_at (dev.read_sector s.disk (u32 ((volume s).fat_begin_lba + k))) j
  unfolding load_volume
  load_volume-words s k j below small =
      load_table-inside (sectors_per_fat s) 0 (volume s).fat_begin_lba k j s.disk s.fat
        (omega arith) (omega arith) small

  -- Whatever the disk holds, loading a volume leaves the word c of memory as it was for every c with
  -- 128 ≤ c % 512; so the entries of the clusters 128 to 511 are not read from the table.
  pub load_volume-gap : (s : Fs Store) (c : ℕ) → 128 ≤ c % 512 → (load_volume dev s).fat c ≡ s.fat c
  unfolding load_volume
  load_volume-gap s c gap =
      load_table-outside (sectors_per_fat s) 0 (volume s).fat_begin_lba c s.disk s.fat
        (inr (inr gap))
