-- ===== src/Fat32/Table/Synced.antt =====
-- The agreement of the table in memory with that on the disk under writes of either.
use rpi0_naivegfs.Base.{
  ℕ, zero, suc, ◌+◌, ◌*◌, ◌/◌, ◌≤◌, ◌<◌, ◌≡◌, ◌≢◌, ◌⊎◌, inl, inr, refl, ◌∙◌, List, length,
  ne→not_==, arith, Bool-cases, ◌==◌, ==→eq, not_==→ne,
}
use rpi0_naivegfs.Fat32.State.{
  SectorDevice, Fs, update, words_from, table_sector, blank_sector, volume, cluster_no_to_lba,
}
use rpi0_naivegfs.Fat32.Table.{store_entry, flush_entry, blank_cluster}
use rpi0_naivegfs.Fat32.Table.Frame.{write_first, flush_lba}
use rpi0_naivegfs.Fat32.Table.Geometry.{IsMounted, sectors_per_fat, cluster_no_to_lba_bounds}

pub length-words_from : (f : ℕ → ℕ) (p n : ℕ) → length (words_from f p n) ≡ 4 * n
unfolding words_from
length-words_from f p zero = omega arith
length-words_from f p (suc n) = omega (arith, length-words_from f (p + 1) n)

words_from-update :
    (f : ℕ → ℕ) (p n i v : ℕ)
    → (i < p) ⊎ (p + n ≤ i)
    → words_from (update f i v) p n ≡ words_from f p n
unfolding words_from
words_from-update f p zero i v out = refl
words_from-update f p (suc n) i v out =
    rw (ne→not_== p i (omega arith), words_from-update f (p + 1) n i v (omega arith))

-- A write in one sector of the table leaves the others.
table_sector-update :
    (f : ℕ → ℕ) (k i v : ℕ) → k ≢ i / 128 → table_sector (update f i v) k ≡ table_sector f k
table_sector-update f k i v other = words_from-update f (k * 128) 128 i v (omega arith)

module _ {Store : Type 0} (dev : SectorDevice Store) where
  -- Each sector of the table on the disk holds what memory holds.
  abbrev pub IsSynced : Fs Store → Type 0
  IsSynced s =
      (k : ℕ)
      → k < sectors_per_fat s
      → dev.read_sector s.disk ((volume s).fat_begin_lba + k) ≡ table_sector s.fat k

  -- Writing the changed sector back restores the agreement that the store in memory broke.
  pub flush-store-IsSynced :
      (i v : ℕ) {s : Fs Store}
      → IsMounted s
      → i < s.fat_end
      → IsSynced s
      → IsSynced (flush_entry dev i (store_entry i v s))
  unfolding flush_entry store_entry
  flush-store-IsSynced i v {s} m inside sync k below = elim (Bool-cases (k == i / 128)) [
    | inl here ↦
        let at : k ≡ i / 128 = ==→eq k (i / 128) here in
        rw (at, flush_lba dev i m inside)
          (dev.read-write_same (table_sector (update s.fat i v) (i / 128))
            ((volume s).fat_begin_lba + i / 128) s.disk
            (length-words_from (update s.fat i v) (i / 128 * 128) 128))
    | inr there ↦
        let away : k ≢ i / 128 = not_==→ne k (i / 128) there in
        rw (flush_lba dev i m inside, table_sector-update s.fat k i v away)
          (dev.read-write_other (table_sector (update s.fat i v) (i / 128))
              ((volume s).fat_begin_lba + i / 128) ((volume s).fat_begin_lba + k) s.disk
              (omega arith)
            ∙ sync k below)
  ]

  pub write_first-IsSynced :
      (b : List ℕ) (c : ℕ) {s : Fs Store}
      → IsMounted s
      → 2 ≤ c
      → c < s.fat_end
      → IsSynced s
      → IsSynced (write_first dev b c s)
  write_first-IsSynced b c {s} m lo hi sync k below =
      dev.read-write_other b (cluster_no_to_lba s c) ((volume s).fat_begin_lba + k) s.disk
        (omega (arith, cluster_no_to_lba_bounds m c 0 lo hi m.count_pos))
      ∙ sync k below

  pub blank_cluster-IsSynced :
      (c : ℕ) {s : Fs Store}
      → IsMounted s
      → 2 ≤ c
      → c < s.fat_end
      → IsSynced s
      → IsSynced (blank_cluster dev c s)
  unfolding blank_cluster
  blank_cluster-IsSynced c m = write_first-IsSynced blank_sector c m
