-- ===== src/Fat32/Table/Geometry.antt =====
-- Where the table and the clusters of a mounted volume lie on the disk.
use rpi0_naivegfs.Base.{ℕ, ◌+◌, ◌-◌, ◌*◌, ◌%◌, ◌^◌, ◌≤◌, ◌<◌, ◌≡◌, ◌↔◌, ap, true, arith}
use native.Mathlib.Decide.{dec_lt}
use rpi0_naivegfs.Fat32.State.{Fs, volume, sectors_per_cluster, cluster_no_to_lba}

abbrev pub sectors_per_fat : {Store : Type 0} → Fs Store → ℕ
sectors_per_fat s = (s.all_vol_ids s.chosen_partition).sectors_per_fat

-- A mounted volume: the root directory starts at cluster 2, as the formula of `cluster_no_to_lba`
-- supposes, the table lies below the clusters, and every sector number fits 32 bits.
pub record IsMounted {Store : Type 0} (s : Fs Store) : Type 0 where
  pub ready : s.did_init ≡ true
  pub root : (volume s).root_dir_first_cluster ≡ 2
  pub same_count : (volume s).sectors_per_cluster ≡ sectors_per_cluster s
  pub count_pos : 1 ≤ sectors_per_cluster s
  pub table_words : s.fat_end ≡ 128 * sectors_per_fat s
  pub table_pos : 1 ≤ sectors_per_fat s
  pub table_small : s.fat_end ≤ 0x0fff_ffff
  pub apart : (volume s).fat_begin_lba + sectors_per_fat s ≤ (volume s).cluster_begin_lba
  pub fits : (volume s).cluster_begin_lba + s.fat_end * sectors_per_cluster s ≤ 2 ^ 32

-- The table in memory and the disk are no part of the geometry.
pub IsMounted-update :
    {Store : Type 0} {s : Fs Store} (f : ℕ → ℕ) (d : Store)
    → IsMounted s
    → IsMounted (record s { fat = f; disk = d })
IsMounted-update f d m = record {
  ready = m.ready;
  root = m.root;
  same_count = m.same_count;
  count_pos = m.count_pos;
  table_words = m.table_words;
  table_pos = m.table_pos;
  table_small = m.table_small;
  apart = m.apart;
  fits = m.fits;
}

row_mono : (k n w : ℕ) → k ≤ n → k * w ≤ n * w
row_mono k n w h = grind arith

row_unique : (a b i j w : ℕ) → i < w → j < w → a * w + i ≡ b * w + j → (a ≡ b) × (i ≡ j)
row_unique a b i j w hi hj e = elim (dec_lt a b) [
  | yes p ↦ absurd (omega (arith, row_mono (a + 1) b w (omega arith)))
  | no p ↦ elim (dec_lt b a) [
    | yes q ↦ absurd (omega (arith, row_mono (b + 1) a w (omega arith)))
    | no q ↦ let same : a ≡ b = omega arith in (same, omega (arith, ap (λ (t : ℕ). t * w) same))
  ]
]

-- The arithmetic of `cluster_no_to_lba` does not wrap below the bound.
lba_no_wrap :
    (begin c root w n : ℕ)
    → root ≡ 2
    → 2 ≤ c
    → c < n
    → n < 2 ^ 32
    → 1 ≤ w
    → begin + n * w ≤ 2 ^ 32
    → (begin + (c + 2 ^ 32 - root) % 2 ^ 32 * w % 2 ^ 32) % 2 ^ 32 ≡ begin + (c - 2) * w
lba_no_wrap begin c root w n r lo hi small pos fits =
    let off : (c + 2 ^ 32 - root) % 2 ^ 32 ≡ c - 2 = omega arith in
    rw off (omega (arith, row_mono (c - 1) n w (omega arith), ap (λ (t : ℕ). t * w) split))
  where
    split : c - 1 ≡ c - 2 + 1
    split = omega arith

module _ {Store : Type 0} {s : Fs Store} (m : IsMounted s) where
  -- No sum or product of `cluster_no_to_lba` wraps for a cluster of the table.
  pub cluster_no_to_lba_lem :
      (c : ℕ)
      → 2 ≤ c
      → c < s.fat_end
      → cluster_no_to_lba s c ≡ (volume s).cluster_begin_lba + (c - 2) * sectors_per_cluster s
  unfolding cluster_no_to_lba
  cluster_no_to_lba_lem c lo hi = rw m.same_count (
      lba_no_wrap (volume s).cluster_begin_lba c (volume s).root_dir_first_cluster
        (sectors_per_cluster s) s.fat_end m.root lo hi (omega arith) m.count_pos m.fits)

  -- Two sectors of clusters of the table are the same only if the clusters and the places in them are.
  pub cluster_no_to_lba-injective :
      (c d i j : ℕ)
      → 2 ≤ c
      → c < s.fat_end
      → 2 ≤ d
      → d < s.fat_end
      → i < sectors_per_cluster s
      → j < sectors_per_cluster s
      → cluster_no_to_lba s c + i ≡ cluster_no_to_lba s d + j
      → (c ≡ d) × (i ≡ j)
  cluster_no_to_lba-injective c d i j lc hc ld hd hi hj e =
      let rows =
        row_unique (c - 2) (d - 2) i j (sectors_per_cluster s) hi hj
          (omega (arith, cluster_no_to_lba_lem c lc hc, cluster_no_to_lba_lem d ld hd)) in
      omega arith

  pub cluster_no_to_lba_bounds :
      (c i : ℕ)
      → 2 ≤ c
      → c < s.fat_end
      → i < sectors_per_cluster s
      → ((volume s).fat_begin_lba + sectors_per_fat s ≤ cluster_no_to_lba s c + i)
        × (cluster_no_to_lba s c + i < 2 ^ 32)
  cluster_no_to_lba_bounds c i lo hi h = omega (
    arith,
    m.apart,
    m.fits,
    cluster_no_to_lba_lem c lo hi,
    row_mono (c - 1) s.fat_end (sectors_per_cluster s) (omega arith),
    ap (λ (t : ℕ). t * sectors_per_cluster s) split,
  )
    where
      split : c - 1 ≡ c - 2 + 1
      split = omega arith

  -- On a mounted volume, where sector i of cluster c and sector j of cluster d are sectors of clusters
  -- of the table: sector i of c has (c - 2) clusters and i sectors between it and the first sector of
  -- the clusters, so that the root directory's cluster, 2, comes first, without wrap-around; its
  -- number is below 2 ^ 32; it lies behind the table; and it is sector j of d exactly if c is d and i
  -- is j.
  pub cluster_no_to_lba-place :
      (c i d j : ℕ)
      → 2 ≤ c
      → c < s.fat_end
      → i < sectors_per_cluster s
      → 2 ≤ d
      → d < s.fat_end
      → j < sectors_per_cluster s
      → (cluster_no_to_lba s c + i
          ≡ (volume s).cluster_begin_lba + ((c - 2) * sectors_per_cluster s + i))
        × (cluster_no_to_lba s c + i < 2 ^ 32)
        × ((volume s).fat_begin_lba + sectors_per_fat s ≤ cluster_no_to_lba s c + i)
        × ((cluster_no_to_lba s c + i ≡ cluster_no_to_lba s d + j) ↔ ((c ≡ d) × (i ≡ j)))
  cluster_no_to_lba-place c i d j lc hc hi ld hd hj =
      let (behind, small) = cluster_no_to_lba_bounds c i lc hc hi in
      (
        omega (arith, cluster_no_to_lba_lem c lc hc),
        small,
        behind,
        (cluster_no_to_lba-injective c d i j lc hc ld hd hi hj, (λ same. rw (same.0, same.1))),
      )
