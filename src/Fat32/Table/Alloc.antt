-- ===== src/Fat32/Table/Alloc.antt =====
-- The table in memory and the table on the disk under allocation and linking.
use rpi0_naivegfs.Base.{ℕ, ◌-◌, ◌≤◌, ◌<◌, ◌≡◌, ◌≢◌, refl, List, [], ◌∷◌, done, minus_one, arith}
use rpi0_naivegfs.Fat32.Layout.{cluster_no, fat32_terminal_cluster_no}
use rpi0_naivegfs.Fat32.State.{SectorDevice, Fs, update, blank_sector, volume, cluster_no_to_lba}
use rpi0_naivegfs.Fat32.Table.{
  store_entry, flush_entry, blank_cluster, alloc_free_local_cluster, fat32_point_fat,
}
use rpi0_naivegfs.Fat32.Table.Find.{
  free_clusters, find_free_local_cluster-free_clusters, IsFirstFree, free_clusters-IsFirstFree,
  free_from-update_head, free_from-update_used,
}
use rpi0_naivegfs.Fat32.Table.Frame.{
  IsBelowKept, IsBelowKept-trans, flush_entry-IsBelowKept, blank_cluster-IsBelowKept, IsKept,
  IsKept-trans, flush_entry-IsKept, blank_cluster-IsKept, blank_cluster-blank,
}
use rpi0_naivegfs.Fat32.Table.Geometry.{IsMounted, IsMounted-update}
use rpi0_naivegfs.Fat32.Table.Synced.{IsSynced, flush-store-IsSynced, blank_cluster-IsSynced}

module _ {Store : Type 0} (dev : SectorDevice Store) where
  -- What an allocation of cluster c makes of the state.
  abbrev pub after_alloc : ℕ → Fs Store → Fs Store
  after_alloc c s =
      blank_cluster dev c (flush_entry dev c (store_entry c fat32_terminal_cluster_no s))

  after_alloc-IsKept :
      (c e : ℕ) {s : Fs Store}
      → IsMounted s
      → 2 ≤ c
      → c < s.fat_end
      → 2 ≤ e
      → e < s.fat_end
      → e ≢ c
      → IsKept dev e s (after_alloc c s)
  unfolding flush_entry store_entry
  after_alloc-IsKept c e {s} m lc hc le he ne =
      let s1 = flush_entry dev c (store_entry c fat32_terminal_cluster_no s) in
      let m1 : IsMounted s1 = IsMounted-update _ _ m in
      IsKept-trans dev e s s1 (after_alloc c s) m m1 refl
        (flush_entry-IsKept dev c fat32_terminal_cluster_no e m hc le he)
        (blank_cluster-IsKept dev c e m1 lc hc le he ne)

  after_alloc-IsBelowKept :
      (c : ℕ) {s : Fs Store}
      → IsMounted s
      → 2 ≤ c
      → c < s.fat_end
      → IsBelowKept dev s (after_alloc c s)
  unfolding flush_entry store_entry
  after_alloc-IsBelowKept c {s} m lo hi =
      let s1 = flush_entry dev c (store_entry c fat32_terminal_cluster_no s) in
      IsBelowKept-trans dev s s1 (after_alloc c s) refl
        (flush_entry-IsBelowKept dev c fat32_terminal_cluster_no m hi)
        (blank_cluster-IsBelowKept dev c (IsMounted-update _ _ m) lo hi)

  after_alloc-blank :
      (c : ℕ) (s : Fs Store)
      → dev.read_sector (after_alloc c s).disk (cluster_no_to_lba s c) ≡ blank_sector
  unfolding flush_entry store_entry cluster_no_to_lba
  after_alloc-blank c s =
      blank_cluster-blank dev c (flush_entry dev c (store_entry c fat32_terminal_cluster_no s))

  -- The table, the disk's copy of it and the free list after an allocation of cluster c.
  pub record IsAllocated (c : ℕ) (cs : List ℕ) (s t : Fs Store) : Type 0 where
    pub mounted : IsMounted t
    pub synced : IsSynced dev t
    pub left : free_clusters t ≡ cs
    pub table : t.fat ≡ update s.fat c fat32_terminal_cluster_no
    pub same_end : t.fat_end ≡ s.fat_end
    pub same_volume : volume t ≡ volume s
    pub kept : (e : ℕ) → 2 ≤ e → e < s.fat_end → e ≢ c → IsKept dev e s t
    pub below : IsBelowKept dev s t
    pub blank : dev.read_sector t.disk (cluster_no_to_lba s c) ≡ blank_sector

  after_alloc-IsAllocated :
      {s : Fs Store} {c : ℕ} {cs : List ℕ}
      → IsMounted s
      → IsSynced dev s
      → free_clusters s ≡ c ∷ cs
      → IsAllocated c cs s (after_alloc c s)
  unfolding free_clusters blank_cluster flush_entry store_entry
  after_alloc-IsAllocated {s} {c} m sync e =
      let first = free_clusters-IsFirstFree s e in
      let inside : c < s.fat_end = omega (arith, first.below, first.above) in
      record {
        mounted = IsMounted-update _ _ m;
        synced =
            blank_cluster-IsSynced dev c (IsMounted-update _ _ m) first.above
              (omega (arith, first.below, first.above))
              (flush-store-IsSynced dev c fat32_terminal_cluster_no m
                (omega (arith, first.below, first.above)) sync);
        left =
            free_from-update_head s.fat 2 (s.fat_end - 2) fat32_terminal_cluster_no (omega arith) e;
        table = refl;
        same_end = refl;
        same_volume = refl;
        kept = λ j lo hi ne. after_alloc-IsKept c j m first.above inside lo hi ne;
        below = after_alloc-IsBelowKept c m first.above inside;
        blank = after_alloc-blank c s;
      }

  -- On a mounted volume whose table on the disk is that in memory, with a free cluster,
  -- `alloc_free_local_cluster` returns the lowest one, marks it as the end of a chain in memory and
  -- on the disk, and leaves every other entry and the other free clusters as they are.
  pub alloc_free_local_cluster-IsAllocated :
      (s : Fs Store) {c : ℕ} {cs : List ℕ}
      → IsMounted s
      → IsSynced dev s
      → free_clusters s ≡ c ∷ cs
      → (t : Fs Store) × (alloc_free_local_cluster dev s ≡ done c t) × IsAllocated c cs s t
  unfolding alloc_free_local_cluster
  alloc_free_local_cluster-IsAllocated s {c} {cs} m sync e =
      (after_alloc c s, run, after_alloc-IsAllocated m sync e)
    where
      first : IsFirstFree s.fat 2 (s.fat_end - 2) c
      first = free_clusters-IsFirstFree s e

      small : cluster_no c ≡ c
      small = omega (arith, first.below, m.table_small)

      run : alloc_free_local_cluster dev s ≡ done c (after_alloc c s)
      run = rw (
        find_free_local_cluster-free_clusters s m.ready (omega (arith, m.table_words, m.table_pos)),
        e,
        small,
      )

  -- Linking a cluster in use to another keeps the volume mounted, the disk's table equal to that
  -- in memory, and the free clusters.
  pub fat32_point_fat-IsSynced :
      (prev next : ℕ) {s : Fs Store}
      → IsMounted s
      → IsSynced dev s
      → prev < s.fat_end
      → s.fat prev ≢ 0
      → next ≢ 0
      → let t = fat32_point_fat dev prev next s in
        IsMounted t
        × IsSynced dev t
        × (free_clusters t ≡ free_clusters s)
        × (t.fat ≡ update s.fat prev next)
        × (t.fat_end ≡ s.fat_end)
        × (volume t ≡ volume s)
  unfolding free_clusters fat32_point_fat flush_entry store_entry
  fat32_point_fat-IsSynced prev next {s} m sync inside used nz =
      let small : cluster_no prev ≡ prev = omega (arith, m.table_small) in
      rw small (
        IsMounted-update _ _ m,
        flush-store-IsSynced dev prev next m inside sync,
        free_from-update_used s.fat 2 (s.fat_end - 2) prev next used nz,
        refl,
        refl,
        refl,
      )

  -- On a mounted volume with no free cluster `alloc_free_local_cluster` does not notice: it returns
  -- -1, and stores the end mark at the word 0x0fffffff of memory, which lies behind the table.
  pub alloc_free_local_cluster-full :
      (s : Fs Store)
      → IsMounted s
      → free_clusters s ≡ []
      → (t : Fs Store) × (alloc_free_local_cluster dev s ≡ done minus_one t)
        × (t.fat ≡ update s.fat 0x0fff_ffff fat32_terminal_cluster_no)
        × (t.fat_end ≤ 0x0fff_ffff)
  unfolding alloc_free_local_cluster blank_cluster flush_entry store_entry
  alloc_free_local_cluster-full s m e = (
    after_alloc 0x0fff_ffff s,
    rw (
      find_free_local_cluster-free_clusters s m.ready (omega (arith, m.table_words, m.table_pos)),
      e,
    ),
    refl,
    m.table_small,
  )
