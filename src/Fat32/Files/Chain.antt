-- ===== src/Fat32/Files/Chain.antt =====
-- The chain that `alloc_local_file_at` builds, against the list of free clusters.
use rpi0_naivegfs.Base.{
  ℕ, suc, ◌+◌, ◌^◌, ◌≤◌, ◌<◌, ◌≡◌, ◌≢◌, refl, ap, ◌∙◌, sym, List, [], ◌∷◌, ◌++◌, length, done,
  arith,
}
use rpi0_naivegfs.Fat32.Layout.{DirRecord, cluster_no, fat32_terminal_cluster_no}
use rpi0_naivegfs.Fat32.State.{SectorDevice, Fs, volume, blank_sector, cluster_no_to_lba}
use rpi0_naivegfs.Fat32.Table.{alloc_free_local_cluster, fat32_point_fat}
use rpi0_naivegfs.Fat32.Table.Find.{
  NotIn, free_clusters, free_clusters-IsFirstFree, free_clusters-NotIn,
}
use rpi0_naivegfs.Fat32.Table.Frame.{
  IsBelowKept, IsBelowKept-trans, fat32_point_fat-IsBelowKept, IsKept, IsKept-trans,
  fat32_point_fat-IsKept, same_lba,
}
use rpi0_naivegfs.Fat32.Table.Geometry.{IsMounted}
use rpi0_naivegfs.Fat32.Table.Synced.{IsSynced}
use rpi0_naivegfs.Fat32.Table.Alloc.{
  IsAllocated, alloc_free_local_cluster-IsAllocated, fat32_point_fat-IsSynced,
}
use rpi0_naivegfs.Fat32.Files.Filled.{IsFilled, fill_record-IsFilled}
use rpi0_naivegfs.Fat32.Files.{rounds_left, fill_record, extend_chain, alloc_local_file_at}

-- The table leads from c through the clusters of the list, in order, to the end mark.
abbrev pub IsChain : (ℕ → ℕ) → ℕ → List ℕ → Type 0
IsChain f c [] = f c ≡ fat32_terminal_cluster_no
IsChain f c (d ∷ ds) = (f c ≡ d) × IsChain f d ds

rounds_left_lem : (n : ℕ) → n + 1 < 2 ^ 31 → rounds_left (n + 1) ≡ n
unfolding rounds_left
rounds_left_lem n h = ground arith

module _ {Store : Type 0} (dev : SectorDevice Store) where
  -- After a run that took the clusters c and cs and left the free clusters rest.
  pub record IsExtended (c : ℕ) (cs rest : List ℕ) (s t : Fs Store) : Type 0 where
    pub mounted : IsMounted t
    pub synced : IsSynced dev t
    pub left : free_clusters t ≡ rest
    pub chain : IsChain t.fat c cs
    pub others : (j : ℕ) → j ≢ c → NotIn j cs → t.fat j ≡ s.fat j
    pub same_end : t.fat_end ≡ s.fat_end
    pub same_volume : volume t ≡ volume s
    pub below : IsBelowKept dev s t
    pub kept : (e : ℕ) → 2 ≤ e → e < s.fat_end → e ≢ c → NotIn e cs → IsKept dev e s t

  -- After one round: the cluster d is taken and linked behind c.
  record IsLinked (c d : ℕ) (ds : List ℕ) (s t : Fs Store) : Type 0 where
    mounted : IsMounted t
    synced : IsSynced dev t
    left : free_clusters t ≡ ds
    link : t.fat c ≡ d
    last : t.fat d ≡ fat32_terminal_cluster_no
    others : (j : ℕ) → j ≢ c → j ≢ d → t.fat j ≡ s.fat j
    same_end : t.fat_end ≡ s.fat_end
    same_volume : volume t ≡ volume s
    below : IsBelowKept dev s t
    kept : (e : ℕ) → 2 ≤ e → e < s.fat_end → e ≢ d → IsKept dev e s t

  module _ {c d : ℕ} {ds : List ℕ} {s : Fs Store} (m : IsMounted s) (sync : IsSynced dev s)
      (free : free_clusters s ≡ d ∷ ds) (inside : c < s.fat_end)
      (last : s.fat c ≡ fat32_terminal_cluster_no) where
    ends_differ : c ≢ d
    ends_differ e =
        let first = free_clusters-IsFirstFree s free in
        let same : s.fat c ≡ s.fat d = ap s.fat e in absurd (omega (arith, first.free, last, same))

    point-IsLinked :
        (s1 : Fs Store) → IsAllocated dev d ds s s1 → IsLinked c d ds s (fat32_point_fat dev c d s1)
    point-IsLinked s1 a =
        let first = free_clusters-IsFirstFree s free in
        let ne = ends_differ in
        let at_c : s1.fat c ≡ fat32_terminal_cluster_no = rw a.table (ground arith) in
        let p =
          fat32_point_fat-IsSynced dev c d a.mounted a.synced (omega (arith, a.same_end))
            (omega (arith, at_c)) (omega (arith, first.above)) in
        record {
          mounted = p.0;
          synced = p.1;
          left = p.2 ∙ a.left;
          link = rw p.3 (ground arith);
          last = rw (p.3, a.table) (ground arith);
          others = λ j jc jd. rw (p.3, a.table) (ground arith);
          same_end = p.4 ∙ a.same_end;
          same_volume = p.5 ∙ a.same_volume;
          below =
              IsBelowKept-trans dev s s1 (fat32_point_fat dev c d s1) a.same_volume a.below
                (fat32_point_fat-IsBelowKept dev c d a.mounted (omega (arith, a.same_end)));
          kept = λ j lo hi jd.
              IsKept-trans dev j s s1 (fat32_point_fat dev c d s1) m a.mounted a.same_volume
                (a.kept j lo hi jd)
                (fat32_point_fat-IsKept dev c d j a.mounted (omega (arith, a.same_end)) lo
                  (omega (arith, a.same_end)));
        }

  -- A cluster that is not taken is kept by the round and by what follows it, the end of the chain too.
  linked-IsKept :
      {c d : ℕ} {ds rest : List ℕ} {s s2 t : Fs Store}
      → IsMounted s
      → IsLinked c d (ds ++ rest) s s2
      → IsExtended d ds rest s2 t
      → (e : ℕ) → 2 ≤ e
      → e < s.fat_end
      → e ≢ d
      → NotIn e ds
      → IsKept dev e s t
  linked-IsKept {s} {s2} {t} m l x e lo hi ne out =
      IsKept-trans dev e s s2 t m l.mounted l.same_volume (l.kept e lo hi ne)
        (x.kept e lo (omega (arith, l.same_end)) ne out)

  IsExtended-cons :
      {c d : ℕ} {ds rest : List ℕ} {s s2 t : Fs Store}
      → IsMounted s
      → IsLinked c d (ds ++ rest) s s2
      → c ≢ d
      → d ≢ 0
      → IsExtended d ds rest s2 t
      → IsExtended c (d ∷ ds) rest s t
  IsExtended-cons {c} {d} {ds} {rest} {s} {s2} {t} m l ne nz x = record {
    mounted = x.mounted;
    synced = x.synced;
    left = x.left;
    chain = (
      x.others c ne (free_clusters-NotIn s2 c ds rest l.left (λ e. nz (sym l.link ∙ e))) ∙ l.link,
      x.chain,
    );
    others = λ j jc out. x.others j out.0 out.1 ∙ l.others j jc out.0;
    same_end = x.same_end ∙ l.same_end;
    same_volume = x.same_volume ∙ l.same_volume;
    below = IsBelowKept-trans dev s s2 t l.same_volume l.below x.below;
    kept = λ j lo hi jc out. linked-IsKept m l x j lo hi out.0 out.1;
  }

  -- One round of the loop.
  extend_chain-suc :
      (n c d : ℕ) (s : Fs Store) {s1 : Fs Store}
      → alloc_free_local_cluster dev s ≡ done d s1
      → cluster_no c ≡ c
      → cluster_no d ≡ d
      → extend_chain dev (suc n) c s ≡ extend_chain dev n d (fat32_point_fat dev c d s1)
  unfolding extend_chain
  extend_chain-suc n c d s run small_c small_d = rw (run, small_c, small_d)

  extend_chain-IsExtended :
      (cs rest : List ℕ) (c : ℕ) (s : Fs Store)
      → IsMounted s
      → IsSynced dev s
      → free_clusters s ≡ cs ++ rest
      → c < s.fat_end
      → s.fat c ≡ fat32_terminal_cluster_no
      → 2 ≤ c
      → (t : Fs Store) × (extend_chain dev (length cs) c s ≡ done tt t)
        × IsExtended c cs rest s t
        × IsKept dev c s t
  unfolding extend_chain
  extend_chain-IsExtended [] rest c s m sync free inside last lo = (
    s,
    refl,
    record {
      mounted = m;
      synced = sync;
      left = free;
      chain = last;
      others = λ j a b. refl;
      same_end = refl;
      same_volume = refl;
      below = λ lba b. refl;
      kept = λ j lo2 hi a b i h. refl;
    },
    (λ i h. refl),
  )
  extend_chain-IsExtended (d ∷ ds) rest c s m sync free inside last lo =
      let first = free_clusters-IsFirstFree s free in
      let small_c : cluster_no c ≡ c = omega (arith, m.table_small) in
      let small_d : cluster_no d ≡ d = omega (arith, m.table_small, first.below) in
      let (s1, run1, a) = alloc_free_local_cluster-IsAllocated dev s m sync free in
      let l = point-IsLinked m sync free inside last s1 a in
      let (t, run, x, own) =
        extend_chain-IsExtended ds rest d (fat32_point_fat dev c d s1) l.mounted l.synced l.left
          (omega (arith, l.same_end, first.below, first.above)) l.last first.above in
      let ne = ends_differ m sync free inside last in
      (
        t,
        extend_chain-suc (length ds) c d s run1 small_c small_d ∙ run,
        IsExtended-cons m l ne (omega (arith, first.above)) x,
        linked-IsKept m l x c lo inside ne
            (free_clusters-NotIn s c (d ∷ ds) rest free (λ e. omega (arith, last, e))).1,
      )

  -- On a mounted volume whose table on the disk is that in memory, a file of n clusters is given
  -- the first n free clusters c and cs, in order: the record gets the first 11 bytes of the name,
  -- attribute 0 and the number c, and keeps its other fields, the table leads from c through cs to
  -- the end mark, on the disk too, every entry of another cluster stays, and the other free clusters
  -- stay free. On the disk the first sector of the file is blank, and the sectors of every other
  -- cluster stay.
  pub alloc_local_file_at-IsExtended :
      (r : DirRecord) (name : List ℕ) (c : ℕ) (cs rest : List ℕ) (s : Fs Store)
      → IsMounted s
      → IsSynced dev s
      → free_clusters s ≡ c ∷ (cs ++ rest)
      → length cs + 1 < 2 ^ 31
      → (t : Fs Store) × (alloc_local_file_at dev r (length cs + 1) name s
          ≡ done (c, fill_record name c r) t)
        × IsExtended c cs rest s t
        × (dev.read_sector t.disk (cluster_no_to_lba s c) ≡ blank_sector)
        × IsFilled name c r (fill_record name c r)
  unfolding alloc_local_file_at
  alloc_local_file_at-IsExtended r name c cs rest s m sync free fits =
      let first = free_clusters-IsFirstFree s free in
      let (s1, run1, a) = alloc_free_local_cluster-IsAllocated dev s m sync free in
      let (t, run, x, own) =
        extend_chain-IsExtended cs rest c s1 a.mounted a.synced a.left
          (omega (arith, a.same_end, first.below, first.above)) (rw a.table (ground arith))
          first.above in
      let first_sector : cluster_no_to_lba s1 c + 0 ≡ cluster_no_to_lba s c =
        omega (arith, same_lba s s1 c a.same_volume) in
      (
        t,
        rw (run1, rounds_left_lem (length cs) fits, run),
        record {
          mounted = x.mounted;
          synced = x.synced;
          left = x.left;
          chain = x.chain;
          others = λ j jc out. x.others j jc out ∙ (rw a.table (ground arith));
          same_end = x.same_end ∙ a.same_end;
          same_volume = x.same_volume ∙ a.same_volume;
          below = IsBelowKept-trans dev s s1 t a.same_volume a.below x.below;
          kept = λ j lo hi jc out.
              IsKept-trans dev j s s1 t m a.mounted a.same_volume (a.kept j lo hi jc)
                (x.kept j lo (omega (arith, a.same_end)) jc out);
        },
        (rw first_sector at (own 0 a.mounted.count_pos)) ∙ a.blank,
        fill_record-IsFilled name c r (omega (arith, m.table_small, first.below)),
      )
