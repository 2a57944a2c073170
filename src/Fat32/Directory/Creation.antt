-- ===== src/Fat32/Directory/Creation.antt =====
-- The state after `fat32_alloc_local_file` has put a file into a free record of the directory.
use rpi0_naivegfs.Fat32.Directory.Named.{IsName, search-fill_record}
use rpi0_naivegfs.Base.{
  ℕ, ◌+◌, ◌^◌, ◌≤◌, ◌<◌, ◌≡◌, ◌≢◌, ◌⊎◌, inl, inr, Prog, refl, ap, sym, ◌∙◌, true, Option, some,
  List, [], ◌∷◌, ◌++◌, Outcome, done, length, pure, u32, arith, length-append, and_then,
}
use mathlib.Core.Path.{subst}
use rpi0_naivegfs.Fat32.Layout.{DirRecord, fat32_root_cluster_no}
use rpi0_naivegfs.Fat32.Layout.RoundTrip.{IsRecord, AllRecords}
use rpi0_naivegfs.Fat32.Layout.Sectors.{
  IsSector, IsSector-AllRecords, length-decode_records, AllRecords-append, AllRecords-split,
}
use rpi0_naivegfs.Fat32.State.{
  SectorDevice, Fs, blank_sector, volume, sectors_per_cluster, cluster_no_to_lba,
}
use rpi0_naivegfs.Fat32.Table.Find.{
  NotIn, free_clusters, free_clusters-NotIn, free_clusters-IsFirstFree,
}
use rpi0_naivegfs.Fat32.Table.Geometry.{
  IsMounted, IsMounted-update, sectors_per_fat, cluster_no_to_lba-injective,
  cluster_no_to_lba_bounds,
}
use rpi0_naivegfs.Fat32.Table.Frame.{IsBelowKept, IsKept, same_lba}
use rpi0_naivegfs.Fat32.Table.Synced.{IsSynced}
use rpi0_naivegfs.Fat32.Files.{fill_record}
use rpi0_naivegfs.Fat32.Files.Chain.{IsChain, IsExtended, alloc_local_file_at-IsExtended}
use rpi0_naivegfs.Fat32.Directory.{read_records, search_records, insert_at}
use rpi0_naivegfs.Fat32.Directory.Listing.{listed}
use rpi0_naivegfs.Fat32.Directory.Insert.{IsFree, insert_scan-some}
use rpi0_naivegfs.Fat32.Directory.Place.{unlisted, search_records-quiet, unlisted-append, IsSpot}
use rpi0_naivegfs.Fat32.Directory.Rounds.{scan}
use rpi0_naivegfs.Fat32.Directory.Written.{fill_record-IsRecord, IsInserted, insert_at-IsInserted}
use rpi0_naivegfs.Fat32.Directory.Still.{IsStill, append-IsStill}
use rpi0_naivegfs.Fat32.Directory.Created.{AllUsed, read_records-kept}

module _ {Store : Type 0} (dev : SectorDevice Store) where
  -- Every sector of the disk is 512 bytes, each below 256.
  abbrev pub AllSectors : Store → Type 0
  AllSectors d = (lba : ℕ) → IsSector (dev.read_sector d lba)

  length-read_records : (s : Fs Store) (c k : ℕ) → length (read_records dev s c k) ≡ 16
  unfolding read_records
  length-read_records s c k = length-decode_records 16 _

  AllRecords-read_records :
      (s : Fs Store) (c k : ℕ) → AllSectors s.disk → AllRecords (read_records dev s c k)
  unfolding read_records
  AllRecords-read_records s c k sectors =
      IsSector-AllRecords (sectors (u32 (cluster_no_to_lba s c + k)))

  module _ (name : List ℕ) (n c : ℕ) (ds cs rest : List ℕ) (s : Fs Store) (m : IsMounted s)
      (sync : IsSynced dev s) (sectors : AllSectors s.disk)
      (used : AllUsed s (fat32_root_cluster_no ∷ ds)) (free : free_clusters s ≡ c ∷ (cs ++ rest))
      (v : IsName name) where
    -- What an insertion at a spot makes of the state.
    pub record IsCreated (d k : ℕ) (o : Prog (Fs Store) (Option ℕ)) : Type 0 where
      pub state : Fs Store
      pub run : o s ≡ done (some c) state
      pub mounted : IsMounted state
      pub synced : IsSynced dev state
      pub chain : IsChain state.fat c cs
      pub entries : (e : ℕ) → s.fat e ≢ 0 → state.fat e ≡ s.fat e
      pub same_volume : volume state ≡ volume s
      pub same_end : state.fat_end ≡ s.fat_end
      pub below : IsBelowKept dev s state
      pub now : search_records name (read_records dev state d k) ≡ some c
      pub kept :
          (e i : ℕ)
          → 2 ≤ e
          → e < s.fat_end
          → s.fat e ≢ 0
          → (e ≢ d) ⊎ (i < k)
          → i < sectors_per_cluster s
          → read_records dev state e i ≡ read_records dev s e i
      pub contents : (e : ℕ) → 2 ≤ e → e < s.fat_end → s.fat e ≢ 0 → e ≢ d → IsKept dev e s state
      pub still :
          (other : List ℕ) → IsStill other (read_records dev s d k) (read_records dev state d k)
      pub blank : dev.read_sector state.disk (cluster_no_to_lba state c) ≡ blank_sector

    module _ (d k : ℕ) (pre post : List DirRecord) (r : DirRecord) (t1 : Fs Store)
        (spot : IsSpot dev name s d k) (lo : 2 ≤ d) (hi : d < s.fat_end) (busy : s.fat d ≢ 0)
        (place : IsFree (read_records dev s d k) pre r post)
        (x : IsExtended dev c cs rest s t1) where
      -- A cluster in use is not among the ones that are taken.
      used_out : (e : ℕ) → s.fat e ≢ 0 → (e ≢ c) × NotIn e cs
      used_out e used_e = free_clusters-NotIn s e (c ∷ cs) rest free used_e

      quiet_before : unlisted name (listed pre) ≡ true
      quiet_before =
          let whole = ap (λ rs. unlisted name (listed rs)) place.parts in
          let parts = unlisted-append name pre (r ∷ post) place.none_before in
          ground (arith, spot.no_such)

      -- The sectors that the insertion writes, in the numbers of the first state.
      written_lba :
          (j : ℕ)
          → j < sectors_per_cluster s
          → u32 (cluster_no_to_lba t1 d + j) ≡ cluster_no_to_lba s d + j
      written_lba j small =
          rw (same_lba s t1 d x.same_volume)
            (omega (arith, cluster_no_to_lba_bounds m d j lo hi small))

      module _ {o : Outcome (Fs Store) ℕ}
          (ins : IsInserted dev (sectors_per_cluster s) c d k pre (fill_record name c r) t1 o) where
        abbrev after : Fs Store
        after = record t1 { disk = ins.state }

        sector_kept :
            (lba : ℕ)
            → lba ≢ cluster_no_to_lba s d + k
            → (k + 1 < sectors_per_cluster s → lba ≢ cluster_no_to_lba s d + (k + 1))
            → dev.read_sector ins.state lba ≡ dev.read_sector t1.disk lba
        sector_kept lba a b =
            ins.kept lba (rw (written_lba k spot.inside) a) (λ h. rw (written_lba (k + 1) h) (b h))

        after-IsSynced : IsSynced dev after
        after-IsSynced j below =
            let below_t : j < sectors_per_fat t1 = below in
            let lo_lba = cluster_no_to_lba_bounds m d k lo hi spot.inside in
            let begin : (volume t1).fat_begin_lba ≡ (volume s).fat_begin_lba =
              ap (λ w. w.fat_begin_lba) x.same_volume in
            let words : sectors_per_fat t1 ≡ sectors_per_fat s =
              omega (arith, x.mounted.table_words, m.table_words, x.same_end) in
            sector_kept ((volume t1).fat_begin_lba + j) (omega arith) (λ h. omega arith)
            ∙ x.synced j below_t

        after-IsBelowKept : IsBelowKept dev s after
        after-IsBelowKept lba low =
            let lo_lba = cluster_no_to_lba_bounds m d k lo hi spot.inside in
            sector_kept lba (omega arith) (λ h. omega arith) ∙ x.below lba low

        after_sector :
            (e i : ℕ)
            → 2 ≤ e
            → e < s.fat_end
            → s.fat e ≢ 0
            → (e ≢ d) ⊎ (i < k)
            → i < sectors_per_cluster s
            → dev.read_sector ins.state (cluster_no_to_lba s e + i)
              ≡ dev.read_sector s.disk (cluster_no_to_lba s e + i)
        after_sector e i lo_e hi_e used_e apart small =
            let apart_from : (l : ℕ)
                → k ≤ l
                → l < sectors_per_cluster s
                → cluster_no_to_lba s e + i ≢ cluster_no_to_lba s d + l =
              λ l above inside eq.
                let at = cluster_no_to_lba-injective m e d i l lo_e hi_e lo hi small inside eq in
                elim apart [ inl ne ↦ ne at.0 | inr before ↦ absurd (omega (arith, at.1)) ] in
            sector_kept (cluster_no_to_lba s e + i) (apart_from k (omega arith) spot.inside)
              (λ h. apart_from (k + 1) (omega arith) h)
            ∙ x.kept e lo_e hi_e (used_out e used_e).0 (used_out e used_e).1 i small

        after_kept :
            (e i : ℕ)
            → 2 ≤ e
            → e < s.fat_end
            → s.fat e ≢ 0
            → (e ≢ d) ⊎ (i < k)
            → i < sectors_per_cluster s
            → read_records dev after e i ≡ read_records dev s e i
        after_kept e i lo_e hi_e used_e apart small =
            let same : u32 (cluster_no_to_lba s e + i) ≡ cluster_no_to_lba s e + i =
              omega (arith, cluster_no_to_lba_bounds m e i lo_e hi_e small) in
            read_records-kept dev e i s after x.same_volume
              (rw same (after_sector e i lo_e hi_e used_e apart small))

        after_blank :
            dev.read_sector ins.state (cluster_no_to_lba s c)
            ≡ dev.read_sector t1.disk (cluster_no_to_lba s c)
        after_blank =
            let first = free_clusters-IsFirstFree s free in
            let hi_c : c < s.fat_end = omega (arith, first.below, first.above) in
            let apart_from : (l : ℕ)
                → l < sectors_per_cluster s
                → cluster_no_to_lba s c ≢ cluster_no_to_lba s d + l =
              λ l inside eq. (used_out d busy).0 (
                sym
                  (cluster_no_to_lba-injective m c d 0 l first.above hi_c lo hi m.count_pos inside
                    (omega (arith, eq))).0) in
            sector_kept (cluster_no_to_lba s c) (apart_from k spot.inside)
              (λ h. apart_from (k + 1) h)

        created :
            IsRecord r
            → (clean : dev.read_sector t1.disk (cluster_no_to_lba s c) ≡ blank_sector)
            → {p : Prog (Fs Store) (Option ℕ)} → p s ≡ done (some c) after
            → IsCreated d k p
        created good clean run =
            let first = free_clusters-IsFirstFree s free in
            record {
              state = after;
              run = run;
              mounted = IsMounted-update _ _ x.mounted;
              synced = after-IsSynced;
              chain = x.chain;
              entries = λ e used_e. x.others e (used_out e used_e).0 (used_out e used_e).1;
              same_volume = x.same_volume;
              same_end = x.same_end;
              below = after-IsBelowKept;
              now =
                  ap (search_records name) ins.now
                  ∙ search-fill_record name c pre ins.post r v
                      (omega (arith, first.below, m.table_small))
                      (search_records-quiet name pre place.none_before quiet_before);
              kept = after_kept;
              contents =
                  λ e lo_e hi_e used_e ne i small. after_sector e i lo_e hi_e used_e (inl ne) small;
              still = λ other.
                  rw (place.parts, ins.now)
                    (append-IsStill other pre post (fill_record name c r ∷ ins.post) r place.not_lfn
                      place.ends_list);
              blank = rw (same_lba s after c x.same_volume) (after_blank ∙ clean);
            }

    -- An insertion at a spot: the sector of the spot holds the new record, in front of it everything
    -- stays, and the clusters in use and the table stay in agreement.
    pub create :
        (d k : ℕ)
        → length cs + 1 < 2 ^ 31
        → IsSpot dev name s d k
        → (2 ≤ d) × (d < s.fat_end) × (s.fat d ≢ 0)
        → IsCreated d k (scan dev name s (length cs + 1) d k (read_records dev s d k))
    create d k fits spot (lo, hi, busy) =
        let records = read_records dev s d k in
        let (pre, r, post, place, scan_run) =
          insert_scan-some dev (length cs + 1) name d k 16 0 records [] records s refl refl
            (sym (length-read_records s d k)) refl spot.free in
        let (t1, run1, x, clean, filled) =
          alloc_local_file_at-IsExtended dev r name c cs rest s m sync free fits in
        let f = fill_record name c r in
        let parts =
          AllRecords-split pre (r ∷ post)
            (subst AllRecords place.parts (AllRecords-read_records s d k sectors)) in
        let size : length (pre ++ (r ∷ post)) ≡ 16 =
          sym (ap (λ rs. length rs) place.parts) ∙ length-read_records s d k in
        let ins =
          insert_at-IsInserted dev (length cs + 1) name d k c pre post r f s t1 run1
            (AllRecords-append pre (f ∷ post) parts.0
              (fill_record-IsRecord name c v.long parts.1.0, parts.1.1))
            (omega (arith, length-append pre (r ∷ post), length-append pre (f ∷ post), size))
            spot.inside in
        created d k pre post r t1 spot lo hi busy place x ins parts.1.0 clean (
          scan_run
          ∙ ap
              (λ rs.
                and_then (insert_at dev (length cs + 1) name d k (length pre) rs s)
                  (λ first. pure (some first)))
              place.parts
          ∙ ap (λ out. and_then out (λ first. pure (some first))) ins.run)
