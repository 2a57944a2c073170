-- ===== src/Fat32/Directory/RoundTrip.antt =====
-- `fat32_alloc_local_file` followed by `fat32_get_cluster_no`.
use rpi0_naivegfs.Fat32.Directory.Named.{IsName}
use rpi0_naivegfs.Fat32.Directory.Creation.{AllSectors, create}
use rpi0_naivegfs.Fat32.Directory.Still.{IsStill, search-terminal, directory-IsStill}
use rpi0_naivegfs.Fat32.Table.Frame.{IsBelowKept, IsKept}
use rpi0_naivegfs.Base.{
  done-injective, minus_one, sym, ap, ◌∙◌, some, ℕ, ◌+◌, ◌^◌, ◌<◌, ◌≤◌, ◌≡◌, ◌≢◌, inl, inr, true,
  List, [], ◌∷◌, ◌++◌, done, length, arith,
}
use rpi0_naivegfs.Fat32.Layout.{records_per_sector, fat32_root_cluster_no}
use rpi0_naivegfs.Fat32.State.{SectorDevice, Fs, blank_sector, volume, cluster_no_to_lba}
use rpi0_naivegfs.Fat32.Table.Find.{NotIn, free_clusters}
use rpi0_naivegfs.Fat32.Table.Geometry.{IsMounted}
use rpi0_naivegfs.Fat32.Table.Frame.{same_count}
use rpi0_naivegfs.Fat32.Table.Synced.{IsSynced}
use rpi0_naivegfs.Fat32.Files.Chain.{IsChain}
use rpi0_naivegfs.Fat32.Directory.{
  search_records, found, walk_directory, insert_scan, insert_new_cluster, fat32_alloc_local_file,
  fat32_get_cluster_no,
}
use rpi0_naivegfs.Fat32.Directory.Listing.{listed, has_terminal}
use rpi0_naivegfs.Fat32.Directory.Lookup.{IsPath, directory_records, fat32_get_cluster_no-search}
use rpi0_naivegfs.Fat32.Directory.Place.{unlisted, locate}
use rpi0_naivegfs.Fat32.Directory.Rounds.{walk_directory-Located}
use rpi0_naivegfs.Fat32.Directory.Created.{AllUsed, Located-ne, Located-used, search-Located}

module _ {Store : Type 0} (dev : SectorDevice Store) where
  IsPath-kept :
      (s t : Fs Store) (c : ℕ) (cs : List ℕ)
      → ((e : ℕ) → s.fat e ≢ 0 → t.fat e ≡ s.fat e)
      → AllUsed s (c ∷ cs)
      → IsPath s.fat c cs
      → IsPath t.fat c cs
  IsPath-kept s t c [] kept used path = tt
  IsPath-kept s t c (d ∷ ds) kept used path =
      (rw (kept c used.2) path.0, IsPath-kept s t d ds kept used.3 path.1)

  -- An allocation whose walk finds a free record.
  fat32_alloc_local_file-found :
      (name : List ℕ) (n count : ℕ) (s : Fs Store) {first : ℕ} {t : Fs Store}
      → s.did_init ≡ true
      → (volume s).root_dir_first_cluster ≡ 2
      → walk_directory dev (insert_scan dev records_per_sector 0 count name) n 2 2 [] s
        ≡ done (found first) t
      → fat32_alloc_local_file dev n count name s ≡ done first t
  unfolding fat32_alloc_local_file insert_new_cluster
  fat32_alloc_local_file-found name n count s ready root walk = simp (ready, root, walk)

  pub AllUsed-kept :
      (s t : Fs Store) (cs : List ℕ)
      → t.fat_end ≡ s.fat_end
      → ((e : ℕ) → s.fat e ≢ 0 → t.fat e ≡ s.fat e)
      → AllUsed s cs
      → AllUsed t cs
  AllUsed-kept s t [] same kept used = tt
  AllUsed-kept s t (c ∷ cs) same kept (lo, hi, nz, rest) =
      (lo, omega (arith, same), (λ e. nz (sym (kept c nz) ∙ e)), AllUsed-kept s t cs same kept rest)

  -- What `fat32_alloc_local_file` makes of a state, for a file of the clusters c and cs and a root
  -- directory of the cluster 2 and ds.
  pub record IsMade (name : List ℕ) (n c : ℕ) (ds cs : List ℕ) (s : Fs Store) : Type 0 where
    pub state : Fs Store
    pub run : fat32_alloc_local_file dev n (length cs + 1) name s ≡ done c state
    pub found :
        search_records name (directory_records dev state (fat32_root_cluster_no ∷ ds)) ≡ some c
    pub path : IsPath state.fat fat32_root_cluster_no ds
    pub used : AllUsed state (fat32_root_cluster_no ∷ ds)
    pub mounted : IsMounted state
    pub synced : IsSynced dev state
    pub chain : IsChain state.fat c cs
    pub same_volume : volume state ≡ volume s
    pub same_end : state.fat_end ≡ s.fat_end
    pub below : IsBelowKept dev s state
    pub still :
        (other : List ℕ)
        → IsStill other
            (directory_records dev s (fat32_root_cluster_no ∷ ds))
            (directory_records dev state (fat32_root_cluster_no ∷ ds))
    pub contents :
        (e : ℕ)
        → 2 ≤ e
        → e < s.fat_end
        → s.fat e ≢ 0
        → NotIn e (fat32_root_cluster_no ∷ ds)
        → IsKept dev e s state
    pub blank : dev.read_sector state.disk (cluster_no_to_lba state c) ≡ blank_sector

  module _ (name : List ℕ) (n c : ℕ) (ds cs rest : List ℕ) (s : Fs Store) (m : IsMounted s)
      (sync : IsSynced dev s) (sectors : AllSectors dev s.disk)
      (path : IsPath s.fat fat32_root_cluster_no ds) (used : AllUsed s (fat32_root_cluster_no ∷ ds))
      (fuel : length ds < n)
      (room : has_terminal (directory_records dev s (fat32_root_cluster_no ∷ ds)) ≡ true)
      (new : unlisted name (listed (directory_records dev s (fat32_root_cluster_no ∷ ds))) ≡ true)
      (v : IsName name) (free : free_clusters s ≡ c ∷ (cs ++ rest))
      (fits : length cs + 1 < 2 ^ 31) where
    pub make : IsMade name n c ds cs s
    make =
        let (d, k, spot, place) = locate dev name s fat32_root_cluster_no ds room new in
        let (lo, hi, busy) = Located-used dev name s d k fat32_root_cluster_no ds place used in
        let x =
          create dev name n c ds cs rest s m sync sectors used free v d k fits spot
            (lo, hi, busy) in
        let same_n = same_count m x.mounted x.same_volume in
        let walk =
          walk_directory-Located dev name s (length cs + 1) d k n fat32_root_cluster_no
            fat32_root_cluster_no ds [] c x.state m.ready (omega arith) path fuel place x.run in
        record {
          state = x.state;
          run = fat32_alloc_local_file-found name n (length cs + 1) s m.ready m.root walk;
          found =
              search-Located dev name s x.state d k c fat32_root_cluster_no ds place used same_n
                (λ e i lo_e hi_e used_e ne small. x.kept e i lo_e hi_e used_e (inl ne) small)
                (λ i before. x.kept d i lo hi busy (inr before) (omega (arith, spot.inside))) x.now;
          path = IsPath-kept s x.state fat32_root_cluster_no ds x.entries used path;
          used = AllUsed-kept s x.state (fat32_root_cluster_no ∷ ds) x.same_end x.entries used;
          mounted = x.mounted;
          synced = x.synced;
          chain = x.chain;
          same_volume = x.same_volume;
          same_end = x.same_end;
          below = x.below;
          still = λ other.
              directory-IsStill dev name other s x.state d k fat32_root_cluster_no ds place used
                same_n (λ e i lo_e hi_e used_e ne small. x.kept e i lo_e hi_e used_e (inl ne) small)
                (λ i before. x.kept d i lo hi busy (inr before) (omega (arith, spot.inside)))
                (x.still other);
          contents = λ e lo_e hi_e used_e out.
              x.contents e lo_e hi_e used_e
                (Located-ne dev name s d k fat32_root_cluster_no ds e place out);
          blank = x.blank;
        }

  -- On a mounted volume whose table on the disk is that in memory and whose sectors are 512 bytes,
  -- let the root directory be a path of used clusters with a free record, before which no file is
  -- listed whose name compares equal, let c and cs, fewer than 2 ^ 31, be the first free clusters,
  -- and let the name have 11 bytes or more, the first not 0. Then `fat32_alloc_local_file` returns
  -- c, and `fat32_get_cluster_no` with the name returns c afterwards and changes nothing. The
  -- volume is still mounted, its table on the disk is still that in memory, and leads from c
  -- through cs to the end mark, and the file's first sector is blank. More rounds than the
  -- directory has clusters behind the first are enough.
  pub fat32_get_cluster_no-fat32_alloc_local_file :
      (name : List ℕ) (n c : ℕ) (ds cs rest : List ℕ) (s : Fs Store)
      → IsMounted s
      → IsSynced dev s
      → AllSectors dev s.disk
      → IsPath s.fat fat32_root_cluster_no ds
      → AllUsed s (fat32_root_cluster_no ∷ ds)
      → length ds < n
      → has_terminal (directory_records dev s (fat32_root_cluster_no ∷ ds)) ≡ true
      → unlisted name (listed (directory_records dev s (fat32_root_cluster_no ∷ ds))) ≡ true
      → IsName name
      → free_clusters s ≡ c ∷ (cs ++ rest)
      → length cs + 1 < 2 ^ 31
      → (t : Fs Store) × (fat32_alloc_local_file dev n (length cs + 1) name s ≡ done c t)
        × (fat32_get_cluster_no dev n name t ≡ done c t)
        × IsMounted t
        × IsSynced dev t
        × IsChain t.fat c cs
        × (dev.read_sector t.disk (cluster_no_to_lba t c) ≡ blank_sector)
  fat32_get_cluster_no-fat32_alloc_local_file name n c ds cs rest s m sync sectors path used fuel
        room new v free fits =
      let x = make name n c ds cs rest s m sync sectors path used fuel room new v free fits in
      (
        x.state,
        x.run,
        fat32_get_cluster_no-search dev name n ds x.state x.mounted.ready x.path fuel x.found,
        x.mounted,
        x.synced,
        x.chain,
        x.blank,
      )

  -- On a mounted volume whose table on the disk is that in memory and whose sectors are 512 bytes,
  -- let the root directory be a path of used clusters with a free record, before which no file is
  -- listed whose name compares equal to the given one, let c and cs, fewer than 2 ^ 31, be the
  -- first free clusters, and let the name have 11 bytes or more, the first not 0. Then any name for
  -- which `fat32_get_cluster_no` returned x before, other than -1, still gives x once
  -- `fat32_alloc_local_file` has made the file. More rounds than the directory has clusters behind
  -- the first are enough.
  pub fat32_get_cluster_no-kept :
      (name other : List ℕ) (n c x : ℕ) (ds cs rest : List ℕ) (s : Fs Store)
      → IsMounted s
      → IsSynced dev s
      → AllSectors dev s.disk
      → IsPath s.fat fat32_root_cluster_no ds
      → AllUsed s (fat32_root_cluster_no ∷ ds)
      → length ds < n
      → has_terminal (directory_records dev s (fat32_root_cluster_no ∷ ds)) ≡ true
      → unlisted name (listed (directory_records dev s (fat32_root_cluster_no ∷ ds))) ≡ true
      → IsName name
      → free_clusters s ≡ c ∷ (cs ++ rest)
      → length cs + 1 < 2 ^ 31
      → fat32_get_cluster_no dev n other s ≡ done x s
      → x ≢ minus_one
      → (t : Fs Store) × (fat32_alloc_local_file dev n (length cs + 1) name s ≡ done c t)
        × (fat32_get_cluster_no dev n other t ≡ done x t)
  fat32_get_cluster_no-kept name other n c x ds cs rest s m sync sectors path used fuel room new v
        free fits before real =
      let made = make name n c ds cs rest s m sync sectors path used fuel room new v free fits in
      let (y, ends) =
        search-terminal other (directory_records dev s (fat32_root_cluster_no ∷ ds)) room in
      let same : y ≡ x =
        (done-injective
          (sym (fat32_get_cluster_no-search dev other n ds s m.ready path fuel ends) ∙ before)).0 in
      (
        made.state,
        made.run,
        fat32_get_cluster_no-search dev other n ds made.state made.mounted.ready made.path fuel
            (made.still other x (ends ∙ ap some same) real),
      )
