-- ===== src/Dfs/Config.antt =====
-- `dfs_init_config` on a volume without a configuration file, and `id_for_dfs` on the file it makes.
use rpi0_naivegfs.Base.{
  ℕ, ◌<◌, ◌≡◌, ◌≢◌, refl, ap, ◌∙◌, true, false, inl, List, [], ◌∷◌, done, length, replicate, u16,
  minus_one, ne→not_==, arith,
}
use rpi0_naivegfs.Strings.{ends}
use rpi0_naivegfs.Fat32.Layout.{DirRecord, fat32_root_cluster_no}
use rpi0_naivegfs.Fat32.State.{SectorDevice, Fs, blank_sector, cluster_no_to_lba}
use rpi0_naivegfs.Fat32.Table.Find.{free_clusters, free_clusters-IsFirstFree}
use rpi0_naivegfs.Fat32.Table.Geometry.{IsMounted}
use rpi0_naivegfs.Fat32.Table.Synced.{IsSynced}
use rpi0_naivegfs.Fat32.Directory.{fat32_get_cluster_no, fat32_alloc_local_file}
use rpi0_naivegfs.Fat32.Directory.Lookup.{IsPath, directory_records}
use rpi0_naivegfs.Fat32.Directory.Listing.{
  listed, has_terminal, lookup, fat32_get_cluster_no-lookup,
}
use rpi0_naivegfs.Fat32.Directory.Place.{unlisted}
use rpi0_naivegfs.Fat32.Directory.Created.{AllUsed}
use rpi0_naivegfs.Fat32.Directory.Named.{IsName}
use rpi0_naivegfs.Fat32.Directory.Creation.{AllSectors}
use rpi0_naivegfs.Fat32.Directory.RoundTrip.{fat32_get_cluster_no-fat32_alloc_local_file}
use rpi0_naivegfs.Dfs.{
  fat32_dfs_cfg_filename, dfs_init_config, Entry, decode_entries, encode_entries, scan_entries,
  write_back, config_entries, id_for_dfs,
}
use rpi0_naivegfs.Dfs.Entries.{AllEntries}
use rpi0_naivegfs.Dfs.Scans.{HasFree, scan_free}
use rpi0_naivegfs.Dfs.Ids.{id_for_dfs-again}

pub cfg_filename-IsName : IsName fat32_dfs_cfg_filename
cfg_filename-IsName = record { long = omega arith; real = λ e. omega (arith, e) }

pub lookup-unlisted :
    (name : List ℕ) (rs : List DirRecord) → unlisted name rs ≡ true → lookup name rs ≡ minus_one
lookup-unlisted name [] h = refl
lookup-unlisted name (r ∷ rs) h = ground (arith, lookup-unlisted name rs)

pub blank-AllEntries : AllEntries (decode_entries 16 blank_sector)
unfolding decode_entries
blank-AllEntries = ground arith

pub blank-HasFree : HasFree (decode_entries 16 blank_sector)
unfolding decode_entries
blank-HasFree = inl refl

pub scan_entries-blank :
    (name : List ℕ) (unassigned : ℕ)
    → unassigned ≢ minus_one
    → (es : List Entry) × (scan_entries name unassigned (decode_entries 16 blank_sector)
        ≡ write_back es)
unfolding decode_entries
scan_entries-blank name unassigned given = (
  _,
  scan_free name (record { dfs_id = replicate 30 0; id = 0 }) (decode_entries 15 (replicate 480 0))
      unassigned given refl,
)

module _ {Store : Type 0} (dev : SectorDevice Store) where
  pub blank_config :
      (cfg : ℕ) (t : Fs Store)
      → dev.read_sector t.disk (cluster_no_to_lba t cfg) ≡ blank_sector
      → config_entries dev cfg t ≡ decode_entries 16 blank_sector
  unfolding config_entries
  blank_config cfg t blank = ap (decode_entries 16) blank

  -- A first name is reported as taken.
  id_for_dfs-blank :
      (cfg : ℕ) (name : List ℕ) (unassigned : ℕ) (t : Fs Store)
      → unassigned ≢ minus_one
      → dev.read_sector t.disk (cluster_no_to_lba t cfg) ≡ blank_sector
      → (u : Fs Store) × (id_for_dfs dev cfg name unassigned t ≡ done minus_one u)
  unfolding id_for_dfs
  id_for_dfs-blank cfg name unassigned t given blank =
      let (es, scan) = scan_entries-blank name unassigned given in
      (
        record t { disk = dev.write_sector (encode_entries es) (cluster_no_to_lba t cfg) t.disk },
        rw (blank_config cfg t blank, scan),
      )

  pub dfs_init_config-present :
      (n c : ℕ) (s : Fs Store)
      → fat32_get_cluster_no dev n fat32_dfs_cfg_filename s ≡ done c s
      → c ≢ minus_one
      → dfs_init_config dev n s ≡ done c s
  unfolding dfs_init_config
  dfs_init_config-present n c s run real = rw (run, ne→not_== c minus_one real)

  pub dfs_init_config-absent :
      (n : ℕ) (s : Fs Store)
      → fat32_get_cluster_no dev n fat32_dfs_cfg_filename s ≡ done minus_one s
      → dfs_init_config dev n s ≡ fat32_alloc_local_file dev n 2 fat32_dfs_cfg_filename s
  unfolding dfs_init_config
  dfs_init_config-absent n s run = rw run

  -- On a mounted volume whose table on the disk is that in memory and whose sectors are 512 bytes, let
  -- the root directory be a path of used clusters with a free record, before which no file is listed
  -- whose name compares equal to the configuration file's, and let c and d be the first free
  -- clusters. Then `dfs_init_config` makes the file and returns c; called again it returns c and
  -- changes nothing. In the new file `id_for_dfs` reports any id but -1 as taken for a name that does
  -- not start with a byte that ends strings, by -1, and for that name returns the id, cut to 16 bits,
  -- when it is called again, whatever id it is offered.
  pub dfs_init_config-id_for_dfs :
      (n c d b : ℕ) (ds rest bs : List ℕ) (unassigned other : ℕ) (s : Fs Store)
      → IsMounted s
      → IsSynced dev s
      → AllSectors dev s.disk
      → IsPath s.fat fat32_root_cluster_no ds
      → AllUsed s (fat32_root_cluster_no ∷ ds)
      → length ds < n
      → has_terminal (directory_records dev s (fat32_root_cluster_no ∷ ds)) ≡ true
      → unlisted fat32_dfs_cfg_filename
          (listed (directory_records dev s (fat32_root_cluster_no ∷ ds)))
        ≡ true
      → free_clusters s ≡ c ∷ d ∷ rest
      → ends b ≡ false
      → unassigned ≢ minus_one
      → (t u : Fs Store) × (dfs_init_config dev n s ≡ done c t)
        × (dfs_init_config dev n t ≡ done c t)
        × (id_for_dfs dev c (b ∷ bs) unassigned t ≡ done minus_one u)
        × (id_for_dfs dev c (b ∷ bs) other u ≡ done (u16 unassigned) u)
  dfs_init_config-id_for_dfs n c d b ds rest bs unassigned other s m sync sectors path used fuel
        room new free real given =
      let records = directory_records dev s (fat32_root_cluster_no ∷ ds) in
      let first = free_clusters-IsFirstFree s free in
      let (t, made, found, m2, sync2, chain, blank) =
        fat32_get_cluster_no-fat32_alloc_local_file dev fat32_dfs_cfg_filename n c ds (d ∷ []) rest
          s m sync sectors path used fuel room new cfg_filename-IsName free (omega arith) in
      let missing : fat32_get_cluster_no dev n fat32_dfs_cfg_filename s ≡ done minus_one s =
        fat32_get_cluster_no-lookup dev fat32_dfs_cfg_filename n ds s m.ready path fuel room
        ∙ ap (λ l. done l s) (lookup-unlisted fat32_dfs_cfg_filename (listed records) new) in
      let (u, named) = id_for_dfs-blank c (b ∷ bs) unassigned t given blank in
      let entries = blank_config c t blank in
      (
        t,
        u,
        dfs_init_config-absent n s missing ∙ made,
        dfs_init_config-present n c t found (omega (arith, first.below, m.table_small)),
        named,
        id_for_dfs-again dev c b bs unassigned other t u real given (rw entries blank-AllEntries)
            (rw entries blank-HasFree) named,
      )
