-- ===== src/Dfs/Restart.antt =====
-- `dfs_init_config` and `id_for_dfs` in a first session, and in the next one on the same card.
use rpi0_naivegfs.Base.{
  ℕ, ◌<◌, ◌≤◌, ◌≡◌, ◌≢◌, refl, sym, ap, ◌∙◌, true, false, List, [], ◌∷◌, done, length, u16, u32,
  minus_one, arith, ◌+◌,
}
use rpi0_naivegfs.Strings.{ends}
use rpi0_naivegfs.Strings.Laws.{text}
use rpi0_naivegfs.Fat32.Layout.{fat32_root_cluster_no}
use rpi0_naivegfs.Fat32.State.{SectorDevice, Fs, volume, cluster_no_to_lba}
use rpi0_naivegfs.Fat32.Table.Find.{free_clusters, free_clusters-IsFirstFree}
use rpi0_naivegfs.Fat32.Table.Frame.{write_first, write_first-IsKept}
use rpi0_naivegfs.Fat32.Table.Geometry.{IsMounted, cluster_no_to_lba_bounds}
use rpi0_naivegfs.Fat32.Mount.{fat32_init}
use rpi0_naivegfs.Fat32.Mount.Card.{IsCard, IsOnCard, IsOnCard-kept, write_first-IsOnCard}
use rpi0_naivegfs.Fat32.Mount.Restart.{fat32_init-again}
use rpi0_naivegfs.Fat32.Directory.{fat32_get_cluster_no}
use rpi0_naivegfs.Fat32.Directory.Lookup.{IsPath, directory_records}
use rpi0_naivegfs.Fat32.Directory.Listing.{listed, has_terminal, fat32_get_cluster_no-lookup}
use rpi0_naivegfs.Fat32.Directory.Place.{unlisted}
use rpi0_naivegfs.Fat32.Directory.Created.{AllUsed, read_records-kept, directory_records-kept}
use rpi0_naivegfs.Fat32.Directory.Creation.{AllSectors}
use rpi0_naivegfs.Fat32.Directory.RoundTrip.{AllUsed-kept, make}
use rpi0_naivegfs.Fat32.Directory.Remounted.{fat32_get_cluster_no-remounted}
use rpi0_naivegfs.Dfs.{
  Entry, fat32_dfs_cfg_filename, dfs_init_config, encode_entries, config_entries, id_for_dfs, known,
  scan_entries, write_back,
}
use rpi0_naivegfs.Dfs.Entries.{length-decode_entries}
use rpi0_naivegfs.Dfs.Scans.{scan_again, scan_known-text}
use rpi0_naivegfs.Dfs.Ids.{config_entries-write}
use rpi0_naivegfs.Dfs.Config.{
  cfg_filename-IsName, lookup-unlisted, blank-AllEntries, blank-HasFree, scan_entries-blank,
  blank_config, dfs_init_config-present, dfs_init_config-absent,
}

module _ {Store : Type 0} (dev : SectorDevice Store) where
  -- The directory does not change when the first sector of a cluster is written that was free before.
  directory_records-write_first :
      (b : List ℕ) (c : ℕ) (cs : List ℕ) (r t : Fs Store)
      → IsMounted t
      → t.fat_end ≡ r.fat_end
      → AllUsed r cs
      → 2 ≤ c
      → c < t.fat_end
      → r.fat c ≡ 0
      → directory_records dev (write_first dev b c t) cs ≡ directory_records dev t cs
  directory_records-write_first b c cs r t m size used lo hi free =
      directory_records-kept dev r t (write_first dev b c t) cs used refl (λ e i lo_e hi_e nz small.
        let inside : e < t.fat_end = omega (arith, size, hi_e) in
        let whole : u32 (cluster_no_to_lba t e + i) ≡ cluster_no_to_lba t e + i =
          omega (arith, cluster_no_to_lba_bounds m e i lo_e inside small) in
        read_records-kept dev e i t (write_first dev b c t) refl (
          rw whole (
            write_first-IsKept dev b c e m lo hi lo_e inside (λ same. nz (ap r.fat same ∙ free)) i
              small)))

  config_entries-same :
      (c : ℕ) (v w : Fs Store)
      → w.disk ≡ v.disk
      → volume w ≡ volume v
      → config_entries dev c w ≡ config_entries dev c v
  unfolding config_entries cluster_no_to_lba
  config_entries-same c v w disk same = rw (disk, same)

  -- The two ends of `id_for_dfs`.
  id_for_dfs-write :
      (c unassigned : ℕ) (name : List ℕ) (es : List Entry) (t : Fs Store)
      → scan_entries name unassigned (config_entries dev c t) ≡ write_back es
      → id_for_dfs dev c name unassigned t
        ≡ done minus_one (write_first dev (encode_entries es) c t)
  unfolding id_for_dfs
  id_for_dfs-write c unassigned name es t scan = rw scan

  id_for_dfs-known :
      (c other i : ℕ) (name : List ℕ) (w : Fs Store)
      → scan_entries name other (config_entries dev c w) ≡ known i
      → id_for_dfs dev c name other w ≡ done i w
  unfolding id_for_dfs
  id_for_dfs-known c other i name w scan = rw scan

  -- On a mounted card, as IsCard describes it, of one partition with a table of one sector, the
  -- same in memory and on the disk, and sectors of 512 bytes, let the root directory be a path of
  -- used clusters with a free record, before which no file is listed whose name compares equal to
  -- the configuration file's, and let c and e be the first free clusters. Then `dfs_init_config`
  -- makes the file and returns c, and `id_for_dfs` reports any id but -1 as taken, by -1, for a
  -- name that does not start with a byte that ends strings. On the disk that this leaves, whatever
  -- memory holds, `fat32_init` returns 0, `dfs_init_config` returns c again, and `id_for_dfs`
  -- returns the id, cut to 16 bits, for each name with the same string, whatever id it is offered.
  -- More rounds than the directory has clusters behind the first are enough.
  pub id_for_dfs-restart :
      (d : Store) (k n c e b : ℕ) (ds rest bs name : List ℕ) (unassigned other : ℕ)
      (s memory : Fs Store)
      → IsCard dev d k
      → IsOnCard dev d k s
      → AllSectors dev s.disk
      → IsPath s.fat fat32_root_cluster_no ds
      → AllUsed s (fat32_root_cluster_no ∷ ds)
      → length ds < n
      → has_terminal (directory_records dev s (fat32_root_cluster_no ∷ ds)) ≡ true
      → unlisted fat32_dfs_cfg_filename
          (listed (directory_records dev s (fat32_root_cluster_no ∷ ds)))
        ≡ true
      → free_clusters s ≡ c ∷ e ∷ rest
      → ends b ≡ false
      → unassigned ≢ minus_one
      → text 30 (b ∷ bs) ≡ text 30 name
      → (t u w : Fs Store) × (dfs_init_config dev n s ≡ done c t)
        × (id_for_dfs dev c (b ∷ bs) unassigned t ≡ done minus_one u)
        × (fat32_init dev (record memory { disk = u.disk }) ≡ done 0 w)
        × (dfs_init_config dev n w ≡ done c w)
        × (id_for_dfs dev c name other w ≡ done (u16 unassigned) w)
  id_for_dfs-restart d k n c e b ds rest bs name unassigned other s memory card on sectors path used
        fuel room new free real given alike =
      let records = directory_records dev s (fat32_root_cluster_no ∷ ds) in
      let first = free_clusters-IsFirstFree s free in
      let x =
        make dev fat32_dfs_cfg_filename n c ds (e ∷ []) rest s on.mounted on.synced sectors path
          used fuel room new cfg_filename-IsName free (omega arith) in
      let missing : fat32_get_cluster_no dev n fat32_dfs_cfg_filename s ≡ done minus_one s =
        fat32_get_cluster_no-lookup dev fat32_dfs_cfg_filename n ds s on.mounted.ready path fuel
          room
        ∙ ap (λ l. done l s) (lookup-unlisted fat32_dfs_cfg_filename (listed records) new) in
      let inside : c < x.state.fat_end = omega (arith, first.below, first.above, x.same_end) in
      let (es, scan) = scan_entries-blank (b ∷ bs) unassigned given in
      let blank = blank_config dev c x.state x.blank in
      let (again, all, len) =
        scan_again bs b real unassigned other _ es given blank-HasFree blank-AllEntries scan in
      let u = write_first dev (encode_entries es) c x.state in
      let on_t = IsOnCard-kept dev on x.mounted x.synced x.same_volume x.same_end x.below in
      let on_u =
        write_first-IsOnCard dev d k (encode_entries es) c x.state on_t first.above inside in
      let used_u =
        AllUsed-kept dev x.state u (fat32_root_cluster_no ∷ ds) refl (λ i nz. refl) x.used in
      let same_u =
        directory_records-write_first (encode_entries es) c (fat32_root_cluster_no ∷ ds) s x.state
          x.mounted x.same_end used first.above inside first.free in
      let (w, run, now, same, words) = fat32_init-again dev d k card u on_u memory in
      let found =
        fat32_get_cluster_no-remounted dev d k u w fat32_dfs_cfg_filename n c ds on_u now same words
          x.path used_u fuel (rw same_u x.found) in
      let volumes : volume w ≡ volume u = now.same_volume ∙ sym on_u.same_volume in
      let entries =
        config_entries-same c u w same volumes
        ∙ config_entries-write dev c es x.state all (len ∙ length-decode_entries 16 _) in
      (
        x.state,
        u,
        w,
        dfs_init_config-absent dev n s missing ∙ x.run,
        id_for_dfs-write c unassigned (b ∷ bs) es x.state (rw blank scan),
        run,
        dfs_init_config-present dev n c w found (omega (arith, inside, x.mounted.table_small)),
        id_for_dfs-known c other (u16 unassigned) name w
            (rw entries (scan_known-text (b ∷ bs) name other (u16 unassigned) es alike again)),
      )
