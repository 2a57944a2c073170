-- ===== src/Dfs.antt =====
-- The configuration file of pi-src/fat32-dfs.c and `id_for_dfs` of pi-src/main.c: a sector of sixteen
-- entries, each the name of a distributed file system and the id of this disk in it.
pub mod Entries
pub mod Scans
pub mod Ids
pub mod Config
pub mod Restart
mod Examples
use rpi0_naivegfs.Base.{
  ℕ, zero, suc, ◌+◌, if◌then◌else◌, ◌==◌, List, [], ◌∷◌, ◌++◌, Prog, done, halted, ◌>>=◌, pure,
  get_or, take, drop, bytes16, word16, u16, minus_one,
}
use rpi0_naivegfs.Strings.{strncpy, strncmp}
use rpi0_naivegfs.Fat32.State.{SectorDevice, Fs, cluster_no_to_lba}
use rpi0_naivegfs.Fat32.Directory.{fat32_get_cluster_no, fat32_alloc_local_file}

-- "FS32-DFSCFG"
abbrev pub fat32_dfs_cfg_filename : List ℕ
fat32_dfs_cfg_filename =
    b'F' ∷ b'S' ∷ b'3' ∷ b'2' ∷ b'-' ∷ b'D' ∷ b'F' ∷ b'S' ∷ b'C' ∷ b'F' ∷ b'G' ∷ []

abbrev pub max_dfs_name_len : ℕ
max_dfs_name_len = 30

-- The cluster of the configuration file, which is made with two clusters if it is not found.
unfoldable pub dfs_init_config : {Store : Type 0} → SectorDevice Store → ℕ → Prog (Fs Store) ℕ
dfs_init_config dev rounds = do
  config_cluster_no ← fat32_get_cluster_no dev rounds fat32_dfs_cfg_filename
  if config_cluster_no == minus_one
      then fat32_alloc_local_file dev rounds 2 fat32_dfs_cfg_filename
      else pure config_cluster_no

-- An entry of `struct config_sector`.
pub record Entry : Type 0 where
  pub dfs_id : List ℕ
  pub id : ℕ

unfoldable pub decode_entries : ℕ → List ℕ → List Entry
decode_entries zero b = []
decode_entries (suc n) b =
    let rest = drop 30 b in
    record { dfs_id = take 30 b; id = word16 (get_or rest 0 0) (get_or rest 1 0) }
    ∷ decode_entries n (drop 2 rest)

unfoldable pub encode_entries : List Entry → List ℕ
encode_entries [] = []
encode_entries (e ∷ es) = e.dfs_id ++ (bytes16 e.id ++ encode_entries es)

abbrev pub num_entries : ℕ
num_entries = 16

-- How the loop over the entries ends: the disk has an id, the processor stops, or the sector is to be
-- written back.
pub data Scan : Type 0 where
  known : ℕ → Scan
  stop : Scan
  write_back : List Entry → Scan

abbrev pub behind : Entry → Scan → Scan
behind e (known i) = known i
behind e stop = stop
behind e (write_back es) = write_back (e ∷ es)

unfoldable pub scan_entries : List ℕ → ℕ → List Entry → Scan
scan_entries dfs_name unassigned [] = write_back []
scan_entries dfs_name unassigned (e ∷ es) =
    let rest = behind e (scan_entries dfs_name unassigned es) in
    if get_or e.dfs_id 0 0 == 0
    then (if unassigned == minus_one
        then stop
        else write_back (
            record { dfs_id = strncpy e.dfs_id dfs_name max_dfs_name_len; id = u16 unassigned }
            ∷ es))
    else if strncmp e.dfs_id dfs_name max_dfs_name_len == 0
    then known e.id
    else rest

module _ {Store : Type 0} (dev : SectorDevice Store) where
  -- The entries that a configuration file's first sector holds.
  unfoldable pub config_entries : ℕ → Fs Store → List Entry
  config_entries cfg s =
      decode_entries num_entries (dev.read_sector s.disk (cluster_no_to_lba s cfg))

  abbrev pub conclude : ℕ → Scan → Prog (Fs Store) ℕ
  conclude cfg (known i) s = done i s
  conclude cfg stop s = halted s
  conclude cfg (write_back es) s =
      done minus_one
        (record s { disk = dev.write_sector (encode_entries es) (cluster_no_to_lba s cfg) s.disk })

  -- The id that the disk has, or -1.
  unfoldable pub id_for_dfs : ℕ → List ℕ → ℕ → Prog (Fs Store) ℕ
  id_for_dfs cfg dfs_name unassigned s =
      conclude cfg (scan_entries dfs_name unassigned (config_entries cfg s)) s
