-- ===== src/Fat32/Directory/Listing.antt =====
-- The files that the root directory lists, and `fat32_get_cluster_no` against them.
use rpi0_naivegfs.Base.{
  ℕ, ◌<◌, ◌≡◌, true, ◌&&◌, ◌||◌, not, if◌then◌else◌, ◌==◌, Bool, some, List, [], ◌∷◌, done, length,
  minus_one, arith,
}
use rpi0_naivegfs.Strings.{strncmp}
use rpi0_naivegfs.Fat32.Layout.{
  DirRecord, fat32_root_cluster_no, is_lfn, is_terminal, first_cluster,
}
use rpi0_naivegfs.Fat32.State.{SectorDevice, Fs}
use rpi0_naivegfs.Fat32.Directory.{search_records, fat32_get_cluster_no}
use rpi0_naivegfs.Fat32.Directory.Lookup.{IsPath, directory_records, fat32_get_cluster_no-search}

-- The records of files: those of long names are left out, and the terminal ends the list.
abbrev pub listed : List DirRecord → List DirRecord
listed [] = []
listed (r ∷ rs) =
    let rest = listed rs in if is_lfn r then rest else if is_terminal r then [] else r ∷ rest

abbrev pub has_terminal : List DirRecord → Bool
has_terminal [] = Bool.false
has_terminal (r ∷ rs) = (not (is_lfn r) && is_terminal r) || has_terminal rs

-- The first cluster of the first file whose name compares equal, or -1.
abbrev pub lookup : List ℕ → List DirRecord → ℕ
lookup name [] = minus_one
lookup name (r ∷ rs) =
    let rest = lookup name rs in if strncmp r.dir_name name 11 == 0 then first_cluster r else rest

search_records-listed :
    (name : List ℕ) (rs : List DirRecord)
    → has_terminal rs ≡ true
    → search_records name rs ≡ some (lookup name (listed rs))
unfolding search_records
search_records-listed name [] h = absurd (ground arith)
search_records-listed name (r ∷ rs) h = ground (arith, search_records-listed name rs)

module _ {Store : Type 0} (dev : SectorDevice Store) where
  -- Once initialised, where the records of the clusters of the root directory hold a terminal,
  -- `fat32_get_cluster_no` returns the first cluster of the first file listed before it whose name
  -- compares equal, or -1 if there is none, and changes nothing. One round for each cluster is enough.
  pub fat32_get_cluster_no-lookup :
      (name : List ℕ) (n : ℕ) (cs : List ℕ) (s : Fs Store)
      → s.did_init ≡ true
      → IsPath s.fat fat32_root_cluster_no cs
      → length cs < n
      → has_terminal (directory_records dev s (fat32_root_cluster_no ∷ cs)) ≡ true
      → fat32_get_cluster_no dev n name s
        ≡ done (lookup name (listed (directory_records dev s (fat32_root_cluster_no ∷ cs)))) s
  fat32_get_cluster_no-lookup name n cs s ready path fuel h =
      fat32_get_cluster_no-search dev name n cs s ready path fuel
        (search_records-listed name (directory_records dev s (fat32_root_cluster_no ∷ cs)) h)
