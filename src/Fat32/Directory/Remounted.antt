-- ===== src/Fat32/Directory/Remounted.antt =====
-- `fat32_get_cluster_no` on a disk that an earlier session has left.
use rpi0_naivegfs.Base.{
  ℕ, u32, ◌+◌, ◌%◌, ◌^◌, ◌<◌, ◌≡◌, ap, sym, ◌∙◌, some, true, List, [], ◌∷◌, length, done, arith,
}
use rpi0_naivegfs.Fat32.Layout.{fat32_root_cluster_no}
use rpi0_naivegfs.Fat32.State.{SectorDevice, Fs, volume, cluster_no_to_lba}
use rpi0_naivegfs.Fat32.Table.Frame.{same_count}
use rpi0_naivegfs.Fat32.Mount.{fat32_init}
use rpi0_naivegfs.Fat32.Mount.Card.{IsCard, IsOnCard}
use rpi0_naivegfs.Fat32.Mount.Restart.{fat32_init-again}
use rpi0_naivegfs.Fat32.Directory.{search_records, fat32_get_cluster_no}
use rpi0_naivegfs.Fat32.Directory.Listing.{has_terminal}
use rpi0_naivegfs.Fat32.Directory.Lookup.{IsPath, directory_records, fat32_get_cluster_no-search}
use rpi0_naivegfs.Fat32.Directory.Created.{AllUsed, read_records-kept, directory_records-kept}
use rpi0_naivegfs.Fat32.Directory.Still.{search-terminal}

IsPath-remounted :
    {Store : Type 0} (v w : Fs Store) (c : ℕ) (cs : List ℕ)
    → v.fat_end ≡ 128
    → ((i : ℕ) → i < 128 → w.fat i ≡ v.fat i % 2 ^ 32)
    → AllUsed v (c ∷ cs)
    → IsPath v.fat c cs
    → IsPath w.fat c cs
IsPath-remounted v w c [] size words used path = tt
IsPath-remounted v w c (e ∷ es) size words (lo, hi, nz, rest) (link, path) = (
  omega (arith, words c (omega (arith, size)), link),
  IsPath-remounted v w e es size words rest path,
)

module _ {Store : Type 0} (dev : SectorDevice Store) (d : Store) (k : ℕ) where
  -- A search that has a result on what the first session left has it once the card is mounted again.
  pub fat32_get_cluster_no-remounted :
      (v w : Fs Store) (name : List ℕ) (n x : ℕ) (ds : List ℕ)
      → IsOnCard dev d k v
      → IsOnCard dev d k w
      → w.disk ≡ v.disk
      → ((i : ℕ) → i < 128 → w.fat i ≡ v.fat i % 2 ^ 32)
      → IsPath v.fat fat32_root_cluster_no ds
      → AllUsed v (fat32_root_cluster_no ∷ ds)
      → length ds < n
      → search_records name (directory_records dev v (fat32_root_cluster_no ∷ ds)) ≡ some x
      → fat32_get_cluster_no dev n name w ≡ done x w
  fat32_get_cluster_no-remounted v w name n x ds on now same words path used fuel found =
      let volumes : volume w ≡ volume v = now.same_volume ∙ sym on.same_volume in
      let records =
        directory_records-kept dev v v w (fat32_root_cluster_no ∷ ds) used
          (same_count on.mounted now.mounted volumes)
          (λ e i lo hi nz small.
            read_records-kept dev e i v w volumes
              (ap (λ disk. dev.read_sector disk (u32 (cluster_no_to_lba v e + i))) same)) in
      fat32_get_cluster_no-search dev name n ds w now.mounted.ready
        (IsPath-remounted v w fat32_root_cluster_no ds on.table_end words used path) fuel
        (rw records found)

  -- Let a session that mounted a card, as IsCard describes it, of one partition with a table of one
  -- sector have left a state that is still mounted, with the table on the disk that in memory, and
  -- nothing changed below the table, and let the root directory be a path of used clusters with a
  -- free record. Then `fat32_init` on that disk, whatever memory holds, returns 0, and
  -- `fat32_get_cluster_no` returns for any name what it returned before. More rounds than the
  -- directory has clusters behind the first are enough.
  pub fat32_get_cluster_no-restart :
      (v memory : Fs Store) (name : List ℕ) (n : ℕ) (ds : List ℕ)
      → IsCard dev d k
      → IsOnCard dev d k v
      → IsPath v.fat fat32_root_cluster_no ds
      → AllUsed v (fat32_root_cluster_no ∷ ds)
      → length ds < n
      → has_terminal (directory_records dev v (fat32_root_cluster_no ∷ ds)) ≡ true
      → (x : ℕ) × (w : Fs Store) × (fat32_get_cluster_no dev n name v ≡ done x v)
        × (fat32_init dev (record memory { disk = v.disk }) ≡ done 0 w)
        × (fat32_get_cluster_no dev n name w ≡ done x w)
  fat32_get_cluster_no-restart v memory name n ds card on path used fuel room =
      let (x, found) =
        search-terminal name (directory_records dev v (fat32_root_cluster_no ∷ ds)) room in
      let (w, run, now, same, words) = fat32_init-again dev d k card v on memory in
      (
        x,
        w,
        fat32_get_cluster_no-search dev name n ds v on.mounted.ready path fuel found,
        run,
        fat32_get_cluster_no-remounted v w name n x ds on now same words path used fuel found,
      )
