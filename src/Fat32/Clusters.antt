-- ===== src/Fat32/Clusters.antt =====
-- `read_cluster` and `write_cluster` of pi-src/fat32.c. The buffer is the list of bytes from the
-- pointer on; the messages that they print are left out.
pub mod RoundTrip
pub mod Kept
use rpi0_naivegfs.Base.{
  ℕ, zero, suc, ◌+◌, if◌then◌else◌, List, [], ◌++◌, Prog, done, halted, take, drop, u32,
}
use rpi0_naivegfs.Fat32.State.{SectorDevice, Fs, sectors_per_cluster, cluster_no_to_lba}

module _ {Store : Type 0} (dev : SectorDevice Store) where
  -- The loops with n rounds left; `lba++` is on `uint32_t`.
  unfoldable pub read_sectors : ℕ → ℕ → Store → List ℕ
  read_sectors zero lba d = []
  read_sectors (suc n) lba d = dev.read_sector d lba ++ read_sectors n (u32 (lba + 1)) d

  unfoldable pub write_sectors : ℕ → ℕ → List ℕ → Store → Store
  write_sectors zero lba src d = d
  write_sectors (suc n) lba src d =
      write_sectors n (u32 (lba + 1)) (drop 512 src) (dev.write_sector (take 512 src) lba d)

  unfoldable pub read_cluster : ℕ → Fs Store → List ℕ
  unfolding read_sectors
  read_cluster c s = read_sectors (sectors_per_cluster s) (cluster_no_to_lba s c) s.disk

  unfoldable pub write_cluster : ℕ → List ℕ → Prog (Fs Store) (Unit {0})
  unfolding write_sectors
  write_cluster c src s =
      if s.did_init
      then done tt (record s {
        disk = write_sectors (sectors_per_cluster s) (cluster_no_to_lba s c) src s.disk;
      })
      else halted s
