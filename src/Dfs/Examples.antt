-- ===== src/Dfs/Examples.antt =====
-- The theorems on the configuration sector at an empty sector and at a full one. The file is at
-- cluster 3 of the volume of Fat32/Sample, sector 34.
use rpi0_naivegfs.Base.{
  ℕ, zero, suc, ◌≡◌, ◌≢◌, refl, inl, List, [], ◌∷◌, Outcome, done, halted, running, replicate, u16,
  minus_one, arith,
}
use rpi0_naivegfs.Strings.{strncmp}
use rpi0_naivegfs.Fat32.State.{Fs, update, cluster_no_to_lba}
use rpi0_naivegfs.Fat32.Sample.{Disk, memory_device, small_fs, small_disk}
use rpi0_naivegfs.Dfs.{
  dfs_init_config, fat32_dfs_cfg_filename, Entry, config_entries, decode_entries, encode_entries,
  scan_entries, id_for_dfs,
}
use rpi0_naivegfs.Dfs.Entries.{AllEntries}
use rpi0_naivegfs.Fat32.Mount.{fat32_init}
use rpi0_naivegfs.Fat32.Mount.Sample.{card, card-IsCard, warm_fs, warm_fs-IsOnCard}
use rpi0_naivegfs.Fat32.Directory.Sample.{
  warm_fs-AllSectors, free_clusters-warm_fs, warm_root-AllUsed, warm_root-has_terminal,
  warm_root-unlisted,
}
use rpi0_naivegfs.Dfs.Restart.{id_for_dfs-restart}
use rpi0_naivegfs.Dfs.Scans.{HasFree, AllOther}
use rpi0_naivegfs.Dfs.Ids.{id_for_dfs-again, id_for_dfs-full}

-- The name "fs".
abbrev own_name : List ℕ
own_name = b'f' ∷ b's' ∷ 0 ∷ []

abbrev other_entry : Entry
other_entry = record { dfs_id = b'x' ∷ replicate 29 0; id = 4 }

small_entries-AllEntries : AllEntries (config_entries memory_device 3 small_fs)
unfolding config_entries decode_entries cluster_no_to_lba
small_entries-AllEntries = ground arith

small_entries-HasFree : HasFree (config_entries memory_device 3 small_fs)
unfolding config_entries decode_entries cluster_no_to_lba
small_entries-HasFree = inl refl

abbrev state_of : Outcome (Fs Disk) ℕ → Fs Disk
state_of (done a s) = s
state_of (halted s) = s
state_of (running s) = s

abbrev named_fs : Fs Disk
named_fs = state_of (id_for_dfs memory_device 3 own_name 9 small_fs)

named_fs_lem : id_for_dfs memory_device 3 own_name 9 small_fs ≡ done minus_one named_fs
unfolding id_for_dfs scan_entries config_entries decode_entries cluster_no_to_lba
named_fs_lem = refl

id_for_dfs-again_example : id_for_dfs memory_device 3 own_name 1 named_fs ≡ done (u16 9) named_fs
id_for_dfs-again_example =
    id_for_dfs-again memory_device 3 b'f' (b's' ∷ 0 ∷ []) 9 1 small_fs named_fs refl
      (λ e. omega (arith, e)) small_entries-AllEntries small_entries-HasFree named_fs_lem

-- Sixteen entries of other names.
abbrev full_fs : Fs Disk
full_fs = record small_fs {
  disk = update small_disk 34 (encode_entries (replicate 16 other_entry));
}

config_entries-full_fs : config_entries memory_device 3 full_fs ≡ replicate 16 other_entry
unfolding config_entries decode_entries encode_entries cluster_no_to_lba
config_entries-full_fs = refl

replicate-AllEntries : (n : ℕ) → AllEntries (replicate n other_entry)
replicate-AllEntries zero = tt
replicate-AllEntries (suc n) = (refl, omega arith, replicate-AllEntries n)

other-ne : strncmp other_entry.dfs_id own_name 30 ≢ 0
unfolding strncmp
other-ne e = omega (arith, e)

replicate-AllOther : (n : ℕ) → AllOther own_name (replicate n other_entry)
replicate-AllOther zero = tt
replicate-AllOther (suc n) = ((λ e. omega (arith, e)), other-ne, replicate-AllOther n)

id_for_dfs-full_example :
    (t : Fs Disk) × (id_for_dfs memory_device 3 own_name 9 full_fs ≡ done minus_one t)
    × (config_entries memory_device 3 t ≡ config_entries memory_device 3 full_fs)
id_for_dfs-full_example =
    id_for_dfs-full memory_device 3 9 own_name full_fs
      (rw config_entries-full_fs (replicate-AllEntries 16))
      (rw config_entries-full_fs (replicate-AllOther 16))

id_for_dfs-restart_example :
    (t u w : Fs Disk) × (dfs_init_config memory_device 1 warm_fs ≡ done 3 t)
    × (id_for_dfs memory_device 3 own_name 9 t ≡ done minus_one u)
    × (fat32_init memory_device (record small_fs { disk = u.disk }) ≡ done 0 w)
    × (dfs_init_config memory_device 1 w ≡ done 3 w)
    × (id_for_dfs memory_device 3 own_name 1 w ≡ done (u16 9) w)
id_for_dfs-restart_example =
    id_for_dfs-restart memory_device card 0 1 3 4 b'f' [] (5 ∷ []) (b's' ∷ 0 ∷ []) own_name 9 1
      warm_fs small_fs card-IsCard warm_fs-IsOnCard warm_fs-AllSectors tt warm_root-AllUsed
      (omega arith) warm_root-has_terminal (warm_root-unlisted fat32_dfs_cfg_filename)
      free_clusters-warm_fs refl (λ e. omega (arith, e)) refl
