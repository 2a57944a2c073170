-- ===== src/Protocol/Dialogue/Examples.antt =====
-- The dialogue at a disk of one partition whose root directory holds the configuration file, at
-- cluster 5, and at the name "dfs-root".
mod Bytes
use rpi0_naivegfs.Base.{
  some, length, bytes32, ◌++◌, ℕ, ◌≡◌, refl, true, false, List, [], ◌∷◌, ◌++◌, Outcome, done,
  halted, running, replicate, minus_one, arith,
}
use rpi0_naivegfs.Output.{exit_text}
use rpi0_naivegfs.Strings.{strncmp}
use rpi0_naivegfs.Fat32.Layout.{
  partition_of, decode_partition, decode_volume_id, encode_record, decode_record, decode_records,
}
use rpi0_naivegfs.Fat32.State.{Fs, update, blank_sector, cluster_no_to_lba}
use rpi0_naivegfs.Fat32.Files.{fill_record}
use rpi0_naivegfs.Fat32.Directory.{
  read_records, walk_sectors, walk_directory, after_sectors, search_records, fat32_get_cluster_no,
}
use rpi0_naivegfs.Fat32.Mount.{
  volume_data, take_partition, probe_partitions, load_volume, fat32_init,
}
use rpi0_naivegfs.Fat32.Mount.Sample.{
  boot_record, volume_sector, cold_fs, card-IsCard, warm_fs, warm_fs_lem,
}
use rpi0_naivegfs.Fat32.Directory.Sample.{
  warm_fs-AllSectors, free_clusters-warm_fs, warm_root-AllUsed, warm_root-has_terminal,
  warm_root-unlisted,
}
use rpi0_naivegfs.Fat32.Sample.{Disk, memory_device, small_fs, a_record}
use rpi0_naivegfs.Dfs.{
  fat32_dfs_cfg_filename, dfs_init_config, decode_entries, scan_entries, config_entries, id_for_dfs,
}
use rpi0_naivegfs.Protocol.Pi.{entry}
use rpi0_naivegfs.Protocol.Mac.{
  boot, get8, get32, put32, read_rounds, read_until, drain_rounds, success_rounds, words_of,
  words_in_name, name_to_send, dfs_boot,
}
use rpi0_naivegfs.Protocol.Names.{AllChars}
use rpi0_naivegfs.Protocol.Dialogue.Pi.{dfs_name_of}
use rpi0_naivegfs.Protocol.Dialogue.Restart.{entry-dfs_boot-restart}
use rpi0_naivegfs.Output.{Pi}
use rpi0_naivegfs.Protocol.Line.{
  armbase, get_prog_info, put_prog_info, get_code, put_code, boot_success,
}
use rpi0_naivegfs.Protocol.Dialogue.{pi_text}
use rpi0_naivegfs.Protocol.Dialogue.Pi.{entry_lem}
use rpi0_naivegfs.Protocol.Install.{Device, installed, boot_connected_pies}
use rpi0_naivegfs.Protocol.Fleet.{
  Fleet, nobody, joined, closed_pi, open_pi, boot_connected_pies-Fleet,
}
use rpi0_naivegfs.Protocol.Dialogue.Run.{entry-dfs_boot}

-- The root directory stands in sector 97.
abbrev stored : Disk
stored =
    update (update (update (λ lba. blank_sector) 0 boot_record) 64 volume_sector) 97
      (encode_record a_record ++ replicate 480 0)

abbrev stored_fs : Fs Disk
stored_fs = record small_fs { did_init = false; disk = stored }

abbrev state_of : Outcome (Fs Disk) ℕ → Fs Disk
state_of (done a s) = s
state_of (halted s) = s
state_of (running s) = s

abbrev present_fs : Fs Disk
present_fs = state_of (fat32_init memory_device stored_fs)

present_fs_lem : fat32_init memory_device stored_fs ≡ done 0 present_fs
unfolding fat32_init probe_partitions take_partition partition_of decode_partition decode_volume_id
present_fs_lem = refl

config_lem : dfs_init_config memory_device 1 present_fs ≡ done 5 present_fs
unfolding dfs_init_config fat32_get_cluster_no walk_directory walk_sectors after_sectors
    search_records read_records decode_records decode_record encode_record fill_record
    cluster_no_to_lba strncmp fat32_init probe_partitions take_partition load_volume volume_data
    partition_of decode_partition decode_volume_id
config_lem = refl

abbrev root_name : List ℕ
root_name = b'd' ∷ b'f' ∷ b's' ∷ b'-' ∷ b'r' ∷ b'o' ∷ b'o' ∷ b't' ∷ []

root_name-AllChars : AllChars root_name
unfolding AllChars
root_name-AllChars = ground arith

abbrev named_fs : Fs Disk
named_fs =
    state_of (id_for_dfs memory_device 5 (dfs_name_of root_name (replicate 30 0)) 7 present_fs)

named_fs_lem :
    id_for_dfs memory_device 5 (dfs_name_of root_name (replicate 30 0)) 7 present_fs
    ≡ done minus_one named_fs
unfolding id_for_dfs scan_entries config_entries decode_entries cluster_no_to_lba fat32_init
    probe_partitions take_partition load_volume volume_data partition_of decode_partition
    decode_volume_id
named_fs_lem = refl

entry-dfs_boot-restart_example :
    let words = words_of (words_in_name root_name) (name_to_send root_name) in
    (f3 f5 : Fs Disk) × (a1 b1 a2 b2 before : List ℕ) × (entry memory_device 1
        (replicate 30 0)
        (record { fs = cold_fs; line = record { rx = a1; tx = [] } })
      ≡ done tt (record { fs = f3; line = record { rx = []; tx = b1 } }))
    × (dfs_boot (λ l. true) words 7 (record { rx = b1; tx = [] })
        ≡ done (0, 8) (record { rx = exit_text; tx = a1 }))
    × (entry memory_device 1
          (replicate 30 1)
          (record { fs = record small_fs { disk = f3.disk }; line = record { rx = a2; tx = [] } })
        ≡ done tt (record { fs = f5; line = record { rx = []; tx = b2 } }))
    × (dfs_boot (λ l. true) words 8 (record { rx = b2; tx = [] })
        ≡ done (0, 8) (record { rx = exit_text; tx = a2 }))
    × (b2 ≡ before ++ (7 ∷ 7 ∷ 7 ∷ 7 ∷ exit_text))
entry-dfs_boot-restart_example =
    entry-dfs_boot-restart memory_device (λ l. true) 0 1 2 3 4 b'd' 7 8 [] (5 ∷ [])
      (b'f' ∷ b's' ∷ b'-' ∷ b'r' ∷ b'o' ∷ b'o' ∷ b't' ∷ []) (replicate 30 0) (replicate 30 1)
      cold_fs warm_fs small_fs (λ l. refl) (omega arith) refl root_name-AllChars
      (λ e. omega (arith, e)) (omega arith) (omega arith) card-IsCard warm_fs_lem warm_fs-AllSectors
      tt warm_root-AllUsed (omega arith) warm_root-has_terminal
      (warm_root-unlisted fat32_dfs_cfg_filename) free_clusters-warm_fs

-- A second card, as the first one is, at the next id.
abbrev second_fs : Fs Disk
second_fs =
    state_of (id_for_dfs memory_device 5 (dfs_name_of root_name (replicate 30 0)) 8 present_fs)

second_fs_lem :
    id_for_dfs memory_device 5 (dfs_name_of root_name (replicate 30 0)) 8 present_fs
    ≡ done minus_one second_fs
unfolding id_for_dfs scan_entries config_entries decode_entries cluster_no_to_lba fat32_init
    probe_partitions take_partition load_volume volume_data partition_of decode_partition
    decode_volume_id
second_fs_lem = refl

-- A loader that takes a program at once.
abbrev a_loader : List ℕ
a_loader = bytes32 get_prog_info ++ (bytes32 get_code ++ bytes32 boot_success)

-- What `boot` sends.
abbrev a_program : List ℕ
a_program = 1 ∷ 2 ∷ []

abbrev boot_text : List ℕ
boot_text =
    ((((bytes32 put_prog_info ++ bytes32 armbase) ++ bytes32 (length a_program))
        ++ bytes32 (0x1234))
      ++ bytes32 put_code)
    ++ a_program

a_loader_lem :
    (fd : ℕ) (more : List ℕ)
    → boot (λ program. 0x1234) (closed_pi fd) a_program (record { rx = a_loader ++ more; tx = [] })
      ≡ done (0, open_pi fd) (record { rx = more; tx = boot_text })
unfolding boot get8 get32 put32 read_rounds read_until drain_rounds success_rounds
a_loader_lem fd more = refl

abbrev device : ℕ → ℕ → Device
device fd id = record {
  opened = some fd;
  line = record { rx = a_loader ++ pi_text 2 minus_one id; tx = [] };
}

two_pies :
    Fleet memory_device 1 a_loader root_name 7
      (device 3 7 ∷ device 4 8 ∷ [])
      (minus_one ∷ minus_one ∷ [])
two_pies =
    joined 7 0 5 minus_one 3 (replicate 30 0) (pi_text 2 minus_one 7) stored_fs present_fs
      present_fs named_fs (device 4 8 ∷ []) (minus_one ∷ []) present_fs_lem config_lem named_fs_lem
      (entry_lem memory_device 1 2 0 5 minus_one 7 root_name (replicate 30 0) stored_fs present_fs
        present_fs named_fs (omega arith) refl root_name-AllChars (omega arith) present_fs_lem
        config_lem named_fs_lem)
      (joined 8 0 5 minus_one 4 (replicate 30 0) (pi_text 2 minus_one 8) stored_fs present_fs
        present_fs second_fs [] [] present_fs_lem config_lem second_fs_lem
        (entry_lem memory_device 1 2 0 5 minus_one 8 root_name (replicate 30 0) stored_fs present_fs
          present_fs second_fs (omega arith) refl root_name-AllChars (omega arith) present_fs_lem
          config_lem second_fs_lem)
        (nobody 9))

boot_connected_pies-Fleet_example :
    (pies : List Pi) × (boot_connected_pies
        (λ program. 0x1234)
        (λ l. true)
        a_program
        root_name
        (device 3 7 ∷ device 4 8 ∷ [])
        7
        false
      ≡ installed true 9 true pies)
    × (length pies ≡ 2)
boot_connected_pies-Fleet_example =
    boot_connected_pies-Fleet (λ program. 0x1234) (λ l. true) a_program root_name a_loader boot_text
      a_loader_lem (λ l. refl) 2 refl root_name-AllChars memory_device 1 (omega arith) 7
      (device 3 7 ∷ device 4 8 ∷ []) (minus_one ∷ minus_one ∷ []) false two_pies (omega arith)
