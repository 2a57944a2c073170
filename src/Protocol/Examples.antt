-- ===== src/Protocol/Examples.antt =====
-- The theorem on the names at a name of five characters, and on the ids at one
-- device.
use rpi0_naivegfs.Base.{
  length, take, drop, replicate, true, false, some, bytes32, ℕ, ◌≡◌, ◌++◌, refl, List, [], ◌∷◌,
  done, running, arith,
}
use rpi0_naivegfs.Protocol.Pi.{get_string}
use rpi0_naivegfs.Protocol.Mac.{
  words_in_name, frame, boot, dfs_boot, words_of, send_string, put32, get8, get32, read_rounds,
  read_until, skip_bytes, drain_rounds, success_rounds, name_to_send,
}
use rpi0_naivegfs.Protocol.Line.{get_prog_info, get_code, boot_success, dummy, dummy2}
use rpi0_naivegfs.Protocol.Install.{
  Device, Installed, installed, install, after_dfs_boot, boot_connected_pies,
}
use rpi0_naivegfs.Protocol.Ids.{IsKept, boot_connected_pies-IsKept}
use rpi0_naivegfs.Protocol.Root.{Shown, shown_entries, decode_dfs_file, deploy}
use rpi0_naivegfs.Protocol.Root.Written.{Lists, Holds, deploy-Holds}
use rpi0_naivegfs.Protocol.Names.{AllChars, answers, get_string-frame_unaligned}

abbrev unaligned_name : List ℕ
unaligned_name = b'd' ∷ b'f' ∷ b's' ∷ b'-' ∷ b'r' ∷ []

unaligned_name-AllChars : AllChars unaligned_name
unfolding AllChars
unaligned_name-AllChars = ground arith

get_string-frame_unaligned_example :
    get_string 7 0 (record { rx = frame unaligned_name; tx = [] })
    ≡ running (record { rx = []; tx = answers (words_in_name unaligned_name) [] })
get_string-frame_unaligned_example =
    get_string-frame_unaligned unaligned_name [] (omega arith) (λ e. omega (arith, e))
      unaligned_name-AllChars

-- A device whose pi takes the offered id.
abbrev a_device : Device
a_device = record {
  opened = some 3;
  line = record {
    rx =
        bytes32 get_prog_info
        ++ (bytes32 get_code
            ++ (bytes32 boot_success
                ++ (bytes32 dummy
                    ++ (bytes32 dummy
                        ++ (bytes32 dummy
                            ++ (bytes32 dummy
                                ++ (bytes32 dummy
                                    ++ (bytes32 dummy2 ++ (7 ∷ 7 ∷ 7 ∷ 7 ∷ [])))))))));
    tx = [];
  };
}

abbrev an_install : Installed
an_install =
    boot_connected_pies (λ program. 0x1234) (λ l. true) (1 ∷ 2 ∷ 3 ∷ []) unaligned_name
      (a_device ∷ []) 7 false

boot_connected_pies-IsKept_example : IsKept 7 false an_install
boot_connected_pies-IsKept_example =
    boot_connected_pies-IsKept (λ program. 0x1234) (λ l. true) (1 ∷ 2 ∷ 3 ∷ []) unaligned_name
      (a_device ∷ []) 7 false

-- The id is given away, and the flag raised.
an_install_lem : an_install ≡ installed true 8 true (record { is_open = true; fd = 3 } ∷ [])
unfolding boot_connected_pies install after_dfs_boot boot dfs_boot words_of name_to_send send_string
    put32 get8 get32 read_rounds read_until skip_bytes drain_rounds success_rounds
an_install_lem = refl

-- The entry of a file "a.txt" that starts at the cluster 5 of the device 1.
abbrev an_entry : List ℕ
an_entry =
    5 ∷ 0 ∷ 0 ∷ 16 ∷ b'a' ∷ b'.' ∷ b't' ∷ b'x' ∷ b't' ∷ b' ' ∷ b' ' ∷ b' ' ∷ b' ' ∷ b' ' ∷ b' ' ∷ 0
    ∷ []

-- A file with the next id 7 and that entry.
abbrev root_file : List ℕ
root_file = 7 ∷ (replicate 15 0 ++ (an_entry ++ replicate 480 0))

root_listing :
    shown_entries 13 (drop 16 root_file)
    ≡ record { name = take 11 (drop 4 an_entry); device_no = 1; cluster_no = 5 } ∷ []
unfolding shown_entries
root_listing = refl

root_file_len : length root_file ≡ 512
root_file_len = refl

root_run_lem :
    boot_connected_pies
      (λ program. 0x1234)
      (λ l. true)
      (1 ∷ 2 ∷ 3 ∷ [])
      unaligned_name
      (a_device ∷ [])
      (decode_dfs_file root_file).first_free_id
      false
    ≡ installed true 8 true (record { is_open = true; fd = 3 } ∷ [])
unfolding decode_dfs_file
root_run_lem = an_install_lem

deploy-Holds_example :
    (listing : List Shown) × (after : List ℕ) × (deploy
        (λ program. 0x1234)
        (λ l. true)
        (λ path. 1 ∷ 2 ∷ 3 ∷ [])
        (replicate 512 0xee)
        (a_device ∷ [])
        ((b'p' ∷ []) ∷ unaligned_name ∷ [])
        (some root_file)
      ≡ done
          (record { listing = listing; booted = some (record { is_open = true; fd = 3 } ∷ []) })
          (some after))
    × Lists 13 (drop 16 (take 512 root_file)) listing
    × Holds 8 root_file after
deploy-Holds_example =
    deploy-Holds (λ program. 0x1234) (λ l. true) (λ path. 1 ∷ 2 ∷ 3 ∷ []) (replicate 512 0xee)
      (a_device ∷ []) (b'p' ∷ []) unaligned_name root_file [] true true 8
      (record { is_open = true; fd = 3 } ∷ []) refl (omega (arith, root_file_len)) root_run_lem
      (omega arith)
