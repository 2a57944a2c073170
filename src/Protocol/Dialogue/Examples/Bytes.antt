-- ===== src/Protocol/Dialogue/Examples/Bytes.antt =====
-- The dialogue of the parent at a moment: FS_ID_START has arrived at the pi, and the first byte of its
-- answer at the mac.
use rpi0_naivegfs.Base.{
  ℕ, ◌≡◌, ◌⊎◌, refl, true, List, [], ◌∷◌, done, replicate, minus_one, bytes32, arith,
}
use rpi0_naivegfs.Output.{exit_text}
use rpi0_naivegfs.Fat32.Sample.{memory_device}
use rpi0_naivegfs.Protocol.Pi.{
  uart_get8, uart_put_dummy, get_word, get_string, wait_rounds, wait_for, on_line, entry,
}
use rpi0_naivegfs.Protocol.Mac.{
  get8, get32, put32, read_rounds, read_until, words_of, words_in_name, name_to_send, dfs_boot,
}
use rpi0_naivegfs.Protocol.Line.{fs_id_start}
use rpi0_naivegfs.Protocol.Dialogue.{mac_text, pi_text}
use rpi0_naivegfs.Protocol.Script.{Prefix, Short}
use rpi0_naivegfs.Protocol.Script.Runs.{Steps, Reach, start, to_pi, to_mac}
use rpi0_naivegfs.Protocol.Script.Progress.{pi_sent, mac_sent, entry-dfs_boot-progress}
use rpi0_naivegfs.Protocol.Dialogue.Examples.{
  stored_fs, present_fs, present_fs_lem, config_lem, root_name, root_name-AllChars, named_fs,
  named_fs_lem,
}

abbrev Arrived : List ℕ → List ℕ → Type 0
Arrived a b =
    Reach (pi_sent memory_device 1 (replicate 30 0) stored_fs) (mac_sent (λ l. true) root_name 7) a
      b

first_bytes : Arrived (bytes32 fs_id_start) (0x78 ∷ [])
unfolding dfs_boot entry wait_for wait_rounds uart_get8 on_line put32 read_until read_rounds get32
    get8 uart_put_dummy get_string get_word
first_bytes =
    let a1 : Arrived (0xff ∷ []) [] = to_pi start 0xff (0xff ∷ 0 ∷ 0 ∷ []) refl in
    let a2 : Arrived (0xff ∷ 0xff ∷ []) [] = to_pi a1 0xff (0 ∷ 0 ∷ []) refl in
    let a3 : Arrived (0xff ∷ 0xff ∷ 0 ∷ []) [] = to_pi a2 0 (0 ∷ []) refl in
    let a4 : Arrived (bytes32 fs_id_start) [] = to_pi a3 0 [] refl in
    to_mac a4 0x78 (0x56 ∷ 0x34 ∷ 0x12 ∷ []) refl

entry-dfs_boot-progress_example :
    let a = bytes32 fs_id_start in
    let b : List ℕ = 0x78 ∷ [] in
    let pi = pi_sent memory_device 1 (replicate 30 0) stored_fs in
    let mac = mac_sent (λ l. true) root_name 7 in
    (Prefix a (mac_text root_name 7) × Prefix b (pi_text 2 minus_one 7))
    × (((entry memory_device 1
              (replicate 30 0)
              (record { fs = stored_fs; line = record { rx = a; tx = [] } })
            ≡ done tt
                (record { fs = named_fs; line = record { rx = []; tx = pi_text 2 minus_one 7 } }))
          × (dfs_boot
                (λ l. true)
                (words_of (words_in_name root_name) (name_to_send root_name))
                7
                (record { rx = b; tx = [] })
              ≡ done (0, 8) (record { rx = exit_text; tx = mac_text root_name 7 })))
        ⊎ (Short a (mac b) ⊎ Short b (pi a)))
    × Steps pi mac a b (mac_text root_name 7) (pi_text 2 minus_one 7)
entry-dfs_boot-progress_example =
    entry-dfs_boot-progress memory_device (λ l. true) 1 2 0 5 minus_one 7 root_name (replicate 30 0)
      stored_fs present_fs present_fs named_fs (λ l. refl) (omega arith) refl root_name-AllChars
      (omega arith) present_fs_lem config_lem named_fs_lem (bytes32 fs_id_start) (0x78 ∷ [])
      first_bytes
