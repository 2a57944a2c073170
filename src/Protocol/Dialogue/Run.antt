-- ===== src/Protocol/Dialogue/Run.antt =====
-- The dialogue as a whole.
use rpi0_naivegfs.Base.{
  ℕ, ◌+◌, ◌*◌, ◌%◌, ◌≤◌, ◌<◌, ◌≡◌, true, Bool, if◌then◌else◌, ◌==◌, List, [], done, length,
  minus_one, u32, arith,
}
use rpi0_naivegfs.Output.{exit_text}
use rpi0_naivegfs.Fat32.State.{SectorDevice, Fs}
use rpi0_naivegfs.Fat32.Mount.{fat32_init}
use rpi0_naivegfs.Dfs.{dfs_init_config, id_for_dfs}
use rpi0_naivegfs.Protocol.Line.{Line}
use rpi0_naivegfs.Protocol.Pi.{entry}
use rpi0_naivegfs.Protocol.Mac.{words_of, words_in_name, name_to_send, dfs_boot}
use rpi0_naivegfs.Protocol.Names.{AllChars}
use rpi0_naivegfs.Protocol.Dialogue.Mac.{dfs_boot_lem}
use rpi0_naivegfs.Protocol.Dialogue.Pi.{dfs_name_of, entry_lem}
use rpi0_naivegfs.Protocol.Dialogue.{mac_text, pi_text}

module _ {Store : Type 0} (dev : SectorDevice Store) where
  -- For a name of 4 * k characters below 0xff, k ≤ 6, and an id below 256, let the file system of the
  -- pi mount, find or make its configuration file, and answer `id_for_dfs` for the name with four
  -- bytes 0xff behind it, and let data come in time at the mac. Then each side comes to its end on what
  -- the other side sends: there are bytes a and b such that `entry`, given a, ends and has sent b, and
  -- `dfs_boot`, given b, returns 0 and has sent a. `entry` has taken every byte of a, and what
  -- `dfs_boot` leaves of b is the text "DONE!!!". The mac has given the id away, and goes on with the
  -- next one, exactly if `id_for_dfs` returned -1.
  pub entry-dfs_boot :
      (select : Line → Bool) (rounds k count cfg result id : ℕ) (name buf : List ℕ)
      (f0 f1 f2 f3 : Fs Store)
      → ((l : Line) → select l ≡ true)
      → k ≤ 6
      → length name ≡ 4 * k
      → AllChars name
      → id < 256
      → fat32_init dev f0 ≡ done count f1
      → dfs_init_config dev rounds f1 ≡ done cfg f2
      → id_for_dfs dev cfg (dfs_name_of name buf) id f2 ≡ done result f3
      → (a b : List ℕ) × (entry dev rounds buf
            (record { fs = f0; line = record { rx = a; tx = [] } })
          ≡ done tt (record { fs = f3; line = record { rx = []; tx = b } }))
        × (dfs_boot select
              (words_of (words_in_name name) (name_to_send name))
              id
              (record { rx = b; tx = [] })
            ≡ done
                (0, (if result == minus_one then id + 1 else id))
                (record { rx = exit_text; tx = a }))
  entry-dfs_boot select rounds k count cfg result id name buf f0 f1 f2 f3 ready short len all low
        init config ask =
      let same : id % 256 ≡ id = omega arith in
      let next : u32 (id + 1) ≡ id + 1 = omega arith in
      (
        mac_text name id,
        pi_text k result id,
        entry_lem dev rounds k count cfg result id name buf f0 f1 f2 f3 short len all low init
            config ask,
        rw (same, next) at (dfs_boot_lem select k result id name ready len all),
      )
