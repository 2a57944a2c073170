-- ===== src/Protocol/Root.antt =====
-- `main` of mac-src/pi-install.c, and `init_dfs`: the file of the distributed file
-- system, which holds the next id to give away. The file is the list of its bytes, or none where it
-- cannot be opened; that `open`, `read` and `write` on it succeed otherwise, and that the program file
-- can be read, is taken for granted. The messages are left out, but for the entries that are listed.
pub mod Written
use rpi0_naivegfs.Base.{
  ℕ, zero, suc, ◌/◌, ◌%◌, ◌^◌, Bool, false, if◌then◌else◌, ◌==◌, Option, none, some, List, [], ◌∷◌,
  ◌++◌, Prog, Outcome, and_then, done, halted, running, length, get_or, take, drop, replicate,
  word32, bytes32,
}
use rpi0_naivegfs.Output.{Pi}
use rpi0_naivegfs.Output.Loop.{Os, Console, open_fds, get_pi_output}
use rpi0_naivegfs.Protocol.Line.{Line}
use rpi0_naivegfs.Protocol.Install.{
  Device, Installed, installed, panicked, waiting, boot_connected_pies,
}

-- `struct dfs_file`: the next id, and the bytes behind it.
pub record DfsFile : Type 0 where
  pub first_free_id : ℕ
  pub others : List ℕ

abbrev pub dfs_file_size : ℕ
dfs_file_size = 512

abbrev pub word_of : List ℕ → ℕ
word_of b = word32 (get_or b 0 0) (get_or b 1 0) (get_or b 2 0) (get_or b 3 0)

unfoldable pub decode_dfs_file : List ℕ → DfsFile
decode_dfs_file b = record { first_free_id = word_of b; others = drop 4 b }

unfoldable pub encode_dfs_file : DfsFile → List ℕ
encode_dfs_file f = bytes32 f.first_free_id ++ f.others

-- The data, and the bytes of the file afterwards. `stack` is what the structure holds before `read`.
unfoldable pub init_dfs : List ℕ → Option (List ℕ) → Option (DfsFile × List ℕ)
init_dfs stack none = none
init_dfs stack (some []) =
    some (decode_dfs_file (replicate dfs_file_size 0), replicate dfs_file_size 0)
init_dfs stack (some (b ∷ bs)) =
    let got = take dfs_file_size (b ∷ bs) in
    some (decode_dfs_file (got ++ drop (length got) stack), b ∷ bs)

-- A `struct dfs_entry` as it is listed.
pub record Shown : Type 0 where
  pub name : List ℕ
  pub device_no : ℕ
  pub cluster_no : ℕ

-- The loop that lists the entries: the first whose first byte is 0 ends it.
unfoldable pub shown_entries : ℕ → List ℕ → List Shown
shown_entries zero b = []
shown_entries (suc n) b =
    let rest = shown_entries n (drop 16 b) in
    let shown : Shown = record {
      name = take 11 (drop 4 b);
      device_no = word_of b / 2 ^ 28;
      cluster_no = word_of b % 2 ^ 28;
    } in
    if get_or b 0 0 == 0 then [] else shown ∷ rest

-- The entries stand behind the id and `pad`.
abbrev pub listed_entries : DfsFile → List Shown
listed_entries f = shown_entries 13 (drop 12 f.others)

-- What is left of a run: what it listed, and the pies whose output is read next, if all were booted.
pub record Deployed : Type 0 where
  pub listing : List Shown
  pub booted : Option (List Pi)

-- `write` at the start of the file.
abbrev pub overwrite : List ℕ → List ℕ → List ℕ
overwrite bytes content = bytes ++ drop (length bytes) content

-- Behind `boot_connected_pies`: the data are written back if the id changed.
unfoldable pub after_boot : DfsFile → List ℕ → Installed → Outcome (Option (List ℕ)) Deployed
after_boot df content (installed ok id dirty pies) =
    done (record { listing = listed_entries df; booted = if ok then some pies else none })
      (some (
        if dirty
        then overwrite (encode_dfs_file (record df { first_free_id = id })) content
        else content))
after_boot df content panicked = halted (some content)
after_boot df content waiting = running (some content)

module _ (crc32 : List ℕ → ℕ) (select : Line → Bool) (get_bytes : List ℕ → List ℕ)
    (stack : List ℕ) where
  -- `get_arg` panics where an argument is missing.
  unfoldable pub deploy : List Device → List (List ℕ) → Prog (Option (List ℕ)) Deployed
  deploy devices [] file = halted file
  deploy devices (pi_prog_path ∷ []) file = halted file
  deploy devices (pi_prog_path ∷ dfs_name ∷ more) file = elim (init_dfs stack file) [
    | none ↦ done (record { listing = []; booted = none }) file
    | some (df, content) ↦ after_boot df content (
        boot_connected_pies crc32 select (get_bytes pi_prog_path) dfs_name devices df.first_free_id
          false)
  ]

module _ {World : Type 0} (os : Os World) where
  -- The end of `main`: the output of the booted pies, and the descriptors that are closed after it.
  unfoldable pub finish : ℕ → Deployed → World → Outcome (Console World) (List ℕ)
  finish rounds d w = elim d.booted [
    | none ↦ done [] (record { pies = []; idx = 0; written = []; world = w })
    | some pies ↦
        and_then
          (get_pi_output os rounds (record { pies = pies; idx = 0; written = []; world = w }))
          (λ _ t. done (open_fds t.pies) t)
  ]
