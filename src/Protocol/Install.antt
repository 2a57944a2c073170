-- ===== src/Protocol/Install.antt =====
-- `boot_connected_pies` of mac-src/pi-install.c: each device is opened, booted, and given the name of
-- the file system. The list of devices, what `open` and `set_tty_to_8n1` give for each, and the lines
-- are given; the messages are left out.
use rpi0_naivegfs.Base.{
  ℕ, ◌||◌, Bool, true, false, not, if◌then◌else◌, ◌==◌, Option, none, some, List, [], ◌∷◌, Outcome,
  done, halted, running,
}
use rpi0_naivegfs.Output.{Pi}
use rpi0_naivegfs.Protocol.Line.{Line}
use rpi0_naivegfs.Protocol.Mac.{boot, dfs_boot, words_of, words_in_name, name_to_send}

-- A device: the descriptor if it could be opened, and its line.
pub record Device : Type 0 where
  pub opened : Option ℕ
  pub line : Line

-- What is left of `boot_connected_pies`: the result, `*first_free_id`, `*dirty_dfs`, and the pies that
-- were booted. The program may also have ended in a `panic`.
pub data Installed : Type 0 where
  installed : Bool → ℕ → Bool → List Pi → Installed
  panicked : Installed
  waiting : Installed

abbrev pub booted_before : Pi → Installed → Installed
booted_before p (installed ok id dirty pies) = installed ok id dirty (p ∷ pies)
booted_before p panicked = panicked
booted_before p waiting = waiting

-- The end of a round, from the outcome of `dfs_boot`; `more` is the loop over the devices left.
unfoldable pub after_dfs_boot :
    (ℕ → Bool → Installed) → Pi → ℕ → Bool → Outcome Line (ℕ × ℕ) → Installed
after_dfs_boot more p id dirty (done (result, id') l) =
    if result == 0
    then booted_before p (more id' (dirty || not (id == id')))
    else installed false id' dirty []
after_dfs_boot more p id dirty (halted l) = panicked
after_dfs_boot more p id dirty (running l) = waiting

module _ (crc32 : List ℕ → ℕ) (select : Line → Bool) (program dfs_name : List ℕ) where
  -- A round for an opened device.
  unfoldable pub install : (ℕ → Bool → Installed) → ℕ → Bool → Outcome Line (ℕ × Pi) → Installed
  install more id dirty (done (result, p) l) =
      if result == 0
      then after_dfs_boot more p id dirty
          (dfs_boot select (words_of (words_in_name dfs_name) (name_to_send dfs_name)) id l)
      else installed false id dirty []
  install more id dirty (halted l) = panicked
  install more id dirty (running l) = waiting

  unfoldable pub boot_connected_pies : List Device → ℕ → Bool → Installed
  boot_connected_pies [] id dirty = installed true id dirty []
  boot_connected_pies (d ∷ ds) id dirty = elim d.opened [
    | none ↦ installed false id dirty []
    | some fd ↦
        install (boot_connected_pies ds) id dirty
          (boot crc32 (record { is_open = false; fd = fd }) program d.line)
  ]
