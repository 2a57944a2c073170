-- ===== src/Protocol/Ids.antt =====
-- The ids that `boot_connected_pies` gives away, and the flag that they changed.
use Prim.Native.Nat.{bit_or}
use rpi0_naivegfs.Base.{
  ℕ, ◌≡◌, refl, sym, ◌∙◌, ◌||◌, Bool, true, false, not, ◌==◌, Bool-cases, Option-cases, Prog,
  and_then, ==→eq, inl, inr, List, [], ◌∷◌, Outcome, done, halted, running,
}
use rpi0_naivegfs.Output.{Pi}
use rpi0_naivegfs.Protocol.Line.{Line, fs_id_start, config_init, request_id, dummy, dummy2}
use rpi0_naivegfs.Protocol.Mac.{
  boot, dfs_boot, await_dummy, put32, send_string, get32, read_until, words_of, words_in_name,
  name_to_send,
}
use rpi0_naivegfs.Protocol.Install.{
  Device, Installed, installed, panicked, waiting, booted_before, after_dfs_boot, install,
  boot_connected_pies,
}

-- Where the flag is down at the end, it was down before and the id is the one before.
abbrev pub IsKept : ℕ → Bool → Installed → Type 0
IsKept id dirty (installed ok id' true pies) = Unit
IsKept id dirty (installed ok id' false pies) = (dirty ≡ false) × Path ℕ id' id
IsKept id dirty panicked = Unit
IsKept id dirty waiting = Unit

booted_before-IsKept :
    (p : Pi) (id : ℕ) (dirty : Bool) (r : Installed)
    → IsKept id dirty r
    → IsKept id dirty (booted_before p r)
booted_before-IsKept p id dirty (installed ok id' true pies) k = tt
booted_before-IsKept p id dirty (installed ok id' false pies) k = k
booted_before-IsKept p id dirty panicked k = tt
booted_before-IsKept p id dirty waiting k = tt

-- A flag that is raised when the id changes is down only if the id did not change.
raised-IsKept :
    (id id' : ℕ) (dirty : Bool) (r : Installed)
    → IsKept id' (dirty || not (id == id')) r
    → IsKept id dirty r
raised-IsKept id id' dirty (installed ok id2 true pies) k = tt
raised-IsKept id id' true (installed ok id2 false pies) k = absurd (cc (k.0))
raised-IsKept id id' false (installed ok id2 false pies) k = elim (Bool-cases (id == id')) [
  | inl same ↦ (refl, k.1 ∙ sym (==→eq id id' same))
  | inr other ↦ absurd (cc ((rw other at k.0)))
]
raised-IsKept id id' dirty panicked k = tt
raised-IsKept id id' dirty waiting k = tt

installed-IsKept :
    (id id' : ℕ) (dirty : Bool) → id' ≡ id → IsKept id dirty (installed false id' dirty [])
installed-IsKept id id' true e = tt
installed-IsKept id id' false e = (refl, e)

-- A result of `dfs_boot` that is not 0 comes with the id that was given.
abbrev pub KeepsId : ℕ → Outcome Line (ℕ × ℕ) → Type 0
KeepsId id (done (result, id') l) = (result == 0) ≡ false → Path ℕ id' id
KeepsId id (halted l) = Unit
KeepsId id (running l) = Unit

KeepsId-and_then :
    {A : Type 0} (id : ℕ) (o : Outcome Line A) (k : A → Prog Line (ℕ × ℕ))
    → ((a : A) (l : Line) → KeepsId id (k a l))
    → KeepsId id (and_then o k)
KeepsId-and_then id (done a l) k h = h a l
KeepsId-and_then id (halted l) k h = tt
KeepsId-and_then id (running l) k h = tt

dfs_boot-KeepsId :
    (select : Line → Bool) (ws : List ℕ) (id : ℕ) (l : Line) → KeepsId id (dfs_boot select ws id l)
unfolding dfs_boot
dfs_boot-KeepsId select ws id l =
    KeepsId-and_then id (await_dummy (put32 fs_id_start l)) _ (λ op l1.
      KeepsId-and_then id (send_string ws l1) _ (λ sent l2.
        elim (Bool-cases (not (select (put32 config_init l2)))) [
          | inl late ↦ rw late (λ h. refl)
          | inr ready ↦ rw ready (
              KeepsId-and_then id (await_dummy (put32 config_init l2)) _ (λ op2 l3.
                KeepsId-and_then id (await_dummy (put32 request_id l3)) _ (λ op3 l4.
                  KeepsId-and_then id
                    (read_until (λ op. op == dummy || op == dummy2)
                      (put32 (bit_or 0xffff_ff00 id) l4))
                    _
                    (λ answer l5.
                      KeepsId-and_then id (get32 l5) _ (λ claimed l6 h. absurd (cc h))))))
        ]))

after_dfs_boot-IsKept :
    (more : ℕ → Bool → Installed)
    → ((i : ℕ) (d : Bool) → IsKept i d (more i d))
    → (p : Pi) (id : ℕ) (dirty : Bool) (o : Outcome Line (ℕ × ℕ)) → KeepsId id o
    → IsKept id dirty (after_dfs_boot more p id dirty o)
unfolding after_dfs_boot
after_dfs_boot-IsKept more keep p id dirty (done (result, id') l) h =
    elim (Bool-cases (result == 0)) [
      | inl ok ↦ rw ok (
          raised-IsKept id id' dirty (booted_before p (more id' (dirty || not (id == id')))) (
            booted_before-IsKept p id' (dirty || not (id == id'))
              (more id' (dirty || not (id == id'))) (keep id' (dirty || not (id == id')))))
      | inr failed ↦ rw failed (installed-IsKept id id' dirty (h failed))
    ]
after_dfs_boot-IsKept more keep p id dirty (halted l) h = tt
after_dfs_boot-IsKept more keep p id dirty (running l) h = tt

module _ (crc32 : List ℕ → ℕ) (select : Line → Bool) (program dfs_name : List ℕ) where
  install-IsKept :
      (more : ℕ → Bool → Installed)
      → ((i : ℕ) (d : Bool) → IsKept i d (more i d))
      → (id : ℕ) (dirty : Bool) (o : Outcome Line (ℕ × Pi))
      → IsKept id dirty (install crc32 select program dfs_name more id dirty o)
  unfolding install
  install-IsKept more keep id dirty (done (result, p) l) = elim (Bool-cases (result == 0)) [
    | inl ok ↦ rw ok (
        after_dfs_boot-IsKept more keep p id dirty
          (dfs_boot select (words_of (words_in_name dfs_name) (name_to_send dfs_name)) id l)
          (dfs_boot-KeepsId select (words_of (words_in_name dfs_name) (name_to_send dfs_name)) id
            l))
    | inr failed ↦ rw failed (installed-IsKept id id dirty refl)
  ]
  install-IsKept more keep id dirty (halted l) = tt
  install-IsKept more keep id dirty (running l) = tt

  -- Where `boot_connected_pies` returns with `*dirty_dfs` 0, however it ends and whatever the pies
  -- send, the flag was 0 before and `*first_free_id` is as it was: no id was given away unnoticed.
  pub boot_connected_pies-IsKept :
      (ds : List Device) (id : ℕ) (dirty : Bool)
      → IsKept id dirty (boot_connected_pies crc32 select program dfs_name ds id dirty)
  unfolding boot_connected_pies
  boot_connected_pies-IsKept [] id true = tt
  boot_connected_pies-IsKept [] id false = (refl, refl)
  boot_connected_pies-IsKept (d ∷ ds) id dirty = elim (Option-cases d.opened) [
    | inl closed ↦ rw closed (installed-IsKept id id dirty refl)
    | inr (fd, opened) ↦ rw opened (
        install-IsKept (boot_connected_pies crc32 select program dfs_name ds)
          (boot_connected_pies-IsKept ds) id dirty
          (boot crc32 (record { is_open = false; fd = fd }) program d.line))
  ]
