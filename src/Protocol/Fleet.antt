-- ===== src/Protocol/Fleet.antt =====
-- `boot_connected_pies` on pies that all come up: the ids that it gives away.
use rpi0_naivegfs.Base.{
  ℕ, suc, ◌+◌, ◌*◌, ◌%◌, ◌≤◌, ◌<◌, ◌≡◌, refl, sym, ap, ◌∙◌, true, false, Bool, ◌||◌, not, inl, inr,
  Bool-cases, if◌then◌else◌, ◌==◌, some, List, [], ◌∷◌, ◌++◌, done-injective, done, length,
  minus_one, u32, arith, ne→not_==, ==_self,
}
use rpi0_naivegfs.Output.{Pi, exit_text}
use rpi0_naivegfs.Fat32.State.{SectorDevice, Fs}
use rpi0_naivegfs.Fat32.Mount.{fat32_init}
use rpi0_naivegfs.Dfs.{dfs_init_config, id_for_dfs}
use rpi0_naivegfs.Protocol.Line.{Line}
use rpi0_naivegfs.Protocol.Pi.{entry}
use rpi0_naivegfs.Protocol.Mac.{boot, words_of, words_in_name, name_to_send, dfs_boot}
use rpi0_naivegfs.Protocol.Install.{
  Device, Installed, installed, booted_before, after_dfs_boot, install, boot_connected_pies,
}
use rpi0_naivegfs.Protocol.Names.{AllChars}
use rpi0_naivegfs.Protocol.Dialogue.Mac.{dfs_boot-behind}
use rpi0_naivegfs.Protocol.Dialogue.Pi.{dfs_name_of, entry_lem}
use rpi0_naivegfs.Protocol.Dialogue.{mac_text, pi_text}

abbrev pub closed_pi : ℕ → Pi
closed_pi fd = record { is_open = false; fd = fd }

abbrev pub open_pi : ℕ → Pi
open_pi fd = record { is_open = true; fd = fd }

-- The id that is free after a result of `id_for_dfs`.
abbrev pub next_id : ℕ → ℕ → ℕ
next_id id result = if result == minus_one then id + 1 else id

-- The number of ids that are taken.
abbrev pub taken : List ℕ → ℕ
taken [] = 0
taken (result ∷ results) = if result == minus_one then suc (taken results) else taken results

module _ {Store : Type 0} (dev : SectorDevice Store) (rounds : ℕ) (loader name : List ℕ) where
  -- Devices at the other ends of which are pies whose loaders send what is given, and which then run
  -- `entry` on what the mac sends for the name and the id that is free by then, with what
  -- `id_for_dfs` returns at each.
  pub data Fleet : ℕ → List Device → List ℕ → Type 0 where
    nobody : (id : ℕ) → Fleet id [] []
    joined :
        (id count cfg result fd : ℕ) (buf b : List ℕ) (f0 f1 f2 f3 : Fs Store) (ds : List Device)
        (results : List ℕ)
        → fat32_init dev f0 ≡ done count f1
        → dfs_init_config dev rounds f1 ≡ done cfg f2
        → id_for_dfs dev cfg (dfs_name_of name buf) id f2 ≡ done result f3
        → entry dev rounds buf
            (record { fs = f0; line = record { rx = mac_text name id; tx = [] } })
          ≡ done tt (record { fs = f3; line = record { rx = []; tx = b } })
        → Fleet (next_id id result) ds results
        → Fleet id
            (record { opened = some fd; line = record { rx = loader ++ b; tx = [] } } ∷ ds)
            (result ∷ results)

or_new : (d x : Bool) → ((d || true) || x) ≡ (d || true)
or_new true x = refl
or_new false x = refl

or_known : (d x : Bool) → ((d || false) || x) ≡ (d || x)
or_known true x = refl
or_known false x = refl

or_false : (d : Bool) → (d || false) ≡ d
or_false true = refl
or_false false = refl

next_id_bound : (id result : ℕ) → next_id id result ≤ id + 1
next_id_bound id result = ground arith

-- The loader on a pi is not part of the repository: its bytes are given, and that `boot` takes them.
module _ (crc32 : List ℕ → ℕ) (select : Line → Bool) (program name loader sent : List ℕ)
    (loads : (fd : ℕ) (more : List ℕ)
      → boot crc32 (closed_pi fd) program (record { rx = loader ++ more; tx = [] })
        ≡ done (0, open_pi fd) (record { rx = more; tx = sent }))
    (ready : (l : Line) → select l ≡ true) (k : ℕ) (len : length name ≡ 4 * k)
    (all : AllChars name) where
  dfs_boot-next :
      (id result : ℕ) (t : List ℕ)
      → id < 256
      → dfs_boot select
          (words_of (words_in_name name) (name_to_send name))
          id
          (record { rx = pi_text k result id; tx = t })
        ≡ done (0, next_id id result) (record { rx = exit_text; tx = t ++ mac_text name id })
  dfs_boot-next id result t low =
      let words = words_of (words_in_name name) (name_to_send name) in
      let byte : id ≡ id % 256 = omega arith in
      let next : u32 (id + 1) ≡ id + 1 = omega arith in
      ap (λ i. dfs_boot select words id (record { rx = pi_text k result i; tx = t })) byte
      ∙ dfs_boot-behind select k result id name t ready len all
      ∙ ap
          (λ i.
            done (0, (if result == minus_one then i else id))
              (record { rx = exit_text; tx = t ++ mac_text name id }))
          next

  -- A round with a pi that comes up.
  install-joined :
      (id result fd : ℕ) (dirty : Bool) (more : ℕ → Bool → Installed)
      → id < 256
      → install crc32 select program name more id dirty (
          boot crc32
            (closed_pi fd)
            program
            (record { rx = loader ++ pi_text k result id; tx = [] }))
        ≡ booted_before
            (open_pi fd)
            (more (next_id id result) (dirty || not (id == next_id id result)))
  unfolding install after_dfs_boot
  install-joined id result fd dirty more low =
      rw (loads fd (pi_text k result id), dfs_boot-next id result sent low) refl

  -- What the loop makes of its accumulators, round by round.
  step_ids :
      (id result : ℕ) (results : List ℕ) (dirty : Bool)
      → (next_id id result + taken results ≡ id + taken (result ∷ results))
        × (((dirty || not (id == next_id id result)) || not (taken results == 0))
            ≡ (dirty || not (taken (result ∷ results) == 0)))
  step_ids id result results dirty = elim (Bool-cases (result == minus_one)) [
    | inl new ↦
        rw
          (
            new,
            ne→not_== id (id + 1) (omega arith),
            ne→not_== (suc (taken results)) 0 (omega arith),
          )
          (omega arith, or_new dirty (not (taken results == 0)))
    | inr known ↦ rw (known, ==_self id) (refl, or_known dirty (not (taken results == 0)))
  ]

  module _ {Store : Type 0} (dev : SectorDevice Store) (rounds : ℕ) (short : k ≤ 6) where
    -- Let `boot` take what the loader of each pi sends, let data come in time, let the name have 4 * k
    -- characters below 0xff, k ≤ 6, and let there be ids below 256 for all pies. Let each pi have
    -- mounted its card, found or made its configuration file, and asked it by `id_for_dfs` for the id
    -- that is free when its turn comes, and let what arrives from it be what `entry` sends. Then
    -- `boot_connected_pies` ends without an error, every pi is booted, `*first_free_id` has moved on by
    -- the number of pies at which `id_for_dfs` returned -1, and `*dirty_dfs` is up if it was, or if
    -- there are such pies.
    pub boot_connected_pies-Fleet :
        (id : ℕ) (ds : List Device) (results : List ℕ) (dirty : Bool)
        → Fleet dev rounds loader name id ds results
        → id + length ds ≤ 256
        → (pies : List Pi) × (boot_connected_pies crc32 select program name ds id dirty
            ≡ installed true (id + taken results) (dirty || not (taken results == 0)) pies)
          × (length pies ≡ length ds)
    unfolding boot_connected_pies
    boot_connected_pies-Fleet id [] [] dirty (nobody id') room = (
      [],
      ap (λ i. installed true i dirty []) (omega arith)
          ∙ ap (λ d. installed true (id + 0) d []) (sym (or_false dirty)),
      refl,
    )
    boot_connected_pies-Fleet id ds results dirty
          (joined id' count cfg result fd buf b f0 f1 f2 f3 ds' results' init config ask run fleet)
          room =
        let low : id < 256 = omega (arith, room) in
        let answer : b ≡ pi_text k result id =
          ap (λ s. s.line.tx)
            (done-injective (
              sym run
              ∙ entry_lem dev rounds k count cfg result id name buf f0 f1 f2 f3 short len all low
                  init config ask)).1 in
        let dirty' = dirty || not (id == next_id id result) in
        let (pies, rest, size) =
          boot_connected_pies-Fleet (next_id id result) ds' results' dirty' fleet
            (omega (arith, room, next_id_bound id result)) in
        let (ids, flag) = step_ids id result results' dirty in
        (
          open_pi fd ∷ pies,
          rw answer (
              install-joined id result fd dirty (boot_connected_pies crc32 select program name ds')
                low
              ∙ ap (booted_before (open_pi fd)) rest
              ∙ rw (ids, flag)),
          ap suc size,
        )
