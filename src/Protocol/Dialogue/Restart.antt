-- ===== src/Protocol/Dialogue/Restart.antt =====
-- The dialogue when a pi is booted for the first time, and when it is booted again with the same card.
use rpi0_naivegfs.Base.{
  ℕ, zero, suc, ◌+◌, ◌*◌, ◌%◌, ◌≤◌, ◌<◌, ◌≡◌, ◌≢◌, refl, sym, ap, ◌∙◌, true, false, Bool,
  if◌then◌else◌, ◌==◌, List, [], ◌∷◌, ◌++◌, done-injective, done, length, minus_one, u16, u32,
  arith, ne→not_==,
}
use mathlib.Core.List.{append_assoc}
use rpi0_naivegfs.Strings.{ends}
use rpi0_naivegfs.Strings.Laws.{text, text-marked}
use rpi0_naivegfs.Output.{exit_text}
use rpi0_naivegfs.Fat32.Layout.{fat32_root_cluster_no}
use rpi0_naivegfs.Fat32.State.{SectorDevice, Fs}
use rpi0_naivegfs.Fat32.Table.Find.{free_clusters}
use rpi0_naivegfs.Fat32.Mount.{fat32_init}
use rpi0_naivegfs.Fat32.Mount.Card.{IsCard, IsOnCard, fat32_init-IsOnCard}
use rpi0_naivegfs.Fat32.Directory.Lookup.{IsPath, directory_records}
use rpi0_naivegfs.Fat32.Directory.Listing.{listed, has_terminal}
use rpi0_naivegfs.Fat32.Directory.Place.{unlisted}
use rpi0_naivegfs.Fat32.Directory.Created.{AllUsed}
use rpi0_naivegfs.Fat32.Directory.Creation.{AllSectors}
use rpi0_naivegfs.Dfs.{fat32_dfs_cfg_filename}
use rpi0_naivegfs.Dfs.Restart.{id_for_dfs-restart}
use rpi0_naivegfs.Protocol.Line.{Line}
use rpi0_naivegfs.Protocol.Pi.{entry}
use rpi0_naivegfs.Protocol.Mac.{words_of, words_in_name, name_to_send, dfs_boot}
use rpi0_naivegfs.Protocol.Names.{AllChars}
use rpi0_naivegfs.Protocol.Dialogue.Pi.{dfs_name_of, entry_lem}
use rpi0_naivegfs.Protocol.Dialogue.Mac.{dfs_boot_lem}
use rpi0_naivegfs.Protocol.Dialogue.{claim, dummies, mac_text, pi_text}
use rpi0_naivegfs.Protocol.Dialogue.Run.{entry-dfs_boot}

-- The string of the name that is received does not depend on what the array held before.
text-dfs_name_of :
    (n : ℕ) (name buf before : List ℕ)
    → text n (dfs_name_of name buf) ≡ text n (dfs_name_of name before)
text-dfs_name_of n name buf before =
    ap (text n) (append_assoc name _ _)
    ∙ text-marked n name _ _
    ∙ sym (ap (text n) (append_assoc name _ _))

dummies_front : (n : ℕ) (more : List ℕ) → (h : List ℕ) × (dummies n more ≡ h ++ more)
dummies_front zero more = ([], refl)
dummies_front (suc n) more =
    let (h, e) = dummies_front n more in
    (0x78 ∷ 0x56 ∷ 0x34 ∷ 0x12 ∷ h, ap (λ l. 0x78 ∷ 0x56 ∷ 0x34 ∷ 0x12 ∷ l) e)

-- A pi that has an id sends it four times, in front of the text that ends its output.
pi_text-known :
    (k id offered : ℕ)
    → id < 256
    → (h : List ℕ) × (pi_text k id offered ≡ h ++ (id ∷ id ∷ id ∷ id ∷ exit_text))
pi_text-known k id offered low =
    let other : (id == minus_one) ≡ false = ne→not_== id minus_one (omega arith) in
    let byte : id % 256 ≡ id = omega arith in
    let told : claim id offered ++ exit_text ≡ dummies 1 (id ∷ id ∷ id ∷ id ∷ exit_text) =
      rw (other, byte) in
    let (h, e) = dummies_front (suc (suc k)) (dummies 2 (claim id offered ++ exit_text)) in
    (
      h ++ dummies 3 [],
      e
          ∙ ap (λ m. h ++ dummies 2 m) told
          ∙ sym (append_assoc h (dummies 3 []) (id ∷ id ∷ id ∷ id ∷ exit_text)),
    )

-- The mac keeps the id that it offered to a pi that has one.
dfs_boot-known :
    (select : Line → Bool) (k id again : ℕ) (name : List ℕ)
    → ((l : Line) → select l ≡ true)
    → length name ≡ 4 * k
    → AllChars name
    → id < 256
    → again < 256
    → dfs_boot select
        (words_of (words_in_name name) (name_to_send name))
        again
        (record { rx = pi_text k id again; tx = [] })
      ≡ done (0, again) (record { rx = exit_text; tx = mac_text name again })
dfs_boot-known select k id again name ready len all low low2 =
    let words = words_of (words_in_name name) (name_to_send name) in
    let same : again ≡ again % 256 = omega arith in
    ap (λ i. dfs_boot select words again (record { rx = pi_text k id i; tx = [] })) same
    ∙ dfs_boot_lem select k id again name ready len all
    ∙ ap
        (λ t.
          done (0, (if t then u32 (again + 1) else again))
            (record { rx = exit_text; tx = mac_text name again }))
        (ne→not_== id minus_one (omega arith))

module _ {Store : Type 0} (dev : SectorDevice Store) where
  -- The state that `fat32_init` makes of a card.
  fat32_init-now :
      (p : ℕ) (f0 f1 : Fs Store)
      → IsCard dev f0.disk p
      → fat32_init dev f0 ≡ done 0 f1
      → IsOnCard dev f0.disk p f1
  fat32_init-now p f0 f1 card init =
      let (t, run, on, same, words) = fat32_init-IsOnCard dev p f0 card in
      rw ((done-injective (sym init ∙ run)).1) on

  -- Let a card, as IsCard describes it, have one partition with a table of one sector, and sectors
  -- of 512 bytes, let its root directory be a path of used clusters with a free record, before
  -- which no file is listed whose name compares equal to the configuration file's, and let two
  -- clusters be free. Let the name have 4 * k characters below 0xff, 1 ≤ k ≤ 6, the first not 0,
  -- let the ids be below 256, and let data come in time at the mac. Then on the first boot `entry`
  -- and `dfs_boot` come to their ends on what the other sends, and the mac has given its id away.
  -- When the pi is booted again with the disk that this leaves, whatever its memory holds and
  -- whatever id the mac offers, both come to their ends again, the mac keeps the id it offered, and
  -- the pi sends the id of the first boot, four times, in front of the text that ends its output.
  -- More rounds than the directory has clusters behind the first are enough.
  pub entry-dfs_boot-restart :
      (select : Line → Bool) (p rounds k c e b id again : ℕ) (ds rest bs buf buf2 : List ℕ)
      (f0 f1 memory : Fs Store)
      → ((l : Line) → select l ≡ true)
      → k ≤ 6
      → length (b ∷ bs) ≡ 4 * k
      → AllChars (b ∷ bs)
      → b ≢ 0
      → id < 256
      → again < 256
      → IsCard dev f0.disk p
      → fat32_init dev f0 ≡ done 0 f1
      → AllSectors dev f1.disk
      → IsPath f1.fat fat32_root_cluster_no ds
      → AllUsed f1 (fat32_root_cluster_no ∷ ds)
      → length ds < rounds
      → has_terminal (directory_records dev f1 (fat32_root_cluster_no ∷ ds)) ≡ true
      → unlisted fat32_dfs_cfg_filename
          (listed (directory_records dev f1 (fat32_root_cluster_no ∷ ds)))
        ≡ true
      → free_clusters f1 ≡ c ∷ e ∷ rest
      → let words = words_of (words_in_name (b ∷ bs)) (name_to_send (b ∷ bs)) in
        (f3 f5 : Fs Store) × (a1 b1 a2 b2 before : List ℕ) × (entry dev rounds buf
            (record { fs = f0; line = record { rx = a1; tx = [] } })
          ≡ done tt (record { fs = f3; line = record { rx = []; tx = b1 } }))
        × (dfs_boot select words id (record { rx = b1; tx = [] })
            ≡ done (0, id + 1) (record { rx = exit_text; tx = a1 }))
        × (entry dev rounds buf2
              (record { fs = record memory { disk = f3.disk }; line = record { rx = a2; tx = [] } })
            ≡ done tt (record { fs = f5; line = record { rx = []; tx = b2 } }))
        × (dfs_boot select words again (record { rx = b2; tx = [] })
            ≡ done (0, again) (record { rx = exit_text; tx = a2 }))
        × (b2 ≡ before ++ (id ∷ id ∷ id ∷ id ∷ exit_text))
  unfolding AllChars
  entry-dfs_boot-restart select p rounds k c e b id again ds rest bs buf buf2 f0 f1 memory ready
        short len all nz low low2 card init sectors path used fuel room new free =
      let real : ends b ≡ false = rw (ne→not_== b 0 nz, ne→not_== b 0xff (omega (arith, all.0))) in
      let (f2, f3, w, config, ask, init2, config2, ask2) =
        id_for_dfs-restart dev f0.disk p rounds c e b ds rest _ (dfs_name_of (b ∷ bs) buf2) id again
          f1 memory card (fat32_init-now p f0 f1 card init) sectors path used fuel room new free
          real (omega arith) (text-dfs_name_of 30 (b ∷ bs) buf buf2) in
      let cut : u16 id ≡ id = omega arith in
      let (a1, b1, pi1, mac1) =
        entry-dfs_boot dev select rounds k 0 c minus_one id (b ∷ bs) buf f0 f1 f2 f3 ready short len
          all low init config ask in
      let pi2 =
        entry_lem dev rounds k 0 c id again (b ∷ bs) buf2 (record memory { disk = f3.disk }) w w w
          short len all low2 init2 config2 (rw cut at ask2) in
      let (before, told) = pi_text-known k id again low in
      (
        f3,
        w,
        a1,
        b1,
        mac_text (b ∷ bs) again,
        pi_text k id again,
        before,
        pi1,
        mac1,
        pi2,
        dfs_boot-known select k id again (b ∷ bs) ready len all low low2,
        told,
      )
