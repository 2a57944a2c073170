-- ===== src/Protocol/Root/Written.antt =====
-- The id that the file of the distributed file system holds after a run.
use rpi0_naivegfs.Base.{
  ℕ, zero, suc, ◌+◌, ◌*◌, ◌≤◌, ◌<◌, ◌≡◌, ◌≢◌, ◌⊎◌, inl, inr, ◌^◌, ◌==◌, get_or, Bool-cases, ==→eq,
  not_==→ne, refl, sym, ap, ◌∙◌, Bool, true, false, none, some, List, [], ◌∷◌, ◌++◌, if◌then◌else◌,
  done, length, length-take, length-drop, take, drop, append-nil_lem, word32-bytes32, arith,
}
use rpi0_naivegfs.Output.{Pi}
use rpi0_naivegfs.Protocol.Line.{Line}
use rpi0_naivegfs.Protocol.Install.{Device, installed, boot_connected_pies}
use rpi0_naivegfs.Protocol.Ids.{IsKept, boot_connected_pies-IsKept}
use rpi0_naivegfs.Protocol.Root.{
  Shown, shown_entries, word_of, decode_dfs_file, encode_dfs_file, init_dfs, listed_entries,
  overwrite, after_boot, deploy,
}

drop_all : (n : ℕ) (l : List ℕ) → length l ≤ n → drop n l ≡ []
drop_all zero [] h = refl
drop_all zero (x ∷ l) h = absurd (omega arith)
drop_all (suc n) [] h = refl
drop_all (suc n) (x ∷ l) h = drop_all n l (omega arith)

drop-take : (n m : ℕ) (l : List ℕ) → n ≤ m → drop n (take m l) ++ drop m l ≡ drop n l
drop-take zero zero l h = refl
drop-take zero (suc m) [] h = refl
drop-take zero (suc m) (x ∷ l) h = ap (λ t. x ∷ t) (drop-take zero m l (omega arith))
drop-take (suc n) zero l h = absurd (omega arith)
drop-take (suc n) (suc m) [] h = refl
drop-take (suc n) (suc m) (x ∷ l) h = drop-take n m l (omega arith)

word_of-take : (l : List ℕ) → 512 ≤ length l → word_of (take 512 l) ≡ word_of l
word_of-take [] h = absurd (omega arith)
word_of-take (a ∷ []) h = absurd (omega arith)
word_of-take (a ∷ b ∷ []) h = absurd (omega arith)
word_of-take (a ∷ b ∷ c ∷ []) h = absurd (omega arith)
word_of-take (a ∷ b ∷ c ∷ d ∷ l) h = refl

-- A file that is long enough is read as it is, whatever the structure held.
init_dfs_full :
    (stack file : List ℕ)
    → length stack ≡ 512
    → 512 ≤ length file
    → init_dfs stack (some file) ≡ some (decode_dfs_file (take 512 file), file)
unfolding init_dfs
init_dfs_full stack [] size long = absurd (omega arith)
init_dfs_full stack (x ∷ file) size long =
    let got = length-take 512 (x ∷ file) long in
    let none_left = drop_all 512 stack (omega arith) in
    ap (λ b. some (decode_dfs_file b, x ∷ file))
      (ap (λ n. take 512 (x ∷ file) ++ drop n stack) got
        ∙ ap (λ l. take 512 (x ∷ file) ++ l) none_left
        ∙ append-nil_lem (take 512 (x ∷ file)))

-- The list is the listing of records of 16 bytes, of which n are left. It has one element for each
-- record, in order: the low 28 bits of the word that the record starts with, as the number of the
-- cluster, the high 4, as that of the device, and the 11 bytes behind it, as the name. It ends behind
-- the n records, or in front of the first one whose first byte is 0.
abbrev pub Lists : ℕ → List ℕ → List Shown → Type 0
Lists n b [] = (n ≡ 0) ⊎ (get_or b 0 0 ≡ 0)
Lists zero b (e ∷ es) = ⊥
Lists (suc n) b (e ∷ es) =
    (get_or b 0 0 ≢ 0)
    × (word_of b ≡ e.device_no * 2 ^ 28 + e.cluster_no)
    × (e.cluster_no < 2 ^ 28)
    × (e.name ≡ take 11 (drop 4 b))
    × Lists n (drop 16 b) es

shown_entries-Lists : (n : ℕ) (b : List ℕ) → Lists n b (shown_entries n b)
unfolding shown_entries
shown_entries-Lists zero b = inl refl
shown_entries-Lists (suc n) b = elim (Bool-cases (get_or b 0 0 == 0)) [
  | inl last ↦ rw last (inr (==→eq (get_or b 0 0) 0 last))
  | inr more ↦ rw more (
    not_==→ne (get_or b 0 0) 0 more,
    omega arith,
    omega arith,
    refl,
    shown_entries-Lists n (drop 16 b),
  )
]

drop-drop : (l : List ℕ) → drop 12 (drop 4 l) ≡ drop 16 l
drop-drop [] = refl
drop-drop (a ∷ []) = refl
drop-drop (a ∷ b ∷ []) = refl
drop-drop (a ∷ b ∷ c ∷ []) = refl
drop-drop (a ∷ b ∷ c ∷ d ∷ l) = refl

-- What `main` lists of a file.
listed_entries-Lists :
    (file : List ℕ)
    → Lists 13 (drop 16 (take 512 file)) (listed_entries (decode_dfs_file (take 512 file)))
unfolding decode_dfs_file
listed_entries-Lists file =
    rw (← drop-drop (take 512 file)) (shown_entries-Lists 13 (drop 12 (drop 4 (take 512 file))))

-- What the file holds afterwards: the id, and behind it what it held before.
abbrev pub Holds : ℕ → List ℕ → List ℕ → Type 0
Holds id file after = Path ℕ (decode_dfs_file after).first_free_id id × (drop 4 after ≡ drop 4 file)

abbrev written : ℕ → List ℕ → List ℕ
written id file =
    overwrite (encode_dfs_file (record (decode_dfs_file (take 512 file)) { first_free_id = id }))
      file

written-Holds :
    (id : ℕ) (file : List ℕ) → id < 2 ^ 32 → 512 ≤ length file → Holds id file (written id file)
unfolding encode_dfs_file decode_dfs_file
written-Holds id file small long =
    let got = length-take 512 file long in
    let size : suc (suc (suc (suc (length (drop 4 (take 512 file)))))) ≡ 512 =
      omega (arith, length-drop 4 (take 512 file)) in
    (
      word32-bytes32 id small,
      ap (λ n. drop 4 (take 512 file) ++ drop n file) size ∙ drop-take 4 512 file (omega arith),
    )

-- What is written back where the id changed, and left where it did not.
kept-Holds :
    (id : ℕ) (file : List ℕ) (ok dirty : Bool) (pies : List Pi)
    → id < 2 ^ 32
    → 512 ≤ length file
    → IsKept (decode_dfs_file file).first_free_id false (installed ok id dirty pies)
    → Holds id file (if dirty then written id file else file)
kept-Holds id file ok true pies small long keep = written-Holds id file small long
kept-Holds id file ok false pies small long keep = (sym keep.1, refl)

module _ (crc32 : List ℕ → ℕ) (select : Line → Bool) (get_bytes : List ℕ → List ℕ)
    (stack : List ℕ) where
  -- Where the file of the distributed file system has 512 bytes or more, and `boot_connected_pies`
  -- returns, whether all pies were booted or not, with an id below 2 ^ 32 as the next one, `main` lists
  -- of the records of 16 bytes from byte 16 of the file on the first 13, or those in front of the first
  -- one of these whose first byte is 0: of each the number of its cluster, that of its device, and its
  -- name. The file then holds that id, and behind it the bytes that it held before. `main` goes on to
  -- the output of the booted pies if all were booted, and to none otherwise.
  pub deploy-Holds :
      (devices : List Device) (pi_prog_path dfs_name file : List ℕ) (more : List (List ℕ))
      (ok dirty : Bool) (id : ℕ) (pies : List Pi)
      → length stack ≡ 512
      → 512 ≤ length file
      → boot_connected_pies crc32 select
          (get_bytes pi_prog_path)
          dfs_name
          devices
          (decode_dfs_file file).first_free_id
          false
        ≡ installed ok id dirty pies
      → id < 2 ^ 32
      → (listing : List Shown) × (after : List ℕ) × (deploy crc32 select get_bytes stack devices
            (pi_prog_path ∷ dfs_name ∷ more)
            (some file)
          ≡ done
              (record { listing = listing; booted = if ok then some pies else none })
              (some after))
        × Lists 13 (drop 16 (take 512 file)) listing
        × Holds id file after
  unfolding deploy after_boot decode_dfs_file
  deploy-Holds devices pi_prog_path dfs_name file more ok dirty id pies size long run small =
      let boot_from = λ (i : ℕ).
        boot_connected_pies crc32 select (get_bytes pi_prog_path) dfs_name devices i false in
      let run_taken = ap boot_from (word_of-take file long) ∙ run in
      let keep =
        boot_connected_pies-IsKept crc32 select (get_bytes pi_prog_path) dfs_name devices
          (word_of file) false in
      (
        listed_entries (decode_dfs_file (take 512 file)),
        (if dirty then written id file else file),
        rw (deploy, init_dfs_full stack file size long, run_taken),
        listed_entries-Lists file,
        kept-Holds id file ok dirty pies small long (rw run at keep),
      )
