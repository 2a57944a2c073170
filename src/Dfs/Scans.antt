-- ===== src/Dfs/Scans.antt =====
-- The scan of the sixteen entries for a name: the ways it ends, and what it finds a second time.
use rpi0_naivegfs.Base.{
  ℕ, suc, ◌≡◌, ◌≢◌, ◌⊎◌, refl, sym, ap, ◌∙◌, true, false, inl, inr, ◌==◌, Bool-cases, List, [], ◌∷◌,
  length, get_or, u16, minus_one, arith, ne→not_==,
}
use rpi0_naivegfs.Strings.{ends, strncpy, strncmp}
use rpi0_naivegfs.Strings.Laws.{length-strncpy, strncmp-strncpy, strncmp-text, text, text-strncpy}
use rpi0_naivegfs.Dfs.{Entry, Scan, known, stop, write_back, behind, scan_entries}
use rpi0_naivegfs.Dfs.Entries.{AllEntries}

-- Some entry is free: its first byte is 0.
abbrev pub HasFree : List Entry → Type 0
HasFree [] = ⊥
HasFree (e ∷ es) = (get_or e.dfs_id 0 0 ≡ 0) ⊎ HasFree es

-- Every entry is in use for a name that compares different.
abbrev pub AllOther : List ℕ → List Entry → Type 0
AllOther name [] = Unit
AllOther name (e ∷ es) =
    (get_or e.dfs_id 0 0 ≢ 0) × (strncmp e.dfs_id name 30 ≢ 0) × AllOther name es

behind-eq-write_back :
    (e : Entry) (r : Scan) {es : List Entry}
    → behind e r ≡ write_back es
    → (rest : List Entry) × (r ≡ write_back rest) × (es ≡ e ∷ rest)
behind-eq-write_back e (known i) h = cc h
behind-eq-write_back e stop h = cc h
behind-eq-write_back e (write_back rest) h = (rest, refl, cc h)

behind-eq-known : {i : ℕ} (e : Entry) (r : Scan) → behind e r ≡ known i → r ≡ known i
behind-eq-known e (known i) h = h
behind-eq-known e stop h = cc h
behind-eq-known e (write_back rest) h = cc h

head-text : (a : List ℕ) {c : ℕ} {r : List ℕ} → text 30 a ≡ c ∷ r → get_or a 0 0 ≡ c
unfolding text
head-text [] h = cc h
head-text (x ∷ a) h = ground arith

head-strncpy :
    (dst cs : List ℕ) (c : ℕ)
    → ends c ≡ false
    → length dst ≡ 30
    → get_or (strncpy dst (c ∷ cs) 30) 0 0 ≡ c
head-strncpy dst cs c real len =
    head-text (strncpy dst (c ∷ cs) 30)
      (text-strncpy 30 dst (c ∷ cs) (omega arith) (omega arith) ∙ start)
  where
    start : text 29 (c ∷ cs) ≡ c ∷ text 28 cs
    start = unfold text in rw real

write_back-injective : {a b : List Entry} → write_back a ≡ write_back b → a ≡ b
write_back-injective e = cc e

known-ne-write_back : {i : ℕ} {es : List Entry} → known i ≢ write_back es
known-ne-write_back e = cc e

-- The three ways of one round.
module _ (name : List ℕ) (x : Entry) (es : List Entry) (unassigned : ℕ) where
  pub scan_free :
      unassigned ≢ minus_one
      → (get_or x.dfs_id 0 0 == 0) ≡ true
      → scan_entries name unassigned (x ∷ es)
        ≡ write_back (record { dfs_id = strncpy x.dfs_id name 30; id = u16 unassigned } ∷ es)
  unfolding scan_entries
  scan_free given free = rw (free, ne→not_== unassigned minus_one given)

  scan_hit :
      (get_or x.dfs_id 0 0 == 0) ≡ false
      → (strncmp x.dfs_id name 30 == 0) ≡ true
      → scan_entries name unassigned (x ∷ es) ≡ known x.id
  unfolding scan_entries
  scan_hit used hit = rw (used, hit)

  scan_miss :
      (get_or x.dfs_id 0 0 == 0) ≡ false
      → (strncmp x.dfs_id name 30 == 0) ≡ false
      → scan_entries name unassigned (x ∷ es) ≡ behind x (scan_entries name unassigned es)
  unfolding scan_entries
  scan_miss used miss = rw (used, miss)

pub scan_other :
    (name : List ℕ) (unassigned : ℕ) (es : List Entry)
    → AllOther name es
    → scan_entries name unassigned es ≡ write_back es
scan_other name unassigned [] other = unfold scan_entries in refl
scan_other name unassigned (x ∷ es) other =
    scan_miss name x es unassigned (ne→not_== _ 0 other.0) (ne→not_== _ 0 other.1)
    ∙ ap (behind x) (scan_other name unassigned es other.2)

-- An id that is known for a name is known for each that ends alike.
pub scan_known-text :
    (a b : List ℕ) (other i : ℕ) (es : List Entry)
    → text 30 a ≡ text 30 b
    → scan_entries a other es ≡ known i
    → scan_entries b other es ≡ known i
unfolding scan_entries
scan_known-text a b other i [] same e = cc e
scan_known-text a b other i (x ∷ es) same e = elim (Bool-cases (get_or x.dfs_id 0 0 == 0)) [
  | inl free ↦ elim (Bool-cases (other == minus_one)) [
    | inl none ↦ let e' = rw (free, none) at e in cc e'
    | inr given ↦ let e' = rw (free, given) at e in cc e'
  ]
  | inr used ↦ elim (Bool-cases (strncmp x.dfs_id a 30 == 0)) [
    | inl hit ↦ rw (used, ← strncmp-text 30 x.dfs_id a b same, hit) (rw (used, hit) at e)
    | inr miss ↦
        let rest = behind-eq-known x (scan_entries a other es) (rw (used, miss) at e) in
        rw (used, ← strncmp-text 30 x.dfs_id a b same, miss)
          (ap (behind x) (scan_known-text a b other i es same rest))
  ]
]

pub scan_known-ne :
    (name : List ℕ) (unassigned : ℕ) (es : List Entry)
    → AllEntries es
    → scan_entries name unassigned es ≢ known minus_one
unfolding scan_entries
scan_known-ne name unassigned [] all e = cc e
scan_known-ne name unassigned (x ∷ es) all e = ground (
  arith,
  behind-eq-known x (scan_entries name unassigned es),
  scan_known-ne name unassigned es all.2,
)

module _ (cs : List ℕ) (c : ℕ) (real : ends c ≡ false) where
  fresh_matches :
      (dst : List ℕ) (id other : ℕ) (es : List Entry)
      → length dst ≡ 30
      → scan_entries (c ∷ cs) other (record { dfs_id = strncpy dst (c ∷ cs) 30; id = id } ∷ es)
        ≡ known id
  unfolding scan_entries
  fresh_matches dst id other es len =
      let nz : c ≢ 0 = ground arith in
      rw (
        head-strncpy dst cs c real len,
        ne→not_== c 0 nz,
        strncmp-strncpy 30 dst (c ∷ cs) (omega arith),
      )

  pub scan_again :
      (unassigned other : ℕ) (es new : List Entry)
      → unassigned ≢ minus_one
      → HasFree es
      → AllEntries es
      → scan_entries (c ∷ cs) unassigned es ≡ write_back new
      → (scan_entries (c ∷ cs) other new ≡ known (u16 unassigned))
        × AllEntries new
        × (length new ≡ length es)
  scan_again unassigned other [] new given has all e = absurd has
  scan_again unassigned other (x ∷ es) new given has all e =
      elim (Bool-cases (get_or x.dfs_id 0 0 == 0)) [
        | inl free ↦
            let taken : Entry = record {
              dfs_id = strncpy x.dfs_id (c ∷ cs) 30;
              id = u16 unassigned;
            } in
            let same : taken ∷ es ≡ new =
              write_back-injective (sym (scan_free (c ∷ cs) x es unassigned given free) ∙ e) in
            rw (← same) (
              fresh_matches x.dfs_id (u16 unassigned) other es all.0,
              (length-strncpy x.dfs_id (c ∷ cs) 30 ∙ all.0, omega arith, all.2),
              refl,
            )
        | inr used ↦ elim (Bool-cases (strncmp x.dfs_id (c ∷ cs) 30 == 0)) [
          | inl hit ↦
              absurd (known-ne-write_back (sym (scan_hit (c ∷ cs) x es unassigned used hit) ∙ e))
          | inr miss ↦
              let (rest, e', same) =
                behind-eq-write_back x (scan_entries (c ∷ cs) unassigned es)
                  (sym (scan_miss (c ∷ cs) x es unassigned used miss) ∙ e) in
              let has' : HasFree es = ground arith in
              let (found, all', len) = scan_again unassigned other es rest given has' all.2 e' in
              rw same (
                scan_miss (c ∷ cs) x rest other used miss ∙ ap (behind x) found,
                (all.0, all.1, all'),
                ap suc len,
              )
        ]
      ]
