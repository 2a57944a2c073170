-- ===== src/Fat32/Directory/Insert.antt =====
-- What `insert_scan` does on the records of a sector.
use rpi0_naivegfs.Base.{
  ℕ, zero, suc, ◌+◌, ◌≡◌, refl, ap, sym, true, false, inl, inr, Bool-cases, ◌&&◌, ◌||◌, not, none,
  some, List, [], ◌∷◌, ◌++◌, done, pure, and_then, length, get_or, set, arith, length-append,
}
use rpi0_naivegfs.Fat32.Layout.{DirRecord, is_lfn, is_terminal}
use rpi0_naivegfs.Fat32.State.{SectorDevice, Fs}
use rpi0_naivegfs.Fat32.Directory.{zero_record, insert_at, insert_scan}
use rpi0_naivegfs.Fat32.Directory.Listing.{has_terminal}

pub has_terminal-append :
    (xs ys : List DirRecord) → has_terminal (xs ++ ys) ≡ (has_terminal xs || has_terminal ys)
has_terminal-append [] ys = refl
has_terminal-append (x ∷ xs) ys = ground (arith, has_terminal-append xs ys)

pub get_or-append_len :
    (pre post : List DirRecord) (r d : DirRecord) → get_or (pre ++ (r ∷ post)) (length pre) d ≡ r
get_or-append_len [] post r d = refl
get_or-append_len (x ∷ pre) post r d = get_or-append_len pre post r d

pub set-append_len :
    (pre post : List DirRecord) (r v : DirRecord)
    → set (pre ++ (r ∷ post)) (length pre) v ≡ pre ++ (v ∷ post)
set-append_len [] post r v = refl
set-append_len (x ∷ pre) post r v = ap (λ l. x ∷ l) (set-append_len pre post r v)

-- The place behind the first element of the second list.
snoc-append :
    (pre post : List DirRecord) (r : DirRecord) → pre ++ (r ∷ post) ≡ (pre ++ (r ∷ [])) ++ post
snoc-append [] post r = refl
snoc-append (x ∷ pre) post r = ap (λ l. x ∷ l) (snoc-append pre post r)

length-snoc : (pre : List DirRecord) (r : DirRecord) → length (pre ++ (r ∷ [])) ≡ length pre + 1
length-snoc pre r = omega (arith, length-append pre (r ∷ []))

pub get_or-append_next :
    (pre post : List DirRecord) (f q d : DirRecord)
    → get_or (pre ++ (f ∷ q ∷ post)) (length pre + 1) d ≡ q
get_or-append_next pre post f q d =
    rw (snoc-append pre (q ∷ post) f, sym (length-snoc pre f))
      (get_or-append_len (pre ++ (f ∷ [])) post q d)

pub set-append_next :
    (pre post : List DirRecord) (f q v : DirRecord)
    → set (pre ++ (f ∷ q ∷ post)) (length pre + 1) v ≡ pre ++ (f ∷ v ∷ post)
set-append_next pre post f q v =
    rw (snoc-append pre (q ∷ post) f, snoc-append pre (v ∷ post) f, sym (length-snoc pre f))
      (set-append_len (pre ++ (f ∷ [])) post q v)

-- A free record of a sector: the first that is a terminal, and the records around it.
pub record IsFree (records pre : List DirRecord) (r : DirRecord) (post : List DirRecord)
    : Type 0 where
  pub parts : records ≡ pre ++ (r ∷ post)
  pub none_before : has_terminal pre ≡ false
  pub not_lfn : is_lfn r ≡ false
  pub ends_list : is_terminal r ≡ true

module _ {Store : Type 0} (dev : SectorDevice Store) (count : ℕ) (name : List ℕ)
    (c sector_no : ℕ) where
  pub insert_scan-none :
      (n i : ℕ) (records front rest : List DirRecord) (s : Fs Store)
      → records ≡ front ++ rest
      → i ≡ length front
      → n ≡ length rest
      → has_terminal rest ≡ false
      → insert_scan dev n i count name c sector_no records s ≡ done none s
  unfolding insert_scan
  insert_scan-none zero i records front rest s e at size quiet = refl
  insert_scan-none (suc n) i records front [] s e at size quiet = absurd (omega arith)
  insert_scan-none (suc n) i records front (r ∷ rest) s e at size quiet =
      elim (Bool-cases (not (is_lfn r) && is_terminal r)) [
        | inl free ↦ absurd (cc (rw free at quiet))
        | inr used ↦
            rw (e, at, get_or-append_len front rest r zero_record, used)
              (insert_scan-none n (length front + 1) (front ++ (r ∷ rest)) (front ++ (r ∷ [])) rest
                s (snoc-append front rest r) (sym (length-snoc front r)) (omega arith)
                (rw used at quiet))
      ]

  pub insert_scan-some :
      (n i : ℕ) (records front rest : List DirRecord) (s : Fs Store)
      → records ≡ front ++ rest
      → i ≡ length front
      → n ≡ length rest
      → has_terminal front ≡ false
      → has_terminal rest ≡ true
      → (pre : List DirRecord) × (r : DirRecord) × (post : List DirRecord) × IsFree records pre r
          post
        × (insert_scan dev n i count name c sector_no records s
            ≡ and_then
                (insert_at dev count name c sector_no (length pre) records s)
                (λ first. pure (some first)))
  unfolding insert_scan
  insert_scan-some n i records front [] s e at size before free = absurd (cc free)
  insert_scan-some zero i records front (r ∷ rest) s e at size before free = absurd (omega arith)
  insert_scan-some (suc n) i records front (r ∷ rest) s e at size before free =
      elim (Bool-cases (not (is_lfn r) && is_terminal r)) [
        | inl here ↦ (
          front,
          r,
          rest,
          record {
            parts = e;
            none_before = before;
            not_lfn = ground arith;
            ends_list = ground arith;
          },
          rw (e, at, get_or-append_len front rest r zero_record, here),
        )
        | inr used ↦
            rw (at, e, get_or-append_len front rest r zero_record, used)
              (insert_scan-some n (length front + 1) (front ++ (r ∷ rest)) (front ++ (r ∷ [])) rest
                s (snoc-append front rest r) (sym (length-snoc front r)) (omega arith)
                (rw (has_terminal-append, before, used)) (rw used at free))
      ]
