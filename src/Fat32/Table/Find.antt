-- ===== src/Fat32/Table/Find.antt =====
-- The free entries of the table in order, and `find_free_local_cluster` against them.
use rpi0_naivegfs.Base.{
  ℕ, zero, suc, ◌+◌, ◌-◌, ◌≤◌, ◌<◌, ◌≡◌, ◌≢◌, refl, true, inl, inr, ◌==◌, if◌then◌else◌, Bool-cases,
  List, [], ◌∷◌, ◌++◌, done, minus_one, arith, eq→==, ne→not_==,
}
use rpi0_naivegfs.Fat32.State.{Fs, update}
use rpi0_naivegfs.Fat32.Table.{find_free_from, find_free_local_cluster}

-- The free entries among the n from p on, lowest first.
unfoldable pub free_from : (ℕ → ℕ) → ℕ → ℕ → List ℕ
free_from f p zero = []
free_from f p (suc n) = if f p == 0 then p ∷ free_from f (p + 1) n else free_from f (p + 1) n

abbrev pub head_or : List ℕ → ℕ → ℕ
head_or [] d = d
head_or (x ∷ _) d = x

module _ {Store : Type 0} where
  unfoldable pub free_clusters : Fs Store → List ℕ
  free_clusters s = free_from s.fat 2 (s.fat_end - 2)

  find_free_from_lem :
      (fuel n p : ℕ) (s : Fs Store)
      → p + n ≡ s.fat_end
      → n < fuel
      → find_free_from fuel p s ≡ done (head_or (free_from s.fat p n) minus_one) s
  unfolding find_free_from free_from
  find_free_from_lem zero n p s e h = absurd (omega arith)
  find_free_from_lem (suc fuel) zero p s e h = rw (eq→== p s.fat_end (omega arith))
  find_free_from_lem (suc fuel) (suc n) p s e h =
      rw (ne→not_== p s.fat_end (omega arith)) (elim (Bool-cases (s.fat p == 0)) [
        | inl free ↦ rw free
        | inr used ↦ rw used (find_free_from_lem fuel n (p + 1) s (omega arith) (omega arith))
      ])

  -- Once initialised, with a table of two words or more, `find_free_local_cluster` returns the
  -- lowest free cluster, or -1 if none is free, and changes nothing.
  pub find_free_local_cluster-free_clusters :
      (s : Fs Store)
      → s.did_init ≡ true
      → 2 ≤ s.fat_end
      → find_free_local_cluster s ≡ done (head_or (free_clusters s) minus_one) s
  unfolding find_free_local_cluster free_clusters
  find_free_local_cluster-free_clusters s ready size =
      simp ready (find_free_from_lem s.fat_end (s.fat_end - 2) 2 s (omega arith) (omega arith))

-- What is known of the first free entry.
pub record IsFirstFree (f : ℕ → ℕ) (p n c : ℕ) : Type 0 where
  pub above : p ≤ c
  pub below : c < p + n
  pub free : f c ≡ 0

pub free_from-IsFirstFree :
    (f : ℕ → ℕ) (p n : ℕ) {c : ℕ} {cs : List ℕ} → free_from f p n ≡ c ∷ cs → IsFirstFree f p n c
unfolding free_from
free_from-IsFirstFree f p zero e = cc e
free_from-IsFirstFree f p (suc n) e = elim (Bool-cases (f p == 0)) [
  | inl free ↦ let e' = rw free at e in ground arith
  | inr used ↦
      let e' = rw used at e in let rest = free_from-IsFirstFree f (p + 1) n e' in omega arith
]

-- The same entries in the range have the same free ones.
pub free_from-same :
    (f g : ℕ → ℕ) (p n : ℕ)
    → ((i : ℕ) → p ≤ i → i < p + n → f i ≡ g i)
    → free_from f p n ≡ free_from g p n
unfolding free_from
free_from-same f g p zero same = refl
free_from-same f g p (suc n) same =
    rw
      (
        same p (omega arith) (omega arith),
        free_from-same f g (p + 1) n (λ i lo hi. same i (omega arith) (omega arith)),
      )
      refl

-- A write below the range does not change its free entries.
free_from-update_below :
    (f : ℕ → ℕ) (p n c v : ℕ) → c < p → free_from (update f c v) p n ≡ free_from f p n
unfolding free_from
free_from-update_below f p zero c v h = refl
free_from-update_below f p (suc n) c v h =
    rw (ne→not_== p c (omega arith), free_from-update_below f (p + 1) n c v (omega arith))

-- Marking the first free entry leaves the others.
pub free_from-update_head :
    (f : ℕ → ℕ) (p n v : ℕ) {c : ℕ} {cs : List ℕ}
    → v ≢ 0
    → free_from f p n ≡ c ∷ cs
    → free_from (update f c v) p n ≡ cs
unfolding free_from
free_from-update_head f p zero v nz e = cc e
free_from-update_head f p (suc n) v {c} {cs} nz e = elim (Bool-cases (f p == 0)) [
  | inl free ↦ let e' = rw free at e in ground (arith, free_from-update_below f (p + 1) n p v)
  | inr used ↦
      let e' = rw used at e in
      ground
        (arith, free_from-IsFirstFree f (p + 1) n e', free_from-update_head f (p + 1) n v nz e')
]

-- Changing an entry in use to another value in use leaves the free entries.
pub free_from-update_used :
    (f : ℕ → ℕ) (p n c v : ℕ) → f c ≢ 0 → v ≢ 0 → free_from (update f c v) p n ≡ free_from f p n
unfolding free_from
free_from-update_used f p zero c v used nz = refl
free_from-update_used f p (suc n) c v used nz =
    ground (arith, free_from-update_used f (p + 1) n c v used nz)

-- The first of the free clusters is an entry of the table past its first two, and is free.
pub free_clusters-IsFirstFree :
    {Store : Type 0} (s : Fs Store) {c : ℕ} {cs : List ℕ}
    → free_clusters s ≡ c ∷ cs
    → IsFirstFree s.fat 2 (s.fat_end - 2) c
unfolding free_clusters
free_clusters-IsFirstFree s e = free_from-IsFirstFree s.fat 2 (s.fat_end - 2) e

-- The number is not on the list.
abbrev pub NotIn : ℕ → List ℕ → Type 0
NotIn x [] = Unit
NotIn x (y ∷ ys) = (x ≢ y) × NotIn x ys

free_from-NotIn : (f : ℕ → ℕ) (p n c : ℕ) → f c ≢ 0 → NotIn c (free_from f p n)
unfolding free_from
free_from-NotIn f p zero c used = tt
free_from-NotIn f p (suc n) c used = elim (Bool-cases (f p == 0)) [
  | inl free ↦ rw free (ground arith, free_from-NotIn f (p + 1) n c used)
  | inr taken ↦ rw taken (free_from-NotIn f (p + 1) n c used)
]

NotIn-append : (c : ℕ) (xs ys : List ℕ) → NotIn c (xs ++ ys) → NotIn c xs
NotIn-append c [] ys h = tt
NotIn-append c (x ∷ xs) ys h = (h.0, NotIn-append c xs ys h.1)

-- A cluster in use is not among the free ones.
pub free_clusters-NotIn :
    {Store : Type 0} (s : Fs Store) (c : ℕ) (xs ys : List ℕ)
    → free_clusters s ≡ xs ++ ys
    → s.fat c ≢ 0
    → NotIn c xs
unfolding free_clusters
free_clusters-NotIn s c xs ys e used =
    NotIn-append c xs ys (rw e at (free_from-NotIn s.fat 2 (s.fat_end - 2) c used))
