-- ===== src/Fat32/Dumps/Chains.antt =====
-- The clusters that are printed for a file, against the chain that an allocation made.
use rpi0_naivegfs.Base.{
  ℕ, zero, suc, ◌<◌, ◌≤◌, ◌≡◌, refl, true, leb, List, [], ◌∷◌, done, length, arith, ne→not_==,
  and_then, pure, Bool, ◌∙◌, ltb, ltb→lt, le→leb, if◌then◌else◌, ◌&&◌, Bool-cases, inl, inr,
}
use rpi0_naivegfs.Fat32.Layout.{cluster_no, fat32_terminal_cluster_no}
use rpi0_naivegfs.Fat32.State.{Fs}
use rpi0_naivegfs.Fat32.Table.{fat32_next_cluster}
use rpi0_naivegfs.Fat32.Files.Chain.{IsChain}
use rpi0_naivegfs.Fat32.Dumps.{cluster_list}
use rpi0_naivegfs.Fat32.Dumps.Inspect.{inspect_clusters}

-- Numbers of clusters behind the root directory's, below the end mark.
abbrev pub AllClusters : List ℕ → Type 0
AllClusters [] = Unit
AllClusters (c ∷ cs) = (2 < c) × (c < fat32_terminal_cluster_no) × AllClusters cs

cluster_list-end :
    {Store : Type 0} (n : ℕ) (s : Fs Store)
    → cluster_list (suc n) fat32_terminal_cluster_no s ≡ done ([], true) s
unfolding cluster_list
cluster_list-end n s = refl

cluster_list_step :
    {Store : Type 0} (n c : ℕ) (s : Fs Store)
    → s.did_init ≡ true
    → 2 < c
    → c < fat32_terminal_cluster_no
    → cluster_list (suc n) c s
      ≡ and_then
          (cluster_list n (cluster_no (s.fat c)) s)
          (λ (p : List ℕ × Bool). pure (c ∷ p.0, p.1))
unfolding cluster_list fat32_next_cluster
cluster_list_step n c s ready lo hi =
    rw (ne→not_== c fat32_terminal_cluster_no (λ e. omega (arith, e)), gt→not_leb c 2 lo, ready)
  where
    gt→not_leb : (a b : ℕ) → b < a → leb a b ≡ Bool.false
    gt→not_leb a b h = ground arith

-- Clusters in front of the first one that is not behind the root directory's, and whether there is
-- none such.
abbrev pub front : List ℕ → List ℕ
front [] = []
front (c ∷ cs) = if ltb 2 c then c ∷ front cs else []

abbrev pub all_behind_root : List ℕ → Bool
all_behind_root [] = true
all_behind_root (c ∷ cs) = ltb 2 c && all_behind_root cs

abbrev pub AllInTable : List ℕ → Type 0
AllInTable [] = Unit
AllInTable (c ∷ cs) = (c < fat32_terminal_cluster_no) × AllInTable cs

cluster_list-root :
    {Store : Type 0} (n c : ℕ) (s : Fs Store)
    → c ≤ 2
    → cluster_list (suc n) c s ≡ done ([], Bool.false) s
unfolding cluster_list
cluster_list-root n c s h =
    rw (ne→not_== c fat32_terminal_cluster_no (λ e. omega (arith, e)), le→leb c 2 h)

cluster_list-first :
    {Store : Type 0} (n c : ℕ) (cs : List ℕ) (s : Fs Store)
    → s.did_init ≡ true
    → c < fat32_terminal_cluster_no
    → (2 < c → cluster_list n (cluster_no (s.fat c)) s ≡ done (front cs, all_behind_root cs) s)
    → cluster_list (suc n) c s ≡ done (front (c ∷ cs), all_behind_root (c ∷ cs)) s
cluster_list-first n c cs s ready hi next = elim (Bool-cases (ltb 2 c)) [
  | inl behind ↦
      let lo = ltb→lt 2 c behind in rw (behind, cluster_list_step n c s ready lo hi, next lo)
  | inr root ↦ rw (root, cluster_list-root n c s (ground arith))
]

-- In an initialised state let the table lead from c through the clusters cs to the end mark, all of
-- them below the end mark, and let there be more rounds than these clusters. Then the clusters in
-- front of the first one up to 2 are printed, and after them "PRE-ROOT" if there is such a one, and
-- "TERM" if all are above 2; from the root directory's cluster, 2, no cluster is printed.
pub cluster_list-IsChain :
    {Store : Type 0} (n c : ℕ) (cs : List ℕ) (s : Fs Store)
    → s.did_init ≡ true
    → IsChain s.fat c cs
    → AllInTable (c ∷ cs)
    → length (c ∷ cs) < n
    → cluster_list n c s ≡ done (front (c ∷ cs), all_behind_root (c ∷ cs)) s
cluster_list-IsChain zero c cs s ready chain all fuel = absurd (omega arith)
cluster_list-IsChain (suc zero) c cs s ready chain all fuel = absurd (omega arith)
cluster_list-IsChain (suc (suc n)) c [] s ready chain (hi, rest) fuel =
    cluster_list-first (suc n) c [] s ready hi (λ lo. rw chain (cluster_list-end n s))
cluster_list-IsChain (suc (suc n)) c (d ∷ cs) s ready (at, chain) (hi, (hi2, rest)) fuel =
    let next : cluster_no (s.fat c) ≡ d = omega (arith, at) in
    let later = cluster_list-IsChain (suc n) d cs s ready chain (hi2, rest) (omega arith) in
    cluster_list-first (suc n) c (d ∷ cs) s ready hi (λ lo. rw next later)

inspect_clusters_step :
    {Store : Type 0} (n c : ℕ) (s : Fs Store)
    → s.did_init ≡ true
    → 2 < cluster_no (s.fat c)
    → cluster_no (s.fat c) < fat32_terminal_cluster_no
    → inspect_clusters (suc n) c s
      ≡ and_then
          (inspect_clusters n (cluster_no (s.fat c)) s)
          (λ (p : List ℕ × Bool). pure (c ∷ p.0, p.1))
unfolding inspect_clusters fat32_next_cluster
inspect_clusters_step n c s ready lo hi = rw (
  ready,
  ne→not_== (cluster_no (s.fat c)) fat32_terminal_cluster_no (λ e. omega (arith, e)),
  gt→not_leb (cluster_no (s.fat c)) 2 lo,
)
  where
    gt→not_leb : (a b : ℕ) → b < a → leb a b ≡ Bool.false
    gt→not_leb a b h = ground arith

-- `fat32_inspect_dir` names the same clusters of such a file as `fat32_dump_dir_rec`, and no "PRE-ROOT".
pub inspect_clusters-IsChain :
    {Store : Type 0} (n c : ℕ) (cs : List ℕ) (s : Fs Store)
    → s.did_init ≡ true
    → IsChain s.fat c cs
    → AllClusters cs
    → length cs < n
    → inspect_clusters n c s ≡ done (c ∷ cs, Bool.false) s
unfolding inspect_clusters fat32_next_cluster
inspect_clusters-IsChain zero c cs s ready chain all fuel = absurd (omega arith)
inspect_clusters-IsChain (suc n) c [] s ready chain all fuel = rw (ready, chain)
inspect_clusters-IsChain (suc n) c (d ∷ ds) s ready (at, chain) (lo, hi, rest) fuel =
    let next : cluster_no (s.fat c) ≡ d = omega (arith, at) in
    inspect_clusters_step n c s ready (omega (arith, next)) (omega (arith, next))
    ∙ (rw (next, inspect_clusters-IsChain n d ds s ready chain rest (omega arith)))
