-- ===== src/Cluster/Sync/Uptodate.antt =====
-- cluster_uptodate, against the tables and the numbers.
use mathlib.Core.Path.{subst}
use l2tpns.Prelude.{
  ℕ, ◌+◌, ◌≡◌, ◌⊎◌, ◌↔◌, inl, inr, refl, sym, ap, ◌∙◌, Bool, true, false, if◌then◌else◌, arith,
}
use l2tpns.Cluster.Sync.{Kind, session, bundle, tunnel, Sync, entries, lacking, cluster_uptodate}
use l2tpns.Cluster.Sync.Copy.{Exact, Complete, lacks_none}

pub all_zero :
    (s : Sync)
    → s.undefined_sessions ≡ 0
    → s.undefined_bundles ≡ 0
    → s.undefined_tunnels ≡ 0
    → (k : Kind) → lacking s k ≡ 0
all_zero s a b c session = a
all_zero s a b c bundle = b
all_zero s a b c tunnel = c

pub uptodate_iff :
    (s : Sync)
    → s.iam_uptodate ≡ false
    → ((cluster_uptodate s).iam_uptodate ≡ true) ↔ ((k : Kind) → lacking s k ≡ 0)
unfolding cluster_uptodate
uptodate_iff s late = (
  λ h. all_zero s (ground arith) (ground arith) (ground arith),
  λ z.
      let a : s.undefined_sessions ≡ 0 = z session in
      let b : s.undefined_bundles ≡ 0 = z bundle in
      let c : s.undefined_tunnels ≡ 0 = z tunnel in ground arith,
)

pub one_of_two {ℓ} :
    {A : Type ℓ} (b c : Bool) (x y : A)
    → ((if b then x else if c then x else y) ≡ x) ⊎ ((if b then x else if c then x else y) ≡ y)
one_of_two true c x y = inl refl
one_of_two false true x y = inl refl
one_of_two false false x y = inr refl

pub uptodate_form :
    (s : Sync)
    → (cluster_uptodate s ≡ s)
      ⊎ (cluster_uptodate s ≡ record s { iam_uptodate = true; advertised = s.advertised + 1 })
unfolding cluster_uptodate
uptodate_form s = one_of_two s.iam_uptodate _ s _

-- The tables and the numbers are not touched.
pub uptodate_tables :
    (s : Sync) (P : Sync → Type 0)
    → ((u : Bool) (n : ℕ) → P (record s { iam_uptodate = u; advertised = n }))
    → P (cluster_uptodate s)
uptodate_tables s P h = elim (uptodate_form s) [
  | inl e ↦ subst P (sym e) (h s.iam_uptodate s.advertised)
  | inr e ↦ subst P (sym e) (h true (s.advertised + 1))
]

pub uptodate-Exact : (s : Sync) → Exact s → Exact (cluster_uptodate s)
uptodate-Exact s h = uptodate_tables s Exact (λ u n. same_Exact s u n h)
  where
    same_Exact :
        (s : Sync) (u : Bool) (n : ℕ)
        → Exact s
        → Exact (record s { iam_uptodate = u; advertised = n })
    same_Exact s u n h session = h session
    same_Exact s u n h bundle = h bundle
    same_Exact s u n h tunnel = h tunnel

pub same_entries :
    (s : Sync) (u : Bool) (n : ℕ) (k : Kind)
    → entries (record s { iam_uptodate = u; advertised = n }) k ≡ entries s k
same_entries s u n session = refl
same_entries s u n bundle = refl
same_entries s u n tunnel = refl

pub uptodate-entries : (s : Sync) (k : Kind) → entries (cluster_uptodate s) k ≡ entries s k
uptodate-entries s k =
    uptodate_tables s (λ s'. entries s' k ≡ entries s k) (λ u n. same_entries s u n k)

pub same_lacking :
    (s : Sync) (u : Bool) (n : ℕ) (k : Kind)
    → lacking (record s { iam_uptodate = u; advertised = n }) k ≡ lacking s k
same_lacking s u n session = refl
same_lacking s u n bundle = refl
same_lacking s u n tunnel = refl

pub uptodate-lacking : (s : Sync) (k : Kind) → lacking (cluster_uptodate s) k ≡ lacking s k
uptodate-lacking s k =
    uptodate_tables s (λ s'. lacking s' k ≡ lacking s k) (λ u n. same_lacking s u n k)

pub uptodate-Complete :
    (s : Sync)
    → s.iam_uptodate ≡ false
    → Exact s
    → ((cluster_uptodate s).iam_uptodate ≡ true) ↔ Complete (cluster_uptodate s)
uptodate-Complete s late h =
    let (f, g) = uptodate_iff s late in
    let (c, d) = lacks_none s h in
    let same : (k : Kind) (i : ℕ) → entries (cluster_uptodate s) k i ≡ entries s k i =
      λ k i. ap (λ t. t i) (uptodate-entries s k) in
    (
      λ u k i p q x. d (f u) k i p q (sym (same k i) ∙ x),
      λ full. g (c (λ k i p q x. full k i p q (same k i ∙ x))),
    )
