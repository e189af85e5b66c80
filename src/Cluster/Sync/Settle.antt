-- ===== src/Cluster/Sync/Settle.antt =====
-- The loops of cluster_check_sessions.
use mathlib.Core.Path.{subst}
use l2tpns.Prelude.{
  ℕ, zero, suc, ◌+◌, ◌≤◌, ◌<◌, ◌≡◌, ◌≢◌, ◌⊎◌, inl, inr, refl, sym, ap, ◌∙◌, not, ◌&&◌, ltb, ◌==◌,
  if◌then◌else◌, arith, ℕ_discrete, Bool-cases,
}
use l2tpns.IpMap.{put_at}
use l2tpns.IpMap.Lookup.{at_same, at_other}
use l2tpns.Cluster.Sync.{Kind, session, bundle, tunnel, undef, free, settle}
use l2tpns.Cluster.Sync.Count.{count}

-- What an entry becomes: above the highest that the master uses, an undefined one is free.
abbrev pub settled : Kind → ℕ → ℕ → ℕ → ℕ
settled k high i v = if ltb high i && v == undef k then free k else v

pub free_defined : (k : Kind) → free k ≢ undef k
free_defined session = λ e. omega arith
free_defined bundle = λ e. omega arith
free_defined tunnel = λ e. omega arith

-- The table after one round of the loop.
abbrev pub round : Kind → ℕ → ℕ → (ℕ → ℕ) → ℕ → ℕ
round k high i t = if ltb high i && t i == undef k then put_at t i (free k) else t

pub round_other : (k : Kind) (high i : ℕ) (t : ℕ → ℕ) (j : ℕ) → j ≢ i → round k high i t j ≡ t j
round_other k high i t j ne = elim (Bool-cases (ltb high i && t i == undef k)) [
  | inl yes_ ↦ rw yes_ (at_other t i j (free k) ne)
  | inr no_ ↦ rw no_ refl
]

pub round_here : (k : Kind) (high i : ℕ) (t : ℕ → ℕ) → round k high i t i ≡ settled k high i (t i)
round_here k high i t = elim (Bool-cases (ltb high i && t i == undef k)) [
  | inl yes_ ↦ rw yes_ (at_same t i i (free k) refl)
  | inr no_ ↦ rw no_ refl
]

pub settle_outside :
    (k : Kind) (high left i : ℕ) (t : ℕ → ℕ) (n j : ℕ)
    → (j < i) ⊎ (i + left ≤ j)
    → (settle k high left i t n).0 j ≡ t j
unfolding settle
settle_outside k high zero i t n j h = refl
settle_outside k high (suc left) i t n j h =
    settle_outside k high left (i + 1) (round k high i t)
      (if not (ltb high i) && t i == undef k then n + 1 else n) j (omega arith)
    ∙ round_other k high i t j (λ e. omega arith)

pub settle_inside :
    (k : Kind) (high left i : ℕ) (t : ℕ → ℕ) (n j : ℕ)
    → i ≤ j
    → j < i + left
    → (settle k high left i t n).0 j ≡ settled k high j (t j)
unfolding settle
settle_inside k high zero i t n j p q = absurd (omega arith)
settle_inside k high (suc left) i t n j p q =
    let n' : ℕ = if not (ltb high i) && t i == undef k then n + 1 else n in
    elim (ℕ_discrete j i) [
      | yes e ↦
          settle_outside k high left (i + 1) (round k high i t) n' j (inl (omega arith))
          ∙ subst (λ m. round k high i t m ≡ settled k high m (t m)) (sym e) (round_here k high i t)
      | no ne ↦
          settle_inside k high left (i + 1) (round k high i t) n' j (ground arith) (omega arith)
          ∙ ap (settled k high j) (round_other k high i t j ne)
    ]

pub one_round :
    (k : Kind) (high i v w n c : ℕ)
    → w ≡ settled k high i v
    → (if not (ltb high i) && v == undef k then n + 1 else n) + c
      ≡ n + (if w == undef k then suc c else c)
one_round k high i v w n c e = let f = free_defined k in ground arith

pub settle_count :
    (k : Kind) (high left i : ℕ) (t : ℕ → ℕ) (n : ℕ)
    → (settle k high left i t n).1 ≡ n + count k left i (settle k high left i t n).0
unfolding settle count
settle_count k high zero i t n = omega arith
settle_count k high (suc left) i t n =
    let n' : ℕ = if not (ltb high i) && t i == undef k then n + 1 else n in
    let rest = settle k high left (i + 1) (round k high i t) n' in
    settle_count k high left (i + 1) (round k high i t) n'
    ∙ one_round k high i (t i) (rest.0 i) n (count k left (i + 1) rest.0) (
        settle_outside k high left (i + 1) (round k high i t) n' i (inl (omega arith))
        ∙ round_here k high i t)

abbrev pub highest : ℕ → ℕ → ℕ → Kind → ℕ
highest highsession highbundle hightunnel session = highsession
highest highsession highbundle hightunnel bundle = highbundle
highest highsession highbundle hightunnel tunnel = hightunnel
