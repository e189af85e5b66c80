-- ===== src/Cluster/Sync/Count.antt =====
-- How many entries of a table are undefined.
use l2tpns.Prelude.{
  ℕ, zero, suc, ◌+◌, ◌≤◌, ◌<◌, ◌≡◌, ◌≢◌, refl, sym, ap, ◌∙◌, Bool, true, false, ◌==◌, if◌then◌else◌,
  arith, ℕ_discrete,
}
use l2tpns.IpMap.{put_at}
use l2tpns.IpMap.Lookup.{at_same, at_other}
use l2tpns.Cluster.Sync.{Kind, undef}

-- Those among `left` entries from entry `i` on.
unfoldable pub count : Kind → ℕ → ℕ → (ℕ → ℕ) → ℕ
count k zero i t = 0
count k (suc left) i t =
    let rest = count k left (i + 1) t in if t i == undef k then suc rest else rest

pub count_le : (k : Kind) (left i : ℕ) (t : ℕ → ℕ) → count k left i t ≤ left
unfolding count
count_le k zero i t = omega arith
count_le k (suc left) i t = ground (arith, count_le k left (i + 1) t)

-- A count depends only on the entries that it looks at.
pub count_same :
    (k : Kind) (left i : ℕ) (t u : ℕ → ℕ)
    → ((j : ℕ) → i ≤ j → j < i + left → t j ≡ u j)
    → count k left i t ≡ count k left i u
unfolding count
count_same k zero i t u h = refl
count_same k (suc left) i t u h =
    let here = h i (omega arith) (omega arith) in
    let rest = count_same k left (i + 1) t u (λ j p q. h j (omega arith) (omega arith)) in
    rw (here, rest) refl

under_test :
    (b : Bool) (m n : ℕ) → m ≡ suc n → (if b then suc m else m) ≡ suc (if b then suc n else n)
under_test true m n e = ap suc e
under_test false m n e = e

-- An undefined entry becomes defined.
pub count-put_undef :
    (k : Kind) (left i j v : ℕ) (t : ℕ → ℕ)
    → i ≤ j
    → j < i + left
    → t j ≡ undef k
    → v ≢ undef k
    → count k left i t ≡ suc (count k left i (put_at t j v))
unfolding count
count-put_undef k zero i j v t p q h ne = absurd (omega arith)
count-put_undef k (suc left) i j v t p q h ne = elim (ℕ_discrete i j) [
  | yes e ↦
      let old : t i ≡ undef k = ap t e ∙ h in
      let new : put_at t j v i ≡ v = at_same t j i v e in
      let rest =
        count_same k left (i + 1) t (put_at t j v)
          (λ m a b. sym (at_other t j m v (λ f. omega arith))) in
      let is_old : (t i == undef k) ≡ true = ground arith in
      let is_new : (put_at t j v i == undef k) ≡ false = ground arith in
      rw (is_old, is_new) (ap suc rest)
  | no other ↦
      let here : put_at t j v i ≡ t i = at_other t j i v other in
      let rest = count-put_undef k left (i + 1) j v t (omega arith) (omega arith) h ne in
      let same : (put_at t j v i == undef k) ≡ (t i == undef k) = ap (λ x. x == undef k) here in
      rw same (
        under_test (t i == undef k) (count k left (i + 1) t) (count k left (i + 1) (put_at t j v))
          rest)
]

-- A defined entry changes to another.
pub count-put_defined :
    (k : Kind) (left i j v : ℕ) (t : ℕ → ℕ)
    → t j ≢ undef k
    → v ≢ undef k
    → count k left i (put_at t j v) ≡ count k left i t
unfolding count
count-put_defined k zero i j v t h ne = refl
count-put_defined k (suc left) i j v t h ne =
    ground (arith, count-put_defined k left (i + 1) j v t h ne, ap t)

pub none_counted :
    (k : Kind) (left i j : ℕ) (t : ℕ → ℕ)
    → count k left i t ≡ 0
    → i ≤ j
    → j < i + left
    → t j ≢ undef k
unfolding count
none_counted k zero i j t z p q = absurd (omega arith)
none_counted k (suc left) i j t z p q = elim (ℕ_discrete i j) [
  | yes e ↦ λ h. let here : t i ≡ undef k = ap t e ∙ h in absurd (ground arith)
  | no other ↦ none_counted k left (i + 1) j t (ground arith) (omega arith) (omega arith)
]

pub counts_none :
    (k : Kind) (left i : ℕ) (t : ℕ → ℕ)
    → ((j : ℕ) → i ≤ j → j < i + left → t j ≢ undef k)
    → count k left i t ≡ 0
unfolding count
counts_none k zero i t h = refl
counts_none k (suc left) i t h =
    let here = h i (omega arith) (omega arith) in
    let rest = counts_none k left (i + 1) t (λ j p q. h j (omega arith) (omega arith)) in
    ground arith
