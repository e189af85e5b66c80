-- ===== src/Cluster/Takeover/Entries.antt =====
-- The bundles and the tunnels that a new master has taken over.
use mathlib.Core.Path.{subst}
use l2tpns.Prelude.{
  ℕ, ◌+◌, ◌≤◌, ◌<◌, ◌≡◌, ◌≢◌, ◌⊎◌, inl, inr, refl, sym, ap, ◌∙◌, not, ◌&&◌, ltb, ◌==◌,
  if◌then◌else◌, arith, ℕ_discrete, Bool-cases,
}
use l2tpns.IpMap.{put_at}
use l2tpns.IpMap.Lookup.{at_same, at_other}
use l2tpns.Cluster.Sync.{Kind, undef, free}
use l2tpns.Cluster.Takeover.{walk, Numbered, define_entry}
use l2tpns.Cluster.Takeover.Walk.{walk_keeps}

-- An undefined entry becomes free.
abbrev pub defined_state : Kind → ℕ → ℕ
defined_state k state = if state == undef k then free k else state

-- The first `size` entries of `t` are defined, and the number is that of the highest in use.
abbrev pub Defined : Kind → (ℕ → ℕ) → ℕ → Numbered → Type 0
Defined k t size r =
    ((j : ℕ) → j < size → r.states j ≡ defined_state k (t j))
    × ((j : ℕ) → j < size → r.states j ≢ free k → j ≤ r.highest)
    × ((r.highest ≡ 0) ⊎ ((r.highest < size) × (r.states r.highest ≢ free k)))

abbrev Fresh : Kind → (ℕ → ℕ) → ℕ → Numbered → Type 0
Fresh k t i r = ((j : ℕ) → i ≤ j → r.states j ≡ t j) × Defined k t i r

define_entry-Fresh :
    (k : Kind) (t : ℕ → ℕ) (i : ℕ) (r : Numbered)
    → Fresh k t i r
    → Fresh k t (i + 1) (define_entry k r i)
unfolding define_entry
define_entry-Fresh k t i r (fresh, (old, below, top)) =
    let first = fresh i (omega arith) in
    let state = defined_state k (r.states i) in
    let u = put_at r.states i state in
    let here : (j : ℕ) → j ≡ i → u j ≡ state = λ j e. at_same r.states i j state e in
    let off : (j : ℕ) → j ≢ i → u j ≡ r.states j = λ j ne. at_other r.states i j state ne in
    (
      λ j h. off j (λ e. omega arith) ∙ fresh j (omega arith),
      (
        λ j h. elim (ℕ_discrete j i) [
          | yes e ↦ here j e ∙ ap (defined_state k) (first ∙ ap t (sym e))
          | no ne ↦ off j ne ∙ old j (omega arith)
        ],
        λ j h used. elim (ℕ_discrete j i) [
          | yes e ↦
              let s : state ≢ free k = λ z. used (here j e ∙ z) in
              raised k state i r.highest j s (omega arith)
          | no ne ↦
              let le = below j (omega arith) (λ z. used (off j ne ∙ z)) in
              kept state i r.highest j le
        ],
        new_top k u state i r.highest (here i refl) (elim top [
          | inl z ↦ inl z
          | inr (lt, used) ↦ inr (lt, λ z. used (sym (off r.highest (λ e. omega arith)) ∙ z))
        ]),
      ),
    )
  where
    raised :
        (k : Kind) (state i top j : ℕ)
        → state ≢ 0
        → j ≤ i
        → j ≤ (if not (state == free k) && ltb top i then i else top)
    raised k state i top j s h = ground arith

    kept : (state i top j : ℕ) → j ≤ top → j ≤ (if not (state == 0) && ltb top i then i else top)
    kept state i top j h = ground arith

    new_top :
        (k : Kind) (u : ℕ → ℕ) (state i top : ℕ)
        → u i ≡ state
        → (top ≡ 0) ⊎ ((top < i) × (u top ≢ free k))
        → let top' = if not (state == free k) && ltb top i then i else top in
          (top' ≡ 0) ⊎ ((top' < i + 1) × (u top' ≢ free k))
    new_top k u state i top e h = elim (Bool-cases (not (state == 0) && ltb top i)) [
      | inl yes_ ↦ rw yes_ (inr (omega arith, λ z. ground arith))
      | inr no_ ↦ rw no_ (elim h [ inl z ↦ inl z | inr (lt, used) ↦ inr (omega arith, used) ])
    ]

pub walk-Defined :
    (k : Kind) (size : ℕ) (r : Numbered)
    → Defined k r.states size (walk (define_entry k) size 0 (record r { highest = 0 }))
walk-Defined k size r =
    subst (λ n. Defined k r.states n (walk (define_entry k) size 0 (record r { highest = 0 })))
      (omega arith)
      (walk_keeps (Fresh k r.states) (define_entry k) size 0 (record r { highest = 0 })
        (λ j s a b. define_entry-Fresh k r.states j s)
        (λ j h. refl, (λ j h. absurd (omega arith), λ j h. absurd (omega arith), inl refl))).1
