-- ===== src/Cluster/Sync/Load.antt =====
-- An entry that cluster_recv_session and its like receive: it is stored, or load_session rejects it.
use l2tpns.Prelude.{
  ℕ, ◌+◌, ◌%◌, ◌^◌, ◌≤◌, ◌<◌, ◌≡◌, ◌≢◌, ◌⊎◌, ◌↔◌, inl, inr, refl, sym, ap, ◌∙◌, Bool, true, false,
  arith, Bool-cases,
}
use l2tpns.Cluster.Sync.{
  Kind, session, bundle, tunnel, table_size, undef, Sync, entries, lacking, is_sane,
  cluster_uptodate, cluster_recv,
}
use l2tpns.Cluster.Sync.Copy.{
  Exact, Complete, loaded, recv_loaded, recv_rejected, uncounted, undefined_counted, loaded-Exact,
  Overwritten, loaded-entries, loaded_late,
}
use l2tpns.Cluster.Sync.Uptodate.{
  uptodate-lacking, uptodate_iff, uptodate-Exact, uptodate-entries, uptodate-Complete,
}

-- What load_session takes: an ip_pool_index that is negative or within the pool, and a tunnel
-- within the table; a bundle or a tunnel is always taken.
abbrev pub Loadable : Kind → ℕ → ℕ → Type 0
Loadable session new pool = ((pool % 2 ^ 32 < 131072) ⊎ (2 ^ 31 ≤ pool % 2 ^ 32)) × (new < 65535)
Loadable bundle new pool = Unit {0}
Loadable tunnel new pool = Unit {0}

pub Loadable-cases :
    (k : Kind) (new pool : ℕ)
    → (Loadable k new pool × (is_sane k new pool ≡ true))
      ⊎ ((¬ Loadable k new pool) × (k ≡ session) × (is_sane session new pool ≡ false))
Loadable-cases session new pool = elim (Bool-cases (is_sane session new pool)) [
  | inl sane ↦ inl (ground arith, sane)
  | inr strange ↦ inr (λ l. ground arith, refl, strange)
]
Loadable-cases bundle new pool = inl (tt, refl)
Loadable-cases tunnel new pool = inl (tt, refl)

pub Loadable-sane : (k : Kind) (new pool : ℕ) → Loadable k new pool → is_sane k new pool ≡ true
Loadable-sane session new pool (p, t) = ground arith
Loadable-sane bundle new pool l = refl
Loadable-sane tunnel new pool l = refl

-- The entry is stored, and the numbers and the test are right.
abbrev pub Stored : Kind → ℕ → ℕ → Sync → Sync × Bool → Type 0
Stored k more new s (s', done) =
    (done ≡ true)
    × Overwritten k more new s s'
    × Exact s'
    × ((s'.iam_uptodate ≡ true) ↔ Complete s')

-- No entry is stored, and the number of undefined ones is lower if this is one.
abbrev pub Miscounted : Kind → ℕ → Sync → Sync × Bool → Type 0
Miscounted k more s (s', done) =
    (done ≡ true)
    × ((k' : Kind) (i : ℕ) → entries s' k' i ≡ entries s k' i)
    × (entries s k more ≡ undef k → lacking s k ≡ lacking s' k + 1)
    × (entries s k more ≢ undef k → lacking s k ≡ lacking s' k)
    × ((s'.iam_uptodate ≡ true) ↔ ((k' : Kind) → lacking s' k' ≡ 0))

pub cluster_recv-Stored :
    (k : Kind) (more new pool : ℕ) (s : Sync)
    → s.iam_uptodate ≡ false
    → Exact s
    → 0 < more
    → more < table_size k
    → new ≢ undef k
    → is_sane k new pool ≡ true
    → Stored k more new s (cluster_recv k more new pool s)
cluster_recv-Stored k more new pool s late h pos small ne sane =
    let l = loaded k more new s in
    let exact = loaded-Exact k more new s h pos small ne in
    let same : (k' : Kind) (i : ℕ) → entries (cluster_uptodate l) k' i ≡ entries l k' i =
      λ k' i. ap (λ t. t i) (uptodate-entries l k') in
    rw (recv_loaded k more new pool s late small sane) (
      refl,
      λ k' i.
          let (at, off) = loaded-entries k k' more new s i in
          (λ e. same k' i ∙ at e, λ e. same k' i ∙ off e),
      uptodate-Exact l exact,
      uptodate-Complete l (loaded_late k more new s late) exact,
    )

uncounted-entries :
    (more : ℕ) (s : Sync) (k : Kind) (i : ℕ) → entries (uncounted more s) k i ≡ entries s k i
uncounted-entries more s session i = refl
uncounted-entries more s bundle i = refl
uncounted-entries more s tunnel i = refl

pub cluster_recv-Miscounted :
    (more new pool : ℕ) (s : Sync)
    → s.iam_uptodate ≡ false
    → Exact s
    → 0 < more
    → more < table_size session
    → is_sane session new pool ≡ false
    → Miscounted session more s (cluster_recv session more new pool s)
cluster_recv-Miscounted more new pool s late h pos small strange =
    let l = uncounted more s in
    let same = uptodate-lacking l in
    let (up, down) = uptodate_iff l late in
    let kept = same session in
    let some_ = undefined_counted s h more pos small in
    rw (recv_rejected more new pool s late small strange) (
      refl,
      λ k' i. ap (λ t. t i) (uptodate-entries l k') ∙ uncounted-entries more s k' i,
      λ e. let one = some_ e in ground arith,
      λ e. ground arith,
      (λ u k'. same k' ∙ up u k', λ z. down (λ k'. sym (same k') ∙ z k')),
    )
