-- ===== src/Cluster/Sync/Tests.antt =====
-- Runs of a slave's count of its undefined entries, and the theorems at concrete states.
use l2tpns.Prelude.{
  ℕ, ◌≤◌, ◌<◌, ◌≡◌, ◌≢◌, ◌⊎◌, ◌↔◌, inl, inr, refl, sym, ap, ◌∙◌, List, [], ◌∷◌, true, false, arith,
  ℕ_discrete,
}
use l2tpns.IpMap.{put_at}
use l2tpns.IpMap.Lookup.{at_same, at_other}
use l2tpns.Cluster.Sync.{
  Kind, session, bundle, tunnel, table_size, undef, Sync, entries, cluster_uptodate, cluster_recv,
  settle, cluster_check_sessions,
}
use l2tpns.Cluster.Sync.Count.{count, count-put_undef, counts_none}
use l2tpns.Cluster.Sync.Copy.{Exact, Complete}
use l2tpns.Cluster.Sync.Load.{Loadable, Stored, Miscounted}
use l2tpns.Cluster.Sync.Receive.{
  cluster_recv_lem, Item, AllValid, Carried, receive_items, receive_items_uptodate,
}
use l2tpns.Cluster.Sync.Settle.{settled, highest}
use l2tpns.Cluster.Sync.Check.{AllAbove, cluster_check_sessions_lem}

-- Session 5 is undefined, and nothing else.
abbrev missing : ℕ → ℕ
missing = put_at (λ i. 0) 5 65535

abbrev slave : Sync
slave = record {
  sessions = missing;
  bundles = λ i. 0;
  tunnels = λ i. 0;
  undefined_sessions = 1;
  undefined_bundles = 0;
  undefined_tunnels = 0;
  iam_uptodate = false;
  sessionfree = 0;
  advertised = 0;
}

undef_zero : (n : ℕ) → n ≡ 0 → n ≢ 65535
undef_zero n z h = omega arith

one_missing : (size : ℕ) → 4 < size → 1 ≡ count session size 1 missing
one_missing size p =
    let down =
      count-put_undef session size 1 5 0 missing (omega arith) (omega arith)
        (at_same (λ i. 0) 5 5 65535 refl) (undef_zero 0 refl) in
    let none = counts_none session size 1 (put_at missing 5 0) (λ j a b. filled j) in omega arith
  where
    filled : (j : ℕ) → put_at missing 5 0 j ≢ 65535
    filled j = elim (ℕ_discrete j 5) [
      | yes e ↦ λ h. undef_zero (put_at missing 5 0 j) (at_same missing 5 j 0 e) h
      | no n ↦ λ h.
          undef_zero (put_at missing 5 0 j)
            (at_other missing 5 j 0 n ∙ at_other (λ i. 0) 5 j 65535 n) h
    ]

none_missing : (k : Kind) (size : ℕ) → 0 ≢ undef k → 0 ≡ count k size 1 (λ i. 0)
none_missing k size ne = sym (counts_none k size 1 (λ i. 0) (λ j p q. ne))

slave-Exact : Exact slave
slave-Exact session = one_missing 59999 (omega arith)
slave-Exact bundle = none_missing bundle 59999 (λ h. omega arith)
slave-Exact tunnel = none_missing tunnel 65534 (λ h. omega arith)

slave-lacks : ¬ Complete slave
slave-lacks full = full session 5 (omega arith) (omega arith) (at_same (λ i. 0) 5 5 65535 refl)

cluster_recv_lem_example :
    let out = cluster_recv session 5 7 200000 slave in
    (table_size session ≤ 5) × (out ≡ (slave, false))
    ⊎ (5 < table_size session)
      × (Loadable session 7 200000 × Stored session 5 7 slave out
          ⊎ (¬ Loadable session 7 200000) × Miscounted session 5 slave out)
cluster_recv_lem_example =
    cluster_recv_lem session 5 7 200000 slave refl slave-Exact (omega arith) (λ h. omega arith)

-- Of that session, whose ip_pool_index is behind the pool, nothing is stored, and the slave takes
-- itself for up to date.
wrongly_uptodate :
    let (s', done) = cluster_recv session 5 7 200000 slave in
    (s'.iam_uptodate ≡ true) × (s'.sessions 5 ≡ 65535)
unfolding cluster_recv cluster_uptodate
wrongly_uptodate = (refl, refl)

abbrev carried : List Item
carried =
    record { kind = tunnel; id = 3; value = 1; ip_pool_index = 0 }
    ∷ record { kind = session; id = 5; value = 7; ip_pool_index = 9 }
    ∷ []

carried-AllValid : AllValid carried
carried-AllValid = (
  (omega arith, omega arith, λ h. omega arith, tt),
  ((omega arith, omega arith, λ h. omega arith, (inl (omega arith), omega arith)), tt),
)

covered :
    (k : Kind) (i : ℕ)
    → 0 < i
    → i < table_size k
    → (entries slave k i ≢ undef k) ⊎ Carried k i carried
covered session i p q = elim (ℕ_discrete i 5) [
  | yes e ↦ inr (inr (inl (refl, e)))
  | no n ↦ inl (λ h. undef_zero (missing i) (at_other (λ i. 0) 5 i 65535 n) h)
]
covered bundle i p q = inl (λ h. omega arith)
covered tunnel i p q = inl (λ h. omega arith)

receive_items_uptodate_example : (receive_items carried slave).iam_uptodate ≡ true
receive_items_uptodate_example =
    receive_items_uptodate carried slave carried-AllValid slave-Exact slave-lacks refl covered

cluster_check_sessions_lem_example :
    let s' = cluster_check_sessions 3 9 0 4 slave in
    (¬ AllAbove 3 0 4 slave
      → Exact s'
        × ((s'.iam_uptodate ≡ true) ↔ Complete s')
        × ((k : Kind) (i : ℕ)
            → 0 < i
            → i < table_size k
            → entries s' k i ≡ settled k (highest 3 0 4 k) i (entries slave k i)))
    × (AllAbove 3 0 4 slave → s' ≡ record slave { sessionfree = 9 })
cluster_check_sessions_lem_example = cluster_check_sessions_lem 3 9 0 4 slave refl

-- A slave that lacks nothing below the highest session: what is above becomes free.
above_is_free : settle session 3 9 1 missing 0 ≡ (put_at missing 5 0, 0)
unfolding settle
above_is_free = refl

-- The early return: session 5, above the highest that the master uses, stays undefined.
stays_behind : (cluster_check_sessions 2 9 1 1 slave).sessions 5 ≡ 65535
stays_behind =
    ap (λ s. s.sessions 5)
      ((cluster_check_sessions_lem 2 9 1 1 slave refl).1 (omega arith, omega arith, omega arith))
