-- ===== src/Cluster/Slaves.antt =====
-- cluster_check_slaves: the master's view of its slaves, and the routes that it announces.
use l2tpns.Prelude.{
  ℕ, ◌<◌, ◌≡◌, ◌≢◌, ◌↔◌, refl, ap, ◌∙◌, List, [], ◌∷◌, ◌++◌, Bool, true, false, ltb, arith, add32,
}
use l2tpns.Cluster.{
  Action, last_seen, withdraw_routes, advertise_routes, ClusterPeer, Cluster, is_stale,
  count_slaves, route_change, cluster_check_slaves,
}
use l2tpns.Cluster.Election.{Live, live_uptodate}

-- Every live peer has all the state.
abbrev pub AllUptodate : ℕ → ℕ → List ClusterPeer → Type 0
AllUptodate time timeout [] = Unit {0}
AllUptodate time timeout (p ∷ peers) =
    (Live time timeout p → p.uptodate ≡ true) × AllUptodate time timeout peers

-- Whether routes are announced after some actions, being so or not before them.
abbrev pub announcing : Bool → List Action → Bool
announcing now [] = now
announcing now (withdraw_routes ∷ actions) = announcing false actions
announcing now (advertise_routes ∷ actions) = announcing true actions
announcing now (last_seen a b ∷ actions) = announcing now actions

announcing-append :
    (now : Bool) (xs ys : List Action)
    → announcing now (xs ++ ys) ≡ announcing (announcing now xs) ys
announcing-append now [] ys = refl
announcing-append now (withdraw_routes ∷ xs) ys = announcing-append false xs ys
announcing-append now (advertise_routes ∷ xs) ys = announcing-append true xs ys
announcing-append now (last_seen a b ∷ xs) ys = announcing-append now xs ys

-- The change keeps the routes announced exactly below the threshold.
route_change_lem :
    (had have min_adv : ℕ)
    → announcing (ltb had min_adv) (route_change had have min_adv) ≡ ltb have min_adv
unfolding route_change
route_change_lem had have min_adv = ground arith

count_lem :
    (c : Cluster) (peers : List ClusterPeer)
    → (count_slaves c peers).0 ≡ live_uptodate c.time c.hb_timeout peers
unfolding count_slaves is_stale
count_lem c [] = refl
count_lem c (p ∷ peers) = ground (arith, count_lem c peers)

all_lem :
    (c : Cluster) (peers : List ClusterPeer)
    → ((count_slaves c peers).1 ≡ true) ↔ AllUptodate c.time c.hb_timeout peers
unfolding count_slaves is_stale
all_lem c [] = (λ h. tt, λ h. refl)
all_lem c (p ∷ peers) =
    let (f, g) = all_lem c peers in
    (
      λ h. (λ l. ground arith, f (ground arith)),
      λ (l, h).
          let on_live : ¬ (add32 p.timestamp c.hb_timeout < c.time)
              → p.basetime ≢ 0
              → p.uptodate ≡ true =
            λ a b. l (a, b) in
          let rest = g h in ground arith,
    )

-- On a master whose routes are announced exactly while its count of up-to-date slaves is below the
-- threshold, cluster_check_slaves counts exactly the live and up-to-date peers, asks for fast
-- heartbeats exactly if a live peer is not up-to-date, and leaves the routes announced exactly if
-- the new count is below the threshold.
pub cluster_check_slaves_lem :
    (c : Cluster) (before : Bool)
    → c.iam_master ≡ true
    → announcing before c.actions ≡ ltb c.have_peers c.master_min_adv
    → let c' = cluster_check_slaves c in
      (c'.have_peers ≡ live_uptodate c.time c.hb_timeout c.peers)
      × ((c'.iam_uptodate ≡ true) ↔ AllUptodate c.time c.hb_timeout c.peers)
      × (announcing before c'.actions ≡ ltb c'.have_peers c.master_min_adv)
unfolding cluster_check_slaves
cluster_check_slaves_lem c before master h =
    let have = (count_slaves c c.peers).0 in
    let change = route_change c.have_peers have c.master_min_adv in
    simp master (
      count_lem c c.peers,
      all_lem c c.peers,
      announcing-append before c.actions change
          ∙ ap (λ b. announcing b change) h
          ∙ route_change_lem c.have_peers have c.master_min_adv,
    )
