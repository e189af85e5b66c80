-- ===== src/Cluster/Tests.antt =====
-- Runs of the election and of the check of the slaves, and instances of their theorems.
use l2tpns.Cluster.Changes.{
  Change, Changes, type_changed, Unique, Queued, type_changed_lem, type_changed_overrun,
}
use l2tpns.Cluster.Catchup.{
  Heart, resent, kill, cluster_catchup_slave, before, distance, last_beats,
  cluster_catchup_slave_lem,
}
use l2tpns.Prelude.{
  ◌⊎◌, inr, none, ◌++◌, List, [], ap, arith, false, if◌then◌else◌, inl, ltb, refl, some, true, ℕ,
  ◌%◌, ◌+◌, ◌-◌, ◌<◌, ◌==◌, ◌^◌, ◌↔◌, ◌∷◌, ◌≡◌, ◌≢◌, ◌≤◌,
}
use l2tpns.Cluster.{withdraw_routes, ClusterPeer, Cluster, check_master, cluster_check_slaves}
use l2tpns.Cluster.Election.{MayWin, live_uptodate, check_master-MayWin}
use l2tpns.Cluster.Slaves.{AllUptodate, announcing, cluster_check_slaves_lem}
use l2tpns.Cluster.Peers.{added, other_cluster, cluster_add_peer, update_peer, put_peer, add_new}
use l2tpns.Cluster.Peers.Add.{Result, cluster_add_peer-Result}

abbrev other : ℕ → ℕ → ClusterPeer
other address basetime = record {
  peer = address;
  basetime = basetime;
  timestamp = 1000;
  uptodate = true;
}

-- A slave that has not heard from the master since time 900.
abbrev slave : ℕ → ℕ → List ClusterPeer → Cluster
slave address basetime peers = record {
  time = 1010;
  iam_master = false;
  iam_uptodate = true;
  master_address = 1;
  last_hb = 900;
  hb_interval = 5;
  hb_timeout = 60;
  master_min_adv = 1;
  seq_number = 3;
  main_quit = false;
  basetime = basetime;
  my_address = address;
  probed = 0;
  have_peers = 0;
  peers = peers;
  actions = [];
}

abbrev younger : Cluster
younger = slave 12 700 (other 11 600 ∷ [])

abbrev older : Cluster
older = slave 11 600 (other 12 700 ∷ [])

younger_waits : (check_master younger).1 ≡ false
unfolding check_master
younger_waits = refl

-- The new master withdraws its routes, its only slave falls silent, and no route is announced
-- again, as the count of cluster_check_slaves was 0 all the time.
silent_slave :
    let won = (check_master older).0 in
    let late = cluster_check_slaves (record won { time = 2000 }) in
    announcing true late.actions ≡ false
unfolding check_master cluster_check_slaves
silent_slave = refl

abbrev master : Cluster
master = record older {
  iam_master = true;
  actions = withdraw_routes ∷ [];
  have_peers = 1;
  time = 2000;
}

cluster_check_slaves_lem_example :
    let c' = cluster_check_slaves master in
    (c'.have_peers ≡ live_uptodate 2000 60 master.peers)
    × ((c'.iam_uptodate ≡ true) ↔ AllUptodate 2000 60 master.peers)
    × (announcing true c'.actions ≡ ltb c'.have_peers 1)
cluster_check_slaves_lem_example = cluster_check_slaves_lem master true refl refl

check_master-MayWin_example :
    (((check_master older).0.iam_master ≡ true) ↔ MayWin older)
    × ((check_master older).1 ≡ (check_master older).0.iam_master)
check_master-MayWin_example = check_master-MayWin older refl

-- The master is at number 1, after a wrap; each heartbeat is its own number.
abbrev hearts : ℕ → Heart
hearts i = let q = if i == 0 then 0 else 2 ^ 30 - 64 + i in record { seq = q; bytes = q ∷ [] }

catch_up :
    cluster_catchup_slave true 1 hearts (2 ^ 30 - 1)
    ≡ some (resent (((2 ^ 30 - 1) ∷ []) ∷ (0 ∷ []) ∷ []) true)
unfolding cluster_catchup_slave
catch_up = refl

hearts_numbered : (d : ℕ) → 0 < d → d < 64 → (hearts (before 1 d % 64)).seq ≡ before 1 d
hearts_numbered d p h = ground arith

cluster_catchup_slave_lem_example :
    (distance 1 (2 ^ 30 - 1) < 64
      → cluster_catchup_slave true 1 hearts (2 ^ 30 - 1)
        ≡ some (resent (last_beats (λ q. q ∷ []) 1 (distance 1 (2 ^ 30 - 1))) true))
    × (64 ≤ distance 1 (2 ^ 30 - 1) → cluster_catchup_slave true 1 hearts (2 ^ 30 - 1) ≡ some kill)
cluster_catchup_slave_lem_example =
    cluster_catchup_slave_lem 1 (2 ^ 30 - 1) hearts (λ q. q ∷ []) (omega arith) (omega arith)
      (λ d p h. (hearts_numbered d p h, ap (λ q. q ∷ []) (hearts_numbered d p h)))

abbrev change : ℕ → Change
change id = record { type = 9; id = id }

abbrev changes : Changes
changes = record { queue = change 3 ∷ change 4 ∷ []; sent = [] }

requeued :
    type_changed 8 changes (change 3) ≡ some (record changes { queue = change 4 ∷ change 3 ∷ [] })
unfolding type_changed
requeued = refl

overrun : type_changed 2 changes (change 5) ≡ none
unfolding type_changed
overrun = refl

changes-Unique : Unique changes.queue
changes-Unique = (elim [ inl e ↦ cc | inr h ↦ h ], (λ h. h, tt))

type_changed_lem_example :
    (s' : Changes) × (type_changed 8 changes (change 3) ≡ some s')
    × Unique s'.queue
    × ((front : List Change) × (s'.queue ≡ front ++ change 3 ∷ []))
    × (Queued (change 4) s'.queue ↔ ((change 4 ≡ change 3) ⊎ Queued (change 4) changes.queue))
    × (s'.sent ≡ [])
type_changed_lem_example =
    type_changed_lem 8 changes (change 3) (change 4) changes-Unique (omega arith)

type_changed_overrun_example :
    (type_changed 2 changes (change 5) ≡ none)
    ↔ (◌≡◌ {A = ℕ} 2 2 × (¬ Queued (change 5) changes.queue))
type_changed_overrun_example = type_changed_overrun 2 changes (change 5) (omega arith)

-- A node that knows one peer hears of another.
abbrev hearer : Cluster
hearer = slave 11 600 (other 12 700 ∷ [])

hears : (cluster_add_peer hearer 1 13 800 1 0).2 ≡ added
unfolding cluster_add_peer update_peer put_peer add_new check_master
hears = refl

cluster_add_peer-Result_example :
    let new : ClusterPeer = record {
      peer = 13;
      basetime = 800;
      timestamp = hearer.time;
      uptodate = 0 == 0;
    } in
    let bind_address : ℕ = 1 in
    let (c', taken, r) = cluster_add_peer hearer bind_address 13 800 bind_address 0 in
    ((bind_address ≡ bind_address) × Result hearer new c'.peers r)
    ⊎ ((bind_address ≢ bind_address)
        × (cluster_add_peer hearer bind_address 13 800 bind_address 0
            ≡ (hearer, false, other_cluster)))
cluster_add_peer-Result_example = cluster_add_peer-Result hearer 1 13 800 1 0 (tt, tt) (omega arith)
