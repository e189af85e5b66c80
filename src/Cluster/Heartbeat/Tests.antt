-- ===== src/Cluster/Heartbeat/Tests.antt =====
-- Heartbeats between small nodes, and instances of their theorems.
use l2tpns.Prelude.{ℕ, ◌≡◌, ◌≢◌, ◌↔◌, inr, refl, [], ◌∷◌, some, true, false, arith}
use l2tpns.Cluster.Heartbeat.{Header, Node, leaves, begin_heartbeat, fill_header}
use l2tpns.Cluster.Heartbeat.Masters.{Acceptable, two_masters}
use l2tpns.Cluster.Heartbeat.Sequence.{Follows, receive, receive_catches_up}

abbrev node : ℕ → ℕ → Node
node address basetime = record {
  bind_address = 1;
  iam_master = true;
  table_version = 7;
  basetime = basetime;
  my_address = address;
  master_address = 0;
  seq_number = some 5;
  last_hb = 0;
  last_hb_ver = 9;
  hb_interval = 5;
  hb_timeout = 60;
  time = 100;
  time_now = 10;
  lastseen_seq = 0;
  lastseen_time = 0;
  past = λ i. record { seq = 0; bytes = [] };
  asked = [];
}

older_stays :
    (begin_heartbeat 4 (node 21 600) 9 (1 ∷ 2 ∷ []) 4 (fill_header (node 22 700)) 22).1 ≢ leaves
unfolding begin_heartbeat fill_header
older_stays = λ e. ground arith

younger_leaves :
    (begin_heartbeat 4 (node 22 700) 9 (1 ∷ 2 ∷ []) 4 (fill_header (node 21 600)) 21).1 ≡ leaves
unfolding begin_heartbeat fill_header
younger_leaves = refl

accepted :
    (a b : Node)
    → a.bind_address ≡ 1
    → b.bind_address ≡ 1
    → Acceptable 4 a.bind_address 9 (1 ∷ 2 ∷ []) 4 (fill_header b)
unfolding fill_header
accepted a b ha hb = record {
  old_enough = omega arith;
  new_enough = omega arith;
  small_enough = omega arith;
  whole = omega arith;
  ours = ground arith;
}

two_masters_example :
    let ra = begin_heartbeat 4 (node 21 600) 9 (1 ∷ 2 ∷ []) 4 (fill_header (node 22 700)) 22 in
    let rb = begin_heartbeat 4 (node 22 700) 9 (1 ∷ 2 ∷ []) 4 (fill_header (node 21 600)) 21 in
    ((ra.1 ≡ leaves) ↔ (rb.1 ≢ leaves)) × (ra.0 ≡ node 21 600) × (rb.0 ≡ node 22 700)
two_masters_example =
    two_masters 4 (node 21 600) (node 22 700) 9 9 4 4 (1 ∷ 2 ∷ []) (1 ∷ 2 ∷ []) refl refl
      (λ e. ground arith) (λ e. ground arith) (λ e. ground arith)
      (accepted (node 21 600) (node 22 700) refl refl)
      (accepted (node 22 700) (node 21 600) refl refl)

abbrev slave : Node
slave = record (node 21 600) { iam_master = false; master_address = 22 }

abbrev header : ℕ → Header
header q = record {
  clusterid = 1;
  basetime = 700;
  table_version = 8;
  seq = q;
  interval = 5;
  timeout = 60;
}

slave-Follows : Follows slave 22 5
slave-Follows = record { slave = refl; master = inr refl; expects = refl }

header-Acceptable : (q : ℕ) → Acceptable 4 slave.bind_address 9 (1 ∷ 2 ∷ []) 4 (header q)
header-Acceptable q = record {
  old_enough = omega arith;
  new_enough = omega arith;
  small_enough = omega arith;
  whole = omega arith;
  ours = refl;
}

-- The master is at 7, the slave expects 5.
receive_catches_up_example : Follows (receive 4 4 header (λ q. 1 ∷ 2 ∷ []) 22 7 2 slave) 22 7
receive_catches_up_example =
    receive_catches_up 4 4 header (λ q. 1 ∷ 2 ∷ []) 22 7 2 slave (omega arith) (omega arith)
      header-Acceptable (λ q. refl) slave-Follows
