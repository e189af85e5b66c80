-- ===== src/Cluster/Takeover/Tests.antt =====
-- Runs of the takeover, and the theorem at a concrete state.
use l2tpns.Prelude.{ℕ, ◌-◌, ◌^◌, ◌<◌, ◌≡◌, refl, ap, [], none, false, arith, ℕ_discrete}
use l2tpns.IpMap.{put_at}
use l2tpns.IpMap.Lookup.{at_same, at_other}
use l2tpns.Tbf.{Tbfs, fresh_filter}
use l2tpns.Cluster.Sync.{session, bundle, tunnel, table_size}
use l2tpns.Session.{
  sessionclear, Session, Sessions, no_session, no_local, throttle_session, add_bytes,
  increment_counter,
}
use l2tpns.Cluster.Takeover.{
  walk, Server, take_over, take_sessions, take_session, free_session, adopt_session, adopted,
}
use l2tpns.Cluster.Takeover.Free.{Linked, unused}
use l2tpns.Cluster.Takeover.Settle.{Settled, Highest}
use l2tpns.Cluster.Takeover.Entries.{Defined}
use l2tpns.Cluster.Takeover.Result.{take_over_lem}

abbrev no_filters : Tbfs
no_filters = record {
  allocated = false;
  filters = λ i. fresh_filter 0 0 0 false;
  size = 0;
  timer_chain = none;
  cursor = 0;
  time = 0;
  sent = [];
}

-- Session 2 is in use, and 5 bytes of it are not yet in its counter.
abbrev tables : Sessions
tables = record {
  session =
      put_at (λ i. no_session) 2 (record no_session { opened = 40; tunnel = 3; unique_id = 9 });
  sess_local = put_at (λ i. no_local) 2 (record no_local { cin = 5 });
  tbfs = no_filters;
}

abbrev server : Server
server = record {
  tables = tables;
  bundles = record { states = λ i. 2; highest = 0 };
  tunnels = record { states = λ i. 1; highest = 0 };
  highest_sessionid = 0;
  last_id = 0;
  seq_number = none;
  undefined_sessions = 1;
  undefined_bundles = 1;
  undefined_tunnels = 0;
  iam_uptodate = false;
}

free_after_one : ((take_sessions 5 100 7 tables).tables.session 1).next ≡ 3
unfolding take_sessions walk take_session free_session adopt_session adopted throttle_session
free_after_one = refl

charged : ((take_sessions 5 100 7 tables).tables.session 2).cin.count ≡ 5
unfolding take_sessions walk take_session free_session adopt_session adopted throttle_session
    add_bytes increment_counter
charged = refl

-- The session that is closed next is the first to be handed out again.
freed_first : ((sessionclear tables 2).session 0).next ≡ 2
unfolding sessionclear
freed_first = refl

small_ids : (j : ℕ) → (tables.session j).unique_id < 2 ^ 32 - 1
small_ids j =
    let x : Session = record no_session { opened = 40; tunnel = 3; unique_id = 9 } in
    elim (ℕ_discrete j 2) [
      | yes e ↦
          let id = ap (λ (w : Session). w.unique_id) (at_same (λ i. no_session) 2 j x e) in
          omega arith
      | no ne ↦
          let id = ap (λ (w : Session). w.unique_id) (at_other (λ i. no_session) 2 j x ne) in
          omega arith
    ]

take_over_lem_example :
    let s' = take_over 100 7 server in
    Linked s'.tables.session 0 (unused (table_size session - 1) 1 (λ j. (tables.session j).opened))
    × ((j : ℕ)
        → 0 < j
        → j < table_size session
        → Settled 100
            (tables.session j)
            (tables.sess_local j)
            (s'.tables.session j)
            (s'.tables.sess_local j))
    × Highest tables.session (table_size session) s'.highest_sessionid s'.last_id
    × Defined bundle server.bundles.states (table_size bundle) s'.bundles
    × Defined tunnel server.tunnels.states (table_size tunnel) s'.tunnels
take_over_lem_example = take_over_lem 100 7 server refl (λ j h. small_ids j)
