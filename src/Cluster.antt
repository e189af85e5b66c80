-- ===== src/Cluster.antt =====
-- cluster.c: what a node knows of its peers, the master's check of its slaves, and the election
-- that a slave holds when the master is silent.
-- Times are `clockt`, tenths of a second in 32 bits. The list of peers stands for the first
-- `num_peers` entries of `peers`.
pub mod Election
pub mod Peers
pub mod Slaves
pub mod Catchup
pub mod Changes
pub mod Sync
pub mod Takeover
pub mod Heartbeat
mod Tests
use l2tpns.Prelude.{
  ℕ, ◌+◌, ◌-◌, ◌*◌, List, [], ◌∷◌, ◌++◌, Option, none, some, Bool, true, false, not, ◌&&◌, ◌||◌,
  ltb, ◌==◌, if◌then◌else◌, add32, mul32,
}

-- An entry of `peers`
pub record ClusterPeer : Type 0 where
  pub peer : ℕ
  pub basetime : ℕ
  pub timestamp : ℕ
  pub uptodate : Bool

-- peer_send_message of C_LASTSEEN, withdraw_routes and advertise_routes
pub data Action : Type 0 where
  last_seen : ℕ → ℕ → Action
  withdraw_routes : Action
  advertise_routes : Action

-- The variables that these functions read and write, `config->cluster_` left out of their names;
-- `have_peers` and `probed` are the static ones, and `actions` is what was done, in order.
pub record Cluster : Type 0 where
  pub time : ℕ
  pub iam_master : Bool
  pub iam_uptodate : Bool
  pub master_address : ℕ
  pub last_hb : ℕ
  pub hb_interval : ℕ
  pub hb_timeout : ℕ
  pub master_min_adv : ℕ
  pub seq_number : ℕ
  pub main_quit : Bool
  pub basetime : ℕ
  pub my_address : ℕ
  pub probed : ℕ
  pub have_peers : ℕ
  pub peers : List ClusterPeer
  pub actions : List Action

-- "Stale peer! Skip them."
pub is_stale : Cluster → ClusterPeer → Bool
is_stale c p = ltb (add32 p.timestamp c.hb_timeout) c.time

-- The loop of cluster_check_slaves: up-to-date peers, and whether all that were asked are.
pub count_slaves : Cluster → List ClusterPeer → ℕ × Bool
unfolding is_stale
count_slaves c [] = (0, true)
count_slaves c (p ∷ peers) =
    let (n, all) = count_slaves c peers in
    if is_stale c p
    then (n, all)
    else if p.basetime == 0
    then (n, all)
    else if p.uptodate
    then (n + 1, all)
    else (n, false)

-- "in a cluster, withdraw/add routes when we get a peer/lose peers"
pub route_change : ℕ → ℕ → ℕ → List Action
route_change had have min_adv =
    if have == had
    then []
    else if ltb had min_adv && not (ltb have min_adv)
    then withdraw_routes ∷ []
    else if not (ltb had min_adv) && ltb have min_adv
    then advertise_routes ∷ []
    else []

pub cluster_check_slaves : Cluster → Cluster
unfolding count_slaves route_change
cluster_check_slaves c =
    let (have, all) = count_slaves c c.peers in
    let checked = record c {
      iam_uptodate = all;
      have_peers = have;
      actions = c.actions ++ route_change c.have_peers have c.master_min_adv;
    } in
    if c.iam_master then checked else c

-- "They'll win the election."
pub outranks : Cluster → ClusterPeer → Bool
outranks c p = ltb p.basetime c.basetime || (p.basetime == c.basetime && ltb c.my_address p.peer)

-- The loop of cluster_check_master over the peers: how many are up-to-date; `none` if one is
-- expected to become master.
pub scan_peers : Cluster → List ClusterPeer → ℕ → Option ℕ
unfolding is_stale outranks
scan_peers c [] have_peers = some have_peers
scan_peers c (p ∷ peers) have_peers =
    let skip = scan_peers c peers have_peers in
    let count = scan_peers c peers (if p.uptodate then have_peers + 1 else have_peers) in
    if is_stale c p
    then skip
    else if p.basetime == 0
    then skip
    else if outranks c p
    then none
    else count

-- The start of cluster_check_master: probe a master that is late.
pub probe_master : Cluster → Cluster
probe_master c =
    let wait = mul32 2 c.hb_interval in
    let late = ltb (add32 (add32 c.last_hb wait) 11) c.time in
    let again = c.probed == 0 || ltb (add32 c.probed wait) c.time in
    let probe = record c {
      probed = c.time;
      actions = c.actions ++ last_seen c.master_address c.seq_number ∷ [];
    } in
    if not (c.master_address == 0) && late
    then if again then probe else c
    else record c { probed = 0 }

abbrev pub take_over : Cluster → Option ℕ → Cluster × Bool
take_over c none = (c, false)
take_over c (some have) =
    let routes = if ltb have c.master_min_adv then advertise_routes else withdraw_routes in
    (record c { iam_master = true; actions = c.actions ++ routes ∷ [] }, true)

-- The middle of cluster_check_master, to the point where the tables are taken over; the Boolean
-- says whether that point is reached. The call of pppoe_send_garp is left out.
pub hold_election : Cluster → Cluster × Bool
unfolding scan_peers
hold_election c =
    let held = record c { last_hb = add32 c.time 1; master_address = 0 } in
    if ltb c.time (add32 c.last_hb c.hb_timeout)
    then (c, false)
    else if c.main_quit
    then (held, false)
    else take_over held (scan_peers held c.peers 0)

-- cluster_check_master without the part that takes over the tables.
pub check_master : Cluster → Cluster × Bool
unfolding probe_master hold_election
check_master c = if c.iam_master then (c, false) else hold_election (probe_master c)
