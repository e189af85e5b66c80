-- ===== src/Cluster/Peers.antt =====
-- cluster_add_peer and cluster_set_master of cluster.c: the list of the peers that have been heard of. The part of a ping
-- that is shorter or longer than `pingt` is 0 or cut off, which leaves the two words that are used.
pub mod Table
pub mod Add
use mathlib.Core.Path.{subst}
use l2tpns.Prelude.{
  ℕ, zero, suc, ◌+◌, ◌≤◌, ◌<◌, ◌≡◌, ◌≢◌, ◌⊎◌, inl, inr, refl, sym, ap, ◌∙◌, List, [], ◌∷◌, ◌++◌,
  Option, none, some, Bool, true, false, not, ◌&&◌, ◌||◌, ltb, leb, ◌==◌, if◌then◌else◌, length,
  arith, add32, mul32, Bool-cases, pick, if_true, if_false,
}
use l2tpns.Cluster.{last_seen, ClusterPeer, Cluster, check_master}

-- CLUSTER_MAX_SIZE
abbrev pub cluster_max_size : ℕ
cluster_max_size = 32

abbrev pub and_then : ClusterPeer → Option (List ClusterPeer) → Option (List ClusterPeer)
and_then p none = none
and_then p (some peers) = some (p ∷ peers)

-- The loop that looks for the peer: its entry becomes `new`; none is that it has no entry.
unfoldable pub update_peer : List ClusterPeer → ClusterPeer → Option (List ClusterPeer)
update_peer [] new = none
update_peer (p ∷ peers) new =
    let rest = update_peer peers new in
    if not (p.peer == new.peer) then and_then p rest else some (new ∷ peers)

-- "Shutdown", "Stale."
abbrev pub is_reusable : Cluster → ClusterPeer → Bool
is_reusable c p = p.basetime == 0 || ltb (add32 p.timestamp (mul32 c.hb_timeout 10)) c.time

-- The loop that looks for a slot to reuse; the slot behind the last is `num_peers`.
unfoldable pub put_peer : Cluster → List ClusterPeer → ClusterPeer → List ClusterPeer
put_peer c [] new = new ∷ []
put_peer c (p ∷ peers) new =
    let rest = put_peer c peers new in if is_reusable c p then new ∷ peers else p ∷ rest

-- The values returned: 0, -1 and 1.
pub data Added : Type 0 where
  other_cluster too_many added : Added

-- "Is this the master shutting down??"; the Boolean says that the tables are taken over.
abbrev pub lost_master : Cluster → ℕ → Cluster × Bool
lost_master c peer =
    if peer == c.master_address
    then check_master (record c { master_address = 0; last_hb = 0 })
    else (c, false)

unfoldable pub add_new : Cluster → ClusterPeer → Option (List ClusterPeer) → Cluster × Added
unfolding put_peer
add_new c new (some peers) = (c, added)
add_new c new none =
    let peers = put_peer c c.peers new in
    if ltb cluster_max_size (length peers)
    then (c, too_many)
    else (record c { peers = peers }, added)

abbrev pub or_else : List ClusterPeer → Option (List ClusterPeer) → List ClusterPeer
or_else peers none = peers
or_else peers (some updated) = updated

-- A ping of `basetime` from `peer`, of the cluster `addr`, that lacks `undef` entries.
unfoldable pub cluster_add_peer : Cluster → ℕ → ℕ → ℕ → ℕ → ℕ → Cluster × Bool × Added
unfolding update_peer add_new
cluster_add_peer c bind_address peer basetime addr undef =
    let new : ClusterPeer = record {
      peer = peer;
      basetime = basetime;
      timestamp = c.time;
      uptodate = undef == 0;
    } in
    let found = update_peer c.peers new in
    let (c', taken) = lost_master (record c { peers = or_else c.peers found }) peer in
    let (c'', r) = add_new c' new found in
    if not (addr == bind_address) then (c, false, other_cluster) else (c'', taken, r)

-- cluster_set_master: another slave says that `master` is the master.
unfoldable pub cluster_set_master : Cluster → ℕ → Cluster × Bool
cluster_set_master c master =
    let set = record c { master_address = master } in
    let catch_up = record set {
      last_hb = c.time;
      actions = c.actions ++ last_seen master c.seq_number ∷ [];
    } in
    if c.iam_master then (c, false) else check_master (if not (master == 0) then catch_up else set)
