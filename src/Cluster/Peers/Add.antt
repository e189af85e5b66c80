-- ===== src/Cluster/Peers/Add.antt =====
-- cluster_add_peer as a whole.
use mathlib.Core.Path.{subst}
use l2tpns.Prelude.{
  ℕ, ◌≤◌, ◌≡◌, ◌≢◌, ◌⊎◌, inl, inr, refl, sym, ◌∙◌, List, [], ◌∷◌, Option, none, some, Bool, true,
  false, not, ltb, ◌==◌, if◌then◌else◌, length, arith, add32, Bool-cases, pick, if_true, if_false,
  ℕ_discrete,
}
use l2tpns.Cluster.{
  ClusterPeer, Cluster, check_master, probe_master, hold_election, take_over, scan_peers,
}
use l2tpns.Cluster.Peers.{
  cluster_max_size, update_peer, is_reusable, put_peer, Added, other_cluster, too_many, added,
  lost_master, add_new, or_else, cluster_add_peer,
}
use l2tpns.Cluster.Peers.Table.{
  Found, NotHeard, Distinct, NoneReusable, Came, update_peer-Found, put_peer-Put,
}

-- What an election leaves as it was.
record Same (c c' : Cluster) : Type 0 where
  peers : c'.peers ≡ c.peers
  time : c'.time ≡ c.time
  hb_timeout : c'.hb_timeout ≡ c.hb_timeout

same : (c : Cluster) → Same c c
same c = record { peers = refl; time = refl; hb_timeout = refl }

probe_master-Same : (c : Cluster) → Same c (probe_master c)
unfolding probe_master
probe_master-Same c =
    let P = Same c in
    pick P _ _ _ (pick P _ _ _ (record { peers = refl; time = refl; hb_timeout = refl }) (same c))
      (record { peers = refl; time = refl; hb_timeout = refl })

take_over-Same : (c : Cluster) (o : Option ℕ) → Same c (take_over c o).0
take_over-Same c none = same c
take_over-Same c (some have) = record { peers = refl; time = refl; hb_timeout = refl }

Same-trans : (b c d : Cluster) → Same b c → Same c d → Same b d
Same-trans b c d s t = record {
  peers = t.peers ∙ s.peers;
  time = t.time ∙ s.time;
  hb_timeout = t.hb_timeout ∙ s.hb_timeout;
}

hold_election-Same : (c : Cluster) → Same c (hold_election c).0
unfolding hold_election
hold_election-Same c =
    let P : Cluster × Bool → Type 0 = λ r. Same c r.0 in
    let held : Cluster = record c { last_hb = add32 c.time 1; master_address = 0 } in
    let h : Same c held = record { peers = refl; time = refl; hb_timeout = refl } in
    pick P _ _ _ (same c) (
      pick P _ _ _ h (
        Same-trans c held (take_over held (scan_peers held c.peers 0)).0 h
          (take_over-Same held (scan_peers held c.peers 0))))

check_master-Same : (c : Cluster) → Same c (check_master c).0
unfolding check_master
check_master-Same c =
    let P : Cluster × Bool → Type 0 = λ r. Same c r.0 in
    pick P c.iam_master _ _ (same c) (
      Same-trans c (probe_master c) (hold_election (probe_master c)).0 (probe_master-Same c)
        (hold_election-Same (probe_master c)))

lost_master-Same : (c : Cluster) (peer : ℕ) → Same c (lost_master c peer).0
lost_master-Same c peer =
    let P : Cluster × Bool → Type 0 = λ r. Same c r.0 in
    let free : Cluster = record c { master_address = 0; last_hb = 0 } in
    pick P _ _ _
      (Same-trans c free (check_master free).0
        (record { peers = refl; time = refl; hb_timeout = refl }) (check_master-Same free))
      (same c)

-- What is returned, against the lists of peers before and after.
abbrev pub Result : Cluster → ClusterPeer → List ClusterPeer → Added → Type 0
Result c new l added = Came c new c.peers l × (length l ≤ cluster_max_size)
Result c new l too_many =
    (l ≡ c.peers) × NotHeard new.peer l × NoneReusable c l × (length l ≡ cluster_max_size)
Result c new l other_cluster = ⊥

reusable-Same : (c c' : Cluster) (p : ClusterPeer) → Same c c' → is_reusable c' p ≡ is_reusable c p
reusable-Same c c' p s = rw (s.time, s.hb_timeout) refl

Came-Same :
    (c c' : Cluster) (new : ClusterPeer) (l l' : List ClusterPeer)
    → Same c c'
    → Came c' new l l'
    → Came c new l l'
Came-Same c c' new l l' s k = record {
  here = k.here;
  only = k.only;
  others = λ q h. elim (k.others q h) [
    | inl own ↦ inl own
    | inr (inl free) ↦ inr (inl (sym (reusable-Same c c' q s) ∙ free))
    | inr (inr kept) ↦ inr (inr kept)
  ];
  unique = k.unique;
  longer = k.longer;
}

NoneReusable-Same :
    (c c' : Cluster) (l : List ClusterPeer) → Same c c' → NoneReusable c' l → NoneReusable c l
NoneReusable-Same c c' [] s n = tt
NoneReusable-Same c c' (p ∷ l) s (e, n) =
    (sym (reusable-Same c c' p s) ∙ e, NoneReusable-Same c c' l s n)

add_new-Result :
    (c c' : Cluster) (new : ClusterPeer) (found : Option (List ClusterPeer))
    → Same (record c { peers = or_else c.peers found }) c'
    → Found c new c.peers found
    → Distinct c.peers
    → length c.peers ≤ cluster_max_size
    → let (c'', r) = add_new c' new found in Result c new c''.peers r
unfolding add_new
add_new-Result c c' new (some l) s (k, e) d small =
    subst (λ l'. Came c new c.peers l' × (length l' ≤ cluster_max_size)) (sym s.peers)
      (k, omega arith)
add_new-Result c c' new none s n d small =
    let old : c'.peers ≡ c.peers = s.peers in
    let l = put_peer c' c.peers new in
    let t : Same c c' = record { peers = old; time = s.time; hb_timeout = s.hb_timeout } in
    let P : Cluster × Added → Type 0 = λ (u, r). Result c new u.peers r in
    let Q : List ClusterPeer → Type 0 = λ m. P (
      if ltb cluster_max_size (length (put_peer c' m new))
      then (c', too_many)
      else (record c' { peers = put_peer c' m new }, added)) in
    let (k, size) = put_peer-Put c' c.peers new n d in
    subst Q (sym old) (elim (Bool-cases (ltb cluster_max_size (length l))) [
      | inl over ↦ subst P (sym (if_true _ _ _ over)) (elim size [
        | inl e ↦ absurd (ground arith)
        | inr (e, all) ↦
            subst
              (λ m.
                (m ≡ c.peers)
                × NotHeard new.peer m
                × NoneReusable c m
                × (length m ≡ cluster_max_size))
              (sym old) (refl, n, NoneReusable-Same c c' c.peers t all, ground arith)
      ])
      | inr fits ↦
          subst P (sym (if_false _ _ _ fits)) (Came-Same c c' new c.peers l t k, ground arith)
    ])

-- A ping of another cluster changes nothing. Any other brings the peer into the list, or its entry
-- up to date, also if that peer was the master and an election is held: the list still has one
-- entry for an address and 32 at most, and no entry is new but that of the peer; no other is gone,
-- unless it was shut down or not heard of for ten timeouts, and the list does not become shorter.
-- Only if 32 others are known, none of them to be reused, the peer is refused and the list is kept.
pub cluster_add_peer-Result :
    (c : Cluster) (bind_address peer basetime addr undef : ℕ)
    → Distinct c.peers
    → length c.peers ≤ cluster_max_size
    → let new : ClusterPeer = record {
      peer = peer;
      basetime = basetime;
      timestamp = c.time;
      uptodate = undef == 0;
    } in
      let (c', taken, r) = cluster_add_peer c bind_address peer basetime addr undef in
      ((addr ≡ bind_address) × Result c new c'.peers r)
      ⊎ ((addr ≢ bind_address)
          × (cluster_add_peer c bind_address peer basetime addr undef ≡ (c, false, other_cluster)))
unfolding cluster_add_peer
cluster_add_peer-Result c bind_address peer basetime addr undef d small =
    let new : ClusterPeer = record {
      peer = peer;
      basetime = basetime;
      timestamp = c.time;
      uptodate = undef == 0;
    } in
    let found = update_peer c.peers new in
    let first : Cluster = record c { peers = or_else c.peers found } in
    let result =
      add_new-Result c (lost_master first peer).0 new found (lost_master-Same first peer)
        (update_peer-Found c c.peers new d) d small in
    elim (ℕ_discrete addr bind_address) [
      | yes e ↦
          let ours : not (addr == bind_address) ≡ false = ground arith in rw ours (inl (e, result))
      | no ne ↦
          let theirs : not (addr == bind_address) ≡ true = ground arith in
          rw theirs (inr (ne, refl))
    ]
