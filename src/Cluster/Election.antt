-- ===== src/Cluster/Election.antt =====
-- The election in cluster_check_master: who becomes master.
use mathlib.Core.Path.{subst}
use l2tpns.Prelude.{
  ℕ, ◌+◌, ◌<◌, ◌≡◌, ◌≢◌, ◌⊎◌, ◌↔◌, inl, inr, refl, sym, ap, ◌∙◌, List, [], ◌∷◌, Option, none, some,
  true, false, not, ◌&&◌, ltb, ◌==◌, if◌then◌else◌, arith, add32, mul32, ◌++◌, ◌||◌, Bool-cases,
}
use l2tpns.Cluster.{
  Action, last_seen, ClusterPeer, Cluster, is_stale, outranks, scan_peers, probe_master, take_over,
  hold_election, check_master,
}

-- A peer was heard of within the timeout and is not shut down.
abbrev pub Live : ℕ → ℕ → ClusterPeer → Type 0
Live time timeout p = (¬ (add32 p.timestamp timeout < time)) × (p.basetime ≢ 0)

-- The older node wins, and of two that are equally old the one of the larger address.
abbrev pub Beats : ClusterPeer → ℕ → ℕ → Type 0
Beats p basetime address = (p.basetime < basetime) ⊎ (p.basetime ≡ basetime) × (address < p.peer)

-- No live peer beats a node.
abbrev pub NoRival : ℕ → ℕ → ℕ → ℕ → List ClusterPeer → Type 0
NoRival time timeout basetime address [] = Unit {0}
NoRival time timeout basetime address (p ∷ peers) =
    (Live time timeout p → ¬ Beats p basetime address) × NoRival time timeout basetime address peers

-- The live peers that have all the state.
abbrev pub live_uptodate : ℕ → ℕ → List ClusterPeer → ℕ
live_uptodate time timeout [] = 0
live_uptodate time timeout (p ∷ peers) =
    let n = live_uptodate time timeout peers in
    if not (ltb (add32 p.timestamp timeout) time) && not (p.basetime == 0) && p.uptodate
    then n + 1
    else n

-- What the loop over the peers returns.
abbrev pub Scanned : Cluster → List ClusterPeer → ℕ → Option ℕ → Type 0
Scanned c peers n none = ¬ NoRival c.time c.hb_timeout c.basetime c.my_address peers
Scanned c peers n (some have) =
    NoRival c.time c.hb_timeout c.basetime c.my_address peers
    × (have ≡ n + live_uptodate c.time c.hb_timeout peers)

true≢false : ¬ (true ≡ false)
true≢false h = ground arith

stale_iff :
    (c : Cluster) (p : ClusterPeer)
    → (is_stale c p ≡ true) ↔ (add32 p.timestamp c.hb_timeout < c.time)
unfolding is_stale
stale_iff c p = (λ h. ground arith, λ h. ground arith)

outranks_iff :
    (c : Cluster) (p : ClusterPeer) → (outranks c p ≡ true) ↔ Beats p c.basetime c.my_address
unfolding outranks
outranks_iff c p = (λ h. ground arith, λ h. ground arith)

Scanned-skip :
    (c : Cluster) (p : ClusterPeer) (peers : List ClusterPeer) (n : ℕ) (o : Option ℕ)
    → ¬ Live c.time c.hb_timeout p
    → Scanned c peers n o
    → Scanned c (p ∷ peers) n o
Scanned-skip c p peers n none dead h = λ (f, r). h r
Scanned-skip c p peers n (some have) dead (r, e) = ((λ l. absurd (dead l), r), ground arith)

Scanned-count :
    (c : Cluster) (p : ClusterPeer) (peers : List ClusterPeer) (n : ℕ) (o : Option ℕ)
    → Live c.time c.hb_timeout p
    → ¬ Beats p c.basetime c.my_address
    → Scanned c peers (if p.uptodate then n + 1 else n) o
    → Scanned c (p ∷ peers) n o
Scanned-count c p peers n none live weak h = λ (f, r). h r
Scanned-count c p peers n (some have) live weak (r, e) = ((λ l. weak, r), ground arith)

live_lem :
    (c : Cluster) (p : ClusterPeer)
    → is_stale c p ≡ false
    → (p.basetime == 0) ≡ false
    → Live c.time c.hb_timeout p
live_lem c p fresh up = (λ h. true≢false (sym ((stale_iff c p).1 h) ∙ fresh), λ h. ground arith)

scan_peers_lem :
    (c : Cluster) (peers : List ClusterPeer) (n : ℕ) → Scanned c peers n (scan_peers c peers n)
unfolding scan_peers
scan_peers_lem c [] n = (tt, omega arith)
scan_peers_lem c (p ∷ peers) n =
    let skipped = scan_peers_lem c peers n in
    let counted = scan_peers_lem c peers (if p.uptodate then n + 1 else n) in
    elim (Bool-cases (is_stale c p)) [
      | inl stale ↦ rw stale (
          Scanned-skip c p peers n (scan_peers c peers n) (λ (l, b). l ((stale_iff c p).0 stale))
            skipped)
      | inr fresh ↦ elim (Bool-cases (p.basetime == 0)) [
        | inl shut ↦
            rw (fresh, shut)
              (Scanned-skip c p peers n (scan_peers c peers n) (λ (l, b). b (ground arith)) skipped)
        | inr up ↦ elim (Bool-cases (outranks c p)) [
          | inl rival ↦
              rw (fresh, up, rival)
                (λ (f, r). f (live_lem c p fresh up) ((outranks_iff c p).0 rival))
          | inr weak ↦
              rw (fresh, up, weak)
                (Scanned-count c p peers n (scan_peers c peers (if p.uptodate then n + 1 else n))
                  (live_lem c p fresh up) (λ b. true≢false (sym ((outranks_iff c p).1 b) ∙ weak))
                  counted)
        ]
      ]
    ]

-- A node holds an election and may win it: it has waited long enough for a heartbeat, is not on
-- its way out, and has no rival.
abbrev pub MayWin : Cluster → Type 0
MayWin c =
    (¬ (c.time < add32 c.last_hb c.hb_timeout))
    × (c.main_quit ≡ false)
    × NoRival c.time c.hb_timeout c.basetime c.my_address c.peers

take_over_lem :
    (c : Cluster) (o : Option ℕ)
    → Scanned c c.peers 0 o
    → ((take_over c o).1 ≡ true) ↔ NoRival c.time c.hb_timeout c.basetime c.my_address c.peers
take_over_lem c none h = (λ e. absurd (true≢false (sym e)), λ r. absurd (h r))
take_over_lem c (some have) (r, e) = (λ w. r, λ w. refl)

-- The state in which the election is held: "Just the one election thanks."
abbrev pub held_state : Cluster → Cluster
held_state c = record c { last_hb = add32 c.time 1; master_address = 0 }

hold_late :
    (c : Cluster)
    → ltb c.time (add32 c.last_hb c.hb_timeout) ≡ false
    → hold_election c ≡ (
        if c.main_quit
        then (held_state c, false)
        else take_over (held_state c) (scan_peers (held_state c) c.peers 0))
unfolding hold_election
hold_late c late = rw late refl

hold_early :
    (c : Cluster) → ltb c.time (add32 c.last_hb c.hb_timeout) ≡ true → hold_election c ≡ (c, false)
unfolding hold_election
hold_early c early = rw early refl

hold_election_lem : (c : Cluster) → ((hold_election c).1 ≡ true) ↔ MayWin c
hold_election_lem c =
    let held = held_state c in
    let scan = scan_peers held c.peers 0 in
    let outcome = take_over_lem held scan (scan_peers_lem held c.peers 0) in
    elim (Bool-cases (ltb c.time (add32 c.last_hb c.hb_timeout))) [
      | inl early ↦
          rw (hold_early c early)
            (λ e. absurd (true≢false (sym e)), λ (late, q, r). absurd (late (ground arith)))
      | inr late ↦ rw (hold_late c late) (elim (Bool-cases c.main_quit) [
        | inl quit ↦
            subst (λ b. ((if b then (held, false) else take_over held scan).1 ≡ true) ↔ MayWin c)
              (sym quit)
              (λ e. absurd (true≢false (sym e)), λ (l, q, r). absurd (true≢false (sym quit ∙ q)))
        | inr stay ↦
            subst (λ b. ((if b then (held, false) else take_over held scan).1 ≡ true) ↔ MayWin c)
              (sym stay) (λ w. (λ h. ground arith, stay, outcome.0 w), λ (l, q, r). outcome.1 r)
      ])
    ]

-- A probe changes nothing that the election reads.
probe_form :
    (c : Cluster)
    → (n : ℕ) × (done : List Action) × (probe_master c ≡ record c { probed = n; actions = done })
unfolding probe_master
probe_form c =
    let wait = mul32 2 c.hb_interval in
    elim (Bool-cases
      (not (c.master_address == 0) && ltb (add32 (add32 c.last_hb wait) 11) c.time)) [
        | inl late ↦ elim (Bool-cases (c.probed == 0 || ltb (add32 c.probed wait) c.time)) [
          | inl again ↦ (
            c.time,
            c.actions ++ last_seen c.master_address c.seq_number ∷ [],
            rw (late, again) refl,
          )
          | inr once ↦ (c.probed, c.actions, rw (late, once) refl)
        ]
        | inr recent ↦ (0, c.actions, rw recent refl)
      ]

-- A slave's cluster_check_master is the probe and the election.
check_slave : (c : Cluster) → c.iam_master ≡ false → check_master c ≡ hold_election (probe_master c)
unfolding check_master
check_slave c slave = rw slave refl

probe-MayWin : (c : Cluster) → MayWin (probe_master c) ↔ MayWin c
probe-MayWin c =
    let (n, done, e) = probe_form c in subst (λ d. MayWin d ↔ MayWin c) (sym e) (λ m. m, λ m. m)

take_over_marks :
    (c : Cluster) (o : Option ℕ)
    → c.iam_master ≡ false
    → (take_over c o).1 ≡ (take_over c o).0.iam_master
take_over_marks c none slave = sym slave
take_over_marks c (some have) slave = refl

-- The election returns what it leaves in cluster_iam_master.
hold_election_marks :
    (c : Cluster) → c.iam_master ≡ false → (hold_election c).1 ≡ (hold_election c).0.iam_master
hold_election_marks c slave =
    let held = held_state c in
    let scan = scan_peers held c.peers 0 in
    elim (Bool-cases (ltb c.time (add32 c.last_hb c.hb_timeout))) [
      | inl early ↦ rw (hold_early c early) (sym slave)
      | inr late ↦ rw (hold_late c late) (elim (Bool-cases c.main_quit) [
        | inl quit ↦
            subst
              (λ b.
                (if b then (held, false) else take_over held scan).1
                ≡ (if b then (held, false) else take_over held scan).0.iam_master)
              (sym quit) (sym slave)
        | inr stay ↦
            subst
              (λ b.
                (if b then (held, false) else take_over held scan).1
                ≡ (if b then (held, false) else take_over held scan).0.iam_master)
              (sym stay) (take_over_marks held scan slave)
      ])
    ]

check_marks :
    (c : Cluster) → c.iam_master ≡ false → (check_master c).1 ≡ (check_master c).0.iam_master
check_marks c slave =
    let (n, done, e) = probe_form c in
    let still : (probe_master c).iam_master ≡ false = ap (λ d. d.iam_master) e ∙ slave in
    subst (λ r. r.1 ≡ r.0.iam_master) (sym (check_slave c slave))
      (hold_election_marks (probe_master c) still)

-- cluster_check_master leaves cluster_iam_master set on a slave exactly if the slave has waited out
-- the heartbeat timeout, is not shutting down, and no live peer is older, or equally old with a
-- larger address; and it goes on to take over the tables exactly if it has set it.
pub check_master-MayWin :
    (c : Cluster)
    → c.iam_master ≡ false
    → (((check_master c).0.iam_master ≡ true) ↔ MayWin c)
      × ((check_master c).1 ≡ (check_master c).0.iam_master)
check_master-MayWin c slave =
    let (win, may) = hold_election_lem (probe_master c) in
    let (there, back) = probe-MayWin c in
    let e = ap (λ r. r.1) (check_slave c slave) in
    let same = check_marks c slave in
    ((λ w. there (win (sym e ∙ same ∙ w)), λ m. sym same ∙ e ∙ may (back m)), same)

abbrev pub Among : ClusterPeer → List ClusterPeer → Type 0
Among p [] = ⊥
Among p (q ∷ peers) = (p ≡ q) ⊎ Among p peers

-- A node has another among its peers, with the other's start time, and hears of it.
abbrev pub Knows : Cluster → Cluster → Type 0
Knows a b =
    (p : ClusterPeer) × Among p a.peers
    × (p.peer ≡ b.my_address)
    × (p.basetime ≡ b.basetime)
    × Live a.time a.hb_timeout p
