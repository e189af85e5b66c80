-- ===== src/Cluster/Heartbeat/Sequence.antt =====
-- A slave takes the heartbeats in the order of their numbers.
use mathlib.Core.Path.{subst}
use l2tpns.Prelude.{
  ℕ, zero, suc, ◌+◌, ◌%◌, ◌<◌, ◌≡◌, ◌≢◌, ◌⊎◌, inl, inr, refl, sym, ap, ◌∙◌, List, [], ◌∷◌, ◌++◌,
  Option, none, some, true, false, ◌==◌, ◌||◌, ◌&&◌, not, arith, Bool-cases,
}
use l2tpns.IpMap.Lookup.{at_same, at_other}
use l2tpns.Cluster.Catchup.{Heart, hb_max_seq, hb_history_size, before, at_number, step_number}
use l2tpns.Cluster.Heartbeat.{
  Header, Node, waits, goes_on, align, expected, ask_again, hb_version, save_heart, admitted,
  begin_heartbeat, end_heartbeat,
}
use l2tpns.Cluster.Heartbeat.Masters.{Acceptable, begin_acceptable}

-- A slave that expects number `n`, of the master at `addr` or of none.
pub record Follows (c : Node) (addr n : ℕ) : Type 0 where
  pub slave : c.iam_master ≡ false
  pub master : (c.master_address ≡ 0) ⊎ (c.master_address ≡ addr)
  pub expects : c.seq_number ≡ some n

own_master :
    (c : Node) (addr n : ℕ)
    → Follows c addr n
    → (not (c.master_address == 0) && not (addr == c.master_address)) ≡ false
own_master c addr n f = let m = f.master in ground arith

wanted : (c : Node) (addr n seq : ℕ) → Follows c addr n → expected c seq ≡ n
wanted c addr n seq f = ap (λ (o : Option ℕ). elim o [ none ↦ seq | some k ↦ k ]) f.expects

admit_next :
    (c : Node) (hb_ver : ℕ) (packet : List ℕ) (h : Header) (addr n : ℕ)
    → Follows c addr n
    → h.seq ≡ n
    → admitted c hb_ver packet h addr ≡ (save_heart (align c h.seq hb_ver) h packet, goes_on)
unfolding admitted
admit_next c hb_ver packet h addr n f e =
    let w = wanted c addr n h.seq f in
    let here : (expected c h.seq == h.seq) ≡ true = ground arith in
    let own = own_master c addr n f in simp (f.slave, own, here)

admit_other :
    (c : Node) (hb_ver : ℕ) (packet : List ℕ) (h : Header) (addr n : ℕ)
    → Follows c addr n
    → h.seq ≢ n
    → admitted c hb_ver packet h addr
      ≡ (ask_again (align c h.seq hb_ver) (expected c h.seq) addr, waits)
unfolding admitted
admit_other c hb_ver packet h addr n f e =
    let w = wanted c addr n h.seq f in
    let off : (expected c h.seq == h.seq) ≡ false = ground arith in
    let own = own_master c addr n f in simp (f.slave, own, off)

-- Asking changes neither the number nor the ring, and asks for the number at most once a second.
asks :
    (c : Node) (want addr : ℕ)
    → let c' = ask_again c want addr in
      (c'.seq_number ≡ c.seq_number)
      × (c'.past ≡ c.past)
      × (c'.table_version ≡ c.table_version)
      × ((c'.asked ≡ c.asked) × (want ≡ c.lastseen_seq) × (c.time_now ≡ c.lastseen_time)
          ⊎ (c'.asked ≡ c.asked ++ (addr, want) ∷ [])
            × (c'.lastseen_seq ≡ want)
            × (c'.lastseen_time ≡ c.time_now))
unfolding ask_again
asks c want addr =
    elim (Bool-cases (not (want == c.lastseen_seq) || not (c.time_now == c.lastseen_time))) [
      | inl ask ↦ rw ask (refl, refl, refl, inr (refl, refl, refl))
      | inr quiet ↦ rw quiet (refl, refl, refl, inl (refl, ground arith, ground arith))
    ]

aligned :
    (c : Node) (addr n seq hb_ver : ℕ) → Follows c addr n → (align c seq hb_ver).seq_number ≡ some n
aligned c addr n seq hb_ver f =
    ap (λ (o : Option ℕ). elim o as (λ x. Option ℕ) [ none ↦ some seq | some k ↦ some k ]) f.expects

-- The slave has asked for `want` just now, or within the same second as the last thing.
abbrev pub Asked : Node → Node → ℕ → ℕ → Type 0
Asked c c' addr want =
    (c'.asked ≡ c.asked) × (want ≡ c.lastseen_seq) × (c.time_now ≡ c.lastseen_time)
    ⊎ (c'.asked ≡ c.asked ++ (addr, want) ∷ [])
      × (c'.lastseen_seq ≡ want)
      × (c'.lastseen_time ≡ c.time_now)

-- What a slave that expects number `n` makes of a heartbeat of its master: number `n` it takes, and
-- expects the next; at any other it keeps its number, its ring and its table version, and asks for
-- number `n`, unless that was the last thing it asked for, within this second.
pub slave_lem :
    (header_size : ℕ) (c : Node) (hb_ver : ℕ) (packet : List ℕ) (s : ℕ) (h : Header) (addr n : ℕ)
    → Acceptable header_size c.bind_address hb_ver packet s h
    → Follows c addr n
    → let (c', v) = begin_heartbeat header_size c hb_ver packet s h addr in
      (h.seq ≡ n
        → (v ≡ goes_on)
          × (c'.seq_number ≡ some ((n + 1) % hb_max_seq))
          × (c'.past (n % hb_history_size) ≡ record { seq = n; bytes = packet })
          × ((j : ℕ) → j ≢ n % hb_history_size → c'.past j ≡ c.past j))
      × (h.seq ≢ n
          → (v ≡ waits)
            × (c'.seq_number ≡ some n)
            × (c'.past ≡ c.past)
            × (c'.table_version ≡ c.table_version)
            × Asked c c' addr n)
slave_lem header_size c hb_ver packet s h addr n ok f =
    let e = begin_acceptable header_size c hb_ver packet s h addr ok in
    let heart : ℕ → Heart = λ q. record { seq = q; bytes = packet } in
    (
      λ same. rw (e ∙ admit_next c hb_ver packet h addr n f same) (
        refl,
        ap (λ q. some ((q + 1) % hb_max_seq)) same,
        at_same c.past (h.seq % hb_history_size) (n % hb_history_size) (heart h.seq)
              (ap (λ q. q % hb_history_size) (sym same))
            ∙ ap heart same,
        λ j ne.
            at_other c.past (h.seq % hb_history_size) j (heart h.seq)
              (λ i. ne (i ∙ ap (λ q. q % hb_history_size) same)),
      ),
      λ other. rw (e ∙ admit_other c hb_ver packet h addr n f other) (
          let (number, ring, version, asked) =
            asks (align c h.seq hb_ver) (expected c h.seq) addr in
          (
            refl,
            number ∙ aligned c addr n h.seq hb_ver f,
            ring,
            version,
            subst (Asked c (ask_again (align c h.seq hb_ver) (expected c h.seq) addr) addr)
                (wanted c addr n h.seq f) asked,
          )),
    )

-- A slave is sent the heartbeats number `n - d` to `n - 1` by its master, one after the other. The
-- structures in them change none of these variables.
abbrev pub receive : ℕ → ℕ → (ℕ → Header) → (ℕ → List ℕ) → ℕ → ℕ → ℕ → Node → Node
receive header_size s hdr beat addr n zero c = c
receive header_size s hdr beat addr n (suc d) c =
    let q = before n (suc d) in
    let begun = (begin_heartbeat header_size c hb_version (beat q) s (hdr q) addr).0 in
    receive header_size s hdr beat addr n d (end_heartbeat begun (hdr q) addr)

one_more :
    (header_size s : ℕ) (hdr : ℕ → Header) (beat : ℕ → List ℕ) (addr q next : ℕ) (c : Node)
    → Acceptable header_size c.bind_address hb_version (beat q) s (hdr q)
    → (hdr q).seq ≡ q
    → (q + 1) % hb_max_seq ≡ next
    → Follows c addr q
    → let begun = (begin_heartbeat header_size c hb_version (beat q) s (hdr q) addr).0 in
      let c' = end_heartbeat begun (hdr q) addr in
      Follows c' addr next × (c'.bind_address ≡ c.bind_address)
unfolding end_heartbeat
one_more header_size s hdr beat addr q next c ok number e f =
    rw
      (begin_acceptable header_size c hb_version (beat q) s (hdr q) addr ok
        ∙ admit_next c hb_version (beat q) (hdr q) addr q f number)
      (
        record {
          slave = f.slave;
          master = inr refl;
          expects = ap (λ k. some ((k + 1) % hb_max_seq)) number ∙ ap some e;
        },
        refl,
      )

-- A slave that is fewer than 64 heartbeats behind its master and receives, in order, the ones it
-- lacks, as cluster_catchup_slave sends them, ends expecting the master's next number.
pub receive_catches_up :
    (header_size s : ℕ) (hdr : ℕ → Header) (beat : ℕ → List ℕ) (addr n d : ℕ) (c : Node)
    → n < hb_max_seq
    → d < hb_history_size
    → ((q : ℕ) → Acceptable header_size c.bind_address hb_version (beat q) s (hdr q))
    → ((q : ℕ) → (hdr q).seq ≡ q)
    → Follows c addr (before n d)
    → Follows (receive header_size s hdr beat addr n d c) addr n
receive_catches_up header_size s hdr beat addr n zero c h k ok number f =
    subst (Follows c addr) (at_number n h) f
receive_catches_up header_size s hdr beat addr n (suc d) c h k ok number f =
    let q = before n (suc d) in
    let begun = (begin_heartbeat header_size c hb_version (beat q) s (hdr q) addr).0 in
    let (f', same) =
      one_more header_size s hdr beat addr q (before n d) c (ok q) (number q)
        (step_number n d h (omega arith)) f in
    receive_catches_up header_size s hdr beat addr n d (end_heartbeat begun (hdr q) addr) h
      (omega arith)
      (λ r. subst (λ b. Acceptable header_size b hb_version (beat r) s (hdr r)) (sym same) (ok r))
      number f'
