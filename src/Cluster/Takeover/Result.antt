-- ===== src/Cluster/Takeover/Result.antt =====
-- The tables that a new master has taken over.
use mathlib.Core.Path.{subst}
use l2tpns.Prelude.{
  ℕ, zero, suc, ◌-◌, ◌^◌, ◌≤◌, ◌<◌, ◌≡◌, ◌≢◌, inl, refl, sym, ap, ◌∙◌, true, ◌==◌, if◌then◌else◌,
  arith, ℕ_discrete,
}
use l2tpns.IpMap.{put_at}
use l2tpns.IpMap.Lookup.{at_same, at_other}
use l2tpns.Cluster.Sync.{session, bundle, tunnel, table_size, undef, free}
use l2tpns.Session.{Session, Local, Sessions, no_session}
use l2tpns.Cluster.Takeover.{
  walk, Taking, take_session, free_session, take_sessions, Server, take_over,
}
use l2tpns.Cluster.Takeover.Adopt.{Relinked}
use l2tpns.Cluster.Takeover.Free.{Linked, unused, Linked-end, walk-Strung}
use l2tpns.Cluster.Takeover.Settle.{
  Settled, Settled-Relinked, Relinked-next, Highest, Passed, walk-Passed,
}
use l2tpns.Cluster.Takeover.Entries.{Defined, walk-Defined}

-- The state before the first round.
abbrev start : Sessions → Taking
start tables = record { tables = tables; last_free = 0; high_unique_id = 0; highest_sessionid = 0 }

hung_zero :
    (t : ℕ → Session) (x : Session)
    → let t1 = put_at (put_at t 0 x) 0 no_session in
      let t2 = put_at t1 0 (record (t1 0) { next = 0 }) in
      let t3 = put_at t2 0 (record (t2 0) { next = 0 }) in
      ((t3 0).next ≡ 0) × ((j : ℕ) → 1 ≤ j → t3 j ≡ t j)
hung_zero t x =
    let t0 = put_at t 0 x in
    let t1 = put_at t0 0 no_session in
    let y : Session = record (t1 0) { next = 0 } in
    let t2 = put_at t1 0 y in
    let z : Session = record (t2 0) { next = 0 } in
    (
      ap (λ (w : Session). w.next) (at_same t2 0 0 z refl),
      λ j h.
          let ne : j ≢ 0 = λ e. omega arith in
          at_other t2 0 j z ne
          ∙ at_other t1 0 j y ne
          ∙ at_other t0 0 j no_session ne
          ∙ at_other t 0 j x ne,
    )

-- Round 0, which frees session 0: it holds the head of the free list.
round_zero :
    (time_now time : ℕ) (tables : Sessions)
    → (tables.session 0).opened ≡ 0
    → let s' = take_session time_now time (start tables) 0 in
      Passed time_now tables.session tables.sess_local 1 s'
      × (s'.last_free ≡ 0)
      × ((s'.tables.session 0).next ≡ 0)
unfolding take_session free_session
round_zero time_now time tables reserved =
    let x = tables.session 0 in
    let test : (x.opened == 0) ≡ true = ground arith in
    let (end, others) =
      hung_zero tables.session
        (if x.tunnel == undef session then record x { tunnel = free session } else x) in
    rw test (
      record {
        below = omega arith;
        fresh = others;
        fresh_local = λ j h. refl;
        settled = λ j a b. absurd (omega arith);
        highest = (λ j a b. absurd (omega arith), inl refl);
      },
      refl,
      end,
    )

-- The end of the chain.
end_chain :
    (time_now : ℕ) (x : Session) (l : Local) (t : ℕ → Session) (l' : Local) (last j : ℕ)
    → Settled time_now x l (t j) l'
    → Settled time_now x l (put_at t last (record (t last) { next = 0 }) j) l'
end_chain time_now x l t l' last j h =
    let z : Session = record (t last) { next = 0 } in
    Settled-Relinked time_now x l (t j) (put_at t last z j) l' l' h
      (elim (ℕ_discrete j last) [
        | yes e ↦
            subst (Relinked (t j)) (sym (at_same t last j z e))
              (subst (λ k. Relinked (t k) z) (sym e) (Relinked-next (t last) 0))
        | no ne ↦ subst (Relinked (t j)) (sym (at_other t last j z ne)) refl
      ])
      refl

pub take_sessions_lem :
    (size time_now time : ℕ) (tables : Sessions)
    → (tables.session 0).opened ≡ 0
    → ((j : ℕ) → j < size → (tables.session j).unique_id < 2 ^ 32 - 1)
    → 0 < size
    → let s = take_sessions size time_now time tables in
      Linked s.tables.session 0 (unused (size - 1) 1 (λ j. (tables.session j).opened))
      × ((j : ℕ)
          → 0 < j
          → j < size
          → Settled time_now
              (tables.session j)
              (tables.sess_local j)
              (s.tables.session j)
              (s.tables.sess_local j))
      × Highest tables.session size s.highest_sessionid s.high_unique_id
unfolding take_sessions walk
take_sessions_lem zero time_now time tables reserved small pos = absurd (omega arith)
take_sessions_lem (suc n) time_now time tables reserved small pos =
    let s1 = take_session time_now time (start tables) 0 in
    let s = walk (take_session time_now time) n 1 s1 in
    let (p, last, end) = round_zero time_now time tables reserved in
    let passed =
      walk-Passed time_now time tables.session tables.sess_local n 1 s1 (omega arith)
        (λ j h. small j (omega arith)) p in
    let (chain, ends, kept) =
      walk-Strung time_now time (λ j. (tables.session j).opened) n 1 s1
        (λ j h. ap (λ (x : Session). x.opened) (p.fresh j h)) p.below
        (ap (λ k. (s1.tables.session k).next) last ∙ end) in
    (
      Linked-end (unused (suc n - 1) 1 (λ j. (tables.session j).opened)) s.tables.session 0
          s.last_free ends
          (subst
            (λ a. Linked s.tables.session a (unused (suc n - 1) 1 (λ j. (tables.session j).opened)))
            last
            (subst
              (λ m.
                Linked s.tables.session s1.last_free (unused m 1 (λ j. (tables.session j).opened)))
              (omega arith) chain)),
      λ j a b.
          end_chain time_now (tables.session j) (tables.sess_local j) s.tables.session
            (s.tables.sess_local j) s.last_free j (passed.settled j a (omega arith)),
      subst (λ m. Highest tables.session m s.highest_sessionid s.high_unique_id) (omega arith)
          passed.highest,
    )

-- Of a new master whose session 0 is the head of the free list and where no session has the last
-- unique id: the free list holds exactly the sessions from 1 on that were unused, in order, and
-- these are cleared in every field but their place in the list. A session in use keeps its
-- unique id, its user and its tunnel, if that is defined; its local byte counts, for billing and
-- free, and its local packet counts are added to its counters and start again at 0; and it
-- counts as active now. The highest numbers are those of the highest session, bundle and tunnel
-- in use, the next unique id is above all in use, and no entry is undefined.
pub take_over_lem :
    (time_now time : ℕ) (s : Server)
    → (s.tables.session 0).opened ≡ 0
    → ((j : ℕ) → j < table_size session → (s.tables.session j).unique_id < 2 ^ 32 - 1)
    → let s' = take_over time_now time s in
      Linked s'.tables.session 0
        (unused (table_size session - 1) 1 (λ j. (s.tables.session j).opened))
      × ((j : ℕ)
          → 0 < j
          → j < table_size session
          → Settled time_now
              (s.tables.session j)
              (s.tables.sess_local j)
              (s'.tables.session j)
              (s'.tables.sess_local j))
      × Highest s.tables.session (table_size session) s'.highest_sessionid s'.last_id
      × Defined bundle s.bundles.states (table_size bundle) s'.bundles
      × Defined tunnel s.tunnels.states (table_size tunnel) s'.tunnels
unfolding take_over
take_over_lem time_now time s reserved small =
    let (chain, settled, highest) =
      take_sessions_lem (table_size session) time_now time s.tables reserved small (omega arith) in
    (
      chain,
      settled,
      highest,
      walk-Defined bundle (table_size bundle) s.bundles,
      walk-Defined tunnel (table_size tunnel) s.tunnels,
    )
