-- ===== src/Cluster/Takeover/Walk.antt =====
-- One round of the takeover, and what every round keeps.
use mathlib.Core.Path.{subst}
use l2tpns.Prelude.{
  ℕ, zero, suc, ◌+◌, ◌≤◌, ◌<◌, ◌≡◌, ◌≢◌, inl, inr, refl, ap, ◌∙◌, some, true, not, ◌||◌, ◌==◌,
  if◌then◌else◌, leb, arith, Bool-cases, add32,
}
use l2tpns.IpMap.{put_at}
use l2tpns.IpMap.Lookup.{at_same, at_other}
use l2tpns.Tbf.{Tbfs}
use l2tpns.Cluster.Sync.{session, undef, free}
use l2tpns.Session.{Session, Local, Sessions, no_session, no_local, add_bytes, throttle_session}
use l2tpns.Cluster.Takeover.{walk, Taking, free_session, take_session}

-- What every round takes from one number to the next holds in the end.
pub walk_keeps {ℓ ℓ'} :
    {A : Type ℓ} (P : ℕ → A → Type ℓ') (step : A → ℕ → A) (left i : ℕ) (s : A)
    → ((j : ℕ) (s : A) → i ≤ j → j < i + left → P j s → P (j + 1) (step s j))
    → P i s
    → P (i + left) (walk step left i s)
unfolding walk
walk_keeps P step zero i s h p = subst (λ n. P n s) (omega arith) p
walk_keeps P step (suc left) i s h p =
    subst (λ n. P n (walk step left (i + 1) (step s i))) (omega arith)
      (walk_keeps P step left (i + 1) (step s i) (λ j s a b. h j s (omega arith) (omega arith))
        (h i s (omega arith) (omega arith) p))

-- What throttle_session may change of a session.
abbrev pub shaped : Session → ℕ → ℕ → ℕ → ℕ → Session
shaped x n a m b = record x { tbf_in = n; throttle_in = a; tbf_out = m; throttle_out = b }

pub throttle_keeps :
    (P : Sessions → Type 0) (s : Sessions) (i a b : ℕ)
    → P s
    → ((f : Tbfs) (n m : ℕ)
        → P (record s { tbfs = f; session = put_at s.session i (shaped (s.session i) n a m b) }))
    → P (throttle_session s i (some a) (some b))
unfolding throttle_session
throttle_keeps P s i a b same changed =
    elim (Bool-cases ((s.session i).opened == 0 || not (s.session i).has_user)) [
      | inl out ↦ rw out same
      | inr in_ ↦ rw in_ (changed _ _ _)
    ]

-- The writes of a round that frees a session.
hung :
    (t : ℕ → Session) (last i : ℕ) (x : Session)
    → last < i
    → let t1 = put_at (put_at t i x) i no_session in
      let t2 = put_at t1 last (record (t1 last) { next = i }) in
      let t3 = put_at t2 i (record (t2 i) { next = 0 }) in
      (t3 i ≡ no_session)
      × (t3 last ≡ record (t last) { next = i })
      × ((j : ℕ) → j ≢ i → j ≢ last → t3 j ≡ t j)
hung t last i x h =
    let apart : last ≢ i = λ e. omega arith in
    let apart' : i ≢ last = λ e. omega arith in
    let t0 = put_at t i x in
    let t1 = put_at t0 i no_session in
    let y : Session = record (t1 last) { next = i } in
    let t2 = put_at t1 last y in
    let z : Session = record (t2 i) { next = 0 } in
    (
      at_same t2 i i z refl
          ∙ ap (λ (w : Session). record w { next = 0 })
              (at_other t1 last i y apart' ∙ at_same t0 i i no_session refl),
      at_other t2 i last z apart
          ∙ at_same t1 last last y refl
          ∙ ap (λ (w : Session). record w { next = i })
              (at_other t0 i last no_session apart ∙ at_other t i last x apart),
      λ j a b.
          at_other t2 i j z a
          ∙ at_other t1 last j y b
          ∙ at_other t0 i j no_session a
          ∙ at_other t i j x a,
    )

-- An unused session: it is cleared and hung behind the last free one.
pub record Freed (s s' : Taking) (i : ℕ) : Type 0 where
  pub here : s'.tables.session i ≡ no_session
  pub last : s'.tables.session s.last_free ≡ record (s.tables.session s.last_free) { next = i }
  pub others : (j : ℕ) → j ≢ i → j ≢ s.last_free → s'.tables.session j ≡ s.tables.session j
  pub locals : s'.tables.sess_local ≡ s.tables.sess_local
  pub last_free : s'.last_free ≡ i
  pub unique : s'.high_unique_id ≡ s.high_unique_id
  pub highest : s'.highest_sessionid ≡ s.highest_sessionid

pub round-Freed :
    (time_now time : ℕ) (s : Taking) (i : ℕ)
    → (s.tables.session i).opened ≡ 0
    → s.last_free < i
    → Freed s (take_session time_now time s i) i
unfolding take_session free_session
round-Freed time_now time s i unused h =
    let x = s.tables.session i in
    let test : (x.opened == 0) ≡ true = ground arith in
    let (here, last, others) =
      hung s.tables.session s.last_free i
        (if x.tunnel == undef session then record x { tunnel = free session } else x) h in
    rw test (record {
      here = here;
      last = last;
      others = others;
      locals = refl;
      last_free = refl;
      unique = refl;
      highest = refl;
    })

-- What becomes of a session in use and of its local counters.
pub record Adopted (time_now : ℕ) (x : Session) (l : Local) (y : Session) (l' : Local)
    : Type 0 where
  pub defined : y.tunnel ≢ undef session
  pub tunnel : x.tunnel ≢ undef session → y.tunnel ≡ x.tunnel
  pub opened : y.opened ≡ x.opened
  pub unique_id : y.unique_id ≡ x.unique_id
  pub cin : y.cin ≡ add_bytes x.cin l.cin
  pub cout : y.cout ≡ add_bytes x.cout l.cout
  pub fcin : y.fcin ≡ add_bytes x.fcin l.fcin
  pub fcout : y.fcout ≡ add_bytes x.fcout l.fcout
  pub pin : y.pin ≡ add32 x.pin l.pin
  pub pout : y.pout ≡ add32 x.pout l.pout
  pub last_packet : y.last_packet ≡ time_now
  pub last_data : y.last_data ≡ time_now
  pub has_user : y.has_user ≡ x.has_user
  pub local : l' ≡ no_local

pub record Used (time_now : ℕ) (s s' : Taking) (i : ℕ) : Type 0 where
  pub here :
      Adopted time_now
        (s.tables.session i)
        (s.tables.sess_local i)
        (s'.tables.session i)
        (s'.tables.sess_local i)
  pub others : (j : ℕ) → j ≢ i → s'.tables.session j ≡ s.tables.session j
  pub locals : (j : ℕ) → j ≢ i → s'.tables.sess_local j ≡ s.tables.sess_local j
  pub last_free : s'.last_free ≡ s.last_free
  pub unique : s'.high_unique_id ≡ (
      if leb s.high_unique_id (s.tables.session i).unique_id
      then add32 (s.tables.session i).unique_id 1
      else s.high_unique_id)
  pub highest : s'.highest_sessionid ≡ i
