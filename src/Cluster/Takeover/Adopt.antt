-- ===== src/Cluster/Takeover/Adopt.antt =====
-- The round of the takeover for a session in use.
use mathlib.Core.Path.{subst}
use l2tpns.Prelude.{
  ℕ, ◌≡◌, ◌≢◌, inl, inr, refl, sym, ap, ◌∙◌, some, false, ◌==◌, if◌then◌else◌, leb, arith,
  Bool-cases, add32,
}
use l2tpns.IpMap.{put_at}
use l2tpns.IpMap.Lookup.{at_same, at_other}
use l2tpns.Cluster.Sync.{session, undef, free}
use l2tpns.Session.{Session, Local, Sessions, no_local, with_session, throttle_session}
use l2tpns.Cluster.Takeover.{Taking, adopted, adopt_session, take_session}
use l2tpns.Cluster.Takeover.Walk.{throttle_keeps, shaped, Adopted, Used}

-- The fields that neither the shaping nor the free list touches.
pub record Alike (x y : Session) : Type 0 where
  pub tunnel : y.tunnel ≡ x.tunnel
  pub opened : y.opened ≡ x.opened
  pub unique_id : y.unique_id ≡ x.unique_id
  pub cin : y.cin ≡ x.cin
  pub cout : y.cout ≡ x.cout
  pub fcin : y.fcin ≡ x.fcin
  pub fcout : y.fcout ≡ x.fcout
  pub pin : y.pin ≡ x.pin
  pub pout : y.pout ≡ x.pout
  pub last_packet : y.last_packet ≡ x.last_packet
  pub last_data : y.last_data ≡ x.last_data
  pub has_user : y.has_user ≡ x.has_user

pub Adopted-Alike :
    (time_now : ℕ) (x : Session) (l : Local) (y z : Session) (l' : Local)
    → Adopted time_now x l y l'
    → Alike y z
    → Adopted time_now x l z l'
Adopted-Alike time_now x l y z l' a k = record {
  defined = λ e. a.defined (sym k.tunnel ∙ e);
  tunnel = λ d. k.tunnel ∙ a.tunnel d;
  opened = k.opened ∙ a.opened;
  unique_id = k.unique_id ∙ a.unique_id;
  cin = k.cin ∙ a.cin;
  cout = k.cout ∙ a.cout;
  fcin = k.fcin ∙ a.fcin;
  fcout = k.fcout ∙ a.fcout;
  pin = k.pin ∙ a.pin;
  pout = k.pout ∙ a.pout;
  last_packet = k.last_packet ∙ a.last_packet;
  last_data = k.last_data ∙ a.last_data;
  has_user = k.has_user ∙ a.has_user;
  local = a.local;
}

Alike-self : (x : Session) → Alike x x
Alike-self x = record {
  tunnel = refl;
  opened = refl;
  unique_id = refl;
  cin = refl;
  cout = refl;
  fcin = refl;
  fcout = refl;
  pin = refl;
  pout = refl;
  last_packet = refl;
  last_data = refl;
  has_user = refl;
}

-- A session is the other but for its place in the free list.
abbrev pub Relinked : Session → Session → Type 0
Relinked x y = y ≡ record x { next = y.next }

pub Relinked-trans : (x y z : Session) → Relinked x y → Relinked y z → Relinked x z
Relinked-trans x y z a b = b ∙ ap (λ (w : Session). record w { next = z.next }) a

pub Relinked-Alike : (x y : Session) → Relinked x y → Alike x y
Relinked-Alike x y e = subst (Alike x) (sym e) (linked x y.next)
  where
    linked : (x : Session) (n : ℕ) → Alike x (record x { next = n })
    linked x n = record {
      tunnel = refl;
      opened = refl;
      unique_id = refl;
      cin = refl;
      cout = refl;
      fcin = refl;
      fcout = refl;
      pin = refl;
      pout = refl;
      last_packet = refl;
      last_data = refl;
      has_user = refl;
    }

Alike-shaped : (x : Session) (n a m b : ℕ) → Alike x (shaped x n a m b)
Alike-shaped x n a m b = record {
  tunnel = refl;
  opened = refl;
  unique_id = refl;
  cin = refl;
  cout = refl;
  fcin = refl;
  fcout = refl;
  pin = refl;
  pout = refl;
  last_packet = refl;
  last_data = refl;
  has_user = refl;
}

-- throttle_session changes the shaping of its session only.
record Throttled (s s' : Sessions) (i : ℕ) : Type 0 where
  here : Alike (s.session i) (s'.session i)
  others : (j : ℕ) → j ≢ i → s'.session j ≡ s.session j
  locals : s'.sess_local ≡ s.sess_local

throttle_session-Throttled :
    (s : Sessions) (i a b : ℕ) → Throttled s (throttle_session s i (some a) (some b)) i
throttle_session-Throttled s i a b =
    throttle_keeps (λ s'. Throttled s s' i) s i a b
      (record { here = Alike-self (s.session i); others = λ j ne. refl; locals = refl })
      (λ f n m.
        let x = shaped (s.session i) n a m b in
        record {
          here =
              subst (Alike (s.session i)) (sym (at_same s.session i i x refl))
                (Alike-shaped (s.session i) n a m b);
          others = λ j ne. at_other s.session i j x ne;
          locals = refl;
        })

-- The session as the round leaves it before it is shaped.
abbrev defined : Session → Session
defined x = if x.tunnel == undef session then record x { tunnel = free session } else x

defined-adopted :
    (time_now time : ℕ) (x : Session) (l : Local)
    → Adopted time_now x l (adopted time_now time (defined x) l) no_local
unfolding adopted
defined-adopted time_now time x l = elim (Bool-cases (x.tunnel == undef session)) [
  | inl gone ↦ rw gone (record {
    defined = λ e. omega arith;
    tunnel = λ d. ground arith;
    opened = refl;
    unique_id = refl;
    cin = refl;
    cout = refl;
    fcin = refl;
    fcout = refl;
    pin = refl;
    pout = refl;
    last_packet = refl;
    last_data = refl;
    has_user = refl;
    local = refl;
  })
  | inr here ↦ rw here (record {
    defined = λ e. ground arith;
    tunnel = λ d. refl;
    opened = refl;
    unique_id = refl;
    cin = refl;
    cout = refl;
    fcin = refl;
    fcout = refl;
    pin = refl;
    pout = refl;
    last_packet = refl;
    last_data = refl;
    has_user = refl;
    local = refl;
  })
]

-- adopt_session, against the session before it.
record Taken (time_now time : ℕ) (s s' : Taking) (i : ℕ) : Type 0 where
  here :
      Alike
        (adopted time_now time (s.tables.session i) (s.tables.sess_local i))
        (s'.tables.session i)
  local : s'.tables.sess_local i ≡ no_local
  others : (j : ℕ) → j ≢ i → s'.tables.session j ≡ s.tables.session j
  locals : (j : ℕ) → j ≢ i → s'.tables.sess_local j ≡ s.tables.sess_local j
  last_free : s'.last_free ≡ s.last_free
  unique : s'.high_unique_id ≡ (
      if leb s.high_unique_id (s.tables.session i).unique_id
      then add32 (s.tables.session i).unique_id 1
      else s.high_unique_id)
  highest : s'.highest_sessionid ≡ i

adopted-unique_id :
    (time_now time : ℕ) (x : Session) (l : Local)
    → (adopted time_now time x l).unique_id ≡ x.unique_id
unfolding adopted
adopted-unique_id time_now time x l = refl

adopt_session-Taken :
    (time_now time : ℕ) (s : Taking) (i : ℕ)
    → Taken time_now time s (adopt_session time_now time s i) i
unfolding adopt_session
adopt_session-Taken time_now time s i =
    let x = s.tables.session i in
    let y = adopted time_now time x (s.tables.sess_local i) in
    let tables : Sessions = record s.tables {
      session = put_at s.tables.session i y;
      sess_local = put_at s.tables.sess_local i no_local;
    } in
    let th = throttle_session-Throttled tables i y.throttle_in y.throttle_out in
    let number = adopted-unique_id time_now time x (s.tables.sess_local i) in
    record {
      here =
          subst
            (λ w.
              Alike w
                ((throttle_session tables i (some y.throttle_in) (some y.throttle_out)).session i))
            (at_same s.tables.session i i y refl) th.here;
      local = ap (λ t. t i) th.locals ∙ at_same s.tables.sess_local i i no_local refl;
      others = λ j ne. th.others j ne ∙ at_other s.tables.session i j y ne;
      locals = λ j ne. ap (λ t. t j) th.locals ∙ at_other s.tables.sess_local i j no_local ne;
      last_free = refl;
      unique = ap (λ n. if leb s.high_unique_id n then add32 n 1 else s.high_unique_id) number;
      highest = refl;
    }

defined-unique_id : (x : Session) → (defined x).unique_id ≡ x.unique_id
defined-unique_id x = elim (Bool-cases (x.tunnel == undef session)) [
  | inl gone ↦ rw gone refl
  | inr here ↦ rw here refl
]

pub round-Used :
    (time_now time : ℕ) (s : Taking) (i : ℕ)
    → (s.tables.session i).opened ≢ 0
    → Used time_now s (take_session time_now time s i) i
unfolding take_session
round-Used time_now time s i used =
    let x = s.tables.session i in
    let l = s.tables.sess_local i in
    let test : (x.opened == 0) ≡ false = ground arith in
    let s0 : Taking = record s { tables = with_session s.tables i (defined x) } in
    let k = adopt_session-Taken time_now time s0 i in
    let first : s0.tables.session i ≡ defined x = at_same s.tables.session i i (defined x) refl in
    let s' = adopt_session time_now time s0 i in
    let here : Alike (adopted time_now time (defined x) l) (s'.tables.session i) =
      subst (λ w. Alike (adopted time_now time w l) (s'.tables.session i)) first k.here in
    let number = ap (λ (w : Session). w.unique_id) first ∙ defined-unique_id x in
    rw test (record {
      here = subst (Adopted time_now x l (s'.tables.session i)) (sym k.local) (
          Adopted-Alike time_now x l (adopted time_now time (defined x) l) (s'.tables.session i)
            no_local (defined-adopted time_now time x l) here);
      others = λ j ne. k.others j ne ∙ at_other s.tables.session i j (defined x) ne;
      locals = k.locals;
      last_free = k.last_free;
      unique =
          k.unique
          ∙ ap (λ n. if leb s.high_unique_id n then add32 n 1 else s.high_unique_id) number;
      highest = k.highest;
    })
