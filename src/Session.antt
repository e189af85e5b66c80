-- ===== src/Session.antt =====
-- The session table of l2tpns.h and what l2tpns.c and cluster.c do with its counters, its shaping
-- and its free list: increment_counter, throttle_session, sessionclear and cluster_handle_bytes.
-- Of a session only these fields are kept; `has_user` says whether `user` is not empty. A counter
-- is the three fields of one name: `cin` stands for cin, cin_wrap and cin_delta.
pub mod Counters
mod Tests
use l2tpns.Prelude.{
  ℕ, zero, suc, ◌+◌, ◌-◌, ◌*◌, ◌/◌, ◌%◌, ◌^◌, List, [], ◌∷◌, Option, none, some, Bool, true, false,
  not, ◌&&◌, ◌||◌, ltb, ◌==◌, if◌then◌else◌, add32,
}
use l2tpns.IpMap.{put_at}
use l2tpns.Tbf.{Tbfs, free_tbf, new_tbf}

pub record Counter : Type 0 where
  pub count : ℕ
  pub wrap : ℕ
  pub delta : ℕ

-- `sessiont`
pub record Session : Type 0 where
  pub next : ℕ
  pub tunnel : ℕ
  pub unique_id : ℕ
  pub cin : Counter
  pub cout : Counter
  pub fcin : Counter
  pub fcout : Counter
  pub pin : ℕ
  pub pout : ℕ
  pub throttle_in : ℕ
  pub throttle_out : ℕ
  pub opened : ℕ
  pub die : ℕ
  pub last_packet : ℕ
  pub last_data : ℕ
  pub tbf_in : ℕ
  pub tbf_out : ℕ
  pub has_user : Bool

-- `sessionlocalt`
pub record Local : Type 0 where
  pub cin : ℕ
  pub cout : ℕ
  pub fcin : ℕ
  pub fcout : ℕ
  pub pin : ℕ
  pub pout : ℕ
  pub radius : ℕ

abbrev pub no_counter : Counter
no_counter = record { count = 0; wrap = 0; delta = 0 }

-- What memset leaves; T_FREE is 0.
abbrev pub no_session : Session
no_session = record {
  next = 0;
  tunnel = 0;
  unique_id = 0;
  cin = no_counter;
  cout = no_counter;
  fcin = no_counter;
  fcout = no_counter;
  pin = 0;
  pout = 0;
  throttle_in = 0;
  throttle_out = 0;
  opened = 0;
  die = 0;
  last_packet = 0;
  last_data = 0;
  tbf_in = 0;
  tbf_out = 0;
  has_user = false;
}

abbrev pub no_local : Local
no_local = record { cin = 0; cout = 0; fcin = 0; fcout = 0; pin = 0; pout = 0; radius = 0 }

-- increment_counter, on the counter and its wraps.
unfoldable pub increment_counter : Counter → ℕ → Counter
increment_counter c delta =
    let new = add32 c.count delta in
    record c { count = new; wrap = if ltb new c.count then add32 c.wrap 1 else c.wrap }

-- A call of increment_counter and the addition to the delta beside it.
unfoldable pub add_bytes : Counter → ℕ → Counter
unfolding increment_counter
add_bytes c delta = let c' = increment_counter c delta in record c' { delta = add32 c.delta delta }

-- The table of sessions and the shaping filters.
pub record Sessions : Type 0 where
  pub session : ℕ → Session
  pub sess_local : ℕ → Local
  pub tbfs : Tbfs

abbrev pub with_session : Sessions → ℕ → Session → Sessions
with_session s i x = record s { session = put_at s.session i x }

-- One direction of throttle_session: the filters and the number of the new one.
unfoldable pub throttle_one : Tbfs → ℕ → ℕ → ℕ → Tbfs × ℕ
unfolding free_tbf new_tbf
throttle_one f i old rate =
    let bytes = rate * 1024 / 8 in
    let freed = if old == 0 then f else (free_tbf f old).0 in
    if rate == 0 then (freed, 0) else new_tbf freed i (bytes * 2) bytes true

abbrev pub shape_in : Sessions → ℕ → Session → Option ℕ → Sessions × Session
shape_in s i x none = (s, x)
shape_in s i x (some rate) =
    let (f, n) = throttle_one s.tbfs i x.tbf_in rate in
    (record s { tbfs = f }, record x { tbf_in = n; throttle_in = rate })

abbrev pub shape_out : Sessions → ℕ → Session → Option ℕ → Sessions × Session
shape_out s i x none = (s, x)
shape_out s i x (some rate) =
    let (f, n) = throttle_one s.tbfs i x.tbf_out rate in
    (record s { tbfs = f }, record x { tbf_out = n; throttle_out = rate })

-- `none` stands for a negative rate; the others are below 2 ^ 16.
unfoldable pub throttle_session : Sessions → ℕ → Option ℕ → Option ℕ → Sessions
throttle_session s i rate_in rate_out =
    let x = s.session i in
    let (s', x') = shape_in s i x rate_in in
    let (s'', x'') = shape_out s' i x' rate_out in
    if x.opened == 0 || not x.has_user then s else with_session s'' i x''

-- sessionclear; `session 0` holds the head of the free list, `sessionfree`.
unfoldable pub sessionclear : Sessions → ℕ → Sessions
sessionclear s i =
    let free = (s.session 0).next in
    let cleared = put_at s.session i (record no_session { next = free }) in
    record s {
      session = put_at cleared 0 (record (cleared 0) { next = i });
      sess_local = put_at s.sess_local i no_local;
    }

-- `bytest`
pub record Bytes : Type 0 where
  pub sid : ℕ
  pub pin : ℕ
  pub pout : ℕ
  pub cin : ℕ
  pub cout : ℕ

abbrev pub count_bytes : ℕ → Session → Bytes → Session
count_bytes time_now x b =
    let heard = not (b.cin == 0) in
    record x {
      pin = add32 x.pin b.pin;
      pout = add32 x.pout b.pout;
      cin = add_bytes x.cin b.cin;
      cout = add_bytes x.cout b.cout;
      last_packet = if heard then time_now else x.last_packet;
      last_data = if heard || not (b.cout == 0) then time_now else x.last_data;
    }

-- What cluster_handle_bytes comes to: `done` with the number of bytes left over, `aborts` with -1,
-- and `overruns` where it writes behind the end of `session`.
pub data Outcome : Type 0 where
  done : ℕ → Outcome
  aborts overruns : Outcome

-- The packet is its records and `junk` bytes that do not make another.
unfoldable pub cluster_handle_bytes :
    ℕ → ℕ → List Bytes → ℕ → (ℕ → Session) → (ℕ → Session) × Outcome
cluster_handle_bytes max_session time_now [] junk t = (t, done junk)
cluster_handle_bytes max_session time_now (b ∷ packet) junk t =
    let rest =
      cluster_handle_bytes max_session time_now packet junk
        (put_at t b.sid (count_bytes time_now (t b.sid) b)) in
    if ltb max_session b.sid
    then (t, aborts)
    else if b.sid == max_session
    then (t, overruns)
    else rest
