-- ===== src/Cluster/Takeover.antt =====
-- The end of cluster_check_master of cluster.c: the new master takes over the tables. Each of its
-- loops is one walk over a table. become_master, which only tells the plugins and the event loop,
-- and rebuild_address_pool, which is in Pool, are not here.
pub mod Walk
pub mod Adopt
pub mod Free
pub mod Settle
pub mod Entries
pub mod Result
mod Tests
use l2tpns.Prelude.{
  ℕ, zero, suc, ◌+◌, ◌-◌, ◌%◌, ◌^◌, Option, none, some, Bool, true, false, not, ◌&&◌, ◌||◌, ltb,
  leb, ◌==◌, if◌then◌else◌, add32,
}
use l2tpns.IpMap.{put_at}
use l2tpns.Cluster.Sync.{Kind, session, bundle, tunnel, table_size, undef, free}
use l2tpns.Session.{
  Session, Local, Sessions, no_session, no_local, with_session, add_bytes, throttle_session,
}

-- A loop over `left` entries from entry `i` on.
unfoldable pub walk {ℓ} : {A : Type ℓ} → (A → ℕ → A) → ℕ → ℕ → A → A
walk step zero i s = s
walk step (suc left) i s = walk step left (i + 1) (step s i)

-- The states of the tunnels or the bundles, and the highest number in use.
pub record Numbered : Type 0 where
  pub states : ℕ → ℕ
  pub highest : ℕ

-- One round over the tunnels or the bundles.
unfoldable pub define_entry : Kind → Numbered → ℕ → Numbered
define_entry k s i =
    let state = if s.states i == undef k then free k else s.states i in
    record {
      states = put_at s.states i state;
      highest = if not (state == free k) && ltb s.highest i then i else s.highest;
    }

-- The sessions and the variables of their loop; `high_unique_id` is as wide as `unique_id`.
pub record Taking : Type 0 where
  pub tables : Sessions
  pub last_free : ℕ
  pub high_unique_id : ℕ
  pub highest_sessionid : ℕ

-- An unused session is cleared and hung behind the last free one.
unfoldable pub free_session : Taking → ℕ → Taking
free_session s i =
    let t = put_at s.tables.session i no_session in
    let hung = put_at t s.last_free (record (t s.last_free) { next = i }) in
    let ended = put_at hung i (record (hung i) { next = 0 }) in
    record s { tables = record s.tables { session = ended }; last_free = i }

-- "Reset idle timeouts", "Accumulate un-sent byte/packet counters", "Remove stale pointers".
unfoldable pub adopted : ℕ → ℕ → Session → Local → Session
unfolding add_bytes
adopted time_now time x l = record x {
  last_packet = time_now;
  last_data = time_now;
  die = if x.die == 0 then 0 else time;
  fcin = add_bytes x.fcin l.fcin;
  fcout = add_bytes x.fcout l.fcout;
  cin = add_bytes x.cin l.cin;
  cout = add_bytes x.cout l.cout;
  pin = add32 x.pin l.pin;
  pout = add32 x.pout l.pout;
  tbf_in = 0;
  tbf_out = 0;
}

-- A session in use.
unfoldable pub adopt_session : ℕ → ℕ → Taking → ℕ → Taking
unfolding adopted throttle_session
adopt_session time_now time s i =
    let x = adopted time_now time (s.tables.session i) (s.tables.sess_local i) in
    let counted = record s.tables {
      session = put_at s.tables.session i x;
      sess_local = put_at s.tables.sess_local i no_local;
    } in
    record s {
      tables = throttle_session counted i (some x.throttle_in) (some x.throttle_out);
      high_unique_id =
          if leb s.high_unique_id x.unique_id then add32 x.unique_id 1 else s.high_unique_id;
      highest_sessionid = i;
    }

-- One round over the sessions.
unfoldable pub take_session : ℕ → ℕ → Taking → ℕ → Taking
unfolding free_session adopt_session
take_session time_now time s i =
    let x = s.tables.session i in
    let defined = if x.tunnel == undef session then record x { tunnel = free session } else x in
    let s' = record s { tables = with_session s.tables i defined } in
    if x.opened == 0 then free_session s' i else adopt_session time_now time s' i

-- The loop over the sessions with what stands before and behind it.
unfoldable pub take_sessions : ℕ → ℕ → ℕ → Sessions → Taking
unfolding walk take_session
take_sessions max_session time_now time tables =
    let start : Taking = record {
      tables = tables;
      last_free = 0;
      high_unique_id = 0;
      highest_sessionid = 0;
    } in
    let s = walk (take_session time_now time) max_session 0 start in
    let t = s.tables.session in
    record s { tables = with_session s.tables s.last_free (record (t s.last_free) { next = 0 }) }

-- What of `config` and of the tables is taken over.
pub record Server : Type 0 where
  pub tables : Sessions
  pub bundles : Numbered
  pub tunnels : Numbered
  pub highest_sessionid : ℕ
  pub last_id : ℕ
  pub seq_number : Option ℕ
  pub undefined_sessions : ℕ
  pub undefined_bundles : ℕ
  pub undefined_tunnels : ℕ
  pub iam_uptodate : Bool

unfoldable pub take_over : ℕ → ℕ → Server → Server
unfolding walk define_entry take_sessions
take_over time_now time s =
    let t = take_sessions (table_size session) time_now time s.tables in
    record {
      tables = t.tables;
      bundles = walk (define_entry bundle) (table_size bundle) 0 (record s.bundles { highest = 0 });
      tunnels = walk (define_entry tunnel) (table_size tunnel) 0 (record s.tunnels { highest = 0 });
      highest_sessionid = t.highest_sessionid;
      last_id = t.high_unique_id;
      seq_number = elim s.seq_number [ none ↦ some 0 | some n ↦ some n ];
      undefined_sessions = 0;
      undefined_bundles = 0;
      undefined_tunnels = 0;
      iam_uptodate = true;
    }
