-- ===== src/Cluster/Sync.antt =====
-- cluster_uptodate, cluster_recv_session, cluster_recv_bundle, cluster_recv_tunnel and
-- cluster_check_sessions of cluster.c: how a slave counts what it still lacks of the three tables.
-- Of an entry only the field that tells an undefined one is kept: `tunnel` of a session and `state`
-- of a bundle or a tunnel, and of a session that is received the ip_pool_index. The ids received are
-- not negative.
pub mod Count
pub mod Copy
pub mod Uptodate
pub mod Load
pub mod Receive
pub mod Settle
pub mod Check
mod Tests
use l2tpns.Prelude.{
  ℕ, zero, suc, ◌+◌, ◌-◌, List, [], ◌∷◌, Bool, true, false, not, ◌&&◌, ◌||◌, ltb, ◌==◌,
  if◌then◌else◌, sub32, lt_int,
}
use l2tpns.IpMap.{put_at}

pub data Kind : Type 0 where
  session bundle tunnel : Kind

-- MAXSESSION, MAXBUNDLE, MAXTUNNEL
abbrev pub table_size : Kind → ℕ
table_size session = 60000
table_size bundle = 60000
table_size tunnel = 65535

-- T_UNDEF, BUNDLEUNDEF, TUNNELUNDEF
abbrev pub undef : Kind → ℕ
undef session = 65535
undef bundle = 2
undef tunnel = 4

-- T_FREE, BUNDLEFREE, TUNNELFREE
abbrev pub free : Kind → ℕ
free k = 0

-- `advertised` counts the calls of advertise_routes.
pub record Sync : Type 0 where
  pub sessions : ℕ → ℕ
  pub bundles : ℕ → ℕ
  pub tunnels : ℕ → ℕ
  pub undefined_sessions : ℕ
  pub undefined_bundles : ℕ
  pub undefined_tunnels : ℕ
  pub iam_uptodate : Bool
  pub sessionfree : ℕ
  pub advertised : ℕ

abbrev pub entries : Sync → Kind → ℕ → ℕ
entries s session = s.sessions
entries s bundle = s.bundles
entries s tunnel = s.tunnels

abbrev pub lacking : Sync → Kind → ℕ
lacking s session = s.undefined_sessions
lacking s bundle = s.undefined_bundles
lacking s tunnel = s.undefined_tunnels

abbrev pub with_entries : Sync → Kind → (ℕ → ℕ) → Sync
with_entries s session t = record s { sessions = t }
with_entries s bundle t = record s { bundles = t }
with_entries s tunnel t = record s { tunnels = t }

abbrev pub with_lacking : Sync → Kind → ℕ → Sync
with_lacking s session n = record s { undefined_sessions = n }
with_lacking s bundle n = record s { undefined_bundles = n }
with_lacking s tunnel n = record s { undefined_tunnels = n }

unfoldable pub cluster_uptodate : Sync → Sync
cluster_uptodate s =
    let done = record s { iam_uptodate = true; advertised = s.advertised + 1 } in
    if s.iam_uptodate
    then s
    else if not (s.undefined_sessions == 0)
        || not (s.undefined_tunnels == 0)
        || not (s.undefined_bundles == 0)
    then s
    else done

-- The check of load_session on `tunnel` and on `ip_pool_index`, a signed number of which `pool` is
-- the pattern of 32 bits, against MAXTUNNEL and MAXIPPOOL; a bundle or a tunnel is copied as it is.
abbrev pub is_sane : Kind → ℕ → ℕ → Bool
is_sane session new pool = lt_int pool 131072 && ltb new (table_size tunnel)
is_sane bundle new pool = true
is_sane tunnel new pool = true

-- cluster_recv_session, cluster_recv_bundle and cluster_recv_tunnel, for their kind; `pool` is the
-- ip_pool_index of a session that is received, and the Boolean is false for a return of -1.
unfoldable pub cluster_recv : Kind → ℕ → ℕ → ℕ → Sync → Sync × Bool
unfolding cluster_uptodate
cluster_recv k more new pool s =
    let found = entries s k more == undef k && not s.iam_uptodate in
    let counted = if found then with_lacking s k (sub32 (lacking s k) 1) else s in
    let copied = with_entries counted k (put_at (entries counted k) more new) in
    let loaded = if is_sane k new pool then copied else counted in
    if not (ltb more (table_size k))
    then (s, false)
    else (if s.iam_uptodate then loaded else cluster_uptodate loaded, true)

-- One of the three loops of cluster_check_sessions, with `left` entries to go from entry `i` on.
unfoldable pub settle : Kind → ℕ → ℕ → ℕ → (ℕ → ℕ) → ℕ → (ℕ → ℕ) × ℕ
settle k high zero i t n = (t, n)
settle k high (suc left) i t n =
    let is_undef = t i == undef k in
    settle k high left (i + 1) (if ltb high i && is_undef then put_at t i (free k) else t)
      (if not (ltb high i) && is_undef then n + 1 else n)

unfoldable pub settle_table : Kind → ℕ → Sync → Sync
unfolding settle
settle_table k high s =
    let (t, n) = settle k high (table_size k - 1) 1 (entries s k) 0 in
    with_lacking (with_entries s k t) k n

-- The state after the three loops.
unfoldable pub recounted : ℕ → ℕ → ℕ → Sync → Sync
unfolding settle_table
recounted highsession highbundle hightunnel s =
    settle_table tunnel hightunnel
      (settle_table bundle highbundle (settle_table session highsession s))

-- The two early returns and the end: `above` is the test of the second.
unfoldable pub check_from : Sync → Bool → Sync → Sync
unfolding cluster_uptodate
check_from kept above all =
    if kept.iam_uptodate then kept else if above then kept else cluster_uptodate all

unfoldable pub cluster_check_sessions : ℕ → ℕ → ℕ → ℕ → Sync → Sync
unfolding recounted check_from
cluster_check_sessions highsession freesession_ptr highbundle hightunnel s =
    let kept = record s { sessionfree = freesession_ptr } in
    check_from kept
      (ltb s.undefined_sessions highsession
        && ltb s.undefined_bundles highbundle
        && ltb s.undefined_tunnels hightunnel)
      (recounted highsession highbundle hightunnel kept)
