-- ===== src/Cluster/Sync/Copy.antt =====
-- One entry is copied into its table: the numbers and the test of cluster_uptodate.
use l2tpns.Prelude.{
  ℕ, ◌+◌, ◌-◌, ◌^◌, ◌≤◌, ◌<◌, ◌≡◌, ◌≢◌, ◌↔◌, inl, inr, refl, sym, ap, ◌∙◌, true, false, ltb, ◌==◌,
  if◌then◌else◌, arith, ℕ_discrete, sub32, Bool-cases,
}
use l2tpns.IpMap.{put_at}
use l2tpns.IpMap.Lookup.{at_same, at_other}
use l2tpns.Cluster.Sync.{
  Kind, session, bundle, tunnel, table_size, undef, Sync, entries, lacking, with_entries,
  with_lacking, is_sane, cluster_uptodate, cluster_recv,
}
use l2tpns.Cluster.Sync.Count.{
  count, count_le, count-put_undef, count-put_defined, none_counted, counts_none,
}

abbrev pub undefined_in : Sync → Kind → ℕ
undefined_in s k = count k (table_size k - 1) 1 (entries s k)

-- The three numbers count the undefined entries.
abbrev pub Exact : Sync → Type 0
Exact s = (k : Kind) → lacking s k ≡ undefined_in s k

-- No entry from 1 on is undefined.
abbrev pub Complete : Sync → Type 0
Complete s = (k : Kind) (i : ℕ) → 0 < i → i < table_size k → entries s k i ≢ undef k

-- The count of one table after an entry is received.
pub recount :
    (k : Kind) (n more new size : ℕ) (t : ℕ → ℕ)
    → size < 2 ^ 32
    → n ≡ count k size 1 t
    → 0 < more
    → more ≤ size
    → new ≢ undef k
    → (if t more == undef k then sub32 n 1 else n) ≡ count k size 1 (put_at t more new)
recount k n more new size t big e pos le ne = elim (ℕ_discrete (t more) (undef k)) [
  | yes h ↦
      let is_undef : (t more == undef k) ≡ true = ground arith in
      let down = count-put_undef k size 1 more new t (omega arith) (omega arith) h ne in
      let c = count_le k size 1 t in rw is_undef (omega arith)
  | no h ↦
      let defined : (t more == undef k) ≡ false = ground arith in
      rw defined (e ∙ sym (count-put_defined k size 1 more new t h ne))
]

pub within : (k : Kind) (i : ℕ) → i < 1 + (table_size k - 1) → i < table_size k
within session i h = omega arith
within bundle i h = omega arith
within tunnel i h = omega arith

pub within' : (k : Kind) (i : ℕ) → i < table_size k → i < 1 + (table_size k - 1)
within' session i h = omega arith
within' bundle i h = omega arith
within' tunnel i h = omega arith

-- The state after the copy, before cluster_uptodate.
abbrev pub loaded : Kind → ℕ → ℕ → Sync → Sync
loaded k more new s =
    with_entries
      (with_lacking s k
        (if entries s k more == undef k then sub32 (lacking s k) 1 else lacking s k))
      k (put_at (entries s k) more new)

pub recv_loaded :
    (k : Kind) (more new pool : ℕ) (s : Sync)
    → s.iam_uptodate ≡ false
    → more < table_size k
    → is_sane k new pool ≡ true
    → cluster_recv k more new pool s ≡ (cluster_uptodate (loaded k more new s), true)
unfolding cluster_recv
recv_loaded session more new pool s late small sane =
    let inside : ltb more 60000 ≡ true = ground arith in
    elim (Bool-cases (s.sessions more == 65535)) [
      | inl found ↦ simp (late, inside, sane, found)
      | inr known ↦ simp (late, inside, sane, known)
    ]
recv_loaded bundle more new pool s late small sane =
    let inside : ltb more 60000 ≡ true = ground arith in
    elim (Bool-cases (s.bundles more == 2)) [
      | inl found ↦ simp (late, inside, found)
      | inr known ↦ simp (late, inside, known)
    ]
recv_loaded tunnel more new pool s late small sane =
    let inside : ltb more 65535 ≡ true = ground arith in
    elim (Bool-cases (s.tunnels more == 4)) [
      | inl found ↦ simp (late, inside, found)
      | inr known ↦ simp (late, inside, known)
    ]

-- A session that load_session does not take.
abbrev pub uncounted : ℕ → Sync → Sync
uncounted more s = record s {
  undefined_sessions =
      if s.sessions more == 65535 then sub32 s.undefined_sessions 1 else s.undefined_sessions;
}

pub recv_rejected :
    (more new pool : ℕ) (s : Sync)
    → s.iam_uptodate ≡ false
    → more < table_size session
    → is_sane session new pool ≡ false
    → cluster_recv session more new pool s ≡ (cluster_uptodate (uncounted more s), true)
unfolding cluster_recv
recv_rejected more new pool s late small strange =
    let inside : ltb more 60000 ≡ true = ground arith in
    elim (Bool-cases (s.sessions more == 65535)) [
      | inl found ↦ simp (late, inside, strange, found)
      | inr known ↦
          rw (known, inside, strange) (ap (λ b. (if b then s else cluster_uptodate s, true)) late)
    ]

-- An id behind the table.
pub recv_outside :
    (k : Kind) (more new pool : ℕ) (s : Sync)
    → table_size k ≤ more
    → cluster_recv k more new pool s ≡ (s, false)
unfolding cluster_recv
recv_outside session more new pool s big =
    let out : ltb more 60000 ≡ false = ground arith in simp out
recv_outside bundle more new pool s big =
    let out : ltb more 60000 ≡ false = ground arith in simp out
recv_outside tunnel more new pool s big =
    let out : ltb more 65535 ≡ false = ground arith in simp out

pub loaded-Exact :
    (k : Kind) (more new : ℕ) (s : Sync)
    → Exact s
    → 0 < more
    → more < table_size k
    → new ≢ undef k
    → Exact (loaded k more new s)
loaded-Exact session more new s h pos small ne session =
    recount session s.undefined_sessions more new 59999 s.sessions (omega arith) (h session) pos
      (omega arith) ne
loaded-Exact session more new s h pos small ne bundle = h bundle
loaded-Exact session more new s h pos small ne tunnel = h tunnel
loaded-Exact bundle more new s h pos small ne session = h session
loaded-Exact bundle more new s h pos small ne bundle =
    recount bundle s.undefined_bundles more new 59999 s.bundles (omega arith) (h bundle) pos
      (omega arith) ne
loaded-Exact bundle more new s h pos small ne tunnel = h tunnel
loaded-Exact tunnel more new s h pos small ne session = h session
loaded-Exact tunnel more new s h pos small ne bundle = h bundle
loaded-Exact tunnel more new s h pos small ne tunnel =
    recount tunnel s.undefined_tunnels more new 65534 s.tunnels (omega arith) (h tunnel) pos
      (omega arith) ne

-- An undefined session counts.
pub undefined_counted :
    (s : Sync)
    → Exact s
    → (i : ℕ) → 0 < i
    → i < table_size session
    → s.sessions i ≡ 65535
    → (0 < s.undefined_sessions) × s.undefined_sessions < 2 ^ 32
undefined_counted s h i pos small e =
    let counted : s.undefined_sessions ≡ count session 59999 1 s.sessions = h session in
    let few = count_le session 59999 1 s.sessions in
    let least : s.undefined_sessions ≢ 0 = λ z.
      none_counted session 59999 1 i s.sessions (sym counted ∙ z) pos (within' session i small) e in
    (omega arith, omega arith)

pub lacks_none : (s : Sync) → Exact s → Complete s ↔ ((k : Kind) → lacking s k ≡ 0)
lacks_none s h = (
  λ c k. h k ∙ counts_none k (table_size k - 1) 1 (entries s k) (λ i p q. c k i p (within k i q)),
  λ z k i p q.
      none_counted k (table_size k - 1) 1 i (entries s k) (sym (h k) ∙ z k) p (within' k i q),
)

pub true≢false : ¬ (true ≡ false)
true≢false h = ground arith

-- Where an entry is received and where not.
abbrev pub Overwritten : Kind → ℕ → ℕ → Sync → Sync → Type 0
Overwritten k more new s s' =
    (k' : Kind) (i : ℕ)
    → ((k' ≡ k) × (i ≡ more) → entries s' k' i ≡ new)
      × (¬ ((k' ≡ k) × (i ≡ more)) → entries s' k' i ≡ entries s k' i)

pub loaded-entries :
    (k k' : Kind) (more new : ℕ) (s : Sync) (i : ℕ)
    → ((k' ≡ k) × (i ≡ more) → entries (loaded k more new s) k' i ≡ new)
      × (¬ ((k' ≡ k) × (i ≡ more)) → entries (loaded k more new s) k' i ≡ entries s k' i)
loaded-entries session session more new s i = (
  λ (e, f). at_same s.sessions more i new f,
  λ d. at_other s.sessions more i new (λ f. d (refl, f)),
)
loaded-entries session bundle more new s i = (λ (e, f). cc, λ d. refl)
loaded-entries session tunnel more new s i = (λ (e, f). cc, λ d. refl)
loaded-entries bundle session more new s i = (λ (e, f). cc, λ d. refl)
loaded-entries bundle bundle more new s i = (
  λ (e, f). at_same s.bundles more i new f,
  λ d. at_other s.bundles more i new (λ f. d (refl, f)),
)
loaded-entries bundle tunnel more new s i = (λ (e, f). cc, λ d. refl)
loaded-entries tunnel session more new s i = (λ (e, f). cc, λ d. refl)
loaded-entries tunnel bundle more new s i = (λ (e, f). cc, λ d. refl)
loaded-entries tunnel tunnel more new s i = (
  λ (e, f). at_same s.tunnels more i new f,
  λ d. at_other s.tunnels more i new (λ f. d (refl, f)),
)

pub loaded_late :
    (k : Kind) (more new : ℕ) (s : Sync)
    → s.iam_uptodate ≡ false
    → (loaded k more new s).iam_uptodate ≡ false
loaded_late session more new s h = h
loaded_late bundle more new s h = h
loaded_late tunnel more new s h = h
