-- ===== src/Cluster/Sync/Receive.antt =====
-- A slave that receives entries of its tables.
use mathlib.Core.Path.{subst}
use l2tpns.Prelude.{
  ℕ, ◌≤◌, ◌<◌, ◌≡◌, ◌≢◌, ◌⊎◌, inl, inr, sym, ap, ◌∙◌, List, [], ◌∷◌, true, false, arith, ℕ_discrete,
  Bool-cases, dec_lt,
}
use l2tpns.Cluster.Sync.{
  Kind, session, bundle, tunnel, table_size, undef, Sync, entries, cluster_recv,
}
use l2tpns.Cluster.Sync.Copy.{Exact, Complete, recv_outside, true≢false, Overwritten}
use l2tpns.Cluster.Sync.Load.{
  Loadable, Loadable-cases, Loadable-sane, Stored, Miscounted, cluster_recv-Stored,
  cluster_recv-Miscounted,
}

-- Of a slave that is not up to date and whose numbers count its undefined entries, that receives
-- a defined entry of a table, not its entry 0 and of an id that is not negative. Of an id behind
-- the table it changes nothing and fails. A bundle, a tunnel, or a session whose ip_pool_index
-- and tunnel load_session accepts is stored and no other entry changes, the numbers are right
-- again, and the slave is up to date now exactly if no entry of the three tables is undefined. A
-- session that load_session does not accept changes no entry, but if the entry is undefined the
-- number of undefined sessions is one lower all the same, and the slave takes itself for up to
-- date exactly if the numbers are 0.
pub cluster_recv_lem :
    (k : Kind) (more new pool : ℕ) (s : Sync)
    → s.iam_uptodate ≡ false
    → Exact s
    → 0 < more
    → new ≢ undef k
    → let out = cluster_recv k more new pool s in
      (table_size k ≤ more) × (out ≡ (s, false))
      ⊎ (more < table_size k)
        × (Loadable k new pool × Stored k more new s out
            ⊎ (¬ Loadable k new pool) × Miscounted k more s out)
cluster_recv_lem k more new pool s late h pos ne = elim (dec_lt more (table_size k)) [
  | no big ↦
      let out : table_size k ≤ more = omega arith in inl (out, recv_outside k more new pool s out)
  | yes small ↦ inr (
    small,
    elim (Loadable-cases k new pool) [
      | inl (l, sane) ↦ inl (l, cluster_recv-Stored k more new pool s late h pos small ne sane)
      | inr (strange, e, insane) ↦ inr (
        strange,
        subst (λ k'. Miscounted k' more s (cluster_recv k' more new pool s)) (sym e)
            (cluster_recv-Miscounted more new pool s late h pos
              (subst (λ k'. more < table_size k') e small) insane),
      )
    ],
  )
]

-- An entry that a heartbeat carries.
pub record Item : Type 0 where
  pub kind : Kind
  pub id : ℕ
  pub value : ℕ
  pub ip_pool_index : ℕ

abbrev pub Valid : Item → Type 0
Valid x =
    (0 < x.id)
    × (x.id < table_size x.kind)
    × (x.value ≢ undef x.kind)
    × Loadable x.kind x.value x.ip_pool_index

abbrev pub AllValid : List Item → Type 0
AllValid [] = Unit {0}
AllValid (x ∷ items) = Valid x × AllValid items

abbrev pub Carried : Kind → ℕ → List Item → Type 0
Carried k i [] = ⊥
Carried k i (x ∷ items) = ((k ≡ x.kind) × (i ≡ x.id)) ⊎ Carried k i items

abbrev pub receive_items : List Item → Sync → Sync
receive_items [] s = s
receive_items (x ∷ items) s =
    receive_items items (cluster_recv x.kind x.id x.value x.ip_pool_index s).0

-- Being up to date is kept.
stays_uptodate :
    (k : Kind) (more new pool : ℕ) (s : Sync)
    → s.iam_uptodate ≡ true
    → (cluster_recv k more new pool s).0.iam_uptodate ≡ true
unfolding cluster_recv
stays_uptodate session more new pool s h = ground arith
stays_uptodate bundle more new pool s h = ground arith
stays_uptodate tunnel more new pool s h = ground arith

stay_uptodate :
    (items : List Item) (s : Sync)
    → s.iam_uptodate ≡ true
    → (receive_items items s).iam_uptodate ≡ true
stay_uptodate [] s u = u
stay_uptodate (x ∷ items) s u =
    stay_uptodate items (cluster_recv x.kind x.id x.value x.ip_pool_index s).0
      (stays_uptodate x.kind x.id x.value x.ip_pool_index s u)

Kind-discrete : Discrete Kind
Kind-discrete = hlevel

dec_same : (k k' : Kind) (i j : ℕ) → Dec ((k' ≡ k) × (j ≡ i))
dec_same k k' i j = elim (Kind-discrete k' k) [
  | yes e ↦ elim (ℕ_discrete j i) [ yes f ↦ yes (e, f) | no n ↦ no (λ (a, b). n b) ]
  | no n ↦ no (λ (a, b). n a)
]

-- The entries that are defined or still to come, after one is received.
still_carried :
    (x : Item) (items : List Item) (s s' : Sync) (k : Kind) (i : ℕ)
    → x.value ≢ undef x.kind
    → Overwritten x.kind x.id x.value s s'
    → (entries s k i ≢ undef k) ⊎ Carried k i (x ∷ items)
    → (entries s' k i ≢ undef k) ⊎ Carried k i items
still_carried x items s s' k i good over c = elim (dec_same x.kind k x.id i) [
  | yes (e, f) ↦ inl (λ u. good (sym ((over k i).0 (e, f)) ∙ u ∙ ap undef e))
  | no off ↦ elim c [
    | inl d ↦ inl (λ u. d (sym ((over k i).1 off) ∙ u))
    | inr (inl same) ↦ absurd (off same)
    | inr (inr later) ↦ inr later
  ]
]

-- A slave catches up: if its numbers count its undefined entries, at least one, and heartbeats
-- carry defined entries of ids within the tables and not 0, the sessions among them with an
-- ip_pool_index and a tunnel that load_session accepts, of which there is one for every
-- undefined entry, in any order and repeated or not, then it is up to date in the end.
pub receive_items_uptodate :
    (items : List Item) (s : Sync)
    → AllValid items
    → Exact s
    → ¬ Complete s
    → s.iam_uptodate ≡ false
    → ((k : Kind) (i : ℕ)
        → 0 < i
        → i < table_size k
        → (entries s k i ≢ undef k) ⊎ Carried k i items)
    → (receive_items items s).iam_uptodate ≡ true
receive_items_uptodate [] s v h open_ late c =
    absurd (open_ (λ k i p q. elim (c k i p q) [ inl d ↦ d | inr x ↦ absurd x ]))
receive_items_uptodate (x ∷ items) s ((pos, small, good, sane), vs) h open_ late c =
    let s' = (cluster_recv x.kind x.id x.value x.ip_pool_index s).0 in
    let (done, over, exact, upto) =
      cluster_recv-Stored x.kind x.id x.value x.ip_pool_index s late h pos small good
        (Loadable-sane x.kind x.value x.ip_pool_index sane) in
    elim (Bool-cases s'.iam_uptodate) [
      | inl u ↦ stay_uptodate items s' u
      | inr late' ↦
          receive_items_uptodate items s' vs exact (λ full. true≢false (sym (upto.1 full) ∙ late'))
            late' (λ k i p q. still_carried x items s s' k i good over (c k i p q))
    ]
