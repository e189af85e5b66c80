-- ===== src/Cluster/Changes.antt =====
-- type_changed of cluster.c: the queue of changed structures that the next heartbeat carries.
-- `cluster_changes` is an array of `max_changes` entries, of which the list is the used part.
use mathlib.Core.Path.{subst}
use l2tpns.Prelude.{
  ℕ, suc, ◌≤◌, ◌<◌, ◌≡◌, ◌≢◌, ◌⊎◌, ◌↔◌, inl, inr, refl, sym, ap, ◌∙◌, length-append, List, [], ◌∷◌,
  ◌++◌, Option, none, some, Bool, true, false, not, ◌&&◌, ◌||◌, ltb, ◌==◌, if◌then◌else◌, length,
  arith, Bool-cases,
}

-- An entry of `cluster_changes`
pub record Change : Type 0 where
  pub type : ℕ
  pub id : ℕ

-- The queue, and the queues that heartbeats have carried off, in order.
pub record Changes : Type 0 where
  pub queue : List Change
  pub sent : List (List Change)

abbrev pub same_change : Change → Change → Bool
same_change c d = c.id == d.id && c.type == d.type

-- The loop with the memmove: the first entry that is the change is taken out.
pub unqueue : List Change → Change → List Change
unqueue [] c = []
unqueue (d ∷ queue) c = let rest = unqueue queue c in if same_change d c then queue else d ∷ rest

-- `none`: the entry is written behind the end of the array. The flush is cluster_heartbeat, which
-- sends the queue and empties it.
unfoldable pub type_changed : ℕ → Changes → Change → Option Changes
unfolding unqueue
type_changed max_changes s c =
    let kept = unqueue s.queue c in
    let queue = kept ++ c ∷ [] in
    let full = record s { queue = []; sent = s.sent ++ queue ∷ [] } in
    if not (ltb (length kept) max_changes)
    then none
    else if ltb max_changes (length queue)
    then some full
    else some (record s { queue = queue })

-- cluster_send_session, cluster_send_bundle and cluster_send_tunnel, for their type; the Boolean is
-- false for a return of -1. Only the first looks at `forked`.
unfoldable pub cluster_send : Bool → Bool → ℕ → Changes → Change → Option (Changes × Bool)
unfolding type_changed
cluster_send iam_master forked max_changes s c =
    if not iam_master || forked
    then some (s, false)
    else elim (type_changed max_changes s c) [ none ↦ none | some s' ↦ some (s', true) ]

abbrev pub Queued : Change → List Change → Type 0
Queued c [] = ⊥
Queued c (d ∷ queue) = (c ≡ d) ⊎ Queued c queue

true≢false : ¬ (true ≡ false)
true≢false h = ground arith

-- No change is queued twice.
abbrev pub Unique : List Change → Type 0
Unique [] = Unit {0}
Unique (d ∷ queue) = (¬ Queued d queue) × Unique queue

same_change_iff : (c d : Change) → (same_change c d ≡ true) ↔ (c ≡ d)
same_change_iff c d = (λ h. ground arith, λ e. ground arith)

unqueue-Queued :
    (queue : List Change) (c d : Change) → d ≢ c → Queued d (unqueue queue c) ↔ Queued d queue
unfolding unqueue
unqueue-Queued [] c d ne = (λ h. h, λ h. h)
unqueue-Queued (e ∷ queue) c d ne =
    let (f, g) = unqueue-Queued queue c d ne in
    elim (Bool-cases (same_change e c)) [
      | inl same ↦
          let e≡c = (same_change_iff e c).0 same in
          rw same (λ h. inr h, elim [ inl i ↦ absurd (ne (i ∙ e≡c)) | inr h ↦ h ])
      | inr other ↦
          rw other
            (elim [ inl i ↦ inl i | inr h ↦ inr (f h) ], elim [ inl i ↦ inl i | inr h ↦ inr (g h) ])
    ]

unqueue-Unique :
    (queue : List Change) (c : Change)
    → Unique queue
    → Unique (unqueue queue c) × (¬ Queued c (unqueue queue c))
unfolding unqueue
unqueue-Unique [] c u = (tt, λ h. h)
unqueue-Unique (d ∷ queue) c (out, u) = elim (Bool-cases (same_change d c)) [
  | inl same ↦
      let e = (same_change_iff d c).0 same in rw same (u, subst (λ x. ¬ Queued x queue) e out)
  | inr other ↦
      let (v, gone) = unqueue-Unique queue c u in
      let ne : d ≢ c = λ e. true≢false (sym ((same_change_iff d c).1 e) ∙ other) in
      rw other (
        (λ h. out ((unqueue-Queued queue c d ne).0 h), v),
        elim [ inl i ↦ ne (sym i) | inr h ↦ gone h ],
      )
]

Queued-last :
    (queue : List Change) (c d : Change) → Queued d (queue ++ c ∷ []) ↔ ((d ≡ c) ⊎ Queued d queue)
Queued-last [] c d = (λ h. h, λ h. h)
Queued-last (e ∷ queue) c d =
    let (f, g) = Queued-last queue c d in
    (
      elim [ inl i ↦ inr (inl i) | inr h ↦ elim (f h) [ inl i ↦ inl i | inr k ↦ inr (inr k) ] ],
      elim [ inl i ↦ inr (g (inl i)) | inr k ↦ elim k [ inl i ↦ inl i | inr h ↦ inr (g (inr h)) ] ],
    )

Unique-last :
    (queue : List Change) (c : Change) → Unique queue → ¬ Queued c queue → Unique (queue ++ c ∷ [])
Unique-last [] c u out = (λ h. h, tt)
Unique-last (d ∷ queue) c (o, u) out = (
  λ h. elim ((Queued-last queue c d).0 h) [ inl i ↦ out (inl (sym i)) | inr k ↦ o k ],
  Unique-last queue c u (λ h. out (inr h)),
)

length-unqueue :
    (queue : List Change) (c : Change)
    → (Queued c queue → length (unqueue queue c) < length queue)
      × (¬ Queued c queue → length (unqueue queue c) ≡ length queue)
unfolding unqueue
length-unqueue [] c = (λ h. absurd h, λ h. refl)
length-unqueue (d ∷ queue) c =
    let (f, g) = length-unqueue queue c in
    elim (Bool-cases (same_change d c)) [
      | inl same ↦
          rw same (λ h. omega arith, λ out. absurd (out (inl (sym ((same_change_iff d c).0 same)))))
      | inr other ↦ rw other (
        elim [
          | inl i ↦ absurd (true≢false (sym ((same_change_iff d c).1 (sym i)) ∙ other))
          | inr h ↦ let lt = f h in omega arith
        ],
        λ out. ap suc (g (λ h. out (inr h))),
      )
    ]

unqueue_le : (queue : List Change) (c : Change) → length (unqueue queue c) ≤ length queue
unfolding unqueue
unqueue_le [] c = omega arith
unqueue_le (d ∷ queue) c = ground (arith, unqueue_le queue c)

dec_same : (d c : Change) → (d ≡ c) ⊎ (d ≢ c)
dec_same d c = elim (Bool-cases (same_change d c)) [
  | inl same ↦ inl ((same_change_iff d c).0 same)
  | inr other ↦ inr (λ e. true≢false (sym ((same_change_iff d c).1 e) ∙ other))
]

find_change : (c : Change) (queue : List Change) → Queued c queue ⊎ (¬ Queued c queue)
find_change c [] = inr (λ h. h)
find_change c (d ∷ queue) = elim (dec_same c d) [
  | inl e ↦ inl (inl e)
  | inr ne ↦ elim (find_change c queue) [
    | inl h ↦ inl (inr h)
    | inr out ↦ inr (elim [ inl e ↦ ne e | inr h ↦ out h ])
  ]
]

was_before :
    (queue : List Change) (c d : Change) → Queued d (unqueue queue c) → (d ≡ c) ⊎ Queued d queue
was_before queue c d h = elim (dec_same d c) [
  | inl e ↦ inl e
  | inr ne ↦ inr ((unqueue-Queued queue c d ne).0 h)
]

-- On a queue without repetition that is not full, type_changed leaves one without repetition,
-- which has the change last and besides it exactly the changes that were queued; nothing is sent.
pub type_changed_lem :
    (max_changes : ℕ) (s : Changes) (c d : Change)
    → Unique s.queue
    → length s.queue < max_changes
    → (s' : Changes) × (type_changed max_changes s c ≡ some s')
      × Unique s'.queue
      × ((front : List Change) × (s'.queue ≡ front ++ c ∷ []))
      × (Queued d s'.queue ↔ ((d ≡ c) ⊎ Queued d s.queue))
      × (s'.sent ≡ s.sent)
unfolding type_changed
type_changed_lem max_changes s c d u room =
    let kept = unqueue s.queue c in
    let (v, gone) = unqueue-Unique s.queue c u in
    let le = unqueue_le s.queue c in
    let l = length-append kept (c ∷ []) in
    let inside : ltb (length kept) max_changes ≡ true = ground arith in
    let quiet : ltb max_changes (length (kept ++ c ∷ [])) ≡ false = ground arith in
    let (f, g) = Queued-last kept c d in
    (
      record s { queue = kept ++ c ∷ [] },
      rw (inside, quiet) refl,
      Unique-last kept c v gone,
      (kept, refl),
      (
        λ h. elim (f h) [ inl i ↦ inl i | inr k ↦ was_before s.queue c d k ],
        elim [
          | inl i ↦ g (inl i)
          | inr h ↦ elim (dec_same d c) [
            | inl e ↦ g (inl e)
            | inr ne ↦ g (inr ((unqueue-Queued s.queue c d ne).1 h))
          ]
        ],
      ),
      refl,
    )

-- type_changed writes behind the end of its array exactly if the queue holds `max_changes` entries,
-- which it lets a queue have, and the change is not among them.
pub type_changed_overrun :
    (max_changes : ℕ) (s : Changes) (c : Change)
    → length s.queue ≤ max_changes
    → (type_changed max_changes s c ≡ none)
      ↔ ((length s.queue ≡ max_changes) × (¬ Queued c s.queue))
unfolding type_changed
type_changed_overrun max_changes s c h =
    let kept = unqueue s.queue c in
    let (shorter, equal) = length-unqueue s.queue c in
    elim (Bool-cases (ltb (length kept) max_changes)) [
      | inl inside ↦
          let quiet : ltb max_changes (length (kept ++ c ∷ [])) ≡ false =
            let l = length-append kept (c ∷ []) in ground arith in
          rw (inside, quiet) (λ e. cc, λ (full, out). let e = equal out in absurd (ground arith))
      | inr outside ↦ rw outside (
        λ e. elim (find_change c s.queue) [
          | inl q ↦ let lt = shorter q in absurd (ground arith)
          | inr out ↦ let e = equal out in (ground arith, out)
        ],
        λ p. refl,
      )
    ]
