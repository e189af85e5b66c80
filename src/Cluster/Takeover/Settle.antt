-- ===== src/Cluster/Takeover/Settle.antt =====
-- What the rounds of the takeover make of every session, and of the highest numbers.
use mathlib.Core.Path.{subst}
use l2tpns.Prelude.{
  ℕ, ◌+◌, ◌-◌, ◌^◌, ◌≤◌, ◌<◌, ◌≡◌, ◌≢◌, ◌⊎◌, inl, inr, refl, sym, ap, ◌∙◌, if◌then◌else◌, leb,
  arith, ℕ_discrete, add32,
}
use l2tpns.Session.{Session, Local, no_session}
use l2tpns.Cluster.Takeover.{walk, Taking, take_session}
use l2tpns.Cluster.Takeover.Walk.{walk_keeps, Freed, round-Freed, Used, Adopted}
use l2tpns.Cluster.Takeover.Adopt.{
  Relinked, Relinked-trans, Relinked-Alike, Adopted-Alike, round-Used,
}

-- A session that was unused is cleared, and one that was in use is adopted.
abbrev pub Settled : ℕ → Session → Local → Session → Local → Type 0
Settled time_now x l y l' =
    (x.opened ≡ 0 → Relinked no_session y) × (x.opened ≢ 0 → Adopted time_now x l y l')

pub Settled-Relinked :
    (time_now : ℕ) (x : Session) (l : Local) (y z : Session) (l' m' : Local)
    → Settled time_now x l y l'
    → Relinked y z
    → m' ≡ l'
    → Settled time_now x l z m'
Settled-Relinked time_now x l y z l' m' (f, g) k e = (
  λ u. Relinked-trans no_session y z (f u) k,
  λ u.
      subst (Adopted time_now x l z) (sym e)
        (Adopted-Alike time_now x l y z l' (g u) (Relinked-Alike y z k)),
)

pub Relinked-next : (x : Session) (n : ℕ) → Relinked x (record x { next = n })
Relinked-next x n = refl

-- The highest number in use, and the next unused id, of the sessions 1 to i - 1.
abbrev pub Highest : (ℕ → Session) → ℕ → ℕ → ℕ → Type 0
Highest t i highest unique =
    ((j : ℕ) → 0 < j → j < i → (t j).opened ≢ 0 → (j ≤ highest) × ((t j).unique_id < unique))
    × ((highest ≡ 0) ⊎ ((0 < highest) × (highest < i) × ((t highest).opened ≢ 0)))

-- The state before round i, against the tables `t` and `l` before the first.
pub record Passed (time_now : ℕ) (t : ℕ → Session) (l : ℕ → Local) (i : ℕ) (s : Taking)
    : Type 0 where
  pub below : s.last_free < i
  pub fresh : (j : ℕ) → i ≤ j → s.tables.session j ≡ t j
  pub fresh_local : (j : ℕ) → i ≤ j → s.tables.sess_local j ≡ l j
  pub settled :
      (j : ℕ)
      → 0 < j
      → j < i
      → Settled time_now (t j) (l j) (s.tables.session j) (s.tables.sess_local j)
  pub highest : Highest t i s.highest_sessionid s.high_unique_id

here_or_below : (j i : ℕ) → j < i + 1 → (j ≡ i) ⊎ (j < i)
here_or_below j i h = elim (ℕ_discrete j i) [ yes e ↦ inl e | no ne ↦ inr (omega arith) ]

Highest_skip :
    (t : ℕ → Session) (i highest unique : ℕ)
    → (t i).opened ≡ 0
    → Highest t i highest unique
    → Highest t (i + 1) highest unique
Highest_skip t i highest unique unused (ids, top) = (
  λ j pos h used. elim (here_or_below j i h) [
    | inl e ↦ absurd (used (ap (λ k. (t k).opened) e ∙ unused))
    | inr lt ↦ ids j pos lt used
  ],
  elim top [ inl z ↦ inl z | inr (pos, lt, used) ↦ inr (pos, omega arith, used) ],
)

Highest_use :
    (t : ℕ → Session) (i highest unique : ℕ)
    → 0 < i
    → (t i).opened ≢ 0
    → (t i).unique_id < 2 ^ 32 - 1
    → Highest t i highest unique
    → Highest t (i + 1) i (if leb unique (t i).unique_id then add32 (t i).unique_id 1 else unique)
Highest_use t i highest unique pos used small (ids, top) = (
  λ j pos' h used'. elim (here_or_below j i h) [
    | inl e ↦ (
      omega arith,
      subst (λ n. n < (if leb unique (t i).unique_id then add32 (t i).unique_id 1 else unique))
          (ap (λ k. (t k).unique_id) (sym e))
          (covers unique (t i).unique_id (t i).unique_id small (omega arith)),
    )
    | inr lt ↦
        let (le, id) = ids j pos' lt used' in
        (omega arith, raised unique (t i).unique_id (t j).unique_id small id)
  ],
  inr (pos, omega arith, used),
)
  where
    covers :
        (unique u v : ℕ) → u < 2 ^ 32 - 1 → v ≤ u → v < (if leb unique u then add32 u 1 else unique)
    covers unique u v h le = ground arith

    raised :
        (unique u v : ℕ)
        → u < 2 ^ 32 - 1
        → v < unique
        → v < (if leb unique u then add32 u 1 else unique)
    raised unique u v h lt = ground arith

-- One more session.
settled_on :
    (time_now : ℕ) (t : ℕ → Session) (l : ℕ → Local) (i : ℕ) (s s' : Taking)
    → Passed time_now t l i s
    → Settled time_now (t i) (l i) (s'.tables.session i) (s'.tables.sess_local i)
    → ((j : ℕ) → j ≢ i → Relinked (s.tables.session j) (s'.tables.session j))
    → ((j : ℕ) → j ≢ i → s'.tables.sess_local j ≡ s.tables.sess_local j)
    → (j : ℕ) → 0 < j
    → j < i + 1
    → Settled time_now (t j) (l j) (s'.tables.session j) (s'.tables.sess_local j)
settled_on time_now t l i s s' p here alike locals j pos h = elim (here_or_below j i h) [
  | inl e ↦
      subst (λ k. Settled time_now (t k) (l k) (s'.tables.session k) (s'.tables.sess_local k))
        (sym e) here
  | inr lt ↦
      let ne : j ≢ i = λ e. omega arith in
      Settled-Relinked time_now (t j) (l j) (s.tables.session j) (s'.tables.session j)
        (s.tables.sess_local j) (s'.tables.sess_local j) (p.settled j pos lt) (alike j ne)
        (locals j ne)
]

pub Freed-Passed :
    (time_now : ℕ) (t : ℕ → Session) (l : ℕ → Local) (i : ℕ) (s s' : Taking)
    → 0 < i
    → (t i).opened ≡ 0
    → Freed s s' i
    → Passed time_now t l i s
    → Passed time_now t l (i + 1) s'
Freed-Passed time_now t l i s s' pos unused f p =
    let last = p.below in
    let alike : (j : ℕ) → j ≢ i → Relinked (s.tables.session j) (s'.tables.session j) = λ j ne.
      elim (ℕ_discrete j s.last_free) [
        | yes e ↦
            subst (λ k. Relinked (s.tables.session k) (s'.tables.session k)) (sym e)
              (subst (Relinked (s.tables.session s.last_free)) (sym f.last)
                (Relinked-next (s.tables.session s.last_free) i))
        | no off ↦ subst (Relinked (s.tables.session j)) (sym (f.others j ne off)) refl
      ] in
    record {
      below = let e = f.last_free in omega arith;
      fresh = λ j h. f.others j (λ e. omega arith) (λ e. omega arith) ∙ p.fresh j (omega arith);
      fresh_local = λ j h. ap (λ m. m j) f.locals ∙ p.fresh_local j (omega arith);
      settled =
          settled_on time_now t l i s s' p
            (λ u. subst (Relinked no_session) (sym f.here) refl, λ used. absurd (used unused)) alike
            (λ j ne. ap (λ m. m j) f.locals);
      highest =
          subst (λ h. Highest t (i + 1) h s'.high_unique_id) (sym f.highest)
            (subst (Highest t (i + 1) s.highest_sessionid) (sym f.unique)
              (Highest_skip t i s.highest_sessionid s.high_unique_id unused p.highest));
    }

pub Used-Passed :
    (time_now : ℕ) (t : ℕ → Session) (l : ℕ → Local) (i : ℕ) (s s' : Taking)
    → 0 < i
    → (t i).opened ≢ 0
    → (t i).unique_id < 2 ^ 32 - 1
    → Used time_now s s' i
    → Passed time_now t l i s
    → Passed time_now t l (i + 1) s'
Used-Passed time_now t l i s s' pos used small u p =
    let last = p.below in
    let first = p.fresh i (omega arith) in
    let first_local = p.fresh_local i (omega arith) in
    let alike : (j : ℕ) → j ≢ i → Relinked (s.tables.session j) (s'.tables.session j) =
      λ j ne. subst (Relinked (s.tables.session j)) (sym (u.others j ne)) refl in
    let adopted : Adopted time_now (t i) (l i) (s'.tables.session i) (s'.tables.sess_local i) =
      subst (λ x. Adopted time_now x (l i) (s'.tables.session i) (s'.tables.sess_local i)) first
        (subst
          (λ m.
            Adopted time_now (s.tables.session i) m (s'.tables.session i) (s'.tables.sess_local i))
          first_local u.here) in
    record {
      below = let e = u.last_free in omega arith;
      fresh = λ j h. u.others j (λ e. omega arith) ∙ p.fresh j (omega arith);
      fresh_local = λ j h. u.locals j (λ e. omega arith) ∙ p.fresh_local j (omega arith);
      settled =
          settled_on time_now t l i s s' p (λ z. absurd (used z), λ v. adopted) alike u.locals;
      highest =
          subst (λ h. Highest t (i + 1) h s'.high_unique_id) (sym u.highest)
            (subst (Highest t (i + 1) i)
              (ap
                  (λ (x : Session).
                    if leb s.high_unique_id x.unique_id
                    then add32 x.unique_id 1
                    else s.high_unique_id)
                  (sym first)
                ∙ sym u.unique)
              (Highest_use t i s.highest_sessionid s.high_unique_id pos used small p.highest));
    }

-- All rounds from `i` on.
pub walk-Passed :
    (time_now time : ℕ) (t : ℕ → Session) (l : ℕ → Local) (left i : ℕ) (s : Taking)
    → 0 < i
    → ((j : ℕ) → j < i + left → (t j).unique_id < 2 ^ 32 - 1)
    → Passed time_now t l i s
    → Passed time_now t l (i + left) (walk (take_session time_now time) left i s)
walk-Passed time_now time t l left i s pos small =
    walk_keeps (Passed time_now t l) (take_session time_now time) left i s
      (λ j s a b p. one j s (omega arith) (small j b) p)
  where
    one :
        (j : ℕ) (s : Taking)
        → 0 < j
        → (t j).unique_id < 2 ^ 32 - 1
        → Passed time_now t l j s
        → Passed time_now t l (j + 1) (take_session time_now time s j)
    one j s pos small p =
        let first = ap (λ (x : Session). x.opened) (p.fresh j (omega arith)) in
        elim (ℕ_discrete (t j).opened 0) [
          | yes unused ↦
              Freed-Passed time_now t l j s (take_session time_now time s j) pos unused
                (round-Freed time_now time s j (first ∙ unused) p.below) p
          | no used ↦
              Used-Passed time_now t l j s (take_session time_now time s j) pos used small
                (round-Used time_now time s j (λ e. used (sym first ∙ e))) p
        ]
