-- ===== src/Cluster/Takeover/Free.antt =====
-- The free list that the takeover strings.
use mathlib.Core.Path.{subst}
use l2tpns.Prelude.{
  ℕ, zero, suc, ◌+◌, ◌≤◌, ◌<◌, ◌≡◌, ◌≢◌, refl, sym, ap, ◌∙◌, List, [], ◌∷◌, true, false, ◌==◌,
  if◌then◌else◌, arith, ℕ_discrete,
}
use l2tpns.IpMap.{put_at}
use l2tpns.IpMap.Lookup.{at_same, at_other}
use l2tpns.Session.{Session}
use l2tpns.Cluster.Takeover.{walk, Taking, take_session}
use l2tpns.Cluster.Takeover.Walk.{Freed, round-Freed, Used}
use l2tpns.Cluster.Takeover.Adopt.{round-Used}

-- The `next` of a leads through the list and then to 0.
abbrev pub Linked : (ℕ → Session) → ℕ → List ℕ → Type 0
Linked t a [] = (t a).next ≡ 0
Linked t a (x ∷ free) = ((t a).next ≡ x) × Linked t x free

-- The unused among `left` sessions from `i` on, in order.
abbrev pub unused : ℕ → ℕ → (ℕ → ℕ) → List ℕ
unused zero i opened = []
unused (suc left) i opened =
    let rest = unused left (i + 1) opened in if opened i == 0 then i ∷ rest else rest

Linked-same :
    (free : List ℕ) (t u : ℕ → Session) (a : ℕ)
    → ((j : ℕ) → (u j).next ≡ (t j).next)
    → Linked t a free
    → Linked u a free
Linked-same [] t u a h l = h a ∙ l
Linked-same (x ∷ free) t u a h (e, l) = (h a ∙ e, Linked-same free t u x h l)

-- Writing 0 into a `next` that is 0.
pub Linked-end :
    (free : List ℕ) (t : ℕ → Session) (a last : ℕ)
    → (t last).next ≡ 0
    → Linked t a free
    → Linked (put_at t last (record (t last) { next = 0 })) a free
Linked-end free t a last z =
    let x : Session = record (t last) { next = 0 } in
    Linked-same free t (put_at t last x) a (λ j. elim (ℕ_discrete j last) [
      | yes e ↦
          ap (λ (w : Session). w.next) (at_same t last j x e) ∙ sym (ap (λ k. (t k).next) e ∙ z)
      | no ne ↦ ap (λ (w : Session). w.next) (at_other t last j x ne)
    ])

-- What the rounds from number i on leave: the chain behind the last free session, its end, and the
-- sessions below i but for that one.
abbrev Strung : (ℕ → ℕ) → ℕ → ℕ → Taking → Taking → Type 0
Strung opened left i s s' =
    Linked s'.tables.session s.last_free (unused left i opened)
    × ((s'.tables.session s'.last_free).next ≡ 0)
    × ((j : ℕ) → j < i → j ≢ s.last_free → s'.tables.session j ≡ s.tables.session j)

string_free :
    (opened : ℕ → ℕ) (left i : ℕ) (s s1 s' : Taking)
    → s.last_free < i
    → opened i ≡ 0
    → Freed s s1 i
    → Strung opened left (i + 1) s1 s'
    → Strung opened (suc left) i s s'
string_free opened left i s s1 s' below unused_ f (chain, end, kept) =
    let test : (opened i == 0) ≡ true = ground arith in
    let before : s'.tables.session s.last_free ≡ s1.tables.session s.last_free =
      kept s.last_free (omega arith) (λ e. apart s.last_free i below (e ∙ f.last_free)) in
    (
      subst (Linked s'.tables.session s.last_free) (unused_first test) (
        ap (λ (w : Session). w.next) (before ∙ f.last),
        subst (λ a. Linked s'.tables.session a (unused left (i + 1) opened)) f.last_free chain,
      ),
      end,
      λ j h ne.
          kept j (omega arith) (λ e. apart j i h (e ∙ f.last_free)) ∙ f.others j (apart j i h) ne,
    )
  where
    apart : (a i : ℕ) → a < i → a ≢ i
    apart a i h e = omega arith

    unused_first :
        (opened i == 0) ≡ true → i ∷ unused left (i + 1) opened ≡ unused (suc left) i opened
    unused_first test = rw test refl

string_next :
    (time_now : ℕ) (opened : ℕ → ℕ) (left i : ℕ) (s s1 s' : Taking)
    → s.last_free < i
    → opened i ≢ 0
    → Used time_now s s1 i
    → Strung opened left (i + 1) s1 s'
    → Strung opened (suc left) i s s'
string_next time_now opened left i s s1 s' below used u (chain, end, kept) =
    let test : (opened i == 0) ≡ false = ground arith in
    (
      subst (Linked s'.tables.session s.last_free) (unused_next test)
          (subst (λ a. Linked s'.tables.session a (unused left (i + 1) opened)) u.last_free chain),
      end,
      λ j h ne. kept j (omega arith) (λ e. ne (e ∙ u.last_free)) ∙ u.others j (λ e. omega arith),
    )
  where
    unused_next : (opened i == 0) ≡ false → unused left (i + 1) opened ≡ unused (suc left) i opened
    unused_next test = rw test refl

pub walk-Strung :
    (time_now time : ℕ) (opened : ℕ → ℕ) (left i : ℕ) (s : Taking)
    → ((j : ℕ) → i ≤ j → (s.tables.session j).opened ≡ opened j)
    → s.last_free < i
    → (s.tables.session s.last_free).next ≡ 0
    → Strung opened left i s (walk (take_session time_now time) left i s)
unfolding walk
walk-Strung time_now time opened zero i s same below end = (end, end, λ j h ne. refl)
walk-Strung time_now time opened (suc left) i s same below end =
    let s1 = take_session time_now time s i in
    let here = same i (omega arith) in
    elim (ℕ_discrete (opened i) 0) [
      | yes unused_ ↦
          let f = round-Freed time_now time s i (here ∙ unused_) below in
          string_free opened left i s s1 (walk (take_session time_now time) left (i + 1) s1) below
            unused_ f
            (walk-Strung time_now time opened left (i + 1) s1
              (λ j h.
                ap (λ (w : Session). w.opened) (f.others j (λ e. omega arith) (λ e. omega arith))
                ∙ same j (omega arith))
              (let e = f.last_free in omega arith)
              (ap (λ k. (s1.tables.session k).next) f.last_free
                ∙ ap (λ (w : Session). w.next) f.here))
      | no used ↦
          let u = round-Used time_now time s i (λ e. used (sym here ∙ e)) in
          string_next time_now opened left i s s1
            (walk (take_session time_now time) left (i + 1) s1) below used u
            (walk-Strung time_now time opened left (i + 1) s1
              (λ j h.
                ap (λ (w : Session). w.opened) (u.others j (λ e. omega arith))
                ∙ same j (omega arith))
              (let e = u.last_free in omega arith)
              (ap (λ k. (s1.tables.session k).next) u.last_free
                ∙ ap (λ (w : Session). w.next) (u.others s.last_free (λ e. omega arith))
                ∙ end))
    ]
