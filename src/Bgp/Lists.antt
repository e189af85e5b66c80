-- ===== src/Bgp/Lists.antt =====
-- The searches of bgp.c in a sorted list of routes, against the set of its entries.
use Prim.Native.Nat.{Ordering}
use l2tpns.Prelude.{
  ◌≡◌, ◌≢◌, ◌⊎◌, ◌↔◌, inl, inr, refl, sym, ◌∙◌, List, [], ◌∷◌, true, false, Bool-cases,
}
use mathlib.Core.Path.{subst}
use l2tpns.Bgp.{Dest, memcmp, is_lt, insert_route, covered, unlink_route}
use l2tpns.Bgp.Order.{memcmp_eq, memcmp_gt, memcmp_trans, memcmp_irrefl}

abbrev pub In : Dest → List Dest → Type 0
In d [] = ⊥
In d (r ∷ rs) = (d ≡ r) ⊎ In d rs

-- Every entry lies above `d`.
abbrev pub Above : Dest → List Dest → Type 0
Above d [] = Unit {0}
Above d (r ∷ rs) = (memcmp d r ≡ Ordering.lt) × Above d rs

-- Sorted, with no entry twice.
abbrev pub Sorted : List Dest → Type 0
Sorted [] = Unit {0}
Sorted (r ∷ rs) = Above r rs × Sorted rs

memcmp_cases :
    (a b : Dest)
    → (memcmp a b ≡ Ordering.lt) ⊎ ((memcmp a b ≡ Ordering.eq) ⊎ (memcmp a b ≡ Ordering.gt))
memcmp_cases a b = ordering_cases (memcmp a b)
  where
    ordering_cases : (o : Ordering) → (o ≡ Ordering.lt) ⊎ ((o ≡ Ordering.eq) ⊎ (o ≡ Ordering.gt))
    ordering_cases Ordering.lt = inl refl
    ordering_cases Ordering.eq = inr (inl refl)
    ordering_cases Ordering.gt = inr (inr refl)

Above-trans : (a b : Dest) (l : List Dest) → memcmp a b ≡ Ordering.lt → Above b l → Above a l
Above-trans a b [] h u = tt
Above-trans a b (r ∷ rs) h u = (memcmp_trans a b r h u.0, Above-trans a b rs h u.1)

Above-ne : (d x : Dest) (l : List Dest) → Above d l → In x l → d ≢ x
Above-ne d x [] u i = absurd i
Above-ne d x (r ∷ rs) u (inl e) = λ q. memcmp_irrefl d r u.0 (q ∙ e)
Above-ne d x (r ∷ rs) u (inr i) = Above-ne d x rs u.1 i

-- The steps of the three searches at an entry below, at or above the one that is sought.
module _ (r d : Dest) (l : List Dest) where
  covered_below : memcmp r d ≡ Ordering.lt → covered (r ∷ l) d ≡ covered l d
  unfolding covered
  covered_below e = rw (e, covered)

  covered_here : memcmp r d ≡ Ordering.eq → covered (r ∷ l) d ≡ true
  unfolding covered
  covered_here e = rw (e, covered)

  covered_above : memcmp r d ≡ Ordering.gt → covered (r ∷ l) d ≡ false
  unfolding covered
  covered_above e = rw (e, covered)

  insert_below : memcmp r d ≡ Ordering.lt → insert_route (r ∷ l) d ≡ r ∷ insert_route l d
  unfolding insert_route
  insert_below e = rw e

  insert_above : memcmp r d ≡ Ordering.gt → insert_route (r ∷ l) d ≡ d ∷ r ∷ l
  unfolding insert_route
  insert_above e = rw e

  unlink_below :
      memcmp r d ≡ Ordering.lt
      → unlink_route (r ∷ l) d ≡ (r ∷ (unlink_route l d).0, (unlink_route l d).1)
  unfolding unlink_route
  unlink_below e = rw (e, unlink_route)

  unlink_here : memcmp r d ≡ Ordering.eq → unlink_route (r ∷ l) d ≡ (l, true)
  unfolding unlink_route
  unlink_here e = rw (e, unlink_route)

  unlink_above : memcmp r d ≡ Ordering.gt → unlink_route (r ∷ l) d ≡ (r ∷ l, false)
  unfolding unlink_route
  unlink_above e = rw (e, unlink_route)

pub true≢false : true ≢ false
true≢false e = cc

pub covered-In : (l : List Dest) (add : Dest) → covered l add ≡ true → In add l
unfolding covered
covered-In [] add h = absurd (true≢false (sym h))
covered-In (r ∷ l) add h = elim (memcmp_cases r add) [
  | inl lt ↦ inr (covered-In l add (sym (covered_below r add l lt) ∙ h))
  | inr (inl e) ↦ inl (sym (memcmp_eq r add e))
  | inr (inr gt) ↦ absurd (true≢false (sym h ∙ covered_above r add l gt))
]

Above-insert :
    (x : Dest) (l : List Dest) (new : Dest)
    → memcmp x new ≡ Ordering.lt
    → Above x l
    → Above x (insert_route l new)
unfolding insert_route
Above-insert x [] new h u = (h, tt)
Above-insert x (p ∷ l) new h u = elim (Bool-cases (is_lt (memcmp p new))) [
  | inl below ↦ rw below (u.0, Above-insert x l new h u.1)
  | inr above ↦ rw above (h, u)
]

pub insert-Sorted :
    (l : List Dest) (new : Dest) → Sorted l → covered l new ≡ false → Sorted (insert_route l new)
unfolding insert_route
insert-Sorted [] new s h = (tt, tt)
insert-Sorted (p ∷ l) new s h = elim (memcmp_cases p new) [
  | inl lt ↦
      let rest = insert-Sorted l new s.1 (sym (covered_below p new l lt) ∙ h) in
      subst Sorted (sym (insert_below p new l lt)) (Above-insert p l new lt s.0, rest)
  | inr (inl e) ↦ absurd (true≢false (sym (covered_here p new l e) ∙ h))
  | inr (inr gt) ↦
      let below = memcmp_gt p new gt in
      subst Sorted (sym (insert_above p new l gt)) ((below, Above-trans new p l below s.0), s)
]

pub In-insert :
    (d : Dest) (l : List Dest) (new : Dest) → In d (insert_route l new) ↔ ((d ≡ new) ⊎ In d l)
unfolding insert_route
In-insert d [] new = (λ i. i, λ i. i)
In-insert d (p ∷ l) new = elim (Bool-cases (is_lt (memcmp p new))) [
  | inl below ↦ rw below (
    elim [
      | inl e ↦ inr (inl e)
      | inr i ↦ elim ((In-insert d l new).0 i) [ inl e ↦ inl e | inr j ↦ inr (inr j) ]
    ],
    elim [
      | inl e ↦ inr ((In-insert d l new).1 (inl e))
      | inr i ↦ elim i [ inl e ↦ inl e | inr j ↦ inr ((In-insert d l new).1 (inr j)) ]
    ],
  )
  | inr above ↦ rw above (λ i. i, λ i. i)
]

Above-unlink : (x : Dest) (l : List Dest) (del : Dest) → Above x l → Above x (unlink_route l del).0
unfolding unlink_route
Above-unlink x [] del u = tt
Above-unlink x (r ∷ l) del u = elim (memcmp_cases r del) [
  | inl lt ↦
      subst (λ q. Above x q.0) (sym (unlink_below r del l lt)) (u.0, Above-unlink x l del u.1)
  | inr (inl e) ↦ subst (λ q. Above x q.0) (sym (unlink_here r del l e)) u.1
  | inr (inr gt) ↦ subst (λ q. Above x q.0) (sym (unlink_above r del l gt)) u
]

pub unlink-Sorted : (l : List Dest) (del : Dest) → Sorted l → Sorted (unlink_route l del).0
unfolding unlink_route
unlink-Sorted [] del s = tt
unlink-Sorted (r ∷ l) del s = elim (memcmp_cases r del) [
  | inl lt ↦
      subst (λ q. Sorted q.0) (sym (unlink_below r del l lt))
        (Above-unlink r l del s.0, unlink-Sorted l del s.1)
  | inr (inl e) ↦ subst (λ q. Sorted q.0) (sym (unlink_here r del l e)) s.1
  | inr (inr gt) ↦ subst (λ q. Sorted q.0) (sym (unlink_above r del l gt)) s
]

kept_below :
    (d r : Dest) (l rest : List Dest) (del : Dest)
    → In d rest ↔ (In d l × (d ≢ del))
    → In d (r ∷ l) × (d ≢ del)
    → In d (r ∷ rest)
kept_below d r l rest del ih (inl e, ne) = inl e
kept_below d r l rest del ih (inr i, ne) = inr (ih.1 (i, ne))

dropped : (d r : Dest) (l : List Dest) (del : Dest) → r ≡ del → In d (r ∷ l) × (d ≢ del) → In d l
dropped d r l del same (inl e, ne) = absurd (ne (e ∙ same))
dropped d r l del same (inr i, ne) = i

-- Membership after unlinking, where the list is sorted.
pub In-unlink :
    (d : Dest) (l : List Dest) (del : Dest)
    → Sorted l
    → In d (unlink_route l del).0 ↔ (In d l × (d ≢ del))
unfolding unlink_route
In-unlink d [] del s = (λ i. absurd i, λ i. i.0)
In-unlink d (r ∷ l) del s = elim (memcmp_cases r del) [
  | inl lt ↦
      let ih = In-unlink d l del s.1 in
      let ne = memcmp_irrefl r del lt in
      subst (λ q. In d q.0 ↔ (In d (r ∷ l) × (d ≢ del))) (sym (unlink_below r del l lt))
        (
          elim [ inl e ↦ (inl e, λ q. ne (sym e ∙ q)) | inr i ↦ (inr (ih.0 i).0, (ih.0 i).1) ],
          λ i. kept_below d r l (unlink_route l del).0 del ih i,
        )
  | inr (inl e) ↦
      let same = memcmp_eq r del e in
      subst (λ q. In d q.0 ↔ (In d (r ∷ l) × (d ≢ del))) (sym (unlink_here r del l e))
        (λ i. (inr i, λ q. Above-ne r d l s.0 i (same ∙ sym q)), λ i. dropped d r l del same i)
  | inr (inr gt) ↦
      let below = memcmp_gt r del gt in
      subst (λ q. In d q.0 ↔ (In d (r ∷ l) × (d ≢ del))) (sym (unlink_above r del l gt))
        (
          λ i. (i, λ q. Above-ne del d (r ∷ l) (below, Above-trans del r l below s.0) i (sym q)),
          λ i. i.0,
        )
]
