-- ===== src/Tbf/Timer.antt =====
-- add_to_timer and del_from_timer of tbf.c against the list of the filters on the timer chain.
use mathlib.Core.Path.{fun_ext, subst}
use l2tpns.Prelude.{
  ℕ, ◌≡◌, ◌≢◌, refl, sym, ap, List, [], ◌∷◌, ◌++◌, Option, none, some, true, arith,
}
use l2tpns.Tbf.{Tbf, Tbfs, set_next, set_prev, link_last, add_to_timer}
use l2tpns.Tbf.Chain.{
  NotIn, Distinct, upd, Linked, NotIn-append_left, NotIn-append_right, ne-last, prev_end,
  append_link,
}

abbrev pub nexts : (ℕ → Tbf) → ℕ → ℕ
nexts t i = (t i).next

abbrev pub prevs : (ℕ → Tbf) → ℕ → ℕ
prevs t i = (t i).prev

-- The ring that starts at `timer_chain`.
abbrev pub Ring : (ℕ → Tbf) → Option ℕ → List ℕ → Type 0
Ring t c [] = c ≡ none
Ring t c (x ∷ xs) = (c ≡ some x) × Linked (nexts t) (prevs t) x xs x

-- The filters on the timer chain are `ids`, in the order of the chain; the others have `next` 0.
pub record IsChain (s : Tbfs) (ids : List ℕ) : Type 0 where
  pub live : s.allocated ≡ true
  pub ring : Ring s.filters s.timer_chain ids
  pub distinct : Distinct ids
  pub nonzero : NotIn 0 ids
  pub off : (i : ℕ) → NotIn i ids → (s.filters i).next ≡ 0

module _ (t : ℕ → Tbf) (head id : ℕ) (apart : id ≢ head) where
  nexts-link_last : nexts (link_last t head id) ≡ upd (upd (nexts t) id head) (prevs t head) id
  unfolding link_last
  nexts-link_last = fun_ext (λ j. ground arith)

  prevs-link_last : prevs (link_last t head id) ≡ upd (upd (prevs t) id (prevs t head)) head id
  unfolding link_last
  prevs-link_last = fun_ext (λ j. ground arith)

NotIn-snoc : (a : ℕ) (xs : List ℕ) (i : ℕ) → NotIn a xs → a ≢ i → NotIn a (xs ++ i ∷ [])
NotIn-snoc a [] i n h = (h, tt)
NotIn-snoc a (x ∷ xs) i n h = (n.0, NotIn-snoc a xs i n.1 h)

Distinct-snoc : (xs : List ℕ) (i : ℕ) → Distinct xs → NotIn i xs → Distinct (xs ++ i ∷ [])
Distinct-snoc [] i d n = (tt, tt)
Distinct-snoc (x ∷ xs) i d n =
    (NotIn-snoc x xs i d.0 (λ e. n.0 (sym e)), Distinct-snoc xs i d.1 n.1)

module _ (s : Tbfs) (id : ℕ) (live : s.allocated ≡ true) where
  pub add_first :
      s.timer_chain ≡ none
      → add_to_timer s id
        ≡ record s { filters = set_prev (set_next s.filters id id) id id; timer_chain = some id }
  unfolding add_to_timer
  add_first e = simp (live, e)

  pub add_behind :
      (head : ℕ)
      → s.timer_chain ≡ some head
      → add_to_timer s id ≡ record s { filters = link_last s.filters head id }
  unfolding add_to_timer
  add_behind head e = simp (live, e)

first-IsChain :
    (s : Tbfs) (id : ℕ)
    → IsChain s []
    → id ≢ 0
    → IsChain
        (record s { filters = set_prev (set_next s.filters id id) id id; timer_chain = some id })
        (id ∷ [])
first-IsChain s id c h = record {
  live = c.live;
  ring = (refl, (ground arith, ground arith));
  distinct = (tt, tt);
  nonzero = (λ e. h (sym e), tt);
  off = λ i o. ground (arith, c.off i tt);
}

behind-IsChain :
    (s : Tbfs) (x : ℕ) (xs : List ℕ) (id : ℕ)
    → IsChain s (x ∷ xs)
    → NotIn id (x ∷ xs)
    → id ≢ 0
    → IsChain (record s { filters = link_last s.filters x id }) (x ∷ (xs ++ id ∷ []))
behind-IsChain s x xs id c n h =
    let t = s.filters in
    let ends = prev_end (nexts t) (prevs t) x xs x c.ring.1 in
    record {
      live = c.live;
      ring = (
        c.ring.0,
        rw (nexts-link_last t x id n.0, prevs-link_last t x id n.0, ends)
            (append_link (nexts t) (prevs t) x xs id c.distinct n c.ring.1),
      );
      distinct = Distinct-snoc (x ∷ xs) id c.distinct n;
      nonzero = NotIn-snoc 0 (x ∷ xs) id c.nonzero (λ e. h (sym e));
      off = behind_off;
    }
  where
    behind_off : (i : ℕ) → NotIn i (x ∷ (xs ++ id ∷ [])) → (link_last s.filters x id i).next ≡ 0
    behind_off i o =
        let o' = NotIn-append_left i (x ∷ xs) (id ∷ []) o in
        let other = NotIn-append_right i (x ∷ xs) (id ∷ []) o in
        let inner = ne-last i x xs o' in
        let ends = prev_end (nexts s.filters) (prevs s.filters) x xs x c.ring.1 in
        let writes = ap (λ f. f i) (nexts-link_last s.filters x id n.0) in
        ground (arith, c.off i o')

-- add_to_timer puts a filter that is off the chain at its end, and keeps every link of the ring.
pub add_to_timer-IsChain :
    (s : Tbfs) (ids : List ℕ) (id : ℕ)
    → IsChain s ids
    → NotIn id ids
    → id ≢ 0
    → IsChain (add_to_timer s id) (ids ++ id ∷ [])
add_to_timer-IsChain s [] id c n h =
    subst (λ s'. IsChain s' (id ∷ [])) (sym (add_first s id c.live c.ring)) (first-IsChain s id c h)
add_to_timer-IsChain s (x ∷ xs) id c n h =
    subst (λ s'. IsChain s' (x ∷ (xs ++ id ∷ []))) (sym (add_behind s id c.live x c.ring.0))
      (behind-IsChain s x xs id c n h)
