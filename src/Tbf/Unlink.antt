-- ===== src/Tbf/Unlink.antt =====
-- del_from_timer of tbf.c against the list of the filters on the timer chain.
use mathlib.Core.Path.{fun_ext, subst}
use l2tpns.Prelude.{
  ℕ, ◌≡◌, ◌≢◌, refl, sym, ap, ◌∙◌, List, [], ◌∷◌, ◌++◌, none, some, true, false, arith, ◌==◌,
}
use l2tpns.Tbf.{Tbf, Tbfs, mark_off, unlink, del_from_timer}
use l2tpns.Tbf.Timer.{nexts, prevs, IsChain}
use l2tpns.Tbf.Chain.{
  NotIn-remove, upd, last, first, ne-last, prev_end, next_start, frame_next, frame_prev,
  split_links, relink_end, Distinct-remove, unlink_links, middle-NotIn, Distinct-append_right,
  NotIn-append, NotIn-append_left, NotIn-insert, ne-first,
}

module _ (t : ℕ → Tbf) (id : ℕ) (apart : (t id).next ≢ id) where
  nexts-unlink :
      nexts (mark_off (unlink t id) id) ≡ upd (upd (nexts t) (prevs t id) (nexts t id)) id 0
  unfolding unlink
  nexts-unlink = fun_ext (λ j. ground arith)

  prevs-unlink :
      prevs (mark_off (unlink t id) id) ≡ upd (upd (prevs t) (nexts t id) (prevs t id)) id 0
  unfolding unlink
  prevs-unlink = fun_ext (λ j. ground arith)

off-unlink :
    (t : ℕ → Tbf) (id i : ℕ)
    → (t id).next ≢ id
    → i ≢ prevs t id
    → (i ≢ id → nexts t i ≡ 0)
    → nexts (mark_off (unlink t id) id) i ≡ 0
off-unlink t id i loop h rest = let writes = ap (λ f. f i) (nexts-unlink t id loop) in ground arith

module _ (s : Tbfs) (id : ℕ) (live : s.allocated ≡ true) where
  del_single :
      (s.filters id).next ≡ id
      → s.timer_chain ≡ some id
      → del_from_timer s id ≡ record s { filters = mark_off s.filters id; timer_chain = none }
  unfolding del_from_timer
  del_single e c =
      let hit : (s.filters id).next == id ≡ true = ground arith in
      let here : id == id ≡ true = ground arith in simp (live, hit, c, here)

  del_head :
      (s.filters id).next ≢ id
      → s.timer_chain ≡ some id
      → del_from_timer s id ≡ record s {
        filters = mark_off (unlink s.filters id) id;
        timer_chain = some (unlink s.filters id id).next;
      }
  unfolding del_from_timer
  del_head e c =
      let hit : (s.filters id).next == id ≡ false = ground arith in
      let here : id == id ≡ true = ground arith in simp (live, hit, c, here)

  del_inner :
      (head : ℕ)
      → (s.filters id).next ≢ id
      → s.timer_chain ≡ some head
      → head ≢ id
      → del_from_timer s id ≡ record s { filters = mark_off (unlink s.filters id) id }
  unfolding del_from_timer
  del_inner head e c h =
      let hit : (s.filters id).next == id ≡ false = ground arith in
      let other : head == id ≡ false = ground arith in simp (live, hit, c, other)

single-IsChain :
    (s : Tbfs) (id : ℕ)
    → IsChain s (id ∷ [])
    → IsChain (record s { filters = mark_off s.filters id; timer_chain = none }) []
single-IsChain s id c = record {
  live = c.live;
  ring = refl;
  distinct = tt;
  nonzero = tt;
  off = λ i o. let rest = λ (e : i ≢ id). c.off i (e, tt) in ground (arith, rest);
}

head-IsChain :
    (s : Tbfs) (id w : ℕ) (ws : List ℕ)
    → IsChain s (id ∷ w ∷ ws)
    → IsChain
        (record s {
          filters = mark_off (unlink s.filters id) id;
          timer_chain = some (unlink s.filters id id).next;
        })
        (w ∷ ws)
unfolding unlink
head-IsChain s id w ws c =
    let t = s.filters in
    let nx = nexts t in
    let pv = prevs t in
    let l = c.ring.1 in
    let n : nexts t id ≡ w = l.0 in
    let p : prevs t id ≡ last w ws = prev_end nx pv w ws id l.2 in
    let apart = ne-last id w ws c.distinct.0 in
    let here = c.distinct.0.0 in
    let loop : (t id).next ≢ id = λ e. here (sym e ∙ n) in
    record {
      live = c.live;
      ring = (
        ap some (ground arith),
        rw (nexts-unlink t id loop, prevs-unlink t id loop, n, p)
            (frame_next (upd nx (last w ws) w) (upd (upd pv w (last w ws)) id 0) id 0 w ws w
              c.distinct.0
              (frame_prev (upd nx (last w ws) w) (upd pv w (last w ws)) id 0 w ws w c.distinct.0.1
                here (relink_end nx pv w ws id w c.distinct.1 c.distinct.1.0 l.2))),
      );
      distinct = c.distinct.1;
      nonzero = c.nonzero.1;
      off = λ i o. off-unlink t id i loop (λ e. ne-last i w ws o (e ∙ p)) (λ e. c.off i (e, o));
    }

inner-IsChain :
    (s : Tbfs) (x : ℕ) (ys : List ℕ) (id : ℕ) (zs : List ℕ)
    → IsChain s (x ∷ (ys ++ id ∷ zs))
    → IsChain (record s { filters = mark_off (unlink s.filters id) id }) (x ∷ (ys ++ zs))
inner-IsChain s x ys id zs c =
    let t = s.filters in
    let nx = nexts t in
    let pv = prevs t in
    let n' = first zs x in
    let p' = last x ys in
    let (left, right) = split_links nx pv x ys id zs x c.ring.1 in
    let n : nexts t id ≡ n' = next_start nx pv id zs x right in
    let p : prevs t id ≡ p' = prev_end nx pv x ys id left in
    let before = middle-NotIn (x ∷ ys) id zs c.distinct in
    let after = Distinct-append_right (x ∷ ys) (id ∷ zs) c.distinct in
    let out = NotIn-append id (x ∷ ys) zs before after.0 in
    let here = ne-first id zs x after.0 before.0 in
    let loop : (t id).next ≢ id = λ e. here (sym e ∙ n) in
    record {
      live = c.live;
      ring = (
        c.ring.0,
        rw (nexts-unlink t id loop, prevs-unlink t id loop, n, p)
            (frame_next (upd nx p' n') (upd (upd pv n' p') id 0) id 0 x (ys ++ zs) x out (
              frame_prev (upd nx p' n') (upd pv n' p') id 0 x (ys ++ zs) x out.1 out.0
                (unlink_links nx pv x ys id zs c.distinct c.ring.1))),
      );
      distinct = Distinct-remove id (x ∷ ys) zs c.distinct;
      nonzero = NotIn-remove 0 id (x ∷ ys) zs c.nonzero;
      off = λ i o.
          off-unlink t id i loop (λ e. ne-last i x ys (NotIn-append_left i (x ∷ ys) zs o) (e ∙ p))
            (λ e. c.off i (NotIn-insert i id (x ∷ ys) zs o e));
    }

-- del_from_timer takes a filter off the chain wherever it stands, joins its neighbours, and moves
-- `timer_chain` on if it pointed at the filter; the others keep their order.
pub del_from_timer-IsChain :
    (s : Tbfs) (xs : List ℕ) (id : ℕ) (ys : List ℕ)
    → IsChain s (xs ++ id ∷ ys)
    → IsChain (del_from_timer s id) (xs ++ ys)
del_from_timer-IsChain s [] id [] c =
    subst (λ s'. IsChain s' []) (sym (del_single s id c.live c.ring.1.0 c.ring.0))
      (single-IsChain s id c)
del_from_timer-IsChain s [] id (w ∷ ws) c =
    let loop : (s.filters id).next ≢ id = λ e. c.distinct.0.0 (sym e ∙ c.ring.1.0) in
    subst (λ s'. IsChain s' (w ∷ ws)) (sym (del_head s id c.live loop c.ring.0))
      (head-IsChain s id w ws c)
del_from_timer-IsChain s (x ∷ xs) id ys c =
    let t = s.filters in
    let (left, right) = split_links (nexts t) (prevs t) x xs id ys x c.ring.1 in
    let before = middle-NotIn (x ∷ xs) id ys c.distinct in
    let after = Distinct-append_right (x ∷ xs) (id ∷ ys) c.distinct in
    let n = next_start (nexts t) (prevs t) id ys x right in
    let loop : (t id).next ≢ id = λ e. ne-first id ys x after.0 before.0 (sym e ∙ n) in
    subst (λ s'. IsChain s' (x ∷ (xs ++ ys)))
      (sym (del_inner s id c.live x loop c.ring.0 (λ e. before.0 (sym e))))
      (inner-IsChain s x xs id ys c)
