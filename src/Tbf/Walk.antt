-- ===== src/Tbf/Walk.antt =====
-- tbf_run_timer of tbf.c: the walk round the timer chain, which filters leave as it goes.
use mathlib.Core.Path.{fun_ext}
use mathlib.Core.List.{append_assoc}
use l2tpns.Prelude.{
  ℕ, zero, suc, ◌+◌, ◌≤◌, ◌≡◌, ◌≢◌, ◌⊎◌, inl, inr, refl, ap, ◌∙◌, List, [], ◌∷◌, ◌++◌, Option, true,
  not, ◌&&◌, ◌||◌, arith, length, ltb, ◌==◌, Bool-cases,
}
use l2tpns.Tbf.{
  Tbf, Sent, Tbfs, put, refill, hand_out, send_oldest, drain, run_filter, tbf_run_queue,
  del_from_timer,
}
use l2tpns.Tbf.Chain.{
  NotIn, last, split_links, prev_end, ne-last, Distinct-append_right, NotIn-append_right,
}
use l2tpns.Tbf.Timer.{nexts, prevs, Ring, IsChain}
use l2tpns.Tbf.Unlink.{del_from_timer-IsChain}
use l2tpns.Tbf.Ops.{on_chain, timer_loop, tbf_run_timer}

-- Running a filter leaves its links.
drain_links :
    (fuel : ℕ) (f : Tbf) → ((drain fuel f).0.next ≡ f.next) × ((drain fuel f).0.prev ≡ f.prev)
unfolding drain send_oldest hand_out
drain_links zero f = (refl, refl)
drain_links (suc fuel) f = ground (arith, drain_links fuel (send_oldest f).0)

run_filter_links :
    (time : ℕ) (f : Tbf)
    → ((run_filter time f).0.next ≡ f.next) × ((run_filter time f).0.prev ≡ f.prev)
unfolding run_filter refill
run_filter_links time f = drain_links f.queued (refill time f)

put_links :
    (t : ℕ → Tbf) (id : ℕ) (f : Tbf)
    → f.next ≡ (t id).next
    → f.prev ≡ (t id).prev
    → (nexts (put t id f) ≡ nexts t) × (prevs (put t id f) ≡ prevs t)
put_links t id f n p = (fun_ext (λ j. ground arith), fun_ext (λ j. ground arith))

ran-IsChain :
    (s : Tbfs) (t : ℕ → Tbf) (out : List Sent) (ids : List ℕ)
    → nexts t ≡ nexts s.filters
    → prevs t ≡ prevs s.filters
    → IsChain s ids
    → IsChain (record s { filters = t; sent = out }) ids
ran-IsChain s t out [] n p c = record {
  live = c.live;
  ring = c.ring;
  distinct = c.distinct;
  nonzero = c.nonzero;
  off = λ i o. ap (λ f. f i) n ∙ c.off i o;
}
ran-IsChain s t out (x ∷ xs) n p c = record {
  live = c.live;
  ring = (c.ring.0, rw (n, p) c.ring.1);
  distinct = c.distinct;
  nonzero = c.nonzero;
  off = λ i o. ap (λ f. f i) n ∙ c.off i o;
}

-- tbf_run_queue leaves the filter on the chain, or takes it off.
run_queue-IsChain :
    (s : Tbfs) (xs : List ℕ) (id : ℕ) (ys : List ℕ)
    → IsChain s (xs ++ id ∷ ys)
    → IsChain (tbf_run_queue s id) (xs ++ id ∷ ys) ⊎ IsChain (tbf_run_queue s id) (xs ++ ys)
unfolding tbf_run_queue
run_queue-IsChain s xs id ys c =
    let (f, out) = run_filter s.time (s.filters id) in
    let s1 = record s { filters = put s.filters id f; sent = s.sent ++ out } in
    let (n, p) = run_filter_links s.time (s.filters id) in
    let (ns, ps) = put_links s.filters id f n p in
    let c1 = ran-IsChain s (put s.filters id f) (s.sent ++ out) (xs ++ id ∷ ys) ns ps c in
    elim (Bool-cases (ltb 0 f.queued || f.next == 0)) [
      | inl stays ↦ let e : tbf_run_queue s id ≡ s1 = simp (c.live, stays) in inl (rw e c1)
      | inr off ↦
          let e : tbf_run_queue s id ≡ del_from_timer s1 id = simp (c.live, off) in
          inr (rw e (del_from_timer-IsChain s1 xs id ys c1))
    ]

-- The filters run one after another.
pub run_all : Tbfs → List ℕ → Tbfs
run_all s [] = s
run_all s (id ∷ ids) = run_all (tbf_run_queue s id) ids

head_of :
    (t : ℕ → Tbf) (c : Option ℕ) (xs : List ℕ) (w : ℕ) (ws : List ℕ)
    → Ring t c (xs ++ w ∷ ws)
    → NotIn 0 (xs ++ w ∷ ws)
    → on_chain c ≡ true
head_of t c [] w ws r n = rw (r.0) (ground arith)
head_of t c (x ∷ xs) w ws r n = rw (r.0) (ground arith)

-- The successor of a filter of the chain that is not its last.
next_of :
    (s : Tbfs) (xs : List ℕ) (id w : ℕ) (ws : List ℕ)
    → IsChain s (xs ++ id ∷ w ∷ ws)
    → (s.filters id).next ≡ w
next_of s [] id w ws c = c.ring.1.0
next_of s (x ∷ xs) id w ws c =
    (split_links (nexts s.filters) (prevs s.filters) x xs id (w ∷ ws) x c.ring.1).1.0

timer_step :
    (count : ℕ) (s : Tbfs) (i w end : ℕ)
    → (s.filters i).next ≡ w
    → on_chain (tbf_run_queue s i).timer_chain ≡ true
    → 0 ≢ w
    → i ≢ end
    → 1 ≤ count
    → timer_loop (suc count) s i end ≡ timer_loop count (tbf_run_queue s i) w end
unfolding timer_loop
timer_step count s i w end n on z e h =
    let more : not ((s.filters i).next == 0) && not (i == end) && ltb 0 count ≡ true =
      ground arith in
    let go : on_chain (tbf_run_queue s i).timer_chain
          && not ((s.filters i).next == 0)
          && not (i == end)
          && ltb 0 count
        ≡ true =
      ground arith in
    simp go (ap (λ k. timer_loop count (tbf_run_queue s i) k end) n)

timer_loop-run_all :
    (count : ℕ) (s : Tbfs) (xs : List ℕ) (i : ℕ) (ys : List ℕ)
    → IsChain s (xs ++ i ∷ ys)
    → length (i ∷ ys) ≤ count
    → timer_loop count s i (last i ys) ≡ run_all s (i ∷ ys)
unfolding timer_loop run_all
timer_loop-run_all zero s xs i ys c h = absurd (omega arith)
timer_loop-run_all (suc count) s xs i [] c h = ground arith
timer_loop-run_all (suc count) s xs i (w ∷ ws) c h =
    let s1 = tbf_run_queue s i in
    let n = next_of s xs i w ws c in
    let tail = Distinct-append_right xs (i ∷ w ∷ ws) c.distinct in
    let nonzero = NotIn-append_right 0 xs (i ∷ w ∷ ws) c.nonzero in
    let apart = ne-last i w ws tail.0 in
    elim (run_queue-IsChain s xs i (w ∷ ws) c) [
      | inl c1 ↦
          let c2 : IsChain s1 ((xs ++ i ∷ []) ++ w ∷ ws) = rw append_assoc c1 in
          let more = timer_loop-run_all count s1 (xs ++ i ∷ []) w ws c2 (omega arith) in
          let on = head_of s1.filters s1.timer_chain (xs ++ i ∷ []) w ws c2.ring c2.nonzero in
          timer_step count s i w (last w ws) n on nonzero.1.0 apart (omega arith) ∙ more
      | inr c1 ↦
          let more = timer_loop-run_all count s1 xs w ws c1 (omega arith) in
          let on = head_of s1.filters s1.timer_chain xs w ws c1.ring c1.nonzero in
          timer_step count s i w (last w ws) n on nonzero.1.0 apart (omega arith) ∙ more
    ]

-- tbf_run_timer on a chain of no more filters than the table has runs every filter that is on the
-- chain when it starts, once each and in the order of the chain, also where filters leave the
-- chain on the way; the safety count does not cut the walk short.
pub tbf_run_timer-run_all :
    (s : Tbfs) (ids : List ℕ)
    → IsChain s ids
    → length ids ≤ s.size
    → tbf_run_timer s ≡ run_all s ids
unfolding tbf_run_timer run_all
tbf_run_timer-run_all s [] c h = simp c.ring
tbf_run_timer-run_all s (x ∷ xs) c h =
    let ends = prev_end (nexts s.filters) (prevs s.filters) x xs x c.ring.1 in
    simp (c.ring.0, c.live, ends) (timer_loop-run_all (s.size + 1) s [] x xs c (omega arith))
