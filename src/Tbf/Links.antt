-- ===== src/Tbf/Links.antt =====
-- The calls on the timer chain of tbf.c write only `prev` and `next`.
use l2tpns.Prelude.{
  ℕ, ◌≡◌, inl, inr, refl, ◌++◌, Option, none, some, true, false, ◌||◌, arith, Bool-cases,
  Option-cases, ltb, ◌==◌, if◌then◌else◌,
}
use l2tpns.Tbf.{
  Tbf, Tbfs, put, set_next, set_prev, link_last, add_to_timer, mark_off, unlink, del_from_timer,
  run_filter, tbf_run_queue, points_to,
}
use l2tpns.Tbf.Timer.{add_first, add_behind}

abbrev pub relink : Tbf → ℕ → ℕ → Tbf
relink f n p = record f { next = n; prev = p }

-- The table `t` with other links.
abbrev pub Relinked : (ℕ → Tbf) → (ℕ → Tbf) → Type 0
Relinked t u = (j : ℕ) → u j ≡ relink (t j) (u j).next (u j).prev

Relinked-refl : (t : ℕ → Tbf) → Relinked t t
Relinked-refl t j = refl

set_next-Relinked : (t u : ℕ → Tbf) (i n : ℕ) → Relinked t u → Relinked t (set_next u i n)
set_next-Relinked t u i n h j = ground (arith, h i, h j)

set_prev-Relinked : (t u : ℕ → Tbf) (i n : ℕ) → Relinked t u → Relinked t (set_prev u i n)
set_prev-Relinked t u i n h j = ground (arith, h i, h j)

link_last-Relinked : (t : ℕ → Tbf) (head id : ℕ) → Relinked t (link_last t head id)
unfolding link_last
link_last-Relinked t head id = set_prev-Relinked t _ head id (
    set_next-Relinked t _ _ id
      (set_prev-Relinked t _ id _ (set_next-Relinked t t id head (Relinked-refl t))))

mark_off-Relinked : (t u : ℕ → Tbf) (id : ℕ) → Relinked t u → Relinked t (mark_off u id)
mark_off-Relinked t u id h = set_prev-Relinked t _ id 0 (set_next-Relinked t u id 0 h)

unlink-Relinked : (t : ℕ → Tbf) (id : ℕ) → Relinked t (unlink t id)
unfolding unlink
unlink-Relinked t id = set_next-Relinked t _ _ _ (set_prev-Relinked t t _ _ (Relinked-refl t))

-- What the two calls on the chain leave alone.
pub record OnlyLinks (s s' : Tbfs) : Type 0 where
  pub data_kept : Relinked s.filters s'.filters
  pub sent_kept : s'.sent ≡ s.sent
  pub live_kept : s'.allocated ≡ s.allocated
  pub time_kept : s'.time ≡ s.time
  pub size_kept : s'.size ≡ s.size

OnlyLinks-write :
    (s : Tbfs) (t : ℕ → Tbf) (c : Option ℕ)
    → Relinked s.filters t
    → OnlyLinks s (record s { filters = t; timer_chain = c })
OnlyLinks-write s t c h = record {
  data_kept = h;
  sent_kept = refl;
  live_kept = refl;
  time_kept = refl;
  size_kept = refl;
}

OnlyLinks-refl : (s : Tbfs) → OnlyLinks s s
OnlyLinks-refl s = OnlyLinks-write s s.filters s.timer_chain (Relinked-refl s.filters)

module _ (s : Tbfs) (id : ℕ) where
  add_dead : s.allocated ≡ false → add_to_timer s id ≡ s
  unfolding add_to_timer
  add_dead e = simp e

  del_dead : s.allocated ≡ false → del_from_timer s id ≡ s
  unfolding del_from_timer
  del_dead e = simp e

  del_last :
      s.allocated ≡ true
      → (s.filters id).next == id ≡ true
      → del_from_timer s id ≡ record s {
        filters = mark_off s.filters id;
        timer_chain = if points_to s.timer_chain id then none else s.timer_chain;
      }
  unfolding del_from_timer
  del_last live e = simp (live, e)

  del_other :
      s.allocated ≡ true
      → (s.filters id).next == id ≡ false
      → del_from_timer s id ≡ record s {
        filters = mark_off (unlink s.filters id) id;
        timer_chain =
            if points_to s.timer_chain id
            then some (unlink s.filters id id).next
            else s.timer_chain;
      }
  unfolding del_from_timer
  del_other live e = simp (live, e)

  pub add_to_timer-OnlyLinks : OnlyLinks s (add_to_timer s id)
  add_to_timer-OnlyLinks = elim (Bool-cases s.allocated) [
    | inr dead ↦ rw (add_dead dead) (OnlyLinks-refl s)
    | inl live ↦ elim (Option-cases s.timer_chain) [
      | inl e ↦ rw (add_first s id live e) (
          OnlyLinks-write s _ (some id) (
            set_prev-Relinked s.filters _ id id
              (set_next-Relinked s.filters s.filters id id (Relinked-refl s.filters))))
      | inr (head, e) ↦
          rw (add_behind s id live head e)
            (OnlyLinks-write s _ s.timer_chain (link_last-Relinked s.filters head id))
    ]
  ]

  pub del_from_timer-OnlyLinks : OnlyLinks s (del_from_timer s id)
  del_from_timer-OnlyLinks = elim (Bool-cases s.allocated) [
    | inr dead ↦ rw (del_dead dead) (OnlyLinks-refl s)
    | inl live ↦ elim (Bool-cases ((s.filters id).next == id)) [
      | inl e ↦ rw (del_last live e) (
          OnlyLinks-write s _ _
            (mark_off-Relinked s.filters s.filters id (Relinked-refl s.filters)))
      | inr e ↦ rw (del_other live e) (
          OnlyLinks-write s _ _
            (mark_off-Relinked s.filters (unlink s.filters id) id (unlink-Relinked s.filters id)))
    ]
  ]

-- tbf_run_queue on a live table: the filter is run, what it sends is sent, and then at most links
-- change.
pub tbf_run_queue-OnlyLinks :
    (s : Tbfs) (id : ℕ)
    → s.allocated ≡ true
    → let (f, out) = run_filter s.time (s.filters id) in
      OnlyLinks
        (record s { filters = put s.filters id f; sent = s.sent ++ out })
        (tbf_run_queue s id)
unfolding tbf_run_queue
tbf_run_queue-OnlyLinks s id live =
    let (f, out) = run_filter s.time (s.filters id) in
    let s1 = record s { filters = put s.filters id f; sent = s.sent ++ out } in
    elim (Bool-cases (ltb 0 f.queued || f.next == 0)) [
      | inl stays ↦ let e : tbf_run_queue s id ≡ s1 = simp (live, stays) in rw e (OnlyLinks-refl s1)
      | inr off ↦
          let e : tbf_run_queue s id ≡ del_from_timer s1 id = simp (live, off) in
          rw e (del_from_timer-OnlyLinks s1 id)
    ]
