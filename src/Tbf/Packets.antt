-- ===== src/Tbf/Packets.antt =====
-- tbf_queue_packet of tbf.c: each packet is sent, queued behind the others, or dropped.
use mathlib.Core.List.{append_assoc, append-nil, map-append}
use l2tpns.Prelude.{
  ℕ, zero, suc, ◌+◌, ◌%◌, ◌^◌, ◌≤◌, ◌<◌, ◌≡◌, ◌⊎◌, inl, inr, refl, sym, ap, ◌∙◌, List, [], ◌∷◌,
  ◌++◌, Option, none, some, true, not, ◌||◌, arith, length, get_or, set, take, length-set, ltb,
  ◌==◌, Bool-cases, sub32, lt_int,
}
use l2tpns.Tbf.{Tbf, Tbfs, Sent, put, max_queue, max_size, add_to_timer, run_filter, tbf_run_queue}
use l2tpns.Tbf.{hand_out}
use l2tpns.Tbf.Filter.{IsValid, Packet, window, contents, as_packets}
use l2tpns.Tbf.Rate.{run_filter_lem, run_filter-Drained, has_send-refill}
use l2tpns.Tbf.Links.{relink, OnlyLinks, add_to_timer-OnlyLinks, tbf_run_queue-OnlyLinks}
use l2tpns.Tbf.Ops.{sends, drops, queues, count_queued, enqueue, judge, finish, tbf_queue_packet}

window-set :
    (ps : List (List ℕ)) (ss : List ℕ) (h n : ℕ) (b : List ℕ) (m : ℕ)
    → length ps ≡ max_queue
    → length ss ≡ max_queue
    → h < max_queue
    → n < max_queue
    → let i = (h + n) % max_queue in
      window (set ps i b) (set ss i m) h (n + 1) ≡ window ps ss h n ++ (b, m) ∷ []
window-set (p ∷ q ∷ []) (s ∷ t ∷ []) zero zero b m hp hs hh hn = refl
window-set (p ∷ q ∷ []) (s ∷ t ∷ []) zero (suc zero) b m hp hs hh hn = refl
window-set (p ∷ q ∷ []) (s ∷ t ∷ []) (suc zero) zero b m hp hs hh hn = refl
window-set (p ∷ q ∷ []) (s ∷ t ∷ []) (suc zero) (suc zero) b m hp hs hh hn = refl
window-set ps ss h n b m hp hs hh hn = absurd (omega arith)

get_or-set-lt :
    (xs : List ℕ) (i v m : ℕ)
    → ((j : ℕ) → get_or xs j 0 < m)
    → v < m
    → (j : ℕ) → get_or (set xs i v) j 0 < m
get_or-set-lt [] i v m h l j = h j
get_or-set-lt (x ∷ xs) zero v m h l zero = l
get_or-set-lt (x ∷ xs) zero v m h l (suc j) = h (suc j)
get_or-set-lt (x ∷ xs) (suc i) v m h l zero = h zero
get_or-set-lt (x ∷ xs) (suc i) v m h l (suc j) = get_or-set-lt xs i v m (λ k. h (suc k)) l j

relink-IsValid : (f : Tbf) (n p : ℕ) → IsValid f → IsValid (relink f n p)
relink-IsValid f n p v = record {
  slots = v.slots;
  buffers = v.buffers;
  fits = v.fits;
  first = v.first;
  small = v.small;
  bounded = v.bounded;
  burst = v.burst;
}

-- The packet that a reply accepts: `none` is the value -1.
abbrev pub accepted : Option ℕ → List ℕ → ℕ → List Packet
accepted none bytes size = []
accepted (some n) bytes size = (take size bytes, size) ∷ []

-- What a call has done to one filter, whose queue was `queue`, with a packet.
pub record Served (s s' : Tbfs) (id : ℕ) (queue : List Packet) (new : List Packet) : Type 0 where
  pub out : List Sent
  pub sent : s'.sent ≡ s.sent ++ out
  pub order : as_packets out ++ contents (s'.filters id) ≡ queue ++ new
  pub valid : IsValid (s'.filters id)

put_self : (t : ℕ → Tbf) (id : ℕ) (f : Tbf) → put t id f id ≡ f
put_self t id f = ground arith

credit_left :
    (f : Tbf) (size : ℕ)
    → IsValid f
    → lt_int size f.credit ≡ true
    → size < 2 ^ 31
    → sub32 f.credit size ≤ f.credit
credit_left f size v h l = ground (arith, v.bounded, v.burst)

sends-Served :
    (s : Tbfs) (id : ℕ) (f : Tbf) (bytes : List ℕ) (size : ℕ)
    → IsValid f
    → f.has_send ≡ true
    → f.queued ≡ 0
    → sub32 f.credit size ≤ f.credit
    → let (s', reply) = finish s id f bytes size sends in
      Served s s' id (contents f) (accepted reply bytes size)
unfolding finish hand_out
sends-Served s id f bytes size v h q c = record {
  out = record { to = f.sid; bytes = take size bytes; size = size } ∷ [];
  sent = ground arith;
  order = ground arith;
  valid = rw (put_self s.filters id) (
      simp h (record {
        slots = v.slots;
        buffers = v.buffers;
        fits = v.fits;
        first = v.first;
        small = v.small;
        bounded = omega (arith, v.bounded);
        burst = v.burst;
      }));
}

drops-Served :
    (s : Tbfs) (id : ℕ) (f : Tbf) (bytes : List ℕ) (size : ℕ)
    → IsValid f
    → let (s', reply) = finish s id f bytes size drops in
      Served s s' id (contents f) (accepted reply bytes size)
unfolding finish
drops-Served s id f bytes size v = record {
  out = [];
  sent = sym (append-nil s.sent);
  order = rw (put_self s.filters id, append-nil);
  valid = rw (put_self s.filters id) (record {
    slots = v.slots;
    buffers = v.buffers;
    fits = v.fits;
    first = v.first;
    small = v.small;
    bounded = v.bounded;
    burst = v.burst;
  });
}

enqueue-IsValid :
    (f : Tbf) (bytes : List ℕ) (size : ℕ)
    → IsValid f
    → f.queued < max_queue
    → size < max_size
    → IsValid (enqueue f bytes size)
enqueue-IsValid f bytes size v q l =
    let i = (f.oldest + f.queued) % max_queue in
    record {
      slots = length-set f.sizes i size ∙ v.slots;
      buffers = length-set f.packets i (take size bytes) ∙ v.buffers;
      fits = omega arith;
      first = v.first;
      small = get_or-set-lt f.sizes i size max_size v.small l;
      bounded = v.bounded;
      burst = v.burst;
    }

enqueued-Served :
    (s : Tbfs) (id : ℕ) (f : Tbf) (bytes : List ℕ) (size : ℕ)
    → IsValid f
    → f.queued < max_queue
    → size < max_size
    → Served s
        (record s { filters = put s.filters id (enqueue f bytes size) })
        id
        (contents f)
        ((take size bytes, size) ∷ [])
enqueued-Served s id f bytes size v q l = record {
  out = [];
  sent = sym (append-nil s.sent);
  order = rw (put_self s.filters id) (
      window-set f.packets f.sizes f.oldest f.queued (take size bytes) size v.buffers v.slots
        v.first q);
  valid = rw (put_self s.filters id) (enqueue-IsValid f bytes size v q l);
}

-- A call that changes links only serves what the state before it served.
Served-OnlyLinks :
    (s s1 s2 : Tbfs) (id : ℕ) (queue new : List Packet)
    → OnlyLinks s1 s2
    → Served s s1 id queue new
    → Served s s2 id queue new
Served-OnlyLinks s s1 s2 id queue new o d = record {
  out = d.out;
  sent = o.sent_kept ∙ d.sent;
  order = rw (o.data_kept id) d.order;
  valid = rw (o.data_kept id) (relink-IsValid (s1.filters id) _ _ d.valid);
}

queues-Served :
    (s : Tbfs) (id : ℕ) (f : Tbf) (bytes : List ℕ) (size : ℕ)
    → IsValid f
    → f.queued < max_queue
    → size < max_size
    → let (s', reply) = finish s id f bytes size queues in
      Served s s' id (contents f) (accepted reply bytes size)
unfolding finish
queues-Served s id f bytes size v q l =
    let s1 = record s { filters = put s.filters id (enqueue f bytes size) } in
    let new = (take size bytes, size) ∷ [] in
    let d = enqueued-Served s id f bytes size v q l in
    elim (Bool-cases (f.next == 0)) [
      | inl e ↦ rw e (
          Served-OnlyLinks s s1 (add_to_timer s1 id) id (contents f) new
            (add_to_timer-OnlyLinks s1 id) d)
      | inr e ↦ rw e d
    ]

judge_cases :
    (f : Tbf) (size : ℕ)
    → ((judge f size ≡ sends) × (f.queued ≡ 0) × (lt_int size f.credit ≡ true))
      ⊎ ((judge f size ≡ drops)
          ⊎ ((judge f size ≡ queues) × (f.queued < max_queue) × (size < max_size)))
unfolding judge
judge_cases f size = ground arith

finish-Served :
    (s : Tbfs) (id : ℕ) (f : Tbf) (bytes : List ℕ) (size : ℕ)
    → IsValid f
    → f.has_send ≡ true
    → size < 2 ^ 31
    → let (s', reply) = finish s id f bytes size (judge f size) in
      Served s s' id (contents f) (accepted reply bytes size)
finish-Served s id f bytes size v h l = elim (judge_cases f size) [
  | inl (e, q, c) ↦ rw e (sends-Served s id f bytes size v h q (credit_left f size v c l))
  | inr (inl e) ↦ rw e (drops-Served s id f bytes size v)
  | inr (inr (e, q, m)) ↦ rw e (queues-Served s id f bytes size v q m)
]

-- Serving after the queue has been run.
Served-after :
    (s s1 s2 : Tbfs) (id : ℕ) (before queue new : List Packet) (out : List Sent)
    → s1.sent ≡ s.sent ++ out
    → before ≡ as_packets out ++ queue
    → Served s1 s2 id queue new
    → Served s s2 id before new
Served-after s s1 s2 id before queue new out e b d = record {
  out = out ++ d.out;
  sent = d.sent ∙ ap (λ l. l ++ d.out) e ∙ append_assoc s.sent out d.out;
  order =
      ap (λ l. l ++ contents (s2.filters id)) (map-append _ out d.out)
      ∙ append_assoc (as_packets out) (as_packets d.out) (contents (s2.filters id))
      ∙ ap (λ l. as_packets out ++ l) d.order
      ∙ sym (append_assoc (as_packets out) queue new)
      ∙ ap (λ l. l ++ new) (sym b);
  valid = d.valid;
}

-- The filter that tbf_run_queue leaves, up to its links.
pub run_queue_filter :
    (s : Tbfs) (id : ℕ)
    → s.allocated ≡ true
    → let f' = (tbf_run_queue s id).filters id in
      f' ≡ relink (run_filter s.time (s.filters id)).0 f'.next f'.prev
run_queue_filter s id live =
    let o = tbf_run_queue-OnlyLinks s id live in
    let f' = (tbf_run_queue s id).filters id in
    o.data_kept id
    ∙ ap (λ f. relink f f'.next f'.prev)
        (put_self s.filters id (run_filter s.time (s.filters id)).0)

counted-IsValid : (f : Tbf) (size : ℕ) → IsValid f → IsValid (count_queued f size)
counted-IsValid f size v = record {
  slots = v.slots;
  buffers = v.buffers;
  fits = v.fits;
  first = v.first;
  small = v.small;
  bounded = v.bounded;
  burst = v.burst;
}

run_queue_ready :
    (s : Tbfs) (id size : ℕ)
    → s.allocated ≡ true
    → IsValid (s.filters id)
    → (s.filters id).has_send ≡ true
    → let (g, out) = run_filter s.time (s.filters id) in
      let f = count_queued ((tbf_run_queue s id).filters id) size in
      (contents (s.filters id) ≡ as_packets out ++ contents f) × IsValid f × (f.has_send ≡ true)
run_queue_ready s id size live v h =
    let e = run_queue_filter s id live in
    let (moved, paid, stopped, valid) = run_filter_lem s.time (s.filters id) v h in
    let d = run_filter-Drained s.time (s.filters id) v in
    let sends_on = d.alike.0 ∙ has_send-refill s.time (s.filters id) ∙ h in
    (rw e moved, rw e (counted-IsValid _ size (relink-IsValid _ _ _ valid)), rw e sends_on)

Served-refused :
    (s : Tbfs) (id : ℕ) → IsValid (s.filters id) → Served s s id (contents (s.filters id)) []
Served-refused s id v = record {
  out = [];
  sent = sym (append-nil s.sent);
  order = sym (append-nil _);
  valid = v;
}

-- tbf_queue_packet on a valid filter with a `send`: what it sends, followed by what it leaves in
-- the queue, is the queue as it was, followed by the new packet if the call accepts it (returns
-- something other than -1) and by nothing if not. So packets leave in the order in which they
-- came, none is sent twice, only the new one can be dropped, and the filter stays valid.
pub tbf_queue_packet-Served :
    (s : Tbfs) (id : ℕ) (bytes : List ℕ) (size : ℕ)
    → IsValid (s.filters id)
    → (s.filters id).has_send ≡ true
    → size < 2 ^ 31
    → let (s', reply) = tbf_queue_packet s id bytes size in
      Served s s' id (contents (s.filters id)) (accepted reply bytes size)
unfolding tbf_queue_packet
tbf_queue_packet-Served s id bytes size v h l =
    elim (Bool-cases (not s.allocated || ltb s.size id || ltb id 1 || (s.filters id).sid == 0)) [
      | inl refused ↦ rw refused (Served-refused s id v)
      | inr open_filter ↦
          let live : s.allocated ≡ true = ground arith in
          let o = tbf_run_queue-OnlyLinks s id live in
          let (moved, valid, send) = run_queue_ready s id size live v h in
          let s1 = tbf_run_queue s id in
          let f = count_queued (s1.filters id) size in
          rw open_filter (
            Served-after s s1 _ id (contents (s.filters id)) (contents f) _
              (run_filter s.time (s.filters id)).1 o.sent_kept moved
              (finish-Served s1 id f bytes size valid send l))
    ]
