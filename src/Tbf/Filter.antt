-- ===== src/Tbf/Filter.antt =====
-- A single filter of tbf.c: its invariant, and what tbf_run_queue sends of its queue.
use l2tpns.Prelude.{
  ℕ, zero, suc, ◌+◌, ◌-◌, ◌%◌, ◌^◌, ◌≤◌, ◌<◌, ◌≡◌, ap, List, [], ◌∷◌, ◌++◌, map, true, ◌&&◌, arith,
  length, get_or, ltb, leb, le_int,
}
use l2tpns.Tbf.{Tbf, Sent, max_queue, max_size, hand_out, send_oldest}

-- The state of a filter that the code keeps: two slots, sizes below TBF_MAX_SIZE, and a credit
-- within the burst size, which is small enough for `int`.
pub record IsValid (f : Tbf) : Type 0 where
  pub slots : length f.sizes ≡ max_queue
  pub buffers : length f.packets ≡ max_queue
  pub fits : f.queued ≤ max_queue
  pub first : f.oldest < max_queue
  pub small : (i : ℕ) → get_or f.sizes i 0 < max_size
  pub bounded : f.credit ≤ f.max_credit
  pub burst : f.max_credit < 2 ^ 30

abbrev pub Packet : Type 0
Packet = List ℕ × ℕ

-- The `n` packets of the ring from slot `h` on.
abbrev pub window : List (List ℕ) → List ℕ → ℕ → ℕ → List Packet
window packets sizes h zero = []
window packets sizes h (suc n) =
    (get_or packets h [], get_or sizes h 0) ∷ window packets sizes ((h + 1) % max_queue) n

-- The queue, oldest packet first.
abbrev pub contents : Tbf → List Packet
contents f = window f.packets f.sizes f.oldest f.queued

abbrev pub as_packets : List Sent → List Packet
as_packets = map λ s. (s.bytes, s.size)

abbrev pub total : List Sent → ℕ
total [] = 0
total (s ∷ l) = s.size + total l

abbrev pub head_size : Tbf → ℕ
head_size f = get_or f.sizes f.oldest 0

-- The test of the loop, without machine arithmetic.
pub loop_test :
    (f : Tbf)
    → IsValid f
    → ltb 0 f.queued && le_int (head_size f) f.credit ≡ ltb 0 f.queued && leb (head_size f) f.credit
loop_test f v = ground (arith, v.small f.oldest)

window_pos :
    (packets : List (List ℕ)) (sizes : List ℕ) (h n : ℕ)
    → 0 < n
    → window packets sizes h n
      ≡ (get_or packets h [], get_or sizes h 0) ∷ window packets sizes ((h + 1) % max_queue) (n - 1)
window_pos packets sizes h zero p = absurd (omega arith)
window_pos packets sizes h (suc n) p = ap (λ k. window packets sizes h (suc k)) (omega arith)

-- One round of the loop: the oldest packet leaves, and its size is paid for.
pub record Round (f g : Tbf) (out : List Sent) : Type 0 where
  pub valid : IsValid g
  pub shorter : g.queued + 1 ≡ f.queued
  pub moved : f.has_send ≡ true → contents f ≡ as_packets out ++ contents g
  pub paid : f.has_send ≡ true → total out + g.credit ≡ f.credit
  pub alike : (g.has_send ≡ f.has_send) × (g.max_credit ≡ f.max_credit) × (g.sid ≡ f.sid)

send_oldest-IsValid :
    (f : Tbf) → IsValid f → 0 < f.queued → head_size f ≤ f.credit → IsValid (send_oldest f).0
unfolding send_oldest hand_out
send_oldest-IsValid f v q c = record {
  slots = ground (arith, v.slots);
  buffers = ground (arith, v.buffers);
  fits = ground (arith, v.fits);
  first = ground (arith, v.first);
  small = λ i. ground (arith, v.small i);
  bounded = ground (arith, v.bounded, v.burst);
  burst = ground (arith, v.burst);
}

pub send_oldest-Round :
    (f : Tbf)
    → IsValid f
    → 0 < f.queued
    → head_size f ≤ f.credit
    → Round f (send_oldest f).0 (send_oldest f).1
unfolding send_oldest hand_out
send_oldest-Round f v q c = record {
  valid = send_oldest-IsValid f v q c;
  shorter = ground arith;
  moved = λ s. ground (arith, window_pos f.packets f.sizes f.oldest f.queued q);
  paid = λ s. ground (arith, v.bounded, v.burst);
  alike = (ground arith, ground arith, ground arith);
}
