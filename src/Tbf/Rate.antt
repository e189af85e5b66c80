-- ===== src/Tbf/Rate.antt =====
-- tbf_run_queue of tbf.c on one filter: order, rate and progress.
use Prim.Native.Nat.{min}
use mathlib.Core.List.{append_assoc, map-append}
use l2tpns.Prelude.{
  ℕ, zero, suc, ◌+◌, ◌/◌, ◌≤◌, ◌<◌, ◌≡◌, ◌⊎◌, inl, inr, refl, sym, ap, ◌∙◌, List, [], ◌∷◌, ◌++◌,
  true, false, ◌&&◌, arith, ltb, leb, Bool-cases, sub32, mul32,
}
use l2tpns.Tbf.{Tbf, Sent, refill, send_oldest, drain, run_filter}
use l2tpns.Tbf.Filter.{
  IsValid, contents, as_packets, total, head_size, loop_test, Round, send_oldest-Round,
}

-- What a run of the loop has done when it stops.
pub record Drained (f g : Tbf) (out : List Sent) : Type 0 where
  pub valid : IsValid g
  pub moved : f.has_send ≡ true → contents f ≡ as_packets out ++ contents g
  pub paid : f.has_send ≡ true → total out + g.credit ≡ f.credit
  pub stopped : (g.queued ≡ 0) ⊎ (g.credit < head_size g)
  pub alike : (g.has_send ≡ f.has_send) × (g.max_credit ≡ f.max_credit) × (g.sid ≡ f.sid)

total-append : (a b : List Sent) → total (a ++ b) ≡ total a + total b
total-append [] b = omega arith
total-append (x ∷ a) b = omega (arith, total-append a b)

Drained-stop :
    (f : Tbf) → IsValid f → ltb 0 f.queued && leb (head_size f) f.credit ≡ false → Drained f f []
Drained-stop f v e = record {
  valid = v;
  moved = λ _. refl;
  paid = λ _. omega arith;
  stopped = ground arith;
  alike = (refl, refl, refl);
}

Round-Drained :
    (f g h : Tbf) (out more : List Sent)
    → Round f g out
    → Drained g h more
    → Drained f h (out ++ more)
Round-Drained f g h out more r d = record {
  valid = d.valid;
  moved = λ s.
      r.moved s
      ∙ ap (λ l. as_packets out ++ l) (d.moved (r.alike.0 ∙ s))
      ∙ sym (append_assoc (as_packets out) (as_packets more) (contents h))
      ∙ ap (λ l. l ++ contents h) (sym (map-append _ out more));
  paid = λ s. omega (arith, total-append out more, r.paid s, d.paid (r.alike.0 ∙ s));
  stopped = d.stopped;
  alike = (d.alike.0 ∙ r.alike.0, d.alike.1 ∙ r.alike.1, d.alike.2 ∙ r.alike.2);
}

drain-Drained :
    (fuel : ℕ) (f : Tbf) → IsValid f → f.queued ≤ fuel → Drained f (drain fuel f).0 (drain fuel f).1
unfolding drain
drain-Drained zero f v h = Drained-stop f v (ground arith)
drain-Drained (suc fuel) f v h = elim (Bool-cases (ltb 0 f.queued && leb (head_size f) f.credit)) [
  | inl go ↦
      let r = send_oldest-Round f v (ground arith) (ground arith) in
      let g = (send_oldest f).0 in
      rw (loop_test f v, go)
        (Round-Drained f g (drain fuel g).0 (send_oldest f).1 (drain fuel g).1 r
          (drain-Drained fuel g r.valid (omega (arith, r.shorter))))
  | inr stop ↦ rw (loop_test f v, stop) (Drained-stop f v stop)
]

-- The credit after the refill at `time`: what has come in since `lasttime`, up to the burst size.
abbrev pub refilled : ℕ → Tbf → ℕ
refilled time f = min (f.credit + mul32 (sub32 time f.lasttime) f.rate / 10) f.max_credit

credit-refill : (time : ℕ) (f : Tbf) → IsValid f → (refill time f).credit ≡ refilled time f
unfolding refill
credit-refill time f v = ground (arith, v.bounded, v.burst)

pub refill-IsValid : (time : ℕ) (f : Tbf) → IsValid f → IsValid (refill time f)
unfolding refill
refill-IsValid time f v = record {
  slots = v.slots;
  buffers = v.buffers;
  fits = v.fits;
  first = v.first;
  small = v.small;
  bounded = ground (arith, v.bounded, v.burst);
  burst = v.burst;
}

pub run_filter-Drained :
    (time : ℕ) (f : Tbf)
    → IsValid f
    → Drained (refill time f) (run_filter time f).0 (run_filter time f).1
unfolding run_filter
run_filter-Drained time f v =
    let g = refill time f in drain-Drained g.queued g (refill-IsValid time f v) (omega arith)

contents-refill : (time : ℕ) (f : Tbf) → contents (refill time f) ≡ contents f
unfolding refill
contents-refill time f = refl

pub has_send-refill : (time : ℕ) (f : Tbf) → (refill time f).has_send ≡ f.has_send
unfolding refill
has_send-refill time f = refl

pub run_filter_lem :
    (time : ℕ) (f : Tbf)
    → IsValid f
    → f.has_send ≡ true
    → let (g, out) = run_filter time f in
      (contents f ≡ as_packets out ++ contents g)
      × (total out + g.credit ≡ refilled time f)
      × ((g.queued ≡ 0) ⊎ (g.credit < head_size g))
      × IsValid g
run_filter_lem time f v s =
    let d = run_filter-Drained time f v in
    let sends = has_send-refill time f ∙ s in
    (
      sym (contents-refill time f) ∙ d.moved sends,
      d.paid sends ∙ credit-refill time f v,
      d.stopped,
      d.valid,
    )

-- The filter run at each of a list of times.
pub run_times : List ℕ → Tbf → Tbf × List Sent
run_times [] f = (f, [])
run_times (t ∷ ts) f =
    let (g, out) = run_filter t f in let (h, more) = run_times ts g in (h, out ++ more)

drain_stops : (fuel : ℕ) (f : Tbf) → IsValid f → f.credit < head_size f → drain fuel f ≡ (f, [])
unfolding drain
drain_stops zero f v h = refl
drain_stops (suc fuel) f v h =
    let stop : ltb 0 f.queued && leb (head_size f) f.credit ≡ false = ground arith in
    rw (loop_test f v, stop)

refill_keeps :
    (time : ℕ) (f : Tbf)
    → (head_size (refill time f) ≡ head_size f)
      × ((refill time f).max_credit ≡ f.max_credit)
      × ((refill time f).queued ≡ f.queued)
unfolding refill
refill_keeps time f = (refl, refl, refl)

stuck_once :
    (time : ℕ) (f : Tbf)
    → IsValid f
    → f.max_credit < head_size f
    → run_filter time f ≡ (refill time f, [])
unfolding run_filter
stuck_once time f v big =
    let v' = refill-IsValid time f v in
    let (e, m, q) = refill_keeps time f in
    drain_stops (refill time f).queued (refill time f) v' (omega (arith, v'.bounded))

-- A packet larger than the burst size blocks its filter for good: whatever the times at which the
-- queue is run, nothing is sent and the queue stays as it was.
pub run_times_blocked :
    (ts : List ℕ) (f : Tbf)
    → IsValid f
    → f.max_credit < head_size f
    → ((run_times ts f).1 ≡ []) × (contents (run_times ts f).0 ≡ contents f)
unfolding run_times
run_times_blocked [] f v big = (refl, refl)
run_times_blocked (t ∷ ts) f v big =
    let (e, m, q) = refill_keeps t f in
    let rest = run_times_blocked ts (refill t f) (refill-IsValid t f v) (omega (arith, e, m)) in
    rw (stuck_once t f v big) (rest.0, rest.1 ∙ contents-refill t f)
