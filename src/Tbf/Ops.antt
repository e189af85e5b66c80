-- ===== src/Tbf/Ops.antt =====
-- tbf.c: the calls that queue a packet and walk the timer chain.
use l2tpns.Prelude.{
  ℕ, zero, suc, ◌+◌, ◌%◌, ◌++◌, Option, none, some, Bool, false, not, ◌&&◌, ◌||◌, ltb, leb, ◌==◌,
  if◌then◌else◌, set, take, add32, sub32, lt_int, List,
}
use l2tpns.Tbf.{Tbf, Tbfs, put, max_queue, max_size, add_to_timer, hand_out, tbf_run_queue}

-- The filter after `b_queued += size; p_queued++`.
abbrev pub count_queued : Tbf → ℕ → Tbf
count_queued f size = record f { b_queued = add32 f.b_queued size; p_queued = add32 f.p_queued 1 }

abbrev pub count_dropped : Tbf → ℕ → Tbf
count_dropped f size = record f {
  b_dropped = add32 f.b_dropped size;
  p_dropped = add32 f.p_dropped 1;
}

abbrev pub enqueue : Tbf → List ℕ → ℕ → Tbf
enqueue f bytes size =
    let i = (f.oldest + f.queued) % max_queue in
    record f {
      packets = set f.packets i (take size bytes);
      sizes = set f.sizes i size;
      queued = f.queued + 1;
      p_delayed = add32 f.p_delayed 1;
    }

-- What tbf_queue_packet decides for a filter whose queue has just been run: send, drop or queue.
pub data Verdict : Type 0 where
  sends drops queues : Verdict

unfoldable pub judge : Tbf → ℕ → Verdict
judge f size =
    if f.queued == 0 && lt_int size f.credit
    then sends
    else if leb max_queue f.queued || leb max_size size
    then drops
    else queues

-- The three ends of tbf_queue_packet; `none` is the value -1.
unfoldable pub finish : Tbfs → ℕ → Tbf → List ℕ → ℕ → Verdict → Tbfs × Option ℕ
unfolding hand_out add_to_timer
finish s id f bytes size sends =
    let (g, out) = hand_out (record f { credit = sub32 f.credit size }) (take size bytes) size in
    (record s { filters = put s.filters id g; sent = s.sent ++ out }, some size)
finish s id f bytes size drops =
    (record s { filters = put s.filters id (count_dropped f size) }, none)
finish s id f bytes size queues =
    let s1 = record s { filters = put s.filters id (enqueue f bytes size) } in
    (if f.next == 0 then add_to_timer s1 id else s1, some 0)

unfoldable pub tbf_queue_packet : Tbfs → ℕ → List ℕ → ℕ → Tbfs × Option ℕ
unfolding tbf_run_queue judge finish
tbf_queue_packet s id bytes size =
    let s1 = tbf_run_queue s id in
    let f = count_queued (s1.filters id) size in
    if not s.allocated || ltb s.size id || ltb id 1 || (s.filters id).sid == 0
    then (s, none)
    else finish s1 id f bytes size (judge f size)

-- `timer_chain > 0`
abbrev pub on_chain : Option ℕ → Bool
on_chain none = false
on_chain (some head) = ltb 0 head

-- The do-while loop of tbf_run_timer, with `count` rounds left.
unfoldable pub timer_loop : ℕ → Tbfs → ℕ → ℕ → Tbfs
timer_loop zero s i last = s
timer_loop (suc count) s i last =
    let next = (s.filters i).next in
    let s1 = tbf_run_queue s i in
    let rest = timer_loop count s1 next last in
    if on_chain s1.timer_chain && not (next == 0) && not (i == last) && ltb 0 count
    then rest
    else s1

-- tbf_run_timer for a value of `timer_chain`.
unfoldable pub walk_from : Option ℕ → Tbfs → Tbfs
walk_from none s = s
walk_from (some head) s =
    if s.allocated then timer_loop (s.size + 1) s head (s.filters head).prev else s

unfoldable pub tbf_run_timer : Tbfs → Tbfs
unfolding walk_from
tbf_run_timer s = walk_from s.timer_chain s
