-- ===== src/Tbf.antt =====
-- tbf.c and tbf.h: token bucket filters, the table of them and the timer chain.
-- The table is a function from indices; the theorems say which indices are touched. Calls of
-- `send` are kept in order in `sent`. A packet slot holds the bytes last copied into it.
pub mod Ops
pub mod Filter
pub mod Rate
pub mod Links
pub mod Packets
pub mod Alloc
pub mod Walk
mod Tests
pub mod Chain
pub mod Timer
pub mod Unlink
use l2tpns.Prelude.{
  ℕ, zero, suc, ◌+◌, ◌-◌, ◌/◌, ◌%◌, ◌≡◌, List, [], ◌∷◌, ◌++◌, Option, none, some, Bool, true, false,
  not, ◌&&◌, ◌||◌, ltb, leb, ◌==◌, if◌then◌else◌, get_or, set, replicate, take, add32, sub32, mul32,
  lt_int, le_int,
}

abbrev pub max_queue : ℕ
max_queue = 2

abbrev pub max_size : ℕ
max_size = 3000

-- `tbft`; `has_send` says whether the pointer `send` is set.
pub record Tbf : Type 0 where
  pub credit : ℕ
  pub lasttime : ℕ
  pub queued : ℕ
  pub oldest : ℕ
  pub sid : ℕ
  pub max_credit : ℕ
  pub rate : ℕ
  pub has_send : Bool
  pub prev : ℕ
  pub next : ℕ
  pub b_queued : ℕ
  pub b_sent : ℕ
  pub p_queued : ℕ
  pub p_sent : ℕ
  pub b_dropped : ℕ
  pub p_dropped : ℕ
  pub p_delayed : ℕ
  pub sizes : List ℕ
  pub packets : List (List ℕ)

-- One call `send(sid, data, size)`.
pub record Sent : Type 0 where
  pub to : ℕ
  pub bytes : List ℕ
  pub size : ℕ

-- The globals of tbf.c, with `TIME` and what was sent. `timer_chain` is `none` for -1; `cursor` is
-- the static `p` of new_tbf.
pub record Tbfs : Type 0 where
  pub allocated : Bool
  pub filters : ℕ → Tbf
  pub size : ℕ
  pub timer_chain : Option ℕ
  pub cursor : ℕ
  pub time : ℕ
  pub sent : List Sent

abbrev pub put : (ℕ → Tbf) → ℕ → Tbf → ℕ → Tbf
put filters i f j = if j == i then f else filters j

abbrev pub set_next : (ℕ → Tbf) → ℕ → ℕ → ℕ → Tbf
set_next filters i n = put filters i (record (filters i) { next = n })

abbrev pub set_prev : (ℕ → Tbf) → ℕ → ℕ → ℕ → Tbf
set_prev filters i n = put filters i (record (filters i) { prev = n })

-- add_to_timer: the four writes in the source's order.
pub link_last : (ℕ → Tbf) → ℕ → ℕ → ℕ → Tbf
link_last t head id =
    let t1 = set_next t id head in
    let t2 = set_prev t1 id (t1 head).prev in
    let t3 = set_next t2 (t2 head).prev id in set_prev t3 head id

unfoldable pub add_to_timer : Tbfs → ℕ → Tbfs
unfolding link_last
add_to_timer s id =
    if s.allocated
    then elim s.timer_chain [
      | none ↦ record s {
        filters = set_prev (set_next s.filters id id) id id;
        timer_chain = some id;
      }
      | some head ↦ record s { filters = link_last s.filters head id }
    ]
    else s

-- `timer_chain == id`
abbrev pub points_to : Option ℕ → ℕ → Bool
points_to none id = false
points_to (some head) id = head == id

abbrev pub mark_off : (ℕ → Tbf) → ℕ → ℕ → Tbf
mark_off t id = set_prev (set_next t id 0) id 0

-- del_from_timer where the filter is not the last of its chain: both neighbours are joined.
pub unlink : (ℕ → Tbf) → ℕ → ℕ → Tbf
unlink t id = let t1 = set_prev t (t id).next (t id).prev in set_next t1 (t1 id).prev (t1 id).next

unfoldable pub del_from_timer : Tbfs → ℕ → Tbfs
unfolding unlink
del_from_timer s id =
    let f = s.filters id in
    let single = record s {
      filters = mark_off s.filters id;
      timer_chain = if points_to s.timer_chain id then none else s.timer_chain;
    } in
    let t = unlink s.filters id in
    let inner = record s {
      filters = mark_off t id;
      timer_chain = if points_to s.timer_chain id then some (t id).next else s.timer_chain;
    } in
    if s.allocated then if f.next == id then single else inner else s

-- free_tbf; the `Bool` is false for the value -1. A negative argument is not modelled.
unfoldable pub free_tbf : Tbfs → ℕ → Tbfs × Bool
unfolding del_from_timer
free_tbf s tid =
    let off = if (s.filters tid).next == 0 then s else del_from_timer s tid in
    if tid == 0 || not s.allocated
    then (s, false)
    else (record off { filters = put off.filters tid (record (off.filters tid) { sid = 0 }) }, true)

-- The cleared structure that new_tbf fills in.
abbrev pub fresh_filter : ℕ → ℕ → ℕ → Bool → Tbf
fresh_filter sid max_credit rate send = record {
  credit = max_credit;
  lasttime = 0;
  queued = 0;
  oldest = 0;
  sid = sid;
  max_credit = max_credit;
  rate = rate;
  has_send = send;
  prev = 0;
  next = 0;
  b_queued = 0;
  b_sent = 0;
  p_queued = 0;
  p_sent = 0;
  b_dropped = 0;
  p_dropped = 0;
  p_delayed = 0;
  sizes = replicate max_queue 0;
  packets = replicate max_queue [];
}

-- The loop of new_tbf: the first filter from the cursor on with `sid` 0, and the cursor left.
unfoldable pub find_free : ℕ → (ℕ → Tbf) → ℕ → ℕ → Option ℕ × ℕ
find_free zero t size p = (none, p)
find_free (suc left) t size p =
    let rest = find_free left t size ((p + 1) % size) in
    if (t p).sid == 0 then (some p, p) else rest

abbrev pub place_filter : Tbfs → Tbf → Option ℕ × ℕ → Tbfs × ℕ
place_filter s f (none, p) = (record s { cursor = p }, 0)
place_filter s f (some i, p) = (record s { filters = put s.filters i f; cursor = p }, i)

unfoldable pub new_tbf : Tbfs → ℕ → ℕ → ℕ → Bool → Tbfs × ℕ
unfolding find_free
new_tbf s sid max_credit rate send =
    let found = find_free s.size s.filters s.size s.cursor in
    if s.allocated then place_filter s (fresh_filter sid max_credit rate send) found else (s, 0)

-- tbf_run_queue: the credit up to `time`.
pub refill : ℕ → Tbf → Tbf
refill time f =
    let credit = add32 f.credit (mul32 (sub32 time f.lasttime) f.rate / 10) in
    record f {
      credit = if lt_int f.max_credit credit then f.max_credit else credit;
      lasttime = time;
    }

-- A packet handed to `send`, or dropped if there is no such function.
unfoldable pub hand_out : Tbf → List ℕ → ℕ → Tbf × List Sent
hand_out f bytes size =
    if f.has_send
    then (
      record f { b_sent = add32 f.b_sent size; p_sent = add32 f.p_sent 1 },
      record { to = f.sid; bytes = bytes; size = size } ∷ [],
    )
    else (record f { b_dropped = add32 f.b_dropped size; p_dropped = add32 f.p_dropped 1 }, [])

-- One round of the loop of tbf_run_queue.
pub send_oldest : Tbf → Tbf × List Sent
unfolding hand_out
send_oldest f =
    let size = get_or f.sizes f.oldest 0 in
    let (g, out) = hand_out f (get_or f.packets f.oldest []) size in
    (
      record g {
        credit = sub32 g.credit size;
        oldest = (g.oldest + 1) % max_queue;
        queued = g.queued - 1;
      },
      out,
    )

-- `while (f->queued > 0 && f->credit >= f->sizes[f->oldest])`, at most `fuel` times.
pub drain : ℕ → Tbf → Tbf × List Sent
drain zero f = (f, [])
drain (suc fuel) f =
    let (g, out) = send_oldest f in
    let (h, more) = drain fuel g in
    if ltb 0 f.queued && le_int (get_or f.sizes f.oldest 0) f.credit
    then (h, out ++ more)
    else (f, [])

-- tbf_run_queue up to the timer chain; each round takes a packet off the queue.
unfoldable pub run_filter : ℕ → Tbf → Tbf × List Sent
unfolding refill drain send_oldest
run_filter time f = let g = refill time f in drain g.queued g

unfoldable pub tbf_run_queue : Tbfs → ℕ → Tbfs
unfolding run_filter del_from_timer
tbf_run_queue s id =
    let (f, out) = run_filter s.time (s.filters id) in
    let s1 = record s { filters = put s.filters id f; sent = s.sent ++ out } in
    if s.allocated then if ltb 0 f.queued || f.next == 0 then s1 else del_from_timer s1 id else s
