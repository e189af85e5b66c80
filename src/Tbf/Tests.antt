-- ===== src/Tbf/Tests.antt =====
-- Runs of the token bucket filters on small tables, and instances of their theorems.
use l2tpns.Prelude.{ℕ, zero, suc, ◌<◌, ◌≡◌, refl, [], ◌∷◌, none, true, false, arith, get_or}
use l2tpns.Tbf.{
  Tbf, Tbfs, fresh_filter, add_to_timer, del_from_timer, run_filter, new_tbf, max_size,
}
use l2tpns.Tbf.Filter.{IsValid, contents}
use l2tpns.Tbf.Rate.{run_times, run_times_blocked}
use l2tpns.Tbf.Timer.{IsChain, add_to_timer-IsChain}
use l2tpns.Tbf.Unlink.{del_from_timer-IsChain}
use l2tpns.Tbf.Ops.{tbf_queue_packet, tbf_run_timer}
use l2tpns.Tbf.Packets.{Served, accepted, tbf_queue_packet-Served}
use l2tpns.Tbf.Walk.{run_all, tbf_run_timer-run_all}

-- Two packets of 4 and 3 bytes wait; 5 bytes of credit, 40 bytes per second.
abbrev waiting : Tbf
waiting = record (fresh_filter 7 100 40 true) {
  credit = 5;
  queued = 2;
  oldest = 1;
  sizes = 3 ∷ 4 ∷ [];
  packets = (1 ∷ 2 ∷ 3 ∷ []) ∷ (9 ∷ 9 ∷ 9 ∷ 9 ∷ []) ∷ [];
}

waiting_small : (i : ℕ) → get_or waiting.sizes i 0 < max_size
waiting_small zero = omega arith
waiting_small (suc zero) = omega arith
waiting_small (suc (suc i)) = omega arith

waiting-IsValid : IsValid waiting
waiting-IsValid = record {
  slots = refl;
  buffers = refl;
  fits = omega arith;
  first = omega arith;
  small = waiting_small;
  bounded = omega arith;
  burst = omega arith;
}

-- Filter 0 is reserved, 1 waits and is not on the chain, 2 is unused.
abbrev table : ℕ → Tbf
table zero = fresh_filter 65535 0 0 false
table (suc zero) = waiting
table (suc (suc i)) = fresh_filter 0 0 0 false

abbrev idle_table : Tbfs
idle_table = record {
  allocated = true;
  filters = table;
  size = 4;
  timer_chain = none;
  cursor = 1;
  time = 0;
  sent = [];
}

idle_off : (i : ℕ) → (table i).next ≡ 0
idle_off zero = refl
idle_off (suc zero) = refl
idle_off (suc (suc i)) = refl

idle-IsChain : IsChain idle_table []
idle-IsChain = record {
  live = refl;
  ring = refl;
  distinct = tt;
  nonzero = tt;
  off = λ i _. idle_off i;
}

one-IsChain : IsChain (add_to_timer idle_table 1) (1 ∷ [])
one-IsChain = add_to_timer-IsChain idle_table [] 1 idle-IsChain tt (omega arith)

two-IsChain : IsChain (add_to_timer (add_to_timer idle_table 1) 2) (1 ∷ 2 ∷ [])
two-IsChain =
    add_to_timer-IsChain (add_to_timer idle_table 1) (1 ∷ []) 2 one-IsChain (omega arith, tt)
      (omega arith)

del_from_timer-IsChain_example :
    IsChain (del_from_timer (add_to_timer (add_to_timer idle_table 1) 2) 1) (2 ∷ [])
del_from_timer-IsChain_example =
    del_from_timer-IsChain (add_to_timer (add_to_timer idle_table 1) 2) [] 1 (2 ∷ []) two-IsChain

two_size : (add_to_timer (add_to_timer idle_table 1) 2).size ≡ 4
unfolding add_to_timer
two_size = refl

tbf_run_timer-run_all_example :
    tbf_run_timer (add_to_timer (add_to_timer idle_table 1) 2)
    ≡ run_all (add_to_timer (add_to_timer idle_table 1) 2) (1 ∷ 2 ∷ [])
tbf_run_timer-run_all_example =
    tbf_run_timer-run_all (add_to_timer (add_to_timer idle_table 1) 2) (1 ∷ 2 ∷ []) two-IsChain
      (omega (arith, two_size))

-- At time 0 the first packet goes, and the second waits for two bytes of credit.
run_filter_first_packet :
    (run_filter 0 waiting).1 ≡ record { to = 7; bytes = 9 ∷ 9 ∷ 9 ∷ 9 ∷ []; size = 4 } ∷ []
unfolding run_filter
run_filter_first_packet = refl

tbf_queue_packet-Served_example :
    let (s', reply) = tbf_queue_packet idle_table 1 (5 ∷ 6 ∷ []) 2 in
    Served idle_table s' 1 (contents waiting) (accepted reply (5 ∷ 6 ∷ []) 2)
tbf_queue_packet-Served_example =
    tbf_queue_packet-Served idle_table 1 (5 ∷ 6 ∷ []) 2 waiting-IsValid refl (omega arith)

-- The same filter throttled to 1 kbit/s, whose burst size is below the packet that waits.
abbrev narrow : Tbf
narrow = record waiting { credit = 0; max_credit = 3 }

narrow-IsValid : IsValid narrow
narrow-IsValid = record {
  slots = refl;
  buffers = refl;
  fits = omega arith;
  first = omega arith;
  small = waiting_small;
  bounded = omega arith;
  burst = omega arith;
}

run_times_blocked_example :
    ((run_times (10 ∷ 100 ∷ 1000 ∷ []) narrow).1 ≡ [])
    × (contents (run_times (10 ∷ 100 ∷ 1000 ∷ []) narrow).0 ≡ contents narrow)
run_times_blocked_example =
    run_times_blocked (10 ∷ 100 ∷ 1000 ∷ []) narrow narrow-IsValid (omega arith)

new_tbf_two : (new_tbf idle_table 3 20 10 true).1 ≡ 2
unfolding new_tbf
new_tbf_two = refl
