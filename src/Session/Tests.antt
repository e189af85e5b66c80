-- ===== src/Session/Tests.antt =====
-- Runs of the session counters and of the free list, and the theorem at a concrete packet.
use l2tpns.Prelude.{ℕ, ◌≡◌, refl, List, [], ◌∷◌, arith}
use l2tpns.Session.{
  Session, Bytes, Counter, no_session, increment_counter, done, aborts, overruns,
  cluster_handle_bytes,
}
use l2tpns.Session.Counters.{Sound, WordCounters, Counted, cluster_handle_bytes_lem}

abbrev nearly_full : Counter
nearly_full = record { count = 4294967290; wrap = 1; delta = 0 }

abbrev busy : ℕ → Session
busy i = record no_session { opened = 1; cin = nearly_full }

abbrev report : ℕ → ℕ → Bytes
report i n = record { sid = i; pin = 1; pout = 0; cin = n; cout = 0 }

abbrev packet : List Bytes
packet = report 3 10 ∷ report 4 1 ∷ report 3 5 ∷ []

wraps : increment_counter nearly_full 10 ≡ record { count = 4; wrap = 2; delta = 0 }
unfolding increment_counter
wraps = refl

aborts_early : (cluster_handle_bytes 60000 7 (report 60001 1 ∷ []) 0 busy).1 ≡ aborts
unfolding cluster_handle_bytes
aborts_early = refl

-- The number that is let through.
last_number : (cluster_handle_bytes 60000 7 (report 60000 1 ∷ []) 0 busy).1 ≡ overruns
unfolding cluster_handle_bytes
last_number = refl

busy-WordCounters : WordCounters (busy 3)
busy-WordCounters =
    ((omega arith, omega arith), (omega arith, omega arith), omega arith, omega arith)

packet-Sound : Sound 60000 packet
packet-Sound = (
  omega arith,
  omega arith,
  omega arith,
  (omega arith, omega arith, omega arith, (omega arith, omega arith, omega arith, tt)),
)

cluster_handle_bytes_lem_example :
    let (t', r) = cluster_handle_bytes 60000 7 packet 2 busy in
    (r ≡ done 2) × Counted 3 (busy 3) (t' 3) packet
cluster_handle_bytes_lem_example =
    cluster_handle_bytes_lem 60000 7 packet 2 busy 3 packet-Sound busy-WordCounters
