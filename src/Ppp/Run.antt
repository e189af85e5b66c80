-- ===== src/Ppp/Run.antt =====
-- Runs of the LCP automaton.
use mathlib.Core.Path.{subst}
use l2tpns.Prelude.{
  pick, ℕ, ◌≡◌, ◌≢◌, refl, List, [], ◌∷◌, Option, none, some, true, false, not, ◌&&◌, leb, ◌==◌,
  if◌then◌else◌,
}
use l2tpns.Ppp.{
  State, request_sent, ack_received, opened, Settings, config_req, config_ack, config_nak,
  terminate_req, Act, got, Link, shut_down, receives,
}
use l2tpns.Ppp.Lcp.{
  Event, acked, requested, refused, terminated, timed_out, ack_in, req_in, nak_in, terminate_in,
  timeout_in, process_ack, process_nak, lcp_timeout, lcp_event, start_lcp,
}
use l2tpns.Ppp.Opening.{is_req, ours_acked, theirs_acked, Owes, Grounded, move_on, ack_in-Grounded}
use l2tpns.Ppp.Steps.{req_in-Grounded, nak_in-Grounded, terminate_in-Grounded, timeout_in-Grounded}

-- An answer is no request, and a refusal comes in no state in which it leaves the automaton behind.
abbrev pub Safe : Event → State → Type 0
Safe (acked has_ip authtype) x = Unit {0}
Safe (requested answer) x = is_req answer ≡ false
Safe (refused authtype) x = (x ≢ ack_received) × (x ≢ opened)
Safe terminated x = Unit {0}
Safe timed_out x = Unit {0}

process_nak-Grounded :
    (c : Settings) (authtype : Option ℕ) (s : Link) (line : List Act)
    → s.lcp.state ≢ ack_received
    → s.lcp.state ≢ opened
    → s.line ≡ got config_nak ∷ line
    → Owes s.lcp.state line s.lcp
    → Grounded (process_nak c authtype s)
unfolding process_nak shut_down
process_nak-Grounded c none s line a b l o = nak_in-Grounded c s.lcp.state s line a b refl l o
process_nak-Grounded c (some authtype) s line a b l o =
    let t : Link = record s { lcp_authtype = authtype } in
    pick Grounded (authtype == 0) (shut_down s) (nak_in s.lcp.state c t) refl
      (nak_in-Grounded c s.lcp.state t line a b refl l o)

lcp_event-Grounded :
    (c : Settings) (s : Link) (e : Event)
    → Safe e s.lcp.state
    → Grounded s
    → Grounded (lcp_event c s e)
unfolding lcp_event process_ack lcp_timeout
lcp_event-Grounded c s (acked has_ip authtype) safe g =
    let a = if not has_ip && not (authtype == 0) then authtype else s.lcp_authtype in
    let t : Link = record s { lcp_authtype = a; line = got config_ack ∷ s.line } in
    pick Grounded s.die s (ack_in s.lcp.state c t) g
      (ack_in-Grounded c s.lcp.state t s.line refl refl g)
lcp_event-Grounded c s (requested m) safe g =
    let t = receives s config_req in
    pick Grounded s.die s (req_in s.lcp.state c m t) g
      (req_in-Grounded c s.lcp.state m t s.line safe refl refl g)
lcp_event-Grounded c s (refused authtype) (a, b) g =
    let t = receives s config_nak in
    pick Grounded s.die s (process_nak c authtype t) g
      (process_nak-Grounded c authtype t s.line a b refl g)
lcp_event-Grounded c s terminated safe g =
    let t = receives s terminate_req in
    pick Grounded s.die s (terminate_in s.lcp.state c t) g
      (terminate_in-Grounded c s.lcp.state t s.line refl refl g)
lcp_event-Grounded c s timed_out safe g = pick Grounded s.die s (lcp_timeout c s) g (
    pick Grounded (leb s.lcp.restart c.time_now) (timeout_in s.lcp.state c s) s
      (timeout_in-Grounded c s.lcp.state s refl g) g)

-- One event after the other, each at its time.
abbrev pub run : List (Settings × Event) → Link → Link
run [] s = s
run ((c, e) ∷ events) s = run events (lcp_event c s e)

abbrev pub AllSafe : List (Settings × Event) → Link → Type 0
AllSafe [] s = Unit {0}
AllSafe ((c, e) ∷ events) s = Safe e s.lcp.state × AllSafe events (lcp_event c s e)

run-Grounded :
    (events : List (Settings × Event)) (s : Link)
    → AllSafe events s
    → Grounded s
    → Grounded (run events s)
run-Grounded [] s safe g = g
run-Grounded ((c, e) ∷ events) s (here, safe) g =
    run-Grounded events (lcp_event c s e) safe (lcp_event-Grounded c s e here g)

-- LCP that is started and comes to Opened, through whatever messages and timeouts, but no ConfigNak
-- or ConfigRej in the states AckReceived and Opened: the peer has acknowledged since our last
-- ConfigReq, we have acknowledged since the peer's last, and the restart timer is off.
pub run-Opened :
    (c : Settings) (radius_authprefer : ℕ) (s : Link) (events : List (Settings × Event))
    → AllSafe events (start_lcp c radius_authprefer s)
    → let t = run events (start_lcp c radius_authprefer s) in
      t.lcp.state ≡ opened
      → (ours_acked t.line ≡ true) × (theirs_acked t.line ≡ true) × (t.lcp.restart ≡ 0)
unfolding start_lcp
run-Opened c radius_authprefer s events safe up =
    let t = run events (start_lcp c radius_authprefer s) in
    subst (λ x. Owes x t.line t.lcp) up
      (run-Grounded events (start_lcp c radius_authprefer s) safe (move_on _ _ request_sent tt))
