-- ===== src/Ppp/Tests.antt =====
-- Runs of LCP, and the theorems at concrete events.
use l2tpns.Prelude.{◌≡◌, inl, refl, List, [], ◌∷◌, none, true, false, arith}
use l2tpns.Ppp.{
  initial, starting, opened, establish, Automaton, Settings, config_ack, Link, lcp_open,
  lcp_restart,
}
use l2tpns.Ppp.Lcp.{
  Event, acked, requested, refused, start_lcp, ack_in, req_in, nak_in, process_ack, process_nak,
  lcp_event,
}
use l2tpns.Ppp.Timer.{timeouts, timeouts_die}
use l2tpns.Ppp.Opening.{ours_acked, theirs_acked}
use l2tpns.Ppp.Run.{run, run-Opened}

abbrev idle : Automaton
idle = record { state = initial; restart = 0; conf_sent = 0; nak_sent = 0 }

abbrev link : Link
link = record {
  phase = establish;
  lcp = record idle { state = starting };
  ipcp = idle;
  ipv6cp = idle;
  ccp = idle;
  lcp_authtype = 0;
  die = false;
  line = [];
}

abbrev settings : Settings
settings = record {
  ppp_max_configure = 2;
  ppp_restart_time = 3;
  time_now = 50;
  in_bundle = false;
  has_ipv6 = true;
}

-- The peer's request is acknowledged, and then ours.
abbrev exchange : List (Settings × Event)
exchange = (settings, requested config_ack) ∷ (settings, acked true 0) ∷ []

run-Opened_example :
    let t = run exchange (start_lcp settings 0 link) in
    (ours_acked t.line ≡ true) × (theirs_acked t.line ≡ true) × (t.lcp.restart ≡ 0)
unfolding start_lcp lcp_event req_in process_ack ack_in lcp_open
run-Opened_example = run-Opened settings 0 link exchange (refl, (tt, tt)) refl

timeouts_die_example : (timeouts settings (0 ∷ 4 ∷ []) (start_lcp settings 0 link)).die ≡ true
unfolding start_lcp
timeouts_die_example =
    timeouts_die settings (0 ∷ 4 ∷ []) (start_lcp settings 0 link) (inl refl) (omega arith)
      (omega arith)

-- A ConfigNak to an open link: LCP asks again and starts its timer, and stays in the state Opened.
abbrev nakked : Link
nakked = run ((settings, refused none) ∷ []) (run exchange (start_lcp settings 0 link))

stays_open : nakked.lcp.state ≡ opened
unfolding start_lcp lcp_event req_in process_ack ack_in lcp_open process_nak nak_in lcp_restart
stays_open = refl

timer_runs : nakked.lcp.restart ≡ 53
unfolding start_lcp lcp_event req_in process_ack ack_in lcp_open process_nak nak_in lcp_restart
timer_runs = refl
