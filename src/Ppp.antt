-- ===== src/Ppp.antt =====
-- The option negotiation of PPP in ppp.c, l2tpns.h and l2tpns.c: the automata of LCP, IPCP, IPV6CP
-- and CCP with their restart timers, how processlcp drives that of LCP, and (Options) what it
-- answers to the options of a ConfigReq. The handlers here start behind the loops over the options,
-- whose outcome is their argument. Of sessionshutdown only what it does to the automata is here,
-- and of ipcp_open not the RADIUS record.
pub mod Lcp
pub mod Options
pub mod Judged
pub mod Listed
pub mod Stored
pub mod Request
pub mod Refused
mod OptionTests
pub mod Timer
pub mod Opening
pub mod Steps
pub mod Run
mod Tests
use l2tpns.Prelude.{
  ℕ, zero, suc, ◌+◌, List, [], ◌∷◌, Option, none, some, Bool, true, false, not, ◌&&◌, ◌||◌, ltb,
  leb, ◌==◌, if◌then◌else◌,
}

-- "PPP states"; Dead, which lcp_restart sets, is the number of Initial.
pub data State : Type 0 where
  initial starting closed stopped closing stopping request_sent ack_received ack_sent opened : State

unfoldable pub State-discrete : Discrete State
State-discrete = hlevel

-- "PPP phases"
pub data Phase : Type 0 where
  dead establish authenticate network terminate : Phase

-- An automaton with its "PPP restart timer/counters".
pub record Automaton : Type 0 where
  pub state : State
  pub restart : ℕ
  pub conf_sent : ℕ
  pub nak_sent : ℕ

-- The states in which change_state stops the timer.
abbrev pub stops : State → Bool
stops initial = true
stops starting = true
stops closed = true
stops stopped = true
stops closing = false
stops stopping = false
stops request_sent = false
stops ack_received = false
stops ack_sent = false
stops opened = true

abbrev pub initialise_restart_count : Automaton → Automaton
initialise_restart_count a = record a { conf_sent = 0; nak_sent = 0 }

abbrev pub moved : Automaton → State → Automaton
moved a new =
    if stops new
    then record a { state = new; restart = 0; conf_sent = 0; nak_sent = 0 }
    else record a { state = new }

abbrev pub on_same : {A B : Type 0} → Dec A → B → B → B
on_same (yes same) old new = old
on_same (no other) old new = new

unfoldable pub change_state : Automaton → State → Automaton
unfolding State-discrete
change_state a new = on_same (State-discrete a.state new) a (moved a new)

-- What the automata read of `config` and of the session; `in_bundle` says that it has a bundle with
-- more or fewer links than one, and `has_ipv6` that there is an IPv6 prefix.
pub record Settings : Type 0 where
  pub ppp_max_configure : ℕ
  pub ppp_restart_time : ℕ
  pub time_now : ℕ
  pub in_bundle : Bool
  pub has_ipv6 : Bool

abbrev pub zero_restart_count : Settings → Automaton → Automaton
zero_restart_count c a = record a {
  conf_sent = c.ppp_max_configure;
  restart = c.time_now + c.ppp_restart_time;
}

abbrev pub restart_timer : Settings → Automaton → Automaton
restart_timer c a = record a {
  conf_sent = a.conf_sent + 1;
  restart = c.time_now + c.ppp_restart_time;
}

-- The LCP messages, by their codes; `chap` is what sendchap sends.
pub data Message : Type 0 where
  config_req config_ack config_nak config_rej terminate_req terminate_ack chap : Message

-- What went over the line, for LCP.
pub data Act : Type 0 where
  got sent : Message → Act

-- The PPP part of a session, with the line's record, the latest first.
pub record Link : Type 0 where
  pub phase : Phase
  pub lcp : Automaton
  pub ipcp : Automaton
  pub ipv6cp : Automaton
  pub ccp : Automaton
  pub lcp_authtype : ℕ
  pub die : Bool
  pub line : List Act

abbrev pub sends : Link → Message → Link
sends s m = record s { line = sent m ∷ s.line }

abbrev pub receives : Link → Message → Link
receives s m = record s { line = got m ∷ s.line }

abbrev pub move_lcp : Link → State → Link
move_lcp s new = record s { lcp = change_state s.lcp new }

unfoldable pub sendlcp : Settings → Link → Link
sendlcp c s = sends (record s { lcp = restart_timer c s.lcp }) config_req

unfoldable pub ipcp_open : Settings → Link → Link
unfolding change_state
ipcp_open c s =
    let up = change_state s.ipcp opened in
    let six = change_state (restart_timer c s.ipv6cp) request_sent in
    record s { ipcp = up; ipv6cp = on_same (State-discrete s.ipv6cp.state stopped) six s.ipv6cp }

unfoldable pub lcp_open : Settings → Link → Link
unfolding ipcp_open
lcp_open c s =
    let up = move_lcp s opened in
    let auth = record up { phase = authenticate } in
    let net = record up { phase = network } in
    let first = record net {
      ipcp = change_state (restart_timer c net.ipcp) request_sent;
      ipv6cp = change_state net.ipv6cp (if c.has_ipv6 then stopped else closed);
      ccp = change_state net.ccp stopped;
    } in
    if not (s.lcp_authtype == 0)
    then if s.lcp_authtype == 2 then sends auth chap else auth
    else if c.in_bundle
    then ipcp_open c net
    else first

unfoldable pub lcp_restart : Link → Link
unfolding change_state
lcp_restart s = record s {
  phase = establish;
  ipcp = change_state s.ipcp initial;
  ipv6cp = change_state s.ipv6cp initial;
  ccp = change_state s.ccp initial;
}

abbrev pub off : Automaton → Automaton
off a = record a { state = initial; restart = 0 }

-- "clear PPP state" of sessionshutdown
unfoldable pub shut_down : Link → Link
shut_down s = record s {
  phase = dead;
  lcp = off s.lcp;
  ipcp = off s.ipcp;
  ipv6cp = off s.ipv6cp;
  ccp = off s.ccp;
  die = true;
}
