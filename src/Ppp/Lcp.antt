-- ===== src/Ppp/Lcp.antt =====
-- processlcp of ppp.c behind its loops over the options, the LCP timeout of l2tpns.c, and the start
-- of LCP.
use l2tpns.Prelude.{
  ℕ, Option, none, some, Bool, true, false, not, ◌&&◌, ltb, leb, ◌==◌, if◌then◌else◌,
}
use l2tpns.Ppp.{
  Link, Message, Settings, State, ack_received, ack_sent, change_state, chap, closed, closing,
  config_ack, config_nak, config_rej, config_req, initial, initialise_restart_count, lcp_open,
  lcp_restart, move_lcp, opened, receives, request_sent, sendlcp, sends, shut_down, starting,
  stopped, stopping, terminate_ack, terminate_req, zero_restart_count,
}

unfoldable pub ack_in : State → Settings → Link → Link
unfolding sendlcp lcp_open lcp_restart
ack_in initial c s = s
ack_in starting c s = s
ack_in closed c s = s
ack_in stopped c s = s
ack_in closing c s = s
ack_in stopping c s = s
ack_in request_sent c s = move_lcp (record s { lcp = initialise_restart_count s.lcp }) ack_received
ack_in ack_received c s = move_lcp (sendlcp c s) request_sent
ack_in ack_sent c s = lcp_open c s
ack_in opened c s = move_lcp (sendlcp c (lcp_restart s)) request_sent

-- ConfigAck, with the authentication that the options name, or 0; `has_ip` is the test of `ip`.
unfoldable pub process_ack : Settings → Bool → ℕ → Link → Link
unfolding ack_in
process_ack c has_ip authtype s =
    let a = if not has_ip && not (authtype == 0) then authtype else s.lcp_authtype in
    ack_in s.lcp.state c (record s { lcp_authtype = a })

-- ConfigReq, with the answer that the options come to: config_ack, config_nak or config_rej.
abbrev pub is_ack : Message → Bool
is_ack config_req = false
is_ack config_ack = true
is_ack config_nak = false
is_ack config_rej = false
is_ack terminate_req = false
is_ack terminate_ack = false
is_ack chap = false

abbrev pub after_request : Link → Message → Link
after_request s answer = move_lcp s (if is_ack answer then ack_sent else request_sent)

unfoldable pub req_in : State → Settings → Message → Link → Link
unfolding sendlcp lcp_open lcp_restart shut_down
req_in initial c answer s = s
req_in starting c answer s = s
req_in closed c answer s = sends s terminate_ack
req_in stopped c answer s =
    sends (after_request (sendlcp c (record s { lcp = initialise_restart_count s.lcp })) answer)
      answer
req_in closing c answer s = sends (shut_down s) answer
req_in stopping c answer s = s
req_in request_sent c answer s = sends (if is_ack answer then move_lcp s ack_sent else s) answer
req_in ack_received c answer s = sends (if is_ack answer then lcp_open c s else s) answer
req_in ack_sent c answer s = sends (after_request s answer) answer
req_in opened c answer s = sends (after_request (sendlcp c (lcp_restart s)) answer) answer

unfoldable pub nak_in : State → Settings → Link → Link
unfolding sendlcp lcp_restart
nak_in initial c s = s
nak_in starting c s = s
nak_in closed c s = sends s terminate_ack
nak_in stopped c s = sends s terminate_ack
nak_in closing c s = s
nak_in stopping c s = s
nak_in request_sent c s = sendlcp c (record s { lcp = initialise_restart_count s.lcp })
nak_in ack_received c s = sendlcp c s
nak_in ack_sent c s = sendlcp c (record s { lcp = initialise_restart_count s.lcp })
nak_in opened c s = sendlcp c (lcp_restart s)

-- ConfigNak and ConfigRej, with `authtype` of the options, `none` for -1.
unfoldable pub process_nak : Settings → Option ℕ → Link → Link
unfolding nak_in shut_down
process_nak c none s = nak_in s.lcp.state c s
process_nak c (some authtype) s =
    if authtype == 0
    then shut_down s
    else nak_in s.lcp.state c (record s { lcp_authtype = authtype })

-- TerminateReq
unfoldable pub terminate_in : State → Settings → Link → Link
unfolding lcp_restart
terminate_in initial c s = s
terminate_in starting c s = s
terminate_in closed c s = sends s terminate_ack
terminate_in stopped c s = sends s terminate_ack
terminate_in closing c s = sends s terminate_ack
terminate_in stopping c s = sends s terminate_ack
terminate_in request_sent c s = sends s terminate_ack
terminate_in ack_received c s = sends s terminate_ack
terminate_in ack_sent c s = sends s terminate_ack
terminate_in opened c s =
    let down = lcp_restart s in
    sends (move_lcp (record down { lcp = zero_restart_count c down.lcp }) closing) terminate_ack

abbrev pub ask_or_die : Settings → State → Link → Link
ask_or_die c next s =
    if ltb s.lcp.conf_sent c.ppp_max_configure then move_lcp (sendlcp c s) next else shut_down s

-- The LCP timeout of regular_cleanups.
unfoldable pub timeout_in : State → Settings → Link → Link
unfolding sendlcp shut_down
timeout_in initial c s = s
timeout_in starting c s = s
timeout_in closed c s = s
timeout_in stopped c s = s
timeout_in closing c s = s
timeout_in stopping c s = s
timeout_in request_sent c s = ask_or_die c request_sent s
timeout_in ack_received c s = ask_or_die c request_sent s
timeout_in ack_sent c s = ask_or_die c ack_sent s
timeout_in opened c s = s

unfoldable pub lcp_timeout : Settings → Link → Link
unfolding timeout_in
lcp_timeout c s = if leb s.lcp.restart c.time_now then timeout_in s.lcp.state c s else s

-- "start LCP", when the call is connected; `radius_authprefer` is the setting.
unfoldable pub start_lcp : Settings → ℕ → Link → Link
unfolding sendlcp change_state
start_lcp c radius_authprefer s =
    move_lcp (sendlcp c (record s { lcp_authtype = radius_authprefer })) request_sent

-- What happens to a session that is not being closed.
pub data Event : Type 0 where
  acked : Bool → ℕ → Event
  requested : Message → Event
  refused : Option ℕ → Event
  terminated timed_out : Event

unfoldable pub lcp_event : Settings → Link → Event → Link
unfolding process_ack req_in process_nak terminate_in lcp_timeout
lcp_event c s (acked has_ip a) = if s.die then s else process_ack c has_ip a (receives s config_ack)
lcp_event c s (requested answer) =
    if s.die then s else req_in s.lcp.state c answer (receives s config_req)
lcp_event c s (refused a) = if s.die then s else process_nak c a (receives s config_nak)
lcp_event c s terminated =
    if s.die then s else terminate_in s.lcp.state c (receives s terminate_req)
lcp_event c s timed_out = if s.die then s else lcp_timeout c s
