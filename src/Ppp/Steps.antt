-- ===== src/Ppp/Steps.antt =====
-- The steps of LCP, state by state.
use mathlib.Core.Path.{subst}
use l2tpns.Prelude.{
  pick, ◌≡◌, ◌≢◌, inl, inr, refl, sym, ap, ◌∙◌, List, ◌∷◌, true, false, ltb, if◌then◌else◌,
  Bool-cases,
}
use l2tpns.Ppp.{
  State, initial, starting, closed, stopped, closing, stopping, request_sent, ack_received,
  ack_sent, opened, Automaton, Settings, Message, config_req, config_nak, terminate_req, Act, got,
  sent, Link, change_state, sendlcp, lcp_open, lcp_restart, shut_down, move_lcp, sends,
  initialise_restart_count,
}
use l2tpns.Ppp.Lcp.{is_ack, after_request, req_in, nak_in, terminate_in, timeout_in}
use l2tpns.Ppp.Opening.{
  is_req, ours_acked, theirs_acked, Owes, Grounded, at_state, move_on, lcp_open_lem, not_opened,
}

-- The answer goes out behind everything else.
answered :
    (s : Link) (answer : Message) (a : Automaton)
    → s.lcp ≡ change_state a (if is_ack answer then ack_sent else request_sent)
    → Grounded (sends s answer)
answered s answer a e =
    let line = sent answer ∷ s.line in
    subst (λ b. Owes b.state line b) (sym e)
      (elim (Bool-cases (is_ack answer)) [
        | inl yes_ ↦
            subst (λ y. Owes (change_state a y).state line (change_state a y)) (to_ack yes_)
              (move_on a line ack_sent (either yes_))
        | inr no_ ↦
            subst (λ y. Owes (change_state a y).state line (change_state a y)) (to_req no_)
              (move_on a line request_sent tt)
      ])
  where
    to_ack : is_ack answer ≡ true → ack_sent ≡ (if is_ack answer then ack_sent else request_sent)
    to_ack e = rw e refl

    to_req :
        is_ack answer ≡ false → request_sent ≡ (if is_ack answer then ack_sent else request_sent)
    to_req e = rw e refl

    either : is_ack answer ≡ true → theirs_acked (sent answer ∷ s.line) ≡ true
    either e = rw e refl

-- The answer to a request in a state that may open.
opens :
    (c : Settings) (s : Link) (line : List Act) (answer : Message)
    → s.lcp.state ≡ ack_received
    → s.line ≡ got config_req ∷ line
    → ours_acked line ≡ true
    → is_req answer ≡ false
    → Grounded (sends (if is_ack answer then lcp_open c s else s) answer)
opens c s line answer e l o fair = elim (Bool-cases (is_ack answer)) [
  | inl yes_ ↦
      let (up, still, ours, theirs) = lcp_open_lem c s (not_opened s.lcp.state (inl e)) in
      let line' = (lcp_open c s).line in
      subst (λ r. Grounded (sends r answer)) (to_open yes_)
        (at_state (lcp_open c s).lcp (sent answer ∷ line') opened up
          (said line' (ours ∙ ap ours_acked l ∙ o), gave line' yes_, still))
  | inr no_ ↦
      subst (λ r. Grounded (sends r answer)) (to_same no_)
        (at_state s.lcp (sent answer ∷ s.line) ack_received e (said s.line (ap ours_acked l ∙ o)))
]
  where
    said : (line : List Act) → ours_acked line ≡ true → ours_acked (sent answer ∷ line) ≡ true
    said line h = rw (fair, h) refl

    gave : (line : List Act) → is_ack answer ≡ true → theirs_acked (sent answer ∷ line) ≡ true
    gave line e = rw e refl

    to_open : is_ack answer ≡ true → lcp_open c s ≡ (if is_ack answer then lcp_open c s else s)
    to_open e = rw e refl

    to_same : is_ack answer ≡ false → s ≡ (if is_ack answer then lcp_open c s else s)
    to_same e = rw e refl

may_ack :
    (s : Link) (answer : Message)
    → s.lcp.state ≡ request_sent
    → Grounded (sends (if is_ack answer then move_lcp s ack_sent else s) answer)
may_ack s answer e = elim (Bool-cases (is_ack answer)) [
  | inl yes_ ↦
      subst (λ r. Grounded (sends r answer)) (to_move yes_)
        (move_on s.lcp (sent answer ∷ s.line) ack_sent (gave yes_))
  | inr no_ ↦
      subst (λ r. Grounded (sends r answer)) (to_same no_)
        (at_state s.lcp (sent answer ∷ s.line) request_sent e tt)
]
  where
    gave : is_ack answer ≡ true → theirs_acked (sent answer ∷ s.line) ≡ true
    gave e = rw e refl

    to_move :
        is_ack answer ≡ true
        → move_lcp s ack_sent ≡ (if is_ack answer then move_lcp s ack_sent else s)
    to_move e = rw e refl

    to_same : is_ack answer ≡ false → s ≡ (if is_ack answer then move_lcp s ack_sent else s)
    to_same e = rw e refl

pub req_in-Grounded :
    (c : Settings) (x : State) (answer : Message) (s : Link) (line : List Act)
    → is_req answer ≡ false
    → s.lcp.state ≡ x
    → s.line ≡ got config_req ∷ line
    → Owes x line s.lcp
    → Grounded (req_in x c answer s)
unfolding req_in shut_down
req_in-Grounded c initial m s line fair e l o = at_state s.lcp _ initial e o
req_in-Grounded c starting m s line fair e l o = at_state s.lcp _ starting e o
req_in-Grounded c closed m s line fair e l o = at_state s.lcp _ closed e o
req_in-Grounded c stopped m s line fair e l o =
    let t = sendlcp c (record s { lcp = initialise_restart_count s.lcp }) in
    answered (after_request t m) m t.lcp refl
req_in-Grounded c closing m s line fair e l o = refl
req_in-Grounded c stopping m s line fair e l o = at_state s.lcp _ stopping e tt
req_in-Grounded c request_sent m s line fair e l o = may_ack s m e
req_in-Grounded c ack_received m s line fair e l o = opens c s line m e l o fair
req_in-Grounded c ack_sent m s line fair e l o = answered (after_request s m) m s.lcp refl
req_in-Grounded c opened m s line fair e l o =
    let t = sendlcp c (lcp_restart s) in answered (after_request t m) m t.lcp refl

-- A refusal, but for the two states in which it leaves the automaton where it is.
pub nak_in-Grounded :
    (c : Settings) (x : State) (s : Link) (line : List Act)
    → x ≢ ack_received
    → x ≢ opened
    → s.lcp.state ≡ x
    → s.line ≡ got config_nak ∷ line
    → Owes x line s.lcp
    → Grounded (nak_in x c s)
unfolding nak_in sendlcp
nak_in-Grounded c initial s line a b e l o = at_state s.lcp _ initial e o
nak_in-Grounded c starting s line a b e l o = at_state s.lcp _ starting e o
nak_in-Grounded c closed s line a b e l o = at_state s.lcp _ closed e o
nak_in-Grounded c stopped s line a b e l o = at_state s.lcp _ stopped e o
nak_in-Grounded c closing s line a b e l o = at_state s.lcp _ closing e tt
nak_in-Grounded c stopping s line a b e l o = at_state s.lcp _ stopping e tt
nak_in-Grounded c request_sent s line a b e l o = at_state _ _ request_sent e tt
nak_in-Grounded c ack_received s line a b e l o = absurd (a refl)
nak_in-Grounded c ack_sent s line a b e l o = at_state _ _ ack_sent e (ap theirs_acked l ∙ o)
nak_in-Grounded c opened s line a b e l o = absurd (b refl)

pub terminate_in-Grounded :
    (c : Settings) (x : State) (s : Link) (line : List Act)
    → s.lcp.state ≡ x
    → s.line ≡ got terminate_req ∷ line
    → Owes x line s.lcp
    → Grounded (terminate_in x c s)
unfolding terminate_in
terminate_in-Grounded c initial s line e l o = at_state s.lcp _ initial e o
terminate_in-Grounded c starting s line e l o = at_state s.lcp _ starting e o
terminate_in-Grounded c closed s line e l o = at_state s.lcp _ closed e o
terminate_in-Grounded c stopped s line e l o = at_state s.lcp _ stopped e o
terminate_in-Grounded c closing s line e l o = at_state s.lcp _ closing e tt
terminate_in-Grounded c stopping s line e l o = at_state s.lcp _ stopping e tt
terminate_in-Grounded c request_sent s line e l o = at_state s.lcp _ request_sent e tt
terminate_in-Grounded c ack_received s line e l o =
    at_state s.lcp _ ack_received e (ap ours_acked l ∙ o)
terminate_in-Grounded c ack_sent s line e l o = at_state s.lcp _ ack_sent e (ap theirs_acked l ∙ o)
terminate_in-Grounded c opened s line e l o = move_on _ _ closing tt

pub timeout_in-Grounded :
    (c : Settings) (x : State) (s : Link)
    → s.lcp.state ≡ x
    → Owes x s.line s.lcp
    → Grounded (timeout_in x c s)
unfolding timeout_in sendlcp shut_down
timeout_in-Grounded c initial s e o = at_state s.lcp _ initial e o
timeout_in-Grounded c starting s e o = at_state s.lcp _ starting e o
timeout_in-Grounded c closed s e o = at_state s.lcp _ closed e o
timeout_in-Grounded c stopped s e o = at_state s.lcp _ stopped e o
timeout_in-Grounded c closing s e o = at_state s.lcp _ closing e tt
timeout_in-Grounded c stopping s e o = at_state s.lcp _ stopping e tt
timeout_in-Grounded c request_sent s e o =
    pick Grounded (ltb s.lcp.conf_sent c.ppp_max_configure) _ _ (move_on _ _ request_sent tt) refl
timeout_in-Grounded c ack_received s e o =
    pick Grounded (ltb s.lcp.conf_sent c.ppp_max_configure) _ _ (move_on _ _ request_sent tt) refl
timeout_in-Grounded c ack_sent s e o =
    pick Grounded (ltb s.lcp.conf_sent c.ppp_max_configure) _ _ (move_on _ _ ack_sent o) refl
timeout_in-Grounded c opened s e o = at_state s.lcp _ opened e o
