-- ===== src/Ppp/Opening.antt =====
-- What stands behind the states of LCP: who has acknowledged, and that no timer runs.
use mathlib.Core.Path.{subst}
use l2tpns.Prelude.{
  pick, ◌≡◌, ◌≢◌, ◌⊎◌, inl, inr, refl, sym, ap, ◌∙◌, List, [], ◌∷◌, Bool, true, false, not, ◌&&◌,
  ◌||◌, ◌==◌,
}
use l2tpns.Ppp.{
  State, initial, starting, closed, stopped, closing, stopping, request_sent, ack_received,
  ack_sent, opened, Automaton, Settings, Message, config_req, config_ack, config_nak, config_rej,
  terminate_req, terminate_ack, chap, Act, got, sent, Link, change_state, ipcp_open, lcp_open,
}
use l2tpns.Ppp.Lcp.{is_ack, ack_in}
use l2tpns.Ppp.Timer.{change_cases, change-state}

abbrev pub is_req : Message → Bool
is_req config_req = true
is_req config_ack = false
is_req config_nak = false
is_req config_rej = false
is_req terminate_req = false
is_req terminate_ack = false
is_req chap = false

-- The peer has acknowledged after our last ConfigReq.
abbrev pub ours_acked : List Act → Bool
ours_acked [] = false
ours_acked (got m ∷ line) = is_ack m || ours_acked line
ours_acked (sent m ∷ line) = not (is_req m) && ours_acked line

-- We have acknowledged after the peer's last ConfigReq.
abbrev pub theirs_acked : List Act → Bool
theirs_acked [] = false
theirs_acked (sent m ∷ line) = is_ack m || theirs_acked line
theirs_acked (got m ∷ line) = not (is_req m) && theirs_acked line

-- What each state of LCP stands for.
abbrev pub Owes : State → List Act → Automaton → Type 0
Owes initial line a = a.restart ≡ 0
Owes starting line a = a.restart ≡ 0
Owes closed line a = a.restart ≡ 0
Owes stopped line a = a.restart ≡ 0
Owes closing line a = Unit {0}
Owes stopping line a = Unit {0}
Owes request_sent line a = Unit {0}
Owes ack_received line a = ours_acked line ≡ true
Owes ack_sent line a = theirs_acked line ≡ true
Owes opened line a = (ours_acked line ≡ true) × (theirs_acked line ≡ true) × (a.restart ≡ 0)

abbrev pub Grounded : Link → Type 0
Grounded s = Owes s.lcp.state s.line s.lcp

pub at_state :
    (a : Automaton) (line : List Act) (x : State)
    → a.state ≡ x
    → Owes x line a
    → Owes a.state line a
at_state a line x e o = subst (λ y. Owes y line a) (sym e) o

-- Where an automaton moves to a state whose timer runs.
pub move_on :
    (a : Automaton) (line : List Act) (new : State)
    → Owes new line (change_state a new)
    → Owes (change_state a new).state line (change_state a new)
move_on a line new o = at_state (change_state a new) line new (change-state a new) o

opened-restart : (a : Automaton) → a.state ≢ opened → (change_state a opened).restart ≡ 0
opened-restart a ne =
    change_cases (λ b. b.restart ≡ 0) a opened (λ same. absurd (ne same)) (λ other. refl)

-- lcp_open from another state.
pub lcp_open_lem :
    (c : Settings) (s : Link)
    → s.lcp.state ≢ opened
    → let t = lcp_open c s in
      (t.lcp.state ≡ opened)
      × (t.lcp.restart ≡ 0)
      × (ours_acked t.line ≡ ours_acked s.line)
      × (theirs_acked t.line ≡ theirs_acked s.line)
unfolding lcp_open ipcp_open
lcp_open_lem c s ne =
    let P : Link → Type 0 = λ t.
      (t.lcp.state ≡ opened)
      × (t.lcp.restart ≡ 0)
      × (ours_acked t.line ≡ ours_acked s.line)
      × (theirs_acked t.line ≡ theirs_acked s.line) in
    let up = change-state s.lcp opened in
    let still = opened-restart s.lcp ne in
    pick P (not (s.lcp_authtype == 0)) _ _
      (pick P (s.lcp_authtype == 2) _ _ (up, still, refl, refl) (up, still, refl, refl))
      (pick P c.in_bundle _ _ (up, still, refl, refl) (up, still, refl, refl))

pub not_opened : (x : State) → x ≡ ack_received ⊎ x ≡ ack_sent → x ≢ opened
not_opened x (inl e) o = cc
not_opened x (inr e) o = cc

pub ack_in-Grounded :
    (c : Settings) (x : State) (s : Link) (line : List Act)
    → s.lcp.state ≡ x
    → s.line ≡ got config_ack ∷ line
    → Owes x line s.lcp
    → Grounded (ack_in x c s)
unfolding ack_in
ack_in-Grounded c initial s line e l o = at_state s.lcp s.line initial e o
ack_in-Grounded c starting s line e l o = at_state s.lcp s.line starting e o
ack_in-Grounded c closed s line e l o = at_state s.lcp s.line closed e o
ack_in-Grounded c stopped s line e l o = at_state s.lcp s.line stopped e o
ack_in-Grounded c closing s line e l o = at_state s.lcp s.line closing e o
ack_in-Grounded c stopping s line e l o = at_state s.lcp s.line stopping e o
ack_in-Grounded c request_sent s line e l o = move_on _ s.line ack_received (ap ours_acked l)
ack_in-Grounded c ack_received s line e l o = move_on _ _ request_sent tt
ack_in-Grounded c ack_sent s line e l o =
    let (up, still, ours, theirs) = lcp_open_lem c s (not_opened s.lcp.state (inr e)) in
    at_state (lcp_open c s).lcp (lcp_open c s).line opened up
      (ours ∙ ap ours_acked l, theirs ∙ ap theirs_acked l ∙ o, still)
ack_in-Grounded c opened s line e l o = move_on _ _ request_sent tt
