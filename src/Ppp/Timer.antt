-- ===== src/Ppp/Timer.antt =====
-- The restart timer of LCP: how long it asks.
use mathlib.Core.Path.{subst}
use l2tpns.Prelude.{
  if_true, if_false, ℕ, ◌+◌, ◌≤◌, ◌<◌, ◌≡◌, ◌≢◌, ◌⊎◌, inl, inr, refl, sym, ap, ◌∙◌, List, [], ◌∷◌,
  true, false, ltb, leb, length, arith, Bool-cases,
}
use l2tpns.Ppp.{
  State, State-discrete, stops, restart_timer, request_sent, ack_received, ack_sent, moved, on_same,
  Automaton, Settings, Link, change_state, sendlcp, shut_down,
}
use l2tpns.Ppp.Lcp.{ask_or_die, timeout_in, timed_out, lcp_timeout, lcp_event}

-- What holds of an automaton that is in the state and of one that moves there.
pub change_cases :
    (P : Automaton → Type 0) (a : Automaton) (new : State)
    → (a.state ≡ new → P a)
    → (a.state ≢ new → P (moved a new))
    → P (change_state a new)
unfolding change_state
change_cases P a new stays moves = either (State-discrete a.state new)
  where
    either : (d : Dec (a.state ≡ new)) → P (on_same d a (moved a new))
    either (yes same) = stays same
    either (no other) = moves other

pub moved-state : (a : Automaton) (new : State) → (moved a new).state ≡ new
moved-state a new = elim (Bool-cases (stops new)) [ inl e ↦ rw e refl | inr e ↦ rw e refl ]

pub change-state : (a : Automaton) (new : State) → (change_state a new).state ≡ new
change-state a new =
    change_cases (λ b. b.state ≡ new) a new (λ same. same) (λ other. moved-state a new)

pub change-conf_sent :
    (a : Automaton) (new : State) → stops new ≡ false → (change_state a new).conf_sent ≡ a.conf_sent
change-conf_sent a new runs =
    change_cases (λ b. b.conf_sent ≡ a.conf_sent) a new (λ same. refl) (λ other. rw runs refl)

-- The timer runs out once for each number of the list, that many seconds late.
abbrev pub timeouts : Settings → List ℕ → Link → Link
timeouts c [] s = s
timeouts c (d ∷ late) s =
    timeouts c late (lcp_event (record c { time_now = s.lcp.restart + d }) s timed_out)

abbrev pub Waits : State → Type 0
Waits x = (x ≡ request_sent) ⊎ (x ≡ ack_received) ⊎ (x ≡ ack_sent)

pub stays_dead :
    (c : Settings) (late : List ℕ) (s : Link) → s.die ≡ true → (timeouts c late s).die ≡ true
unfolding lcp_event
stays_dead c [] s h = h
stays_dead c (d ∷ late) s h =
    let c' = record c { time_now = s.lcp.restart + d } in
    stays_dead c late (lcp_event c' s timed_out)
      (ap (λ (x : Link). x.die) (if_true s.die s (lcp_timeout c' s) h) ∙ h)

-- The session is asked for again, or given up.
abbrev WentOn : Settings → Link → Link → Type 0
WentOn c s s' =
    ((s'.die ≡ false)
      × Waits s'.lcp.state
      × (s'.lcp.conf_sent ≡ s.lcp.conf_sent + 1)
      × (s.lcp.conf_sent < c.ppp_max_configure))
    ⊎ (s'.die ≡ true)

ask-WentOn :
    (c : Settings) (next : State) (s : Link)
    → s.die ≡ false
    → Waits next
    → stops next ≡ false
    → WentOn c s (ask_or_die c next s)
unfolding sendlcp shut_down
ask-WentOn c next s alive waits runs = elim (Bool-cases (ltb s.lcp.conf_sent c.ppp_max_configure)) [
  | inl more ↦
      let a = restart_timer c s.lcp in
      rw more (
        inl (
          alive,
          subst Waits (sym (change-state a next)) waits,
          change-conf_sent a next runs,
          ground arith,
        ))
  | inr over ↦ rw over (inr refl)
]

timeout-WentOn :
    (c : Settings) (x : State) (s : Link) → s.die ≡ false → Waits x → WentOn c s (timeout_in x c s)
unfolding timeout_in
timeout-WentOn c x s alive (inl e) =
    subst (λ y. WentOn c s (timeout_in y c s)) (sym e)
      (ask-WentOn c request_sent s alive (inl refl) refl)
timeout-WentOn c x s alive (inr (inl e)) =
    subst (λ y. WentOn c s (timeout_in y c s)) (sym e)
      (ask-WentOn c request_sent s alive (inl refl) refl)
timeout-WentOn c x s alive (inr (inr e)) =
    subst (λ y. WentOn c s (timeout_in y c s)) (sym e)
      (ask-WentOn c ack_sent s alive (inr (inr refl)) refl)

again_or_over :
    (c : Settings) (s : Link) (d : ℕ)
    → s.die ≡ false
    → Waits s.lcp.state
    → WentOn c s (lcp_event (record c { time_now = s.lcp.restart + d }) s timed_out)
unfolding lcp_event lcp_timeout
again_or_over c s d alive waits =
    let late : leb s.lcp.restart (s.lcp.restart + d) ≡ true = ground arith in
    let c' = record c { time_now = s.lcp.restart + d } in
    let x = timeout_in s.lcp.state c' s in
    subst (WentOn c s)
      (sym (
        if_false s.die s (lcp_timeout c' s) alive
        ∙ if_true (leb s.lcp.restart c'.time_now) x s late))
      (timeout-WentOn c' s.lcp.state s alive waits)

-- LCP that waits for its peer and hears nothing gives up: after as many timeouts as it has requests
-- left, and one more, however late they are noticed, the session is being shut down.
pub timeouts_die :
    (c : Settings) (late : List ℕ) (s : Link)
    → Waits s.lcp.state
    → s.lcp.conf_sent ≤ c.ppp_max_configure
    → c.ppp_max_configure < s.lcp.conf_sent + length late
    → (timeouts c late s).die ≡ true
timeouts_die c [] s waits le enough = absurd (omega arith)
timeouts_die c (d ∷ late) s waits le enough =
    let s' = lcp_event (record c { time_now = s.lcp.restart + d }) s timed_out in
    elim (Bool-cases s.die) [
      | inl dead_ ↦ stays_dead c (d ∷ late) s dead_
      | inr alive ↦ elim (again_or_over c s d alive waits) [
        | inl (alive', waits', count, lt) ↦
            timeouts_die c late s' waits' (omega arith) (omega arith)
        | inr over ↦ stays_dead c late s' over
      ]
    ]
