-- ===== src/Ppp/Refused.antt =====
-- The answer to a ConfigReq when too many ConfigNaks have been sent.
use mathlib.Core.Path.{subst}
use mathlib.Core.List.{append-nil, append_assoc}
use l2tpns.Prelude.{
  ℕ, ◌+◌, ◌≤◌, ◌≡◌, ◌⊎◌, inl, inr, refl, sym, ap, ◌∙◌, List, [], ◌∷◌, ◌++◌, Option, none, some,
  Bool, true, false, ltb, leb, if◌then◌else◌, length, get_or, length-append, length-take, arith,
  if_true, if_false,
}
use l2tpns.Ppp.Options.{
  Policy, LinkOptions, Reply, ppp_conf_rej, Response, nak_behind, ppp_conf_nak, Verdict, keep, nak,
  nak_two, reject, is_nak, answer, Options, config_req,
}
use l2tpns.Ppp.Judged.{unknown, unknown_size, answers, making, rejected, rej_adds, rej_first}
use l2tpns.Ppp.Listed.{Listed, encoded, Typed, looked}
use l2tpns.Ppp.Request.{config_req-looked}

-- Is a value asked for?
abbrev pub asks : List (List ℕ × Verdict) → Bool
asks [] = false
asks ((o, keep) ∷ js) = asks js
asks ((o, nak v) ∷ js) = true
asks ((o, nak_two v w) ∷ js) = true
asks ((o, reject) ∷ js) = asks js

-- The first option that is not kept, and those behind it.
abbrev pub first_refused : List (List ℕ × Verdict) → Option (List ℕ × List (List ℕ × Verdict))
first_refused [] = none
first_refused ((o, keep) ∷ js) = first_refused js
first_refused ((o, nak v) ∷ js) = some (o, js)
first_refused ((o, nak_two v w) ∷ js) = some (o, js)
first_refused ((o, reject) ∷ js) = some (o, js)

abbrev pub is_lost : Option Reply → Bool
is_lost none = false
is_lost (some r) = r.lost

-- A ConfigRej of which the pointer is 0.
abbrev dead : List ℕ → ℕ → Response
dead l n = record {
  reply = some (record { is_rej = true; options = l; lost = true });
  nak_sent = n;
}

no_queue :
    (c : Policy) (o v l : List ℕ) (n : ℕ) (b : Bool)
    → c.ppp_max_failure ≤ n
    → ppp_conf_nak c
        (record { reply = some (record { is_rej = true; options = l; lost = b }); nak_sent = n })
        o
        v
      ≡ dead l n
unfolding nak_behind ppp_conf_rej
no_queue c o v l n b h =
    let above : ltb n c.ppp_max_failure ≡ false = ground arith in
    ap (λ r. record { reply = some r; nak_sent = n }) (if_false _ _ _ above)

stays_dead :
    (c : Policy) (js : List (List ℕ × Verdict)) (l : List ℕ) (n : ℕ)
    → c.ppp_max_failure ≤ n
    → answers c js (dead l n) ≡ dead l n
unfolding answer ppp_conf_rej
stays_dead c [] l n h = refl
stays_dead c ((o, keep) ∷ js) l n h = stays_dead c js l n h
stays_dead c ((o, nak v) ∷ js) l n h =
    ap (answers c js) (no_queue c o v l n true h) ∙ stays_dead c js l n h
stays_dead c ((o, nak_two v w) ∷ js) l n h =
    ap (λ a. answers c js (if is_nak a.reply then ppp_conf_nak c a o w else a))
      (no_queue c o v l n true h)
    ∙ stays_dead c js l n h
stays_dead c ((o, reject) ∷ js) l n h = stays_dead c js l n h

-- Behind a ConfigRej, unknown options are added, and one that is asked for loses the answer.
abbrev Behind : List ℕ → List (List ℕ × Verdict) → Option Reply → Type 0
Behind l js reply =
    ((asks js ≡ false)
      × (reply ≡ some (record { is_rej = true; options = l ++ unknown js; lost = false })))
    ⊎ ((asks js ≡ true) × (is_lost reply ≡ true))

reject-Behind :
    (c : Policy) (js : List (List ℕ × Verdict)) (l : List ℕ) (n : ℕ)
    → c.ppp_max_failure ≤ n
    → length l + unknown_size js ≤ c.room
    → Behind l js (answers c js (making true l n)).reply
unfolding answer
reject-Behind c [] l n h room = inl (refl, ap (λ k. (making true k n).reply) (sym (append-nil l)))
reject-Behind c ((o, keep) ∷ js) l n h room = reject-Behind c js l n h room
reject-Behind c ((o, nak v) ∷ js) l n h room = inr (
  refl,
  ap (λ a. is_lost (answers c js a).reply) (no_queue c o v l n false h)
      ∙ ap (λ (a : Response). is_lost a.reply) (stays_dead c js l n h),
)
reject-Behind c ((o, nak_two v w) ∷ js) l n h room = inr (
  refl,
  ap (λ a. is_lost (answers c js (if is_nak a.reply then ppp_conf_nak c a o w else a)).reply)
        (no_queue c o v l n false h)
      ∙ ap (λ (a : Response). is_lost a.reply) (stays_dead c js l n h),
)
reject-Behind c ((o, reject) ∷ js) l n h room =
    let short = length-take (get_or o 1 0) o in
    let both = length-append l (rejected o) in
    let all = append_assoc l (rejected o) (unknown js) in
    let rest = reject-Behind c js (l ++ rejected o) n h (ground arith) in
    let step =
      ap (λ r. (answers c js (record { reply = some r; nak_sent = n })).reply)
        (rej_adds c o l (omega arith)) in
    elim rest [
      | inl (none_, e) ↦ inl (none_, step ∙ e ∙ ap (λ k. (making true k n).reply) all)
      | inr (one, e) ↦ inr (one, ap is_lost step ∙ e)
    ]

-- What becomes of the answer at the limit, by the first option that is not kept.
abbrev pub AtLimit : Option (List ℕ × List (List ℕ × Verdict)) → Option Reply → Type 0
AtLimit none reply = reply ≡ none
AtLimit (some (o, js)) reply =
    ((asks js ≡ false)
      × (reply ≡ some (record { is_rej = true; options = rejected o ++ unknown js; lost = false })))
    ⊎ ((asks js ≡ true) × (is_lost reply ≡ true))

first_at_limit :
    (c : Policy) (o : List ℕ) (js : List (List ℕ × Verdict)) (n : ℕ) (a : Response)
    → c.ppp_max_failure ≤ n
    → get_or o 1 0 + unknown_size js ≤ c.room
    → a ≡ making true (rejected o) n
    → Behind (rejected o) js (answers c js a).reply
first_at_limit c o js n a h room e =
    let short = length-take (get_or o 1 0) o in
    subst (λ b. Behind (rejected o) js (answers c js b).reply) (sym e)
      (reject-Behind c js (rejected o) n h (ground arith))

nak_at_limit :
    (c : Policy) (o v : List ℕ) (n : ℕ)
    → c.ppp_max_failure ≤ n
    → get_or o 1 0 ≤ c.room
    → ppp_conf_nak c (record { reply = none; nak_sent = n }) o v ≡ making true (rejected o) n
unfolding nak_behind
nak_at_limit c o v n h room =
    let above : leb c.ppp_max_failure n ≡ true = ground arith in
    if_true _ _ _ above ∙ ap (λ r. record { reply = some r; nak_sent = n }) (rej_first c o room)

-- How long the options that are not kept say that they are.
abbrev pub refused_size : List (List ℕ × Verdict) → ℕ
refused_size [] = 0
refused_size ((o, keep) ∷ js) = refused_size js
refused_size ((o, nak v) ∷ js) = get_or o 1 0 + refused_size js
refused_size ((o, nak_two v w) ∷ js) = get_or o 1 0 + refused_size js
refused_size ((o, reject) ∷ js) = get_or o 1 0 + refused_size js

unknown_le : (js : List (List ℕ × Verdict)) → unknown_size js ≤ refused_size js
unknown_le [] = omega arith
unknown_le ((o, keep) ∷ js) = unknown_le js
unknown_le ((o, nak v) ∷ js) = omega (arith, unknown_le js)
unknown_le ((o, nak_two v w) ∷ js) = omega (arith, unknown_le js)
unknown_le ((o, reject) ∷ js) = omega (arith, unknown_le js)

limit_lem :
    (c : Policy) (js : List (List ℕ × Verdict)) (n : ℕ)
    → c.ppp_max_failure ≤ n
    → refused_size js ≤ c.room
    → AtLimit (first_refused js) (answers c js (record { reply = none; nak_sent = n })).reply
unfolding answer
limit_lem c [] n h room = refl
limit_lem c ((o, keep) ∷ js) n h room = limit_lem c js n h room
limit_lem c ((o, nak v) ∷ js) n h room =
    let u = unknown_le js in
    first_at_limit c o js n _ h (omega arith) (nak_at_limit c o v n h (omega arith))
limit_lem c ((o, nak_two v w) ∷ js) n h room =
    let u = unknown_le js in
    first_at_limit c o js n _ h (omega arith) (
      ap (λ a. if is_nak a.reply then ppp_conf_nak c a o w else a)
        (nak_at_limit c o v n h (omega arith)))
limit_lem c ((o, reject) ∷ js) n h room =
    let u = unknown_le js in
    first_at_limit c o js n _ h (omega arith)
      (ap (λ r. record { reply = some r; nak_sent = n }) (rej_first c o (omega arith)))

-- Of a ConfigReq that is a list of options with types other than 0, each as long as it says,
-- where the answer has room and as many ConfigNaks have been sent as the configuration allows.
-- All options are looked at but a last one of two bytes, which is neither rejected nor asked for
-- otherwise, even if it is unknown. The answer is the ConfigAck if every option looked at is
-- kept; else, if behind the first that is not kept all others looked at are kept or unknown, a
-- ConfigRej of the first and of the unknown ones, in order; else its pointer is lost.
pub config_req-AtLimit :
    (c : Policy) (os : List Listed) (more : List ℕ) (link : LinkOptions) (n : ℕ)
    → Typed os
    → c.ppp_max_failure ≤ n
    → refused_size (looked c more os) ≤ c.room
    → AtLimit
        (first_refused (looked c more os))
        (config_req c (encoded os ++ more) (length (encoded os)) link n).answer.reply
config_req-AtLimit c os more link n typed h room =
    let js = looked c more os in
    subst (λ (s : Options). AtLimit (first_refused js) s.answer.reply)
      (sym (config_req-looked c os more link n typed)) (limit_lem c js n h room)
