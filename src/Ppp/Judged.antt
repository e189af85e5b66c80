-- ===== src/Ppp/Judged.antt =====
-- The answer to a ConfigReq against the list of its options.
use mathlib.Core.List.{append-nil, append_assoc}
use l2tpns.Prelude.{
  ℕ, zero, suc, ◌+◌, ◌-◌, ◌≤◌, ◌<◌, ◌≡◌, refl, sym, ap, ◌∙◌, List, [], ◌∷◌, ◌++◌, Option, none,
  some, Bool, true, false, not, ◌||◌, ltb, leb, ◌==◌, if◌then◌else◌, length, take, drop, get_or,
  length-append, length-take, arith, if_true, if_false,
}
use l2tpns.Ppp.Options.{
  Policy, Reply, put_in, ppp_conf_rej, Response, nak_option, nak_behind, ppp_conf_nak, Verdict,
  keep, nak, nak_two, reject, verdict, is_nak, answer,
}

-- The options that the loop comes to, with what the switch makes of them.
unfoldable pub judged : ℕ → Policy → List ℕ → ℕ → List (List ℕ × Verdict)
judged zero c o x = []
judged (suc fuel) c o x =
    let type = get_or o 0 0 in
    let len = get_or o 1 0 in
    let rest = judged fuel c (drop len o) (x - len) in
    if not (ltb 2 x) || len == 0 || type == 0 || ltb x len then [] else (o, verdict c o) ∷ rest

-- The unknown options, and how long they say that they are.
abbrev pub unknown : List (List ℕ × Verdict) → List ℕ
unknown [] = []
unknown ((o, keep) ∷ js) = unknown js
unknown ((o, nak v) ∷ js) = unknown js
unknown ((o, nak_two v w) ∷ js) = unknown js
unknown ((o, reject) ∷ js) = take (get_or o 1 0) o ++ unknown js

abbrev pub unknown_size : List (List ℕ × Verdict) → ℕ
unknown_size [] = 0
unknown_size ((o, keep) ∷ js) = unknown_size js
unknown_size ((o, nak v) ∷ js) = unknown_size js
unknown_size ((o, nak_two v w) ∷ js) = unknown_size js
unknown_size ((o, reject) ∷ js) = get_or o 1 0 + unknown_size js

abbrev pub some_unknown : List (List ℕ × Verdict) → Bool
some_unknown [] = false
some_unknown ((o, keep) ∷ js) = some_unknown js
some_unknown ((o, nak v) ∷ js) = some_unknown js
some_unknown ((o, nak_two v w) ∷ js) = some_unknown js
some_unknown ((o, reject) ∷ js) = true

-- The values that are asked for.
abbrev pub asked : List (List ℕ × Verdict) → List ℕ
asked [] = []
asked ((o, keep) ∷ js) = asked js
asked ((o, nak v) ∷ js) = nak_option o v ++ asked js
asked ((o, nak_two v w) ∷ js) = (nak_option o v ++ nak_option o w) ++ asked js
asked ((o, reject) ∷ js) = asked js

-- The answer that the options deserve, where `reply` is what stands for the values so far.
abbrev pub deserved : List (List ℕ × Verdict) → Option Reply → Option Reply
deserved js reply =
    if some_unknown js
    then some (record { is_rej = true; options = unknown js; lost = false })
    else reply

-- A ConfigNak with options, if there are any.
abbrev pub as_nak : List ℕ → Option Reply
as_nak [] = none
as_nak (b ∷ l) = some (record { is_rej = false; options = b ∷ l; lost = false })

abbrev pub answers : Policy → List (List ℕ × Verdict) → Response → Response
answers c [] a = a
answers c ((o, v) ∷ js) a = answers c js (answer c o v a)

pub put_in_fits :
    (room : ℕ) (b : Bool) (l bytes : List ℕ) (len : ℕ)
    → length l + len ≤ room
    → put_in room (record { is_rej = b; options = l; lost = false }) len bytes
      ≡ record { is_rej = b; options = l ++ bytes; lost = false }
put_in_fits room b l bytes len h =
    let fits : ltb room (length l + len) ≡ false = ground arith in if_false _ _ _ fits

-- An answer with the options `l`.
abbrev pub making : Bool → List ℕ → ℕ → Response
making b l n = record {
  reply = some (record { is_rej = b; options = l; lost = false });
  nak_sent = n;
}

nak_kept :
    (c : Policy) (o v l : List ℕ) (n : ℕ)
    → n < c.ppp_max_failure
    → ppp_conf_nak c (making true l n) o v ≡ making true l n
unfolding nak_behind
nak_kept c o v l n h =
    let below : ltb n c.ppp_max_failure ≡ true = ground arith in
    ap (λ r. record { reply = some r; nak_sent = n }) (if_true _ _ _ below)

nak_adds :
    (c : Policy) (o v l : List ℕ) (n : ℕ)
    → length l + (length v + 2) ≤ c.room
    → ppp_conf_nak c (making false l n) o v ≡ making false (l ++ nak_option o v) n
unfolding nak_behind
nak_adds c o v l n h =
    ap (λ r. record { reply = some r; nak_sent = n })
      (put_in_fits c.room false l (nak_option o v) (length v + 2) h)

nak_first :
    (c : Policy) (o v : List ℕ) (n : ℕ)
    → n < c.ppp_max_failure
    → length v + 2 ≤ c.room
    → ppp_conf_nak c (record { reply = none; nak_sent = n }) o v
      ≡ making false (nak_option o v) (n + 1)
unfolding nak_behind
nak_first c o v n h room =
    let below : leb c.ppp_max_failure n ≡ false = ground arith in
    if_false _ _ _ below
    ∙ ap (λ r. record { reply = some r; nak_sent = n + 1 })
        (put_in_fits c.room false [] (nak_option o v) (length v + 2) (omega arith))

abbrev pub rejected : List ℕ → List ℕ
rejected o = take (get_or o 1 0) o

pub rej_adds :
    (c : Policy) (o l : List ℕ)
    → length l + get_or o 1 0 ≤ c.room
    → ppp_conf_rej c.room (some (record { is_rej = true; options = l; lost = false })) o
      ≡ record { is_rej = true; options = l ++ rejected o; lost = false }
unfolding ppp_conf_rej
rej_adds c o l h = put_in_fits c.room true l (rejected o) (get_or o 1 0) h

pub rej_first :
    (c : Policy) (o : List ℕ)
    → get_or o 1 0 ≤ c.room
    → ppp_conf_rej c.room none o ≡ record { is_rej = true; options = rejected o; lost = false }
unfolding ppp_conf_rej
rej_first c o h = put_in_fits c.room true [] (rejected o) (get_or o 1 0) (omega arith)

rej_instead :
    (c : Policy) (o l : List ℕ)
    → get_or o 1 0 ≤ c.room
    → ppp_conf_rej c.room (some (record { is_rej = false; options = l; lost = false })) o
      ≡ record { is_rej = true; options = rejected o; lost = false }
unfolding ppp_conf_rej
rej_instead c o l h = put_in_fits c.room true [] (rejected o) (get_or o 1 0) (omega arith)

-- Once a ConfigRej is being made, the unknown options are added and values are not asked for.
after_reject :
    (c : Policy) (js : List (List ℕ × Verdict)) (l : List ℕ) (n : ℕ)
    → n < c.ppp_max_failure
    → length l + unknown_size js ≤ c.room
    → answers c js (making true l n) ≡ making true (l ++ unknown js) n
unfolding answer
after_reject c [] l n h room = ap (λ k. making true k n) (sym (append-nil l))
after_reject c ((o, keep) ∷ js) l n h room = after_reject c js l n h room
after_reject c ((o, nak v) ∷ js) l n h room =
    ap (answers c js) (nak_kept c o v l n h) ∙ after_reject c js l n h room
after_reject c ((o, nak_two v w) ∷ js) l n h room =
    let same = nak_kept c o v l n h in
    ap (λ a. answers c js (if is_nak a.reply then ppp_conf_nak c a o w else a)) same
    ∙ after_reject c js l n h room
after_reject c ((o, reject) ∷ js) l n h room =
    let short = length-take (get_or o 1 0) o in
    let both = length-append l (rejected o) in
    ap (λ r. answers c js (record { reply = some r; nak_sent = n })) (rej_adds c o l (omega arith))
    ∙ after_reject c js (l ++ rejected o) n h (ground arith)
    ∙ ap (λ k. making true k n) (append_assoc l (rejected o) (unknown js))

-- While a ConfigNak is being made, the values are added, until an option is unknown.
after_nak :
    (c : Policy) (js : List (List ℕ × Verdict)) (l : List ℕ) (n : ℕ)
    → n < c.ppp_max_failure
    → unknown_size js ≤ c.room
    → length l + length (asked js) ≤ c.room
    → (answers c js (making false l n)).reply ≡ deserved js (making false (l ++ asked js) n).reply
unfolding answer
after_nak c [] l n h room space = ap (λ k. (making false k n).reply) (sym (append-nil l))
after_nak c ((o, keep) ∷ js) l n h room space = after_nak c js l n h room space
after_nak c ((o, nak v) ∷ js) l n h room space =
    let both = length-append l (nak_option o v) in
    let all = length-append v (asked js) in
    ap (λ a. (answers c js a).reply) (nak_adds c o v l n (omega arith))
    ∙ after_nak c js (l ++ nak_option o v) n h room (omega arith)
    ∙ ap (λ k. deserved js (making false k n).reply) (append_assoc l (nak_option o v) (asked js))
after_nak c ((o, nak_two v w) ∷ js) l n h room space =
    let first = nak_option o v in
    let second = nak_option o w in
    let all = length-append (first ++ second) (asked js) in
    let two = length-append first second in
    let b = length-append l first in
    let b' = length-append (l ++ first) second in
    ap (λ a. (answers c js (if is_nak a.reply then ppp_conf_nak c a o w else a)).reply)
      (nak_adds c o v l n (omega arith))
    ∙ ap (λ a. (answers c js a).reply) (nak_adds c o w (l ++ first) n (omega arith))
    ∙ after_nak c js ((l ++ first) ++ second) n h room (omega arith)
    ∙ ap (λ k. deserved js (making false k n).reply)
        (ap (λ k. k ++ asked js) (append_assoc l first second)
          ∙ append_assoc l (first ++ second) (asked js))
after_nak c ((o, reject) ∷ js) l n h room space =
    let short = length-take (get_or o 1 0) o in
    ap (λ r. (answers c js (record { reply = some r; nak_sent = n })).reply)
      (rej_instead c o l (omega arith))
    ∙ ap (λ (a : Response). a.reply) (after_reject c js (rejected o) n h (ground arith))

-- Of a list of options and no answer yet.
pub answers_lem :
    (c : Policy) (js : List (List ℕ × Verdict)) (n : ℕ)
    → n + 1 < c.ppp_max_failure
    → unknown_size js ≤ c.room
    → length (asked js) ≤ c.room
    → (answers c js (record { reply = none; nak_sent = n })).reply ≡ deserved js (as_nak (asked js))
unfolding answer
answers_lem c [] n h room space = refl
answers_lem c ((o, keep) ∷ js) n h room space = answers_lem c js n h room space
answers_lem c ((o, nak v) ∷ js) n h room space =
    let all = length-append v (asked js) in
    ap (λ a. (answers c js a).reply) (nak_first c o v n (omega arith) (omega arith))
    ∙ after_nak c js (nak_option o v) (n + 1) h room (omega arith)
answers_lem c ((o, nak_two v w) ∷ js) n h room space =
    let first = nak_option o v in
    let second = nak_option o w in
    let all = length-append (first ++ second) (asked js) in
    let two = length-append first second in
    ap (λ a. (answers c js (if is_nak a.reply then ppp_conf_nak c a o w else a)).reply)
      (nak_first c o v n (omega arith) (omega arith))
    ∙ ap (λ a. (answers c js a).reply) (nak_adds c o w first (n + 1) (omega arith))
    ∙ after_nak c js (first ++ second) (n + 1) h room (omega arith)
answers_lem c ((o, reject) ∷ js) n h room space =
    let short = length-take (get_or o 1 0) o in
    ap (λ r. (answers c js (record { reply = some r; nak_sent = n })).reply)
      (rej_first c o (omega arith))
    ∙ ap (λ (a : Response). a.reply) (after_reject c js (rejected o) n (omega arith) (ground arith))
