-- ===== src/Ppp/Request.antt =====
-- The whole answer to a ConfigReq.
use mathlib.Core.Path.{subst}
use l2tpns.Prelude.{
  ℕ, zero, suc, ◌+◌, ◌-◌, ◌≤◌, ◌<◌, ◌≡◌, refl, sym, ap, ◌∙◌, List, [], ◌∷◌, ◌++◌, none, not, ◌||◌,
  ltb, ◌==◌, length, drop, get_or, arith, Bool-cases, inl, inr, if_true, if_false,
}
use l2tpns.Ppp.Options.{
  Policy, LinkOptions, Verdict, verdict, Options, take_option, read_options, config_req,
}
use l2tpns.Ppp.Judged.{judged, unknown_size, asked, deserved, as_nak, answers, answers_lem}
use l2tpns.Ppp.Listed.{Listed, encoded, Typed, looked, judged-encoded}
use l2tpns.Ppp.Stored.{Stores, learns, learns-Stores}

-- The loop takes the options one after the other.
pub loop_lem :
    (fuel : ℕ) (c : Policy) (o : List ℕ) (x : ℕ) (s : Options)
    → read_options fuel c o x s ≡ record {
      link = learns c (judged fuel c o x) s.link;
      answer = answers c (judged fuel c o x) s.answer;
    }
unfolding read_options judged
loop_lem zero c o x s = refl
loop_lem (suc fuel) c o x s =
    let len = get_or o 1 0 in
    let stop = not (ltb 2 x) || len == 0 || get_or o 0 0 == 0 || ltb x len in
    let rest = judged fuel c (drop len o) (x - len) in
    let P : List (List ℕ × Verdict) → Options → Type 0 =
      λ js t. t ≡ record { link = learns c js s.link; answer = answers c js s.answer } in
    elim (Bool-cases stop) [
      | inl e ↦
          subst (λ js. P js (read_options (suc fuel) c o x s)) (sym (if_true stop [] _ e))
            (if_true stop s _ e)
      | inr e ↦
          subst (λ js. P js (read_options (suc fuel) c o x s))
            (sym (if_false stop [] ((o, verdict c o) ∷ rest) e))
            (if_false stop s _ e ∙ loop_lem fuel c (drop len o) (x - len) (take_option c o s))
    ]

-- What config_req makes of a list of options.
pub config_req-looked :
    (c : Policy) (os : List Listed) (more : List ℕ) (link : LinkOptions) (n : ℕ)
    → Typed os
    → config_req c (encoded os ++ more) (length (encoded os)) link n ≡ record {
      link = learns c (looked c more os) link;
      answer = answers c (looked c more os) (record { reply = none; nak_sent = n });
    }
unfolding config_req
config_req-looked c os more link n typed =
    let x = length (encoded os) in
    let start : Options = record { link = link; answer = record { reply = none; nak_sent = n } } in
    loop_lem x c (encoded os ++ more) x start
    ∙ ap
        (λ (l : List (List ℕ × Verdict)). record {
          link = learns c l link;
          answer = answers c l start.answer;
        })
        (judged-encoded x c os more typed (omega arith))

-- Of a ConfigReq that is a list of options with types other than 0, each as long as it says,
-- where the answer has room and nak_sent + 1 is below ppp_max_failure. All options are looked at
-- but a last one of two bytes, which is neither rejected nor asked for otherwise, even if it is
-- unknown. The answer is a ConfigRej of exactly the options looked at that are unknown, in
-- order, if there are any; else a ConfigNak of exactly the values that are asked for, in order,
-- if there are any; else the ConfigAck. Of the session, the MRU is afterwards that of the last
-- MRU option of 576 at least, and the MRRU, the short sequence numbers, the endpoint
-- discriminator and the authentication type are those of the last option looked at that gives
-- one (of authentication, the last that is accepted); where there is none they are as before.
pub config_req_lem :
    (c : Policy) (os : List Listed) (more : List ℕ) (link : LinkOptions) (n : ℕ)
    → Typed os
    → n + 1 < c.ppp_max_failure
    → unknown_size (looked c more os) ≤ c.room
    → length (asked (looked c more os)) ≤ c.room
    → let js = looked c more os in
      let s = config_req c (encoded os ++ more) (length (encoded os)) link n in
      (s.answer.reply ≡ deserved js (as_nak (asked js))) × Stores c js link s.link
config_req_lem c os more link n typed h room space =
    let js = looked c more os in
    let e = config_req-looked c os more link n typed in
    (
      ap (λ (s : Options). s.answer.reply) e ∙ answers_lem c js n h room space,
      subst (λ (s : Options). Stores c js link s.link) (sym e) (learns-Stores c js link),
    )
