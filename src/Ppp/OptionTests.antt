-- ===== src/Ppp/OptionTests.antt =====
-- ConfigReqs with their answers.
use l2tpns.Prelude.{ℕ, ◌≡◌, refl, List, [], ◌∷◌, ◌++◌, none, some, true, length, arith}
use l2tpns.Ppp.Options.{
  Policy, LinkOptions, keep, nak, reject, verdict, read_options, config_req, answer, nak_behind,
  ppp_conf_rej,
}
use l2tpns.Ppp.Listed.{Listed, encoded, Typed, looked}
use l2tpns.Ppp.Stored.{Stores}
use l2tpns.Ppp.Judged.{unknown_size, asked, deserved, as_nak}
use l2tpns.Ppp.Request.{config_req_lem}
use l2tpns.Ppp.Refused.{refused_size, first_refused, AtLimit, config_req-AtLimit}

abbrev settings : Policy
settings = record {
  mru = 1500;
  radius_authtypes = 3;
  radius_authprefer = 2;
  ppp_max_failure = 5;
  room = 100;
}

abbrev fresh_link : LinkOptions
fresh_link = record {
  mru = 0;
  mrru = 0;
  mssf = 0;
  epdis_class = 0;
  epdis_address = [];
  lcp_authtype = 0;
  changed = 0;
}

-- An MRU of 1400, one of 100, and an unknown option.
abbrev listed : List Listed
listed =
    record { type = 1; content = 5 ∷ 120 ∷ [] }
    ∷ record { type = 1; content = 0 ∷ 100 ∷ [] }
    ∷ record { type = 99; content = 7 ∷ [] }
    ∷ []

abbrev request : List ℕ
request = encoded listed ++ []

looked-listed :
    looked settings [] listed
    ≡ (1 ∷ 4 ∷ 5 ∷ 120 ∷ 1 ∷ 4 ∷ 0 ∷ 100 ∷ 99 ∷ 3 ∷ 7 ∷ [], keep)
      ∷ (1 ∷ 4 ∷ 0 ∷ 100 ∷ 99 ∷ 3 ∷ 7 ∷ [], nak (5 ∷ 220 ∷ []))
      ∷ (99 ∷ 3 ∷ 7 ∷ [], reject)
      ∷ []
unfolding verdict
looked-listed = refl

listed_unknown : unknown_size (looked settings [] listed) ≡ 3
unfolding verdict
listed_unknown = refl

listed_asked : length (asked (looked settings [] listed)) ≡ 4
unfolding verdict
listed_asked = refl

listed_refused : refused_size (looked settings [] listed) ≡ 7
unfolding verdict
listed_refused = refl

listed-Typed : Typed listed
listed-Typed = (λ e. omega arith, (λ e. omega arith, (λ e. omega arith, tt)))

config_req_lem_example :
    let js = looked settings [] listed in
    let s = config_req settings request (length (encoded listed)) fresh_link 0 in
    (s.answer.reply ≡ deserved js (as_nak (asked js))) × Stores settings js fresh_link s.link
config_req_lem_example =
    config_req_lem settings listed [] fresh_link 0 listed-Typed (omega arith)
      (omega (arith, listed_unknown)) (omega (arith, listed_asked))

config_req-AtLimit_example :
    AtLimit
      (first_refused (looked settings [] listed))
      (config_req settings request (length (encoded listed)) fresh_link 5).answer.reply
config_req-AtLimit_example =
    config_req-AtLimit settings listed [] fresh_link 5 listed-Typed (omega arith)
      (omega (arith, listed_refused))

-- At the limit, of an MRU of 100 and an asyncmap the second loses the answer.
two_lost :
    (config_req settings
      (1 ∷ 4 ∷ 0 ∷ 100 ∷ 2 ∷ 6 ∷ 1 ∷ 1 ∷ 1 ∷ 1 ∷ [])
      10
      fresh_link
      5).answer.reply
    ≡ some (record { is_rej = true; options = 1 ∷ 4 ∷ 0 ∷ 100 ∷ []; lost = true })
unfolding config_req read_options verdict answer nak_behind ppp_conf_rej
two_lost = refl

-- An option of two bytes at the end is not looked at: neither an unknown one, nor the format of
-- sequence numbers.
last_ignored :
    (config_req settings (99 ∷ 2 ∷ []) 2 fresh_link 0
      ≡ record { link = fresh_link; answer = record { reply = none; nak_sent = 0 } })
    × (config_req settings (18 ∷ 2 ∷ []) 2 fresh_link 0
        ≡ record { link = fresh_link; answer = record { reply = none; nak_sent = 0 } })
unfolding config_req read_options
last_ignored = (refl, refl)
