-- ===== src/Avp/Tests.antt =====
-- Messages that are written and read.
use l2tpns.Prelude.{
  ℕ, ◌≡◌, ◌≢◌, ◌⊎◌, refl, List, [], ◌∷◌, ◌++◌, none, some, true, false, length, replicate, arith,
}
use l2tpns.Avp.{Env, Avps, before_avps, put16, unhide_value, unhide_from}
use l2tpns.Avp.Take.{take_avp, take_call, last_sent_lcp}
use l2tpns.Avp.Read.{done, overrun, spent, read_avps, take_one, take_hidden}
use l2tpns.Avp.RoundTrip.{Avp, written, take_all, read_avps-written}
use l2tpns.Avp.Writers.{avp}
use l2tpns.Avp.Messages.{sccrp, stopccn, icrp, iccn, hello}
use l2tpns.Avp.Answers.{response_read}
use l2tpns.Avp.Sent.{reads, sent_lem}
use l2tpns.Avp.Loop.{Blocked, read_avps_ends}

abbrev env : Env
env = record {
  md5 = λ text. replicate 16 (length text);
  atol = λ text. length text;
  l2tp_secret = 97 ∷ [];
  isremotelns = true;
}

abbrev none_yet : Avps
none_yet = before_avps (record {
  message = 0;
  fatal = 0;
  mandatory = 0;
  version = 0;
  result = 0;
  error = 0;
  asession = 0;
  amagic = 0;
  aflags = 0;
  called = [];
  calling = [];
  disc_cause_set = 0;
  disc_cause = 0;
  sendchalresponse = none;
  recvchalresponse = none;
  hostname = [];
  vendor = [];
  far = 0;
  window = 4;
  session_far = 0;
  tx_connect_speed = 0;
  rx_connect_speed = 0;
  random_vector = [];
})

-- A window of 0, a magic number, and an unknown AVP that is not mandatory.
abbrev odd : List Avp
odd =
    avp true 0 (put16 1)
    ∷ avp true 10 (put16 0)
    ∷ avp false 27 (3 ∷ 4 ∷ 1 ∷ 1 ∷ 5 ∷ 6 ∷ 0 ∷ 0 ∷ 1 ∷ 2 ∷ 7 ∷ 2 ∷ [])
    ∷ avp false 99 []
    ∷ []

take_all-odd : take_all env odd [] none_yet ≡ record none_yet {
  message = 1;
  mandatory = 128;
  window = 1;
  amagic = 258;
  aflags = 1;
  result = 2;
  error = 8;
}
unfolding take_all take_avp take_call last_sent_lcp
take_all-odd = refl

read_avps-written_example :
    read_avps 5 env (written odd ++ []) (length (written odd)) none_yet
    ≡ done (take_all env odd [] none_yet)
read_avps-written_example =
    read_avps-written env odd [] none_yet 5
      (
        omega arith,
        omega arith,
        (omega arith, omega arith, (omega arith, omega arith, (omega arith, omega arith, tt))),
      )
      (omega arith)

abbrev host : List ℕ
host = 108 ∷ 110 ∷ 115 ∷ []

sent_lem_example :
    (reads 7 env (sccrp 0x0100 host (some (1 ∷ [])) 5) [] none_yet
      ≡ done (record (before_avps none_yet) {
        message = 2;
        mandatory = 128;
        hostname = host;
        recvchalresponse = response_read env (some (1 ∷ []));
        far = 5;
      }))
    × (reads 7 env (stopccn 2 6 host 5) [] none_yet
        ≡ done (record (before_avps none_yet) {
          message = 4;
          mandatory = 128;
          disc_cause_set = 1;
          disc_cause = 3;
          far = 5;
        }))
    × (reads 7 env (icrp 9) [] none_yet
        ≡ done (record (before_avps none_yet) {
          message = 11;
          mandatory = 128;
          asession = 9;
          session_far = 9;
        }))
    × (reads 7 env iccn [] none_yet
        ≡ done (record (before_avps none_yet) {
          message = 12;
          mandatory = 128;
          tx_connect_speed = 10000000;
        }))
    × (reads 7 env hello [] none_yet
        ≡ done (record (before_avps none_yet) { message = 6; mandatory = 128 }))
sent_lem_example =
    sent_lem 7 env host (some (1 ∷ [])) 2 6 host 5 9 [] none_yet (omega arith) (omega arith)
      (omega arith) (omega arith)

read_avps_ends_example :
    ((read_avps 7 env (128 ∷ 6 ∷ 0 ∷ 0 ∷ 0 ∷ 5 ∷ []) 6 none_yet ≢ spent)
      ⊎ Blocked (128 ∷ 6 ∷ 0 ∷ 0 ∷ 0 ∷ 5 ∷ []) 6)
    × (read_avps 7 env (0 ∷ 0 ∷ 0 ∷ 0 ∷ 0 ∷ 0 ∷ 128 ∷ 6 ∷ 0 ∷ 0 ∷ 0 ∷ 5 ∷ []) 6 none_yet ≡ spent)
read_avps_ends_example =
    read_avps_ends env 7 (128 ∷ 6 ∷ 0 ∷ 0 ∷ 0 ∷ 5 ∷ []) 6 none_yet (omega arith) (omega arith) refl

-- Hidden AVPs: one that is short, one that is shorter than its own header, and one that is read.
abbrev keyed : Avps
keyed = record none_yet { random_vector = 1 ∷ 2 ∷ [] }

read-hidden :
    (read_avps 3 env (64 ∷ 8 ∷ 0 ∷ 0 ∷ 0 ∷ 9 ∷ 1 ∷ 1 ∷ []) 8 keyed
      ≡ done (record keyed { fatal = 64; result = 2; error = 2 }))
    × (read_avps 3 env (64 ∷ 2 ∷ 0 ∷ 0 ∷ 0 ∷ 9 ∷ []) 2 keyed ≡ overrun)
    × (read_avps 3 env (64 ∷ 14 ∷ 0 ∷ 0 ∷ 0 ∷ 9 ∷ 5 ∷ 7 ∷ 6 ∷ 5 ∷ 0 ∷ 0 ∷ 0 ∷ 0 ∷ []) 14 keyed
        ≡ done (record keyed { far = 768 }))
unfolding read_avps take_one take_hidden take_avp unhide_value unhide_from
read-hidden = (refl, refl, refl)
