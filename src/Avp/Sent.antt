-- ===== src/Avp/Sent.antt =====
-- Every kind of message that is sent, as the other end reads it.
use l2tpns.Prelude.{
  ℕ, ◌+◌, ◌^◌, ◌≤◌, ◌<◌, ◌≡◌, refl, ap, ◌∙◌, List, [], ◌∷◌, ◌++◌, Option, none, some, true, not,
  ◌==◌, length, length-take, arith, if_true, if_false, ltb, pick, Bool-cases, inl, inr,
}
use l2tpns.Avp.{Env, Avps, before_avps, put16, put32, control16}
use l2tpns.Avp.Take.{take_avp, result_code, take_call, connect_speed, is_ignored}
use l2tpns.Avp.Read.{Reading, done, read_avps}
use l2tpns.Avp.Messages.{sccrp, error_value, stopccn, icrp, iccn, hello}
use l2tpns.Avp.RoundTrip.{Avp, Fits, written, take_all}
use l2tpns.Avp.Writers.{avp, controlb_lem, control16_lem}
use l2tpns.Avp.Answers.{
  response_avp, sccrp_avps, sccrp-avps, response_read, take_sccrp, read-written, word,
}

-- A message is read as one, in `fuel` rounds.
abbrev pub reads : ℕ → Env → List ℕ → List ℕ → Avps → Reading
reads fuel env m more s = read_avps fuel env (m ++ more) (length m) (before_avps s)

response_Fits :
    (response : Option (List ℕ)) (t : ℕ) → Fits (response_avp response ++ avp true 9 (put16 t) ∷ [])
response_Fits none t = (omega arith, omega arith, tt)
response_Fits (some r) t =
    (omega (arith, length-take 16 r), omega arith, (omega arith, omega arith, tt))

response_length :
    (response : Option (List ℕ)) (t : ℕ)
    → length (response_avp response ++ avp true 9 (put16 t) ∷ []) ≤ 2
response_length none t = omega arith
response_length (some r) t = omega arith

sccrp_Fits :
    (hostname : List ℕ) (response : Option (List ℕ)) (t : ℕ)
    → length hostname < 128
    → Fits (sccrp_avps hostname response t)
sccrp_Fits hostname response t h = (
  omega arith,
  omega arith,
  (
    omega arith,
    omega arith,
    (omega arith, omega arith, (omega arith, omega arith, response_Fits response t)),
  ),
)

reads-sccrp :
    (fuel : ℕ) (env : Env) (hostname : List ℕ) (response : Option (List ℕ)) (t : ℕ) (more : List ℕ)
    (s : Avps)
    → 6 < fuel
    → length hostname < 128
    → t < 2 ^ 16
    → reads fuel env (sccrp 0x0100 hostname response t) more s
      ≡ done (record (before_avps s) {
        message = 2;
        mandatory = 128;
        hostname = hostname;
        recvchalresponse = response_read env response;
        far = t;
      })
reads-sccrp fuel env hostname response t more s f h k =
    read-written env (sccrp_avps hostname response t) (sccrp 0x0100 hostname response t) more
      (before_avps s) fuel (sccrp-avps hostname response t) (sccrp_Fits hostname response t h)
      (omega (arith, response_length response t))
    ∙ ap done (take_sccrp env hostname more response t s h k)

abbrev stop_avps : List ℕ → ℕ → List Avp
stop_avps value t = avp true 0 (put16 4) ∷ avp true 1 value ∷ avp true 9 (put16 t) ∷ []

take_stop :
    (env : Env) (value more : List ℕ) (t : ℕ) (s : Avps)
    → t < 2 ^ 16
    → take_all env (stop_avps value t) more (before_avps s) ≡ record (before_avps s) {
      message = 4;
      mandatory = 128;
      disc_cause_set = 1;
      disc_cause = 3;
      far = t;
    }
unfolding take_all take_avp result_code
take_stop env value more t s k =
    ap
      (λ n. record (before_avps s) {
        message = 4;
        mandatory = 128;
        disc_cause_set = 1;
        disc_cause = 3;
        far = n;
      })
      (word t k)

error_value_short : (result error : ℕ) (msg : List ℕ) → length (error_value result error msg) < 1018
error_value_short result error msg = elim (Bool-cases (ltb 64 (length msg + 4))) [
  | inl long ↦ let e = if_true _ 60 (length msg) long in rw e (omega (arith, length-take 60 msg))
  | inr fits ↦
      let e = if_false _ 60 (length msg) fits in
      let n : length msg < 61 = ground arith in rw e (omega (arith, length-take (length msg) msg))
]

stop_read :
    (fuel : ℕ) (env : Env) (c value : List ℕ) (t : ℕ) (more : List ℕ) (s : Avps)
    → c ≡ written (avp true 0 (put16 4) ∷ avp true 1 value ∷ [])
    → length value < 1018
    → 3 < fuel
    → t < 2 ^ 16
    → reads fuel env (control16 c 9 t true) more s
      ≡ done (record (before_avps s) {
        message = 4;
        mandatory = 128;
        disc_cause_set = 1;
        disc_cause = 3;
        far = t;
      })
stop_read fuel env c value t more s e v f k =
    let xs = avp true 0 (put16 4) ∷ avp true 1 value ∷ [] in
    read-written env (stop_avps value t) (control16 c 9 t true) more (before_avps s) fuel
      (ap (λ b. control16 b 9 t true) e ∙ control16_lem xs 9 t true)
      (omega arith, omega arith, (v, omega arith, (omega arith, omega arith, tt))) f
    ∙ ap done (take_stop env value more t s k)

reads-stopccn :
    (fuel : ℕ) (env : Env) (result error : ℕ) (msg : List ℕ) (t : ℕ) (more : List ℕ) (s : Avps)
    → 3 < fuel
    → t < 2 ^ 16
    → reads fuel env (stopccn result error msg t) more s
      ≡ done (record (before_avps s) {
        message = 4;
        mandatory = 128;
        disc_cause_set = 1;
        disc_cause = 3;
        far = t;
      })
unfolding stopccn
reads-stopccn fuel env result error msg t more s f k =
    let read : List ℕ → Type 0 = λ c.
      reads fuel env (control16 c 9 t true) more s
      ≡ done (record (before_avps s) {
        message = 4;
        mandatory = 128;
        disc_cause_set = 1;
        disc_cause = 3;
        far = t;
      }) in
    let first = avp true 0 (put16 4) ∷ [] in
    let value = error_value result error msg in
    pick read (not (error == 0)) _ _
      (stop_read fuel env _ value t more s (controlb_lem first 1 value true)
        (error_value_short result error msg) f k)
      (stop_read fuel env _ (put16 result) t more s (control16_lem first 1 result true)
        (omega arith) f k)

reads-icrp :
    (fuel : ℕ) (env : Env) (id : ℕ) (more : List ℕ) (s : Avps)
    → 2 < fuel
    → id < 2 ^ 16
    → reads fuel env (icrp id) more s
      ≡ done (record (before_avps s) {
        message = 11;
        mandatory = 128;
        asession = id;
        session_far = id;
      })
unfolding icrp take_all take_avp take_call
reads-icrp fuel env id more s f k =
    read-written env (avp true 0 (put16 11) ∷ avp true 14 (put16 id) ∷ []) (icrp id) more
      (before_avps s) fuel refl (omega arith, omega arith, (omega arith, omega arith, tt)) f
    ∙ ap done (
        ap
          (λ n. record (before_avps s) {
            message = 11;
            mandatory = 128;
            asession = n;
            session_far = n;
          })
          (word id k))

reads-iccn :
    (fuel : ℕ) (env : Env) (more : List ℕ) (s : Avps)
    → 3 < fuel
    → reads fuel env iccn more s
      ≡ done (record (before_avps s) { message = 12; mandatory = 128; tx_connect_speed = 10000000 })
unfolding iccn take_all take_avp take_call connect_speed is_ignored
reads-iccn fuel env more s f =
    read-written env
      (avp true 0 (put16 12) ∷ avp true 19 (put32 1) ∷ avp true 24 (put32 10000000) ∷ []) iccn more
      (before_avps s) fuel refl
      (omega arith, omega arith, (omega arith, omega arith, (omega arith, omega arith, tt))) f

reads-hello :
    (fuel : ℕ) (env : Env) (more : List ℕ) (s : Avps)
    → 1 < fuel
    → reads fuel env hello more s ≡ done (record (before_avps s) { message = 6; mandatory = 128 })
unfolding hello take_all take_avp
reads-hello fuel env more s f =
    read-written env (avp true 0 (put16 6) ∷ []) hello more (before_avps s) fuel refl
      (omega arith, omega arith, tt) f

-- The other end reads what was sent: of an SCCRP of the version 1.0 the host name, the number of the
-- tunnel and, if it has challenged, the response; of a StopCCN, with whatever error, that the
-- service is lost, and the number of the tunnel; of an ICRP the number of the session; of an ICCN
-- the speed; and a HELLO. Nothing is refused, whatever follows the message in memory, and seven
-- rounds are enough. The host name has fewer than 128 bytes, and the numbers have 16 bits.
pub sent_lem :
    (fuel : ℕ) (env : Env) (hostname : List ℕ) (response : Option (List ℕ)) (result error : ℕ)
    (msg : List ℕ) (t id : ℕ) (more : List ℕ) (s : Avps)
    → 6 < fuel
    → length hostname < 128
    → t < 2 ^ 16
    → id < 2 ^ 16
    → (reads fuel env (sccrp 0x0100 hostname response t) more s
        ≡ done (record (before_avps s) {
          message = 2;
          mandatory = 128;
          hostname = hostname;
          recvchalresponse = response_read env response;
          far = t;
        }))
      × (reads fuel env (stopccn result error msg t) more s
          ≡ done (record (before_avps s) {
            message = 4;
            mandatory = 128;
            disc_cause_set = 1;
            disc_cause = 3;
            far = t;
          }))
      × (reads fuel env (icrp id) more s
          ≡ done (record (before_avps s) {
            message = 11;
            mandatory = 128;
            asession = id;
            session_far = id;
          }))
      × (reads fuel env iccn more s
          ≡ done (record (before_avps s) {
            message = 12;
            mandatory = 128;
            tx_connect_speed = 10000000;
          }))
      × (reads fuel env hello more s
          ≡ done (record (before_avps s) { message = 6; mandatory = 128 }))
sent_lem fuel env hostname response result error msg t id more s f h k i = (
  reads-sccrp fuel env hostname response t more s f h k,
  reads-stopccn fuel env result error msg t more s (omega arith) k,
  reads-icrp fuel env id more s (omega arith) i,
  reads-iccn fuel env more s (omega arith),
  reads-hello fuel env more s (omega arith),
)
