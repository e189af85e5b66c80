-- ===== src/Avp/Answers.antt =====
-- What the other end reads in the messages that are sent.
use mathlib.Core.List.{append_assoc}
use l2tpns.Prelude.{
  ℕ, ◌+◌, ◌*◌, ◌/◌, ◌%◌, ◌^◌, ◌<◌, ◌≡◌, refl, ap, ◌∙◌, List, [], ◌∷◌, ◌++◌, Option, none, some,
  Bool, true, false, length, take, length-take, arith, if_true, ltb, if◌then◌else◌,
}
use l2tpns.Avp.{Env, Avps, before_avps, put16, put32}
use l2tpns.Avp.Take.{copied, challenge_response, take_avp}
use l2tpns.Avp.Read.{done, read_avps}
use l2tpns.Avp.Messages.{sccrp}
use l2tpns.Avp.RoundTrip.{Avp, Fits, written, take_all, read_avps-written}
use l2tpns.Avp.Writers.{avp}

take-append : (v r : List ℕ) → take (length v) (v ++ r) ≡ v
take-append [] r = refl
take-append (x ∷ v) r = ap (λ l. x ∷ l) (take-append v r)

copied-append :
    (size : ℕ) (v q r : List ℕ) → length v < size → copied size (length v) ((v ++ q) ++ r) ≡ v
copied-append size v q r h =
    let fits : ltb (length v) size ≡ true = ground arith in
    ap (λ n. take n ((v ++ q) ++ r)) (if_true _ _ _ fits)
    ∙ ap (take (length v)) (append_assoc v q r)
    ∙ take-append v (q ++ r)

pub word : (n : ℕ) → n < 2 ^ 16 → n / 256 % 256 * 256 + n % 256 ≡ n
word n h = omega arith

-- A message that is a list of AVPs.
pub read-written :
    (env : Env) (avps : List Avp) (m more : List ℕ) (s : Avps) (fuel : ℕ)
    → m ≡ written avps
    → Fits avps
    → length avps < fuel
    → read_avps fuel env (m ++ more) (length m) s ≡ done (take_all env avps more s)
read-written env avps m more s fuel e fit h =
    ap (λ w. read_avps fuel env (w ++ more) (length w) s) e
    ∙ read_avps-written env avps more s fuel fit h

abbrev pub response_avp : Option (List ℕ) → List Avp
response_avp none = []
response_avp (some r) = avp true 13 (take 16 r) ∷ []

abbrev pub sccrp_avps : List ℕ → Option (List ℕ) → ℕ → List Avp
sccrp_avps hostname response t =
    avp true 0 (put16 2)
    ∷ avp true 2 (put16 0x0100)
    ∷ avp true 3 (put32 3)
    ∷ avp true 7 hostname
    ∷ (response_avp response ++ avp true 9 (put16 t) ∷ [])

pub sccrp-avps :
    (hostname : List ℕ) (response : Option (List ℕ)) (t : ℕ)
    → sccrp 0x0100 hostname response t ≡ written (sccrp_avps hostname response t)
unfolding sccrp
sccrp-avps hostname none t = refl
sccrp-avps hostname (some r) t =
    let first =
      written (avp true 0 (put16 2) ∷ avp true 2 (put16 0x0100) ∷ avp true 3 (put32 3) ∷ [])
      ++ (put16 (0x8000 + length hostname + 6) ++ put16 0 ++ put16 7) in
    let second = put16 (0x8000 + length (take 16 r) + 6) ++ put16 0 ++ put16 13 ++ take 16 r in
    ap (λ x. first ++ x) (append_assoc hostname second (written (avp true 9 (put16 t) ∷ [])))

abbrev pub response_read : Env → Option (List ℕ) → Option (List ℕ)
response_read env none = none
response_read env (some r) = if env.isremotelns then some (take 16 r) else none

set_response :
    (b : Bool) (s : Avps) {v w : List ℕ}
    → v ≡ w
    → s.recvchalresponse ≡ none
    → (if b then record s { recvchalresponse = some v } else s)
      ≡ record s { recvchalresponse = if b then some w else none }
set_response true s e f = ap (λ x. record s { recvchalresponse = some x }) e
set_response false s e f = ap (λ x. record s { recvchalresponse = x }) f

read_response :
    (env : Env) (flags : ℕ) (r q : List ℕ) (s : Avps)
    → s.recvchalresponse ≡ none
    → take_avp env flags 13 (length (take 16 r)) (take 16 r ++ q) s
      ≡ record s { recvchalresponse = response_read env (some r) }
unfolding take_avp challenge_response
read_response env flags r q s e =
    let n : length (take 16 r) < 17 = omega (arith, length-take 16 r) in
    let short : ltb (length (take 16 r)) 17 ≡ true = ground arith in
    let v = ap (λ k. take k (take 16 r ++ q)) (if_true _ _ _ short) ∙ take-append (take 16 r) q in
    set_response env.isremotelns s v e

same_start :
    (s : Avps) (recv : Option (List ℕ)) {v w : List ℕ} {n m : ℕ}
    → v ≡ w
    → n ≡ m
    → record s { message = 2; mandatory = 128; hostname = v; recvchalresponse = recv; far = n }
      ≡ record s { message = 2; mandatory = 128; hostname = w; recvchalresponse = recv; far = m }
same_start s recv e f = cc

pub take_sccrp :
    (env : Env) (hostname more : List ℕ) (response : Option (List ℕ)) (t : ℕ) (s : Avps)
    → length hostname < 128
    → t < 2 ^ 16
    → take_all env (sccrp_avps hostname response t) more (before_avps s) ≡ record (before_avps s) {
      message = 2;
      mandatory = 128;
      hostname = hostname;
      recvchalresponse = response_read env response;
      far = t;
    }
unfolding take_all take_avp
take_sccrp env hostname more none t s h k =
    same_start (before_avps s) none
      (copied-append 128 hostname (written (avp true 9 (put16 t) ∷ [])) more h) (word t k)
take_sccrp env hostname more (some r) t s h k =
    let last = avp true 9 (put16 t) ∷ [] in
    let q = written (avp true 13 (take 16 r) ∷ last) in
    let s' = record (before_avps s) {
      message = 2;
      mandatory = 128;
      hostname = copied 128 (length hostname) ((hostname ++ q) ++ more);
    } in
    ap (λ b. take_all env last more (take_avp env 0 13 (length (take 16 r)) b s'))
      (append_assoc (take 16 r) (written last) more)
    ∙ ap (take_all env last more) (read_response env 0 r (written last ++ more) s' refl)
    ∙ same_start (before_avps s) (response_read env (some r)) (copied-append 128 hostname q more h)
        (word t k)
