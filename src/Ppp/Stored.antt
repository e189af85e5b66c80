-- ===== src/Ppp/Stored.antt =====
-- The fields of the session that the options of an LCP ConfigReq set.
use l2tpns.Prelude.{
  ℕ, ◌+◌, ◌-◌, ◌%◌, ◌≡◌, ◌≢◌, refl, ap, ◌∙◌, List, [], ◌∷◌, Option, none, some, Bool, true, false,
  not, ◌&&◌, ltb, leb, ◌==◌, if◌then◌else◌, take, drop, get_or, arith, Bool-cases, inl, inr,
}
use l2tpns.Ppp.Options.{Policy, LinkOptions, Verdict, learn, auth_of, at16}

-- The value that the last of some options gives a field, or the value before.
abbrev pub value_or {ℓ} : {A : Type ℓ} → Option A → A → A
value_or none a = a
value_or (some b) a = b

abbrev pub last_value {ℓ} : {A : Type ℓ} → (List ℕ → Option A) → List (List ℕ × Verdict) → A → A
last_value f [] a = a
last_value f ((o, v) ∷ js) a = last_value f js (value_or (f o) a)

-- What an option says of each field: an MRU of 576 at least, an MRRU, the short sequence numbers,
-- an endpoint discriminator with its class and its address, and a way of authentication.
abbrev pub mru_said : List ℕ → Option ℕ
mru_said o = if get_or o 0 0 == 1 && leb 576 (at16 o 2) then some (at16 o 2) else none

abbrev pub mrru_said : List ℕ → Option ℕ
mrru_said o = if get_or o 0 0 == 17 then some (at16 o 2) else none

abbrev pub mssf_said : List ℕ → Option ℕ
mssf_said o = if get_or o 0 0 == 18 then some 1 else none

abbrev pub class_said : List ℕ → Option ℕ
class_said o = if get_or o 0 0 == 19 then some (get_or o 2 0) else none

abbrev pub address_said : List ℕ → Option (List ℕ)
address_said o =
    let n = (get_or o 1 0 + 253) % 256 in
    if get_or o 0 0 == 19 then some (take (if ltb n 20 then n else 20) (drop 3 o)) else none

abbrev pub authtype_said : Policy → List ℕ → Option ℕ
authtype_said c o = if get_or o 0 0 == 3 && not (auth_of c o == 0) then some (auth_of c o) else none

-- The fields after some options.
pub record Stores (c : Policy) (js : List (List ℕ × Verdict)) (before after : LinkOptions)
    : Type 0 where
  pub mru : after.mru ≡ last_value mru_said js before.mru
  pub mrru : after.mrru ≡ last_value mrru_said js before.mrru
  pub mssf : after.mssf ≡ last_value mssf_said js before.mssf
  pub epdis_class : after.epdis_class ≡ last_value class_said js before.epdis_class
  pub epdis_address : after.epdis_address ≡ last_value address_said js before.epdis_address
  pub lcp_authtype : after.lcp_authtype ≡ last_value (authtype_said c) js before.lcp_authtype

-- One option.
pub record StoresOne (c : Policy) (o : List ℕ) (before after : LinkOptions) : Type 0 where
  pub mru : after.mru ≡ value_or (mru_said o) before.mru
  pub mrru : after.mrru ≡ value_or (mrru_said o) before.mrru
  pub mssf : after.mssf ≡ value_or (mssf_said o) before.mssf
  pub epdis_class : after.epdis_class ≡ value_or (class_said o) before.epdis_class
  pub epdis_address : after.epdis_address ≡ value_or (address_said o) before.epdis_address
  pub lcp_authtype : after.lcp_authtype ≡ value_or (authtype_said c o) before.lcp_authtype

-- Types of options that are told apart.
other_type : (t u : ℕ) (b : Bool) → t ≢ u → (t == u && b) ≡ false
other_type t u b h = ground arith

and_type : (t u : ℕ) (b : Bool) → (t == u && b) ≡ true → t ≡ u
and_type t u b h = ground arith

pub learn-StoresOne : (c : Policy) (o : List ℕ) (s : LinkOptions) → StoresOne c o s (learn c o s)
unfolding learn auth_of
learn-StoresOne c o s =
    let t = get_or o 0 0 in
    let wide = (get_or o 1 0 + 256 - 3) % 256 in
    let n = (get_or o 1 0 + 253) % 256 in
    let same : (if ltb 20 wide then 20 else wide) ≡ (if ltb n 20 then n else 20) = ground arith in
    elim (Bool-cases (t == 1 && leb 576 (at16 o 2))) [
      | inl q1 ↦
          let q3 : (t == 3 && not (auth_of c o == 0)) ≡ false =
            other_type t 3 (not (auth_of c o == 0)) (λ e. ground arith) in
          let q17 : (t == 17) ≡ false = ground arith in
          let q18 : (t == 18) ≡ false = ground arith in
          let q19 : (t == 19) ≡ false = ground arith in
          rw q1 (record {
            mru = rw q1 refl;
            mrru = rw q17 refl;
            mssf = rw q18 refl;
            epdis_class = rw q19 refl;
            epdis_address = rw q19 refl;
            lcp_authtype = rw q3 refl;
          })
      | inr q1 ↦ elim (Bool-cases (t == 3 && not (auth_of c o == 0))) [
        | inl q3 ↦
            let three : t ≡ 3 = and_type t 3 (not (auth_of c o == 0)) q3 in
            let q17 : (t == 17) ≡ false = ground arith in
            let q18 : (t == 18) ≡ false = ground arith in
            let q19 : (t == 19) ≡ false = ground arith in
            rw (q1, q3)
              (record {
                mru = rw q1 refl;
                mrru = rw q17 refl;
                mssf = rw q18 refl;
                epdis_class = rw q19 refl;
                epdis_address = rw q19 refl;
                lcp_authtype = rw q3 refl;
              })
        | inr q3 ↦ elim (Bool-cases (t == 17)) [
          | inl q17 ↦
              let q18 : (t == 18) ≡ false = ground arith in
              let q19 : (t == 19) ≡ false = ground arith in
              rw (q1, q3, q17)
                (record {
                  mru = rw q1 refl;
                  mrru = rw q17 refl;
                  mssf = rw q18 refl;
                  epdis_class = rw q19 refl;
                  epdis_address = rw q19 refl;
                  lcp_authtype = rw q3 refl;
                })
          | inr q17 ↦ elim (Bool-cases (t == 18)) [
            | inl q18 ↦
                let q19 : (t == 19) ≡ false = ground arith in
                rw (q1, q3, q17, q18)
                  (record {
                    mru = rw q1 refl;
                    mrru = rw q17 refl;
                    mssf = rw q18 refl;
                    epdis_class = rw q19 refl;
                    epdis_address = rw q19 refl;
                    lcp_authtype = rw q3 refl;
                  })
            | inr q18 ↦ elim (Bool-cases (t == 19)) [
              | inl q19 ↦
                  rw (q1, q3, q17, q18, q19)
                    (record {
                      mru = rw q1 refl;
                      mrru = rw q17 refl;
                      mssf = rw q18 refl;
                      epdis_class = rw q19 refl;
                      epdis_address = rw q19 (ap (λ k. take k (drop 3 o)) same);
                      lcp_authtype = rw q3 refl;
                    })
              | inr q19 ↦
                  rw (q1, q3, q17, q18, q19)
                    (record {
                      mru = rw q1 refl;
                      mrru = rw q17 refl;
                      mssf = rw q18 refl;
                      epdis_class = rw q19 refl;
                      epdis_address = rw q19 refl;
                      lcp_authtype = rw q3 refl;
                    })
            ]
          ]
        ]
      ]
    ]

-- The options one after the other.
abbrev pub learns : Policy → List (List ℕ × Verdict) → LinkOptions → LinkOptions
learns c [] link = link
learns c ((o, v) ∷ js) link = learns c js (learn c o link)

pub learns-Stores :
    (c : Policy) (js : List (List ℕ × Verdict)) (s : LinkOptions) → Stores c js s (learns c js s)
learns-Stores c [] s = record {
  mru = refl;
  mrru = refl;
  mssf = refl;
  epdis_class = refl;
  epdis_address = refl;
  lcp_authtype = refl;
}
learns-Stores c ((o, v) ∷ js) s =
    let one = learn-StoresOne c o s in
    let rest = learns-Stores c js (learn c o s) in
    record {
      mru = rest.mru ∙ ap (last_value mru_said js) one.mru;
      mrru = rest.mrru ∙ ap (last_value mrru_said js) one.mrru;
      mssf = rest.mssf ∙ ap (last_value mssf_said js) one.mssf;
      epdis_class = rest.epdis_class ∙ ap (last_value class_said js) one.epdis_class;
      epdis_address = rest.epdis_address ∙ ap (last_value address_said js) one.epdis_address;
      lcp_authtype = rest.lcp_authtype ∙ ap (last_value (authtype_said c) js) one.lcp_authtype;
    }
