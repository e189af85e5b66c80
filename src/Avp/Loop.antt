-- ===== src/Avp/Loop.antt =====
-- When the loop over the AVPs ends.
use l2tpns.Prelude.{
  ℕ, zero, suc, ◌-◌, ◌%◌, ◌≤◌, ◌<◌, ◌≡◌, ◌≢◌, ◌⊎◌, refl, sym, ap, ◌∙◌, List, ◌∷◌, Option, none,
  some, false, ◌||◌, ltb, ◌==◌, drop, arith, Bool-cases, inl, inr, if_true, if_false, ℕ_discrete,
}
use l2tpns.Avp.{Env, Avps, get16}
use l2tpns.Avp.Take.{take_avp}
use l2tpns.Avp.Read.{
  take_one, is_fatal, Reading, invalid, done, overrun, spent, after_one, read_avps,
}

-- From AVP to AVP, one is reached that has the length 0.
pub data Blocked : List ℕ → ℕ → Type 0 where
  here : {p : List ℕ} {l : ℕ} → l ≢ 0 → get16 p % 0x400 ≡ 0 → Blocked p l
  past :
      {p : List ℕ} {l : ℕ}
      → get16 p % 0x400 ≤ l
      → Blocked (drop (get16 p % 0x400) p) (l - get16 p % 0x400)
      → Blocked p l

done_apart : {s : Avps} → done s ≢ spent
done_apart e = cc

invalid_apart : {s : Avps} → invalid s ≢ spent
invalid_apart e = cc

is_spent : (r : Reading) → (r ≡ spent) ⊎ (r ≢ spent)
is_spent (invalid s) = inr (λ e. cc)
is_spent (done s) = inr done_apart
is_spent overrun = inr (λ e. cc)
is_spent spent = inl refl

goes_on :
    (o : Option Avps) (more : Avps → Reading)
    → after_one o more ≡ spent
    → (s : Avps) × (more s ≡ spent)
goes_on none more e = absurd (cc)
goes_on (some s) more e = (s, e)

ends :
    (env : Env) (fuel : ℕ) (p : List ℕ) (l : ℕ) (s : Avps)
    → l < fuel
    → read_avps fuel env p l s ≡ spent
    → Blocked p l
unfolding read_avps
ends env zero p l s h e = absurd (omega arith)
ends env (suc fuel) p l s h e =
    let n = get16 p % 0x400 in
    let more = after_one (take_one env p n s) (read_avps fuel env (drop n p) (l - n)) in
    elim (Bool-cases (l == 0 || is_fatal s)) [
      | inl stop ↦ absurd (done_apart (sym (if_true _ (done s) _ stop) ∙ e))
      | inr go ↦ elim (Bool-cases (ltb l n)) [
        | inl long ↦
            absurd
              (invalid_apart (sym (if_false _ (done s) _ go ∙ if_true _ (invalid s) more long) ∙ e))
        | inr fits ↦
            let some_left : l ≢ 0 = ground arith in
            elim (ℕ_discrete n 0) [
              | yes z ↦ here some_left z
              | no nz ↦
                  let (s', on) =
                    goes_on (take_one env p n s) (read_avps fuel env (drop n p) (l - n))
                      (sym (if_false _ (done s) _ go ∙ if_false _ (invalid s) more fits) ∙ e) in
                  past (ground arith) (ends env fuel (drop n p) (l - n) s' (omega arith) on)
            ]
      ]
    ]

minus_zero : (l : ℕ) → l - 0 ≡ l
minus_zero l = omega arith

endless :
    (env : Env) (fuel : ℕ) (p : List ℕ) (l : ℕ) (s : Avps)
    → l ≢ 0
    → is_fatal s ≡ false
    → read_avps fuel env (0 ∷ 0 ∷ 0 ∷ 0 ∷ 0 ∷ 0 ∷ p) l s ≡ spent
unfolding read_avps take_one take_avp
endless env zero p l s h f = refl
endless env (suc fuel) p l s h f =
    let go : (l == 0 || is_fatal s) ≡ false = ground arith in
    let fits : ltb l 0 ≡ false = ground arith in
    let s' = record s { message = get16 p; mandatory = 0 } in
    if_false _ _ _ go
    ∙ if_false _ _ _ fits
    ∙ ap (λ k. read_avps fuel env (0 ∷ 0 ∷ 0 ∷ 0 ∷ 0 ∷ 0 ∷ p) k s') (minus_zero l)
    ∙ endless env fuel p l s' h f

-- For more rounds than a message has bytes, where nothing fatal was read before and the message is
-- not empty: the loop over it has ended, unless from AVP to AVP one is reached that has the length
-- 0; and with an AVP of the length 0, the type 0 and the vendor 0 put in front of its bytes, the
-- loop is still running.
pub read_avps_ends :
    (env : Env) (fuel : ℕ) (p : List ℕ) (l : ℕ) (s : Avps)
    → l < fuel
    → l ≢ 0
    → is_fatal s ≡ false
    → ((read_avps fuel env p l s ≢ spent) ⊎ Blocked p l)
      × (read_avps fuel env (0 ∷ 0 ∷ 0 ∷ 0 ∷ 0 ∷ 0 ∷ p) l s ≡ spent)
read_avps_ends env fuel p l s more some_left ok = (
  elim (is_spent (read_avps fuel env p l s)) [
    | inl e ↦ inr (ends env fuel p l s more e)
    | inr n ↦ inl n
  ],
  endless env fuel p l s some_left ok,
)
