-- ===== src/Avp/RoundTrip.antt =====
-- Messages that are written by control16 and its like are read AVP by AVP.
use mathlib.Core.List.{append_assoc}
use l2tpns.Prelude.{
  ℕ, zero, suc, ◌+◌, ◌-◌, ◌/◌, ◌%◌, ◌^◌, ◌<◌, ◌≡◌, refl, sym, ap, ◌∙◌, List, [], ◌∷◌, ◌++◌, some,
  Bool, true, false, not, ◌||◌, ltb, ◌==◌, if◌then◌else◌, length, drop, length-append, arith,
  Bool-cases, inl, inr, if_true, if_false,
}
use l2tpns.Avp.{Env, Avps, get16, put16, mandatory_bit}
use l2tpns.Avp.Take.{take_avp}
use l2tpns.Avp.Read.{value_length, take_one, is_fatal, done, after_one, read_avps}

-- An AVP that is not hidden.
pub record Avp : Type 0 where
  pub mandatory : Bool
  pub type : ℕ
  pub value : List ℕ

abbrev pub Fits : List Avp → Type 0
Fits [] = Unit
Fits (a ∷ avps) = (length a.value < 1018) × (a.type < 2 ^ 16) × Fits avps

abbrev pub written : List Avp → List ℕ
written [] = []
written (a ∷ avps) =
    put16 (mandatory_bit a.mandatory + length a.value + 6)
    ++ put16 0
    ++ put16 a.type
    ++ a.value
    ++ written avps

-- The first byte of an AVP.
abbrev pub flags_of : Avp → ℕ
flags_of a = (mandatory_bit a.mandatory + length a.value + 6) / 256 % 256

-- The switch on one AVP after the other, until one is fatal; `more` is what follows in memory.
unfoldable pub take_all : Env → List Avp → List ℕ → Avps → Avps
take_all env [] more s = s
take_all env (a ∷ avps) more s =
    let rest =
      take_all env avps more
        (take_avp env (flags_of a) a.type (length a.value) (a.value ++ written avps ++ more) s) in
    if is_fatal s then s else rest

get16-put16 : (n : ℕ) (r : List ℕ) → n < 2 ^ 16 → get16 (put16 n ++ r) ≡ n
get16-put16 n r h = omega arith

mandatory_small : (m : Bool) (n : ℕ) → n < 1018 → mandatory_bit m + n + 6 < 2 ^ 16
mandatory_small true n h = omega arith
mandatory_small false n h = omega arith

length_bits : (m : Bool) (n : ℕ) → n < 1018 → (mandatory_bit m + n + 6) % 0x400 ≡ n + 6
length_bits true n h = omega arith
length_bits false n h = omega arith

flag_bits :
    (m : Bool) (n : ℕ)
    → n < 1018
    → let flags = (mandatory_bit m + n + 6) / 256 % 256 in
      (flags / 4 % 16 ≡ 0) × (flags / 64 % 2 ≡ 0)
flag_bits true n h = (omega arith, omega arith)
flag_bits false n h = (omega arith, omega arith)

drop_header :
    (n k a b c d e f : ℕ) (r : List ℕ) → n ≡ k + 6 → drop n (a ∷ b ∷ c ∷ d ∷ e ∷ f ∷ r) ≡ drop k r
drop_header n k a b c d e f r h =
    let six : n ≡ suc (suc (suc (suc (suc (suc k))))) = omega arith in rw six refl

drop-append : (v r : List ℕ) → drop (length v) (v ++ r) ≡ r
drop-append [] r = refl
drop-append (x ∷ v) r = drop-append v r

same_avp :
    (env : Env) (flags : ℕ) (r : List ℕ) (s : Avps) {t u n m : ℕ}
    → t ≡ u
    → n ≡ m
    → take_avp env flags t n r s ≡ take_avp env flags u m r s
same_avp env flags r s e f = cc

-- The AVP at the head of a message is the one that was written.
take_one_written :
    (env : Env) (a : Avp) (r : List ℕ) (s : Avps)
    → length a.value < 1018
    → a.type < 2 ^ 16
    → take_one env
        (put16 (mandatory_bit a.mandatory + length a.value + 6) ++ put16 0 ++ put16 a.type ++ r)
        (length a.value + 6)
        s
      ≡ some (take_avp env (flags_of a) a.type (length a.value) r s)
unfolding take_one
take_one_written env a r s short typed =
    let (reserved, hidden) = flag_bits a.mandatory (length a.value) short in
    let e1 : not (flags_of a / 4 % 16 == 0) ≡ false = ground arith in
    let e3 : (flags_of a / 64 % 2 == 1) ≡ false = ground arith in
    let type : get16 (put16 a.type ++ r) ≡ a.type = get16-put16 a.type r typed in
    let len : value_length (length a.value + 6) ≡ length a.value = omega arith in
    if_false _ _ _ e1 ∙ if_false _ _ _ e3 ∙ ap some (same_avp env (flags_of a) r s type len)

same_read :
    (env : Env) (fuel : ℕ) (s : Avps) {p q : List ℕ} {l m : ℕ}
    → p ≡ q
    → l ≡ m
    → read_avps fuel env p l s ≡ read_avps fuel env q m s
same_read env fuel s e f = cc

-- A message of AVPs that fit and are not hidden, as the writers make it, is read AVP by AVP, by the
-- switch on the type and value of each, until one is refused that is mandatory; and the loop ends
-- after as many rounds.
pub read_avps-written :
    (env : Env) (avps : List Avp) (more : List ℕ) (s : Avps) (fuel : ℕ)
    → Fits avps
    → length avps < fuel
    → read_avps fuel env (written avps ++ more) (length (written avps)) s
      ≡ done (take_all env avps more s)
unfolding read_avps take_all
read_avps-written env avps more s zero fit h = absurd (omega arith)
read_avps-written env [] more s (suc fuel) fit h = refl
read_avps-written env (a ∷ avps) more s (suc fuel) (short, typed, fit) h =
    let v = a.value in
    let p = written (a ∷ avps) ++ more in
    let n = get16 p % 0x400 in
    let r = (v ++ written avps) ++ more in
    let word : get16 p ≡ mandatory_bit a.mandatory + length v + 6 =
      get16-put16 (mandatory_bit a.mandatory + length v + 6) (put16 0 ++ put16 a.type ++ r)
        (mandatory_small a.mandatory (length v) short) in
    let size : n ≡ length v + 6 =
      ap (λ w. w % 0x400) word ∙ length_bits a.mandatory (length v) short in
    let l : length (written (a ∷ avps)) ≡ length v + 6 + length (written avps) =
      omega (arith, length-append v (written avps)) in
    elim (Bool-cases (is_fatal s)) [
      | inl dead ↦
          let stop : (length (written (a ∷ avps)) == 0 || is_fatal s) ≡ true = ground arith in
          if_true _ _ _ stop ∙ ap done (sym (if_true (is_fatal s) _ _ dead))
      | inr alive ↦
          let go : (length (written (a ∷ avps)) == 0 || is_fatal s) ≡ false = ground arith in
          let fits : ltb (length (written (a ∷ avps))) n ≡ false = ground arith in
          let s' = take_avp env (flags_of a) a.type (length v) r s in
          let one : take_one env p n s ≡ some s' =
            ap (λ m. take_one env p m s) size ∙ take_one_written env a r s short typed in
          let on : drop n p ≡ written avps ++ more =
            drop_header n (length v) _ _ _ _ _ _ r size
            ∙ ap (drop (length v)) (append_assoc v (written avps) more)
            ∙ drop-append v (written avps ++ more) in
          let left : length (written (a ∷ avps)) - n ≡ length (written avps) = omega arith in
          if_false _ _ _ go
          ∙ if_false _ _ _ fits
          ∙ ap (λ o. after_one o (read_avps fuel env (drop n p) (length (written (a ∷ avps)) - n)))
              one
          ∙ same_read env fuel s' on left
          ∙ read_avps-written env avps more s' fuel fit (omega arith)
          ∙ ap done (sym (if_false (is_fatal s) _ _ alive))
    ]
