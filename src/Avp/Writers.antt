-- ===== src/Avp/Writers.antt =====
-- The writers append the AVP that they are for.
use mathlib.Core.List.{append-nil, append_assoc}
use l2tpns.Prelude.{ℕ, ◌+◌, ◌≡◌, refl, sym, ap, ◌∙◌, List, [], ◌∷◌, ◌++◌, Bool, true, false, length}
use l2tpns.Avp.{put16, put32, mandatory_bit, control16, control32, controls, controlb, controlnew}
use l2tpns.Avp.RoundTrip.{Avp, Fits, written}

pub written-append : (xs ys : List Avp) → written (xs ++ ys) ≡ written xs ++ written ys
written-append [] ys = refl
written-append (a ∷ xs) ys =
    let head =
      put16 (mandatory_bit a.mandatory + length a.value + 6)
      ++ put16 0
      ++ put16 a.type
      ++ a.value in
    ap (λ x. head ++ x) (written-append xs ys) ∙ sym (append_assoc head (written xs) (written ys))

pub Fits-append : (xs ys : List Avp) → Fits xs → Fits ys → Fits (xs ++ ys)
Fits-append [] ys f g = g
Fits-append (a ∷ xs) ys (short, typed, f) g = (short, typed, Fits-append xs ys f g)

abbrev pub avp : Bool → ℕ → List ℕ → Avp
avp m type value = record { mandatory = m; type = type; value = value }

one_more :
    (xs : List Avp) (a : Avp)
    → written xs
        ++ (put16 (mandatory_bit a.mandatory + length a.value + 6)
            ++ put16 0
            ++ put16 a.type
            ++ a.value)
      ≡ written (xs ++ a ∷ [])
one_more xs a =
    let head =
      put16 (mandatory_bit a.mandatory + length a.value + 6)
      ++ put16 0
      ++ put16 a.type
      ++ a.value in
    ap (λ x. written xs ++ x) (sym (append-nil head)) ∙ sym (written-append xs (a ∷ []))

pub controlb_lem :
    (xs : List Avp) (type : ℕ) (val : List ℕ) (m : Bool)
    → controlb (written xs) type val m ≡ written (xs ++ avp m type val ∷ [])
unfolding controlb
controlb_lem xs type val m = one_more xs (avp m type val)

pub controls_lem :
    (xs : List Avp) (type : ℕ) (val : List ℕ) (m : Bool)
    → controls (written xs) type val m ≡ written (xs ++ avp m type val ∷ [])
unfolding controls
controls_lem xs type val m = one_more xs (avp m type val)

pub control16_lem :
    (xs : List Avp) (type val : ℕ) (m : Bool)
    → control16 (written xs) type val m ≡ written (xs ++ avp m type (put16 val) ∷ [])
unfolding control16
control16_lem xs type val true = one_more xs (avp true type (put16 val))
control16_lem xs type val false = one_more xs (avp false type (put16 val))

pub control32_lem :
    (xs : List Avp) (type val : ℕ) (m : Bool)
    → control32 (written xs) type val m ≡ written (xs ++ avp m type (put32 val) ∷ [])
unfolding control32
control32_lem xs type val true = one_more xs (avp true type (put32 val))
control32_lem xs type val false = one_more xs (avp false type (put32 val))

pub controlnew_lem : (mtype : ℕ) → controlnew mtype ≡ written (avp true 0 (put16 mtype) ∷ [])
unfolding controlnew
controlnew_lem mtype = control16_lem [] 0 mtype true
