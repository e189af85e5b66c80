-- ===== src/Ppp/Listed.antt =====
-- The options of an LCP ConfigReq as a list.
use mathlib.Core.List.{append_assoc}
use l2tpns.Prelude.{
  ℕ, zero, suc, ◌+◌, ◌-◌, ◌≤◌, ◌≡◌, ◌≢◌, refl, sym, ap, ◌∙◌, List, [], ◌∷◌, ◌++◌, true, false, not,
  ◌&&◌, ◌||◌, ltb, ◌==◌, if◌then◌else◌, length, drop, length-append, arith, if_true, if_false,
  Bool-cases, inl, inr,
}
use l2tpns.Ppp.Options.{Policy, Verdict, verdict}
use l2tpns.Ppp.Judged.{judged}

-- An option: its type, and its contents, the bytes behind the length byte.
pub record Listed : Type 0 where
  pub type : ℕ
  pub content : List ℕ

abbrev pub encoded : List Listed → List ℕ
encoded [] = []
encoded (p ∷ os) = p.type ∷ (length p.content + 2) ∷ p.content ++ encoded os

-- No option has type 0.
abbrev pub Typed : List Listed → Type 0
Typed [] = Unit {0}
Typed (p ∷ os) = (p.type ≢ 0) × Typed os

-- The options with what they deserve, each with the bytes from it on; `more` is behind the last.
-- A last one that has no contents is left out.
abbrev pub looked : Policy → List ℕ → List Listed → List (List ℕ × Verdict)
looked c more [] = []
looked c more (p ∷ os) =
    let o = encoded (p ∷ os) ++ more in
    if length p.content == 0 && length (encoded os) == 0
    then []
    else (o, verdict c o) ∷ looked c more os

drop_data : (a b : List ℕ) (x y : ℕ) → drop (length a + 2) (x ∷ y ∷ a ++ b) ≡ b
drop_data a b x y =
    let two : length a + 2 ≡ suc (suc (length a)) = omega arith in
    ap (λ k. drop k (x ∷ y ∷ a ++ b)) two ∙ behind a
  where
    behind : (a : List ℕ) → drop (length a) (a ++ b) ≡ b
    behind [] = refl
    behind (z ∷ a) = behind a

-- The loop comes to exactly these options.
pub judged-encoded :
    (fuel : ℕ) (c : Policy) (os : List Listed) (more : List ℕ)
    → Typed os
    → length (encoded os) ≤ fuel
    → judged fuel c (encoded os ++ more) (length (encoded os)) ≡ looked c more os
unfolding judged
judged-encoded zero c [] more t h = refl
judged-encoded (suc f) c [] more t h = refl
judged-encoded zero c (p ∷ os) more t h = absurd (omega arith)
judged-encoded (suc f) c (p ∷ os) more (typed, t) h =
    let o = encoded (p ∷ os) ++ more in
    let x = length (encoded (p ∷ os)) in
    let len = length p.content + 2 in
    let total = length-append p.content (encoded os) in
    let behind : drop len o ≡ encoded os ++ more =
      ap (λ l. drop len (p.type ∷ len ∷ l)) (append_assoc p.content (encoded os) more)
      ∙ drop_data p.content (encoded os ++ more) p.type len in
    let left : x - len ≡ length (encoded os) = omega (arith, total) in
    let rest =
      ap (λ l. judged f c l (x - len)) behind
      ∙ ap (judged f c (encoded os ++ more)) left
      ∙ judged-encoded f c os more t (omega (arith, total)) in
    elim (Bool-cases (length p.content == 0 && length (encoded os) == 0)) [
      | inl end ↦
          let stop : (not (ltb 2 x) || len == 0 || p.type == 0 || ltb x len) ≡ true =
            ground (arith, total) in
          if_true _ [] _ stop ∙ sym (if_true _ [] _ end)
      | inr on ↦
          let go : (not (ltb 2 x) || len == 0 || p.type == 0 || ltb x len) ≡ false =
            ground (arith, total) in
          if_false _ [] _ go ∙ ap (λ js. (o, verdict c o) ∷ js) rest ∙ sym (if_false _ [] _ on)
    ]
