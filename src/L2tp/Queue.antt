-- ===== src/L2tp/Queue.antt =====
-- The queue of control messages under acknowledgements.
use mathlib.Core.Path.{subst}
use mathlib.Core.List.{append-nil}
use l2tpns.Prelude.{
  ℕ, zero, suc, ◌-◌, ◌≤◌, ◌≡◌, ◌≢◌, inl, inr, refl, sym, ap, ◌∙◌, List, [], ◌∷◌, ◌++◌, true, false,
  not, ltb, ◌==◌, if◌then◌else◌, length, take, drop, length-drop, arith, Bool-cases, pick, if_true,
  if_false,
}
use l2tpns.L2tp.{
  Control, Tunnel, Clock, add16, controlnull, clear_acked, send_first, after_clear, take_ack,
  receive,
}
use l2tpns.L2tp.Sending.{stamped, send_first-Out}

-- The messages that come into a window of `w` when the first `k` are acknowledged.
abbrev pub newly : ℕ → ℕ → List Control → List Control
newly w k q = take (w - (w - k)) (drop (w - k) (drop k q))

none_newly : (w k n : ℕ) (q : List Control) → length q ≤ n → take w (drop n q) ≡ []
none_newly zero k n q h = refl
none_newly (suc w) k zero [] h = refl
none_newly (suc w) k zero (c ∷ q) h = absurd (omega arith)
none_newly (suc w) k (suc n) [] h = refl
none_newly (suc w) k (suc n) (c ∷ q) h = none_newly (suc w) k n q (omega arith)

-- What take_ack leaves, where the first `k` messages are acknowledged.
pub record Advanced (t t' : Tunnel) (got l k : ℕ) : Type 0 where
  pub controls : t'.controls ≡ drop k t.controls
  pub controlc : t'.controlc ≡ length t.controls - k
  pub ns : t'.ns ≡ t.ns
  pub nr : t'.nr ≡ (if l == 0 then t.nr else add16 got 1)
  pub window : t'.window ≡ t.window
  pub has_ip : t'.has_ip ≡ t.has_ip
  pub sent : t'.sent ≡ t.sent ++ stamped t'.nr (newly t.window k t.controls)

Advanced-retry :
    (t t' : Tunnel) (got l k n : ℕ)
    → Advanced t t' got l k
    → Advanced t (record t' { retry = n }) got l k
Advanced-retry t t' got l k n a = record {
  controls = a.controls;
  controlc = a.controlc;
  ns = a.ns;
  nr = a.nr;
  window = a.window;
  has_ip = a.has_ip;
  sent = a.sent;
}

after_clear-Advanced :
    (now : Clock) (t : Tunnel) (got l k : ℕ)
    → t.has_ip ≡ true
    → Advanced t
        (after_clear now t got l
          (record { controls = drop k t.controls; controlc = length t.controls - k; gone = k }))
        got
        l
        k
unfolding after_clear
after_clear-Advanced now t got l k ip =
    let q = drop k t.controls in
    let n = length t.controls - k in
    let skip = t.window - k in
    let cleared = record t {
      controls = q;
      controlc = n;
      try = if k == 0 then t.try else 0;
      nr = if l == 0 then t.nr else add16 got 1;
    } in
    let sent = send_first now (drop skip q) (t.window - skip) cleared in
    let P : Tunnel → Type 0 = λ u. Advanced t u got l k in
    let moved : P (if ltb skip n then sent else cleared) = elim (Bool-cases (ltb skip n)) [
      | inl more ↦
          let out = send_first-Out now (drop skip q) (t.window - skip) cleared ip in
          subst P (sym (if_true (ltb skip n) sent cleared more)) (record {
            controls = out.controls;
            controlc = out.controlc;
            ns = out.ns;
            nr = out.nr;
            window = out.window;
            has_ip = out.has_ip;
            sent =
                out.sent ∙ ap (λ m. t.sent ++ stamped m (newly t.window k t.controls)) (sym out.nr);
          })
      | inr full ↦
          let short : length q ≤ skip = let e = length-drop k t.controls in ground arith in
          let none_ = none_newly (t.window - skip) k skip q short in
          subst P (sym (if_false (ltb skip n) sent cleared full)) (record {
            controls = refl;
            controlc = refl;
            ns = refl;
            nr = refl;
            window = refl;
            has_ip = refl;
            sent = sym (append-nil t.sent) ∙ ap (λ x. t.sent ++ stamped cleared.nr x) (sym none_);
          })
    ] in
    pick P (n == 0) _ _ (Advanced-retry t _ got l k 0 moved) moved

pub take_ack-Advanced :
    (now : Clock) (t : Tunnel) (got nr l k : ℕ)
    → t.has_ip ≡ true
    → clear_acked t.controls t.ns nr t.controlc 0
      ≡ record { controls = drop k t.controls; controlc = length t.controls - k; gone = k }
    → Advanced t (take_ack now t got nr l) got l k
unfolding take_ack
take_ack-Advanced now t got nr l k ip e =
    subst (λ a. Advanced t (after_clear now t got l a) got l k) (sym e)
      (after_clear-Advanced now t got l k ip)

-- The message without AVPs that carries only an acknowledgement.
abbrev pub bare : Tunnel → Control
bare t = record { far = t.far; session = 0; ns = t.ns; avps = [] }

pub receive_expected :
    (now : Clock) (t : Tunnel) (got nr l : ℕ)
    → got ≡ t.nr
    → receive now t got nr l ≡ (take_ack now t got nr l, not (l == 0))
unfolding receive
receive_expected now t got nr l e =
    let same : not (got == t.nr) ≡ false = ground arith in if_false (not (got == t.nr)) _ _ same

pub receive_other :
    (now : Clock) (t : Tunnel) (got nr l : ℕ)
    → got ≢ t.nr
    → receive now t got nr l ≡ (if l == 0 then t else controlnull now t, false)
unfolding receive
receive_other now t got nr l ne =
    let other : not (got == t.nr) ≡ true = ground arith in if_true (not (got == t.nr)) _ _ other
