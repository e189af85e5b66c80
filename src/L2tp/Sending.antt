-- ===== src/L2tp/Sending.antt =====
-- What sending leaves of the tunnel.
use mathlib.Core.List.{append-nil, append_assoc}
use l2tpns.Prelude.{ℕ, zero, suc, ◌≡◌, refl, sym, ap, ◌∙◌, List, [], ◌∷◌, ◌++◌, true, take}
use l2tpns.L2tp.{Control, Packet, Tunnel, Clock, tunnelsend, send_first}

abbrev pub stamped : ℕ → List Control → List Packet
stamped nr [] = []
stamped nr (c ∷ q) = record { control = c; nr = nr } ∷ stamped nr q

-- tunnelsend with an address.
pub record Out (t t' : Tunnel) (q : List Control) : Type 0 where
  pub sent : t'.sent ≡ t.sent ++ stamped t.nr q
  pub controls : t'.controls ≡ t.controls
  pub controlc : t'.controlc ≡ t.controlc
  pub ns : t'.ns ≡ t.ns
  pub nr : t'.nr ≡ t.nr
  pub window : t'.window ≡ t.window
  pub has_ip : t'.has_ip ≡ t.has_ip

stamped-append : (nr : ℕ) (q r : List Control) → stamped nr (q ++ r) ≡ stamped nr q ++ stamped nr r
stamped-append nr [] r = refl
stamped-append nr (c ∷ q) r = rw (stamped-append nr q r) refl

pub Out-self : (t : Tunnel) → Out t t []
Out-self t = record {
  sent = sym (append-nil t.sent);
  controls = refl;
  controlc = refl;
  ns = refl;
  nr = refl;
  window = refl;
  has_ip = refl;
}

pub Out-trans : (t u v : Tunnel) (q r : List Control) → Out t u q → Out u v r → Out t v (q ++ r)
Out-trans t u v q r a b = record {
  sent =
      b.sent
      ∙ ap (λ x. x ++ stamped u.nr r) a.sent
      ∙ ap (λ n. (t.sent ++ stamped t.nr q) ++ stamped n r) a.nr
      ∙ append_assoc t.sent (stamped t.nr q) (stamped t.nr r)
      ∙ ap (λ x. t.sent ++ x) (sym (stamped-append t.nr q r));
  controls = b.controls ∙ a.controls;
  controlc = b.controlc ∙ a.controlc;
  ns = b.ns ∙ a.ns;
  nr = b.nr ∙ a.nr;
  window = b.window ∙ a.window;
  has_ip = b.has_ip ∙ a.has_ip;
}

pub tunnelsend-Out :
    (now : Clock) (t : Tunnel) (c : Control) (n : ℕ)
    → t.has_ip ≡ true
    → Out t (tunnelsend now (record t { try = n }) c) (c ∷ [])
unfolding tunnelsend
tunnelsend-Out now t c n ip = rw ip (record {
  sent = refl;
  controls = refl;
  controlc = refl;
  ns = refl;
  nr = refl;
  window = refl;
  has_ip = refl;
})

pub send_first-Out :
    (now : Clock) (q : List Control) (n : ℕ) (t : Tunnel)
    → t.has_ip ≡ true
    → Out t (send_first now q n t) (take n q)
unfolding send_first
send_first-Out now [] zero t ip = Out-self t
send_first-Out now [] (suc n) t ip = Out-self t
send_first-Out now (c ∷ q) zero t ip = Out-self t
send_first-Out now (c ∷ q) (suc n) t ip =
    let u = tunnelsend now (record t { try = 0 }) c in
    let out = tunnelsend-Out now t c 0 ip in
    Out-trans t u (send_first now q n u) (c ∷ []) (take n q) out
      (send_first-Out now q n u (out.has_ip ∙ ip))
