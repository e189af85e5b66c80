-- ===== src/L2tp/Arrive.antt =====
-- A packet arrives at an end of a tunnel.
use mathlib.Core.Path.{subst}
use mathlib.Core.List.{append_assoc}
use l2tpns.Prelude.{
  ℕ, ◌+◌, ◌-◌, ◌^◌, ◌≤◌, ◌<◌, ◌≡◌, ◌⊎◌, inl, inr, refl, sym, ap, ◌∙◌, List, [], ◌∷◌, ◌++◌, some,
  Bool, false, not, if◌then◌else◌, length, get_elem?, drop, length-append, length-drop, arith,
  ℕ_discrete, pick, if_false, ◌==◌,
}
use l2tpns.L2tp.{Packet, Tunnel, Clock, add16, clear_acked, take_ack}
use l2tpns.L2tp.Acks.{same_acked, clear_acked_small}
use l2tpns.L2tp.Queue.{receive_expected, receive_other, Advanced, take_ack-Advanced, newly}
use l2tpns.L2tp.Delivery.{Peer, InList, arrive}
use l2tpns.L2tp.Good.{
  Numbered, Carries, IsPrefix, Good, Numbered-length, Numbered-drop, next_rest, Numbered-Carries,
  InList-take, InList-drop, sound_more,
}
use l2tpns.L2tp.Ends.{controlnull-Good}

-- The first `k` messages of the queue are acknowledged, and some more are accepted.
Advanced-Good :
    (a : Peer) (m : ℕ) (t' : Tunnel) (got l k : ℕ) (accepted : List (List ℕ)) (g : Good a m)
    → Advanced a.tunnel t' got l k
    → k ≤ length a.tunnel.controls
    → g.base + k ≤ m
    → t'.nr ≡ length accepted
    → length a.accepted ≤ length accepted
    → Good (record a { tunnel = t'; accepted = accepted }) m
Advanced-Good a m t' got l k accepted g d le up nr more =
    let q = a.tunnel.controls in
    let w = a.tunnel.window in
    let lc = length-drop k q in
    let cnt = d.controlc in
    let con : length t'.controls ≡ length (drop k q) = ap length d.controls in
    record {
      ip = d.has_ip ∙ g.ip;
      count = omega arith;
      base = g.base + k;
      base_le = up;
      m_le = g.m_le;
      queue =
          subst (Numbered a.added (g.base + k)) (sym d.controls)
            (Numbered-drop a.added g.base k q le g.queue);
      ns = d.ns ∙ g.ns;
      nr = nr;
      small = g.small;
      sound =
          subst
            (λ s. (p : Packet) → InList p s → Carries a.added p.control × (p.nr ≤ length accepted))
            (sym d.sent)
            (sound_more a.added t'.nr (length accepted) a.tunnel.sent (newly w k q)
              (λ p h. let (c, b) = g.sound p h in (c, omega arith))
              (λ c h. Numbered-Carries a.added g.base q c g.queue (
                InList-drop k q c (
                  InList-drop (w - k) (drop k q) c
                    (InList-take (w - (w - k)) (drop (w - k) (drop k q)) c h))))
              (omega arith));
    }

-- What has been accepted when a message, or none, has the number that is expected.
abbrev keep : Bool → List ℕ → List (List ℕ) → List (List ℕ)
keep handed avps accepted = if handed then accepted ++ avps ∷ [] else accepted

expected-Good :
    (a : Peer) (m : ℕ) (other : List (List ℕ)) (t' : Tunnel) (got k : ℕ) (avps : List ℕ)
    (g : Good a m)
    → Advanced a.tunnel t' got (length avps) k
    → k ≤ length a.tunnel.controls
    → g.base + k ≤ m
    → got ≡ a.tunnel.nr
    → length other < 2 ^ 15
    → (avps ≡ []) ⊎ (get_elem? other got ≡ some avps)
    → IsPrefix a.accepted other
    → let accepted = keep (not (length avps == 0)) avps a.accepted in
      Good (record a { tunnel = t'; accepted = accepted }) m × IsPrefix accepted other
expected-Good a m other t' got k [] g d le up e small car pre =
    (Advanced-Good a m t' got 0 k a.accepted g d le up (d.nr ∙ g.nr) (omega arith), pre)
expected-Good a m other t' got k (x ∷ xs) g d le up e small (inl void) pre = absurd (cc)
expected-Good a m other t' got k (x ∷ xs) g d le up e small (inr hit) (rest, split) =
    let v = x ∷ xs in
    let n = g.nr in
    let at : get_elem? (a.accepted ++ rest) (length a.accepted) ≡ some v =
      ap (λ o. get_elem? o (length a.accepted)) (sym split)
      ∙ ap (get_elem? other) (sym (e ∙ n))
      ∙ hit in
    let (rest', more) = next_rest a.accepted rest v at in
    let whole : other ≡ (a.accepted ++ v ∷ []) ++ rest' =
      split ∙ ap (λ r. a.accepted ++ r) more ∙ sym (append_assoc a.accepted (v ∷ []) rest') in
    let lo : length other ≡ length (a.accepted ++ v ∷ []) + length rest' =
      ap length whole ∙ length-append (a.accepted ++ v ∷ []) rest' in
    let la = length-append a.accepted (v ∷ []) in
    let full : (length v == 0) ≡ false = ground arith in
    let dn : t'.nr ≡ add16 got 1 = d.nr ∙ if_false (length v == 0) _ _ full in
    let nr : t'.nr ≡ length (a.accepted ++ v ∷ []) = omega arith in
    subst
      (λ b.
        let accepted = keep (not b) v a.accepted in
        Good (record a { tunnel = t'; accepted = accepted }) m × IsPrefix accepted other)
      (sym full)
      (
        Advanced-Good a m t' got (length v) k (a.accepted ++ v ∷ []) g d le up nr (omega arith),
        (rest', whole),
      )

-- What a packet from the other end does.
pub arrive-Good :
    (now : Clock) (p : Packet) (a : Peer) (m : ℕ) (other : List (List ℕ))
    → Good a m
    → length other < 2 ^ 15
    → Carries other p.control
    → p.nr ≤ m
    → IsPrefix a.accepted other
    → Good (arrive now p a) m × IsPrefix (arrive now p a).accepted other
arrive-Good now p a m other g small car ack pre =
    let t = a.tunnel in
    let got = p.control.ns in
    let avps = p.control.avps in
    let l = length avps in
    let P : Tunnel × Bool → Type 0 = λ (u, handed).
      let accepted = keep handed avps a.accepted in
      Good (record a { tunnel = u; accepted = accepted }) m × IsPrefix accepted other in
    elim (ℕ_discrete got t.nr) [
      | yes e ↦
          let k = p.nr - g.base in
          let b = g.base_le in
          let top = g.m_le in
          let last = g.small in
          let end = g.ns in
          let n = Numbered-length a.added g.base t.controls g.queue in
          let cleared =
            ap (λ c. clear_acked t.controls t.ns p.nr c 0) g.count
            ∙ clear_acked_small t.controls g.base t.ns p.nr 0 (omega arith) (omega arith)
                (omega arith)
            ∙ same_acked (drop k t.controls) refl (omega arith) in
          subst P (sym (receive_expected now t got p.nr l e)) (
            expected-Good a m other (take_ack now t got p.nr l) got k avps g
              (take_ack-Advanced now t got p.nr l k g.ip cleared) (omega arith) (omega arith) e
              small car pre)
      | no ne ↦
          subst P (sym (receive_other now t got p.nr l ne))
            (pick (λ u. P (u, false)) (l == 0) _ _ (g, pre) (controlnull-Good now a m g, pre))
    ]
