-- ===== src/L2tp/Ends.antt =====
-- Each step of an end of a tunnel keeps what holds there.
use mathlib.Core.Path.{subst}
use l2tpns.Prelude.{
  ℕ, zero, suc, ◌+◌, ◌%◌, ◌^◌, ◌≤◌, ◌<◌, ◌≡◌, ◌⊎◌, inl, inr, refl, ap, ◌∙◌, List, [], ◌∷◌, ◌++◌,
  Option, some, true, not, ◌&&◌, ltb, length, take, length-append, arith, pick, ◌==◌, leb, some_inj,
}
use l2tpns.L2tp.{
  Control, Tunnel, Clock, add16, tunnelsend, controlnull, controladd, resend, send_window,
}
use l2tpns.L2tp.Sending.{Out, Out-self, Out-trans, tunnelsend-Out}
use l2tpns.L2tp.Queue.{bare}
use l2tpns.L2tp.Delivery.{Peer, InList, give}
use l2tpns.L2tp.Good.{
  Carries, Good, Numbered-length, Numbered-give, Numbered-Carries, InList-take, Out-Good,
  get_elem?-append_left,
}

-- The other end has accepted more.
pub accepts-Good : (a : Peer) (m n : ℕ) → Good a m → m ≤ n → n ≤ length a.added → Good a n
accepts-Good a m n g le top =
    let b = g.base_le in
    record {
      ip = g.ip;
      count = g.count;
      base = g.base;
      base_le = omega arith;
      m_le = top;
      queue = g.queue;
      ns = g.ns;
      nr = g.nr;
      small = g.small;
      sound = g.sound;
    }

only_bare :
    (added : List (List ℕ)) (t : Tunnel) (c : Control) → InList c (bare t ∷ []) → Carries added c
only_bare added t c (inl e) = inl (ap (λ (x : Control). x.avps) e)
only_bare added t c (inr h) = absurd h

controlnull-Out :
    (now : Clock) (t : Tunnel)
    → t.has_ip ≡ true
    → Out t (controlnull now t) (bare t ∷ []) ⊎ Out t (controlnull now t) []
unfolding controlnull
controlnull-Out now t ip =
    pick (λ u. Out t u (bare t ∷ []) ⊎ Out t u []) (t.controlc == 0) _ _
      (inl (tunnelsend-Out now t (bare t) t.try ip)) (inr (Out-self t))

pub controlnull-Good :
    (now : Clock) (a : Peer) (m : ℕ)
    → Good a m
    → Good (record a { tunnel = controlnull now a.tunnel }) m
controlnull-Good now a m g = elim (controlnull-Out now a.tunnel g.ip) [
  | inl o ↦
      Out-Good a m (controlnull now a.tunnel) (bare a.tunnel ∷ []) g o (only_bare a.added a.tunnel)
  | inr o ↦ Out-Good a m (controlnull now a.tunnel) [] g o (λ c h. absurd h)
]

send_window-Out :
    (now : Clock) (q : List Control) (w : ℕ) (t : Tunnel)
    → t.has_ip ≡ true
    → Out t (send_window now q w t) (take w q)
unfolding send_window
send_window-Out now [] zero t ip = Out-self t
send_window-Out now [] (suc w) t ip = Out-self t
send_window-Out now (c ∷ q) zero t ip = Out-self t
send_window-Out now (c ∷ q) (suc w) t ip =
    let u = tunnelsend now t c in
    let out = tunnelsend-Out now t c t.try ip in
    Out-trans t u (send_window now q w u) (c ∷ []) (take w q) out
      (send_window-Out now q w u (out.has_ip ∙ ip))

-- A timeout sends the window again, or nothing, unless it is the last.
pub resend-Out :
    (now : Clock) (t t' : Tunnel)
    → t.has_ip ≡ true
    → resend now t ≡ some t'
    → Out t t' (take t.window t.controls) ⊎ Out t t' []
unfolding resend
resend-Out now t t' ip e =
    let again = record t { try = (t.try + 1) % 2 ^ 8 } in
    let out : Out t (send_window now t.controls t.window again) (take t.window t.controls) =
      let o = send_window-Out now t.controls t.window again ip in
      record {
        sent = o.sent;
        controls = o.controls;
        controlc = o.controlc;
        ns = o.ns;
        nr = o.nr;
        window = o.window;
        has_ip = o.has_ip;
      } in
    let P : Option Tunnel → Type 0 =
      λ r. r ≡ some t' → Out t t' (take t.window t.controls) ⊎ Out t t' [] in
    pick P (not (t.retry == 0) && not (t.controlc == 0) && leb t.retry now.tenths) _ _
      (pick P (ltb 5 again.try) _ _ (λ h. cc)
        (λ h. inl (subst (λ u. Out t u (take t.window t.controls)) (some_inj h) out)))
      (λ h. inr (subst (λ u. Out t u []) (some_inj h) (Out-self t))) e

pub resend-Good :
    (now : Clock) (a : Peer) (m : ℕ) (t' : Tunnel)
    → resend now a.tunnel ≡ some t'
    → Good a m
    → Good (record a { tunnel = t' }) m
resend-Good now a m t' e g = elim (resend-Out now a.tunnel t' g.ip e) [
  | inl o ↦ Out-Good a m t' (take a.tunnel.window a.tunnel.controls) g o (λ c h.
      Numbered-Carries a.added g.base a.tunnel.controls c g.queue
        (InList-take a.tunnel.window a.tunnel.controls c h))
  | inr o ↦ Out-Good a m t' [] g o (λ c h. absurd h)
]

append-Carries :
    (added more : List (List ℕ)) (c : Control) → Carries added c → Carries (added ++ more) c
append-Carries added more c (inl e) = inl e
append-Carries added more c (inr e) = inr (get_elem?-append_left added more c.ns c.avps e)

queued-Good :
    (a : Peer) (m : ℕ) (c : Control)
    → length a.added + 1 < 2 ^ 15
    → c.ns ≡ a.tunnel.ns
    → Good a m
    → let queued = record a.tunnel {
      ns = add16 a.tunnel.ns 1;
      controls = a.tunnel.controls ++ c ∷ [];
      controlc = add16 a.tunnel.controlc 1;
    } in
      Good (record a { tunnel = queued; added = a.added ++ c.avps ∷ [] }) m
queued-Good a m c small e g =
    let n = g.ns in
    let k = g.count in
    let top = g.m_le in
    let l = Numbered-length a.added g.base a.tunnel.controls g.queue in
    let la = length-append a.added (c.avps ∷ []) in
    let lc = length-append a.tunnel.controls (c ∷ []) in
    record {
      ip = g.ip;
      count = omega arith;
      base = g.base;
      base_le = g.base_le;
      m_le = omega arith;
      queue = Numbered-give a.added g.base a.tunnel.controls c (e ∙ n) g.queue;
      ns = omega arith;
      nr = g.nr;
      small = omega arith;
      sound = λ p h.
          let (old, le) = g.sound p h in (append-Carries a.added (c.avps ∷ []) p.control old, le);
    }

InList-last : (q : List Control) (c d : Control) → InList d (c ∷ []) → InList d (q ++ c ∷ [])
InList-last [] c d h = h
InList-last (x ∷ q) c d h = inr (InList-last q c d h)

-- A message that is given to an end has the number of those that were given before.
pub give-Good :
    (now : Clock) (session : ℕ) (avps : List ℕ) (a : Peer) (m : ℕ)
    → length a.added + 1 < 2 ^ 15
    → Good a m
    → Good (give now session avps a) m
unfolding controladd
give-Good now session avps a m small g =
    let t = a.tunnel in
    let c : Control = record { far = t.far; session = session; ns = t.ns; avps = avps } in
    let queued = record t {
      ns = add16 t.ns 1;
      controls = t.controls ++ c ∷ [];
      controlc = add16 t.controlc 1;
    } in
    let a' : Peer = record a { tunnel = queued; added = a.added ++ avps ∷ [] } in
    let good : Good a' m = queued-Good a m c small refl g in
    let out = tunnelsend-Out now queued c 0 g.ip in
    let carried : (d : Control) → InList d (c ∷ []) → Carries a'.added d = λ d h.
      Numbered-Carries a'.added good.base queued.controls d good.queue
        (InList-last t.controls c d h) in
    pick (λ u. Good (record a' { tunnel = u }) m) (leb queued.controlc t.window) _ _
      (Out-Good a' m (tunnelsend now (record queued { try = 0 }) c) (c ∷ []) good out carried) good
