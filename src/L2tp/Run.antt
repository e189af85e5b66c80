-- ===== src/L2tp/Run.antt =====
-- Runs of both ends of a tunnel.
use mathlib.Core.Path.{subst}
use mathlib.Core.List.{append_assoc}
use l2tpns.Prelude.{
  ℕ, ◌≤◌, ◌≡◌, sym, ap, ◌∙◌, List, [], ◌∷◌, ◌++◌, length, length-append, arith, Bool, true, false,
  if◌then◌else◌,
}
use l2tpns.L2tp.{Packet, Clock, receive}
use l2tpns.L2tp.Delivery.{
  Peer, InList, arrive, Ends, Step, gives, arrives, acks, resends, learns, swaps, IsFresh, Reach,
  start, later,
}
use l2tpns.L2tp.Good.{Numbered, Carries, IsPrefix, Good}
use l2tpns.L2tp.Ends.{accepts-Good, controlnull-Good, resend-Good, give-Good}
use l2tpns.L2tp.Arrive.{arrive-Good}

-- What holds of both ends.
record Agree (s : Ends) : Type 0 where
  here : Good s.here (length s.there.accepted)
  there : Good s.there (length s.here.accepted)
  got_here : IsPrefix s.here.accepted s.there.added
  got_there : IsPrefix s.there.accepted s.here.added

IsPrefix-length : (xs ys : List (List ℕ)) → IsPrefix xs ys → length xs ≤ length ys
IsPrefix-length xs ys (rest, e) =
    let l : length ys ≡ length (xs ++ rest) = ap length e in omega (arith, length-append xs rest)

IsPrefix-more : (xs ys more : List (List ℕ)) → IsPrefix xs ys → IsPrefix xs (ys ++ more)
IsPrefix-more xs ys more (rest, e) =
    (rest ++ more, ap (λ l. l ++ more) e ∙ append_assoc xs rest more)

learn-Good :
    (a : Peer) (m far window : ℕ)
    → Good a m
    → Good (record a { tunnel = record a.tunnel { far = far; window = window } }) m
learn-Good a m far window g = record {
  ip = g.ip;
  count = g.count;
  base = g.base;
  base_le = g.base_le;
  m_le = g.m_le;
  queue = g.queue;
  ns = g.ns;
  nr = g.nr;
  small = g.small;
  sound = g.sound;
}

keep_more :
    (b : Bool) (avps : List ℕ) (accepted : List (List ℕ))
    → length accepted ≤ length (if b then accepted ++ avps ∷ [] else accepted)
keep_more true avps accepted = omega (arith, length-append accepted (avps ∷ []))
keep_more false avps accepted = omega arith

arrive_more :
    (now : Clock) (p : Packet) (a : Peer) → length a.accepted ≤ length (arrive now p a).accepted
arrive_more now p a =
    keep_more (receive now a.tunnel p.control.ns p.nr (length p.control.avps)).1 p.control.avps
      a.accepted

Step-Agree : (s t : Ends) → Step s t → Agree s → Agree t
Step-Agree s t (gives now session avps full small) g = record {
  here = give-Good now session avps s.here (length s.there.accepted) small g.here;
  there = g.there;
  got_here = g.got_here;
  got_there = IsPrefix-more s.there.accepted s.here.added (avps ∷ []) g.got_there;
}
Step-Agree s t (arrives now p h) g =
    let (car, ack) = g.there.sound p h in
    let (good, pre) =
      arrive-Good now p s.here (length s.there.accepted) s.there.added g.here g.there.small car ack
        g.got_here in
    record {
      here = good;
      there =
          accepts-Good s.there (length s.here.accepted) (length (arrive now p s.here).accepted)
            g.there (arrive_more now p s.here)
            (IsPrefix-length (arrive now p s.here).accepted s.there.added pre);
      got_here = pre;
      got_there = g.got_there;
    }
Step-Agree s t (acks now) g = record {
  here = controlnull-Good now s.here (length s.there.accepted) g.here;
  there = g.there;
  got_here = g.got_here;
  got_there = g.got_there;
}
Step-Agree s t (resends now u e) g = record {
  here = resend-Good now s.here (length s.there.accepted) u e g.here;
  there = g.there;
  got_here = g.got_here;
  got_there = g.got_there;
}
Step-Agree s t (learns far window) g = record {
  here = learn-Good s.here (length s.there.accepted) far window g.here;
  there = g.there;
  got_here = g.got_here;
  got_there = g.got_there;
}
Step-Agree s t swaps g = record {
  here = g.there;
  there = g.here;
  got_here = g.got_there;
  got_there = g.got_here;
}

fresh-Good : (a : Peer) → IsFresh a → Good a 0
fresh-Good a (queue, count, sent, ns, nr, ip, added, accepted) =
    let la : length a.added ≡ 0 = ap length added in
    let lc : length a.accepted ≡ 0 = ap length accepted in
    let lq : length a.tunnel.controls ≡ 0 = ap length queue in
    record {
      ip = ip;
      count = omega arith;
      base = 0;
      base_le = omega arith;
      m_le = omega arith;
      queue = subst (Numbered a.added 0) (sym queue) (sym la);
      ns = omega arith;
      nr = omega arith;
      small = omega arith;
      sound =
          subst
            (λ l.
              (p : Packet) → InList p l → Carries a.added p.control × (p.nr ≤ length a.accepted))
            (sym sent) (λ p h. absurd h);
    }

fresh-IsPrefix : (a b : Peer) → IsFresh a → IsPrefix a.accepted b.added
fresh-IsPrefix a b (queue, count, sent, ns, nr, ip, added, accepted) =
    (b.added, ap (λ l. l ++ b.added) (sym accepted))

fresh_accepted : (a : Peer) → IsFresh a → length a.accepted ≡ 0
fresh_accepted a (queue, count, sent, ns, nr, ip, added, accepted) = ap length accepted

fresh-Agree : (s : Ends) → IsFresh s.here → IsFresh s.there → Agree s
fresh-Agree s f h = record {
  here = subst (Good s.here) (sym (fresh_accepted s.there h)) (fresh-Good s.here f);
  there = subst (Good s.there) (sym (fresh_accepted s.here f)) (fresh-Good s.there h);
  got_here = fresh-IsPrefix s.here s.there f;
  got_there = fresh-IsPrefix s.there s.here h;
}

Reach-Agree : {s t : Ends} → Reach s t → Agree s → Agree t
Reach-Agree start g = g
Reach-Agree (later {t} {u} r step) g = Step-Agree t u step (Reach-Agree r g)

-- Of two ends that have the address of the other and no message yet, whichever messages that are not
-- empty are given to them, fewer than 2 ^ 15 each, and whichever of the sent packets are lost,
-- repeated or reordered on the line: each end has accepted, in order and without repetition, the
-- first messages that were given to the other, and the other still has every message that is not
-- accepted in its queue, behind those of which the acknowledgement is outstanding.
pub Reach-IsPrefix :
    (s t : Ends)
    → IsFresh s.here
    → IsFresh s.there
    → Reach s t
    → IsPrefix t.here.accepted t.there.added
      × IsPrefix t.there.accepted t.here.added
      × ((i : ℕ) × (i ≤ length t.there.accepted) × Numbered t.here.added i t.here.tunnel.controls)
      × ((i : ℕ) × (i ≤ length t.here.accepted) × Numbered t.there.added i t.there.tunnel.controls)
Reach-IsPrefix s t f h r =
    let g = Reach-Agree r (fresh-Agree s f h) in
    (
      g.got_here,
      g.got_there,
      (g.here.base, g.here.base_le, g.here.queue),
      (g.there.base, g.there.base_le, g.there.queue),
    )
