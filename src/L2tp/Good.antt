-- ===== src/L2tp/Good.antt =====
-- What holds at one end of a tunnel, whatever has become of the packets.
use mathlib.Core.Path.{subst}
use l2tpns.Prelude.{
  ℕ, zero, suc, ◌+◌, ◌^◌, ◌≤◌, ◌<◌, ◌≡◌, ◌⊎◌, inl, inr, refl, sym, ap, ◌∙◌, List, [], ◌∷◌, ◌++◌,
  some, true, length, get_elem?, take, drop, length-append, arith, some_inj,
}
use l2tpns.L2tp.{Control, Packet, Tunnel}
use l2tpns.L2tp.Sending.{stamped, Out}
use l2tpns.L2tp.Delivery.{Peer, InList}

-- The queue holds the messages from number `i` to the last.
abbrev pub Numbered : List (List ℕ) → ℕ → List Control → Type 0
Numbered added i [] = i ≡ length added
Numbered added i (c ∷ q) = (c.ns ≡ i) × (get_elem? added i ≡ some c.avps) × Numbered added (i + 1) q

-- A packet carries nothing, or the message of its number.
abbrev pub Carries : List (List ℕ) → Control → Type 0
Carries added c = (c.avps ≡ []) ⊎ (get_elem? added c.ns ≡ some c.avps)

abbrev pub IsPrefix : List (List ℕ) → List (List ℕ) → Type 0
IsPrefix xs ys = (rest : List (List ℕ)) × (ys ≡ xs ++ rest)

-- An end whose other end has accepted `m` messages.
pub record Good (a : Peer) (m : ℕ) : Type 0 where
  pub ip : a.tunnel.has_ip ≡ true
  pub count : a.tunnel.controlc ≡ length a.tunnel.controls
  pub base : ℕ
  pub base_le : base ≤ m
  pub m_le : m ≤ length a.added
  pub queue : Numbered a.added base a.tunnel.controls
  pub ns : a.tunnel.ns ≡ length a.added
  pub nr : a.tunnel.nr ≡ length a.accepted
  pub small : length a.added < 2 ^ 15
  pub sound :
      (p : Packet) → InList p a.tunnel.sent → Carries a.added p.control × (p.nr ≤ length a.accepted)

pub Numbered-length :
    (added : List (List ℕ)) (i : ℕ) (q : List Control)
    → Numbered added i q
    → i + length q ≡ length added
Numbered-length added i [] e = omega arith
Numbered-length added i (c ∷ q) (a, b, r) = omega (arith, Numbered-length added (i + 1) q r)

pub Numbered-drop :
    (added : List (List ℕ)) (i k : ℕ) (q : List Control)
    → k ≤ length q
    → Numbered added i q
    → Numbered added (i + k) (drop k q)
Numbered-drop added i zero q h n = subst (λ j. Numbered added j q) (omega arith) n
Numbered-drop added i (suc k) [] h n = absurd (omega arith)
Numbered-drop added i (suc k) (c ∷ q) h (a, b, r) =
    subst (λ j. Numbered added j (drop k q)) (omega arith)
      (Numbered-drop added (i + 1) k q (omega arith) r)

pub get_elem?-append_left :
    (xs ys : List (List ℕ)) (i : ℕ) (v : List ℕ)
    → get_elem? xs i ≡ some v
    → get_elem? (xs ++ ys) i ≡ some v
get_elem?-append_left [] ys i v e = absurd (cc)
get_elem?-append_left (x ∷ xs) ys zero v e = e
get_elem?-append_left (x ∷ xs) ys (suc i) v e = get_elem?-append_left xs ys i v e

pub get_elem?-append_here :
    (xs ys : List (List ℕ)) (v : List ℕ) → get_elem? (xs ++ v ∷ ys) (length xs) ≡ some v
get_elem?-append_here [] ys v = refl
get_elem?-append_here (x ∷ xs) ys v = get_elem?-append_here xs ys v

pub next_rest :
    (xs rest : List (List ℕ)) (v : List ℕ)
    → get_elem? (xs ++ rest) (length xs) ≡ some v
    → (rest' : List (List ℕ)) × (rest ≡ v ∷ rest')
next_rest [] [] v e = absurd (cc)
next_rest [] (x ∷ rest) v e = (rest, ap (λ y. y ∷ rest) (some_inj e))
next_rest (x ∷ xs) rest v e = next_rest xs rest v e

pub Numbered-give :
    (added : List (List ℕ)) (i : ℕ) (q : List Control) (c : Control)
    → c.ns ≡ length added
    → Numbered added i q
    → Numbered (added ++ c.avps ∷ []) i (q ++ c ∷ [])
Numbered-give added i [] c e n = (
  e ∙ sym n,
  ap (get_elem? (added ++ c.avps ∷ [])) n ∙ get_elem?-append_here added [] c.avps,
  omega (arith, length-append added (c.avps ∷ [])),
)
Numbered-give added i (d ∷ q) c e (a, b, r) =
    (a, get_elem?-append_left added (c.avps ∷ []) i d.avps b, Numbered-give added (i + 1) q c e r)

pub Numbered-Carries :
    (added : List (List ℕ)) (i : ℕ) (q : List Control) (c : Control)
    → Numbered added i q
    → InList c q
    → Carries added c
Numbered-Carries added i [] c n h = absurd h
Numbered-Carries added i (d ∷ q) c (a, b, r) (inl e) =
    inr (subst (λ x. get_elem? added x.ns ≡ some x.avps) (sym e) (ap (get_elem? added) a ∙ b))
Numbered-Carries added i (d ∷ q) c (a, b, r) (inr h) = Numbered-Carries added (i + 1) q c r h

pub InList-take : (n : ℕ) (q : List Control) (c : Control) → InList c (take n q) → InList c q
InList-take zero q c h = absurd h
InList-take (suc n) [] c h = absurd h
InList-take (suc n) (d ∷ q) c (inl e) = inl e
InList-take (suc n) (d ∷ q) c (inr h) = inr (InList-take n q c h)

pub InList-drop : (n : ℕ) (q : List Control) (c : Control) → InList c (drop n q) → InList c q
InList-drop zero q c h = h
InList-drop (suc n) [] c h = absurd h
InList-drop (suc n) (d ∷ q) c h = inr (InList-drop n q c h)

pub InList-append : (l m : List Packet) (p : Packet) → InList p (l ++ m) → InList p l ⊎ InList p m
InList-append [] m p h = inr h
InList-append (x ∷ l) m p (inl e) = inl (inl e)
InList-append (x ∷ l) m p (inr h) = elim (InList-append l m p h) [
  | inl a ↦ inl (inr a)
  | inr b ↦ inr b
]

pub InList-stamped :
    (n : ℕ) (q : List Control) (p : Packet)
    → InList p (stamped n q)
    → InList p.control q × (p.nr ≡ n)
InList-stamped n [] p h = absurd h
InList-stamped n (c ∷ q) p (inl e) =
    (inl (ap (λ (x : Packet). x.control) e), ap (λ (x : Packet). x.nr) e)
InList-stamped n (c ∷ q) p (inr h) = let (a, b) = InList-stamped n q p h in (inr a, b)

-- Packets that are added to those that were sent.
pub sound_more :
    (added : List (List ℕ)) (n m : ℕ) (l : List Packet) (q : List Control)
    → ((p : Packet) → InList p l → Carries added p.control × (p.nr ≤ m))
    → ((c : Control) → InList c q → Carries added c)
    → n ≤ m
    → (p : Packet) → InList p (l ++ stamped n q)
    → Carries added p.control × (p.nr ≤ m)
sound_more added n m l q old new le p h = elim (InList-append l (stamped n q) p h) [
  | inl a ↦ old p a
  | inr b ↦ let (c, e) = InList-stamped n q p b in (new p.control c, omega arith)
]

-- An end that has only sent packets.
pub Out-Good :
    (a : Peer) (m : ℕ) (t' : Tunnel) (q : List Control)
    → Good a m
    → Out a.tunnel t' q
    → ((c : Control) → InList c q → Carries a.added c)
    → Good (record a { tunnel = t' }) m
Out-Good a m t' q g o new =
    let n = g.nr in
    record {
      ip = o.has_ip ∙ g.ip;
      count = o.controlc ∙ g.count ∙ ap length (sym o.controls);
      base = g.base;
      base_le = g.base_le;
      m_le = g.m_le;
      queue = subst (Numbered a.added g.base) (sym o.controls) g.queue;
      ns = o.ns ∙ g.ns;
      nr = o.nr ∙ g.nr;
      small = g.small;
      sound =
          subst
            (λ l.
              (p : Packet) → InList p l → Carries a.added p.control × (p.nr ≤ length a.accepted))
            (sym o.sent)
            (sound_more a.added a.tunnel.nr (length a.accepted) a.tunnel.sent q g.sound new
              (omega arith));
    }
