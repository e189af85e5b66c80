-- ===== src/Cluster/Peers/Table.antt =====
-- What cluster_add_peer keeps of the list of peers.
use mathlib.Core.Path.{subst}
use l2tpns.Prelude.{
  ℕ, suc, ◌+◌, ◌≤◌, ◌≡◌, ◌≢◌, ◌⊎◌, inl, inr, refl, sym, ap, ◌∙◌, List, [], ◌∷◌, Option, none, some,
  true, false, not, ◌==◌, length, arith, Bool-cases, if_true, if_false, ℕ_discrete,
}
use l2tpns.Cluster.{ClusterPeer, Cluster}
use l2tpns.Cluster.Peers.{and_then, update_peer, is_reusable, put_peer}

abbrev pub Has : ClusterPeer → List ClusterPeer → Type 0
Has q [] = ⊥
Has q (p ∷ peers) = (q ≡ p) ⊎ Has q peers

abbrev pub NotHeard : ℕ → List ClusterPeer → Type 0
NotHeard a [] = Unit {0}
NotHeard a (p ∷ peers) = (p.peer ≢ a) × NotHeard a peers

-- No two entries are of one address.
abbrev pub Distinct : List ClusterPeer → Type 0
Distinct [] = Unit {0}
Distinct (p ∷ peers) = NotHeard p.peer peers × Distinct peers

abbrev pub NoneReusable : Cluster → List ClusterPeer → Type 0
NoneReusable c [] = Unit {0}
NoneReusable c (p ∷ peers) = (is_reusable c p ≡ false) × NoneReusable c peers

-- `new` has come into the list: at most an entry of its own address, or one that may be reused, is
-- gone.
pub record Came (c : Cluster) (new : ClusterPeer) (l l' : List ClusterPeer) : Type 0 where
  pub here : Has new l'
  pub only : (q : ClusterPeer) → Has q l' → (q ≡ new) ⊎ Has q l
  pub others :
      (q : ClusterPeer) → Has q l → (q.peer ≡ new.peer) ⊎ (is_reusable c q ≡ true) ⊎ Has q l'
  pub unique : Distinct l'
  pub longer : length l ≤ length l'

NotHeard-ne : (a : ℕ) (l : List ClusterPeer) (q : ClusterPeer) → NotHeard a l → Has q l → q.peer ≢ a
NotHeard-ne a [] q n h = absurd h
NotHeard-ne a (p ∷ l) q (ne, n) (inl e) = λ f. ne (ap (λ (x : ClusterPeer). x.peer) (sym e) ∙ f)
NotHeard-ne a (p ∷ l) q (ne, n) (inr h) = NotHeard-ne a l q n h

all-NotHeard :
    (a : ℕ) (l : List ClusterPeer) → ((q : ClusterPeer) → Has q l → q.peer ≢ a) → NotHeard a l
all-NotHeard a [] f = tt
all-NotHeard a (p ∷ l) f = (f p (inl refl), all-NotHeard a l (λ q h. f q (inr h)))

-- A list behind an entry of another address.
cons-Came :
    (c : Cluster) (new p : ClusterPeer) (l l' : List ClusterPeer)
    → p.peer ≢ new.peer
    → NotHeard p.peer l
    → Came c new l l'
    → Came c new (p ∷ l) (p ∷ l')
cons-Came c new p l l' ne n k = record {
  here = inr k.here;
  only = λ q. elim [
    | inl e ↦ inr (inl e)
    | inr h ↦ elim (k.only q h) [ inl e ↦ inl e | inr old ↦ inr (inr old) ]
  ];
  others = λ q. elim [
    | inl e ↦ inr (inr (inl e))
    | inr h ↦ elim (k.others q h) [
      | inl own ↦ inl own
      | inr (inl free) ↦ inr (inl free)
      | inr (inr kept) ↦ inr (inr (inr kept))
    ]
  ];
  unique = (
    all-NotHeard p.peer l' (λ q h. elim (k.only q h) [
      | inl e ↦ λ f. ne (sym f ∙ ap (λ (x : ClusterPeer). x.peer) e)
      | inr old ↦ NotHeard-ne p.peer l q n old
    ]),
    k.unique,
  );
  longer = let m = k.longer in omega arith;
}

-- The entry at the head is replaced.
head-Came :
    (c : Cluster) (new p : ClusterPeer) (l : List ClusterPeer)
    → (p.peer ≡ new.peer) ⊎ (is_reusable c p ≡ true)
    → NotHeard new.peer l
    → Distinct l
    → Came c new (p ∷ l) (new ∷ l)
head-Came c new p l why n d = record {
  here = inl refl;
  only = λ q. elim [ inl e ↦ inl e | inr h ↦ inr (inr h) ];
  others = λ q. elim [
    | inl e ↦ elim why [
      | inl own ↦ inl (ap (λ (x : ClusterPeer). x.peer) e ∙ own)
      | inr free ↦ inr (inl (ap (is_reusable c) e ∙ free))
    ]
    | inr h ↦ inr (inr (inr h))
  ];
  unique = (n, d);
  longer = omega arith;
}

-- What the first loop finds.
abbrev pub Found : Cluster → ClusterPeer → List ClusterPeer → Option (List ClusterPeer) → Type 0
Found c new l none = NotHeard new.peer l
Found c new l (some l') = Came c new l l' × (length l' ≡ length l)

cons-Found :
    (c : Cluster) (new p : ClusterPeer) (l : List ClusterPeer) (o : Option (List ClusterPeer))
    → p.peer ≢ new.peer
    → NotHeard p.peer l
    → Found c new l o
    → Found c new (p ∷ l) (and_then p o)
cons-Found c new p l none ne n f = (ne, f)
cons-Found c new p l (some l') ne n (k, e) = (cons-Came c new p l l' ne n k, ap suc e)

pub update_peer-Found :
    (c : Cluster) (l : List ClusterPeer) (new : ClusterPeer)
    → Distinct l
    → Found c new l (update_peer l new)
unfolding update_peer
update_peer-Found c [] new d = tt
update_peer-Found c (p ∷ l) new (n, d) = elim (ℕ_discrete p.peer new.peer) [
  | yes e ↦
      let same : not (p.peer == new.peer) ≡ false = ground arith in
      subst (Found c new (p ∷ l)) (sym (if_false _ _ _ same))
        (head-Came c new p l (inl e) (subst (λ a. NotHeard a l) e n) d, refl)
  | no ne ↦
      let differ : not (p.peer == new.peer) ≡ true = ground arith in
      subst (Found c new (p ∷ l)) (sym (if_true _ _ _ differ))
        (cons-Found c new p l (update_peer l new) ne n (update_peer-Found c l new d))
]

-- What the second loop does: a slot is reused, or there is none.
abbrev Put : Cluster → ClusterPeer → List ClusterPeer → List ClusterPeer → Type 0
Put c new l l' =
    Came c new l l' × ((length l' ≡ length l) ⊎ (length l' ≡ length l + 1) × NoneReusable c l)

pub put_peer-Put :
    (c : Cluster) (l : List ClusterPeer) (new : ClusterPeer)
    → NotHeard new.peer l
    → Distinct l
    → Put c new l (put_peer c l new)
unfolding put_peer
put_peer-Put c [] new n d = (
  record {
    here = inl refl;
    only = λ q. elim [ inl e ↦ inl e | inr h ↦ absurd h ];
    others = λ q h. absurd h;
    unique = (tt, tt);
    longer = omega arith;
  },
  inr (refl, tt),
)
put_peer-Put c (p ∷ l) new (ne, n) (m, d) = elim (Bool-cases (is_reusable c p)) [
  | inl free ↦
      subst (Put c new (p ∷ l)) (sym (if_true _ _ _ free))
        (head-Came c new p l (inr free) n d, inl refl)
  | inr used ↦
      let (k, size) = put_peer-Put c l new n d in
      subst (Put c new (p ∷ l)) (sym (if_false _ _ _ used)) (
        cons-Came c new p l (put_peer c l new) ne m k,
        elim size [ inl e ↦ inl (ap suc e) | inr (e, all) ↦ inr (omega arith, (used, all)) ],
      )
]
