-- ===== src/Bgp/Order.antt =====
-- memcmp is a total order on destinations.
use Prim.Native.Nat.{Ordering}
use l2tpns.Prelude.{◌≡◌, ◌≢◌, refl, sym, ◌∙◌, [], ◌∷◌, arith}
use l2tpns.Bgp.{Dest, memcmp}

pub memcmp_refl : (d : Dest) → memcmp d d ≡ Ordering.eq
unfolding memcmp
memcmp_refl [] = refl
memcmp_refl (x ∷ d) = ground (arith, memcmp_refl d)

pub memcmp_eq : (a b : Dest) → memcmp a b ≡ Ordering.eq → a ≡ b
unfolding memcmp
memcmp_eq [] [] h = refl
memcmp_eq [] (y ∷ b) h = absurd (cc)
memcmp_eq (x ∷ a) [] h = absurd (cc)
memcmp_eq (x ∷ a) (y ∷ b) h = ground (arith, memcmp_eq a b)

pub memcmp_gt : (a b : Dest) → memcmp a b ≡ Ordering.gt → memcmp b a ≡ Ordering.lt
unfolding memcmp
memcmp_gt [] [] h = absurd (cc)
memcmp_gt [] (y ∷ b) h = absurd (cc)
memcmp_gt (x ∷ a) [] h = refl
memcmp_gt (x ∷ a) (y ∷ b) h = ground (arith, memcmp_gt a b)

pub memcmp_trans :
    (a b c : Dest) → memcmp a b ≡ Ordering.lt → memcmp b c ≡ Ordering.lt → memcmp a c ≡ Ordering.lt
unfolding memcmp
memcmp_trans [] [] c h k = absurd (cc)
memcmp_trans [] (y ∷ b) [] h k = absurd (cc)
memcmp_trans [] (y ∷ b) (z ∷ c) h k = refl
memcmp_trans (x ∷ a) [] c h k = absurd (cc)
memcmp_trans (x ∷ a) (y ∷ b) [] h k = absurd (cc)
memcmp_trans (x ∷ a) (y ∷ b) (z ∷ c) h k = ground (arith, memcmp_trans a b c)

pub memcmp_irrefl : (a b : Dest) → memcmp a b ≡ Ordering.lt → a ≢ b
memcmp_irrefl a b h e = clash (sym (memcmp_refl b) ∙ (rw e at h))
  where
    clash : Ordering.eq ≡ Ordering.lt → ⊥
    clash e = cc
