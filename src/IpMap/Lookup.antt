-- ===== src/IpMap/Lookup.antt =====
-- lookup_ipmap after cache_ipmap.
use mathlib.Core.Path.{subst}
use l2tpns.Prelude.{
  ℕ, zero, suc, ◌+◌, ◌%◌, ◌^◌, ◌<◌, ◌≡◌, ◌≢◌, refl, sym, ap, ◌∙◌, Option, none, some, Bool, true,
  false, arith, ℕ_discrete,
}
use l2tpns.IpMap.{
  Table, zero_table, put_at, byte, lookup_from, lookup_ipmap, cache_from, cache_ipmap, through,
  extend,
}

-- The bytes from `i` on that a table of level `n` looks at.
abbrev pub Agree : ℕ → (ℕ → ℕ) → (ℕ → ℕ) → ℕ → Type 0
Agree zero a b i = a i ≡ b i
Agree (suc n) a b i = (a i ≡ b i) × Agree n a b (i + 1)

zero_lookup : (n : ℕ) (a : ℕ → ℕ) (i : ℕ) → lookup_from n (zero_table n) a i ≡ 0
unfolding lookup_from
zero_lookup zero a i = refl
zero_lookup (suc n) a i = refl

pub at_self : {A : Type 0} (t : ℕ → A) (b : ℕ) (v : A) → put_at t b v b ≡ v
at_self t b v = ground arith

pub at_other : {A : Type 0} (t : ℕ → A) (b c : ℕ) (v : A) → c ≢ b → put_at t b v c ≡ t c
at_other t b c v ne = ground arith

pub at_same : {A : Type 0} (t : ℕ → A) (b c : ℕ) (v : A) → c ≡ b → put_at t b v c ≡ v
at_same t b c v e = subst (λ k. put_at t b v k ≡ v) (sym e) (at_self t b v)

through_at :
    {A : Type 0} (walk : A → ℕ) (t : ℕ → Option A) (b c : ℕ) (v : Option A)
    → b ≡ c
    → through walk (put_at t b v c) ≡ through walk v
through_at walk t b c v e = ap (through walk) (subst (λ x. put_at t b v x ≡ v) e (at_self t b v))

through-extend_self :
    {A : Type 0} (look : A → ℕ) (walk : A → A) (fresh : A) (o : Option A) (s : ℕ)
    → ((g : A) → look (walk g) ≡ s)
    → through look (extend walk fresh true o) ≡ s
through-extend_self look walk fresh none s h = h fresh
through-extend_self look walk fresh (some g) s h = h g

lookup-cache_self :
    (n : ℕ) (h : Table n) (a b : ℕ → ℕ) (i s : ℕ) (ok : ℕ → Bool)
    → ((j : ℕ) → ok j ≡ true)
    → Agree n a b i
    → lookup_from n (cache_from n h a i s ok) b i ≡ s
unfolding lookup_from cache_from
lookup-cache_self zero h a b i s ok mem e =
    subst (λ x. put_at h (a i) s x ≡ s) e (at_self h (a i) s)
lookup-cache_self (suc n) h a b i s ok mem (e, r) =
    let look : Table n → ℕ = λ g. lookup_from n g b (i + 1) in
    let walk : Table n → Table n = λ g. cache_from n g a (i + 1) s ok in
    through_at look h (a i) (b i) (extend walk (zero_table n) (ok i) (h (a i))) e
    ∙ subst (λ m. through look (extend walk (zero_table n) m (h (a i))) ≡ s) (sym (mem i))
        (through-extend_self look walk (zero_table n) (h (a i)) s
          (λ g. lookup-cache_self n g a b (i + 1) s ok mem r))

through-extend_other :
    {A : Type 0} (look : A → ℕ) (walk : A → A) (fresh : A) (ok : Bool) (o : Option A)
    → ((g : A) → look (walk g) ≡ look g)
    → look fresh ≡ 0
    → through look (extend walk fresh ok o) ≡ through look o
through-extend_other look walk fresh true none h z = h fresh ∙ z
through-extend_other look walk fresh false none h z = refl
through-extend_other look walk fresh ok (some g) h z = h g

lookup-cache_other :
    (n : ℕ) (h : Table n) (a b : ℕ → ℕ) (i s : ℕ) (ok : ℕ → Bool)
    → ¬ Agree n a b i
    → lookup_from n (cache_from n h a i s ok) b i ≡ lookup_from n h b i
unfolding lookup_from cache_from
lookup-cache_other zero h a b i s ok d = at_other h (a i) (b i) s (λ e. d (sym e))
lookup-cache_other (suc n) h a b i s ok d =
    let look : Table n → ℕ = λ g. lookup_from n g b (i + 1) in
    let walk : Table n → Table n = λ g. cache_from n g a (i + 1) s ok in
    elim (ℕ_discrete (a i) (b i)) [
      | yes e ↦
          through_at look h (a i) (b i) (extend walk (zero_table n) (ok i) (h (a i))) e
          ∙ through-extend_other look walk (zero_table n) (ok i) (h (a i))
              (λ g. lookup-cache_other n g a b (i + 1) s ok (λ r. d (e, r)))
              (zero_lookup n b (i + 1))
          ∙ ap (λ x. through look (h x)) e
      | no ne ↦
          ap (through look)
            (at_other h (a i) (b i) (extend walk (zero_table n) (ok i) (h (a i))) (λ e. ne (sym e)))
    ]

-- The four bytes determine an address.
bytes_iff : (ip ip' : ℕ) → ip < 2 ^ 32 → ip' < 2 ^ 32 → Agree 3 (byte ip) (byte ip') 0 → ip ≡ ip'
bytes_iff ip ip' h k (a, (b, (c, d))) = omega arith

same_bytes : (ip ip' : ℕ) → ip ≡ ip' → Agree 3 (byte ip) (byte ip') 0
same_bytes ip ip' e =
    let g : (i : ℕ) → byte ip i ≡ byte ip' i = λ i. ap (λ x. byte x i) e in (g 0, (g 1, (g 2, g 3)))

-- After cache_ipmap of an address, lookup_ipmap finds at that address the session that was cached,
-- if the callocs succeed, and at every other address what it found there before, even if they do
-- not.
pub lookup_ipmap-cache_ipmap :
    (ip_hash : Table 3) (ip ip' s : ℕ) (ok : ℕ → Bool)
    → ip < 2 ^ 32
    → ip' < 2 ^ 32
    → s < 2 ^ 16
    → let after = lookup_ipmap (cache_ipmap ip_hash ip s ok) ip' in
      (ip' ≡ ip → ((i : ℕ) → ok i ≡ true) → after ≡ s)
      × (ip' ≢ ip → after ≡ lookup_ipmap ip_hash ip')
unfolding lookup_ipmap cache_ipmap
lookup_ipmap-cache_ipmap ip_hash ip ip' s ok h k small = (
  λ e mem.
      ap (λ x. x % 2 ^ 16)
        (lookup-cache_self 3 ip_hash (byte ip) (byte ip') 0 (s % 2 ^ 16) ok mem
          (same_bytes ip ip' (sym e)))
      ∙ omega arith,
  λ ne.
      ap (λ x. x % 2 ^ 16)
        (lookup-cache_other 3 ip_hash (byte ip) (byte ip') 0 (s % 2 ^ 16) ok
          (λ a. ne (sym (bytes_iff ip ip' h k a)))),
)
