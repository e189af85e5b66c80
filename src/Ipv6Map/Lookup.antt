-- ===== src/Ipv6Map/Lookup.antt =====
-- lookup_ipv6map after cache_ipv6map: the shortest prefix that is cached decides.
use l2tpns.Prelude.{
  ℕ, zero, suc, ◌+◌, ◌-◌, ◌/◌, ◌%◌, ◌^◌, ◌≤◌, ◌<◌, ◌≡◌, ◌≢◌, inl, inr, refl, sym, ap, ◌∙◌, Bool,
  true, ◌==◌, if◌then◌else◌, arith, ℕ_discrete, Bool-cases,
}
use l2tpns.IpMap.{put_at}
use l2tpns.IpMap.Lookup.{at_same, at_other}
use l2tpns.Ipv6Map.{
  Radix, closed, branching, with_sess, Address, half, lookup_radix, lookup_ipv6map, no_branch,
  cache_radix, cache_ipv6map,
}

-- Two addresses agree in `left` halves from `i` on.
abbrev pub SameHalves : ℕ → ℕ → Address → Address → Type 0
SameHalves zero i a b = Unit {0}
SameHalves (suc left) i a b = (half a i ≡ half b i) × SameHalves left (i + 1) a b

-- The session of the shortest prefix of an address that is above a depth, 0 if there is none.
abbrev pub shorter : ℕ → ℕ → Radix → Address → ℕ
shorter zero i cur ip = 0
shorter (suc left) i (closed s) ip = s
shorter (suc left) i (branching s branch) ip =
    let rest = shorter left (i + 1) (branch (half ip i)) ip in if s == 0 then rest else s

-- What is found under a prefix that has just been cached for `s`.
abbrev pub overridden : ℕ → ℕ → ℕ
overridden above s = if above == 0 then s else above

zero_lookup : (left i : ℕ) (ip : Address) → lookup_radix left i (closed 0) ip ≡ 0
unfolding lookup_radix
zero_lookup zero i ip = refl
zero_lookup (suc left) i ip = refl

found_at :
    (left i s : ℕ) (cur : Radix) (ip : Address)
    → s ≢ 0
    → lookup_radix left i (with_sess cur s) ip ≡ s
unfolding lookup_radix
found_at zero i s (closed t) ip ne = refl
found_at zero i s (branching t branch) ip ne = refl
found_at (suc left) i s (closed t) ip ne = refl
found_at (suc left) i s (branching t branch) ip ne = ground arith

step_at :
    (left i t b : ℕ) (branch : ℕ → Radix) (new : Radix) (ip : Address)
    → half ip i ≡ b
    → lookup_radix (suc left) i (branching t (put_at branch b new)) ip
      ≡ (if t == 0 then lookup_radix left (i + 1) new ip else t)
unfolding lookup_radix
step_at left i t b branch new ip e =
    ap (λ n. if t == 0 then lookup_radix left (i + 1) n ip else t)
      (at_same branch b (half ip i) new e)

pick :
    (t u v s : ℕ)
    → u ≡ overridden v s
    → (if t == 0 then u else t) ≡ overridden (if t == 0 then v else t) s
pick t u v s h = ground arith

pick_none : (t s : ℕ) → overridden (if t == 0 then 0 else t) s ≡ overridden t s
pick_none t s = ground arith

shorter_fresh : (depth i : ℕ) (ip : Address) → shorter depth i (closed 0) ip ≡ 0
shorter_fresh zero i ip = refl
shorter_fresh (suc depth) i ip = refl

under :
    (depth n i : ℕ) (cur : Radix) (a b : Address) (s : ℕ) (ok : ℕ → Bool)
    → depth ≤ n
    → ((j : ℕ) → ok j ≡ true)
    → s ≢ 0
    → SameHalves depth i a b
    → lookup_radix n i (cache_radix depth i cur a s ok) b ≡ overridden (shorter depth i cur b) s
unfolding cache_radix
under zero n i cur a b s ok h mem ne e = found_at n i s cur b ne
under (suc depth) zero i cur a b s ok h mem ne e = absurd (omega arith)
under (suc depth) (suc n) i (closed t) a b s ok h mem ne (e, r) =
    let new = cache_radix depth (i + 1) (closed 0) a s ok in
    let deeper = under depth n (i + 1) (closed 0) a b s ok (omega arith) mem ne r in
    rw (mem i) (
      step_at n i t (half a i) no_branch new b (sym e)
      ∙ pick t (lookup_radix n (i + 1) new b) 0 s
          (deeper ∙ ap (λ v. overridden v s) (shorter_fresh depth (i + 1) b))
      ∙ pick_none t s)
under (suc depth) (suc n) i (branching t branch) a b s ok h mem ne (e, r) =
    let new = cache_radix depth (i + 1) (branch (half a i)) a s ok in
    let deeper = under depth n (i + 1) (branch (half a i)) a b s ok (omega arith) mem ne r in
    step_at n i t (half a i) branch new b (sym e)
    ∙ pick t (lookup_radix n (i + 1) new b) (shorter depth (i + 1) (branch (half b i)) b) s
        (deeper ∙ ap (λ x. overridden (shorter depth (i + 1) (branch x) b) s) e)

-- A changed branch, which lookups of `b` do not notice.
unnoticed :
    (n i : ℕ) (branch : ℕ → Radix) (new : Radix) (a b : Address)
    → (half a i ≡ half b i
        → lookup_radix n (i + 1) new b ≡ lookup_radix n (i + 1) (branch (half a i)) b)
    → lookup_radix n (i + 1) (put_at branch (half a i) new (half b i)) b
      ≡ lookup_radix n (i + 1) (branch (half b i)) b
unnoticed n i branch new a b h = elim (ℕ_discrete (half a i) (half b i)) [
  | yes e ↦
      ap (λ x. lookup_radix n (i + 1) x b) (at_same branch (half a i) (half b i) new (sym e))
      ∙ h e
      ∙ ap (λ x. lookup_radix n (i + 1) (branch x) b) e
  | no ne ↦
      ap (λ x. lookup_radix n (i + 1) x b)
        (at_other branch (half a i) (half b i) new (λ e. ne (sym e)))
]

all_zero : (t u : ℕ) → u ≡ 0 → (if t == 0 then u else t) ≡ t
all_zero t u h = ground arith

fresh_branch :
    (n i t : ℕ) (new : Radix) (a b : Address)
    → (half a i ≡ half b i → lookup_radix n (i + 1) new b ≡ 0)
    → lookup_radix (suc n) i (branching t (put_at no_branch (half a i) new)) b ≡ t
unfolding lookup_radix
fresh_branch n i t new a b h =
    all_zero t (lookup_radix n (i + 1) (put_at no_branch (half a i) new (half b i)) b) (
      unnoticed n i no_branch new a b (λ e. h e ∙ sym (zero_lookup n (i + 1) b))
      ∙ zero_lookup n (i + 1) b)

old_branch :
    (n i t : ℕ) (branch : ℕ → Radix) (new : Radix) (a b : Address)
    → (half a i ≡ half b i
        → lookup_radix n (i + 1) new b ≡ lookup_radix n (i + 1) (branch (half a i)) b)
    → lookup_radix (suc n) i (branching t (put_at branch (half a i) new)) b
      ≡ lookup_radix (suc n) i (branching t branch) b
unfolding lookup_radix
old_branch n i t branch new a b h =
    ap (λ u. if t == 0 then u else t) (unnoticed n i branch new a b h)

closed_lookup : (n i t : ℕ) (b : Address) → lookup_radix n i (closed t) b ≡ t
unfolding lookup_radix
closed_lookup zero i t b = refl
closed_lookup (suc n) i t b = refl

-- An address that differs from the prefix keeps what it had.
beside :
    (depth n i : ℕ) (cur : Radix) (a b : Address) (s : ℕ) (ok : ℕ → Bool)
    → depth ≤ n
    → ¬ SameHalves depth i a b
    → lookup_radix n i (cache_radix depth i cur a s ok) b ≡ lookup_radix n i cur b
unfolding cache_radix
beside zero n i cur a b s ok h d = absurd (d tt)
beside (suc depth) zero i cur a b s ok h d = absurd (omega arith)
beside (suc depth) (suc n) i (closed t) a b s ok h d = elim (Bool-cases (ok i)) [
  | inr full ↦ rw full refl
  | inl more ↦ rw more (
      fresh_branch n i t (cache_radix depth (i + 1) (closed 0) a s ok) a b (λ e.
        beside depth n (i + 1) (closed 0) a b s ok (omega arith) (λ r. d (e, r))
        ∙ zero_lookup n (i + 1) b)
      ∙ sym (closed_lookup (suc n) i t b))
]
beside (suc depth) (suc n) i (branching t branch) a b s ok h d =
    old_branch n i t branch (cache_radix depth (i + 1) (branch (half a i)) a s ok) a b
      (λ e. beside depth n (i + 1) (branch (half a i)) a b s ok (omega arith) (λ r. d (e, r)))

-- The session found above a prefix, in the whole tree.
abbrev pub above_prefix : (ℕ → Radix) → ℕ → Address → ℕ
above_prefix ipv6_hash prefixlen ip = shorter (prefixlen / 4 - 1) 1 (ipv6_hash (half ip 0)) ip

-- The address agrees with the prefix in as many whole halves of bytes as its length has, and in
-- one at least.
abbrev pub UnderHalves : ℕ → Address → Address → Type 0
UnderHalves prefixlen prefix ip =
    (half prefix 0 ≡ half ip 0) × SameHalves (prefixlen / 4 - 1) 1 prefix ip

-- After cache_ipv6map of a prefix of at most 128 bits for a session (not 0, below 2 ^ 16), where
-- the length of the prefix is rounded down to whole halves of bytes, at least one: at the
-- addresses that agree with the prefix in those halves, which include neighbours of a prefix
-- whose length is no multiple of 4, lookup_ipv6map finds the session of the shortest prefix
-- above it that has one, and else that session, if the callocs succeed; at every other address
-- it finds what it found before, even if they do not.
pub lookup_ipv6map-cache_ipv6map :
    (ipv6_hash : ℕ → Radix) (prefix ip : Address) (prefixlen s : ℕ) (ok : ℕ → Bool)
    → prefixlen ≤ 128
    → s < 2 ^ 16
    → s ≢ 0
    → let after = lookup_ipv6map (cache_ipv6map ipv6_hash prefix prefixlen s ok) ip in
      (UnderHalves prefixlen prefix ip
        → ((i : ℕ) → ok i ≡ true)
        → after ≡ overridden (above_prefix ipv6_hash prefixlen ip) s)
      × (¬ UnderHalves prefixlen prefix ip → after ≡ lookup_ipv6map ipv6_hash ip)
unfolding lookup_ipv6map cache_ipv6map
lookup_ipv6map-cache_ipv6map ipv6_hash prefix ip prefixlen s ok h small ne =
    let depth = prefixlen / 4 - 1 in
    let s16 = s % 2 ^ 16 in
    let same : s16 ≡ s = omega arith in
    let root = ipv6_hash (half prefix 0) in
    let new = cache_radix depth 1 root prefix s16 ok in
    let look : Radix → ℕ = λ x. lookup_radix 31 1 x ip in
    (
      λ (e, r) mem.
          ap look (at_same ipv6_hash (half prefix 0) (half ip 0) new (sym e))
          ∙ under depth 31 1 root prefix ip s16 ok (omega arith) mem (λ z. ne (sym same ∙ z)) r
          ∙ ap (λ x. overridden (shorter depth 1 root ip) x) same
          ∙ ap (λ x. overridden (shorter depth 1 (ipv6_hash x) ip) s) e,
      λ out. elim (ℕ_discrete (half prefix 0) (half ip 0)) [
        | yes e ↦
            ap look (at_same ipv6_hash (half prefix 0) (half ip 0) new (sym e))
            ∙ beside depth 31 1 root prefix ip s16 ok (omega arith) (λ r. out (e, r))
            ∙ ap (λ x. look (ipv6_hash x)) e
        | no far ↦ ap look (at_other ipv6_hash (half prefix 0) (half ip 0) new (λ e. far (sym e)))
      ],
    )
