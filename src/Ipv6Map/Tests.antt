-- ===== src/Ipv6Map/Tests.antt =====
-- Runs of the map of IPv6 prefixes, and an instance of its theorem.
use l2tpns.Prelude.{ℕ, zero, suc, ◌≡◌, refl, true, arith, Bool}
use l2tpns.Ipv6Map.{Radix, closed, Address, lookup_ipv6map, cache_ipv6map}
use l2tpns.Ipv6Map.Lookup.{UnderHalves, overridden, above_prefix, lookup_ipv6map-cache_ipv6map}

abbrev empty : ℕ → Radix
empty = λ b. closed 0

-- Addresses that begin with 20 and the byte x in hexadecimal.
abbrev host : ℕ → Address
host x zero = 0x20
host x (suc zero) = x
host x (suc (suc i)) = 0

-- 2001::/16 is of session 7.
abbrev one_prefix : ℕ → Radix
one_prefix = cache_ipv6map empty (host 1) 16 7 (λ i. true)

inside : lookup_ipv6map one_prefix (host 1) ≡ 7
unfolding lookup_ipv6map cache_ipv6map
inside = refl

outside : lookup_ipv6map one_prefix (host 2) ≡ 0
unfolding lookup_ipv6map cache_ipv6map
outside = refl

-- The last 2 bits of a length of 14 are dropped: the prefix covers 2000::/12.
rounded : lookup_ipv6map (cache_ipv6map empty (host 1) 14 7 (λ i. true)) (host 9) ≡ 7
unfolding lookup_ipv6map cache_ipv6map
rounded = refl

lookup_ipv6map-cache_ipv6map_example :
    let after = lookup_ipv6map (cache_ipv6map empty (host 1) 16 7 (λ i. true)) (host 1) in
    (UnderHalves 16 (host 1) (host 1)
      → ((i : ℕ) → ◌≡◌ {A = Bool} true true)
      → after ≡ overridden (above_prefix empty 16 (host 1)) 7)
    × (¬ UnderHalves 16 (host 1) (host 1) → after ≡ lookup_ipv6map empty (host 1))
lookup_ipv6map-cache_ipv6map_example =
    lookup_ipv6map-cache_ipv6map empty (host 1) (host 1) 16 7 (λ i. true) (omega arith)
      (omega arith) (λ e. ground arith)
