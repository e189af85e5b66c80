-- ===== src/IpMap/Tests.antt =====
-- Runs of the map of addresses, and an instance of its theorem.
use l2tpns.Prelude.{ℕ, ◌-◌, ◌^◌, ◌≡◌, ◌≢◌, refl, Bool, true, arith}
use l2tpns.IpMap.{Table, zero_table, lookup_ipmap, cache_ipmap, sessionbyip}
use l2tpns.IpMap.Lookup.{lookup_ipmap-cache_ipmap}

-- 10.0.0.1 is the address of session 5.
abbrev one_session : Table 3
one_session = cache_ipmap (zero_table 3) 0x0a00_0001 5 (λ i. true)

found : sessionbyip one_session (λ s. true) 0x0a00_0001 ≡ 5
unfolding sessionbyip cache_ipmap
found = refl

not_found : sessionbyip one_session (λ s. true) 0x0a00_0002 ≡ 0
unfolding sessionbyip cache_ipmap
not_found = refl

-- The pool index -6000 reads as session 59536.
pool_index :
    sessionbyip
      (cache_ipmap (zero_table 3) 0x0a00_0001 (2 ^ 32 - 6000) (λ i. true))
      (λ s. true)
      0x0a00_0001
    ≡ 59536
unfolding sessionbyip cache_ipmap
pool_index = refl

lookup_ipmap-cache_ipmap_example :
    let after = lookup_ipmap (cache_ipmap one_session 0x0a00_0002 6 (λ i. true)) 0x0a00_0001 in
    (◌≡◌ {A = ℕ} 0x0a00_0001 0x0a00_0002 → ((i : ℕ) → ◌≡◌ {A = Bool} true true) → after ≡ 6)
    × (◌≢◌ {A = ℕ} 0x0a00_0001 0x0a00_0002 → after ≡ lookup_ipmap one_session 0x0a00_0001)
lookup_ipmap-cache_ipmap_example =
    lookup_ipmap-cache_ipmap one_session 0x0a00_0002 0x0a00_0001 6 (λ i. true) (omega arith)
      (omega arith) (omega arith)
