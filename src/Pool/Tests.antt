-- ===== src/Pool/Tests.antt =====
-- Runs of the address pool, and instances of its theorems.
use l2tpns.Prelude.{ℕ, zero, suc, ◌≡◌, refl, [], ◌∷◌, true, false, arith}
use l2tpns.IpMap.{zero_table, lookup_ipmap}
use l2tpns.Pool.{
  PoolEntry, PoolSession, Addresses, max_ip_pool, assign_ip_address, free_ip_address,
  rebuild_address_pool,
}
use l2tpns.Pool.Ownership.{Holds, Owned, free_ip_address-Owned}
use l2tpns.Pool.Rebuild.{AllFree, rebuild_address_pool-AllFree}

abbrev unused : PoolEntry
unused = record { address = 0; assigned = false; session = 0; last = 0; user = [] }

-- 10.0.0.1 is assigned to session 1; 10.0.0.2 was "b"'s, and 10.0.0.3 "c"'s, longer ago.
abbrev pool : ℕ → PoolEntry
pool zero = unused
pool (suc zero) = record {
  address = 0x0a00_0001;
  assigned = true;
  session = 1;
  last = 7;
  user = 97 ∷ [];
}
pool (suc (suc zero)) = record unused { address = 0x0a00_0002; last = 6; user = 98 ∷ [] }
pool (suc (suc (suc zero))) = record unused { address = 0x0a00_0003; last = 4; user = 99 ∷ [] }
pool (suc (suc (suc (suc i)))) = unused

abbrev nobody : PoolSession
nobody = record { opened = false; user = []; walled_garden = false; ip = 0; ip_pool_index = 0 }

abbrev sessions : ℕ → PoolSession
sessions zero = nobody
sessions (suc zero) = record nobody {
  opened = true;
  user = 97 ∷ [];
  ip = 0x0a00_0001;
  ip_pool_index = 1;
}
sessions (suc (suc zero)) = record nobody { opened = true; user = 98 ∷ [] }
sessions (suc (suc (suc s))) = record nobody { opened = true; user = 100 ∷ [] }

abbrev addresses : Addresses
addresses = record {
  pool = pool;
  pool_size = 4;
  sessions = sessions;
  ip_hash = zero_table 3;
  time_now = 9;
}

own_address_again : ((assign_ip_address addresses 2).0.sessions 2).ip ≡ 0x0a00_0002
unfolding assign_ip_address
own_address_again = refl

oldest_address : ((assign_ip_address addresses 3).0.sessions 3).ip ≡ 0x0a00_0003
unfolding assign_ip_address
oldest_address = refl

-- An address that is freed is in the map under minus its index in the pool.
freed_index_in_map :
    lookup_ipmap (free_ip_address addresses 1 (λ i. true)).ip_hash 0x0a00_0001 ≡ 65535
unfolding free_ip_address lookup_ipmap
freed_index_in_map = refl

addresses-Owned : Owned pool sessions
addresses-Owned zero h = absurd (h.0 refl)
addresses-Owned (suc zero) h = (refl, refl, refl)
addresses-Owned (suc (suc zero)) h = absurd (h.0 refl)
addresses-Owned (suc (suc (suc s))) h = absurd (h.0 refl)

free_ip_address-Owned_example :
    let a' = free_ip_address addresses 1 (λ i. true) in
    Owned a'.pool a'.sessions
    × ((a'.sessions 1).ip ≡ 0)
    × (Holds (sessions 1) → (a'.pool 1).assigned ≡ false)
free_ip_address-Owned_example =
    free_ip_address-Owned addresses 1 (λ i. true) addresses-Owned (omega arith)

rebuild_address_pool-AllFree_example :
    AllFree max_ip_pool (rebuild_address_pool addresses (λ i. true)).pool
rebuild_address_pool-AllFree_example = rebuild_address_pool-AllFree addresses (λ i. true)
