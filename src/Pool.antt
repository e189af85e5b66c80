-- ===== src/Pool.antt =====
-- assign_ip_address, free_ip_address and rebuild_address_pool of l2tpns.c: the pool of addresses
-- that are handed out to sessions. The pool and the session table are functions of the index; an
-- entry of the pool with address 0 is unused. `ip_pool_index` is an `int`, negative for an address
-- that is not from the pool. A user name is the list of its characters.
pub mod Choice
pub mod Ownership
pub mod Rebuild
mod Tests
use l2tpns.Prelude.{
  ℕ, zero, suc, ◌+◌, ◌-◌, ◌^◌, List, [], ◌∷◌, Option, none, some, Bool, true, false, not, ◌&&◌,
  ◌||◌, ltb, ◌==◌, if◌then◌else◌, take, sub32, lt_int,
}
use l2tpns.IpMap.{Table, put_at, cache_ipmap, lookup_ipmap, max_session}

-- `ippoolt`
pub record PoolEntry : Type 0 where
  pub address : ℕ
  pub assigned : Bool
  pub session : ℕ
  pub last : ℕ
  pub user : List ℕ

-- The fields of `sessiont` that these functions read and write.
pub record PoolSession : Type 0 where
  pub opened : Bool
  pub user : List ℕ
  pub walled_garden : Bool
  pub ip : ℕ
  pub ip_pool_index : ℕ

-- ip_address_pool, ip_pool_size, session, ip_hash and time_now.
pub record Addresses : Type 0 where
  pub pool : ℕ → PoolEntry
  pub pool_size : ℕ
  pub sessions : ℕ → PoolSession
  pub ip_hash : Table 3
  pub time_now : ℕ

-- `!strcmp`
unfoldable pub same_user : List ℕ → List ℕ → Bool
same_user [] [] = true
same_user [] (y ∷ ys) = false
same_user (x ∷ xs) [] = false
same_user (x ∷ xs) (y ∷ ys) = x == y && same_user xs ys

abbrev pub is_empty : List ℕ → Bool
is_empty [] = true
is_empty (c ∷ cs) = false

-- The tests of the loop of assign_ip_address.
pub is_taken : PoolEntry → Bool
is_taken e = e.address == 0 || e.assigned

pub is_sticky : PoolSession → PoolEntry → Bool
unfolding same_user
is_sticky x e = not x.walled_garden && not (is_empty e.user) && same_user x.user e.user

-- The loop, with `left` entries to look at from entry `i` on; `none` is -1.
pub choose : ℕ → ℕ → PoolSession → (ℕ → PoolEntry) → Option ℕ → ℕ → Option ℕ
unfolding is_taken is_sticky
choose zero i x pool best best_time = best
choose (suc left) i x pool best best_time =
    let e = pool i in
    let next = choose left (i + 1) x pool best best_time in
    let older = choose left (i + 1) x pool (some i) e.last in
    if is_taken e
    then next
    else if is_sticky x e
    then some i
    else if not (ltb e.last best_time)
    then next
    else if e.last == 0
    then some i
    else older

-- `sizeof(user) - 1`, the most that strncpy copies.
abbrev pub max_user : ℕ
max_user = 128

abbrev pub grant_address : Addresses → ℕ → Option ℕ → Addresses × ℕ
grant_address a s none = (a, 0)
grant_address a s (some best) =
    let x = a.sessions s in
    let e = a.pool best in
    let owned = record e {
      assigned = true;
      last = a.time_now;
      session = s;
      user = if x.walled_garden then [] else take max_user x.user;
    } in
    let served = record x { ip = e.address; ip_pool_index = best } in
    (record a { sessions = put_at a.sessions s served; pool = put_at a.pool best owned }, 1)

-- The value returned is beside the state.
pub assign_ip_address : Addresses → ℕ → Addresses × ℕ
unfolding choose
assign_ip_address a s =
    grant_address a s (choose (a.pool_size - 1) 1 (a.sessions s) a.pool none a.time_now)

-- `-i` for a 32-bit `i`
abbrev pub neg32 : ℕ → ℕ
neg32 i = sub32 0 i

-- `ok` is what calloc says to cache_ipmap.
pub free_ip_address : Addresses → ℕ → (ℕ → Bool) → Addresses
unfolding cache_ipmap
free_ip_address a s ok =
    let x = a.sessions s in
    let i = if lt_int x.ip_pool_index 0 then 0 else x.ip_pool_index in
    let e = a.pool i in
    let freed = record e { assigned = false; session = 0; last = a.time_now } in
    if x.ip == 0 then a else record a {
      ip_hash = cache_ipmap a.ip_hash x.ip (neg32 i) ok;
      sessions = put_at a.sessions s (record x { ip = 0 });
      pool = put_at a.pool i freed;
    }

abbrev pub max_ip_pool : ℕ
max_ip_pool = 131072

-- The first loop of rebuild_address_pool, with `left` entries to go from entry `i` on.
pub clear_pool : ℕ → ℕ → Addresses → (ℕ → Bool) → Addresses
unfolding cache_ipmap
clear_pool zero i a ok = a
clear_pool (suc left) i a ok =
    let e = a.pool i in
    let cleared = record a {
      pool = put_at a.pool i (record e { assigned = false; session = 0 });
    } in
    let mapped = record cleared { ip_hash = cache_ipmap a.ip_hash e.address (neg32 i) ok } in
    clear_pool left (i + 1) (if e.address == 0 then cleared else mapped) ok

-- "Session %u has a pool IP that's not found in the pool!"
abbrev pub lose_address : ℕ → Addresses → Addresses
lose_address i a =
    let x = a.sessions i in
    record a { sessions = put_at a.sessions i (record x { ip_pool_index = neg32 1 }) }

abbrev pub own_address : ℕ → ℕ → Addresses → (ℕ → Bool) → Addresses
own_address i ipid a ok =
    let x = a.sessions i in
    let e = a.pool ipid in
    let owned = record e {
      assigned = true;
      session = i;
      last = a.time_now;
      user = take max_user x.user;
    } in
    record a {
      pool = put_at a.pool ipid owned;
      sessions = put_at a.sessions i (record x { ip_pool_index = ipid });
      ip_hash = cache_ipmap a.ip_hash x.ip i ok;
    }

-- What the second loop does for session `i`; the C code looks up htonl(session[i].ip).
pub claim_address : ℕ → Addresses → (ℕ → Bool) → Addresses
unfolding cache_ipmap lookup_ipmap
claim_address i a ok =
    let x = a.sessions i in
    let ipid = neg32 (lookup_ipmap a.ip_hash x.ip) in
    if not (x.opened && not (x.ip == 0))
    then a
    else if lt_int x.ip_pool_index 0 && lt_int ipid 1
    then a
    else if lt_int max_ip_pool ipid || lt_int ipid 0
    then lose_address i a
    else own_address i ipid a ok

pub claim_addresses : ℕ → ℕ → Addresses → (ℕ → Bool) → Addresses
unfolding claim_address
claim_addresses zero i a ok = a
claim_addresses (suc left) i a ok = claim_addresses left (i + 1) (claim_address i a ok) ok

pub rebuild_address_pool : Addresses → (ℕ → Bool) → Addresses
unfolding clear_pool claim_addresses
rebuild_address_pool a ok = claim_addresses max_session 0 (clear_pool (max_ip_pool - 1) 1 a ok) ok
