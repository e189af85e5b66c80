-- ===== src/Pool/Rebuild.antt =====
-- What rebuild_address_pool leaves of the pool.
use l2tpns.Prelude.{
  ℕ, zero, suc, ◌+◌, ◌-◌, ◌^◌, ◌<◌, ◌≡◌, ◌⊎◌, inl, inr, refl, sym, ap, ◌∙◌, Bool, true, false, not,
  ◌&&◌, ◌||◌, ◌==◌, arith, ℕ_discrete, if◌then◌else◌, lt_int,
}
use mathlib.Core.Path.{subst}
use l2tpns.IpMap.{Table, put_at, lookup_ipmap, max_session}
use l2tpns.IpMap.Lookup.{at_self, at_other}
use l2tpns.Pool.{
  PoolEntry, Addresses, neg32, max_ip_pool, clear_pool, lose_address, own_address, claim_address,
  claim_addresses, rebuild_address_pool,
}

-- No entry from 1 to `n - 1` is assigned.
abbrev pub AllFree : ℕ → (ℕ → PoolEntry) → Type 0
AllFree n pool = (j : ℕ) → 0 < j → j < n → (pool j).assigned ≡ false

AllFree-put :
    (n i : ℕ) (pool : ℕ → PoolEntry) (e : PoolEntry)
    → AllFree n pool
    → (i ≡ 0) ⊎ (e.assigned ≡ false)
    → AllFree n (put_at pool i e)
AllFree-put n i pool e h c j p q = elim (ℕ_discrete j i) [
  | yes eq ↦ elim c [
    | inl z ↦ absurd (omega arith)
    | inr idle ↦
        subst (λ k. (put_at pool i e k).assigned ≡ false) (sym eq)
          (ap (λ x. x.assigned) (at_self pool i e) ∙ idle)
  ]
  | no ne ↦ ap (λ x. x.assigned) (at_other pool i j e ne) ∙ h j p q
]

AllFree-next :
    (i : ℕ) (pool : ℕ → PoolEntry) (e : PoolEntry)
    → AllFree i pool
    → e.assigned ≡ false
    → AllFree (i + 1) (put_at pool i e)
AllFree-next i pool e h idle j p q = elim (ℕ_discrete j i) [
  | yes eq ↦
      subst (λ k. (put_at pool i e k).assigned ≡ false) (sym eq)
        (ap (λ x. x.assigned) (at_self pool i e) ∙ idle)
  | no ne ↦ ap (λ x. x.assigned) (at_other pool i j e ne) ∙ h j p (omega arith)
]

-- A branch that does not matter, and one that is taken under a test.
AllFree-if :
    (n : ℕ) (b : Bool) (c d : Addresses)
    → AllFree n c.pool
    → (b ≡ false → AllFree n d.pool)
    → AllFree n (if b then c else d).pool
AllFree-if n true c d h k = h
AllFree-if n false c d h k = k refl

clear_pool-AllFree :
    (left i : ℕ) (a : Addresses) (ok : ℕ → Bool)
    → AllFree i a.pool
    → AllFree (i + left) (clear_pool left i a ok).pool
unfolding clear_pool
clear_pool-AllFree zero i a ok h = λ j p q. h j p (omega arith)
clear_pool-AllFree (suc left) i a ok h =
    let cleared =
      AllFree-next i a.pool (record (a.pool i) { assigned = false; session = 0 }) h refl in
    λ j p q.
      clear_pool-AllFree left (i + 1) _ ok
        (AllFree-if (i + 1) ((a.pool i).address == 0) _ _ cleared (λ e. cleared)) j p (omega arith)

-- The C code negates what lookup_ipmap returns, which is never negative.
not_positive : (n : ℕ) → n < 2 ^ 16 → lt_int (neg32 n) 0 ≡ false → neg32 n ≡ 0
not_positive n h e = ground arith

bad_index :
    (n : ℕ)
    → n < 2 ^ 16
    → (lt_int max_ip_pool (neg32 n) || lt_int (neg32 n) 0) ≡ false
    → neg32 n ≡ 0
bad_index n h e = ground (arith, not_positive n h)

lookup_small : (ip_hash : Table 3) (ip : ℕ) → lookup_ipmap ip_hash ip < 2 ^ 16
unfolding lookup_ipmap
lookup_small ip_hash ip = omega arith

-- A session's address is never found at a positive index, so only entry 0 can become assigned.
claim_address-AllFree :
    (n i : ℕ) (a : Addresses) (ok : ℕ → Bool)
    → AllFree n a.pool
    → AllFree n (claim_address i a ok).pool
unfolding claim_address
claim_address-AllFree n i a ok h =
    let x = a.sessions i in
    let found = lookup_ipmap a.ip_hash x.ip in
    let ipid = neg32 found in
    let lost = lt_int max_ip_pool ipid || lt_int ipid 0 in
    let own = own_address i ipid a ok in
    let third = if lost then lose_address i a else own in
    let second = if lt_int x.ip_pool_index 0 && lt_int ipid 1 then a else third in
    let owned : lost ≡ false → AllFree n own.pool =
      λ e. AllFree-put n ipid a.pool _ h (inl (bad_index found (lookup_small a.ip_hash x.ip) e)) in
    AllFree-if n (not (x.opened && not (x.ip == 0))) a second h (λ e.
      AllFree-if n (lt_int x.ip_pool_index 0 && lt_int ipid 1) a third h
        (λ e'. AllFree-if n lost (lose_address i a) own h owned))

claim_addresses-AllFree :
    (left i n : ℕ) (a : Addresses) (ok : ℕ → Bool)
    → AllFree n a.pool
    → AllFree n (claim_addresses left i a ok).pool
unfolding claim_addresses
claim_addresses-AllFree zero i n a ok h = h
claim_addresses-AllFree (suc left) i n a ok h =
    claim_addresses-AllFree left (i + 1) n (claim_address i a ok) ok
      (claim_address-AllFree n i a ok h)

-- rebuild_address_pool leaves every entry of the pool but number 0 unassigned, whatever addresses
-- the sessions have.
pub rebuild_address_pool-AllFree :
    (a : Addresses) (ok : ℕ → Bool) → AllFree max_ip_pool (rebuild_address_pool a ok).pool
unfolding rebuild_address_pool
rebuild_address_pool-AllFree a ok =
    claim_addresses-AllFree max_session 0 max_ip_pool (clear_pool (max_ip_pool - 1) 1 a ok) ok
      (clear_pool-AllFree (max_ip_pool - 1) 1 a ok (λ j p q. absurd (omega arith)))
