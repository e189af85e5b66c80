-- ===== src/Pool/Ownership.antt =====
-- The pool and the sessions agree on who has which address.
use l2tpns.Prelude.{
  ℕ, ◌^◌, ◌<◌, ◌≡◌, ◌≢◌, ◌⊎◌, inl, inr, refl, sym, ap, ◌∙◌, none, some, Bool, true, false, ◌==◌,
  arith, ℕ_discrete, Bool-cases, if◌then◌else◌, lt_int,
}
use mathlib.Core.Path.{subst}
use l2tpns.IpMap.{put_at}
use l2tpns.IpMap.Lookup.{at_self, at_same, at_other}
use l2tpns.Pool.{PoolEntry, PoolSession, Addresses, free_ip_address}
use l2tpns.Pool.Choice.{Choice}

-- A session has an address of the pool.
abbrev pub Holds : PoolSession → Type 0
Holds x = (x.ip ≢ 0) × (0 < x.ip_pool_index) × x.ip_pool_index < 2 ^ 31

-- The entry is that session's.
abbrev pub BelongsTo : PoolEntry → ℕ → ℕ → Type 0
BelongsTo e s ip = (e.assigned ≡ true) × (e.session ≡ s) × (e.address ≡ ip)

abbrev pub Owned : (ℕ → PoolEntry) → (ℕ → PoolSession) → Type 0
Owned pool sessions =
    (s : ℕ) → Holds (sessions s) → BelongsTo (pool (sessions s).ip_pool_index) s (sessions s).ip

-- No two sessions have one entry of the pool.
Owned-injective :
    (pool : ℕ → PoolEntry) (sessions : ℕ → PoolSession) (s t : ℕ)
    → Owned pool sessions
    → Holds (sessions s)
    → Holds (sessions t)
    → (sessions s).ip_pool_index ≡ (sessions t).ip_pool_index
    → s ≡ t
Owned-injective pool sessions s t h hs ht e =
    let (a, b, c) = h s hs in let (d, f, g) = h t ht in sym b ∙ ap (λ i. (pool i).session) e ∙ f

-- A session whose entry is not the one that changes keeps it.
keeps :
    (pool : ℕ → PoolEntry) (t b : ℕ) (e : PoolEntry) (x : PoolSession)
    → x.ip_pool_index ≢ b
    → BelongsTo (pool x.ip_pool_index) t x.ip
    → BelongsTo (put_at pool b e x.ip_pool_index) t x.ip
keeps pool t b e x ne h =
    subst (λ q. BelongsTo q t x.ip) (sym (at_other pool b x.ip_pool_index e ne)) h

-- A session gives up its entry, or an entry 0 that no session can have.
Owned-leave :
    (pool : ℕ → PoolEntry) (sessions : ℕ → PoolSession) (s i : ℕ) (e : PoolEntry) (x : PoolSession)
    → Owned pool sessions
    → x.ip ≡ 0
    → (i ≡ 0) ⊎ (Holds (sessions s) × ((sessions s).ip_pool_index ≡ i))
    → Owned (put_at pool i e) (put_at sessions s x)
Owned-leave pool sessions s i e x h out held t = elim (ℕ_discrete t s) [
  | yes eq ↦
      subst (λ y. Holds y → BelongsTo (put_at pool i e y.ip_pool_index) t y.ip)
        (sym (at_same sessions s t x eq)) (λ (ip, pos, small). absurd (ip out))
  | no ne ↦
      subst (λ y. Holds y → BelongsTo (put_at pool i e y.ip_pool_index) t y.ip)
        (sym (at_other sessions s t x ne))
        (λ hold.
          keeps pool t i e (sessions t)
            (λ q. elim held [
              | inl z ↦ let (ip, pos, small) = hold in absurd (omega arith)
              | inr (mine, j) ↦
                  absurd (ne (Owned-injective pool sessions t s h hold mine (q ∙ sym j)))
            ])
            (h t hold))
]

-- What assign_ip_address does: it returns 0 and changes nothing
-- if no entry can be chosen; or it returns 1 with the chosen entry.
pub data Assigned (a : Addresses) (s : ℕ) : Addresses × ℕ → Type 0 where
  refused : Choice (a.sessions s) a.pool a.time_now a.pool_size none → Assigned a s (a, 0)
  granted :
      (b : ℕ) (a' : Addresses)
      → Choice (a.sessions s) a.pool a.time_now a.pool_size (some b)
      → (a'.sessions s).ip ≡ (a.pool b).address
      → (a'.sessions s).ip ≢ 0
      → (a'.sessions s).ip_pool_index ≡ b
      → BelongsTo (a'.pool b) s (a.pool b).address
      → ((t : ℕ) → t ≢ s → a'.sessions t ≡ a.sessions t)
      → ((j : ℕ) → j ≢ b → a'.pool j ≡ a.pool j)
      → Owned a'.pool a'.sessions
      → Assigned a s (a', 1)

-- The index that free_ip_address uses.
abbrev pub freed_index : PoolSession → ℕ
freed_index x = if lt_int x.ip_pool_index 0 then 0 else x.ip_pool_index

freed_index_cases :
    (x : PoolSession)
    → x.ip ≢ 0
    → x.ip_pool_index < 2 ^ 32
    → (freed_index x ≡ 0) ⊎ (Holds x × (x.ip_pool_index ≡ freed_index x))
freed_index_cases x ip h = elim (Bool-cases (lt_int x.ip_pool_index 0)) [
  | inl below ↦ rw below (inl refl)
  | inr above ↦ rw above (nonnegative x ip h above)
]
  where
    nonnegative :
        (x : PoolSession)
        → x.ip ≢ 0
        → x.ip_pool_index < 2 ^ 32
        → lt_int x.ip_pool_index 0 ≡ false
        → (x.ip_pool_index ≡ 0) ⊎ (Holds x × (x.ip_pool_index ≡ x.ip_pool_index))
    nonnegative x ip h above = elim (ℕ_discrete x.ip_pool_index 0) [
      | yes z ↦ inl z
      | no nz ↦ inr ((ip, omega arith, ground arith), refl)
    ]

freed_index-Holds : (x : PoolSession) → Holds x → x.ip_pool_index ≡ freed_index x
freed_index-Holds x (ip, pos, small) =
    let e : lt_int x.ip_pool_index 0 ≡ false = ground arith in rw e refl

release :
    (a : Addresses) (s i : ℕ) (e : PoolEntry) (x : PoolSession)
    → Owned a.pool a.sessions
    → x.ip ≡ 0
    → e.assigned ≡ false
    → (i ≡ 0) ⊎ (Holds (a.sessions s) × ((a.sessions s).ip_pool_index ≡ i))
    → (Holds (a.sessions s) → (a.sessions s).ip_pool_index ≡ i)
    → Owned (put_at a.pool i e) (put_at a.sessions s x)
      × ((put_at a.sessions s x s).ip ≡ 0)
      × (Holds (a.sessions s) → (put_at a.pool i e (a.sessions s).ip_pool_index).assigned ≡ false)
release a s i e x own out idle cases index = (
  Owned-leave a.pool a.sessions s i e x own out cases,
  ap (λ y. y.ip) (at_self a.sessions s x) ∙ out,
  λ h. ap (λ q. q.assigned) (at_same a.pool i (a.sessions s).ip_pool_index e (index h)) ∙ idle,
)

-- free_ip_address keeps the pool addresses of all sessions unshared; the session is left without
-- an address, and its entry of the pool, if it had one, is free.
pub free_ip_address-Owned :
    (a : Addresses) (s : ℕ) (ok : ℕ → Bool)
    → Owned a.pool a.sessions
    → (a.sessions s).ip_pool_index < 2 ^ 32
    → let a' = free_ip_address a s ok in
      Owned a'.pool a'.sessions
      × ((a'.sessions s).ip ≡ 0)
      × (Holds (a.sessions s) → (a'.pool (a.sessions s).ip_pool_index).assigned ≡ false)
unfolding free_ip_address
free_ip_address-Owned a s ok own small = elim (Bool-cases ((a.sessions s).ip == 0)) [
  | inl bare ↦ rw bare (own, ground arith, λ (ip, pos, lt). absurd (ip (ground arith)))
  | inr held ↦ rw held (
      release a s (freed_index (a.sessions s)) _ _ own refl refl
        (freed_index_cases (a.sessions s) (λ z. ground arith) small)
        (freed_index-Holds (a.sessions s)))
]
