-- ===== src/IpMap.antt =====
-- lookup_ipmap, cache_ipmap, uncache_ipmap and sessionbyip of l2tpns.c: the map from addresses to
-- sessions. `ip_hash` is a table of depth 3: its entries are NULL or a table of one level less,
-- and those of a table of level 0 are sessions. A `sessionidt` has 16 bits. An address is its
-- value in host order, also where the C code has it in network order.
pub mod Lookup
mod Tests
use l2tpns.Prelude.{
  ℕ, zero, suc, ◌+◌, ◌-◌, ◌*◌, ◌/◌, ◌%◌, ◌^◌, Option, none, some, Bool, true, false, not, ◌&&◌, ltb,
  ◌==◌, if◌then◌else◌,
}

abbrev pub Table : ℕ → Type 0
Table zero = ℕ → ℕ
Table (suc n) = ℕ → Option (Table n)

-- What calloc returns.
abbrev pub zero_table : (n : ℕ) → Table n
zero_table zero = λ b. 0
zero_table (suc n) = λ b. none

-- A table with one entry changed.
abbrev pub put_at {ℓ} : {A : Type ℓ} → (ℕ → A) → ℕ → A → ℕ → A
put_at t b v = λ c. if c == b then v else t c

-- Byte `i` of an address in network order.
abbrev pub byte : ℕ → ℕ → ℕ
byte ip i = ip / 2 ^ (8 * (3 - i)) % 256

-- `h[a].idx` and the rest of the walk, which ends at NULL.
abbrev pub through {ℓ} : {A : Type ℓ} → (A → ℕ) → Option A → ℕ
through walk none = 0
through walk (some h) = walk h

-- The walk of lookup_ipmap, with byte `i` in hand.
pub lookup_from : (n : ℕ) → Table n → (ℕ → ℕ) → ℕ → ℕ
lookup_from zero h a i = h (a i)
lookup_from (suc n) h a i = through (λ g. lookup_from n g a (i + 1)) (h (a i))

unfoldable pub lookup_ipmap : Table 3 → ℕ → ℕ
unfolding lookup_from
lookup_ipmap ip_hash ip = lookup_from 3 ip_hash (byte ip) 0 % 2 ^ 16

-- `h[a].idx || (h[a].idx = calloc(…))`, and what the rest of the walk makes of the table there.
abbrev pub extend {ℓ} : {A : Type ℓ} → (A → A) → A → Bool → Option A → Option A
extend walk fresh ok none = if ok then some (walk fresh) else none
extend walk fresh ok (some h) = some (walk h)

-- The walk of cache_ipmap; `ok i` says whether the calloc for byte `i` succeeds.
pub cache_from : (n : ℕ) → Table n → (ℕ → ℕ) → ℕ → ℕ → (ℕ → Bool) → Table n
cache_from zero h a i s ok = put_at h (a i) s
cache_from (suc n) h a i s ok =
    put_at h (a i) (extend (λ g. cache_from n g a (i + 1) s ok) (zero_table n) (ok i) (h (a i)))

unfoldable pub cache_ipmap : Table 3 → ℕ → ℕ → (ℕ → Bool) → Table 3
unfolding cache_from
cache_ipmap ip_hash ip s ok = cache_from 3 ip_hash (byte ip) 0 (s % 2 ^ 16) ok

pub uncache_ipmap : Table 3 → ℕ → (ℕ → Bool) → Table 3
unfolding cache_ipmap
uncache_ipmap ip_hash ip ok = cache_ipmap ip_hash ip 0 ok

abbrev pub max_session : ℕ
max_session = 60000

-- `opened` says which sessions are.
unfoldable pub sessionbyip : Table 3 → (ℕ → Bool) → ℕ → ℕ
unfolding lookup_ipmap
sessionbyip ip_hash opened ip =
    let s = lookup_ipmap ip_hash ip in if ltb 0 s && ltb s max_session && opened s then s else 0
