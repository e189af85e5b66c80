-- ===== src/Ipv6Map.antt =====
-- lookup_ipv6map and cache_ipv6map of l2tpns.c: the radix tree from IPv6 prefixes to sessions. An
-- address is the function that gives its bytes; the tree branches on their halves, the high one
-- first. A prefix counts in whole halves: cache_ipv6map drops the other bits of its length.
pub mod Lookup
mod Tests
use l2tpns.Prelude.{ℕ, zero, suc, ◌+◌, ◌-◌, ◌/◌, ◌%◌, ◌^◌, Bool, true, false, ◌==◌, if◌then◌else◌}
use l2tpns.IpMap.{put_at}

-- `struct ipv6radix` with `branch` NULL, or 16 nodes.
pub data Radix : Type 0 where
  closed : ℕ → Radix
  branching : ℕ → (ℕ → Radix) → Radix

-- `sess`
abbrev pub sess : Radix → ℕ
sess (closed s) = s
sess (branching s branch) = s

abbrev pub with_sess : Radix → ℕ → Radix
with_sess (closed t) s = closed s
with_sess (branching t branch) s = branching s branch

abbrev pub Address : Type 0
Address = ℕ → ℕ

-- The half of a byte that the loops use at `i`.
abbrev pub half : Address → ℕ → ℕ
half ip i = if i % 2 == 1 then ip (i / 2) % 16 else ip (i / 2) / 16

-- The loop of lookup_ipv6map, with `left` rounds to go from `i` on.
pub lookup_radix : ℕ → ℕ → Radix → Address → ℕ
lookup_radix zero i cur ip = sess cur
lookup_radix (suc left) i (closed s) ip = s
lookup_radix (suc left) i (branching s branch) ip =
    let rest = lookup_radix left (i + 1) (branch (half ip i)) ip in if s == 0 then rest else s

unfoldable pub lookup_ipv6map : (ℕ → Radix) → Address → ℕ
unfolding lookup_radix
lookup_ipv6map ipv6_hash ip = lookup_radix 31 1 (ipv6_hash (half ip 0)) ip

-- What calloc returns.
abbrev pub no_branch : ℕ → Radix
no_branch = λ b. closed 0

-- The loop of cache_ipv6map and the assignment behind it; `ok i` says whether calloc succeeds.
pub cache_radix : ℕ → ℕ → Radix → Address → ℕ → (ℕ → Bool) → Radix
cache_radix zero i cur ip s ok = with_sess cur s
cache_radix (suc left) i (closed t) ip s ok =
    let new = cache_radix left (i + 1) (closed 0) ip s ok in
    if ok i then branching t (put_at no_branch (half ip i) new) else closed t
cache_radix (suc left) i (branching t branch) ip s ok =
    let new = cache_radix left (i + 1) (branch (half ip i)) ip s ok in
    branching t (put_at branch (half ip i) new)

unfoldable pub cache_ipv6map : (ℕ → Radix) → Address → ℕ → ℕ → (ℕ → Bool) → ℕ → Radix
unfolding cache_radix
cache_ipv6map ipv6_hash ip prefixlen s ok =
    let new = cache_radix (prefixlen / 4 - 1) 1 (ipv6_hash (half ip 0)) ip (s % 2 ^ 16) ok in
    put_at ipv6_hash (half ip 0) new
