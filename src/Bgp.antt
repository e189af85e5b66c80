-- ===== src/Bgp.antt =====
-- bgp.c: the sorted lists of routes that are announced, and the peers that are told of changes.
-- A destination is the bytes of `struct bgp_ip_prefix` or `bgp_ip6_prefix`, length first, which
-- memcmp compares; a list stands for the chain of `next` pointers.
pub mod Order
pub mod Lists
pub mod Routes
mod Tests
use Prim.Native.Nat.{compare, Ordering}
use l2tpns.Prelude.{ℕ, List, [], ◌∷◌, map, Bool, true, false, ◌&&◌, if◌then◌else◌}

abbrev pub Dest : Type 0
Dest = List ℕ

-- memcmp on two blocks of one length.
pub memcmp : Dest → Dest → Ordering
memcmp [] [] = Ordering.eq
memcmp [] (y ∷ ys) = Ordering.lt
memcmp (x ∷ xs) [] = Ordering.gt
memcmp (x ∷ xs) (y ∷ ys) = elim (compare x y) [
  | Ordering.lt ↦ Ordering.lt
  | Ordering.eq ↦ memcmp xs ys
  | Ordering.gt ↦ Ordering.gt
]

abbrev pub is_lt : Ordering → Bool
is_lt Ordering.lt = true
is_lt Ordering.eq = false
is_lt Ordering.gt = false

-- bgp_insert_route and bgp_insert_route6: behind the entries that are smaller.
pub insert_route : List Dest → Dest → List Dest
insert_route [] new = new ∷ []
insert_route (p ∷ head) new =
    let rest = insert_route head new in if is_lt (memcmp p new) then p ∷ rest else new ∷ p ∷ head

-- The duplicate check at the start of bgp_add_route, which stops at a larger entry.
pub covered : List Dest → Dest → Bool
covered [] add = false
covered (r ∷ routes) add = elim (memcmp r add) [
  | Ordering.lt ↦ covered routes add
  | Ordering.eq ↦ true
  | Ordering.gt ↦ false
]

-- The search of bgp_del_route: the list without the entry, and whether it was found.
pub unlink_route : List Dest → Dest → List Dest × Bool
unlink_route [] del = ([], false)
unlink_route (r ∷ routes) del =
    let (rest, found) = unlink_route routes del in
    elim (memcmp r del) [
      | Ordering.lt ↦ (r ∷ rest, found)
      | Ordering.eq ↦ (routes, true)
      | Ordering.gt ↦ (r ∷ routes, false)
    ]

-- The fields of `struct bgp_peer` that routing reads and writes.
pub record Peer : Type 0 where
  pub established : Bool
  pub handles_ipv6 : Bool
  pub routing : Bool
  pub update_routes : Bool
  pub update_routes6 : Bool

-- bgp_routes, bgp_routes6 and bgp_peers.
pub record Bgp : Type 0 where
  pub routes : List Dest
  pub routes6 : List Dest
  pub peers : List Peer

-- "flag established peers for update"
pub flag_peer : Peer → Peer
flag_peer p = if p.established then record p { update_routes = true } else p

pub flag_peer6 : Peer → Peer
flag_peer6 p = if p.established && p.handles_ipv6 then record p { update_routes6 = true } else p

-- The value returned is beside the state; `ok` says whether malloc succeeds.
pub bgp_add_route : Bgp → Dest → Bool → Bgp × ℕ
unfolding covered insert_route flag_peer
bgp_add_route b add ok =
    if covered b.routes add
    then (b, 1)
    else if ok
    then (record b { routes = insert_route b.routes add; peers = map flag_peer b.peers }, 1)
    else (b, 0)

pub bgp_add_route6 : Bgp → Dest → Bool → Bgp × ℕ
unfolding covered insert_route flag_peer6
bgp_add_route6 b add ok =
    if covered b.routes6 add
    then (b, 1)
    else if ok
    then (record b { routes6 = insert_route b.routes6 add; peers = map flag_peer6 b.peers }, 1)
    else (b, 0)

pub bgp_del_route : Bgp → Dest → Bgp × ℕ
unfolding unlink_route flag_peer
bgp_del_route b del =
    let (routes, found) = unlink_route b.routes del in
    if found then (record b { routes = routes; peers = map flag_peer b.peers }, 1) else (b, 1)

pub bgp_del_route6 : Bgp → Dest → Bgp × ℕ
unfolding unlink_route flag_peer6
bgp_del_route6 b del =
    let (routes, found) = unlink_route b.routes6 del in
    if found then (record b { routes6 = routes; peers = map flag_peer6 b.peers }, 1) else (b, 1)

pub bgp_enable_routing : Bgp → Bool → Bgp
unfolding flag_peer
bgp_enable_routing b enable = record b {
  peers = map (λ p. flag_peer (record p { routing = enable })) b.peers;
}
