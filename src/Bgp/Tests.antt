-- ===== src/Bgp/Tests.antt =====
-- Runs of the route lists on small inputs, and instances of their theorems.
use l2tpns.Prelude.{◌≡◌, ◌≢◌, ◌⊎◌, ◌↔◌, refl, [], ◌∷◌, true, false}
use l2tpns.Bgp.{
  Dest, Bgp, Peer, bgp_add_route, bgp_add_route6, bgp_del_route, bgp_del_route6, memcmp,
}
use l2tpns.Bgp.Lists.{In, Sorted}
use l2tpns.Bgp.Routes.{Flagged, Flagged6, bgp_routes_lem, bgp_routes6_lem}

abbrev net_a : Dest
net_a = 24 ∷ 10 ∷ 0 ∷ 1 ∷ 0 ∷ []

abbrev net_b : Dest
net_b = 32 ∷ 10 ∷ 0 ∷ 0 ∷ 7 ∷ []

abbrev peer : Peer
peer = record {
  established = true;
  handles_ipv6 = false;
  routing = true;
  update_routes = false;
  update_routes6 = false;
}

abbrev start : Bgp
start = record { routes = net_a ∷ net_b ∷ []; routes6 = net_a ∷ []; peers = peer ∷ [] }

start-Sorted : Sorted start.routes
unfolding memcmp
start-Sorted = ((refl, tt), (tt, tt))

add_twice : (bgp_add_route start net_b true).0 ≡ start
unfolding bgp_add_route memcmp
add_twice = refl

bgp_routes_lem_example :
    let (b', r) = bgp_add_route start net_a true in
    let (b'', r') = bgp_del_route start net_a in
    ((r ≡ 1)
      × Sorted b'.routes
      × (In net_b b'.routes ↔ ((net_b ≡ net_a) ⊎ In net_b start.routes))
      × ((b' ≡ start) ⊎ Flagged b'.peers))
    × ((r' ≡ 1)
        × Sorted b''.routes
        × (In net_b b''.routes ↔ (In net_b start.routes × (net_b ≢ net_a)))
        × ((b'' ≡ start) ⊎ Flagged b''.peers))
bgp_routes_lem_example = bgp_routes_lem start net_a net_b start-Sorted

bgp_routes6_lem_example :
    let (b', r) = bgp_add_route6 start net_b true in
    let (b'', r') = bgp_del_route6 start net_b in
    ((r ≡ 1)
      × Sorted b'.routes6
      × (In net_a b'.routes6 ↔ ((net_a ≡ net_b) ⊎ In net_a start.routes6))
      × ((b' ≡ start) ⊎ Flagged6 b'.peers))
    × ((r' ≡ 1)
        × Sorted b''.routes6
        × (In net_a b''.routes6 ↔ (In net_a start.routes6 × (net_a ≢ net_b)))
        × ((b'' ≡ start) ⊎ Flagged6 b''.peers))
bgp_routes6_lem_example = bgp_routes6_lem start net_b net_a (tt, tt)
