-- ===== src/Bgp/Routes.antt =====
-- bgp_add_route, bgp_del_route and their IPv6 twins against the set of announced destinations.
use l2tpns.Prelude.{
  ◌≡◌, ◌≢◌, ◌⊎◌, ◌↔◌, inl, inr, refl, sym, List, [], ◌∷◌, map, true, false, not, ◌&&◌, ◌||◌, arith,
  Bool-cases,
}
use mathlib.Core.Path.{subst}
use l2tpns.Bgp.{
  Dest, covered, unlink_route, Peer, Bgp, flag_peer, flag_peer6, bgp_add_route, bgp_add_route6,
  bgp_del_route, bgp_del_route6,
}
use l2tpns.Bgp.Lists.{In, Sorted, covered-In, insert-Sorted, In-insert, unlink-Sorted, In-unlink}

-- Every established peer is due for an update of its IPv4 routes.
abbrev pub Flagged : List Peer → Type 0
Flagged [] = Unit {0}
Flagged (p ∷ ps) = (not p.established || p.update_routes ≡ true) × Flagged ps

-- Every established peer that handles IPv6 is due for an update of its IPv6 routes.
abbrev pub Flagged6 : List Peer → Type 0
Flagged6 [] = Unit {0}
Flagged6 (p ∷ ps) = (not (p.established && p.handles_ipv6) || p.update_routes6 ≡ true) × Flagged6 ps

map-Flagged : (ps : List Peer) → Flagged (map flag_peer ps)
unfolding flag_peer
map-Flagged [] = tt
map-Flagged (p ∷ ps) = (ground arith, map-Flagged ps)

map-Flagged6 : (ps : List Peer) → Flagged6 (map flag_peer6 ps)
unfolding flag_peer6
map-Flagged6 [] = tt
map-Flagged6 (p ∷ ps) = (ground arith, map-Flagged6 ps)

member_once : (d add : Dest) (l : List Dest) → In add l → In d l ↔ ((d ≡ add) ⊎ In d l)
member_once d add l i = (λ j. inr j, elim [ inl e ↦ subst (λ x. In x l) (sym e) i | inr j ↦ j ])

-- bgp_add_route on a sorted list, memory being available, returns 1, keeps the list sorted and
-- without repetition, and makes its set of destinations exactly the old one and the new route;
-- if that changes the list then every established peer is flagged.
bgp_add_route_lem :
    (b : Bgp) (add d : Dest)
    → Sorted b.routes
    → let (b', r) = bgp_add_route b add true in
      (r ≡ 1)
      × Sorted b'.routes
      × (In d b'.routes ↔ ((d ≡ add) ⊎ In d b.routes))
      × ((b' ≡ b) ⊎ Flagged b'.peers)
unfolding bgp_add_route
bgp_add_route_lem b add d s = elim (Bool-cases (covered b.routes add)) [
  | inl old ↦ simp old (refl, s, member_once d add b.routes (covered-In b.routes add old), inl refl)
  | inr new ↦
      simp new (
        refl,
        insert-Sorted b.routes add s new,
        In-insert d b.routes add,
        inr (map-Flagged b.peers),
      )
]

-- bgp_add_route6, likewise, on the IPv6 list and the peers that handle IPv6.
bgp_add_route6_lem :
    (b : Bgp) (add d : Dest)
    → Sorted b.routes6
    → let (b', r) = bgp_add_route6 b add true in
      (r ≡ 1)
      × Sorted b'.routes6
      × (In d b'.routes6 ↔ ((d ≡ add) ⊎ In d b.routes6))
      × ((b' ≡ b) ⊎ Flagged6 b'.peers)
unfolding bgp_add_route6
bgp_add_route6_lem b add d s = elim (Bool-cases (covered b.routes6 add)) [
  | inl old ↦
      simp old (refl, s, member_once d add b.routes6 (covered-In b.routes6 add old), inl refl)
  | inr new ↦ simp new (
    refl,
    insert-Sorted b.routes6 add s new,
    In-insert d b.routes6 add,
    inr (map-Flagged6 b.peers),
  )
]

-- A search that does not find its entry leaves the list.
unlink_missing :
    (l : List Dest) (del : Dest) → (unlink_route l del).1 ≡ false → (unlink_route l del).0 ≡ l
unfolding unlink_route
unlink_missing [] del h = refl
unlink_missing (r ∷ l) del h = ground (arith, unlink_missing l del)

-- bgp_del_route on a sorted list returns 1, keeps the list sorted, and makes its set of
-- destinations exactly the old one without the route; the established peers are flagged if the
-- list changes.
bgp_del_route_lem :
    (b : Bgp) (del d : Dest)
    → Sorted b.routes
    → let (b', r) = bgp_del_route b del in
      (r ≡ 1)
      × Sorted b'.routes
      × (In d b'.routes ↔ (In d b.routes × (d ≢ del)))
      × ((b' ≡ b) ⊎ Flagged b'.peers)
unfolding bgp_del_route
bgp_del_route_lem b del d s =
    let sorted = unlink-Sorted b.routes del s in
    let members = In-unlink d b.routes del s in
    elim (Bool-cases (unlink_route b.routes del).1) [
      | inl found ↦ simp found (refl, sorted, members, inr (map-Flagged b.peers))
      | inr missing ↦
          let e = unlink_missing b.routes del missing in
          simp missing
            (refl, s, subst (λ l. In d l ↔ (In d b.routes × (d ≢ del))) e members, inl refl)
    ]

-- bgp_del_route6, likewise, on the IPv6 list and the peers that handle IPv6.
bgp_del_route6_lem :
    (b : Bgp) (del d : Dest)
    → Sorted b.routes6
    → let (b', r) = bgp_del_route6 b del in
      (r ≡ 1)
      × Sorted b'.routes6
      × (In d b'.routes6 ↔ (In d b.routes6 × (d ≢ del)))
      × ((b' ≡ b) ⊎ Flagged6 b'.peers)
unfolding bgp_del_route6
bgp_del_route6_lem b del d s =
    let sorted = unlink-Sorted b.routes6 del s in
    let members = In-unlink d b.routes6 del s in
    elim (Bool-cases (unlink_route b.routes6 del).1) [
      | inl found ↦ simp found (refl, sorted, members, inr (map-Flagged6 b.peers))
      | inr missing ↦
          let e = unlink_missing b.routes6 del missing in
          simp missing
            (refl, s, subst (λ l. In d l ↔ (In d b.routes6 × (d ≢ del))) e members, inl refl)
    ]

-- Of a sorted IPv6 list, with memory available: bgp_add_route6 puts the prefix in, once, and
-- bgp_del_route6 takes it out; every other prefix stays, the list stays sorted, both return 1,
-- and unless nothing changes every established peer that handles IPv6 is to be updated.
pub bgp_routes6_lem :
    (b : Bgp) (p d : Dest)
    → Sorted b.routes6
    → let (b', r) = bgp_add_route6 b p true in
      let (b'', r') = bgp_del_route6 b p in
      ((r ≡ 1)
        × Sorted b'.routes6
        × (In d b'.routes6 ↔ ((d ≡ p) ⊎ In d b.routes6))
        × ((b' ≡ b) ⊎ Flagged6 b'.peers))
      × ((r' ≡ 1)
          × Sorted b''.routes6
          × (In d b''.routes6 ↔ (In d b.routes6 × (d ≢ p)))
          × ((b'' ≡ b) ⊎ Flagged6 b''.peers))
bgp_routes6_lem b p d s = (bgp_add_route6_lem b p d s, bgp_del_route6_lem b p d s)

-- Of a sorted IPv4 list, with memory available: bgp_add_route puts the route in, once, and
-- bgp_del_route takes it out; every other route stays, the list stays sorted, both return 1, and
-- unless nothing changes every established peer is to be updated.
pub bgp_routes_lem :
    (b : Bgp) (p d : Dest)
    → Sorted b.routes
    → let (b', r) = bgp_add_route b p true in
      let (b'', r') = bgp_del_route b p in
      ((r ≡ 1)
        × Sorted b'.routes
        × (In d b'.routes ↔ ((d ≡ p) ⊎ In d b.routes))
        × ((b' ≡ b) ⊎ Flagged b'.peers))
      × ((r' ≡ 1)
          × Sorted b''.routes
          × (In d b''.routes ↔ (In d b.routes × (d ≢ p)))
          × ((b'' ≡ b) ⊎ Flagged b''.peers))
bgp_routes_lem b p d s = (bgp_add_route_lem b p d s, bgp_del_route_lem b p d s)
