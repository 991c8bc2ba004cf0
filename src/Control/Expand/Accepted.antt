-- ===== src/Control/Expand/Accepted.antt =====
-- A token minted by natforge-backend from well-formed rows, as natforge-node reads it.
use natforge_thesis.Prelude.{
  ℕ, ◌≡◌, ◌≢◌, ◌⊎◌, ◌+◌, ◌<◌, refl, true, false, ◌||◌, Bytes, List, [], ◌∷◌, ◌++◌, All, Option,
  arith, Result, ok,
}
use natforge_thesis.Proto.Route.{RouteMode, http, https, tcp, udp, both, is_host_routed}
use natforge_thesis.Proto.Claims.{RouteClaim, TunnelClaims, is_some, contains, validate_shape}
use natforge_thesis.Proto.Claims.Shape.{WellShaped, Fresh, validate_shape_iff}
use natforge_thesis.Control.Policy.{parse_kind}
use natforge_thesis.Control.Expand.{
  RouteRow, TunnelRow, both_udp_route_offset, to_u16, expand_as, expand_both, expand_single,
  expand_route, expand_routes, tunnel_claims, build_reservation, verify_tunnel_token,
}

-- What the allocation gives every row: an id below the offset, and a port if it is dedicated.
abbrev pub IsRow : RouteRow → Type 0
IsRow r =
    (r.route_id < both_udp_route_offset)
    × ((is_host_routed (parse_kind r.kind) ≡ true) ⊎ (is_some r.public_port ≡ true))

-- The ids differ from each other and from `seen`.
abbrev pub Apart : List ℕ → List RouteRow → Type 0
Apart seen [] = Unit {0}
Apart seen (r ∷ rs) = (contains r.route_id seen ≡ false) × Apart (r.route_id ∷ seen) rs

abbrev pub IsWire : RouteClaim → Type 0
IsWire c = WellShaped c × (c.mode ≢ both)

-- An id on the wire is a row's id, or a row's id and the offset.
abbrev Tracks : List ℕ → List ℕ → Type 0
Tracks seen wire =
    (k : ℕ)
    → k < both_udp_route_offset
    → (contains k wire || contains (k + both_udp_route_offset) wire) ≡ true
    → contains k seen ≡ true

expand_as-IsWire :
    (m : RouteMode) (r : RouteRow) (s h : Bytes) (cs : List RouteClaim)
    → ((is_host_routed m ≡ true) ⊎ (is_some r.public_port ≡ true))
    → All IsWire cs
    → All IsWire ((expand_as m r s h).0 ++ cs)
unfolding expand_as expand_both expand_single is_host_routed
expand_as-IsWire http r s h cs i l = ground arith
expand_as-IsWire https r s h cs i l = ground arith
expand_as-IsWire tcp r s h cs i l = ground arith
expand_as-IsWire udp r s h cs i l = ground arith
expand_as-IsWire both r s h cs i l = ground arith

single_tracked :
    (k : ℕ) (seen wire : List ℕ)
    → k < both_udp_route_offset
    → Tracks seen wire
    → Tracks (k ∷ seen) (to_u16 k ∷ wire)
single_tracked k seen wire b t j i e = ground (arith, t j i)

both_tracked :
    (k : ℕ) (seen wire : List ℕ)
    → k < both_udp_route_offset
    → Tracks seen wire
    → Tracks (k ∷ seen) (to_u16 (to_u16 k + both_udp_route_offset) ∷ to_u16 k ∷ wire)
both_tracked k seen wire b t j i e = ground (arith, t j i)

expand_as-Fresh :
    (m : RouteMode) (r : RouteRow) (s h : Bytes) (cs : List RouteClaim) (seen wire : List ℕ)
    → r.route_id < both_udp_route_offset
    → contains r.route_id seen ≡ false
    → Tracks seen wire
    → ((wire' : List ℕ) → Tracks (r.route_id ∷ seen) wire' → Fresh wire' cs)
    → Fresh wire ((expand_as m r s h).0 ++ cs)
unfolding expand_as expand_both expand_single
expand_as-Fresh both r s h cs seen wire b n t later = (
  ground (arith, t r.route_id b),
  (ground (arith, t r.route_id b), later _ (both_tracked r.route_id seen wire b t)),
)
expand_as-Fresh _ r s h cs seen wire b n t later =
    (ground (arith, t r.route_id b), later _ (single_tracked r.route_id seen wire b t))

expand_routes-IsWire :
    (rs : List RouteRow) (s h : Bytes) → All IsRow rs → All IsWire (expand_routes rs s h).0
unfolding expand_routes expand_route
expand_routes-IsWire [] s h w = tt
expand_routes-IsWire (r ∷ rs) s h w =
    expand_as-IsWire (parse_kind r.kind) r s h (expand_routes rs s h).0 w.0.1
      (expand_routes-IsWire rs s h w.1)

expand_routes-Fresh :
    (rs : List RouteRow) (s h : Bytes) (seen wire : List ℕ)
    → All IsRow rs
    → Apart seen rs
    → Tracks seen wire
    → Fresh wire (expand_routes rs s h).0
unfolding expand_routes expand_route
expand_routes-Fresh [] s h seen wire w a t = tt
expand_routes-Fresh (r ∷ rs) s h seen wire w a t =
    expand_as-Fresh (parse_kind r.kind) r s h (expand_routes rs s h).0 seen wire w.0.0 a.0 t
      λ wire'. expand_routes-Fresh rs s h (r.route_id ∷ seen) wire' w.1 a.1

All-WellShaped : (cs : List RouteClaim) → All IsWire cs → All WellShaped cs
All-WellShaped [] w = tt
All-WellShaped (c ∷ cs) w = (w.0.0, All-WellShaped cs w.1)

never_both : (cs : List RouteClaim) → All IsWire cs → All (λ r. r.mode ≢ both) cs
never_both [] v = tt
never_both (c ∷ cs) v = (v.0.1, never_both cs v.1)

-- The claims minted from rows with distinct ids below the offset and a port for every dedicated route
-- have the shape that a node asks for, and no `both` route.
pub expand_routes-shaped :
    (now owner_id id : ℕ) (subdomain host : Bytes) (rows : List RouteRow) (custom : Option Bytes)
    → All IsRow rows
    → Apart [] rows
    → let minted =
        tunnel_claims now owner_id id subdomain (expand_routes rows subdomain host).0 custom in
      (validate_shape minted ≡ ok tt) × All (λ r. r.mode ≢ both) minted.routes
unfolding tunnel_claims
expand_routes-shaped now owner_id id subdomain host rows custom w a =
    let wired = expand_routes-IsWire rows subdomain host w in
    (
      (validate_shape_iff _).1 (
        refl,
        refl,
        expand_routes-Fresh rows subdomain host [] [] w a (λ k b e. ground (arith, e)),
        All-WellShaped _ wired,
      ),
      never_both _ wired,
    )

-- If decoding gives back the claims that the reservation encodes, the node verifies the token of a
-- reservation whose rows have distinct ids below 10000 and a port for every dedicated route, to
-- claims in which no route is a `both` route and which name the tunnel, its owner and its custom
-- domain.
pub build_reservation-verified :
    (encode : TunnelClaims → Bytes) (decode : Bytes → Result Bytes TunnelClaims) (now owner_id : ℕ)
    (t : TunnelRow) (rows : List RouteRow) (custom : Option Bytes)
    → (let minted =
          tunnel_claims now owner_id t.id t.subdomain
            (expand_routes rows t.subdomain t.public_host).0
            custom in
        decode (encode minted) ≡ ok minted)
    → All IsRow rows
    → Apart [] rows
    → (c : TunnelClaims) × (verify_tunnel_token decode
          (build_reservation encode now owner_id t rows custom).tunnel_token
        ≡ ok c)
      × All (λ r. r.mode ≢ both) c.routes
      × (c.tunnel_id ≡ t.id)
      × (c.sub ≡ owner_id)
      × (c.subdomain ≡ t.subdomain)
      × (c.custom_domain ≡ custom)
unfolding build_reservation verify_tunnel_token tunnel_claims
build_reservation-verified encode decode now owner_id t rows custom law w a =
    let (shaped, apart) =
      expand_routes-shaped now owner_id t.id t.subdomain t.public_host rows custom w a in
    let claims =
      tunnel_claims now owner_id t.id t.subdomain (expand_routes rows t.subdomain t.public_host).0
        custom in
    (claims, ground (arith, law, shaped), apart, refl, refl, refl, refl)
