-- ===== src/Proto/Claims/Shape.antt =====
-- What `validate_shape` of natforge-proto/src/lib.rs accepts.
use natforge_thesis.Prelude.{
  ℕ, false, ◌≡◌, ◌≢◌, ◌↔◌, refl, codes, beq_iff, List, [], ◌∷◌, All, ok, arith,
}
use natforge_thesis.Proto.Route.{RouteMode, http, is_host_routed}
use natforge_thesis.Proto.Claims.{
  RouteClaim, TunnelClaims, is_some, contains, check_mode, check_routes, validate_shape,
}

-- A host-routed claim carries a host and no port; any other a port and no host.
abbrev pub WellShaped : RouteClaim → Type 0
WellShaped r =
    (is_some r.host ≡ is_host_routed r.mode) × (is_some r.public_port ≢ is_host_routed r.mode)

-- No id occurs twice, nor among `seen`.
abbrev pub Fresh : List ℕ → List RouteClaim → Type 0
Fresh seen [] = Unit {0}
Fresh seen (r ∷ rs) = (contains r.route_id seen ≡ false) × Fresh (r.route_id ∷ seen) rs

check_mode_iff :
    (m : RouteMode) (r : RouteClaim) → r.mode ≡ m → (check_mode m r ≡ ok tt) ↔ WellShaped r
unfolding check_mode is_host_routed
check_mode_iff http r e = ground arith
check_mode_iff _ r e = ground arith

check_routes_iff :
    (seen : List ℕ) (rs : List RouteClaim)
    → (check_routes seen rs ≡ ok tt) ↔ (Fresh seen rs × All WellShaped rs)
unfolding check_routes
check_routes_iff seen [] = ground arith
check_routes_iff seen (r ∷ rs) =
    ground (arith, check_mode_iff r.mode r refl, check_routes_iff (r.route_id ∷ seen) rs)

-- `validate_shape` accepts exactly the version-1 tunnel claims whose routes have distinct ids, a
-- host and no port if host-routed, and a port and no host otherwise.
pub validate_shape_iff :
    (c : TunnelClaims)
    → (validate_shape c ≡ ok tt)
      ↔ ((c.v ≡ 1) × (c.purpose ≡ codes "tunnel") × Fresh [] c.routes × All WellShaped c.routes)
unfolding validate_shape
validate_shape_iff c =
    ground (arith, beq_iff c.purpose (codes "tunnel"), check_routes_iff [] c.routes)
