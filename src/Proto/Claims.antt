-- ===== src/Proto/Claims.antt =====
-- `RouteClaim`, `TunnelClaims` and `validate_shape` of natforge-proto/src/lib.rs. Identifiers are
-- compared and never computed with, so they are plain numbers.
pub mod Shape
use natforge_thesis.Prelude.{
  ℕ, Bool, true, false, ◌&&◌, ◌||◌, not, Bytes, codes, beq, List, [], ◌∷◌, Option, none, some, ◌==◌,
  if◌then◌else◌, Result, ok, err,
}
use natforge_thesis.Proto.Route.{RouteMode, http, https, tcp, udp, both}

pub record RouteClaim : Type 0 where
  pub route_id : ℕ
  pub mode : RouteMode
  pub host : Option Bytes
  pub public_port : Option ℕ
  pub srv_service : Option Bytes

pub record TunnelClaims : Type 0 where
  pub v : ℕ
  pub sub : ℕ
  pub tunnel_id : ℕ
  pub subdomain : Bytes
  pub purpose : Bytes
  pub routes : List RouteClaim
  pub custom_domain : Option Bytes
  pub exp : ℕ

pub data ShapeError : Type 0 where
  unsupported_version duplicate_route_id bad_host_route bad_port_route : ℕ → ShapeError
  wrong_purpose : ShapeError

abbrev pub is_some {ℓ} : {A : Type ℓ} → Option A → Bool
is_some none = false
is_some (some a) = true

abbrev pub contains : ℕ → List ℕ → Bool
contains k [] = false
contains k (j ∷ js) = j == k || contains k js

-- The two per-mode rules of the loop body.
unfoldable pub check_mode : RouteMode → RouteClaim → Result ShapeError (Unit {0})
check_mode http r =
    if not (is_some r.host) || is_some r.public_port then err (bad_host_route r.route_id) else ok tt
check_mode https r =
    if not (is_some r.host) || is_some r.public_port then err (bad_host_route r.route_id) else ok tt
check_mode _ r =
    if not (is_some r.public_port) || is_some r.host then err (bad_port_route r.route_id) else ok tt

-- The loop over the routes; `seen` is the hash set.
unfoldable pub check_routes : List ℕ → List RouteClaim → Result ShapeError (Unit {0})
unfolding check_mode
check_routes seen [] = ok tt
check_routes seen (r ∷ rs) =
    let rest = check_routes (r.route_id ∷ seen) rs in
    if contains r.route_id seen
    then err (duplicate_route_id r.route_id)
    else elim (check_mode r.mode r) [ ok _ ↦ rest | err e ↦ err e ]

unfoldable pub validate_shape : TunnelClaims → Result ShapeError (Unit {0})
unfolding check_routes
validate_shape c =
    if not (c.v == 1)
    then err (unsupported_version c.v)
    else if not (beq c.purpose (codes "tunnel"))
    then err wrong_purpose
    else check_routes [] c.routes
