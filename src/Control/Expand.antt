-- ===== src/Control/Expand.antt =====
-- `endpoint`, `expand_route` and `build_reservation` of natforge-backend/src/handlers/tunnels.rs,
-- and the tunnel token of natforge-backend/src/jwt.rs and natforge-node/src/jwt.rs. The numbers of a
-- stored row are not negative (ids are handed out from 1, ports come from the pool); the codec of
-- the tokens (jsonwebtoken, with the shared secret and the clock) is a parameter.
pub mod Accepted
use natforge_thesis.Prelude.{
  ℕ, zero, suc, ◌+◌, ◌/◌, ◌%◌, ◌^◌, Bool, true, false, Bytes, codes, List, [], ◌∷◌, ◌++◌, Option,
  none, some, ltb, if◌then◌else◌, Result, ok, err, and_then,
}
use natforge_thesis.Proto.Route.{RouteMode, http, https, tcp, udp, both, is_host_routed, as_str}
use natforge_thesis.Proto.Claims.{RouteClaim, TunnelClaims, ShapeError, validate_shape}
use natforge_thesis.Node.Text.{decimal}
use natforge_thesis.Control.Policy.{parse_kind}

pub record RouteRow : Type 0 where
  pub route_id : ℕ
  pub kind : Bytes
  pub local_port : ℕ
  pub public_port : Option ℕ
  pub label : Option Bytes
  pub srv_service : Option Bytes

pub record ReservedRoute : Type 0 where
  pub route_id : ℕ
  pub mode : Bytes
  pub local_port : ℕ
  pub public_endpoint : Bytes
  pub label : Option Bytes

abbrev pub or_zero : Option ℕ → ℕ
or_zero none = 0
or_zero (some p) = p

unfoldable pub endpoint : RouteMode → Bytes → Bytes → Option ℕ → Bytes
endpoint http subdomain domain port = codes "http://" ++ (subdomain ++ b'.' ∷ domain)
endpoint https subdomain domain port = codes "https://" ++ (subdomain ++ b'.' ∷ domain)
endpoint _ subdomain domain port = subdomain ++ b'.' ∷ (domain ++ b':' ∷ decimal (or_zero port))

abbrev pub both_udp_route_offset : ℕ
both_udp_route_offset = 10000

-- `as u16`.
abbrev pub to_u16 : ℕ → ℕ
to_u16 n = n % 2 ^ 16

abbrev pub port_u16 : Option ℕ → Option ℕ
port_u16 none = none
port_u16 (some p) = some (to_u16 p)

-- The half of a `both` route on one transport.
abbrev pub half_claim : RouteRow → ℕ → RouteMode → Option Bytes → RouteClaim
half_claim r route_id mode srv = record {
  route_id = route_id;
  mode = mode;
  host = none;
  public_port = port_u16 r.public_port;
  srv_service = srv;
}

abbrev pub half_view : RouteRow → Bytes → ℕ → Bytes → ReservedRoute
half_view r ep route_id mode = record {
  route_id = route_id;
  mode = mode;
  local_port = to_u16 r.local_port;
  public_endpoint = ep;
  label = r.label;
}

unfoldable pub expand_both : RouteRow → Bytes → Bytes → List RouteClaim × List ReservedRoute
unfolding endpoint
expand_both r subdomain host =
    let ep = endpoint tcp subdomain host r.public_port in
    let tcp_id = to_u16 r.route_id in
    let udp_id = to_u16 (tcp_id + both_udp_route_offset) in
    (
      half_claim r tcp_id tcp r.srv_service ∷ half_claim r udp_id udp none ∷ [],
      half_view r ep tcp_id (codes "tcp") ∷ half_view r ep udp_id (codes "udp") ∷ [],
    )

unfoldable pub expand_single :
    RouteMode → RouteRow → Bytes → Bytes → List RouteClaim × List ReservedRoute
unfolding endpoint
expand_single mode r subdomain host = (
  (record {
    route_id = to_u16 r.route_id;
    mode = mode;
    host = if is_host_routed mode then some (subdomain ++ b'.' ∷ host) else none;
    public_port = if is_host_routed mode then none else port_u16 r.public_port;
    srv_service = if is_host_routed mode then none else r.srv_service;
  })
      ∷ [],
  (record {
    route_id = to_u16 r.route_id;
    mode = r.kind;
    local_port = to_u16 r.local_port;
    public_endpoint = endpoint mode subdomain host r.public_port;
    label = r.label;
  })
      ∷ [],
)

unfoldable pub expand_as :
    RouteMode → RouteRow → Bytes → Bytes → List RouteClaim × List ReservedRoute
unfolding expand_both expand_single
expand_as both r subdomain host = expand_both r subdomain host
expand_as mode r subdomain host = expand_single mode r subdomain host

unfoldable pub expand_route : RouteRow → Bytes → Bytes → List RouteClaim × List ReservedRoute
unfolding expand_as
expand_route r subdomain host = expand_as (parse_kind r.kind) r subdomain host

-- The loop of `build_reservation`.
unfoldable pub expand_routes : List RouteRow → Bytes → Bytes → List RouteClaim × List ReservedRoute
unfolding expand_route
expand_routes [] subdomain host = ([], [])
expand_routes (r ∷ rs) subdomain host =
    let (c, v) = expand_route r subdomain host in
    let (cs, vs) = expand_routes rs subdomain host in (c ++ cs, v ++ vs)

-- The claims that `issue_tunnel_token` signs; `now` is the clock.
unfoldable pub tunnel_claims : ℕ → ℕ → ℕ → Bytes → List RouteClaim → Option Bytes → TunnelClaims
tunnel_claims now user_id tunnel_id subdomain routes custom_domain = record {
  v = 1;
  sub = user_id;
  tunnel_id = tunnel_id;
  subdomain = subdomain;
  purpose = codes "tunnel";
  routes = routes;
  custom_domain = custom_domain;
  exp = now + 3600;
}

pub record TunnelRow : Type 0 where
  pub id : ℕ
  pub subdomain : Bytes
  pub public_host : Bytes

pub record Reservation : Type 0 where
  pub full_host : Bytes
  pub tunnel_id : ℕ
  pub subdomain : Bytes
  pub tunnel_token : Bytes
  pub routes : List ReservedRoute
  pub custom_domain : Option Bytes

unfoldable pub build_reservation :
    (TunnelClaims → Bytes) → ℕ → ℕ → TunnelRow → List RouteRow → Option Bytes → Reservation
unfolding tunnel_claims expand_routes
build_reservation encode now owner_id t routes custom_domain =
    let (claims, views) = expand_routes routes t.subdomain t.public_host in
    record {
      full_host = t.subdomain ++ b'.' ∷ t.public_host;
      tunnel_id = t.id;
      subdomain = t.subdomain;
      tunnel_token = encode (tunnel_claims now owner_id t.id t.subdomain claims custom_domain);
      routes = views;
      custom_domain = custom_domain;
    }

pub data TokenError : Type 0 where
  invalid : Bytes → TokenError
  shape : ShapeError → TokenError

unfoldable pub verify_tunnel_token :
    (Bytes → Result Bytes TunnelClaims) → Bytes → Result TokenError TunnelClaims
verify_tunnel_token decode token = elim (decode token) [
  | err e ↦ err (invalid e)
  | ok claims ↦ elim (validate_shape claims) [ err e ↦ err (shape e) | ok _ ↦ ok claims ]
]
