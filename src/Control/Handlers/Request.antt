-- ===== src/Control/Handlers/Request.antt =====
-- `request_tunnel` and `device_config` of natforge-backend/src/handlers/tunnels.rs.
pub mod Issued
pub mod Again
use natforge_thesis.Prelude.{
  ℕ, Bool, true, false, not, ◌&&◌, ◌||◌, Bytes, codes, beq, List, [], ◌∷◌, ◌++◌, Option, none, some,
  Map, get, nat_eq, is_empty, ◌==◌, if◌then◌else◌, Result, ok, err,
}
use natforge_thesis.Proto.Claims.{TunnelClaims}
use natforge_thesis.Control.Policy.{RequestedRoute, check_route_policy}
use natforge_thesis.Control.Expand.{RouteRow, TunnelRow, Reservation, build_reservation}
use natforge_thesis.Control.Ports.{
  TunnelEntry, Db, ReserveError, port_exhausted, bad_subdomain, no_subdomain, limit_reached,
  subdomain_taken, route_set_exists, load_routes,
}
use natforge_thesis.Control.Ports.Services.{trimmed}
use natforge_thesis.Control.Reserve.{ReservedTunnel, Request, Given, reserve_tunnel}
use natforge_thesis.Control.Tunnels.{is_stopped}
use natforge_thesis.Control.Site.{
  Node, Site, AuthUser, Reason, banned, no_routes, unknown_region, no_region, not_your_device,
  policy, reserve, Refusal, Done, refuse, checked, get_node, default_node, is_user_banned,
  user_max_tunnels, is_on, device_routes_excluding, check_endpoints, with_db,
}
use natforge_thesis.Control.Handlers.{active_only}

pub record RequestTunnelReq : Type 0 where
  pub routes : List RequestedRoute
  pub subdomain : Option Bytes
  pub node_id : Option Bytes
  pub device_id : Option ℕ
  pub create_new : Bool

pub record TunnelRequestRes : Type 0 where
  pub reservation : Reservation
  pub status : Bytes
  pub control_endpoint : Bytes
  pub region : Option Bytes
  pub node_id : Bytes
  pub control_cert_fingerprint : Option Bytes

abbrev pub on_node : Node → Bytes → Reservation → TunnelRequestRes
on_node n status r = record {
  reservation = r;
  status = status;
  control_endpoint = n.control_endpoint;
  region = n.region;
  node_id = n.node_id;
  control_cert_fingerprint = n.control_cert_fp;
}

unfoldable pub choose_node : Site → ℕ → Option Bytes → Result Refusal Node
unfolding get_node default_node
choose_node s now (some id) = elim (active_only (get_node s id)) [
  | none ↦ err (400, unknown_region)
  | some n ↦ ok n
]
choose_node s now none = elim (default_node now s.nodes) [
  | none ↦ err (503, no_region)
  | some n ↦ ok n
]

-- The device is the caller's, and none of its tunnels uses one of the endpoints; 0 is no tunnel's id.
unfoldable pub check_device :
    Site → AuthUser → Option ℕ → List RequestedRoute → Result Refusal (Unit {0})
unfolding device_routes_excluding check_endpoints
check_device s user none routes = ok tt
check_device s user (some d) routes =
    if is_on user.user_id (get d s.devices)
    then check_endpoints (device_routes_excluding d 0 s.db s.db.tunnels) routes
    else err (403, not_your_device)

abbrev pub reserve_status : ReserveError → ℕ
reserve_status (limit_reached n) = 403
reserve_status port_exhausted = 503
reserve_status bad_subdomain = 400
reserve_status (subdomain_taken name) = 409
reserve_status (route_set_exists sig) = 409
reserve_status no_subdomain = 500

abbrev pub reserve_request : Site → AuthUser → RequestTunnelReq → Node → Request
reserve_request s user req n = record {
  owner_id = user.user_id;
  node_id = n.node_id;
  public_host = n.public_host;
  requested = req.routes;
  custom_subdomain = trimmed req.subdomain;
  max_tunnels = user_max_tunnels s user.user_id;
  allow_reuse = not req.create_new;
  device_id = req.device_id;
}

abbrev pub host_node : Site → ReservedTunnel → Node → Node
host_node s r n = elim (get_node s r.node_id) [ none ↦ n | some m ↦ m ]

abbrev pub reserved_row : ReservedTunnel → TunnelRow
reserved_row r = record { id = r.tunnel_id; subdomain = r.subdomain; public_host = r.public_host }

-- The answer for a tunnel that is reserved, with its token.
abbrev pub answer_for :
    (TunnelClaims → Bytes) → ℕ → Site → AuthUser → Node → ReservedTunnel → TunnelRequestRes
answer_for encode now s user n r =
    on_node (host_node s r n) (if r.reused then codes "reused" else codes "reserved")
      (build_reservation encode now user.user_id (reserved_row r) r.routes r.custom_domain)

abbrev pub reserve_on :
    (TunnelClaims → Bytes)
    → Given
    → Site
    → AuthUser
    → RequestTunnelReq
    → Node
    → Done TunnelRequestRes
reserve_on encode g s user req n = elim (reserve_tunnel g (reserve_request s user req n) s.db) [
  | err e ↦ refuse s (reserve_status e) (reserve e)
  | ok (r, db) ↦ record {
    site = with_db s db;
    sent = [];
    answer = ok (answer_for encode g.now s user n r);
  }
]

unfoldable pub request_tunnel :
    (TunnelClaims → Bytes) → Given → Site → AuthUser → RequestTunnelReq → Done TunnelRequestRes
unfolding is_user_banned choose_node check_device user_max_tunnels get_node
request_tunnel encode g s user req =
    if is_user_banned s user.user_id
    then refuse s 403 banned
    else if is_empty req.routes
    then refuse s 400 no_routes
    else elim (check_route_policy req.routes) [
      | err e ↦ refuse s 400 (policy e)
      | ok _ ↦ checked s (choose_node s g.now req.node_id) λ n.
          checked s (check_device s user req.device_id req.routes)
            λ _. reserve_on encode g s user req n
    ]

-- `device_service_tunnels` and the loop of `device_config`; `m` is what is left of the table, in the
-- order of the ids.
abbrev pub tunnel_row : ℕ → TunnelEntry → TunnelRow
tunnel_row id t = record { id = id; subdomain = t.subdomain; public_host = t.public_host }

abbrev pub find_node : Site → Option Bytes → Option Node
find_node s none = none
find_node s (some id) = get_node s id

abbrev pub is_served : Site → ℕ → TunnelEntry → Bool
is_served s id t = not (is_stopped t.status) && not (is_empty (load_routes id s.db))

unfoldable pub device_config :
    (TunnelClaims → Bytes) → ℕ → Site → ℕ → ℕ → Map ℕ TunnelEntry → List TunnelRequestRes
unfolding get_node
device_config encode now s owner device [] = []
device_config encode now s owner device ((id, t) ∷ m) =
    let rest = device_config encode now s owner device m in
    if is_on device t.device_id && is_served s id t
    then elim (find_node s t.node_id) [
      | none ↦ rest
      | some n ↦
          on_node n (codes "reserved") (
            build_reservation encode now owner (tunnel_row id t) (load_routes id s.db)
              t.custom_domain)
          ∷ rest
    ]
    else rest
