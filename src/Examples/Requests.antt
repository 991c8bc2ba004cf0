-- ===== src/Examples/Requests.antt =====
-- The handlers of natforge-backend at concrete inputs.
use natforge_thesis.Prelude.{
  ◌≡◌, ◌≢◌, refl, true, false, codes, beq, [], ◌∷◌, none, some, All, get, insert, remove, nat_eq,
  bytes_eq, ok, arith,
}
use natforge_thesis.Proto.Route.{udp, both, as_str, is_host_routed}
use natforge_thesis.Proto.Claims.{TunnelClaims, validate_shape}
use natforge_thesis.Node.Text.{trim, trim_start, skip_white, trim_end, white_width}
use natforge_thesis.Control.Names.{valid_subdomain}
use natforge_thesis.Control.Policy.{RequestedRoute, tally, count_route, check_route_policy}
use natforge_thesis.Control.Ports.{TunnelEntry, least_free, claim_port}
use natforge_thesis.Control.Ports.Services.{route_signature}
use natforge_thesis.Control.Reserve.{
  Given, find_same, count_owned, has_subdomain, is_reserved_name, choose_subdomain, insert_routes,
  insert_new, reserve_tunnel, fresh_reservation,
}
use natforge_thesis.Control.Site.{
  Node, Site, AuthUser, no_such_tunnel, not_your_tunnel, endpoint_used, refuse, get_node,
  is_user_banned, user_max_tunnels, find_conflict, check_endpoints, device_routes_excluding,
}
use natforge_thesis.Control.Handlers.{Unicode}
use natforge_thesis.Control.Handlers.Guarded.{start, set_srv, perform, perform_guarded}
use natforge_thesis.Control.Handlers.Guarded.Apart.{Alone}
use natforge_thesis.Control.Handlers.Guarded.Alone.{perform-Alone}
use natforge_thesis.Control.Handlers.Request.{
  RequestTunnelReq, TunnelRequestRes, choose_node, check_device, reserve_request, answer_for,
  request_tunnel,
}
use natforge_thesis.Control.Handlers.Request.Issued.{request_tunnel-issued}
use natforge_thesis.Control.Handlers.Request.Again.{request_tunnel_device_again}
use natforge_thesis.Examples.Control.{db, encode}
use natforge_thesis.Examples.Reserve.{voice_only, given}

abbrev pub eu : Node
eu = record {
  node_id = codes "eu";
  name = codes "Europe";
  region = none;
  public_host = codes "n.io";
  control_endpoint = codes "eu.n.io:7000";
  internal_url = codes "http://eu";
  active = true;
  control_cert_fp = none;
  last_seen = some 95;
  created_at = 1;
}

abbrev site : Site
site = record {
  db = db;
  users = (3, record { max_tunnels = 2; banned = false }) ∷ [];
  devices = (9, 3) ∷ [];
  nodes = (codes "eu", eu) ∷ [];
  reserved_subdomains = codes "www" ∷ [];
  tunnel_region_blocks = [];
  core_url = codes "http://core";
  domain = codes "n.io";
}

abbrev owner : AuthUser
owner = record { user_id = 3; role = codes "user" }

abbrev stranger : AuthUser
stranger = record { user_id = 4; role = codes "user" }

abbrev unicode : Unicode
unicode = record { to_lowercase = λ b. b; to_uppercase = λ b. b }

abbrev asked : RequestTunnelReq
asked = record {
  routes = voice_only;
  subdomain = some (codes "puppy");
  node_id = some (codes "eu");
  device_id = some 9;
  create_new = false;
}

abbrev answer : TunnelRequestRes
answer = answer_for encode 100 site owner eu (
    fresh_reservation (reserve_request site owner asked eu) 7 (codes "puppy") (
      (record {
        route_id = 1;
        kind = codes "udp";
        local_port = 9000;
        public_port = some 20001;
        label = none;
        srv_service = none;
      })
      ∷ []))

answered : (request_tunnel encode given site owner asked).answer ≡ ok answer
unfolding request_tunnel is_user_banned user_max_tunnels get_node choose_node check_device
    check_endpoints find_conflict device_routes_excluding check_route_policy tally count_route
    reserve_tunnel insert_new find_same count_owned choose_subdomain has_subdomain is_reserved_name
    insert_routes route_signature valid_subdomain is_host_routed claim_port least_free as_str trim
    trim_start skip_white trim_end white_width get insert remove beq
answered = refl

request_tunnel-issued_example :
    (is_user_banned site 3 ≡ false)
    × (check_route_policy voice_only ≡ ok tt)
    × (c : TunnelClaims) × (answer.reservation.tunnel_token ≡ encode c)
    × (validate_shape c ≡ ok tt)
    × All (λ r. r.mode ≢ both) c.routes
    × (c.tunnel_id ≡ 7)
    × (c.sub ≡ 3)
    × (c.subdomain ≡ answer.reservation.subdomain)
request_tunnel-issued_example =
    request_tunnel-issued encode given site owner asked answer answered refl

abbrev later : Given
later = record given { id = 8; now = 130 }

chosen :
    choose_node (request_tunnel encode given site owner asked).site 130 (some (codes "eu")) ≡ ok eu
unfolding request_tunnel is_user_banned user_max_tunnels get_node choose_node check_device
    check_endpoints find_conflict device_routes_excluding check_route_policy tally count_route
    reserve_tunnel insert_new find_same count_owned choose_subdomain has_subdomain is_reserved_name
    insert_routes route_signature valid_subdomain is_host_routed claim_port least_free as_str trim
    trim_start skip_white trim_end white_width get insert remove beq
chosen = refl

request_tunnel_device_again_example :
    let s' = (request_tunnel encode given site owner asked).site in
    (x : RequestedRoute) × (request_tunnel encode later s' owner asked
      ≡ refuse s' 409 (endpoint_used x))
unfolding is_host_routed
request_tunnel_device_again_example =
    request_tunnel_device_again encode given later site owner asked answer 9 []
      (record { mode = udp; local_port = 9000; label = none }) [] eu answered refl (omega arith)
      refl refl refl chosen

perform_guarded_example :
    (get 5 db.tunnels ≡ none
      → perform unicode start site stranger 5 ≡ refuse site 404 no_such_tunnel)
    × ((t : TunnelEntry)
        → get 5 db.tunnels ≡ some t
        → t.owner_id ≢ 4
        → codes "user" ≢ codes "admin"
        → perform unicode start site stranger 5 ≡ refuse site 403 not_your_tunnel)
perform_guarded_example = perform_guarded unicode start site stranger 5

perform-Alone_example :
    Alone 5 site (perform unicode (set_srv 1 (some (codes "_minecraft"))) site owner 5).site
perform-Alone_example = perform-Alone unicode (set_srv 1 (some (codes "_minecraft"))) site owner 5
