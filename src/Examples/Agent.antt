-- ===== src/Examples/Agent.antt =====
-- Sessions of natforge-node at concrete inputs.
use natforge_thesis.Prelude.{
  ℕ, ◌≡◌, ◌≢◌, refl, Bytes, codes, [], ◌∷◌, none, some, All, true, false, beq, get, insert, remove,
  get-nil, nat_eq, bytes_eq, arith, Result, ok,
}
use natforge_thesis.Proto.Route.{RouteMode, http, https, tcp}
use natforge_thesis.Proto.Claims.{contains, TunnelClaims}
use natforge_thesis.Node.State.{RouteHandle, ActiveTunnel, CoreState, host_route}
use natforge_thesis.Node.Agent.{
  System, AgentHello, role_service_host, Session, grants, check_bindings, authorize, free_or_ours,
  may_proceed, bind_route, plan_routes, reply_routes, take_listener, register_in, add_srv, register,
  publish, handle_agent,
}
use natforge_thesis.Node.Agent.Release.{teardown, end_session}
use natforge_thesis.Node.Agent.Teardown.{released, is_custom, teardown_exact}
use natforge_thesis.Node.Agent.Leaks.{Absent}
use natforge_thesis.Node.Agent.Sessions.{
  Granted, handle_agent-authorized, handle_agent_no_hijack, handle_agent_leaves_nothing,
}

abbrev os : System
os = record {
  public_host = codes "n.io";
  http_port = 80;
  https_port = 443;
  tcp_free = λ port taken. true;
  udp_free = λ port taken. true;
}

abbrev empty : CoreState
empty = record {
  tunnels = [];
  http_routes = [];
  https_routes = [];
  port_routes = [];
  udp_routes = [];
  custom_http = [];
  custom_https = [];
  blocked_regions = [];
  tunnel_region_blocks = [];
}

abbrev claims : TunnelClaims
claims = record {
  v = 1;
  sub = 3;
  tunnel_id = 5;
  subdomain = codes "duck";
  purpose = codes "tunnel";
  routes =
      record {
        route_id = 1;
        mode = http;
        host = some (codes "duck.n.io");
        public_port = none;
        srv_service = none;
      }
      ∷ record {
        route_id = 2;
        mode = tcp;
        host = none;
        public_port = some 20000;
        srv_service = some (codes "minecraft");
      }
      ∷ [];
  custom_domain = some (codes "play.org");
  exp = 1000;
}

abbrev verify : Bytes → Result Bytes TunnelClaims
verify token = ok claims

abbrev hello : AgentHello
hello = record {
  tunnel_token = codes "t";
  role = role_service_host;
  routes = record { route_id = 2; local_port = 25565 } ∷ [];
}

abbrev handle : ℕ → RouteMode → RouteHandle
handle route_id mode = record {
  tunnel_id = 5;
  owner_id = 3;
  route_id = route_id;
  mode = mode;
  session = 1;
}

abbrev active : ActiveTunnel
active = record {
  tunnel_id = 5;
  subdomain = codes "duck";
  owner_id = 3;
  public_ports = 20000 ∷ [];
  udp_ports = [];
  custom_domain = some (codes "play.org");
  srv_records = (codes "minecraft", codes "tcp") ∷ [];
  has_http = true;
  has_https = false;
  session = 1;
  tcp_listeners = 20000 ∷ [];
  udp_listeners = [];
}

abbrev served : CoreState
served = record empty {
  tunnels = (codes "duck", active) ∷ [];
  http_routes = (codes "duck", handle 1 http) ∷ [];
  port_routes = (20000, handle 2 tcp) ∷ [];
  custom_http = (codes "play.org", handle 1 http) ∷ [];
}

abbrev session : Session
session = record {
  core = served;
  active = active;
  reply =
      record { route_id = 1; mode = http; public_endpoint = codes "duck.n.io:80" }
      ∷ record { route_id = 2; mode = tcp; public_endpoint = codes "n.io:20000" }
      ∷ [];
  certificate = some (codes "play.org");
}

let_in : handle_agent os verify 1 hello empty ≡ ok session
unfolding handle_agent authorize grants check_bindings free_or_ours may_proceed bind_route
    plan_routes reply_routes take_listener register_in add_srv register publish get insert remove
    beq
let_in = refl

empty-Absent : Absent 5 empty
empty-Absent = record {
  http = λ k h e i. ground (arith, e, get-nil {V = RouteHandle} k);
  https = λ k h e i. ground (arith, e, get-nil {V = RouteHandle} k);
  tcp_ports = λ k h e i. ground (arith, e, get-nil {V = RouteHandle} k);
  udp_ports = λ k h e i. ground (arith, e, get-nil {V = RouteHandle} k);
  on_http = λ k h e i. ground (arith, e, get-nil {V = RouteHandle} k);
  on_https = λ k h e i. ground (arith, e, get-nil {V = RouteHandle} k);
}

handle_agent_leaves_nothing_example : Absent 5 (end_session active served)
handle_agent_leaves_nothing_example =
    handle_agent_leaves_nothing os verify 1 hello empty claims session refl empty-Absent let_in

handle_agent-authorized_example :
    (hello.role ≡ role_service_host)
    × (c : TunnelClaims) × (verify hello.tunnel_token ≡ ok c)
    × All (λ b. Granted c.routes b.route_id) hello.routes
handle_agent-authorized_example = handle_agent-authorized os verify 1 hello empty session let_in

abbrev other : RouteHandle
other = record { tunnel_id = 6; owner_id = 4; route_id = 1; mode = http; session = 9 }

abbrev occupied : CoreState
occupied = record empty { http_routes = (codes "duck", other) ∷ [] }

handle_agent_no_hijack_example : handle_agent os verify 1 hello occupied ≢ ok session
unfolding host_route get beq
handle_agent_no_hijack_example =
    handle_agent_no_hijack os verify 1 hello occupied claims http other refl refl (ground arith)
      session

teardown_exact_example :
    let s' = teardown 5 (codes "duck") (20000 ∷ []) [] none served in
    (get (codes "duck") s'.http_routes
      ≡ released 5 (beq (codes "duck") (codes "duck")) (get (codes "duck") served.http_routes))
    × (get (codes "duck") s'.https_routes
        ≡ released 5 (beq (codes "duck") (codes "duck")) (get (codes "duck") served.https_routes))
    × (get 20000 s'.port_routes
        ≡ released 5 (contains 20000 (20000 ∷ [])) (get 20000 served.port_routes))
    × (get 20000 s'.udp_routes ≡ released 5 (contains 20000 []) (get 20000 served.udp_routes))
    × (get (codes "duck") s'.custom_http
        ≡ released 5 (is_custom none (codes "duck")) (get (codes "duck") served.custom_http))
    × (get (codes "duck") s'.custom_https
        ≡ released 5 (is_custom none (codes "duck")) (get (codes "duck") served.custom_https))
teardown_exact_example =
    teardown_exact 5 (codes "duck") (20000 ∷ []) [] none served (codes "duck") 20000

-- The same agent once more, while the first session is registered.
abbrev handle_later : ℕ → RouteMode → RouteHandle
handle_later route_id mode = record (handle route_id mode) { session = 2 }

abbrev active_later : ActiveTunnel
active_later = record active { session = 2 }

abbrev later : Session
later = record session {
  core = record empty {
    tunnels = (codes "duck", active_later) ∷ [];
    http_routes = (codes "duck", handle_later 1 http) ∷ [];
    port_routes = (20000, handle_later 2 tcp) ∷ [];
    custom_http = (codes "play.org", handle_later 1 http) ∷ [];
  };
  active = active_later;
}
