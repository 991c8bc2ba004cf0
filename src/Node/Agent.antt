-- ===== src/Node/Agent.antt =====
-- `handle_agent` of natforge-node/src/tunnel/mod.rs, by the numbered parts of the
-- source. The verified claims and the outcome of each bind come from outside; SRV records are only
-- listed, since the DNS calls are best-effort and change no registry.
pub mod Release
pub mod Teardown
pub mod Leaks
pub mod Sessions
pub mod Stale
use natforge_thesis.Prelude.{
  ℕ, ◌+◌, Bool, true, false, not, ◌&&◌, ◌||◌, Bytes, codes, List, [], ◌∷◌, ◌++◌, Option, none, some,
  Map, get, insert, remove, nat_eq, bytes_eq, beq, ◌==◌, if◌then◌else◌, Result, ok, err, and_then,
}
use natforge_thesis.Proto.Route.{RouteMode, http, https, tcp, udp, both}
use natforge_thesis.Proto.Claims.{RouteClaim, TunnelClaims}
use natforge_thesis.Node.Text.{decimal}
use natforge_thesis.Node.State.{RouteHandle, ActiveTunnel, CoreState}

pub data Reject : Type 0 where
  unsupported_role : Bytes → Reject
  invalid_token : Bytes → Reject
  unauthorized_route bind_failed bind_udp_failed : ℕ → Reject
  subdomain_in_use unexpected_both : Reject

pub record AgentRouteBinding : Type 0 where
  pub route_id : ℕ
  pub local_port : ℕ

pub record AgentHello : Type 0 where
  pub tunnel_token : Bytes
  pub role : Bytes
  pub routes : List AgentRouteBinding

abbrev pub role_service_host : Bytes
role_service_host = codes "service_host"

-- The node's own settings, and whether the system lets it bind a port, given the ports that this
-- call has bound already.
pub record System : Type 0 where
  pub public_host : Bytes
  pub http_port : ℕ
  pub https_port : ℕ
  pub tcp_free : ℕ → List ℕ → Bool
  pub udp_free : ℕ → List ℕ → Bool

-- 1. The role, the token, and every binding granted by the token.
unfoldable pub grants : List RouteClaim → Map ℕ RouteClaim → Map ℕ RouteClaim
grants [] m = m
grants (r ∷ rs) m = grants rs (insert r.route_id r m)

unfoldable pub check_bindings : Map ℕ RouteClaim → List AgentRouteBinding → Result Reject (Unit {0})
check_bindings granted [] = ok tt
check_bindings granted (b ∷ bs) =
    let rest = check_bindings granted bs in
    elim (get b.route_id granted) [ none ↦ err (unauthorized_route b.route_id) | some _ ↦ rest ]

unfoldable pub authorize :
    (Bytes → Result Bytes TunnelClaims) → AgentHello → Result Reject TunnelClaims
unfolding grants check_bindings
authorize verify hello =
    if not (beq hello.role role_service_host)
    then err (unsupported_role hello.role)
    else elim (verify hello.tunnel_token) [
      | err e ↦ err (invalid_token e)
      | ok claims ↦ and_then (check_bindings (grants claims.routes []) hello.routes) λ _. ok claims
    ]

-- 2. The subdomain is free or already this tunnel's.
unfoldable pub free_or_ours : ℕ → Option RouteHandle → Bool
free_or_ours tunnel_id none = true
free_or_ours tunnel_id (some h) = h.tunnel_id == tunnel_id

unfoldable pub may_proceed : CoreState → TunnelClaims → Bool
unfolding free_or_ours
may_proceed s c =
    free_or_ours c.tunnel_id (get c.subdomain s.http_routes)
    && free_or_ours c.tunnel_id (get c.subdomain s.https_routes)

-- 3. The ports are bound up front; the lists hold what is bound so far.
pub record PlannedRoute : Type 0 where
  pub route_id : ℕ
  pub mode : RouteMode
  pub public_port : Option ℕ
  pub public_endpoint : Bytes
  pub srv_service : Option Bytes

abbrev pub port_or_zero : Option ℕ → ℕ
port_or_zero none = 0
port_or_zero (some p) = p

-- The endpoint to advertise.
abbrev pub endpoint_of : System → Bytes → RouteMode → ℕ → Bytes
endpoint_of os subdomain http port =
    subdomain ++ b'.' ∷ (os.public_host ++ b':' ∷ decimal os.http_port)
endpoint_of os subdomain https port =
    subdomain ++ b'.' ∷ (os.public_host ++ b':' ∷ decimal os.https_port)
endpoint_of os subdomain _ port = os.public_host ++ b':' ∷ decimal port

abbrev pub planned : System → Bytes → RouteClaim → PlannedRoute
planned os subdomain r = record {
  route_id = r.route_id;
  mode = r.mode;
  public_port = r.public_port;
  public_endpoint = endpoint_of os subdomain r.mode (port_or_zero r.public_port);
  srv_service = r.srv_service;
}

-- A bound listener or socket, by route and port, in the order of binding.
pub record Bound : Type 0 where
  pub tcp_listeners : List (ℕ × ℕ)
  pub udp_sockets : List (ℕ × ℕ)

abbrev pub ports_of : List (ℕ × ℕ) → List ℕ
ports_of [] = []
ports_of ((route_id, port) ∷ bs) = port ∷ ports_of bs

unfoldable pub bind_route : System → RouteMode → ℕ → ℕ → Bound → Result Reject Bound
bind_route os tcp route_id port b =
    if os.tcp_free port (ports_of b.tcp_listeners)
    then ok (record b { tcp_listeners = b.tcp_listeners ++ (route_id, port) ∷ [] })
    else err (bind_failed port)
bind_route os udp route_id port b =
    if os.udp_free port (ports_of b.udp_sockets)
    then ok (record b { udp_sockets = b.udp_sockets ++ (route_id, port) ∷ [] })
    else err (bind_udp_failed port)
bind_route os both route_id port b = err unexpected_both
bind_route os _ route_id port b = ok b

unfoldable pub plan_routes :
    System → Bytes → List RouteClaim → Bound → Result Reject (List PlannedRoute × Bound)
unfolding bind_route
plan_routes os subdomain [] b = ok ([], b)
plan_routes os subdomain (r ∷ rs) b =
    and_then (bind_route os r.mode r.route_id (port_or_zero r.public_port) b) λ b'.
      and_then (plan_routes os subdomain rs b') λ (ps, b''). ok (planned os subdomain r ∷ ps, b'')

-- 4. What the agent is told.
pub record RouteResult : Type 0 where
  pub route_id : ℕ
  pub mode : RouteMode
  pub public_endpoint : Bytes

unfoldable pub reply_routes : List PlannedRoute → List RouteResult
reply_routes [] = []
reply_routes (p ∷ ps) =
    record { route_id = p.route_id; mode = p.mode; public_endpoint = p.public_endpoint }
    ∷ reply_routes ps

-- 5. One turn of the registering loop, on the registries and on what the session keeps.
abbrev pub handle_for : TunnelClaims → ℕ → PlannedRoute → RouteHandle
handle_for c session p = record {
  tunnel_id = c.tunnel_id;
  owner_id = c.sub;
  route_id = p.route_id;
  mode = p.mode;
  session = session;
}

abbrev pub insert_custom :
    Option Bytes → RouteHandle → Map Bytes RouteHandle → Map Bytes RouteHandle
insert_custom none h m = m
insert_custom (some d) h m = insert d h m

abbrev pub srv_of : PlannedRoute → List (Bytes × Bytes)
srv_of p = elim p.srv_service [
  | none ↦ []
  | some service ↦ elim p.public_port [
    | none ↦ []
    | some port ↦ (service, elim p.mode [ udp ↦ codes "udp" | _ ↦ codes "tcp" ]) ∷ []
  ]
]

-- The first pre-bound listener of a route, taken out of the list.
unfoldable pub take_listener : ℕ → List (ℕ × ℕ) → List ℕ × List (ℕ × ℕ)
take_listener route_id [] = ([], [])
take_listener route_id ((rid, port) ∷ bs) =
    let (found, rest) = take_listener route_id bs in
    if rid == route_id then (port ∷ [], bs) else (found, (rid, port) ∷ rest)

pub record Setup : Type 0 where
  pub core : CoreState
  pub active : ActiveTunnel
  pub bound : Bound

unfoldable pub register_in : RouteMode → TunnelClaims → RouteHandle → ℕ → Setup → Setup
unfolding take_listener
register_in http c h port st = record st {
  core = record st.core {
    custom_http = insert_custom c.custom_domain h st.core.custom_http;
    http_routes = insert c.subdomain h st.core.http_routes;
  };
  active = record st.active { has_http = true };
}
register_in https c h port st = record st {
  core = record st.core {
    custom_https = insert_custom c.custom_domain h st.core.custom_https;
    https_routes = insert c.subdomain h st.core.https_routes;
  };
  active = record st.active { has_https = true };
}
register_in tcp c h port st =
    let (started, left) = take_listener h.route_id st.bound.tcp_listeners in
    record st {
      core = record st.core { port_routes = insert port h st.core.port_routes };
      active = record st.active {
        public_ports = st.active.public_ports ++ port ∷ [];
        tcp_listeners = st.active.tcp_listeners ++ started;
      };
      bound = record st.bound { tcp_listeners = left };
    }
register_in udp c h port st =
    let (started, left) = take_listener h.route_id st.bound.udp_sockets in
    record st {
      core = record st.core { udp_routes = insert port h st.core.udp_routes };
      active = record st.active {
        udp_ports = st.active.udp_ports ++ port ∷ [];
        udp_listeners = st.active.udp_listeners ++ started;
      };
      bound = record st.bound { udp_sockets = left };
    }
register_in both c h port st = st

unfoldable pub add_srv : PlannedRoute → Setup → Setup
add_srv p st = record st {
  active = record st.active { srv_records = st.active.srv_records ++ srv_of p };
}

unfoldable pub register : TunnelClaims → ℕ → List PlannedRoute → Setup → Setup
unfolding register_in add_srv
register c session [] st = st
register c session (p ∷ ps) st =
    register c session ps
      (add_srv p (register_in p.mode c (handle_for c session p) (port_or_zero p.public_port) st))

abbrev pub fresh_tunnel : TunnelClaims → ℕ → ActiveTunnel
fresh_tunnel c session = record {
  tunnel_id = c.tunnel_id;
  subdomain = c.subdomain;
  owner_id = c.sub;
  public_ports = [];
  udp_ports = [];
  custom_domain = c.custom_domain;
  srv_records = [];
  has_http = false;
  has_https = false;
  session = session;
  tcp_listeners = [];
  udp_listeners = [];
}

unfoldable pub publish : Setup → CoreState
publish st = record st.core { tunnels = insert st.active.subdomain st.active st.core.tunnels }

pub record Session : Type 0 where
  pub core : CoreState
  pub active : ActiveTunnel
  pub reply : List RouteResult
  pub certificate : Option Bytes

-- The custom domain that a certificate is asked for: one with an HTTP route and no HTTPS route.
abbrev pub certificate_for : ActiveTunnel → Option Bytes
certificate_for t = if t.has_http && not t.has_https then t.custom_domain else none

-- Up to the point where the session runs: the registries, the tunnel that it will tear down, and
-- what the agent was told.
unfoldable pub handle_agent :
    System
    → (Bytes → Result Bytes TunnelClaims)
    → ℕ
    → AgentHello
    → CoreState
    → Result Reject Session
unfolding authorize may_proceed plan_routes reply_routes register publish
handle_agent os verify session hello s = and_then (authorize verify hello) λ c.
    if not (may_proceed s c)
    then err subdomain_in_use
    else and_then
        (plan_routes os c.subdomain c.routes (record { tcp_listeners = []; udp_sockets = [] }))
        λ (ps, b).
          let st =
            register c session ps
              (record { core = s; active = fresh_tunnel c session; bound = b }) in
          ok (record {
            core = publish st;
            active = st.active;
            reply = reply_routes ps;
            certificate = certificate_for st.active;
          })
