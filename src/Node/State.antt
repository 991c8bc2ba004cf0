-- ===== src/Node/State.antt =====
-- The registries of natforge-node/src/state.rs. A handle keeps the tunnel's stream-request channel
-- as a session number: two sessions of one tunnel have different channels and counters.
pub mod Routing
use natforge_thesis.Prelude.{
  ℕ, Bool, true, false, ◌||◌, Bytes, List, [], ◌∷◌, Option, none, some, Map, get, nat_eq, bytes_eq,
  beq, if◌then◌else◌,
}
use natforge_thesis.Proto.Route.{RouteMode, http, https}

pub record RouteHandle : Type 0 where
  pub tunnel_id : ℕ
  pub owner_id : ℕ
  pub route_id : ℕ
  pub mode : RouteMode
  pub session : ℕ

pub record ActiveTunnel : Type 0 where
  pub tunnel_id : ℕ
  pub subdomain : Bytes
  pub owner_id : ℕ
  pub public_ports : List ℕ
  pub udp_ports : List ℕ
  pub custom_domain : Option Bytes
  pub srv_records : List (Bytes × Bytes)
  pub has_http : Bool
  pub has_https : Bool
  pub session : ℕ
  -- The ports whose listener tasks run for this tunnel.
  pub tcp_listeners : List ℕ
  pub udp_listeners : List ℕ

pub record CoreState : Type 0 where
  pub tunnels : Map Bytes ActiveTunnel
  pub http_routes : Map Bytes RouteHandle
  pub https_routes : Map Bytes RouteHandle
  pub port_routes : Map ℕ RouteHandle
  pub udp_routes : Map ℕ RouteHandle
  pub custom_http : Map Bytes RouteHandle
  pub custom_https : Map Bytes RouteHandle
  pub blocked_regions : List Bytes
  pub tunnel_region_blocks : Map ℕ (List Bytes)

unfoldable pub host_route : CoreState → Bytes → RouteMode → Option RouteHandle
host_route s subdomain http = get subdomain s.http_routes
host_route s subdomain https = get subdomain s.https_routes
host_route s subdomain _ = none

unfoldable pub custom_host_route : CoreState → Bytes → RouteMode → Option RouteHandle
custom_host_route s hostname http = get hostname s.custom_http
custom_host_route s hostname https = get hostname s.custom_https
custom_host_route s hostname _ = none

unfoldable pub lists_country : Bytes → List Bytes → Bool
lists_country cc [] = false
lists_country cc (c ∷ cs) = beq c cc || lists_country cc cs

abbrev pub own_list : Option (List Bytes) → List Bytes
own_list none = []
own_list (some cs) = cs

unfoldable pub is_country_blocked : CoreState → ℕ → Option Bytes → Bool
unfolding lists_country
is_country_blocked s tunnel_id none = false
is_country_blocked s tunnel_id (some code) =
    if lists_country code s.blocked_regions
    then true
    else lists_country code (own_list (get tunnel_id s.tunnel_region_blocks))
