-- ===== src/Node/Agent/Release.antt =====
-- `teardown` of natforge-node/src/tunnel/mod.rs, and the call of it at the end of `handle_agent`.
use natforge_thesis.Prelude.{
  ℕ, Bool, false, Bytes, List, [], ◌∷◌, Option, none, some, Map, get, remove, nat_eq, bytes_eq,
  ◌==◌, if◌then◌else◌,
}
use natforge_thesis.Node.State.{RouteHandle, ActiveTunnel, CoreState}

-- An entry goes only if this tunnel's id stands in it.
abbrev pub is_ours : ℕ → Option RouteHandle → Bool
is_ours tunnel_id none = false
is_ours tunnel_id (some h) = h.tunnel_id == tunnel_id

unfoldable pub release_host : ℕ → Bytes → Map Bytes RouteHandle → Map Bytes RouteHandle
release_host tunnel_id k m = if is_ours tunnel_id (get k m) then remove k m else m

unfoldable pub release_ports : ℕ → List ℕ → Map ℕ RouteHandle → Map ℕ RouteHandle
release_ports tunnel_id [] m = m
release_ports tunnel_id (p ∷ ps) m =
    release_ports tunnel_id ps (if is_ours tunnel_id (get p m) then remove p m else m)

unfoldable pub release_custom : ℕ → Option Bytes → Map Bytes RouteHandle → Map Bytes RouteHandle
unfolding release_host
release_custom tunnel_id none m = m
release_custom tunnel_id (some d) m = release_host tunnel_id d m

-- Dropping the `tunnels` entry also aborts its listener tasks.
unfoldable pub teardown : ℕ → Bytes → List ℕ → List ℕ → Option Bytes → CoreState → CoreState
unfolding release_host release_ports release_custom
teardown tunnel_id subdomain ports udp_ports custom_domain s = record s {
  tunnels = remove subdomain s.tunnels;
  http_routes = release_host tunnel_id subdomain s.http_routes;
  https_routes = release_host tunnel_id subdomain s.https_routes;
  port_routes = release_ports tunnel_id ports s.port_routes;
  udp_routes = release_ports tunnel_id udp_ports s.udp_routes;
  custom_http = release_custom tunnel_id custom_domain s.custom_http;
  custom_https = release_custom tunnel_id custom_domain s.custom_https;
}

-- What `handle_agent` calls it with when the session of tunnel `t` ends.
unfoldable pub end_session : ActiveTunnel → CoreState → CoreState
unfolding teardown
end_session t = teardown t.tunnel_id t.subdomain t.public_ports t.udp_ports t.custom_domain
