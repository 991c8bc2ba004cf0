-- ===== src/Node/Agent/Stale.antt =====
-- Two sessions of one tunnel of natforge-node/src/tunnel/mod.rs: the end of the first, once the second is
-- registered.
use natforge_thesis.Prelude.{ℕ, ◌≡◌, true, some, get, nat_eq, bytes_eq}
use natforge_thesis.Proto.Claims.{TunnelClaims}
use natforge_thesis.Node.State.{RouteHandle, ActiveTunnel, CoreState}
use natforge_thesis.Node.Agent.{Session}
use natforge_thesis.Node.Agent.Leaks.{Same}

-- The subdomain's host routes are the tunnel's own, and those of the modes that the session registered
-- are the session's.
record Serving (c : TunnelClaims) (session : ℕ) (s : CoreState) (a : ActiveTunnel) : Type 0 where
  own_http : (h : RouteHandle) → get c.subdomain s.http_routes ≡ some h → h.tunnel_id ≡ c.tunnel_id
  own_https :
      (h : RouteHandle) → get c.subdomain s.https_routes ≡ some h → h.tunnel_id ≡ c.tunnel_id
  at_http :
      a.has_http ≡ true
      → (h : RouteHandle) × (get c.subdomain s.http_routes ≡ some h) × (h.session ≡ session)
  at_https :
      a.has_https ≡ true
      → (h : RouteHandle) × (get c.subdomain s.https_routes ≡ some h) × (h.session ≡ session)
  session_is : a.session ≡ session

-- What holds when a session of the tunnel has been let in.
record Begun (c : TunnelClaims) (session : ℕ) (r : Session) : Type 0 where
  same : Same c r.active
  serving : Serving c session r.core r.active
  listed : get c.subdomain r.core.tunnels ≡ some r.active
