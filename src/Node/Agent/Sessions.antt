-- ===== src/Node/Agent/Sessions.antt =====
-- Whole sessions of natforge-node/src/tunnel/mod.rs: who is let in, and what stays when one ends.
use natforge_thesis.Prelude.{
  ℕ, ◌≡◌, ◌≢◌, ◌⊎◌, refl, ap, ◌∙◌, sym, subst, true, false, not, Bytes, List, [], ◌∷◌, Option, none,
  some, Map, All, get, insert, get-insert, get-nil, nat_eq, bytes_eq, beq, beq_iff, if◌then◌else◌,
  arith, Result, ok, err, and_then, and_then-eq-ok, Bool-cases, inl, inr,
}
use natforge_thesis.Proto.Route.{RouteMode, http, https}
use natforge_thesis.Proto.Claims.{RouteClaim, TunnelClaims}
use natforge_thesis.Node.State.{RouteHandle, CoreState, host_route}
use natforge_thesis.Node.Agent.{
  System, AgentHello, AgentRouteBinding, Reject, subdomain_in_use, role_service_host, PlannedRoute,
  Bound, Setup, Session, grants, check_bindings, authorize, free_or_ours, may_proceed, plan_routes,
  reply_routes, register, fresh_tunnel, publish, certificate_for, handle_agent,
}
use natforge_thesis.Node.Agent.Release.{end_session}
use natforge_thesis.Node.Agent.Leaks.{
  Covered, Same, Absent, register-Covered, register-Same, end_session-Absent,
}

-- The claims list a route with this id.
abbrev pub Granted : List RouteClaim → ℕ → Type 0
Granted [] k = ⊥
Granted (r ∷ rs) k = (r.route_id ≡ k) ⊎ Granted rs k

grants-Granted :
    (rs : List RouteClaim) (m : Map ℕ RouteClaim) (k : ℕ) (c : RouteClaim)
    → get k (grants rs m) ≡ some c
    → Granted rs k ⊎ (get k m ≡ some c)
unfolding grants
grants-Granted [] m k c e = inr e
grants-Granted (r ∷ rs) m k c e =
    ground (arith, grants-Granted rs (insert r.route_id r m) k c, get-insert r.route_id k r m)

only-Granted :
    (rs : List RouteClaim) (k : ℕ) (c : RouteClaim) → get k (grants rs []) ≡ some c → Granted rs k
only-Granted rs k c e = elim (grants-Granted rs [] k c e) [
  | inl g ↦ g
  | inr q ↦ ground (arith, q, get-nil {V = RouteClaim} k)
]

check_bindings-Granted :
    (rs : List RouteClaim) (bs : List AgentRouteBinding)
    → check_bindings (grants rs []) bs ≡ ok tt
    → All (λ b. Granted rs b.route_id) bs
unfolding check_bindings
check_bindings-Granted rs [] e = tt
check_bindings-Granted rs (b ∷ bs) e =
    go (get b.route_id (grants rs [])) refl (check_bindings-Granted rs bs)
  where
    go :
        (o : Option RouteClaim)
        → get b.route_id (grants rs []) ≡ o
        → (check_bindings (grants rs []) bs ≡ ok tt → All (λ b. Granted rs b.route_id) bs)
        → All (λ b. Granted rs b.route_id) (b ∷ bs)
    go none q later = ground (arith, q)
    go (some c) q later = (only-Granted rs b.route_id c q, later (ground (arith, q)))

-- What a session that was let in went through.
pub record Passed (os : System) (verify : Bytes → Result Bytes TunnelClaims) (session : ℕ)
    (hello : AgentHello) (s : CoreState) (r : Session) : Type 0 where
  pub claims : TunnelClaims
  pub role_is : beq hello.role role_service_host ≡ true
  pub token_is : verify hello.tunnel_token ≡ ok claims
  pub granted : check_bindings (grants claims.routes []) hello.routes ≡ ok tt
  pub free : may_proceed s claims ≡ true
  pub plan : List PlannedRoute
  pub bound : Bound
  pub planned_is :
      plan_routes os claims.subdomain claims.routes
        (record { tcp_listeners = []; udp_sockets = [] })
      ≡ ok (plan, bound)
  pub is : r ≡ (
      let st =
        register claims session plan
          (record { core = s; active = fresh_tunnel claims session; bound = bound }) in
      record {
        core = publish st;
        active = st.active;
        reply = reply_routes plan;
        certificate = certificate_for st.active;
      })

authorize-eq-ok :
    (verify : Bytes → Result Bytes TunnelClaims) (hello : AgentHello) (c : TunnelClaims)
    → authorize verify hello ≡ ok c
    → (beq hello.role role_service_host ≡ true)
      × (verify hello.tunnel_token ≡ ok c)
      × (check_bindings (grants c.routes []) hello.routes ≡ ok tt)
unfolding authorize
authorize-eq-ok verify hello c e = ground arith

pub handle_agent-eq-ok :
    (os : System) (verify : Bytes → Result Bytes TunnelClaims) (session : ℕ) (hello : AgentHello)
    (s : CoreState) (r : Session)
    → handle_agent os verify session hello s ≡ ok r
    → Passed os verify session hello s r
unfolding handle_agent
handle_agent-eq-ok os verify session hello s r e =
    let nothing : Bound = record { tcp_listeners = []; udp_sockets = [] } in
    let (c, e1, e2) = and_then-eq-ok (authorize verify hello) _ e in
    let (role, token, granted) = authorize-eq-ok verify hello c e1 in
    elim (Bool-cases (may_proceed s c)) [
      | inr n ↦ refused c n e2
      | inl y ↦
          let e3 =
            subst
              (λ b.
                (if not b
                  then err subdomain_in_use
                  else and_then (plan_routes os c.subdomain c.routes nothing) (finish c))
                ≡ ok r)
              y e2 in
          let ((ps, b), e4, e5) =
            and_then-eq-ok (plan_routes os c.subdomain c.routes nothing) (finish c) e3 in
          record {
            claims = c;
            role_is = role;
            token_is = token;
            granted = granted;
            free = y;
            plan = ps;
            bound = b;
            planned_is = e4;
            is = ground (arith, e5);
          }
    ]
  where
    finish : TunnelClaims → List PlannedRoute × Bound → Result Reject Session
    finish c (ps, b) =
        let st =
          register c session ps (record { core = s; active = fresh_tunnel c session; bound = b }) in
        ok (record {
          core = publish st;
          active = st.active;
          reply = reply_routes ps;
          certificate = certificate_for st.active;
        })

    refused :
        (c : TunnelClaims)
        → may_proceed s c ≡ false
        → (if not (may_proceed s c)
            then err subdomain_in_use
            else and_then
                (plan_routes os c.subdomain c.routes
                  (record { tcp_listeners = []; udp_sockets = [] }))
                (finish c))
          ≡ ok r
        → Passed os verify session hello s r
    refused c n q = ground (arith, n, q)

-- An agent that is let in presented the service-host role and a token that verifies, and the claims
-- of the token list the route of every binding that it asked for.
pub handle_agent-authorized :
    (os : System) (verify : Bytes → Result Bytes TunnelClaims) (session : ℕ) (hello : AgentHello)
    (s : CoreState) (r : Session)
    → handle_agent os verify session hello s ≡ ok r
    → (hello.role ≡ role_service_host)
      × (c : TunnelClaims) × (verify hello.tunnel_token ≡ ok c)
      × All (λ b. Granted c.routes b.route_id) hello.routes
handle_agent-authorized os verify session hello s r e =
    let p = handle_agent-eq-ok os verify session hello s r e in
    (
      (beq_iff hello.role role_service_host).0 p.role_is,
      p.claims,
      p.token_is,
      check_bindings-Granted p.claims.routes hello.routes p.granted,
    )

pub may_proceed-ours :
    (s : CoreState) (c : TunnelClaims) (m : RouteMode) (h : RouteHandle)
    → may_proceed s c ≡ true
    → host_route s c.subdomain m ≡ some h
    → h.tunnel_id ≡ c.tunnel_id
unfolding may_proceed free_or_ours host_route
may_proceed-ours s c http h y e = ground (arith, y, e)
may_proceed-ours s c https h y e = ground (arith, y, e)
may_proceed-ours s c _ h y e = ground (arith, e)

-- While another tunnel's route holds the subdomain, for HTTP or for HTTPS, an agent whose token
-- names that subdomain is turned away.
pub handle_agent_no_hijack :
    (os : System) (verify : Bytes → Result Bytes TunnelClaims) (session : ℕ) (hello : AgentHello)
    (s : CoreState) (c : TunnelClaims) (m : RouteMode) (h : RouteHandle)
    → verify hello.tunnel_token ≡ ok c
    → host_route s c.subdomain m ≡ some h
    → h.tunnel_id ≢ c.tunnel_id
    → (r : Session) → handle_agent os verify session hello s ≢ ok r
handle_agent_no_hijack os verify session hello s c m h v e n r q =
    let p = handle_agent-eq-ok os verify session hello s r q in
    let same : p.claims ≡ c = ground (arith, p.token_is, v) in
    n (may_proceed-ours s c m h (subst (λ x. may_proceed s x ≡ true) same p.free) e)

Absent-Covered :
    (c : TunnelClaims) (session : ℕ) (s : CoreState)
    → Absent c.tunnel_id s
    → Covered s (fresh_tunnel c session)
Absent-Covered c session s a = record {
  http = λ k h e i. ground (arith, a.http k h e i);
  https = λ k h e i. ground (arith, a.https k h e i);
  tcp_ports = λ k h e i. ground (arith, a.tcp_ports k h e i);
  udp_ports = λ k h e i. ground (arith, a.udp_ports k h e i);
  on_http = λ k h e i. ground (arith, a.on_http k h e i);
  on_https = λ k h e i. ground (arith, a.on_https k h e i);
}

publish-Covered : (st : Setup) → Covered st.core st.active → Covered (publish st) st.active
unfolding publish
publish-Covered st v = record {
  http = v.http;
  https = v.https;
  tcp_ports = v.tcp_ports;
  udp_ports = v.udp_ports;
  on_http = v.on_http;
  on_https = v.on_https;
}

-- A session of a tunnel that no route registry names when the agent arrives leaves the registries
-- without any entry of that tunnel once it has ended.
pub handle_agent_leaves_nothing :
    (os : System) (verify : Bytes → Result Bytes TunnelClaims) (session : ℕ) (hello : AgentHello)
    (s : CoreState) (c : TunnelClaims) (r : Session)
    → verify hello.tunnel_token ≡ ok c
    → Absent c.tunnel_id s
    → handle_agent os verify session hello s ≡ ok r
    → Absent c.tunnel_id (end_session r.active r.core)
handle_agent_leaves_nothing os verify session hello s c r v a e =
    let p = handle_agent-eq-ok os verify session hello s r e in
    let same : p.claims ≡ c = ground (arith, p.token_is, v) in
    let st : Setup = record { core = s; active = fresh_tunnel p.claims session; bound = p.bound } in
    let kept : Same p.claims st.active = record {
      id_is = refl;
      subdomain_is = refl;
      custom_is = refl;
    } in
    let end = register p.claims session p.plan st in
    let covered =
      register-Covered p.claims session p.plan st kept
        (Absent-Covered p.claims session s (subst (λ x. Absent x.tunnel_id s) (sym same) a)) in
    let left = end_session-Absent (publish end) end.active (publish-Covered end covered) in
    subst (λ x. Absent c.tunnel_id (end_session x.active x.core)) (sym p.is)
      (subst (λ i. Absent i (end_session end.active (publish end)))
        ((register-Same p.claims session p.plan st kept).id_is ∙ ap (λ x. x.tunnel_id) same) left)
