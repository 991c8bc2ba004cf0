-- ===== src/Host/Hello.antt =====
-- The agent's hello (natforge-agent/src/service_host.rs) for a reservation of natforge-backend, and the
-- node's check of it.
use natforge_thesis.Prelude.{
  ℕ, ◌+◌, ◌≡◌, refl, ap, sym, subst, ◌∙◌, true, ◌||◌, Bytes, beq_iff, List, [], ◌∷◌, ◌++◌, All, Map,
  get, insert, get-insert, nat_eq, arith, Result, ok,
}
use natforge_thesis.Proto.Route.{RouteMode, http, https, tcp, udp, both}
use natforge_thesis.Proto.Claims.{RouteClaim, TunnelClaims, contains, is_some}
use natforge_thesis.Control.Policy.{parse_kind}
use natforge_thesis.Control.Expand.{
  RouteRow, both_udp_route_offset, to_u16, expand_as, expand_both, expand_single, expand_route,
  expand_routes,
}
use natforge_thesis.Node.Agent.{grants, check_bindings, authorize, role_service_host}
use natforge_thesis.Host.{ReservedRoute, Reservation, bindings, route_map, hello_of}

abbrev pub claim_ids : List RouteClaim → List ℕ
claim_ids [] = []
claim_ids (c ∷ cs) = c.route_id ∷ claim_ids cs

abbrev pub view_ids : List natforge_thesis.Control.Expand.ReservedRoute → List ℕ
view_ids [] = []
view_ids (v ∷ vs) = v.route_id ∷ view_ids vs

abbrev pub own_ids : List ReservedRoute → List ℕ
own_ids [] = []
own_ids (r ∷ rs) = r.route_id ∷ own_ids rs

expand_as-ids :
    (m : RouteMode) (r : RouteRow) (s h : Bytes) (cs : List RouteClaim)
    (vs : List natforge_thesis.Control.Expand.ReservedRoute)
    → claim_ids cs ≡ view_ids vs
    → claim_ids ((expand_as m r s h).0 ++ cs) ≡ view_ids ((expand_as m r s h).1 ++ vs)
unfolding expand_as expand_both expand_single
expand_as-ids http r s h cs vs e = ap (◌∷◌ (to_u16 r.route_id)) e
expand_as-ids https r s h cs vs e = ap (◌∷◌ (to_u16 r.route_id)) e
expand_as-ids tcp r s h cs vs e = ap (◌∷◌ (to_u16 r.route_id)) e
expand_as-ids udp r s h cs vs e = ap (◌∷◌ (to_u16 r.route_id)) e
expand_as-ids both r s h cs vs e =
    ap (λ l. to_u16 r.route_id ∷ to_u16 (to_u16 r.route_id + both_udp_route_offset) ∷ l) e

-- A route of the token has a view with its id, and the other way round.
expand_routes-ids :
    (rows : List RouteRow) (s h : Bytes)
    → claim_ids (expand_routes rows s h).0 ≡ view_ids (expand_routes rows s h).1
unfolding expand_routes expand_route
expand_routes-ids [] s h = refl
expand_routes-ids (r ∷ rs) s h =
    expand_as-ids (parse_kind r.kind) r s h (expand_routes rs s h).0 (expand_routes rs s h).1
      (expand_routes-ids rs s h)

grants-known :
    (cs : List RouteClaim) (m : Map ℕ RouteClaim) (id : ℕ)
    → is_some (get id (grants cs m)) ≡ (contains id (claim_ids cs) || is_some (get id m))
unfolding grants
grants-known [] m id = refl
grants-known (c ∷ cs) m id =
    ground (arith, grants-known cs (insert c.route_id c m) id, get-insert c.route_id id c m)

route_map-known :
    (rs : List ReservedRoute) (m : Map ℕ (RouteMode × ℕ)) (id : ℕ)
    → is_some (get id (route_map rs m)) ≡ (contains id (own_ids rs) || is_some (get id m))
unfolding route_map
route_map-known [] m id = refl
route_map-known (r ∷ rs) m id = ground (
  arith,
  route_map-known rs (insert r.route_id (r.mode, r.local_port) m) id,
  get-insert r.route_id id (r.mode, r.local_port) m,
)

abbrev AllIn : List ℕ → List ℕ → Type 0
AllIn ids = All (λ id. contains id ids ≡ true)

AllIn-cons : (k : ℕ) (ids js : List ℕ) → AllIn ids js → AllIn (k ∷ ids) js
AllIn-cons k ids [] a = tt
AllIn-cons k ids (j ∷ js) a = (ground (arith, a.0), AllIn-cons k ids js a.1)

AllIn-self : (ids : List ℕ) → AllIn ids ids
AllIn-self [] = tt
AllIn-self (k ∷ ids) = (ground arith, AllIn-cons k ids ids (AllIn-self ids))

check_bindings_ok :
    (granted : Map ℕ RouteClaim) (ids : List ℕ) (rs : List ReservedRoute)
    → ((id : ℕ) → contains id ids ≡ true → is_some (get id granted) ≡ true)
    → AllIn ids (own_ids rs)
    → check_bindings granted (bindings rs) ≡ ok tt
unfolding check_bindings
check_bindings_ok granted ids [] k a = refl
check_bindings_ok granted ids (r ∷ rs) k a =
    ground (arith, k r.route_id a.0, check_bindings_ok granted ids rs k a.1)

authorize_bound :
    (verify : Bytes → Result Bytes TunnelClaims) (r : Reservation) (c : TunnelClaims)
    → verify r.tunnel_token ≡ ok c
    → check_bindings (grants c.routes []) (bindings r.routes) ≡ ok tt
    → authorize verify (hello_of r) ≡ ok c
unfolding authorize hello_of
authorize_bound verify r c v b = ground (arith, v, b, beq_iff role_service_host role_service_host)

mapped :
    (rs : List ReservedRoute) (cs : List RouteClaim)
    → AllIn (own_ids rs) (claim_ids cs)
    → All (λ k. is_some (get k.route_id (route_map rs [])) ≡ true) cs
mapped rs [] a = tt
mapped rs (c ∷ cs) a = (ground (arith, route_map-known rs [] c.route_id, a.0), mapped rs cs a.1)

-- An agent whose reservation lists the routes of the control plane's answer, by their ids, and whose
-- token the node verifies to the claims minted with that answer, is authorized under these claims, and
-- has a local port for every route of the token.
pub authorize-hello_of :
    (verify : Bytes → Result Bytes TunnelClaims) (r : Reservation) (c : TunnelClaims)
    (rows : List RouteRow) (subdomain host : Bytes)
    → verify r.tunnel_token ≡ ok c
    → c.routes ≡ (expand_routes rows subdomain host).0
    → own_ids r.routes ≡ view_ids (expand_routes rows subdomain host).1
    → (authorize verify (hello_of r) ≡ ok c)
      × All (λ k. is_some (get k.route_id (route_map r.routes [])) ≡ true) c.routes
authorize-hello_of verify r c rows subdomain host v routes ids =
    let same : own_ids r.routes ≡ claim_ids c.routes =
      ids ∙ sym (expand_routes-ids rows subdomain host) ∙ ap claim_ids (sym routes) in
    let known : AllIn (claim_ids c.routes) (own_ids r.routes) =
      subst (AllIn (claim_ids c.routes)) (sym same) (AllIn-self (claim_ids c.routes)) in
    let held : AllIn (own_ids r.routes) (claim_ids c.routes) =
      subst (λ l. AllIn l (claim_ids c.routes)) (sym same) (AllIn-self (claim_ids c.routes)) in
    (
      authorize_bound verify r c v (
          check_bindings_ok (grants c.routes []) (claim_ids c.routes) r.routes
            (λ id i. ground (arith, i, grants-known c.routes [] id)) known),
      mapped r.routes c.routes held,
    )
