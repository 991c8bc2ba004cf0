-- ===== src/Control/Handlers/Request/Issued.antt =====
-- What the caller of `request_tunnel` of natforge-backend/src/handlers/tunnels.rs gets for a new tunnel.
use natforge_thesis.Prelude.{
  suc, ◌≡◌, ◌≢◌, ◌+◌, ◌≤◌, refl, sym, ap, ◌∙◌, false, Bytes, codes, List, [], ◌∷◌, none, All,
  length, is_empty, nat_eq, if◌then◌else◌, arith, Bool-cases, inl, inr, Result, ok, err,
}
use natforge_thesis.Proto.Route.{RouteMode, http, https, tcp, udp, both}
use natforge_thesis.Proto.Claims.{TunnelClaims, validate_shape}
use natforge_thesis.Control.Policy.{RequestedRoute, PolicyError, check_route_policy}
use natforge_thesis.Control.Policy.Limits.{
  one_http, one_https, one_tcp, one_udp, total, check_route_policy_iff,
}
use natforge_thesis.Control.Expand.{expand_routes, build_reservation, tunnel_claims}
use natforge_thesis.Control.Expand.Accepted.{expand_routes-shaped}
use natforge_thesis.Control.Ports.{Db, ReserveError}
use natforge_thesis.Control.Reserve.{ReservedTunnel, Given, reserve_tunnel, fresh_reservation}
use natforge_thesis.Control.Reserve.Rows.{insert_routes-IsRow}
use natforge_thesis.Control.Reserve.Fresh.{IsNew, reserve_tunnel_cases}
use natforge_thesis.Control.Site.{Node, Site, AuthUser, Refusal, is_user_banned, with_db}
use natforge_thesis.Control.Handlers.Request.{
  RequestTunnelReq, TunnelRequestRes, choose_node, check_device, reserve_request, answer_for,
  request_tunnel,
}

few :
    (rs : List RequestedRoute)
    → length rs ≤ total one_http rs + total one_https rs + total one_tcp rs + total one_udp rs
few [] = omega arith
few (r ∷ rs) = by_mode r.mode (few rs)
  where
    by_mode :
        (m : RouteMode)
        → length rs ≤ total one_http rs + total one_https rs + total one_tcp rs + total one_udp rs
        → suc (length rs)
          ≤ (one_http m + total one_http rs)
            + (one_https m + total one_https rs)
            + (one_tcp m + total one_tcp rs)
            + (one_udp m + total one_udp rs)
    by_mode http h = omega arith
    by_mode https h = omega arith
    by_mode tcp h = omega arith
    by_mode udp h = omega arith
    by_mode both h = omega arith

-- At most six routes pass the policy.
pub length_allowed : (rs : List RequestedRoute) → check_route_policy rs ≡ ok tt → length rs ≤ 6
length_allowed rs e = ground (arith, few rs, (check_route_policy_iff rs).0 e)

-- A request that is answered with a tunnel: every check passed, and the reservation was made.
pub record IsMade (encode : TunnelClaims → Bytes) (g : Given) (s : Site) (user : AuthUser)
    (req : RequestTunnelReq) (a : TunnelRequestRes) : Type 0 where
  pub node : Node
  pub made : ReservedTunnel
  pub db : Db
  pub allowed : is_user_banned s user.user_id ≡ false
  pub some_routes : is_empty req.routes ≡ false
  pub policy_ok : check_route_policy req.routes ≡ ok tt
  pub chosen : choose_node s g.now req.node_id ≡ ok node
  pub own : check_device s user req.device_id req.routes ≡ ok tt
  pub reserved : reserve_tunnel g (reserve_request s user req node) s.db ≡ ok (made, db)
  pub answered : a ≡ answer_for encode g.now s user node made
  pub after : (request_tunnel encode g s user req).site ≡ with_db s db

module _ (encode : TunnelClaims → Bytes) (g : Given) (s : Site) (user : AuthUser)
    (req : RequestTunnelReq) (a : TunnelRequestRes) where
  pub request_tunnel-IsMade :
      (request_tunnel encode g s user req).answer ≡ ok a → IsMade encode g s user req a
  unfolding request_tunnel
  request_tunnel-IsMade e = elim (Bool-cases (is_user_banned s user.user_id)) [
    | inl y ↦ ground (arith, e, y)
    | inr y ↦ elim (Bool-cases (is_empty req.routes)) [
      | inl z ↦ ground (arith, e, y, z)
      | inr z ↦ by_policy y z (check_route_policy req.routes) refl
    ]
  ]
    where
      by_reserve :
          (n : Node) (r : Result ReserveError (ReservedTunnel × Db))
          → is_user_banned s user.user_id ≡ false
          → is_empty req.routes ≡ false
          → check_route_policy req.routes ≡ ok tt
          → choose_node s g.now req.node_id ≡ ok n
          → check_device s user req.device_id req.routes ≡ ok tt
          → reserve_tunnel g (reserve_request s user req n) s.db ≡ r
          → IsMade encode g s user req a
      by_reserve n (err x) y z p c d r = ground (arith, e, y, z, p, c, d, r)
      by_reserve n (ok (made, db)) y z p c d r = record {
        node = n;
        made = made;
        db = db;
        allowed = y;
        some_routes = z;
        policy_ok = p;
        chosen = c;
        own = d;
        reserved = r;
        answered = ground (arith, e, y, z, p, c, d, r);
        after = ground (arith, y, z, p, c, d, r);
      }

      by_device :
          (n : Node) (r : Result Refusal (Unit {0}))
          → is_user_banned s user.user_id ≡ false
          → is_empty req.routes ≡ false
          → check_route_policy req.routes ≡ ok tt
          → choose_node s g.now req.node_id ≡ ok n
          → check_device s user req.device_id req.routes ≡ r
          → IsMade encode g s user req a
      by_device n (err x) y z p c d = ground (arith, e, y, z, p, c, d)
      by_device n (ok tt) y z p c d = by_reserve n _ y z p c d refl

      by_node :
          (r : Result Refusal Node)
          → is_user_banned s user.user_id ≡ false
          → is_empty req.routes ≡ false
          → check_route_policy req.routes ≡ ok tt
          → choose_node s g.now req.node_id ≡ r
          → IsMade encode g s user req a
      by_node (err x) y z p c = ground (arith, e, y, z, p, c)
      by_node (ok n) y z p c = by_device n _ y z p c refl

      by_policy :
          is_user_banned s user.user_id ≡ false
          → is_empty req.routes ≡ false
          → (r : Result PolicyError (Unit {0})) → check_route_policy req.routes ≡ r
          → IsMade encode g s user req a
      by_policy y z (err x) p = ground (arith, e, y, z, p)
      by_policy y z (ok tt) p = by_node _ y z p refl

pub IsNew-answer :
    (encode : TunnelClaims → Bytes) (g : Given) (s : Site) (user : AuthUser)
    (req : RequestTunnelReq) (a : TunnelRequestRes)
    → a.status ≡ codes "reserved"
    → (m : IsMade encode g s user req a)
    → IsNew g (reserve_request s user req m.node) s.db m.made m.db
IsNew-answer encode g s user req a st m =
    elim (reserve_tunnel_cases g (reserve_request s user req m.node) s.db m.made m.db m.reserved) [
      | inr n ↦ n
      | inl (x, f, i, j) ↦ absurd (
          differs (
            ap (λ y. y.status) m.answered
            ∙ ap (λ y. if y.reused then codes "reused" else codes "reserved") i))
    ]
  where
    differs : a.status ≡ codes "reused" → ⊥
    differs q = ground (arith, sym st ∙ q)

-- A request that is answered with a new tunnel comes from a user who is not banned and asks for routes
-- that the policy allows; the token is for the tunnel, its subdomain and the user, and its claims have
-- the shape that a node asks for, with no `both` route in them.
pub request_tunnel-issued :
    (encode : TunnelClaims → Bytes) (g : Given) (s : Site) (user : AuthUser)
    (req : RequestTunnelReq) (a : TunnelRequestRes)
    → (request_tunnel encode g s user req).answer ≡ ok a
    → a.status ≡ codes "reserved"
    → (is_user_banned s user.user_id ≡ false)
      × (check_route_policy req.routes ≡ ok tt)
      × (c : TunnelClaims) × (a.reservation.tunnel_token ≡ encode c)
      × (validate_shape c ≡ ok tt)
      × All (λ r. r.mode ≢ both) c.routes
      × (c.tunnel_id ≡ g.id)
      × (c.sub ≡ user.user_id)
      × (c.subdomain ≡ a.reservation.subdomain)
unfolding build_reservation tunnel_claims
request_tunnel-issued encode g s user req a e st =
    let m = request_tunnel-IsMade encode g s user req a e in
    let n = IsNew-answer encode g s user req a st m in
    let q = reserve_request s user req m.node in
    let few' = length_allowed req.routes m.policy_ok in
    let (rows, apart) =
      insert_routes-IsRow g.id m.node.node_id 0 req.routes s.db.pool n.rows n.pool [] n.inserted
        (omega arith) tt in
    let (shaped, single) =
      expand_routes-shaped g.now user.user_id g.id n.cand m.node.public_host n.rows none rows
        apart in
    let is : a ≡ answer_for encode g.now s user m.node (fresh_reservation q g.id n.cand n.rows) =
      m.answered ∙ ap (answer_for encode g.now s user m.node) n.result in
    (
      m.allowed,
      m.policy_ok,
      tunnel_claims g.now user.user_id g.id n.cand
          (expand_routes n.rows n.cand m.node.public_host).0 none,
      ap (λ x. x.reservation.tunnel_token) is,
      shaped,
      single,
      refl,
      refl,
      sym (ap (λ x. x.reservation.subdomain) is),
    )
