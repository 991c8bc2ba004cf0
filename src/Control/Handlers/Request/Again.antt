-- ===== src/Control/Handlers/Request/Again.antt =====
-- The same request for a device once more (`request_tunnel` of
-- natforge-backend/src/handlers/tunnels.rs).
use natforge_thesis.Prelude.{
  ℕ, ◌≡◌, ◌≢◌, ◌+◌, refl, sym, ap, subst, ◌∙◌, true, false, Bytes, codes, beq, List, [], ◌∷◌, ◌++◌,
  Option, some, is_empty, get, insert, remove, get-insert, nat_eq, arith, Bool-cases, inl, inr, ok,
  err,
}
use natforge_thesis.Proto.Route.{RouteMode, http, https, tcp, udp, both, is_host_routed, as_str}
use natforge_thesis.Proto.Claims.{TunnelClaims}
use natforge_thesis.Control.Policy.{RequestedRoute, check_route_policy, transport_bits, do_clash}
use natforge_thesis.Control.Expand.{RouteRow}
use natforge_thesis.Control.Ports.{Pool, Db}
use natforge_thesis.Control.Ports.Services.{new_row}
use natforge_thesis.Control.Reserve.{Given, insert_routes, added}
use natforge_thesis.Control.Reserve.Rows.{insert_routes_cases}
use natforge_thesis.Control.Site.{
  Node, Site, AuthUser, endpoint_used, refuse, is_user_banned, device_routes_excluding, is_used,
  find_conflict, check_endpoints, is_on, with_db,
}
use natforge_thesis.Control.Handlers.Request.{
  RequestTunnelReq, TunnelRequestRes, choose_node, check_device, reserve_request, request_tunnel,
}
use natforge_thesis.Control.Handlers.Request.Issued.{request_tunnel-IsMade, IsNew-answer}

do_clash_self : (m : RouteMode) → is_host_routed m ≡ false → do_clash (as_str m) (as_str m) ≡ true
unfolding do_clash transport_bits as_str is_host_routed beq
do_clash_self http h = ground (arith, h)
do_clash_self https h = ground (arith, h)
do_clash_self tcp h = refl
do_clash_self udp h = refl
do_clash_self both h = refl

is_used-head :
    (q : RequestedRoute) (k : ℕ) (p : Option ℕ) (rs : List RouteRow)
    → is_host_routed q.mode ≡ false
    → is_used (new_row q k p ∷ rs) q ≡ true
unfolding is_used
is_used-head q k p rs h = ground (arith, do_clash_self q.mode h)

is_used-later :
    (r : RouteRow) (rs : List RouteRow) (q : RequestedRoute)
    → is_used rs q ≡ true
    → is_used (r ∷ rs) q ≡ true
unfolding is_used
is_used-later r rs q h = ground (arith, h)

insert_routes-used :
    (t : ℕ) (node : Bytes) (i : ℕ) (before : List RequestedRoute) (q : RequestedRoute)
    (after : List RequestedRoute) (pool : Pool) (rows more : List RouteRow) (pool' : Pool)
    → insert_routes t node i (before ++ q ∷ after) pool ≡ ok (rows, pool')
    → is_host_routed q.mode ≡ false
    → is_used (rows ++ more) q ≡ true
insert_routes-used t node i [] q after pool rows more pool' e h =
    elim (insert_routes_cases t node i q after pool rows pool' e) [
      | inl (later, y, f, r) ↦ ground (arith, y, h)
      | inr (c, later, g, f, r) ↦
          subst (λ x. is_used (x ++ more) q ≡ true) (sym r)
            (is_used-head q (i + 1) (some c.0) (later ++ more) h)
    ]
insert_routes-used t node i (b ∷ before) q after pool rows more pool' e h =
    elim (insert_routes_cases t node i b (before ++ q ∷ after) pool rows pool' e) [
      | inl (later, y, f, r) ↦
          subst (λ x. is_used (x ++ more) q ≡ true) (sym r)
            (is_used-later _ (later ++ more) q
              (insert_routes-used t node (i + 1) before q after pool later more pool' f h))
      | inr (c, later, g, f, r) ↦
          subst (λ x. is_used (x ++ more) q ≡ true) (sym r)
            (is_used-later _ (later ++ more) q
              (insert_routes-used t node (i + 1) before q after c.1 later more pool' f h))
    ]

find_conflict-some :
    (taken : List RouteRow) (before : List RequestedRoute) (q : RequestedRoute)
    (after : List RequestedRoute)
    → is_used taken q ≡ true
    → (x : RequestedRoute) × (find_conflict taken (before ++ q ∷ after) ≡ some x)
unfolding find_conflict
find_conflict-some taken [] q after h = (q, ground (arith, h))
find_conflict-some taken (b ∷ before) q after h =
    let (x, e) = find_conflict-some taken before q after h in
    elim (Bool-cases (is_used taken b)) [
      | inl y ↦ (b, ground (arith, y))
      | inr y ↦ (x, ground (arith, y, e))
    ]

device_rows :
    (g : Given) (s : Site) (user : AuthUser) (req : RequestTunnelReq) (n : Node) (d : ℕ)
    (cand : Bytes) (rows : List RouteRow) (pool : Pool)
    → g.id ≢ 0
    → req.device_id ≡ some d
    → let db = added g (reserve_request s user req n) cand rows pool s.db in
      (more : List RouteRow) × (device_routes_excluding d 0 db db.tunnels ≡ rows ++ more)
unfolding device_routes_excluding insert
device_rows g s user req n d cand rows pool z e =
    let db = added g (reserve_request s user req n) cand rows pool s.db in
    (
      device_routes_excluding d 0 db (remove g.id s.db.tunnels),
      ground (arith, z, e, get-insert g.id g.id rows s.db.routes),
    )

device_owned :
    (s : Site) (user : AuthUser) (o : Option ℕ) (d : ℕ) (routes : List RequestedRoute)
    → o ≡ some d
    → check_device s user o routes ≡ ok tt
    → is_on user.user_id (get d s.devices) ≡ true
unfolding check_device
device_owned s user o d routes e h = ground (arith, e, h)

endpoint_refused :
    (s : Site) (user : AuthUser) (o : Option ℕ) (d : ℕ) (routes : List RequestedRoute)
    (x : RequestedRoute)
    → o ≡ some d
    → is_on user.user_id (get d s.devices) ≡ true
    → find_conflict (device_routes_excluding d 0 s.db s.db.tunnels) routes ≡ some x
    → check_device s user o routes ≡ err (409, endpoint_used x)
unfolding check_device check_endpoints
endpoint_refused s user o d routes x e y f = ground (arith, e, y, f)

request_refused :
    (encode : TunnelClaims → Bytes) (g : Given) (s : Site) (user : AuthUser)
    (req : RequestTunnelReq) (n : Node) (x : RequestedRoute)
    → is_user_banned s user.user_id ≡ false
    → is_empty req.routes ≡ false
    → check_route_policy req.routes ≡ ok tt
    → choose_node s g.now req.node_id ≡ ok n
    → check_device s user req.device_id req.routes ≡ err (409, endpoint_used x)
    → request_tunnel encode g s user req ≡ refuse s 409 (endpoint_used x)
unfolding request_tunnel
request_refused encode g s user req n x y z p c d = ground (arith, y, z, p, c, d)

-- A request for a device that is answered with a new tunnel, and asks for a TCP or UDP port, is refused
-- when it is sent again while a node can be chosen: the tunnel that it made counts as another one on
-- the device, so that the reservation is never reused.
pub request_tunnel_device_again :
    (encode : TunnelClaims → Bytes) (g g' : Given) (s : Site) (user : AuthUser)
    (req : RequestTunnelReq) (a : TunnelRequestRes) (d : ℕ) (before : List RequestedRoute)
    (q : RequestedRoute) (after : List RequestedRoute) (n' : Node)
    → (request_tunnel encode g s user req).answer ≡ ok a
    → a.status ≡ codes "reserved"
    → g.id ≢ 0
    → req.device_id ≡ some d
    → req.routes ≡ before ++ q ∷ after
    → is_host_routed q.mode ≡ false
    → choose_node (request_tunnel encode g s user req).site g'.now req.node_id ≡ ok n'
    → let s' = (request_tunnel encode g s user req).site in
      (x : RequestedRoute) × (request_tunnel encode g' s' user req
        ≡ refuse s' 409 (endpoint_used x))
unfolding is_user_banned
request_tunnel_device_again encode g g' s user req a d before q after n' e st z dev rts hq cn =
    let m = request_tunnel-IsMade encode g s user req a e in
    let n = IsNew-answer encode g s user req a st m in
    let end = with_db s (added g (reserve_request s user req m.node) n.cand n.rows n.pool s.db) in
    let is : (request_tunnel encode g s user req).site ≡ end = m.after ∙ ap (with_db s) n.after in
    let (more, listed) = device_rows g s user req m.node d n.cand n.rows n.pool z dev in
    let split =
      subst (λ r. insert_routes g.id m.node.node_id 0 r s.db.pool ≡ ok (n.rows, n.pool)) rts
        n.inserted in
    let used =
      insert_routes-used g.id m.node.node_id 0 before q after s.db.pool n.rows more n.pool split
        hq in
    let (x, found) = find_conflict-some (n.rows ++ more) before q after used in
    let clash : find_conflict (device_routes_excluding d 0 end.db end.db.tunnels) req.routes
        ≡ some x =
      subst (λ r. find_conflict (device_routes_excluding d 0 end.db end.db.tunnels) r ≡ some x)
        (sym rts)
        (subst (λ l. find_conflict l (before ++ q ∷ after) ≡ some x) (sym listed) found) in
    let refused =
      endpoint_refused end user req.device_id d req.routes x dev
        (device_owned s user req.device_id d req.routes dev m.own) clash in
    (
      x,
      subst (λ y. request_tunnel encode g' y user req ≡ refuse y 409 (endpoint_used x)) (sym is)
          (request_refused encode g' end user req n' x (banned_same s end.db m.allowed)
            m.some_routes m.policy_ok (subst (λ y. choose_node y g'.now req.node_id ≡ ok n') is cn)
            refused),
    )
  where
    banned_same :
        (s : Site) (db : Db)
        → is_user_banned s user.user_id ≡ false
        → is_user_banned (with_db s db) user.user_id ≡ false
    banned_same s db h = h
