-- ===== src/Control/Handlers/Guarded/Alone.antt =====
-- What a request of natforge-backend/src/handlers/tunnels.rs on one tunnel leaves alone.
use natforge_thesis.Prelude.{
  ℕ, ◌≡◌, refl, not, Bytes, List, Option, none, some, get-insert, nat_eq, arith, Bool-cases, inl,
  inr, Result, ok, err, ltb, length, if◌then◌else◌,
}
use natforge_thesis.Node.Text.{trim, trim_dots}
use natforge_thesis.Control.Names.{valid_custom_domain}
use natforge_thesis.Control.Policy.{RequestedRoute, PolicyError, check_route_policy}
use natforge_thesis.Control.Expand.{RouteRow}
use natforge_thesis.Control.Ports.{TunnelEntry, Db, ReserveError, migrate_tunnel}
use natforge_thesis.Control.Ports.Services.{set_service_routes}
use natforge_thesis.Control.Tunnels.{set_custom_domain, set_route_srv}
use natforge_thesis.Control.Tunnels.Elsewhere.{
  Elsewhere-same, with_entry-Elsewhere, with_row-Elsewhere, delete_tunnel-Elsewhere,
  migrate_tunnel-Elsewhere, set_service_routes-Elsewhere, stop_tunnel_keep-Elsewhere,
  start_tunnel_keep-Elsewhere, set_custom_domain-Elsewhere,
}
use natforge_thesis.Control.Site.{
  Node, Site, AuthUser, Reason, Done, refuse, checked, authorize_tunnel,
}
use natforge_thesis.Control.Handlers.{
  Unicode, stop_tunnel, start_tunnel, remove_tunnel, active_only, is_node, moved_to, move_tunnel,
  country_codes, set_tunnel_region_blocks, put_custom_domain, clear_custom_domain, srv_label,
  to_i16, put_route_srv, domain_set, check_device_endpoints, routes_put, put_routes,
}
use natforge_thesis.Control.Handlers.Guarded.{
  Command, stop, start, remove, clear_domain, migrate, set_domain, block_regions, set_srv,
  set_routes, edit, perform,
}
use natforge_thesis.Control.Handlers.Guarded.Apart.{
  Alone, Alone-db, Alone-same, checked-Alone, if-Alone,
}
use natforge_thesis.Control.Handlers.Guarded.Edits.{edit-Alone}

migrate-Alone :
    (s : Site) (user : AuthUser) (id : ℕ) (node : Bytes)
    → Alone id s (move_tunnel s user id node).site
unfolding move_tunnel
migrate-Alone s user id node =
    checked-Alone id s (authorize_tunnel s user id) _ λ t. by_target t (active_only _)
  where
    moved :
        (t : TunnelEntry) (n : Node) (r : Result ReserveError Db)
        → migrate_tunnel id n.node_id n.public_host s.db ≡ r
        → Alone id s (moved_to n s id t).site
    moved t n (err e) q = rw (moved_to, q) (Alone-same id s)
    moved t n (ok db) q =
        rw (moved_to, q)
          (Alone-db id s db (migrate_tunnel-Elsewhere id n.node_id n.public_host s.db db q))

    by_target :
        (t : TunnelEntry) (o : Option Node)
        → Alone id s
            (elim o as (λ x. Done Node) [
              | none ↦ refuse s 400 Reason.unknown_region
              | some n ↦
                  if is_node t.node_id n.node_id
                  then refuse s 400 Reason.same_region
                  else moved_to n s id t
            ]).site
    by_target t none = Alone-same id s
    by_target t (some n) =
        if-Alone id s (is_node t.node_id n.node_id) _ _ (Alone-same id s)
          (moved t n (migrate_tunnel id n.node_id n.public_host s.db) refl)

blocks-Alone :
    (u : Unicode) (s : Site) (user : AuthUser) (id : ℕ) (asked : List Bytes)
    → Alone id s (set_tunnel_region_blocks u s user id asked).site
unfolding set_tunnel_region_blocks
blocks-Alone u s user id asked = checked-Alone id s (authorize_tunnel s user id) _ λ t.
    elim (Bool-cases (ltb 100 (length kept))) [
      | inl y ↦ rw y (Alone-same id s)
      | inr y ↦ rw y (record {
        tables = Elsewhere-same id s.db;
        blocks = λ v d. ground (arith, d, get-insert id v kept s.tunnel_region_blocks);
        users = refl;
        devices = refl;
        nodes = refl;
      })
    ]
  where
    kept : List Bytes
    kept = country_codes u.to_uppercase asked

set_domain-Alone :
    (u : Unicode) (s : Site) (user : AuthUser) (id : ℕ) (asked : Bytes)
    → Alone id s (put_custom_domain u s user id asked).site
unfolding put_custom_domain
set_domain-Alone u s user id asked = checked-Alone id s (authorize_tunnel s user id) _ λ t.
    if-Alone id s (not (valid_custom_domain domain s.domain)) _ _ (Alone-same id s)
      (by_index t (set_custom_domain id (some domain) s.db) refl)
  where
    domain : Bytes
    domain = u.to_lowercase (trim_dots (trim asked))

    by_index :
        (t : TunnelEntry) (o : Option Db)
        → set_custom_domain id (some domain) s.db ≡ o
        → Alone id s (domain_set s id t domain).site
    by_index t none q = rw (domain_set, q) (Alone-same id s)
    by_index t (some db) q =
        rw (domain_set, q)
          (Alone-db id s db (set_custom_domain-Elsewhere id (some domain) s.db db q))

clear_domain-Alone :
    (s : Site) (user : AuthUser) (id : ℕ) → Alone id s (clear_custom_domain s user id).site
unfolding clear_custom_domain set_custom_domain
clear_domain-Alone s user id =
    checked-Alone id s (authorize_tunnel s user id) _
      λ t. Alone-db id s _ (with_entry-Elsewhere id _ s.db)

srv-Alone :
    (s : Site) (user : AuthUser) (id route_id : ℕ) (label : Option Bytes)
    → Alone id s (put_route_srv s user id route_id label).site
unfolding put_route_srv set_route_srv
srv-Alone s user id route_id label = checked-Alone id s (authorize_tunnel s user id) _ λ t.
    if-Alone id s _ _ _ (Alone-same id s) (
      Alone-db id s _ (
        with_row-Elsewhere id (to_i16 route_id) (λ r. record r { srv_service = srv_label label })
          s.db))

routes-Alone :
    (s : Site) (user : AuthUser) (id : ℕ) (routes : List RequestedRoute)
    → Alone id s (put_routes s user id routes).site
unfolding put_routes
routes-Alone s user id routes =
    checked-Alone id s (authorize_tunnel s user id) _ λ t. by_node t t.node_id
  where
    put :
        (t : TunnelEntry) (node : Bytes) (r : Result ReserveError (List RouteRow × Db))
        → set_service_routes id node routes s.db ≡ r
        → Alone id s (routes_put s id t node routes).site
    put t node (err e) q = rw (routes_put, q) (Alone-same id s)
    put t node (ok (rows, db)) q =
        rw (routes_put, q)
          (Alone-db id s db (set_service_routes-Elsewhere id node routes s.db rows db q))

    allowed :
        (t : TunnelEntry) (node : Bytes) (r : Result PolicyError (Unit {0}))
        → Alone id s
            (elim r as (λ x. Done (List RouteRow)) [
              | err e ↦ refuse s 400 (Reason.policy e)
              | ok _ ↦
                  checked s
                    (check_device_endpoints s id t.device_id routes)
                    λ _. routes_put s id t node routes
            ]).site
    allowed t node (err e) = Alone-same id s
    allowed t node (ok _) =
        checked-Alone id s (check_device_endpoints s id t.device_id routes) _
          λ _. put t node (set_service_routes id node routes s.db) refl

    by_node :
        (t : TunnelEntry) (o : Option Bytes)
        → Alone id s
            (elim o as (λ x. Done (List RouteRow)) [
              | none ↦ refuse s 409 Reason.no_host_node
              | some node ↦ elim (check_route_policy routes) [
                | err e ↦ refuse s 400 (Reason.policy e)
                | ok _ ↦
                    checked s
                      (check_device_endpoints s id t.device_id routes)
                      λ _. routes_put s id t node routes
              ]
            ]).site
    by_node t none = Alone-same id s
    by_node t (some node) = allowed t node (check_route_policy routes)

-- A request on a tunnel, whoever sends it and however it ends, leaves every other tunnel with its
-- entry, its routes, its ports and its refused countries, and the users, devices and nodes as they are.
pub perform-Alone :
    (u : Unicode) (c : Command) (s : Site) (user : AuthUser) (id : ℕ)
    → Alone id s (perform u c s user id).site
unfolding perform stop_tunnel start_tunnel remove_tunnel
perform-Alone u (stop now) s user id =
    checked-Alone id s (authorize_tunnel s user id) _
      λ t. Alone-db id s _ (stop_tunnel_keep-Elsewhere now id s.db)
perform-Alone u start s user id =
    checked-Alone id s (authorize_tunnel s user id) _
      λ t. Alone-db id s _ (start_tunnel_keep-Elsewhere id s.db)
perform-Alone u remove s user id =
    checked-Alone id s (authorize_tunnel s user id) _
      λ t. Alone-db id s _ (delete_tunnel-Elsewhere id s.db)
perform-Alone u clear_domain s user id = clear_domain-Alone s user id
perform-Alone u (migrate node) s user id = migrate-Alone s user id node
perform-Alone u (set_domain domain) s user id = set_domain-Alone u s user id domain
perform-Alone u (block_regions asked) s user id = blocks-Alone u s user id asked
perform-Alone u (set_srv route_id label) s user id = srv-Alone s user id route_id label
perform-Alone u (set_routes routes) s user id = routes-Alone s user id routes
perform-Alone u (edit req) s user id = edit-Alone u s user id req
