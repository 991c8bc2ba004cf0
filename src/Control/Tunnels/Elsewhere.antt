-- ===== src/Control/Tunnels/Elsewhere.antt =====
-- What the statements and transactions of natforge-backend/src/db/queries.rs on one tunnel leave alone:
-- every other tunnel.
use natforge_thesis.Prelude.{
  ℕ, ◌≡◌, ◌≢◌, refl, subst, ◌∙◌, Bytes, List, ◌++◌, Option, none, some, Map, get, insert,
  get-insert, get-remove, nat_eq, bytes_eq, arith, Bool-cases, Option-cases, inl, inr, is_empty,
  ◌&&◌, not, ok, and_then-eq-ok,
}
use natforge_thesis.Control.Policy.{RequestedRoute}
use natforge_thesis.Control.Expand.{RouteRow}
use natforge_thesis.Control.Ports.{
  Holder, TunnelEntry, Db, lookup, load_routes, free_where, of_tunnel, update_entry, move_rows,
  migrate_tunnel, delete_tunnel,
}
use natforge_thesis.Control.Ports.Claims.{lookup-free_where}
use natforge_thesis.Control.Ports.Migrate.{move_rows-keeps}
use natforge_thesis.Control.Ports.Services.{
  drop_rows, max_route_id, add_rows, set_sig, is_taken, route_signature, set_service_routes,
}
use natforge_thesis.Control.Ports.Services.Kept.{drop_rows-keeps, add_rows-Placed, other_apart}
use natforge_thesis.Control.Tunnels.{
  with_entry, with_row, update_row, stop_tunnel_keep, start_tunnel_keep, set_custom_domain,
  is_stopped, clashes,
}
use natforge_thesis.Control.Tunnels.Sweeps.{get-update_entry}

-- Every other tunnel keeps its entry, its routes and its ports.
pub record Elsewhere (t : ℕ) (db db' : Db) : Type 0 where
  pub entries : (u : ℕ) → u ≢ t → get u db'.tunnels ≡ get u db.tunnels
  pub rows : (u : ℕ) → u ≢ t → get u db'.routes ≡ get u db.routes
  pub held :
      (n : Bytes) (p : ℕ) (h : Holder)
      → h.tunnel_id ≢ t
      → lookup n p db.pool ≡ some (some h)
      → lookup n p db'.pool ≡ some (some h)

pub Elsewhere-same : (t : ℕ) (db : Db) → Elsewhere t db db
Elsewhere-same t db = record { entries = λ u d. refl; rows = λ u d. refl; held = λ n p h d l. l }

pub Elsewhere-trans : (t : ℕ) (a b c : Db) → Elsewhere t a b → Elsewhere t b c → Elsewhere t a c
Elsewhere-trans t a b c x y = record {
  entries = λ u d. y.entries u d ∙ x.entries u d;
  rows = λ u d. y.rows u d ∙ x.rows u d;
  held = λ n p h d l. y.held n p h d (x.held n p h d l);
}

get-elsewhere :
    (t u : ℕ) (f : TunnelEntry → TunnelEntry) (m : Map ℕ TunnelEntry)
    → u ≢ t
    → get u (update_entry t f m) ≡ get u m
get-elsewhere t u f m d = elim (Option-cases (get u m)) [
  | inl e ↦ ground (arith, d, e, get-update_entry t u f m)
  | inr (s, e) ↦ ground (arith, d, e, get-update_entry t u f m)
]

pub with_entry-Elsewhere :
    (t : ℕ) (f : TunnelEntry → TunnelEntry) (db : Db) → Elsewhere t db (with_entry t f db)
with_entry-Elsewhere t f db = record {
  entries = λ u d. get-elsewhere t u f db.tunnels d;
  rows = λ u d. refl;
  held = λ n p h d l. l;
}

pub with_row-Elsewhere :
    (t k : ℕ) (f : RouteRow → RouteRow) (db : Db) → Elsewhere t db (with_row t k f db).1
with_row-Elsewhere t k f db = record {
  entries = λ u d. refl;
  rows = λ u d. ground (arith, d, get-insert t u (update_row k f (load_routes t db)).1 db.routes);
  held = λ n p h d l. l;
}

pub delete_tunnel-Elsewhere : (t : ℕ) (db : Db) → Elsewhere t db (delete_tunnel t db)
unfolding delete_tunnel
delete_tunnel-Elsewhere t db = record {
  entries = λ u d. ground (arith, d, get-remove t u db.tunnels);
  rows = λ u d. ground (arith, d, get-remove t u db.routes);
  held = λ n p h d l. ground (arith, d, l, lookup-free_where (of_tunnel t) n p db.pool);
}

pub migrate_tunnel-Elsewhere :
    (t : ℕ) (target host : Bytes) (db db' : Db)
    → migrate_tunnel t target host db ≡ ok db'
    → Elsewhere t db db'
unfolding migrate_tunnel
migrate_tunnel-Elsewhere t target host db db' e =
    let freed = free_where (of_tunnel t) db.pool in
    let ((rows, pool), m, e') = and_then-eq-ok (move_rows t target (load_routes t db) freed) _ e in
    let after : record {
      pool = pool;
      routes = insert t rows db.routes;
      tunnels =
          update_entry t
            (λ s. record s {
              node_id = some target;
              public_host = host;
              custom_domain = none;
              failover_from = none;
            })
            db.tunnels;
    }
        ≡ db' =
      ground (arith, e') in
    subst (Elsewhere t db) after (record {
      entries = λ u d. get-elsewhere t u _ db.tunnels d;
      rows = λ u d. ground (arith, d, get-insert t u rows db.routes);
      held = λ n p h d l.
          move_rows-keeps t target (load_routes t db) freed rows pool n p h m
            (ground (arith, d, l, lookup-free_where (of_tunnel t) n p db.pool));
    })

set_sig-elsewhere :
    (t u : ℕ) (sig : Bytes) (m m' : Map ℕ TunnelEntry)
    → set_sig t sig m ≡ ok m'
    → u ≢ t
    → get u m' ≡ get u m
unfolding set_sig
set_sig-elsewhere t u sig m m' e d = elim (Option-cases (get t m)) [
  | inl q ↦ ground (arith, e, q)
  | inr (s, q) ↦ elim (Bool-cases (not (is_empty sig) && is_taken t s sig m)) [
    | inl y ↦ ground (arith, e, q, y)
    | inr y ↦
        let after : insert t (record s { route_sig = sig }) m ≡ m' = ground (arith, e, q, y) in
        subst (λ x. get u x ≡ get u m) after
          (ground (arith, d, get-insert t u (record s { route_sig = sig }) m))
  ]
]

pub set_service_routes-Elsewhere :
    (t : ℕ) (node : Bytes) (requested : List RequestedRoute) (db : Db) (rows : List RouteRow)
    (db' : Db)
    → set_service_routes t node requested db ≡ ok (rows, db')
    → Elsewhere t db db'
unfolding set_service_routes
set_service_routes-Elsewhere t node requested db rows db' e =
    let old = load_routes t db in
    let (kept, freed) = drop_rows t requested old db.pool in
    let ((added, pool), e1, e2) =
      and_then-eq-ok (add_rows t node old requested (max_route_id old) freed) _ e in
    let (tunnels, e3, e4) =
      and_then-eq-ok (set_sig t (route_signature requested) db.tunnels) _ e2 in
    let placed = add_rows-Placed t node old requested (max_route_id old) freed added pool e1 in
    let after : record {
      pool = pool;
      routes = insert t (kept ++ added) db.routes;
      tunnels = tunnels;
    }
        ≡ db' =
      ground (arith, e4) in
    subst (Elsewhere t db) after (record {
      entries = λ u d. set_sig-elsewhere t u (route_signature requested) db.tunnels tunnels e3 d;
      rows = λ u d. ground (arith, d, get-insert t u (kept ++ added) db.routes);
      held = λ n p h d l.
          placed.keeps n p h
            (drop_rows-keeps t requested old db.pool n p h (other_apart t h old d) l);
    })

pub stop_tunnel_keep-Elsewhere :
    (now t : ℕ) (db : Db) → Elsewhere t db (stop_tunnel_keep now t db).1
unfolding stop_tunnel_keep
stop_tunnel_keep-Elsewhere now t db = elim (Option-cases (get t db.tunnels)) [
  | inl q ↦ rw (stop_tunnel_keep, q) (Elsewhere-same t db)
  | inr (s, q) ↦ rw (stop_tunnel_keep, q) (with_entry-Elsewhere t _ db)
]

pub start_tunnel_keep-Elsewhere : (t : ℕ) (db : Db) → Elsewhere t db (start_tunnel_keep t db).1
unfolding start_tunnel_keep
start_tunnel_keep-Elsewhere t db = elim (Option-cases (get t db.tunnels)) [
  | inl q ↦ rw (start_tunnel_keep, q) (Elsewhere-same t db)
  | inr (s, q) ↦ elim (Bool-cases (is_stopped s.status)) [
    | inl y ↦ rw (start_tunnel_keep, q, y) (with_entry-Elsewhere t _ db)
    | inr y ↦ rw (start_tunnel_keep, q, y) (Elsewhere-same t db)
  ]
]

pub set_custom_domain-Elsewhere :
    (t : ℕ) (domain : Option Bytes) (db db' : Db)
    → set_custom_domain t domain db ≡ some db'
    → Elsewhere t db db'
unfolding set_custom_domain
set_custom_domain-Elsewhere t domain db db' e = elim (Bool-cases (clashes domain t db.tunnels)) [
  | inl y ↦ ground (arith, e, y)
  | inr y ↦
      let after : with_entry t (λ s. record s { custom_domain = domain }) db ≡ db' =
        ground (arith, e, y) in
      subst (Elsewhere t db) after (with_entry-Elsewhere t _ db)
]
