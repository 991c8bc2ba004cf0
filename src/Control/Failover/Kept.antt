-- ===== src/Control/Failover/Kept.antt =====
-- A failover and the pool: every tunnel's ports are held for it on the node that it stands on.
use natforge_thesis.Prelude.{
  ℕ, ◌≡◌, ◌≢◌, ◌∙◌, refl, subst, sym, Bytes, List, [], ◌∷◌, Option, none, some, Map, All, get,
  nat_eq, bytes_eq, ◌==◌, ==_iff, arith, Bool-cases, Option-cases, inl, inr, Result, ok, err,
  and_then-eq-ok, is_empty, if◌then◌else◌,
}
use natforge_thesis.Control.Expand.{RouteRow}
use natforge_thesis.Control.Ports.{
  Pool, TunnelEntry, Db, ReserveError, lookup, load_routes, free_where, of_tunnel, is_plain,
  update_entry, move_rows, migrate_tunnel,
}
use natforge_thesis.Control.Ports.Migrate.{
  Backed, IsMovable, move_rows-plain, move_rows-hosted, load_routes-migrated, migrate_tunnel-Backed,
}
use natforge_thesis.Control.Tunnels.{with_entry}
use natforge_thesis.Control.Tunnels.Sweeps.{get-update_entry}
use natforge_thesis.Control.Tunnels.Elsewhere.{migrate_tunnel-Elsewhere}
use natforge_thesis.Control.Site.{Node}
use natforge_thesis.Control.Failover.{
  Pending, dead_rows, healthy_target, pending_in, label_of, move_off, move_all,
  failover_stale_nodes,
}

-- Each tunnel has routes that a move gives new ports, and its rows' ports are held for it on its node.
abbrev pub Sound : Db → Type 0
Sound db =
    (u : ℕ) (t : TunnelEntry)
    → get u db.tunnels ≡ some t
    → All IsMovable (load_routes u db)
      × ((node : Bytes) → t.node_id ≡ some node → Backed db.pool node u (load_routes u db))

move_rows-IsMovable :
    (t : ℕ) (node : Bytes) (rs : List RouteRow) (pool : Pool) (rows : List RouteRow) (pool' : Pool)
    → All IsMovable rs
    → move_rows t node rs pool ≡ ok (rows, pool')
    → All IsMovable rows
unfolding move_rows
move_rows-IsMovable t node [] pool rows pool' m e =
    let none_left : [] ≡ rows = ground (arith, e) in subst (All IsMovable) none_left tt
move_rows-IsMovable t node (r ∷ rs) pool rows pool' m e = elim (Bool-cases (is_plain r.kind)) [
  | inl y ↦
      let (c, f, later, g, i) = move_rows-plain t node r rs pool rows pool' y e in
      subst (All IsMovable) (sym i) (inl y, move_rows-IsMovable t node rs c.1 later pool' m.1 g)
  | inr y ↦
      let (later, g, i) = move_rows-hosted t node r rs pool rows pool' y e in
      subst (All IsMovable) (sym i) (m.0, move_rows-IsMovable t node rs pool later pool' m.1 g)
]

Backed-elsewhere :
    (u : ℕ) (node : Bytes) (rs : List RouteRow) (pool pool' : Pool)
    → ((p k : ℕ)
        → lookup node p pool ≡ some (some (record { tunnel_id = u; route_id = k }))
        → lookup node p pool' ≡ some (some (record { tunnel_id = u; route_id = k })))
    → Backed pool node u rs
    → Backed pool' node u rs
Backed-elsewhere u node [] pool pool' keep b = tt
Backed-elsewhere u node (r ∷ rs) pool pool' keep b =
    (λ p e. keep p r.route_id (b.0 p e), Backed-elsewhere u node rs pool pool' keep b.1)

-- The entry that a moved tunnel has.
abbrev pub entry_on : Bytes → Bytes → TunnelEntry → TunnelEntry
entry_on target host s = record s {
  node_id = some target;
  public_host = host;
  custom_domain = none;
  failover_from = none;
}

pub migrate_tunnel-entry :
    (t u : ℕ) (target host : Bytes) (db db' : Db)
    → migrate_tunnel t target host db ≡ ok db'
    → get u db'.tunnels ≡ elim (get u db.tunnels) [
      | none ↦ none
      | some s ↦ some (if t == u then entry_on target host s else s)
    ]
unfolding migrate_tunnel
migrate_tunnel-entry t u target host db db' e =
    let ((rows, pool), m, e') =
      and_then-eq-ok (move_rows t target (load_routes t db) (free_where (of_tunnel t) db.pool)) _
        e in
    let after : update_entry t (entry_on target host) db.tunnels ≡ db'.tunnels =
      ground (arith, e') in
    subst
      (λ x. get u x ≡ elim (get u db.tunnels) [
        | none ↦ none
        | some s ↦ some (if t == u then entry_on target host s else s)
      ])
      after (get-update_entry t u (entry_on target host) db.tunnels)

-- What `Sound` says of one tunnel.
abbrev SoundAt : Db → ℕ → TunnelEntry → Type 0
SoundAt db u t =
    All IsMovable (load_routes u db)
    × ((node : Bytes) → t.node_id ≡ some node → Backed db.pool node u (load_routes u db))

migrate_tunnel-SoundAt :
    (t : ℕ) (target host : Bytes) (db db' : Db) (x : TunnelEntry)
    → Sound db
    → migrate_tunnel t target host db ≡ ok db'
    → get t db'.tunnels ≡ some x
    → SoundAt db' t x
migrate_tunnel-SoundAt t target host db db' x s e at = elim (Option-cases (get t db.tunnels)) [
  | inl q ↦ ground (arith, at, q, migrate_tunnel-entry t t target host db db' e)
  | inr (y, q) ↦
      let (m, b) = s t y q in
      let moved = load_routes-migrated t target host db db' e in
      (
        move_rows-IsMovable t target (load_routes t db) (free_where (of_tunnel t) db.pool)
            (load_routes t db') db'.pool m moved,
        λ node i.
            let there : target ≡ node =
              ground (arith, at, q, i, migrate_tunnel-entry t t target host db db' e) in
            subst (λ v. Backed db'.pool v t (load_routes t db')) there
              (migrate_tunnel-Backed t target host db db' m e).0,
      )
]

migrate_tunnel-SoundAt-other :
    (t : ℕ) (target host : Bytes) (db db' : Db) (u : ℕ) (x : TunnelEntry)
    → u ≢ t
    → Sound db
    → migrate_tunnel t target host db ≡ ok db'
    → get u db'.tunnels ≡ some x
    → SoundAt db' u x
migrate_tunnel-SoundAt-other t target host db db' u x d s e at =
    let else_ = migrate_tunnel-Elsewhere t target host db db' e in
    let rows : load_routes u db ≡ load_routes u db' = ground (arith, else_.rows u d) in
    let (m, b) = s u x (sym (else_.entries u d) ∙ at) in
    (
      subst (All IsMovable) rows m,
      λ node i. subst (Backed db'.pool node u) rows (
          Backed-elsewhere u node (load_routes u db) db.pool db'.pool
            (λ p k. else_.held node p (record { tunnel_id = u; route_id = k }) d) (b node i)),
    )

migrate_tunnel-Sound :
    (t : ℕ) (target host : Bytes) (db db' : Db)
    → Sound db
    → migrate_tunnel t target host db ≡ ok db'
    → Sound db'
migrate_tunnel-Sound t target host db db' s e u x at = elim (Bool-cases (t == u)) [
  | inl y ↦
      let same : t ≡ u = (==_iff t u).0 y in
      subst (λ v. get v db'.tunnels ≡ some x → SoundAt db' v x) same
        (migrate_tunnel-SoundAt t target host db db' x s e) at
  | inr y ↦ migrate_tunnel-SoundAt-other t target host db db' u x (ground (arith, y)) s e at
]

with_entry-Sound :
    (id : ℕ) (f : TunnelEntry → TunnelEntry) (db : Db)
    → ((t : TunnelEntry) → (f t).node_id ≡ t.node_id)
    → Sound db
    → Sound (with_entry id f db)
with_entry-Sound id f db same s u x at = elim (Option-cases (get u db.tunnels)) [
  | inl e ↦ ground (arith, at, e, get-update_entry id u f db.tunnels)
  | inr (t, e) ↦ by_id t e
]
  where
    by_id : (t : TunnelEntry) → get u db.tunnels ≡ some t → SoundAt db u x
    by_id t e =
        let (m, b) = s u t e in
        (m, λ node i. b node (ground (arith, at, e, i, same t, get-update_entry id u f db.tunnels)))

move_off-Sound :
    (dead : List (Bytes × Bytes)) (n : Node) (p : Pending) (db db' : Db)
    → Sound db
    → move_off dead n p db ≡ some db'
    → Sound db'
unfolding move_off
move_off-Sound dead n p db db' s e =
    by_move (migrate_tunnel p.tunnel_id n.node_id n.public_host db) refl
  where
    by_move :
        (r : Result ReserveError Db)
        → migrate_tunnel p.tunnel_id n.node_id n.public_host db ≡ r
        → Sound db'
    by_move (err x) q = ground (arith, e, q)
    by_move (ok moved) q =
        let after : with_entry p.tunnel_id
              (λ t. record t { failover_from = some (label_of p.from dead) }) moved
            ≡ db' =
          ground (arith, e, q) in
        subst Sound after (
          with_entry-Sound p.tunnel_id _ moved (λ t. refl)
            (migrate_tunnel-Sound p.tunnel_id n.node_id n.public_host db moved s q))

move_all-Sound :
    (dead : List (Bytes × Bytes)) (n : Node) (ps : List Pending) (db : Db)
    → Sound db
    → Sound (move_all dead n ps db).1
unfolding move_all
move_all-Sound dead n [] db s = s
move_all-Sound dead n (p ∷ ps) db s =
    by_move (move_off dead n p db) refl (λ db'. move_all-Sound dead n ps db')
  where
    by_move :
        (o : Option Db)
        → move_off dead n p db ≡ o
        → ((db' : Db) → Sound db' → Sound (move_all dead n ps db').1)
        → Sound (move_all dead n (p ∷ ps) db).1
    by_move none q later = rw (move_all, q) (later db s)
    by_move (some db') q later = rw (move_all, q) (later db' (move_off-Sound dead n p db db' s q))

-- If each tunnel's routes are TCP, UDP or without a port, and the ports they name are held for them on
-- the tunnel's node, then the same holds after a failover, whichever nodes are stale, wherever the
-- tunnels go, and whether or not each of them fits the target's pool.
pub failover_stale_nodes-Sound :
    (now stale_secs : ℕ) (nodes : Map Bytes Node) (db : Db)
    → Sound db
    → Sound (failover_stale_nodes now stale_secs nodes db).1
unfolding failover_stale_nodes
failover_stale_nodes-Sound now stale_secs nodes db s = elim (Bool-cases (is_empty dead)) [
  | inl y ↦ rw (failover_stale_nodes, y) s
  | inr y ↦ elim (Option-cases (healthy_target now stale_secs nodes)) [
    | inl q ↦ rw (failover_stale_nodes, y, q) s
    | inr (n, q) ↦
        rw (failover_stale_nodes, y, q)
          (move_all-Sound dead n (pending_in dead db.tunnels db.tunnels) db s)
  ]
]
  where
    dead : List (Bytes × Bytes)
    dead = dead_rows now stale_secs nodes
