-- ===== src/Control/Ports/Migrate.antt =====
-- `migrate_tunnel` of natforge-backend/src/db/queries.rs and the pool.
use natforge_thesis.Prelude.{
  ℕ, ◌≡◌, ◌≢◌, ◌⊎◌, ◌↔◌, refl, subst, sym, true, false, Bytes, codes, List, [], ◌∷◌, none, some,
  All, get-insert, nat_eq, bytes_eq, beq, beq_iff, ◌==◌, ==_iff, arith, Bool-cases, Option-cases,
  inl, inr, Result, ok, err,
}
use natforge_thesis.Control.Expand.{RouteRow}
use natforge_thesis.Control.Ports.{
  Holder, Pool, Db, ReserveError, lookup, load_routes, claim_port, free_where, of_tunnel, is_plain,
  move_rows, migrate_tunnel, delete_tunnel,
}
use natforge_thesis.Control.Ports.Claims.{claim_port_exact, lookup-free_where}

-- Every port that a row names is in the node's pool and held by the tunnel for that row.
abbrev pub Backed : Pool → Bytes → ℕ → List RouteRow → Type 0
Backed pool node t = All λ r.
    (p : ℕ)
    → r.public_port ≡ some p
    → lookup node p pool ≡ some (some (record { tunnel_id = t; route_id = r.route_id }))

pub claim_port-keeps :
    (node : Bytes) (t k : ℕ) (pool : Pool) (c : ℕ × Pool) (n : Bytes) (q : ℕ) (h : Holder)
    → claim_port node t k pool ≡ some c
    → lookup n q pool ≡ some (some h)
    → lookup n q c.1 ≡ some (some h)
claim_port-keeps node t k pool c n q h e l =
    let (free, least, after) = claim_port_exact node t k pool c.0 c.1 e in
    elim (Bool-cases (beq node n)) [
      | inr d ↦ ground (arith, after n q, d, l)
      | inl d ↦
          let same : node ≡ n = (beq_iff node n).0 d in
          let free' : lookup n c.0 pool ≡ some none =
            subst (λ x. lookup x c.0 pool ≡ some none) same free in
          elim (Bool-cases (c.0 == q)) [
            | inr d' ↦ ground (arith, after n q, d, d', l)
            | inl d' ↦
                let port : c.0 ≡ q = (==_iff c.0 q).0 d' in
                let clash = subst (λ x. lookup n x pool ≡ some none) port free' in
                ground (arith, clash, l)
          ]
    ]

pub move_rows-plain :
    (t : ℕ) (node : Bytes) (r : RouteRow) (rs : List RouteRow) (pool : Pool) (rows : List RouteRow)
    (pool' : Pool)
    → is_plain r.kind ≡ true
    → move_rows t node (r ∷ rs) pool ≡ ok (rows, pool')
    → (c : ℕ × Pool) × (claim_port node t r.route_id pool ≡ some c)
      × (later : List RouteRow) × (move_rows t node rs c.1 ≡ ok (later, pool'))
      × (rows ≡ record r { public_port = some c.0 } ∷ later)
unfolding move_rows
move_rows-plain t node r rs pool rows pool' y e =
    elim (Option-cases (claim_port node t r.route_id pool)) [
      | inl f ↦ ground (arith, e, y, f)
      | inr (c, f) ↦ let (later, g, i) = turn c f in (c, f, later, g, i)
    ]
  where
    turn :
        (c : ℕ × Pool)
        → claim_port node t r.route_id pool ≡ some c
        → (later : List RouteRow) × (move_rows t node rs c.1 ≡ ok (later, pool'))
          × (rows ≡ record r { public_port = some c.0 } ∷ later)
    turn c f = ground (arith, e, y, f)

pub move_rows-hosted :
    (t : ℕ) (node : Bytes) (r : RouteRow) (rs : List RouteRow) (pool : Pool) (rows : List RouteRow)
    (pool' : Pool)
    → is_plain r.kind ≡ false
    → move_rows t node (r ∷ rs) pool ≡ ok (rows, pool')
    → (later : List RouteRow) × (move_rows t node rs pool ≡ ok (later, pool')) × (rows ≡ r ∷ later)
unfolding move_rows
move_rows-hosted t node r rs pool rows pool' y e = ground (arith, e, y)

pub move_rows-keeps :
    (t : ℕ) (node : Bytes) (rs : List RouteRow) (pool : Pool) (rows : List RouteRow) (pool' : Pool)
    (n : Bytes) (q : ℕ) (h : Holder)
    → move_rows t node rs pool ≡ ok (rows, pool')
    → lookup n q pool ≡ some (some h)
    → lookup n q pool' ≡ some (some h)
unfolding move_rows
move_rows-keeps t node [] pool rows pool' n q h e l = ground (arith, e, l)
move_rows-keeps t node (r ∷ rs) pool rows pool' n q h e l = elim (Bool-cases (is_plain r.kind)) [
  | inl y ↦
      let (c, f, later, g, i) = move_rows-plain t node r rs pool rows pool' y e in
      move_rows-keeps t node rs c.1 later pool' n q h g
        (claim_port-keeps node t r.route_id pool c n q h f l)
  | inr y ↦
      let (later, g, i) = move_rows-hosted t node r rs pool rows pool' y e in
      move_rows-keeps t node rs pool later pool' n q h g l
]

-- A row that `migrate_tunnel` gives a new port, or that has none.
abbrev pub IsMovable : RouteRow → Type 0
IsMovable r = (is_plain r.kind ≡ true) ⊎ (r.public_port ≡ none)

move_rows-Backed :
    (t : ℕ) (node : Bytes) (rs : List RouteRow) (pool : Pool) (rows : List RouteRow) (pool' : Pool)
    → All IsMovable rs
    → move_rows t node rs pool ≡ ok (rows, pool')
    → Backed pool' node t rows
unfolding move_rows
move_rows-Backed t node [] pool rows pool' m e =
    let none_left : [] ≡ rows = ground (arith, e) in subst (Backed pool' node t) none_left tt
move_rows-Backed t node (r ∷ rs) pool rows pool' m e = elim (Bool-cases (is_plain r.kind)) [
  | inl y ↦
      let (c, f, later, g, i) = move_rows-plain t node r rs pool rows pool' y e in
      let (free, least, after) = claim_port_exact node t r.route_id pool c.0 c.1 f in
      let given : lookup node c.0 c.1
          ≡ some (some (record { tunnel_id = t; route_id = r.route_id })) =
        ground (arith, after node c.0, beq_iff node node) in
      let held = move_rows-keeps t node rs c.1 later pool' node c.0 _ g given in
      subst (Backed pool' node t) (sym i)
        (λ p w. ground (arith, held, w), move_rows-Backed t node rs c.1 later pool' m.1 g)
  | inr y ↦
      let (later, g, i) = move_rows-hosted t node r rs pool rows pool' y e in
      subst (Backed pool' node t) (sym i)
        (λ p w. ground (arith, w, y, m.0), move_rows-Backed t node rs pool later pool' m.1 g)
]

lookup-other_tunnel :
    (t : ℕ) (n : Bytes) (q : ℕ) (h : Holder) (pool : Pool)
    → h.tunnel_id ≢ t
    → lookup n q pool ≡ some (some h)
    → lookup n q (free_where (of_tunnel t) pool) ≡ some (some h)
lookup-other_tunnel t n q h pool d l = ground (arith, lookup-free_where (of_tunnel t) n q pool, l)

pub load_routes-migrated :
    (t : ℕ) (target host : Bytes) (db db' : Db)
    → migrate_tunnel t target host db ≡ ok db'
    → move_rows t target (load_routes t db) (free_where (of_tunnel t) db.pool)
      ≡ ok (load_routes t db', db'.pool)
unfolding migrate_tunnel
load_routes-migrated t target host db db' e = inverted (move_rows t target old freed) refl
  where
    old : List RouteRow
    old = load_routes t db

    freed : Pool
    freed = free_where (of_tunnel t) db.pool

    inverted :
        (m : Result ReserveError (List RouteRow × Pool))
        → move_rows t target old freed ≡ m
        → m ≡ ok (load_routes t db', db'.pool)
    inverted (err x) q = ground (arith, e, q)
    inverted (ok (rows, pool)) q = ground (arith, e, q, get-insert t t rows db.routes)

-- When each of a tunnel's routes is TCP or UDP or has no port, a move that succeeds leaves every
-- port that its routes name in the target node's pool, held by the tunnel for that very route, and
-- takes no port from any other tunnel.
pub migrate_tunnel-Backed :
    (t : ℕ) (target host : Bytes) (db db' : Db)
    → All IsMovable (load_routes t db)
    → migrate_tunnel t target host db ≡ ok db'
    → Backed db'.pool target t (load_routes t db')
      × ((n : Bytes) (q : ℕ) (h : Holder)
          → h.tunnel_id ≢ t
          → lookup n q db.pool ≡ some (some h)
          → lookup n q db'.pool ≡ some (some h))
migrate_tunnel-Backed t target host db db' m e =
    let moved = load_routes-migrated t target host db db' e in
    let freed = free_where (of_tunnel t) db.pool in
    (
      move_rows-Backed t target (load_routes t db) freed (load_routes t db') db'.pool m moved,
      λ n q h d l.
          move_rows-keeps t target (load_routes t db) freed (load_routes t db') db'.pool n q h moved
            (lookup-other_tunnel t n q h db.pool d l),
    )

abbrev pub IsBoth : RouteRow → Type 0
IsBoth r = r.kind ≡ codes "both"

move_rows-both :
    (t : ℕ) (node : Bytes) (rs : List RouteRow) (pool : Pool)
    → All IsBoth rs
    → move_rows t node rs pool ≡ ok (rs, pool)
unfolding move_rows is_plain beq
move_rows-both t node [] pool b = refl
move_rows-both t node (r ∷ rs) pool b =
    let skipped : is_plain r.kind ≡ false = subst (λ k. is_plain k ≡ false) (sym b.0) refl in
    ground (arith, skipped, move_rows-both t node rs pool b.1)

-- The move of a tunnel whose routes are all of the `both` kind succeeds, leaves each route with the
-- port number that it had on the old node, and leaves no port of any node held by the tunnel.
pub migrate_tunnel_both :
    (t : ℕ) (target host : Bytes) (db : Db)
    → All IsBoth (load_routes t db)
    → (db' : Db) × (migrate_tunnel t target host db ≡ ok db')
      × (load_routes t db' ≡ load_routes t db)
      × ((n : Bytes) (q : ℕ) (h : Holder) → lookup n q db'.pool ≡ some (some h) → h.tunnel_id ≢ t)
unfolding migrate_tunnel
migrate_tunnel_both t target host db b = made (migrate_tunnel t target host db) refl
  where
    rows : List RouteRow
    rows = load_routes t db

    moved :
        move_rows t target rows (free_where (of_tunnel t) db.pool)
        ≡ ok (rows, free_where (of_tunnel t) db.pool)
    moved = move_rows-both t target rows (free_where (of_tunnel t) db.pool) b

    made :
        (m : Result ReserveError Db)
        → migrate_tunnel t target host db ≡ m
        → (db' : Db) × (m ≡ ok db')
          × (load_routes t db' ≡ rows)
          × ((n : Bytes) (q : ℕ) (h : Holder)
              → lookup n q db'.pool ≡ some (some h)
              → h.tunnel_id ≢ t)
    made (err x) q = ground (arith, q, moved)
    made (ok db') q =
        let pool_is : free_where (of_tunnel t) db.pool ≡ db'.pool = ground (arith, q, moved) in
        (
          db',
          refl,
          ground (arith, q, moved, get-insert t t rows db.routes),
          λ n p h l i. ground (
            arith,
            lookup-free_where (of_tunnel t) n p db.pool,
            subst (λ x. lookup n p x ≡ some (some h)) (sym pool_is) l,
            i,
          ),
        )

-- Deleting a tunnel leaves no port of any node held by it, and takes no port from any other tunnel.
pub delete_tunnel_exact :
    (t : ℕ) (db : Db) (n : Bytes) (q : ℕ) (h : Holder)
    → (lookup n q (delete_tunnel t db).pool ≡ some (some h))
      ↔ ((lookup n q db.pool ≡ some (some h)) × (h.tunnel_id ≢ t))
unfolding delete_tunnel
delete_tunnel_exact t db n q h =
    ground (arith, lookup-free_where (of_tunnel t) n q db.pool, lookup-other_tunnel t n q h db.pool)
