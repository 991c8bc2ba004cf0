-- ===== src/Examples/Failover.antt =====
-- A failover and a heartbeat of natforge-backend at concrete inputs.
use natforge_thesis.Prelude.{
  none, bytes_eq, if◌then◌else◌, ◌&&◌, ℕ, ◌≡◌, ◌⊎◌, refl, subst, Bytes, codes, beq, [], ◌∷◌, some,
  Map, All, get, get-cons, get-nil, nat_eq, ◌==◌, ==_iff, arith, Bool-cases, inl, inr,
}
use natforge_thesis.Control.Ports.{TunnelEntry, lookup, load_routes, is_plain}
use natforge_thesis.Control.Ports.Migrate.{Backed, IsMovable}
use natforge_thesis.Control.Site.{Node}
use natforge_thesis.Control.Failover.{failover_stale_nodes}
use natforge_thesis.Control.Failover.Kept.{Sound, failover_stale_nodes-Sound}
use natforge_thesis.Control.Failover.Moves.{IsMoved, failover_stale_nodes_moves}
use natforge_thesis.Control.Register.{Registration, upsert, register_node}
use natforge_thesis.Control.Register.Kept.{added_at, in_range, register_node_exact}
use natforge_thesis.Examples.Control.{game, entry, db}
use natforge_thesis.Examples.Requests.{eu}

-- `eu` was seen at 95 and `us` at 990.
abbrev nodes : Map Bytes Node
nodes =
    (codes "eu", eu)
    ∷ (
      codes "us",
      record eu { node_id = codes "us"; public_host = codes "us.io"; last_seen = some 990 },
    )
    ∷ []

in_eu :
    (p : ℕ)
    → game.public_port ≡ some p
    → lookup (codes "eu") p db.pool ≡ some (some (record { tunnel_id = 5; route_id = 1 }))
unfolding get beq
in_eu p e =
    let port : 20000 ≡ p = ground (arith, e) in
    subst
      (λ q. lookup (codes "eu") q db.pool ≡ some (some (record { tunnel_id = 5; route_id = 1 })))
      port refl

at_five :
    (t : TunnelEntry)
    → get 5 db.tunnels ≡ some t
    → All IsMovable (load_routes 5 db)
      × ((node : Bytes) → t.node_id ≡ some node → Backed db.pool node 5 (load_routes 5 db))
unfolding get is_plain beq
at_five t e = (
  (inl refl, tt),
  λ node i.
      let there : codes "eu" ≡ node = ground (arith, e, i) in
      subst (λ n. Backed db.pool n 5 (load_routes 5 db)) there (in_eu, tt),
)

db-Sound : Sound db
db-Sound u t e = elim (Bool-cases (5 == u)) [
  | inr y ↦ ground (arith, e, y, get-cons u 5 entry [], get-nil {V = TunnelEntry} u)
  | inl y ↦
      let same : 5 ≡ u = (==_iff 5 u).0 y in
      subst
        (λ v.
          get v db.tunnels ≡ some t
          → All IsMovable (load_routes v db)
            × ((node : Bytes) → t.node_id ≡ some node → Backed db.pool node v (load_routes v db)))
        same (at_five t) e
]

failover_stale_nodes-Sound_example : Sound (failover_stale_nodes 1000 90 nodes db).1
failover_stale_nodes-Sound_example = failover_stale_nodes-Sound 1000 90 nodes db db-Sound

failover_stale_nodes_moves_example :
    (t' : TunnelEntry) × (get 5 (failover_stale_nodes 1000 90 nodes db).1.tunnels ≡ some t')
    × ((t' ≡ entry) ⊎ IsMoved 1000 90 nodes entry t')
unfolding get
failover_stale_nodes_moves_example = failover_stale_nodes_moves 1000 90 nodes db 5 entry refl

abbrev heartbeat : Registration
heartbeat = record {
  node_id = codes "eu";
  name = codes "eu-1";
  region = some (codes "Europe");
  public_host = codes "n.io";
  control_endpoint = codes "eu.n.io:7001";
  internal_url = codes "http://eu";
  port_min = 20000;
  port_max = 20003;
  control_cert_fp = none;
}

register_node_exact_example :
    ((n : Bytes) (p : ℕ)
      → lookup n p (register_node 1000 heartbeat nodes db.pool).1
        ≡ added_at (beq (codes "eu") n && in_range 20000 20003 p) (lookup n p db.pool))
    × ((n : Bytes)
        → get n (register_node 1000 heartbeat nodes db.pool).0 ≡ (
            if beq (codes "eu") n
            then some (upsert 1000 heartbeat (get (codes "eu") nodes))
            else get n nodes))
    × ((m : Node)
        → get (codes "eu") nodes ≡ some m
        → (x : Node) × (get (codes "eu") (register_node 1000 heartbeat nodes db.pool).0 ≡ some x)
          × (x.active ≡ m.active)
          × (x.name ≡ m.name)
          × (x.region ≡ m.region)
          × (x.created_at ≡ m.created_at))
register_node_exact_example = register_node_exact 1000 heartbeat nodes db.pool
