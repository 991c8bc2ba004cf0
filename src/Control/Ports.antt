-- ===== src/Control/Ports.antt =====
-- The port pool, the routes and the tunnels of natforge-backend/src/db/queries.rs, and the
-- transactions that move ports between them. The pool's primary key (node, port) is a map of maps. A
-- tunnel's rows stand in the order of their ids, which `load_routes` asks for. A transaction is all
-- or nothing, so an error carries no state; a failing connection is not modelled, nor the 16-bit
-- bound of a route id.
pub mod Claims
pub mod Migrate
pub mod Services
use natforge_thesis.Prelude.{
  ℕ, ◌+◌, Bool, true, false, not, ◌&&◌, ◌||◌, Bytes, codes, beq, List, [], ◌∷◌, ◌++◌, Option, none,
  some, Map, get, insert, remove, nat_eq, bytes_eq, is_empty, leb, ltb, ◌==◌, if◌then◌else◌, Result,
  ok, err, and_then, min, max,
}
use natforge_thesis.Proto.Route.{RouteMode, is_host_routed, as_str}
use natforge_thesis.Node.Text.{decimal, trim}
use natforge_thesis.Control.Expand.{RouteRow}

-- The tunnel and the route that a pool port is given to.
pub record Holder : Type 0 where
  pub tunnel_id : ℕ
  pub route_id : ℕ

abbrev pub Ports : Type 0
Ports = Map ℕ (Option Holder)

abbrev pub Pool : Type 0
Pool = Map Bytes Ports

-- The `status` column's texts.
pub data Status : Type 0 where
  awaiting_agent online offline stopped : Status

-- The columns that these transactions read or write; times are numbers of seconds.
pub record TunnelEntry : Type 0 where
  pub subdomain : Bytes
  pub name : Option Bytes
  pub status : Status
  pub created_at : ℕ
  pub last_seen : Option ℕ
  pub last_active_at : Option ℕ
  pub owner_id : ℕ
  pub device_id : Option ℕ
  pub route_sig : Bytes
  pub node_id : Option Bytes
  pub public_host : Bytes
  pub custom_domain : Option Bytes
  pub failover_from : Option Bytes

pub record Db : Type 0 where
  pub pool : Pool
  pub routes : Map ℕ (List RouteRow)
  pub tunnels : Map ℕ TunnelEntry

pub data ReserveError : Type 0 where
  port_exhausted bad_subdomain no_subdomain : ReserveError
  limit_reached : ℕ → ReserveError
  subdomain_taken route_set_exists : Bytes → ReserveError

abbrev pub ports_on : Bytes → Pool → Ports
ports_on node pool = elim (get node pool) [ none ↦ [] | some ports ↦ ports ]

-- The pool's entry of a port: not there, there and free, or held.
abbrev pub lookup : Bytes → ℕ → Pool → Option (Option Holder)
lookup node port pool = get port (ports_on node pool)

abbrev pub load_routes : ℕ → Db → List RouteRow
load_routes tunnel_id db = elim (get tunnel_id db.routes) [ none ↦ [] | some rows ↦ rows ]

-- `CLAIM_PORT_SQL`: the smallest free port of the node, given to the route.
abbrev pub is_free : Option (Option Holder) → Bool
is_free (some none) = true
is_free _ = false

abbrev pub min_with : ℕ → Option ℕ → Option ℕ
min_with p none = some p
min_with p (some q) = some (if leb p q then p else q)

unfoldable pub least_free : Ports → Ports → Option ℕ
least_free ports [] = none
least_free ports ((p, held) ∷ more) =
    let rest = least_free ports more in if is_free (get p ports) then min_with p rest else rest

unfoldable pub claim_port : Bytes → ℕ → ℕ → Pool → Option (ℕ × Pool)
unfolding least_free
claim_port node tunnel_id route_id pool =
    let ports = ports_on node pool in
    elim (least_free ports ports) [
      | none ↦ none
      | some p ↦ some (
        p,
        insert node (insert p (some (record { tunnel_id = tunnel_id; route_id = route_id })) ports)
            pool,
      )
    ]

-- `UPDATE port_pool SET tunnel_id=NULL, route_id=NULL WHERE ...`.
abbrev pub clear : (Holder → Bool) → Option Holder → Option Holder
clear test none = none
clear test (some h) = if test h then none else some h

unfoldable pub free_ports : (Holder → Bool) → Ports → Ports
free_ports test [] = []
free_ports test ((p, held) ∷ ports) = (p, clear test held) ∷ free_ports test ports

unfoldable pub free_where : (Holder → Bool) → Pool → Pool
unfolding free_ports
free_where test [] = []
free_where test ((node, ports) ∷ pool) = (node, free_ports test ports) ∷ free_where test pool

abbrev pub of_tunnel : ℕ → Holder → Bool
of_tunnel tunnel_id h = h.tunnel_id == tunnel_id

abbrev pub of_route : ℕ → ℕ → Holder → Bool
of_route tunnel_id route_id h = h.tunnel_id == tunnel_id && h.route_id == route_id

-- `migrate_tunnel`: the loop over the routes.
unfoldable pub is_plain : Bytes → Bool
is_plain kind = beq kind (codes "tcp") || beq kind (codes "udp")

unfoldable pub move_rows :
    ℕ → Bytes → List RouteRow → Pool → Result ReserveError (List RouteRow × Pool)
unfolding claim_port is_plain
move_rows tunnel_id node [] pool = ok ([], pool)
move_rows tunnel_id node (r ∷ rs) pool =
    if not (is_plain r.kind)
    then and_then (move_rows tunnel_id node rs pool) (λ (rows, pool'). ok (r ∷ rows, pool'))
    else elim (claim_port node tunnel_id r.route_id pool) [
      | none ↦ err port_exhausted
      | some claimed ↦
          and_then (move_rows tunnel_id node rs claimed.1)
            λ (rows, pool'). ok (record r { public_port = some claimed.0 } ∷ rows, pool')
    ]

abbrev pub update_entry : ℕ → (TunnelEntry → TunnelEntry) → Map ℕ TunnelEntry → Map ℕ TunnelEntry
update_entry tunnel_id f m = elim (get tunnel_id m) [ none ↦ m | some t ↦ insert tunnel_id (f t) m ]

unfoldable pub migrate_tunnel : ℕ → Bytes → Bytes → Db → Result ReserveError Db
unfolding move_rows free_where
migrate_tunnel tunnel_id target host db =
    let freed = free_where (of_tunnel tunnel_id) db.pool in
    and_then (move_rows tunnel_id target (load_routes tunnel_id db) freed) λ (rows, pool).
      ok (record {
        pool = pool;
        routes = insert tunnel_id rows db.routes;
        tunnels =
            update_entry tunnel_id
              (λ t. record t {
                node_id = some target;
                public_host = host;
                custom_domain = none;
                failover_from = none;
              })
              db.tunnels;
      })

-- `delete_tunnel`; the table's foreign key deletes the routes.
unfoldable pub delete_tunnel : ℕ → Db → Db
unfolding free_where
delete_tunnel tunnel_id db = record {
  pool = free_where (of_tunnel tunnel_id) db.pool;
  routes = remove tunnel_id db.routes;
  tunnels = remove tunnel_id db.tunnels;
}
