-- ===== src/Control/Reserve.antt =====
-- `reserve_tunnel` of natforge-backend/src/db/queries.rs. The id that the
-- tunnels table gives the new row, the clock, the random names drawn and Unicode's lower case are
-- parameters; a failing connection is not modelled.
pub mod Rows
pub mod Fresh
use natforge_thesis.Prelude.{
  ℕ, zero, suc, ◌+◌, Bool, true, false, not, ◌&&◌, ◌||◌, Bytes, beq, List, [], ◌∷◌, Option, none,
  some, Map, get, insert, nat_eq, take, leb, ◌==◌, if◌then◌else◌, Result, ok, err, and_then,
}
use natforge_thesis.Proto.Claims.{contains}
use natforge_thesis.Proto.Route.{is_host_routed}
use natforge_thesis.Node.Text.{trim}
use natforge_thesis.Control.Names.{valid_subdomain}
use natforge_thesis.Control.Policy.{RequestedRoute}
use natforge_thesis.Control.Expand.{RouteRow}
use natforge_thesis.Control.Ports.{
  Pool, awaiting_agent, TunnelEntry, Db, ReserveError, port_exhausted, bad_subdomain, no_subdomain,
  limit_reached, subdomain_taken, route_set_exists, load_routes, claim_port,
}
use natforge_thesis.Control.Ports.Services.{device_or_zero, route_signature, new_row}

pub record ReservedTunnel : Type 0 where
  pub tunnel_id : ℕ
  pub subdomain : Bytes
  pub node_id : Bytes
  pub public_host : Bytes
  pub routes : List RouteRow
  pub custom_domain : Option Bytes
  pub reused : Bool

-- What a reservation asks for, with the node that was chosen; a limit is not negative.
pub record Request : Type 0 where
  pub owner_id : ℕ
  pub node_id : Bytes
  pub public_host : Bytes
  pub requested : List RequestedRoute
  pub custom_subdomain : Option Bytes
  pub max_tunnels : ℕ
  pub allow_reuse : Bool
  pub device_id : Option ℕ

-- The tunnel of the same owner, device and signature.
abbrev pub is_same : Request → Bytes → TunnelEntry → Bool
is_same q sig t =
    t.owner_id == q.owner_id
    && beq t.route_sig sig
    && device_or_zero t.device_id == device_or_zero q.device_id

unfoldable pub find_same : Request → Bytes → Map ℕ TunnelEntry → Option (ℕ × TunnelEntry)
find_same q sig [] = none
find_same q sig ((id, t) ∷ m) = if is_same q sig t then some (id, t) else find_same q sig m

unfoldable pub count_owned : ℕ → Map ℕ TunnelEntry → ℕ
count_owned owner [] = 0
count_owned owner ((id, t) ∷ m) =
    let rest = count_owned owner m in if t.owner_id == owner then rest + 1 else rest

-- `tunnels_subdomain_uq`.
unfoldable pub has_subdomain : Bytes → Map ℕ TunnelEntry → Bool
has_subdomain name [] = false
has_subdomain name ((id, t) ∷ m) = beq t.subdomain name || has_subdomain name m

unfoldable pub is_reserved_name : Bytes → List Bytes → Bool
is_reserved_name name [] = false
is_reserved_name name (r ∷ rs) = beq r name || is_reserved_name name rs

abbrev pub new_entry : ℕ → Request → Bytes → Bytes → TunnelEntry
new_entry now q sig cand = record {
  subdomain = cand;
  name = none;
  status = awaiting_agent;
  created_at = now;
  last_seen = none;
  last_active_at = none;
  owner_id = q.owner_id;
  device_id = q.device_id;
  route_sig = sig;
  node_id = some q.node_id;
  public_host = q.public_host;
  custom_domain = none;
  failover_from = none;
}

-- The first of the random names that is not reserved; ten are drawn. If it is in use, the insert violates
-- the unique index and Postgres refuses every later statement of the transaction, so that the next turn
-- of the loop ends in an error like the one after the last turn.
unfoldable pub pick : List Bytes → Map ℕ TunnelEntry → List Bytes → Option Bytes
unfolding has_subdomain is_reserved_name
pick reserved tunnels [] = none
pick reserved tunnels (cand ∷ cands) =
    let later = pick reserved tunnels cands in
    if is_reserved_name cand reserved
    then later
    else if has_subdomain cand tunnels
    then none
    else some cand

unfoldable pub choose_subdomain :
    (Bytes → Bytes)
    → List Bytes
    → List Bytes
    → Map ℕ TunnelEntry
    → Option Bytes
    → Result ReserveError Bytes
unfolding pick has_subdomain is_reserved_name
choose_subdomain to_lowercase reserved drawn tunnels (some custom) =
    let cand = to_lowercase (trim custom) in
    if not (valid_subdomain cand)
    then err bad_subdomain
    else if is_reserved_name cand reserved
    then err (subdomain_taken cand)
    else if has_subdomain cand tunnels
    then err (subdomain_taken cand)
    else ok cand
choose_subdomain to_lowercase reserved drawn tunnels none =
    elim (pick reserved tunnels (take 10 drawn)) [ none ↦ err no_subdomain | some cand ↦ ok cand ]

-- The loop over the requested routes; `i` counts from 0.
unfoldable pub insert_routes :
    ℕ → Bytes → ℕ → List RequestedRoute → Pool → Result ReserveError (List RouteRow × Pool)
insert_routes tunnel_id node i [] pool = ok ([], pool)
insert_routes tunnel_id node i (q ∷ qs) pool =
    if is_host_routed q.mode
    then and_then (insert_routes tunnel_id node (i + 1) qs pool)
        (λ (rows, pool'). ok (new_row q (i + 1) none ∷ rows, pool'))
    else elim (claim_port node tunnel_id (i + 1) pool) [
      | none ↦ err port_exhausted
      | some claimed ↦
          and_then (insert_routes tunnel_id node (i + 1) qs claimed.1)
            λ (rows, pool'). ok (new_row q (i + 1) (some claimed.0) ∷ rows, pool')
    ]

abbrev pub or_chosen : Bytes → Option Bytes → Bytes
or_chosen node none = node
or_chosen node (some n) = n

abbrev pub reused_tunnel : Request → ℕ → TunnelEntry → Db → ReservedTunnel
reused_tunnel q id t db = record {
  tunnel_id = id;
  subdomain = t.subdomain;
  node_id = or_chosen q.node_id t.node_id;
  public_host = t.public_host;
  routes = load_routes id db;
  custom_domain = t.custom_domain;
  reused = true;
}

abbrev pub fresh_reservation : Request → ℕ → Bytes → List RouteRow → ReservedTunnel
fresh_reservation q id cand rows = record {
  tunnel_id = id;
  subdomain = cand;
  node_id = q.node_id;
  public_host = q.public_host;
  routes = rows;
  custom_domain = none;
  reused = false;
}

-- What the table, the clock, the generator and the blocked names give.
pub record Given : Type 0 where
  pub id : ℕ
  pub now : ℕ
  pub drawn : List Bytes
  pub reserved : List Bytes
  pub to_lowercase : Bytes → Bytes

abbrev pub added : Given → Request → Bytes → List RouteRow → Pool → Db → Db
added g q cand rows pool db = record {
  pool = pool;
  routes = insert g.id rows db.routes;
  tunnels = insert g.id (new_entry g.now q (route_signature q.requested) cand) db.tunnels;
}

unfoldable pub insert_new : Given → Request → Db → Result ReserveError (ReservedTunnel × Db)
unfolding choose_subdomain insert_routes route_signature
insert_new g q db =
    and_then (choose_subdomain g.to_lowercase g.reserved g.drawn db.tunnels q.custom_subdomain)
      λ cand.
        and_then (insert_routes g.id q.node_id 0 q.requested db.pool)
          λ (rows, pool). ok (fresh_reservation q g.id cand rows, added g q cand rows pool db)

-- One transaction, alone: the count takes no lock, so requests of one owner at the same time may each
-- pass it.
unfoldable pub reserve_tunnel : Given → Request → Db → Result ReserveError (ReservedTunnel × Db)
unfolding find_same count_owned insert_new route_signature
reserve_tunnel g q db = elim (find_same q (route_signature q.requested) db.tunnels) [
  | some (id, t) ↦
      if q.allow_reuse then ok (reused_tunnel q id t db, db) else err (route_set_exists t.subdomain)
  | none ↦
      if leb q.max_tunnels (count_owned q.owner_id db.tunnels)
      then err (limit_reached q.max_tunnels)
      else insert_new g q db
]
