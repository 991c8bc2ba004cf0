-- ===== src/Control/Site.antt =====
-- The rest of the database that the handlers of natforge-backend read (users, devices, nodes, blocked
-- names, refused countries), the caller, and a handler's outcome: the tables after it, the requests it
-- sent to nodes, and its answer. A refusal is its status code and its message, a constructor. `db_err`
-- (a failing connection) is not modelled.
use natforge_thesis.Prelude.{
  ℕ, ◌+◌, Bool, false, not, ◌&&◌, ◌||◌, Bytes, codes, beq, List, [], ◌∷◌, ◌++◌, Option, none, some,
  Map, get, nat_eq, bytes_eq, leb, ◌==◌, if◌then◌else◌, Result, ok, err,
}
use natforge_thesis.Control.Policy.{RequestedRoute, PolicyError, do_clash}
use natforge_thesis.Control.Expand.{RouteRow}
use natforge_thesis.Control.Ports.{TunnelEntry, Db, ReserveError, load_routes}
use natforge_thesis.Proto.Route.{as_str}

pub record Node : Type 0 where
  pub node_id : Bytes
  pub name : Bytes
  pub region : Option Bytes
  pub public_host : Bytes
  pub control_endpoint : Bytes
  pub internal_url : Bytes
  pub active : Bool
  pub control_cert_fp : Option Bytes
  pub last_seen : Option ℕ
  pub created_at : ℕ

pub record User : Type 0 where
  pub max_tunnels : ℕ
  pub banned : Bool

pub record Site : Type 0 where
  pub db : Db
  pub users : Map ℕ User
  -- A device's owner.
  pub devices : Map ℕ ℕ
  pub nodes : Map Bytes Node
  pub reserved_subdomains : List Bytes
  pub tunnel_region_blocks : Map ℕ (List Bytes)
  pub core_url : Bytes
  pub domain : Bytes

pub record AuthUser : Type 0 where
  pub user_id : ℕ
  pub role : Bytes

pub data Reason : Type 0 where
  banned no_routes unknown_region no_region not_your_device no_such_tunnel not_your_tunnel : Reason
  already_removed not_paused too_many_countries name_too_long label_too_long route_not_found :
      Reason
  invalid_domain domain_claimed same_region no_host_node reserved_name name_in_use invalid_name :
      Reason
  policy : PolicyError → Reason
  reserve : ReserveError → Reason
  endpoint_used : RequestedRoute → Reason

abbrev pub Refusal : Type 0
Refusal = ℕ × Reason

-- The URL that a node's stop request is posted to.
abbrev pub Signal : Type 0
Signal = Bytes

pub record Done {ℓ} (A : Type ℓ) : Type ℓ where
  pub site : Site
  pub sent : List Signal
  pub answer : Result Refusal A

abbrev pub refuse {ℓ} : {A : Type ℓ} → Site → ℕ → Reason → Done A
refuse s code why = record { site = s; sent = []; answer = err (code, why) }

-- `?` on a check that reads and does not write.
abbrev pub checked {ℓ κ} :
    {A : Type ℓ} {B : Type κ} → Site → Result Refusal A → (A → Done B) → Done B
checked s (ok a) f = f a
checked s (err e) f = record { site = s; sent = []; answer = err e }

unfoldable pub get_node : Site → Bytes → Option Node
get_node s node_id = get node_id s.nodes

abbrev pub seen_after : ℕ → Option ℕ → Bool
seen_after now none = false
seen_after now (some at) = leb now (at + 90)

-- The order of `default_node`: nodes seen in the last 90 seconds first, then the oldest.
abbrev pub comes_first : ℕ → Node → Node → Bool
comes_first now a b =
    if seen_after now a.last_seen
    then not (seen_after now b.last_seen) || leb a.created_at b.created_at
    else not (seen_after now b.last_seen) && leb a.created_at b.created_at

abbrev pub better : ℕ → Node → Option Node → Option Node
better now n none = some n
better now n (some m) = some (if comes_first now n m then n else m)

unfoldable pub default_node : ℕ → Map Bytes Node → Option Node
default_node now [] = none
default_node now ((id, n) ∷ m) =
    let rest = default_node now m in if n.active then better now n rest else rest

unfoldable pub is_user_banned : Site → ℕ → Bool
is_user_banned s user_id = elim (get user_id s.users) [ none ↦ false | some u ↦ u.banned ]

unfoldable pub user_max_tunnels : Site → ℕ → ℕ
user_max_tunnels s user_id = elim (get user_id s.users) [ none ↦ 10 | some u ↦ u.max_tunnels ]

abbrev pub is_on : ℕ → Option ℕ → Bool
is_on device_id none = false
is_on device_id (some d) = d == device_id

-- The routes of the device's other tunnels; `db` is where their rows are looked up.
unfoldable pub device_routes_excluding : ℕ → ℕ → Db → Map ℕ TunnelEntry → List RouteRow
device_routes_excluding device_id exclude db [] = []
device_routes_excluding device_id exclude db ((id, t) ∷ m) =
    let rest = device_routes_excluding device_id exclude db m in
    if is_on device_id t.device_id && not (id == exclude) then load_routes id db ++ rest else rest

unfoldable pub is_used : List RouteRow → RequestedRoute → Bool
is_used [] q = false
is_used (r ∷ rs) q =
    (r.local_port == q.local_port && do_clash r.kind (as_str q.mode)) || is_used rs q

unfoldable pub find_conflict : List RouteRow → List RequestedRoute → Option RequestedRoute
unfolding is_used
find_conflict taken [] = none
find_conflict taken (q ∷ qs) = if is_used taken q then some q else find_conflict taken qs

unfoldable pub check_endpoints : List RouteRow → List RequestedRoute → Result Refusal (Unit {0})
unfolding find_conflict
check_endpoints taken qs = elim (find_conflict taken qs) [
  | none ↦ ok tt
  | some q ↦ err (409, endpoint_used q)
]

-- `authorize_tunnel` and `authorize_tunnel_owner`: the tunnel, for its owner or an administrator.
unfoldable pub authorize_tunnel : Site → AuthUser → ℕ → Result Refusal TunnelEntry
authorize_tunnel s user tunnel_id = elim (get tunnel_id s.db.tunnels) [
  | none ↦ err (404, no_such_tunnel)
  | some t ↦
      if not (t.owner_id == user.user_id) && not (beq user.role (codes "admin"))
      then err (403, not_your_tunnel)
      else ok t
]

abbrev pub node_url : Site → Option Bytes → Bytes
node_url s none = s.core_url
node_url s (some id) = elim (get id s.nodes) [ none ↦ s.core_url | some n ↦ n.internal_url ]

unfoldable pub signal_node_stop : Site → Bytes → Option Bytes → Signal
signal_node_stop s subdomain node =
    node_url s node ++ (codes "/internal/tunnels/" ++ (subdomain ++ codes "/stop"))

abbrev pub with_db : Site → Db → Site
with_db s db = record s { db = db }
