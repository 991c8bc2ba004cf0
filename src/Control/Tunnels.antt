-- ===== src/Control/Tunnels.antt =====
-- The statements of natforge-backend/src/db/queries.rs on one tunnel, and the sweeps over all of them.
-- `now` is the database's clock in seconds; the agent's address is not modelled.
pub mod Elsewhere
pub mod Sweeps
pub mod Life
use natforge_thesis.Prelude.{
  ℕ, ◌+◌, Bool, true, false, not, ◌&&◌, ◌||◌, Bytes, beq, List, [], ◌∷◌, Option, none, some, Map,
  get, insert, remove, nat_eq, bytes_eq, is_empty, ltb, ◌==◌, if◌then◌else◌,
}
use natforge_thesis.Proto.Claims.{contains}
use natforge_thesis.Control.Expand.{RouteRow}
use natforge_thesis.Control.Ports.{
  Holder, Status, awaiting_agent, online, offline, stopped, TunnelEntry, Db, load_routes,
  free_where, update_entry,
}

abbrev pub with_entry : ℕ → (TunnelEntry → TunnelEntry) → Db → Db
with_entry id f db = record db { tunnels = update_entry id f db.tunnels }

abbrev pub is_stopped : Status → Bool
is_stopped stopped = true
is_stopped _ = false

abbrev pub is_online : Status → Bool
is_online online = true
is_online _ = false

unfoldable pub set_tunnel_online : ℕ → ℕ → Bytes → Db → Db
set_tunnel_online now id node =
    with_entry id (λ t. record t { status = online; node_id = some node; last_seen = some now })

abbrev pub offline_entry : ℕ → TunnelEntry → TunnelEntry
offline_entry now t =
    if is_stopped t.status then t else record t { status = offline; last_seen = some now }

unfoldable pub set_tunnel_offline : ℕ → ℕ → Db → Db
set_tunnel_offline now id = with_entry id (offline_entry now)

-- The number of rows that the statement changes, and the tables.
unfoldable pub stop_tunnel_keep : ℕ → ℕ → Db → ℕ × Db
stop_tunnel_keep now id db = elim (get id db.tunnels) [
  | none ↦ (0, db)
  | some t ↦ (1, with_entry id (λ t. record t { status = stopped; last_seen = some now }) db)
]

unfoldable pub start_tunnel_keep : ℕ → Db → ℕ × Db
start_tunnel_keep id db = elim (get id db.tunnels) [
  | none ↦ (0, db)
  | some t ↦
      if is_stopped t.status
      then (1, with_entry id (λ t. record t { status = awaiting_agent }) db)
      else (0, db)
]

unfoldable pub rename_tunnel : ℕ → Option Bytes → Db → Db
rename_tunnel id name = with_entry id (λ t. record t { name = name })

unfoldable pub set_tunnel_subdomain : ℕ → Bytes → Db → Db
set_tunnel_subdomain id name = with_entry id (λ t. record t { subdomain = name })

unfoldable pub subdomain_in_use : Bytes → ℕ → Map ℕ TunnelEntry → Bool
subdomain_in_use name self_id [] = false
subdomain_in_use name self_id ((id, t) ∷ m) =
    (beq t.subdomain name && not (id == self_id)) || subdomain_in_use name self_id m

-- `tunnels_custom_domain_uq`: no other tunnel has the domain.
abbrev pub has_domain : Bytes → Option Bytes → Bool
has_domain domain none = false
has_domain domain (some d) = beq d domain

unfoldable pub domain_in_use : Bytes → ℕ → Map ℕ TunnelEntry → Bool
domain_in_use domain self_id [] = false
domain_in_use domain self_id ((id, t) ∷ m) =
    (has_domain domain t.custom_domain && not (id == self_id)) || domain_in_use domain self_id m

abbrev pub clashes : Option Bytes → ℕ → Map ℕ TunnelEntry → Bool
clashes none self_id m = false
clashes (some domain) self_id m = domain_in_use domain self_id m

unfoldable pub set_custom_domain : ℕ → Option Bytes → Db → Option Db
unfolding domain_in_use
set_custom_domain id domain db =
    if clashes domain id db.tunnels
    then none
    else some (with_entry id (λ t. record t { custom_domain = domain }) db)

-- A statement on one row of a tunnel: how many rows it changes, and the rows.
unfoldable pub update_row : ℕ → (RouteRow → RouteRow) → List RouteRow → ℕ × List RouteRow
update_row route_id f [] = (0, [])
update_row route_id f (r ∷ rs) =
    let (n, later) = update_row route_id f rs in
    if r.route_id == route_id then (n + 1, f r ∷ later) else (n, r ∷ later)

abbrev pub with_row : ℕ → ℕ → (RouteRow → RouteRow) → Db → ℕ × Db
with_row id route_id f db =
    let (n, rows) = update_row route_id f (load_routes id db) in
    (n, record db { routes = insert id rows db.routes })

unfoldable pub set_route_srv : ℕ → ℕ → Option Bytes → Db → ℕ × Db
unfolding update_row
set_route_srv id route_id srv = with_row id route_id (λ r. record r { srv_service = srv })

unfoldable pub update_route_label : ℕ → ℕ → Option Bytes → Db → ℕ × Db
unfolding update_row
update_route_label id route_id label = with_row id route_id (λ r. record r { label = label })

-- `SELECT id FROM tunnels WHERE ...`: the ids whose entry passes the test.
abbrev pub passes : (TunnelEntry → Bool) → Option TunnelEntry → Bool
passes test none = false
passes test (some t) = test t

unfoldable pub ids_where : (TunnelEntry → Bool) → Map ℕ TunnelEntry → Map ℕ TunnelEntry → List ℕ
ids_where test all [] = []
ids_where test all ((id, t) ∷ m) =
    let later = ids_where test all m in if passes test (get id all) then id ∷ later else later

abbrev pub any_of : List ℕ → Holder → Bool
any_of ids h = contains h.tunnel_id ids

unfoldable pub remove_all {ℓ} : {V : Type ℓ} → List ℕ → Map ℕ V → Map ℕ V
remove_all [] m = m
remove_all (id ∷ ids) m = remove id (remove_all ids m)

-- Whether `at` lies more than `secs` before now.
abbrev pub is_before : ℕ → ℕ → ℕ → Bool
is_before now secs at = ltb (at + secs) now

abbrev pub or_created : Option ℕ → ℕ → ℕ
or_created none created = created
or_created (some at) created = at

abbrev pub waits_or_stopped : Status → Bool
waits_or_stopped awaiting_agent = true
waits_or_stopped stopped = true
waits_or_stopped _ = false

abbrev pub is_ephemeral : Option ℕ → Bool
is_ephemeral none = true
is_ephemeral (some d) = false

abbrev pub is_abandoned : ℕ → ℕ → TunnelEntry → Bool
is_abandoned now grace_secs t =
    not (waits_or_stopped t.status)
    && is_ephemeral t.device_id
    && is_before now grace_secs (or_created t.last_seen t.created_at)

unfoldable pub reconcile_abandoned : ℕ → ℕ → Db → Db
unfolding ids_where free_where remove_all
reconcile_abandoned now grace_secs db =
    let stale = ids_where (is_abandoned now grace_secs) db.tunnels db.tunnels in
    record {
      pool = free_where (any_of stale) db.pool;
      routes = remove_all stale db.routes;
      tunnels = remove_all stale db.tunnels;
    }

abbrev pub is_idle : ℕ → ℕ → TunnelEntry → Bool
is_idle now idle_secs t =
    not (is_ephemeral t.device_id)
    && not (is_empty t.route_sig)
    && is_before now idle_secs (or_created t.last_active_at t.created_at)

unfoldable pub clear_sigs : List ℕ → Map ℕ TunnelEntry → Map ℕ TunnelEntry
clear_sigs [] m = m
clear_sigs (id ∷ ids) m = update_entry id (λ t. record t { route_sig = [] }) (clear_sigs ids m)

unfoldable pub expire_idle_service_hosts : ℕ → ℕ → Db → Db
unfolding ids_where free_where remove_all clear_sigs
expire_idle_service_hosts now idle_secs db =
    let idle = ids_where (is_idle now idle_secs) db.tunnels db.tunnels in
    record {
      pool = free_where (any_of idle) db.pool;
      routes = remove_all idle db.routes;
      tunnels = clear_sigs idle db.tunnels;
    }
