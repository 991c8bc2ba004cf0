-- ===== src/Control/Handlers.antt =====
-- The handlers of natforge-backend/src/handlers/tunnels.rs on an existing tunnel. The clock and the
-- Unicode case mappings of the standard library are parameters; the JSON of an answer is left out.
pub mod Edit
pub mod Request
pub mod Guarded
pub mod Bounds
use natforge_thesis.Prelude.{
  ℕ, ◌+◌, ◌%◌, ◌^◌, Bool, true, false, not, ◌&&◌, ◌||◌, Bytes, codes, beq, List, [], ◌∷◌, ◌++◌,
  Option, none, some, Map, get, insert, nat_eq, bytes_eq, length, is_empty, take, ltb, leb, ◌==◌,
  if◌then◌else◌, Result, ok, err, Eq,
}
use natforge_thesis.Node.Text.{between, trim, trim_dots, to_ascii_lowercase}
use natforge_thesis.Control.Names.{valid_subdomain, valid_custom_domain, is_alnum, every}
use natforge_thesis.Control.Policy.{RequestedRoute, check_route_policy}
use natforge_thesis.Control.Expand.{RouteRow}
use natforge_thesis.Control.Ports.{
  TunnelEntry, Db, ReserveError, port_exhausted, route_set_exists, migrate_tunnel, delete_tunnel,
}
use natforge_thesis.Control.Ports.Services.{before, set_service_routes, trimmed}
use natforge_thesis.Control.Reserve.{is_reserved_name}
use natforge_thesis.Control.Tunnels.{
  is_online, stop_tunnel_keep, start_tunnel_keep, rename_tunnel, set_tunnel_subdomain,
  subdomain_in_use, set_custom_domain, set_route_srv, update_route_label,
}
use natforge_thesis.Control.Site.{
  Node, Site, AuthUser, Reason, unknown_region, already_removed, not_paused, too_many_countries,
  name_too_long, label_too_long, route_not_found, invalid_domain, domain_claimed, same_region,
  no_host_node, reserved_name, name_in_use, invalid_name, policy, reserve, Refusal, Signal, Done,
  refuse, checked, get_node, device_routes_excluding, check_endpoints, authorize_tunnel,
  signal_node_stop, with_db,
}

pub record Unicode : Type 0 where
  pub to_lowercase : Bytes → Bytes
  pub to_uppercase : Bytes → Bytes

-- `if status == "online" { signal_node_stop }`: the status is read after the change.
abbrev pub signal_if_online : Site → ℕ → Bytes → Option Bytes → List Signal
signal_if_online s id subdomain node = elim (get id s.db.tunnels) [
  | none ↦ []
  | some t ↦ if is_online t.status then signal_node_stop s subdomain node ∷ [] else []
]

-- POST stop and start, DELETE.
unfoldable pub stop_tunnel : ℕ → Site → AuthUser → ℕ → Done (Unit {0})
unfolding authorize_tunnel signal_node_stop stop_tunnel_keep
stop_tunnel now s user id = checked s (authorize_tunnel s user id) λ t.
    let signal = signal_node_stop s t.subdomain t.node_id in
    let (n, db) = stop_tunnel_keep now id s.db in
    record {
      site = with_db s db;
      sent = signal ∷ [];
      answer = if n == 0 then err (410, already_removed) else ok tt;
    }

unfoldable pub start_tunnel : Site → AuthUser → ℕ → Done (Unit {0})
unfolding authorize_tunnel start_tunnel_keep
start_tunnel s user id = checked s (authorize_tunnel s user id) λ t.
    let (n, db) = start_tunnel_keep id s.db in
    record {
      site = with_db s db;
      sent = [];
      answer = if n == 0 then err (409, not_paused) else ok tt;
    }

unfoldable pub remove_tunnel : Site → AuthUser → ℕ → Done (Unit {0})
unfolding authorize_tunnel signal_node_stop
remove_tunnel s user id = checked s (authorize_tunnel s user id) λ t. record {
  site = with_db s (delete_tunnel id s.db);
  sent = signal_node_stop s t.subdomain t.node_id ∷ [];
  answer = ok tt;
}

-- POST migrate.
abbrev pub active_only : Option Node → Option Node
active_only none = none
active_only (some n) = if n.active then some n else none

abbrev pub is_node : Option Bytes → Bytes → Bool
is_node none id = false
is_node (some n) id = beq n id

abbrev pub migrate_refusal : ReserveError → Refusal
migrate_refusal port_exhausted = (503, reserve port_exhausted)
migrate_refusal e = (500, reserve e)

abbrev pub moved_to : Node → Site → ℕ → TunnelEntry → Done Node
moved_to n s id t = elim (migrate_tunnel id n.node_id n.public_host s.db) [
  | err e ↦ record { site = s; sent = []; answer = err (migrate_refusal e) }
  | ok db ↦ record {
    site = with_db s db;
    sent = signal_node_stop s t.subdomain t.node_id ∷ [];
    answer = ok n;
  }
]

unfoldable pub move_tunnel : Site → AuthUser → ℕ → Bytes → Done Node
unfolding authorize_tunnel get_node signal_node_stop
move_tunnel s user id node_id = checked s (authorize_tunnel s user id) λ t.
    elim (active_only (get_node s (trim node_id))) [
      | none ↦ refuse s 400 unknown_region
      | some n ↦ if is_node t.node_id n.node_id then refuse s 400 same_region else moved_to n s id t
    ]

-- PUT region_blocks: distinct two-letter codes in order.
abbrev pub is_ascii_alphabetic : ℕ → Bool
is_ascii_alphabetic c = between b'a' b'z' c || between b'A' b'Z' c

abbrev pub is_code : Bytes → Bool
is_code c = length c == 2 && every is_ascii_alphabetic c

-- `sort` and `dedup` of the codes kept.
unfoldable pub insert_code : Bytes → List Bytes → List Bytes
insert_code c [] = c ∷ []
insert_code c (d ∷ ds) =
    let rest = insert_code c ds in
    if beq c d then d ∷ ds else if before c d then c ∷ d ∷ ds else d ∷ rest

unfoldable pub country_codes : (Bytes → Bytes) → List Bytes → List Bytes
unfolding insert_code
country_codes to_uppercase [] = []
country_codes to_uppercase (c ∷ cs) =
    let upper = to_uppercase (trim c) in
    let rest = country_codes to_uppercase cs in
    if is_code upper then insert_code upper rest else rest

unfoldable pub set_tunnel_region_blocks :
    Unicode → Site → AuthUser → ℕ → List Bytes → Done (List Bytes)
unfolding authorize_tunnel country_codes
set_tunnel_region_blocks u s user id asked = checked s (authorize_tunnel s user id) λ t.
    let kept = country_codes u.to_uppercase asked in
    if ltb 100 (length kept) then refuse s 400 too_many_countries else record {
      site = record s { tunnel_region_blocks = insert id kept s.tunnel_region_blocks };
      sent = [];
      answer = ok kept;
    }

-- PUT and DELETE custom_domain.
abbrev pub domain_set : Site → ℕ → TunnelEntry → Bytes → Done Bytes
domain_set s id t domain = elim (set_custom_domain id (some domain) s.db) [
  | none ↦ refuse s 409 domain_claimed
  | some db ↦ record {
    site = with_db s db;
    sent = signal_if_online (with_db s db) id t.subdomain t.node_id;
    answer = ok domain;
  }
]

unfoldable pub put_custom_domain : Unicode → Site → AuthUser → ℕ → Bytes → Done Bytes
unfolding authorize_tunnel signal_node_stop set_custom_domain
put_custom_domain u s user id asked = checked s (authorize_tunnel s user id) λ t.
    let domain = u.to_lowercase (trim_dots (trim asked)) in
    if not (valid_custom_domain domain s.domain)
    then refuse s 400 invalid_domain
    else domain_set s id t domain

unfoldable pub clear_custom_domain : Site → AuthUser → ℕ → Done (Unit {0})
unfolding authorize_tunnel signal_node_stop set_custom_domain
clear_custom_domain s user id = checked s (authorize_tunnel s user id) λ t.
    elim (set_custom_domain id none s.db) [
      | none ↦ refuse s 409 domain_claimed
      | some db ↦ record {
        site = with_db s db;
        sent = signal_if_online (with_db s db) id t.subdomain t.node_id;
        answer = ok tt;
      }
    ]

-- POST routes/{route_id}/srv: the label without leading underscores, in lower case, its first thirty
-- letters, digits and hyphens.
unfoldable pub skip_underscores : Bytes → Bytes
skip_underscores [] = []
skip_underscores (c ∷ cs) = let rest = skip_underscores cs in if c == b'_' then rest else c ∷ cs

unfoldable pub keep_label : ℕ → Bytes → Bytes
keep_label kept [] = []
keep_label kept (c ∷ cs) =
    let keep = is_alnum c || c == b'-' in
    let rest = keep_label (if keep then kept + 1 else kept) cs in
    if leb 30 kept then [] else if keep then c ∷ rest else rest

abbrev pub none_if_empty : Bytes → Option Bytes
none_if_empty [] = none
none_if_empty (c ∷ cs) = some (c ∷ cs)

unfoldable pub srv_label : Option Bytes → Option Bytes
unfolding skip_underscores keep_label
srv_label none = none
srv_label (some s) = none_if_empty (keep_label 0 (to_ascii_lowercase (skip_underscores (trim s))))

-- `as i16`, by its bits; the ids of stored rows are below 2^15. Route ids of a request are natural
-- numbers here; a negative one is not modelled.
abbrev pub to_i16 : ℕ → ℕ
to_i16 n = n % 2 ^ 16

unfoldable pub put_route_srv : Site → AuthUser → ℕ → ℕ → Option Bytes → Done (Option Bytes)
unfolding authorize_tunnel signal_node_stop srv_label
put_route_srv s user id route_id asked = checked s (authorize_tunnel s user id) λ t.
    let service = srv_label asked in
    let (n, db) = set_route_srv id (to_i16 route_id) service s.db in
    if n == 0 then refuse s 404 route_not_found else record {
      site = with_db s db;
      sent = signal_if_online (with_db s db) id t.subdomain t.node_id;
      answer = ok service;
    }

-- PUT routes.
abbrev pub services_refusal : ReserveError → Refusal
services_refusal port_exhausted = (503, reserve port_exhausted)
services_refusal (route_set_exists sig) = (409, reserve (route_set_exists sig))
services_refusal e = (500, reserve e)

abbrev pub check_device_endpoints :
    Site → ℕ → Option ℕ → List RequestedRoute → Result Refusal (Unit {0})
check_device_endpoints s id none routes = ok tt
check_device_endpoints s id (some d) routes =
    check_endpoints (device_routes_excluding d id s.db s.db.tunnels) routes

abbrev pub routes_put : Site → ℕ → TunnelEntry → Bytes → List RequestedRoute → Done (List RouteRow)
routes_put s id t node routes = elim (set_service_routes id node routes s.db) [
  | err e ↦ record { site = s; sent = []; answer = err (services_refusal e) }
  | ok (rows, db) ↦ record {
    site = with_db s db;
    sent = signal_if_online (with_db s db) id t.subdomain (some node);
    answer = ok rows;
  }
]

unfoldable pub put_routes : Site → AuthUser → ℕ → List RequestedRoute → Done (List RouteRow)
unfolding authorize_tunnel signal_node_stop device_routes_excluding check_endpoints
put_routes s user id routes = checked s (authorize_tunnel s user id) λ t. elim t.node_id [
  | none ↦ refuse s 409 no_host_node
  | some node ↦ elim (check_route_policy routes) [
    | err e ↦ refuse s 400 (policy e)
    | ok _ ↦
        checked s (check_device_endpoints s id t.device_id routes)
          λ _. routes_put s id t node routes
  ]
]
