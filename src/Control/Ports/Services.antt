-- ===== src/Control/Ports/Services.antt =====
-- `route_signature` and `set_service_routes` of natforge-backend/src/db/queries.rs.
pub mod Kept
use natforge_thesis.Prelude.{
  ℕ, ◌+◌, Bool, true, false, not, ◌&&◌, ◌||◌, Bytes, codes, beq, List, [], ◌∷◌, ◌++◌, Option, none,
  some, Map, get, insert, nat_eq, is_empty, ltb, ◌==◌, if◌then◌else◌, Result, ok, err, and_then,
  max,
}
use natforge_thesis.Proto.Route.{is_host_routed, as_str}
use natforge_thesis.Node.Text.{decimal, trim}
use natforge_thesis.Control.Policy.{RequestedRoute}
use natforge_thesis.Control.Expand.{RouteRow}
use natforge_thesis.Control.Ports.{
  Pool, TunnelEntry, Db, ReserveError, port_exhausted, route_set_exists, load_routes, claim_port,
  free_where, of_route, update_entry,
}

-- `str`'s order: by bytes.
abbrev pub before : Bytes → Bytes → Bool
before [] b = true
before (x ∷ a) [] = false
before (x ∷ a) (y ∷ b) = ltb x y || (x == y && before a b)

abbrev pub sort_in : Bytes → List Bytes → List Bytes
sort_in s [] = s ∷ []
sort_in s (t ∷ ts) = let rest = sort_in s ts in if before s t then s ∷ t ∷ ts else t ∷ rest

abbrev pub sorted_parts : List RequestedRoute → List Bytes
sorted_parts [] = []
sorted_parts (r ∷ rs) = sort_in (as_str r.mode ++ b':' ∷ decimal r.local_port) (sorted_parts rs)

abbrev pub join_comma : List Bytes → Bytes
join_comma [] = []
join_comma (s ∷ []) = s
join_comma (s ∷ t ∷ ts) = s ++ b',' ∷ join_comma (t ∷ ts)

unfoldable pub route_signature : List RequestedRoute → Bytes
route_signature rs = join_comma (sorted_parts rs)

-- The key (kind, local port) that rows and requests are matched by.
unfoldable pub matches : RequestedRoute → RouteRow → Bool
matches q r = beq (as_str q.mode) r.kind && r.local_port == q.local_port

unfoldable pub is_wanted : List RequestedRoute → RouteRow → Bool
unfolding matches
is_wanted [] r = false
is_wanted (q ∷ qs) r = matches q r || is_wanted qs r

unfoldable pub is_there : List RouteRow → RequestedRoute → Bool
unfolding matches
is_there [] q = false
is_there (r ∷ rs) q = matches q r || is_there rs q

-- 1) The rows that are not requested go, their ports first.
unfoldable pub drop_rows : ℕ → List RequestedRoute → List RouteRow → Pool → List RouteRow × Pool
unfolding is_wanted
drop_rows tunnel_id want [] pool = ([], pool)
drop_rows tunnel_id want (r ∷ rs) pool =
    let freed =
      if is_wanted want r then pool else free_where (of_route tunnel_id r.route_id) pool in
    let (rows, pool') = drop_rows tunnel_id want rs freed in
    (if is_wanted want r then r ∷ rows else rows, pool')

unfoldable pub max_route_id : List RouteRow → ℕ
max_route_id [] = 0
max_route_id (r ∷ rs) = max r.route_id (max_route_id rs)

abbrev pub trimmed : Option Bytes → Option Bytes
trimmed none = none
trimmed (some s) = if is_empty (trim s) then none else some (trim s)

abbrev pub new_row : RequestedRoute → ℕ → Option ℕ → RouteRow
new_row q route_id public_port = record {
  route_id = route_id;
  kind = as_str q.mode;
  local_port = q.local_port;
  public_port = public_port;
  label = trimmed q.label;
  srv_service = none;
}

-- 2) One turn of the loop over the requests: the last id handed out, the new rows and the pool.
unfoldable pub place :
    ℕ
    → Bytes
    → List RouteRow
    → RequestedRoute
    → ℕ
    → Pool
    → Result ReserveError (ℕ × List RouteRow × Pool)
unfolding is_there
place tunnel_id node existing q last pool =
    if is_there existing q
    then ok (last, [], pool)
    else if is_host_routed q.mode
    then ok (last + 1, new_row q (last + 1) none ∷ [], pool)
    else elim (claim_port node tunnel_id (last + 1) pool) [
      | none ↦ err port_exhausted
      | some claimed ↦ ok (last + 1, new_row q (last + 1) (some claimed.0) ∷ [], claimed.1)
    ]

unfoldable pub add_rows :
    ℕ
    → Bytes
    → List RouteRow
    → List RequestedRoute
    → ℕ
    → Pool
    → Result ReserveError (List RouteRow × Pool)
unfolding place
add_rows tunnel_id node existing [] last pool = ok ([], pool)
add_rows tunnel_id node existing (q ∷ qs) last pool =
    and_then (place tunnel_id node existing q last pool) λ (last', new, pool').
      and_then (add_rows tunnel_id node existing qs last' pool')
        λ (rows, pool''). ok (new ++ rows, pool'')

-- 3) The unique index on (owner, device or 0, signature), which skips empty signatures.
abbrev pub device_or_zero : Option ℕ → ℕ
device_or_zero none = 0
device_or_zero (some d) = d

unfoldable pub is_taken : ℕ → TunnelEntry → Bytes → Map ℕ TunnelEntry → Bool
is_taken tunnel_id t sig [] = false
is_taken tunnel_id t sig ((k, u) ∷ m) =
    (not (k == tunnel_id)
      && u.owner_id == t.owner_id
      && device_or_zero u.device_id == device_or_zero t.device_id
      && beq u.route_sig sig)
    || is_taken tunnel_id t sig m

unfoldable pub set_sig : ℕ → Bytes → Map ℕ TunnelEntry → Result ReserveError (Map ℕ TunnelEntry)
unfolding is_taken
set_sig tunnel_id sig m = elim (get tunnel_id m) [
  | none ↦ ok m
  | some t ↦
      if not (is_empty sig) && is_taken tunnel_id t sig m
      then err (route_set_exists sig)
      else ok (insert tunnel_id (record t { route_sig = sig }) m)
]

unfoldable pub set_service_routes :
    ℕ → Bytes → List RequestedRoute → Db → Result ReserveError (List RouteRow × Db)
unfolding drop_rows max_route_id add_rows set_sig route_signature
set_service_routes tunnel_id node requested db =
    let existing = load_routes tunnel_id db in
    let (kept, freed) = drop_rows tunnel_id requested existing db.pool in
    and_then (add_rows tunnel_id node existing requested (max_route_id existing) freed)
      λ (added, pool).
        and_then (set_sig tunnel_id (route_signature requested) db.tunnels) λ tunnels. ok (
          kept ++ added,
          record {
            pool = pool;
            routes = insert tunnel_id (kept ++ added) db.routes;
            tunnels = tunnels;
          },
        )
