-- ===== src/Control/Failover.antt =====
-- `failover_stale_nodes` of natforge-backend/src/db/queries.rs. Its statement that records the region
-- that a tunnel was moved off may fail without effect; a failing connection is not modelled.
pub mod Kept
pub mod Moves
use natforge_thesis.Prelude.{
  ℕ, ◌+◌, Bool, false, not, ◌&&◌, ◌||◌, Bytes, beq, List, [], ◌∷◌, Option, none, some, Map, get,
  nat_eq, bytes_eq, is_empty, leb, if◌then◌else◌, ok, err,
}
use natforge_thesis.Control.Ports.{TunnelEntry, Db, update_entry, migrate_tunnel}
use natforge_thesis.Control.Tunnels.{with_entry}
use natforge_thesis.Control.Site.{Node}

-- Whether a node was seen in the last `stale_secs` seconds.
abbrev pub is_recent : ℕ → ℕ → Option ℕ → Bool
is_recent now stale_secs none = false
is_recent now stale_secs (some at) = leb now (at + stale_secs)

abbrev pub is_dead : ℕ → ℕ → Node → Bool
is_dead now stale_secs n = n.active && not (is_recent now stale_secs n.last_seen)

abbrev pub is_healthy : ℕ → ℕ → Node → Bool
is_healthy now stale_secs n = n.active && is_recent now stale_secs n.last_seen

-- `COALESCE(region, name, node_id)`; a name is never null.
abbrev pub region_or_name : Node → Bytes
region_or_name n = elim n.region [ none ↦ n.name | some region ↦ region ]

-- The dead nodes' ids and labels.
unfoldable pub dead_rows : ℕ → ℕ → Map Bytes Node → List (Bytes × Bytes)
dead_rows now stale_secs [] = []
dead_rows now stale_secs ((id, n) ∷ m) =
    let rest = dead_rows now stale_secs m in
    if is_dead now stale_secs n then (id, region_or_name n) ∷ rest else rest

abbrev pub older : Node → Option Node → Node
older n none = n
older n (some m) = if leb n.created_at m.created_at then n else m

-- The oldest of the healthy nodes.
unfoldable pub healthy_target : ℕ → ℕ → Map Bytes Node → Option Node
healthy_target now stale_secs [] = none
healthy_target now stale_secs ((id, n) ∷ m) =
    let rest = healthy_target now stale_secs m in
    if is_healthy now stale_secs n then some (older n rest) else rest

-- The label of the node that a tunnel was moved off.
unfoldable pub find_label : Bytes → List (Bytes × Bytes) → Option Bytes
find_label from [] = none
find_label from ((id, l) ∷ rows) = if beq id from then some l else find_label from rows

abbrev pub label_of : Bytes → List (Bytes × Bytes) → Bytes
label_of from rows = elim (find_label from rows) [ none ↦ from | some l ↦ l ]

abbrev pub is_among : Bytes → List (Bytes × Bytes) → Bool
is_among id rows = elim (find_label id rows) [ none ↦ false | some l ↦ not false ]

pub record Pending : Type 0 where
  pub tunnel_id : ℕ
  pub subdomain : Bytes
  pub from : Bytes

-- The tunnels on a dead node; `m` is what is left of the table.
abbrev pub pending_at : List (Bytes × Bytes) → ℕ → Option TunnelEntry → Option Pending
pending_at dead id none = none
pending_at dead id (some t) = elim t.node_id [
  | none ↦ none
  | some from ↦
      if is_among from dead
      then some (record { tunnel_id = id; subdomain = t.subdomain; from = from })
      else none
]

unfoldable pub pending_in :
    List (Bytes × Bytes) → Map ℕ TunnelEntry → Map ℕ TunnelEntry → List Pending
pending_in dead all [] = []
pending_in dead all ((id, t) ∷ m) =
    let rest = pending_in dead all m in
    elim (pending_at dead id (get id all)) [ none ↦ rest | some p ↦ p ∷ rest ]

-- The move of one tunnel, if it is one.
unfoldable pub move_off : List (Bytes × Bytes) → Node → Pending → Db → Option Db
unfolding migrate_tunnel find_label
move_off dead n p db =
    if beq p.from n.node_id
    then none
    else elim (migrate_tunnel p.tunnel_id n.node_id n.public_host db) [
      | err e ↦ none
      | ok moved ↦ some (
          with_entry p.tunnel_id (λ t. record t { failover_from = some (label_of p.from dead) })
            moved)
    ]

unfoldable pub move_all :
    List (Bytes × Bytes) → Node → List Pending → Db → List (Bytes × Bytes × Bytes) × Db
unfolding move_off
move_all dead n [] db = ([], db)
move_all dead n (p ∷ ps) db = elim (move_off dead n p db) [
  | none ↦ move_all dead n ps db
  | some db' ↦
      let (moved, after) = move_all dead n ps db' in
      ((p.subdomain, p.from, n.node_id) ∷ moved, after)
]

unfoldable pub failover_stale_nodes :
    ℕ → ℕ → Map Bytes Node → Db → List (Bytes × Bytes × Bytes) × Db
unfolding dead_rows healthy_target pending_in move_all find_label
failover_stale_nodes now stale_secs nodes db =
    let dead = dead_rows now stale_secs nodes in
    if is_empty dead then ([], db) else elim (healthy_target now stale_secs nodes) [
      | none ↦ ([], db)
      | some n ↦ move_all dead n (pending_in dead db.tunnels db.tunnels) db
    ]
