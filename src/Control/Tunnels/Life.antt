-- ===== src/Control/Tunnels/Life.antt =====
-- The status of a tunnel under the calls of natforge-backend/src/db/queries.rs that set it: the node's
-- reports that the agent is connected or gone (handlers/internal.rs), and the owner's stop and start.
use natforge_thesis.Prelude.{
  ℕ, ◌≡◌, refl, ap, subst, ◌∙◌, Bool, true, false, ◌||◌, Bytes, List, [], ◌∷◌, Option, none, some,
  get, get-insert, nat_eq, arith, Option-cases, inl, inr,
}
use natforge_thesis.Control.Ports.{
  Status, awaiting_agent, online, offline, stopped, TunnelEntry, Db,
}
use natforge_thesis.Control.Tunnels.{
  offline_entry, set_tunnel_online, set_tunnel_offline, stop_tunnel_keep, start_tunnel_keep,
}
use natforge_thesis.Control.Tunnels.Sweeps.{get-update_entry}

-- The calls, with the clock where it is stored.
pub data Call : Type 0 where
  tunnel_up : ℕ → Bytes → Call
  tunnel_down stop : ℕ → Call
  start : Call

unfoldable pub apply : Call → ℕ → Db → Db
unfolding set_tunnel_online set_tunnel_offline stop_tunnel_keep start_tunnel_keep
apply (tunnel_up now node) id db = set_tunnel_online now id node db
apply (tunnel_down now) id db = set_tunnel_offline now id db
apply (stop now) id db = (stop_tunnel_keep now id db).1
apply start id db = (start_tunnel_keep id db).1

unfoldable pub apply_all : List Call → ℕ → Db → Db
unfolding apply
apply_all [] id db = db
apply_all (c ∷ cs) id db = apply_all cs id (apply c id db)

-- The state machine.
abbrev pub next : Call → Status → Status
next (tunnel_up now node) s = online
next (tunnel_down now) stopped = stopped
next (tunnel_down now) s = offline
next (stop now) s = stopped
next start stopped = awaiting_agent
next start s = s

abbrev pub next_all : List Call → Status → Status
next_all [] s = s
next_all (c ∷ cs) s = next_all cs (next c s)

abbrev pub status_of : ℕ → Db → Option Status
status_of id db = elim (get id db.tunnels) [ none ↦ none | some t ↦ some t.status ]

down-status :
    (now id : ℕ) (db : Db) (t : TunnelEntry) (s : Status)
    → get id db.tunnels ≡ some t
    → t.status ≡ s
    → status_of id (set_tunnel_offline now id db) ≡ some (next (tunnel_down now) s)
unfolding set_tunnel_offline
down-status now id db t awaiting_agent e q =
    ground (arith, e, q, get-update_entry id id (offline_entry now) db.tunnels)
down-status now id db t online e q =
    ground (arith, e, q, get-update_entry id id (offline_entry now) db.tunnels)
down-status now id db t offline e q =
    ground (arith, e, q, get-update_entry id id (offline_entry now) db.tunnels)
down-status now id db t stopped e q =
    ground (arith, e, q, get-update_entry id id (offline_entry now) db.tunnels)

start-status :
    (id : ℕ) (db : Db) (t : TunnelEntry) (s : Status)
    → get id db.tunnels ≡ some t
    → t.status ≡ s
    → status_of id (start_tunnel_keep id db).1 ≡ some (next start s)
unfolding start_tunnel_keep
start-status id db t awaiting_agent e q = ground (arith, e, q)
start-status id db t online e q = ground (arith, e, q)
start-status id db t offline e q = ground (arith, e, q)
start-status id db t stopped e q =
    ground (arith, e, q, get-insert id id (record t { status = awaiting_agent }) db.tunnels)

apply-status :
    (c : Call) (id : ℕ) (db : Db) (t : TunnelEntry)
    → get id db.tunnels ≡ some t
    → status_of id (apply c id db) ≡ some (next c t.status)
unfolding apply set_tunnel_online stop_tunnel_keep
apply-status (tunnel_up now node) id db t e = ground (
  arith,
  e,
  get-update_entry id id
      (λ t. record t { status = online; node_id = some node; last_seen = some now }) db.tunnels,
)
apply-status (tunnel_down now) id db t e = down-status now id db t t.status e refl
apply-status (stop now) id db t e = ground (
  arith,
  e,
  get-update_entry id id (λ t. record t { status = stopped; last_seen = some now }) db.tunnels,
)
apply-status start id db t e = start-status id db t t.status e refl

status_of-some :
    (id : ℕ) (db : Db) (s : Status)
    → status_of id db ≡ some s
    → (t : TunnelEntry) × (get id db.tunnels ≡ some t) × (t.status ≡ s)
status_of-some id db s e = elim (Option-cases (get id db.tunnels)) [
  | inl q ↦ ground (arith, e, q)
  | inr (t, q) ↦ (t, q, ground (arith, e, q))
]

-- However the calls follow each other, the tunnel's status is the state machine's.
pub apply_all-status :
    (cs : List Call) (id : ℕ) (db : Db) (s : Status)
    → status_of id db ≡ some s
    → status_of id (apply_all cs id db) ≡ some (next_all cs s)
unfolding apply_all
apply_all-status [] id db s e = e
apply_all-status (c ∷ cs) id db s e =
    let (t, q, same) = status_of-some id db s e in
    apply_all-status cs id (apply c id db) (next c s)
      (subst (λ x. status_of id (apply c id db) ≡ some (next c x)) same (apply-status c id db t q))

-- The calls that can end a pause.
abbrev pub ends_pause : Call → Bool
ends_pause (tunnel_up now node) = true
ends_pause start = true
ends_pause _ = false

abbrev pub any_ends : List Call → Bool
any_ends [] = false
any_ends (c ∷ cs) = ends_pause c || any_ends cs

kept_paused : (cs : List Call) → any_ends cs ≡ false → next_all cs stopped ≡ stopped
kept_paused [] e = refl
kept_paused (tunnel_up now node ∷ cs) e = ground (arith, e)
kept_paused (tunnel_down now ∷ cs) e = kept_paused cs e
kept_paused (stop now ∷ cs) e = kept_paused cs e
kept_paused (start ∷ cs) e = ground (arith, e)

-- A tunnel that its owner has stopped stays stopped under any calls but a start and a report that its
-- agent is connected; such a report alone makes it online again, without a start.
pub apply_all_paused :
    (cs : List Call) (id : ℕ) (db : Db)
    → status_of id db ≡ some stopped
    → any_ends cs ≡ false
    → (status_of id (apply_all cs id db) ≡ some stopped)
      × ((now : ℕ) (node : Bytes)
          → status_of id (apply (tunnel_up now node) id (apply_all cs id db)) ≡ some online)
apply_all_paused cs id db e n =
    let kept : status_of id (apply_all cs id db) ≡ some stopped =
      apply_all-status cs id db stopped e ∙ ap some (kept_paused cs n) in
    let (t, q, same) = status_of-some id (apply_all cs id db) stopped kept in
    (kept, λ now node. apply-status (tunnel_up now node) id (apply_all cs id db) t q)
