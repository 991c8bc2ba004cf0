-- ===== src/Host/Tasks.antt =====
-- One turn of `run_device` of natforge-agent/src/service_host.rs.
use natforge_thesis.Prelude.{
  ℕ, ◌≡◌, refl, List, [], ◌∷◌, Option, none, some, get, insert, get-nil, get-cons, get-insert,
  get-remove, nat_eq, ◌==◌, if◌then◌else◌, arith, Bool-cases, Option-cases, inl, inr,
}
use natforge_thesis.Proto.Claims.{contains, is_some}
use natforge_thesis.Host.{
  Reservation, Task, Tasks, tunnel_ids, stays, retain, started, spawn_missing, reconcile,
}

get-retain :
    (want : List ℕ) (ts : Tasks) (id : ℕ)
    → get id (retain want ts)
      ≡ elim (get id ts) [ none ↦ none | some t ↦ if stays want id t then some t else none ]
unfolding retain
get-retain want [] id = ground (arith, get-nil {V = Task} id)
get-retain want ((k, t) ∷ ts) id = elim (Bool-cases (stays want k t)) [
  | inl y ↦
      ground (arith, y, get-cons id k t ts, get-cons id k t (retain want ts), get-retain want ts id)
  | inr y ↦
      ground (arith, y, get-cons id k t ts, get-remove k id (retain want ts), get-retain want ts id)
]

-- The first service with an id.
abbrev pub service : ℕ → List Reservation → Option Reservation
service id [] = none
service id (r ∷ rs) = if r.tunnel_id == id then some r else service id rs

abbrev pub or_started : Option Task → Option Reservation → Option Task
or_started (some t) r = some t
or_started none none = none
or_started none (some r) = some (started r)

get-spawn_missing :
    (rs : List Reservation) (ts : Tasks) (id : ℕ)
    → get id (spawn_missing rs ts) ≡ or_started (get id ts) (service id rs)
unfolding spawn_missing
get-spawn_missing [] ts id = by_task (get id ts)
  where
    by_task : (o : Option Task) → o ≡ or_started o none
    by_task none = refl
    by_task (some t) = refl
get-spawn_missing (r ∷ rs) ts id = elim (Option-cases (get r.tunnel_id ts)) [
  | inl q ↦ ground (
    arith,
    q,
    get-spawn_missing rs (insert r.tunnel_id (started r) ts) id,
    get-insert r.tunnel_id id (started r) ts,
  )
  | inr (t, q) ↦ ground (arith, q, get-spawn_missing rs ts id)
]

contains-tunnel_ids :
    (id : ℕ) (rs : List Reservation) → contains id (tunnel_ids rs) ≡ is_some (service id rs)
contains-tunnel_ids id [] = refl
contains-tunnel_ids id (r ∷ rs) = ground (arith, contains-tunnel_ids id rs)

-- After a turn with a configuration, there is a task for exactly the tunnels in it: one that ran for
-- such a tunnel goes on as it is, and in place of one that had finished, or of none, a task runs with
-- the reservation that was fetched.
pub reconcile_exact :
    (services : List Reservation) (ts : Tasks) (id : ℕ)
    → get id (reconcile services ts) ≡ elim (service id services) [
      | none ↦ none
      | some r ↦ elim (get id ts) [
        | none ↦ some (started r)
        | some t ↦ if t.is_finished then some (started r) else some t
      ]
    ]
unfolding reconcile
reconcile_exact services ts id = ground (
  arith,
  get-spawn_missing services (retain (tunnel_ids services) ts) id,
  get-retain (tunnel_ids services) ts id,
  contains-tunnel_ids id services,
)
