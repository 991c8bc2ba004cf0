-- ===== src/Control/Tunnels/Sweeps.antt =====
-- `reconcile_abandoned` and `expire_idle_service_hosts` of natforge-backend/src/db/queries.rs: exactly
-- which tunnels they reach.
use natforge_thesis.Prelude.{
  ℕ, ◌≡◌, ◌⊎◌, ◌<◌, ◌+◌, Bool-cases, ◌↔◌, refl, Bool, true, false, Bytes, List, [], ◌∷◌, Option,
  none, some, Map, get, get-nil, get-cons, get-insert, get-remove, nat_eq, ◌==◌, if◌then◌else◌,
  arith, Option-cases, inl, inr,
}
use natforge_thesis.Proto.Claims.{contains}
use natforge_thesis.Control.Ports.{
  Holder, Status, awaiting_agent, stopped, online, offline, TunnelEntry, Db, lookup, update_entry,
}
use natforge_thesis.Control.Ports.Claims.{lookup-free_where}
use natforge_thesis.Control.Tunnels.{
  passes, ids_where, any_of, remove_all, is_abandoned, waits_or_stopped, or_created,
  reconcile_abandoned, is_idle, clear_sigs, expire_idle_service_hosts,
}

-- An id that is found passes the test, and one that passes is found where it stands.
ids_where-passes :
    (test : TunnelEntry → Bool) (all m : Map ℕ TunnelEntry) (u : ℕ)
    → contains u (ids_where test all m) ≡ true
    → passes test (get u all) ≡ true
unfolding ids_where
ids_where-passes test all [] u e = ground (arith, e)
ids_where-passes test all ((id, t) ∷ m) u e = ground (arith, e, ids_where-passes test all m u)

ids_where-found :
    (test : TunnelEntry → Bool) (all m : Map ℕ TunnelEntry) (u : ℕ) (t : TunnelEntry)
    → passes test (get u all) ≡ true
    → get u m ≡ some t
    → contains u (ids_where test all m) ≡ true
unfolding ids_where
ids_where-found test all [] u t p e = ground (arith, e, get-nil {V = TunnelEntry} u)
ids_where-found test all ((id, s) ∷ m) u t p e =
    ground (arith, p, e, get-cons u id s m, ids_where-found test all m u t p)

pub ids_where_exact :
    (test : TunnelEntry → Bool) (m : Map ℕ TunnelEntry) (u : ℕ)
    → contains u (ids_where test m m) ≡ passes test (get u m)
ids_where_exact test m u = elim (Option-cases (get u m)) [
  | inl e ↦ ground (arith, e, ids_where-passes test m m u)
  | inr (t, e) ↦ ground (arith, e, ids_where-passes test m m u, ids_where-found test m m u t)
]

get-remove_all {ℓ} :
    {V : Type ℓ} (ids : List ℕ) (m : Map ℕ V) (u : ℕ)
    → get u (remove_all ids m) ≡ (if contains u ids then none else get u m)
unfolding remove_all
get-remove_all [] m u = refl
get-remove_all (id ∷ ids) m u =
    ground (arith, get-remove id u (remove_all ids m), get-remove_all ids m u)

pub get-update_entry :
    (id u : ℕ) (f : TunnelEntry → TunnelEntry) (m : Map ℕ TunnelEntry)
    → get u (update_entry id f m)
      ≡ elim (get u m) [ none ↦ none | some t ↦ some (if id == u then f t else t) ]
get-update_entry id u f m = by_entry (get id m) refl
  where
    by_entry :
        (o : Option TunnelEntry)
        → get id m ≡ o
        → get u (update_entry id f m)
          ≡ elim (get u m) [ none ↦ none | some t ↦ some (if id == u then f t else t) ]
    by_entry none q = ground (arith, q)
    by_entry (some t) q = ground (arith, q, get-insert id u (f t) m)

get-clear_sigs :
    (ids : List ℕ) (m : Map ℕ TunnelEntry) (u : ℕ)
    → get u (clear_sigs ids m) ≡ elim (get u m) [
      | none ↦ none
      | some t ↦ some (if contains u ids then record t { route_sig = [] } else t)
    ]
unfolding clear_sigs
get-clear_sigs [] m u = ground arith
get-clear_sigs (id ∷ ids) m u = ground (
  arith,
  get-update_entry id u (λ t. record t { route_sig = [] }) (clear_sigs ids m),
  get-clear_sigs ids m u,
)

reconcile_abandoned_where :
    (now grace_secs : ℕ) (db : Db)
    → let after = reconcile_abandoned now grace_secs db in
      let gone : ℕ → Bool = λ u. passes (is_abandoned now grace_secs) (get u db.tunnels) in
      ((u : ℕ) → get u after.tunnels ≡ (if gone u then none else get u db.tunnels))
      × ((u : ℕ) → get u after.routes ≡ (if gone u then none else get u db.routes))
      × ((n : Bytes) (p : ℕ) (h : Holder)
          → (lookup n p after.pool ≡ some (some h))
            ↔ ((lookup n p db.pool ≡ some (some h)) × (gone h.tunnel_id ≡ false)))
unfolding reconcile_abandoned
reconcile_abandoned_where now grace_secs db = (
  λ u. ground (arith, get-remove_all stale db.tunnels u, exact u),
  λ u. ground (arith, get-remove_all stale db.routes u, exact u),
  λ n p h. ground (arith, lookup-free_where (any_of stale) n p db.pool, exact h.tunnel_id),
)
  where
    stale : List ℕ
    stale = ids_where (is_abandoned now grace_secs) db.tunnels db.tunnels

    exact : (u : ℕ) → contains u stale ≡ passes (is_abandoned now grace_secs) (get u db.tunnels)
    exact u = ids_where_exact (is_abandoned now grace_secs) db.tunnels u

-- When a tunnel was last heard of: by its agent, or else when it was made.
abbrev pub HeardAt : TunnelEntry → ℕ → Type 0
HeardAt t at = (t.last_seen ≡ some at) ⊎ ((t.last_seen ≡ none) × (t.created_at ≡ at))

-- The tunnel is there, belongs to no device, is online or offline, and was last heard of more than the
-- grace period ago.
abbrev pub IsForgotten : ℕ → ℕ → Db → ℕ → Type 0
IsForgotten now grace_secs db u =
    (t : TunnelEntry) × (at : ℕ) × (get u db.tunnels ≡ some t)
    × ((t.status ≡ online) ⊎ (t.status ≡ offline))
    × (t.device_id ≡ none)
    × HeardAt t at
    × (at + grace_secs < now)

runs_or_ran : (s : Status) → (waits_or_stopped s ≡ false) ↔ ((s ≡ online) ⊎ (s ≡ offline))
runs_or_ran awaiting_agent = ground arith
runs_or_ran stopped = ground arith
runs_or_ran online = (λ e. inl refl, λ e. refl)
runs_or_ran offline = (λ e. inr refl, λ e. refl)

heard_at : (t : TunnelEntry) → HeardAt t (or_created t.last_seen t.created_at)
heard_at t = elim (Option-cases t.last_seen) [
  | inl e ↦ inr (e, ground (arith, e))
  | inr (at, e) ↦ inl (ground (arith, e))
]

is_abandoned-IsForgotten :
    (now grace_secs : ℕ) (db : Db) (u : ℕ) (t : TunnelEntry)
    → get u db.tunnels ≡ some t
    → is_abandoned now grace_secs t ≡ true
    → IsForgotten now grace_secs db u
is_abandoned-IsForgotten now grace_secs db u t e a = elim (Option-cases t.device_id) [
  | inr (d, i) ↦ ground (arith, a, i)
  | inl i ↦ (
    t,
    or_created t.last_seen t.created_at,
    e,
    (runs_or_ran t.status).0 (ground (arith, a, Bool-cases (waits_or_stopped t.status))),
    i,
    heard_at t,
    ground (arith, a, i, Bool-cases (waits_or_stopped t.status)),
  )
]

is_abandoned_iff :
    (now grace_secs : ℕ) (db : Db) (u : ℕ)
    → (passes (is_abandoned now grace_secs) (get u db.tunnels) ≡ true)
      ↔ IsForgotten now grace_secs db u
is_abandoned_iff now grace_secs db u = (forgotten, abandoned)
  where
    forgotten :
        passes (is_abandoned now grace_secs) (get u db.tunnels) ≡ true
        → IsForgotten now grace_secs db u
    forgotten a = elim (Option-cases (get u db.tunnels)) [
      | inl e ↦ ground (arith, a, e)
      | inr (t, e) ↦ is_abandoned-IsForgotten now grace_secs db u t e (ground (arith, a, e))
    ]

    abandoned :
        IsForgotten now grace_secs db u
        → passes (is_abandoned now grace_secs) (get u db.tunnels) ≡ true
    abandoned (t, at, e, s, i, inl l, o) = ground (arith, e, (runs_or_ran t.status).1 s, i, l, o)
    abandoned (t, at, e, s, i, inr (l, c), o) =
        ground (arith, e, (runs_or_ran t.status).1 s, i, l, c, o)

-- The sweep of abandoned tunnels deletes exactly the tunnels without a device that are online or offline
-- and were last heard of longer than the grace period ago, with their routes; every other tunnel keeps
-- its entry and its routes, and exactly the ports that the deleted ones held are freed.
pub reconcile_abandoned_exact :
    (now grace_secs : ℕ) (db : Db)
    → let after = reconcile_abandoned now grace_secs db in
      ((u : ℕ)
        → IsForgotten now grace_secs db u
        → (get u after.tunnels ≡ none) × (get u after.routes ≡ none))
      × ((u : ℕ)
          → ¬ IsForgotten now grace_secs db u
          → (get u after.tunnels ≡ get u db.tunnels) × (get u after.routes ≡ get u db.routes))
      × ((n : Bytes) (p : ℕ) (h : Holder)
          → (lookup n p after.pool ≡ some (some h))
            ↔ ((lookup n p db.pool ≡ some (some h)) × ¬ IsForgotten now grace_secs db h.tunnel_id))
reconcile_abandoned_exact now grace_secs db =
    let (tunnels, routes, pool) = reconcile_abandoned_where now grace_secs db in
    (
      λ u f.
          let gone = (is_abandoned_iff now grace_secs db u).1 f in
          (ground (arith, tunnels u, gone), ground (arith, routes u, gone)),
      λ u f.
          let stays = passes_not u f in
          (ground (arith, tunnels u, stays), ground (arith, routes u, stays)),
      λ n p h. (
        λ l.
            let (held, stays) = (pool n p h).0 l in
            (
              held,
              λ f. ground (arith, stays, (is_abandoned_iff now grace_secs db h.tunnel_id).1 f),
            ),
        λ (held, f). (pool n p h).1 (held, passes_not h.tunnel_id f),
      ),
    )
  where
    passes_not :
        (u : ℕ)
        → ¬ IsForgotten now grace_secs db u
        → passes (is_abandoned now grace_secs) (get u db.tunnels) ≡ false
    passes_not u f = elim (Bool-cases (passes (is_abandoned now grace_secs) (get u db.tunnels))) [
      | inl y ↦ elim (f ((is_abandoned_iff now grace_secs db u).0 y)) [ ]
      | inr y ↦ y
    ]

-- The sweep of idle services parks exactly the services of devices that have routes and have carried
-- no traffic for longer than the period: it deletes their routes, frees exactly the ports that they
-- hold, empties their signature, and keeps every tunnel with everything else about it.
pub expire_idle_service_hosts_exact :
    (now idle_secs : ℕ) (db : Db)
    → let after = expire_idle_service_hosts now idle_secs db in
      let parked : ℕ → Bool = λ u. passes (is_idle now idle_secs) (get u db.tunnels) in
      ((u : ℕ)
        → get u after.tunnels ≡ elim (get u db.tunnels) [
          | none ↦ none
          | some t ↦ some (if is_idle now idle_secs t then record t { route_sig = [] } else t)
        ])
      × ((u : ℕ) → get u after.routes ≡ (if parked u then none else get u db.routes))
      × ((n : Bytes) (p : ℕ) (h : Holder)
          → (lookup n p after.pool ≡ some (some h))
            ↔ ((lookup n p db.pool ≡ some (some h)) × (parked h.tunnel_id ≡ false)))
unfolding expire_idle_service_hosts
expire_idle_service_hosts_exact now idle_secs db = (
  λ u. ground (arith, get-clear_sigs idle db.tunnels u, exact u),
  λ u. ground (arith, get-remove_all idle db.routes u, exact u),
  λ n p h. ground (arith, lookup-free_where (any_of idle) n p db.pool, exact h.tunnel_id),
)
  where
    idle : List ℕ
    idle = ids_where (is_idle now idle_secs) db.tunnels db.tunnels

    exact : (u : ℕ) → contains u idle ≡ passes (is_idle now idle_secs) (get u db.tunnels)
    exact u = ids_where_exact (is_idle now idle_secs) db.tunnels u
