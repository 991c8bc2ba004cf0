-- ===== src/Control/Failover/Moves.antt =====
-- A failover and the tunnels: which of them it moves, and where to.
use natforge_thesis.Prelude.{
  ℕ, ◌≡◌, ◌⊎◌, refl, subst, true, Bytes, beq, beq_iff, List, [], ◌∷◌, ◌++◌, Option, none, some, Map,
  All, get, nat_eq, bytes_eq, leb, ◌==◌, ==_iff, arith, Bool-cases, Option-cases, inl, inr, Result,
  ok, err, is_empty, if◌then◌else◌,
}
use natforge_thesis.Control.Ports.{TunnelEntry, Db, ReserveError, migrate_tunnel}
use natforge_thesis.Control.Tunnels.{with_entry}
use natforge_thesis.Control.Tunnels.Sweeps.{get-update_entry}
use natforge_thesis.Control.Site.{Node}
use natforge_thesis.Control.Failover.{
  Pending, is_dead, is_healthy, region_or_name, dead_rows, healthy_target, find_label, label_of,
  is_among, pending_at, pending_in, move_off, move_all, failover_stale_nodes,
}
use natforge_thesis.Control.Failover.Kept.{entry_on, migrate_tunnel-entry}

abbrev pub Stands : Bytes → Node → Map Bytes Node → Type 0
Stands id n nodes =
    (before : Map Bytes Node) × (after : Map Bytes Node) × (nodes ≡ before ++ (id, n) ∷ after)

Stands-later :
    (id : Bytes) (n : Node) (x : Bytes × Node) (nodes : Map Bytes Node)
    → Stands id n nodes
    → Stands id n (x ∷ nodes)
Stands-later id n x nodes (before, after, e) = (x ∷ before, after, ground (arith, e))

dead_rows-found :
    (now secs : ℕ) (nodes : Map Bytes Node) (from l : Bytes)
    → find_label from (dead_rows now secs nodes) ≡ some l
    → (m : Node) × Stands from m nodes × (is_dead now secs m ≡ true) × (l ≡ region_or_name m)
unfolding dead_rows find_label
dead_rows-found now secs [] from l e = ground (arith, e)
dead_rows-found now secs ((id, n) ∷ nodes) from l e = elim (Bool-cases (is_dead now secs n)) [
  | inr d ↦
      let (m, s, y, i) = dead_rows-found now secs nodes from l (ground (arith, e, d)) in
      (m, Stands-later from m (id, n) nodes s, y, i)
  | inl d ↦ elim (Bool-cases (beq id from)) [
    | inr b ↦
        let (m, s, y, i) = dead_rows-found now secs nodes from l (ground (arith, e, d, b)) in
        (m, Stands-later from m (id, n) nodes s, y, i)
    | inl b ↦
        let same : id ≡ from = (beq_iff id from).0 b in
        (n, ([], nodes, ground (arith, same)), d, ground (arith, e, d, b))
  ]
]

abbrev Healthy : ℕ → ℕ → Map Bytes Node → Node → Type 0
Healthy now secs nodes n = (id : Bytes) × Stands id n nodes × (is_healthy now secs n ≡ true)

Healthy-first :
    (now secs : ℕ) (id : Bytes) (k n : Node) (nodes : Map Bytes Node)
    → is_healthy now secs k ≡ true
    → k ≡ n
    → Healthy now secs ((id, k) ∷ nodes) n
Healthy-first now secs id k n nodes y same =
    subst (Healthy now secs ((id, k) ∷ nodes)) same (id, ([], nodes, refl), y)

healthy_target-found :
    (now secs : ℕ) (nodes : Map Bytes Node) (n : Node)
    → healthy_target now secs nodes ≡ some n
    → Healthy now secs nodes n
unfolding healthy_target
healthy_target-found now secs [] n e = ground (arith, e)
healthy_target-found now secs ((id, k) ∷ nodes) n e = elim (Bool-cases (is_healthy now secs k)) [
  | inr d ↦
      let (i, s, y) = healthy_target-found now secs nodes n (ground (arith, e, d)) in
      (i, Stands-later i n (id, k) nodes s, y)
  | inl d ↦ by_rest (healthy_target now secs nodes) refl d (healthy_target-found now secs nodes n)
]
  where
    by_rest :
        (o : Option Node)
        → healthy_target now secs nodes ≡ o
        → is_healthy now secs k ≡ true
        → (healthy_target now secs nodes ≡ some n → Healthy now secs nodes n)
        → Healthy now secs ((id, k) ∷ nodes) n
    by_rest none q d later = Healthy-first now secs id k n nodes d (ground (arith, e, q, d))
    by_rest (some m) q d later = elim (Bool-cases (leb k.created_at m.created_at)) [
      | inl l ↦ Healthy-first now secs id k n nodes d (ground (arith, e, q, d, l))
      | inr l ↦
          let (i, s, y) = later (ground (arith, e, q, d, l)) in
          (i, Stands-later i n (id, k) nodes s, y)
    ]

-- What a move makes of an entry.
abbrev pub landed : Node → Bytes → TunnelEntry → TunnelEntry
landed n label t = record (entry_on n.node_id n.public_host t) { failover_from = some label }

move_off-entry :
    (dead : List (Bytes × Bytes)) (n : Node) (p : Pending) (db db' : Db) (u : ℕ)
    → move_off dead n p db ≡ some db'
    → get u db'.tunnels ≡ elim (get u db.tunnels) [
      | none ↦ none
      | some s ↦ some (if p.tunnel_id == u then landed n (label_of p.from dead) s else s)
    ]
unfolding move_off
move_off-entry dead n p db db' u e =
    by_move (migrate_tunnel p.tunnel_id n.node_id n.public_host db) refl
  where
    by_move :
        (r : Result ReserveError Db)
        → migrate_tunnel p.tunnel_id n.node_id n.public_host db ≡ r
        → get u db'.tunnels ≡ elim (get u db.tunnels) [
          | none ↦ none
          | some s ↦ some (if p.tunnel_id == u then landed n (label_of p.from dead) s else s)
        ]
    by_move (err x) q = ground (arith, e, q)
    by_move (ok moved) q =
        let label : TunnelEntry → TunnelEntry =
          λ t. record t { failover_from = some (label_of p.from dead) } in
        let after : with_entry p.tunnel_id label moved ≡ db' = ground (arith, e, q) in
        let entry = migrate_tunnel-entry p.tunnel_id u n.node_id n.public_host db moved q in
        subst
          (λ d. get u d.tunnels ≡ elim (get u db.tunnels) [
            | none ↦ none
            | some s ↦ some (if p.tunnel_id == u then landed n (label_of p.from dead) s else s)
          ])
          after
          (elim (Option-cases (get u db.tunnels)) [
            | inl y ↦ ground (arith, y, entry, get-update_entry p.tunnel_id u label moved.tunnels)
            | inr (s, y) ↦
                ground (arith, y, entry, get-update_entry p.tunnel_id u label moved.tunnels)
          ])

-- A tunnel that is pending stands on the dead node that it is to be moved off.
abbrev IsPending : List (Bytes × Bytes) → Db → Pending → Type 0
IsPending dead db p =
    (t : TunnelEntry) × (get p.tunnel_id db.tunnels ≡ some t)
    × (t.node_id ≡ some p.from)
    × (is_among p.from dead ≡ true)

pending_at-IsPending :
    (dead : List (Bytes × Bytes)) (db : Db) (id : ℕ) (p : Pending)
    → pending_at dead id (get id db.tunnels) ≡ some p
    → IsPending dead db p
unfolding find_label
pending_at-IsPending dead db id p e = elim (Option-cases (get id db.tunnels)) [
  | inl q ↦ ground (arith, e, q)
  | inr (t, q) ↦ elim (Option-cases t.node_id) [
    | inl i ↦ ground (arith, e, q, i)
    | inr (from, i) ↦ elim (Bool-cases (is_among from dead)) [
      | inr y ↦ ground (arith, e, q, i, y)
      | inl y ↦
          let is : record { tunnel_id = id; subdomain = t.subdomain; from = from } ≡ p =
            ground (arith, e, q, i, y) in
          subst (IsPending dead db) is (t, q, i, y)
    ]
  ]
]

pending_in-IsPending :
    (dead : List (Bytes × Bytes)) (db : Db) (m : Map ℕ TunnelEntry)
    → All (IsPending dead db) (pending_in dead db.tunnels m)
unfolding pending_in
pending_in-IsPending dead db [] = tt
pending_in-IsPending dead db ((id, t) ∷ m) =
    elim (Option-cases (pending_at dead id (get id db.tunnels))) [
      | inl q ↦ rw (pending_in, q) (pending_in-IsPending dead db m)
      | inr (p, q) ↦
          rw (pending_in, q) (pending_at-IsPending dead db id p q, pending_in-IsPending dead db m)
    ]

-- An entry that is as before, or that was on a dead node and has landed.
abbrev Follows : List (Bytes × Bytes) → Node → TunnelEntry → TunnelEntry → Type 0
Follows dead n t t' =
    (t' ≡ t)
    ⊎ ((from : Bytes) × (t.node_id ≡ some from)
        × (is_among from dead ≡ true)
        × (t' ≡ landed n (label_of from dead) t))

abbrev AllFollow : List (Bytes × Bytes) → Node → Db → Db → Type 0
AllFollow dead n db db' =
    (u : ℕ) (t : TunnelEntry)
    → get u db.tunnels ≡ some t
    → (t' : TunnelEntry) × (get u db'.tunnels ≡ some t') × Follows dead n t t'

move_off-AllFollow :
    (dead : List (Bytes × Bytes)) (n : Node) (p : Pending) (db mid db' : Db)
    → IsPending dead db p
    → AllFollow dead n db mid
    → move_off dead n p mid ≡ some db'
    → AllFollow dead n db db'
move_off-AllFollow dead n p db mid db' (s, at, on, d) follow e u t q =
    let (t', r, f) = follow u t q in
    let entry = move_off-entry dead n p mid db' u e in
    elim (Bool-cases (p.tunnel_id == u)) [
      | inr y ↦ (t', ground (arith, entry, r, y), f)
      | inl y ↦
          let same : p.tunnel_id ≡ u = (==_iff p.tunnel_id u).0 y in
          let its : s ≡ t = ground (arith, q, subst (λ v. get v db.tunnels ≡ some s) same at) in
          let there : t.node_id ≡ some p.from = subst (λ x. x.node_id ≡ some p.from) its on in
          (
            landed n (label_of p.from dead) t',
            ground (arith, entry, r, y),
            inr (
              p.from,
              there,
              d,
              elim f [ inl k ↦ ground (arith, k) | inr (from, i, a, k) ↦ ground (arith, k) ],
            ),
          )
    ]

move_all-AllFollow :
    (dead : List (Bytes × Bytes)) (n : Node) (ps : List Pending) (db mid : Db)
    → All (IsPending dead db) ps
    → AllFollow dead n db mid
    → AllFollow dead n db (move_all dead n ps mid).1
unfolding move_all
move_all-AllFollow dead n [] db mid a follow = follow
move_all-AllFollow dead n (p ∷ ps) db mid a follow =
    by_move (move_off dead n p mid) refl (λ db'. move_all-AllFollow dead n ps db db' a.1)
  where
    by_move :
        (o : Option Db)
        → move_off dead n p mid ≡ o
        → ((db' : Db) → AllFollow dead n db db' → AllFollow dead n db (move_all dead n ps db').1)
        → AllFollow dead n db (move_all dead n (p ∷ ps) mid).1
    by_move none q later = rw (move_all, q) (later mid follow)
    by_move (some db') q later =
        rw (move_all, q) (later db' (move_off-AllFollow dead n p db mid db' a.0 follow q))

-- A tunnel that a failover has moved: it stood on a node that is in service and silent, it stands on one
-- that is in service and was seen, with that node's public host and the old node's label, and the rest of
-- its entry is as before but for the custom domain, which is gone.
abbrev pub IsMoved : ℕ → ℕ → Map Bytes Node → TunnelEntry → TunnelEntry → Type 0
IsMoved now secs nodes t t' =
    (old : Bytes) × (m : Node) × (new : Bytes) × (n : Node) × (t.node_id ≡ some old)
    × Stands old m nodes
    × (is_dead now secs m ≡ true)
    × Stands new n nodes
    × (is_healthy now secs n ≡ true)
    × (t' ≡ landed n (region_or_name m) t)

-- A failover deletes no tunnel, and it either leaves a tunnel's entry as it is or moves the tunnel from
-- a dead node to a healthy one, with the old node's label; nothing else of the entry changes than its
-- node, its public host and its custom domain, which is cleared.
pub failover_stale_nodes_moves :
    (now stale_secs : ℕ) (nodes : Map Bytes Node) (db : Db) (u : ℕ) (t : TunnelEntry)
    → get u db.tunnels ≡ some t
    → (t' : TunnelEntry) × (get u (failover_stale_nodes now stale_secs nodes db).1.tunnels
        ≡ some t')
      × ((t' ≡ t) ⊎ IsMoved now stale_secs nodes t t')
unfolding failover_stale_nodes
failover_stale_nodes_moves now stale_secs nodes db u t e = elim (Bool-cases (is_empty dead)) [
  | inl y ↦ (t, rw (failover_stale_nodes, y) e, inl refl)
  | inr y ↦ elim (Option-cases (healthy_target now stale_secs nodes)) [
    | inl q ↦ (t, rw (failover_stale_nodes, y, q) e, inl refl)
    | inr (n, q) ↦
        let (t', r, f) =
          move_all-AllFollow dead n (pending_in dead db.tunnels db.tunnels) db db
            (pending_in-IsPending dead db db.tunnels) (λ v s i. (s, i, inl refl)) u t e in
        (t', rw (failover_stale_nodes, y, q) r, moved n q t' f)
  ]
]
  where
    dead : List (Bytes × Bytes)
    dead = dead_rows now stale_secs nodes

    moved :
        (n : Node)
        → healthy_target now stale_secs nodes ≡ some n
        → (t' : TunnelEntry) → Follows dead n t t'
        → (t' ≡ t) ⊎ IsMoved now stale_secs nodes t t'
    moved n q t' (inl k) = inl k
    moved n q t' (inr (from, on, d, k)) = elim (Option-cases (find_label from dead)) [
      | inl i ↦ ground (arith, d, i)
      | inr (l, i) ↦
          let (m, s, y, same) = dead_rows-found now stale_secs nodes from l i in
          let (new, there, h) = healthy_target-found now stale_secs nodes n q in
          inr (from, m, new, n, on, s, y, there, h, ground (arith, k, i, same))
    ]
