-- ===== src/Control/Reserve/Fresh.antt =====
-- A reservation of natforge-backend/src/db/queries.rs that succeeds: which tunnel it gives, what it
-- holds in the pool, the limit of its owner, and what a second one gives.
use natforge_thesis.Prelude.{
  ℕ, ◌≡◌, ◌⊎◌, ◌+◌, ◌≤◌, ◌<◌, max, refl, sym, subst, true, false, Bytes, List, [], ◌∷◌, Option,
  none, some, Map, insert, remove, get-insert, nat_eq, bytes_eq, beq_iff, arith, inl, inr, ok,
  and_then-eq-ok,
}
use natforge_thesis.Control.Ports.{Holder, Pool, TunnelEntry, Db, lookup, load_routes}
use natforge_thesis.Control.Ports.Migrate.{Backed}
use natforge_thesis.Control.Ports.Services.{route_signature}
use natforge_thesis.Control.Expand.{RouteRow}
use natforge_thesis.Control.Reserve.{
  ReservedTunnel, Request, Given, find_same, count_owned, new_entry, choose_subdomain,
  insert_routes, reused_tunnel, fresh_reservation, added, insert_new, reserve_tunnel,
}
use natforge_thesis.Control.Reserve.Rows.{insert_routes-Placed}

-- A new tunnel: the name that was chosen, the rows and the pool after them.
pub record IsNew (g : Given) (q : Request) (db : Db) (r : ReservedTunnel) (db' : Db) : Type 0 where
  pub cand : Bytes
  pub rows : List RouteRow
  pub pool : Pool
  pub unknown : find_same q (route_signature q.requested) db.tunnels ≡ none
  pub below : count_owned q.owner_id db.tunnels < q.max_tunnels
  pub chosen :
      choose_subdomain g.to_lowercase g.reserved g.drawn db.tunnels q.custom_subdomain ≡ ok cand
  pub inserted : insert_routes g.id q.node_id 0 q.requested db.pool ≡ ok (rows, pool)
  pub result : r ≡ fresh_reservation q g.id cand rows
  pub after : db' ≡ added g q cand rows pool db

insert_new-IsNew :
    (g : Given) (q : Request) (db : Db) (r : ReservedTunnel) (db' : Db)
    → find_same q (route_signature q.requested) db.tunnels ≡ none
    → count_owned q.owner_id db.tunnels < q.max_tunnels
    → insert_new g q db ≡ ok (r, db')
    → IsNew g q db r db'
unfolding insert_new
insert_new-IsNew g q db r db' n b e =
    let (cand, c, e') =
      and_then-eq-ok
        (choose_subdomain g.to_lowercase g.reserved g.drawn db.tunnels q.custom_subdomain) _ e in
    let ((rows, pool), i, e'') =
      and_then-eq-ok (insert_routes g.id q.node_id 0 q.requested db.pool) _ e' in
    record {
      cand = cand;
      rows = rows;
      pool = pool;
      unknown = n;
      below = b;
      chosen = c;
      inserted = i;
      result = ground (arith, e'');
      after = ground (arith, e'');
    }

pub reserve_tunnel_cases :
    (g : Given) (q : Request) (db : Db) (r : ReservedTunnel) (db' : Db)
    → reserve_tunnel g q db ≡ ok (r, db')
    → ((s : ℕ × TunnelEntry) × (find_same q (route_signature q.requested) db.tunnels ≡ some s)
        × (r ≡ reused_tunnel q s.0 s.1 db)
        × (db' ≡ db))
      ⊎ IsNew g q db r db'
unfolding reserve_tunnel
reserve_tunnel_cases g q db r db' e =
    by_same (find_same q (route_signature q.requested) db.tunnels) refl
  where
    by_same :
        (o : Option (ℕ × TunnelEntry))
        → find_same q (route_signature q.requested) db.tunnels ≡ o
        → ((s : ℕ × TunnelEntry) × (o ≡ some s) × (r ≡ reused_tunnel q s.0 s.1 db) × (db' ≡ db))
          ⊎ IsNew g q db r db'
    by_same (some s) f = inl (s, refl, ground (arith, e, f), ground (arith, e, f))
    by_same none f =
        inr (insert_new-IsNew g q db r db' f (ground (arith, e, f)) (ground (arith, e, f)))

count_owned-remove :
    (owner id : ℕ) (m : Map ℕ TunnelEntry) → count_owned owner (remove id m) ≤ count_owned owner m
unfolding count_owned remove
count_owned-remove owner id [] = omega arith
count_owned-remove owner id ((k, t) ∷ m) = ground (arith, count_owned-remove owner id m)

count_owned-insert :
    (owner id : ℕ) (t : TunnelEntry) (m : Map ℕ TunnelEntry)
    → count_owned owner (insert id t m) ≤ count_owned owner m + 1
unfolding count_owned insert
count_owned-insert owner id t m = ground (arith, count_owned-remove owner id m)

-- A reservation that runs alone never takes its owner beyond the owner's limit: afterwards the owner has at most as
-- many tunnels as before or as the limit allows, whichever is more.
pub reserve_tunnel_limit :
    (g : Given) (q : Request) (db : Db) (r : ReservedTunnel) (db' : Db)
    → reserve_tunnel g q db ≡ ok (r, db')
    → count_owned q.owner_id db'.tunnels ≤ max (count_owned q.owner_id db.tunnels) q.max_tunnels
reserve_tunnel_limit g q db r db' e = elim (reserve_tunnel_cases g q db r db' e) [
  | inl (s, f, i, same) ↦
      subst
        (λ x.
          count_owned q.owner_id x.tunnels ≤ max (count_owned q.owner_id db.tunnels) q.max_tunnels)
        (sym same) (omega arith)
  | inr n ↦
      subst
        (λ x.
          count_owned q.owner_id x.tunnels ≤ max (count_owned q.owner_id db.tunnels) q.max_tunnels)
        (sym n.after)
        (ground (
          arith,
          n.below,
          count_owned-insert q.owner_id g.id
              (new_entry g.now q (route_signature q.requested) n.cand) db.tunnels,
        ))
]

-- Every port that a new reservation's rows name is in the node's pool and held for that row, the
-- stored rows are those of the answer, and no port of any other tunnel or row is taken.
pub reserve_tunnel-Backed :
    (g : Given) (q : Request) (db : Db) (r : ReservedTunnel) (db' : Db)
    → reserve_tunnel g q db ≡ ok (r, db')
    → r.reused ≡ false
    → Backed db'.pool q.node_id r.tunnel_id r.routes
      × (load_routes r.tunnel_id db' ≡ r.routes)
      × ((n : Bytes) (p : ℕ) (h : Holder)
          → lookup n p db.pool ≡ some (some h)
          → lookup n p db'.pool ≡ some (some h))
reserve_tunnel-Backed g q db r db' e f = elim (reserve_tunnel_cases g q db r db' e) [
  | inl (s, i, same, j) ↦ ground (arith, f, same)
  | inr n ↦
      let placed =
        insert_routes-Placed g.id q.node_id 0 q.requested db.pool n.rows n.pool n.inserted in
      subst
        (λ x.
          Backed x.pool q.node_id r.tunnel_id r.routes
          × (load_routes r.tunnel_id x ≡ r.routes)
          × ((m : Bytes) (p : ℕ) (h : Holder)
              → lookup m p db.pool ≡ some (some h)
              → lookup m p x.pool ≡ some (some h)))
        (sym n.after)
        (subst
          (λ x.
            Backed n.pool q.node_id x.tunnel_id x.routes
            × (load_routes x.tunnel_id (added g q n.cand n.rows n.pool db) ≡ x.routes)
            × ((m : Bytes) (p : ℕ) (h : Holder)
                → lookup m p db.pool ≡ some (some h)
                → lookup m p n.pool ≡ some (some h)))
          (sym n.result)
          (
            placed.backed,
            ground (arith, get-insert g.id g.id n.rows db.routes),
            λ m p h l. placed.keeps m p h l,
          ))
]

find_same-new :
    (q : Request) (id now : ℕ) (sig cand : Bytes) (m : Map ℕ TunnelEntry)
    → find_same q sig (insert id (new_entry now q sig cand) m) ≡ some (id, new_entry now q sig cand)
unfolding find_same insert
find_same-new q id now sig cand m = ground (arith, beq_iff sig sig)

abbrev again : Request → Request
again q = record q { allow_reuse = true }

find_same-again :
    (q : Request) (sig : Bytes) (m : Map ℕ TunnelEntry)
    → find_same (again q) sig m ≡ find_same q sig m
unfolding find_same
find_same-again q sig [] = refl
find_same-again q sig ((id, t) ∷ m) = ground (arith, find_same-again q sig m)

reused_again :
    (g : Given) (q : Request) (db : Db) (s : ℕ × TunnelEntry)
    → find_same q (route_signature q.requested) db.tunnels ≡ some s
    → reserve_tunnel g (again q) db ≡ ok (reused_tunnel q s.0 s.1 db, db)
unfolding reserve_tunnel
reused_again g q db s f =
    ground (arith, f, find_same-again q (route_signature q.requested) db.tunnels)

-- The same request once more, with reuse allowed, gives the same tunnel with its name, its node, its
-- rows and its ports, whatever id, time and names are drawn, and changes nothing.
pub reserve_tunnel_again :
    (g g' : Given) (q : Request) (db : Db) (r : ReservedTunnel) (db' : Db)
    → reserve_tunnel g q db ≡ ok (r, db')
    → reserve_tunnel g' (record q { allow_reuse = true }) db' ≡ ok (record r { reused = true }, db')
reserve_tunnel_again g g' q db r db' e = elim (reserve_tunnel_cases g q db r db' e) [
  | inl (s, f, i, same) ↦
      subst (λ x. reserve_tunnel g' (again q) x ≡ ok (record r { reused = true }, x)) (sym same)
        (subst (λ x. reserve_tunnel g' (again q) db ≡ ok (record x { reused = true }, db)) (sym i)
          (reused_again g' q db s f))
  | inr n ↦
      let end = added g q n.cand n.rows n.pool db in
      subst (λ x. reserve_tunnel g' (again q) x ≡ ok (record r { reused = true }, x)) (sym n.after)
        (subst (λ x. reserve_tunnel g' (again q) end ≡ ok (record x { reused = true }, end))
          (sym n.result)
          (ground (
            arith,
            reused_again g' q end _
                (find_same-new q g.id g.now (route_signature q.requested) n.cand db.tunnels),
            get-insert g.id g.id n.rows db.routes,
          )))
]
