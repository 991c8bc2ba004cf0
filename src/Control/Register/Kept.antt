-- ===== src/Control/Register/Kept.antt =====
-- A heartbeat and the pool.
use natforge_thesis.Prelude.{
  ℕ, zero, suc, ◌+◌, ◌-◌, ◌≡◌, refl, Bool, true, false, ◌&&◌, Bytes, beq, beq_iff, none, some, Map,
  get, insert, get-insert, nat_eq, bytes_eq, leb, ltb, ◌==◌, ==_iff, subst, arith, Bool-cases,
  Option-cases, inl, inr, Option, if◌then◌else◌,
}
use natforge_thesis.Control.Ports.{Holder, Ports, Pool, ports_on, lookup}
use natforge_thesis.Control.Site.{Node}
use natforge_thesis.Control.Register.{Registration, upsert, add_ports, register_node}

-- An entry that is there stays, and one that is not is a free port if it is in the range.
abbrev pub added_at : Bool → Option (Option Holder) → Option (Option Holder)
added_at is_in none = if is_in then some none else none
added_at is_in (some held) = some held

abbrev pub in_range : ℕ → ℕ → ℕ → Bool
in_range low high p = leb low p && leb p high

get-add_ports :
    (port count : ℕ) (ports : Ports) (p : ℕ)
    → get p (add_ports port count ports)
      ≡ added_at (leb port p && ltb p (port + count)) (get p ports)
unfolding add_ports
get-add_ports port zero ports p = elim (Option-cases (get p ports)) [
  | inl e ↦ ground (arith, e)
  | inr (h, e) ↦ ground (arith, e)
]
get-add_ports port (suc count) ports p = elim (Option-cases (get port ports)) [
  | inl e ↦ elim (Option-cases (get p ports)) [
    | inl f ↦ ground (
      arith,
      e,
      f,
      get-add_ports (port + 1) count (insert port none ports) p,
      get-insert port p none ports,
    )
    | inr (h, f) ↦ ground (
      arith,
      e,
      f,
      get-add_ports (port + 1) count (insert port none ports) p,
      get-insert port p none ports,
    )
  ]
  | inr (g, e) ↦ elim (Option-cases (get p ports)) [
    | inl f ↦ elim (Bool-cases (port == p)) [
      | inr d ↦ ground (arith, e, f, d, get-add_ports (port + 1) count ports p)
      | inl d ↦
          let same : port ≡ p = (==_iff port p).0 d in
          let there : get p ports ≡ some g = subst (λ q. get q ports ≡ some g) same e in
          ground (arith, there, f)
    ]
    | inr (h, f) ↦ ground (arith, e, f, get-add_ports (port + 1) count ports p)
  ]
]

range_is : (low high p : ℕ) → (leb low p && ltb p (low + (high + 1 - low))) ≡ in_range low high p
range_is low high p = ground arith

lookup-insert :
    (node n : Bytes) (p : ℕ) (ports : Ports) (pool : Pool)
    → lookup n p (insert node ports pool) ≡ (if beq node n then get p ports else lookup n p pool)
lookup-insert node n p ports pool = ground (arith, get-insert node n ports pool)

register_node-own :
    (now : ℕ) (r : Registration) (nodes : Map Bytes Node) (pool : Pool) (p : ℕ)
    → lookup r.node_id p (register_node now r nodes pool).1
      ≡ added_at (in_range r.port_min r.port_max p) (lookup r.node_id p pool)
unfolding register_node
register_node-own now r nodes pool p =
    let count = r.port_max + 1 - r.port_min in
    let ports = ports_on r.node_id pool in
    ground (
      arith,
      lookup-insert r.node_id r.node_id p (add_ports r.port_min count ports) pool,
      beq_iff r.node_id r.node_id,
      get-add_ports r.port_min count ports p,
      range_is r.port_min r.port_max p,
    )

register_node-lookup :
    (now : ℕ) (r : Registration) (nodes : Map Bytes Node) (pool : Pool) (n : Bytes) (p : ℕ)
    → lookup n p (register_node now r nodes pool).1
      ≡ added_at (beq r.node_id n && in_range r.port_min r.port_max p) (lookup n p pool)
unfolding register_node
register_node-lookup now r nodes pool n p = by_node (beq r.node_id n) refl (lookup n p pool) refl
  where
    count : ℕ
    count = r.port_max + 1 - r.port_min

    ports : Ports
    ports = add_ports r.port_min count (ports_on r.node_id pool)

    by_node :
        (b : Bool)
        → beq r.node_id n ≡ b
        → (o : Option (Option Holder)) → lookup n p pool ≡ o
        → lookup n p (insert r.node_id ports pool)
          ≡ added_at (b && in_range r.port_min r.port_max p) o
    by_node false d none q = ground (arith, lookup-insert r.node_id n p ports pool, d, q)
    by_node false d (some h) q = ground (arith, lookup-insert r.node_id n p ports pool, d, q)
    by_node true d o q =
        let same : r.node_id ≡ n = (beq_iff r.node_id n).0 d in
        let own = register_node-own now r nodes pool p in
        subst
          (λ x.
            lookup n p (insert r.node_id ports pool)
            ≡ added_at (in_range r.port_min r.port_max p) x)
          q
          (subst
            (λ v.
              lookup v p (insert r.node_id ports pool)
              ≡ added_at (in_range r.port_min r.port_max p) (lookup v p pool))
            same own)

-- A heartbeat adds the ports of the node's range that are not in the pool as free ones, and changes no
-- port that is there, held or free, on this node or another; it changes no other node's entry, and an
-- operator's switch, the name, the region and the age of the node's own entry stay.
pub register_node_exact :
    (now : ℕ) (r : Registration) (nodes : Map Bytes Node) (pool : Pool)
    → ((n : Bytes) (p : ℕ)
        → lookup n p (register_node now r nodes pool).1
          ≡ added_at (beq r.node_id n && in_range r.port_min r.port_max p) (lookup n p pool))
      × ((n : Bytes)
          → get n (register_node now r nodes pool).0
            ≡ (if beq r.node_id n then some (upsert now r (get r.node_id nodes)) else get n nodes))
      × ((m : Node)
          → get r.node_id nodes ≡ some m
          → (x : Node) × (get r.node_id (register_node now r nodes pool).0 ≡ some x)
            × (x.active ≡ m.active)
            × (x.name ≡ m.name)
            × (x.region ≡ m.region)
            × (x.created_at ≡ m.created_at))
unfolding register_node
register_node_exact now r nodes pool = (
  register_node-lookup now r nodes pool,
  λ n. get-insert r.node_id n (upsert now r (get r.node_id nodes)) nodes,
  λ m e. (
    upsert now r (some m),
    ground (
      arith,
      e,
      get-insert r.node_id r.node_id (upsert now r (get r.node_id nodes)) nodes,
      beq_iff r.node_id r.node_id,
    ),
    refl,
    refl,
    refl,
    refl,
  ),
)
