-- ===== src/Control/Ports/Services/Kept.antt =====
-- `set_service_routes` of natforge-backend/src/db/queries.rs and the pool.
use natforge_thesis.Prelude.{
  ℕ, ◌≡◌, ◌≢◌, ◌⊎◌, ◌+◌, refl, subst, sym, false, Bytes, List, [], ◌∷◌, ◌++◌, Option, none, some,
  All, nat_eq, bytes_eq, beq_iff, arith, Bool-cases, inl, inr, ok, and_then-eq-ok,
}
use natforge_thesis.Proto.Route.{is_host_routed}
use natforge_thesis.Control.Policy.{RequestedRoute}
use natforge_thesis.Control.Expand.{RouteRow}
use natforge_thesis.Control.Ports.{Holder, Pool, lookup, claim_port, free_where, of_route}
use natforge_thesis.Control.Ports.Claims.{claim_port_exact, lookup-free_where}
use natforge_thesis.Control.Ports.Migrate.{Backed, claim_port-keeps}
use natforge_thesis.Control.Ports.Services.{
  is_wanted, is_there, drop_rows, new_row, place, add_rows,
}

-- The ids of the rows differ.
abbrev pub Distinct : List RouteRow → Type 0
Distinct [] = Unit {0}
Distinct (r ∷ rs) = All (λ r'. r'.route_id ≢ r.route_id) rs × Distinct rs

free_where-keeps :
    (t k : ℕ) (n : Bytes) (q : ℕ) (h : Holder) (pool : Pool)
    → of_route t k h ≡ false
    → lookup n q pool ≡ some (some h)
    → lookup n q (free_where (of_route t k) pool) ≡ some (some h)
free_where-keeps t k n q h pool d l =
    ground (arith, lookup-free_where (of_route t k) n q pool, l, d)

pub drop_rows-keeps :
    (t : ℕ) (want : List RequestedRoute) (rs : List RouteRow) (pool : Pool) (n : Bytes) (q : ℕ)
    (h : Holder)
    → All (λ r. of_route t r.route_id h ≡ false) rs
    → lookup n q pool ≡ some (some h)
    → lookup n q (drop_rows t want rs pool).1 ≡ some (some h)
unfolding drop_rows
drop_rows-keeps t want [] pool n q h a l = l
drop_rows-keeps t want (r ∷ rs) pool n q h a l = elim (Bool-cases (is_wanted want r)) [
  | inl y ↦ rw y (drop_rows-keeps t want rs pool n q h a.1 l)
  | inr y ↦ rw y (
      drop_rows-keeps t want rs (free_where (of_route t r.route_id) pool) n q h a.1
        (free_where-keeps t r.route_id n q h pool a.0 l))
]

Backed-append :
    (pool : Pool) (node : Bytes) (t : ℕ) (xs ys : List RouteRow)
    → Backed pool node t xs
    → Backed pool node t ys
    → Backed pool node t (xs ++ ys)
Backed-append pool node t [] ys a b = b
Backed-append pool node t (x ∷ xs) ys a b = (a.0, Backed-append pool node t xs ys a.1 b)

pub Backed-later :
    (pool pool' : Pool) (node : Bytes) (t : ℕ) (rs : List RouteRow)
    → ((q : ℕ) (h : Holder)
        → lookup node q pool ≡ some (some h)
        → lookup node q pool' ≡ some (some h))
    → Backed pool node t rs
    → Backed pool' node t rs
Backed-later pool pool' node t [] k b = tt
Backed-later pool pool' node t (r ∷ rs) k b =
    (λ p e. k p _ (b.0 p e), Backed-later pool pool' node t rs k b.1)

-- What one turn does to the pool.
pub record Placed (t : ℕ) (node : Bytes) (pool : Pool) (new : List RouteRow) (pool' : Pool)
    : Type 0 where
  pub keeps :
      (n : Bytes) (q : ℕ) (h : Holder)
      → lookup n q pool ≡ some (some h)
      → lookup n q pool' ≡ some (some h)
  pub backed : Backed pool' node t new

place_cases :
    (t : ℕ) (node : Bytes) (existing : List RouteRow) (q : RequestedRoute) (last : ℕ) (pool : Pool)
    (last' : ℕ) (new : List RouteRow) (pool' : Pool)
    → place t node existing q last pool ≡ ok (last', new, pool')
    → ((new ≡ []) × (pool' ≡ pool))
      ⊎ ((new ≡ new_row q (last + 1) none ∷ []) × (pool' ≡ pool))
      ⊎ ((c : ℕ × Pool) × (claim_port node t (last + 1) pool ≡ some c)
          × (new ≡ new_row q (last + 1) (some c.0) ∷ [])
          × (pool' ≡ c.1))
unfolding place
place_cases t node existing q last pool last' new pool' e =
    by_claim (claim_port node t (last + 1) pool) refl
  where
    by_claim :
        (o : Option (ℕ × Pool))
        → claim_port node t (last + 1) pool ≡ o
        → ((new ≡ []) × (pool' ≡ pool))
          ⊎ ((new ≡ new_row q (last + 1) none ∷ []) × (pool' ≡ pool))
          ⊎ ((c : ℕ × Pool) × (claim_port node t (last + 1) pool ≡ some c)
              × (new ≡ new_row q (last + 1) (some c.0) ∷ [])
              × (pool' ≡ c.1))
    by_claim none f = ground (arith, e, f)
    by_claim (some c) f = elim (Bool-cases (is_there existing q)) [
      | inl y ↦ inl (ground (arith, e, f, y))
      | inr y ↦ elim (Bool-cases (is_host_routed q.mode)) [
        | inl z ↦ inr (inl (ground (arith, e, f, y, z)))
        | inr z ↦ inr (inr (c, f, ground (arith, e, f, y, z), ground (arith, e, f, y, z)))
      ]
    ]

pub same_pool :
    (t : ℕ) (node : Bytes) (pool : Pool) (new : List RouteRow)
    → Backed pool node t new
    → Placed t node pool new pool
same_pool t node pool new b = record { keeps = λ n q h l. l; backed = b }

pub claimed_pool :
    (t k : ℕ) (node : Bytes) (pool : Pool) (c : ℕ × Pool) (q : RequestedRoute)
    → claim_port node t k pool ≡ some c
    → Placed t node pool (new_row q k (some c.0) ∷ []) c.1
claimed_pool t k node pool c q f =
    let (free, least, after) = claim_port_exact node t k pool c.0 c.1 f in
    let given : lookup node c.0 c.1 ≡ some (some (record { tunnel_id = t; route_id = k })) =
      ground (arith, after node c.0, beq_iff node node) in
    record {
      keeps = λ n p h l. claim_port-keeps node t k pool c n p h f l;
      backed = (λ p w. ground (arith, given, w), tt);
    }

place-Placed :
    (t : ℕ) (node : Bytes) (existing : List RouteRow) (q : RequestedRoute) (last : ℕ) (pool : Pool)
    (last' : ℕ) (new : List RouteRow) (pool' : Pool)
    → place t node existing q last pool ≡ ok (last', new, pool')
    → Placed t node pool new pool'
place-Placed t node existing q last pool last' new pool' e =
    elim (place_cases t node existing q last pool last' new pool' e) [
      | inl (i, j) ↦
          subst (λ x. Placed t node pool x pool') (sym i)
            (subst (Placed t node pool []) (sym j) (same_pool t node pool [] tt))
      | inr (inl (i, j)) ↦
          let hosted = new_row q (last + 1) none ∷ [] in
          subst (λ x. Placed t node pool x pool') (sym i)
            (subst (Placed t node pool hosted) (sym j)
              (same_pool t node pool hosted (λ p w. ground (arith, w), tt)))
      | inr (inr (c, f, i, j)) ↦
          let dedicated = new_row q (last + 1) (some c.0) ∷ [] in
          subst (λ x. Placed t node pool x pool') (sym i)
            (subst (Placed t node pool dedicated) (sym j)
              (claimed_pool t (last + 1) node pool c q f))
    ]

pub add_rows-Placed :
    (t : ℕ) (node : Bytes) (existing : List RouteRow) (qs : List RequestedRoute) (last : ℕ)
    (pool : Pool) (rows : List RouteRow) (pool' : Pool)
    → add_rows t node existing qs last pool ≡ ok (rows, pool')
    → Placed t node pool rows pool'
unfolding add_rows
add_rows-Placed t node existing [] last pool rows pool' e =
    let none_new : [] ≡ rows = ground (arith, e) in
    let same : pool ≡ pool' = ground (arith, e) in
    subst (λ x. Placed t node pool x pool') none_new
      (subst (Placed t node pool []) same (same_pool t node pool [] tt))
add_rows-Placed t node existing (q ∷ qs) last pool rows pool' e =
    let ((last', new, mid), first, e') = and_then-eq-ok (place t node existing q last pool) _ e in
    let ((more, end), later, e'') = and_then-eq-ok (add_rows t node existing qs last' mid) _ e' in
    let one = place-Placed t node existing q last pool last' new mid first in
    let rest = add_rows-Placed t node existing qs last' mid more end later in
    let rows_are : new ++ more ≡ rows = ground (arith, e'') in
    let pool_is : end ≡ pool' = ground (arith, e'') in
    subst (λ x. Placed t node pool x pool') rows_are
      (subst (Placed t node pool (new ++ more)) pool_is (record {
        keeps = λ n p h l. rest.keeps n p h (one.keeps n p h l);
        backed =
            Backed-append end node t new more
              (Backed-later mid end node t new (λ p h. rest.keeps node p h) one.backed) rest.backed;
      }))

pub other_apart :
    (t : ℕ) (h : Holder) (rs : List RouteRow)
    → h.tunnel_id ≢ t
    → All (λ r. of_route t r.route_id h ≡ false) rs
other_apart t h [] d = tt
other_apart t h (r ∷ rs) d = (ground (arith, d), other_apart t h rs d)
