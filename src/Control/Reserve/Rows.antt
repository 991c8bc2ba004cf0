-- ===== src/Control/Reserve/Rows.antt =====
-- The rows that `reserve_tunnel` of natforge-backend/src/db/queries.rs inserts.
use natforge_thesis.Prelude.{
  ℕ, ◌≡◌, ◌⊎◌, ◌+◌, ◌≤◌, ◌<◌, refl, sym, subst, ◌∙◌, true, false, Bytes, List, [], ◌∷◌, none, some,
  All, beq, length, arith, Bool-cases, Option-cases, inl, inr, ok,
}
use natforge_thesis.Proto.Route.{RouteMode, http, https, tcp, udp, both, is_host_routed, as_str}
use natforge_thesis.Proto.Claims.{contains}
use natforge_thesis.Control.Policy.{RequestedRoute, parse_kind}
use natforge_thesis.Control.Expand.{RouteRow, both_udp_route_offset}
use natforge_thesis.Control.Expand.Accepted.{IsRow, Apart}
use natforge_thesis.Control.Ports.{Pool, claim_port}
use natforge_thesis.Control.Ports.Services.{new_row}
use natforge_thesis.Control.Ports.Services.Kept.{Placed, same_pool, claimed_pool, Backed-later}
use natforge_thesis.Control.Reserve.{insert_routes}

-- One turn of the loop that succeeds: a row without a port, or one with the port claimed for it.
pub insert_routes_cases :
    (t : ℕ) (node : Bytes) (i : ℕ) (q : RequestedRoute) (qs : List RequestedRoute) (pool : Pool)
    (rows : List RouteRow) (pool' : Pool)
    → insert_routes t node i (q ∷ qs) pool ≡ ok (rows, pool')
    → ((later : List RouteRow) × (is_host_routed q.mode ≡ true)
        × (insert_routes t node (i + 1) qs pool ≡ ok (later, pool'))
        × (rows ≡ new_row q (i + 1) none ∷ later))
      ⊎ ((c : ℕ × Pool) × (later : List RouteRow) × (claim_port node t (i + 1) pool ≡ some c)
          × (insert_routes t node (i + 1) qs c.1 ≡ ok (later, pool'))
          × (rows ≡ new_row q (i + 1) (some c.0) ∷ later))
unfolding insert_routes
insert_routes_cases t node i q qs pool rows pool' e = elim (Bool-cases (is_host_routed q.mode)) [
  | inl y ↦ inl (ground (arith, e, y))
  | inr y ↦ elim (Option-cases (claim_port node t (i + 1) pool)) [
    | inl f ↦ ground (arith, e, y, f)
    | inr (c, f) ↦ let (later, g, r) = claimed c y f in inr (c, later, f, g, r)
  ]
]
  where
    claimed :
        (c : ℕ × Pool)
        → is_host_routed q.mode ≡ false
        → claim_port node t (i + 1) pool ≡ some c
        → (later : List RouteRow) × (insert_routes t node (i + 1) qs c.1 ≡ ok (later, pool'))
          × (rows ≡ new_row q (i + 1) (some c.0) ∷ later)
    claimed c y f = ground (arith, e, y, f)

-- A row in front of rows placed later.
Placed-first :
    (t : ℕ) (node : Bytes) (pool mid end : Pool) (r : RouteRow) (later rows : List RouteRow)
    → Placed t node pool (r ∷ []) mid
    → Placed t node mid later end
    → rows ≡ r ∷ later
    → Placed t node pool rows end
Placed-first t node pool mid end r later rows one rest e =
    subst (λ x. Placed t node pool x end) (sym e)
      (record {
        keeps = λ n p h l. rest.keeps n p h (one.keeps n p h l);
        backed = (
          (Backed-later mid end node t (r ∷ []) (λ p h. rest.keeps node p h) one.backed).0,
          rest.backed,
        );
      })

pub insert_routes-Placed :
    (t : ℕ) (node : Bytes) (i : ℕ) (qs : List RequestedRoute) (pool : Pool) (rows : List RouteRow)
    (pool' : Pool)
    → insert_routes t node i qs pool ≡ ok (rows, pool')
    → Placed t node pool rows pool'
unfolding insert_routes
insert_routes-Placed t node i [] pool rows pool' e =
    let none_new : [] ≡ rows = ground (arith, e) in
    let same : pool ≡ pool' = ground (arith, e) in
    subst (λ x. Placed t node pool x pool') none_new
      (subst (Placed t node pool []) same (same_pool t node pool [] tt))
insert_routes-Placed t node i (q ∷ qs) pool rows pool' e =
    elim (insert_routes_cases t node i q qs pool rows pool' e) [
      | inl (later, y, f, r) ↦
          Placed-first t node pool pool pool' (new_row q (i + 1) none) later rows
            (same_pool t node pool _ (λ p w. ground (arith, w), tt))
            (insert_routes-Placed t node (i + 1) qs pool later pool' f) r
      | inr (c, later, g, f, r) ↦
          Placed-first t node pool c.1 pool' (new_row q (i + 1) (some c.0)) later rows
            (claimed_pool t (i + 1) node pool c q g)
            (insert_routes-Placed t node (i + 1) qs c.1 later pool' f) r
    ]

is_host_routed-parse_kind :
    (m : RouteMode) → is_host_routed (parse_kind (as_str m)) ≡ is_host_routed m
unfolding is_host_routed parse_kind as_str beq
is_host_routed-parse_kind http = refl
is_host_routed-parse_kind https = refl
is_host_routed-parse_kind tcp = refl
is_host_routed-parse_kind udp = refl
is_host_routed-parse_kind both = refl

-- The ids are below `i`, and so not yet used.
abbrev Below : ℕ → List ℕ → Type 0
Below i = All (λ k. k ≤ i)

Below-later : (i : ℕ) (ks : List ℕ) → Below i ks → Below (i + 1) ks
Below-later i [] b = tt
Below-later i (k ∷ ks) b = (ground (arith, b.0), Below-later i ks b.1)

Below-contains : (i : ℕ) (ks : List ℕ) → Below i ks → contains (i + 1) ks ≡ false
Below-contains i [] b = refl
Below-contains i (k ∷ ks) b = ground (arith, b.0, Below-contains i ks b.1)

pub insert_routes-IsRow :
    (t : ℕ) (node : Bytes) (i : ℕ) (qs : List RequestedRoute) (pool : Pool) (rows : List RouteRow)
    (pool' : Pool) (seen : List ℕ)
    → insert_routes t node i qs pool ≡ ok (rows, pool')
    → i + length qs < both_udp_route_offset
    → Below i seen
    → All IsRow rows × Apart seen rows
unfolding insert_routes
insert_routes-IsRow t node i [] pool rows pool' seen e b s =
    let none_new : [] ≡ rows = ground (arith, e) in
    subst (λ x. All IsRow x × Apart seen x) none_new (tt, tt)
insert_routes-IsRow t node i (q ∷ qs) pool rows pool' seen e b s =
    elim (insert_routes_cases t node i q qs pool rows pool' e) [
      | inl (later, y, f, r) ↦
          let (w, a) =
            insert_routes-IsRow t node (i + 1) qs pool later pool' ((i + 1) ∷ seen) f (omega arith)
              (omega arith, Below-later i seen s) in
          subst (λ x. All IsRow x × Apart seen x) (sym r)
            (
              ((omega arith, inl (is_host_routed-parse_kind q.mode ∙ y)), w),
              (Below-contains i seen s, a),
            )
      | inr (c, later, g, f, r) ↦
          let (w, a) =
            insert_routes-IsRow t node (i + 1) qs c.1 later pool' ((i + 1) ∷ seen) f (omega arith)
              (omega arith, Below-later i seen s) in
          subst (λ x. All IsRow x × Apart seen x) (sym r)
            (((omega arith, inr refl), w), (Below-contains i seen s, a))
    ]
