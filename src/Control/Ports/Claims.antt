-- ===== src/Control/Ports/Claims.antt =====
-- Claiming and freeing the pool's ports.
use natforge_thesis.Prelude.{
  ℕ, ◌≡◌, ◌≢◌, ◌≤◌, refl, ap, subst, sym, ◌∙◌, Bool, ◌&&◌, Bytes, [], ◌∷◌, Option, none, some, get,
  insert, get-insert, get-nil, get-cons, nat_eq, bytes_eq, beq, beq_iff, ◌==◌, if◌then◌else◌, arith,
  Bool-cases, inl, inr,
}
use natforge_thesis.Control.Ports.{
  Holder, Ports, Pool, ports_on, lookup, least_free, claim_port, clear, free_ports, free_where,
}

least_free-free :
    (ports more : Ports) (p : ℕ) → least_free ports more ≡ some p → get p ports ≡ some none
unfolding least_free
least_free-free ports [] p e = ground (arith, e)
least_free-free ports ((q, held) ∷ more) p e =
    step (least_free ports more) refl (least_free-free ports more p)
  where
    step :
        (o : Option ℕ)
        → least_free ports more ≡ o
        → (least_free ports more ≡ some p → get p ports ≡ some none)
        → get p ports ≡ some none
    step none i later = ground (arith, e, i)
    step (some r) i later = ground (arith, e, i, later)

least_free-none :
    (ports more : Ports) (q : ℕ) (v : Option Holder)
    → least_free ports more ≡ none
    → get q more ≡ some v
    → get q ports ≢ some none
unfolding least_free
least_free-none ports [] q v e g f = ground (arith, g, get-nil {V = Option Holder} q)
least_free-none ports ((r, held) ∷ more) q v e g f =
    step (least_free ports more) refl (least_free-none ports more q v)
  where
    step :
        (o : Option ℕ)
        → least_free ports more ≡ o
        → (least_free ports more ≡ none → get q more ≡ some v → get q ports ≢ some none)
        → ⊥
    step none i later = ground (arith, e, i, g, f, get-cons q r held more, later i)
    step (some p') i later = ground (arith, e, i, g, f, get-cons q r held more)

least_free-least :
    (ports more : Ports) (p q : ℕ) (v : Option Holder)
    → least_free ports more ≡ some p
    → get q more ≡ some v
    → get q ports ≡ some none
    → p ≤ q
unfolding least_free
least_free-least ports [] p q v e g f = ground (arith, e)
least_free-least ports ((r, held) ∷ more) p q v e g f =
    step (least_free ports more) refl (λ p'. least_free-least ports more p' q v)
  where
    step :
        (o : Option ℕ)
        → least_free ports more ≡ o
        → ((p' : ℕ)
            → least_free ports more ≡ some p'
            → get q more ≡ some v
            → get q ports ≡ some none
            → p' ≤ q)
        → p ≤ q
    step none i later =
        ground (arith, e, i, g, f, get-cons q r held more, least_free-none ports more q v i)
    step (some p') i later = ground (arith, e, i, g, f, get-cons q r held more, later p')

lookup-insert :
    (node n : Bytes) (p q : ℕ) (h : Option Holder) (pool : Pool)
    → lookup n q (insert node (insert p h (ports_on node pool)) pool)
      ≡ (if beq node n && p == q then some h else lookup n q pool)
lookup-insert node n p q h pool = ground (
  arith,
  get-insert node n (insert p h (ports_on node pool)) pool,
  get-insert p q h (ports_on node pool),
  beq_iff node n,
)

get-free_ports :
    (test : Holder → Bool) (p : ℕ) (ports : Ports)
    → get p (free_ports test ports)
      ≡ elim (get p ports) [ none ↦ none | some held ↦ some (clear test held) ]
unfolding free_ports
get-free_ports test p [] = ground (arith, get-nil {V = Option Holder} p)
get-free_ports test p ((q, held) ∷ ports) = ground (
  arith,
  get-cons p q held ports,
  get-cons p q (clear test held) (free_ports test ports),
  get-free_ports test p ports,
)

-- Freeing clears every entry whose holder passes the test, and touches no other.
pub lookup-free_where :
    (test : Holder → Bool) (n : Bytes) (p : ℕ) (pool : Pool)
    → lookup n p (free_where test pool)
      ≡ elim (lookup n p pool) [ none ↦ none | some held ↦ some (clear test held) ]
unfolding free_where
lookup-free_where test n p [] = ground (arith, get-nil {V = Ports} n, get-nil {V = Option Holder} p)
lookup-free_where test n p ((node, ports) ∷ pool) = elim (Bool-cases (beq node n)) [
  | inl h ↦ ground (
    arith,
    h,
    get-cons n node ports pool,
    get-cons n node (free_ports test ports) (free_where test pool),
    get-free_ports test p ports,
  )
  | inr h ↦ ground (
    arith,
    h,
    get-cons n node ports pool,
    get-cons n node (free_ports test ports) (free_where test pool),
    lookup-free_where test n p pool,
  )
]

-- A claim takes the smallest port of the node that is in the pool and free, gives it to the route,
-- and leaves every other entry of every node as it was.
pub claim_port_exact :
    (node : Bytes) (t k : ℕ) (pool : Pool) (p : ℕ) (pool' : Pool)
    → claim_port node t k pool ≡ some (p, pool')
    → (lookup node p pool ≡ some none)
      × ((q : ℕ) → lookup node q pool ≡ some none → p ≤ q)
      × ((n : Bytes) (q : ℕ)
          → lookup n q pool' ≡ (
              if beq node n && p == q
              then some (some (record { tunnel_id = t; route_id = k }))
              else lookup n q pool))
unfolding claim_port
claim_port_exact node t k pool p pool' e = taken (least_free ports ports) refl
  where
    ports : Ports
    ports = ports_on node pool

    held : Option Holder
    held = some (record { tunnel_id = t; route_id = k })

    taken :
        (o : Option ℕ)
        → least_free ports ports ≡ o
        → (lookup node p pool ≡ some none)
          × ((q : ℕ) → lookup node q pool ≡ some none → p ≤ q)
          × ((n : Bytes) (q : ℕ)
              → lookup n q pool' ≡ (if beq node n && p == q then some held else lookup n q pool))
    taken none i = ground (arith, e, i)
    taken (some p') i =
        let is_p : p' ≡ p = ground (arith, e, i) in
        let is_pool : insert node (insert p' held ports) pool ≡ pool' = ground (arith, e, i) in
        (
          least_free-free ports ports p (i ∙ ap some is_p),
          λ q f. least_free-least ports ports p q none (i ∙ ap some is_p) f f,
          λ n q.
              subst
                (λ x. lookup n q x ≡ (if beq node n && p == q then some held else lookup n q pool))
                (ap (λ x. insert node (insert x held ports) pool) (sym is_p) ∙ is_pool)
                (lookup-insert node n p q held pool),
        )

-- A claim fails only if no port of the node is in the pool and free.
pub claim_port_full :
    (node : Bytes) (t k : ℕ) (pool : Pool) (q : ℕ)
    → claim_port node t k pool ≡ none
    → lookup node q pool ≢ some none
unfolding claim_port
claim_port_full node t k pool q e f =
    least_free-none (ports_on node pool) (ports_on node pool) q none (full (least_free _ _) refl) f
      f
  where
    full :
        (o : Option ℕ)
        → least_free (ports_on node pool) (ports_on node pool) ≡ o
        → least_free (ports_on node pool) (ports_on node pool) ≡ none
    full none i = i
    full (some p) i = ground (arith, e, i)
