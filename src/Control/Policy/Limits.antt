-- ===== src/Control/Policy/Limits.antt =====
-- What `check_route_policy` of natforge-backend/src/handlers/tunnels.rs lets through.
use natforge_thesis.Prelude.{
  ℕ, ◌≡◌, ◌↔◌, ◌⊎◌, ◌+◌, ◌≤◌, true, false, List, [], ◌∷◌, ◌++◌, Result, ok, err, arith, refl,
}
use natforge_thesis.Proto.Route.{RouteMode, http, https, tcp, udp, both, is_host_routed}
use natforge_thesis.Proto.Claims.{contains}
use natforge_thesis.Control.Policy.{
  RequestedRoute, PolicyError, Counts, count_route, tally, check_route_policy,
}

-- How many routes a mode stands for: `both` is one TCP and one UDP route.
abbrev pub one_http : RouteMode → ℕ
one_http http = 1
one_http _ = 0

abbrev pub one_https : RouteMode → ℕ
one_https https = 1
one_https _ = 0

abbrev pub one_tcp : RouteMode → ℕ
one_tcp tcp = 1
one_tcp both = 1
one_tcp _ = 0

abbrev pub one_udp : RouteMode → ℕ
one_udp udp = 1
one_udp both = 1
one_udp _ = 0

abbrev pub total : (RouteMode → ℕ) → List RequestedRoute → ℕ
total f [] = 0
total f (r ∷ rs) = f r.mode + total f rs

-- The dedicated routes have local ports that differ from each other and from `ports`.
abbrev pub OwnPorts : List ℕ → List RequestedRoute → Type 0
OwnPorts ports [] = Unit {0}
OwnPorts ports (r ∷ rs) =
    ((is_host_routed r.mode ≡ true) × OwnPorts ports rs)
    ⊎ ((is_host_routed r.mode ≡ false)
        × (contains r.local_port ports ≡ false)
        × OwnPorts (ports ++ r.local_port ∷ []) rs)

abbrev plus : Counts → List RequestedRoute → Counts
plus n rs = record {
  http = n.http + total one_http rs;
  https = n.https + total one_https rs;
  tcp = n.tcp + total one_tcp rs;
  udp = n.udp + total one_udp rs;
}

plus-count_route :
    (m : RouteMode) (n : Counts) (r : RequestedRoute) (rs : List RequestedRoute)
    → r.mode ≡ m
    → plus (count_route m n) rs ≡ plus n (r ∷ rs)
unfolding count_route
plus-count_route http n r rs e = grind arith
plus-count_route https n r rs e = grind arith
plus-count_route tcp n r rs e = grind arith
plus-count_route udp n r rs e = grind arith
plus-count_route both n r rs e = grind arith

tally_iff :
    (ports : List ℕ) (n m : Counts) (rs : List RequestedRoute)
    → (tally ports n rs ≡ ok m) ↔ (OwnPorts ports rs × (m ≡ plus n rs))
unfolding tally
tally_iff ports n m [] = ground arith
tally_iff ports n m (r ∷ rs) = ground (
  arith,
  plus-count_route r.mode n r rs refl,
  tally_iff ports (count_route r.mode n) m rs,
  tally_iff (ports ++ r.local_port ∷ []) (count_route r.mode n) m rs,
)

-- `check_route_policy` accepts exactly the requests with at most one HTTP and one HTTPS route, at
-- most two TCP and two UDP routes (a `both` route counting as one of each), and local ports of the
-- dedicated routes that are all different.
pub check_route_policy_iff :
    (rs : List RequestedRoute)
    → (check_route_policy rs ≡ ok tt) ↔ (
        OwnPorts [] rs
        × (total one_http rs ≤ 1)
        × (total one_https rs ≤ 1)
        × (total one_tcp rs ≤ 2)
        × (total one_udp rs ≤ 2))
unfolding check_route_policy
check_route_policy_iff rs = (
  λ e. sound (tally [] none_yet rs) refl e,
  λ (p, a, b, c, d).
      ground (arith, (tally_iff [] none_yet (plus none_yet rs) rs).1 (p, refl), a, b, c, d),
)
  where
    none_yet : Counts
    none_yet = record { http = 0; https = 0; tcp = 0; udp = 0 }

    sound :
        (t : Result PolicyError Counts)
        → tally [] none_yet rs ≡ t
        → check_route_policy rs ≡ ok tt
        → OwnPorts [] rs
          × (total one_http rs ≤ 1)
          × (total one_https rs ≤ 1)
          × (total one_tcp rs ≤ 2)
          × (total one_udp rs ≤ 2)
    sound (err x) q e = ground (arith, q, e)
    sound (ok n) q e = ground (arith, q, e, tally_iff [] none_yet n rs)
