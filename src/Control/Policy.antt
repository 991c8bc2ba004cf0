-- ===== src/Control/Policy.antt =====
-- `parse_kind`, `transport_bits` and `check_route_policy` of
-- natforge-backend/src/handlers/tunnels.rs. A message is a constructor with the number that it names.
pub mod Limits
use natforge_thesis.Prelude.{
  ℕ, ◌+◌, Bool, true, false, not, ◌&&◌, ◌||◌, Bytes, codes, beq, List, [], ◌∷◌, ◌++◌, Option, ltb,
  if◌then◌else◌, Result, ok, err,
}
use natforge_thesis.Proto.Route.{RouteMode, http, https, tcp, udp, both, is_host_routed}
use natforge_thesis.Proto.Claims.{contains}

pub record RequestedRoute : Type 0 where
  pub mode : RouteMode
  pub local_port : ℕ
  pub label : Option Bytes

unfoldable pub parse_kind : Bytes → RouteMode
parse_kind kind =
    if beq kind (codes "http")
    then http
    else if beq kind (codes "https")
    then https
    else if beq kind (codes "udp")
    then udp
    else if beq kind (codes "both")
    then both
    else tcp

-- Bit 0 is TCP and bit 1 is UDP.
unfoldable pub transport_bits : Bytes → Bool × Bool
transport_bits kind =
    if beq kind (codes "tcp")
    then (true, false)
    else if beq kind (codes "udp")
    then (false, true)
    else if beq kind (codes "both")
    then (true, true)
    else (false, false)

-- `transport_bits(k) & transport_bits(l) != 0`.
unfoldable pub do_clash : Bytes → Bytes → Bool
unfolding transport_bits
do_clash k l =
    let (kt, ku) = transport_bits k in let (lt, lu) = transport_bits l in (kt && lt) || (ku && lu)

pub data PolicyError : Type 0 where
  port_reused : ℕ → PolicyError
  too_many : PolicyError

pub record Counts : Type 0 where
  pub http : ℕ
  pub https : ℕ
  pub tcp : ℕ
  pub udp : ℕ

unfoldable pub count_route : RouteMode → Counts → Counts
count_route http n = record n { http = n.http + 1 }
count_route https n = record n { https = n.https + 1 }
count_route tcp n = record n { tcp = n.tcp + 1 }
count_route udp n = record n { udp = n.udp + 1 }
count_route both n = record n { tcp = n.tcp + 1; udp = n.udp + 1 }

-- The loop over the routes; `ports` is `dedicated_ports`.
unfoldable pub tally : List ℕ → Counts → List RequestedRoute → Result PolicyError Counts
unfolding count_route
tally ports n [] = ok n
tally ports n (r ∷ rs) =
    let hosted = tally ports (count_route r.mode n) rs in
    let dedicated = tally (ports ++ r.local_port ∷ []) (count_route r.mode n) rs in
    if is_host_routed r.mode
    then hosted
    else if contains r.local_port ports
    then err (port_reused r.local_port)
    else dedicated

unfoldable pub check_route_policy : List RequestedRoute → Result PolicyError (Unit {0})
unfolding tally
check_route_policy rs = elim (tally [] (record { http = 0; https = 0; tcp = 0; udp = 0 }) rs) [
  | err e ↦ err e
  | ok n ↦
      if ltb 1 n.http || ltb 1 n.https || ltb 2 n.tcp || ltb 2 n.udp then err too_many else ok tt
]
