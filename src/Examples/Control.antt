-- ===== src/Examples/Control.antt =====
-- The control plane natforge-backend at concrete inputs.
use natforge_thesis.Prelude.{
  ℕ, ◌≡◌, ◌≢◌, ◌↔◌, ◌≤◌, refl, Bytes, codes, List, [], ◌∷◌, Option, none, some, All, beq, get,
  insert, remove, nat_eq, bytes_eq, if◌then◌else◌, arith, Result, ok, err, inl, inr,
}
use natforge_thesis.Proto.Route.{tcp, udp, both}
use natforge_thesis.Proto.Claims.{TunnelClaims}
use natforge_thesis.Node.Text.{subdomain_of}
use natforge_thesis.Control.Policy.{RequestedRoute, check_route_policy}
use natforge_thesis.Control.Policy.Limits.{
  one_http, one_https, one_tcp, one_udp, total, OwnPorts, check_route_policy_iff,
}
use natforge_thesis.Control.Names.{valid_subdomain}
use natforge_thesis.Control.Names.Labels.{valid_subdomain-routed}
use natforge_thesis.Control.Expand.{
  RouteRow, TunnelRow, expand_routes, tunnel_claims, build_reservation, verify_tunnel_token,
}
use natforge_thesis.Control.Expand.Accepted.{build_reservation-verified}
use natforge_thesis.Control.Ports.{
  Holder, Pool, online, TunnelEntry, Db, lookup, load_routes, least_free, claim_port, free_ports,
  free_where, is_plain, move_rows, migrate_tunnel,
}
use natforge_thesis.Control.Ports.Migrate.{Backed, migrate_tunnel-Backed, migrate_tunnel_both}

abbrev pub asked : List RequestedRoute
asked =
    record { mode = tcp; local_port = 25565; label = none }
    ∷ record { mode = udp; local_port = 9000; label = some (codes " voice ") }
    ∷ []

check_route_policy_iff_example : (check_route_policy asked ≡ ok tt) ↔ (
    OwnPorts [] asked
    × (total one_http asked ≤ 1)
    × (total one_https asked ≤ 1)
    × (total one_tcp asked ≤ 2)
    × (total one_udp asked ≤ 2))
check_route_policy_iff_example = check_route_policy_iff asked

valid_subdomain-routed_example : subdomain_of (codes "duck-a1.natforge.com") ≡ codes "duck-a1"
unfolding valid_subdomain
valid_subdomain-routed_example =
    valid_subdomain-routed (codes "duck-a1") (codes "natforge.com") refl

abbrev pub game : RouteRow
game = record {
  route_id = 1;
  kind = codes "tcp";
  local_port = 25565;
  public_port = some 20000;
  label = none;
  srv_service = none;
}

abbrev voice : RouteRow
voice = record {
  route_id = 2;
  kind = codes "both";
  local_port = 9987;
  public_port = some 20001;
  label = none;
  srv_service = none;
}

abbrev duck : TunnelRow
duck = record { id = 5; subdomain = codes "duck"; public_host = codes "n.io" }

abbrev minted : TunnelClaims
minted =
    tunnel_claims 100 3 5 (codes "duck")
      (expand_routes (game ∷ voice ∷ []) (codes "duck") (codes "n.io")).0 none

abbrev pub encode : TunnelClaims → Bytes
encode c = c.subdomain

abbrev decode : Bytes → Result Bytes TunnelClaims
decode token = if beq token (codes "duck") then ok minted else err (codes "InvalidToken")

build_reservation-verified_example :
    (c : TunnelClaims) × (verify_tunnel_token decode
        (build_reservation encode 100 3 duck (game ∷ voice ∷ []) none).tunnel_token
      ≡ ok c)
    × All (λ r. r.mode ≢ both) c.routes
    × (c.tunnel_id ≡ 5)
    × (c.sub ≡ 3)
    × (c.subdomain ≡ codes "duck")
    × (c.custom_domain ≡ none)
unfolding beq tunnel_claims
build_reservation-verified_example =
    build_reservation-verified encode decode 100 3 duck (game ∷ voice ∷ []) none refl
      ((omega arith, inr refl), ((omega arith, inr refl), tt)) (refl, (refl, tt))

abbrev pub held : ℕ → ℕ → Option Holder
held tunnel_id route_id = some (record { tunnel_id = tunnel_id; route_id = route_id })

abbrev pub pool : Pool
pool =
    (codes "eu", (20000, held 5 1) ∷ (20001, none) ∷ (20002, held 6 1) ∷ [])
    ∷ (codes "us", (30000, none) ∷ [])
    ∷ []

abbrev pub entry : TunnelEntry
entry = record {
  subdomain = codes "duck";
  name = none;
  status = online;
  created_at = 10;
  last_seen = some 90;
  last_active_at = none;
  owner_id = 3;
  device_id = none;
  route_sig = codes "tcp:25565";
  node_id = some (codes "eu");
  public_host = codes "n.io";
  custom_domain = none;
  failover_from = none;
}

abbrev pub db : Db
db = record { pool = pool; routes = (5, game ∷ []) ∷ []; tunnels = (5, entry) ∷ [] }

abbrev claimed : Pool
claimed =
    (codes "eu", (20001, held 5 2) ∷ (20000, held 5 1) ∷ (20002, held 6 1) ∷ [])
    ∷ (codes "us", (30000, none) ∷ [])
    ∷ []

abbrev voice_row : RouteRow
voice_row = record {
  route_id = 2;
  kind = codes "udp";
  local_port = 9000;
  public_port = some 20001;
  label = some (codes "voice");
  srv_service = none;
}

abbrev edited : Db
edited = record {
  pool = claimed;
  routes = (5, game ∷ voice_row ∷ []) ∷ [];
  tunnels = (5, record entry { route_sig = codes "tcp:25565,udp:9000" }) ∷ [];
}

abbrev moved : Db
moved = record {
  pool =
      (codes "us", (30000, held 5 1) ∷ [])
      ∷ (codes "eu", (20000, none) ∷ (20001, none) ∷ (20002, held 6 1) ∷ [])
      ∷ [];
  routes = (5, record game { public_port = some 30000 } ∷ []) ∷ [];
  tunnels = (5, record entry { node_id = some (codes "us"); public_host = codes "us.n.io" }) ∷ [];
}

move : migrate_tunnel 5 (codes "us") (codes "us.n.io") db ≡ ok moved
unfolding migrate_tunnel move_rows is_plain claim_port least_free free_where free_ports get insert
    remove beq
move = refl

migrate_tunnel-Backed_example :
    Backed moved.pool (codes "us") 5 (load_routes 5 moved)
    × ((n : Bytes) (q : ℕ) (h : Holder)
        → h.tunnel_id ≢ 5
        → lookup n q pool ≡ some (some h)
        → lookup n q moved.pool ≡ some (some h))
unfolding get is_plain beq
migrate_tunnel-Backed_example =
    migrate_tunnel-Backed 5 (codes "us") (codes "us.n.io") db moved (inl refl, tt) move

abbrev both_db : Db
both_db = record {
  pool = (codes "eu", (20001, held 5 2) ∷ []) ∷ [];
  routes = (5, voice ∷ []) ∷ [];
  tunnels = (5, entry) ∷ [];
}

migrate_tunnel_both_example :
    (db' : Db) × (migrate_tunnel 5 (codes "us") (codes "us.n.io") both_db ≡ ok db')
    × (load_routes 5 db' ≡ load_routes 5 both_db)
    × ((n : Bytes) (q : ℕ) (h : Holder) → lookup n q db'.pool ≡ some (some h) → h.tunnel_id ≢ 5)
unfolding get
migrate_tunnel_both_example =
    migrate_tunnel_both 5 (codes "us") (codes "us.n.io") both_db (refl, tt)

abbrev stranger : Holder
stranger = record { tunnel_id = 6; route_id = 1 }
