-- ===== src/Examples/Reserve.antt =====
-- Reservations, sweeps and statuses of natforge-backend at concrete inputs.
use natforge_thesis.Prelude.{
  ℕ, ◌≡◌, ◌↔◌, ◌≤◌, max, refl, true, Bytes, codes, beq, List, [], ◌∷◌, none, some, get, insert,
  remove, nat_eq, bytes_eq, ok,
}
use natforge_thesis.Proto.Route.{udp, as_str, is_host_routed}
use natforge_thesis.Node.Text.{trim, trim_start, skip_white, trim_end, white_width}
use natforge_thesis.Control.Names.{valid_subdomain}
use natforge_thesis.Control.Policy.{RequestedRoute}
use natforge_thesis.Control.Expand.{RouteRow}
use natforge_thesis.Control.Ports.{
  Holder, stopped, online, Pool, Db, lookup, load_routes, least_free, claim_port,
}
use natforge_thesis.Control.Ports.Migrate.{Backed}
use natforge_thesis.Control.Ports.Services.{route_signature}
use natforge_thesis.Control.Reserve.{
  ReservedTunnel, Request, Given, find_same, count_owned, has_subdomain, is_reserved_name,
  choose_subdomain, insert_routes, fresh_reservation, added, insert_new, reserve_tunnel,
}
use natforge_thesis.Control.Reserve.Fresh.{
  reserve_tunnel_limit, reserve_tunnel-Backed, reserve_tunnel_again,
}
use natforge_thesis.Control.Tunnels.{reconcile_abandoned}
use natforge_thesis.Control.Tunnels.Sweeps.{IsForgotten, reconcile_abandoned_exact}
use natforge_thesis.Control.Tunnels.Life.{
  tunnel_up, tunnel_down, stop, apply, apply_all, status_of, apply_all_paused,
}
use natforge_thesis.Examples.Control.{held, entry, pool, db}

abbrev pub voice_only : List RequestedRoute
voice_only = record { mode = udp; local_port = 9000; label = none } ∷ []

abbrev pub given : Given
given = record {
  id = 7;
  now = 100;
  drawn = codes "cat" ∷ [];
  reserved = codes "www" ∷ [];
  to_lowercase = λ b. b;
}

abbrev request : Request
request = record {
  owner_id = 3;
  node_id = codes "eu";
  public_host = codes "n.io";
  requested = voice_only;
  custom_subdomain = some (codes "puppy");
  max_tunnels = 2;
  allow_reuse = true;
  device_id = none;
}

abbrev row : RouteRow
row = record {
  route_id = 1;
  kind = codes "udp";
  local_port = 9000;
  public_port = some 20001;
  label = none;
  srv_service = none;
}

abbrev claimed : Pool
claimed =
    (codes "eu", (20001, held 7 1) ∷ (20000, held 5 1) ∷ (20002, held 6 1) ∷ [])
    ∷ (codes "us", (30000, none) ∷ [])
    ∷ []

abbrev made : ReservedTunnel
made = fresh_reservation request 7 (codes "puppy") (row ∷ [])

abbrev after : Db
after = added given request (codes "puppy") (row ∷ []) claimed db

reserved : reserve_tunnel given request db ≡ ok (made, after)
unfolding reserve_tunnel insert_new find_same count_owned choose_subdomain has_subdomain
    is_reserved_name insert_routes route_signature valid_subdomain is_host_routed claim_port
    least_free as_str trim trim_start skip_white trim_end white_width get insert remove beq
reserved = refl

reserve_tunnel_limit_example : count_owned 3 after.tunnels ≤ max (count_owned 3 db.tunnels) 2
reserve_tunnel_limit_example = reserve_tunnel_limit given request db made after reserved

reserve_tunnel-Backed_example :
    Backed claimed (codes "eu") 7 (row ∷ [])
    × (load_routes 7 after ≡ row ∷ [])
    × ((n : Bytes) (p : ℕ) (h : Holder)
        → lookup n p pool ≡ some (some h)
        → lookup n p claimed ≡ some (some h))
reserve_tunnel-Backed_example = reserve_tunnel-Backed given request db made after reserved refl

abbrev later : Given
later = record given { id = 8; now = 900 }

reserve_tunnel_again_example :
    reserve_tunnel later (record request { allow_reuse = true }) after
    ≡ ok (record made { reused = true }, after)
reserve_tunnel_again_example = reserve_tunnel_again given later request db made after reserved

reconcile_abandoned_exact_example :
    let after = reconcile_abandoned 1000 300 db in
    ((u : ℕ)
      → IsForgotten 1000 300 db u
      → (get u after.tunnels ≡ none) × (get u after.routes ≡ none))
    × ((u : ℕ)
        → ¬ IsForgotten 1000 300 db u
        → (get u after.tunnels ≡ get u db.tunnels) × (get u after.routes ≡ get u db.routes))
    × ((n : Bytes) (p : ℕ) (h : Holder)
        → (lookup n p after.pool ≡ some (some h))
          ↔ ((lookup n p db.pool ≡ some (some h)) × ¬ IsForgotten 1000 300 db h.tunnel_id))
reconcile_abandoned_exact_example = reconcile_abandoned_exact 1000 300 db

abbrev paused : Db
paused = record db { tunnels = (5, record entry { status = stopped }) ∷ [] }

apply_all_paused_example :
    (status_of 5 (apply_all (tunnel_down 40 ∷ stop 50 ∷ []) 5 paused) ≡ some stopped)
    × ((now : ℕ) (node : Bytes)
        → status_of 5
            (apply (tunnel_up now node) 5 (apply_all (tunnel_down 40 ∷ stop 50 ∷ []) 5 paused))
          ≡ some online)
unfolding get
apply_all_paused_example = apply_all_paused (tunnel_down 40 ∷ stop 50 ∷ []) 5 paused refl refl
