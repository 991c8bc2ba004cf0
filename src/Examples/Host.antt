-- ===== src/Examples/Host.antt =====
-- The agent at concrete inputs.
use natforge_thesis.Prelude.{
  ℕ, ◌≡◌, refl, Bool, true, false, Bytes, codes, beq, [], ◌∷◌, ◌++◌, none, some, All, Map, map,
  take, if◌then◌else◌, get, nat_eq, Result, ok, err, arith,
}
use natforge_thesis.Proto.Route.{RouteMode, tcp, http, udp}
use natforge_thesis.Proto.Claims.{TunnelClaims, is_some}
use natforge_thesis.Proto.Stream.{Sink, write_all}
use natforge_thesis.Proto.Stream.Parses.{reader}
use natforge_thesis.Proto.Datagram.RoundTrip.{cut}
use natforge_thesis.Proto.Preamble.{max_replay, encode_preamble}
use natforge_thesis.Node.State.{is_country_blocked, lists_country}
use natforge_thesis.Node.Serve.{relayed, open_with, splice_to_route}
use natforge_thesis.Node.Agent.{authorize}
use natforge_thesis.Control.Policy.{parse_kind}
use natforge_thesis.Control.Expand.{
  tunnel_claims, expand_as, expand_single, expand_route, expand_routes,
}
use natforge_thesis.Host.{
  Reservation, Task, Tasks, started, reconcile, route_map, hello_of, to_tcp, to_udp, handle_stream,
  udp_flow,
}
use natforge_thesis.Host.Tasks.{service, reconcile_exact}
use natforge_thesis.Host.Hello.{authorize-hello_of}
use natforge_thesis.Host.Reached.{splice_to_route-reached, udp_flow-reached}
use natforge_thesis.Examples.Control.{game}
use natforge_thesis.Examples.Serve.{route, node, env, visitor}

abbrev listens : ℕ → Bool
listens port = true

abbrev routes : Map ℕ (RouteMode × ℕ)
routes = (1, (tcp, 25565)) ∷ (2, (udp, 9000)) ∷ []

abbrev hello_bytes : Bytes
hello_bytes = codes "hi"

relays :
    splice_to_route node env visitor hello_bytes route http
    ≡ relayed route (encode_preamble 1 (some visitor) hello_bytes)
unfolding splice_to_route open_with write_all is_country_blocked lists_country get beq
relays = refl

splice_to_route-reached_example :
    (route ≡ route)
    × (handle_stream 3 listens routes
          (reader (encode_preamble 1 (some visitor) hello_bytes ++ codes "more") false)
        ≡ to_tcp 25565 (take max_replay hello_bytes ++ codes "more"))
unfolding get
splice_to_route-reached_example =
    splice_to_route-reached node env visitor hello_bytes route route http
      (encode_preamble 1 (some visitor) hello_bytes) (codes "more") false 3 listens routes tcp 25565
      (omega arith) (refl, omega arith) relays refl (λ e. ground (arith, e)) refl

udp_flow-reached_example :
    (s : Sink) × (udp_flow 2 visitor (codes "a" ∷ [] ∷ []) (record { written = []; closed = false })
      ≡ ok s)
    × (handle_stream 3 listens routes (reader s.written false)
        ≡ to_udp 9000 (map cut (codes "a" ∷ [] ∷ [])))
unfolding get
udp_flow-reached_example =
    udp_flow-reached 2 visitor (codes "a" ∷ [] ∷ []) false 3 listens routes 9000 (omega arith)
      (refl, omega arith) refl refl (omega arith)

abbrev reservation : Reservation
reservation = record {
  tunnel_id = 5;
  tunnel_token = codes "duck";
  routes = (record { route_id = 1; mode = tcp; local_port = 25565 }) ∷ [];
  control_endpoint = codes "eu.n.io:7000";
  control_cert_fingerprint = none;
}

abbrev ended : Task
ended = record { serving = reservation; is_finished = true }

abbrev tasks : Tasks
tasks = (5, ended) ∷ (6, started reservation) ∷ []

reconcile_exact_example :
    get 5 (reconcile (reservation ∷ []) tasks) ≡ elim (service 5 (reservation ∷ [])) [
      | none ↦ none
      | some r ↦ elim (get 5 tasks) [
        | none ↦ some (started r)
        | some t ↦ if t.is_finished then some (started r) else some t
      ]
    ]
reconcile_exact_example = reconcile_exact (reservation ∷ []) tasks 5

abbrev minted : TunnelClaims
minted =
    tunnel_claims 100 3 5 (codes "duck") (expand_routes (game ∷ []) (codes "duck") (codes "n.io")).0
      none

abbrev verify : Bytes → Result Bytes TunnelClaims
verify token = if beq token (codes "duck") then ok minted else err (codes "InvalidToken")

authorize-hello_of_example :
    (authorize verify (hello_of reservation) ≡ ok minted)
    × All (λ k. is_some (get k.route_id (route_map reservation.routes [])) ≡ true) minted.routes
unfolding beq tunnel_claims expand_routes expand_route expand_as expand_single parse_kind
authorize-hello_of_example =
    authorize-hello_of verify reservation minted (game ∷ []) (codes "duck") (codes "n.io") refl refl
      refl
