-- ===== src/Examples/Wire.antt =====
-- The wire formats of natforge-proto at concrete inputs.
use natforge_thesis.Prelude.{
  ℕ, zero, suc, ◌≡◌, ◌↔◌, refl, Bytes, codes, [], ◌∷◌, none, some, length, take, All, arith, ok,
}
use natforge_thesis.Proto.Route.{http, tcp}
use natforge_thesis.Proto.Claims.{RouteClaim, TunnelClaims, validate_shape}
use natforge_thesis.Proto.Claims.Shape.{WellShaped, Fresh, validate_shape_iff}
use natforge_thesis.Proto.Stream.Parses.{Parses}
use natforge_thesis.Proto.Preamble.{ipv4, SocketAddr, encode_preamble, read_preamble, max_replay}
use natforge_thesis.Proto.Preamble.RoundTrip.{read_preamble-encode_preamble}

abbrev client : SocketAddr
client = record { ip = ipv4 (203 ∷ 0 ∷ 113 ∷ 7 ∷ []); port = 40000 }

read_preamble-encode_preamble_example :
    Parses read_preamble
      (encode_preamble 7 (some client) (codes "GET /"))
      (7, some client, take max_replay (codes "GET /"))
read_preamble-encode_preamble_example =
    read_preamble-encode_preamble 7 (some client) (codes "GET /") (omega arith) (refl, omega arith)

zeros : ℕ → Bytes
zeros zero = []
zeros (suc n) = 0 ∷ zeros n

length-zeros : (n : ℕ) → length (zeros n) ≡ n
unfolding zeros
length-zeros zero = refl
length-zeros (suc n) = omega (arith, length-zeros n)

abbrev web : RouteClaim
web = record {
  route_id = 1;
  mode = http;
  host = some (codes "a.b");
  public_port = none;
  srv_service = none;
}

abbrev game : RouteClaim
game = record {
  route_id = 2;
  mode = tcp;
  host = none;
  public_port = some 20000;
  srv_service = none;
}

abbrev two_routes : TunnelClaims
two_routes = record {
  v = 1;
  sub = 3;
  tunnel_id = 9;
  subdomain = codes "a";
  purpose = codes "tunnel";
  routes = web ∷ game ∷ [];
  custom_domain = none;
  exp = 1000;
}

validate_shape_iff_example : (validate_shape two_routes ≡ ok tt) ↔ (
    (two_routes.v ≡ 1)
    × (two_routes.purpose ≡ codes "tunnel")
    × Fresh [] two_routes.routes
    × All WellShaped two_routes.routes)
validate_shape_iff_example = validate_shape_iff two_routes
