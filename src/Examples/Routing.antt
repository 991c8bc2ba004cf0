-- ===== src/Examples/Routing.antt =====
-- The parsers of natforge-node at concrete inputs.
use natforge_thesis.Prelude.{◌≡◌, refl, Bytes, codes, [], ◌∷◌, ◌++◌, some, nat_eq, arith}
use natforge_thesis.Node.Text.{is_utf8, utf8_from}
use natforge_thesis.Node.Sni.{Sni, found, parse_sni}
use natforge_thesis.Node.Sni.Safety.{parse_sni_total}
use natforge_thesis.Node.Sni.Hello.{Hello, IsHello, client_hello}
use natforge_thesis.Node.Sni.Hello.Found.{parse_sni-client_hello}
use natforge_thesis.Node.State.{CoreState}

parse_sni_total_example : (s : Sni) × (parse_sni (0x16 ∷ 3 ∷ 1 ∷ 0 ∷ 200 ∷ 1 ∷ []) ≡ some s)
parse_sni_total_example = parse_sni_total (0x16 ∷ 3 ∷ 1 ∷ 0 ∷ 200 ∷ 1 ∷ [])

abbrev hello : Hello
hello = record {
  start = codes "0123456789012345678901234567890123";
  session = codes "s";
  ciphers = 0x13 ∷ 0x01 ∷ [];
  compression = 0 ∷ [];
  before = (10, codes "ab") ∷ [];
  name = codes "duck.example.org";
  after = [];
}

hello-IsHello : IsHello hello
unfolding is_utf8 utf8_from
hello-IsHello = record {
  start_is = refl;
  session_fits = omega arith;
  compression_fits = omega arith;
  ciphers_fit = omega arith;
  others = ((omega arith, omega arith, omega arith), tt);
  name_utf8 = refl;
  fits = omega arith;
}

parse_sni-client_hello_example :
    parse_sni (client_hello 1 hello ++ codes "more") ≡ some (found (codes "duck.example.org"))
parse_sni-client_hello_example = parse_sni-client_hello hello hello-IsHello 1 (codes "more")

abbrev request : Bytes
request = codes "GET / HTTP/1.1\r\nX-Forwarded-For: 1.2.3.4\r\nHost: duck\r\n\r\nbody"

abbrev blocking : CoreState
blocking = record {
  tunnels = [];
  http_routes = [];
  https_routes = [];
  port_routes = [];
  udp_routes = [];
  custom_http = [];
  custom_https = [];
  blocked_regions = codes "XX" ∷ [];
  tunnel_region_blocks = (5, codes "YY" ∷ []) ∷ [];
}
