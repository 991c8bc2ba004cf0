-- ===== src/Examples/Serve.antt =====
-- Public connections and the stream driver of natforge-node at concrete inputs.
use natforge_thesis.Prelude.{
  none, inr, ◌≡◌, refl, true, false, Bytes, codes, beq, List, [], ◌∷◌, ◌++◌, some, get, nat_eq,
  bytes_eq, arith,
}
use natforge_thesis.Proto.Route.{http, https}
use natforge_thesis.Proto.Stream.{write_all}
use natforge_thesis.Proto.Preamble.{ipv4, SocketAddr, encode_preamble}
use natforge_thesis.Node.Text.{
  until, white_width, skip_white, trim_start, trim_end, trim, trim_dots, bare_host, subdomain_of,
  hostname_of,
}
use natforge_thesis.Node.Http.{with_forwarded_headers}
use natforge_thesis.Node.State.{
  RouteHandle, CoreState, host_route, custom_host_route, lists_country, is_country_blocked,
}
use natforge_thesis.Node.Serve.{
  Outside, relayed, open_with, splice_to_route, bridge_public_connection, http_handle, route_http,
}
use natforge_thesis.Node.Serve.{is_dashboard}
use natforge_thesis.Node.Serve.Delivered.{Chosen, Arrives, route_http-delivered}
use natforge_thesis.Node.Tls.{Certificates, passthrough, route_https}
use natforge_thesis.Node.Tls.Untouched.{route_https-untouched}
use natforge_thesis.Node.Driver.{Turn, Driver, stream, failed, run}
use natforge_thesis.Node.Driver.Order.{senders, run_in_order}

abbrev pub route : RouteHandle
route = record { tunnel_id = 5; owner_id = 3; route_id = 1; mode = http; session = 1 }

abbrev pub node : CoreState
node = record {
  tunnels = [];
  http_routes = (codes "duck", route) ∷ [];
  https_routes = [];
  port_routes = [];
  udp_routes = [];
  custom_http = [];
  custom_https = [];
  blocked_regions = codes "XX" ∷ [];
  tunnel_region_blocks = [];
}

abbrev pub env : Outside
env = record {
  country = λ a. some (codes "GR");
  ip_text = λ a. codes "203.0.113.7";
  open_stream = λ h. some false;
  public_host = codes "n.io";
  max_header_bytes = 16384;
}

abbrev pub visitor : SocketAddr
visitor = record { ip = ipv4 (203 ∷ 0 ∷ 113 ∷ 7 ∷ []); port = 40000 }

abbrev request : Bytes
request = codes "GET / HTTP/1.1\r\nHost: duck.n.io\r\n\r\n"

abbrev rewritten : Bytes
rewritten =
    with_forwarded_headers [] request (codes "203.0.113.7") (hostname_of (codes "duck.n.io"))
      (codes "http") 16384

abbrev first_bytes : Bytes
first_bytes = encode_preamble 1 (some visitor) rewritten

delivered : route_http node env visitor (codes "duck.n.io") request [] ≡ relayed route first_bytes
unfolding route_http http_handle splice_to_route open_with write_all is_country_blocked
    lists_country host_route custom_host_route subdomain_of hostname_of bare_host until trim
    trim_start skip_white trim_end white_width trim_dots get beq
delivered = refl

route_http-delivered_example :
    (is_country_blocked node 5 (some (codes "GR")) ≡ false)
    × (is_dashboard env (codes "duck.n.io") ≡ false)
    × Chosen node (codes "duck.n.io") route
    × Arrives first_bytes route visitor rewritten
route_http-delivered_example =
    route_http-delivered node env visitor (codes "duck.n.io") request [] route first_bytes
      (omega arith) (refl, omega arith) delivered

bridged :
    bridge_public_connection node env visitor route
    ≡ relayed route (encode_preamble 1 (some visitor) [])
unfolding bridge_public_connection open_with write_all is_country_blocked lists_country get beq
bridged = refl

abbrev secure : RouteHandle
secure = record { tunnel_id = 5; owner_id = 3; route_id = 4; mode = https; session = 1 }

abbrev tls_node : CoreState
tls_node = record node { https_routes = (codes "duck", secure) ∷ [] }

abbrev certs : Certificates
certs = record { wildcard = true; has_cert = λ d. false; accept = λ b. none }

abbrev peeked : Bytes
peeked = 0x16 ∷ 3 ∷ 1 ∷ []

untouched :
    route_https tls_node env certs visitor (codes "duck.n.io") peeked
    ≡ relayed secure (encode_preamble 4 (some visitor) peeked)
unfolding route_https passthrough splice_to_route open_with write_all is_country_blocked
    lists_country host_route custom_host_route subdomain_of hostname_of bare_host until trim
    trim_start skip_white trim_end white_width trim_dots get beq
untouched = refl

route_https-untouched_example :
    (secure ≡ secure)
    × (is_country_blocked tls_node 5 (some (codes "GR")) ≡ false)
    × Arrives (encode_preamble 4 (some visitor) peeked) secure visitor peeked
unfolding host_route custom_host_route subdomain_of hostname_of bare_host until trim trim_start
    skip_white trim_end white_width trim_dots get beq
route_https-untouched_example =
    route_https-untouched tls_node env certs visitor (codes "duck.n.io") peeked secure secure
      (encode_preamble 4 (some visitor) peeked) (inr (refl, refl)) (omega arith) (refl, omega arith)
      untouched

abbrev waiting : Driver
waiting = record { queue = 1 ∷ []; channel_open = true }

abbrev turns : List Turn
turns =
    record {
      inbound_ended = false;
      requests = 2 ∷ 3 ∷ [];
      channel_ended = false;
      outbound = stream 10 ∷ failed ∷ [];
    }
    ∷ record { inbound_ended = true; requests = []; channel_ended = false; outbound = [] }
    ∷ []

run_in_order_example :
    (senders (run waiting turns).replies ++ (run waiting turns).driver.queue
      ≡ waiting.queue ++ (run waiting turns).accepted)
    × ((run waiting turns).ended ≡ true → (run waiting turns).driver.queue ≡ [])
run_in_order_example = run_in_order waiting turns
