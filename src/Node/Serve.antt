-- ===== src/Node/Serve.antt =====
-- What natforge-node does with a public connection up to the copying of bytes: `serve_http` and
-- `splice_to_route` of tunnel/shared.rs, `bridge_public_connection` of tunnel/mod.rs. Outside: the
-- country of an address, its text, and whether the agent's session gives a stream, and one that is
-- open.
pub mod Delivered
use natforge_thesis.Prelude.{
  ℕ, Bool, true, false, ◌||◌, Bytes, codes, beq, List, [], ◌∷◌, ◌++◌, Option, none, some,
  if◌then◌else◌, ok, err,
}
use natforge_thesis.Proto.Route.{RouteMode, http}
use natforge_thesis.Proto.Stream.{Sink, write_all}
use natforge_thesis.Proto.Preamble.{SocketAddr, encode_preamble}
use natforge_thesis.Node.Text.{subdomain_of, hostname_of, to_ascii_lowercase}
use natforge_thesis.Node.Http.{
  peek_host, closed, bad_request, challenge, host, with_forwarded_headers,
}
use natforge_thesis.Node.State.{
  RouteHandle, CoreState, host_route, custom_host_route, is_country_blocked,
}

pub record Outside : Type 0 where
  pub country : SocketAddr → Option Bytes
  pub ip_text : SocketAddr → Bytes
  -- No stream, or a stream by whether it is closed for writing already.
  pub open_stream : RouteHandle → Option Bool
  pub public_host : Bytes
  pub max_header_bytes : ℕ

-- Nothing is sent and the connection ends; an answer to the client; a request of the certificate
-- authority; the dashboard, with what was read so far; or the agent, with the stream's first bytes.
pub data Outcome : Type 0 where
  dropped : Outcome
  answered dashboard acme : Bytes → Outcome
  relayed : RouteHandle → Bytes → Outcome

abbrev pub forbidden : Bytes
forbidden =
    codes
      "HTTP/1.1 403 Forbidden\r\nConnection: close\r\nContent-Length: 16\r\n\r\nregion is blocked"

abbrev pub not_found : Bytes
not_found =
    codes
      "HTTP/1.1 404 Not Found\r\nConnection: close\r\nContent-Length: 18\r\n\r\nunknown tunnel host"

abbrev pub bad_request_answer : Bytes
bad_request_answer =
    codes "HTTP/1.1 400 Bad Request\r\nConnection: close\r\nContent-Length: 11\r\n\r\nbad request"

-- A stream of the agent's session, with the preamble written.
unfoldable pub open_with : Outside → SocketAddr → Bytes → RouteHandle → Outcome
open_with env peer peeked h = elim (env.open_stream h) [
  | none ↦ dropped
  | some shut ↦
      elim (write_all (encode_preamble h.route_id (some peer) peeked)
        (record { written = []; closed = shut })) [ err e ↦ dropped | ok s ↦ relayed h s.written ]
]

abbrev pub refusal : RouteMode → Outcome
refusal http = answered forbidden
refusal _ = dropped

unfoldable pub splice_to_route :
    CoreState → Outside → SocketAddr → Bytes → RouteHandle → RouteMode → Outcome
unfolding open_with
splice_to_route s env peer peeked h mode =
    if is_country_blocked s h.tunnel_id (env.country peer)
    then refusal mode
    else open_with env peer peeked h

unfoldable pub bridge_public_connection : CoreState → Outside → SocketAddr → RouteHandle → Outcome
unfolding open_with
bridge_public_connection s env peer h =
    if is_country_blocked s h.tunnel_id (env.country peer) then dropped else open_with env peer [] h

-- A registered custom hostname wins over the subdomain.
unfoldable pub http_handle : CoreState → Bytes → Option RouteHandle
http_handle s name = elim (custom_host_route s (hostname_of name) http) [
  | some h ↦ some h
  | none ↦ host_route s (subdomain_of name) http
]

abbrev pub is_dashboard : Outside → Bytes → Bool
is_dashboard env name =
    let apex = to_ascii_lowercase env.public_host in
    beq (hostname_of name) apex || beq (hostname_of name) (codes "www." ++ apex)

-- From the Host header on: `buf` is what was read, `chunks` what further reads give.
unfoldable pub route_http : CoreState → Outside → SocketAddr → Bytes → Bytes → List Bytes → Outcome
unfolding splice_to_route http_handle
route_http s env peer name buf chunks =
    if is_dashboard env name then dashboard buf else elim (http_handle s name) [
      | none ↦ answered not_found
      | some h ↦
          let head =
            with_forwarded_headers chunks buf (env.ip_text peer) (hostname_of name) (codes "http")
              env.max_header_bytes in
          splice_to_route s env peer head h http
    ]

unfoldable pub serve_http : CoreState → Outside → SocketAddr → List Bytes → Outcome
unfolding route_http
serve_http s env peer chunks = elim (peek_host env.max_header_bytes [] chunks) [
  | closed ↦ dropped
  | bad_request ↦ answered bad_request_answer
  | challenge token ↦ acme token
  | host name buf rest ↦ route_http s env peer name buf rest
]
