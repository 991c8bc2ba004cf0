-- ===== src/Host/Reached.antt =====
-- From a public connection of natforge-node to the local service behind the agent.
use natforge_thesis.Prelude.{
  ℕ, ◌≡◌, ◌≢◌, ◌<◌, refl, ap, ◌∙◌, Bool, true, false, Bytes, List, [], ◌++◌, take, length, map,
  some, Map, get, nat_eq, ok,
}
use natforge_thesis.Proto.Route.{RouteMode, http, https, tcp, udp, both}
use natforge_thesis.Proto.Stream.{Sink, write_all}
use natforge_thesis.Proto.Stream.Parses.{reader}
use natforge_thesis.Proto.Datagram.RoundTrip.{cut, all_framed, send_all-framed, receive_all-framed}
use natforge_thesis.Proto.Preamble.{SocketAddr, max_replay, encode_preamble}
use natforge_thesis.Proto.Preamble.RoundTrip.{IsPeer, read_preamble-encode_preamble}
use natforge_thesis.Node.State.{RouteHandle, CoreState}
use natforge_thesis.Node.Serve.{Outside, relayed, splice_to_route}
use natforge_thesis.Node.Serve.Delivered.{open_with-relayed, splice_to_route-relayed}
use natforge_thesis.Host.{to_tcp, to_udp, relay, tcp_relay, udp_relay, handle_stream, udp_flow}

handle_stream-preamble :
    (fuel : ℕ) (listens : ℕ → Bool) (routes : Map ℕ (RouteMode × ℕ)) (route_id : ℕ)
    (peer : SocketAddr) (replay rest : Bytes) (f : Bool) (mode : RouteMode) (port : ℕ)
    → route_id < 65536
    → IsPeer (some peer)
    → get route_id routes ≡ some (mode, port)
    → handle_stream fuel listens routes
        (reader (encode_preamble route_id (some peer) replay ++ rest) f)
      ≡ relay fuel listens mode port (take max_replay replay) (reader rest f)
unfolding handle_stream
handle_stream-preamble fuel listens routes route_id peer replay rest f mode port r p g =
    let parsed = (read_preamble-encode_preamble route_id (some peer) replay r p).complete rest f in
    rw (handle_stream, parsed, g)

-- What a client sends behind the bytes that the node read of its connection arrives, with those bytes
-- (up to 65535 of them) in front, at the local port that the agent has for the route, if that route is
-- no UDP route and the port takes connections.
pub splice_to_route-reached :
    (s : CoreState) (env : Outside) (peer : SocketAddr) (peeked : Bytes) (g h : RouteHandle)
    (mode : RouteMode) (sent body : Bytes) (f : Bool) (fuel : ℕ) (listens : ℕ → Bool)
    (routes : Map ℕ (RouteMode × ℕ)) (local_mode : RouteMode) (port : ℕ)
    → h.route_id < 65536
    → IsPeer (some peer)
    → splice_to_route s env peer peeked g mode ≡ relayed h sent
    → get h.route_id routes ≡ some (local_mode, port)
    → local_mode ≢ udp
    → listens port ≡ true
    → (g ≡ h)
      × (handle_stream fuel listens routes (reader (sent ++ body) f)
          ≡ to_tcp port (take max_replay peeked ++ body))
unfolding tcp_relay
splice_to_route-reached s env peer peeked g h mode sent body f fuel listens routes local_mode port r
      p e q n l =
    let (free, opened) = splice_to_route-relayed s env peer peeked g h mode sent e in
    let (same, bytes) = open_with-relayed env peer peeked g h sent opened in
    (
      same,
      ap (λ x. handle_stream fuel listens routes (reader (x ++ body) f)) bytes
          ∙ handle_stream-preamble fuel listens routes h.route_id peer peeked body f local_mode port
              r p q
          ∙ by_mode local_mode n,
    )
  where
    by_mode :
        (m : RouteMode)
        → m ≢ udp
        → relay fuel listens m port (take max_replay peeked) (reader body f)
          ≡ to_tcp port (take max_replay peeked ++ body)
    by_mode http d = rw l refl
    by_mode https d = rw l refl
    by_mode tcp d = rw l refl
    by_mode both d = rw l refl
    by_mode udp d = absurd (d refl)

-- Every datagram of a client's flow arrives at the local port that the agent has for the UDP route, in
-- order and each cut to 65535 bytes, and nothing else does; fuel of one step more than the datagrams is
-- enough.
pub udp_flow-reached :
    (route_id : ℕ) (peer : SocketAddr) (ds : List Bytes) (f : Bool) (fuel : ℕ) (listens : ℕ → Bool)
    (routes : Map ℕ (RouteMode × ℕ)) (port : ℕ)
    → route_id < 65536
    → IsPeer (some peer)
    → get route_id routes ≡ some (udp, port)
    → listens port ≡ true
    → length ds < fuel
    → (s : Sink) × (udp_flow route_id peer ds (record { written = []; closed = false }) ≡ ok s)
      × (handle_stream fuel listens routes (reader s.written f) ≡ to_udp port (map cut ds))
unfolding udp_flow udp_relay write_all
udp_flow-reached route_id peer ds f fuel listens routes port r p g l n =
    let head = encode_preamble route_id (some peer) [] in
    (
      record { written = head ++ all_framed ds; closed = false },
      send_all-framed ds head,
      handle_stream-preamble fuel listens routes route_id peer [] (all_framed ds) f udp port r p g
          ∙ rw l (ap (to_udp port) (receive_all-framed ds fuel f n)),
    )
