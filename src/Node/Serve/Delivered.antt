-- ===== src/Node/Serve/Delivered.antt =====
-- What reaches the agent of a public HTTP or TCP connection of natforge-node.
use natforge_thesis.Prelude.{
  ◌≡◌, ◌⊎◌, ◌<◌, refl, ap, subst, sym, ◌∙◌, Bool, true, false, Bytes, codes, List, [], append-nil,
  take, Option, none, some, Bool-cases, arith, ok, inl, inr,
}
use natforge_thesis.Proto.Route.{RouteMode, http}
use natforge_thesis.Proto.Stream.{write_all}
use natforge_thesis.Proto.Stream.Parses.{reader}
use natforge_thesis.Proto.Preamble.{SocketAddr, max_replay, encode_preamble, read_preamble}
use natforge_thesis.Proto.Preamble.RoundTrip.{IsPeer, read_preamble-encode_preamble}
use natforge_thesis.Node.Text.{subdomain_of, hostname_of}
use natforge_thesis.Node.Http.{with_forwarded_headers}
use natforge_thesis.Node.State.{
  RouteHandle, CoreState, host_route, custom_host_route, is_country_blocked,
}
use natforge_thesis.Node.Serve.{
  Outside, relayed, open_with, splice_to_route, bridge_public_connection, http_handle, is_dashboard,
  route_http,
}

-- The agent reads from a stream that starts with `sent` the route, the peer and the replay.
abbrev pub Arrives : Bytes → RouteHandle → SocketAddr → Bytes → Type 0
Arrives sent h peer replay =
    read_preamble (reader sent false)
    ≡ ok ((h.route_id, some peer, take max_replay replay), reader [] false)

pub open_with-relayed :
    (env : Outside) (peer : SocketAddr) (peeked : Bytes) (g h : RouteHandle) (sent : Bytes)
    → open_with env peer peeked g ≡ relayed h sent
    → (g ≡ h) × (sent ≡ encode_preamble h.route_id (some peer) peeked)
unfolding open_with write_all
open_with-relayed env peer peeked g h sent e = by_stream (env.open_stream g) refl
  where
    by_stream :
        (o : Option Bool)
        → env.open_stream g ≡ o
        → (g ≡ h) × (sent ≡ encode_preamble h.route_id (some peer) peeked)
    by_stream none q = ground (arith, e, q)
    by_stream (some true) q = ground (arith, e, q)
    by_stream (some false) q = ground (arith, e, q)

pub sent-Arrives :
    (h : RouteHandle) (peer : SocketAddr) (replay sent : Bytes)
    → h.route_id < 65536
    → IsPeer (some peer)
    → sent ≡ encode_preamble h.route_id (some peer) replay
    → Arrives sent h peer replay
sent-Arrives h peer replay sent r p e =
    let parses = read_preamble-encode_preamble h.route_id (some peer) replay r p in
    ap (λ x. read_preamble (reader x false))
      (e ∙ sym (append-nil (encode_preamble h.route_id (some peer) replay)))
    ∙ parses.complete [] false

-- The route registered under the host name as a custom hostname, or if there is none, by its subdomain.
abbrev pub Chosen : CoreState → Bytes → RouteHandle → Type 0
Chosen s name h =
    (custom_host_route s (hostname_of name) http ≡ some h)
    ⊎ ((custom_host_route s (hostname_of name) http ≡ none)
        × (host_route s (subdomain_of name) http ≡ some h))

http_handle-found :
    (s : CoreState) (name : Bytes) (h : RouteHandle) → http_handle s name ≡ some h → Chosen s name h
unfolding http_handle
http_handle-found s name h e = by_custom (custom_host_route s (hostname_of name) http) refl
  where
    by_custom :
        (o : Option RouteHandle)
        → custom_host_route s (hostname_of name) http ≡ o
        → (o ≡ some h) ⊎ ((o ≡ none) × (host_route s (subdomain_of name) http ≡ some h))
    by_custom none q = inr (refl, ground (arith, e, q))
    by_custom (some g) q = inl (ground (arith, e, q))

pub splice_to_route-relayed :
    (s : CoreState) (env : Outside) (peer : SocketAddr) (peeked : Bytes) (g h : RouteHandle)
    (mode : RouteMode) (sent : Bytes)
    → splice_to_route s env peer peeked g mode ≡ relayed h sent
    → (is_country_blocked s g.tunnel_id (env.country peer) ≡ false)
      × (open_with env peer peeked g ≡ relayed h sent)
unfolding splice_to_route
splice_to_route-relayed s env peer peeked g h mode sent e =
    elim (Bool-cases (is_country_blocked s g.tunnel_id (env.country peer))) [
      | inl y ↦ refused mode y e
      | inr y ↦ (y, ground (arith, e, y))
    ]
  where
    refused :
        (m : RouteMode)
        → is_country_blocked s g.tunnel_id (env.country peer) ≡ true
        → splice_to_route s env peer peeked g m ≡ relayed h sent
        → (is_country_blocked s g.tunnel_id (env.country peer) ≡ false)
          × (open_with env peer peeked g ≡ relayed h sent)
    refused http y q = ground (arith, q, y)
    refused _ y q = ground (arith, q, y)

-- An HTTP connection that is relayed is not for the dashboard's own names, and goes to the route
-- registered under its host name as a custom hostname, or only where there is none to the one of its
-- subdomain, whose tunnel does not refuse the client's country; the agent reads that route's id, the
-- client's address and the rewritten head, up to 65535 bytes of it.
pub route_http-delivered :
    (s : CoreState) (env : Outside) (peer : SocketAddr) (name buf : Bytes) (chunks : List Bytes)
    (h : RouteHandle) (sent : Bytes)
    → h.route_id < 65536
    → IsPeer (some peer)
    → route_http s env peer name buf chunks ≡ relayed h sent
    → (is_country_blocked s h.tunnel_id (env.country peer) ≡ false)
      × (is_dashboard env name ≡ false)
      × Chosen s name h
      × Arrives sent h peer (
          with_forwarded_headers chunks buf
            (env.ip_text peer)
            (hostname_of name)
            (codes "http")
            env.max_header_bytes)
unfolding route_http
route_http-delivered s env peer name buf chunks h sent r p e = by_handle (http_handle s name) refl
  where
    head : Bytes
    head =
        with_forwarded_headers chunks buf (env.ip_text peer) (hostname_of name) (codes "http")
          env.max_header_bytes

    by_handle :
        (o : Option RouteHandle)
        → http_handle s name ≡ o
        → (is_country_blocked s h.tunnel_id (env.country peer) ≡ false)
          × (is_dashboard env name ≡ false)
          × Chosen s name h
          × Arrives sent h peer head
    by_handle none q = ground (arith, e, q)
    by_handle (some g) q =
        let spliced : splice_to_route s env peer head g http ≡ relayed h sent =
          ground (arith, e, q) in
        let (free, opened) = splice_to_route-relayed s env peer head g h http sent spliced in
        let (same, bytes) = open_with-relayed env peer head g h sent opened in
        (
          subst (λ x. is_country_blocked s x.tunnel_id (env.country peer) ≡ false) same free,
          ground (arith, e),
          http_handle-found s name h (q ∙ ap some same),
          sent-Arrives h peer head sent r p bytes,
        )

-- A TCP connection that is relayed goes to the listener's own route, whose tunnel does not refuse
-- the client's country; the agent reads the route's id and the client's address, with no replay.
pub bridge_public_connection-delivered :
    (s : CoreState) (env : Outside) (peer : SocketAddr) (g h : RouteHandle) (sent : Bytes)
    → h.route_id < 65536
    → IsPeer (some peer)
    → bridge_public_connection s env peer g ≡ relayed h sent
    → (g ≡ h)
      × (is_country_blocked s h.tunnel_id (env.country peer) ≡ false)
      × Arrives sent h peer []
unfolding bridge_public_connection
bridge_public_connection-delivered s env peer g h sent r p e =
    elim (Bool-cases (is_country_blocked s g.tunnel_id (env.country peer))) [
      | inl y ↦ ground (arith, e, y)
      | inr y ↦
          let opened : open_with env peer [] g ≡ relayed h sent = ground (arith, e, y) in
          let (same, bytes) = open_with-relayed env peer [] g h sent opened in
          (
            same,
            subst (λ x. is_country_blocked s x.tunnel_id (env.country peer) ≡ false) same y,
            sent-Arrives h peer [] sent r p bytes,
          )
    ]
