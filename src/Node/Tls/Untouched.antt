-- ===== src/Node/Tls/Untouched.antt =====
-- What reaches the agent of a public HTTPS connection of natforge-node whose TLS it does not end.
use natforge_thesis.Prelude.{◌≡◌, ◌⊎◌, ◌<◌, subst, false, Bytes, none, some, arith, inl, inr}
use natforge_thesis.Proto.Route.{https}
use natforge_thesis.Proto.Preamble.{SocketAddr}
use natforge_thesis.Proto.Preamble.RoundTrip.{IsPeer}
use natforge_thesis.Node.Text.{subdomain_of, hostname_of}
use natforge_thesis.Node.State.{
  RouteHandle, CoreState, host_route, custom_host_route, is_country_blocked,
}
use natforge_thesis.Node.Serve.{Outside, relayed, splice_to_route}
use natforge_thesis.Node.Serve.Delivered.{
  Arrives, open_with-relayed, sent-Arrives, splice_to_route-relayed,
}
use natforge_thesis.Node.Tls.{Certificates, passthrough, route_https}

passthrough-found :
    (s : CoreState) (sni : Bytes) (h : RouteHandle)
    → (custom_host_route s (hostname_of sni) https ≡ some h)
      ⊎ ((custom_host_route s (hostname_of sni) https ≡ none)
          × (host_route s (subdomain_of sni) https ≡ some h))
    → passthrough s sni ≡ some h
unfolding passthrough
passthrough-found s sni h (inl e) = ground (arith, e)
passthrough-found s sni h (inr (e, f)) = ground (arith, e, f)

-- When an HTTPS route is registered under the server name, as a custom hostname or else by the
-- subdomain, then a connection is only ever relayed to that route, from a country that its tunnel
-- does not refuse, whatever certificates the node holds; and the agent reads the very bytes that the
-- client sent, up to 65535 of them.
pub route_https-untouched :
    (s : CoreState) (env : Outside) (certs : Certificates) (peer : SocketAddr) (sni buf : Bytes)
    (g h : RouteHandle) (sent : Bytes)
    → (custom_host_route s (hostname_of sni) https ≡ some g)
      ⊎ ((custom_host_route s (hostname_of sni) https ≡ none)
          × (host_route s (subdomain_of sni) https ≡ some g))
    → h.route_id < 65536
    → IsPeer (some peer)
    → route_https s env certs peer sni buf ≡ relayed h sent
    → (g ≡ h)
      × (is_country_blocked s h.tunnel_id (env.country peer) ≡ false)
      × Arrives sent h peer buf
unfolding route_https
route_https-untouched s env certs peer sni buf g h sent reg r p e =
    let chosen = passthrough-found s sni g reg in
    let spliced : splice_to_route s env peer buf g https ≡ relayed h sent =
      ground (arith, e, chosen) in
    let (free, opened) = splice_to_route-relayed s env peer buf g h https sent spliced in
    let (same, bytes) = open_with-relayed env peer buf g h sent opened in
    (
      same,
      subst (λ x. is_country_blocked s x.tunnel_id (env.country peer) ≡ false) same free,
      sent-Arrives h peer buf sent r p bytes,
    )
