-- ===== src/Node/Tls.antt =====
-- `serve_https` of natforge-node/src/tunnel/shared.rs up to the copying of bytes. Outside: which
-- certificates the node holds, and what the TLS handshake gives: nothing if it fails, or else the
-- client's bytes in the clear, read by read.
pub mod Untouched
use natforge_thesis.Prelude.{
  ℕ, Bool, true, false, Bytes, codes, List, [], ◌∷◌, ◌++◌, Option, none, some, length, is_empty,
  ltb, max, if◌then◌else◌,
}
use natforge_thesis.Proto.Route.{http, https}
use natforge_thesis.Proto.Preamble.{SocketAddr}
use natforge_thesis.Node.Text.{subdomain_of, hostname_of}
use natforge_thesis.Node.Http.{with_forwarded_headers}
use natforge_thesis.Node.Sni.{found, need_more, parse_sni}
use natforge_thesis.Node.State.{RouteHandle, CoreState, host_route, custom_host_route}
use natforge_thesis.Node.Serve.{Outside, Outcome, dropped, splice_to_route}

pub record Certificates : Type 0 where
  pub wildcard : Bool
  pub has_cert : Bytes → Bool
  pub accept : Bytes → Option (List Bytes)

-- The peek loop: the server name with all that was read for it.
unfoldable pub peek_sni : ℕ → Bytes → List Bytes → Option (Bytes × Bytes)
unfolding parse_sni
peek_sni cap buf [] = none
peek_sni cap buf (chunk ∷ chunks) =
    let buf' = buf ++ chunk in
    let more = peek_sni cap buf' chunks in
    if is_empty chunk then none else elim (parse_sni buf') [
      | some (found name) ↦ some (name, buf')
      | some need_more ↦ if ltb (length buf') cap then more else none
      | _ ↦ none
    ]

unfoldable pub passthrough : CoreState → Bytes → Option RouteHandle
passthrough s sni = elim (custom_host_route s (hostname_of sni) https) [
  | some h ↦ some h
  | none ↦ host_route s (subdomain_of sni) https
]

-- The route whose TLS the node ends itself: under the wildcard certificate, or under the custom
-- domain's own.
abbrev pub under_wildcard : Certificates → CoreState → Bytes → Option RouteHandle
under_wildcard certs s sni = if certs.wildcard then host_route s (subdomain_of sni) http else none

unfoldable pub terminate : Certificates → CoreState → Bytes → Option RouteHandle
terminate certs s sni = elim (under_wildcard certs s sni) [
  | some h ↦ some h
  | none ↦
      if certs.has_cert (hostname_of sni) then custom_host_route s (hostname_of sni) http else none
]

unfoldable pub route_https :
    CoreState → Outside → Certificates → SocketAddr → Bytes → Bytes → Outcome
unfolding passthrough terminate
route_https s env certs peer sni buf = elim (passthrough s sni) [
  | some h ↦ splice_to_route s env peer buf h https
  | none ↦ elim (terminate certs s sni) [
    | none ↦ dropped
    | some h ↦ elim (certs.accept buf) [
      | none ↦ dropped
      | some chunks ↦
          splice_to_route s env peer
            (with_forwarded_headers chunks [] (env.ip_text peer) (hostname_of sni) (codes "https")
              env.max_header_bytes)
            h http
    ]
  ]
]

unfoldable pub serve_https : CoreState → Outside → Certificates → SocketAddr → List Bytes → Outcome
unfolding peek_sni route_https
serve_https s env certs peer chunks = elim (peek_sni (max env.max_header_bytes 16384) [] chunks) [
  | none ↦ dropped
  | some (sni, buf) ↦ route_https s env certs peer sni buf
]
