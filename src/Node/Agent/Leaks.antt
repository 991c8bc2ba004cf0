-- ===== src/Node/Agent/Leaks.antt =====
-- A session of natforge-node/src/tunnel/mod.rs leaves no route behind: all that `handle_agent`
-- registers lies under keys that `teardown` is given.
use natforge_thesis.Prelude.{
  ℕ, ◌≡◌, refl, ◌∙◌, sym, subst, Bool, true, false, ◌||◌, Bytes, List, [], ◌∷◌, ◌++◌, Option, none,
  some, Map, get, insert, get-insert, nat_eq, bytes_eq, beq, ◌==◌, arith, Bool-cases, inl, inr,
}
use natforge_thesis.Proto.Route.{RouteMode, http, https, tcp, udp, both}
use natforge_thesis.Proto.Claims.{contains, TunnelClaims}
use natforge_thesis.Node.State.{RouteHandle, ActiveTunnel, CoreState}
use natforge_thesis.Node.Agent.{
  PlannedRoute, Setup, handle_for, insert_custom, port_or_zero, register_in, add_srv, register,
}
use natforge_thesis.Node.Agent.Release.{end_session}
use natforge_thesis.Node.Agent.Teardown.{released, is_custom, teardown_exact}

-- Every entry of `m` that carries the id `t` lies under a key that passes `key`.
abbrev pub Within {ℓ} : {K : Type ℓ} → (K → Option RouteHandle) → ℕ → (K → Bool) → Type ℓ
Within {K} m t key = (k : K) (h : RouteHandle) → m k ≡ some h → h.tunnel_id ≡ t → key k ≡ true

-- The keys that the session's tunnel will be torn down by cover its entries.
pub record Covered (s : CoreState) (a : ActiveTunnel) : Type 0 where
  pub http : Within (λ k. get k s.http_routes) a.tunnel_id (beq a.subdomain)
  pub https : Within (λ k. get k s.https_routes) a.tunnel_id (beq a.subdomain)
  pub tcp_ports : Within (λ k. get k s.port_routes) a.tunnel_id (λ k. contains k a.public_ports)
  pub udp_ports : Within (λ k. get k s.udp_routes) a.tunnel_id (λ k. contains k a.udp_ports)
  pub on_http : Within (λ k. get k s.custom_http) a.tunnel_id (is_custom a.custom_domain)
  pub on_https : Within (λ k. get k s.custom_https) a.tunnel_id (is_custom a.custom_domain)

Within-insert_host :
    (d k : Bytes) (h : RouteHandle) (m : Map Bytes RouteHandle) (t : ℕ)
    → Within (λ j. get j m) t (beq d)
    → Within (λ j. get j (insert d h m)) t (beq d)
Within-insert_host d k h m t w j g e i = ground (arith, get-insert d j h m, w j g)

Within-insert_custom :
    (d : Option Bytes) (h : RouteHandle) (m : Map Bytes RouteHandle) (t : ℕ)
    → Within (λ j. get j m) t (is_custom d)
    → Within (λ j. get j (insert_custom d h m)) t (is_custom d)
Within-insert_custom none h m t w = w
Within-insert_custom (some d) h m t w = Within-insert_host d d h m t w

contains-append : (k p : ℕ) (ps : List ℕ) → contains k (ps ++ p ∷ []) ≡ (contains k ps || p == k)
contains-append k p [] = ground arith
contains-append k p (q ∷ ps) = ground (arith, contains-append k p ps)

Within-insert_port :
    (p : ℕ) (ps : List ℕ) (h : RouteHandle) (m : Map ℕ RouteHandle) (t : ℕ)
    → Within (λ j. get j m) t (λ k. contains k ps)
    → Within (λ j. get j (insert p h m)) t (λ k. contains k (ps ++ p ∷ []))
Within-insert_port p ps h m t w j g e i =
    ground (arith, get-insert p j h m, w j g, contains-append j p ps)

-- The fields that `register` never changes.
pub record Same (c : TunnelClaims) (a : ActiveTunnel) : Type 0 where
  pub id_is : a.tunnel_id ≡ c.tunnel_id
  pub subdomain_is : a.subdomain ≡ c.subdomain
  pub custom_is : a.custom_domain ≡ c.custom_domain

register_in-Same :
    (m : RouteMode) (c : TunnelClaims) (h : RouteHandle) (port : ℕ) (st : Setup)
    → Same c st.active
    → Same c (register_in m c h port st).active
unfolding register_in
register_in-Same http c h port st s = record {
  id_is = s.id_is;
  subdomain_is = s.subdomain_is;
  custom_is = s.custom_is;
}
register_in-Same _ c h port st s = record {
  id_is = s.id_is;
  subdomain_is = s.subdomain_is;
  custom_is = s.custom_is;
}

register_in-Covered :
    (m : RouteMode) (c : TunnelClaims) (h : RouteHandle) (port : ℕ) (st : Setup)
    → Same c st.active
    → Covered st.core st.active
    → Covered (register_in m c h port st).core (register_in m c h port st).active
unfolding register_in
register_in-Covered http c h port st s v = record {
  http =
      subst
        (λ d.
          Within (λ j. get j (insert d h st.core.http_routes)) st.active.tunnel_id
            (beq st.active.subdomain))
        s.subdomain_is
        (Within-insert_host st.active.subdomain st.active.subdomain h st.core.http_routes
          st.active.tunnel_id v.http);
  https = v.https;
  tcp_ports = v.tcp_ports;
  udp_ports = v.udp_ports;
  on_http =
      subst
        (λ d.
          Within (λ j. get j (insert_custom d h st.core.custom_http)) st.active.tunnel_id
            (is_custom st.active.custom_domain))
        s.custom_is
        (Within-insert_custom st.active.custom_domain h st.core.custom_http st.active.tunnel_id
          v.on_http);
  on_https = v.on_https;
}
register_in-Covered https c h port st s v = record {
  http = v.http;
  https =
      subst
        (λ d.
          Within (λ j. get j (insert d h st.core.https_routes)) st.active.tunnel_id
            (beq st.active.subdomain))
        s.subdomain_is
        (Within-insert_host st.active.subdomain st.active.subdomain h st.core.https_routes
          st.active.tunnel_id v.https);
  tcp_ports = v.tcp_ports;
  udp_ports = v.udp_ports;
  on_http = v.on_http;
  on_https =
      subst
        (λ d.
          Within (λ j. get j (insert_custom d h st.core.custom_https)) st.active.tunnel_id
            (is_custom st.active.custom_domain))
        s.custom_is
        (Within-insert_custom st.active.custom_domain h st.core.custom_https st.active.tunnel_id
          v.on_https);
}
register_in-Covered tcp c h port st s v = record {
  http = v.http;
  https = v.https;
  tcp_ports =
      Within-insert_port port st.active.public_ports h st.core.port_routes st.active.tunnel_id
        v.tcp_ports;
  udp_ports = v.udp_ports;
  on_http = v.on_http;
  on_https = v.on_https;
}
register_in-Covered udp c h port st s v = record {
  http = v.http;
  https = v.https;
  tcp_ports = v.tcp_ports;
  udp_ports =
      Within-insert_port port st.active.udp_ports h st.core.udp_routes st.active.tunnel_id
        v.udp_ports;
  on_http = v.on_http;
  on_https = v.on_https;
}
register_in-Covered both c h port st s v = v

add_srv-Covered :
    (p : PlannedRoute) (st : Setup)
    → Covered st.core st.active
    → Covered (add_srv p st).core (add_srv p st).active
unfolding add_srv
add_srv-Covered p st v = record {
  http = v.http;
  https = v.https;
  tcp_ports = v.tcp_ports;
  udp_ports = v.udp_ports;
  on_http = v.on_http;
  on_https = v.on_https;
}

add_srv-Same :
    (p : PlannedRoute) (c : TunnelClaims) (st : Setup)
    → Same c st.active
    → Same c (add_srv p st).active
unfolding add_srv
add_srv-Same p c st s = record {
  id_is = s.id_is;
  subdomain_is = s.subdomain_is;
  custom_is = s.custom_is;
}

pub register-Covered :
    (c : TunnelClaims) (session : ℕ) (ps : List PlannedRoute) (st : Setup)
    → Same c st.active
    → Covered st.core st.active
    → Covered (register c session ps st).core (register c session ps st).active
unfolding register
register-Covered c session [] st s v = v
register-Covered c session (p ∷ ps) st s v =
    let h = handle_for c session p in
    let port = port_or_zero p.public_port in
    let st' = register_in p.mode c h port st in
    let s' = register_in-Same p.mode c h port st s in
    register-Covered c session ps (add_srv p st') (add_srv-Same p c st' s')
      (add_srv-Covered p st' (register_in-Covered p.mode c h port st s v))

pub register-Same :
    (c : TunnelClaims) (session : ℕ) (ps : List PlannedRoute) (st : Setup)
    → Same c st.active
    → Same c (register c session ps st).active
unfolding register
register-Same c session [] st s = s
register-Same c session (p ∷ ps) st s =
    let h = handle_for c session p in
    let port = port_or_zero p.public_port in
    let s' = register_in-Same p.mode c h port st s in
    register-Same c session ps (add_srv p (register_in p.mode c h port st))
      (add_srv-Same p c (register_in p.mode c h port st) s')

-- No route registry holds an entry of tunnel `t`.
pub record Absent (t : ℕ) (s : CoreState) : Type 0 where
  pub http : Within (λ k. get k s.http_routes) t (λ k. false)
  pub https : Within (λ k. get k s.https_routes) t (λ k. false)
  pub tcp_ports : Within (λ k. get k s.port_routes) t (λ k. false)
  pub udp_ports : Within (λ k. get k s.udp_routes) t (λ k. false)
  pub on_http : Within (λ k. get k s.custom_http) t (λ k. false)
  pub on_https : Within (λ k. get k s.custom_https) t (λ k. false)

-- What is released under keys that cover the tunnel's entries leaves none of them.
Within-released {ℓ} :
    {K : Type ℓ} (m m' : K → Option RouteHandle) (t : ℕ) (key : K → Bool)
    → ((k : K) → m' k ≡ released t (key k) (m k))
    → Within m t key
    → Within m' t (λ k. false)
Within-released m m' t key e w k h g i = elim (Bool-cases (key k)) [
  | inl b ↦ gone (m k) refl b (sym (e k) ∙ g)
  | inr b ↦ kept b (sym (e k) ∙ g)
]
  where
    gone :
        (o : Option RouteHandle)
        → m k ≡ o
        → key k ≡ true
        → released t (key k) (m k) ≡ some h
        → false ≡ true
    gone none q b r = ground (arith, q, b)
    gone (some h') q b r = ground (arith, q, b)

    kept : key k ≡ false → released t (key k) (m k) ≡ some h → false ≡ true
    kept b r = ground (arith, b, w k h, i)

pub end_session-Absent :
    (s : CoreState) (a : ActiveTunnel) → Covered s a → Absent a.tunnel_id (end_session a s)
unfolding end_session
end_session-Absent s a v =
    let exact =
      teardown_exact a.tunnel_id a.subdomain a.public_ports a.udp_ports a.custom_domain s in
    let t = a.tunnel_id in
    record {
      http =
          Within-released (λ k. get k s.http_routes) _ t (beq a.subdomain) (λ k. (exact k 0).0)
            v.http;
      https =
          Within-released (λ k. get k s.https_routes) _ t (beq a.subdomain) (λ k. (exact k 0).1)
            v.https;
      tcp_ports =
          Within-released (λ k. get k s.port_routes) _ t (λ k. contains k a.public_ports)
            (λ p. (exact [] p).2) v.tcp_ports;
      udp_ports =
          Within-released (λ k. get k s.udp_routes) _ t (λ k. contains k a.udp_ports)
            (λ p. (exact [] p).3) v.udp_ports;
      on_http =
          Within-released (λ k. get k s.custom_http) _ t (is_custom a.custom_domain)
            (λ k. (exact k 0).4) v.on_http;
      on_https =
          Within-released (λ k. get k s.custom_https) _ t (is_custom a.custom_domain)
            (λ k. (exact k 0).5) v.on_https;
    }
