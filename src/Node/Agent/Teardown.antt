-- ===== src/Node/Agent/Teardown.antt =====
-- What `teardown` of natforge-node/src/tunnel/mod.rs removes, and what it leaves.
use natforge_thesis.Prelude.{
  ℕ, ◌≡◌, ◌≢◌, refl, Bool, false, ◌&&◌, Bytes, List, [], ◌∷◌, Option, none, some, Map, get, remove,
  get-remove, nat_eq, bytes_eq, beq, beq_iff, if◌then◌else◌, arith, Bool-cases, inl, inr,
}
use natforge_thesis.Proto.Claims.{contains}
use natforge_thesis.Node.State.{RouteHandle, ActiveTunnel, CoreState}
use natforge_thesis.Node.Agent.Release.{
  is_ours, release_host, release_ports, release_custom, teardown,
}

abbrev pub is_custom : Option Bytes → Bytes → Bool
is_custom none k = false
is_custom (some d) k = beq d k

-- The entry under one key is gone if the key is released and the entry is the tunnel's own, and is
-- otherwise as it was.
abbrev pub released : ℕ → Bool → Option RouteHandle → Option RouteHandle
released tunnel_id key old = if key && is_ours tunnel_id old then none else old

pub get-release_host :
    (t : ℕ) (k j : Bytes) (m : Map Bytes RouteHandle)
    → get j (release_host t k m) ≡ released t (beq k j) (get j m)
unfolding release_host
get-release_host t k j m = elim (Bool-cases (is_ours t (get k m))) [
  | inl e ↦ rw e (ground (arith, e, get-remove k j m, beq_iff k j))
  | inr e ↦ rw e (ground (arith, e, beq_iff k j))
]

pub get-release_ports :
    (t : ℕ) (ps : List ℕ) (j : ℕ) (m : Map ℕ RouteHandle)
    → get j (release_ports t ps m) ≡ released t (contains j ps) (get j m)
unfolding release_ports
get-release_ports t [] j m = refl
get-release_ports t (p ∷ ps) j m = elim (Bool-cases (is_ours t (get p m))) [
  | inl e ↦ rw e (ground (arith, e, get-remove p j m, get-release_ports t ps j (remove p m)))
  | inr e ↦ rw e (ground (arith, e, get-release_ports t ps j m))
]

pub get-release_custom :
    (t : ℕ) (d : Option Bytes) (j : Bytes) (m : Map Bytes RouteHandle)
    → get j (release_custom t d m) ≡ released t (is_custom d j) (get j m)
unfolding release_custom
get-release_custom t none j m = refl
get-release_custom t (some d) j m = get-release_host t d j m

-- In each of the six route registries `teardown` removes exactly the entries under the tunnel's own
-- subdomain, ports and custom domain that still carry its id; every other lookup reads as before.
pub teardown_exact :
    (t : ℕ) (sub : Bytes) (ports udp_ports : List ℕ) (d : Option Bytes) (s : CoreState) (k : Bytes)
    (p : ℕ)
    → let s' = teardown t sub ports udp_ports d s in
      (get k s'.http_routes ≡ released t (beq sub k) (get k s.http_routes))
      × (get k s'.https_routes ≡ released t (beq sub k) (get k s.https_routes))
      × (get p s'.port_routes ≡ released t (contains p ports) (get p s.port_routes))
      × (get p s'.udp_routes ≡ released t (contains p udp_ports) (get p s.udp_routes))
      × (get k s'.custom_http ≡ released t (is_custom d k) (get k s.custom_http))
      × (get k s'.custom_https ≡ released t (is_custom d k) (get k s.custom_https))
unfolding teardown
teardown_exact t sub ports udp_ports d s k p = (
  get-release_host t sub k s.http_routes,
  get-release_host t sub k s.https_routes,
  get-release_ports t ports p s.port_routes,
  get-release_ports t udp_ports p s.udp_routes,
  get-release_custom t d k s.custom_http,
  get-release_custom t d k s.custom_https,
)

-- `teardown` removes the `tunnels` entry under the subdomain even when it is another tunnel's.
pub teardown-tunnels :
    (t : ℕ) (sub : Bytes) (ports udp_ports : List ℕ) (d : Option Bytes) (s : CoreState)
    (other : ActiveTunnel)
    → get sub s.tunnels ≡ some other
    → other.tunnel_id ≢ t
    → get sub (teardown t sub ports udp_ports d s).tunnels ≡ none
unfolding teardown
teardown-tunnels t sub ports udp_ports d s other h n =
    ground (arith, get-remove sub sub s.tunnels, beq_iff sub sub)
