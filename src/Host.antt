-- ===== src/Host.antt =====
-- The agent, natforge-agent/src/service_host.rs: the tasks of `run_device`, the hello of
-- `connect_and_serve`, and `handle_stream` with `udp_relay`. Outside: whether a local port takes a
-- connection; a local service that does takes everything that it is sent. What the service answers is
-- copied back and is not modelled.
pub mod Tasks
pub mod Hello
pub mod Reached
use natforge_thesis.Prelude.{
  ℕ, Bool, true, false, not, ◌&&◌, ◌||◌, Bytes, List, [], ◌∷◌, ◌++◌, Option, none, some, Map, get,
  insert, remove, nat_eq, map, ◌==◌, if◌then◌else◌, Result, ok, err, and_then,
}
use natforge_thesis.Proto.Route.{RouteMode, udp}
use natforge_thesis.Proto.Claims.{contains, is_some}
use natforge_thesis.Proto.Stream.{Reader, Sink, IoError, write_all}
use natforge_thesis.Proto.Datagram.{receive_all, send_all}
use natforge_thesis.Proto.Preamble.{SocketAddr, read_preamble, encode_preamble}
use natforge_thesis.Node.Agent.{AgentRouteBinding, AgentHello, role_service_host}

pub record ReservedRoute : Type 0 where
  pub route_id : ℕ
  pub mode : RouteMode
  pub local_port : ℕ

pub record Reservation : Type 0 where
  pub tunnel_id : ℕ
  pub tunnel_token : Bytes
  pub routes : List ReservedRoute
  pub control_endpoint : Bytes
  pub control_cert_fingerprint : Option Bytes

-- `run_device`: a serve task, with the reservation that it was started with.
pub record Task : Type 0 where
  pub serving : Reservation
  pub is_finished : Bool

abbrev pub Tasks : Type 0
Tasks = Map ℕ Task

abbrev pub tunnel_ids : List Reservation → List ℕ
tunnel_ids [] = []
tunnel_ids (r ∷ rs) = r.tunnel_id ∷ tunnel_ids rs

-- `tasks.retain`: the ids whose task is aborted, and the tasks that stay.
abbrev pub stays : List ℕ → ℕ → Task → Bool
stays want id t = contains id want && not t.is_finished

unfoldable pub retain : List ℕ → Tasks → Tasks
retain want [] = []
retain want ((id, t) ∷ ts) =
    let rest = retain want ts in if stays want id t then (id, t) ∷ rest else remove id rest

unfoldable pub aborted : List ℕ → Tasks → List ℕ
aborted want [] = []
aborted want ((id, t) ∷ ts) =
    let rest = aborted want ts in if contains id want then rest else id ∷ rest

-- A serve task for every service without one.
abbrev pub started : Reservation → Task
started r = record { serving = r; is_finished = false }

unfoldable pub spawn_missing : List Reservation → Tasks → Tasks
spawn_missing [] ts = ts
spawn_missing (r ∷ rs) ts =
    spawn_missing rs
      (if is_some (get r.tunnel_id ts) then ts else insert r.tunnel_id (started r) ts)

-- One turn of the loop with a configuration that was fetched.
unfoldable pub reconcile : List Reservation → Tasks → Tasks
unfolding retain spawn_missing
reconcile services ts = spawn_missing services (retain (tunnel_ids services) ts)

-- `connect_and_serve`: the routes by id, and the hello.
unfoldable pub route_map : List ReservedRoute → Map ℕ (RouteMode × ℕ) → Map ℕ (RouteMode × ℕ)
route_map [] m = m
route_map (r ∷ rs) m = route_map rs (insert r.route_id (r.mode, r.local_port) m)

abbrev pub bindings : List ReservedRoute → List AgentRouteBinding
bindings [] = []
bindings (r ∷ rs) = (record { route_id = r.route_id; local_port = r.local_port }) ∷ bindings rs

unfoldable pub hello_of : Reservation → AgentHello
hello_of r = record {
  tunnel_token = r.tunnel_token;
  role = role_service_host;
  routes = bindings r.routes;
}

-- What becomes of a stream: nothing is sent to a local service, a TCP service gets bytes, or a UDP
-- service gets datagrams.
pub data Served : Type 0 where
  unserved : Served
  to_tcp : ℕ → Bytes → Served
  to_udp : ℕ → List Bytes → Served

unfoldable pub udp_relay : ℕ → (ℕ → Bool) → ℕ → Reader → Served
udp_relay fuel listens port r = if listens port then to_udp port (receive_all fuel r) else unserved

unfoldable pub tcp_relay : (ℕ → Bool) → ℕ → Bytes → Reader → Served
tcp_relay listens port replay r =
    if listens port then to_tcp port (replay ++ r.pending) else unserved

abbrev pub relay : ℕ → (ℕ → Bool) → RouteMode → ℕ → Bytes → Reader → Served
relay fuel listens udp port replay r = udp_relay fuel listens port r
relay fuel listens _ port replay r = tcp_relay listens port replay r

unfoldable pub handle_stream : ℕ → (ℕ → Bool) → Map ℕ (RouteMode × ℕ) → Reader → Served
unfolding udp_relay tcp_relay
handle_stream fuel listens routes r = elim (read_preamble r) [
  | err e ↦ unserved
  | ok ((route_id, peer, replay), r') ↦ elim (get route_id routes) [
    | none ↦ unserved
    | some (mode, port) ↦ relay fuel listens mode port replay r'
  ]
]

-- The node's side of a UDP flow (`udp_flow` of natforge-node/src/tunnel/mod.rs), up to its end: the
-- preamble and the client's datagrams.
unfoldable pub udp_flow : ℕ → SocketAddr → List Bytes → Sink → Result IoError Sink
udp_flow route_id peer ds s =
    and_then (write_all (encode_preamble route_id (some peer) []) s) (send_all ds)
