-- ===== src/Node/Flows.antt =====
-- `udp_listener_loop` of natforge-node/src/tunnel/mod.rs, and what its flow tasks do to its table. A
-- channel to a flow task is the task's number; the channel is closed once the task's relay is over.
-- The list of close messages has no bound: a task whose message waits for room is one whose message
-- is in the list. The connection log is not modelled.
pub mod Addresses
pub mod Table
pub mod Drained
use natforge_thesis.Prelude.{
  ℕ, ◌+◌, ◌≡◌, Bool, true, false, ◌||◌, Bytes, List, [], ◌∷◌, ◌++◌, Option, none, some, Map, Eq,
  get, insert, remove, length, leb, ◌==◌, if◌then◌else◌,
}
use natforge_thesis.Proto.Preamble.{SocketAddr}
use natforge_thesis.Node.State.{RouteHandle, CoreState, is_country_blocked}
use natforge_thesis.Node.Flows.Addresses.{addr_eq}

abbrev pub udp_max_flows : ℕ
udp_max_flows = 4096

-- A flow task, by its number, and the client that it serves.
pub record Flow : Type 0 where
  pub id : ℕ
  pub peer : SocketAddr

pub record Listener : Type 0 where
  pub flows : Map SocketAddr ℕ
  -- The tasks that relay, those whose relay is over and whose message is not sent, the messages sent,
  -- and the next task's number.
  pub relaying : List Flow
  pub ending : List Flow
  pub closed : List SocketAddr
  pub next : ℕ
  pub running : Bool

-- The agent's answer to a request for a stream: its session is gone, it gives none, or it gives one.
pub data Opening : Type 0 where
  gone refused opened : Opening

-- What a datagram finds: its source, the node's registries, whether the channel of its flow has room,
-- and the answer that a request for a stream would get.
pub record Arrival : Type 0 where
  pub peer : SocketAddr
  pub core : CoreState
  pub country : Option Bytes
  pub has_room : Bool
  pub opening : Opening

unfoldable pub is_relaying : ℕ → List Flow → Bool
is_relaying id [] = false
is_relaying id (f ∷ fs) = f.id == id || is_relaying id fs

pub data Sent : Type 0 where
  delivered congested shut : Sent

unfoldable pub try_send : ℕ → Bool → List Flow → Sent
unfolding is_relaying
try_send id has_room fs =
    if is_relaying id fs then (if has_room then delivered else congested) else shut

abbrev pub forget : SocketAddr → Listener → Listener
forget peer l = record l { flows = remove peer l.flows }

abbrev pub spawned : SocketAddr → Listener → Listener
spawned peer l = record l {
  flows = insert peer l.next l.flows;
  relaying = (record { id = l.next; peer = peer }) ∷ l.relaying;
  next = l.next + 1;
}

abbrev pub stopped : Listener → Listener
stopped l = record l { flows = []; running = false }

unfoldable pub open_flow : RouteHandle → Arrival → Listener → Listener
open_flow h a l =
    if leb udp_max_flows (length l.flows)
    then l
    else if is_country_blocked a.core h.tunnel_id a.country
    then l
    else elim a.opening [ gone ↦ stopped l | refused ↦ l | opened ↦ spawned a.peer l ]

-- The arm of the `select!` for a datagram.
unfoldable pub on_datagram : RouteHandle → Arrival → Listener → Listener
unfolding try_send open_flow
on_datagram h a l = elim (get a.peer l.flows) [
  | none ↦ open_flow h a l
  | some id ↦ elim (try_send id a.has_room l.relaying) [
    | delivered ↦ l
    | congested ↦ l
    | shut ↦ open_flow h a (forget a.peer l)
  ]
]

-- The arm for a close message.
unfoldable pub on_closed : SocketAddr → List SocketAddr → Listener → Listener
on_closed peer rest l = record (forget peer l) { closed = rest }

-- The loop's turns, while it runs, and the tasks': a relay ends, for whatever reason, and later its
-- message is sent.
pub data Step (h : RouteHandle) : Listener → Listener → Type 0 where
  datagram : {l : Listener} (a : Arrival) → l.running ≡ true → Step h l (on_datagram h a l)
  closes :
      {l : Listener} (peer : SocketAddr) (rest : List SocketAddr)
      → l.running ≡ true
      → l.closed ≡ peer ∷ rest
      → Step h l (on_closed peer rest l)
  ends :
      {l : Listener} (before : List Flow) (f : Flow) (after : List Flow)
      → l.relaying ≡ before ++ f ∷ after
      → Step h l (record l { relaying = before ++ after; ending = f ∷ l.ending })
  sends :
      {l : Listener} (before : List Flow) (f : Flow) (after : List Flow)
      → l.ending ≡ before ++ f ∷ after
      → Step h l (record l { ending = before ++ after; closed = l.closed ++ f.peer ∷ [] })

pub data Reach (h : RouteHandle) (s : Listener) : Listener → Type 0 where
  here : Reach h s s
  turn : {l m : Listener} → Reach h s l → Step h l m → Reach h s m

abbrev pub fresh : Listener
fresh = record { flows = []; relaying = []; ending = []; closed = []; next = 0; running = true }
