-- ===== src/Node/Flows/Drained.antt =====
-- What becomes of the flow table of `udp_listener_loop` in natforge-node/src/tunnel/mod.rs once the
-- close messages are handled, and of a flow that is opened again before its message is.
use natforge_thesis.Prelude.{
  ℕ, ◌≡◌, ◌<◌, refl, subst, sym, true, false, List, [], ◌∷◌, ◌++◌, none, some, get, get-insert,
  get-remove, length, arith, Option-cases, inl, inr,
}
use natforge_thesis.Proto.Preamble.{SocketAddr}
use natforge_thesis.Node.State.{RouteHandle, is_country_blocked}
use natforge_thesis.Node.Flows.Addresses.{addr_eq, same_addr_iff}
use natforge_thesis.Node.Flows.{
  Flow, Listener, opened, Arrival, is_relaying, try_send, udp_max_flows, open_flow, on_datagram,
  on_closed, forget, spawned, Step, datagram, closes, ends, sends, Reach, turn, fresh,
}
use natforge_thesis.Node.Flows.Table.{length-remove, Serves, Reach-IsCovered}

-- A turn that is no datagram's and no end of a relay: a task sends its message, or the listener handles
-- one.
abbrev pub IsSettling : {h : RouteHandle} {l m : Listener} → Step h l m → Type 0
IsSettling (datagram a w) = ⊥
IsSettling (ends before f after e) = ⊥
IsSettling (closes peer rest w e) = Unit
IsSettling (sends before f after e) = Unit

pub data Settles (h : RouteHandle) (s : Listener) : Listener → Type 0 where
  settled : Settles h s s
  settle : {l m : Listener} → Settles h s l → (t : Step h l m) → IsSettling t → Settles h s m

Reach-Settles : (h : RouteHandle) (a b c : Listener) → Reach h a b → Settles h b c → Reach h a c
Reach-Settles h a b c r settled = r
Reach-Settles h a b c r (settle {l} q t i) = turn (Reach-Settles h a b l r q) t

-- A listener that runs, with no relay.
abbrev IsQuiet : Listener → Type 0
IsQuiet l = (l.relaying ≡ []) × (l.running ≡ true)

-- One that `s` settles to and that has every message sent and handled.
abbrev Drains : RouteHandle → Listener → Listener → Type 0
Drains h s m = Settles h s m × IsQuiet m × (m.ending ≡ []) × (m.closed ≡ [])

handled :
    (h : RouteHandle) (s l : Listener) (messages : List SocketAddr)
    → l.closed ≡ messages
    → l.ending ≡ []
    → IsQuiet l
    → Settles h s l
    → (m : Listener) × Drains h s m
unfolding on_closed
handled h s l [] q e i r = (l, (r, i, e, q))
handled h s l (p ∷ rest) q e i r =
    handled h s (on_closed p rest l) rest refl e i (settle r (closes p rest i.1 q) tt)

finished :
    (h : RouteHandle) (s l : Listener) (tasks : List Flow)
    → l.ending ≡ tasks
    → IsQuiet l
    → Settles h s l
    → (m : Listener) × Drains h s m
finished h s l [] e i r = handled h s l l.closed refl e i r
finished h s l (f ∷ fs) e i r =
    finished h s (record l { ending = fs; closed = l.closed ++ f.peer ∷ [] }) fs refl i
      (settle r (sends [] f fs e) tt)

-- A UDP listener that runs and whose tasks' relays are all over goes on, by its own turns for close
-- messages and the tasks' sending of theirs and without any datagram, to where it still runs and no client
-- keeps an entry in its table: the cap never stays used up by flows that have ended.
pub Reach-drained :
    (h : RouteHandle) (l : Listener)
    → Reach h fresh l
    → l.running ≡ true
    → l.relaying ≡ []
    → (m : Listener) × Settles h l m
      × (m.running ≡ true)
      × ((peer : SocketAddr) → get peer m.flows ≡ none)
Reach-drained h l r w i =
    let (m, (settles, (quiet, runs), sent, handled')) =
      finished h l l l.ending refl (i, w) settled in
    let (b, c) = Reach-IsCovered h m (Reach-Settles h fresh l m r settles) in
    (
      m,
      settles,
      runs,
      λ peer. elim (Option-cases (get peer m.flows)) [
        | inl e ↦ e
        | inr (id, e) ↦ ground (arith, c peer id e, quiet, sent, handled')
      ],
    )

reopened :
    (h : RouteHandle) (l : Listener) (a : Arrival) (id : ℕ)
    → get a.peer l.flows ≡ some id
    → is_relaying id l.relaying ≡ false
    → length l.flows < udp_max_flows
    → is_country_blocked a.core h.tunnel_id a.country ≡ false
    → a.opening ≡ opened
    → on_datagram h a l ≡ spawned a.peer (forget a.peer l)
unfolding on_datagram open_flow try_send
reopened h l a id g s n b o = ground (arith, g, s, n, b, o, length-remove a.peer l.flows)

reopened_stale :
    (h : RouteHandle) (l : Listener) (peer : SocketAddr) (rest : List SocketAddr)
    → l.running ≡ true
    → l.closed ≡ peer ∷ rest
    → (get peer (spawned peer (forget peer l)).flows ≡ some l.next)
      × Step h (spawned peer (forget peer l)) (on_closed peer rest (spawned peer (forget peer l)))
      × Serves l.next peer (on_closed peer rest (spawned peer (forget peer l))).relaying
      × (get peer (on_closed peer rest (spawned peer (forget peer l))).flows ≡ none)
unfolding on_closed
reopened_stale h l peer rest w q = (
  ground (arith, get-insert peer peer l.next (forget peer l).flows, same_addr_iff peer peer),
  closes peer rest w q,
  inl (refl, refl),
  ground
      (arith, get-remove peer peer (spawned peer (forget peer l)).flows, same_addr_iff peer peer),
)

-- When a client's relay is over and its close message waits, a datagram of the client that gets a
-- stream opens a new flow, and the listener's next turn for the message removes the new flow from the
-- table, while its task relays for the client.
pub on_closed_stale :
    (h : RouteHandle) (l : Listener) (a : Arrival) (id : ℕ) (rest : List SocketAddr)
    → l.running ≡ true
    → get a.peer l.flows ≡ some id
    → is_relaying id l.relaying ≡ false
    → l.closed ≡ a.peer ∷ rest
    → length l.flows < udp_max_flows
    → is_country_blocked a.core h.tunnel_id a.country ≡ false
    → a.opening ≡ opened
    → (get a.peer (on_datagram h a l).flows ≡ some l.next)
      × Step h (on_datagram h a l) (on_closed a.peer rest (on_datagram h a l))
      × Serves l.next a.peer (on_closed a.peer rest (on_datagram h a l)).relaying
      × (get a.peer (on_closed a.peer rest (on_datagram h a l)).flows ≡ none)
on_closed_stale h l a id rest w g s q n b o =
    subst
      (λ m.
        (get a.peer m.flows ≡ some l.next)
        × Step h m (on_closed a.peer rest m)
        × Serves l.next a.peer (on_closed a.peer rest m).relaying
        × (get a.peer (on_closed a.peer rest m).flows ≡ none))
      (sym (reopened h l a id g s n b o)) (reopened_stale h l a.peer rest w q)
