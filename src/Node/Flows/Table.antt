-- ===== src/Node/Flows/Table.antt =====
-- The flow table of `udp_listener_loop` in natforge-node/src/tunnel/mod.rs over every interleaving of
-- datagrams, ending tasks and close messages.
use natforge_thesis.Prelude.{
  ℕ, ◌≡◌, ◌≤◌, ◌<◌, ◌+◌, ◌⊎◌, refl, sym, subst, false, List, [], ◌∷◌, ◌++◌, Option, none, some, Map,
  get, insert, remove, get-insert, get-remove, length, arith, Bool-cases, inl, inr,
}
use natforge_thesis.Proto.Preamble.{SocketAddr}
use natforge_thesis.Node.State.{RouteHandle, is_country_blocked}
use natforge_thesis.Node.Flows.Addresses.{addr_eq, same_addr, same_addr_iff}
use natforge_thesis.Node.Flows.{
  Flow, Listener, Opening, gone, refused, opened, Arrival, Sent, delivered, congested, shut,
  try_send, forget, spawned, stopped, open_flow, on_datagram, on_closed, Step, datagram, closes,
  ends, sends, Reach, here, turn, fresh, udp_max_flows,
}

pub length-remove : (p : SocketAddr) (m : Map SocketAddr ℕ) → length (remove p m) ≤ length m
unfolding remove
length-remove p [] = omega arith
length-remove p ((k, v) ∷ m) = ground (arith, length-remove p m)

abbrev pub IsBounded : Listener → Type 0
IsBounded l = length l.flows ≤ udp_max_flows

length-insert :
    (p : SocketAddr) (v : ℕ) (m : Map SocketAddr ℕ) → length (insert p v m) ≤ length m + 1
unfolding insert
length-insert p v m = ground (arith, length-remove p m)

-- The turns of the loop: nothing changes, the loop stops, or a task is spawned.
open_flow_cases :
    (h : RouteHandle) (a : Arrival) (l : Listener)
    → (open_flow h a l ≡ l)
      ⊎ (open_flow h a l ≡ stopped l)
      ⊎ ((length l.flows < udp_max_flows)
          × (is_country_blocked a.core h.tunnel_id a.country ≡ false)
          × (open_flow h a l ≡ spawned a.peer l))
unfolding open_flow
open_flow_cases h a l = by_answer a.opening refl
  where
    by_answer :
        (o : Opening)
        → a.opening ≡ o
        → (open_flow h a l ≡ l)
          ⊎ (open_flow h a l ≡ stopped l)
          ⊎ ((length l.flows < udp_max_flows)
              × (is_country_blocked a.core h.tunnel_id a.country ≡ false)
              × (open_flow h a l ≡ spawned a.peer l))
    by_answer gone q = ground (arith, q)
    by_answer refused q = ground (arith, q)
    by_answer opened q = ground (arith, q)

on_datagram_cases :
    (h : RouteHandle) (a : Arrival) (l : Listener)
    → (on_datagram h a l ≡ l)
      ⊎ (on_datagram h a l ≡ open_flow h a l)
      ⊎ (on_datagram h a l ≡ open_flow h a (forget a.peer l))
unfolding on_datagram
on_datagram_cases h a l = by_entry (get a.peer l.flows) refl
  where
    by_send :
        (id : ℕ) (s : Sent)
        → get a.peer l.flows ≡ some id
        → try_send id a.has_room l.relaying ≡ s
        → (on_datagram h a l ≡ l)
          ⊎ (on_datagram h a l ≡ open_flow h a l)
          ⊎ (on_datagram h a l ≡ open_flow h a (forget a.peer l))
    by_send id delivered q w = inl (ground (arith, q, w))
    by_send id congested q w = inl (ground (arith, q, w))
    by_send id shut q w = inr (inr (ground (arith, q, w)))

    by_entry :
        (o : Option ℕ)
        → get a.peer l.flows ≡ o
        → (on_datagram h a l ≡ l)
          ⊎ (on_datagram h a l ≡ open_flow h a l)
          ⊎ (on_datagram h a l ≡ open_flow h a (forget a.peer l))
    by_entry none q = inr (inl (ground (arith, q)))
    by_entry (some id) q = by_send id (try_send id a.has_room l.relaying) q refl

-- What holds of a listener and of what a turn makes of it holds after a datagram.
on_datagram_keeps :
    (P : Listener → Type 0) (h : RouteHandle) (a : Arrival)
    → ((l : Listener) → P l → P (forget a.peer l))
    → ((l : Listener) → P l → P (stopped l))
    → ((l : Listener) → length l.flows < udp_max_flows → P l → P (spawned a.peer l))
    → (l : Listener) → P l
    → P (on_datagram h a l)
on_datagram_keeps P h a f s n l p = elim (on_datagram_cases h a l) [
  | inl e ↦ subst P (sym e) p
  | inr (inl e) ↦ subst P (sym e) (opens l p)
  | inr (inr e) ↦ subst P (sym e) (opens (forget a.peer l) (f l p))
]
  where
    opens : (l : Listener) → P l → P (open_flow h a l)
    opens l p = elim (open_flow_cases h a l) [
      | inl e ↦ subst P (sym e) p
      | inr (inl e) ↦ subst P (sym e) (s l p)
      | inr (inr (r, b, e)) ↦ subst P (sym e) (n l r p)
    ]

Step-IsBounded : {h : RouteHandle} {l m : Listener} → Step h l m → IsBounded l → IsBounded m
unfolding on_closed
Step-IsBounded {h} {l} (datagram a r) b =
    on_datagram_keeps IsBounded h a (λ l c. ground (arith, c, length-remove a.peer l.flows))
      (λ l c. omega arith) (λ l r c. ground (arith, r, length-insert a.peer l.next l.flows)) l b
Step-IsBounded {h} {l} (closes peer rest r c) b = ground (arith, b, length-remove peer l.flows)
Step-IsBounded (ends before f after e) b = b
Step-IsBounded (sends before f after e) b = b

-- A task of the list serves the client under that number; a task of the list is the client's; the
-- client is in the list.
abbrev pub Serves : ℕ → SocketAddr → List Flow → Type 0
Serves id peer [] = ⊥
Serves id peer (f ∷ fs) = ((f.id ≡ id) × (f.peer ≡ peer)) ⊎ Serves id peer fs

abbrev pub HasTask : SocketAddr → List Flow → Type 0
HasTask peer [] = ⊥
HasTask peer (f ∷ fs) = (f.peer ≡ peer) ⊎ HasTask peer fs

abbrev pub HasMessage : SocketAddr → List SocketAddr → Type 0
HasMessage peer [] = ⊥
HasMessage peer (p ∷ ps) = (p ≡ peer) ⊎ HasMessage peer ps

-- Every entry of the table belongs to a task that relays for that client, or a close message for the
-- client is sent or will be.
abbrev pub IsCovered : Listener → Type 0
IsCovered l =
    (peer : SocketAddr) (id : ℕ)
    → get peer l.flows ≡ some id
    → Serves id peer l.relaying ⊎ HasTask peer l.ending ⊎ HasMessage peer l.closed

Serves-split :
    (id : ℕ) (peer : SocketAddr) (before : List Flow) (f : Flow) (after : List Flow)
    → Serves id peer (before ++ f ∷ after)
    → (f.peer ≡ peer) ⊎ Serves id peer (before ++ after)
Serves-split id peer [] f after (inl s) = inl s.1
Serves-split id peer [] f after (inr s) = inr s
Serves-split id peer (g ∷ before) f after (inl s) = inr (inl s)
Serves-split id peer (g ∷ before) f after (inr s) = elim (Serves-split id peer before f after s) [
  | inl p ↦ inl p
  | inr s' ↦ inr (inr s')
]

HasTask-split :
    (peer : SocketAddr) (before : List Flow) (f : Flow) (after : List Flow)
    → HasTask peer (before ++ f ∷ after)
    → (f.peer ≡ peer) ⊎ HasTask peer (before ++ after)
HasTask-split peer [] f after s = s
HasTask-split peer (g ∷ before) f after (inl s) = inr (inl s)
HasTask-split peer (g ∷ before) f after (inr s) = elim (HasTask-split peer before f after s) [
  | inl p ↦ inl p
  | inr s' ↦ inr (inr s')
]

HasMessage-later :
    (peer : SocketAddr) (ps qs : List SocketAddr) → HasMessage peer ps → HasMessage peer (ps ++ qs)
HasMessage-later peer [] qs m = elim m [ ]
HasMessage-later peer (p ∷ ps) qs (inl m) = inl m
HasMessage-later peer (p ∷ ps) qs (inr m) = inr (HasMessage-later peer ps qs m)

HasMessage-last :
    (peer p : SocketAddr) (ps : List SocketAddr) → p ≡ peer → HasMessage peer (ps ++ p ∷ [])
HasMessage-last peer p [] e = inl e
HasMessage-last peer p (q ∷ ps) e = inr (HasMessage-last peer p ps e)

removed-IsCovered :
    (p : SocketAddr) (l : Listener)
    → IsCovered l
    → IsCovered (record l { flows = remove p l.flows })
removed-IsCovered p l c peer id e = c peer id (ground (arith, e, get-remove p peer l.flows))

stopped-IsCovered : (l : Listener) → IsCovered (stopped l)
unfolding get
stopped-IsCovered l peer id e = ground (arith, e)

spawned-IsCovered : (p : SocketAddr) (l : Listener) → IsCovered l → IsCovered (spawned p l)
spawned-IsCovered p l c peer id e = elim (Bool-cases (same_addr p peer)) [
  | inl y ↦
      inl (inl (ground (arith, e, y, get-insert p peer l.next l.flows), (same_addr_iff p peer).0 y))
  | inr y ↦ elim (c peer id (ground (arith, e, y, get-insert p peer l.next l.flows))) [
    | inl s ↦ inl (inr s)
    | inr w ↦ inr w
  ]
]

closed-IsCovered :
    (p : SocketAddr) (rest : List SocketAddr) (l : Listener)
    → l.closed ≡ p ∷ rest
    → IsCovered l
    → IsCovered (on_closed p rest l)
unfolding on_closed
closed-IsCovered p rest l q c peer id e =
    elim (c peer id (ground (arith, e, get-remove p peer l.flows))) [
      | inl s ↦ inl s
      | inr (inl s) ↦ inr (inl s)
      | inr (inr s) ↦ inr (inr (later (subst (HasMessage peer) q s)))
    ]
  where
    later : HasMessage peer (p ∷ rest) → HasMessage peer rest
    later (inl m) = ground (arith, e, m, get-remove p peer l.flows, same_addr_iff p peer)
    later (inr m) = m

Step-IsCovered : {h : RouteHandle} {l m : Listener} → Step h l m → IsCovered l → IsCovered m
Step-IsCovered {h} {l} (datagram a r) c peer id e =
    on_datagram_keeps IsCovered h a (removed-IsCovered a.peer) (λ l k. stopped-IsCovered l)
      (λ l r k. spawned-IsCovered a.peer l k) l c peer id e
Step-IsCovered {h} {l} (closes p rest r q) c peer id e = closed-IsCovered p rest l q c peer id e
Step-IsCovered {h} {l} (ends before f after q) c peer id e = elim (c peer id e) [
  | inl s ↦ elim (Serves-split id peer before f after (subst (Serves id peer) q s)) [
    | inl p ↦ inr (inl (inl p))
    | inr s' ↦ inl s'
  ]
  | inr (inl s) ↦ inr (inl (inr s))
  | inr (inr s) ↦ inr (inr s)
]
Step-IsCovered {h} {l} (sends before f after q) c peer id e = elim (c peer id e) [
  | inl s ↦ inl s
  | inr (inl s) ↦ elim (HasTask-split peer before f after (subst (HasTask peer) q s)) [
    | inl p ↦ inr (inr (HasMessage-last peer f.peer l.closed p))
    | inr s' ↦ inr (inl s')
  ]
  | inr (inr s) ↦ inr (inr (HasMessage-later peer l.closed _ s))
]

fresh-IsCovered : IsCovered fresh
unfolding get
fresh-IsCovered peer id e = ground (arith, e)

-- However datagrams, ending tasks and close messages interleave, the flow table of a UDP listener has
-- at most 4096 entries, and each entry belongs to a task that relays for that very client, or a close
-- message for the client is sent or will be.
pub Reach-IsCovered : (h : RouteHandle) (l : Listener) → Reach h fresh l → IsBounded l × IsCovered l
Reach-IsCovered h l here = (omega arith, fresh-IsCovered)
Reach-IsCovered h l (turn r s) =
    let (b, c) = Reach-IsCovered h _ r in (Step-IsBounded s b, Step-IsCovered s c)
