-- ===== src/Node/Driver.antt =====
-- `run_client_driver` of natforge-node/src/tunnel/mux.rs. What the connection and the channel answer
-- in one turn of the loop is given: the polls of yamux and of the channel are not code of the
-- repository. A reply's sender is its request's number.
pub mod Order
use natforge_thesis.Prelude.{
  ℕ, Bool, true, false, not, ◌&&◌, List, [], ◌∷◌, ◌++◌, is_empty, if◌then◌else◌,
}

-- A stream by number, or why it could not be opened.
pub data Opened : Type 0 where
  stream : ℕ → Opened
  failed closed : Opened

-- One turn: whether the inbound poll ends the connection (streams that the agent opens are dropped
-- and polled past), what the channel gives before it is pending or closed, and the answers to the
-- polls for an outbound stream until one is pending.
pub record Turn : Type 0 where
  pub inbound_ended : Bool
  pub requests : List ℕ
  pub channel_ended : Bool
  pub outbound : List Opened

pub record Driver : Type 0 where
  pub queue : List ℕ
  pub channel_open : Bool

pub data Next : Type 0 where
  ready pending again : Next

pub record Effect : Type 0 where
  pub driver : Driver
  pub replies : List (ℕ × Opened)
  pub next : Next

-- `for reply in queue.drain(..)`.
unfoldable pub close_all : List ℕ → List (ℕ × Opened)
close_all [] = []
close_all (q ∷ qs) = (q, closed) ∷ close_all qs

-- 2. What is drained from the channel, which is polled only while it is open.
unfoldable pub received : Driver → Turn → List ℕ
received d t = if d.channel_open then t.requests else []

-- 3. The opens that are satisfied, and the queue that is left.
unfoldable pub satisfy : List ℕ → List Opened → List (ℕ × Opened)
satisfy [] os = []
satisfy (q ∷ qs) [] = []
satisfy (q ∷ qs) (o ∷ os) = (q, o) ∷ satisfy qs os

unfoldable pub unsatisfied : List ℕ → List Opened → List ℕ
unsatisfied [] os = []
unsatisfied (q ∷ qs) [] = q ∷ qs
unsatisfied (q ∷ qs) (o ∷ os) = unsatisfied qs os

-- 4. Whether to end, to yield or to go round again.
unfoldable pub decide_next : Bool → List ℕ → List (ℕ × Opened) → Next
decide_next channel_open queue replies =
    if not channel_open && is_empty queue
    then ready
    else if is_empty replies
    then pending
    else again

unfoldable pub turn : Driver → Turn → Effect
unfolding close_all received satisfy unsatisfied decide_next
turn d t =
    let waiting = d.queue ++ received d t in
    let open_ = d.channel_open && not t.channel_ended in
    let left = unsatisfied waiting t.outbound in
    let done = satisfy waiting t.outbound in
    if t.inbound_ended
    then record { driver = record d { queue = [] }; replies = close_all d.queue; next = ready }
    else record {
      driver = record { queue = left; channel_open = open_ };
      replies = done;
      next = decide_next open_ left done;
    }

-- The turns of all wake-ups, one after the other, up to the one that ends the task.
pub record Run : Type 0 where
  pub driver : Driver
  pub replies : List (ℕ × Opened)
  pub accepted : List ℕ
  pub ended : Bool

abbrev pub goes_on : Next → Bool
goes_on ready = false
goes_on _ = true

-- The requests that a turn takes from the channel.
unfoldable pub accepted_in : Driver → Turn → List ℕ
unfolding received
accepted_in d t = if t.inbound_ended then [] else received d t

unfoldable pub run : Driver → List Turn → Run
unfolding turn accepted_in
run d [] = record { driver = d; replies = []; accepted = []; ended = false }
run d (t ∷ ts) =
    let e = turn d t in
    let rest = run e.driver ts in
    if goes_on e.next
    then record rest {
      replies = e.replies ++ rest.replies;
      accepted = accepted_in d t ++ rest.accepted;
    }
    else record { driver = e.driver; replies = e.replies; accepted = accepted_in d t; ended = true }
