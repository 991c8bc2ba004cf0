-- ===== src/Node/Driver/Order.antt =====
-- The order of the replies of `run_client_driver`, natforge-node/src/tunnel/mux.rs.
use natforge_thesis.Prelude.{
  ℕ, ◌≡◌, refl, ap, sym, ◌∙◌, Bool, true, false, not, ◌&&◌, List, [], ◌∷◌, ◌++◌, append_assoc,
  append-nil, arith, Bool-cases, inl, inr,
}
use natforge_thesis.Node.Driver.{
  Opened, Turn, Driver, close_all, received, satisfy, unsatisfied, decide_next, turn, goes_on,
  accepted_in, run,
}

abbrev pub senders : List (ℕ × Opened) → List ℕ
senders [] = []
senders ((q, o) ∷ rs) = q ∷ senders rs

senders-append : (xs ys : List (ℕ × Opened)) → senders (xs ++ ys) ≡ senders xs ++ senders ys
senders-append [] ys = refl
senders-append (x ∷ xs) ys = ap (◌∷◌ x.0) (senders-append xs ys)

senders-close_all : (qs : List ℕ) → senders (close_all qs) ≡ qs
unfolding close_all
senders-close_all [] = refl
senders-close_all (q ∷ qs) = ap (◌∷◌ q) (senders-close_all qs)

senders-satisfy :
    (qs : List ℕ) (os : List Opened) → senders (satisfy qs os) ++ unsatisfied qs os ≡ qs
unfolding satisfy unsatisfied
senders-satisfy [] os = refl
senders-satisfy (q ∷ qs) [] = refl
senders-satisfy (q ∷ qs) (o ∷ os) = ap (◌∷◌ q) (senders-satisfy qs os)

-- One turn answers a front part of what waits and of what it takes in.
turn_kept :
    (d : Driver) (t : Turn)
    → senders (turn d t).replies ++ (turn d t).driver.queue ≡ d.queue ++ accepted_in d t
unfolding turn accepted_in
turn_kept d t = elim (Bool-cases t.inbound_ended) [
  | inl y ↦ rw y (ap (λ x. x ++ []) (senders-close_all d.queue))
  | inr y ↦ rw y (senders-satisfy (d.queue ++ received d t) t.outbound)
]

decide_ready :
    (o : Bool) (q : List ℕ) (rs : List (ℕ × Opened)) → goes_on (decide_next o q rs) ≡ false → q ≡ []
unfolding decide_next
decide_ready o [] rs e = refl
decide_ready o (k ∷ q) rs e = ground (arith, e)

-- A turn that ends the task leaves nothing waiting.
turn_ready :
    (d : Driver) (t : Turn) → goes_on (turn d t).next ≡ false → (turn d t).driver.queue ≡ []
unfolding turn
turn_ready d t e = elim (Bool-cases t.inbound_ended) [
  | inl y ↦ rw y refl
  | inr y ↦
      let left = unsatisfied (d.queue ++ received d t) t.outbound in
      let done = satisfy (d.queue ++ received d t) t.outbound in
      ground (arith, e, y, decide_ready (d.channel_open && not t.channel_ended) left done)
]

joined :
    (t rest : List (ℕ × Opened)) (mid q last acc more : List ℕ)
    → senders t ++ mid ≡ q ++ acc
    → senders rest ++ last ≡ mid ++ more
    → senders (t ++ rest) ++ last ≡ q ++ (acc ++ more)
joined t rest mid q last acc more e f =
    ap (λ x. x ++ last) (senders-append t rest)
    ∙ append_assoc (senders t) (senders rest) last
    ∙ ap (◌++◌ (senders t)) f
    ∙ sym (append_assoc (senders t) mid more)
    ∙ ap (λ x. x ++ more) e
    ∙ append_assoc q acc more

-- Over any turns, the requests that were answered, in the order of their answers, followed by those
-- that still wait, are the requests that waited at first followed by those accepted since, in order;
-- and when the task has ended nothing waits, so each of them was answered once.
pub run_in_order :
    (d : Driver) (ts : List Turn)
    → (senders (run d ts).replies ++ (run d ts).driver.queue ≡ d.queue ++ (run d ts).accepted)
      × ((run d ts).ended ≡ true → (run d ts).driver.queue ≡ [])
unfolding run
run_in_order d [] = (sym (append-nil d.queue), λ e. ground (arith, e))
run_in_order d (t ∷ ts) = elim (Bool-cases (goes_on (turn d t).next)) [
  | inl y ↦
      let (kept, ends) = run_in_order (turn d t).driver ts in
      let r = run (turn d t).driver ts in
      rw y (
        joined (turn d t).replies r.replies (turn d t).driver.queue d.queue r.driver.queue
            (accepted_in d t) r.accepted (turn_kept d t) kept,
        ends,
      )
  | inr y ↦ rw y (turn_kept d t, λ e. turn_ready d t y)
]
