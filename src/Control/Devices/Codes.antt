-- ===== src/Control/Devices/Codes.antt =====
-- Device codes of natforge-backend/src/db/connection.rs under polls that run at the same time.
use natforge_thesis.Prelude.{
  ℕ, ◌+◌, ◌≡◌, ◌≢◌, ◌⊎◌, ◌≤◌, refl, sym, subst, Bool, true, false, Bytes, beq, beq_iff, List, [],
  ◌∷◌, ◌++◌, Option, none, some, get, get-insert, get-remove, nat_eq, bytes_eq, arith, Bool-cases,
  Option-cases, inl, inr,
}
use natforge_thesis.Control.Devices.{
  DeviceRecord, CodeStore, devcode_create, devcode_approve, devcode_approve_device, set_record,
  devcode_status, devcode_consume, Enrollment, expired, grant, grant_session, enroll_check,
  login_check,
}
use natforge_thesis.Control.Devices.Polls.{
  Kind, login, enroll, Progress, asked, logs_in, links, answered, check, advance, Attempt, System,
  Event, create, lapse, approve, approve_device, happen, issues, advanced, arrives, goes_on,
  happens, Reach, here, turn, has_token, tokens,
}

abbrev IsGone : Bytes → Enrollment → Type 0
IsGone dc s = get dc s.store.index ≡ none

set_record-index :
    (user_code : Bytes) (f : DeviceRecord → DeviceRecord) (c : CodeStore)
    → (set_record user_code f c).1.index ≡ c.index
set_record-index user_code f c = elim (Option-cases (get user_code c.by_user)) [
  | inl q ↦ ground (arith, q)
  | inr (r, q) ↦ ground (arith, q)
]

consume-gone :
    (dc d : Bytes) (c : CodeStore)
    → get dc c.index ≡ none
    → get dc (devcode_consume d c).1.index ≡ none
unfolding devcode_consume
consume-gone dc d c h = elim (Option-cases (get d c.index)) [
  | inl q ↦ ground (arith, q, h)
  | inr (u, q) ↦ ground (arith, q, h, get-remove d dc c.index)
]

consumed-gone : (dc : Bytes) (c : CodeStore) → get dc (devcode_consume dc c).1.index ≡ none
unfolding devcode_consume
consumed-gone dc c = elim (Option-cases (get dc c.index)) [
  | inl q ↦ ground (arith, q)
  | inr (u, q) ↦ ground (arith, q, get-remove dc dc c.index, beq_iff dc dc)
]

consume_won : (d : Bytes) (c : CodeStore) → (devcode_consume d c).0 ≡ true → get d c.index ≢ none
unfolding devcode_consume
consume_won d c w h = ground (arith, w, h)

happen-IsGone :
    (dc : Bytes) (e : Event) (s : Enrollment)
    → issues dc e ≡ false
    → IsGone dc s
    → IsGone dc (happen e s)
unfolding happen devcode_create devcode_approve devcode_approve_device
happen-IsGone dc (create user_code device_code) s i h =
    ground (arith, i, h, get-insert device_code dc user_code s.store.index)
happen-IsGone dc (lapse user_code device_code) s i h =
    ground (arith, h, get-remove device_code dc s.store.index)
happen-IsGone dc (approve user_code uid) s i h =
    subst (λ x. get dc x ≡ none)
      (sym (set_record-index user_code (λ r. record r { approved_user = some uid }) s.store)) h
happen-IsGone dc (approve_device user_code uid id) s i h =
    subst (λ x. get dc x ≡ none)
      (sym (
        set_record-index user_code (λ r. record r { approved_user = some uid; device_id = some id })
          s.store))
      h

check_tokenless : (k : Kind) (dc : Bytes) (s : Enrollment) → has_token (check k dc s) ≡ false
unfolding login_check enroll_check
check_tokenless login dc s = elim (Option-cases (devcode_status dc s.store)) [
  | inl q ↦ ground (arith, q)
  | inr (r, q) ↦ elim (Option-cases r.approved_user) [
    | inl u ↦ ground (arith, q, u)
    | inr (uid, u) ↦ ground (arith, q, u)
  ]
]
check_tokenless (enroll nonce) dc s = elim (Option-cases (devcode_status dc s.store)) [
  | inl q ↦ ground (arith, q)
  | inr (r, q) ↦ elim (Option-cases r.approved_user) [
    | inl u ↦ ground (arith, q, u)
    | inr (uid, u) ↦ elim (Option-cases r.device_id) [
      | inl v ↦ ground (arith, q, u, v)
      | inr (id, v) ↦ ground (arith, q, u, v)
    ]
  ]
]

check_gone :
    (k : Kind) (dc : Bytes) (s : Enrollment) → IsGone dc s → check k dc s ≡ answered expired
unfolding login_check enroll_check devcode_status
check_gone login dc s h = ground (arith, h)
check_gone (enroll nonce) dc s h = ground (arith, h)

-- A part of a poll gives it no token, or it deletes the code's index entry, which was there.
record Advanced (d : Bytes) (q q' : Progress) (s s' : Enrollment) : Type 0 where
  keeps : (dc : Bytes) → IsGone dc s → IsGone dc s'
  was :
      has_token q' ≡ false
      ⊎ (q' ≡ q)
      ⊎ ((get d s.store.index ≢ none) × IsGone d s' × (has_token q ≡ false))

grant_session-Advanced :
    (account : ℕ → Option Bool) (d : Bytes) (uid : ℕ) (s : Enrollment)
    → let r = grant_session account d uid s in Advanced d (logs_in uid) (answered r.0) s r.1
grant_session-Advanced account d uid s = record {
  keeps = λ dc h. consume-gone dc d s.store h;
  was = elim (Bool-cases (devcode_consume d s.store).0) [
    | inl w ↦ inr (inr (consume_won d s.store w, consumed-gone d s.store, refl))
    | inr w ↦ inl (ground (arith, w))
  ];
}

grant-store :
    (d nonce : Bytes) (owner id : ℕ) (s : Enrollment)
    → (grant d nonce owner id s).1.store ≡ (devcode_consume d s.store).1
grant-store d nonce owner id s = elim (Bool-cases (devcode_consume d s.store).0) [
  | inl y ↦ ground (arith, y)
  | inr y ↦ ground (arith, y)
]

grant-Advanced :
    (d nonce : Bytes) (owner id : ℕ) (s : Enrollment)
    → let r = grant d nonce owner id s in Advanced d (links nonce owner id) (answered r.0) s r.1
grant-Advanced d nonce owner id s =
    let store = sym (grant-store d nonce owner id s) in
    record {
      keeps = λ dc h. subst (λ x. get dc x.index ≡ none) store (consume-gone dc d s.store h);
      was = elim (Bool-cases (devcode_consume d s.store).0) [
        | inl w ↦ inr (
            inr (
              consume_won d s.store w,
              subst (λ x. get d x.index ≡ none) store (consumed-gone d s.store),
              refl,
            ))
        | inr w ↦ inl (ground (arith, w))
      ];
    }

advance-Advanced :
    (account : ℕ → Option Bool) (d : Bytes) (q : Progress) (s : Enrollment)
    → let r = advance account d q s in Advanced d q r.0 s r.1
unfolding advance
advance-Advanced account d (asked k) s = record {
  keeps = λ dc h. h;
  was = inl (check_tokenless k d s);
}
advance-Advanced account d (logs_in uid) s = grant_session-Advanced account d uid s
advance-Advanced account d (links nonce owner id) s = grant-Advanced d nonce owner id s
advance-Advanced account d (answered p) s = record { keeps = λ dc h. h; was = inr (inl refl) }

tokens-append :
    (dc : Bytes) (before after : List Attempt)
    → tokens dc (before ++ after) ≡ tokens dc before + tokens dc after
tokens-append dc [] after = omega arith
tokens-append dc (a ∷ before) after = ground (arith, tokens-append dc before after)

-- No poll with the code has a token, or one has and the code is gone.
abbrev HasWinner : Bytes → System → Type 0
HasWinner dc x = (tokens dc x.attempts ≡ 0) ⊎ ((tokens dc x.attempts ≡ 1) × IsGone dc x.enrollment)

advanced-HasWinner :
    (account : ℕ → Option Bool) (dc : Bytes) (before : List Attempt) (a : Attempt)
    (after : List Attempt) (x : System)
    → x.attempts ≡ before ++ a ∷ after
    → HasWinner dc x
    → HasWinner dc (advanced account before a after x)
advanced-HasWinner account dc before a after x e w =
    let v = advance-Advanced account a.code a.progress x.enrollment in
    elim v.was [
      | inl f ↦ fewer (ground (arith, old, new, f)) v.keeps
      | inr (inl same) ↦ fewer (ground (arith, old, new, same)) v.keeps
      | inr (inr (there, gone, f)) ↦ elim (Bool-cases (beq a.code dc)) [
        | inr b ↦ fewer (ground (arith, old, new, b)) v.keeps
        | inl b ↦
            let own : a.code ≡ dc = (beq_iff a.code dc).0 b in
            let unclaimed : get dc x.enrollment.store.index ≢ none =
              subst (λ d. get d x.enrollment.store.index ≢ none) own there in
            let lost : IsGone dc r.1 = subst (λ d. IsGone d r.1) own gone in
            first unclaimed lost f b
      ]
    ]
  where
    r : Progress × Enrollment
    r = advance account a.code a.progress x.enrollment

    old : tokens dc x.attempts ≡ tokens dc before + tokens dc (a ∷ after)
    old = ground (arith, e, tokens-append dc before (a ∷ after))

    later : List Attempt
    later = before ++ (record a { progress = r.0 }) ∷ after

    new : tokens dc later ≡ tokens dc before + tokens dc ((record a { progress = r.0 }) ∷ after)
    new = tokens-append dc before ((record a { progress = r.0 }) ∷ after)

    fewer :
        tokens dc later ≤ tokens dc x.attempts
        → ((d : Bytes) → IsGone d x.enrollment → IsGone d r.1)
        → (tokens dc later ≡ 0) ⊎ ((tokens dc later ≡ 1) × IsGone dc r.1)
    fewer l keeps = ground (arith, l, w, keeps dc)

    first :
        get dc x.enrollment.store.index ≢ none
        → IsGone dc r.1
        → has_token a.progress ≡ false
        → beq a.code dc ≡ true
        → (tokens dc later ≡ 0) ⊎ ((tokens dc later ≡ 1) × IsGone dc r.1)
    first there gone f b =
        ground (arith, w, there, gone, f, b, old, new, Bool-cases (has_token r.0))

Reach-HasWinner :
    (account : ℕ → Option Bool) (dc : Bytes) (s : Enrollment) (x : System)
    → Reach account dc (record { enrollment = s; attempts = [] }) x
    → HasWinner dc x
Reach-HasWinner account dc s x here = inl refl
Reach-HasWinner account dc s _ (turn {x} reached (arrives code k)) =
    ground (arith, Reach-HasWinner account dc s x reached)
Reach-HasWinner account dc s _ (turn {x} reached (goes_on before a after e)) =
    advanced-HasWinner account dc before a after x e (Reach-HasWinner account dc s x reached)
Reach-HasWinner account dc s _ (turn {x} reached (happens e i)) =
    ground (arith, Reach-HasWinner account dc s x reached, happen-IsGone dc e x.enrollment i)

-- Of all the polls with a device code, however their parts interleave with each other, with approvals,
-- lapses and new codes but this one, at most one is answered with a session or a device token; and once
-- one is, every poll that looks the code up is told that it has expired.
pub Reach-single_winner :
    (account : ℕ → Option Bool) (dc : Bytes) (s : Enrollment) (x : System)
    → Reach account dc (record { enrollment = s; attempts = [] }) x
    → (tokens dc x.attempts ≤ 1)
      × (tokens dc x.attempts ≡ 1 → (k : Kind) → check k dc x.enrollment ≡ answered expired)
Reach-single_winner account dc s x reached = elim (Reach-HasWinner account dc s x reached) [
  | inl e ↦ (ground (arith, e), λ i. ground (arith, e, i))
  | inr (e, gone) ↦ (ground (arith, e), λ i k. check_gone k dc x.enrollment gone)
]
