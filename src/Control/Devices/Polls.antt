-- ===== src/Control/Devices/Polls.antt =====
-- Polls of handlers/devices.rs and handlers/auth.rs that run at the same time: each looks its code up and
-- later redeems the approval that it found, and between the two anything else may happen. Redis runs one
-- command at a time; the deletion of the index entry, which tells the winner, stands for all three of
-- `devcode_consume`.
use natforge_thesis.Prelude.{
  ℕ, ◌+◌, ◌≡◌, Bool, true, false, ◌&&◌, Bytes, beq, List, [], ◌∷◌, ◌++◌, Option, remove, nat_eq,
  bytes_eq, if◌then◌else◌, ok, err,
}
use natforge_thesis.Control.Devices.{
  devcode_create, devcode_approve, devcode_approve_device, Enrollment, Poll, device_token, session,
  grant, grant_session, enroll_check, login_check,
}

-- The two polls; an enrollment draws a nonce.
pub data Kind : Type 0 where
  login : Kind
  enroll : Bytes → Kind

pub data Progress : Type 0 where
  asked : Kind → Progress
  logs_in : ℕ → Progress
  links : Bytes → ℕ → ℕ → Progress
  answered : Poll → Progress

abbrev pub check : Kind → Bytes → Enrollment → Progress
check login dc s = elim (login_check dc s) [ err p ↦ answered p | ok uid ↦ logs_in uid ]
check (enroll nonce) dc s = elim (enroll_check dc s) [
  | err p ↦ answered p
  | ok (owner, id) ↦ links nonce owner id
]

-- The next part of a poll.
unfoldable pub advance : (ℕ → Option Bool) → Bytes → Progress → Enrollment → Progress × Enrollment
advance account dc (asked k) s = (check k dc s, s)
advance account dc (logs_in uid) s =
    let (p, s') = grant_session account dc uid s in (answered p, s')
advance account dc (links nonce owner id) s =
    let (p, s') = grant dc nonce owner id s in (answered p, s')
advance account dc (answered p) s = (answered p, s)

pub record Attempt : Type 0 where
  pub code : Bytes
  pub progress : Progress

pub record System : Type 0 where
  pub enrollment : Enrollment
  pub attempts : List Attempt

-- What else may happen to the codes; an entry lapses when its time is over.
pub data Event : Type 0 where
  create lapse : Bytes → Bytes → Event
  approve : Bytes → ℕ → Event
  approve_device : Bytes → ℕ → ℕ → Event

unfoldable pub happen : Event → Enrollment → Enrollment
happen (create user_code device_code) s = record s {
  store = devcode_create user_code device_code s.store;
}
happen (lapse user_code device_code) s = record s {
  store = record {
    by_user = remove user_code s.store.by_user;
    index = remove device_code s.store.index;
  };
}
happen (approve user_code uid) s = record s { store = (devcode_approve user_code uid s.store).1 }
happen (approve_device user_code uid id) s = record s {
  store = (devcode_approve_device user_code uid id s.store).1;
}

abbrev pub issues : Bytes → Event → Bool
issues dc (create user_code device_code) = beq device_code dc
issues dc _ = false

abbrev pub arrived : Bytes → Kind → System → System
arrived code k x = record x { attempts = (record { code = code; progress = asked k }) ∷ x.attempts }

abbrev pub advanced : (ℕ → Option Bool) → List Attempt → Attempt → List Attempt → System → System
advanced account before a after x =
    let (p, s) = advance account a.code a.progress x.enrollment in
    record { enrollment = s; attempts = before ++ (record a { progress = p }) ∷ after }

-- Any order of the polls' parts and of other events but another issue of the code `dc`.
pub data Step (account : ℕ → Option Bool) (dc : Bytes) : System → System → Type 0 where
  arrives : {x : System} (code : Bytes) (k : Kind) → Step account dc x (arrived code k x)
  goes_on :
      {x : System} (before : List Attempt) (a : Attempt) (after : List Attempt)
      → x.attempts ≡ before ++ a ∷ after
      → Step account dc x (advanced account before a after x)
  happens :
      {x : System} (e : Event)
      → issues dc e ≡ false
      → Step account dc x (record x { enrollment = happen e x.enrollment })

pub data Reach (account : ℕ → Option Bool) (dc : Bytes) (s : System) : System → Type 0 where
  here : Reach account dc s s
  turn : {x y : System} → Reach account dc s x → Step account dc x y → Reach account dc s y

abbrev pub grants_token : Poll → Bool
grants_token (device_token owner id nonce) = true
grants_token (session uid) = true
grants_token _ = false

abbrev pub has_token : Progress → Bool
has_token (answered p) = grants_token p
has_token _ = false

-- How many polls with the code have been answered with a token.
abbrev pub tokens : Bytes → List Attempt → ℕ
tokens dc [] = 0
tokens dc (a ∷ more) = (if beq a.code dc && has_token a.progress then 1 else 0) + tokens dc more
