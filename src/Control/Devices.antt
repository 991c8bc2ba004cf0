-- ===== src/Control/Devices.antt =====
-- Device codes and rate limits (natforge-backend/src/db/connection.rs), and the handlers over them:
-- enrollment and device management (handlers/devices.rs), the login poll (handlers/auth.rs) and the
-- device token's check (jwt.rs). Redis is a map of user codes and one of device codes, whose entries may
-- lapse one by one; an answer's JSON, a failing connection and the tokens' encoding are left out. The
-- new ids, codes and nonces are parameters.
pub mod Polls
pub mod Codes
pub mod Limits
pub mod Linked
use natforge_thesis.Prelude.{
  ℕ, ◌+◌, Bool, true, false, not, ◌&&◌, ◌||◌, Bytes, codes, beq, List, [], ◌∷◌, ◌++◌, Option, none,
  some, Map, get, insert, remove, nat_eq, bytes_eq, is_empty, leb, ◌==◌, if◌then◌else◌, Result, ok,
  err,
}
use natforge_thesis.Proto.Claims.{is_some}
use natforge_thesis.Node.Text.{trim}

-- `hset_multiple` of a user code, with the empty texts as none.
pub record DeviceRecord : Type 0 where
  pub device_code : Bytes
  pub approved_user : Option ℕ
  pub device_id : Option ℕ

pub record CodeStore : Type 0 where
  pub by_user : Map Bytes DeviceRecord
  pub index : Map Bytes Bytes

unfoldable pub devcode_create : Bytes → Bytes → CodeStore → CodeStore
devcode_create user_code device_code c = record {
  by_user =
      insert user_code
        (record { device_code = device_code; approved_user = none; device_id = none }) c.by_user;
  index = insert device_code user_code c.index;
}

-- `hset` on a user code that exists.
abbrev pub set_record : Bytes → (DeviceRecord → DeviceRecord) → CodeStore → Bool × CodeStore
set_record user_code f c = elim (get user_code c.by_user) [
  | none ↦ (false, c)
  | some r ↦ (true, record c { by_user = insert user_code (f r) c.by_user })
]

unfoldable pub devcode_approve : Bytes → ℕ → CodeStore → Bool × CodeStore
devcode_approve user_code uid = set_record user_code (λ r. record r { approved_user = some uid })

unfoldable pub devcode_approve_device : Bytes → ℕ → ℕ → CodeStore → Bool × CodeStore
devcode_approve_device user_code uid device_id =
    set_record user_code (λ r. record r { approved_user = some uid; device_id = some device_id })

abbrev pub if_stored : Bytes → Option DeviceRecord → Option DeviceRecord
if_stored device_code none = none
if_stored device_code (some r) = if beq r.device_code device_code then some r else none

unfoldable pub devcode_status : Bytes → CodeStore → Option DeviceRecord
devcode_status device_code c = elim (get device_code c.index) [
  | none ↦ none
  | some user_code ↦ if_stored device_code (get user_code c.by_user)
]

-- Whether the index entry was there to delete.
unfoldable pub devcode_consume : Bytes → CodeStore → Bool × CodeStore
devcode_consume device_code c = elim (get device_code c.index) [
  | none ↦ (false, c)
  | some user_code ↦
      (true, record { by_user = remove user_code c.by_user; index = remove device_code c.index })
]

-- A window's counter; it lapses with the window.
unfoldable pub rate_limit_hit : Bytes → ℕ → Map Bytes ℕ → Bool × Map Bytes ℕ
rate_limit_hit key limit hits =
    let n : ℕ = elim (get key hits) [ none ↦ 1 | some k ↦ k + 1 ] in
    (leb n limit, insert key n hits)

pub data DeviceStatus : Type 0 where
  pending online offline : DeviceStatus

pub record Device : Type 0 where
  pub owner_id : ℕ
  pub name : Bytes
  pub token_fp : Option Bytes
  pub status : DeviceStatus

pub record Enrollment : Type 0 where
  pub store : CodeStore
  pub devices : Map ℕ Device
  pub hits : Map Bytes ℕ

-- `device_by_id` of the owner; `create_device`; `delete_device`, `rename_device`, `disconnect_device`
-- with whether a row was changed.
abbrev pub owned : ℕ → ℕ → Map ℕ Device → Option Device
owned id owner ds = elim (get id ds) [
  | none ↦ none
  | some d ↦ if d.owner_id == owner then some d else none
]

abbrev pub new_device : ℕ → Bytes → Device
new_device owner name = record { owner_id = owner; name = name; token_fp = none; status = pending }

unfoldable pub delete_device : ℕ → ℕ → Map ℕ Device → Bool × Map ℕ Device
delete_device id owner ds = elim (owned id owner ds) [
  | none ↦ (false, ds)
  | some d ↦ (true, remove id ds)
]

unfoldable pub rename_device : ℕ → ℕ → Bytes → Map ℕ Device → Bool × Map ℕ Device
rename_device id owner name ds = elim (owned id owner ds) [
  | none ↦ (false, ds)
  | some d ↦ (true, insert id (record d { name = name }) ds)
]

unfoldable pub disconnect_device : ℕ → ℕ → Map ℕ Device → Bool × Map ℕ Device
disconnect_device id owner ds = elim (owned id owner ds) [
  | none ↦ (false, ds)
  | some d ↦ (true, insert id (record d { token_fp = none; status = pending }) ds)
]

unfoldable pub set_device_token : ℕ → Bytes → Map ℕ Device → Map ℕ Device
set_device_token id nonce ds = elim (get id ds) [
  | none ↦ ds
  | some d ↦ insert id (record d { token_fp = some nonce }) ds
]

pub data EnrollError : Type 0 where
  too_many_attempts device_not_found invalid_code name_required : EnrollError

-- `trim().to_uppercase().replace('-', "")`.
unfoldable pub without_dashes : Bytes → Bytes
without_dashes [] = []
without_dashes (c ∷ cs) = let rest = without_dashes cs in if c == b'-' then rest else c ∷ rest

abbrev pub or_device : Option Bytes → Bytes
or_device none = codes "device"
or_device (some s) = if is_empty (trim s) then codes "device" else trim s

pub record EnrollApproveReq : Type 0 where
  pub user_code : Bytes
  pub name : Option Bytes
  pub device_id : Option ℕ

-- The device to link: its id, whether it was made for this, and the devices.
unfoldable pub device_to_link :
    ℕ → ℕ → EnrollApproveReq → Map ℕ Device → Result EnrollError (ℕ × Bool × Map ℕ Device)
device_to_link new_id owner req ds = elim req.device_id [
  | some id ↦ elim (owned id owner ds) [ none ↦ err device_not_found | some d ↦ ok (id, false, ds) ]
  | none ↦ ok (new_id, true, insert new_id (new_device owner (or_device req.name)) ds)
]

-- The code is approved, or a device made for it is deleted again.
unfoldable pub link_code : Bytes → ℕ → ℕ → Bool → Enrollment → Result EnrollError ℕ × Enrollment
unfolding devcode_approve_device delete_device
link_code code owner id created s =
    let (found, store) = devcode_approve_device code owner id s.store in
    if found then (ok id, record s { store = store }) else (
      err invalid_code,
      if created then record s { devices = (delete_device id owner s.devices).1 } else s,
    )

unfoldable pub enroll_approve :
    (Bytes → Bytes)
    → ℕ
    → Bytes
    → ℕ
    → EnrollApproveReq
    → Enrollment
    → Result EnrollError ℕ × Enrollment
unfolding rate_limit_hit without_dashes device_to_link link_code
enroll_approve to_uppercase new_id ip owner req s =
    let (ok_ip, hits1) = rate_limit_hit (codes "nf:enrollrl:ip:" ++ ip) 10 s.hits in
    let (ok_all, hits2) = rate_limit_hit (codes "nf:enrollrl:all") 120 hits1 in
    let counted = record s { hits = hits2 } in
    if not ok_ip || not ok_all
    then (err too_many_attempts, counted)
    else elim (device_to_link new_id owner req s.devices) [
      | err e ↦ (err e, counted)
      | ok (id, created, ds) ↦
          link_code (without_dashes (to_uppercase (trim req.user_code))) owner id created
            (record counted { devices = ds })
    ]

-- What a poll gets: a device token for an owner's device with its nonce, or a session of a user.
pub data Poll : Type 0 where
  expired waiting banned : Poll
  device_token : ℕ → ℕ → Bytes → Poll
  session : ℕ → Poll

abbrev pub grant : Bytes → Bytes → ℕ → ℕ → Enrollment → Poll × Enrollment
grant device_code nonce owner device_id s =
    let (won, store) = devcode_consume device_code s.store in
    if won
    then (
      device_token owner device_id nonce,
      record s { store = store; devices = set_device_token device_id nonce s.devices },
    )
    else (expired, record s { store = store })

-- A poll looks the code up first; what it finds is an answer, or an approval to redeem.
unfoldable pub enroll_check : Bytes → Enrollment → Result Poll (ℕ × ℕ)
unfolding devcode_status
enroll_check device_code s = elim (devcode_status device_code s.store) [
  | none ↦ err expired
  | some r ↦ elim r.approved_user [
    | none ↦ err waiting
    | some owner ↦ elim r.device_id [ none ↦ err waiting | some device_id ↦ ok (owner, device_id) ]
  ]
]

unfoldable pub enroll_token : Bytes → Bytes → Enrollment → Poll × Enrollment
unfolding enroll_check devcode_consume set_device_token
enroll_token device_code nonce s = elim (enroll_check device_code s) [
  | err answer ↦ (answer, s)
  | ok (owner, device_id) ↦ grant device_code nonce owner device_id s
]

-- The login poll of handlers/auth.rs; `account` tells whether a user is banned, if there.
abbrev pub session_of : Option Bool → ℕ → Poll
session_of none uid = expired
session_of (some true) uid = banned
session_of (some false) uid = session uid

unfoldable pub login_check : Bytes → Enrollment → Result Poll ℕ
unfolding devcode_status
login_check device_code s = elim (devcode_status device_code s.store) [
  | none ↦ err expired
  | some r ↦ elim r.approved_user [ none ↦ err waiting | some uid ↦ ok uid ]
]

abbrev pub grant_session : (ℕ → Option Bool) → Bytes → ℕ → Enrollment → Poll × Enrollment
grant_session account device_code uid s =
    let (won, store) = devcode_consume device_code s.store in
    (if won then session_of (account uid) uid else expired, record s { store = store })

unfoldable pub login_token : (ℕ → Option Bool) → Bytes → Enrollment → Poll × Enrollment
unfolding login_check devcode_consume
login_token account device_code s = elim (login_check device_code s) [
  | err answer ↦ (answer, s)
  | ok uid ↦ grant_session account device_code uid s
]

-- The check of a device token: the claims' device and nonce.
unfoldable pub device_auth : ℕ → Bytes → Map ℕ Device → Option Device
device_auth id nonce ds = elim (get id ds) [
  | none ↦ none
  | some d ↦ elim d.token_fp [ none ↦ none | some fp ↦ if beq fp nonce then some d else none ]
]
