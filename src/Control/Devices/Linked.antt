-- ===== src/Control/Devices/Linked.antt =====
-- Enrollment (natforge-backend/src/handlers/devices.rs), what its code is good for, and the tokens of a
-- device.
use natforge_thesis.Prelude.{
  ℕ, ◌≡◌, ◌⊎◌, refl, sym, subst, ◌∙◌, Bool, true, false, not, ◌||◌, ◌++◌, Bytes, codes, beq,
  beq_iff, Option, none, some, Map, get, insert, get-insert, get-remove, nat_eq, bytes_eq, arith,
  Bool-cases, Option-cases, inl, inr, Result, ok, err, if◌then◌else◌,
}
use natforge_thesis.Node.Text.{trim}
use natforge_thesis.Control.Devices.{
  DeviceRecord, devcode_approve_device, devcode_status, devcode_consume, rate_limit_hit, Device,
  DeviceStatus, Enrollment, owned, delete_device, disconnect_device, set_device_token, EnrollError,
  EnrollApproveReq, without_dashes, device_to_link, link_code, enroll_approve, session, login_token,
  device_auth, new_device, or_device,
}

-- The devices and the codes are as before.
abbrev pub Unchanged : Enrollment → Enrollment → Type 0
Unchanged s s' = ((id : ℕ) → get id s'.devices ≡ get id s.devices) × (s'.store ≡ s.store)

module _ (owner : ℕ) (code : Bytes) (s : Enrollment) where
  link_code-found :
      (id : ℕ) (created : Bool) (r : DeviceRecord)
      → get code s.store.by_user ≡ some r
      → link_code code owner id created s ≡ (
        ok id,
        record s {
          store = record s.store {
            by_user =
                insert code
                  (record r { approved_user = some owner; device_id = some id })
                  s.store.by_user;
          };
        },
      )
  unfolding link_code devcode_approve_device
  link_code-found id created r h = ground (arith, h)

  link_code-missing :
      (id : ℕ) (created : Bool)
      → get code s.store.by_user ≡ none
      → link_code code owner id created s ≡ (
        err EnrollError.invalid_code,
        if created then record s { devices = (delete_device id owner s.devices).1 } else s,
      )
  unfolding link_code devcode_approve_device
  link_code-missing id created h = ground (arith, h)

rolled_back :
    (owner new_id : ℕ) (name : Bytes) (ds : Map ℕ Device) (id : ℕ)
    → get new_id ds ≡ none
    → get id (delete_device new_id owner (insert new_id (new_device owner name) ds)).1 ≡ get id ds
unfolding delete_device
rolled_back owner new_id name ds id h =
    let d = new_device owner name in
    let all = insert new_id d ds in
    let mine : get new_id all ≡ some d = ground (arith, get-insert new_id new_id d ds) in
    ground (arith, mine, h, get-remove new_id id all, get-insert new_id id d ds)

module _ (to_uppercase : Bytes → Bytes) (new_id : ℕ) (ip : Bytes) (owner : ℕ)
    (req : EnrollApproveReq) (s : Enrollment) where
  -- The code that is looked up.
  abbrev pub normal_code : Bytes
  normal_code = without_dashes (to_uppercase (trim req.user_code))

  abbrev Approved : Result EnrollError ℕ × Enrollment → Type 0
  Approved p =
      ((e : EnrollError) × (hits : Map Bytes ℕ) × (p ≡ (err e, record s { hits = hits })))
      ⊎ ((id : ℕ) × (created : Bool) × (ds : Map ℕ Device) × (hits : Map Bytes ℕ) × (device_to_link
              new_id owner req s.devices
            ≡ ok (id, created, ds))
          × (p ≡ link_code normal_code owner id created (record s { hits = hits; devices = ds })))

  -- An approval that goes wrong before the code is looked at, or one that looks at it.
  enroll_approve-Approved : Approved (enroll_approve to_uppercase new_id ip owner req s)
  unfolding enroll_approve
  enroll_approve-Approved = elim (Bool-cases refused) [
    | inl y ↦ inl (EnrollError.too_many_attempts, second.1, ground (arith, y))
    | inr y ↦ by_link y (device_to_link new_id owner req s.devices) refl
  ]
    where
      first : Bool × Map Bytes ℕ
      first = rate_limit_hit (codes "nf:enrollrl:ip:" ++ ip) 10 s.hits

      second : Bool × Map Bytes ℕ
      second = rate_limit_hit (codes "nf:enrollrl:all") 120 first.1

      refused : Bool
      refused = not first.0 || not second.0

      by_link :
          refused ≡ false
          → (r : Result EnrollError (ℕ × Bool × Map ℕ Device))
          → device_to_link new_id owner req s.devices ≡ r
          → Approved (enroll_approve to_uppercase new_id ip owner req s)
      by_link y (err e) q = inl (e, second.1, ground (arith, y, q))
      by_link y (ok (id, created, ds)) q = inr (id, created, ds, second.1, q, ground (arith, y, q))

device_to_link-cases :
    (new_id owner : ℕ) (req : EnrollApproveReq) (ds : Map ℕ Device) (id : ℕ) (created : Bool)
    (ds' : Map ℕ Device)
    → device_to_link new_id owner req ds ≡ ok (id, created, ds')
    → ((created ≡ false) × (ds' ≡ ds))
      ⊎ ((name : Bytes) × (created ≡ true)
          × (id ≡ new_id)
          × (ds' ≡ insert new_id (new_device owner name) ds))
unfolding device_to_link
device_to_link-cases new_id owner req ds id created ds' e = by_device req.device_id refl
  where
    by_device :
        (o : Option ℕ)
        → req.device_id ≡ o
        → ((created ≡ false) × (ds' ≡ ds))
          ⊎ ((name : Bytes) × (created ≡ true)
              × (id ≡ new_id)
              × (ds' ≡ insert new_id (new_device owner name) ds))
    by_device none q =
        inr (or_device req.name, ground (arith, e, q), ground (arith, e, q), ground (arith, e, q))
    by_device (some k) q = elim (Option-cases (owned k owner ds)) [
      | inl w ↦ ground (arith, e, q, w)
      | inr (d, w) ↦ inl (ground (arith, e, q, w), ground (arith, e, q, w))
    ]

link_code-refused :
    (new_id owner : ℕ) (req : EnrollApproveReq) (s : Enrollment) (code : Bytes) (hits : Map Bytes ℕ)
    (id : ℕ) (created : Bool) (ds : Map ℕ Device) (e : EnrollError)
    → get new_id s.devices ≡ none
    → device_to_link new_id owner req s.devices ≡ ok (id, created, ds)
    → (link_code code owner id created (record s { hits = hits; devices = ds })).0 ≡ err e
    → Unchanged s (link_code code owner id created (record s { hits = hits; devices = ds })).1
link_code-refused new_id owner req s code hits id created ds e h l r =
    elim (Option-cases (get code s.store.by_user)) [
      | inr (x, q) ↦ ground (arith, r, link_code-found owner code mid id created x q)
      | inl q ↦
          subst (λ p. Unchanged s p.1) (sym (link_code-missing owner code mid id created q))
            (elim (device_to_link-cases new_id owner req s.devices id created ds l) [
              | inl (c, same) ↦ (λ k. ground (arith, c, same), ground (arith, c, same))
              | inr (name, c, is, made) ↦ (
                λ k. ground (arith, c, is, made, rolled_back owner new_id name s.devices k h),
                ground (arith, c),
              )
            ])
    ]
  where
    mid : Enrollment
    mid = record s { hits = hits; devices = ds }

-- An approval that is refused, for too many attempts, for a device that is not the caller's or for a
-- code that is not there, leaves every device and every code as before: a device made for it is deleted
-- again.
pub enroll_approve_refused :
    (to_uppercase : Bytes → Bytes) (new_id : ℕ) (ip : Bytes) (owner : ℕ) (req : EnrollApproveReq)
    (s : Enrollment) (e : EnrollError)
    → get new_id s.devices ≡ none
    → (enroll_approve to_uppercase new_id ip owner req s).0 ≡ err e
    → Unchanged s (enroll_approve to_uppercase new_id ip owner req s).1
enroll_approve_refused to_uppercase new_id ip owner req s e h r =
    elim (enroll_approve-Approved to_uppercase new_id ip owner req s) [
      | inl (x, hits, q) ↦ subst (λ p. Unchanged s p.1) (sym q) (λ k. refl, refl)
      | inr (id, created, ds, hits, l, q) ↦
          let code = normal_code to_uppercase new_id ip owner req s in
          subst (λ p. Unchanged s p.1) (sym q)
            (link_code-refused new_id owner req s code hits id created ds e h l
              (subst (λ p. p.0 ≡ err e) q r))
    ]

login_token-granted :
    (account : ℕ → Option Bool) (dc uc : Bytes) (s : Enrollment) (r : DeviceRecord) (owner : ℕ)
    → get dc s.store.index ≡ some uc
    → get uc s.store.by_user ≡ some r
    → r.device_code ≡ dc
    → r.approved_user ≡ some owner
    → account owner ≡ some false
    → (login_token account dc s).0 ≡ session owner
unfolding login_token devcode_status devcode_consume
login_token-granted account dc uc s r owner i u d a b =
    ground (arith, i, u, d, a, b, beq_iff r.device_code dc)

-- A code that its user has approved as the enrollment of a device, and not as a login, gives a session of
-- the user to whoever polls for a login with the device code.
pub enroll_approve_session :
    (to_uppercase : Bytes → Bytes) (new_id : ℕ) (ip : Bytes) (owner : ℕ) (req : EnrollApproveReq)
    (s : Enrollment) (account : ℕ → Option Bool) (dc : Bytes) (r : DeviceRecord) (id : ℕ)
    → (enroll_approve to_uppercase new_id ip owner req s).0 ≡ ok id
    → get dc s.store.index ≡ some (without_dashes (to_uppercase (trim req.user_code)))
    → get (without_dashes (to_uppercase (trim req.user_code))) s.store.by_user ≡ some r
    → r.device_code ≡ dc
    → account owner ≡ some false
    → (login_token account dc (enroll_approve to_uppercase new_id ip owner req s).1).0
      ≡ session owner
enroll_approve_session to_uppercase new_id ip owner req s account dc r id e i u d b =
    elim (enroll_approve-Approved to_uppercase new_id ip owner req s) [
      | inl (x, hits, q) ↦ ground (arith, e, q)
      | inr (k, created, ds, hits, l, q) ↦
          let mid : Enrollment = record s { hits = hits; devices = ds } in
          let approved : DeviceRecord = record r {
            approved_user = some owner;
            device_id = some k;
          } in
          let is = q ∙ link_code-found owner code mid k created r u in
          subst (λ p. (login_token account dc p.1).0 ≡ session owner) (sym is)
            (login_token-granted account dc code _ approved owner i
              (ground (arith, get-insert code code approved s.store.by_user, beq_iff code code)) d
              refl b)
    ]
  where
    code : Bytes
    code = without_dashes (to_uppercase (trim req.user_code))

device_auth-set :
    (id : ℕ) (nonce other : Bytes) (ds : Map ℕ Device) (d : Device)
    → get id ds ≡ some d
    → device_auth id other (set_device_token id nonce ds)
      ≡ (if beq nonce other then some (record d { token_fp = some nonce }) else none)
unfolding device_auth set_device_token
device_auth-set id nonce other ds d h =
    ground (arith, h, get-insert id id (record d { token_fp = some nonce }) ds)

-- A device that its owner disconnects accepts no token any more; one that is given a new token accepts
-- that token's nonce and no other.
pub device_auth_revoked :
    (id owner : ℕ) (nonce : Bytes) (ds : Map ℕ Device) (d : Device)
    → get id ds ≡ some d
    → d.owner_id ≡ owner
    → ((other : Bytes) → device_auth id other (disconnect_device id owner ds).1 ≡ none)
      × ((other : Bytes)
          → device_auth id other (set_device_token id nonce ds)
            ≡ (if beq nonce other then some (record d { token_fp = some nonce }) else none))
unfolding device_auth disconnect_device
device_auth_revoked id owner nonce ds d h o = (
  λ other. ground (
    arith,
    h,
    o,
    get-insert id id (record d { token_fp = none; status = DeviceStatus.pending }) ds,
  ),
  λ other. device_auth-set id nonce other ds d h,
)
