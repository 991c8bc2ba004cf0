-- ===== src/Examples/Devices.antt =====
-- Device codes and enrollment of natforge-backend at concrete inputs.
use natforge_thesis.Prelude.{
  ℕ, ◌≡◌, ◌≤◌, refl, Bool, false, Bytes, codes, beq, [], ◌∷◌, Option, none, some, get, insert,
  remove, nat_eq, bytes_eq, ok, err,
}
use natforge_thesis.Node.Text.{trim, trim_start, skip_white, trim_end, white_width}
use natforge_thesis.Control.Devices.{
  DeviceRecord, devcode_approve_device, devcode_status, devcode_consume, rate_limit_hit, Enrollment,
  device_to_link, link_code, EnrollError, EnrollApproveReq, without_dashes, enroll_approve, expired,
  session, set_device_token, login_token, enroll_check, login_check,
}
use natforge_thesis.Control.Devices.Polls.{
  login, enroll, asked, logs_in, links, answered, check, advance, Attempt, System, arrived,
  advanced, arrives, goes_on, Reach, here, turn, tokens, Kind,
}
use natforge_thesis.Control.Devices.Codes.{Reach-single_winner}
use natforge_thesis.Control.Devices.Linked.{
  Unchanged, enroll_approve_refused, enroll_approve_session,
}

abbrev upper : Bytes → Bytes
upper b = b

abbrev account : ℕ → Option Bool
account uid = some false

abbrev issued : DeviceRecord
issued = record { device_code = codes "d0"; approved_user = none; device_id = none }

abbrev enrolling : Enrollment
enrolling = record {
  store = record { by_user = (codes "AB", issued) ∷ []; index = (codes "d0", codes "AB") ∷ [] };
  devices = [];
  hits = [];
}

abbrev linking : EnrollApproveReq
linking = record { user_code = codes "A-B"; name = some (codes "pi"); device_id = none }

linked : (enroll_approve upper 9 (codes "1.2.3.4") 3 linking enrolling).0 ≡ ok 9
unfolding enroll_approve rate_limit_hit device_to_link link_code devcode_approve_device
    without_dashes trim trim_start skip_white trim_end white_width get insert remove beq
linked = refl

enroll_approve_session_example :
    (login_token account
      (codes "d0")
      (enroll_approve upper 9 (codes "1.2.3.4") 3 linking enrolling).1).0
    ≡ session 3
unfolding without_dashes trim trim_start skip_white trim_end white_width get beq
enroll_approve_session_example =
    enroll_approve_session upper 9 (codes "1.2.3.4") 3 linking enrolling account (codes "d0") issued
      9 linked refl refl refl refl

abbrev mistyped : EnrollApproveReq
mistyped = record linking { user_code = codes "ZZ" }

missed :
    (enroll_approve upper 9 (codes "1.2.3.4") 3 mistyped enrolling).0 ≡ err EnrollError.invalid_code
unfolding enroll_approve rate_limit_hit device_to_link link_code devcode_approve_device
    without_dashes trim trim_start skip_white trim_end white_width get insert remove beq
missed = refl

enroll_approve_refused_example :
    Unchanged enrolling (enroll_approve upper 9 (codes "1.2.3.4") 3 mistyped enrolling).1
unfolding get
enroll_approve_refused_example =
    enroll_approve_refused upper 9 (codes "1.2.3.4") 3 mistyped enrolling EnrollError.invalid_code
      refl missed

abbrev approved : Enrollment
approved = record enrolling {
  store = record enrolling.store {
    by_user = (codes "AB", record issued { approved_user = some 3; device_id = some 9 }) ∷ [];
  };
}

-- Two polls look the code up before either redeems it; the first to redeem it wins.
abbrev asking : System
asking =
    arrived (codes "d0") login
      (arrived (codes "d0") (enroll (codes "n1")) (record { enrollment = approved; attempts = [] }))

abbrev linking_poll : Attempt
linking_poll = record { code = codes "d0"; progress = links (codes "n1") 3 9 }

abbrev login_poll : Attempt
login_poll = record { code = codes "d0"; progress = logs_in 3 }

abbrev both_found : System
both_found = record { enrollment = approved; attempts = login_poll ∷ linking_poll ∷ [] }

looked_up : Reach account (codes "d0") (record { enrollment = approved; attempts = [] }) both_found
unfolding advance login_check enroll_check devcode_status get beq
looked_up =
    turn
      (turn (turn (turn here (arrives _ _)) (arrives _ _))
        (goes_on [] (record { code = codes "d0"; progress = asked login }) _ refl))
      (goes_on (login_poll ∷ [])
        (record { code = codes "d0"; progress = asked (enroll (codes "n1")) }) [] refl)

abbrev redeemed : System
redeemed = advanced account (login_poll ∷ []) linking_poll [] both_found

abbrev ended : System
ended =
    advanced account [] login_poll
      ((record linking_poll {
        progress = (advance account (codes "d0") linking_poll.progress approved).0;
      })
        ∷ [])
      redeemed

raced : Reach account (codes "d0") (record { enrollment = approved; attempts = [] }) ended
raced =
    turn (turn looked_up (goes_on (login_poll ∷ []) linking_poll [] refl))
      (goes_on [] login_poll _ refl)

tokens-ended : tokens (codes "d0") ended.attempts ≡ 1
unfolding advance devcode_consume set_device_token get insert remove beq
tokens-ended = refl

Reach-single_winner_example :
    (tokens (codes "d0") ended.attempts ≤ 1)
    × (tokens (codes "d0") ended.attempts ≡ 1
        → (k : Kind) → check k (codes "d0") ended.enrollment ≡ answered expired)
Reach-single_winner_example = Reach-single_winner account (codes "d0") approved ended raced
