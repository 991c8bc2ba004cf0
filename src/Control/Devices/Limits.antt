-- ===== src/Control/Devices/Limits.antt =====
-- Rate limits of natforge-backend/src/db/connection.rs.
use natforge_thesis.Prelude.{
  ℕ, zero, suc, ◌≡◌, ◌+◌, ◌-◌, min, Bytes, beq_iff, none, some, Map, get, insert, get-insert,
  nat_eq, bytes_eq, if◌then◌else◌, arith,
}
use natforge_thesis.Control.Devices.{rate_limit_hit}

-- Requests that hit one limit, and those that are let through.
unfoldable pub let_through : Bytes → ℕ → ℕ → Map Bytes ℕ → ℕ
unfolding rate_limit_hit
let_through key limit zero hits = 0
let_through key limit (suc n) hits =
    let (allowed, hits') = rate_limit_hit key limit hits in
    let rest = let_through key limit n hits' in if allowed then rest + 1 else rest

let_through-from :
    (key : Bytes) (limit n k : ℕ) (hits : Map Bytes ℕ)
    → get key hits ≡ some k
    → let_through key limit n hits ≡ min n (limit - k)
unfolding let_through rate_limit_hit
let_through-from key limit zero k hits h = omega arith
let_through-from key limit (suc n) k hits h =
    let counted : get key (insert key (k + 1) hits) ≡ some (k + 1) =
      ground (arith, get-insert key key (k + 1) hits, beq_iff key key) in
    ground (arith, h, let_through-from key limit n (k + 1) (insert key (k + 1) hits) counted)

-- Of any number of requests that hit one limit within its window, as many are let through as the limit
-- allows and no more.
pub let_through_exact :
    (key : Bytes) (limit n : ℕ) (hits : Map Bytes ℕ)
    → get key hits ≡ none
    → let_through key limit n hits ≡ min n limit
unfolding let_through rate_limit_hit
let_through_exact key limit zero hits h = omega arith
let_through_exact key limit (suc n) hits h =
    let counted : get key (insert key 1 hits) ≡ some 1 =
      ground (arith, get-insert key key 1 hits, beq_iff key key) in
    ground (arith, h, let_through-from key limit n 1 (insert key 1 hits) counted)
