-- ===== src/Node/Checked.antt =====
-- Rust's checked accesses to a byte slice, which panic out of range; `none` is the panic. Used by
-- the parsers of natforge-node/src/tunnel/shared.rs.
pub mod Access
use natforge_thesis.Prelude.{
  ℕ, ◌+◌, ◌-◌, ◌*◌, Bool, ◌&&◌, Bytes, Option, none, some, length, get_elem?, take, drop, leb,
  if◌then◌else◌,
}

infixl 5 ◌>>=◌
abbrev pub ◌>>=◌ {ℓ κ} : {A : Type ℓ} {B : Type κ} → Option A → (A → Option B) → Option B
none >>= f = none
some a >>= f = f a

-- `&b[lo..hi]` and `&b[lo..]`.
unfoldable pub slice : ℕ → ℕ → Bytes → Option Bytes
slice lo hi b = if leb lo hi && leb hi (length b) then some (take (hi - lo) (drop lo b)) else none

unfoldable pub slice_from : ℕ → Bytes → Option Bytes
slice_from lo b = if leb lo (length b) then some (drop lo b) else none

-- `u16::from_be_bytes([b[p], b[p + 1]])`.
unfoldable pub be16_at : ℕ → Bytes → Option ℕ
be16_at p b = do hi ← get_elem? b p; lo ← get_elem? b (p + 1); some (hi * 256 + lo)
