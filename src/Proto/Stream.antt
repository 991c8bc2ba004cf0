-- ===== src/Proto/Stream.antt =====
-- The byte streams of natforge-proto/src/lib.rs: tokio's `read_exact` and `write_all` over a stream
-- that holds the bytes still to come and then ends, in order or with a fault.
pub mod Parses
use natforge_thesis.Prelude.{
  ℕ, ◌+◌, ◌*◌, ◌/◌, ◌%◌, Bool, Bytes, [], ◌∷◌, ◌++◌, length, take, drop, leb, if◌then◌else◌, Result,
  ok, err,
}

pub data IoError : Type 0 where
  unexpected_eof broken_pipe bad_magic replay_too_long : IoError
  bad_version bad_kind frame_too_large : ℕ → IoError

pub record Reader : Type 0 where
  pub pending : Bytes
  pub faulty : Bool

abbrev pub Read : Type 0 → Type 0
Read A = Reader → Result IoError (A × Reader)

-- What a read past the last byte gives.
abbrev pub end_error : Bool → IoError
end_error faulty = if faulty then broken_pipe else unexpected_eof

unfoldable pub read_exact : ℕ → Read Bytes
read_exact n r =
    if leb n (length r.pending)
    then ok (take n r.pending, record r { pending = drop n r.pending })
    else err (end_error r.faulty)

infixl 5 ◌>>=◌ ◌>>◌
abbrev pub ◌>>=◌ : {A B : Type 0} → Read A → (A → Read B) → Read B
◌>>=◌ m f r = elim (m r) [ ok (a, r') ↦ f a r' | err e ↦ err e ]

abbrev pub ◌>>◌ : {B : Type 0} → Read (Unit {0}) → Read B → Read B
m >> k = m >>= λ _. k

abbrev pub pure : {A : Type 0} → A → Read A
pure a r = ok (a, r)

abbrev pub require : Bool → IoError → Read (Unit {0})
require b e r = if b then ok (tt, r) else err e

pub record Sink : Type 0 where
  pub written : Bytes
  pub closed : Bool

unfoldable pub write_all : Bytes → Sink → Result IoError Sink
write_all bs s = if s.closed then err broken_pipe else ok (record s { written = s.written ++ bs })

-- `u16::to_be_bytes`, `u16::from_be_bytes`, and the same for `u32`.
abbrev pub be16 : ℕ → Bytes
be16 n = (n / 256) % 256 ∷ n % 256 ∷ []

abbrev pub be32 : ℕ → Bytes
be32 n = (n / 16777216) % 256 ∷ (n / 65536) % 256 ∷ (n / 256) % 256 ∷ n % 256 ∷ []

-- The byte at an index of a fixed-size array.
abbrev pub byte_at : ℕ → Bytes → ℕ
byte_at i [] = 0
byte_at i (b ∷ bs) = elim i [ ℕ.zero ↦ b | ℕ.suc j ↦ byte_at j bs ]

abbrev pub from_be16 : Bytes → ℕ
from_be16 bs = byte_at 0 bs * 256 + byte_at 1 bs

abbrev pub from_be32 : Bytes → ℕ
from_be32 bs = byte_at 0 bs * 16777216 + byte_at 1 bs * 65536 + byte_at 2 bs * 256 + byte_at 3 bs
