-- ===== src/Node/Text.antt =====
-- What the node uses of Rust's string library, over UTF-8 bytes, and the host names that
-- natforge-node/src/tunnel/shared.rs makes with it.
mod Tests
pub mod Hosts
use natforge_thesis.Prelude.{
  ℕ, zero, suc, ◌+◌, ◌*◌, ◌/◌, ◌%◌, Bool, true, false, not, ◌&&◌, ◌||◌, Bytes, List, [], ◌∷◌, ◌++◌,
  map, Option, none, some, length, drop, take, is_empty, beq, leb, ltb, ◌==◌, if◌then◌else◌, codes,
}
use natforge_thesis.Proto.Stream.{byte_at}

abbrev pub between : ℕ → ℕ → ℕ → Bool
between lo hi c = leb lo c && leb c hi

-- `str::from_utf8` as a test. `more` continuation bytes are due, the next one in `lo..=hi`.
unfoldable pub utf8_from : ℕ → ℕ → ℕ → Bytes → Bool
utf8_from more lo hi [] = more == 0
utf8_from (suc more) lo hi (b ∷ bs) =
    let rest = utf8_from more 0x80 0xBF bs in between lo hi b && rest
utf8_from zero lo hi (b ∷ bs) =
    if ltb b 0x80
    then (let rest = utf8_from 0 0x80 0xBF bs in rest)
    else if between 0xC2 0xDF b
    then (let rest = utf8_from 1 0x80 0xBF bs in rest)
    else if b == 0xE0
    then (let rest = utf8_from 2 0xA0 0xBF bs in rest)
    else if b == 0xED
    then (let rest = utf8_from 2 0x80 0x9F bs in rest)
    else if between 0xE1 0xEF b
    then (let rest = utf8_from 2 0x80 0xBF bs in rest)
    else if b == 0xF0
    then (let rest = utf8_from 3 0x90 0xBF bs in rest)
    else if between 0xF1 0xF3 b
    then (let rest = utf8_from 3 0x80 0xBF bs in rest)
    else if b == 0xF4
    then (let rest = utf8_from 3 0x80 0x8F bs in rest)
    else false

unfoldable pub is_utf8 : Bytes → Bool
unfolding utf8_from
is_utf8 = utf8_from 0 0 0

abbrev pub lower_byte : ℕ → ℕ
lower_byte c = if between b'A' b'Z' c then c + 32 else c

-- A number as `{}` prints it: one more than the number of digits is enough fuel.
abbrev pub digits : ℕ → ℕ → Bytes
digits zero n = []
digits (suc fuel) n =
    let more = digits fuel (n / 10) in
    if ltb n 10 then (b'0' + n) ∷ [] else more ++ (b'0' + n % 10) ∷ []

abbrev pub decimal : ℕ → Bytes
decimal n = digits (suc n) n

-- `to_ascii_lowercase`.
abbrev pub to_ascii_lowercase : Bytes → Bytes
to_ascii_lowercase = map lower_byte

-- The bytes of the character of Unicode's White_Space that the text starts with, or 0.
unfoldable pub white_width : Bytes → ℕ
white_width [] = 0
white_width (c ∷ bs) =
    let d = byte_at 0 bs in
    let e = byte_at 1 bs in
    if between 0x09 0x0D c || c == 0x20
    then 1
    else if c == 0xC2 && (d == 0x85 || d == 0xA0)
    then 2
    else if (c == 0xE1 && d == 0x9A && e == 0x80)
        || (c == 0xE2 && d == 0x80 && (between 0x80 0x8A e || e == 0xA8 || e == 0xA9 || e == 0xAF))
        || (c == 0xE2 && d == 0x81 && e == 0x9F)
        || (c == 0xE3 && d == 0x80 && e == 0x80)
    then 3
    else 0

unfoldable pub skip_white : ℕ → Bytes → Bytes
unfolding white_width
skip_white zero bs = bs
skip_white (suc fuel) bs = elim (white_width bs) [
  | zero ↦ bs
  | suc n ↦ skip_white fuel (drop (suc n) bs)
]

unfoldable pub trim_start : Bytes → Bytes
unfolding skip_white
trim_start bs = skip_white (length bs) bs

-- The longest tail that is white space throughout is dropped.
unfoldable pub trim_end : Bytes → Bytes
unfolding trim_start
trim_end [] = []
trim_end (c ∷ bs) =
    let rest = trim_end bs in if is_empty (trim_start (c ∷ bs)) then [] else c ∷ rest

unfoldable pub trim : Bytes → Bytes
unfolding trim_end
trim bs = trim_end (trim_start bs)

-- `trim_end_matches('.')`.
unfoldable pub trim_dots : Bytes → Bytes
trim_dots [] = []
trim_dots (c ∷ bs) = let rest = trim_dots bs in if c == b'.' && is_empty rest then [] else c ∷ rest

-- `split(mark).next()`: the text up to the first mark.
unfoldable pub until : ℕ → Bytes → Bytes
until mark [] = []
until mark (c ∷ bs) = if c == mark then [] else c ∷ until mark bs

abbrev pub push_first : ℕ → List Bytes → List Bytes
push_first c [] = (c ∷ []) ∷ []
push_first c (l ∷ ls) = (c ∷ l) ∷ ls

-- `split(mark)`: at least one piece.
unfoldable pub split : ℕ → Bytes → List Bytes
split mark [] = [] ∷ []
split mark (c ∷ bs) = let rest = split mark bs in if c == mark then [] ∷ rest else push_first c rest

-- `split("\r\n")`.
unfoldable pub split_crlf : Bytes → List Bytes
split_crlf [] = [] ∷ []
split_crlf (c ∷ []) = (c ∷ []) ∷ []
split_crlf (c ∷ d ∷ bs) =
    let whole = split_crlf bs in
    let next = split_crlf (d ∷ bs) in if c == 13 && d == 10 then [] ∷ whole else push_first c next

unfoldable pub is_prefix : Bytes → Bytes → Bool
is_prefix [] bs = true
is_prefix (p ∷ ps) [] = false
is_prefix (p ∷ ps) (b ∷ bs) = p == b && is_prefix ps bs

-- The loop over the windows, at offset `index`.
unfoldable pub find_from : ℕ → Bytes → Bytes → Option ℕ
unfolding is_prefix
find_from index [] needle = none
find_from index (b ∷ bs) needle =
    let rest = find_from (index + 1) bs needle in
    if is_prefix needle (b ∷ bs) then some index else rest

unfoldable pub find_subsequence : Bytes → Bytes → Option ℕ
unfolding find_from
find_subsequence haystack needle = find_from 0 haystack needle

-- `before_port.trim().trim_end_matches('.')` of the text before a port.
unfoldable pub bare_host : Bytes → Bytes
unfolding until trim trim_dots
bare_host host = trim_dots (trim (until b':' host))

unfoldable pub subdomain_of : Bytes → Bytes
unfolding bare_host
subdomain_of host = to_ascii_lowercase (until b'.' (bare_host host))

-- The host name that custom domains and the apex are compared with.
unfoldable pub hostname_of : Bytes → Bytes
unfolding bare_host
hostname_of host = to_ascii_lowercase (bare_host host)
