-- ===== src/Control/Names.antt =====
-- `valid_subdomain` of natforge-backend/src/db/queries.rs and `valid_custom_domain` of
-- natforge-backend/src/handlers/tunnels.rs.
pub mod Labels
use natforge_thesis.Prelude.{
  ℕ, ◌+◌, ◌-◌, Bool, true, false, not, ◌&&◌, ◌||◌, Bytes, codes, beq, List, [], ◌∷◌, ◌++◌, length,
  drop, is_empty, leb, ltb, ◌==◌, if◌then◌else◌,
}
use natforge_thesis.Proto.Claims.{contains}
use natforge_thesis.Proto.Stream.{byte_at}
use natforge_thesis.Node.Text.{between, split}

abbrev pub is_alnum : ℕ → Bool
is_alnum c = between b'a' b'z' c || between b'0' b'9' c

abbrev pub every : (ℕ → Bool) → Bytes → Bool
every test [] = true
every test (c ∷ bs) = test c && every test bs

unfoldable pub valid_subdomain : Bytes → Bool
valid_subdomain s =
    let n = length s in
    if not (between 3 30 n)
    then false
    else if not (is_alnum (byte_at 0 s)) || not (is_alnum (byte_at (n - 1) s))
    then false
    else every (λ c. is_alnum c || c == b'-') s

-- `ends_with`.
abbrev pub is_suffix : Bytes → Bytes → Bool
is_suffix tail s = leb (length tail) (length s) && beq (drop (length s - length tail) s) tail

abbrev pub is_ascii_alphanumeric : ℕ → Bool
is_ascii_alphanumeric c = is_alnum c || between b'A' b'Z' c

abbrev pub is_label : Bytes → Bool
is_label l =
    not (is_empty l)
    && leb (length l) 63
    && every (λ c. is_ascii_alphanumeric c || c == b'-') l
    && not (byte_at 0 l == b'-')
    && not (byte_at (length l - 1) l == b'-')

unfoldable pub labels_ok : List Bytes → Bool
labels_ok [] = true
labels_ok (l ∷ ls) = let rest = labels_ok ls in if is_label l then rest else false

unfoldable pub valid_custom_domain : Bytes → Bytes → Bool
unfolding labels_ok
valid_custom_domain d apex =
    if not (between 4 253 (length d))
    then false
    else if contains b'/' d || contains b':' d || contains b' ' d || not (contains b'.' d)
    then false
    else if beq d apex || is_suffix (b'.' ∷ apex) d
    then false
    else labels_ok (split b'.' d)
