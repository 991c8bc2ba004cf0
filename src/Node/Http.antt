-- ===== src/Node/Http.antt =====
-- The HTTP side of natforge-node/src/tunnel/shared.rs: reading the first bytes of a connection, the
-- Host header, the ACME challenge path, and the rewritten request head.
pub mod Forwarded
use natforge_thesis.Prelude.{
  ℕ, zero, suc, ◌+◌, Bool, true, false, not, ◌&&◌, ◌||◌, Bytes, List, [], ◌∷◌, ◌++◌, Option, none,
  some, length, take, drop, is_empty, beq, leb, ltb, ◌==◌, if◌then◌else◌, codes,
}
use natforge_thesis.Node.Text.{
  is_utf8, to_ascii_lowercase, trim, split, split_crlf, is_prefix, find_subsequence,
}

-- `strip_suffix(b"\r")`, or the line itself.
unfoldable pub strip_cr : Bytes → Bytes
strip_cr [] = []
strip_cr (c ∷ bs) = let rest = strip_cr bs in if is_empty bs && c == b'\r' then [] else c ∷ rest

unfoldable pub is_host_line : Bytes → Bool
is_host_line line = leb 5 (length line) && beq (to_ascii_lowercase (take 5 line)) (codes "host:")

unfoldable pub host_value : Bytes → Option Bytes
host_value line =
    let val = trim (drop 5 line) in
    if not (is_utf8 (drop 5 line)) then none else if is_empty val then none else some val

-- The loop over the lines of the buffer.
unfoldable pub host_in : List Bytes → Option Bytes
unfolding strip_cr is_host_line host_value
host_in [] = none
host_in (l ∷ ls) =
    let rest = host_in ls in if is_host_line (strip_cr l) then host_value (strip_cr l) else rest

unfoldable pub parse_host : Bytes → Option Bytes
unfolding host_in
parse_host buf = host_in (split b'\n' buf)

abbrev pub crlf : Bytes
crlf = b'\r' ∷ b'\n' ∷ []

abbrev pub blank_line : Bytes
blank_line = b'\r' ∷ b'\n' ∷ b'\r' ∷ b'\n' ∷ []

abbrev pub challenge_path : Bytes
challenge_path = codes "/.well-known/acme-challenge/"

-- The second word of the request line, if it is under the challenge path.
unfoldable pub challenge_in : List Bytes → Option Bytes
challenge_in (method ∷ path ∷ words) =
    let token = drop (length challenge_path) path in
    if is_prefix challenge_path path && is_utf8 token then some token else none
challenge_in _ = none

unfoldable pub acme_challenge_token : Bytes → Option Bytes
unfolding challenge_in
acme_challenge_token buf = elim (find_subsequence buf crlf) [
  | none ↦ none
  | some line_end ↦ challenge_in (split b' ' (take line_end buf))
]

abbrev pub is_found {ℓ} : {A : Type ℓ} → Option A → Bool
is_found none = false
is_found (some a) = true

-- What the first loop of `serve_http` ends with. Each item of the list is what one `read` gave; a
-- closed, failed or timed-out read is the empty item or the end of the list.
pub data Peek : Type 0 where
  closed bad_request : Peek
  challenge : Bytes → Peek
  host : Bytes → Bytes → List Bytes → Peek

unfoldable pub peek_host : ℕ → Bytes → List Bytes → Peek
unfolding parse_host acme_challenge_token
peek_host limit buf [] = closed
peek_host limit buf (chunk ∷ chunks) =
    let buf' = buf ++ chunk in
    let more = peek_host limit buf' chunks in
    if is_empty chunk then closed else elim (acme_challenge_token buf') [
      | some token ↦ challenge token
      | none ↦ elim (parse_host buf') [
        | some h ↦ host h buf' chunks
        | none ↦
            if is_found (find_subsequence buf' blank_line) || leb limit (length buf')
            then bad_request
            else more
      ]
    ]

-- `with_forwarded_headers`: the rest of the head is read first.
unfoldable pub read_head : ℕ → Bytes → List Bytes → Bytes
read_head limit head [] = head
read_head limit head (chunk ∷ chunks) =
    let more = read_head limit (head ++ chunk) chunks in
    if is_found (find_subsequence head blank_line) || leb limit (length head)
    then head
    else if is_empty chunk
    then head
    else more

abbrev pub is_forwarded : Bytes → Bool
is_forwarded line = is_prefix (codes "x-forwarded-") (to_ascii_lowercase line)

unfoldable pub kept_lines : List Bytes → Bytes
kept_lines [] = []
kept_lines (l ∷ ls) =
    let rest = kept_lines ls in if is_forwarded l then rest else l ++ (crlf ++ rest)

-- The three lines that the node adds.
abbrev pub own_lines : Bytes → Bytes → Bytes → Bytes
own_lines peer_ip scheme hostname =
    codes "X-Forwarded-For: "
    ++ (peer_ip
        ++ (codes "\r\nX-Forwarded-Proto: "
            ++ (scheme ++ (codes "\r\nX-Forwarded-Host: " ++ (hostname ++ crlf)))))

unfoldable pub rewrite_head : Bytes → Bytes → Bytes → Bytes → Bytes
unfolding kept_lines
rewrite_head head peer_ip scheme hostname = elim (find_subsequence head blank_line) [
  | none ↦ head
  | some end ↦
      if not (is_utf8 (take end head))
      then head
      else kept_lines (split_crlf (take end head))
        ++ (own_lines peer_ip scheme hostname ++ (crlf ++ drop (end + 4) head))
]

unfoldable pub with_forwarded_headers : List Bytes → Bytes → Bytes → Bytes → Bytes → ℕ → Bytes
unfolding read_head rewrite_head
with_forwarded_headers chunks head peer_ip hostname scheme max_bytes =
    rewrite_head (read_head max_bytes head chunks) peer_ip scheme hostname
