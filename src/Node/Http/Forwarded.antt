-- ===== src/Node/Http/Forwarded.antt =====
-- The request head that `with_forwarded_headers` of natforge-node/src/tunnel/shared.rs sends on, read
-- back line by line.
use natforge_thesis.Prelude.{
  ℕ, ◌≡◌, ◌≢◌, ◌+◌, refl, ap, subst, ◌∙◌, Bool, true, false, not, ◌&&◌, Bytes, codes, List, [], ◌∷◌,
  ◌++◌, append_assoc, take, drop, some, All, ◌==◌, if◌then◌else◌, arith, Bool-cases, inl, inr,
}
use natforge_thesis.Node.Text.{is_utf8, split_crlf, push_first, find_subsequence}
use natforge_thesis.Node.Http.{crlf, blank_line, is_forwarded, kept_lines, own_lines, rewrite_head}

-- A line without a CRLF in it.
abbrev pub IsLine : Bytes → Type 0
IsLine l = split_crlf l ≡ l ∷ []

abbrev pub IsPlain : Bytes → Type 0
IsPlain = All (λ c. c ≢ b'\r')

plain-IsLine : (l : Bytes) → IsPlain l → IsLine l
unfolding split_crlf
plain-IsLine [] p = refl
plain-IsLine (c ∷ []) p = refl
plain-IsLine (c ∷ d ∷ l) p = ground (arith, p.0, plain-IsLine (d ∷ l) p.1)

only_line :
    (c d : ℕ) (l : Bytes) (ls : List Bytes) → push_first c ls ≡ (c ∷ d ∷ l) ∷ [] → ls ≡ (d ∷ l) ∷ []
only_line c d l [] p = ground (arith, p)
only_line c d l (k ∷ ls) p = ground (arith, p)

shorter-IsLine :
    (c d : ℕ) (l : Bytes)
    → IsLine (c ∷ d ∷ l)
    → IsLine (d ∷ l) × ((c == b'\r' && d == b'\n') ≡ false)
unfolding split_crlf
shorter-IsLine c d l p = elim (Bool-cases (c == b'\r' && d == b'\n')) [
  | inl y ↦ absurd (
      broken (
        subst
          (λ b.
            (if b then [] ∷ split_crlf l else push_first c (split_crlf (d ∷ l))) ≡ (c ∷ d ∷ l) ∷ [])
          y p))
  | inr y ↦ (
    only_line c d l (split_crlf (d ∷ l)) (
        subst
          (λ b.
            (if b then [] ∷ split_crlf l else push_first c (split_crlf (d ∷ l))) ≡ (c ∷ d ∷ l) ∷ [])
          y p),
    y,
  )
]
  where
    broken : ([] ∷ split_crlf l) ≡ (c ∷ d ∷ l) ∷ [] → ⊥
    broken e = ground (arith, e)

split_crlf-line :
    (l rest : Bytes) → IsLine l → split_crlf (l ++ (crlf ++ rest)) ≡ l ∷ split_crlf rest
unfolding split_crlf
split_crlf-line [] rest p = refl
split_crlf-line (c ∷ []) rest p = ground arith
split_crlf-line (c ∷ d ∷ l) rest p =
    let (q, n) = shorter-IsLine c d l p in rw n (ap (push_first c) (split_crlf-line (d ∷ l) rest q))

longer-IsLine :
    (c d : ℕ) (l : Bytes) → (c == b'\r' && d == b'\n') ≡ false → IsLine (d ∷ l) → IsLine (c ∷ d ∷ l)
unfolding split_crlf
longer-IsLine c d l n p = rw n (ap (push_first c) p)

extended_at :
    (c d : ℕ) (ls : List Bytes)
    → (c == b'\r' && d == b'\n') ≡ false
    → All IsLine (push_first d ls)
    → All IsLine (push_first c (push_first d ls))
extended_at c d [] n a = (longer-IsLine c d [] n a.0, tt)
extended_at c d (l ∷ ls) n a = (longer-IsLine c d l n a.0, a.1)

extended-IsLine :
    (c d : ℕ) (bs : Bytes)
    → (c == b'\r' && d == b'\n') ≡ false
    → All IsLine (split_crlf (d ∷ bs))
    → All IsLine (push_first c (split_crlf (d ∷ bs)))
unfolding split_crlf
extended-IsLine c d [] n a = (longer-IsLine c d [] n refl, tt)
extended-IsLine c d (e ∷ bs) n a = elim (Bool-cases (d == b'\r' && e == b'\n')) [
  | inl y ↦
      let a' =
        subst
          (λ b. All IsLine (if b then [] ∷ split_crlf bs else push_first d (split_crlf (e ∷ bs)))) y
          a in
      rw y (refl, a'.1)
  | inr y ↦
      let a' =
        subst
          (λ b. All IsLine (if b then [] ∷ split_crlf bs else push_first d (split_crlf (e ∷ bs)))) y
          a in
      rw y (extended_at c d (split_crlf (e ∷ bs)) n a')
]

split_crlf-IsLine : (bs : Bytes) → All IsLine (split_crlf bs)
unfolding split_crlf
split_crlf-IsLine [] = (refl, tt)
split_crlf-IsLine (c ∷ []) = (refl, tt)
split_crlf-IsLine (c ∷ d ∷ bs) = elim (Bool-cases (c == b'\r' && d == b'\n')) [
  | inl y ↦ rw y (refl, split_crlf-IsLine bs)
  | inr y ↦ rw y (extended-IsLine c d bs y (split_crlf-IsLine (d ∷ bs)))
]

-- The lines that are not the client's own `X-Forwarded-*`.
abbrev pub kept : List Bytes → List Bytes
kept [] = []
kept (l ∷ ls) = if is_forwarded l then kept ls else l ∷ kept ls

split_crlf-kept_lines :
    (ls : List Bytes) (rest : Bytes)
    → All IsLine ls
    → split_crlf (kept_lines ls ++ rest) ≡ kept ls ++ split_crlf rest
unfolding kept_lines
split_crlf-kept_lines [] rest a = refl
split_crlf-kept_lines (l ∷ ls) rest a = elim (Bool-cases (is_forwarded l)) [
  | inl y ↦ rw y (split_crlf-kept_lines ls rest a.1)
  | inr y ↦ rw y (
      ap split_crlf (append_assoc l (crlf ++ kept_lines ls) rest)
      ∙ split_crlf-line l (kept_lines ls ++ rest) a.0
      ∙ ap (◌∷◌ l) (split_crlf-kept_lines ls rest a.1))
]

abbrev pub for_line : Bytes → Bytes
for_line peer_ip = codes "X-Forwarded-For: " ++ peer_ip

abbrev pub proto_line : Bytes → Bytes
proto_line scheme = codes "X-Forwarded-Proto: " ++ scheme

abbrev pub host_line : Bytes → Bytes
host_line hostname = codes "X-Forwarded-Host: " ++ hostname

abbrev no_cr : Bytes → Bool
no_cr [] = true
no_cr (c ∷ l) = not (c == b'\r') && no_cr l

IsPlain-after : (name l : Bytes) → no_cr name ≡ true → IsPlain l → IsPlain (name ++ l)
IsPlain-after [] l n p = p
IsPlain-after (c ∷ name) l n p = (ground (arith, n), IsPlain-after name l (ground (arith, n)) p)

split_crlf-own_lines :
    (peer_ip scheme hostname rest : Bytes)
    → IsPlain peer_ip
    → IsPlain scheme
    → IsPlain hostname
    → split_crlf (own_lines peer_ip scheme hostname ++ (crlf ++ rest))
      ≡ for_line peer_ip ∷ proto_line scheme ∷ host_line hostname ∷ [] ∷ split_crlf rest
split_crlf-own_lines peer_ip scheme hostname rest p q r =
    let end = crlf ++ rest in
    let third = host_line hostname ++ (crlf ++ end) in
    let second = proto_line scheme ++ (crlf ++ third) in
    ap split_crlf regrouped
    ∙ split_crlf-line (for_line peer_ip) second
        (plain-IsLine (for_line peer_ip) (IsPlain-after (codes "X-Forwarded-For: ") peer_ip refl p))
    ∙ ap (◌∷◌ (for_line peer_ip)) (
        split_crlf-line (proto_line scheme) third (
          plain-IsLine (proto_line scheme)
            (IsPlain-after (codes "X-Forwarded-Proto: ") scheme refl q))
        ∙ ap (◌∷◌ (proto_line scheme)) (
            split_crlf-line (host_line hostname) end (
              plain-IsLine (host_line hostname)
                (IsPlain-after (codes "X-Forwarded-Host: ") hostname refl r))
            ∙ ap (◌∷◌ (host_line hostname)) (split_crlf-line [] rest (plain-IsLine [] tt))))
  where
    regrouped :
        own_lines peer_ip scheme hostname ++ (crlf ++ rest)
        ≡ for_line peer_ip
          ++ (crlf
              ++ (proto_line scheme ++ (crlf ++ (host_line hostname ++ (crlf ++ (crlf ++ rest))))))
    regrouped = rw (append_assoc peer_ip, append_assoc scheme, append_assoc hostname) refl

-- When the head is complete and valid UTF-8, and the peer, the scheme and the host hold no carriage
-- return, the lines sent on are the client's lines without its own `X-Forwarded-*` ones, in order,
-- then the node's three, then the blank line and what followed it.
pub rewrite_head_lines :
    (head peer_ip scheme hostname : Bytes) (end : ℕ)
    → find_subsequence head blank_line ≡ some end
    → is_utf8 (take end head) ≡ true
    → IsPlain peer_ip
    → IsPlain scheme
    → IsPlain hostname
    → split_crlf (rewrite_head head peer_ip scheme hostname)
      ≡ kept (split_crlf (take end head))
        ++ for_line peer_ip
          ∷ proto_line scheme
          ∷ host_line hostname
          ∷ []
          ∷ split_crlf (drop (end + 4) head)
unfolding rewrite_head
rewrite_head_lines head peer_ip scheme hostname end f u p q r =
    ap split_crlf rewritten
    ∙ split_crlf-kept_lines (split_crlf (take end head)) sent (split_crlf-IsLine (take end head))
    ∙ ap (◌++◌ (kept (split_crlf (take end head))))
        (split_crlf-own_lines peer_ip scheme hostname (drop (end + 4) head) p q r)
  where
    sent : Bytes
    sent = own_lines peer_ip scheme hostname ++ (crlf ++ drop (end + 4) head)

    rewritten :
        rewrite_head head peer_ip scheme hostname ≡ kept_lines (split_crlf (take end head)) ++ sent
    rewritten = ground (arith, f, u)
