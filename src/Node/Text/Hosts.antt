-- ===== src/Node/Text/Hosts.antt =====
-- The routing key that natforge-node/src/tunnel/shared.rs takes from a host name.
use natforge_thesis.Prelude.{
  ℕ, ◌≡◌, refl, ap, ◌∙◌, Bool, true, false, ◌||◌, Bytes, [], ◌∷◌, ◌++◌, All, ◌==◌, arith,
}
use natforge_thesis.Node.Text.{
  between, lower_byte, to_ascii_lowercase, white_width, skip_white, trim_start, trim_end, trim,
  trim_dots, until, bare_host, subdomain_of,
}

-- A byte of a lower-case DNS label.
abbrev pub label_byte : ℕ → Bool
label_byte c = between b'a' b'z' c || between b'0' b'9' c || c == b'-'

abbrev pub IsLabelByte : ℕ → Type 0
IsLabelByte c = label_byte c ≡ true

white_width_label :
    (c : ℕ) (bs : Bytes) → (label_byte c || c == b'.') ≡ true → white_width (c ∷ bs) ≡ 0
unfolding white_width
white_width_label c bs h = ground arith

trim_start_kept : (c : ℕ) (bs : Bytes) → white_width (c ∷ bs) ≡ 0 → trim_start (c ∷ bs) ≡ c ∷ bs
unfolding trim_start skip_white
trim_start_kept c bs h = rw (h, skip_white)

trim_end_kept :
    (c : ℕ) (bs : Bytes) → white_width (c ∷ bs) ≡ 0 → trim_end (c ∷ bs) ≡ c ∷ trim_end bs
unfolding trim_end
trim_end_kept c bs h = rw (trim_start_kept c bs h)

until-label :
    (mark : ℕ) (s rest : Bytes)
    → label_byte mark ≡ false
    → All IsLabelByte s
    → until mark (s ++ rest) ≡ s ++ until mark rest
unfolding until
until-label mark [] rest h l = refl
until-label mark (c ∷ s) rest h l =
    let other : (c == mark) ≡ false = ground (arith, l.0) in
    rw other (ap (◌∷◌ c) (until-label mark s rest h l.1))

trim_end-label : (s rest : Bytes) → All IsLabelByte s → trim_end (s ++ rest) ≡ s ++ trim_end rest
trim_end-label [] rest l = refl
trim_end-label (c ∷ s) rest l =
    trim_end_kept c (s ++ rest) (white_width_label c (s ++ rest) (ground (arith, l.0)))
    ∙ ap (◌∷◌ c) (trim_end-label s rest l.1)

until-trim_dots :
    (s rest : Bytes) → All IsLabelByte s → until b'.' (trim_dots (s ++ b'.' ∷ rest)) ≡ s
unfolding until trim_dots
until-trim_dots [] rest l = ground arith
until-trim_dots (c ∷ s) rest l =
    let other : (c == b'.') ≡ false = ground (arith, l.0) in
    rw (other, other) (ap (◌∷◌ c) (until-trim_dots s rest l.1))

lower-label : (s : Bytes) → All IsLabelByte s → to_ascii_lowercase s ≡ s
lower-label [] l = refl
lower-label (c ∷ s) l =
    let same : lower_byte c ≡ c = ground (arith, l.0) in λ i. same i ∷ lower-label s l.1 i

trim-label :
    (c : ℕ) (s rest : Bytes)
    → All IsLabelByte (c ∷ s)
    → trim ((c ∷ s) ++ b'.' ∷ rest) ≡ (c ∷ s) ++ b'.' ∷ trim_end rest
unfolding trim
trim-label c s rest l =
    ap trim_end (
      trim_start_kept c (s ++ b'.' ∷ rest)
        (white_width_label c (s ++ b'.' ∷ rest) (ground (arith, l.0))))
    ∙ trim_end-label (c ∷ s) (b'.' ∷ rest) l
    ∙ ap (◌++◌ (c ∷ s)) (trim_end_kept b'.' rest (white_width_label b'.' rest refl))

-- Whatever follows the first dot of a host name (apex, port, white space), the routing key of a
-- name whose first label is a non-empty lower-case DNS label is that label.
pub subdomain_of-label :
    (c : ℕ) (s rest : Bytes)
    → All IsLabelByte (c ∷ s)
    → subdomain_of ((c ∷ s) ++ b'.' ∷ rest) ≡ c ∷ s
unfolding subdomain_of bare_host until
subdomain_of-label c s rest l =
    ap (λ b. to_ascii_lowercase (until b'.' (trim_dots (trim b))))
      (until-label b':' (c ∷ s) (b'.' ∷ rest) refl l)
    ∙ ap (λ b. to_ascii_lowercase (until b'.' (trim_dots b))) (trim-label c s (until b':' rest) l)
    ∙ ap to_ascii_lowercase (until-trim_dots (c ∷ s) (trim_end (until b':' rest)) l)
    ∙ lower-label (c ∷ s) l
