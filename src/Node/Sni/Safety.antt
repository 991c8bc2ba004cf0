-- ===== src/Node/Sni/Safety.antt =====
-- `parse_sni` of natforge-node/src/tunnel/shared.rs never panics, on any input.
use natforge_thesis.Prelude.{
  ℕ, zero, suc, ◌+◌, ◌-◌, ◌≤◌, ◌<◌, ◌≡◌, ◌≢◌, Bytes, none, some, length, take, drop, arith, inl,
  inr, Bool-cases, Option-cases, leb, ltb, leb→le,
}
use natforge_thesis.Node.Checked.Access.{get_elem?_in, be16_at_in, slice_in, slice_from_in}
use natforge_thesis.Node.Sni.{
  Sni, server_name, extensions, at_extensions, at_compression, at_ciphers, at_hello, at_handshake,
  parse_sni,
}

server_name-total : (ext : Bytes) → server_name ext ≢ none
unfolding server_name
server_name-total ext h = elim (Bool-cases (ltb (length ext) 5)) [
  | inl e ↦ ground (arith, e)
  | inr e ↦
      let long : 5 ≤ length ext = ground (arith, e) in
      let (t, et) = get_elem?_in ext 2 (omega arith) in
      let (n, en) = be16_at_in 3 ext (omega arith) in
      elim (Bool-cases (ltb (length ext) (5 + n))) [
        | inl f ↦ ground (arith, et, en)
        | inr f ↦ ground (arith, et, en, slice_in 5 (5 + n) ext)
      ]
]

extensions-total :
    (fuel : ℕ) (body : Bytes) (p ext_end : ℕ)
    → ext_end ≤ length body
    → ext_end - p < fuel
    → extensions fuel body p ext_end ≢ none
unfolding extensions
extensions-total zero body p ext_end h k = absurd (omega arith)
extensions-total (suc fuel) body p ext_end h k = elim (Bool-cases (leb (p + 4) ext_end)) [
  | inr e ↦ rw e (λ x. cc)
  | inl e ↦
      let room : p + 4 ≤ ext_end = leb→le _ _ e in
      let (t, et) = be16_at_in p body (omega arith) in
      let (n, en) = be16_at_in (p + 2) body (omega arith) in
      rw (e, et, en)
        (ground (
          arith,
          slice_in (p + 4) (p + 4 + n) body,
          server_name-total (take (p + 4 + n - (p + 4)) (drop (p + 4) body)),
          extensions-total fuel body (p + 4 + n) ext_end,
        ))
]

at_extensions-total : (body : Bytes) (p : ℕ) → at_extensions body p ≢ none
unfolding at_extensions
at_extensions-total body p = elim (Bool-cases (leb (p + 2) (length body))) [
  | inr e ↦ rw e (λ x. cc)
  | inl e ↦
      let (t, et) = be16_at_in p body (leb→le _ _ e) in
      rw (e, et) (ground (arith, extensions-total (suc (length body)) body (p + 2) (p + 2 + t)))
]

at_compression-total : (body : Bytes) (p : ℕ) → at_compression body p ≢ none
unfolding at_compression
at_compression-total body p = elim (Bool-cases (leb (p + 1) (length body))) [
  | inr e ↦ rw e (λ x. cc)
  | inl e ↦
      let fits : p + 1 ≤ length body = leb→le _ _ e in
      let (t, et) = get_elem?_in body p (omega arith) in
      rw (e, et) (at_extensions-total body (p + (1 + t)))
]

at_ciphers-total : (body : Bytes) (p : ℕ) → at_ciphers body p ≢ none
unfolding at_ciphers
at_ciphers-total body p = elim (Bool-cases (leb (p + 2) (length body))) [
  | inr e ↦ rw e (λ x. cc)
  | inl e ↦
      let (t, et) = be16_at_in p body (leb→le _ _ e) in
      rw (e, et) (at_compression-total body (p + (2 + t)))
]

at_hello-total : (body : Bytes) → at_hello body ≢ none
unfolding at_hello
at_hello-total body = elim (Bool-cases (leb (34 + 1) (length body))) [
  | inr e ↦ rw e (ground arith)
  | inl e ↦
      let fits : 34 + 1 ≤ length body = leb→le _ _ e in
      let (t, et) = get_elem?_in body 34 (omega arith) in
      rw (e, et) (ground (arith, at_ciphers-total body (34 + (1 + t))))
]

at_handshake-total : (hs : Bytes) → at_handshake hs ≢ none
unfolding at_handshake
at_handshake-total hs = elim (Bool-cases (ltb (length hs) 4)) [
  | inl e ↦ rw e (λ x. cc)
  | inr e ↦
      let fits : 4 ≤ length hs = ground (arith, e) in
      let (t, et) = get_elem?_in hs 0 (omega arith) in
      rw (e, et) (ground (arith, slice_from_in 4 hs fits, at_hello-total (drop 4 hs)))
]

parse_sni-ne-none : (b : Bytes) → parse_sni b ≢ none
unfolding parse_sni
parse_sni-ne-none b = elim (Bool-cases (ltb (length b) 5)) [
  | inl e ↦ rw e (λ x. cc)
  | inr e ↦
      let fits : 5 ≤ length b = ground (arith, e) in
      let (x, ex) = get_elem?_in b 0 (omega arith) in
      let (y, ey) = get_elem?_in b 1 (omega arith) in
      let (n, en) = be16_at_in 3 b (omega arith) in
      rw (e, ex, ey, en)
        (ground (arith, slice_in 5 (5 + n) b, at_handshake-total (take (5 + n - 5) (drop 5 b))))
]

-- On every byte string `parse_sni` returns a verdict: no index or slice is out of range, and the
-- loop over the extensions ends.
pub parse_sni_total : (b : Bytes) → (s : Sni) × (parse_sni b ≡ some s)
parse_sni_total b = elim (Option-cases (parse_sni b)) [
  | inl e ↦ absurd (parse_sni-ne-none b e)
  | inr (s, e) ↦ (s, e)
]
