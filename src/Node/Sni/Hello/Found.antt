-- ===== src/Node/Sni/Hello/Found.antt =====
-- `parse_sni` of natforge-node/src/tunnel/shared.rs finds the name of an encoded ClientHello, and
-- waits for the rest of a cut one.
use natforge_thesis.Prelude.{
  ℕ, suc, ◌+◌, ◌%◌, ◌≤◌, ◌<◌, ◌≡◌, refl, ap, ◌∙◌, true, false, Bytes, [], ◌∷◌, ◌++◌, some, length,
  take, get_elem?, length-append, length-take, ltb, le→leb, lt→ltb, arith,
}
use natforge_thesis.Proto.Stream.{be16}
use natforge_thesis.Node.Checked.Access.{get_elem?-append, slice_from_in}
use natforge_thesis.Node.Sni.{
  found, need_more, at_compression, at_ciphers, at_hello, at_handshake, parse_sni,
}
use natforge_thesis.Node.Sni.Hello.{
  Hello, IsHello, hello_body, record_of, handshake, client_hello, read_be16, read_slice, to_ciphers,
  to_compression, to_extensions, split_ciphers, split_compression, length-to_ciphers,
  length-to_compression, length-to_extensions, length-hello_body, at_extensions-hello_body,
}

parse_sni-record_of :
    (minor : ℕ) (hs rest : Bytes)
    → length hs < 65536
    → parse_sni (record_of minor hs ++ rest) ≡ at_handshake hs
unfolding parse_sni
parse_sni-record_of minor hs rest h =
    let b = record_of minor hs ++ rest in
    let short : ltb (length b) 5 ≡ false = ground arith in
    let whole : ltb (length b) (5 + length hs) ≡ false = ground (arith, length-append hs rest) in
    rw (
      short,
      read_be16 b (0x16 ∷ 3 ∷ minor ∷ []) (length hs) (hs ++ rest) 3 refl refl h,
      whole,
      read_slice b (0x16 ∷ 3 ∷ minor ∷ be16 (length hs)) hs rest 5 (5 + length hs) refl refl refl,
    )

cut_body :
    (minor k : ℕ) (hs : Bytes)
    → length hs < 65536
    → k < length hs
    → parse_sni (0x16 ∷ 3 ∷ minor ∷ (be16 (length hs) ++ take k hs)) ≡ some need_more
unfolding parse_sni
cut_body minor k hs h l =
    let b = 0x16 ∷ 3 ∷ minor ∷ (be16 (length hs) ++ take k hs) in
    let short : ltb (length b) 5 ≡ false = ground arith in
    let part : ltb (length b) (5 + length hs) ≡ true =
      lt→ltb _ _ (omega (arith, length-take k hs)) in
    rw (short, read_be16 b (0x16 ∷ 3 ∷ minor ∷ []) (length hs) (take k hs) 3 refl refl h, part)

parse_sni_short : (b : Bytes) → length b < 5 → parse_sni b ≡ some need_more
unfolding parse_sni
parse_sni_short b h = rw (lt→ltb _ _ h)

-- Every proper prefix of a handshake record makes the node wait for more.
pub parse_sni-take-record_of :
    (minor n : ℕ) (hs : Bytes)
    → length hs < 65536
    → n < length (record_of minor hs)
    → parse_sni (take n (record_of minor hs)) ≡ some need_more
parse_sni-take-record_of minor (suc (suc (suc (suc (suc k))))) hs h l =
    cut_body minor k hs h (omega arith)
parse_sni-take-record_of minor n hs h l =
    parse_sni_short _ (omega (arith, length-take n (record_of minor hs)))

module _ (h : Hello) (v : IsHello h) where
  at_compression-hello_body :
      at_compression (hello_body h) (length (to_compression h v)) ≡ some (found h.name)
  unfolding at_compression
  at_compression-hello_body =
      let p = length (to_compression h v) in
      let small : length h.compression % 256 ≡ length h.compression =
        omega (arith, v.compression_fits) in
      let byte =
        ap (λ b. get_elem? b p) (split_compression h v)
        ∙ get_elem?-append (to_compression h v) _ 0 p (omega arith) in
      let next : p + (1 + length h.compression % 256) ≡ length (to_extensions h v) =
        omega (arith, length-to_extensions h v) in
      rw
        (
          le→leb (p + 1) (length (hello_body h))
              (omega (arith, length-hello_body h v, length-to_extensions h v)),
          byte,
          next,
        )
        (at_extensions-hello_body h v)

  at_ciphers-hello_body : at_ciphers (hello_body h) (length (to_ciphers h v)) ≡ some (found h.name)
  unfolding at_ciphers
  at_ciphers-hello_body =
      let p = length (to_ciphers h v) in
      let next : p + (2 + length h.ciphers) ≡ length (to_compression h v) =
        omega (arith, length-to_compression h v) in
      rw
        (
          le→leb (p + 2) (length (hello_body h)) (
              omega (
                arith,
                length-hello_body h v,
                length-to_extensions h v,
                length-to_compression h v,
              )),
          read_be16 (hello_body h) (to_ciphers h v) (length h.ciphers) _ p (split_ciphers h v) refl
              v.ciphers_fit,
          next,
        )
        at_compression-hello_body

  length-lower : 35 + length h.session + 2 ≤ length (hello_body h)
  length-lower = omega (
    arith,
    length-hello_body h v,
    length-to_extensions h v,
    length-to_compression h v,
    length-to_ciphers h v,
  )

  at_hello-hello_body : at_hello (hello_body h) ≡ some (found h.name)
  unfolding at_hello
  at_hello-hello_body =
      let small : length h.session % 256 ≡ length h.session = omega (arith, v.session_fits) in
      let n = length (hello_body h) in
      let next : 34 + (1 + length h.session % 256) ≡ length (to_ciphers h v) =
        omega (arith, length-to_ciphers h v) in
      rw
        (
          le→leb 34 n (omega (arith, length-lower)),
          le→leb (34 + 1) n (omega (arith, length-lower)),
          get_elem?-append h.start _ 0 34 (omega (arith, v.start_is)),
          next,
        )
        at_ciphers-hello_body

  at_handshake-handshake : at_handshake (handshake h) ≡ some (found h.name)
  unfolding at_handshake
  at_handshake-handshake =
      let fine : ltb (length (handshake h)) 4 ≡ false = ground arith in
      rw (fine, slice_from_in 4 (handshake h) (omega arith)) at_hello-hello_body

  -- The record of an encoded ClientHello gives its server name, whatever bytes follow it.
  pub parse_sni-client_hello :
      (minor : ℕ) (rest : Bytes) → parse_sni (client_hello minor h ++ rest) ≡ some (found h.name)
  parse_sni-client_hello minor rest =
      parse_sni-record_of minor (handshake h) rest (omega (arith, v.fits)) ∙ at_handshake-handshake
