-- ===== src/Node/Sni/Hello.antt =====
-- `parse_sni` of natforge-node/src/tunnel/shared.rs against an encoder of TLS ClientHello records,
-- written from the format (RFC 8446, RFC 6066) and not from the parser.
pub mod Found
use natforge_thesis.Prelude.{
  ℕ, zero, suc, ◌+◌, ◌-◌, ◌*◌, ◌/◌, ◌%◌, ◌≤◌, ◌<◌, ◌≡◌, ◌≢◌, refl, ap, ◌∙◌, sym, subst, Bool, true,
  false, Bytes, List, [], ◌∷◌, ◌++◌, Option, none, some, length, get_elem?, take, drop,
  length-append, length-take, append_assoc, append-nil, All, leb, ltb, ◌==◌, le→leb, arith,
}
use natforge_thesis.Proto.Stream.{be16}
use natforge_thesis.Node.Text.{is_utf8}
use natforge_thesis.Node.Checked.{◌>>=◌, slice, slice_from, be16_at}
use natforge_thesis.Node.Checked.Access.{
  get_elem?-append, be16_at-append, slice-append, slice_from_in,
}
use natforge_thesis.Node.Sni.{
  Sni, found, need_more, server_name, extensions, at_extensions, at_compression, at_ciphers,
  at_hello, at_handshake, parse_sni,
}

-- An extension by its type and body.
abbrev pub encode_extension : ℕ × Bytes → Bytes
encode_extension (kind, bs) = be16 kind ++ (be16 (length bs) ++ bs)

abbrev pub encode_extensions : List (ℕ × Bytes) → Bytes
encode_extensions [] = []
encode_extensions (x ∷ xs) = encode_extension x ++ encode_extensions xs

-- The body of a server_name extension with one host name.
abbrev pub name_entry : Bytes → Bytes
name_entry name = be16 (3 + length name) ++ 0 ∷ (be16 (length name) ++ name)

pub record Hello : Type 0 where
  pub start : Bytes
  pub session : Bytes
  pub ciphers : Bytes
  pub compression : Bytes
  pub before : List (ℕ × Bytes)
  pub name : Bytes
  pub after : List (ℕ × Bytes)

abbrev pub all_extensions : Hello → Bytes
all_extensions h =
    encode_extensions h.before
    ++ (encode_extension (0, name_entry h.name) ++ encode_extensions h.after)

abbrev pub hello_body : Hello → Bytes
hello_body h =
    h.start
    ++ ((length h.session % 256 ∷ h.session)
        ++ ((be16 (length h.ciphers) ++ h.ciphers)
            ++ ((length h.compression % 256 ∷ h.compression)
                ++ (be16 (length (all_extensions h)) ++ all_extensions h))))

-- Handshake type 1, a length of three bytes, the body.
abbrev pub handshake : Hello → Bytes
handshake h =
    let n = length (hello_body h) in
    1 ∷ (n / 65536) % 256 ∷ (n / 256) % 256 ∷ n % 256 ∷ hello_body h

-- A TLS record of type 22 around `hs`, of version 3.x.
abbrev pub record_of : ℕ → Bytes → Bytes
record_of minor hs = 0x16 ∷ 3 ∷ minor ∷ (be16 (length hs) ++ hs)

abbrev pub client_hello : ℕ → Hello → Bytes
client_hello minor h = record_of minor (handshake h)

abbrev pub IsOther : ℕ × Bytes → Type 0
IsOther (kind, bs) = (0 < kind) × (kind < 65536) × (length bs < 65536)

-- What the format asks of the fields.
pub record IsHello (h : Hello) : Type 0 where
  pub start_is : length h.start ≡ 34
  pub session_fits : length h.session < 256
  pub compression_fits : length h.compression < 256
  pub ciphers_fit : length h.ciphers < 65536
  pub others : All IsOther h.before
  pub name_utf8 : is_utf8 h.name ≡ true
  pub fits : 4 + length (hello_body h) < 65536

read_be16 :
    (body pre : Bytes) (n : ℕ) (ys : Bytes) (p : ℕ)
    → body ≡ pre ++ (be16 n ++ ys)
    → p ≡ length pre
    → n < 65536
    → be16_at p body ≡ some n
read_be16 body pre n ys p e h k =
    ap (be16_at p) e
    ∙ be16_at-append pre (n / 256 % 256) (n % 256) ys p h
    ∙ ap some (let back : n / 256 % 256 * 256 + n % 256 ≡ n = omega arith in back)

read_slice :
    (body pre xs ys : Bytes) (lo hi : ℕ)
    → body ≡ pre ++ (xs ++ ys)
    → lo ≡ length pre
    → hi ≡ lo + length xs
    → slice lo hi body ≡ some xs
read_slice body pre xs ys lo hi e h k = ap (slice lo hi) e ∙ slice-append pre xs ys lo hi h k

server_name-name_entry :
    (name : Bytes)
    → length name + 5 < 65536
    → is_utf8 name ≡ true
    → server_name (name_entry name) ≡ some (found name)
unfolding server_name
server_name-name_entry name h u =
    let len =
      read_be16 (name_entry name) ((3 + length name) / 256 % 256 ∷ (3 + length name) % 256 ∷ 0 ∷ [])
        (length name) name 3 refl refl (omega arith) in
    let nm =
      read_slice (name_entry name)
        ((3 + length name) / 256 % 256
          ∷ (3 + length name) % 256
          ∷ 0
          ∷ length name / 256 % 256
          ∷ length name % 256
          ∷ [])
        name [] 5 (5 + length name)
        (ap
          (λ z.
            (3 + length name) / 256 % 256
            ∷ (3 + length name) % 256
            ∷ 0
            ∷ length name / 256 % 256
            ∷ length name % 256
            ∷ z)
          (sym (append-nil name)))
        refl refl in
    ground (arith, len, nm, u)

-- One step of the loop, at an extension that stands at offset `p`.
module _ (body pre : Bytes) (kind : ℕ) (bs ys : Bytes) (p : ℕ)
    (e : body ≡ pre ++ (encode_extension (kind, bs) ++ ys)) (h : p ≡ length pre) (k : kind < 65536)
    (l : length bs < 65536) where
  extension_type : be16_at p body ≡ some kind
  extension_type = read_be16 body pre kind (be16 (length bs) ++ (bs ++ ys)) p e h k

  extension_length : be16_at (p + 2) body ≡ some (length bs)
  extension_length =
      read_be16 body (pre ++ be16 kind) (length bs) (bs ++ ys) (p + 2)
        (e ∙ sym (append_assoc pre (be16 kind) _)) (omega (arith, length-append pre (be16 kind))) l

  extension_body : slice (p + 4) (p + 4 + length bs) body ≡ some bs
  extension_body =
      read_slice body (pre ++ (be16 kind ++ be16 (length bs))) bs ys (p + 4) (p + 4 + length bs)
        (e ∙ sym (append_assoc pre (be16 kind ++ be16 (length bs)) _))
        (omega (arith, length-append pre (be16 kind ++ be16 (length bs)))) refl

  extension_room : p + 4 + length bs + length ys ≡ length body
  extension_room = omega (
    arith,
    ap length e,
    length-append pre (encode_extension (kind, bs) ++ ys),
    length-append bs ys,
  )

extensions_found :
    (before : List (ℕ × Bytes)) (fuel : ℕ) (body pre name after : Bytes) (p ext_end : ℕ)
    → body ≡ pre ++ (encode_extensions before ++ (encode_extension (0, name_entry name) ++ after))
    → p ≡ length pre
    → ext_end ≡ length body
    → ext_end - p < fuel
    → All IsOther before
    → is_utf8 name ≡ true
    → length name + 5 < 65536
    → extensions fuel body p ext_end ≡ some (found name)
unfolding extensions
extensions_found before zero body pre name after p ext_end e h k f o u l = absurd (omega arith)
extensions_found [] (suc fuel) body pre name after p ext_end e h k f o u l =
    let small : length (name_entry name) < 65536 = omega arith in
    let room = extension_room body pre 0 (name_entry name) after p e h (omega arith) small in
    rw
      (
        le→leb (p + 4) ext_end (omega arith),
        extension_type body pre 0 (name_entry name) after p e h (omega arith) small,
        extension_length body pre 0 (name_entry name) after p e h (omega arith) small,
      )
      (let fine : ltb (length body) (p + 4 + length (name_entry name)) ≡ false =
          ground (arith, room) in
        rw (fine, extension_body body pre 0 (name_entry name) after p e h (omega arith) small)
          (server_name-name_entry name l u))
extensions_found ((kind, bs) ∷ before) (suc fuel) body pre name after p ext_end e h k f o u l =
    let ys = encode_extensions before ++ (encode_extension (0, name_entry name) ++ after) in
    let e' : body ≡ pre ++ (encode_extension (kind, bs) ++ ys) =
      e ∙ ap (◌++◌ pre) (append_assoc (encode_extension (kind, bs)) (encode_extensions before) _) in
    let room = extension_room body pre kind bs ys p e' h (o.0).1 (o.0).2 in
    let rest =
      extensions_found before fuel body (pre ++ encode_extension (kind, bs)) name after
        (p + 4 + length bs) ext_end (e' ∙ sym (append_assoc pre (encode_extension (kind, bs)) ys))
        (omega (arith, length-append pre (encode_extension (kind, bs)))) k (omega arith) o.1 u l in
    rw
      (
        le→leb (p + 4) ext_end (omega arith),
        extension_type body pre kind bs ys p e' h (o.0).1 (o.0).2,
        extension_length body pre kind bs ys p e' h (o.0).1 (o.0).2,
      )
      (let fine : ltb (length body) (p + 4 + length bs) ≡ false = ground (arith, room) in
        let other : (kind == 0) ≡ false = ground (arith, o.0) in rw (fine, other) rest)

module _ (h : Hello) (v : IsHello h) where
  session_part : Bytes
  session_part = length h.session % 256 ∷ h.session

  to_ciphers : Bytes
  unfolding session_part
  to_ciphers = h.start ++ session_part

  to_compression : Bytes
  unfolding to_ciphers
  to_compression = to_ciphers ++ (be16 (length h.ciphers) ++ h.ciphers)

  to_extensions : Bytes
  unfolding to_compression
  to_extensions = to_compression ++ (length h.compression % 256 ∷ h.compression)

  ext : Bytes
  ext = all_extensions h

  -- The body, split at each length that the parser reads.
  split_ciphers :
      hello_body h
      ≡ to_ciphers
        ++ (be16 (length h.ciphers)
            ++ (h.ciphers
                ++ ((length h.compression % 256 ∷ h.compression) ++ (be16 (length ext) ++ ext))))
  unfolding to_ciphers ext
  split_ciphers = sym (append_assoc h.start (length h.session % 256 ∷ h.session) _)

  split_compression :
      hello_body h
      ≡ to_compression
        ++ ((length h.compression % 256 ∷ h.compression) ++ (be16 (length ext) ++ ext))
  unfolding to_compression
  split_compression =
      split_ciphers ∙ sym (append_assoc to_ciphers (be16 (length h.ciphers) ++ h.ciphers) _)

  split_extensions : hello_body h ≡ to_extensions ++ (be16 (length ext) ++ ext)
  unfolding to_extensions
  split_extensions =
      split_compression
      ∙ sym (append_assoc to_compression (length h.compression % 256 ∷ h.compression) _)

  length-to_ciphers : length to_ciphers ≡ 34 + (1 + length h.session)
  unfolding to_ciphers
  length-to_ciphers =
      omega (arith, v.start_is, length-append h.start (length h.session % 256 ∷ h.session))

  length-to_compression : length to_compression ≡ length to_ciphers + (2 + length h.ciphers)
  unfolding to_compression
  length-to_compression =
      omega (arith, length-append to_ciphers (be16 (length h.ciphers) ++ h.ciphers))

  length-to_extensions : length to_extensions ≡ length to_compression + (1 + length h.compression)
  unfolding to_extensions
  length-to_extensions =
      omega (arith, length-append to_compression (length h.compression % 256 ∷ h.compression))

  length-hello_body : length (hello_body h) ≡ length to_extensions + 2 + length ext
  length-hello_body =
      omega
        (arith, ap length split_extensions, length-append to_extensions (be16 (length ext) ++ ext))

  name_small : length h.name + 5 < 65536
  unfolding ext
  name_small = omega (
    arith,
    v.fits,
    length-hello_body,
    length-append (encode_extensions h.before)
        (encode_extension (0, name_entry h.name) ++ encode_extensions h.after),
    length-append (name_entry h.name) (encode_extensions h.after),
  )

  at_extensions-hello_body :
      at_extensions (hello_body h) (length to_extensions) ≡ some (found h.name)
  unfolding at_extensions ext
  at_extensions-hello_body =
      let n = length (hello_body h) in
      let p = length to_extensions in
      let small : length ext < 65536 = omega (arith, v.fits, length-hello_body) in
      rw
        (
          le→leb (p + 2) n (omega (arith, length-hello_body)),
          read_be16 (hello_body h) to_extensions (length ext) ext p split_extensions refl small,
        )
        (let fine : ltb n (p + 2 + length ext) ≡ false = ground (arith, length-hello_body) in
          rw fine (
            extensions_found h.before (suc n) (hello_body h) (to_extensions ++ be16 (length ext))
              h.name (encode_extensions h.after) (p + 2) (p + 2 + length ext)
              (split_extensions ∙ sym (append_assoc to_extensions (be16 (length ext)) ext))
              (omega (arith, length-append to_extensions (be16 (length ext))))
              (omega (arith, length-hello_body)) (omega (arith, length-hello_body)) v.others
              v.name_utf8 name_small))
