-- ===== src/Proto/Datagram/RoundTrip.antt =====
-- The datagram framing of natforge-proto/src/lib.rs keeps the datagrams and their bounds.
use natforge_thesis.Prelude.{
  ℕ, suc, zero, ◌<◌, ◌≡◌, refl, ap, sym, subst, min, Bool, true, false, Bytes, List, [], ◌∷◌, ◌++◌,
  append-nil, append_assoc, map, Option, some, length, take, length-take, lt→ltb, ok, arith,
}
use natforge_thesis.Proto.Stream.{Sink, Read, read_exact, write_all, ◌>>=◌, pure, be16, from_be16}
use natforge_thesis.Proto.Stream.Parses.{
  Parses, reader, Parses-read_exact, Parses-bind, Parses-pure,
}
use natforge_thesis.Proto.Datagram.{
  max_datagram, write_datagram, read_payload, read_datagram, send_all, receive_all,
}

-- The bytes of one framed datagram, and of several.
abbrev pub cut : Bytes → Bytes
cut d = take (min (length d) max_datagram) d

abbrev framed : Bytes → Bytes
framed d = be16 (min (length d) max_datagram) ++ cut d

abbrev pub all_framed : List Bytes → Bytes
all_framed [] = []
all_framed (d ∷ ds) = framed d ++ all_framed ds

write_datagram-framed :
    (d out : Bytes)
    → write_datagram d (record { written = out; closed = false })
      ≡ ok (record { written = out ++ framed d; closed = false })
unfolding write_datagram write_all
write_datagram-framed d out =
    ap (λ w. ok (record { written = w; closed = false })) (append_assoc out (be16 _) (cut d))

pub send_all-framed :
    (ds : List Bytes) (out : Bytes)
    → send_all ds (record { written = out; closed = false })
      ≡ ok (record { written = out ++ all_framed ds; closed = false })
unfolding send_all
send_all-framed [] out =
    ap (λ w. ok (record { written = w; closed = false })) (sym (append-nil out))
send_all-framed (d ∷ ds) out = ground (
  arith,
  write_datagram-framed d out,
  send_all-framed ds (out ++ framed d),
  append_assoc out (framed d) (all_framed ds),
)

Parses-read_payload : (bs : Bytes) → Parses (read_payload (length bs)) bs (some bs)
unfolding read_payload
Parses-read_payload [] = Parses-pure (some [])
Parses-read_payload (b ∷ bs) =
    let done : Bytes → Read (Option Bytes) = λ buf. pure (some buf) in
    rw (lt→ltb 0 (suc (length bs)) (omega arith)) (
      subst (λ xs. Parses (read_exact (suc (length bs)) >>= done) xs (some (b ∷ bs)))
        (append-nil (b ∷ bs))
        (Parses-bind _ done (Parses-read_exact (suc (length bs)) (b ∷ bs) refl) (Parses-pure _)))

read_datagram-framed :
    (d rest : Bytes) (f : Bool)
    → read_datagram (reader (framed d ++ rest) f) ≡ ok (some (cut d), reader rest f)
unfolding read_datagram
read_datagram-framed d rest f =
    let len : length (cut d) ≡ min (length d) max_datagram =
      omega (arith, length-take (min (length d) max_datagram) d) in
    let head =
      (Parses-read_exact 2 (be16 (min (length d) max_datagram)) refl).complete (cut d ++ rest) f in
    let back : from_be16 (be16 (min (length d) max_datagram)) ≡ length (cut d) = omega arith in
    rw (head, read_datagram) (rw back ((Parses-read_payload (cut d)).complete rest f))

receive_all_end : (fuel : ℕ) (f : Bool) → receive_all (suc fuel) (reader [] f) ≡ []
unfolding receive_all read_datagram read_exact
receive_all_end fuel true = refl
receive_all_end fuel false = refl

pub receive_all-framed :
    (ds : List Bytes) (fuel : ℕ) (f : Bool)
    → length ds < fuel
    → receive_all fuel (reader (all_framed ds) f) ≡ map cut ds
unfolding receive_all
receive_all-framed ds zero f h = absurd (omega arith)
receive_all-framed [] (suc fuel) f h = receive_all_end fuel f
receive_all-framed (d ∷ ds) (suc fuel) f h =
    ground (arith, read_datagram-framed d (all_framed ds) f, receive_all-framed ds fuel f)

-- Every datagram of a flow that is framed onto an open stream comes out of it again, in order, each
-- cut to 65535 bytes, and nothing else does; fuel of one step more than the datagrams is enough.
pub receive_all-send_all :
    (ds : List Bytes) (fuel : ℕ) (f : Bool)
    → length ds < fuel
    → (s : Sink) × (send_all ds (record { written = []; closed = false }) ≡ ok s)
      × (receive_all fuel (reader s.written f) ≡ map cut ds)
receive_all-send_all ds fuel f h = (
  record { written = all_framed ds; closed = false },
  send_all-framed ds [],
  receive_all-framed ds fuel f h,
)

-- A stream that ends after the first byte of a length is taken for a clean end, like an empty one.
pub read_datagram_partial :
    (b : ℕ) → read_datagram (reader (b ∷ []) false) ≡ read_datagram (reader [] false)
unfolding read_datagram read_exact
read_datagram_partial b = refl
