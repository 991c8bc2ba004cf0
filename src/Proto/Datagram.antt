-- ===== src/Proto/Datagram.antt =====
-- `write_datagram` and `read_datagram` of natforge-proto/src/lib.rs, and the two loops over them
-- that relay a UDP flow (`udp_flow` of natforge-node/src/tunnel/mod.rs). `flush` moves no bytes in
-- this model of a stream.
pub mod RoundTrip
use natforge_thesis.Prelude.{
  ℕ, zero, suc, min, Bytes, List, [], ◌∷◌, Option, none, some, length, take, ltb, if◌then◌else◌,
  Result, ok, err, and_then,
}
use natforge_thesis.Proto.Stream.{
  Read, Reader, Sink, IoError, unexpected_eof, read_exact, write_all, ◌>>=◌, pure, be16, from_be16,
}

abbrev pub max_datagram : ℕ
max_datagram = 65535

unfoldable pub write_datagram : Bytes → Sink → Result IoError Sink
write_datagram bs s =
    let len = min (length bs) max_datagram in
    and_then (write_all (be16 len) s) (write_all (take len bs))

unfoldable pub read_payload : ℕ → Read (Option Bytes)
read_payload len = if ltb 0 len then (do buf ← read_exact len; pure (some buf)) else pure (some [])

-- The end of the stream inside the length counts as its end; any other fault is passed on.
abbrev pub at_end : Reader → IoError → Result IoError (Option Bytes × Reader)
at_end r unexpected_eof = ok (none, record r { pending = [] })
at_end r e = err e

unfoldable pub read_datagram : Read (Option Bytes)
unfolding read_payload
read_datagram r = elim (read_exact 2 r) [
  | ok (lb, r') ↦ read_payload (from_be16 lb) r'
  | err e ↦ at_end r e
]

-- `while let Some(d) = rx.recv()`: every queued datagram is framed, until a write fails.
unfoldable pub send_all : List Bytes → Sink → Result IoError Sink
send_all [] s = ok s
send_all (d ∷ ds) s = and_then (write_datagram d s) (send_all ds)

-- `while let Ok(Some(d)) = read_datagram(..)`, on fuel: the datagrams handed on.
unfoldable pub receive_all : ℕ → Reader → List Bytes
receive_all zero r = []
receive_all (suc fuel) r = elim (read_datagram r) [
  | ok (some d, r') ↦ d ∷ receive_all fuel r'
  | ok (none, r') ↦ []
  | err e ↦ []
]
