-- ===== src/Proto/Preamble.antt =====
-- `encode_preamble` and `read_preamble` of natforge-proto/src/lib.rs, in a release build: the
-- `debug_assert!` on the replay's length is absent, so a longer replay is cut to `max_replay`.
pub mod RoundTrip
use natforge_thesis.Prelude.{
  ℕ, ◌%◌, min, Bool, Bytes, [], ◌∷◌, ◌++◌, Option, none, some, length, take, beq, ltb, leb, ◌==◌,
  if◌then◌else◌, ok, err,
}
use natforge_thesis.Proto.Stream.{
  Read, IoError, bad_magic, bad_version, bad_kind, replay_too_long, read_exact, ◌>>=◌, ◌>>◌, pure,
  require, be16, byte_at, from_be16,
}

-- The octets of an address: four of them, or sixteen.
pub data IpAddr : Type 0 where
  ipv4 ipv6 : Bytes → IpAddr

pub record SocketAddr : Type 0 where
  pub ip : IpAddr
  pub port : ℕ

abbrev pub stream_magic : Bytes
stream_magic = b'N' ∷ b'F' ∷ b'S' ∷ b'1' ∷ []

abbrev pub stream_version : ℕ
stream_version = 1

abbrev pub max_replay : ℕ
max_replay = 65535

unfoldable pub encode_addr : Option SocketAddr → Bytes
encode_addr none = 0 ∷ []
encode_addr (some a) = elim a.ip [ ipv4 o ↦ 4 ∷ o | ipv6 o ↦ 6 ∷ o ]

abbrev pub port_of : Option SocketAddr → ℕ
port_of none = 0
port_of (some a) = a.port

unfoldable pub encode_preamble : ℕ → Option SocketAddr → Bytes → Bytes
unfolding encode_addr
encode_preamble route_id peer replay =
    let rl = min (length replay) max_replay in
    (stream_magic ++ stream_version ∷ be16 route_id)
    ++ (encode_addr peer ++ (be16 (port_of peer) ++ (be16 rl ++ take rl replay)))

-- The `match kind[0]`.
unfoldable pub read_addr : ℕ → Read (Option IpAddr)
read_addr kind =
    if kind == 4
    then (do o ← read_exact 4; pure (some (ipv4 o)))
    else if kind == 6
    then (do o ← read_exact 16; pure (some (ipv6 o)))
    else if kind == 0
    then pure none
    else λ r. err (bad_kind kind)

abbrev pub peer_at : Option IpAddr → ℕ → Option SocketAddr
peer_at none port = none
peer_at (some ip) port = some (record { ip = ip; port = port })

unfoldable pub read_replay : ℕ → Read Bytes
read_replay len = if ltb 0 len then read_exact len else pure []

abbrev pub Decoded : Type 0
Decoded = ℕ × Option SocketAddr × Bytes

-- From the replay on; from the port on; from the address on; and behind the header.
abbrev pub read_tail : ℕ → Option IpAddr → Bytes → Bytes → Read Decoded
read_tail route_id ip p rl = do
  require (leb (from_be16 rl) max_replay) replay_too_long
  replay ← read_replay (from_be16 rl)
  pure (route_id, peer_at ip (from_be16 p), replay)

abbrev pub read_rest : ℕ → Option IpAddr → Read Decoded
read_rest route_id ip = do p ← read_exact 2; rl ← read_exact 2; read_tail route_id ip p rl

abbrev pub read_peer : ℕ → Bytes → Read Decoded
read_peer route_id kind = do ip ← read_addr (byte_at 0 kind); read_rest route_id ip

abbrev pub read_body : Bytes → Read Decoded
read_body hdr = do
  require (beq (take 4 hdr) stream_magic) bad_magic
  require (byte_at 4 hdr == stream_version) (bad_version (byte_at 4 hdr))
  let route_id = from_be16 (byte_at 5 hdr ∷ byte_at 6 hdr ∷ [])
  kind ← read_exact 1
  read_peer route_id kind

unfoldable pub read_preamble : Read Decoded
unfolding read_addr read_replay
read_preamble = do hdr ← read_exact 7; read_body hdr
