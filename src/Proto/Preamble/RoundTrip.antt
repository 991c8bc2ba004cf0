-- ===== src/Proto/Preamble/RoundTrip.antt =====
-- `read_preamble` against `encode_preamble`, of natforge-proto/src/lib.rs.
use natforge_thesis.Prelude.{
  suc, lt→ltb, leb→le, sym, take_all, ℕ, ◌<◌, min, ◌≡◌, refl, ap, ◌∙◌, subst, Bytes, [], ◌∷◌, ◌++◌,
  append-nil, Option, none, some, length, take, beq_refl, leb, le→leb, length-take, arith, inl, inr,
  Bool-cases, true,
}
use natforge_thesis.Proto.Stream.{
  Read, read_exact, ◌>>=◌, pure, be16, from_be16, bad_magic, bad_version, replay_too_long,
}
use natforge_thesis.Proto.Stream.Parses.{
  Parses, Parses-read_exact, Parses-bind, Parses-pure, Parses-require,
}
use natforge_thesis.Proto.Preamble.{
  Decoded, IpAddr, ipv4, ipv6, SocketAddr, stream_magic, stream_version, max_replay, encode_addr,
  port_of, encode_preamble, read_addr, peer_at, read_replay, read_tail, read_rest, read_peer,
  read_body, read_preamble,
}

-- An address that Rust's types allow: four or sixteen octets, and a port of sixteen bits.
abbrev pub IsIp : IpAddr → Type 0
IsIp (ipv4 o) = length o ≡ 4
IsIp (ipv6 o) = length o ≡ 16

abbrev pub IsPeer : Option SocketAddr → Type 0
IsPeer none = Unit {0}
IsPeer (some a) = IsIp a.ip × (a.port < 65536)

be16-inverse : (n : ℕ) → n < 65536 → from_be16 (be16 n) ≡ n
be16-inverse n h = omega arith

ip_of : Option SocketAddr → Option IpAddr
ip_of none = none
ip_of (some a) = some a.ip

-- The kind byte and the octets that follow it.
addr_kind : Option SocketAddr → ℕ
addr_kind none = 0
addr_kind (some a) = elim a.ip [ ipv4 o ↦ 4 | ipv6 o ↦ 6 ]

addr_octets : Option SocketAddr → Bytes
addr_octets none = []
addr_octets (some a) = elim a.ip [ ipv4 o ↦ o | ipv6 o ↦ o ]

Parses-read_addr_ip :
    (ip : IpAddr)
    → IsIp ip
    → Parses
        (read_addr (elim ip [ ipv4 o ↦ 4 | ipv6 o ↦ 6 ]))
        (elim ip [ ipv4 o ↦ o | ipv6 o ↦ o ])
        (some ip)
unfolding read_addr
Parses-read_addr_ip (ipv4 o) h =
    subst (λ xs. Parses (read_addr 4) xs (some (ipv4 o))) (append-nil o)
      (Parses-bind _ _ (Parses-read_exact 4 o h) (Parses-pure _))
Parses-read_addr_ip (ipv6 o) h =
    subst (λ xs. Parses (read_addr 6) xs (some (ipv6 o))) (append-nil o)
      (Parses-bind _ _ (Parses-read_exact 16 o h) (Parses-pure _))

Parses-read_addr :
    (peer : Option SocketAddr)
    → IsPeer peer
    → Parses (read_addr (addr_kind peer)) (addr_octets peer) (ip_of peer)
unfolding read_addr addr_kind addr_octets ip_of
Parses-read_addr none h = Parses-pure none
Parses-read_addr (some a) h = Parses-read_addr_ip a.ip h.0

encode_addr-split :
    (peer : Option SocketAddr) → addr_kind peer ∷ addr_octets peer ≡ encode_addr peer
unfolding encode_addr addr_kind addr_octets
encode_addr-split none = refl
encode_addr-split (some a) = go a.ip
  where
    go :
        (ip : IpAddr)
        → ◌≡◌ {A = Bytes}
            ((elim ip [ ipv4 o ↦ 4 | ipv6 o ↦ 6 ]) ∷ (elim ip [ ipv4 o ↦ o | ipv6 o ↦ o ]))
            (elim ip [ ipv4 o ↦ 4 ∷ o | ipv6 o ↦ 6 ∷ o ])
    go (ipv4 o) = refl
    go (ipv6 o) = refl

peer_at-port_of : (peer : Option SocketAddr) → peer_at (ip_of peer) (port_of peer) ≡ peer
unfolding ip_of
peer_at-port_of none = refl
peer_at-port_of (some a) = refl

Parses-read_replay : (bs : Bytes) → Parses (read_replay (length bs)) bs bs
unfolding read_replay
Parses-read_replay [] = Parses-pure []
Parses-read_replay (b ∷ bs) =
    rw (lt→ltb 0 (suc (length bs)) (omega arith)) (Parses-read_exact _ _ refl)

take-min : (n : ℕ) (xs : Bytes) → take (min (length xs) n) xs ≡ take n xs
take-min n xs = elim (Bool-cases (leb (length xs) n)) [
  | inl e ↦ take_all _ xs (omega (arith, leb→le _ _ e)) ∙ sym (take_all n xs (leb→le _ _ e))
  | inr e ↦ ap (λ k. take k xs) (let le : min (length xs) n ≡ n = ground (arith, e) in le)
]

Parses-read_tail :
    (route_id : ℕ) (ip : Option IpAddr) (p replay : Bytes)
    → length replay < 65536
    → Parses
        (read_tail route_id ip p (be16 (length replay)))
        replay
        (route_id, peer_at ip (from_be16 p), replay)
Parses-read_tail route_id ip p replay h =
    let len : from_be16 (be16 (length replay)) ≡ length replay = be16-inverse _ h in
    let done : Bytes → Read Decoded = λ r. pure (route_id, peer_at ip (from_be16 p), r) in
    Parses-require replay_too_long (read_replay (from_be16 (be16 (length replay))) >>= done)
      (let le : leb (from_be16 (be16 (length replay))) max_replay ≡ true =
          rw len (le→leb _ _ (omega arith)) in
        le)
      (subst
        (λ xs.
          Parses (read_replay (from_be16 (be16 (length replay))) >>= done) xs
            (route_id, peer_at ip (from_be16 p), replay))
        (append-nil replay)
        (Parses-bind _ done
          (subst (λ k. Parses (read_replay k) replay replay) (sym len) (Parses-read_replay replay))
          (Parses-pure _)))

-- The part behind the address: port, length and replay.
Parses-read_rest :
    (route_id : ℕ) (ip : Option IpAddr) (port : ℕ) (replay : Bytes)
    → port < 65536
    → length replay < 65536
    → Parses
        (read_rest route_id ip)
        (be16 port ++ (be16 (length replay) ++ replay))
        (route_id, peer_at ip port, replay)
Parses-read_rest route_id ip port replay hp hr =
    subst
      (λ k.
        Parses (read_rest route_id ip) (be16 port ++ (be16 (length replay) ++ replay))
          (route_id, peer_at ip k, replay))
      (be16-inverse port hp)
      (Parses-bind _ (λ p. read_exact 2 >>= read_tail route_id ip p)
        (Parses-read_exact 2 (be16 port) refl)
        (Parses-bind _ (read_tail route_id ip (be16 port))
          (Parses-read_exact 2 (be16 (length replay)) refl)
          (Parses-read_tail route_id ip (be16 port) replay hr)))

abbrev header : ℕ → Bytes
header route_id = stream_magic ++ stream_version ∷ be16 route_id

abbrev by_parts : ℕ → Option SocketAddr → Bytes → Bytes
by_parts route_id peer replay =
    header route_id
    ++ ((addr_kind peer ∷ addr_octets peer)
        ++ (be16 (port_of peer) ++ (be16 (length replay) ++ replay)))

-- The whole preamble, by its parts.
Parses-read_preamble :
    (route_id : ℕ) (peer : Option SocketAddr) (replay : Bytes)
    → route_id < 65536
    → IsPeer peer
    → port_of peer < 65536
    → length replay < 65536
    → Parses read_preamble (by_parts route_id peer replay) (route_id, peer, replay)
unfolding read_preamble
Parses-read_preamble route_id peer replay hr hp hq hl =
    subst (λ v. Parses read_preamble (by_parts route_id peer replay) v)
      (λ i. (be16-inverse route_id hr i, peer_at-port_of peer i, replay))
      (Parses-bind _ read_body (Parses-read_exact 7 (header route_id) refl) (
        Parses-require bad_magic _ (beq_refl stream_magic) (
          Parses-require (bad_version stream_version) _ refl (
            Parses-bind _ (read_peer (from_be16 (be16 route_id)))
              (Parses-read_exact 1 (addr_kind peer ∷ []) refl)
              (Parses-bind _ (read_rest (from_be16 (be16 route_id))) (Parses-read_addr peer hp)
                (Parses-read_rest _ (ip_of peer) (port_of peer) replay hq hl))))))

port_of-lt : (peer : Option SocketAddr) → IsPeer peer → port_of peer < 65536
port_of-lt none h = omega arith
port_of-lt (some a) h = h.1

-- Any preamble the node writes is read back as the route id and the peer it was made from, with the
-- replay cut to 65535 bytes; the bytes behind it are left alone, and a stream that ends anywhere
-- inside the preamble gives the end's error.
pub read_preamble-encode_preamble :
    (route_id : ℕ) (peer : Option SocketAddr) (replay : Bytes)
    → route_id < 65536
    → IsPeer peer
    → Parses read_preamble
        (encode_preamble route_id peer replay)
        (route_id, peer, take max_replay replay)
unfolding encode_preamble
read_preamble-encode_preamble route_id peer replay hr hp =
    let rl = min (length replay) max_replay in
    let rep = take rl replay in
    let len : length rep ≡ rl = omega (arith, length-take rl replay) in
    subst (λ xs. Parses read_preamble xs (route_id, peer, take max_replay replay))
      (λ i.
        header route_id
        ++ (encode_addr-split peer i ++ (be16 (port_of peer) ++ (be16 (len i) ++ rep))))
      (subst (λ xs. Parses read_preamble (by_parts route_id peer rep) (route_id, peer, xs))
        (take-min max_replay replay)
        (Parses-read_preamble route_id peer rep hr hp (port_of-lt peer hp) (omega arith)))
