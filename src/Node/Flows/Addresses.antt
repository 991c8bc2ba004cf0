-- ===== src/Node/Flows/Addresses.antt =====
-- `SocketAddr` as a key: equality of the address, its family included, and of the port.
use natforge_thesis.Prelude.{◌≡◌, ◌↔◌, Bool, true, false, ◌&&◌, Eq, beq, beq_iff, ◌==◌, arith}
use natforge_thesis.Proto.Preamble.{IpAddr, ipv4, ipv6, SocketAddr}

unfoldable pub same_ip : IpAddr → IpAddr → Bool
same_ip (ipv4 a) (ipv4 b) = beq a b
same_ip (ipv6 a) (ipv6 b) = beq a b
same_ip _ _ = false

same_ip_iff : (a b : IpAddr) → (same_ip a b ≡ true) ↔ (a ≡ b)
unfolding same_ip
same_ip_iff (ipv4 a) (ipv4 b) = ground (arith, beq_iff a b)
same_ip_iff (ipv6 a) (ipv6 b) = ground (arith, beq_iff a b)
same_ip_iff (ipv4 a) (ipv6 b) = ground arith
same_ip_iff (ipv6 a) (ipv4 b) = ground arith

abbrev pub same_addr : SocketAddr → SocketAddr → Bool
same_addr a b = same_ip a.ip b.ip && a.port == b.port

pub same_addr_iff : (a b : SocketAddr) → (same_addr a b ≡ true) ↔ (a ≡ b)
same_addr_iff a b = ground (arith, same_ip_iff a.ip b.ip)

instance abbrev pub addr_eq : Eq SocketAddr
addr_eq = record { same = same_addr; same_iff = same_addr_iff }
