-- ===== src/Address/Ports.antt =====
-- Ports in network order, and what makes two ends the same.
use starry.Common.{
  same_bytes_iff, ℕ, ◌^◌, ◌<◌, ◌≡◌, ◌⊎◌, ◌↔◌, inl, inr, Bool, true, false, List, [], ◌∷◌, some,
  ◌==◌, if◌then◌else◌, ok, arith,
}
use starry.Address.{
  InetAddress, af_inet, af_inet6, htobe16, of_port, port, is_self_connect, get_addr,
}

-- Twice swapped is as before, and two bytes stay two bytes.
pub htobe16_twice : (x : ℕ) → x < 2 ^ 16 → (htobe16 (htobe16 x) ≡ x) × (htobe16 x < 2 ^ 16)
unfolding htobe16
htobe16_twice x h = omega arith

-- The port of an address made from a port is that port, whatever the memory held before.
pub port-of_port :
    (before : InetAddress) (p : ℕ) (loopback_only ipv6 : Bool)
    → p < 2 ^ 16
    → port (of_port before p loopback_only ipv6) ≡ p
unfolding port of_port
port-of_port before p loopback_only true h = (htobe16_twice p h).0
port-of_port before p loopback_only false h = (htobe16_twice p h).0

-- The family, the port and the address proper: the sockaddr_in's, or the sockaddr_in6's.
abbrev pub endpoint : InetAddress → ℕ × ℕ × List ℕ
endpoint a = (a.family, a.port, if a.family == af_inet then a.sin_addr ∷ [] else a.sin6_addr)

ok_iff : (b : Bool) → (ok b ≡ ok true) ↔ (b ≡ true)
ok_iff b = (λ h. cc, λ h. cc)

-- For two ends of the same family, IPv4 or IPv6, `isSelfConnect` finds out exactly whether their
-- ports and their addresses agree.
pub is_self_connect_iff :
    (sockname peername : InetAddress)
    → sockname.family ≡ peername.family
    → (sockname.family ≡ af_inet) ⊎ (sockname.family ≡ af_inet6)
    → (is_self_connect (some sockname) (some peername) ≡ ok true)
      ↔ (endpoint sockname ≡ endpoint peername)
unfolding is_self_connect get_addr
is_self_connect_iff a b same (inl v4) = (λ h. ground (arith, (ok_iff _).0 h), λ h. ground arith)
is_self_connect_iff a b same (inr v6) = (
  λ h. ground (arith, same_bytes_iff a.sin6_addr b.sin6_addr),
  λ h. ground (arith, same_bytes_iff a.sin6_addr b.sin6_addr),
)
