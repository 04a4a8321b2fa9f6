-- ===== src/Address.antt =====
-- starry/net/include/inet_address.h, starry/net/src/inet_address.cpp, and the addresses of
-- starry/net/src/sockets_ops.cpp, on a little-endian machine. Texts are lists of bytes without the
-- NUL behind them. The C library's inet_ntop, inet_pton and `%u` are parameters.
pub mod Ports
pub mod Texts
mod Tests
use starry.Common.{
  ℕ, ◌+◌, ◌-◌, ◌*◌, ◌/◌, ◌%◌, ◌^◌, ◌≤◌, ◌<◌, ◌≡◌, Bool, true, false, ◌&&◌, ◌||◌, List, [], ◌∷◌,
  ◌++◌, Option, none, some, length, take, drop, replicate, ltb, leb, ◌==◌, same_bytes,
  if◌then◌else◌, Outcome, ok, err, fatal, ◌>>=◌, ◌>>◌, assert,
}

-- <sys/socket.h> and <netinet/in.h>
abbrev pub af_inet : ℕ
af_inet = 2

abbrev pub af_inet6 : ℕ
af_inet6 = 10

abbrev pub inet_addrstrlen : ℕ
inet_addrstrlen = 16

abbrev pub inet6_addrstrlen : ℕ
inet6_addrstrlen = 46

-- The union of a sockaddr_in and a sockaddr_in6. `sin_family` and `sin_port` lie where `sin6_family`
-- and `sin6_port` do, and `sin_addr` where `sin6_flowinfo` does; `sin_zero` is the first half of
-- `sin6_addr`. A number is what the machine reads from the bytes.
pub record InetAddress : Type 0 where
  pub family : ℕ
  pub port : ℕ
  pub sin_addr : ℕ
  pub sin6_addr : List ℕ
  pub scope_id : ℕ

-- htobe16 and be16toh, htobe32
unfoldable pub htobe16 : ℕ → ℕ
htobe16 x = x % 256 * 256 + x / 256

unfoldable pub htobe32 : ℕ → ℕ
unfolding htobe16
htobe32 x = htobe16 (x % 2 ^ 16) * 2 ^ 16 + htobe16 (x / 2 ^ 16)

-- `memset` of the whole union, and of a sockaddr_in, 16 bytes.
abbrev pub zero_addr6 : InetAddress
zero_addr6 = record { family = 0; port = 0; sin_addr = 0; sin6_addr = replicate 16 0; scope_id = 0 }

abbrev pub zero_addr : InetAddress → InetAddress
zero_addr before = record before {
  family = 0;
  port = 0;
  sin_addr = 0;
  sin6_addr = replicate 8 0 ++ drop 8 before.sin6_addr;
}

-- INADDR_LOOPBACK, in6addr_loopback
abbrev pub inaddr_loopback : ℕ
inaddr_loopback = 0x7f000001

abbrev pub in6addr_loopback : List ℕ
in6addr_loopback = replicate 15 0 ++ (1 ∷ [])

-- The constructor from a port. `before` is what the memory holds before.
unfoldable pub of_port : InetAddress → ℕ → Bool → Bool → InetAddress
unfolding htobe16 htobe32
of_port before port_arg loopback_only ipv6 =
    if ipv6
    then record zero_addr6 {
      family = af_inet6;
      sin6_addr = if loopback_only then in6addr_loopback else replicate 16 0;
      port = htobe16 port_arg;
    }
    else record (zero_addr before) {
      family = af_inet;
      sin_addr = htobe32 (if loopback_only then inaddr_loopback else 0);
      port = htobe16 port_arg;
    }

unfoldable pub port : InetAddress → ℕ
unfolding htobe16
port a = htobe16 a.port

unfoldable pub ipv4_net_endian : InetAddress → Outcome ℕ
ipv4_net_endian a = assert (a.family == af_inet) >> ok a.sin_addr

unfoldable pub set_scope_id : InetAddress → ℕ → InetAddress
set_scope_id a id = if a.family == af_inet6 then record a { scope_id = id } else a

-- What gethostbyname_r gives: a host with its address type, its length and its first address, no
-- host, or an error.
pub data Resolved : Type 0 where
  host : ℕ → ℕ → ℕ → Resolved
  no_host : Resolved
  resolve_error : Resolved

unfoldable pub resolve : Resolved → InetAddress → Outcome (InetAddress × Bool)
resolve (host addrtype len address) out =
    assert (addrtype == af_inet && len == 4) >> ok (record out { sin_addr = address }, true)
resolve no_host out = ok (out, false)
resolve resolve_error out = err fatal

-- What the code uses of <arpa/inet.h> and of snprintf. The laws are documented: inet_ntop writes the
-- text of an address if it fits into the buffer, with the NUL, and buffers of the two lengths above
-- are large enough; inet_pton reads what inet_ntop writes; an IPv6 address has a colon and an IPv4
-- address none; and a 16-bit number has at most five digits.
abbrev pub has_colon : List ℕ → Bool
has_colon [] = false
has_colon (c ∷ t) = c == b':' || has_colon t

pub record TextLibrary : Type 0 where
  pub ntop4 : ℕ → ℕ → Option (List ℕ)
  pub ntop6 : ℕ → List ℕ → Option (List ℕ)
  pub pton4 : List ℕ → Option ℕ
  pub pton6 : List ℕ → Option (List ℕ)
  pub decimal : ℕ → List ℕ
  pub text4 : ℕ → List ℕ
  pub text6 : List ℕ → List ℕ
  pub ntop4-text : (size a : ℕ) → length (text4 a) < size → ntop4 size a ≡ some (text4 a)
  pub ntop6-text : (size : ℕ) (a : List ℕ) → length (text6 a) < size → ntop6 size a ≡ some (text6 a)
  pub text4-short : (a : ℕ) → a < 2 ^ 32 → length (text4 a) < inet_addrstrlen
  pub text6-short : (a : List ℕ) → length a ≡ 16 → length (text6 a) < inet6_addrstrlen
  pub pton4-text : (a : ℕ) → a < 2 ^ 32 → pton4 (text4 a) ≡ some a
  pub pton6-text : (a : List ℕ) → length a ≡ 16 → pton6 (text6 a) ≡ some a
  pub colon4 : (a : ℕ) → a < 2 ^ 32 → has_colon (text4 a) ≡ false
  pub colon6 : (a : List ℕ) → length a ≡ 16 → has_colon (text6 a) ≡ true
  pub decimal-short : (n : ℕ) → n < 2 ^ 16 → length (decimal n) ≤ 5

-- After a NULL the text stays empty.
abbrev pub or_empty : Option (List ℕ) → List ℕ
or_empty none = []
or_empty (some t) = t

-- `snprintf` into `n` bytes, the NUL included.
abbrev pub snprintf : ℕ → List ℕ → List ℕ
snprintf n text = take (n - 1) text

module _ (l : TextLibrary) where
  open l use {ntop4, ntop6, pton4, pton6, decimal}

  -- `sockets::toIp` into a buffer of `size` bytes
  unfoldable pub sockets_to_ip : ℕ → InetAddress → Outcome (List ℕ)
  sockets_to_ip size a =
      if a.family == af_inet6
      then assert (leb inet6_addrstrlen size) >> ok (or_empty (ntop6 size a.sin6_addr))
      else assert (leb inet_addrstrlen size) >> ok (or_empty (ntop4 size a.sin_addr))

  -- `sockets::toIpPort`
  unfoldable pub sockets_to_ip_port : ℕ → InetAddress → Outcome (List ℕ)
  unfolding htobe16
  sockets_to_ip_port size a =
      if a.family == af_inet6
      then (do
        ip ← sockets_to_ip (size - 1) a
        let end = 1 + length ip
        assert (ltb end size)
        ok (b'[' ∷ ip ++ snprintf (size - end) (b']' ∷ b':' ∷ decimal (htobe16 a.port))))
      else (do
        ip ← sockets_to_ip size a
        assert (ltb (length ip) size)
        ok (ip ++ snprintf (size - length ip) (b':' ∷ decimal (htobe16 a.port))))

  unfoldable pub to_ip : InetAddress → Outcome (List ℕ)
  to_ip a = sockets_to_ip 64 a

  unfoldable pub to_ip_port : InetAddress → Outcome (List ℕ)
  to_ip_port a = sockets_to_ip_port 64 a

  -- `sockets::fromIpPort` on a sockaddr_in and on a sockaddr_in6
  unfoldable pub from_ip_port4 : List ℕ → ℕ → InetAddress → Outcome InetAddress
  unfolding htobe16
  from_ip_port4 ip port_arg a = elim (pton4 ip) [
    | none ↦ err fatal
    | some address ↦ ok (record a { family = af_inet; port = htobe16 port_arg; sin_addr = address })
  ]

  unfoldable pub from_ip_port6 : List ℕ → ℕ → InetAddress → Outcome InetAddress
  unfolding htobe16
  from_ip_port6 ip port_arg a = elim (pton6 ip) [
    | none ↦ err fatal
    | some address ↦
        ok (record a { family = af_inet6; port = htobe16 port_arg; sin6_addr = address })
  ]

  -- The constructor from a text and a port.
  unfoldable pub of_text : InetAddress → List ℕ → ℕ → Bool → Outcome InetAddress
  of_text before ip port_arg ipv6 =
      if ipv6 || has_colon ip
      then from_ip_port6 ip port_arg zero_addr6
      else from_ip_port4 ip port_arg (zero_addr before)

-- getsockname and getpeername, whose failure is a LOG_FATAL.
unfoldable pub get_addr : Option InetAddress → Outcome InetAddress
get_addr none = err fatal
get_addr (some a) = ok a

-- `sockets::isSelfConnect`
unfoldable pub is_self_connect : Option InetAddress → Option InetAddress → Outcome Bool
unfolding get_addr
is_self_connect sockname peername = do
  localaddr ← get_addr sockname
  peeraddr ← get_addr peername
  ok (
      if localaddr.family == af_inet
      then localaddr.port == peeraddr.port && localaddr.sin_addr == peeraddr.sin_addr
      else (if localaddr.family == af_inet6
          then localaddr.port == peeraddr.port && same_bytes localaddr.sin6_addr peeraddr.sin6_addr
          else false))
