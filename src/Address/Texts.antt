-- ===== src/Address/Texts.antt =====
-- Addresses as texts: no buffer is too small, nothing is cut, and what is printed reads back.
use starry.Common.{
  ℕ, ◌+◌, ◌-◌, ◌^◌, ◌≤◌, ◌<◌, ◌≡◌, ◌⊎◌, refl, ap, ◌∙◌, inl, inr, Bool, true, false, List, [], ◌∷◌,
  ◌++◌, length, take-le, ◌==◌, lt→ltb, if◌then◌else◌, Outcome, ok, length-append, arith, replicate,
  drop, length-drop,
}
use starry.Address.{
  InetAddress, TextLibrary, af_inet, af_inet6, htobe16, sockets_to_ip, sockets_to_ip_port, to_ip,
  to_ip_port, from_ip_port4, from_ip_port6, of_text, port, zero_addr, zero_addr6, snprintf,
}
use starry.Address.Ports.{htobe16_twice}

-- An address whose fields fit their widths.
pub record IsAddress (a : InetAddress) : Type 0 where
  pub port_width : a.port < 2 ^ 16
  pub addr_width : a.sin_addr < 2 ^ 32
  pub addr6_width : length a.sin6_addr ≡ 16

-- `ip:port` for IPv4 and `[ip]:port` for IPv6.
abbrev pub ip_port : ℕ → List ℕ → List ℕ → List ℕ
ip_port family ip port_text =
    if family == af_inet6 then b'[' ∷ ip ++ (b']' ∷ b':' ∷ port_text) else ip ++ (b':' ∷ port_text)

module _ (l : TextLibrary) where
  open l use {
    pton4, pton6, decimal, text4, text6, ntop4-text, ntop6-text, text4-short, text6-short,
    pton4-text, pton6-text, colon4, colon6, decimal-short,
  }

  -- The address of an address as a text.
  abbrev pub ip_text : InetAddress → List ℕ
  ip_text a = if a.family == af_inet6 then text6 a.sin6_addr else text4 a.sin_addr

  port_text-uncut :
      (before : List ℕ) (p n : ℕ)
      → p < 2 ^ 16
      → length before ≤ 2
      → 8 ≤ n
      → snprintf n (before ++ decimal (htobe16 p)) ≡ before ++ decimal (htobe16 p)
  port_text-uncut before p n h k j = take-le (n - 1) (before ++ decimal (htobe16 p)) (
      omega (
        arith,
        length-append before (decimal (htobe16 p)),
        decimal-short (htobe16 p) (htobe16_twice p h).1,
      ))

  -- For an address of a known family `toIp` and `toIpPort` never fail at an assertion, and neither
  -- text is cut: the second is the first and the port in decimals, `ip:port` or `[ip]:port`.
  pub to_ip_port_lem :
      (a : InetAddress)
      → IsAddress a
      → (a.family ≡ af_inet) ⊎ (a.family ≡ af_inet6)
      → (to_ip l a ≡ ok (ip_text a))
        × (to_ip_port l a ≡ ok (ip_port a.family (ip_text a) (decimal (port a))))
  unfolding to_ip to_ip_port sockets_to_ip_port sockets_to_ip port
  to_ip_port_lem a v (inl v4) =
      let t : List ℕ = text4 a.sin_addr in
      let short = text4-short a.sin_addr v.addr_width in
      (
        rw (v4, ntop4-text 64 a.sin_addr (omega arith)) refl,
        rw (v4, ntop4-text 64 a.sin_addr (omega arith), lt→ltb (length t) 64 (omega arith))
            (ap (λ s. ok (t ++ s))
              (port_text-uncut (b':' ∷ []) a.port (64 - length t) v.port_width (omega arith)
                (omega arith))),
      )
  to_ip_port_lem a v (inr v6) =
      let t : List ℕ = text6 a.sin6_addr in
      let short = text6-short a.sin6_addr v.addr6_width in
      (
        rw (v6, ntop6-text 64 a.sin6_addr (omega arith)) refl,
        rw (v6, ntop6-text 63 a.sin6_addr (omega arith), lt→ltb (1 + length t) 64 (omega arith))
            (ap (λ s. ok (b'[' ∷ t ++ s))
              (port_text-uncut (b']' ∷ b':' ∷ []) a.port (64 - (1 + length t)) v.port_width
                (omega arith) (omega arith))),
      )

  -- What an address is that was made from a text and a port.
  pub record Made (family : ℕ) (ip : List ℕ) (p : ℕ) (r : Outcome InetAddress) : Type 0 where
    pub address : InetAddress
    pub made : r ≡ ok address
    pub widths : IsAddress address
    pub same_port : port address ≡ p
    pub printed_ip : to_ip l address ≡ ok ip
    pub printed : to_ip_port l address ≡ ok (ip_port family ip (decimal p))

  Made-port :
      (b : InetAddress) (p : ℕ) (r : Outcome InetAddress)
      → r ≡ ok b
      → IsAddress b
      → (b.family ≡ af_inet) ⊎ (b.family ≡ af_inet6)
      → port b ≡ p
      → Made b.family (ip_text b) p r
  Made-port b p r e v f q =
      let (x, y) = to_ip_port_lem b v f in
      record {
        address = b;
        made = e;
        widths = v;
        same_port = q;
        printed_ip = x;
        printed = y ∙ ap (λ n. ok (ip_port b.family (ip_text b) (decimal n))) q;
      }

  of_text-made4 :
      (before : InetAddress) (a p : ℕ)
      → length before.sin6_addr ≡ 16
      → a < 2 ^ 32
      → p < 2 ^ 16
      → Made af_inet (text4 a) p (of_text l before (text4 a) p false)
  unfolding of_text from_ip_port4 port
  of_text-made4 before a p w h k =
      Made-port (record (zero_addr before) { family = af_inet; port = htobe16 p; sin_addr = a }) p
        (of_text l before (text4 a) p false) (rw (colon4 a h, from_ip_port4, pton4-text a h) refl)
        (record {
          port_width = (htobe16_twice p k).1;
          addr_width = h;
          addr6_width = omega (
            arith,
            length-append (replicate 8 0) (drop 8 before.sin6_addr),
            length-drop 8 before.sin6_addr,
          );
        })
        (inl refl) (htobe16_twice p k).0

  of_text-made6 :
      (before : InetAddress) (a : List ℕ) (p : ℕ) (ipv6 : Bool)
      → length a ≡ 16
      → p < 2 ^ 16
      → Made af_inet6 (text6 a) p (of_text l before (text6 a) p ipv6)
  unfolding of_text from_ip_port6 port
  of_text-made6 before a p ipv6 h k =
      Made-port (record zero_addr6 { family = af_inet6; port = htobe16 p; sin6_addr = a }) p
        (of_text l before (text6 a) p ipv6) (chosen ipv6)
        (record { port_width = (htobe16_twice p k).1; addr_width = omega arith; addr6_width = h })
        (inr refl) (htobe16_twice p k).0
    where
      chosen :
          (b : Bool)
          → of_text l before (text6 a) p b
            ≡ ok (record zero_addr6 { family = af_inet6; port = htobe16 p; sin6_addr = a })
      chosen true = rw (from_ip_port6, pton6-text a h) refl
      chosen false = rw (colon6 a h, from_ip_port6, pton6-text a h) refl

  -- The text of an IPv4 address, and the text of an IPv6 address with or without the flag `ipv6`,
  -- together with a port of 16 bits, make an address that prints as the same text and the same
  -- port, and whose `port` is that port.
  pub of_text-to_ip_port :
      (before : InetAddress) (a : ℕ) (a6 : List ℕ) (p : ℕ) (ipv6 : Bool)
      → length before.sin6_addr ≡ 16
      → a < 2 ^ 32
      → length a6 ≡ 16
      → p < 2 ^ 16
      → Made af_inet (text4 a) p (of_text l before (text4 a) p false)
        × Made af_inet6 (text6 a6) p (of_text l before (text6 a6) p ipv6)
  of_text-to_ip_port before a a6 p ipv6 w h h6 k =
      (of_text-made4 before a p w h k, of_text-made6 before a6 p ipv6 h6 k)
