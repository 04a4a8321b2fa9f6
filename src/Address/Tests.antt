-- ===== src/Address/Tests.antt =====
-- A library of texts that satisfies the laws, and addresses.
use starry.Common.{
  ℕ, ◌+◌, ◌-◌, ◌<◌, ◌≡◌, refl, true, false, List, [], ◌∷◌, Option, none, some, length, replicate,
  ltb, lt→ltb, if◌then◌else◌, arith,
}
use starry.Address.{
  TextLibrary, af_inet, af_inet6, has_colon, htobe16, of_port, of_text, port, inaddr_loopback,
  zero_addr6,
}
use starry.Address.Texts.{Made, of_text-to_ip_port}

-- The text of a number is one byte behind all ASCII characters; that of a list has a colon in front.
abbrev fits : ℕ → List ℕ → Option (List ℕ)
fits size t = if ltb (length t) size then some t else none

abbrev tail_of : List ℕ → Option (List ℕ)
tail_of [] = none
tail_of (c ∷ t) = some t

abbrev head_of : List ℕ → Option ℕ
head_of [] = none
head_of (c ∷ t) = some (c - 128)

fits_lem : (size : ℕ) (t : List ℕ) → length t < size → fits size t ≡ some t
fits_lem size t h = rw (lt→ltb (length t) size h) refl

colon4_lem : (a : ℕ) → has_colon ((a + 128) ∷ []) ≡ false
colon4_lem a = ground arith

number_back : (a : ℕ) → head_of ((a + 128) ∷ []) ≡ some (a + 128 - 128)
number_back a = refl

same_number : (a : ℕ) → head_of ((a + 128) ∷ []) ≡ some a
same_number a = ground arith

abbrev texts : TextLibrary
texts = record {
  ntop4 = λ size a. fits size ((a + 128) ∷ []);
  ntop6 = λ size a. fits size (b':' ∷ a);
  pton4 = head_of;
  pton6 = tail_of;
  decimal = λ n. n ∷ [];
  text4 = λ a. (a + 128) ∷ [];
  text6 = λ a. b':' ∷ a;
  ntop4-text = λ size a. fits_lem size ((a + 128) ∷ []);
  ntop6-text = λ size a. fits_lem size (b':' ∷ a);
  text4-short = λ a h. omega arith;
  text6-short = λ a h. omega arith;
  pton4-text = λ a h. same_number a;
  pton6-text = λ a h. refl;
  colon4 = λ a h. colon4_lem a;
  colon6 = λ a h. refl;
  decimal-short = λ n h. omega arith;
}

loopback_port : port (of_port zero_addr6 80 true false) ≡ 80
unfolding port of_port htobe16
loopback_port = refl

-- 127.0.0.1 as the machine reads it from the network.
loopback_addr : (of_port zero_addr6 80 true false).sin_addr ≡ 0x0100007f
unfolding of_port
loopback_addr = refl

of_text-to_ip_port_example :
    Made texts af_inet
      ((inaddr_loopback + 128) ∷ [])
      2000
      (of_text texts zero_addr6 ((inaddr_loopback + 128) ∷ []) 2000 false)
    × Made texts af_inet6
        (b':' ∷ replicate 16 7)
        2000
        (of_text texts zero_addr6 (b':' ∷ replicate 16 7) 2000 false)
of_text-to_ip_port_example =
    of_text-to_ip_port texts zero_addr6 inaddr_loopback (replicate 16 7) 2000 false refl
      (omega arith) refl (omega arith)
