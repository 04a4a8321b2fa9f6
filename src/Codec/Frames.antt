-- ===== src/Codec/Frames.antt =====
-- The wire format as a description of byte sequences, apart from the code that reads it.
use starry.Common.{
  same_bytes, same_bytes_refl, ℕ, ◌+◌, ◌-◌, ◌≤◌, ◌≡◌, refl, ap, ◌∙◌, true, false, List, ◌++◌, none,
  some, length, take, drop, leb, ◌==◌, ==_iff, if◌then◌else◌, append_assoc, length-append,
  take-append_le, take-le, drop-append_ge, arith,
}
use starry.Buffer.Numbers.{to_be, from_be}
use starry.Buffer.Numbers.Laws.{length-to_be, from_be-to_be}
use starry.Codec.Protobuf.{Library}
use starry.Codec.{
  header_len, checksum_len, max_message_len, is_invalid_length, min_message_len, ErrorCode,
  invalid_length, check_sum_error, unknown_message_type, parse_error, Parsed, message, rejected,
}

-- What stands at the front of a stream: less than a frame, something that is no frame, or a frame
-- and the bytes behind it.
pub data Next (M : Type 0) : Type 0 where
  wait : Next M
  bad : ErrorCode → Next M
  ready : M → List ℕ → Next M

abbrev pub parsed_next : {M : Type 0} → Parsed M → List ℕ → Next M
parsed_next (message m) rest = ready m rest
parsed_next (rejected code) rest = bad code

module _ (l : Library) (tag : List ℕ) where
  open l use {
    Message, is_initialized, serialize, parse_from_array, adler32, adler32-lt,
    parse_from_array-serialize,
  }

  -- A frame without its length: tag, payload, checksum of both.
  unfoldable pub check_frame : List ℕ → Parsed Message
  check_frame f =
      let n = length f - checksum_len in
      if adler32 (take n f) == from_be (take 4 (drop n f))
      then if same_bytes (take (length tag) f) tag
        then elim (parse_from_array (take (n - length tag) (drop (length tag) f))) [
          | some m ↦ message m
          | none ↦ rejected parse_error
        ]
        else rejected unknown_message_type
      else rejected check_sum_error

  unfoldable pub next : List ℕ → Next Message
  next s =
      let n = from_be (take 4 s) in
      if leb (min_message_len l tag + header_len) (length s)
      then if is_invalid_length l tag n
        then bad invalid_length
        else if leb (header_len + n) (length s)
        then parsed_next (check_frame (take n (drop 4 s))) (drop (header_len + n) s)
        else wait
      else wait

  -- What the sender writes for a message.
  abbrev pub tagged : Message → List ℕ
  tagged m = tag ++ serialize m

  abbrev pub body : Message → List ℕ
  body m = tagged m ++ to_be 4 (adler32 (tagged m))

  abbrev pub frame : Message → List ℕ
  frame m = to_be 4 (length (body m)) ++ body m

  pub length-body : (m : Message) → length (body m) ≡ length tag + length (serialize m) + 4
  length-body m = omega (
    arith,
    length-append (tagged m) (to_be 4 (adler32 (tagged m))),
    length-append tag (serialize m),
    length-to_be 4 (adler32 (tagged m)),
  )

  -- Reading a frame that a sender wrote gives its message.
  pub check_frame-body : (m : Message) → is_initialized m ≡ true → check_frame (body m) ≡ message m
  unfolding check_frame
  check_frame-body m init =
      let sum : List ℕ = to_be 4 (adler32 (tagged m)) in
      let len : length (body m) - checksum_len ≡ length (tagged m) =
        omega (arith, length-append (tagged m) sum, length-to_be 4 (adler32 (tagged m))) in
      let front : take (length (tagged m)) (body m) ≡ tagged m =
        take-append_le (length (tagged m)) (tagged m) sum (omega arith)
        ∙ take-le (length (tagged m)) (tagged m) (omega arith) in
      let back : take 4 (drop (length (tagged m)) (body m)) ≡ sum =
        ap (take 4) (drop-append_ge (length (tagged m)) 0 (tagged m) sum (omega arith))
        ∙ take-le 4 sum (omega (arith, length-to_be 4 (adler32 (tagged m)))) in
      let start : take (length tag) (body m) ≡ tag =
        ap (take (length tag)) (append_assoc tag (serialize m) sum)
        ∙ take-append_le (length tag) tag (serialize m ++ sum) (omega arith)
        ∙ take-le (length tag) tag (omega arith) in
      let payload : take (length (tagged m) - length tag) (drop (length tag) (body m))
          ≡ serialize m =
        ap (take (length (tagged m) - length tag)) (
          ap (drop (length tag)) (append_assoc tag (serialize m) sum)
          ∙ drop-append_ge (length tag) 0 tag (serialize m ++ sum) (omega arith))
        ∙ take-append_le (length (tagged m) - length tag) (serialize m) sum
            (omega (arith, length-append tag (serialize m)))
        ∙ take-le (length (tagged m) - length tag) (serialize m)
            (omega (arith, length-append tag (serialize m))) in
      rw
        (
          len,
          front,
          back,
          from_be-to_be 4 (adler32 (tagged m)) (adler32-lt (tagged m)),
          (==_iff (adler32 (tagged m)) (adler32 (tagged m))).1 refl,
          start,
          same_bytes_refl tag,
          payload,
          parse_from_array-serialize m init,
        )
        refl

  -- The test on the length, for a length of 32 bits and a tag that fits a frame.
  pub is_invalid_length-false :
      (n : ℕ) → min_message_len l tag ≤ n → n ≤ max_message_len → is_invalid_length l tag n ≡ false
  is_invalid_length-false n lo hi = ground arith
