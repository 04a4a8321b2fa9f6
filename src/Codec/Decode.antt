-- ===== src/Codec/Decode.antt =====
-- The loop of `onMessage` against the wire format.
pub mod Stream
pub mod Loop
use starry.Common.{
  same_bytes, ℕ, zero, suc, ◌+◌, ◌-◌, ◌*◌, ◌%◌, ◌^◌, ◌≤◌, ◌<◌, ◌≡◌, ◌≢◌, refl, ap, sym, subst, ◌∙◌,
  ◌⊎◌, inl, inr, Bool, true, false, List, [], ◌∷◌, ◌++◌, map, Option, none, some, length, take,
  drop, ltb, leb, ◌==◌, ==_iff, if◌then◌else◌, Bool-cases, le→leb, leb→le, length-take, length-drop,
  take-take, drop-drop, take-append_le, take-le, take-append_ge, drop-append_ge, drop-append_le,
  arith, max_size, size_mod, Outcome, ok, ◌>>=◌, add_size, sub_size,
}
use starry.Buffer.{Buffer, readable_bytes, read_at, retrieve}
use starry.Buffer.Numbers.{to_be, from_be, peek_int32}
use starry.Buffer.Contents.{Inv, contents, length-contents, readable-length, drop-take}
use starry.Buffer.Space.{read_at-ok}
use starry.Buffer.Retrieve.{retrieve_lem}
use starry.Buffer.Numbers.Laws.{length-to_be, from_be-to_be, peek_int_lem}
use starry.Codec.Protobuf.{Library}
use starry.Codec.{
  header_len, checksum_len, max_message_len, lt_int, is_invalid_length, min_message_len, ErrorCode,
  invalid_length, check_sum_error, unknown_message_type, parse_error, Parsed, message, rejected,
  Event, delivered, reported, Turn, stop, report, deliver, as_int32, validate_checksum, parse_body,
  parse_tagged, parse, take_message, turn,
}
use starry.Codec.Frames.{Next, wait, bad, ready, parsed_next, check_frame, next}

module _ (l : Library) (tag : List ℕ) where
  open l use {Message, adler32, parse_from_array}

  validate_checksum_lem :
      (f : List ℕ)
      → checksum_len ≤ length f
      → length f ≤ max_size
      → validate_checksum l tag f
        ≡ ok (
            adler32 (take (length f - checksum_len) f)
            == from_be (take 4 (drop (length f - checksum_len) f)))
  unfolding validate_checksum as_int32
  validate_checksum_lem f lo hi =
      let d : sub_size (length f) checksum_len ≡ length f - checksum_len = omega arith in
      rw
        (
          d,
          read_at-ok f (length f - checksum_len) 4 (omega arith),
          read_at-ok f 0 (length f - checksum_len) (omega arith),
        )
        refl

  -- `parse` never reads outside a frame of a valid length, and checks what the format says.
  pub parse_lem :
      (f : List ℕ)
      → min_message_len l tag ≤ length f
      → length f ≤ max_size
      → parse l tag f ≡ ok (check_frame l tag f)
  unfolding parse parse_tagged parse_body check_frame
  parse_lem f lo hi =
      let d : sub_size (sub_size (length f) checksum_len) (length tag)
          ≡ length f - checksum_len - length tag =
        omega arith in
      rw
        (
          validate_checksum_lem f (omega arith) hi,
          read_at-ok f 0 (length tag) (omega arith),
          d,
          read_at-ok f (length tag) (length f - checksum_len - length tag) (omega arith),
        )
        (ground arith)

  -- A turn of the loop does what the front of the stream asks for.
  abbrev pub Agrees : Next Message → Outcome (Turn Message) → Type 0
  Agrees wait t = t ≡ ok stop
  Agrees (bad code) t = t ≡ ok (report code)
  Agrees (ready m rest) t = (b' : Buffer) × (t ≡ ok (deliver m b')) × Inv b' × (contents b' ≡ rest)

  take_message-Agrees :
      (b : Buffer) (n : ℕ) (p : Parsed Message)
      → Inv b
      → header_len + n ≤ length (contents b)
      → Agrees (parsed_next p (drop (header_len + n) (contents b))) (take_message l tag b n p)
  unfolding take_message
  take_message-Agrees b n (rejected code) v h = refl
  take_message-Agrees b n (message m) v h =
      let (b', e, v', c) = retrieve_lem b (header_len + n) v h in (b', rw e refl, v', c)

  min_le_valid :
      (n : ℕ)
      → is_invalid_length l tag n ≡ false
      → length tag ≤ max_message_len
      → min_message_len l tag ≤ n
  min_le_valid n h small = ground arith

  frame_view :
      (b : Buffer) (n : ℕ)
      → Inv b
      → header_len + n ≤ length (contents b)
      → take n (drop (b.reader_index + header_len) b.bytes) ≡ take n (drop header_len (contents b))
  frame_view b n v h =
      let q : ℕ = b.writer_index - b.reader_index in
      let lc = length-contents b v in
      sym (
        ap (take n) (drop-take header_len q (drop b.reader_index b.bytes) (omega arith))
        ∙ take-take n (q - header_len) (drop header_len (drop b.reader_index b.bytes)) (omega arith)
        ∙ ap (take n) (drop-drop header_len b.reader_index b.bytes))

  whole_frame :
      (b : Buffer) (n : ℕ)
      → Inv b
      → min_message_len l tag ≤ n
      → header_len + n ≤ length (contents b)
      → Agrees
          (parsed_next
            (check_frame l tag (take n (drop header_len (contents b))))
            (drop (header_len + n) (contents b)))
          (read_at b.bytes (add_size b.reader_index header_len) n >>= λ frame.
            parse l tag frame >>= λ parsed. take_message l tag b n parsed)
  whole_frame b n v lo h =
      let f : List ℕ = take n (drop header_len (contents b)) in
      let lc = length-contents b v in
      let start : add_size b.reader_index header_len ≡ b.reader_index + header_len = omega arith in
      let lf : length f ≡ n = omega (
        arith,
        length-take n (drop header_len (contents b)),
        length-drop header_len (contents b),
      ) in
      rw
        (
          start,
          read_at-ok b.bytes (b.reader_index + header_len) n (omega arith),
          frame_view b n v h,
          parse_lem f (omega arith) (omega arith),
        )
        (take_message-Agrees b n (check_frame l tag f) v h)

  -- One round of the loop of `onMessage` on a valid buffer does what the front of its readable
  -- bytes asks for: it stops, reports that error, or takes that message and its frame out.
  pub turn-Agrees :
      (b : Buffer)
      → Inv b
      → length tag ≤ max_message_len
      → Agrees (next l tag (contents b)) (turn l tag b)
  unfolding next turn
  turn-Agrees b v small =
      rw (readable-length b v) (elim (Bool-cases (leb (min_message_len l tag + header_len) q)) [
        | inr short ↦ rw short refl
        | inl long ↦
            rw
              (
                long,
                peek_int_lem 4 b v
                    (omega (arith, leb→le (min_message_len l tag + header_len) q long)),
              )
              (elim (Bool-cases (is_invalid_length l tag n)) [
                | inl invalid ↦ rw invalid refl
                | inr valid ↦ rw valid (elim (Bool-cases (leb (header_len + n) q)) [
                  | inr partial ↦ rw partial refl
                  | inl whole ↦ rw whole (
                      whole_frame b n v (min_le_valid n valid small)
                        (leb→le (header_len + n) q whole))
                ])
              ])
      ])
    where
      q : ℕ
      q = length (contents b)

      n : ℕ
      n = from_be (take 4 (contents b))
