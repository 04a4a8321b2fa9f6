-- ===== src/Codec/Tests.antt =====
-- A library whose messages are byte sequences, and the codec on it.
use starry.Common.{
  ℕ, ◌+◌, ◌%◌, ◌^◌, ◌<◌, ◌≡◌, refl, inl, true, List, [], ◌∷◌, ◌++◌, Option, none, some, length,
  replicate, length-replicate, arith, Outcome, ok, err, assertion,
}
use starry.Buffer.{Buffer, append}
use starry.Buffer
use starry.Buffer.Contents.{Inv, contents}
use starry.Buffer.Numbers.{to_be, from_be, peek_int}
use starry.Codec.Protobuf.{Library}
use starry.Codec.Frames.{frame, next}
use starry.Codec.{
  frame_to_send, on_message, turn, parse, validate_checksum, as_int32, Event, delivered,
}
use starry.Codec.Sending.{frame_to_send_lem, frame_to_send-assertion}
use starry.Codec.Decode.{Agrees, turn-Agrees}
use starry.Codec.Decode.Loop.{Read, on_message-Decodes, on_message-frames, on_message-append}

abbrev sum : List ℕ → ℕ
sum [] = 0
sum (x ∷ xs) = x + sum xs

sum-lt : (xs : List ℕ) → sum xs % 2 ^ 32 < 2 ^ 32
sum-lt xs = omega arith

-- Every message is initialized; the checksum is the sum of the bytes.
abbrev plain : Library
plain = record {
  Message = List ℕ;
  is_initialized = λ m. true;
  byte_size = λ m. length m;
  serialize = λ m. m;
  parse_from_array = λ bytes. some bytes;
  adler32 = λ bytes. sum bytes % 2 ^ 32;
  byte_size-serialize = λ m. refl;
  parse_from_array-serialize = λ m h. refl;
  adler32-lt = sum-lt;
}

abbrev rpc : List ℕ
rpc = 82 ∷ 80 ∷ 67 ∷ 48 ∷ []

-- A frame with the payload 1, 2, 3.
abbrev one_frame : List ℕ
one_frame = 0 ∷ 0 ∷ 0 ∷ 11 ∷ 82 ∷ 80 ∷ 67 ∷ 48 ∷ 1 ∷ 2 ∷ 3 ∷ 0 ∷ 0 ∷ 1 ∷ 27 ∷ []

frame-one : frame plain rpc (1 ∷ 2 ∷ 3 ∷ []) ≡ one_frame
unfolding to_be
frame-one = refl

-- Two frames and the first five bytes of a third.
abbrev stream : List ℕ
stream = one_frame ++ (one_frame ++ (0 ∷ 0 ∷ 0 ∷ 11 ∷ 82 ∷ []))

abbrev incoming : Buffer
incoming = record {
  bytes = 0 ∷ 0 ∷ 0 ∷ 0 ∷ 0 ∷ 0 ∷ 0 ∷ 0 ∷ stream;
  reader_index = 8;
  writer_index = 43;
}

incoming-Inv : Inv incoming
incoming-Inv = record {
  ordered = omega arith;
  inside = omega arith;
  reserved = omega arith;
  small = omega arith;
}

frame_to_send_lem_example :
    (b : Buffer) × (frame_to_send plain rpc (1 ∷ 2 ∷ 3 ∷ []) ≡ ok b)
    × Inv b
    × (contents b ≡ one_frame)
unfolding to_be
frame_to_send_lem_example =
    frame_to_send_lem plain rpc (omega arith) (1 ∷ 2 ∷ 3 ∷ []) refl (omega arith)

large-length : length {A = ℕ} (replicate 300 7) ≡ 300
large-length = length-replicate {A = ℕ} 300 7

frame_to_send-assertion_example : frame_to_send plain rpc (replicate 300 7) ≡ err assertion
frame_to_send-assertion_example =
    frame_to_send-assertion plain rpc (omega arith) (replicate 300 7)
      (inl (refl, omega (arith, large-length), omega (arith, large-length)))

turn-Agrees_example : Agrees plain rpc (next plain rpc stream) (turn plain rpc incoming)
turn-Agrees_example = turn-Agrees plain rpc incoming incoming-Inv (omega arith)

on_message-Decodes_example : Read plain rpc (omega arith) 36 incoming
on_message-Decodes_example =
    on_message-Decodes plain rpc (omega arith) 36 incoming incoming-Inv (omega arith)

on_message-frames_example :
    (b : Buffer) × (on_message plain rpc 36 incoming
      ≡ ok (some (delivered (1 ∷ 2 ∷ 3 ∷ []) ∷ delivered (1 ∷ 2 ∷ 3 ∷ []) ∷ [], b)))
    × Inv b
    × (contents b ≡ 0 ∷ 0 ∷ 0 ∷ 11 ∷ 82 ∷ [])
unfolding to_be next from_be
on_message-frames_example =
    on_message-frames plain rpc (omega arith) 36 incoming ((1 ∷ 2 ∷ 3 ∷ []) ∷ (1 ∷ 2 ∷ 3 ∷ []) ∷ [])
      (0 ∷ 0 ∷ 0 ∷ 11 ∷ 82 ∷ []) incoming-Inv (omega arith) refl
      ((refl, omega arith, (refl, omega arith, record {}))) refl

-- The same stream in two reads: the first ends inside the second frame.
abbrev first : Buffer
first = record {
  bytes = 0 ∷ 0 ∷ 0 ∷ 0 ∷ 0 ∷ 0 ∷ 0 ∷ 0 ∷ (one_frame ++ (0 ∷ 0 ∷ 0 ∷ 11 ∷ 82 ∷ replicate 40 0));
  reader_index = 8;
  writer_index = 28;
}

abbrev second : List ℕ
second = 80 ∷ 67 ∷ 48 ∷ 1 ∷ 2 ∷ 3 ∷ 0 ∷ 0 ∷ 1 ∷ 27 ∷ 0 ∷ 0 ∷ 0 ∷ 11 ∷ 82 ∷ []

first-Inv : Inv first
first-Inv = record {
  ordered = omega arith;
  inside = omega arith;
  reserved = omega arith;
  small = omega arith;
}

abbrev left_by : Outcome (Option (List (Event (List ℕ)) × Buffer)) → Buffer
left_by (ok (some (events, b))) = b
left_by (ok none) = Buffer.init 0
left_by (err f) = Buffer.init 0

abbrev buffer_or : Outcome Buffer → Buffer
buffer_or (ok b) = b
buffer_or (err f) = Buffer.init 0

abbrev after_first : Buffer
after_first = left_by (on_message plain rpc 36 first)

abbrev more : Buffer
more = buffer_or (append after_first second)

abbrev after_second : Buffer
after_second = left_by (on_message plain rpc 36 more)

on_message-append_example :
    (b : Buffer) × (on_message plain rpc 36 incoming
      ≡ ok (some (delivered (1 ∷ 2 ∷ 3 ∷ []) ∷ delivered (1 ∷ 2 ∷ 3 ∷ []) ∷ [], b)))
    × (contents b ≡ contents after_second)
unfolding on_message turn peek_int Buffer.read_at from_be parse validate_checksum as_int32
    Buffer.retrieve append Buffer.ensure_writable_bytes Buffer.write_ahead Buffer.copy_to
    Buffer.has_written
on_message-append_example =
    on_message-append plain rpc (omega arith) 36 first after_first more after_second incoming second
      (delivered (1 ∷ 2 ∷ 3 ∷ []) ∷ []) (delivered (1 ∷ 2 ∷ 3 ∷ []) ∷ []) first-Inv incoming-Inv
      (omega arith) (omega arith) refl refl (record {}) refl refl
