-- ===== src/Codec.antt =====
-- starry/net/rpc/protobuf_codec_lite.{h,cpp}: messages in length-prefixed, checksummed frames.
-- An int32_t is its bit pattern. The callbacks of `onMessage` are the events that it returns; they
-- leave the buffer alone, as the default error callback and every message callback do.
pub mod Protobuf
pub mod Frames
pub mod Encode
pub mod Sending
mod Tests
pub mod Decode
use Protobuf.{Library}
use starry.Common.{
  same_bytes, ℕ, zero, suc, ◌+◌, ◌-◌, ◌*◌, ◌%◌, ◌^◌, Bool, true, false, not, ◌&&◌, ◌||◌, List, [],
  ◌∷◌, ◌++◌, Option, none, some, length, take, drop, ltb, leb, ◌==◌, if◌then◌else◌, Outcome, ok,
  err, ◌>>=◌, ◌>>◌, assert, add_size, sub_size, size_mod,
}
use starry.Buffer.{
  Buffer, initial_size, init, readable_bytes, read_at, append, retrieve, ensure_writable_bytes,
  write_ahead, has_written,
}
use starry.Buffer.Numbers.{from_be, append_int32, prepend_int32, peek_int32}

abbrev pub header_len : ℕ
header_len = 4

abbrev pub checksum_len : ℕ
checksum_len = 4

abbrev pub max_message_len : ℕ
max_message_len = 64 * 1024 * 1024

-- `int` values are compared as signed numbers, and converted to size_t by sign extension.
abbrev pub lt_int : ℕ → ℕ → Bool
lt_int a b = ltb ((a + 2 ^ 31) % 2 ^ 32) ((b + 2 ^ 31) % 2 ^ 32)

abbrev pub int_to_size : ℕ → ℕ
int_to_size x = if ltb (x % 2 ^ 32) (2 ^ 31) then x % 2 ^ 32 else x % 2 ^ 32 + (2 ^ 64 - 2 ^ 32)

abbrev pub minus_one : ℕ
minus_one = 2 ^ 32 - 1

pub data ErrorCode : Type 0 where
  no_error invalid_length check_sum_error invalid_name_len unknown_message_type parse_error :
      ErrorCode

-- The last four bytes of a block, as `asInt32` reads them.
unfoldable pub as_int32 : List ℕ → ℕ → Outcome ℕ
as_int32 bytes i = do four ← read_at bytes i 4; ok (from_be four)

-- `parse` returns an error code, and with `no_error` the message.
pub data Parsed (M : Type 0) : Type 0 where
  message : M → Parsed M
  rejected : ErrorCode → Parsed M

-- The callbacks that are called.
pub data Event (M : Type 0) : Type 0 where
  delivered : M → Event M
  reported : ErrorCode → Event M

-- How one round of the loop of `onMessage` ends: in a `break`, or with a message taken out.
pub data Turn (M : Type 0) : Type 0 where
  stop : Turn M
  report : ErrorCode → Turn M
  deliver : M → Buffer → Turn M

module _ (l : Library) (tag : List ℕ) where
  open l use {Message, is_initialized, byte_size, serialize, parse_from_array, adler32}

  abbrev pub min_message_len : ℕ
  min_message_len = length tag + checksum_len

  -- The result is an `int`: the size, or -1.
  unfoldable pub serialize_to_buffer : Message → Buffer → Outcome (ℕ × Buffer)
  serialize_to_buffer m buf = if not (is_initialized m) then ok (minus_one, buf) else (do
    buf' ← ensure_writable_bytes buf (byte_size m)
    buf'' ← write_ahead buf' (serialize m)
    if length (serialize m) == byte_size m % 256
        then (has_written buf'' (byte_size m) >>= λ done. ok (byte_size m % 2 ^ 32, done))
        else ok (minus_one, buf''))

  -- The part of `fillEmptyBuffer` behind the serialization.
  unfoldable pub seal : Buffer → ℕ → Outcome Buffer
  seal filled size = do
    text ← read_at filled.bytes filled.reader_index (readable_bytes filled)
    summed ← append_int32 filled (adler32 text)
    assert
        (readable_bytes summed == add_size (add_size (length tag) (int_to_size size)) checksum_len)
    prepend_int32 summed (readable_bytes summed % 2 ^ 32)

  unfoldable pub fill_empty_buffer : Buffer → Message → Outcome Buffer
  fill_empty_buffer buf m = do
    assert (readable_bytes buf == 0)
    tagged ← append buf tag
    (size, filled) ← serialize_to_buffer m tagged
    seal filled size

  -- `send` hands these bytes to `TcpConnection::send`.
  unfoldable pub frame_to_send : Message → Outcome Buffer
  frame_to_send m = fill_empty_buffer (init initial_size) m

  unfoldable pub validate_checksum : List ℕ → Outcome Bool
  validate_checksum buf = do
    expected ← as_int32 buf (sub_size (length buf) checksum_len)
    summed ← read_at buf 0 (sub_size (length buf) checksum_len)
    ok (adler32 summed == expected)

  parse_body : List ℕ → Outcome (Parsed Message)
  parse_body buf = do
    payload ← read_at buf (length tag) (sub_size (sub_size (length buf) checksum_len) (length tag))
    ok (elim (parse_from_array payload) [ some m ↦ message m | none ↦ rejected parse_error ])

  parse_tagged : List ℕ → Outcome (Parsed Message)
  unfolding parse_body
  parse_tagged buf = do
    start ← read_at buf 0 (length tag)
    if same_bytes start tag then parse_body buf else ok (rejected unknown_message_type)

  unfoldable pub parse : List ℕ → Outcome (Parsed Message)
  unfolding parse_tagged
  parse buf = do
    valid ← validate_checksum buf
    if valid then parse_tagged buf else ok (rejected check_sum_error)

  abbrev pub is_invalid_length : ℕ → Bool
  is_invalid_length len = lt_int max_message_len len || lt_int len min_message_len

  take_message : Buffer → ℕ → Parsed Message → Outcome (Turn Message)
  take_message b len (rejected code) = ok (report code)
  take_message b len (message m) = do b' ← retrieve b (header_len + len); ok (deliver m b')

  -- The body of the loop, with its condition.
  unfoldable pub turn : Buffer → Outcome (Turn Message)
  unfolding take_message
  turn b =
      if leb (min_message_len + header_len) (readable_bytes b)
      then (do
        len ← peek_int32 b
        if is_invalid_length len
            then ok (report invalid_length)
            else if leb (header_len + len) (readable_bytes b)
            then (do
              frame ← read_at b.bytes (add_size b.reader_index header_len) len
              parsed ← parse frame
              take_message b len parsed)
            else ok stop)
      else ok stop

  -- `none` means that the fuel ran out.
  unfoldable pub on_message : ℕ → Buffer → Outcome (Option (List (Event Message) × Buffer))
  on_message zero b = ok none
  on_message (suc fuel) b = turn b >>= λ t. elim t [
    | stop ↦ ok (some ([], b))
    | report code ↦ ok (some (reported code ∷ [], b))
    | deliver m b' ↦ on_message fuel b' >>= λ r. elim r [
      | none ↦ ok none
      | some (events, b'') ↦ ok (some (delivered m ∷ events, b''))
    ]
  ]
