-- ===== src/Buffer.antt =====
-- starry/net/include/buffer.h: the byte buffer between the sockets and the codecs.
-- The vector is a list of bytes, a pointer into it an index. A method that changes `*this`
-- returns the new buffer; what it would do outside the storage is the fault `undefined`.
pub mod Contents
pub mod Space
pub mod Append
pub mod Outcomes
pub mod Retrieve
pub mod Front
pub mod Numbers
pub mod Socket
pub mod Search
mod Tests
use starry.Common.{
  ℕ, ◌+◌, ◌-◌, ◌≡◌, Bool, true, false, not, ◌&&◌, List, ◌++◌, ltb, leb, ◌==◌, if◌then◌else◌, length,
  take, drop, replicate, Outcome, ok, err, assertion, undefined, too_long, ◌>>=◌, ◌>>◌, check,
  assert, add_size, sub_size, max_size,
}

abbrev pub cheap_prepend : ℕ
cheap_prepend = 8

abbrev pub initial_size : ℕ
initial_size = 1024

pub record Buffer : Type 0 where
  pub bytes : List ℕ
  pub reader_index : ℕ
  pub writer_index : ℕ

unfoldable pub init : ℕ → Buffer
init n = record {
  bytes = replicate (cheap_prepend + n) 0;
  reader_index = cheap_prepend;
  writer_index = cheap_prepend;
}

abbrev pub readable_bytes : Buffer → ℕ
readable_bytes b = sub_size b.writer_index b.reader_index

abbrev pub writable_bytes : Buffer → ℕ
writable_bytes b = sub_size (length b.bytes) b.writer_index

abbrev pub prependable_bytes : Buffer → ℕ
prependable_bytes b = b.reader_index

-- `n` bytes read from index `i` on.
unfoldable pub read_at : List ℕ → ℕ → ℕ → Outcome (List ℕ)
read_at xs i n = if leb (i + n) (length xs) then ok (take n (drop i xs)) else err undefined

-- `std::copy` of a block from elsewhere to index `i`.
unfoldable pub copy_to : List ℕ → ℕ → List ℕ → Outcome (List ℕ)
copy_to xs i ys =
    if leb (i + length ys) (length xs)
    then ok (take i xs ++ (ys ++ drop (i + length ys) xs))
    else err undefined

-- `std::copy` inside the storage: the destination must not lie in the source range.
pub copy_within : List ℕ → ℕ → ℕ → ℕ → Outcome (List ℕ)
copy_within xs i n dest = do
  check (not (leb i dest && ltb dest (i + n))) undefined
  block ← read_at xs i n
  copy_to xs dest block

-- `std::vector::resize`
pub resize : List ℕ → ℕ → Outcome (List ℕ)
resize xs n = if leb n max_size then ok (take n xs ++ replicate (n - length xs) 0) else err too_long

unfoldable pub retrieve_all : Buffer → Buffer
retrieve_all b = record b { reader_index = cheap_prepend; writer_index = cheap_prepend }

unfoldable pub retrieve : Buffer → ℕ → Outcome Buffer
unfolding retrieve_all
retrieve b len = do
  assert (leb len (readable_bytes b))
  ok (
      if ltb len (readable_bytes b)
      then record b { reader_index = add_size b.reader_index len }
      else retrieve_all b)

-- `end` is an index.
unfoldable pub retrieve_until : Buffer → ℕ → Outcome Buffer
retrieve_until b end = do
  assert (leb b.reader_index end)
  assert (leb end b.writer_index)
  retrieve b (sub_size end b.reader_index)

unfoldable pub retrieve_as_string : Buffer → ℕ → Outcome (List ℕ × Buffer)
retrieve_as_string b len = do
  assert (leb len (readable_bytes b))
  result ← read_at b.bytes b.reader_index len
  b' ← retrieve b len
  ok (result, b')

unfoldable pub retrieve_all_as_string : Buffer → Outcome (List ℕ × Buffer)
retrieve_all_as_string b = retrieve_as_string b (readable_bytes b)

-- The second branch of `makeSpace`: move the readable bytes to the front.
pub compact : Buffer → Outcome Buffer
compact b = do
  assert (ltb cheap_prepend (readable_bytes b))
  moved ← copy_within b.bytes b.reader_index (readable_bytes b) cheap_prepend
  let b' = record b {
    bytes = moved;
    reader_index = cheap_prepend;
    writer_index = add_size cheap_prepend (readable_bytes b);
  }
  assert (readable_bytes b == readable_bytes b')
  ok b'

pub grow : Buffer → ℕ → Outcome Buffer
grow b len = do
  bytes ← resize b.bytes (add_size b.writer_index len)
  ok (record b { bytes = bytes })

pub make_space : Buffer → ℕ → Outcome Buffer
make_space b len =
    if ltb (add_size (writable_bytes b) (prependable_bytes b)) (add_size len cheap_prepend)
    then grow b len
    else compact b

unfoldable pub ensure_writable_bytes : Buffer → ℕ → Outcome Buffer
ensure_writable_bytes b len = do
  b' ← if ltb (writable_bytes b) len then make_space b len else ok b
  assert (leb len (writable_bytes b'))
  ok b'

unfoldable pub has_written : Buffer → ℕ → Outcome Buffer
has_written b len = do
  assert (leb len (writable_bytes b))
  ok (record b { writer_index = add_size b.writer_index len })

-- A write at `beginWrite()` that leaves the indices alone.
unfoldable pub write_ahead : Buffer → List ℕ → Outcome Buffer
write_ahead b bytes = do
  written ← copy_to b.bytes b.writer_index bytes
  ok (record b { bytes = written })

unfoldable pub append : Buffer → List ℕ → Outcome Buffer
append b bytes = do
  b' ← ensure_writable_bytes b (length bytes)
  b'' ← write_ahead b' bytes
  has_written b'' (length bytes)

unfoldable pub unwrite : Buffer → ℕ → Outcome Buffer
unwrite b len = do
  assert (leb len (readable_bytes b))
  ok (record b { writer_index = sub_size b.writer_index len })

unfoldable pub prepend : Buffer → List ℕ → Outcome Buffer
prepend b bytes = do
  assert (leb (length bytes) (prependable_bytes b))
  let start = sub_size b.reader_index (length bytes)
  written ← copy_to b.bytes start bytes
  ok (record b { bytes = written; reader_index = start })

unfoldable pub swap : Buffer → Buffer → Buffer × Buffer
swap b rhs = (rhs, b)

-- What is left of `other` after the swap is destroyed.
unfoldable pub shrink : Buffer → ℕ → Outcome Buffer
unfolding swap
shrink b reserve = do
  other ← ensure_writable_bytes (init initial_size) (add_size (readable_bytes b) reserve)
  (text, b') ← retrieve_all_as_string b
  other' ← append other text
  ok (swap b' other').0
