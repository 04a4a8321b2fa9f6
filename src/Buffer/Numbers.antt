-- ===== src/Buffer/Numbers.antt =====
-- starry/net/include/buffer.h: integers in network byte order. An intN_t is its bit pattern, a
-- number below 2 ^ N; htobeN followed by the copy of the object is its big-endian bytes on every
-- host, and so is the copy followed by beNtoh.
pub mod Laws
use starry.Common.{
  ℕ, zero, suc, ◌+◌, ◌*◌, ◌/◌, ◌%◌, List, [], ◌∷◌, ◌++◌, Outcome, ok, ◌>>=◌, ◌>>◌, assert, leb,
}
use starry.Buffer.{Buffer, readable_bytes, read_at, retrieve, append, prepend}

-- The low `k` bytes of `x`, the most significant first.
unfoldable pub to_be : ℕ → ℕ → List ℕ
to_be zero x = []
to_be (suc k) x = to_be k (x / 256) ++ ((x % 256) ∷ [])

unfoldable pub from_be_acc : ℕ → List ℕ → ℕ
from_be_acc acc [] = acc
from_be_acc acc (b ∷ bs) = from_be_acc (acc * 256 + b) bs

unfoldable pub from_be : List ℕ → ℕ
unfolding from_be_acc
from_be bs = from_be_acc 0 bs

-- The functions below, for an integer of `k` bytes.
unfoldable pub append_int : ℕ → Buffer → ℕ → Outcome Buffer
append_int k b x = append b (to_be k x)

unfoldable pub prepend_int : ℕ → Buffer → ℕ → Outcome Buffer
prepend_int k b x = prepend b (to_be k x)

unfoldable pub peek_int : ℕ → Buffer → Outcome ℕ
peek_int k b = do
  assert (leb k (readable_bytes b))
  bytes ← read_at b.bytes b.reader_index k
  ok (from_be bytes)

unfoldable pub read_int : ℕ → Buffer → Outcome (ℕ × Buffer)
read_int k b = do result ← peek_int k b; b' ← retrieve b k; ok (result, b')

abbrev pub append_int64 : Buffer → ℕ → Outcome Buffer
append_int64 = append_int 8

abbrev pub append_int32 : Buffer → ℕ → Outcome Buffer
append_int32 = append_int 4

abbrev pub append_int16 : Buffer → ℕ → Outcome Buffer
append_int16 = append_int 2

abbrev pub append_int8 : Buffer → ℕ → Outcome Buffer
append_int8 = append_int 1

abbrev pub prepend_int64 : Buffer → ℕ → Outcome Buffer
prepend_int64 = prepend_int 8

abbrev pub prepend_int32 : Buffer → ℕ → Outcome Buffer
prepend_int32 = prepend_int 4

abbrev pub prepend_int16 : Buffer → ℕ → Outcome Buffer
prepend_int16 = prepend_int 2

abbrev pub prepend_int8 : Buffer → ℕ → Outcome Buffer
prepend_int8 = prepend_int 1

abbrev pub peek_int64 : Buffer → Outcome ℕ
peek_int64 = peek_int 8

abbrev pub peek_int32 : Buffer → Outcome ℕ
peek_int32 = peek_int 4

abbrev pub peek_int16 : Buffer → Outcome ℕ
peek_int16 = peek_int 2

abbrev pub peek_int8 : Buffer → Outcome ℕ
peek_int8 = peek_int 1

abbrev pub read_int64 : Buffer → Outcome (ℕ × Buffer)
read_int64 = read_int 8

abbrev pub read_int32 : Buffer → Outcome (ℕ × Buffer)
read_int32 = read_int 4

abbrev pub read_int16 : Buffer → Outcome (ℕ × Buffer)
read_int16 = read_int 2

abbrev pub read_int8 : Buffer → Outcome (ℕ × Buffer)
read_int8 = read_int 1
