-- ===== src/Codec/Protobuf.antt =====
-- What the codec uses of the protobuf library and of zlib.
use starry.Common.{ℕ, ◌^◌, ◌<◌, ◌≡◌, Bool, true, List, length, Option, some}

-- `byte_size` is ByteSizeLong, `serialize` the bytes that SerializeWithCachedSizesToArray writes,
-- `parse_from_array` ParseFromArray into a fresh message, `adler32` is adler32_z from 1 on.
-- The laws are documented: ByteSizeLong is the serialized size, a serialized initialized message
-- is parsed back, and a checksum has 32 bits.
pub record Library : Type 1 where
  pub Message : Type 0
  pub is_initialized : Message → Bool
  pub byte_size : Message → ℕ
  pub serialize : Message → List ℕ
  pub parse_from_array : List ℕ → Option Message
  pub adler32 : List ℕ → ℕ
  pub byte_size-serialize : (m : Message) → byte_size m ≡ length (serialize m)
  pub parse_from_array-serialize :
      (m : Message) → is_initialized m ≡ true → parse_from_array (serialize m) ≡ some m
  pub adler32-lt : (bytes : List ℕ) → adler32 bytes < 2 ^ 32
