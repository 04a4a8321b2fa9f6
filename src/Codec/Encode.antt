-- ===== src/Codec/Encode.antt =====
-- `fillEmptyBuffer` on the fresh buffer of `send`: which messages become frames.

use starry.Common.{
  ℕ, ◌+◌, ◌-◌, ◌*◌, ◌%◌, ◌^◌, ◌≤◌, ◌<◌, ◌≡◌, ◌≢◌, refl, ap, sym, subst, ◌∙◌, ◌⊎◌, inl, inr, Bool,
  true, false, List, [], ◌∷◌, ◌++◌, length, take, drop, leb, ◌==◌, ==_refl, ne→==_false,
  if◌then◌else◌, append_assoc, length-append, arith, max_size, take-le, Outcome, ok, err, assertion,
  ◌>>=◌, add_size, sub_size,
}
use starry.Buffer.{Buffer, readable_bytes, read_at, ensure_writable_bytes}
use starry.Buffer.Contents.{Inv, contents, length-contents, readable-length, readable_lem}
use starry.Buffer.Space.{read_at-ok}
use starry.Buffer.Append.{
  extended_by, extended_by-Inv, contents-extended_by, append-at_hand, ensure-at_hand,
  write_ahead-ok, has_written-ok, written,
}
use starry.Buffer.Front.{prepend_lem}
use starry.Buffer.Numbers.{to_be, append_int, prepend_int, append_int32, prepend_int32}
use starry.Buffer.Numbers.Laws.{length-to_be}
use starry.Codec.Protobuf.{Library}
use starry.Codec.{checksum_len, int_to_size, minus_one, serialize_to_buffer, seal}

read_all :
    (b : Buffer) → Inv b → read_at b.bytes b.reader_index (readable_bytes b) ≡ ok (contents b)
read_all b v =
    rw (readable_lem b v)
      (read_at-ok b.bytes b.reader_index (b.writer_index - b.reader_index) (omega arith))

append_int32-at_hand :
    (b : Buffer) (x : ℕ)
    → Inv b
    → b.writer_index + 4 ≤ length b.bytes
    → append_int32 b x ≡ ok (extended_by b (to_be 4 x))
unfolding append_int
append_int32-at_hand b x v h = append-at_hand b (to_be 4 x) v (omega (arith, length-to_be 4 x))

prepend_int32_lem :
    (b : Buffer) (x : ℕ)
    → Inv b
    → 4 ≤ b.reader_index
    → (b' : Buffer) × (prepend_int32 b x ≡ ok b') × Inv b' × (contents b' ≡ to_be 4 x ++ contents b)
unfolding prepend_int
prepend_int32_lem b x v h = prepend_lem b (to_be 4 x) v (omega (arith, length-to_be 4 x))

module _ (l : Library) (tag : List ℕ) where
  open l use {Message, is_initialized, serialize, byte_size, byte_size-serialize, adler32}

  summed : Buffer → Buffer
  summed b = extended_by b (to_be 4 (adler32 (contents b)))

  summed-Inv : (b : Buffer) → Inv b → b.writer_index + 4 ≤ length b.bytes → Inv (summed b)
  unfolding summed
  summed-Inv b v h =
      extended_by-Inv b (to_be 4 (adler32 (contents b))) v
        (omega (arith, length-to_be 4 (adler32 (contents b))))

  contents-summed :
      (b : Buffer) → Inv b → contents (summed b) ≡ contents b ++ to_be 4 (adler32 (contents b))
  unfolding summed
  contents-summed b v = contents-extended_by b (to_be 4 (adler32 (contents b))) v

  reader-summed : (b : Buffer) → (summed b).reader_index ≡ b.reader_index
  unfolding summed
  reader-summed b = refl

  seal-steps :
      (b : Buffer) (size : ℕ)
      → Inv b
      → b.writer_index + 4 ≤ length b.bytes
      → seal l tag b size ≡ (
          starry.Common.assert (
            readable_bytes (summed b)
            == add_size (add_size (length tag) (int_to_size size)) checksum_len)
          >>= λ _. prepend_int32 (summed b) (readable_bytes (summed b) % 2 ^ 32))
  unfolding seal summed
  seal-steps b size v h = rw (read_all b v, append_int32-at_hand b (adler32 (contents b)) v h) refl

  readable-summed :
      (b : Buffer)
      → Inv b
      → b.writer_index + 4 ≤ length b.bytes
      → readable_bytes (summed b) ≡ length (contents b) + 4
  readable-summed b v h = omega (
    arith,
    readable-length (summed b) (summed-Inv b v h),
    ap length (contents-summed b v),
    length-append (contents b) (to_be 4 (adler32 (contents b))),
    length-to_be 4 (adler32 (contents b)),
  )

  seal-closes :
      (b b' : Buffer) (size : ℕ)
      → Inv b
      → b.writer_index + 4 ≤ length b.bytes
      → length (contents b) ≡ length tag + size
      → size < 2 ^ 31
      → prepend_int32 (summed b) ((length (contents b) + 4) % 2 ^ 32) ≡ ok b'
      → seal l tag b size ≡ ok b'
  seal-closes b b' size v h e small p =
      let lc = length-contents b v in
      let sz : int_to_size size ≡ size = ground arith in
      let total : add_size (add_size (length tag) (int_to_size size)) checksum_len
          ≡ length (contents b) + 4 =
        omega arith in
      seal-steps b size v h ∙ rw (readable-summed b v h, total, ==_refl (length (contents b) + 4)) p

  -- With the size of what was serialized the frame is closed.
  pub seal_lem :
      (b : Buffer) (size : ℕ)
      → Inv b
      → b.writer_index + 4 ≤ length b.bytes
      → 4 ≤ b.reader_index
      → length (contents b) ≡ length tag + size
      → size < 2 ^ 31
      → (b' : Buffer) × (seal l tag b size ≡ ok b')
        × Inv b'
        × (contents b'
            ≡ to_be 4 ((length (contents b) + 4) % 2 ^ 32)
              ++ (contents b ++ to_be 4 (adler32 (contents b))))
  seal_lem b size v h r e small =
      let n : ℕ = (length (contents b) + 4) % 2 ^ 32 in
      let (b', p, v', c) =
        prepend_int32_lem (summed b) n (summed-Inv b v h) (omega (arith, reader-summed b)) in
      (
        b',
        seal-closes b b' size v h e small p,
        v',
        c ∙ ap (λ t. to_be 4 n ++ t) (contents-summed b v),
      )

  -- With the size -1 the assertion on the total size fails.
  pub seal-assertion :
      (b : Buffer)
      → Inv b
      → b.writer_index + 4 ≤ length b.bytes
      → length (contents b) ≡ length tag
      → seal l tag b minus_one ≡ err assertion
  seal-assertion b v h e =
      let lc = length-contents b v in
      let total : length (contents b) + 4
          ≢ add_size (add_size (length tag) (2 ^ 64 - 1)) checksum_len =
        λ q. omega arith in
      seal-steps b minus_one v h
      ∙ rw
          (
            readable-summed b v h,
            ne→==_false (length (contents b) + 4)
                (add_size (add_size (length tag) (2 ^ 64 - 1)) checksum_len) total,
          )
          refl

  -- A message of fewer than 256 bytes is written behind the tag.
  pub serialize-small :
      (m : Message) (b : Buffer)
      → is_initialized m ≡ true
      → length (serialize m) < 256
      → Inv b
      → b.writer_index + length (serialize m) ≤ length b.bytes
      → serialize_to_buffer l tag m b ≡ ok (length (serialize m), extended_by b (serialize m))
  unfolding serialize_to_buffer
  serialize-small m b inited small v room =
      let n : ℕ = length (serialize m) in
      let r : n % 256 ≡ n = omega arith in
      let w : n % 2 ^ 32 ≡ n = omega arith in
      rw
        (
          inited,
          byte_size-serialize m,
          ensure-at_hand b n v room,
          write_ahead-ok b (serialize m) room,
          r,
          ==_refl n,
          has_written-ok b (serialize m) v room,
          w,
        )
        refl

  -- One of 256 bytes or more is written but not counted, since the size is compared as a uint8_t.
  pub serialize-large :
      (m : Message) (b b' : Buffer)
      → is_initialized m ≡ true
      → 256 ≤ length (serialize m)
      → ensure_writable_bytes b (length (serialize m)) ≡ ok b'
      → b'.writer_index + length (serialize m) ≤ length b'.bytes
      → serialize_to_buffer l tag m b ≡ ok (minus_one, written b' (serialize m))
  unfolding serialize_to_buffer
  serialize-large m b b' inited large e room =
      let n : ℕ = length (serialize m) in
      rw
        (
          inited,
          byte_size-serialize m,
          e,
          write_ahead-ok b' (serialize m) room,
          ne→==_false n (n % 256) (λ q. omega arith),
        )
        refl

  pub serialize-uninitialized :
      (m : Message) (b : Buffer)
      → is_initialized m ≡ false
      → serialize_to_buffer l tag m b ≡ ok (minus_one, b)
  unfolding serialize_to_buffer
  serialize-uninitialized m b inited = rw inited refl
