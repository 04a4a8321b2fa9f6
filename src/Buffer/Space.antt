-- ===== src/Buffer/Space.antt =====
-- `ensureWritableBytes`: growing the storage, or moving the readable bytes to its front.
use starry.Common.{
  ℕ, ◌+◌, ◌-◌, ◌≤◌, ◌<◌, ◌≡◌, refl, ap, ◌∙◌, List, ◌++◌, length, take, drop, replicate,
  length-append, length-take, length-drop, length-replicate, take-append_le, drop-append_ge,
  take-le, arith, max_size, ok, add_size, sub_size, ==_iff, le→leb, lt→ltb, le→ltb_false,
  lt→leb_false,
}
use starry.Buffer.{
  Buffer, cheap_prepend, writable_bytes, read_at, copy_to, copy_within, resize, grow, compact,
  make_space,
}
use starry.Buffer.Contents.{Inv, contents, length-contents, readable_lem, view-append}

pub read_at-ok :
    (xs : List ℕ) (i n : ℕ) → i + n ≤ length xs → read_at xs i n ≡ ok (take n (drop i xs))
unfolding read_at
read_at-ok xs i n h = rw (le→leb _ _ h)

pub copy_to-ok :
    (xs : List ℕ) (i : ℕ) (ys : List ℕ)
    → i + length ys ≤ length xs
    → copy_to xs i ys ≡ ok (take i xs ++ (ys ++ drop (i + length ys) xs))
unfolding copy_to
copy_to-ok xs i ys h = rw (le→leb _ _ h)

pub length-splice :
    (xs : List ℕ) (i : ℕ) (ys : List ℕ)
    → i + length ys ≤ length xs
    → length (take i xs ++ (ys ++ drop (i + length ys) xs)) ≡ length xs
length-splice xs i ys h = omega (
  arith,
  length-append (take i xs) (ys ++ drop (i + length ys) xs),
  length-append ys (drop (i + length ys) xs),
  length-take i xs,
  length-drop (i + length ys) xs,
)

resize-ok :
    (xs : List ℕ) (n : ℕ)
    → length xs ≤ n
    → n ≤ max_size
    → resize xs n ≡ ok (xs ++ replicate (n - length xs) 0)
unfolding resize
resize-ok xs n h k = rw (le→leb _ _ k, take-le n xs h)

-- What `ensureWritableBytes(n)` leaves: a valid buffer with the same readable bytes and with room
-- for `n` more.
pub record Ensured (b : Buffer) (n : ℕ) (b' : Buffer) : Type 0 where
  pub valid : Inv b'
  pub same : contents b' ≡ contents b
  pub room : b'.writer_index + n ≤ length b'.bytes

pub grow-Ensured :
    (b : Buffer) (n : ℕ)
    → Inv b
    → length b.bytes ≤ b.writer_index + n
    → b.writer_index + n ≤ max_size
    → (b' : Buffer) × (grow b n ≡ ok b') × Ensured b n b'
unfolding grow
grow-Ensured b n v h k =
    let e : add_size b.writer_index n ≡ b.writer_index + n = omega arith in
    let pad : List ℕ = replicate (b.writer_index + n - length b.bytes) 0 in
    let l : length pad ≡ b.writer_index + n - length b.bytes =
      length-replicate (b.writer_index + n - length b.bytes) 0 in
    let m : length (b.bytes ++ pad) ≡ length b.bytes + length pad = length-append b.bytes pad in
    (
      record b { bytes = b.bytes ++ pad },
      rw (e, resize-ok b.bytes (b.writer_index + n) h k),
      record {
        valid = record {
          ordered = v.ordered;
          inside = omega arith;
          reserved = omega arith;
          small = omega arith;
        };
        same = view-append b.reader_index b.writer_index b.bytes pad v.ordered v.inside;
        room = omega arith;
      },
    )

copy_within-ok :
    (xs : List ℕ) (i n dest : ℕ)
    → dest < i
    → i + n ≤ length xs
    → copy_within xs i n dest
      ≡ ok (take dest xs ++ (take n (drop i xs) ++ drop (dest + length (take n (drop i xs))) xs))
unfolding copy_within
copy_within-ok xs i n dest h k =
    rw (lt→leb_false i dest h, read_at-ok xs i n k)
      (copy_to-ok xs dest (take n (drop i xs))
        (omega (arith, length-take n (drop i xs), length-drop i xs)))

abbrev compacted : Buffer → Buffer
compacted b = record b {
  bytes =
      take cheap_prepend b.bytes
      ++ (contents b ++ drop (cheap_prepend + length (contents b)) b.bytes);
  reader_index = cheap_prepend;
  writer_index = cheap_prepend + (b.writer_index - b.reader_index);
}

compacted-contents :
    (b : Buffer)
    → Inv b
    → cheap_prepend + length (contents b) ≤ length b.bytes
    → contents (compacted b) ≡ contents b
compacted-contents b v fits =
    ap (take (cheap_prepend + (b.writer_index - b.reader_index) - cheap_prepend)) (
      drop-append_ge cheap_prepend 0 (take cheap_prepend b.bytes) _
        (omega (arith, length-take cheap_prepend b.bytes)))
    ∙ take-append_le _ (contents b) _ (omega (arith, length-contents b v))
    ∙ take-le _ (contents b) (omega (arith, length-contents b v))

pub compact-Ensured :
    (b : Buffer) (n : ℕ)
    → Inv b
    → cheap_prepend < length (contents b)
    → cheap_prepend < b.reader_index
    → cheap_prepend + length (contents b) + n ≤ length b.bytes
    → (b' : Buffer) × (compact b ≡ ok b') × Ensured b n b'
unfolding compact
compact-Ensured b n v busy far room =
    let q : ℕ = b.writer_index - b.reader_index in
    let lc : length (contents b) ≡ q = length-contents b v in
    let front : add_size cheap_prepend q ≡ cheap_prepend + q = omega arith in
    let kept : sub_size (cheap_prepend + q) cheap_prepend ≡ q = omega arith in
    let fits : cheap_prepend + length (contents b) ≤ length b.bytes = omega arith in
    let ls = length-splice b.bytes cheap_prepend (contents b) fits in
    (
      compacted b,
      rw
          (
            readable_lem b v,
            lt→ltb cheap_prepend q (omega arith),
            copy_within-ok b.bytes b.reader_index q cheap_prepend far (omega arith),
            front,
            kept,
            (==_iff q q).1 refl,
          )
          refl,
      record {
        valid = record {
          ordered = omega arith;
          inside = omega arith;
          reserved = omega arith;
          small = omega arith;
        };
        same = compacted-contents b v fits;
        room = omega arith;
      },
    )

-- The branch that `makeSpace` takes, in plain arithmetic.
pub make_space-grow :
    (b : Buffer) (n : ℕ)
    → Inv b
    → n ≤ max_size
    → length b.bytes + b.reader_index < b.writer_index + n + cheap_prepend
    → make_space b n ≡ grow b n
unfolding make_space
make_space-grow b n v k h =
    rw
      (lt→ltb (add_size (writable_bytes b) b.reader_index) (add_size n cheap_prepend) (omega arith))
      refl

pub make_space-compact :
    (b : Buffer) (n : ℕ)
    → Inv b
    → n ≤ max_size
    → b.writer_index + n + cheap_prepend ≤ length b.bytes + b.reader_index
    → make_space b n ≡ compact b
unfolding make_space
make_space-compact b n v k h =
    rw
      (le→ltb_false (add_size (writable_bytes b) b.reader_index) (add_size n cheap_prepend)
        (omega arith))
      refl
