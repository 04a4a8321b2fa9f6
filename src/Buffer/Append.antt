-- ===== src/Buffer/Append.antt =====
-- `append`: when it succeeds, what it leaves, and when it stops the process.

use starry.Common.{
  ℕ, ◌+◌, ◌≤◌, ◌<◌, ◌≡◌, refl, ap, ◌∙◌, List, ◌++◌, length, take, drop, arith, max_size, ok,
  add_size, le→leb, lt→ltb, le→ltb_false, ◌>>=◌,
}
use starry.Buffer.{
  Buffer, cheap_prepend, writable_bytes, make_space, ensure_writable_bytes, write_ahead,
  has_written, append,
}
use starry.Buffer.Contents.{Inv, contents, length-contents, writable_lem, view-splice, view-front}
use starry.Buffer.Space.{
  Ensured, grow-Ensured, compact-Ensured, make_space-grow, make_space-compact, copy_to-ok,
  length-splice,
}

-- The writable part is too small, and so are the writable and prependable parts together.
abbrev pub Grows : Buffer → ℕ → Type 0
Grows b n =
    (length b.bytes < b.writer_index + n)
    × (length b.bytes + b.reader_index < b.writer_index + n + cheap_prepend)

-- The writable part is too small, but the two parts together are not.
abbrev pub Moves : Buffer → ℕ → Type 0
Moves b n =
    (length b.bytes < b.writer_index + n)
    × (b.writer_index + n + cheap_prepend ≤ length b.bytes + b.reader_index)

-- When `ensureWritableBytes(n)` succeeds.
pub data Fits (b : Buffer) (n : ℕ) : Type 0 where
  at_hand : b.writer_index + n ≤ length b.bytes → Fits b n
  grows : Grows b n → b.writer_index + n ≤ max_size → Fits b n
  moves : Moves b n → cheap_prepend < length (contents b) → Fits b n

pub ensure-at_hand :
    (b : Buffer) (n : ℕ)
    → Inv b
    → b.writer_index + n ≤ length b.bytes
    → ensure_writable_bytes b n ≡ ok b
unfolding ensure_writable_bytes
ensure-at_hand b n v h =
    rw
      (
        le→ltb_false (writable_bytes b) n (omega (arith, writable_lem b v)),
        le→leb n (writable_bytes b) (omega (arith, writable_lem b v)),
      )
      refl

ensure-make_space :
    (b : Buffer) (n : ℕ) {b' : Buffer}
    → Inv b
    → length b.bytes < b.writer_index + n
    → make_space b n ≡ ok b'
    → Ensured b n b'
    → ensure_writable_bytes b n ≡ ok b'
unfolding ensure_writable_bytes
ensure-make_space b n {b'} v h e en =
    let room = en.room in
    let w = writable_lem b' en.valid in
    rw
      (
        lt→ltb (writable_bytes b) n (omega (arith, writable_lem b v)),
        e,
        le→leb n (writable_bytes b') (omega arith),
      )
      refl

pub ensure-Ensured :
    (b : Buffer) (n : ℕ)
    → Inv b
    → n ≤ max_size
    → Fits b n
    → (b' : Buffer) × (ensure_writable_bytes b n ≡ ok b') × Ensured b n b'
unfolding ensure_writable_bytes
ensure-Ensured b n v k (at_hand h) =
    (b, ensure-at_hand b n v h, record { valid = v; same = refl; room = h })
ensure-Ensured b n v k (grows g h) =
    let (b', e, en) = grow-Ensured b n v (omega arith) h in
    (b', ensure-make_space b n v g.0 (make_space-grow b n v k g.1 ∙ e) en, en)
ensure-Ensured b n v k (moves m busy) =
    let (b', e, en) =
      compact-Ensured b n v busy (omega arith) (omega (arith, length-contents b v)) in
    (b', ensure-make_space b n v m.0 (make_space-compact b n v k m.1 ∙ e) en, en)

-- The storage with `new` written at the write index, and the buffer that has it as readable bytes.
abbrev pub written : Buffer → List ℕ → Buffer
written b new = record b {
  bytes = take b.writer_index b.bytes ++ (new ++ drop (b.writer_index + length new) b.bytes);
}

abbrev pub extended_by : Buffer → List ℕ → Buffer
extended_by b new = record (written b new) { writer_index = b.writer_index + length new }

pub write_ahead-ok :
    (b : Buffer) (new : List ℕ)
    → b.writer_index + length new ≤ length b.bytes
    → write_ahead b new ≡ ok (written b new)
unfolding write_ahead
write_ahead-ok b new room = rw (copy_to-ok b.bytes b.writer_index new room) refl

pub length-written :
    (b : Buffer) (new : List ℕ)
    → b.writer_index + length new ≤ length b.bytes
    → length (written b new).bytes ≡ length b.bytes
length-written b new room = length-splice b.bytes b.writer_index new room

pub written-Inv :
    (b : Buffer) (new : List ℕ)
    → Inv b
    → b.writer_index + length new ≤ length b.bytes
    → Inv (written b new)
written-Inv b new v room =
    let ls = length-splice b.bytes b.writer_index new room in
    record {
      ordered = v.ordered;
      inside = omega arith;
      reserved = omega arith;
      small = omega arith;
    }

pub extended_by-Inv :
    (b : Buffer) (new : List ℕ)
    → Inv b
    → b.writer_index + length new ≤ length b.bytes
    → Inv (extended_by b new)
extended_by-Inv b new v room =
    let ls = length-splice b.bytes b.writer_index new room in
    record {
      ordered = omega arith;
      inside = omega arith;
      reserved = omega arith;
      small = omega arith;
    }

pub contents-extended_by :
    (b : Buffer) (new : List ℕ) → Inv b → contents (extended_by b new) ≡ contents b ++ new
contents-extended_by b new v =
    view-splice b.reader_index b.writer_index b.bytes new
      (drop (b.writer_index + length new) b.bytes) v.ordered v.inside

-- What is written ahead is not seen.
pub contents-written : (b : Buffer) (new : List ℕ) → Inv b → contents (written b new) ≡ contents b
contents-written b new v =
    view-front b.reader_index b.writer_index b.bytes
      (new ++ drop (b.writer_index + length new) b.bytes) v.ordered v.inside

pub has_written-ok :
    (b : Buffer) (new : List ℕ)
    → Inv b
    → b.writer_index + length new ≤ length b.bytes
    → has_written (written b new) (length new) ≡ ok (extended_by b new)
unfolding has_written
has_written-ok b new v room =
    let ls = length-splice b.bytes b.writer_index new room in
    let moved : add_size b.writer_index (length new) ≡ b.writer_index + length new = omega arith in
    rw (le→leb (length new) (writable_bytes (written b new)) (omega arith), moved) refl

write-lem :
    (b : Buffer) (new : List ℕ)
    → Inv b
    → b.writer_index + length new ≤ length b.bytes
    → (b' : Buffer) × ((write_ahead b new >>= λ b''. has_written b'' (length new)) ≡ ok b')
      × Inv b'
      × (contents b' ≡ contents b ++ new)
write-lem b new v room = (
  extended_by b new,
  rw (write_ahead-ok b new room) (has_written-ok b new v room),
  extended_by-Inv b new v room,
  contents-extended_by b new v,
)

-- With room at hand `append` writes in place.
pub append-at_hand :
    (b : Buffer) (new : List ℕ)
    → Inv b
    → b.writer_index + length new ≤ length b.bytes
    → append b new ≡ ok (extended_by b new)
unfolding append
append-at_hand b new v room =
    rw (ensure-at_hand b (length new) v room, write_ahead-ok b new room)
      (has_written-ok b new v room)

-- Appending to a valid buffer leaves a valid one, with the new bytes behind the old ones.
pub append_lem :
    (b : Buffer) (new : List ℕ)
    → Inv b
    → length new ≤ max_size
    → Fits b (length new)
    → (b' : Buffer) × (append b new ≡ ok b') × Inv b' × (contents b' ≡ contents b ++ new)
unfolding append
append_lem b new v k f =
    let (b1, e1, en) = ensure-Ensured b (length new) v k f in
    let (b2, e2, v2, c2) = write-lem b1 new en.valid en.room in
    (b2, rw e1 e2, v2, c2 ∙ ap (λ t. t ++ new) en.same)
