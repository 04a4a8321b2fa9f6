-- ===== src/Buffer/Outcomes.antt =====
-- What `append` ends in on every branch, the assertion and the size limit included.
use native.Mathlib.Decide.{dec_le, dec_lt}
use starry.Common.{
  ℕ, ◌+◌, ◌≤◌, ◌<◌, ◌≡◌, refl, subst, List, ◌++◌, length, arith, max_size, ok, err, assertion,
  too_long, Outcome, add_size, lt→ltb, le→ltb_false, lt→leb_false,
}
use starry.Buffer.{
  Buffer, cheap_prepend, readable_bytes, writable_bytes, resize, grow, compact,
  ensure_writable_bytes, append,
}
use starry.Buffer.Contents.{Inv, contents, length-contents, writable_lem}
use starry.Buffer.Space.{make_space-grow, make_space-compact}
use starry.Buffer.Append.{Grows, Moves, Fits, append_lem, at_hand, grows, moves}

-- The assertion of `makeSpace`: few readable bytes that would have to be moved.
pub ensure-assertion :
    (b : Buffer) (n : ℕ)
    → Inv b
    → n ≤ max_size
    → Moves b n
    → length (contents b) ≤ cheap_prepend
    → ensure_writable_bytes b n ≡ err assertion
unfolding ensure_writable_bytes compact
ensure-assertion b n v k m few =
    rw
      (
        lt→ltb (writable_bytes b) n (omega (arith, writable_lem b v)),
        make_space-compact b n v k m.1,
        compact,
        le→ltb_false cheap_prepend (readable_bytes b) (omega (arith, length-contents b v)),
      )
      refl

ensure-too_long :
    (b : Buffer) (n : ℕ)
    → Inv b
    → n ≤ max_size
    → Grows b n
    → max_size < b.writer_index + n
    → ensure_writable_bytes b n ≡ err too_long
unfolding ensure_writable_bytes grow resize
ensure-too_long b n v k g h =
    rw
      (
        lt→ltb (writable_bytes b) n (omega (arith, writable_lem b v)),
        make_space-grow b n v k g.1,
        grow,
        lt→leb_false (add_size b.writer_index n) max_size (omega arith),
      )
      refl

-- What `append` of `new` to `b` can end in.
pub data Appended (b : Buffer) (new : List ℕ) (r : Outcome Buffer) : Type 0 where
  extended :
      (b' : Buffer)
      → r ≡ ok b'
      → Fits b (length new)
      → Inv b'
      → contents b' ≡ contents b ++ new
      → Appended b new r
  asserted :
      r ≡ err assertion
      → Moves b (length new)
      → length (contents b) ≤ cheap_prepend
      → Appended b new r
  refused :
      r ≡ err too_long
      → Grows b (length new)
      → max_size < b.writer_index + length new
      → Appended b new r

-- `append` to a valid buffer either extends the readable bytes by the new ones, or stops at the
-- assertion of `makeSpace`, which happens exactly when the bytes have to be moved to the front and
-- at most 8 are readable, or at the limit on the vector's size.
pub append-outcome :
    (b : Buffer) (new : List ℕ) → Inv b → length new ≤ max_size → Appended b new (append b new)
unfolding append
append-outcome b new v k = elim (dec_le (b.writer_index + n) (length b.bytes)) [
  | yes h ↦ done (at_hand h)
  | no h ↦ elim (dec_lt (length b.bytes + b.reader_index) (b.writer_index + n + cheap_prepend)) [
    | yes g ↦ elim (dec_le (b.writer_index + n) max_size) [
      | yes s ↦ done (grows (omega arith, g) s)
      | no s ↦
          refused (rw (ensure-too_long b n v k (omega arith, g) (omega arith)) refl)
            (omega arith, g) (omega arith)
    ]
    | no g ↦ elim (dec_lt cheap_prepend (length (contents b))) [
      | yes s ↦ done (moves (omega arith, omega arith) s)
      | no s ↦
          asserted (rw (ensure-assertion b n v k (omega arith, omega arith) (omega arith)) refl)
            (omega arith, omega arith) (omega arith)
    ]
  ]
]
  where
    n : ℕ
    n = length new

    done : Fits b n → Appended b new (append b new)
    done f = let (b', e, v', c) = append_lem b new v k f in extended b' e f v' c

-- Where `append` is known to have succeeded.
pub append-ok :
    (b b' : Buffer) (new : List ℕ)
    → Inv b
    → length new ≤ max_size
    → append b new ≡ ok b'
    → Inv b' × (contents b' ≡ contents b ++ new)
append-ok b b' new v k e = take_ok (append-outcome b new v k)
  where
    take_ok : Appended b new (append b new) → Inv b' × (contents b' ≡ contents b ++ new)
    take_ok (extended b0 r f v0 c) =
        let same : b0 ≡ b' = cc in
        subst (λ t. Inv t × (contents t ≡ contents b ++ new)) same (v0, c)
    take_ok (asserted r m few) = absurd (cc)
    take_ok (refused r g over) = absurd (cc)
