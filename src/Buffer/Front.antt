-- ===== src/Buffer/Front.antt =====
-- Bytes taken back at the end, put in front, and `shrink`.
use native.Mathlib.Decide.{dec_lt}
use starry.Common.{
  ℕ, ◌+◌, ◌-◌, ◌≤◌, ◌<◌, ◌≡◌, refl, ap, sym, ◌∙◌, List, ◌++◌, length, take, drop, length-take,
  arith, max_size, ok, err, assertion, add_size, sub_size, le→leb, lt→leb_false, take-take,
  drop-append_ge, take-append_ge,
}
use starry.Buffer.{
  Buffer, cheap_prepend, initial_size, init, readable_bytes, retrieve_all_as_string, unwrite,
  prepend, shrink, append, ensure_writable_bytes,
}
use starry.Buffer.Contents.{
  Inv, contents, length-contents, readable-length, init-Inv, contents-init,
}
use starry.Buffer.Space.{copy_to-ok, length-splice}
use starry.Buffer.Append.{Fits, at_hand, grows, ensure-Ensured, append_lem}
use starry.Buffer.Retrieve.{retrieve_all_as_string_lem}

-- `unwrite(n)` of at most the readable bytes succeeds, and removes exactly the last `n`.
pub unwrite_lem :
    (b : Buffer) (n : ℕ)
    → Inv b
    → n ≤ length (contents b)
    → (b' : Buffer) × (unwrite b n ≡ ok b')
      × Inv b'
      × (contents b' ≡ take (length (contents b) - n) (contents b))
unfolding unwrite
unwrite_lem b n v h =
    let l = length-contents b v in
    let d : sub_size b.writer_index n ≡ b.writer_index - n = omega arith in
    (
      record b { writer_index = b.writer_index - n },
      rw (readable-length b v, le→leb n (length (contents b)) h, d) refl,
      record {
        ordered = omega arith;
        inside = omega arith;
        reserved = v.reserved;
        small = v.small;
      },
      ap (λ m. take m (drop b.reader_index b.bytes)) (omega arith)
          ∙ sym (
              take-take (length (contents b) - n) (b.writer_index - b.reader_index)
                (drop b.reader_index b.bytes) (omega arith)),
    )

-- `prepend` of bytes that fit in front of a valid buffer's readable ones succeeds, and puts them there.
pub prepend_lem :
    (b : Buffer) (new : List ℕ)
    → Inv b
    → length new ≤ b.reader_index
    → (b' : Buffer) × (prepend b new ≡ ok b') × Inv b' × (contents b' ≡ new ++ contents b)
unfolding prepend
prepend_lem b new v h =
    let start : ℕ = b.reader_index - length new in
    let d : sub_size b.reader_index (length new) ≡ start = omega arith in
    let back : start + length new ≡ b.reader_index = omega arith in
    let bs : List ℕ = take start b.bytes ++ (new ++ drop (start + length new) b.bytes) in
    let ls : length bs ≡ length b.bytes = length-splice b.bytes start new (omega arith) in
    (
      record b { bytes = bs; reader_index = start },
      rw (le→leb (length new) b.reader_index h, d, copy_to-ok b.bytes start new (omega arith)) refl,
      record {
        ordered = omega arith;
        inside = omega arith;
        reserved = omega arith;
        small = omega arith;
      },
      ap (take (b.writer_index - start)) (
            drop-append_ge start 0 (take start b.bytes) (new ++ drop (start + length new) b.bytes)
              (omega (arith, length-take start b.bytes)))
          ∙ take-append_ge (b.writer_index - start) (b.writer_index - b.reader_index) new
              (drop (start + length new) b.bytes) (omega arith)
          ∙ ap (λ k. new ++ take (b.writer_index - b.reader_index) (drop k b.bytes)) back,
    )

pub prepend-assertion :
    (b : Buffer) (new : List ℕ) → b.reader_index < length new → prepend b new ≡ err assertion
unfolding prepend
prepend-assertion b new h = rw (lt→leb_false (length new) b.reader_index h) refl

shrink-steps :
    (b : Buffer) (reserve : ℕ) (text : List ℕ) (b' other other' : Buffer)
    → ensure_writable_bytes (init initial_size) (add_size (readable_bytes b) reserve) ≡ ok other
    → retrieve_all_as_string b ≡ ok (text, b')
    → append other text ≡ ok other'
    → shrink b reserve ≡ ok other'
unfolding shrink
shrink-steps b reserve text b' other other' e1 e2 e3 = rw (e1, e2, e3) refl

init-Fits : (n : ℕ) → cheap_prepend + n ≤ max_size → Fits (init initial_size) n
unfolding init
init-Fits n k = elim (dec_lt initial_size n) [
  | yes p ↦ grows (omega arith, omega arith) (omega arith)
  | no p ↦ at_hand (omega arith)
]

-- `shrink(reserve)` of a valid buffer keeps the readable bytes, when they and the reserve fit into a
-- vector.
pub shrink_lem :
    (b : Buffer) (reserve : ℕ)
    → Inv b
    → cheap_prepend + length (contents b) + reserve ≤ max_size
    → (b' : Buffer) × (shrink b reserve ≡ ok b') × Inv b' × (contents b' ≡ contents b)
shrink_lem b reserve v h =
    let n : ℕ = add_size (readable_bytes b) reserve in
    let sum : n ≡ length (contents b) + reserve = omega (arith, readable-length b v) in
    let (o1, e1, en) =
      ensure-Ensured (init initial_size) n (init-Inv initial_size (omega arith)) (omega arith)
        (init-Fits n (omega arith)) in
    let (b1, e2, v1, c1) = retrieve_all_as_string_lem b v in
    let room = en.room in
    let (o2, e3, v2, c2) =
      append_lem o1 (contents b) en.valid (omega arith) (at_hand (omega arith)) in
    (
      o2,
      shrink-steps b reserve (contents b) b1 o1 o2 e1 e2 e3,
      v2,
      c2 ∙ ap (λ t. t ++ contents b) (en.same ∙ contents-init initial_size),
    )
