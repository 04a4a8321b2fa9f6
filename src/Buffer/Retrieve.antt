-- ===== src/Buffer/Retrieve.antt =====
-- `retrieve` and its kin, `unwrite`, `prepend`, `shrink`: their effect on the readable bytes.
use native.Mathlib.Decide.{dec_lt}
use starry.Common.{
  ℕ, ◌+◌, ◌-◌, ◌≤◌, ◌<◌, ◌≡◌, refl, ap, sym, ◌∙◌, List, [], length, take, drop, arith, ok, err,
  assertion, add_size, sub_size, le→leb, lt→ltb, le→ltb_false, lt→leb_false, take-le, drop-le,
  drop-drop, take-take,
}
use starry.Buffer.{
  Buffer, retrieve, retrieve_all, retrieve_until, retrieve_as_string, retrieve_all_as_string,
}
use starry.Buffer.Contents.{
  Inv, contents, length-contents, readable_lem, readable-length, drop-take,
}
use starry.Buffer.Space.{read_at-ok}

-- A cut of a view is the view from a later index.
pub drop-view :
    (r w n : ℕ) (xs : List ℕ)
    → n ≤ w - r
    → w ≤ length xs
    → drop n (take (w - r) (drop r xs)) ≡ take (w - (r + n)) (drop (r + n) xs)
drop-view r w n xs h k =
    drop-take n (w - r) (drop r xs) h
    ∙ ap (take (w - r - n)) (drop-drop n r xs)
    ∙ ap (λ m. take m (drop (r + n) xs)) (omega arith)

pub retrieve_all_lem :
    (b : Buffer) → Inv b → Inv (retrieve_all b) × (contents (retrieve_all b) ≡ [])
unfolding retrieve_all
retrieve_all_lem b v = (
  record { ordered = omega arith; inside = v.reserved; reserved = v.reserved; small = v.small },
  refl,
)

-- `retrieve(n)` of at most the readable bytes succeeds, and removes exactly the first `n`.
pub retrieve_lem :
    (b : Buffer) (n : ℕ)
    → Inv b
    → n ≤ length (contents b)
    → (b' : Buffer) × (retrieve b n ≡ ok b') × Inv b' × (contents b' ≡ drop n (contents b))
unfolding retrieve
retrieve_lem b n v h =
    let l = length-contents b v in
    elim (dec_lt n (length (contents b))) [
      | yes p ↦ (
        record b { reader_index = b.reader_index + n },
        rw
            (
              readable_lem b v,
              le→leb n (b.writer_index - b.reader_index) (omega arith),
              lt→ltb n (b.writer_index - b.reader_index) (omega arith),
              moved (omega arith),
            )
            refl,
        record { ordered = omega arith; inside = v.inside; reserved = v.reserved; small = v.small },
        sym (drop-view b.reader_index b.writer_index n b.bytes (omega arith) v.inside),
      )
      | no p ↦
          let (v', c) = retrieve_all_lem b v in
          (
            retrieve_all b,
            rw
                (
                  readable_lem b v,
                  le→leb n (b.writer_index - b.reader_index) (omega arith),
                  le→ltb_false n (b.writer_index - b.reader_index) (omega arith),
                )
                refl,
            v',
            c ∙ sym (drop-le n (contents b) (omega arith)),
          )
    ]
  where
    moved : n ≤ b.writer_index - b.reader_index → add_size b.reader_index n ≡ b.reader_index + n
    moved k = omega arith

-- More than the readable bytes cannot be retrieved.
pub retrieve-assertion :
    (b : Buffer) (n : ℕ) → Inv b → length (contents b) < n → retrieve b n ≡ err assertion
unfolding retrieve
retrieve-assertion b n v h = rw (readable-length b v, lt→leb_false n (length (contents b)) h) refl

-- `retrieveUntil(end)`, for an index `end` from the reader index to the writer index, removes the
-- bytes before `end`.
pub retrieve_until_lem :
    (b : Buffer) (end : ℕ)
    → Inv b
    → b.reader_index ≤ end
    → end ≤ b.writer_index
    → (b' : Buffer) × (retrieve_until b end ≡ ok b')
      × Inv b'
      × (contents b' ≡ drop (end - b.reader_index) (contents b))
unfolding retrieve_until
retrieve_until_lem b end v lo hi =
    let (b', e, v', c) =
      retrieve_lem b (end - b.reader_index) v (omega (arith, length-contents b v)) in
    let d : sub_size end b.reader_index ≡ end - b.reader_index = omega arith in
    (b', rw (le→leb b.reader_index end lo, le→leb end b.writer_index hi, d) e, v', c)

-- `retrieveAsString(n)` of at most the readable bytes returns the first `n` and removes them.
pub retrieve_as_string_lem :
    (b : Buffer) (n : ℕ)
    → Inv b
    → n ≤ length (contents b)
    → (b' : Buffer) × (retrieve_as_string b n ≡ ok (take n (contents b), b'))
      × Inv b'
      × (contents b' ≡ drop n (contents b))
unfolding retrieve_as_string
retrieve_as_string_lem b n v h =
    let (b', e, r, c) = retrieve_lem b n v h in
    let l = length-contents b v in
    (
      b',
      rw
          (
            readable-length b v,
            le→leb n (length (contents b)) h,
            read_at-ok b.bytes b.reader_index n (omega arith),
            e,
          )
          (ap (λ t. ok (t, b'))
            (sym (
              take-take n (b.writer_index - b.reader_index) (drop b.reader_index b.bytes)
                (omega arith)))),
      r,
      c,
    )

pub retrieve_all_as_string_lem :
    (b : Buffer)
    → Inv b
    → (b' : Buffer) × (retrieve_all_as_string b ≡ ok (contents b, b')) × Inv b' × (contents b' ≡ [])
unfolding retrieve_all_as_string
retrieve_all_as_string_lem b v =
    let (b', e, v', c) = retrieve_as_string_lem b (length (contents b)) v (omega arith) in
    (
      b',
      rw (readable-length b v)
          (e ∙ ap (λ t. ok (t, b')) (take-le (length (contents b)) (contents b) (omega arith))),
      v',
      c ∙ drop-le (length (contents b)) (contents b) (omega arith),
    )
