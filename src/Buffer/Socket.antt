-- ===== src/Buffer/Socket.antt =====
-- starry/net/src/buffer.cpp: `readFd`, which reads a socket into the writable part and, if that
-- is small, into 65536 bytes on the stack.
use native.Mathlib.Decide.{dec_le}
use starry.Common.{
  ℕ, ◌+◌, ◌-◌, ◌≤◌, ◌<◌, ◌≡◌, refl, ap, ◌∙◌, List, ◌++◌, length, take, drop, length-take,
  length-drop, take-append-drop, min, append_assoc, arith, max_size, Outcome, ok, err, assertion,
  too_long, ◌>>=◌, if◌then◌else◌, ltb, leb, le→leb, lt→leb_false, add_size,
}
use starry.Buffer.{Buffer, cheap_prepend, writable_bytes, write_ahead, append}
use starry.Buffer.Contents.{Inv, contents, length-contents, writable_lem, view-splice}
use starry.Buffer.Space.{copy_to-ok, length-splice}
use starry.Buffer.Outcomes.{Appended, append-outcome}

abbrev pub extra_size : ℕ
extra_size = 65536

-- What `::readv` returns: the bytes that it put into the vectors, in order, or an error number.
pub data Received : Type 0 where
  received : List ℕ → Received
  failed : ℕ → Received

-- The bytes that the vectors passed to `::readv` hold.
abbrev pub read_capacity : Buffer → ℕ
read_capacity b = writable_bytes b + (if ltb (writable_bytes b) extra_size then extra_size else 0)

-- The bytes that `::readv` writes into the storage, and the write index behind them.
unfoldable pub fill : Buffer → List ℕ → ℕ → Outcome Buffer
fill b bytes end = do b' ← write_ahead b bytes; ok (record b' { writer_index = end })

-- The result of `::readv` is handed on: the count, or the saved error number.
unfoldable pub read_fd : Buffer → Received → Outcome (Received × Buffer)
read_fd b (failed errno) = ok (failed errno, b)
read_fd b (received bytes) = do
  b' ←
      if leb (length bytes) (writable_bytes b)
      then fill b bytes (add_size b.writer_index (length bytes))
      else (fill b (take (writable_bytes b) bytes) (length b.bytes) >>= λ full.
          append full (drop (writable_bytes b) bytes))
  ok (received bytes, b')

fill-lem :
    (b : Buffer) (new : List ℕ) (end : ℕ)
    → Inv b
    → b.writer_index + length new ≤ length b.bytes
    → end ≡ b.writer_index + length new
    → (b' : Buffer) × (fill b new end ≡ ok b')
      × Inv b'
      × (contents b' ≡ contents b ++ new)
      × (b'.writer_index ≡ end)
      × (b'.reader_index ≡ b.reader_index)
      × (length b'.bytes ≡ length b.bytes)
unfolding fill write_ahead
fill-lem b new end v room e =
    let bs : List ℕ =
      take b.writer_index b.bytes ++ (new ++ drop (b.writer_index + length new) b.bytes) in
    let ls : length bs ≡ length b.bytes = length-splice b.bytes b.writer_index new room in
    (
      record b { bytes = bs; writer_index = end },
      rw (copy_to-ok b.bytes b.writer_index new room) refl,
      record {
        ordered = omega arith;
        inside = omega arith;
        reserved = omega arith;
        small = omega arith;
      },
      ap (λ k. take (k - b.reader_index) (drop b.reader_index bs)) e
          ∙ view-splice b.reader_index b.writer_index b.bytes new
              (drop (b.writer_index + length new) b.bytes) v.ordered v.inside,
      refl,
      refl,
      ls,
    )

-- What `readFd` can end in after `::readv` has returned the bytes `new`.
pub data ReadFd (b : Buffer) (new : List ℕ) (r : Outcome (Received × Buffer)) : Type 0 where
  read :
      (b' : Buffer)
      → r ≡ ok (received new, b')
      → Inv b'
      → contents b' ≡ contents b ++ new
      → ReadFd b new r
  asserted :
      r ≡ err assertion
      → length b.bytes < b.writer_index + length new
      → b.writer_index + length new + cheap_prepend ≤ length b.bytes + b.reader_index
      → length b.bytes ≤ b.reader_index + cheap_prepend
      → ReadFd b new r
  refused :
      r ≡ err too_long
      → length b.bytes < b.writer_index + length new
      → max_size < b.writer_index + length new
      → ReadFd b new r

read_fd-fits :
    (b b' : Buffer) (new : List ℕ)
    → length new ≤ writable_bytes b
    → fill b new (add_size b.writer_index (length new)) ≡ ok b'
    → read_fd b (received new) ≡ ok (received new, b')
unfolding read_fd
read_fd-fits b b' new h e = rw (le→leb (length new) (writable_bytes b) h, e) refl

read_fd-overflows :
    (b full : Buffer) (new : List ℕ)
    → writable_bytes b < length new
    → fill b (take (writable_bytes b) new) (length b.bytes) ≡ ok full
    → read_fd b (received new)
      ≡ (append full (drop (writable_bytes b) new) >>= λ b'. ok (received new, b'))
unfolding read_fd
read_fd-overflows b full new h e = rw (lt→leb_false (length new) (writable_bytes b) h, e) refl

-- The storage is full, and what did not fit is appended.
record Full (b : Buffer) (new : List ℕ) (full : Buffer) : Type 0 where
  filled : fill b (take (writable_bytes b) new) (length b.bytes) ≡ ok full
  valid : Inv full
  view : contents full ≡ contents b ++ take (writable_bytes b) new
  written : full.writer_index ≡ length b.bytes
  unread : full.reader_index ≡ b.reader_index
  size : length full.bytes ≡ length b.bytes

fill-Full :
    (b : Buffer) (new : List ℕ)
    → Inv b
    → length b.bytes < b.writer_index + length new
    → (full : Buffer) × Full b new full
fill-Full b new v h =
    let k : ℕ = writable_bytes b in
    let w : k ≡ length b.bytes - b.writer_index = writable_lem b v in
    let lt : length (take k new) ≡ min k (length new) = length-take k new in
    let (full, e, vf, cf, wf, rf, lf) =
      fill-lem b (take k new) (length b.bytes) v (omega arith) (omega arith) in
    (full, record { filled = e; valid = vf; view = cf; written = wf; unread = rf; size = lf })

finish :
    (b full : Buffer) (new : List ℕ)
    → Inv b
    → length b.bytes < b.writer_index + length new
    → Full b new full
    → Appended full (drop (writable_bytes b) new) (append full (drop (writable_bytes b) new))
    → ReadFd b new (read_fd b (received new))
finish b full new v h s (Appended.extended b' e f v' c) =
    read b' (read_fd-overflows b full new (omega (arith, writable_lem b v)) s.filled ∙ rw e refl) v'
      (c
        ∙ ap (λ t. t ++ drop (writable_bytes b) new) s.view
        ∙ append_assoc (contents b) (take (writable_bytes b) new) (drop (writable_bytes b) new)
        ∙ ap (λ t. contents b ++ t) (take-append-drop (writable_bytes b) new))
finish b full new v h s (Appended.asserted e m few) =
    let ld = length-drop (writable_bytes b) new in
    let w = writable_lem b v in
    let sw = s.written in
    let su = s.unread in
    let sl = s.size in
    let lc = length-contents full s.valid in
    asserted (read_fd-overflows b full new (omega arith) s.filled ∙ rw e refl) h (omega arith)
      (omega arith)
finish b full new v h s (Appended.refused e g over) =
    let ld = length-drop (writable_bytes b) new in
    let w = writable_lem b v in
    let sw = s.written in
    refused (read_fd-overflows b full new (omega arith) s.filled ∙ rw e refl) h (omega arith)

overflow-le :
    (b : Buffer) (new : List ℕ)
    → length new ≤ read_capacity b
    → length (drop (writable_bytes b) new) ≤ max_size
overflow-le b new h = ground (arith, length-drop (writable_bytes b) new)

-- After `::readv` has filled the vectors with `new`, `readFd` leaves a valid buffer with exactly
-- those bytes behind the readable ones; or it stops at the assertion of `makeSpace`, when bytes
-- overflow into the stack, have to be moved and at most 8 would then be readable; or at the
-- length_error of the vector, when the old write index and `new` are together more than its limit.
pub read_fd-outcome :
    (b : Buffer) (new : List ℕ)
    → Inv b
    → length new ≤ read_capacity b
    → ReadFd b new (read_fd b (received new))
read_fd-outcome b new v limit = elim (dec_le (length new) (length b.bytes - b.writer_index)) [
  | yes h ↦
      let (b', e, v', c, _, _, _) =
        fill-lem b new (add_size b.writer_index (length new)) v (omega arith) (omega arith) in
      read b' (read_fd-fits b b' new (omega (arith, writable_lem b v)) e) v' c
  | no h ↦
      let (full, s) = fill-Full b new v (omega arith) in
      finish b full new v (omega arith) s
        (append-outcome full (drop (writable_bytes b) new) s.valid (overflow-le b new limit))
]
