-- ===== src/Buffer/Search.antt =====
-- starry/net/include/buffer.h: `findCRLF` and `findEOL`. A pointer is an index, `nullptr` is `none`.
use mathlib.Core.Option
use starry.Common.{
  ℕ, zero, suc, ◌+◌, ◌-◌, ◌≤◌, ◌<◌, ◌≡◌, refl, ap, ◌∙◌, Bool, true, false, ◌&&◌, List, [], ◌∷◌,
  length, take, drop, Option, none, some, Outcome, ok, ◌>>=◌, ◌>>◌, assert, if◌then◌else◌,
  Bool-cases, inl, inr, leb, ◌==◌, sub_size, add_size, arith, le→leb,
}
use starry.Buffer.{Buffer, readable_bytes, read_at}
use starry.Buffer.Contents.{Inv, contents, readable_lem}
use starry.Buffer.Space.{read_at-ok}
use starry.Buffer.Retrieve.{drop-view}

abbrev cr : ℕ
cr = 13

abbrev lf : ℕ
lf = 10

abbrev starts_with_lf : List ℕ → Bool
starts_with_lf [] = false
starts_with_lf (y ∷ ys) = y == lf

-- `std::search` for "\r\n": how far the first occurrence is from the start.
unfoldable pub search_crlf : List ℕ → Option ℕ
search_crlf [] = none
search_crlf (x ∷ xs) =
    if x == cr && starts_with_lf xs then some 0 else Option.map suc (search_crlf xs)

-- `memchr` for '\n'
unfoldable pub search_eol : List ℕ → Option ℕ
search_eol [] = none
search_eol (x ∷ xs) = if x == lf then some 0 else Option.map suc (search_eol xs)

unfoldable pub find_crlf_from : Buffer → ℕ → Outcome (Option ℕ)
find_crlf_from b start = do
  assert (leb b.reader_index start)
  assert (leb start b.writer_index)
  bytes ← read_at b.bytes start (sub_size b.writer_index start)
  ok (Option.map (add_size start) (search_crlf bytes))

-- The overload that starts at `peek()` has no assertions.
unfoldable pub find_crlf : Buffer → Outcome (Option ℕ)
find_crlf b = do
  bytes ← read_at b.bytes b.reader_index (readable_bytes b)
  ok (Option.map (add_size b.reader_index) (search_crlf bytes))

unfoldable pub find_eol : Buffer → Outcome (Option ℕ)
find_eol b = do
  bytes ← read_at b.bytes b.reader_index (readable_bytes b)
  ok (Option.map (add_size b.reader_index) (search_eol bytes))

unfoldable pub find_eol_from : Buffer → ℕ → Outcome (Option ℕ)
find_eol_from b start = do
  bytes ← read_at b.bytes start (sub_size b.writer_index start)
  ok (Option.map (add_size start) (search_eol bytes))

abbrev pub CrlfAt : List ℕ → ℕ → Type 0
CrlfAt xs n = take 2 (drop n xs) ≡ cr ∷ lf ∷ []

-- The first occurrence of "\r\n" in `xs`, or that there is none.
pub data FirstCrlf (xs : List ℕ) : Option ℕ → Type 0 where
  found : (n : ℕ) → CrlfAt xs n → ((m : ℕ) → m < n → ¬ CrlfAt xs m) → FirstCrlf xs (some n)
  absent : ((m : ℕ) → ¬ CrlfAt xs m) → FirstCrlf xs none

crlf_head_iff : (x : ℕ) (xs : List ℕ) → CrlfAt (x ∷ xs) 0 → (x == cr && starts_with_lf xs) ≡ true
crlf_head_iff x [] h = ground arith
crlf_head_iff x (y ∷ ys) h = ground arith

crlf_head : (x : ℕ) (xs : List ℕ) → (x == cr && starts_with_lf xs) ≡ true → CrlfAt (x ∷ xs) 0
crlf_head x [] h = ground arith
crlf_head x (y ∷ ys) h = ground arith

search_crlf-cons :
    (x : ℕ) (xs : List ℕ) (r : Option ℕ)
    → (x == cr && starts_with_lf xs) ≡ false
    → FirstCrlf xs r
    → FirstCrlf (x ∷ xs) (Option.map suc r)
search_crlf-cons x xs r miss (found n at first) = found (suc n) at (λ m. before m)
  where
    before : (m : ℕ) → m < suc n → ¬ CrlfAt (x ∷ xs) m
    before zero h c = cc (crlf_head_iff x xs c)
    before (suc m) h c = first m (omega arith) c
search_crlf-cons x xs r miss (absent never) = absent (λ m. nowhere m)
  where
    nowhere : (m : ℕ) → ¬ CrlfAt (x ∷ xs) m
    nowhere zero c = cc (crlf_head_iff x xs c)
    nowhere (suc m) c = never m c

pub search_crlf-FirstCrlf : (xs : List ℕ) → FirstCrlf xs (search_crlf xs)
unfolding search_crlf
search_crlf-FirstCrlf [] = absent (λ m. nowhere m)
  where
    nowhere : (m : ℕ) → ¬ CrlfAt [] m
    nowhere zero c = cc
    nowhere (suc m) c = cc
search_crlf-FirstCrlf (x ∷ xs) = elim (Bool-cases (x == cr && starts_with_lf xs)) [
  | inl hit ↦ rw hit (found 0 (crlf_head x xs hit) (λ m h. absurd (omega arith)))
  | inr miss ↦ rw miss (search_crlf-cons x xs (search_crlf xs) miss (search_crlf-FirstCrlf xs))
]

find_crlf_from_read :
    (b : Buffer) (start n : ℕ)
    → b.reader_index ≤ start
    → start ≤ b.writer_index
    → n ≡ sub_size b.writer_index start
    → start + n ≤ length b.bytes
    → find_crlf_from b start
      ≡ ok (Option.map (add_size start) (search_crlf (take n (drop start b.bytes))))
unfolding find_crlf_from
find_crlf_from_read b start n lo hi e k =
    rw
      (
        le→leb b.reader_index start lo,
        le→leb start b.writer_index hi,
        ← e,
        read_at-ok b.bytes start n k,
      )
      refl

-- `findCRLF(start)` gives the first "\r\n" of the readable bytes from `start` on, as an index, or
-- `nullptr` when there is none.
pub find_crlf_from_lem :
    (b : Buffer) (start : ℕ)
    → Inv b
    → b.reader_index ≤ start
    → start ≤ b.writer_index
    → (r : Option ℕ) × (find_crlf_from b start ≡ ok (Option.map (add_size start) r))
      × FirstCrlf (drop (start - b.reader_index) (contents b)) r
find_crlf_from_lem b start v lo hi =
    let view : drop (start - b.reader_index) (contents b)
        ≡ take (b.writer_index - start) (drop start b.bytes) =
      drop-view b.reader_index b.writer_index (start - b.reader_index) b.bytes (omega arith)
        v.inside
      ∙ ap (λ k. take (b.writer_index - k) (drop k b.bytes)) (omega arith) in
    (
      search_crlf (take (b.writer_index - start) (drop start b.bytes)),
      find_crlf_from_read b start (b.writer_index - start) lo hi (omega arith) (omega arith),
      rw view (search_crlf-FirstCrlf (take (b.writer_index - start) (drop start b.bytes))),
    )

-- `findCRLF()` gives the first "\r\n" of the readable bytes, as an index, or `nullptr` when there
-- is none.
pub find_crlf_lem :
    (b : Buffer)
    → Inv b
    → (r : Option ℕ) × (find_crlf b ≡ ok (Option.map (add_size b.reader_index) r))
      × FirstCrlf (contents b) r
unfolding find_crlf
find_crlf_lem b v = (
  search_crlf (contents b),
  rw
      (
        readable_lem b v,
        read_at-ok b.bytes b.reader_index (b.writer_index - b.reader_index) (omega arith),
      )
      refl,
  search_crlf-FirstCrlf (contents b),
)
