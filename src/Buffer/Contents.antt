-- ===== src/Buffer/Contents.antt =====
-- The abstract view of a buffer: the readable bytes; and its representation invariant.
use starry.Common.{
  ℕ, ◌+◌, ◌-◌, ◌≤◌, ◌≡◌, refl, ap, sym, ◌∙◌, List, [], ◌∷◌, ◌++◌, length, take, drop, replicate,
  length-take, length-drop, length-replicate, take-append_ge, take-append_le, drop-append_le,
  take-le, take-nil, zero, suc, arith, max_size,
}
use starry.Buffer.{Buffer, cheap_prepend, init, readable_bytes, writable_bytes}

abbrev pub contents : Buffer → List ℕ
contents b = take (b.writer_index - b.reader_index) (drop b.reader_index b.bytes)

pub record Inv (b : Buffer) : Type 0 where
  pub ordered : b.reader_index ≤ b.writer_index
  pub inside : b.writer_index ≤ length b.bytes
  pub reserved : cheap_prepend ≤ length b.bytes
  pub small : length b.bytes ≤ max_size

pub length-contents : (b : Buffer) → Inv b → length (contents b) ≡ b.writer_index - b.reader_index
length-contents b v = omega (
  arith,
  length-take (b.writer_index - b.reader_index) (drop b.reader_index b.bytes),
  length-drop b.reader_index b.bytes,
)

pub readable-length : (b : Buffer) → Inv b → readable_bytes b ≡ length (contents b)
readable-length b v = omega (arith, length-contents b v)

pub readable_lem : (b : Buffer) → Inv b → readable_bytes b ≡ b.writer_index - b.reader_index
readable_lem b v = omega arith

pub writable_lem : (b : Buffer) → Inv b → writable_bytes b ≡ length b.bytes - b.writer_index
writable_lem b v = omega arith

pub init-Inv : (n : ℕ) → cheap_prepend + n ≤ max_size → Inv (init n)
unfolding init
init-Inv n h =
    let e : length (replicate {A = ℕ} (cheap_prepend + n) 0) ≡ cheap_prepend + n =
      length-replicate {A = ℕ} (cheap_prepend + n) 0 in
    record {
      ordered = omega arith;
      inside = omega (arith, e);
      reserved = omega (arith, e);
      small = omega (arith, e);
    }

pub contents-init : (n : ℕ) → contents (init n) ≡ []
unfolding init
contents-init n = refl

pub drop-take {ℓ} :
    {A : Type ℓ} (r w : ℕ) (xs : List A) → r ≤ w → drop r (take w xs) ≡ take (w - r) (drop r xs)
drop-take zero w xs h = ap (λ k. take k xs) (omega arith)
drop-take (suc r) zero xs h = absurd (omega arith)
drop-take (suc r) (suc w) [] h = sym (take-nil _ (suc w - suc r))
drop-take (suc r) (suc w) (x ∷ xs) h =
    drop-take r w xs (omega arith) ∙ ap (λ k. take k (drop r xs)) {y = suc w - suc r} (omega arith)

-- Writing `ys` at the write index and moving that index extends the view by `ys`.
pub view-splice :
    (r w : ℕ) (xs ys zs : List ℕ)
    → r ≤ w
    → w ≤ length xs
    → take (w + length ys - r) (drop r (take w xs ++ (ys ++ zs))) ≡ take (w - r) (drop r xs) ++ ys
view-splice r w xs ys zs h k =
    ap (take (w + length ys - r)) (
      drop-append_le r (take w xs) (ys ++ zs) (omega (arith, length-take w xs))
      ∙ ap (λ t. t ++ (ys ++ zs)) (drop-take r w xs h))
    ∙ take-append_ge (w + length ys - r) (length ys) (take (w - r) (drop r xs)) (ys ++ zs)
        (omega (arith, length-take (w - r) (drop r xs), length-drop r xs))
    ∙ ap (λ t. take (w - r) (drop r xs) ++ t)
        (take-append_le (length ys) ys zs (omega arith) ∙ take-le (length ys) ys (omega arith))

-- Bytes added behind the storage are not seen.
pub view-append :
    (r w : ℕ) (xs zs : List ℕ)
    → r ≤ w
    → w ≤ length xs
    → take (w - r) (drop r (xs ++ zs)) ≡ take (w - r) (drop r xs)
view-append r w xs zs h k =
    ap (take (w - r)) (drop-append_le r xs zs (omega arith))
    ∙ take-append_le (w - r) (drop r xs) zs (omega (arith, length-drop r xs))

-- Nor is what stands behind the write index.
pub view-front :
    (r w : ℕ) (xs zs : List ℕ)
    → r ≤ w
    → w ≤ length xs
    → take (w - r) (drop r (take w xs ++ zs)) ≡ take (w - r) (drop r xs)
view-front r w xs zs h k =
    let l = length-take w xs in
    ap (take (w - r)) (drop-append_le r (take w xs) zs (omega arith))
    ∙ take-append_le (w - r) (drop r (take w xs)) zs (omega (arith, length-drop r (take w xs)))
    ∙ ap (take (w - r)) (drop-take r w xs h)
    ∙ take-le (w - r) (take (w - r) (drop r xs)) (omega (arith, length-take (w - r) (drop r xs)))
