-- ===== src/Buffer/Numbers/Laws.antt =====
-- Integers written to a buffer are read back.
use native.Mathlib.Nat.{pow-suc}
use starry.Common.{
  ℕ, zero, suc, ◌+◌, ◌-◌, ◌*◌, ◌/◌, ◌%◌, ◌^◌, ◌≤◌, ◌<◌, ◌≡◌, refl, ap, sym, subst, ◌∙◌, List, [],
  ◌∷◌, ◌++◌, length, take, drop, length-append, append-nil, take-take, take-append_le, take-le,
  drop-append_ge, arith, max_size, ok, err, assertion, le→leb, lt→leb_false,
}
use starry.Buffer.{Buffer}
use starry.Buffer.Contents.{Inv, contents, length-contents, readable-length}
use starry.Buffer.Space.{read_at-ok}
use starry.Buffer.Append.{Fits, append_lem}
use starry.Buffer.Retrieve.{retrieve_lem}
use starry.Buffer.Front.{prepend_lem}
use starry.Buffer.Numbers.{to_be, from_be, from_be_acc, append_int, prepend_int, peek_int, read_int}

pub length-to_be : (k x : ℕ) → length (to_be k x) ≡ k
unfolding to_be
length-to_be zero x = refl
length-to_be (suc k) x =
    omega (arith, length-append (to_be k (x / 256)) ((x % 256) ∷ []), length-to_be k (x / 256))

from_be_acc-append :
    (acc : ℕ) (xs ys : List ℕ) → from_be_acc acc (xs ++ ys) ≡ from_be_acc (from_be_acc acc xs) ys
unfolding from_be_acc
from_be_acc-append acc [] ys = refl
from_be_acc-append acc (x ∷ xs) ys = from_be_acc-append (acc * 256 + x) xs ys

-- A number of at most `k` bytes is its bytes.
pub from_be-to_be : (k x : ℕ) → x < 256 ^ k → from_be (to_be k x) ≡ x
unfolding from_be to_be
from_be-to_be zero x h = omega arith
from_be-to_be (suc k) x h =
    from_be_acc-append 0 (to_be k (x / 256)) ((x % 256) ∷ [])
    ∙ ap (λ n. n * 256 + x % 256) (from_be-to_be k (x / 256) (omega (arith, pow-suc 256 k)))
    ∙ omega arith

take-view :
    (k : ℕ) (b : Buffer)
    → k ≤ b.writer_index - b.reader_index
    → take k (drop b.reader_index b.bytes) ≡ take k (contents b)
take-view k b h =
    sym (take-take k (b.writer_index - b.reader_index) (drop b.reader_index b.bytes) h)

-- Peeking reads the first `k` readable bytes.
pub peek_int_lem :
    (k : ℕ) (b : Buffer)
    → Inv b
    → k ≤ length (contents b)
    → peek_int k b ≡ ok (from_be (take k (contents b)))
unfolding peek_int
peek_int_lem k b v h =
    let l = length-contents b v in
    rw
      (
        readable-length b v,
        le→leb k (length (contents b)) h,
        read_at-ok b.bytes b.reader_index k (omega arith),
      )
      (ap (λ t. ok (from_be t)) (take-view k b (omega arith)))

-- With fewer than `k` bytes readable it stops.
pub peek_int-assertion :
    (k : ℕ) (b : Buffer) → Inv b → length (contents b) < k → peek_int k b ≡ err assertion
unfolding peek_int
peek_int-assertion k b v h = rw (readable-length b v, lt→leb_false k (length (contents b)) h) refl

-- Reading an integer off the front of the readable bytes returns it and leaves the rest.
pub read_int_lem :
    (k x : ℕ) (b : Buffer) (rest : List ℕ)
    → Inv b
    → x < 256 ^ k
    → contents b ≡ to_be k x ++ rest
    → (b' : Buffer) × (read_int k b ≡ ok (x, b')) × Inv b' × (contents b' ≡ rest)
unfolding read_int
read_int_lem k x b rest v h e =
    let n = length-to_be k x in
    let len : length (contents b) ≡ k + length rest =
      ap length e ∙ omega (arith, length-append (to_be k x) rest) in
    let (b', e', v', c) = retrieve_lem b k v (omega arith) in
    (
      b',
      rw (peek_int_lem k b v (omega arith), e')
          (ap (λ t. ok (t, b'))
            (ap (λ t. from_be (take k t)) e
              ∙ ap from_be (
                  take-append_le k (to_be k x) rest (omega arith)
                  ∙ take-le k (to_be k x) (omega arith))
              ∙ from_be-to_be k x h)),
      v',
      c ∙ ap (drop k) e ∙ drop-append_ge k 0 (to_be k x) rest (omega arith),
    )

-- An integer of `k` bytes that fits in front of the readable bytes can be prepended and is read
-- back, and what was readable before remains.
pub read_int-prepend_int :
    (k x : ℕ) (b : Buffer)
    → Inv b
    → x < 256 ^ k
    → k ≤ b.reader_index
    → (b' b'' : Buffer) × (prepend_int k b x ≡ ok b')
      × (read_int k b' ≡ ok (x, b''))
      × (contents b'' ≡ contents b)
unfolding prepend_int
read_int-prepend_int k x b v h room =
    let (b', e, v', c) = prepend_lem b (to_be k x) v (omega (arith, length-to_be k x)) in
    let (b'', e', v'', c') = read_int_lem k x b' (contents b) v' h c in (b', b'', e, e', c')

-- An integer of `k` bytes that fits behind a valid buffer with nothing to read can be appended
-- and is read back, and nothing remains.
pub read_int-append_int :
    (k x : ℕ) (b : Buffer)
    → Inv b
    → k ≤ max_size
    → x < 256 ^ k
    → contents b ≡ []
    → Fits b k
    → (b' b'' : Buffer) × (append_int k b x ≡ ok b')
      × (read_int k b' ≡ ok (x, b''))
      × (contents b'' ≡ [])
unfolding append_int
read_int-append_int k x b v small h none_left room =
    let l = length-to_be k x in
    let (b', e, v', c) = append_lem b (to_be k x) v (omega arith) (subst (Fits b) (sym l) room) in
    let (b'', e', v'', c') =
      read_int_lem k x b' [] v' h
        (c ∙ ap (λ t. t ++ to_be k x) none_left ∙ sym (append-nil (to_be k x))) in
    (b', b'', e, e', c')
