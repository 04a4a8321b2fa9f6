-- ===== src/TimerQueue/SetLaws.antt =====
-- What insert, erase and lower_bound do to the elements, the order and the size of a std::set.
use starry.Common.{
  ℕ, ◌≢◌, ◌+◌, ◌≡◌, refl, sym, ap, subst, ◌∙◌, ◌⊎◌, inl, inr, Bool, true, false, not, ◌&&◌, ◌||◌,
  List, [], ◌∷◌, ◌++◌, length, if_ind, Bool-cases, arith,
}
use starry.TimerQueue.Sets.{
  Entry, same, before, has, insert_entry, erase_entry, below, from, IsAbove, IsSorted, before_trans,
  IsAbove-le, same-eq, before-same, same-total,
}

IsAbove-has : (x e : Entry) (ys : List Entry) → IsAbove x ys → has e ys ≡ true → before x e ≡ true
unfolding has
IsAbove-has x e [] h q = absurd (cc)
IsAbove-has x e (y ∷ ys) (p, h) q = elim (Bool-cases (same y e)) [
  | inl s ↦ subst (λ t. before x t ≡ true) (same-eq y e s) p
  | inr s ↦ IsAbove-has x e ys h (rw s at q)
]

or_swap : (a b c : Bool) → (a || (b || c)) ≡ (b || (a || c))
or_swap a b c = ground arith

or_twice : (a b : Bool) → (a || b) ≡ (a || (a || b))
or_twice a b = ground arith

or_false : (a b : Bool) → (a || b) ≡ false → b ≡ false
or_false a b h = ground arith

and_false : (a : Bool) → false ≡ (a && false)
and_false a = ground arith

-- A set that lacks the element gains it, and nothing else changes.
pub has-insert_entry :
    (e f : Entry) (xs : List Entry) → has f (insert_entry e xs) ≡ (same e f || has f xs)
unfolding has insert_entry
has-insert_entry e f [] = refl
has-insert_entry e f (x ∷ xs) = elim (Bool-cases (before e x)) [
  | inl p ↦ rw p refl
  | inr p ↦ elim (Bool-cases (before x e)) [
    | inl q ↦ rw (p, q, has-insert_entry e f xs) (or_swap (same x f) (same e f) (has f xs))
    | inr q ↦
        rw (p, q)
          (subst (λ t. (same x f || has f xs) ≡ (same t f || (same x f || has f xs)))
            (same-eq x e (same-total e x p q)) (or_twice (same x f) (has f xs)))
  ]
]

IsAbove-insert_entry :
    (y e : Entry) (xs : List Entry)
    → before y e ≡ true
    → IsAbove y xs
    → IsAbove y (insert_entry e xs)
unfolding insert_entry
IsAbove-insert_entry y e [] p h = (p, tt)
IsAbove-insert_entry y e (x ∷ xs) p (q, h) =
    if_ind (IsAbove y) (before e x) (p, (q, h))
      (if_ind (IsAbove y) (before x e) (q, IsAbove-insert_entry y e xs p h) (q, h))

pub insert_entry-IsSorted :
    (e : Entry) (xs : List Entry) → IsSorted xs → IsSorted (insert_entry e xs)
unfolding insert_entry
insert_entry-IsSorted e [] s = (tt, tt)
insert_entry-IsSorted e (x ∷ xs) (h, s) = elim (Bool-cases (before e x)) [
  | inl p ↦ rw p ((p, IsAbove-le e x xs p h), (h, s))
  | inr p ↦ elim (Bool-cases (before x e)) [
    | inl q ↦ rw (p, q) (IsAbove-insert_entry x e xs q h, insert_entry-IsSorted e xs s)
    | inr q ↦ rw (p, q) (h, s)
  ]
]

pub length-insert_entry :
    (e : Entry) (xs : List Entry) → has e xs ≡ false → length (insert_entry e xs) ≡ length xs + 1
unfolding has insert_entry
length-insert_entry e [] h = refl
length-insert_entry e (x ∷ xs) h = elim (Bool-cases (before e x)) [
  | inl p ↦ rw p (omega arith)
  | inr p ↦ elim (Bool-cases (before x e)) [
    | inl q ↦ rw (p, q) (omega (arith, length-insert_entry e xs (or_false (same x e) (has e xs) h)))
    | inr q ↦ absurd (cc (same-total e x p q, h))
  ]
]

-- An erased element is gone, and nothing else changes.
pub has-erase_entry :
    (e f : Entry) (xs : List Entry)
    → IsSorted xs
    → has f (erase_entry e xs) ≡ (not (same e f) && has f xs)
unfolding has erase_entry
has-erase_entry e f [] s = and_false (not (same e f))
has-erase_entry e f (x ∷ xs) (h, s) = elim (Bool-cases (same x e)) [
  | inl p ↦ rw p (
      subst (λ t. has f xs ≡ (not (same t f) && (same x f || has f xs))) (same-eq x e p)
        (gone f x xs h))
  | inr p ↦ rw (p, has-erase_entry e f xs s) (kept x e f xs p)
]
  where
    gone :
        (f x : Entry) (xs : List Entry)
        → IsAbove x xs
        → has f xs ≡ (not (same x f) && (same x f || has f xs))
    gone f x xs h = elim (Bool-cases (same x f)) [
      | inr q ↦ rw q refl
      | inl q ↦ rw q (elim (Bool-cases (has f xs)) [
        | inr r ↦ r
        | inl r ↦ absurd (cc (before-same x f (IsAbove-has x f xs h r), q))
      ])
    ]

    kept :
        (x e f : Entry) (xs : List Entry)
        → same x e ≡ false
        → (same x f || (not (same e f) && has f xs)) ≡ (not (same e f) && (same x f || has f xs))
    kept x e f xs p = elim (Bool-cases (same e f)) [
      | inr q ↦ rw q refl
      | inl q ↦
          let r : same x f ≡ false = subst (λ t. same x t ≡ false) (same-eq e f q) p in
          rw (q, r) refl
    ]

IsAbove-erase_entry : (y e : Entry) (xs : List Entry) → IsAbove y xs → IsAbove y (erase_entry e xs)
unfolding erase_entry
IsAbove-erase_entry y e [] h = tt
IsAbove-erase_entry y e (x ∷ xs) (q, h) =
    if_ind (IsAbove y) (same x e) h (q, IsAbove-erase_entry y e xs h)

pub erase_entry-IsSorted : (e : Entry) (xs : List Entry) → IsSorted xs → IsSorted (erase_entry e xs)
unfolding erase_entry
erase_entry-IsSorted e [] s = tt
erase_entry-IsSorted e (x ∷ xs) (h, s) =
    if_ind IsSorted (same x e) s (IsAbove-erase_entry x e xs h, erase_entry-IsSorted e xs s)

pub length-erase_entry :
    (e : Entry) (xs : List Entry) → has e xs ≡ true → length (erase_entry e xs) + 1 ≡ length xs
unfolding has erase_entry
length-erase_entry e [] h = absurd (cc)
length-erase_entry e (x ∷ xs) h = elim (Bool-cases (same x e)) [
  | inl p ↦ rw p (omega arith)
  | inr p ↦ rw p (omega (arith, length-erase_entry e xs (rw p at h)))
]

-- The two parts of a set at a bound.
pub below-from : (s : Entry) (xs : List Entry) → below s xs ++ from s xs ≡ xs
unfolding below from
below-from s [] = refl
below-from s (x ∷ xs) = elim (Bool-cases (before x s)) [
  | inl p ↦ rw p (ap (λ t. x ∷ t) (below-from s xs))
  | inr p ↦ rw p refl
]

pub has-below : (s e : Entry) (xs : List Entry) → has e (below s xs) ≡ true → before e s ≡ true
unfolding has below
has-below s e [] h = absurd (cc)
has-below s e (x ∷ xs) h = elim (Bool-cases (before x s)) [
  | inr p ↦ absurd (cc (rw p at h))
  | inl p ↦ elim (Bool-cases (same x e)) [
    | inl q ↦ subst (λ t. before t s ≡ true) (same-eq x e q) p
    | inr q ↦ has-below s e xs (rw (p, q) at h)
  ]
]

pub has-from :
    (s e : Entry) (xs : List Entry) → IsSorted xs → has e (from s xs) ≡ true → before e s ≡ false
unfolding has from
has-from s e [] o h = absurd (cc)
has-from s e (x ∷ xs) (a, o) h = elim (Bool-cases (before x s)) [
  | inl p ↦ has-from s e xs o (rw p at h)
  | inr p ↦ elim (Bool-cases (same x e)) [
    | inl q ↦ subst (λ t. before t s ≡ false) (same-eq x e q) p
    | inr q ↦ not_before x e s p (IsAbove-has x e xs a (rw (p, q) at h))
  ]
]
  where
    not_before : (x e s : Entry) → before x s ≡ false → before x e ≡ true → before e s ≡ false
    not_before x e s p q = elim (Bool-cases (before e s)) [
      | inr r ↦ r
      | inl r ↦ absurd (cc (before_trans x e s q r, p))
    ]

pub from-IsSorted : (s : Entry) (xs : List Entry) → IsSorted xs → IsSorted (from s xs)
unfolding from
from-IsSorted s [] o = tt
from-IsSorted s (x ∷ xs) (a, o) = if_ind IsSorted (before x s) (from-IsSorted s xs o) (a, o)

pub has-same : (e f : Entry) (xs : List Entry) → same e f ≡ true → has f (insert_entry e xs) ≡ true
has-same e f xs h = has-insert_entry e f xs ∙ ap (λ b. b || has f xs) h

pub has-kept : (e f : Entry) (xs : List Entry) → has f xs ≡ true → has f (insert_entry e xs) ≡ true
has-kept e f xs h = has-insert_entry e f xs ∙ ap (λ b. same e f || b) h ∙ or_true (same e f)
  where
    or_true : (b : Bool) → (b || true) ≡ true
    or_true b = ground arith

pub has-either :
    (e f : Entry) (xs : List Entry)
    → has f (insert_entry e xs) ≡ true
    → (same e f ≡ true) ⊎ (has f xs ≡ true)
has-either e f xs h = either (same e f) (has f xs) (sym (has-insert_entry e f xs) ∙ h)
  where
    either : (b c : Bool) → (b || c) ≡ true → (b ≡ true) ⊎ (c ≡ true)
    either true c h = inl refl
    either false c h = inr h

pub has-dropped :
    (e f : Entry) (xs : List Entry)
    → IsSorted xs
    → has f (erase_entry e xs) ≡ true
    → (same e f ≡ false) × (has f xs ≡ true)
has-dropped e f xs o h = both (same e f) (has f xs) (sym (has-erase_entry e f xs o) ∙ h)
  where
    both : (b c : Bool) → (not b && c) ≡ true → (b ≡ false) × (c ≡ true)
    both true c h = absurd (cc)
    both false c h = (refl, h)

pub has-undropped :
    (e f : Entry) (xs : List Entry)
    → IsSorted xs
    → same e f ≡ false
    → has f xs ≡ true
    → has f (erase_entry e xs) ≡ true
has-undropped e f xs o p h = has-erase_entry e f xs o ∙ ap (λ b. not b && has f xs) p ∙ h

pub same-second_ne : (x a y b : ℕ) → a ≢ b → same (x, a) (y, b) ≡ false
same-second_ne x a y b h = ground arith

pub same-first_ne : (a x b y : ℕ) → a ≢ b → same (a, x) (b, y) ≡ false
same-first_ne a x b y h = ground arith
