-- ===== src/TimerQueue/Sets.antt =====
-- std::set of pairs of numbers, as an ordered list: what insert, erase, find and lower_bound do.
use starry.Common.{
  ℕ, ◌≡◌, ◌≢◌, ap, Bool, true, false, ◌&&◌, ◌||◌, List, [], ◌∷◌, ltb, ◌==◌, if◌then◌else◌, arith,
}

abbrev pub Entry : Type 0
Entry = ℕ × ℕ

abbrev pub same : Entry → Entry → Bool
same (a, b) (c, d) = a == c && b == d

abbrev pub before : Entry → Entry → Bool
before (a, b) (c, d) = ltb a c || (a == c && ltb b d)

unfoldable pub has : Entry → List Entry → Bool
has e [] = false
has e (x ∷ xs) = same x e || has e xs

unfoldable pub insert_entry : Entry → List Entry → List Entry
insert_entry e [] = e ∷ []
insert_entry e (x ∷ xs) =
    if before e x then e ∷ x ∷ xs else if before x e then x ∷ insert_entry e xs else x ∷ xs

unfoldable pub erase_entry : Entry → List Entry → List Entry
erase_entry e [] = []
erase_entry e (x ∷ xs) = if same x e then xs else x ∷ erase_entry e xs

-- The elements before the lower bound of `s`, and those from it on.
unfoldable pub below : Entry → List Entry → List Entry
below s [] = []
below s (x ∷ xs) = if before x s then x ∷ below s xs else []

unfoldable pub from : Entry → List Entry → List Entry
from s [] = []
from s (x ∷ xs) = if before x s then from s xs else x ∷ xs

abbrev pub IsAbove : Entry → List Entry → Type 0
IsAbove x [] = Unit {0}
IsAbove x (y ∷ ys) = (before x y ≡ true) × IsAbove x ys

abbrev pub IsSorted : List Entry → Type 0
IsSorted [] = Unit {0}
IsSorted (x ∷ xs) = IsAbove x xs × IsSorted xs

pub before_trans : (x y z : Entry) → before x y ≡ true → before y z ≡ true → before x z ≡ true
before_trans (a, b) (c, d) (e, f) p q = ground arith

pub IsAbove-le : (x y : Entry) (ys : List Entry) → before x y ≡ true → IsAbove y ys → IsAbove x ys
IsAbove-le x y [] p h = tt
IsAbove-le x y (z ∷ zs) p (q, h) = (before_trans x y z p q, IsAbove-le x y zs p h)

pub same-eq : (x y : Entry) → same x y ≡ true → x ≡ y
same-eq (a, b) (c, d) h = ground arith

pub before-same : (x y : Entry) → before x y ≡ true → same x y ≡ false
before-same (a, b) (c, d) h = ground arith

pub same-total : (x y : Entry) → before x y ≡ false → before y x ≡ false → same y x ≡ true
same-total (a, b) (c, d) p q = ground arith

pub same_refl : (x : Entry) → same x x ≡ true
same_refl (a, b) = ground arith

pub same-false : (x y : Entry) → same x y ≡ false → x ≢ y
same-false x y h e = cc (ap (same x) e, same_refl x)
