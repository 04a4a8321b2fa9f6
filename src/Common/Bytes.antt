-- ===== src/Common/Bytes.antt =====
-- Byte strings: their equality, and the order of std::string.
use Prim.Native.Nat.{ℕ}
use mathlib.Core.Path.{◌≡◌, refl}
use mathlib.Core.Logic.{◌↔◌}
use mathlib.Core.Bool.{Bool, true, false, ◌&&◌, ◌||◌}
use mathlib.Core.List.{List, [], ◌∷◌}
use native.Mathlib.Omega.{arith}
use starry.Common.Tests.{ltb, ◌==◌}

abbrev pub same_bytes : List ℕ → List ℕ → Bool
same_bytes [] [] = true
same_bytes [] (y ∷ ys) = false
same_bytes (x ∷ xs) [] = false
same_bytes (x ∷ xs) (y ∷ ys) = x == y && same_bytes xs ys

abbrev pub bytes_ltb : List ℕ → List ℕ → Bool
bytes_ltb [] [] = false
bytes_ltb [] (y ∷ ys) = true
bytes_ltb (x ∷ xs) [] = false
bytes_ltb (x ∷ xs) (y ∷ ys) = ltb x y || (x == y && bytes_ltb xs ys)

pub same_bytes_iff : (xs ys : List ℕ) → (same_bytes xs ys ≡ true) ↔ (xs ≡ ys)
same_bytes_iff [] [] = (λ h. refl, λ h. refl)
same_bytes_iff [] (y ∷ ys) = (λ h. absurd (cc), λ h. absurd (cc))
same_bytes_iff (x ∷ xs) [] = (λ h. absurd (cc), λ h. absurd (cc))
same_bytes_iff (x ∷ xs) (y ∷ ys) =
    (λ h. ground (arith, (same_bytes_iff xs ys).0), λ h. ground (arith, (same_bytes_iff xs ys).1))

pub same_bytes_refl : (xs : List ℕ) → same_bytes xs xs ≡ true
same_bytes_refl xs = (same_bytes_iff xs xs).1 refl

pub bytes_ltb_irrefl : (xs : List ℕ) → bytes_ltb xs xs ≡ false
bytes_ltb_irrefl [] = refl
bytes_ltb_irrefl (x ∷ xs) = ground (arith, bytes_ltb_irrefl xs)

pub bytes_ltb_trans :
    (xs ys zs : List ℕ) → bytes_ltb xs ys ≡ true → bytes_ltb ys zs ≡ true → bytes_ltb xs zs ≡ true
bytes_ltb_trans [] [] zs h k = absurd (cc)
bytes_ltb_trans [] (y ∷ ys) [] h k = absurd (cc)
bytes_ltb_trans [] (y ∷ ys) (z ∷ zs) h k = refl
bytes_ltb_trans (x ∷ xs) [] zs h k = absurd (cc)
bytes_ltb_trans (x ∷ xs) (y ∷ ys) [] h k = absurd (cc)
bytes_ltb_trans (x ∷ xs) (y ∷ ys) (z ∷ zs) h k = ground (arith, bytes_ltb_trans xs ys zs)

-- Of two strings one is smaller, or they are the same.
pub bytes_total : (xs ys : List ℕ) → bytes_ltb xs ys ≡ false → bytes_ltb ys xs ≡ false → xs ≡ ys
bytes_total [] [] h k = refl
bytes_total [] (y ∷ ys) h k = absurd (cc)
bytes_total (x ∷ xs) [] h k = absurd (cc)
bytes_total (x ∷ xs) (y ∷ ys) h k = ground (arith, bytes_total xs ys)
