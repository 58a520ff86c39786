-- ===== src/Prelude/Order.antt =====
-- The order of native texts: code point by code point, as Python compares its strings.
use Prim.Native.Char.{code}
use Prim.Native.Nat.{ℕ, compare as compare_ℕ, Ordering}
use Prim.Native.String.{String, compare, then}
use Prim.Native.String.compare
use mathlib.Core.Path.{◌≡◌, refl}
use mathlib.Core.Bool.{Bool, true, false}
use native.Mathlib.Omega.{arith}

abbrev pub text_gt : String → String → Bool
text_gt s t = elim (compare s t) [ Ordering.gt ↦ true | _ ↦ false ]

abbrev opposite : Ordering → Ordering
opposite Ordering.lt = Ordering.gt
opposite Ordering.eq = Ordering.eq
opposite Ordering.gt = Ordering.lt

compare_ℕ-opposite : (m n : ℕ) → compare_ℕ n m ≡ opposite (compare_ℕ m n)
compare_ℕ-opposite m n = ground arith

then-opposite : (a b : Ordering) → then (opposite a) (opposite b) ≡ opposite (then a b)
then-opposite Ordering.lt b = refl
then-opposite Ordering.eq b = refl
then-opposite Ordering.gt b = refl

compare-opposite : (s t : String) → compare t s ≡ opposite (compare s t)
compare-opposite String.[] String.[] = rw compare.nil-nil
compare-opposite String.[] (String.◌∷◌ d t) = rw (compare.nil-cons, compare.cons-nil)
compare-opposite (String.◌∷◌ c s) String.[] = rw (compare.nil-cons, compare.cons-nil)
compare-opposite (String.◌∷◌ c s) (String.◌∷◌ d t) =
    rw
      (
        compare.cons-cons d c t s,
        compare.cons-cons c d s t,
        compare_ℕ-opposite (code c) (code d),
        compare-opposite s t,
      )
      (then-opposite (compare_ℕ (code c) (code d)) (compare s t))

-- Of two texts at most one is the greater.
pub text_gt_asymm : (s t : String) → text_gt s t ≡ true → text_gt t s ≡ false
text_gt_asymm s t h = ground (arith, compare-opposite s t)
