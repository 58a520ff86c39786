-- ===== src/Prelude/Equality.antt =====
-- Python's `==` on tuples, lists and `None`, given that of the members.
use mathlib.Core.Path.{◌≡◌, refl}
use mathlib.Core.Bool.{Bool, true, false, ◌&&◌}
use mathlib.Core.List.{List, [], ◌∷◌}
use mathlib.Core.Option.{Option, none, some}
use native.Mathlib.Omega.{arith}

module _ {ℓ} {A : Type ℓ} (eq : A → A → Bool) where
  abbrev pub list_eq : List A → List A → Bool
  list_eq [] [] = true
  list_eq (x ∷ xs) (y ∷ ys) = eq x y && list_eq xs ys
  list_eq _ _ = false

  abbrev pub option_eq : Option A → Option A → Bool
  option_eq none none = true
  option_eq (some x) (some y) = eq x y
  option_eq _ _ = false

  module _ (eq_refl : (x : A) → eq x x ≡ true) where
    pub list_eq_refl : (xs : List A) → list_eq xs xs ≡ true
    list_eq_refl [] = refl
    list_eq_refl (x ∷ xs) = ground (arith, eq_refl x, list_eq_refl xs)

    pub option_eq_refl : (o : Option A) → option_eq o o ≡ true
    option_eq_refl none = refl
    option_eq_refl (some x) = eq_refl x
