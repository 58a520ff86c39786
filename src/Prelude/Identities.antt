-- ===== src/Prelude/Identities.antt =====
-- Identities that an f-string makes of a prefix and a number, read back: `startswith`,
-- `removeprefix`, and `isdigit` and `int` on the ASCII digits.
use Prim.Native.Char.{Char, code}
use Prim.Native.Nat.{ℕ, zero, suc, ◌/◌, ◌%◌, ◌<◌}
use Prim.Native.String.{String, ◌++◌}
use mathlib.Core.Path.{◌≡◌, refl, subst}
use mathlib.Core.Logic.{inl, inr}
use mathlib.Core.Bool.{Bool, true, false, ◌&&◌}
use mathlib.Core.Option.{Option, none, some}
use native.Mathlib.Omega.{arith}
use text.Mathlib.TextLemmas.{nil-append, cons-append}
use restscope.Prelude.Tests.{ltb, leb, eqb, if◌then◌else◌, Bool-cases}
use restscope.Prelude.Text.{
  digit, code-digit, one_char, decimal_fuel, decimal, value, value-decimal, numbered,
}

-- `s.removeprefix(p)` if `s.startswith(p)`
unfoldable pub strip_prefix : String → String → Option String
strip_prefix String.[] s = some s
strip_prefix (String.◌∷◌ c p) String.[] = none
strip_prefix (String.◌∷◌ c p) (String.◌∷◌ d s) =
    let rest = strip_prefix p s in if eqb (code c) (code d) then rest else none

-- `s.startswith(p)`
unfoldable pub starts_with : String → String → Bool
unfolding strip_prefix
starts_with p s = elim (strip_prefix p s) [ none ↦ false | some rest ↦ true ]

all_digits : String → Bool
all_digits String.[] = true
all_digits (String.◌∷◌ c s) = leb 48 (code c) && leb (code c) 57 && all_digits s

-- `s.isdigit()`
is_digits : String → Bool
unfolding all_digits
is_digits String.[] = false
is_digits (String.◌∷◌ c s) = all_digits (String.◌∷◌ c s)

-- `int(s)` if `s.isdigit()`
unfoldable pub parse_digits : String → Option ℕ
unfolding is_digits value
parse_digits s = if is_digits s then some (value 0 s) else none

-- What is put behind a prefix is what is left when the prefix is removed.
pub strip_prefix-append : (p s : String) → strip_prefix p (p ++ s) ≡ some s
unfolding strip_prefix
strip_prefix-append String.[] s = rw nil-append refl
strip_prefix-append (String.◌∷◌ c p) s =
    rw (cons-append, strip_prefix) (ground (arith, strip_prefix-append p s))

all_digits-append :
    (s t : String) → all_digits s ≡ true → all_digits t ≡ true → all_digits (s ++ t) ≡ true
unfolding all_digits
all_digits-append String.[] t h k = rw nil-append k
all_digits-append (String.◌∷◌ c s) t h k =
    rw (cons-append, all_digits) (ground (arith, all_digits-append s t))

all_digits-digit : (n : ℕ) → n < 10 → all_digits (one_char (digit n)) ≡ true
unfolding all_digits one_char
all_digits-digit n h = ground (arith, code-digit n h)

all_digits-decimal_fuel : (f n : ℕ) → all_digits (decimal_fuel f n) ≡ true
unfolding decimal_fuel all_digits
all_digits-decimal_fuel zero n = refl
all_digits-decimal_fuel (suc f) n = elim (Bool-cases (ltb n 10)) [
  | inl small ↦ rw small (all_digits-digit n (ground arith))
  | inr large ↦ rw large (
      all_digits-append (decimal_fuel f (n / 10)) _ (all_digits-decimal_fuel f (n / 10))
        (all_digits-digit (n % 10) (omega arith)))
]

-- A number is written with at least one digit.
is_digits-append :
    (s : String) (c : Char)
    → all_digits s ≡ true
    → all_digits (one_char c) ≡ true
    → is_digits (s ++ one_char c) ≡ true
unfolding is_digits one_char
is_digits-append String.[] c h k = rw nil-append k
is_digits-append (String.◌∷◌ d s) c h k =
    rw (cons-append, is_digits)
      (subst (λ t. all_digits t ≡ true) (cons-append d s (one_char c))
        (all_digits-append (String.◌∷◌ d s) (one_char c) h k))

is_digits-decimal : (n : ℕ) → is_digits (decimal n) ≡ true
unfolding decimal decimal_fuel is_digits one_char
is_digits-decimal n = elim (Bool-cases (ltb n 10)) [
  | inl small ↦ rw small (all_digits-digit n (ground arith))
  | inr large ↦ rw large (
      is_digits-append (decimal_fuel n (n / 10)) (digit (n % 10))
        (all_digits-decimal_fuel n (n / 10)) (all_digits-digit (n % 10) (omega arith)))
]

-- A number is read back from its decimal form.
pub parse_digits-decimal : (n : ℕ) → parse_digits (decimal n) ≡ some n
unfolding parse_digits
parse_digits-decimal n = rw (is_digits-decimal n, value-decimal n) refl

pub strip_prefix-numbered : (p : String) (n : ℕ) → strip_prefix p (numbered p n) ≡ some (decimal n)
unfolding numbered
strip_prefix-numbered p n = strip_prefix-append p (decimal n)

pub starts_with-numbered : (p : String) (n : ℕ) → starts_with p (numbered p n) ≡ true
unfolding starts_with
starts_with-numbered p n = rw (starts_with, strip_prefix-numbered p n) refl

-- A text does not start with two prefixes whose first letters differ.
pub starts_with-apart :
    (c d : Char) (p q x : String)
    → eqb (code c) (code d) ≡ false
    → starts_with (String.◌∷◌ d q) x ≡ true
    → starts_with (String.◌∷◌ c p) x ≡ false
unfolding starts_with strip_prefix
starts_with-apart c d p q String.[] different h = refl
starts_with-apart c d p q (String.◌∷◌ e x) different h = ground arith
