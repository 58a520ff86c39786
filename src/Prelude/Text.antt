-- ===== src/Prelude/Text.antt =====
-- Python strings as native strings: membership in a tuple or set of strings, the decimal form that
-- an f-string gives a number, and identities made of a prefix and a number.
use Prim.Native.Char.{Char, code}
use Prim.Native.Nat.{ℕ, zero, suc, ◌+◌, ◌-◌, ◌*◌, ◌/◌, ◌%◌, ◌<◌, ◌≤◌}
use Prim.Native.String.{String, ◌++◌, count}
use mathlib.Core.Logic.{◌⊎◌, inl, inr}
use mathlib.Core.Path.{◌≡◌, refl, ap, sym, ◌∙◌}
use mathlib.Core.Bool.{Bool, true, false, ◌&&◌, ◌||◌, not}
use mathlib.Core.List.{List, [], ◌∷◌}
use native.Mathlib.Omega.{arith}
use text.Mathlib.Text.{◌==◌}
use text.Mathlib.TextLemmas.{append_cancel_left, nil-append, cons-append, length-nil, length-cons}
use restscope.Prelude.Tests.{ltb, leb, eqb, if◌then◌else◌, Bool-cases}

-- `k in xs`
abbrev pub contains : String → List String → Bool
contains k [] = false
contains k (x ∷ xs) = k == x || contains k xs

-- `len(xs) == len(set(xs))`
abbrev pub unique : List String → Bool
unique [] = true
unique (x ∷ xs) = not (contains x xs) && unique xs

-- `set(xs).issubset(ys)`
abbrev pub subset : List String → List String → Bool
subset [] ys = true
subset (x ∷ xs) ys = contains x ys && subset xs ys

-- `set(xs) == set(ys)`
abbrev pub same_set : List String → List String → Bool
same_set xs ys = subset xs ys && subset ys xs

unfoldable pub digit : ℕ → Char
digit zero = "0"
digit (suc zero) = "1"
digit (suc (suc zero)) = "2"
digit (suc (suc (suc zero))) = "3"
digit (suc (suc (suc (suc zero)))) = "4"
digit (suc (suc (suc (suc (suc zero))))) = "5"
digit (suc (suc (suc (suc (suc (suc zero)))))) = "6"
digit (suc (suc (suc (suc (suc (suc (suc zero))))))) = "7"
digit (suc (suc (suc (suc (suc (suc (suc (suc zero)))))))) = "8"
digit _ = "9"

pub code-digit : (n : ℕ) → n < 10 → code (digit n) ≡ 48 + n
unfolding digit
code-digit zero h = refl
code-digit (suc zero) h = refl
code-digit (suc (suc zero)) h = refl
code-digit (suc (suc (suc zero))) h = refl
code-digit (suc (suc (suc (suc zero)))) h = refl
code-digit (suc (suc (suc (suc (suc zero))))) h = refl
code-digit (suc (suc (suc (suc (suc (suc zero)))))) h = refl
code-digit (suc (suc (suc (suc (suc (suc (suc zero))))))) h = refl
code-digit (suc (suc (suc (suc (suc (suc (suc (suc zero)))))))) h = refl
code-digit (suc (suc (suc (suc (suc (suc (suc (suc (suc zero))))))))) h = refl
code-digit (suc (suc (suc (suc (suc (suc (suc (suc (suc (suc n)))))))))) h = absurd (omega arith)

unfoldable pub one_char : Char → String
one_char c = String.◌∷◌ c String.[]

unfoldable pub decimal_fuel : ℕ → ℕ → String
unfolding digit one_char
decimal_fuel zero n = ""
decimal_fuel (suc f) n =
    let more = decimal_fuel f (n / 10) in
    if ltb n 10 then one_char (digit n) else more ++ one_char (digit (n % 10))

-- `f"{n}"`
unfoldable pub decimal : ℕ → String
unfolding decimal_fuel
decimal n = decimal_fuel (suc n) n

-- The number that a string of digits stands for, after those that gave `acc`.
unfoldable pub value : ℕ → String → ℕ
value acc String.[] = acc
value acc (String.◌∷◌ c s) = value (acc * 10 + (code c - 48)) s

value-append : (acc : ℕ) (s t : String) → value acc (s ++ t) ≡ value (value acc s) t
unfolding value
value-append acc String.[] t = rw nil-append
value-append acc (String.◌∷◌ c s) t = rw cons-append (value-append (acc * 10 + (code c - 48)) s t)

value-digit : (acc n : ℕ) → n < 10 → value acc (one_char (digit n)) ≡ acc * 10 + n
unfolding value one_char
value-digit acc n h = omega (arith, code-digit n h)

value-decimal_fuel : (f n : ℕ) → n < f → value 0 (decimal_fuel f n) ≡ n
unfolding decimal_fuel
value-decimal_fuel zero n h = elim h [ ]
value-decimal_fuel (suc f) n h = elim (Bool-cases (ltb n 10)) [
  | inl small ↦ rw small (omega (arith, value-digit 0 n (ground arith)))
  | inr large ↦ rw large (
      rw value-append (
        rw (value-decimal_fuel f (n / 10) (ground arith))
          (rw (value-digit (n / 10) (n % 10) (omega arith)) (omega arith))))
]

pub value-decimal : (n : ℕ) → value 0 (decimal n) ≡ n
unfolding decimal
value-decimal n = value-decimal_fuel (suc n) n (omega arith)

-- Different numbers are printed differently.
pub decimal-injective : (m n : ℕ) → decimal m ≡ decimal n → m ≡ n
decimal-injective m n h = sym (value-decimal m) ∙ ap (value 0) h ∙ value-decimal n

-- `f"{prefix}{n}"`
unfoldable pub numbered : String → ℕ → String
unfolding decimal
numbered prefix n = prefix ++ decimal n

pub numbered-injective : (p : String) (m n : ℕ) → numbered p m ≡ numbered p n → m ≡ n
unfolding numbered
numbered-injective p m n h = decimal-injective m n (append_cancel_left p _ _ h)

numbered_example : numbered "task_" 1207 ≡ "task_1207"
unfolding numbered
numbered_example = refl

-- `c.isspace()` for one character, by its code point.
is_space : ℕ → Bool
is_space c =
    leb 9 c && leb c 13
    || leb 28 c && leb c 32
    || eqb c 0x85
    || eqb c 0xa0
    || eqb c 0x1680
    || leb 0x2000 c && leb c 0x200a
    || eqb c 0x2028
    || eqb c 0x2029
    || eqb c 0x202f
    || eqb c 0x205f
    || eqb c 0x3000

-- `not s.strip()`
unfoldable pub is_blank : String → Bool
unfolding is_space
is_blank String.[] = true
is_blank (String.◌∷◌ c s) = is_space (code c) && is_blank s

-- `s[:n]`, by characters
unfoldable pub clip : ℕ → String → String
clip n String.[] = ""
clip zero (String.◌∷◌ c s) = ""
clip (suc n) (String.◌∷◌ c s) = String.◌∷◌ c (clip n s)

is_empty : String → Bool
is_empty String.[] = true
is_empty (String.◌∷◌ c s) = false

lstrip : String → String
unfolding is_space
lstrip String.[] = ""
lstrip (String.◌∷◌ c s) = let rest = lstrip s in if is_space (code c) then rest else String.◌∷◌ c s

rstrip : String → String
unfolding is_space is_empty
rstrip String.[] = ""
rstrip (String.◌∷◌ c s) =
    let rest = rstrip s in if is_space (code c) && is_empty rest then "" else String.◌∷◌ c rest

-- `s.strip()`
unfoldable pub strip : String → String
unfolding lstrip rstrip
strip s = rstrip (lstrip s)

-- `s or t`
unfoldable pub or_else : String → String → String
unfolding is_empty
or_else s t = if is_empty s then t else s

-- The first `n` characters are at most `n`.
pub count-clip : (n : ℕ) (s : String) → count (clip n s) ≤ n
unfolding clip
count-clip n String.[] = rw length-nil (omega arith)
count-clip zero (String.◌∷◌ c s) = rw length-nil (omega arith)
count-clip (suc n) (String.◌∷◌ c s) = rw length-cons (omega (arith, count-clip n s))

-- `s or t` is `t`, or it is `s` and not empty.
pub or_else-cases : (s t : String) → (or_else s t ≡ t) ⊎ ((1 ≤ count s) × (or_else s t ≡ s))
unfolding or_else
or_else-cases String.[] t = inl refl
or_else-cases (String.◌∷◌ c s) t = inr (rw length-cons (omega arith), refl)

lstrip-cases :
    (s : String)
    → (lstrip s ≡ "")
      ⊎ ((c : Char) × (t : String) × (lstrip s ≡ String.◌∷◌ c t) × (is_space (code c) ≡ false))
unfolding lstrip
lstrip-cases String.[] = inl refl
lstrip-cases (String.◌∷◌ c s) = elim (Bool-cases (is_space (code c))) [
  | inl e ↦ rw (e, lstrip) (lstrip-cases s)
  | inr e ↦ inr (c, s, rw (e, lstrip) refl, e)
]

-- `s.strip() or t` is visible in its first characters if `t` is.
pub is_blank-clip :
    (n : ℕ) (s t : String)
    → is_blank (clip (suc n) t) ≡ false
    → is_blank (clip (suc n) (or_else (strip s) t)) ≡ false
unfolding or_else strip rstrip clip is_blank is_empty
is_blank-clip n s t h = elim (lstrip-cases s) [
  | inl e ↦ rw (e, strip, or_else, rstrip) h
  | inr (c, u, e, visible) ↦ rw (e, strip, visible, rstrip) (rw visible refl)
]
