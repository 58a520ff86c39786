-- ===== src/Constraints/Values.antt =====
-- The values that inputs hold, and the operations on them: `_compare_values`, `_values_equal`,
-- `_ordered_values_compatible`, `_is_number` and the arithmetic that both evaluators share.
use Prim.Native.Nat.{Ordering}
use Prim.Native.String.{compare}
use restscope.Prelude.{
  String, Bool, true, false, not, ◌&&◌, Option, none, some, ◌==◌, if◌then◌else◌,
}

-- What the host language gives: its numbers (`int` and `float`), its other JSON values (lists and
-- dicts), and `re.search`. An operation that may raise an `ArithmeticError` or a `re.error` returns
-- `none` there.
pub record Host : Type 1 where
  pub Number : Type 0
  pub Object : Type 0
  pub plus : Number → Number → Option Number
  pub minus : Number → Number → Option Number
  pub times : Number → Number → Option Number
  pub over : Number → Number → Option Number
  pub is_zero : Number → Bool
  pub number_eq : Number → Number → Bool
  pub number_lt : Number → Number → Bool
  pub number_le : Number → Number → Bool
  pub object_eq : Object → Object → Bool
  pub search : String → String → Option Bool

pub data Value (h : Host) : Type 0 where
  null : Value h
  boolean : Bool → Value h
  number : h.Number → Value h
  text : String → Value h
  object : h.Object → Value h

pub data ArithmeticOperator : Type 0 where
  add subtract multiply divide : ArithmeticOperator

pub data CompareOperator : Type 0 where
  equal unequal less less_equal greater greater_equal : CompareOperator

pub record InputAssignment (h : Host) : Type 0 where
  pub present : Bool
  pub has_value : Bool
  pub value : Value h

abbrev pub is_null : {h : Host} → Value h → Bool
is_null null = true
is_null _ = false

-- `InputAssignment.validate_value_state`: whether the combination is accepted.
unfoldable pub validate_value_state : {h : Host} → InputAssignment h → Bool
validate_value_state a =
    not (not a.present && a.has_value) && not (not a.has_value && not (is_null a.value))

abbrev text_lt : String → String → Bool
text_lt s t = elim (compare s t) [ Ordering.lt ↦ true | _ ↦ false ]

abbrev text_le : String → String → Bool
text_le s t = elim (compare s t) [ Ordering.gt ↦ false | _ ↦ true ]

module _ {h : Host} where
  unfoldable pub to_value : Option h.Number → Option (Value h)
  to_value none = none
  to_value (some n) = some (number n)

  -- The four operations on two numbers; division tests the divisor first.
  unfoldable pub arithmetic : ArithmeticOperator → h.Number → h.Number → Option (Value h)
  unfolding to_value
  arithmetic add a b = to_value (h.plus a b)
  arithmetic subtract a b = to_value (h.minus a b)
  arithmetic multiply a b = to_value (h.times a b)
  arithmetic divide a b = if h.is_zero b then none else to_value (h.over a b)

  -- `none` is `_UNAVAILABLE`: what is no number has no sum.
  unfoldable pub combine :
      ArithmeticOperator → Option (Value h) → Option (Value h) → Option (Value h)
  unfolding arithmetic
  combine op (some (number a)) (some (number b)) = arithmetic op a b
  combine op _ _ = none

  -- `_values_equal`
  unfoldable pub values_equal : Value h → Value h → Bool
  values_equal (number a) (number b) = h.number_eq a b
  values_equal (text a) (text b) = a == b
  values_equal (boolean true) (boolean b) = b
  values_equal (boolean false) (boolean b) = not b
  values_equal null null = true
  values_equal (object a) (object b) = h.object_eq a b
  values_equal _ _ = false

  -- An ordered comparison holds only between two numbers or two texts.
  ordered : (h.Number → h.Number → Bool) → (String → String → Bool) → Value h → Value h → Bool
  ordered f g (number a) (number b) = f a b
  ordered f g (text a) (text b) = g a b
  ordered f g _ _ = false

  -- `_compare_values`
  unfoldable pub compare_values : CompareOperator → Value h → Value h → Bool
  unfolding values_equal ordered
  compare_values equal a b = values_equal a b
  compare_values unequal a b = not (values_equal a b)
  compare_values less a b = ordered h.number_lt text_lt a b
  compare_values less_equal a b = ordered h.number_le text_le a b
  compare_values greater a b = ordered h.number_lt text_lt b a
  compare_values greater_equal a b = ordered h.number_le text_le b a

  -- The comparison of two operands, of which an unavailable one makes it fail.
  unfoldable pub compare_operands : CompareOperator → Option (Value h) → Option (Value h) → Bool
  unfolding compare_values
  compare_operands op (some a) (some b) = compare_values op a b
  compare_operands op _ _ = false

  -- The test of a `MatchesPredicate`: a text in which the pattern is found.
  unfoldable pub match_operand : String → Option (Value h) → Bool
  match_operand pattern' (some (text s)) = elim (h.search pattern' s) [ some b ↦ b | none ↦ false ]
  match_operand pattern' _ = false
