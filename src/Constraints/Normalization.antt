-- ===== src/Constraints/Normalization.antt =====
-- `normalize_constraint_set`. The key by which members are sorted is `json.dumps` of the model, which is
-- a parameter.
pub mod Meaning
pub mod Canonical
use restscope.Prelude.{
  ℕ, String, Bool, true, false, ◌&&◌, ◌||◌, not, List, [], ◌∷◌, suc, eqb, leb, list_eq, ◌==◌,
  text_gt, if◌then◌else◌,
}
use restscope.Constraints.Values.{
  Host, ArithmeticOperator, add, subtract, multiply, divide, CompareOperator, equal, unequal,
}
use restscope.Constraints.Expressions.{
  ValueExpression, BooleanExpression, Expressions, nil, cons, input_value, literal, arithmetic,
  present, compare, matches, implies, cardinality, all_of, any_of, negation,
}

-- `_canonical_key` of the two kinds of expression.
pub record CanonicalKey (h : Host) : Type 0 where
  pub value_key : ValueExpression h → String
  pub boolean_key : BooleanExpression h → String

-- `operator in {"+", "*"}` and `operator in {"==", "!="}`
abbrev pub is_commutative : ArithmeticOperator → Bool
is_commutative add = true
is_commutative multiply = true
is_commutative _ = false

abbrev pub is_symmetric : CompareOperator → Bool
is_symmetric equal = true
is_symmetric unequal = true
is_symmetric _ = false

-- `left, right = right, left` if the test holds.
abbrev pub swap_if {ℓ κ} : {A : Type ℓ} {B : Type κ} → Bool → (A → A → B) → A → A → B
swap_if true f left right = f right left
swap_if false f left right = f left right

module _ {h : Host} (key : CanonicalKey h) where
  -- `_normalize_value`
  unfoldable pub normalize_value : ValueExpression h → ValueExpression h
  normalize_value (input_value id) = input_value id
  normalize_value (literal v) = literal v
  normalize_value (arithmetic op l r) =
      let left = normalize_value l in
      let right = normalize_value r in
      swap_if (is_commutative op && text_gt (key.value_key left) (key.value_key right))
        (arithmetic op) left right

  -- The stable sort by `_canonical_key`.
  unfoldable pub insert : BooleanExpression h → Expressions h → Expressions h
  insert e nil = cons e nil
  insert e (cons x xs) =
      let rest = insert e xs in
      if text_gt (key.boolean_key e) (key.boolean_key x) then cons x rest else cons e (cons x xs)

  unfoldable pub sort : Expressions h → Expressions h
  unfolding insert
  sort nil = nil
  sort (cons e es) = insert e (sort es)

  -- `_normalize_boolean`, and its results for the members of a list.
  unfoldable mutual
    unfolding normalize_value sort

    pub normalize_boolean : BooleanExpression h → BooleanExpression h
    normalize_boolean (present id) = present id
    normalize_boolean (compare op l r) =
        let left = normalize_value l in
        let right = normalize_value r in
        swap_if (is_symmetric op && text_gt (key.value_key left) (key.value_key right)) (compare op)
          left right
    normalize_boolean (matches value pattern') = matches (normalize_value value) pattern'
    normalize_boolean (implies condition consequence) =
        implies (normalize_boolean condition) (normalize_boolean consequence)
    normalize_boolean (cardinality es minimum maximum) =
        cardinality (sort (normalize_each es)) minimum maximum
    normalize_boolean (all_of es) = all_of (sort (normalize_each es))
    normalize_boolean (any_of es) = any_of (sort (normalize_each es))
    normalize_boolean (negation e) = negation (normalize_boolean e)

    pub normalize_each : Expressions h → Expressions h
    normalize_each nil = nil
    normalize_each (cons e es) = cons (normalize_boolean e) (normalize_each es)

  -- `normalize_constraint_set`
  unfoldable pub normalize_constraint_set : Expressions h → Expressions h
  unfolding normalize_boolean
  normalize_constraint_set constraints = sort (normalize_each constraints)
