-- ===== src/Constraints/Normalization/Meaning.antt =====
-- The value of a normalized constraint set.
use restscope.Prelude.{
  ◌≡◌, refl, ap, ◌∙◌, Bool, true, ◌&&◌, ◌||◌, Option, some, ◌∷◌, arith, Bool-cases, inl, inr,
  eq_iff, not,
}
use restscope.Constraints.Values
use restscope.Constraints.Values.{
  Host, Value, null, boolean, number, text, object, ArithmeticOperator, add, subtract, multiply,
  divide, CompareOperator, equal, unequal, less, less_equal, greater, greater_equal, combine,
  values_equal, compare_values, compare_operands, match_operand,
}
use restscope.Constraints.Expressions.{
  ValueExpression, BooleanExpression, Expressions, nil, cons, input_value, literal, arithmetic,
  present, compare, matches, implies, cardinality, all_of, any_of, negation,
}
use restscope.Constraints.Evaluation.{
  Assignments, evaluate_value, evaluate_boolean, evaluate_each, evaluate_constraint_set, count_true,
  all_true, any_true,
}
use restscope.Constraints.Normalization.{
  CanonicalKey, is_commutative, is_symmetric, swap_if, normalize_value, insert, sort,
  normalize_boolean, normalize_each, normalize_constraint_set,
}

-- What Python documents of `+`, `*` and `==` on its numbers, and of `==` on its lists and dicts.
pub record IsCommutative (h : Host) : Type 0 where
  pub plus_comm : (a b : h.Number) → h.plus a b ≡ h.plus b a
  pub times_comm : (a b : h.Number) → h.times a b ≡ h.times b a
  pub number_eq_comm : (a b : h.Number) → h.number_eq a b ≡ h.number_eq b a
  pub object_eq_comm : (a b : h.Object) → h.object_eq a b ≡ h.object_eq b a

module _ {h : Host} (laws : IsCommutative h) where
  arithmetic_comm :
      (op : ArithmeticOperator) (a b : h.Number)
      → is_commutative op ≡ true
      → Values.arithmetic {h = h} op a b ≡ Values.arithmetic {h = h} op b a
  unfolding Values.arithmetic
  arithmetic_comm add a b e = rw (laws.plus_comm a b)
  arithmetic_comm multiply a b e = rw (laws.times_comm a b)
  arithmetic_comm subtract a b e = cc
  arithmetic_comm divide a b e = cc

  combine_comm :
      (op : ArithmeticOperator) (a b : Option (Value h))
      → is_commutative op ≡ true
      → combine op a b ≡ combine op b a
  unfolding combine
  combine_comm op (some (number a)) (some (number b)) e = arithmetic_comm op a b e
  combine_comm op a b e = ground arith

  values_equal_comm : (a b : Value h) → values_equal a b ≡ values_equal b a
  unfolding values_equal
  values_equal_comm (number a) (number b) = laws.number_eq_comm a b
  values_equal_comm (text a) (text b) = ground (arith, eq_iff a b, eq_iff b a)
  values_equal_comm (boolean a) (boolean b) = ground arith
  values_equal_comm (object a) (object b) = laws.object_eq_comm a b
  values_equal_comm null b = ground arith
  values_equal_comm a b = ground arith

  compare_operands_comm :
      (op : CompareOperator) (a b : Option (Value h))
      → is_symmetric op ≡ true
      → compare_operands op a b ≡ compare_operands op b a
  unfolding compare_operands
  compare_operands_comm equal (some a) (some b) e = values_equal_comm a b
  compare_operands_comm unequal (some a) (some b) e = rw (values_equal_comm a b)
  compare_operands_comm op a b e = ground arith

  module _ (key : CanonicalKey h) (σ : Assignments h) where
    evaluate-swap_value :
        (op : ArithmeticOperator) (test : Bool) (l r : ValueExpression h)
        → evaluate_value σ (swap_if (is_commutative op && test) (arithmetic op) l r)
          ≡ combine op (evaluate_value σ l) (evaluate_value σ r)
    unfolding evaluate_value
    evaluate-swap_value op test l r = elim (Bool-cases (is_commutative op && test)) [
      | inr kept ↦ rw kept refl
      | inl swapped ↦
          rw swapped (combine_comm op (evaluate_value σ r) (evaluate_value σ l) (ground arith))
    ]

    evaluate-normalize_value :
        (e : ValueExpression h) → evaluate_value σ (normalize_value key e) ≡ evaluate_value σ e
    unfolding evaluate_value normalize_value
    evaluate-normalize_value (input_value id) = refl
    evaluate-normalize_value (literal v) = refl
    evaluate-normalize_value (arithmetic op l r) =
        evaluate-swap_value op _ (normalize_value key l) (normalize_value key r)
        ∙ cc (evaluate-normalize_value l, evaluate-normalize_value r)

    evaluate-swap_compare :
        (op : CompareOperator) (test : Bool) (l r : ValueExpression h)
        → evaluate_boolean σ (swap_if (is_symmetric op && test) (compare op) l r)
          ≡ compare_operands op (evaluate_value σ l) (evaluate_value σ r)
    unfolding evaluate_boolean
    evaluate-swap_compare op test l r = elim (Bool-cases (is_symmetric op && test)) [
      | inr kept ↦ rw kept refl
      | inl swapped ↦
          rw swapped
            (compare_operands_comm op (evaluate_value σ r) (evaluate_value σ l) (ground arith))
    ]

    -- The three ways in which the results of the members are read do not see their order.
    count_true-insert :
        (e : BooleanExpression h) (es : Expressions h)
        → count_true (evaluate_each σ (insert key e es))
          ≡ count_true (evaluate_boolean σ e ∷ evaluate_each σ es)
    unfolding insert evaluate_boolean
    count_true-insert e nil = refl
    count_true-insert e (cons x xs) = ground (arith, count_true-insert e xs)

    all_true-insert :
        (e : BooleanExpression h) (es : Expressions h)
        → all_true (evaluate_each σ (insert key e es))
          ≡ (evaluate_boolean σ e && all_true (evaluate_each σ es))
    unfolding insert evaluate_boolean
    all_true-insert e nil = refl
    all_true-insert e (cons x xs) = ground (arith, all_true-insert e xs)

    any_true-insert :
        (e : BooleanExpression h) (es : Expressions h)
        → any_true (evaluate_each σ (insert key e es))
          ≡ (evaluate_boolean σ e || any_true (evaluate_each σ es))
    unfolding insert evaluate_boolean
    any_true-insert e nil = refl
    any_true-insert e (cons x xs) = ground (arith, any_true-insert e xs)

    count_true-sort :
        (es : Expressions h)
        → count_true (evaluate_each σ (sort key es)) ≡ count_true (evaluate_each σ es)
    unfolding sort evaluate_boolean
    count_true-sort nil = refl
    count_true-sort (cons e es) =
        ground (arith, count_true-insert e (sort key es), count_true-sort es)

    all_true-sort :
        (es : Expressions h)
        → all_true (evaluate_each σ (sort key es)) ≡ all_true (evaluate_each σ es)
    unfolding sort evaluate_boolean
    all_true-sort nil = refl
    all_true-sort (cons e es) = ground (arith, all_true-insert e (sort key es), all_true-sort es)

    any_true-sort :
        (es : Expressions h)
        → any_true (evaluate_each σ (sort key es)) ≡ any_true (evaluate_each σ es)
    unfolding sort evaluate_boolean
    any_true-sort nil = refl
    any_true-sort (cons e es) = ground (arith, any_true-insert e (sort key es), any_true-sort es)

    mutual
      unfolding evaluate_boolean normalize_boolean

      pub evaluate-normalize :
          (e : BooleanExpression h)
          → evaluate_boolean σ (normalize_boolean key e) ≡ evaluate_boolean σ e
      evaluate-normalize (present id) = refl
      evaluate-normalize (compare op l r) =
          evaluate-swap_compare op _ (normalize_value key l) (normalize_value key r)
          ∙ cc (evaluate-normalize_value l, evaluate-normalize_value r)
      evaluate-normalize (matches value pattern') =
          ap (match_operand pattern') (evaluate-normalize_value value)
      evaluate-normalize (implies condition consequence) =
          cc (evaluate-normalize condition, evaluate-normalize consequence)
      evaluate-normalize (cardinality es minimum maximum) =
          rw (count_true-sort (normalize_each key es), each-normalize es)
      evaluate-normalize (all_of es) =
          all_true-sort (normalize_each key es) ∙ ap all_true (each-normalize es)
      evaluate-normalize (any_of es) =
          any_true-sort (normalize_each key es) ∙ ap any_true (each-normalize es)
      evaluate-normalize (negation e) = ap not (evaluate-normalize e)

      each-normalize :
          (es : Expressions h) → evaluate_each σ (normalize_each key es) ≡ evaluate_each σ es
      each-normalize nil = refl
      each-normalize (cons e es) = cc (evaluate-normalize e, each-normalize es)

  -- On every assignment the normalized constraint set has the value of the original, whatever the keys
  -- are, if the host's addition and multiplication commute and its equalities are symmetric.
  pub evaluate-normalize_constraint_set :
      (key : CanonicalKey h) (σ : Assignments h) (constraints : Expressions h)
      → evaluate_constraint_set σ (normalize_constraint_set key constraints)
        ≡ evaluate_constraint_set σ constraints
  unfolding evaluate_constraint_set normalize_constraint_set
  evaluate-normalize_constraint_set key σ constraints =
      all_true-sort key σ (normalize_each key constraints)
      ∙ ap all_true (each-normalize key σ constraints)
