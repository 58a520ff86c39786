-- ===== src/Constraints/Validation/Outcomes.antt =====
-- What the steps of `validate_constraint_set` on expressions meet: known inputs and the types of values.
use restscope.Prelude.{
  eq_refl, ap, subst, ltb, ◌&&◌, suc, ◌≡◌, ◌≢◌, refl, String, Bool, true, false, not, ◌||◌, Option,
  none, some, List, [], ◌∷◌, ◌++◌, All, All-append, length, contains, arith, Bool-cases, inl, inr,
}
use restscope.Constraints.Validation.Meeting.{
  Holds, Meets, Meets-bind, Meets-then, Meets-weaken, Allows,
}
use restscope.Inputs.{InputNodeSnapshot, node_of}
use restscope.Constraints.Values.{
  Host, Value, number, ArithmeticOperator, add, subtract, multiply, divide, to_value, combine,
}
use restscope.Constraints.Values.{arithmetic as compute}
use restscope.Constraints.Expressions.{
  ValueExpression, BooleanExpression, Expressions, nil, cons, input_value, literal, arithmetic,
  present, compare, matches, implies, cardinality, all_of, any_of, negation, value_references,
  boolean_references, each_references, size,
}
use restscope.Constraints.Evaluation.{Assignments, evaluate_value, input_operand}
use restscope.Constraints.Validation.{
  ErrorCode, constraint_unknown_input, constraint_repeated_input, constraint_unsupported_input,
  constraint_incompatible_types, constraint_invalid_pattern, constraint_invalid_cardinality, passed,
  refused, endless, node_or, refuse_if, Ancestry, is_fixed, is_repeated, is_endless, ancestry,
  check_ancestry, is_scalar_node, numeric_types, comparison_types_compatible,
  validate_input_reference, node_scalar_types, literal_type, validate_value, validate_boolean,
  validate_each,
}

-- The type of a value is among the given ones, or they are not known.
abbrev pub has_type : {h : Host} → Value h → List String → Bool
has_type v types = contains (literal_type v) types || contains "unknown" types

-- The assigned values have the types of their inputs.
abbrev pub IsConforming : {h : Host} → List InputNodeSnapshot → Assignments h → Type 0
IsConforming {h} nodes σ =
    (id : String) (node : InputNodeSnapshot) (v : Value h)
    → node_of nodes id ≡ some node
    → input_operand (σ id) ≡ some v
    → has_type v (node_scalar_types node) ≡ true

to_value-number :
    {h : Host} (o : Option h.Number) (v : Value h) → to_value o ≡ some v → literal_type v ≡ "number"
unfolding to_value literal_type
to_value-number none v e = absurd (ground arith)
to_value-number (some n) v e = ground arith

arithmetic-number :
    {h : Host} (op : ArithmeticOperator) (a b : h.Number) (v : Value h)
    → compute op a b ≡ some v
    → literal_type v ≡ "number"
unfolding compute
arithmetic-number {h} add a b v e = to_value-number (h.plus a b) v e
arithmetic-number {h} subtract a b v e = to_value-number (h.minus a b) v e
arithmetic-number {h} multiply a b v e = to_value-number (h.times a b) v e
arithmetic-number {h} divide a b v e = elim (Bool-cases (h.is_zero b)) [
  | inl zero_b ↦ absurd (ground arith)
  | inr other ↦ to_value-number (h.over a b) v (ground arith)
]

combine-number :
    {h : Host} (op : ArithmeticOperator) (a b : Option (Value h)) (v : Value h)
    → combine op a b ≡ some v
    → literal_type v ≡ "number"
unfolding combine
combine-number op (some (number a)) (some (number b)) v e = arithmetic-number op a b v e
combine-number op _ _ v e = absurd (ground arith)

abbrev pub IsKnown : List InputNodeSnapshot → String → Type 0
IsKnown nodes id = (node : InputNodeSnapshot) × (node_of nodes id ≡ some node)

literal-has_type :
    {h : Host} (v w : Value h) → some v ≡ some w → has_type w (literal_type v ∷ []) ≡ true
literal-has_type v w is =
    subst (λ x. has_type x (literal_type v ∷ []) ≡ true)
      (ap (λ o. elim o [ none ↦ v | some x ↦ x ]) is) (ground (arith, eq_refl (literal_type v)))

module _ (nodes : List InputNodeSnapshot) (E : ErrorCode → Type 0) (D : Type 0)
    (other : (code : ErrorCode) → code ≢ constraint_repeated_input → E code)
    (ends : (id : String) (node : InputNodeSnapshot)
      → node_of nodes id ≡ some node
      → Allows E D (ancestry nodes (suc (length nodes)) node)) where
  check_ancestry-Meets :
      (id : String) (node : InputNodeSnapshot)
      → node_of nodes id ≡ some node
      → Meets E D (λ u. Unit {0}) (check_ancestry nodes id node)
  unfolding check_ancestry
  check_ancestry-Meets id node found = record { outcome = of_ancestry _ (ends id node found) }
    where
      of_ancestry :
          (a : Ancestry)
          → Allows E D a
          → Holds E D
              (λ u. Unit {0})
              (elim a [
                | is_fixed ↦ passed tt
                | is_repeated ↦
                    refused (record { code = constraint_repeated_input; input_node_ids = id ∷ [] })
                | is_endless ↦ endless
              ])
      of_ancestry is_fixed allowed = tt
      of_ancestry is_repeated allowed = allowed
      of_ancestry is_endless allowed = allowed

  node_or-Meets :
      (o : Option InputNodeSnapshot) (id : String)
      → Meets E D (λ node. o ≡ some node) (node_or o id)
  unfolding node_or
  node_or-Meets none id = record {
    outcome = other constraint_unknown_input (λ e. absurd (ground arith));
  }
  node_or-Meets (some node) id = record { outcome = refl }

  -- A refusal for another reason than a repeated input.
  refuse_if-Meets :
      (b : Bool) (code : ErrorCode) (ids : List String)
      → code ≢ constraint_repeated_input
      → Meets E D (λ u. Unit {0}) (refuse_if b code ids)
  unfolding refuse_if
  refuse_if-Meets true code ids fails = record { outcome = other code fails }
  refuse_if-Meets false code ids fails = record { outcome = tt }

  pub reference-Meets :
      (id : String) (for_value : Bool)
      → Meets E D
          (λ node. node_of nodes id ≡ some node)
          (validate_input_reference nodes id for_value)
  unfolding validate_input_reference
  reference-Meets id for_value = Meets-bind E D (node_or-Meets (node_of nodes id) id) (λ node found.
      Meets-then E D (check_ancestry-Meets id node found) (λ fixed.
        Meets-then E D {rest = passed node}
          (refuse_if-Meets (for_value && not (is_scalar_node node)) constraint_unsupported_input
            (id ∷ []) (λ e. absurd (ground arith)))
          (λ supported. record { outcome = found })))

  -- What is known of an accepted value expression: its inputs exist, and its values have one of
  -- the types.
  abbrev pub IsTyped : {h : Host} → ValueExpression h → List String → Type 0
  IsTyped {h} e types =
      All (IsKnown nodes) (value_references e)
      × ((σ : Assignments h) (v : Value h)
          → IsConforming nodes σ
          → evaluate_value σ e ≡ some v
          → has_type v types ≡ true)

  pub value-Meets :
      {h : Host} (e : ValueExpression h) → Meets E D (IsTyped e) (validate_value nodes e)
  unfolding validate_value value_references evaluate_value
  value-Meets (input_value id) = Meets-bind E D (reference-Meets id true) (λ node found. record {
    outcome = (((node, found), tt), λ σ v conforming is. conforming id node v found is);
  })
  value-Meets (literal v) = record { outcome = (tt, λ σ w conforming is. literal-has_type v w is) }
  value-Meets (arithmetic op left right) = Meets-bind E D (value-Meets left) (λ lefts left_typed.
      Meets-bind E D (value-Meets right) (λ rights right_typed.
        Meets-then E D {rest = passed ("number" ∷ [])}
          (refuse_if-Meets (not (numeric_types lefts) || not (numeric_types rights))
            constraint_incompatible_types (value_references left ++ value_references right)
            (λ e. absurd (ground arith)))
          (λ numeric. record {
            outcome = (
              All-append (IsKnown nodes) (value_references left) _ left_typed.0 right_typed.0,
              λ σ v conforming is. rw (combine-number op _ _ v is) refl,
            );
          })))

  -- The inputs of an accepted expression exist.
  mutual
    unfolding validate_boolean boolean_references

    boolean-Meets :
        {h : Host} (compiles : String → Bool) (e : BooleanExpression h)
        → Meets E D
            (λ u. All (IsKnown nodes) (boolean_references e))
            (validate_boolean nodes compiles e)
    boolean-Meets compiles (present id) =
        Meets-bind E D (reference-Meets id false)
          (λ node found. record { outcome = ((node, found), tt) })
    boolean-Meets compiles (compare op left right) =
        Meets-bind E D (value-Meets left) (λ lefts left_typed.
          Meets-bind E D (value-Meets right) (λ rights right_typed.
            Meets-weaken E D
              (refuse_if-Meets (not (comparison_types_compatible op lefts rights))
                constraint_incompatible_types (value_references left ++ value_references right)
                (λ e. absurd (ground arith)))
              (λ u compatible.
                All-append (IsKnown nodes) (value_references left) _ left_typed.0 right_typed.0)))
    boolean-Meets compiles (matches value pattern') =
        Meets-bind E D (value-Meets value) (λ types typed.
          Meets-then E D
            {rest = refuse_if (not (compiles pattern')) constraint_invalid_pattern
              (value_references value)}
            (refuse_if-Meets (not (contains "unknown" types) && not (contains "string" types))
              constraint_incompatible_types (value_references value) (λ e. absurd (ground arith)))
            (λ texts.
              Meets-weaken E D
                (refuse_if-Meets (not (compiles pattern')) constraint_invalid_pattern
                  (value_references value) (λ e. absurd (ground arith)))
                (λ u compiled. typed.0)))
    boolean-Meets compiles (implies c e) = Meets-then E D (boolean-Meets compiles c) (λ cs.
        Meets-weaken E D (boolean-Meets compiles e)
          (λ u es. All-append (IsKnown nodes) (boolean_references c) _ cs es))
    boolean-Meets compiles (cardinality es minimum maximum) =
        Meets-then E D {rest = validate_each nodes compiles es}
          (refuse_if-Meets (ltb maximum minimum || ltb (size es) maximum)
            constraint_invalid_cardinality [] (λ e. absurd (ground arith)))
          (λ bounded. each-Meets compiles es)
    boolean-Meets compiles (all_of es) = each-Meets compiles es
    boolean-Meets compiles (any_of es) = each-Meets compiles es
    boolean-Meets compiles (negation e) = boolean-Meets compiles e

    pub each-Meets :
        {h : Host} (compiles : String → Bool) (es : Expressions h)
        → Meets E D
            (λ u. All (IsKnown nodes) (each_references es))
            (validate_each nodes compiles es)
    each-Meets compiles nil = record { outcome = tt }
    each-Meets compiles (cons e es) = Meets-then E D (boolean-Meets compiles e) (λ known.
        Meets-weaken E D (each-Meets compiles es)
          (λ u later. All-append (IsKnown nodes) (boolean_references e) _ known later))
