-- ===== src/Constraints/Tests.antt =====
-- Constraint sets over a host whose numbers are the natural numbers.
use restscope.Prelude.{
  map, keep, List, [], ◌∷◌, ℕ, ◌+◌, ◌-◌, ◌*◌, ◌≡◌, ◌≢◌, refl, ap, String, true, false, Option, none,
  some, ltb, leb, eqb, ◌==◌, contains, if◌then◌else◌, arith, eq_iff, Bool-cases, subst, inl, inr,
}
use restscope.Constraints.Association.{
  OperationConstraintRecord, Component, associated_constraint_ids,
}
use restscope.Constraints.Association.Exactness.{IsComponent, associated_constraint_ids_exact}
use restscope.Inputs.{SchemaSnapshot, InputNodeSnapshot, node_of}
use restscope.Constraints.Validation.{
  refused, constraint_incompatible_types, node_scalar_types, literal_type, validate_value,
  validate_constraint_set,
}
use restscope.Constraints.Validation.Outcomes.{has_type, IsConforming, IsKnown}
use restscope.Constraints.Validation.Accepted.{
  validate_value-has_type, validate_constraint_set-IsKnown,
}
use restscope.Constraints.Values.{Host, Value, CompareOperator, ArithmeticOperator, InputAssignment}
use restscope.Constraints.Expressions.{
  ValueExpression, BooleanExpression, Expressions, referenced_input_node_ids,
}
use restscope.Constraints.Evaluation.{
  Assignments, input_operand, evaluate_value, evaluate_constraint_set,
  evaluate_constraint_set_partial,
}
use restscope.Constraints.Evaluation.Soundness.{Extends, evaluate_constraint_set_partial_sound}
use restscope.Constraints.Normalization.{CanonicalKey, normalize_constraint_set}
use restscope.Constraints.Normalization.Meaning.{IsCommutative, evaluate-normalize_constraint_set}
use restscope.Constraints.Normalization.Canonical.{IsSorted, normalize_constraint_set_idem}
use restscope.Constraints.Collecting.{evaluate_constraint_set_partial_decided}

abbrev naturals : Host
naturals = record {
  Number = ℕ;
  Object = String;
  plus = λ a b. some (a + b);
  minus = λ a b. some (a - b);
  times = λ a b. some (a * b);
  over = λ a b. none;
  is_zero = λ a. eqb a 0;
  number_eq = eqb;
  number_lt = ltb;
  number_le = leb;
  object_eq = ◌==◌;
  search = λ p s. some (p == s);
}

abbrev limit_assignment : InputAssignment naturals
limit_assignment = record { present = true; has_value = true; value = Value.number 7 }

-- Only `limit` is assigned, `offset` not yet.
abbrev partly : Assignments naturals
partly id = if id == "limit" then some limit_assignment else none

-- Both are assigned, `offset` as an absent input.
abbrev fully : Assignments naturals
fully id =
    if id == "limit"
    then some limit_assignment
    else some (record { present = false; has_value = false; value = Value.null })

abbrev too_large : BooleanExpression naturals
too_large =
    BooleanExpression.compare CompareOperator.greater
      (ValueExpression.arithmetic ArithmeticOperator.add (ValueExpression.input_value "limit")
        (ValueExpression.literal (Value.number 1)))
      (ValueExpression.literal (Value.number 10))

-- An offset needs a limit, and the limit is too large.
abbrev constraints : Expressions naturals
constraints =
    Expressions.cons
      (BooleanExpression.implies (BooleanExpression.present "offset")
        (BooleanExpression.present "limit"))
      (Expressions.cons too_large Expressions.nil)

partly-Extends : Extends partly fully
partly-Extends id a h = ground arith

evaluate_constraint_set_partial_sound_example : evaluate_constraint_set fully constraints ≡ false
unfolding evaluate_constraint_set_partial
evaluate_constraint_set_partial_sound_example =
    evaluate_constraint_set_partial_sound partly fully constraints false partly-Extends refl

all_assigned :
    (k : String) → contains k (referenced_input_node_ids constraints) ≡ true → fully k ≢ none
all_assigned k h e = ground arith

evaluate_constraint_set_partial_decided_example :
    evaluate_constraint_set_partial fully constraints
    ≡ some (evaluate_constraint_set fully constraints)
evaluate_constraint_set_partial_decided_example =
    evaluate_constraint_set_partial_decided constraints fully all_assigned

abbrev linked : List OperationConstraintRecord
linked =
    record { id = "c1"; owner_input_node_ids = "b" ∷ "c" ∷ [] }
    ∷ record { id = "c2"; owner_input_node_ids = "a" ∷ "b" ∷ [] }
    ∷ record { id = "c3"; owner_input_node_ids = "d" ∷ [] }
    ∷ []

-- The first constraint joins in the second round only.
linked_to_a : associated_constraint_ids linked "a" ≡ "c1" ∷ "c2" ∷ []
unfolding associated_constraint_ids
linked_to_a = refl

associated_constraint_ids_exact_example :
    (t : Component) × IsComponent linked "a" t
    × (associated_constraint_ids linked "a"
        ≡ map (λ c. c.id) (keep (λ c. contains c.id t.connected_constraints) linked))
associated_constraint_ids_exact_example = associated_constraint_ids_exact linked "a"

-- A key that knows the kind of an expression only.
abbrev kinds : CanonicalKey naturals
kinds = record { value_key = value_kind; boolean_key = boolean_kind }
  where
    value_kind : ValueExpression naturals → String
    value_kind (ValueExpression.literal v) = "literal"
    value_kind (ValueExpression.input_value id) = "input"
    value_kind (ValueExpression.arithmetic op left right) = "arithmetic"

    boolean_kind : BooleanExpression naturals → String
    boolean_kind (BooleanExpression.implies condition consequence) = "implies"
    boolean_kind (BooleanExpression.compare op left right) = "compare"
    boolean_kind _ = "other"

object_eq_comm : (a b : String) → (a == b) ≡ (b == a)
object_eq_comm a b = ground (arith, eq_iff a b, eq_iff b a)

naturals-IsCommutative : IsCommutative naturals
naturals-IsCommutative = record {
  plus_comm = λ a b. ap some (omega arith);
  times_comm = λ a b. ap some (omega arith);
  number_eq_comm = λ a b. ground arith;
  object_eq_comm = object_eq_comm;
}

evaluate-normalize_constraint_set_example :
    evaluate_constraint_set fully (normalize_constraint_set kinds constraints)
    ≡ evaluate_constraint_set fully constraints
evaluate-normalize_constraint_set_example =
    evaluate-normalize_constraint_set naturals-IsCommutative kinds fully constraints

normalize_constraint_set_idem_example :
    (normalize_constraint_set kinds (normalize_constraint_set kinds constraints)
      ≡ normalize_constraint_set kinds constraints)
    × IsSorted kinds (normalize_constraint_set kinds constraints)
normalize_constraint_set_idem_example = normalize_constraint_set_idem kinds constraints

-- The inputs `limit`, a number, and `page` below it, a text.
abbrev schema_of : String → SchemaSnapshot
schema_of name = record {
  declared = name ∷ [];
  nullable = false;
  has_properties = false;
  has_items = false;
  has_branches = false;
}

abbrev input : String → String → Option String → InputNodeSnapshot
input id declared parent = record {
  input_node_id = id;
  node_kind = "parameter";
  canonical_path = id;
  parent_node_id = parent;
  schema_contract = some (schema_of declared);
}

abbrev two_inputs : List InputNodeSnapshot
two_inputs = input "limit" "integer" none ∷ input "offset" "string" (some "limit") ∷ []

abbrev one_more : ValueExpression naturals
one_more =
    ValueExpression.arithmetic ArithmeticOperator.add (ValueExpression.input_value "limit")
      (ValueExpression.literal (Value.number 1))

abbrev IsTypedAs : Option (Value naturals) → Option InputNodeSnapshot → Type 0
IsTypedAs (some v) (some node) = has_type v (node_scalar_types node) ≡ true
IsTypedAs _ _ = Unit

partly-IsConforming : IsConforming two_inputs partly
unfolding node_of node_scalar_types literal_type
partly-IsConforming id node v found is = elim (Bool-cases (id == "limit")) [
  | inl same ↦
      let the_node : some (input "limit" "integer" none) ≡ some node =
        subst (λ i. node_of two_inputs i ≡ some node) ((eq_iff id "limit").0 same) found in
      let the_value : some (Value.number 7) ≡ some v =
        subst (λ i. input_operand (partly i) ≡ some v) ((eq_iff id "limit").0 same) is in
      subst (λ o. IsTypedAs o (some node)) the_value
        (subst (IsTypedAs (some (Value.number 7))) the_node refl)
  | inr other ↦ absurd (ground arith)
]

validate_value-has_type_example : has_type {h = naturals} (Value.number 8) ("number" ∷ []) ≡ true
unfolding validate_value evaluate_value node_of
validate_value-has_type_example =
    validate_value-has_type two_inputs one_more ("number" ∷ []) partly (Value.number 8)
      partly-IsConforming refl refl

validate_constraint_set-IsKnown_example :
    (constraints ≡ constraints)
    × ((id : String)
        → contains id (referenced_input_node_ids constraints) ≡ true
        → IsKnown two_inputs id)
unfolding validate_constraint_set node_of
validate_constraint_set-IsKnown_example =
    validate_constraint_set-IsKnown two_inputs (λ p. true) constraints constraints refl

-- Only a number has a sum, and the bounds of a cardinality fit its members.
text_sum-refused :
    validate_value two_inputs (
      ValueExpression.arithmetic ArithmeticOperator.add one_more
        (ValueExpression.input_value "offset"))
    ≡ refused
        (record { code = constraint_incompatible_types; input_node_ids = "limit" ∷ "offset" ∷ [] })
unfolding validate_value node_of
text_sum-refused = refl
