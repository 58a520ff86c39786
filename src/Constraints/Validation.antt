-- ===== src/Constraints/Validation.antt =====
-- `validate_constraint_set`: the inputs that the constraints name, and the types of their operands. A
-- set of type names is a list of them. Whether `re.compile` accepts a pattern is a parameter.
pub mod Meeting
pub mod Outcomes
pub mod Accepted
pub mod Indexed
use restscope.Prelude.{
  ℕ, zero, suc, String, Bool, true, false, not, ◌&&◌, ◌||◌, Option, none, some, List, [], ◌∷◌, ◌++◌,
  any, length, contains, ltb, ◌==◌, if◌then◌else◌,
}
use restscope.Inputs.{SchemaSnapshot, InputNodeSnapshot, node_of}
use restscope.Constraints.Values.{
  Host, Value, null, boolean, number, text, object, CompareOperator, equal, unequal,
}
use restscope.Constraints.Expressions.{
  ValueExpression, BooleanExpression, Expressions, nil, cons, input_value, literal, arithmetic,
  present, compare, matches, implies, cardinality, all_of, any_of, negation, value_references, size,
}

pub data ErrorCode : Type 0 where
  constraint_unknown_input constraint_repeated_input constraint_unsupported_input : ErrorCode
  constraint_incompatible_types constraint_invalid_pattern : ErrorCode
  constraint_invalid_cardinality : ErrorCode

pub record ConstraintValidationError : Type 0 where
  pub code : ErrorCode
  pub input_node_ids : List String

-- `endless` is a loop over the parents that is cut off by its fuel.
pub data Checked {ℓ} (A : Type ℓ) : Type ℓ where
  passed : A → Checked A
  refused : ConstraintValidationError → Checked A
  endless : Checked A

infixl 5 ◌>>=◌ ◌>>◌
unfoldable pub ◌>>=◌ {ℓ κ} : {A : Type ℓ} {B : Type κ} → Checked A → (A → Checked B) → Checked B
passed a >>= f = f a
refused e >>= f = refused e
endless >>= f = endless

unfoldable pub ◌>>◌ {ℓ} : {B : Type ℓ} → Checked (Unit {0}) → Checked B → Checked B
passed tt >> rest = rest
refused e >> rest = refused e
endless >> rest = endless

unfoldable pub refuse_if : Bool → ErrorCode → List String → Checked (Unit {0})
refuse_if true code ids = refused (record { code = code; input_node_ids = ids })
refuse_if false code ids = passed tt

unfoldable pub node_or : Option InputNodeSnapshot → String → Checked InputNodeSnapshot
node_or none id = refused (record { code = constraint_unknown_input; input_node_ids = id ∷ [] })
node_or (some node) id = passed node

-- `_is_scalar_node`
unfoldable pub is_scalar_node : InputNodeSnapshot → Bool
is_scalar_node node = elim node.schema_contract [
  | none ↦ false
  | some schema ↦
      if node.node_kind == "request_body"
      then false
      else not (
          schema.has_properties
          || schema.has_items
          || schema.has_branches
          || contains "object" schema.declared
          || contains "array" schema.declared)
]

-- `result.add(name)`, if the schema has the type.
abbrev pub add_type : Bool → String → List String → List String
add_type true name types = types ++ name ∷ []
add_type false name types = types

-- `result or {"unknown"}`
abbrev pub or_unknown : List String → List String
or_unknown [] = "unknown" ∷ []
or_unknown (t ∷ ts) = t ∷ ts

abbrev pub schema_types : SchemaSnapshot → List String
schema_types schema =
    let numbers =
      add_type (contains "integer" schema.declared || contains "number" schema.declared) "number"
        [] in
    let strings = add_type (contains "string" schema.declared) "string" numbers in
    let booleans = add_type (contains "boolean" schema.declared) "boolean" strings in
    add_type (contains "null" schema.declared || schema.nullable) "null" booleans

-- `_node_scalar_types`
unfoldable pub node_scalar_types : InputNodeSnapshot → List String
node_scalar_types node = elim node.schema_contract [
  | none ↦ "unknown" ∷ []
  | some schema ↦ or_unknown (schema_types schema)
]

-- `_literal_type`
unfoldable pub literal_type : {h : Host} → Value h → String
literal_type null = "null"
literal_type (boolean b) = "boolean"
literal_type (number n) = "number"
literal_type (text s) = "string"
literal_type (object o) = "unsupported"

-- `_numeric_types`
unfoldable pub numeric_types : List String → Bool
numeric_types types = contains "unknown" types || contains "number" types

-- Whether two sets of types meet.
abbrev pub intersects : List String → List String → Bool
intersects left right = any (λ t. contains t right) left

-- `_comparison_types_compatible`
unfoldable pub comparison_types_compatible : CompareOperator → List String → List String → Bool
comparison_types_compatible op left right =
    let both_numbers = contains "number" left && contains "number" right in
    let both_strings = contains "string" left && contains "string" right in
    let ordered = both_numbers || both_strings in
    let same = intersects left right || both_numbers in
    if contains "unsupported" left || contains "unsupported" right
    then false
    else if contains "unknown" left || contains "unknown" right
    then true
    else elim op [ equal ↦ same | unequal ↦ same | _ ↦ ordered ]

-- How the loop over an input and its parents ends.
pub data Ancestry : Type 0 where
  is_fixed is_repeated is_endless : Ancestry

module _ (nodes : List InputNodeSnapshot) where
  -- `nodes.get(current.parent_node_id) if … is not None else None`
  abbrev pub parent_of : InputNodeSnapshot → Option InputNodeSnapshot
  parent_of current = elim current.parent_node_id [ none ↦ none | some p ↦ node_of nodes p ]

  unfoldable pub ancestry : ℕ → InputNodeSnapshot → Ancestry
  ancestry zero current = is_endless
  ancestry (suc fuel) current = elim (current.node_kind == "items") [
    | true ↦ is_repeated
    | false ↦ elim (parent_of current) [ none ↦ is_fixed | some parent ↦ ancestry fuel parent ]
  ]

  -- The loop has one round for each input at most, and the last test.
  unfoldable pub check_ancestry : String → InputNodeSnapshot → Checked (Unit {0})
  unfolding ancestry
  check_ancestry id node = elim (ancestry (suc (length nodes)) node) [
    | is_fixed ↦ passed tt
    | is_repeated ↦ refused (record { code = constraint_repeated_input; input_node_ids = id ∷ [] })
    | is_endless ↦ endless
  ]

  -- `_validate_input_reference`
  unfoldable pub validate_input_reference : String → Bool → Checked InputNodeSnapshot
  unfolding ◌>>=◌ ◌>>◌ node_or refuse_if check_ancestry is_scalar_node
  validate_input_reference id for_value = do
    node ← node_or (node_of nodes id) id
    check_ancestry id node
    refuse_if (for_value && not (is_scalar_node node)) constraint_unsupported_input (id ∷ [])
    passed node

  -- `_validate_value`
  unfoldable pub validate_value : {h : Host} → ValueExpression h → Checked (List String)
  unfolding validate_input_reference node_scalar_types literal_type numeric_types value_references
  validate_value (input_value id) = do
    node ← validate_input_reference id true
    passed (node_scalar_types node)
  validate_value (literal v) = passed (literal_type v ∷ [])
  validate_value (arithmetic op left right) = do
    left_types ← validate_value left
    right_types ← validate_value right
    refuse_if (not (numeric_types left_types) || not (numeric_types right_types))
        constraint_incompatible_types (value_references left ++ value_references right)
    passed ("number" ∷ [])

  module _ {h : Host} (compiles : String → Bool) where
    -- `_validate_boolean`, and the loop over the members of a list.
    unfoldable mutual
      unfolding validate_value comparison_types_compatible

      pub validate_boolean : BooleanExpression h → Checked (Unit {0})
      validate_boolean (present id) = do node ← validate_input_reference id false; passed tt
      validate_boolean (compare op left right) = do
        left_types ← validate_value left
        right_types ← validate_value right
        refuse_if (not (comparison_types_compatible op left_types right_types))
            constraint_incompatible_types (value_references left ++ value_references right)
      validate_boolean (matches value pattern') = do
        value_types ← validate_value value
        refuse_if (not (contains "unknown" value_types) && not (contains "string" value_types))
            constraint_incompatible_types (value_references value)
        refuse_if (not (compiles pattern')) constraint_invalid_pattern (value_references value)
      validate_boolean (implies condition consequence) = do
        validate_boolean condition
        validate_boolean consequence
      validate_boolean (cardinality es minimum maximum) = do
        refuse_if (ltb maximum minimum || ltb (size es) maximum) constraint_invalid_cardinality []
        validate_each es
      validate_boolean (all_of es) = validate_each es
      validate_boolean (any_of es) = validate_each es
      validate_boolean (negation e) = validate_boolean e

      pub validate_each : Expressions h → Checked (Unit {0})
      validate_each nil = passed tt
      validate_each (cons e es) = do validate_boolean e; validate_each es

    -- `validate_constraint_set`; the set itself is what it returns.
    unfoldable pub validate_constraint_set : Expressions h → Checked (Expressions h)
    unfolding validate_boolean
    validate_constraint_set constraints = do validate_each constraints; passed constraints
