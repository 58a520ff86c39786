-- ===== src/InputNodes/Tests.antt =====
-- The inputs of an operation with a query parameter and a JSON body, whose property is named `a/b~c`.

use Prim.Native.String.{◌++◌}
use restscope.Prelude.{
  clip, inl, inr, ◌≡◌, ◌≢◌, ◌⊎◌, ◌==◌, true, none, refl, ap, sym, ◌∙◌, String, false, some, [], ◌∷◌,
  if◌then◌else◌, decimal,
}
use restscope.Prelude.Dicts.{keys}
use restscope.Inputs.Forest.{IsForest}
use restscope.InputNodes.Segments.{is_char, up_to, property_path, property_name}
use restscope.InputNodes.Encoding.{property_name-property_path}
use restscope.InputNodes.Schemas.{
  SchemaIr, schema, no_property, property, no_schema, one_schema, no_branch, branch, OperationIr,
  InputNodeKind,
}
use restscope.InputNodes.Building.{TextHost, build_operation_input_nodes, input_node_id_of}
use restscope.Constraints.Values.{Host, Value, CompareOperator}
use restscope.Constraints.Expressions.{ValueExpression, BooleanExpression, Expressions}
use restscope.Constraints.Validation.{
  ConstraintValidationError, constraint_repeated_input, passed, refused, validate_constraint_set,
}
use restscope.Constraints.Validation.Indexed.{validate_constraint_set-indexed}
use restscope.Inputs.{node_of}
use restscope.InputNodes.Reach.{IsInput, IsCollisionFree, IsInside}
use restscope.InputNodes.Forest.{
  schema_snapshot, node_snapshots, build_operation_input_nodes-IsForest,
}

-- A digest that keeps the path.
after_nul : String → String
after_nul String.[] = ""
after_nul (String.◌∷◌ c s) = let rest = after_nul s in if is_char c "\0" then s else rest

abbrev plain : TextHost
plain = record { hexdigest = λ s. after_nul (after_nul s); lower = λ s. s; casefold = λ s. s }

abbrev any_json : SchemaIr
any_json = schema ("string" ∷ []) false false no_property no_schema no_branch no_branch no_branch

abbrev body_json : SchemaIr
body_json =
    schema ("object" ∷ []) false false (property "a/b~c" any_json no_property) (one_schema any_json)
      no_branch (branch any_json no_branch) no_branch

abbrev operation : OperationIr
operation = record {
  operation_key = "POST /items";
  path_parameters = [];
  query_parameters = record { name = "page"; location = "query"; schema = some any_json } ∷ [];
  header_parameters = [];
  cookie_parameters = [];
  request_body = some (("application/json; charset=utf-8", some body_json) ∷ []);
}

indexed :
    keys (build_operation_input_nodes plain operation)
    ≡ "input_query/page" ∷ "input_body" ∷ "input_body/application~1json"
      ∷ "input_body/application~1json/propertie" ∷ "input_body/application~1json/items"
      ∷ "input_body/application~1json/anyOf/0" ∷ []
unfolding build_operation_input_nodes after_nul decimal clip
indexed = refl

-- The path of each identity.
path_of_id : String → String
path_of_id id =
    if id == "input_query/page"
    then "query/page"
    else if id == "input_body"
    then "body"
    else if id == "input_body/application~1json"
    then "body/application~1json"
    else if id == "input_body/application~1json/items"
    then "body/application~1json/items"
    else if id == "input_body/application~1json/anyOf/0"
    then "body/application~1json/anyOf/0"
    else "body/application~1json/properties/a~1b~0c"

-- What an input of this operation is.
abbrev Named : InputNodeKind → String → Type 0
Named kind path = path_of_id (input_node_id_of plain "POST /items" kind path) ≡ path

named :
    (kind other : InputNodeKind) (path other_path : String)
    → kind ≡ other
    → path ≡ other_path
    → Named other other_path
    → Named kind path
named kind other path other_path k p h = rw (k, p) h

no_child : (path : String) (k : InputNodeKind) (q : String) → IsInside any_json path k q → ⊥
unfolding IsInside
no_child path k q (inl x) = absurd x
no_child path k q (inr (inl x)) = absurd x
no_child path k q (inr (inr (inl x))) = absurd x
no_child path k q (inr (inr (inr (inl x)))) = absurd x
no_child path k q (inr (inr (inr (inr x)))) = absurd x

body-Named :
    (kind : InputNodeKind) (path : String)
    → IsInside body_json "body/application~1json" kind path
    → Named kind path
unfolding IsInside path_of_id after_nul clip decimal build_operation_input_nodes
body-Named kind path (inl (inl (writable, inl (k, p)))) = named kind _ path _ k p refl
body-Named kind path (inl (inl (writable, inr x))) = absurd (no_child "" kind path x)
body-Named kind path (inl (inr x)) = absurd x
body-Named kind path (inr (inl (inl (k, p)))) = named kind _ path _ k p refl
body-Named kind path (inr (inl (inr x))) = absurd (no_child "" kind path x)
body-Named kind path (inr (inr (inl x))) = absurd x
body-Named kind path (inr (inr (inr (inl (inl (inl (k, p))))))) = named kind _ path _ k p refl
body-Named kind path (inr (inr (inr (inl (inl (inr x)))))) = absurd (no_child "" kind path x)
body-Named kind path (inr (inr (inr (inl (inr x))))) = absurd x
body-Named kind path (inr (inr (inr (inr x)))) = absurd x

IsInput-Named :
    (kind : InputNodeKind) (path : String) → IsInput plain operation kind path → Named kind path
unfolding path_of_id after_nul clip decimal build_operation_input_nodes IsInside
IsInput-Named kind path (IsInput.of_path x) = absurd x
IsInput-Named kind path (IsInput.of_header x) = absurd x
IsInput-Named kind path (IsInput.of_cookie x) = absurd x
IsInput-Named kind path (IsInput.of_query (inl (inl (k, p)))) = named kind _ path _ k p refl
IsInput-Named kind path (IsInput.of_query (inl (inr x))) = absurd (no_child "" kind path x)
IsInput-Named kind path (IsInput.of_query (inr x)) = absurd x
IsInput-Named kind path (IsInput.of_body (inl (k, p))) = named kind _ path _ k p refl
IsInput-Named kind path (IsInput.of_body (inr (inl (inl (k, p))))) = named kind _ path _ k p refl
IsInput-Named kind path (IsInput.of_body (inr (inl (inr x)))) = body-Named kind path x
IsInput-Named kind path (IsInput.of_body (inr (inr x))) = absurd x

plain-IsCollisionFree : IsCollisionFree plain operation
plain-IsCollisionFree kind other path other_path input other_input same =
    sym (IsInput-Named kind path input)
    ∙ ap path_of_id same
    ∙ IsInput-Named other other_path other_input

build_operation_input_nodes-IsForest_example :
    IsForest (node_snapshots (build_operation_input_nodes plain operation))
build_operation_input_nodes-IsForest_example =
    build_operation_input_nodes-IsForest plain operation plain-IsCollisionFree

property_name-property_path_example :
    property_name "body/application~1json"
      (property_path "body/application~1json" "a/b~c" ++ "/items")
    ≡ some "a/b~c"
unfolding up_to
property_name-property_path_example =
    property_name-property_path "body/application~1json" "a/b~c" "/items" refl

-- A host without numbers.
abbrev texts_only : Host
texts_only = record {
  Number = Unit;
  Object = Unit;
  plus = λ a b. none;
  minus = λ a b. none;
  times = λ a b. none;
  over = λ a b. none;
  is_zero = λ a. true;
  number_eq = λ a b. true;
  number_lt = λ a b. false;
  number_le = λ a b. true;
  object_eq = λ a b. true;
  search = λ p s. some (p == s);
}

-- The page is given, and an item of the body, which has no place in a list yet, is `x`.
abbrev item_is_x : Expressions texts_only
item_is_x = Expressions.cons (BooleanExpression.present "input_query/page") (
    Expressions.cons
      (BooleanExpression.compare CompareOperator.equal
        (ValueExpression.input_value "input_body/application~1json/items")
        (ValueExpression.literal (Value.text "x")))
      Expressions.nil)

validate_constraint_set-indexed_example :
    (validate_constraint_set
        (node_snapshots (build_operation_input_nodes plain operation))
        (λ p. true)
        item_is_x
      ≡ passed item_is_x)
    ⊎ ((error : ConstraintValidationError) × (validate_constraint_set
            (node_snapshots (build_operation_input_nodes plain operation))
            (λ p. true)
            item_is_x
          ≡ refused error)
        × (error.code ≢ constraint_repeated_input))
validate_constraint_set-indexed_example =
    validate_constraint_set-indexed plain operation (λ p. true) item_is_x plain-IsCollisionFree

-- The item of a list is accepted as an input with one value.
item-accepted :
    validate_constraint_set
      (node_snapshots (build_operation_input_nodes plain operation))
      (λ p. true)
      item_is_x
    ≡ passed item_is_x
unfolding build_operation_input_nodes schema_snapshot node_of after_nul decimal
    validate_constraint_set clip
item-accepted = refl
