-- ===== src/ConstraintSolver/Records.antt =====
-- `_resource_identifier_records_match`: the components of a resource identifier are those of one record
-- that was observed. The reference values are behind a protocol, and `==` is Python's, so both are
-- parameters.
use restscope.Prelude.{
  String, Bool, true, false, not, ◌||◌, Option, none, some, List, [], ◌∷◌, all, any, if◌then◌else◌,
}
use restscope.Prelude.Dicts.{Dict, get, put}
use restscope.Constraints.Values.{Host, Value, null}
use restscope.Constraints.Evaluation.{Assignments}

-- The coordinates of a response field other than its name are the provider's.
pub record ResourceIdentifierGenerator (Coordinate : Type 0) : Type 0 where
  pub coordinate : Coordinate
  pub field_name : String

-- The methods of `ReferenceValueProvider` that the solver calls.
pub record ReferenceValueProvider (h : Host) (Coordinate : Type 0) : Type 0 where
  pub resource_key : ResourceIdentifierGenerator Coordinate → String
  pub resource_records : ResourceIdentifierGenerator Coordinate → List (Dict (Value h))

-- A Generator configuration, with its strategy if that is a `ResourceIdentifierGenerator`.
pub record InputGeneratorConfig (Coordinate : Type 0) : Type 0 where
  pub input_node_id : String
  pub identifier : Option (ResourceIdentifierGenerator Coordinate)

-- The components of a resource, by the name of their field.
abbrev pub Components : Type 0 → Type 0
Components Coordinate = Dict (String × ResourceIdentifierGenerator Coordinate)

module _ {h : Host} {Coordinate : Type 0} (python_eq : Value h → Value h → Bool)
    (reference_values : ReferenceValueProvider h Coordinate) where
  -- `groups.setdefault(resource_key(strategy), {})[field_name] = (input_node_id, strategy)`
  abbrev pub add_component :
      String
      → ResourceIdentifierGenerator Coordinate
      → Dict (Components Coordinate)
      → Dict (Components Coordinate)
  add_component input_node_id strategy groups =
      let key = reference_values.resource_key strategy in
      let members : Components Coordinate = elim (get key groups) [
        | some found ↦ found
        | none ↦ []
      ] in
      put key (put strategy.field_name (input_node_id, strategy) members) groups

  unfoldable pub group_components :
      List (InputGeneratorConfig Coordinate)
      → Dict (Components Coordinate)
      → Dict (Components Coordinate)
  group_components [] groups = groups
  group_components (item ∷ items) groups = elim (item.identifier) [
    | none ↦ group_components items groups
    | some strategy ↦ group_components items (add_component item.input_node_id strategy groups)
  ]

  -- The values of the components, `none` where one is missing.
  unfoldable pub selected_values : Components Coordinate → Assignments h → Option (Dict (Value h))
  selected_values [] assignments = some []
  selected_values ((component, (node_id, strategy)) ∷ rest) assignments =
      let later = selected_values rest assignments in
      elim (assignments node_id) [
        | none ↦ none
        | some assignment ↦
            if not assignment.present || not assignment.has_value then none else elim later [
              | none ↦ none
              | some selected ↦ some ((component, assignment.value) ∷ selected)
            ]
      ]

  -- `record.get(name) == value`
  abbrev field_matches : Dict (Value h) → (String × Value h) → Bool
  field_matches record' (name, value) = elim (get name record') [
    | none ↦ python_eq null value
    | some found ↦ python_eq found value
  ]

  unfoldable pub group_matches : Assignments h → (String × Components Coordinate) → Bool
  unfolding selected_values
  group_matches assignments (resource, []) = true
  group_matches assignments (resource, (component, (node_id, first_strategy)) ∷ rest) =
      elim (selected_values ((component, (node_id, first_strategy)) ∷ rest) assignments) [
        | none ↦ false
        | some selected ↦
            any (λ record'. all (field_matches record') selected)
              (reference_values.resource_records first_strategy)
      ]

-- The test on the assignments; without reference values it is passed.
unfoldable pub resource_identifier_records_match :
    {h : Host} {Coordinate : Type 0}
    → (Value h → Value h → Bool)
    → Option (ReferenceValueProvider h Coordinate)
    → List (InputGeneratorConfig Coordinate)
    → Assignments h
    → Bool
unfolding group_components group_matches
resource_identifier_records_match python_eq none positive_generators assignments = true
resource_identifier_records_match python_eq (some reference_values) positive_generators
      assignments =
    all (group_matches python_eq reference_values assignments)
      (group_components python_eq reference_values positive_generators [])
