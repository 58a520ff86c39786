-- ===== src/ConstraintSolver/Units/Groups.antt =====
-- The inputs in the groups of resource identifiers, each in one place.
use restscope.Prelude.{
  ◌+◌, ◌≤◌, ◌≡◌, refl, ap, ◌∙◌, String, Bool, true, false, none, some, List, [], ◌∷◌, ◌++◌, ◌==◌,
  if◌then◌else◌, arith, Bool-cases, Option-cases, inl, inr,
}
use restscope.Prelude.Dicts.{Dict, get, put}
use restscope.Constraints.Values.{Host, Value}
use restscope.ConstraintSolver.Records.{
  ResourceIdentifierGenerator, ReferenceValueProvider, InputGeneratorConfig, Components,
  add_component, group_components,
}
use restscope.ConstraintSolver.Units.{component_ids_of}
use restscope.ConstraintSolver.Units.Counting.{occurrences, occurrences-append}

-- The inputs whose strategy is a resource identifier, and those in the groups.
abbrev pub identifier_inputs :
    {Coordinate : Type 0} → List (InputGeneratorConfig Coordinate) → List String
identifier_inputs [] = []
identifier_inputs (item ∷ items) = elim item.identifier [
  | none ↦ identifier_inputs items
  | some strategy ↦ item.input_node_id ∷ identifier_inputs items
]

abbrev pub grouped_inputs : {Coordinate : Type 0} → Dict (Components Coordinate) → List String
grouped_inputs [] = []
grouped_inputs ((resource, components) ∷ groups) =
    component_ids_of components ++ grouped_inputs groups

abbrev members :
    {Coordinate : Type 0} → String → Dict (Components Coordinate) → Components Coordinate
members key groups = elim (get key groups) [ some found ↦ found | none ↦ [] ]

members-cons :
    {Coordinate : Type 0} (key other : String) (old : Components Coordinate)
    (groups : Dict (Components Coordinate)) (b : Bool)
    → (key == other) ≡ b
    → members key ((other, old) ∷ groups) ≡ (if b then old else members key groups)
members-cons {Coordinate} key other old groups b e = ap (choose b) e ∙ by_bool b
  where
    choose : Bool → Bool → Components Coordinate
    choose c d = elim (if d then some old else get key groups) [ some found ↦ found | none ↦ [] ]

    by_bool : (c : Bool) → choose c c ≡ (if c then old else members key groups)
    by_bool true = refl
    by_bool false = refl

module _ {Coordinate : Type 0} (id : String) where
  occurrences-put_component :
      (name input : String) (strategy : ResourceIdentifierGenerator Coordinate)
      (components : Components Coordinate)
      → occurrences id (component_ids_of (put name (input, strategy) components))
        ≤ occurrences id (input ∷ component_ids_of components)
  occurrences-put_component name input strategy [] = omega arith
  occurrences-put_component name input strategy ((other, (node_id, old)) ∷ components) =
      elim (Bool-cases (name == other)) [
        | inl same ↦ rw same (ground arith)
        | inr apart ↦
            rw apart (ground (arith, occurrences-put_component name input strategy components))
      ]

  occurrences-put_group :
      (key : String) (components : Components Coordinate) (groups : Dict (Components Coordinate))
      → occurrences id (grouped_inputs (put key components groups))
          + occurrences id (component_ids_of (members key groups))
        ≡ occurrences id (grouped_inputs groups) + occurrences id (component_ids_of components)
  occurrences-put_group key components [] =
      omega (arith, occurrences-append id (component_ids_of components) [])
  occurrences-put_group key components ((other, old) ∷ groups) = elim (Bool-cases (key == other)) [
    | inl same ↦ rw same (
        omega (
          arith,
          ap (λ c. occurrences id (component_ids_of c))
              (members-cons key other old groups true same),
          occurrences-append id (component_ids_of components) (grouped_inputs groups),
          occurrences-append id (component_ids_of old) (grouped_inputs groups),
        ))
    | inr apart ↦ rw apart (
        omega (
          arith,
          ap (λ c. occurrences id (component_ids_of c))
              (members-cons key other old groups false apart),
          occurrences-append id (component_ids_of old) (grouped_inputs groups),
          occurrences-append id (component_ids_of old) (grouped_inputs (put key components groups)),
          occurrences-put_group key components groups,
        ))
  ]

  module _ {h : Host} (python_eq : Value h → Value h → Bool)
      (reference_values : ReferenceValueProvider h Coordinate) where
    occurrences-add_component :
        (input : String) (strategy : ResourceIdentifierGenerator Coordinate)
        (groups : Dict (Components Coordinate))
        → occurrences id
            (grouped_inputs (add_component python_eq reference_values input strategy groups))
          ≤ occurrences id (input ∷ grouped_inputs groups)
    occurrences-add_component input strategy groups =
        let key = reference_values.resource_key strategy in
        let old = members key groups in
        ground (
          arith,
          occurrences-put_group key (put strategy.field_name (input, strategy) old) groups,
          occurrences-put_component strategy.field_name input strategy old,
        )

    -- No input is in more groups than there are identifiers for it.
    pub occurrences-group_components :
        (items : List (InputGeneratorConfig Coordinate)) (groups : Dict (Components Coordinate))
        → occurrences id (grouped_inputs (group_components python_eq reference_values items groups))
          ≤ occurrences id (identifier_inputs items) + occurrences id (grouped_inputs groups)
    unfolding group_components
    occurrences-group_components [] groups = omega arith
    occurrences-group_components (item ∷ items) groups = elim (Option-cases item.identifier) [
      | inl e ↦ rw (e, group_components) (occurrences-group_components items groups)
      | inr (strategy, e) ↦
          let added = add_component python_eq reference_values item.input_node_id strategy groups in
          rw (e, group_components)
            (ground (
              arith,
              occurrences-group_components items added,
              occurrences-add_component item.input_node_id strategy groups,
            ))
    ]
