-- ===== src/ConstraintSolver/Units.antt =====
-- `_build_search_units`, and the order of the units. The order in which a set is gone through is that of
-- the domains here. `reference_counts` are the counts of `_reference_counts`.
pub mod Counting
pub mod Groups
pub mod Filling
pub mod Building
pub mod Solved
use Prim.Native.String.{compare}
use Prim.Native.Nat.{Ordering}
use restscope.Prelude.{
  text_gt, ◌==◌, ℕ, zero, suc, ◌+◌, String, Bool, true, false, not, ◌&&◌, ◌||◌, Option, none, some,
  List, [], ◌∷◌, ◌++◌, map, keep, any, all, length, contains, ltb, leb, eqb, is_none, ◌⊎◌, inl, inr,
  if◌then◌else◌,
}
use restscope.Prelude.Dicts.{Dict, get, put_all, keys}
use restscope.Constraints.Values.{Host, Value, null, InputAssignment}
use restscope.Constraints.Evaluation.{Assignments}
use restscope.ConstraintSolver.Candidates.{Overrides}
use restscope.ConstraintSolver.Records.{
  ResourceIdentifierGenerator, ReferenceValueProvider, InputGeneratorConfig, Components,
  group_components,
}
use restscope.ConstraintSolver.Search.{SearchUnit}

-- The units, or a `ConstraintSolveError` for the inputs of a resource without a complete record.
pub data BuiltUnits (h : Host) : Type 0 where
  built : List (SearchUnit h) → BuiltUnits h
  constraint_empty_domain : List String → BuiltUnits h

-- `units`, and the rest of the domains' inputs.
pub record UnitsSoFar (h : Host) : Type 0 where
  pub remaining : List String
  pub units : List (SearchUnit h)

-- `xs[:n]`
abbrev pub first_of {ℓ} : {A : Type ℓ} → ℕ → List A → List A
first_of zero xs = []
first_of (suc n) [] = []
first_of (suc n) (x ∷ xs) = x ∷ first_of n xs

abbrev pub component_ids_of : {Coordinate : Type 0} → Components Coordinate → List String
component_ids_of [] = []
component_ids_of ((component, (node_id, strategy)) ∷ components) =
    node_id ∷ component_ids_of components

-- The items of the comprehension over the components, `none` if one is not in the record.
abbrev pub record_items :
    {h : Host} {Coordinate : Type 0} → Dict (Value h) → Components Coordinate → Option (Overrides h)
record_items record' [] = some []
record_items record' ((component, (node_id, strategy)) ∷ components) =
    let rest = record_items record' components in
    elim (get component record') [
      | none ↦ none
      | some value ↦ elim rest [
        | none ↦ none
        | some items ↦
            some ((node_id, record { present = true; has_value = true; value = value }) ∷ items)
      ]
    ]

-- `baseline.get(node_id, InputAssignment(present=False))`
abbrev pub baseline_item : {h : Host} → Assignments h → String → InputAssignment h
baseline_item baseline node_id = elim (baseline node_id) [
  | some assignment ↦ assignment
  | none ↦ record { present = false; has_value = false; value = null }
]

abbrev pub baseline_items : {h : Host} → Assignments h → List String → Overrides h
baseline_items baseline [] = []
baseline_items baseline (id ∷ ids) = (id, baseline_item baseline id) ∷ baseline_items baseline ids

-- A group gives a unit if it has more than one component, and one of a remaining input.
abbrev pub is_skipped : {Coordinate : Type 0} → Components Coordinate → List String → Bool
is_skipped components remaining =
    leb (length components) 1
    || not (any (λ id. contains id remaining) (component_ids_of components))

abbrev pub records_of :
    {h : Host} {Coordinate : Type 0}
    → ReferenceValueProvider h Coordinate
    → Components Coordinate
    → List (Dict (Value h))
records_of reference_values [] = []
records_of reference_values ((component, (node_id, first_strategy)) ∷ components) =
    reference_values.resource_records first_strategy

abbrev domain_of : {h : Host} → Dict (List (InputAssignment h)) → String → List (InputAssignment h)
domain_of domains id = elim (get id domains) [ some domain ↦ domain | none ↦ [] ]

-- The units of the inputs that are left.
abbrev pub single_units :
    {h : Host} → Dict (List (InputAssignment h)) → List String → List (SearchUnit h)
single_units domains [] = []
single_units domains (id ∷ ids) =
    record { node_ids = id ∷ []; candidates = map (λ c. (id, c) ∷ []) (domain_of domains id) }
    ∷ single_units domains ids

module _ {h : Host} (python_eq : Value h → Value h → Bool) where
  -- `==` of two overrides, and of two dicts of them.
  abbrev override_eq : InputAssignment h → InputAssignment h → Bool
  override_eq a b =
      (if a.present then b.present else not b.present)
      && (if a.has_value then b.has_value else not b.has_value)
      && python_eq a.value b.value

  unfoldable pub candidate_eq : Overrides h → Overrides h → Bool
  candidate_eq c d =
      eqb (length c) (length d)
      && all (λ item. elim (get item.0 d) [ none ↦ false | some b ↦ override_eq item.1 b ]) c

  -- The loop over the records.
  unfoldable pub add_records :
      {Coordinate : Type 0}
      → Components Coordinate
      → List (Dict (Value h))
      → List (Overrides h)
      → List (Overrides h)
  unfolding candidate_eq
  add_records components [] candidates = candidates
  add_records components (record' ∷ records) candidates = elim (record_items record' components) [
    | none ↦ add_records components records candidates
    | some items ↦ add_records components records (
        if any (candidate_eq (put_all [] items)) candidates
        then candidates
        else candidates ++ put_all [] items ∷ [])
  ]

  -- `candidates.remove(…)`, which takes the first one that is equal.
  abbrev pub remove_first : Overrides h → List (Overrides h) → List (Overrides h)
  remove_first c [] = []
  remove_first c (d ∷ ds) =
      let rest = remove_first c ds in if candidate_eq d c then ds else d ∷ rest

  unfoldable pub baseline_first :
      Assignments h → List String → List (Overrides h) → List (Overrides h)
  unfolding candidate_eq
  baseline_first baseline node_ids candidates =
      let baseline_candidate = put_all [] (baseline_items baseline node_ids) in
      if any (λ c. candidate_eq c baseline_candidate) candidates
      then baseline_candidate ∷ remove_first baseline_candidate candidates
      else candidates

  module _ {Coordinate : Type 0} (baseline : Assignments h) (max_domain_size : ℕ)
      (reference_values : ReferenceValueProvider h Coordinate) where
    abbrev pub with_group : List String → List (Overrides h) → UnitsSoFar h → UnitsSoFar h
    with_group node_ids candidates state = record {
      remaining = keep (λ id. not (contains id node_ids)) state.remaining;
      units =
          state.units
          ++ record {
            node_ids = node_ids;
            candidates = first_of max_domain_size (baseline_first baseline node_ids candidates);
          }
            ∷ [];
    }

    -- The loop over the groups.
    unfoldable pub add_groups :
        Dict (Components Coordinate) → UnitsSoFar h → List String ⊎ UnitsSoFar h
    unfolding add_records baseline_first
    add_groups [] state = inr state
    add_groups ((resource, components) ∷ groups) state =
        let node_ids = component_ids_of components in
        let candidates = add_records components (records_of reference_values components) [] in
        let skipped = add_groups groups state in
        if is_skipped components state.remaining then skipped else (elim candidates [
          | [] ↦ inl node_ids
          | ◌∷◌ c cs ↦ add_groups groups (with_group node_ids (c ∷ cs) state)
        ])

    -- `_build_search_units` with reference values.
    unfoldable pub build_with :
        Dict (List (InputAssignment h)) → List (InputGeneratorConfig Coordinate) → BuiltUnits h
    unfolding add_groups group_components
    build_with domains positive_generators =
        elim (add_groups (group_components python_eq reference_values positive_generators [])
          (record { remaining = keys domains; units = [] })) [
            | inl node_ids ↦ constraint_empty_domain node_ids
            | inr state ↦ built (state.units ++ single_units domains state.remaining)
          ]

  -- `_build_search_units`
  unfoldable pub build_search_units :
      {Coordinate : Type 0}
      → Assignments h
      → ℕ
      → Option (ReferenceValueProvider h Coordinate)
      → Dict (List (InputAssignment h))
      → List (InputGeneratorConfig Coordinate)
      → BuiltUnits h
  unfolding build_with
  build_search_units baseline max_domain_size none domains positive_generators =
      built (single_units domains (keys domains))
  build_search_units baseline max_domain_size (some reference_values) domains positive_generators =
      build_with baseline max_domain_size reference_values domains positive_generators

-- The order of the units: by the size, the negated sum of the references, and the tuple of inputs.
abbrev pub ids_gt : List String → List String → Bool
ids_gt [] ys = false
ids_gt (x ∷ xs) [] = true
ids_gt (x ∷ xs) (y ∷ ys) = if x == y then ids_gt xs ys else text_gt x y

abbrev pub sum_of : (String → ℕ) → List String → ℕ
sum_of reference_counts [] = 0
sum_of reference_counts (id ∷ ids) = reference_counts id + sum_of reference_counts ids

abbrev pub unit_gt : {h : Host} → (String → ℕ) → SearchUnit h → SearchUnit h → Bool
unit_gt reference_counts a b =
    let references_a = sum_of reference_counts a.node_ids in
    let references_b = sum_of reference_counts b.node_ids in
    ltb (length b.candidates) (length a.candidates)
    || eqb (length a.candidates) (length b.candidates)
      && (ltb references_a references_b
          || eqb references_a references_b && ids_gt a.node_ids b.node_ids)

abbrev pub insert_unit :
    {h : Host} → (String → ℕ) → SearchUnit h → List (SearchUnit h) → List (SearchUnit h)
insert_unit reference_counts unit [] = unit ∷ []
insert_unit reference_counts unit (u ∷ us) =
    let rest = insert_unit reference_counts unit us in
    if unit_gt reference_counts unit u then u ∷ rest else unit ∷ (u ∷ us)

-- `sorted(search_units, key=…)`
unfoldable pub order_units : {h : Host} → (String → ℕ) → List (SearchUnit h) → List (SearchUnit h)
order_units reference_counts [] = []
order_units reference_counts (unit ∷ units) =
    insert_unit reference_counts unit (order_units reference_counts units)
