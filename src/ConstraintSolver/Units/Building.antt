-- ===== src/ConstraintSolver/Units/Building.antt =====
-- The loop over the groups in `_build_search_units`.
use restscope.Prelude.{
  ℕ, ◌+◌, ◌≤◌, ◌≡◌, refl, sym, ap, ◌∙◌, subst, String, Bool, true, false, not, ◌⊎◌, List, [], ◌∷◌,
  ◌++◌, keep, All, All-append, contains, eq_refl, ◌==◌, arith, Bool-cases, inl, inr, eq_iff,
}
use restscope.Prelude.Dicts.{contains-append, Dict}
use restscope.Inputs.{InputNodeSnapshot}
use restscope.Constraints.Values.{Host, Value}
use restscope.Constraints.Evaluation.{Assignments}
use restscope.ConstraintSolver.Candidates.{Overrides}
use restscope.ConstraintSolver.Pruning.{AreItems}
use restscope.ConstraintSolver.Records.{ReferenceValueProvider, Components}
use restscope.ConstraintSolver.Search.{SearchUnit}
use restscope.ConstraintSolver.Solving.{unit_node_ids}
use restscope.ConstraintSolver.Units.{
  UnitsSoFar, component_ids_of, add_records, is_skipped, records_of, with_group, add_groups,
}
use restscope.ConstraintSolver.Units.Counting.{
  occurrences, occurrences-append, occurrences-IsFresh, IsUnit,
}
use restscope.ConstraintSolver.Units.Groups.{grouped_inputs}
use restscope.ConstraintSolver.Units.Filling.{IsIdentifier, group-IsUnit}

occurrences-keep :
    (id : String) (ids xs : List String)
    → occurrences id (keep (λ x. not (contains x ids)) xs) + occurrences id ids
      ≤ occurrences id xs + occurrences id ids
occurrences-keep id ids [] = omega arith
occurrences-keep id ids (x ∷ xs) = ground (arith, occurrences-keep id ids xs)

-- What is kept does not occur in the other list.
occurrences-kept :
    (id : String) (ids xs : List String)
    → contains id ids ≡ true
    → occurrences id (keep (λ x. not (contains x ids)) xs) ≡ 0
occurrences-kept id ids [] has = refl
occurrences-kept id ids (x ∷ xs) has = elim (Bool-cases (id == x)) [
  | inl same ↦
      let there : contains x ids ≡ true =
        subst (λ z. contains z ids ≡ true) ((eq_iff id x).0 same) has in
      ground (arith, occurrences-kept id ids xs has)
  | inr other ↦ ground (arith, occurrences-kept id ids xs has)
]

occurrences-absent :
    (id : String) (ids : List String) → contains id ids ≡ false → occurrences id ids ≡ 0
occurrences-absent id [] missing = refl
occurrences-absent id (x ∷ xs) missing = ground (arith, occurrences-absent id xs)

occurrences-append_unit :
    {h : Host} (id : String) (units : List (SearchUnit h)) (unit : SearchUnit h)
    → occurrences id (unit_node_ids (units ++ unit ∷ []))
      ≡ occurrences id (unit_node_ids units) + occurrences id unit.node_ids
occurrences-append_unit id [] unit = omega (arith, occurrences-append id unit.node_ids [])
occurrences-append_unit id (u ∷ us) unit = omega (
  arith,
  occurrences-append id u.node_ids (unit_node_ids us),
  occurrences-append id u.node_ids (unit_node_ids (us ++ unit ∷ [])),
  occurrences-append_unit id us unit,
)

pub right_of : {A B : Type 0} {b c : B} → Path (A ⊎ B) (inr b) (inr c) → b ≡ c
right_of {b = b} e = ap (λ s. elim s [ inl a ↦ b | inr x ↦ x ]) e

List-cases : {A : Type 0} (xs : List A) → (xs ≡ []) ⊎ ((y : A) × (ys : List A) × (xs ≡ y ∷ ys))
List-cases [] = inl refl
List-cases (x ∷ xs) = inr (x, xs, refl)

contains-keep :
    (p : String → Bool) (id : String) (xs : List String)
    → contains id (keep p xs) ≡ true
    → contains id xs ≡ true
contains-keep p id [] has = has
contains-keep p id (x ∷ xs) has = ground (arith, contains-keep p id xs)

pub All-contained :
    (P : String → Type 0) (ids : List String)
    → ((id : String) → contains id ids ≡ true → P id)
    → All P ids
All-contained P [] holds = tt
All-contained P (x ∷ xs) holds =
    (holds x (ground (arith, eq_refl x)), All-contained P xs (λ id has. holds id (ground arith)))

module _ {h : Host} (nodes : List InputNodeSnapshot) (python_eq : Value h → Value h → Bool)
    {Coordinate : Type 0} (baseline : Assignments h) (max_domain_size : ℕ)
    (reference_values : ReferenceValueProvider h Coordinate) where
  -- What holds of the units and the rest of the inputs before some groups.
  pub record IsState (groups : Dict (Components Coordinate)) (state : UnitsSoFar h) : Type 0 where
    pub units_good : All (IsUnit (AreItems nodes)) state.units
    pub apart :
        (id : String)
        → occurrences id (unit_node_ids state.units) + occurrences id (grouped_inputs groups) ≤ 1
    pub left_once :
        (id : String)
        → occurrences id state.remaining + occurrences id (unit_node_ids state.units) ≤ 1

  with_group-IsState :
      (resource : String) (components : Components Coordinate)
      (groups : Dict (Components Coordinate)) (state : UnitsSoFar h) (c : Overrides h)
      (cs : List (Overrides h))
      → All (IsIdentifier nodes baseline) (component_ids_of components)
      → add_records python_eq components (records_of reference_values components) [] ≡ c ∷ cs
      → IsState ((resource, components) ∷ groups) state
      → IsState groups (
          with_group python_eq baseline max_domain_size reference_values
            (component_ids_of components)
            (c ∷ cs)
            state)
  with_group-IsState resource components groups state c cs identifiers is good =
      let ids = component_ids_of components in
      let split = λ (id : String). occurrences-append id ids (grouped_inputs groups) in
      record {
        units_good = All-append _ state.units _ good.units_good (
          group-IsUnit nodes python_eq baseline max_domain_size reference_values components c cs
              (occurrences-IsFresh ids [] (λ id. omega (arith, good.apart id, split id)))
              identifiers is,
          tt,
        );
        apart =
            λ id. omega (arith, good.apart id, split id, occurrences-append_unit id state.units _);
        left_once = λ id. elim (Bool-cases (contains id ids)) [
          | inl has ↦ omega (
            arith,
            good.apart id,
            split id,
            occurrences-kept id ids state.remaining has,
            occurrences-append_unit id state.units _,
          )
          | inr other ↦ omega (
            arith,
            good.left_once id,
            occurrences-keep id ids state.remaining,
            occurrences-append_unit id state.units _,
            occurrences-absent id ids other,
          )
        ];
      }

  pub add_groups-IsState :
      (groups : Dict (Components Coordinate)) (state after : UnitsSoFar h)
      → ((id : String)
          → contains id (grouped_inputs groups) ≡ true
          → IsIdentifier nodes baseline id)
      → IsState groups state
      → add_groups python_eq baseline max_domain_size reference_values groups state ≡ inr after
      → IsState [] after
        × ((id : String) → contains id after.remaining ≡ true → contains id state.remaining ≡ true)
  unfolding add_groups
  add_groups-IsState [] state after identifiers good is =
      let same : state ≡ after = right_of is in
      (
        subst (IsState []) same good,
        λ id has. subst (λ (s : UnitsSoFar h). contains id s.remaining ≡ true) (sym same) has,
      )
  add_groups-IsState ((resource, components) ∷ groups) state after identifiers good is =
      let ids = component_ids_of components in
      let add = add_groups python_eq baseline max_domain_size reference_values in
      let later_identifiers : (id : String)
          → contains id (grouped_inputs groups) ≡ true
          → IsIdentifier nodes baseline id =
        λ id has. identifiers id (contains-append id ids (grouped_inputs groups) ∙ ground arith) in
      elim (Bool-cases (is_skipped components state.remaining)) [
        | inl skip ↦
            let next : add groups state ≡ inr after = sym (rw (add_groups, skip) refl) ∙ is in
            let skipped : IsState groups state = record {
              units_good = good.units_good;
              apart = λ id.
                  omega (arith, good.apart id, occurrences-append id ids (grouped_inputs groups));
              left_once = good.left_once;
            } in
            add_groups-IsState groups state after later_identifiers skipped next
        | inr taken ↦
            elim (List-cases
              (add_records python_eq components (records_of reference_values components) [])) [
                | inl nothing ↦
                    let failed : Path (List String ⊎ UnitsSoFar h) (inl ids) (inr after) =
                      sym (rw (add_groups, taken, nothing) refl) ∙ is in
                    absurd (ground (arith, failed))
                | inr (c, cs, found) ↦
                    let state_with =
                      with_group python_eq baseline max_domain_size reference_values ids (c ∷ cs)
                        state in
                    let next : add groups state_with ≡ inr after =
                      sym (rw (add_groups, taken, found) refl) ∙ is in
                    let (done, within) =
                      add_groups-IsState groups state_with after later_identifiers
                        (with_group-IsState resource components groups state c cs
                          (All-contained (IsIdentifier nodes baseline) ids (λ id has.
                            identifiers id
                              (contains-append id ids (grouped_inputs groups) ∙ ground arith)))
                          found good)
                        next in
                    (done, λ id has. contains-keep _ id state.remaining (within id has))
              ]
      ]
