-- ===== src/ConstraintSolver/Units/Solved.antt =====
-- `_build_search_units`, the order of its units, and the search over them.
use restscope.Prelude.{
  ℕ, ◌+◌, ◌≤◌, ◌≡◌, refl, sym, ap, ◌∙◌, subst, String, Bool, true, Option, none, some, List, [],
  ◌∷◌, ◌++◌, map, All, All-append, contains, unique, arith, inl, inr, ◌⊎◌,
}
use restscope.Prelude.Dicts.{Dict, keys}
use restscope.Inputs.{InputNodeSnapshot}
use restscope.Inputs.Forest.{IsForest}
use restscope.Constraints.Values.{Host, Value, InputAssignment}
use restscope.Constraints.Evaluation.{Assignments}
use restscope.ConstraintSolver.Pruning.{is_item, AreItems}
use restscope.ConstraintSolver.Records.{
  ReferenceValueProvider, InputGeneratorConfig, group_components,
}
use restscope.ConstraintSolver.Search.{SearchUnit, Problem}
use restscope.ConstraintSolver.Solving.{
  SolveOutcome, unit_node_ids, solve_input_overrides, IsRight, solve_input_overrides_exact,
}
use restscope.ConstraintSolver.Exactness.{AreUnits}
use restscope.ConstraintSolver.Units.{
  BuiltUnits, built, constraint_empty_domain, UnitsSoFar, add_groups, domain_of, single_units,
  build_with, build_search_units, order_units,
}
use restscope.ConstraintSolver.Units.Counting.{
  occurrences, occurrences-append, contains-occurrences, occurrences-contains, unique-occurrences,
  IsUnit, occurrences-AreUnits, order_units-All, occurrences-order_units,
}
use restscope.ConstraintSolver.Units.Groups.{
  identifier_inputs, grouped_inputs, occurrences-group_components,
}
use restscope.ConstraintSolver.Units.Building.{add_groups-IsState, All-contained}
use restscope.ConstraintSolver.Units.Filling.{IsIdentifier}

module _ {h : Host} (nodes : List InputNodeSnapshot)
    (domains : Dict (List (InputAssignment h))) where
  -- The values in the domain of an input are acceptable.
  abbrev pub IsDomain : String → Type 0
  IsDomain id = All (λ c. is_item nodes (id, c) ≡ true) (domain_of domains id)

  single_candidates-IsUnit :
      (id : String) (cs : List (InputAssignment h))
      → All (λ c. is_item nodes (id, c) ≡ true) cs
      → IsUnit
          (AreItems nodes)
          (record { node_ids = id ∷ []; candidates = map (λ c. (id, c) ∷ []) cs })
  single_candidates-IsUnit id [] good = (tt, tt)
  single_candidates-IsUnit id (c ∷ cs) (g, good) =
      let rest = single_candidates-IsUnit id cs good in ((refl, rest.0), ((g, tt), rest.1))

  single_units-All :
      (ids : List String)
      → All IsDomain ids
      → All (IsUnit (AreItems nodes)) (single_units domains ids)
  single_units-All [] good = tt
  single_units-All (id ∷ ids) (g, good) =
      (single_candidates-IsUnit id (domain_of domains id) g, single_units-All ids good)

  occurrences-single_units :
      (k : String) (ids : List String)
      → occurrences k (unit_node_ids (single_units domains ids)) ≡ occurrences k ids
  occurrences-single_units k [] = refl
  occurrences-single_units k (id ∷ ids) = ground (arith, occurrences-single_units k ids)

occurrences-unit_node_ids :
    {h : Host} (id : String) (units more : List (SearchUnit h))
    → occurrences id (unit_node_ids (units ++ more))
      ≡ occurrences id (unit_node_ids units) + occurrences id (unit_node_ids more)
occurrences-unit_node_ids id [] more = omega arith
occurrences-unit_node_ids id (u ∷ us) more = omega (
  arith,
  occurrences-append id u.node_ids (unit_node_ids us),
  occurrences-append id u.node_ids (unit_node_ids (us ++ more)),
  occurrences-unit_node_ids id us more,
)

built-injective :
    {h : Host} {units more : List (SearchUnit h)}
    → Path (BuiltUnits h) (built units) (built more)
    → units ≡ more
built-injective {h} {units = units} e = ap (λ b. units_of b) e
  where
    units_of : BuiltUnits h → List (SearchUnit h)
    units_of (built us) = us
    units_of (constraint_empty_domain ids) = units

-- What the configuration and the domains are like: an identifier for an input at most, whose input
-- takes values, and domains of acceptable values for distinct inputs.
pub record IsConfigured {h : Host} {Coordinate : Type 0} (nodes : List InputNodeSnapshot)
    (baseline : Assignments h) (domains : Dict (List (InputAssignment h)))
    (positive_generators : List (InputGeneratorConfig Coordinate)) : Type 0 where
  pub identifiers_once : unique (identifier_inputs positive_generators) ≡ true
  pub domains_once : unique (keys domains) ≡ true
  pub identifiers :
      (id : String)
      → contains id (identifier_inputs positive_generators) ≡ true
      → IsIdentifier nodes baseline id
  pub domain : (id : String) → contains id (keys domains) ≡ true → IsDomain nodes domains id

sum-cases : {A B : Type 0} (s : A ⊎ B) → ((a : A) × (s ≡ inl a)) ⊎ ((b : B) × (s ≡ inr b))
sum-cases (inl a) = inl (a, refl)
sum-cases (inr b) = inr (b, refl)

module _ {h : Host} {Coordinate : Type 0} (nodes : List InputNodeSnapshot)
    (python_eq : Value h → Value h → Bool) (baseline : Assignments h) (max_domain_size : ℕ)
    (domains : Dict (List (InputAssignment h)))
    (positive_generators : List (InputGeneratorConfig Coordinate))
    (configured : IsConfigured nodes baseline domains positive_generators) where
  -- Good units in which no input occurs twice.
  abbrev AreDistinct : List (SearchUnit h) → Type 0
  AreDistinct units =
      All (IsUnit (AreItems nodes)) units
      × ((id : String) → occurrences id (unit_node_ids units) ≤ 1)

  build_with-AreDistinct :
      (reference_values : ReferenceValueProvider h Coordinate) (units : List (SearchUnit h))
      → build_with python_eq baseline max_domain_size reference_values domains positive_generators
        ≡ built units
      → AreDistinct units
  unfolding build_with
  build_with-AreDistinct reference_values units is =
      let groups = group_components python_eq reference_values positive_generators [] in
      let initial : UnitsSoFar h = record { remaining = keys domains; units = [] } in
      let bound = λ (id : String).
        occurrences-group_components id python_eq reference_values positive_generators [] in
      let once = λ (id : String).
        unique-occurrences id (identifier_inputs positive_generators) configured.identifiers_once in
      elim (sum-cases
        (add_groups python_eq baseline max_domain_size reference_values groups initial)) [
          | inl (ids, failed) ↦
              let no_units : constraint_empty_domain ids ≡ built units =
                sym (rw (build_with, failed) refl) ∙ is in
              absurd (ground (arith, no_units))
          | inr (state, added) ↦
              let (good, within) =
                add_groups-IsState nodes python_eq baseline max_domain_size reference_values groups
                  initial state
                  (λ id has. configured.identifiers id (
                    contains-occurrences id (identifier_inputs positive_generators) (
                      omega
                        (arith, bound id, occurrences-contains id (grouped_inputs groups) has))))
                  (record {
                    units_good = tt;
                    apart = λ id. omega (arith, bound id, once id);
                    left_once = λ id.
                        omega (arith, unique-occurrences id (keys domains) configured.domains_once);
                  })
                  added in
              let all_units = state.units ++ single_units domains state.remaining in
              let same : all_units ≡ units =
                built-injective (sym (rw (build_with, added) refl) ∙ is) in
              subst AreDistinct same (
                All-append _ state.units _ good.units_good (
                    single_units-All nodes domains state.remaining (
                      All-contained (IsDomain nodes domains) state.remaining
                        (λ id has. configured.domain id (within id has)))),
                λ id. omega (
                  arith,
                  good.left_once id,
                  occurrences-unit_node_ids id state.units (single_units domains state.remaining),
                  occurrences-single_units nodes domains id state.remaining,
                ),
              )
        ]

  build_search_units-AreUnits :
      (reference_values : Option (ReferenceValueProvider h Coordinate))
      (reference_counts : String → ℕ) (units : List (SearchUnit h))
      → build_search_units python_eq baseline max_domain_size reference_values domains
          positive_generators
        ≡ built units
      → AreUnits (AreItems nodes) (order_units reference_counts units) []
  unfolding build_search_units
  build_search_units-AreUnits reference_values reference_counts units is =
      let (good, once) = distinct reference_values units is in
      occurrences-AreUnits (AreItems nodes) (order_units reference_counts units) []
        (order_units-All (AreItems nodes) reference_counts units good)
        (λ id. omega (arith, once id, occurrences-order_units reference_counts id units))
    where
      distinct :
          (references : Option (ReferenceValueProvider h Coordinate)) (us : List (SearchUnit h))
          → build_search_units python_eq baseline max_domain_size references domains
              positive_generators
            ≡ built us
          → AreDistinct us
      distinct none us e = subst AreDistinct (built-injective e) (
        single_units-All nodes domains (keys domains)
            (All-contained (IsDomain nodes domains) (keys domains) configured.domain),
        λ id. omega (
          arith,
          unique-occurrences id (keys domains) configured.domains_once,
          occurrences-single_units nodes domains id (keys domains),
        ),
      )
      distinct (some reference_values) us e = build_with-AreDistinct reference_values us e

-- In a forest of inputs, with a right configuration, the solver that searches the built units in their
-- order returns, and its outcome is right.
pub solve_input_overrides-build_search_units :
    {h : Host} {Coordinate : Type 0} (problem : Problem h) (forest : IsForest problem.nodes)
    (python_eq : Value h → Value h → Bool) (max_domain_size : ℕ)
    (reference_values : Option (ReferenceValueProvider h Coordinate))
    (domains : Dict (List (InputAssignment h)))
    (positive_generators : List (InputGeneratorConfig Coordinate)) (reference_counts : String → ℕ)
    (units : List (SearchUnit h))
    → IsConfigured problem.nodes problem.baseline domains positive_generators
    → build_search_units python_eq problem.baseline max_domain_size reference_values domains
        positive_generators
      ≡ built units
    → (outcome : SolveOutcome h) × (solve_input_overrides problem
          (order_units reference_counts units)
        ≡ some outcome)
      × IsRight problem forest (order_units reference_counts units) outcome
solve_input_overrides-build_search_units problem forest python_eq max_domain_size reference_values
      domains positive_generators reference_counts units configured is =
    solve_input_overrides_exact problem forest (order_units reference_counts units) (
      build_search_units-AreUnits problem.nodes python_eq problem.baseline max_domain_size domains
        positive_generators configured reference_values reference_counts units is)
