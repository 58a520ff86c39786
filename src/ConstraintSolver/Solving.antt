-- ===== src/ConstraintSolver/Solving.antt =====
-- The end of `solve_input_overrides`: the search over the ordered units, and its errors.
use restscope.Prelude.{
  ◌≤◌, ◌<◌, ◌≡◌, refl, ap, ◌∙◌, subst, String, Bool, true, false, Option, none, some, List, [], ◌∷◌,
  ◌++◌, length, arith, Bool-cases, inl, inr, if◌then◌else◌, ltb,
}
use restscope.Constraints.Values.{Host}
use restscope.ConstraintSolver.Candidates.{Overrides}
use restscope.Inputs.Forest.{IsForest}
use restscope.ConstraintSolver.Pruning.{AreItems}
use restscope.ConstraintSolver.Search.{SearchUnit, SearchState, Problem, search}
use restscope.ConstraintSolver.Choices.{choices, first}
use restscope.ConstraintSolver.Exactness.{AreUnits, search-Runs}
use restscope.ConstraintSolver.Reading.{result_of, behaviour}
use restscope.ConstraintSolver.Exactness.Endings.{Ended, Failed}

-- A `ConstraintSolveError` has its code and the inputs of the units.
pub data SolveOutcome (h : Host) : Type 0 where
  solution : Overrides h → SolveOutcome h
  constraint_search_exhausted : List String → SolveOutcome h
  constraint_unsatisfiable : List String → SolveOutcome h
  limit_not_positive : SolveOutcome h

abbrev pub unit_node_ids : {h : Host} → List (SearchUnit h) → List String
unit_node_ids [] = []
unit_node_ids (unit ∷ units) = unit.node_ids ++ unit_node_ids units

abbrev pub start : {h : Host} → SearchState h
start = record { selected = []; explored = 0; exhausted = false }

abbrev conclude :
    {h : Host} → List (SearchUnit h) → (SearchState h × Option (Overrides h)) → SolveOutcome h
conclude units (after, some overrides) = solution overrides
conclude units (after, none) =
    if after.exhausted
    then constraint_search_exhausted (unit_node_ids units)
    else constraint_unsatisfiable (unit_node_ids units)

unfoldable pub solve_input_overrides :
    {h : Host} → Problem h → List (SearchUnit h) → Option (SolveOutcome h)
unfolding search
solve_input_overrides problem ordered_units =
    if ltb problem.max_search_states 1
    then some limit_not_positive
    else elim (search problem ordered_units start) [
      | none ↦ none
      | some searched ↦ some (conclude ordered_units searched)
    ]

-- The first choice that has a result, by brute force.
abbrev pub first_solution : {h : Host} → Problem h → List (SearchUnit h) → Option (Overrides h)
first_solution problem units = first (result_of problem) [] (choices units)

module _ {h : Host} (problem : Problem h) (forest : IsForest problem.nodes) where
  -- What an outcome says of the choices.
  abbrev pub IsRight : List (SearchUnit h) → SolveOutcome h → Type 0
  IsRight units (solution o) = first_solution problem units ≡ some o
  IsRight units (constraint_unsatisfiable ids) =
      (first_solution problem units ≡ none) × (ids ≡ unit_node_ids units)
  IsRight units (constraint_search_exhausted ids) =
      (problem.max_search_states < length (choices units)) × (ids ≡ unit_node_ids units)
  IsRight units limit_not_positive = problem.max_search_states ≡ 0

  abbrev Finished : List (SearchUnit h) → SearchState h → Option (Overrides h) → Type 0
  Finished units after r =
      Ended (behaviour problem forest) [] (choices units) 0 (λ x. x ≡ []) after r

  abbrev Unfinished : Bool → List (SearchUnit h) → SearchState h → Type 0
  Unfinished b units after =
      Failed (behaviour problem forest) b [] (choices units) 0 (λ x. x ≡ []) after

  conclude-IsRight :
      (units : List (SearchUnit h)) (after : SearchState h) (r : Option (Overrides h))
      → Finished units after r
      → IsRight units (conclude units (after, r))
  conclude-IsRight units after (some o) ended = ended.0
  conclude-IsRight units after none ended = elim (Bool-cases after.exhausted) [
    | inl full ↦
        let over : Unfinished true units after = subst (λ b. Unfinished b units after) full ended in
        rw full (omega (arith, over.1), refl)
    | inr under ↦
        let through : Unfinished false units after =
          subst (λ b. Unfinished b units after) under ended in
        rw under (through.0, refl)
  ]

  explored-bound :
      (units : List (SearchUnit h)) (after : SearchState h) (r : Option (Overrides h))
      → Finished units after r
      → after.explored ≤ problem.max_search_states
  explored-bound units after (some o) ended = ended.1
  explored-bound units after none ended = elim (Bool-cases after.exhausted) [
    | inl full ↦
        let over : Unfinished true units after = subst (λ b. Unfinished b units after) full ended in
        omega (arith, over.0)
    | inr under ↦
        let through : Unfinished false units after =
          subst (λ b. Unfinished b units after) under ended in
        through.2
  ]

  search_start :
      (units : List (SearchUnit h))
      → AreUnits (AreItems problem.nodes) units []
      → (after : SearchState h) × (r : Option (Overrides h)) × (search problem units start
          ≡ some (after, r))
        × Finished units after r
  search_start units are =
      search-Runs (behaviour problem forest) units [] start tt are refl refl (omega arith)

  -- If the parents of the inputs form a forest, the units are for distinct inputs, and their candidates
  -- assign just these, each with an acceptable override (of a known input, in a valid state, and with no
  -- value if the input has children), the search returns after it has evaluated at most
  -- `max_search_states` choices.
  pub search-bound :
      (units : List (SearchUnit h))
      → AreUnits (AreItems problem.nodes) units []
      → (after : SearchState h) × (r : Option (Overrides h)) × (search problem units start
          ≡ some (after, r))
        × (after.explored ≤ problem.max_search_states)
  search-bound units are =
      let searched = search_start units are in
      (searched.0, searched.1, searched.2, explored-bound units searched.0 searched.1 searched.3)

  -- If the parents of the inputs form a forest, the units are for distinct inputs, and their candidates
  -- assign just these, each with an acceptable override (of a known input, in a valid state, and with no
  -- value if the input has children), the solver returns. A solution is that of the first choice that has one, by brute force. Unsatisfiable means
  -- that no choice has one, and an exhausted search that there are more choices than it may evaluate.
  pub solve_input_overrides_exact :
      (units : List (SearchUnit h))
      → AreUnits (AreItems problem.nodes) units []
      → (outcome : SolveOutcome h) × (solve_input_overrides problem units ≡ some outcome)
        × IsRight units outcome
  unfolding solve_input_overrides
  solve_input_overrides_exact units are = elim (Bool-cases (ltb problem.max_search_states 1)) [
    | inl none_allowed ↦ (limit_not_positive, rw none_allowed refl, ground arith)
    | inr allowed ↦
        let searched = search_start units are in
        (
          conclude units (searched.0, searched.1),
          rw (allowed, searched.2) refl,
          conclude-IsRight units searched.0 searched.1 searched.3,
        )
  ]

  abbrev pub by_brute_force : List (SearchUnit h) → SolveOutcome h
  by_brute_force units = elim (first_solution problem units) [
    | some overrides ↦ solution overrides
    | none ↦ constraint_unsatisfiable (unit_node_ids units)
  ]

  -- If the parents of the inputs form a forest, the units are for distinct inputs, their candidates
  -- assign just these, each with an acceptable override (of a known input, in a valid state, and with no
  -- value if the input has children), and `max_search_states` is positive and no less than the number of
  -- choices, the solver returns the outcome of the brute force.
  pub solve_input_overrides-by_brute_force :
      (units : List (SearchUnit h))
      → AreUnits (AreItems problem.nodes) units []
      → 1 ≤ problem.max_search_states
      → length (choices units) ≤ problem.max_search_states
      → solve_input_overrides problem units ≡ some (by_brute_force units)
  solve_input_overrides-by_brute_force units are positive enough =
      let solved = solve_input_overrides_exact units are in
      solved.1 ∙ ap some (only solved.0 solved.2)
    where
      only : (outcome : SolveOutcome h) → IsRight units outcome → outcome ≡ by_brute_force units
      only (solution o) found = rw (found, by_brute_force) refl
      only (constraint_unsatisfiable ids) (missing, same) =
          rw (missing, by_brute_force) (ap constraint_unsatisfiable same)
      only (constraint_search_exhausted ids) (more, same) = absurd (omega arith)
      only limit_not_positive zero_limit = absurd (omega arith)
