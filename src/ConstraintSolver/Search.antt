-- ===== src/ConstraintSolver/Search.antt =====
-- The depth-first search of `solve_input_overrides`. Its `nonlocal` variables are the search state; the
-- index into the units is the list of the units that are left. An outer `none` is that of the
-- candidates: the search does not return.
use restscope.Prelude.{
  ℕ, suc, String, Bool, true, false, not, Option, none, some, List, [], ◌∷◌, if◌then◌else◌, leb,
}
use restscope.Prelude.Dicts.{put_all, pop_all}
use restscope.Constraints.Values.{Host}
use restscope.Constraints.Expressions.{Expressions}
use restscope.Constraints.Evaluation.{
  Assignments, is_false, evaluate_constraint_set, evaluate_constraint_set_partial,
}
use restscope.Inputs.{InputNodeSnapshot}
use restscope.ConstraintSolver.Candidates.{Overrides, partial_candidate, complete_candidate}

-- `_SearchUnit`: inputs that are assigned together, and the choices for them.
pub record SearchUnit (h : Host) : Type 0 where
  pub node_ids : List String
  pub candidates : List (Overrides h)

-- `selected`, `explored` and `exhausted`.
pub record SearchState (h : Host) : Type 0 where
  pub selected : Overrides h
  pub explored : ℕ
  pub exhausted : Bool

-- What the search works on: the inputs, the constraint set, the baseline's assignments, the test of the
-- resource identifiers, and `max_search_states`.
pub record Problem (h : Host) : Type 0 where
  pub nodes : List InputNodeSnapshot
  pub constraints : Expressions h
  pub baseline : Assignments h
  pub records_match : Assignments h → Bool
  pub max_search_states : ℕ

abbrev pub Searched : Host → Type 0
Searched h = Option (SearchState h × Option (Overrides h))

abbrev pub select : {h : Host} → Overrides h → SearchState h → SearchState h
select chosen s = record { selected = chosen; explored = s.explored; exhausted = s.exhausted }

abbrev pub no_unit : {h : Host} → List (SearchUnit h) → Bool
no_unit [] = true
no_unit (u ∷ us) = false

module _ {h : Host} (problem : Problem h) where
  -- Whether a selection is pruned: `partial is None or … is False`.
  unfoldable pub is_pruned : Overrides h → Option Bool
  unfolding partial_candidate evaluate_constraint_set_partial
  is_pruned selected = elim (partial_candidate problem.nodes selected) [
    | none ↦ none
    | some none ↦ some true
    | some (some partial) ↦
        some (is_false (evaluate_constraint_set_partial partial problem.constraints))
  ]

  -- What a complete selection gives.
  unfoldable pub accepted : Overrides h → Option (Option (Overrides h))
  unfolding complete_candidate evaluate_constraint_set
  accepted selected = elim (complete_candidate problem.nodes selected problem.baseline) [
    | none ↦ none
    | some none ↦ some none
    | some (some (assignments, overrides)) ↦ some (
        if not (problem.records_match assignments)
        then none
        else if evaluate_constraint_set assignments problem.constraints
        then some overrides
        else none)
  ]

  -- `search` at the end of the units.
  unfoldable pub search_leaf : SearchState h → Searched h
  unfolding accepted
  search_leaf s =
      if leb problem.max_search_states s.explored
      then some (record { selected = s.selected; explored = s.explored; exhausted = true }, none)
      else elim (accepted s.selected) [
        | none ↦ none
        | some result ↦ some (
          record { selected = s.selected; explored = suc s.explored; exhausted = s.exhausted },
          result,
        )
      ]

  -- The loop over the candidates of a unit, with the search of the units after it.
  unfoldable pub search_candidates :
      (SearchState h → Searched h) → Bool → List (Overrides h) → SearchState h → Searched h
  unfolding is_pruned
  search_candidates search_next last [] s = some (s, none)
  search_candidates search_next last (candidate ∷ rest) s =
      let chosen = select (put_all s.selected candidate) s in
      elim (if last then some false else is_pruned chosen.selected) [
        | none ↦ none
        | some true ↦ search_candidates search_next last rest chosen
        | some false ↦ elim (search_next chosen) [
          | none ↦ none
          | some (after, some result) ↦ some (after, some result)
          | some (after, none) ↦ elim (after.exhausted) [
            | true ↦ some (after, none)
            | false ↦ search_candidates search_next last rest after
          ]
        ]
      ]

  -- `search`
  unfoldable pub search : List (SearchUnit h) → SearchState h → Searched h
  unfolding search_leaf search_candidates
  search [] s = search_leaf s
  search (unit ∷ units) s =
      elim (search_candidates (search units) (no_unit units) unit.candidates s) [
        | none ↦ none
        | some (after, some result) ↦ some (after, some result)
        | some (after, none) ↦ some (
          if after.exhausted then after else select (pop_all unit.node_ids after.selected) after,
          none,
        )
      ]
