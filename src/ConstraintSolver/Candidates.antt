-- ===== src/ConstraintSolver/Candidates.antt =====
-- `_partial_candidate` and `_complete_candidate`: the assignment that the selected overrides amount to,
-- with the presence of their parents. An inner `none` is the `None` that both return for a present
-- input below an absent one. The outer `none` is a `KeyError` for an input that is not there, or a
-- chain of parents that does not end.
use restscope.Prelude.{
  ℕ, zero, suc, String, Bool, true, false, not, Option, none, some, List, [], ◌∷◌, ◌==◌,
  if◌then◌else◌, length,
}
use restscope.Inputs.{InputNodeSnapshot, node_of}
use restscope.Prelude.Dicts.{Dict, get, put}
use restscope.Constraints.Values.{Host, null, InputAssignment}
use restscope.Constraints.Evaluation.{Assignments, is_present}

-- `InputAssignment(present=True)`
abbrev pub here : {h : Host} → InputAssignment h
here = record { present = true; has_value = false; value = null }

-- `assignments[node_id] = assignment`
abbrev pub assign : {h : Host} → String → InputAssignment h → Assignments h → Assignments h
assign node_id a σ id = if id == node_id then some a else σ id

-- An `InputNodeOverride` is an `InputAssignment`; the overrides are a dict.
abbrev pub Overrides : Host → Type 0
Overrides h = Dict (InputAssignment h)

-- `dict(baseline)` after `assignments[node_id] = override` for the items of a dict.
abbrev pub assigned : {h : Host} → Overrides h → Assignments h → Assignments h
assigned overrides baseline id = elim (get id overrides) [ some a ↦ some a | none ↦ baseline id ]

-- `explicit is not None and not explicit.present`
abbrev pub explicitly_absent : {h : Host} → Overrides h → String → Bool
explicitly_absent selected id = elim (get id selected) [ none ↦ false | some a ↦ not a.present ]

-- What `_complete_candidate` does for a parent: an override only where the baseline lacks it.
unfoldable pub complete_parent :
    {h : Host}
    → Assignments h
    → String
    → (Assignments h × Overrides h)
    → (Assignments h × Overrides h)
complete_parent baseline parent_id (σ, overrides) =
    let added = put parent_id here overrides in
    (assign parent_id here σ, if is_present (baseline parent_id) then overrides else added)

module _ {h : Host} (nodes : List InputNodeSnapshot) (selected : Overrides h) where
  module _ {A : Type 0} (mark : String → A → A) where
    -- The loop over the parents of an input, which marks each of them.
    unfoldable pub climb : ℕ → Option String → A → Option (Option A)
    unfolding node_of
    climb n none a = some (some a)
    climb zero (some parent_id) a = none
    climb (suc n) (some parent_id) a =
        if explicitly_absent selected parent_id then some none else elim (node_of nodes parent_id) [
          | none ↦ none
          | some node ↦ climb n node.parent_node_id (mark parent_id a)
        ]

    -- The loop over the selected inputs, of which the absent ones are passed over.
    unfoldable pub climb_each : Overrides h → A → Option (Option A)
    unfolding climb
    climb_each [] a = some (some a)
    climb_each ((node_id, override) ∷ rest) a =
        if not override.present then climb_each rest a else elim (node_of nodes node_id) [
          | none ↦ none
          | some node ↦ elim (climb (length nodes) node.parent_node_id a) [
            | none ↦ none
            | some none ↦ some none
            | some (some marked) ↦ climb_each rest marked
          ]
        ]

  -- `_partial_candidate`
  unfoldable pub partial_candidate : Option (Option (Assignments h))
  unfolding climb_each
  partial_candidate =
      climb_each (λ parent_id σ. assign parent_id here σ) selected (assigned selected (λ id. none))

  -- `_complete_candidate`
  unfoldable pub complete_candidate : Assignments h → Option (Option (Assignments h × Overrides h))
  unfolding climb_each complete_parent
  complete_candidate baseline =
      climb_each (complete_parent baseline) selected (assigned selected baseline, selected)
