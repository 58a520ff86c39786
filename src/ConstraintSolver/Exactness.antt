-- ===== src/ConstraintSolver/Exactness.antt =====
-- The search of the solver beside the list of all choices.
pub mod Endings
pub mod Candidates
use restscope.Prelude.{
  ℕ, suc, ◌+◌, ◌≤◌, ◌<◌, ◌≡◌, refl, ap, sym, ◌∙◌, subst, Bool, true, false, Option, none, some,
  List, [], ◌∷◌, ◌++◌, ◌⊎◌, inl, inr, String, length, All, arith, Bool-cases, Option-cases, map,
  if◌then◌else◌, leb,
}
use restscope.Prelude.Dicts.{
  IsFresh, keys, keys-append, put_all, put_all-new, put_all-old, pop_all, pop_all-old, pop_all-new,
}
use restscope.Constraints.Values.{Host}
use restscope.ConstraintSolver.Candidates.{Overrides}
use restscope.ConstraintSolver.Search.{
  SearchUnit, SearchState, Problem, Searched, select, no_unit, is_pruned, accepted, search_leaf,
  search_candidates, search,
}
use restscope.ConstraintSolver.Choices.{
  extend, choices, or_else, first, first-append, first-map, first-none, first-skip, first-found,
  length-extend, extend-Good,
}
use restscope.ConstraintSolver.Exactness.Endings.{Behaviour, Failed, Ended, Runs, search_leaf-Runs}
use restscope.ConstraintSolver.Exactness.Candidates.{
  Left, NextRuns, pop_all-Left, search_candidates-Runs,
}

-- Units for inputs that no other unit has, whose candidates assign just their inputs.
abbrev pub AreUnits :
    {h : Host} → (Overrides h → Type 0) → List (SearchUnit h) → List String → Type 0
AreUnits Good [] used = Unit
AreUnits Good (unit ∷ units) used =
    IsFresh unit.node_ids used
    × All (λ c. keys c ≡ unit.node_ids) unit.candidates
    × All Good unit.candidates
    × AreUnits Good units (used ++ unit.node_ids)

module _ {h : Host} {problem : Problem h} (behaviour : Behaviour problem) where
  open behaviour use {Good, joined, good_nil, prune, result, is_pruned_is, accepted_is, prune_sound}

  choices-Good :
      (units : List (SearchUnit h)) (used : List String)
      → AreUnits Good units used
      → All Good (choices units)
  choices-Good [] used good_units = (good_nil, tt)
  choices-Good (unit ∷ units) used (fresh, same, goods, rest) =
      extend-Good Good joined unit.candidates (choices units) goods
        (choices-Good units (used ++ unit.node_ids) rest)

  abbrev unit_end : List String → SearchState h → Option (Overrides h) → SearchState h
  unit_end ids after (some o) = after
  unit_end ids after none =
      if after.exhausted then after else select (pop_all ids after.selected) after

  unit_end-Ended :
      (ids : List String) (selected : Overrides h) (ps : List (Overrides h)) (e : ℕ)
      (after : SearchState h) (r : Option (Overrides h))
      → IsFresh ids (keys selected)
      → Ended behaviour selected ps e (Left ids selected) after r
      → Ended behaviour selected ps e (λ x. x ≡ selected) (unit_end ids after r) r
  unit_end-Ended ids selected ps e after (some o) fresh ended = ended
  unit_end-Ended ids selected ps e after none fresh ended = elim (Bool-cases after.exhausted) [
    | inl full ↦
        let kept : unit_end ids after none ≡ after = rw full refl in
        let over : Failed behaviour true selected ps e (Left ids selected) after =
          subst (λ b. Failed behaviour b selected ps e (Left ids selected) after) full ended in
        subst (λ x. Failed behaviour x.exhausted selected ps e (λ y. y ≡ selected) x) (sym kept)
          (subst (λ b. Failed behaviour b selected ps e (λ y. y ≡ selected) after) (sym full) over)
    | inr under ↦
        let popped = select (pop_all ids after.selected) after in
        let dropped : unit_end ids after none ≡ popped = rw under refl in
        let through : Failed behaviour false selected ps e (Left ids selected) after =
          subst (λ b. Failed behaviour b selected ps e (Left ids selected) after) under ended in
        subst (λ x. Failed behaviour x.exhausted selected ps e (λ y. y ≡ selected) x) (sym dropped)
          (subst (λ b. Failed behaviour b selected ps e (λ y. y ≡ selected) popped) (sym under)
            (
              through.0,
              pop_all-Left ids selected after.selected fresh through.1,
              through.2,
              through.3,
            ))
  ]

  search-end :
      (unit : SearchUnit h) (units : List (SearchUnit h)) (s after : SearchState h)
      (r : Option (Overrides h))
      → search_candidates problem (search problem units) (no_unit units) unit.candidates s
        ≡ some (after, r)
      → search problem (unit ∷ units) s ≡ some (unit_end unit.node_ids after r, r)
  unfolding search
  search-end unit units s after (some o) e = rw (e, search) refl
  search-end unit units s after none e = rw (e, search) refl

  -- What a search over some units does from a selection of others.
  pub search-Runs :
      (units : List (SearchUnit h)) (selected : Overrides h) (s : SearchState h)
      → Good selected
      → AreUnits Good units (keys selected)
      → s.selected ≡ selected
      → s.exhausted ≡ false
      → s.explored ≤ problem.max_search_states
      → Runs behaviour
          (search problem units s)
          selected
          (choices units)
          s.explored
          (λ x. x ≡ selected)
  unfolding search
  search-Runs [] selected s good are same on bound =
      search_leaf-Runs behaviour selected s good same on bound
  search-Runs (unit ∷ units) selected s good (fresh, all_keys, goods, rest) same on bound =
      let next_runs : (c : Overrides h)
          → keys c ≡ unit.node_ids
          → Good c
          → NextRuns behaviour (search problem units) (selected ++ c) (choices units) =
        λ c keys_c good_c t. search-Runs units (selected ++ c) t (joined selected c good good_c) (
          subst (AreUnits Good units)
            (ap (λ ks. keys selected ++ ks) (sym keys_c) ∙ sym (keys-append selected c)) rest) in
      let through =
        search_candidates-Runs behaviour (search problem units) (no_unit units) unit.node_ids
          selected (choices units) good (choices-Good units (keys selected ++ unit.node_ids) rest)
          fresh next_runs unit.candidates s all_keys goods (inl same) on bound in
      (
        unit_end unit.node_ids through.0 through.1,
        through.1,
        search-end unit units s through.0 through.1 through.2,
        unit_end-Ended unit.node_ids selected (choices (unit ∷ units)) s.explored through.0
            through.1 fresh through.3,
      )
