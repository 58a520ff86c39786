-- ===== src/ConstraintSolver/Reading.antt =====
-- What the solver prunes and accepts in a forest of inputs.
use restscope.Prelude.{
  ◌≡◌, refl, ap, sym, ◌∙◌, Bool, true, false, not, Option, none, some, ◌++◌, All-append, arith,
  Bool-cases, inl, inr, if◌then◌else◌,
}
use restscope.Constraints.Values.{Host}
use restscope.Constraints.Evaluation.{
  is_false, evaluate_constraint_set, evaluate_constraint_set_partial,
}
use restscope.Constraints.Evaluation.Soundness.{evaluate_constraint_set_partial_sound}
use restscope.ConstraintSolver.Candidates.{Overrides}
use restscope.Inputs.Forest.{IsForest}
use restscope.ConstraintSolver.Pruning.{
  AreItems, in_conflict, partial_assignment, completed, partial_candidate_exact,
  complete_candidate_exact, in_conflict-append, partial-Extends,
}
use restscope.ConstraintSolver.Search.{Problem, is_pruned, accepted}
use restscope.ConstraintSolver.Exactness.Endings.{Behaviour}

-- What one choice gives by itself.
abbrev pub result_of : {h : Host} → Problem h → Overrides h → Option (Overrides h)
result_of problem choice = elim (accepted problem choice) [ some r ↦ r | none ↦ none ]

module _ {h : Host} (problem : Problem h) (forest : IsForest problem.nodes) where
  abbrev pub prune : Overrides h → Bool
  prune selected =
      if in_conflict problem.nodes selected
      then true
      else is_false (
          evaluate_constraint_set_partial (partial_assignment problem.nodes selected)
            problem.constraints)

  pub is_pruned_exact :
      (selected : Overrides h)
      → AreItems problem.nodes selected
      → is_pruned problem selected ≡ some (prune selected)
  unfolding is_pruned
  is_pruned_exact selected items =
      let partial = partial_candidate_exact problem.nodes forest selected items in
      elim (Bool-cases (in_conflict problem.nodes selected)) [
        | inl e ↦ rw (partial, is_pruned, e) refl
        | inr e ↦ rw (partial, is_pruned, e) refl
      ]

  accepted-conflict :
      (selected : Overrides h)
      → AreItems problem.nodes selected
      → in_conflict problem.nodes selected ≡ true
      → accepted problem selected ≡ some none
  unfolding accepted
  accepted-conflict selected items e =
      rw
        (complete_candidate_exact problem.nodes forest problem.baseline selected items, accepted, e)
        refl

  accepted-free :
      (selected : Overrides h)
      → AreItems problem.nodes selected
      → in_conflict problem.nodes selected ≡ false
      → let complete = completed problem.nodes problem.baseline selected in
        accepted problem selected
        ≡ some (
            if not (problem.records_match complete.0)
            then none
            else if evaluate_constraint_set complete.0 problem.constraints
            then some complete.1
            else none)
  unfolding accepted
  accepted-free selected items e =
      rw
        (complete_candidate_exact problem.nodes forest problem.baseline selected items, accepted, e)
        refl

  result_of-accepted :
      (selected : Overrides h) (r : Option (Overrides h))
      → accepted problem selected ≡ some r
      → result_of problem selected ≡ r
  result_of-accepted selected r e = rw (e, result_of) refl

  pub accepted_exact :
      (selected : Overrides h)
      → AreItems problem.nodes selected
      → accepted problem selected ≡ some (result_of problem selected)
  accepted_exact selected items = elim (Bool-cases (in_conflict problem.nodes selected)) [
    | inl e ↦
        let is = accepted-conflict selected items e in
        is ∙ ap some (sym (result_of-accepted selected _ is))
    | inr e ↦
        let is = accepted-free selected items e in
        is ∙ ap some (sym (result_of-accepted selected _ is))
  ]

  pub prune_sound :
      (selected more : Overrides h)
      → AreItems problem.nodes selected
      → AreItems problem.nodes more
      → prune selected ≡ true
      → result_of problem (selected ++ more) ≡ none
  prune_sound selected more items items_more pruned =
      let both = selected ++ more in
      let items_both : AreItems problem.nodes both = All-append _ selected more items items_more in
      elim (Bool-cases (in_conflict problem.nodes both)) [
        | inl conflict ↦ result_of-accepted both none (accepted-conflict both items_both conflict)
        | inr free ↦
            let at_first : in_conflict problem.nodes selected ≡ false =
              elim (Bool-cases (in_conflict problem.nodes selected)) [
                | inl e ↦ absurd (ground (arith, in_conflict-append problem.nodes selected more e))
                | inr e ↦ e
              ] in
            let decided : evaluate_constraint_set_partial
                  (partial_assignment problem.nodes selected) problem.constraints
                ≡ some false =
              decided_false _ (sym (rw at_first refl) ∙ pruned) in
            let unsatisfied =
              evaluate_constraint_set_partial_sound (partial_assignment problem.nodes selected)
                ((completed problem.nodes problem.baseline both).0) problem.constraints false
                (partial-Extends problem.nodes problem.baseline selected more items free) decided in
            result_of-accepted both none
              (accepted-free both items_both free ∙ rw unsatisfied (without _ none))
      ]
    where
      decided_false : (r : Option Bool) → is_false r ≡ true → r ≡ some false
      decided_false (some false) e = refl
      decided_false (some true) e = absurd (ground arith)
      decided_false none e = absurd (ground arith)

      without :
          (b : Bool) (nothing : Option (Overrides h))
          → some (if not b then nothing else nothing) ≡ some nothing
      without true nothing = refl
      without false nothing = refl

  -- The search as the brute force reads it.
  abbrev pub behaviour : Behaviour problem
  behaviour = record {
    Good = AreItems problem.nodes;
    joined = λ a b. All-append _ a b;
    good_nil = tt;
    prune = prune;
    result = result_of problem;
    is_pruned_is = is_pruned_exact;
    accepted_is = accepted_exact;
    prune_sound = prune_sound;
  }
