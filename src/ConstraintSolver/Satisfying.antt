-- ===== src/ConstraintSolver/Satisfying.antt =====
-- The choices behind a solution of the solver.
use restscope.Prelude.{
  ◌≡◌, refl, ap, sym, ◌∙◌, subst, true, Option, none, some, List, [], ◌∷◌, ◌++◌, ◌⊎◌, inl, inr, map,
  arith, Option-cases,
}
use restscope.Constraints.Values.{Host}
use restscope.Constraints.Evaluation.{Assignments, evaluate_constraint_set}
use restscope.ConstraintSolver.Candidates.{Overrides, complete_candidate}
use restscope.Inputs.Forest.{IsForest}
use restscope.ConstraintSolver.Pruning.{AreItems}
use restscope.ConstraintSolver.Search.{SearchUnit, Problem, accepted}
use restscope.ConstraintSolver.Choices.{extend, choices, first}
use restscope.ConstraintSolver.Exactness.{AreUnits}
use restscope.ConstraintSolver.Reading.{result_of}
use restscope.ConstraintSolver.Solving.{
  solution, IsRight, solve_input_overrides, solve_input_overrides_exact,
}

abbrev pub IsOneOf : {A : Type 0} → A → List A → Type 0
IsOneOf x [] = ⊥
IsOneOf x (y ∷ ys) = (x ≡ y) ⊎ IsOneOf x ys

-- A selection that takes one candidate of each unit.
abbrev pub IsChoice : {h : Host} → List (SearchUnit h) → Overrides h → Type 0
IsChoice [] choice = choice ≡ []
IsChoice {h = h} (unit ∷ units) choice =
    (c : Overrides h) × (rest : Overrides h) × IsOneOf c unit.candidates
    × IsChoice units rest
    × (choice ≡ c ++ rest)

module _ {h : Host} where
  IsOneOf-append :
      (p : Overrides h) (ps qs : List (Overrides h))
      → IsOneOf p (ps ++ qs)
      → IsOneOf p ps ⊎ IsOneOf p qs
  IsOneOf-append p [] qs one = inr one
  IsOneOf-append p (x ∷ ps) qs (inl e) = inl (inl e)
  IsOneOf-append p (x ∷ ps) qs (inr one) = elim (IsOneOf-append p ps qs one) [
    | inl l ↦ inl (inr l)
    | inr r ↦ inr r
  ]

  IsOneOf-map :
      (p c : Overrides h) (ps : List (Overrides h))
      → IsOneOf p (map (λ q. c ++ q) ps)
      → (q : Overrides h) × IsOneOf q ps × (p ≡ c ++ q)
  IsOneOf-map p c [] one = absurd one
  IsOneOf-map p c (x ∷ ps) (inl e) = (x, inl refl, e)
  IsOneOf-map p c (x ∷ ps) (inr one) =
      let later = IsOneOf-map p c ps one in (later.0, inr later.1, later.2)

  IsOneOf-extend :
      (p : Overrides h) (cs ps : List (Overrides h))
      → IsOneOf p (extend cs ps)
      → (c : Overrides h) × (q : Overrides h) × IsOneOf c cs × IsOneOf q ps × (p ≡ c ++ q)
  IsOneOf-extend p [] ps one = absurd one
  IsOneOf-extend p (c ∷ cs) ps one =
      elim (IsOneOf-append p (map (λ q. c ++ q) ps) (extend cs ps) one) [
        | inl here_first ↦
            let found = IsOneOf-map p c ps here_first in (c, found.0, inl refl, found.1, found.2)
        | inr later ↦
            let found = IsOneOf-extend p cs ps later in
            (found.0, found.1, inr found.2, found.3, found.4)
      ]

  choices-IsChoice :
      (units : List (SearchUnit h)) (p : Overrides h) → IsOneOf p (choices units) → IsChoice units p
  choices-IsChoice [] p (inl e) = e
  choices-IsChoice [] p (inr never) = absurd never
  choices-IsChoice (unit ∷ units) p one =
      let found = IsOneOf-extend p unit.candidates (choices units) one in
      (found.0, found.1, found.2, choices-IsChoice units found.1 found.3, found.4)

  first-IsOneOf :
      (result : Overrides h → Option (Overrides h)) (ps : List (Overrides h)) (o : Overrides h)
      → first result [] ps ≡ some o
      → (p : Overrides h) × IsOneOf p ps × (result p ≡ some o)
  first-IsOneOf result [] o e = absurd (ground arith)
  first-IsOneOf result (p ∷ ps) o e = elim (Option-cases (result p)) [
    | inl nothing ↦
        let later = first-IsOneOf result ps o (ground arith) in (later.0, inr later.1, later.2)
    | inr (found, is) ↦ (p, inl refl, ground arith)
  ]

  module _ (problem : Problem h) where
    -- What it takes to complete a choice to a solution.
    abbrev pub Satisfies : Overrides h → Overrides h → Type 0
    Satisfies choice overrides =
        (assignments : Assignments h) × (complete_candidate problem.nodes choice problem.baseline
          ≡ some (some (assignments, overrides)))
        × (problem.records_match assignments ≡ true)
        × (evaluate_constraint_set assignments problem.constraints ≡ true)

    result_of-Satisfies :
        (choice o : Overrides h) → result_of problem choice ≡ some o → Satisfies choice o
    unfolding accepted
    result_of-Satisfies choice o e =
        elim (Option-cases (complete_candidate problem.nodes choice problem.baseline)) [
          | inl stuck ↦ absurd (ground arith)
          | inr (none, is) ↦ absurd (ground arith)
          | inr (some (assignments, overrides), is) ↦ (
            assignments,
            is ∙ ap (λ x. some (some (assignments, x))) (ground arith),
            ground arith,
            ground arith,
          )
        ]

    -- If the parents of the inputs form a forest, the units are for distinct inputs, and their candidates
    -- assign just these, each with an acceptable override (of a known input, in a valid state, and with
    -- no value if the input has children), a solution is a completion of one candidate of each unit, whose assignments match the resource records and
    -- satisfy the constraint set.
    pub solution-Satisfies :
        (forest : IsForest problem.nodes) (units : List (SearchUnit h)) (overrides : Overrides h)
        → AreUnits (AreItems problem.nodes) units []
        → solve_input_overrides problem units ≡ some (solution overrides)
        → (choice : Overrides h) × IsChoice units choice × Satisfies choice overrides
    solution-Satisfies forest units overrides are solved =
        let exact = solve_input_overrides_exact problem forest units are in
        let same : exact.0 ≡ solution overrides =
          let both : some exact.0 ≡ some (solution overrides) = sym exact.1 ∙ solved in
          ground arith in
        let found =
          first-IsOneOf (result_of problem) (choices units) overrides
            (subst (IsRight problem forest units) same exact.2) in
        (
          found.0,
          choices-IsChoice units found.0 found.1,
          result_of-Satisfies found.0 overrides found.2,
        )
