-- ===== src/ConstraintSolver/Tests.antt =====
-- A search over two inputs of a query object, whose product must exceed their sum.
use restscope.Prelude.{
  is_some, contains, Bool-cases, inl, inr, subst, sym, eq_iff, ℕ, ◌+◌, ◌-◌, ◌*◌, ◌≤◌, ◌<◌, ◌≡◌,
  refl, String, true, false, Option, none, some, List, [], ◌∷◌, ltb, leb, eqb, ◌==◌, arith,
  if◌then◌else◌,
}
use restscope.Constraints.Values.{
  Host, Value, InputAssignment, validate_value_state, CompareOperator, ArithmeticOperator,
  values_equal,
}
use restscope.Constraints.Expressions.{ValueExpression, BooleanExpression, Expressions}
use restscope.Inputs.{InputNodeSnapshot, node_of}
use restscope.ConstraintSolver.Candidates.{Overrides}
use restscope.Inputs.Forest.{IsForest}
use restscope.ConstraintSolver.Pruning.{AreItems}
use restscope.ConstraintSolver.Records.{
  ReferenceValueProvider, InputGeneratorConfig, resource_identifier_records_match,
}
use restscope.ConstraintSolver.Search.{SearchUnit, SearchState, Problem, search}
use restscope.ConstraintSolver.Exactness.{AreUnits}
use restscope.ConstraintSolver.Solving.{
  SolveOutcome, start, solve_input_overrides, IsRight, search-bound, solve_input_overrides_exact,
  first_solution, by_brute_force, solve_input_overrides-by_brute_force,
}
use restscope.Prelude.Dicts.{Dict}
use restscope.ConstraintSolver.Units.{build_search_units, order_units}
use restscope.ConstraintSolver.Units.Filling.{IsIdentifier}
use restscope.ConstraintSolver.Units.Solved.{
  IsDomain, IsConfigured, solve_input_overrides-build_search_units,
}
use restscope.ConstraintSolver.Satisfying.{IsChoice, Satisfies, solution-Satisfies}

abbrev naturals : Host
naturals = record {
  Number = ℕ;
  Object = String;
  plus = λ a b. some (a + b);
  minus = λ a b. some (a - b);
  times = λ a b. some (a * b);
  over = λ a b. none;
  is_zero = λ a. eqb a 0;
  number_eq = eqb;
  number_lt = ltb;
  number_le = leb;
  object_eq = ◌==◌;
  search = λ p s. some (p == s);
}

abbrev nodes : List InputNodeSnapshot
nodes =
    record {
      input_node_id = "page";
      node_kind = "scalar";
      schema_contract = none;
      canonical_path = "page";
      parent_node_id = none;
    }
    ∷ record {
      input_node_id = "limit";
      node_kind = "scalar";
      schema_contract = none;
      canonical_path = "limit";
      parent_node_id = some "page";
    }
    ∷ record {
      input_node_id = "offset";
      node_kind = "scalar";
      schema_contract = none;
      canonical_path = "offset";
      parent_node_id = some "page";
    }
    ∷ []

abbrev is_number : ℕ → InputAssignment naturals
is_number n = record { present = true; has_value = true; value = Value.number n }

abbrev gone : InputAssignment naturals
gone = record { present = false; has_value = false; value = Value.null }

abbrev constraints : Expressions naturals
constraints =
    Expressions.cons
      (BooleanExpression.implies (BooleanExpression.present "offset") (
        BooleanExpression.compare CompareOperator.greater
          (ValueExpression.arithmetic ArithmeticOperator.multiply
            (ValueExpression.input_value "limit") (ValueExpression.input_value "offset"))
          (ValueExpression.arithmetic ArithmeticOperator.add (ValueExpression.input_value "limit")
            (ValueExpression.input_value "offset"))))
      (Expressions.cons (BooleanExpression.present "offset") Expressions.nil)

-- The two inputs identify a resource, of which two were observed.
abbrev observed : ReferenceValueProvider naturals ℕ
observed = record {
  resource_key = λ strategy. "window";
  resource_records = λ strategy.
      (("limit", Value.number 2) ∷ ("offset", Value.number 2) ∷ [])
      ∷ (("limit", Value.number 5) ∷ ("offset", Value.number 3) ∷ [])
      ∷ [];
}

abbrev generators : List (InputGeneratorConfig ℕ)
generators =
    record {
      input_node_id = "limit";
      identifier = some (record { coordinate = 0; field_name = "limit" });
    }
    ∷ record {
      input_node_id = "offset";
      identifier = some (record { coordinate = 0; field_name = "offset" });
    }
    ∷ []

abbrev problem : ℕ → Problem naturals
problem limit = record {
  nodes = nodes;
  constraints = constraints;
  baseline = λ id. if id == "offset" then some gone else none;
  records_match = resource_identifier_records_match values_equal (some observed) generators;
  max_search_states = limit;
}

abbrev units : List (SearchUnit naturals)
units =
    record {
      node_ids = "limit" ∷ [];
      candidates = (("limit", is_number 1) ∷ []) ∷ (("limit", is_number 5) ∷ []) ∷ [];
    }
    ∷ record {
      node_ids = "offset" ∷ [];
      candidates =
          (("offset", gone) ∷ [])
          ∷ (("offset", is_number 2) ∷ [])
          ∷ (("offset", is_number 3) ∷ [])
          ∷ [];
    }
    ∷ []

abbrev found : Overrides naturals
found =
    ("limit", is_number 5)
    ∷ ("offset", is_number 3)
    ∷ ("page", record { present = true; has_value = false; value = Value.null })
    ∷ []

solved : solve_input_overrides (problem 10) units ≡ some (SolveOutcome.solution found)
unfolding solve_input_overrides resource_identifier_records_match
solved = refl

abbrev depth : String → ℕ
depth id = if id == "page" then 0 else 1

below-page :
    (id p : String) (node : InputNodeSnapshot)
    → node_of nodes id ≡ some node
    → node.parent_node_id ≡ some p
    → (p ≡ "page") × (depth id ≡ 1)
unfolding node_of
below-page id p node at below = elim (Bool-cases (id == "offset")) [
  | inl e ↦ rw ((eq_iff id "offset").0 e) (ground arith, refl)
  | inr other ↦ elim (Bool-cases (id == "limit")) [
    | inl e ↦ rw ((eq_iff id "limit").0 e) (ground arith, refl)
    | inr neither ↦ absurd (ground arith)
  ]
]

nodes-IsForest : IsForest nodes
unfolding node_of
nodes-IsForest = record {
  depth = depth;
  parent_found = λ id p node at below.
      let of_page = below-page id p node at below in
      subst
        (λ q.
          ((parent : InputNodeSnapshot) × (node_of nodes q ≡ some parent)) × (depth q < depth id))
        (sym of_page.0)
        (
          (
            record {
              input_node_id = "page";
              node_kind = "scalar";
              schema_contract = none;
              canonical_path = "page";
              parent_node_id = none;
            },
            refl,
          ),
          omega (arith, of_page.1),
        );
}

units-AreUnits : AreUnits (AreItems nodes) units []
unfolding node_of validate_value_state
units-AreUnits = (
  (refl, refl, tt),
  (refl, (refl, tt)),
  ((refl, tt), ((refl, tt), tt)),
  ((refl, refl, tt), (refl, (refl, (refl, tt))), ((refl, tt), ((refl, tt), ((refl, tt), tt))), tt),
)

search-bound_example :
    (after : SearchState naturals) × (r : Option (Overrides naturals)) × (search
        (problem 10)
        units
        start
      ≡ some (after, r))
    × (after.explored ≤ 10)
search-bound_example = search-bound (problem 10) nodes-IsForest units units-AreUnits

solve_input_overrides_exact_example :
    (outcome : SolveOutcome naturals) × (solve_input_overrides (problem 10) units ≡ some outcome)
    × IsRight (problem 10) nodes-IsForest units outcome
solve_input_overrides_exact_example =
    solve_input_overrides_exact (problem 10) nodes-IsForest units units-AreUnits

solve_input_overrides-by_brute_force_example :
    solve_input_overrides (problem 6) units ≡ some (by_brute_force (problem 6) nodes-IsForest units)
solve_input_overrides-by_brute_force_example =
    solve_input_overrides-by_brute_force (problem 6) nodes-IsForest units units-AreUnits
      (omega arith) (omega arith)

solution-Satisfies_example :
    (choice : Overrides naturals) × IsChoice units choice × Satisfies (problem 10) choice found
solution-Satisfies_example =
    solution-Satisfies (problem 10) nodes-IsForest units found units-AreUnits solved

-- The search units of the two identifiers are one, with a candidate for each observed record.
abbrev domains : Dict (List (InputAssignment naturals))
domains = ("limit", is_number 2 ∷ []) ∷ ("offset", gone ∷ []) ∷ []

abbrev record_unit : List (SearchUnit naturals)
record_unit =
    record {
      node_ids = "limit" ∷ "offset" ∷ [];
      candidates =
          (("limit", is_number 2) ∷ ("offset", is_number 2) ∷ [])
          ∷ (("limit", is_number 5) ∷ ("offset", is_number 3) ∷ [])
          ∷ [];
    }
    ∷ []

two_inputs :
    (P : String → Type 0) (id : String)
    → contains id ("limit" ∷ "offset" ∷ []) ≡ true
    → P "limit"
    → P "offset"
    → P id
two_inputs P id has limit offset = elim (Bool-cases (id == "limit")) [
  | inl e ↦ subst P (sym ((eq_iff id "limit").0 e)) limit
  | inr other ↦ subst P (sym ((eq_iff id "offset").0 (ground arith))) offset
]

generators-IsConfigured : IsConfigured nodes (problem 10).baseline domains generators
unfolding node_of validate_value_state
generators-IsConfigured = record {
  identifiers_once = refl;
  domains_once = refl;
  identifiers = λ id has.
      two_inputs (IsIdentifier nodes (problem 10).baseline) id has (λ v. refl, refl)
        (λ v. refl, refl);
  domain = λ id has. two_inputs (IsDomain nodes domains) id has (refl, tt) (refl, tt);
}

solve_input_overrides-build_search_units_example :
    (outcome : SolveOutcome naturals) × (solve_input_overrides
        (problem 10)
        (order_units (λ id. 1) record_unit)
      ≡ some outcome)
    × IsRight (problem 10) nodes-IsForest (order_units (λ id. 1) record_unit) outcome
unfolding build_search_units values_equal
solve_input_overrides-build_search_units_example =
    solve_input_overrides-build_search_units (problem 10) nodes-IsForest values_equal 8
      (some observed) domains generators (λ id. 1) record_unit generators-IsConfigured refl

-- A unit that gives a value to `page`, which has children: the branch is pruned although its only choice
-- has a solution, where the child has taken the value away. Such units are not acceptable.
abbrev page_is_not_one : Problem naturals
page_is_not_one = record (problem 10) {
  constraints =
      Expressions.cons
        (BooleanExpression.negation (
          BooleanExpression.compare CompareOperator.equal (ValueExpression.input_value "page")
            (ValueExpression.literal (Value.number 1))))
        Expressions.nil;
  records_match = λ σ. true;
}

abbrev parent_first : List (SearchUnit naturals)
parent_first =
    record { node_ids = "page" ∷ []; candidates = (("page", is_number 1) ∷ []) ∷ [] }
    ∷ record { node_ids = "limit" ∷ []; candidates = (("limit", is_number 5) ∷ []) ∷ [] }
    ∷ []

a_value_on_a_parent :
    (solve_input_overrides page_is_not_one parent_first
      ≡ some (SolveOutcome.constraint_unsatisfiable ("page" ∷ "limit" ∷ [])))
    × (is_some (first_solution page_is_not_one parent_first) ≡ true)
unfolding solve_input_overrides
a_value_on_a_parent = (refl, refl)
