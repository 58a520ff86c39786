-- ===== src/Constraints/Collecting.antt =====
-- `referenced_input_node_ids`: every input that the constraints name, once each; and what follows for
-- their evaluation.
use restscope.Prelude.{
  ◌≡◌, ◌≢◌, refl, ◌∙◌, ap, String, true, false, ◌||◌, none, some, List, [], ◌∷◌, ◌++◌, All, arith,
  contains, unique, eq_iff, ◌==◌, Bool-cases, inl, inr,
}
use restscope.Constraints.Values.{Host}
use restscope.Constraints.Expressions.{
  Expressions, each_references, collect, referenced_input_node_ids,
}
use restscope.Constraints.Evaluation.{
  Assignments, evaluate_constraint_set, evaluate_constraint_set_partial, all_true, evaluate_each,
}
use restscope.Constraints.Evaluation.References.{each_local, each_decided, decide_all-some}

contains-append_one :
    (k id : String) (xs : List String) → contains k (xs ++ id ∷ []) ≡ (contains k xs || k == id)
contains-append_one k id [] = ground arith
contains-append_one k id (x ∷ xs) = ground (arith, contains-append_one k id xs)

contains-eq :
    (k id : String) (xs : List String)
    → contains id xs ≡ true
    → (contains k xs || k == id) ≡ contains k xs
contains-eq k id xs h = ground (arith, eq_iff k id)

contains-collect :
    (k : String) (result ids : List String)
    → contains k (collect result ids) ≡ (contains k result || contains k ids)
unfolding collect
contains-collect k result [] = ground arith
contains-collect k result (id ∷ ids) = elim (Bool-cases (contains id result)) [
  | inl old ↦ rw (old, contains-collect k result ids) (ground (arith, contains-eq k id result old))
  | inr new ↦
      rw (new, contains-collect k (result ++ id ∷ []) ids, contains-append_one k id result)
        (ground arith)
]

unique-append_one :
    (id : String) (xs : List String)
    → unique xs ≡ true
    → contains id xs ≡ false
    → unique (xs ++ id ∷ []) ≡ true
unique-append_one id [] u n = refl
unique-append_one id (x ∷ xs) u n =
    ground (arith, unique-append_one id xs, contains-append_one x id xs, eq_iff x id, eq_iff id x)

unique-collect :
    (result ids : List String) → unique result ≡ true → unique (collect result ids) ≡ true
unfolding collect
unique-collect result [] u = u
unique-collect result (id ∷ ids) u = elim (Bool-cases (contains id result)) [
  | inl old ↦ rw old (unique-collect result ids u)
  | inr new ↦ rw new (unique-collect (result ++ id ∷ []) ids (unique-append_one id result u new))
]

-- The collected identities are distinct, and they are exactly those that the constraints name.
pub referenced_input_node_ids_exact :
    {h : Host} (constraints : Expressions h)
    → (unique (referenced_input_node_ids constraints) ≡ true)
      × ((k : String)
          → contains k (referenced_input_node_ids constraints)
            ≡ contains k (each_references constraints))
unfolding referenced_input_node_ids
referenced_input_node_ids_exact constraints =
    (unique-collect [] (each_references constraints) refl, λ k. contains-collect k [] _)

-- A property of all members in one list holds of all members of a list with the same members.
All-of_contains {ℓ} :
    (P : String → Type ℓ) (xs : List String)
    → ((k : String) → contains k xs ≡ true → P k)
    → All P xs
All-of_contains P [] h = tt
All-of_contains P (x ∷ xs) h =
    (h x (ground (arith, eq_iff x x)), All-of_contains P xs (λ k e. h k (ground arith)))

module _ {h : Host} (constraints : Expressions h) where
  referenced :
      (k : String)
      → contains k (each_references constraints) ≡ true
      → contains k (referenced_input_node_ids constraints) ≡ true
  referenced k e = (referenced_input_node_ids_exact constraints).1 k ∙ e

  -- Two assignments that agree on the referenced inputs satisfy the same constraint sets.
  pub evaluate_constraint_set_local :
      (σ τ : Assignments h)
      → ((k : String) → contains k (referenced_input_node_ids constraints) ≡ true → σ k ≡ τ k)
      → evaluate_constraint_set σ constraints ≡ evaluate_constraint_set τ constraints
  unfolding evaluate_constraint_set
  evaluate_constraint_set_local σ τ same =
      ap all_true
        (each_local σ τ constraints (All-of_contains _ _ (λ k e. same k (referenced k e))))

  -- Once every referenced input is assigned, the partial evaluation is decided, and its result is that
  -- of the complete evaluation.
  pub evaluate_constraint_set_partial_decided :
      (σ : Assignments h)
      → ((k : String) → contains k (referenced_input_node_ids constraints) ≡ true → σ k ≢ none)
      → evaluate_constraint_set_partial σ constraints ≡ some (evaluate_constraint_set σ constraints)
  unfolding evaluate_constraint_set evaluate_constraint_set_partial
  evaluate_constraint_set_partial_decided σ assigned =
      rw (each_decided σ constraints (All-of_contains _ _ (λ k e. assigned k (referenced k e))))
        (decide_all-some (evaluate_each σ constraints))
