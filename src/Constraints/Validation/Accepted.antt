-- ===== src/Constraints/Validation/Accepted.antt =====
-- What the constraints that `validate_constraint_set` accepts are like.
use restscope.Prelude.{
  ◌≡◌, refl, sym, subst, ◌∙◌, String, Bool, true, some, List, [], ◌∷◌, All, contains, arith,
  Bool-cases, inl, inr, eq_iff, ◌==◌,
}
use restscope.Inputs.{InputNodeSnapshot}
use restscope.Constraints.Values.{Host, Value}
use restscope.Constraints.Expressions.{
  ValueExpression, Expressions, each_references, referenced_input_node_ids,
}
use restscope.Constraints.Collecting.{referenced_input_node_ids_exact}
use restscope.Constraints.Evaluation.{Assignments, evaluate_value}
use restscope.Constraints.Validation.{
  ErrorCode, passed, Ancestry, is_fixed, is_repeated, is_endless, validate_value,
  validate_constraint_set,
}
use restscope.Constraints.Validation.Meeting.{Meets, Meets-then, Allows, Holds}
use restscope.Constraints.Validation.Outcomes.{
  has_type, IsConforming, IsKnown, value-Meets, each-Meets,
}

-- Nothing is asked of a refusal, nor of a loop that does not end.
abbrev Any : ErrorCode → Type 0
Any code = Unit

Allows-Any : (a : Ancestry) → Allows Any Unit a
Allows-Any is_fixed = tt
Allows-Any is_repeated = tt
Allows-Any is_endless = tt

All-contains {ℓ} :
    (P : String → Type ℓ) (id : String) (ids : List String)
    → All P ids
    → contains id ids ≡ true
    → P id
All-contains P id [] holds has = absurd (ground arith)
All-contains P id (x ∷ xs) (p, ps) has = elim (Bool-cases (id == x)) [
  | inl same ↦ subst P (sym ((eq_iff id x).0 same)) p
  | inr other ↦ All-contains P id xs ps (ground arith)
]

-- If the assigned values have the types of their inputs, then the value of an accepted expression has
-- one of the types that its validation returns, unless these are not known.
pub validate_value-has_type :
    {h : Host} (nodes : List InputNodeSnapshot) (e : ValueExpression h) (types : List String)
    (σ : Assignments h) (v : Value h)
    → IsConforming nodes σ
    → validate_value nodes e ≡ passed types
    → evaluate_value σ e ≡ some v
    → has_type v types ≡ true
validate_value-has_type nodes e types σ v conforming accepted is =
    (subst (Holds Any Unit _) accepted
        (value-Meets nodes Any Unit (λ code other. tt) (λ id node found. Allows-Any _) e).outcome).1
      σ v conforming is

-- An accepted set is returned as it is, and every input that it names is one of the operation's.
pub validate_constraint_set-IsKnown :
    {h : Host} (nodes : List InputNodeSnapshot) (compiles : String → Bool)
    (constraints result : Expressions h)
    → validate_constraint_set nodes compiles constraints ≡ passed result
    → (result ≡ constraints)
      × ((id : String)
          → contains id (referenced_input_node_ids constraints) ≡ true
          → IsKnown nodes id)
unfolding validate_constraint_set
validate_constraint_set-IsKnown nodes compiles constraints result accepted =
    let meets : Meets Any Unit
        (λ r. (r ≡ constraints) × All (IsKnown nodes) (each_references constraints))
        (validate_constraint_set nodes compiles constraints) =
      Meets-then Any Unit {rest = passed constraints}
        (each-Meets nodes Any Unit (λ code other. tt) (λ id node found. Allows-Any _) compiles
          constraints)
        (λ known. record { outcome = (refl, known) }) in
    let (same, known) = subst (Holds Any Unit _) accepted meets.outcome in
    (
      same,
      λ id named.
          All-contains (IsKnown nodes) id (each_references constraints) known
            (sym ((referenced_input_node_ids_exact constraints).1 id) ∙ named),
    )
