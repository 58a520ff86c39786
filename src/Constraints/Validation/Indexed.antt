-- ===== src/Constraints/Validation/Indexed.antt =====
-- The validation of constraints on the inputs that the index of an operation has.
use restscope.Prelude.{
  ℕ, zero, suc, ◌≡◌, ◌≢◌, ◌<◌, refl, sym, ap, subst, String, Bool, false, some, List, [], ◌∷◌,
  length, arith, Option-cases, inl, inr, ◌⊎◌, ◌==◌,
}
use restscope.Inputs.{InputNodeSnapshot, node_of}
use restscope.Inputs.Forest.{IsForest, IsForest-IsShallow}
use restscope.InputNodes.Schemas.{
  OperationIr, InputNodeKind, kind_text, parameter, request_body, media_type, object, array, scalar,
  variant,
}
use restscope.InputNodes.Building.{TextHost, Nodes, build_operation_input_nodes}
use restscope.InputNodes.Reach.{IsCollisionFree}
use restscope.InputNodes.Forest.{node_snapshots, build_operation_input_nodes-IsForest}
use restscope.Constraints.Values.{Host}
use restscope.Constraints.Expressions.{Expressions}
use restscope.Constraints.Validation.{
  ErrorCode, constraint_repeated_input, ConstraintValidationError, Checked, passed, refused,
  endless, is_fixed, ancestry, validate_constraint_set,
}
use restscope.Constraints.Validation.Meeting.{Meets-then, Holds, Allows}
use restscope.Constraints.Validation.Outcomes.{each-Meets}

-- Every refusal has another reason than a repeated input.
abbrev OtherReason : ErrorCode → Type 0
OtherReason code = code ≢ constraint_repeated_input

-- No parent is named `items`.
abbrev IsPlain : List InputNodeSnapshot → Type 0
IsPlain nodes =
    (id : String) (node : InputNodeSnapshot)
    → node_of nodes id ≡ some node
    → (node.node_kind == "items") ≡ false

kind_text-plain : (kind : InputNodeKind) → (kind_text kind == "items") ≡ false
kind_text-plain parameter = refl
kind_text-plain request_body = refl
kind_text-plain media_type = refl
kind_text-plain object = refl
kind_text-plain array = refl
kind_text-plain scalar = refl
kind_text-plain variant = refl

node_snapshots-IsPlain : (nodes : Nodes) → IsPlain (node_snapshots nodes)
unfolding node_of
node_snapshots-IsPlain [] id node found = absurd (ground arith)
node_snapshots-IsPlain ((k, n) ∷ nodes) id node found =
    elim (Option-cases (node_of (node_snapshots nodes) id)) [
      | inr (later, e) ↦ node_snapshots-IsPlain nodes id node (ground arith)
      | inl missing ↦ ground (arith, kind_text-plain n.node_kind)
    ]

module _ (nodes : List InputNodeSnapshot) (forest : IsForest nodes) (plain : IsPlain nodes) where
  ancestry-is_fixed :
      (fuel : ℕ) (id : String) (node : InputNodeSnapshot)
      → node_of nodes id ≡ some node
      → forest.depth id < fuel
      → ancestry nodes fuel node ≡ is_fixed
  unfolding ancestry
  ancestry-is_fixed zero id node found enough = absurd (omega arith)
  ancestry-is_fixed (suc fuel) id node found enough = elim (Option-cases node.parent_node_id) [
    | inl root ↦ rw (ancestry, plain id node found, root) refl
    | inr (p, above) ↦
        let ((parent, is_parent), less) = forest.parent_found id p node found above in
        rw (ancestry, plain id node found, above, is_parent)
          (ancestry-is_fixed fuel p parent is_parent (omega arith))
  ]

  ends :
      (id : String) (node : InputNodeSnapshot)
      → node_of nodes id ≡ some node
      → (forest.depth id < suc (length nodes))
      → Allows OtherReason ⊥ (ancestry nodes (suc (length nodes)) node)
  ends id node found shallow =
      subst (Allows OtherReason ⊥)
        (sym (ancestry-is_fixed (suc (length nodes)) id node found shallow)) tt

-- If the identities of the inputs that an operation has differ where their paths do, the validation on the
-- inputs of its index ends, and it never refuses a set for a repeated input: the refusal that the code
-- has for an input below a list item does not happen there.
pub validate_constraint_set-indexed :
    {h : Host} (texts : TextHost) (operation : OperationIr) (compiles : String → Bool)
    (constraints : Expressions h)
    → IsCollisionFree texts operation
    → (validate_constraint_set
          (node_snapshots (build_operation_input_nodes texts operation))
          compiles
          constraints
        ≡ passed constraints)
      ⊎ ((error : ConstraintValidationError) × (validate_constraint_set
              (node_snapshots (build_operation_input_nodes texts operation))
              compiles
              constraints
            ≡ refused error)
          × (error.code ≢ constraint_repeated_input))
unfolding validate_constraint_set
validate_constraint_set-indexed {h} texts operation compiles constraints free =
    let nodes = node_snapshots (build_operation_input_nodes texts operation) in
    let shallow =
      IsForest-IsShallow nodes (build_operation_input_nodes-IsForest texts operation free) in
    of_outcome _
      (Meets-then OtherReason ⊥ {rest = passed constraints}
        (each-Meets nodes OtherReason ⊥ (λ code other. other)
          (λ id node found.
            ends nodes shallow.forest
              (node_snapshots-IsPlain (build_operation_input_nodes texts operation)) id node found
              (omega (arith, shallow.shallow id)))
          compiles constraints)
        (λ known. record { outcome = refl })).outcome
  where
    of_outcome :
        (r : Checked (Expressions h))
        → Holds OtherReason ⊥ (λ a. a ≡ constraints) r
        → (r ≡ passed constraints)
          ⊎ ((error : ConstraintValidationError) × (r ≡ refused error)
              × (error.code ≢ constraint_repeated_input))
    of_outcome (passed a) same = inl (ap passed same)
    of_outcome (refused error) other = inr (error, refl, other)
    of_outcome endless ends = absurd ends
