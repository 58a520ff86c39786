-- ===== src/Constraints/Evaluation.antt =====
-- `_evaluate_boolean`, `_evaluate_value` and their partial versions. An assignment is a mapping, given
-- by its `get`. `none` among the operands is `_UNAVAILABLE`; `unknown` is `_PARTIAL_UNKNOWN`.

pub mod Soundness
pub mod References
use restscope.Prelude.{
  ℕ, suc, ◌+◌, String, Bool, true, false, not, ◌&&◌, ◌||◌, Option, none, some, List, [], ◌∷◌, ltb,
  leb, eqb, if◌then◌else◌,
}
use restscope.Constraints.Values.{
  Host, Value, InputAssignment, combine, compare_operands, match_operand,
}
use restscope.Constraints.Expressions.{
  ValueExpression, BooleanExpression, Expressions, nil, cons, input_value, literal, arithmetic,
  present, compare, matches, implies, cardinality, all_of, any_of, negation,
}

abbrev pub Assignments : Host → Type 0
Assignments h = String → Option (InputAssignment h)

-- `_UNAVAILABLE` unless the input is present with a value.
abbrev pub assigned_value : {h : Host} → InputAssignment h → Option (Value h)
assigned_value a = if not a.present || not a.has_value then none else some a.value

-- `_UNAVAILABLE` also for a missing key.
abbrev pub input_operand : {h : Host} → Option (InputAssignment h) → Option (Value h)
input_operand none = none
input_operand (some a) = assigned_value a

abbrev pub is_present : {h : Host} → Option (InputAssignment h) → Bool
is_present none = false
is_present (some a) = a.present

-- `_evaluate_value`
unfoldable pub evaluate_value : {h : Host} → Assignments h → ValueExpression h → Option (Value h)
unfolding combine
evaluate_value σ (input_value id) = input_operand (σ id)
evaluate_value σ (literal v) = some v
evaluate_value σ (arithmetic op left right) =
    combine op (evaluate_value σ left) (evaluate_value σ right)

-- `sum(results)`, `all(results)`, `any(results)`
abbrev pub count_true : List Bool → ℕ
count_true [] = 0
count_true (true ∷ bs) = suc (count_true bs)
count_true (false ∷ bs) = count_true bs

abbrev pub all_true : List Bool → Bool
all_true [] = true
all_true (b ∷ bs) = b && all_true bs

abbrev pub any_true : List Bool → Bool
any_true [] = false
any_true (b ∷ bs) = b || any_true bs

-- `_evaluate_boolean`, and its results for the members of a list.
unfoldable mutual
  unfolding evaluate_value compare_operands match_operand

  pub evaluate_boolean : {h : Host} → Assignments h → BooleanExpression h → Bool
  evaluate_boolean σ (present id) = is_present (σ id)
  evaluate_boolean σ (compare op left right) =
      compare_operands op (evaluate_value σ left) (evaluate_value σ right)
  evaluate_boolean σ (matches value pattern') = match_operand pattern' (evaluate_value σ value)
  evaluate_boolean σ (implies condition consequence) =
      not (evaluate_boolean σ condition) || evaluate_boolean σ consequence
  evaluate_boolean σ (cardinality es minimum maximum) =
      let count = count_true (evaluate_each σ es) in leb minimum count && leb count maximum
  evaluate_boolean σ (all_of es) = all_true (evaluate_each σ es)
  evaluate_boolean σ (any_of es) = any_true (evaluate_each σ es)
  evaluate_boolean σ (negation e) = not (evaluate_boolean σ e)

  pub evaluate_each : {h : Host} → Assignments h → Expressions h → List Bool
  evaluate_each σ nil = []
  evaluate_each σ (cons e es) = evaluate_boolean σ e ∷ evaluate_each σ es

-- `evaluate_constraint_set`
unfoldable pub evaluate_constraint_set : {h : Host} → Assignments h → Expressions h → Bool
unfolding evaluate_boolean
evaluate_constraint_set σ constraints = all_true (evaluate_each σ constraints)

-- What a search knows of an operand.
pub data Operand (h : Host) : Type 0 where
  unknown : Operand h
  known : Option (Value h) → Operand h

abbrev pub combine_partial :
    {h : Host}
    → (Option (Value h) → Option (Value h) → Option (Value h))
    → Operand h
    → Operand h
    → Operand h
combine_partial f (known a) (known b) = known (f a b)
combine_partial f _ _ = unknown

-- A missing key is not yet assigned.
abbrev pub input_known : {h : Host} → Option (InputAssignment h) → Operand h
input_known none = unknown
input_known (some a) = known (assigned_value a)

abbrev pub presence : {h : Host} → Option (InputAssignment h) → Option Bool
presence none = none
presence (some a) = some a.present

-- `_evaluate_value_partial`
unfoldable pub evaluate_value_partial : {h : Host} → Assignments h → ValueExpression h → Operand h
unfolding combine
evaluate_value_partial σ (input_value id) = input_known (σ id)
evaluate_value_partial σ (literal v) = known (some v)
evaluate_value_partial σ (arithmetic op left right) =
    combine_partial (combine op) (evaluate_value_partial σ left) (evaluate_value_partial σ right)

-- `sum(result is True …)` and `sum(result is None …)`
abbrev pub true_count : List (Option Bool) → ℕ
true_count [] = 0
true_count (some true ∷ rs) = suc (true_count rs)
true_count (some false ∷ rs) = true_count rs
true_count (none ∷ rs) = true_count rs

abbrev pub unknown_count : List (Option Bool) → ℕ
unknown_count [] = 0
unknown_count (none ∷ rs) = suc (unknown_count rs)
unknown_count (some b ∷ rs) = unknown_count rs

abbrev pub is_true : Option Bool → Bool
is_true (some true) = true
is_true _ = false

abbrev pub is_false : Option Bool → Bool
is_false (some false) = true
is_false _ = false

abbrev pub any_result : (Option Bool → Bool) → List (Option Bool) → Bool
any_result p [] = false
any_result p (r ∷ rs) = p r || any_result p rs

abbrev pub all_results : (Option Bool → Bool) → List (Option Bool) → Bool
all_results p [] = true
all_results p (r ∷ rs) = p r && all_results p rs

-- The branches of `_evaluate_boolean_partial` for an operand, an implication, bounds, `and` and `or`.
abbrev pub decide_operand : {h : Host} → (Option (Value h) → Bool) → Operand h → Option Bool
decide_operand f unknown = none
decide_operand f (known a) = some (f a)

abbrev pub decide_operands :
    {h : Host} → (Option (Value h) → Option (Value h) → Bool) → Operand h → Operand h → Option Bool
decide_operands f (known a) (known b) = some (f a b)
decide_operands f _ _ = none

pub decide_implication : Option Bool → Option Bool → Option Bool
decide_implication condition consequence =
    if is_false condition || is_true consequence
    then some true
    else if is_true condition
    then consequence
    else none

pub decide_bounds : ℕ → ℕ → ℕ → ℕ → Option Bool
decide_bounds minimum maximum trues unknowns =
    if ltb maximum trues
    then some false
    else if ltb (trues + unknowns) minimum
    then some false
    else if eqb unknowns 0
    then some (leb minimum trues && leb trues maximum)
    else if leb minimum trues && leb (trues + unknowns) maximum
    then some true
    else none

pub decide_all : List (Option Bool) → Option Bool
decide_all rs =
    if any_result is_false rs
    then some false
    else if all_results is_true rs
    then some true
    else none

pub decide_any : List (Option Bool) → Option Bool
decide_any rs =
    if any_result is_true rs
    then some true
    else if all_results is_false rs
    then some false
    else none

abbrev pub decide_not : Option Bool → Option Bool
decide_not none = none
decide_not (some b) = some (not b)

-- `_evaluate_boolean_partial`, and its results for the members of a list.
unfoldable mutual
  unfolding evaluate_value_partial compare_operands match_operand decide_implication decide_bounds
      decide_all decide_any

  pub evaluate_boolean_partial : {h : Host} → Assignments h → BooleanExpression h → Option Bool
  evaluate_boolean_partial σ (present id) = presence (σ id)
  evaluate_boolean_partial σ (compare op left right) =
      decide_operands (compare_operands op) (evaluate_value_partial σ left)
        (evaluate_value_partial σ right)
  evaluate_boolean_partial σ (matches value pattern') =
      decide_operand (match_operand pattern') (evaluate_value_partial σ value)
  evaluate_boolean_partial σ (implies condition consequence) =
      decide_implication (evaluate_boolean_partial σ condition)
        (evaluate_boolean_partial σ consequence)
  evaluate_boolean_partial σ (cardinality es minimum maximum) =
      let results = partial_each σ es in
      decide_bounds minimum maximum (true_count results) (unknown_count results)
  evaluate_boolean_partial σ (all_of es) = decide_all (partial_each σ es)
  evaluate_boolean_partial σ (any_of es) = decide_any (partial_each σ es)
  evaluate_boolean_partial σ (negation e) = decide_not (evaluate_boolean_partial σ e)

  pub partial_each : {h : Host} → Assignments h → Expressions h → List (Option Bool)
  partial_each σ nil = []
  partial_each σ (cons e es) = evaluate_boolean_partial σ e ∷ partial_each σ es

-- `evaluate_constraint_set_partial`
unfoldable pub evaluate_constraint_set_partial :
    {h : Host} → Assignments h → Expressions h → Option Bool
unfolding evaluate_boolean_partial
evaluate_constraint_set_partial σ constraints = decide_all (partial_each σ constraints)
