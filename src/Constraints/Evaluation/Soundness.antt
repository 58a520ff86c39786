-- ===== src/Constraints/Evaluation/Soundness.antt =====
-- Partial evaluation against complete evaluation: a decided result is final.
use restscope.Prelude.{
  ℕ, ◌+◌, ◌≤◌, ◌≡◌, refl, ap, String, Bool, true, false, not, ◌&&◌, ◌||◌, Option, none, some, List,
  [], ◌∷◌, leb, arith,
}
use restscope.Constraints.Values.{
  Host, Value, InputAssignment, combine, compare_operands, match_operand,
}
use restscope.Constraints.Expressions.{
  ValueExpression, BooleanExpression, Expressions, nil, cons, input_value, literal, arithmetic,
  present, compare, matches, implies, cardinality, all_of, any_of, negation,
}
use restscope.Constraints.Evaluation.{
  Assignments, evaluate_value, evaluate_boolean, evaluate_each, evaluate_constraint_set, Operand,
  unknown, known, combine_partial, evaluate_value_partial, true_count, unknown_count, is_true,
  is_false, any_result, all_results, decide_operand, decide_operands, decide_implication,
  decide_bounds, decide_all, decide_any, decide_not, evaluate_boolean_partial, partial_each,
  count_true, all_true, any_true, evaluate_constraint_set_partial, input_known, input_operand,
  presence, is_present,
}

-- Every input that `σ` assigns has the same assignment in `τ`.
abbrev pub Extends : {h : Host} → Assignments h → Assignments h → Type 0
Extends {h} σ τ = (id : String) (a : InputAssignment h) → σ id ≡ some a → τ id ≡ some a

-- A decided result agrees with the complete one.
abbrev Agrees : Option Bool → Bool → Type 0
Agrees none b = Unit
Agrees (some a) b = a ≡ b

abbrev AgreesEach : List (Option Bool) → List Bool → Type 0
AgreesEach [] [] = Unit
AgreesEach (r ∷ rs) (b ∷ bs) = Agrees r b × AgreesEach rs bs
AgreesEach _ _ = ⊥

abbrev AgreesOperand : {h : Host} → Operand h → Option (Value h) → Type 0
AgreesOperand unknown v = Unit
AgreesOperand (known a) v = a ≡ v

true_count-le :
    (rs : List (Option Bool)) (bs : List Bool) → AgreesEach rs bs → true_count rs ≤ count_true bs
true_count-le [] [] h = omega arith
true_count-le [] (b ∷ bs) h = absurd h
true_count-le (r ∷ rs) [] h = absurd h
true_count-le (r ∷ rs) (b ∷ bs) h = ground (arith, true_count-le rs bs h.1)

count_true-le :
    (rs : List (Option Bool)) (bs : List Bool)
    → AgreesEach rs bs
    → count_true bs ≤ true_count rs + unknown_count rs
count_true-le [] [] h = omega arith
count_true-le [] (b ∷ bs) h = absurd h
count_true-le (r ∷ rs) [] h = absurd h
count_true-le (r ∷ rs) (b ∷ bs) h = ground (arith, count_true-le rs bs h.1)

any_false-Agrees :
    (rs : List (Option Bool)) (bs : List Bool)
    → AgreesEach rs bs
    → any_result is_false rs ≡ true
    → all_true bs ≡ false
any_false-Agrees [] [] h e = cc
any_false-Agrees [] (b ∷ bs) h e = absurd h
any_false-Agrees (r ∷ rs) [] h e = absurd h
any_false-Agrees (r ∷ rs) (b ∷ bs) h e = ground (arith, any_false-Agrees rs bs h.1)

all_true-Agrees :
    (rs : List (Option Bool)) (bs : List Bool)
    → AgreesEach rs bs
    → all_results is_true rs ≡ true
    → all_true bs ≡ true
all_true-Agrees [] [] h e = refl
all_true-Agrees [] (b ∷ bs) h e = absurd h
all_true-Agrees (r ∷ rs) [] h e = absurd h
all_true-Agrees (r ∷ rs) (b ∷ bs) h e = ground (arith, all_true-Agrees rs bs h.1)

any_true-Agrees :
    (rs : List (Option Bool)) (bs : List Bool)
    → AgreesEach rs bs
    → any_result is_true rs ≡ true
    → any_true bs ≡ true
any_true-Agrees [] [] h e = cc
any_true-Agrees [] (b ∷ bs) h e = absurd h
any_true-Agrees (r ∷ rs) [] h e = absurd h
any_true-Agrees (r ∷ rs) (b ∷ bs) h e = ground (arith, any_true-Agrees rs bs h.1)

all_false-Agrees :
    (rs : List (Option Bool)) (bs : List Bool)
    → AgreesEach rs bs
    → all_results is_false rs ≡ true
    → any_true bs ≡ false
all_false-Agrees [] [] h e = refl
all_false-Agrees [] (b ∷ bs) h e = absurd h
all_false-Agrees (r ∷ rs) [] h e = absurd h
all_false-Agrees (r ∷ rs) (b ∷ bs) h e = ground (arith, all_false-Agrees rs bs h.1)

decide_all-Agrees :
    (rs : List (Option Bool)) (bs : List Bool)
    → AgreesEach rs bs
    → Agrees (decide_all rs) (all_true bs)
unfolding decide_all
decide_all-Agrees rs bs h = ground (arith, any_false-Agrees rs bs h, all_true-Agrees rs bs h)

decide_any-Agrees :
    (rs : List (Option Bool)) (bs : List Bool)
    → AgreesEach rs bs
    → Agrees (decide_any rs) (any_true bs)
unfolding decide_any
decide_any-Agrees rs bs h = ground (arith, any_true-Agrees rs bs h, all_false-Agrees rs bs h)

decide_bounds-Agrees :
    (minimum maximum trues unknowns count : ℕ)
    → trues ≤ count
    → count ≤ trues + unknowns
    → Agrees (decide_bounds minimum maximum trues unknowns) (leb minimum count && leb count maximum)
unfolding decide_bounds
decide_bounds-Agrees minimum maximum trues unknowns count h k = ground arith

decide_implication-Agrees :
    (c e : Option Bool) (a b : Bool)
    → Agrees c a
    → Agrees e b
    → Agrees (decide_implication c e) (not a || b)
unfolding decide_implication
decide_implication-Agrees c e a b h k = ground arith

decide_operands-Agrees :
    {h : Host} (f : Option (Value h) → Option (Value h) → Bool) (x y : Operand h)
    (a b : Option (Value h))
    → AgreesOperand x a
    → AgreesOperand y b
    → Agrees (decide_operands f x y) (f a b)
decide_operands-Agrees f unknown y a b p q = tt
decide_operands-Agrees f (known x) unknown a b p q = tt
decide_operands-Agrees f (known x) (known y) a b p q = rw (p, q)

decide_operand-Agrees :
    {h : Host} (f : Option (Value h) → Bool) (x : Operand h) (a : Option (Value h))
    → AgreesOperand x a
    → Agrees (decide_operand f x) (f a)
decide_operand-Agrees f unknown a p = tt
decide_operand-Agrees f (known x) a p = rw p

combine_partial-Agrees :
    {h : Host} (f : Option (Value h) → Option (Value h) → Option (Value h)) (x y : Operand h)
    (a b : Option (Value h))
    → AgreesOperand x a
    → AgreesOperand y b
    → AgreesOperand (combine_partial f x y) (f a b)
combine_partial-Agrees f unknown y a b p q = tt
combine_partial-Agrees f (known x) unknown a b p q = tt
combine_partial-Agrees f (known x) (known y) a b p q = rw (p, q)

decide_not-Agrees : (r : Option Bool) (b : Bool) → Agrees r b → Agrees (decide_not r) (not b)
decide_not-Agrees none b h = tt
decide_not-Agrees (some a) b h = ap not h

input_known-Agrees :
    {h : Host} (o p : Option (InputAssignment h))
    → ((a : InputAssignment h) → o ≡ some a → p ≡ some a)
    → AgreesOperand (input_known o) (input_operand p)
input_known-Agrees none p e = tt
input_known-Agrees (some a) p e = rw (e a refl)

presence-Agrees :
    {h : Host} (o p : Option (InputAssignment h))
    → ((a : InputAssignment h) → o ≡ some a → p ≡ some a)
    → Agrees (presence o) (is_present p)
presence-Agrees none p e = tt
presence-Agrees (some a) p e = rw (e a refl)

module _ {h : Host} (σ τ : Assignments h) (ext : Extends σ τ) where
  value-Agrees :
      (e : ValueExpression h) → AgreesOperand (evaluate_value_partial σ e) (evaluate_value τ e)
  unfolding evaluate_value_partial evaluate_value
  value-Agrees (input_value id) = input_known-Agrees (σ id) (τ id) (ext id)
  value-Agrees (literal v) = refl
  value-Agrees (arithmetic op left right) =
      combine_partial-Agrees (combine op) _ _ _ _ (value-Agrees left) (value-Agrees right)

  mutual
    unfolding evaluate_boolean_partial evaluate_boolean

    boolean-Agrees :
        (e : BooleanExpression h) → Agrees (evaluate_boolean_partial σ e) (evaluate_boolean τ e)
    boolean-Agrees (present id) = presence-Agrees (σ id) (τ id) (ext id)
    boolean-Agrees (compare op left right) =
        decide_operands-Agrees (compare_operands op) _ _ _ _ (value-Agrees left)
          (value-Agrees right)
    boolean-Agrees (matches value pattern') =
        decide_operand-Agrees (match_operand pattern') _ _ (value-Agrees value)
    boolean-Agrees (implies condition consequence) =
        decide_implication-Agrees _ _ _ _ (boolean-Agrees condition) (boolean-Agrees consequence)
    boolean-Agrees (cardinality es minimum maximum) =
        decide_bounds-Agrees minimum maximum _ _ _ (true_count-le _ _ (each-Agrees es))
          (count_true-le _ _ (each-Agrees es))
    boolean-Agrees (all_of es) = decide_all-Agrees _ _ (each-Agrees es)
    boolean-Agrees (any_of es) = decide_any-Agrees _ _ (each-Agrees es)
    boolean-Agrees (negation e) = decide_not-Agrees _ _ (boolean-Agrees e)

    each-Agrees : (es : Expressions h) → AgreesEach (partial_each σ es) (evaluate_each τ es)
    each-Agrees nil = tt
    each-Agrees (cons e es) = (boolean-Agrees e, each-Agrees es)

Agrees-of_decided : (r : Option Bool) (a b : Bool) → Agrees r b → r ≡ some a → b ≡ a
Agrees-of_decided r a b h e = ground arith

-- A result that the partial evaluation has decided is the result of the complete evaluation on every
-- assignment that extends the partial one.
pub evaluate_partial_sound :
    {h : Host} (σ τ : Assignments h) (e : BooleanExpression h) (b : Bool)
    → Extends σ τ
    → evaluate_boolean_partial σ e ≡ some b
    → evaluate_boolean τ e ≡ b
evaluate_partial_sound σ τ e b ext h = Agrees-of_decided _ b _ (boolean-Agrees σ τ ext e) h

-- What the partial evaluation decides of a constraint set is the result of the complete evaluation on
-- every assignment that extends the partial one.
pub evaluate_constraint_set_partial_sound :
    {h : Host} (σ τ : Assignments h) (constraints : Expressions h) (b : Bool)
    → Extends σ τ
    → evaluate_constraint_set_partial σ constraints ≡ some b
    → evaluate_constraint_set τ constraints ≡ b
unfolding evaluate_constraint_set_partial evaluate_constraint_set
evaluate_constraint_set_partial_sound σ τ constraints b ext h =
    Agrees-of_decided _ b _ (decide_all-Agrees _ _ (each-Agrees σ τ ext constraints)) h
