-- ===== src/Constraints/Evaluation/References.antt =====
-- Evaluation and the inputs that an expression names: those alone decide the result, and once they
-- are all assigned the partial evaluation is the complete one.
use restscope.Prelude.{
  ℕ, ◌≡◌, ◌≢◌, refl, ap, String, Bool, not, ◌&&◌, ◌||◌, Option, none, some, List, [], ◌∷◌, ◌++◌,
  map, All, leb, arith,
}
use restscope.Constraints.Values.{Host, InputAssignment, match_operand}
use restscope.Constraints.Expressions.{
  ValueExpression, BooleanExpression, Expressions, nil, cons, input_value, literal, arithmetic,
  present, compare, matches, implies, cardinality, all_of, any_of, negation, value_references,
  boolean_references, each_references,
}
use restscope.Constraints.Evaluation.{
  Assignments, evaluate_value, evaluate_boolean, evaluate_each, known, evaluate_value_partial,
  true_count, unknown_count, is_true, is_false, any_result, all_results, decide_implication,
  decide_bounds, decide_all, decide_any, evaluate_boolean_partial, partial_each, count_true,
  all_true, any_true, input_known, input_operand, presence, is_present,
}

All-left {ℓ} : (P : String → Type ℓ) (xs ys : List String) → All P (xs ++ ys) → All P xs
All-left P [] ys h = tt
All-left P (x ∷ xs) ys h = (h.0, All-left P xs ys h.1)

All-right {ℓ} : (P : String → Type ℓ) (xs ys : List String) → All P (xs ++ ys) → All P ys
All-right P [] ys h = h
All-right P (x ∷ xs) ys h = All-right P xs ys h.1

module _ {h : Host} (σ τ : Assignments h) where
  abbrev pub Same : String → Type 0
  Same id = σ id ≡ τ id

  value_local :
      (e : ValueExpression h)
      → All Same (value_references e)
      → evaluate_value σ e ≡ evaluate_value τ e
  unfolding evaluate_value value_references
  value_local (input_value id) k = ap input_operand k.0
  value_local (literal v) k = refl
  value_local (arithmetic op left right) k = cc (
    value_local left (All-left Same (value_references left) _ k),
    value_local right (All-right Same (value_references left) _ k),
  )

  mutual
    unfolding evaluate_boolean boolean_references

    boolean_local :
        (e : BooleanExpression h)
        → All Same (boolean_references e)
        → evaluate_boolean σ e ≡ evaluate_boolean τ e
    boolean_local (present id) k = ap is_present k.0
    boolean_local (compare op left right) k = cc (
      value_local left (All-left Same (value_references left) _ k),
      value_local right (All-right Same (value_references left) _ k),
    )
    boolean_local (matches value pattern') k = ap (match_operand pattern') (value_local value k)
    boolean_local (implies c e) k = rw (
      boolean_local c (All-left Same (boolean_references c) _ k),
      boolean_local e (All-right Same (boolean_references c) _ k),
    )
    boolean_local (cardinality es minimum maximum) k = rw (each_local es k)
    boolean_local (all_of es) k = ap all_true (each_local es k)
    boolean_local (any_of es) k = ap any_true (each_local es k)
    boolean_local (negation e) k = ap not (boolean_local e k)

    pub each_local :
        (es : Expressions h)
        → All Same (each_references es)
        → evaluate_each σ es ≡ evaluate_each τ es
    each_local nil k = refl
    each_local (cons e es) k = cc (
      boolean_local e (All-left Same (boolean_references e) _ k),
      each_local es (All-right Same (boolean_references e) _ k),
    )

true_count-some : (bs : List Bool) → true_count (map some bs) ≡ count_true bs
true_count-some [] = refl
true_count-some (b ∷ bs) = ground (arith, true_count-some bs)

unknown_count-some : (bs : List Bool) → unknown_count (map some bs) ≡ 0
unknown_count-some [] = refl
unknown_count-some (b ∷ bs) = unknown_count-some bs

decide_bounds-some :
    (minimum maximum count : ℕ)
    → decide_bounds minimum maximum count 0 ≡ some (leb minimum count && leb count maximum)
unfolding decide_bounds
decide_bounds-some minimum maximum count = ground arith

any_false-some : (bs : List Bool) → any_result is_false (map some bs) ≡ not (all_true bs)
any_false-some [] = refl
any_false-some (b ∷ bs) = ground (arith, any_false-some bs)

all_true-some : (bs : List Bool) → all_results is_true (map some bs) ≡ all_true bs
all_true-some [] = refl
all_true-some (b ∷ bs) = ground (arith, all_true-some bs)

any_true-some : (bs : List Bool) → any_result is_true (map some bs) ≡ any_true bs
any_true-some [] = refl
any_true-some (b ∷ bs) = ground (arith, any_true-some bs)

all_false-some : (bs : List Bool) → all_results is_false (map some bs) ≡ not (any_true bs)
all_false-some [] = refl
all_false-some (b ∷ bs) = ground (arith, all_false-some bs)

pub decide_all-some : (bs : List Bool) → decide_all (map some bs) ≡ some (all_true bs)
unfolding decide_all
decide_all-some bs = ground (arith, any_false-some bs, all_true-some bs)

decide_any-some : (bs : List Bool) → decide_any (map some bs) ≡ some (any_true bs)
unfolding decide_any
decide_any-some bs = ground (arith, any_true-some bs, all_false-some bs)

decide_implication-some : (a b : Bool) → decide_implication (some a) (some b) ≡ some (not a || b)
unfolding decide_implication
decide_implication-some a b = ground arith

presence-some :
    {h : Host} (o : Option (InputAssignment h)) → o ≢ none → presence o ≡ some (is_present o)
presence-some none k = absurd (k refl)
presence-some (some a) k = refl

input_known-some :
    {h : Host} (o : Option (InputAssignment h)) → o ≢ none → input_known o ≡ known (input_operand o)
input_known-some none k = absurd (k refl)
input_known-some (some a) k = refl

module _ {h : Host} (σ : Assignments h) where
  abbrev pub IsAssigned : String → Type 0
  IsAssigned id = σ id ≢ none

  value_decided :
      (e : ValueExpression h)
      → All IsAssigned (value_references e)
      → evaluate_value_partial σ e ≡ known (evaluate_value σ e)
  unfolding evaluate_value_partial evaluate_value value_references
  value_decided (input_value id) k = input_known-some (σ id) k.0
  value_decided (literal v) k = refl
  value_decided (arithmetic op left right) k = rw (
    value_decided left (All-left IsAssigned (value_references left) _ k),
    value_decided right (All-right IsAssigned (value_references left) _ k),
  )

  mutual
    unfolding evaluate_boolean_partial evaluate_boolean boolean_references

    boolean_decided :
        (e : BooleanExpression h)
        → All IsAssigned (boolean_references e)
        → evaluate_boolean_partial σ e ≡ some (evaluate_boolean σ e)
    boolean_decided (present id) k = presence-some (σ id) k.0
    boolean_decided (compare op left right) k = rw (
      value_decided left (All-left IsAssigned (value_references left) _ k),
      value_decided right (All-right IsAssigned (value_references left) _ k),
    )
    boolean_decided (matches value pattern') k = rw (value_decided value k)
    boolean_decided (implies c e) k =
        rw
          (
            boolean_decided c (All-left IsAssigned (boolean_references c) _ k),
            boolean_decided e (All-right IsAssigned (boolean_references c) _ k),
          )
          (decide_implication-some (evaluate_boolean σ c) (evaluate_boolean σ e))
    boolean_decided (cardinality es minimum maximum) k =
        rw (each_decided es k)
          (rw (true_count-some, unknown_count-some) (decide_bounds-some minimum maximum _))
    boolean_decided (all_of es) k = rw (each_decided es k) (decide_all-some (evaluate_each σ es))
    boolean_decided (any_of es) k = rw (each_decided es k) (decide_any-some (evaluate_each σ es))
    boolean_decided (negation e) k = rw (boolean_decided e k)

    pub each_decided :
        (es : Expressions h)
        → All IsAssigned (each_references es)
        → partial_each σ es ≡ map some (evaluate_each σ es)
    each_decided nil k = refl
    each_decided (cons e es) k = rw (
      boolean_decided e (All-left IsAssigned (boolean_references e) _ k),
      each_decided es (All-right IsAssigned (boolean_references e) _ k),
    )
