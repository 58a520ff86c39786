-- ===== src/Constraints/Classification.antt =====
-- `classify_constraint`: the label of a constraint, read off its normalized form.
use restscope.Prelude.{
  ℕ, ◌≡◌, ◌≤◌, refl, subst, String, Bool, true, false, ◌&&◌, ◌||◌, not, Option, none, some,
  Option-cases, List, [], ◌∷◌, eqb, leb, ltb, list_eq, ◌==◌, if◌then◌else◌, arith, eq_iff,
  Bool-cases, inl, inr,
}
use restscope.Constraints.Values.{Host}
use restscope.Constraints.Expressions.{
  size, BooleanExpression, Expressions, nil, cons, present, compare, matches, implies, cardinality,
  all_of, any_of, negation,
}
use restscope.Constraints.Evaluation.{Assignments, evaluate_boolean, evaluate_each, count_true}
use restscope.Constraints.Normalization.{CanonicalKey, normalize_boolean}
use restscope.Constraints.Normalization.Meaning.{IsCommutative, evaluate-normalize}

pub data ConstraintKind : Type 0 where
  requires or_kind only_one all_or_none zero_or_one arithmetic_relational complex : ConstraintKind

-- `{first, second} == {(0, 0), (n, n)}` for two pairs of bounds.
abbrev same_pair : ℕ → ℕ → ℕ → ℕ → Bool
same_pair a b c d = eqb a c && eqb b d

abbrev are_all_or_none : ℕ → ℕ → ℕ → ℕ → ℕ → Bool
are_all_or_none n a b c d =
    (same_pair a b 0 0 || same_pair a b n n)
    && (same_pair c d 0 0 || same_pair c d n n)
    && (same_pair 0 0 a b || same_pair 0 0 c d)
    && (same_pair n n a b || same_pair n n c d)

bounds-all_or_none :
    (n a b c d k : ℕ)
    → k ≤ n
    → are_all_or_none n a b c d ≡ true
    → (leb a k && leb k b || (leb c k && leb k d || false)) ≡ (eqb k 0 || eqb k n)
bounds-all_or_none n a b c d k le is = ground arith

module _ {h : Host} (key : CanonicalKey h) where
  abbrev member_keys : Expressions h → List String
  member_keys nil = []
  member_keys (cons e es) = key.boolean_key e ∷ member_keys es

  -- `isinstance(expression, CardinalityConstraint)`, with its fields.
  abbrev as_cardinality : BooleanExpression h → Option (Expressions h × ℕ × ℕ)
  as_cardinality (cardinality es minimum maximum) = some (es, minimum, maximum)
  as_cardinality _ = none

  -- `_is_all_or_none`
  abbrev pair_is_all_or_none :
      Option (Expressions h × ℕ × ℕ) → Option (Expressions h × ℕ × ℕ) → Bool
  pair_is_all_or_none (some (es, a, b)) (some (fs, c, d)) =
      if not (eqb (size es) (size fs)) || ltb (size es) 2
      then false
      else if not (list_eq ◌==◌ (member_keys es) (member_keys fs))
      then false
      else are_all_or_none (size es) a b c d
  pair_is_all_or_none _ _ = false

  unfoldable pub is_all_or_none : BooleanExpression h → Bool
  is_all_or_none (any_of (cons first (cons second nil))) =
      pair_is_all_or_none (as_cardinality first) (as_cardinality second)
  is_all_or_none _ = false

  abbrev is_presence : BooleanExpression h → Bool
  is_presence (present id) = true
  is_presence _ = false

  abbrev is_requirement : BooleanExpression h → Bool
  is_requirement (implies condition consequence) = is_presence condition && is_presence consequence
  is_requirement _ = false

  abbrev classify_bounds : Option (Expressions h × ℕ × ℕ) → ConstraintKind → ConstraintKind
  classify_bounds none other = other
  classify_bounds (some (es, minimum, maximum)) other =
      if eqb minimum maximum && eqb maximum 1
      then only_one
      else if eqb minimum 0 && eqb maximum 1
      then zero_or_one
      else if eqb minimum 1 && eqb maximum (size es)
      then or_kind
      else other

  abbrev classify_rest : BooleanExpression h → ConstraintKind
  classify_rest (compare op left right) = arithmetic_relational
  classify_rest _ = complex

  -- `classify_constraint`, after the normalization and with it.
  unfoldable pub classify_normalized : BooleanExpression h → ConstraintKind
  unfolding is_all_or_none
  classify_normalized e =
      if is_requirement e
      then requires
      else classify_bounds (as_cardinality e)
          (if is_all_or_none e then all_or_none else classify_rest e)

  unfoldable pub classify_constraint : BooleanExpression h → ConstraintKind
  unfolding classify_normalized normalize_boolean
  classify_constraint e = classify_normalized (normalize_boolean key e)

  -- The members that a label counts: those of a cardinality, or of the first of two.
  abbrev pub members : Option (Expressions h × ℕ × ℕ) → Expressions h
  members none = nil
  members (some (es, minimum, maximum)) = es

  abbrev pub counted : BooleanExpression h → Expressions h
  counted (any_of (cons e es)) = members (as_cardinality e)
  counted e = members (as_cardinality e)

  -- What a label says of a result, with the number of the members that hold and that of all.
  abbrev pub IsMeant : ConstraintKind → Bool → ℕ → ℕ → Type 0
  IsMeant only_one holds count all_members = holds ≡ eqb count 1
  IsMeant zero_or_one holds count all_members = holds ≡ leb count 1
  IsMeant or_kind holds count all_members = holds ≡ leb 1 count
  IsMeant all_or_none holds count all_members = holds ≡ (eqb count 0 || eqb count all_members)
  IsMeant _ holds count all_members = Unit

  count_true-size :
      (σ : Assignments h) (es : Expressions h) → count_true (evaluate_each σ es) ≤ size es
  unfolding evaluate_boolean
  count_true-size σ nil = omega arith
  count_true-size σ (cons e es) = ground (arith, count_true-size σ es)

  module _
      (faithful : (a b : BooleanExpression h) → key.boolean_key a ≡ key.boolean_key b → a ≡ b) where
    member_keys-faithful :
        (es fs : Expressions h) → list_eq ◌==◌ (member_keys es) (member_keys fs) ≡ true → es ≡ fs
    member_keys-faithful nil nil same = refl
    member_keys-faithful nil (cons f fs) same = absurd (ground arith)
    member_keys-faithful (cons e es) nil same = absurd (ground arith)
    member_keys-faithful (cons e es) (cons f fs) same =
        let first : e ≡ f =
          faithful e f ((eq_iff (key.boolean_key e) (key.boolean_key f)).0 (ground arith)) in
        cc (first, member_keys-faithful es fs (ground arith))

    as_cardinality-eq :
        (e : BooleanExpression h) (es : Expressions h) (a b : ℕ)
        → as_cardinality e ≡ some (es, a, b)
        → e ≡ cardinality es a b
    as_cardinality-eq (cardinality fs c d) es a b is = ground arith
    as_cardinality-eq (present id) es a b is = absurd (ground arith)
    as_cardinality-eq (compare op l r) es a b is = absurd (ground arith)
    as_cardinality-eq (matches v p) es a b is = absurd (ground arith)
    as_cardinality-eq (implies c q) es a b is = absurd (ground arith)
    as_cardinality-eq (all_of fs) es a b is = absurd (ground arith)
    as_cardinality-eq (any_of fs) es a b is = absurd (ground arith)
    as_cardinality-eq (negation e) es a b is = absurd (ground arith)

    pair-IsMeant :
        (σ : Assignments h) (es fs : Expressions h) (a b c d : ℕ)
        → pair_is_all_or_none (some (es, a, b)) (some (fs, c, d)) ≡ true
        → evaluate_boolean σ (any_of (cons (cardinality es a b) (cons (cardinality fs c d) nil)))
          ≡ (eqb (count_true (evaluate_each σ es)) 0
              || eqb (count_true (evaluate_each σ es)) (size es))
    unfolding evaluate_boolean
    pair-IsMeant σ es fs a b c d is =
        let same : es ≡ fs = member_keys-faithful es fs (ground arith) in
        subst
          (λ gs.
            (leb a (count_true (evaluate_each σ es)) && leb (count_true (evaluate_each σ es)) b
              || (leb c (count_true (evaluate_each σ gs)) && leb (count_true (evaluate_each σ gs)) d
                  || false))
            ≡ (eqb (count_true (evaluate_each σ es)) 0
                || eqb (count_true (evaluate_each σ es)) (size es)))
          same
          (bounds-all_or_none (size es) a b c d (count_true (evaluate_each σ es))
            (count_true-size σ es) (ground arith))

    all_or_none-IsMeant :
        (σ : Assignments h) (e : BooleanExpression h)
        → is_all_or_none e ≡ true
        → evaluate_boolean σ e ≡ (
            eqb (count_true (evaluate_each σ (counted e))) 0
            || eqb (count_true (evaluate_each σ (counted e))) (size (counted e)))
    unfolding is_all_or_none
    all_or_none-IsMeant σ (any_of (cons first (cons second nil))) is =
        elim (Option-cases (as_cardinality first)) [
          | inl other ↦ absurd (ground arith)
          | inr ((es, a, b), one) ↦ elim (Option-cases (as_cardinality second)) [
            | inl other ↦ absurd (ground arith)
            | inr ((fs, c, d), two) ↦
                rw (as_cardinality-eq first es a b one, as_cardinality-eq second fs c d two)
                  (pair-IsMeant σ es fs a b c d (ground arith))
          ]
        ]
    all_or_none-IsMeant σ e is = absurd (ground arith)

    bounds-IsMeant :
        (minimum maximum count all_members : ℕ)
        → count ≤ all_members
        → IsMeant
            (if eqb minimum maximum && eqb maximum 1
              then only_one
              else if eqb minimum 0 && eqb maximum 1
              then zero_or_one
              else if eqb minimum 1 && eqb maximum all_members
              then or_kind
              else complex)
            (leb minimum count && leb count maximum)
            count
            all_members
    bounds-IsMeant minimum maximum count all_members le =
        elim (Bool-cases (eqb minimum maximum && eqb maximum 1)) [
          | inl e ↦ rw e (ground arith)
          | inr e ↦ elim (Bool-cases (eqb minimum 0 && eqb maximum 1)) [
            | inl f ↦ rw (e, f) (ground arith)
            | inr f ↦ elim (Bool-cases (eqb minimum 1 && eqb maximum all_members)) [
              | inl g ↦ rw (e, f, g) (ground arith)
              | inr g ↦ rw (e, f, g) tt
            ]
          ]
        ]

    classify_normalized-IsMeant :
        (σ : Assignments h) (e : BooleanExpression h)
        → IsMeant
            (classify_normalized e)
            (evaluate_boolean σ e)
            (count_true (evaluate_each σ (counted e)))
            (size (counted e))
    unfolding classify_normalized evaluate_boolean
    classify_normalized-IsMeant σ (cardinality es minimum maximum) =
        bounds-IsMeant minimum maximum (count_true (evaluate_each σ es)) (size es)
          (count_true-size σ es)
    classify_normalized-IsMeant σ (present id) = tt
    classify_normalized-IsMeant σ (compare op l r) = tt
    classify_normalized-IsMeant σ (matches v p) = tt
    classify_normalized-IsMeant σ (implies c q) =
        elim (Bool-cases (is_presence c && is_presence q)) [ inl e ↦ rw e tt | inr e ↦ rw e tt ]
    classify_normalized-IsMeant σ (all_of es) = tt
    classify_normalized-IsMeant σ (any_of es) = elim (Bool-cases (is_all_or_none (any_of es))) [
      | inl e ↦ rw e (all_or_none-IsMeant σ (any_of es) e)
      | inr e ↦ rw e tt
    ]
    classify_normalized-IsMeant σ (negation e) = tt

    -- If the keys tell the expressions apart and the arithmetic commutes, a constraint labelled `OnlyOne`
    -- holds exactly if one of the members it counts does, `ZeroOrOne` if at most one, `Or` if at least
    -- one, and `AllOrNone` if all or none do.
    pub classify_constraint-IsMeant :
        (laws : IsCommutative h) (σ : Assignments h) (e : BooleanExpression h)
        → let members_counted = counted (normalize_boolean key e) in
          IsMeant
            (classify_constraint e)
            (evaluate_boolean σ e)
            (count_true (evaluate_each σ members_counted))
            (size members_counted)
    unfolding classify_constraint
    classify_constraint-IsMeant laws σ e =
        let normalized = normalize_boolean key e in
        subst
          (λ holds.
            IsMeant (classify_normalized normalized) holds
              (count_true (evaluate_each σ (counted normalized))) (size (counted normalized)))
          (evaluate-normalize laws key σ e) (classify_normalized-IsMeant σ normalized)
