-- ===== src/Constraints/Normalization/Canonical.antt =====
-- The order and the fixed points of `normalize_constraint_set`.
use restscope.Prelude.{
  ◌≡◌, refl, ap, ◌∙◌, Bool, true, false, ◌&&◌, arith, Bool-cases, inl, inr, text_gt, text_gt_asymm,
}
use restscope.Constraints.Values.{Host, ArithmeticOperator, CompareOperator}
use restscope.Constraints.Expressions.{
  ValueExpression, BooleanExpression, Expressions, nil, cons, input_value, literal, arithmetic,
  present, compare, matches, implies, cardinality, all_of, any_of, negation,
}
use restscope.Constraints.Normalization.{
  CanonicalKey, is_commutative, is_symmetric, swap_if, normalize_value, insert, sort,
  normalize_boolean, normalize_each, normalize_constraint_set,
}

module _ {h : Host} (key : CanonicalKey h) where
  -- No member has a greater key than the next one.
  abbrev pub is_above : BooleanExpression h → Expressions h → Bool
  is_above e nil = false
  is_above e (cons x xs) = text_gt (key.boolean_key e) (key.boolean_key x)

  abbrev pub IsSorted : Expressions h → Type 0
  IsSorted nil = Unit
  IsSorted (cons e es) = (is_above e es ≡ false) × IsSorted es

  abbrev gt : BooleanExpression h → BooleanExpression h → Bool
  gt a b = text_gt (key.boolean_key a) (key.boolean_key b)

  is_above-insert :
      (x e : BooleanExpression h) (es : Expressions h)
      → gt e x ≡ true
      → is_above x es ≡ false
      → is_above x (insert key e es) ≡ false
  unfolding insert
  is_above-insert x e nil g k = text_gt_asymm (key.boolean_key e) (key.boolean_key x) g
  is_above-insert x e (cons y ys) g k = elim (Bool-cases (gt e y)) [
    | inl more ↦ rw more k
    | inr less ↦ rw less (text_gt_asymm (key.boolean_key e) (key.boolean_key x) g)
  ]

  insert-IsSorted :
      (e : BooleanExpression h) (es : Expressions h) → IsSorted es → IsSorted (insert key e es)
  unfolding insert
  insert-IsSorted e nil s = (refl, tt)
  insert-IsSorted e (cons x xs) (above, s) = elim (Bool-cases (gt e x)) [
    | inl more ↦ rw more (is_above-insert x e xs more above, insert-IsSorted e xs s)
    | inr less ↦ rw less (less, (above, s))
  ]

  sort-IsSorted : (es : Expressions h) → IsSorted (sort key es)
  unfolding sort
  sort-IsSorted nil = tt
  sort-IsSorted (cons e es) = insert-IsSorted e (sort key es) (sort-IsSorted es)

  sort_sorted : (es : Expressions h) → IsSorted es → sort key es ≡ es
  unfolding sort
  sort_sorted nil s = refl
  sort_sorted (cons e nil) s = refl
  sort_sorted (cons e (cons x xs)) (above, s) =
      ap (insert key e) (sort_sorted (cons x xs) s) ∙ rw above refl

  -- To normalize a value twice.
  swap_value-IsFixed :
      (op : ArithmeticOperator) (l r : ValueExpression h)
      → normalize_value key l ≡ l
      → normalize_value key r ≡ r
      → let e =
          swap_if
            (is_commutative op && text_gt (key.value_key l) (key.value_key r))
            (arithmetic op)
            l
            r in
        normalize_value key e ≡ e
  unfolding normalize_value
  swap_value-IsFixed op l r hl hr =
      elim (Bool-cases (is_commutative op && text_gt (key.value_key l) (key.value_key r))) [
        | inl swapped ↦
            let kept : (is_commutative op && text_gt (key.value_key r) (key.value_key l)) ≡ false =
              ground (arith, text_gt_asymm (key.value_key l) (key.value_key r)) in
            rw (swapped, hl, hr, kept) refl
        | inr kept ↦ rw (kept, hl, hr, kept) refl
      ]

  normalize_value_idem :
      (e : ValueExpression h) → normalize_value key (normalize_value key e) ≡ normalize_value key e
  unfolding normalize_value
  normalize_value_idem (input_value id) = refl
  normalize_value_idem (literal v) = refl
  normalize_value_idem (arithmetic op l r) =
      swap_value-IsFixed op (normalize_value key l) (normalize_value key r) (normalize_value_idem l)
        (normalize_value_idem r)

  swap_compare-IsFixed :
      (op : CompareOperator) (l r : ValueExpression h)
      → normalize_value key l ≡ l
      → normalize_value key r ≡ r
      → let e =
          swap_if
            (is_symmetric op && text_gt (key.value_key l) (key.value_key r))
            (compare op)
            l
            r in
        normalize_boolean key e ≡ e
  unfolding normalize_boolean
  swap_compare-IsFixed op l r hl hr =
      elim (Bool-cases (is_symmetric op && text_gt (key.value_key l) (key.value_key r))) [
        | inl swapped ↦
            let kept : (is_symmetric op && text_gt (key.value_key r) (key.value_key l)) ≡ false =
              ground (arith, text_gt_asymm (key.value_key l) (key.value_key r)) in
            rw (swapped, hl, hr, kept) refl
        | inr kept ↦ rw (kept, hl, hr, kept) refl
      ]

  normalize_each-insert :
      (e : BooleanExpression h) (es : Expressions h)
      → normalize_boolean key e ≡ e
      → normalize_each key es ≡ es
      → normalize_each key (insert key e es) ≡ insert key e es
  unfolding insert normalize_boolean
  normalize_each-insert e nil he hs = rw he
  normalize_each-insert e (cons x xs) he hs = elim (Bool-cases (gt e x)) [
    | inl more ↦ rw more (cc (normalize_each-insert e xs he (cc)))
    | inr less ↦ rw less (cc)
  ]

  normalize_each-sort :
      (es : Expressions h)
      → normalize_each key es ≡ es
      → normalize_each key (sort key es) ≡ sort key es
  unfolding sort normalize_boolean
  normalize_each-sort nil hs = refl
  normalize_each-sort (cons e es) hs =
      normalize_each-insert e (sort key es) (cc) (normalize_each-sort es (cc))

  sorted_idem :
      (es : Expressions h)
      → normalize_each key (normalize_each key es) ≡ normalize_each key es
      → sort key (normalize_each key (sort key (normalize_each key es)))
        ≡ sort key (normalize_each key es)
  sorted_idem es fixed =
      ap (sort key) (normalize_each-sort (normalize_each key es) fixed)
      ∙ sort_sorted (sort key (normalize_each key es)) (sort-IsSorted (normalize_each key es))

  mutual
    unfolding normalize_boolean

    normalize_boolean_idem :
        (e : BooleanExpression h)
        → normalize_boolean key (normalize_boolean key e) ≡ normalize_boolean key e
    normalize_boolean_idem (present id) = refl
    normalize_boolean_idem (compare op l r) =
        swap_compare-IsFixed op (normalize_value key l) (normalize_value key r)
          (normalize_value_idem l) (normalize_value_idem r)
    normalize_boolean_idem (matches value pattern') =
        ap (λ v. matches v pattern') (normalize_value_idem value)
    normalize_boolean_idem (implies condition consequence) =
        cc (normalize_boolean_idem condition, normalize_boolean_idem consequence)
    normalize_boolean_idem (cardinality es minimum maximum) =
        ap (λ x. cardinality x minimum maximum) (sorted_idem es (each_idem es))
    normalize_boolean_idem (all_of es) = ap all_of (sorted_idem es (each_idem es))
    normalize_boolean_idem (any_of es) = ap any_of (sorted_idem es (each_idem es))
    normalize_boolean_idem (negation e) = ap negation (normalize_boolean_idem e)

    each_idem :
        (es : Expressions h) → normalize_each key (normalize_each key es) ≡ normalize_each key es
    each_idem nil = refl
    each_idem (cons e es) = cc (normalize_boolean_idem e, each_idem es)

  -- To normalize a normalized constraint set changes nothing, and its members are in the order of their
  -- keys.
  pub normalize_constraint_set_idem :
      (constraints : Expressions h)
      → let normalized = normalize_constraint_set key constraints in
        (normalize_constraint_set key normalized ≡ normalized) × IsSorted normalized
  unfolding normalize_constraint_set
  normalize_constraint_set_idem constraints = (
    sorted_idem constraints (each_idem constraints),
    sort-IsSorted (normalize_each key constraints),
  )
