-- ===== src/ConstraintSolver/Pruning.antt =====
-- Partial candidates and the complete candidates that the search can reach from them.
use restscope.Prelude.{
  ◌≡◌, refl, ap, sym, ◌∙◌, String, Bool, true, false, not, ◌&&◌, ◌||◌, none, some, List, [], ◌∷◌,
  ◌++◌, ◌==◌, if◌then◌else◌, any, All, arith, Bool-cases, Option-cases, inl, inr, contains, eq_iff,
  any-append, is_some, subst,
}
use restscope.Prelude.Dicts.{get, contains-append, get-append}
use restscope.Constraints.Values.{
  Host, Value, null, boolean, number, text, object, is_null, InputAssignment, validate_value_state,
}
use restscope.Constraints.Evaluation.{Assignments}
use restscope.Constraints.Evaluation.Soundness.{Extends}
use restscope.Inputs.{InputNodeSnapshot, node_of}
use restscope.ConstraintSolver.Candidates.{
  here, assign, Overrides, assigned, explicitly_absent, partial_candidate, complete_parent,
  complete_candidate,
}
use restscope.Inputs.Forest.{IsForest}
use restscope.ConstraintSolver.Lineage.{
  is_parent, mark_each, lineage, lineage-append, contains-lineage, climb_each_exact,
}

any-monotone :
    (p q : String → Bool) (xs : List String)
    → ((k : String) → p k ≡ true → q k ≡ true)
    → any p xs ≡ true
    → any q xs ≡ true
any-monotone p q [] imp h = h
any-monotone p q (x ∷ xs) imp h = elim (Bool-cases (p x)) [
  | inl e ↦ rw (imp x e) refl
  | inr e ↦ let rest = any-monotone p q xs imp (ground arith) in ground arith
]

any-contains :
    (p : String → Bool) (k : String) (xs : List String)
    → any p xs ≡ false
    → contains k xs ≡ true
    → p k ≡ false
any-contains p k [] none_of member = absurd (ground arith)
any-contains p k (x ∷ xs) none_of member = elim (Bool-cases (k == x)) [
  | inl e ↦ rw ((eq_iff k x).0 e) (ground arith)
  | inr e ↦ any-contains p k xs (ground arith) (ground arith)
]

mark_assign :
    {h : Host} (k : String) (xs : List String) (σ : Assignments h)
    → mark_each (λ parent_id τ. assign parent_id here τ) xs σ k
      ≡ (if contains k xs then some here else σ k)
mark_assign k [] σ = refl
mark_assign {h = h} k (x ∷ xs) σ =
    let rest = mark_assign k xs (assign {h = h} x here σ) in ground arith

mark_complete :
    {h : Host} (baseline σ : Assignments h) (overrides : Overrides h) (xs : List String)
    → (mark_each (complete_parent baseline) xs (σ, overrides)).0
      ≡ mark_each (λ parent_id τ. assign parent_id here τ) xs σ
unfolding complete_parent
mark_complete baseline σ overrides [] = refl
mark_complete baseline σ overrides (x ∷ xs) = mark_complete baseline (assign x here σ) _ xs

-- An item of a candidate: an input of the operation with an acceptable override, which has no value if
-- the input has children. The last is an assumption of its own: `_candidate_domain` gives a value to every
-- input whose strategy generates scalars.
abbrev pub is_item : {h : Host} → List InputNodeSnapshot → (String × InputAssignment h) → Bool
is_item nodes (id, override) =
    is_some (node_of nodes id)
    && validate_value_state override
    && not (override.has_value && is_parent nodes id)

null_of : {h : Host} (v : Value h) → is_null v ≡ true → v ≡ null
null_of null e = refl
null_of (boolean b) e = absurd (ground arith)
null_of (number n) e = absurd (ground arith)
null_of (text s) e = absurd (ground arith)
null_of (object o) e = absurd (ground arith)

assignment_of : {h : Host} → Bool → Bool → Value h → InputAssignment h
assignment_of there valued v = record { present = there; has_value = valued; value = v }

assignment-eta :
    {h : Host} (a : InputAssignment h) → a ≡ assignment_of a.present a.has_value a.value
unfolding assignment_of
assignment-eta a = refl

here-eta : {h : Host} → here {h = h} ≡ assignment_of true false null
unfolding assignment_of
here-eta = refl

module _ {h : Host} (nodes : List InputNodeSnapshot) where
  -- The values of the two candidates, if the parents of every input come to an end.
  abbrev pub in_conflict : Overrides h → Bool
  in_conflict selected = any (explicitly_absent selected) (lineage nodes selected)

  abbrev pub partial_assignment : Overrides h → Assignments h
  partial_assignment selected =
      mark_each (λ parent_id σ. assign parent_id here σ) (lineage nodes selected)
        (assigned selected (λ id. none))

  abbrev pub completed : Assignments h → Overrides h → (Assignments h × Overrides h)
  completed baseline selected =
      mark_each (complete_parent baseline) (lineage nodes selected)
        (assigned selected baseline, selected)

  abbrev pub AreItems : Overrides h → Type 0
  AreItems d = All (λ item. is_item nodes item ≡ true) d

  AreItems-AreInputs :
      (d : Overrides h) → AreItems d → All (λ item. is_some (node_of nodes item.0) ≡ true) d
  AreItems-AreInputs [] items = tt
  AreItems-AreInputs (x ∷ d) (item, items) = (ground arith, AreItems-AreInputs d items)

  pub partial_candidate_exact :
      (forest : IsForest nodes) (selected : Overrides h)
      → AreItems selected
      → partial_candidate nodes selected
        ≡ some (if in_conflict selected then none else some (partial_assignment selected))
  unfolding partial_candidate
  partial_candidate_exact forest selected items =
      climb_each_exact nodes selected _ forest selected _ (AreItems-AreInputs selected items)

  pub complete_candidate_exact :
      (forest : IsForest nodes) (baseline : Assignments h) (selected : Overrides h)
      → AreItems selected
      → complete_candidate nodes selected baseline
        ≡ some (if in_conflict selected then none else some (completed baseline selected))
  unfolding complete_candidate
  complete_candidate_exact forest baseline selected items =
      climb_each_exact nodes selected _ forest selected _ (AreItems-AreInputs selected items)

  explicitly_absent-append :
      (selected more : Overrides h) (k : String)
      → explicitly_absent selected k ≡ true
      → explicitly_absent (selected ++ more) k ≡ true
  explicitly_absent-append selected more k absent = elim (Option-cases (get k selected)) [
    | inl e ↦ absurd (ground arith)
    | inr (a, e) ↦ let later = get-append k a selected more e in ground arith
  ]

  pub in_conflict-append :
      (selected more : Overrides h)
      → in_conflict selected ≡ true
      → in_conflict (selected ++ more) ≡ true
  in_conflict-append selected more conflict =
      let all_absent = explicitly_absent (selected ++ more) in
      let still : any all_absent (lineage nodes selected) ≡ true =
        any-monotone (explicitly_absent selected) all_absent (lineage nodes selected)
          (explicitly_absent-append selected more) conflict in
      ap (any all_absent) (lineage-append nodes selected more)
      ∙ any-append all_absent (lineage nodes selected) (lineage nodes more)
      ∙ rw still refl

  get-is_item :
      (k : String) (a : InputAssignment h) (d : Overrides h)
      → AreItems d
      → get k d ≡ some a
      → is_item nodes (k, a) ≡ true
  get-is_item k a [] items found = absurd (ground arith)
  get-is_item k a ((j, b) ∷ d) (item, items) found = elim (Bool-cases (k == j)) [
    | inl e ↦
        let same : b ≡ a = ground arith in
        rw ((eq_iff k j).0 e) (subst (λ x. is_item nodes (j, x) ≡ true) same item)
    | inr e ↦ get-is_item k a d items (ground arith)
  ]

  -- A present input with children is assigned as the marks assign it.
  item_here :
      (k : String) (a : InputAssignment h)
      → is_item nodes (k, a) ≡ true
      → is_parent nodes k ≡ true
      → a.present ≡ true
      → a ≡ here
  unfolding validate_value_state
  item_here k a item parent there =
      let no_value : a.has_value ≡ false = ground arith in
      let nothing : is_null a.value ≡ true = ground arith in
      cc (there, no_value, null_of a.value nothing, assignment-eta a, here-eta {h = h})

  -- A selected override stays, or is the mark of its descendants.
  kept :
      (baseline : Assignments h) (k : String) (a : InputAssignment h) (selected more : Overrides h)
      → in_conflict (selected ++ more) ≡ false
      → get k selected ≡ some a
      → is_item nodes (k, a) ≡ true
      → (if contains k (lineage nodes (selected ++ more))
          then some here
          else assigned (selected ++ more) baseline k)
        ≡ some a
  kept baseline k a selected more free found item =
      let both = selected ++ more in
      let later : get k both ≡ some a = get-append k a selected more found in
      elim (Bool-cases (contains k (lineage nodes both))) [
        | inr lone ↦ rw lone (rw (later, assigned) refl)
        | inl above ↦
            let allowed : explicitly_absent both k ≡ false =
              any-contains (explicitly_absent both) k (lineage nodes both) free above in
            let there : a.present ≡ true = ground arith in
            rw above
              (ap some (sym (item_here k a item (contains-lineage nodes k both above) there)))
      ]

  pub partial-Extends :
      (baseline : Assignments h) (selected more : Overrides h)
      → AreItems selected
      → in_conflict (selected ++ more) ≡ false
      → Extends (partial_assignment selected) ((completed baseline (selected ++ more)).0)
  partial-Extends baseline selected more items free k a known =
      let both = selected ++ more in
      let marks : contains k (lineage nodes both)
          ≡ (contains k (lineage nodes selected) || contains k (lineage nodes more)) =
        ap (contains k) (lineage-append nodes selected more)
        ∙ contains-append k (lineage nodes selected) (lineage nodes more) in
      let before = mark_assign k (lineage nodes selected) (assigned selected (λ id. none)) in
      let after : (completed baseline both).0 k
          ≡ (if contains k (lineage nodes both) then some here else assigned both baseline k) =
        ap (λ σ. σ k) (mark_complete baseline (assigned both baseline) both (lineage nodes both))
        ∙ mark_assign k (lineage nodes both) (assigned both baseline) in
      elim (Bool-cases (contains k (lineage nodes selected))) [
        | inl above ↦
            let again : contains k (lineage nodes both) ≡ true = marks ∙ rw above refl in
            after ∙ rw again (sym (before ∙ rw above refl) ∙ known)
        | inr other ↦
            let chosen : assigned selected (λ id. none) k ≡ some a =
              sym (before ∙ rw other refl) ∙ known in
            let found : get k selected ≡ some a = ground arith in
            after
            ∙ kept baseline k a selected more free found (get-is_item k a selected items found)
      ]
