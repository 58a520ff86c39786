-- ===== src/ConstraintSolver/Lineage.antt =====
-- The ancestors of selected inputs, for the loops over parents of the solver.
use restscope.Prelude.{
  ℕ, zero, suc, ◌<◌, ◌≡◌, refl, ap, sym, String, Bool, true, false, ◌&&◌, Option, none, some, List,
  [], ◌∷◌, ◌++◌, ◌==◌, if◌then◌else◌, length, any, All, arith, Bool-cases, Option-cases, inl, inr,
  contains, option_eq, eq_refl, eq_iff, any-append, is_some,
}
use restscope.Prelude.Dicts.{contains-append}
use restscope.Constraints.Values.{Host, InputAssignment}
use restscope.Inputs.{InputNodeSnapshot, node_of}
use restscope.ConstraintSolver.Candidates.{Overrides, explicitly_absent, climb, climb_each}
use restscope.Inputs.Forest.{IsForest, IsForest-IsShallow}

-- Whether an input has children.
abbrev pub is_parent : List InputNodeSnapshot → String → Bool
is_parent nodes id = any (λ n. option_eq ◌==◌ n.parent_node_id (some id)) nodes

parent-is_parent :
    (nodes : List InputNodeSnapshot) (id p : String) (node : InputNodeSnapshot)
    → node_of nodes id ≡ some node
    → node.parent_node_id ≡ some p
    → is_parent nodes p ≡ true
unfolding node_of
parent-is_parent [] id p node found below = absurd (ground arith)
parent-is_parent (n ∷ ns) id p node found below = elim (Option-cases (node_of ns id)) [
  | inl missing ↦
      let found_here : n ≡ node = ground (arith, missing) in rw (found_here, below, eq_refl p) refl
  | inr (later, e) ↦
      let above : is_parent ns p ≡ true = parent-is_parent ns id p node (ground (arith, e)) below in
      ground arith
]

abbrev pub mark_each : {A : Type 0} → (String → A → A) → List String → A → A
mark_each mark [] a = a
mark_each mark (x ∷ xs) a = mark_each mark xs (mark x a)

mark_each-append :
    {A : Type 0} (mark : String → A → A) (xs ys : List String) (a : A)
    → mark_each mark (xs ++ ys) a ≡ mark_each mark ys (mark_each mark xs a)
mark_each-append mark [] ys a = refl
mark_each-append mark (x ∷ xs) ys a = mark_each-append mark xs ys (mark x a)

append_assoc_list : (xs ys zs : List String) → (xs ++ ys) ++ zs ≡ xs ++ (ys ++ zs)
append_assoc_list [] ys zs = refl
append_assoc_list (x ∷ xs) ys zs = ap (λ t. x ∷ t) (append_assoc_list xs ys zs)

module _ (nodes : List InputNodeSnapshot) where
  -- An input without its node has no parents in this count.
  abbrev chain : ℕ → Option String → List String
  chain n none = []
  chain zero (some p) = []
  chain (suc n) (some p) =
      p ∷ elim (node_of nodes p) [ none ↦ [] | some node ↦ chain n node.parent_node_id ]

  abbrev ends : ℕ → Option String → Bool
  ends n none = true
  ends zero (some p) = false
  ends (suc n) (some p) = elim (node_of nodes p) [
    | none ↦ false
    | some node ↦ ends n node.parent_node_id
  ]

  abbrev ancestors : String → List String
  ancestors id = elim (node_of nodes id) [
    | none ↦ []
    | some node ↦ chain (length nodes) node.parent_node_id
  ]

  -- The ancestors of the inputs that a dict gives as present.
  abbrev pub lineage : {h : Host} → Overrides h → List String
  lineage [] = []
  lineage ((id, override) ∷ rest) =
      let above = lineage rest in if override.present then ancestors id ++ above else above

  pub lineage-append : {h : Host} (d c : Overrides h) → lineage (d ++ c) ≡ lineage d ++ lineage c
  lineage-append [] c = refl
  lineage-append ((id, override) ∷ d) c = elim (Bool-cases override.present) [
    | inl there ↦
        rw (there, lineage-append d c)
          (sym (append_assoc_list (ancestors id) (lineage d) (lineage c)))
    | inr away ↦ rw away (lineage-append d c)
  ]

  ends-forest :
      (forest : IsForest nodes) (n : ℕ) (parent : Option String)
      → ((q : String)
          → parent ≡ some q
          → ((node : InputNodeSnapshot) × (node_of nodes q ≡ some node)) × (forest.depth q < n))
      → ends n parent ≡ true
  ends-forest forest n none found = refl
  ends-forest forest zero (some q) found = absurd (omega (arith, (found q refl).1))
  ends-forest forest (suc n) (some q) found =
      let node : InputNodeSnapshot = (found q refl).0.0 in
      let node_found : node_of nodes q ≡ some node = (found q refl).0.1 in
      let up = ends-forest forest n node.parent_node_id (λ p below.
        let above : ((parent : InputNodeSnapshot) × (node_of nodes p ≡ some parent))
            × (forest.depth p < forest.depth q) =
          forest.parent_found q p node node_found below in
        (above.0, omega (arith, above.1, (found q refl).1))) in
      ground arith

  ends-ancestors :
      (forest : IsForest nodes) (id : String) (node : InputNodeSnapshot)
      → node_of nodes id ≡ some node
      → ends (length nodes) node.parent_node_id ≡ true
  ends-ancestors forest id node found =
      let shallow = IsForest-IsShallow nodes forest in
      ends-forest shallow.forest (length nodes) node.parent_node_id (λ p above.
        let up : ((parent : InputNodeSnapshot) × (node_of nodes p ≡ some parent))
            × (shallow.forest.depth p < shallow.forest.depth id) =
          shallow.forest.parent_found id p node found above in
        (up.0, omega (arith, up.1, shallow.shallow id)))

  contains-chain :
      (k : String) (n : ℕ) (parent : Option String)
      → ((q : String) → parent ≡ some q → is_parent nodes q ≡ true)
      → contains k (chain n parent) ≡ true
      → is_parent nodes k ≡ true
  contains-chain k n none above member = absurd (ground arith)
  contains-chain k zero (some p) above member = absurd (ground arith)
  contains-chain k (suc n) (some p) above member = elim (Bool-cases (k == p)) [
    | inl same ↦ rw ((eq_iff k p).0 same) (above p refl)
    | inr other ↦ elim (Option-cases (node_of nodes p)) [
      | inl missing ↦ absurd (ground arith)
      | inr (node, e) ↦
          contains-chain k n node.parent_node_id
            (λ q below. parent-is_parent nodes p q node e below) (ground arith)
    ]
  ]

  contains-ancestors : (k id : String) → contains k (ancestors id) ≡ true → is_parent nodes k ≡ true
  contains-ancestors k id member = elim (Option-cases (node_of nodes id)) [
    | inl missing ↦ absurd (ground arith)
    | inr (node, e) ↦
        contains-chain k (length nodes) node.parent_node_id
          (λ q below. parent-is_parent nodes id q node e below) (ground arith)
  ]

  pub contains-lineage :
      {h : Host} (k : String) (d : Overrides h)
      → contains k (lineage d) ≡ true
      → is_parent nodes k ≡ true
  contains-lineage k [] member = absurd (ground arith)
  contains-lineage k ((id, override) ∷ d) member =
      elim (Bool-cases (override.present && contains k (ancestors id))) [
        | inl above ↦ contains-ancestors k id (ground arith)
        | inr other ↦
            contains-lineage k d (ground (arith, contains-append k (ancestors id) (lineage d)))
      ]

  module _ {h : Host} (selected : Overrides h) {A : Type 0} (mark : String → A → A) where
    climb_exact :
        (n : ℕ) (parent : Option String) (a : A)
        → ends n parent ≡ true
        → climb nodes selected mark n parent a
          ≡ some (
              if any (explicitly_absent selected) (chain n parent)
              then none
              else some (mark_each mark (chain n parent) a))
    unfolding climb
    climb_exact n none a e = refl
    climb_exact zero (some p) a e = absurd (ground arith)
    climb_exact (suc n) (some p) a e = elim (Option-cases (node_of nodes p)) [
      | inl missing ↦ absurd (ground arith)
      | inr (node, found) ↦
          let up = climb_exact n node.parent_node_id (mark p a) (ground arith) in ground arith
    ]

    -- The inputs of the dict are inputs of the operation.
    abbrev pub AreInputs : Overrides h → Type 0
    AreInputs d = All (λ item. is_some (node_of nodes item.0) ≡ true) d

    climb_present :
        (id : String) (override : InputAssignment h) (d : Overrides h) (a : A)
        (node : InputNodeSnapshot)
        → node_of nodes id ≡ some node
        → override.present ≡ true
        → let above = chain (length nodes) node.parent_node_id in
          climb nodes selected mark (length nodes) node.parent_node_id a
            ≡ some (
                if any (explicitly_absent selected) above
                then none
                else some (mark_each mark above a))
          → climb_each nodes selected mark d (mark_each mark above a)
            ≡ some (
                if any (explicitly_absent selected) (lineage d)
                then none
                else some (mark_each mark (lineage d) (mark_each mark above a)))
          → let all_above = lineage ((id, override) ∷ d) in
            climb_each nodes selected mark ((id, override) ∷ d) a
            ≡ some (
                if any (explicitly_absent selected) all_above
                then none
                else some (mark_each mark all_above a))
    unfolding climb_each
    climb_present id override d a node found there up rest =
        let above = chain (length nodes) node.parent_node_id in
        let first_above : ancestors id ≡ above = rw (found, ancestors) refl in
        let all_above : lineage ((id, override) ∷ d) ≡ above ++ lineage d =
          rw there (ap (λ t. t ++ lineage d) first_above) in
        rw
          (
            all_above,
            there,
            found,
            up,
            any-append (explicitly_absent selected) above (lineage d),
            mark_each-append mark above (lineage d) a,
          )
          (elim (Bool-cases (any (explicitly_absent selected) above)) [
            | inl conflict ↦ rw conflict refl
            | inr free ↦ rw (free, rest) refl
          ])

    pub climb_each_exact :
        (forest : IsForest nodes) (d : Overrides h) (a : A)
        → AreInputs d
        → climb_each nodes selected mark d a
          ≡ some (
              if any (explicitly_absent selected) (lineage d)
              then none
              else some (mark_each mark (lineage d) a))
    unfolding climb_each
    climb_each_exact forest [] a inputs = refl
    climb_each_exact forest ((id, override) ∷ d) a (input, inputs) =
        elim (Bool-cases override.present) [
          | inr away ↦ rw away (climb_each_exact forest d a inputs)
          | inl there ↦ elim (Option-cases (node_of nodes id)) [
            | inl missing ↦ absurd (ground arith)
            | inr (node, found) ↦
                climb_present id override d a node found there
                  (climb_exact (length nodes) node.parent_node_id a
                    (ends-ancestors forest id node found))
                  (climb_each_exact forest d
                    (mark_each mark (chain (length nodes) node.parent_node_id) a) inputs)
          ]
        ]
