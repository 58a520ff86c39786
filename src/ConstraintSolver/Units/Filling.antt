-- ===== src/ConstraintSolver/Units/Filling.antt =====
-- The candidates of a group of resource identifiers assign its inputs.
use restscope.Prelude.{
  ℕ, zero, suc, ◌≡◌, refl, sym, ap, ◌∙◌, subst, String, Bool, true, none, some, List, [], ◌∷◌, any,
  All, All-append, arith, Bool-cases, Option-cases, inl, inr,
}
use restscope.Prelude.Dicts.{Dict, IsFresh, get, put_all, put_all-new, keys}
use restscope.Inputs.{InputNodeSnapshot}
use restscope.Constraints.Values.{Host, Value}
use restscope.Constraints.Evaluation.{Assignments}
use restscope.ConstraintSolver.Candidates.{Overrides}
use restscope.ConstraintSolver.Pruning.{is_item, AreItems}
use restscope.ConstraintSolver.Records.{ReferenceValueProvider, Components}
use restscope.ConstraintSolver.Units.{
  first_of, component_ids_of, candidate_eq, record_items, add_records, baseline_item,
  baseline_items, remove_first, baseline_first, records_of,
}
use restscope.ConstraintSolver.Units.Counting.{IsUnit}

first_of-All :
    {A : Type 0} (P : A → Type 0) (n : ℕ) (xs : List A) → All P xs → All P (first_of n xs)
first_of-All P zero xs all_hold = tt
first_of-All P (suc n) [] all_hold = tt
first_of-All P (suc n) (x ∷ xs) (p, ps) = (p, first_of-All P n xs ps)

All-map :
    {P Q : String → Type 0}
    → ((id : String) → P id → Q id)
    → (ids : List String) → All P ids
    → All Q ids
All-map f [] holds = tt
All-map f (x ∷ xs) (p, ps) = (f x p, All-map f xs ps)

-- A value for the input is acceptable.
abbrev pub TakesValues : (h : Host) → List InputNodeSnapshot → String → Type 0
TakesValues h nodes id =
    (v : Value h)
    → is_item nodes (id, record { present = true; has_value = true; value = v }) ≡ true

-- The input takes any value, and its baseline is acceptable.
abbrev pub IsIdentifier : {h : Host} → List InputNodeSnapshot → Assignments h → String → Type 0
IsIdentifier {h} nodes baseline id =
    TakesValues h nodes id × (is_item nodes (id, baseline_item baseline id) ≡ true)

module _ {h : Host} (nodes : List InputNodeSnapshot) (python_eq : Value h → Value h → Bool) where
  abbrev IsCandidate : List String → Overrides h → Type 0
  IsCandidate ids c = (keys c ≡ ids) × AreItems nodes c

  AreCandidates-IsUnit :
      (ids : List String) (cs : List (Overrides h))
      → All (IsCandidate ids) cs
      → IsUnit (AreItems nodes) (record { node_ids = ids; candidates = cs })
  AreCandidates-IsUnit ids [] are = (tt, tt)
  AreCandidates-IsUnit ids (c ∷ cs) ((k, g), are) =
      let rest = AreCandidates-IsUnit ids cs are in ((k, rest.0), (g, rest.1))

  -- A dict of items with distinct keys is the items.
  put_all-IsCandidate :
      (ids : List String) (items : Overrides h)
      → IsFresh ids []
      → IsCandidate ids items
      → IsCandidate ids (put_all [] items)
  put_all-IsCandidate ids items fresh (same, good) =
      subst (IsCandidate ids)
        (sym (put_all-new [] items (subst (λ k. IsFresh k []) (sym same) fresh))) (same, good)

  value_of : {c d : Overrides h} → some c ≡ some d → c ≡ d
  value_of {c = c} e = ap (λ o. elim o [ none ↦ c | some x ↦ x ]) e

  record_items-IsCandidate :
      {Coordinate : Type 0} (record' : Dict (Value h)) (components : Components Coordinate)
      (items : Overrides h)
      → All (TakesValues h nodes) (component_ids_of components)
      → record_items record' components ≡ some items
      → IsCandidate (component_ids_of components) items
  record_items-IsCandidate record' [] items takes is =
      subst (IsCandidate []) (value_of is) (refl, tt)
  record_items-IsCandidate record' ((component, (node_id, strategy)) ∷ components) items (t, takes)
        is =
      elim (Option-cases (get component record')) [
        | inl missing ↦ absurd (ground arith)
        | inr (value, found) ↦ elim (Option-cases (record_items record' components)) [
          | inl missing ↦ absurd (ground arith)
          | inr (rest, rest_is) ↦
              let (same, good) = record_items-IsCandidate record' components rest takes rest_is in
              let whole : record_items record' ((component, (node_id, strategy)) ∷ components)
                  ≡ some (
                      (node_id, record { present = true; has_value = true; value = value })
                      ∷ rest) =
                rw (record_items, found, rest_is) refl in
              subst (IsCandidate (node_id ∷ component_ids_of components))
                (value_of (sym whole ∙ is)) (ap (λ k. node_id ∷ k) same, (t value, good))
        ]
      ]

  add_records-IsCandidate :
      {Coordinate : Type 0} (components : Components Coordinate) (records : List (Dict (Value h)))
      (cs : List (Overrides h))
      → IsFresh (component_ids_of components) []
      → All (TakesValues h nodes) (component_ids_of components)
      → All (IsCandidate (component_ids_of components)) cs
      → All
          (IsCandidate (component_ids_of components))
          (add_records python_eq components records cs)
  unfolding add_records
  add_records-IsCandidate components [] cs fresh takes are = are
  add_records-IsCandidate components (record' ∷ records) cs fresh takes are =
      elim (Option-cases (record_items record' components)) [
        | inl missing ↦
            rw (missing, add_records)
              (add_records-IsCandidate components records cs fresh takes are)
        | inr (items, is) ↦
            rw (is, add_records)
              (add_records-IsCandidate components records _ fresh takes
                (elim (Bool-cases (any (candidate_eq python_eq (put_all [] items)) cs)) [
                  | inl old ↦ rw old are
                  | inr new ↦ rw new (
                      All-append _ cs _ are (
                        put_all-IsCandidate _ items fresh
                            (record_items-IsCandidate record' components items takes is),
                        tt,
                      ))
                ]))
      ]

  remove_first-All :
      (P : Overrides h → Type 0) (c : Overrides h) (cs : List (Overrides h))
      → All P cs
      → All P (remove_first python_eq c cs)
  remove_first-All P c [] are = tt
  remove_first-All P c (d ∷ ds) (p, are) = elim (Bool-cases (candidate_eq python_eq d c)) [
    | inl same ↦ rw same are
    | inr other ↦ rw other (p, remove_first-All P c ds are)
  ]

  baseline_items-IsCandidate :
      (baseline : Assignments h) (ids : List String)
      → All (λ id. is_item nodes (id, baseline_item baseline id) ≡ true) ids
      → IsCandidate ids (baseline_items baseline ids)
  baseline_items-IsCandidate baseline [] good = (refl, tt)
  baseline_items-IsCandidate baseline (id ∷ ids) (g, good) =
      let (same, items) = baseline_items-IsCandidate baseline ids good in
      (ap (λ k. id ∷ k) same, (g, items))

  baseline_first-IsCandidate :
      (baseline : Assignments h) (ids : List String) (cs : List (Overrides h))
      → IsFresh ids []
      → All (λ id. is_item nodes (id, baseline_item baseline id) ≡ true) ids
      → All (IsCandidate ids) cs
      → All (IsCandidate ids) (baseline_first python_eq baseline ids cs)
  unfolding baseline_first
  baseline_first-IsCandidate baseline ids cs fresh good are =
      let c = put_all [] (baseline_items baseline ids) in
      elim (Bool-cases (any (λ d. candidate_eq python_eq d c) cs)) [
        | inr new ↦ rw (new, baseline_first) are
        | inl old ↦
            rw (old, baseline_first)
              (
                put_all-IsCandidate ids (baseline_items baseline ids) fresh
                    (baseline_items-IsCandidate baseline ids good),
                remove_first-All (IsCandidate ids) c cs are,
              )
      ]

  module _ {Coordinate : Type 0} (baseline : Assignments h) (max_domain_size : ℕ)
      (reference_values : ReferenceValueProvider h Coordinate) where
    pub group-IsUnit :
        (components : Components Coordinate) (c : Overrides h) (cs : List (Overrides h))
        → IsFresh (component_ids_of components) []
        → All (IsIdentifier nodes baseline) (component_ids_of components)
        → add_records python_eq components (records_of reference_values components) [] ≡ c ∷ cs
        → IsUnit (AreItems nodes) (record {
          node_ids = component_ids_of components;
          candidates =
              first_of max_domain_size
                (baseline_first python_eq baseline (component_ids_of components) (c ∷ cs));
        })
    group-IsUnit components c cs fresh identifiers is =
        let ids = component_ids_of components in
        AreCandidates-IsUnit ids _ (
          first_of-All (IsCandidate ids) max_domain_size _ (
            baseline_first-IsCandidate baseline ids (c ∷ cs) fresh
              (All-map (λ id p. p.1) ids identifiers)
              (subst (All (IsCandidate ids)) is (
                add_records-IsCandidate components (records_of reference_values components) [] fresh
                  (All-map (λ id p. p.0) ids identifiers) tt))))
