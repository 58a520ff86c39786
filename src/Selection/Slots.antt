-- ===== src/Selection/Slots.antt =====
-- `choose_case_generators`: when a slot is filled, and with what.
use mathlib.Core.List.{Memᴰ}
use restscope.Prelude.{
  ℕ, ◌≡◌, refl, sym, ap, subst, ◌∙◌, String, Bool, true, false, not, ◌&&◌, ◌⊎◌, Option, none, some,
  List, [], ◌∷◌, map, keep, All, contains, unique, arith, Bool-cases, inl, inr, eq_iff, eq_refl,
  ◌==◌,
}
use restscope.Prelude.Dicts.{keys}
use restscope.Constraints.Association.{OperationConstraintRecord}
use restscope.Selection.{
  SelectionHost, InputGeneratorConfig, NegativeInputGeneratorConfig, OperationGeneratorConfig,
  TestMode, Statistics, GeneratorChoice, CaseGeneratorSelection, sort_by, positive_choice,
  choice_of_negative,
}
use restscope.Selection.Members.{IsInRange, FillsUnless}
use restscope.Selection.Bandit.{IsFloatOrder}
use restscope.Selection.Exempting.{associated_constraint_ids-exempt}
use restscope.Selection.Grouping.{
  contains-sort_by, unique-sort_by, group_positives-AreGroups, contains-keys-group_positives,
  unique-keys-group_positives,
}
use restscope.Selection.Choosing.{
  Purpose, scope_of, positive_input, is_negative_input, group_positives, with_negative,
  negative_choice_of, selection_of, choose_case_generators,
}
use restscope.Selection.Purposes.{
  has_no_candidate, IsNegative, IsPurpose, choose_positives-Fills, choose_purpose-Fills,
}

abbrev pub chosen_input : GeneratorChoice → String
chosen_input c = c.input_node_id

abbrev pub is_chosen_negative : Option GeneratorChoice → String → Bool
is_chosen_negative none id = false
is_chosen_negative (some c) id = id == c.input_node_id

-- The candidate is a positive one, or what a negative one inherits.
abbrev pub IsFromConfig :
    {h : SelectionHost} → OperationGeneratorConfig h → InputGeneratorConfig h → Type 0
IsFromConfig {h} config c =
    Memᴰ c config.positive_generators
    ⊎ ((n : NegativeInputGeneratorConfig h) × Memᴰ n config.negative_generators × (c ≡ n.inherited))

-- What a filled slot is: one choice for each input with a positive candidate, but for the negative
-- input; the candidates are the operation's; and no constraint is left on the negative input.
pub record IsSelection {h : SelectionHost} (config : OperationGeneratorConfig h)
    (constraints : List OperationConstraintRecord) (s : CaseGeneratorSelection h) : Type 0 where
  pub for_each :
      (id : String)
      → contains id (map chosen_input s.positive_choices) ≡ (
          contains id (map (positive_input h) config.positive_generators)
          && not (is_chosen_negative s.negative_choice id))
  pub once : unique (map chosen_input s.positive_choices) ≡ true
  pub from_config : All (IsFromConfig config) s.config.positive_generators
  pub exempt :
      (c : GeneratorChoice) (k : OperationConstraintRecord)
      → s.negative_choice ≡ some c
      → Memᴰ k s.constraints
      → contains c.input_node_id k.owner_input_node_ids ≡ false

contains-keep :
    (p : String → Bool) (id : String) (ids : List String)
    → contains id (keep p ids) ≡ (contains id ids && p id)
contains-keep p id [] = refl
contains-keep p id (x ∷ xs) = elim (Bool-cases (id == x)) [
  | inl same ↦ ground (arith, contains-keep p id xs, ap p ((eq_iff id x).0 same))
  | inr other ↦ ground (arith, contains-keep p id xs)
]

unique-keep :
    (p : String → Bool) (ids : List String) → unique ids ≡ true → unique (keep p ids) ≡ true
unique-keep p [] once = refl
unique-keep p (x ∷ xs) once = ground (arith, unique-keep p xs, contains-keep p x xs)

All-contained :
    (P : String → Type 0) (ids : List String)
    → ((id : String) → contains id ids ≡ true → P id)
    → All P ids
All-contained P [] holds = tt
All-contained P (x ∷ xs) holds =
    (holds x (ground (arith, eq_refl x)), All-contained P xs (λ id has. holds id (ground arith)))

module _ (h : SelectionHost) where
  chosen_inputs :
      (selected : List (InputGeneratorConfig h))
      → map chosen_input (map (positive_choice h) selected) ≡ map (positive_input h) selected
  unfolding positive_choice
  chosen_inputs [] = refl
  chosen_inputs (c ∷ cs) = ap (λ ids. c.input_node_id ∷ ids) (chosen_inputs cs)

  same_negative :
      (candidate : Option (NegativeInputGeneratorConfig h)) (id : String)
      → is_chosen_negative (negative_choice_of h candidate) id ≡ is_negative_input h candidate id
  unfolding choice_of_negative
  same_negative none id = refl
  same_negative (some candidate) id = refl

  with_negative-IsFromConfig :
      (config : OperationGeneratorConfig h) (constraints : List OperationConstraintRecord)
      (candidate : Option (NegativeInputGeneratorConfig h)) (ignored_ids : List String)
      (selected : List (InputGeneratorConfig h))
      → IsNegative config constraints candidate ignored_ids
      → All (λ c. Memᴰ c config.positive_generators) selected
      → All (IsFromConfig config) (with_negative h candidate selected)
  with_negative-IsFromConfig config constraints none ignored_ids [] good within = tt
  with_negative-IsFromConfig config constraints none ignored_ids (c ∷ cs) good (m, within) =
      (inl m, with_negative-IsFromConfig config constraints none ignored_ids cs good within)
  with_negative-IsFromConfig config constraints (some n) ignored_ids [] (m, same) within =
      (inr (n, m, refl), tt)
  with_negative-IsFromConfig config constraints (some n) ignored_ids (c ∷ cs) good (m, within) =
      (inl m, with_negative-IsFromConfig config constraints (some n) ignored_ids cs good within)

  IsNegative-exempt :
      (config : OperationGeneratorConfig h) (constraints : List OperationConstraintRecord)
      (candidate : Option (NegativeInputGeneratorConfig h)) (ignored_ids : List String)
      (c : GeneratorChoice) (k : OperationConstraintRecord)
      → IsNegative config constraints candidate ignored_ids
      → negative_choice_of h candidate ≡ some c
      → Memᴰ k (keep (λ item. not (contains item.id ignored_ids)) constraints)
      → contains c.input_node_id k.owner_input_node_ids ≡ false
  unfolding choice_of_negative
  IsNegative-exempt config constraints none ignored_ids c k good chosen m = absurd (ground arith)
  IsNegative-exempt config constraints (some n) ignored_ids c k (member, same) chosen m =
      subst (λ id. contains id k.owner_input_node_ids ≡ false)
        (ap {B = String} (λ o. elim o [ none ↦ "" | some x ↦ x.input_node_id ]) chosen)
        (associated_constraint_ids-exempt constraints n.inherited.input_node_id k
          (subst (λ ids. Memᴰ k (keep (λ item. not (contains item.id ids)) constraints)) same m))

  selection_of-IsSelection :
      (config : OperationGeneratorConfig h) (constraints : List OperationConstraintRecord)
      (purpose : Purpose h) (selected : List (InputGeneratorConfig h)) (ids : List String)
      → IsPurpose config constraints purpose
      → map (positive_input h) selected
        ≡ keep (λ id. not (is_negative_input h purpose.negative_candidate id)) ids
      → All (λ c. Memᴰ c config.positive_generators) selected
      → unique ids ≡ true
      → ((id : String)
          → contains id ids ≡ contains id (map (positive_input h) config.positive_generators))
      → IsSelection config constraints (selection_of h config constraints purpose selected)
  unfolding selection_of
  selection_of-IsSelection config constraints purpose selected ids good inputs within once
        for_each =
      let p : String → Bool = λ id. not (is_negative_input h purpose.negative_candidate id) in
      let kept : map chosen_input (map (positive_choice h) selected) ≡ keep p ids =
        chosen_inputs selected ∙ inputs in
      record {
        for_each = λ id.
            ap (contains id) kept
            ∙ contains-keep p id ids
            ∙ rw (for_each id, same_negative purpose.negative_candidate id) refl;
        once = ap unique kept ∙ unique-keep p ids once;
        from_config =
            with_negative-IsFromConfig config constraints purpose.negative_candidate
              purpose.ignored_ids selected good within;
        exempt = λ c k.
            IsNegative-exempt config constraints purpose.negative_candidate purpose.ignored_ids c k
              good;
      }

module _ (h : SelectionHost) (statistics : Statistics) (in_range : IsInRange h)
    (ordered : IsFloatOrder h) (config : OperationGeneratorConfig h)
    (constraints : List OperationConstraintRecord) where
  -- If `random.choice` draws a position of its list and the scores are totally preordered, then no
  -- error is raised, the slot is skipped exactly if the drawn purpose has no candidate, and else
  -- filled with a right selection.
  pub choose_case_generators-FillsUnless :
      (test_mode : TestMode) (case_index : ℕ)
      → FillsUnless
          (has_no_candidate config constraints test_mode (scope_of config case_index))
          (IsSelection config constraints)
          (choose_case_generators h statistics config constraints test_mode case_index)
  unfolding choose_case_generators
  choose_case_generators-FillsUnless test_mode case_index =
      let items = config.positive_generators in
      let groups = group_positives h items [] in
      let ids = sort_by (λ id. id) (keys groups) in
      elim (choose_purpose-Fills h statistics in_range ordered config constraints test_mode
        (scope_of config case_index)) [
          | inl (is, empty) ↦ inl (rw is refl, empty)
          | inr ((purpose, is, good), has_some) ↦
              let (selected, chosen, (inputs, within)) =
                choose_positives-Fills h statistics in_range ordered items groups
                  purpose.negative_candidate (scope_of config case_index) ids
                  (group_positives-AreGroups items items [] (λ c m. m) tt)
                  (All-contained _ ids (λ id has. sym (contains-sort_by id (keys groups)) ∙ has)) in
              inr (
                (
                  selection_of h config constraints purpose selected,
                  rw (is, chosen) refl,
                  selection_of-IsSelection h config constraints purpose selected ids good inputs
                      within
                      (unique-sort_by (keys groups) (unique-keys-group_positives h items [] refl))
                      (λ id.
                        contains-sort_by id (keys groups)
                        ∙ contains-keys-group_positives h id items []
                        ∙ ground arith),
                ),
                has_some,
              )
        ]
