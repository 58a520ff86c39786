-- ===== src/Selection/Choosing.antt =====
-- `choose_case_generators`, part by part: the purpose of the request, a positive candidate for each
-- input, and the selection.
use Prim.Native.String.{◌++◌}
use restscope.Prelude.{
  ℕ, String, Bool, false, not, Option, none, some, List, [], ◌∷◌, map, keep, contains, decimal,
  ◌==◌, if◌then◌else◌,
}
use restscope.Prelude.{◌++◌ as append}
use restscope.Prelude.Dicts.{Dict, get, keys}
use restscope.Constraints.Expressions.{collect}
use restscope.Constraints.Association.{OperationConstraintRecord, associated_constraint_ids}
use restscope.Selection.{
  SelectionHost, InputGeneratorConfig, NegativeInputGeneratorConfig, OperationGeneratorConfig,
  TestMode, happy_path, exceptional, positive, negative, Statistics, GeneratorChoice, Action,
  take_happy_path, take_negative_generator, take_ignored_constraint, CaseGeneratorSelection, Slot,
  filled, skipped, ◌>>=◌, sort_by, add_positive, choice, epsilon_greedy, positive_choice,
  choice_of_negative,
}

-- `action`, `negative` and `ignored_ids`
pub record Purpose (h : SelectionHost) : Type 0 where
  pub action : Action
  pub negative_candidate : Option (NegativeInputGeneratorConfig h)
  pub ignored_ids : List String

-- `scope`
unfoldable pub scope_of : {h : SelectionHost} → OperationGeneratorConfig h → ℕ → String
unfolding decimal
scope_of config case_index = "selection:" ++ (config.operation_key ++ (":" ++ decimal case_index))

-- `sorted({…})` of texts
unfoldable pub sorted_set : List String → List String
unfolding sort_by collect
sorted_set ids = sort_by (λ id. id) (collect [] ids)

module _ (h : SelectionHost) where
  abbrev pub positive_input : InputGeneratorConfig h → String
  positive_input item = item.input_node_id

  abbrev pub negative_input : NegativeInputGeneratorConfig h → String
  negative_input item = item.inherited.input_node_id

  abbrev pub inherited_of : NegativeInputGeneratorConfig h → InputGeneratorConfig h
  inherited_of item = item.inherited

  -- `positives_by_input`
  unfoldable pub group_positives :
      List (InputGeneratorConfig h)
      → Dict (List (InputGeneratorConfig h))
      → Dict (List (InputGeneratorConfig h))
  group_positives [] groups = groups
  group_positives (item ∷ items) groups =
      group_positives items (add_positive item.input_node_id item groups)

  abbrev pub members_of :
      Dict (List (InputGeneratorConfig h)) → String → List (InputGeneratorConfig h)
  members_of groups id = elim (get id groups) [ none ↦ [] | some members ↦ members ]

  -- `negative is not None and input_node_id == negative.input_node_id`
  abbrev pub is_negative_input : Option (NegativeInputGeneratorConfig h) → String → Bool
  is_negative_input none id = false
  is_negative_input (some candidate) id = id == negative_input candidate

  -- The negative candidate, with the fields that it inherits, comes last.
  abbrev pub with_negative :
      Option (NegativeInputGeneratorConfig h)
      → List (InputGeneratorConfig h)
      → List (InputGeneratorConfig h)
  with_negative none selected = selected
  with_negative (some candidate) selected = append selected (candidate.inherited ∷ [])

  abbrev pub negative_choice_of : Option (NegativeInputGeneratorConfig h) → Option GeneratorChoice
  negative_choice_of none = none
  negative_choice_of (some candidate) = some (choice_of_negative h candidate)

  -- The `CaseGeneratorSelection` that is returned.
  unfoldable pub selection_of :
      OperationGeneratorConfig h
      → List OperationConstraintRecord
      → Purpose h
      → List (InputGeneratorConfig h)
      → CaseGeneratorSelection h
  unfolding positive_choice choice_of_negative
  selection_of config constraints purpose selected = record {
    config = record config {
      positive_generators = with_negative purpose.negative_candidate selected;
    };
    constraints = keep (λ item. not (contains item.id purpose.ignored_ids)) constraints;
    action = purpose.action;
    positive_choices = map (positive_choice h) selected;
    negative_choice = negative_choice_of purpose.negative_candidate;
    ignored_constraint_ids = purpose.ignored_ids;
  }

  module _ (statistics : Statistics) where
    -- The negative branch, for one of the inputs that have a negative candidate.
    unfoldable pub negative_purpose :
        List (NegativeInputGeneratorConfig h)
        → List OperationConstraintRecord
        → String
        → Slot (Purpose h)
    unfolding ◌>>=◌ sorted_set choice epsilon_greedy associated_constraint_ids
    negative_purpose [] constraints scope = skipped
    negative_purpose (first ∷ others) constraints scope = do
      negative_id ←
          choice h (sorted_set (map negative_input (first ∷ others))) (scope ++ ":negative-input")
      candidate ←
          epsilon_greedy h statistics inherited_of negative
            (keep (λ item. negative_input item == negative_id) (first ∷ others))
            (scope ++ (":negative-candidate:" ++ negative_id))
      filled (record {
        action = take_negative_generator;
        negative_candidate = some candidate;
        ignored_ids = associated_constraint_ids constraints negative_id;
      })

    -- The branch that ignores one constraint.
    unfoldable pub ignored_purpose : List OperationConstraintRecord → String → Slot (Purpose h)
    unfolding ◌>>=◌ choice
    ignored_purpose [] scope = skipped
    ignored_purpose (first ∷ others) scope = do
      ignored ← choice h (first ∷ others) (scope ++ ":ignored-constraint")
      filled (record {
        action = take_ignored_constraint;
        negative_candidate = none;
        ignored_ids = ignored.id ∷ [];
      })

    unfoldable pub choose_purpose :
        OperationGeneratorConfig h
        → List OperationConstraintRecord
        → TestMode
        → String
        → Slot (Purpose h)
    unfolding negative_purpose ignored_purpose
    choose_purpose config constraints happy_path scope =
        filled (record { action = take_happy_path; negative_candidate = none; ignored_ids = [] })
    choose_purpose config constraints exceptional scope =
        if h.coin (scope ++ ":exceptional-action")
        then negative_purpose config.negative_generators constraints scope
        else ignored_purpose constraints scope

    -- The loop over the sorted inputs, of which the negative one is left out.
    unfoldable pub choose_positives :
        Dict (List (InputGeneratorConfig h))
        → Option (NegativeInputGeneratorConfig h)
        → String
        → List String
        → Slot (List (InputGeneratorConfig h))
    unfolding ◌>>=◌ epsilon_greedy
    choose_positives groups candidate scope [] = filled []
    choose_positives groups candidate scope (id ∷ ids) =
        let rest = choose_positives groups candidate scope ids in
        if is_negative_input candidate id then rest else (do
          chosen ←
              epsilon_greedy h statistics (λ item. item) positive (members_of groups id)
                (scope ++ (":positive-candidate:" ++ id))
          later ← rest
          filled (chosen ∷ later))

    -- `choose_case_generators`
    unfoldable pub choose_case_generators :
        OperationGeneratorConfig h
        → List OperationConstraintRecord
        → TestMode
        → ℕ
        → Slot (CaseGeneratorSelection h)
    unfolding ◌>>=◌ choose_purpose choose_positives group_positives sort_by selection_of scope_of
    choose_case_generators config constraints test_mode case_index = do
      let scope = scope_of config case_index
      purpose ← choose_purpose config constraints test_mode scope
      let groups = group_positives config.positive_generators []
      selected ←
          choose_positives groups purpose.negative_candidate scope
            (sort_by (λ id. id) (keys groups))
      filled (selection_of config constraints purpose selected)
