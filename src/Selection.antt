-- ===== src/Selection.antt =====
-- restscope/request_generation/selection.py: the candidate generators of one request. `SeededRandom`
-- gives each scope a stream of its own, so what it draws is a function of the scope.
use Prim.Native.String.{◌++◌}
pub mod Choosing
pub mod Members
pub mod Bandit
pub mod Exempting
pub mod Grouping
pub mod Purposes
pub mod Slots
mod Tests
use restscope.Prelude.{
  ℕ, zero, suc, String, Bool, true, false, not, Option, none, some, List, [], ◌∷◌, map, keep,
  length, eqb, contains, text_gt, decimal, ◌==◌, if◌then◌else◌,
}
use restscope.Prelude.{◌++◌ as append}
use restscope.Prelude.Dicts.{Dict, get, put, keys}
use restscope.Constraints.Expressions.{collect}
use restscope.Constraints.Association.{OperationConstraintRecord, associated_constraint_ids}

-- What is not of this file: the strategies, the floats, `hashlib` with `json`, and for each scope
-- the test `number(0.0, 1.0) < EPSILON`, the random bit, and the position that `random.choice` draws
-- in a list of the given length.
pub record SelectionHost : Type 1 where
  pub Strategy : Type 0
  pub Float : Type 0
  pub zero_score : Float
  pub over : ℕ → ℕ → Float
  pub float_gt : Float → Float → Bool
  pub float_eq : Float → Float → Bool
  pub digest : String → Float → Strategy → String
  pub explores : String → Bool
  pub coin : String → Bool
  pub position : String → ℕ → ℕ

pub record InputGeneratorConfig (h : SelectionHost) : Type 0 where
  pub input_node_id : String
  pub inclusion_probability : h.Float
  pub strategy : h.Strategy

-- The inherited fields, and the rule.
pub record NegativeInputGeneratorConfig (h : SelectionHost) : Type 0 where
  pub inherited : InputGeneratorConfig h
  pub rule : String

-- The fields that the choice reads or replaces.
pub record OperationGeneratorConfig (h : SelectionHost) : Type 0 where
  pub operation_key : String
  pub positive_generators : List (InputGeneratorConfig h)
  pub negative_generators : List (NegativeInputGeneratorConfig h)

pub data TestMode : Type 0 where
  happy_path exceptional : TestMode

pub data CandidateKind : Type 0 where
  positive negative : CandidateKind

pub record RewardStatistics : Type 0 where
  pub attempts : ℕ
  pub rewards : ℕ

abbrev pub Statistics : Type 0
Statistics = CandidateKind → String → String → Option RewardStatistics

pub record GeneratorChoice : Type 0 where
  pub kind : CandidateKind
  pub input_node_id : String
  pub candidate_id : String
  pub rule : Option String

pub data Action : Type 0 where
  take_happy_path take_negative_generator take_ignored_constraint : Action

pub record CaseGeneratorSelection (h : SelectionHost) : Type 0 where
  pub config : OperationGeneratorConfig h
  pub constraints : List OperationConstraintRecord
  pub action : Action
  pub positive_choices : List GeneratorChoice
  pub negative_choice : Option GeneratorChoice
  pub ignored_constraint_ids : List String

-- A slot is filled, or skipped (`None`), or a `ValueError` is raised.
pub data Slot {ℓ} (A : Type ℓ) : Type ℓ where
  filled : A → Slot A
  skipped : Slot A
  raised : Slot A

infixl 5 ◌>>=◌
unfoldable pub ◌>>=◌ {ℓ κ} : {A : Type ℓ} {B : Type κ} → Slot A → (A → Slot B) → Slot B
filled a >>= f = f a
skipped >>= f = skipped
raised >>= f = raised

-- `sorted(xs, key=key)`, which is stable.
abbrev pub insert_by {ℓ} : {A : Type ℓ} → (A → String) → A → List A → List A
insert_by key x [] = x ∷ []
insert_by key x (y ∷ ys) =
    let rest = insert_by key x ys in if text_gt (key x) (key y) then y ∷ rest else x ∷ (y ∷ ys)

unfoldable pub sort_by {ℓ} : {A : Type ℓ} → (A → String) → List A → List A
sort_by key [] = []
sort_by key (x ∷ xs) = insert_by key x (sort_by key xs)

abbrev pub element_at {ℓ} : {A : Type ℓ} → ℕ → List A → Slot A
element_at i [] = raised
element_at zero (x ∷ xs) = filled x
element_at (suc i) (x ∷ xs) = element_at i xs

-- `positives_by_input[candidate.input_node_id].append(candidate)`
abbrev pub add_positive {ℓ} : {A : Type ℓ} → String → A → Dict (List A) → Dict (List A)
add_positive id candidate groups = elim (get id groups) [
  | none ↦ put id (candidate ∷ []) groups
  | some members ↦ put id (append members (candidate ∷ [])) groups
]

module _ (h : SelectionHost) where
  -- `mean_reward`
  unfoldable pub mean_reward : RewardStatistics → h.Float
  mean_reward arm = if eqb arm.attempts 0 then h.zero_score else h.over arm.rewards arm.attempts

  -- `candidate_id`
  unfoldable pub candidate_id : InputGeneratorConfig h → String
  candidate_id candidate =
      h.digest candidate.input_node_id candidate.inclusion_probability candidate.strategy

  -- `random.choice`
  unfoldable pub choice {ℓ} : {A : Type ℓ} → List A → String → Slot A
  choice values scope = element_at (h.position scope (length values)) values

  -- `max` of a list that has a first value.
  unfoldable pub largest : h.Float → List h.Float → h.Float
  largest best [] = best
  largest best (x ∷ xs) = largest (if h.float_gt x best then x else best) xs

  module _ (statistics : Statistics) where
    unfoldable pub reward : CandidateKind → InputGeneratorConfig h → h.Float
    unfolding mean_reward candidate_id
    reward kind item = elim (statistics kind item.input_node_id (candidate_id item)) [
      | some arm ↦ mean_reward arm
      | none ↦ mean_reward (record { attempts = 0; rewards = 0 })
    ]

    module _ {A : Type 0} (inherited_of : A → InputGeneratorConfig h) (kind : CandidateKind) where
      -- The branch without exploration; `max` of nothing is an error.
      unfoldable pub greedy : List A → String → Slot A
      unfolding reward largest choice
      greedy [] scope = raised
      greedy (x ∷ xs) scope =
          let best_reward =
            largest (reward kind (inherited_of x)) (map (λ y. reward kind (inherited_of y)) xs) in
          choice (keep (λ y. h.float_eq (reward kind (inherited_of y)) best_reward) (x ∷ xs))
            (scope ++ ":greedy-tie")

      -- `_epsilon_greedy`
      unfoldable pub epsilon_greedy : List A → String → Slot A
      unfolding greedy sort_by
      epsilon_greedy candidates scope =
          let ordered = sort_by (λ y. candidate_id (inherited_of y)) candidates in
          if h.explores (scope ++ ":epsilon")
          then choice ordered (scope ++ ":explore")
          else greedy ordered scope

  -- `_choice`
  unfoldable pub positive_choice : InputGeneratorConfig h → GeneratorChoice
  unfolding candidate_id
  positive_choice candidate = record {
    kind = positive;
    input_node_id = candidate.input_node_id;
    candidate_id = candidate_id candidate;
    rule = none;
  }

  unfoldable pub choice_of_negative : NegativeInputGeneratorConfig h → GeneratorChoice
  unfolding candidate_id
  choice_of_negative candidate = record {
    kind = negative;
    input_node_id = candidate.inherited.input_node_id;
    candidate_id = candidate_id candidate.inherited;
    rule = some candidate.rule;
  }
