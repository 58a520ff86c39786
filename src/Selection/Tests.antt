-- ===== src/Selection/Tests.antt =====
-- An operation with two positive candidates for `page`, one for `size`, and a negative one for `page`.

use mathlib.Core.List.{Memᴰ}
use restscope.Prelude.{
  ℕ, ◌*◌, ◌/◌, ◌==◌, if◌then◌else◌, ◌≡◌, refl, String, true, false, some, none, List, [], ◌∷◌, ltb,
  eqb, arith, map,
}
use restscope.Constraints.Association.{OperationConstraintRecord, associated_constraint_ids}
use restscope.Selection.{
  SelectionHost, InputGeneratorConfig, OperationGeneratorConfig, exceptional, positive, Statistics,
  CaseGeneratorSelection, Slot, filled, epsilon_greedy,
}
use restscope.Selection.Members.{IsInRange, Fills, FillsUnless}
use restscope.Selection.Bandit.{IsFloatOrder, IsBest, epsilon_greedy-IsBest}
use restscope.Selection.Choosing.{choose_case_generators, scope_of}
use restscope.Selection.Purposes.{has_no_candidate}
use restscope.Selection.Slots.{IsSelection, chosen_input, choose_case_generators-FillsUnless}

-- Scores are percentages; the first position is drawn, and there is no exploration.
abbrev first_drawn : SelectionHost
first_drawn = record {
  Strategy = String;
  Float = ℕ;
  zero_score = 0;
  over = λ rewards attempts. (100 * rewards) / attempts;
  float_gt = λ a b. ltb b a;
  float_eq = eqb;
  digest = λ id probability strategy. strategy;
  explores = λ scope. false;
  coin = λ scope. true;
  position = λ scope n. 0;
}

first_drawn-IsInRange : IsInRange first_drawn
first_drawn-IsInRange scope n = omega arith

first_drawn-IsFloatOrder : IsFloatOrder first_drawn
first_drawn-IsFloatOrder = record {
  eq_refl = λ x. ground arith;
  eq_gt = λ x y z e g. ground arith;
  gt_irrefl = λ x. ground arith;
  gt_asymm = λ x y g. ground arith;
  le_trans = λ x y z g k. ground arith;
}

abbrev candidate : String → String → InputGeneratorConfig first_drawn
candidate id strategy = record {
  input_node_id = id;
  inclusion_probability = 100;
  strategy = strategy;
}

abbrev pages : List (InputGeneratorConfig first_drawn)
pages = candidate "page" "b" ∷ candidate "page" "a" ∷ []

abbrev config : OperationGeneratorConfig first_drawn
config = record {
  operation_key = "GET /items";
  positive_generators = candidate "size" "c" ∷ pages;
  negative_generators = record { inherited = candidate "page" "too_long"; rule = "maxLength" } ∷ [];
}

-- The candidate `b` was rewarded once in two attempts.
abbrev statistics : Statistics
statistics kind id candidate_id =
    if candidate_id == "b" then some (record { attempts = 2; rewards = 1 }) else none

abbrev constraints : List OperationConstraintRecord
constraints =
    record { id = "c1"; owner_input_node_ids = "page" ∷ "size" ∷ [] }
    ∷ record { id = "c2"; owner_input_node_ids = "sort" ∷ [] }
    ∷ []

epsilon_greedy-IsBest_example :
    Fills
      (λ c.
        Memᴰ c pages
        × (false ≡ false → IsBest first_drawn statistics (λ item. item) positive pages c))
      (epsilon_greedy first_drawn statistics (λ item. item) positive pages "scope")
epsilon_greedy-IsBest_example =
    epsilon_greedy-IsBest first_drawn statistics (λ item. item) positive first_drawn-IsInRange
      first_drawn-IsFloatOrder pages (candidate "page" "b") "scope" (Memᴰ.head refl)

choose_case_generators-FillsUnless_example :
    FillsUnless
      (has_no_candidate config constraints exceptional (scope_of config 3))
      (IsSelection config constraints)
      (choose_case_generators first_drawn statistics config constraints exceptional 3)
choose_case_generators-FillsUnless_example =
    choose_case_generators-FillsUnless first_drawn statistics first_drawn-IsInRange
      first_drawn-IsFloatOrder config constraints exceptional 3

-- The input of the negative candidate has no positive one, and its constraint is ignored.
abbrev ids_of : Slot (CaseGeneratorSelection first_drawn) → List String
ids_of (filled s) = map (λ c. c.id) s.constraints
ids_of _ = []

abbrev inputs_of : Slot (CaseGeneratorSelection first_drawn) → List String
inputs_of (filled s) = map chosen_input s.positive_choices
inputs_of _ = []

constraints-left :
    ids_of (choose_case_generators first_drawn statistics config constraints exceptional 3)
    ≡ "c2" ∷ []
unfolding choose_case_generators associated_constraint_ids
constraints-left = refl

inputs-chosen :
    inputs_of (choose_case_generators first_drawn statistics config constraints exceptional 3)
    ≡ "size" ∷ []
unfolding choose_case_generators associated_constraint_ids
inputs-chosen = refl

rewarded-chosen :
    epsilon_greedy first_drawn statistics (λ item. item) positive pages "scope"
    ≡ filled (candidate "page" "b")
unfolding epsilon_greedy
rewarded-chosen = refl
