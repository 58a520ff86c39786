-- ===== src/AgentTree/Tests.antt =====
-- Runs of the Agent tree and of the token budget on small inputs.
use restscope.Prelude.{List, any, ◌||◌, ◌+◌, ◌-◌, ◌≡◌, refl, true, false, none, some, [], ◌∷◌, ltb}
use restscope.AgentTree.Control.{
  AgentRecord, AgentTree, ToolError, ok, TreeStatus, new_tree, new_record, with_root, register_root,
  start_child, get, reserve, admit,
}
use restscope.AgentTree.Control.Invariant.{IsValid, start_child_undone}
use restscope.AgentTree.Control.Steps.{Step, Reach, tree_stays-IsValid}
use restscope.AgentTree.Control.Waiting.{
  Watched, WaitResult, has_news, snapshots, collect_all, wait_leave,
}
use restscope.AgentTree.Control.{ResultStatus, begin_record, finish_record}
use restscope.AgentTree.Control.Collecting.{IsCollected, wait_leave-IsCollected}
use restscope.AgentTree.Budget.{RolloutBudget, charge, Usage, Reports, charge-Reports, weighted}

abbrev empty_tree : AgentTree
empty_tree = record { max_open_agents = 2; records = []; open_count = 0 }

abbrev rooted : AgentTree
rooted = with_root "root" "orchestrator" false empty_tree

abbrev grown : AgentTree
grown = reserve "child" "root" "executor" 1 rooted

registers : register_root "root" "orchestrator" false empty_tree ≡ ok rooted
unfolding register_root
registers = refl

empty_made : new_tree 2 1 ≡ some empty_tree
unfolding new_tree
empty_made = refl

root_there : (s : AgentTree) → s ≡ rooted → get "child" s.records ≡ none
unfolding get
root_there s e = rw e refl

grown_reached :
    Reach empty_tree (start_child "child" true "root" ("executor" ∷ []) "executor" rooted).1
grown_reached =
    Reach.next (Reach.next Reach.here (Step.register "root" "orchestrator" false registers))
      (Step.start "child" true "root" ("executor" ∷ []) "executor" (root_there rooted refl))

tree_stays-IsValid_example :
    IsValid (start_child "child" true "root" ("executor" ∷ []) "executor" rooted).1
tree_stays-IsValid_example =
    tree_stays-IsValid 2 1 empty_tree
      (start_child "child" true "root" ("executor" ∷ []) "executor" rooted).1 empty_made
      grown_reached

-- The executor does not take the child.
start_child_undone_example :
    (start_child "child" false "root" ("executor" ∷ []) "executor" rooted).1 ≡ rooted
unfolding start_child get admit
start_child_undone_example =
    start_child_undone "child" false "root" ("executor" ∷ []) "executor" rooted
      ToolError.submission_failed refl refl

abbrev child : AgentRecord
child = new_record "child" "executor" (some "root") 1 TreeStatus.queued

abbrev pair_tree : AgentTree
pair_tree = record rooted {
  records = new_record "root" "orchestrator" none 0 TreeStatus.running ∷ child ∷ [];
}

-- A limit of 100 tokens, and a response of 60.
abbrev fresh_budget : RolloutBudget
fresh_budget = record { limit = some 1000; used = 0; sent = [] }

abbrev response : Usage
response = record { prompt_tokens = 150; cached_input_tokens = 50; output_tokens = 50 }

charge-Reports_example :
    let (b, c) = charge 150 50 50 fresh_budget in
    Reports 1000 fresh_budget 50 (b, c)
    × Reports 1000 fresh_budget 25 (b, c)
    × Reports 1000 fresh_budget 10 (b, c)
    × (b.used ≡ 0 + weighted 150 50 50)
    × (c.remaining_tokens ≡ 1000 - b.used)
    × (c.exceeded ≡ ltb 1000 b.used)
charge-Reports_example = charge-Reports 1000 150 50 50 fresh_budget refl (refl, refl, refl)

-- The child of the pair has completed, and its owner waits for it.
abbrev ended_tree : AgentTree
ended_tree = record pair_tree {
  records =
      new_record "root" "orchestrator" none 0 TreeStatus.running
      ∷ finish_record ResultStatus.completed (begin_record child)
      ∷ [];
  open_count = 2;
}

abbrev watched : List Watched
watched = record { session_id = "child"; version = 0 } ∷ []

abbrev collected_tree : AgentTree
collected_tree = collect_all watched ended_tree

abbrev answer : WaitResult
answer = record { timed_out = false; agents = snapshots ended_tree watched }

wait_leave-IsCollected_example :
    ((any (has_news ended_tree) watched || false) ≡ true)
    × IsCollected watched ended_tree collected_tree answer
unfolding wait_leave has_news get
wait_leave-IsCollected_example =
    wait_leave-IsCollected watched false ended_tree collected_tree answer refl
