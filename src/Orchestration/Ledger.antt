-- ===== src/Orchestration/Ledger.antt =====
-- restscope/orchestration/ledger.py: `TaskLedger`, method by method, as functions into `Result`; an
-- error leaves the caller with the Ledger that it had. The guards of a method stand before its first
-- write; only `list.index` in `_replace_task` could raise between two writes, on a Ledger that is not
-- valid.

pub mod Replans
pub mod Dispatches
pub mod Execution
pub mod Invariant
pub mod Replanning
pub mod Dispatching
mod Recording
pub mod Attempts
pub mod Completion
use restscope.Prelude.{
  ◌≡◌, refl, ◌⊎◌, inl, inr, ℕ, suc, ◌+◌, String, Bool, true, false, ◌&&◌, not, Option, none, some,
  List, [], ◌∷◌, ◌++◌, map, any, keep, length, is_some, unique, subset, contains, numbered, list_eq,
  option_eq, eqb, ◌==◌, if◌then◌else◌,
}
use restscope.Orchestration.Models.{
  GoalContract, GoalCriterion, GoalCriterionVerdict, MilestoneProposal, ReplanDecision,
  TaskCriterion, CriterionVerdict, PlanRevisionRecord, MilestoneStatus, MilestoneRecord, TaskRecord,
  AttemptRecord, RunStatus, is_pending,
}

-- Each `raise`, in the order of the file; `stop_iteration` and `not_in_list` are those of `next` and
-- `list.index`, and `invalid_attempt` that of the validator of `AttemptRecord`.
pub data LedgerError : Type 0 where
  executor_active no_material_change duplicate_completed not_current_pending : LedgerError
  unknown_superseded not_pending_milestone unknown_attempt criteria_mismatch : LedgerError
  criterion_not_met bad_failure_code bad_failure_message no_plan stale_revision : LedgerError
  not_active_task stop_iteration unknown_milestone not_in_list unchanged_retry : LedgerError
  invalid_attempt : LedgerError

pub data Result {ℓ} (A : Type ℓ) : Type ℓ where
  ok : A → Result A
  err : LedgerError → Result A

infixl 5 ◌>>=◌ ◌>>◌
abbrev pub ◌>>=◌ {ℓ κ} : {A : Type ℓ} {B : Type κ} → Result A → (A → Result B) → Result B
ok a >>= f = f a
err e >>= f = err e

abbrev pub ◌>>◌ {ℓ} : {B : Type ℓ} → Result (Unit {0}) → Result B → Result B
ok tt >> rest = rest
err e >> rest = err e

pub Result-cases {ℓ} :
    {A : Type ℓ} (r : Result A) → ((a : A) × (r ≡ ok a)) ⊎ ((e : LedgerError) × (r ≡ err e))
Result-cases (ok a) = inl (a, refl)
Result-cases (err e) = inr (e, refl)

abbrev pub raise_if : Bool → LedgerError → Result (Unit {0})
raise_if true e = err e
raise_if false e = ok tt

abbrev pub or_raise {ℓ} : {A : Type ℓ} → Option A → LedgerError → Result A
or_raise none e = err e
or_raise (some a) e = ok a

pub record TaskLedger : Type 0 where
  pub goal : GoalContract
  pub plan_revision : ℕ
  pub run_status : RunStatus
  pub plan_revisions : List PlanRevisionRecord
  pub milestones : List MilestoneRecord
  pub tasks : List TaskRecord
  pub attempts : List AttemptRecord
  pub active_task_id : Option String

-- `__init__`
abbrev pub init : GoalContract → TaskLedger
init goal = record {
  goal = goal;
  plan_revision = 0;
  run_status = RunStatus.planning;
  plan_revisions = [];
  milestones = [];
  tasks = [];
  attempts = [];
  active_task_id = none;
}

abbrev pub milestone_ids : List MilestoneRecord → List String
milestone_ids = map (λ (m : MilestoneRecord). m.milestone_id)

abbrev pub attempt_ids : List AttemptRecord → List String
attempt_ids = map (λ (a : AttemptRecord). a.attempt_id)

abbrev pub criterion_ids : List TaskCriterion → List String
criterion_ids = map (λ (c : TaskCriterion). c.criterion_id)

abbrev pub verdict_ids : List CriterionVerdict → List String
verdict_ids = map (λ (c : CriterionVerdict). c.criterion_id)

abbrev pub goal_ids : List GoalCriterion → List String
goal_ids = map (λ (c : GoalCriterion). c.criterion_id)

abbrev pub goal_verdict_ids : List GoalCriterionVerdict → List String
goal_verdict_ids = map (λ (c : GoalCriterionVerdict). c.criterion_id)

-- `_require_current_revision`
unfoldable pub require_current_revision : ℕ → TaskLedger → Result (Unit {0})
require_current_revision expected s = raise_if (not (eqb expected s.plan_revision)) stale_revision

-- The tuples of title, purpose, success criteria and superseded Milestone that a replan compares.
pub record Shape : Type 0 where
  pub title : String
  pub purpose : String
  pub success_criteria : List String
  pub supersedes_milestone_id : Option String

unfoldable pub shape_eq : Shape → Shape → Bool
shape_eq a b =
    a.title == b.title
    && a.purpose == b.purpose
    && list_eq ◌==◌ a.success_criteria b.success_criteria
    && option_eq ◌==◌ a.supersedes_milestone_id b.supersedes_milestone_id

abbrev pub proposal_shape : MilestoneProposal → Shape
proposal_shape p = record {
  title = p.title;
  purpose = p.purpose;
  success_criteria = p.success_criteria;
  supersedes_milestone_id = p.supersedes_milestone_id;
}

abbrev pub milestone_shape : MilestoneRecord → Shape
milestone_shape m = record {
  title = m.title;
  purpose = m.purpose;
  success_criteria = m.success_criteria;
  supersedes_milestone_id = m.supersedes_milestone_id;
}

-- `proposed_shape == current_shape`
unfoldable pub same_shape : ReplanDecision → TaskLedger → Bool
unfolding shape_eq
same_shape d s =
    list_eq shape_eq (map proposal_shape d.milestones)
      (map milestone_shape (keep (λ m. is_pending m.status) s.milestones))

-- `current_pending_ids`
unfoldable pub current_pending_ids : TaskLedger → List String
current_pending_ids s =
    milestone_ids
      (keep (λ m. is_pending m.status && eqb m.plan_revision s.plan_revision) s.milestones)

-- Whether a proposal reopens a Milestone that the Ledger does not have.
unfoldable pub reopens_unknown : TaskLedger → MilestoneProposal → Bool
reopens_unknown s p = elim p.supersedes_milestone_id [
  | none ↦ false
  | some reopened ↦ not (contains reopened (milestone_ids s.milestones))
]

-- One entry of `updated_milestones`.
unfoldable pub update_milestone : List String → MilestoneRecord → MilestoneRecord
update_milestone completed m =
    if is_pending m.status
    then record m {
      status =
          if contains m.milestone_id completed
          then MilestoneStatus.completed
          else MilestoneStatus.superseded;
    }
    else m

-- `new_milestones`, where `n` is the number of the first.
unfoldable pub new_milestones : ℕ → ℕ → List MilestoneProposal → List MilestoneRecord
new_milestones n revision [] = []
new_milestones n revision (p ∷ ps) =
    record {
      milestone_id = numbered "milestone_" n;
      plan_revision = revision;
      title = p.title;
      purpose = p.purpose;
      success_criteria = p.success_criteria;
      status = MilestoneStatus.pending;
      supersedes_milestone_id = p.supersedes_milestone_id;
    }
    ∷ new_milestones (suc n) revision ps

-- What an accepted replan publishes.
unfoldable pub replanned : ReplanDecision → TaskLedger → TaskLedger
unfolding update_milestone new_milestones
replanned d s =
    let next_revision = s.plan_revision + 1 in
    let created = new_milestones (length s.milestones + 1) next_revision d.milestones in
    let superseded =
      keep (λ m. is_pending m.status && not (contains m.milestone_id d.completed_milestone_ids))
        s.milestones in
    record s {
      milestones = map (update_milestone d.completed_milestone_ids) s.milestones ++ created;
      plan_revisions =
          s.plan_revisions
          ++ record {
            plan_revision = next_revision;
            reason = d.reason;
            completed_milestone_ids = d.completed_milestone_ids;
            superseded_milestone_ids = milestone_ids superseded;
            created_milestone_ids = milestone_ids created;
          }
            ∷ [];
      plan_revision = next_revision;
      run_status = RunStatus.running;
    }

unfoldable pub apply_replan : ReplanDecision → TaskLedger → Result TaskLedger
unfolding require_current_revision same_shape current_pending_ids reopens_unknown
apply_replan d s = do
  require_current_revision d.expected_plan_revision s
  raise_if (is_some s.active_task_id) executor_active
  raise_if (same_shape d s && list_eq ◌==◌ d.completed_milestone_ids []) no_material_change
  raise_if (not (unique d.completed_milestone_ids)) duplicate_completed
  raise_if (not (subset d.completed_milestone_ids (current_pending_ids s))) not_current_pending
  raise_if (any (reopens_unknown s) d.milestones) unknown_superseded
  ok (replanned d s)
