-- ===== src/Orchestration/Runtime/Soundness.antt =====
-- `OrchestrationRuntime.run`: the Ledger is valid and idle whenever the Orchestrator is asked, and a
-- finished run returns a completed one.
use restscope.Prelude.{
  ◌≡◌, ◌<◌, refl, ◌∙◌, subst, String, Bool, true, false, Option, none, some, List, [], ◌∷◌, not,
  ◌&&◌, arith, inl, inr, Option-cases, Bool-cases,
}
use restscope.Orchestration.Models.{
  GoalContract, OrchestratorDecision, replan, dispatch_task, TaskRecord, TaskExecutionResult,
  ReplanDecision, DispatchTaskDecision, CompleteDecision, OrchestrationResult, RunStatus,
}
use restscope.Orchestration.Ledger.{Result-cases, ok, TaskLedger, init, apply_replan}
use restscope.Orchestration.Ledger.Execution.{
  dispatch, append_attempt, append_failure, complete, snapshot,
}
use restscope.Orchestration.Ledger.Invariant.{IsValid}
use restscope.Orchestration.Ledger.Replanning.{apply_replan-keeps, apply_replan-IsValid}
use restscope.Orchestration.Ledger.Dispatching.{dispatch-IsDispatched, dispatch-IsValid}
use restscope.Orchestration.Ledger.Attempts.{append_attempt-Records}
use restscope.Orchestration.Ledger.Attempts.Failing.{append_failure-accepted-Records}
use restscope.Orchestration.Ledger.Completion.{complete-IsComplete, complete-IsValid}
use restscope.Orchestration.Runtime.{
  build_goal, Execution, Turn, orchestrator_failed, decided, RunOutcome, finished, raised,
  unfinished, record_execution, Step, run_decision, run_loop, run, is_replan, written, after,
}

-- The Ledger between two rounds: valid, with no active Task, and with the goal of the run.
pub record IsIdle (goal : GoalContract) (s : TaskLedger) : Type 0 where
  pub valid : IsValid s
  pub idle : s.active_task_id ≡ none
  pub goal_kept : s.goal ≡ goal

-- What a finished run returns: the completed view of a valid and planned Ledger with no active Task.
pub record IsFinal (goal : GoalContract) (r : OrchestrationResult) : Type 0 where
  pub last : TaskLedger
  pub end : IsIdle goal last
  pub planned : 0 < last.plan_revision
  pub completed : last.run_status ≡ RunStatus.completed
  pub view : r.ledger ≡ snapshot last
  pub goal_kept : r.goal ≡ goal

-- A run starts from a valid Ledger.
pub init-IsValid : (goal : GoalContract) → IsValid (init goal)
init-IsValid goal = record {
  milestones = tt;
  pending = tt;
  revisions = refl;
  planning = refl;
  aligned = tt;
  planned = tt;
}

attempt-IsIdle :
    (goal : GoalContract) (r : TaskExecutionResult) (s t : TaskLedger)
    → IsValid s
    → s.goal ≡ goal
    → written (append_attempt r s) ≡ some t
    → IsIdle goal t
attempt-IsIdle goal r s t v g h = elim (Result-cases (append_attempt r s)) [
  | inl ((t', a), e) ↦
      let (done, _, _) = append_attempt-Records r s t' a v e in
      let same : t' ≡ t = ground arith in
      subst (IsIdle goal) same
        (record { valid = done.valid; idle = done.idle; goal_kept = done.goal ∙ g })
  | inr (x, e) ↦ absurd (ground arith)
]

failure-IsIdle :
    (goal : GoalContract) (id code message : String) (s t : TaskLedger)
    → IsValid s
    → s.goal ≡ goal
    → written (append_failure id code message s) ≡ some t
    → IsIdle goal t
failure-IsIdle goal id code message s t v g h =
    elim (Result-cases (append_failure id code message s)) [
      | inl ((t', a), e) ↦
          let done = append_failure-accepted-Records id code message s t' a v e in
          let same : t' ≡ t = ground arith in
          subst (IsIdle goal) same
            (record { valid = done.valid; idle = done.idle; goal_kept = done.goal ∙ g })
      | inr (x, e) ↦ absurd (ground arith)
    ]

record_execution-IsIdle :
    (goal : GoalContract) (task : TaskRecord) (e : Execution) (s t : TaskLedger)
    → IsValid s
    → s.goal ≡ goal
    → record_execution task e s ≡ some t
    → IsIdle goal t
unfolding record_execution
record_execution-IsIdle goal task (Execution.result r) s t v g h = attempt-IsIdle goal r s t v g h
record_execution-IsIdle goal task (Execution.lifecycle_error code message) s t v g h =
    failure-IsIdle goal task.task_id _ _ s t v g h
record_execution-IsIdle goal task (Execution.runtime_error text name) s t v g h =
    failure-IsIdle goal task.task_id _ _ s t v g h
record_execution-IsIdle goal task Execution.uncaught s t v g h = cc

-- Where one round goes on, the next begins idle; where it returns, the result is final.
abbrev Lands : GoalContract → Step → Type 0
Lands goal (Step.continue s) = IsIdle goal s
Lands goal (Step.return r) = IsFinal goal r
Lands goal Step.raise = Unit

replan-Lands :
    (goal : GoalContract) (d : ReplanDecision) (e : Execution) (s : TaskLedger)
    → IsIdle goal s
    → Lands goal (run_decision (replan d) e s)
unfolding run_decision
replan-Lands goal d e s i = elim (Result-cases (apply_replan d s)) [
  | inl (t, h) ↦
      let valid : IsValid t = apply_replan-IsValid d s t i.valid h in
      let (_, _, kept, idle, _) = apply_replan-keeps d s t h in
      rw (h, run_decision) (record { valid = valid; idle = idle; goal_kept = kept ∙ i.goal_kept })
  | inr (x, h) ↦ rw (h, run_decision) tt
]

dispatched-Lands :
    (goal : GoalContract) (d : DispatchTaskDecision) (e : Execution) (s t : TaskLedger)
    (task : TaskRecord)
    → IsIdle goal s
    → dispatch d.task d.expected_plan_revision s ≡ ok (t, task)
    → Lands goal (run_decision (dispatch_task d) e s)
unfolding run_decision
dispatched-Lands goal d e s t task i h =
    let valid : IsValid t = dispatch-IsValid d.task d.expected_plan_revision s t task i.valid h in
    let kept : t.goal ≡ goal =
      rw (dispatch-IsDispatched d.task d.expected_plan_revision s t task h).result i.goal_kept in
    elim (Option-cases (record_execution task e t)) [
      | inl none_written ↦ rw (h, none_written, run_decision) tt
      | inr (u, done) ↦
          rw (h, done, run_decision) (record_execution-IsIdle goal task e t u valid kept done)
    ]

dispatch-Lands :
    (goal : GoalContract) (d : DispatchTaskDecision) (e : Execution) (s : TaskLedger)
    → IsIdle goal s
    → Lands goal (run_decision (dispatch_task d) e s)
dispatch-Lands goal d e s i = elim (Result-cases (dispatch d.task d.expected_plan_revision s)) [
  | inl ((t, task), h) ↦ dispatched-Lands goal d e s t task i h
  | inr (x, h) ↦ unfold run_decision in rw (h, run_decision) tt
]

complete-Lands :
    (goal : GoalContract) (d : CompleteDecision) (e : Execution) (s : TaskLedger)
    → IsIdle goal s
    → Lands goal (run_decision (OrchestratorDecision.complete d) e s)
unfolding run_decision
complete-Lands goal d e s i = elim (Result-cases (complete d s)) [
  | inl ((t, view), h) ↦
      let c = complete-IsComplete d s t view h in
      rw h (record {
        last = t;
        end = record {
          valid = complete-IsValid d s t view i.valid h;
          idle = rw c.result i.idle;
          goal_kept = rw c.result i.goal_kept;
        };
        planned = rw c.result c.planned;
        completed = rw c.result;
        view = c.view;
        goal_kept = i.goal_kept;
      })
  | inr (x, h) ↦ rw h tt
]

run_decision-Lands :
    (goal : GoalContract) (d : OrchestratorDecision) (e : Execution) (s : TaskLedger)
    → IsIdle goal s
    → Lands goal (run_decision d e s)
run_decision-Lands goal (replan d) e s i = replan-Lands goal d e s i
run_decision-Lands goal (dispatch_task d) e s i = dispatch-Lands goal d e s i
run_decision-Lands goal (OrchestratorDecision.complete d) e s i = complete-Lands goal d e s i

-- What an outcome of the loop promises.
abbrev pub IsSound : GoalContract → RunOutcome → Type 0
IsSound goal (finished r) = IsFinal goal r
IsSound goal raised = Unit
IsSound goal (unfinished s) = IsIdle goal s

after-IsSound :
    (goal : GoalContract) (st : Step) (rest : TaskLedger → RunOutcome)
    → Lands goal st
    → ((s : TaskLedger) → IsIdle goal s → IsSound goal (rest s))
    → IsSound goal (after st rest)
after-IsSound goal (Step.continue s) rest l h = h s l
after-IsSound goal (Step.return r) rest l h = l
after-IsSound goal Step.raise rest l h = tt

run_loop-IsSound :
    (goal : GoalContract) (first : Bool) (turns : List Turn) (s : TaskLedger)
    → IsIdle goal s
    → IsSound goal (run_loop first turns s)
unfolding run_loop
run_loop-IsSound goal first [] s i = i
run_loop-IsSound goal first (orchestrator_failed ∷ turns) s i = tt
run_loop-IsSound goal first (decided d e ∷ turns) s i =
    elim (Bool-cases (first && not (is_replan d))) [
      | inl refused ↦ rw refused tt
      | inr accepted ↦ rw accepted (
          after-IsSound goal (run_decision d e s) (run_loop false turns)
            (run_decision-Lands goal d e s i) (run_loop-IsSound goal false turns))
    ]

-- Whatever the agents answer: when the Orchestrator is asked again the Ledger is valid and no Task is
-- active; and a run that returns has a valid and planned Ledger with no active Task behind it, returns
-- its completed view, and keeps the goal that it was started with.
pub run-IsSound :
    (focus : Option String) (turns : List Turn) → IsSound (build_goal focus) (run focus turns)
unfolding run
run-IsSound focus turns =
    run_loop-IsSound (build_goal focus) true turns (init (build_goal focus))
      (record { valid = init-IsValid (build_goal focus); idle = refl; goal_kept = refl })
