-- ===== src/Orchestration/Contracts/Decisions/Completing.antt =====
-- A completion that the contract of an Orchestrator decision accepts is accepted by the Ledger too.
use restscope.Prelude.{
  eqb, numbered, All-append, ◌≤◌, ◌≡◌, refl, ap, none, some, [], ◌∷◌, ◌++◌, keep, arith, not,
}
use restscope.Prelude.Identities.{
  starts_with, strip_prefix-numbered, parse_digits-decimal, starts_with-apart,
}
use restscope.Orchestration.Models.{CompleteDecision, OrchestratorDecision, RunStatus, is_pending}
use restscope.Orchestration.Ledger.{ok, TaskLedger, goal_ids, milestone_ids, attempt_ids}
use restscope.Orchestration.Ledger.Execution.{complete, snapshot, exactly_once}
use restscope.Orchestration.Ledger.Invariant.{IsValid}
use restscope.Orchestration.Ledger.Completion.{complete_exact}
use restscope.Orchestration.Contracts.Decisions.{
  validate_orchestrator_output, refusal_if, decision_errors, declared_revision,
  orchestrator_aliases, offered_ids, last_items, expected_plan_revision, DecisionError,
}
use restscope.Orchestration.Contracts.Decisions.Offered.{
  HasPrefix, LacksPrefix, All-implied, pending-HasPrefix, recent-HasPrefix, keep-first,
}

-- The revision is read back from its alias.
declared_revision-aliases :
    (s : TaskLedger)
    → declared_revision (numbered "revision_" s.plan_revision) ≡ some s.plan_revision
unfolding declared_revision
declared_revision-aliases s =
    rw (declared_revision, strip_prefix-numbered "revision_" s.plan_revision)
      (parse_digits-decimal s.plan_revision)

-- On what a Ledger offers, the errors are a wrong revision and those of the kind of decision.
pub validate-orchestrator_aliases :
    (s : TaskLedger) (d : OrchestratorDecision)
    → validate_orchestrator_output (orchestrator_aliases s) d
      ≡ refusal_if
          (not (eqb (expected_plan_revision d) s.plan_revision))
          DecisionError.wrong_revision
        ++ decision_errors (offered_ids s) d
unfolding validate_orchestrator_output orchestrator_aliases
validate-orchestrator_aliases s d =
    ap
      (λ o. elim o [
        | none ↦ DecisionError.invalid_revision ∷ []
        | some r ↦
            refusal_if (not (eqb (expected_plan_revision d) r)) DecisionError.wrong_revision
            ++ decision_errors (offered_ids s) d
      ])
      (declared_revision-aliases s)

-- An accepted decision is for the current revision, and has no errors of its kind.
pub validated-current :
    (s : TaskLedger) (d : OrchestratorDecision)
    → validate_orchestrator_output (orchestrator_aliases s) d ≡ []
    → (expected_plan_revision d ≡ s.plan_revision) × (decision_errors (offered_ids s) d ≡ [])
validated-current s d h = ground (arith, validate-orchestrator_aliases s d)

-- Of what is offered, the Goal criteria are those with their prefix.
goals-offered :
    (s : TaskLedger)
    → IsValid s
    → HasPrefix "goal_" (goal_ids s.goal.success_criteria)
    → keep (starts_with "goal_") (offered_ids s) ≡ goal_ids s.goal.success_criteria
unfolding offered_ids
goals-offered s v goals =
    let pending = milestone_ids (keep (λ m. is_pending m.status) s.milestones) in
    let recent = attempt_ids (last_items 20 s.attempts) in
    let no_milestone : LacksPrefix "goal_" pending =
      All-implied (λ x h. starts_with-apart "g" "m" "oal_" "ilestone_" x refl h) pending
        (pending-HasPrefix s v) in
    let no_attempt : LacksPrefix "goal_" recent =
      All-implied (λ x h. starts_with-apart "g" "a" "oal_" "ttempt_" x refl h) recent
        (recent-HasPrefix s v) in
    keep-first "goal_" (goal_ids s.goal.success_criteria) (pending ++ recent) goals
      (All-append _ pending recent no_milestone no_attempt)

-- A completion that the contract accepts on what a valid Ledger without an active Task offers never
-- makes the Ledger raise, if the Goal criteria have their prefix and the decision names a revision
-- from 1 on: it is completed.
pub validated-completes :
    (d : CompleteDecision) (s : TaskLedger)
    → IsValid s
    → s.active_task_id ≡ none
    → HasPrefix "goal_" (goal_ids s.goal.success_criteria)
    → 1 ≤ d.expected_plan_revision
    → validate_orchestrator_output (orchestrator_aliases s) (OrchestratorDecision.complete d) ≡ []
    → complete d s
      ≡ ok (
        record s { run_status = RunStatus.completed },
        snapshot (record s { run_status = RunStatus.completed }),
      )
unfolding decision_errors exactly_once
validated-completes d s v idle goals planned h =
    let (current, errors) = validated-current s (OrchestratorDecision.complete d) h in
    (complete_exact d s _ _).1 (record {
      current = current;
      planned = omega arith;
      idle = idle;
      assessed = ground (arith, goals-offered s v goals);
      result = refl;
      view = refl;
    })
