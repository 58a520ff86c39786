-- ===== src/Orchestration/Contracts/Decisions/Borrowing.antt =====
-- A replan that completes a Goal criterion: the contract of an Orchestrator decision accepts it.
use restscope.Prelude.{
  ◌≤◌, ◌≡◌, ◌≢◌, refl, ap, String, true, false, List, [], ◌∷◌, arith, ◌∙◌, ◌&&◌, contains, subset,
  Bool-cases, inl, inr, ◌==◌, eq_iff, eqb,
}
use restscope.Prelude.Identities.{starts_with, starts_with-apart}
use restscope.Orchestration.Models.{ReplanDecision, OrchestratorDecision, is_pending}
use restscope.Orchestration.Ledger.{ok, TaskLedger, goal_ids, apply_replan, current_pending_ids}
use restscope.Orchestration.Ledger.Invariant.{IsValid}
use restscope.Orchestration.Ledger.Replanning.{apply_replan-IsAccepted}
use restscope.Orchestration.Contracts.Decisions.{
  validate_orchestrator_output, decision_errors, orchestrator_aliases, offered_ids, milestone_chars,
}
use restscope.Orchestration.Contracts.Decisions.Offered.{
  HasPrefix, All-implied, All-map, contains-LacksPrefix, All-keep, milestone-HasPrefix,
}
use restscope.Orchestration.Contracts.Decisions.Completing.{validate-orchestrator_aliases}

contains-HasPrefix :
    (p id : String) (xs : List String)
    → HasPrefix p xs
    → contains id xs ≡ true
    → starts_with p id ≡ true
contains-HasPrefix p id [] h e = absurd (ground arith)
contains-HasPrefix p id (x ∷ xs) h e = elim (Bool-cases (id == x)) [
  | inl same ↦ ap (starts_with p) ((eq_iff id x).0 same) ∙ h.0
  | inr other ↦ contains-HasPrefix p id xs h.1 (ground arith)
]

contains-subset :
    (id : String) (xs ys : List String)
    → subset xs ys ≡ true
    → contains id xs ≡ true
    → contains id ys ≡ true
contains-subset id [] ys h e = absurd (ground arith)
contains-subset id (x ∷ xs) ys h e = elim (Bool-cases (id == x)) [
  | inl same ↦ ap (λ k. contains k ys) ((eq_iff id x).0 same) ∙ ground arith
  | inr other ↦ contains-subset id xs ys (ground arith) (ground arith)
]

-- A Goal criterion is no pending Milestone.
goal-current_pending_ids :
    (id : String) (s : TaskLedger)
    → IsValid s
    → starts_with "goal_" id ≡ true
    → contains id (current_pending_ids s) ≡ false
unfolding current_pending_ids
goal-current_pending_ids id s v is = contains-LacksPrefix "goal_" id _ is (
    All-implied (λ x h. starts_with-apart "g" "m" "oal_" "ilestone_" x refl h) _
      (All-map _ _ _ (
        All-keep _ (λ m. is_pending m.status && eqb m.plan_revision s.plan_revision) s.milestones
          (milestone-HasPrefix 1 s.milestones v.milestones))))

-- A replan for the current revision that names an offered Goal criterion among the Milestones it
-- completes, all of them offered, has no error by the contract if its text is in bounds, and a valid
-- Ledger whose Goal criteria have their prefix never accepts it.
pub validated-borrows :
    (d : ReplanDecision) (id : String) (s : TaskLedger)
    → IsValid s
    → HasPrefix "goal_" (goal_ids s.goal.success_criteria)
    → d.expected_plan_revision ≡ s.plan_revision
    → subset d.completed_milestone_ids (offered_ids s) ≡ true
    → contains id d.completed_milestone_ids ≡ true
    → contains id (goal_ids s.goal.success_criteria) ≡ true
    → milestone_chars d.milestones ≤ 4000
    → (validate_orchestrator_output (orchestrator_aliases s) (OrchestratorDecision.replan d) ≡ [])
      × ((t : TaskLedger) → apply_replan d s ≢ ok t)
unfolding decision_errors
validated-borrows d id s v goals current offered completes is_goal short = (
  validate-orchestrator_aliases s (OrchestratorDecision.replan d) ∙ ground arith,
  λ t h.
      let a = apply_replan-IsAccepted d s t h in
      let pending =
        contains-subset id d.completed_milestone_ids (current_pending_ids s) a.were_pending
          completes in
      let not_pending =
        goal-current_pending_ids id s v
          (contains-HasPrefix "goal_" id (goal_ids s.goal.success_criteria) goals is_goal) in
      ground (arith, pending, not_pending),
)
