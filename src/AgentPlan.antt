-- ===== src/AgentPlan.antt =====
-- restscope/tools/plan/runtime.py: the Plan of one Agent session, its validators, and the two Tools on
-- its store. A store is the Plan that it holds; values are immutable, so a defensive copy is the value.
pub mod Updating
mod Tests
use Prim.Native.String.{count}
use restscope.Prelude.{
  ℕ, suc, String, Bool, true, false, ◌&&◌, Option, none, some, List, [], ◌∷◌, all, length, leb,
  if◌then◌else◌,
}

pub data StepStatus : Type 0 where
  pending in_progress completed : StepStatus

pub record AgentPlanItem : Type 0 where
  pub step : String
  pub status : StepStatus

pub record AgentPlan : Type 0 where
  pub explanation : Option String
  pub plan : List AgentPlanItem

-- The limits on the length of a text.
abbrev pub is_bounded : ℕ → String → Bool
is_bounded limit text = leb 1 (count text) && leb (count text) limit

abbrev pub is_item : AgentPlanItem → Bool
is_item item = is_bounded 1000 item.step

-- `sum(item.status == "in_progress" for item in self.plan)`
abbrev pub active_steps : List AgentPlanItem → ℕ
active_steps [] = 0
active_steps (item ∷ items) =
    let rest = active_steps items in elim item.status [ in_progress ↦ suc rest | _ ↦ rest ]

-- The limits of `plan`, and `require_at_most_one_active_step`, which both models share.
abbrev pub is_steps : List AgentPlanItem → Bool
is_steps items = all is_item items && leb (length items) 100 && leb (active_steps items) 1

abbrev pub is_explanation : Option String → Bool
is_explanation none = true
is_explanation (some text) = is_bounded 2000 text

-- `AgentPlan(explanation=..., plan=...)`; `none` where it raises.
unfoldable pub new_plan : Option String → List AgentPlanItem → Option AgentPlan
new_plan explanation items =
    if is_explanation explanation && is_steps items
    then some (record { explanation = explanation; plan = items })
    else none

-- The `explanation` argument of a call: omitted, an explicit null, or a text.
pub data ExplanationArgument : Type 0 where
  omitted explicit_null : ExplanationArgument
  text : String → ExplanationArgument

-- `reject_explicit_null_explanation`, and the value of the field; `none` where it raises.
abbrev pub explanation_value : ExplanationArgument → Option (Option String)
explanation_value omitted = some none
explanation_value explicit_null = none
explanation_value (text t) = if is_bounded 2000 t then some (some t) else none

-- `_UpdatePlanInput.model_validate`
unfoldable pub validate_update :
    ExplanationArgument → List AgentPlanItem → Option (Option String × List AgentPlanItem)
validate_update argument items = elim (explanation_value argument) [
  | none ↦ none
  | some e ↦ if is_steps items then some (e, items) else none
]

-- `AgentPlanStore.__init__`, `read` and `replace`
abbrev pub empty_store : AgentPlan
empty_store = record { explanation = none; plan = [] }

abbrev pub read : AgentPlan → AgentPlan
read store = store

abbrev pub replace : AgentPlan → AgentPlan → AgentPlan × AgentPlan
replace value store = (value, value)

-- The `update` Tool: the new Plan and the store, the `ToolFailure`, or the `ValidationError` that the
-- second model would raise outside the `try`.
pub data UpdateOutcome : Type 0 where
  updated : AgentPlan → AgentPlan → UpdateOutcome
  invalid_agent_plan escaped : UpdateOutcome

abbrev pub stored : Option AgentPlan → AgentPlan → UpdateOutcome
stored none store = escaped
stored (some value) store = let (result, after) = replace value store in updated result after

unfoldable pub update : ExplanationArgument → List AgentPlanItem → AgentPlan → UpdateOutcome
unfolding validate_update new_plan
update argument items store = elim (validate_update argument items) [
  | none ↦ invalid_agent_plan
  | some (e, plan) ↦ stored (new_plan e plan) store
]

-- The store after a call; a call that fails has not written.
abbrev pub store_after : UpdateOutcome → AgentPlan → AgentPlan
store_after (updated result after) store = after
store_after invalid_agent_plan store = store
store_after escaped store = store

unfoldable pub update_each : List (ExplanationArgument × List AgentPlanItem) → AgentPlan → AgentPlan
unfolding update
update_each [] store = store
update_each ((argument, items) ∷ calls) store =
    update_each calls (store_after (update argument items store) store)
