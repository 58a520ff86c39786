-- ===== src/AgentPlan/Updating.antt =====
-- What the Tools keep of a Plan.
use restscope.Prelude.{
  ◌≡◌, refl, true, ◌&&◌, String, Option, none, some, List, [], ◌∷◌, Bool-cases, inl, inr,
}
use restscope.AgentPlan.{
  AgentPlanItem, AgentPlan, is_explanation, is_steps, ExplanationArgument, omitted, explicit_null,
  text, is_bounded, empty_store, read, UpdateOutcome, updated, invalid_agent_plan, escaped, update,
  update_each, stored, store_after, new_plan, validate_update,
}

-- A Plan that its model accepts.
abbrev pub IsPlan : AgentPlan → Type 0
IsPlan p = (is_explanation p.explanation && is_steps p.plan) ≡ true

-- What a call promises: a new Plan that its model accepts and that is stored and returned alike, or a
-- failure that the Agent can correct.
abbrev pub IsAnswered : List AgentPlanItem → UpdateOutcome → Type 0
IsAnswered items (updated result after) =
    IsPlan after × (result ≡ after) × (after.plan ≡ items) × (is_steps items ≡ true)
IsAnswered items invalid_agent_plan = Unit
IsAnswered items escaped = ⊥

valid-IsAnswered :
    (e : Option String) (items : List AgentPlanItem) (store : AgentPlan)
    → is_explanation e ≡ true
    → is_steps items ≡ true
    → IsAnswered items (stored (new_plan e items) store)
unfolding new_plan
valid-IsAnswered e items store h k = rw (h, k) (rw (h, k) refl, refl, refl, k)

-- The second validation never fails: an update either stores and returns an acceptable Plan with the
-- given steps, or is refused as a whole with the expected failure.
pub update-IsAnswered :
    (argument : ExplanationArgument) (items : List AgentPlanItem) (store : AgentPlan)
    → IsAnswered items (update argument items store)
unfolding update validate_update
update-IsAnswered omitted items store = elim (Bool-cases (is_steps items)) [
  | inl e ↦ rw (e, update, validate_update) (valid-IsAnswered none items store refl e)
  | inr e ↦ rw (e, update, validate_update) tt
]
update-IsAnswered explicit_null items store = tt
update-IsAnswered (text t) items store = elim (Bool-cases (is_bounded 2000 t)) [
  | inl h ↦ elim (Bool-cases (is_steps items)) [
    | inl e ↦ rw (h, e, update, validate_update) (valid-IsAnswered (some t) items store h e)
    | inr e ↦ rw (h, e, update, validate_update) tt
  ]
  | inr h ↦ rw (h, update, validate_update) tt
]

after-IsPlan :
    (items : List AgentPlanItem) (o : UpdateOutcome) (store : AgentPlan)
    → IsAnswered items o
    → IsPlan store
    → IsPlan (store_after o store)
after-IsPlan items (updated result after) store (h, _, _, _) k = h
after-IsPlan items invalid_agent_plan store h k = k
after-IsPlan items escaped store h k = k

each-IsPlan :
    (calls : List (ExplanationArgument × List AgentPlanItem)) (store : AgentPlan)
    → IsPlan store
    → IsPlan (update_each calls store)
unfolding update_each
each-IsPlan [] store k = k
each-IsPlan ((argument, items) ∷ calls) store k =
    each-IsPlan calls (store_after (update argument items store) store) (
      after-IsPlan items (update argument items store) store
        (update-IsAnswered argument items store) k)

-- Whatever the Agent sends, from the empty Plan on, the Plan that it reads is one that its model
-- accepts: at most a hundred steps in bounds, at most one of them in progress.
pub update_each-IsPlan :
    (calls : List (ExplanationArgument × List AgentPlanItem))
    → IsPlan (read (update_each calls empty_store))
update_each-IsPlan calls = each-IsPlan calls empty_store refl
