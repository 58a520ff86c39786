-- ===== src/AgentPlan/Tests.antt =====
-- The Plan Tools on small inputs.
use restscope.Prelude.{List, [], ◌∷◌, ◌≡◌, refl, none}
use restscope.AgentPlan.{
  AgentPlanItem, StepStatus, ExplanationArgument, empty_store, read, update, update_each,
}
use restscope.AgentPlan.Updating.{IsPlan, IsAnswered, update-IsAnswered, update_each-IsPlan}

abbrev one_active : List AgentPlanItem
one_active =
    record { step = "List the users"; status = StepStatus.in_progress }
    ∷ record { step = "Create a user"; status = StepStatus.pending }
    ∷ []

abbrev two_active : List AgentPlanItem
two_active = record { step = "Delete a user"; status = StepStatus.in_progress } ∷ one_active

update-IsAnswered_example :
    IsAnswered one_active
      (update (ExplanationArgument.text "Start with reads") one_active empty_store)
update-IsAnswered_example =
    update-IsAnswered (ExplanationArgument.text "Start with reads") one_active empty_store

-- The second call is refused.
abbrev calls : List (ExplanationArgument × List AgentPlanItem)
calls = (ExplanationArgument.omitted, one_active) ∷ (ExplanationArgument.omitted, two_active) ∷ []

keeps_first : update_each calls empty_store ≡ record { explanation = none; plan = one_active }
unfolding update_each
keeps_first = refl

update_each-IsPlan_example : IsPlan (read (update_each calls empty_store))
update_each-IsPlan_example = update_each-IsPlan calls
