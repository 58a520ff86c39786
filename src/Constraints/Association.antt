-- ===== src/Constraints/Association.antt =====
-- `associated_constraint_ids`: the constraints that are linked to one input. Python's sets are lists
-- here, read by membership alone.
pub mod Closure
pub mod Exactness
use restscope.Prelude.{
  ℕ, suc, zero, String, Bool, true, false, not, ◌&&◌, ◌||◌, Option, none, some, List, [], ◌∷◌, ◌++◌,
  map, any, keep, length, contains, if◌then◌else◌,
}

-- The fields of `OperationConstraintRecord` that the traversal reads.
pub record OperationConstraintRecord : Type 0 where
  pub id : String
  pub owner_input_node_ids : List String

-- `connected_inputs` and `connected_constraints`
pub record Component : Type 0 where
  pub connected_inputs : List String
  pub connected_constraints : List String

-- `owners & connected_inputs`
abbrev pub meets : List String → List String → Bool
meets owners inputs = any (λ x. contains x inputs) owners

-- Whether a constraint joins the component, and the component with it.
abbrev pub joins : OperationConstraintRecord → Component → Bool
joins c s =
    not (contains c.id s.connected_constraints) && meets c.owner_input_node_ids s.connected_inputs

abbrev pub join : OperationConstraintRecord → Component → Component
join c s = record {
  connected_inputs = c.owner_input_node_ids ++ s.connected_inputs;
  connected_constraints = c.id ∷ s.connected_constraints;
}

abbrev pub join_if : Bool → OperationConstraintRecord → Component → Component
join_if true c s = join c s
join_if false c s = s

-- One round of the `for` loop, with `changed`.
unfoldable pub visit : List OperationConstraintRecord → Bool → Component → Bool × Component
visit [] changed s = (changed, s)
visit (c ∷ cs) changed s = visit cs (changed || joins c s) (join_if (joins c s) c s)

abbrev pub again : Bool × Component → (Component → Option Component) → Option Component
again (true, s) rest = rest s
again (false, s) rest = some s

-- The `while` loop on fuel; `none` where the fuel ends first.
unfoldable pub traverse : ℕ → List OperationConstraintRecord → Component → Option Component
unfolding visit
traverse zero cs s = none
traverse (suc fuel) cs s = again (visit cs false s) (traverse fuel cs)

abbrev pub from_input : String → Component
from_input input_node_id = record {
  connected_inputs = input_node_id ∷ [];
  connected_constraints = [];
}

abbrev pub component_ids : List OperationConstraintRecord → Option Component → List String
component_ids cs none = []
component_ids cs (some s) = map (λ c. c.id) (keep (λ c. contains c.id s.connected_constraints) cs)

-- `associated_constraint_ids`, with fuel for one round per constraint and a last one.
unfoldable pub associated_constraint_ids : List OperationConstraintRecord → String → List String
unfolding traverse
associated_constraint_ids cs input_node_id =
    component_ids cs (traverse (suc (length cs)) cs (from_input input_node_id))
