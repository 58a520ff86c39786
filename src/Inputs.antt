-- ===== src/Inputs.antt =====
-- The inputs of an operation as request generation keeps them: restscope/request_generation/models.py.
pub mod Forest
use restscope.Prelude.{String, Bool, Option, none, some, List, [], ◌∷◌, ◌==◌, if◌then◌else◌}

-- The fields of `SchemaSnapshot` that are read here; of the schemas inside, whether there are any. The
-- declared type is the list of its names.
pub record SchemaSnapshot : Type 0 where
  pub declared : List String
  pub nullable : Bool
  pub has_properties : Bool
  pub has_items : Bool
  pub has_branches : Bool

pub record InputNodeSnapshot : Type 0 where
  pub input_node_id : String
  pub node_kind : String
  pub canonical_path : String
  pub parent_node_id : Option String
  pub schema_contract : Option SchemaSnapshot

-- `nodes.get(id)` of `{node.input_node_id: node for node in input_nodes}`: the last node counts.
unfoldable pub node_of : List InputNodeSnapshot → String → Option InputNodeSnapshot
node_of [] id = none
node_of (n ∷ ns) id =
    let later = node_of ns id in
    elim later [ some found ↦ some found | none ↦ if id == n.input_node_id then some n else none ]
