-- ===== src/InputNodes/Schemas.antt =====
-- The parts of the parsed operation that its input nodes come from (restscope/openapi_parser/ir.py). A
-- schema's declared type is the list of its names.
use restscope.Prelude.{if◌then◌else◌, String, Bool, true, false, ◌||◌, Option, List, contains}
use restscope.Prelude.Dicts.{Dict}

-- `items` is at most one schema. The three combiners are lists.
mutual
  pub data SchemaIr : Type 0 where
    schema :
        (declared : List String)
        → (read_only nullable : Bool) → (properties : Properties) → (items : OptionalSchema)
        → (all_of any_of one_of : Schemas) → SchemaIr

  pub data Properties : Type 0 where
    no_property : Properties
    property : String → SchemaIr → Properties → Properties

  pub data OptionalSchema : Type 0 where
    no_schema : OptionalSchema
    one_schema : SchemaIr → OptionalSchema

  pub data Schemas : Type 0 where
    no_branch : Schemas
    branch : SchemaIr → Schemas → Schemas

pub record ParameterIr : Type 0 where
  pub name : String
  pub location : String
  pub schema : Option SchemaIr

-- A request body is the dict of its contents, by media type.
pub record OperationIr : Type 0 where
  pub operation_key : String
  pub path_parameters : List ParameterIr
  pub query_parameters : List ParameterIr
  pub header_parameters : List ParameterIr
  pub cookie_parameters : List ParameterIr
  pub request_body : Option (Dict (Option SchemaIr))

pub data InputNodeKind : Type 0 where
  parameter request_body media_type object array scalar variant : InputNodeKind

abbrev pub kind_text : InputNodeKind → String
kind_text parameter = "parameter"
kind_text request_body = "request_body"
kind_text media_type = "media_type"
kind_text object = "object"
kind_text array = "array"
kind_text scalar = "scalar"
kind_text variant = "variant"

pub record InputNodeIr : Type 0 where
  pub input_node_id : String
  pub node_kind : InputNodeKind
  pub canonical_path : String
  pub parent_node_id : Option String
  pub schema : Option SchemaIr

abbrev pub has_branch : Schemas → Bool
has_branch no_branch = false
has_branch (branch s ss) = true

abbrev has_property : Properties → Bool
has_property no_property = false
has_property (property name s rest) = true

abbrev pub has_schema : OptionalSchema → Bool
has_schema no_schema = false
has_schema (one_schema s) = true

-- `_schema_kind`
unfoldable pub schema_kind : SchemaIr → InputNodeKind
schema_kind (schema declared read_only nullable properties items all_of any_of one_of) =
    if has_branch all_of || has_branch any_of || has_branch one_of
    then variant
    else if contains "object" declared || has_property properties
    then object
    else if contains "array" declared || has_schema items
    then array
    else scalar

abbrev pub is_read_only : SchemaIr → Bool
is_read_only (schema declared read_only nullable properties items all_of any_of one_of) = read_only
