-- ===== src/InputNodes/Building.antt =====
-- `build_operation_input_nodes`: the index of an operation's inputs, each below its parent. SHA-256, the
-- lower case and the case folding of texts are parameters.
use Prim.Native.String.{◌++◌}
use restscope.Prelude.{
  ℕ, suc, String, Option, none, some, List, [], ◌∷◌, ◌==◌, if◌then◌else◌, text_gt, decimal, strip,
  clip,
}
use restscope.Prelude.{◌++◌ as append}
use restscope.Prelude.Dicts.{Dict, put}
use restscope.InputNodes.Segments.{segment, up_to, property_path}
use restscope.InputNodes.Schemas.{
  SchemaIr, schema, Properties, no_property, property, OptionalSchema, no_schema, one_schema,
  Schemas, no_branch, branch, ParameterIr, OperationIr, InputNodeKind, parameter, request_body,
  media_type, kind_text, InputNodeIr, schema_kind, is_read_only,
}

-- `hashlib.sha256(….encode()).hexdigest()`, `str.lower` and `str.casefold`.
pub record TextHost : Type 0 where
  pub hexdigest : String → String
  pub lower : String → String
  pub casefold : String → String

abbrev pub Nodes : Type 0
Nodes = Dict InputNodeIr

-- `sorted(d.items())`, by the keys, which are distinct.
abbrev pub insert_item {ℓ} : {A : Type ℓ} → (String × A) → List (String × A) → List (String × A)
insert_item x [] = x ∷ []
insert_item (k, v) ((j, w) ∷ d) =
    let rest = insert_item (k, v) d in if text_gt k j then (j, w) ∷ rest else (k, v) ∷ ((j, w) ∷ d)

unfoldable pub sorted_items {ℓ} : {A : Type ℓ} → List (String × A) → List (String × A)
sorted_items [] = []
sorted_items (x ∷ d) = insert_item x (sorted_items d)

-- The loop over the sorted items, of which each changes the index.
abbrev pub run_items : List (String × (Nodes → Nodes)) → Nodes → Nodes
run_items [] nodes = nodes
run_items ((name, step) ∷ steps) nodes = run_items steps (step nodes)

-- `normalize_media_type`; `or ''` is no change, since what is blank becomes empty.
unfoldable pub normalize_media_type : TextHost → String → String
unfolding up_to strip
normalize_media_type texts value = texts.casefold (strip (up_to ";" value))

module _ (texts : TextHost) (operation_key : String) where
  -- The identity in `_node`.
  abbrev pub input_node_id_of : InputNodeKind → String → String
  input_node_id_of kind path =
      "input_"
      ++ clip 32 (texts.hexdigest (operation_key ++ ("\0" ++ (kind_text kind ++ ("\0" ++ path)))))

  -- `_node`
  abbrev pub new_node : InputNodeKind → String → Option String → Option SchemaIr → InputNodeIr
  new_node kind path parent_id node_schema = record {
    input_node_id = input_node_id_of kind path;
    node_kind = kind;
    canonical_path = path;
    parent_node_id = parent_id;
    schema = node_schema;
  }

  -- `nodes[node.input_node_id] = node`
  abbrev pub enter : InputNodeIr → Nodes → Nodes
  enter node nodes = put node.input_node_id node nodes

  -- `_schema_node`, entered below its parent.
  abbrev pub enter_schema : SchemaIr → String → String → Nodes → Nodes
  enter_schema s path parent_id nodes =
      enter (new_node (schema_kind s) path (some parent_id) (some s)) nodes

  -- `_add_schema_children` for the input of a schema, given by its identity and its path; and the
  -- loops over the properties, the item and the branches of a combiner.
  unfoldable mutual
    unfolding schema_kind segment sorted_items

    pub add_schema_children : SchemaIr → String → String → Nodes → Nodes
    add_schema_children (schema declared read_only nullable properties items all_of any_of one_of)
          parent_id path nodes =
        let with_properties =
          run_items (sorted_items (property_steps properties parent_id path)) nodes in
        let with_item = add_item items parent_id path with_properties in
        let with_all = add_branches all_of "allOf" 0 parent_id path with_item in
        let with_any = add_branches any_of "anyOf" 0 parent_id path with_all in
        add_branches one_of "oneOf" 0 parent_id path with_any

    pub property_steps : Properties → String → String → List (String × (Nodes → Nodes))
    property_steps no_property parent_id path = []
    property_steps (property name s rest) parent_id path =
        let child_path = property_path path name in
        let child_id = input_node_id_of (schema_kind s) child_path in
        (
          name,
          λ nodes.
              let entered = enter_schema s child_path parent_id nodes in
              let added = add_schema_children s child_id child_path entered in
              if is_read_only s then nodes else added,
        )
        ∷ property_steps rest parent_id path

    pub add_item : OptionalSchema → String → String → Nodes → Nodes
    add_item no_schema parent_id path nodes = nodes
    add_item (one_schema s) parent_id path nodes =
        let item_path = path ++ "/items" in
        add_schema_children s (input_node_id_of (schema_kind s) item_path) item_path
          (enter_schema s item_path parent_id nodes)

    pub add_branches : Schemas → String → ℕ → String → String → Nodes → Nodes
    add_branches no_branch combiner_name index parent_id path nodes = nodes
    add_branches (branch s ss) combiner_name index parent_id path nodes =
        let branch_path = path ++ ("/" ++ (combiner_name ++ ("/" ++ decimal index))) in
        add_branches ss combiner_name (suc index) parent_id path (
          add_schema_children s (input_node_id_of (schema_kind s) branch_path) branch_path
            (enter_schema s branch_path parent_id nodes))

  -- The children of an input that may have no schema.
  abbrev pub add_children : Option SchemaIr → String → String → Nodes → Nodes
  add_children none parent_id path nodes = nodes
  add_children (some s) parent_id path nodes = add_schema_children s parent_id path nodes

  -- An input with its children.
  abbrev pub add_input : InputNodeKind → String → Option String → Option SchemaIr → Nodes → Nodes
  add_input kind path parent_id node_schema nodes =
      add_children node_schema (input_node_id_of kind path) path
        (enter (new_node kind path parent_id node_schema) nodes)

  -- `_parameter_path`
  unfoldable pub parameter_path : ParameterIr → String
  unfolding segment
  parameter_path p =
      let name = if p.location == "header" then texts.lower p.name else p.name in
      segment p.location ++ ("/" ++ segment name)

  abbrev pub add_parameters : List ParameterIr → Nodes → Nodes
  add_parameters [] nodes = nodes
  add_parameters (p ∷ ps) nodes =
      add_parameters ps (add_input parameter (parameter_path p) none p.schema nodes)

  -- The loop over the media types of a request body.
  abbrev pub media_steps : Dict (Option SchemaIr) → List (String × (Nodes → Nodes))
  media_steps [] = []
  media_steps ((name, media_schema) ∷ contents) =
      let media_path = "body/" ++ segment (normalize_media_type texts name) in
      (
        name,
        λ nodes.
            add_input media_type media_path (some (input_node_id_of request_body "body"))
              media_schema nodes,
      )
      ∷ media_steps contents

  abbrev pub add_body : Option (Dict (Option SchemaIr)) → Nodes → Nodes
  add_body none nodes = nodes
  add_body (some contents) nodes =
      run_items (sorted_items (media_steps contents))
        (enter (new_node request_body "body" none none) nodes)

unfoldable pub build_operation_input_nodes : TextHost → OperationIr → Nodes
unfolding add_schema_children parameter_path normalize_media_type
build_operation_input_nodes texts operation =
    let parameters = append operation.path_parameters (
      append operation.query_parameters
        (append operation.header_parameters operation.cookie_parameters)) in
    add_body texts operation.operation_key operation.request_body
      (add_parameters texts operation.operation_key parameters [])
