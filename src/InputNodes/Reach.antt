-- ===== src/InputNodes/Reach.antt =====
-- The inputs that an operation has, by kind and path: its parameters, its body with the media types, and
-- below each the properties that are not read-only, the item and the branches of its schema.
use Prim.Native.String.{◌++◌}
use restscope.Prelude.{ℕ, suc, ◌≡◌, ◌⊎◌, String, false, Option, none, some, List, [], ◌∷◌, decimal}
use restscope.Prelude.Dicts.{Dict}
use restscope.InputNodes.Segments.{segment, property_path}
use restscope.InputNodes.Schemas.{
  SchemaIr, schema, Properties, no_property, property, OptionalSchema, no_schema, one_schema,
  Schemas, no_branch, branch, ParameterIr, OperationIr, InputNodeKind, parameter, request_body,
  media_type, schema_kind, is_read_only,
}
use restscope.InputNodes.Building.{TextHost, parameter_path, normalize_media_type, input_node_id_of}

unfoldable mutual
  -- Below the input of a schema.
  pub IsInside : SchemaIr → String → InputNodeKind → String → Type 0
  IsInside (schema declared read_only nullable properties items all_of any_of one_of) path k q =
      IsProperty properties path k q
      ⊎ (IsItem items path k q
          ⊎ (IsBranch all_of "allOf" 0 path k q
              ⊎ (IsBranch any_of "anyOf" 0 path k q ⊎ IsBranch one_of "oneOf" 0 path k q)))

  pub IsProperty : Properties → String → InputNodeKind → String → Type 0
  IsProperty no_property path k q = ⊥
  IsProperty (property name s rest) path k q =
      ((is_read_only s ≡ false)
        × (((k ≡ schema_kind s) × (q ≡ property_path path name))
            ⊎ IsInside s (property_path path name) k q))
      ⊎ IsProperty rest path k q

  pub IsItem : OptionalSchema → String → InputNodeKind → String → Type 0
  IsItem no_schema path k q = ⊥
  IsItem (one_schema s) path k q =
      ((k ≡ schema_kind s) × (q ≡ path ++ "/items")) ⊎ IsInside s (path ++ "/items") k q

  pub IsBranch : Schemas → String → ℕ → String → InputNodeKind → String → Type 0
  IsBranch no_branch combiner_name index path k q = ⊥
  IsBranch (branch s ss) combiner_name index path k q =
      (((k ≡ schema_kind s) × (q ≡ path ++ ("/" ++ (combiner_name ++ ("/" ++ decimal index)))))
        ⊎ IsInside s (path ++ ("/" ++ (combiner_name ++ ("/" ++ decimal index)))) k q)
      ⊎ IsBranch ss combiner_name (suc index) path k q

-- Below an input that may have no schema.
abbrev pub IsBelowOption : Option SchemaIr → String → InputNodeKind → String → Type 0
IsBelowOption none path k q = ⊥
IsBelowOption (some s) path k q = IsInside s path k q

module _ (texts : TextHost) (key : String) where
  abbrev pub IsOfParameters : List ParameterIr → InputNodeKind → String → Type 0
  IsOfParameters [] k q = ⊥
  IsOfParameters (p ∷ ps) k q =
      (((k ≡ parameter) × (q ≡ parameter_path texts key p))
        ⊎ IsBelowOption p.schema (parameter_path texts key p) k q)
      ⊎ IsOfParameters ps k q

  abbrev pub IsOfMedia : Dict (Option SchemaIr) → InputNodeKind → String → Type 0
  IsOfMedia [] k q = ⊥
  IsOfMedia ((name, s) ∷ contents) k q =
      (((k ≡ media_type) × (q ≡ "body/" ++ segment (normalize_media_type texts name)))
        ⊎ IsBelowOption s ("body/" ++ segment (normalize_media_type texts name)) k q)
      ⊎ IsOfMedia contents k q

  abbrev pub IsOfBody : Option (Dict (Option SchemaIr)) → InputNodeKind → String → Type 0
  IsOfBody none k q = ⊥
  IsOfBody (some contents) k q = ((k ≡ request_body) × (q ≡ "body")) ⊎ IsOfMedia contents k q

pub data IsInput (texts : TextHost) (operation : OperationIr) (k : InputNodeKind) (q : String)
    : Type 0 where
  of_path :
      IsOfParameters texts operation.operation_key operation.path_parameters k q
      → IsInput texts operation k q
  of_query :
      IsOfParameters texts operation.operation_key operation.query_parameters k q
      → IsInput texts operation k q
  of_header :
      IsOfParameters texts operation.operation_key operation.header_parameters k q
      → IsInput texts operation k q
  of_cookie :
      IsOfParameters texts operation.operation_key operation.cookie_parameters k q
      → IsInput texts operation k q
  of_body :
      IsOfBody texts operation.operation_key operation.request_body k q
      → IsInput texts operation k q

-- The inputs of the operation whose identities are the same have the same path.
abbrev pub IsCollisionFree : TextHost → OperationIr → Type 0
IsCollisionFree texts operation =
    (kind other : InputNodeKind) (path other_path : String)
    → IsInput texts operation kind path
    → IsInput texts operation other other_path
    → input_node_id_of texts operation.operation_key kind path
      ≡ input_node_id_of texts operation.operation_key other other_path
    → path ≡ other_path
