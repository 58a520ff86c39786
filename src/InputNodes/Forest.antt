-- ===== src/InputNodes/Forest.antt =====
-- The inputs of an operation as the solver reads them.
use Prim.Native.String.{◌++◌, count}
use text.Mathlib.TextLemmas.{length-append}
use restscope.Prelude.{
  ◌⊎◌, Bool, false, not, ◌||◌, ℕ, ◌<◌, ◌≡◌, refl, ap, sym, ◌∙◌, subst, String, true, Option, none,
  some, List, [], ◌∷◌, ◌==◌, All, arith, Bool-cases, Option-cases, inl, inr, contains, eq_iff,
}
use restscope.Prelude.{◌++◌ as append}
use restscope.Prelude.Dicts.{Dict, keys}
use restscope.Inputs.{SchemaSnapshot, InputNodeSnapshot, node_of}
use restscope.Inputs.Forest.{IsForest}
use restscope.InputNodes.Segments.{segment}
use restscope.InputNodes.Schemas.{
  SchemaIr, schema, Properties, no_property, property, has_branch, has_schema, is_read_only,
  kind_text, ParameterIr, OperationIr, InputNodeKind, parameter, request_body, media_type,
  InputNodeIr,
}
use restscope.InputNodes.Building.{
  TextHost, Nodes, sorted_items, input_node_id_of, add_input, parameter_path, add_parameters,
  media_steps, add_body, build_operation_input_nodes, normalize_media_type,
}
use restscope.InputNodes.Reach.{
  IsBelowOption, IsOfParameters, IsOfMedia, IsOfBody, IsInput, IsCollisionFree,
}
use restscope.InputNodes.Closure.{
  IsBelow, IsIndexed, IsClosed, Grows, Grows-trans, enter-Grows, Adds, run_items-Adds,
  sorted_items-All,
}
use restscope.InputNodes.Growing.{add_schema_children-Adds}

abbrev has_writable : Properties → Bool
has_writable no_property = false
has_writable (property name s rest) = not (is_read_only s) || has_writable rest

-- `_schema_snapshot`, which leaves read-only properties out.
unfoldable pub schema_snapshot : Option SchemaIr → Option SchemaSnapshot
schema_snapshot none = none
schema_snapshot (some (schema declared read_only nullable properties items all_of any_of one_of)) =
    some (record {
      declared = declared;
      nullable = nullable;
      has_properties = has_writable properties;
      has_items = has_schema items;
      has_branches = has_branch all_of || has_branch any_of || has_branch one_of;
    })

-- The snapshots of the inputs in the index, in its order.
abbrev pub snapshot_of : InputNodeIr → InputNodeSnapshot
snapshot_of node = record {
  input_node_id = node.input_node_id;
  node_kind = kind_text node.node_kind;
  canonical_path = node.canonical_path;
  parent_node_id = node.parent_node_id;
  schema_contract = schema_snapshot node.schema;
}

abbrev pub node_snapshots : Nodes → List InputNodeSnapshot
node_snapshots [] = []
node_snapshots ((k, node) ∷ nodes) = snapshot_of node ∷ node_snapshots nodes

module _ (texts : TextHost) (key : String) (Within : InputNodeKind → String → Type 0) where
  add_input-Grows :
      (kind : InputNodeKind) (path : String) (parent : Option String) (s : Option SchemaIr)
      (nodes : Nodes)
      → Within kind path
      → ((k : InputNodeKind) (q : String) → IsBelowOption s path k q → Within k q)
      → IsClosed texts key Within nodes
      → IsBelow texts key Within nodes parent path
      → Grows texts key Within nodes (add_input texts key kind path parent s nodes)
  add_input-Grows kind path parent none nodes within inside closed below =
      (enter-Grows texts key Within kind path parent none nodes within closed below).0
  add_input-Grows kind path parent (some s) nodes within inside closed below =
      let entered =
        enter-Grows texts key Within kind path parent (some s) nodes within closed below in
      Grows-trans texts key Within nodes _ _ entered.0 (
        add_schema_children-Adds texts key Within s kind path within inside _ entered.0.0 entered.1)

  add_parameters-Closed :
      (ps : List ParameterIr) (nodes : Nodes)
      → ((k : InputNodeKind) (q : String) → IsOfParameters texts key ps k q → Within k q)
      → IsClosed texts key Within nodes
      → IsClosed texts key Within (add_parameters texts key ps nodes)
  add_parameters-Closed [] nodes within closed = closed
  add_parameters-Closed (p ∷ ps) nodes within closed =
      add_parameters-Closed ps
        (add_input texts key parameter (parameter_path texts key p) none p.schema nodes)
        (λ k q x. within k q (inr x))
        (add_input-Grows parameter (parameter_path texts key p) none p.schema nodes
          (within _ _ (inl (inl (refl, refl)))) (λ k q x. within k q (inl (inr x))) closed tt).0

  count-media : (name : String) → count "body" < count ("body/" ++ segment name)
  count-media name = omega (arith, length-append "body/" (segment name))

  media_steps-Adds :
      (contents : Dict (Option SchemaIr))
      → Within request_body "body"
      → ((k : InputNodeKind) (q : String) → IsOfMedia texts key contents k q → Within k q)
      → All
          (λ item. Adds texts key Within (input_node_id_of texts key request_body "body") item.1)
          (media_steps texts key contents)
  media_steps-Adds [] body within = tt
  media_steps-Adds ((name, s) ∷ contents) body within =
      let normalized = normalize_media_type texts name in
      (
        (λ nodes closed has.
            add_input-Grows media_type ("body/" ++ segment normalized)
              (some (input_node_id_of texts key request_body "body")) s nodes
              (within _ _ (inl (inl (refl, refl)))) (λ k q x. within k q (inl (inr x))) closed
              (request_body, "body", refl, count-media normalized, has, body)),
        media_steps-Adds contents body (λ k q x. within k q (inr x)),
      )

  add_body-Closed :
      (body : Option (Dict (Option SchemaIr))) (nodes : Nodes)
      → ((k : InputNodeKind) (q : String) → IsOfBody texts key body k q → Within k q)
      → IsClosed texts key Within nodes
      → IsClosed texts key Within (add_body texts key body nodes)
  add_body-Closed none nodes within closed = closed
  add_body-Closed (some contents) nodes within closed =
      let id = input_node_id_of texts key request_body "body" in
      let entered =
        enter-Grows texts key Within request_body "body" none none nodes
          (within _ _ (inl (refl, refl))) closed tt in
      (run_items-Adds texts key Within id (sorted_items (media_steps texts key contents))
        (sorted_items-All texts key Within (λ item. Adds texts key Within id item.1)
          (media_steps texts key contents)
          (media_steps-Adds contents (within _ _ (inl (refl, refl))) (λ k q x. within k q (inr x))))
        _ entered.0.0 entered.1).0

  node_of-IsIndexed :
      (P : (String × InputNodeIr) → Type 0) (id : String) (found : InputNodeSnapshot)
      (nodes : Nodes)
      → All P nodes
      → node_of (node_snapshots nodes) id ≡ some found
      → (k : String) × (node : InputNodeIr) × P (k, node)
        × (found.parent_node_id ≡ node.parent_node_id)
        × (found.canonical_path ≡ node.canonical_path)
        × (node.input_node_id ≡ id)
  unfolding node_of
  node_of-IsIndexed P id found [] ps is = absurd (ground arith)
  node_of-IsIndexed P id found ((k, node) ∷ nodes) (p, ps) is =
      elim (Option-cases (node_of (node_snapshots nodes) id)) [
        | inr (later, e) ↦ node_of-IsIndexed P id found nodes ps (ground arith)
        | inl missing ↦ (
          k,
          node,
          p,
          ground arith,
          ground arith,
          sym ((eq_iff id node.input_node_id).0 (ground arith)),
        )
      ]

  contains-node_of :
      (p : String) (all_nodes nodes : Nodes)
      → All (IsIndexed texts key Within all_nodes) nodes
      → contains p (keys nodes) ≡ true
      → (parent : InputNodeSnapshot) × (node_of (node_snapshots nodes) p ≡ some parent)
  unfolding node_of
  contains-node_of p all_nodes [] ps has = absurd (ground arith)
  contains-node_of p all_nodes ((k, node) ∷ nodes) ((same, named, is, w), ps) has =
      elim (Option-cases (node_of (node_snapshots nodes) p)) [
        | inr (later, e) ↦ (later, rw e refl)
        | inl missing ↦ elim (Bool-cases (p == k)) [
          | inl e ↦
              let named_so : (p == node.input_node_id) ≡ true = ap (λ x. p == x) (sym same) ∙ e in
              (snapshot_of node, rw (missing, named_so) refl)
          | inr other ↦
              let later = contains-node_of p all_nodes nodes ps (ground arith) in
              absurd (ground (arith, later.1))
        ]
      ]

  -- Inputs of different paths have different identities.
  abbrev AreApart : Type 0
  AreApart =
      (kind other : InputNodeKind) (path other_path : String)
      → Within kind path
      → Within other other_path
      → input_node_id_of texts key kind path ≡ input_node_id_of texts key other other_path
      → path ≡ other_path

  path_length : Nodes → String → ℕ
  path_length nodes id = elim (node_of (node_snapshots nodes) id) [
    | none ↦ 0
    | some node ↦ count node.canonical_path
  ]

  path_length-found :
      (nodes : Nodes) (id : String) (node : InputNodeSnapshot)
      → node_of (node_snapshots nodes) id ≡ some node
      → path_length nodes id ≡ count node.canonical_path
  unfolding path_length
  path_length-found nodes id node found = rw (found, path_length) refl

  IsClosed-IsForest :
      (nodes : Nodes) → AreApart → IsClosed texts key Within nodes → IsForest (node_snapshots nodes)
  IsClosed-IsForest nodes free closed = record {
    depth = path_length nodes;
    parent_found = λ id p node found below.
        let (k, n, (same, named, is, inside), parent_same, path_same, id_same) =
          node_of-IsIndexed (IsIndexed texts key Within nodes) id node nodes closed found in
        let (kind, above, p_named, shorter, has, above_within) : IsBelow texts key Within nodes
            (some p) n.canonical_path =
          subst (λ o. IsBelow texts key Within nodes o n.canonical_path) (sym parent_same ∙ below)
            is in
        let (parent, parent_is) = contains-node_of p nodes nodes closed has in
        let (j, m, (same_m, named_m, is_m, m_within), parent_m, path_m, id_m) =
          node_of-IsIndexed (IsIndexed texts key Within nodes) p parent nodes closed parent_is in
        let same_path : above ≡ m.canonical_path =
          free kind m.node_kind above m.canonical_path above_within m_within
            (sym p_named ∙ sym id_m ∙ sym same_m ∙ named_m) in
        (
          (parent, parent_is),
          rw
              (
                path_length-found nodes id node found,
                path_length-found nodes p parent parent_is,
                path_same,
                path_m,
                sym same_path,
              )
              shorter,
        );
  }

IsOfParameters-append :
    (texts : TextHost) (key : String) (ps rs : List ParameterIr) (k : InputNodeKind) (q : String)
    → IsOfParameters texts key (append ps rs) k q
    → IsOfParameters texts key ps k q ⊎ IsOfParameters texts key rs k q
IsOfParameters-append texts key [] rs k q x = inr x
IsOfParameters-append texts key (p ∷ ps) rs k q (inl x) = inl (inl x)
IsOfParameters-append texts key (p ∷ ps) rs k q (inr x) =
    elim (IsOfParameters-append texts key ps rs k q x) [ inl y ↦ inl (inr y) | inr y ↦ inr y ]

-- The parameters of all locations, in the order of the source.
parameters-IsInput :
    (texts : TextHost) (operation : OperationIr) (k : InputNodeKind) (q : String)
    → IsOfParameters texts operation.operation_key
        (append operation.path_parameters (
          append operation.query_parameters
            (append operation.header_parameters operation.cookie_parameters)))
        k
        q
    → IsInput texts operation k q
parameters-IsInput texts operation k q x =
    let split = IsOfParameters-append texts operation.operation_key in
    elim (split operation.path_parameters _ k q x) [
      | inl y ↦ IsInput.of_path y
      | inr y ↦ elim (split operation.query_parameters _ k q y) [
        | inl z ↦ IsInput.of_query z
        | inr z ↦ elim (split operation.header_parameters _ k q z) [
          | inl w ↦ IsInput.of_header w
          | inr w ↦ IsInput.of_cookie w
        ]
      ]
    ]

-- If the identities of the inputs that an operation has differ where their paths do, the inputs of its
-- index form a forest: the parent of every input is in the index, and the parents come to an end.
pub build_operation_input_nodes-IsForest :
    (texts : TextHost) (operation : OperationIr)
    → IsCollisionFree texts operation
    → IsForest (node_snapshots (build_operation_input_nodes texts operation))
unfolding build_operation_input_nodes
build_operation_input_nodes-IsForest texts operation free =
    let key = operation.operation_key in
    let Within = IsInput texts operation in
    IsClosed-IsForest texts key Within _ free (
      add_body-Closed texts key Within operation.request_body _ (λ k q x. IsInput.of_body x)
        (add_parameters-Closed texts key Within _ []
          (λ k q x. parameters-IsInput texts operation k q x) tt))
