-- ===== src/InputNodes/Growing.antt =====
-- The recursion of `_add_schema_children` over a schema.
use Prim.Native.String.{◌++◌, count}
use text.Mathlib.TextLemmas.{length-append}
use restscope.Prelude.{refl, ℕ, suc, ◌<◌, String, All, arith, Bool-cases, inl, inr, decimal}
use restscope.InputNodes.Segments.{segment, property_path}
use restscope.InputNodes.Schemas.{
  SchemaIr, schema, Properties, no_property, property, OptionalSchema, no_schema, one_schema,
  Schemas, no_branch, branch, InputNodeKind, schema_kind, is_read_only,
}
use restscope.InputNodes.Building.{
  TextHost, sorted_items, input_node_id_of, add_schema_children, property_steps, add_item,
  add_branches,
}
use restscope.InputNodes.Reach.{IsInside, IsProperty, IsItem, IsBranch}
use restscope.InputNodes.Closure.{
  Grows-trans, Adds, run_items-Adds, sorted_items-All, count-longer, child-Adds,
}

module _ (texts : TextHost) (key : String) (Within : InputNodeKind → String → Type 0) where
  count-property : (path name : String) → count path < count (property_path path name)
  count-property path name = omega (
    arith,
    length-append (path ++ "/properties/") (segment name),
    length-append path "/properties/",
  )

  count-branch :
      (path combiner_name : String) (index : ℕ)
      → count path < count (path ++ ("/" ++ (combiner_name ++ ("/" ++ decimal index))))
  count-branch path combiner_name index =
      let more = combiner_name ++ ("/" ++ decimal index) in
      count-longer texts key Within path ("/" ++ more) (omega (arith, length-append "/" more))

  mutual
    unfolding add_schema_children IsInside

    pub add_schema_children-Adds :
        (s : SchemaIr) (kind : InputNodeKind) (path : String)
        → Within kind path
        → ((k : InputNodeKind) (q : String) → IsInside s path k q → Within k q)
        → Adds texts key Within
            (input_node_id_of texts key kind path)
            (add_schema_children texts key s (input_node_id_of texts key kind path) path)
    add_schema_children-Adds
          (schema declared read_only nullable properties items all_of any_of one_of) kind path
          within inside nodes closed has =
        let id = input_node_id_of texts key kind path in
        let one =
          run_items-Adds texts key Within id
            (sorted_items (property_steps texts key properties id path))
            (sorted_items-All texts key Within (λ item. Adds texts key Within id item.1)
              (property_steps texts key properties id path)
              (property_steps-Adds properties kind path within (λ k q x. inside k q (inl x))))
            nodes closed has in
        let two =
          add_item-Adds items kind path within (λ k q x. inside k q (inr (inl x))) _ one.0
            (one.1 id has) in
        let up_to_two = Grows-trans texts key Within nodes _ _ one two in
        let three =
          add_branches-Adds all_of "allOf" 0 kind path within
            (λ k q x. inside k q (inr (inr (inl x)))) _ two.0 (up_to_two.1 id has) in
        let up_to_three = Grows-trans texts key Within nodes _ _ up_to_two three in
        let four =
          add_branches-Adds any_of "anyOf" 0 kind path within
            (λ k q x. inside k q (inr (inr (inr (inl x))))) _ three.0 (up_to_three.1 id has) in
        let up_to_four = Grows-trans texts key Within nodes _ _ up_to_three four in
        let five =
          add_branches-Adds one_of "oneOf" 0 kind path within
            (λ k q x. inside k q (inr (inr (inr (inr x))))) _ four.0 (up_to_four.1 id has) in
        Grows-trans texts key Within nodes _ _ up_to_four five

    property_steps-Adds :
        (ps : Properties) (kind : InputNodeKind) (path : String)
        → Within kind path
        → ((k : InputNodeKind) (q : String) → IsProperty ps path k q → Within k q)
        → All
            (λ item. Adds texts key Within (input_node_id_of texts key kind path) item.1)
            (property_steps texts key ps (input_node_id_of texts key kind path) path)
    property_steps-Adds no_property kind path within inside = tt
    property_steps-Adds (property name s rest) kind path within inside = (
      elim (Bool-cases (is_read_only s)) [
        | inl passed ↦ λ nodes closed has. rw passed (closed, λ k e. e)
        | inr entered ↦ λ nodes closed has. rw entered (
            child-Adds texts key Within kind path (property_path path name) s _
              (count-property path name) within (inside _ _ (inl (entered, inl (refl, refl))))
              (add_schema_children-Adds s (schema_kind s) (property_path path name)
                (inside _ _ (inl (entered, inl (refl, refl))))
                (λ k q x. inside k q (inl (entered, inr x))))
              nodes closed has)
      ],
      property_steps-Adds rest kind path within (λ k q x. inside k q (inr x)),
    )

    add_item-Adds :
        (item : OptionalSchema) (kind : InputNodeKind) (path : String)
        → Within kind path
        → ((k : InputNodeKind) (q : String) → IsItem item path k q → Within k q)
        → Adds texts key Within
            (input_node_id_of texts key kind path)
            (add_item texts key item (input_node_id_of texts key kind path) path)
    add_item-Adds no_schema kind path within inside = λ nodes closed has. (closed, λ k e. e)
    add_item-Adds (one_schema s) kind path within inside =
        child-Adds texts key Within kind path (path ++ "/items") s _
          (count-longer texts key Within path "/items" (omega arith)) within
          (inside _ _ (inl (refl, refl)))
          (add_schema_children-Adds s (schema_kind s) (path ++ "/items")
            (inside _ _ (inl (refl, refl))) (λ k q x. inside k q (inr x)))

    add_branches-Adds :
        (ss : Schemas) (combiner_name : String) (index : ℕ) (kind : InputNodeKind) (path : String)
        → Within kind path
        → ((k : InputNodeKind) (q : String) → IsBranch ss combiner_name index path k q → Within k q)
        → Adds texts key Within (input_node_id_of texts key kind path) (
            add_branches texts key ss combiner_name index
              (input_node_id_of texts key kind path)
              path)
    add_branches-Adds no_branch combiner_name index kind path within inside nodes closed has =
        (closed, λ k e. e)
    add_branches-Adds (branch s ss) combiner_name index kind path within inside nodes closed has =
        let branch_path = path ++ ("/" ++ (combiner_name ++ ("/" ++ decimal index))) in
        let first =
          child-Adds texts key Within kind path branch_path s _
            (count-branch path combiner_name index) within (inside _ _ (inl (inl (refl, refl))))
            (add_schema_children-Adds s (schema_kind s) branch_path
              (inside _ _ (inl (inl (refl, refl)))) (λ k q x. inside k q (inl (inr x))))
            nodes closed has in
        Grows-trans texts key Within nodes _ _ first (
          add_branches-Adds ss combiner_name (suc index) kind path within
            (λ k q x. inside k q (inr x)) _ first.0
            (first.1 (input_node_id_of texts key kind path) has))
