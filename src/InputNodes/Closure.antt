-- ===== src/InputNodes/Closure.antt =====
-- Indices of inputs in which every input is below a parent in the index.
use Prim.Native.String.{◌++◌, count}
use text.Mathlib.TextLemmas.{length-append}
use restscope.Prelude.{
  ◌<◌, ◌≤◌, ◌≡◌, refl, ◌∙◌, subst, String, true, ◌||◌, Option, none, some, List, [], ◌∷◌, ◌==◌, All,
  arith, Bool-cases, inl, inr, contains, text_gt, eq_iff, eq_refl,
}
use restscope.Prelude.Dicts.{Dict, put, keys}
use restscope.InputNodes.Schemas.{SchemaIr, InputNodeKind, InputNodeIr, schema_kind}
use restscope.InputNodes.Building.{
  TextHost, Nodes, insert_item, sorted_items, run_items, input_node_id_of, new_node, enter,
  enter_schema,
}

pub contains-put :
    {A : Type 0} (k j : String) (v : A) (d : Dict A)
    → contains k (keys (put j v d)) ≡ (k == j || contains k (keys d))
contains-put k j v [] = refl
contains-put k j v ((i, w) ∷ d) = elim (Bool-cases (j == i)) [
  | inl same ↦ rw (same, (eq_iff j i).0 same) (ground arith)
  | inr other ↦ rw other (ground (arith, contains-put k j v d))
]

All-put :
    {A : Type 0} (P : (String × A) → Type 0) (j : String) (v : A) (d : Dict A)
    → P (j, v)
    → All P d
    → All P (put j v d)
All-put P j v [] p ps = (p, tt)
All-put P j v ((i, w) ∷ d) p (q, ps) = elim (Bool-cases (j == i)) [
  | inl same ↦ rw same (subst (λ k. P (k, v)) ((eq_iff j i).0 same) p, ps)
  | inr other ↦ rw other (q, All-put P j v d p ps)
]

pub All-map :
    {A : Type 0} (P Q : A → Type 0) (xs : List A) → ((x : A) → P x → Q x) → All P xs → All Q xs
All-map P Q [] imp ps = tt
All-map P Q (x ∷ xs) imp (p, ps) = (imp x p, All-map P Q xs imp ps)

-- `Within` are the inputs that the index may have.
module _ (texts : TextHost) (key : String) (Within : InputNodeKind → String → Type 0) where
  -- A parent in the index, of a shorter path.
  abbrev pub IsBelow : Nodes → Option String → String → Type 0
  IsBelow nodes none path = Unit
  IsBelow nodes (some p) path =
      (kind : InputNodeKind) × (above : String) × (p ≡ input_node_id_of texts key kind above)
      × (count above < count path)
      × (contains p (keys nodes) ≡ true)
      × Within kind above

  abbrev pub IsIndexed : Nodes → (String × InputNodeIr) → Type 0
  IsIndexed nodes (k, node) =
      (k ≡ node.input_node_id)
      × (k ≡ input_node_id_of texts key node.node_kind node.canonical_path)
      × IsBelow nodes node.parent_node_id node.canonical_path
      × Within node.node_kind node.canonical_path

  abbrev pub IsClosed : Nodes → Type 0
  IsClosed nodes = All (IsIndexed nodes) nodes

  -- An index that has grown and is still closed.
  abbrev pub Grows : Nodes → Nodes → Type 0
  Grows nodes later =
      IsClosed later
      × ((k : String) → contains k (keys nodes) ≡ true → contains k (keys later) ≡ true)

  pub Grows-trans : (a b c : Nodes) → Grows a b → Grows b c → Grows a c
  Grows-trans a b c (closed_b, ab) (closed_c, bc) = (closed_c, λ k has. bc k (ab k has))

  IsBelow-grows :
      (nodes later : Nodes) (parent : Option String) (path : String)
      → ((k : String) → contains k (keys nodes) ≡ true → contains k (keys later) ≡ true)
      → IsBelow nodes parent path
      → IsBelow later parent path
  IsBelow-grows nodes later none path grows is = tt
  IsBelow-grows nodes later (some p) path grows (kind, above, same, shorter, has, w) =
      (kind, above, same, shorter, grows p has, w)

  -- To enter a new input below a parent in the index.
  pub enter-Grows :
      (kind : InputNodeKind) (path : String) (parent : Option String) (s : Option SchemaIr)
      (nodes : Nodes)
      → Within kind path
      → IsClosed nodes
      → IsBelow nodes parent path
      → Grows nodes (enter texts key (new_node texts key kind path parent s) nodes)
        × (contains
              (input_node_id_of texts key kind path)
              (keys (enter texts key (new_node texts key kind path parent s) nodes))
            ≡ true)
  enter-Grows kind path parent s nodes within closed below =
      let id = input_node_id_of texts key kind path in
      let node = new_node texts key kind path parent s in
      let later = enter texts key node nodes in
      let grows : (k : String) → contains k (keys nodes) ≡ true → contains k (keys later) ≡ true =
        λ k has. contains-put k id node nodes ∙ ground arith in
      let still : All (IsIndexed later) nodes =
        All-map (IsIndexed nodes) (IsIndexed later) nodes
          (λ (k, n) (same, named, is, w).
            (same, named, IsBelow-grows nodes later n.parent_node_id n.canonical_path grows is, w))
          closed in
      let entered : IsIndexed later (id, node) =
        (refl, refl, IsBelow-grows nodes later parent path grows below, within) in
      (
        (All-put (IsIndexed later) id node nodes entered still, grows),
        contains-put id id node nodes ∙ rw (eq_refl id) refl,
      )

  -- A step for the children of an input that is in the index.
  abbrev pub Adds : String → (Nodes → Nodes) → Type 0
  Adds id step =
      (nodes : Nodes) → IsClosed nodes → contains id (keys nodes) ≡ true → Grows nodes (step nodes)

  pub run_items-Adds :
      (id : String) (steps : List (String × (Nodes → Nodes)))
      → All (λ item. Adds id item.1) steps
      → Adds id (run_items steps)
  run_items-Adds id [] adds nodes closed has = (closed, λ k e. e)
  run_items-Adds id ((name, step) ∷ steps) (first, adds) nodes closed has =
      let grown = first nodes closed has in
      Grows-trans nodes (step nodes) (run_items steps (step nodes)) grown
        (run_items-Adds id steps adds (step nodes) grown.0 (grown.1 id has))

  insert_item-All :
      {A : Type 0} (P : (String × A) → Type 0) (x : String × A) (d : List (String × A))
      → P x
      → All P d
      → All P (insert_item x d)
  insert_item-All P x [] p ps = (p, tt)
  insert_item-All P (k, v) ((j, w) ∷ d) p (q, ps) = elim (Bool-cases (text_gt k j)) [
    | inl e ↦ rw e (q, insert_item-All P (k, v) d p ps)
    | inr e ↦ rw e (p, (q, ps))
  ]

  pub sorted_items-All :
      {A : Type 0} (P : (String × A) → Type 0) (d : List (String × A))
      → All P d
      → All P (sorted_items d)
  unfolding sorted_items
  sorted_items-All P [] ps = tt
  sorted_items-All P (x ∷ d) (p, ps) =
      insert_item-All P x (sorted_items d) p (sorted_items-All P d ps)

  pub count-longer : (path more : String) → 1 ≤ count more → count path < count (path ++ more)
  count-longer path more some_more = omega (arith, length-append path more)

  -- An input of a schema below one in the index, and then its children.
  pub child-Adds :
      (kind : InputNodeKind) (path child_path : String) (s : SchemaIr) (children : Nodes → Nodes)
      → count path < count child_path
      → Within kind path
      → Within (schema_kind s) child_path
      → Adds (input_node_id_of texts key (schema_kind s) child_path) children
      → Adds (input_node_id_of texts key kind path) (λ nodes.
        children (enter_schema texts key s child_path (input_node_id_of texts key kind path) nodes))
  child-Adds kind path child_path s children longer within child_within adds nodes closed has =
      let entered =
        enter-Grows (schema_kind s) child_path (some (input_node_id_of texts key kind path))
          (some s) nodes child_within closed (kind, path, refl, longer, has, within) in
      Grows-trans nodes _ _ entered.0 (adds _ entered.0.0 entered.1)
