-- ===== src/Inputs/Forest.antt =====
-- The inputs of an operation as a forest, and its depth.
use restscope.Prelude.{
  ltb, ℕ, suc, ◌≤◌, ◌<◌, ◌≡◌, ap, sym, String, some, List, [], ◌∷◌, if◌then◌else◌, length, arith,
  Option-cases, inl, inr, eq_iff,
}
use restscope.Inputs.{InputNodeSnapshot, node_of}

-- Every parent is an input of the operation, and of less depth than its children.
pub record IsForest (nodes : List InputNodeSnapshot) : Type 0 where
  pub depth : String → ℕ
  pub parent_found :
      (id p : String) (node : InputNodeSnapshot)
      → node_of nodes id ≡ some node
      → node.parent_node_id ≡ some p
      → ((parent : InputNodeSnapshot) × (node_of nodes p ≡ some parent)) × (depth p < depth id)

-- A forest whose depth is at most the number of its inputs.
pub record IsShallow (nodes : List InputNodeSnapshot) : Type 0 where
  pub forest : IsForest nodes
  pub shallow : (id : String) → forest.depth id ≤ length nodes

module _ (depth : String → ℕ) where
  -- How many inputs have less depth.
  abbrev below : ℕ → List InputNodeSnapshot → ℕ
  below d [] = 0
  below d (n ∷ ns) =
      let rest = below d ns in if ltb (depth n.input_node_id) d then suc rest else rest

  below-length : (d : ℕ) (ns : List InputNodeSnapshot) → below d ns ≤ length ns
  below-length d [] = omega arith
  below-length d (n ∷ ns) = ground (arith, below-length d ns)

  below-monotone : (d e : ℕ) (ns : List InputNodeSnapshot) → d ≤ e → below d ns ≤ below e ns
  below-monotone d e [] le = omega arith
  below-monotone d e (n ∷ ns) le = ground (arith, below-monotone d e ns le)

  below-node :
      (d : ℕ) (id : String) (node : InputNodeSnapshot) (ns : List InputNodeSnapshot)
      → node_of ns id ≡ some node
      → depth id < d
      → below (depth id) ns < below d ns
  unfolding node_of
  below-node d id node [] found lt = absurd (ground arith)
  below-node d id node (n ∷ ns) found lt = elim (Option-cases (node_of ns id)) [
    | inr (later, e) ↦ ground (arith, below-node d id later ns e lt)
    | inl missing ↦
        let same : id ≡ n.input_node_id = (eq_iff id n.input_node_id).0 (ground arith) in
        let as_deep : depth n.input_node_id ≡ depth id = ap depth (sym same) in
        ground (arith, below-monotone (depth id) d ns (omega arith))
  ]

pub IsForest-IsShallow : (nodes : List InputNodeSnapshot) → IsForest nodes → IsShallow nodes
IsForest-IsShallow nodes forest = record {
  forest = record {
    depth = λ id. below forest.depth (forest.depth id) nodes;
    parent_found = λ id p node found parent.
        let up : ((above : InputNodeSnapshot) × (node_of nodes p ≡ some above))
            × (forest.depth p < forest.depth id) =
          forest.parent_found id p node found parent in
        (up.0, below-node forest.depth (forest.depth id) p up.0.0 nodes up.0.1 up.1);
  };
  shallow = λ id. below-length forest.depth (forest.depth id) nodes;
}
