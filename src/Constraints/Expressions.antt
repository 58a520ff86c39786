-- ===== src/Constraints/Expressions.antt =====
-- The expression trees, and the inputs that they name.
use restscope.Prelude.{ℕ, suc, String, List, [], ◌∷◌, ◌++◌, contains, if◌then◌else◌}
use restscope.Constraints.Values.{Host, Value, ArithmeticOperator, CompareOperator}

pub data ValueExpression (h : Host) : Type 0 where
  input_value : String → ValueExpression h
  literal : Value h → ValueExpression h
  arithmetic : ArithmeticOperator → ValueExpression h → ValueExpression h → ValueExpression h

mutual
  pub data BooleanExpression (h : Host) : Type 0 where
    present : String → BooleanExpression h
    compare : CompareOperator → ValueExpression h → ValueExpression h → BooleanExpression h
    matches : ValueExpression h → String → BooleanExpression h
    implies : BooleanExpression h → BooleanExpression h → BooleanExpression h
    cardinality : Expressions h → ℕ → ℕ → BooleanExpression h
    all_of : Expressions h → BooleanExpression h
    any_of : Expressions h → BooleanExpression h
    negation : BooleanExpression h → BooleanExpression h

  -- A list of expressions; a `ConstraintSet` is one too.
  pub data Expressions (h : Host) : Type 0 where
    nil : Expressions h
    cons : BooleanExpression h → Expressions h → Expressions h

-- `len(expression.expressions)`
abbrev pub size : {h : Host} → Expressions h → ℕ
size nil = 0
size (cons e es) = suc (size es)

-- `_value_references`
unfoldable pub value_references : {h : Host} → ValueExpression h → List String
value_references (input_value id) = id ∷ []
value_references (literal v) = []
value_references (arithmetic op left right) = value_references left ++ value_references right

-- `_boolean_references`, and the concatenation over the members of a list.
unfoldable mutual
  unfolding value_references

  pub boolean_references : {h : Host} → BooleanExpression h → List String
  boolean_references (present id) = id ∷ []
  boolean_references (compare op left right) = value_references left ++ value_references right
  boolean_references (matches value pattern') = value_references value
  boolean_references (implies condition consequence) =
      boolean_references condition ++ boolean_references consequence
  boolean_references (cardinality es minimum maximum) = each_references es
  boolean_references (all_of es) = each_references es
  boolean_references (any_of es) = each_references es
  boolean_references (negation e) = boolean_references e

  pub each_references : {h : Host} → Expressions h → List String
  each_references nil = []
  each_references (cons e es) = boolean_references e ++ each_references es

-- The loop of `referenced_input_node_ids`: what is there already is not appended again.
unfoldable pub collect : List String → List String → List String
collect result [] = result
collect result (id ∷ ids) = collect (if contains id result then result else result ++ id ∷ []) ids

-- `referenced_input_node_ids`
unfoldable pub referenced_input_node_ids : {h : Host} → Expressions h → List String
unfolding boolean_references collect
referenced_input_node_ids constraints = collect [] (each_references constraints)
