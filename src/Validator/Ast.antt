-- ===== src/Validator/Ast.antt =====
-- What the visitor sees of a Python syntax tree: the node classes that it treats, with the position
-- and the fields that it reads, and any other node with its child nodes in order.
use py_faa_s.Prelude.{ℕ, String, Option, List}

pub record Position : Type 0 where
  pub lineno : ℕ
  pub col_offset : ℕ

mutual
  pub data Node : Type 0 where
    -- `import a.b, c`: the names of the aliases
    import_names : Position → List String → Node
    -- `from m import …`; no module is `from . import …`
    import_from : Position → Option String → Node
    -- function, then arguments and keywords
    call : Position → Node → Nodes → Node
    attribute : Position → Node → String → Node
    name : Position → String → Node
    global_names : Position → List String → Node
    other : Nodes → Node

  pub data Nodes : Type 0 where
    nil : Nodes
    cons : Node → Nodes → Nodes
