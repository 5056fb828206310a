-- ===== src/Parser/Tree.antt =====
-- compiler/lib/Parser/grammar/LangParser.g4: the parse trees, with what the visitor reads of them. An
-- interval is the pair of the positions of a tree's first and last token.
use supreme_doodle.Common.{ℕ, Bool, Option, List, String}

pub record Interval : Type 0 where
  pub a : ℕ
  pub b : ℕ

-- a declaration's interval, its name and where the name stands
pub record Named : Type 0 where
  pub at : Interval
  pub name : String
  pub name_at : Interval

-- the operator tokens that the visitor tells apart, and any other
pub data TokenType : Type 0 where
  star div plus minus langle rangle leq geq cmp_eq not_eq not ref other : TokenType

-- `visibility`, and whether it is `PUBLIC`
pub record VisibilityTree : Type 0 where
  pub at : Interval
  pub is_public : Bool

-- `type`
mutual
  pub data TypeTree : Type 0 where
    mutable : Interval → TypeTree → TypeTree
    type_access : Interval → TypeTree → String → TypeTree
    decl_ref : Interval → String → TypeTree
    pointer : Interval → Bool → TypeTree → TypeTree
    array : Interval → TypeTree → TypeTree
    function : Interval → TypeTrees → TypeTree → TypeTree
    object : Interval → FieldTrees → TypeTree
    enum : Interval → MemberTrees → TypeTree

  -- `parameter_type_list?`
  pub data TypeTrees : Type 0 where
    no_type_trees : TypeTrees
    type_tree_cons : TypeTree → TypeTrees → TypeTrees

  -- `object_field_type`, with its `visibility?`
  pub data FieldTrees : Type 0 where
    no_field_trees : FieldTrees
    field_tree : Option VisibilityTree → String → TypeTree → FieldTrees → FieldTrees

  pub data MemberTrees : Type 0 where
    no_member_trees : MemberTrees
    member_tree : String → TypeTree → MemberTrees → MemberTrees
    bare_member_tree : String → MemberTrees → MemberTrees

abbrev pub type_at : TypeTree → Interval
type_at (mutable i t) = i
type_at (type_access i t k) = i
type_at (decl_ref i k) = i
type_at (pointer i b t) = i
type_at (array i t) = i
type_at (function i ps r) = i
type_at (object i fs) = i
type_at (enum i ms) = i

-- `expr` and `statement`. The text of a character is its bytes, with the quotes.
mutual
  pub data ExprTree : Type 0 where
    access : Interval → ExprTree → String → ExprTree
    index : Interval → ExprTree → ExprTree → ExprTree
    call : Interval → ExprTree → ExprTrees → ExprTree
    unary : Interval → TokenType → ExprTree → ExprTree
    binary : Interval → TokenType → ExprTree → ExprTree → ExprTree
    assign : Interval → ExprTree → ExprTree → ExprTree
    if_else : Interval → ExprTree → StmtTree → OptStmtTree → ExprTree
    object_value : Interval → ValueTrees → ExprTree
    identifier : Interval → String → ExprTree
    bool_value : Interval → String → ExprTree
    char_value : Interval → List ℕ → ExprTree
    num_value : Interval → String → ExprTree
    string_value : Interval → String → ExprTree

  pub data OptExprTree : Type 0 where
    no_expr_tree : OptExprTree
    some_expr_tree : ExprTree → OptExprTree

  pub data ExprTrees : Type 0 where
    no_expr_trees : ExprTrees
    expr_tree_cons : ExprTree → ExprTrees → ExprTrees

  -- `object_field`, with the interval of the name
  pub data ValueTrees : Type 0 where
    no_values : ValueTrees
    value : String → Interval → ExprTree → ValueTrees → ValueTrees

  pub data StmtTree : Type 0 where
    return_tree : Interval → OptExprTree → StmtTree
    local_tree : Interval → LocalTree → StmtTree
    expr_tree : Interval → ExprTree → StmtTree
    for_tree : ForHeader → StmtTree → StmtTree
    block_tree : Interval → StmtTrees → StmtTree

  pub data OptStmtTree : Type 0 where
    no_stmt_tree : OptStmtTree
    some_stmt_tree : StmtTree → OptStmtTree

  pub data StmtTrees : Type 0 where
    no_stmt_trees : StmtTrees
    stmt_tree_cons : StmtTree → StmtTrees → StmtTrees

  -- `for_header`
  pub data ForHeader : Type 0 where
    over : ExprTree → ForHeader
    clauses : OptLocalTree → OptExprTree → OptExprTree → ForHeader

  -- `var_decl`, `type_decl` and `use_decl`
  pub data LocalTree : Type 0 where
    var_tree : Named → OptExprTree → Option TypeTree → LocalTree
    type_tree : Named → TypeTree → LocalTree
    use_tree : Named → TypeTree → LocalTree

  pub data OptLocalTree : Type 0 where
    no_local_tree : OptLocalTree
    some_local_tree : LocalTree → OptLocalTree

abbrev pub local_at : LocalTree → Interval
local_at (var_tree d e t) = d.at
local_at (type_tree d t) = d.at
local_at (use_tree d t) = d.at

-- `func_param_decl`
pub record ParamTree : Type 0 where
  pub named : Named
  pub type : TypeTree
  pub initializer : OptExprTree

-- `func_decl`; `body` is the block of the `func_body?`
pub record FuncTree : Type 0 where
  pub named : Named
  pub params : List ParamTree
  pub result : Option TypeTree
  pub func_at : Interval
  pub rparen_at : Interval
  pub body : Option (Interval × StmtTrees)

-- `global_decl`
pub data GlobalTree : Type 0 where
  local : LocalTree → GlobalTree
  impl : Interval → TypeTree → List FuncTree → GlobalTree
  func : FuncTree → GlobalTree

-- `global_export`
pub record ExportTree : Type 0 where
  pub at : Interval
  pub visibility : Option VisibilityTree
  pub decl : GlobalTree

-- `import_path`: a string literal with its quotes, or identifiers
pub data PathTree : Type 0 where
  quoted : String → PathTree
  dotted : String → List String → PathTree

-- `import_stmt`
pub record ImportTree : Type 0 where
  pub at : Interval
  pub path_at : Interval
  pub path : PathTree
  pub alias : Option String

-- `program`
pub record ProgramTree : Type 0 where
  pub at : Interval
  pub package_decl : Option Named
  pub imports : List ImportTree
  pub decls : List ExportTree
