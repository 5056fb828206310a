-- ===== src/Parser/Build.antt =====
-- compiler/lib/Parser/ParseTreeVisitor.h: the members on expressions and statements. The generated base
-- visitor visits all children of any other tree and gives the last result, so a `for` is visited as its
-- header and then its body, and gives the body.
use supreme_doodle.Common.{
  ℕ, Bool, true, false, Option, none, some, List, [], ◌∷◌, String, str_eq, if◌then◌else◌,
}
use supreme_doodle.Ast.{
  Node, AstType, DeclHead, BinaryOp, mult, div, add, sub, less, greater, less_than_equal,
  greater_than_equal, cmp_equal, cmp_not_equal, UnaryOp, negative, not, ref, Expr, OptExpr, Exprs,
  ObjectFields, Stmt, Block, OptBlock, Stmts, Decl, call_expr, access_expr, index_expr, assign_expr,
  decl_ref_expr, if_expr, object_literal, bool_literal, char_literal, num_literal, string_literal,
  binary_expr, unary_expr, no_expr, some_expr, no_exprs, expr_cons, no_object_fields, object_field,
  block_stmt, return_stmt, decl_stmt, expr_stmt, for_stmt, block, no_block, some_block, no_stmts,
  stmt_cons, declare, var_decl, type_decl, use_decl,
}
use supreme_doodle.Basic.{located, error, duplicate_literal_field}
use supreme_doodle.Parser.Tree
use supreme_doodle.Parser.Tree.{
  Interval, Named, TokenType, TypeTree, ExprTree, OptExprTree, ExprTrees, ValueTrees, StmtTree,
  OptStmtTree, StmtTrees, ForHeader, LocalTree, OptLocalTree, access, index, call, unary, binary,
  assign, if_else, object_value, identifier, bool_value, char_value, num_value, string_value,
  no_expr_tree, some_expr_tree, no_expr_trees, expr_tree_cons, no_values, value, return_tree,
  local_tree, expr_tree, for_tree, block_tree, no_stmt_tree, some_stmt_tree, no_stmt_trees,
  stmt_tree_cons, over, clauses, var_tree, type_tree, use_tree, no_local_tree, some_local_tree,
  local_at,
}
use supreme_doodle.Parser.Actions.{
  Source, Build, assertion, unreachable, pure, fail, ◌>>=◌, ◌>>◌, get_range, create_at, create_node,
  report, unquote,
}
use supreme_doodle.Parser.Types.{build_type}

-- the `switch` of `visitBinaryExpr`
unfoldable pub binary_op : TokenType → Build BinaryOp
binary_op Tree.star = pure mult
binary_op Tree.div = pure div
binary_op Tree.plus = pure add
binary_op Tree.minus = pure sub
binary_op Tree.langle = pure less
binary_op Tree.rangle = pure greater
binary_op Tree.leq = pure less_than_equal
binary_op Tree.geq = pure greater_than_equal
binary_op Tree.cmp_eq = pure cmp_equal
binary_op Tree.not_eq = pure cmp_not_equal
binary_op Tree.not = fail unreachable
binary_op Tree.ref = fail unreachable
binary_op Tree.other = fail unreachable

-- the `switch` of `visitUnaryExpr`
unfoldable pub unary_op : TokenType → Build UnaryOp
unary_op Tree.minus = pure negative
unary_op Tree.not = pure not
unary_op Tree.ref = pure ref
unary_op _ = fail unreachable

-- The text must have three bytes, and the character is the second.
unfoldable pub char_of : List ℕ → Build ℕ
char_of (q ∷ c ∷ r ∷ []) = pure c
char_of _ = fail assertion

abbrev pub stmt_node : Stmt → Node
stmt_node (block_stmt (block n ss)) = n
stmt_node (return_stmt n e) = n
stmt_node (decl_stmt (declare n d)) = n
stmt_node (expr_stmt n e) = n
stmt_node (for_stmt n d c p b) = n

-- `promoteStmtToBlockStmt`
unfoldable pub promote : Stmt → Build Block
unfolding create_node
promote (block_stmt b) = pure b
promote s = create_node (stmt_node s).loc >>= λ n. pure (block n (stmt_cons s no_stmts))

abbrev pub has_field : String → ObjectFields → Bool
has_field k no_object_fields = false
has_field k (object_field j e fs) = if str_eq j k then true else has_field k fs

-- `Fields[Name] = FieldExpr` for a new name
abbrev pub append_field : ObjectFields → String → Expr → ObjectFields
append_field no_object_fields k e = object_field k e no_object_fields
append_field (object_field j f fs) k e = object_field j f (append_field fs k e)

-- a field of an object literal: a name that is there already is reported and skipped
unfoldable pub add_field : Source → String → Interval → Expr → ObjectFields → Build ObjectFields
unfolding get_range report
add_field src k i e fs = elim (has_field k fs) [
  | true ↦ report (located error (duplicate_literal_field k) (get_range src i)) >> pure fs
  | false ↦ pure (append_field fs k e)
]

abbrev pub named_head : Source → Named → Node → Option AstType → DeclHead
named_head src d n t = record {
  node = n;
  decl_loc = get_range src d.name_at;
  name = d.name;
  type = t;
}

-- `if (ctx->type())`
unfoldable pub build_opt_type : Source → Option TypeTree → Build (Option AstType)
unfolding build_type
build_opt_type src none = pure none
build_opt_type src (some t) = build_type src t >>= λ e. pure (some e)

unfoldable mutual
  unfolding binary_op unary_op char_of promote add_field build_opt_type create_at get_range unquote

  pub build_expr : Source → ExprTree → Build Expr
  build_expr src (access i t k) =
      build_expr src t >>= λ e. create_at src i >>= λ n. pure (access_expr n e k)
  build_expr src (index i t u) = build_expr src t >>= λ e.
      build_expr src u >>= λ x. create_at src i >>= λ n. pure (index_expr n e x)
  build_expr src (call i t us) = build_expr src t >>= λ e.
      build_exprs src us >>= λ xs. create_at src i >>= λ n. pure (call_expr n e xs)
  build_expr src (unary i op t) = unary_op op >>= λ o.
      build_expr src t >>= λ e. create_at src i >>= λ n. pure (unary_expr n o e)
  build_expr src (binary i op t u) = binary_op op >>= λ o. build_expr src t >>= λ l.
      build_expr src u >>= λ r. create_at src i >>= λ n. pure (binary_expr n o l r)
  build_expr src (assign i t u) = build_expr src t >>= λ l.
      build_expr src u >>= λ r. create_at src i >>= λ n. pure (assign_expr n l r)
  build_expr src (if_else i c t f) = build_expr src c >>= λ e. build_stmt src t >>= λ s.
      promote s >>= λ b.
      build_opt_block src f >>= λ o. create_at src i >>= λ n. pure (if_expr n e b o)
  build_expr src (object_value i vs) = build_values src vs no_object_fields >>= λ fs.
      create_at src i >>= λ n. pure (object_literal n fs)
  build_expr src (identifier i k) = create_at src i >>= λ n. pure (decl_ref_expr n k)
  build_expr src (bool_value i raw) =
      create_at src i >>= λ n. pure (bool_literal n (str_eq raw "true"))
  build_expr src (char_value i raw) =
      char_of raw >>= λ c. create_at src i >>= λ n. pure (char_literal n c)
  build_expr src (num_value i raw) = create_at src i >>= λ n.
      pure (num_literal n (record { text = raw; is_integer = src.is_integer raw }))
  build_expr src (string_value i raw) =
      unquote raw >>= λ k. create_at src i >>= λ n. pure (string_literal n k)

  pub build_opt_expr : Source → OptExprTree → Build OptExpr
  build_opt_expr src no_expr_tree = pure no_expr
  build_opt_expr src (some_expr_tree t) = build_expr src t >>= λ e. pure (some_expr e)

  pub build_exprs : Source → ExprTrees → Build Exprs
  build_exprs src no_expr_trees = pure no_exprs
  build_exprs src (expr_tree_cons t ts) =
      build_expr src t >>= λ e. build_exprs src ts >>= λ es. pure (expr_cons e es)

  pub build_values : Source → ValueTrees → ObjectFields → Build ObjectFields
  build_values src no_values fs = pure fs
  build_values src (value k i t vs) fs =
      build_expr src t >>= λ e. add_field src k i e fs >>= λ gs. build_values src vs gs

  pub build_stmt : Source → StmtTree → Build Stmt
  build_stmt src (return_tree i t) =
      build_opt_expr src t >>= λ e. create_at src i >>= λ n. pure (return_stmt n e)
  build_stmt src (local_tree i t) =
      build_local src t >>= λ d. create_at src i >>= λ n. pure (decl_stmt (declare n d))
  build_stmt src (expr_tree i t) =
      build_expr src t >>= λ e. create_at src i >>= λ n. pure (expr_stmt n e)
  build_stmt src (for_tree h t) = visit_header src h >>= λ _. build_stmt src t
  build_stmt src (block_tree i ts) =
      build_stmts src ts >>= λ ss. create_at src i >>= λ n. pure (block_stmt (block n ss))

  -- the `else`, which is promoted to a block too
  pub build_opt_block : Source → OptStmtTree → Build OptBlock
  build_opt_block src no_stmt_tree = pure no_block
  build_opt_block src (some_stmt_tree t) =
      build_stmt src t >>= λ s. promote s >>= λ b. pure (some_block b)

  pub build_stmts : Source → StmtTrees → Build Stmts
  build_stmts src no_stmt_trees = pure no_stmts
  build_stmts src (stmt_tree_cons t ts) =
      build_stmt src t >>= λ s. build_stmts src ts >>= λ ss. pure (stmt_cons s ss)

  pub visit_header : Source → ForHeader → Build (Unit {0})
  visit_header src (over t) = build_expr src t >>= λ _. pure tt
  visit_header src (clauses d c p) = visit_opt_local src d >>= λ _.
      build_opt_expr src c >>= λ _. build_opt_expr src p >>= λ _. pure tt

  pub visit_opt_local : Source → OptLocalTree → Build (Unit {0})
  visit_opt_local src no_local_tree = pure tt
  visit_opt_local src (some_local_tree t) =
      build_local src t >>= λ _. create_at src (local_at t) >>= λ _. pure tt

  -- A variable's node is created before its type is visited, the others' after.
  pub build_local : Source → LocalTree → Build Decl
  build_local src (var_tree d e t) = build_opt_expr src e >>= λ x. create_at src d.at >>= λ n.
      build_opt_type src t >>= λ ty. pure (var_decl (named_head src d n ty) x)
  build_local src (type_tree d t) = build_type src t >>= λ e.
      create_at src d.at >>= λ n. pure (type_decl (named_head src d n (some e)))
  build_local src (use_tree d t) = build_type src t >>= λ e.
      create_at src d.at >>= λ n. pure (use_decl (named_head src d n (some e)))
