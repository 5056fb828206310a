-- ===== src/Parser/Complete.antt =====
-- The parse trees that the visitor of compiler/lib/Parser/ParseTreeVisitor.h accepts: every function has a body,
-- character literals have three bytes, operators are those of the grammar, and quoted texts have their quotes.
use supreme_doodle.Common.{ℕ, Bool, true, false, ◌&&◌, Option, none, some, List, [], ◌∷◌, String}
use supreme_doodle.Parser.Tree
use supreme_doodle.Parser.Tree.{
  Interval, TokenType, ExprTree, OptExprTree, ExprTrees, ValueTrees, StmtTree, OptStmtTree,
  StmtTrees, ForHeader, LocalTree, OptLocalTree, ParamTree, FuncTree, GlobalTree, ExportTree,
  PathTree, ImportTree, ProgramTree, access, index, call, unary, binary, assign, if_else,
  object_value, identifier, bool_value, char_value, num_value, string_value, no_expr_tree,
  some_expr_tree, no_expr_trees, expr_tree_cons, no_values, value, return_tree, local_tree,
  expr_tree, for_tree, block_tree, no_stmt_tree, some_stmt_tree, no_stmt_trees, stmt_tree_cons,
  over, clauses, var_tree, type_tree, use_tree, no_local_tree, some_local_tree, quoted, dotted,
}

unfoldable pub is_unary : TokenType → Bool
is_unary Tree.minus = true
is_unary Tree.not = true
is_unary Tree.ref = true
is_unary _ = false

unfoldable pub is_binary : TokenType → Bool
is_binary Tree.not = false
is_binary Tree.ref = false
is_binary Tree.other = false
is_binary _ = true

unfoldable pub is_char : List ℕ → Bool
is_char (q ∷ c ∷ r ∷ []) = true
is_char _ = false

unfoldable pub is_nonempty : String → Bool
is_nonempty String.[] = false
is_nonempty _ = true

unfoldable mutual
  unfolding is_unary is_binary is_char is_nonempty

  pub complete_expr : ExprTree → Bool
  complete_expr (access i t k) = complete_expr t
  complete_expr (index i t u) = complete_expr t && complete_expr u
  complete_expr (call i t us) = complete_expr t && complete_exprs us
  complete_expr (unary i op t) = is_unary op && complete_expr t
  complete_expr (binary i op t u) = is_binary op && (complete_expr t && complete_expr u)
  complete_expr (assign i t u) = complete_expr t && complete_expr u
  complete_expr (if_else i c t f) = complete_expr c && (complete_stmt t && complete_opt_stmt f)
  complete_expr (object_value i vs) = complete_values vs
  complete_expr (identifier i k) = true
  complete_expr (bool_value i raw) = true
  complete_expr (char_value i raw) = is_char raw
  complete_expr (num_value i raw) = true
  complete_expr (string_value i raw) = is_nonempty raw

  pub complete_opt_expr : OptExprTree → Bool
  complete_opt_expr no_expr_tree = true
  complete_opt_expr (some_expr_tree t) = complete_expr t

  pub complete_exprs : ExprTrees → Bool
  complete_exprs no_expr_trees = true
  complete_exprs (expr_tree_cons t ts) = complete_expr t && complete_exprs ts

  pub complete_values : ValueTrees → Bool
  complete_values no_values = true
  complete_values (value k i t vs) = complete_expr t && complete_values vs

  pub complete_stmt : StmtTree → Bool
  complete_stmt (return_tree i t) = complete_opt_expr t
  complete_stmt (local_tree i t) = complete_local t
  complete_stmt (expr_tree i t) = complete_expr t
  complete_stmt (for_tree h t) = complete_header h && complete_stmt t
  complete_stmt (block_tree i ts) = complete_stmts ts

  pub complete_opt_stmt : OptStmtTree → Bool
  complete_opt_stmt no_stmt_tree = true
  complete_opt_stmt (some_stmt_tree t) = complete_stmt t

  pub complete_stmts : StmtTrees → Bool
  complete_stmts no_stmt_trees = true
  complete_stmts (stmt_tree_cons t ts) = complete_stmt t && complete_stmts ts

  pub complete_header : ForHeader → Bool
  complete_header (over t) = complete_expr t
  complete_header (clauses d c p) =
      complete_opt_local d && (complete_opt_expr c && complete_opt_expr p)

  pub complete_local : LocalTree → Bool
  complete_local (var_tree d e t) = complete_opt_expr e
  complete_local (type_tree d t) = true
  complete_local (use_tree d t) = true

  pub complete_opt_local : OptLocalTree → Bool
  complete_opt_local no_local_tree = true
  complete_opt_local (some_local_tree t) = complete_local t

unfoldable pub complete_params : List ParamTree → Bool
unfolding complete_opt_expr
complete_params [] = true
complete_params (p ∷ ps) = complete_opt_expr p.initializer && complete_params ps

unfoldable pub complete_body : Option (Interval × StmtTrees) → Bool
unfolding complete_stmts
complete_body none = false
complete_body (some (i, ts)) = complete_stmts ts

unfoldable pub complete_func : FuncTree → Bool
unfolding complete_params complete_body
complete_func f = complete_params f.params && complete_body f.body

unfoldable pub complete_funcs : List FuncTree → Bool
unfolding complete_func
complete_funcs [] = true
complete_funcs (f ∷ fs) = complete_func f && complete_funcs fs

unfoldable pub complete_global : GlobalTree → Bool
unfolding complete_local complete_func complete_funcs
complete_global (Tree.local t) = complete_local t
complete_global (Tree.impl i t fs) = complete_funcs fs
complete_global (Tree.func f) = complete_func f

unfoldable pub complete_exports : List ExportTree → Bool
unfolding complete_global
complete_exports [] = true
complete_exports (x ∷ xs) = complete_global x.decl && complete_exports xs

unfoldable pub complete_path : PathTree → Bool
complete_path (quoted String.[]) = false
complete_path (quoted (String.◌∷◌ c String.[])) = false
complete_path (quoted raw) = true
complete_path (dotted k ks) = true

unfoldable pub complete_imports : List ImportTree → Bool
unfolding complete_path
complete_imports [] = true
complete_imports (x ∷ xs) = complete_path x.path && complete_imports xs

unfoldable pub complete_program : ProgramTree → Bool
unfolding complete_imports complete_exports
complete_program p = complete_imports p.imports && complete_exports p.decls
