-- ===== src/Parser/Fresh/Exprs.antt =====
-- compiler/lib/Parser/ParseTreeVisitor.h: the expressions and statements that are built.
use supreme_doodle.Common.{ℕ, ◌+◌, refl, List, ◌∷◌, arith}
use supreme_doodle.Ast.{ObjectFields, no_object_fields}
use supreme_doodle.Ast.Listed.{
  listed_expr, listed_opt_expr, listed_exprs, listed_values, listed_stmt, listed_block,
  listed_opt_block, listed_stmts, listed_decl,
}
use supreme_doodle.Parser.Tree.{
  ExprTree, OptExprTree, ExprTrees, ValueTrees, StmtTree, OptStmtTree, StmtTrees, ForHeader,
  LocalTree, OptLocalTree, access, index, call, unary, binary, assign, if_else, object_value,
  identifier, bool_value, char_value, num_value, string_value, no_expr_tree, some_expr_tree,
  no_expr_trees, expr_tree_cons, no_values, value, return_tree, local_tree, expr_tree, for_tree,
  block_tree, no_stmt_tree, some_stmt_tree, no_stmt_trees, stmt_tree_cons, over, clauses, var_tree,
  type_tree, use_tree, no_local_tree, some_local_tree,
}
use supreme_doodle.Parser.Actions.{Source, Builder, create_at, get_range}
use supreme_doodle.Parser.Build.{
  build_expr, build_opt_expr, build_exprs, build_values, build_stmt, build_opt_block, build_stmts,
  visit_header, visit_opt_local, build_local,
}
use supreme_doodle.Parser.Complete.{
  complete_expr, complete_opt_expr, complete_exprs, complete_values, complete_stmt,
  complete_opt_stmt, complete_stmts, complete_header, complete_local, complete_opt_local,
}
use supreme_doodle.Parser.Answers.{
  Below, Answers, Grown, Answers-bind, Answers-finish, Answers-imply, answered, started,
  Grown-trans, Grown-same, Grown-node, Grown-drop, Grown-push,
}
use supreme_doodle.Parser.Fresh.Types.{type-Grown, opt_type-Grown}
use supreme_doodle.Parser.Fresh.Steps.{
  Keeps, binary_op-Keeps, unary_op-Keeps, char_of-Keeps, unquote-Keeps, promote-Grown,
  add_field-Grown,
}

mutual
  unfolding build_expr complete_expr listed_expr create_at get_range

  pub expr-Grown :
      (src : Source) (t : ExprTree) (s : Builder) (ids : List ℕ)
      → Below s.next ids
      → Answers (complete_expr t) (build_expr src t s) (Grown listed_expr ids s.next)
  expr-Grown src (access i t k) s ids b =
      Answers-finish (expr-Grown src t s ids b) (λ e r p. answered (Grown-node p refl))
  expr-Grown src (index i t v) s ids b = Answers-bind (expr-Grown src t s ids b) (λ e r p.
      Answers-finish (expr-Grown src v r (listed_expr e ids) p.below)
        (λ x u q. answered (Grown-node (Grown-trans p q) refl)))
  expr-Grown src (call i t vs) s ids b = Answers-bind (expr-Grown src t s ids b) (λ e r p.
      Answers-finish (exprs-Grown src vs r (listed_expr e ids) p.below)
        (λ x u q. answered (Grown-node (Grown-trans p q) refl)))
  expr-Grown src (unary i op t) s ids b = Answers-bind (unary_op-Keeps op s ids b) (λ e r p.
      Answers-finish (expr-Grown src t r ids p.below)
        (λ x u q. answered (Grown-node (Grown-trans p q) refl)))
  expr-Grown src (binary i op t v) s ids b = Answers-bind (binary_op-Keeps op s ids b) (λ o r p.
      Answers-bind (expr-Grown src t r ids p.below) (λ e u q.
        Answers-finish (expr-Grown src v u (listed_expr e ids) q.below)
          (λ x w z. answered (Grown-node (Grown-trans p (Grown-trans q z)) refl))))
  expr-Grown src (assign i t v) s ids b = Answers-bind (expr-Grown src t s ids b) (λ e r p.
      Answers-finish (expr-Grown src v r (listed_expr e ids) p.below)
        (λ x u q. answered (Grown-node (Grown-trans p q) refl)))
  expr-Grown src (if_else i c t f) s ids b = Answers-bind (expr-Grown src c s ids b) (λ e r p.
      Answers-bind (stmt-Grown src t r (listed_expr e ids) p.below) (λ x u q.
        Answers-bind (promote-Grown x u q) (λ y w z.
          Answers-finish (opt_block-Grown src f w (listed_block y (listed_expr e ids)) z.below)
            (λ o v h. answered (Grown-node (Grown-trans p (Grown-trans z h)) refl)))))
  expr-Grown src (object_value i vs) s ids b =
      Answers-finish (values-Grown src vs s no_object_fields ids b)
        (λ e r p. answered (Grown-node p refl))
  expr-Grown src (identifier i k) s ids b = answered (Grown-node (started s b) refl)
  expr-Grown src (bool_value i raw) s ids b = answered (Grown-node (started s b) refl)
  expr-Grown src (num_value i raw) s ids b = answered (Grown-node (started s b) refl)
  expr-Grown src (char_value i raw) s ids b =
      Answers-finish (char_of-Keeps raw s ids b) (λ e r p. answered (Grown-node p refl))
  expr-Grown src (string_value i raw) s ids b =
      Answers-finish (unquote-Keeps raw s ids b) (λ e r p. answered (Grown-node p refl))

  pub opt_expr-Grown :
      (src : Source) (t : OptExprTree) (s : Builder) (ids : List ℕ)
      → Below s.next ids
      → Answers (complete_opt_expr t) (build_opt_expr src t s) (Grown listed_opt_expr ids s.next)
  opt_expr-Grown src no_expr_tree s ids b = answered (Grown-same (started s b) refl)
  opt_expr-Grown src (some_expr_tree t) s ids b =
      Answers-finish (expr-Grown src t s ids b) (λ e r p. answered (Grown-same p refl))

  pub exprs-Grown :
      (src : Source) (t : ExprTrees) (s : Builder) (ids : List ℕ)
      → Below s.next ids
      → Answers (complete_exprs t) (build_exprs src t s) (Grown listed_exprs ids s.next)
  exprs-Grown src no_expr_trees s ids b = answered (Grown-same (started s b) refl)
  exprs-Grown src (expr_tree_cons t ts) s ids b = Answers-bind (expr-Grown src t s ids b) (λ e r p.
      Answers-finish (exprs-Grown src ts r (listed_expr e ids) p.below)
        (λ x u q. answered (Grown-same (Grown-trans p q) refl)))

  values-Grown :
      (src : Source) (t : ValueTrees) (s : Builder) (fs : ObjectFields) (ids : List ℕ)
      → Below s.next (listed_values fs ids)
      → Answers (complete_values t) (build_values src t fs s) (Grown listed_values ids s.next)
  values-Grown src no_values s fs ids b = answered (Grown-same (started s b) refl)
  values-Grown src (value k i t vs) s fs ids b =
      Answers-bind (expr-Grown src t s (listed_values fs ids) b) (λ e r p.
        Answers-bind (add_field-Grown src k i fs e r b p) (λ gs u q.
          Answers-imply (values-Grown src vs u gs ids q.below) (λ hs w z. Grown-trans q z)))

  pub stmt-Grown :
      (src : Source) (t : StmtTree) (s : Builder) (ids : List ℕ)
      → Below s.next ids
      → Answers (complete_stmt t) (build_stmt src t s) (Grown listed_stmt ids s.next)
  stmt-Grown src (return_tree i t) s ids b =
      Answers-finish (opt_expr-Grown src t s ids b) (λ e r p. answered (Grown-node p refl))
  stmt-Grown src (local_tree i t) s ids b =
      Answers-finish (local-Grown src t s ids b) (λ e r p. answered (Grown-node p refl))
  stmt-Grown src (expr_tree i t) s ids b =
      Answers-finish (expr-Grown src t s ids b) (λ e r p. answered (Grown-node p refl))
  stmt-Grown src (for_tree h t) s ids b =
      Answers-bind (header-Keeps src h s ids b)
        (λ e r p. Answers-imply (stmt-Grown src t r ids p.below) (λ x u q. Grown-trans p q))
  stmt-Grown src (block_tree i ts) s ids b =
      Answers-finish (stmts-Grown src ts s ids b) (λ e r p. answered (Grown-node p refl))

  pub opt_block-Grown :
      (src : Source) (t : OptStmtTree) (s : Builder) (ids : List ℕ)
      → Below s.next ids
      → Answers (complete_opt_stmt t) (build_opt_block src t s) (Grown listed_opt_block ids s.next)
  opt_block-Grown src no_stmt_tree s ids b = answered (Grown-same (started s b) refl)
  opt_block-Grown src (some_stmt_tree t) s ids b =
      Answers-finish (stmt-Grown src t s ids b)
        (λ x r p. Answers-finish (promote-Grown x r p) (λ y u q. answered (Grown-same q refl)))

  pub stmts-Grown :
      (src : Source) (t : StmtTrees) (s : Builder) (ids : List ℕ)
      → Below s.next ids
      → Answers (complete_stmts t) (build_stmts src t s) (Grown listed_stmts ids s.next)
  stmts-Grown src no_stmt_trees s ids b = answered (Grown-same (started s b) refl)
  stmts-Grown src (stmt_tree_cons t ts) s ids b = Answers-bind (stmt-Grown src t s ids b) (λ e r p.
      Answers-finish (stmts-Grown src ts r (listed_stmt e ids) p.below)
        (λ x u q. answered (Grown-same (Grown-trans p q) refl)))

  -- The nodes of the header are in no syntax tree.
  pub header-Keeps :
      (src : Source) (t : ForHeader) (s : Builder) (ids : List ℕ)
      → Below s.next ids
      → Answers (complete_header t) (visit_header src t s) (Keeps ids s.next)
  header-Keeps src (over t) s ids b =
      Answers-finish (expr-Grown src t s ids b) (λ e r p. answered (Grown-drop b (omega arith) p))
  header-Keeps src (clauses d c h) s ids b = Answers-bind (opt_local-Keeps src d s ids b) (λ x r p.
      Answers-bind (opt_expr-Grown src c r ids p.below) (λ e u q.
        Answers-finish (opt_expr-Grown src h u (listed_opt_expr e ids) q.below)
          (λ y w z. answered (Grown-drop b p.grows (Grown-trans q z)))))

  opt_local-Keeps :
      (src : Source) (t : OptLocalTree) (s : Builder) (ids : List ℕ)
      → Below s.next ids
      → Answers (complete_opt_local t) (visit_opt_local src t s) (Keeps ids s.next)
  opt_local-Keeps src no_local_tree s ids b = answered (Grown-same (started s b) refl)
  opt_local-Keeps src (some_local_tree t) s ids b =
      Answers-finish (local-Grown src t s ids b)
        (λ d r p. answered (Grown-drop b (omega arith) (Grown-push p)))

  pub local-Grown :
      (src : Source) (t : LocalTree) (s : Builder) (ids : List ℕ)
      → Below s.next ids
      → Answers (complete_local t) (build_local src t s) (Grown listed_decl ids s.next)
  local-Grown src (var_tree d e t) s ids b = Answers-finish (opt_expr-Grown src e s ids b) (λ x r p.
      Answers-finish
        (opt_type-Grown src t (record r { next = r.next + 1 }) (r.next ∷ listed_opt_expr x ids)
          (Grown-push p).below)
        (λ ty u q. answered (Grown-same (Grown-trans (Grown-push p) q) refl)))
  local-Grown src (type_tree d t) s ids b =
      Answers-finish (type-Grown src t s ids b) (λ e r p. answered (Grown-node p refl))
  local-Grown src (use_tree d t) s ids b =
      Answers-finish (type-Grown src t s ids b) (λ e r p. answered (Grown-node p refl))
