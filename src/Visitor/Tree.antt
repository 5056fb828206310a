-- ===== src/Visitor/Tree.antt =====
-- compiler/include/rxc/Sema/RecursiveASTVisitor.h: the traversal of expressions, statements and
-- declarations, and of a program.
use supreme_doodle.Common.{ℕ, Option, none, some, List, [], ◌∷◌, map}
use supreme_doodle.Ast.{
  DeclHead, Expr, OptExpr, Exprs, ObjectFields, Stmt, Block, OptBlock, Stmts, DeclStmt, OptDeclStmt,
  Decl, Func, Funcs, Param, Params, ExportedDecl, ProgramDecl, call_expr, access_expr, index_expr,
  assign_expr, decl_ref_expr, if_expr, object_literal, bool_literal, char_literal, num_literal,
  string_literal, binary_expr, unary_expr, no_expr, some_expr, no_exprs, expr_cons,
  no_object_fields, object_field, block_stmt, return_stmt, decl_stmt, expr_stmt, for_stmt, block,
  no_block, some_block, no_stmts, stmt_cons, declare, no_decl_stmt, some_decl_stmt, var_decl,
  type_decl, use_decl, impl_decl, func_decl, param_decl, func, no_funcs, func_cons, param,
  no_params, param_cons,
}
use supreme_doodle.Scopes.{function_scope, block_scope, impl_scope}
use supreme_doodle.Sema.{Exec, pure, ◌>>=◌, ◌>>◌}
use supreme_doodle.Visitor.{
  Visitor, visit_type, visit_all, visit_if, visit_child, enter_scope, enter_program,
}

module _ {T : Type 0} where
  -- the declared type of a declaration
  unfoldable pub visit_declared : Visitor T → DeclHead → ℕ → Option (Exec T)
  visit_declared v h ls = elim h.type [ none ↦ none | some t ↦ some (visit_type v.types t ls) ]

  -- A `for` statement's default member tests its condition and then visits its post expression.
  unfoldable pub visit_for :
      T → Option (Exec T) → Option (Exec T) → Option (Exec T) → Exec T → Exec T
  visit_for d header condition post body =
      visit_if d header
      >> elim condition [ none ↦ pure d | some _ ↦ visit_child post ]
      >> visit_if d post
      >> body

  unfoldable mutual
    pub visit_expr : Visitor T → Expr → ℕ → Exec T
    visit_expr v (call_expr n callee args) ls =
        visit_all v.default_result (visit_exprs v args ls) >> visit_expr v callee ls
    visit_expr v (access_expr n e k) ls = visit_expr v e ls
    visit_expr v (index_expr n e i) ls = visit_expr v i ls >> visit_expr v e ls
    visit_expr v (assign_expr n l r) ls = visit_expr v l ls >> visit_expr v r ls
    visit_expr v (decl_ref_expr n k) ls = pure v.default_result
    visit_expr v (if_expr n c b e) ls =
        visit_expr v c ls >> visit_block v b ls >>= λ t. visit_if t (visit_opt_block v e ls)
    visit_expr v (object_literal n fs) ls = visit_all v.default_result (visit_object_fields v fs ls)
    visit_expr v (bool_literal n b) ls = v.on_bool n
    visit_expr v (char_literal n c) ls = v.on_char n
    visit_expr v (num_literal n x) ls = v.on_num n x
    visit_expr v (string_literal n k) ls = v.on_string n
    visit_expr v (binary_expr n op l r) ls = visit_expr v l ls >> visit_expr v r ls
    visit_expr v (unary_expr n op e) ls = visit_expr v e ls

    pub visit_opt_expr : Visitor T → OptExpr → ℕ → Option (Exec T)
    visit_opt_expr v no_expr ls = none
    visit_opt_expr v (some_expr e) ls = some (visit_expr v e ls)

    pub visit_exprs : Visitor T → Exprs → ℕ → List (Exec T)
    visit_exprs v no_exprs ls = []
    visit_exprs v (expr_cons e es) ls = visit_expr v e ls ∷ visit_exprs v es ls

    pub visit_object_fields : Visitor T → ObjectFields → ℕ → List (Exec T)
    visit_object_fields v no_object_fields ls = []
    visit_object_fields v (object_field k e fs) ls = visit_expr v e ls ∷ visit_object_fields v fs ls

    pub visit_stmt : Visitor T → Stmt → ℕ → Exec T
    visit_stmt v (block_stmt b) ls = visit_block v b ls
    visit_stmt v (return_stmt n e) ls = visit_child (visit_opt_expr v e ls)
    visit_stmt v (decl_stmt d) ls = visit_decl_stmt v d ls
    visit_stmt v (expr_stmt n e) ls = visit_expr v e ls
    visit_stmt v (for_stmt n h c p b) ls =
        visit_for v.default_result (visit_opt_decl_stmt v h ls) (visit_opt_expr v c ls)
          (visit_opt_expr v p ls) (visit_block v b ls)

    pub visit_block : Visitor T → Block → ℕ → Exec T
    visit_block v (block n stmts) ls =
        enter_scope block_scope n.id ls >>= λ i. v.on_block i (visit_stmts v stmts i)

    pub visit_opt_block : Visitor T → OptBlock → ℕ → Option (Exec T)
    visit_opt_block v no_block ls = none
    visit_opt_block v (some_block b) ls = some (visit_block v b ls)

    pub visit_stmts : Visitor T → Stmts → ℕ → List (Exec T)
    visit_stmts v no_stmts ls = []
    visit_stmts v (stmt_cons st ss) ls = visit_stmt v st ls ∷ visit_stmts v ss ls

    pub visit_decl_stmt : Visitor T → DeclStmt → ℕ → Exec T
    visit_decl_stmt v (declare n d) ls = visit_decl v d ls

    pub visit_opt_decl_stmt : Visitor T → OptDeclStmt → ℕ → Option (Exec T)
    visit_opt_decl_stmt v no_decl_stmt ls = none
    visit_opt_decl_stmt v (some_decl_stmt d) ls = some (visit_decl_stmt v d ls)

    pub visit_decl : Visitor T → Decl → ℕ → Exec T
    visit_decl v (var_decl h e) ls =
        v.on_var (var_decl h e) h ls (visit_declared v h ls) (visit_opt_expr v e ls)
    visit_decl v (type_decl h) ls = v.on_type_decl (type_decl h) h ls (visit_declared v h ls)
    visit_decl v (use_decl h) ls = v.on_use_decl (use_decl h) h ls (visit_declared v h ls)
    visit_decl v (impl_decl h fs) ls = enter_scope impl_scope h.node.id ls >>= λ i.
        v.on_impl h i (visit_declared v h i) (visit_funcs v fs i)
    visit_decl v (func_decl f) ls = visit_func v f ls
    visit_decl v (param_decl p) ls = visit_param v p ls

    pub visit_func : Visitor T → Func → ℕ → Exec T
    visit_func v (func h ps b) ls = enter_scope function_scope h.node.id ls >>= λ i.
        v.on_func (func h ps b) i (visit_params v ps i) (visit_declared v h i)
          (visit_opt_block v b i)

    pub visit_funcs : Visitor T → Funcs → ℕ → List (Func × Exec T)
    visit_funcs v no_funcs ls = []
    visit_funcs v (func_cons f fs) ls = (f, visit_func v f ls) ∷ visit_funcs v fs ls

    pub visit_param : Visitor T → Param → ℕ → Exec T
    visit_param v (param h e) ls =
        v.on_param (param h e) ls (visit_declared v h ls) (visit_opt_expr v e ls)

    pub visit_params : Visitor T → Params → ℕ → List (Exec T)
    visit_params v no_params ls = []
    visit_params v (param_cons p ps) ls = visit_param v p ls ∷ visit_params v ps ls

  -- The package and the imports have default members that only return.
  unfoldable pub visit_exports : Visitor T → List ExportedDecl → ℕ → List (Exec T)
  visit_exports v ds ls = map (λ d. visit_decl v d.exported ls) ds

  unfoldable pub visit_program : Visitor T → ProgramDecl → Exec T
  unfolding visit_exports
  visit_program v p =
      enter_program p.node.id >>= λ ls. visit_all v.default_result (visit_exports v p.decls ls)
