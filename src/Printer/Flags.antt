-- ===== src/Printer/Flags.antt =====
-- compiler/lib/AST/ASTPrinter.cpp: the flags of the scopes that the members of the visitor open.
use supreme_doodle.Common.{◌≡◌, refl, true, Option, none, some, List, [], ◌∷◌}
use supreme_doodle.Ast.{
  DeclHead, AstType, Expr, OptExpr, Exprs, ObjectFields, Stmt, Block, OptBlock, Stmts, DeclStmt,
  Decl, Func, Funcs, Param, Params, call_expr, access_expr, index_expr, assign_expr, decl_ref_expr,
  if_expr, object_literal, bool_literal, char_literal, num_literal, string_literal, binary_expr,
  unary_expr, no_expr, some_expr, no_exprs, expr_cons, no_object_fields, object_field, block_stmt,
  return_stmt, decl_stmt, expr_stmt, for_stmt, block, no_block, some_block, no_stmts, stmt_cons,
  declare, var_decl, type_decl, use_decl, impl_decl, func_decl, param_decl, func, no_funcs,
  func_cons, param, no_params, param_cons, ExportedDecl, ImportDecl, ProgramDecl,
}
use supreme_doodle.Printer.{Label, entry, broken, no_children, print}
use supreme_doodle.Printer.Nodes.{
  last_expr, last_field, last_stmt, last_func, last_param, no_else, outline_expr, outline_opt_expr,
  outline_exprs, outline_fields, outline_stmt, outline_block, outline_opt_block, outline_stmts,
  outline_declare, outline_decl, outline_func, outline_funcs, outline_param, outline_params,
  outline_import, outline_export, outline_exports, outline_imports, outline_package,
  outline_program,
}
use supreme_doodle.Printer.Render.{
  last_child, Flagged, FlaggedAll, shallow, render_root, print-render_root,
}

last_child-outline_exprs : (xs : Exprs) → last_expr xs ≡ last_child (outline_exprs xs)
unfolding outline_expr
last_child-outline_exprs no_exprs = refl
last_child-outline_exprs (expr_cons e es) = refl

last_child-outline_fields : (xs : ObjectFields) → last_field xs ≡ last_child (outline_fields xs)
unfolding outline_expr
last_child-outline_fields no_object_fields = refl
last_child-outline_fields (object_field k e es) = refl

last_child-outline_stmts : (xs : Stmts) → last_stmt xs ≡ last_child (outline_stmts xs)
unfolding outline_expr
last_child-outline_stmts no_stmts = refl
last_child-outline_stmts (stmt_cons e es) = refl

last_child-outline_funcs : (xs : Funcs) → last_func xs ≡ last_child (outline_funcs xs)
unfolding outline_expr
last_child-outline_funcs no_funcs = refl
last_child-outline_funcs (func_cons e es) = refl

last_child-outline_opt_block : (xs : OptBlock) → no_else xs ≡ last_child (outline_opt_block xs)
unfolding outline_expr
last_child-outline_opt_block no_block = refl
last_child-outline_opt_block (some_block b) = refl

last_child-outline_params :
    (ps : Params) (b : OptBlock)
    → last_param ps b ≡ last_child (outline_params ps b (outline_opt_block b))
unfolding outline_expr
last_child-outline_params no_params no_block = refl
last_child-outline_params no_params (some_block b) = refl
last_child-outline_params (param_cons p ps) b = refl

typed-Flagged :
    (t : Option AstType) (l : Label)
    → Flagged (elim t [ none ↦ broken | some x ↦ entry l no_children ])
unfolding Flagged
typed-Flagged none l = tt
typed-Flagged (some t) l = tt

mutual
  unfolding outline_expr Flagged

  expr-Flagged : (e : Expr) → Flagged (outline_expr e)
  expr-Flagged (call_expr n e es) = (last_child-outline_exprs es, expr-Flagged e, exprs-Flagged es)
  expr-Flagged (access_expr n e k) = (refl, expr-Flagged e, tt)
  expr-Flagged (index_expr n e x) = (refl, expr-Flagged e, (refl, expr-Flagged x, tt))
  expr-Flagged (assign_expr n l r) = (refl, expr-Flagged l, (refl, expr-Flagged r, tt))
  expr-Flagged (decl_ref_expr n k) = tt
  expr-Flagged (if_expr n c b o) =
      (refl, expr-Flagged c, (last_child-outline_opt_block o, block-Flagged b, opt_block-Flagged o))
  expr-Flagged (object_literal n fs) = fields-Flagged fs
  expr-Flagged (bool_literal n b) = tt
  expr-Flagged (char_literal n c) = tt
  expr-Flagged (num_literal n v) = tt
  expr-Flagged (string_literal n k) = tt
  expr-Flagged (binary_expr n o l r) = (refl, expr-Flagged l, (refl, expr-Flagged r, tt))
  expr-Flagged (unary_expr n o e) = (refl, expr-Flagged e, tt)

  opt_expr-Flagged : (e : OptExpr) → FlaggedAll (outline_opt_expr e)
  opt_expr-Flagged no_expr = tt
  opt_expr-Flagged (some_expr e) = (refl, expr-Flagged e, tt)

  exprs-Flagged : (es : Exprs) → FlaggedAll (outline_exprs es)
  exprs-Flagged no_exprs = tt
  exprs-Flagged (expr_cons e es) = (last_child-outline_exprs es, expr-Flagged e, exprs-Flagged es)

  fields-Flagged : (fs : ObjectFields) → FlaggedAll (outline_fields fs)
  fields-Flagged no_object_fields = tt
  fields-Flagged (object_field k e fs) =
      (last_child-outline_fields fs, expr-Flagged e, fields-Flagged fs)

  stmt-Flagged : (s : Stmt) → Flagged (outline_stmt s)
  stmt-Flagged (block_stmt b) = block-Flagged b
  stmt-Flagged (return_stmt n e) = opt_expr-Flagged e
  stmt-Flagged (decl_stmt d) = declare-Flagged d
  stmt-Flagged (expr_stmt n e) = (refl, expr-Flagged e, tt)
  stmt-Flagged (for_stmt n d c p b) = tt

  block-Flagged : (b : Block) → Flagged (outline_block b)
  block-Flagged (block n ss) = stmts-Flagged ss

  opt_block-Flagged : (b : OptBlock) → FlaggedAll (outline_opt_block b)
  opt_block-Flagged no_block = tt
  opt_block-Flagged (some_block b) = (refl, block-Flagged b, tt)

  stmts-Flagged : (ss : Stmts) → FlaggedAll (outline_stmts ss)
  stmts-Flagged no_stmts = tt
  stmts-Flagged (stmt_cons s ss) = (last_child-outline_stmts ss, stmt-Flagged s, stmts-Flagged ss)

  declare-Flagged : (d : DeclStmt) → Flagged (outline_declare d)
  declare-Flagged (declare n d) = (refl, decl-Flagged d, tt)

  decl-Flagged : (d : Decl) → Flagged (outline_decl d)
  decl-Flagged (var_decl h e) = opt_expr-Flagged e
  decl-Flagged (type_decl h) = typed-Flagged h.type _
  decl-Flagged (use_decl h) = typed-Flagged h.type _
  decl-Flagged (impl_decl h fs) = funcs-Flagged fs
  decl-Flagged (func_decl f) = func-Flagged f
  decl-Flagged (param_decl p) = param-Flagged p

  func-Flagged : (f : Func) → Flagged (outline_func f)
  func-Flagged (func h ps b) = params-Flagged ps b (opt_block-Flagged b)

  funcs-Flagged : (fs : Funcs) → FlaggedAll (outline_funcs fs)
  funcs-Flagged no_funcs = tt
  funcs-Flagged (func_cons f fs) = (last_child-outline_funcs fs, func-Flagged f, funcs-Flagged fs)

  param-Flagged : (p : Param) → Flagged (outline_param p)
  param-Flagged (param h e) = opt_expr-Flagged e

  params-Flagged :
      (ps : Params) (b : OptBlock)
      → FlaggedAll (outline_opt_block b)
      → FlaggedAll (outline_params ps b (outline_opt_block b))
  params-Flagged no_params b g = g
  params-Flagged (param_cons p ps) b g =
      (last_child-outline_params ps b, param-Flagged p, params-Flagged ps b g)

export-Flagged : (x : ExportedDecl) → Flagged (outline_export x)
unfolding outline_export Flagged
export-Flagged x = (refl, decl-Flagged x.exported, tt)

exports-Flagged : (xs : List ExportedDecl) → FlaggedAll (outline_exports xs)
unfolding outline_exports Flagged
exports-Flagged [] = tt
exports-Flagged (x ∷ []) = (refl, export-Flagged x, tt)
exports-Flagged (x ∷ y ∷ xs) = (refl, export-Flagged x, exports-Flagged (y ∷ xs))

imports-Flagged :
    (xs : List ImportDecl) (ds : List ExportedDecl) → FlaggedAll (outline_imports xs ds)
unfolding outline_imports outline_exports outline_import Flagged
imports-Flagged [] ds = exports-Flagged ds
imports-Flagged (x ∷ []) [] = (refl, tt, tt)
imports-Flagged (x ∷ []) (d ∷ ds) = (refl, tt, exports-Flagged (d ∷ ds))
imports-Flagged (x ∷ y ∷ xs) ds = (refl, tt, imports-Flagged (y ∷ xs) ds)

package-Flagged :
    (p : Option DeclHead) (is : List ImportDecl) (ds : List ExportedDecl)
    → FlaggedAll (outline_package p is ds)
unfolding outline_package outline_imports outline_exports outline_import Flagged
package-Flagged none is ds = imports-Flagged is ds
package-Flagged (some h) [] [] = (refl, tt, tt)
package-Flagged (some h) [] (d ∷ ds) = (refl, tt, exports-Flagged (d ∷ ds))
package-Flagged (some h) (i ∷ is) [] = (refl, tt, imports-Flagged (i ∷ is) [])
package-Flagged (some h) (i ∷ is) (d ∷ ds) = (refl, tt, imports-Flagged (i ∷ is) (d ∷ ds))

-- A program of at most 32 levels with no for statement and no type declaration without a type is printed
-- without a flag out of bounds, and each line's prefix is given by the positions of the node's ancestors
-- alone: a blank below a last child, a bar below any other, and a corner or a branch for the node itself.
pub print-outline_program :
    (p : ProgramDecl)
    → shallow 32 (outline_program p) ≡ true
    → print (outline_program p) ≡ some (render_root (outline_program p))
unfolding outline_program Flagged
print-outline_program p h =
    print-render_root (outline_program p) h (package-Flagged p.package_decl p.imports p.decls)
