-- ===== src/Ast/Listed.antt =====
-- The identities of the nodes of a syntax tree, the newest first, in front of those of the nodes that were created
-- before it. The types of a function's parameters are listed once, with the parameters.
use supreme_doodle.Common.{ℕ, Option, none, some, List, [], ◌∷◌}
use supreme_doodle.Ast.{
  AstType, AstTypes, AstFields, AstMembers, builtin_type, decl_type_ref, access_type, qual_type,
  pointer_type, array_type, function_type, object_type, enum_type, no_types, type_cons, no_fields,
  field, no_members, member, bare_member, DeclHead, Expr, OptExpr, Exprs, ObjectFields, Stmt, Block,
  OptBlock, Stmts, DeclStmt, OptDeclStmt, Decl, Func, Funcs, Param, Params, call_expr, access_expr,
  index_expr, assign_expr, decl_ref_expr, if_expr, object_literal, bool_literal, char_literal,
  num_literal, string_literal, binary_expr, unary_expr, no_expr, some_expr, no_exprs, expr_cons,
  no_object_fields, object_field, block_stmt, return_stmt, decl_stmt, expr_stmt, for_stmt, block,
  no_block, some_block, no_stmts, stmt_cons, declare, no_decl_stmt, some_decl_stmt, var_decl,
  type_decl, use_decl, impl_decl, func_decl, param_decl, func, no_funcs, func_cons, param,
  no_params, param_cons, ExportedDecl, ImportDecl, ProgramDecl,
}

unfoldable mutual
  pub listed_type : AstType → List ℕ → List ℕ
  listed_type (builtin_type n t) ids = n.id ∷ ids
  listed_type (decl_type_ref n k) ids = n.id ∷ ids
  listed_type (access_type n k t) ids = n.id ∷ listed_type t ids
  listed_type (qual_type n t) ids = n.id ∷ listed_type t ids
  listed_type (pointer_type n t b) ids = n.id ∷ listed_type t ids
  listed_type (array_type n t) ids = n.id ∷ listed_type t ids
  listed_type (function_type n ps r) ids = n.id ∷ listed_type r (listed_types ps ids)
  listed_type (object_type n fs) ids = n.id ∷ listed_fields fs ids
  listed_type (enum_type n ms) ids = n.id ∷ listed_members ms ids

  pub listed_types : AstTypes → List ℕ → List ℕ
  listed_types no_types ids = ids
  listed_types (type_cons t ts) ids = listed_types ts (listed_type t ids)

  pub listed_fields : AstFields → List ℕ → List ℕ
  listed_fields no_fields ids = ids
  listed_fields (field k t fs) ids = listed_fields fs (listed_type t ids)

  pub listed_members : AstMembers → List ℕ → List ℕ
  listed_members no_members ids = ids
  listed_members (member k t ms) ids = listed_members ms (listed_type t ids)
  listed_members (bare_member k ms) ids = listed_members ms ids

unfoldable pub listed_opt_type : Option AstType → List ℕ → List ℕ
unfolding listed_type
listed_opt_type none ids = ids
listed_opt_type (some t) ids = listed_type t ids

-- a function's type without its parameters
unfoldable pub listed_signature : Option AstType → List ℕ → List ℕ
unfolding listed_opt_type listed_type
listed_signature (some (function_type n ps r)) ids = n.id ∷ listed_type r ids
listed_signature t ids = listed_opt_type t ids

unfoldable mutual
  unfolding listed_opt_type listed_signature

  pub listed_expr : Expr → List ℕ → List ℕ
  listed_expr (call_expr n e es) ids = n.id ∷ listed_exprs es (listed_expr e ids)
  listed_expr (access_expr n e k) ids = n.id ∷ listed_expr e ids
  listed_expr (index_expr n e x) ids = n.id ∷ listed_expr x (listed_expr e ids)
  listed_expr (assign_expr n l r) ids = n.id ∷ listed_expr r (listed_expr l ids)
  listed_expr (decl_ref_expr n k) ids = n.id ∷ ids
  listed_expr (if_expr n c b o) ids = n.id ∷ listed_opt_block o (listed_block b (listed_expr c ids))
  listed_expr (object_literal n fs) ids = n.id ∷ listed_values fs ids
  listed_expr (bool_literal n b) ids = n.id ∷ ids
  listed_expr (char_literal n c) ids = n.id ∷ ids
  listed_expr (num_literal n v) ids = n.id ∷ ids
  listed_expr (string_literal n k) ids = n.id ∷ ids
  listed_expr (binary_expr n o l r) ids = n.id ∷ listed_expr r (listed_expr l ids)
  listed_expr (unary_expr n o e) ids = n.id ∷ listed_expr e ids

  pub listed_opt_expr : OptExpr → List ℕ → List ℕ
  listed_opt_expr no_expr ids = ids
  listed_opt_expr (some_expr e) ids = listed_expr e ids

  pub listed_exprs : Exprs → List ℕ → List ℕ
  listed_exprs no_exprs ids = ids
  listed_exprs (expr_cons e es) ids = listed_exprs es (listed_expr e ids)

  pub listed_values : ObjectFields → List ℕ → List ℕ
  listed_values no_object_fields ids = ids
  listed_values (object_field k e fs) ids = listed_values fs (listed_expr e ids)

  pub listed_stmt : Stmt → List ℕ → List ℕ
  listed_stmt (block_stmt b) ids = listed_block b ids
  listed_stmt (return_stmt n e) ids = n.id ∷ listed_opt_expr e ids
  listed_stmt (decl_stmt d) ids = listed_declare d ids
  listed_stmt (expr_stmt n e) ids = n.id ∷ listed_expr e ids
  listed_stmt (for_stmt n d c p b) ids =
      n.id ∷ listed_block b (listed_opt_expr p (listed_opt_expr c (listed_opt_declare d ids)))

  pub listed_block : Block → List ℕ → List ℕ
  listed_block (block n ss) ids = n.id ∷ listed_stmts ss ids

  pub listed_opt_block : OptBlock → List ℕ → List ℕ
  listed_opt_block no_block ids = ids
  listed_opt_block (some_block b) ids = listed_block b ids

  pub listed_stmts : Stmts → List ℕ → List ℕ
  listed_stmts no_stmts ids = ids
  listed_stmts (stmt_cons s ss) ids = listed_stmts ss (listed_stmt s ids)

  pub listed_declare : DeclStmt → List ℕ → List ℕ
  listed_declare (declare n d) ids = n.id ∷ listed_decl d ids

  pub listed_opt_declare : OptDeclStmt → List ℕ → List ℕ
  listed_opt_declare no_decl_stmt ids = ids
  listed_opt_declare (some_decl_stmt d) ids = listed_declare d ids

  pub listed_decl : Decl → List ℕ → List ℕ
  listed_decl (var_decl h e) ids = listed_opt_type h.type (h.node.id ∷ listed_opt_expr e ids)
  listed_decl (type_decl h) ids = h.node.id ∷ listed_opt_type h.type ids
  listed_decl (use_decl h) ids = h.node.id ∷ listed_opt_type h.type ids
  listed_decl (impl_decl h fs) ids = h.node.id ∷ listed_funcs fs (listed_opt_type h.type ids)
  listed_decl (func_decl f) ids = listed_func f ids
  listed_decl (param_decl p) ids = listed_param p ids

  pub listed_func : Func → List ℕ → List ℕ
  listed_func (func h ps b) ids =
      h.node.id ∷ listed_opt_block b (listed_signature h.type (listed_params ps ids))

  pub listed_funcs : Funcs → List ℕ → List ℕ
  listed_funcs no_funcs ids = ids
  listed_funcs (func_cons f fs) ids = listed_funcs fs (listed_func f ids)

  pub listed_param : Param → List ℕ → List ℕ
  listed_param (param h e) ids = h.node.id ∷ listed_opt_type h.type (listed_opt_expr e ids)

  pub listed_params : Params → List ℕ → List ℕ
  listed_params no_params ids = ids
  listed_params (param_cons p ps) ids = listed_params ps (listed_param p ids)

unfoldable pub listed_package : Option DeclHead → List ℕ → List ℕ
listed_package none ids = ids
listed_package (some h) ids = h.node.id ∷ ids

unfoldable pub listed_imports : List ImportDecl → List ℕ → List ℕ
listed_imports [] ids = ids
listed_imports (x ∷ xs) ids = listed_imports xs (x.head.node.id ∷ ids)

unfoldable pub listed_exports : List ExportedDecl → List ℕ → List ℕ
unfolding listed_decl
listed_exports [] ids = ids
listed_exports (x ∷ xs) ids = listed_exports xs (x.node.id ∷ listed_decl x.exported ids)

unfoldable pub listed_program : ProgramDecl → List ℕ → List ℕ
unfolding listed_package listed_imports listed_exports
listed_program p ids =
    p.node.id
    ∷ listed_exports p.decls (listed_imports p.imports (listed_package p.package_decl ids))
