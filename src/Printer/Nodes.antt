-- ===== src/Printer/Nodes.antt =====
-- compiler/lib/AST/ASTPrinter.cpp: the members of the visitor, one for each kind of node.
use supreme_doodle.Common.{
  Bool, true, false, ◌&&◌, Option, none, some, List, [], ◌∷◌, String, ◌<>◌, if◌then◌else◌,
}
use supreme_doodle.Ast.{
  Node, DeclHead, Expr, OptExpr, Exprs, ObjectFields, Stmt, Block, OptBlock, Stmts, DeclStmt,
  OptDeclStmt, Decl, Func, Funcs, Param, Params, call_expr, access_expr, index_expr, assign_expr,
  decl_ref_expr, if_expr, object_literal, bool_literal, char_literal, num_literal, string_literal,
  binary_expr, unary_expr, no_expr, some_expr, no_exprs, expr_cons, no_object_fields, object_field,
  block_stmt, return_stmt, decl_stmt, expr_stmt, for_stmt, block, no_block, some_block, no_stmts,
  stmt_cons, declare, no_decl_stmt, some_decl_stmt, var_decl, type_decl, use_decl, impl_decl,
  func_decl, param_decl, func, no_funcs, func_cons, param, no_params, param_cons, ExportedDecl,
  ImportDecl, ProgramDecl, public, private, file, module_import,
}
use supreme_doodle.Printer.{
  Shown, nothing, text, letter, number, Label, Outline, Children, entry, loop, broken, no_children,
  child,
}

abbrev plain : String → Node → Shown → Label
plain k n x = record { name = k; node = n; decl = none; shown = x }

abbrev named : String → DeclHead → Shown → Label
named k h x = record { name = k; node = h.node; decl = some h; shown = x }

abbrev pub only : Outline → Children
only o = child true o no_children

abbrev pub last_expr : Exprs → Bool
last_expr no_exprs = true
last_expr (expr_cons e es) = false

abbrev pub last_field : ObjectFields → Bool
last_field no_object_fields = true
last_field (object_field k e fs) = false

abbrev pub last_stmt : Stmts → Bool
last_stmt no_stmts = true
last_stmt (stmt_cons s ss) = false

abbrev pub last_func : Funcs → Bool
last_func no_funcs = true
last_func (func_cons f fs) = false

abbrev pub last_param : Params → OptBlock → Bool
last_param no_params no_block = true
last_param ps b = false

abbrev pub no_else : OptBlock → Bool
no_else no_block = true
no_else (some_block b) = false

-- the names between the braces of an object literal
abbrev field_list : ObjectFields → String
field_list no_object_fields = "}"
field_list (object_field k e no_object_fields) = k <> "}"
field_list (object_field k e fs) = (k <> ", ") <> field_list fs

unfoldable mutual
  pub outline_expr : Expr → Outline
  outline_expr (call_expr n e es) =
      entry (plain "CallExpr" n nothing) (child (last_expr es) (outline_expr e) (outline_exprs es))
  outline_expr (access_expr n e k) = entry (plain "AccessExpr" n nothing) (only (outline_expr e))
  outline_expr (index_expr n e x) =
      entry (plain "IndexExpr" n nothing) (child false (outline_expr e) (only (outline_expr x)))
  outline_expr (assign_expr n l r) =
      entry (plain "AssignExpr" n nothing) (child false (outline_expr l) (only (outline_expr r)))
  outline_expr (decl_ref_expr n k) = entry (plain "DeclRefExpr" n nothing) no_children
  outline_expr (if_expr n c b o) =
      entry (plain "IfExpr" n nothing)
        (child false (outline_expr c) (child (no_else o) (outline_block b) (outline_opt_block o)))
  outline_expr (object_literal n fs) =
      entry (plain "ObjectLiteral" n (text ("{" <> field_list fs))) (outline_fields fs)
  outline_expr (bool_literal n b) =
      entry (plain "BoolLiteral" n (text (if b then "True" else "False"))) no_children
  outline_expr (char_literal n c) = entry (plain "CharLiteral" n (letter c)) no_children
  outline_expr (num_literal n v) = entry (plain "NumLiteral" n (number v)) no_children
  outline_expr (string_literal n k) =
      entry (plain "StringLiteral" n (text ((" \"" <> k) <> "\""))) no_children
  outline_expr (binary_expr n o l r) =
      entry (plain "BinaryExpr" n nothing) (child false (outline_expr l) (only (outline_expr r)))
  outline_expr (unary_expr n o e) = entry (plain "UnaryExpr" n nothing) (only (outline_expr e))

  pub outline_opt_expr : OptExpr → Children
  outline_opt_expr no_expr = no_children
  outline_opt_expr (some_expr e) = only (outline_expr e)

  pub outline_exprs : Exprs → Children
  outline_exprs no_exprs = no_children
  outline_exprs (expr_cons e es) = child (last_expr es) (outline_expr e) (outline_exprs es)

  pub outline_fields : ObjectFields → Children
  outline_fields no_object_fields = no_children
  outline_fields (object_field k e fs) = child (last_field fs) (outline_expr e) (outline_fields fs)

  pub outline_stmt : Stmt → Outline
  outline_stmt (block_stmt b) = outline_block b
  outline_stmt (return_stmt n e) = entry (plain "ReturnStmt" n nothing) (outline_opt_expr e)
  outline_stmt (decl_stmt d) = outline_declare d
  outline_stmt (expr_stmt n e) = entry (plain "ExprStmt" n nothing) (only (outline_expr e))
  outline_stmt (for_stmt n d c p b) =
      loop (plain "ForStmt" n nothing) (before_decl d (before_expr c (before_expr p no_children)))
        (outline_block b)

  pub before_decl : OptDeclStmt → Children → Children
  before_decl no_decl_stmt cs = cs
  before_decl (some_decl_stmt d) cs = child false (outline_declare d) cs

  pub before_expr : OptExpr → Children → Children
  before_expr no_expr cs = cs
  before_expr (some_expr e) cs = child false (outline_expr e) cs

  pub outline_block : Block → Outline
  outline_block (block n ss) = entry (plain "BlockStmt" n nothing) (outline_stmts ss)

  pub outline_opt_block : OptBlock → Children
  outline_opt_block no_block = no_children
  outline_opt_block (some_block b) = only (outline_block b)

  pub outline_stmts : Stmts → Children
  outline_stmts no_stmts = no_children
  outline_stmts (stmt_cons s ss) = child (last_stmt ss) (outline_stmt s) (outline_stmts ss)

  pub outline_declare : DeclStmt → Outline
  outline_declare (declare n d) = entry (plain "DeclStmt" n nothing) (only (outline_decl d))

  -- A type or alias declaration must have its type.
  pub outline_decl : Decl → Outline
  outline_decl (var_decl h e) = entry (named "VarDecl" h nothing) (outline_opt_expr e)
  outline_decl (type_decl h) = elim h.type [
    | none ↦ broken
    | some t ↦ entry (named "TypeDecl" h nothing) no_children
  ]
  outline_decl (use_decl h) = elim h.type [
    | none ↦ broken
    | some t ↦ entry (named "UseDecl" h nothing) no_children
  ]
  outline_decl (impl_decl h fs) = entry (named "ImplDecl" h nothing) (outline_funcs fs)
  outline_decl (func_decl f) = outline_func f
  outline_decl (param_decl p) = outline_param p

  pub outline_func : Func → Outline
  outline_func (func h ps b) =
      entry (named "FuncDecl" h nothing) (outline_params ps b (outline_opt_block b))

  pub outline_funcs : Funcs → Children
  outline_funcs no_funcs = no_children
  outline_funcs (func_cons f fs) = child (last_func fs) (outline_func f) (outline_funcs fs)

  pub outline_param : Param → Outline
  outline_param (param h e) = entry (named "FuncParamDecl" h nothing) (outline_opt_expr e)

  -- the parameters, before the body if there is one
  pub outline_params : Params → OptBlock → Children → Children
  outline_params no_params b cs = cs
  outline_params (param_cons p ps) b cs =
      child (last_param ps b) (outline_param p) (outline_params ps b cs)

unfoldable pub outline_import : ImportDecl → Outline
outline_import x =
    entry
      (named "ImportDecl" x.head (
        text (
          ((elim x.kind [ file ↦ "File " | module_import ↦ "Module " ]) <> x.head.name)
          <> (elim x.alias [ none ↦ "" | some a ↦ " alias " <> a ]))))
      no_children

abbrev head_at : String → ExportedDecl → DeclHead
head_at k x = record { node = x.node; decl_loc = x.decl_loc; name = k; type = none }

unfoldable pub outline_export : ExportedDecl → Outline
unfolding outline_decl
outline_export x =
    entry
      (named "ExportedDecl" (head_at "" x)
        (text (elim x.visibility [ public ↦ "Public" | private ↦ "Private" ])))
      (only (outline_decl x.exported))

abbrev pub is_empty : {A : Type 0} → List A → Bool
is_empty [] = true
is_empty (x ∷ xs) = false

unfoldable pub outline_exports : List ExportedDecl → Children
unfolding outline_export
outline_exports [] = no_children
outline_exports (x ∷ xs) = child (is_empty xs) (outline_export x) (outline_exports xs)

unfoldable pub outline_imports : List ImportDecl → List ExportedDecl → Children
unfolding outline_import outline_exports
outline_imports [] ds = outline_exports ds
outline_imports (x ∷ xs) ds =
    child (is_empty xs && is_empty ds) (outline_import x) (outline_imports xs ds)

unfoldable pub outline_package : Option DeclHead → List ImportDecl → List ExportedDecl → Children
unfolding outline_imports
outline_package none is ds = outline_imports is ds
outline_package (some h) is ds =
    child (is_empty ds && is_empty is) (entry (named "PackageDecl" h (text h.name)) no_children)
      (outline_imports is ds)

-- A program's declaration is named after what it is.
abbrev program_head : ProgramDecl → DeclHead
program_head p = record { node = p.node; decl_loc = p.node.loc; name = "Program"; type = none }

unfoldable pub outline_program : ProgramDecl → Outline
unfolding outline_package
outline_program p =
    entry (named "ProgramDecl" (program_head p) nothing)
      (outline_package p.package_decl p.imports p.decls)
