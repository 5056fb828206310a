-- ===== src/Visitor/Contract/Walk.antt =====
-- compiler/include/rxc/Sema/RecursiveASTVisitor.h: contracts of the visits of expressions, statements,
-- declarations and programs, from contracts of the members.
use supreme_doodle.Common.{ℕ, Option, none, some, List, [], ◌∷◌, map}
use supreme_doodle.Ast.{
  Node, Number, DeclHead, Expr, OptExpr, Exprs, ObjectFields, Stmt, Block, OptBlock, Stmts,
  DeclStmt, OptDeclStmt, Decl, Func, Funcs, Param, Params, ExportedDecl, ProgramDecl, call_expr,
  access_expr, index_expr, assign_expr, decl_ref_expr, if_expr, object_literal, bool_literal,
  char_literal, num_literal, string_literal, binary_expr, unary_expr, no_expr, some_expr, no_exprs,
  expr_cons, no_object_fields, object_field, block_stmt, return_stmt, decl_stmt, expr_stmt,
  for_stmt, block, no_block, some_block, no_stmts, stmt_cons, declare, no_decl_stmt, some_decl_stmt,
  var_decl, type_decl, use_decl, impl_decl, func_decl, param_decl, func, no_funcs, func_cons, param,
  no_params, param_cons,
}
use supreme_doodle.Scopes.{function_scope, block_scope, impl_scope}
use supreme_doodle.Sema.{Exec}
use supreme_doodle.Visitor.{
  TypeVisitor, Visitor, default_visitor, visit_all, visit_if, visit_child, visit_of, enter_program,
}
use supreme_doodle.Visitor.Tree.{
  visit_declared, visit_for, visit_expr, visit_opt_expr, visit_exprs, visit_object_fields,
  visit_stmt, visit_block, visit_opt_block, visit_stmts, visit_decl_stmt, visit_opt_decl_stmt,
  visit_decl, visit_func, visit_funcs, visit_param, visit_params, visit_exports, visit_program,
}
use supreme_doodle.Visitor.Contract.{
  Contract, Meets, AllMeet, OptMeets, Meets-pure, Meets-bind, Meets-then, Meets-enter,
  Meets-enter_program, Meets-all, Meets-if, Meets-child, Meets-required,
}
use supreme_doodle.Visitor.Contract.Types.{TypesMeet, Any, visit-Any-Meets}

module _ (c : Contract) {T : Type 0} (Q : T → Type 0) (ls : ℕ) where
  abbrev pub FuncsMeet : List (Func × Exec T) → Type 0
  FuncsMeet [] = Unit
  FuncsMeet ((f, m) ∷ fs) = Meets c ls Q m × FuncsMeet fs

  funcs_meet : (fs : List (Func × Exec T)) → FuncsMeet fs → AllMeet c Q ls (map visit_of fs)
  funcs_meet [] h = tt
  funcs_meet ((f, m) ∷ fs) (h, hs) = (h, funcs_meet fs hs)

  for-Meets :
      (d : T) (header condition post : Option (Exec T)) (body : Exec T)
      → Q d
      → OptMeets c Q ls header
      → OptMeets c Q ls post
      → Meets c ls Q body
      → Meets c ls Q (visit_for d header condition post body)
  unfolding visit_for
  for-Meets d header none post body q h p b =
      Meets-then c
        (Meets-then c (Meets-then c (Meets-if c Q ls d header q h) (Meets-pure c {Q = Q} d q))
          (Meets-if c Q ls d post q p))
        b
  for-Meets d header (some m) post body q h p b =
      Meets-then c
        (Meets-then c (Meets-then c (Meets-if c Q ls d header q h) (Meets-child c Q ls post p))
          (Meets-if c Q ls d post q p))
        b

-- The members keep the contract where their children do.
pub record VisitorMeets (c : Contract) {T : Type 0} (Q : T → Type 0) (v : Visitor T) : Type 0 where
  pub default_result : Q v.default_result
  pub types : TypesMeet c Q Any v.types
  pub var :
      (ls : ℕ) (self : Decl) (h : DeclHead) (type init : Option (Exec T))
      → OptMeets c Q ls type
      → OptMeets c Q ls init
      → Meets c ls Q (v.on_var self h ls type init)
  pub type_decl :
      (ls : ℕ) (self : Decl) (h : DeclHead) (type : Option (Exec T))
      → OptMeets c Q ls type
      → Meets c ls Q (v.on_type_decl self h ls type)
  pub use_decl :
      (ls : ℕ) (self : Decl) (h : DeclHead) (type : Option (Exec T))
      → OptMeets c Q ls type
      → Meets c ls Q (v.on_use_decl self h ls type)
  pub impl :
      (ls : ℕ) (h : DeclHead) (type : Option (Exec T)) (fs : List (Func × Exec T))
      → OptMeets c Q ls type
      → FuncsMeet c Q ls fs
      → Meets c ls Q (v.on_impl h ls type fs)
  pub func :
      (ls : ℕ) (f : Func) (params : List (Exec T)) (type body : Option (Exec T))
      → AllMeet c Q ls params
      → OptMeets c Q ls type
      → OptMeets c Q ls body
      → Meets c ls Q (v.on_func f ls params type body)
  pub param :
      (ls : ℕ) (p : Param) (type value : Option (Exec T))
      → OptMeets c Q ls type
      → OptMeets c Q ls value
      → Meets c ls Q (v.on_param p ls type value)
  pub block :
      (ls : ℕ) (stmts : List (Exec T)) → AllMeet c Q ls stmts → Meets c ls Q (v.on_block ls stmts)
  pub bool : (ls : ℕ) (n : Node) → Meets c ls Q (v.on_bool n)
  pub char : (ls : ℕ) (n : Node) → Meets c ls Q (v.on_char n)
  pub num : (ls : ℕ) (n : Node) (x : Number) → Meets c ls Q (v.on_num n x)
  pub string : (ls : ℕ) (n : Node) → Meets c ls Q (v.on_string n)

module _ (c : Contract) {T : Type 0} (Q : T → Type 0) (v : Visitor T) (h : VisitorMeets c Q v) where
  declared-OptMeets : (d : DeclHead) (ls : ℕ) → OptMeets c Q ls (visit_declared v d ls)
  unfolding visit_declared
  declared-OptMeets d ls =
      elim d.type
        as (λ o. OptMeets c Q ls (elim o [
          | none ↦ none
          | some t ↦ some (supreme_doodle.Visitor.visit_type v.types t ls)
        ])) [ none ↦ tt | some t ↦ visit-Any-Meets c Q v.types h.types t ls ]

  mutual
    unfolding visit_expr

    expr-Meets : (e : Expr) (ls : ℕ) → Meets c ls Q (visit_expr v e ls)
    expr-Meets (call_expr n f es) ls =
        Meets-then c (Meets-all c Q ls v.default_result _ h.default_result (exprs_meet es ls))
          (expr-Meets f ls)
    expr-Meets (access_expr n e k) ls = expr-Meets e ls
    expr-Meets (index_expr n e i) ls = Meets-then c (expr-Meets i ls) (expr-Meets e ls)
    expr-Meets (assign_expr n l r) ls = Meets-then c (expr-Meets l ls) (expr-Meets r ls)
    expr-Meets (decl_ref_expr n k) ls = Meets-pure c v.default_result h.default_result
    expr-Meets (if_expr n e b o) ls =
        Meets-bind c (Meets-then c (expr-Meets e ls) (block-Meets b ls))
          (λ t q. Meets-if c Q ls t _ q (opt_block-OptMeets o ls))
    expr-Meets (object_literal n fs) ls =
        Meets-all c Q ls v.default_result _ h.default_result (object_fields_meet fs ls)
    expr-Meets (bool_literal n b) ls = h.bool ls n
    expr-Meets (char_literal n x) ls = h.char ls n
    expr-Meets (num_literal n x) ls = h.num ls n x
    expr-Meets (string_literal n k) ls = h.string ls n
    expr-Meets (binary_expr n op l r) ls = Meets-then c (expr-Meets l ls) (expr-Meets r ls)
    expr-Meets (unary_expr n op e) ls = expr-Meets e ls

    opt_expr-OptMeets : (e : OptExpr) (ls : ℕ) → OptMeets c Q ls (visit_opt_expr v e ls)
    opt_expr-OptMeets no_expr ls = tt
    opt_expr-OptMeets (some_expr e) ls = expr-Meets e ls

    exprs_meet : (es : Exprs) (ls : ℕ) → AllMeet c Q ls (visit_exprs v es ls)
    exprs_meet no_exprs ls = tt
    exprs_meet (expr_cons e es) ls = (expr-Meets e ls, exprs_meet es ls)

    object_fields_meet : (fs : ObjectFields) (ls : ℕ) → AllMeet c Q ls (visit_object_fields v fs ls)
    object_fields_meet no_object_fields ls = tt
    object_fields_meet (object_field k e fs) ls = (expr-Meets e ls, object_fields_meet fs ls)

    stmt-Meets : (s : Stmt) (ls : ℕ) → Meets c ls Q (visit_stmt v s ls)
    stmt-Meets (block_stmt b) ls = block-Meets b ls
    stmt-Meets (return_stmt n e) ls = Meets-child c Q ls _ (opt_expr-OptMeets e ls)
    stmt-Meets (decl_stmt d) ls = decl_stmt-Meets d ls
    stmt-Meets (expr_stmt n e) ls = expr-Meets e ls
    stmt-Meets (for_stmt n d e p b) ls =
        for-Meets c Q ls v.default_result _ _ _ _ h.default_result (opt_decl_stmt-OptMeets d ls)
          (opt_expr-OptMeets p ls) (block-Meets b ls)

    block-Meets : (b : Block) (ls : ℕ) → Meets c ls Q (visit_block v b ls)
    block-Meets (block n ss) ls =
        Meets-enter c block_scope n.id (λ i. h.block i _ (stmts_meet ss i))

    opt_block-OptMeets : (b : OptBlock) (ls : ℕ) → OptMeets c Q ls (visit_opt_block v b ls)
    opt_block-OptMeets no_block ls = tt
    opt_block-OptMeets (some_block b) ls = block-Meets b ls

    stmts_meet : (ss : Stmts) (ls : ℕ) → AllMeet c Q ls (visit_stmts v ss ls)
    stmts_meet no_stmts ls = tt
    stmts_meet (stmt_cons s ss) ls = (stmt-Meets s ls, stmts_meet ss ls)

    decl_stmt-Meets : (d : DeclStmt) (ls : ℕ) → Meets c ls Q (visit_decl_stmt v d ls)
    decl_stmt-Meets (declare n d) ls = decl-Meets d ls

    opt_decl_stmt-OptMeets :
        (d : OptDeclStmt) (ls : ℕ) → OptMeets c Q ls (visit_opt_decl_stmt v d ls)
    opt_decl_stmt-OptMeets no_decl_stmt ls = tt
    opt_decl_stmt-OptMeets (some_decl_stmt d) ls = decl_stmt-Meets d ls

    decl-Meets : (d : Decl) (ls : ℕ) → Meets c ls Q (visit_decl v d ls)
    decl-Meets (var_decl d e) ls =
        h.var ls (var_decl d e) d _ _ (declared-OptMeets d ls) (opt_expr-OptMeets e ls)
    decl-Meets (type_decl d) ls = h.type_decl ls (type_decl d) d _ (declared-OptMeets d ls)
    decl-Meets (use_decl d) ls = h.use_decl ls (use_decl d) d _ (declared-OptMeets d ls)
    decl-Meets (impl_decl d fs) ls =
        Meets-enter c impl_scope d.node.id
          (λ i. h.impl i d _ _ (declared-OptMeets d i) (funcs_meets fs i))
    decl-Meets (func_decl f) ls = func-Meets f ls
    decl-Meets (param_decl p) ls = param-Meets p ls

    func-Meets : (f : Func) (ls : ℕ) → Meets c ls Q (visit_func v f ls)
    func-Meets (func d ps b) ls = Meets-enter c function_scope d.node.id (λ i.
        h.func i (func d ps b) _ _ _ (params_meet ps i) (declared-OptMeets d i)
          (opt_block-OptMeets b i))

    funcs_meets : (fs : Funcs) (ls : ℕ) → FuncsMeet c Q ls (visit_funcs v fs ls)
    funcs_meets no_funcs ls = tt
    funcs_meets (func_cons f fs) ls = (func-Meets f ls, funcs_meets fs ls)

    param-Meets : (p : Param) (ls : ℕ) → Meets c ls Q (visit_param v p ls)
    param-Meets (param d e) ls =
        h.param ls (param d e) _ _ (declared-OptMeets d ls) (opt_expr-OptMeets e ls)

    params_meet : (ps : Params) (ls : ℕ) → AllMeet c Q ls (visit_params v ps ls)
    params_meet no_params ls = tt
    params_meet (param_cons p ps) ls = (param-Meets p ls, params_meet ps ls)

  exports_meet : (ds : List ExportedDecl) (ls : ℕ) → AllMeet c Q ls (visit_exports v ds ls)
  unfolding visit_exports
  exports_meet [] ls = tt
  exports_meet (d ∷ ds) ls = (decl-Meets d.exported ls, exports_meet ds ls)

  -- The visit of a whole program, from any state with the invariant whose scope 0 is valid.
  pub visit_program-Meets : (p : ProgramDecl) → Meets c 0 Q (visit_program v p)
  unfolding visit_program
  visit_program-Meets p =
      Meets-enter_program c p.node.id
        (λ i. Meets-all c Q i v.default_result _ h.default_result (exports_meet p.decls i))

-- The default members keep every contract that admits the default result.
pub default_visitor-Meets :
    (c : Contract) {T : Type 0} (Q : T → Type 0) (d : T) (ts : TypeVisitor T)
    → Q d
    → TypesMeet c Q Any ts
    → VisitorMeets c Q (default_visitor d ts)
unfolding default_visitor
default_visitor-Meets c Q d ts q h = record {
  default_result = q;
  types = h;
  var = λ ls self hd type init ht hi.
      Meets-bind c (Meets-if c Q ls d type q ht) (λ t r. Meets-if c Q ls t init r hi);
  type_decl = λ ls self hd type ht. Meets-required c Q ls type ht;
  use_decl = λ ls self hd type ht. Meets-required c Q ls type ht;
  impl = λ ls hd type fs ht hs.
      Meets-bind c (Meets-required c Q ls type ht)
        (λ t r. Meets-all c Q ls t (map visit_of fs) r (funcs_meet c Q ls fs hs));
  func = λ ls f params type body hp ht hb.
      Meets-bind c (Meets-then c (Meets-all c Q ls d params q hp) (Meets-child c Q ls type ht))
        (λ t r. Meets-if c Q ls t body r hb);
  param = λ ls p type value ht hv.
      Meets-bind c (Meets-child c Q ls type ht) (λ t r. Meets-if c Q ls t value r hv);
  block = λ ls stmts hs. Meets-all c Q ls d stmts q hs;
  bool = λ ls n. Meets-pure c d q;
  char = λ ls n. Meets-pure c d q;
  num = λ ls n x. Meets-pure c d q;
  string = λ ls n. Meets-pure c d q;
}
