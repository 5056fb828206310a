-- ===== src/Ast.antt =====
-- compiler/include/rxc/AST/AST.h: the syntax tree. Each node has an identity, which stands for its
-- address. The fields that later passes write (`Type`, `DeclNode`, `Scope`, `ExprType`, `Ref`) are kept
-- in tables of the analysis state, by identity; what the constructors fix stands here.
pub mod Names
pub mod Listed
use supreme_doodle.Common.{ℕ, Bool, Option, List, String}
use supreme_doodle.Location.{SourceLocation}

-- `ASTNode`: the identity and the source range
pub record Node : Type 0 where
  pub id : ℕ
  pub loc : SourceLocation

pub data Visibility : Type 0 where
  public private : Visibility

pub data AstNativeType : Type 0 where
  void i1 i8 i32 i64 f32 f64 string unknown : AstNativeType

-- A member of an `enum` may lack its type (`nullptr`); the fields of an object type all have one.
mutual
  pub data AstType : Type 0 where
    builtin_type : Node → AstNativeType → AstType
    decl_type_ref : Node → String → AstType
    access_type : Node → String → AstType → AstType
    qual_type : Node → AstType → AstType
    pointer_type : Node → AstType → Bool → AstType
    array_type : Node → AstType → AstType
    function_type : Node → AstTypes → AstType → AstType
    object_type : Node → AstFields → AstType
    enum_type : Node → AstMembers → AstType

  pub data AstTypes : Type 0 where
    no_types : AstTypes
    type_cons : AstType → AstTypes → AstTypes

  pub data AstFields : Type 0 where
    no_fields : AstFields
    field : String → AstType → AstFields → AstFields

  pub data AstMembers : Type 0 where
    no_members : AstMembers
    member : String → AstType → AstMembers → AstMembers
    bare_member : String → AstMembers → AstMembers

abbrev pub node_of : AstType → Node
node_of (builtin_type n t) = n
node_of (decl_type_ref n s) = n
node_of (access_type n s t) = n
node_of (qual_type n t) = n
node_of (pointer_type n t b) = n
node_of (array_type n t) = n
node_of (function_type n ps r) = n
node_of (object_type n fs) = n
node_of (enum_type n ms) = n

-- The members of `Decl`: its node, where it is declared, its name and its declared type, if any.
pub record DeclHead : Type 0 where
  pub node : Node
  pub decl_loc : SourceLocation
  pub name : String
  pub type : Option AstType

pub data BinaryOp : Type 0 where
  mult div add sub less greater less_than_equal greater_than_equal : BinaryOp
  cmp_equal cmp_not_equal equal : BinaryOp

pub data UnaryOp : Type 0 where
  negative not ref : UnaryOp

-- `is_integer` is `Value.isInteger()` of the literal's `APFloat`; `text` is its source text.
pub record Number : Type 0 where
  pub text : String
  pub is_integer : Bool

mutual
  pub data Expr : Type 0 where
    call_expr : Node → Expr → Exprs → Expr
    access_expr : Node → Expr → String → Expr
    index_expr : Node → Expr → Expr → Expr
    assign_expr : Node → Expr → Expr → Expr
    decl_ref_expr : Node → String → Expr
    if_expr : Node → Expr → Block → OptBlock → Expr
    object_literal : Node → ObjectFields → Expr
    bool_literal : Node → Bool → Expr
    char_literal : Node → ℕ → Expr
    num_literal : Node → Number → Expr
    string_literal : Node → String → Expr
    binary_expr : Node → BinaryOp → Expr → Expr → Expr
    unary_expr : Node → UnaryOp → Expr → Expr

  pub data OptExpr : Type 0 where
    no_expr : OptExpr
    some_expr : Expr → OptExpr

  pub data Exprs : Type 0 where
    no_exprs : Exprs
    expr_cons : Expr → Exprs → Exprs

  pub data ObjectFields : Type 0 where
    no_object_fields : ObjectFields
    object_field : String → Expr → ObjectFields → ObjectFields

  pub data Stmt : Type 0 where
    block_stmt : Block → Stmt
    return_stmt : Node → OptExpr → Stmt
    decl_stmt : DeclStmt → Stmt
    expr_stmt : Node → Expr → Stmt
    for_stmt : Node → OptDeclStmt → OptExpr → OptExpr → Block → Stmt

  -- `BlockStmt`
  pub data Block : Type 0 where
    block : Node → Stmts → Block

  pub data OptBlock : Type 0 where
    no_block : OptBlock
    some_block : Block → OptBlock

  pub data Stmts : Type 0 where
    no_stmts : Stmts
    stmt_cons : Stmt → Stmts → Stmts

  pub data DeclStmt : Type 0 where
    declare : Node → Decl → DeclStmt

  pub data OptDeclStmt : Type 0 where
    no_decl_stmt : OptDeclStmt
    some_decl_stmt : DeclStmt → OptDeclStmt

  -- The declarations that a program exports, that a statement declares, or that a scope holds.
  pub data Decl : Type 0 where
    var_decl : DeclHead → OptExpr → Decl
    type_decl : DeclHead → Decl
    use_decl : DeclHead → Decl
    impl_decl : DeclHead → Funcs → Decl
    func_decl : Func → Decl
    param_decl : Param → Decl

  -- `FuncDecl`
  pub data Func : Type 0 where
    func : DeclHead → Params → OptBlock → Func

  pub data Funcs : Type 0 where
    no_funcs : Funcs
    func_cons : Func → Funcs → Funcs

  -- `FuncParamDecl`
  pub data Param : Type 0 where
    param : DeclHead → OptExpr → Param

  pub data Params : Type 0 where
    no_params : Params
    param_cons : Param → Params → Params

abbrev pub func_head : Func → DeclHead
func_head (func h ps b) = h

abbrev pub param_head : Param → DeclHead
param_head (param h e) = h

abbrev pub head_of : Decl → DeclHead
head_of (var_decl h e) = h
head_of (type_decl h) = h
head_of (use_decl h) = h
head_of (impl_decl h fs) = h
head_of (func_decl f) = func_head f
head_of (param_decl p) = param_head p

-- `Decl *` has pointer identity
abbrev pub decl_id : Decl → ℕ
decl_id d = (head_of d).node.id

pub record ExportedDecl : Type 0 where
  pub node : Node
  pub decl_loc : SourceLocation
  pub exported : Decl
  pub visibility : Visibility

pub data ImportType : Type 0 where
  file module_import : ImportType

pub record ImportDecl : Type 0 where
  pub head : DeclHead
  pub kind : ImportType
  pub alias : Option String

pub record ProgramDecl : Type 0 where
  pub node : Node
  pub package_decl : Option DeclHead
  pub imports : List ImportDecl
  pub decls : List ExportedDecl
