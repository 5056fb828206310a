-- ===== src/Passes/TypeCheck.antt =====
-- compiler/lib/Sema/TypeCheck.cpp: variables and parameters are checked against their initialisers and
-- put into their scope, and literals are given their types.
pub mod Hints
pub mod Literals
use supreme_doodle.Common.{
  ℕ, zero, suc, Bool, true, false, Option, none, some, List, [], ◌∷◌, length, if◌then◌else◌,
}
use supreme_doodle.Location.{SourceLocation}
use supreme_doodle.Types.{
  NativeType, i1, i8, i16, i32, i64, f32, f64, string, QualType, unknown, is_unknown, opt_ptr_eq,
  get_builtin_type, as_builtin,
}
use supreme_doodle.Ast.{
  Node, Number, node_of, DeclHead, Decl, head_of, param_decl, param_head, ProgramDecl,
}
use supreme_doodle.Basic.{
  located, unlocated, error, note, redefinition, previously_declared, bad_initializer,
  no_initializer, float_to_integer, non_numeric,
}
use supreme_doodle.Sema.{
  Exec, done, assertion, pure, fail, ◌>>=◌, ◌>>◌, emit, get_type, get_decls, insert_decl,
  set_expr_type,
}
use supreme_doodle.Visitor.{Visitor, default_types, default_visitor}
use supreme_doodle.Visitor.Tree.{visit_program}

-- `pushTypeHint`: the hint is pushed, and the guard holds the number of hints before.
unfoldable pub push_type_hint : QualType → Exec ℕ
push_type_hint t s = done (length s.hints) (record s { hints = t ∷ s.hints })

-- `pop_back_n` of a stack, its last element first; `none` is its assertion that it has as many elements
abbrev pub pop_back_n : {A : Type 0} → ℕ → List A → Option (List A)
pop_back_n zero xs = some xs
pop_back_n (suc n) [] = none
pop_back_n (suc n) (x ∷ xs) = pop_back_n n xs

-- `~HintCtxExit`: as many hints as the guard holds are popped.
unfoldable pub pop_type_hints : ℕ → Exec (Unit {0})
pop_type_hints n s = elim (pop_back_n n s.hints) [
  | none ↦ fail assertion s
  | some hs ↦ done tt (record s { hints = hs })
]

-- `HintStack.back()`, with its assertion that there is one
unfoldable pub last_hint : Exec QualType
last_hint s = elim s.hints [ [] ↦ fail assertion s | t ∷ _ ↦ done t s ]

-- The second `setSourceLocation` is on the error, and not on the note.
unfoldable pub check_redeclaration : DeclHead → ℕ → Exec Bool
check_redeclaration h ls = get_decls ls h.name >>= λ ds. elim ds [
  | [] ↦ pure true
  | first ∷ _ ↦
      emit (located error (redefinition h.name) (head_of first).decl_loc)
      >> emit (unlocated note previously_declared)
      >> pure false
]

-- the comparison of the type with the initialiser's
unfoldable pub check_initializer : SourceLocation → QualType → QualType → Exec QualType
check_initializer loc decl_ty init_ty =
    let t = if is_unknown decl_ty then init_ty else decl_ty in
    if opt_ptr_eq t.ty init_ty.ty
    then pure t
    else emit (located error (bad_initializer t init_ty) loc) >> pure unknown

-- `checkAndDeduceVarInit`
unfoldable pub deduce_var_init : SourceLocation → QualType → Option (Exec QualType) → Exec QualType
unfolding push_type_hint pop_type_hints check_initializer
deduce_var_init loc decl_ty none =
    if is_unknown decl_ty
    then fail assertion
    else push_type_hint decl_ty >>= λ n. pop_type_hints n >> pure decl_ty
deduce_var_init loc decl_ty (some visit) = push_type_hint decl_ty >>= λ n.
    visit >>= λ init_ty. check_initializer loc decl_ty init_ty >>= λ t. pop_type_hints n >> pure t

-- the declared type's type, `none` where it is unknown; without one the type is still unknown
unfoldable pub declared_hint : DeclHead → Exec (Option QualType)
declared_hint h = elim h.type [
  | none ↦ pure (some unknown)
  | some t ↦ get_type (node_of t).id >>= λ q. pure (if is_unknown q then none else some q)
]

-- what follows the redeclaration test in `visit(VarDecl *)` and `visit(FuncParamDecl *)`
unfoldable pub declare_variable : Decl → DeclHead → ℕ → Option (Exec QualType) → Exec QualType
unfolding declared_hint deduce_var_init
declare_variable self h ls init = declared_hint h >>= λ hint. elim hint [
  | none ↦ pure unknown
  | some q ↦ deduce_var_init h.decl_loc q init >>= λ t. insert_decl ls h.name self >> pure t
]

abbrev pub is_none {ℓ} : {A : Type ℓ} → Option A → Bool
is_none none = true
is_none (some a) = false

-- `visit(VarDecl *)`, and `visit(FuncParamDecl *)`, which has the same statements
unfoldable pub check_variable : Decl → DeclHead → ℕ → Option (Exec QualType) → Exec QualType
unfolding check_redeclaration declare_variable
check_variable self h ls init = check_redeclaration h ls >>= λ free. elim free [
  | false ↦ pure unknown
  | true ↦ elim (is_none init) [
    | false ↦ declare_variable self h ls init
    | true ↦ elim (is_none h.type) [
      | false ↦ declare_variable self h ls init
      | true ↦ emit (located error no_initializer h.decl_loc) >> pure unknown
    ]
  ]
]

-- an error at the literal, and no type
abbrev pub reject_literal : Node → NativeType → Exec QualType
reject_literal n t = emit (located error (float_to_integer t) n.loc) >> pure unknown

abbrev pub reject_non_numeric : Node → Exec QualType
reject_non_numeric n = emit (located error non_numeric n.loc) >> pure unknown

-- `deduceNumericType` where the literal has a fraction
unfoldable pub deduce_float : Node → NativeType → Exec QualType
deduce_float n i1 = reject_literal n i1
deduce_float n i8 = reject_literal n i8
deduce_float n i16 = reject_literal n i16
deduce_float n i32 = reject_literal n i32
deduce_float n i64 = reject_literal n i64
deduce_float n f32 = pure (get_builtin_type f32)
deduce_float n f64 = pure (get_builtin_type f64)
deduce_float n string = reject_non_numeric n

-- `deduceNumericType` where the literal is an integer
unfoldable pub deduce_integer : Node → NativeType → Exec QualType
deduce_integer n i1 = pure (get_builtin_type i1)
deduce_integer n i8 = pure (get_builtin_type i1)
deduce_integer n i16 = pure (get_builtin_type i16)
deduce_integer n i32 = pure (get_builtin_type i32)
deduce_integer n i64 = pure (get_builtin_type i64)
deduce_integer n f32 = pure (get_builtin_type f32)
deduce_integer n f64 = pure (get_builtin_type f64)
deduce_integer n string = reject_non_numeric n

unfoldable pub deduce_numeric_type : Node → Number → NativeType → Exec QualType
unfolding deduce_float deduce_integer
deduce_numeric_type n x t = if x.is_integer then deduce_integer n t else deduce_float n t

-- the type of a number under a hint
unfoldable pub type_number : Node → Number → QualType → Exec QualType
unfolding deduce_numeric_type
type_number n x hint =
    if is_unknown hint
    then pure (get_builtin_type (if x.is_integer then i64 else f64))
    else elim (as_builtin hint) [ none ↦ pure unknown | some t ↦ deduce_numeric_type n x t ]

-- `Node->setExprType(T); return T;`
unfoldable pub assign_expr_type : Node → QualType → Exec QualType
assign_expr_type n t = set_expr_type n.id t >> pure t

unfoldable pub check_number : Node → Number → Exec QualType
unfolding last_hint type_number assign_expr_type
check_number n x = last_hint >>= λ hint. type_number n x hint >>= assign_expr_type n

unfoldable pub type_check : Visitor QualType
unfolding check_variable check_number assign_expr_type default_visitor default_types
type_check = record (default_visitor unknown (default_types unknown)) {
  on_var = λ self h ls type init. check_variable self h ls init;
  on_type_decl = λ self h ls type. pure unknown;
  on_use_decl = λ self h ls type. pure unknown;
  on_param = λ p ls type value. check_variable (param_decl p) (param_head p) ls value;
  on_bool = λ n. assign_expr_type n (get_builtin_type i1);
  on_char = λ n. assign_expr_type n (get_builtin_type i8);
  on_num = check_number;
  on_string = λ n. assign_expr_type n (get_builtin_type string);
}

-- A new `TypeCheckImpl` starts with no hints.
unfoldable pub run_type_check : ProgramDecl → Exec QualType
unfolding type_check
run_type_check p s = visit_program type_check p (record s { hints = [] })
