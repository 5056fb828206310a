-- ===== src/Sema.antt =====
-- The state that the analysis passes share, and the actions on it. A pass mutates the lexical context,
-- the type context and the fields of the syntax tree, emits diagnostics, and may fail an assertion.

use supreme_doodle.Common.{
  ℕ, Option, none, some, List, [], ◌∷◌, ◌++◌, String, ◌==◌, get_elem?, set, if◌then◌else◌,
}
use supreme_doodle.Types.{QualType, TypeContext}
use supreme_doodle.Ast.{Decl}
use supreme_doodle.Basic.{Diagnostic}
use supreme_doodle.Scopes.{LexicalContext, scope_insert, scope_decls, find, Found}

-- `node_scope`, `node_type`, `node_decl` and `expr_type` are the fields `Scope` of a `ScopedASTNode`,
-- `Type` of an `AstType`, `DeclNode` of an `ASTDeclTypeRef` and `ExprType` of an `Expression`. The
-- constructor leaves `DeclNode` uninitialised, so its first values are whatever the state has there.
-- `hints` is the `HintStack` of the type checker, its last element first.
pub record Sema : Type 0 where
  pub diags : List Diagnostic
  pub scopes : LexicalContext
  pub types : TypeContext
  pub node_scope : ℕ → Option ℕ
  pub node_type : ℕ → QualType
  pub node_decl : ℕ → Option Decl
  pub expr_type : ℕ → QualType
  pub hints : List QualType

-- `assertion`: an `assert` of the source or of a container that it uses fails; `null_deref`: a member is
-- called through a null pointer; `unreachable`: `llvm_unreachable`; `dangling`: no such scope.
pub data Fault : Type 0 where
  assertion null_deref unreachable dangling : Fault

pub data Outcome (A : Type 0) : Type 0 where
  done : A → Sema → Outcome A
  fault : Fault → Outcome A
  out_of_fuel : Outcome A

abbrev pub Exec : Type 0 → Type 0
Exec A = Sema → Outcome A

abbrev pub pure : {A : Type 0} → A → Exec A
pure a s = done a s

abbrev pub fail : {A : Type 0} → Fault → Exec A
fail f s = fault f

module _ {A B : Type 0} where
  abbrev pub and_then : Outcome A → (A → Exec B) → Outcome B
  and_then (done a s) k = k a s
  and_then (fault f) k = fault f
  and_then out_of_fuel k = out_of_fuel

  infixl 5 ◌>>=◌ ◌>>◌
  abbrev pub ◌>>=◌ : Exec A → (A → Exec B) → Exec B
  ◌>>=◌ m k s = and_then (m s) k

  abbrev pub ◌>>◌ : Exec A → Exec B → Exec B
  m >> n = m >>= λ _. n

-- `DC.emit`
unfoldable pub emit : Diagnostic → Exec (Unit {0})
emit d s = done tt (record s { diags = s.diags ++ d ∷ [] })

abbrev pub update {ℓ} : {V : Type ℓ} → (ℕ → V) → ℕ → V → ℕ → V
update f i v j = if i == j then v else f j

-- `setType` and `getType` of an `AstType`
unfoldable pub set_type : ℕ → QualType → Exec (Unit {0})
set_type i q s = done tt (record s { node_type = update s.node_type i q })

unfoldable pub get_type : ℕ → Exec QualType
get_type i s = done (s.node_type i) s

-- `setDeclNode` and `getDeclNode`
unfoldable pub set_decl_node : ℕ → Decl → Exec (Unit {0})
set_decl_node i d s = done tt (record s { node_decl = update s.node_decl i (some d) })

unfoldable pub get_decl_node : ℕ → Exec (Option Decl)
get_decl_node i s = done (s.node_decl i) s

-- `setExprType`
unfoldable pub set_expr_type : ℕ → QualType → Exec (Unit {0})
set_expr_type i q s = done tt (record s { expr_type = update s.expr_type i q })

-- `LS->getDecls(Symbol)`
unfoldable pub get_decls : ℕ → String → Exec (List Decl)
get_decls ls k s = elim (get_elem? s.scopes ls) [
  | none ↦ fault dangling
  | some sc ↦ done (scope_decls sc k) s
]

-- `LS->insert(Symbol, D)`
unfoldable pub insert_decl : ℕ → String → Decl → Exec (Unit {0})
insert_decl ls k d s = elim (get_elem? s.scopes ls) [
  | none ↦ fault dangling
  | some sc ↦ elim (scope_insert sc k d) [
    | none ↦ fault assertion
    | some sc' ↦ done tt (record s { scopes = set s.scopes ls sc' })
  ]
]

-- `LS->find(Symbol)`
unfoldable pub find_scope : ℕ → String → Exec (Option ℕ)
find_scope ls k s = elim (find s.scopes ls k) [
  | Found.found i ↦ done (some i) s
  | Found.not_found ↦ done none s
  | Found.dangling ↦ fault dangling
  | Found.out_of_fuel ↦ out_of_fuel
]

-- `LS->parent()`
unfoldable pub get_parent : ℕ → Exec (Option ℕ)
get_parent ls s = elim (get_elem? s.scopes ls) [
  | none ↦ fault dangling
  | some sc ↦ done sc.parent s
]

-- a request to the type context
unfoldable pub with_types : {A : Type 0} → (TypeContext → A × TypeContext) → Exec A
with_types f s = let (a, c) = f s.types in done a (record s { types = c })

-- a request that may fail an assertion of the type context
unfoldable pub with_types? : {A : Type 0} → (TypeContext → Option (A × TypeContext)) → Exec A
with_types? f s = elim (f s.types) [
  | none ↦ fault assertion
  | some (a, c) ↦ done a (record s { types = c })
]

unfoldable pub get_types : Exec TypeContext
get_types s = done s.types s
