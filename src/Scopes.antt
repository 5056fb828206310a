-- ===== src/Scopes.antt =====
-- compiler/include/rxc/Sema/LexicalScope.h, LexicalContext.h and compiler/lib/Sema/LexicalScope.cpp:
-- scopes with symbol tables. A `LexicalScope *` is a position in `ScopeStorage`.
pub mod Find
pub mod Symbols
pub mod Tree
use supreme_doodle.Common.{
  ℕ, zero, suc, Bool, true, false, ◌||◌, Option, none, some, List, [], ◌∷◌, ◌++◌, String, ◌==◌,
  length, get_elem?, lookup, contains, insert, if◌then◌else◌,
}
use supreme_doodle.Ast.{Decl, decl_id}

pub data Kind : Type 0 where
  global_scope module_scope file_scope function_scope block_scope impl_scope : Kind

pub record LexicalScope : Type 0 where
  pub parent : Option ℕ
  pub kind : Kind
  pub symbols : List (String × List Decl)

-- `ScopeStorage`: scopes are added at the end and never removed, so positions are stable.
abbrev pub LexicalContext : Type 0
LexicalContext = List LexicalScope

-- `createNewScope`: the new scope's position, and the context with it
abbrev pub create_new_scope : Kind → Option ℕ → LexicalContext → ℕ × LexicalContext
create_new_scope kind parent lc =
    (length lc, lc ++ record { parent = parent; kind = kind; symbols = [] } ∷ [])

-- `getGlobalScope`, with the failed assertion that there is a scope as `none`
abbrev pub get_global_scope : LexicalContext → Option ℕ
get_global_scope [] = none
get_global_scope (s ∷ lc) = some 0

abbrev pub contains_decl : List Decl → Decl → Bool
contains_decl [] d = false
contains_decl (e ∷ ds) d = decl_id e == decl_id d || contains_decl ds d

-- `getDecls` of a scope
abbrev pub scope_decls : LexicalScope → String → List Decl
scope_decls s k = elim (lookup k s.symbols) [ none ↦ [] | some ds ↦ ds ]

-- `insert` into a scope; `none` is the failed assertion that the declaration is not there yet.
unfoldable pub scope_insert : LexicalScope → String → Decl → Option LexicalScope
scope_insert s k d =
    if contains_decl (scope_decls s k) d
    then none
    else some (record s { symbols = insert k (scope_decls s k ++ d ∷ []) s.symbols })

pub data Found : Type 0 where
  found : ℕ → Found
  not_found dangling out_of_fuel : Found

-- `find`: the loop over `parent()`, with fuel
unfoldable pub find_loop : LexicalContext → ℕ → Option ℕ → String → Found
find_loop lc fuel none k = not_found
find_loop lc zero (some i) k = out_of_fuel
find_loop lc (suc fuel) (some i) k = elim (get_elem? lc i) [
  | none ↦ dangling
  | some s ↦ elim (contains k s.symbols) [ true ↦ found i | false ↦ find_loop lc fuel s.parent k ]
]

-- A chain of parents visits each scope once at most, so that many rounds are enough.
unfoldable pub find : LexicalContext → ℕ → String → Found
unfolding find_loop
find lc i k = find_loop lc (length lc) (some i) k
