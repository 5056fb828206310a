-- ===== src/Tests/Scopes.antt =====
-- Witnesses of the theorems on scopes.
use supreme_doodle.Common.{
  ℕ, ◌≡◌, ◌⊎◌, ◌↔◌, true, false, none, some, [], ◌∷◌, ◌++◌, String, str_eq, if◌then◌else◌, arith,
  ◌<◌, length,
}
use supreme_doodle.Ast.{Decl}
use supreme_doodle.Scopes.{
  LexicalScope, LexicalContext, file_scope, create_new_scope, find, found, not_found, contains_decl,
  scope_decls, scope_insert,
}
use supreme_doodle.Scopes.Tree.{IsTree, IsTree-create}
use supreme_doodle.Scopes.Find.{Nearest, find-eq-found, find_total}
use supreme_doodle.Scopes.Symbols.{scope_insert-decls}
use supreme_doodle.Ast.{i32}
use supreme_doodle.Analysis.{builtin_alias}
use supreme_doodle.Analysis.Safety.{initial-IsScoped}
use supreme_doodle.Tests.Programs.{start, unreached, no_decls}

abbrev alias : Decl
alias = builtin_alias 0 "i32" i32

-- a global scope that holds an alias, and a file's scope in it
abbrev nested : LexicalContext
nested = (create_new_scope file_scope (some 0) start.scopes).1

nested-IsTree : IsTree nested
nested-IsTree =
    IsTree-create file_scope 0 start.scopes (initial-IsScoped unreached no_decls).tree (omega arith)

find-eq-found_example : (find nested 1 "i32" ≡ found 0) ↔ Nearest nested "i32" 1 0
find-eq-found_example = find-eq-found nested "i32" 1 0 nested-IsTree (omega arith)

find_total_example :
    (find nested 1 "A" ≡ not_found)
    ⊎ ((j : ℕ) × (find nested 1 "A" ≡ found j) × (j < length nested))
find_total_example = find_total nested "A" 1 nested-IsTree (omega arith)

abbrev one_alias : LexicalScope
one_alias = record { parent = none; kind = file_scope; symbols = ("i32", alias ∷ []) ∷ [] }

scope_insert-decls_example :
    ((contains_decl (scope_decls one_alias "i32") alias ≡ true)
      × (scope_insert one_alias "i32" alias ≡ none))
    ⊎ ((t : LexicalScope) × (contains_decl (scope_decls one_alias "i32") alias ≡ false)
        × (scope_insert one_alias "i32" alias ≡ some t)
        × ((j : String)
            → scope_decls t j ≡ (
                if str_eq "i32" j
                then scope_decls one_alias "i32" ++ alias ∷ []
                else scope_decls one_alias j)))
scope_insert-decls_example = scope_insert-decls one_alias "i32" alias
