-- ===== src/Scopes/Symbols.antt =====
-- compiler/lib/Sema/LexicalScope.cpp: what a scope holds for each name after a declaration is inserted.
use supreme_doodle.Common.{
  ◌≡◌, ◌⊎◌, refl, true, false, none, some, List, [], ◌∷◌, ◌++◌, String, insert, lookup-insert,
  Bool-cases, inl, inr, if◌then◌else◌, str_eq,
}
use supreme_doodle.Ast.{Decl}
use supreme_doodle.Scopes.{LexicalScope, contains_decl, scope_decls, scope_insert}

decls-insert :
    (s : LexicalScope) (k j : String) (ds : List Decl)
    → scope_decls (record s { symbols = insert k ds s.symbols }) j
      ≡ (if str_eq k j then ds else scope_decls s j)
decls-insert s k j ds = elim (Bool-cases (str_eq k j)) [
  | inl e ↦ rw (lookup-insert k j ds s.symbols, scope_decls) (rw e refl)
  | inr e ↦ rw (lookup-insert k j ds s.symbols, scope_decls) (rw e refl)
]

-- Inserting a declaration fails exactly if the scope already holds it for the name. Otherwise the scope
-- holds it last for that name, after what was there, and every other name keeps what it had.
pub scope_insert-decls :
    (s : LexicalScope) (k : String) (d : Decl)
    → ((contains_decl (scope_decls s k) d ≡ true) × (scope_insert s k d ≡ none))
      ⊎ ((t : LexicalScope) × (contains_decl (scope_decls s k) d ≡ false)
          × (scope_insert s k d ≡ some t)
          × ((j : String)
              → scope_decls t j
                ≡ (if str_eq k j then scope_decls s k ++ d ∷ [] else scope_decls s j)))
unfolding scope_insert
scope_insert-decls s k d = elim (Bool-cases (contains_decl (scope_decls s k) d)) [
  | inl e ↦ inl (e, rw (e, scope_insert))
  | inr e ↦ inr (
    record s { symbols = insert k (scope_decls s k ++ d ∷ []) s.symbols },
    e,
    rw (e, scope_insert),
    λ j. decls-insert s k j (scope_decls s k ++ d ∷ []),
  )
]
