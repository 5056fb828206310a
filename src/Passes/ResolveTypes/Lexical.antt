-- ===== src/Passes/ResolveTypes/Lexical.antt =====
-- compiler/lib/Sema/ResolveGlobalTypePass.cpp, `ResolveTypeSymbol`: the declaration that a reference
-- is given.
use supreme_doodle.Common.{ℕ, ◌≡◌, ◌<◌, refl, some, [], ◌∷◌, String, get_elem?, length}
use supreme_doodle.Ast.{Node, Decl, type_decl, use_decl, var_decl, impl_decl, func_decl, param_decl}
use supreme_doodle.Scopes.{LexicalScope, scope_decls, find, found}
use supreme_doodle.Scopes.Tree.{IsTree}
use supreme_doodle.Scopes.Find.{Nearest, find-eq-found}
use supreme_doodle.Sema.{Sema, done, update, find_scope, get_decls, set_decl_node, and_then}
use supreme_doodle.Passes.ResolveTypes.{resolve_symbol, bind_single, bind_type}

-- a type or an alias
abbrev pub IsType : Decl → Type 0
IsType (type_decl h) = Unit
IsType (use_decl h) = Unit
IsType _ = ⊥

bind_type-eq :
    (n : Node) (k : String) (d : Decl) (s : Sema)
    → IsType d
    → bind_type n k d s ≡ done tt (record s { node_decl = update s.node_decl n.id (some d) })
unfolding bind_type set_decl_node
bind_type-eq n k (type_decl h) s p = refl
bind_type-eq n k (use_decl h) s p = refl
bind_type-eq n k (var_decl h e) s p = elim p [ ]
bind_type-eq n k (impl_decl h fs) s p = elim p [ ]
bind_type-eq n k (func_decl f) s p = elim p [ ]
bind_type-eq n k (param_decl q) s p = elim p [ ]

module _ (s : Sema) (k : String) (ls i : ℕ) where
  find_scope-eq : find s.scopes ls k ≡ found i → find_scope ls k s ≡ done (some i) s
  unfolding find_scope
  find_scope-eq e = rw (e, find_scope)

  get_decls-eq :
      (sc : LexicalScope)
      → get_elem? s.scopes i ≡ some sc
      → get_decls i k s ≡ done (scope_decls sc k) s
  unfolding get_decls
  get_decls-eq sc e = rw (e, get_decls)

  -- Where the scopes form a tree and the nearest scope outwards with the name holds one declaration
  -- for it, a type or an alias, a reference is bound to that declaration and nothing else changes.
  pub resolve_symbol-Nearest :
      (n : Node) (sc : LexicalScope) (d : Decl)
      → IsTree s.scopes
      → ls < length s.scopes
      → Nearest s.scopes k ls i
      → get_elem? s.scopes i ≡ some sc
      → scope_decls sc k ≡ d ∷ []
      → IsType d
      → resolve_symbol n k ls s
        ≡ done tt (record s { node_decl = update s.node_decl n.id (some d) })
  unfolding resolve_symbol bind_single
  resolve_symbol-Nearest n sc d tree here near at_i single p =
      rw (find_scope-eq ((find-eq-found s.scopes k ls i tree here).1 near), resolve_symbol)
        (rw (get_decls-eq sc at_i, and_then) (rw single (bind_type-eq n k d s p)))
