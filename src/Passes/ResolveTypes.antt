-- ===== src/Passes/ResolveTypes.antt =====
-- compiler/lib/Sema/ResolveGlobalTypePass.cpp, `ResolveTypeSymbol`: each reference to a type by name is
-- given the declaration that the scopes hold for it.
pub mod Lexical
use supreme_doodle.Common.{ℕ, none, some, List, [], ◌∷◌, String}
use supreme_doodle.Ast.{Node, Decl, head_of, type_decl, use_decl, ProgramDecl}
use supreme_doodle.Basic.{
  located, unlocated, error, note, undefined_type, not_a_type, symbol_declared_here,
}
use supreme_doodle.Sema.{
  Exec, assertion, pure, fail, ◌>>=◌, ◌>>◌, emit, get_decls, find_scope, set_decl_node,
}
use supreme_doodle.Visitor.{Visitor, default_types, default_visitor}
use supreme_doodle.Visitor.Tree.{visit_program}

-- What the name stands for. The second `setSourceLocation` on the error takes the place of the first.
unfoldable pub bind_type : Node → String → Decl → Exec (Unit {0})
bind_type n k (type_decl h) = set_decl_node n.id (type_decl h)
bind_type n k (use_decl h) = set_decl_node n.id (use_decl h)
bind_type n k d =
    emit (located error (not_a_type k) (head_of d).decl_loc)
    >> emit (unlocated note symbol_declared_here)

-- the assertion that the scope holds one declaration of the name
unfoldable pub bind_single : Node → String → List Decl → Exec (Unit {0})
unfolding bind_type
bind_single n k (d ∷ []) = bind_type n k d
bind_single n k _ = fail assertion

unfoldable pub resolve_symbol : Node → String → ℕ → Exec (Unit {0})
unfolding bind_single
resolve_symbol n k ls = find_scope ls k >>= λ scope. elim scope [
  | none ↦ emit (unlocated error (undefined_type k))
  | some i ↦ get_decls i k >>= λ ds. bind_single n k ds
]

unfoldable pub resolve_type_symbol : Visitor (Unit {0})
unfolding resolve_symbol default_visitor default_types
resolve_type_symbol =
    record (default_visitor tt (record (default_types tt) { on_decl_ref = resolve_symbol })) {
      on_block = λ ls stmts. pure tt;
    }

unfoldable pub run_resolve_types : ProgramDecl → Exec (Unit {0})
unfolding resolve_type_symbol
run_resolve_types = visit_program resolve_type_symbol
