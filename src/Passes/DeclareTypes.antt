-- ===== src/Passes/DeclareTypes.antt =====
-- compiler/lib/Sema/ResolveGlobalTypePass.cpp, `ForwardDeclareType`: each type and alias declaration
-- is put into the scope that it stands in, unless the scope has its name.
pub mod Once
use supreme_doodle.Common.{ℕ, [], ◌∷◌, String}
use supreme_doodle.Ast.{DeclHead, Decl, head_of, ProgramDecl}
use supreme_doodle.Basic.{
  Message, located, error, note, type_redefinition, alias_redefinition, previously_declared,
}
use supreme_doodle.Sema.{Exec, pure, ◌>>=◌, ◌>>◌, emit, get_decls, insert_decl}
use supreme_doodle.Visitor.{Visitor, default_types, default_visitor}
use supreme_doodle.Visitor.Tree.{visit_program}

-- the two diagnostics of a second declaration, the note at the first one
unfoldable pub report_redefinition : Message → DeclHead → Decl → Exec (Unit {0})
report_redefinition m h first =
    emit (located error m h.decl_loc)
    >> emit (located note previously_declared (head_of first).decl_loc)

-- the members on `TypeDecl` and `UseDecl`, which differ in the text of the error
unfoldable pub declare_type : (String → Message) → Decl → DeclHead → ℕ → Exec (Unit {0})
unfolding report_redefinition
declare_type m self h ls = get_decls ls h.name >>= λ existing. elim existing [
  | [] ↦ insert_decl ls h.name self
  | first ∷ _ ↦ report_redefinition (m h.name) h first
]

unfoldable pub forward_declare_type : Visitor (Unit {0})
unfolding declare_type default_visitor default_types
forward_declare_type = record (default_visitor tt (default_types tt)) {
  on_type_decl = λ self h ls type. declare_type type_redefinition self h ls;
  on_use_decl = λ self h ls type. declare_type alias_redefinition self h ls;
  on_block = λ ls stmts. pure tt;
}

unfoldable pub run_declare_types : ProgramDecl → Exec (Unit {0})
unfolding forward_declare_type
run_declare_types = visit_program forward_declare_type
