-- ===== src/Tests/Programs.antt =====
-- Programs and states for the witnesses, and a run of all passes over one program.
use supreme_doodle.Common.{ℕ, true, ◌≡◌, refl, Option, none, some, List, [], ◌∷◌, String, map}
use supreme_doodle.Common.{Bool, false}
use supreme_doodle.Types.{NativeType, get_builtin_type}
use supreme_doodle.Basic.{Diagnostic, Message, bad_initializer}
use supreme_doodle.Location.{builtin_location}
use supreme_doodle.Sema.{
  Sema, Outcome, done, insert_decl, get_decls, find_scope, set_decl_node, get_decl_node, set_type,
  get_type, emit, set_expr_type, with_types, with_types?, get_types, get_parent,
}
use supreme_doodle.Scopes.{scope_insert, find}
use supreme_doodle.Passes.DeclareTypes.{run_declare_types}
use supreme_doodle.Passes.ResolveTypes.{run_resolve_types}
use supreme_doodle.Passes.Materialize.{run_materialize}
use supreme_doodle.Passes.Overloads.{run_declare_functions}
use supreme_doodle.Passes.TypeCheck.{run_type_check}
use supreme_doodle.Visitor.{enter_program, enter_scope, visit_type}
use supreme_doodle.Visitor.Tree.{visit_program, visit_decl, visit_declared}
use supreme_doodle.Ast.{
  Node, AstType, Decl, DeclHead, decl_type_ref, use_decl, var_decl, some_expr, num_literal, private,
  ExportedDecl, ProgramDecl,
}
use supreme_doodle.Analysis.{initial, run_frontend}

abbrev pub node : ℕ → Node
node i = record { id = i; loc = builtin_location }

abbrev pub head : ℕ → String → Option AstType → DeclHead
head i k t = record { node = node i; decl_loc = builtin_location; name = k; type = t }

abbrev pub export : ℕ → Decl → ExportedDecl
export i d = record {
  node = node i;
  decl_loc = builtin_location;
  exported = d;
  visibility = private;
}

-- use A = i32   let x : A = 5   let y : char = 5
abbrev pub sample : ProgramDecl
sample = record {
  node = node 100;
  package_decl = none;
  imports = [];
  decls =
      export 101 (use_decl (head 102 "A" (some (decl_type_ref (node 103) "i32"))))
      ∷ export 104 (
          var_decl (head 105 "x" (some (decl_type_ref (node 106) "A")))
            (some_expr (num_literal (node 107) (record { text = "5"; is_integer = true }))))
      ∷ export 108 (
          var_decl (head 109 "y" (some (decl_type_ref (node 110) "char")))
            (some_expr (num_literal (node 111) (record { text = "5"; is_integer = true }))))
      ∷ [];
}

abbrev pub unreached : ℕ → ℕ → Bool
unreached k i = false

abbrev pub no_decls : ℕ → Option Decl
no_decls i = none

abbrev pub start : Sema
start = initial unreached no_decls

abbrev reports : Outcome (Unit {0}) → Option (List Message)
reports (done a s) = some (map (λ (d : Diagnostic). d.message) s.diags)
reports _ = none

-- The integer does not initialise the `char`, and the alias is followed.
reports-sample :
    reports (run_frontend 5 0 (sample ∷ []) start)
    ≡ some (bad_initializer (get_builtin_type NativeType.i8) (get_builtin_type NativeType.i1) ∷ [])
unfolding run_frontend insert_decl get_decls find_scope set_decl_node get_decl_node set_type
    get_type emit set_expr_type with_types with_types? get_types get_parent scope_insert find
    run_declare_types run_resolve_types run_materialize run_declare_functions run_type_check
    enter_program enter_scope visit_type visit_program visit_decl visit_declared
reports-sample = refl
