-- ===== src/Analysis.antt =====
-- compiler/rx-frontend.cpp and compiler/lib/Sema/Sema.cpp: the built-in names, the order of the passes
-- over one program, and the analysis of the programs in the order that the frontend chose.
pub mod Safety
use supreme_doodle.Common.{ℕ, ◌+◌, Bool, Option, none, some, List, [], ◌∷◌, String}
use supreme_doodle.Location.{builtin_location}
use supreme_doodle.Types.{unknown, new_context}
use supreme_doodle.Ast.{
  AstNativeType, void, i1, i8, i32, i64, f32, f64, string, builtin_type, Decl, use_decl,
  ProgramDecl,
}
use supreme_doodle.Scopes.{global_scope, create_new_scope}
use supreme_doodle.Sema.{Sema, Exec, pure, ◌>>◌, insert_decl}
use supreme_doodle.Passes.DeclareTypes.{run_declare_types}
use supreme_doodle.Passes.ResolveTypes.{run_resolve_types}
use supreme_doodle.Passes.Materialize.{run_materialize}
use supreme_doodle.Passes.Overloads.{run_declare_functions}
use supreme_doodle.Passes.TypeCheck.{run_type_check}

-- the alias of a built-in type; `id` is its node and `id + 1` the node of its type
abbrev pub builtin_alias : ℕ → String → AstNativeType → Decl
builtin_alias id name t = use_decl (record {
  node = record { id = id; loc = builtin_location };
  decl_loc = builtin_location;
  name = name;
  type = some (builtin_type (record { id = id + 1; loc = builtin_location }) t);
})

-- `populateBuiltins`, with the nodes from `id` on; `char` stands for an alias named `i8`
unfoldable pub populate_builtins : ℕ → ℕ → Exec (Unit {0})
populate_builtins id ls =
    insert_decl ls "void" (builtin_alias id "void" void)
    >> insert_decl ls "bool" (builtin_alias (id + 2) "bool" i1)
    >> insert_decl ls "char" (builtin_alias (id + 4) "i8" i8)
    >> insert_decl ls "i32" (builtin_alias (id + 6) "i32" i32)
    >> insert_decl ls "i64" (builtin_alias (id + 8) "i64" i64)
    >> insert_decl ls "f32" (builtin_alias (id + 10) "f32" f32)
    >> insert_decl ls "f64" (builtin_alias (id + 12) "f64" f64)
    >> insert_decl ls "string" (builtin_alias (id + 14) "string" string)

-- The state before any program: a global scope, an empty type context with some lookups, and
-- what the uninitialised `DeclNode` fields happen to hold.
abbrev pub initial : (ℕ → ℕ → Bool) → (ℕ → Option Decl) → Sema
initial reaches garbage = record {
  diags = [];
  scopes = (create_new_scope global_scope none []).1;
  types = new_context reaches;
  node_scope = λ i. none;
  node_type = λ i. unknown;
  node_decl = garbage;
  expr_type = λ i. unknown;
  hints = [];
}

-- the three registered passes
pub data Pass : Type 0 where
  resolve_global_type forward_declare_functions typecheck : Pass

unfoldable pub run_pass : ℕ → ProgramDecl → Pass → Exec (Unit {0})
run_pass fuel p resolve_global_type =
    run_declare_types p >> run_resolve_types p >> run_materialize fuel p >> pure tt
run_pass fuel p forward_declare_functions = run_declare_functions p >> pure tt
run_pass fuel p typecheck = run_type_check p >> pure tt

-- `SemaPassManager::run`
unfoldable pub run_passes : ℕ → ProgramDecl → List Pass → Exec (Unit {0})
unfolding run_pass
run_passes fuel p [] = pure tt
run_passes fuel p (pass ∷ rest) = run_pass fuel p pass >> run_passes fuel p rest

abbrev pub registered : List Pass
registered = resolve_global_type ∷ forward_declare_functions ∷ typecheck ∷ []

-- the loop of `main` over the translation units, in the order of visit
unfoldable pub analyse : ℕ → List ProgramDecl → Exec (Unit {0})
unfolding run_passes
analyse fuel [] = pure tt
analyse fuel (p ∷ ps) = run_passes fuel p registered >> analyse fuel ps

-- what `main` does between the traversal of the imports and the end
unfoldable pub run_frontend : ℕ → ℕ → List ProgramDecl → Exec (Unit {0})
unfolding populate_builtins analyse
run_frontend fuel first_id ps = populate_builtins first_id 0 >> analyse fuel ps
