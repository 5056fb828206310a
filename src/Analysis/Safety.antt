-- ===== src/Analysis/Safety.antt =====
-- compiler/rx-frontend.cpp: the passes over one program and over all programs, from the state that the
-- frontend starts with.
use supreme_doodle.Common.{
  ℕ, zero, suc, ◌≡◌, ◌<◌, Option, none, some, List, [], ◌∷◌, arith, get_elem?, length,
}
use supreme_doodle.Common.{Bool}
use supreme_doodle.Ast.{Decl, ProgramDecl}
use supreme_doodle.Sema.{Sema, Exec, Outcome, done, fault, out_of_fuel}
use supreme_doodle.Scopes.{LexicalScope, global_scope, create_new_scope}
use supreme_doodle.Visitor.Contract.{Meets, GoodOf, Good-trans, Meets-pure, Meets-then}
use supreme_doodle.Visitor.Contract.Walk.{visit_program-Meets}
use supreme_doodle.Passes.Growth.{growth, IsScoped}
use supreme_doodle.Passes.Growth.Actions.{insert_decl-Meets}
use supreme_doodle.Passes.Growth.Declare.{forward_declare_type-Meets, resolve_type_symbol-Meets}
use supreme_doodle.Passes.Growth.Materials.{materialize_type-Meets}
use supreme_doodle.Passes.Materialize.Keeps.{IsImmutable}
use supreme_doodle.Passes.Growth.Functions.{declare_functions-Meets}
use supreme_doodle.Passes.Growth.Checks.{hints-Grows, type_check-Meets}
use supreme_doodle.Passes.DeclareTypes.{forward_declare_type, run_declare_types}
use supreme_doodle.Passes.ResolveTypes.{resolve_type_symbol, run_resolve_types}
use supreme_doodle.Passes.Materialize.{materialize_type, run_materialize}
use supreme_doodle.Passes.Overloads.{declare_functions, run_declare_functions}
use supreme_doodle.Passes.TypeCheck.{type_check, run_type_check}
use supreme_doodle.Analysis.{
  initial, Pass, resolve_global_type, forward_declare_functions, typecheck, run_pass, run_passes,
  registered, analyse, populate_builtins, run_frontend,
}

abbrev pub Always : {A : Type 0} → A → Type 0
Always a = Unit

-- an action that cannot run out of fuel
weaken :
    {A : Type 0} (Q : A → Type 0) (s : Sema) (o : Outcome A)
    → GoodOf (growth ⊥) Q s o
    → GoodOf (growth Unit) Q s o
weaken Q s (done a t) g = g
weaken Q s (fault f) g = g
weaken Q s out_of_fuel g = elim g [ ]

Meets-weaken :
    {A : Type 0} {Q : A → Type 0} {ls : ℕ} {m : Exec A}
    → Meets (growth ⊥) ls Q m
    → Meets (growth Unit) ls Q m
Meets-weaken {Q = Q} {m = m} h = record { at = λ s inv here. weaken Q s (m s) (h.at s inv here) }

declare_types_safe : (p : ProgramDecl) → Meets (growth ⊥) 0 Always (run_declare_types p)
unfolding run_declare_types
declare_types_safe p =
    visit_program-Meets (growth ⊥) Always forward_declare_type forward_declare_type-Meets p

resolve_types_safe : (p : ProgramDecl) → Meets (growth ⊥) 0 Always (run_resolve_types p)
unfolding run_resolve_types
resolve_types_safe p =
    visit_program-Meets (growth ⊥) Always resolve_type_symbol resolve_type_symbol-Meets p

materialize_safe :
    (fuel : ℕ) (p : ProgramDecl) → Meets (growth Unit) 0 IsImmutable (run_materialize fuel p)
unfolding run_materialize
materialize_safe fuel p =
    visit_program-Meets (growth Unit) IsImmutable (materialize_type fuel)
      (materialize_type-Meets fuel) p

declare_functions_safe : (p : ProgramDecl) → Meets (growth ⊥) 0 Always (run_declare_functions p)
unfolding run_declare_functions
declare_functions_safe p =
    visit_program-Meets (growth ⊥) Always declare_functions declare_functions-Meets p

type_check_safe : (p : ProgramDecl) → Meets (growth ⊥) 0 Always (run_type_check p)
unfolding run_type_check
type_check_safe p = record {
  at = λ s inv here.
      let t = record s { hints = [] } in
      let g = hints-Grows s [] inv in
      Good-trans (growth ⊥) Always s t _ g
        ((visit_program-Meets (growth ⊥) Always type_check type_check-Meets p).at t g.scoped here);
}

-- From any state whose scopes form a tree with a scope 0, the three visits that do not follow aliases and
-- the type check come to an end without running out of fuel, whatever the program: in a state that grew (the
-- scopes are a tree, no scope or type is removed, diagnostics are only appended), or in a fault that
-- is not a use of a scope that does not exist.
pub passes_terminate :
    (p : ProgramDecl)
    → Meets (growth ⊥) 0 Always (run_declare_types p)
      × Meets (growth ⊥) 0 Always (run_resolve_types p)
      × Meets (growth ⊥) 0 Always (run_declare_functions p)
      × Meets (growth ⊥) 0 Always (run_type_check p)
passes_terminate p =
    (declare_types_safe p, resolve_types_safe p, declare_functions_safe p, type_check_safe p)

module _ (fuel : ℕ) where
  run_pass_safe :
      (p : ProgramDecl) (pass : Pass) → Meets (growth Unit) 0 Always (run_pass fuel p pass)
  unfolding run_pass
  run_pass_safe p resolve_global_type =
      Meets-then (growth Unit)
        (Meets-then (growth Unit)
          (Meets-then (growth Unit) (Meets-weaken (declare_types_safe p))
            (Meets-weaken (resolve_types_safe p)))
          (materialize_safe fuel p))
        (Meets-pure (growth Unit) tt tt)
  run_pass_safe p forward_declare_functions =
      Meets-then (growth Unit) (Meets-weaken (declare_functions_safe p))
        (Meets-pure (growth Unit) tt tt)
  run_pass_safe p typecheck =
      Meets-then (growth Unit) (Meets-weaken (type_check_safe p)) (Meets-pure (growth Unit) tt tt)

  run_passes_safe :
      (p : ProgramDecl) (passes : List Pass)
      → Meets (growth Unit) 0 Always (run_passes fuel p passes)
  unfolding run_passes
  run_passes_safe p [] = Meets-pure (growth Unit) tt tt
  run_passes_safe p (pass ∷ rest) =
      Meets-then (growth Unit) (run_pass_safe p pass) (run_passes_safe p rest)

  analyse_safe : (ps : List ProgramDecl) → Meets (growth Unit) 0 Always (analyse fuel ps)
  unfolding analyse
  analyse_safe [] = Meets-pure (growth Unit) tt tt
  analyse_safe (p ∷ ps) = Meets-then (growth Unit) (run_passes_safe p registered) (analyse_safe ps)

  populate_builtins_safe : (id : ℕ) → Meets (growth Unit) 0 Always (populate_builtins id 0)
  unfolding populate_builtins
  populate_builtins_safe id =
      Meets-then (growth Unit)
        (Meets-then (growth Unit)
          (Meets-then (growth Unit)
            (Meets-then (growth Unit)
              (Meets-then (growth Unit)
                (Meets-then (growth Unit)
                  (Meets-then (growth Unit) (insert_decl-Meets Unit 0 "void" _)
                    (insert_decl-Meets Unit 0 "bool" _))
                  (insert_decl-Meets Unit 0 "char" _))
                (insert_decl-Meets Unit 0 "i32" _))
              (insert_decl-Meets Unit 0 "i64" _))
            (insert_decl-Meets Unit 0 "f32" _))
          (insert_decl-Meets Unit 0 "f64" _))
        (insert_decl-Meets Unit 0 "string" _)

single-IsTree :
    (i p : ℕ) (s : LexicalScope)
    → get_elem? ((create_new_scope global_scope none []).1) i ≡ some s
    → s.parent ≡ some p
    → p < i
single-IsTree zero p s h e = ground (arith)
single-IsTree (suc i) p s h e = ground (arith)

pub initial-IsScoped :
    (reaches : ℕ → ℕ → Bool) (garbage : ℕ → Option Decl) → IsScoped (initial reaches garbage)
initial-IsScoped reaches garbage = record {
  tree = record { earlier = single-IsTree };
  bound = λ id i e. cc;
}

-- the same from any state whose scopes form a tree
pub run_frontend_safe :
    (fuel first_id : ℕ) (ps : List ProgramDecl) (s : Sema)
    → IsScoped s
    → 0 < length s.scopes
    → GoodOf (growth Unit) Always s (run_frontend fuel first_id ps s)
unfolding run_frontend
run_frontend_safe fuel first_id ps s scoped here =
    (Meets-then (growth Unit) (populate_builtins_safe fuel first_id) (analyse_safe fuel ps)).at s
      scoped here

-- From the state that the frontend starts with, for every list of programs, whatever entries lookups of maps reach, and
-- whatever the uninitialised fields hold, the built-in names and then all passes over all programs end in
-- a state that grew from it (the scopes are a tree, no scope or type is removed, diagnostics are only
-- appended), or in a fault that is not a use of a scope that does not exist, or out of fuel.
pub frontend_safe :
    (fuel first_id : ℕ) (ps : List ProgramDecl) (reaches : ℕ → ℕ → Bool) (garbage : ℕ → Option Decl)
    → GoodOf
        (growth Unit)
        Always
        (initial reaches garbage)
        (run_frontend fuel first_id ps (initial reaches garbage))
frontend_safe fuel first_id ps reaches garbage =
    run_frontend_safe fuel first_id ps (initial reaches garbage) (initial-IsScoped reaches garbage)
      (omega arith)
