-- ===== src/Tests/Analysis.antt =====
-- Witnesses of the theorems on the whole analysis.
use supreme_doodle.Common.{[], ◌∷◌}
use supreme_doodle.Visitor.Contract.{Meets, GoodOf}
use supreme_doodle.Passes.Growth.{growth}
use supreme_doodle.Passes.DeclareTypes.{run_declare_types}
use supreme_doodle.Passes.ResolveTypes.{run_resolve_types}
use supreme_doodle.Passes.Overloads.{run_declare_functions}
use supreme_doodle.Passes.TypeCheck.{run_type_check}
use supreme_doodle.Analysis.{initial, run_frontend}
use supreme_doodle.Analysis.Safety.{Always, passes_terminate, frontend_safe}
use supreme_doodle.Tests.Programs.{sample, unreached, no_decls}

passes_terminate_example :
    Meets (growth ⊥) 0 Always (run_declare_types sample)
    × Meets (growth ⊥) 0 Always (run_resolve_types sample)
    × Meets (growth ⊥) 0 Always (run_declare_functions sample)
    × Meets (growth ⊥) 0 Always (run_type_check sample)
passes_terminate_example = passes_terminate sample

frontend_safe_example :
    GoodOf
      (growth Unit)
      Always
      (initial unreached no_decls)
      (run_frontend 5 0 (sample ∷ sample ∷ []) (initial unreached no_decls))
frontend_safe_example = frontend_safe 5 0 (sample ∷ sample ∷ []) unreached no_decls
