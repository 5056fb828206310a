-- ===== src/Driver/Composed.antt =====
-- compiler/rx-frontend.cpp, `main`: the traversal, the order and the analysis one after the other.
use supreme_doodle.Common.{
  ℕ, ◌≤◌, ◌≡◌, refl, sym, true, false, some, List, [], String, str_eq, arith, length,
}
use mathlib.Core.Path.{subst}
use supreme_doodle.Ast.{ProgramDecl}
use supreme_doodle.Basic.{Diagnostic}
use supreme_doodle.Sema
use supreme_doodle.Sema.{Sema, Outcome}
use supreme_doodle.Visitor.Contract.{GoodOf}
use supreme_doodle.Passes.Growth.{growth, Extends, IsScoped, NotDangling}
use supreme_doodle.Analysis.Safety.{Always, initial-IsScoped, run_frontend_safe}
use supreme_doodle.Frontend.{
  TranslationUnit, Contents, found, Frontend, ran, load, member, paths_of,
}
use supreme_doodle.Frontend.Order.{visit_order, programs_in_order}
use supreme_doodle.Frontend.Rounds.{Finite}
use supreme_doodle.Frontend.Reached.{flat, analysis_reached}
use supreme_doodle.Driver.{
  System, resolved, Ended, DriverRun, ended, traversal, no_program, analysis, out_of_fuel,
  finish_analysis, start_analysis, analyse_units, open_root, frontend_main,
}

-- the diagnostics before the analysis
abbrev pub before_analysis : System → Frontend → List Diagnostic
before_analysis sys s =
    (visit_order (sys.components s.units) (record { files = []; diags = s.builder.diags })).diags

-- The run ended after the analysis.
pub record Analysed (sys : System) (s : Frontend) (e : Ended) : Type 0 where
  pub code_zero : e.code ≡ 0
  pub silent : e.lines ≡ []
  pub diags_after : Extends (before_analysis sys s) e.diags

-- The run ended after the analysis, or in a fault of the analysis that is not a use of a missing scope, or
-- out of fuel.
abbrev pub RunOf : System → Frontend → DriverRun → Type 0
RunOf sys s (ended e) = Analysed sys s e
RunOf sys s (traversal f) = ⊥
RunOf sys s no_program = ⊥
RunOf sys s (analysis f) = NotDangling f
RunOf sys s out_of_fuel = Unit

pub record IsAnalysed (sys : System) (s : Frontend) (r : DriverRun) : Type 0 where
  pub run : RunOf sys s r

module _ (fuel : ℕ) (sys : System) (s : Frontend) where
  finish_analysis-IsAnalysed :
      (o : Outcome (Unit {0}))
      → GoodOf (growth Unit) Always (start_analysis sys (before_analysis sys s)) o
      → IsAnalysed sys s (finish_analysis o)
  finish_analysis-IsAnalysed (Sema.done a t) g = record {
    run = record { code_zero = refl; silent = refl; diags_after = g.0.diags };
  }
  finish_analysis-IsAnalysed (Sema.fault f) g = record { run = g }
  finish_analysis-IsAnalysed Sema.out_of_fuel g = record { run = tt }

  start-IsScoped : (ds : List Diagnostic) → IsScoped (start_analysis sys ds)
  start-IsScoped ds =
      let first = initial-IsScoped sys.reaches sys.garbage in
      record { tree = first.tree; bound = first.bound }

  analyse_units-IsAnalysed :
      (ps : List ProgramDecl)
      → programs_in_order sys.components s ≡ some ps
      → IsAnalysed sys s (analyse_units fuel sys s)
  unfolding analyse_units programs_in_order
  analyse_units-IsAnalysed ps e =
      rw (e, analyse_units)
        (finish_analysis-IsAnalysed _ (
          run_frontend_safe fuel s.builder.next ps (start_analysis sys (before_analysis sys s))
            (start-IsScoped _) (omega arith)))

-- Where a finite list of paths has the root's and is closed under the imports of files that can be opened, all of
-- complete parse trees, with components that are of the table's files, and an input whose path is resolved and whose file is there: the traversal comes to an end without
-- a fault, every program that the order names is there, and main returns 0, its diagnostics being those of
-- the parser, then those of the order, then those of the passes, errors or not; or a pass ends in a fault
-- that is not a use of a missing scope, or follows aliases beyond the fuel.
pub frontend_main-IsAnalysed :
    (rounds fuel : ℕ) (sys : System) (input path : String) (c : Contents) (all : List String)
    → Finite sys.disk path all
    → length all ≤ rounds
    → ((us : List TranslationUnit) (p : String)
        → member p (flat (sys.components us)) ≡ true
        → member p (paths_of us) ≡ true)
    → str_eq input "" ≡ false
    → sys.real_path input ≡ resolved path
    → sys.disk.get_file path ≡ found c
    → (s : Frontend) × (load sys.disk rounds path ≡ some (ran s))
      × IsAnalysed sys s (frontend_main rounds fuel sys input)
unfolding frontend_main open_root
frontend_main-IsAnalysed rounds fuel sys input path c all fin enough graph given at_path there =
    let (s, loads, programs) =
      analysis_reached sys.disk all rounds path c sys.components fin enough there graph in
    let run : frontend_main rounds fuel sys input ≡ analyse_units fuel sys s =
      rw (given, at_path, loads, frontend_main, open_root) in
    (
      s,
      loads,
      subst (IsAnalysed sys s) (sym run)
          (analyse_units-IsAnalysed fuel sys s programs.0 programs.1),
    )
