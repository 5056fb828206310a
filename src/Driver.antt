-- ===== src/Driver.antt =====
-- compiler/rx-frontend.cpp, `main`: from the input file of the command line to the exit code. The options that only
-- print are left out.
pub mod Composed
use supreme_doodle.Common.{ℕ, Option, none, some, List, [], ◌∷◌, String, str_eq, if◌then◌else◌}
use supreme_doodle.Common.{Bool}
use supreme_doodle.Basic.{Diagnostic}
use supreme_doodle.Ast.{Decl, ProgramDecl}
use supreme_doodle.Sema
use supreme_doodle.Sema.{Sema, Outcome}
use supreme_doodle.Frontend
use supreme_doodle.Frontend.{
  TranslationUnit, Opened, found, missing, Disk, Frontend, Ran, ran, failed, load,
}
use supreme_doodle.Frontend.Order.{Order, visit_order, programs_of}
use supreme_doodle.Analysis.{initial, run_frontend}

-- `real_path`: the path or the message of the error code
pub data Resolved : Type 0 where
  resolved : String → Resolved
  unresolved : String → Resolved

-- the file system, the strongly connected components, and what is not determined: which entries the lookups of maps of types
-- reach, and the uninitialised fields
pub record System : Type 0 where
  pub real_path : String → Resolved
  pub disk : Disk
  pub components : List TranslationUnit → List (List String)
  pub reaches : ℕ → ℕ → Bool
  pub garbage : ℕ → Option Decl

pub data DriverLine : Type 0 where
  no_input_file : DriverLine
  cannot_resolve : String → String → DriverLine
  cannot_open : String → DriverLine

-- the exit code, the lines of `main` itself and all diagnostics
pub record Ended : Type 0 where
  pub code : ℕ
  pub lines : List DriverLine
  pub diags : List Diagnostic

-- `traversal`: a fault of the traversal; `no_program`: the assertion of `getProgramAST`; `analysis`: a fault
-- of a pass
pub data DriverRun : Type 0 where
  ended : Ended → DriverRun
  traversal : Frontend.Fault → DriverRun
  no_program : DriverRun
  analysis : Sema.Fault → DriverRun
  out_of_fuel : DriverRun

abbrev pub stop : DriverLine → DriverRun
stop l = ended (record { code = 1; lines = l ∷ []; diags = [] })

-- the end of `main`, whatever the diagnostics are
abbrev pub finish_analysis : Outcome (Unit {0}) → DriverRun
finish_analysis (Sema.done a t) = ended (record { code = 0; lines = []; diags = t.diags })
finish_analysis (Sema.fault f) = analysis f
finish_analysis Sema.out_of_fuel = out_of_fuel

-- the consumer has the diagnostics of the parser and of the order before those of the passes
abbrev pub start_analysis : System → List Diagnostic → Sema
start_analysis sys ds = record (initial sys.reaches sys.garbage) { diags = ds }

-- from `BestEffortVisitOrder` on
unfoldable pub analyse_units : ℕ → System → Frontend → DriverRun
unfolding visit_order programs_of run_frontend
analyse_units fuel sys s =
    let order =
      visit_order (sys.components s.units) (record { files = []; diags = s.builder.diags }) in
    elim (programs_of s.units order.files) [
      | none ↦ no_program
      | some ps ↦
          finish_analysis (run_frontend fuel s.builder.next ps (start_analysis sys order.diags))
    ]

abbrev pub after_load : ℕ → System → Ran → DriverRun
after_load fuel sys (ran s) = analyse_units fuel sys s
after_load fuel sys (failed f) = traversal f
after_load fuel sys Frontend.out_of_fuel = out_of_fuel

abbrev pub message_of : Opened → String
message_of (missing msg) = msg
message_of (found c) = ""

-- from `SM.OpenFile` on
unfoldable pub open_root : ℕ → ℕ → System → String → DriverRun
unfolding load analyse_units
open_root rounds fuel sys path = elim (load sys.disk rounds path) [
  | none ↦ stop (cannot_open (message_of (sys.disk.get_file path)))
  | some r ↦ after_load fuel sys r
]

-- `rounds` and `fuel` are those of the traversal and of the passes.
unfoldable pub frontend_main : ℕ → ℕ → System → String → DriverRun
unfolding open_root
frontend_main rounds fuel sys input =
    if str_eq input "" then stop no_input_file else elim (sys.real_path input) [
      | unresolved msg ↦ stop (cannot_resolve input msg)
      | resolved path ↦ open_root rounds fuel sys path
    ]
