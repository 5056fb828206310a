-- ===== src/Frontend.antt =====
-- compiler/lib/Frontend and the source manager of compiler/lib/Basic/SourceManager.cpp: the files that are opened
-- and parsed, from the root file along its imports. Tables are keyed by absolute paths; the newest entry is first.
pub mod Paths
pub mod Invariant
pub mod Rounds
pub mod Ends
pub mod Order
pub mod Reached
pub mod Graph
pub mod Ahead
pub mod Connected
use supreme_doodle.Common.{
  ℕ, zero, suc, Bool, true, false, ◌||◌, Option, none, some, List, [], ◌∷◌, ◌++◌, map, String,
  str_eq, if◌then◌else◌,
}
use supreme_doodle.Ast.{ProgramDecl, ImportDecl, ImportType, file, module_import}
use supreme_doodle.Basic.{unlocated, error, error_code}
use supreme_doodle.Parser.Tree.{ProgramTree}
use supreme_doodle.Parser.Actions.{Source, Builder, Built, built, crash, Crash, report}
use supreme_doodle.Parser.Program.{build_program}

-- a file's buffer: its tokens and its parse tree
pub record Contents : Type 0 where
  pub text : Source
  pub tree : ProgramTree

-- `ErrorOr` of `MemoryBuffer::getFile`
pub data Opened : Type 0 where
  found : Contents → Opened
  missing : String → Opened

-- the file system, and LLVM's `parent_path` and `append`
pub record Disk : Type 0 where
  pub get_file : String → Opened
  pub parent_path : String → String
  pub append : String → String → String

pub record TranslationUnit : Type 0 where
  pub path : String
  pub contents : Contents
  pub program : Option ProgramDecl
  pub imported : List String

-- `opened` is `OpenFiles` of the source manager, `units` that of the context. Each unit has its own nodes, whose
-- addresses all differ, so one counter gives the identities of all.
pub record Frontend : Type 0 where
  pub opened : List String
  pub units : List TranslationUnit
  pub queue : List String
  pub builder : Builder

-- a crash of the visitor, the two assertions, and a key of the table that is missing
pub data Fault : Type 0 where
  parser : Crash → Fault
  already_open not_empty no_unit : Fault

pub data Ran : Type 0 where
  ran : Frontend → Ran
  failed : Fault → Ran
  out_of_fuel : Ran

abbrev pub and_then : Ran → (Frontend → Ran) → Ran
and_then (ran s) k = k s
and_then (failed e) k = failed e
and_then out_of_fuel k = out_of_fuel

-- `count`
abbrev pub member : String → List String → Bool
member p [] = false
member p (q ∷ qs) = str_eq q p || member p qs

abbrev pub paths_of : List TranslationUnit → List String
paths_of us = map (λ (u : TranslationUnit). u.path) us

-- `OpenFiles.at`
abbrev pub unit_at : String → List TranslationUnit → Option TranslationUnit
unit_at p [] = none
unit_at p (u ∷ us) = if str_eq u.path p then some u else unit_at p us

-- a member of the unit at a path is written
abbrev pub update_at :
    (TranslationUnit → TranslationUnit) → String → List TranslationUnit → List TranslationUnit
update_at f p [] = []
update_at f p (u ∷ us) = (if str_eq u.path p then f u else u) ∷ update_at f p us

abbrev pub set_program : ProgramDecl → TranslationUnit → TranslationUnit
set_program d u = record u { program = some d }

abbrev pub push_imported : String → TranslationUnit → TranslationUnit
push_imported p u = record u { imported = u.imported ++ p ∷ [] }

-- `addImportedFiles` on the unit of a file
unfoldable pub add_imported_files : String → String → Frontend → Frontend
add_imported_files unit p s = record s { units = update_at (push_imported p) unit s.units }

abbrev pub new_unit : String → Contents → TranslationUnit
new_unit p c = record { path = p; contents = c; program = none; imported = [] }

-- `SM.OpenFile`, of which the assertion is `is_open`, and then what is done with the file that it found
unfoldable pub open_file :
    Bool
    → String
    → Opened
    → (Contents → Frontend → Ran)
    → (String → Frontend → Ran)
    → Frontend
    → Ran
open_file true p o k e s = failed already_open
open_file false p (missing text) k e s = e text s
open_file false p (found c) k e s = k c (record s { opened = p ∷ s.opened })

-- the unit is put into the table and into the queue, and is imported
unfoldable pub enqueue : String → String → Contents → Frontend → Ran
unfolding add_imported_files
enqueue unit p c s = ran (
    add_imported_files unit p
      (record s { units = new_unit p c ∷ s.units; queue = s.queue ++ p ∷ [] }))

-- The import is reported and left out.
unfoldable pub report_missing : String → Frontend → Ran
report_missing text s = ran (record s {
  builder = record s.builder { diags = s.builder.diags ++ unlocated error (error_code text) ∷ [] };
})

-- an import of the file at a path, which is in the table or not
unfoldable pub import_path_of : Disk → String → String → Bool → Frontend → Ran
unfolding open_file enqueue report_missing add_imported_files
import_path_of disk unit p true s = ran (add_imported_files unit p s)
import_path_of disk unit p false s =
    open_file (member p s.opened) p (disk.get_file p) (enqueue unit p) report_missing s

unfoldable pub import_file : Disk → String → ImportDecl → ImportType → Frontend → Ran
unfolding import_path_of
import_file disk unit d module_import s = ran s
import_file disk unit d file s =
    let p = disk.append (disk.parent_path unit) d.head.name in
    import_path_of disk unit p (member p (paths_of s.units)) s

unfoldable pub import_files : Disk → String → List ImportDecl → Frontend → Ran
unfolding import_file
import_files disk unit [] s = ran s
import_files disk unit (d ∷ ds) s =
    and_then (import_file disk unit d d.kind s) (import_files disk unit ds)

-- `TranslationUnit::parse`, once the visitor is done
unfoldable pub store_program :
    String → Built ProgramDecl → (ProgramDecl → Frontend → Ran) → Frontend → Ran
store_program unit (crash c) k s = failed (parser c)
store_program unit (built d b) k s =
    k d (record s { units = update_at (set_program d) unit s.units; builder = b })

-- the body of the loop for the unit that was in front of the queue
unfoldable pub visit_unit : Disk → String → Option TranslationUnit → Frontend → Ran
unfolding store_program import_files build_program
visit_unit disk unit none s = failed no_unit
visit_unit disk unit (some u) s =
    store_program unit (build_program u.contents.text u.contents.tree s.builder)
      (λ d. import_files disk unit d.imports) s

-- `traverseFileImports`, from the queue
unfoldable pub traverse : Disk → ℕ → List String → Frontend → Ran
unfolding visit_unit
traverse disk fuel [] s = ran s
traverse disk zero (unit ∷ queue) s = out_of_fuel
traverse disk (suc fuel) (unit ∷ queue) s =
    and_then (visit_unit disk unit (unit_at unit s.units) (record s { queue = queue }))
      (λ t. traverse disk fuel t.queue t)

-- `setRootFile` and the traversal, as `main` calls them for the root file that it opened
unfoldable pub traverse_from_root : Disk → ℕ → String → Contents → Frontend → Ran
unfolding traverse
traverse_from_root disk fuel p c s = elim s.units [
  | [] ↦ traverse disk fuel (p ∷ []) (record s { units = new_unit p c ∷ []; queue = p ∷ [] })
  | u ∷ us ↦ failed not_empty
]

abbrev empty : Frontend
empty = record { opened = []; units = []; queue = []; builder = record { next = 0; diags = [] } }

-- `main` up to the analysis; without the root file there is nothing to analyse
unfoldable pub load : Disk → ℕ → String → Option Ran
unfolding open_file traverse_from_root
load disk fuel root = elim (disk.get_file root) [
  | missing text ↦ none
  | found c ↦
      some (open_file false root (found c) (traverse_from_root disk fuel root) report_missing empty)
]
