-- ===== src/Tests/Frontend.antt =====
-- Two files that import each other, with an import that is missing, and the instances of the theorems.
use supreme_doodle.Common.{
  ◌≡◌, refl, Bool, true, false, ◌||◌, Option, none, some, List, [], ◌∷◌, String, ◌<>◌, map, str_eq,
  arith,
}
use mathlib.Core.Path.{subst}
use supreme_doodle.Basic.{Message, Diagnostic, error_code, import_cycle, part_of_cycle}
use supreme_doodle.Parser.Tree.{ImportTree, quoted}
use supreme_doodle.Parser.Complete.{complete_program}
use supreme_doodle.Parser.Actions.{create_at, unquote}
use supreme_doodle.Parser.Program.{
  build_program, build_package, build_imports, build_import, import_path, build_exports,
}
use supreme_doodle.Frontend.{
  TranslationUnit, Contents, Opened, found, missing, Disk, Ran, ran, load, open_file, traverse,
  traverse_from_root, visit_unit, store_program, import_files, import_file, import_path_of, enqueue,
  report_missing, add_imported_files,
}
use supreme_doodle.Frontend.Rounds.{ImportsListed, Finite, Ends, Loaded}
use supreme_doodle.Frontend.Ends.{load_ends}
use supreme_doodle.Frontend.{paths_of, member, Frontend}
use supreme_doodle.Frontend.Order.{Order, add_component, visit_order, programs_in_order}
use supreme_doodle.Frontend.Connected.{Connected, load-Connected}
use supreme_doodle.Frontend.Reached.{flat, all_reports, visit_order-flat, analysis_reached}
use supreme_doodle.Ast.{ProgramDecl, ImportDecl}
use supreme_doodle.Common.{◌++◌, append-nil}
use supreme_doodle.Tests.Parser.{text, from}

abbrev import_of : String → ImportTree
import_of k = record { at = from 0 1; path_at = from 1 1; path = quoted k; alias = none }

abbrev file_of : List ImportTree → Contents
file_of is = record {
  text = text;
  tree = record { at = from 0 3; package_decl = none; imports = is; decls = [] };
}

-- import "b" import "c"
abbrev pub first : Contents
first = file_of (import_of "\"b\"" ∷ import_of "\"c\"" ∷ [])

-- import "a"
abbrev second : Contents
second = file_of (import_of "\"a\"" ∷ [])

abbrev get : Bool → Bool → Opened
get true b = found first
get false true = found second
get false false = missing "no such file"

abbrev pub disk : Disk
disk = record {
  get_file = λ p. get (str_eq "/a" p) (str_eq "/b" p);
  parent_path = λ p. "";
  append = λ p k. (p <> "/") <> k;
}

abbrev pub files : List String
files = "/a" ∷ "/b" ∷ []

abbrev complete_of : Opened → Bool
complete_of (found c) = complete_program c.tree
complete_of (missing e) = true

complete_get : (x y : Bool) (c : Contents) → get x y ≡ found c → complete_program c.tree ≡ true
unfolding complete_program
complete_get true y c e = subst (λ o. complete_of o ≡ true) e refl
complete_get false true c e = subst (λ o. complete_of o ≡ true) e refl
complete_get false false c e = cc

listed_get : (x y : Bool) (c : Contents) → get x y ≡ found c → (x || (y || false)) ≡ true
listed_get true y c e = refl
listed_get false true c e = refl
listed_get false false c e = cc

all_listed : (unit : String) (ds : List ImportDecl) → ImportsListed disk files unit ds
unfolding ImportsListed
all_listed unit [] = tt
all_listed unit (d ∷ ds) = (
  λ k c e.
      let p = disk.append (disk.parent_path unit) d.head.name in
      listed_get (str_eq "/a" p) (str_eq "/b" p) c e,
  all_listed unit ds,
)

pub disk-Finite : Finite disk "/a" files
disk-Finite = record {
  rooted = refl;
  closed = λ p c b b' d m e f. all_listed p d.imports;
  complete = λ p c m e. complete_get (str_eq "/a" p) (str_eq "/b" p) c e;
}

load_ends_example : (r : Ran) × (load disk 2 "/a" ≡ some r) × Ends r (Loaded "/a")
load_ends_example = load_ends disk files 2 "/a" first disk-Finite (omega arith) refl

abbrev imported_by : Option Ran → List (List String)
imported_by (some (ran s)) = map (λ (u : TranslationUnit). u.path ∷ u.imported) s.units
imported_by r = []

abbrev messages_of : Option Ran → List Message
messages_of (some (ran s)) = map (λ (d : Diagnostic). d.message) s.builder.diags
messages_of r = []

files_imported : imported_by (load disk 2 "/a") ≡ ("/b" ∷ "/a" ∷ []) ∷ ("/a" ∷ "/b" ∷ []) ∷ []
unfolding load open_file traverse traverse_from_root visit_unit store_program import_files
    import_file import_path_of enqueue report_missing add_imported_files build_program build_package
    build_imports build_import import_path build_exports create_at unquote
files_imported = refl

missing_import : messages_of (load disk 2 "/a") ≡ error_code "no such file" ∷ []
unfolding load open_file traverse traverse_from_root visit_unit store_program import_files
    import_file import_path_of enqueue report_missing add_imported_files build_program build_package
    build_imports build_import import_path build_exports create_at unquote
missing_import = refl

-- All files are one component.
abbrev pub one_component : List TranslationUnit → List (List String)
one_component us = paths_of us ∷ []

pub known_component :
    (us : List TranslationUnit) (p : String)
    → member p (flat (one_component us)) ≡ true
    → member p (paths_of us) ≡ true
known_component us p e = subst (λ ps. member p ps ≡ true) (append-nil (paths_of us)) e

analysis_reached_example :
    (s : Frontend) × (load disk 2 "/a" ≡ some (ran s))
    × ((ds : List ProgramDecl) × (programs_in_order one_component s ≡ some ds))
analysis_reached_example =
    analysis_reached disk files 2 "/a" first one_component disk-Finite (omega arith) refl
      known_component

abbrev nothing_yet : Order
nothing_yet = record { files = []; diags = [] }

abbrev components : List (List String)
components = ("/c" ∷ []) ∷ ("/a" ∷ "/b" ∷ []) ∷ []

visit_order-flat_example :
    visit_order components nothing_yet
    ≡ record { files = [] ++ flat components; diags = [] ++ all_reports components }
visit_order-flat_example = visit_order-flat components nothing_yet

cycle_messages :
    map (λ (d : Diagnostic). d.message) (visit_order components nothing_yet).diags
    ≡ import_cycle ∷ part_of_cycle "/a" ∷ part_of_cycle "/b" ∷ []
unfolding visit_order add_component
cycle_messages = refl

abbrev empty_table : Frontend
empty_table = record {
  opened = [];
  units = [];
  queue = [];
  builder = record { next = 0; diags = [] };
}

abbrev state_of : Option Ran → Frontend
state_of (some (ran s)) = s
state_of r = empty_table

load-Connected_example : Connected "/a" (state_of (load disk 2 "/a")).units
unfolding load open_file traverse traverse_from_root visit_unit store_program import_files
    import_file import_path_of enqueue report_missing add_imported_files build_program build_package
    build_imports build_import import_path build_exports create_at unquote
load-Connected_example = load-Connected disk 2 "/a" (state_of (load disk 2 "/a")) refl
