-- ===== src/Tool.antt =====
-- compiler/parse-tree.cpp: the tool that parses one file and prints its parse tree or its syntax tree.
pub mod Opening
pub mod Modes
pub mod ExitCode
use supreme_doodle.Common.{
  ℕ, Bool, true, false, Option, none, some, List, [], ◌∷◌, ◌++◌, String, str_eq, if◌then◌else◌,
}
use supreme_doodle.Basic.{Diagnostic}
use supreme_doodle.Parser.Actions.{Builder}
use supreme_doodle.Parser.Tree.{ProgramTree}
use supreme_doodle.Parser.Session.{
  Input, Session, SessionFault, Parsed, parsed, aborted, new_session, parse, Written, written,
  refused, print_ast, print_parse_tree,
}
use supreme_doodle.Printer.{Line}

-- the options of the command line, of which an empty name is one that is not given
pub record Options : Type 0 where
  pub input_filename : String
  pub output_filename : String
  pub verbose : Bool
  pub production_mode : String

-- `ErrorOr`: the value and the message of an error code
pub data Read : Type 0 where
  contents : Input → Read
  failure : ℕ → String → Read

-- The files: the standard input, a file by its name, the message when an output file cannot be opened; and the text
-- of a parse tree.
pub record Host : Type 0 where
  pub get_stdin : Read
  pub get_file : String → Read
  pub open_output : String → Option String
  pub to_string_tree : Input → ProgramTree → String

pub data ToolLine : Type 0 where
  reading_stdin : ℕ → String → ToolLine
  opening_input : String → String → ToolLine
  opening_output : String → String → ToolLine
  invalid_mode : String → ToolLine
  completed : ToolLine

pub data Output : Type 0 where
  tree_text : String → Output
  ast_text : List Line → Output
  no_text : Output

-- the exit code, the tool's own lines on the error stream, the diagnostics, and the output file that is kept
pub record Exit : Type 0 where
  pub code : ℕ
  pub lines : List ToolLine
  pub diags : List Diagnostic
  pub kept : Option Output

pub data ToolRun : Type 0 where
  exits : Exit → ToolRun
  aborts : SessionFault → ToolRun

abbrev pub exit_with : ToolLine → ToolRun
exit_with l = exits (record { code = 1; lines = l ∷ []; diags = []; kept = none })

-- "Read input file"
unfoldable pub read_input : Options → Host → (Input → ToolRun) → ToolRun
read_input o h k =
    if str_eq o.input_filename ""
    then elim h.get_stdin [
      | contents i ↦ k i
      | failure code msg ↦ exit_with (reading_stdin code msg)
    ]
    else elim (h.get_file o.input_filename) [
      | contents i ↦ k i
      | failure code msg ↦ exit_with (opening_input o.input_filename msg)
    ]

-- "Open output file"; the error code of the standard output is not tested
unfoldable pub open_output_file : Options → Host → ToolRun → ToolRun
open_output_file o h k =
    if str_eq o.output_filename "" then k else elim (h.open_output o.output_filename) [
      | none ↦ k
      | some msg ↦ exit_with (opening_output o.output_filename msg)
    ]

-- from `Out->keep()` on
unfoldable pub finish : Options → List ToolLine → Output → Session → ToolRun
finish o ls out s = exits (record {
  code = 0;
  lines = if o.verbose then (ls ++ completed ∷ []) else ls;
  diags = s.builder.diags;
  kept = some out;
})

abbrev pub finish_written : {A : Type 0} → (A → Output) → Options → Session → Written A → ToolRun
finish_written f o s (written a) = finish o [] (f a) s
finish_written f o s (refused e) = aborts e

-- the printing by the mode
unfoldable pub print_mode : Options → Host → Session → ToolRun
unfolding finish print_ast print_parse_tree
print_mode o h s =
    if str_eq o.production_mode "tree"
    then finish_written tree_text o s (print_parse_tree h.to_string_tree s)
    else (if str_eq o.production_mode "ast"
        then finish_written ast_text o s (print_ast s)
        else finish o (invalid_mode o.production_mode ∷ []) no_text s)

abbrev pub with_parsed : Parsed → (Session → ToolRun) → ToolRun
with_parsed (parsed p s) k = k s
with_parsed (aborted e) k = aborts e

unfoldable pub parse_tree_main : Options → Host → Builder → ToolRun
unfolding read_input open_output_file parse print_mode
parse_tree_main o h b = read_input o h λ i.
    open_output_file o h
      (with_parsed (parse i (str_eq o.production_mode "tree") (new_session b)) (print_mode o h))
