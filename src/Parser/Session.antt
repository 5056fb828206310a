-- ===== src/Parser/Session.antt =====
-- compiler/lib/Parser/Parser.cpp: the parser of one file, with what it keeps from one call to the next.
use supreme_doodle.Common.{ℕ, Bool, Option, none, some, List, [], ◌∷◌, ◌++◌, String, if◌then◌else◌}
use supreme_doodle.Ast.{ProgramDecl}
use supreme_doodle.Parser.Tree.{ProgramTree}
use supreme_doodle.Parser.Actions.{Source, Token, Builder, Built, built, crash, Crash}
use supreme_doodle.Parser.Listener.{syntax_error}
use supreme_doodle.Parser.Program.{build_program}
use supreme_doodle.Printer.{Line, print}
use supreme_doodle.Printer.Nodes.{outline_program}

-- What the generated lexer and parser make of a file: its tokens, its parse tree, and the calls of
-- `syntaxError`, each with its token and message.
pub record Input : Type 0 where
  pub text : Source
  pub tree : ProgramTree
  pub syntax_errors : List (Token × String)

-- the members `Impl`, `ParseTreeRoot` and `Root`, and the context and consumer of diagnostics
pub record Session : Type 0 where
  pub impl : Option Input
  pub parse_tree_root : Option ProgramTree
  pub root : Option ProgramDecl
  pub builder : Builder

-- the four assertions, a crash of the visitor, and a flag of the printer out of bounds
pub data SessionFault : Type 0 where
  existing_state no_root no_tree no_impl : SessionFault
  visitor : Crash → SessionFault
  flags : SessionFault

pub data Parsed : Type 0 where
  parsed : Option ProgramDecl → Session → Parsed
  aborted : SessionFault → Parsed

abbrev pub new_session : Builder → Session
new_session b = record { impl = none; parse_tree_root = none; root = none; builder = b }

-- the listener over all errors, in their order
unfoldable pub report_errors : ℕ → List (Token × String) → Builder → Builder
report_errors file [] b = b
report_errors file ((t, msg) ∷ es) b =
    report_errors file es (record b { diags = b.diags ++ syntax_error file t msg ∷ [] })

-- `Root = V.visit(ParseTreeRoot)`
abbrev pub store_root : Built ProgramDecl → Session → Parsed
store_root (built p b) s = parsed (some p) (record s { root = some p; builder = b })
store_root (crash c) s = aborted (visitor c)

-- the parser's part of `parse`
unfoldable pub parse_tree : Input → Session → Session
unfolding report_errors
parse_tree i s = record s {
  impl = some i;
  parse_tree_root = some i.tree;
  builder = report_errors i.text.file i.syntax_errors s.builder;
}

unfoldable pub parse : Input → Bool → Session → Parsed
unfolding parse_tree build_program
parse i skip_ast s = elim s.impl [
  | some old ↦ aborted existing_state
  | none ↦
      let t = parse_tree i s in
      if skip_ast then parsed t.root t else store_root (build_program i.text i.tree t.builder) t
]

-- what a printing member writes, or the assertion that fails
pub data Written (A : Type 0) : Type 0 where
  written : A → Written A
  refused : SessionFault → Written A

unfoldable pub print_ast : Session → Written (List Line)
unfolding print outline_program
print_ast s = elim s.root [
  | none ↦ refused no_root
  | some p ↦ elim (print (outline_program p)) [ none ↦ refused flags | some ls ↦ written ls ]
]

-- `to_string_tree` is the tree's `toStringTree`, with the rules of the parser of the input.
unfoldable pub print_parse_tree : (Input → ProgramTree → String) → Session → Written String
print_parse_tree to_string_tree s = elim s.parse_tree_root [
  | none ↦ refused no_tree
  | some t ↦ elim s.impl [ none ↦ refused no_impl | some i ↦ written (to_string_tree i t) ]
]
