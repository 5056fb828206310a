-- ===== src/Tests/Tool.antt =====
-- Witnesses of the theorems on the tool that prints trees.
use supreme_doodle.Common.{◌≡◌, ◌↔◌, refl, true, none, some, [], ◌∷◌}
use supreme_doodle.Parser.Actions.{Token}
use supreme_doodle.Parser.Session.{Input}
use supreme_doodle.Tool.{
  Options, Host, contents, failure, Exit, exits, completed, tree_text, parse_tree_main,
}
use supreme_doodle.Tool.Opening.{IsOpen, reported}
use supreme_doodle.Tool.Modes.{main-tree}
use supreme_doodle.Tool.ExitCode.{main-exit_code}
use supreme_doodle.Tests.Parser.{text, small, fresh}

-- a file with an error of the syntax
abbrev wrong_token : Token
wrong_token = record { line = 2; column = 4; size = 1 }

abbrev source_file : Input
source_file = record {
  text = text;
  tree = small;
  syntax_errors = (wrong_token, "missing ';'") ∷ [];
}

abbrev one_file : Host
one_file = record {
  get_stdin = failure 5 "closed";
  get_file = λ name. contents source_file;
  open_output = λ name. none;
  to_string_tree = λ i t. "(program)";
}

abbrev as_tree : Options
as_tree = record {
  input_filename = "a.rx";
  output_filename = "";
  verbose = true;
  production_mode = "tree";
}

abbrev as_syntax : Options
as_syntax = record as_tree { production_mode = "ast" }

abbrev tree_printed : Exit
tree_printed = record {
  code = 0;
  lines = completed ∷ [];
  diags = (reported source_file fresh).diags;
  kept = some (tree_text "(program)");
}

tree_run : parse_tree_main as_tree one_file fresh ≡ exits tree_printed
tree_run = main-tree as_tree one_file fresh source_file refl (refl, refl)

main-exit_code_example : (tree_printed.code ≡ 0) ↔ ((i : Input) × IsOpen as_tree one_file i)
main-exit_code_example = main-exit_code as_tree one_file fresh tree_printed tree_run
