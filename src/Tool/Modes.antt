-- ===== src/Tool/Modes.antt =====
-- compiler/parse-tree.cpp: what the tool does in its modes.
use supreme_doodle.Common.{◌≡◌, ◌∙◌, ap, true, false, some, List, [], str_eq}
use supreme_doodle.Ast.{ProgramDecl}
use supreme_doodle.Basic.{Diagnostic}
use supreme_doodle.Parser.Actions.{Builder}
use supreme_doodle.Parser.Session.{Input, Session, new_session, parse, parse_tree, print_parse_tree}
use supreme_doodle.Tool.{
  Options, Host, ToolLine, ToolRun, Output, exits, tree_text, finish, print_mode, with_parsed,
  parse_tree_main,
}
use supreme_doodle.Tool.Opening.{reported, verbose_lines, IsOpen, main-open}

module _ (o : Options) (h : Host) where
  -- what a successful run of a mode comes to
  abbrev finished : List ToolLine → List Diagnostic → Output → ToolRun
  finished ls ds out =
      exits (record { code = 0; lines = verbose_lines o ls; diags = ds; kept = some out })

  -- In the mode tree, once the input is read and the output can be opened, the tool ends with code 0 on
  -- every input, with errors of the syntax or without: it prints the parse tree, and the diagnostics are
  -- those errors.
  pub main-tree :
      (b : Builder) (i : Input)
      → o.production_mode ≡ "tree"
      → IsOpen o h i
      → parse_tree_main o h b
        ≡ exits (record {
          code = 0;
          lines = verbose_lines o [];
          diags = (reported i b).diags;
          kept = some (tree_text (h.to_string_tree i i.tree));
        })
  unfolding parse parse_tree print_mode print_parse_tree finish
  main-tree b i m e =
      let is_tree : str_eq o.production_mode "tree" ≡ true = ap (λ s. str_eq s "tree") m in
      main-open o h b i e
      ∙ ap (λ t. with_parsed (parse i t (new_session b)) (print_mode o h)) is_tree
      ∙ rw (is_tree, print_mode)

  module _ (b : Builder) (i : Input) (other : str_eq o.production_mode "tree" ≡ false)
      (e : IsOpen o h i) where
    stored : ProgramDecl → Builder → Session
    stored p t = record (parse_tree i (new_session b)) { root = some p; builder = t }
