-- ===== src/Tool/ExitCode.antt =====
-- compiler/parse-tree.cpp: the exit codes of the tool.
use supreme_doodle.Common.{
  ℕ, arith, ◌≡◌, ◌↔◌, refl, ◌∙◌, sym, ap, inl, inr, Option, none, some, List, [], ◌∷◌, String,
  str_eq, Bool-cases,
}
use supreme_doodle.Parser.Actions.{Builder}
use supreme_doodle.Parser.Session.{
  Input, Session, Parsed, Written, refused, parsed, aborted, print_ast, print_parse_tree, written,
}
use supreme_doodle.Tool.{
  Options, Host, Read, contents, failure, ToolLine, opening_output, invalid_mode, Exit, ToolRun,
  Output, exits, aborts, exit_with, tree_text, ast_text, no_text, finish, finish_written,
  print_mode, with_parsed, parse_tree_main,
}
use supreme_doodle.Tool.Opening.{
  input_of, output_error, read_input-contents, read_input-failure, open_output_file-some, IsOpen,
  main-open,
}

module _ (o : Options) (h : Host) where
  finish-zero :
      (ls : List ToolLine) (out : Output) (s : Session) (x : Exit)
      → finish o ls out s ≡ exits x
      → x.code ≡ 0
  unfolding finish
  finish-zero ls out s x r = cc

  finish_written-zero :
      {A : Type 0} (f : A → Output) (s : Session) (w : Written A) (x : Exit)
      → finish_written f o s w ≡ exits x
      → x.code ≡ 0
  finish_written-zero f s (written a) x r = finish-zero [] (f a) s x r
  finish_written-zero f s (refused e) x r = cc

  print_mode-zero : (s : Session) (x : Exit) → print_mode o h s ≡ exits x → x.code ≡ 0
  unfolding print_mode
  print_mode-zero s x r = elim (Bool-cases (str_eq o.production_mode "tree")) [
    | inl t ↦ finish_written-zero tree_text s (print_parse_tree h.to_string_tree s) x (rw t at r)
    | inr t ↦ elim (Bool-cases (str_eq o.production_mode "ast")) [
      | inl a ↦ finish_written-zero ast_text s (print_ast s) x (rw (t, a) at r)
      | inr a ↦ finish-zero (invalid_mode o.production_mode ∷ []) no_text s x (rw (t, a) at r)
    ]
  ]

  with_parsed-zero : (p : Parsed) (x : Exit) → with_parsed p (print_mode o h) ≡ exits x → x.code ≡ 0
  with_parsed-zero (parsed p s) x r = print_mode-zero s x r
  with_parsed-zero (aborted e) x r = cc

  exit-one : (l : ToolLine) (x : Exit) → exit_with l ≡ exits x → x.code ≡ 0 → ⊥
  exit-one l x r z = let one : 1 ≡ x.code = ap code_of r in omega (arith, one, z)
    where
      code_of : ToolRun → ℕ
      code_of (exits y) = y.code
      code_of (aborts e) = 0

  -- The tool ends, if it is not aborted, with code 0 exactly when its input was read and its output could be
  -- opened: no error of the syntax and no unknown mode changes the code.
  pub main-exit_code :
      (b : Builder) (x : Exit)
      → parse_tree_main o h b ≡ exits x
      → (x.code ≡ 0) ↔ ((i : Input) × IsOpen o h i)
  unfolding parse_tree_main
  main-exit_code b x r = (
    λ z. opened z (input_of o h) refl (output_error o h) refl,
    λ p. with_parsed-zero _ x (sym (main-open o h b p.0 p.1) ∙ r),
  )
    where
      opened :
          x.code ≡ 0
          → (c : Read) → input_of o h ≡ c
          → (w : Option String) → output_error o h ≡ w
          → (i : Input) × IsOpen o h i
      opened z (contents i) e none f = (i, (e, f))
      opened z (contents i) e (some msg) f = absurd (
          exit-one (opening_output o.output_filename msg) x
            (sym (read_input-contents o h _ i e ∙ open_output_file-some o h _ msg f) ∙ r) z)
      opened z (failure code msg) e w f =
          let failed = read_input-failure o h _ code msg e in
          absurd (exit-one failed.0 x (sym failed.1 ∙ r) z)
