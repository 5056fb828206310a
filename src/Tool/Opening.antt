-- ===== src/Tool/Opening.antt =====
-- compiler/parse-tree.cpp: the input that is read and the output that is opened.
use supreme_doodle.Common.{
  ℕ, ◌≡◌, ◌∙◌, inl, inr, Option, none, some, List, [], ◌∷◌, ◌++◌, String, str_eq, Bool-cases,
  if◌then◌else◌,
}
use supreme_doodle.Parser.Actions.{Builder}
use supreme_doodle.Parser.Session.{Input, new_session, parse, report_errors}
use supreme_doodle.Tool.{
  Options, Host, Read, contents, failure, ToolLine, reading_stdin, opening_input, opening_output,
  completed, ToolRun, exit_with, read_input, open_output_file, print_mode, with_parsed,
  parse_tree_main,
}

-- what is read as the input, and why the output cannot be opened
abbrev pub input_of : Options → Host → Read
input_of o h = if str_eq o.input_filename "" then h.get_stdin else h.get_file o.input_filename

abbrev pub output_error : Options → Host → Option String
output_error o h = if str_eq o.output_filename "" then none else h.open_output o.output_filename

-- the builder after the errors of the syntax were reported
abbrev pub reported : Input → Builder → Builder
reported i b = report_errors i.text.file i.syntax_errors b

abbrev pub verbose_lines : Options → List ToolLine → List ToolLine
verbose_lines o ls = if o.verbose then (ls ++ completed ∷ []) else ls

module _ (o : Options) (h : Host) where
  pub read_input-contents :
      (k : Input → ToolRun) (i : Input) → input_of o h ≡ contents i → read_input o h k ≡ k i
  unfolding read_input
  read_input-contents k i e = elim (Bool-cases (str_eq o.input_filename "")) [
    | inl f ↦ let at : h.get_stdin ≡ contents i = rw f at e in rw (f, at, read_input)
    | inr f ↦
        let at : h.get_file o.input_filename ≡ contents i = rw f at e in rw (f, at, read_input)
  ]

  pub read_input-failure :
      (k : Input → ToolRun) (code : ℕ) (msg : String)
      → input_of o h ≡ failure code msg
      → (l : ToolLine) × (read_input o h k ≡ exit_with l)
  unfolding read_input
  read_input-failure k code msg e = elim (Bool-cases (str_eq o.input_filename "")) [
    | inl f ↦
        let at : h.get_stdin ≡ failure code msg = rw f at e in
        (reading_stdin code msg, rw (f, at, read_input))
    | inr f ↦
        let at : h.get_file o.input_filename ≡ failure code msg = rw f at e in
        (opening_input o.input_filename msg, rw (f, at, read_input))
  ]

  pub open_output_file-none : (k : ToolRun) → output_error o h ≡ none → open_output_file o h k ≡ k
  unfolding open_output_file
  open_output_file-none k e = elim (Bool-cases (str_eq o.output_filename "")) [
    | inl f ↦ rw (f, open_output_file)
    | inr f ↦
        let at : h.open_output o.output_filename ≡ none = rw f at e in rw (f, at, open_output_file)
  ]

  pub open_output_file-some :
      (k : ToolRun) (msg : String)
      → output_error o h ≡ some msg
      → open_output_file o h k ≡ exit_with (opening_output o.output_filename msg)
  unfolding open_output_file
  open_output_file-some k msg e = elim (Bool-cases (str_eq o.output_filename "")) [
    | inl f ↦ let at : none ≡ some msg = rw f at e in cc
    | inr f ↦
        let at : h.open_output o.output_filename ≡ some msg = rw f at e in
        rw (f, at, open_output_file)
  ]

  -- The input was read and the output can be opened.
  abbrev pub IsOpen : Input → Type 0
  IsOpen i = (input_of o h ≡ contents i) × (output_error o h ≡ none)

  pub main-open :
      (b : Builder) (i : Input)
      → IsOpen i
      → parse_tree_main o h b
        ≡ with_parsed (parse i (str_eq o.production_mode "tree") (new_session b)) (print_mode o h)
  unfolding parse_tree_main
  main-open b i e = read_input-contents _ i e.0 ∙ open_output_file-none _ e.1
