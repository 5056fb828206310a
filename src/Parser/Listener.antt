-- ===== src/Parser/Listener.antt =====
-- compiler/lib/Parser/ParserErrorListener.cpp: the diagnostic of a syntax error.
use supreme_doodle.Common.{ℕ, ◌+◌, some, String}
use supreme_doodle.Location.{SrcRange}
use supreme_doodle.Basic.{Diagnostic, located, error, syntax}
use supreme_doodle.Parser.Actions.{Token}

abbrev pub syntax_range : Token → SrcRange
syntax_range t = record {
  line_start = t.line;
  col_start = t.column + 1;
  line_end = t.line;
  col_end = t.column + t.size + 1;
}

-- `syntaxError` at the offending token
unfoldable pub syntax_error : ℕ → Token → String → Diagnostic
syntax_error file t msg =
    located error (syntax msg) (record { file = some file; loc = syntax_range t })
