-- ===== src/Console.antt =====
-- compiler/lib/Basic/Diagnostic.cpp: the consumer that prints a diagnostic with the lines of its source. A file's
-- content is its bytes. The padding of a line's number to a width is left out.
pub mod Lines
use Prim.Native.Nat.{compare, Ordering}
use supreme_doodle.Common.{
  ℕ, zero, suc, ◌+◌, ◌-◌, ◌==◌, Bool, true, false, ◌&&◌, Option, none, some, List, [], ◌∷◌, ◌++◌,
  ltb, if◌then◌else◌, length, drop, index_of,
}
use supreme_doodle.Location.{SrcRange, SourceLocation}
use supreme_doodle.Basic.{Diagnostic, Severity, Message}

abbrev pub take : {A : Type 0} → ℕ → List A → List A
take zero xs = []
take (suc n) [] = []
take (suc n) (x ∷ xs) = x ∷ take n xs

-- A line of the source with its number, and the bar without a number at the end
pub data Printed : Type 0 where
  origin : ℕ → SrcRange → Printed
  message : Severity → Message → Printed
  source_line : ℕ → List ℕ → Printed
  end_bar : Printed

abbrev pub is_newline : ℕ → Bool
is_newline c = c == 10

-- `find('\n', start)`, or the size if there is none
abbrev pub line_end : List ℕ → ℕ → ℕ
line_end content start = elim (index_of is_newline (drop start content)) [
  | none ↦ length content
  | some i ↦ start + i
]

abbrev pub slice : List ℕ → ℕ → ℕ → List ℕ
slice content a b = take (b - a) (drop a content)

abbrev pub leb : ℕ → ℕ → Bool
leb a b = if ltb b a then false else true

-- what is printed of one line, before what is printed of the others
abbrev pub print_line : SrcRange → ℕ → List ℕ → List Printed → List Printed
print_line r n line rest =
    if leb r.line_start n && leb n r.line_end then source_line n line ∷ rest else rest

abbrev pub prepend : SrcRange → ℕ → List ℕ → Option (List Printed) → Option (List Printed)
prepend r n line none = none
prepend r n line (some rest) = some (print_line r n line rest)

-- the loop, with `CurrentLine`, `LineStartIdx` and `LineEndIdx`
unfoldable pub print_lines : SrcRange → List ℕ → ℕ → ℕ → ℕ → ℕ → Option (List Printed)
print_lines r content zero n start stop = none
print_lines r content (suc fuel) n start stop =
    let e = line_end content start in
    let rest = print_lines r content fuel (n + 1) (e + 1) e in
    if ltb stop (length content) then prepend r n (slice content start e) rest else some []

abbrev finish : Option (List Printed) → Option (List Printed)
finish none = none
finish (some ls) = some (ls ++ end_bar ∷ [])

-- `printSourceLocation`; every round but the last passes a newline
unfoldable pub print_source_location : SrcRange → List ℕ → Option (List Printed)
unfolding print_lines
print_source_location r content = finish (print_lines r content (length content + 2) 1 0 0)

-- A source that is looked for through a null pointer is a crash.
pub data Report : Type 0 where
  reported : List Printed → Report
  null_file out_of_fuel : Report

abbrev with_source : List Printed → Option (List Printed) → Report
with_source header none = out_of_fuel
with_source header (some ls) = reported (header ++ ls)

abbrev report_at : (ℕ → List ℕ) → List Printed → Option SourceLocation → Report
report_at buffer ms none = reported ms
report_at buffer ms (some loc) = elim loc.file [
  | none ↦ null_file
  | some file ↦ with_source (origin file loc.loc ∷ ms) (print_source_location loc.loc (buffer file))
]

-- `printMessageHeader`
unfoldable pub print_message_header : (ℕ → List ℕ) → Diagnostic → Report
unfolding print_source_location
print_message_header buffer d = report_at buffer (message d.kind d.message ∷ []) d.loc
