-- ===== src/Tests/Console.antt =====
-- Printed source lines, and the instance of their theorem.
use supreme_doodle.Common.{ℕ, ◌≡◌, refl, some, List, [], ◌∷◌, ◌++◌}
use supreme_doodle.Location.{SrcRange, builtin_location}
use supreme_doodle.Basic.{located, note, previously_declared}
use supreme_doodle.Console.{
  source_line, end_bar, null_file, print_lines, print_source_location, print_message_header,
}
use supreme_doodle.Console.Lines.{selected, print_source_location-selected}

abbrev range : SrcRange
range = record { line_start = 2; col_start = 1; line_end = 3; col_end = 1 }

-- "a\n\nb\n"
abbrev content : List ℕ
content = 97 ∷ 10 ∷ 10 ∷ 98 ∷ 10 ∷ []

print_source_location-selected_example :
    print_source_location range content ≡ some (selected range content ++ end_bar ∷ [])
print_source_location-selected_example = print_source_location-selected range content

second_and_third :
    print_source_location range content
    ≡ some (source_line 2 [] ∷ source_line 3 (98 ∷ []) ∷ end_bar ∷ [])
unfolding print_source_location print_lines
second_and_third = refl

-- a note at the declaration of a built-in name
builtin_note :
    print_message_header (λ f. []) (located note previously_declared builtin_location) ≡ null_file
unfolding print_message_header
builtin_note = refl
