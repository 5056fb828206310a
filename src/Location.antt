-- ===== src/Location.antt =====
-- compiler/include/rxc/Basic/SourceManager.h: source ranges and locations.
use supreme_doodle.Common.{ℕ, ◌-◌, ◌^◌, Option, none, ◌==◌, if◌then◌else◌}

-- `SIZE_MAX` where `size_t` has 64 bits
abbrev pub size_max : ℕ
size_max = 2 ^ 64 - 1

pub record SrcRange : Type 0 where
  pub line_start : ℕ
  pub col_start : ℕ
  pub line_end : ℕ
  pub col_end : ℕ

abbrev pub builtin_range : SrcRange
builtin_range = record { line_start = size_max; col_start = 0; line_end = 0; col_end = 0 }

-- `file` is the identity of a `SourceFile`; `none` is the null pointer.
pub record SourceLocation : Type 0 where
  pub file : Option ℕ
  pub loc : SrcRange

abbrev pub builtin_location : SourceLocation
builtin_location = record { file = none; loc = builtin_range }

-- what `operator<<` writes of a range
pub data RangeText : Type 0 where
  builtin_text invalid_loc : RangeText
  positions : ℕ → ℕ → ℕ → ℕ → RangeText

unfoldable pub range_text : SrcRange → RangeText
range_text r =
    if r.line_start == size_max
    then builtin_text
    else (if r.line_start == 0
        then invalid_loc
        else positions r.line_start r.col_start r.line_end r.col_end)

-- the range that is constructed without arguments
abbrev pub no_range : SrcRange
no_range = record { line_start = 0; col_start = 0; line_end = 0; col_end = 0 }
