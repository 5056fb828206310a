-- ===== src/Basic.antt =====
-- compiler/include/rxc/Basic/Diagnostic.h, and the texts that the analysis passes put into their
-- diagnostics: one constructor for each text, with the values that are spliced into it.
use supreme_doodle.Common.{Option, none, some, String}
use supreme_doodle.Location.{SourceLocation}
use supreme_doodle.Types.{QualType, NativeType}

pub data Severity : Type 0 where
  error warning note : Severity

pub data Message : Type 0 where
  -- "redefinition of type declaration '…'"
  type_redefinition : String → Message
  -- "redefinition of type alias declaration '…'"
  alias_redefinition : String → Message
  -- "previously declared here", "Previously declared here"
  previously_declared : Message
  -- "Undefined type reference to '…'"
  undefined_type : String → Message
  -- "Reference is not a type or alias declaration …"
  not_a_type : String → Message
  -- "referenced symbol is declared here"
  symbol_declared_here : Message
  -- "Duplicate field '…' in object type"
  duplicate_field : String → Message
  -- "Duplicate member '…' in enum type"
  duplicate_member : String → Message
  -- "Function cannot have the same name as another previously defined symbol'…'"
  name_clash : String → Message
  -- "Overloaded function cannot have the same parameter types as another function with the same name"
  same_parameters : Message
  -- "impl can only define functions on unqualified types. qualifiers will be ignored"
  qualifiers_ignored : Message
  -- "you can only define impl on a type declaration"
  impl_target : Message
  -- "Redefinition of declaration '…'"
  redefinition : String → Message
  -- "cannot initialize variable of type '…' with initializer of type '…'"
  bad_initializer : QualType → QualType → Message
  -- "Cannot default initialize without and initializer and type hint"
  no_initializer : Message
  -- "Type deduction failed, cannot implicitly convert a floating point literal to a …"
  float_to_integer : NativeType → Message
  -- "Type deduction failed, trying to create numeric type from non-numeric builtin type"
  non_numeric : Message
  -- "Duplicate object literal field '…'"
  duplicate_literal_field : String → Message
  -- "Found import cycle"
  import_cycle : Message
  -- "… is part of the import cycle"
  part_of_cycle : String → Message
  -- the text of an error code
  error_code : String → Message
  -- "Syntax Error …"
  syntax : String → Message

pub record Diagnostic : Type 0 where
  pub kind : Severity
  pub message : Message
  pub loc : Option SourceLocation

-- a diagnostic with the location that `setSourceLocation` was last given
abbrev pub located : Severity → Message → SourceLocation → Diagnostic
located kind message loc = record { kind = kind; message = message; loc = some loc }

abbrev pub unlocated : Severity → Message → Diagnostic
unlocated kind message = record { kind = kind; message = message; loc = none }
