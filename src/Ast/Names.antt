-- ===== src/Ast/Names.antt =====
-- compiler/include/rxc/AST/AST.h: `getTypeName` of the types of the syntax tree.
use supreme_doodle.Common.{String, ◌<>◌, if◌then◌else◌}
use supreme_doodle.Ast.{
  AstNativeType, void, i1, i8, i32, i64, f32, f64, string, unknown, AstType, AstTypes, AstFields,
  AstMembers, builtin_type, decl_type_ref, access_type, qual_type, pointer_type, array_type,
  function_type, object_type, enum_type, no_types, type_cons, no_fields, field, no_members, member,
  bare_member,
}

abbrev pub native_name : AstNativeType → String
native_name void = "void"
native_name i1 = "i1"
native_name i8 = "i8"
native_name i32 = "i32"
native_name i64 = "i64"
native_name f32 = "f32"
native_name f64 = "f64"
native_name string = "string"
native_name unknown = "unknown"

-- A name is followed by a comma unless it is the last.
abbrev more_types : AstTypes → String
more_types no_types = ""
more_types (type_cons t ts) = ", "

abbrev more_fields : AstFields → String
more_fields no_fields = ""
more_fields (field k t fs) = ", "

abbrev more_members : AstMembers → String
more_members no_members = ""
more_members (member k t ms) = ", "
more_members (bare_member k ms) = ", "

unfoldable mutual
  pub type_name : AstType → String
  type_name (builtin_type n t) = native_name t
  type_name (decl_type_ref n k) = "@" <> k
  type_name (access_type n k t) = (type_name t <> ".") <> k
  type_name (qual_type n t) = "<qual> " <> type_name t
  type_name (pointer_type n t nullable) = (if nullable then "*nullable " else "*") <> type_name t
  type_name (array_type n t) = ("[" <> type_name t) <> "]"
  type_name (function_type n ps r) = (("func(" <> type_names ps) <> ") ") <> type_name r
  type_name (object_type n fs) = ("{ " <> field_names fs) <> " }"
  type_name (enum_type n ms) = ("enum { " <> member_names ms) <> " }"

  pub type_names : AstTypes → String
  type_names no_types = ""
  type_names (type_cons t ts) = (type_name t <> more_types ts) <> type_names ts

  pub field_names : AstFields → String
  field_names no_fields = ""
  field_names (field k t fs) = (((k <> ": ") <> type_name t) <> more_fields fs) <> field_names fs

  pub member_names : AstMembers → String
  member_names no_members = ""
  member_names (member k t ms) =
      (((k <> ": ") <> type_name t) <> more_members ms) <> member_names ms
  member_names (bare_member k ms) = (k <> more_members ms) <> member_names ms
