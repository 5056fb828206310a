-- ===== src/Tests/Types.antt =====
-- A witness of the theorem on the identity of types.
use supreme_doodle.Common.{◌≡◌, ◌↔◌, refl, [], ◌∷◌}
use supreme_doodle.Types.{
  TypeNode, TypeContext, pointer, array, NativeType, get_builtin_type, new_context, intern_type,
}
use supreme_doodle.Types.Canonical.{intern_type-identity}
use supreme_doodle.Types.{QualType, of_ptr, heap}
use supreme_doodle.Types.Names.{ptr_name, qual_name, node_name}
use supreme_doodle.Types.Founded.{
  Founded, QualBelow, IsNamed, intern_type-Founded, qual_name-IsNamed,
}
use supreme_doodle.Common.{some, true}
use supreme_doodle.Common.{length}
use supreme_doodle.Types.{TypeMap, get_object_type}
use supreme_doodle.Common.{Bool, false}
use supreme_doodle.Tests.Programs.{unreached}

abbrev pointer_i32 : TypeNode
pointer_i32 = pointer (get_builtin_type NativeType.i32)

abbrev array_i32 : TypeNode
array_i32 = array (get_builtin_type NativeType.i32)

-- the context after the request for the pointer and one for an array
abbrev later : TypeContext
later = record { arena = pointer_i32 ∷ array_i32 ∷ []; impls = λ d. []; reaches = unreached }

intern_type-identity_example :
    ((intern_type pointer_i32 (new_context unreached)).0 ≡ (intern_type array_i32 later).0)
    ↔ (pointer_i32 ≡ array_i32)
unfolding intern_type
intern_type-identity_example =
    intern_type-identity pointer_i32 array_i32 (new_context unreached) later (array_i32 ∷ []) refl
      tt tt

abbrev point : TypeMap
point = ("x", get_builtin_type NativeType.i32) ∷ ("y", get_builtin_type NativeType.i32) ∷ []

-- the pointer of a second request for one object type, by whether its lookup reaches the first
abbrev second_request : Bool → QualType
second_request near =
    (get_object_type point (get_object_type point (new_context (λ k i. near))).1).0

reached_run : second_request true ≡ of_ptr (heap 0)
unfolding get_object_type intern_type
reached_run = refl

unreached_run : second_request false ≡ of_ptr (heap 1)
unfolding get_object_type intern_type
unreached_run = refl

abbrev first_request : QualType × TypeContext
first_request = intern_type pointer_i32 (new_context unreached)

intern_type-Founded_example :
    Founded first_request.1.arena × QualBelow (length first_request.1.arena) first_request.0
unfolding intern_type
intern_type-Founded_example =
    intern_type-Founded pointer_i32 (new_context unreached) (λ i n h. cc) tt

qual_name-IsNamed_example :
    IsNamed (qual_name (λ d. "") first_request.1 (length first_request.1.arena) first_request.0)
unfolding intern_type
qual_name-IsNamed_example =
    qual_name-IsNamed (λ d. "") first_request.1 first_request.0 intern_type-Founded_example.0
      intern_type-Founded_example.1

-- *mut [i32]
abbrev nested : TypeContext
nested = record {
  arena = array_i32 ∷ pointer (record { ty = some (heap 0); mutable = true }) ∷ [];
  impls = λ d. [];
  reaches = unreached;
}

nested_name : qual_name (λ d. "") nested 2 (of_ptr (heap 1)) ≡ some "*mut [i32]"
unfolding qual_name ptr_name node_name
nested_name = refl
