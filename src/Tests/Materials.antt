-- ===== src/Tests/Materials.antt =====
-- A witness of the theorem on the pointers that written types are given.
use supreme_doodle.Common.{◌≡◌, ◌↔◌, refl, true, false}
use supreme_doodle.Types.{TypePtr, NativeType, of_ptr}
use supreme_doodle.Types.Shapes.{Shape, native_shape, pointer_shape}
use supreme_doodle.Ast.{AstType, decl_type_ref, builtin_type, pointer_type, qual_type, i32}
use supreme_doodle.Sema.{Sema, done}
use supreme_doodle.Visitor.{visit_type}
use supreme_doodle.Passes.Materialize.{materializer, follow_ref}
use supreme_doodle.Passes.Materialize.Meaning.{Ready, shape_type}
use supreme_doodle.Passes.Materialize.Identity.{visit_type-identity}
use supreme_doodle.Tests.Programs.{node}
use supreme_doodle.Tests.Aliases.{chain, chained}

-- `*i32` and `*nullable A`, where `A` is an alias of an alias of `i32`
abbrev plain_pointer : AstType
plain_pointer = pointer_type (node 5) (qual_type (node 6) (builtin_type (node 7) i32)) false

abbrev alias_pointer : AstType
alias_pointer = pointer_type (node 3) (decl_type_ref (node 0) "A") true

abbrev pointer_i32 : Shape
pointer_i32 = pointer_shape (native_shape NativeType.i32)

chained-Ready : Ready chain chained
chained-Ready = record { resolved = refl; unique = record { same_at = λ i j n plain h k. cc } }

visit_type-identity_example :
    (p q : TypePtr) × (t u : Sema) × (visit_type
        (materializer (follow_ref 2))
        plain_pointer
        0
        chained
      ≡ done (of_ptr p) t)
    × (visit_type (materializer (follow_ref 2)) alias_pointer 0 t ≡ done (of_ptr q) u)
    × ((p ≡ q) ↔ (pointer_i32 ≡ pointer_i32))
unfolding shape_type
visit_type-identity_example =
    visit_type-identity chain 2 0 plain_pointer alias_pointer pointer_i32 pointer_i32 chained refl
      refl chained-Ready
