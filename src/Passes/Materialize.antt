-- ===== src/Passes/Materialize.antt =====
-- compiler/lib/Sema/ResolveGlobalTypePass.cpp, `MaterializeType`: a type of the context for each type
-- that is written in the program. An alias is followed by a visit of its declared type, so the pass
-- takes fuel, the number of references that may be followed one inside another.
pub mod Cycles
pub mod Ends
pub mod Keeps
pub mod Meaning
pub mod Identity
use supreme_doodle.Common.{
  ℕ, zero, suc, true, false, Option, none, some, List, [], ◌∷◌, ◌++◌, String, contains, insert,
  if◌then◌else◌,
}
use supreme_doodle.Types.{
  QualType, unknown, is_unknown, TypeMap, get_unknown_type, get_unit_type, get_builtin_type,
  get_named_type, get_pointer_type, get_array_type, get_func_type, get_object_type, get_enum_type,
}
use supreme_doodle.Types
use supreme_doodle.Ast.{
  Node, AstNativeType, void, i1, i8, i32, i64, f32, f64, string, unknown as unknown_native, Decl,
  head_of, decl_id, use_decl, ProgramDecl,
}
use supreme_doodle.Basic.{Message, located, error, duplicate_field, duplicate_member}
use supreme_doodle.Sema.{
  Exec, unreachable, null_deref, out_of_fuel, pure, fail, ◌>>=◌, ◌>>◌, emit, set_type,
  get_decl_node, with_types, with_types?,
}
use supreme_doodle.Visitor.{TypeVisitor, Visitor, default_visitor, visit_type, visit_required}
use supreme_doodle.Visitor.Tree.{visit_program}

-- the `switch` on the native type
unfoldable pub native_type : AstNativeType → QualType
native_type void = get_unit_type
native_type i1 = get_builtin_type Types.NativeType.i1
native_type i8 = get_builtin_type Types.NativeType.i8
native_type i32 = get_builtin_type Types.NativeType.i32
native_type i64 = get_builtin_type Types.NativeType.i64
native_type f32 = get_builtin_type Types.NativeType.f32
native_type f64 = get_builtin_type Types.NativeType.f64
native_type string = get_builtin_type Types.NativeType.string
native_type unknown_native = get_unknown_type

-- `Node->setType(T); return T;`
unfoldable pub assign : Node → QualType → Exec QualType
assign n t = set_type n.id t >> pure t

-- the early return on an unknown part
abbrev pub if_known : QualType → Exec QualType → Exec QualType
if_known t m = if is_unknown t then pure t else m

-- the loop over the parameters of a function type
unfoldable pub params_loop :
    List (Exec QualType) → List QualType → (List QualType → Exec QualType) → Exec QualType
params_loop [] acc k = k acc
params_loop (m ∷ ms) acc k = m >>= λ t. if_known t (params_loop ms (acc ++ t ∷ []) k)

-- the loop over the fields or members; a name that is there already is reported and skipped
unfoldable pub fields_loop :
    (String → Message)
    → Node
    → List (String × Option (Exec QualType))
    → TypeMap
    → (TypeMap → Exec QualType)
    → Exec QualType
fields_loop dup n [] acc k = k acc
fields_loop dup n ((name, m) ∷ ms) acc k = visit_required m >>= λ t.
    if_known t (elim (contains name acc) [
      | true ↦ emit (located error (dup name) n.loc) >> fields_loop dup n ms acc k
      | false ↦ fields_loop dup n ms (insert name t acc) k
    ])

abbrev pub present : List (String × Exec QualType) → List (String × Option (Exec QualType))
present [] = []
present ((k, m) ∷ ms) = (k, some m) ∷ present ms

-- The members on types, over the one on references.
unfoldable pub materializer : (Node → ℕ → Exec QualType) → TypeVisitor QualType
unfolding native_type assign params_loop fields_loop
materializer follow = record {
  on_builtin = λ n t. assign n (native_type t);
  on_decl_ref = λ n k ls. follow n ls;
  on_access = λ n parent. fail unreachable;
  on_qual = λ n element. element >>= λ t. if_known t (assign n t);
  on_pointer = λ n element.
      element >>= λ t. if_known t (with_types? (get_pointer_type t) >>= λ p. assign n p);
  on_array =
      λ n element. element >>= λ t. if_known t (with_types? (get_array_type t) >>= λ a. assign n a);
  on_function = λ n params result.
      params_loop params []
        λ ps. result >>= λ r. if_known r (with_types (get_func_type ps r) >>= λ f. assign n f);
  on_object = λ n fields.
      fields_loop duplicate_field n (present fields) []
        λ fs. with_types (get_object_type fs) >>= λ o. assign n o;
  on_enum = λ n members.
      fields_loop duplicate_member n members []
        λ ms. with_types (get_enum_type ms) >>= λ e. assign n e;
}

-- `Visit(Curr->getDeclaredType())`, which calls through the pointer
unfoldable pub visit_alias : (Node → ℕ → Exec QualType) → Decl → ℕ → Exec QualType
unfolding materializer
visit_alias follow d ls = elim (head_of d).type [
  | none ↦ fail null_deref
  | some t ↦ visit_type (materializer follow) t ls
]

-- The member on a reference whose `DeclNode` is the given declaration; the test is whether it is an
-- alias.
unfoldable pub follow_decl : (Node → ℕ → Exec QualType) → Node → Decl → ℕ → Exec QualType
unfolding visit_alias assign
follow_decl follow n (use_decl h) ls = visit_alias follow (use_decl h) ls >>= assign n
follow_decl follow n d ls = with_types (get_named_type (decl_id d)) >>= assign n

unfoldable pub follow_ref : ℕ → Node → ℕ → Exec QualType
unfolding follow_decl
follow_ref zero n ls = λ _. out_of_fuel
follow_ref (suc fuel) n ls = get_decl_node n.id >>= λ curr. elim curr [
  | none ↦ pure get_unknown_type
  | some d ↦ follow_decl (follow_ref fuel) n d ls
]

unfoldable pub materialize_type : ℕ → Visitor QualType
unfolding follow_ref materializer default_visitor
materialize_type fuel = record (default_visitor unknown (materializer (follow_ref fuel))) {
  on_block = λ ls stmts. pure unknown;
}

unfoldable pub run_materialize : ℕ → ProgramDecl → Exec QualType
unfolding materialize_type
run_materialize fuel = visit_program (materialize_type fuel)
