-- ===== src/Passes/Overloads.antt =====
-- compiler/lib/Sema/ForwardDeclareFunctions.cpp: functions are put into the scope that they stand in,
-- unless an overload has the same parameter types, and methods are added to the type of their `impl`.
pub mod Distinct
use supreme_doodle.Common.{ℕ, Bool, true, false, Option, none, some, List, [], ◌∷◌, if◌then◌else◌}
use supreme_doodle.Types.{
  QualType, is_unknown, has_qualifier, quals_eq, TypeContext, as_func, as_named, add_impl,
}
use supreme_doodle.Ast.{node_of, DeclHead, Decl, head_of, Func, func_head, func_decl, ProgramDecl}
use supreme_doodle.Basic.{
  Message, located, error, warning, note, name_clash, same_parameters, previously_declared,
  qualifiers_ignored, impl_target,
}
use supreme_doodle.Sema.{
  Exec, assertion, null_deref, pure, fail, ◌>>=◌, ◌>>◌, emit, get_type, get_decls, insert_decl,
  get_parent, get_types, with_types?,
}
use supreme_doodle.Visitor.{Visitor, default_types, default_visitor}
use supreme_doodle.Visitor.Tree.{visit_program}

-- `getDeclaredType()->getType()`
unfoldable pub declared_type : DeclHead → Exec QualType
declared_type h = elim h.type [ none ↦ fail null_deref | some t ↦ get_type (node_of t).id ]

-- an error at the new declaration and a note at the old one
unfoldable pub report_overload : Message → DeclHead → Decl → Exec Bool
report_overload m h old =
    emit (located error m h.decl_loc)
    >> emit (located note previously_declared (head_of old).decl_loc)
    >> pure false

-- the two casts, with the assertions that they succeed; whether the parameter types are equal
unfoldable pub same_params : TypeContext → (our other : QualType) → Exec Bool
same_params c our other = elim (as_func c other) [
  | none ↦ fail assertion
  | some base ↦ elim (as_func c our) [
    | none ↦ fail assertion
    | some params ↦ pure (quals_eq base params)
  ]
]

-- The loop over the declarations of the name: whether the function may be declared.
unfoldable pub check_overloads : Func → List Decl → Exec Bool
unfolding declared_type report_overload same_params
check_overloads f [] = pure true
check_overloads f (func_decl g ∷ ds) = declared_type (func_head f) >>= λ our.
    elim (is_unknown our) [
      | true ↦ pure false
      | false ↦ declared_type (func_head g) >>= λ other. get_types >>= λ c.
          same_params c our other >>= λ same. elim same [
            | true ↦ report_overload same_parameters (func_head f) (func_decl g)
            | false ↦ check_overloads f ds
          ]
    ]
check_overloads f (d ∷ ds) = report_overload (name_clash (func_head f).name) (func_head f) d

-- `visit(FuncDecl *)`: the children are not visited. The result is whether it was declared.
unfoldable pub declare_func : Func → ℕ → Exec Bool
unfolding check_overloads
declare_func f ls = get_parent ls >>= λ parent. elim parent [
  | none ↦ fail assertion
  | some declaring ↦ get_decls declaring (func_head f).name >>= λ ds.
      check_overloads f ds >>= λ free. elim free [
        | true ↦ insert_decl declaring (func_head f).name (func_decl f) >> pure true
        | false ↦ pure false
      ]
]

-- `TC.addImpl`
unfoldable pub add_method : ℕ → ℕ → TypeContext → Option (Unit {0} × TypeContext)
unfolding add_impl
add_method decl f c = elim (add_impl decl f c) [ none ↦ none | some c' ↦ some (tt, c') ]

unfoldable pub record_impl : ℕ → ℕ → Exec (Unit {0})
unfolding add_method
record_impl decl f = with_types? (add_method decl f)

-- the loop over the methods of an `impl`
unfoldable pub impls_loop : ℕ → List (Func × Exec Bool) → Exec Bool
unfolding record_impl
impls_loop decl [] = pure false
impls_loop decl ((f, visit) ∷ fs) = visit >>= λ declared.
    (if declared then record_impl decl (func_head f).node.id else pure tt) >> impls_loop decl fs

-- `visit(ImplDecl *)`
unfoldable pub declare_impl : DeclHead → List (Func × Exec Bool) → Exec Bool
unfolding declared_type impls_loop
declare_impl h fs = declared_type h >>= λ t. elim (is_unknown t) [
  | true ↦ pure false
  | false ↦
      (if has_qualifier t then emit (located warning qualifiers_ignored h.decl_loc) else pure tt)
      >> get_types
      >>= λ c. elim (as_named c t) [
        | none ↦ emit (located error impl_target h.decl_loc) >> pure false
        | some decl ↦ impls_loop decl fs
      ]
]

unfoldable pub declare_functions : Visitor Bool
unfolding declare_func declare_impl default_visitor default_types
declare_functions = record (default_visitor false (default_types false)) {
  on_func = λ f ls params type body. declare_func f ls;
  on_impl = λ h ls type fs. declare_impl h fs;
}

unfoldable pub run_declare_functions : ProgramDecl → Exec Bool
unfolding declare_functions
run_declare_functions = visit_program declare_functions
