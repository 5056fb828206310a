-- ===== src/Passes/Growth/Functions.antt =====
-- compiler/lib/Sema/ForwardDeclareFunctions.cpp: the contract of growth.
use mathlib.Core.Path.{subst}
use supreme_doodle.Common.{ℕ, ◌≡◌, Bool, true, false, some, List, [], ◌∷◌, arith}
use supreme_doodle.Types.{
  TypeNode, QualType, is_unknown, has_qualifier, TypeContext, as_func, as_named, add_impl, quals_eq,
}
use supreme_doodle.Ast.{DeclHead, Decl, Func, func_head, func_decl, node_of}
use supreme_doodle.Basic.{Message, same_parameters, name_clash}
use supreme_doodle.Sema.{Exec, assertion, null_deref}
use supreme_doodle.Visitor.{default_types}
use supreme_doodle.Visitor.Contract.{
  Meets, Meets-pure, Meets-fail, Meets-bind, Meets-then, Meets-bool, Meets-if_else, Meets-option,
}
use supreme_doodle.Visitor.Contract.Types.{default_types-Meets}
use supreme_doodle.Visitor.Contract.Walk.{VisitorMeets, FuncsMeet, default_visitor-Meets}
use supreme_doodle.Passes.Overloads.{
  declared_type, report_overload, same_params, check_overloads, declare_func, add_method,
  record_impl, impls_loop, declare_impl, declare_functions,
}
use supreme_doodle.Passes.Growth.{growth, Extends, Extends-refl}
use supreme_doodle.Passes.Growth.Actions.{
  emit-Meets, get_type-Meets, get_types-Meets, get_decls-Meets, insert_decl-Meets, Meets-parent,
}
use supreme_doodle.Passes.Growth.Requests.{with_types?-Meets}

abbrev AnyBool : Bool → Type 0
AnyBool b = Unit

-- Recording a method changes no type.
add_impl-Extends :
    (decl f : ℕ) (c c' : TypeContext) (a : Unit {0})
    → add_method decl f c ≡ some (a, c')
    → c.arena ≡ c'.arena
unfolding add_method add_impl
add_impl-Extends decl f c c' a h = ground arith

module _ (ls : ℕ) where
  declared_type-Meets :
      (h : DeclHead) → Meets (growth ⊥) ls (λ (q : QualType). Unit {0}) (declared_type h)
  unfolding declared_type
  declared_type-Meets h =
      Meets-option (growth ⊥) h.type (Meets-fail (growth ⊥) null_deref tt)
        (λ t. get_type-Meets ⊥ ls (node_of t).id)

  report_overload-Meets :
      (m : Message) (h : DeclHead) (d : Decl) → Meets (growth ⊥) ls AnyBool (report_overload m h d)
  unfolding report_overload
  report_overload-Meets m h d =
      Meets-then (growth ⊥) (Meets-then (growth ⊥) (emit-Meets ⊥ ls _) (emit-Meets ⊥ ls _))
        (Meets-pure (growth ⊥) false tt)

  same_params-Meets :
      (c : TypeContext) (our other : QualType)
      → Meets (growth ⊥) ls AnyBool (same_params c our other)
  unfolding same_params
  same_params-Meets c our other =
      Meets-option (growth ⊥) (as_func c other) (Meets-fail (growth ⊥) assertion tt) λ base.
        Meets-option (growth ⊥) (as_func c our) (Meets-fail (growth ⊥) assertion tt)
          (λ params. Meets-pure (growth ⊥) (quals_eq base params) tt)

  check_overloads-Meets :
      (f : Func) (ds : List Decl) → Meets (growth ⊥) ls AnyBool (check_overloads f ds)
  unfolding check_overloads
  check_overloads-Meets f [] = Meets-pure (growth ⊥) true tt
  check_overloads-Meets f (func_decl g ∷ ds) =
      Meets-bind (growth ⊥) (declared_type-Meets (func_head f)) λ our _.
        Meets-bool (growth ⊥) (is_unknown our) (Meets-pure (growth ⊥) false tt) (
          Meets-bind (growth ⊥) (declared_type-Meets (func_head g)) λ other _.
            Meets-bind (growth ⊥) (get_types-Meets ⊥ ls) λ c _.
              Meets-bind (growth ⊥) (same_params-Meets c our other) λ same _.
                Meets-bool (growth ⊥) same
                  (report_overload-Meets same_parameters (func_head f) (func_decl g))
                  (check_overloads-Meets f ds))
  check_overloads-Meets f (d ∷ ds) =
      report_overload-Meets (name_clash (func_head f).name) (func_head f) d

  record_impl-Meets :
      (decl f : ℕ) → Meets (growth ⊥) ls (λ (a : Unit {0}). Unit {0}) (record_impl decl f)
  unfolding record_impl
  record_impl-Meets decl f = with_types?-Meets ⊥ ls _ λ c c' a e. (
    subst (λ (xs : List TypeNode). Extends c.arena xs) (add_impl-Extends decl f c c' a e)
        (Extends-refl c.arena),
    tt,
  )

  impls_loop-Meets :
      (decl : ℕ) (fs : List (Func × Exec Bool))
      → FuncsMeet (growth ⊥) AnyBool ls fs
      → Meets (growth ⊥) ls AnyBool (impls_loop decl fs)
  unfolding impls_loop
  impls_loop-Meets decl [] h = Meets-pure (growth ⊥) false tt
  impls_loop-Meets decl ((f, m) ∷ fs) (h, hs) = Meets-bind (growth ⊥) h λ declared _.
      Meets-then (growth ⊥)
        (Meets-if_else (growth ⊥) declared (record_impl-Meets decl (func_head f).node.id)
          (Meets-pure (growth ⊥) tt tt))
        (impls_loop-Meets decl fs hs)

  declare_impl-Meets :
      (h : DeclHead) (fs : List (Func × Exec Bool))
      → FuncsMeet (growth ⊥) AnyBool ls fs
      → Meets (growth ⊥) ls AnyBool (declare_impl h fs)
  unfolding declare_impl
  declare_impl-Meets h fs hs = Meets-bind (growth ⊥) (declared_type-Meets h) λ t _.
      Meets-bool (growth ⊥) (is_unknown t) (Meets-pure (growth ⊥) false tt) (
        Meets-bind (growth ⊥)
          (Meets-then (growth ⊥)
            (Meets-if_else (growth ⊥) (has_qualifier t) (emit-Meets ⊥ ls _)
              (Meets-pure (growth ⊥) {Q = λ (a : Unit {0}). Unit} tt tt))
            (get_types-Meets ⊥ ls))
          λ c _.
            Meets-option (growth ⊥) (as_named c t)
              (Meets-then (growth ⊥) (emit-Meets ⊥ ls _) (Meets-pure (growth ⊥) false tt))
              (λ decl. impls_loop-Meets decl fs hs))

declare_func-Meets : (f : Func) (ls : ℕ) → Meets (growth ⊥) ls AnyBool (declare_func f ls)
unfolding declare_func
declare_func-Meets f ls = Meets-parent ⊥ ls _ (Meets-fail (growth ⊥) assertion tt) λ declaring.
    Meets-bind (growth ⊥) (get_decls-Meets ⊥ declaring (func_head f).name) λ ds _.
      Meets-bind (growth ⊥) (check_overloads-Meets declaring f ds) λ free _.
        Meets-bool (growth ⊥) free
          (Meets-then (growth ⊥) (insert_decl-Meets ⊥ declaring (func_head f).name (func_decl f))
            (Meets-pure (growth ⊥) true tt))
          (Meets-pure (growth ⊥) false tt)

pub declare_functions-Meets : VisitorMeets (growth ⊥) AnyBool declare_functions
unfolding declare_functions
declare_functions-Meets =
    let types = default_types-Meets (growth ⊥) AnyBool false tt in
    let base = default_visitor-Meets (growth ⊥) AnyBool false (default_types false) tt types in
    record {
      default_result = tt;
      types = types;
      var = base.var;
      type_decl = base.type_decl;
      use_decl = base.use_decl;
      impl = λ ls h type fs _ hs. declare_impl-Meets ls h fs hs;
      func = λ ls f params type body _ _ _. declare_func-Meets f ls;
      param = base.param;
      block = base.block;
      bool = base.bool;
      char = base.char;
      num = base.num;
      string = base.string;
    }
