-- ===== src/Passes/Growth/Materials.antt =====
-- compiler/lib/Sema/ResolveGlobalTypePass.cpp, `MaterializeType`: the contract of growth, and the
-- qualifiers of the types that the pass gives.
use mathlib.Core.Path.{subst}
use supreme_doodle.Common.{ℕ, zero, suc, ◌≡◌, refl, some, arith}
use supreme_doodle.Types.{
  QualType, unknown, TypeContext, pointer, array, intern_type, get_pointer_type, get_array_type,
}
use supreme_doodle.Ast.{Node, AstType, Decl, use_decl}
use supreme_doodle.Sema.{Sema, Exec}
use supreme_doodle.Visitor.{visit_type}
use supreme_doodle.Visitor.Contract.{Meets, GoodOf, Meets-pure, Meets-bind, Meets-option}
use supreme_doodle.Visitor.Contract.Types.{TypesMeet, Any, visit-Any-Meets}
use supreme_doodle.Visitor.Contract.Walk.{VisitorMeets, default_visitor-Meets}
use supreme_doodle.Passes.Materialize.{materializer, follow_ref, materialize_type}
use supreme_doodle.Passes.Growth.{growth, Extends, IsScoped, IsHere}
use supreme_doodle.Passes.Growth.Actions.{emit-Meets, set_type-Meets, get_decl_node-Meets}
use supreme_doodle.Passes.Growth.Requests.{with_types-Meets, with_types?-Meets, intern_type-grows}
use supreme_doodle.Passes.Materialize.Keeps.{
  IsImmutable, Materialises, materializer-Meets, follow_decl-Meets, Follows,
}
use supreme_doodle.Visitor.Contract.Types.{all_refs}
use supreme_doodle.Ast.{var_decl, type_decl, impl_decl, func_decl, param_decl}

-- A pointer or array type is interned, unless the key is the empty one.
get_pointer_type-eq :
    (q : QualType) (c c' : TypeContext) (a : QualType)
    → get_pointer_type q c ≡ some (a, c')
    → intern_type (pointer q) c ≡ (a, c')
unfolding get_pointer_type
get_pointer_type-eq q c c' a h = ground arith

get_array_type-eq :
    (q : QualType) (c c' : TypeContext) (a : QualType)
    → get_array_type q c ≡ some (a, c')
    → intern_type (array q) c ≡ (a, c')
unfolding get_array_type
get_array_type-eq q c c' a h = ground arith

pub get_pointer_type-grows :
    (q : QualType) (c c' : TypeContext) (a : QualType)
    → get_pointer_type q c ≡ some (a, c')
    → Extends c.arena c'.arena × IsImmutable a
get_pointer_type-grows q c c' a h =
    subst (λ (r : QualType × TypeContext). Extends c.arena r.1.arena × IsImmutable r.0)
      (get_pointer_type-eq q c c' a h) (intern_type-grows (pointer q) c)

pub get_array_type-grows :
    (q : QualType) (c c' : TypeContext) (a : QualType)
    → get_array_type q c ≡ some (a, c')
    → Extends c.arena c'.arena × IsImmutable a
get_array_type-grows q c c' a h =
    subst (λ (r : QualType × TypeContext). Extends c.arena r.1.arena × IsImmutable r.0)
      (get_array_type-eq q c c' a h) (intern_type-grows (array q) c)

grows-Materialises : Materialises (growth Unit)
grows-Materialises = record {
  emits = emit-Meets Unit;
  sets = set_type-Meets Unit;
  interns = λ ls n. with_types-Meets Unit ls (intern_type n) (intern_type-grows n);
  points = λ ls q. with_types?-Meets Unit ls (get_pointer_type q) (get_pointer_type-grows q);
  arrays = λ ls q. with_types?-Meets Unit ls (get_array_type q) (get_array_type-grows q);
  admits_unreachable = tt;
}

every_ref :
    (follow : Node → ℕ → Exec QualType)
    (follows : (ls : ℕ) (n : Node) → Any n → Meets (growth Unit) ls IsImmutable (follow n ls))
    (d : Decl)
    → Follows (growth Unit) grows-Materialises Any follow follows d
every_ref follow follows (use_decl h) = λ t e. all_refs t
every_ref follow follows (var_decl h e) = tt
every_ref follow follows (type_decl h) = tt
every_ref follow follows (impl_decl h fs) = tt
every_ref follow follows (func_decl f) = tt
every_ref follow follows (param_decl p) = tt

follow_ref-Meets :
    (fuel ls : ℕ) (n : Node) → Any n → Meets (growth Unit) ls IsImmutable (follow_ref fuel n ls)
unfolding follow_ref
follow_ref-Meets zero ls n p = record { at = λ s inv here. tt }
follow_ref-Meets (suc fuel) ls n p =
    Meets-bind (growth Unit) (get_decl_node-Meets Unit ls n.id) λ o _.
      Meets-option (growth Unit) o (Meets-pure (growth Unit) unknown refl) λ d.
        follow_decl-Meets (growth Unit) grows-Materialises Any (follow_ref fuel)
          (follow_ref-Meets fuel) ls n d (every_ref (follow_ref fuel) (follow_ref-Meets fuel) d)

materials-Meets :
    (fuel : ℕ) → TypesMeet (growth Unit) IsImmutable Any (materializer (follow_ref fuel))
materials-Meets fuel =
    materializer-Meets (growth Unit) grows-Materialises Any (follow_ref fuel)
      (follow_ref-Meets fuel)

pub materialize_type-Meets :
    (fuel : ℕ) → VisitorMeets (growth Unit) IsImmutable (materialize_type fuel)
unfolding materialize_type
materialize_type-Meets fuel =
    let types = materials-Meets fuel in
    let base = default_visitor-Meets (growth Unit) IsImmutable unknown _ refl types in
    record {
      default_result = refl;
      types = types;
      var = base.var;
      type_decl = base.type_decl;
      use_decl = base.use_decl;
      impl = base.impl;
      func = base.func;
      param = base.param;
      block = λ ls stmts _. Meets-pure (growth Unit) unknown refl;
      bool = base.bool;
      char = base.char;
      num = base.num;
      string = base.string;
    }

-- Materialising any type from a state whose scopes form a tree gives a type without the qualifier `mut`,
-- a type that is written `mut T` included, or ends in a fault or out of fuel.
pub materialized-IsImmutable :
    (fuel ls : ℕ) (t : AstType) (s : Sema)
    → IsScoped s
    → IsHere ls s
    → GoodOf (growth Unit) IsImmutable s (visit_type (materializer (follow_ref fuel)) t ls s)
materialized-IsImmutable fuel ls t s inv here =
    (visit-Any-Meets (growth Unit) IsImmutable (materializer (follow_ref fuel))
        (materials-Meets fuel) t ls).at
      s inv here
