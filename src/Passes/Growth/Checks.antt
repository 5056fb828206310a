-- ===== src/Passes/Growth/Checks.antt =====
-- compiler/lib/Sema/TypeCheck.cpp: the contract of growth.
use supreme_doodle.Common.{
  ℕ, Bool, true, false, Option, none, some, List, [], ◌∷◌, arith, if◌then◌else◌,
}
use supreme_doodle.Location.{SourceLocation}
use supreme_doodle.Types.{
  NativeType, i1, i8, f32, f64, string, QualType, unknown, is_unknown, opt_ptr_eq, get_builtin_type,
  as_builtin,
}
use supreme_doodle.Ast.{Node, Number, DeclHead, Decl, node_of, param_decl, param_head}
use supreme_doodle.Basic.{Message}
use supreme_doodle.Sema.{Sema, Exec, assertion, null_deref, done, fail}
use supreme_doodle.Visitor.{Visitor, default_types, default_visitor}
use supreme_doodle.Visitor.Contract.{
  Meets, OptMeets, Meets-pure, Meets-fail, Meets-bind, Meets-then, Meets-bool, Meets-if_else,
  Meets-option, Meets-list,
}
use supreme_doodle.Visitor.Contract.Types.{default_types-Meets}
use supreme_doodle.Visitor.Contract.Walk.{VisitorMeets, default_visitor-Meets}
use supreme_doodle.Passes.TypeCheck.{
  push_type_hint, pop_back_n, pop_type_hints, last_hint, check_redeclaration, check_initializer,
  deduce_var_init, declared_hint, declare_variable, check_variable, deduce_float, deduce_integer,
  is_none, type_number, assign_expr_type, check_number, type_check,
}
use supreme_doodle.Passes.Growth.{growth, Extends-refl, Grows, Grows-refl, IsScoped}
use supreme_doodle.Passes.Growth.Actions.{
  emit-Meets, get_type-Meets, get_decls-Meets, insert_decl-Meets, set_expr_type-Meets,
}

abbrev AnyType : QualType → Type 0
AnyType q = Unit

-- Hints are no part of the contract.
pub hints-Grows : (s : Sema) (hs : List QualType) → IsScoped s → Grows s (record s { hints = hs })
hints-Grows s hs h = record {
  scoped = record { tree = h.tree; bound = h.bound };
  scopes = omega arith;
  diags = Extends-refl s.diags;
  types = Extends-refl s.types.arena;
}

module _ (ls : ℕ) where
  abbrev Keeps : Exec QualType → Type 0
  Keeps m = Meets (growth ⊥) ls AnyType m

  push_type_hint-Meets :
      (t : QualType) → Meets (growth ⊥) ls (λ (n : ℕ). Unit {0}) (push_type_hint t)
  unfolding push_type_hint
  push_type_hint-Meets t = record { at = λ s h here. (hints-Grows s (t ∷ s.hints) h, tt) }

  pop_type_hints-Meets :
      (n : ℕ) → Meets (growth ⊥) ls (λ (a : Unit {0}). Unit {0}) (pop_type_hints n)
  unfolding pop_type_hints
  pop_type_hints-Meets n = record { at = λ s h here. popped s (pop_back_n n s.hints) h }
    where
      popped :
          (s : Sema) (o : Option (List QualType))
          → IsScoped s
          → supreme_doodle.Visitor.Contract.GoodOf
              (growth ⊥)
              (λ (a : Unit {0}). Unit {0})
              s
              ((elim o as (λ x. supreme_doodle.Sema.Outcome (Unit {0})) [
                | none ↦ fail assertion s
                | some hs ↦ done tt (record s { hints = hs })
              ]))
      popped s none h = tt
      popped s (some hs) h = (hints-Grows s hs h, tt)

  last_hint-cases :
      (s : Sema) (hs : List QualType)
      → IsScoped s
      → supreme_doodle.Visitor.Contract.GoodOf (growth ⊥) AnyType s (
          (elim hs as (λ x. supreme_doodle.Sema.Outcome QualType) [
            | [] ↦ supreme_doodle.Sema.fault assertion
            | t ∷ _ ↦ done t s
          ]))
  last_hint-cases s [] h = tt
  last_hint-cases s (t ∷ hs) h = (Grows-refl s h, tt)

  last_hint-Meets : Keeps last_hint
  unfolding last_hint
  last_hint-Meets = record { at = λ s h here. last_hint-cases s s.hints h }

  check_redeclaration-Meets :
      (h : DeclHead) → Meets (growth ⊥) ls (λ (b : Bool). Unit {0}) (check_redeclaration h ls)
  unfolding check_redeclaration
  check_redeclaration-Meets h = Meets-bind (growth ⊥) (get_decls-Meets ⊥ ls h.name) λ ds _.
      Meets-list (growth ⊥) ds (Meets-pure (growth ⊥) true tt) λ first _.
        Meets-then (growth ⊥) (Meets-then (growth ⊥) (emit-Meets ⊥ ls _) (emit-Meets ⊥ ls _))
          (Meets-pure (growth ⊥) false tt)

  check_initializer-Meets :
      (loc : SourceLocation) (q r : QualType) → Keeps (check_initializer loc q r)
  unfolding check_initializer
  check_initializer-Meets loc q r =
      let t : QualType = if is_unknown q then r else q in
      Meets-if_else (growth ⊥) (opt_ptr_eq t.ty r.ty) (Meets-pure (growth ⊥) t tt)
        (Meets-then (growth ⊥) (emit-Meets ⊥ ls _) (Meets-pure (growth ⊥) unknown tt))

  deduce_var_init-Meets :
      (loc : SourceLocation) (q : QualType) (init : Option (Exec QualType))
      → OptMeets (growth ⊥) AnyType ls init
      → Keeps (deduce_var_init loc q init)
  unfolding deduce_var_init
  deduce_var_init-Meets loc q none h =
      Meets-if_else (growth ⊥) (is_unknown q) (Meets-fail (growth ⊥) assertion tt) (
        Meets-bind (growth ⊥) (push_type_hint-Meets q)
          (λ n _. Meets-then (growth ⊥) (pop_type_hints-Meets n) (Meets-pure (growth ⊥) q tt)))
  deduce_var_init-Meets loc q (some m) h = Meets-bind (growth ⊥) (push_type_hint-Meets q) λ n _.
      Meets-bind (growth ⊥) h λ r _.
        Meets-bind (growth ⊥) (check_initializer-Meets loc q r)
          λ t _. Meets-then (growth ⊥) (pop_type_hints-Meets n) (Meets-pure (growth ⊥) t tt)

  declared_hint-Meets :
      (h : DeclHead) → Meets (growth ⊥) ls (λ (o : Option QualType). Unit {0}) (declared_hint h)
  unfolding declared_hint
  declared_hint-Meets h =
      Meets-option (growth ⊥) h.type (Meets-pure (growth ⊥) (some unknown) tt) λ t.
        Meets-bind (growth ⊥) (get_type-Meets ⊥ ls (node_of t).id)
          (λ q _. Meets-pure (growth ⊥) (if is_unknown q then none else some q) tt)

  module _ (self : Decl) (h : DeclHead) (init : Option (Exec QualType))
      (keeps : OptMeets (growth ⊥) AnyType ls init) where
    declare_variable-Meets : Keeps (declare_variable self h ls init)
    unfolding declare_variable
    declare_variable-Meets = Meets-bind (growth ⊥) (declared_hint-Meets h) λ hint _.
        Meets-option (growth ⊥) hint (Meets-pure (growth ⊥) unknown tt) λ q.
          Meets-bind (growth ⊥) (deduce_var_init-Meets h.decl_loc q init keeps) λ t _.
            Meets-then (growth ⊥) (insert_decl-Meets ⊥ ls h.name self) (Meets-pure (growth ⊥) t tt)

    check_variable-Meets : Keeps (check_variable self h ls init)
    unfolding check_variable
    check_variable-Meets = Meets-bind (growth ⊥) (check_redeclaration-Meets h) λ free _.
        Meets-bool (growth ⊥) free
          (Meets-bool (growth ⊥) (is_none init)
            (Meets-bool (growth ⊥) (is_none h.type)
              (Meets-then (growth ⊥) (emit-Meets ⊥ ls _) (Meets-pure (growth ⊥) unknown tt))
              declare_variable-Meets)
            declare_variable-Meets)
          (Meets-pure (growth ⊥) unknown tt)

  reject-Meets :
      (m : Message) (n : Node)
      → Keeps (λ s.
        supreme_doodle.Sema.and_then
          (supreme_doodle.Sema.emit
            (supreme_doodle.Basic.located supreme_doodle.Basic.error m n.loc)
            s)
          (λ _. supreme_doodle.Sema.pure unknown))
  reject-Meets m n = Meets-then (growth ⊥) (emit-Meets ⊥ ls _) (Meets-pure (growth ⊥) unknown tt)

  deduce_float-Meets : (n : Node) (t : NativeType) → Keeps (deduce_float n t)
  unfolding deduce_float
  deduce_float-Meets n f32 = Meets-pure (growth ⊥) (get_builtin_type f32) tt
  deduce_float-Meets n f64 = Meets-pure (growth ⊥) (get_builtin_type f64) tt
  deduce_float-Meets n _ = reject-Meets _ n

  deduce_integer-Meets : (n : Node) (t : NativeType) → Keeps (deduce_integer n t)
  unfolding deduce_integer
  deduce_integer-Meets n string = reject-Meets _ n
  deduce_integer-Meets n _ = Meets-pure (growth ⊥) _ tt

  assign_expr_type-Meets : (n : Node) (t : QualType) → Keeps (assign_expr_type n t)
  unfolding assign_expr_type
  assign_expr_type-Meets n t =
      Meets-then (growth ⊥) (set_expr_type-Meets ⊥ ls n.id t) (Meets-pure (growth ⊥) t tt)

  type_number-Meets : (n : Node) (x : Number) (q : QualType) → Keeps (type_number n x q)
  unfolding type_number
  type_number-Meets n x q = Meets-if_else (growth ⊥) (is_unknown q) (Meets-pure (growth ⊥) _ tt) (
      Meets-option (growth ⊥) (as_builtin q) (Meets-pure (growth ⊥) unknown tt) λ t.
        Meets-if_else (growth ⊥) x.is_integer (deduce_integer-Meets n t) (deduce_float-Meets n t))

  check_number-Meets : (n : Node) (x : Number) → Keeps (check_number n x)
  unfolding check_number
  check_number-Meets n x =
      Meets-bind (growth ⊥) last_hint-Meets
        (λ q _. Meets-bind (growth ⊥) (type_number-Meets n x q) (λ t _. assign_expr_type-Meets n t))

pub type_check-Meets : VisitorMeets (growth ⊥) AnyType type_check
unfolding type_check
type_check-Meets =
    let types = default_types-Meets (growth ⊥) AnyType unknown tt in
    let base = default_visitor-Meets (growth ⊥) AnyType unknown (default_types unknown) tt types in
    record {
      default_result = tt;
      types = types;
      var = λ ls self h type init _ hi. check_variable-Meets ls self h init hi;
      type_decl = λ ls self h type _. Meets-pure (growth ⊥) unknown tt;
      use_decl = λ ls self h type _. Meets-pure (growth ⊥) unknown tt;
      impl = base.impl;
      func = base.func;
      param =
          λ ls p type value _ hv. check_variable-Meets ls (param_decl p) (param_head p) value hv;
      block = base.block;
      bool = λ ls n. assign_expr_type-Meets ls n (get_builtin_type i1);
      char = λ ls n. assign_expr_type-Meets ls n (get_builtin_type i8);
      num = λ ls n x. check_number-Meets ls n x;
      string = λ ls n. assign_expr_type-Meets ls n (get_builtin_type string);
    }
