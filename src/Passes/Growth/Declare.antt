-- ===== src/Passes/Growth/Declare.antt =====
-- compiler/lib/Sema/ResolveGlobalTypePass.cpp: the contract of growth for the declaration and the
-- resolution of types.
use supreme_doodle.Common.{ℕ, List, [], ◌∷◌, String}
use supreme_doodle.Ast.{Node, Decl, DeclHead, type_decl, use_decl}
use supreme_doodle.Basic.{Message, type_redefinition, alias_redefinition}
use supreme_doodle.Sema.{assertion}
use supreme_doodle.Visitor.{default_types}
use supreme_doodle.Visitor.Contract.{
  Meets, Meets-pure, Meets-fail, Meets-bind, Meets-then, Meets-list,
}
use supreme_doodle.Visitor.Contract.Types.{TypesMeet, Any, default_types-Meets}
use supreme_doodle.Visitor.Contract.Walk.{VisitorMeets, default_visitor-Meets}
use supreme_doodle.Passes.DeclareTypes.{declare_type, forward_declare_type}
use supreme_doodle.Passes.ResolveTypes.{bind_type, bind_single, resolve_symbol, resolve_type_symbol}
use supreme_doodle.Passes.Growth.{growth}
use supreme_doodle.Passes.Growth.Actions.{
  emit-Meets, set_decl_node-Meets, get_decls-Meets, insert_decl-Meets, Meets-find,
}

abbrev Done : Unit {0} → Type 0
Done a = Unit

module _ (ls : ℕ) where
  declare_type-Meets :
      (m : String → Message) (self : Decl) (h : DeclHead)
      → Meets (growth ⊥) ls Done (declare_type m self h ls)
  unfolding declare_type
  declare_type-Meets m self h = Meets-bind (growth ⊥) (get_decls-Meets ⊥ ls h.name) λ ds _.
      Meets-list (growth ⊥) ds (insert_decl-Meets ⊥ ls h.name self)
        (λ first _. Meets-then (growth ⊥) (emit-Meets ⊥ ls _) (emit-Meets ⊥ ls _))

  bind_type-Meets : (n : Node) (k : String) (d : Decl) → Meets (growth ⊥) ls Done (bind_type n k d)
  unfolding bind_type
  bind_type-Meets n k (type_decl h) = set_decl_node-Meets ⊥ ls n.id (type_decl h)
  bind_type-Meets n k (use_decl h) = set_decl_node-Meets ⊥ ls n.id (use_decl h)
  bind_type-Meets n k _ = Meets-then (growth ⊥) (emit-Meets ⊥ ls _) (emit-Meets ⊥ ls _)

  bind_single-Meets :
      (n : Node) (k : String) (ds : List Decl) → Meets (growth ⊥) ls Done (bind_single n k ds)
  unfolding bind_single
  bind_single-Meets n k [] = Meets-fail (growth ⊥) assertion tt
  bind_single-Meets n k (d ∷ []) = bind_type-Meets n k d
  bind_single-Meets n k (d ∷ e ∷ ds) = Meets-fail (growth ⊥) assertion tt

resolve_symbol-Meets :
    (ls : ℕ) (n : Node) (k : String) → Meets (growth ⊥) ls Done (resolve_symbol n k ls)
unfolding resolve_symbol
resolve_symbol-Meets ls n k =
    Meets-find ⊥ ls k _ (emit-Meets ⊥ ls _)
      (λ i. Meets-bind (growth ⊥) (get_decls-Meets ⊥ i k) (λ ds _. bind_single-Meets i n k ds))

pub forward_declare_type-Meets : VisitorMeets (growth ⊥) Done forward_declare_type
unfolding forward_declare_type
forward_declare_type-Meets =
    let types = default_types-Meets (growth ⊥) Done tt tt in
    let base = default_visitor-Meets (growth ⊥) Done tt (default_types tt) tt types in
    record {
      default_result = tt;
      types = types;
      var = base.var;
      type_decl = λ ls self h type _. declare_type-Meets ls type_redefinition self h;
      use_decl = λ ls self h type _. declare_type-Meets ls alias_redefinition self h;
      impl = base.impl;
      func = base.func;
      param = base.param;
      block = λ ls stmts _. Meets-pure (growth ⊥) tt tt;
      bool = base.bool;
      char = base.char;
      num = base.num;
      string = base.string;
    }

resolve_types-Meets :
    TypesMeet (growth ⊥) Done Any (record (default_types tt) { on_decl_ref = resolve_symbol })
unfolding default_types
resolve_types-Meets =
    let base = default_types-Meets (growth ⊥) Done tt tt in
    record {
      builtin = base.builtin;
      decl_ref = λ ls n k _. resolve_symbol-Meets ls n k;
      access = base.access;
      qual = base.qual;
      pointer = base.pointer;
      array = base.array;
      function = base.function;
      object = base.object;
      enum = base.enum;
    }

pub resolve_type_symbol-Meets : VisitorMeets (growth ⊥) Done resolve_type_symbol
unfolding resolve_type_symbol
resolve_type_symbol-Meets =
    let base = default_visitor-Meets (growth ⊥) Done tt _ tt resolve_types-Meets in
    record {
      default_result = tt;
      types = resolve_types-Meets;
      var = base.var;
      type_decl = base.type_decl;
      use_decl = base.use_decl;
      impl = base.impl;
      func = base.func;
      param = base.param;
      block = λ ls stmts _. Meets-pure (growth ⊥) tt tt;
      bool = base.bool;
      char = base.char;
      num = base.num;
      string = base.string;
    }
