-- ===== src/Parser/Fresh/Types.antt =====
-- compiler/lib/Parser/ParseTreeVisitor.h: the types that are built.
use supreme_doodle.Common.{ℕ, refl, true, List, Option, none, some}
use supreme_doodle.Ast.Listed.{
  listed_type, listed_types, listed_fields, listed_members, listed_opt_type,
}
use supreme_doodle.Parser.Tree.{
  TypeTree, TypeTrees, FieldTrees, MemberTrees, mutable, type_access, decl_ref, pointer, array,
  function, object, enum, no_type_trees, type_tree_cons, no_field_trees, field_tree,
  no_member_trees, member_tree, bare_member_tree,
}
use supreme_doodle.Parser.Actions.{Source, Builder, create_at}
use supreme_doodle.Parser.Types.{build_type, build_types, build_fields, build_members}
use supreme_doodle.Parser.Build.{build_opt_type}
use supreme_doodle.Parser.Answers.{
  Below, Answers, Grown, Answers-finish, answered, started, Grown-trans, Grown-same, Grown-node,
}

mutual
  unfolding build_type listed_type create_at

  pub type-Grown :
      (src : Source) (t : TypeTree) (s : Builder) (ids : List ℕ)
      → Below s.next ids
      → Answers true (build_type src t s) (Grown listed_type ids s.next)
  type-Grown src (mutable i t) s ids b =
      Answers-finish (type-Grown src t s ids b) (λ e r p. answered (Grown-node p refl))
  type-Grown src (type_access i t k) s ids b =
      Answers-finish (type-Grown src t s ids b) (λ e r p. answered (Grown-node p refl))
  type-Grown src (decl_ref i k) s ids b = answered (Grown-node (started s b) refl)
  type-Grown src (pointer i n t) s ids b =
      Answers-finish (type-Grown src t s ids b) (λ e r p. answered (Grown-node p refl))
  type-Grown src (array i t) s ids b =
      Answers-finish (type-Grown src t s ids b) (λ e r p. answered (Grown-node p refl))
  type-Grown src (function i ps t) s ids b = Answers-finish (types-Grown src ps s ids b) (λ es r p.
      Answers-finish (type-Grown src t r (listed_types es ids) p.below)
        (λ e u q. answered (Grown-node (Grown-trans p q) refl)))
  type-Grown src (object i fs) s ids b =
      Answers-finish (fields-Grown src fs s ids b) (λ e r p. answered (Grown-node p refl))
  type-Grown src (enum i ms) s ids b =
      Answers-finish (members-Grown src ms s ids b) (λ e r p. answered (Grown-node p refl))

  pub types-Grown :
      (src : Source) (ts : TypeTrees) (s : Builder) (ids : List ℕ)
      → Below s.next ids
      → Answers true (build_types src ts s) (Grown listed_types ids s.next)
  types-Grown src no_type_trees s ids b = answered (Grown-same (started s b) refl)
  types-Grown src (type_tree_cons t ts) s ids b =
      Answers-finish (type-Grown src t s ids b) (λ e r p.
        Answers-finish (types-Grown src ts r (listed_type e ids) p.below)
          (λ es u q. answered (Grown-same (Grown-trans p q) refl)))

  fields-Grown :
      (src : Source) (fs : FieldTrees) (s : Builder) (ids : List ℕ)
      → Below s.next ids
      → Answers true (build_fields src fs s) (Grown listed_fields ids s.next)
  fields-Grown src no_field_trees s ids b = answered (Grown-same (started s b) refl)
  fields-Grown src (field_tree v k t fs) s ids b =
      Answers-finish (type-Grown src t s ids b) (λ e r p.
        Answers-finish (fields-Grown src fs r (listed_type e ids) p.below)
          (λ es u q. answered (Grown-same (Grown-trans p q) refl)))

  members-Grown :
      (src : Source) (ms : MemberTrees) (s : Builder) (ids : List ℕ)
      → Below s.next ids
      → Answers true (build_members src ms s) (Grown listed_members ids s.next)
  members-Grown src no_member_trees s ids b = answered (Grown-same (started s b) refl)
  members-Grown src (member_tree k t ms) s ids b =
      Answers-finish (type-Grown src t s ids b) (λ e r p.
        Answers-finish (members-Grown src ms r (listed_type e ids) p.below)
          (λ es u q. answered (Grown-same (Grown-trans p q) refl)))
  members-Grown src (bare_member_tree k ms) s ids b =
      Answers-finish (members-Grown src ms s ids b) (λ e r p. answered (Grown-same p refl))

pub opt_type-Grown :
    (src : Source) (t : Option TypeTree) (s : Builder) (ids : List ℕ)
    → Below s.next ids
    → Answers true (build_opt_type src t s) (Grown listed_opt_type ids s.next)
unfolding build_opt_type listed_opt_type
opt_type-Grown src none s ids b = answered (Grown-same (started s b) refl)
opt_type-Grown src (some t) s ids b =
    Answers-finish (type-Grown src t s ids b) (λ e r p. answered (Grown-same p refl))
