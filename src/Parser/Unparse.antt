-- ===== src/Parser/Unparse.antt =====
-- compiler/lib/Parser/ParseTreeVisitor.h: the parse tree of a type of the syntax tree, without positions and the visibility of
-- fields, which the syntax tree does not have.
use supreme_doodle.Common.{◌≡◌, refl, ap, true, none}
use supreme_doodle.Ast.{
  AstType, AstTypes, AstFields, AstMembers, builtin_type, decl_type_ref, access_type, qual_type,
  pointer_type, array_type, function_type, object_type, enum_type, no_types, type_cons, no_fields,
  field, no_members, member, bare_member,
}
use supreme_doodle.Ast.Names.{native_name}
use supreme_doodle.Parser.Tree.{
  Interval, TypeTree, TypeTrees, FieldTrees, MemberTrees, mutable, type_access, decl_ref, pointer,
  array, function, object, enum, no_type_trees, type_tree_cons, no_field_trees, field_tree,
  no_member_trees, member_tree, bare_member_tree,
}
use supreme_doodle.Parser.Actions.{Source, Builder, create_at, create_node}
use supreme_doodle.Parser.Types.{build_type, build_types, build_fields, build_members}
use supreme_doodle.Parser.Answers.{Answers, Answers-finish, answered}

abbrev nowhere : Interval
nowhere = record { a = 0; b = 0 }

-- A builtin type is written by its name.
unfoldable mutual
  pub unparse : AstType → TypeTree
  unparse (builtin_type n t) = decl_ref nowhere (native_name t)
  unparse (decl_type_ref n k) = decl_ref nowhere k
  unparse (access_type n k t) = type_access nowhere (unparse t) k
  unparse (qual_type n t) = mutable nowhere (unparse t)
  unparse (pointer_type n t nullable) = pointer nowhere nullable (unparse t)
  unparse (array_type n t) = array nowhere (unparse t)
  unparse (function_type n ps r) = function nowhere (unparse_types ps) (unparse r)
  unparse (object_type n fs) = object nowhere (unparse_fields fs)
  unparse (enum_type n ms) = enum nowhere (unparse_members ms)

  pub unparse_types : AstTypes → TypeTrees
  unparse_types no_types = no_type_trees
  unparse_types (type_cons t ts) = type_tree_cons (unparse t) (unparse_types ts)

  pub unparse_fields : AstFields → FieldTrees
  unparse_fields no_fields = no_field_trees
  unparse_fields (field k t fs) = field_tree none k (unparse t) (unparse_fields fs)

  pub unparse_members : AstMembers → MemberTrees
  unparse_members no_members = no_member_trees
  unparse_members (member k t ms) = member_tree k (unparse t) (unparse_members ms)
  unparse_members (bare_member k ms) = bare_member_tree k (unparse_members ms)

-- the parse tree with its positions and the visibilities of its fields forgotten
unfoldable mutual
  pub unplaced : TypeTree → TypeTree
  unplaced (mutable i t) = mutable nowhere (unplaced t)
  unplaced (type_access i t k) = type_access nowhere (unplaced t) k
  unplaced (decl_ref i k) = decl_ref nowhere k
  unplaced (pointer i nullable t) = pointer nowhere nullable (unplaced t)
  unplaced (array i t) = array nowhere (unplaced t)
  unplaced (function i ps r) = function nowhere (unplaced_types ps) (unplaced r)
  unplaced (object i fs) = object nowhere (unplaced_fields fs)
  unplaced (enum i ms) = enum nowhere (unplaced_members ms)

  pub unplaced_types : TypeTrees → TypeTrees
  unplaced_types no_type_trees = no_type_trees
  unplaced_types (type_tree_cons t ts) = type_tree_cons (unplaced t) (unplaced_types ts)

  pub unplaced_fields : FieldTrees → FieldTrees
  unplaced_fields no_field_trees = no_field_trees
  unplaced_fields (field_tree v k t fs) = field_tree none k (unplaced t) (unplaced_fields fs)

  pub unplaced_members : MemberTrees → MemberTrees
  unplaced_members no_member_trees = no_member_trees
  unplaced_members (member_tree k t ms) = member_tree k (unplaced t) (unplaced_members ms)
  unplaced_members (bare_member_tree k ms) = bare_member_tree k (unplaced_members ms)

mutual
  unfolding build_type unparse unplaced create_at create_node

  type-Unparses :
      (src : Source) (t : TypeTree) (s : Builder)
      → Answers true (build_type src t s) (λ e u. unparse e ≡ unplaced t)
  type-Unparses src (mutable i t) s =
      Answers-finish (type-Unparses src t s) (λ e u p. answered (ap (mutable nowhere) p))
  type-Unparses src (type_access i t k) s =
      Answers-finish (type-Unparses src t s) (λ e u p. answered (rw (p) refl))
  type-Unparses src (decl_ref i k) s = answered refl
  type-Unparses src (pointer i n t) s =
      Answers-finish (type-Unparses src t s) (λ e u p. answered (ap (pointer nowhere n) p))
  type-Unparses src (array i t) s =
      Answers-finish (type-Unparses src t s) (λ e u p. answered (ap (array nowhere) p))
  type-Unparses src (function i ps t) s =
      Answers-finish (types-Unparses src ps s)
        (λ es u p. Answers-finish (type-Unparses src t u) (λ e w q. answered (rw (p, q) refl)))
  type-Unparses src (object i fs) s =
      Answers-finish (fields-Unparses src fs s) (λ e u p. answered (ap (object nowhere) p))
  type-Unparses src (enum i ms) s =
      Answers-finish (members-Unparses src ms s) (λ e u p. answered (ap (enum nowhere) p))

  types-Unparses :
      (src : Source) (ts : TypeTrees) (s : Builder)
      → Answers true (build_types src ts s) (λ es u. unparse_types es ≡ unplaced_types ts)
  types-Unparses src no_type_trees s = answered refl
  types-Unparses src (type_tree_cons t ts) s =
      Answers-finish (type-Unparses src t s)
        (λ e u p. Answers-finish (types-Unparses src ts u) (λ es w q. answered (rw (p, q) refl)))

  fields-Unparses :
      (src : Source) (fs : FieldTrees) (s : Builder)
      → Answers true (build_fields src fs s) (λ gs u. unparse_fields gs ≡ unplaced_fields fs)
  fields-Unparses src no_field_trees s = answered refl
  fields-Unparses src (field_tree v k t fs) s =
      Answers-finish (type-Unparses src t s)
        (λ e u p. Answers-finish (fields-Unparses src fs u) (λ es w q. answered (rw (p, q) refl)))

  members-Unparses :
      (src : Source) (ms : MemberTrees) (s : Builder)
      → Answers true (build_members src ms s) (λ ns u. unparse_members ns ≡ unplaced_members ms)
  members-Unparses src no_member_trees s = answered refl
  members-Unparses src (member_tree k t ms) s =
      Answers-finish (type-Unparses src t s)
        (λ e u p. Answers-finish (members-Unparses src ms u) (λ es w q. answered (rw (p, q) refl)))
  members-Unparses src (bare_member_tree k ms) s =
      Answers-finish (members-Unparses src ms s) (λ es u p. answered (ap (bare_member_tree k) p))

-- Building a type from its parse tree always succeeds, and what is built is unparsed to the tree with its positions
-- and the visibilities of its object fields forgotten: the order, the names and the nullability of its parts are
-- kept, and public and private fields are built alike.
pub unparse-build_type :
    (src : Source) (t : TypeTree) (s : Builder)
    → Answers true (build_type src t s) (λ e u. unparse e ≡ unplaced t)
unparse-build_type src t s = type-Unparses src t s
