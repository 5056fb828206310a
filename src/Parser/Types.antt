-- ===== src/Parser/Types.antt =====
-- compiler/lib/Parser/ParseTreeVisitor.h: the members on types.
use supreme_doodle.Ast.{
  AstType, AstTypes, AstFields, AstMembers, decl_type_ref, access_type, qual_type, pointer_type,
  array_type, function_type, object_type, enum_type, no_types, type_cons, no_fields, field,
  no_members, member, bare_member,
}
use supreme_doodle.Parser.Tree.{
  TypeTree, TypeTrees, FieldTrees, MemberTrees, mutable, type_access, decl_ref, pointer, array,
  function, object, enum, no_type_trees, type_tree_cons, no_field_trees, field_tree,
  no_member_trees, member_tree, bare_member_tree,
}
use supreme_doodle.Parser.Actions.{Source, Build, pure, ◌>>=◌, create_at}

unfoldable mutual
  unfolding create_at

  pub build_type : Source → TypeTree → Build AstType
  build_type src (mutable i t) =
      build_type src t >>= λ e. create_at src i >>= λ n. pure (qual_type n e)
  build_type src (type_access i t k) =
      build_type src t >>= λ e. create_at src i >>= λ n. pure (access_type n k e)
  build_type src (decl_ref i k) = create_at src i >>= λ n. pure (decl_type_ref n k)
  build_type src (pointer i nullable t) =
      build_type src t >>= λ e. create_at src i >>= λ n. pure (pointer_type n e nullable)
  build_type src (array i t) =
      build_type src t >>= λ e. create_at src i >>= λ n. pure (array_type n e)
  build_type src (function i ps r) = build_types src ps >>= λ ts.
      build_type src r >>= λ e. create_at src i >>= λ n. pure (function_type n ts e)
  build_type src (object i fs) =
      build_fields src fs >>= λ gs. create_at src i >>= λ n. pure (object_type n gs)
  build_type src (enum i ms) =
      build_members src ms >>= λ ns. create_at src i >>= λ n. pure (enum_type n ns)

  pub build_types : Source → TypeTrees → Build AstTypes
  build_types src no_type_trees = pure no_types
  build_types src (type_tree_cons t ts) =
      build_type src t >>= λ e. build_types src ts >>= λ es. pure (type_cons e es)

  -- The visibility of a field is not read.
  pub build_fields : Source → FieldTrees → Build AstFields
  build_fields src no_field_trees = pure no_fields
  build_fields src (field_tree visibility k t fs) =
      build_type src t >>= λ e. build_fields src fs >>= λ gs. pure (field k e gs)

  -- A member may lack its type.
  pub build_members : Source → MemberTrees → Build AstMembers
  build_members src no_member_trees = pure no_members
  build_members src (member_tree k t ms) =
      build_type src t >>= λ e. build_members src ms >>= λ ns. pure (member k e ns)
  build_members src (bare_member_tree k ms) = build_members src ms >>= λ ns. pure (bare_member k ns)
