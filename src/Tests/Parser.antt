-- ===== src/Tests/Parser.antt =====
-- Parse trees, what is built from them, and the instances of the theorems on the visitor.
use supreme_doodle.Common.{
  ℕ, ◌+◌, ◌≡◌, refl, true, ◌&&◌, Option, none, some, List, [], ◌∷◌, String, map,
}
use supreme_doodle.Ast.{ProgramDecl, AstType}
use supreme_doodle.Ast.Names.{type_name}
use supreme_doodle.Ast.Listed.{listed_program}
use supreme_doodle.Basic.{Message, Diagnostic, duplicate_literal_field}
use supreme_doodle.Parser.Tree
use supreme_doodle.Parser.Tree.{
  Interval, Named, TypeTree, StmtTree, ForHeader, ParamTree, FuncTree, ExportTree, ProgramTree,
  decl_ref, pointer, array, function, object, enum, no_type_trees, type_tree_cons, no_field_trees,
  field_tree, no_member_trees, bare_member_tree, member_tree, mutable, type_access, identifier,
  num_value, binary, if_else, some_stmt_tree, no_stmt_tree, expr_tree, char_value, return_tree,
  for_tree, block_tree, no_stmt_trees, stmt_tree_cons, no_expr_tree, some_expr_tree, clauses,
  no_local_tree, some_local_tree, var_tree, value, no_values, object_value, assign, quoted, dotted,
}
use supreme_doodle.Parser.Actions.{
  Source, Builder, Built, built, crash, null_deref, assertion, create_at, get_range, report,
  unquote,
}
use supreme_doodle.Parser.Types.{build_type}
use supreme_doodle.Parser.Build.{build_expr, build_stmt, promote, char_of, add_field}
use supreme_doodle.Parser.Program.{
  build_program, build_func, build_params, build_param, build_result, build_body, build_global,
  build_export, build_exports, build_import, build_imports, build_package, import_path, export_loc,
}
use supreme_doodle.Parser.Complete.{
  complete_program, complete_header, complete_stmt, complete_params,
}
use supreme_doodle.Parser.Answers.{Answers, Grown, Below}
use supreme_doodle.Parser.Unparse.{unparse, unplaced, unparse-build_type}
use supreme_doodle.Parser.Fresh.Programs.{program-Answers}
use supreme_doodle.Parser.Faults.{build_func-no_body, build_stmt-for}

-- one token of two characters on each line
abbrev pub text : Source
text = record {
  token = λ i. record { line = i + 1; column = 4; size = 2 };
  file = 0;
  is_integer = λ k. true;
}

abbrev pub fresh : Builder
fresh = record { next = 0; diags = [] }

abbrev pub from : ℕ → ℕ → Interval
from a b = record { a = a; b = b }

abbrev named : ℕ → String → Named
named i k = record { at = from i i; name = k; name_at = from i i }

-- func f(x: i32) { if x { return 1 } else x }   without its body, `func f(x: i32)`
abbrev without_body : FuncTree
without_body = record {
  named = named 1 "f";
  params =
      record { named = named 2 "x"; type = decl_ref (from 3 3) "i32"; initializer = no_expr_tree }
      ∷ [];
  result = none;
  func_at = from 1 1;
  rparen_at = from 4 4;
  body = none;
}

-- if x { } else x
abbrev branch : StmtTree
branch = expr_tree (from 5 8) (
    if_else (from 5 8) (identifier (from 5 5) "x") (block_tree (from 6 6) no_stmt_trees)
      (some_stmt_tree (expr_tree (from 8 8) (identifier (from 8 8) "x"))))

-- import "io"   func f(x: i32) { if x { } else x }   public let p : *nullable i32 = 1
abbrev pub small : ProgramTree
small = record {
  at = from 0 20;
  package_decl = some (named 0 "app");
  imports = record { at = from 0 1; path_at = from 1 1; path = quoted "\"io\""; alias = none } ∷ [];
  decls =
      record {
        at = from 1 9;
        visibility = none;
        decl =
            Tree.func
              (record without_body { body = some (from 4 9, stmt_tree_cons branch no_stmt_trees) });
      }
      ∷ record {
        at = from 10 12;
        visibility = some (record { at = from 10 10; is_public = true });
        decl = Tree.local (
            var_tree (named 11 "p") (some_expr_tree (num_value (from 12 12) "1"))
              (some (pointer (from 12 12) true (decl_ref (from 12 12) "i32"))));
      }
      ∷ [];
}

abbrev ids_of : Built ProgramDecl → Option (List ℕ)
ids_of (built p s) = some (listed_program p [])
ids_of (crash c) = none

abbrev next_of : {A : Type 0} → Built A → Option ℕ
next_of (built p s) = some s.next
next_of (crash c) = none

small_next : next_of (build_program text small fresh) ≡ some 22
unfolding build_program build_package build_imports build_import import_path unquote build_exports
    build_export build_global build_func build_params build_param build_result build_body build_expr
    build_type promote create_at export_loc
small_next = refl

program-Answers_example :
    Answers (complete_program small) (build_program text small fresh) (Grown listed_program [] 0)
unfolding Below
program-Answers_example = program-Answers text small fresh [] tt

build_func-no_body_example : build_func text without_body fresh ≡ crash null_deref
unfolding complete_params
build_func-no_body_example = build_func-no_body text without_body fresh refl refl

-- let i; x; x = 1
abbrev counting : ForHeader
counting =
    clauses (some_local_tree (var_tree (named 1 "i") no_expr_tree none))
      (some_expr_tree (identifier (from 2 2) "x"))
      (some_expr_tree (assign (from 3 4) (identifier (from 3 3) "x") (num_value (from 4 4) "1")))

build_stmt-for_example :
    Answers
      (complete_header counting && complete_stmt branch)
      (build_stmt text (for_tree counting branch) fresh)
      (λ x u. (r : Builder) × (build_stmt text branch r ≡ built x u))
build_stmt-for_example = build_stmt-for text counting branch fresh

-- *nullable func({ public x: i32 }) enum { a, b: [mut m.t] }
abbrev signature : TypeTree
signature = pointer (from 1 9) true (
    function (from 2 9)
      (type_tree_cons
        (object (from 3 3) (
          field_tree (some (record { at = from 3 3; is_public = true })) "x"
            (decl_ref (from 3 3) "i32") no_field_trees))
        no_type_trees)
      (enum (from 4 9) (
        bare_member_tree "a" (
          member_tree "b"
            (array (from 5 8)
              (mutable (from 6 8) (type_access (from 7 8) (decl_ref (from 7 7) "m") "t")))
            no_member_trees))))

unparse-build_type_example :
    Answers true (build_type text signature fresh) (λ e u. unparse e ≡ unplaced signature)
unparse-build_type_example = unparse-build_type text signature fresh

abbrev name_of : Built AstType → String
name_of (built e s) = type_name e
name_of (crash c) = ""

signature_name :
    name_of (build_type text signature fresh)
    ≡ "*nullable func({ x: @i32 }) enum { a, b: [<qual> @m.t] }"
unfolding build_type create_at type_name
signature_name = refl

-- '\n' is a literal of the lexer with four bytes
escape_crashes :
    build_expr text (char_value (from 0 0) (39 ∷ 92 ∷ 110 ∷ 39 ∷ [])) fresh ≡ crash assertion
unfolding build_expr char_of
escape_crashes = refl

abbrev messages_of : {A : Type 0} → Built A → List Message
messages_of (built a s) = map (λ (d : Diagnostic). d.message) s.diags
messages_of (crash c) = []

-- { k: x, k: 1 }
repeated_field :
    messages_of (
      build_expr text
        (object_value (from 0 6) (
          value "k"
            (from 1 1)
            (identifier (from 2 2) "x")
            (value "k" (from 3 3) (num_value (from 4 4) "1") no_values)))
        fresh)
    ≡ duplicate_literal_field "k" ∷ []
unfolding build_expr add_field report get_range create_at
repeated_field = refl
