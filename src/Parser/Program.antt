-- ===== src/Parser/Program.antt =====
-- compiler/lib/Parser/ParseTreeVisitor.h: the members on functions, global declarations, imports and programs.
use supreme_doodle.Common.{Option, none, some, List, [], ◌∷◌, String, ◌<>◌, if◌then◌else◌}
use supreme_doodle.Location.{SourceLocation}
use supreme_doodle.Ast.{
  Node, AstType, AstTypes, DeclHead, Decl, Func, Funcs, Param, Params, OptBlock, ExportedDecl,
  ImportDecl, ImportType, ProgramDecl, Visibility, public, private, decl_type_ref, function_type,
  no_types, type_cons, func, no_funcs, func_cons, param, no_params, param_cons, some_block, block,
  func_decl, impl_decl, head_of, file, module_import,
}
use supreme_doodle.Ast.Names.{type_name}
use supreme_doodle.Parser.Tree
use supreme_doodle.Parser.Tree.{
  Interval, Named, TypeTree, type_at, StmtTrees, ParamTree, FuncTree, GlobalTree, VisibilityTree,
  ExportTree, PathTree, ImportTree, ProgramTree, quoted, dotted,
}
use supreme_doodle.Parser.Actions.{
  Source, Build, assertion, null_deref, pure, fail, ◌>>=◌, get_range, create_at, union, unquote,
}
use supreme_doodle.Parser.Types.{build_type}
use supreme_doodle.Parser.Build.{build_opt_expr, build_local, build_stmts, named_head}

-- A parameter's node is created after its type is visited.
unfoldable pub build_param : Source → ParamTree → Build Param
unfolding build_opt_expr build_type create_at
build_param src p = build_opt_expr src p.initializer >>= λ e. build_type src p.type >>= λ t.
    create_at src p.named.at >>= λ n. pure (param (named_head src p.named n (some t)) e)

unfoldable pub build_params : Source → List ParamTree → Build Params
unfolding build_param
build_params src [] = pure no_params
build_params src (p ∷ ps) =
    build_param src p >>= λ q. build_params src ps >>= λ qs. pure (param_cons q qs)

-- `ParamTys`: the declared types of the parameters, shared with them
abbrev pub param_types : Params → AstTypes
param_types no_params = no_types
param_types (param_cons (param h e) ps) = elim h.type [
  | none ↦ param_types ps
  | some t ↦ type_cons t (param_types ps)
]

-- the declared result, or a reference to `void` at the closing parenthesis
unfoldable pub build_result : Source → Interval → Option TypeTree → Build AstType
unfolding build_type create_at
build_result src rparen (some t) = build_type src t
build_result src rparen none = create_at src rparen >>= λ n. pure (decl_type_ref n "void")

-- from `func` to the result's type or the closing parenthesis
abbrev pub signature_at : FuncTree → Interval
signature_at f = union f.func_at (elim f.result [ none ↦ f.rparen_at | some t ↦ type_at t ])

-- `visit(ctx->func_body())`, which calls through the pointer if there is no body
unfoldable pub build_body : Source → Option (Interval × StmtTrees) → Build OptBlock
unfolding build_stmts create_at
build_body src none = fail null_deref
build_body src (some (i, ts)) =
    build_stmts src ts >>= λ ss. create_at src i >>= λ n. pure (some_block (block n ss))

unfoldable pub build_func : Source → FuncTree → Build Func
unfolding build_params build_result build_body create_at
build_func src f = build_params src f.params >>= λ ps.
    build_result src f.rparen_at f.result >>= λ r. create_at src (signature_at f) >>= λ m.
    build_body src f.body >>= λ b. create_at src f.named.at >>= λ n.
    pure (func (named_head src f.named n (some (function_type m (param_types ps) r))) ps b)

unfoldable pub build_funcs : Source → List FuncTree → Build Funcs
unfolding build_func
build_funcs src [] = pure no_funcs
build_funcs src (f ∷ fs) =
    build_func src f >>= λ g. build_funcs src fs >>= λ gs. pure (func_cons g gs)

-- An `impl` is named after its type and declared where its type stands.
unfoldable pub impl_head : Source → TypeTree → Node → AstType → DeclHead
unfolding type_name get_range
impl_head src t n e = record {
  node = n;
  decl_loc = get_range src (type_at t);
  name = type_name e;
  type = some e;
}

unfoldable pub build_global : Source → GlobalTree → Build Decl
unfolding build_local build_func build_funcs build_type impl_head create_at
build_global src (Tree.local t) = build_local src t
build_global src (Tree.impl i t fs) = build_type src t >>= λ e.
    build_funcs src fs >>= λ gs. create_at src i >>= λ n. pure (impl_decl (impl_head src t n e) gs)
build_global src (Tree.func f) = build_func src f >>= λ g. pure (func_decl g)

-- Without a visibility the declaration is private.
abbrev pub visibility_of : Option VisibilityTree → Visibility
visibility_of none = private
visibility_of (some v) = if v.is_public then public else private

-- where the visibility stands, or else where the declaration is declared
unfoldable pub export_loc : Source → Option VisibilityTree → Decl → SourceLocation
unfolding get_range
export_loc src none d = (head_of d).decl_loc
export_loc src (some v) d = get_range src v.at

unfoldable pub build_export : Source → ExportTree → Build ExportedDecl
unfolding build_global export_loc create_at
build_export src x = build_global src x.decl >>= λ d. create_at src x.at >>= λ n. pure (record {
  node = n;
  decl_loc = export_loc src x.visibility d;
  exported = d;
  visibility = visibility_of x.visibility;
})

-- the components joined by dots
abbrev pub join_path : String → List String → String
join_path path [] = path
join_path path (k ∷ ks) = join_path ((path <> ".") <> k) ks

abbrev pub import_kind : PathTree → ImportType
import_kind (quoted raw) = file
import_kind (dotted k ks) = module_import

-- the text without its quotes, which must be two characters, or the dotted path
unfoldable pub import_path : PathTree → Build String
unfolding unquote
import_path (quoted String.[]) = fail assertion
import_path (quoted (String.◌∷◌ c String.[])) = fail assertion
import_path (quoted raw) = unquote raw
import_path (dotted k ks) = pure (join_path k ks)

unfoldable pub build_import : Source → ImportTree → Build ImportDecl
unfolding import_path create_at get_range
build_import src x = import_path x.path >>= λ path. create_at src x.at >>= λ n. pure (record {
  head = record { node = n; decl_loc = get_range src x.path_at; name = path; type = none };
  kind = import_kind x.path;
  alias = x.alias;
})

unfoldable pub build_imports : Source → List ImportTree → Build (List ImportDecl)
unfolding build_import
build_imports src [] = pure []
build_imports src (x ∷ xs) =
    build_import src x >>= λ y. build_imports src xs >>= λ ys. pure (y ∷ ys)

unfoldable pub build_exports : Source → List ExportTree → Build (List ExportedDecl)
unfolding build_export
build_exports src [] = pure []
build_exports src (x ∷ xs) =
    build_export src x >>= λ y. build_exports src xs >>= λ ys. pure (y ∷ ys)

unfoldable pub build_package : Source → Option Named → Build (Option DeclHead)
unfolding create_at
build_package src none = pure none
build_package src (some d) = create_at src d.at >>= λ n. pure (some (named_head src d n none))

unfoldable pub build_program : Source → ProgramTree → Build ProgramDecl
unfolding build_package build_imports build_exports create_at
build_program src p = build_package src p.package_decl >>= λ d.
    build_imports src p.imports >>= λ is. build_exports src p.decls >>= λ ds.
    create_at src p.at >>= λ n.
    pure (record { node = n; package_decl = d; imports = is; decls = ds })
