-- ===== src/Parser/Fresh/Programs.antt =====
-- compiler/lib/Parser/ParseTreeVisitor.h: the functions, declarations and programs that are built.
use supreme_doodle.Common.{ℕ, ◌+◌, refl, true, Option, none, some, List, [], ◌∷◌, String}
use supreme_doodle.Ast.{ExportedDecl, ImportDecl}
use supreme_doodle.Ast.Listed.{
  listed_type, listed_opt_type, listed_signature, listed_opt_expr, listed_opt_block, listed_decl,
  listed_func, listed_funcs, listed_param, listed_params, listed_package, listed_imports,
  listed_exports, listed_program,
}
use supreme_doodle.Parser.Tree
use supreme_doodle.Parser.Tree.{
  Interval, Named, TypeTree, StmtTrees, ParamTree, FuncTree, GlobalTree, ExportTree, PathTree,
  ImportTree, ProgramTree, quoted, dotted,
}
use supreme_doodle.Parser.Actions.{Source, Builder, create_at, unquote}
use supreme_doodle.Parser.Program.{
  build_param, build_params, build_result, build_body, build_func, build_funcs, build_global,
  build_export, import_path, build_import, build_imports, build_exports, build_package,
  build_program, impl_head,
}
use supreme_doodle.Parser.Complete.{
  complete_params, complete_body, complete_func, complete_funcs, complete_global, complete_exports,
  complete_path, complete_imports, complete_program, complete_opt_expr,
}
use supreme_doodle.Parser.Answers.{
  Below, Answers, AnswerOf, Grown, Answers-bind, Answers-finish, answered, started, Grown-trans,
  Grown-same, Grown-node, Grown-push,
}
use supreme_doodle.Parser.Fresh.Types.{type-Grown}
use supreme_doodle.Parser.Fresh.Steps.{Keeps}
use supreme_doodle.Parser.Fresh.Exprs.{opt_expr-Grown, stmts-Grown, local-Grown}

param-Grown :
    (src : Source) (p : ParamTree) (s : Builder) (ids : List ℕ)
    → Below s.next ids
    → Answers
        (complete_opt_expr p.initializer)
        (build_param src p s)
        (Grown listed_param ids s.next)
unfolding build_param listed_param create_at listed_opt_type
param-Grown src p s ids b = Answers-finish (opt_expr-Grown src p.initializer s ids b) (λ e r q.
    Answers-finish (type-Grown src p.type r (listed_opt_expr e ids) q.below)
      (λ t u z. answered (Grown-node (Grown-trans q z) refl)))

pub params-Grown :
    (src : Source) (ps : List ParamTree) (s : Builder) (ids : List ℕ)
    → Below s.next ids
    → Answers (complete_params ps) (build_params src ps s) (Grown listed_params ids s.next)
unfolding build_params listed_params complete_params
params-Grown src [] s ids b = answered (Grown-same (started s b) refl)
params-Grown src (p ∷ ps) s ids b = Answers-bind (param-Grown src p s ids b) (λ q r z.
    Answers-finish (params-Grown src ps r (listed_param q ids) z.below)
      (λ qs u y. answered (Grown-same (Grown-trans z y) refl)))

pub result-Grown :
    (src : Source) (f : FuncTree) (o : Option TypeTree) (s : Builder) (ids : List ℕ)
    → Below s.next ids
    → Answers true (build_result src f.rparen_at o s) (Grown listed_type ids s.next)
unfolding build_result listed_type create_at
result-Grown src f none s ids b = answered (Grown-node (started s b) refl)
result-Grown src f (some t) s ids b = type-Grown src t s ids b

body-Grown :
    (src : Source) (o : Option (Interval × StmtTrees)) (s : Builder) (ids : List ℕ)
    → Below s.next ids
    → Answers (complete_body o) (build_body src o s) (Grown listed_opt_block ids s.next)
unfolding build_body complete_body listed_opt_block create_at AnswerOf
body-Grown src none s ids b = record { answer = refl }
body-Grown src (some (i, ts)) s ids b =
    Answers-finish (stmts-Grown src ts s ids b) (λ ss r p. answered (Grown-node p refl))

func-Grown :
    (src : Source) (f : FuncTree) (s : Builder) (ids : List ℕ)
    → Below s.next ids
    → Answers (complete_func f) (build_func src f s) (Grown listed_func ids s.next)
unfolding build_func complete_func listed_func listed_signature create_at
func-Grown src f s ids b = Answers-bind (params-Grown src f.params s ids b) (λ ps r p.
    Answers-bind (result-Grown src f f.result r (listed_params ps ids) p.below) (λ t u q.
      Answers-finish
        (body-Grown src f.body (record u { next = u.next + 1 })
          (u.next ∷ listed_type t (listed_params ps ids)) (Grown-push q).below)
        (λ o w z. answered (Grown-node (Grown-trans p (Grown-trans (Grown-push q) z)) refl))))

funcs-Grown :
    (src : Source) (fs : List FuncTree) (s : Builder) (ids : List ℕ)
    → Below s.next ids
    → Answers (complete_funcs fs) (build_funcs src fs s) (Grown listed_funcs ids s.next)
unfolding build_funcs listed_funcs complete_funcs
funcs-Grown src [] s ids b = answered (Grown-same (started s b) refl)
funcs-Grown src (f ∷ fs) s ids b = Answers-bind (func-Grown src f s ids b) (λ g r z.
    Answers-finish (funcs-Grown src fs r (listed_func g ids) z.below)
      (λ gs u y. answered (Grown-same (Grown-trans z y) refl)))

global-Grown :
    (src : Source) (t : GlobalTree) (s : Builder) (ids : List ℕ)
    → Below s.next ids
    → Answers (complete_global t) (build_global src t s) (Grown listed_decl ids s.next)
unfolding build_global complete_global listed_decl listed_opt_type impl_head create_at
global-Grown src (Tree.local t) s ids b = local-Grown src t s ids b
global-Grown src (Tree.impl i t fs) s ids b = Answers-bind (type-Grown src t s ids b) (λ e r p.
    Answers-finish (funcs-Grown src fs r (listed_type e ids) p.below)
      (λ gs u q. answered (Grown-node (Grown-trans p q) refl)))
global-Grown src (Tree.func f) s ids b =
    Answers-finish (func-Grown src f s ids b) (λ g r p. answered (Grown-same p refl))

export-Grown :
    (src : Source) (x : ExportTree) (s : Builder) (ids : List ℕ)
    → Below s.next ids
    → Answers (complete_global x.decl) (build_export src x s) (
        Grown
          (λ (y : ExportedDecl) (is : List ℕ). y.node.id ∷ listed_decl y.exported is)
          ids
          s.next)
unfolding build_export create_at
export-Grown src x s ids b =
    Answers-finish (global-Grown src x.decl s ids b) (λ d r p. answered (Grown-node p refl))

exports-Grown :
    (src : Source) (xs : List ExportTree) (s : Builder) (ids : List ℕ)
    → Below s.next ids
    → Answers (complete_exports xs) (build_exports src xs s) (Grown listed_exports ids s.next)
unfolding build_exports listed_exports complete_exports build_export create_at
exports-Grown src [] s ids b = answered (Grown-same (started s b) refl)
exports-Grown src (x ∷ xs) s ids b = Answers-bind (export-Grown src x s ids b) (λ y r z.
    Answers-finish (exports-Grown src xs r (y.node.id ∷ listed_decl y.exported ids) z.below)
      (λ ys u q. answered (Grown-same (Grown-trans z q) refl)))

import_path-Keeps :
    (x : PathTree) (s : Builder) (ids : List ℕ)
    → Below s.next ids
    → Answers (complete_path x) (import_path x s) (Keeps ids s.next)
unfolding import_path complete_path unquote AnswerOf
import_path-Keeps (quoted String.[]) s ids b = record { answer = refl }
import_path-Keeps (quoted (String.◌∷◌ c String.[])) s ids b = record { answer = refl }
import_path-Keeps (quoted (String.◌∷◌ c (String.◌∷◌ d k))) s ids b =
    answered (Grown-same (started s b) refl)
import_path-Keeps (dotted k ks) s ids b = answered (Grown-same (started s b) refl)

import-Grown :
    (src : Source) (x : ImportTree) (s : Builder) (ids : List ℕ)
    → Below s.next ids
    → Answers
        (complete_path x.path)
        (build_import src x s)
        (Grown (λ (y : ImportDecl) (is : List ℕ). y.head.node.id ∷ is) ids s.next)
unfolding build_import create_at
import-Grown src x s ids b =
    Answers-finish (import_path-Keeps x.path s ids b) (λ d r p. answered (Grown-node p refl))

imports-Grown :
    (src : Source) (xs : List ImportTree) (s : Builder) (ids : List ℕ)
    → Below s.next ids
    → Answers (complete_imports xs) (build_imports src xs s) (Grown listed_imports ids s.next)
unfolding build_imports listed_imports complete_imports
imports-Grown src [] s ids b = answered (Grown-same (started s b) refl)
imports-Grown src (x ∷ xs) s ids b = Answers-bind (import-Grown src x s ids b) (λ y r z.
    Answers-finish (imports-Grown src xs r (y.head.node.id ∷ ids) z.below)
      (λ ys u q. answered (Grown-same (Grown-trans z q) refl)))

package-Grown :
    (src : Source) (d : Option Named) (s : Builder) (ids : List ℕ)
    → Below s.next ids
    → Answers true (build_package src d s) (Grown listed_package ids s.next)
unfolding build_package listed_package create_at
package-Grown src none s ids b = answered (Grown-same (started s b) refl)
package-Grown src (some d) s ids b = answered (Grown-node (started s b) refl)

-- The visitor builds a program exactly if every function of its parse tree has a body, every character
-- literal has three bytes, every operator is of the grammar, no string literal's text is empty and no quoted
-- import path has fewer than two characters; on any other tree it crashes. The identities of the nodes of
-- what it builds are then all new and pairwise different: listed against the order of creation, in front of
-- identities that were given before, they decrease from below the next free one.
pub program-Answers :
    (src : Source) (p : ProgramTree) (s : Builder) (ids : List ℕ)
    → Below s.next ids
    → Answers (complete_program p) (build_program src p s) (Grown listed_program ids s.next)
unfolding build_program complete_program listed_program create_at
program-Answers src p s ids b = Answers-bind (package-Grown src p.package_decl s ids b) (λ d r q.
    Answers-bind (imports-Grown src p.imports r (listed_package d ids) q.below) (λ is u z.
      Answers-finish
        (exports-Grown src p.decls u (listed_imports is (listed_package d ids)) z.below)
        (λ ds w y. answered (Grown-node (Grown-trans q (Grown-trans z y)) refl))))
