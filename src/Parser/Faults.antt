-- ===== src/Parser/Faults.antt =====
-- compiler/lib/Parser/ParseTreeVisitor.h: the trees that the visitor crashes on, and the loop.
use supreme_doodle.Common.{◌≡◌, refl, true, ◌&&◌, none, []}
use supreme_doodle.Parser.Tree.{FuncTree, ForHeader, StmtTree, for_tree}
use supreme_doodle.Parser.Actions.{Source, Builder, built, crash, null_deref, and_then, create_at}
use supreme_doodle.Parser.Build.{build_stmt}
use supreme_doodle.Parser.Program.{build_func, build_body}
use supreme_doodle.Parser.Complete.{complete_params, complete_header, complete_stmt}
use supreme_doodle.Parser.Answers.{
  Below, Answers, Answers-bind, Answers-imply, Answers-built, Answers-self,
}
use supreme_doodle.Parser.Fresh.Exprs.{header-Keeps, stmt-Grown}
use supreme_doodle.Parser.Fresh.Programs.{params-Grown, result-Grown}

-- A function declaration without a body, which the grammar allows, is never built: once its parameters and its
-- result are, the visitor dereferences null. The condition says that the parameters' initializers are complete.
pub build_func-no_body :
    (src : Source) (f : FuncTree) (s : Builder)
    → f.body ≡ none
    → complete_params f.params ≡ true
    → build_func src f s ≡ crash null_deref
unfolding build_func create_at build_body Below
build_func-no_body src f s e c =
    let ps = Answers-built (params-Grown src f.params s [] tt) c in
    let r = Answers-built (result-Grown src f f.result ps.1 [] tt) refl in
    rw (ps.2, r.2, e, and_then) refl

-- A `for` statement is built as its body alone: the statement that comes out is what the body builds after the
-- header was visited, so the syntax tree has neither the loop nor its header. It crashes exactly if the header
-- or the body is incomplete.
pub build_stmt-for :
    (src : Source) (h : ForHeader) (t : StmtTree) (s : Builder)
    → Answers
        (complete_header h && complete_stmt t)
        (build_stmt src (for_tree h t) s)
        (λ x u. (r : Builder) × (build_stmt src t r ≡ built x u))
unfolding build_stmt Below
build_stmt-for src h t s =
    Answers-bind (header-Keeps src h s [] tt)
      (λ z r p. Answers-imply (Answers-self (stmt-Grown src t r [] tt)) (λ x u e. (r, e)))
