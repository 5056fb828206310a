-- ===== src/Tests/Printer.antt =====
-- Runs of the printer and the instance of its theorem.
use supreme_doodle.Common.{ℕ, ◌≡◌, refl, Option, none, some, List, [], ◌∷◌, map}
use supreme_doodle.Ast.{
  Stmt, Block, block, block_stmt, expr_stmt, for_stmt, decl_ref_expr, no_decl_stmt, no_expr,
  no_stmts, stmt_cons,
}
use supreme_doodle.Printer.{
  Piece, bar, blank, branch, corner, Line, print, visit, print_node, print_mark, bars, write_flag,
}
use supreme_doodle.Printer.Nodes.{
  outline_program, outline_package, outline_imports, outline_exports, outline_export, outline_decl,
  outline_stmt,
}
use supreme_doodle.Printer.Render.{shallow, render_root}
use supreme_doodle.Printer.Flags.{print-outline_program}
use supreme_doodle.Tests.Programs.{sample, node}

print-outline_program_example :
    print (outline_program sample) ≡ some (render_root (outline_program sample))
unfolding shallow outline_program outline_package outline_imports outline_exports outline_export
    outline_decl
print-outline_program_example = print-outline_program sample refl

abbrev prefixes : Option (List Line) → List (List Piece)
prefixes (some ls) = map (λ (l : Line). l.prefix) ls
prefixes none = []

sample_run :
    prefixes (print (outline_program sample))
    ≡ []
      ∷ (branch ∷ [])
      ∷ (bar ∷ corner ∷ [])
      ∷ (branch ∷ [])
      ∷ (bar ∷ corner ∷ [])
      ∷ (bar ∷ blank ∷ corner ∷ [])
      ∷ (corner ∷ [])
      ∷ (blank ∷ corner ∷ [])
      ∷ (blank ∷ blank ∷ corner ∷ [])
      ∷ []
unfolding print visit print_node print_mark bars write_flag outline_program outline_package
    outline_imports outline_exports outline_export outline_decl
sample_run = refl

abbrev empty_block : ℕ → Block
empty_block i = block (node i) no_stmts

-- { { for { } }   x   }  with an assignment as x: the loop leaves the flag of its depth cleared.
abbrev with_loop : Stmt
with_loop = block_stmt (
    block (node 0) (
      stmt_cons
        (block_stmt (
          block (node 1)
            (stmt_cons (for_stmt (node 2) no_decl_stmt no_expr no_expr (empty_block 3)) no_stmts)))
        (stmt_cons
          (block_stmt (
            block (node 4) (
              stmt_cons (expr_stmt (node 5) (decl_ref_expr (node 6) "x"))
                (stmt_cons (expr_stmt (node 7) (decl_ref_expr (node 8) "y")) no_stmts))))
          no_stmts)))

-- The sixth line's node has a sibling below it, but its child's prefix has a blank.
loop_run :
    prefixes (print (outline_stmt with_loop))
    ≡ []
      ∷ (branch ∷ [])
      ∷ (bar ∷ corner ∷ [])
      ∷ (bar ∷ blank ∷ corner ∷ [])
      ∷ (corner ∷ [])
      ∷ (blank ∷ branch ∷ [])
      ∷ (blank ∷ blank ∷ corner ∷ [])
      ∷ (blank ∷ corner ∷ [])
      ∷ (blank ∷ blank ∷ corner ∷ [])
      ∷ []
unfolding print visit print_node print_mark bars write_flag outline_stmt
loop_run = refl
