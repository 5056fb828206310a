-- ===== src/Parser/Fresh/Steps.antt =====
-- compiler/lib/Parser/ParseTreeVisitor.h: the operators, literals, blocks and fields of which expressions
-- are built.
use supreme_doodle.Common.{
  ℕ, ◌≡◌, refl, sym, true, false, List, [], ◌∷◌, ◌++◌, String, inl, inr, Bool-cases,
}
use mathlib.Core.Path.{subst}
use supreme_doodle.Basic.{located, error, duplicate_literal_field}
use supreme_doodle.Ast.{
  Stmt, Expr, ObjectFields, no_object_fields, object_field, block_stmt, return_stmt, decl_stmt,
  expr_stmt, for_stmt, declare, block,
}
use supreme_doodle.Ast.Listed.{listed_expr, listed_values, listed_stmt, listed_block}
use supreme_doodle.Parser.Tree
use supreme_doodle.Parser.Tree.{
  Interval, TokenType, ExprTree, OptExprTree, ExprTrees, ValueTrees, StmtTree, OptStmtTree,
  StmtTrees, ForHeader, LocalTree, OptLocalTree, access, index, call, unary, binary, assign,
  if_else, object_value, identifier, bool_value, char_value, num_value, string_value, no_expr_tree,
  some_expr_tree, no_expr_trees, expr_tree_cons, no_values, value, return_tree, local_tree,
  expr_tree, for_tree, block_tree, no_stmt_tree, some_stmt_tree, no_stmt_trees, stmt_tree_cons,
  over, clauses, var_tree, type_tree, use_tree, no_local_tree, some_local_tree,
}
use supreme_doodle.Parser.Actions.{Source, Builder, built, create_node, get_range, report, unquote}
use supreme_doodle.Parser.Build.{
  binary_op, unary_op, char_of, promote, has_field, append_field, add_field,
}
use supreme_doodle.Parser.Complete.{is_unary, is_binary, is_char, is_nonempty}
use supreme_doodle.Parser.Answers.{
  Below, Below-weaken, Answers, AnswerOf, Grown, answered, started, Grown-same, Grown-node,
}

-- a step that creates no node
abbrev pub Keeps : {A : Type 0} → List ℕ → ℕ → A → Builder → Type 0
Keeps ids m = Grown (λ a xs. xs) ids m

pub binary_op-Keeps :
    (op : TokenType) (s : Builder) (ids : List ℕ)
    → Below s.next ids
    → Answers (is_binary op) (binary_op op s) (Keeps ids s.next)
unfolding is_binary binary_op AnswerOf
binary_op-Keeps Tree.not s ids b = record { answer = refl }
binary_op-Keeps Tree.ref s ids b = record { answer = refl }
binary_op-Keeps Tree.other s ids b = record { answer = refl }
binary_op-Keeps _ s ids b = answered (Grown-same (started s b) refl)

pub unary_op-Keeps :
    (op : TokenType) (s : Builder) (ids : List ℕ)
    → Below s.next ids
    → Answers (is_unary op) (unary_op op s) (Keeps ids s.next)
unfolding is_unary unary_op AnswerOf
unary_op-Keeps Tree.minus s ids b = answered (Grown-same (started s b) refl)
unary_op-Keeps Tree.not s ids b = answered (Grown-same (started s b) refl)
unary_op-Keeps Tree.ref s ids b = answered (Grown-same (started s b) refl)
unary_op-Keeps _ s ids b = record { answer = refl }

pub char_of-Keeps :
    (raw : List ℕ) (s : Builder) (ids : List ℕ)
    → Below s.next ids
    → Answers (is_char raw) (char_of raw s) (Keeps ids s.next)
unfolding is_char char_of AnswerOf
char_of-Keeps [] s ids b = record { answer = refl }
char_of-Keeps (q ∷ []) s ids b = record { answer = refl }
char_of-Keeps (q ∷ c ∷ []) s ids b = record { answer = refl }
char_of-Keeps (q ∷ c ∷ r ∷ []) s ids b = answered (Grown-same (started s b) refl)
char_of-Keeps (q ∷ c ∷ r ∷ x ∷ xs) s ids b = record { answer = refl }

pub unquote-Keeps :
    (raw : String) (s : Builder) (ids : List ℕ)
    → Below s.next ids
    → Answers (is_nonempty raw) (unquote raw s) (Keeps ids s.next)
unfolding is_nonempty unquote AnswerOf
unquote-Keeps String.[] s ids b = record { answer = refl }
unquote-Keeps (String.◌∷◌ c k) s ids b = answered (Grown-same (started s b) refl)

pub promote-Grown :
    (x : Stmt) {ids : List ℕ} {m : ℕ} (s : Builder)
    → Grown listed_stmt ids m x s
    → Answers true (promote x s) (Grown listed_block ids m)
unfolding promote listed_stmt create_node
promote-Grown (block_stmt (block n ss)) s p = answered (Grown-same p refl)
promote-Grown (return_stmt n e) s p = answered (Grown-node p refl)
promote-Grown (decl_stmt (declare n d)) s p = answered (Grown-node p refl)
promote-Grown (expr_stmt n e) s p = answered (Grown-node p refl)
promote-Grown (for_stmt n d c t b) s p = answered (Grown-node p refl)

listed_values-append_field :
    (fs : ObjectFields) (k : String) (e : Expr) (ids : List ℕ)
    → listed_values (append_field fs k e) ids ≡ listed_expr e (listed_values fs ids)
unfolding listed_values
listed_values-append_field no_object_fields k e ids = refl
listed_values-append_field (object_field j f fs) k e ids =
    listed_values-append_field fs k e (listed_expr f ids)

add_field-duplicate :
    (src : Source) (k : String) (i : Interval) (e : Expr) (fs : ObjectFields) (s : Builder)
    → has_field k fs ≡ true
    → add_field src k i e fs s
      ≡ built fs (record s {
        diags = s.diags ++ located error (duplicate_literal_field k) (get_range src i) ∷ [];
      })
unfolding add_field report get_range
add_field-duplicate src k i e fs s c = rw (c, add_field) refl

add_field-new :
    (src : Source) (k : String) (i : Interval) (e : Expr) (fs : ObjectFields) (s : Builder)
    → has_field k fs ≡ false
    → add_field src k i e fs s ≡ built (append_field fs k e) s
unfolding add_field
add_field-new src k i e fs s c = rw (c, add_field) refl

-- A repeated field leaves out the nodes of its value.
pub add_field-Grown :
    (src : Source) (k : String) (i : Interval) (fs : ObjectFields) {ids : List ℕ} {m : ℕ} (e : Expr)
    (s : Builder)
    → Below m (listed_values fs ids)
    → Grown listed_expr (listed_values fs ids) m e s
    → Answers true (add_field src k i e fs s) (Grown listed_values ids m)
add_field-Grown src k i fs {ids} {m} e s b p = elim (Bool-cases (has_field k fs)) [
  | inl c ↦
      subst (λ r. Answers true r (Grown listed_values ids m))
        (sym (add_field-duplicate src k i e fs s c))
        (answered
          (record { grows = p.grows; below = Below-weaken (listed_values fs ids) p.grows b }))
  | inr c ↦
      subst (λ r. Answers true r (Grown listed_values ids m)) (sym (add_field-new src k i e fs s c))
        (answered (Grown-same p (listed_values-append_field fs k e ids)))
]
