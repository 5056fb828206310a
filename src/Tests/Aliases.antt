-- ===== src/Tests/Aliases.antt =====
-- A witness of the theorem on the fuel that aliases need.
use mathlib.Core.Path.{subst}
use supreme_doodle.Common.{ℕ, zero, suc, ◌<◌, ◌≡◌, ◌≢◌, refl, ◌∙◌, ap, Option, none, some, arith}
use supreme_doodle.Ast.{AstType, Decl, decl_type_ref, builtin_type, i32, use_decl, head_of, Node}
use supreme_doodle.Sema.{Sema, out_of_fuel}
use supreme_doodle.Visitor.Contract.Types.{AllRefs}
use supreme_doodle.Passes.Materialize.{follow_ref}
use supreme_doodle.Passes.Materialize.Ends.{IsRanked, follow_ref-fuel}
use supreme_doodle.Tests.Programs.{node, head, start}

-- `use A = B` and `use B = i32`, where node 0 is a reference to `A` and all others are references to `B`
abbrev pub chain : ℕ → Option Decl
chain zero = some (use_decl (head 10 "A" (some (decl_type_ref (node 1) "B"))))
chain (suc i) = some (use_decl (head 11 "B" (some (builtin_type (node 2) i32))))

abbrev depth : ℕ → ℕ
depth zero = 1
depth (suc i) = 0

abbrev declared : Option Decl → Option AstType
declared none = none
declared (some d) = (head_of d).type

some_injective : (t u : AstType) → some t ≡ some u → t ≡ u
some_injective t u h = cc

chain-IsRanked : IsRanked depth chain
unfolding AllRefs
chain-IsRanked zero h t e k =
    subst (AllRefs (λ (m : Node). depth m.id < 1))
      (some_injective (decl_type_ref (node 1) "B") t (ap declared e ∙ k)) (omega arith)
chain-IsRanked (suc i) h t e k =
    subst (AllRefs (λ (m : Node). depth m.id < 0))
      (some_injective (builtin_type (node 2) i32) t (ap declared e ∙ k)) tt

abbrev pub chained : Sema
chained = record start { node_decl = chain }

follow_ref-fuel_example : follow_ref 2 (node 0) 0 chained ≢ out_of_fuel
follow_ref-fuel_example =
    follow_ref-fuel chain depth chain-IsRanked 2 0 (node 0) chained (omega arith) refl (omega arith)
