-- ===== src/Tests/Passes.antt =====
-- Witnesses of the theorems on the passes.
use supreme_doodle.Common.{
  ℕ, zero, suc, ◌<◌, get_elem?, ◌≡◌, ◌↔◌, refl, true, none, some, [], ◌∷◌, ◌++◌, arith, length,
}
use supreme_doodle.Location.{builtin_location}
use supreme_doodle.Types.{get_builtin_type, func, NativeType, TypeNode, of_ptr, heap}
use supreme_doodle.Ast.{
  AstType, DeclHead, Func, Number, decl_type_ref, qual_type, builtin_type, function_type, i32,
  use_decl, type_decl, func_decl, no_types, no_params, no_block,
}
use supreme_doodle.Basic.{type_redefinition}
use supreme_doodle.Scopes.{LexicalScope, global_scope}
use supreme_doodle.Scopes.Tree.{IsTree}
use supreme_doodle.Scopes.Find.{here}
use supreme_doodle.Sema.{Sema, done, out_of_fuel, update, ◌>>=◌}
use supreme_doodle.Visitor.{visit_type}
use supreme_doodle.Visitor.Contract.{GoodOf}
use supreme_doodle.Passes.Growth.{growth}
use supreme_doodle.Passes.Growth.Materials.{materialized-IsImmutable}
use supreme_doodle.Passes.Materialize.Keeps.{IsImmutable}
use supreme_doodle.Passes.Materialize.{materializer, follow_ref}
use supreme_doodle.Passes.Materialize.Cycles.{IsCycle, follow_ref-diverges}
use supreme_doodle.Passes.DeclareTypes.{declare_type}
use supreme_doodle.Passes.DeclareTypes.Once.{decls_at, keep_first, redefined, declare_type-once}
use supreme_doodle.Passes.ResolveTypes.{resolve_symbol}
use supreme_doodle.Passes.ResolveTypes.Lexical.{resolve_symbol-Nearest}
use supreme_doodle.Passes.Overloads.Distinct.{Answers, check_overloads-answers}
use supreme_doodle.Passes.TypeCheck.{push_type_hint, pop_type_hints, check_number, deduce_var_init}
use supreme_doodle.Sema.{fault, assertion}
use supreme_doodle.Common.{◌≤◌}
use supreme_doodle.Passes.TypeCheck.Hints.{
  guard_restores_iff, nested_guards, nested_guards-assertion,
}
use supreme_doodle.Passes.TypeCheck.Literals.{Initialised, number_initialises}
use supreme_doodle.Analysis.Safety.{initial-IsScoped}
use supreme_doodle.Tests.Programs.{node, head, start, unreached, no_decls}

-- `mut i32`
abbrev mut_i32 : AstType
mut_i32 = qual_type (node 1) (builtin_type (node 2) i32)

materialized-IsImmutable_example :
    GoodOf
      (growth Unit)
      IsImmutable
      start
      (visit_type (materializer (follow_ref 3)) mut_i32 0 start)
materialized-IsImmutable_example =
    materialized-IsImmutable 3 0 mut_i32 start (initial-IsScoped unreached no_decls) (omega arith)

-- `use A = A` once the reference is resolved
abbrev looped : DeclHead
looped = head 10 "A" (some (decl_type_ref (node 3) "A"))

abbrev resolved : Sema
resolved = record start { node_decl = λ i. some (use_decl looped) }

abbrev IsSelf : ℕ → Type 0
IsSelf i = i ≡ 3

looped-IsCycle : IsCycle IsSelf resolved
looped-IsCycle i p = (looped, decl_type_ref (node 3) "A", refl, refl, refl)

follow_ref-diverges_example : follow_ref 100 (node 3) 0 resolved ≡ out_of_fuel
follow_ref-diverges_example = follow_ref-diverges IsSelf resolved 0 looped-IsCycle (node 3) refl 100

-- a global scope that holds an alias `A`
abbrev global_A : LexicalScope
global_A = record { parent = none; kind = global_scope; symbols = ("A", use_decl looped ∷ []) ∷ [] }

abbrev declared : Sema
declared = record start { scopes = global_A ∷ [] }

abbrev another_A : DeclHead
another_A = head 20 "A" (some (builtin_type (node 21) i32))

declare_type-once_example :
    (t : Sema) × (declare_type type_redefinition (type_decl another_A) another_A 0 declared
      ≡ done tt t)
    × (decls_at t 0 "A" ≡ keep_first (use_decl looped ∷ []) (type_decl another_A))
    × (t.diags
        ≡ declared.diags ++ redefined (use_decl looped ∷ []) (type_redefinition "A") another_A)
declare_type-once_example =
    declare_type-once type_redefinition (type_decl another_A) another_A 0 declared global_A refl

declared_earlier :
    (i p : ℕ) (s : LexicalScope) → get_elem? declared.scopes i ≡ some s → s.parent ≡ some p → p < i
declared_earlier zero p s h e = ground arith
declared_earlier (suc i) p s h e = ground arith

declared-IsTree : IsTree declared.scopes
declared-IsTree = record { earlier = declared_earlier }

resolve_symbol-Nearest_example :
    resolve_symbol (node 3) "A" 0 declared
    ≡ done tt (record declared { node_decl = update declared.node_decl 3 (some (use_decl looped)) })
resolve_symbol-Nearest_example =
    resolve_symbol-Nearest declared "A" 0 0 (node 3) global_A (use_decl looped) declared-IsTree
      (omega arith) (here global_A refl refl) refl refl tt

abbrev one_hint : Sema
one_hint = record start { hints = get_builtin_type NativeType.f32 ∷ [] }

guard_restores_iff_example :
    ((push_type_hint (get_builtin_type NativeType.i64) >>= pop_type_hints) one_hint
      ≡ done tt one_hint)
    ↔ (length one_hint.hints ≡ 1)
guard_restores_iff_example = guard_restores_iff (get_builtin_type NativeType.i64) one_hint

abbrev two_hints : Sema
two_hints = record start {
  hints = get_builtin_type NativeType.f32 ∷ get_builtin_type NativeType.i64 ∷ [];
}

nested_guards-assertion_example :
    (nested_guards (get_builtin_type NativeType.i32) (get_builtin_type NativeType.i64) two_hints
      ≡ fault assertion)
    ↔ (2 ≤ 2)
nested_guards-assertion_example =
    nested_guards-assertion (get_builtin_type NativeType.i32) (get_builtin_type NativeType.i64)
      two_hints

abbrev five : Number
five = record { text = "5"; is_integer = true }

number_initialises_example : Initialised builtin_location (node 1) true NativeType.i8 start (
    deduce_var_init builtin_location
      (get_builtin_type NativeType.i8)
      (some (check_number (node 1) five))
      start)
number_initialises_example = number_initialises builtin_location (node 1) five NativeType.i8 start

-- two functions `f`, the types of which the context holds
abbrev function_of : ℕ → Func
function_of i =
    Func.func
      (head i "f" (some (function_type (node (suc i)) no_types (builtin_type (node 0) i32))))
      no_params no_block

abbrev takes : NativeType → TypeNode
takes t = func (get_builtin_type t ∷ []) (get_builtin_type NativeType.i32)

abbrev typed : Sema
typed = record start {
  types = record {
    arena = takes NativeType.i32 ∷ takes NativeType.i64 ∷ [];
    impls = λ d. [];
    reaches = unreached;
  };
  node_type = update (λ i. of_ptr (heap 1)) 31 (of_ptr (heap 0));
}

check_overloads-answers_example :
    Answers typed
      (function_of 30)
      (get_builtin_type NativeType.i32 ∷ [])
      (_, refl, refl)
      (func_decl (function_of 40) ∷ [])
      ((get_builtin_type NativeType.i64 ∷ []) ∷ [])
check_overloads-answers_example =
    check_overloads-answers typed (function_of 30) (get_builtin_type NativeType.i32 ∷ [])
      (_, refl, refl) (func_decl (function_of 40) ∷ [])
      ((get_builtin_type NativeType.i64 ∷ []) ∷ []) ((_, refl, refl), tt)
