-- ===== src/Passes/Materialize/Identity.antt =====
-- compiler/lib/Sema/ResolveGlobalTypePass.cpp, `MaterializeType`: one type of the context for all the ways to
-- write it.
use supreme_doodle.Common.{
  ℕ, zero, suc, ◌≡◌, ◌↔◌, refl, sym, ap, Option, none, some, List, [], ◌∷◌, ◌++◌,
}
use mathlib.Core.Path.{subst}
use supreme_doodle.Types.{
  TypePtr, unit_type, builtin, of_ptr, NativeType, QualType, named, get_named_type,
  get_unknown_type, get_pointer_type, get_array_type, get_func_type,
}
use supreme_doodle.Types.Shapes.{
  Shape, Shapes, unit_shape, native_shape, MeansAll-Keeps, named_shape, pointer_shape, array_shape,
  func_shape, no_shapes, shape_cons, of_ptrs, Means, MeansAll, Keeps, Means-Keeps,
}
use supreme_doodle.Types.Reading.{pointer-shape}
use supreme_doodle.Ast.{
  Node, AstNativeType, void, i1, i8, i32, i64, f32, f64, string, unknown as unknown_native, AstType,
  AstTypes, builtin_type, decl_type_ref, access_type, qual_type, pointer_type, array_type,
  function_type, object_type, enum_type, no_types, type_cons, Decl, use_decl, var_decl, type_decl,
  impl_decl, func_decl, param_decl, DeclHead,
}
use supreme_doodle.Sema.{Sema, Exec, done, ◌>>=◌, with_types, get_decl_node, with_types?, pure}
use supreme_doodle.Visitor.{visit_type, visit_types}
use supreme_doodle.Passes.Materialize.{
  native_type, assign, params_loop, if_known, materializer, visit_alias, follow_decl, follow_ref,
}
use supreme_doodle.Passes.Materialize.Meaning.{
  native_shape_of, shape_with, shapes_with, shape_decl, shape_ref, shape_type, map_shape-inv,
  both_shapes-inv, cons_shape-inv, Ready, After, Gives, After-eq, Gives-bind, assign-After,
  request-After, pointer-After, array-After, func-After, GivesAll,
}

some_injective : {a b : Shape} → some a ≡ some b → a ≡ b
some_injective e = cc

some_append : {A : Type 0} (x : A) (xs ys : List A) → (xs ++ x ∷ []) ++ ys ≡ xs ++ x ∷ ys
some_append x [] ys = refl
some_append x (y ∷ xs) ys = ap (λ zs. y ∷ zs) (some_append x xs ys)

module _ (decls : ℕ → Option Decl) where
  params_loop-After :
      (ms : List (Exec QualType)) (ss : Shapes) (acc : List QualType)
      (k : List QualType → Exec QualType) (b : Shape) (s : Sema)
      → GivesAll decls ms ss
      → ((qs : List TypePtr) (t : Sema)
          → Keeps s.types.arena t.types.arena
          → MeansAll t.types.arena qs ss
          → Ready decls t
          → After decls (k (acc ++ of_ptrs qs) t) t b)
      → Ready decls s
      → After decls (params_loop ms acc k s) s b
  unfolding params_loop GivesAll Means
  params_loop-After [] no_shapes acc k b s g h r =
      subst (λ xs. After decls (k xs s) s b) (append_nil acc) (h [] s (λ i n e. e) tt r)
    where
      append_nil : {A : Type 0} (xs : List A) → xs ++ [] ≡ xs
      append_nil [] = refl
      append_nil (x ∷ xs) = ap (λ zs. x ∷ zs) (append_nil xs)
  params_loop-After [] (shape_cons a ss) acc k b s g h r = absurd g
  params_loop-After (m ∷ ms) no_shapes acc k b s g h r = absurd g
  params_loop-After (m ∷ ms) (shape_cons a ss) acc k b s g h r =
      Gives-bind decls m (λ t. if_known t (params_loop ms (acc ++ t ∷ []) k)) s g.0
        (λ p t keeps means ready.
          params_loop-After ms ss (acc ++ of_ptr p ∷ []) k b t g.1
            (λ qs u later all ready'.
              subst (λ xs. After decls (k xs u) u b) (sym (some_append (of_ptr p) acc (of_ptrs qs)))
                (h (p ∷ qs) u (λ i n e. later i n (keeps i n e))
                  (Means-Keeps _ _ a p later means, all) ready'))
            ready)
        r

  unit-Gives :
      (n : Node) (sh : Shape)
      → some unit_shape ≡ some sh
      → Gives decls (assign n (of_ptr unit_type)) sh
  unfolding Means
  unit-Gives n sh e = record {
    at = λ s r.
        assign-After decls n unit_type sh s
          (subst (λ a. Means s.types.arena unit_type a) (some_injective e) refl) r;
  }

  builtin-Gives :
      (n : Node) (t : NativeType) (sh : Shape)
      → some (native_shape t) ≡ some sh
      → Gives decls (assign n (of_ptr (builtin t))) sh
  unfolding Means
  builtin-Gives n t sh e = record {
    at = λ s r.
        assign-After decls n (builtin t) sh s
          (subst (λ a. Means s.types.arena (builtin t) a) (some_injective e) refl) r;
  }

  native-Gives :
      (n : Node) (t : AstNativeType) (sh : Shape)
      → native_shape_of t ≡ some sh
      → Gives decls (assign n (native_type t)) sh
  unfolding native_shape_of native_type
  native-Gives n void sh e = unit-Gives n sh e
  native-Gives n i1 sh e = builtin-Gives n NativeType.i1 sh e
  native-Gives n i8 sh e = builtin-Gives n NativeType.i8 sh e
  native-Gives n i32 sh e = builtin-Gives n NativeType.i32 sh e
  native-Gives n i64 sh e = builtin-Gives n NativeType.i64 sh e
  native-Gives n f32 sh e = builtin-Gives n NativeType.f32 sh e
  native-Gives n f64 sh e = builtin-Gives n NativeType.f64 sh e
  native-Gives n string sh e = builtin-Gives n NativeType.string sh e
  native-Gives n unknown_native sh e = cc

  function-Gives :
      (n : Node) (ms : List (Exec QualType)) (m : Exec QualType) (ss : Shapes) (a : Shape)
      → GivesAll decls ms ss
      → Gives decls m a
      → Gives decls
          (params_loop ms []
            λ ps. m >>= λ r. if_known r (with_types (get_func_type ps r) >>= λ f. assign n f))
          (func_shape ss a)
  function-Gives n ms m ss a gs g = record {
    at = λ s r.
        params_loop-After ms ss [] _ (func_shape ss a) s gs
          (λ qs t later all ready.
            Gives-bind decls m
              (λ x. if_known x (with_types (get_func_type (of_ptrs qs) x) >>= λ f. assign n f)) t g
              (λ p u keeps means ready'.
                func-After decls n qs p ss a u (MeansAll-Keeps _ _ ss qs keeps all) means ready')
              ready)
          r;
  }

  named-Gives :
      (n : Node) (d : ℕ) (sh : Shape)
      → named_shape d ≡ sh
      → Gives decls (with_types (get_named_type d) >>= λ t. assign n t) sh
  unfolding get_named_type Means
  named-Gives n d sh e = record {
    at = λ s r.
        request-After decls n (named d) sh s tt (λ arena p k h. subst (λ a. Means arena p a) e h) r;
  }

  module _ (follow : Node → ℕ → Exec QualType) (shape : Node → Option Shape) (ls : ℕ)
      (follows : (n : Node) (sh : Shape) → shape n ≡ some sh → Gives decls (follow n ls) sh) where
    mutual
      unfolding visit_type materializer shape_with GivesAll

      visit_type-Gives :
          (t : AstType) (sh : Shape)
          → shape_with shape t ≡ some sh
          → Gives decls (visit_type (materializer follow) t ls) sh
      visit_type-Gives (builtin_type n t) sh e = native-Gives n t sh e
      visit_type-Gives (decl_type_ref n k) sh e = follows n sh e
      visit_type-Gives (access_type n k t) sh e = cc
      visit_type-Gives (qual_type n t) sh e = record {
        at = λ s r.
            Gives-bind decls _ (λ x. if_known x (assign n x)) s (visit_type-Gives t sh e)
              (λ p u keeps means ready. assign-After decls n p sh u means ready) r;
      }
      visit_type-Gives (pointer_type n t nullable) sh e =
          let (a, is_a, same) = map_shape-inv pointer_shape (shape_with shape t) e in
          subst (Gives decls _) same (record {
            at = λ s r.
                Gives-bind decls _
                  (λ x. if_known x (with_types? (get_pointer_type x) >>= λ q. assign n q)) s
                  (visit_type-Gives t a is_a)
                  (λ p u keeps means ready. pointer-After decls n p a u means ready) r;
          })
      visit_type-Gives (array_type n t) sh e =
          let (a, is_a, same) = map_shape-inv array_shape (shape_with shape t) e in
          subst (Gives decls _) same (record {
            at = λ s r.
                Gives-bind decls _
                  (λ x. if_known x (with_types? (get_array_type x) >>= λ q. assign n q)) s
                  (visit_type-Gives t a is_a)
                  (λ p u keeps means ready. array-After decls n p a u means ready) r;
          })
      visit_type-Gives (function_type n ps t) sh e =
          let (ss, a, is_ss, is_a, same) =
            both_shapes-inv (shapes_with shape ps) (shape_with shape t) e in
          subst (Gives decls _) same
            (function-Gives n _ _ ss a (visit_types-Gives ps ss is_ss) (visit_type-Gives t a is_a))
      visit_type-Gives (object_type n fs) sh e = cc
      visit_type-Gives (enum_type n ms) sh e = cc

      visit_types-Gives :
          (ts : AstTypes) (ss : Shapes)
          → shapes_with shape ts ≡ some ss
          → GivesAll decls (visit_types (materializer follow) ts ls) ss
      visit_types-Gives no_types no_shapes e = tt
      visit_types-Gives no_types (shape_cons a ss) e = cc
      visit_types-Gives (type_cons t ts) ss e =
          let (a, as_, is_a, is_as, same) =
            cons_shape-inv (shape_with shape t) (shapes_with shape ts) e in
          let both : GivesAll decls (visit_types (materializer follow) (type_cons t ts) ls)
              (shape_cons a as_) =
            (visit_type-Gives t a is_a, visit_types-Gives ts as_ is_as) in
          subst
            (GivesAll decls
              (visit_type (materializer follow) t ls ∷ visit_types (materializer follow) ts ls))
            same both

    alias-Gives :
        (h : DeclHead) (o : Option AstType) (sh : Shape)
        → h.type ≡ o
        → elim o as (λ x. Option Shape) [ none ↦ none | some t ↦ shape_with shape t ] ≡ some sh
        → Gives decls (visit_alias follow (use_decl h) ls) sh
    unfolding visit_alias
    alias-Gives h none sh e d = cc
    alias-Gives h (some t) sh e d = rw (e, visit_alias) (visit_type-Gives t sh d)

    decl-Gives :
        (n : Node) (d : Decl) (sh : Shape)
        → shape_decl shape d ≡ some sh
        → Gives decls (follow_decl follow n d ls) sh
    unfolding shape_decl follow_decl
    decl-Gives n (use_decl h) sh e = record {
      at = λ s r.
          Gives-bind decls (visit_alias follow (use_decl h) ls) (assign n) s
            (alias-Gives h h.type sh refl e)
            (λ p t keeps means ready. assign-After decls n p sh t means ready) r;
    }
    decl-Gives n (var_decl h x) sh e = named-Gives n _ sh (some_injective e)
    decl-Gives n (type_decl h) sh e = named-Gives n _ sh (some_injective e)
    decl-Gives n (impl_decl h fs) sh e = named-Gives n _ sh (some_injective e)
    decl-Gives n (func_decl f) sh e = named-Gives n _ sh (some_injective e)
    decl-Gives n (param_decl p) sh e = named-Gives n _ sh (some_injective e)

    found-Gives :
        (n : Node) (o : Option Decl) (sh : Shape)
        → elim o as (λ x. Option Shape) [ none ↦ none | some d ↦ shape_decl shape d ] ≡ some sh
        → Gives decls
            (elim o as (λ x. Exec QualType) [
              | none ↦ pure get_unknown_type
              | some d ↦ follow_decl follow n d ls
            ])
            sh
    found-Gives n none sh h = cc
    found-Gives n (some d) sh h = decl-Gives n d sh h

  follow_ref-reads :
      (fuel ls : ℕ) (n : Node) (s : Sema)
      → Ready decls s
      → follow_ref (suc fuel) n ls s
        ≡ elim (decls n.id) as (λ x. Exec QualType) [
          | none ↦ pure get_unknown_type
          | some d ↦ follow_decl (follow_ref fuel) n d ls
        ]
            s
  unfolding follow_ref get_decl_node
  follow_ref-reads fuel ls n s r =
      ap
        (λ (f : ℕ → Option Decl).
          elim (f n.id) as (λ x. Exec QualType) [
            | none ↦ pure get_unknown_type
            | some d ↦ follow_decl (follow_ref fuel) n d ls
          ]
            s)
        r.resolved

  follow_ref-Gives :
      (fuel ls : ℕ) (n : Node) (sh : Shape)
      → shape_ref decls fuel n ≡ some sh
      → Gives decls (follow_ref fuel n ls) sh
  unfolding shape_ref
  follow_ref-Gives zero ls n sh e = cc
  follow_ref-Gives (suc fuel) ls n sh e = record {
    at = λ s r. After-eq decls (follow_ref-reads fuel ls n s r) (
        (found-Gives (follow_ref fuel) (shape_ref decls fuel) ls
            (λ m a k. follow_ref-Gives fuel ls m a k) n (decls n.id) sh e).at
          s r);
  }

  -- Where the references are resolved and each type that is compared by its parts is at one position of the
  -- context, two written types one after the other, whose shapes the tree and the aliases tell, are both given a
  -- pointer, and the pointers are the same exactly when the shapes are.
  pub visit_type-identity :
      (fuel ls : ℕ) (a b : AstType) (x y : Shape) (s : Sema)
      → shape_type decls fuel a ≡ some x
      → shape_type decls fuel b ≡ some y
      → Ready decls s
      → (p q : TypePtr) × (t u : Sema) × (visit_type (materializer (follow_ref fuel)) a ls s
          ≡ done (of_ptr p) t)
        × (visit_type (materializer (follow_ref fuel)) b ls t ≡ done (of_ptr q) u)
        × ((p ≡ q) ↔ (x ≡ y))
  unfolding shape_type
  visit_type-identity fuel ls a b x y s is_x is_y r =
      let follows : (n : Node) (sh : Shape)
          → shape_ref decls fuel n ≡ some sh
          → Gives decls (follow_ref fuel n ls) sh =
        λ n sh. follow_ref-Gives fuel ls n sh in
      let first : After decls (visit_type (materializer (follow_ref fuel)) a ls s) s x =
        (visit_type-Gives (follow_ref fuel) (shape_ref decls fuel) ls follows a x is_x).at s r in
      let second : After decls (visit_type (materializer (follow_ref fuel)) b ls first.last)
          first.last y =
        (visit_type-Gives (follow_ref fuel) (shape_ref decls fuel) ls follows b y is_y).at
          first.last first.ready in
      (
        first.ptr,
        second.ptr,
        first.last,
        second.last,
        first.runs,
        second.runs,
        pointer-shape second.last.types.arena x y first.ptr second.ptr second.ready.unique
            (Means-Keeps _ _ x first.ptr second.keeps first.means) second.means,
      )
