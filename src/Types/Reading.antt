-- ===== src/Types/Reading.antt =====
-- compiler/include/rxc/AST/Type.h: what a pointer is to, read from the nodes of the context.
use supreme_doodle.Common.{
  ℕ, zero, suc, ◌+◌, ◌≤◌, ◌≡◌, ◌↔◌, refl, sym, ◌∙◌, ap, Option, none, some, List, [], ◌∷◌, arith,
  get_elem?,
}
use supreme_doodle.Types.{
  TypePtr, unit_type, builtin, heap, QualType, TypeNode, named, pointer, array, func, object, enum,
}
use mathlib.Core.Path.{subst}
use supreme_doodle.Types.Unique.{Unique, Means-pointer}
use supreme_doodle.Types.Shapes.{
  Shape, Shapes, unit_shape, native_shape, named_shape, pointer_shape, array_shape, func_shape,
  no_shapes, shape_cons, of_ptrs, Holds, Means, MeansAll,
}

abbrev pub map_shape : (Shape → Shape) → Option Shape → Option Shape
map_shape f none = none
map_shape f (some s) = some (f s)

abbrev pub both_shapes : Option Shapes → Option Shape → Option Shape
both_shapes (some ss) (some s) = some (func_shape ss s)
both_shapes _ _ = none

abbrev pub cons_shape : Option Shape → Option Shapes → Option Shapes
cons_shape (some s) (some ss) = some (shape_cons s ss)
cons_shape _ _ = none

module _ (read : TypePtr → Option Shape) where
  abbrev read_qual : QualType → Option Shape
  read_qual q = elim q.ty [ none ↦ none | some p ↦ read p ]

  abbrev read_quals : List QualType → Option Shapes
  read_quals [] = some no_shapes
  read_quals (q ∷ qs) = cons_shape (read_qual q) (read_quals qs)

  abbrev read_node : Option TypeNode → Option Shape
  read_node (some (named d)) = some (named_shape d)
  read_node (some (pointer q)) = map_shape pointer_shape (read_qual q)
  read_node (some (array q)) = map_shape array_shape (read_qual q)
  read_node (some (func ps r)) = both_shapes (read_quals ps) (read_qual r)
  read_node (some (object fields)) = none
  read_node (some (enum members)) = none
  read_node none = none

unfoldable shape_at : List TypeNode → ℕ → TypePtr → Option Shape
shape_at arena zero p = none
shape_at arena (suc fuel) unit_type = some unit_shape
shape_at arena (suc fuel) (builtin t) = some (native_shape t)
shape_at arena (suc fuel) (heap i) = read_node (shape_at arena fuel) (get_elem? arena i)

unfoldable mutual
  size : Shape → ℕ
  size unit_shape = 1
  size (native_shape t) = 1
  size (named_shape d) = 1
  size (pointer_shape s) = 1 + size s
  size (array_shape s) = 1 + size s
  size (func_shape ss s) = 1 + sizes ss + size s

  sizes : Shapes → ℕ
  sizes no_shapes = 0
  sizes (shape_cons s ss) = size s + sizes ss

module _ (arena : List TypeNode) where
  Holds-shape_at :
      (fuel : ℕ) {p : TypePtr} {n : TypeNode}
      → Holds arena p n
      → shape_at arena (suc fuel) p ≡ read_node (shape_at arena fuel) (some n)
  unfolding shape_at
  Holds-shape_at fuel h =
      ap (shape_at arena (suc fuel)) h.is_at ∙ ap (read_node (shape_at arena fuel)) h.node

  mutual
    unfolding Means shape_at size

    Means-shape_at :
        (s : Shape) (fuel : ℕ) (p : TypePtr)
        → size s ≤ fuel
        → Means arena p s
        → shape_at arena fuel p ≡ some s
    Means-shape_at unit_shape zero p l h = absurd (omega arith)
    Means-shape_at (native_shape t) zero p l h = absurd (omega arith)
    Means-shape_at (named_shape d) zero p l h = absurd (omega arith)
    Means-shape_at (pointer_shape s) zero p l h = absurd (omega arith)
    Means-shape_at (array_shape s) zero p l h = absurd (omega arith)
    Means-shape_at (func_shape ss s) zero p l h = absurd (omega arith)
    Means-shape_at unit_shape (suc fuel) p l h = ap (shape_at arena (suc fuel)) h
    Means-shape_at (native_shape t) (suc fuel) p l h = ap (shape_at arena (suc fuel)) h
    Means-shape_at (named_shape d) (suc fuel) p l h = Holds-shape_at fuel h
    Means-shape_at (pointer_shape s) (suc fuel) p l h =
        Holds-shape_at fuel h.1
        ∙ ap (map_shape pointer_shape) (Means-shape_at s fuel h.0 (omega arith) h.2)
    Means-shape_at (array_shape s) (suc fuel) p l h =
        Holds-shape_at fuel h.1
        ∙ ap (map_shape array_shape) (Means-shape_at s fuel h.0 (omega arith) h.2)
    Means-shape_at (func_shape ss s) (suc fuel) p l h =
        Holds-shape_at fuel h.2
        ∙ ap (λ x. both_shapes x (shape_at arena fuel h.1))
            (MeansAll-read ss fuel h.0 (omega arith) h.3)
        ∙ ap (both_shapes (some ss)) (Means-shape_at s fuel h.1 (omega arith) h.4)

    MeansAll-read :
        (ss : Shapes) (fuel : ℕ) (ps : List TypePtr)
        → sizes ss ≤ fuel
        → MeansAll arena ps ss
        → read_quals (shape_at arena fuel) (of_ptrs ps) ≡ some ss
    MeansAll-read no_shapes fuel [] l h = refl
    MeansAll-read no_shapes fuel (p ∷ ps) l h = absurd h
    MeansAll-read (shape_cons s ss) fuel [] l h = absurd h
    MeansAll-read (shape_cons s ss) fuel (p ∷ ps) l h =
        ap (λ x. cons_shape x (read_quals (shape_at arena fuel) (of_ptrs ps)))
          (Means-shape_at s fuel p (omega arith) h.0)
        ∙ ap (cons_shape (some s)) (MeansAll-read ss fuel ps (omega arith) h.1)

  -- A pointer is to a type of one shape only.
  pub Means-shape : (s r : Shape) (p : TypePtr) → Means arena p s → Means arena p r → s ≡ r
  Means-shape s r p h k =
      let e : shape_at arena (size s + size r) p ≡ some s = Means-shape_at s _ p (omega arith) h in
      let f : shape_at arena (size s + size r) p ≡ some r = Means-shape_at r _ p (omega arith) k in
      let both : some s ≡ some r = sym e ∙ f in cc

  -- Where each type that is compared by its parts is at one position, two pointers are the same exactly when
  -- they are to types of the same shape.
  pub pointer-shape :
      (s r : Shape) (p q : TypePtr)
      → Unique arena
      → Means arena p s
      → Means arena q r
      → (p ≡ q) ↔ (s ≡ r)
  pointer-shape s r p q u h k = (
    λ e. Means-shape s r p h (subst (λ x. Means arena x r) (sym e) k),
    λ e. Means-pointer arena u s p q h (subst (Means arena q) (sym e) k),
  )
