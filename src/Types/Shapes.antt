-- ===== src/Types/Shapes.antt =====
-- compiler/include/rxc/AST/Type.h: what a type of the context is, without pointers: the unit type, a built-in
-- type, the type of a declaration, or a pointer, an array or a function of such.
use supreme_doodle.Common.{ℕ, ◌≡◌, some, List, [], ◌∷◌, get_elem?}
use supreme_doodle.Types.{
  NativeType, TypePtr, unit_type, builtin, heap, of_ptr, QualType, TypeNode, named, pointer, array,
  func,
}

mutual
  pub data Shape : Type 0 where
    unit_shape : Shape
    native_shape : NativeType → Shape
    named_shape : ℕ → Shape
    pointer_shape : Shape → Shape
    array_shape : Shape → Shape
    func_shape : Shapes → Shape → Shape

  pub data Shapes : Type 0 where
    no_shapes : Shapes
    shape_cons : Shape → Shapes → Shapes

-- the unqualified types behind pointers
abbrev pub of_ptrs : List TypePtr → List QualType
of_ptrs [] = []
of_ptrs (p ∷ ps) = of_ptr p ∷ of_ptrs ps

-- A pointer is at a position that holds a node.
pub record Holds (arena : List TypeNode) (p : TypePtr) (n : TypeNode) : Type 0 where
  pub at : ℕ
  pub is_at : p ≡ heap at
  pub node : get_elem? arena at ≡ some n

-- In an arena a pointer is to a type of a shape.
unfoldable mutual
  pub Means : List TypeNode → TypePtr → Shape → Type 0
  Means arena p unit_shape = p ≡ unit_type
  Means arena p (native_shape t) = p ≡ builtin t
  Means arena p (named_shape d) = Holds arena p (named d)
  Means arena p (pointer_shape s) =
      (q : TypePtr) × Holds arena p (pointer (of_ptr q)) × Means arena q s
  Means arena p (array_shape s) = (q : TypePtr) × Holds arena p (array (of_ptr q)) × Means arena q s
  Means arena p (func_shape ss s) =
      (qs : List TypePtr) × (q : TypePtr) × Holds arena p (func (of_ptrs qs) (of_ptr q))
      × MeansAll arena qs ss
      × Means arena q s

  pub MeansAll : List TypeNode → List TypePtr → Shapes → Type 0
  MeansAll arena [] no_shapes = Unit {0}
  MeansAll arena [] (shape_cons s ss) = ⊥
  MeansAll arena (p ∷ ps) no_shapes = ⊥
  MeansAll arena (p ∷ ps) (shape_cons s ss) = Means arena p s × MeansAll arena ps ss

-- Every node stays at its position.
abbrev pub Keeps : List TypeNode → List TypeNode → Type 0
Keeps a b = (i : ℕ) (n : TypeNode) → get_elem? a i ≡ some n → get_elem? b i ≡ some n

Holds-Keeps :
    {a b : List TypeNode} {p : TypePtr} {n : TypeNode} → Keeps a b → Holds a p n → Holds b p n
Holds-Keeps k h = record { at = h.at; is_at = h.is_at; node = k h.at _ h.node }

mutual
  unfolding Means

  pub Means-Keeps :
      (a b : List TypeNode) (s : Shape) (p : TypePtr) → Keeps a b → Means a p s → Means b p s
  Means-Keeps a b unit_shape p k m = m
  Means-Keeps a b (native_shape t) p k m = m
  Means-Keeps a b (named_shape d) p k m = Holds-Keeps k m
  Means-Keeps a b (pointer_shape s) p k m = (m.0, Holds-Keeps k m.1, Means-Keeps a b s m.0 k m.2)
  Means-Keeps a b (array_shape s) p k m = (m.0, Holds-Keeps k m.1, Means-Keeps a b s m.0 k m.2)
  Means-Keeps a b (func_shape ss s) p k m =
      (m.0, m.1, Holds-Keeps k m.2, MeansAll-Keeps a b ss m.0 k m.3, Means-Keeps a b s m.1 k m.4)

  pub MeansAll-Keeps :
      (a b : List TypeNode) (ss : Shapes) (ps : List TypePtr)
      → Keeps a b
      → MeansAll a ps ss
      → MeansAll b ps ss
  MeansAll-Keeps a b no_shapes [] k m = tt
  MeansAll-Keeps a b no_shapes (p ∷ ps) k m = absurd m
  MeansAll-Keeps a b (shape_cons s ss) [] k m = absurd m
  MeansAll-Keeps a b (shape_cons s ss) (p ∷ ps) k m =
      (Means-Keeps a b s p k m.0, MeansAll-Keeps a b ss ps k m.1)
