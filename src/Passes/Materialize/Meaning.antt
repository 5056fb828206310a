-- ===== src/Passes/Materialize/Meaning.antt =====
-- compiler/lib/Sema/ResolveGlobalTypePass.cpp, `MaterializeType`: what a written type is, told from the tree alone,
-- and the pointer that the pass gives for it.
use supreme_doodle.Common.{ℕ, zero, suc, ◌≡◌, refl, ◌∙◌, ap, Option, none, some, List, [], ◌∷◌}
use supreme_doodle.Types.{
  TypePtr, heap, of_ptr, NativeType, QualType, TypeNode, intern_type, pointer, array, func,
  get_pointer_type, get_array_type, get_func_type,
}
use supreme_doodle.Types.Shapes.{
  Shape, Shapes, unit_shape, native_shape, named_shape, pointer_shape, array_shape, func_shape,
  no_shapes, shape_cons, of_ptrs, Holds, Means, MeansAll, Keeps, Means-Keeps, MeansAll-Keeps,
}
use supreme_doodle.Types.Equality.{IsPlain}
use supreme_doodle.Types.Canonical.{intern_type-node, intern_type-keeps}
use supreme_doodle.Types.Unique.{Unique, intern_type-Unique}
use supreme_doodle.Types.Reading.{map_shape, both_shapes, cons_shape}
use supreme_doodle.Ast.{
  Node, AstNativeType, void, i1, i8, i32, i64, f32, f64, string, unknown as unknown_native, AstType,
  AstTypes, builtin_type, decl_type_ref, access_type, qual_type, pointer_type, array_type,
  function_type, object_type, enum_type, no_types, type_cons, Decl, decl_id, use_decl,
}
use supreme_doodle.Sema.{
  Sema, Exec, Outcome, done, ◌>>=◌, and_then, with_types, with_types?, set_type, update,
}
use supreme_doodle.Passes.Materialize.{assign}

unfoldable pub native_shape_of : AstNativeType → Option Shape
native_shape_of void = some unit_shape
native_shape_of i1 = some (native_shape NativeType.i1)
native_shape_of i8 = some (native_shape NativeType.i8)
native_shape_of i32 = some (native_shape NativeType.i32)
native_shape_of i64 = some (native_shape NativeType.i64)
native_shape_of f32 = some (native_shape NativeType.f32)
native_shape_of f64 = some (native_shape NativeType.f64)
native_shape_of string = some (native_shape NativeType.string)
native_shape_of unknown_native = none

-- `mut` and `nullable` make no difference to what a type is.
unfoldable mutual
  unfolding native_shape_of

  pub shape_with : (Node → Option Shape) → AstType → Option Shape
  shape_with follow (builtin_type n t) = native_shape_of t
  shape_with follow (decl_type_ref n k) = follow n
  shape_with follow (access_type n k t) = none
  shape_with follow (qual_type n t) = shape_with follow t
  shape_with follow (pointer_type n t nullable) = map_shape pointer_shape (shape_with follow t)
  shape_with follow (array_type n t) = map_shape array_shape (shape_with follow t)
  shape_with follow (function_type n ps r) =
      both_shapes (shapes_with follow ps) (shape_with follow r)
  shape_with follow (object_type n fs) = none
  shape_with follow (enum_type n ms) = none

  pub shapes_with : (Node → Option Shape) → AstTypes → Option Shapes
  shapes_with follow no_types = some no_shapes
  shapes_with follow (type_cons t ts) = cons_shape (shape_with follow t) (shapes_with follow ts)

-- an alias is what its declared type is, any other declaration is a type of its own
unfoldable pub shape_decl : (Node → Option Shape) → Decl → Option Shape
unfolding shape_with
shape_decl follow (use_decl h) = elim h.type [ none ↦ none | some t ↦ shape_with follow t ]
shape_decl follow d = some (named_shape (decl_id d))

unfoldable pub shape_ref : (ℕ → Option Decl) → ℕ → Node → Option Shape
unfolding shape_decl
shape_ref decls zero n = none
shape_ref decls (suc fuel) n = elim (decls n.id) [
  | none ↦ none
  | some d ↦ shape_decl (shape_ref decls fuel) d
]

unfoldable pub shape_type : (ℕ → Option Decl) → ℕ → AstType → Option Shape
unfolding shape_with shape_ref
shape_type decls fuel = shape_with (shape_ref decls fuel)

pub map_shape-inv :
    (f : Shape → Shape) (o : Option Shape) {s : Shape}
    → map_shape f o ≡ some s
    → (a : Shape) × (o ≡ some a) × (f a ≡ s)
map_shape-inv f none h = cc
map_shape-inv f (some a) h = (a, refl, cc)

pub both_shapes-inv :
    (o : Option Shapes) (r : Option Shape) {s : Shape}
    → both_shapes o r ≡ some s
    → (ss : Shapes) × (a : Shape) × (o ≡ some ss) × (r ≡ some a) × (func_shape ss a ≡ s)
both_shapes-inv (some ss) (some a) h = (ss, a, refl, refl, cc)
both_shapes-inv (some ss) none h = cc
both_shapes-inv none r h = cc

pub cons_shape-inv :
    (o : Option Shape) (r : Option Shapes) {ss : Shapes}
    → cons_shape o r ≡ some ss
    → (a : Shape) × (as_ : Shapes) × (o ≡ some a) × (r ≡ some as_) × (shape_cons a as_ ≡ ss)
cons_shape-inv (some a) (some as_) h = (a, as_, refl, refl, cc)
cons_shape-inv (some a) none h = cc
cons_shape-inv none r h = cc

-- The references are resolved as given, and each type is at one position.
pub record Ready (decls : ℕ → Option Decl) (s : Sema) : Type 0 where
  pub resolved : s.node_decl ≡ decls
  pub unique : Unique s.types.arena

module _ (decls : ℕ → Option Decl) where
  -- A run ends with a pointer to a type of a shape.
  pub record After (r : Outcome QualType) (s : Sema) (sh : Shape) : Type 0 where
    pub ptr : TypePtr
    pub last : Sema
    pub runs : r ≡ done (of_ptr ptr) last
    pub means : Means last.types.arena ptr sh
    pub keeps : Keeps s.types.arena last.types.arena
    pub ready : Ready decls last

  pub record Gives (m : Exec QualType) (sh : Shape) : Type 0 where
    pub at : (s : Sema) → Ready decls s → After (m s) s sh

  pub After-earlier :
      {r : Outcome QualType} {s t : Sema} {sh : Shape}
      → Keeps s.types.arena t.types.arena
      → After r t sh
      → After r s sh
  After-earlier k a = record {
    ptr = a.ptr;
    last = a.last;
    runs = a.runs;
    means = a.means;
    ready = a.ready;
    keeps = λ i n h. a.keeps i n (k i n h);
  }

  pub After-eq :
      {r q : Outcome QualType} {s : Sema} {sh : Shape} → r ≡ q → After q s sh → After r s sh
  After-eq e a = record {
    ptr = a.ptr;
    last = a.last;
    runs = e ∙ a.runs;
    means = a.means;
    ready = a.ready;
    keeps = a.keeps;
  }

  pub Gives-bind :
      (m : Exec QualType) (k : QualType → Exec QualType) {a b : Shape} (s : Sema)
      → Gives m a
      → ((p : TypePtr) (t : Sema)
          → Keeps s.types.arena t.types.arena
          → Means t.types.arena p a
          → Ready decls t
          → After (k (of_ptr p) t) t b)
      → Ready decls s
      → After ((m >>= k) s) s b
  Gives-bind m k s g h r =
      let a = g.at s r in
      After-earlier a.keeps
        (After-eq (ap (λ o. and_then o k) a.runs) (h a.ptr a.last a.keeps a.means a.ready))

  pub assign-After :
      (n : Node) (p : TypePtr) (sh : Shape) (s : Sema)
      → Means s.types.arena p sh
      → Ready decls s
      → After (assign n (of_ptr p) s) s sh
  unfolding assign set_type
  assign-After n p sh s m r = record {
    ptr = p;
    last = record s { node_type = update s.node_type n.id (of_ptr p) };
    runs = refl;
    means = m;
    keeps = λ i x h. h;
    ready = record { resolved = r.resolved; unique = r.unique };
  }

  pub request-After :
      (n : Node) (x : TypeNode) (sh : Shape) (s : Sema)
      → IsPlain x
      → ((arena : List TypeNode) (p : TypePtr)
          → Keeps s.types.arena arena
          → Holds arena p x
          → Means arena p sh)
      → Ready decls s
      → After ((with_types (intern_type x) >>= assign n) s) s sh
  unfolding assign set_type with_types
  request-After n x sh s plain means r =
      let (i, at_i, node_i, found_i) = intern_type-node x plain s.types in
      let keeps : Keeps s.types.arena (intern_type x s.types).1.arena =
        λ j y h. intern_type-keeps x s.types j y h in
      record {
        ptr = heap i;
        last = record s {
          types = (intern_type x s.types).1;
          node_type = update s.node_type n.id (of_ptr (heap i));
        };
        runs = rw (at_i);
        means = means _ (heap i) keeps (record { at = i; is_at = refl; node = node_i });
        keeps = keeps;
        ready = record { resolved = r.resolved; unique = intern_type-Unique x s.types r.unique };
      }

  pub pointer-After :
      (n : Node) (p : TypePtr) (a : Shape) (s : Sema)
      → Means s.types.arena p a
      → Ready decls s
      → After ((with_types? (get_pointer_type (of_ptr p)) >>= assign n) s) s (pointer_shape a)
  unfolding with_types? get_pointer_type with_types Means
  pointer-After n p a s m r =
      After-eq {q = (with_types (intern_type (pointer (of_ptr p))) >>= assign n) s} refl (
        request-After n (pointer (of_ptr p)) (pointer_shape a) s tt
          (λ arena q k h. (p, h, Means-Keeps _ arena a p k m)) r)

  pub array-After :
      (n : Node) (p : TypePtr) (a : Shape) (s : Sema)
      → Means s.types.arena p a
      → Ready decls s
      → After ((with_types? (get_array_type (of_ptr p)) >>= assign n) s) s (array_shape a)
  unfolding with_types? get_array_type with_types Means
  array-After n p a s m r =
      After-eq {q = (with_types (intern_type (array (of_ptr p))) >>= assign n) s} refl (
        request-After n (array (of_ptr p)) (array_shape a) s tt
          (λ arena q k h. (p, h, Means-Keeps _ arena a p k m)) r)

  pub func-After :
      (n : Node) (ps : List TypePtr) (p : TypePtr) (ss : Shapes) (a : Shape) (s : Sema)
      → MeansAll s.types.arena ps ss
      → Means s.types.arena p a
      → Ready decls s
      → After
          ((with_types (get_func_type (of_ptrs ps) (of_ptr p)) >>= assign n) s)
          s
          (func_shape ss a)
  unfolding get_func_type Means
  func-After n ps p ss a s ms m r =
      request-After n (func (of_ptrs ps) (of_ptr p)) (func_shape ss a) s tt
        (λ arena q k h. (ps, p, h, MeansAll-Keeps _ arena ss ps k ms, Means-Keeps _ arena a p k m))
        r

  unfoldable pub GivesAll : List (Exec QualType) → Shapes → Type 0
  GivesAll [] no_shapes = Unit {0}
  GivesAll [] (shape_cons s ss) = ⊥
  GivesAll (m ∷ ms) no_shapes = ⊥
  GivesAll (m ∷ ms) (shape_cons s ss) = Gives m s × GivesAll ms ss
