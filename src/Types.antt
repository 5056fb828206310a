-- ===== src/Types.antt =====
-- compiler/include/rxc/AST/Type.h, QualType.h and TypeContext.h, with their .cpp files: types behind
-- pointers, qualified types, and the context that hands out one pointer for each type.
pub mod Canonical
pub mod Equality
pub mod Names
pub mod Founded
pub mod Shapes
pub mod Unique
pub mod Reading
use supreme_doodle.Common.{
  ℕ, Bool, true, false, ◌&&◌, Option, none, some, List, [], ◌∷◌, ◌++◌, String, ◌==◌, bool_eq,
  length, suc, lookup, get_elem?, if◌then◌else◌,
}

pub data NativeType : Type 0 where
  i1 i8 i16 i32 i64 f32 f64 string : NativeType

-- `static_cast<size_t>(Ty)`, the index into `BuiltinCtx`
abbrev pub native_index : NativeType → ℕ
native_index i1 = 0
native_index i8 = 1
native_index i16 = 2
native_index i32 = 3
native_index i64 = 4
native_index f32 = 5
native_index f64 = 6
native_index string = 7

-- A `const Type *` that is not null: `&GlobalUnitType`, an element of `BuiltinCtx`, or a type that
-- the context allocated, by its position in the order of allocation.
pub data TypePtr : Type 0 where
  unit_type : TypePtr
  builtin : NativeType → TypePtr
  heap : ℕ → TypePtr

abbrev pub ptr_eq : TypePtr → TypePtr → Bool
ptr_eq unit_type unit_type = true
ptr_eq (builtin a) (builtin b) = native_index a == native_index b
ptr_eq (heap a) (heap b) = a == b
ptr_eq _ _ = false

abbrev pub opt_ptr_eq : Option TypePtr → Option TypePtr → Bool
opt_ptr_eq none none = true
opt_ptr_eq (some a) (some b) = ptr_eq a b
opt_ptr_eq _ _ = false

-- `ty = none` is the null pointer.
pub record QualType : Type 0 where
  pub ty : Option TypePtr
  pub mutable : Bool

abbrev pub unknown : QualType
unknown = record { ty = none; mutable = false }

-- the implicit conversion from `const Type *`
abbrev pub of_ptr : TypePtr → QualType
of_ptr p = record { ty = some p; mutable = false }

abbrev pub is_unknown : QualType → Bool
is_unknown q = elim q.ty [ none ↦ true | some _ ↦ false ]

abbrev pub mut : QualType → Bool → QualType
mut q b = record q { mutable = b }

abbrev pub has_qualifier : QualType → Bool
has_qualifier q = q.mutable

-- `QualType::operator==`
abbrev pub qual_eq : QualType → QualType → Bool
qual_eq a b = opt_ptr_eq b.ty a.ty && bool_eq b.mutable a.mutable

abbrev pub quals_eq : List QualType → List QualType → Bool
quals_eq [] [] = true
quals_eq (a ∷ as_) (b ∷ bs) = qual_eq a b && quals_eq as_ bs
quals_eq _ _ = false

-- `llvm::StringMap<QualType>`, in its order of iteration
abbrev pub TypeMap : Type 0
TypeMap = List (String × QualType)

-- every entry of the first map is an entry of the second
abbrev pub is_submap : TypeMap → TypeMap → Bool
is_submap [] m = true
is_submap ((k, q) ∷ rest) m = elim (lookup k m) [
  | none ↦ false
  | some r ↦ qual_eq q r && is_submap rest m
]

abbrev pub map_eq : TypeMap → TypeMap → Bool
map_eq a b = length a == length b && is_submap a b

-- The types that the context allocates. A declaration is given by its node's identity.
pub data TypeNode : Type 0 where
  named : ℕ → TypeNode
  pointer : QualType → TypeNode
  array : QualType → TypeNode
  func : List QualType → QualType → TypeNode
  object : TypeMap → TypeNode
  enum : TypeMap → TypeNode

-- `arena` holds the types of `NamedCtx`, `PointerCtx`, `ArrayCtx`, `FuncCtx`, `ObjCtx` and `EnumCtx`
-- in the order of allocation, each table being the nodes of its constructor. `impls` are the lists
-- of the named types. An `unordered_set` compares the key of a lookup with the entries that the key's hash leads it
-- to, and `std::hash` of a map of types starts from an indeterminate value and depends on the order of iteration: it
-- is no function of the map. `reaches k i` is whether the lookup that is k lookups ahead comes to entry i of the
-- arena; nothing is assumed of it.
pub record TypeContext : Type 0 where
  pub arena : List TypeNode
  pub impls : ℕ → List ℕ
  pub reaches : ℕ → ℕ → Bool

abbrev pub new_context : (ℕ → ℕ → Bool) → TypeContext
new_context reaches = record { arena = []; impls = λ _. []; reaches = reaches }

-- the context after a lookup
abbrev pub next_lookup : TypeContext → TypeContext
next_lookup c = record c { reaches = λ k. c.reaches (suc k) }

-- whether a stored node is found under the key of another: by `==` on the key for a `DenseMap`, by `==` for an
-- `unordered_set` where the lookup reaches the node (for a function type, whose hash respects `==`, it does)
abbrev pub same_node : Bool → TypeNode → TypeNode → Bool
same_node near (named a) (named b) = a == b
same_node near (pointer a) (pointer b) = qual_eq a b
same_node near (array a) (array b) = qual_eq a b
same_node near (func ps r) (func qs s) = qual_eq r s && quals_eq ps qs
same_node near (object f) (object g) = near && map_eq f g
same_node near (enum f) (enum g) = near && map_eq f g
same_node near _ _ = false

-- the position of the node that a lookup finds, `near` being the entries that it reaches
abbrev pub find_node : (ℕ → Bool) → TypeNode → List TypeNode → Option ℕ
find_node near n [] = none
find_node near n (m ∷ ms) =
    if same_node (near 0) n m
    then some 0
    else elim (find_node (λ i. near (suc i)) n ms) [ none ↦ none | some i ↦ some (suc i) ]

-- the stored node's position, and the context, extended if there was none
pub intern : TypeNode → TypeContext → ℕ × TypeContext
intern n c = elim (find_node (c.reaches 0) n c.arena) [
  | some i ↦ (i, next_lookup c)
  | none ↦ (length c.arena, record (next_lookup c) { arena = c.arena ++ n ∷ [] })
]

unfoldable pub intern_type : TypeNode → TypeContext → QualType × TypeContext
unfolding intern
intern_type n c = let (i, c') = intern n c in (of_ptr (heap i), c')

abbrev pub get_unknown_type : QualType
get_unknown_type = unknown

abbrev pub get_unit_type : QualType
get_unit_type = of_ptr unit_type

abbrev pub get_builtin_type : NativeType → QualType
get_builtin_type t = of_ptr (builtin t)

unfoldable pub get_named_type : ℕ → TypeContext → QualType × TypeContext
get_named_type decl = intern_type (named decl)

-- `DenseMap` asserts that its empty key, here the unqualified null pointer, is never looked up.
abbrev pub is_empty_key : QualType → Bool
is_empty_key q = qual_eq q unknown

unfoldable pub get_pointer_type : QualType → TypeContext → Option (QualType × TypeContext)
get_pointer_type q c = if is_empty_key q then none else some (intern_type (pointer q) c)

unfoldable pub get_array_type : QualType → TypeContext → Option (QualType × TypeContext)
get_array_type q c = if is_empty_key q then none else some (intern_type (array q) c)

unfoldable pub get_func_type : List QualType → QualType → TypeContext → QualType × TypeContext
get_func_type params result = intern_type (func params result)

unfoldable pub get_object_type : TypeMap → TypeContext → QualType × TypeContext
get_object_type fields = intern_type (object fields)

unfoldable pub get_enum_type : TypeMap → TypeContext → QualType × TypeContext
get_enum_type members = intern_type (enum members)

-- `none` is the failed assertion that `NamedCtx` contains the declaration.
unfoldable pub add_impl : ℕ → ℕ → TypeContext → Option TypeContext
add_impl decl fn c = elim (find_node (c.reaches 0) (named decl) c.arena) [
  | none ↦ none
  | some _ ↦ some (record (next_lookup c) {
    impls = λ d. if d == decl then c.impls d ++ fn ∷ [] else c.impls d;
  })
]

-- The node behind a pointer, for `dynamic_cast`.
abbrev pub node_at : TypeContext → TypePtr → Option TypeNode
node_at c unit_type = none
node_at c (builtin t) = none
node_at c (heap i) = get_elem? c.arena i

-- `dynamic_cast<const FuncType *>(Q.getType())`, giving the parameter types
abbrev pub as_func : TypeContext → QualType → Option (List QualType)
as_func c q = elim q.ty [
  | none ↦ none
  | some p ↦ elim (node_at c p) [ some (func ps r) ↦ some ps | _ ↦ none ]
]

-- `dynamic_cast<const NamedType *>(Q.getType())`, giving the declaration
abbrev pub as_named : TypeContext → QualType → Option ℕ
as_named c q = elim q.ty [
  | none ↦ none
  | some p ↦ elim (node_at c p) [ some (named d) ↦ some d | _ ↦ none ]
]

-- `dynamic_cast<const BuiltinType *>(Q.getType())`, giving the native type
abbrev pub as_builtin : QualType → Option NativeType
as_builtin q = elim q.ty [ some (builtin t) ↦ some t | _ ↦ none ]
