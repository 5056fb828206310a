-- ===== src/Types/Names.antt =====
-- compiler/include/rxc/AST/Type.h, compiler/lib/AST/Type.cpp and QualType.cpp: `getTypeName` of types. The name of
-- a declaration is given by its identity. Fuel is for the pointers that are followed one inside another.
use supreme_doodle.Common.{
  ℕ, zero, suc, Bool, Option, none, some, List, [], ◌∷◌, String, ◌<>◌, get_elem?, if◌then◌else◌,
}
use supreme_doodle.Types.{
  NativeType, i1, i8, i16, i32, i64, f32, f64, string, TypePtr, unit_type, builtin, heap, QualType,
  TypeMap, TypeNode, named, pointer, array, func, object, enum, TypeContext,
}

abbrev pub builtin_name : NativeType → String
builtin_name i1 = "i1"
builtin_name i8 = "i8"
builtin_name i16 = "i16"
builtin_name i32 = "i32"
builtin_name i64 = "i64"
builtin_name f32 = "f32"
builtin_name f64 = "f64"
builtin_name string = "string"

abbrev pub map_name : (String → String) → Option String → Option String
map_name f none = none
map_name f (some k) = some (f k)

abbrev pub both_names : (String → String → String) → Option String → Option String → Option String
both_names f none o = none
both_names f (some k) o = map_name (f k) o

abbrev separator : {A : Type 0} → List A → String
separator [] = ""
separator (x ∷ xs) = ", "

-- the names of a list of types, given the names of its elements
unfoldable pub names_of : (QualType → Option String) → List QualType → Option String
names_of f [] = some ""
names_of f (q ∷ qs) = both_names (λ k r. (k <> separator qs) <> r) (f q) (names_of f qs)

unfoldable pub entries_of : (QualType → Option String) → TypeMap → Option String
entries_of f [] = some ""
entries_of f ((k, q) ∷ m) =
    both_names (λ t r. (((k <> ": ") <> t) <> separator m) <> r) (f q) (entries_of f m)

-- the name of an allocated type, given the names of the types in it
unfoldable pub node_name : (ℕ → String) → (QualType → Option String) → TypeNode → Option String
unfolding names_of entries_of
node_name decls f (named d) = some (decls d)
node_name decls f (pointer q) = map_name (λ k. "*" <> k) (f q)
node_name decls f (array q) = map_name (λ k. ("[" <> k) <> "]") (f q)
node_name decls f (func ps r) =
    both_names (λ ks k. (("func(" <> ks) <> ") ") <> k) (names_of f ps) (f r)
node_name decls f (object m) = map_name (λ k. ("{" <> k) <> "}") (entries_of f m)
node_name decls f (enum m) = map_name (λ k. ("Enum{" <> k) <> "}") (entries_of f m)

abbrev pub node_name_of :
    (ℕ → String) → (QualType → Option String) → Option TypeNode → Option String
node_name_of decls f none = none
node_name_of decls f (some n) = node_name decls f n

abbrev pub prefixed : Bool → String → String
prefixed mutable k = if mutable then "mut " <> k else k

-- `QualType::getTypeName`, given the names of pointers
abbrev pub qual_with : (TypePtr → Option String) → QualType → Option String
qual_with f q = elim q.ty [ none ↦ some "<unknown>" | some p ↦ map_name (prefixed q.mutable) (f p) ]

unfoldable pub ptr_name : (ℕ → String) → TypeContext → ℕ → TypePtr → Option String
unfolding node_name
ptr_name decls c fuel unit_type = some "unit"
ptr_name decls c fuel (builtin t) = some (builtin_name t)
ptr_name decls c zero (heap i) = none
ptr_name decls c (suc fuel) (heap i) =
    node_name_of decls (qual_with (ptr_name decls c fuel)) (get_elem? c.arena i)

unfoldable pub qual_name : (ℕ → String) → TypeContext → ℕ → QualType → Option String
unfolding ptr_name
qual_name decls c fuel q = qual_with (ptr_name decls c fuel) q
