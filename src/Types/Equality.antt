-- ===== src/Types/Equality.antt =====
-- compiler/include/rxc/AST/QualType.h and Type.h: the comparisons of types, and equality.
use supreme_doodle.Common.{
  ℕ, ◌≡◌, refl, sym, ◌∙◌, ap, Bool, true, Option, none, some, List, [], ◌∷◌, ◌&&◌, arith, bool_eq,
  ◌==◌, if◌then◌else◌, false,
}
use supreme_doodle.Types.{
  TypePtr, unit_type, builtin, heap, ptr_eq, opt_ptr_eq, QualType, qual_eq, quals_eq, TypeNode,
  named, pointer, array, func, object, enum, same_node, native_index, NativeType, i1, i8, i16, i32,
  i64, f32, f64, string,
}

native_of : ℕ → NativeType
native_of n =
    if n == 0
    then i1
    else (if n == 1
        then i8
        else (if n == 2
            then i16
            else (if n == 3
                then i32
                else (if n == 4
                    then i64
                    else (if n == 5 then f32 else (if n == 6 then f64 else string))))))

native_of-native_index : (a : NativeType) → native_of (native_index a) ≡ a
unfolding native_of
native_of-native_index i1 = refl
native_of-native_index i8 = refl
native_of-native_index i16 = refl
native_of-native_index i32 = refl
native_of-native_index i64 = refl
native_of-native_index f32 = refl
native_of-native_index f64 = refl
native_of-native_index string = refl

native_index-injective : (a b : NativeType) → native_index a ≡ native_index b → a ≡ b
native_index-injective a b h =
    sym (native_of-native_index a) ∙ ap native_of h ∙ native_of-native_index b

-- The comparisons of the model decide equality.
ptr_eq_refl : (a : TypePtr) → ptr_eq a a ≡ true
ptr_eq_refl unit_type = refl
ptr_eq_refl (builtin t) = ground arith
ptr_eq_refl (heap i) = ground arith

eq_of_ptr_eq : (a b : TypePtr) → ptr_eq a b ≡ true → a ≡ b
eq_of_ptr_eq unit_type unit_type h = refl
eq_of_ptr_eq (builtin a) (builtin b) h = ap builtin (native_index-injective a b (ground arith))
eq_of_ptr_eq (heap a) (heap b) h = ap heap (ground arith)
eq_of_ptr_eq unit_type (builtin b) h = cc
eq_of_ptr_eq unit_type (heap b) h = cc
eq_of_ptr_eq (builtin a) unit_type h = cc
eq_of_ptr_eq (builtin a) (heap b) h = cc
eq_of_ptr_eq (heap a) unit_type h = cc
eq_of_ptr_eq (heap a) (builtin b) h = cc

opt_ptr_eq_refl : (a : Option TypePtr) → opt_ptr_eq a a ≡ true
opt_ptr_eq_refl none = refl
opt_ptr_eq_refl (some a) = ptr_eq_refl a

eq_of_opt_ptr_eq : (a b : Option TypePtr) → opt_ptr_eq a b ≡ true → a ≡ b
eq_of_opt_ptr_eq none none h = refl
eq_of_opt_ptr_eq (some a) (some b) h = ap some (eq_of_ptr_eq a b h)
eq_of_opt_ptr_eq none (some b) h = cc
eq_of_opt_ptr_eq (some a) none h = cc

eq_of_bool_eq : (a b : Bool) → bool_eq a b ≡ true → a ≡ b
eq_of_bool_eq true true h = refl
eq_of_bool_eq false false h = refl
eq_of_bool_eq true false h = cc
eq_of_bool_eq false true h = cc

bool_eq_refl : (a : Bool) → bool_eq a a ≡ true
bool_eq_refl true = refl
bool_eq_refl false = refl

pub qual_eq_refl : (q : QualType) → qual_eq q q ≡ true
qual_eq_refl q = ground (arith, opt_ptr_eq_refl q.ty, bool_eq_refl q.mutable)

pub and_true : (a b : Bool) → (a && b) ≡ true → (a ≡ true) × (b ≡ true)
and_true true b h = (refl, h)
and_true false b h = cc

make : Option TypePtr → Bool → QualType
make t m = record { ty = t; mutable = m }

pub eq_of_qual_eq : (q r : QualType) → qual_eq q r ≡ true → q ≡ r
unfolding make
eq_of_qual_eq q r h =
    let (e, f) = and_true (opt_ptr_eq r.ty q.ty) (bool_eq r.mutable q.mutable) h in
    sym (
      ap (λ t. make t r.mutable) (eq_of_opt_ptr_eq r.ty q.ty e)
      ∙ ap (make q.ty) (eq_of_bool_eq r.mutable q.mutable f))

pub quals_eq_refl : (qs : List QualType) → quals_eq qs qs ≡ true
quals_eq_refl [] = refl
quals_eq_refl (q ∷ qs) = ground (arith, qual_eq_refl q, quals_eq_refl qs)

pub eq_of_quals_eq : (qs rs : List QualType) → quals_eq qs rs ≡ true → qs ≡ rs
eq_of_quals_eq [] [] h = refl
eq_of_quals_eq [] (r ∷ rs) h = cc
eq_of_quals_eq (q ∷ qs) [] h = cc
eq_of_quals_eq (q ∷ qs) (r ∷ rs) h =
    let (e, f) = and_true (qual_eq q r) (quals_eq qs rs) h in
    ap (λ x. x ∷ qs) (eq_of_qual_eq q r e) ∙ ap (λ xs. r ∷ xs) (eq_of_quals_eq qs rs f)

-- The types that `DenseMap` and the hash of function types compare by their parts alone.
abbrev pub IsPlain : TypeNode → Type 0
IsPlain (object fields) = ⊥
IsPlain (enum members) = ⊥
IsPlain _ = Unit

pub same_node_refl : (near : Bool) (n : TypeNode) → IsPlain n → same_node near n n ≡ true
same_node_refl near (named d) h = ground arith
same_node_refl near (pointer q) h = qual_eq_refl q
same_node_refl near (array q) h = qual_eq_refl q
same_node_refl near (func ps r) h = ground (arith, qual_eq_refl r, quals_eq_refl ps)
same_node_refl near (object m) h = elim h [ ]
same_node_refl near (enum m) h = elim h [ ]

pub eq_of_same_node : (near : Bool) (a b : TypeNode) → IsPlain a → same_node near a b ≡ true → a ≡ b
eq_of_same_node near (named a) (named b) p h = ap named (ground arith)
eq_of_same_node near (pointer q) (pointer r) p h = ap pointer (eq_of_qual_eq q r h)
eq_of_same_node near (array q) (array r) p h = ap array (eq_of_qual_eq q r h)
eq_of_same_node near (func ps r) (func qs s) p h =
    let (e, f) = and_true (qual_eq r s) (quals_eq ps qs) h in
    ap (λ x. func x r) (eq_of_quals_eq ps qs f) ∙ ap (func qs) (eq_of_qual_eq r s e)
eq_of_same_node near (object m) b p h = elim p [ ]
eq_of_same_node near (enum m) b p h = elim p [ ]
eq_of_same_node near (named a) (pointer b) p h = cc
eq_of_same_node near (named a) (array b) p h = cc
eq_of_same_node near (named a) (func b c) p h = cc
eq_of_same_node near (named a) (object b) p h = cc
eq_of_same_node near (named a) (enum b) p h = cc
eq_of_same_node near (pointer a) (named b) p h = cc
eq_of_same_node near (pointer a) (array b) p h = cc
eq_of_same_node near (pointer a) (func b c) p h = cc
eq_of_same_node near (pointer a) (object b) p h = cc
eq_of_same_node near (pointer a) (enum b) p h = cc
eq_of_same_node near (array a) (named b) p h = cc
eq_of_same_node near (array a) (pointer b) p h = cc
eq_of_same_node near (array a) (func b c) p h = cc
eq_of_same_node near (array a) (object b) p h = cc
eq_of_same_node near (array a) (enum b) p h = cc
eq_of_same_node near (func a d) (named b) p h = cc
eq_of_same_node near (func a d) (pointer b) p h = cc
eq_of_same_node near (func a d) (array b) p h = cc
eq_of_same_node near (func a d) (object b) p h = cc
eq_of_same_node near (func a d) (enum b) p h = cc
