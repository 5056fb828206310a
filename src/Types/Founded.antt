-- ===== src/Types/Founded.antt =====
-- compiler/lib/AST/TypeContext.cpp: types are built from types that were allocated before.
use supreme_doodle.Common.{
  ℕ, zero, suc, ◌≤◌, ◌<◌, ◌≡◌, refl, sym, ap, Option, none, some, List, [], ◌∷◌, ◌++◌, String,
  length, length-append, get_elem?, get_elem?-ne-none, lt-length_of_get_elem?, Option-cases, ◌⊎◌,
  inl, inr, arith,
}
use mathlib.Core.Path.{subst}
use supreme_doodle.Types.{
  TypePtr, unit_type, builtin, heap, QualType, TypeMap, TypeNode, named, pointer, array, func,
  object, enum, TypeContext, intern_type, intern, find_node, next_lookup, of_ptr,
}
use supreme_doodle.Types.Canonical.{find_node-found}
use supreme_doodle.Types.Names.{
  map_name, both_names, names_of, entries_of, node_name, node_name_of, qual_with, prefixed,
  ptr_name, qual_name,
}

abbrev pub PtrBelow : ℕ → Option TypePtr → Type 0
PtrBelow m none = Unit {0}
PtrBelow m (some unit_type) = Unit {0}
PtrBelow m (some (builtin t)) = Unit {0}
PtrBelow m (some (heap i)) = i < m

-- A type refers to positions below a bound only.
abbrev pub QualBelow : ℕ → QualType → Type 0
QualBelow m q = PtrBelow m q.ty

abbrev pub QualsBelow : ℕ → List QualType → Type 0
QualsBelow m [] = Unit {0}
QualsBelow m (q ∷ qs) = QualBelow m q × QualsBelow m qs

abbrev pub MapBelow : ℕ → TypeMap → Type 0
MapBelow m [] = Unit {0}
MapBelow m ((k, q) ∷ entries) = QualBelow m q × MapBelow m entries

abbrev pub NodeBelow : ℕ → TypeNode → Type 0
NodeBelow m (named d) = Unit {0}
NodeBelow m (pointer q) = QualBelow m q
NodeBelow m (array q) = QualBelow m q
NodeBelow m (func ps r) = QualsBelow m ps × QualBelow m r
NodeBelow m (object f) = MapBelow m f
NodeBelow m (enum f) = MapBelow m f

-- Each allocated type refers to types before it.
abbrev pub Founded : List TypeNode → Type 0
Founded arena = (i : ℕ) (n : TypeNode) → get_elem? arena i ≡ some n → NodeBelow i n

abbrev pub IsNamed : Option String → Type 0
IsNamed o = (k : String) × (o ≡ some k)

map_name-IsNamed : (f : String → String) {o : Option String} → IsNamed o → IsNamed (map_name f o)
map_name-IsNamed f o = (f o.0, ap (map_name f) o.1)

both_names-IsNamed :
    (f : String → String → String) {a b : Option String}
    → IsNamed a
    → IsNamed b
    → IsNamed (both_names f a b)
both_names-IsNamed f a b = (f a.0 b.0, rw (a.1, b.1) refl)

module _ (m : ℕ) (f : QualType → Option String)
    (name : (q : QualType) → QualBelow m q → IsNamed (f q)) where
  names_of-IsNamed : (qs : List QualType) → QualsBelow m qs → IsNamed (names_of f qs)
  unfolding names_of
  names_of-IsNamed [] b = ("", refl)
  names_of-IsNamed (q ∷ qs) b = both_names-IsNamed _ (name q b.0) (names_of-IsNamed qs b.1)

  entries_of-IsNamed : (es : TypeMap) → MapBelow m es → IsNamed (entries_of f es)
  unfolding entries_of
  entries_of-IsNamed [] b = ("", refl)
  entries_of-IsNamed ((k, q) ∷ es) b = both_names-IsNamed _ (name q b.0) (entries_of-IsNamed es b.1)

  node_name-IsNamed :
      (decls : ℕ → String) (n : TypeNode) → NodeBelow m n → IsNamed (node_name decls f n)
  unfolding node_name
  node_name-IsNamed decls (named d) b = (decls d, refl)
  node_name-IsNamed decls (pointer q) b = map_name-IsNamed _ (name q b)
  node_name-IsNamed decls (array q) b = map_name-IsNamed _ (name q b)
  node_name-IsNamed decls (func ps r) b =
      both_names-IsNamed _ (names_of-IsNamed ps b.0) (name r b.1)
  node_name-IsNamed decls (object es) b = map_name-IsNamed _ (entries_of-IsNamed es b)
  node_name-IsNamed decls (enum es) b = map_name-IsNamed _ (entries_of-IsNamed es b)

qual_with-IsNamed :
    (m : ℕ) (f : TypePtr → Option String)
    → ((p : TypePtr) → PtrBelow m (some p) → IsNamed (f p))
    → (q : QualType) → QualBelow m q
    → IsNamed (qual_with f q)
qual_with-IsNamed m f name q b = with_ptr q.ty b
  where
    with_ptr :
        (p : Option TypePtr)
        → PtrBelow m p
        → IsNamed
            (elim p [ none ↦ some "<unknown>" | some x ↦ map_name (prefixed q.mutable) (f x) ])
    with_ptr none b = ("<unknown>", refl)
    with_ptr (some p) b = map_name-IsNamed (prefixed q.mutable) (name p b)

ptr_name-IsNamed :
    (decls : ℕ → String) (c : TypeContext) (fuel m : ℕ) (p : TypePtr)
    → Founded c.arena
    → m ≤ fuel
    → m ≤ length c.arena
    → PtrBelow m (some p)
    → IsNamed (ptr_name decls c fuel p)
unfolding ptr_name
ptr_name-IsNamed decls c fuel m unit_type w e l b = ("unit", refl)
ptr_name-IsNamed decls c fuel m (builtin t) w e l b = (_, refl)
ptr_name-IsNamed decls c zero m (heap i) w e l b = absurd (omega arith)
ptr_name-IsNamed decls c (suc fuel) m (heap i) w e l b = elim (Option-cases (get_elem? c.arena i)) [
  | inl n ↦ absurd (get_elem?-ne-none c.arena i (omega arith) n)
  | inr (n, h) ↦
      subst (λ o. IsNamed (node_name_of decls (qual_with (ptr_name decls c fuel)) o)) (sym h)
        (node_name-IsNamed i (qual_with (ptr_name decls c fuel))
          (qual_with-IsNamed i (ptr_name decls c fuel)
            (λ p x. ptr_name-IsNamed decls c fuel i p w (omega arith) (omega arith) x))
          decls n (w i n h))
]

-- Where each allocated type refers to types that were allocated before it, the name of a type of the context is
-- found: following the pointers ends, within as many steps one inside another as there are types.
pub qual_name-IsNamed :
    (decls : ℕ → String) (c : TypeContext) (q : QualType)
    → Founded c.arena
    → QualBelow (length c.arena) q
    → IsNamed (qual_name decls c (length c.arena) q)
unfolding qual_name
qual_name-IsNamed decls c q w b =
    qual_with-IsNamed (length c.arena) (ptr_name decls c (length c.arena))
      (λ p x.
        ptr_name-IsNamed decls c (length c.arena) (length c.arena) p w (omega arith) (omega arith)
          x)
      q b

pub get_elem?-push :
    {A : Type 0} (xs : List A) (x y : A) (i : ℕ)
    → get_elem? (xs ++ x ∷ []) i ≡ some y
    → (get_elem? xs i ≡ some y) ⊎ ((i ≡ length xs) × (x ≡ y))
get_elem?-push [] x y zero h = inr (refl, cc)
get_elem?-push [] x y (suc i) h = cc
get_elem?-push (z ∷ xs) x y zero h = inl h
get_elem?-push (z ∷ xs) x y (suc i) h = elim (get_elem?-push xs x y i h) [
  | inl e ↦ inl e
  | inr e ↦ inr (ap suc e.0, e.1)
]

pub intern-new :
    (n : TypeNode) (c : TypeContext)
    → find_node (c.reaches 0) n c.arena ≡ none
    → intern n c ≡ (length c.arena, record (next_lookup c) { arena = c.arena ++ n ∷ [] })
unfolding intern
intern-new n c e = rw (e, intern) refl

pub intern-old :
    (n : TypeNode) (c : TypeContext) (j : ℕ)
    → find_node (c.reaches 0) n c.arena ≡ some j
    → intern n c ≡ (j, next_lookup c)
unfolding intern
intern-old n c j e = rw (e, intern) refl

-- A request for a type whose parts were allocated before keeps it so that each type refers to earlier ones, and
-- the pointer that it gives is to a type of the context.
pub intern_type-Founded :
    (n : TypeNode) (c : TypeContext)
    → Founded c.arena
    → NodeBelow (length c.arena) n
    → Founded (intern_type n c).1.arena
      × QualBelow (length (intern_type n c).1.arena) (intern_type n c).0
unfolding intern_type
intern_type-Founded n c w b = elim (Option-cases (find_node (c.reaches 0) n c.arena)) [
  | inl e ↦
      subst
        (λ (r : ℕ × TypeContext).
          Founded r.1.arena × QualBelow (length r.1.arena) (of_ptr (heap r.0)))
        (sym (intern-new n c e))
        (
          λ i k h. elim (get_elem?-push c.arena n k i h) [
            | inl old ↦ w i k old
            | inr new ↦
                subst (λ j. NodeBelow j k) (sym new.0) (subst (NodeBelow (length c.arena)) new.1 b)
          ],
          omega (arith, length-append c.arena (n ∷ [])),
        )
  | inr (j, e) ↦
      let at_j = find_node-found (c.reaches 0) n c.arena j e in
      subst
        (λ (r : ℕ × TypeContext).
          Founded r.1.arena × QualBelow (length r.1.arena) (of_ptr (heap r.0)))
        (sym (intern-old n c j e)) (w, lt-length_of_get_elem? c.arena j at_j.1)
]
