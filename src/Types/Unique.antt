-- ===== src/Types/Unique.antt =====
-- compiler/lib/AST/TypeContext.cpp: in the context each type that is compared by its parts is at one position,
-- so a pointer and what it is a pointer to determine each other.
use supreme_doodle.Common.{
  ℕ, zero, suc, ◌≡◌, refl, sym, ◌∙◌, ap, inl, inr, Bool, true, false, none, some, List, [], ◌∷◌,
  ◌⊎◌, arith, length, get_elem?, Option-cases, Bool-cases,
}
use mathlib.Core.Path.{subst}
use supreme_doodle.Types.{
  TypePtr, heap, of_ptr, TypeNode, named, pointer, array, func, TypeContext, same_node, find_node,
  intern_type,
}
use supreme_doodle.Types.Equality.{IsPlain, same_node_refl}
use supreme_doodle.Types.Founded.{get_elem?-push, intern-new, intern-old}
use supreme_doodle.Types.Shapes.{
  Shape, Shapes, unit_shape, native_shape, named_shape, pointer_shape, array_shape, func_shape,
  no_shapes, shape_cons, of_ptrs, Holds, Means, MeansAll,
}

-- Each type that is compared by its parts is at one position.
pub record Unique (arena : List TypeNode) : Type 0 where
  pub same_at :
      (i j : ℕ) (n : TypeNode)
      → IsPlain n
      → get_elem? arena i ≡ some n
      → get_elem? arena j ≡ some n
      → i ≡ j

find_node-none :
    (near : ℕ → Bool) (n : TypeNode) (xs : List TypeNode) (i : ℕ) (m : TypeNode)
    → find_node near n xs ≡ none
    → get_elem? xs i ≡ some m
    → same_node (near i) n m ≡ false
find_node-none near n [] i m e h = cc
find_node-none near n (y ∷ xs) zero m e h = ground (arith, Bool-cases (same_node (near 0) n m))
find_node-none near n (y ∷ xs) (suc i) m e h = ground (
  arith,
  Bool-cases (same_node (near 0) n y),
  Option-cases (find_node (λ k. near (suc k)) n xs),
  find_node-none (λ k. near (suc k)) n xs i m,
)

pub intern_type-Unique :
    (n : TypeNode) (c : TypeContext) → Unique c.arena → Unique (intern_type n c).1.arena
unfolding intern_type
intern_type-Unique n c u = elim (Option-cases (find_node (c.reaches 0) n c.arena)) [
  | inl e ↦
      subst (λ (r : ℕ × TypeContext). Unique r.1.arena) (sym (intern-new n c e))
        (record {
          same_at = λ i j m plain at_i at_j.
              pushed e i j m plain (get_elem?-push c.arena n m i at_i)
                (get_elem?-push c.arena n m j at_j);
        })
  | inr (j, e) ↦ subst (λ (r : ℕ × TypeContext). Unique r.1.arena) (sym (intern-old n c j e)) u
]
  where
    absent :
        find_node (c.reaches 0) n c.arena ≡ none
        → (i : ℕ) (m : TypeNode) → IsPlain m
        → get_elem? c.arena i ≡ some m
        → n ≡ m
        → ⊥
    absent e i m plain at_i same =
        let f : same_node (c.reaches 0 i) n m ≡ false =
          find_node-none (c.reaches 0) n c.arena i m e at_i in
        let t : same_node (c.reaches 0 i) n m ≡ true =
          subst (λ x. same_node (c.reaches 0 i) x m ≡ true) (sym same)
            (same_node_refl (c.reaches 0 i) m plain) in
        cc

    pushed :
        find_node (c.reaches 0) n c.arena ≡ none
        → (i j : ℕ) (m : TypeNode) → IsPlain m
        → (get_elem? c.arena i ≡ some m) ⊎ ((i ≡ length c.arena) × (n ≡ m))
        → (get_elem? c.arena j ≡ some m) ⊎ ((j ≡ length c.arena) × (n ≡ m))
        → i ≡ j
    pushed e i j m plain (inl a) (inl b) = u.same_at i j m plain a b
    pushed e i j m plain (inl a) (inr b) = absurd (absent e i m plain a b.1)
    pushed e i j m plain (inr a) (inl b) = absurd (absent e j m plain b a.1)
    pushed e i j m plain (inr a) (inr b) = a.0 ∙ sym b.0

module _ (arena : List TypeNode) (u : Unique arena) where
  Holds-pointer :
      {p q : TypePtr} (m n : TypeNode)
      → IsPlain m
      → m ≡ n
      → Holds arena p m
      → Holds arena q n
      → p ≡ q
  Holds-pointer m n plain e h k =
      h.is_at
      ∙ ap heap (
          u.same_at h.at k.at m plain h.node
            (subst (λ x. get_elem? arena k.at ≡ some x) (sym e) k.node))
      ∙ sym k.is_at

  mutual
    unfolding Means

    pub Means-pointer : (s : Shape) (p q : TypePtr) → Means arena p s → Means arena q s → p ≡ q
    Means-pointer unit_shape p q h k = h ∙ sym k
    Means-pointer (native_shape t) p q h k = h ∙ sym k
    Means-pointer (named_shape d) p q h k = Holds-pointer (named d) (named d) tt refl h k
    Means-pointer (pointer_shape s) p q h k =
        Holds-pointer _ _ tt (ap (λ x. pointer (of_ptr x)) (Means-pointer s h.0 k.0 h.2 k.2)) h.1
          k.1
    Means-pointer (array_shape s) p q h k =
        Holds-pointer _ _ tt (ap (λ x. array (of_ptr x)) (Means-pointer s h.0 k.0 h.2 k.2)) h.1 k.1
    Means-pointer (func_shape ss s) p q h k =
        Holds-pointer _ _ tt
          (ap (λ xs. func (of_ptrs xs) (of_ptr h.1)) (MeansAll-pointers ss h.0 k.0 h.3 k.3)
            ∙ ap (λ x. func (of_ptrs k.0) (of_ptr x)) (Means-pointer s h.1 k.1 h.4 k.4))
          h.2 k.2

    MeansAll-pointers :
        (ss : Shapes) (ps qs : List TypePtr) → MeansAll arena ps ss → MeansAll arena qs ss → ps ≡ qs
    MeansAll-pointers no_shapes [] [] h k = refl
    MeansAll-pointers no_shapes (p ∷ ps) qs h k = absurd h
    MeansAll-pointers no_shapes [] (q ∷ qs) h k = absurd k
    MeansAll-pointers (shape_cons s ss) [] qs h k = absurd h
    MeansAll-pointers (shape_cons s ss) (p ∷ ps) [] h k = absurd k
    MeansAll-pointers (shape_cons s ss) (p ∷ ps) (q ∷ qs) h k =
        ap (λ x. x ∷ ps) (Means-pointer s p q h.0 k.0)
        ∙ ap (λ xs. q ∷ xs) (MeansAll-pointers ss ps qs h.1 k.1)
