-- ===== src/Types/Canonical.antt =====
-- compiler/lib/AST/TypeContext.cpp: the pointers that requests for types give.
use supreme_doodle.Common.{
  ℕ, zero, suc, ◌≡◌, ◌↔◌, refl, sym, ◌∙◌, ap, inl, inr, Bool, true, false, Option, if◌then◌else◌,
  none, some, List, [], ◌∷◌, ◌++◌, arith, length, get_elem?, get_elem?-append_left,
  get_elem?-append_length, lt-length_of_get_elem?, Option-cases, Bool-cases,
}
use mathlib.Core.Path.{subst}
use supreme_doodle.Types.{
  heap, QualType, TypeNode, TypeContext, same_node, find_node, next_lookup, intern, intern_type,
  of_ptr,
}
use supreme_doodle.Types.Equality.{IsPlain, same_node_refl, eq_of_same_node}

found-later :
    (b : Bool) (o : Option ℕ) (i : ℕ)
    → (if b then some 0 else elim o as (λ x. Option ℕ) [ none ↦ none | some k ↦ some (suc k) ])
      ≡ some (suc i)
    → o ≡ some i
found-later true o i h = cc
found-later false none i h = cc
found-later false (some k) i h = cc

-- what a lookup finds, also in a longer list, and where the last node is the first that is found
pub find_node-found :
    (near : ℕ → Bool) (n : TypeNode) (xs : List TypeNode) (i : ℕ)
    → find_node near n xs ≡ some i
    → (m : TypeNode) × (get_elem? xs i ≡ some m) × (same_node (near i) n m ≡ true)
find_node-found near n [] i h = cc
find_node-found near n (x ∷ xs) zero h = elim (Bool-cases (same_node (near 0) n x)) [
  | inl e ↦ (x, refl, e)
  | inr e ↦ ground (arith, Option-cases (find_node (λ k. near (suc k)) n xs))
]
find_node-found near n (x ∷ xs) (suc i) h =
    find_node-found (λ k. near (suc k)) n xs i
      (found-later (same_node (near 0) n x) (find_node (λ k. near (suc k)) n xs) i h)

find_node-append :
    (near : ℕ → Bool) (n : TypeNode) (xs ys : List TypeNode) (i : ℕ)
    → find_node near n xs ≡ some i
    → find_node near n (xs ++ ys) ≡ some i
find_node-append near n [] ys i h = cc
find_node-append near n (x ∷ xs) ys zero h =
    ground (arith, find_node-append (λ k. near (suc k)) n xs ys)
find_node-append near n (x ∷ xs) ys (suc i) h =
    ground (arith, find_node-append (λ k. near (suc k)) n xs ys i)

find_node-snoc :
    (near : ℕ → Bool) (n : TypeNode) (xs : List TypeNode)
    → find_node near n xs ≡ none
    → IsPlain n
    → find_node near n (xs ++ n ∷ []) ≡ some (length xs)
find_node-snoc near n [] h plain = rw (same_node_refl (near 0) n plain) refl
find_node-snoc near n (x ∷ xs) h plain = ground (arith, find_node-snoc (λ k. near (suc k)) n xs)

-- The hash of maps has no part in a lookup of a type that is compared by its parts.
same_node-any :
    (near far : Bool) (n m : TypeNode) → IsPlain n → same_node near n m ≡ same_node far n m
same_node-any near far n m plain = elim (Bool-cases (same_node near n m)) [
  | inl e ↦
      let same = eq_of_same_node near n m plain e in
      e ∙ sym (subst (λ x. same_node far n x ≡ true) same (same_node_refl far n plain))
  | inr e ↦ elim (Bool-cases (same_node far n m)) [
    | inl f ↦
        let same = eq_of_same_node far n m plain f in
        let g = subst (λ x. same_node near n x ≡ true) same (same_node_refl near n plain) in cc
    | inr f ↦ e ∙ sym f
  ]
]

find_node-any :
    (near far : ℕ → Bool) (n : TypeNode) (xs : List TypeNode)
    → IsPlain n
    → find_node near n xs ≡ find_node far n xs
find_node-any near far n [] plain = refl
find_node-any near far n (x ∷ xs) plain =
    rw
      (
        same_node-any (near 0) (far 0) n x plain,
        find_node-any (λ k. near (suc k)) (λ k. far (suc k)) n xs plain,
      )
      refl

module _ (n : TypeNode) (plain : IsPlain n) where
  -- what a request returns: the pointer of a stored node, which is the node that was asked for
  pub intern_type-node :
      (c : TypeContext)
      → (i : ℕ) × ((intern_type n c).0 ≡ of_ptr (heap i))
        × (get_elem? (intern_type n c).1.arena i ≡ some n)
        × (find_node (c.reaches 0) n (intern_type n c).1.arena ≡ some i)
  unfolding intern_type
  intern_type-node c = elim (Option-cases (find_node (c.reaches 0) n c.arena)) [
    | inl e ↦ (
      length c.arena,
      rw (e, intern),
      rw (e, intern) (get_elem?-append_length c.arena n),
      rw (e, intern) (find_node-snoc (c.reaches 0) n c.arena e plain),
    )
    | inr (i, e) ↦
        let (m, at_i, same) = find_node-found (c.reaches 0) n c.arena i e in
        (
          i,
          rw (e, intern),
          rw (e, intern) (at_i ∙ ap some (sym (eq_of_same_node (c.reaches 0 i) n m plain same))),
          rw (e, intern) e,
        )
  ]

intern_type-known :
    (n : TypeNode) (c : TypeContext) (i : ℕ)
    → find_node (c.reaches 0) n c.arena ≡ some i
    → intern_type n c ≡ (of_ptr (heap i), next_lookup c)
unfolding intern_type
intern_type-known n c i e = rw (e, intern)

-- A request keeps the nodes that are there.
pub intern_type-keeps :
    (n : TypeNode) (c : TypeContext) (i : ℕ) (m : TypeNode)
    → get_elem? c.arena i ≡ some m
    → get_elem? (intern_type n c).1.arena i ≡ some m
unfolding intern_type
intern_type-keeps n c i m h = elim (Option-cases (find_node (c.reaches 0) n c.arena)) [
  | inl e ↦
      rw (e, intern)
        (get_elem?-append_left c.arena (n ∷ []) i (lt-length_of_get_elem? c.arena i h) ∙ h)
  | inr (j, e) ↦ rw (e, intern) h
]

pub heap_injective : (i j : ℕ) → of_ptr (heap i) ≡ of_ptr (heap j) → i ≡ j
heap_injective i j h = ap index h
  where
    index : QualType → ℕ
    index q = elim q.ty [ some (heap k) ↦ k | _ ↦ 0 ]

module _ (a b : TypeNode) (c c' : TypeContext) (zs : List TypeNode)
    (later : c'.arena ≡ (intern_type a c).1.arena ++ zs) where
  same_pointer : IsPlain a → a ≡ b → (intern_type a c).0 ≡ (intern_type b c').0
  same_pointer plain e =
      let (i, at_i, node_i, index_i) = intern_type-node a plain c in
      at_i
      ∙ ap (λ (p : QualType × TypeContext). p.0)
          (sym (
            intern_type-known b c' i (
              rw (later, sym e)
                (find_node-any (c'.reaches 0) (c.reaches 0) a ((intern_type a c).1.arena ++ zs)
                    plain
                  ∙ find_node-append (c.reaches 0) a (intern_type a c).1.arena zs i index_i))))

  same_node_of_pointer : IsPlain a → IsPlain b → (intern_type a c).0 ≡ (intern_type b c').0 → a ≡ b
  same_node_of_pointer plain_a plain_b h =
      let (i, at_i, node_i, index_i) = intern_type-node a plain_a c in
      let (j, at_j, node_j, index_j) = intern_type-node b plain_b c' in
      let e : i ≡ j = heap_injective i j (sym at_i ∙ h ∙ at_j) in
      let stays : get_elem? c'.arena i ≡ some a =
        ap (λ xs. get_elem? xs i) later
        ∙ get_elem?-append_left (intern_type a c).1.arena zs i (lt-length_of_get_elem? _ i node_i)
        ∙ node_i in
      let here : get_elem? (intern_type b c').1.arena i ≡ some a =
        intern_type-keeps b c' i a stays in
      cc

  -- Two requests for types that are not objects or enums, the second at any later time, give the same
  -- pointer exactly when they are for the same type.
  pub intern_type-identity :
      IsPlain a → IsPlain b → ((intern_type a c).0 ≡ (intern_type b c').0) ↔ (a ≡ b)
  intern_type-identity plain_a plain_b =
      (same_node_of_pointer plain_a plain_b, same_pointer plain_a)
