-- ===== src/Passes/Growth/Requests.antt =====
-- The contract of growth for requests to compiler/lib/AST/TypeContext.cpp.
use supreme_doodle.Common.{
  ℕ, ◌≡◌, refl, false, sym, inl, inr, none, some, Option, [], ◌∷◌, Option-cases, append-nil,
}
use supreme_doodle.Types.{TypeContext, TypeNode, find_node, intern, intern_type}
use supreme_doodle.Sema.{Sema, assertion, done, fault, with_types, with_types?}
use supreme_doodle.Visitor.Contract.{Meets, Good-eq}
use supreme_doodle.Passes.Growth.{growth, Extends, Extends-refl}
use supreme_doodle.Passes.Growth.Actions.{same-Grows}

module _ (Stops : Type 0) (ls : ℕ) where
  pub with_types-Meets :
      {A : Type 0} {Q : A → Type 0} (f : TypeContext → A × TypeContext)
      → ((c : TypeContext) → Extends c.arena (f c).1.arena × Q (f c).0)
      → Meets (growth Stops) ls Q (with_types f)
  unfolding with_types
  with_types-Meets f x = record {
    at = λ s h here.
        let (grows, q) = x s.types in (same-Grows s _ h refl refl (Extends-refl s.diags) grows, q);
  }

  pub with_types?-eq_some :
      {A : Type 0} (f : TypeContext → Option (A × TypeContext)) (s : Sema) (a : A) (c : TypeContext)
      → f s.types ≡ some (a, c)
      → with_types? f s ≡ done a (record s { types = c })
  unfolding with_types?
  with_types?-eq_some f s a c e = rw (e, with_types?)

  pub with_types?-eq_none :
      {A : Type 0} (f : TypeContext → Option (A × TypeContext)) (s : Sema)
      → f s.types ≡ none
      → with_types? f s ≡ fault assertion
  unfolding with_types?
  with_types?-eq_none f s e = rw (e, with_types?)

  pub with_types?-Meets :
      {A : Type 0} {Q : A → Type 0} (f : TypeContext → Option (A × TypeContext))
      → ((c c' : TypeContext) (a : A) → f c ≡ some (a, c') → Extends c.arena c'.arena × Q a)
      → Meets (growth Stops) ls Q (with_types? f)
  with_types?-Meets {Q = Q} f x = record {
    at = λ s h here. elim (Option-cases (f s.types)) [
      | inl e ↦ Good-eq (growth Stops) Q s (with_types?-eq_none f s e) tt
      | inr ((a, c), e) ↦
          let (grows, q) = x s.types c a e in
          Good-eq (growth Stops) Q s (with_types?-eq_some f s a c e)
            (same-Grows s _ h refl refl (Extends-refl s.diags) grows, q)
    ];
  }

intern_type-Extends : (n : TypeNode) (c : TypeContext) → Extends c.arena (intern_type n c).1.arena
unfolding intern_type
intern_type-Extends n c = elim (Option-cases (find_node (c.reaches 0) n c.arena)) [
  | inl e ↦ (n ∷ [], rw (e, intern))
  | inr (i, e) ↦ ([], rw (e, intern) (sym (append-nil c.arena)))
]

-- A request to the context keeps what is there, and gives a type without qualifiers.
pub intern_type-grows :
    (n : TypeNode) (c : TypeContext)
    → Extends c.arena (intern_type n c).1.arena × ((intern_type n c).0.mutable ≡ false)
unfolding intern_type
intern_type-grows n c = (intern_type-Extends n c, refl)
