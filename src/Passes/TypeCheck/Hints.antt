-- ===== src/Passes/TypeCheck/Hints.antt =====
-- compiler/lib/Sema/TypeCheck.cpp: what the guard of a type hint leaves on the stack of hints.
use supreme_doodle.Common.{
  ℕ, zero, suc, ◌≤◌, ◌≡◌, ◌↔◌, refl, sym, ap, ◌∙◌, none, some, List, [], ◌∷◌, arith, length,
  Option-cases, inl, inr,
}
use supreme_doodle.Types.{QualType}
use supreme_doodle.Sema.{Sema, Outcome, done, fault, assertion, ◌>>=◌, ◌>>◌, and_then}
use supreme_doodle.Passes.TypeCheck.{push_type_hint, pop_back_n, pop_type_hints}

-- Popping as many elements as there were before a push leaves the first element of the stack.
pub pop_back_n-length :
    {A : Type 0} (x : A) (xs : List A) → (y : A) × (pop_back_n (length xs) (x ∷ xs) ≡ some (y ∷ []))
pop_back_n-length x [] = (x, refl)
pop_back_n-length x (y ∷ ys) = pop_back_n-length y ys

pop_back_n-back :
    {A : Type 0} (x : A) (xs : List A) → length xs ≡ 1 → pop_back_n (length xs) (x ∷ xs) ≡ some xs
pop_back_n-back x [] h = cc
pop_back_n-back x (y ∷ []) h = refl
pop_back_n-back x (y ∷ z ∷ zs) h = ground arith

pop_back_n-none : {A : Type 0} (n : ℕ) (x : A) → (pop_back_n n (x ∷ []) ≡ none) ↔ (2 ≤ n)
pop_back_n-none zero x = (λ e. cc, λ l. absurd (omega arith))
pop_back_n-none (suc zero) x = (λ e. cc, λ l. absurd (omega arith))
pop_back_n-none (suc (suc n)) x = (λ e. omega arith, λ l. refl)

-- popping where the stack of hints is known
pub pop_type_hints-some :
    (n : ℕ) (s : Sema) (hs : List QualType)
    → pop_back_n n s.hints ≡ some hs
    → pop_type_hints n s ≡ done tt (record s { hints = hs })
unfolding pop_type_hints
pop_type_hints-some n s hs e = rw (e, pop_type_hints)

pop_type_hints-none :
    (n : ℕ) (s : Sema) → pop_back_n n s.hints ≡ none → pop_type_hints n s ≡ fault assertion
unfolding pop_type_hints
pop_type_hints-none n s e = rw (e, pop_type_hints)

-- the state below a guard, and the state after it
module _ (q : QualType) (s : Sema) where
  pushed : Sema
  pushed = record s { hints = q ∷ s.hints }

  guard-eq :
      (hs : List QualType)
      → pop_back_n (length s.hints) (q ∷ s.hints) ≡ some hs
      → (push_type_hint q >>= pop_type_hints) s ≡ done tt (record s { hints = hs })
  unfolding push_type_hint pushed
  guard-eq hs e = pop_type_hints-some (length s.hints) pushed hs e

fault-ne-done : {s : Sema} → fault assertion ≡ done tt s → ⊥
fault-ne-done e = cc

abbrev hints_of : {A : Type 0} → Outcome A → List QualType
hints_of (done a s) = s.hints
hints_of _ = []

restored_hints :
    (q : QualType) (s : Sema)
    → (push_type_hint q >>= pop_type_hints) s ≡ done tt s
    → length s.hints ≡ 1
restored_hints q s e =
    let (y, left) = pop_back_n-length q s.hints in
    ap length (ap hints_of (sym e ∙ guard-eq q s (y ∷ []) left))

restores :
    (q : QualType) (s : Sema)
    → length s.hints ≡ 1
    → (push_type_hint q >>= pop_type_hints) s ≡ done tt s
restores q s h = guard-eq q s s.hints (pop_back_n-back q s.hints h)

-- Pushing a type hint and leaving its guard gives back the state that there was exactly when there was
-- one hint before.
pub guard_restores_iff :
    (q : QualType) (s : Sema)
    → ((push_type_hint q >>= pop_type_hints) s ≡ done tt s) ↔ (length s.hints ≡ 1)
guard_restores_iff q s = (restored_hints q s, restores q s)

-- two guards, the second left before the first
abbrev pub nested_guards : QualType → QualType → Sema → Outcome (Unit {0})
nested_guards q r s =
    (push_type_hint q >>= λ m. push_type_hint r >>= λ n. pop_type_hints n >> pop_type_hints m) s

-- what the inner guard leaves: the first hint alone
nested_guards-inner :
    (q r : QualType) (s : Sema)
    → (y : QualType) × (nested_guards q r s
        ≡ pop_type_hints (length s.hints) (record s { hints = y ∷ [] }))
unfolding push_type_hint
nested_guards-inner q r s =
    let (y, left) = pop_back_n-length q s.hints in
    let twice : Sema = record s { hints = r ∷ q ∷ s.hints } in
    let popped = pop_type_hints-some (suc (length s.hints)) twice (y ∷ []) left in
    (y, ap (λ o. and_then o (λ _. pop_type_hints (length s.hints))) popped)

-- The assertion of the stack fails at the end of two nested guards exactly when there were two hints or more before
-- the first.
pub nested_guards-assertion :
    (q r : QualType) (s : Sema) → (nested_guards q r s ≡ fault assertion) ↔ (2 ≤ length s.hints)
nested_guards-assertion q r s =
    let (y, inner) = nested_guards-inner q r s in
    let rest : Sema = record s { hints = y ∷ [] } in
    (
      λ e. elim (Option-cases (pop_back_n (length s.hints) (y ∷ []))) [
        | inl n ↦ (pop_back_n-none (length s.hints) y).0 n
        | inr (hs, k) ↦
            let both : fault assertion ≡ done tt (record rest { hints = hs }) =
              sym e ∙ inner ∙ pop_type_hints-some (length s.hints) rest hs k in
            absurd (fault-ne-done both)
      ],
      λ l.
          inner
          ∙ pop_type_hints-none (length s.hints) rest ((pop_back_n-none (length s.hints) y).1 l),
    )
