-- ===== src/Parser/Answers.antt =====
-- compiler/lib/Parser/ParseTreeVisitor.h: what a step of the visitor answers. It succeeds exactly if a test
-- says so, and what it builds then meets a condition. The identities in use are listed with the newest
-- first.
use mathlib.Core.Bool.{true≢false}
use mathlib.Core.Path.{subst}
use native.Mathlib.Nat.{le_trans as ≤-trans}
use supreme_doodle.Common.{
  ℕ, ◌+◌, ◌≤◌, ◌<◌, ◌≡◌, refl, sym, ◌∙◌, Bool, true, false, ◌&&◌, List, [], ◌∷◌, arith,
}
use supreme_doodle.Parser.Actions.{Builder, Built, built, crash, Build, and_then}

-- Every identity is below the bound, and they decrease.
unfoldable pub Below : ℕ → List ℕ → Type 0
Below m [] = Unit {0}
Below m (i ∷ ids) = (i < m) × Below i ids

pub Below-weaken : (ids : List ℕ) {m n : ℕ} → m ≤ n → Below m ids → Below n ids
unfolding Below
Below-weaken [] e b = tt
Below-weaken (i ∷ ids) e b = (omega arith, b.1)

-- No identity is given back, and those of what was built are in front of `ids`.
pub record Grown {A : Type 0} (listed : A → List ℕ → List ℕ) (ids : List ℕ) (m : ℕ) (a : A)
    (t : Builder) : Type 0 where
  pub grows : m ≤ t.next
  pub below : Below t.next (listed a ids)

unfoldable pub AnswerOf : {A : Type 0} → Bool → Built A → (A → Builder → Type 0) → Type 0
AnswerOf c (built a t) P = (c ≡ true) × P a t
AnswerOf c (crash x) P = c ≡ false

pub record Answers {A : Type 0} (c : Bool) (r : Built A) (P : A → Builder → Type 0) : Type 0 where
  pub answer : AnswerOf c r P

module _ {A B : Type 0} {P : A → Builder → Type 0} {Q : B → Builder → Type 0} where
  Answers-bind_lem :
      (c : Bool) {d : Bool} (r : Built A) {k : A → Build B}
      → Answers c r P
      → ((a : A) (t : Builder) → P a t → Answers d (k a t) Q)
      → Answers (c && d) (and_then r k) Q
  unfolding AnswerOf
  Answers-bind_lem true (built a t) p q = q a t p.answer.1
  Answers-bind_lem false (built a t) p q = absurd (true≢false (sym p.answer.0))
  Answers-bind_lem true (crash x) p q = absurd (true≢false p.answer)
  Answers-bind_lem false (crash x) p q = record { answer = refl }

  pub Answers-bind :
      {c d : Bool} {r : Built A} {k : A → Build B}
      → Answers c r P
      → ((a : A) (t : Builder) → P a t → Answers d (k a t) Q)
      → Answers (c && d) (and_then r k) Q
  Answers-bind {c} {r} p q = Answers-bind_lem c r p q

  Answers-finish_lem :
      (c : Bool) (r : Built A) {k : A → Build B}
      → Answers c r P
      → ((a : A) (t : Builder) → P a t → Answers true (k a t) Q)
      → Answers c (and_then r k) Q
  unfolding AnswerOf
  Answers-finish_lem true (built a t) p q = q a t p.answer.1
  Answers-finish_lem false (built a t) p q = absurd (true≢false (sym p.answer.0))
  Answers-finish_lem true (crash x) p q = absurd (true≢false p.answer)
  Answers-finish_lem false (crash x) p q = record { answer = refl }

  pub Answers-finish :
      {c : Bool} {r : Built A} {k : A → Build B}
      → Answers c r P
      → ((a : A) (t : Builder) → P a t → Answers true (k a t) Q)
      → Answers c (and_then r k) Q
  Answers-finish {c} {r} p q = Answers-finish_lem c r p q

module _ {A : Type 0} {P Q : A → Builder → Type 0} where
  Answers-imply_lem :
      {c : Bool} (r : Built A)
      → Answers c r P
      → ((a : A) (t : Builder) → P a t → Q a t)
      → Answers c r Q
  unfolding AnswerOf
  Answers-imply_lem (built a t) p q = record { answer = (p.answer.0, q a t p.answer.1) }
  Answers-imply_lem (crash x) p q = record { answer = p.answer }

  pub Answers-imply :
      {c : Bool} {r : Built A}
      → Answers c r P
      → ((a : A) (t : Builder) → P a t → Q a t)
      → Answers c r Q
  Answers-imply {r} p q = Answers-imply_lem r p q

Answers-built_lem :
    {A : Type 0} {P : A → Builder → Type 0} {c : Bool} (r : Built A)
    → Answers c r P
    → c ≡ true
    → (a : A) × (t : Builder) × (r ≡ built a t)
unfolding AnswerOf
Answers-built_lem (built a t) p e = (a, t, refl)
Answers-built_lem (crash x) p e = absurd (true≢false (sym e ∙ p.answer))

pub Answers-built :
    {A : Type 0} {P : A → Builder → Type 0} {c : Bool} {r : Built A}
    → Answers c r P
    → c ≡ true
    → (a : A) × (t : Builder) × (r ≡ built a t)
Answers-built {r} p e = Answers-built_lem r p e

Answers-self_lem :
    {A : Type 0} {P : A → Builder → Type 0} {c : Bool} (r : Built A)
    → Answers c r P
    → Answers c r (λ a t. r ≡ built a t)
unfolding AnswerOf
Answers-self_lem (built a t) p = record { answer = (p.answer.0, refl) }
Answers-self_lem (crash x) p = record { answer = p.answer }

pub Answers-self :
    {A : Type 0} {P : A → Builder → Type 0} {c : Bool} {r : Built A}
    → Answers c r P
    → Answers c r (λ a t. r ≡ built a t)
Answers-self {r} p = Answers-self_lem r p

pub answered :
    {A : Type 0} {P : A → Builder → Type 0} {a : A} {t : Builder}
    → P a t
    → Answers true (built a t) P
unfolding AnswerOf
answered p = record { answer = (refl, p) }

pub started :
    {ids : List ℕ} (s : Builder)
    → Below s.next ids
    → Grown (λ (u : Unit {0}) (xs : List ℕ). xs) ids s.next tt s
started s b = record { grows = omega arith; below = b }

module _ {A B : Type 0} {f : A → List ℕ → List ℕ} {g : B → List ℕ → List ℕ} {ids ids2 : List ℕ}
    {a : A} {b : B} where
  pub Grown-trans :
      {m : ℕ} {s t : Builder} → Grown f ids m a s → Grown g ids2 s.next b t → Grown g ids2 m b t
  Grown-trans p q = record { grows = ≤-trans p.grows q.grows; below = q.below }

  pub Grown-same :
      {m : ℕ} {s : Builder} → Grown f ids m a s → g b ids2 ≡ f a ids → Grown g ids2 m b s
  Grown-same {s} p e = record { grows = p.grows; below = subst (Below s.next) (sym e) p.below }

  pub Grown-node :
      {m : ℕ} {s : Builder}
      → Grown f ids m a s
      → g b ids2 ≡ s.next ∷ f a ids
      → Grown g ids2 m b (record s { next = s.next + 1 })
  unfolding Below
  Grown-node {s} p e = record {
    grows = ≤-trans p.grows (omega arith);
    below = subst (Below (s.next + 1)) (sym e) (omega arith, p.below);
  }

-- What a step built is left out.
pub Grown-drop :
    {A B : Type 0} {f : A → List ℕ → List ℕ} {ids ids2 : List ℕ} {m n : ℕ} {a : A} {b : B}
    {s : Builder}
    → Below m ids
    → m ≤ n
    → Grown f ids2 n a s
    → Grown (λ (x : B) (xs : List ℕ). xs) ids m b s
Grown-drop {ids} b e p = record {
  grows = ≤-trans e p.grows;
  below = Below-weaken ids (≤-trans e p.grows) b;
}

-- A node was created, and what it is part of is not there yet.
pub Grown-push :
    {A : Type 0} {f : A → List ℕ → List ℕ} {ids : List ℕ} {m : ℕ} {a : A} {s : Builder}
    → Grown f ids m a s
    → Grown (λ (x : A) (xs : List ℕ). s.next ∷ f x xs) ids m a (record s { next = s.next + 1 })
Grown-push p = Grown-node p refl
