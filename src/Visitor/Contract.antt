-- ===== src/Visitor/Contract.antt =====
-- What it means that an action keeps a contract: from a state with the invariant, at a valid scope, it
-- ends in a related state with an admitted result, or with a fault that the contract admits. The rules
-- are one for each way to build an action.
pub mod Types
pub mod Walk
use supreme_doodle.Common.{
  ℕ, ◌≡◌, sym, Bool, true, false, Option, none, some, List, [], ◌∷◌, arith, if◌then◌else◌,
}
use mathlib.Core.Path.{subst}
use supreme_doodle.Scopes.{Kind, file_scope, get_global_scope}
use supreme_doodle.Sema.{
  Sema, Fault, assertion, null_deref, Outcome, done, fault, out_of_fuel, Exec, pure, fail, ◌>>=◌,
  ◌>>◌, and_then,
}
use supreme_doodle.Visitor.{
  enter_scope, enter_program, visit_all, visit_if, visit_child, visit_required,
}

-- `Here i s`: the pointer `i` to a scope is valid in `s`. The default members may fail an assertion or
-- call through a null pointer, and they enter scopes.
pub record Contract : Type 1 where
  pub Inv : Sema → Type 0
  pub Rel : Sema → Sema → Type 0
  pub Here : ℕ → Sema → Type 0
  pub Admits : Fault → Type 0
  pub Stops : Type 0
  pub rel_refl : (s : Sema) → Inv s → Rel s s
  pub rel_trans : (s t u : Sema) → Rel s t → Rel t u → Rel s u
  pub rel_inv : (s t : Sema) → Inv s → Rel s t → Inv t
  pub rel_here : (i : ℕ) (s t : Sema) → Rel s t → Here i s → Here i t
  pub has_global : (s : Sema) → Here 0 s → get_global_scope s.scopes ≡ some 0
  pub admits_assertion : Admits assertion
  pub admits_null : Admits null_deref
  pub enters :
      (k : Kind) (id ls : ℕ) (s : Sema)
      → Inv s
      → Here ls s
      → (i : ℕ) × (t : Sema) × (enter_scope k id ls s ≡ done i t) × Rel s t × Here i t

-- `Q` holds of the result and of the state that it comes with.
abbrev pub Good : (c : Contract) {A : Type 0} → (A → Sema → Type 0) → Sema → Outcome A → Type 0
Good c Q s (done a t) = c.Rel s t × Q a t
Good c Q s (fault f) = c.Admits f
Good c Q s out_of_fuel = c.Stops

pub record Meets (c : Contract) (ls : ℕ) {A : Type 0} (Q : A → Type 0) (m : Exec A) : Type 0 where
  pub at : (s : Sema) → c.Inv s → c.Here ls s → Good c (λ a t. Q a) s (m s)

module _ (c : Contract) where
  abbrev pub GoodOf : {A : Type 0} → (A → Type 0) → Sema → Outcome A → Type 0
  GoodOf Q = Good c (λ a t. Q a)

  pub Good-trans :
      {A : Type 0} (Q : A → Type 0) (s t : Sema) (o : Outcome A)
      → c.Rel s t
      → GoodOf Q t o
      → GoodOf Q s o
  Good-trans Q s t (done a u) r (r', q) = (c.rel_trans s t u r r', q)
  Good-trans Q s t (fault f) r g = g
  Good-trans Q s t out_of_fuel r g = g

  -- an outcome that is computed to another
  pub Good-eq :
      {A : Type 0} (Q : A → Type 0) (s : Sema) {o o' : Outcome A}
      → o ≡ o'
      → GoodOf Q s o'
      → GoodOf Q s o
  Good-eq Q s e g = subst (GoodOf Q s) (sym e) g

  pub Meets-pure : {A : Type 0} {Q : A → Type 0} {ls : ℕ} (a : A) → Q a → Meets c ls Q (pure a)
  Meets-pure a q = record { at = λ s inv here. (c.rel_refl s inv, q) }

  pub Meets-fail :
      {A : Type 0} {Q : A → Type 0} {ls : ℕ} (f : Fault) → c.Admits f → Meets c ls Q (fail f)
  Meets-fail f ok = record { at = λ s inv here. ok }

  -- what follows an outcome
  continues :
      {A B : Type 0} {Q : A → Type 0} {R : B → Type 0} {ls : ℕ} (s : Sema) (o : Outcome A)
      (k : A → Exec B)
      → c.Inv s
      → c.Here ls s
      → ((a : A) → Q a → Meets c ls R (k a))
      → GoodOf Q s o
      → GoodOf R s (and_then o k)
  continues {R = R} {ls} s (done a t) k inv here rest (r, q) =
      Good-trans R s t (k a t) r ((rest a q).at t (c.rel_inv s t inv r) (c.rel_here ls s t r here))
  continues s (fault f) k inv here rest g = g
  continues s out_of_fuel k inv here rest g = g

  pub Meets-bind :
      {A B : Type 0} {Q : A → Type 0} {R : B → Type 0} {ls : ℕ} {m : Exec A} {k : A → Exec B}
      → Meets c ls Q m
      → ((a : A) → Q a → Meets c ls R (k a))
      → Meets c ls R (m >>= k)
  Meets-bind {m = m} {k = k} h rest = record {
    at = λ s inv here. continues s (m s) k inv here rest (h.at s inv here);
  }

  pub Meets-then :
      {A B : Type 0} {Q : A → Type 0} {R : B → Type 0} {ls : ℕ} {m : Exec A} {n : Exec B}
      → Meets c ls Q m
      → Meets c ls R n
      → Meets c ls R (m >> n)
  Meets-then h rest = Meets-bind h (λ a q. rest)

  -- an action that runs in the scope that is entered
  pub Meets-enter :
      {B : Type 0} {R : B → Type 0} {ls : ℕ} (kind : Kind) (id : ℕ) {k : ℕ → Exec B}
      → ((i : ℕ) → Meets c i R (k i))
      → Meets c ls R (enter_scope kind id ls >>= k)
  Meets-enter {R = R} {ls} kind id {k} rest = record {
    at = λ s inv here.
        let (i, t, e, r, there) = c.enters kind id ls s inv here in
        rw e (Good-trans R s t (k i t) r ((rest i).at t (c.rel_inv s t inv r) there));
  }

  -- a program is entered as a file's scope below scope 0
  enter_program_lem :
      (id : ℕ) (s : Sema)
      → get_global_scope s.scopes ≡ some 0
      → enter_program id s ≡ enter_scope file_scope id 0 s
  unfolding enter_program
  enter_program_lem id s h = ground arith

  pub Meets-enter_program :
      {B : Type 0} {R : B → Type 0} (id : ℕ) {k : ℕ → Exec B}
      → ((i : ℕ) → Meets c i R (k i))
      → Meets c 0 R (enter_program id >>= k)
  Meets-enter_program id {k} rest = record {
    at = λ s inv here.
        rw (enter_program_lem id s (c.has_global s here))
          ((Meets-enter file_scope id {k = k} rest).at s inv here);
  }

-- splits on a test, an option and a list
module _ (c : Contract) {B : Type 0} {R : B → Type 0} {ls : ℕ} where
  pub Meets-bool :
      (b : Bool) {m n : Exec B}
      → Meets c ls R m
      → Meets c ls R n
      → Meets c ls R (elim b [ true ↦ m | false ↦ n ])
  Meets-bool true hm hn = hm
  Meets-bool false hm hn = hn

  pub Meets-if_else :
      (b : Bool) {m n : Exec B}
      → Meets c ls R m
      → Meets c ls R n
      → Meets c ls R (if b then m else n)
  Meets-if_else true hm hn = hm
  Meets-if_else false hm hn = hn

  pub Meets-option :
      {A : Type 0} (o : Option A) {m : Exec B} {k : A → Exec B}
      → Meets c ls R m
      → ((a : A) → Meets c ls R (k a))
      → Meets c ls R (elim o [ none ↦ m | some a ↦ k a ])
  Meets-option none hm hk = hm
  Meets-option (some a) hm hk = hk a

  pub Meets-list :
      {A : Type 0} (xs : List A) {m : Exec B} {k : A → List A → Exec B}
      → Meets c ls R m
      → ((a : A) (as_ : List A) → Meets c ls R (k a as_))
      → Meets c ls R (elim xs [ [] ↦ m | a ∷ as_ ↦ k a as_ ])
  Meets-list [] hm hk = hm
  Meets-list (a ∷ as_) hm hk = hk a as_

module _ (c : Contract) {T : Type 0} (Q : T → Type 0) (ls : ℕ) where
  -- every action of a list, of an option
  abbrev pub AllMeet : List (Exec T) → Type 0
  AllMeet [] = Unit
  AllMeet (m ∷ ms) = Meets c ls Q m × AllMeet ms

  abbrev pub OptMeets : Option (Exec T) → Type 0
  OptMeets none = Unit
  OptMeets (some m) = Meets c ls Q m

  pub Meets-all : (t : T) (ms : List (Exec T)) → Q t → AllMeet ms → Meets c ls Q (visit_all t ms)
  unfolding visit_all
  Meets-all t [] q h = Meets-pure c t q
  Meets-all t (m ∷ ms) q (h, hs) = Meets-bind c h (λ u r. Meets-all u ms r hs)

  pub Meets-if : (t : T) (o : Option (Exec T)) → Q t → OptMeets o → Meets c ls Q (visit_if t o)
  Meets-if t none q h = Meets-pure c t q
  Meets-if t (some m) q h = h

  pub Meets-child : (o : Option (Exec T)) → OptMeets o → Meets c ls Q (visit_child o)
  Meets-child none h = Meets-fail c null_deref c.admits_null
  Meets-child (some m) h = h

  pub Meets-required : (o : Option (Exec T)) → OptMeets o → Meets c ls Q (visit_required o)
  Meets-required none h = Meets-fail c assertion c.admits_assertion
  Meets-required (some m) h = h
