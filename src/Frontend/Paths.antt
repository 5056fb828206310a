-- ===== src/Frontend/Paths.antt =====
-- compiler/lib/Frontend/TranslationUnitContext.cpp: the keys of the tables, and the paths that are not opened yet.
use supreme_doodle.Common.{
  ℕ, ◌+◌, ◌≤◌, ◌≡◌, refl, true, false, ◌||◌, List, [], ◌∷◌, ◌++◌, String, str_eq, str_eq_refl,
  str_eq_iff, if◌then◌else◌, arith, Bool-cases, inl, inr, length,
}
use mathlib.Core.Path.{subst}
use supreme_doodle.Frontend.{TranslationUnit, member, paths_of, update_at}

pub member-append :
    (p : String) (qs : List String) (q : String)
    → member p qs ≡ true
    → member p (qs ++ q ∷ []) ≡ true
member-append p [] q e = cc
member-append p (r ∷ qs) q e = let rest = member-append p qs q in ground arith

pub member-append_last : (p : String) (qs : List String) → member p (qs ++ p ∷ []) ≡ true
member-append_last p [] = let same = str_eq_refl p in ground arith
member-append_last p (r ∷ qs) = let rest = member-append_last p qs in ground arith

pub member_of_append :
    (p : String) (qs : List String) (q : String)
    → member p (qs ++ q ∷ []) ≡ true
    → (str_eq q p || member p qs) ≡ true
member_of_append p [] q e = e
member_of_append p (r ∷ qs) q e = let rest = member_of_append p qs q in ground arith

pub length-push : (qs : List String) (q : String) → length (qs ++ q ∷ []) ≡ length qs + 1
length-push [] q = refl
length-push (r ∷ qs) q = omega (arith, length-push qs q)

pub paths_of-update_at :
    (f : TranslationUnit → TranslationUnit)
    → ((u : TranslationUnit) → (f u).path ≡ u.path)
    → (p : String) (us : List TranslationUnit) → paths_of (update_at f p us) ≡ paths_of us
paths_of-update_at f e p [] = refl
paths_of-update_at f e p (u ∷ us) =
    let rest = paths_of-update_at f e p us in
    elim (Bool-cases (str_eq u.path p)) [
      | inl c ↦ rw (c, e u, rest) refl
      | inr c ↦ rw (c, rest) refl
    ]

-- how many of the paths are no keys
abbrev pub unopened : List String → List String → ℕ
unopened [] keys = 0
unopened (p ∷ ps) keys = (if member p keys then 0 else 1) + unopened ps keys

pub unopened-le : (ps keys : List String) → unopened ps keys ≤ length ps
unopened-le [] keys = omega arith
unopened-le (p ∷ ps) keys = let rest = unopened-le ps keys in ground arith

pub unopened-weaken :
    (ps keys : List String) (q : String) → unopened ps (q ∷ keys) ≤ unopened ps keys
unopened-weaken [] keys q = omega arith
unopened-weaken (p ∷ ps) keys q = let rest = unopened-weaken ps keys q in ground arith

pub unopened-new :
    (ps keys : List String) (q : String)
    → member q ps ≡ true
    → member q keys ≡ false
    → unopened ps (q ∷ keys) + 1 ≤ unopened ps keys
unopened-new [] keys q e n = cc
unopened-new (p ∷ ps) keys q e n =
    let rest = unopened-new ps keys q in
    let weak = unopened-weaken ps keys q in
    ground (arith, str_eq_iff p q, str_eq_iff q p, rest, weak)

pub member-weaken :
    (p q : String) (qs : List String) → member p qs ≡ true → member p (q ∷ qs) ≡ true
member-weaken p q qs e = ground arith

pub member_other :
    (p q : String) (qs : List String)
    → str_eq p q ≡ false
    → member p (q ∷ qs) ≡ true
    → member p qs ≡ true
member_other p q qs n e = ground (arith, str_eq_iff p q, str_eq_iff q p)

-- Where all imports have keys, they do after one with a key is added.
pub pushed-known :
    (p : String) (imported : List String) (q : String) (keys : List String)
    → member q keys ≡ true
    → ((r : String) → member r imported ≡ true → member r keys ≡ true)
    → member p (imported ++ q ∷ []) ≡ true
    → member p keys ≡ true
pushed-known p imported q keys e old m =
    let split = member_of_append p imported q m in
    elim (Bool-cases (str_eq q p)) [
      | inl c ↦ subst (λ r. member r keys ≡ true) ((str_eq_iff q p).0 c) e
      | inr c ↦ old p (subst (λ b. (b || member p imported) ≡ true) c split)
    ]
