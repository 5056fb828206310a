-- ===== src/Scopes/Tree.antt =====
-- compiler/include/rxc/Sema/LexicalContext.h: scopes that form a tree, each parent created before its
-- children.
use supreme_doodle.Common.{
  ℕ, zero, suc, ◌<◌, ◌≡◌, ◌⊎◌, inl, inr, refl, some, List, [], ◌∷◌, ◌++◌, arith, length, get_elem?,
  set, String,
}
use supreme_doodle.Ast.{Decl}
use supreme_doodle.Scopes.{Kind, LexicalScope, LexicalContext, create_new_scope, scope_insert}

pub record IsTree (lc : LexicalContext) : Type 0 where
  pub earlier : (i p : ℕ) (s : LexicalScope) → get_elem? lc i ≡ some s → s.parent ≡ some p → p < i

-- the last element of a longer list, or an element of the shorter one
module _ {A : Type 0} where
  pub get_elem?-snoc :
      (xs : List A) (y : A) (i : ℕ) {x : A}
      → get_elem? (xs ++ y ∷ []) i ≡ some x
      → (get_elem? xs i ≡ some x) ⊎ ((i ≡ length xs) × (y ≡ x))
  get_elem?-snoc [] y zero h = inr (refl, ground arith)
  get_elem?-snoc [] y (suc i) h = cc
  get_elem?-snoc (x ∷ xs) y zero h = inl h
  get_elem?-snoc (x ∷ xs) y (suc i) h = ground (arith, get_elem?-snoc xs y i h)

  pub get_elem?-set :
      (xs : List A) (i j : ℕ) (y : A) {x : A}
      → get_elem? (set xs i y) j ≡ some x
      → (get_elem? xs j ≡ some x) ⊎ ((i ≡ j) × (y ≡ x))
  get_elem?-set [] i j y h = cc
  get_elem?-set (x ∷ xs) zero zero y h = inr (refl, ground arith)
  get_elem?-set (x ∷ xs) zero (suc j) y h = inl h
  get_elem?-set (x ∷ xs) (suc i) zero y h = inl h
  get_elem?-set (x ∷ xs) (suc i) (suc j) y h = ground (arith, get_elem?-set xs i j y h)

pub IsTree-create :
    (k : Kind) (parent : ℕ) (lc : LexicalContext)
    → IsTree lc
    → parent < length lc
    → IsTree (create_new_scope k (some parent) lc).1
IsTree-create k parent lc t h = record {
  earlier = λ i p s e f. elim (get_elem?-snoc lc _ i e) [
    | inl old ↦ t.earlier i p s old f
    | inr (last, new) ↦ ground arith
  ];
}

-- A declared symbol leaves the scope's parent.
pub parent-scope_insert :
    (s : LexicalScope) (k : String) (d : Decl) (t : LexicalScope)
    → scope_insert s k d ≡ some t
    → t.parent ≡ s.parent
unfolding scope_insert
parent-scope_insert s k d t h = ground arith

pub IsTree-set :
    (lc : LexicalContext) (i : ℕ) (s t : LexicalScope)
    → IsTree lc
    → get_elem? lc i ≡ some s
    → t.parent ≡ s.parent
    → IsTree (set lc i t)
IsTree-set lc i s t h e f = record {
  earlier = λ j p u g q. elim (get_elem?-set lc i j t g) [
    | inl old ↦ h.earlier j p u old q
    | inr (here, new) ↦ ground (arith, h.earlier i p s)
  ];
}
