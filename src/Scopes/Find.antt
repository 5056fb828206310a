-- ===== src/Scopes/Find.antt =====
-- compiler/lib/Sema/LexicalScope.cpp, `find`: the nearest scope outwards that declares a symbol.
use supreme_doodle.Common.{
  ℕ, zero, suc, ◌<◌, ◌≡◌, ◌↔◌, ◌∙◌, ◌⊎◌, inl, inr, refl, sym, true, false, none, some, arith,
  String, length, get_elem?, contains, Bool-cases, Option-cases, get_elem?-ne-none,
}
use mathlib.Core.Path.{subst}
use supreme_doodle.Scopes.{
  LexicalScope, LexicalContext, found, not_found, dangling, out_of_fuel, find_loop, find,
}
use supreme_doodle.Scopes.Tree.{IsTree}

-- The scope `j` declares `k` and encloses `i`, and no scope from `i` up to `j` declares it.
pub data Nearest (lc : LexicalContext) (k : String) : ℕ → ℕ → Type 0 where
  here :
      {i : ℕ} (s : LexicalScope)
      → get_elem? lc i ≡ some s
      → contains k s.symbols ≡ true
      → Nearest lc k i i
  up :
      {i j : ℕ} (p : ℕ) (s : LexicalScope)
      → get_elem? lc i ≡ some s
      → contains k s.symbols ≡ false
      → s.parent ≡ some p
      → Nearest lc k p j
      → Nearest lc k i j

found-injective : (i j : ℕ) → found i ≡ found j → i ≡ j
found-injective i j h = ground arith

module _ (lc : LexicalContext) (k : String) where
  loop-hit :
      (fuel i : ℕ) (s : LexicalScope)
      → get_elem? lc i ≡ some s
      → contains k s.symbols ≡ true
      → find_loop lc (suc fuel) (some i) k ≡ found i
  unfolding find_loop
  loop-hit fuel i s e c = rw (e, find_loop) (rw c)

  loop-miss :
      (fuel i : ℕ) (s : LexicalScope)
      → get_elem? lc i ≡ some s
      → contains k s.symbols ≡ false
      → find_loop lc (suc fuel) (some i) k ≡ find_loop lc fuel s.parent k
  unfolding find_loop
  loop-miss fuel i s e c = rw (e, find_loop) (rw c)

  loop-dangling :
      (fuel i : ℕ) → get_elem? lc i ≡ none → find_loop lc (suc fuel) (some i) k ≡ dangling
  unfolding find_loop
  loop-dangling fuel i e = rw (e, find_loop)

  loop-empty : (i : ℕ) → find_loop lc zero (some i) k ≡ out_of_fuel
  unfolding find_loop
  loop-empty i = refl

  loop-top : (fuel : ℕ) → find_loop lc fuel none k ≡ not_found
  unfolding find_loop
  loop-top zero = refl
  loop-top (suc fuel) = refl

  loop_complete :
      (fuel : ℕ) {i j : ℕ}
      → IsTree lc
      → i < fuel
      → Nearest lc k i j
      → find_loop lc fuel (some i) k ≡ found j
  loop_complete zero t h n = absurd (omega arith)
  loop_complete (suc fuel) {i} t h (here s e c) = loop-hit fuel i s e c
  loop_complete (suc fuel) {i} t h (up p s e c f n) =
      rw (loop-miss fuel i s e c, f) (loop_complete fuel t (omega (arith, t.earlier i p s e f)) n)

  loop_sound : (fuel i : ℕ) {j : ℕ} → find_loop lc fuel (some i) k ≡ found j → Nearest lc k i j
  loop_sound zero i h = cc (loop-empty i)
  loop_sound (suc fuel) i {j} h = elim (Option-cases (get_elem? lc i)) [
    | inl e ↦ cc (loop-dangling fuel i e)
    | inr (s, e) ↦ elim (Bool-cases (contains k s.symbols)) [
      | inl c ↦
          subst (λ x. Nearest lc k i x) (found-injective i j (sym (loop-hit fuel i s e c) ∙ h))
            (here s e c)
      | inr c ↦ elim (Option-cases s.parent) [
        | inl top ↦ cc (loop-miss fuel i s e c, top, loop-top fuel)
        | inr (p, f) ↦ up p s e c f (loop_sound fuel p (rw (loop-miss fuel i s e c, f) at h))
      ]
    ]
  ]

  loop_ends :
      (fuel i : ℕ)
      → IsTree lc
      → i < fuel
      → i < length lc
      → (find_loop lc fuel (some i) k ≡ not_found)
        ⊎ ((j : ℕ) × (find_loop lc fuel (some i) k ≡ found j) × (j < length lc))
  loop_ends zero i t h b = absurd (omega arith)
  loop_ends (suc fuel) i t h b = elim (Option-cases (get_elem? lc i)) [
    | inl e ↦ absurd (get_elem?-ne-none lc i b e)
    | inr (s, e) ↦ elim (Bool-cases (contains k s.symbols)) [
      | inl c ↦ inr (i, loop-hit fuel i s e c, b)
      | inr c ↦ elim (Option-cases s.parent) [
        | inl top ↦ inl (loop-miss fuel i s e c ∙ rw top (loop-top fuel))
        | inr (p, f) ↦
            let lt : p < i = t.earlier i p s e f in
            rw (loop-miss fuel i s e c, f) (loop_ends fuel p t (omega arith) (omega arith))
      ]
    ]
  ]

-- In a tree of scopes, from any scope of it, `find` gives a scope exactly if it is the nearest one from
-- there outwards that declares the symbol.
pub find-eq-found :
    (lc : LexicalContext) (k : String) (i j : ℕ)
    → IsTree lc
    → i < length lc
    → (find lc i k ≡ found j) ↔ Nearest lc k i j
unfolding find
find-eq-found lc k i j t h = (loop_sound lc k (length lc) i, loop_complete lc k (length lc) t h)

-- In a tree of scopes the loop of `find` ends, at no invalid pointer, and what it finds is a scope.
pub find_total :
    (lc : LexicalContext) (k : String) (i : ℕ)
    → IsTree lc
    → i < length lc
    → (find lc i k ≡ not_found) ⊎ ((j : ℕ) × (find lc i k ≡ found j) × (j < length lc))
unfolding find
find_total lc k i t h = loop_ends lc k (length lc) i t h h
