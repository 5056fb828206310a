-- ===== src/Passes/Growth/Actions.antt =====
-- The contract of growth for the actions on the state of compiler/lib/Sema.
use supreme_doodle.Common.{
  ℕ, ◌≡◌, refl, inl, inr, none, some, Option, List, [], ◌∷◌, arith, String, length, length-set,
  get_elem?, get_elem?-ne-none, set, Option-cases, ap,
}
use supreme_doodle.Types.{QualType, TypeContext}
use supreme_doodle.Ast.{Decl}
use supreme_doodle.Basic.{Diagnostic}
use supreme_doodle.Scopes.{LexicalScope, scope_insert, scope_decls, find, found, not_found}
use supreme_doodle.Scopes.Tree.{IsTree-set, parent-scope_insert}
use supreme_doodle.Scopes.Find.{find_total}
use supreme_doodle.Sema.{
  Sema, Exec, assertion, fault, done, emit, set_type, get_type, set_decl_node, get_decl_node,
  set_expr_type, get_decls, insert_decl, find_scope, get_parent, get_types, ◌>>=◌,
}
use supreme_doodle.Visitor.Contract.{Good-eq, Meets}
use supreme_doodle.Passes.Growth.{Extends, Extends-refl, IsScoped, Grows, Grows-refl, growth}

-- a state that differs in nothing that the contract speaks of, but for what is appended
pub same-Grows :
    (s t : Sema)
    → IsScoped s
    → t.scopes ≡ s.scopes
    → t.node_scope ≡ s.node_scope
    → Extends s.diags t.diags
    → Extends s.types.arena t.types.arena
    → Grows s t
same-Grows s t h e f d a = record {
  scoped = record { tree = rw e h.tree; bound = λ id i p. rw e (h.bound id i (rw f at p)) };
  scopes = omega (arith, ap length e);
  diags = d;
  types = a;
}

abbrev Anything : {A : Type 0} → A → Type 0
Anything a = Unit

module _ (Stops : Type 0) (ls : ℕ) where
  pub emit-Meets : (d : Diagnostic) → Meets (growth Stops) ls (λ (a : Unit {0}). Unit {0}) (emit d)
  unfolding emit
  emit-Meets d = record {
    at = λ s h here. (same-Grows s _ h refl refl (d ∷ [], refl) (Extends-refl s.types.arena), tt);
  }

  pub set_type-Meets :
      (i : ℕ) (q : QualType) → Meets (growth Stops) ls (λ (a : Unit {0}). Unit {0}) (set_type i q)
  unfolding set_type
  set_type-Meets i q = record {
    at = λ s h here.
        (same-Grows s _ h refl refl (Extends-refl s.diags) (Extends-refl s.types.arena), tt);
  }

  pub set_decl_node-Meets :
      (i : ℕ) (d : Decl) → Meets (growth Stops) ls (λ (a : Unit {0}). Unit {0}) (set_decl_node i d)
  unfolding set_decl_node
  set_decl_node-Meets i d = record {
    at = λ s h here.
        (same-Grows s _ h refl refl (Extends-refl s.diags) (Extends-refl s.types.arena), tt);
  }

  pub set_expr_type-Meets :
      (i : ℕ) (q : QualType)
      → Meets (growth Stops) ls (λ (a : Unit {0}). Unit {0}) (set_expr_type i q)
  unfolding set_expr_type
  set_expr_type-Meets i q = record {
    at = λ s h here.
        (same-Grows s _ h refl refl (Extends-refl s.diags) (Extends-refl s.types.arena), tt);
  }

  pub get_type-Meets : (i : ℕ) → Meets (growth Stops) ls (λ (q : QualType). Unit {0}) (get_type i)
  unfolding get_type
  get_type-Meets i = record { at = λ s h here. (Grows-refl s h, tt) }

  pub get_decl_node-Meets :
      (i : ℕ) → Meets (growth Stops) ls (λ (d : Option Decl). Unit {0}) (get_decl_node i)
  unfolding get_decl_node
  get_decl_node-Meets i = record { at = λ s h here. (Grows-refl s h, tt) }

  pub get_types-Meets : Meets (growth Stops) ls (λ (c : TypeContext). Unit {0}) get_types
  unfolding get_types
  get_types-Meets = record { at = λ s h here. (Grows-refl s h, tt) }

  get_decls-eq :
      (k : String) (s : Sema) (sc : LexicalScope)
      → get_elem? s.scopes ls ≡ some sc
      → get_decls ls k s ≡ done (scope_decls sc k) s
  unfolding get_decls
  get_decls-eq k s sc e = rw (e, get_decls)

  pub get_decls-Meets :
      (k : String) → Meets (growth Stops) ls (λ (ds : List Decl). Unit {0}) (get_decls ls k)
  get_decls-Meets k = record {
    at = λ s h here. elim (Option-cases (get_elem? s.scopes ls)) [
      | inl e ↦ absurd (get_elem?-ne-none s.scopes ls here e)
      | inr (sc, e) ↦
          Good-eq (growth Stops) (λ ds. Unit) s (get_decls-eq k s sc e) (Grows-refl s h, tt)
    ];
  }

  insert_decl-eq_some :
      (k : String) (d : Decl) (s : Sema) (sc sc' : LexicalScope)
      → get_elem? s.scopes ls ≡ some sc
      → scope_insert sc k d ≡ some sc'
      → insert_decl ls k d s ≡ done tt (record s { scopes = set s.scopes ls sc' })
  unfolding insert_decl
  insert_decl-eq_some k d s sc sc' e f = rw (e, insert_decl) (rw f)

  insert_decl-eq_none :
      (k : String) (d : Decl) (s : Sema) (sc : LexicalScope)
      → get_elem? s.scopes ls ≡ some sc
      → scope_insert sc k d ≡ none
      → insert_decl ls k d s ≡ fault assertion
  unfolding insert_decl
  insert_decl-eq_none k d s sc e f = rw (e, insert_decl) (rw f)

  set_scope-Grows :
      (k : String) (d : Decl) (s : Sema) (sc sc' : LexicalScope)
      → IsScoped s
      → get_elem? s.scopes ls ≡ some sc
      → scope_insert sc k d ≡ some sc'
      → Grows s (record s { scopes = set s.scopes ls sc' })
  set_scope-Grows k d s sc sc' h e f = record {
    scoped = record {
      tree = IsTree-set s.scopes ls sc sc' h.tree e (parent-scope_insert sc k d sc' f);
      bound = λ id i p. omega (arith, length-set s.scopes ls sc', h.bound id i p);
    };
    scopes = omega (arith, length-set s.scopes ls sc');
    diags = Extends-refl s.diags;
    types = Extends-refl s.types.arena;
  }

  pub insert_decl-Meets :
      (k : String) (d : Decl)
      → Meets (growth Stops) ls (λ (a : Unit {0}). Unit {0}) (insert_decl ls k d)
  insert_decl-Meets k d = record {
    at = λ s h here. elim (Option-cases (get_elem? s.scopes ls)) [
      | inl e ↦ absurd (get_elem?-ne-none s.scopes ls here e)
      | inr (sc, e) ↦ elim (Option-cases (scope_insert sc k d)) [
        | inl f ↦ Good-eq (growth Stops) (λ a. Unit) s (insert_decl-eq_none k d s sc e f) tt
        | inr (sc', f) ↦
            Good-eq (growth Stops) (λ a. Unit) s (insert_decl-eq_some k d s sc sc' e f)
              (set_scope-Grows k d s sc sc' h e f, tt)
      ]
    ];
  }

  find_scope-eq_some :
      (k : String) (s : Sema) (i : ℕ)
      → find s.scopes ls k ≡ found i
      → find_scope ls k s ≡ done (some i) s
  unfolding find_scope
  find_scope-eq_some k s i e = rw (e, find_scope)

  find_scope-eq_none :
      (k : String) (s : Sema) → find s.scopes ls k ≡ not_found → find_scope ls k s ≡ done none s
  unfolding find_scope
  find_scope-eq_none k s e = rw (e, find_scope)

  -- what follows a search runs in the scope that was found
  pub Meets-find :
      {B : Type 0} {R : B → Type 0} (k : String) (rest : Option ℕ → Exec B)
      → Meets (growth Stops) ls R (rest none)
      → ((i : ℕ) → Meets (growth Stops) i R (rest (some i)))
      → Meets (growth Stops) ls R (find_scope ls k >>= rest)
  Meets-find {R = R} k rest n y = record {
    at = λ s h here. elim (find_total s.scopes k ls h.tree here) [
      | inl e ↦ rw (find_scope-eq_none k s e) (n.at s h here)
      | inr (i, e, there) ↦ rw (find_scope-eq_some k s i e) ((y i).at s h there)
    ];
  }

  get_parent-eq :
      (s : Sema) (sc : LexicalScope)
      → get_elem? s.scopes ls ≡ some sc
      → get_parent ls s ≡ done sc.parent s
  unfolding get_parent
  get_parent-eq s sc e = rw (e, get_parent)

  -- what follows `parent()` runs in the parent
  pub Meets-parent :
      {B : Type 0} {R : B → Type 0} (rest : Option ℕ → Exec B)
      → Meets (growth Stops) ls R (rest none)
      → ((i : ℕ) → Meets (growth Stops) i R (rest (some i)))
      → Meets (growth Stops) ls R (get_parent ls >>= rest)
  Meets-parent {R = R} rest n y = record {
    at = λ s h here. elim (Option-cases (get_elem? s.scopes ls)) [
      | inl e ↦ absurd (get_elem?-ne-none s.scopes ls here e)
      | inr (sc, e) ↦ rw (get_parent-eq s sc e) (elim (Option-cases sc.parent) [
        | inl top ↦ rw top (n.at s h here)
        | inr (p, f) ↦ rw f ((y p).at s h (omega (arith, h.tree.earlier ls p sc e f)))
      ])
    ];
  }
