-- ===== src/Passes/Growth.antt =====
-- The contract of growth: a tree of scopes, no invalid pointer to a scope, scopes and types that are only
-- added, and diagnostics that are only appended.
pub mod Actions
pub mod Requests
pub mod Declare
pub mod Materials
pub mod Functions
pub mod Checks
use supreme_doodle.Common.{
  ℕ, ◌+◌, ◌≤◌, ◌<◌, ◌≡◌, refl, sym, ◌∙◌, inl, inr, none, some, List, [], ◌∷◌, ◌++◌, arith,
  append-nil, append_assoc, length, length-append, Option-cases, ap,
}
use supreme_doodle.Types.{TypeNode}
use supreme_doodle.Basic.{Diagnostic}
use supreme_doodle.Scopes.{Kind, LexicalScope, LexicalContext, create_new_scope, get_global_scope}
use supreme_doodle.Scopes.Tree.{IsTree, IsTree-create}
use supreme_doodle.Sema.{Sema, Fault, dangling, done, update}
use supreme_doodle.Visitor.{enter_scope}
use supreme_doodle.Visitor.Contract.{Contract}

-- the second list begins with the first
abbrev pub Extends : {A : Type 0} → List A → List A → Type 0
Extends {A} xs ys = (zs : List A) × (ys ≡ xs ++ zs)

pub Extends-refl : {A : Type 0} (xs : List A) → Extends xs xs
Extends-refl xs = ([], sym (append-nil xs))

pub Extends-trans : {A : Type 0} (xs ys zs : List A) → Extends xs ys → Extends ys zs → Extends xs zs
Extends-trans xs ys zs (as_, e) (bs, f) = (as_ ++ bs, f ∙ rw e (append_assoc xs as_ bs))

-- The scopes form a tree, and what a node holds as its scope is one of them.
pub record IsScoped (s : Sema) : Type 0 where
  pub tree : IsTree s.scopes
  pub bound : (id i : ℕ) → s.node_scope id ≡ some i → i < length s.scopes

pub record Grows (s t : Sema) : Type 0 where
  pub scoped : IsScoped t
  pub scopes : length s.scopes ≤ length t.scopes
  pub diags : Extends s.diags t.diags
  pub types : Extends s.types.arena t.types.arena

pub Grows-refl : (s : Sema) → IsScoped s → Grows s s
Grows-refl s h = record {
  scoped = h;
  scopes = omega arith;
  diags = Extends-refl s.diags;
  types = Extends-refl s.types.arena;
}

pub Grows-trans : (s t u : Sema) → Grows s t → Grows t u → Grows s u
Grows-trans s t u g h = record {
  scoped = h.scoped;
  scopes = omega (arith, g.scopes, h.scopes);
  diags = Extends-trans s.diags t.diags u.diags g.diags h.diags;
  types = Extends-trans s.types.arena t.types.arena u.types.arena g.types h.types;
}

abbrev pub IsHere : ℕ → Sema → Type 0
IsHere i s = i < length s.scopes

abbrev pub NotDangling : Fault → Type 0
NotDangling dangling = ⊥
NotDangling _ = Unit

-- a node that has no scope gets a new one, at the end
abbrev with_scope : Kind → ℕ → ℕ → Sema → Sema
with_scope k id ls s = record s {
  scopes = (create_new_scope k (some ls) s.scopes).1;
  node_scope = update s.node_scope id (some (length s.scopes));
}

length-create :
    (k : Kind) (ls : ℕ) (lc : LexicalContext)
    → length (create_new_scope k (some ls) lc).1 ≡ length lc + 1
length-create k ls lc =
    omega (arith, length-append lc (record { parent = some ls; kind = k; symbols = [] } ∷ []))

with_scope-bound :
    (k : Kind) (id ls : ℕ) (s : Sema)
    → IsScoped s
    → (j i : ℕ) → (with_scope k id ls s).node_scope j ≡ some i
    → i < length s.scopes + 1
with_scope-bound k id ls s h j i e = ground (arith, h.bound j i)

with_scope-Grows :
    (k : Kind) (id ls : ℕ) (s : Sema) → IsScoped s → IsHere ls s → Grows s (with_scope k id ls s)
with_scope-Grows k id ls s h here = record {
  scoped = record {
    tree = IsTree-create k ls s.scopes h.tree here;
    bound = λ j i e. omega (arith, length-create k ls s.scopes, with_scope-bound k id ls s h j i e);
  };
  scopes = omega (arith, length-create k ls s.scopes);
  diags = Extends-refl s.diags;
  types = Extends-refl s.types.arena;
}

pub enter-Grows :
    (k : Kind) (id ls : ℕ) (s : Sema)
    → IsScoped s
    → IsHere ls s
    → (i : ℕ) × (t : Sema) × (enter_scope k id ls s ≡ done i t) × Grows s t × IsHere i t
unfolding enter_scope
enter-Grows k id ls s h here = elim (Option-cases (s.node_scope id)) [
  | inl e ↦ (
    length s.scopes,
    with_scope k id ls s,
    rw (e, enter_scope),
    with_scope-Grows k id ls s h here,
    omega (arith, length-create k ls s.scopes),
  )
  | inr (i, e) ↦ (i, s, rw (e, enter_scope), Grows-refl s h, h.bound id i e)
]

pub global_first : (lc : LexicalContext) → 0 < length lc → get_global_scope lc ≡ some 0
global_first [] h = elim h [ ]
global_first (s ∷ lc) h = refl

-- `Stops` says whether a pass may run out of fuel.
abbrev pub growth : Type 0 → Contract
growth Stops = record {
  Inv = IsScoped;
  Rel = Grows;
  Here = IsHere;
  Admits = NotDangling;
  Stops = Stops;
  rel_refl = Grows-refl;
  rel_trans = Grows-trans;
  rel_inv = λ s t h g. g.scoped;
  rel_here = λ i s t g h. omega (arith, g.scopes, h);
  has_global = λ s h. global_first s.scopes h;
  admits_assertion = tt;
  admits_null = tt;
  enters = enter-Grows;
}
