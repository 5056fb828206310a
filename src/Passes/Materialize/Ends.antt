-- ===== src/Passes/Materialize/Ends.antt =====
-- compiler/lib/Sema/ResolveGlobalTypePass.cpp, `MaterializeType`: the fuel that aliases need which do not lead
-- back to themselves.
use supreme_doodle.Common.{
  ℕ, zero, suc, ◌<◌, ◌≤◌, ◌≡◌, ◌≢◌, refl, sym, ◌∙◌, ap, none, some, Option, [], ◌∷◌, arith, length,
  length-append, Option-cases, inl, inr,
}
use supreme_doodle.Types.{QualType, TypeContext, get_pointer_type, get_array_type, unknown}
use supreme_doodle.Ast.{
  Node, AstType, AstTypes, AstFields, AstMembers, builtin_type, decl_type_ref, access_type,
  qual_type, pointer_type, array_type, function_type, object_type, enum_type, no_types, type_cons,
  no_fields, field, no_members, member, bare_member, Decl, DeclHead, use_decl, var_decl, type_decl,
  impl_decl, func_decl, param_decl,
}
use supreme_doodle.Scopes.{Kind, create_new_scope}
use supreme_doodle.Sema.{
  Sema, Exec, Outcome, done, fault, pure, out_of_fuel, update, emit, set_type, with_types,
  with_types?, get_decl_node,
}
use supreme_doodle.Visitor.{enter_scope}
use supreme_doodle.Visitor.Contract.{Contract, Meets, GoodOf, Good-eq, Meets-pure, Meets-bind}
use supreme_doodle.Visitor.Contract.Types.{AllRefs, AllRefsTypes, AllRefsFields, AllRefsMembers}
use supreme_doodle.Passes.Materialize.{follow_ref, follow_decl}
use supreme_doodle.Passes.Materialize.Keeps.{IsImmutable, Materialises, Follows, follow_decl-Meets}
use supreme_doodle.Passes.Growth.{global_first}
use supreme_doodle.Passes.Growth.Requests.{
  with_types?-eq_some, with_types?-eq_none, intern_type-grows,
}
use supreme_doodle.Passes.Growth.Materials.{get_pointer_type-grows, get_array_type-grows}

abbrev Same : Sema → Sema → Type 0
Same s t = (t.node_decl ≡ s.node_decl) × (length s.scopes ≤ length t.scopes)

enter-Same :
    (k : Kind) (id ls : ℕ) (s : Sema)
    → 0 < length s.scopes
    → (i : ℕ) × (t : Sema) × (enter_scope k id ls s ≡ done i t) × Same s t × (0 < length t.scopes)
unfolding enter_scope
enter-Same k id ls s h = elim (Option-cases (s.node_scope id)) [
  | inl e ↦ (
    length s.scopes,
    record s {
      scopes = (create_new_scope k (some ls) s.scopes).1;
      node_scope = update s.node_scope id (some (length s.scopes));
    },
    rw (e, enter_scope),
    (
      refl,
      omega (
        arith,
        length-append s.scopes (record { parent = some ls; kind = k; symbols = [] } ∷ []),
      ),
    ),
    omega
        (arith, length-append s.scopes (record { parent = some ls; kind = k; symbols = [] } ∷ [])),
  )
  | inr (i, e) ↦ (i, s, rw (e, enter_scope), (refl, omega arith), h)
]

-- The declarations of the references stay as they are, and fuel does not run out.
abbrev settled : (ℕ → Option Decl) → Contract
settled decls = record {
  Inv = λ s. s.node_decl ≡ decls;
  Rel = Same;
  Here = λ i s. 0 < length s.scopes;
  Admits = λ f. Unit;
  Stops = ⊥;
  rel_refl = λ s h. (refl, omega arith);
  rel_trans = λ s t u g h. (h.0 ∙ g.0, omega (arith, g.1, h.1));
  rel_inv = λ s t h g. g.0 ∙ h;
  rel_here = λ i s t g h. omega (arith, g.1, h);
  has_global = λ s h. global_first s.scopes h;
  admits_assertion = tt;
  admits_null = tt;
  enters = λ k id ls s inv h. enter-Same k id ls s h;
}

module _ (decls : ℕ → Option Decl) where
  request-Meets :
      (ls : ℕ) (f : TypeContext → Option (QualType × TypeContext))
      → ((c c' : TypeContext) (q : QualType) → f c ≡ some (q, c') → IsImmutable q)
      → Meets (settled decls) ls IsImmutable (with_types? f)
  request-Meets ls f h = record {
    at = λ s inv here. elim (Option-cases (f s.types)) [
      | inl e ↦ Good-eq (settled decls) IsImmutable s (with_types?-eq_none Unit ls f s e) tt
      | inr ((q, c), e) ↦
          Good-eq (settled decls) IsImmutable s (with_types?-eq_some Unit ls f s q c e)
            ((refl, omega arith), h s.types c q e)
    ];
  }

  settled-Materialises : Materialises (settled decls)
  unfolding emit set_type with_types
  settled-Materialises = record {
    emits = λ ls d. record { at = λ s inv here. ((refl, omega arith), tt) };
    sets = λ ls i q. record { at = λ s inv here. ((refl, omega arith), tt) };
    interns = λ ls n. record {
      at = λ s inv here. ((refl, omega arith), (intern_type-grows n s.types).1);
    };
    points = λ ls q.
        request-Meets ls (get_pointer_type q) (λ c c' a e. (get_pointer_type-grows q c c' a e).1);
    arrays = λ ls q.
        request-Meets ls (get_array_type q) (λ c c' a e. (get_array_type-grows q c c' a e).1);
    admits_unreachable = tt;
  }

  get_decl_node-Meets :
      (ls i : ℕ) → Meets (settled decls) ls (λ (o : Option Decl). o ≡ decls i) (get_decl_node i)
  unfolding get_decl_node
  get_decl_node-Meets ls i = record {
    at = λ s inv here. ((refl, omega arith), ap (λ (f : ℕ → Option Decl). f i) inv);
  }

module _ (P Q : Node → Type 0) (f : (n : Node) → P n → Q n) where
  mutual
    unfolding AllRefs

    AllRefs-mono : (t : AstType) → AllRefs P t → AllRefs Q t
    AllRefs-mono (builtin_type n t) h = tt
    AllRefs-mono (decl_type_ref n k) h = f n h
    AllRefs-mono (access_type n k t) h = AllRefs-mono t h
    AllRefs-mono (qual_type n t) h = AllRefs-mono t h
    AllRefs-mono (pointer_type n t b) h = AllRefs-mono t h
    AllRefs-mono (array_type n t) h = AllRefs-mono t h
    AllRefs-mono (function_type n ps r) h = (AllRefsTypes-mono ps h.0, AllRefs-mono r h.1)
    AllRefs-mono (object_type n fs) h = AllRefsFields-mono fs h
    AllRefs-mono (enum_type n ms) h = AllRefsMembers-mono ms h

    AllRefsTypes-mono : (ts : AstTypes) → AllRefsTypes P ts → AllRefsTypes Q ts
    AllRefsTypes-mono no_types h = tt
    AllRefsTypes-mono (type_cons t ts) h = (AllRefs-mono t h.0, AllRefsTypes-mono ts h.1)

    AllRefsFields-mono : (fs : AstFields) → AllRefsFields P fs → AllRefsFields Q fs
    AllRefsFields-mono no_fields h = tt
    AllRefsFields-mono (field k t fs) h = (AllRefs-mono t h.0, AllRefsFields-mono fs h.1)

    AllRefsMembers-mono : (ms : AstMembers) → AllRefsMembers P ms → AllRefsMembers Q ms
    AllRefsMembers-mono no_members h = tt
    AllRefsMembers-mono (member k t ms) h = (AllRefs-mono t h.0, AllRefsMembers-mono ms h.1)
    AllRefsMembers-mono (bare_member k ms) h = AllRefsMembers-mono ms h

-- Each alias that a reference stands for has only references of a lower rank.
abbrev pub IsRanked : (ℕ → ℕ) → (ℕ → Option Decl) → Type 0
IsRanked rank decls =
    (i : ℕ) (h : DeclHead) (t : AstType)
    → decls i ≡ some (use_decl h)
    → h.type ≡ some t
    → AllRefs (λ m. rank m.id < rank i) t

module _ (decls : ℕ → Option Decl) (rank : ℕ → ℕ) (ranked : IsRanked rank decls) where
  abbrev Below : ℕ → Node → Type 0
  Below fuel n = rank n.id < fuel

  lower-Follows :
      (fuel : ℕ) (follow : Node → ℕ → Exec QualType)
      (follows : (ls : ℕ) (n : Node)
        → Below fuel n
        → Meets (settled decls) ls IsImmutable (follow n ls))
      (i : ℕ) (d : Decl)
      → rank i < suc fuel
      → decls i ≡ some d
      → Follows (settled decls) (settled-Materialises decls) (Below fuel) follow follows d
  lower-Follows fuel follow follows i (use_decl h) lt e = λ t k.
      AllRefs-mono (λ m. rank m.id < rank i) (Below fuel) (λ m l. omega arith) t (ranked i h t e k)
  lower-Follows fuel follow follows i (var_decl h x) lt e = tt
  lower-Follows fuel follow follows i (type_decl h) lt e = tt
  lower-Follows fuel follow follows i (impl_decl h fs) lt e = tt
  lower-Follows fuel follow follows i (func_decl f) lt e = tt
  lower-Follows fuel follow follows i (param_decl p) lt e = tt

  follow_found :
      (fuel : ℕ)
      (follows : (ls : ℕ) (n : Node)
        → Below fuel n
        → Meets (settled decls) ls IsImmutable (follow_ref fuel n ls))
      (ls : ℕ) (n : Node) (o : Option Decl)
      → rank n.id < suc fuel
      → o ≡ decls n.id
      → Meets (settled decls) ls IsImmutable (elim o as (λ x. Exec QualType) [
        | none ↦ pure unknown
        | some d ↦ follow_decl (follow_ref fuel) n d ls
      ])
  follow_found fuel follows ls n none lt e = Meets-pure (settled decls) unknown refl
  follow_found fuel follows ls n (some d) lt e =
      follow_decl-Meets (settled decls) (settled-Materialises decls) (Below fuel) (follow_ref fuel)
        follows ls n d (lower-Follows fuel (follow_ref fuel) follows n.id d lt (sym e))

  follow_ref-Meets :
      (fuel ls : ℕ) (n : Node)
      → Below fuel n
      → Meets (settled decls) ls IsImmutable (follow_ref fuel n ls)
  unfolding follow_ref
  follow_ref-Meets zero ls n h = elim h [ ]
  follow_ref-Meets (suc fuel) ls n h =
      Meets-bind (settled decls) (get_decl_node-Meets decls ls n.id)
        (λ o e. follow_found fuel (follow_ref-Meets fuel) ls n o h e)

  not_stopped :
      (s : Sema) (o : Outcome QualType) → GoodOf (settled decls) IsImmutable s o → o ≢ out_of_fuel
  not_stopped s (done q t) g = λ e. cc
  not_stopped s (fault f) g = λ e. cc
  not_stopped s out_of_fuel g = elim g [ ]

  -- Where each alias that a reference stands for has only references of a lower rank, fuel above the
  -- rank of a reference is enough to materialise it, in every state with a scope.
  pub follow_ref-fuel :
      (fuel ls : ℕ) (n : Node) (s : Sema)
      → rank n.id < fuel
      → s.node_decl ≡ decls
      → 0 < length s.scopes
      → follow_ref fuel n ls s ≢ out_of_fuel
  follow_ref-fuel fuel ls n s lt same here =
      not_stopped s (follow_ref fuel n ls s) ((follow_ref-Meets fuel ls n lt).at s same here)
