-- ===== src/Passes/Materialize/Cycles.antt =====
-- compiler/lib/Sema/ResolveGlobalTypePass.cpp, `MaterializeType`: the visit of an alias whose declared type
-- leads back to it.
use supreme_doodle.Common.{ℕ, zero, suc, ◌≡◌, refl, some}
use supreme_doodle.Types.{QualType}
use supreme_doodle.Ast.{
  Node, AstType, builtin_type, decl_type_ref, access_type, qual_type, pointer_type, array_type,
  function_type, object_type, enum_type, type_cons, no_types, field, no_fields, member, bare_member,
  no_members, DeclHead, use_decl,
}
use supreme_doodle.Sema.{Sema, Exec, out_of_fuel, get_decl_node}
use supreme_doodle.Visitor.{visit_type}
use supreme_doodle.Passes.Materialize.{materializer, visit_alias, follow_decl, follow_ref}

-- What is visited first in the type is a reference with `P`.
abbrev pub Leads : (ℕ → Type 0) → AstType → Type 0
Leads P (decl_type_ref n k) = P n.id
Leads P (qual_type n t) = Leads P t
Leads P (pointer_type n t b) = Leads P t
Leads P (array_type n t) = Leads P t
Leads P (function_type n (type_cons t ts) r) = Leads P t
Leads P (function_type n no_types r) = Leads P r
Leads P (object_type n (field k t fs)) = Leads P t
Leads P (enum_type n (member k t ms)) = Leads P t
Leads P _ = ⊥

-- Each reference with `P` is resolved to an alias whose type leads to a reference with `P`.
abbrev pub IsCycle : (ℕ → Type 0) → Sema → Type 0
IsCycle P s =
    (i : ℕ)
    → P i
    → (h : DeclHead) × (t : AstType) × (s.node_decl i ≡ some (use_decl h))
      × (h.type ≡ some t)
      × Leads P t

module _ (P : ℕ → Type 0) (s : Sema) (ls : ℕ) where
  module _ (follow : Node → ℕ → Exec QualType)
      (diverges : (n : Node) → P n.id → follow n ls s ≡ out_of_fuel) where
    visit_diverges :
        (t : AstType) → Leads P t → visit_type (materializer follow) t ls s ≡ out_of_fuel
    unfolding visit_type materializer
    visit_diverges (decl_type_ref n k) h = diverges n h
    visit_diverges (qual_type n t) h = rw (visit_diverges t h)
    visit_diverges (pointer_type n t b) h = rw (visit_diverges t h)
    visit_diverges (array_type n t) h = rw (visit_diverges t h)
    visit_diverges (function_type n (type_cons t ts) r) h = rw (visit_diverges t h)
    visit_diverges (function_type n no_types r) h = rw (visit_diverges r h)
    visit_diverges (object_type n (field k t fs)) h = rw (visit_diverges t h)
    visit_diverges (enum_type n (member k t ms)) h = rw (visit_diverges t h)
    visit_diverges (builtin_type n t) h = elim h [ ]
    visit_diverges (access_type n k t) h = elim h [ ]
    visit_diverges (object_type n no_fields) h = elim h [ ]
    visit_diverges (enum_type n no_members) h = elim h [ ]
    visit_diverges (enum_type n (bare_member k ms)) h = elim h [ ]

    alias_diverges :
        (h : DeclHead) (t : AstType) (n : Node)
        → h.type ≡ some t
        → Leads P t
        → follow_decl follow n (use_decl h) ls s ≡ out_of_fuel
    unfolding follow_decl visit_alias
    alias_diverges h t n e l = rw (e, visit_diverges t l)

  -- On a cycle of aliases the pass does not end: no amount of fuel is enough for a reference on it.
  pub follow_ref-diverges :
      IsCycle P s → (n : Node) → P n.id → (fuel : ℕ) → follow_ref fuel n ls s ≡ out_of_fuel
  unfolding follow_ref get_decl_node
  follow_ref-diverges cycle n p zero = refl
  follow_ref-diverges cycle n p (suc fuel) =
      let (h, t, e, f, l) = cycle n.id p in
      rw (e, alias_diverges (follow_ref fuel) (λ m q. follow_ref-diverges cycle m q fuel) h t n f l)
