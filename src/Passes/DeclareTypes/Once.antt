-- ===== src/Passes/DeclareTypes/Once.antt =====
-- compiler/lib/Sema/ResolveGlobalTypePass.cpp, `ForwardDeclareType`: what a scope holds for a name
-- after a declaration of it.
use supreme_doodle.Common.{
  ℕ, ◌≡◌, refl, sym, ◌∙◌, none, some, List, [], ◌∷◌, ◌++◌, String, get_elem?, set, zero, suc,
  append_assoc, append-nil, lookup, insert, lookup-insert, str_eq_refl, arith, inl, inr, List-cases,
}
use supreme_doodle.Ast.{Decl, DeclHead, head_of}
use supreme_doodle.Basic.{Message, Diagnostic, located, error, note, previously_declared}
use supreme_doodle.Scopes.{LexicalScope, scope_decls, scope_insert}
use supreme_doodle.Sema.{Sema, done, get_decls, insert_decl, emit}
use supreme_doodle.Passes.DeclareTypes.{declare_type, report_redefinition}

-- what a scope holds for a name
abbrev pub decls_at : Sema → ℕ → String → List Decl
decls_at s ls k = elim (get_elem? s.scopes ls) [ none ↦ [] | some sc ↦ scope_decls sc k ]

abbrev pub keep_first : List Decl → Decl → List Decl
keep_first [] d = d ∷ []
keep_first (e ∷ ds) d = e ∷ ds

-- the diagnostics of a second declaration
abbrev pub redefined : List Decl → Message → DeclHead → List Diagnostic
redefined [] m h = []
redefined (e ∷ ds) m h =
    located error m h.decl_loc ∷ located note previously_declared (head_of e).decl_loc ∷ []

get_elem?-set_same :
    {A : Type 0} (xs : List A) (i : ℕ) (v w : A)
    → get_elem? xs i ≡ some w
    → get_elem? (set xs i v) i ≡ some v
get_elem?-set_same [] i v w h = cc
get_elem?-set_same (x ∷ xs) zero v w h = refl
get_elem?-set_same (x ∷ xs) (suc i) v w h = get_elem?-set_same xs i v w h

lookup-insert_same :
    (k : String) (ds : List Decl) (m : List (String × List Decl))
    → lookup k (insert k ds m) ≡ some ds
lookup-insert_same k ds m = ground (arith, lookup-insert k k ds m, str_eq_refl k)

module _ (m : String → Message) (self : Decl) (h : DeclHead) (ls : ℕ) (s : Sema) (sc : LexicalScope)
    (here : get_elem? s.scopes ls ≡ some sc) where
  abbrev added : LexicalScope
  added = record sc { symbols = insert h.name (self ∷ []) sc.symbols }

  get_decls-eq : get_decls ls h.name s ≡ done (scope_decls sc h.name) s
  unfolding get_decls
  get_decls-eq = rw (here, get_decls)

  scope_insert-eq : scope_decls sc h.name ≡ [] → scope_insert sc h.name self ≡ some added
  unfolding scope_insert
  scope_insert-eq f = rw (f, scope_insert)

  insert_decl-eq :
      scope_decls sc h.name ≡ []
      → insert_decl ls h.name self s ≡ done tt (record s { scopes = set s.scopes ls added })
  unfolding insert_decl
  insert_decl-eq f = rw (here, insert_decl) (rw (scope_insert-eq f) refl)

  declare_type-fresh :
      scope_decls sc h.name ≡ []
      → declare_type m self h ls s ≡ done tt (record s { scopes = set s.scopes ls added })
  unfolding declare_type
  declare_type-fresh f = rw (get_decls-eq, declare_type) (rw f (insert_decl-eq f))

  declare_type-again :
      (e : Decl) (ds : List Decl)
      → scope_decls sc h.name ≡ e ∷ ds
      → declare_type m self h ls s
        ≡ done tt (record s { diags = s.diags ++ redefined (e ∷ ds) (m h.name) h })
  unfolding declare_type report_redefinition emit
  declare_type-again e ds f = rw (get_decls-eq, declare_type) (rw f (rw append_assoc refl))

  decls-fresh : decls_at (record s { scopes = set s.scopes ls added }) ls h.name ≡ self ∷ []
  decls-fresh =
      rw (get_elem?-set_same s.scopes ls added sc here, decls_at)
        (rw (lookup-insert_same h.name (self ∷ []) sc.symbols, scope_decls) refl)

  decls-same : decls_at s ls h.name ≡ scope_decls sc h.name
  decls-same = rw (here, decls_at)

  -- A type or alias declaration in a scope that exists never faults. The scope then holds for its name what
  -- it held before if that was something, and the declaration alone otherwise; an error at the declaration
  -- and a note at the first one of that name are appended in the former case, and nothing in the latter.
  pub declare_type-once :
      (t : Sema) × (declare_type m self h ls s ≡ done tt t)
      × (decls_at t ls h.name ≡ keep_first (scope_decls sc h.name) self)
      × (t.diags ≡ s.diags ++ redefined (scope_decls sc h.name) (m h.name) h)
  declare_type-once = elim (List-cases (scope_decls sc h.name)) [
    | inl f ↦ (
      record s { scopes = set s.scopes ls added },
      declare_type-fresh f,
      decls-fresh ∙ rw f,
      rw f (sym (append-nil s.diags)),
    )
    | inr (e, ds, f) ↦ (
      record s { diags = s.diags ++ redefined (e ∷ ds) (m h.name) h },
      declare_type-again e ds f,
      decls-same ∙ rw f,
      rw f,
    )
  ]
