-- ===== src/Passes/Overloads/Distinct.antt =====
-- compiler/lib/Sema/ForwardDeclareFunctions.cpp: the loop over the overloads, and their parameter types.
use supreme_doodle.Common.{
  ◌≡◌, ◌≢◌, ◌↔◌, refl, sym, ap, ◌∙◌, Bool, true, false, none, some, List, [], ◌∷◌, ◌++◌, Bool-cases,
  Option-cases, inl, inr,
}
use supreme_doodle.Types.{QualType, is_unknown, quals_eq, TypeContext, as_func}
use supreme_doodle.Types.Equality.{quals_eq_refl, eq_of_quals_eq}
use supreme_doodle.Ast.{
  AstType, node_of, Decl, Func, func_head, func_decl, var_decl, type_decl, use_decl, impl_decl,
  param_decl,
}
use supreme_doodle.Basic.{located, error, note, same_parameters, previously_declared}
use supreme_doodle.Sema.{Sema, Exec, done, and_then, emit, get_type, get_types}
use supreme_doodle.Passes.Overloads.{declared_type, report_overload, same_params, check_overloads}

-- the declared type of the function is known, and a function type with these parameter types
abbrev pub HasParams : Sema → Func → List QualType → Type 0
HasParams s f ps =
    (t : AstType) × ((func_head f).type ≡ some t)
    × (as_func s.types (s.node_type (node_of t).id) ≡ some ps)

-- each declaration is a function with the listed parameter types
abbrev pub AllHaveParams : Sema → List Decl → List (List QualType) → Type 0
AllHaveParams s [] [] = Unit
AllHaveParams s (func_decl g ∷ ds) (qs ∷ qss) = HasParams s g qs × AllHaveParams s ds qss
AllHaveParams s _ _ = ⊥

abbrev pub Differs : List QualType → List (List QualType) → Type 0
Differs ps [] = Unit
Differs ps (qs ∷ qss) = (qs ≢ ps) × Differs ps qss

declared_type-eq :
    (s : Sema) (f : Func) (t : AstType)
    → (func_head f).type ≡ some t
    → declared_type (func_head f) s ≡ done (s.node_type (node_of t).id) s
unfolding declared_type get_type
declared_type-eq s f t h = rw (h, declared_type) refl

is_unknown-as_func :
    (c : TypeContext) (q : QualType) (ps : List QualType)
    → as_func c q ≡ some ps
    → is_unknown q ≡ false
is_unknown-as_func c q ps h = elim (Option-cases q.ty) [
  | inl e ↦ absurd (none_ne_some (sym (rw (e, as_func) refl) ∙ h))
  | inr (p, e) ↦ rw (e, is_unknown) refl
]
  where
    none_ne_some : {A : Type 0} {a : A} → ¬ (none ≡ some a)
    none_ne_some h = cc

same_params-eq :
    (c : TypeContext) (our other : QualType) (ps qs : List QualType) (s : Sema)
    → as_func c our ≡ some ps
    → as_func c other ≡ some qs
    → same_params c our other s ≡ done (quals_eq qs ps) s
unfolding same_params
same_params-eq c our other ps qs s e f = rw (f, same_params) (rw e refl)

true_ne_false : true ≢ false
true_ne_false h = cc

module _ (s : Sema) (f : Func) (ps : List QualType) (ours : HasParams s f ps) where
  -- one round of the loop
  check_overloads-step :
      (g : Func) (ds : List Decl) (qs : List QualType)
      → HasParams s g qs
      → check_overloads f (func_decl g ∷ ds) s
        ≡ (elim (quals_eq qs ps) as (λ same. Exec Bool) [
          | true ↦ report_overload same_parameters (func_head f) (func_decl g)
          | false ↦ check_overloads f ds
        ])
            s
  unfolding check_overloads get_types
  check_overloads-step g ds qs (u, e, h) =
      let (t, d, k) = ours in
      rw (declared_type-eq s f t d, check_overloads)
        (rw (is_unknown-as_func s.types (s.node_type (node_of t).id) ps k, and_then)
          (rw (declared_type-eq s g u e, and_then)
            (rw
              (
                same_params-eq s.types (s.node_type (node_of t).id) (s.node_type (node_of u).id) ps
                    qs s k h,
                and_then,
              )
              refl)))

  abbrev pub Answers : List Decl → List (List QualType) → Type 0
  Answers ds qss =
      (b : Bool) × (t : Sema) × (check_overloads f ds s ≡ done b t)
      × ((b ≡ true) ↔ Differs ps qss)
      × ((b ≡ true) → t ≡ s)

  refuses :
      (g : Func) (ds : List Decl) (qs : List QualType) (qss : List (List QualType))
      → HasParams s g qs
      → quals_eq qs ps ≡ true
      → Answers (func_decl g ∷ ds) (qs ∷ qss)
  unfolding report_overload emit
  refuses g ds qs qss h same = (
    false,
    record s {
      diags =
          (s.diags ++ located error same_parameters (func_head f).decl_loc ∷ [])
          ++ located note previously_declared (func_head g).decl_loc ∷ [];
    },
    check_overloads-step g ds qs h ∙ rw same refl,
    (λ e. cc, λ d. absurd (d.0 (eq_of_quals_eq qs ps same))),
    λ e. cc,
  )

  goes_on :
      (g : Func) (ds : List Decl) (qs : List QualType) (qss : List (List QualType))
      → HasParams s g qs
      → quals_eq qs ps ≡ false
      → Answers ds qss
      → Answers (func_decl g ∷ ds) (qs ∷ qss)
  goes_on g ds qs qss h other (b, t, e, (to, from), same) = (
    b,
    t,
    check_overloads-step g ds qs h ∙ rw other e,
    (
      λ k. (
        λ q.
            absurd
              (true_ne_false (sym (quals_eq_refl ps) ∙ ap (λ xs. quals_eq xs ps) (sym q) ∙ other)),
        to k,
      ),
      λ d. from d.1,
    ),
    same,
  )

  -- Where the function and all earlier declarations of its name are functions whose declared types are
  -- function types, the loop ends without a fault. Its answer is yes exactly when no earlier one has
  -- the same parameter types, and then it changes nothing.
  pub check_overloads-answers :
      (ds : List Decl) (qss : List (List QualType)) → AllHaveParams s ds qss → Answers ds qss
  unfolding check_overloads
  check_overloads-answers [] [] h = (true, s, refl, (λ e. tt, λ d. refl), λ e. refl)
  check_overloads-answers (func_decl g ∷ ds) (qs ∷ qss) (h, hs) =
      elim (Bool-cases (quals_eq qs ps)) [
        | inl e ↦ refuses g ds qs qss h e
        | inr e ↦ goes_on g ds qs qss h e (check_overloads-answers ds qss hs)
      ]
  check_overloads-answers [] (qs ∷ qss) h = elim h [ ]
  check_overloads-answers (func_decl g ∷ ds) [] h = elim h [ ]
  check_overloads-answers (var_decl d e ∷ ds) qss h = elim h [ ]
  check_overloads-answers (type_decl d ∷ ds) qss h = elim h [ ]
  check_overloads-answers (use_decl d ∷ ds) qss h = elim h [ ]
  check_overloads-answers (impl_decl d fs ∷ ds) qss h = elim h [ ]
  check_overloads-answers (param_decl p ∷ ds) qss h = elim h [ ]
