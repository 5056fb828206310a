-- ===== src/Frontend/Ahead.antt =====
-- compiler/lib/Frontend/TranslationUnitContext.cpp: a table of files to which units and imports are added.
use supreme_doodle.Common.{
  ◌≡◌, refl, sym, true, false, ◌||◌, Option, none, some, List, [], ◌∷◌, String, str_eq, str_eq_iff,
  arith, Bool-cases, inl, inr,
}
use mathlib.Core.Path.{subst}
use supreme_doodle.Frontend.{
  TranslationUnit, Contents, member, paths_of, update_at, unit_at, push_imported, new_unit,
}
use supreme_doodle.Frontend.Paths.{member-append_last}
use supreme_doodle.Frontend.Graph.{Imports, itself, along}

-- Every unit is still there, with at least its imported files.
abbrev pub Ahead : List TranslationUnit → List TranslationUnit → Type 0
Ahead us vs =
    (q : String) (u : TranslationUnit)
    → unit_at q us ≡ some u
    → (v : TranslationUnit) × (unit_at q vs ≡ some v)
      × ((r : String) → member r u.imported ≡ true → member r v.imported ≡ true)

pub Imports-Ahead :
    {us vs : List TranslationUnit} {p r : String} → Ahead us vs → Imports us p r → Imports vs p r
Imports-Ahead a itself = itself
Imports-Ahead a (along {q} u path at m) =
    let next = a q u at in along next.0 (Imports-Ahead a path) next.1 (next.2 _ m)

pub member-unit_at :
    (q : String) (us : List TranslationUnit) (u : TranslationUnit)
    → unit_at q us ≡ some u
    → member q (paths_of us) ≡ true
member-unit_at q [] u e = cc
member-unit_at q (v ∷ us) u e = let rest = member-unit_at q us u in ground arith

-- a change of the unit at a path, which keeps its path and its imports
module _ (f : TranslationUnit → TranslationUnit)
    (same_path : (u : TranslationUnit) → (f u).path ≡ u.path)
    (keeps : (u : TranslationUnit) (r : String)
      → member r u.imported ≡ true
      → member r (f u).imported ≡ true) where
  pub update_at-Ahead : (p : String) (us : List TranslationUnit) → Ahead us (update_at f p us)
  update_at-Ahead p [] q u e = cc
  update_at-Ahead p (v ∷ us) q u e = elim (Bool-cases (str_eq v.path p)) [
    | inl c ↦ elim (Bool-cases (str_eq v.path q)) [
      | inl d ↦
          let is_v : some v ≡ some u = rw d at e in
          (
            f v,
            rw (c, same_path v, d) refl,
            λ r m. keeps v r (
                subst
                  (λ (o : Option TranslationUnit).
                    elim o [ none ↦ false | some x ↦ member r x.imported ] ≡ true)
                  (sym is_v) m),
          )
      | inr d ↦
          let later : unit_at q us ≡ some u = rw d at e in
          let rest = update_at-Ahead p us q u later in
          (rest.0, rw (c, same_path v, d) rest.1, rest.2)
    ]
    | inr c ↦ elim (Bool-cases (str_eq v.path q)) [
      | inl d ↦
          let is_v : some v ≡ some u = rw d at e in
          (
            v,
            rw (c, d) refl,
            λ r m.
                subst
                  (λ (o : Option TranslationUnit).
                    elim o [ none ↦ false | some x ↦ member r x.imported ] ≡ true)
                  (sym is_v) m,
          )
      | inr d ↦
          let later : unit_at q us ≡ some u = rw d at e in
          let rest = update_at-Ahead p us q u later in (rest.0, rw (c, d) rest.1, rest.2)
    ]
  ]

pub new_unit-Ahead :
    (p : String) (c : Contents) (us : List TranslationUnit)
    → member p (paths_of us) ≡ false
    → Ahead us (new_unit p c ∷ us)
new_unit-Ahead p c us absent q u e =
    let there = member-unit_at q us u e in
    let other : str_eq p q ≡ false = elim (Bool-cases (str_eq p q)) [
      | inl s ↦
          let clash : member p (paths_of us) ≡ true =
            subst (λ x. member x (paths_of us) ≡ true) (sym ((str_eq_iff p q).0 s)) there in
          cc
      | inr s ↦ s
    ] in
    (u, rw (other) e, λ r m. m)

pub pushed_at :
    (unit p : String) (us : List TranslationUnit)
    → member unit (paths_of us) ≡ true
    → (u : TranslationUnit) × (unit_at unit (update_at (push_imported p) unit us) ≡ some u)
      × (member p u.imported ≡ true)
pushed_at unit p [] e = cc
pushed_at unit p (v ∷ us) e = elim (Bool-cases (str_eq v.path unit)) [
  | inl c ↦ (push_imported p v, rw (c, c) refl, member-append_last p v.imported)
  | inr c ↦
      let later : member unit (paths_of us) ≡ true =
        subst (λ b. (b || member unit (paths_of us)) ≡ true) c e in
      let rest = pushed_at unit p us later in (rest.0, rw (c, c) rest.1, rest.2)
]
