-- ===== src/Frontend/Graph.antt =====
-- compiler/include/rxc/Frontend/TranslationUnitContext.h and TranslationUnit.h: the table of files as a
-- graph of LLVM, whose nodes are the units in the order of their paths and whose edges go to the imported
-- files. The order of paths is LLVM's and a parameter.
use supreme_doodle.Common.{
  ◌≡◌, refl, ◌∙◌, ap, Bool, true, false, ◌||◌, Option, none, some, List, [], ◌∷◌, String, str_eq,
  str_eq_refl, str_eq_iff, if◌then◌else◌, Bool-cases, inl, inr, ◌⊎◌,
}
use mathlib.Core.Path.{subst}
use supreme_doodle.Frontend.{TranslationUnit, Frontend, member, unit_at, paths_of}
use supreme_doodle.Frontend.Order.{Order, visit_order}
use supreme_doodle.Frontend.Reached.{flat, visit_order-flat}

abbrev pub PathOrder : Type 0
PathOrder = String → String → Bool

-- the unit of the least path
abbrev pub first_of : PathOrder → TranslationUnit → List TranslationUnit → TranslationUnit
first_of less u [] = u
first_of less u (v ∷ vs) = first_of less (if less v.path u.path then v else u) vs

-- `getEntryNode`; `none` is its failed assertion
unfoldable pub get_entry_node : PathOrder → List TranslationUnit → Option TranslationUnit
get_entry_node less [] = none
get_entry_node less (u ∷ us) = some (first_of less u us)

-- `child_begin` to `child_end`
abbrev pub children : TranslationUnit → List String
children u = u.imported

-- A file is reached from another along the imports of units of the table.
pub data Imports (us : List TranslationUnit) (p : String) : String → Type 0 where
  itself : Imports us p p
  along :
      {q r : String} (u : TranslationUnit)
      → Imports us p q
      → unit_at q us ≡ some u
      → member r (children u) ≡ true
      → Imports us p r

no_import :
    {us : List TranslationUnit} {p r : String}
    → ((q : String) (u : TranslationUnit) → unit_at q us ≡ some u → member r (children u) ≡ false)
    → str_eq p r ≡ false
    → Imports us p r
    → ⊥
no_import {p = p} alone apart itself = let same = str_eq_refl p in cc
no_import alone apart (along {q} u path at m) = let not_there = alone q u at in cc

-- The components are computed from the entry node, so they have only files that are reached from it.
abbrev pub FromEntry : PathOrder → (List TranslationUnit → List (List String)) → Type 0
FromEntry less components =
    (us : List TranslationUnit) (e : TranslationUnit) (p : String)
    → get_entry_node less us ≡ some e
    → member p (flat (components us)) ≡ true
    → Imports us e.path p

-- the strict order of paths
pub record IsPathOrder (less : PathOrder) : Type 0 where
  pub irreflexive : (p : String) → less p p ≡ false
  pub asymmetric : (p q : String) → less p q ≡ true → less q p ≡ false
  pub chained : (p q r : String) → less p q ≡ false → less q r ≡ false → less p r ≡ false

module _ (less : PathOrder) (order : IsPathOrder less) where
  -- the first of two is not above the second
  earlier : TranslationUnit → TranslationUnit → TranslationUnit
  earlier u v = if less v.path u.path then v else u

  earlier-le :
      (u v : TranslationUnit)
      → (less u.path (earlier u v).path ≡ false) × (less v.path (earlier u v).path ≡ false)
  unfolding earlier
  earlier-le u v = elim (Bool-cases (less v.path u.path)) [
    | inl e ↦ (rw (e) (order.asymmetric v.path u.path e), rw (e) (order.irreflexive v.path))
    | inr e ↦ (rw (e) (order.irreflexive u.path), rw (e) e)
  ]

  first_of-le :
      (u : TranslationUnit) (us : List TranslationUnit)
      → (less u.path (first_of less u us).path ≡ false)
        × ((q : String) → member q (paths_of us) ≡ true → less q (first_of less u us).path ≡ false)
  unfolding earlier
  first_of-le u [] = (order.irreflexive u.path, λ q m. cc)
  first_of-le u (v ∷ vs) =
      let least = first_of-le (earlier u v) vs in
      let first = first_of less (earlier u v) vs in
      let both = earlier-le u v in
      (
        order.chained u.path (earlier u v).path first.path both.0 least.0,
        λ q m. elim (Bool-cases (str_eq v.path q)) [
          | inl e ↦
              subst (λ p. less p first.path ≡ false) ((str_eq_iff v.path q).0 e)
                (order.chained v.path (earlier u v).path first.path both.1 least.0)
          | inr e ↦ least.1 q (subst (λ b. (b || member q (paths_of vs)) ≡ true) e m)
        ],
      )

  get_entry_node-le :
      (us : List TranslationUnit) (e : TranslationUnit) (q : String)
      → get_entry_node less us ≡ some e
      → member q (paths_of us) ≡ true
      → less q e.path ≡ false
  unfolding get_entry_node
  get_entry_node-le [] e q at m = cc
  get_entry_node-le (u ∷ us) e q at m =
      let least = first_of-le u us in
      let below : less q (first_of less u us).path ≡ false = elim (Bool-cases (str_eq u.path q)) [
        | inl f ↦
            subst (λ p. less p (first_of less u us).path ≡ false) ((str_eq_iff u.path q).0 f)
              least.0
        | inr f ↦ least.1 q (subst (λ b. (b || member q (paths_of us)) ≡ true) f m)
      ] in
      subst
        (λ (o : Option TranslationUnit). elim o as (λ x. Type 0) [
          | none ↦ Unit
          | some x ↦ less q x.path ≡ false
        ])
        at below

  entry_node_of :
      (us : List TranslationUnit) (q : String)
      → member q (paths_of us) ≡ true
      → (e : TranslationUnit) × (get_entry_node less us ≡ some e)
  unfolding get_entry_node
  entry_node_of [] q m = cc
  entry_node_of (u ∷ us) q m = (first_of less u us, refl)

  -- Where paths are ordered and the components have only files that are reached from the entry node, a file that no
  -- file of the table imports is not in the order of visits, as soon as the table has a file of a lesser path.
  pub visit_order-not_imported :
      (components : List TranslationUnit → List (List String)) (s : Frontend) (p q : String)
      → FromEntry less components
      → ((r : String) (u : TranslationUnit)
          → unit_at r s.units ≡ some u
          → member p (children u) ≡ false)
      → member q (paths_of s.units) ≡ true
      → less q p ≡ true
      → member p
          (visit_order (components s.units) (record { files = []; diags = s.builder.diags })).files
        ≡ false
  visit_order-not_imported components s p q from_entry alone there lesser =
      ap (λ (o : Order). member p o.files)
        (visit_order-flat (components s.units) (record { files = []; diags = s.builder.diags }))
      ∙ absent (Bool-cases (member p (flat (components s.units))))
    where
      apart : (e : TranslationUnit) → less q e.path ≡ false → str_eq e.path p ≡ false
      apart e above = elim (Bool-cases (str_eq e.path p)) [
        | inl f ↦
            let clash : less q p ≡ false =
              subst (λ x. less q x ≡ false) ((str_eq_iff e.path p).0 f) above in
            cc
        | inr f ↦ f
      ]

      absent :
          (member p (flat (components s.units)) ≡ true)
            ⊎ (member p (flat (components s.units)) ≡ false)
          → member p (flat (components s.units)) ≡ false
      absent (inl listed) =
          let (e, at) = entry_node_of s.units q there in
          let above : less q e.path ≡ false = get_entry_node-le s.units e q at there in
          absurd (no_import alone (apart e above) (from_entry s.units e p at listed))
      absent (inr f) = f
