-- ===== src/Tests/Graph.antt =====
-- A witness of the theorem on the files that are analysed.
use mathlib.Core.Path.{subst}
use supreme_doodle.Common.{
  ◌≡◌, refl, sym, ◌∙◌, ap, true, false, Option, none, some, List, [], ◌∷◌, String, str_eq,
  str_eq_iff, Bool-cases, inl, inr,
}
use supreme_doodle.Common.{Bool}
use supreme_doodle.Frontend.{TranslationUnit, Frontend, member, unit_at}
use supreme_doodle.Frontend.Order.{visit_order}
use supreme_doodle.Frontend.Reached.{flat}
use supreme_doodle.Frontend.Graph.{
  PathOrder, IsPathOrder, get_entry_node, Imports, itself, FromEntry, children,
  visit_order-not_imported,
}
use supreme_doodle.Tests.Frontend.{first}
use supreme_doodle.Tests.Parser.{fresh}

-- an order in which "/a" is the least path
abbrev before : Bool → Bool → Bool
before true true = false
before true false = true
before false b = false

abbrev a_first : PathOrder
a_first p q = before (str_eq p "/a") (str_eq q "/a")

before_self : (a : Bool) → before a a ≡ false
before_self true = refl
before_self false = refl

before_back : (a b : Bool) → before a b ≡ true → before b a ≡ false
before_back true true h = refl
before_back true false h = refl
before_back false b h = cc

before_chained : (a b c : Bool) → before a b ≡ false → before b c ≡ false → before a c ≡ false
before_chained true true c h k = k
before_chained true false c h k = cc
before_chained false b c h k = refl

a_first-IsPathOrder : IsPathOrder a_first
a_first-IsPathOrder = record {
  irreflexive = λ p. before_self (str_eq p "/a");
  asymmetric = λ p q h. before_back (str_eq p "/a") (str_eq q "/a") h;
  chained = λ p q r h k. before_chained (str_eq p "/a") (str_eq q "/a") (str_eq r "/a") h k;
}

abbrev leaf : TranslationUnit
leaf = record { path = "/a"; contents = first; program = none; imported = [] }

-- the root, which imports the other file
abbrev root : TranslationUnit
root = record { path = "/b"; contents = first; program = none; imported = "/a" ∷ [] }

abbrev two_units : Frontend
two_units = record {
  opened = "/b" ∷ "/a" ∷ [];
  units = root ∷ leaf ∷ [];
  queue = [];
  builder = fresh;
}

abbrev alone_in : Option TranslationUnit → List (List String)
alone_in none = []
alone_in (some e) = (e.path ∷ []) ∷ []

-- the components of a graph whose entry node has no edges
abbrev only_entry : List TranslationUnit → List (List String)
only_entry us = alone_in (get_entry_node a_first us)

only_entry-FromEntry : FromEntry a_first only_entry
only_entry-FromEntry us e p at m =
    let there : member p (flat (alone_in (some e))) ≡ true =
      ap (λ o. member p (flat (alone_in o))) (sym at) ∙ m in
    elim (Bool-cases (str_eq e.path p)) [
      | inl f ↦ subst (Imports us e.path) ((str_eq_iff e.path p).0 f) itself
      | inr f ↦ let absent : member p (flat (alone_in (some e))) ≡ false = rw (f) refl in cc
    ]

not_imported :
    (q : String) (u : TranslationUnit)
    → unit_at q two_units.units ≡ some u
    → member "/b" (children u) ≡ false
not_imported q u h = elim (Bool-cases (str_eq "/b" q)) [
  | inl e ↦
      let found : unit_at q two_units.units ≡ some root = rw (e) refl in
      let same : some root ≡ some u = sym found ∙ h in
      ap
        (λ (o : Option TranslationUnit). elim o [
          | none ↦ false
          | some x ↦ member "/b" (children x)
        ])
        (sym same)
  | inr e ↦ elim (Bool-cases (str_eq "/a" q)) [
    | inl f ↦
        let found : unit_at q two_units.units ≡ some leaf = rw (e, f) refl in
        ap
          (λ (o : Option TranslationUnit). elim o [
            | none ↦ false
            | some x ↦ member "/b" (children x)
          ])
          (sym (sym found ∙ h))
    | inr f ↦
        let found : unit_at q two_units.units ≡ none = rw (e, f) refl in
        let no_unit : none ≡ some u = sym found ∙ h in cc
  ]
]

visit_order-not_imported_example :
    member "/b" (visit_order (only_entry two_units.units) (record { files = []; diags = [] })).files
    ≡ false
visit_order-not_imported_example =
    visit_order-not_imported a_first a_first-IsPathOrder only_entry two_units "/b" "/a"
      only_entry-FromEntry not_imported refl refl
