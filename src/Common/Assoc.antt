-- ===== src/Common/Assoc.antt =====
-- Association lists keyed by text, in insertion order: the model of `llvm::StringMap`.
use Prim.Native.String.{String}
use mathlib.Core.Path.{◌≡◌, refl}
use mathlib.Core.Bool.{Bool, true, false}
use mathlib.Core.List.{List, [], ◌∷◌}
use mathlib.Core.Option.{Option, none, some}
use native.Mathlib.Omega.{arith}
use text.Mathlib.Text.{◌==◌}
use text.Mathlib.TextEquality.{eq_iff}
use supreme_doodle.Common.Tests.{if◌then◌else◌}

module _ {ℓ} {Value : Type ℓ} where
  abbrev pub lookup : String → List (String × Value) → Option Value
  lookup name [] = none
  lookup name ((other, value) ∷ table) = if other == name then some value else lookup name table

  abbrev pub contains : String → List (String × Value) → Bool
  contains name table = elim (lookup name table) [ none ↦ false | some _ ↦ true ]

  -- `table[name] = value`; a name that is there keeps its place
  abbrev pub insert : String → Value → List (String × Value) → List (String × Value)
  insert name value [] = (name, value) ∷ []
  insert name value ((other, old) ∷ table) =
      if other == name then (other, value) ∷ table else (other, old) ∷ insert name value table

  -- What is found under a name after a write under another one, or the same.
  pub lookup-insert :
      (written asked : String) (value : Value) (table : List (String × Value))
      → lookup asked (insert written value table)
        ≡ (if written == asked then some value else lookup asked table)
  lookup-insert written asked value [] = refl
  lookup-insert written asked value ((other, old) ∷ table) =
      let rest = lookup-insert written asked value table in
      ground (arith, rest, eq_iff other written, eq_iff other asked, eq_iff written asked)
