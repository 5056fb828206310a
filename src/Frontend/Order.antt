-- ===== src/Frontend/Order.antt =====
-- compiler/rx-frontend.cpp: the order of the programs, from the strongly connected components of the import graph,
-- which LLVM computes, and the programs that are given to the analysis.
use supreme_doodle.Common.{Option, none, some, List, [], ◌∷◌, ◌++◌, String}
use supreme_doodle.Ast.{ProgramDecl}
use supreme_doodle.Basic.{Diagnostic, unlocated, error, note, import_cycle, part_of_cycle}
use supreme_doodle.Frontend.{TranslationUnit, Frontend, unit_at}

-- `BestEffortVisitOrder`, and the diagnostics
pub record Order : Type 0 where
  pub files : List String
  pub diags : List Diagnostic

-- the loop over a component that is a cycle
abbrev pub add_cycle : List String → Order → Order
add_cycle [] o = o
add_cycle (p ∷ ps) o =
    add_cycle ps (record {
      files = o.files ++ p ∷ [];
      diags = o.diags ++ unlocated note (part_of_cycle p) ∷ [];
    })

unfoldable pub add_component : List String → Order → Order
add_component (p ∷ []) o = record o { files = o.files ++ p ∷ [] }
add_component ps o =
    add_cycle ps (record o { diags = o.diags ++ unlocated error import_cycle ∷ [] })

unfoldable pub visit_order : List (List String) → Order → Order
unfolding add_component
visit_order [] o = o
visit_order (ps ∷ pss) o = visit_order pss (add_component ps o)

-- `getProgramAST` of the units in an order; `none` is its failed assertion
abbrev pub with_program : Option ProgramDecl → Option (List ProgramDecl) → Option (List ProgramDecl)
with_program none ds = none
with_program (some d) none = none
with_program (some d) (some ds) = some (d ∷ ds)

unfoldable pub programs_of : List TranslationUnit → List String → Option (List ProgramDecl)
programs_of us [] = some []
programs_of us (p ∷ ps) =
    let rest = programs_of us ps in
    elim (unit_at p us) [ none ↦ none | some u ↦ with_program u.program rest ]

-- What `main` gives to the analysis: the programs in their order
unfoldable pub programs_in_order :
    (List TranslationUnit → List (List String)) → Frontend → Option (List ProgramDecl)
unfolding visit_order programs_of
programs_in_order components s =
    programs_of s.units
      (visit_order (components s.units) (record { files = []; diags = s.builder.diags })).files
