-- ===== src/Frontend/Reached.antt =====
-- compiler/rx-frontend.cpp: the programs that the analysis is given.
use supreme_doodle.Common.{
  ℕ, ◌≤◌, ◌≡◌, refl, ◌∙◌, ap, true, some, List, [], ◌∷◌, ◌++◌, map, String, str_eq_refl, length,
  append-nil, append_assoc, arith,
}
use supreme_doodle.Ast.{ProgramDecl}
use supreme_doodle.Basic.{Diagnostic, unlocated, error, note, import_cycle, part_of_cycle}
use supreme_doodle.Frontend.{
  TranslationUnit, Contents, found, Disk, Frontend, Ran, ran, failed, out_of_fuel, load, member,
  paths_of, unit_at,
}
use supreme_doodle.Frontend.Order.{
  Order, add_cycle, add_component, visit_order, programs_of, programs_in_order,
}
use supreme_doodle.Frontend.Invariant.{All-unit_at}
use supreme_doodle.Frontend.Rounds.{Finite, Ends, EndsOf, Loaded}
use supreme_doodle.Frontend.Ends.{load_ends}

-- the components one after the other
abbrev pub flat : List (List String) → List String
flat [] = []
flat (ps ∷ pss) = ps ++ flat pss

-- An error for a component that is not a single file, and a note for each of its files
unfoldable pub cycle_reports : List String → List Diagnostic
cycle_reports (p ∷ []) = []
cycle_reports ps = unlocated error import_cycle ∷ map (λ p. unlocated note (part_of_cycle p)) ps

unfoldable pub all_reports : List (List String) → List Diagnostic
unfolding cycle_reports
all_reports [] = []
all_reports (ps ∷ pss) = cycle_reports ps ++ all_reports pss

abbrev appended : List String → List Diagnostic → Order → Order
appended ps ds o = record { files = o.files ++ ps; diags = o.diags ++ ds }

add_cycle-eq :
    (ps : List String) (o : Order)
    → add_cycle ps o ≡ appended ps (map (λ p. unlocated note (part_of_cycle p)) ps) o
add_cycle-eq [] o = rw (append-nil o.files, append-nil o.diags) refl
add_cycle-eq (p ∷ ps) o =
    add_cycle-eq ps (appended (p ∷ []) (unlocated note (part_of_cycle p) ∷ []) o)
    ∙ rw
        (
          append_assoc o.files (p ∷ []) ps,
          append_assoc o.diags (unlocated note (part_of_cycle p) ∷ [])
              (map (λ q. unlocated note (part_of_cycle q)) ps),
        )
        refl

cycle-eq :
    (ps : List String) (o : Order)
    → add_cycle ps (record o { diags = o.diags ++ unlocated error import_cycle ∷ [] })
      ≡ appended ps
          (unlocated error import_cycle ∷ map (λ p. unlocated note (part_of_cycle p)) ps)
          o
cycle-eq ps o =
    add_cycle-eq ps (record o { diags = o.diags ++ unlocated error import_cycle ∷ [] })
    ∙ rw
        (append_assoc o.diags (unlocated error import_cycle ∷ [])
          (map (λ q. unlocated note (part_of_cycle q)) ps))
        refl

add_component-eq :
    (ps : List String) (o : Order) → add_component ps o ≡ appended ps (cycle_reports ps) o
unfolding add_component cycle_reports
add_component-eq [] o = cycle-eq [] o
add_component-eq (p ∷ []) o = rw (append-nil o.diags) refl
add_component-eq (p ∷ q ∷ ps) o = cycle-eq (p ∷ q ∷ ps) o

-- The order of visits is the components one after the other, and what is reported is, for each component
-- that is not a single file, an error and a note for each of its files, in that order.
pub visit_order-flat :
    (pss : List (List String)) (o : Order)
    → visit_order pss o ≡ record { files = o.files ++ flat pss; diags = o.diags ++ all_reports pss }
unfolding visit_order all_reports
visit_order-flat [] o = rw (append-nil o.files, append-nil o.diags) refl
visit_order-flat (ps ∷ pss) o =
    ap (visit_order pss) (add_component-eq ps o)
    ∙ visit_order-flat pss (appended ps (cycle_reports ps) o)
    ∙ rw
        (
          append_assoc o.files ps (flat pss),
          append_assoc o.diags (cycle_reports ps) (all_reports pss),
        )
        refl

programs_of-unit :
    (us : List TranslationUnit) (p : String) (ps : List String) (u : TranslationUnit)
    (d : ProgramDecl) (ds : List ProgramDecl)
    → unit_at p us ≡ some u
    → u.program ≡ some d
    → programs_of us ps ≡ some ds
    → programs_of us (p ∷ ps) ≡ some (d ∷ ds)
unfolding programs_of
programs_of-unit us p ps u d ds x y z = rw (x, z, y, programs_of) refl

programs_of-some :
    (root : String) (s : Frontend) (ps : List String)
    → Loaded root s
    → ((p : String) → member p ps ≡ true → member p (paths_of s.units) ≡ true)
    → (ds : List ProgramDecl) × (programs_of s.units ps ≡ some ds)
unfolding programs_of
programs_of-some root s [] l h = ([], refl)
programs_of-some root s (p ∷ ps) l h =
    let u = All-unit_at p s.units l.units (h p (rw (str_eq_refl p) refl)) in
    let d = u.2.0 in
    let rest = programs_of-some root s ps l (λ q m. h q (ground (arith, m))) in
    (d.0 ∷ rest.0, programs_of-unit s.units p ps u.0 d.0 rest.0 u.1 d.1 rest.1)

ran_of :
    (root : String) (r : Ran) → Ends r (Loaded root) → (s : Frontend) × (r ≡ ran s) × Loaded root s
unfolding EndsOf
ran_of root (ran s) e = (s, refl, e.holds)
ran_of root (failed x) e = absurd e.holds
ran_of root out_of_fuel e = absurd e.holds

-- Where a finite list of paths has the root and is closed under the imports of files that can be opened, all of
-- complete parse trees, and the components are of the table's files, the analysis gets a program for every file of every component: no unit without a syntax tree is asked for it.
pub analysis_reached :
    (disk : Disk) (all : List String) (fuel : ℕ) (root : String) (c : Contents)
    (components : List TranslationUnit → List (List String))
    → Finite disk root all
    → length all ≤ fuel
    → disk.get_file root ≡ found c
    → ((us : List TranslationUnit) (p : String)
        → member p (flat (components us)) ≡ true
        → member p (paths_of us) ≡ true)
    → (s : Frontend) × (load disk fuel root ≡ some (ran s))
      × ((ds : List ProgramDecl) × (programs_in_order components s ≡ some ds))
unfolding programs_in_order
analysis_reached disk all fuel root c components fin enough h graph =
    let (r, e, l) = load_ends disk all fuel root c fin enough h in
    let (s, at_s, loaded) = ran_of root r l in
    (
      s,
      e ∙ ap some at_s,
      rw (visit_order-flat (components s.units) (record { files = []; diags = s.builder.diags }))
          (programs_of-some root s (flat (components s.units)) loaded (graph s.units)),
    )
