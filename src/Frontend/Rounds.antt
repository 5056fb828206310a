-- ===== src/Frontend/Rounds.antt =====
-- compiler/lib/Frontend/TranslationUnitContext.cpp: the rounds of the traversal of the imports.
use supreme_doodle.Common.{
  ℕ, zero, suc, ◌+◌, ◌≤◌, ◌≡◌, refl, sym, Bool, true, false, some, List, [], ◌∷◌, ◌++◌, String,
  Option, none, ap, ◌∙◌, Bool-cases, str_eq, str_eq_iff, str_eq_refl, arith, Option-cases, inl, inr,
  length,
}
use mathlib.Core.Path.{subst}
use supreme_doodle.Ast.{ProgramDecl, ImportDecl, ImportType, file, module_import}
use supreme_doodle.Parser.Complete.{complete_program}
use supreme_doodle.Parser.Answers.{Below, Answers-built}
use supreme_doodle.Parser.Fresh.Programs.{program-Answers}
use supreme_doodle.Parser.Actions.{Builder, built}
use supreme_doodle.Parser.Program.{build_program}
use supreme_doodle.Frontend.{
  TranslationUnit, Contents, Opened, found, missing, Disk, Frontend, Ran, ran, failed, out_of_fuel,
  and_then, member, paths_of, update_at, unit_at, push_imported, set_program, new_unit,
  add_imported_files, open_file, enqueue, report_missing, import_path_of, import_file, import_files,
  store_program, visit_unit, traverse,
}
use supreme_doodle.Frontend.Paths.{paths_of-update_at, length-push, unopened, unopened-new}
use supreme_doodle.Frontend.Invariant.{
  All, All-imply, All-update_at, All-unit_at, Sound, add_imported_files-Sound, new_unit-Sound,
  set_program-Sound,
}

unfoldable pub EndsOf : Ran → (Frontend → Type 0) → Type 0
EndsOf (ran s) P = P s
EndsOf (failed e) P = ⊥
EndsOf out_of_fuel P = ⊥

-- A run that ends in a state with a property.
pub record Ends (r : Ran) (P : Frontend → Type 0) : Type 0 where
  pub holds : EndsOf r P

ended : {P : Frontend → Type 0} {s : Frontend} → P s → Ends (ran s) P
unfolding EndsOf
ended p = record { holds = p }

and_then-Ends :
    {P Q : Frontend → Type 0} (r : Ran) {k : Frontend → Ran}
    → Ends r P
    → ((t : Frontend) → P t → Ends (k t) Q)
    → Ends (and_then r k) Q
unfolding EndsOf
and_then-Ends (ran s) e q = q s e.holds
and_then-Ends (failed x) e q = absurd e.holds
and_then-Ends out_of_fuel e q = absurd e.holds

-- files that are not open, and units that wait
abbrev measure : List String → Frontend → ℕ
measure all s = unopened all (paths_of s.units) + length s.queue

-- Every file among these imports of a unit whose path can be opened is in the list.
unfoldable pub ImportsListed : Disk → List String → String → List ImportDecl → Type 0
ImportsListed disk all unit [] = Unit {0}
ImportsListed disk all unit (d ∷ ds) =
    (d.kind ≡ file
      → (c : Contents) → disk.get_file (disk.append (disk.parent_path unit) d.head.name) ≡ found c
      → member (disk.append (disk.parent_path unit) d.head.name) all ≡ true)
    × ImportsListed disk all unit ds

-- A list of paths with the root, closed under the imports that can be opened, whose parse trees are complete. Two
-- spellings of one file are two paths, since import paths are not made canonical: where a file of the directory `d`
-- imports itself as `../d/a.rx`, each import spells a path that was not there before, and no list is closed.
pub record Finite (disk : Disk) (root : String) (all : List String) : Type 0 where
  pub rooted : member root all ≡ true
  pub closed :
      (p : String) (c : Contents) (b b' : Builder) (d : ProgramDecl)
      → member p all ≡ true
      → disk.get_file p ≡ found c
      → build_program c.text c.tree b ≡ built d b'
      → ImportsListed disk all p d.imports
  pub complete :
      (p : String) (c : Contents)
      → member p all ≡ true
      → disk.get_file p ≡ found c
      → complete_program c.tree ≡ true

-- The unit's path is in the list, and its buffer is what is on the disk.
abbrev pub Placed : Disk → List String → TranslationUnit → Type 0
Placed disk all u = (member u.path all ≡ true) × (disk.get_file u.path ≡ found u.contents)

unit_at-path :
    (p : String) (us : List TranslationUnit) (u : TranslationUnit)
    → unit_at p us ≡ some u
    → u.path ≡ p
unit_at-path p [] u e = cc
unit_at-path p (v ∷ us) u e = elim (Bool-cases (str_eq v.path p)) [
  | inl c ↦
      let here : some v ≡ some u = rw c at e in
      ap (λ (o : Option TranslationUnit). path_of o) (sym here) ∙ (str_eq_iff v.path p).0 c
  | inr c ↦ unit_at-path p us u (rw c at e)
]
  where
    path_of : Option TranslationUnit → String
    path_of none = p
    path_of (some w) = w.path

unit_at-All :
    (P : TranslationUnit → Type 0) (p : String) (us : List TranslationUnit) (u : TranslationUnit)
    → All P us
    → unit_at p us ≡ some u
    → P u
unfolding All
unit_at-All P p [] u a e = cc
unit_at-All P p (v ∷ us) u a e = elim (Bool-cases (str_eq v.path p)) [
  | inl c ↦ let here : some v ≡ some u = rw c at e in subst (λ o. P (unwrap o)) here a.0
  | inr c ↦ unit_at-All P p us u a.1 (rw c at e)
]
  where
    unwrap : Option TranslationUnit → TranslationUnit
    unwrap none = v
    unwrap (some w) = w

record Good (disk : Disk) (root : String) (all : List String) (m : ℕ) (s : Frontend) : Type 0 where
  pub sound : Sound root s
  pub placed : All (Placed disk all) s.units
  pub bound : measure all s ≤ m

-- The queue is empty, and the root file is in the table. Every unit has its syntax tree, and the units of its
-- imported files, and so does every file that the source manager opened.
pub record Loaded (root : String) (s : Frontend) : Type 0 where
  pub drained : s.queue ≡ []
  pub rooted : member root (paths_of s.units) ≡ true
  pub opened : (p : String) → member p s.opened ≡ true → member p (paths_of s.units) ≡ true
  pub units :
      All
        (λ u.
          ((d : ProgramDecl) × (u.program ≡ some d))
          × ((p : String) → member p u.imported ≡ true → member p (paths_of s.units) ≡ true))
        s.units

Loaded-Sound : {root : String} (s : Frontend) → s.queue ≡ [] → Sound root s → Loaded root s
Loaded-Sound s e g = record {
  drained = e;
  rooted = g.rooted;
  opened = g.opened;
  units =
      All-imply
        (λ u o. (
          elim (Option-cases u.program) [ inl n ↦ let w = o.waiting n in cc | inr d ↦ d ],
          o.imports,
        ))
        s.units g.units;
}

module _ (disk : Disk) (root : String) (all : List String) (fin : Finite disk root all) where
  add_imported_files-Good :
      (unit p : String) {m : ℕ} (s : Frontend)
      → member p (paths_of s.units) ≡ true
      → Good disk root all m s
      → Good disk root all m (add_imported_files unit p s)
  unfolding add_imported_files
  add_imported_files-Good unit p {m} s e g = record {
    sound = add_imported_files-Sound unit p s e g.sound;
    placed =
        All-update_at {P = Placed disk all} {Q = Placed disk all} (push_imported p) unit
          (λ u o c. o) (λ u o c. o) s.units g.placed;
    bound =
        subst (λ keys. unopened all keys + length s.queue ≤ m)
          (sym (paths_of-update_at (push_imported p) (λ u. refl) unit s.units)) g.bound;
  }

  enqueue-Good :
      (unit p : String) (c : Contents) {m : ℕ} (s : Frontend)
      → disk.get_file p ≡ found c
      → member p all ≡ true
      → member p (paths_of s.units) ≡ false
      → Good disk root all m s
      → Ends (enqueue unit p c (record s { opened = p ∷ s.opened })) (Good disk root all m)
  unfolding enqueue All
  enqueue-Good unit p c s h l n g =
      let new = unopened-new all (paths_of s.units) p l n in
      let pushed = length-push s.queue p in
      let b = g.bound in
      ended (
        add_imported_files-Good unit p
          (record s {
            opened = p ∷ s.opened;
            units = new_unit p c ∷ s.units;
            queue = s.queue ++ p ∷ [];
          })
          (rw (str_eq_refl p) refl)
          (record {
            sound = new_unit-Sound p c s (fin.complete p c l h) g.sound;
            placed = ((l, h), g.placed);
            bound = omega arith;
          }))

  open_file-Good :
      (unit p : String) (is_open : Bool) (o : Opened) {m : ℕ} (s : Frontend)
      → member p s.opened ≡ is_open
      → disk.get_file p ≡ o
      → ((c : Contents) → disk.get_file p ≡ found c → member p all ≡ true)
      → member p (paths_of s.units) ≡ false
      → Good disk root all m s
      → Ends (open_file is_open p o (enqueue unit p) report_missing s) (Good disk root all m)
  unfolding open_file report_missing
  open_file-Good unit p true o s e h l n g = let known = g.sound.opened p e in cc
  open_file-Good unit p false (missing text) s e h l n g = ended (record {
    sound = record {
      rooted = g.sound.rooted;
      opened = g.sound.opened;
      queued = g.sound.queued;
      units = g.sound.units;
    };
    placed = g.placed;
    bound = g.bound;
  })
  open_file-Good unit p false (found c) s e h l n g = enqueue-Good unit p c s h (l c h) n g

  import_path_of-Good :
      (unit p : String) (known : Bool) {m : ℕ} (s : Frontend)
      → ((c : Contents) → disk.get_file p ≡ found c → member p all ≡ true)
      → member p (paths_of s.units) ≡ known
      → Good disk root all m s
      → Ends (import_path_of disk unit p known s) (Good disk root all m)
  unfolding import_path_of
  import_path_of-Good unit p true s l e g = ended (add_imported_files-Good unit p s e g)
  import_path_of-Good unit p false s l e g =
      open_file-Good unit p (member p s.opened) (disk.get_file p) s refl refl l e g

  import_file-Good :
      (unit : String) (d : ImportDecl) (kind : ImportType) {m : ℕ} (s : Frontend)
      → (kind ≡ file
          → (c : Contents)
          → disk.get_file (disk.append (disk.parent_path unit) d.head.name) ≡ found c
          → member (disk.append (disk.parent_path unit) d.head.name) all ≡ true)
      → Good disk root all m s
      → Ends (import_file disk unit d kind s) (Good disk root all m)
  unfolding import_file
  import_file-Good unit d module_import s l g = ended g
  import_file-Good unit d file s l g = import_path_of-Good unit _ _ s (l refl) refl g

  import_files-Good :
      (unit : String) (ds : List ImportDecl) {m : ℕ} (s : Frontend)
      → ImportsListed disk all unit ds
      → Good disk root all m s
      → Ends (import_files disk unit ds s) (Good disk root all m)
  unfolding import_files ImportsListed
  import_files-Good unit [] s l g = ended g
  import_files-Good unit (d ∷ ds) s l g =
      and_then-Ends (import_file disk unit d d.kind s) (import_file-Good unit d d.kind s l.0 g)
        (λ t h. import_files-Good unit ds t l.1 h)

  -- One round takes the unit off the queue and opens at least as many files as it appends.
  visit_unit-Good :
      (unit : String) (queue : List String) {m : ℕ} (s : Frontend)
      → Sound root (record s { queue = unit ∷ queue })
      → All (Placed disk all) s.units
      → unopened all (paths_of s.units) + length queue ≤ m
      → Ends
          (visit_unit disk unit (unit_at unit s.units) (record s { queue = queue }))
          (Good disk root all m)
  unfolding visit_unit store_program Below
  visit_unit-Good unit queue {m} s g placed b =
      let u = All-unit_at unit s.units g.units (g.queued unit (rw (str_eq_refl unit) refl)) in
      let p =
        Answers-built (program-Answers u.0.contents.text u.0.contents.tree s.builder [] tt)
          u.2.complete in
      let at : u.0.path ≡ unit = unit_at-path unit s.units u.0 u.1 in
      let here = unit_at-All (Placed disk all) unit s.units u.0 placed u.1 in
      let listed : ImportsListed disk all unit p.0.imports =
        subst (λ k. ImportsListed disk all k p.0.imports) at
          (fin.closed u.0.path u.0.contents s.builder p.1 p.0 here.0 here.1 p.2) in
      rw (u.1, p.2)
        (import_files-Good unit p.0.imports
          (record s {
            queue = queue;
            units = update_at (set_program p.0) unit s.units;
            builder = p.1;
          })
          listed
          (record {
            sound = set_program-Sound unit queue p.0 p.1 s g;
            placed =
                All-update_at {P = Placed disk all} {Q = Placed disk all} (set_program p.0) unit
                  (λ v o c. o) (λ v o c. o) s.units placed;
            bound =
                subst (λ keys. unopened all keys + length queue ≤ m)
                  (sym (paths_of-update_at (set_program p.0) (λ v. refl) unit s.units)) b;
          }))

  pub traverse-Loaded :
      (fuel : ℕ) (queue : List String) (s : Frontend)
      → s.queue ≡ queue
      → Sound root s
      → All (Placed disk all) s.units
      → unopened all (paths_of s.units) + length queue ≤ fuel
      → Ends (traverse disk fuel queue s) (Loaded root)
  unfolding traverse
  traverse-Loaded fuel [] s e g a b = ended (Loaded-Sound s e g)
  traverse-Loaded zero (unit ∷ queue) s e g a b = absurd (omega arith)
  traverse-Loaded (suc fuel) (unit ∷ queue) s e g a b =
      and_then-Ends (visit_unit disk unit (unit_at unit s.units) (record s { queue = queue }))
        (visit_unit-Good unit queue s (subst (λ q. Sound root (record s { queue = q })) e g) a
          (omega arith))
        (λ t h. traverse-Loaded fuel t.queue t refl h.sound h.placed h.bound)
