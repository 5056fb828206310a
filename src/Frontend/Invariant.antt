-- ===== src/Frontend/Invariant.antt =====
-- compiler/lib/Frontend/TranslationUnitContext.cpp: what holds of the tables and the queue between two imports.
use supreme_doodle.Common.{
  ◌≡◌, refl, sym, true, false, ◌||◌, none, some, List, [], ◌∷◌, ◌++◌, String, str_eq, if◌then◌else◌,
  arith, Bool-cases, inl, inr,
}
use mathlib.Core.Path.{subst}
use supreme_doodle.Ast.{ProgramDecl}
use supreme_doodle.Parser.Complete.{complete_program}
use supreme_doodle.Parser.Actions.{Builder}
use supreme_doodle.Frontend.{
  TranslationUnit, Contents, Frontend, member, paths_of, update_at, unit_at, push_imported,
  set_program, new_unit, add_imported_files,
}
use supreme_doodle.Frontend.Paths.{
  member-append, member-append_last, member_of_append, paths_of-update_at, pushed-known,
  member-weaken, member_other,
}

-- A unit without a syntax tree is still in the queue, its imports are in the table, and its parse tree is complete.
pub record UnitIs (queue keys : List String) (u : TranslationUnit) : Type 0 where
  pub waiting : u.program ≡ none → member u.path queue ≡ true
  pub imports : (p : String) → member p u.imported ≡ true → member p keys ≡ true
  pub complete : complete_program u.contents.tree ≡ true

unfoldable pub All : (TranslationUnit → Type 0) → List TranslationUnit → Type 0
All P [] = Unit {0}
All P (u ∷ us) = P u × All P us

pub All-imply :
    {P Q : TranslationUnit → Type 0}
    → ((u : TranslationUnit) → P u → Q u)
    → (us : List TranslationUnit) → All P us
    → All Q us
unfolding All
All-imply f [] a = tt
All-imply f (u ∷ us) a = (f u a.0, All-imply f us a.1)

-- Every member of the table is changed if it is at the path and kept if it is not.
pub All-update_at :
    {P Q : TranslationUnit → Type 0} (f : TranslationUnit → TranslationUnit) (p : String)
    → ((u : TranslationUnit) → P u → str_eq u.path p ≡ true → Q (f u))
    → ((u : TranslationUnit) → P u → str_eq u.path p ≡ false → Q u)
    → (us : List TranslationUnit) → All P us
    → All Q (update_at f p us)
unfolding All
All-update_at f p g h [] a = tt
All-update_at {Q} f p g h (u ∷ us) a =
    let rest = All-update_at {Q = Q} f p g h us a.1 in
    elim (Bool-cases (str_eq u.path p)) [
      | inl c ↦ (subst (λ b. Q (if b then f u else u)) (sym c) (g u a.0 c), rest)
      | inr c ↦ (subst (λ b. Q (if b then f u else u)) (sym c) (h u a.0 c), rest)
    ]

pub All-unit_at :
    {P : TranslationUnit → Type 0} (p : String) (us : List TranslationUnit)
    → All P us
    → member p (paths_of us) ≡ true
    → (u : TranslationUnit) × (unit_at p us ≡ some u) × P u
unfolding All
All-unit_at p [] a e = cc
All-unit_at p (u ∷ us) a e = elim (Bool-cases (str_eq u.path p)) [
  | inl c ↦ (u, rw (c) refl, a.0)
  | inr c ↦
      let rest = All-unit_at p us a.1 (subst (λ b. (b || member p (paths_of us)) ≡ true) c e) in
      (rest.0, rw (c) rest.1, rest.2)
]

-- Files that the source manager opened are in the table, and so are the root and those of the queue.
pub record Sound (root : String) (s : Frontend) : Type 0 where
  pub rooted : member root (paths_of s.units) ≡ true
  pub opened : (p : String) → member p s.opened ≡ true → member p (paths_of s.units) ≡ true
  pub queued : (p : String) → member p s.queue ≡ true → member p (paths_of s.units) ≡ true
  pub units : All (UnitIs s.queue (paths_of s.units)) s.units

-- An import of a file of the table is added to a unit.
pub add_imported_files-Sound :
    {root : String} (unit p : String) (s : Frontend)
    → member p (paths_of s.units) ≡ true
    → Sound root s
    → Sound root (add_imported_files unit p s)
unfolding add_imported_files
add_imported_files-Sound {root} unit p s e i =
    let same = paths_of-update_at (push_imported p) (λ u. refl) unit s.units in
    record {
      rooted = subst (λ keys. member root keys ≡ true) (sym same) i.rooted;
      opened = λ q m. subst (λ keys. member q keys ≡ true) (sym same) (i.opened q m);
      queued = λ q m. subst (λ keys. member q keys ≡ true) (sym same) (i.queued q m);
      units =
          subst (λ keys. All (UnitIs s.queue keys) (update_at (push_imported p) unit s.units))
            (sym same)
            (All-update_at {Q = UnitIs s.queue (paths_of s.units)} (push_imported p) unit
              (λ u o c. record {
                waiting = o.waiting;
                imports = λ q m. pushed-known q u.imported p (paths_of s.units) e o.imports m;
                complete = o.complete;
              })
              (λ u o c. o) s.units i.units);
    }

-- A file that was opened comes into the table and the queue.
pub new_unit-Sound :
    {root : String} (p : String) (c : Contents) (s : Frontend)
    → complete_program c.tree ≡ true
    → Sound root s
    → Sound root (record s {
      opened = p ∷ s.opened;
      units = new_unit p c ∷ s.units;
      queue = s.queue ++ p ∷ [];
    })
unfolding All
new_unit-Sound {root} p c s e i = record {
  rooted = member-weaken root p (paths_of s.units) i.rooted;
  opened = λ q m. let old = i.opened q in ground arith;
  queued =
      λ q m. let split = member_of_append q s.queue p m in let old = i.queued q in ground arith;
  units = (
    record { waiting = λ n. member-append_last p s.queue; imports = λ q m. cc; complete = e },
    All-imply
        (λ u o. record {
          waiting = λ n. member-append u.path s.queue p (o.waiting n);
          imports = λ q m. member-weaken q p (paths_of s.units) (o.imports q m);
          complete = o.complete;
        })
        s.units i.units,
  );
}

-- The unit in front of the queue got its syntax tree.
pub set_program-Sound :
    {root : String} (unit : String) (queue : List String) (d : ProgramDecl) (b : Builder)
    (s : Frontend)
    → Sound root (record s { queue = unit ∷ queue })
    → Sound root
        (record s { queue = queue; units = update_at (set_program d) unit s.units; builder = b })
unfolding All
set_program-Sound {root} unit queue d b s i =
    let same = paths_of-update_at (set_program d) (λ u. refl) unit s.units in
    record {
      rooted = subst (λ keys. member root keys ≡ true) (sym same) i.rooted;
      opened = λ q m. subst (λ keys. member q keys ≡ true) (sym same) (i.opened q m);
      queued = λ q m.
          subst (λ keys. member q keys ≡ true) (sym same)
            (i.queued q (member-weaken q unit queue m));
      units =
          subst (λ keys. All (UnitIs queue keys) (update_at (set_program d) unit s.units))
            (sym same)
            (All-update_at {Q = UnitIs queue (paths_of s.units)} (set_program d) unit
              (λ u o c. record { waiting = λ n. cc; imports = o.imports; complete = o.complete })
              (λ u o c. record {
                waiting = λ n. let w = o.waiting n in member_other u.path unit queue c w;
                imports = o.imports;
                complete = o.complete;
              })
              s.units i.units);
    }
