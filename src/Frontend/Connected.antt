-- ===== src/Frontend/Connected.antt =====
-- compiler/lib/Frontend/TranslationUnitContext.cpp: the files of the table are reached from the root along imports.
use supreme_doodle.Common.{
  ℕ, zero, suc, ◌≡◌, refl, sym, ◌∙◌, Bool, true, false, ◌||◌, Option, none, some, List, [], ◌∷◌,
  String, str_eq, str_eq_iff, Bool-cases, inl, inr,
}
use mathlib.Core.Path.{subst}
use supreme_doodle.Ast.{ProgramDecl, ImportDecl, ImportType, file, module_import}
use supreme_doodle.Parser.Actions.{Built, built, crash}
use supreme_doodle.Parser.Program.{build_program}
use supreme_doodle.Frontend.{
  TranslationUnit, Contents, Opened, found, missing, Disk, Frontend, Ran, ran, failed, out_of_fuel,
  and_then, member, paths_of, update_at, unit_at, push_imported, set_program, new_unit,
  add_imported_files, open_file, enqueue, report_missing, import_path_of, import_file, import_files,
  store_program, visit_unit, traverse, traverse_from_root, load, empty,
}
use supreme_doodle.Frontend.Paths.{member-append, paths_of-update_at, member-weaken}
use supreme_doodle.Frontend.Graph.{Imports, itself, along}
use supreme_doodle.Frontend.Ahead.{
  Ahead, Imports-Ahead, member-unit_at, update_at-Ahead, new_unit-Ahead, pushed_at,
}

-- Every file of the table is reached from the root.
abbrev pub Connected : String → List TranslationUnit → Type 0
Connected root us = (p : String) → member p (paths_of us) ≡ true → Imports us root p

module _ (root : String) where
  -- what holds while the imports of a unit are added
  record Adding (unit : String) (s : Frontend) : Type 0 where
    connected : Connected root s.units
    present : member unit (paths_of s.units) ≡ true

  -- all but one file were reached, and the import of that one is added
  pushed-Connected :
      (unit p : String) (us : List TranslationUnit)
      → ((q : String) → member q (paths_of us) ≡ true → str_eq p q ≡ false → Imports us root q)
      → Imports us root unit
      → member unit (paths_of us) ≡ true
      → Connected root (update_at (push_imported p) unit us)
  pushed-Connected unit p us others reached present q m =
      let ahead : Ahead us (update_at (push_imported p) unit us) =
        update_at-Ahead (push_imported p) (λ u. refl) (λ u r k. member-append r u.imported p k) unit
          us in
      let there : member q (paths_of us) ≡ true =
        subst (λ keys. member q keys ≡ true)
          (paths_of-update_at (push_imported p) (λ u. refl) unit us) m in
      elim (Bool-cases (str_eq p q)) [
        | inl c ↦
            let at = pushed_at unit p us present in
            subst (Imports (update_at (push_imported p) unit us) root) ((str_eq_iff p q).0 c)
              (along at.0 (Imports-Ahead ahead reached) at.1 at.2)
        | inr c ↦ Imports-Ahead ahead (others q there c)
      ]

  pushed-present :
      (unit p : String) (us : List TranslationUnit)
      → member unit (paths_of us) ≡ true
      → member unit (paths_of (update_at (push_imported p) unit us)) ≡ true
  pushed-present unit p us m =
      subst (λ keys. member unit keys ≡ true)
        (sym (paths_of-update_at (push_imported p) (λ u. refl) unit us)) m

  add_imported_files-Adding :
      (unit p : String) (s : Frontend) → Adding unit s → Adding unit (add_imported_files unit p s)
  unfolding add_imported_files
  add_imported_files-Adding unit p s a = record {
    connected =
        pushed-Connected unit p s.units (λ q m c. a.connected q m) (a.connected unit a.present)
          a.present;
    present = pushed-present unit p s.units a.present;
  }

  enqueue-units :
      (unit p : String) (c : Contents) (s : Frontend)
      → member p (paths_of s.units) ≡ false
      → Adding unit s
      → Connected root (update_at (push_imported p) unit (new_unit p c ∷ s.units))
        × (member unit (paths_of (update_at (push_imported p) unit (new_unit p c ∷ s.units)))
            ≡ true)
  enqueue-units unit p c s absent a =
      let ahead : Ahead s.units (new_unit p c ∷ s.units) = new_unit-Ahead p c s.units absent in
      let present : member unit (paths_of (new_unit p c ∷ s.units)) ≡ true =
        member-weaken unit p (paths_of s.units) a.present in
      (
        pushed-Connected unit p (new_unit p c ∷ s.units)
            (λ q m apart.
              Imports-Ahead ahead
                (a.connected q (subst (λ b. (b || member q (paths_of s.units)) ≡ true) apart m)))
            (Imports-Ahead ahead (a.connected unit a.present)) present,
        pushed-present unit p (new_unit p c ∷ s.units) present,
      )

  -- A run that ends in a state ends in one with a property.
  unfoldable WhenRan : (Frontend → Type 0) → Ran → Type 0
  WhenRan P (ran s) = P s
  WhenRan P (failed e) = Unit
  WhenRan P out_of_fuel = Unit

  and_then-WhenRan :
      (P Q : Frontend → Type 0) (r : Ran) (k : Frontend → Ran)
      → WhenRan P r
      → ((s : Frontend) → P s → WhenRan Q (k s))
      → WhenRan Q (and_then r k)
  unfolding WhenRan
  and_then-WhenRan P Q (ran s) k p h = h s p
  and_then-WhenRan P Q (failed e) k p h = tt
  and_then-WhenRan P Q out_of_fuel k p h = tt

  module _ (disk : Disk) (unit : String) where
    open_file-Adding :
        (p : String) (is_open : Bool) (o : Opened) (s : Frontend)
        → member p (paths_of s.units) ≡ false
        → Adding unit s
        → WhenRan (Adding unit) (open_file is_open p o (enqueue unit p) report_missing s)
    unfolding WhenRan open_file enqueue report_missing add_imported_files
    open_file-Adding p true o s absent a = tt
    open_file-Adding p false (missing text) s absent a = record {
      connected = a.connected;
      present = a.present;
    }
    open_file-Adding p false (found c) s absent a =
        let both = enqueue-units unit p c s absent a in
        record { connected = both.0; present = both.1 }

    import_path_of-Adding :
        (p : String) (known : Bool) (s : Frontend)
        → member p (paths_of s.units) ≡ known
        → Adding unit s
        → WhenRan (Adding unit) (import_path_of disk unit p known s)
    unfolding WhenRan import_path_of
    import_path_of-Adding p true s e a = add_imported_files-Adding unit p s a
    import_path_of-Adding p false s e a =
        open_file-Adding p (member p s.opened) (disk.get_file p) s e a

    import_file-Adding :
        (d : ImportDecl) (kind : ImportType) (s : Frontend)
        → Adding unit s
        → WhenRan (Adding unit) (import_file disk unit d kind s)
    unfolding WhenRan import_file
    import_file-Adding d module_import s a = a
    import_file-Adding d file s a = import_path_of-Adding _ _ s refl a

    import_files-Adding :
        (ds : List ImportDecl) (s : Frontend)
        → Adding unit s
        → WhenRan (Adding unit) (import_files disk unit ds s)
    unfolding WhenRan import_files
    import_files-Adding [] s a = a
    import_files-Adding (d ∷ ds) s a =
        and_then-WhenRan (Adding unit) (Adding unit) (import_file disk unit d d.kind s)
          (import_files disk unit ds) (import_file-Adding d d.kind s a)
          (λ t b. import_files-Adding ds t b)

    store_program-Adding :
        (r : Built ProgramDecl) (s : Frontend)
        → Adding unit s
        → WhenRan (Adding unit) (store_program unit r (λ d. import_files disk unit d.imports) s)
    unfolding WhenRan store_program
    store_program-Adding (crash c) s a = tt
    store_program-Adding (built d b) s a =
        let same = paths_of-update_at (set_program d) (λ u. refl) unit s.units in
        let ahead : Ahead s.units (update_at (set_program d) unit s.units) =
          update_at-Ahead (set_program d) (λ u. refl) (λ u r k. k) unit s.units in
        import_files-Adding d.imports
          (record s { units = update_at (set_program d) unit s.units; builder = b })
          (record {
            connected = λ q m.
                Imports-Ahead ahead (a.connected q (subst (λ keys. member q keys ≡ true) same m));
            present = subst (λ keys. member unit keys ≡ true) (sym same) a.present;
          })

    visit_unit-Adding :
        (o : Option TranslationUnit) (s : Frontend)
        → unit_at unit s.units ≡ o
        → Connected root s.units
        → WhenRan (Adding unit) (visit_unit disk unit o s)
    unfolding WhenRan visit_unit
    visit_unit-Adding none s e c = tt
    visit_unit-Adding (some u) s e c =
        store_program-Adding (build_program u.contents.text u.contents.tree s.builder) s
          (record { connected = c; present = member-unit_at unit s.units u e })

  IsConnected : Frontend → Type 0
  IsConnected s = Connected root s.units

  traverse-IsConnected :
      (disk : Disk) (fuel : ℕ) (queue : List String) (s : Frontend)
      → Connected root s.units
      → WhenRan IsConnected (traverse disk fuel queue s)
  unfolding WhenRan traverse IsConnected
  traverse-IsConnected disk fuel [] s c = c
  traverse-IsConnected disk zero (unit ∷ queue) s c = tt
  traverse-IsConnected disk (suc fuel) (unit ∷ queue) s c =
      and_then-WhenRan (Adding unit) IsConnected
        (visit_unit disk unit (unit_at unit s.units) (record s { queue = queue }))
        (λ t. traverse disk fuel t.queue t)
        (visit_unit-Adding disk unit (unit_at unit s.units) (record s { queue = queue }) refl c)
        (λ t a. traverse-IsConnected disk fuel t.queue t a.connected)

  started : (c : Contents) → Connected root (new_unit root c ∷ [])
  started c q m = elim (Bool-cases (str_eq root q)) [
    | inl e ↦ subst (Imports (new_unit root c ∷ []) root) ((str_eq_iff root q).0 e) itself
    | inr e ↦ let clash : false ≡ true = rw e at m in cc
  ]

  load-WhenRan :
      (disk : Disk) (fuel : ℕ) (c : Contents)
      → disk.get_file root ≡ found c
      → (r : Ran) × (load disk fuel root ≡ some r) × WhenRan IsConnected r
  unfolding load open_file traverse_from_root
  load-WhenRan disk fuel c e =
      let start = record empty {
        opened = root ∷ [];
        units = new_unit root c ∷ [];
        queue = root ∷ [];
      } in
      (
        traverse disk fuel (root ∷ []) start,
        rw (e, load) refl,
        traverse-IsConnected disk fuel (root ∷ []) start (started c),
      )

  load-missing :
      (disk : Disk) (fuel : ℕ) (msg : String)
      → disk.get_file root ≡ missing msg
      → load disk fuel root ≡ none
  unfolding load
  load-missing disk fuel msg e = rw (e, load) refl

  loaded :
      (disk : Disk) (fuel : ℕ) (s : Frontend) (o : Opened)
      → disk.get_file root ≡ o
      → load disk fuel root ≡ some (ran s)
      → Connected root s.units
  unfolding WhenRan IsConnected
  loaded disk fuel s (missing msg) e h =
      let nothing : none ≡ some (ran s) = sym (load-missing disk fuel msg e) ∙ h in cc
  loaded disk fuel s (found c) e h =
      let (r, f, p) = load-WhenRan disk fuel c e in
      let same : some r ≡ some (ran s) = sym f ∙ h in
      subst
        (λ (x : Option Ran). elim x as (λ y. Type 0) [
          | none ↦ Unit
          | some y ↦ WhenRan IsConnected y
        ])
        same p

-- When the traversal from a root file ends, on any disk, every file of the table is reached from the root along
-- the imports of the units of the table.
pub load-Connected :
    (disk : Disk) (fuel : ℕ) (root : String) (s : Frontend)
    → load disk fuel root ≡ some (ran s)
    → Connected root s.units
load-Connected disk fuel root s h = loaded root disk fuel s (disk.get_file root) refl h
