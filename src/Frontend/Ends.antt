-- ===== src/Frontend/Ends.antt =====
-- compiler/lib/Frontend/TranslationUnitContext.cpp: how the traversal of the imports ends.
use supreme_doodle.Common.{
  ℕ, ◌≤◌, ◌≡◌, refl, true, some, List, [], ◌∷◌, String, str_eq_refl, arith, length,
}
use supreme_doodle.Parser.Complete.{complete_program}
use supreme_doodle.Frontend.{
  Contents, found, Disk, Ran, new_unit, open_file, traverse, traverse_from_root, empty, load,
}
use supreme_doodle.Frontend.Paths.{unopened-le, unopened-new}
use supreme_doodle.Frontend.Invariant.{All, Sound}
use supreme_doodle.Frontend.Rounds.{Ends, Finite, Loaded, traverse-Loaded}

start-Sound :
    (root : String) (c : Contents)
    → complete_program c.tree ≡ true
    → Sound root
        (record empty { opened = root ∷ []; units = new_unit root c ∷ []; queue = root ∷ [] })
unfolding All
start-Sound root c e = record {
  rooted = rw (str_eq_refl root) refl;
  opened = λ p m. m;
  queued = λ p m. m;
  units =
      (record { waiting = λ n. rw (str_eq_refl root) refl; imports = λ q m. cc; complete = e }, tt);
}

-- Where a finite list of paths has the root and is closed under the imports of files that can be opened, each path as
-- it is spelled, and all give complete parse trees, the traversal from the root, if it can be opened, ends after at
-- most as many rounds as the list has paths, without a failed assertion, a missing key or a crash of the visitor. No path is opened twice, the queue is empty,
-- the root and all paths that were opened have units, and every unit has its syntax tree and only
-- units of the table among its imported files.
pub load_ends :
    (disk : Disk) (all : List String) (fuel : ℕ) (root : String) (c : Contents)
    → Finite disk root all
    → length all ≤ fuel
    → disk.get_file root ≡ found c
    → (r : Ran) × (load disk fuel root ≡ some r) × Ends r (Loaded root)
unfolding load open_file traverse_from_root All
load_ends disk all fuel root c fin enough h =
    let new = unopened-new all [] root fin.rooted refl in
    let some_left = unopened-le all [] in
    let start = record empty {
      opened = root ∷ [];
      units = new_unit root c ∷ [];
      queue = root ∷ [];
    } in
    (
      traverse disk fuel (root ∷ []) start,
      rw (h, load) refl,
      traverse-Loaded disk root all fin fuel (root ∷ []) start refl
          (start-Sound root c (fin.complete root c fin.rooted h)) ((fin.rooted, h), tt)
          (omega arith),
    )
