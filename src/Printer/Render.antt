-- ===== src/Printer/Render.antt =====
-- compiler/lib/AST/ASTPrinter.cpp: what is printed, by the positions of the nodes alone.
use supreme_doodle.Common.{
  ℕ, zero, suc, ◌≡◌, refl, ap, Bool, true, false, not, ◌&&◌, some, List, [], ◌∷◌, ◌++◌, map,
  append-nil, append_assoc, get_elem?, length, if◌then◌else◌,
}
use mathlib.Core.Path.{subst}
use supreme_doodle.Printer.{
  Label, Outline, Children, entry, loop, broken, no_children, child, Piece, bar, blank, branch,
  corner, Line, Printer, trues, bars, set_elem?, write_flag, print_mark, print_node, enter, visit,
  visit_children, print,
}

abbrev pub last_child : Children → Bool
last_child no_children = true
last_child (child b o cs) = false

abbrev piece : Bool → Piece
piece last = if last then blank else bar

abbrev mark : Bool → Piece
mark last = if last then corner else branch

-- The lines of a node under ancestors of which it is known, the outermost first, whether each was a last child.
unfoldable mutual
  pub render : List Bool → Bool → Outline → List Line
  render path last (entry l cs) =
      record { prefix = map piece path ++ mark last ∷ []; label = l }
      ∷ render_children (path ++ last ∷ []) cs
  render path last (loop l cs o) = []
  render path last broken = []

  pub render_children : List Bool → Children → List Line
  render_children path no_children = []
  render_children path (child b o cs) = render path (last_child cs) o ++ render_children path cs

unfoldable pub render_root : Outline → List Line
unfolding render
render_root (entry l cs) = record { prefix = []; label = l } ∷ render_children [] cs
render_root (loop l cs o) = []
render_root broken = []

-- no loop and no failed assertion, and at most so many levels
unfoldable mutual
  pub shallow : ℕ → Outline → Bool
  shallow zero o = false
  shallow (suc k) (entry l cs) = shallow_children k cs
  shallow (suc k) (loop l cs o) = false
  shallow (suc k) broken = false

  pub shallow_children : ℕ → Children → Bool
  shallow_children k no_children = true
  shallow_children k (child b o cs) = shallow k o && shallow_children k cs

-- Each scope's flag says whether the child is the last one.
unfoldable mutual
  pub Flagged : Outline → Type 0
  Flagged (entry l cs) = FlaggedAll cs
  Flagged (loop l cs o) = Unit {0}
  Flagged broken = Unit {0}

  pub FlaggedAll : Children → Type 0
  FlaggedAll no_children = Unit {0}
  FlaggedAll (child b o cs) = (b ≡ last_child cs) × Flagged o × FlaggedAll cs

-- The printer below the nodes of a path, with so many levels left.
abbrev below : List Bool → ℕ → List Bool → List Line → Printer
below path k stack out = record {
  depth = length path;
  flags = true ∷ (map not path ++ trues k);
  is_last = stack;
  output = out;
}

set_elem?-path :
    (path : List Bool) (b v : Bool) (bs : List Bool)
    → set_elem? (map not path ++ b ∷ bs) (length path) v ≡ some (map not path ++ v ∷ bs)
set_elem?-path [] b v bs = refl
set_elem?-path (x ∷ path) b v bs = rw (set_elem?-path path b v bs) refl

get_elem?-length :
    (xs : List Bool) (b : Bool) (bs : List Bool) → get_elem? (xs ++ b ∷ bs) (length xs) ≡ some b
get_elem?-length [] b bs = refl
get_elem?-length (x ∷ xs) b bs = get_elem?-length xs b bs

length-push : (xs : List Bool) (b : Bool) → length (xs ++ b ∷ []) ≡ suc (length xs)
length-push [] b = refl
length-push (x ∷ xs) b = ap suc (length-push xs b)

map-push :
    (f : Bool → Bool) (xs : List Bool) (b : Bool) (bs : List Bool)
    → map f (xs ++ b ∷ []) ++ bs ≡ map f xs ++ f b ∷ bs
map-push f [] b bs = refl
map-push f (x ∷ xs) b bs = ap (λ ys. f x ∷ ys) (map-push f xs b bs)

piece-not : (b : Bool) → (if not b then bar else blank) ≡ piece b
piece-not true = refl
piece-not false = refl

-- The loop over the flags behind others reads the path.
bars-path :
    (xs path bs : List Bool)
    → bars (xs ++ (map not path ++ bs)) (length xs) (length path) ≡ some (map piece path)
unfolding bars
bars-path xs [] bs = refl
bars-path xs (b ∷ path) bs =
    let rest =
      subst
        (λ i. bars (xs ++ (not b ∷ (map not path ++ bs))) i (length path) ≡ some (map piece path))
        (length-push xs (not b))
        (subst (λ ys. bars ys (length (xs ++ not b ∷ [])) (length path) ≡ some (map piece path))
          (append_assoc xs (not b ∷ []) (map not path ++ bs))
          (bars-path (xs ++ not b ∷ []) path bs)) in
    rw (get_elem?-length xs (not b) (map not path ++ bs), rest, piece-not b) refl

and_left : (a b : Bool) → (a && b) ≡ true → a ≡ true
and_left true b e = refl
and_left false b e = e

and_right : (a : Bool) {b : Bool} → (a && b) ≡ true → b ≡ true
and_right true e = e
and_right false e = cc

-- A printer that goes one level down.
below-push :
    (path : List Bool) (b : Bool) (k : ℕ) (stack : List Bool) (out : List Line)
    → below (path ++ b ∷ []) k stack out ≡ record {
      depth = suc (length path);
      flags = true ∷ (map not path ++ not b ∷ trues k);
      is_last = stack;
      output = out;
    }
below-push path b k stack out = rw (length-push path b, map-push not path b (trues k)) refl

print_node-below :
    (l : Label) (path : List Bool) (b : Bool) (k : ℕ) (stack : List Bool) (out : List Line)
    → print_node l (enter b (below path (suc k) stack out))
      ≡ some (
          below
            (path ++ b ∷ [])
            k
            (b ∷ stack)
            (out ++ record { prefix = map piece path ++ mark b ∷ []; label = l } ∷ []))
unfolding print_node print_mark write_flag
print_node-below l path true k stack out =
    rw
      (
        bars-path (true ∷ []) path (trues (suc k)),
        set_elem?-path path true false (trues k),
        below-push path true k (true ∷ stack)
            (out ++ record { prefix = map piece path ++ corner ∷ []; label = l } ∷ []),
      )
      refl
print_node-below l path false k stack out =
    rw
      (
        bars-path (true ∷ []) path (trues (suc k)),
        below-push path false k (false ∷ stack)
            (out ++ record { prefix = map piece path ++ branch ∷ []; label = l } ∷ []),
      )
      refl

write_flag-below :
    (path : List Bool) (b : Bool) (k : ℕ) (stack : List Bool) (out : List Line)
    → write_flag true (below (path ++ b ∷ []) k (b ∷ stack) out)
      ≡ some (enter b (below path (suc k) stack out))
unfolding write_flag
write_flag-below path b k stack out =
    rw
      (
        length-push path b,
        map-push not path b (trues k),
        set_elem?-path path (not b) true (trues k),
      )
      refl

mutual
  unfolding visit render shallow Flagged

  visit-render :
      (o : Outline) (path : List Bool) (b : Bool) (k : ℕ) (stack : List Bool) (out : List Line)
      → shallow k o ≡ true
      → Flagged o
      → visit o (enter b (below path k stack out))
        ≡ some (enter b (below path k stack (out ++ render path b o)))
  visit-render o path b zero stack out h g = cc
  visit-render (entry l cs) path b (suc k) stack out h g =
      let line : Line = record { prefix = map piece path ++ mark b ∷ []; label = l } in
      rw
        (
          print_node-below l path b k stack out,
          children-render cs (path ++ b ∷ []) k (b ∷ stack) (out ++ line ∷ []) h g,
          write_flag-below path b k stack
              ((out ++ line ∷ []) ++ render_children (path ++ b ∷ []) cs),
          append_assoc out (line ∷ []) (render_children (path ++ b ∷ []) cs),
        )
        refl
  visit-render (loop l cs o) path b (suc k) stack out h g = cc
  visit-render broken path b (suc k) stack out h g = cc

  children-render :
      (cs : Children) (path : List Bool) (k : ℕ) (stack : List Bool) (out : List Line)
      → shallow_children k cs ≡ true
      → FlaggedAll cs
      → visit_children cs (below path k stack out)
        ≡ some (below path k stack (out ++ render_children path cs))
  children-render no_children path k stack out h g = rw (append-nil out) refl
  children-render (child b o cs) path k stack out h g =
      rw
        (
          visit-render o path b k stack out (and_left (shallow k o) (shallow_children k cs) h) g.1,
          children-render cs path k stack (out ++ render path b o) (and_right (shallow k o) h) g.2,
          append_assoc out (render path b o) (render_children path cs),
          g.0,
        )
        refl

-- An outline whose scopes are flagged rightly, with no loop, no failed assertion and at most 32 levels is printed
-- without a flag out of bounds, and each line's prefix is given by the positions of the node's ancestors
-- alone: a blank below a last child, a bar below any other, and a corner or a branch for the node itself.
pub print-render_root :
    (o : Outline) → shallow 32 o ≡ true → Flagged o → print o ≡ some (render_root o)
unfolding print visit print_node bars print_mark write_flag render_root shallow Flagged
print-render_root (entry l cs) h g =
    rw (children-render cs [] 31 (false ∷ []) (record { prefix = []; label = l } ∷ []) h g) refl
print-render_root (loop l cs o) h g = cc
print-render_root broken h g = cc
