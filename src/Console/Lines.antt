-- ===== src/Console/Lines.antt =====
-- compiler/lib/Basic/Diagnostic.cpp: the lines that are printed, by their numbers.
use supreme_doodle.Common.{
  ℕ, zero, suc, ◌+◌, ◌-◌, ◌≤◌, ◌<◌, ◌≡◌, refl, sym, ◌∙◌, ap, true, false, Option, none, some, List,
  [], ◌∷◌, ◌++◌, ltb, if◌then◌else◌, length, drop, index_of, arith, Bool-cases, inl, inr, ◌⊎◌,
  append-nil, append_assoc, length-append,
}
use mathlib.Core.Path.{subst}
use supreme_doodle.Location.{SrcRange}
use supreme_doodle.Console.{
  take, Printed, end_bar, is_newline, line_end, slice, print_line, prepend, print_lines,
  print_source_location,
}

abbrev push_head : ℕ → List (List ℕ) → List (List ℕ)
push_head c [] = (c ∷ []) ∷ []
push_head c (l ∷ ls) = (c ∷ l) ∷ ls

-- The lines of a text, which are separated by newlines.
unfoldable pub lines : List ℕ → List (List ℕ)
lines [] = [] ∷ []
lines (c ∷ cs) = if is_newline c then [] ∷ lines cs else push_head c (lines cs)

-- Of lines numbered from a first one, those of the range.
unfoldable pub numbered : SrcRange → ℕ → List (List ℕ) → List Printed
numbered r n [] = []
numbered r n (l ∷ ls) = print_line r n l (numbered r (n + 1) ls)

-- What is printed of a content: nothing of an empty one, and else its lines in the range.
unfoldable pub selected : SrcRange → List ℕ → List Printed
unfolding lines numbered
selected r [] = []
selected r (c ∷ cs) = numbered r 1 (lines (c ∷ cs))

-- A text without a newline
record Unbroken (xs : List ℕ) : Type 0 where
  absent : index_of is_newline xs ≡ none
  single : lines xs ≡ xs ∷ []

-- A text with a first newline
record Broken (xs : List ℕ) : Type 0 where
  line : List ℕ
  rest : List ℕ
  parts : xs ≡ line ++ 10 ∷ rest
  found : index_of is_newline xs ≡ some (length line)
  split : lines xs ≡ line ∷ lines rest

newline_eq : (c : ℕ) → is_newline c ≡ true → c ≡ 10
newline_eq c e = ground arith

newline_cases : (xs : List ℕ) → Unbroken xs ⊎ Broken xs
unfolding lines
newline_cases [] = inl (record { absent = refl; single = refl })
newline_cases (c ∷ cs) = elim (Bool-cases (is_newline c)) [
  | inl h ↦ inr (record {
    line = [];
    rest = cs;
    parts = ap (λ x. x ∷ cs) (newline_eq c h);
    found = rw (h) refl;
    split = rw (h) refl;
  })
  | inr h ↦ elim (newline_cases cs) [
    | inl u ↦ inl (record { absent = rw (h, u.absent) refl; single = rw (h, u.single) refl })
    | inr b ↦ inr (record {
      line = c ∷ b.line;
      rest = b.rest;
      parts = ap (λ xs. c ∷ xs) b.parts;
      found = rw (h, b.found) refl;
      split = rw (h, b.split) refl;
    })
  ]
]

drop-length : (xs ys : List ℕ) → drop (length xs) (xs ++ ys) ≡ ys
drop-length [] ys = refl
drop-length (x ∷ xs) ys = drop-length xs ys

take-length : (xs ys : List ℕ) → take (length xs) (xs ++ ys) ≡ xs
take-length [] ys = refl
take-length (x ∷ xs) ys = ap (λ zs. x ∷ zs) (take-length xs ys)

print_lines-stop :
    (r : SrcRange) (content : List ℕ) (fuel n start stop : ℕ)
    → ltb stop (length content) ≡ false
    → print_lines r content (suc fuel) n start stop ≡ some []
unfolding print_lines
print_lines-stop r content fuel n start stop h = rw (h, print_lines) refl

print_lines-step :
    (r : SrcRange) (content : List ℕ) (fuel n start stop e : ℕ)
    → ltb stop (length content) ≡ true
    → line_end content start ≡ e
    → print_lines r content (suc fuel) n start stop
      ≡ prepend r n (slice content start e) (print_lines r content fuel (n + 1) (e + 1) e)
unfolding print_lines
print_lines-step r content fuel n start stop e h q =
    subst
      (λ x.
        print_lines r content (suc fuel) n start stop
        ≡ prepend r n (slice content start x) (print_lines r content fuel (n + 1) (x + 1) x))
      q (rw (h, print_lines) refl)

ltb-true : (a b : ℕ) → a < b → ltb a b ≡ true
ltb-true a b h = ground arith

ltb_self : (a : ℕ) → ltb a a ≡ false
ltb_self a = ground arith

slice-rest : (pre rest : List ℕ) → slice (pre ++ rest) (length pre) (length (pre ++ rest)) ≡ rest
slice-rest pre rest =
    let size : length (pre ++ rest) - length pre ≡ length rest =
      omega (arith, length-append pre rest) in
    rw (drop-length pre rest, size)
      (subst (λ xs. take (length rest) xs ≡ rest) (append-nil rest) (take-length rest []))

slice-line :
    (pre line more rest : List ℕ)
    → rest ≡ line ++ 10 ∷ more
    → slice (pre ++ rest) (length pre) (length pre + length line) ≡ line
slice-line pre line more rest e =
    let size : (length pre + length line) - length pre ≡ length line = omega arith in
    rw (drop-length pre rest, size, e) (take-length line (10 ∷ more))

-- What is before a line, with the line and its newline
abbrev passed : List ℕ → List ℕ → List ℕ
passed pre line = pre ++ (line ++ 10 ∷ [])

passed-append :
    (pre line more rest : List ℕ) → rest ≡ line ++ 10 ∷ more → passed pre line ++ more ≡ pre ++ rest
passed-append pre line more rest e =
    append_assoc pre (line ++ 10 ∷ []) more
    ∙ ap (λ xs. pre ++ xs) (append_assoc line (10 ∷ []) more ∙ sym e)

length-passed : (pre line : List ℕ) → length (passed pre line) ≡ length pre + length line + 1
length-passed pre line =
    omega (arith, length-append pre (line ++ 10 ∷ []), length-append line (10 ∷ []))

next_line :
    (r : SrcRange) (pre line more rest : List ℕ) (fuel n stop : ℕ) {ls : Option (List Printed)}
    → rest ≡ line ++ 10 ∷ more
    → print_lines r (passed pre line ++ more) fuel n (length (passed pre line)) stop ≡ ls
    → print_lines r (pre ++ rest) fuel n (length pre + length line + 1) stop ≡ ls
next_line r pre line more rest fuel n stop {ls} e h =
    subst (λ i. print_lines r (pre ++ rest) fuel n i stop ≡ ls) (length-passed pre line)
      (subst (λ xs. print_lines r xs fuel n (length (passed pre line)) stop ≡ ls)
        (passed-append pre line more rest e) h)

in_range : (pre line more : List ℕ) → length pre + length line < length (passed pre line ++ more)
in_range pre line more = omega (arith, length-append (passed pre line) more, length-passed pre line)

shorter :
    (line more rest : List ℕ) (fuel : ℕ)
    → rest ≡ line ++ 10 ∷ more
    → length rest + 2 ≤ suc (suc fuel)
    → length more + 2 ≤ suc fuel
shorter line more rest fuel e f =
    let size : length rest ≡ length line + (length more + 1) =
      ap length e ∙ omega (arith, length-append line (10 ∷ more)) in
    omega arith

-- The loop at the start of a line prints the lines that are left, if it may go on.
print_lines-numbered :
    (fuel : ℕ) (r : SrcRange) (pre rest : List ℕ) (n stop : ℕ)
    → stop < length (pre ++ rest)
    → length rest + 2 ≤ fuel
    → print_lines r (pre ++ rest) fuel n (length pre) stop ≡ some (numbered r n (lines rest))
unfolding numbered
print_lines-numbered zero r pre rest n stop h f = absurd (omega arith)
print_lines-numbered (suc zero) r pre rest n stop h f = absurd (omega arith)
print_lines-numbered (suc (suc fuel)) r pre rest n stop h f = elim (newline_cases rest) [
  | inl u ↦
      print_lines-step r (pre ++ rest) (suc fuel) n (length pre) stop (length (pre ++ rest))
        (ltb-true stop (length (pre ++ rest)) h)
        (rw (drop-length pre rest, u.absent, line_end) refl)
      ∙ rw
          (
            print_lines-stop r (pre ++ rest) fuel (n + 1) (length (pre ++ rest) + 1)
                (length (pre ++ rest)) (ltb_self (length (pre ++ rest))),
            slice-rest pre rest,
            u.single,
          )
          refl
  | inr b ↦
      print_lines-step r (pre ++ rest) (suc fuel) n (length pre) stop (length pre + length b.line)
        (ltb-true stop (length (pre ++ rest)) h) (rw (drop-length pre rest, b.found, line_end) refl)
      ∙ rw
          (
            slice-line pre b.line b.rest rest b.parts,
            next_line r pre b.line b.rest rest (suc fuel) (n + 1) (length pre + length b.line)
                b.parts
                (print_lines-numbered (suc fuel) r (passed pre b.line) b.rest (n + 1)
                  (length pre + length b.line) (in_range pre b.line b.rest)
                  (shorter b.line b.rest rest fuel b.parts f)),
            b.split,
          )
          refl
]

-- The lines of the source that are printed at a location are the lines of the file, split at newlines and counted
-- from one, whose numbers are in the location's range, in order; of an empty file none. The loop ends
-- within two rounds more than the file has bytes.
pub print_source_location-selected :
    (r : SrcRange) (content : List ℕ)
    → print_source_location r content ≡ some (selected r content ++ end_bar ∷ [])
unfolding print_source_location print_lines selected numbered
print_source_location-selected r [] = refl
print_source_location-selected r (c ∷ cs) =
    rw (print_lines-numbered (length (c ∷ cs) + 2) r [] (c ∷ cs) 1 0 (omega arith) (omega arith))
      refl
