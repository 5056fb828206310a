-- ===== src/Printer.antt =====
-- compiler/lib/AST/ASTPrinter.cpp: the printer of syntax trees. The visit of a node prints its line, visits the
-- children, each under a scope, and resets the flag of its depth. What the tables of the analysis add to a line
-- (types and scopes) is left out, and so are colours.
pub mod Nodes
pub mod Render
pub mod Flags
use Prim.Native.Nat.{compare, Ordering}
use supreme_doodle.Common.{
  ℕ, zero, suc, ◌+◌, ◌-◌, Bool, true, false, Option, none, some, List, [], ◌∷◌, ◌++◌, String,
  get_elem?, set, length, ltb, if◌then◌else◌,
}
use supreme_doodle.Ast.{Node, DeclHead, Number}

-- what stands behind the details of a node; a letter stands in quotes
pub data Shown : Type 0 where
  nothing : Shown
  text : String → Shown
  letter : ℕ → Shown
  number : Number → Shown

-- `PrintNodeDetails`
pub record Label : Type 0 where
  pub name : String
  pub node : Node
  pub decl : Option DeclHead
  pub shown : Shown

-- The visit of a node: its line, and its children with the flags of their scopes. The scope around the body of
-- a `ForStmt` is still open when the flag is reset. `broken` is a failed assertion.
mutual
  pub data Outline : Type 0 where
    entry : Label → Children → Outline
    loop : Label → Children → Outline → Outline
    broken : Outline

  pub data Children : Type 0 where
    no_children : Children
    child : Bool → Outline → Children → Children

-- "| ", "  ", "|-" and "`-"
pub data Piece : Type 0 where
  bar blank branch corner : Piece

pub record Line : Type 0 where
  pub prefix : List Piece
  pub label : Label

-- `is_last` has the newest scope first.
pub record Printer : Type 0 where
  pub depth : ℕ
  pub flags : List Bool
  pub is_last : List Bool
  pub output : List Line

-- `ASTPrinterVisitor`
abbrev pub trues : ℕ → List Bool
trues zero = []
trues (suc n) = true ∷ trues n

abbrev pub new_printer : Printer
new_printer = record { depth = 0; flags = trues 32; is_last = false ∷ []; output = [] }

-- The assertion of the flags' bounds may fail.
abbrev pub and_then : {A B : Type 0} → Option A → (A → Option B) → Option B
and_then none k = none
and_then (some a) k = k a

-- the loop over the flags from a depth on, as many as are left
unfoldable pub bars : List Bool → ℕ → ℕ → Option (List Piece)
bars flags i zero = some []
bars flags i (suc n) =
    let rest = bars flags (suc i) n in
    and_then (get_elem? flags i) (λ b. and_then rest (λ ps. some ((if b then bar else blank) ∷ ps)))

abbrev pub set_elem? : List Bool → ℕ → Bool → Option (List Bool)
set_elem? [] i v = none
set_elem? (x ∷ xs) zero v = some (v ∷ xs)
set_elem? (x ∷ xs) (suc i) v = and_then (set_elem? xs i v) (λ ys. some (x ∷ ys))

-- `DepthFlag[Depth] = …`
unfoldable pub write_flag : Bool → Printer → Option Printer
write_flag b s = and_then (set_elem? s.flags s.depth b) (λ flags. some (record s { flags = flags }))

abbrev pub put : List Piece → Label → Printer → Printer
put ps l s = record s { output = s.output ++ record { prefix = ps; label = l } ∷ [] }

-- the mark of the node itself, for the depth and the newest scope
unfoldable pub print_mark : ℕ → List Bool → List Piece → Label → Printer → Option Printer
unfolding write_flag
print_mark zero ls ps l s = some (put ps l s)
print_mark (suc d) (true ∷ ls) ps l s = write_flag false (put (ps ++ corner ∷ []) l s)
print_mark (suc d) (false ∷ ls) ps l s = some (put (ps ++ branch ∷ []) l s)
print_mark (suc d) [] ps l s = none

abbrev pub pred : ℕ → ℕ
pred zero = zero
pred (suc n) = n

-- `printNodePrefix` and the line
unfoldable pub print_node : Label → Printer → Option Printer
unfolding bars print_mark
print_node l s =
    and_then (bars s.flags 1 (pred s.depth)) (λ ps. print_mark s.depth s.is_last ps l s)

-- `Scope`
abbrev pub enter : Bool → Printer → Printer
enter b s = record s { depth = suc s.depth; is_last = b ∷ s.is_last }

abbrev pub leave : Printer → Printer
leave s = record s { depth = pred s.depth; is_last = elim s.is_last [ [] ↦ [] | b ∷ bs ↦ bs ] }

unfoldable mutual
  unfolding print_node write_flag

  pub visit : Outline → Printer → Option Printer
  visit (entry l cs) s =
      and_then (print_node l s) (λ t. and_then (visit_children cs t) (write_flag true))
  visit (loop l cs body) s = and_then (print_node l s) (λ t. and_then (visit_children cs t) (λ u.
      and_then (visit body (enter true u))
        (λ v. and_then (write_flag true v) (λ w. some (leave w)))))
  visit broken s = none

  pub visit_children : Children → Printer → Option Printer
  visit_children no_children s = some s
  visit_children (child b o cs) s =
      and_then (visit o (enter b s)) (λ t. visit_children cs (leave t))

-- `ASTPrinter::print`
unfoldable pub print : Outline → Option (List Line)
unfolding visit
print o = and_then (visit o new_printer) (λ s. some s.output)
