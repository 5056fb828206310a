-- ===== src/Parser/Actions.antt =====
-- compiler/lib/Parser/ParseTreeVisitor.h and compiler/include/rxc/AST/ASTContext.h: the state of the visitor, the
-- nodes that it creates, and the ranges of tokens.
use supreme_doodle.Common.{ℕ, ◌+◌, Bool, some, List, [], ◌∷◌, ◌++◌, String, ltb, if◌then◌else◌}
use supreme_doodle.Location.{SourceLocation}
use supreme_doodle.Ast.{Node}
use supreme_doodle.Basic.{Diagnostic}
use supreme_doodle.Parser.Tree.{Interval}

-- `out_of_range` is the exception of `std::string::substr`.
pub data Crash : Type 0 where
  assertion null_deref unreachable out_of_range : Crash

-- `next` is the identity of the node that the context allocates next.
pub record Builder : Type 0 where
  pub next : ℕ
  pub diags : List Diagnostic

pub data Built (A : Type 0) : Type 0 where
  built : A → Builder → Built A
  crash : Crash → Built A

abbrev pub Build : Type 0 → Type 0
Build A = Builder → Built A

abbrev pub pure : {A : Type 0} → A → Build A
pure a s = built a s

abbrev pub fail : {A : Type 0} → Crash → Build A
fail c s = crash c

module _ {A B : Type 0} where
  abbrev pub and_then : Built A → (A → Build B) → Built B
  and_then (built a s) k = k a s
  and_then (crash c) k = crash c

  infixl 5 ◌>>=◌ ◌>>◌
  abbrev pub ◌>>=◌ : Build A → (A → Build B) → Build B
  ◌>>=◌ m k s = and_then (m s) k

  abbrev pub ◌>>◌ : Build A → Build B → Build B
  m >> n = m >>= λ _. n

-- what the visitor reads of a token
pub record Token : Type 0 where
  pub line : ℕ
  pub column : ℕ
  pub size : ℕ

-- `Tokens.get`, the file, and what LLVM's `APFloat` says of a number's text. These are given by the generated
-- lexer and by LLVM.
pub record Source : Type 0 where
  pub token : ℕ → Token
  pub file : ℕ
  pub is_integer : String → Bool

unfoldable pub get_range : Source → Interval → SourceLocation
get_range src i = record {
  file = some src.file;
  loc = record {
    line_start = (src.token i.a).line;
    col_start = (src.token i.a).column + 1;
    line_end = (src.token i.b).line;
    col_end = (src.token i.b).column + (src.token i.b).size;
  };
}

-- `Interval::Union`
abbrev pub union : Interval → Interval → Interval
union i j = record { a = if ltb i.a j.a then i.a else j.a; b = if ltb i.b j.b then j.b else i.b }

-- `Context.createNode` at a location
unfoldable pub create_node : SourceLocation → Build Node
create_node loc s = built (record { id = s.next; loc = loc }) (record s { next = s.next + 1 })

unfoldable pub create_at : Source → Interval → Build Node
unfolding create_node get_range
create_at src i = create_node (get_range src i)

-- `DC.emit`
unfoldable pub report : Diagnostic → Build (Unit {0})
report d s = built tt (record s { diags = s.diags ++ d ∷ [] })

-- The text without its last character.
abbrev pub init : String → String
init String.[] = String.[]
init (String.◌∷◌ c s) = elim s [ String.[] ↦ String.[] | _ ↦ String.◌∷◌ c (init s) ]

-- `substr(1, size() - 2)`
unfoldable pub unquote : String → Build String
unquote String.[] = fail out_of_range
unquote (String.◌∷◌ c s) = pure (init s)
