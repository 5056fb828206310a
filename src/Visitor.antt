-- ===== src/Visitor.antt =====
-- compiler/include/rxc/Sema/RecursiveASTVisitor.h: the traversal that the analysis passes refine.
-- A pass overrides some of the `visit` members; an override is given what its node holds, its lexical
-- scope, and the visits of its children as actions, which it may run, in its own order, or leave.
-- The members that no pass overrides stand in the traversal itself. `CurrentScope.back()` is the
-- argument `ls`, and the result stack is the results of the actions.
pub mod Tree
pub mod Contract
use supreme_doodle.Common.{ℕ, Option, none, some, List, [], ◌∷◌, String, map}
use supreme_doodle.Ast.{
  Node, AstNativeType, AstType, AstTypes, AstFields, AstMembers, DeclHead, Number, Decl, Func,
  Param, builtin_type, decl_type_ref, access_type, qual_type, pointer_type, array_type,
  function_type, object_type, enum_type, no_types, type_cons, no_fields, field, no_members, member,
  bare_member,
}
use supreme_doodle.Scopes.{Kind, file_scope, create_new_scope, get_global_scope}
use supreme_doodle.Sema.{Exec, assertion, null_deref, done, fault, pure, fail, ◌>>=◌, ◌>>◌, update}

-- The overrides of the nine `visit` members on types.
pub record TypeVisitor (T : Type 0) : Type 0 where
  pub on_builtin : Node → AstNativeType → Exec T
  pub on_decl_ref : Node → String → ℕ → Exec T
  pub on_access : Node → Exec T → Exec T
  pub on_qual : Node → Exec T → Exec T
  pub on_pointer : Node → Exec T → Exec T
  pub on_array : Node → Exec T → Exec T
  pub on_function : Node → List (Exec T) → Exec T → Exec T
  pub on_object : Node → List (String × Exec T) → Exec T
  pub on_enum : Node → List (String × Option (Exec T)) → Exec T

-- The other overridable members, with the default result.
pub record Visitor (T : Type 0) : Type 0 where
  pub default_result : T
  pub types : TypeVisitor T
  pub on_var : Decl → DeclHead → ℕ → Option (Exec T) → Option (Exec T) → Exec T
  pub on_type_decl : Decl → DeclHead → ℕ → Option (Exec T) → Exec T
  pub on_use_decl : Decl → DeclHead → ℕ → Option (Exec T) → Exec T
  pub on_impl : DeclHead → ℕ → Option (Exec T) → List (Func × Exec T) → Exec T
  pub on_func : Func → ℕ → List (Exec T) → Option (Exec T) → Option (Exec T) → Exec T
  pub on_param : Param → ℕ → Option (Exec T) → Option (Exec T) → Exec T
  pub on_block : ℕ → List (Exec T) → Exec T
  pub on_bool : Node → Exec T
  pub on_char : Node → Exec T
  pub on_num : Node → Number → Exec T
  pub on_string : Node → Exec T

-- The private `visit` of a node that opens a scope: the scope is made on the first visit.
unfoldable pub enter_scope : Kind → ℕ → ℕ → Exec ℕ
enter_scope kind id parent s = elim (s.node_scope id) [
  | some i ↦ done i s
  | none ↦
      let (i, lc) = create_new_scope kind (some parent) s.scopes in
      done i (record s { scopes = lc; node_scope = update s.node_scope id (some i) })
]

-- the same for a program, whose parent is the global scope
unfoldable pub enter_program : ℕ → Exec ℕ
unfolding enter_scope
enter_program id s = elim (s.node_scope id) [
  | some i ↦ done i s
  | none ↦ elim (get_global_scope s.scopes) [
    | none ↦ fault assertion
    | some g ↦ enter_scope file_scope id g s
  ]
]

module _ {T : Type 0} where
  -- `for (…) Last = Visit(…);`
  pub visit_all : T → List (Exec T) → Exec T
  visit_all last [] = pure last
  visit_all last (m ∷ ms) = m >>= λ t. visit_all t ms

  -- `if (Child) Last = Visit(Child);`
  abbrev pub visit_if : T → Option (Exec T) → Exec T
  visit_if last none = pure last
  visit_if last (some m) = m

  -- `Visit(Child)`, which calls through the pointer
  abbrev pub visit_child : Option (Exec T) → Exec T
  visit_child none = fail null_deref
  visit_child (some m) = m

  -- the assertion that the child is there, and its visit
  abbrev pub visit_required : Option (Exec T) → Exec T
  visit_required none = fail assertion
  visit_required (some m) = m

  abbrev pub second : String × Exec T → Exec T
  second (k, m) = m

  abbrev pub second_child : String × Option (Exec T) → Exec T
  second_child (k, m) = visit_child m

  abbrev pub visit_of : Func × Exec T → Exec T
  visit_of (f, m) = m

  unfoldable pub default_types : T → TypeVisitor T
  unfolding visit_all
  default_types d = record {
    on_builtin = λ n t. pure d;
    on_decl_ref = λ n k ls. pure d;
    on_access = λ n parent. parent;
    on_qual = λ n element. element;
    on_pointer = λ n element. element;
    on_array = λ n element. element;
    on_function = λ n params result. visit_all d params >> result;
    on_object = λ n fields. visit_all d (map second fields);
    on_enum = λ n members. visit_all d (map second_child members);
  }

  unfoldable pub default_visitor : T → TypeVisitor T → Visitor T
  unfolding visit_all
  default_visitor d ts = record {
    default_result = d;
    types = ts;
    on_var = λ self h ls type init. visit_if d type >>= λ t. visit_if t init;
    on_type_decl = λ self h ls type. visit_required type;
    on_use_decl = λ self h ls type. visit_required type;
    on_impl = λ h ls type fs. visit_required type >>= λ t. visit_all t (map visit_of fs);
    on_func =
        λ f ls params type body. visit_all d params >> visit_child type >>= λ t. visit_if t body;
    on_param = λ p ls type value. visit_child type >>= λ t. visit_if t value;
    on_block = λ ls stmts. visit_all d stmts;
    on_bool = λ n. pure d;
    on_char = λ n. pure d;
    on_num = λ n v. pure d;
    on_string = λ n. pure d;
  }

  -- `AstType::accept` and the members on types. The type of an enum's member may be missing.
  unfoldable mutual
    pub visit_type : TypeVisitor T → AstType → ℕ → Exec T
    visit_type v (builtin_type n t) ls = v.on_builtin n t
    visit_type v (decl_type_ref n k) ls = v.on_decl_ref n k ls
    visit_type v (access_type n k t) ls = v.on_access n (visit_type v t ls)
    visit_type v (qual_type n t) ls = v.on_qual n (visit_type v t ls)
    visit_type v (pointer_type n t nullable) ls = v.on_pointer n (visit_type v t ls)
    visit_type v (array_type n t) ls = v.on_array n (visit_type v t ls)
    visit_type v (function_type n ps r) ls =
        v.on_function n (visit_types v ps ls) (visit_type v r ls)
    visit_type v (object_type n fs) ls = v.on_object n (visit_fields v fs ls)
    visit_type v (enum_type n ms) ls = v.on_enum n (visit_members v ms ls)

    pub visit_types : TypeVisitor T → AstTypes → ℕ → List (Exec T)
    visit_types v no_types ls = []
    visit_types v (type_cons t ts) ls = visit_type v t ls ∷ visit_types v ts ls

    pub visit_fields : TypeVisitor T → AstFields → ℕ → List (String × Exec T)
    visit_fields v no_fields ls = []
    visit_fields v (field k t fs) ls = (k, visit_type v t ls) ∷ visit_fields v fs ls

    pub visit_members : TypeVisitor T → AstMembers → ℕ → List (String × Option (Exec T))
    visit_members v no_members ls = []
    visit_members v (member k t ms) ls = (k, some (visit_type v t ls)) ∷ visit_members v ms ls
    visit_members v (bare_member k ms) ls = (k, none) ∷ visit_members v ms ls
