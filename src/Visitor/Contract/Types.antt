-- ===== src/Visitor/Contract/Types.antt =====
-- compiler/include/rxc/Sema/RecursiveASTVisitor.h: contracts of the visits of types, from contracts of
-- the members.
use supreme_doodle.Common.{ℕ, Option, List, [], ◌∷◌, String, map}
use supreme_doodle.Ast.{
  Node, AstNativeType, AstType, AstTypes, AstFields, AstMembers, builtin_type, decl_type_ref,
  access_type, qual_type, pointer_type, array_type, function_type, object_type, enum_type, no_types,
  type_cons, no_fields, field, no_members, member, bare_member,
}
use supreme_doodle.Sema.{Exec}
use supreme_doodle.Visitor.{
  TypeVisitor, default_types, visit_type, visit_types, visit_fields, visit_members, second,
  second_child,
}
use supreme_doodle.Visitor.Contract.{
  Contract, Meets, AllMeet, OptMeets, Meets-pure, Meets-then, Meets-all, Meets-child,
}

-- `P` holds of every reference in the type.
unfoldable mutual
  pub AllRefs : (Node → Type 0) → AstType → Type 0
  AllRefs P (builtin_type n t) = Unit
  AllRefs P (decl_type_ref n k) = P n
  AllRefs P (access_type n k t) = AllRefs P t
  AllRefs P (qual_type n t) = AllRefs P t
  AllRefs P (pointer_type n t b) = AllRefs P t
  AllRefs P (array_type n t) = AllRefs P t
  AllRefs P (function_type n ps r) = AllRefsTypes P ps × AllRefs P r
  AllRefs P (object_type n fs) = AllRefsFields P fs
  AllRefs P (enum_type n ms) = AllRefsMembers P ms

  pub AllRefsTypes : (Node → Type 0) → AstTypes → Type 0
  AllRefsTypes P no_types = Unit
  AllRefsTypes P (type_cons t ts) = AllRefs P t × AllRefsTypes P ts

  pub AllRefsFields : (Node → Type 0) → AstFields → Type 0
  AllRefsFields P no_fields = Unit
  AllRefsFields P (field k t fs) = AllRefs P t × AllRefsFields P fs

  pub AllRefsMembers : (Node → Type 0) → AstMembers → Type 0
  AllRefsMembers P no_members = Unit
  AllRefsMembers P (member k t ms) = AllRefs P t × AllRefsMembers P ms
  AllRefsMembers P (bare_member k ms) = AllRefsMembers P ms

abbrev pub Any : Node → Type 0
Any n = Unit

mutual
  unfolding AllRefs

  pub all_refs : (t : AstType) → AllRefs Any t
  all_refs (builtin_type n t) = tt
  all_refs (decl_type_ref n k) = tt
  all_refs (access_type n k t) = all_refs t
  all_refs (qual_type n t) = all_refs t
  all_refs (pointer_type n t b) = all_refs t
  all_refs (array_type n t) = all_refs t
  all_refs (function_type n ps r) = (all_refs_types ps, all_refs r)
  all_refs (object_type n fs) = all_refs_fields fs
  all_refs (enum_type n ms) = all_refs_members ms

  all_refs_types : (ts : AstTypes) → AllRefsTypes Any ts
  all_refs_types no_types = tt
  all_refs_types (type_cons t ts) = (all_refs t, all_refs_types ts)

  all_refs_fields : (fs : AstFields) → AllRefsFields Any fs
  all_refs_fields no_fields = tt
  all_refs_fields (field k t fs) = (all_refs t, all_refs_fields fs)

  all_refs_members : (ms : AstMembers) → AllRefsMembers Any ms
  all_refs_members no_members = tt
  all_refs_members (member k t ms) = (all_refs t, all_refs_members ms)
  all_refs_members (bare_member k ms) = all_refs_members ms

module _ (c : Contract) {T : Type 0} (Q : T → Type 0) (ls : ℕ) where
  abbrev pub FieldsMeet : List (String × Exec T) → Type 0
  FieldsMeet [] = Unit
  FieldsMeet ((k, m) ∷ ms) = Meets c ls Q m × FieldsMeet ms

  abbrev pub MembersMeet : List (String × Option (Exec T)) → Type 0
  MembersMeet [] = Unit
  MembersMeet ((k, m) ∷ ms) = OptMeets c Q ls m × MembersMeet ms

  pub fields_meet : (fs : List (String × Exec T)) → FieldsMeet fs → AllMeet c Q ls (map second fs)
  fields_meet [] h = tt
  fields_meet ((k, m) ∷ fs) (h, hs) = (h, fields_meet fs hs)

  pub members_meet :
      (ms : List (String × Option (Exec T))) → MembersMeet ms → AllMeet c Q ls (map second_child ms)
  members_meet [] h = tt
  members_meet ((k, m) ∷ ms) (h, hs) = (Meets-child c Q ls m h, members_meet ms hs)

-- The members keep the contract where their children do, `on_decl_ref` at the references with `P`.
pub record TypesMeet (c : Contract) {T : Type 0} (Q : T → Type 0) (P : Node → Type 0)
    (v : TypeVisitor T) : Type 0 where
  pub builtin : (ls : ℕ) (n : Node) (t : AstNativeType) → Meets c ls Q (v.on_builtin n t)
  pub decl_ref : (ls : ℕ) (n : Node) (k : String) → P n → Meets c ls Q (v.on_decl_ref n k ls)
  pub access : (ls : ℕ) (n : Node) (m : Exec T) → Meets c ls Q m → Meets c ls Q (v.on_access n m)
  pub qual : (ls : ℕ) (n : Node) (m : Exec T) → Meets c ls Q m → Meets c ls Q (v.on_qual n m)
  pub pointer : (ls : ℕ) (n : Node) (m : Exec T) → Meets c ls Q m → Meets c ls Q (v.on_pointer n m)
  pub array : (ls : ℕ) (n : Node) (m : Exec T) → Meets c ls Q m → Meets c ls Q (v.on_array n m)
  pub function :
      (ls : ℕ) (n : Node) (ms : List (Exec T)) (m : Exec T)
      → AllMeet c Q ls ms
      → Meets c ls Q m
      → Meets c ls Q (v.on_function n ms m)
  pub object :
      (ls : ℕ) (n : Node) (fs : List (String × Exec T))
      → FieldsMeet c Q ls fs
      → Meets c ls Q (v.on_object n fs)
  pub enum :
      (ls : ℕ) (n : Node) (ms : List (String × Option (Exec T)))
      → MembersMeet c Q ls ms
      → Meets c ls Q (v.on_enum n ms)

module _ (c : Contract) {T : Type 0} (Q : T → Type 0) (P : Node → Type 0) (v : TypeVisitor T)
    (h : TypesMeet c Q P v) where
  mutual
    unfolding AllRefs visit_type

    type-Meets : (t : AstType) (ls : ℕ) → AllRefs P t → Meets c ls Q (visit_type v t ls)
    type-Meets (builtin_type n t) ls p = h.builtin ls n t
    type-Meets (decl_type_ref n k) ls p = h.decl_ref ls n k p
    type-Meets (access_type n k t) ls p = h.access ls n _ (type-Meets t ls p)
    type-Meets (qual_type n t) ls p = h.qual ls n _ (type-Meets t ls p)
    type-Meets (pointer_type n t b) ls p = h.pointer ls n _ (type-Meets t ls p)
    type-Meets (array_type n t) ls p = h.array ls n _ (type-Meets t ls p)
    type-Meets (function_type n ps r) ls p =
        h.function ls n _ _ (types_meet ps ls p.0) (type-Meets r ls p.1)
    type-Meets (object_type n fs) ls p = h.object ls n _ (type-FieldsMeet fs ls p)
    type-Meets (enum_type n ms) ls p = h.enum ls n _ (type-MembersMeet ms ls p)

    types_meet : (ts : AstTypes) (ls : ℕ) → AllRefsTypes P ts → AllMeet c Q ls (visit_types v ts ls)
    types_meet no_types ls p = tt
    types_meet (type_cons t ts) ls p = (type-Meets t ls p.0, types_meet ts ls p.1)

    type-FieldsMeet :
        (fs : AstFields) (ls : ℕ) → AllRefsFields P fs → FieldsMeet c Q ls (visit_fields v fs ls)
    type-FieldsMeet no_fields ls p = tt
    type-FieldsMeet (field k t fs) ls p = (type-Meets t ls p.0, type-FieldsMeet fs ls p.1)

    type-MembersMeet :
        (ms : AstMembers) (ls : ℕ)
        → AllRefsMembers P ms
        → MembersMeet c Q ls (visit_members v ms ls)
    type-MembersMeet no_members ls p = tt
    type-MembersMeet (member k t ms) ls p = (type-Meets t ls p.0, type-MembersMeet ms ls p.1)
    type-MembersMeet (bare_member k ms) ls p = (tt, type-MembersMeet ms ls p)

  -- A type whose references all have `P` is visited within the contract.
  pub visit_type-Meets : (t : AstType) (ls : ℕ) → AllRefs P t → Meets c ls Q (visit_type v t ls)
  visit_type-Meets t ls p = type-Meets t ls p

-- The same where every reference is admitted.
pub visit-Any-Meets :
    (c : Contract) {T : Type 0} (Q : T → Type 0) (v : TypeVisitor T)
    → TypesMeet c Q Any v
    → (t : AstType) (ls : ℕ) → Meets c ls Q (visit_type v t ls)
visit-Any-Meets c Q v h t ls = visit_type-Meets c Q Any v h t ls (all_refs t)

-- The default members keep every contract that admits the default result.
pub default_types-Meets :
    (c : Contract) {T : Type 0} (Q : T → Type 0) (d : T) → Q d → TypesMeet c Q Any (default_types d)
unfolding default_types
default_types-Meets c Q d q = record {
  builtin = λ ls n t. Meets-pure c d q;
  decl_ref = λ ls n k p. Meets-pure c d q;
  access = λ ls n m h. h;
  qual = λ ls n m h. h;
  pointer = λ ls n m h. h;
  array = λ ls n m h. h;
  function = λ ls n ms m hs h. Meets-then c (Meets-all c Q ls d ms q hs) h;
  object = λ ls n fs hs. Meets-all c Q ls d (map second fs) q (fields_meet c Q ls fs hs);
  enum = λ ls n ms hs. Meets-all c Q ls d (map second_child ms) q (members_meet c Q ls ms hs);
}
